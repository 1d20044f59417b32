-- ===== src/Prelude/Dict.antt =====
-- A JavaScript object or `Map` with text keys: an association list in the order of insertion.
-- (The keys of the program's dictionaries begin with a letter, so no key is an array index.)
use Prim.Native.String.{String}
use mathlib.Core.Path.{◌≡◌, refl, ◌∙◌}
use mathlib.Core.Logic.{inl, inr}
use mathlib.Core.Bool.{Bool, false, not, ◌&&◌, ◌||◌}
use mathlib.Core.Option.{Option, none, some}
use mathlib.Core.List.{List, [], ◌∷◌, map, Memᴰ}
use native.Mathlib.Omega.{arith}
use text.Mathlib.TextEquality.{eq_iff}
use zvia.Prelude.Tests.{◌==◌, string_eq, if◌then◌else◌, is_some, Bool-cases}
use zvia.Prelude.Lists.{any, All}

abbrev pub Dict {ℓ} : Type ℓ → Type ℓ
Dict V = List (String × V)

module _ {ℓ} {V : Type ℓ} where
  -- `d[k]`
  unfoldable pub lookup : String → Dict V → Option V
  lookup k [] = none
  lookup k ((j, v) ∷ d) = if j == k then some v else lookup k d

  -- `d[k] = v`: in place, or at the end
  unfoldable pub insert : String → V → Dict V → Dict V
  insert k v [] = (k, v) ∷ []
  insert k v ((j, w) ∷ d) = if j == k then (j, v) ∷ d else (j, w) ∷ insert k v d

  -- a mutation of the object that `d[k]` is, if there is one
  unfoldable pub update : String → (V → V) → Dict V → Dict V
  update k f [] = []
  update k f ((j, w) ∷ d) = if j == k then (j, f w) ∷ d else (j, w) ∷ update k f d

  -- `delete d[k]`
  unfoldable pub remove : String → Dict V → Dict V
  remove k [] = []
  remove k ((j, w) ∷ d) = let rest = remove k d in if j == k then rest else (j, w) ∷ rest

  abbrev pub has : String → Dict V → Bool
  has k d = is_some (lookup k d)

  abbrev pub keys : Dict V → List String
  keys d = map (λ e. e.0) d

  -- `Object.values(d)`
  abbrev pub values : Dict V → List V
  values d = map (λ e. e.1) d

  -- Each key stands once, so that every entry is the one found under its key.
  abbrev pub IsDict : Dict V → Type ℓ
  IsDict d = All (λ e. lookup e.0 d ≡ some e.1) d

  pub lookup-insert :
      (k j : String) (v : V) (d : Dict V)
      → lookup j (insert k v d) ≡ (if k == j then some v else lookup j d)
  unfolding lookup insert
  lookup-insert k j v [] = refl
  lookup-insert k j v ((i, w) ∷ d) =
      ground (arith, eq_iff k j, eq_iff i k, eq_iff i j, lookup-insert k j v d)

  pub lookup-remove :
      (k j : String) (d : Dict V) → lookup j (remove k d) ≡ (if k == j then none else lookup j d)
  unfolding lookup remove
  lookup-remove k j [] = ground arith
  lookup-remove k j ((i, w) ∷ d) =
      ground (arith, eq_iff k j, eq_iff i k, eq_iff i j, lookup-remove k j d)

  -- `Option.map`, as the statement of `lookup-update` computes with it
  abbrev pub map_some {κ} : {W : Type κ} → (V → W) → Option V → Option W
  map_some f none = none
  map_some f (some v) = some (f v)

  pub lookup-update :
      (k j : String) (f : V → V) (d : Dict V)
      → lookup j (update k f d) ≡ (if k == j then map_some f (lookup j d) else lookup j d)
  unfolding lookup update
  lookup-update k j f [] = ground arith
  lookup-update k j f ((i, w) ∷ d) =
      ground (arith, eq_iff k j, eq_iff i k, eq_iff i j, lookup-update k j f d)

  -- A key is there exactly when some entry has it.
  pub has-any : (k : String) (d : Dict V) → has k d ≡ any (λ e. e.0 == k) d
  unfolding lookup any
  has-any k [] = refl
  has-any k ((j, w) ∷ d) = ground (arith, has-any k d)

  pub mem_of_lookup : (k : String) (d : Dict V) {v : V} → lookup k d ≡ some v → Memᴰ (k, v) d
  unfolding lookup
  mem_of_lookup k [] h = cc
  mem_of_lookup k ((j, w) ∷ d) {v} h = elim (Bool-cases (j == k)) [
    | inl e ↦ Memᴰ.head (ground (arith, eq_iff j k))
    | inr e ↦ Memᴰ.tail (mem_of_lookup k d (rw e at h))
  ]

  abbrev pub passes : (V → Bool) → Option V → Bool
  passes p none = false
  passes p (some v) = p v

  any-at_key_in :
      (k : String) (p : V → Bool) (d m : Dict V)
      → All (λ e. lookup e.0 d ≡ some e.1) m
      → any (λ e. e.0 == k && p e.1) m ≡ (any (λ e. e.0 == k) m && passes p (lookup k d))
  unfolding any
  any-at_key_in k p d [] h = refl
  any-at_key_in k p d ((j, w) ∷ m) h =
      let ih = any-at_key_in k p d m h.1 in let found = h.0 in ground (arith, eq_iff j k)

  -- Under distinct keys, a test of the entries at a key is a test of the value found there.
  pub any-at_key :
      (k : String) (p : V → Bool) (d : Dict V)
      → IsDict d
      → any (λ e. e.0 == k && p e.1) d ≡ passes p (lookup k d)
  any-at_key k p d h = any-at_key_in k p d d h ∙ rw (← has-any k d) (ground arith)

  pub has-insert : (k j : String) (v : V) (d : Dict V) → has j (insert k v d) ≡ (k == j || has j d)
  has-insert k j v d = elim (Bool-cases (k == j)) [
    | inl e ↦ rw (lookup-insert, e)
    | inr n ↦ rw (lookup-insert, n)
  ]

  pub has-remove : (k j : String) (d : Dict V) → has j (remove k d) ≡ (has j d && not (k == j))
  has-remove k j d = elim (Bool-cases (k == j)) [
    | inl e ↦ rw (lookup-remove, e) (ground arith)
    | inr n ↦ rw (lookup-remove, n) (ground arith)
  ]
