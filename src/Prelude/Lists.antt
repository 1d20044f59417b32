-- ===== src/Prelude/Lists.antt =====
-- Lists under Boolean tests: `some`, `every`, `filter`, `find`, and lengths in native numbers.
use Prim.Native.Nat.{ℕ, zero, suc, ◌+◌, ◌≤◌}
use mathlib.Core.Path.{◌≡◌, refl}
use mathlib.Core.Logic.{◌⊎◌, inl, inr}
use mathlib.Core.Bool.{Bool, true, false, ◌&&◌, ◌||◌}
use mathlib.Core.Option.{Option, none, some}
use mathlib.Core.List.{List, [], ◌∷◌, ◌++◌, Memᴰ}
use mathlib.Core.List.Memᴰ
use native.Mathlib.Omega.{arith}
use zvia.Prelude.Tests.{if◌then◌else◌, Bool-cases}

module _ {ℓ} {A : Type ℓ} where
  abbrev pub length : List A → ℕ
  length [] = 0
  length (x ∷ xs) = suc (length xs)

  unfoldable pub any : (A → Bool) → List A → Bool
  any p [] = false
  any p (x ∷ xs) = p x || any p xs

  unfoldable pub all : (A → Bool) → List A → Bool
  all p [] = true
  all p (x ∷ xs) = p x && all p xs

  unfoldable pub filter : (A → Bool) → List A → List A
  filter p [] = []
  filter p (x ∷ xs) = if p x then x ∷ filter p xs else filter p xs

  unfoldable pub find : (A → Bool) → List A → Option A
  find p [] = none
  find p (x ∷ xs) = if p x then some x else find p xs

  abbrev pub get_elem_or : List A → ℕ → A → A
  get_elem_or [] n d = d
  get_elem_or (x ∷ xs) zero d = x
  get_elem_or (x ∷ xs) (suc n) d = get_elem_or xs n d

  abbrev pub head? : List A → Option A
  head? [] = none
  head? (x ∷ xs) = some x

  abbrev pub get_last? : List A → Option A
  get_last? [] = none
  get_last? (x ∷ []) = some x
  get_last? (x ∷ y ∷ xs) = get_last? (y ∷ xs)

  abbrev pub All {κ} : (A → Type κ) → List A → Type κ
  All P [] = Unit
  All P (x ∷ xs) = P x × All P xs

  pub length-append : (xs ys : List A) → length (xs ++ ys) ≡ length xs + length ys
  length-append [] ys = omega arith
  length-append (x ∷ xs) ys = omega (arith, length-append xs ys)

  pub any-append : (p : A → Bool) (xs ys : List A) → any p (xs ++ ys) ≡ (any p xs || any p ys)
  unfolding any
  any-append p [] ys = refl
  any-append p (x ∷ xs) ys = ground (arith, any-append p xs ys)

  pub any_of_mem : (p : A → Bool) {x : A} (xs : List A) → Memᴰ x xs → p x ≡ true → any p xs ≡ true
  unfolding any
  any_of_mem p [] m h = elim m [ ]
  any_of_mem p (y ∷ ys) (Memᴰ.head e) h = ground arith
  any_of_mem p (y ∷ ys) (Memᴰ.tail m) h = ground (arith, any_of_mem p ys m h)

  pub mem_of_any :
      (p : A → Bool) (xs : List A) → any p xs ≡ true → (x : A) × Memᴰ x xs × (p x ≡ true)
  unfolding any
  mem_of_any p [] h = absurd (ground arith)
  mem_of_any p (x ∷ xs) h = elim (Bool-cases (p x)) [
    | inl e ↦ (x, Memᴰ.head refl, e)
    | inr e ↦ let (y, m, q) = mem_of_any p xs (rw e at h) in (y, Memᴰ.tail m, q)
  ]

  pub filter-append :
      (p : A → Bool) (xs ys : List A) → filter p (xs ++ ys) ≡ filter p xs ++ filter p ys
  unfolding filter
  filter-append p [] ys = refl
  filter-append p (x ∷ xs) ys = ground (arith, filter-append p xs ys)

  pub filter_congr :
      (p q : A → Bool) (xs : List A) → ((x : A) → Memᴰ x xs → p x ≡ q x) → filter p xs ≡ filter q xs
  unfolding filter
  filter_congr p q [] h = refl
  filter_congr p q (x ∷ xs) h =
      let ih = filter_congr p q xs (λ y m. h y (Memᴰ.tail m)) in
      ground (arith, h x (Memᴰ.head refl))

  pub filter-all :
      (p : A → Bool) (xs : List A) → ((x : A) → Memᴰ x xs → p x ≡ true) → filter p xs ≡ xs
  unfolding filter
  filter-all p [] h = refl
  filter-all p (x ∷ xs) h =
      let ih = filter-all p xs (λ y m. h y (Memᴰ.tail m)) in ground (arith, h x (Memᴰ.head refl))

  pub mem_of_mem-filter :
      (p : A → Bool) {x : A} (xs : List A) → Memᴰ x (filter p xs) → Memᴰ x xs × (p x ≡ true)
  unfolding filter
  mem_of_mem-filter p [] m = absurd (Memᴰ.not-nil m)
  mem_of_mem-filter p {x} (y ∷ ys) m = elim (Bool-cases (p y)) [
    | inl e ↦ elim (Memᴰ.cases_cons (rw e at m)) [
      | inl s ↦ (Memᴰ.head s, rw s e)
      | inr t ↦ let (a, b) = mem_of_mem-filter p ys t in (Memᴰ.tail a, b)
    ]
    | inr e ↦ let (a, b) = mem_of_mem-filter p ys (rw e at m) in (Memᴰ.tail a, b)
  ]

  pub length-filter-le : (p : A → Bool) (xs : List A) → length (filter p xs) ≤ length xs
  unfolding filter
  length-filter-le p [] = omega arith
  length-filter-le p (x ∷ xs) = ground (arith, length-filter-le p xs)

  pub All_of_mem {κ} : (P : A → Type κ) {x : A} (xs : List A) → All P xs → Memᴰ x xs → P x
  All_of_mem P [] h m = elim m [ ]
  All_of_mem P (y ∷ ys) h (Memᴰ.head e) = rw e h.0
  All_of_mem P (y ∷ ys) h (Memᴰ.tail m) = All_of_mem P ys h.1 m

  pub All-append {κ} : (P : A → Type κ) (xs ys : List A) → All P xs → All P ys → All P (xs ++ ys)
  All-append P [] ys h k = k
  All-append P (x ∷ xs) ys h k = (h.0, All-append P xs ys h.1 k)

  -- What `find` answers: an element that passes the test, or that none does.
  pub find_cases :
      (p : A → Bool) (xs : List A)
      → ((find p xs ≡ none) × (any p xs ≡ false))
        ⊎ ((x : A) × (find p xs ≡ some x) × Memᴰ x xs × (p x ≡ true))
  unfolding find any
  find_cases p [] = inl (refl, refl)
  find_cases p (x ∷ xs) = elim (Bool-cases (p x)) [
    | inl e ↦ inr (x, rw e, Memᴰ.head refl, e)
    | inr e ↦ elim (find_cases p xs) [
      | inl h ↦ inl (rw e h.0, rw e h.1)
      | inr (y, f, m, q) ↦ inr (y, rw e f, Memᴰ.tail m, q)
    ]
  ]
