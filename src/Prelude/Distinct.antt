-- ===== src/Prelude/Distinct.antt =====
-- Lists in which no text stands twice.
use mathlib.Core.Path.{◌≡◌, refl, ◌∙◌}
use mathlib.Core.Bool.{true, false, not, ◌&&◌}
use mathlib.Core.Logic.{inl, inr}
use mathlib.Core.List.{List, [], ◌∷◌, ◌++◌}
use Prim.Native.String.{String}
use native.Mathlib.Omega.{arith}
use text.Mathlib.TextEquality.{eq_iff}
use zvia.Prelude.Tests.{◌==◌, string_eq, Bool-cases}
use zvia.Prelude.Lists.{filter}
use zvia.Prelude.Sets.{contains, contains-append, add}

abbrev pub Distinct : List String → Type 0
Distinct [] = Unit
Distinct (t ∷ ts) = (contains t ts ≡ false) × Distinct ts

abbrev pub Disjoint : List String → List String → Type 0
Disjoint l m = (x : String) → contains x l ≡ true → contains x m ≡ false

-- A list of one, and a list that is longer at the end.
pub contains-one : (x a : String) → contains x (a ∷ []) ≡ (a == x)
unfolding contains
contains-one x a = ground arith

pub Distinct-append :
    (l m : List String) → Distinct l → Distinct m → Disjoint l m → Distinct (l ++ m)
unfolding contains
Distinct-append [] m dl dm h = dm
Distinct-append (t ∷ l) m dl dm h = (
  rw contains-append (ground (arith, dl.0, h t (ground (arith, eq_iff t t)))),
  Distinct-append l m dl.1 dm (λ x c. h x (ground arith)),
)

pub Distinct-concat :
    (l : List String) (a : String) → contains a l ≡ false → Distinct l → Distinct (l ++ a ∷ [])
unfolding contains
Distinct-concat l a new h =
    Distinct-append l (a ∷ []) h (refl, tt)
      (λ x c. elim (Bool-cases (a == x)) [
        | inl e ↦ absurd (ground (arith, eq_iff a x))
        | inr n ↦ rw n
      ])

pub add-Distinct : (l : List String) (a : String) → Distinct l → Distinct (add l a)
unfolding add
add-Distinct l a h = elim (Bool-cases (contains a l)) [
  | inl old ↦ rw old h
  | inr new ↦ rw new (Distinct-concat l a new h)
]

pub contains-filter_ne :
    (x a : String) (l : List String)
    → contains x (filter (λ y. not (y == a)) l) ≡ (contains x l && not (a == x))
unfolding contains filter
contains-filter_ne x a [] = refl
contains-filter_ne x a (y ∷ l) =
    ground (arith, contains-filter_ne x a l, eq_iff y a, eq_iff y x, eq_iff a x)

pub filter-Distinct :
    (a : String) (l : List String) → Distinct l → Distinct (filter (λ y. not (y == a)) l)
unfolding filter
filter-Distinct a [] h = tt
filter-Distinct a (y ∷ l) h = elim (Bool-cases (y == a)) [
  | inl e ↦ rw e (filter-Distinct a l h.1)
  | inr n ↦ rw n (contains-filter_ne y a l ∙ rw h.0, filter-Distinct a l h.1)
]

-- A list is as it was without a text that it does not hold.
pub filter_absent :
    (a : String) (l : List String) → contains a l ≡ false → filter (λ y. not (y == a)) l ≡ l
unfolding filter contains
filter_absent a [] h = refl
filter_absent a (y ∷ l) h = ground (arith, filter_absent a l, eq_iff y a)
