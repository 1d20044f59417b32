-- ===== src/Prelude/Sets.antt =====
-- A JavaScript `Set`, or an array searched by `includes`: a list in the order of insertion.
use mathlib.Core.Path.{◌≡◌, refl, ◌∙◌}
use mathlib.Core.Logic.{◌↔◌, ◌≢◌, inl, inr}
use mathlib.Core.Bool.{Bool, true, false, ◌||◌}
use mathlib.Core.List.{List, [], ◌∷◌, ◌++◌, Memᴰ}
use mathlib.Core.List.Memᴰ
use native.Mathlib.Omega.{arith}
use zvia.Prelude.Tests.{Equality, ◌==◌, if◌then◌else◌, Bool-cases}

module _ {ℓ} {A : Type ℓ} ⦃e : Equality A⦄ where
  unfoldable pub contains : A → List A → Bool
  contains a [] = false
  contains a (x ∷ xs) = x == a || contains a xs

  -- `set.add(a)`
  unfoldable pub add : List A → A → List A
  add s a = if contains a s then s else s ++ a ∷ []

  unfoldable pub add_all : List A → List A → List A
  add_all s [] = s
  add_all s (x ∷ xs) = add_all (add s x) xs

  pub contains-append :
      (a : A) (xs ys : List A) → contains a (xs ++ ys) ≡ (contains a xs || contains a ys)
  unfolding contains
  contains-append a [] ys = refl
  contains-append a (x ∷ xs) ys = ground (arith, contains-append a xs ys)

  pub contains_iff : (a : A) (xs : List A) → (contains a xs ≡ true) ↔ Memᴰ a xs
  unfolding contains
  contains_iff a [] = (λ h. absurd (ground arith), λ m. absurd (Memᴰ.not-nil m))
  contains_iff a (x ∷ xs) = (
    λ h. elim (Bool-cases (e.same x a)) [
      | inl s ↦ Memᴰ.head (ground (arith, e.same_iff x a))
      | inr n ↦ Memᴰ.tail ((contains_iff a xs).0 (rw n at h))
    ],
    λ m. elim (Memᴰ.cases_cons m) [
      | inl s ↦ ground (arith, e.same_iff x a)
      | inr t ↦ ground (arith, (contains_iff a xs).1 t)
    ],
  )

  pub beq_self : (a : A) → (a == a) ≡ true
  beq_self a = (e.same_iff a a).1 refl

  pub beq_of_ne : (a b : A) → a ≢ b → (a == b) ≡ false
  beq_of_ne a b h = ground (arith, e.same_iff a b)

  pub contains-add : (b : A) (s : List A) (a : A) → contains b (add s a) ≡ (contains b s || a == b)
  unfolding add
  contains-add b s a = elim (Bool-cases (contains a s)) [
    | inl old ↦ rw old (elim (Bool-cases (e.same a b)) [
      | inl same ↦
          let p : a ≡ b = (e.same_iff a b).0 same in
          let q : contains b s ≡ true = rw p at old in rw (same, q)
      | inr other ↦ rw other (ground arith)
    ])
    | inr new ↦ rw new (rw contains-append (unfold contains in ground arith))
  ]

  pub contains-add_all :
      (b : A) (s xs : List A) → contains b (add_all s xs) ≡ (contains b s || contains b xs)
  unfolding add_all
  contains-add_all b s [] = unfold contains in ground arith
  contains-add_all b s (x ∷ xs) =
      contains-add_all b (add s x) xs ∙ rw contains-add (unfold contains in ground arith)
