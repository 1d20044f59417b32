-- ===== src/Prelude/Splitting.antt =====
-- Splitting a text at a character, and joining the parts.
use Prim.Native.Char.{Char, code}
use Prim.Native.Nat.{Ordering, compare}
use Prim.Native.String.{String, ◌++◌ as concat, [] as empty, ◌∷◌ as put}
use mathlib.Core.Path.{◌≡◌, refl, sym, ap, ◌∙◌}
use mathlib.Core.Logic.{inl, inr}
use mathlib.Core.Bool.{Bool, true, false, ◌||◌}
use mathlib.Core.List.{List, [], ◌∷◌}
use native.Mathlib.Omega.{arith}
use text.Mathlib.TextEquality.{codes_equal}
use text.Mathlib.TextLemmas.{nil-append, cons-append}
use zvia.Prelude.Tests.{◌==◌, nat_eq, Bool-cases}
use zvia.Prelude.Lists.{All}
use zvia.Prelude.Words.{begin, split_on, join}

-- whether the character occurs in the text
unfoldable pub holds : Char → String → Bool
holds c empty = false
holds c (put d s) = code d == code c || holds c s

is_equal : (o : Ordering) → (elim o [ Ordering.eq ↦ true | _ ↦ false ]) ≡ true → o ≡ Ordering.eq
is_equal Ordering.lt h = absurd (ground arith)
is_equal Ordering.eq h = refl
is_equal Ordering.gt h = absurd (ground arith)

pub code_inj : (c d : Char) → (code c == code d) ≡ true → c ≡ d
code_inj c d h = codes_equal c d (is_equal (compare (code c) (code d)) h)

put-concat : (c : Char) (s : String) → concat (put c empty) s ≡ put c s
put-concat c s = cons-append c empty s ∙ ap (put c) (nil-append s)

pub split_on-cons :
    (c : Char) (s : String) → (p : String) × (rest : List String) × (split_on c s ≡ p ∷ rest)
unfolding split_on begin
split_on-cons c empty = ("", [], refl)
split_on-cons c (put d s) = elim (Bool-cases (code d == code c)) [
  | inl e ↦ ("", split_on c s, rw e refl)
  | inr e ↦ let (p, rest, h) = split_on-cons c s in (put d p, rest, rw (e, h) refl)
]

join-begin :
    (c d : Char) (parts : List String)
    → join (put c empty) (begin d parts) ≡ put d (join (put c empty) parts)
unfolding begin join
join-begin c d [] = refl
join-begin c d (p ∷ []) = refl
join-begin c d (p ∷ q ∷ rest) = cons-append d p _

-- a separator before the first of the parts
join-fresh :
    (c : Char) (s : String)
    → join (put c empty) ("" ∷ split_on c s) ≡ put c (join (put c empty) (split_on c s))
unfolding join
join-fresh c s =
    let (p, rest, e) = split_on-cons c s in
    rw e (nil-append _ ∙ put-concat c (join (put c empty) (p ∷ rest)))

pub join-split_on : (c : Char) (s : String) → join (put c empty) (split_on c s) ≡ s
unfolding split_on
join-split_on c empty = unfold join in refl
join-split_on c (put d s) = elim (Bool-cases (code d == code c)) [
  | inl e ↦
      rw e
        (join-fresh c s ∙ ap (put c) (join-split_on c s) ∙ ap (λ k. put k s) (sym (code_inj d c e)))
  | inr e ↦ rw e (join-begin c d (split_on c s) ∙ ap (put d) (join-split_on c s))
]

-- A text without the separator is one part.
pub split_on-whole : (c : Char) (s : String) → holds c s ≡ false → split_on c s ≡ s ∷ []
unfolding split_on holds
split_on-whole c empty h = refl
split_on-whole c (put d s) h =
    let e : (code d == code c) ≡ false = ground arith in
    let ih = split_on-whole c s (ground arith) in rw (e, ih) (unfold begin in refl)

begin-append : (d : Char) (p : String) (rest : List String) → begin d (p ∷ rest) ≡ put d p ∷ rest
unfolding begin
begin-append d p rest = refl

-- A text without the separator, and one after it.
pub split_on-concat :
    (c : Char) (s t : String)
    → holds c s ≡ false
    → split_on c (concat s (concat (put c empty) t)) ≡ s ∷ split_on c t
unfolding split_on holds
split_on-concat c empty t h =
    let e = nil-append (concat (put c empty) t) ∙ put-concat c t in
    let same : (code c == code c) ≡ true = ground arith in ap (split_on c) e ∙ rw same refl
split_on-concat c (put d s) t h =
    let e : (code d == code c) ≡ false = ground arith in
    let ih = split_on-concat c s t (ground arith) in
    ap (split_on c) (cons-append d s (concat (put c empty) t))
    ∙ rw (e, ih) (begin-append d s (split_on c t))

begin-all :
    (c d : Char) (parts : List String)
    → (code d == code c) ≡ false
    → All (λ p. holds c p ≡ false) parts
    → All (λ p. holds c p ≡ false) (begin d parts)
unfolding begin holds
begin-all c d [] e k = (rw e refl, tt)
begin-all c d (p ∷ rest) e (h, k) = (rw e h, k)

pub split_on-join :
    (c : Char) (p : String) (parts : List String)
    → All (λ q. holds c q ≡ false) (p ∷ parts)
    → split_on c (join (put c empty) (p ∷ parts)) ≡ p ∷ parts
unfolding join
split_on-join c p [] (h, k) = split_on-whole c p h
split_on-join c p (q ∷ parts) (h, k) =
    split_on-concat c p (join (put c empty) (q ∷ parts)) h
    ∙ ap (λ l. p ∷ l) (split_on-join c q parts k)

-- No part holds the separator.
pub holds-split_on : (c : Char) (s : String) → All (λ p. holds c p ≡ false) (split_on c s)
unfolding split_on holds
holds-split_on c empty = (refl, tt)
holds-split_on c (put d s) = elim (Bool-cases (code d == code c)) [
  | inl e ↦ rw e (refl, holds-split_on c s)
  | inr e ↦ rw e (begin-all c d (split_on c s) e (holds-split_on c s))
]

pub holds-concat : (c : Char) (s t : String) → holds c (concat s t) ≡ (holds c s || holds c t)
unfolding holds
holds-concat c empty t = ap (holds c) (nil-append t)
holds-concat c (put d s) t = ap (holds c) (cons-append d s t) ∙ ground (arith, holds-concat c s t)
