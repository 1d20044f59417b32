-- ===== src/Prelude/Decimal.antt =====
-- Numbers as JavaScript prints them in a template text, and `toLowerCase` on ASCII text.
use Prim.Native.Nat.{ℕ, zero, suc, ◌+◌, ◌-◌, ◌/◌, ◌%◌, ◌<◌}
use Prim.Native.Char.{Char, code}
use Prim.Native.String.{String, ◌++◌, slice, count, find, len, [], ◌∷◌}
use mathlib.Core.Path.{◌≡◌, refl, sym, ap, ap₂, ◌∙◌}
use mathlib.Core.Bool.{Bool, true, ◌&&◌}
use mathlib.Core.Logic.{inl, inr, ◌≢◌}
use native.Mathlib.Omega.{arith}
use text.Mathlib.TextEquality.{eq_iff}
use text.Mathlib.TextLemmas.{
  nil-append, cons-append, append_assoc, length-append, length-nil, append_inj,
}
use zvia.Prelude.Tests.{ltb, ◌==◌, nat_eq, nat_beq_iff, string_eq, if◌then◌else◌, Bool-cases}

unfoldable pub digit : ℕ → String
digit d = slice "0123456789" d (d + 1)

unfoldable pub show_digits : ℕ → ℕ → String
unfolding digit
show_digits zero n = ""
show_digits (suc f) n =
    let rest = show_digits f (n / 10) in (if ltb n 10 then "" else rest) ++ digit (n % 10)

-- `${n}`. Every digit takes one round, and a number has fewer digits than its value plus one.
unfoldable pub show : ℕ → String
unfolding show_digits
show n = show_digits (suc n) n

unfoldable pub lower_char : Char → String
lower_char c =
    if ltb (code c) b'A'
    then c ∷ []
    else if ltb b'Z' (code c)
    then c ∷ []
    else slice "abcdefghijklmnopqrstuvwxyz" (code c - b'A') (code c - b'A' + 1)

-- `text.toLowerCase()`, for the ASCII letters.
unfoldable pub lower : String → String
unfolding lower_char
lower [] = ""
lower (c ∷ s) = lower_char c ++ lower s

unfoldable pub upper_char : Char → String
upper_char c =
    if ltb (code c) b'a'
    then c ∷ []
    else if ltb b'z' (code c)
    then c ∷ []
    else slice "ABCDEFGHIJKLMNOPQRSTUVWXYZ" (code c - b'a') (code c - b'a' + 1)

-- `s.charAt(0).toUpperCase() + s.slice(1)`, for ASCII text.
unfoldable pub capitalise : String → String
unfolding upper_char
capitalise [] = ""
capitalise (c ∷ s) = upper_char c ++ s

-- `s.replace(/suffix$/, '')`
unfoldable pub strip_suffix : String → String → String
strip_suffix suffix s =
    if slice s (len s - len suffix) (len s) == suffix then slice s 0 (len s - len suffix) else s

strip_suffix_test : strip_suffix ".service" (capitalise "docker.service") ≡ "Docker"
unfolding strip_suffix capitalise
strip_suffix_test = refl

show_test : show 40507 ≡ "40507"
unfolding show
show_test = refl

lower_test : lower "Api-2.Example.COM" ≡ "api-2.example.com"
unfolding lower
lower_test = refl

pub lower-append : (s t : String) → lower (s ++ t) ≡ lower s ++ lower t
unfolding lower
lower-append [] t = rw nil-append (sym (nil-append (lower t)))
lower-append (c ∷ s) t = rw cons-append (
    ap (λ r. lower_char c ++ r) (lower-append s t)
    ∙ sym (append_assoc (lower_char c) (lower s) (lower t)))

unfoldable pub all_digits : (P : ℕ → Bool) → ℕ → Bool
all_digits P zero = true
all_digits P (suc n) = P n && all_digits P n

pub all_digits_sound : (P : ℕ → Bool) (n d : ℕ) → all_digits P n ≡ true → d < n → P d ≡ true
unfolding all_digits
all_digits_sound P zero d h l = absurd (omega arith)
all_digits_sound P (suc n) d h l = ground (arith, all_digits_sound P n d)

-- Facts about the ten digits, by evaluation.
pub count-digit : (d : ℕ) → d < 10 → count (digit d) ≡ 1
unfolding all_digits digit
count-digit d h = (nat_beq_iff _ _).0 (all_digits_sound (λ k. count (digit k) == 1) 10 d refl h)

digit_value : (d : ℕ) → d < 10 → find "0123456789" (digit d) ≡ d
unfolding all_digits digit
digit_value d h =
    (nat_beq_iff _ _).0 (all_digits_sound (λ k. find "0123456789" (digit k) == k) 10 d refl h)

lower-digit : (d : ℕ) → d < 10 → lower (digit d) ≡ digit d
unfolding all_digits digit lower
lower-digit d h = (eq_iff _ _).0 (all_digits_sound (λ k. lower (digit k) == digit k) 10 d refl h)

digit_inj : (a b : ℕ) → a < 10 → b < 10 → digit a ≡ digit b → a ≡ b
digit_inj a b p q e = sym (digit_value a p) ∙ ap (λ s. find "0123456789" s) e ∙ digit_value b q

lower-show_digits : (f n : ℕ) → lower (show_digits f n) ≡ show_digits f n
unfolding show_digits
lower-show_digits zero n = unfold lower in refl
lower-show_digits (suc f) n =
    let d : lower (digit (n % 10)) ≡ digit (n % 10) = lower-digit (n % 10) (omega arith) in
    let ih = lower-show_digits f (n / 10) in
    elim (Bool-cases (ltb n 10)) [
      | inl e ↦
          rw e (lower-append "" (digit (n % 10)) ∙ ap₂ (λ a b. a ++ b) (unfold lower in refl) d)
      | inr e ↦
          rw e (lower-append (show_digits f (n / 10)) (digit (n % 10)) ∙ ap₂ (λ a b. a ++ b) ih d)
    ]

pub lower-show : (n : ℕ) → lower (show n) ≡ show n
unfolding show
lower-show n = lower-show_digits (suc n) n

pub show_digits-pos : (f n : ℕ) → n < f → count (show_digits f n) ≢ 0
unfolding show_digits
show_digits-pos zero n h = elim h [ ]
show_digits-pos (suc f) n h =
    let c = length-append (if ltb n 10 then "" else show_digits f (n / 10)) (digit (n % 10)) in
    omega (arith, c, count-digit (n % 10) (omega arith))

-- Two numbers are printed alike only if they are equal.
show_digits_inj : (f g n m : ℕ) → n < f → m < g → show_digits f n ≡ show_digits g m → n ≡ m
unfolding show_digits
show_digits_inj zero g n m p q e = elim p [ ]
show_digits_inj (suc f) zero n m p q e = elim q [ ]
show_digits_inj (suc f) (suc g) n m p q e =
    let a = if ltb n 10 then "" else show_digits f (n / 10) in
    let b = if ltb m 10 then "" else show_digits g (m / 10) in
    let ca = length-append a (digit (n % 10)) in
    let cb = length-append b (digit (m % 10)) in
    let k : count a ≡ count b = omega (
      arith,
      ca,
      cb,
      ap count e,
      count-digit (n % 10) (omega arith),
      count-digit (m % 10) (omega arith),
    ) in
    let parts = append_inj e k in
    let units : n % 10 ≡ m % 10 = digit_inj _ _ (omega arith) (omega arith) parts.1 in
    let same = parts.0 in
    elim (Bool-cases (ltb n 10)) [
      | inl s ↦ elim (Bool-cases (ltb m 10)) [
        | inl t ↦ ground arith
        | inr t ↦
            let r : "" ≡ show_digits g (m / 10) = rw (s, t) at same in
            absurd (show_digits-pos g (m / 10) (ground arith) (sym (ap count r) ∙ length-nil))
      ]
      | inr s ↦ elim (Bool-cases (ltb m 10)) [
        | inl t ↦
            let r : show_digits f (n / 10) ≡ "" = rw (s, t) at same in
            absurd (show_digits-pos f (n / 10) (ground arith) (ap count r ∙ length-nil))
        | inr t ↦
            let r : show_digits f (n / 10) ≡ show_digits g (m / 10) = rw (s, t) at same in
            let tens = show_digits_inj f g (n / 10) (m / 10) (ground arith) (ground arith) r in
            omega arith
      ]
    ]

pub show_inj : (n m : ℕ) → show n ≡ show m → n ≡ m
unfolding show
show_inj n m e = show_digits_inj (suc n) (suc m) n m (omega arith) (omega arith) e
