-- ===== src/Prelude/Trimming.antt =====
-- What `trim` leaves of a text.
use Prim.Native.Char.{Char}
use Prim.Native.String.{String, ◌++◌ as concat, [] as empty, ◌∷◌ as put}
use mathlib.Core.Path.{◌≡◌, refl, sym, ap, ◌∙◌}
use mathlib.Core.Logic.{inl, inr, ◌≢◌, ◌⊎◌}
use mathlib.Core.Bool.{false, ◌&&◌}
use native.Mathlib.Omega.{arith}
use text.Mathlib.TextEquality.{eq_iff}
use text.Mathlib.TextLemmas.{nil-append, cons-append, append-ne-nil_of_right_ne-nil}
use zvia.Prelude.Tests.{◌==◌, string_eq, Bool-cases}
use zvia.Prelude.Splitting.{holds}
use zvia.Prelude.Words.{is_space, trim_start, trim_end, trim}

-- The text starts with something that is no space.
pub record IsSolid (s : String) : Type 0 where
  pub head : Char
  pub tail : String
  pub same : s ≡ put head tail
  pub solid : is_space head ≡ false

pub IsSolid-concat : (s t : String) → IsSolid s → IsSolid (concat s t)
IsSolid-concat s t h = record {
  head = h.head;
  tail = concat h.tail t;
  same = rw h.same (cons-append h.head h.tail t);
  solid = h.solid;
}

pub trim_start-IsSolid : (s : String) → IsSolid s → trim_start s ≡ s
unfolding trim_start
trim_start-IsSolid s h = rw (h.same, h.solid) refl

trim_start_cases : (s : String) → (trim_start s ≡ "") ⊎ IsSolid (trim_start s)
unfolding trim_start
trim_start_cases empty = inl refl
trim_start_cases (put c s) = elim (Bool-cases (is_space c)) [
  | inl e ↦ rw e (trim_start_cases s)
  | inr e ↦ rw e (inr (record { head = c; tail = s; same = refl; solid = e }))
]

trim_end-IsSolid : (s : String) → IsSolid s → IsSolid (trim_end s)
unfolding trim_end
trim_end-IsSolid s h = record {
  head = h.head;
  tail = trim_end h.tail;
  same = rw (h.same, h.solid) refl;
  solid = h.solid;
}

pub not_empty : (s : String) → s ≢ "" → (s == "") ≡ false
not_empty s h = elim (Bool-cases (s == "")) [ inl e ↦ absurd (h ((eq_iff _ _).0 e)) | inr e ↦ e ]

pub trim_end-concat :
    (s t : String) → trim_end t ≢ "" → trim_end (concat s t) ≡ concat s (trim_end t)
unfolding trim_end
trim_end-concat empty t h = ap trim_end (nil-append t) ∙ sym (nil-append (trim_end t))
trim_end-concat (put c s) t h =
    let kept : (concat s (trim_end t) == "") ≡ false =
      not_empty _ (append-ne-nil_of_right_ne-nil s h) in
    ap trim_end (cons-append c s t)
    ∙ rw (trim_end-concat s t h) (elim (Bool-cases (is_space c)) [
      | inl e ↦ rw (e, kept) (sym (cons-append c s (trim_end t)))
      | inr e ↦ rw e (sym (cons-append c s (trim_end t)))
    ])

trim_end_idem : (s : String) → trim_end (trim_end s) ≡ trim_end s
unfolding trim_end
trim_end_idem empty = refl
trim_end_idem (put c s) = elim (Bool-cases (is_space c && trim_end s == "")) [
  | inl e ↦ rw e refl
  | inr e ↦ rw e (rw (trim_end_idem s, e) refl)
]

-- A trimmed text is empty or starts with no space, and trimming its end changes nothing.
pub trim_cases : (s : String) → (trim s ≡ "") ⊎ IsSolid (trim s)
unfolding trim
trim_cases s = elim (trim_start_cases s) [
  | inl e ↦ inl (rw e (unfold trim_end in refl))
  | inr h ↦ inr (trim_end-IsSolid (trim_start s) h)
]

pub trim_end-trim : (s : String) → trim_end (trim s) ≡ trim s
unfolding trim
trim_end-trim s = trim_end_idem (trim_start s)

-- a text that starts and ends with no space
pub trim-whole : (s : String) → IsSolid s → trim_end s ≡ s → trim s ≡ s
unfolding trim
trim-whole s h e = ap trim_end (trim_start-IsSolid s h) ∙ e

pub trim_idem : (s : String) → trim (trim s) ≡ trim s
trim_idem s = elim (trim_cases s) [
  | inl e ↦ rw e (unfold trim trim_start trim_end in refl)
  | inr h ↦ trim-whole (trim s) h (trim_end-trim s)
]

holds-trim_start : (c : Char) (s : String) → holds c s ≡ false → holds c (trim_start s) ≡ false
unfolding holds trim_start
holds-trim_start c empty h = refl
holds-trim_start c (put d s) h = elim (Bool-cases (is_space d)) [
  | inl e ↦ rw e (holds-trim_start c s (ground arith))
  | inr e ↦ rw e h
]

holds-trim_end : (c : Char) (s : String) → holds c s ≡ false → holds c (trim_end s) ≡ false
unfolding holds trim_end
holds-trim_end c empty h = refl
holds-trim_end c (put d s) h =
    let ih = holds-trim_end c s (ground arith) in
    elim (Bool-cases (is_space d && trim_end s == "")) [
      | inl e ↦ rw e refl
      | inr e ↦ rw e (ground arith)
    ]

-- Trimming adds no character.
pub holds-trim : (c : Char) (s : String) → holds c s ≡ false → holds c (trim s) ≡ false
unfolding trim
holds-trim c s h = holds-trim_end c (trim_start s) (holds-trim_start c s h)
