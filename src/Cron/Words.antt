-- ===== src/Cron/Words.antt =====
-- app/src/shared/cron.ts: the fields of a schedule with spaces between them.
use Prim.Native.Char.{Char, code}
use Prim.Native.String.{◌++◌ as concat, [] as empty, ◌∷◌ as put}
use text.Mathlib.TextLemmas.{nil-append, cons-append, cons-ne-nil, append-ne-nil_of_right_ne-nil}
use zvia.Prelude.{
  String, Bool, true, false, not, ◌&&◌, ◌||◌, none, some, List, [], ◌∷◌, ◌==◌, nat_eq, string_eq,
  length, All, Bool-cases, inl, inr, ◌≡◌, ◌≢◌, refl, sym, ap, ◌∙◌, arith,
}
use zvia.Prelude.Splitting.{holds, holds-concat}
use zvia.Prelude.Trimming.{IsSolid, IsSolid-concat, trim_end-concat, trim-whole, not_empty}
use zvia.Prelude.Words.{is_space, begin, trim_end, trim, join}
use zvia.Cron.{
  FieldSpec, FieldValue, field_specs, is_digit, only_digits, is_digits, resolve_field_number,
  is_valid_field,
}
use zvia.Cron.Validation.{
  begins_with, begins_with_space, split_spaces, invalid, validate_fields, validate_trimmed,
  validate_cron_expression,
}
use zvia.Cron.Fields.{IsRange, every, single, between, IsPart, plain, stepped, is_valid_field_iff}

unfoldable pub has_no_space : String → Bool
has_no_space empty = true
has_no_space (put c s) = not (is_space c) && has_no_space s

pub record IsWord (w : String) : Type 0 where
  pub solid : IsSolid w
  pub no_space : has_no_space w ≡ true

pub trim_end-word : (w : String) → has_no_space w ≡ true → trim_end w ≡ w
unfolding trim_end has_no_space
trim_end-word empty h = refl
trim_end-word (put c w) h =
    let e : is_space c ≡ false = ground arith in rw (e, trim_end-word w (ground arith)) refl

pub trim_end-keep : (s t : String) → t ≢ "" → trim_end t ≡ t → trim_end (concat s t) ≡ concat s t
trim_end-keep s t h e = trim_end-concat s t (rw e h) ∙ ap (concat s) e

-- what a minute begins with
unfoldable pub is_plain : Char → Bool
is_plain c = code c == b'*' || is_digit c

-- The text starts with a digit or with `*`.
pub record IsPlain (s : String) : Type 0 where
  pub head : Char
  pub tail : String
  pub same : s ≡ put head tail
  pub plain : is_plain head ≡ true

pub IsPlain-concat : (s t : String) → IsPlain s → IsPlain (concat s t)
IsPlain-concat s t h = record {
  head = h.head;
  tail = concat h.tail t;
  same = rw h.same (cons-append h.head h.tail t);
  plain = h.plain;
}

digits-IsPlain : (s : String) → is_digits s ≡ true → IsPlain s
unfolding is_digits only_digits is_plain
digits-IsPlain empty h = absurd (ground arith)
digits-IsPlain (put c s) h = record { head = c; tail = s; same = refl; plain = ground arith }

join-IsPlain :
    (separator p : String) (ps : List String) → IsPlain p → IsPlain (join separator (p ∷ ps))
unfolding join
join-IsPlain separator p [] h = h
join-IsPlain separator p (q ∷ ps) h =
    IsPlain-concat p (concat separator (join separator (q ∷ ps))) h

begins_with-IsPlain : (s : String) → IsPlain s → begins_with "@" s ≡ false
unfolding begins_with is_plain is_digit
begins_with-IsPlain s h =
    let p : is_plain h.head ≡ true = h.plain in
    let at : (code h.head == b'@') ≡ false = ground arith in rw h.same at

module _ (spec : FieldSpec) (unnamed : spec.aliases ≡ none) where
  value-IsPlain :
      (token : String) (v : FieldValue) → resolve_field_number token spec ≡ some v → IsPlain token
  unfolding resolve_field_number
  value-IsPlain token v h = elim (Bool-cases (is_digits token)) [
    | inl e ↦ digits-IsPlain token e
    | inr e ↦ let q : none ≡ some v = rw (e, unnamed) at h in absurd (ground arith)
  ]

  range-IsPlain : (range : String) → IsRange spec range → IsPlain range
  range-IsPlain range (every e) = record {
    head = "*";
    tail = "";
    same = e;
    plain = unfold is_plain in refl;
  }
  range-IsPlain range (single v free k) = value-IsPlain range v k
  range-IsPlain range (between from to v w e free also k m up) =
      rw e (IsPlain-concat from (concat "-" to) (value-IsPlain from v k))

  part-IsPlain : (part : String) → IsPart spec part → IsPlain part
  part-IsPlain part (plain free r) = range-IsPlain part r
  part-IsPlain part (stepped range step e free also r s) =
      rw e (IsPlain-concat range (concat "/" step) (range-IsPlain range r))

  -- A field without names starts with a digit or with `*`.
  pub field-IsPlain : (field : String) → is_valid_field field spec ≡ true → IsPlain field
  field-IsPlain field h =
      let f = (is_valid_field_iff spec field).0 h in
      rw f.written at (join-IsPlain "," f.first f.rest (part-IsPlain f.first f.parts.0))

split_spaces-word : (w : String) → has_no_space w ≡ true → split_spaces w ≡ w ∷ []
unfolding split_spaces has_no_space
split_spaces-word empty h = refl
split_spaces-word (put c w) h =
    let e : is_space c ≡ false = ground arith in
    rw (e, split_spaces-word w (ground arith)) (unfold begin in refl)

split_spaces-solid : (t : String) → IsSolid t → split_spaces (concat " " t) ≡ "" ∷ split_spaces t
unfolding split_spaces is_space
split_spaces-solid t h =
    let starts : begins_with_space t ≡ false = rw h.same (unfold begins_with_space in h.solid) in
    ap split_spaces (cons-append " " "" t ∙ ap (put " ") (nil-append t)) ∙ rw starts refl

split_spaces-concat :
    (w t : String)
    → has_no_space w ≡ true
    → IsSolid t
    → split_spaces (concat w (concat " " t)) ≡ w ∷ split_spaces t
unfolding split_spaces has_no_space
split_spaces-concat empty t h s =
    ap split_spaces (nil-append (concat " " t)) ∙ split_spaces-solid t s
split_spaces-concat (put c w) t h s =
    let e : is_space c ≡ false = ground arith in
    ap split_spaces (cons-append c w (concat " " t))
    ∙ rw (e, split_spaces-concat w t (ground arith) s) (unfold begin in refl)

pub join-IsSolid : (w : String) (ws : List String) → IsWord w → IsSolid (join " " (w ∷ ws))
unfolding join
join-IsSolid w [] h = h.solid
join-IsSolid w (x ∷ ws) h = IsSolid-concat w (concat " " (join " " (x ∷ ws))) h.solid

pub not_nil : (s : String) → IsSolid s → s ≢ ""
not_nil s h q = cons-ne-nil h.head h.tail (sym h.same ∙ q)

pub split_spaces-join :
    (w : String) (ws : List String)
    → All IsWord (w ∷ ws)
    → split_spaces (join " " (w ∷ ws)) ≡ w ∷ ws
unfolding join
split_spaces-join w [] h = split_spaces-word w h.0.no_space
split_spaces-join w (x ∷ ws) (h, k) =
    split_spaces-concat w (join " " (x ∷ ws)) h.no_space (join-IsSolid x ws k.0)
    ∙ ap (λ l. w ∷ l) (split_spaces-join x ws k)

trim_end-join :
    (w : String) (ws : List String)
    → All IsWord (w ∷ ws)
    → trim_end (join " " (w ∷ ws)) ≡ join " " (w ∷ ws)
unfolding join
trim_end-join w [] h = trim_end-word w h.0.no_space
trim_end-join w (x ∷ ws) (h, k) =
    let later = join " " (x ∷ ws) in
    let some_later = not_nil later (join-IsSolid x ws k.0) in
    trim_end-keep w (concat " " later) (append-ne-nil_of_right_ne-nil " " some_later)
      (trim_end-keep " " later some_later (trim_end-join x ws k))

pub trim-join :
    (w : String) (ws : List String)
    → All IsWord (w ∷ ws)
    → trim (join " " (w ∷ ws)) ≡ join " " (w ∷ ws)
trim-join w ws h = trim-whole (join " " (w ∷ ws)) (join-IsSolid w ws h.0) (trim_end-join w ws h)

-- Five words are validated as the five fields, unless there is an `@` before them.
pub validate_cron_expression-join :
    (w : String) (ws : List String)
    → length (w ∷ ws) ≡ 5
    → All IsWord (w ∷ ws)
    → IsPlain w
    → validate_cron_expression (join " " (w ∷ ws)) ≡ validate_fields field_specs (w ∷ ws)
unfolding validate_cron_expression validate_trimmed
validate_cron_expression-join w ws five h p =
    let s = join " " (w ∷ ws) in
    let filled = not_empty s (not_nil s (join-IsSolid w ws h.0)) in
    let at : begins_with "@" s ≡ false = begins_with-IsPlain s (join-IsPlain " " w ws p) in
    let same : (length (w ∷ ws) == 5) ≡ true = ground (arith, five) in
    rw (trim-join w ws h, filled, at, split_spaces-join w ws h, same) refl

holds-word : (w : String) → has_no_space w ≡ true → holds "\n" w ≡ false
unfolding holds has_no_space is_space
holds-word empty h = refl
holds-word (put c w) h = ground (arith, holds-word w)

pub holds-join :
    (w : String) (ws : List String) → All IsWord (w ∷ ws) → holds "\n" (join " " (w ∷ ws)) ≡ false
unfolding join
holds-join w [] h = holds-word w h.0.no_space
holds-join w (x ∷ ws) (h, k) =
    let here = holds-word w h.no_space in
    let space : holds "\n" " " ≡ false = unfold holds in refl in
    let later = holds-join x ws k in
    holds-concat "\n" w (concat " " (join " " (x ∷ ws)))
    ∙ rw (here, holds-concat "\n" " " (join " " (x ∷ ws)), space, later) refl

pub validate_fields-first :
    (spec : FieldSpec) (specs : List FieldSpec) (w : String) (ws : List String)
    → (validate_fields (spec ∷ specs) (w ∷ ws)).valid ≡ true
    → is_valid_field w spec ≡ true
unfolding validate_fields invalid
validate_fields-first spec specs w ws h = elim (Bool-cases (is_valid_field w spec)) [
  | inl e ↦ e
  | inr e ↦ absurd (let q : false ≡ true = rw e at h in ground arith)
]
