-- ===== src/Cron/Fields.antt =====
-- Which texts pass as a field of a schedule.
use Prim.Native.String.{◌++◌ as concat}
use zvia.Prelude.{
  String, true, false, Option, none, some, List, [], ◌∷◌, ◌==◌, string_eq, all, All, Bool-cases,
  is_some, ◌≡◌, refl, sym, ap, ◌∙◌, ◌↔◌, inl, inr, arith, eq_iff,
}
use zvia.Prelude.Splitting.{
  holds, split_on-cons, join-split_on, split_on-whole, split_on-concat, split_on-join,
  holds-split_on,
}
use zvia.Prelude.Words.{split_on, join}
use zvia.Cron.{
  FieldSpec, FieldValue, resolve_field_number, is_above, is_ascending, is_valid_bounds,
  is_valid_step, is_valid_range, is_valid_segments, is_valid_field_part, is_valid_parts,
  is_valid_field,
}

-- All of the values that the specification allows, one of them, or those from one to another.
pub data IsRange (spec : FieldSpec) (range : String) : Type 0 where
  every : range ≡ "*" → IsRange spec range
  single :
      (v : FieldValue)
      → holds "-" range ≡ false
      → resolve_field_number range spec ≡ some v
      → IsRange spec range
  between :
      (from to : String) (v w : FieldValue)
      → range ≡ concat from (concat "-" to)
      → holds "-" from ≡ false
      → holds "-" to ≡ false
      → resolve_field_number from spec ≡ some v
      → resolve_field_number to spec ≡ some w
      → is_above v w ≡ false
      → IsRange spec range

pub data IsPart (spec : FieldSpec) (part : String) : Type 0 where
  plain : holds "/" part ≡ false → IsRange spec part → IsPart spec part
  stepped :
      (range step : String)
      → part ≡ concat range (concat "/" step)
      → holds "/" range ≡ false
      → holds "/" step ≡ false
      → IsRange spec range
      → is_valid_step spec step ≡ true
      → IsPart spec part

-- Parts with commas between them.
pub record IsField (spec : FieldSpec) (field : String) : Type 0 where
  pub first : String
  pub rest : List String
  pub written : join "," (first ∷ rest) ≡ field
  pub whole : All (λ part. holds "," part ≡ false) (first ∷ rest)
  pub parts : All (IsPart spec) (first ∷ rest)

module _ (spec : FieldSpec) where
  ascending_cases :
      (a b : Option FieldValue)
      → is_ascending a b ≡ true
      → (v : FieldValue) × (w : FieldValue) × (a ≡ some v) × (b ≡ some w) × (is_above v w ≡ false)
  unfolding is_ascending
  ascending_cases none b h = absurd (ground arith)
  ascending_cases (some v) none h = absurd (ground arith)
  ascending_cases (some v) (some w) h = (v, w, refl, refl, ground arith)

  known : (o : Option FieldValue) → is_some o ≡ true → (v : FieldValue) × (o ≡ some v)
  known none h = absurd (ground arith)
  known (some v) h = (v, refl)

  bounds_sound :
      (range : String) (l : List String)
      → split_on "-" range ≡ l
      → is_valid_bounds spec l ≡ true
      → IsRange spec range
  unfolding is_valid_bounds join
  bounds_sound range [] e h = let (p, rest, q) = split_on-cons "-" range in absurd (cc)
  bounds_sound range (b ∷ []) e h =
      let same : b ≡ range = rw e at (join-split_on "-" range) in
      let (free, _) : All (λ p. holds "-" p ≡ false) (b ∷ []) =
        rw e at (holds-split_on "-" range) in
      let (v, k) = known (resolve_field_number b spec) h in
      single v (rw same at free) (rw same at k)
  bounds_sound range (a ∷ b ∷ []) e h =
      let same : concat a (concat "-" b) ≡ range = rw e at (join-split_on "-" range) in
      let (free, (also, _)) : All (λ p. holds "-" p ≡ false) (a ∷ b ∷ []) =
        rw e at (holds-split_on "-" range) in
      let (v, w, k, m, up) = ascending_cases _ _ h in between a b v w (sym same) free also k m up
  bounds_sound range (a ∷ b ∷ c ∷ rest) e h = absurd (ground arith)

  is_valid_range-IsRange : (range : String) → is_valid_range spec range ≡ true → IsRange spec range
  unfolding is_valid_range
  is_valid_range-IsRange range h = elim (Bool-cases (range == "*")) [
    | inl e ↦ every ((eq_iff _ _).0 e)
    | inr e ↦ bounds_sound range (split_on "-" range) refl (rw e at h)
  ]

  range_complete : (range : String) → IsRange spec range → is_valid_range spec range ≡ true
  unfolding is_valid_range
  range_complete range (every e) = rw e refl
  range_complete range (single v free k) =
      let b : is_valid_bounds spec (split_on "-" range) ≡ true =
        rw (split_on-whole "-" range free) (unfold is_valid_bounds in rw k refl) in
      ground arith
  range_complete range (between from to v w e free also k m up) =
      let b : is_valid_bounds spec (split_on "-" range) ≡ true =
        rw (e, split_on-concat "-" from to free, split_on-whole "-" to also)
          (unfold is_valid_bounds is_ascending in rw (k, m, up) refl) in
      ground arith

  segments_sound :
      (part : String) (l : List String)
      → split_on "/" part ≡ l
      → is_valid_segments spec l ≡ true
      → IsPart spec part
  unfolding is_valid_segments join
  segments_sound part [] e h = absurd (ground arith)
  segments_sound part (range ∷ []) e h =
      let same : range ≡ part = rw e at (join-split_on "/" part) in
      let (free, _) : All (λ p. holds "/" p ≡ false) (range ∷ []) =
        rw e at (holds-split_on "/" part) in
      plain (rw same at free) (is_valid_range-IsRange part (rw same at h))
  segments_sound part (range ∷ step ∷ []) e h =
      let same : concat range (concat "/" step) ≡ part = rw e at (join-split_on "/" part) in
      let (free, (also, _)) : All (λ p. holds "/" p ≡ false) (range ∷ step ∷ []) =
        rw e at (holds-split_on "/" part) in
      elim (Bool-cases (is_valid_step spec step)) [
        | inl s ↦
            stepped range step (sym same) free also (is_valid_range-IsRange range (rw s at h)) s
        | inr s ↦ absurd (ground arith)
      ]
  segments_sound part (a ∷ b ∷ c ∷ rest) e h = absurd (ground arith)

  part_complete : (part : String) → IsPart spec part → is_valid_field_part spec part ≡ true
  unfolding is_valid_field_part is_valid_segments
  part_complete part (plain free r) = rw (split_on-whole "/" part free) (range_complete part r)
  part_complete part (stepped range step e free also r s) =
      rw (e, split_on-concat "/" range step free, split_on-whole "/" step also, s)
        (range_complete range r)

  all_sound : (l : List String) → all (is_valid_field_part spec) l ≡ true → All (IsPart spec) l
  unfolding all is_valid_field_part
  all_sound [] h = tt
  all_sound (p ∷ l) h = elim (Bool-cases (is_valid_field_part spec p)) [
    | inl e ↦ (segments_sound p (split_on "/" p) refl e, all_sound l (rw e at h))
    | inr e ↦ absurd (ground arith)
  ]

  all_complete : (l : List String) → All (IsPart spec) l → all (is_valid_field_part spec) l ≡ true
  unfolding all
  all_complete [] h = refl
  all_complete (p ∷ l) (h, k) = rw (part_complete p h) (all_complete l k)

  is_valid_field-IsField : (field : String) → is_valid_field field spec ≡ true → IsField spec field
  unfolding is_valid_field is_valid_parts
  is_valid_field-IsField field h =
      let (first, rest, e) = split_on-cons "," field in
      record {
        first = first;
        rest = rest;
        written = rw e at (join-split_on "," field);
        whole = rw e at (holds-split_on "," field);
        parts = all_sound (first ∷ rest) (rw e at h);
      }

  field_complete : (field : String) → IsField spec field → is_valid_field field spec ≡ true
  unfolding is_valid_field is_valid_parts
  field_complete field f =
      let e : split_on "," field ≡ f.first ∷ f.rest =
        ap (split_on ",") (sym f.written) ∙ split_on-join "," f.first f.rest f.whole in
      rw e (all_complete (f.first ∷ f.rest) f.parts)

  -- A field is valid exactly when it is one or more parts with commas between them, each of them
  -- `*`, a value, or two values in order with a dash between them, and perhaps a slash and a step
  -- behind it. A value is what `resolve_field_number` answers, a step a number from 1 to the
  -- field's maximum.
  pub is_valid_field_iff :
      (field : String) → (is_valid_field field spec ≡ true) ↔ IsField spec field
  is_valid_field_iff field = (is_valid_field-IsField field, field_complete field)
