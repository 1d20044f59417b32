-- ===== src/Cron/Validation.antt =====
-- app/src/shared/cron.ts: the validation of a schedule.
use Prim.Native.Char.{Char, code}
use Prim.Native.String.{◌++◌ as concat, [] as empty, ◌∷◌ as put}
use zvia.Prelude.{
  String, Bool, true, false, Option, none, some, List, [], ◌∷◌, ◌==◌, nat_eq, string_eq,
  if◌then◌else◌, length, ◌≡◌, refl,
}
use zvia.Prelude.Decimal.{show, lower}
use zvia.Prelude.Dict.{has}
use zvia.Prelude.Words.{is_space, begin, trim}
use zvia.Cron.{FieldSpec, special_descriptions, field_specs, is_valid_field, fields}

pub record CronValidationResult : Type 0 where
  pub valid : Bool
  pub error : Option String

unfoldable pub begins_with : Char → String → Bool
begins_with c empty = false
begins_with c (put d s) = code d == code c

unfoldable pub begins_with_space : String → Bool
begins_with_space empty = false
begins_with_space (put c s) = is_space c

-- `s.split(/\s+/)`
unfoldable pub split_spaces : String → List String
split_spaces empty = "" ∷ []
split_spaces (put c s) =
    let rest = split_spaces s in
    if is_space c then (if begins_with_space s then rest else "" ∷ rest) else begin c rest

unfoldable pub invalid : String → CronValidationResult
invalid error = record { valid = false; error = some error }

abbrev pub fine : CronValidationResult
fine = record { valid = true; error = none }

unfoldable pub validate_fields : List FieldSpec → List String → CronValidationResult
validate_fields [] values = fine
validate_fields (spec ∷ specs) [] = fine
validate_fields (spec ∷ specs) (field ∷ rest) =
    let later = validate_fields specs rest in
    if is_valid_field field spec
    then later
    else invalid (concat "invalid " (concat spec.label (concat " field \"" (concat field "\""))))

unfoldable pub validate_trimmed : String → CronValidationResult
validate_trimmed trimmed =
    if trimmed == ""
    then invalid "schedule is empty"
    else if begins_with "@" trimmed
    then if has (lower trimmed) special_descriptions
      then fine
      else invalid (concat "unknown special schedule \"" (concat trimmed "\""))
    else if length (split_spaces trimmed) == 5
    then validate_fields field_specs (split_spaces trimmed)
    else invalid (
        concat "expected 5 fields or a special schedule, received "
          (show (length (split_spaces trimmed))))

unfoldable pub validate_cron_expression : String → CronValidationResult
validate_cron_expression expression = validate_trimmed (trim expression)

-- the names that a run of the validation unfolds
unfoldable pub validation : Unit {0}
unfolding fields begins_with begins_with_space split_spaces invalid validate_fields validate_trimmed
    validate_cron_expression trim show
validation = tt

valid_test :
    validate_cron_expression " */15 9-17 * jan,3 Mon-FRI/2 " ≡ record { valid = true; error = none }
unfolding validation
valid_test = refl

invalid_test :
    validate_cron_expression "0 24 * * *"
    ≡ record { valid = false; error = some "invalid hour field \"24\"" }
unfolding validation
invalid_test = refl

-- An end of line separates fields too.
two_lines_test : (validate_cron_expression "0 0\n* * *").valid ≡ true
unfolding validation
two_lines_test = refl
