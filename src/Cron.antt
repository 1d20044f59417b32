-- ===== src/Cron.antt =====
-- app/src/shared/cron.ts: the data, and which texts are valid fields of a schedule.
pub mod Describe
pub mod Fields
pub mod Lines
pub mod Validation
pub mod Words
use Prim.Native.Char.{Char, code}
use Prim.Native.String.{◌++◌ as concat, [] as empty, ◌∷◌ as put}
use zvia.Prelude.{
  ℕ, zero, suc, ◌+◌, ◌-◌, ◌*◌, String, Bool, true, false, not, ◌&&◌, ◌||◌, Option, none, some, List,
  [], ◌∷◌, ◌==◌, nat_eq, string_eq, if◌then◌else◌, ltb, all, length, is_some, get_or, bind, ◌≡◌,
  refl,
}
use zvia.Prelude.Decimal.{show, lower}
use zvia.Prelude.Dict.{Dict, lookup, has}
use zvia.Prelude.Words.{is_space, begin, split_on, trim}

pub data CronSource : Type 0 where
  user_crontab root_crontab system_crontab cron_d periodic : CronSource

pub data CronTarget : Type 0 where
  user root : CronTarget

pub record CronJob : Type 0 where
  pub id : String
  pub raw : String
  pub schedule : String
  pub command : String
  pub user : Option String
  pub source : CronSource
  pub source_path : String
  pub line_number : ℕ
  pub description : String
  pub valid : Bool
  pub target : Option CronTarget

pub record FieldSpec : Type 0 where
  pub label : String
  pub min : ℕ
  pub max : ℕ
  pub aliases : Option (Dict ℕ)

-- A name is looked up in an object, which also answers with what it inherits.
pub data FieldValue : Type 0 where
  number : ℕ → FieldValue
  object_constructor object_prototype : FieldValue

abbrev pub special_descriptions : Dict String
special_descriptions =
    ("@reboot", "At system boot")
    ∷ ("@yearly", "Every year on January 1 at 00:00")
    ∷ ("@annually", "Every year on January 1 at 00:00")
    ∷ ("@monthly", "Every month on day 1 at 00:00")
    ∷ ("@weekly", "Every week on Sunday at 00:00")
    ∷ ("@daily", "Every day at 00:00")
    ∷ ("@midnight", "Every day at 00:00")
    ∷ ("@hourly", "Every hour at minute 0")
    ∷ []

abbrev pub month_aliases : Dict ℕ
month_aliases =
    ("jan", 1)
    ∷ ("feb", 2)
    ∷ ("mar", 3)
    ∷ ("apr", 4)
    ∷ ("may", 5)
    ∷ ("jun", 6)
    ∷ ("jul", 7)
    ∷ ("aug", 8)
    ∷ ("sep", 9)
    ∷ ("oct", 10)
    ∷ ("nov", 11)
    ∷ ("dec", 12)
    ∷ []

abbrev pub day_aliases : Dict ℕ
day_aliases =
    ("sun", 0) ∷ ("mon", 1) ∷ ("tue", 2) ∷ ("wed", 3) ∷ ("thu", 4) ∷ ("fri", 5) ∷ ("sat", 6) ∷ []

abbrev pub day_of_week_spec : FieldSpec
day_of_week_spec = record { label = "day of week"; min = 0; max = 7; aliases = some day_aliases }

abbrev pub field_specs : List FieldSpec
field_specs =
    (record { label = "minute"; min = 0; max = 59; aliases = none })
    ∷ (record { label = "hour"; min = 0; max = 23; aliases = none })
    ∷ (record { label = "day of month"; min = 1; max = 31; aliases = none })
    ∷ (record { label = "month"; min = 1; max = 12; aliases = some month_aliases })
    ∷ day_of_week_spec
    ∷ []

unfoldable pub is_digit : Char → Bool
is_digit c = not (ltb (code c) b'0') && not (ltb b'9' (code c))

unfoldable pub only_digits : String → Bool
unfolding is_digit
only_digits empty = true
only_digits (put c s) = is_digit c && only_digits s

-- `/^\d+$/`
pub is_digits : String → Bool
unfolding only_digits
is_digits s = not (s == "") && only_digits s

number_from : ℕ → String → ℕ
number_from n empty = n
number_from n (put c s) = number_from (n * 10 + (code c - b'0')) s

-- `Number(s)`, for digits
pub number_of : String → ℕ
number_of s = number_from 0 s

pub alias_of : String → Dict ℕ → Option FieldValue
alias_of name aliases =
    if has name aliases
    then some (number (get_or (lookup name aliases) 0))
    else if name == "constructor"
    then some object_constructor
    else if name == "__proto__"
    then some object_prototype
    else none

pub resolve_field_number : String → FieldSpec → Option FieldValue
resolve_field_number token spec =
    if is_digits token
    then if ltb (number_of token) spec.min || ltb spec.max (number_of token)
      then none
      else some (number (number_of token))
    else bind spec.aliases (alias_of (lower token))

-- `a > b`. Of a function, an object and a number, only the texts of the first two compare.
pub is_above : FieldValue → FieldValue → Bool
is_above (number a) (number b) = ltb b a
is_above (number a) object_constructor = false
is_above (number a) object_prototype = false
is_above object_constructor (number b) = false
is_above object_constructor object_constructor = false
is_above object_constructor object_prototype = true
is_above object_prototype b = false

pub is_ascending : Option FieldValue → Option FieldValue → Bool
is_ascending none to = false
is_ascending (some from) none = false
is_ascending (some from) (some to) = not (is_above from to)

pub is_valid_bounds : FieldSpec → List String → Bool
is_valid_bounds spec [] = true
is_valid_bounds spec (bound ∷ []) = is_some (resolve_field_number bound spec)
is_valid_bounds spec (from ∷ to ∷ []) =
    is_ascending (resolve_field_number from spec) (resolve_field_number to spec)
is_valid_bounds spec (from ∷ to ∷ next ∷ rest) = false

pub is_valid_step : FieldSpec → String → Bool
is_valid_step spec step =
    is_digits step && not (ltb (number_of step) 1) && not (ltb spec.max (number_of step))

pub is_valid_range : FieldSpec → String → Bool
is_valid_range spec range = if range == "*" then true else is_valid_bounds spec (split_on "-" range)

-- `split` gives one segment or more.
pub is_valid_segments : FieldSpec → List String → Bool
is_valid_segments spec [] = false
is_valid_segments spec (range ∷ []) = is_valid_range spec range
is_valid_segments spec (range ∷ step ∷ []) =
    if is_valid_step spec step then is_valid_range spec range else false
is_valid_segments spec (range ∷ step ∷ next ∷ rest) = false

pub is_valid_field_part : FieldSpec → String → Bool
is_valid_field_part spec part = is_valid_segments spec (split_on "/" part)

pub is_valid_parts : FieldSpec → List String → Bool
is_valid_parts spec [] = false
is_valid_parts spec (part ∷ rest) = all (is_valid_field_part spec) (part ∷ rest)

pub is_valid_field : String → FieldSpec → Bool
is_valid_field field spec = is_valid_parts spec (split_on "," field)

-- the names that a run of the validation of a field unfolds
unfoldable pub fields : Unit {0}
unfolding is_digits number_from number_of alias_of resolve_field_number is_above is_ascending
    is_valid_bounds is_valid_step is_valid_range is_valid_segments is_valid_field_part
    is_valid_parts is_valid_field split_on lookup all lower
fields = tt

-- A name that an object inherits passes for a month.
inherited_test :
    is_valid_field "constructor"
      (record { label = "month"; min = 1; max = 12; aliases = some month_aliases })
    ≡ true
unfolding fields
inherited_test = refl
