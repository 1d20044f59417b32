-- ===== src/Cron/Describe.antt =====
-- app/src/shared/cron.ts: the text that describes a schedule.
use Prim.Native.String.{◌++◌ as concat}
use zvia.Prelude.{
  ℕ, ◌-◌, ◌%◌, String, not, ◌&&◌, Option, none, some, List, [], ◌∷◌, ◌==◌, nat_eq, string_eq,
  if◌then◌else◌, ltb, bind, get_elem_or, get_or, ◌≡◌, refl,
}
use zvia.Prelude.Decimal.{show, lower}
use zvia.Prelude.Dict.{lookup}
use zvia.Prelude.Splitting.{holds}
use zvia.Prelude.Words.{split_on, trim}
use zvia.Cron.{
  FieldValue, number, object_constructor, object_prototype, special_descriptions, day_of_week_spec,
  is_digits, number_of, resolve_field_number,
}
use zvia.Cron.Validation.{begins_with, split_spaces, validate_cron_expression, validation}

abbrev month_names : List String
month_names =
    "January" ∷ "February" ∷ "March" ∷ "April" ∷ "May" ∷ "June" ∷ "July" ∷ "August" ∷ "September"
    ∷ "October" ∷ "November" ∷ "December" ∷ []

abbrev day_names : List String
day_names = "Sunday" ∷ "Monday" ∷ "Tuesday" ∷ "Wednesday" ∷ "Thursday" ∷ "Friday" ∷ "Saturday" ∷ []

-- the step of segments that `split` made of a field
step_in : List String → Option ℕ
step_in [] = none
step_in (range ∷ []) = none
step_in (range ∷ step ∷ []) =
    if range == "*" && is_digits step && not (ltb (number_of step) 1)
    then some (number_of step)
    else none
step_in (range ∷ step ∷ next ∷ rest) = none

step_of_every_field : String → Option ℕ
step_of_every_field field = step_in (split_on "/" field)

pad : ℕ → String
pad value = if ltb value 10 then concat "0" (show value) else show value

format_time : ℕ → ℕ → String
format_time hour minute = concat (pad hour) (concat ":" (pad minute))

-- All items but the last, with commas between them, and the last one. `join` prints an item that
-- is undefined as the empty text, the template that holds the last one as "undefined".
join_from : Option String → List (Option String) → String
join_from item [] = get_or item "undefined"
join_from item (next ∷ []) = concat (get_or item "") (concat " and " (get_or next "undefined"))
join_from item (next ∷ more ∷ rest) =
    concat (get_or item "") (concat ", " (join_from next (more ∷ rest)))

-- A single item is answered as it is, also when it is undefined. `split` gives one part or more, so
-- there is an item.
join_list : List (Option String) → Option String
join_list [] = some " and undefined"
join_list (item ∷ []) = item
join_list (item ∷ next ∷ rest) = some (join_from item (next ∷ rest))

-- `DAY_NAMES[value % 7]`: no number is left of what an object inherits, so nothing is there.
day_name : FieldValue → Option String
day_name (number n) = some (get_elem_or day_names (n % 7) "undefined")
day_name object_constructor = none
day_name object_prototype = none

-- the item that is pushed, itself perhaps undefined; none where the field has no description
day_label : List String → Option (Option String)
day_label [] = none
day_label (bound ∷ []) =
    bind (resolve_field_number bound day_of_week_spec) (λ value. some (day_name value))
day_label (from ∷ to ∷ []) = bind (resolve_field_number from day_of_week_spec) (λ a.
    bind (resolve_field_number to day_of_week_spec) (λ b. some (
      some (
        concat (get_or (day_name a) "undefined")
          (concat " to " (get_or (day_name b) "undefined"))))))
day_label (from ∷ to ∷ next ∷ rest) = none

add_label : Option (Option String) → Option (List (Option String)) → Option (List (Option String))
add_label none rest = none
add_label (some label) none = none
add_label (some label) (some labels) = some (label ∷ labels)

day_labels : List String → Option (List (Option String))
day_labels [] = some []
day_labels (part ∷ rest) =
    add_label (if holds "/" part then none else day_label (split_on "-" part)) (day_labels rest)

-- none also where the code answers `undefined`: the caller tests the answer with `if`
describe_day_of_week : String → Option String
describe_day_of_week field =
    if field == "*" then none else bind (day_labels (split_on "," field)) join_list

every_hours : ℕ → String → String
every_hours step minute =
    if step == 1
    then concat "Every hour at minute " (show (number_of minute))
    else concat "Every " (concat (show step) (concat " hours at minute " (show (number_of minute))))

every_minutes : ℕ → String
every_minutes step =
    if step == 1 then "Every minute" else concat "Every " (concat (show step) " minutes")

at_minute : String → String → Option ℕ → String → String
at_minute minute hour (some step) trimmed = every_hours step minute
at_minute minute hour none trimmed =
    if hour == "*"
    then concat "Every hour at minute " (show (number_of minute))
    else if is_digits hour
    then concat "Every day at " (format_time (number_of hour) (number_of minute))
    else trimmed

describe_numeric : String → String → String → String
describe_numeric minute hour trimmed =
    if is_digits minute then at_minute minute hour (step_of_every_field hour) trimmed else trimmed

describe_steps : String → String → Option ℕ → String → String
describe_steps minute hour none trimmed = describe_numeric minute hour trimmed
describe_steps minute hour (some step) trimmed =
    if hour == "*" then every_minutes step else describe_numeric minute hour trimmed

describe_daily : String → String → String → String
describe_daily minute hour trimmed =
    if minute == "*" && hour == "*"
    then "Every minute"
    else describe_steps minute hour (step_of_every_field minute) trimmed

describe_months : String → String → String → String → String → String
describe_months day_of_month month day_of_week time trimmed =
    if month == "*" && day_of_week == "*" && is_digits day_of_month
    then concat "Every month on day " (concat (show (number_of day_of_month)) (concat " at " time))
    else if day_of_week == "*" && is_digits day_of_month && is_digits month
    then concat "Every year on " (
        concat (get_elem_or month_names (number_of month - 1) "undefined")
          (concat " " (concat (show (number_of day_of_month)) (concat " at " time))))
    else trimmed

describe_week : Option String → String → String → String → String → String → String
describe_week none day_of_month month day_of_week time trimmed =
    describe_months day_of_month month day_of_week time trimmed
describe_week (some days) day_of_month month day_of_week time trimmed =
    concat "Every week on " (concat days (concat " at " time))

describe_dated : String → String → String → String → String → String
describe_dated day_of_month month day_of_week time trimmed =
    describe_week
      (if month == "*" && day_of_month == "*" then describe_day_of_week day_of_week else none)
      day_of_month month day_of_week time trimmed

-- Behind the validation, there are five fields.
describe_fields : List String → String → String
describe_fields (minute ∷ hour ∷ day_of_month ∷ month ∷ day_of_week ∷ []) trimmed =
    if day_of_month == "*" && month == "*" && day_of_week == "*"
    then describe_daily minute hour trimmed
    else if is_digits minute && is_digits hour
    then describe_dated day_of_month month day_of_week
        (format_time (number_of hour) (number_of minute)) trimmed
    else trimmed
describe_fields other trimmed = trimmed

pub describe_cron : String → String
describe_cron expression =
    let trimmed = trim expression in
    if begins_with "@" trimmed
    then get_or (lookup (lower trimmed) special_descriptions) trimmed
    else if (validate_cron_expression trimmed).valid
    then describe_fields (split_spaces trimmed) trimmed
    else trimmed

-- the names that a run of the description unfolds
unfoldable pub describing : Unit {0}
unfolding validation step_in step_of_every_field pad format_time join_from join_list day_name
    day_label add_label day_labels describe_day_of_week every_hours every_minutes at_minute
    describe_numeric describe_steps describe_daily describe_months describe_week describe_dated
    describe_fields describe_cron holds
describing = tt

week_test :
    describe_cron "5 9 * * 1,wed,5-7"
    ≡ "Every week on Monday, Wednesday and Friday to Sunday at 09:05"
unfolding describing
week_test = refl

year_test : describe_cron "30 18 24 12 *" ≡ "Every year on December 24 at 18:30"
unfolding describing
year_test = refl

step_test : describe_cron "*/10 * * * *" ≡ "Every 10 minutes"
unfolding describing
step_test = refl

-- Of a name that every object inherits, no day is left: alone it has no description, and behind
-- another day it is printed as undefined.
inherited_test : describe_cron "5 9 * * constructor" ≡ "5 9 * * constructor"
unfolding describing
inherited_test = refl

inherited_first_test :
    describe_cron "5 9 * * constructor,mon" ≡ "Every week on  and Monday at 09:05"
unfolding describing
inherited_first_test = refl

inherited_last_test :
    describe_cron "5 9 * * mon,constructor" ≡ "Every week on Monday and undefined at 09:05"
unfolding describing
inherited_last_test = refl
