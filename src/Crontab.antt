-- ===== src/Crontab.antt =====
-- app/src/main/services/CronService.ts: how a crontab is edited, line by line, and with cron.ts what
-- is listed of it. What `crontab -l` answers is an argument, and what is handed to `crontab` to
-- install is the result.
pub mod Contents
pub mod Creating
pub mod Editing
pub mod Identifiers
pub mod Listing
pub mod Sections
mod Tests
use Prim.Native.Char.{Char, code}
use Prim.Native.String.{◌++◌ as concat, [] as empty, ◌∷◌ as put}
use zvia.Prelude.{
  ℕ, zero, suc, ◌+◌, ◌-◌, ◌*◌, String, Bool, true, false, not, ◌&&◌, ◌||◌, Option, none, some, List,
  [], ◌∷◌, ◌++◌, ◌==◌, nat_eq, string_eq, if◌then◌else◌, ltb, is_some, get_or, ◌≡◌, refl,
}
use zvia.Prelude.Splitting.{holds}
use zvia.Prelude.Words.{split_on, trim, trim_start, join}
use zvia.Cron.{CronSource, CronTarget, CronJob, is_digit}
use zvia.Cron.Validation.{CronValidationResult, begins_with, validate_cron_expression, validation}
use zvia.Cron.Lines.{ParseCrontabOptions, cron_source_text, parse_cron_line, reading}

-- What is thrown, or the text that is installed.
pub data Outcome : Type 0 where
  thrown : String → Outcome
  install : String → Outcome

pub crontab_path : CronTarget → String
crontab_path CronTarget.root = "crontab:root"
crontab_path CronTarget.user = "crontab:user"

pub crontab_source : CronTarget → CronSource
crontab_source CronTarget.root = CronSource.root_crontab
crontab_source CronTarget.user = CronSource.user_crontab

-- what is behind the prefix, if the text starts with it
pub strip_prefix : String → String → Option String
strip_prefix empty s = some s
strip_prefix (put c prefix) empty = none
strip_prefix (put c prefix) (put d s) =
    let rest = strip_prefix prefix s in if code c == code d then rest else none

-- the number that the digits at the front spell behind `n`
leading_from : ℕ → String → ℕ
leading_from n empty = n
leading_from n (put c s) =
    let rest = leading_from (n * 10 + (code c - b'0')) s in if is_digit c then rest else n

leading_number : String → Option ℕ
leading_number empty = none
leading_number (put c s) = let n = leading_from 0 (put c s) in if is_digit c then some n else none

without_plus : String → String
without_plus empty = ""
without_plus (put c s) = if code c == b'+' then s else put c s

-- `Number.parseInt(s, 10)`, where what is negative and what is no number come to the same;
-- a number that is too large for the code's, whose id it refuses, is here one of no line
parse_int : String → Option ℕ
parse_int s = leading_number (without_plus (trim_start s))

job_prefix : CronTarget → String
job_prefix target =
    concat (cron_source_text (crontab_source target))
      (concat ":" (concat (crontab_path target) ":"))

-- a line's number, or what is thrown
pub data LineNumber : Type 0 where
  at_line : ℕ → LineNumber
  invalid_id : String → LineNumber

line_of : Option ℕ → LineNumber
line_of none = invalid_id "Invalid jobId: missing line number"
line_of (some n) = if ltb n 1 then invalid_id "Invalid jobId: missing line number" else at_line n

number_behind : Option String → LineNumber
number_behind none = invalid_id "Invalid jobId: does not belong to the requested crontab"
number_behind (some rest) = line_of (parse_int rest)

pub line_number_from_job_id : String → CronTarget → LineNumber
line_number_from_job_id job_id target = number_behind (strip_prefix (job_prefix target) job_id)

schedule_error : CronValidationResult → Option String
schedule_error validation =
    if validation.valid
    then none
    else some (concat "Invalid schedule: " (get_or validation.error "unsupported cron expression"))

pub assert_schedule : String → Option String
assert_schedule schedule = schedule_error (validate_cron_expression schedule)

pub assert_command : String → Option String
assert_command command =
    if trim command == ""
    then some "Invalid command: expected non-empty string"
    else if holds "\n" command || holds "\r" command || holds "\0" command
    then some "Invalid command: expected a single line"
    else none

-- `content.replace(/\n+$/, '')`
pub strip_newlines : String → String
strip_newlines empty = ""
strip_newlines (put c s) =
    let rest = strip_newlines s in if code c == 10 && rest == "" then "" else put c rest

pub split_crontab_lines : String → List String
split_crontab_lines content = if content == "" then [] else split_on "\n" (strip_newlines content)

pub ends_with_newline : String → Bool
ends_with_newline empty = false
ends_with_newline (put c s) =
    let later = ends_with_newline s in if s == "" then code c == 10 else later

-- what `installCrontab` writes of a content
pub normalized : String → String
normalized content = if ends_with_newline content then content else concat content "\n"

pub job_line : String → String → String
job_line schedule command = concat (trim schedule) (concat " " (trim command))

pub installed : List String → String
installed lines = normalized (join "\n" lines)

create_asserted : Option String → Option String → String → String → String → Outcome
create_asserted (some error) command_error schedule command content = thrown error
create_asserted none (some error) schedule command content = thrown error
create_asserted none none schedule command content =
    install (installed (split_crontab_lines content ++ job_line schedule command ∷ []))

pub create_job : String → String → String → Outcome
create_job schedule command content =
    create_asserted (assert_schedule schedule) (assert_command command) schedule command content

pub line_at : List String → ℕ → Option String
line_at [] n = none
line_at (x ∷ rest) zero = some x
line_at (x ∷ rest) (suc n) = line_at rest n

-- `lines[index] = line`, for an index within the lines
pub set_line : ℕ → String → List String → List String
set_line n line [] = []
set_line zero line (x ∷ rest) = line ∷ rest
set_line (suc n) line (x ∷ rest) = x ∷ set_line n line rest

-- `lines.splice(index, 1)`
pub delete_line : ℕ → List String → List String
delete_line n [] = []
delete_line zero (x ∷ rest) = rest
delete_line (suc n) (x ∷ rest) = x ∷ delete_line n rest

pub is_job : Option String → Bool
is_job none = false
is_job (some text) = is_some (parse_cron_line text false)

-- The index of a line's number, if a job stands there.
pub resolve_job_line_index : List String → ℕ → Option ℕ
resolve_job_line_index lines line_number =
    if is_job (line_at lines (line_number - 1)) then some (line_number - 1) else none

edit_at : (ℕ → List String → List String) → List String → Option ℕ → Outcome
edit_at edit lines none = thrown "Cron job could not be found"
edit_at edit lines (some index) = install (installed (edit index lines))

edit_line : (ℕ → List String → List String) → String → LineNumber → Outcome
edit_line edit content (invalid_id error) = thrown error
edit_line edit content (at_line n) =
    edit_at edit (split_crontab_lines content)
      (resolve_job_line_index (split_crontab_lines content) n)

update_asserted :
    Option String → Option String → CronTarget → String → String → String → String → Outcome
update_asserted (some error) command_error target job_id schedule command content = thrown error
update_asserted none (some error) target job_id schedule command content = thrown error
update_asserted none none target job_id schedule command content =
    edit_line (λ index lines. set_line index (job_line schedule command) lines) content
      (line_number_from_job_id job_id target)

pub update_job : CronTarget → String → String → String → String → Outcome
update_job target job_id schedule command content =
    update_asserted (assert_schedule schedule) (assert_command command) target job_id schedule
      command content

pub delete_job : CronTarget → String → String → Outcome
delete_job target job_id content =
    edit_line delete_line content (line_number_from_job_id job_id target)

-- the names that a run of an edit unfolds
unfoldable pub editing : Unit {0}
unfolding reading crontab_path crontab_source strip_prefix leading_from leading_number without_plus
    parse_int job_prefix line_of number_behind line_number_from_job_id schedule_error
    assert_schedule assert_command strip_newlines split_crontab_lines ends_with_newline normalized
    job_line installed create_asserted create_job line_at set_line delete_line is_job
    resolve_job_line_index edit_at edit_line update_asserted update_job delete_job holds trim_start
editing = tt
