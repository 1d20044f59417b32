-- ===== src/Cron/Lines.antt =====
-- app/src/shared/cron.ts: the reading of a crontab, line by line.
pub mod Jobs
pub mod Printing
use Prim.Native.Char.{Char, code}
use Prim.Native.String.{◌++◌ as concat, [] as empty, ◌∷◌ as put}
use zvia.Prelude.{
  ℕ, zero, suc, ◌+◌, String, Bool, true, false, not, ◌&&◌, ◌||◌, Option, none, some, List, [], ◌∷◌,
  ◌==◌, nat_eq, string_eq, if◌then◌else◌, ltb, bind, ◌≡◌, refl,
}
use zvia.Prelude.Decimal.{show, lower}
use zvia.Prelude.Dict.{lookup, has}
use zvia.Prelude.Words.{is_space, split_on, trim, join}
use zvia.Cron.{CronSource, CronTarget, CronJob, special_descriptions}
use zvia.Cron.Validation.{CronValidationResult, begins_with, validate_cron_expression, validation}
use zvia.Cron.Describe.{describe_cron, describing}

-- `isWhitespace`
pub is_whitespace : Char → Bool
is_whitespace c = code c == 32 || code c == 9

pub skip_whitespace : String → String
skip_whitespace empty = ""
skip_whitespace (put c s) =
    let rest = skip_whitespace s in if is_whitespace c then rest else put c s

pub take_word : String → String
take_word empty = ""
take_word (put c s) = let word = take_word s in if is_whitespace c then "" else put c word

pub drop_word : String → String
drop_word empty = ""
drop_word (put c s) = let rest = drop_word s in if is_whitespace c then put c s else rest

pub record Tokens : Type 0 where
  pub tokens : List String
  pub rest : String

-- the token before those taken behind it, where there is one
pub put_token : String → Option Tokens → Option Tokens
put_token token none = none
put_token token (some taken) =
    if token == "" then none else some (record taken { tokens = token ∷ taken.tokens })

pub take_tokens : ℕ → String → Option Tokens
take_tokens zero text = some (record { tokens = []; rest = skip_whitespace text })
take_tokens (suc count) text =
    put_token (take_word (skip_whitespace text))
      (take_tokens count (drop_word (skip_whitespace text)))

is_name_start : Char → Bool
is_name_start c =
    code c == b'_'
    || (not (ltb (code c) b'A') && not (ltb b'Z' (code c)))
    || (not (ltb (code c) b'a') && not (ltb b'z' (code c)))

is_name_character : Char → Bool
is_name_character c = is_name_start c || (not (ltb (code c) b'0') && not (ltb b'9' (code c)))

-- `/^\s*=/`
assigns : String → Bool
assigns empty = false
assigns (put c s) = let later = assigns s in if is_space c then later else code c == b'='

-- `/^[A-Za-z0-9_]*\s*=/`
assigns_behind_name : String → Bool
assigns_behind_name empty = false
assigns_behind_name (put c s) =
    let later = assigns_behind_name s in if is_name_character c then later else assigns (put c s)

pub is_environment_assignment : String → Bool
is_environment_assignment empty = false
is_environment_assignment (put c s) = is_name_start c && assigns_behind_name s

pub record ParsedCronLine : Type 0 where
  pub schedule : String
  pub command : String
  pub user : Option String

-- the schedule and what is behind it, or the user and what is behind it
record Read (A : Type 0) : Type 0 where
  value : A
  remainder : String

special_of : List String → String → Option (Read String)
special_of [] rest = none
special_of (token ∷ more) rest =
    if has (lower token) special_descriptions
    then some (record { value = lower token; remainder = rest })
    else none

read_schedule : String → Option (Read String)
read_schedule trimmed =
    if begins_with "@" trimmed
    then bind (take_tokens 1 trimmed) (λ taken. special_of taken.tokens taken.rest)
    else bind (take_tokens 5 trimmed)
        (λ taken. some (record { value = join " " taken.tokens; remainder = taken.rest }))

user_of : List String → String → Option (Read (Option String))
user_of [] rest = none
user_of (token ∷ more) rest = some (record { value = some token; remainder = rest })

read_user : Bool → String → Option (Read (Option String))
read_user false remainder = some (record { value = none; remainder = remainder })
read_user true remainder = bind (take_tokens 1 remainder) (λ taken. user_of taken.tokens taken.rest)

read_command : String → Option String → String → Option ParsedCronLine
read_command schedule user command =
    if command == ""
    then none
    else some (record { schedule = schedule; command = command; user = user })

pub parse_trimmed : String → Bool → Option ParsedCronLine
parse_trimmed trimmed has_user_field =
    if trimmed == "" || begins_with "#" trimmed || is_environment_assignment trimmed
    then none
    else bind (read_schedule trimmed) (λ s.
      bind (read_user has_user_field s.remainder)
        (λ u. read_command s.value u.value (trim u.remainder)))

pub parse_cron_line : String → Bool → Option ParsedCronLine
parse_cron_line line has_user_field = parse_trimmed (trim line) has_user_field

pub record ParseCrontabOptions : Type 0 where
  pub source : CronSource
  pub source_path : String
  pub has_user_field : Bool
  pub default_user : Option String
  pub target : Option CronTarget

pub cron_source_text : CronSource → String
cron_source_text CronSource.user_crontab = "user-crontab"
cron_source_text CronSource.root_crontab = "root-crontab"
cron_source_text CronSource.system_crontab = "system-crontab"
cron_source_text CronSource.cron_d = "cron.d"
cron_source_text CronSource.periodic = "periodic"

-- `a ?? b`
or_else : Option String → Option String → Option String
or_else none b = b
or_else (some a) b = some a

pub job_of : ParseCrontabOptions → String → ℕ → ParsedCronLine → CronJob
job_of options line line_number parsed = record {
  id =
      concat (cron_source_text options.source)
        (concat ":" (concat options.source_path (concat ":" (show line_number))));
  raw = trim line;
  schedule = parsed.schedule;
  command = parsed.command;
  user = or_else parsed.user options.default_user;
  source = options.source;
  source_path = options.source_path;
  line_number = line_number;
  description = describe_cron parsed.schedule;
  valid = (validate_cron_expression parsed.schedule).valid;
  target = options.target;
}

-- the job of a line, if it is one, before those of the lines behind it
pub push_job :
    ParseCrontabOptions → String → ℕ → Option ParsedCronLine → List CronJob → List CronJob
push_job options line line_number none jobs = jobs
push_job options line line_number (some parsed) jobs = job_of options line line_number parsed ∷ jobs

pub jobs_of : ParseCrontabOptions → ℕ → List String → List CronJob
jobs_of options index [] = []
jobs_of options index (line ∷ rest) =
    push_job options line (index + 1) (parse_cron_line line options.has_user_field)
      (jobs_of options (suc index) rest)

pub parse_crontab : String → ParseCrontabOptions → List CronJob
parse_crontab content options = jobs_of options 0 (split_on "\n" content)

-- the names that a run of the reading unfolds
unfoldable pub reading : Unit {0}
unfolding validation describing is_whitespace skip_whitespace take_word drop_word put_token
    take_tokens is_name_start is_name_character assigns assigns_behind_name
    is_environment_assignment special_of read_schedule user_of read_user read_command parse_trimmed
    parse_cron_line cron_source_text or_else job_of push_job jobs_of parse_crontab join
reading = tt

line_test :
    parse_cron_line "*/5 * * * mon  root  echo  hi " true
    ≡ some (record { schedule = "*/5 * * * mon"; command = "echo  hi"; user = some "root" })
unfolding reading
line_test = refl

special_test :
    parse_cron_line "@Daily backup" false
    ≡ some (record { schedule = "@daily"; command = "backup"; user = none })
unfolding reading
special_test = refl

environment_test : parse_cron_line "PATH = /usr/bin a b c d e f" false ≡ none
unfolding reading
environment_test = refl
