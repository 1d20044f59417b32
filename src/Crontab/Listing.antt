-- ===== src/Crontab/Listing.antt =====
-- app/src/main/services/CronService.ts: the list of all jobs, from what the discovery command
-- printed and what reading root's crontab gave, and what app/src/shared/cron.ts says of the list.
-- Both results are arguments, and so is whether the connection is root's.
pub mod Editable
mod Tests
use Prim.Native.Char.{Char}
use Prim.Native.String.{◌++◌ as concat, [] as empty, ◌∷◌ as put}
use zvia.Prelude.{
  ℕ, suc, ◌+◌, String, Bool, true, false, not, ◌&&◌, ◌||◌, Option, none, some, List, [], ◌∷◌, ◌++◌,
  ◌==◌, nat_eq, string_eq, if◌then◌else◌, is_some, get_or, truthy, bind, contains, ◌≡◌, refl,
}
use zvia.Prelude.Decimal.{show, lower, strip_suffix}
use zvia.Prelude.Dict.{Dict, lookup, insert, has}
use zvia.Prelude.Words.{split_on, trim, join}
use zvia.Cron.{CronSource, CronTarget, CronJob}
use zvia.Cron.Validation.{begins_with, split_spaces}
use zvia.Cron.Describe.{describe_cron}
use zvia.Cron.Lines.{ParseCrontabOptions, parse_crontab}
use zvia.Crontab.Sections.{
  PeriodicEntry, DiscoverySections, periodic_schedules, split_sections, sectioning,
}
use zvia.Crontab.{crontab_path, crontab_source, strip_prefix, editing}

pub record CronListResponse : Type 0 where
  pub jobs : List CronJob
  pub crontab_available : Bool
  pub can_edit_user : Bool
  pub can_edit_root : Bool

begins_with_slash : String → Option String
begins_with_slash path = if begins_with "/" path then some path else none

pub cron_job_file_path : CronJob → Option String
cron_job_file_path job = elim job.source [
  | CronSource.periodic ↦ begins_with_slash job.command
  | _ ↦ begins_with_slash job.source_path
]

abbrev no_crontab_text : String
no_crontab_text =
    "The crontab command is not available on this server, so Zvia cannot create or edit scheduled jobs. Anything listed here comes from system cron files and is read-only."

abbrev no_write_text : String
no_write_text =
    "Neither your own crontab nor root’s crontab can be written from this connection, so Zvia cannot create or edit scheduled jobs. Anything listed here is read-only."

pub describe_cron_editability : CronListResponse → Option String
describe_cron_editability listing =
    if listing.can_edit_user || listing.can_edit_root
    then none
    else if not listing.crontab_available
    then some no_crontab_text
    else some no_write_text

pub periodic_job : ℕ → PeriodicEntry → String → CronJob
periodic_job index entry schedule = record {
  id = concat "periodic:" (concat entry.path (concat ":" (show (index + 1))));
  raw = entry.path;
  schedule = schedule;
  command = entry.path;
  user = some "root";
  source = CronSource.periodic;
  source_path = concat "/etc/cron." entry.period;
  line_number = index + 1;
  description = describe_cron schedule;
  valid = true;
  target = none;
}

-- Describing what an object inherits throws, as it is no text.
pub add_periodic : ℕ → PeriodicEntry → Option String → Option (List CronJob) → Option (List CronJob)
add_periodic index entry none jobs = none
add_periodic index entry (some schedule) none = none
add_periodic index entry (some schedule) (some jobs) =
    some (periodic_job index entry schedule ∷ jobs)

pub periodic_jobs : ℕ → List PeriodicEntry → Option (List CronJob)
periodic_jobs index [] = some []
periodic_jobs index (entry ∷ rest) =
    add_periodic index entry (lookup entry.period periodic_schedules)
      (periodic_jobs (suc index) rest)

pub record ExecResult : Type 0 where
  pub stdout : String
  pub stderr : String
  pub exit_code : ℕ

includes_text : String → String → Bool
includes_text empty part = is_some (strip_prefix part "")
includes_text (put c s) part = is_some (strip_prefix part (put c s)) || includes_text s part

pub is_empty_crontab_message : String → Bool
is_empty_crontab_message details = includes_text (lower details) "no crontab for"

-- Nothing was run where the privilege is refused.
pub read_root_crontab_quietly : Option ExecResult → Option String
read_root_crontab_quietly none = none
read_root_crontab_quietly (some result) =
    if not (result.exit_code == 0)
    then if is_empty_crontab_message
        (trim (if result.stderr == "" then result.stdout else result.stderr))
      then some ""
      else none
    else some result.stdout

abbrev pub main_target : Bool → CronTarget
main_target true = CronTarget.root
main_target false = CronTarget.user

pub main_options : Bool → String → ParseCrontabOptions
main_options is_root username = record {
  source = crontab_source (main_target is_root);
  source_path = crontab_path (main_target is_root);
  has_user_field = false;
  default_user = truthy (some username);
  target = some (main_target is_root);
}

abbrev pub root_options : ParseCrontabOptions
root_options = record {
  source = CronSource.root_crontab;
  source_path = "crontab:root";
  has_user_field = false;
  default_user = some "root";
  target = some CronTarget.root;
}

abbrev pub file_options : CronSource → String → ParseCrontabOptions
file_options source path = record {
  source = source;
  source_path = path;
  has_user_field = true;
  default_user = none;
  target = none;
}

pub root_jobs : Option String → List CronJob
root_jobs none = []
root_jobs (some content) = parse_crontab content root_options

pub file_jobs : Dict (List String) → List CronJob
file_jobs [] = []
file_jobs ((path, lines) ∷ rest) =
    parse_crontab (join "\n" lines) (file_options CronSource.cron_d path) ++ file_jobs rest

-- what was read of root's crontab, unless the connection is root's
abbrev pub root_content : Bool → Option ExecResult → Option String
root_content true result = none
root_content false result = read_root_crontab_quietly result

pub listed : Bool → Option String → DiscoverySections → List CronJob → CronListResponse
listed is_root root s others = record {
  jobs =
      parse_crontab (join "\n" s.user_lines) (main_options is_root s.username)
      ++ (root_jobs root
          ++ (parse_crontab (join "\n" s.system_lines)
                (file_options CronSource.system_crontab "/etc/crontab")
              ++ (file_jobs s.files ++ others)));
  crontab_available = s.crontab_available;
  can_edit_user = s.crontab_available && not is_root;
  can_edit_root = s.crontab_available && (is_root || is_some root);
}

pub list : String → Bool → Option ExecResult → Option CronListResponse
list stdout is_root root =
    bind (periodic_jobs 0 (split_sections stdout).periodic)
      (λ jobs. some (listed is_root (root_content is_root root) (split_sections stdout) jobs))

-- the names that a run of the list unfolds
listing : Unit {0}
unfolding editing sectioning begins_with_slash cron_job_file_path describe_cron_editability
    periodic_job add_periodic periodic_jobs includes_text is_empty_crontab_message
    read_root_crontab_quietly main_options root_jobs file_jobs listed list lookup lower
listing = tt
