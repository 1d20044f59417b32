-- ===== src/Crontab/Listing/Tests.antt =====
-- Tests of the list of jobs, and its theorem at a concrete input.
use Prim.Native.String.{◌++◌ as concat}
use zvia.Prelude.{String, true, false, none, some, get_or, [], ◌∷◌, map, All, ◌≡◌, refl}
use zvia.Prelude.Dict.{map_some}
use zvia.Prelude.Words.{join}
use zvia.Crontab.Listing.{listing, CronListResponse, ExecResult, list, cron_job_file_path}
use zvia.Crontab.Listing.Editable.{IsPlaced, list-IsPlaced}

abbrev printed : String
printed = join "\n" (
    "---RELAY:CRONTAB---" ∷ "yes" ∷ "---RELAY:WHOAMI---" ∷ "ada" ∷ "---RELAY:USER---"
    ∷ "@daily clean" ∷ "---RELAY:SYSTEM---" ∷ "0 5 * * * root backup" ∷ "---RELAY:CRON.D---"
    ∷ "---RELAY:FILE:/etc/cron.d/web---" ∷ "# web" ∷ "@reboot www start" ∷ "---RELAY:PERIODIC---"
    ∷ "daily /etc/cron.daily/logs" ∷ [])

abbrev no_root_crontab : ExecResult
no_root_crontab = record { stdout = ""; stderr = "no crontab for root\n"; exit_code = 1 }

abbrev response : CronListResponse
response = record {
  jobs = get_or (map_some (λ r. r.jobs) (list printed false (some no_root_crontab))) [];
  crontab_available = true;
  can_edit_user = true;
  can_edit_root = true;
}

listed_test : list printed false (some no_root_crontab) ≡ some response
unfolding listing
listed_test = refl

commands_test :
    map (λ job. concat (get_or job.user "") (concat " " job.command)) response.jobs
    ≡ "ada clean" ∷ "root backup" ∷ "www start" ∷ "root /etc/cron.daily/logs" ∷ []
unfolding listing
commands_test = refl

paths_test :
    map cron_job_file_path response.jobs
    ≡ none ∷ some "/etc/crontab" ∷ some "/etc/cron.d/web" ∷ some "/etc/cron.daily/logs" ∷ []
unfolding listing
paths_test = refl

list-IsPlaced_example : All (IsPlaced response) response.jobs
list-IsPlaced_example = list-IsPlaced printed false (some no_root_crontab) response listed_test
