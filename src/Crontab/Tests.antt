-- ===== src/Crontab/Tests.antt =====
-- Tests of the crontab, and its theorems at a concrete input.
use zvia.Prelude.{
  suc, ◌+◌, String, true, false, none, some, List, [], ◌∷◌, ◌++◌, length, All, ◌≡◌, refl, ◌↔◌,
}
use zvia.Prelude.Words.{is_space, trim, join}
use zvia.Cron.{CronSource, CronTarget, day_of_week_spec, is_valid_field, field_specs}
use zvia.Cron.Validation.{validate_fields, validation}
use zvia.Cron.Fields.{IsField, is_valid_field_iff}
use zvia.Cron.Words.{has_no_space, IsWord}
use zvia.Cron.Lines.{
  ParseCrontabOptions, ParsedCronLine, parse_cron_line, job_of, jobs_of, parse_crontab, reading,
}
use zvia.Crontab.{
  crontab_source, crontab_path, editing, install, thrown, at_line, line_number_from_job_id,
  assert_command, split_crontab_lines, job_line, create_job, update_job, delete_job,
}
use zvia.Crontab.Creating.{create_job_lem}
use zvia.Crontab.Editing.{delete_job_lem, update_job_lem}
use zvia.Crontab.Identifiers.{line_number_from_job_id-job_of}

abbrev options : ParseCrontabOptions
options = record {
  source = CronSource.user_crontab;
  source_path = "crontab:user";
  has_user_field = false;
  default_user = some "ada";
  target = some CronTarget.user;
}

abbrev content : String
content = "# jobs\n@daily clean\n@hourly ping\n"

abbrev heading : List String
heading = "# jobs" ∷ []

abbrev behind : List String
behind = "@hourly ping" ∷ []

abbrev clean : ParsedCronLine
clean = record { schedule = "@daily"; command = "clean"; user = none }

ids_test :
    jobs_of options 1 ("@daily clean" ∷ [])
    ≡ (record {
      id = "user-crontab:crontab:user:2";
      raw = "@daily clean";
      schedule = "@daily";
      command = "clean";
      user = some "ada";
      source = CronSource.user_crontab;
      source_path = "crontab:user";
      line_number = 2;
      description = "Every day at 00:00";
      valid = true;
      target = some CronTarget.user;
    })
      ∷ []
unfolding reading
ids_test = refl

create_test :
    create_job "0 9 * * *" " backup " "# jobs\n@daily clean\n\n"
    ≡ install "# jobs\n@daily clean\n0 9 * * * backup\n"
unfolding editing
create_test = refl

delete_test :
    delete_job CronTarget.user "user-crontab:crontab:user:2" "# jobs\n@daily clean\n@hourly ping\n"
    ≡ install "# jobs\n@hourly ping\n"
unfolding editing
delete_test = refl

comment_test :
    delete_job CronTarget.user "user-crontab:crontab:user:1" "# jobs\n@daily clean\n"
    ≡ thrown "Cron job could not be found"
unfolding editing
comment_test = refl

-- A schedule that goes over two lines is accepted, and neither line has its fields.
two_lines_test : create_job "0 0\n* * *" "backup" "" ≡ install "0 0\n* * * backup\n"
unfolding editing
two_lines_test = refl

zero-IsWord : IsWord "0"
unfolding has_no_space is_space
zero-IsWord = record {
  solid = record { head = "0"; tail = ""; same = refl; solid = refl };
  no_space = refl;
}

nine-IsWord : IsWord "9"
unfolding has_no_space is_space
nine-IsWord = record {
  solid = record { head = "9"; tail = ""; same = refl; solid = refl };
  no_space = refl;
}

star-IsWord : IsWord "*"
unfolding has_no_space is_space
star-IsWord = record {
  solid = record { head = "*"; tail = ""; same = refl; solid = refl };
  no_space = refl;
}

abbrev daily : List String
daily = "9" ∷ "*" ∷ "*" ∷ "*" ∷ []

words : All IsWord ("0" ∷ daily)
words = (zero-IsWord, (nine-IsWord, (star-IsWord, (star-IsWord, (star-IsWord, tt)))))

valid_words : (validate_fields field_specs ("0" ∷ daily)).valid ≡ true
unfolding validation
valid_words = refl

command_fits : assert_command " backup " ≡ none
unfolding editing
command_fits = refl

parts : split_crontab_lines content ≡ heading ++ "@daily clean" ∷ behind
unfolding editing
parts = refl

clean-read : parse_cron_line "@daily clean" false ≡ some clean
unfolding reading
clean-read = refl

user_source : options.source ≡ crontab_source CronTarget.user
unfolding editing
user_source = refl

user_path : options.source_path ≡ crontab_path CronTarget.user
unfolding editing
user_path = refl

abbrev new : ParsedCronLine
new = record { schedule = join " " ("0" ∷ daily); command = trim " backup "; user = none }

create_job_lem_example :
    (c : String) × (create_job (join " " ("0" ∷ daily)) " backup " content ≡ install c)
    × (parse_crontab c options
        ≡ parse_crontab content options
          ++ job_of options
              (job_line (join " " ("0" ∷ daily)) " backup ")
              (length (split_crontab_lines content) + 1)
              new
            ∷ [])
create_job_lem_example =
    create_job_lem "0" daily refl words valid_words " backup " command_fits content options refl

delete_job_lem_example :
    (parse_crontab content options
      ≡ jobs_of options 0 heading
        ++ job_of options "@daily clean" (length heading + 1) clean
          ∷ jobs_of options (suc (length heading)) behind)
    × (c : String) × (delete_job CronTarget.user
          (job_of options "@daily clean" (length heading + 1) clean).id
          content
        ≡ install c)
    × (parse_crontab c options
        ≡ jobs_of options 0 heading ++ jobs_of options (length heading) behind)
delete_job_lem_example =
    delete_job_lem content heading behind "@daily clean" clean parts clean-read options refl
      CronTarget.user user_source user_path

update_job_lem_example :
    (parse_crontab content options
      ≡ jobs_of options 0 heading
        ++ job_of options "@daily clean" (length heading + 1) clean
          ∷ jobs_of options (suc (length heading)) behind)
    × (c : String) × (update_job CronTarget.user
          (job_of options "@daily clean" (length heading + 1) clean).id
          (join " " ("0" ∷ daily))
          " backup "
          content
        ≡ install c)
    × (parse_crontab c options
        ≡ jobs_of options 0 heading
          ++ job_of options (job_line (join " " ("0" ∷ daily)) " backup ") (length heading + 1) new
            ∷ jobs_of options (suc (length heading)) behind)
update_job_lem_example =
    update_job_lem content heading behind "@daily clean" clean parts clean-read options refl
      CronTarget.user "0" daily " backup " user_source user_path refl words valid_words command_fits

line_number_from_job_id-job_of_example :
    line_number_from_job_id (job_of options "@daily clean" (39 + 1) clean).id CronTarget.user
    ≡ at_line (39 + 1)
line_number_from_job_id-job_of_example =
    line_number_from_job_id-job_of CronTarget.user options "@daily clean" 39 clean user_source
      user_path

is_valid_field_iff_example :
    (is_valid_field "Mon-5/2,0" day_of_week_spec ≡ true) ↔ IsField day_of_week_spec "Mon-5/2,0"
is_valid_field_iff_example = is_valid_field_iff day_of_week_spec "Mon-5/2,0"
