-- ===== src/Crontab/Editing.antt =====
-- An edit touches the job that its number names, and no other.
use zvia.Prelude.{
  ℕ, suc, ◌+◌, ◌-◌, String, true, false, none, some, List, [], ◌∷◌, ◌++◌, string_eq, length, All,
  All-append, ◌≡◌, refl, ap, ◌∙◌, arith,
}
use zvia.Prelude.Splitting.{holds}
use zvia.Prelude.Words.{trim, join}
use zvia.Cron.{CronTarget, field_specs}
use zvia.Cron.Validation.{validate_fields}
use zvia.Cron.Words.{IsWord}
use zvia.Cron.Lines.{
  ParseCrontabOptions, ParsedCronLine, parse_cron_line, job_of, jobs_of, parse_crontab,
}
use zvia.Cron.Lines.Jobs.{jobs_of-append, jobs_of-one}
use zvia.Crontab.{
  crontab_path, crontab_source, install, at_line, assert_command, split_crontab_lines, job_line,
  installed, line_at, set_line, delete_line, is_job, resolve_job_line_index, edit_at, edit_line,
  update_asserted, update_job, delete_job,
}
use zvia.Crontab.Contents.{parse_crontab-split, parse_crontab-installed}
use zvia.Crontab.Identifiers.{line_number_from_job_id-job_of}
use zvia.Crontab.Creating.{
  split_crontab_lines-whole, job_line-read, holds-job_line, assert_schedule-none,
}

line_at-append :
    (before after : List String) (text : String)
    → line_at (before ++ text ∷ after) (length before) ≡ some text
unfolding line_at
line_at-append [] after text = refl
line_at-append (x ∷ before) after text = line_at-append before after text

set_line-append :
    (before after : List String) (text new : String)
    → set_line (length before) new (before ++ text ∷ after) ≡ before ++ new ∷ after
unfolding set_line
set_line-append [] after text new = refl
set_line-append (x ∷ before) after text new =
    ap (λ l. x ∷ l) (set_line-append before after text new)

delete_line-append :
    (before after : List String) (text : String)
    → delete_line (length before) (before ++ text ∷ after) ≡ before ++ after
unfolding delete_line
delete_line-append [] after text = refl
delete_line-append (x ∷ before) after text = ap (λ l. x ∷ l) (delete_line-append before after text)

whole_parts :
    (before after : List String)
    → All (λ l. holds "\n" l ≡ false) (before ++ after)
    → (All (λ l. holds "\n" l ≡ false) before) × (All (λ l. holds "\n" l ≡ false) after)
whole_parts [] after h = (tt, h)
whole_parts (x ∷ before) after (h, k) = let (a, b) = whole_parts before after k in ((h, a), b)

-- A crontab with a job between other lines, the job's number, and how its jobs are listed.
module _ (content : String) (before after : List String) (text : String) (old : ParsedCronLine)
    (lines : split_crontab_lines content ≡ before ++ text ∷ after)
    (job : parse_cron_line text false ≡ some old) (options : ParseCrontabOptions)
    (plain : options.has_user_field ≡ false) where
  whole : (All (λ l. holds "\n" l ≡ false) before) × (All (λ l. holds "\n" l ≡ false) after)
  whole =
      let (a, (_, b)) =
        whole_parts before (text ∷ after) (rw lines at (split_crontab_lines-whole content)) in
      (a, b)

  place : length before + 0 ≡ length before
  place = omega arith

  listed :
      (t : String) (parsed : ParsedCronLine)
      → parse_cron_line t false ≡ some parsed
      → jobs_of options 0 (before ++ t ∷ after)
        ≡ jobs_of options 0 before
          ++ job_of options t (length before + 1) parsed
            ∷ jobs_of options (suc (length before)) after
  listed t parsed e =
      jobs_of-append options 0 before (t ∷ after)
      ∙ rw (place, jobs_of-one options (length before) t parsed after (rw plain e)) refl

  found :
      (n : ℕ)
      → n ≡ length before + 1
      → resolve_job_line_index (before ++ text ∷ after) n ≡ some (length before)
  unfolding resolve_job_line_index is_job
  found n e =
      let index : n - 1 ≡ length before = omega arith in
      rw (index, line_at-append before after text, job) refl

  edited :
      (edit : ℕ → List String → List String)
      → edit_line edit content (at_line (length before + 1))
        ≡ install (installed (edit (length before) (before ++ text ∷ after)))
  unfolding edit_line edit_at
  edited edit = rw (lines, found (length before + 1) refl) refl

  -- Deleting a job of a target's crontab, which has no user fields, by the id that the job is
  -- listed under: a text is installed, and of the jobs that were listed, those before it stay as
  -- they are, it is gone, and those behind it move up by one line.
  pub delete_job_lem :
      (target : CronTarget)
      → options.source ≡ crontab_source target
      → options.source_path ≡ crontab_path target
      → (parse_crontab content options
          ≡ jobs_of options 0 before
            ++ job_of options text (length before + 1) old
              ∷ jobs_of options (suc (length before)) after)
        × (c : String) × (delete_job target (job_of options text (length before + 1) old).id content
            ≡ install c)
        × (parse_crontab c options
            ≡ jobs_of options 0 before ++ jobs_of options (length before) after)
  unfolding delete_job
  delete_job_lem target source path =
      let e = line_number_from_job_id-job_of target options text (length before) old source path in
      (
        parse_crontab-split options content ∙ ap (jobs_of options 0) lines ∙ listed text old job,
        installed (before ++ after),
        rw e (edited delete_line ∙ rw (delete_line-append before after text) refl),
        parse_crontab-installed options (before ++ after)
              (All-append _ before after whole.0 whole.1)
            ∙ jobs_of-append options 0 before after
            ∙ rw place refl,
      )

  -- Updating a job of a target's crontab, which has no user fields, by the id that the job is
  -- listed under, with five fields without spaces that pass the validation and a command on one
  -- line that is not blank: a text is installed, the job is replaced by one with the schedule and
  -- the trimmed command, and every other job stays as it is.
  pub update_job_lem :
      (target : CronTarget) (w : String) (ws : List String) (command : String)
      → options.source ≡ crontab_source target
      → options.source_path ≡ crontab_path target
      → length (w ∷ ws) ≡ 5
      → All IsWord (w ∷ ws)
      → (validate_fields field_specs (w ∷ ws)).valid ≡ true
      → assert_command command ≡ none
      → (parse_crontab content options
          ≡ jobs_of options 0 before
            ++ job_of options text (length before + 1) old
              ∷ jobs_of options (suc (length before)) after)
        × (c : String) × (update_job target
              (job_of options text (length before + 1) old).id
              (join " " (w ∷ ws))
              command
              content
            ≡ install c)
        × (parse_crontab c options
            ≡ jobs_of options 0 before
              ++ job_of options
                  (job_line (join " " (w ∷ ws)) command)
                  (length before + 1)
                  (record { schedule = join " " (w ∷ ws); command = trim command; user = none })
                ∷ jobs_of options (suc (length before)) after)
  unfolding update_job update_asserted
  update_job_lem target w ws command source path five words valid asserted =
      let e = line_number_from_job_id-job_of target options text (length before) old source path in
      let new = job_line (join " " (w ∷ ws)) command in
      let free = holds-job_line w ws five words valid command asserted in
      let read = job_line-read w ws five words valid command asserted in
      let (first, rest) = whole in
      (
        parse_crontab-split options content ∙ ap (jobs_of options 0) lines ∙ listed text old job,
        installed (before ++ new ∷ after),
        rw (assert_schedule-none w ws five words valid command asserted, asserted, e)
            (edited (λ index l. set_line index new l)
              ∙ rw (set_line-append before after text new) refl),
        parse_crontab-installed options (before ++ new ∷ after)
              (All-append _ before (new ∷ after) first (free, rest))
            ∙ listed new _ read,
      )
