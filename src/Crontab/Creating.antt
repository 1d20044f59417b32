-- ===== src/Crontab/Creating.antt =====
-- A job that was created is listed.
use Prim.Native.String.{◌++◌ as concat}
use zvia.Prelude.{
  suc, ◌+◌, String, true, false, none, some, List, [], ◌∷◌, ◌++◌, ◌==◌, string_eq, length, All,
  All-append, Bool-cases, inl, inr, ◌≡◌, refl, ◌∙◌, arith,
}
use zvia.Prelude.Splitting.{holds, holds-concat, holds-split_on}
use zvia.Prelude.Trimming.{IsSolid, trim_cases, trim_end-trim, holds-trim}
use zvia.Prelude.Words.{trim, join}
use zvia.Cron.{field_specs}
use zvia.Cron.Validation.{validate_fields}
use zvia.Cron.Words.{
  IsWord, IsPlain, field-IsPlain, trim-join, holds-join, validate_fields-first,
  validate_cron_expression-join,
}
use zvia.Cron.Lines.{ParseCrontabOptions, parse_cron_line, job_of, parse_crontab}
use zvia.Cron.Lines.Jobs.{jobs_of-append, jobs_of-one, jobs_of-none}
use zvia.Cron.Lines.Printing.{parse_cron_line-join}
use zvia.Crontab.{
  install, assert_command, assert_schedule, schedule_error, split_crontab_lines, strip_newlines,
  job_line, installed, create_asserted, create_job,
}
use zvia.Crontab.Contents.{parse_crontab-split, parse_crontab-installed}

pub split_crontab_lines-whole :
    (content : String) → All (λ l. holds "\n" l ≡ false) (split_crontab_lines content)
unfolding split_crontab_lines
split_crontab_lines-whole content = elim (Bool-cases (content == "")) [
  | inl e ↦ rw e tt
  | inr e ↦ rw e (holds-split_on "\n" (strip_newlines content))
]

-- What the assertion of a command lets through.
pub assert_command-none :
    (command : String)
    → assert_command command ≡ none
    → (IsSolid (trim command)) × (holds "\n" command ≡ false)
unfolding assert_command
assert_command-none command h = elim (Bool-cases (trim command == "")) [
  | inl e ↦
      absurd (
        let q : some "Invalid command: expected non-empty string" ≡ none = rw e at h in
        ground arith)
  | inr e ↦
      let solid : IsSolid (trim command) = elim (trim_cases command) [
        | inl q ↦ absurd (let z : true ≡ false = rw q at e in ground arith)
        | inr s ↦ s
      ] in
      (solid, ground arith)
]

module _ (w : String) (ws : List String) (five : length (w ∷ ws) ≡ 5) (words : All IsWord (w ∷ ws))
    (valid : (validate_fields field_specs (w ∷ ws)).valid ≡ true) (command : String)
    (asserted : assert_command command ≡ none) where
  starts : IsPlain w
  starts = field-IsPlain _ refl w (validate_fields-first _ _ w ws valid)

  pub job_line-read :
      parse_cron_line (job_line (join " " (w ∷ ws)) command) false
      ≡ some (record { schedule = join " " (w ∷ ws); command = trim command; user = none })
  unfolding job_line
  job_line-read =
      let (solid, _) = assert_command-none command asserted in
      rw (trim-join w ws words)
        (parse_cron_line-join w ws (trim command) five words starts solid (trim_end-trim command))

  pub holds-job_line : holds "\n" (job_line (join " " (w ∷ ws)) command) ≡ false
  unfolding job_line
  holds-job_line =
      let (_, single) = assert_command-none command asserted in
      let space : holds "\n" " " ≡ false = unfold holds in refl in
      rw (trim-join w ws words) (
        holds-concat "\n" (join " " (w ∷ ws)) (concat " " (trim command))
        ∙ rw
            (
              holds-join w ws words,
              holds-concat "\n" " " (trim command),
              space,
              holds-trim "\n" command single,
            )
            refl)

  pub assert_schedule-none : assert_schedule (join " " (w ∷ ws)) ≡ none
  unfolding assert_schedule schedule_error
  assert_schedule-none = rw (validate_cron_expression-join w ws five words starts, valid) refl

  -- Creating a job from five fields without spaces that pass the validation and a command on one
  -- line that is not blank: a text is installed, and its jobs, read without user fields, are those
  -- of the crontab that was read, unchanged and in order, and behind them one with the schedule
  -- and the trimmed command.
  pub create_job_lem :
      (content : String) (options : ParseCrontabOptions)
      → options.has_user_field ≡ false
      → (c : String) × (create_job (join " " (w ∷ ws)) command content ≡ install c)
        × (parse_crontab c options
            ≡ parse_crontab content options
              ++ job_of options
                  (job_line (join " " (w ∷ ws)) command)
                  (length (split_crontab_lines content) + 1)
                  (record { schedule = join " " (w ∷ ws); command = trim command; user = none })
                ∷ [])
  unfolding create_job create_asserted
  create_job_lem content options plain =
      let lines = split_crontab_lines content in
      let new = job_line (join " " (w ∷ ws)) command in
      let whole =
        All-append (λ l. holds "\n" l ≡ false) lines (new ∷ []) (split_crontab_lines-whole content)
          (holds-job_line, tt) in
      let read : parse_cron_line new options.has_user_field
          ≡ some (record { schedule = join " " (w ∷ ws); command = trim command; user = none }) =
        rw plain job_line-read in
      let place : length lines + 0 ≡ length lines = omega arith in
      (
        installed (lines ++ new ∷ []),
        rw (assert_schedule-none, asserted) refl,
        parse_crontab-installed options (lines ++ new ∷ []) whole
            ∙ jobs_of-append options 0 lines (new ∷ [])
            ∙ rw
                (
                  place,
                  jobs_of-one options (length lines) new _ [] read,
                  jobs_of-none options (suc (length lines)),
                  parse_crontab-split options content,
                )
                refl,
      )
