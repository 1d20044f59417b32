-- ===== src/Cron/Lines/Jobs.antt =====
-- The jobs of lines that follow one another.
use Prim.Native.String.{◌++◌ as concat}
use zvia.Prelude.Decimal.{show}
use zvia.Prelude.{
  ℕ, suc, ◌+◌, String, List, [], ◌∷◌, ◌++◌, Option, none, some, length, All, ◌≡◌, refl, ap, ◌∙◌,
  arith,
}
use zvia.Prelude.Words.{trim, split_on}
use zvia.Cron.{CronJob}
use zvia.Cron.Lines.{
  ParseCrontabOptions, ParsedCronLine, parse_cron_line, parse_trimmed, cron_source_text, push_job,
  job_of, jobs_of, parse_crontab,
}

module _ (options : ParseCrontabOptions) where
  pub parse_crontab_lem :
      (content : String) → parse_crontab content options ≡ jobs_of options 0 (split_on "\n" content)
  unfolding parse_crontab
  parse_crontab_lem content = refl

  push_job-append :
      (text : String) (n : ℕ) (parsed : Option ParsedCronLine) (xs ys : List CronJob)
      → push_job options text n parsed (xs ++ ys) ≡ push_job options text n parsed xs ++ ys
  unfolding push_job
  push_job-append text n none xs ys = refl
  push_job-append text n (some p) xs ys = refl

  pub jobs_of-append :
      (index : ℕ) (xs ys : List String)
      → jobs_of options index (xs ++ ys)
        ≡ jobs_of options index xs ++ jobs_of options (length xs + index) ys
  unfolding jobs_of
  jobs_of-append index [] ys = ap (λ n. jobs_of options n ys) (omega arith)
  jobs_of-append index (x ∷ xs) ys =
      let parsed = parse_cron_line x options.has_user_field in
      let place : length xs + suc index ≡ suc (length xs) + index = omega arith in
      ap (push_job options x (index + 1) parsed) (
        jobs_of-append (suc index) xs ys
        ∙ ap (λ n. jobs_of options (suc index) xs ++ jobs_of options n ys) place)
      ∙ push_job-append x (index + 1) parsed (jobs_of options (suc index) xs) _

  blank_line :
      (index : ℕ) (jobs : List CronJob)
      → push_job options "" (index + 1) (parse_cron_line "" options.has_user_field) jobs ≡ jobs
  unfolding parse_cron_line parse_trimmed trim push_job
  blank_line index jobs = refl

  jobs_of-blank :
      (index : ℕ) (xs : List String) → All (λ x. x ≡ "") xs → jobs_of options index xs ≡ []
  unfolding jobs_of
  jobs_of-blank index [] h = refl
  jobs_of-blank index (x ∷ xs) (e, h) = rw (e, jobs_of-blank (suc index) xs h) (blank_line index [])

  -- Blank lines at the end are no jobs.
  pub jobs_of-append_blank :
      (xs ys : List String)
      → All (λ y. y ≡ "") ys
      → jobs_of options 0 (xs ++ ys) ≡ jobs_of options 0 xs
  jobs_of-append_blank xs ys h =
      jobs_of-append 0 xs ys
      ∙ rw (jobs_of-blank (length xs + 0) ys h) (append_nil (jobs_of options 0 xs))
    where
      append_nil : (l : List CronJob) → l ++ [] ≡ l
      append_nil [] = refl
      append_nil (x ∷ l) = ap (λ r. x ∷ r) (append_nil l)

  pub jobs_of-one :
      (index : ℕ) (text : String) (parsed : ParsedCronLine) (rest : List String)
      → parse_cron_line text options.has_user_field ≡ some parsed
      → jobs_of options index (text ∷ rest)
        ≡ job_of options text (index + 1) parsed ∷ jobs_of options (suc index) rest
  unfolding jobs_of push_job
  jobs_of-one index text parsed rest e = rw e refl

  pub jobs_of-none : (index : ℕ) → jobs_of options index [] ≡ []
  unfolding jobs_of
  jobs_of-none index = refl

  pub job_of-id :
      (text : String) (n : ℕ) (parsed : ParsedCronLine)
      → (job_of options text n parsed).id
        ≡ concat
            (cron_source_text options.source)
            (concat ":" (concat options.source_path (concat ":" (show n))))
  unfolding job_of
  job_of-id text n parsed = refl

  pub job_of-target :
      (text : String) (n : ℕ) (parsed : ParsedCronLine)
      → (job_of options text n parsed).target ≡ options.target
  unfolding job_of
  job_of-target text n parsed = refl

  pub job_of-source :
      (text : String) (n : ℕ) (parsed : ParsedCronLine)
      → ((job_of options text n parsed).source ≡ options.source)
        × ((job_of options text n parsed).source_path ≡ options.source_path)
  unfolding job_of
  job_of-source text n parsed = (refl, refl)

  module _ (P : CronJob → Type 0)
      (each : (text : String) (n : ℕ) (parsed : ParsedCronLine)
        → P (job_of options text n parsed)) where
    push_job-All :
        (text : String) (n : ℕ) (parsed : Option ParsedCronLine) (jobs : List CronJob)
        → All P jobs
        → All P (push_job options text n parsed jobs)
    unfolding push_job
    push_job-All text n none jobs h = h
    push_job-All text n (some parsed) jobs h = (each text n parsed, h)

    jobs_of-All : (index : ℕ) (lines : List String) → All P (jobs_of options index lines)
    unfolding jobs_of
    jobs_of-All index [] = tt
    jobs_of-All index (x ∷ rest) = push_job-All x (index + 1) _ _ (jobs_of-All (suc index) rest)

    -- What holds of every job that a line can make holds of all jobs of a crontab.
    pub parse_crontab-All : (content : String) → All P (parse_crontab content options)
    unfolding parse_crontab
    parse_crontab-All content = jobs_of-All 0 (split_on "\n" content)
