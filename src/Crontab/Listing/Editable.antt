-- ===== src/Crontab/Listing/Editable.antt =====
-- Which of the listed jobs can be edited.
use zvia.Prelude.{
  ℕ, suc, String, Bool, true, false, Option, none, some, is_some, List, [], ◌∷◌, All, All-append,
  ◌≡◌, refl, sym, ap, ◌∙◌, arith, Option-cases, inl, inr,
}
use zvia.Prelude.Dict.{Dict}
use zvia.Prelude.Words.{join}
use zvia.Cron.{CronSource, CronTarget, CronJob}
use zvia.Cron.Lines.{ParseCrontabOptions, parse_crontab}
use zvia.Cron.Lines.Jobs.{job_of-target, job_of-source, parse_crontab-All}
use zvia.Crontab.{crontab_source, crontab_path}
use zvia.Crontab.Sections.{DiscoverySections, split_sections, PeriodicEntry}
use zvia.Crontab.Listing.{
  CronListResponse, ExecResult, periodic_job, add_periodic, periodic_jobs, main_target,
  main_options, root_options, file_options, root_jobs, file_jobs, root_content, listed, list,
}

-- whether the crontab of a target is offered for editing
pub is_offered : CronTarget → CronListResponse → Bool
is_offered CronTarget.user r = r.can_edit_user
is_offered CronTarget.root r = r.can_edit_root

-- A job that has a target comes from the target's crontab, which is offered for editing whenever
-- the crontab command is there.
pub record IsPlaced (r : CronListResponse) (job : CronJob) : Type 0 where
  pub source : (t : CronTarget) → job.target ≡ some t → job.source ≡ crontab_source t
  pub path : (t : CronTarget) → job.target ≡ some t → job.source_path ≡ crontab_path t
  pub offered : (t : CronTarget) → job.target ≡ some t → is_offered t r ≡ r.crontab_available

module _ (r : CronListResponse) where
  untargeted : (job : CronJob) → job.target ≡ none → IsPlaced r job
  untargeted job e = record {
    source = λ t h. absurd (differ t (sym e ∙ h));
    path = λ t h. absurd (differ t (sym e ∙ h));
    offered = λ t h. absurd (differ t (sym e ∙ h));
  }
    where
      differ : (t : CronTarget) → none ≡ some t → ⊥
      differ t q = cc

  abbrev AllPlaced : Option (List CronJob) → Type 0
  AllPlaced none = Unit
  AllPlaced (some jobs) = All (IsPlaced r) jobs

  add_periodic-AllPlaced :
      (index : ℕ) (entry : PeriodicEntry) (schedule : Option String) (jobs : Option (List CronJob))
      → AllPlaced jobs
      → AllPlaced (add_periodic index entry schedule jobs)
  unfolding add_periodic periodic_job
  add_periodic-AllPlaced index entry none jobs h = tt
  add_periodic-AllPlaced index entry (some schedule) none h = tt
  add_periodic-AllPlaced index entry (some schedule) (some jobs) h = (untargeted _ refl, h)

  periodic_jobs-AllPlaced :
      (index : ℕ) (entries : List PeriodicEntry) → AllPlaced (periodic_jobs index entries)
  unfolding periodic_jobs
  periodic_jobs-AllPlaced index [] = tt
  periodic_jobs-AllPlaced index (entry ∷ rest) =
      add_periodic-AllPlaced index entry _ _ (periodic_jobs-AllPlaced (suc index) rest)

  file_jobs-All : (files : Dict (List String)) → All (IsPlaced r) (file_jobs files)
  unfolding file_jobs
  file_jobs-All [] = tt
  file_jobs-All ((path, lines) ∷ rest) =
      All-append (IsPlaced r)
        (parse_crontab (join "\n" lines) (file_options CronSource.cron_d path)) (file_jobs rest)
        (parse_crontab-All (file_options CronSource.cron_d path) (IsPlaced r)
          (λ text n parsed.
            untargeted _ (job_of-target (file_options CronSource.cron_d path) text n parsed))
          (join "\n" lines))
        (file_jobs-All rest)

  -- the jobs of the crontab of a target that is offered
  targeted-All :
      (options : ParseCrontabOptions) (t : CronTarget) (content : String)
      → options.target ≡ some t
      → options.source ≡ crontab_source t
      → options.source_path ≡ crontab_path t
      → is_offered t r ≡ r.crontab_available
      → All (IsPlaced r) (parse_crontab content options)
  targeted-All options t content e source path offered =
      parse_crontab-All options (IsPlaced r)
        (λ text n parsed.
          let target = job_of-target options text n parsed ∙ e in
          let (a, b) = job_of-source options text n parsed in
          record {
            source = λ u h. a ∙ source ∙ ap crontab_source (some_inj (sym target ∙ h));
            path = λ u h. b ∙ path ∙ ap crontab_path (some_inj (sym target ∙ h));
            offered = λ u h. rw (some_inj (sym target ∙ h)) at offered;
          })
        content
    where
      some_inj : {t u : CronTarget} → some t ≡ some u → t ≡ u
      some_inj q = cc

main-offered :
    (is_root : Bool) (root : Option String) (s : DiscoverySections) (others : List CronJob)
    → is_offered (main_target is_root) (listed is_root root s others) ≡ s.crontab_available
unfolding is_offered listed
main-offered true root s others = ground arith
main-offered false root s others = ground arith

root_jobs-All :
    (root : Option String) (r : CronListResponse)
    → (is_some root ≡ true → is_offered CronTarget.root r ≡ r.crontab_available)
    → All (IsPlaced r) (root_jobs root)
unfolding root_jobs crontab_source crontab_path
root_jobs-All none r h = tt
root_jobs-All (some content) r h =
    targeted-All r root_options CronTarget.root content refl refl refl (h refl)

root-offered :
    (is_root : Bool) (root : Option String) (s : DiscoverySections) (others : List CronJob)
    → is_some root ≡ true
    → is_offered CronTarget.root (listed is_root root s others) ≡ s.crontab_available
unfolding is_offered listed
root-offered is_root root s others h = ground arith

listed-All :
    (is_root : Bool) (root : Option String) (s : DiscoverySections) (others : List CronJob)
    → ((r : CronListResponse) → All (IsPlaced r) others)
    → All (IsPlaced (listed is_root root s others)) (listed is_root root s others).jobs
unfolding listed
listed-All is_root root s others placed =
    let r = listed is_root root s others in
    let main = main_options is_root s.username in
    let system = file_options CronSource.system_crontab "/etc/crontab" in
    let own =
      targeted-All r main (main_target is_root) (join "\n" s.user_lines)
        (unfold main_options in refl) (unfold main_options in refl) (unfold main_options in refl)
        (main-offered is_root root s others) in
    let systems =
      parse_crontab-All system (IsPlaced r)
        (λ text n parsed. untargeted r _ (job_of-target system text n parsed))
        (join "\n" s.system_lines) in
    All-append (IsPlaced r) _ _ own (
      All-append (IsPlaced r) _ _ (root_jobs-All root r (root-offered is_root root s others)) (
        All-append (IsPlaced r) _ _ systems
          (All-append (IsPlaced r) _ _ (file_jobs-All r s.files) (placed r))))

-- Every job of the list that has a target is of that target's crontab, under whose name and
-- source its id is read, and that crontab is offered for editing whenever the crontab command is
-- there. Jobs of system files and of the periodic directories have none.
pub list-IsPlaced :
    (stdout : String) (is_root : Bool) (root : Option ExecResult) (r : CronListResponse)
    → list stdout is_root root ≡ some r
    → All (IsPlaced r) r.jobs
unfolding list
list-IsPlaced stdout is_root root r h =
    let s = split_sections stdout in
    elim (Option-cases (periodic_jobs 0 s.periodic)) [
      | inl e ↦ let q : none ≡ some r = rw e at h in absurd (cc)
      | inr (others, e) ↦
          let same : some (listed is_root (root_content is_root root) s others) ≡ some r =
            rw e at h in
          let eq : listed is_root (root_content is_root root) s others ≡ r = cc in
          let placed : (r : CronListResponse) → All (IsPlaced r) others =
            λ r. rw e at (periodic_jobs-AllPlaced r 0 s.periodic) in
          rw eq at (listed-All is_root (root_content is_root root) s others placed)
    ]
