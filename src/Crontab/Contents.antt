-- ===== src/Crontab/Contents.antt =====
-- The jobs of a text that was put together from lines are the jobs of the lines.
use Prim.Native.Char.{Char, code}
use Prim.Native.String.{◌++◌ as concat, [] as empty, ◌∷◌ as put}
use text.Mathlib.TextLemmas.{nil-append, cons-append}
use zvia.Prelude.{
  String, false, List, [], ◌∷◌, ◌++◌, ◌==◌, nat_eq, string_eq, All, Bool-cases, inl, inr, ◌≡◌, refl,
  sym, ap, ◌∙◌, eq_iff,
}
use zvia.Prelude.Splitting.{holds, split_on-cons, split_on-join}
use zvia.Prelude.Words.{begin, split_on, join}
use zvia.Cron.Lines.{ParseCrontabOptions, jobs_of, parse_crontab}
use zvia.Cron.Lines.Jobs.{parse_crontab_lem, jobs_of-append_blank}
use zvia.Crontab.{strip_newlines, split_crontab_lines, ends_with_newline, normalized, installed}

abbrev IsBlank : String → Type 0
IsBlank s = s ≡ ""

begin_split :
    (c : Char) (s : String) (more : List String)
    → begin c (split_on "\n" s ++ more) ≡ begin c (split_on "\n" s) ++ more
unfolding begin
begin_split c s more = let (p, rest, e) = split_on-cons "\n" s in rw e refl

-- What `split` makes of a content is what it makes of the stripped one, and blank lines.
split-strip_newlines :
    (s : String)
    → (blanks : List String) × All IsBlank blanks
      × (split_on "\n" s ≡ split_on "\n" (strip_newlines s) ++ blanks)
unfolding split_on strip_newlines
split-strip_newlines empty = ([], tt, refl)
split-strip_newlines (put c s) =
    let (blanks, blank, e) = split-strip_newlines s in
    elim (Bool-cases (code c == 10)) [
      | inl nl ↦ elim (Bool-cases (strip_newlines s == "")) [
        | inl gone ↦
            let g = (eq_iff _ _).0 gone in
            (("" ∷ blanks), (refl, blank), rw (nl, gone) (ap (λ l. "" ∷ l) (rw g at e)))
        | inr more ↦ (blanks, blank, rw (nl, more) (rw nl (ap (λ l. "" ∷ l) e)))
      ]
      | inr other ↦ (
        blanks,
        blank,
        rw other (rw other (ap (begin c) e ∙ begin_split c (strip_newlines s) blanks)),
      )
    ]

split_on-snoc : (s : String) → split_on "\n" (concat s "\n") ≡ split_on "\n" s ++ "" ∷ []
unfolding split_on
split_on-snoc empty = ap (split_on "\n") (nil-append "\n")
split_on-snoc (put d s) =
    ap (split_on "\n") (cons-append d s "\n") ∙ elim (Bool-cases (code d == 10)) [
      | inl e ↦ rw e (ap (λ l. "" ∷ l) (split_on-snoc s))
      | inr e ↦ rw e (ap (begin d) (split_on-snoc s) ∙ begin_split d s ("" ∷ []))
    ]

split-normalized :
    (s : String)
    → (blanks : List String) × All IsBlank blanks
      × (split_on "\n" (normalized s) ≡ split_on "\n" s ++ blanks)
unfolding normalized
split-normalized s = elim (Bool-cases (ends_with_newline s)) [
  | inl e ↦ ([], tt, rw e (sym (append_nil (split_on "\n" s))))
  | inr e ↦ ("" ∷ [], (refl, tt), rw e (split_on-snoc s))
]
  where
    append_nil : (l : List String) → l ++ [] ≡ l
    append_nil [] = refl
    append_nil (x ∷ l) = ap (λ r. x ∷ r) (append_nil l)

nothing_installed : installed [] ≡ "\n"
unfolding installed normalized join ends_with_newline
nothing_installed = refl

module _ (options : ParseCrontabOptions) where
  -- A content has the jobs of the lines that an edit works on.
  pub parse_crontab-split :
      (content : String)
      → parse_crontab content options ≡ jobs_of options 0 (split_crontab_lines content)
  unfolding split_crontab_lines
  parse_crontab-split content =
      let (blanks, blank, e) = split-strip_newlines content in
      let whole = parse_crontab_lem options content in
      elim (Bool-cases (content == "")) [
        | inl none_left ↦
            let gone = (eq_iff _ _).0 none_left in
            rw none_left (
              whole
              ∙ rw gone (unfold split_on in jobs_of-append_blank options [] ("" ∷ []) (refl, tt)))
        | inr some_left ↦ rw some_left (
            whole
            ∙ rw e (
                jobs_of-append_blank options (split_on "\n" (strip_newlines content)) blanks blank))
      ]

  -- What is installed of lines has the jobs of the lines.
  pub parse_crontab-installed :
      (lines : List String)
      → All (λ l. holds "\n" l ≡ false) lines
      → parse_crontab (installed lines) options ≡ jobs_of options 0 lines
  unfolding installed split_on
  parse_crontab-installed [] h =
      ap (λ c. parse_crontab c options) nothing_installed
      ∙ parse_crontab_lem options "\n"
      ∙ jobs_of-append_blank options [] ("" ∷ "" ∷ []) (refl, (refl, tt))
  parse_crontab-installed (p ∷ ps) h =
      let (blanks, blank, e) = split-normalized (join "\n" (p ∷ ps)) in
      let same = split_on-join "\n" p ps h in
      parse_crontab_lem options (normalized (join "\n" (p ∷ ps)))
      ∙ rw (e, same) (jobs_of-append_blank options (p ∷ ps) blanks blank)
