-- ===== src/Crontab/Identifiers.antt =====
-- The id that a job is listed under gives its line's number back.
use Prim.Native.Char.{Char, code}
use Prim.Native.String.{◌++◌ as concat, [] as empty, ◌∷◌ as put, count}
use text.Mathlib.TextLemmas.{nil-append, cons-append, append_assoc, length-nil, length-eq-one_iff}
use zvia.Prelude.{
  ℕ, zero, suc, ◌+◌, ◌-◌, ◌*◌, ◌/◌, ◌%◌, ◌<◌, String, true, false, some, ltb, ◌==◌, nat_eq,
  string_eq, nat_beq_iff, Bool-cases, inl, inr, ◌≡◌, ◌≢◌, refl, sym, ap, ◌∙◌, arith,
}
use zvia.Prelude.Decimal.{
  digit, show_digits, show, all_digits, all_digits_sound, count-digit, show_digits-pos,
}
use zvia.Prelude.Words.{is_space, trim_start}
use zvia.Cron.{CronTarget, is_digit, only_digits}
use zvia.Cron.Lines.{ParseCrontabOptions, ParsedCronLine, cron_source_text, job_of}
use zvia.Cron.Lines.Jobs.{job_of-id}
use zvia.Crontab.{
  crontab_path, crontab_source, strip_prefix, leading_from, leading_number, without_plus, parse_int,
  job_prefix, at_line, line_of, number_behind, line_number_from_job_id,
}

strip_prefix-concat : (p s : String) → strip_prefix p (concat p s) ≡ some s
unfolding strip_prefix
strip_prefix-concat empty s = ap (strip_prefix "") (nil-append s)
strip_prefix-concat (put c p) s =
    let same : (code c == code c) ≡ true = ground arith in
    ap (strip_prefix (put c p)) (cons-append c p s) ∙ rw (same, strip_prefix-concat p s) refl

abbrev head_code : String → ℕ
head_code empty = 0
head_code (put c s) = code c

digit_char : (d : ℕ) → d < 10 → (c : Char) × (digit d ≡ put c "") × (code c ≡ b'0' + d)
digit_char d h =
    let (c, e) = length-eq-one_iff.0 (count-digit d h) in
    let checked : (head_code (digit d) == b'0' + d) ≡ true =
      unfold all_digits digit in
      all_digits_sound (λ k. head_code (digit k) == b'0' + k) 10 d refl h in
    let value = (nat_beq_iff _ _).0 checked in (c, e, sym (ap head_code e) ∙ value)

leading_from-digit :
    (n d : ℕ) → d < 10 → (leading_from n (digit d) ≡ n * 10 + d) × (only_digits (digit d) ≡ true)
unfolding leading_from only_digits is_digit
leading_from-digit n d h =
    let (c, e, v) = digit_char d h in
    let from : (ltb (code c) b'0') ≡ false = ground arith in
    let to : (ltb b'9' (code c)) ≡ false = ground arith in
    let value : n * 10 + (code c - b'0') ≡ n * 10 + d = omega arith in
    rw e (rw (from, to) value, rw (from, to) refl)

leading_from-concat :
    (n : ℕ) (s t : String)
    → only_digits s ≡ true
    → leading_from n (concat s t) ≡ leading_from (leading_from n s) t
unfolding leading_from only_digits
leading_from-concat n empty t h = ap (leading_from n) (nil-append t)
leading_from-concat n (put c s) t h =
    let d : is_digit c ≡ true = ground arith in
    let ih = leading_from-concat (n * 10 + (code c - b'0')) s t (ground arith) in
    ap (leading_from n) (cons-append c s t) ∙ rw d ih

only_digits-concat :
    (s t : String) → only_digits s ≡ true → only_digits t ≡ true → only_digits (concat s t) ≡ true
unfolding only_digits
only_digits-concat empty t h k = rw (nil-append t) k
only_digits-concat (put c s) t h k = rw (cons-append c s t) (ground (arith, only_digits-concat s t))

show_digits-value :
    (f n : ℕ)
    → n < f
    → (only_digits (show_digits f n) ≡ true) × (leading_from 0 (show_digits f n) ≡ n)
unfolding show_digits
show_digits-value zero n h = elim h [ ]
show_digits-value (suc f) n h = elim (Bool-cases (ltb n 10)) [
  | inl e ↦
      let (value, digits) = leading_from-digit 0 (n % 10) (omega arith) in
      rw (e, nil-append (digit (n % 10))) (digits, value ∙ ground arith)
  | inr e ↦
      let (before, tens) = show_digits-value f (n / 10) (ground arith) in
      let (value, digits) = leading_from-digit (n / 10) (n % 10) (omega arith) in
      rw e (
        only_digits-concat (show_digits f (n / 10)) (digit (n % 10)) before digits,
        leading_from-concat 0 (show_digits f (n / 10)) (digit (n % 10)) before
            ∙ rw tens (value ∙ omega arith),
      )
]

digit-no_space : (c : Char) → is_digit c ≡ true → (is_space c ≡ false) × ((code c == b'+') ≡ false)
unfolding is_digit is_space
digit-no_space c h = (ground arith, ground arith)

parse_int-digits :
    (s : String) → only_digits s ≡ true → count s ≢ 0 → parse_int s ≡ some (leading_from 0 s)
unfolding parse_int trim_start without_plus leading_number only_digits
parse_int-digits empty h k = absurd (k length-nil)
parse_int-digits (put c s) h k =
    let d : is_digit c ≡ true = ground arith in
    let (space, plus) = digit-no_space c d in rw (space, plus, d) refl

parse_int-show : (n : ℕ) → parse_int (show n) ≡ some n
unfolding show
parse_int-show n =
    let (digits, value) = show_digits-value (suc n) n (omega arith) in
    parse_int-digits (show_digits (suc n) n) digits (show_digits-pos (suc n) n (omega arith))
    ∙ ap some value

-- The id that a job of an editable crontab is listed under is read as the number of its line.
pub line_number_from_job_id-job_of :
    (target : CronTarget) (options : ParseCrontabOptions) (text : String) (n : ℕ)
    (parsed : ParsedCronLine)
    → options.source ≡ crontab_source target
    → options.source_path ≡ crontab_path target
    → line_number_from_job_id (job_of options text (n + 1) parsed).id target ≡ at_line (n + 1)
unfolding line_number_from_job_id number_behind line_of job_prefix
line_number_from_job_id-job_of target options text n parsed source path =
    let number = show (n + 1) in
    let a = cron_source_text (crontab_source target) in
    let b = crontab_path target in
    let e : concat a (concat ":" (concat b (concat ":" number)))
        ≡ concat (concat a (concat ":" (concat b ":"))) number =
      sym (
        append_assoc a (concat ":" (concat b ":")) number
        ∙ ap (concat a) (
            append_assoc ":" (concat b ":") number
            ∙ ap (concat ":") (append_assoc b ":" number))) in
    let below : ltb (n + 1) 1 ≡ false = ground arith in
    rw
      (
        job_of-id options text (n + 1) parsed,
        source,
        path,
        e,
        strip_prefix-concat (concat a (concat ":" (concat b ":"))) number,
        parse_int-show (n + 1),
        below,
      )
      refl
