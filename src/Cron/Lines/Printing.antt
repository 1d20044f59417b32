-- ===== src/Cron/Lines/Printing.antt =====
-- A schedule and a command that are written with spaces between them are read back.
use Prim.Native.Char.{Char, code}
use Prim.Native.String.{◌++◌ as concat, [] as empty, ◌∷◌ as put}
use text.Mathlib.TextLemmas.{
  nil-append, cons-append, append_assoc, append-ne-nil_of_right_ne-nil, cons-ne-nil,
}
use zvia.Prelude.{
  ℕ, zero, suc, String, true, false, none, some, List, [], ◌∷◌, ◌==◌, nat_eq, string_eq, length,
  All, Bool-cases, inl, inr, ◌≡◌, ◌≢◌, refl, sym, ap, ◌∙◌, arith, eq_iff,
}
use zvia.Prelude.Trimming.{IsSolid, IsSolid-concat, trim-whole, not_empty}
use zvia.Prelude.Words.{is_space, trim_end, trim, join}
use zvia.Cron.{is_digit}
use zvia.Cron.Validation.{begins_with}
use zvia.Cron.Words.{has_no_space, IsWord, is_plain, IsPlain, IsPlain-concat, trim_end-keep}
use zvia.Cron.Lines.{
  is_whitespace, skip_whitespace, take_word, drop_word, put_token, take_tokens, is_name_start,
  is_environment_assignment, read_schedule, read_user, read_command, parse_trimmed, parse_cron_line,
}

no_whitespace : (c : Char) → is_space c ≡ false → is_whitespace c ≡ false
unfolding is_space is_whitespace
no_whitespace c h = ground arith

-- words with a space behind each, before a text
unfoldable pub spaced : List String → String → String
spaced [] t = t
spaced (w ∷ ws) t = concat w (concat " " (spaced ws t))

put_space : (t : String) → concat " " t ≡ put " " t
put_space t = cons-append " " "" t ∙ ap (put " ") (nil-append t)

take_word-spaced : (w t : String) → has_no_space w ≡ true → take_word (concat w (concat " " t)) ≡ w
unfolding take_word has_no_space
take_word-spaced empty t h =
    ap take_word (nil-append (concat " " t) ∙ put_space t) ∙ (unfold is_whitespace in refl)
take_word-spaced (put c w) t h =
    let e = no_whitespace c (ground arith) in
    ap take_word (cons-append c w (concat " " t)) ∙ rw (e, take_word-spaced w t (ground arith)) refl

drop_word-spaced :
    (w t : String) → has_no_space w ≡ true → drop_word (concat w (concat " " t)) ≡ concat " " t
unfolding drop_word has_no_space is_whitespace
drop_word-spaced empty t h =
    let e = nil-append (concat " " t) ∙ put_space t in ap drop_word e ∙ sym (put_space t)
drop_word-spaced (put c w) t h =
    let e = no_whitespace c (ground arith) in
    ap drop_word (cons-append c w (concat " " t)) ∙ rw (e, drop_word-spaced w t (ground arith)) refl

skip_whitespace-IsSolid : (s : String) → IsSolid s → skip_whitespace s ≡ s
unfolding skip_whitespace
skip_whitespace-IsSolid s h = rw (h.same, no_whitespace h.head h.solid) refl

skip_whitespace-space : (t : String) → skip_whitespace (concat " " t) ≡ skip_whitespace t
unfolding skip_whitespace is_whitespace
skip_whitespace-space t = ap skip_whitespace (put_space t)

take_tokens-skip :
    (n : ℕ) (s t : String)
    → skip_whitespace s ≡ skip_whitespace t
    → take_tokens n s ≡ take_tokens n t
unfolding take_tokens
take_tokens-skip zero s t e = rw e refl
take_tokens-skip (suc n) s t e = rw e refl

word_test : (w : String) → IsWord w → (w == "") ≡ false
word_test w h = elim (Bool-cases (w == "")) [
  | inl e ↦ absurd (cons-ne-nil h.solid.head h.solid.tail (sym h.solid.same ∙ (eq_iff _ _).0 e))
  | inr e ↦ e
]

take_tokens-spaced :
    (ws : List String) (t : String)
    → All IsWord ws
    → IsSolid t
    → take_tokens (length ws) (spaced ws t) ≡ some (record { tokens = ws; rest = t })
unfolding take_tokens spaced
take_tokens-spaced [] t h s = rw (skip_whitespace-IsSolid t s) refl
take_tokens-spaced (w ∷ ws) t (h, k) s =
    let ih = take_tokens-spaced ws t k s in
    let start = skip_whitespace-IsSolid (spaced (w ∷ ws) t) (IsSolid-concat w _ h.solid) in
    let later =
      take_tokens-skip (length ws) (concat " " (spaced ws t)) (spaced ws t)
        (skip_whitespace-space (spaced ws t))
      ∙ ih in
    rw
      (
        start,
        take_word-spaced w (spaced ws t) h.no_space,
        drop_word-spaced w (spaced ws t) h.no_space,
        later,
      )
      (unfold put_token in rw (word_test w h) refl)

pub spaced-concat :
    (ws : List String) (s t : String) → concat (spaced ws s) t ≡ spaced ws (concat s t)
unfolding spaced
spaced-concat [] s t = refl
spaced-concat (w ∷ ws) s t =
    append_assoc w (concat " " (spaced ws s)) t
    ∙ ap (concat w) (append_assoc " " (spaced ws s) t ∙ ap (concat " ") (spaced-concat ws s t))

spaced-ne_nil : (ws : List String) (t : String) → t ≢ "" → spaced ws t ≢ ""
unfolding spaced
spaced-ne_nil [] t h = h
spaced-ne_nil (w ∷ ws) t h =
    append-ne-nil_of_right_ne-nil w (append-ne-nil_of_right_ne-nil " " (spaced-ne_nil ws t h))

pub trim_end-spaced :
    (ws : List String) (t : String) → t ≢ "" → trim_end t ≡ t → trim_end (spaced ws t) ≡ spaced ws t
unfolding spaced
trim_end-spaced [] t h e = e
trim_end-spaced (w ∷ ws) t h e =
    let kept = spaced-ne_nil ws t h in
    let later = trim_end-keep " " (spaced ws t) kept (trim_end-spaced ws t h e) in
    trim_end-keep w (concat " " (spaced ws t)) (append-ne-nil_of_right_ne-nil " " kept) later

begins_with-IsPlain :
    (s : String)
    → IsPlain s
    → (begins_with "@" s ≡ false)
      × (begins_with "#" s ≡ false)
      × (is_environment_assignment s ≡ false)
      × ((s == "") ≡ false)
unfolding is_plain is_digit begins_with is_environment_assignment is_name_start
begins_with-IsPlain s h =
    let c = h.head in
    let p : is_plain c ≡ true = h.plain in
    let at : (code c == b'@') ≡ false = ground arith in
    let sharp : (code c == b'#') ≡ false = ground arith in
    let unnamed : is_name_start c ≡ false = ground arith in
    let some_text : (put c h.tail == "") ≡ false =
      not_empty (put c h.tail) (cons-ne-nil c h.tail) in
    rw h.same (at, sharp, rw unnamed refl, some_text)

-- Five words with spaces behind them, before a command, are its schedule.
pub parse_cron_line-spaced :
    (w : String) (ws : List String) (command : String)
    → length (w ∷ ws) ≡ 5
    → All IsWord (w ∷ ws)
    → IsPlain w
    → IsSolid command
    → trim_end command ≡ command
    → parse_cron_line (spaced (w ∷ ws) command) false
      ≡ some (record { schedule = join " " (w ∷ ws); command = command; user = none })
unfolding parse_cron_line parse_trimmed read_schedule read_user read_command
parse_cron_line-spaced w ws command five words plain solid e =
    let text = spaced (w ∷ ws) command in
    let some_command : command ≢ "" = λ q. cons-ne-nil solid.head solid.tail (sym solid.same ∙ q) in
    let trimmed : trim text ≡ text =
      trim-whole text (unfold spaced in IsSolid-concat w _ words.0.solid)
        (trim_end-spaced (w ∷ ws) command some_command e) in
    let (at, sharp, named, filled) =
      begins_with-IsPlain text (unfold spaced in IsPlain-concat w _ plain) in
    let taken : take_tokens 5 text ≡ some (record { tokens = w ∷ ws; rest = command }) =
      ap (λ n. take_tokens n text) (sym five) ∙ take_tokens-spaced (w ∷ ws) command words solid in
    rw
      (
        trimmed,
        at,
        sharp,
        named,
        filled,
        taken,
        trim-whole command solid e,
        not_empty command some_command,
      )
      refl

concat-join :
    (w : String) (ws : List String) (t : String)
    → concat (join " " (w ∷ ws)) (concat " " t) ≡ spaced (w ∷ ws) t
unfolding join spaced
concat-join w [] t = refl
concat-join w (x ∷ ws) t =
    append_assoc w (concat " " (join " " (x ∷ ws))) (concat " " t)
    ∙ ap (concat w)
        (append_assoc " " (join " " (x ∷ ws)) (concat " " t) ∙ ap (concat " ") (concat-join x ws t))

-- The line that a schedule of five words and a command make is read as them.
pub parse_cron_line-join :
    (w : String) (ws : List String) (command : String)
    → length (w ∷ ws) ≡ 5
    → All IsWord (w ∷ ws)
    → IsPlain w
    → IsSolid command
    → trim_end command ≡ command
    → parse_cron_line (concat (join " " (w ∷ ws)) (concat " " command)) false
      ≡ some (record { schedule = join " " (w ∷ ws); command = command; user = none })
parse_cron_line-join w ws command five words p solid e =
    ap (λ t. parse_cron_line t false) (concat-join w ws command)
    ∙ parse_cron_line-spaced w ws command five words p solid e
