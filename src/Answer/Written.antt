-- ===== src/Answer/Written.antt =====
-- Lemmas on Parse at a text without white space, signs, wrappers or commands.
use arandu_attempt.Base.{
  ℕ, zero, suc, ◌+◌, ◌-◌, ◌==◌, ltb, ◌≡◌, refl, ◌∙◌, Bool, true, false, ◌&&◌, ◌||◌, none, List, [],
  ◌∷◌, Bytes, codes, length, has_prefix, All, arith,
}
use arandu_attempt.Base.Result.{ok}
use arandu_attempt.Answer.{Rat, Unicode}
use arandu_attempt.Answer.Text.{trim_left, trim_right, trim_space}
use arandu_attempt.Answer.Latex.{is_digit, command, first_command, frac_command}
use arandu_attempt.Answer.Number.{parse_decimal}
use arandu_attempt.Answer.Parse.{
  drop_trailing_period, unwrap, unwrap_command, leading_sign, leading_mark, Marks, take_marks,
  prefix, whole_number, parse_body, parse_inner, parse_layer, parse, Mark,
}
use arandu_attempt.Answer.Numerals.{IsDigit}
use arandu_attempt.Answer.Trim.{IsGraphic, Last, Last-byte_at, trim_space-IsGraphic}

-- The bytes that a numeral may start with.
abbrev pub is_start : ℕ → Bool
is_start c = is_digit c || c == b'.'

-- No sign, currency mark, command or fraction starts with such a byte.
leading_mark-start : (c : ℕ) (s : Bytes) → is_start c ≡ true → leading_mark (c ∷ s) ≡ Mark.no_mark
unfolding leading_mark leading_sign has_prefix is_digit
leading_mark-start c s h = ground (arith, h)

command-plain :
    (c : ℕ) (s name : Bytes) → (c == b'\\') ≡ false → command (c ∷ s) (b'\\' ∷ name) ≡ none
unfolding command has_prefix
command-plain c s name h = rw h refl

first_command-skip :
    (s name : Bytes) (names : List Bytes)
    → command s name ≡ none
    → first_command s (name ∷ names) ≡ first_command s names
unfolding first_command
first_command-skip s name names h = rw (h, first_command) refl

unwrap_command-skip :
    (s name : Bytes) (names : List Bytes)
    → command s name ≡ none
    → unwrap_command s (name ∷ names) ≡ unwrap_command s names
unfolding unwrap_command
unwrap_command-skip s name names h = rw (h, unwrap_command) refl

frac_command-plain : (c : ℕ) (s : Bytes) → (c == b'\\') ≡ false → frac_command (c ∷ s) ≡ none
unfolding frac_command first_command
frac_command-plain c s h =
    first_command-skip (c ∷ s) _ (codes "\\dfrac" ∷ codes "\\tfrac" ∷ [])
      (command-plain c s (codes "frac") h)
    ∙ first_command-skip (c ∷ s) _ (codes "\\tfrac" ∷ []) (command-plain c s (codes "dfrac") h)
    ∙ first_command-skip (c ∷ s) _ [] (command-plain c s (codes "tfrac") h)

and_false : (b : Bool) → b && false ≡ false
and_false b = ground arith

-- A byte that no wrapper starts with.
unwrap-plain :
    (c : ℕ) (s : Bytes) → (c == b'$') ≡ false → (c == b'\\') ≡ false → unwrap (c ∷ s) ≡ none
unfolding unwrap unwrap_command
unwrap-plain c s h k =
    rw (h, and_false (ltb 1 (length (c ∷ s))))
      (unwrap_command-skip (c ∷ s) _ (codes "\\mathrm" ∷ []) (command-plain c s (codes "text") k)
        ∙ unwrap_command-skip (c ∷ s) _ [] (command-plain c s (codes "mathrm") k))

is_start-plain :
    (c : ℕ) → is_start c ≡ true → ((c == b'$') ≡ false) × ((c == b'\\') ≡ false) × IsGraphic c
unfolding is_digit
is_start-plain c h = ground (arith, h)

IsDigit-IsGraphic : (c : ℕ) → IsDigit c → IsGraphic c
unfolding is_digit
IsDigit-IsGraphic c h = ground (arith, h)

IsDigit-point : (c : ℕ) → IsDigit c → (c == b'.') ≡ false
unfolding is_digit
IsDigit-point c h = ground (arith, h)

drop_trailing_period-digit :
    (c : ℕ) (s : Bytes) → Last IsDigit (c ∷ s) → drop_trailing_period (c ∷ s) ≡ c ∷ s
unfolding drop_trailing_period
drop_trailing_period-digit c s h =
    let n : suc (length s) - 1 ≡ length s = omega arith in
    let no_period = IsDigit-point _ (Last-byte_at IsDigit c s h) in
    rw (n, no_period, and_false (ltb 1 (length (c ∷ s)))) refl

Last-map : (P Q : ℕ → Type 0) → ((c : ℕ) → P c → Q c) → (s : Bytes) → Last P s → Last Q s
Last-map P Q f [] h = tt
Last-map P Q f (c ∷ []) h = f c h
Last-map P Q f (c ∷ d ∷ s) h = Last-map P Q f (d ∷ s) h

pub All-Last : (s : Bytes) → All IsDigit s → Last IsDigit s
All-Last [] h = tt
All-Last (c ∷ []) (h, _) = h
All-Last (c ∷ d ∷ s) (_, h) = All-Last (d ∷ s) h

-- A text that Parse takes for a bare number: it starts as a numeral does and ends with a digit.
abbrev pub IsBare : Bytes → Type 0
IsBare [] = (true ≡ false)
IsBare (c ∷ s) = (is_start c ≡ true) × Last IsDigit (c ∷ s)

abbrev no_marks : Bytes → Marks
no_marks s = record { negative = false; signs = 0; currencies = 0; body = s }

take_marks-none :
    (fuel : ℕ) (m : Marks) → leading_mark m.body ≡ Mark.no_mark → take_marks fuel m ≡ m
unfolding take_marks
take_marks-none zero m h = refl
take_marks-none (suc fuel) m h = rw (h, take_marks) refl

prefix-bare : (s : Bytes) → IsBare s → prefix s ≡ ok (false, s)
unfolding prefix
prefix-bare [] h = absurd (cc h)
prefix-bare (c ∷ s) (h, _) =
    rw (take_marks-none (length (c ∷ s) + 1) (no_marks (c ∷ s)) (leading_mark-start c s h)) refl

pub trim_space-bare : (s : Bytes) → IsBare s → trim_space s ≡ s
trim_space-bare [] h = absurd (cc h)
trim_space-bare (c ∷ s) (h, k) =
    trim_space-IsGraphic c s ((is_start-plain c h).2)
      (Last-map IsDigit IsGraphic IsDigit-IsGraphic (c ∷ s) k)

parse_body-bare :
    (u : Unicode) (s : Bytes) (v : Rat)
    → IsBare s
    → parse_decimal s ≡ ok (v, [])
    → parse_body u s ≡ ok (v, [])
unfolding parse_body trim_left has_prefix
parse_body-bare u [] v h e = absurd (cc h)
parse_body-bare u (c ∷ s) v (h, _) e =
    rw (frac_command-plain c s ((is_start-plain c h).1), e, parse_body) refl

parse_inner-bare :
    (u : Unicode) (s : Bytes) (v : Rat)
    → IsBare s
    → parse_decimal s ≡ ok (v, [])
    → parse_inner u s ≡ ok v
unfolding parse_inner whole_number trim_space trim_left trim_right
parse_inner-bare u s v h e = rw (prefix-bare s h, parse_body-bare u s v h e) refl

-- A text with no white space at its ends, no period at its end and no wrapper.
parse-inner :
    (u : Unicode) (c : ℕ) (s : Bytes)
    → trim_space (c ∷ s) ≡ c ∷ s
    → drop_trailing_period (c ∷ s) ≡ c ∷ s
    → unwrap (c ∷ s) ≡ none
    → parse u (c ∷ s) ≡ parse_inner u (c ∷ s)
unfolding parse parse_layer
parse-inner u c s h k w =
    let some_byte : (length (c ∷ s) == 0) ≡ false = ground arith in
    rw (h, some_byte, k, w) (rw (h, k) refl)

pub parse-bare :
    (u : Unicode) (s : Bytes) (v : Rat) → IsBare s → parse_decimal s ≡ ok (v, []) → parse u s ≡ ok v
parse-bare u [] v h e = absurd (cc h)
parse-bare u (c ∷ s) v (h, k) e =
    let (no_dollar, no_command, _) = is_start-plain c h in
    parse-inner u c s (trim_space-bare (c ∷ s) (h, k)) (drop_trailing_period-digit c s k)
      (unwrap-plain c s no_dollar no_command)
    ∙ parse_inner-bare u (c ∷ s) v (h, k) e
