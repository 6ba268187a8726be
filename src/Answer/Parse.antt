-- ===== src/Answer/Parse.antt =====
-- answer/parse.go: wrappers, signs and currency marks, fractions, and Parse.
use arandu_attempt.Base.{
  ℕ, zero, suc, ◌+◌, ◌-◌, ◌==◌, ltb, Bool, true, false, not, ◌&&◌, Option, none, some, List, [],
  ◌∷◌, Bytes, codes, length, drop, take, has_prefix, if◌then◌else◌,
}
use arandu_attempt.Base.Result.{Result, ok, err, ◌>>=◌}
use arandu_attempt.Answer.{AnswerError, Rat, Unicode, negate}
use arandu_attempt.Answer.Text.{trim_left, trim_right, trim_space, byte_at}
use arandu_attempt.Answer.Latex.{command, frac_command, closing_brace}
use arandu_attempt.Answer.Number.{divide, parse_decimal, frac_argument}
use arandu_attempt.Answer.Refusal.{minus, refusal}

-- `dropTrailingPeriod`.
unfoldable pub drop_trailing_period : Bytes → Bytes
drop_trailing_period s =
    if ltb 1 (length s) && byte_at s (length s - 1) == b'.'
    then trim_right (take (length s - 1) s)
    else s

-- The braced group that spans what follows the name of a command.
unfoldable pub spanning_group : Bytes → Option Bytes
unfolding trim_left closing_brace
spanning_group rest =
    let open_at = length rest - length (trim_left rest) in
    if ltb open_at (length rest) && byte_at rest open_at == b'{'
    then elim (closing_brace rest open_at) [
      | none ↦ none
      | some end ↦
          if end == length rest - 1
          then some (take (end - (open_at + 1)) (drop (open_at + 1) rest))
          else none
    ]
    else none

unfoldable pub unwrap_command : Bytes → List Bytes → Option Bytes
unfolding command spanning_group
unwrap_command s [] = none
unwrap_command s (name ∷ names) = elim (command s name) [
  | none ↦ unwrap_command s names
  | some n ↦ elim (spanning_group (drop n s)) [
    | some inner ↦ some inner
    | none ↦ unwrap_command s names
  ]
]

abbrev pub wrappers : List Bytes
wrappers = codes "\\text" ∷ codes "\\mathrm" ∷ []

-- `unwrap`.
unfoldable pub unwrap : Bytes → Option Bytes
unfolding unwrap_command
unwrap s =
    if ltb 1 (length s)
      && byte_at s 0 == b'$'
      && byte_at s (length s - 1) == b'$'
      && not (byte_at s (length s - 2) == b'\\')
    then some (take (length s - 2) (drop 1 s))
    else unwrap_command s wrappers

-- `leadingSign`: whether it negates, and its width.
unfoldable pub leading_sign : Bytes → Bool × ℕ
leading_sign s =
    if has_prefix s (codes "-")
    then (true, 1)
    else if has_prefix s (codes "+")
    then (false, 1)
    else if has_prefix s minus
    then (true, length minus)
    else (false, 0)

-- What stands in front of a number: a sign, a currency mark of so many bytes, or nothing.
pub data Mark : Type 0 where
  sign : Bool → ℕ → Mark
  currency : ℕ → Mark
  no_mark : Mark

unfoldable pub leading_mark : Bytes → Mark
leading_mark s =
    let (negative, width) = leading_sign s in
    if ltb 0 width
    then Mark.sign negative width
    else if has_prefix s (codes "\\$")
    then Mark.currency 2
    else if has_prefix s (codes "$")
    then Mark.currency 1
    else Mark.no_mark

-- The variables of the loop of `prefix`.
pub record Marks : Type 0 where
  pub negative : Bool
  pub signs : ℕ
  pub currencies : ℕ
  pub body : Bytes

unfoldable pub take_marks : ℕ → Marks → Marks
take_marks zero m = m
take_marks (suc fuel) m = elim (leading_mark m.body) [
  | sign negative width ↦
      take_marks fuel (record m {
        negative = negative;
        signs = m.signs + 1;
        body = trim_left (drop width m.body);
      })
  | currency width ↦
      take_marks fuel
        (record m { currencies = m.currencies + 1; body = trim_left (drop width m.body) })
  | no_mark ↦ m
]

-- `prefix`: whether the number is negated, and what follows the marks. A round takes a byte or
-- more.
unfoldable pub prefix : Bytes → Result AnswerError (Bool × Bytes)
prefix s =
    let m =
      take_marks (length s + 1)
        (record { negative = false; signs = 0; currencies = 0; body = s }) in
    if ltb 1 m.signs
    then err AnswerError.not_numeric
    else if ltb 1 m.currencies
    then err AnswerError.not_numeric
    else ok (m.negative, m.body)

-- A number is read to the end of its text, or the text is refused: the end of `parseLayer` and of
-- `parseArgument`.
unfoldable pub whole_number :
    Unicode → Bytes → Bool → Result AnswerError (Rat × Bytes) → Result AnswerError Rat
whole_number u s negative (err e) = err (refusal u s [] (some e))
whole_number u s negative (ok (value, rest)) =
    if length (trim_space rest) == 0
    then ok (if negative then negate value else value)
    else err (refusal u s rest none)

-- `parseArgument`.
unfoldable pub parse_argument : Unicode → Bytes → Result AnswerError Rat
parse_argument u arg =
    let s = trim_space arg in
    let (negative, width) = leading_sign s in
    if length s == 0
    then err AnswerError.not_numeric
    else whole_number u s negative (parse_decimal (trim_left (drop width s)))

-- `parseFrac`.
unfoldable pub parse_frac : Unicode → Bytes → ℕ → Result AnswerError (Rat × Bytes)
parse_frac u s n = frac_argument (drop n s) >>= (λ (top, between).
    frac_argument between >>= (λ (bottom, rest). parse_argument u top >>= (λ numerator.
      parse_argument u bottom >>= (λ denominator. divide numerator denominator rest))))

-- `parseBody`.
unfoldable pub parse_body : Unicode → Bytes → Result AnswerError (Rat × Bytes)
parse_body u s = elim (frac_command s) [
  | some n ↦ parse_frac u s n
  | none ↦ parse_decimal s >>= (λ (numerator, rest).
      let after = trim_left rest in
      if has_prefix after (codes "/")
      then parse_decimal (trim_left (drop 1 after))
        >>= (λ (denominator, rest'). divide numerator denominator rest')
      else ok (numerator, rest))
]

-- The part of `parseLayer` that follows the wrappers.
unfoldable pub parse_inner : Unicode → Bytes → Result AnswerError Rat
parse_inner u s = prefix s >>= (λ (negative, body). whole_number u s negative (parse_body u body))

-- `parseLayer`, with `maxLayers - depth` layers left.
unfoldable pub parse_layer : Unicode → ℕ → Bytes → Result AnswerError Rat
parse_layer u zero raw =
    let s = trim_space raw in
    if length s == 0 then err AnswerError.empty else elim (unwrap (drop_trailing_period s)) [
      | some inner ↦ err AnswerError.not_numeric
      | none ↦ parse_inner u (drop_trailing_period s)
    ]
parse_layer u (suc layers) raw =
    let s = trim_space raw in
    if length s == 0 then err AnswerError.empty else elim (unwrap (drop_trailing_period s)) [
      | some inner ↦ parse_layer u layers inner
      | none ↦ parse_inner u (drop_trailing_period s)
    ]

abbrev pub max_layers : ℕ
max_layers = 8

-- `Parse`.
unfoldable pub parse : Unicode → Bytes → Result AnswerError Rat
unfolding parse_layer
parse u raw = parse_layer u max_layers raw
