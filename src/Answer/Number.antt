-- ===== src/Answer/Number.antt =====
-- answer/parse.go: digits, decimals with thousands separators, and the arguments of a fraction.
use arandu_attempt.Base.{
  ℕ, ◌+◌, ◌-◌, ◌*◌, ◌^◌, ◌==◌, ltb, Bool, false, ◌&&◌, ◌||◌, none, some, [], ◌∷◌, ◌++◌, Bytes,
  length, drop, take, if◌then◌else◌,
}
use arandu_attempt.Base.Result.{Result, ok, err, ◌>>=◌}
use arandu_attempt.Answer.{AnswerError, Rat, is_zero, quotient}
use arandu_attempt.Answer.Text.{trim_left}
use arandu_attempt.Answer.Latex.{is_digit, starts_with, take_digits, drop_digits, closing_brace}

-- `divide`, without the text that the error quotes.
unfoldable pub divide : Rat → Rat → Bytes → Result AnswerError (Rat × Bytes)
divide numerator denominator rest =
    if is_zero denominator
    then err AnswerError.division_by_zero
    else ok (quotient numerator denominator, rest)

-- `SetString(digits, 10)`.
unfoldable pub value_onto : ℕ → Bytes → ℕ
value_onto n [] = n
value_onto n (c ∷ s) = value_onto (n * 10 + (c - b'0')) s

abbrev pub is_comma : ℕ → Bool
is_comma c = c == b','

-- The loop over the groups of three digits: their digits, and what follows them.
unfoldable pub take_groups : Bytes → Result AnswerError (Bytes × Bytes)
unfolding take_digits
take_groups [] = ok ([], [])
take_groups (c ∷ x ∷ y ∷ z ∷ s) =
    let rest = take_groups s in
    if is_comma c
    then (if length (take_digits (x ∷ y ∷ z ∷ s)) == 3
        then rest >>= (λ found. ok (x ∷ y ∷ z ∷ found.0, found.1))
        else err AnswerError.ambiguous)
    else ok ([], c ∷ x ∷ y ∷ z ∷ s)
take_groups (c ∷ s) = if is_comma c then err AnswerError.ambiguous else ok ([], c ∷ s)

-- The thousands groups after the first digits.
unfoldable pub grouped : Bytes → Bytes → Result AnswerError (Bytes × Bytes)
unfolding take_groups
grouped whole after =
    if ltb 0 (length whole) && starts_with is_comma after
    then (if ltb 3 (length whole) || starts_with (λ c. c == b'0') whole
        then err AnswerError.ambiguous
        else take_groups after)
    else ok ([], after)

-- The fractional part, and what follows it.
unfoldable pub fraction_of : Bytes → Bytes × Bytes
unfolding is_digit take_digits drop_digits
fraction_of [] = ([], [])
fraction_of (c ∷ s) =
    if c == b'.' && starts_with is_digit s then (take_digits s, drop_digits s) else ([], c ∷ s)

-- What the digits denote.
unfoldable pub decimal_of : Bytes → Bytes → Bytes → Result AnswerError Rat
unfolding value_onto
decimal_of whole more fraction =
    if length whole == 0 && length fraction == 0
    then err AnswerError.not_numeric
    else ok (record {
      negative = false;
      num = value_onto 0 (whole ++ more ++ fraction);
      den = 10 ^ length fraction;
    })

-- `parseDecimal`: the number, and what follows it.
unfoldable pub parse_decimal : Bytes → Result AnswerError (Rat × Bytes)
parse_decimal s =
    let whole = take_digits s in
    grouped whole (drop_digits s) >>= (λ found.
      let (fraction, rest) = fraction_of (found.1) in
      decimal_of whole (found.0) fraction >>= (λ value. ok (value, rest)))

-- `fracArgument`: the argument, and what follows it.
unfoldable pub argument_of : Bytes → Result AnswerError (Bytes × Bytes)
unfolding closing_brace is_digit
argument_of [] = err AnswerError.not_numeric
argument_of (c ∷ s) =
    if c == b'{'
    then elim (closing_brace (c ∷ s) 0) [
      | none ↦ err AnswerError.malformed
      | some end ↦ ok (take (end - 1) s, drop end s)
    ]
    else if is_digit c
    then ok (c ∷ [], s)
    else err AnswerError.not_numeric

unfoldable pub frac_argument : Bytes → Result AnswerError (Bytes × Bytes)
unfolding argument_of
frac_argument s = argument_of (trim_left s)
