-- ===== src/Tests/Answers.antt =====
-- The theorems on the package answer at concrete inputs.
use arandu_attempt.Base.{
  ◌+◌, ◌≡◌, ◌≢◌, refl, ◌↔◌, inl, true, false, some, none, List, [], ◌∷◌, ◌++◌, Bytes, codes, length,
  has_prefix, bytes_eq, arith,
}
use arandu_attempt.Base.Result.{ok, err}
use arandu_attempt.Answer.{AnswerError, Rat, Unicode, same_rat}
use arandu_attempt.Answer.Text.{
  last_index, decode, decode_last, rune_back, rune_ending, trim_space, trim_left, trim_right,
  last_index_from, trim_from, trim_back, is_space, is_one_of,
}
use arandu_attempt.Answer.Latex.{
  is_ascii_letter, is_digit, closing_brace, last_command, box_commands, balanced, balanced_from,
  close_from, depth_after, take_digits, drop_digits, command, first_command, frac_command,
}
use arandu_attempt.Answer.Number.{
  parse_decimal, take_groups, grouped, fraction_of, decimal_of, divide, value_onto, argument_of,
  frac_argument,
}
use arandu_attempt.Answer.Refusal.{
  after_backslash, classify, contents_from, ends_percent, has_digit, is_allowed, refusal,
  scientific, step_over, take_letters,
}
use arandu_attempt.Answer.Parse.{
  parse, parse_layer, unwrap, unwrap_command, spanning_group, drop_trailing_period, parse_inner,
  prefix, take_marks, leading_mark, leading_sign, whole_number, parse_body, parse_argument,
  parse_frac,
}
use arandu_attempt.Answer.Extract.{hash_answer, first_line}
use arandu_attempt.Answer.Verdict.{
  verify, Reference, is_not_numeric, numeric_reference, parse_gsm8k_reference, parse_math_reference,
}
use arandu_attempt.Answer.Numerals.{Numeral, IsNumeral, write_numeral, denote}
use arandu_attempt.Answer.Grammar.{Read, parse_decimal-Read}
use arandu_attempt.Answer.RoundTrip.{answer_line, verify-write}
use arandu_attempt.Answer.Braces.{ends_escaped, closing_brace_iff}
use arandu_attempt.Answer.Boxes.{IsLastBox, last_command-IsLastBox}
use arandu_attempt.Answer.Sound.{IsSound, parse-IsSound}
use arandu_attempt.Answer.Verdicts.{IsCorrect, verify_iff}
use arandu_attempt.Answer.References.{wraps, is_no_answer, reference_verify, reference_error}

-- The letters and the digits of ASCII.
abbrev ascii : Unicode
unfolding is_ascii_letter is_digit
ascii = record { is_letter = is_ascii_letter; is_number = is_digit }

verify_iff_example :
    ((verify ascii (codes "so\n#### $1,000.") (codes "1000.0")).correct ≡ true)
    ↔ IsCorrect ascii (codes "so\n#### $1,000.") (codes "1000.0")
verify_iff_example = verify_iff ascii (codes "so\n#### $1,000.") (codes "1000.0")

abbrev grouped_numeral : Numeral
grouped_numeral = record {
  whole = codes "1";
  groups = (b'2', b'3', b'4') ∷ [];
  fraction = codes "5";
}

abbrev plain_numeral : Numeral
plain_numeral = record { whole = codes "1234"; groups = []; fraction = codes "50" }

grouped_numeral-IsNumeral : IsNumeral grouped_numeral
unfolding is_digit
grouped_numeral-IsNumeral = (
  (refl, tt),
  ((refl, refl, refl), tt),
  (refl, tt),
  (omega arith, omega arith, refl),
  omega arith,
)

plain_numeral-IsNumeral : IsNumeral plain_numeral
unfolding is_digit
plain_numeral-IsNumeral =
    ((refl, (refl, (refl, (refl, tt)))), tt, (refl, (refl, tt)), tt, omega arith)

verify-write_example :
    (verify ascii
      (answer_line (codes "#### 7\n") grouped_numeral (codes "\nok"))
      (write_numeral plain_numeral)).correct
    ≡ same_rat (denote grouped_numeral) (denote plain_numeral)
verify-write_example =
    verify-write ascii (codes "#### 7\n") grouped_numeral (codes "\nok") plain_numeral
      grouped_numeral-IsNumeral plain_numeral-IsNumeral (refl, (refl, (refl, tt))) refl

abbrev twelve_and_a_half : Rat
twelve_and_a_half = record { negative = false; num = 125; den = 10 }

read_half : parse_decimal (codes "12.5 km") ≡ ok (twelve_and_a_half, codes " km")
unfolding parse_decimal grouped drop_digits decimal_of fraction_of
read_half = refl

parse_decimal-Read_example : Read (codes "12.5 km") (twelve_and_a_half, codes " km")
parse_decimal-Read_example =
    parse_decimal-Read (codes "12.5 km") twelve_and_a_half (codes " km") read_half

parse-IsSound_example : IsSound (parse ascii (codes "-\\frac{1}{2}"))
parse-IsSound_example = parse-IsSound ascii (codes "-\\frac{1}{2}")

abbrev thousand : Reference
thousand = record { raw = codes "1,000"; value = record { negative = false; num = 1000; den = 1 } }

read_thousand : parse_gsm8k_reference ascii (codes "so\n#### 1,000") ≡ ok thousand
unfolding parse_gsm8k_reference hash_answer last_index last_index_from has_prefix parse parse_layer
    trim_space trim_right trim_left trim_from trim_back decode decode_last rune_back is_space
    first_line unwrap unwrap_command drop_trailing_period parse_inner prefix take_marks leading_mark
    leading_sign whole_number parse_body first_command frac_command command is_digit take_digits
    drop_digits decimal_of fraction_of grouped take_groups parse_decimal value_onto
    numeric_reference
read_thousand = refl

reference_verify_example :
    (parse ascii (codes "1,000") ≡ ok (thousand.value))
    × ((verify ascii (codes "so\n#### 1,000") (codes "1,000")).correct ≡ true)
reference_verify_example =
    reference_verify ascii (codes "so\n#### 1,000") thousand (inl read_thousand)

reference_error_example :
    ((es : List AnswerError)
      → parse_gsm8k_reference ascii (codes "x = 2") ≡ err es
      → ((wraps is_no_answer es ≡ true) ↔ (hash_answer (codes "x = 2") ≡ none))
        × ((wraps is_not_numeric es ≡ true) ↔ (hash_answer (codes "x = 2") ≢ none)))
    × ((es : List AnswerError)
        → parse_math_reference ascii (codes "x = 2") ≡ err es
        → (wraps is_no_answer es ≡ true) ↔ (last_command (codes "x = 2") box_commands ≡ none))
reference_error_example = reference_error ascii (codes "x = 2")

closing_brace_iff_example : (closing_brace (codes "\\text{a\\}b}.") 5 ≡ some 10) ↔ (
    (inner : Bytes) × (post : Bytes) × (codes "a\\}b}." ≡ inner ++ b'}' ∷ post)
    × (10 ≡ 5 + 1 + length inner)
    × (balanced inner ≡ true)
    × (ends_escaped false inner ≡ false))
closing_brace_iff_example = closing_brace_iff (codes "\\text") (codes "a\\}b}.") 10

last_command-IsLastBox_example :
    IsLastBox
      (codes "\\boxed{1} \\fbox{2} \\boxedx")
      (last_command (codes "\\boxed{1} \\fbox{2} \\boxedx") box_commands)
last_command-IsLastBox_example = last_command-IsLastBox (codes "\\boxed{1} \\fbox{2} \\boxedx")

-- Parse at some texts that it accepts and some that it refuses.
parsed :
    (parse ascii (codes "$\\dfrac{-1}{2}$.") ≡ ok (record { negative = true; num = 1; den = 2 }))
    × (parse ascii (codes "3/4") ≡ ok (record { negative = false; num = 3; den = 4 }))
    × (parse ascii (codes "1,00") ≡ err AnswerError.ambiguous)
    × (parse ascii (codes "2\\sqrt{2}") ≡ err AnswerError.not_numeric)
    × (parse ascii (codes "5\\%") ≡ err AnswerError.unsupported)
    × (parse ascii (codes "1/0") ≡ err AnswerError.division_by_zero)
    × (parse ascii (codes "{1") ≡ err AnswerError.malformed)
unfolding ascii parse_gsm8k_reference hash_answer last_index has_prefix parse trim_space trim_right
    trim_left first_line unwrap drop_trailing_period parse_inner prefix take_marks leading_mark
    leading_sign whole_number parse_body balanced balanced_from close_from closing_brace command
    depth_after drop_digits first_command frac_command is_ascii_letter is_digit take_digits
    argument_of decimal_of divide frac_argument fraction_of grouped parse_decimal take_groups
    value_onto parse_argument parse_frac parse_layer spanning_group unwrap_command after_backslash
    classify contents_from ends_percent has_digit is_allowed refusal scientific step_over
    take_letters decode decode_last is_one_of is_space last_index_from rune_back rune_ending
    trim_back trim_from numeric_reference bytes_eq
parsed = (refl, refl, refl, refl, refl, refl, refl)
