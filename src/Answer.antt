-- ===== src/Answer.antt =====
-- The package answer: whether a response to a math problem reached the numeric answer of a dataset.
-- This file has the errors and the rational numbers. A text is a list of bytes, and what is not
-- written out of the package unicode is the record `Unicode`.
pub mod Text
pub mod Latex
pub mod Number
pub mod Refusal
pub mod Parse
pub mod Extract
pub mod Verdict
pub mod Values
pub mod Refusals
pub mod Sound
pub mod Verdicts
pub mod References
pub mod Braces
pub mod Numerals
pub mod Grammar
pub mod Trim
pub mod Written
pub mod Hashes
pub mod RoundTrip
pub mod Marks
pub mod Bounds
pub mod Commands
pub mod Boxes
use arandu_attempt.Base.{ℕ, ◌*◌, ◌==◌, Bool, not, ◌&&◌, ◌||◌, if◌then◌else◌}

-- `unicode.IsLetter` and `unicode.IsNumber`, on code points.
pub record Unicode : Type 0 where
  pub is_letter : ℕ → Bool
  pub is_number : ℕ → Bool

-- The errors, without their texts.
pub data AnswerError : Type 0 where
  empty : AnswerError
  not_numeric : AnswerError
  ambiguous : AnswerError
  unsupported : AnswerError
  division_by_zero : AnswerError
  malformed : AnswerError
  no_answer : AnswerError

-- A `*big.Rat`: a sign and a fraction that need not be in lowest terms.
pub record Rat : Type 0 where
  pub negative : Bool
  pub num : ℕ
  pub den : ℕ

-- `==` on truth values.
abbrev pub agree : Bool → Bool → Bool
agree a b = if a then b else not b

-- `Neg`, `Sign() == 0`, `Quo` by a number that is not zero, and `Cmp(…) == 0`.
abbrev pub negate : Rat → Rat
negate r = record r { negative = not r.negative }

abbrev pub is_zero : Rat → Bool
is_zero r = r.num == 0

abbrev pub quotient : Rat → Rat → Rat
quotient a b = record {
  negative = not (agree a.negative b.negative);
  num = a.num * b.den;
  den = a.den * b.num;
}

abbrev pub same_rat : Rat → Rat → Bool
same_rat a b = a.num * b.den == b.num * a.den && (agree a.negative b.negative || is_zero a)
