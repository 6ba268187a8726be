-- ===== src/Answer/Verdict.antt =====
-- answer/answer.go and answer/reference.go: the verdict on a response, and the reference that a
-- dataset's solution gives.
use arandu_attempt.Base.{
  Bool, true, false, not, Option, none, some, List, [], ◌∷◌, Bytes, drop, if◌then◌else◌,
}
use arandu_attempt.Base.Result.{Result, ok, err}
use arandu_attempt.Answer.{AnswerError, Rat, Unicode, same_rat}
use arandu_attempt.Answer.Latex.{box_commands, last_command}
use arandu_attempt.Answer.Parse.{parse}
use arandu_attempt.Answer.Extract.{Source, Extraction, extract, hash_answer, boxed_argument}

-- What the text of `Reason` says.
pub data Reason : Type 0 where
  reference_error : AnswerError → Reason
  response_error : AnswerError → Reason
  differs : Rat → Rat → Reason

-- `Result`: the verdict on one response; no reason is the empty string.
pub record Verdict : Type 0 where
  pub correct : Bool
  pub extracted : Bytes
  pub source : Option Source
  pub reason : Option Reason

abbrev pub incorrect : Extraction → Reason → Verdict
incorrect found why = record {
  correct = false;
  extracted = found.raw;
  source = found.source;
  reason = some why;
}

-- The end of `Verify`: the answer and the reference, both read.
unfoldable pub decided : Extraction → Rat → Rat → Verdict
decided found got want =
    if not (same_rat got want)
    then incorrect found (Reason.differs got want)
    else record { correct = true; extracted = found.raw; source = found.source; reason = none }

-- `Verify`, the response's answer being extracted and the reference read.
unfoldable pub verdict_of :
    Unicode → Extraction × Option AnswerError → Result AnswerError Rat → Verdict
unfolding decided
verdict_of u (found, failure) (err e) = incorrect found (Reason.reference_error e)
verdict_of u (found, some e) (ok want) = incorrect found (Reason.response_error e)
verdict_of u (found, none) (ok want) = elim (parse u found.raw) [
  | err e ↦ incorrect found (Reason.response_error e)
  | ok got ↦ decided found got want
]

-- `Verify`.
unfoldable pub verify : Unicode → Bytes → Bytes → Verdict
unfolding verdict_of
verify u response reference = verdict_of u (extract u response) (parse u reference)

-- `Reference`.
pub record Reference : Type 0 where
  pub raw : Bytes
  pub value : Rat

-- `errors.Is(err, ErrNotNumeric)`.
abbrev pub is_not_numeric : AnswerError → Bool
is_not_numeric AnswerError.not_numeric = true
is_not_numeric _ = false

-- `numericReference`; an error is the list of the errors that it wraps.
unfoldable pub numeric_reference : Unicode → Bytes → Result (List AnswerError) Reference
numeric_reference u raw = elim (parse u raw) [
  | ok value ↦ ok (record { raw = raw; value = value })
  | err e ↦ err (if is_not_numeric e then e ∷ [] else AnswerError.not_numeric ∷ e ∷ [])
]

-- `ParseGSM8KReference`.
unfoldable pub parse_gsm8k_reference : Unicode → Bytes → Result (List AnswerError) Reference
unfolding numeric_reference
parse_gsm8k_reference u solution = elim (hash_answer solution) [
  | none ↦ err (AnswerError.no_answer ∷ [])
  | some raw ↦ numeric_reference u raw
]

-- `ParseMATHReference`.
unfoldable pub parse_math_reference : Unicode → Bytes → Result (List AnswerError) Reference
unfolding numeric_reference
parse_math_reference u solution = elim (last_command solution box_commands) [
  | none ↦ err (AnswerError.no_answer ∷ [])
  | some (start, end) ↦ elim (boxed_argument (drop end solution)) [
    | err e ↦ err (e ∷ [])
    | ok raw ↦ numeric_reference u raw
  ]
]
