-- ===== src/Answer/Extract.antt =====
-- answer/extract.go: where a text has its final answer.
use arandu_attempt.Base.{
  ℕ, zero, suc, ◌+◌, ◌-◌, ◌==◌, ltb, Bool, true, false, not, ◌&&◌, ◌||◌, Option, none, some, [],
  ◌∷◌, Bytes, codes, length, drop, take, has_prefix, if◌then◌else◌,
}
use arandu_attempt.Base.Result.{Result, ok, err, ◌>>=◌}
use arandu_attempt.Answer.{AnswerError, Unicode}
use arandu_attempt.Answer.Text.{
  decode, decode_last, trim_left, trim_space, byte_at, last_index, is_one_of,
}
use arandu_attempt.Answer.Latex.{
  is_digit, is_ascii_letter, starts_with, frac_command, box_commands, last_command, closing_brace,
}
use arandu_attempt.Answer.Number.{frac_argument}

-- The extraction rules.
pub data Source : Type 0 where
  source_hash : Source
  source_boxed : Source
  source_last_number : Source

-- `Extraction`; no source is the empty string.
pub record Extraction : Type 0 where
  pub raw : Bytes
  pub source : Option Source

-- The text up to the end of its line.
unfoldable pub first_line : Bytes → Bytes
first_line [] = []
first_line (c ∷ s) = if c == 13 || c == 10 then [] else c ∷ first_line s

-- `hashAnswer`.
unfoldable pub hash_answer : Bytes → Option Bytes
hash_answer text = elim (last_index text (codes "####")) [
  | none ↦ none
  | some at ↦ some (trim_space (first_line (drop (at + 4) text)))
]

-- `boxedArgument`, on the text that follows the name of the command.
unfoldable pub boxed_argument : Bytes → Result AnswerError Bytes
boxed_argument rest =
    let open_at = length rest - length (trim_left rest) in
    if open_at == length rest || not (byte_at rest open_at == b'{')
    then err AnswerError.malformed
    else elim (closing_brace rest open_at) [
      | none ↦ err AnswerError.malformed
      | some closing ↦ ok (trim_space (take (closing - (open_at + 1)) (drop (open_at + 1) rest)))
    ]

-- `fracEnd`, on the text that follows the name: how many bytes the two arguments take.
unfoldable pub frac_end : Bytes → Option ℕ
frac_end s = elim (frac_argument s >>= (λ (top, between). frac_argument between)) [
  | err e ↦ none
  | ok (bottom, rest) ↦ some (length s - length rest)
]

-- The inner loop of `lastNumber`: how many more bytes belong to a number.
unfoldable pub number_run : Bytes → ℕ
number_run [] = 0
number_run (c ∷ s) =
    if is_digit c
    then 1 + number_run s
    else if is_one_of c (codes ".,/") && starts_with is_digit s
    then 1 + number_run s
    else 0

-- What stands at the front of a text: whether it is a number, and how many bytes to move on.
unfoldable pub number_here : Bytes → Bool × ℕ
number_here [] = (false, 1)
number_here (c ∷ s) = elim (frac_command (c ∷ s)) [
  | some n ↦ elim (frac_end (drop n (c ∷ s))) [ some more ↦ (true, n + more) | none ↦ (false, n) ]
  | none ↦
      if is_digit c || c == b'.' && starts_with is_digit s
      then (true, 1 + number_run s)
      else (false, 1)
]

-- The loop of `lastNumber`: the bytes to pass over, the index, and the last number so far.
unfoldable pub scan : ℕ → ℕ → Option (ℕ × ℕ) → Bytes → Option (ℕ × ℕ)
scan skip i best [] = best
scan (suc skip) i best (c ∷ s) = scan skip (i + 1) best s
scan zero i best (c ∷ s) =
    let found = number_here (c ∷ s) in
    scan (found.1 - 1) (i + 1) (if found.0 then some (i, i + found.1) else best) s

-- `unicode.IsLetter(r) || unicode.IsNumber(r) || strings.ContainsRune(others, r)`.
abbrev pub is_glue : Unicode → Bytes → ℕ → Bool
is_glue u others r = u.is_letter r || u.is_number r || is_one_of r others

-- `withSign`.
unfoldable pub with_sign : Unicode → Bytes → ℕ → ℕ
with_sign u text start =
    let (r, width) = decode_last (take start text) in
    let before = decode_last (take (start - width) text) in
    if not (r == b'-') && not (r == b'+') && not (r == 0x2212)
    then start
    else if ltb 0 (start - width) && is_glue u (codes ")]}") (before.0)
    then start
    else start - width

-- `withPercent`.
unfoldable pub with_percent : Bytes → ℕ → ℕ
with_percent text end =
    if has_prefix (drop end text) (codes "%")
    then end + 1
    else if has_prefix (drop end text) (codes "\\%")
    then end + 2
    else end

-- The two halves of `embedded`.
glued_before : Unicode → Bytes → ℕ → Bool
unfolding decode_last is_one_of
glued_before u text start =
    ltb 0 start
    && (is_glue u (codes "^_{}\\,!/") ((decode_last (take start text)).0)
        || (ltb 1 start
            && byte_at text (start - 2) == b'\\'
            && is_one_of (byte_at text (start - 1)) (codes ";: >")))

glued_after : Unicode → Bytes → ℕ → Bool
unfolding decode is_one_of is_ascii_letter
glued_after u text end =
    let after = (decode (drop end text)).0 in
    ltb end (length text)
    && (is_glue u (codes "^_}/") after
        || (after == b'\\' && starts_with is_ascii_letter (drop (end + 1) text)))

-- `embedded`.
unfoldable pub embedded : Unicode → Bytes → ℕ → ℕ → Bool
unfolding glued_before glued_after
embedded u text start end = glued_before u text start || glued_after u text end

-- The number between two indices, with its sign and its percent mark.
unfoldable pub number_between : Unicode → Bytes → ℕ → ℕ → Extraction × Option AnswerError
unfolding embedded
number_between u text start end = (
  record { raw = take (end - start) (drop start text); source = some Source.source_last_number },
  if embedded u text start end then some AnswerError.ambiguous else none,
)

-- `lastNumber`.
unfoldable pub last_number : Unicode → Bytes → Extraction × Option AnswerError
last_number u text = elim (scan 0 0 none text) [
  | none ↦ (record { raw = []; source = none }, some AnswerError.no_answer)
  | some (start, end) ↦ number_between u text (with_sign u text start) (with_percent text end)
]

-- The second rule: what `boxedArgument` gives, as an extraction.
unfoldable pub boxed : Result AnswerError Bytes → Extraction × Option AnswerError
boxed (ok raw) = (record { raw = raw; source = some Source.source_boxed }, none)
boxed (err e) = (record { raw = []; source = some Source.source_boxed }, some e)

-- `Extract`.
unfoldable pub extract : Unicode → Bytes → Extraction × Option AnswerError
unfolding boxed
extract u text = elim (hash_answer text) [
  | some raw ↦ (record { raw = raw; source = some Source.source_hash }, none)
  | none ↦ elim (last_command text box_commands) [
    | some (start, end) ↦ boxed (boxed_argument (drop end text))
    | none ↦ last_number u text
  ]
]
