-- ===== src/Answer/Refusal.antt =====
-- answer/parse.go: why a text is not one plain number.
use arandu_attempt.Base.{
  ℕ, zero, suc, ◌-◌, ◌==◌, Bool, false, not, ◌&&◌, ◌||◌, Option, none, some, List, [], ◌∷◌, Bytes,
  codes, length, drop, has_prefix, bytes_eq, if◌then◌else◌,
}
use arandu_attempt.Base.Result.{Result, ok, err}
use arandu_attempt.Answer.{AnswerError, Unicode}
use arandu_attempt.Answer.Text.{decode, trim_right, is_one_of}
use arandu_attempt.Answer.Latex.{is_digit, is_ascii_letter, starts_with, balanced}

-- `minus`: U+2212 in UTF-8.
abbrev pub minus : Bytes
minus = 0xE2 ∷ 0x88 ∷ 0x92 ∷ []

-- `\s*` of a regular expression.
drop_blanks : Bytes → Bytes
drop_blanks [] = []
drop_blanks (c ∷ s) = if is_one_of c (9 ∷ 10 ∷ 12 ∷ 13 ∷ 32 ∷ []) then drop_blanks s else c ∷ s

-- `[+\-\x{2212}]?` and `\{?`.
drop_sign : Bytes → Bytes
drop_sign s =
    if has_prefix s (codes "+") || has_prefix s (codes "-")
    then drop 1 s
    else if has_prefix s minus
    then drop 3 s
    else s

drop_open : Bytes → Bytes
drop_open s = if has_prefix s (codes "{") then drop 1 s else s

-- `[0-9.][eE][+\-\x{2212}]?[0-9]`, at the front of a text.
exponent_here : Bytes → Bool
unfolding is_digit drop_sign
exponent_here (m ∷ e ∷ s) =
    (is_digit m || m == b'.') && (e == b'e' || e == b'E') && starts_with is_digit (drop_sign s)
exponent_here _ = false

-- `\s*\{?\s*10\s*\^`, at the front of a text.
power_here : Bytes → Bool
unfolding drop_blanks drop_open
power_here s =
    let base = drop_blanks (drop_open (drop_blanks s)) in
    has_prefix base (codes "10") && has_prefix (drop_blanks (drop 2 base)) (codes "^")

times_here : Bytes → List Bytes → Bool
unfolding power_here
times_here s [] = false
times_here s (sign ∷ signs) =
    has_prefix s sign && power_here (drop (length sign) s) || times_here s signs

abbrev pub times_signs : List Bytes
times_signs =
    codes "\\times" ∷ codes "\\cdot" ∷ (0xC3 ∷ 0x97 ∷ []) ∷ (0xC2 ∷ 0xB7 ∷ []) ∷ codes "*" ∷ []

-- `scientific.MatchString(s)`.
unfoldable pub scientific : Bytes → Bool
unfolding exponent_here times_here
scientific [] = false
scientific (c ∷ s) =
    let later = scientific s in exponent_here (c ∷ s) || times_here (c ∷ s) times_signs || later

abbrev pub allowed_commands : List Bytes
allowed_commands = codes "frac" ∷ codes "dfrac" ∷ codes "tfrac" ∷ codes "text" ∷ codes "mathrm" ∷ []

unfoldable pub is_allowed : Bytes → List Bytes → Bool
unfolding bytes_eq
is_allowed name [] = false
is_allowed name (n ∷ names) = bytes_eq name n || is_allowed name names

unfoldable pub take_letters : Bytes → Bytes
unfolding is_ascii_letter
take_letters [] = []
take_letters (c ∷ s) = if is_ascii_letter c then c ∷ take_letters s else []

-- What follows a backslash: how many bytes to pass over.
unfoldable pub after_backslash : Bytes → Result AnswerError ℕ
unfolding is_allowed take_letters decode
after_backslash s =
    let name = take_letters s in
    if length name == 0
    then ok ((decode s).1)
    else if is_allowed name allowed_commands
    then ok (length name)
    else err AnswerError.not_numeric

-- One round of the loop of `classify`: how many bytes to pass over after the first one.
unfoldable pub step_over : Unicode → Bytes → Result AnswerError ℕ
unfolding after_backslash decode is_one_of
step_over u s =
    let rune = decode s in
    if rune.0 == b'\\'
    then after_backslash (drop 1 s)
    else if is_one_of (rune.0) (codes "()[]")
    then err AnswerError.not_numeric
    else if u.is_letter (rune.0)
    then err AnswerError.not_numeric
    else if rune.0 == b'^' || rune.0 == b'_'
    then err AnswerError.not_numeric
    else ok (rune.1 - 1)

-- The loop: so many bytes are still to be passed over.
unfoldable pub contents_from : Unicode → ℕ → Bytes → Option AnswerError
unfolding step_over
contents_from u skip [] = none
contents_from u (suc skip) (c ∷ s) = contents_from u skip s
contents_from u zero (c ∷ s) = elim (step_over u (c ∷ s)) [
  | err e ↦ some e
  | ok skip ↦ contents_from u skip s
]

-- `strings.HasSuffix(…, "%")` on a text without white space at its end.
unfoldable pub ends_percent : Bytes → Bool
ends_percent [] = false
ends_percent (c ∷ []) = c == b'%'
ends_percent (c ∷ d ∷ s) = ends_percent (d ∷ s)

-- `classify`.
unfoldable pub classify : Unicode → Bytes → Option AnswerError
unfolding balanced scientific contents_from ends_percent
classify u s =
    if not (balanced s)
    then some AnswerError.malformed
    else if scientific s
    then some AnswerError.unsupported
    else elim (contents_from u 0 s) [
      | some e ↦ some e
      | none ↦ if ends_percent (trim_right s) then some AnswerError.unsupported else none
    ]

-- `strings.ContainsAny(s, "0123456789")`.
unfoldable pub has_digit : Bytes → Bool
unfolding is_digit
has_digit [] = false
has_digit (c ∷ s) = is_digit c || has_digit s

-- `refusal`.
unfoldable pub refusal : Unicode → Bytes → Bytes → Option AnswerError → AnswerError
unfolding classify has_digit
refusal u s rest failure = elim (classify u s) [
  | some e ↦ e
  | none ↦ elim failure [
    | some e ↦ e
    | none ↦ if has_digit rest then AnswerError.ambiguous else AnswerError.not_numeric
  ]
]
