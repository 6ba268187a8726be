-- ===== src/Answer/References.antt =====
-- Lemmas on the references of datasets: their errors, and Verify on the solution they come from.
use arandu_attempt.Base.{
  ℕ, ◌≡◌, ◌≢◌, refl, sym, subst, ◌∙◌, ◌↔◌, ◌⊎◌, inl, inr, Bool, true, false, not, ◌||◌,
  if◌then◌else◌, if-intro, Option, some, none, Option-cases, List, [], ◌∷◌, Bytes, drop, length,
  ◌-◌, ◌==◌,
}
use arandu_attempt.Base.Result.{ok, err, Result-cases, Outcome}
use arandu_attempt.Answer.{Unicode, AnswerError}
use arandu_attempt.Answer.Text.{trim_left, byte_at}
use arandu_attempt.Answer.Latex.{box_commands, last_command, closing_brace}
use arandu_attempt.Answer.Parse.{parse}
use arandu_attempt.Answer.Extract.{Source, extract, hash_answer, boxed_argument}
use arandu_attempt.Answer.Verdict.{
  verify, Reference, is_not_numeric, numeric_reference, parse_gsm8k_reference, parse_math_reference,
}
use arandu_attempt.Answer.Refusals.{is_parse_error, IsParseError, Anything}
use arandu_attempt.Answer.Sound.{parse-IsSound}
use arandu_attempt.Answer.Verdicts.{self_correct, extract_hash, extract_boxed}

-- A reference has the text that was read and its number.
abbrev IsReadFrom : Unicode → Bytes → Reference → Type 0
IsReadFrom u raw ref = (ref.raw ≡ raw) × (parse u raw ≡ ok ref.value)

numeric_reference-ok :
    (u : Unicode) (raw : Bytes) {ref : Reference}
    → numeric_reference u raw ≡ ok ref
    → IsReadFrom u raw ref
unfolding numeric_reference
numeric_reference-ok u raw {ref} h = elim (Result-cases (parse u raw)) [
  | inl (v, e) ↦
      let h' : ok (record { raw = raw; value = v }) ≡ ok ref = rw (e, numeric_reference) at h in
      (cc h', e ∙ cc h')
  | inr (f, e) ↦ absurd (cc (rw (e, numeric_reference) at h))
]

-- Where the answer of a solution stands.
abbrev pub IsGsm8kAnswer : Bytes → Bytes → Type 0
IsGsm8kAnswer solution raw = hash_answer solution ≡ some raw

abbrev pub IsMathAnswer : Bytes → Bytes → Type 0
IsMathAnswer solution raw =
    (start : ℕ) × (end : ℕ) × (last_command solution box_commands ≡ some (start, end))
    × (boxed_argument (drop end solution) ≡ ok raw)

gsm8k-ok :
    (u : Unicode) (solution : Bytes) {ref : Reference}
    → parse_gsm8k_reference u solution ≡ ok ref
    → (raw : Bytes) × IsGsm8kAnswer solution raw × IsReadFrom u raw ref
unfolding parse_gsm8k_reference
gsm8k-ok u solution h = elim (Option-cases (hash_answer solution)) [
  | inl e ↦ absurd (cc (rw (e, parse_gsm8k_reference) at h))
  | inr (raw, e) ↦ (raw, e, numeric_reference-ok u raw (rw (e, parse_gsm8k_reference) at h))
]

math-ok :
    (u : Unicode) (solution : Bytes) {ref : Reference}
    → parse_math_reference u solution ≡ ok ref
    → (raw : Bytes) × IsMathAnswer solution raw × IsReadFrom u raw ref
unfolding parse_math_reference
math-ok u solution h = elim (Option-cases (last_command solution box_commands)) [
  | inl e ↦ absurd (cc (rw (e, parse_math_reference) at h))
  | inr ((start, end), e) ↦ elim (Result-cases (boxed_argument (drop end solution))) [
    | inr (f, k) ↦ absurd (cc (rw (e, k, parse_math_reference) at h))
    | inl (raw, k) ↦
        (raw, (start, end, e, k), numeric_reference-ok u raw (rw (e, k, parse_math_reference) at h))
  ]
]

-- What Verify says of a solution whose answer is extracted and read.
verify_own :
    (u : Unicode) (solution raw : Bytes) (source : Option Source) (ref : Reference)
    → extract u solution ≡ (record { raw = raw; source = source }, none)
    → IsReadFrom u raw ref
    → (parse u ref.raw ≡ ok ref.value) × ((verify u solution ref.raw).correct ≡ true)
verify_own u solution raw source ref x (same, p) = (
  subst (λ t. parse u t ≡ ok ref.value) (sym same) p,
  subst (λ t. (verify u solution t).correct ≡ true) (sym same)
      (self_correct u solution raw source ref.value x p),
)

-- A reference that was read from a solution has the number that its text denotes, and Verify finds
-- the solution itself correct against it; a MATH solution must not hold four hash signs in a row.
pub reference_verify :
    (u : Unicode) (solution : Bytes) (ref : Reference)
    → (parse_gsm8k_reference u solution ≡ ok ref)
      ⊎ ((hash_answer solution ≡ none) × (parse_math_reference u solution ≡ ok ref))
    → (parse u ref.raw ≡ ok ref.value) × ((verify u solution ref.raw).correct ≡ true)
reference_verify u solution ref (inl h) =
    let (raw, found, same) = gsm8k-ok u solution h in
    verify_own u solution raw _ ref (extract_hash u solution raw found) same
reference_verify u solution ref (inr (clean, h)) =
    let (raw, (start, end, e, k), same) = math-ok u solution h in
    verify_own u solution raw _ ref (extract_boxed u solution raw start end clean e k) same

-- `errors.Is` with one of the errors, on the list of those that an error wraps.
abbrev pub wraps : (AnswerError → Bool) → List AnswerError → Bool
wraps p [] = false
wraps p (e ∷ es) = p e || wraps p es

abbrev pub is_no_answer : AnswerError → Bool
is_no_answer e = not (is_parse_error e)

-- The errors that stand for an answer that is there and is not read: not a number, and not the
-- error for a missing answer.
abbrev NotRead : List AnswerError → Type 0
NotRead es = (wraps is_no_answer es ≡ false) × (wraps is_not_numeric es ≡ true)

wrapped-NotRead :
    (e : AnswerError)
    → IsParseError e
    → NotRead (if is_not_numeric e then e ∷ [] else AnswerError.not_numeric ∷ e ∷ [])
wrapped-NotRead AnswerError.no_answer h = absurd (cc h)
wrapped-NotRead AnswerError.empty h = (refl, refl)
wrapped-NotRead AnswerError.not_numeric h = (refl, refl)
wrapped-NotRead AnswerError.ambiguous h = (refl, refl)
wrapped-NotRead AnswerError.unsupported h = (refl, refl)
wrapped-NotRead AnswerError.division_by_zero h = (refl, refl)
wrapped-NotRead AnswerError.malformed h = (refl, refl)

numeric_reference-NotRead :
    (u : Unicode) (raw : Bytes) → Outcome NotRead Anything (numeric_reference u raw)
unfolding numeric_reference
numeric_reference-NotRead u raw =
    let h = parse-IsSound u raw in
    elim (Result-cases (parse u raw)) [
      | inl (v, e) ↦ rw (e, numeric_reference) tt
      | inr (f, e) ↦ rw (e, numeric_reference) (wrapped-NotRead f (rw e at h))
    ]

-- The error of boxedArgument.
boxed_argument-err :
    (rest : Bytes) → Outcome (λ e. e ≡ AnswerError.malformed) Anything (boxed_argument rest)
unfolding boxed_argument
boxed_argument-err rest =
    let open_at = length rest - length (trim_left rest) in
    if-intro (Outcome (λ e. e ≡ AnswerError.malformed) Anything)
      (open_at == length rest || not (byte_at rest open_at == b'{')) _ _ (λ yes. refl)
      (λ no. elim (Option-cases (closing_brace rest open_at)) [
        | inl e ↦ rw e refl
        | inr (closing, e) ↦ rw e tt
      ])

gsm8k_error :
    (u : Unicode) (solution : Bytes) (es : List AnswerError)
    → parse_gsm8k_reference u solution ≡ err es
    → ((wraps is_no_answer es ≡ true) ↔ (hash_answer solution ≡ none))
      × ((wraps is_not_numeric es ≡ true) ↔ (hash_answer solution ≢ none))
unfolding parse_gsm8k_reference
gsm8k_error u solution es h = elim (Option-cases (hash_answer solution)) [
  | inl e ↦
      let lone : AnswerError.no_answer ∷ [] ≡ es = cc (rw (e, parse_gsm8k_reference) at h) in
      rw (← lone, e) ((λ _. refl, λ _. refl), (λ q. absurd (cc q), λ q. absurd (q refl)))
  | inr (raw, e) ↦
      let fails : numeric_reference u raw ≡ err es = rw (e, parse_gsm8k_reference) at h in
      let (present, refused) : NotRead es = rw fails at (numeric_reference-NotRead u raw) in
      rw (present, refused, e) ((λ q. absurd (cc q), λ q. absurd (cc q)), (λ _ q. cc q, λ _. refl))
]

math_error :
    (u : Unicode) (solution : Bytes) (es : List AnswerError)
    → parse_math_reference u solution ≡ err es
    → (wraps is_no_answer es ≡ true) ↔ (last_command solution box_commands ≡ none)
unfolding parse_math_reference
math_error u solution es h = elim (Option-cases (last_command solution box_commands)) [
  | inl e ↦
      let lone : AnswerError.no_answer ∷ [] ≡ es = cc (rw (e, parse_math_reference) at h) in
      rw (← lone, e) (λ _. refl, λ _. refl)
  | inr ((start, end), e) ↦
      let present : wraps is_no_answer es ≡ false =
        elim (Result-cases (boxed_argument (drop end solution))) [
          | inr (f, k) ↦
              let m : f ≡ AnswerError.malformed =
                rw k at (boxed_argument-err (drop end solution)) in
              let lone : f ∷ [] ≡ es = cc (rw (e, k, parse_math_reference) at h) in
              rw (← lone, m) refl
          | inl (raw, k) ↦
              let fails : numeric_reference u raw ≡ err es = rw (e, k, parse_math_reference) at h in
              (rw fails at (numeric_reference-NotRead u raw)).0
        ] in
      rw (present, e) (λ q. absurd (cc q), λ q. absurd (cc q))
]

-- The error for a GSM8K solution wraps the one for a missing answer exactly when the solution has
-- no line of four hash signs, and wraps the one for an answer that is not a number exactly when it
-- has such a line; the error for a MATH solution wraps the one for a missing answer exactly when
-- the solution has no box.
pub reference_error :
    (u : Unicode) (solution : Bytes)
    → ((es : List AnswerError)
        → parse_gsm8k_reference u solution ≡ err es
        → ((wraps is_no_answer es ≡ true) ↔ (hash_answer solution ≡ none))
          × ((wraps is_not_numeric es ≡ true) ↔ (hash_answer solution ≢ none)))
      × ((es : List AnswerError)
          → parse_math_reference u solution ≡ err es
          → (wraps is_no_answer es ≡ true) ↔ (last_command solution box_commands ≡ none))
reference_error u solution = (gsm8k_error u solution, math_error u solution)
