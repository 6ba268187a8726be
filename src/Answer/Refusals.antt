-- ===== src/Answer/Refusals.antt =====
-- Lemmas on the errors of Parse and of what it calls.
use arandu_attempt.Base.{
  ℕ, zero, suc, ◌+◌, ◌==◌, ltb, ◌≡◌, refl, inl, inr, Bool, true, false, not, ◌&&◌, ◌||◌, if-intro,
  Option, some, none, Option-cases, [], ◌∷◌, Bytes, codes, drop, length,
}
use arandu_attempt.Base.Result.{Result, Outcome, bind-Outcome, Result-cases}
use arandu_attempt.Answer.{AnswerError, Unicode}
use arandu_attempt.Answer.Text.{decode, is_one_of, trim_left, trim_right}
use arandu_attempt.Answer.Latex.{balanced, is_digit, starts_with, take_digits, closing_brace}
use arandu_attempt.Answer.Number.{take_groups, grouped, is_comma, argument_of, frac_argument}
use arandu_attempt.Answer.Refusal.{
  scientific, is_allowed, take_letters, allowed_commands, after_backslash, step_over, contents_from,
  ends_percent, classify, has_digit, refusal,
}
use arandu_attempt.Answer.Parse.{take_marks, prefix}

-- The errors but the one of a text without an answer.
abbrev pub is_parse_error : AnswerError → Bool
is_parse_error AnswerError.no_answer = false
is_parse_error _ = true

abbrev pub IsParseError : AnswerError → Type 0
IsParseError e = is_parse_error e ≡ true

abbrev pub Anything {ℓ} : {A : Type ℓ} → A → Type 0
Anything x = Unit

-- A reason not to read a text, if there is one.
abbrev Reasons : Option AnswerError → Type 0
Reasons none = Unit
Reasons (some e) = IsParseError e

-- Every error of a result is one of Parse.
abbrev pub Refuses : {A : Type 0} → Result AnswerError A → Type 0
Refuses r = Outcome IsParseError Anything r

after_backslash-Refuses : (s : Bytes) → Refuses (after_backslash s)
unfolding after_backslash
after_backslash-Refuses s =
    if-intro Refuses (length (take_letters s) == 0) _ _ (λ yes. tt)
      (λ no.
        if-intro Refuses (is_allowed (take_letters s) allowed_commands) _ _ (λ yes. tt)
          (λ no. refl))

step_over-Refuses : (u : Unicode) (s : Bytes) → Refuses (step_over u s)
unfolding step_over
step_over-Refuses u s =
    let r = (decode s).0 in
    if-intro Refuses (r == b'\\') _ _ (λ yes. after_backslash-Refuses (drop 1 s))
      (λ _.
        if-intro Refuses (is_one_of r (codes "()[]")) _ _ (λ yes. refl)
          (λ _.
            if-intro Refuses (u.is_letter r) _ _ (λ yes. refl)
              (λ _. if-intro Refuses (r == b'^' || r == b'_') _ _ (λ yes. refl) (λ no. tt))))

contents_from-Reasons : (u : Unicode) (skip : ℕ) (s : Bytes) → Reasons (contents_from u skip s)
unfolding contents_from
contents_from-Reasons u skip [] = tt
contents_from-Reasons u (suc skip) (c ∷ s) = contents_from-Reasons u skip s
contents_from-Reasons u zero (c ∷ s) =
    let h = step_over-Refuses u (c ∷ s) in
    elim (Result-cases (step_over u (c ∷ s))) [
      | inl (skip, e) ↦ rw (e, contents_from) (contents_from-Reasons u skip s)
      | inr (f, e) ↦ rw (e, contents_from) (rw e at h)
    ]

classify-Reasons : (u : Unicode) (s : Bytes) → Reasons (classify u s)
unfolding classify
classify-Reasons u s =
    if-intro Reasons (not (balanced s)) _ _ (λ yes. refl)
      (λ no.
        if-intro Reasons (scientific s) _ _ (λ yes. refl)
          (λ no.
            let h = contents_from-Reasons u 0 s in
            elim (Option-cases (contents_from u 0 s)) [
              | inl e ↦
                  rw e (if-intro Reasons (ends_percent (trim_right s)) _ _ (λ yes. refl) (λ no. tt))
              | inr (f, e) ↦ rw e (rw e at h)
            ]))

pub refusal-IsParseError :
    (u : Unicode) (s rest : Bytes) (failure : Option AnswerError)
    → Reasons failure
    → IsParseError (refusal u s rest failure)
unfolding refusal
refusal-IsParseError u s rest failure h =
    let k = classify-Reasons u s in
    elim (Option-cases (classify u s)) [
      | inr (f, e) ↦ rw (e, refusal) (rw e at k)
      | inl e ↦
          rw (e, refusal)
            (elim (Option-cases failure) [
              | inr (f, e') ↦ rw e' (rw e' at h)
              | inl e' ↦
                  rw e' (if-intro IsParseError (has_digit rest) _ _ (λ yes. refl) (λ no. refl))
            ])
    ]

take_groups-Refuses : (s : Bytes) → Refuses (take_groups s)
unfolding take_groups
take_groups-Refuses [] = tt
take_groups-Refuses (c ∷ []) = if-intro Refuses (is_comma c) _ _ (λ yes. refl) (λ no. tt)
take_groups-Refuses (c ∷ x ∷ []) = if-intro Refuses (is_comma c) _ _ (λ yes. refl) (λ no. tt)
take_groups-Refuses (c ∷ x ∷ y ∷ []) = if-intro Refuses (is_comma c) _ _ (λ yes. refl) (λ no. tt)
take_groups-Refuses (c ∷ x ∷ y ∷ z ∷ s) =
    if-intro Refuses (is_comma c) _ _
      (λ yes.
        if-intro Refuses (length (take_digits (x ∷ y ∷ z ∷ s)) == 3) _ _
          (λ three.
            bind-Outcome IsParseError Anything Anything (take_groups s) _ (take_groups-Refuses s)
              (λ found _. tt))
          (λ no. refl))
      (λ no. tt)

pub grouped-Refuses : (whole after : Bytes) → Refuses (grouped whole after)
unfolding grouped
grouped-Refuses whole after =
    if-intro Refuses (ltb 0 (length whole) && starts_with is_comma after) _ _
      (λ yes.
        if-intro Refuses (ltb 3 (length whole) || starts_with (λ c. c == b'0') whole) _ _
          (λ yes. refl) (λ no. take_groups-Refuses after))
      (λ no. tt)

argument_of-Refuses : (s : Bytes) → Refuses (argument_of s)
unfolding argument_of
argument_of-Refuses [] = refl
argument_of-Refuses (c ∷ s) =
    if-intro Refuses (c == b'{') _ _
      (λ yes. elim (Option-cases (closing_brace (c ∷ s) 0)) [
        | inl e ↦ rw e refl
        | inr (end, e) ↦ rw e tt
      ])
      (λ no. if-intro Refuses (is_digit c) _ _ (λ yes. tt) (λ no. refl))

pub frac_argument-Refuses : (s : Bytes) → Refuses (frac_argument s)
unfolding frac_argument
frac_argument-Refuses s = argument_of-Refuses (trim_left s)

pub prefix-Refuses : (s : Bytes) → Refuses (prefix s)
unfolding prefix
prefix-Refuses s =
    let m =
      take_marks (length s + 1)
        (record { negative = false; signs = 0; currencies = 0; body = s }) in
    if-intro Refuses (ltb 1 m.signs) _ _ (λ yes. refl)
      (λ no. if-intro Refuses (ltb 1 m.currencies) _ _ (λ yes. refl) (λ no. tt))
