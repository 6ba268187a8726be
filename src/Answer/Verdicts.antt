-- ===== src/Answer/Verdicts.antt =====
-- Lemmas on the verdict of Verify and on the rules of extraction.
use arandu_attempt.Base.{
  ℕ, ◌≡◌, refl, ap, ◌∙◌, ◌↔◌, inl, inr, true, Option, some, none, Bool-cases, Bytes, drop,
}
use arandu_attempt.Base.Result.{Result, ok, err, Result-cases}
use arandu_attempt.Answer.{Rat, Unicode, AnswerError, same_rat}
use arandu_attempt.Answer.Latex.{box_commands, last_command}
use arandu_attempt.Answer.Parse.{parse}
use arandu_attempt.Answer.Extract.{Source, Extraction, extract, hash_answer, boxed_argument, boxed}
use arandu_attempt.Answer.Verdict.{decided, verdict_of, verify}
use arandu_attempt.Answer.Values.{Fraction, value, same_rat_iff}
use arandu_attempt.Answer.Sound.{parse-HasDen}

-- The answer was found without an error, and it and the reference denote the same number.
abbrev pub Reaches : Unicode → Extraction × Option AnswerError → Result AnswerError Rat → Type 0
Reaches u x r =
    (x.1 ≡ none)
    × (got : Rat) × (want : Rat) × (parse u (x.0.raw) ≡ ok got)
    × (r ≡ ok want)
    × (same_rat got want ≡ true)

pub decided-correct :
    (found : Extraction) (got want : Rat) → (decided found got want).correct ≡ same_rat got want
unfolding decided
decided-correct found got want = elim (Bool-cases (same_rat got want)) [
  | inl e ↦ rw e refl
  | inr e ↦ rw e refl
]

verdict_of_iff :
    (u : Unicode) (x : Extraction × Option AnswerError) (r : Result AnswerError Rat)
    → ((verdict_of u x r).correct ≡ true) ↔ Reaches u x r
unfolding verdict_of
verdict_of_iff u (found, failure) (err e) =
    (λ h. absurd (cc h), λ (_, _, _, _, k, _). absurd (cc k))
verdict_of_iff u (found, some e) (ok want) =
    (λ h. absurd (cc h), λ (k, _, _, _, _, _). absurd (cc k))
verdict_of_iff u (found, none) (ok want) = elim (Result-cases (parse u found.raw)) [
  | inr (e, p) ↦ rw (p, verdict_of) (λ h. absurd (cc h), λ (_, _, _, k, _, _). absurd (cc k))
  | inl (got, p) ↦
      rw (p, verdict_of)
        (
          λ h. (refl, got, want, refl, refl, rw (decided-correct found got want) at h),
          λ (_, got', want', q, k, same). decided-correct found got want ∙ cc (q, k, same),
        )
]

-- What a correct answer is, without the code of Verify: the rules of extraction find a text, it and
-- the reference are read as numbers, and these are equal as rational numbers.
abbrev pub IsCorrect : Unicode → Bytes → Bytes → Type 0
IsCorrect u response reference =
    (found : Extraction) × (got : Fraction) × (want : Fraction) × (extract u response
      ≡ (found, none))
    × (parse u found.raw ≡ ok (got.0))
    × (parse u reference ≡ ok (want.0))
    × (value got ≡ value want)

pub verify_lem :
    (u : Unicode) (response reference : Bytes)
    → verify u response reference ≡ verdict_of u (extract u response) (parse u reference)
unfolding verify
verify_lem u response reference = refl

-- Verify says correct exactly when extraction finds an answer without an error, the answer and the
-- reference are both read, and the two fractions are one element of the quotient of the fractions
-- by cross-multiplication.
pub verify_iff :
    (u : Unicode) (response reference : Bytes)
    → ((verify u response reference).correct ≡ true) ↔ IsCorrect u response reference
verify_iff u response reference =
    let both = verdict_of_iff u (extract u response) (parse u reference) in
    let read : Bytes = (extract u response).0.raw in
    rw (verify_lem u response reference) (
      λ h.
          let (clean, got, want, p, q, same) = both.0 h in
          let a : Fraction = (got, parse-HasDen u read p) in
          let b : Fraction = (want, parse-HasDen u reference q) in
          (
            (extract u response).0,
            a,
            b,
            λ i. ((extract u response).0, clean i),
            p,
            q,
            (same_rat_iff a b).0 same,
          ),
      λ (found, got, want, x, p, q, same). both.1 (
        ap (λ t. t.1) x,
        got.0,
        want.0,
        ap (λ t. parse u (t.0.raw)) x ∙ p,
        q,
        (same_rat_iff got want).1 same,
      ),
    )

-- A text found without an error that reads as a number is correct against itself.
pub self_correct :
    (u : Unicode) (response raw : Bytes) (source : Option Source) (v : Rat)
    → extract u response ≡ (record { raw = raw; source = source }, none)
    → parse u raw ≡ ok v
    → (verify u response raw).correct ≡ true
self_correct u response raw source v x p =
    let a : Fraction = (v, parse-HasDen u raw p) in
    (verify_iff u response raw).1 (record { raw = raw; source = source }, a, a, x, p, p, refl)

pub extract_hash :
    (u : Unicode) (text raw : Bytes)
    → hash_answer text ≡ some raw
    → extract u text ≡ (record { raw = raw; source = some Source.source_hash }, none)
unfolding extract
extract_hash u text raw e = rw (e, extract) refl

pub extract_boxed :
    (u : Unicode) (text raw : Bytes) (start end : ℕ)
    → hash_answer text ≡ none
    → last_command text box_commands ≡ some (start, end)
    → boxed_argument (drop end text) ≡ ok raw
    → extract u text ≡ (record { raw = raw; source = some Source.source_boxed }, none)
unfolding extract boxed
extract_boxed u text raw start end e f g = rw (e, f, g, extract) refl
