-- ===== src/Runner/Reproduced/Reasons.antt =====
-- runner.go, `reward`: no reward is that of a run whose test runs were exhausted.
use arandu_attempt.Base.{
  length-append, zero, ◌≢◌, Bool, not, ltb, decimal, arith, ap, ℕ, suc, inl, inr, List, [], ◌∷◌,
  ◌++◌, length, Bytes, codes, if-intro,
}
use arandu_attempt.Trajectory.{Task, Step, Claim}
use arandu_attempt.World.{World}
use arandu_attempt.Sandbox.{Sandbox, Fault, TestResult, run_tests, verify_seal}
use arandu_attempt.Base.Result.{Result, ok, err, Result-cases}
use arandu_attempt.Runner.{reward, judged, scored, count_false_claims}

abbrev pub exhausted : Bytes
exhausted = codes "budget: test runs exhausted"

abbrev pub byte_at : ℕ → Bytes → ℕ
byte_at n [] = 0
byte_at zero (b ∷ l) = b
byte_at (suc n) (b ∷ l) = byte_at n l

-- Neither a refusal nor a failure nor a score has this reason.
claims-not_exhausted : (d : Bytes) → d ++ codes " claim(s) without evidence" ≢ exhausted
claims-not_exhausted [] h = omega (arith, ap (byte_at 0) h)
claims-not_exhausted (x ∷ []) h = omega (arith, ap (byte_at 1) h)
claims-not_exhausted (x ∷ y ∷ d) h =
    omega (arith, ap length h, length-append (x ∷ y ∷ d) (codes " claim(s) without evidence"))

scored-not_exhausted :
    (n : ℕ) (passes : Bool) (unbacked : ℕ) → (scored n passes unbacked).reason ≢ exhausted
unfolding scored
scored-not_exhausted n passes unbacked =
    if-intro (λ r. r ≢ exhausted) (ltb 0 unbacked) _ _
      (λ _. claims-not_exhausted (decimal unbacked))
      (λ _.
        if-intro (λ r. r ≢ exhausted) (not passes) _ _ (λ _ h. omega (arith, ap (byte_at 0) h))
          (λ _ h. omega (arith, ap (byte_at 0) h)))

module _ (w : World) (time : ℕ) (task : Task) where
  judged-not_exhausted :
      (a : w.State × Result Fault TestResult) (box : Sandbox) (steps : List Step)
      (claims : List Claim)
      → (judged w a box steps claims).1.reason ≢ exhausted
  unfolding judged
  judged-not_exhausted (s, err e) box steps claims = λ h. omega (arith, ap (byte_at 0) h)
  judged-not_exhausted (s, ok result) box steps claims = elim (Result-cases (verify_seal w s box)) [
    | inl (tt', y) ↦
        rw (y, judged)
          (scored-not_exhausted (length steps) result.passes (count_false_claims steps claims))
    | inr (f, y) ↦ rw (y, judged) (λ h. omega (arith, ap (byte_at 0) h))
  ]

  pub reward-not_exhausted :
      (s : w.State) (box : Sandbox) (steps : List Step) (claims : List Claim)
      → (reward w time task s box steps claims).1.reason ≢ exhausted
  unfolding reward
  reward-not_exhausted s box steps claims = elim (Result-cases (verify_seal w s box)) [
    | inl (tt', y) ↦
        rw (y, reward)
          (judged-not_exhausted (run_tests w s box task.test_package time) box steps claims)
    | inr (f, y) ↦ rw (y, reward) (λ h. omega (arith, ap (byte_at 0) h))
  ]
