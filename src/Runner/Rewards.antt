-- ===== src/Runner/Rewards.antt =====
-- runner.go, `reward`: lemmas on its score.
use arandu_attempt.Base.{
  ℕ, ◌≡◌, refl, sym, subst, ◌↔◌, inl, inr, Bool, true, List, All, length, arith,
}
use arandu_attempt.Base.Result.{Result, ok, err, Result-cases}
use arandu_attempt.Trajectory.{Task, Step, Claim}
use arandu_attempt.World.{World}
use arandu_attempt.Sandbox.{Sandbox, Fault, TestResult, run_tests, verify_seal}
use arandu_attempt.Runner.{scored, judged, reward, count_false_claims}
use arandu_attempt.Runner.Claims.{Backed, count_false_claims_iff}

module _ (w : World) (timeout : ℕ) (task : Task) where
  open w use {State}

  -- The evaluation is intact before the final tests, they pass, it is intact after them, and every
  -- claim is backed.
  pub record Earned (s : State) (box : Sandbox) (steps : List Step) (claims : List Claim)
      : Type 0 where
    pub sealed_before : verify_seal w s box ≡ ok tt
    pub result : TestResult
    pub ran : (run_tests w s box task.test_package timeout).1 ≡ ok result
    pub passing : result.passes ≡ true
    pub sealed_after : verify_seal w (run_tests w s box task.test_package timeout).0 box ≡ ok tt
    pub backed : All (Backed steps) claims

  scored_one : (n k : ℕ) (b : Bool) → (scored n b k).score ≡ 1 → (b ≡ true) × (k ≡ 0)
  unfolding scored
  scored_one n k b h = ground arith

  one_scored : (n : ℕ) → (scored n true 0).score ≡ 1
  unfolding scored
  one_scored n = refl

  judged_one :
      (r : State × Result Fault TestResult) (box : Sandbox) (steps : List Step)
      (claims : List Claim)
      → (judged w r box steps claims).1.score ≡ 1
      → (result : TestResult) × (r.1 ≡ ok result)
        × (result.passes ≡ true)
        × (verify_seal w r.0 box ≡ ok tt)
        × All (Backed steps) claims
  unfolding judged
  judged_one (s, err e) box steps claims h = absurd (omega arith)
  judged_one (s, ok result) box steps claims h = elim (Result-cases (verify_seal w s box)) [
    | inl (tt', e) ↦
        let n = count_false_claims steps claims in
        let one : (scored (length steps) result.passes n).score ≡ 1 = rw (e, judged) at h in
        let (pass, none_false) = scored_one (length steps) n result.passes one in
        (result, refl, pass, e, (count_false_claims_iff steps claims).0 none_false)
    | inr (f, e) ↦ absurd (omega (arith, rw (e, judged) at h))
  ]

  -- The final reward scores 1 exactly when the seal holds before the final tests, the runner's own
  -- test run passes, the seal holds after it, and every claim is backed by the step that it cites.
  pub reward_iff :
      (s : State) (box : Sandbox) (steps : List Step) (claims : List Claim)
      → ((reward w timeout task s box steps claims).1.score ≡ 1) ↔ Earned s box steps claims
  unfolding reward judged
  reward_iff s box steps claims = (
    λ h. elim (Result-cases (verify_seal w s box)) [
      | inl (tt', e) ↦
          let (result, ran, pass, after, backed) =
            judged_one (run_tests w s box task.test_package timeout) box steps claims
              (rw (e, reward) at h) in
          record {
            sealed_before = e;
            result = result;
            ran = ran;
            passing = pass;
            sealed_after = after;
            backed = backed;
          }
      | inr (f, e) ↦ absurd (omega (arith, rw (e, reward) at h))
    ],
    λ e.
        let none_false = (count_false_claims_iff steps claims).1 e.backed in
        rw (e.sealed_before, reward)
          (subst
            (λ r.
              (judged w ((run_tests w s box task.test_package timeout).0, r) box steps
                claims).1.score
              ≡ 1)
            (sym e.ran)
            (rw (e.sealed_after, judged) (rw (e.passing, none_false) (one_scored (length steps))))),
  )
