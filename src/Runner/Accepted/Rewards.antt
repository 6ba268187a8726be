-- ===== src/Runner/Accepted/Rewards.antt =====
-- trajectory.go, `Reward`: two rewards are one, or differ.
use arandu_attempt.Base.{
  ℕ, ◌≡◌, ◌≢◌, ◌⊎◌, inl, inr, refl, ap, Bool, true, false, ◌==◌, ==_iff, bytes_eq, bytes_eq_iff,
  Bytes, Bool-cases, arith,
}
use arandu_attempt.Trajectory.{Reward}

-- An equation that holds or does not.
abbrev Decided {ℓ} : {A : Type ℓ} → A → A → Type ℓ
Decided a b = (a ≡ b) ⊎ (a ≢ b)

Nat-cases : (a b : ℕ) → Decided a b
Nat-cases a b = elim (Bool-cases (a == b)) [
  | inl y ↦ inl ((==_iff a b).0 y)
  | inr n ↦ inr (λ e. absurd (cc (n, (==_iff a b).1 e)))
]

Bytes-cases : (a b : Bytes) → Decided a b
Bytes-cases a b = elim (Bool-cases (bytes_eq a b)) [
  | inl y ↦ inl ((bytes_eq_iff a b).0 y)
  | inr n ↦ inr (λ e. absurd (cc (n, (bytes_eq_iff a b).1 e)))
]

Flag-cases : (a b : Bool) → Decided a b
Flag-cases true true = inl refl
Flag-cases false false = inl refl
Flag-cases true false = inr (λ e. absurd (cc e))
Flag-cases false true = inr (λ e. absurd (cc e))

both-cases {ℓ ℓ'} : {P : Type ℓ} {Q : Type ℓ'} → P ⊎ (¬ P) → Q ⊎ (¬ Q) → (P × Q) ⊎ (¬ (P × Q))
both-cases (inl p) (inl q) = inl (p, q)
both-cases (inr n) b = inr (λ h. n h.0)
both-cases (inl p) (inr n) = inr (λ h. n h.1)

pub Reward-cases : (a b : Reward) → Decided a b
Reward-cases a b =
    elim (both-cases (Nat-cases a.score b.score) (
      both-cases (Flag-cases a.tests_passed b.tests_passed) (
        both-cases (Flag-cases a.refused b.refused) (
          both-cases (Nat-cases a.false_claims b.false_claims)
            (both-cases (Nat-cases a.tool_calls b.tool_calls) (Bytes-cases a.reason b.reason)))))) [
              | inl (score, (passed, (refused, (claims, (calls, reason))))) ↦ inl (ground arith)
              | inr n ↦ inr (λ e. n (
                ap (λ (r : Reward). r.score) e,
                (
                  ap (λ (r : Reward). r.tests_passed) e,
                  (
                    ap (λ (r : Reward). r.refused) e,
                    (
                      ap (λ (r : Reward). r.false_claims) e,
                      (ap (λ (r : Reward). r.tool_calls) e, ap (λ (r : Reward). r.reason) e),
                    ),
                  ),
                ),
              ))
            ]
