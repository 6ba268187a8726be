-- ===== src/Runner/Accepted.antt =====
-- runner.go, `Verify`: what an accepted record says.
pub mod Rewards
use arandu_attempt.Base.{
  ℕ, ◌≡◌, ◌≢◌, ◌⊎◌, refl, sym, ap, ◌∙◌, inl, inr, none, some, map, Bytes, bytes_eq, bytes_eq_iff,
  Bool-cases, Option-cases,
}
use arandu_attempt.Base.Result.{Result, ok, err, bind-eq-ok}
use arandu_attempt.Trajectory.{Task, Budget, Reward, Trajectory}
use arandu_attempt.Runner.Accepted.Rewards.{Reward-cases}
use arandu_attempt.World.{World}
use arandu_attempt.Runner.{Ended}
use arandu_attempt.Runner.Runs.{Runner, run}
use arandu_attempt.Runner.Whole.{Delivered, run-Delivered}
use arandu_attempt.Runner.Replays.{
  Encoder, stable_step, scripted, recorded_script, digest, replay, diverged, compared_digests,
  verdict, verify,
}

-- What Digest hashes.
abbrev pub encoding : Encoder → Trajectory → Result Bytes Bytes
encoding enc v = enc.encode v.task_id (map (stable_step enc) v.steps) v.claims v.final v.reward

-- Two records with different rewards whose encodings have one hash.
pub record Collision (enc : Encoder) (w : World) (t u : Trajectory) : Type 0 where
  pub body : Bytes
  pub other : Bytes
  pub encoded : encoding enc t ≡ ok body
  pub encoded_other : encoding enc u ≡ ok other
  pub same_hash : w.hash body ≡ w.hash other
  pub differ : t.reward ≢ u.reward

module _ (enc : Encoder) (w : World) (r : Runner) (task : Task) (budget : Budget) where
  -- No error means that both digests are there and are equal.
  compared_digests-none :
      (id : Bytes) (want got : Result Bytes Bytes)
      → compared_digests enc w r task budget id want got ≡ none
      → (d : Bytes) × (want ≡ ok d) × (got ≡ ok d)
  unfolding compared_digests diverged
  compared_digests-none id (err e) got h = absurd (cc h)
  compared_digests-none id (ok want) (err e) h = absurd (cc h)
  compared_digests-none id (ok want) (ok got) h = elim (Bool-cases (bytes_eq want got)) [
    | inl y ↦ (want, refl, ap ok (sym ((bytes_eq_iff want got).0 y)))
    | inr n ↦ absurd (cc (rw n at h))
  ]

  digest_reward :
      (t u : Trajectory) (d : Bytes)
      → digest enc w t ≡ ok d
      → digest enc w u ≡ ok d
      → (t.reward ≡ u.reward) ⊎ Collision enc w t u
  unfolding digest
  digest_reward t u d ht hu =
      let (a, ea, da) = bind-eq-ok (encoding enc t) (λ b. ok (w.hash b)) ht in
      let (b, eb, db) = bind-eq-ok (encoding enc u) (λ b. ok (w.hash b)) hu in
      elim (Reward-cases t.reward u.reward) [
        | inl same ↦ inl same
        | inr differ ↦ inr (record {
          body = a;
          other = b;
          encoded = ea;
          encoded_other = eb;
          same_hash = cc (da, db);
          differ = differ;
        })
      ]

  ran :
      (fuel : ℕ) (s : w.State) (t : Trajectory)
      → run w r task budget t.policy_version (scripted (recorded_script t)) fuel s tt
        ≡ replay enc w r task budget fuel s t
  unfolding replay
  ran fuel s t = refl

  verdict-none :
      (t : Trajectory) (e : Ended w.State)
      → verdict enc w r task budget t e ≡ none
      → (e.error ≡ none)
        × ((d : Bytes) × (digest enc w t ≡ ok d) × (digest enc w e.trajectory ≡ ok d))
  unfolding verdict
  verdict-none t e h = elim (Option-cases e.error) [
    | inr (f, z) ↦ absurd (cc (rw (z, verdict) at h))
    | inl z ↦ (
      z,
      compared_digests-none t.task_id (digest enc w t) (digest enc w e.trajectory)
          (rw (z, verdict) at h),
    )
  ]

  -- A record that Verify accepts has a replay with its reward, or the two collide.
  pub accepted_reward :
      (fuel : ℕ) (s : w.State) (t : Trajectory)
      → verify enc w r task budget fuel s t ≡ some none
      → (e : Ended w.State) × (replay enc w r task budget fuel s t ≡ some e)
        × (e.error ≡ none)
        × ((e.trajectory.reward ≡ t.reward) ⊎ Collision enc w e.trajectory t)
  unfolding verify
  accepted_reward fuel s t accepted = elim (Option-cases (replay enc w r task budget fuel s t)) [
    | inl y ↦ absurd (cc (rw (y, verify) at accepted))
    | inr (e, y) ↦
        let judged : verdict enc w r task budget t e ≡ none = cc (rw (y, verify) at accepted) in
        let (no_error, (d, recorded, replayed)) = verdict-none t e judged in
        (e, y, no_error, digest_reward e.trajectory t d replayed recorded)
  ]

  -- A record with a score of 1 that Verify accepts has a replay with the same reward, which earned
  -- the score: it was made on a copy of the snapshot in a sealed sandbox, was judged where the score
  -- is earned, left the snapshot with the digest that it had, and its copy is removed; or it has a
  -- replay with another reward, and the encodings of the two records have one hash.
  pub verify-Delivered :
      (fuel : ℕ) (s : w.State) (t : Trajectory)
      → verify enc w r task budget fuel s t ≡ some none
      → t.reward.score ≡ 1
      → (e : Ended w.State) × (replay enc w r task budget fuel s t ≡ some e)
        × (((e.trajectory.reward ≡ t.reward)
              × Delivered w r task budget t.policy_version (scripted (recorded_script t)) s e)
            ⊎ Collision enc w e.trajectory t)
  verify-Delivered fuel s t accepted one =
      let (e, y, no_error, o) = accepted_reward fuel s t accepted in
      (
        e,
        y,
        elim o [
          | inr collision ↦ inr collision
          | inl same ↦ inl (
            same,
            run-Delivered w r task budget t.policy_version (scripted (recorded_script t)) fuel s tt
                e (ran fuel s t ∙ y) no_error (ap (λ (x : Reward). x.score) same ∙ one),
          )
        ],
      )
