-- ===== src/Runner/Diverged.antt =====
-- runner.go, `Run`, `Replay` and `Verify`: the record of a run that ended because its test runs
-- were exhausted.
use arandu_attempt.Base.{
  ℕ, ◌⊎◌, ◌≡◌, ◌≢◌, sym, ap, ◌∙◌, inl, inr, Option, some, none, refl, Bytes, arith, Option-cases,
}
use arandu_attempt.Base.Result.{Result, ok, err, Result-cases}
use arandu_attempt.Trajectory.{Task, Budget, Reward, Trajectory}
use arandu_attempt.World.{World}
use arandu_attempt.Sandbox.{new_sandbox}
use arandu_attempt.Runner.{Agent, Ended}
use arandu_attempt.Runner.Rounds.{drive}
use arandu_attempt.Runner.Runs.{
  Runner, timeout, validate_task, seal_tree, copy_tree, parent, changed_reason, begin, on_copy,
  compared, removed, ending, failed_run, run,
}
use arandu_attempt.Runner.Replays.{Encoder, replay, verdict, verify}
use arandu_attempt.Runner.Reproduced.Reasons.{exhausted, byte_at}
use arandu_attempt.Runner.Accepted.{Collision, accepted_reward}
use arandu_attempt.Runner.Verified.{replayer, played, ending_kept}

module _ (w : World) (r : Runner) (task : Task) (budget : Budget) (version : Bytes)
    (agent : Agent) where
  open w use {State}
  open agent use {Mind}

  abbrev changed : Bytes
  changed = changed_reason w r task budget version agent

  abbrev reason : Ended State → Bytes
  reason e = e.trajectory.reward.reason

  kept_exhausted : (x : Bytes) → x ≡ exhausted → x ≢ changed
  kept_exhausted x h bad = omega (arith, ap (byte_at 0) (sym h ∙ bad))

  -- An end that is not one of a run with no test run left.
  abbrev Another : Option (Ended State) → Type 0
  Another o = (e' : Ended State) × (o ≡ some e') × (e'.error ≡ none → reason e' ≢ exhausted)

  ending-Another :
      (root sealed v : Bytes) (other : Agent) (last : Ended State)
      → reason last ≢ exhausted
      → Another (ending w r task budget v other root sealed (some last))
  unfolding ending
  ending-Another root sealed v other last left =
      let c = compared w r task budget v other sealed last in
      let e' = removed w r task budget v other root c in
      (
        e',
        refl,
        λ fine bad.
            let (x, same, _, traj) =
              ending_kept w r task budget v other root sealed (some last) e' refl fine
                (kept_exhausted (reason e') bad) in
            let is_last : last ≡ x = cc same in
            left (ap reason is_last ∙ ap (λ (u : Trajectory). u.reward.reason) traj ∙ bad),
      )

  on_copy-Another :
      (fuel : ℕ) (mind : Mind) (sealed : Bytes) (copy : State × Result Bytes Bytes)
      (e : Ended State)
      → on_copy w r task budget version agent fuel mind sealed copy ≡ some e
      → e.error ≡ none
      → reason e ≡ exhausted
      → Another (
          on_copy w r task budget e.trajectory.policy_version
            (replayer w r task budget version agent e.trajectory)
            fuel
            tt
            sealed
            copy)
  unfolding on_copy failed_run
  on_copy-Another fuel mind sealed (s, err f) e h fine left = absurd (cc (h, fine))
  on_copy-Another fuel mind sealed (s, ok root) e h fine left =
      elim (Result-cases (new_sandbox w s root task.allowed_files r.reserved)) [
        | inr (f, y) ↦ absurd (cc (rw (y, on_copy) at h, fine))
        | inl (box, y) ↦
            let t = e.trajectory in
            let again = replayer w r task budget version agent t in
            let c = begin w r task budget version agent s mind in
            let (ed, ran, no_error, traj) =
              ending_kept w r task budget version agent root sealed
                (drive w agent (timeout r) task budget box fuel c) e (rw (y, on_copy) at h) fine
                (kept_exhausted (reason e) left) in
            let (last, ran_again, (other, _)) =
              played w r task budget version agent fuel s mind box ed t ran no_error traj in
            rw (y, on_copy, ran_again)
              (ending-Another root sealed t.policy_version again last other)
      ]

  replay-Another :
      (enc : Encoder) (fuel : ℕ) (s : State) (mind : Mind) (e : Ended State)
      → run w r task budget version agent fuel s mind ≡ some e
      → e.error ≡ none
      → reason e ≡ exhausted
      → Another (replay enc w r task budget fuel s e.trajectory)
  unfolding replay run failed_run
  replay-Another enc fuel s mind e h fine left = elim (Option-cases (validate_task task)) [
    | inr (f, y) ↦ absurd (cc (rw (y, run) at h, fine))
    | inl y ↦ elim (Result-cases (seal_tree w s task.snapshot)) [
      | inr (f, z) ↦ absurd (cc (rw (y, z, run) at h, fine))
      | inl (sealed, z) ↦
          rw (y, z, replay, run)
            (on_copy-Another fuel mind sealed (copy_tree w s task.snapshot (parent w r s)) e
              (rw (y, z, run) at h) fine left)
    ]
  ]

  -- On the record of a run that ended, without an error, because its test runs were exhausted, Verify
  -- ends with an error, with the same task, budget and runner, from the state in which the run began;
  -- or the replay has another reward, and the encodings of the two records have one hash.
  pub verify-exhausted :
      (enc : Encoder) (fuel : ℕ) (s : State) (mind : Mind) (e : Ended State)
      → run w r task budget version agent fuel s mind ≡ some e
      → e.error ≡ none
      → e.trajectory.reward.reason ≡ exhausted
      → ((f : Bytes) × (verify enc w r task budget fuel s e.trajectory ≡ some (some f)))
        ⊎ ((e' : Ended State) × (replay enc w r task budget fuel s e.trajectory ≡ some e')
            × Collision enc w e'.trajectory e.trajectory)
  unfolding verify
  verify-exhausted enc fuel s mind e h fine left =
      let (e', replayed, other) = replay-Another enc fuel s mind e h fine left in
      let judged = verdict enc w r task budget e.trajectory e' in
      let answered : verify enc w r task budget fuel s e.trajectory ≡ some judged =
        rw (replayed, verify) refl in
      elim (Option-cases judged) [
        | inr (f, z) ↦ inl (f, answered ∙ ap some z)
        | inl z ↦
            let (last, h', fine', o) =
              accepted_reward enc w r task budget fuel s e.trajectory (answered ∙ ap some z) in
            let is_last : e' ≡ last = cc (replayed, h') in
            elim o [
              | inr collision ↦ inr (last, h', collision)
              | inl same ↦ absurd (
                  other (ap (λ (x : Ended State). x.error) is_last ∙ fine')
                    (ap reason is_last ∙ ap (λ (x : Reward). x.reason) same ∙ left))
            ]
      ]
