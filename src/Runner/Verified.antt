-- ===== src/Runner/Verified.antt =====
-- runner.go, `Run`, `Replay` and `Verify`: the record of a run is verified from the state in which
-- the run began.
use arandu_attempt.Base.{
  ℕ, ◌≡◌, ◌≢◌, refl, sym, ap, subst, ◌∙◌, inl, inr, Option, none, some, Bytes, bytes_eq,
  bytes_eq_refl, Bool-cases, Option-cases,
}
use arandu_attempt.Base.Result.{Result, ok, err, Result-cases}
use arandu_attempt.Trajectory.{Task, Budget, Trajectory}
use arandu_attempt.World.{World}
use arandu_attempt.Sandbox.{Sandbox, new_sandbox}
use arandu_attempt.Runner.{Agent, Ended}
use arandu_attempt.Runner.Rounds.{drive}
use arandu_attempt.Runner.Runs.{
  Runner, timeout, validate_task, seal_tree, copy_tree, parent, changed_reason, compared, removed,
  ending, begin, on_copy, failed_run, run,
}
use arandu_attempt.Runner.Replays.{
  Encoder, scripted, recorded_script, digest, replay, diverged, compared_digests, verdict, verify,
}
use arandu_attempt.Runner.Reproduced.{drive_again_lem}
use arandu_attempt.Runner.Reproduced.Reasons.{exhausted}
use arandu_attempt.Runner.Reproduced.Calls.{Outcome}

module _ (w : World) (r : Runner) (task : Task) (budget : Budget) (version : Bytes)
    (agent : Agent) where
  open w use {State}
  open agent use {Mind}

  abbrev pub replayer : Trajectory → Agent
  replayer t = scripted (recorded_script t)

  abbrev changed : Bytes
  changed = changed_reason w r task budget version agent

  abbrev ended : State → Trajectory → Option Bytes → Ended State
  ended s t o = record { state = s; trajectory = t; error = o }

  -- The check of the snapshot leaves what it neither refuses nor voids.
  compared_kept :
      (sealed : Bytes) (s : State) (t : Trajectory) (o : Option Bytes)
      → (compared w r task budget version agent sealed (ended s t o)).error ≡ none
      → (compared w r task budget version agent sealed (ended s t o)).trajectory.reward.reason
        ≢ changed
      → (compared w r task budget version agent sealed (ended s t o) ≡ ended s t o) × (o ≡ none)
  unfolding compared
  compared_kept sealed s t (some f) fine kept = absurd (cc fine)
  compared_kept sealed s t none fine kept = elim (Result-cases (seal_tree w s task.snapshot)) [
    | inr (f, z) ↦ absurd (cc (rw (z, compared) at fine))
    | inl (after, z) ↦ elim (Bool-cases (bytes_eq after sealed)) [
      | inl same ↦ (rw (z, same, compared) refl, refl)
      | inr other ↦ absurd (rw (z, other, compared) at kept refl)
    ]
  ]

  -- It reads neither the version nor the agent.
  ending_agent :
      (root sealed v : Bytes) (other : Agent) (o : Option (Ended State))
      → ending w r task budget v other root sealed o
        ≡ ending w r task budget version agent root sealed o
  unfolding ending compared
  ending_agent root sealed v other none = refl
  ending_agent root sealed v other (some e) = refl

  pub ending_kept :
      (root sealed : Bytes) (o : Option (Ended State)) (e : Ended State)
      → ending w r task budget version agent root sealed o ≡ some e
      → e.error ≡ none
      → e.trajectory.reward.reason ≢ changed
      → (ed : Ended State) × (o ≡ some ed) × (ed.error ≡ none) × (ed.trajectory ≡ e.trajectory)
  unfolding ending
  ending_kept root sealed none e h fine kept = absurd (cc h)
  ending_kept root sealed (some ed) e h fine kept =
      let c = compared w r task budget version agent sealed ed in
      let is_e : removed w r task budget version agent root c ≡ e = cc h in
      let traj : c.trajectory ≡ e.trajectory = ap (λ (k : Ended State). k.trajectory) is_e in
      let (same, no_error) =
        compared_kept sealed ed.state ed.trajectory ed.error
          (ap (λ (k : Ended State). k.error) is_e ∙ fine)
          (λ bad. kept (ap (λ (t : Trajectory). t.reward.reason) (sym traj) ∙ bad)) in
      (ed, refl, no_error, ap (λ (k : Ended State). k.trajectory) (sym same) ∙ traj)

  -- What the script of a record leads to, from where the run began.
  pub played :
      (fuel : ℕ) (s : State) (mind : Mind) (box : Sandbox) (ed : Ended State) (t : Trajectory)
      → drive w agent (timeout r) task budget box fuel (begin w r task budget version agent s mind)
        ≡ some ed
      → ed.error ≡ none
      → ed.trajectory ≡ t
      → (e' : Ended State) × (drive w
            (replayer t)
            (timeout r)
            task
            budget
            box
            fuel
            (begin w r task budget t.policy_version (replayer t) s tt)
          ≡ some e')
        × Outcome ed e'
  played fuel s mind box ed t ran fine traj =
      let (_, _, same_version, (e', again, outcome)) =
        drive_again_lem w agent (timeout r) task budget box ed fine fuel
          (begin w r task budget version agent s mind) ran in
      let versions = sym same_version ∙ ap (λ (u : Trajectory). u.policy_version) traj in
      let at_version =
        subst
          (λ v.
            drive w (replayer ed.trajectory) (timeout r) task budget box fuel
              (begin w r task budget v (replayer ed.trajectory) s tt)
            ≡ some e')
          versions again in
      (
        e',
        subst
            (λ u.
              drive w (replayer u) (timeout r) task budget box fuel
                (begin w r task budget t.policy_version (replayer u) s tt)
              ≡ some e')
            traj at_version,
        outcome,
      )

  on_copy_again :
      (fuel : ℕ) (mind : Mind) (sealed : Bytes) (copy : State × Result Bytes Bytes)
      (e : Ended State)
      → on_copy w r task budget version agent fuel mind sealed copy ≡ some e
      → e.error ≡ none
      → e.trajectory.reward.reason ≢ changed
      → e.trajectory.reward.reason ≢ exhausted
      → on_copy w r task budget e.trajectory.policy_version
          (replayer e.trajectory)
          fuel
          tt
          sealed
          copy
        ≡ some e
  unfolding on_copy failed_run
  on_copy_again fuel mind sealed (s, err f) e h fine kept left = absurd (cc (h, fine))
  on_copy_again fuel mind sealed (s, ok root) e h fine kept left =
      elim (Result-cases (new_sandbox w s root task.allowed_files r.reserved)) [
        | inr (f, y) ↦ absurd (cc (rw (y, on_copy) at h, fine))
        | inl (box, y) ↦
            let c = begin w r task budget version agent s mind in
            let before = rw (y, on_copy) at h in
            let (ed, ran, no_error, traj) =
              ending_kept root sealed (drive w agent (timeout r) task budget box fuel c) e before
                fine kept in
            let (e', again, (_, outcome)) =
              played fuel s mind box ed e.trajectory ran no_error traj in
            let same : e' ≡ ed = elim outcome [
              | inl z ↦ z
              | inr bad ↦ absurd (left (ap (λ (t : Trajectory). t.reward.reason) (sym traj) ∙ bad))
            ] in
            rw (y, on_copy)
              (ending_agent root sealed e.trajectory.policy_version (replayer e.trajectory) (
                  drive w (replayer e.trajectory) (timeout r) task budget box fuel (
                    begin w r task budget e.trajectory.policy_version (replayer e.trajectory) s tt))
                ∙ ap (ending w r task budget version agent root sealed)
                    (again ∙ ap some same ∙ sym ran)
                ∙ before)
      ]

  replay_again :
      (enc : Encoder) (fuel : ℕ) (s : State) (mind : Mind) (e : Ended State)
      → run w r task budget version agent fuel s mind ≡ some e
      → e.error ≡ none
      → e.trajectory.reward.reason ≢ changed
      → e.trajectory.reward.reason ≢ exhausted
      → replay enc w r task budget fuel s e.trajectory ≡ some e
  unfolding replay run failed_run
  replay_again enc fuel s mind e h fine kept left = elim (Option-cases (validate_task task)) [
    | inr (f, y) ↦ absurd (cc (rw (y, run) at h, fine))
    | inl y ↦ elim (Result-cases (seal_tree w s task.snapshot)) [
      | inr (f, z) ↦ absurd (cc (rw (y, z, run) at h, fine))
      | inl (sealed, z) ↦
          rw (y, z, run)
            (on_copy_again fuel mind sealed (copy_tree w s task.snapshot (parent w r s)) e
              (rw (y, z, run) at h) fine kept left)
    ]
  ]

  -- The record of a run that ends without an error is verified by Verify, with the same task, budget
  -- and runner, from the state in which the run began: if the run did not end because its test runs
  -- were exhausted, the snapshot did not change during it, and the record can be encoded.
  pub verify-run :
      (enc : Encoder) (fuel : ℕ) (s : State) (mind : Mind) (e : Ended State) (d : Bytes)
      → run w r task budget version agent fuel s mind ≡ some e
      → e.error ≡ none
      → e.trajectory.reward.reason ≢ changed
      → e.trajectory.reward.reason ≢ exhausted
      → digest enc w e.trajectory ≡ ok d
      → verify enc w r task budget fuel s e.trajectory ≡ some none
  unfolding verify verdict compared_digests diverged
  verify-run enc fuel s mind e d h fine kept left encoded =
      rw (replay_again enc fuel s mind e h fine kept left, verify)
        (rw (fine, encoded, bytes_eq_refl d) refl)
