-- ===== src/Runner/Rounds.antt =====
-- runner.go, `drive`: the loop, one round at a time.
use arandu_attempt.Base.{
  ℕ, zero, suc, ◌+◌, Bool, true, false, ◌&&◌, Option, none, some, [], ◌∷◌, ◌++◌, length, Bytes,
  codes, bytes_eq, ltb, if◌then◌else◌,
}
use arandu_attempt.Base.Int.{ℤ, pos, negsuc}
use arandu_attempt.Base.Result.{Result, ok, err}
use arandu_attempt.Trajectory.{
  tool_run_tests, Task, Budget, ToolCall, Observation, Reward, Trajectory,
}
use arandu_attempt.World.{World}
use arandu_attempt.Sandbox.{Sandbox}
use arandu_attempt.Runner.{execute, reward, zero_reward, is_spent, Action, Agent, Ended}

-- `budget.MaxTestRuns > 0 && testRuns > budget.MaxTestRuns`.
unfoldable pub is_over : ℤ → ℕ → Bool
is_over (negsuc _) n = false
is_over (pos zero) n = false
is_over (pos (suc m)) n = ltb (suc m) n

-- The variables of the loop of `drive`.
pub record Loop (S M : Type 0) : Type 0 where
  pub state : S
  pub mind : M
  pub test_runs : ℕ
  pub trajectory : Trajectory

-- A round of the loop returns, or goes on.
pub data Round (S M : Type 0) : Type 0 where
  stop : Ended S → Round S M
  go : Loop S M → Round S M

module _ (w : World) (agent : Agent) (timeout : ℕ) (task : Task) (budget : Budget)
    (box : Sandbox) where
  open w use {State}
  open agent use {Mind, next}

  unfoldable pub rewarded : State → Trajectory → Reward → Round State Mind
  rewarded s traj r =
      stop (record { state = s; trajectory = record traj { reward = r }; error = none })

  unfoldable pub aborted : State → Trajectory → Bytes → Round State Mind
  aborted s traj e = stop (record { state = s; trajectory = traj; error = some e })

  -- What follows `r.execute`.
  unfoldable pub recorded : Loop State Mind → ToolCall → State × Observation → Round State Mind
  unfolding rewarded
  recorded c call (s, obs) =
      let steps = c.trajectory.steps ++ record { call = call; observation = obs } ∷ [] in
      let traj = record c.trajectory { steps = steps } in
      if obs.refused
      then rewarded s traj (zero_reward (length steps) (codes "refused: " ++ obs.output) true)
      else go (record c { state = s; trajectory = traj })

  unfoldable pub perform : Loop State Mind → ToolCall → Round State Mind
  unfolding recorded rewarded
  perform c call =
      let is_test = bytes_eq call.tool tool_run_tests in
      let runs = if is_test then c.test_runs + 1 else c.test_runs in
      if is_test && is_over budget.max_test_runs runs
      then rewarded c.state c.trajectory
          (zero_reward (length c.trajectory.steps) (codes "budget: test runs exhausted") false)
      else recorded (record c { test_runs = runs }) call
          (execute w timeout task c.state box (length c.trajectory.steps) call)

  unfoldable pub finished : Trajectory → State × Reward → Round State Mind
  unfolding rewarded
  finished traj (s, r) = rewarded s traj r

  unfoldable pub acted : Loop State Mind → Action → Round State Mind
  unfolding perform finished aborted
  acted c a =
      if a.done
      then (let traj = record c.trajectory { final = a.final; claims = a.claims } in
          finished traj (reward w timeout task c.state box traj.steps traj.claims))
      else elim a.call [
        | none ↦
            aborted c.state c.trajectory (codes "attempt: agent returned neither a call nor done")
        | some call ↦ perform c call
      ]

  unfoldable pub decided : Loop State Mind → Mind × Result Bytes Action → Round State Mind
  unfolding acted aborted
  decided c (m, err e) = aborted c.state c.trajectory e
  decided c (m, ok a) = acted (record c { mind = m }) a

  -- One round of the loop of `drive`.
  unfoldable pub round : Loop State Mind → Round State Mind
  unfolding decided rewarded
  round c =
      if is_spent budget.max_tool_calls (length c.trajectory.steps)
      then rewarded c.state c.trajectory
          (zero_reward (length c.trajectory.steps) (codes "budget: tool calls exhausted") false)
      else decided c (next c.mind c.trajectory.steps)

  -- The loop; `none` says that the fuel ran out.
  unfoldable pub drive : ℕ → Loop State Mind → Option (Ended State)
  drive zero c = none
  drive (suc fuel) c = elim (round c) [ stop e ↦ some e | go c' ↦ drive fuel c' ]
