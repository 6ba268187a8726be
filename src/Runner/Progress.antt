-- ===== src/Runner/Progress.antt =====
-- runner.go, `drive`: lemmas on its termination.
use arandu_attempt.Base.{
  ℕ, zero, suc, ◌+◌, ◌≤◌, ◌<◌, ◌≡◌, refl, false, ◌&&◌, Option, none, some, Bytes, codes, bytes_eq,
  length, arith, if-intro, if◌then◌else◌, subst,
}
use arandu_attempt.Base.Int.{pos}
use arandu_attempt.Base.Result.{Result, ok, err}
use arandu_attempt.Trajectory.{Task, Budget, ToolCall, Observation, tool_run_tests}
use arandu_attempt.World.{World}
use arandu_attempt.Sandbox.{Sandbox}
use arandu_attempt.Runner.{Action, Agent, Ended, execute, zero_reward, is_spent}
use arandu_attempt.Runner.Rounds.{
  Loop, Round, stop, go, is_over, rewarded, aborted, recorded, perform, finished, acted, decided,
  round, drive,
}
use arandu_attempt.Runner.Drive.{LoopInv, RoundInv, round-RoundInv, Within, length-append_one}

module _ (w : World) (agent : Agent) (timeout : ℕ) (task : Task) (budget : Budget)
    (box : Sandbox) where
  open w use {State}
  open agent use {Mind, next}

  -- A round that goes on has recorded one call more.
  abbrev Grown : ℕ → Round State Mind → Type 0
  Grown n (stop e) = Unit
  Grown n (go c) = length c.trajectory.steps ≡ n + 1

  recorded-Grown :
      (c : Loop State Mind) (call : ToolCall) (r : State × Observation)
      → Grown (length c.trajectory.steps) (recorded w agent timeout task budget box c call r)
  unfolding recorded rewarded
  recorded-Grown c call (s, obs) =
      if-intro (Grown (length c.trajectory.steps)) obs.refused _ _ (λ _. tt)
        (λ _. length-append_one c.trajectory.steps (record { call = call; observation = obs }))

  perform-Grown :
      (c : Loop State Mind) (call : ToolCall)
      → Grown (length c.trajectory.steps) (perform w agent timeout task budget box c call)
  unfolding perform rewarded
  perform-Grown c call =
      let is_test = bytes_eq call.tool tool_run_tests in
      let now = if is_test then c.test_runs + 1 else c.test_runs in
      if-intro (Grown (length c.trajectory.steps)) (is_test && is_over budget.max_test_runs now)
        (rewarded w agent timeout task budget box c.state c.trajectory
          (zero_reward (length c.trajectory.steps) (codes "budget: test runs exhausted") false))
        (recorded w agent timeout task budget box (record c { test_runs = now }) call
          (execute w timeout task c.state box (length c.trajectory.steps) call))
        (λ _. tt)
        (λ _.
          recorded-Grown (record c { test_runs = now }) call
            (execute w timeout task c.state box (length c.trajectory.steps) call))

  acted-Grown :
      (c : Loop State Mind) (a : Action)
      → Grown (length c.trajectory.steps) (acted w agent timeout task budget box c a)
  unfolding acted finished aborted rewarded
  acted-Grown c a =
      if-intro (Grown (length c.trajectory.steps)) a.done _ _ (λ _. tt) (λ _. acted_call a.call)
    where
      acted_call :
          (call : Option ToolCall)
          → Grown (length c.trajectory.steps) (elim call [
            | none ↦
                aborted w agent timeout task budget box c.state c.trajectory
                  (codes "attempt: agent returned neither a call nor done")
            | some call' ↦ perform w agent timeout task budget box c call'
          ])
      acted_call none = tt
      acted_call (some call) = perform-Grown c call

  decided-Grown :
      (c : Loop State Mind) (d : Mind × Result Bytes Action)
      → Grown (length c.trajectory.steps) (decided w agent timeout task budget box c d)
  unfolding decided aborted
  decided-Grown c (m, err e) = tt
  decided-Grown c (m, ok a) = acted-Grown (record c { mind = m }) a

  round-Grown :
      (c : Loop State Mind)
      → Grown (length c.trajectory.steps) (round w agent timeout task budget box c)
  unfolding round rewarded
  round-Grown c =
      if-intro (Grown (length c.trajectory.steps))
        (is_spent budget.max_tool_calls (length c.trajectory.steps))
        (rewarded w agent timeout task budget box c.state c.trajectory
          (zero_reward (length c.trajectory.steps) (codes "budget: tool calls exhausted") false))
        (decided w agent timeout task budget box c (next c.mind c.trajectory.steps)) (λ _. tt)
        (λ _. decided-Grown c (next c.mind c.trajectory.steps))

  -- Under a positive limit on calls `drive` ends: from a state that respects the budget, fuel for
  -- one round more than the calls that are left is enough, whatever the agent and the world do.
  pub drive_total :
      (m fuel : ℕ) (c : Loop State Mind)
      → budget.max_tool_calls ≡ pos (suc m)
      → LoopInv w agent timeout task budget box c
      → suc m < fuel + length c.trajectory.steps
      → (e : Ended State) × (drive w agent timeout task budget box fuel c ≡ some e)
  unfolding drive
  drive_total m zero c limit inv h =
      let bound : length c.trajectory.steps ≤ suc m =
        subst (λ z. Within z (length c.trajectory.steps)) limit inv.0.0 in
      absurd (omega arith)
  drive_total m (suc fuel) c limit inv h =
      go_on (λ c' i k. drive_total m fuel c' limit i k) (round w agent timeout task budget box c)
        (round-RoundInv w agent timeout task budget box c inv) (round-Grown c)
    where
      go_on :
          ((c' : Loop State Mind)
            → LoopInv w agent timeout task budget box c'
            → suc m < fuel + length c'.trajectory.steps
            → (e : Ended State) × (drive w agent timeout task budget box fuel c' ≡ some e))
          → (r : Round State Mind) → RoundInv w agent timeout task budget box r
          → Grown (length c.trajectory.steps) r
          → (e : Ended State) × (elim r [
            | stop e' ↦ some e'
            | go c' ↦ drive w agent timeout task budget box fuel c'
          ]
              ≡ some e)
      go_on later (stop e) i g = (e, refl)
      go_on later (go c') i g = later c' i (omega arith)
