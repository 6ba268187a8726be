-- ===== src/Runner/Scores.antt =====
-- runner.go, `drive`: lemmas on the score of a record.
use arandu_attempt.Base.{
  ℕ, zero, suc, ◌+◌, ◌≡◌, subst, ◌&&◌, Option, none, some, Bytes, codes, bytes_eq, length, arith,
  if◌then◌else◌, if-intro,
}
use arandu_attempt.Base.Result.{Result, ok, err}
use arandu_attempt.Trajectory.{Task, Budget, ToolCall, Observation, tool_run_tests}
use arandu_attempt.World.{World}
use arandu_attempt.Sandbox.{Sandbox}
use arandu_attempt.Runner.{Action, Agent, Ended, execute, is_spent}
use arandu_attempt.Runner.Rounds.{
  Loop, Round, stop, go, is_over, rewarded, aborted, recorded, perform, finished, acted, decided,
  round, drive,
}
use arandu_attempt.Runner.Rewards.{Earned, reward_iff}

module _ (w : World) (agent : Agent) (time : ℕ) (task : Task) (budget : Budget)
    (box : Sandbox) where
  open w use {State}
  open agent use {Mind, next}

  -- A record that ends without an error and with a score of 1 was judged in a state in which the
  -- score is earned.
  abbrev pub Scored : Ended State → Type 0
  Scored e =
      e.error ≡ none
      → e.trajectory.reward.score ≡ 1
      → (s : State) × Earned w time task s box e.trajectory.steps e.trajectory.claims

  abbrev RoundScored : Round State Mind → Type 0
  RoundScored (stop e) = Scored e
  RoundScored (go c) = Unit

  recorded-Scored :
      (c : Loop State Mind) (call : ToolCall) (r : State × Observation)
      → RoundScored (recorded w agent time task budget box c call r)
  unfolding recorded rewarded
  recorded-Scored c call (s, obs) =
      if-intro RoundScored obs.refused _ _ (λ _ _ h. absurd (omega (arith, h))) (λ _. tt)

  perform-Scored :
      (c : Loop State Mind) (call : ToolCall)
      → RoundScored (perform w agent time task budget box c call)
  unfolding perform rewarded
  perform-Scored c call =
      let is_test = bytes_eq call.tool tool_run_tests in
      let now = if is_test then c.test_runs + 1 else c.test_runs in
      if-intro RoundScored (is_test && is_over budget.max_test_runs now) _ _
        (λ _ _ h. absurd (omega (arith, h)))
        (λ _.
          recorded-Scored (record c { test_runs = now }) call
            (execute w time task c.state box (length c.trajectory.steps) call))

  acted-Scored :
      (c : Loop State Mind) (a : Action) → RoundScored (acted w agent time task budget box c a)
  unfolding acted finished aborted rewarded
  acted-Scored c a =
      if-intro RoundScored a.done _ _
        (λ _ _ h. (c.state, (reward_iff w time task c.state box c.trajectory.steps a.claims).0 h))
        (λ _. acted_call a.call)
    where
      acted_call :
          (call : Option ToolCall)
          → RoundScored (elim call [
            | none ↦
                aborted w agent time task budget box c.state c.trajectory
                  (codes "attempt: agent returned neither a call nor done")
            | some call' ↦ perform w agent time task budget box c call'
          ])
      acted_call none = λ e _. absurd (cc e)
      acted_call (some call) = perform-Scored c call

  decided-Scored :
      (c : Loop State Mind) (d : Mind × Result Bytes Action)
      → RoundScored (decided w agent time task budget box c d)
  unfolding decided aborted
  decided-Scored c (m, err e) = λ h _. absurd (cc h)
  decided-Scored c (m, ok a) = acted-Scored (record c { mind = m }) a

  round-Scored : (c : Loop State Mind) → RoundScored (round w agent time task budget box c)
  unfolding round rewarded
  round-Scored c =
      if-intro RoundScored (is_spent budget.max_tool_calls (length c.trajectory.steps)) _ _
        (λ _ _ h. absurd (omega (arith, h)))
        (λ _. decided-Scored c (next c.mind c.trajectory.steps))

  pub drive-Scored :
      (fuel : ℕ) (c : Loop State Mind) (e : Ended State)
      → drive w agent time task budget box fuel c ≡ some e
      → Scored e
  unfolding drive
  drive-Scored zero c e h = absurd (cc h)
  drive-Scored (suc fuel) c e h =
      go_on (λ c' eq. drive-Scored fuel c' e eq) (round w agent time task budget box c)
        (round-Scored c) h
    where
      go_on :
          ((c' : Loop State Mind) → drive w agent time task budget box fuel c' ≡ some e → Scored e)
          → (r : Round State Mind) → RoundScored r
          → elim r [ stop e' ↦ some e' | go c' ↦ drive w agent time task budget box fuel c' ]
            ≡ some e
          → Scored e
      go_on later (stop e') i eq = subst Scored {x = e'} {y = e} (cc eq) i
      go_on later (go c') i eq = later c' eq
