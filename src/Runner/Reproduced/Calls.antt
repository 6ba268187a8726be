-- ===== src/Runner/Reproduced/Calls.antt =====
-- runner.go, `drive`: lemmas on one round, and on what it reads of the agent.
use arandu_attempt.Base.{
  get_elem?-length, ◌≢◌, arith, ◌∙◌, ap, ℕ, suc, ◌+◌, ◌≡◌, refl, ◌⊎◌, inl, inr, ◌&&◌, Option, none,
  some, List, [], ◌∷◌, ◌++◌, length, get_elem?, bytes_eq, false, if◌then◌else◌, if-intro,
  Bool-cases,
}
use arandu_attempt.Trajectory.{
  tool_run_tests, Task, Budget, ToolCall, Observation, Step, Trajectory,
}
use arandu_attempt.Runner.Reproduced.Reasons.{exhausted, byte_at}
use arandu_attempt.World.{World}
use arandu_attempt.Sandbox.{Sandbox}
use arandu_attempt.Runner.{Agent, Ended, execute, is_spent, reward}
use arandu_attempt.Runner.Rounds.{
  Loop, Round, stop, go, is_over, decided, acted, finished, rewarded, recorded, perform, round,
  drive,
}
use arandu_attempt.Runner.Replays.{Script, scripted, next_call, next_action, recorded_script}

pub get_elem?-end : (l : List Step) → get_elem? l (length l) ≡ none
get_elem?-end [] = refl
get_elem?-end (x ∷ l) = get_elem?-end l

-- A replay does not end because no test run is left, and it ends as the run did if that did not.
abbrev pub Outcome : {S : Type 0} → Ended S → Ended S → Type 0
Outcome e e' =
    (e'.trajectory.reward.reason ≢ exhausted)
    × ((e' ≡ e) ⊎ (e.trajectory.reward.reason ≡ exhausted))

-- The loop and its rounds, with another mind.
abbrev pub without_mind : {S M : Type 0} → Loop S M → Loop S (Unit {0})
without_mind c = record {
  state = c.state;
  mind = tt;
  test_runs = c.test_runs;
  trajectory = c.trajectory;
}

abbrev pub mindless : {S M : Type 0} → Round S M → Round S (Unit {0})
mindless (stop e) = stop e
mindless (go c) = go (without_mind c)

-- What a round leads to: an end, or what follows.
abbrev pub after : {S M : Type 0} → (Loop S M → Option (Ended S)) → Round S M → Option (Ended S)
after next (stop e) = some e
after next (go c) = next c

module _ (w : World) (agent : Agent) (time : ℕ) (task : Task) (budget : Budget)
    (box : Sandbox) where
  pub drive_step :
      (fuel : ℕ) (c : Loop w.State agent.Mind)
      → drive w agent time task budget box (suc fuel) c
        ≡ after (drive w agent time task budget box fuel) (round w agent time task budget box c)
  unfolding drive
  drive_step fuel c = by_round (round w agent time task budget box c)
    where
      by_round :
          (r : Round w.State agent.Mind)
          → elim r [ stop e ↦ some e | go c' ↦ drive w agent time task budget box fuel c' ]
            ≡ after (drive w agent time task budget box fuel) r
      by_round (stop e) = refl
      by_round (go c') = refl

module _ (w : World) (agent : Agent) (time : ℕ) (task : Task) (budget : Budget)
    (box : Sandbox) where
  open w use {State}
  open agent use {Mind}

  -- What a round that makes a call does to a record: it adds a step with the call, or ends because
  -- no test run is left.
  abbrev pub Added : Trajectory → ToolCall → Trajectory → Type 0
  Added t call u =
      (st : Step) × (st.call ≡ call)
      × (u.steps ≡ t.steps ++ st ∷ [])
      × (u.policy_version ≡ t.policy_version)

  abbrev pub Grown : Trajectory → ToolCall → Round State Mind → Type 0
  Grown t call (stop e) =
      ((e.trajectory.reward.reason ≡ exhausted)
        × (e.trajectory.steps ≡ t.steps)
        × (e.trajectory.policy_version ≡ t.policy_version))
      ⊎ ((e.trajectory.reward.reason ≢ exhausted) × Added t call e.trajectory)
  Grown t call (go c) = Added t call c.trajectory

  recorded-Grown :
      (c : Loop State Mind) (call : ToolCall) (r : State × Observation)
      → Grown c.trajectory call (recorded w agent time task budget box c call r)
  unfolding recorded rewarded
  recorded-Grown c call (s, obs) =
      if-intro (Grown c.trajectory call) obs.refused _ _
        (λ _. inr (
          λ h. omega (arith, ap (byte_at 0) h),
          (record { call = call; observation = obs }, refl, refl, refl),
        ))
        (λ _. (record { call = call; observation = obs }, refl, refl, refl))

  pub perform-Grown :
      (c : Loop State Mind) (call : ToolCall)
      → Grown c.trajectory call (perform w agent time task budget box c call)
  unfolding perform rewarded
  perform-Grown c call =
      let is_test = bytes_eq call.tool tool_run_tests in
      let runs = if is_test then c.test_runs + 1 else c.test_runs in
      if-intro (Grown c.trajectory call) (is_test && is_over budget.max_test_runs runs) _ _
        (λ _. inl (refl, refl, refl))
        (λ _.
          recorded-Grown (record c { test_runs = runs }) call
            (execute w time task c.state box (length c.trajectory.steps) call))

  module _ (script : Script) where
    abbrev player : Agent
    player = scripted script

    -- Neither a call nor the end of a run reads the mind.
    recorded-mindless :
        (c : Loop State Mind) (call : ToolCall) (r : State × Observation)
        → recorded w player time task budget box (without_mind c) call r
          ≡ mindless (recorded w agent time task budget box c call r)
    unfolding recorded rewarded
    recorded-mindless c call (s, obs) = elim (Bool-cases obs.refused) [
      | inl y ↦ rw y refl
      | inr n ↦ rw n refl
    ]

    pub perform-mindless :
        (c : Loop State Mind) (call : ToolCall)
        → perform w player time task budget box (without_mind c) call
          ≡ mindless (perform w agent time task budget box c call)
    unfolding perform rewarded
    perform-mindless c call =
        let is_test = bytes_eq call.tool tool_run_tests in
        let runs = if is_test then c.test_runs + 1 else c.test_runs in
        elim (Bool-cases (is_test && is_over budget.max_test_runs runs)) [
          | inl y ↦ rw y refl
          | inr n ↦ rw n (
              recorded-mindless (record c { test_runs = runs }) call
                (execute w time task c.state box (length c.trajectory.steps) call))
        ]

  -- A replay of a record, from a loop whose steps the record begins with.
  module _ (t : Trajectory) where
    abbrev replayer : Agent
    replayer = scripted (recorded_script t)

    abbrev IsUnspent : Loop State Mind → Type 0
    IsUnspent c = is_spent budget.max_tool_calls (length c.trajectory.steps) ≡ false

    round_call :
        (c : Loop State Mind) (o : Option Step) (st : Step)
        → IsUnspent c
        → get_elem? t.steps (length c.trajectory.steps) ≡ o
        → o ≡ some st
        → round w replayer time task budget box (without_mind c)
          ≡ perform w replayer time task budget box (without_mind c) st.call
    unfolding round decided acted next_action next_call
    round_call c o st unspent found some_step = rw (unspent, found, some_step) refl

    -- With no step left it finishes.
    pub round_end :
        (c : Loop State Mind)
        → IsUnspent c
        → get_elem? t.steps (length c.trajectory.steps) ≡ none
        → round w replayer time task budget box (without_mind c)
          ≡ finished w replayer time task budget box
              (record c.trajectory { final = t.final; claims = t.claims })
              (reward w time task c.state box c.trajectory.steps t.claims)
    unfolding round decided acted next_action next_call
    round_end c unspent found = rw (unspent, found) refl

    -- With one, it makes the call of that step, as the recorded agent did.
    pub call_step :
        (fuel : ℕ) (c : Loop State Mind) (st : Step) (more : List Step)
        → IsUnspent c
        → t.steps ≡ c.trajectory.steps ++ st ∷ more
        → drive w replayer time task budget box (suc fuel) (without_mind c)
          ≡ after
              (drive w replayer time task budget box fuel)
              (mindless (perform w agent time task budget box c st.call))
    call_step fuel c st more unspent steps =
        let found : get_elem? t.steps (length c.trajectory.steps) ≡ some st =
          rw steps (get_elem?-length c.trajectory.steps st more) in
        drive_step w replayer time task budget box fuel (without_mind c)
        ∙ ap (after (drive w replayer time task budget box fuel)) (
            round_call c (some st) st unspent found refl
            ∙ perform-mindless (recorded_script t) c st.call)
