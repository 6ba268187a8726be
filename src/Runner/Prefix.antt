-- ===== src/Runner/Prefix.antt =====
-- runner.go, `scripted`: lemmas on the calls of a replay.
use arandu_attempt.Base.{
  ℕ, zero, suc, ◌+◌, ◌≡◌, refl, sym, ap, subst, ◌∙◌, ◌&&◌, Option, none, some, List, [], ◌∷◌, ◌++◌,
  bytes_eq, length, take, get_elem?, if◌then◌else◌, if-intro,
}
use arandu_attempt.Trajectory.{
  Task, Budget, ToolCall, Observation, Step, Trajectory, tool_run_tests,
}
use arandu_attempt.World.{World}
use arandu_attempt.Sandbox.{Sandbox}
use arandu_attempt.Runner.{Agent, Ended, execute, is_spent}
use arandu_attempt.Runner.Rounds.{
  Loop, Round, stop, go, is_over, rewarded, recorded, perform, finished, acted, decided, round,
  drive,
}
use arandu_attempt.Runner.Replays.{next_call, step_call, next_action, scripted, recorded_script}

abbrev pub calls : List Step → List ToolCall
calls [] = []
calls (st ∷ sts) = st.call ∷ calls sts

-- The calls of the steps are the first calls of a record.
abbrev pub FollowsFrom : List Step → List Step → Type 0
FollowsFrom script steps = calls steps ≡ take (length steps) (calls script)

calls-append : (a : List Step) (st : Step) → calls (a ++ st ∷ []) ≡ calls a ++ st.call ∷ []
calls-append [] st = refl
calls-append (x ∷ a) st = ap (λ l. x.call ∷ l) (calls-append a st)

take-get :
    (script : List Step) (n : ℕ) (st : Step)
    → get_elem? script n ≡ some st
    → take n (calls script) ++ st.call ∷ [] ≡ take (suc n) (calls script)
take-get [] n st h = absurd (cc h)
take-get (x ∷ script) zero st h = let e : x ≡ st = cc h in ap (λ (k : Step). k.call ∷ []) (sym e)
take-get (x ∷ script) (suc n) st h = ap (λ l. x.call ∷ l) (take-get script n st h)

length-snoc : (a : List Step) (st : Step) → length (a ++ st ∷ []) ≡ suc (length a)
length-snoc [] st = refl
length-snoc (x ∷ a) st = ap suc (length-snoc a st)

FollowsFrom-append :
    (script steps : List Step) (st found : Step)
    → FollowsFrom script steps
    → get_elem? script (length steps) ≡ some found
    → st.call ≡ found.call
    → FollowsFrom script (steps ++ st ∷ [])
FollowsFrom-append script steps st found h g same =
    calls-append steps st
    ∙ ap (λ c. calls steps ++ c ∷ []) same
    ∙ ap (λ l. l ++ found.call ∷ []) h
    ∙ take-get script (length steps) found g
    ∙ ap (λ n. take n (calls script)) (sym (length-snoc steps st))

module _ (w : World) (t : Trajectory) (time : ℕ) (task : Task) (budget : Budget)
    (box : Sandbox) where
  open w use {State}

  abbrev replayer : Agent
  replayer = scripted (recorded_script t)

  abbrev Follows : List Step → Type 0
  Follows steps = FollowsFrom t.steps steps

  abbrev RoundFollows : Round State replayer.Mind → Type 0
  RoundFollows (stop e) = Follows e.trajectory.steps
  RoundFollows (go c) = Follows c.trajectory.steps

  recorded-Follows :
      (c : Loop State replayer.Mind) (call : ToolCall) (found : Step) (r : State × Observation)
      → Follows c.trajectory.steps
      → get_elem? t.steps (length c.trajectory.steps) ≡ some found
      → call ≡ found.call
      → RoundFollows (recorded w replayer time task budget box c call r)
  unfolding recorded rewarded
  recorded-Follows c call found (s, obs) h g same =
      let longer =
        FollowsFrom-append t.steps c.trajectory.steps (record { call = call; observation = obs })
          found h g same in
      if-intro RoundFollows obs.refused _ _ (λ _. longer) (λ _. longer)

  perform-Follows :
      (c : Loop State replayer.Mind) (found : Step)
      → Follows c.trajectory.steps
      → get_elem? t.steps (length c.trajectory.steps) ≡ some found
      → RoundFollows (perform w replayer time task budget box c found.call)
  unfolding perform rewarded
  perform-Follows c found h g =
      let is_test = bytes_eq found.call.tool tool_run_tests in
      let now = if is_test then c.test_runs + 1 else c.test_runs in
      if-intro RoundFollows (is_test && is_over budget.max_test_runs now) _ _ (λ _. h)
        (λ _.
          recorded-Follows (record c { test_runs = now }) found.call found
            (execute w time task c.state box (length c.trajectory.steps) found.call) h g refl)

  acted-Follows :
      (c : Loop State replayer.Mind) (o : Option Step)
      → Follows c.trajectory.steps
      → get_elem? t.steps (length c.trajectory.steps) ≡ o
      → RoundFollows
          (acted w replayer time task budget box c (next_call (recorded_script t) (step_call o)))
  unfolding acted finished rewarded next_call
  acted-Follows c none h g = h
  acted-Follows c (some found) h g = perform-Follows c found h g

  round-Follows :
      (c : Loop State replayer.Mind)
      → Follows c.trajectory.steps
      → RoundFollows (round w replayer time task budget box c)
  unfolding round decided rewarded next_action
  round-Follows c h =
      if-intro RoundFollows (is_spent budget.max_tool_calls (length c.trajectory.steps)) _ _
        (λ _. h) (λ _. acted-Follows c (get_elem? t.steps (length c.trajectory.steps)) h refl)

  -- When `drive` is given the script of a record, the calls of the steps that it records are the
  -- first calls of that record, one for each step: a replay makes no other call and skips none.
  pub drive-Follows :
      (fuel : ℕ) (c : Loop State (scripted (recorded_script t)).Mind) (e : Ended State)
      → FollowsFrom t.steps c.trajectory.steps
      → drive w (scripted (recorded_script t)) time task budget box fuel c ≡ some e
      → FollowsFrom t.steps e.trajectory.steps
  unfolding drive
  drive-Follows zero c e inv h = absurd (cc h)
  drive-Follows (suc fuel) c e inv h =
      go_on (λ c' i eq. drive-Follows fuel c' e i eq) (round w replayer time task budget box c)
        (round-Follows c inv) h
    where
      go_on :
          ((c' : Loop State replayer.Mind)
            → Follows c'.trajectory.steps
            → drive w replayer time task budget box fuel c' ≡ some e
            → Follows e.trajectory.steps)
          → (r : Round State replayer.Mind) → RoundFollows r
          → elim r [ stop e' ↦ some e' | go c' ↦ drive w replayer time task budget box fuel c' ]
            ≡ some e
          → Follows e.trajectory.steps
      go_on later (stop e') i eq =
          subst (λ k. Follows k.trajectory.steps) {x = e'} {y = e} (cc eq) i
      go_on later (go c') i eq = later c' i eq
