-- ===== src/Runner/Drive.antt =====
-- runner.go, `drive`: an invariant of its loop.
use arandu_attempt.Base.{
  ℕ, zero, suc, ◌+◌, ◌≤◌, ◌≡◌, refl, sym, ◌∙◌, ◌⊎◌, inl, inr, Bool, true, false, ◌&&◌, Option, none,
  some, List, [], ◌∷◌, ◌++◌, Bytes, codes, bytes_eq, All, All-append, length, length-append, arith,
  if-intro, if◌then◌else◌, subst,
}
use arandu_attempt.Base.Int.{ℤ, pos, negsuc}
use arandu_attempt.Base.Result.{Result, ok, err}
use arandu_attempt.Trajectory.{Task, Budget, ToolCall, Observation, Step, Reward, tool_run_tests}
use arandu_attempt.World.{World}
use arandu_attempt.Sandbox.{Sandbox}
use arandu_attempt.Runner.{Action, Agent, Ended, execute, is_spent}
use arandu_attempt.Runner.Rounds.{
  Loop, Round, stop, go, is_over, rewarded, aborted, recorded, perform, finished, acted, decided,
  round, drive,
}

-- A limit that is not positive bounds nothing.
abbrev pub Within : ℤ → ℕ → Type 0
Within (negsuc _) n = Unit
Within (pos zero) n = Unit
Within (pos (suc m)) n = n ≤ suc m

abbrev pub count_tests : List Step → ℕ
count_tests [] = 0
count_tests (st ∷ sts) = (if bytes_eq st.call.tool tool_run_tests then 1 else 0) + count_tests sts

count_tests-append :
    (a : List Step) (st : Step)
    → count_tests (a ++ st ∷ [])
      ≡ count_tests a + (if bytes_eq st.call.tool tool_run_tests then 1 else 0)
count_tests-append [] st = omega arith
count_tests-append (x ∷ a) st = omega (arith, count_tests-append a st)

pub length-append_one : (a : List Step) (st : Step) → length (a ++ st ∷ []) ≡ length a + 1
length-append_one a st = length-append a (st ∷ [])

Within-step : (z : ℤ) (n : ℕ) → is_spent z n ≡ false → Within z (n + 1)
unfolding is_spent
Within-step (negsuc m) n h = tt
Within-step (pos zero) n h = tt
Within-step (pos (suc m)) n h = ground arith

Within-over : (z : ℤ) (n : ℕ) → is_over z n ≡ false → Within z n
unfolding is_over
Within-over (negsuc m) n h = tt
Within-over (pos zero) n h = tt
Within-over (pos (suc m)) n h = ground arith

abbrev pub IsUnrefused : Step → Type 0
IsUnrefused st = st.observation.refused ≡ false

-- No step of the record is refused, or the last one alone is, and then the reward says so and is 0.
abbrev pub Settled : List Step → Reward → Type 0
Settled steps r =
    All IsUnrefused steps
    ⊎ ((before : List Step) × (last : Step) × (steps ≡ before ++ last ∷ [])
        × All IsUnrefused before
        × (last.observation.refused ≡ true)
        × (r.refused ≡ true)
        × (r.score ≡ 0))

module _ (w : World) (agent : Agent) (timeout : ℕ) (task : Task) (budget : Budget)
    (box : Sandbox) where
  open w use {State}
  open agent use {Mind, next}

  abbrev pub InBudget : List Step → Type 0
  InBudget steps =
      Within budget.max_tool_calls (length steps) × Within budget.max_test_runs (count_tests steps)

  abbrev pub LoopInv : Loop State Mind → Type 0
  LoopInv c =
      InBudget c.trajectory.steps
      × (c.test_runs ≡ count_tests c.trajectory.steps)
      × All IsUnrefused c.trajectory.steps

  abbrev pub EndInv : Ended State → Type 0
  EndInv e = InBudget e.trajectory.steps × Settled e.trajectory.steps e.trajectory.reward

  abbrev pub RoundInv : Round State Mind → Type 0
  RoundInv (stop e) = EndInv e
  RoundInv (go c) = LoopInv c

  Within-now :
      (t : Bool) (n : ℕ)
      → Within budget.max_test_runs n
      → (t && is_over budget.max_test_runs (if t then n + 1 else n)) ≡ false
      → Within budget.max_test_runs (if t then n + 1 else n)
  Within-now true n _ h = Within-over budget.max_test_runs (n + 1) h
  Within-now false n h _ = h

  recorded-RoundInv :
      (c : Loop State Mind) (call : ToolCall) (r : State × Observation)
      → Within budget.max_tool_calls (length c.trajectory.steps + 1)
      → Within budget.max_test_runs c.test_runs
      → c.test_runs
        ≡ count_tests c.trajectory.steps + (if bytes_eq call.tool tool_run_tests then 1 else 0)
      → All IsUnrefused c.trajectory.steps
      → RoundInv (recorded w agent timeout task budget box c call r)
  unfolding recorded rewarded
  recorded-RoundInv c call (s, obs) calls tests runs fine =
      let st : Step = record { call = call; observation = obs } in
      let steps = c.trajectory.steps ++ st ∷ [] in
      let n = length-append_one c.trajectory.steps st in
      let k : c.test_runs ≡ count_tests steps =
        runs ∙ sym (count_tests-append c.trajectory.steps st) in
      let b : InBudget steps = (
        subst (Within budget.max_tool_calls) (sym n) calls,
        subst (Within budget.max_test_runs) k tests,
      ) in
      if-intro RoundInv obs.refused _ _
        (λ refusal. (b, inr (c.trajectory.steps, st, refl, fine, refusal, refl, refl)))
        (λ no_refusal.
          (b, k, All-append IsUnrefused c.trajectory.steps (st ∷ []) fine (no_refusal, tt)))

  perform-RoundInv :
      (c : Loop State Mind) (call : ToolCall)
      → LoopInv c
      → is_spent budget.max_tool_calls (length c.trajectory.steps) ≡ false
      → RoundInv (perform w agent timeout task budget box c call)
  unfolding perform rewarded
  perform-RoundInv c call (b, runs, fine) room =
      let calls = Within-step budget.max_tool_calls (length c.trajectory.steps) room in
      let is_test = bytes_eq call.tool tool_run_tests in
      let now = if is_test then c.test_runs + 1 else c.test_runs in
      let counted : now ≡ count_tests c.trajectory.steps + (if is_test then 1 else 0) =
        ground (arith, runs) in
      if-intro RoundInv (is_test && is_over budget.max_test_runs now) _ _ (λ over. (b, inl fine))
        (λ within.
          recorded-RoundInv (record c { test_runs = now }) call
            (execute w timeout task c.state box (length c.trajectory.steps) call) calls
            (Within-now is_test c.test_runs (subst (Within budget.max_test_runs) (sym runs) b.1)
              within)
            counted fine)

  acted-RoundInv :
      (c : Loop State Mind) (a : Action)
      → LoopInv c
      → is_spent budget.max_tool_calls (length c.trajectory.steps) ≡ false
      → RoundInv (acted w agent timeout task budget box c a)
  unfolding acted finished aborted rewarded
  acted-RoundInv c a inv room =
      if-intro RoundInv a.done _ _ (λ _. (inv.0, inl inv.2)) (λ _. acted_call a.call)
    where
      acted_call :
          (call : Option ToolCall)
          → RoundInv (elim call [
            | none ↦
                aborted w agent timeout task budget box c.state c.trajectory
                  (codes "attempt: agent returned neither a call nor done")
            | some call' ↦ perform w agent timeout task budget box c call'
          ])
      acted_call none = (inv.0, inl inv.2)
      acted_call (some call) = perform-RoundInv c call inv room

  decided-RoundInv :
      (c : Loop State Mind) (d : Mind × Result Bytes Action)
      → LoopInv c
      → is_spent budget.max_tool_calls (length c.trajectory.steps) ≡ false
      → RoundInv (decided w agent timeout task budget box c d)
  unfolding decided aborted
  decided-RoundInv c (m, err e) inv room = (inv.0, inl inv.2)
  decided-RoundInv c (m, ok a) inv room = acted-RoundInv (record c { mind = m }) a inv room

  pub round-RoundInv :
      (c : Loop State Mind) → LoopInv c → RoundInv (round w agent timeout task budget box c)
  unfolding round rewarded
  round-RoundInv c inv =
      if-intro RoundInv (is_spent budget.max_tool_calls (length c.trajectory.steps)) _ _
        (λ _. (inv.0, inl inv.2))
        (λ room. decided-RoundInv c (next c.mind c.trajectory.steps) inv room)

  -- What a run of `drive` records, from any state of the loop that respects the budget: at most
  -- as many calls and as many test runs as the budget allows, and no refused call but the last,
  -- whose refusal is then the reward, a score of 0.
  pub drive-EndInv :
      (fuel : ℕ) (c : Loop State Mind) (e : Ended State)
      → LoopInv c
      → drive w agent timeout task budget box fuel c ≡ some e
      → EndInv e
  unfolding drive
  drive-EndInv zero c e inv h = absurd (cc h)
  drive-EndInv (suc fuel) c e inv h =
      go_on (λ c' i eq. drive-EndInv fuel c' e i eq) (round w agent timeout task budget box c)
        (round-RoundInv c inv) h
    where
      go_on :
          ((c' : Loop State Mind)
            → LoopInv c'
            → drive w agent timeout task budget box fuel c' ≡ some e
            → EndInv e)
          → (r : Round State Mind) → RoundInv r
          → elim r [ stop e' ↦ some e' | go c' ↦ drive w agent timeout task budget box fuel c' ]
            ≡ some e
          → EndInv e
      go_on later (stop e') i eq = subst EndInv {x = e'} {y = e} (cc eq) i
      go_on later (go c') i eq = later c' i eq
