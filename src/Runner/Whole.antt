-- ===== src/Runner/Whole.antt =====
-- runner.go, `Run`: lemmas on a whole attempt.
use arandu_attempt.Base.{
  ℕ, zero, suc, ◌<◌, ◌≡◌, refl, sym, ap, subst, ◌∙◌, inl, inr, Option, none, some, Bytes, bytes_eq,
  bytes_eq_iff, arith, Bool-cases, Option-cases,
}
use arandu_attempt.Base.Int.{ℤ, pos, negsuc}
use arandu_attempt.Base.Result.{Result, ok, err, Result-cases}
use arandu_attempt.Trajectory.{Task, Budget, Trajectory}
use arandu_attempt.World.{World}
use arandu_attempt.Sandbox.{Sandbox, new_sandbox}
use arandu_attempt.Runner.{Agent, Ended}
use arandu_attempt.Runner.Rounds.{drive}
use arandu_attempt.Runner.Rewards.{Earned}
use arandu_attempt.Runner.Drive.{LoopInv, Within}
use arandu_attempt.Runner.Progress.{drive_total}
use arandu_attempt.Runner.Scores.{Scored, drive-Scored}
use arandu_attempt.Runner.Runs.{
  Runner, timeout, validate_task, seal_tree, copy_tree, parent, compared, removed, ending, begin,
  on_copy, failed_run, run,
}

module _ (w : World) (r : Runner) (task : Task) (budget : Budget) (version : Bytes)
    (agent : Agent) where
  open w use {State, remove_all}
  open agent use {Mind}

  -- A score of 1 is earned on a copy of a snapshot that is, at the end, the one that was sealed.
  pub record Delivered (s : State) (e : Ended State) : Type 0 where
    pub sealed : Bytes
    pub before : seal_tree w s task.snapshot ≡ ok sealed
    pub root : Bytes
    pub copied_to : (copy_tree w s task.snapshot (parent w r s)).1 ≡ ok root
    pub box : Sandbox
    pub boxed :
        new_sandbox w
          (copy_tree w s task.snapshot (parent w r s)).0
          root
          task.allowed_files
          r.reserved
        ≡ ok box
    pub judged_in : State
    pub earned : Earned w (timeout r) task judged_in box e.trajectory.steps e.trajectory.claims
    pub last : State
    pub after : seal_tree w last task.snapshot ≡ ok sealed
    pub cleaned : e.state ≡ remove_all last root

  abbrev ended : State → Trajectory → Option Bytes → Ended State
  ended s t o = record { state = s; trajectory = t; error = o }

  compared_one :
      (sealed : Bytes) (s : State) (t : Trajectory) (o : Option Bytes)
      → (compared w r task budget version agent sealed (ended s t o)).error ≡ none
      → (compared w r task budget version agent sealed (ended s t o)).trajectory.reward.score ≡ 1
      → (compared w r task budget version agent sealed (ended s t o) ≡ ended s t o)
        × (o ≡ none)
        × (seal_tree w s task.snapshot ≡ ok sealed)
  unfolding compared
  compared_one sealed s t (some f) fine one = absurd (cc fine)
  compared_one sealed s t none fine one = elim (Result-cases (seal_tree w s task.snapshot)) [
    | inr (f, z) ↦ absurd (cc (rw (z, compared) at fine))
    | inl (after, z) ↦ elim (Bool-cases (bytes_eq after sealed)) [
      | inl same ↦
          (rw (z, same, compared) refl, refl, z ∙ ap ok ((bytes_eq_iff after sealed).0 same))
      | inr changed ↦ absurd (omega (arith, rw (z, changed, compared) at one))
    ]
  ]

  -- What is left of `Run` when the sandbox is there.
  ending_one :
      (root sealed : Bytes) (box : Sandbox) (o : Option (Ended State)) (e : Ended State)
      → ((e' : Ended State) → o ≡ some e' → Scored w agent (timeout r) task budget box e')
      → ending w r task budget version agent root sealed o ≡ some e
      → e.error ≡ none
      → e.trajectory.reward.score ≡ 1
      → (judged_in : State) × (last : State) × Earned w
          (timeout r)
          task
          judged_in
          box
          e.trajectory.steps
          e.trajectory.claims
        × (seal_tree w last task.snapshot ≡ ok sealed)
        × (e.state ≡ remove_all last root)
  unfolding ending
  ending_one root sealed box none e later h fine one = absurd (cc h)
  ending_one root sealed box (some e') e later h fine one =
      let c = compared w r task budget version agent sealed e' in
      let is_e : record c { state = remove_all c.state root } ≡ e = cc h in
      let (same, no_error, after) =
        compared_one sealed e'.state e'.trajectory e'.error (ap (λ k. k.error) is_e ∙ fine)
          (ap (λ k. k.trajectory.reward.score) is_e ∙ one) in
      let is_e' : record e' { state = remove_all e'.state root } ≡ e =
        ap (removed w r task budget version agent root) (sym same) ∙ is_e in
      let (s, earned) = later e' refl no_error (ap (λ k. k.trajectory.reward.score) is_e' ∙ one) in
      (
        s,
        e'.state,
        subst (λ k. Earned w (timeout r) task s box k.trajectory.steps k.trajectory.claims) is_e'
            earned,
        after,
        sym (ap (λ k. k.state) is_e'),
      )

  on_copy_one :
      (fuel : ℕ) (mind : Mind) (s : State) (sealed : Bytes) (copy : State × Result Bytes Bytes)
      (e : Ended State)
      → on_copy w r task budget version agent fuel mind sealed copy ≡ some e
      → e.error ≡ none
      → e.trajectory.reward.score ≡ 1
      → seal_tree w s task.snapshot ≡ ok sealed
      → copy ≡ copy_tree w s task.snapshot (parent w r s)
      → Delivered s e
  unfolding on_copy failed_run
  on_copy_one fuel mind s sealed (s₁, err f) e h fine one before is_copy = absurd (cc (h, fine))
  on_copy_one fuel mind s sealed (s₁, ok root) e h fine one before is_copy =
      elim (Result-cases (new_sandbox w s₁ root task.allowed_files r.reserved)) [
        | inr (f, y) ↦ absurd (cc (rw (y, on_copy) at h, fine))
        | inl (box, y) ↦
            let o =
              drive w agent (timeout r) task budget box fuel
                (begin w r task budget version agent s₁ mind) in
            let (judged_in, last, earned, after, cleaned) =
              ending_one root sealed box o e
                (λ e' eq.
                  drive-Scored w agent (timeout r) task budget box fuel
                    (begin w r task budget version agent s₁ mind) e' eq)
                (rw (y, on_copy) at h) fine one in
            record {
              sealed = sealed;
              before = before;
              root = root;
              copied_to = sym (ap (λ p. p.1) is_copy);
              box = box;
              boxed =
                  subst (λ p. new_sandbox w p.0 root task.allowed_files r.reserved ≡ ok box) is_copy
                    y;
              judged_in = judged_in;
              earned = earned;
              last = last;
              after = after;
              cleaned = cleaned;
            }
      ]

  -- A run that ends without an error and with a score of 1 was made on a copy of the snapshot, in a
  -- sandbox with the reserved subtrees sealed; it was judged in a state in which the score is earned;
  -- the snapshot has at the end the digest that it had at the start, and the copy is removed.
  pub run-Delivered :
      (fuel : ℕ) (s : State) (mind : Mind) (e : Ended State)
      → run w r task budget version agent fuel s mind ≡ some e
      → e.error ≡ none
      → e.trajectory.reward.score ≡ 1
      → Delivered s e
  unfolding run failed_run
  run-Delivered fuel s mind e h fine one = elim (Option-cases (validate_task task)) [
    | inr (f, y) ↦ absurd (cc (rw (y, run) at h, fine))
    | inl y ↦ elim (Result-cases (seal_tree w s task.snapshot)) [
      | inr (f, z) ↦ absurd (cc (rw (y, z, run) at h, fine))
      | inl (sealed, z) ↦
          on_copy_one fuel mind s sealed (copy_tree w s task.snapshot (parent w r s)) e
            (rw (y, z, run) at h) fine one z refl
    ]
  ]

  Within-zero : (z : ℤ) → Within z 0
  Within-zero (negsuc n) = tt
  Within-zero (pos zero) = tt
  Within-zero (pos (suc n)) = omega arith

  ending_total :
      (root sealed : Bytes) (o : Option (Ended State))
      → (e : Ended State) × (o ≡ some e)
      → (e : Ended State) × (ending w r task budget version agent root sealed o ≡ some e)
  unfolding ending
  ending_total root sealed none (e, h) = absurd (cc h)
  ending_total root sealed (some e') h = (_, refl)

  on_copy_total :
      (m fuel : ℕ) (mind : Mind) (sealed : Bytes)
      → budget.max_tool_calls ≡ pos (suc m)
      → suc m < fuel
      → (copy : State × Result Bytes Bytes)
      → (e : Ended State) × (on_copy w r task budget version agent fuel mind sealed copy ≡ some e)
  unfolding on_copy
  on_copy_total m fuel mind sealed limit enough (s₁, err f) = (_, refl)
  on_copy_total m fuel mind sealed limit enough (s₁, ok root) =
      elim (Result-cases (new_sandbox w s₁ root task.allowed_files r.reserved)) [
        | inr (f, y) ↦ rw (y, on_copy) (_, refl)
        | inl (box, y) ↦
            let c = begin w r task budget version agent s₁ mind in
            let inv : LoopInv w agent (timeout r) task budget box c =
              ((Within-zero budget.max_tool_calls, Within-zero budget.max_test_runs), refl, tt) in
            rw (y, on_copy)
              (ending_total root sealed (drive w agent (timeout r) task budget box fuel c)
                (drive_total w agent (timeout r) task budget box m fuel c limit inv (omega arith)))
      ]

  -- Under a positive limit on calls `Run` ends, whatever the agent and the world do: fuel for one
  -- round more than the limit is enough.
  pub run_total :
      (m fuel : ℕ) (s : State) (mind : Mind)
      → budget.max_tool_calls ≡ pos (suc m)
      → suc m < fuel
      → (e : Ended State) × (run w r task budget version agent fuel s mind ≡ some e)
  unfolding run
  run_total m fuel s mind limit enough = elim (Option-cases (validate_task task)) [
    | inr (f, y) ↦ rw (y, run) (_, refl)
    | inl y ↦ elim (Result-cases (seal_tree w s task.snapshot)) [
      | inr (f, z) ↦ rw (y, z, run) (_, refl)
      | inl (sealed, z) ↦
          rw (y, z, run)
            (on_copy_total m fuel mind sealed limit enough
              (copy_tree w s task.snapshot (parent w r s)))
    ]
  ]
