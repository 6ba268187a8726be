-- ===== src/Process/Killed.antt =====
-- sandbox_unix.go: a test run that is cancelled leaves no process of its own behind.
use arandu_attempt.Base.{
  ℕ, zero, suc, ◌<◌, ◌≡◌, refl, sym, ◌∙◌, subst, Bool, true, Option, none, some, List, [], ◌∷◌,
  get_elem?, All,
}
use arandu_attempt.Process.{Cmd, Kernel}
use arandu_attempt.Process.Unix.{
  detach, negated, signalled, kill_process, kill_group, test_command, cancel,
}

-- The processes of a kernel, and what is relied on: a command that asks for a group of its own leads
-- one, and the caller may signal it; a child is in the group of its parent, and can be signalled if
-- its parent can; and a SIGKILL to a group that is accepted is sent to each process in it that the
-- caller may signal. When it is delivered is left open.
pub record Processes (k : Kernel) : Type 0 where
  pub sent : k.State → ℕ → Bool
  pub group : k.State → ℕ → ℕ
  pub may_signal : k.State → ℕ → Bool
  pub fork : k.State → ℕ → k.State × ℕ
  pub leads :
      (s t : k.State) (c d : Cmd) (pid : ℕ)
      → c.own_group ≡ true
      → k.start s c ≡ (t, d)
      → d.process ≡ some pid
      → (group t pid ≡ pid) × (may_signal t pid ≡ true)
  pub inherits :
      (s : k.State) (parent : ℕ)
      → (group (fork s parent).0 (fork s parent).1 ≡ group s parent)
        × (may_signal s parent ≡ true → may_signal (fork s parent).0 (fork s parent).1 ≡ true)
  pub kept :
      (s : k.State) (parent pid : ℕ)
      → group s pid ≡ group s parent
      → (group (fork s parent).0 pid ≡ group s pid)
        × (may_signal (fork s parent).0 pid ≡ may_signal s pid)
  pub sends :
      (s t : k.State) (leader pid : ℕ)
      → 1 < leader
      → k.kill s (negated leader) ≡ (t, none)
      → group s pid ≡ leader
      → may_signal s pid ≡ true
      → sent t pid ≡ true

module _ (k : Kernel) (ps : Processes k) where
  -- The states that a run passes through from a state on, with the processes of the run: one of them
  -- forks, or something happens that moves none of them to another group or user.
  pub data Runs (s : k.State) (leader : ℕ) : k.State → List ℕ → Type 0 where
    started : Runs s leader s (leader ∷ [])
    forked :
        {t : k.State} {pids : List ℕ} (i parent : ℕ)
        → Runs s leader t pids
        → get_elem? pids i ≡ some parent
        → Runs s leader (ps.fork t parent).0 ((ps.fork t parent).1 ∷ pids)
    elsewhere :
        {t : k.State} {pids : List ℕ} (u : k.State)
        → Runs s leader t pids
        → All
            (λ pid. (ps.group u pid ≡ ps.group t pid) × (ps.may_signal u pid ≡ ps.may_signal t pid))
            pids
        → Runs s leader u pids

  All-get : (P : ℕ → Type 0) (l : List ℕ) (i x : ℕ) → All P l → get_elem? l i ≡ some x → P x
  All-get P [] i x h e = absurd (cc e)
  All-get P (y ∷ l) zero x (p, h) e = let same : y ≡ x = cc e in subst P same p
  All-get P (y ∷ l) (suc i) x (p, h) e = All-get P l i x h e

  All-map : (P Q : ℕ → Type 0) (l : List ℕ) → ((x : ℕ) → P x → Q x) → All P l → All Q l
  All-map P Q [] step h = tt
  All-map P Q (x ∷ l) step (p, h) = (step x p, All-map P Q l step h)

  -- A process is in the group of the leader, and can be signalled.
  abbrev IsReached : k.State → ℕ → ℕ → Type 0
  IsReached t leader pid = (ps.group t pid ≡ leader) × (ps.may_signal t pid ≡ true)

  moved :
      (t u : k.State) (leader : ℕ) (l : List ℕ)
      → All (IsReached t leader) l
      → All
          (λ pid. (ps.group u pid ≡ ps.group t pid) × (ps.may_signal u pid ≡ ps.may_signal t pid))
          l
      → All (IsReached u leader) l
  moved t u leader [] h same = tt
  moved t u leader (x ∷ l) ((p, m), h) ((e, f), same) = ((e ∙ p, f ∙ m), moved t u leader l h same)

  -- Every process of the run is reached.
  grouped :
      {s : k.State} {leader : ℕ} {t : k.State} {pids : List ℕ}
      → IsReached s leader leader
      → Runs s leader t pids
      → All (IsReached t leader) pids
  grouped own started = (own, tt)
  grouped {leader} own (forked {t} {pids} i parent runs found) =
      let before = grouped own runs in
      let (of_parent, may) = All-get (IsReached t leader) pids i parent before found in
      let (placed, inherited) = ps.inherits t parent in
      (
        (placed ∙ of_parent, inherited may),
        All-map _ (IsReached (ps.fork t parent).0 leader) pids
            (λ pid (e, m).
              let (same, as_before) = ps.kept t parent pid (e ∙ sym of_parent) in
              (same ∙ e, as_before ∙ m))
            before,
      )
  grouped {leader} own (elsewhere {t} {pids} u runs same) =
      moved t u leader pids (grouped own runs) same

  signalled-none :
      (r : k.State × Option k.Error) (t : k.State) → signalled k r ≡ (t, none) → r ≡ (t, none)
  unfolding signalled
  signalled-none (s, none) t e = cc e
  signalled-none (s, some x) t e = absurd (cc e)

  -- Once a test run is cancelled without an error, SIGKILL has been sent to each of its processes: to
  -- the one that was started, in a group of its own, and to every one that it or its descendants have
  -- forked, if none of them has moved to another group or user.
  pub cancel-Sent :
      (s t u : k.State) (cmd : Cmd) (leader : ℕ) {v : k.State} {pids : List ℕ}
      → k.start s (test_command k) ≡ (t, cmd)
      → cmd.process ≡ some leader
      → 1 < leader
      → Runs t leader u pids
      → cancel k u cmd ≡ (v, none)
      → All (λ pid. ps.sent v pid ≡ true) pids
  unfolding cancel kill_group kill_process detach
  cancel-Sent s t u cmd leader {v} {pids} begun known large runs cancelled =
      let own = ps.leads s t (test_command k) cmd leader refl begun known in
      let answered = signalled-none (k.kill u (negated leader)) v (rw (known) at cancelled) in
      All-map _ (λ pid. ps.sent v pid ≡ true) pids
        (λ pid (e, m). ps.sends u v leader pid large answered e m) (grouped own runs)
