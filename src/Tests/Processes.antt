-- ===== src/Tests/Processes.antt =====
-- The theorem on process groups at a concrete kernel, with a run of three processes.
use arandu_attempt.Base.{
  ℕ, zero, suc, ◌<◌, ◌≡◌, refl, ap, Bool, true, false, Option, none, some, [], ◌∷◌, All, ◌==◌,
  arith, if◌then◌else◌,
}
use arandu_attempt.Base.Int.{ℤ, pos, negsuc}
use arandu_attempt.Process.{Cmd, Kernel}
use arandu_attempt.Process.Unix.{detach, negated, test_command, cancel}
use arandu_attempt.Process.Killed.{Processes, Runs, started, forked, cancel-Sent}

-- The next id, the group of each process, and whether SIGKILL has been sent to it.
record Table : Type 0 where
  next : ℕ
  group : ℕ → ℕ
  sent : ℕ → Bool

abbrev assign {ℓ} : {A : Type ℓ} → (ℕ → A) → ℕ → A → ℕ → A
assign g i a j = if j == i then a else g j

abbrev born : Table → ℕ → Table
born s leader = record {
  next = suc s.next;
  group = assign s.group s.next leader;
  sent = assign s.sent s.next false;
}

abbrev ended : Table → ℤ → Table
ended s (pos n) = s
ended s (negsuc n) = record s { sent = λ pid. if s.group pid == suc n then true else s.sent pid }

abbrev small : Kernel
small = record {
  State = Table;
  Error = Unit {0};
  command = record { own_group = false; process = none };
  start = λ s c. (born s (if c.own_group then s.next else 0), record c { process = some s.next });
  kill = λ s target. (ended s target, none);
}

leads_lem :
    (s t : Table) (c d : Cmd) (pid : ℕ)
    → c.own_group ≡ true
    → small.start s c ≡ (t, d)
    → d.process ≡ some pid
    → (t.group pid ≡ pid) × (true ≡ true)
leads_lem s t c d pid own begun known =
    let named : s.next ≡ pid = cc (ap (λ (p : Table × Cmd). p.1.process) begun, known) in
    let placed : (if pid == s.next then if c.own_group then s.next else 0 else s.group pid)
        ≡ t.group pid =
      ap (λ (p : Table × Cmd). p.0.group pid) begun in
    let leader : t.group pid ≡ pid = ground arith in (leader, refl)

sends_lem :
    (s t : Table) (leader pid : ℕ)
    → 1 < leader
    → small.kill s (negated leader) ≡ (t, none)
    → s.group pid ≡ leader
    → true ≡ true
    → t.sent pid ≡ true
sends_lem s t zero pid large answered e m = absurd (omega arith)
sends_lem s t (suc n) pid large answered e m =
    let seen : (if s.group pid == suc n then true else s.sent pid) ≡ t.sent pid =
      ap (λ (p : Table × Option (Unit {0})). p.0.sent pid) answered in
    ground arith

inherits_lem :
    (s : Table) (parent : ℕ)
    → ((born s (s.group parent)).group s.next ≡ s.group parent) × (true ≡ true → true ≡ true)
inherits_lem s parent =
    let placed : (born s (s.group parent)).group s.next ≡ s.group parent = ground arith in
    (placed, λ h. h)

kept_lem :
    (s : Table) (parent pid : ℕ)
    → s.group pid ≡ s.group parent
    → ((born s (s.group parent)).group pid ≡ s.group pid) × (true ≡ true)
kept_lem s parent pid e =
    let same : (born s (s.group parent)).group pid ≡ s.group pid = ground arith in (same, refl)

abbrev processes : Processes small
processes = record {
  sent = λ s. s.sent;
  group = λ s. s.group;
  may_signal = λ s pid. true;
  fork = λ s parent. (born s (s.group parent), s.next);
  leads = leads_lem;
  inherits = inherits_lem;
  kept = kept_lem;
  sends = sends_lem;
}

abbrev idle : Table
idle = record { next = 5; group = λ _. 0; sent = λ _. false }

-- It starts as process 5, which forks 6, which forks 7.
abbrev one : Table
one = (small.start idle (record { own_group = true; process = none })).0

abbrev two : Table
two = born one 5

abbrev three : Table
three = born two 5

abbrev run_command : Cmd
run_command = record { own_group = true; process = some 5 }

three-Runs : Runs small processes one 5 three (7 ∷ 6 ∷ 5 ∷ [])
three-Runs = forked 0 6 (forked 0 5 started refl) refl

begun : small.start idle (test_command small) ≡ (one, run_command)
unfolding detach
begun = refl

cancelled : cancel small three run_command ≡ (ended three (negsuc 4), none)
unfolding cancel
cancelled = refl

cancel-Sent_example :
    All (λ pid. processes.sent (ended three (negsuc 4)) pid ≡ true) (7 ∷ 6 ∷ 5 ∷ [])
cancel-Sent_example =
    cancel-Sent small processes idle one three run_command 5 begun refl (omega arith) three-Runs
      cancelled
