-- ===== src/Process/Unix.antt =====
-- sandbox_unix.go, and what RunTests of sandbox.go does with it.
use arandu_attempt.Base.{ℕ, zero, suc, true, Option, none, some}
use arandu_attempt.Base.Int.{ℤ, pos, negsuc}
use arandu_attempt.Process.{Cmd, Kernel, KillError, no_process, refused}

-- `detach`.
unfoldable pub detach : Cmd → Cmd
detach c = record c { own_group = true }

-- `-c.Process.Pid`.
abbrev pub negated : ℕ → ℤ
negated zero = pos 0
negated (suc n) = negsuc n

module _ (k : Kernel) where
  unfoldable pub signalled : k.State × Option k.Error → k.State × Option (KillError k.Error)
  signalled (s, none) = (s, none)
  signalled (s, some e) = (s, some (refused e))

  unfoldable pub kill_process : k.State → Option ℕ → k.State × Option (KillError k.Error)
  unfolding signalled
  kill_process s none = (s, some no_process)
  kill_process s (some pid) = signalled (k.kill s (negated pid))

  -- `killGroup`.
  unfoldable pub kill_group : k.State → Option Cmd → k.State × Option (KillError k.Error)
  unfolding kill_process
  kill_group s none = (s, some no_process)
  kill_group s (some c) = kill_process s c.process

  -- `RunTests`: the command in a group of its own, and what it does when it is cancelled.
  abbrev pub test_command : Cmd
  test_command = detach k.command

  unfoldable pub cancel : k.State → Cmd → k.State × Option (KillError k.Error)
  unfolding kill_group
  cancel s cmd = kill_group s (some cmd)
