-- ===== src/Process.antt =====
-- sandbox_unix.go and sandbox_other.go: the process group of a test run. What is used of os/exec and
-- of the kernel is the record `Kernel`.
pub mod Unix
pub mod Other
pub mod Killed
use arandu_attempt.Base.{ℕ, Bool, false, Option, none}
use arandu_attempt.Base.Int.{ℤ}

-- `exec.Cmd`: whether `SysProcAttr` asks for a group of its own, and the id of the process that it
-- has started.
pub record Cmd : Type 0 where
  pub own_group : Bool
  pub process : Option ℕ

pub record Kernel : Type 1 where
  pub State : Type 0
  pub Error : Type 0
  -- `exec.CommandContext`, and `Start`: the command with its process, if there is one.
  pub command : Cmd
  pub start : State → Cmd → State × Cmd
  -- `syscall.Kill` with SIGKILL.
  pub kill : State → ℤ → State × Option Error

-- What `killGroup` refuses.
pub data KillError (E : Type 0) : Type 0 where
  no_process : KillError E
  no_groups : KillError E
  refused : E → KillError E
