-- ===== src/Process/Other.antt =====
-- sandbox_other.go: no process groups.
use arandu_attempt.Base.{Option, some}
use arandu_attempt.Process.{Cmd, Kernel, KillError, no_groups}

-- `detach`.
unfoldable pub detach : Cmd → Cmd
detach c = c

-- `killGroup`.
unfoldable pub kill_group :
    (k : Kernel) → k.State → Option Cmd → k.State × Option (KillError k.Error)
kill_group k s c = (s, some no_groups)
