-- ===== src/World.antt =====
-- What the attempt uses of the operating system and of the go command: the file system is a state,
-- and each call is a function of it. A failed call gives the text of its error. Paths are those of
-- Unix, so `filepath.ToSlash` and `filepath.FromSlash` change nothing.
use arandu_attempt.Base.{ℕ, Bool, Option, List, Bytes}
use arandu_attempt.Base.Int.{ℤ}
use arandu_attempt.Base.Result.{Result}

-- An entry that `filepath.WalkDir` visits: its path below the root, and what is there.
pub data Entry : Type 0 where
  link : Bytes → Bytes → Entry
  dir : Bytes → Entry
  file : Bytes → Bytes → ℕ → Entry

-- How `cmd.Run` ends: with status 0, with an `*exec.ExitError`, or with another error.
pub data RunEnd : Type 0 where
  passed : RunEnd
  exited : ℤ → RunEnd
  broken : Bytes → RunEnd

pub record World : Type 1 where
  pub State : Type 0
  -- `os.Lstat(p)` gives no error; it gives `fs.ErrNotExist`.
  pub exists : State → Bytes → Bool
  pub is_missing : State → Bytes → Bool
  pub is_directory : State → Bytes → Result Bytes Bool
  pub absolute : State → Bytes → Result Bytes Bytes
  pub eval_symlinks : State → Bytes → Result Bytes Bytes
  pub read_file : State → Bytes → Result Bytes Bytes
  -- The names in a directory, and which of them are directories.
  pub read_dir : State → Bytes → Result Bytes (List (Bytes × Bool))
  -- The entries that a walk visits, or the first error that it meets.
  pub walk : State → Bytes → Result Bytes (List Entry)
  pub write_file : State → Bytes → Bytes → ℕ → State × Option Bytes
  pub make_dir : State → Bytes → State × Option Bytes
  -- `os.MkdirTemp`.
  pub make_temp : State → Bytes → State × Result Bytes Bytes
  pub remove_all : State → Bytes → State
  pub temp_dir : State → Bytes
  -- `go test -count=1 PACKAGE` in a directory, for at most so many nanoseconds: it may change any
  -- file. Its output and how it ends.
  pub go_test : State → Bytes → Bytes → ℕ → State × Bytes × RunEnd
  -- The hexadecimal SHA-256, the three regular expressions of `stable` after the root is replaced,
  -- and `%q` of fmt.
  pub hash : Bytes → Bytes
  pub normalise : Bytes → Bytes
  pub quote : Bytes → Bytes
