-- ===== src/Sandbox.antt =====
-- sandbox.go: the working copy that one attempt is confined to. `World` is the operating system.
pub mod Path
pub mod Confined
pub mod Seal
pub mod Writes
use Prim.Native.Nat.{Ordering}
use arandu_attempt.Base.{
  ℕ, zero, suc, ◌+◌, Bool, true, false, not, ◌&&◌, ◌||◌, Option, none, some, List, [], ◌∷◌, ◌++◌,
  map, Bytes, codes, bytes_eq, has_prefix, replace_all, drop, length, if◌then◌else◌, ◌==◌,
}
use arandu_attempt.Base.Int.{ℤ, pos}
use arandu_attempt.Base.Result.{Result, ok, err, ◌>>=◌}
use arandu_attempt.World.{World, Entry, link, dir, file, RunEnd, passed, exited, broken}
use arandu_attempt.Sandbox.Path.{clean, join, parent_dir, trim_slash, sort_strings}

pub record Sandbox : Type 0 where
  pub root : Bytes
  pub allowed_write : List Bytes
  pub reserved : List Bytes
  pub sealed : List (Bytes × Bytes)

-- The errors: the three refusals, a broken seal, and what the operating system says.
pub data Fault : Type 0 where
  outside reserved_path not_writable : Fault
  reserved_changed : Bytes → Fault
  not_directory : Bytes → Fault
  os_error : Bytes → Fault

-- `err.Error()`.
unfoldable pub fault_text : Fault → Bytes
fault_text outside = codes "attempt: path resolves outside the sandbox"
fault_text reserved_path = codes "attempt: path is reserved and may not be touched"
fault_text not_writable = codes "attempt: path is not in the task's allowed files"
fault_text (reserved_changed prefix) =
    codes "attempt: a reserved path changed during the attempt" ++ codes ": " ++ prefix
fault_text (not_directory root) =
    codes "attempt: sandbox root " ++ root ++ codes " is not a directory"
fault_text (os_error e) = e

pub record TestResult : Type 0 where
  pub package_dir : Bytes
  pub passes : Bool
  pub exit_code : ℤ
  pub output : Bytes

-- An error of the operating system as an error of the sandbox.

abbrev pub system : {A : Type 0} → Result Bytes A → Result Fault A
system (ok a) = ok a
system (err e) = err (os_error e)

abbrev pub failed : Option Bytes → Result Fault (Unit {0})
failed none = ok tt
failed (some e) = err (os_error e)

-- A lookup in a map; the zero value for a missing key.
unfoldable pub lookup_or_empty : Bytes → List (Bytes × Bytes) → Bytes
lookup_or_empty k [] = []
lookup_or_empty k ((j, v) ∷ m) = if bytes_eq j k then v else lookup_or_empty k m

-- `contents[rel]`, with whether it is there.
find_body : Bytes → List Entry → Option Bytes
find_body k [] = none
find_body k (link rel target ∷ es) = if bytes_eq rel k then some target else find_body k es
find_body k (dir rel ∷ es) = find_body k es
find_body k (file rel body _ ∷ es) = if bytes_eq rel k then some body else find_body k es

-- What `walked` gets for an entry.
unfoldable pub entry_line : Entry → Bytes
entry_line (link rel _) = codes "l " ++ rel
entry_line (dir rel) = codes "d " ++ rel
entry_line (file rel _ _) = codes "f " ++ rel

abbrev or_empty : Option Bytes → Bytes
or_empty none = []
or_empty (some body) = body

-- What the loop over the sorted lines writes into the hash.
digest_lines : List Entry → List Bytes → Bytes
unfolding find_body
digest_lines es [] = []
digest_lines es (line ∷ lines) =
    line ++ 0 ∷ (or_empty (find_body (drop 2 line) es) ++ 0 ∷ digest_lines es lines)

unfoldable pub digest_input : List Entry → Bytes
unfolding digest_lines entry_line
digest_input es = digest_lines es (sort_strings (map entry_line es))

-- The lookup in `allowedWrite`.
unfoldable pub member : Bytes → List Bytes → Bool
member a [] = false
member a (b ∷ bs) = bytes_eq b a || member a bs

-- `p == dir || strings.HasPrefix(p, dir+"/")`: `p` is the directory, or lies below it.
unfoldable pub is_within : Bytes → Bytes → Bool
is_within root p = bytes_eq p root || has_prefix p (root ++ codes "/")

-- The loop of `Confine` over the reserved prefixes.
unfoldable pub is_reserved : List Bytes → Bytes → Bool
unfolding is_within
is_reserved [] c = false
is_reserved (r ∷ rs) c = is_within r c || is_reserved rs c

unfoldable pub sealed_box : Bytes → List Bytes → List Bytes → List (Bytes × Bytes) → Sandbox
sealed_box root allowed_write reserved sealed = record {
  root = root;
  allowed_write = map clean allowed_write;
  reserved = reserved;
  sealed = sealed;
}

module _ (w : World) where
  open w use {
    State, exists, is_missing, is_directory, absolute, eval_symlinks, read_file, read_dir, walk,
    write_file, go_test, hash, normalise,
  }

  -- The deepest ancestor that exists. The fuel is above the length of the path.
  unfoldable pub probe : ℕ → State → Bytes → Bytes
  probe zero s p = p
  probe (suc fuel) s p =
      let rest = probe fuel s (parent_dir p) in
      if exists s p then p else if bytes_eq (parent_dir p) p then p else rest

  -- `EvalSymlinks` of the ancestor, compared with the root.
  resolve : State → Sandbox → Bytes → Result Fault Bytes
  unfolding probe is_within
  resolve s box abs = do
    resolved ← system (eval_symlinks s (probe (length abs + 1) s abs))
    if is_within box.root resolved then ok abs else err outside

  unfoldable pub confine : State → Sandbox → Bytes → Result Fault Bytes
  unfolding resolve is_within is_reserved
  confine s box rel =
      if bytes_eq rel [] || has_prefix rel (codes "/")
      then err outside
      else if is_within (codes "..") (clean rel)
      then err outside
      else if is_reserved box.reserved (clean rel)
      then err reserved_path
      else resolve s box (join box.root (clean rel))

  unfoldable pub read : State → Sandbox → Bytes → Result Fault Bytes
  read s box rel = do abs ← confine s box rel; system (read_file s abs)

  name_of : Bytes × Bool → Bytes
  name_of (name, true) = name ++ codes "/"
  name_of (name, false) = name

  unfoldable pub list : State → Sandbox → Bytes → Result Fault (List Bytes)
  unfolding name_of
  list s box rel = do
    abs ← confine s box rel
    entries ← system (read_dir s abs)
    ok (sort_strings (map name_of entries))

  written : State × Option Bytes → State × Result Fault (Unit {0})
  written (s, o) = (s, failed o)

  unfoldable pub write : State → Sandbox → Bytes → Bytes → State × Result Fault (Unit {0})
  unfolding member written
  write s box rel content =
      if not (member (clean rel) box.allowed_write)
      then (s, err not_writable)
      else elim (confine s box (clean rel)) [
        | err e ↦ (s, err e)
        | ok abs ↦ written (write_file s abs content 0o644)
      ]

  -- `digestReserved`, on the root of the box.
  unfoldable pub digest_reserved : State → Bytes → Bytes → Result Fault Bytes
  unfolding digest_input
  digest_reserved s root prefix =
      if is_missing s (join root prefix)
      then ok []
      else do entries ← system (walk s (join root prefix)); ok (hash (digest_input entries))

  seal_from :
      State → Bytes → List Bytes → List (Bytes × Bytes) → Result Fault (List (Bytes × Bytes))
  seal_from s root [] done = ok done
  seal_from s root (prefix ∷ rest) done = do
    sum ← digest_reserved s root prefix
    seal_from s root rest ((prefix, sum) ∷ done)

  unfoldable pub seal : State → Bytes → List Bytes → Result Fault (List (Bytes × Bytes))
  unfolding seal_from
  seal s root reserved = seal_from s root reserved []

  verify_from : State → Sandbox → List Bytes → Result Fault (Unit {0})
  verify_from s box [] = ok tt
  verify_from s box (prefix ∷ rest) = do
    sum ← digest_reserved s box.root prefix
    if bytes_eq sum (lookup_or_empty prefix box.sealed)
        then verify_from s box rest
        else err (reserved_changed prefix)

  unfoldable pub verify_seal : State → Sandbox → Result Fault (Unit {0})
  unfolding verify_from
  verify_seal s box = verify_from s box box.reserved

  -- The `Sandbox` that `NewSandbox` fills in.
  unfoldable pub new_sandbox : State → Bytes → List Bytes → List Bytes → Result Fault Sandbox
  unfolding seal sealed_box
  new_sandbox s root allowed_write reserved = do
    abs ← system (absolute s root)
    resolved ← system (eval_symlinks s abs)
    is_dir ← system (is_directory s resolved)
    let kept = map (λ p. trim_slash (clean p)) reserved
    if is_dir
        then (seal s resolved kept >>= λ sums. ok (sealed_box resolved allowed_write kept sums))
        else err (not_directory root)

  -- `stable`: the three regular expressions are `normalise`.
  stable : Sandbox → Bytes → Bytes
  stable box output = normalise (
      if not (bytes_eq box.root [])
      then replace_all box.root (codes "<sandbox>") output
      else output)

  test_result : Bytes → Bytes → RunEnd → Result Fault TestResult
  test_result pkg output passed =
      ok (record { package_dir = pkg; passes = true; exit_code = pos 0; output = output })
  test_result pkg output (exited code) =
      ok (record { package_dir = pkg; passes = false; exit_code = code; output = output })
  test_result pkg output (broken e) = err (os_error e)

  tested : Sandbox → Bytes → State × Bytes × RunEnd → State × Result Fault TestResult
  unfolding test_result stable
  tested box pkg (s, output, run) = (s, test_result pkg (stable box output) run)

  unfoldable pub run_tests : State → Sandbox → Bytes → ℕ → State × Result Fault TestResult
  unfolding tested
  run_tests s box pkg timeout =
      let dir_name = if bytes_eq pkg [] then codes "." else pkg in
      elim (confine s box dir_name) [
        | err e ↦ (s, err e)
        | ok _ ↦ tested box dir_name (go_test s box.root (codes "./" ++ clean dir_name) timeout)
      ]
