-- ===== src/Runner.antt =====
-- runner.go: one attempt, executed, rewarded and replayed.
pub mod Claims
pub mod Rounds
pub mod Rewards
pub mod Drive
pub mod Progress
pub mod Runs
pub mod Scores
pub mod Whole
pub mod Replays
pub mod Prefix
pub mod Reproduced
pub mod Verified
pub mod Diverged
pub mod Accepted
use arandu_attempt.Base.{
  ℕ, zero, suc, ◌+◌, Bool, true, false, not, ◌&&◌, ◌||◌, Option, none, some, List, [], ◌∷◌, ◌++◌,
  length, get_elem?, Bytes, codes, bytes_eq, has_prefix, decimal, ltb, leb, ◌==◌, if◌then◌else◌,
}
use arandu_attempt.Base.Int.{ℤ, pos, negsuc}
use arandu_attempt.Base.Result.{Result, ok, err}
use arandu_attempt.Trajectory.{
  tool_read_file, tool_write_file, tool_list_tree, tool_run_tests, all_tools, Task, Budget,
  ToolCall, string_arg, Observation, claim_file_exists, claim_tests_pass, claim_tests_fail, Claim,
  Step, Reward, Trajectory,
}
use arandu_attempt.World.{World}
use arandu_attempt.Sandbox.{
  Sandbox, Fault, outside, reserved_path, not_writable, reserved_changed, not_directory, os_error,
  fault_text, TestResult, read, list, write, run_tests, verify_seal, new_sandbox, digest_reserved,
}

-- `Action`: `call` is nil where it is `none`.
pub record Action : Type 0 where
  pub call : Option ToolCall
  pub done : Bool
  pub final : Bytes
  pub claims : List Claim

-- `Agent`: a policy with a state of its own, which may fail.
pub record Agent : Type 1 where
  pub Mind : Type 0
  pub next : Mind → List Step → Mind × Result Bytes Action

-- `strings.Join(parts, sep)`.
join_lines : Bytes → List Bytes → Bytes
join_lines sep [] = []
join_lines sep (p ∷ []) = p
join_lines sep (p ∷ q ∷ ps) = p ++ sep ++ join_lines sep (q ∷ ps)

-- `%d` of an `int`, and `%t`.
show_int : ℤ → Bytes
show_int (pos n) = decimal n
show_int (negsuc n) = b'-' ∷ decimal (suc n)

unfoldable pub show_bool : Bool → Bytes
show_bool true = codes "true"
show_bool false = codes "false"

-- `isRefusal(err)`.
unfoldable pub is_refusal : Fault → Bool
is_refusal outside = true
is_refusal reserved_path = true
is_refusal not_writable = true
is_refusal _ = false

abbrev observe : ℕ → Bytes → Bytes → Bool → Bool → Observation
observe index tool output is_error refused = record {
  index = index;
  tool = tool;
  output = output;
  is_error = is_error;
  refused = refused;
}

-- `refuse(err)` or `fail(err)`.
unfoldable pub rejected : ℕ → Bytes → Fault → Observation
unfolding is_refusal
rejected index tool e = observe index tool (fault_text e) true (is_refusal e)

observed : ℕ → Bytes → Result Fault Bytes → Observation
unfolding rejected
observed index tool (ok output) = observe index tool output false false
observed index tool (err e) = rejected index tool e

-- The checks of a claim against the step that it cites.
unfoldable pub is_backed_by : Claim → Step → Bool
is_backed_by c step =
    let obs = step.observation in
    if bytes_eq c.kind claim_file_exists
    then not (
        obs.refused
        || obs.is_error
        || (not (bytes_eq obs.tool tool_read_file) && not (bytes_eq obs.tool tool_list_tree))
        || not (bytes_eq (string_arg (codes "path") step.call.args) c.target))
    else if bytes_eq c.kind claim_tests_pass
    then not (
        not (bytes_eq obs.tool tool_run_tests)
        || obs.refused
        || not (has_prefix obs.output (codes "passed=true")))
    else if bytes_eq c.kind claim_tests_fail
    then not (
        not (bytes_eq obs.tool tool_run_tests)
        || obs.refused
        || not (has_prefix obs.output (codes "passed=false")))
    else false

-- `c.EvidenceRef < 0 || c.EvidenceRef >= len(traj.Steps)` is a lookup that finds no step.
cited : ℤ → List Step → Option Step
cited (negsuc _) steps = none
cited (pos i) steps = get_elem? steps i

is_backed : Claim → Option Step → Bool
unfolding is_backed_by
is_backed c none = false
is_backed c (some step) = is_backed_by c step

unfoldable pub count_false_claims : List Step → List Claim → ℕ
unfolding cited is_backed
count_false_claims steps [] = 0
count_false_claims steps (c ∷ cs) =
    (if is_backed c (cited c.evidence_ref steps) then 0 else 1) + count_false_claims steps cs

abbrev pub zero_reward : ℕ → Bytes → Bool → Reward
zero_reward tool_calls reason refused = record {
  score = 0;
  tests_passed = false;
  refused = refused;
  false_claims = 0;
  tool_calls = tool_calls;
  reason = reason;
}

-- The switch at the end of `reward`.
scored : ℕ → Bool → ℕ → Reward
scored tool_calls passes unbacked = record {
  score = if ltb 0 unbacked then 0 else if not passes then 0 else 1;
  tests_passed = passes;
  refused = false;
  false_claims = unbacked;
  tool_calls = tool_calls;
  reason =
      if ltb 0 unbacked
      then decimal unbacked ++ codes " claim(s) without evidence"
      else if not passes
      then codes "final tests failed"
      else codes "tests passed, every claim backed by an observation";
}

-- `min` of the budget: a limit that is not positive is none.
unfoldable pub is_spent : ℤ → ℕ → Bool
is_spent (negsuc _) n = false
is_spent (pos zero) n = false
is_spent (pos (suc m)) n = leb (suc m) n

-- A run that is over: the final states and the record, or an error with the record so far.
pub record Ended (S : Type 0) : Type 0 where
  pub state : S
  pub trajectory : Trajectory
  pub error : Option Bytes

module _ (w : World) where
  open w use {State, quote}

  -- The answer to a call of `RunTests`.
  test_observed : ℕ → State × Result Fault TestResult → State × Observation
  unfolding rejected show_int show_bool
  test_observed index (s, err e) = (s, rejected index tool_run_tests e)
  test_observed index (s, ok result) = (
    s,
    observe index tool_run_tests
        (codes "passed="
          ++ show_bool result.passes
          ++ codes " exit="
          ++ show_int result.exit_code
          ++ b'\n' ∷ result.output)
        (not result.passes) false,
  )

  listed : Result Fault (List Bytes) → Result Fault Bytes
  unfolding join_lines
  listed (ok entries) = ok (join_lines (b'\n' ∷ []) entries)
  listed (err e) = err e

  write_observed : ℕ → Bytes → Bytes → State × Result Fault (Unit {0}) → State × Observation
  unfolding observed
  write_observed index path content (s, err e) = (s, observed index tool_write_file (err e))
  write_observed index path content (s, ok _) = (
    s,
    observed index tool_write_file
        (ok (codes "wrote " ++ decimal (length content) ++ codes " bytes to " ++ path)),
  )

  unfoldable pub execute : ℕ → Task → State → Sandbox → ℕ → ToolCall → State × Observation
  unfolding observed test_observed listed write_observed
  execute timeout task s box index call =
      let path = string_arg (codes "path") call.args in
      if bytes_eq call.tool tool_read_file
      then (s, observed index call.tool (read w s box path))
      else if bytes_eq call.tool tool_list_tree
      then (
        s,
        observed index call.tool
            (listed (list w s box (if bytes_eq path [] then codes "." else path))),
      )
      else if bytes_eq call.tool tool_write_file
      then (let content = string_arg (codes "content") call.args in
          write_observed index path content (write w s box path content))
      else if bytes_eq call.tool tool_run_tests
      then (let pkg = string_arg (codes "package") call.args in
          test_observed index
            (run_tests w s box (if bytes_eq pkg [] then task.test_package else pkg) timeout))
      else (
        s,
        observe index call.tool
            (codes "attempt: "
              ++ quote call.tool
              ++ codes " is not a tool of this sandbox; the tools are "
              ++ join_lines (codes ", ") all_tools)
            true true,
      )

  -- `reward`: the seal, the final tests, the seal again, the claims.
  judged : State × Result Fault TestResult → Sandbox → List Step → List Claim → State × Reward
  judged (s, err e) box steps claims =
      (s, zero_reward (length steps) (codes "final tests could not run: " ++ fault_text e) false)
  judged (s, ok result) box steps claims = elim (verify_seal w s box) [
    | err e ↦ (s, zero_reward (length steps) (codes "refused: " ++ fault_text e) true)
    | ok _ ↦ (s, scored (length steps) result.passes (count_false_claims steps claims))
  ]

  unfoldable pub reward : ℕ → Task → State → Sandbox → List Step → List Claim → State × Reward
  unfolding judged scored
  reward timeout task s box steps claims = elim (verify_seal w s box) [
    | err e ↦ (s, zero_reward (length steps) (codes "refused: " ++ fault_text e) true)
    | ok _ ↦ judged (run_tests w s box task.test_package timeout) box steps claims
  ]
