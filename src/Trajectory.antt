-- ===== src/Trajectory.antt =====
-- trajectory.go: the record of an attempt. A JSON value of an argument is a text or something else.
use arandu_attempt.Base.{ℕ, Bool, List, [], ◌∷◌, Bytes, codes, bytes_eq, if◌then◌else◌}
use arandu_attempt.Base.Int.{ℤ}

-- The four tools.
abbrev pub tool_read_file : Bytes
tool_read_file = codes "read_file"

abbrev pub tool_write_file : Bytes
tool_write_file = codes "write_file"

abbrev pub tool_list_tree : Bytes
tool_list_tree = codes "list_tree"

abbrev pub tool_run_tests : Bytes
tool_run_tests = codes "run_tests"

abbrev pub all_tools : List Bytes
all_tools = tool_list_tree ∷ tool_read_file ∷ tool_run_tests ∷ tool_write_file ∷ []

pub record Task : Type 0 where
  pub id : Bytes
  pub repository : Bytes
  pub revision : Bytes
  pub prompt : Bytes
  pub allowed_files : List Bytes
  pub test_package : Bytes
  pub snapshot : Bytes

pub record Budget : Type 0 where
  pub max_tool_calls : ℤ
  pub max_test_runs : ℤ

-- A value of type `any`.
pub data Value : Type 0 where
  text : Bytes → Value
  other : Bytes → Value

pub record ToolCall : Type 0 where
  pub tool : Bytes
  pub args : List (Bytes × Value)

-- `v, _ := call.Args[key].(string)`: the empty text for a missing key and for another type.
unfoldable pub string_arg : Bytes → List (Bytes × Value) → Bytes
string_arg key [] = []
string_arg key ((k, text v) ∷ rest) = if bytes_eq k key then v else string_arg key rest
string_arg key ((k, other _) ∷ rest) = if bytes_eq k key then [] else string_arg key rest

pub record Observation : Type 0 where
  pub index : ℕ
  pub tool : Bytes
  pub output : Bytes
  pub is_error : Bool
  pub refused : Bool

abbrev pub claim_file_exists : Bytes
claim_file_exists = codes "file_exists"

abbrev pub claim_tests_pass : Bytes
claim_tests_pass = codes "tests_pass"

abbrev pub claim_tests_fail : Bytes
claim_tests_fail = codes "tests_fail"

pub record Claim : Type 0 where
  pub kind : Bytes
  pub target : Bytes
  pub evidence_ref : ℤ

pub record Step : Type 0 where
  pub call : ToolCall
  pub observation : Observation

-- `Score` is only ever set to 0 or 1.
pub record Reward : Type 0 where
  pub score : ℕ
  pub tests_passed : Bool
  pub refused : Bool
  pub false_claims : ℕ
  pub tool_calls : ℕ
  pub reason : Bytes

pub record Trajectory : Type 0 where
  pub task_id : Bytes
  pub policy_version : Bytes
  pub steps : List Step
  pub claims : List Claim
  pub final : Bytes
  pub reward : Reward
