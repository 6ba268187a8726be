-- ===== src/Tests.antt =====
-- A small world and a small framework, on which the theorems are applied at concrete inputs.
pub mod Compare
pub mod Attempts
pub mod Requests
pub mod Queries
pub mod Processes
pub mod Runs
pub mod Answers
use arandu_attempt.Base.{
  ℕ, suc, ◌++◌, Bool, true, false, Option, none, some, List, [], ◌∷◌, Bytes, codes, bytes_eq,
  length, take, ltb, ◌==◌, ◌&&◌, ◌||◌, if◌then◌else◌,
}
use arandu_attempt.Base.Int.{pos}
use arandu_attempt.Base.Result.{Result, ok, err}
use arandu_attempt.World.{World, link, dir, file, passed}
use arandu_attempt.Trajectory.{
  tool_read_file, text, ToolCall, Task, Budget, Claim, claim_file_exists, Step, Observation,
  Trajectory,
}
use arandu_attempt.Sandbox.{Sandbox}
use arandu_attempt.Runner.{Agent, Action, zero_reward}
use arandu_attempt.Runner.Rounds.{Loop}
use arandu_attempt.Service.{
  Attempt, blank, Subject, Cond, everything, compares, both, either, Framework,
}

-- A directory /w with one file; a test run passes, and a write is counted.
abbrev pub toy : World
toy = record {
  State = ℕ;
  exists = λ s p. bytes_eq p (codes "/w") || bytes_eq p (codes "/w/a.go");
  is_missing = λ s p. false;
  is_directory = λ s p. ok true;
  absolute = λ s p. ok p;
  eval_symlinks = λ s p. ok p;
  read_file = λ s p. ok (codes "package a");
  read_dir = λ s p. ok [];
  walk = λ s p. ok (dir (codes ".") ∷ file (codes "b.txt") (codes "sum") 0 ∷ []);
  write_file = λ s p content mode. (suc s, none);
  make_dir = λ s p. (s, none);
  make_temp = λ s p. (s, ok (codes "/w"));
  remove_all = λ s p. s;
  temp_dir = λ s. codes "/tmp";
  go_test = λ s d p timeout. (s, codes "ok", passed);
  hash = λ b. b;
  normalise = λ b. b;
  quote = λ b. b;
}

abbrev pub task : Task
task = record {
  id = codes "t";
  repository = [];
  revision = [];
  prompt = [];
  allowed_files = codes "a.go" ∷ [];
  test_package = codes ".";
  snapshot = codes "/snap";
}

abbrev pub budget : Budget
budget = record { max_tool_calls = pos 3; max_test_runs = pos 1 }

-- A sandbox at /w with one reserved path.
abbrev pub box : Sandbox
box = record {
  root = codes "/w";
  allowed_write = codes "a.go" ∷ [];
  reserved = codes "evaluation" ∷ [];
  sealed =
      (
        codes "evaluation",
        codes "d ." ++ 0 ∷ (0 ∷ (codes "f b.txt" ++ 0 ∷ (codes "sum" ++ 0 ∷ []))),
      )
      ∷ [];
}

abbrev pub read_call : ToolCall
read_call = record { tool = tool_read_file; args = (codes "path", text (codes "a.go")) ∷ [] }

abbrev pub read_step : Step
read_step = record {
  call = read_call;
  observation = record {
    index = 0;
    tool = tool_read_file;
    output = codes "package a";
    is_error = false;
    refused = false;
  };
}

abbrev pub seen_claim : Claim
seen_claim = record { kind = claim_file_exists; target = codes "a.go"; evidence_ref = pos 0 }

abbrev pub not_empty : List Step → Bool
not_empty [] = false
not_empty (_ ∷ _) = true

-- It reads the file, and claims that it exists.
abbrev pub reader : Agent
reader = record {
  Mind = Unit {0};
  next = λ m steps. (
    tt,
    ok (record {
      call = some read_call;
      done = not_empty steps;
      final = [];
      claims = seen_claim ∷ [];
    }),
  );
}

abbrev pub start : Loop ℕ (Unit {0})
start = record {
  state = 0;
  mind = tt;
  test_runs = 0;
  trajectory = record {
    task_id = codes "t";
    policy_version = [];
    steps = [];
    claims = [];
    final = [];
    reward = zero_reward 0 [] false;
  };
}

-- Three rows, which stand in the order of the lengths of any column and then of the id.
abbrev pub row : Bytes → Bytes → Attempt
row id name = record { id = id; tenant_id = codes "acme"; name = name; created_at = codes "t" }

abbrev pub first_row : Attempt
first_row = row (codes "a") (codes "x")

abbrev pub second_row : Attempt
second_row = row (codes "bb") (codes "y")

abbrev pub third_row : Attempt
third_row = row (codes "ccc") (codes "zz")

abbrev pub rows : List Attempt
rows = first_row ∷ second_row ∷ third_row ∷ []

abbrev pub cell : Attempt → Bytes → ℕ
cell r column =
    if bytes_eq column (codes "id")
    then length r.id
    else if bytes_eq column (codes "name")
    then length r.name
    else length r.created_at

abbrev pub matches : Cond ℕ → Attempt → Bool
matches everything r = true
matches (compares column op v) r =
    if bytes_eq op (codes ">")
    then ltb v (cell r column)
    else if bytes_eq op (codes "=")
    then v == cell r column
    else false
matches (both a b) r = matches a r && matches b r
matches (either a b) r = matches a r || matches b r

abbrev pub matching : Cond ℕ → List Attempt → List Attempt
matching c [] = []
matching c (r ∷ rs) = let rest = matching c rs in if matches c r then r ∷ rest else rest

abbrev pub row_named : Bytes → Attempt
row_named id =
    if bytes_eq id (codes "a")
    then first_row
    else if bytes_eq id (codes "bb")
    then second_row
    else third_row

unfoldable pub is_among : Bytes → List Bytes → Bool
unfolding bytes_eq
is_among p [] = false
is_among p (q ∷ qs) = bytes_eq p q || is_among p qs

abbrev pub desk : Framework
desk = record {
  State = ℕ;
  Grant = Bytes;
  Error = Bytes;
  Errors = List Bytes;
  Column = ℕ;
  authorize = λ policy s a r. elim (policy s a r) [ none ↦ ok s.tenant | some e ↦ err e ];
  granted_tenant = λ g. g;
  new_id = λ s. (suc s, ok (codes "new"));
  new_row = ok blank;
  save = λ s g r. (suc s, ok r);
  first = λ s g id. ok (some (row_named id));
  value = λ s g id column. ok (some (cell (row_named id) column));
  text_column = λ t. length t;
  get = λ s g q. ok (take q.limit (matching q.filter rows));
  no_errors = [];
  required = λ e field v. e;
  max_len = λ e field v limit. e;
  any = λ e. false;
  message = λ e. [];
  is_forbidden = λ e. true;
  as_rejected = λ e. none;
  valid_tenant = λ t. true;
  Mux = List Bytes;
  new_mux = [];
  handle = λ m p. if is_among p m then none else some (p ∷ m);
}

abbrev pub member_of_acme : Subject
member_of_acme = record { id = codes "u"; tenant = codes "acme" }
