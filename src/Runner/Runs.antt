-- ===== src/Runner/Runs.antt =====
-- runner.go, `Run`, and sandbox.go, `CopyTree`: one attempt on a copy of the snapshot. The copy is
-- made of the entries that one walk of the snapshot gives; what a failed copy leaves is not told.
use arandu_attempt.Base.{
  ℕ, zero, suc, ◌*◌, ◌^◌, true, false, Option, none, some, List, [], ◌∷◌, Bytes, codes, bytes_eq,
  length, if◌then◌else◌,
}
use arandu_attempt.Base.Int.{ℤ, pos, negsuc}
use arandu_attempt.Base.Result.{Result, ok, err, ◌>>=◌}
use arandu_attempt.Trajectory.{Task, Budget, Trajectory}
use arandu_attempt.World.{World, Entry, link, dir, file}
use arandu_attempt.Sandbox.Path.{join}
use arandu_attempt.Sandbox.{Fault, fault_text, digest_reserved, new_sandbox}
use arandu_attempt.Runner.{Agent, Ended, zero_reward}
use arandu_attempt.Runner.Rounds.{Loop, drive}

-- `Runner`.
pub record Runner : Type 0 where
  pub parent_dir : Bytes
  pub reserved : List Bytes
  pub test_timeout : ℤ

-- `timeout`, in nanoseconds.
unfoldable pub timeout : Runner → ℕ
timeout r = elim r.test_timeout [
  | pos (suc n) ↦ suc n
  | pos zero ↦ 120 * 10 ^ 9
  | negsuc _ ↦ 120 * 10 ^ 9
]

-- `validateTask`.
unfoldable pub validate_task : Task → Option Bytes
validate_task t =
    if bytes_eq t.id []
    then some (codes "attempt: task needs an id")
    else if bytes_eq t.snapshot []
    then some (codes "attempt: task needs a snapshot directory")
    else elim t.allowed_files [
      | [] ↦ some (
          codes
            "attempt: task allows no file to be written; a repair with nothing to change is not a task")
      | _ ∷ _ ↦ none
    ]

-- `Trajectory{TaskID: …, PolicyVersion: …}`.
abbrev pub new_trajectory : Bytes → Bytes → Trajectory
new_trajectory id version = record {
  task_id = id;
  policy_version = version;
  steps = [];
  claims = [];
  final = [];
  reward = zero_reward 0 [] false;
}

module _ (w : World) where
  open w use {State, absolute, walk, write_file, make_dir, make_temp, remove_all, temp_dir}

  -- `parent`.
  unfoldable pub parent : Runner → State → Bytes
  parent r s = if bytes_eq r.parent_dir [] then temp_dir s else r.parent_dir

  -- `sealTree`.
  unfoldable pub seal_tree : State → Bytes → Result Fault Bytes
  seal_tree s root = digest_reserved w s root (codes ".")

  -- The function that `CopyTree` gives to the walk.
  unfoldable pub copy_entry : State → Bytes → Entry → State × Option Bytes
  copy_entry s dst (link rel target) = (s, none)
  copy_entry s dst (dir rel) = make_dir s (join dst rel)
  copy_entry s dst (file rel body mode) = write_file s (join dst rel) body mode

  unfoldable pub copy_entries : Bytes → List Entry → State × Option Bytes → State × Option Bytes
  unfolding copy_entry
  copy_entries dst entries (s, some e) = (s, some e)
  copy_entries dst [] (s, none) = (s, none)
  copy_entries dst (entry ∷ rest) (s, none) = copy_entries dst rest (copy_entry s dst entry)

  unfoldable pub copied : Bytes → State × Option Bytes → State × Result Bytes Bytes
  copied dst (s, none) = (s, ok dst)
  copied dst (s, some e) = (s, err e)

  unfoldable pub copy_into : Bytes → State × Result Bytes Bytes → State × Result Bytes Bytes
  unfolding copied copy_entries
  copy_into src (s, err e) = (s, err e)
  copy_into src (s, ok dst) = elim (absolute s src >>= walk s) [
    | err e ↦ (s, err e)
    | ok entries ↦ copied dst (copy_entries dst entries (s, none))
  ]

  -- `CopyTree`.
  unfoldable pub copy_tree : State → Bytes → Bytes → State × Result Bytes Bytes
  unfolding copy_into
  copy_tree s src parent_path = copy_into src (make_temp s parent_path)

  module _ (r : Runner) (task : Task) (budget : Budget) (version : Bytes) (agent : Agent) where
    open agent use {Mind}

    unfoldable pub failed_run : State → Bytes → Ended State
    failed_run s e = record { state = s; trajectory = new_trajectory [] []; error = some e }

    abbrev pub changed_reason : Bytes
    changed_reason =
        codes "refused: the task snapshot changed during the attempt; every reading from it is void"

    -- The check of the snapshot after the attempt.
    unfoldable pub compared : Bytes → Ended State → Ended State
    compared sealed e = elim e.error [
      | some f ↦ e
      | none ↦ elim (seal_tree e.state task.snapshot) [
        | err f ↦ record e { error = some (fault_text f) }
        | ok after ↦ if bytes_eq after sealed then e else record e {
          trajectory = record e.trajectory {
            reward = zero_reward (length e.trajectory.steps) changed_reason true;
          };
        }
      ]
    ]

    -- The deferred `os.RemoveAll`.
    abbrev pub removed : Bytes → Ended State → Ended State
    removed root e = record e { state = remove_all e.state root }

    unfoldable pub ending : Bytes → Bytes → Option (Ended State) → Option (Ended State)
    unfolding compared
    ending root sealed none = none
    ending root sealed (some e) = some (removed root (compared sealed e))

    -- The loop of `drive` at its start.
    abbrev pub begin : State → Mind → Loop State Mind
    begin s mind = record {
      state = s;
      mind = mind;
      test_runs = 0;
      trajectory = new_trajectory task.id version;
    }

    -- From `NewSandbox` on.
    unfoldable pub on_copy : ℕ → Mind → Bytes → State × Result Bytes Bytes → Option (Ended State)
    unfolding failed_run ending timeout
    on_copy fuel mind sealed (s, err e) = some (failed_run s e)
    on_copy fuel mind sealed (s, ok root) =
        elim (new_sandbox w s root task.allowed_files r.reserved) [
          | err e ↦ some (removed root (failed_run s (fault_text e)))
          | ok box ↦
              ending root sealed (drive w agent (timeout r) task budget box fuel (begin s mind))
        ]

    -- `Run`, with the fuel of `drive`.
    unfoldable pub run : ℕ → State → Mind → Option (Ended State)
    unfolding on_copy failed_run
    run fuel s mind = elim (validate_task task) [
      | some e ↦ some (failed_run s e)
      | none ↦ elim (seal_tree s task.snapshot) [
        | err e ↦ some (failed_run s (fault_text e))
        | ok sealed ↦ on_copy fuel mind sealed (copy_tree s task.snapshot (parent r s))
      ]
    ]
