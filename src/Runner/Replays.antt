-- ===== src/Runner/Replays.antt =====
-- runner.go, `scripted`, `Replay` and `Verify`, and trajectory.go, `Digest`. The encoder of
-- encoding/json and `%v` of fmt are the record `Encoder`.
use arandu_attempt.Base.{
  ℕ, true, false, Option, none, some, List, [], ◌∷◌, ◌++◌, map, Bytes, codes, bytes_eq, length,
  take, get_elem?, if◌then◌else◌,
}
use arandu_attempt.Base.Result.{Result, ok, err, ◌>>=◌}
use arandu_attempt.Trajectory.{
  Task, Budget, ToolCall, Value, Observation, Step, Claim, Reward, Trajectory,
}
use arandu_attempt.World.{World}
use arandu_attempt.Sandbox.Path.{sort_strings}
use arandu_attempt.Runner.{Action, Agent, Ended}
use arandu_attempt.Runner.Runs.{Runner, run}

-- `scripted`.
pub record Script : Type 0 where
  pub steps : List Step
  pub final : Bytes
  pub claims : List Claim
  pub calls : List ToolCall

abbrev pub finish : Script → Action
finish s = record { call = none; done = true; final = s.final; claims = s.claims }

abbrev pub make_call : ToolCall → Action
make_call c = record { call = some c; done = false; final = []; claims = [] }

-- An index below the length is a lookup that finds something.
unfoldable pub next_call : Script → Option ToolCall → Action
next_call s none = finish s
next_call s (some c) = make_call c

abbrev pub step_call : Option Step → Option ToolCall
step_call none = none
step_call (some st) = some st.call

-- `scripted.Next`.
unfoldable pub next_action : Script → List Step → Action
unfolding next_call
next_action s so_far = elim s.calls [
  | [] ↦ next_call s (step_call (get_elem? s.steps (length so_far)))
  | c ∷ cs ↦ next_call s (get_elem? (c ∷ cs) (length so_far))
]

abbrev pub scripted : Script → Agent
scripted s = record { Mind = Unit {0}; next = λ m so_far. (m, ok (next_action s so_far)) }

-- `Scripted`.
abbrev pub scripted_calls : List ToolCall → Bytes → List Claim → Agent
scripted_calls calls final claims =
    scripted (record { steps = []; final = final; claims = claims; calls = calls })

abbrev pub recorded_script : Trajectory → Script
recorded_script t = record { steps = t.steps; final = t.final; claims = t.claims; calls = [] }

-- `stableStep`.
pub record StableStep : Type 0 where
  pub tool : Bytes
  pub args : List Bytes
  pub obs : Observation

pub record Encoder : Type 0 where
  pub show_value : Value → Bytes
  pub encode : Bytes → List StableStep → List Claim → Bytes → Reward → Result Bytes Bytes

module _ (enc : Encoder) where
  -- `fmt.Sprintf("%s=%v", k, s.Call.Args[k])`, for a key of the map.
  show_arg : List (Bytes × Value) → Bytes → Bytes
  show_arg [] k = k ++ codes "=<nil>"
  show_arg ((j, v) ∷ rest) k =
      if bytes_eq j k then k ++ b'=' ∷ enc.show_value v else show_arg rest k

  unfoldable pub stable_step : Step → StableStep
  unfolding show_arg
  stable_step s = record {
    tool = s.call.tool;
    args = map (show_arg s.call.args) (sort_strings (map (λ a. a.0) s.call.args));
    obs = s.observation;
  }

  module _ (w : World) where
    open w use {State, hash}

    -- `Digest`.
    unfoldable pub digest : Trajectory → Result Bytes Bytes
    unfolding stable_step
    digest t = enc.encode t.task_id (map stable_step t.steps) t.claims t.final t.reward >>= λ body.
        ok (hash body)

    module _ (r : Runner) (task : Task) (budget : Budget) where
      -- `Replay`.
      unfoldable pub replay : ℕ → State → Trajectory → Option (Ended State)
      replay fuel s t =
          run w r task budget t.policy_version (scripted (recorded_script t)) fuel s tt

      unfoldable pub diverged : Bytes → Bytes → Bytes → Option Bytes
      diverged id want got =
          if bytes_eq want got
          then none
          else some (
              codes "attempt: replay of "
              ++ id
              ++ codes " diverged: recorded "
              ++ take 12 want
              ++ codes ", replayed "
              ++ take 12 got)

      unfoldable pub compared_digests :
          Bytes → Result Bytes Bytes → Result Bytes Bytes → Option Bytes
      unfolding diverged
      compared_digests id (err e) got = some e
      compared_digests id (ok want) (err e) = some e
      compared_digests id (ok want) (ok got) = diverged id want got

      unfoldable pub verdict : Trajectory → Ended State → Option Bytes
      unfolding compared_digests
      verdict t e = elim e.error [
        | some f ↦ some f
        | none ↦ compared_digests t.task_id (digest t) (digest e.trajectory)
      ]

      -- `Verify`: the error, if the replay ends.
      unfoldable pub verify : ℕ → State → Trajectory → Option (Option Bytes)
      unfolding verdict
      verify fuel s t = elim (replay fuel s t) [ none ↦ none | some e ↦ some (verdict t e) ]
