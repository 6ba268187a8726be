-- ===== src/Tests/Runs.antt =====
-- The theorems on a whole run at a concrete input.
use arandu_attempt.Base.{
  ℕ, ◌⊎◌, decimal, replace_all, ◌++◌, ◌≡◌, refl, Bool, true, false, none, some, [], ◌∷◌, codes,
  bytes_eq, bytes_eq_iff, bytes_lt, has_prefix, arith, Bytes, ◌≢◌,
}
use arandu_attempt.Base.Int.{pos}
use arandu_attempt.Base.Result.{ok}
use arandu_attempt.Trajectory.{tool_run_tests, string_arg, ToolCall, Step, Reward}
use arandu_attempt.Sandbox.Path.{clean, join, parent_dir, trim_slash, sort_strings}
use arandu_attempt.Sandbox.{
  new_sandbox, verify_seal, confine, digest_reserved, digest_input, is_within, is_reserved, probe,
  lookup_or_empty, read, run_tests,
}
use arandu_attempt.Runner.{
  Agent, Ended, zero_reward, reward, execute, count_false_claims, is_spent, is_backed_by,
}
use arandu_attempt.Runner.Rounds.{drive, round, is_over}
use arandu_attempt.Runner.Runs.{
  Runner, run, validate_task, seal_tree, copy_tree, copy_entry, copy_entries, copied, parent,
  compared, on_copy, ending, changed_reason,
}
use arandu_attempt.Runner.Whole.{Delivered, run-Delivered, run_total}
use arandu_attempt.Runner.Replays.{
  Encoder, digest, replay, verify, scripted, recorded_script, next_action, next_call,
}
use arandu_attempt.Runner.Reproduced.Reasons.{exhausted}
use arandu_attempt.Runner.Accepted.{Collision, verify-Delivered}
use arandu_attempt.Runner.Verified.{verify-run}
use arandu_attempt.Runner.Diverged.{verify-exhausted}
use arandu_attempt.Runner.Prefix.{FollowsFrom, drive-Follows}
use arandu_attempt.Tests.{toy, task, budget, box, start, read_step, seen_claim, reader}

abbrev runner : Runner
runner = record { parent_dir = []; reserved = codes "evaluation" ∷ []; test_timeout = pos 0 }

abbrev outcome : Ended ℕ
outcome = record {
  state = 1;
  trajectory = record {
    task_id = codes "t";
    policy_version = [];
    steps = read_step ∷ [];
    claims = seen_claim ∷ [];
    final = [];
    reward = record {
      score = 1;
      tests_passed = true;
      refused = false;
      false_claims = 0;
      tool_calls = 1;
      reason = codes "tests passed, every claim backed by an observation";
    };
  };
  error = none;
}

outcome_lem : run toy runner task budget [] reader 4 0 tt ≡ some outcome
unfolding run validate_task bytes_eq seal_tree digest_reserved copy_tree copy_entry copy_entries
    copied new_sandbox drive round is_spent execute read confine string_arg has_prefix clean
    trim_slash join bytes_lt compared count_false_claims is_backed_by parent parent_dir reward
    verify_seal sort_strings digest_input is_reserved is_within lookup_or_empty probe run_tests
    on_copy ending
outcome_lem = refl

run-Delivered_example : Delivered toy runner task budget [] reader 0 outcome
run-Delivered_example =
    run-Delivered toy runner task budget [] reader 4 0 tt outcome outcome_lem refl refl

run_total_example : (e : Ended ℕ) × (run toy runner task budget [] reader 4 0 tt ≡ some e)
run_total_example = run_total toy runner task budget [] reader 2 4 0 tt refl (omega arith)

abbrev replayed : Ended ℕ
replayed = record { state = 0; trajectory = outcome.trajectory; error = none }

replayed_lem :
    drive toy (scripted (recorded_script outcome.trajectory)) 0 task budget box 4 start
    ≡ some replayed
unfolding drive round is_spent bytes_eq execute read confine string_arg has_prefix clean join reward
    verify_seal digest_reserved sort_strings lookup_or_empty run_tests count_false_claims bytes_lt
    digest_input is_backed_by is_within is_reserved probe parent_dir next_action next_call
replayed_lem = refl

drive-Follows_example : FollowsFrom outcome.trajectory.steps replayed.trajectory.steps
drive-Follows_example =
    drive-Follows toy outcome.trajectory 0 task budget box 4 start replayed refl replayed_lem

-- An encoding that shows the whole reward.
abbrev bit : Bool → ℕ
bit true = 1
bit false = 0

abbrev reward_body : Reward → Bytes
reward_body r =
    r.score ∷ bit r.tests_passed ∷ bit r.refused ∷ r.false_claims ∷ r.tool_calls ∷ r.reason

abbrev enc : Encoder
enc = record {
  show_value = λ v. [];
  encode = λ id steps claims final reward. ok (reward_body reward);
}

encoded : digest enc toy outcome.trajectory ≡ ok (reward_body outcome.trajectory.reward)
unfolding digest
encoded = refl

differ : (a b : Bytes) → bytes_eq a b ≡ false → a ≢ b
differ a b h e = absurd (cc (h, (bytes_eq_iff a b).1 e))

abbrev reason : Bytes
reason = outcome.trajectory.reward.reason

abbrev changed : Bytes
changed = changed_reason toy runner task budget [] reader

unchanged : bytes_eq reason changed ≡ false
unfolding bytes_eq
unchanged = refl

not_exhausted : bytes_eq reason exhausted ≡ false
unfolding bytes_eq
not_exhausted = refl

verify-run_example : verify enc toy runner task budget 4 0 outcome.trajectory ≡ some none
verify-run_example =
    verify-run toy runner task budget [] reader enc 4 0 tt outcome
      (reward_body outcome.trajectory.reward) outcome_lem refl (differ reason changed unchanged)
      (differ reason exhausted not_exhausted) encoded

verify-Delivered_example :
    (e : Ended ℕ) × (replay enc toy runner task budget 4 0 outcome.trajectory ≡ some e)
    × (((e.trajectory.reward ≡ outcome.trajectory.reward)
          × Delivered toy runner task budget outcome.trajectory.policy_version
              (scripted (recorded_script outcome.trajectory))
              0
              e)
        ⊎ Collision enc toy e.trajectory outcome.trajectory)
verify-Delivered_example =
    verify-Delivered enc toy runner task budget 4 0 outcome.trajectory
      (verify-run toy runner task budget [] reader enc 4 0 tt outcome
        (reward_body outcome.trajectory.reward) outcome_lem refl (differ reason changed unchanged)
        (differ reason exhausted not_exhausted) encoded)
      refl

-- It runs the tests again and again.
abbrev tests_call : ToolCall
tests_call = record { tool = tool_run_tests; args = [] }

abbrev tester : Agent
tester = record {
  Mind = Unit {0};
  next = λ m steps.
      (tt, ok (record { call = some tests_call; done = false; final = []; claims = [] }));
}

abbrev tests_step : Step
tests_step = record {
  call = tests_call;
  observation = record {
    index = 0;
    tool = tool_run_tests;
    output = codes "passed=true exit=0" ++ 10 ∷ codes "ok";
    is_error = false;
    refused = false;
  };
}

abbrev tested : Ended ℕ
tested = record {
  state = 1;
  trajectory = record {
    task_id = codes "t";
    policy_version = [];
    steps = tests_step ∷ [];
    claims = [];
    final = [];
    reward = zero_reward 1 exhausted false;
  };
  error = none;
}

tested_lem : run toy runner task budget [] tester 4 0 tt ≡ some tested
unfolding run validate_task bytes_eq seal_tree digest_reserved copy_tree copy_entry copy_entries
    copied new_sandbox drive round is_spent is_over execute confine string_arg has_prefix clean
    trim_slash join bytes_lt compared parent parent_dir verify_seal sort_strings digest_input
    is_reserved is_within lookup_or_empty probe run_tests on_copy ending decimal replace_all
tested_lem = refl

verify-exhausted_example :
    ((f : Bytes) × (verify enc toy runner task budget 4 0 tested.trajectory ≡ some (some f)))
    ⊎ ((e' : Ended ℕ) × (replay enc toy runner task budget 4 0 tested.trajectory ≡ some e')
        × Collision enc toy e'.trajectory tested.trajectory)
verify-exhausted_example =
    verify-exhausted toy runner task budget [] tester enc 4 0 tt tested tested_lem refl refl
