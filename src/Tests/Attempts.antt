-- ===== src/Tests/Attempts.antt =====
-- The theorems on the sandbox and the runner at concrete inputs.
use arandu_attempt.Base.{
  ℕ, ◌≡◌, refl, ◌↔◌, true, false, none, some, [], ◌∷◌, codes, bytes_eq, bytes_lt, All, arith,
  has_prefix,
}
use arandu_attempt.Base.Result.{ok}
use arandu_attempt.Trajectory.{string_arg}
use arandu_attempt.Sandbox.Path.{clean, join, parent_dir, trim_slash, sort_strings}
use arandu_attempt.Sandbox.{
  new_sandbox, verify_seal, confine, write, digest_reserved, digest_input, is_within, is_reserved,
  probe, lookup_or_empty, read, run_tests,
}
use arandu_attempt.Sandbox.Confined.{Confined, confine-Confined}
use arandu_attempt.Sandbox.Seal.{
  Intact, verify_seal_iff, verify_seal-new_sandbox, digest_input_collision, two_files, one_file,
}
use arandu_attempt.Sandbox.Writes.{Wrote, write-Wrote}
use arandu_attempt.Runner.{Ended, reward, execute, count_false_claims, is_spent, is_backed_by}
use arandu_attempt.Runner.Rounds.{drive, round}
use arandu_attempt.Runner.Claims.{Backed, count_false_claims_iff}
use arandu_attempt.Runner.Rewards.{Earned, reward_iff}
use arandu_attempt.Runner.Drive.{EndInv, LoopInv, drive-EndInv}
use arandu_attempt.Runner.Progress.{drive_total}
use arandu_attempt.Tests.{toy, task, budget, box, read_step, seen_claim, reader, start}

sealed_box_lem :
    new_sandbox toy 0 (codes "/w") (codes "a.go" ∷ []) (codes "evaluation/" ∷ []) ≡ ok box
unfolding new_sandbox clean trim_slash sort_strings digest_reserved join digest_input bytes_lt
    bytes_eq
sealed_box_lem = refl

confined_lem : confine toy 0 box (codes "./a.go") ≡ ok (codes "/w/a.go")
unfolding confine bytes_eq has_prefix clean join
confined_lem = refl

reward_iff_example :
    ((reward toy 0 task 0 box (read_step ∷ []) (seen_claim ∷ [])).1.score ≡ 1)
    ↔ Earned toy 0 task 0 box (read_step ∷ []) (seen_claim ∷ [])
reward_iff_example = reward_iff toy 0 task 0 box (read_step ∷ []) (seen_claim ∷ [])

count_false_claims_iff_example :
    (count_false_claims (read_step ∷ []) (seen_claim ∷ []) ≡ 0)
    ↔ All (Backed (read_step ∷ [])) (seen_claim ∷ [])
count_false_claims_iff_example = count_false_claims_iff (read_step ∷ []) (seen_claim ∷ [])

start-LoopInv : LoopInv toy reader 0 task budget box start
start-LoopInv = ((omega arith, omega arith), refl, tt)

drive_total_example : (e : Ended ℕ) × (drive toy reader 0 task budget box 4 start ≡ some e)
drive_total_example =
    drive_total toy reader 0 task budget box 2 4 start refl start-LoopInv (omega arith)

abbrev ended : Ended ℕ
ended = record {
  state = 0;
  trajectory = record start.trajectory {
    steps = read_step ∷ [];
    claims = seen_claim ∷ [];
    reward = record {
      score = 1;
      tests_passed = true;
      refused = false;
      false_claims = 0;
      tool_calls = 1;
      reason = codes "tests passed, every claim backed by an observation";
    };
  };
  error = none;
}

ended_lem : drive toy reader 0 task budget box 4 start ≡ some ended
unfolding drive round is_spent bytes_eq execute read confine string_arg has_prefix clean join reward
    verify_seal digest_reserved sort_strings lookup_or_empty run_tests count_false_claims bytes_lt
    digest_input is_backed_by is_within is_reserved probe parent_dir
ended_lem = refl

drive-EndInv_example : EndInv toy reader 0 task budget box ended
drive-EndInv_example =
    drive-EndInv toy reader 0 task budget box 4 start ended start-LoopInv ended_lem

verify_seal_iff_example : (verify_seal toy 0 box ≡ ok tt) ↔ Intact toy 0 box box.reserved
verify_seal_iff_example = verify_seal_iff toy 0 box

verify_seal-new_sandbox_example : verify_seal toy 0 box ≡ ok tt
verify_seal-new_sandbox_example =
    verify_seal-new_sandbox toy 0 (codes "/w") (codes "a.go" ∷ []) (codes "evaluation/" ∷ [])
      {box = box} sealed_box_lem

confine-Confined_example : Confined toy 0 box (codes "./a.go") (codes "/w/a.go")
confine-Confined_example =
    confine-Confined toy 0 box (codes "./a.go") {p = codes "/w/a.go"} (codes "w", refl) confined_lem

write-Wrote_example :
    Wrote toy 0 box
      (codes "a.go")
      (codes "package b")
      (write toy 0 box (codes "a.go") (codes "package b"))
write-Wrote_example = write-Wrote toy 0 box (codes "a.go") (codes "package b")

order_lem : bytes_lt (codes "b") (codes "a") ≡ false
unfolding bytes_lt
order_lem = refl

differ_lem : bytes_eq (codes "a") (codes "b") ≡ false
unfolding bytes_eq
differ_lem = refl

dot_lem : (bytes_eq (codes "a") (codes ".") ≡ false) × (bytes_eq (codes "b") (codes ".") ≡ false)
unfolding bytes_eq
dot_lem = (refl, refl)

digest_input_collision_example :
    digest_input (two_files (codes "a") (codes "x") (codes "b") (codes "y"))
    ≡ digest_input (one_file (codes "a") (codes "x") (codes "b") (codes "y"))
digest_input_collision_example =
    digest_input_collision (codes "a") (codes "x") (codes "b") (codes "y") order_lem differ_lem
      dot_lem.0 dot_lem.1
