-- ===== src/Runner/Reproduced.antt =====
-- runner.go, `drive` and `scripted`: a replay from the state in which a run began.
pub mod Reasons
pub mod Calls
use arandu_attempt.Base.{
  ℕ, zero, suc, ◌≡◌, ◌≢◌, refl, sym, ap, ap₂, ◌∙◌, inl, inr, ◌⊎◌, Bool, true, false, Option, none,
  some, List, [], ◌∷◌, ◌++◌, append-nil, append_assoc, length, get_elem?, get_elem?-length, Bytes,
  codes, Bool-cases, arith,
}
use arandu_attempt.Base.Result.{Result, ok, err}
use arandu_attempt.Trajectory.{Task, Budget, ToolCall, Step, Claim, Trajectory}
use arandu_attempt.World.{World}
use arandu_attempt.Sandbox.{Sandbox}
use arandu_attempt.Runner.{Agent, Action, Ended, is_spent, reward, zero_reward}
use arandu_attempt.Runner.Rounds.{
  Loop, Round, stop, go, rewarded, aborted, perform, finished, acted, decided, round, drive,
}
use arandu_attempt.Runner.Replays.{next_call, next_action, scripted, recorded_script}
use arandu_attempt.Runner.Reproduced.Reasons.{exhausted, byte_at, reward-not_exhausted}
use arandu_attempt.Runner.Reproduced.Calls.{
  get_elem?-end, Outcome, without_mind, mindless, after, drive_step, call_step, round_end, Grown,
  perform-Grown,
}

module _ (w : World) (agent : Agent) (time : ℕ) (task : Task) (budget : Budget)
    (box : Sandbox) where
  open w use {State}
  open agent use {Mind}

  -- A run that has ended without an error.
  module _ (e : Ended State) (no_error : e.error ≡ none) where
    abbrev replayer : Agent
    replayer = scripted (recorded_script e.trajectory)

    abbrev drive_again : ℕ → Loop State (Unit {0}) → Option (Ended State)
    drive_again = drive w replayer time task budget box

    abbrev Again : ℕ → Loop State Mind → Type 0
    Again fuel c =
        (more : List Step) × (e.trajectory.steps ≡ c.trajectory.steps ++ more)
        × (e.trajectory.policy_version ≡ c.trajectory.policy_version)
        × ((e' : Ended State) × (drive_again fuel (without_mind c) ≡ some e') × Outcome e e')

    abbrev IsUnspent : Loop State Mind → Type 0
    IsUnspent c = is_spent budget.max_tool_calls (length c.trajectory.steps) ≡ false

    as_it_did : (e' : Ended State) → e' ≡ e → e'.trajectory.reward.reason ≢ exhausted → Outcome e e
    as_it_did e' same other =
        (λ h. other (ap (λ (x : Ended State). x.trajectory.reward.reason) same ∙ h), inl refl)

    -- The replay makes the call of the step that the run recorded.
    call_again :
        (fuel : ℕ) (c : Loop State Mind) (st : Step) (more : List Step) (e' : Ended State)
        → IsUnspent c
        → e.trajectory.steps ≡ c.trajectory.steps ++ st ∷ more
        → after (drive_again fuel) (mindless (perform w agent time task budget box c st.call))
          ≡ some e'
        → drive_again (suc fuel) (without_mind c) ≡ some e'
    call_again fuel c st more e' unspent steps played =
        call_step w agent time task budget box e.trajectory fuel c st more unspent steps ∙ played

    abbrev spent_end : Loop State Mind → Ended State
    spent_end c = record {
      state = c.state;
      trajectory = record c.trajectory {
        reward =
            zero_reward (length c.trajectory.steps) (codes "budget: tool calls exhausted") false;
      };
      error = none;
    }

    spent-Again :
        (fuel : ℕ) (c : Loop State Mind)
        → is_spent budget.max_tool_calls (length c.trajectory.steps) ≡ true
        → spent_end c ≡ e
        → Again (suc fuel) c
    unfolding round rewarded
    spent-Again fuel c spent same = (
      [],
      ap (λ (x : Ended State). x.trajectory.steps) (sym same) ∙ sym (append-nil c.trajectory.steps),
      ap (λ (x : Ended State). x.trajectory.policy_version) (sym same),
      (
        e,
        drive_step w replayer time task budget box fuel (without_mind c) ∙ rw spent (ap some same),
        as_it_did (spent_end c) same (λ h. omega (arith, ap (byte_at 9) h)),
      ),
    )

    abbrev judged_end : Loop State Mind → Bytes → List Claim → Ended State
    judged_end c final claims = record {
      state = (reward w time task c.state box c.trajectory.steps claims).0;
      trajectory = record c.trajectory {
        final = final;
        claims = claims;
        reward = (reward w time task c.state box c.trajectory.steps claims).1;
      };
      error = none;
    }

    -- The replay ends where the steps of the record do.
    ends_again :
        (fuel : ℕ) (c : Loop State Mind)
        → IsUnspent c
        → e.trajectory.steps ≡ c.trajectory.steps
        → drive_again (suc fuel) (without_mind c)
          ≡ some (judged_end c e.trajectory.final e.trajectory.claims)
    unfolding finished rewarded
    ends_again fuel c unspent steps =
        let found : get_elem? e.trajectory.steps (length c.trajectory.steps) ≡ none =
          rw steps (get_elem?-end c.trajectory.steps) in
        drive_step w replayer time task budget box fuel (without_mind c)
        ∙ ap (after (drive_again fuel))
            (round_end w agent time task budget box e.trajectory c unspent found)

    end-Again :
        (fuel : ℕ) (c : Loop State Mind) (final : Bytes) (claims : List Claim)
        → IsUnspent c
        → judged_end c final claims ≡ e
        → Again (suc fuel) c
    end-Again fuel c final claims unspent same =
        let steps : e.trajectory.steps ≡ c.trajectory.steps =
          ap (λ (x : Ended State). x.trajectory.steps) (sym same) in
        (
          [],
          steps ∙ sym (append-nil c.trajectory.steps),
          ap (λ (x : Ended State). x.trajectory.policy_version) (sym same),
          (
            e,
            ends_again fuel c unspent steps
                ∙ ap₂ (λ x y. some (judged_end c x y))
                    (ap (λ (x : Ended State). x.trajectory.final) (sym same))
                    (ap (λ (x : Ended State). x.trajectory.claims) (sym same))
                ∙ ap some same,
            as_it_did (judged_end c final claims) same
                (reward-not_exhausted w time task c.state box c.trajectory.steps claims),
          ),
        )

    -- A round that makes a call.
    perform_follows :
        (fuel : ℕ) (c : Loop State Mind) (call : ToolCall) (r : Round State Mind)
        → IsUnspent c
        → perform w agent time task budget box c call ≡ r
        → Grown w agent time task budget box c.trajectory call r
        → ((c' : Loop State Mind)
            → drive w agent time task budget box fuel c' ≡ some e
            → Again fuel c')
        → after (drive w agent time task budget box fuel) r ≡ some e
        → Again (suc fuel) c
    perform_follows fuel c call (stop e') unspent made (inl (reason, steps, version)) later h =
        let ended : e ≡ e' = cc h in
        let whole = ap (λ (x : Ended State). x.trajectory.steps) ended ∙ steps in
        (
          [],
          whole ∙ sym (append-nil c.trajectory.steps),
          ap (λ (x : Ended State). x.trajectory.policy_version) ended ∙ version,
          (
            judged_end c e.trajectory.final e.trajectory.claims,
            ends_again fuel c unspent whole,
            (
              reward-not_exhausted w time task c.state box c.trajectory.steps e.trajectory.claims,
              inr (ap (λ (x : Ended State). x.trajectory.reward.reason) ended ∙ reason),
            ),
          ),
        )
    perform_follows fuel c call (stop e') unspent made (inr (other, (st, same, steps, version)))
          later h =
        let ended : e ≡ e' = cc h in
        let whole = ap (λ (x : Ended State). x.trajectory.steps) ended ∙ steps in
        (
          st ∷ [],
          whole,
          ap (λ (x : Ended State). x.trajectory.policy_version) ended ∙ version,
          (
            e,
            call_again fuel c st [] e unspent whole (rw (same, made) (ap some (sym ended))),
            as_it_did e' (sym ended) other,
          ),
        )
    perform_follows fuel c call (go c') unspent made (st, same, steps, version) later h =
        let (more, rest, kept, (last, played, outcome)) = later c' h in
        let whole =
          rest ∙ ap (λ l. l ++ more) steps ∙ append_assoc c.trajectory.steps (st ∷ []) more in
        (
          st ∷ more,
          whole,
          kept ∙ version,
          (last, call_again fuel c st more last unspent whole (rw (same, made) played), outcome),
        )

    not_aborted :
        (s : State) (t : Trajectory) (x : Bytes)
        → ◌≡◌ {A = Ended State} (record { state = s; trajectory = t; error = some x }) e
        → ⊥
    not_aborted s t x same =
        let found = ap (λ (y : Ended State). y.error) same ∙ no_error in cc found

    acted_follows :
        (fuel : ℕ) (c : Loop State Mind) (call : Option ToolCall) (done : Bool) (final : Bytes)
        (claims : List Claim)
        → IsUnspent c
        → ((c' : Loop State Mind)
            → drive w agent time task budget box fuel c' ≡ some e
            → Again fuel c')
        → after (drive w agent time task budget box fuel) (
            acted w agent time task budget box c
              (record { call = call; done = done; final = final; claims = claims }))
          ≡ some e
        → Again (suc fuel) c
    unfolding acted finished rewarded aborted
    acted_follows fuel c call true final claims unspent later h =
        end-Again fuel c final claims unspent (cc h)
    acted_follows fuel c none false final claims unspent later h = absurd (
        not_aborted c.state c.trajectory (codes "attempt: agent returned neither a call nor done")
          (cc h))
    acted_follows fuel c (some call) false final claims unspent later h =
        perform_follows fuel c call (perform w agent time task budget box c call) unspent refl
          (perform-Grown w agent time task budget box c call) later h

    decided_follows :
        (fuel : ℕ) (c : Loop State Mind) (r : Mind × Result Bytes Action)
        → IsUnspent c
        → ((c' : Loop State Mind)
            → drive w agent time task budget box fuel c' ≡ some e
            → Again fuel c')
        → after (drive w agent time task budget box fuel) (decided w agent time task budget box c r)
          ≡ some e
        → Again (suc fuel) c
    unfolding decided aborted
    decided_follows fuel c (m, err x) unspent later h =
        absurd (not_aborted c.state c.trajectory x (cc h))
    decided_follows fuel c (m, ok a) unspent later h =
        acted_follows fuel (record c { mind = m }) a.call a.done a.final a.claims unspent later h

    -- From the state in which a loop began, the script of its record leads to the same end, or to
    -- another where no test run was left.
    pub drive_again_lem :
        (fuel : ℕ) (c : Loop State Mind)
        → drive w agent time task budget box fuel c ≡ some e
        → Again fuel c
    unfolding round rewarded
    drive_again_lem zero c h = absurd (out_of_fuel h)
      where
        out_of_fuel : drive w agent time task budget box 0 c ≡ some e → ⊥
        out_of_fuel h = unfold drive in cc h
    drive_again_lem (suc fuel) c h =
        let first = sym (drive_step w agent time task budget box fuel c) ∙ h in
        elim (Bool-cases (is_spent budget.max_tool_calls (length c.trajectory.steps))) [
          | inl y ↦ spent-Again fuel c y (cc (rw y at first))
          | inr n ↦
              decided_follows fuel c (agent.next c.mind c.trajectory.steps) n
                (λ c'. drive_again_lem fuel c') (rw n at first)
        ]
