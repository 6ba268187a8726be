-- ===== src/Runner/Claims.antt =====
-- runner.go, `countFalseClaims`: claims and what may back them.
use arandu_attempt.Base.{
  ℕ, ◌≡◌, refl, ◌↔◌, ◌⊎◌, inl, inr, true, false, not, ◌&&◌, some, List, [], ◌∷◌, ◌++◌, Bytes, codes,
  bytes_eq, bytes_eq_iff, bytes_eq_refl, has_prefix_iff, get_elem?, All, arith, Bool-cases,
  Option-cases,
}
use arandu_attempt.Base.Int.{ℤ, pos, negsuc}
use arandu_attempt.Trajectory.{
  tool_read_file, tool_list_tree, tool_run_tests, string_arg, claim_file_exists, claim_tests_pass,
  claim_tests_fail, Claim, Step,
}
use arandu_attempt.Runner.{is_backed_by, cited, is_backed, count_false_claims}

-- What a claim may rest on: a read or a listing of its target that succeeded, or a test run whose
-- recorded outcome is the one claimed.
pub data Supports (step : Step) (c : Claim) : Type 0 where
  file_seen :
      c.kind ≡ claim_file_exists
      → (step.observation.tool ≡ tool_read_file) ⊎ (step.observation.tool ≡ tool_list_tree)
      → step.observation.refused ≡ false
      → step.observation.is_error ≡ false
      → string_arg (codes "path") step.call.args ≡ c.target
      → Supports step c
  tests_passed :
      c.kind ≡ claim_tests_pass
      → step.observation.tool ≡ tool_run_tests
      → step.observation.refused ≡ false
      → (t : Bytes) × (step.observation.output ≡ codes "passed=true" ++ t)
      → Supports step c
  tests_failed :
      c.kind ≡ claim_tests_fail
      → step.observation.tool ≡ tool_run_tests
      → step.observation.refused ≡ false
      → (t : Bytes) × (step.observation.output ≡ codes "passed=false" ++ t)
      → Supports step c

-- A claim is backed by the step that it cites.
abbrev pub Backed : List Step → Claim → Type 0
Backed steps c =
    (i : ℕ) × (step : Step) × (c.evidence_ref ≡ pos i)
    × (get_elem? steps i ≡ some step)
    × Supports step c

tool_cases :
    (t a b : Bytes) → (not (bytes_eq t a) && not (bytes_eq t b)) ≡ false → (t ≡ a) ⊎ (t ≡ b)
tool_cases t a b h = elim (Bool-cases (bytes_eq t a)) [
  | inl y ↦ inl ((bytes_eq_iff t a).0 y)
  | inr n ↦ inr ((bytes_eq_iff t b).0 (ground (arith, n, h)))
]

is_backed_by_sound : (c : Claim) (step : Step) → is_backed_by c step ≡ true → Supports step c
unfolding is_backed_by
is_backed_by_sound c step h = elim (Bool-cases (bytes_eq c.kind claim_file_exists)) [
  | inl file_claim ↦
      let obs = step.observation in
      let tools : (not (bytes_eq obs.tool tool_read_file) && not (bytes_eq obs.tool tool_list_tree))
          ≡ false =
        ground arith in
      file_seen ((bytes_eq_iff c.kind claim_file_exists).0 file_claim)
        (tool_cases obs.tool tool_read_file tool_list_tree tools) (ground arith) (ground arith)
        ((bytes_eq_iff _ _).0 (ground arith))
  | inr n ↦ elim (Bool-cases (bytes_eq c.kind claim_tests_pass)) [
    | inl pass_claim ↦
        tests_passed ((bytes_eq_iff c.kind claim_tests_pass).0 pass_claim)
          ((bytes_eq_iff _ _).0 (ground arith)) (ground arith)
          ((has_prefix_iff step.observation.output (codes "passed=true")).0 (ground arith))
    | inr m ↦
        tests_failed ((bytes_eq_iff c.kind claim_tests_fail).0 (ground arith))
          ((bytes_eq_iff _ _).0 (ground arith)) (ground arith)
          ((has_prefix_iff step.observation.output (codes "passed=false")).0 (ground arith))
  ]
]

kinds_differ :
    (bytes_eq claim_tests_pass claim_file_exists ≡ false)
    × (bytes_eq claim_tests_fail claim_file_exists ≡ false)
    × (bytes_eq claim_tests_fail claim_tests_pass ≡ false)
unfolding bytes_eq
kinds_differ = (refl, refl, refl)

tool_known :
    (t a b : Bytes) → (t ≡ a) ⊎ (t ≡ b) → (not (bytes_eq t a) && not (bytes_eq t b)) ≡ false
tool_known t a b (inl e) = ground (arith, (bytes_eq_iff t a).1 e)
tool_known t a b (inr e) = ground (arith, (bytes_eq_iff t b).1 e)

is_backed_by_complete : (c : Claim) (step : Step) → Supports step c → is_backed_by c step ≡ true
unfolding is_backed_by
is_backed_by_complete c step (file_seen k t r e p) =
    let file_claim = (bytes_eq_iff c.kind claim_file_exists).1 k in
    let tools = tool_known step.observation.tool tool_read_file tool_list_tree t in
    let path = (bytes_eq_iff _ _).1 p in rw (file_claim, r, e, tools, path)
is_backed_by_complete c step (tests_passed k t r o) =
    let tool = (bytes_eq_iff _ _).1 t in
    let output = (has_prefix_iff step.observation.output (codes "passed=true")).1 o in
    rw k (rw (kinds_differ.0, bytes_eq_refl claim_tests_pass, tool, r, output))
is_backed_by_complete c step (tests_failed k t r o) =
    let tool = (bytes_eq_iff _ _).1 t in
    let output = (has_prefix_iff step.observation.output (codes "passed=false")).1 o in
    rw k (rw (kinds_differ.1, kinds_differ.2, bytes_eq_refl claim_tests_fail, tool, r, output))

is_backed_sound :
    (steps : List Step) (c : Claim) (z : ℤ)
    → is_backed c (cited z steps) ≡ true
    → (i : ℕ) × (step : Step) × (z ≡ pos i) × (get_elem? steps i ≡ some step) × Supports step c
unfolding is_backed cited
is_backed_sound steps c (negsuc n) h = cc
is_backed_sound steps c (pos i) h = elim (Option-cases (get_elem? steps i)) [
  | inl e ↦ cc (rw e at h)
  | inr (step, e) ↦ (i, step, refl, e, is_backed_by_sound c step (rw e at h))
]

is_backed_complete :
    (steps : List Step) (c : Claim)
    → Backed steps c
    → is_backed c (cited c.evidence_ref steps) ≡ true
unfolding is_backed cited
is_backed_complete steps c (i, step, z, e, s) = rw z (rw e (is_backed_by_complete c step s))

is_backed_iff :
    (steps : List Step) (c : Claim)
    → (is_backed c (cited c.evidence_ref steps) ≡ true) ↔ Backed steps c
is_backed_iff steps c = (is_backed_sound steps c c.evidence_ref, is_backed_complete steps c)

-- `countFalseClaims` finds no false claim exactly when every claim is backed by the step that it
-- cites: a file claim by a successful read or listing of its target, a test claim by a test run
-- that was not refused and whose output starts with the outcome claimed.
pub count_false_claims_iff :
    (steps : List Step) (claims : List Claim)
    → (count_false_claims steps claims ≡ 0) ↔ All (Backed steps) claims
unfolding count_false_claims
count_false_claims_iff steps [] = (λ h. tt, λ h. refl)
count_false_claims_iff steps (c ∷ cs) =
    let ih = count_false_claims_iff steps cs in
    let iff = is_backed_iff steps c in
    (
      λ h. (iff.0 (ground arith), ih.0 (ground arith)),
      λ h. let first = iff.1 h.0 in let rest = ih.1 h.1 in ground arith,
    )
