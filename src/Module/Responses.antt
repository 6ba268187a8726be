-- ===== src/Module/Responses.antt =====
-- module.go, the handlers: lemmas on what a request is answered with.
use arandu_attempt.Base.{
  ℕ, suc, ◌≤◌, ◌≡◌, ◌≢◌, refl, ap, inl, inr, Bool, true, false, Option, none, some, List, [], ◌∷◌,
  map, length, Bytes, ◌==◌, arith, Bool-cases, if-intro,
}
use arandu_attempt.Base.Int.{pos}
use arandu_attempt.Service.{
  Attempt, Action, Subject, no_rule, Framework, Failure, framework, rejected, not_found,
  sort_not_allowed, page_limit,
}
use arandu_attempt.Service.Access.{AsksPolicy, no_rule-closed}
use arandu_attempt.Module.{
  Config, Web, Response, one, many, refuse, fault, panicked, new_resource, resources, new_resources,
  new_collection, collection_from_pointers, last_id, is_full, next_cursor, subject, answer, listed,
  index, shown, show, created, store,
}

-- Whether a response holds a record.
abbrev pub has_record : {E V : Type 0} → Response E V → Bool
has_record (one _ _) = true
has_record (many _ _ _) = true
has_record (refuse _ _) = false
has_record (fault _) = false
has_record panicked = false

-- The two constructors of a collection agree on records without a nil pointer.
pub new_collection-pointers :
    (rs : List Attempt) (cursor : Bytes)
    → new_collection rs cursor ≡ collection_from_pointers (map some rs) cursor
unfolding new_collection collection_from_pointers
new_collection-pointers rs cursor = ap (λ l. record { records = l; cursor = cursor }) (same rs)
  where
    same : (rs : List Attempt) → new_resources rs ≡ resources (map some rs)
    same [] = refl
    same (r ∷ rs) = ap (λ l. new_resource r ∷ l) (same rs)

last_id_cons : (r : Attempt) (rs : List Attempt) → (c : Bytes) × (last_id (r ∷ rs) ≡ some c)
last_id_cons r [] = (r.id, refl)
last_id_cons r (q ∷ rs) = last_id_cons q rs

-- On a page of a positive size, `index` finds a last record where it looks for one.
pub next_cursor_lem :
    (n : ℕ) (records : List Attempt)
    → (c : Bytes) × (next_cursor (pos (suc n)) records ≡ some c)
      × (length records ≡ suc n → last_id records ≡ some c)
      × (length records ≢ suc n → c ≡ [])
unfolding next_cursor is_full
next_cursor_lem n [] = ([], ground arith, λ h. absurd (omega arith), λ _. refl)
next_cursor_lem n (r ∷ rs) =
    let (c, last) = last_id_cons r rs in
    elim (Bool-cases (length (r ∷ rs) == suc n)) [
      | inl full ↦ (c, rw (full, last) refl, λ _. last, λ h. absurd (h (ground arith)))
      | inr short ↦ ([], rw (short) refl, λ h. absurd (ground arith), λ _. refl)
    ]

pub page_limit_lem : (n : ℕ) → n ≤ 199 → page_limit (pos (suc n)) ≡ suc n
unfolding page_limit
page_limit_lem n h = ground arith

module _ (f : Framework) (web : Web f) (cfg : Config)
    (custom : Subject → Action → Attempt → Bool) where
  answer-empty : (e : Failure f.Error f.Errors) → has_record (answer f web custom cfg e) ≡ false
  unfolding answer
  answer-empty (framework e) =
      if-intro {A = Response f.Error f.Errors} (λ r. has_record r ≡ false) (f.is_forbidden e) _ _
        (λ _. refl) (λ _. unknown (f.as_rejected e))
    where
      unknown :
          (o : Option f.Errors)
          → has_record {V = f.Errors}
              (elim o [ some errs ↦ refuse 422 (f.message errs) | none ↦ fault (framework e) ])
            ≡ false
      unknown none = refl
      unknown (some errs) = refl
  answer-empty (rejected errs) = refl
  answer-empty not_found = refl
  answer-empty (sort_not_allowed field) = refl

  -- With no rule in the custom block, no request is answered with a record, and none changes the
  -- state: where `Authorize` grants only what the policy allows.
  pub no_rule-empty :
      AsksPolicy f
      → custom ≡ no_rule
      → (s : f.State) (r : web.Request)
      → ((sort cursor : Bytes) → has_record (index f web custom cfg s r sort cursor) ≡ false)
        × ((id : Bytes) → has_record (show f web custom cfg s r id) ≡ false)
        × ((name : Bytes)
            → ((store f web custom cfg s r name).0 ≡ s)
              × (has_record (store f web custom cfg s r name).1 ≡ false))
  unfolding index show store listed shown created
  no_rule-empty asks shipped s r =
      let (creates, finds, lists) =
        no_rule-closed f custom asks shipped s (subject f web custom cfg s r) in
      (
        λ sort cursor.
            let (e, no_list) =
              lists (record { sort = sort; cursor = cursor; limit = cfg.page_size }) in
            rw (no_list) (answer-empty e),
        λ id. let (e, none_found) = finds id in rw (none_found) (answer-empty e),
        λ name. let (e, none_made) = creates name in rw (none_made) (refl, answer-empty e),
      )
