-- ===== src/AttemptQuery/Refined.antt =====
-- service.go: the service over the query is the service over the framework.
use arandu_attempt.Base.{◌≡◌, refl, ap, Bool, Option, none, some, Bytes, inl, inr, Bool-cases}
use arandu_attempt.Base.Result.{Result, ok, err, ◌>>=◌, Result-cases}
use arandu_attempt.Service.{
  Attempt, blank, Action, attempt_create, attempt_view, Subject, can, Framework, PageQuery,
  validate, lifted, saved, stored, confirmed, create, find, list,
}
use arandu_attempt.Service.Pages.{Table}
use arandu_attempt.AttemptQuery.{returned, Core, attempt_of}
use arandu_attempt.AttemptQuery.Build.{where_key, new}
use arandu_attempt.AttemptQuery.Terminals.{first, with_row}
use arandu_attempt.AttemptQuery.Listing.{built_list}
use arandu_attempt.AttemptQuery.Records.{
  built_found, built_find, built_saved, built_candidate, built_stored, built_create,
}
use arandu_attempt.AttemptQuery.Meaning.{first_pair, Builds}
use arandu_attempt.AttemptQuery.Refines.{Agrees, built_list-Agrees}

-- An answer of the service, as the pair that the code returns.
abbrev pub found_pair : {E : Type 0} → Result E Attempt → Option Attempt × Option E
found_pair (ok r) = (some r, none)
found_pair (err e) = (none, some e)

module _ (f : Framework) (core : Core f) (t : Table f) (custom : Subject → Action → Attempt → Bool)
    (builds : Builds f core t) where
  built_found-confirmed :
      (actor : Subject) (r : Result f.Error (Option Attempt))
      → built_found f core custom actor (with_row {O = core.Other} (first_pair r))
        ≡ found_pair (lifted f custom r >>= confirmed f custom actor)
  unfolding built_found lifted confirmed with_row attempt_of
  built_found-confirmed actor (err e) = refl
  built_found-confirmed actor (ok none) = refl
  built_found-confirmed actor (ok (some r)) =
      elim (Result-cases (f.authorize (can custom) actor attempt_view r)) [
        | inl (g, e) ↦ rw (e, confirmed) refl
        | inr (x, e) ↦ rw (e, confirmed) refl
      ]

  built_find-find :
      (s : f.State) (actor : Subject) (id : Bytes)
      → built_find f core custom s actor id ≡ found_pair (find f custom s actor id)
  unfolding built_find find lifted first where_key
  built_find-find s actor id =
      elim (Result-cases (f.authorize (can custom) actor attempt_view blank)) [
        | inl (g, e) ↦
            rw (e, built_find, builds.firsts s g id) (built_found-confirmed actor (f.first s g id))
        | inr (x, e) ↦ rw (e, built_find) refl
      ]

  built_saved-saved :
      (r : f.State × Result f.Error Attempt)
      → built_saved f core custom r ≡ ((saved f custom r).0, found_pair (saved f custom r).1)
  unfolding built_saved saved lifted
  built_saved-saved (s, err e) = refl
  built_saved-saved (s, ok r) = refl

  built_stored-stored :
      (g : f.Grant) (name : Bytes) (r : f.State × Result f.Error Bytes)
      → built_stored f core custom g name r
        ≡ returned ((stored f custom g name r).0, found_pair (stored f custom g name r).1)
  unfolding built_stored built_candidate stored new attempt_of
  built_stored-stored g name (s, err e) = refl
  built_stored-stored g name (s, ok id) = elim (Result-cases f.new_row) [
    | inl (row, e) ↦
        rw (builds.news, e, stored)
          (ap returned (
            built_saved-saved
              (f.save s g (record row { id = id; tenant_id = f.granted_tenant g; name = name }))))
    | inr (x, e) ↦ rw (builds.news, e, stored) refl
  ]

  built_create-create :
      (s : f.State) (actor : Subject) (name : Bytes)
      → built_create f core custom s actor name
        ≡ returned ((create f custom s actor name).0, found_pair (create f custom s actor name).1)
  unfolding built_create create
  built_create-create s actor name = elim (Bool-cases (f.any (validate f custom name))) [
    | inl y ↦ rw (y, create) refl
    | inr n ↦
        elim (Result-cases
          (f.authorize (can custom) actor attempt_create (record blank { name = name }))) [
            | inl (g, e) ↦ rw (n, e, create, built_create) (built_stored-stored g name (f.new_id s))
            | inr (x, e) ↦ rw (n, e, create, built_create) refl
          ]
  ]

  -- List, Find and Create, written through the methods of the query, answer what the service answers:
  -- List the same error or the same rows, without a panic, and Find and Create the same record or
  -- error, Create with the same next state.
  pub built-Refines :
      (s : f.State) (actor : Subject)
      → ((q : PageQuery) → Agrees (built_list f core custom s actor q) (list f custom s actor q))
        × ((id : Bytes)
            → built_find f core custom s actor id ≡ found_pair (find f custom s actor id))
        × ((name : Bytes)
            → built_create f core custom s actor name
              ≡ returned
                  ((create f custom s actor name).0, found_pair (create f custom s actor name).1))
  built-Refines s actor = (
    built_list-Agrees f core t custom builds s actor,
    built_find-find s actor,
    built_create-create s actor,
  )
