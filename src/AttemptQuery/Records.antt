-- ===== src/AttemptQuery/Records.antt =====
-- service.go, `Create` and `Find`, through the methods of the query.
use arandu_attempt.Base.{Bool, Option, none, some, [], Bytes, if◌then◌else◌}
use arandu_attempt.Base.Result.{Result, ok, err}
use arandu_attempt.Service.{
  Attempt, blank, Action, attempt_create, attempt_view, Subject, can, Framework, Failure, framework,
  rejected, not_found, validate,
}
use arandu_attempt.AttemptQuery.{Panicking, returned, panicked, Core}
use arandu_attempt.AttemptQuery.Build.{attempts, where_key, new}
use arandu_attempt.AttemptQuery.Terminals.{Row, first}
use arandu_attempt.AttemptQuery.Listing.{text}

module _ (f : Framework) (core : Core f) (custom : Subject → Action → Attempt → Bool) where
  open f use {State, Grant, Error, Errors, authorize, granted_tenant, new_id, save, any}

  -- A row that may be nil, and an error or none.
  abbrev pub Found : Type 0
  Found = Option Attempt × Option (Failure Error Errors)

  -- `Find` from its read on.
  unfoldable pub built_found : Subject → Row f core → Found
  built_found actor (row, some e) = (none, some (framework e))
  built_found actor (none, none) = (none, some not_found)
  built_found actor (some r, none) = elim (authorize (can custom) actor attempt_view r) [
    | err e ↦ (none, some (framework e))
    | ok g ↦ (some r, none)
  ]

  -- `Find`.
  unfoldable pub built_find : State → Subject → Bytes → Found
  unfolding built_found first where_key
  built_find s actor id = elim (authorize (can custom) actor attempt_view blank) [
    | err e ↦ (none, some (framework e))
    | ok g ↦
        built_found actor
          (first f core (where_key f core (attempts f core) (text f core custom id)) s g [])
  ]

  -- `candidate.Save` and the return of `Create`.
  unfoldable pub built_saved : State × Result Error Attempt → State × Found
  built_saved (s, err e) = (s, (none, some (framework e)))
  built_saved (s, ok r) = (s, (some r, none))

  -- `Create` from the new row on: a nil row without an error would be a nil dereference.
  unfoldable pub built_candidate :
      Grant → Bytes → Bytes → State → Row f core → Panicking (State × Found)
  unfolding built_saved
  built_candidate g name id s (row, some e) = returned (s, (none, some (framework e)))
  built_candidate g name id s (none, none) = panicked
  built_candidate g name id s (some row, none) =
      returned
        (built_saved (save s g (record row { id = id; tenant_id = granted_tenant g; name = name })))

  -- `Create` from `data.NewID` on.
  unfoldable pub built_stored :
      Grant → Bytes → State × Result Error Bytes → Panicking (State × Found)
  unfolding built_candidate new
  built_stored g name (s, err e) = returned (s, (none, some (framework e)))
  built_stored g name (s, ok id) = built_candidate g name id s (new f core (attempts f core))

  -- `Create`.
  unfoldable pub built_create : State → Subject → Bytes → Panicking (State × Found)
  unfolding built_stored
  built_create s actor name =
      if any (validate f custom name)
      then returned (s, (none, some (rejected (validate f custom name))))
      else elim (authorize (can custom) actor attempt_create (record blank { name = name })) [
        | err e ↦ returned (s, (none, some (framework e)))
        | ok g ↦ built_stored g name (new_id s)
      ]
