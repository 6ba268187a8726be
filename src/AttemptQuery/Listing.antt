-- ===== src/AttemptQuery/Listing.antt =====
-- service.go, `List`, statement by statement through the methods of the query.
use arandu_attempt.Base.{Bool, Option, none, some, [], ◌∷◌, Bytes, codes, bytes_eq, if◌then◌else◌}
use arandu_attempt.Base.Int.{pos}
use arandu_attempt.Base.Result.{ok, err}
use arandu_attempt.Service.{
  Attempt, blank, Action, attempt_list, Subject, can, Framework, Failure, framework,
  sort_not_allowed, PageQuery, sortable_attempt, page_limit,
}
use arandu_attempt.AttemptQuery.{AttemptCollection, Panicking, returned, panicked, Core}
use arandu_attempt.AttemptQuery.Build.{
  Query, Any, Column, attempts, where_clause, or_where, where_key, order_by, limit,
}
use arandu_attempt.AttemptQuery.Terminals.{Listed, get, value}

module _ (f : Framework) (core : Core f) (custom : Subject → Action → Attempt → Bool) where
  open f use {State, Grant, Error, Errors, text_column, authorize}

  -- A text as a value of type any, and as a column.
  abbrev pub text : Bytes → Any f core
  text t = some (text_column t)

  abbrev pub named : Bytes → Column f core
  named column = Column.value (text column)

  -- The two closures of `List`.
  unfoldable pub equal_then_id : Bytes → Any f core → Bytes → Query f core → Query f core
  unfolding where_clause
  equal_then_id column anchor cursor equal =
      where_clause f core
        (where_clause f core equal (named column) (text (codes "=") ∷ anchor ∷ []))
        (named (codes "id")) (text (codes ">") ∷ text cursor ∷ [])

  unfoldable pub after : Bytes → Any f core → Bytes → Query f core → Query f core
  unfolding where_clause or_where equal_then_id
  after column anchor cursor q =
      or_where f core (where_clause f core q (named column) (text (codes ">") ∷ anchor ∷ []))
        (Column.group (equal_then_id column anchor cursor)) []

  -- What `List` returns: a slice that may be nil, and an error or none.
  abbrev pub Returned : Type 0
  Returned = Panicking (AttemptCollection × Option (Failure Error Errors))

  unfoldable pub wrapped : Listed f core → Returned
  wrapped panicked = panicked
  wrapped (returned (c, none)) = returned (c, none)
  wrapped (returned (c, some e)) = returned (c, some (framework e))

  -- The last line of `List`.
  unfoldable pub fetched : State → Grant → PageQuery → Bytes → Query f core → Returned
  unfolding order_by limit get wrapped page_limit
  fetched s g q column page = wrapped (
      get f core
        (limit f core
          (order_by f core (order_by f core page (text column) []) (text (codes "id")) [])
          (pos (page_limit q.limit)))
        s g [])

  -- `List` from the answer to the anchor on.
  unfoldable pub from_anchor :
      State → Grant → PageQuery → Bytes → Any f core × Option Error → Returned
  unfolding fetched after where_clause
  from_anchor s g q column (anchor, some e) = returned (none, some (framework e))
  from_anchor s g q column (none, none) = returned (none, none)
  from_anchor s g q column (some anchor, none) = fetched s g q column (
      where_clause f core (attempts f core) (Column.group (after column (some anchor) q.cursor)) [])

  -- `List` from the column on.
  unfoldable pub with_column : State → Grant → PageQuery → Option Bytes → Returned
  unfolding fetched from_anchor where_key value bytes_eq
  with_column s g q none = returned (none, some (sort_not_allowed q.sort))
  with_column s g q (some column) =
      if bytes_eq q.cursor []
      then fetched s g q column (attempts f core)
      else from_anchor s g q column
          (value f core (where_key f core (attempts f core) (text q.cursor)) s g column)

  -- `List`.
  unfoldable pub built_list : State → Subject → PageQuery → Returned
  unfolding with_column sortable_attempt
  built_list s actor q = elim (authorize (can custom) actor attempt_list blank) [
    | err e ↦ returned (none, some (framework e))
    | ok g ↦ with_column s g q (sortable_attempt q.sort)
  ]
