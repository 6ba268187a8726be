-- ===== src/AttemptQuery/Refines.antt =====
-- service.go, `List`: the statement that it builds through the query is the query of the service.
use arandu_attempt.Base.{
  ◌≡◌, refl, Bool, true, false, Option, none, some, List, [], ◌∷◌, map, Bytes, codes, bytes_eq,
  Bool-cases, inl, inr,
}
use arandu_attempt.Base.Int.{pos}
use arandu_attempt.Base.Result.{Result, ok, err, ◌>>=◌, Result-cases}
use arandu_attempt.Service.{
  Attempt, blank, Action, attempt_list, Subject, can, Framework, Cond, everything, compares,
  PageQuery, sortable_attempt, page_limit, lifted, after_anchor, page, anchored, sorted, list,
}
use arandu_attempt.Service.Pages.{Table, holds}
use arandu_attempt.AttemptQuery.{
  AttemptCollection, Panicking, returned, panicked, Core, Clause, Operand, entities,
  attempt_collection_of,
}
use arandu_attempt.AttemptQuery.Build.{
  Query, attempts, attempt_column, where_clause, or_where, where_key, order_by, limit,
}
use arandu_attempt.AttemptQuery.Build
use arandu_attempt.AttemptQuery.Conversions.{asserted-entities}
use arandu_attempt.AttemptQuery.Terminals.{get, value, with_rows}
use arandu_attempt.AttemptQuery.Listing.{
  equal_then_id, after, wrapped, fetched, from_anchor, with_column, built_list,
}
use arandu_attempt.AttemptQuery.Meaning.{
  Conditions, meets, all_rows, row_pair, value_pair, named_column, compared, Builds,
}

-- What `List` returns, against what the service gives: the same error, or the same rows, no row
-- being the nil slice or an empty one. It does not panic.
abbrev pub Agrees :
    {E : Type 0} → Panicking (AttemptCollection × Option E) → Result E (List Attempt) → Type 0
Agrees panicked r = ⊥
Agrees (returned (c, some e)) r = r ≡ err e
Agrees (returned (none, none)) r = r ≡ ok []
Agrees (returned (some rows, none)) r = (l : List Attempt) × (rows ≡ map some l) × (r ≡ ok l)

with_rows-entities :
    (O X : Type 0) (l : List Attempt) (x : X)
    → with_rows {O = O} (some (entities (map some l))) x ≡ returned (some (map some l), x)
unfolding with_rows attempt_collection_of
with_rows-entities O X l x =
    rw (asserted-entities O (map some l), with_rows, attempt_collection_of) refl

module _ (f : Framework) (core : Core f) (t : Table f) (custom : Subject → Action → Attempt → Bool)
    (builds : Builds f core t) where
  open builds use {meaning}

  wrapped-Agrees :
      (s : f.State) (g : f.Grant) (b : core.Builder) (r : Result f.Error (List Attempt))
      → core.get s g b [] ≡ row_pair r
      → Agrees (wrapped f core custom (get f core (record { b = b }) s g [])) (lifted f custom r)
  unfolding get wrapped lifted
  wrapped-Agrees s g b (ok l) e =
      rw (e, with_rows-entities core.Other (Option f.Error) l none) (l, refl, refl)
  wrapped-Agrees s g b (err x) e = rw e (failed x)
    where
      failed :
          (x : f.Error)
          → Agrees
              (wrapped f core custom (with_rows {O = core.Other} none (some x)))
              (lifted f custom (err x))
      failed x = unfold with_rows attempt_collection_of in refl

  -- A page whose query has the conditions of a filter, no order and no limit.
  fetched-Agrees :
      (s : f.State) (g : f.Grant) (q : PageQuery) (column : Bytes) (b : core.Builder)
      (cond : Cond f.Column)
      → ((r : Attempt) → meets (meaning b).conditions r ≡ holds f t cond r)
      → (meaning b).order ≡ []
      → Agrees
          (fetched f core custom s g q column (record { b = b }))
          (page f custom s g column (page_limit q.limit) cond)
  unfolding fetched page order_by limit
  fetched-Agrees s g q column b cond same unordered =
      let by_column = core.build b (Clause.order_by (some (f.text_column column)) []) in
      let by_id = core.build by_column (Clause.order_by (some (f.text_column (codes "id"))) []) in
      let ordered : meaning by_id ≡ record (meaning b) { order = column ∷ codes "id" ∷ [] } =
        rw (builds.orders by_column (codes "id"), builds.orders b column, unordered) refl in
      let whole = builds.limits by_id (page_limit q.limit) in
      wrapped-Agrees s g (core.build by_id (Clause.limit (pos (page_limit q.limit))))
        (f.get s g
          (record { filter = cond; order = column ∷ codes "id" ∷ []; limit = page_limit q.limit }))
        (builds.gets s g _ _ (λ r. rw (whole, ordered) (same r)) (rw (whole, ordered) refl)
          (rw whole refl))

  abbrev where_call :
      Bytes → Bytes → f.Column → Clause core.Builder f.Column core.SubQuery core.Other
  where_call column op v =
      Clause.where_clause (named_column f core t column) (compared f core t op v)

  -- The closure of `List` adds the conditions of the rows after the anchor.
  after-conditions :
      (column : Bytes) (anchor : f.Column) (cursor : Bytes) (b : core.Builder)
      → meaning b ≡ all_rows
      → (conds : Conditions) × ((meaning
            (after f core custom column (some anchor) cursor (record { b = b })).b).conditions
          ≡ (false, holds f t (compares column (codes ">") anchor)) ∷ conds)
        × ((r : Attempt)
            → meets ((false, holds f t (compares column (codes ">") anchor)) ∷ conds) r
              ≡ holds f t (after_anchor f custom column anchor cursor) r)
  unfolding after equal_then_id where_clause or_where attempt_column
  after-conditions column anchor cursor b empty =
      let first = core.build b (where_call column (codes ">") anchor) in
      let inner : Query f core → Query f core =
        equal_then_id f core custom column (some anchor) cursor in
      let equal : Bool × (Attempt → Bool) =
        (false, holds f t (compares column (codes "=") anchor)) in
      let later : List (Bool × (Attempt → Bool)) =
        (false, holds f t (compares (codes "id") (codes ">") (f.text_column cursor))) ∷ [] in
      let nested : (meaning (inner (record { b = builds.group_of first })).b).conditions
          ≡ equal ∷ later =
        rw (builds.compares_by_and, builds.compares_by_and, builds.group_start first) refl in
      (
        (true, meets (equal ∷ later)) ∷ [],
        rw
            (
              builds.groups_by_or first (λ c. (inner (record { b = c })).b) equal later nested,
              builds.compares_by_and b column (codes ">") anchor,
              empty,
            )
            refl,
        λ r. refl,
      )

  anchored-Agrees :
      (s : f.State) (g : f.Grant) (q : PageQuery) (column : Bytes) (anchor : f.Column)
      → Agrees
          (fetched f core custom s g q column (
            where_clause f core
              (attempts f core)
              (Build.Column.group (after f core custom column (some anchor) q.cursor))
              []))
          (page f custom s g column
            (page_limit q.limit)
            (after_anchor f custom column anchor q.cursor))
  unfolding where_clause attempt_column
  anchored-Agrees s g q column anchor =
      let group : core.Builder → core.Builder =
        λ b. (after f core custom column (some anchor) q.cursor (record { b = b })).b in
      let (conds, added, same) =
        after-conditions column anchor q.cursor (builds.group_of core.start)
          (builds.group_start core.start) in
      let whole = builds.groups_by_and core.start group _ conds added in
      fetched-Agrees s g q column
        (core.build core.start (Clause.where_clause (Operand.group group) []))
        (after_anchor f custom column anchor q.cursor)
        (λ r. rw (whole, builds.start_meaning) (same r)) (rw (whole, builds.start_meaning) refl)

  from_anchor-Agrees :
      (s : f.State) (g : f.Grant) (q : PageQuery) (column : Bytes)
      (r : Result f.Error (Option f.Column))
      → Agrees
          (from_anchor f core custom s g q column (value_pair r))
          (lifted f custom r >>= anchored f custom s g column (page_limit q.limit) q.cursor)
  unfolding from_anchor lifted anchored
  from_anchor-Agrees s g q column (err e) = refl
  from_anchor-Agrees s g q column (ok none) = refl
  from_anchor-Agrees s g q column (ok (some anchor)) = anchored-Agrees s g q column anchor

  with_column-Agrees :
      (s : f.State) (g : f.Grant) (q : PageQuery) (column : Option Bytes)
      → Agrees (with_column f core custom s g q column) (sorted f custom s g q column)
  unfolding with_column sorted value where_key
  with_column-Agrees s g q none = refl
  with_column-Agrees s g q (some column) = elim (Bool-cases (bytes_eq q.cursor [])) [
    | inl y ↦ rw y (
        fetched-Agrees s g q column core.start everything (λ r. rw builds.start_meaning refl)
          (rw builds.start_meaning refl))
    | inr n ↦
        rw (n, builds.values s g q.cursor column)
          (from_anchor-Agrees s g q column (f.value s g q.cursor column))
  ]

  -- List through the query.
  pub built_list-Agrees :
      (s : f.State) (actor : Subject) (q : PageQuery)
      → Agrees (built_list f core custom s actor q) (list f custom s actor q)
  unfolding built_list list lifted
  built_list-Agrees s actor q =
      elim (Result-cases (f.authorize (can custom) actor attempt_list blank)) [
        | inl (g, e) ↦ rw (e, built_list) (with_column-Agrees s g q (sortable_attempt q.sort))
        | inr (x, e) ↦ rw (e, built_list) refl
      ]
