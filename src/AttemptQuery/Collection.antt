-- ===== src/AttemptQuery/Collection.antt =====
-- AttemptQuery.go: the methods of a collection, which go through the core's rows and back, and those
-- of a row.
use arandu_attempt.Base.{Bool, Option, List, Bytes}
use arandu_attempt.Service.{Attempt, Framework}
use arandu_attempt.AttemptQuery.{
  AttemptCollection, Panicking, Core, attempt_of, attempt_collection_of, rows,
}
use arandu_attempt.AttemptQuery.Terminals.{Row, Listed, with_row, with_rows}

module _ (f : Framework) (core : Core f) where
  open f use {State, Grant, Error}
  open core use {Other, Attributes}

  abbrev Any : Type 0
  Any = Option f.Column

  unfoldable pub model_keys : AttemptCollection → List Any
  unfolding rows
  model_keys c = core.model_keys (rows c)

  unfoldable pub find : AttemptCollection → Any → Option Attempt
  unfolding attempt_of rows
  find c key = attempt_of (core.find_row (rows c) key)

  unfoldable pub find_or_fail : AttemptCollection → Any → Row f core
  unfolding with_row rows
  find_or_fail c key = with_row (core.find_row_or_fail (rows c) key)

  unfoldable pub contains : AttemptCollection → Any → Bool
  unfolding rows
  contains c key = core.contains (rows c) key

  unfoldable pub pluck : AttemptCollection → Bytes → List Any
  unfolding rows
  pluck c column = core.pluck_rows (rows c) column

  unfoldable pub only : AttemptCollection → List Any → Panicking AttemptCollection
  unfolding rows attempt_collection_of
  only c keys = attempt_collection_of (core.only (rows c) keys)

  unfoldable pub except : AttemptCollection → List Any → Panicking AttemptCollection
  unfolding rows attempt_collection_of
  except c keys = attempt_collection_of (core.except (rows c) keys)

  unfoldable pub unique : AttemptCollection → Panicking AttemptCollection
  unfolding rows attempt_collection_of
  unique c = attempt_collection_of (core.unique (rows c))

  unfoldable pub load : AttemptCollection → State → Grant → List Bytes → State × Option Error
  unfolding rows
  load c s g relations = core.load s g (rows c) relations

  unfoldable pub load_missing :
      AttemptCollection → State → Grant → List Bytes → State × Option Error
  unfolding rows
  load_missing c s g relations = core.load_missing s g (rows c) relations

  unfoldable pub load_count : AttemptCollection → State → Grant → List Bytes → State × Option Error
  unfolding rows
  load_count c s g relations = core.load_count s g (rows c) relations

  unfoldable pub fresh_rows : AttemptCollection → State → Grant → List Bytes → Listed f core
  unfolding rows with_rows
  fresh_rows c s g with = let (out, err) = core.fresh_rows s g (rows c) with in with_rows out err

  unfoldable pub to_array : AttemptCollection → List Attributes
  unfolding rows
  to_array c = core.to_array (rows c)

  -- `Fresh` and `Replicate` of a row.
  unfoldable pub fresh : Attempt → State → Grant → List Bytes → Row f core
  unfolding with_row
  fresh row s g with = with_row (core.fresh s g row with)

  unfoldable pub replicate : Attempt → List Bytes → Row f core
  unfolding with_row
  replicate row except = with_row (core.replicate row except)
