-- ===== src/AttemptQuery/Terminals.antt =====
-- AttemptQuery.go: the methods that run. Each takes a grant and passes it on. A read leaves the
-- state; a write gives the next one. A row and an error come back side by side.
use arandu_attempt.Base.{Bool, true, false, Option, List, [], ◌∷◌, Bytes}
use arandu_attempt.Base.Int.{ℤ}
use arandu_attempt.Service.{Attempt, Framework}
use arandu_attempt.AttemptQuery.{
  Entity, Rows, AttemptCollection, Panicking, returned, panicked, One, Saved, Scalar, Change, Core,
  AttemptQuery, attempt_of, attempt_collection_of,
}

-- The two conversions, beside what comes with them.
unfoldable pub with_rows : {O X : Type 0} → Rows O → X → Panicking (AttemptCollection × X)
unfolding attempt_collection_of
with_rows rows x = elim (attempt_collection_of rows) [
  | returned c ↦ returned (c, x)
  | panicked ↦ panicked
]

unfoldable pub with_row : {O X : Type 0} → Entity O × X → Option Attempt × X
unfolding attempt_of
with_row (e, x) = (attempt_of e, x)

module _ (f : Framework) (core : Core f) where
  open f use {State, Grant, Error}
  open core use {
    Builder, Other, Attributes, Options, PageCursor, LengthAwarePage, SimplePage, CursorPage,
  }

  abbrev Query : Type 0
  Query = AttemptQuery Builder

  abbrev Any : Type 0
  Any = Option f.Column

  abbrev pub Row : Type 0
  Row = Option Attempt × Option Error

  abbrev pub Listed : Type 0
  Listed = Panicking (AttemptCollection × Option Error)

  unfoldable pub get : Query → State → Grant → List Any → Listed
  unfolding with_rows
  get q s g columns = let (rows, err) = core.get s g q.b columns in with_rows rows err

  unfoldable pub first : Query → State → Grant → List Any → Row
  unfolding with_row
  first q s g columns = with_row (core.one s g q.b (One.first columns))

  unfoldable pub first_or_fail : Query → State → Grant → List Any → Row
  unfolding with_row
  first_or_fail q s g columns = with_row (core.one s g q.b (One.first_or_fail columns))

  unfoldable pub first_where : Query → State → Grant → Any → List Any → Row
  unfolding with_row
  first_where q s g column args = with_row (core.one s g q.b (One.first_where column args))

  unfoldable pub first_or_new : Query → State → Grant → Attributes → Attributes → Row
  unfolding with_row
  first_or_new q s g attributes values =
      with_row (core.one s g q.b (One.first_or_new attributes values))

  unfoldable pub first_or_create : Query → State → Grant → Attributes → Attributes → State × Row
  unfolding with_row
  first_or_create q s g attributes values =
      let (t, e) = core.saved s g q.b (Saved.first_or_create attributes values) in (t, with_row e)

  unfoldable pub find : Query → State → Grant → Any → List Any → Row
  unfolding with_row
  find q s g id columns = with_row (core.one s g q.b (One.find id columns))

  unfoldable pub find_or_fail : Query → State → Grant → Any → List Any → Row
  unfolding with_row
  find_or_fail q s g id columns = with_row (core.one s g q.b (One.find_or_fail id columns))

  unfoldable pub find_or_new : Query → State → Grant → Any → List Any → Row
  unfolding with_row
  find_or_new q s g id columns = with_row (core.one s g q.b (One.find_or_new id columns))

  unfoldable pub find_many : Query → State → Grant → List Any → List Any → Listed
  unfolding with_rows
  find_many q s g ids columns =
      let (rows, err) = core.find_many s g q.b ids columns in with_rows rows err

  unfoldable pub sole : Query → State → Grant → List Any → Row
  unfolding with_row
  sole q s g columns = with_row (core.one s g q.b (One.sole columns))

  unfoldable pub create : Query → State → Grant → Attributes → State × Row
  unfolding with_row
  create q s g attributes =
      let (t, e) = core.saved s g q.b (Saved.create attributes) in (t, with_row e)

  unfoldable pub force_create : Query → State → Grant → Attributes → State × Row
  unfolding with_row
  force_create q s g attributes =
      let (t, e) = core.saved s g q.b (Saved.force_create attributes) in (t, with_row e)

  unfoldable pub update_or_create : Query → State → Grant → Attributes → Attributes → State × Row
  unfolding with_row
  update_or_create q s g attributes values =
      let (t, e) = core.saved s g q.b (Saved.update_or_create attributes values) in (t, with_row e)

  unfoldable pub paginate :
      Query
      → State
      → Grant
      → ℤ
      → ℤ
      → Options
      → List Any
      → Panicking (AttemptCollection × (LengthAwarePage × Option Error))
  unfolding with_rows
  paginate q s g per_page page opts columns =
      let (rows, meta) = core.paginate s g q.b per_page page opts columns in with_rows rows meta

  unfoldable pub simple_paginate :
      Query
      → State
      → Grant
      → ℤ
      → ℤ
      → Options
      → List Any
      → Panicking (AttemptCollection × (SimplePage × Option Error))
  unfolding with_rows
  simple_paginate q s g per_page page opts columns =
      let (rows, meta) = core.simple_paginate s g q.b per_page page opts columns in
      with_rows rows meta

  unfoldable pub cursor_paginate :
      Query
      → State
      → Grant
      → ℤ
      → PageCursor
      → Options
      → List Any
      → Panicking (AttemptCollection × (CursorPage × Option Error))
  unfolding with_rows
  cursor_paginate q s g per_page after opts columns =
      let (rows, meta) = core.cursor_paginate s g q.b per_page after opts columns in
      with_rows rows meta

  -- A callback over collections, as one over the core's rows.
  unfoldable pub on_rows :
      {S R : Type 0} → (S → AttemptCollection → ℤ → R) → S → Rows Other → ℤ → Panicking R
  unfolding attempt_collection_of
  on_rows callback s rows page = elim (attempt_collection_of rows) [
    | returned c ↦ returned (callback s c page)
    | panicked ↦ panicked
  ]

  unfoldable pub chunk :
      {S : Type 0}
      → Query
      → State
      → Grant
      → ℤ
      → (S → AttemptCollection → ℤ → S × Bool × Option Error)
      → S
      → Panicking (S × Option Error)
  unfolding on_rows
  chunk {S} q s g size callback start = core.chunk S s g q.b size (on_rows callback) start

  unfoldable pub each :
      {S : Type 0}
      → Query
      → State
      → Grant
      → ℤ
      → (S → Option Attempt → ℤ → S × Bool × Option Error)
      → S
      → S × Option Error
  unfolding attempt_of
  each {S} q s g size callback start =
      core.each S s g q.b size (λ r e index. callback r (attempt_of e) index) start

  -- The loop of `Cursor`: it ends with the rows, or when `yield` answers false.
  unfoldable pub yield_all :
      {S : Type 0}
      → (S → Option Attempt → Option Error → S × Bool)
      → S
      → List (Entity Other × Option Error)
      → S
  unfolding attempt_of
  yield_all yield s [] = s
  yield_all yield s ((e, err) ∷ seq) =
      let answer = yield s (attempt_of e) err in
      let rest = yield_all yield answer.0 seq in elim (answer.1) [ true ↦ rest | false ↦ answer.0 ]

  unfoldable pub cursor :
      {S : Type 0} → Query → State → Grant → (S → Option Attempt → Option Error → S × Bool) → S → S
  unfolding yield_all
  cursor q s g yield start = yield_all yield start (core.cursor s g q.b)

  unfoldable pub count : Query → State → Grant → List Any → ℤ × Option Error
  count q s g columns = core.count s g q.b columns

  unfoldable pub exists : Query → State → Grant → Bool × Option Error
  exists q s g = core.exists s g q.b

  unfoldable pub doesnt_exist : Query → State → Grant → Bool × Option Error
  doesnt_exist q s g = core.doesnt_exist s g q.b

  unfoldable pub pluck : Query → State → Grant → Bytes → List Any × Option Error
  pluck q s g column = core.pluck s g q.b column

  unfoldable pub value : Query → State → Grant → Bytes → Any × Option Error
  value q s g column = core.scalar s g q.b (Scalar.value column)

  unfoldable pub value_or_fail : Query → State → Grant → Bytes → Any × Option Error
  value_or_fail q s g column = core.scalar s g q.b (Scalar.value_or_fail column)

  unfoldable pub sole_value : Query → State → Grant → Bytes → Any × Option Error
  sole_value q s g column = core.scalar s g q.b (Scalar.sole_value column)

  unfoldable pub sum : Query → State → Grant → Any → Any × Option Error
  sum q s g column = core.scalar s g q.b (Scalar.sum column)

  unfoldable pub avg : Query → State → Grant → Any → Any × Option Error
  avg q s g column = core.scalar s g q.b (Scalar.avg column)

  unfoldable pub min : Query → State → Grant → Any → Any × Option Error
  min q s g column = core.scalar s g q.b (Scalar.min column)

  unfoldable pub max : Query → State → Grant → Any → Any × Option Error
  max q s g column = core.scalar s g q.b (Scalar.max column)

  unfoldable pub update : Query → State → Grant → Attributes → State × (ℤ × Option Error)
  update q s g values = core.change s g q.b (Change.update values)

  unfoldable pub delete : Query → State → Grant → State × (ℤ × Option Error)
  delete q s g = core.change s g q.b Change.delete

  unfoldable pub increment :
      Query → State → Grant → Bytes → Any → Attributes → State × (ℤ × Option Error)
  increment q s g column amount extra = core.change s g q.b (Change.increment column amount extra)

  unfoldable pub decrement :
      Query → State → Grant → Bytes → Any → Attributes → State × (ℤ × Option Error)
  decrement q s g column amount extra = core.change s g q.b (Change.decrement column amount extra)

  unfoldable pub insert : Query → State → Grant → List Attributes → State × (Bool × Option Error)
  insert q s g values = core.insert s g q.b values

  unfoldable pub insert_or_ignore :
      Query → State → Grant → List Attributes → State × (Bool × Option Error)
  insert_or_ignore q s g values = core.insert_or_ignore s g q.b values

  unfoldable pub upsert :
      Query → State → Grant → List Attributes → List Bytes → List Bytes → State × (ℤ × Option Error)
  upsert q s g values unique_by columns =
      core.change s g q.b (Change.upsert values unique_by columns)

  unfoldable pub touch : Query → State → Grant → List Bytes → State × (ℤ × Option Error)
  touch q s g column = core.change s g q.b (Change.touch column)
