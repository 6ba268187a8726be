-- ===== src/Service.antt =====
-- config.go, model.go, policy.go and service.go: who may read or write a record, and how. The
-- framework (security, data, validation) is the record `Framework`; the rules that an application
-- writes in the custom block of policy.go are the argument `custom`.
pub mod Access
pub mod Pages
use arandu_attempt.Base.{
  ℕ, ◌+◌, Bool, true, false, not, ◌&&◌, ◌||◌, Option, none, some, List, [], ◌∷◌, ◌++◌, map, Bytes,
  codes, bytes_eq, ltb, if◌then◌else◌,
}
use arandu_attempt.Base.Int.{ℤ, pos, negsuc}
use arandu_attempt.Base.Result.{Result, ok, err, ◌>>=◌}

-- `Attempt`; the time of creation is its RFC 3339 text in UTC.
pub record Attempt : Type 0 where
  pub id : Bytes
  pub tenant_id : Bytes
  pub name : Bytes
  pub created_at : Bytes

abbrev pub blank : Attempt
blank = record { id = []; tenant_id = []; name = []; created_at = [] }

-- The actions.
pub data Action : Type 0 where
  attempt_view : Action
  attempt_list : Action
  attempt_create : Action
  attempt_update : Action
  attempt_delete : Action

unfoldable pub action_text : Action → Bytes
action_text attempt_view = codes "attempt.view"
action_text attempt_list = codes "attempt.list"
action_text attempt_create = codes "attempt.create"
action_text attempt_update = codes "attempt.update"
action_text attempt_delete = codes "attempt.delete"

-- `security.Subject`, of which this package reads the id and the tenant.
pub record Subject : Type 0 where
  pub id : Bytes
  pub tenant : Bytes

-- `AttemptPolicy.Can`: no error, or the text of one.
unfoldable pub can : (Subject → Action → Attempt → Bool) → Subject → Action → Attempt → Option Bytes
unfolding action_text
can custom s a r =
    if not (bytes_eq r.id []) && not (bytes_eq r.tenant_id s.tenant)
    then some (codes "attempt belongs to another tenant")
    else if custom s a r
    then none
    else some (codes "no rule allows " ++ action_text a ++ codes " on attempt")

-- The custom block as the package ships it: it has no rule.
abbrev pub no_rule : Subject → Action → Attempt → Bool
no_rule s a r = false

-- The conditions and the query that `List` builds.
pub data Cond (V : Type 0) : Type 0 where
  everything : Cond V
  compares : Bytes → Bytes → V → Cond V
  both : Cond V → Cond V → Cond V
  either : Cond V → Cond V → Cond V

pub record Query (V : Type 0) : Type 0 where
  pub filter : Cond V
  pub order : List Bytes
  pub limit : ℕ

-- What the framework gives: authorization, the model, identifiers and validation.
pub record Framework : Type 1 where
  pub State : Type 0
  pub Grant : Type 0
  pub Error : Type 0
  pub Errors : Type 0
  pub Column : Type 0
  pub authorize :
      (Subject → Action → Attempt → Option Bytes) → Subject → Action → Attempt → Result Error Grant
  pub granted_tenant : Grant → Bytes
  pub new_id : State → State × Result Error Bytes
  pub new_row : Result Error Attempt
  -- `candidate.Save`: the candidate as the call leaves it.
  pub save : State → Grant → Attempt → State × Result Error Attempt
  pub first : State → Grant → Bytes → Result Error (Option Attempt)
  -- The value of a column of the row with a key, and a text as such a value.
  pub value : State → Grant → Bytes → Bytes → Result Error (Option Column)
  pub text_column : Bytes → Column
  pub get : State → Grant → Query Column → Result Error (List Attempt)
  pub no_errors : Errors
  pub required : Errors → Bytes → Bytes → Errors
  pub max_len : Errors → Bytes → Bytes → ℕ → Errors
  pub any : Errors → Bool
  pub message : Errors → Bytes
  pub is_forbidden : Error → Bool
  pub as_rejected : Error → Option Errors
  pub valid_tenant : Bytes → Bool
  -- An empty `http.ServeMux`, and `Handle`, which panics on a pattern that it does not accept.
  pub Mux : Type 0
  pub new_mux : Mux
  pub handle : Mux → Bytes → Option Mux

-- An error of the service.
pub data Failure (E V : Type 0) : Type 0 where
  framework : E → Failure E V
  rejected : V → Failure E V
  not_found : Failure E V
  sort_not_allowed : Bytes → Failure E V

-- `data.Query`.
pub record PageQuery : Type 0 where
  pub sort : Bytes
  pub cursor : Bytes
  pub limit : ℤ

-- `sortableAttempt[field]`.
unfoldable pub sortable_attempt : Bytes → Option Bytes
sortable_attempt field =
    if bytes_eq field []
    then some (codes "created_at")
    else if bytes_eq field (codes "name")
    then some (codes "name")
    else if bytes_eq field (codes "created_at")
    then some (codes "created_at")
    else none

abbrev pub default_limit : ℕ
default_limit = 50

abbrev pub max_limit : ℕ
max_limit = 200

-- The switch of `List` on the limit.
unfoldable pub page_limit : ℤ → ℕ
page_limit (negsuc _) = default_limit
page_limit (pos n) =
    if not (ltb 0 n) then default_limit else if ltb max_limit n then max_limit else n

module _ (f : Framework) (custom : Subject → Action → Attempt → Bool) where
  open f use {
    State, Grant, Error, Errors, Column, authorize, granted_tenant, new_id, new_row, save, first,
    value, text_column, get, no_errors, required, max_len, any,
  }

  abbrev pub Answer : Type 0 → Type 0
  Answer A = Result (Failure Error Errors) A

  unfoldable pub lifted : {A : Type 0} → Result Error A → Answer A
  lifted (ok a) = ok a
  lifted (err e) = err (framework e)

  -- `CreateRequest.Validate`.
  unfoldable pub validate : Bytes → Errors
  validate name = max_len (required no_errors (codes "name") name) (codes "name") name 120

  -- `candidate.Save` and the return of `Create`.
  unfoldable pub saved : State × Result Error Attempt → State × Answer Attempt
  unfolding lifted
  saved (s, r) = (s, lifted r)

  -- `Create` from `data.NewID` on.
  unfoldable pub stored : Grant → Bytes → State × Result Error Bytes → State × Answer Attempt
  unfolding saved
  stored g name (s, err e) = (s, err (framework e))
  stored g name (s, ok id) = elim new_row [
    | err e ↦ (s, err (framework e))
    | ok row ↦ saved (save s g (record row { id = id; tenant_id = granted_tenant g; name = name }))
  ]

  -- `Create`.
  unfoldable pub create : State → Subject → Bytes → State × Answer Attempt
  unfolding validate stored
  create s actor name =
      if any (validate name)
      then (s, err (rejected (validate name)))
      else elim (authorize (can custom) actor attempt_create (record blank { name = name })) [
        | err e ↦ (s, err (framework e))
        | ok g ↦ stored g name (new_id s)
      ]

  -- The second question of `Find`, on the record that came back.
  unfoldable pub confirmed : Subject → Option Attempt → Answer Attempt
  confirmed actor none = err not_found
  confirmed actor (some r) = elim (authorize (can custom) actor attempt_view r) [
    | err e ↦ err (framework e)
    | ok g ↦ ok r
  ]

  -- `Find`.
  unfoldable pub find : State → Subject → Bytes → Answer Attempt
  unfolding lifted confirmed
  find s actor id = do
    g ← lifted (authorize (can custom) actor attempt_view blank)
    found ← lifted (first s g id)
    confirmed actor found

  -- The rows after the anchor in the order of the page.
  abbrev pub after_anchor : Bytes → Column → Bytes → Cond Column
  after_anchor column anchor cursor = either (compares column (codes ">") anchor) (
      both (compares column (codes "=") anchor)
        (compares (codes "id") (codes ">") (text_column cursor)))

  unfoldable pub page : State → Grant → Bytes → ℕ → Cond Column → Answer (List Attempt)
  unfolding lifted
  page s g column limit cond =
      lifted (get s g (record { filter = cond; order = column ∷ codes "id" ∷ []; limit = limit }))

  unfoldable pub anchored :
      State → Grant → Bytes → ℕ → Bytes → Option Column → Answer (List Attempt)
  unfolding page
  anchored s g column limit cursor none = ok []
  anchored s g column limit cursor (some anchor) =
      page s g column limit (after_anchor column anchor cursor)

  unfoldable pub sorted : State → Grant → PageQuery → Option Bytes → Answer (List Attempt)
  unfolding anchored page page_limit lifted
  sorted s g q none = err (sort_not_allowed q.sort)
  sorted s g q (some column) =
      if bytes_eq q.cursor []
      then page s g column (page_limit q.limit) everything
      else (lifted (value s g q.cursor column)
          >>= anchored s g column (page_limit q.limit) q.cursor)

  -- `List`.
  unfoldable pub list : State → Subject → PageQuery → Answer (List Attempt)
  unfolding sorted sortable_attempt lifted
  list s actor q = do
    g ← lifted (authorize (can custom) actor attempt_list blank)
    sorted s g q (sortable_attempt q.sort)
