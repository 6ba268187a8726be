-- ===== src/Module.antt =====
-- config.go, model.go and module.go: the settings, the responses and the three handlers. The session
-- store and `security.Guest` are the record `Web`.
pub mod Settings
pub mod Responses
pub mod Schema
pub mod Browse
use arandu_attempt.Base.{
  ℕ, zero, suc, ◌==◌, Bool, true, false, not, ◌&&◌, ◌||◌, Option, none, some, List, [], ◌∷◌, ◌++◌,
  map, length, Bytes, codes, bytes_eq, ltb, if◌then◌else◌,
}
use arandu_attempt.Base.Int.{ℤ, pos, negsuc}
use arandu_attempt.Base.Result.{Result, ok, err}
use arandu_attempt.Service.{
  Attempt, Action, Subject, Framework, Failure, framework, rejected, not_found, sort_not_allowed,
  create, find, list,
}

abbrev pub default_prefix : Bytes
default_prefix = codes "/attempt"

abbrev pub default_page_size : ℕ
default_page_size = 25

abbrev pub max_page_size : ℕ
max_page_size = 200

pub record Config : Type 0 where
  pub tenant : Bytes
  pub prefix : Bytes
  pub page_size : ℤ

-- What `Validate` and `New` refuse.
pub data ConfigError : Type 0 where
  no_tenant : ConfigError
  bad_tenant : Bytes → ConfigError
  bad_prefix : Bytes → ConfigError
  bad_route : Bytes → ConfigError
  bad_page_size : ℤ → ConfigError
  no_database : ConfigError
  no_sessions : ConfigError

-- `c.Prefix != "" && c.Prefix[0] != '/'`.
unfoldable pub lacks_slash : Bytes → Bool
lacks_slash [] = false
lacks_slash (c ∷ cs) = not (c == b'/')

-- `c.PageSize < 0 || c.PageSize > MaxPageSize`.
unfoldable pub is_bad_size : ℤ → Bool
is_bad_size (negsuc _) = true
is_bad_size (pos n) = ltb max_page_size n

-- `Handle` for each pattern in turn; `none` if one of them panics.
unfoldable pub handle_all : (f : Framework) → f.Mux → List Bytes → Option f.Mux
handle_all f mux [] = some mux
handle_all f mux (p ∷ ps) = elim (f.handle mux p) [ none ↦ none | some next ↦ handle_all f next ps ]

-- `validateRoutePrefix`.
unfoldable pub validate_route_prefix : Framework → Bytes → Option ConfigError
unfolding handle_all
validate_route_prefix f prefix =
    elim (handle_all f f.new_mux (
      (codes "GET " ++ prefix)
      ∷ (codes "GET " ++ prefix ++ codes "/{id}")
      ∷ (codes "POST " ++ prefix)
      ∷ [])) [ none ↦ some (bad_route prefix) | some mux ↦ none ]

-- `Config.Validate`.
unfoldable pub validate_config : Framework → Config → Option ConfigError
unfolding lacks_slash is_bad_size
validate_config f c =
    if bytes_eq c.tenant []
    then some no_tenant
    else if not (f.valid_tenant c.tenant)
    then some (bad_tenant c.tenant)
    else if lacks_slash c.prefix
    then some (bad_prefix c.prefix)
    else elim (if bytes_eq c.prefix [] then none else validate_route_prefix f c.prefix) [
      | some e ↦ some e
      | none ↦ if is_bad_size c.page_size then some (bad_page_size c.page_size) else none
    ]

unfoldable pub default_size : ℤ → ℤ
default_size (pos zero) = pos default_page_size
default_size (pos (suc n)) = pos (suc n)
default_size (negsuc n) = negsuc n

-- `Config.withDefaults`.
unfoldable pub with_defaults : Config → Config
unfolding default_size
with_defaults c = record c {
  prefix = if bytes_eq c.prefix [] then default_prefix else c.prefix;
  page_size = default_size c.page_size;
}

-- `New`, where the two handles may be nil: the configuration of the module.
unfoldable pub new_module : Framework → Config → Bool → Bool → Result ConfigError Config
new_module f c has_database has_sessions = elim (validate_config f c) [
  | some e ↦ err e
  | none ↦
      if not has_database
      then err no_database
      else if not has_sessions
      then err no_sessions
      else ok (with_defaults c)
]

-- `Routes`: what it registers on the router, and the pattern of a route.
pub record Route : Type 0 where
  pub method : Bytes
  pub path : Bytes
  pub name : Bytes

abbrev pub routes : Config → List Route
routes c =
    record { method = codes "GET"; path = c.prefix; name = codes "attempt.index" }
    ∷ record { method = codes "GET"; path = c.prefix ++ codes "/{id}"; name = codes "attempt.show" }
    ∷ record { method = codes "POST"; path = c.prefix; name = codes "attempt.store" }
    ∷ []

abbrev pub pattern : Route → Bytes
pattern r = r.method ++ codes " " ++ r.path

-- `Resource` and `Collection`: what a response may hold.
pub record Resource : Type 0 where
  pub id : Bytes
  pub name : Bytes
  pub created_at : Bytes

abbrev pub new_resource : Attempt → Resource
new_resource r = record { id = r.id; name = r.name; created_at = r.created_at }

abbrev pub to_array : Resource → List (Bytes × Bytes)
to_array r = (codes "id", r.id) ∷ (codes "name", r.name) ∷ (codes "created_at", r.created_at) ∷ []

pub record Collection : Type 0 where
  pub records : List Resource
  pub cursor : Bytes

-- The loop of `collectionFromPointers`: a nil pointer is left out.
abbrev pub resources : List (Option Attempt) → List Resource
resources [] = []
resources (none ∷ rs) = resources rs
resources (some r ∷ rs) = new_resource r ∷ resources rs

-- `resourceFromPointer`: a nil pointer gives the zero resource, with the zero time.
unfoldable pub resource_from_pointer : Option Attempt → Resource
resource_from_pointer none = record {
  id = [];
  name = [];
  created_at = codes "0001-01-01T00:00:00Z";
}
resource_from_pointer (some r) = new_resource r

-- `Resource.With`: nothing.
unfoldable pub beside_resource : Resource → List (Bytes × Bytes)
beside_resource r = []

-- `NewCollection`, with its loop.
unfoldable pub new_resources : List Attempt → List Resource
new_resources [] = []
new_resources (r ∷ rs) = new_resource r ∷ new_resources rs

unfoldable pub new_collection : List Attempt → Bytes → Collection
unfolding new_resources
new_collection records cursor = record { records = new_resources records; cursor = cursor }

unfoldable pub collection_from_pointers : List (Option Attempt) → Bytes → Collection
collection_from_pointers records cursor = record { records = resources records; cursor = cursor }

-- `Collection.ToArray` and `Collection.With`.
unfoldable pub items : Collection → List (List (Bytes × Bytes))
items c = map to_array c.records

unfoldable pub beside : Collection → List (Bytes × Bytes)
beside c = if bytes_eq c.cursor [] then [] else (codes "next_cursor", c.cursor) ∷ []

-- What a handler writes, the error that it returns, or a panic.
pub data Response (E V : Type 0) : Type 0 where
  one : ℕ → List (Bytes × Bytes) → Response E V
  many : ℕ → List (List (Bytes × Bytes)) → List (Bytes × Bytes) → Response E V
  refuse : ℕ → Bytes → Response E V
  fault : Failure E V → Response E V
  panicked : Response E V

-- `records[len(records)-1].ID`: out of range on an empty page.
abbrev pub last_id : List Attempt → Option Bytes
last_id [] = none
last_id (r ∷ []) = some r.id
last_id (r ∷ q ∷ rs) = last_id (q ∷ rs)

-- `len(records) == m.cfg.PageSize`.
unfoldable pub is_full : ℤ → List Attempt → Bool
is_full (negsuc _) records = false
is_full (pos n) records = length records == n

-- The cursor of `index`.
unfoldable pub next_cursor : ℤ → List Attempt → Option Bytes
unfolding is_full
next_cursor size records = if is_full size records then last_id records else some []

pub record Web (f : Framework) : Type 1 where
  pub Request : Type 0
  pub load : f.State → Request → Result f.Error Subject
  pub guest : Bytes → Subject

module _ (f : Framework) (web : Web f) (custom : Subject → Action → Attempt → Bool)
    (cfg : Config) where
  open f use {State, Error, Errors, message, is_forbidden, as_rejected}
  open web use {Request, load, guest}

  -- `subject`.
  unfoldable pub subject : State → Request → Subject
  subject s r = elim (load s r) [
    | err e ↦ guest cfg.tenant
    | ok sub ↦ if bytes_eq sub.id [] then guest cfg.tenant else sub
  ]

  -- `answer`.
  unfoldable pub answer : Failure Error Errors → Response Error Errors
  answer (framework e) =
      if is_forbidden e then refuse 403 (codes "forbidden") else elim (as_rejected e) [
        | some errs ↦ refuse 422 (message errs)
        | none ↦ fault (framework e)
      ]
  answer (rejected errs) = refuse 422 (message errs)
  answer not_found = refuse 404 (codes "not found")
  answer (sort_not_allowed field) = fault (sort_not_allowed field)

  paged : List Attempt → Option Bytes → Response Error Errors
  unfolding collection_from_pointers items beside
  paged records none = panicked
  paged records (some cursor) =
      let c = collection_from_pointers (map some records) cursor in many 200 (items c) (beside c)

  listed : Result (Failure Error Errors) (List Attempt) → Response Error Errors
  unfolding answer next_cursor paged
  listed (err e) = answer e
  listed (ok records) = paged records (next_cursor cfg.page_size records)

  -- `index`.
  unfoldable pub index : State → Request → Bytes → Bytes → Response Error Errors
  unfolding listed subject
  index s r sort cursor = listed (
      list f custom s (subject s r)
        (record { sort = sort; cursor = cursor; limit = cfg.page_size }))

  shown : ℕ → Result (Failure Error Errors) Attempt → Response Error Errors
  unfolding answer
  shown status (err e) = answer e
  shown status (ok r) = one status (to_array (new_resource r))

  -- `show`.
  unfoldable pub show : State → Request → Bytes → Response Error Errors
  unfolding shown subject
  show s r id = shown 200 (find f custom s (subject s r) id)

  created : State × Result (Failure Error Errors) Attempt → State × Response Error Errors
  unfolding shown
  created (s, a) = (s, shown 201 a)

  -- `store`.
  unfoldable pub store : State → Request → Bytes → State × Response Error Errors
  unfolding created subject
  store s r name = created (create f custom s (subject s r) name)
