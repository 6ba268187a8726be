-- ===== src/Tests/Queries.antt =====
-- The theorems on the query at concrete inputs: a framework whose columns are texts, and a builder
-- that keeps what a query means.
use arandu_attempt.Base.{
  ℕ, suc, ◌≡◌, ◌↔◌, refl, ap, ◌∙◌, Bool, true, false, ◌&&◌, ◌||◌, Option, none, some, List, [], ◌∷◌,
  ◌++◌, Bytes, codes, bytes_eq, length, take, ltb, ◌==◌, arith, if◌then◌else◌,
}
use mathlib.Core.Path.{fun_ext}
use arandu_attempt.Base.Int.{pos}
use arandu_attempt.Base.Result.{ok, err}
use arandu_attempt.Service.{
  Attempt, Action, Subject, blank, Cond, everything, compares, both, either, Framework, PageQuery,
  find, create, Query, can, list,
}
use arandu_attempt.Service.Pages.{Table, holds, select}
use arandu_attempt.AttemptQuery.{
  Core, Entity, Clause, Operand, Scalar, One, Panicking, returned, panicked, attempt_collection_of,
}
use arandu_attempt.AttemptQuery
use arandu_attempt.AttemptQuery.Conversions.{HasForeign, attempt_collection_of_iff}
use arandu_attempt.AttemptQuery.Listing.{built_list}
use arandu_attempt.AttemptQuery.Meaning.{Meaning, all_rows, joined, meets, row_pair, Builds}
use arandu_attempt.AttemptQuery.Refines.{Agrees}
use arandu_attempt.AttemptQuery.Records.{built_find, built_create}
use arandu_attempt.AttemptQuery.Refined.{found_pair, built-Refines}
use arandu_attempt.Tests.{member_of_acme, second_row, third_row, rows, row_named}

abbrev text_cell : Attempt → Bytes → Bytes
text_cell r column =
    if bytes_eq column (codes "id")
    then r.id
    else if bytes_eq column (codes "name")
    then r.name
    else r.created_at

abbrev shorter : Bytes → Bytes → Bool
shorter a b = ltb (length a) (length b)

abbrev as_long : Bytes → Bytes → Bool
as_long a b = length a == length b

abbrev fits : Cond Bytes → Attempt → Bool
fits everything r = true
fits (compares column op v) r =
    if bytes_eq op (codes ">")
    then shorter v (text_cell r column)
    else if bytes_eq op (codes "=")
    then as_long v (text_cell r column)
    else false
fits (both a b) r = fits a r && fits b r
fits (either a b) r = fits a r || fits b r

abbrev archive : Framework
archive = record {
  State = ℕ;
  Grant = Bytes;
  Error = Bytes;
  Errors = List Bytes;
  Column = Bytes;
  authorize = λ policy s a r. elim (policy s a r) [ none ↦ ok s.tenant | some e ↦ err e ];
  granted_tenant = λ g. g;
  new_id = λ s. (suc s, ok (codes "new"));
  new_row = ok blank;
  save = λ s g r. (suc s, ok r);
  first = λ s g id. ok (some (row_named id));
  value = λ s g id column. ok (some (text_cell (row_named id) column));
  text_column = λ t. t;
  get = λ s g q. ok (take q.limit (select (fits q.filter) rows));
  no_errors = [];
  required = λ e field v. e;
  max_len = λ e field v limit. e;
  any = λ e. false;
  message = λ e. [];
  is_forbidden = λ e. true;
  as_rejected = λ e. none;
  valid_tenant = λ t. true;
  Mux = List Bytes;
  new_mux = [];
  handle = λ m p. some (p ∷ m);
}

shorter_asym : (a b : Bytes) → shorter a b ≡ true → shorter b a ≡ false
shorter_asym a b h = ground arith

shorter-apart : (a b : Bytes) → shorter a b ≡ true → (as_long a b ≡ false) × (as_long b a ≡ false)
shorter-apart a b h = (ground arith, ground arith)

id_text : (r : Attempt) → r.id ≡ text_cell r (codes "id")
unfolding bytes_eq
id_text r = refl

abbrev text_table : Table archive
text_table = record {
  less = shorter;
  equal = as_long;
  compare = λ op a b. false;
  cell = text_cell;
  asymmetric = shorter_asym;
  apart = shorter-apart;
  id_cell = id_text;
}

holds-fits : (c : Cond Bytes) (r : Attempt) → holds archive text_table c r ≡ fits c r
holds-fits everything r = refl
holds-fits (compares column op v) r = refl
holds-fits (both a b) r = rw (holds-fits a r, holds-fits b r) refl
holds-fits (either a b) r = rw (holds-fits a r, holds-fits b r) refl

-- What a query means, and the key that it asks for.
abbrev Built : Type 0
Built = Meaning × Option Bytes

abbrev put : (Meaning → Meaning) → Built → Built
put g (m, key) = (g m, key)

abbrev extend : Built → Clause Built Bytes (Unit {0}) (Unit {0}) → Built
extend b (Clause.where_clause (Operand.value (some column)) (some op ∷ some v ∷ [])) =
    put (joined false (fits (compares column op v))) b
extend b (Clause.where_clause (Operand.group g) []) =
    put (joined false (meets (g (all_rows, none)).0.conditions)) b
extend b (Clause.or_where (Operand.group g) []) =
    put (joined true (meets (g (all_rows, none)).0.conditions)) b
extend b (Clause.where_key (some key)) = (b.0, some key)
extend b (Clause.order_by (some column) []) =
    put (λ m. record m { order = m.order ++ column ∷ [] }) b
extend b (Clause.limit (pos n)) = put (λ m. record m { limit = some n }) b
extend b c = b

abbrev taken : Option ℕ → List Attempt → List Attempt
taken none l = l
taken (some n) l = take n l

abbrev keyed : Option Bytes → Scalar Bytes → Option Bytes × Option Bytes
keyed (some key) (Scalar.value column) = (some (text_cell (row_named key) column), none)
keyed key v = (none, none)

abbrev kept_row : Option Bytes → One Bytes Bytes → Entity (Unit {0}) × Option Bytes
kept_row (some key) (One.first []) = (Entity.attempt (some (row_named key)), none)
kept_row key c = (Entity.no_entity, none)

abbrev shelf : Core archive
shelf = record {
  Builder = Built;
  Other = Unit {0};
  SubQuery = Unit {0};
  Attributes = Bytes;
  Options = Bytes;
  PageCursor = Bytes;
  LengthAwarePage = Bytes;
  SimplePage = Bytes;
  CursorPage = Bytes;
  start = (all_rows, none);
  clone = λ b. b;
  build = extend;
  new_instance = λ b. (Entity.attempt (some blank), none);
  one = λ s g b c. kept_row (b.1) c;
  saved = λ s g b c. (s, (Entity.no_entity, none));
  get = λ s g b columns. row_pair (ok (taken b.0.limit (select (meets b.0.conditions) rows)));
  find_many = λ s g b ids columns. (none, none);
  paginate = λ s g b n p o columns. (none, ([], none));
  simple_paginate = λ s g b n p o columns. (none, ([], none));
  cursor_paginate = λ s g b n p o columns. (none, ([], none));
  chunk = λ S s g b n callback start. elim (callback start none (pos 1)) [
    | Panicking.returned (after, more, e) ↦ Panicking.returned (after, e)
    | Panicking.panicked ↦ Panicking.panicked
  ];
  each = λ S s g b n callback start. (start, none);
  cursor = λ s g b. [];
  count = λ s g b columns. (pos 3, none);
  exists = λ s g b. (true, none);
  doesnt_exist = λ s g b. (false, none);
  pluck = λ s g b column. ([], none);
  scalar = λ s g b v. keyed (b.1) v;
  change = λ s g b c. (s, (pos 0, none));
  insert = λ s g b values. (s, (true, none));
  insert_or_ignore = λ s g b values. (s, (true, none));
  model_keys = λ r. [];
  find_row = λ r key. Entity.no_entity;
  find_row_or_fail = λ r key. (Entity.no_entity, none);
  contains = λ r key. false;
  pluck_rows = λ r column. [];
  only = λ r keys. r;
  except = λ r keys. r;
  unique = λ r. r;
  load = λ s g r relations. (s, none);
  load_missing = λ s g r relations. (s, none);
  load_count = λ s g r relations. (s, none);
  fresh_rows = λ s g r relations. (r, none);
  to_array = λ r. [];
  fresh = λ s g row relations. (Entity.attempt (some row), none);
  replicate = λ row names. (Entity.attempt (some row), none);
}

select-same :
    (p q : Attempt → Bool) (l : List Attempt)
    → ((r : Attempt) → p r ≡ q r)
    → select p l ≡ select q l
select-same p q l h = ap (λ t. select t l) (fun_ext h)

shelf-gets :
    (s : ℕ) (g : Bytes) (b : Built) (q : Query Bytes)
    → ((r : Attempt) → meets b.0.conditions r ≡ holds archive text_table q.filter r)
    → b.0.order ≡ q.order
    → b.0.limit ≡ some q.limit
    → shelf.get s g b [] ≡ row_pair (archive.get s g q)
shelf-gets s g b q same ordered limited =
    ap (λ l. row_pair (ok l))
      (ap (λ n. taken n (select (meets b.0.conditions) rows)) limited
        ∙ ap (take q.limit) (
            select-same (meets b.0.conditions) (fits q.filter) rows
              (λ r. same r ∙ holds-fits q.filter r)))

compared_meaning :
    (b : Built) (column op v : Bytes)
    → (put (joined false (fits (compares column op v))) b).0
      ≡ joined false (holds archive text_table (compares column op v)) b.0
compared_meaning (m, key) column op v = refl

abbrev builds : Builds archive shelf text_table
builds = record {
  meaning = λ b. b.0;
  start_meaning = refl;
  group_of = λ b. (all_rows, none);
  group_start = λ b. refl;
  compares_by_and = compared_meaning;
  groups_by_and = λ b g c cs e. ap (λ t. joined false (meets t) b.0) e;
  groups_by_or = λ b g c cs e. ap (λ t. joined true (meets t) b.0) e;
  orders = λ b column. refl;
  limits = λ b n. refl;
  gets = shelf-gets;
  values = λ s g key column. refl;
  firsts = λ s g key. refl;
  news = refl;
}

abbrev open_rules : Subject → Action → Attempt → Bool
open_rules s a r = true

abbrev second_page : PageQuery
second_page = record { sort = codes "name"; cursor = codes "a"; limit = pos 2 }

second_page_rows :
    list archive open_rules 0 member_of_acme second_page ≡ ok (second_row ∷ third_row ∷ [])
unfolding list can bytes_eq
second_page_rows = refl

built-Refines_example :
    ((q : PageQuery)
      → Agrees
          (built_list archive shelf open_rules 0 member_of_acme q)
          (list archive open_rules 0 member_of_acme q))
    × ((id : Bytes)
        → built_find archive shelf open_rules 0 member_of_acme id
          ≡ found_pair (find archive open_rules 0 member_of_acme id))
    × ((name : Bytes)
        → built_create archive shelf open_rules 0 member_of_acme name
          ≡ returned (
            (create archive open_rules 0 member_of_acme name).0,
            found_pair (create archive open_rules 0 member_of_acme name).1,
          ))
built-Refines_example = built-Refines archive shelf text_table open_rules builds 0 member_of_acme

abbrev mixed : Option (List (Entity (Unit {0})))
mixed = some (Entity.attempt none ∷ Entity.no_entity ∷ [])

attempt_collection_of_iff_example :
    ((c : List (Option Attempt))
      → (attempt_collection_of mixed ≡ returned (some c)) ↔ (mixed ≡ AttemptQuery.rows (some c)))
    × ((attempt_collection_of mixed ≡ returned none) ↔ (mixed ≡ none))
    × ((attempt_collection_of mixed ≡ panicked) ↔ HasForeign mixed)
attempt_collection_of_iff_example = attempt_collection_of_iff mixed
