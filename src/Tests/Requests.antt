-- ===== src/Tests/Requests.antt =====
-- The theorems on the service and the module at concrete inputs.
use arandu_attempt.Base.{
  ℕ, ◌≤◌, ◌<◌, ◌≡◌, ◌≢◌, refl, ap, subst, ◌⊎◌, inl, inr, Bool, true, false, some, List, [], ◌∷◌,
  ◌++◌, Bytes, codes, bytes_eq, length, take, All, ltb, ◌==◌, arith, Bool-cases, Option-cases,
}
use arandu_attempt.Base.Int.{pos}
use arandu_attempt.Base.Result.{ok}
use arandu_attempt.Service.{
  Attempt, Action, attempt_list, attempt_view, blank, Subject, can, no_rule, Cond, everything,
  compares, both, either, sortable_attempt, create, find,
}
use arandu_attempt.Service.Access.{AsksPolicy, find-Allowed, Created, create-Created}
use arandu_attempt.Service.Pages.{Table, Reads, holds, select, IsOrdered}
use arandu_attempt.Module.{
  Config, Web, subject, index, show, store, new_module, with_defaults, validate_config,
  validate_route_prefix,
}
use arandu_attempt.Module.Settings.{Ready, new_module-Ready}
use arandu_attempt.Module.Browse.{browse, shown_as, browse-rows}
use arandu_attempt.Module.Responses.{has_record, no_rule-empty}
use arandu_attempt.Tests.{
  desk, is_among, member_of_acme, first_row, second_row, third_row, rows, cell, row_named, matches,
  matching,
}

desk-AsksPolicy : AsksPolicy desk
desk-AsksPolicy policy s a r g h = elim (Option-cases (policy s a r)) [
  | inl e ↦ e
  | inr (e, refusal) ↦ absurd (cc (rw refusal at h))
]

abbrev open_rule : Subject → Action → Attempt → Bool
open_rule s a r = true

abbrev named_new : Attempt
named_new = record { id = codes "new"; tenant_id = codes "acme"; name = codes "n"; created_at = [] }

found : find desk open_rule 0 member_of_acme (codes "a") ≡ ok first_row
unfolding find can bytes_eq
found = refl

find-Allowed_example :
    (g : Bytes) × (desk.authorize (can open_rule) member_of_acme attempt_view blank ≡ ok g)
    × (desk.first 0 g (codes "a") ≡ ok (some first_row))
    × ((again : Bytes) × (desk.authorize (can open_rule) member_of_acme attempt_view first_row
          ≡ ok again))
    × (true ≡ true)
    × (true ≡ true)
    × ((first_row.id ≡ []) ⊎ (first_row.tenant_id ≡ member_of_acme.tenant))
find-Allowed_example =
    find-Allowed desk open_rule desk-AsksPolicy 0 member_of_acme (codes "a") first_row found

made : create desk open_rule 0 member_of_acme (codes "n") ≡ (2, ok named_new)
unfolding create can bytes_eq
made = refl

create-Created_example : Created desk open_rule 0 member_of_acme (codes "n") 2 (ok named_new)
unfolding create can bytes_eq
create-Created_example = create-Created desk open_rule desk-AsksPolicy 0 member_of_acme (codes "n")

abbrev web : Web desk
web = record {
  Request = Unit {0};
  load = λ s r. ok member_of_acme;
  guest = λ t. record { id = []; tenant = t };
}

abbrev given : Config
given = record { tenant = codes "acme"; prefix = codes "/tasks"; page_size = pos 0 }

abbrev mounted : Config
mounted = record { tenant = codes "acme"; prefix = codes "/tasks"; page_size = pos 25 }

abbrev settings : Config
settings = record { tenant = codes "acme"; prefix = codes "/attempt"; page_size = pos 1 }

built : new_module desk given true true ≡ ok mounted
unfolding new_module with_defaults validate_config validate_route_prefix is_among bytes_eq
built = refl

new_module-Ready_example :
    (true ≡ true) × (true ≡ true) × (mounted.tenant ≡ given.tenant) × Ready desk mounted
new_module-Ready_example = new_module-Ready desk given mounted true true built

no_rule-empty_example :
    ((sort cursor : Bytes) → has_record (index desk web no_rule settings 0 tt sort cursor) ≡ false)
    × ((id : Bytes) → has_record (show desk web no_rule settings 0 tt id) ≡ false)
    × ((name : Bytes)
        → ((store desk web no_rule settings 0 tt name).0 ≡ 0)
          × (has_record (store desk web no_rule settings 0 tt name).1 ≡ false))
no_rule-empty_example = no_rule-empty desk web settings no_rule desk-AsksPolicy refl 0 tt

ltb_asym : (a b : ℕ) → ltb a b ≡ true → ltb b a ≡ false
ltb_asym a b h = ground arith

ltb-apart : (a b : ℕ) → ltb a b ≡ true → ((a == b) ≡ false) × ((b == a) ≡ false)
ltb-apart a b h = (ground arith, ground arith)

cell_id : (r : Attempt) → length r.id ≡ cell r (codes "id")
unfolding bytes_eq
cell_id r = refl

abbrev table : Table desk
table = record {
  less = ltb;
  equal = λ a b. a == b;
  compare = λ op a b. false;
  cell = cell;
  asymmetric = ltb_asym;
  apart = ltb-apart;
  id_cell = cell_id;
}

holds-matches : (c : Cond ℕ) (r : Attempt) → holds desk table c r ≡ matches c r
holds-matches everything r = refl
holds-matches (compares column op v) r = refl
holds-matches (both a b) r = rw (holds-matches a r, holds-matches b r) refl
holds-matches (either a b) r = rw (holds-matches a r, holds-matches b r) refl

select-matching : (c : Cond ℕ) (rs : List Attempt) → matching c rs ≡ select (holds desk table c) rs
select-matching c [] = refl
select-matching c (r ∷ rs) = rw (holds-matches c r, select-matching c rs) refl

rows-IsOrdered : (column : Bytes) → IsOrdered desk table column rows
unfolding bytes_eq
rows-IsOrdered column = elim (Bool-cases (bytes_eq column (codes "id"))) [
  | inl y ↦ rw y ((refl, (refl, tt)), ((refl, tt), (tt, tt)))
  | inr n ↦ elim (Bool-cases (bytes_eq column (codes "name"))) [
    | inl y ↦ rw (n, y) ((refl, (refl, tt)), ((refl, tt), (tt, tt)))
    | inr m ↦ rw (n, m) ((refl, (refl, tt)), ((refl, tt), (tt, tt)))
  ]
]

row_named_lem :
    (before after : List Attempt) (r : Attempt) → rows ≡ before ++ r ∷ after → row_named r.id ≡ r
unfolding bytes_eq
row_named_lem [] after r h = let e : first_row ≡ r = cc h in subst (λ x. row_named x.id ≡ x) e refl
row_named_lem (a ∷ []) after r h =
    let e : second_row ≡ r = cc h in subst (λ x. row_named x.id ≡ x) e refl
row_named_lem (a ∷ b ∷ []) after r h =
    let e : third_row ≡ r = cc h in subst (λ x. row_named x.id ≡ x) e refl
row_named_lem (a ∷ b ∷ c ∷ []) after r h = absurd (cc h)
row_named_lem (a ∷ b ∷ c ∷ d ∷ rest) after r h = absurd (cc h)

abbrev reads : Reads desk table
reads = record {
  rows = λ s g order. rows;
  ordered = λ s g column. rows-IsOrdered column;
  gets = λ s g q. ap (λ l. ok (take q.limit l)) (select-matching q.filter rows);
  reads = λ s g order before after r column h.
      ap (λ x. ok (some (cell x column))) (row_named_lem before after r h);
}

allowed_lem : sortable_attempt (codes "name") ≡ some (codes "name")
unfolding sortable_attempt bytes_eq
allowed_lem = refl

granted_lem : desk.authorize (can open_rule) member_of_acme attempt_list blank ≡ ok (codes "acme")
unfolding can bytes_eq
granted_lem = refl

zero_bounded : 0 ≤ 199
zero_bounded = omega arith

abbrev ready : Ready desk settings
ready = record {
  tenant_known = refl;
  path = codes "attempt";
  rooted = refl;
  size = 0;
  sized = refl;
  bounded = zero_bounded;
  routable = inl refl;
}

rows_named : All (λ x. x.id ≢ []) rows
rows_named = (λ e. cc, (λ e. cc, (λ e. cc, tt)))

enough : length rows < 4
enough = omega arith

browse-rows_example :
    browse desk web settings open_rule 0 tt (codes "name") 4 [] ≡ some (shown_as rows)
unfolding subject bytes_eq
browse-rows_example =
    browse-rows desk web settings open_rule 0 tt (codes "name") table reads (codes "acme") ready
      (codes "name") granted_lem allowed_lem rows 4 refl rows_named enough
