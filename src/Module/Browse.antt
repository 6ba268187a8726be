-- ===== src/Module/Browse.antt =====
-- module.go, `index`: a client that asks for page after page, by the cursors that it is offered.
use arandu_attempt.Base.{
  ℕ, zero, suc, ◌+◌, ◌<◌, ◌≡◌, ◌≢◌, refl, sym, ap, ap₂, ◌∙◌, subst, inl, inr, Bool, true, Option,
  none, some, List, [], ◌∷◌, ◌++◌, map, append_assoc, length, take, All, Bytes, codes, bytes_eq,
  ◌==◌, arith, Bool-cases,
}
use arandu_attempt.Base.Int.{pos}
use arandu_attempt.Base.Result.{ok}
use arandu_attempt.Service.{
  Attempt, Action, attempt_list, Subject, blank, can, Framework, sortable_attempt, PageQuery,
  page_limit, everything, lifted, page, sorted, list,
}
use arandu_attempt.Service.Pages.{Table, Reads, select-All, list_after}
use arandu_attempt.Module.{
  Config, Web, Response, many, collection_from_pointers, items, beside, last_id, new_resource,
  to_array, next_cursor, subject, paged, listed, index,
}
use arandu_attempt.Module.Settings.{Ready}
use arandu_attempt.Module.Responses.{next_cursor_lem, page_limit_lem}

abbrev Shown : Type 0
Shown = List (Bytes × Bytes)

-- A record as a response shows it.
abbrev pub shown_as : List Attempt → List Shown
shown_as [] = []
shown_as (r ∷ rs) = to_array (new_resource r) ∷ shown_as rs

items-shown_as :
    (rs : List Attempt) (cursor : Bytes)
    → items (collection_from_pointers (map some rs) cursor) ≡ shown_as rs
unfolding items collection_from_pointers
items-shown_as [] cursor = refl
items-shown_as (r ∷ rs) cursor = ap (λ l. to_array (new_resource r) ∷ l) (items-shown_as rs cursor)

shown_as-append : (xs ys : List Attempt) → shown_as (xs ++ ys) ≡ shown_as xs ++ shown_as ys
shown_as-append [] ys = refl
shown_as-append (x ∷ xs) ys = ap (λ l. to_array (new_resource x) ∷ l) (shown_as-append xs ys)

last_id-append : (xs : List Attempt) (y : Attempt) → last_id (xs ++ y ∷ []) ≡ some y.id
last_id-append [] y = refl
last_id-append (x ∷ []) y = refl
last_id-append (x ∷ z ∷ xs) y = last_id-append (z ∷ xs) y

-- A full page has a last record, and the rows go on behind it.
take-full :
    (k : ℕ) (l : List Attempt)
    → length (take (suc k) l) ≡ suc k
    → (done : List Attempt) × (y : Attempt) × (rest : List Attempt) × (l ≡ done ++ y ∷ rest)
      × (take (suc k) l ≡ done ++ y ∷ [])
      × (length l ≡ suc (k + length rest))
take-full k [] h = absurd (omega arith)
take-full zero (x ∷ l) h = ([], x, l, refl, refl, omega arith)
take-full (suc k) (x ∷ l) h =
    let (done, y, rest, split, page, size) = take-full k l (omega arith) in
    (x ∷ done, y, rest, ap (λ t. x ∷ t) split, ap (λ t. x ∷ t) page, omega arith)

take-short : (k : ℕ) (l : List Attempt) → length (take (suc k) l) ≢ suc k → take (suc k) l ≡ l
take-short k [] h = refl
take-short zero (x ∷ l) h = absurd (h refl)
take-short (suc k) (x ∷ l) h = ap (λ t. x ∷ t) (take-short k l (λ e. h (omega (arith, e))))

All-middle :
    (P : Attempt → Type 0) (done rest : List Attempt) (y : Attempt)
    → All P (done ++ y ∷ rest)
    → P y × All P rest
All-middle P [] rest y h = h
All-middle P (x ∷ done) rest y (_, h) = All-middle P done rest y h

abbrev prepend : List Shown → Option (List Shown) → Option (List Shown)
prepend seen none = none
prepend seen (some l) = some (seen ++ l)

-- What the client has seen in the end: it goes on as long as it is offered a cursor.
abbrev follow : {E V : Type 0} → (Bytes → Option (List Shown)) → Response E V → Option (List Shown)
follow next (many status seen []) = some seen
follow next (many status seen ((name, cursor) ∷ _)) = prepend seen (next cursor)
follow next _ = none

module _ (E V : Type 0) (next : Bytes → Option (List Shown)) (rs : List Attempt) where
  abbrev page_response : Bytes → Response E V
  page_response cursor =
      many 200 (items (collection_from_pointers (map some rs) cursor))
        (beside (collection_from_pointers (map some rs) cursor))

  follow_more :
      (cursor : Bytes)
      → cursor ≢ []
      → follow next (page_response cursor) ≡ prepend (shown_as rs) (next cursor)
  unfolding beside collection_from_pointers bytes_eq
  follow_more [] h = absurd (h refl)
  follow_more (c ∷ cursor) h =
      ap (λ l. prepend l (next (c ∷ cursor))) (items-shown_as rs (c ∷ cursor))

  -- A full page, and what the next requests show.
  follow_full :
      (cursor : Bytes) (done rest : List Attempt) (last : Attempt)
      → cursor ≡ last.id
      → last.id ≢ []
      → rs ≡ done ++ last ∷ []
      → next last.id ≡ some (shown_as rest)
      → follow next (page_response cursor) ≡ some (shown_as (done ++ last ∷ rest))
  follow_full cursor done rest last named known page more =
      ap (λ c. follow next (page_response c)) named
      ∙ follow_more last.id known
      ∙ ap (λ l. prepend (shown_as l) (next last.id)) page
      ∙ ap (prepend (shown_as (done ++ last ∷ []))) more
      ∙ ap some (
          sym (shown_as-append (done ++ last ∷ []) rest)
          ∙ ap shown_as (append_assoc done (last ∷ []) rest))

  follow_last : follow next (page_response []) ≡ some (shown_as rs)
  unfolding beside collection_from_pointers bytes_eq
  follow_last = ap some (items-shown_as rs [])

module _ (f : Framework) (web : Web f) (cfg : Config) (custom : Subject → Action → Attempt → Bool)
    (s : f.State) (r : web.Request) (sort : Bytes) where
  -- So many requests at most, from a cursor on.
  pub browse : ℕ → Bytes → Option (List Shown)
  browse zero cursor = none
  browse (suc n) cursor = follow (browse n) (index f web custom cfg s r sort cursor)

  module _ (t : Table f) (db : Reads f t) (g : f.Grant) (ready : Ready f cfg) (column : Bytes)
      (granted : f.authorize (can custom) (subject f web custom cfg s r) attempt_list blank ≡ ok g)
      (allowed : sortable_attempt sort ≡ some column) where
    abbrev asked : Bytes → PageQuery
    asked cursor = record { sort = sort; cursor = cursor; limit = cfg.page_size }

    abbrev KnownIds : List Attempt → Type 0
    KnownIds = All (λ x. x.id ≢ [])

    index_page :
        (cursor next : Bytes) (rs : List Attempt)
        → list f custom s (subject f web custom cfg s r) (asked cursor) ≡ ok rs
        → next_cursor (pos (suc ready.size)) rs ≡ some next
        → index f web custom cfg s r sort cursor
          ≡ page_response f.Error f.Errors (λ _. none) rs next
    unfolding index listed paged
    index_page cursor next rs answered offered = rw (answered, ready.sized, offered) refl

    -- A page in front of what is left, if the next requests show the rest.
    browse_step :
        (n : ℕ) (cursor : Bytes) (left : List Attempt)
        → list f custom s (subject f web custom cfg s r) (asked cursor)
          ≡ ok (take (suc ready.size) left)
        → KnownIds left
        → ((done rest : List Attempt) (y : Attempt)
            → left ≡ done ++ y ∷ rest
            → length left ≡ suc (ready.size + length rest)
            → browse n y.id ≡ some (shown_as rest))
        → browse (suc n) cursor ≡ some (shown_as left)
    unfolding browse
    browse_step n cursor left answered known more =
        let rs = take (suc ready.size) left in
        let (next, offered, full, short) = next_cursor_lem ready.size rs in
        let asks = ap (follow (browse n)) (index_page cursor next rs answered offered) in
        elim (Bool-cases (length rs == suc ready.size)) [
          | inl y ↦
              let (done, last, rest, split, first, size) =
                take-full ready.size left (ground arith) in
              let named : next ≡ last.id =
                cc (full (ground arith), ap last_id first ∙ last_id-append done last) in
              let (known_last, _) =
                All-middle (λ x. x.id ≢ []) done rest last (subst KnownIds split known) in
              asks
              ∙ follow_full f.Error f.Errors (browse n) rs next done rest last named known_last
                  first (more done rest last split size)
              ∙ ap (λ l. some (shown_as l)) (sym split)
          | inr m ↦
              asks
              ∙ ap (λ c. follow (browse n) (page_response f.Error f.Errors (λ _. none) rs c))
                  (short (ground arith))
              ∙ follow_last f.Error f.Errors (browse n) rs
              ∙ ap (λ l. some (shown_as l)) (take-short ready.size left (ground arith))
        ]

    whole_page : page_limit cfg.page_size ≡ suc ready.size
    whole_page = ap page_limit ready.sized ∙ page_limit_lem ready.size ready.bounded

    All-true : (l : List Attempt) → All (λ x. true ≡ true) l
    All-true [] = tt
    All-true (x ∷ l) = (refl, All-true l)

    list_first :
        (rows : List Attempt)
        → db.rows s g (column ∷ codes "id" ∷ []) ≡ rows
        → list f custom s (subject f web custom cfg s r) (asked [])
          ≡ ok (take (suc ready.size) rows)
    unfolding list sorted page lifted bytes_eq
    list_first rows read =
        rw (granted, list, allowed, sorted)
          (ap (lifted f custom) (
            db.gets s g (record {
              filter = everything;
              order = column ∷ codes "id" ∷ [];
              limit = page_limit cfg.page_size;
            })
            ∙ ap₂ (λ k l. ok (take k l)) whole_page
                (select-All (λ _. true) (db.rows s g (column ∷ codes "id" ∷ [])) (All-true _)
                  ∙ read)))

    browse_after :
        (n : ℕ) (before left : List Attempt) (x : Attempt)
        → db.rows s g (column ∷ codes "id" ∷ []) ≡ before ++ x ∷ left
        → KnownIds (x ∷ left)
        → length left < n
        → browse n x.id ≡ some (shown_as left)
    browse_after zero before left x rows known enough = absurd (omega arith)
    browse_after (suc n) before left x rows (named, known) enough =
        browse_step n x.id left
          (list_after f t custom db s (subject f web custom cfg s r) g (asked x.id) column before
              left x granted allowed rows refl named
            ∙ ap (λ k. ok (take k left)) whole_page)
          known
          (λ done rest y split size.
            browse_after n (before ++ x ∷ done) rest y
              (rows
                ∙ ap (λ l. before ++ x ∷ l) split
                ∙ sym (append_assoc before (x ∷ done) (y ∷ rest)))
              (All-middle (λ x. x.id ≢ []) done rest y (subst KnownIds split known)) (omega arith))

    -- From no cursor on, the client sees every row.
    pub browse-rows :
        (rows : List Attempt) (n : ℕ)
        → db.rows s g (column ∷ codes "id" ∷ []) ≡ rows
        → KnownIds rows
        → length rows < n
        → browse n [] ≡ some (shown_as rows)
    browse-rows rows zero read known enough = absurd (omega arith)
    browse-rows rows (suc n) read known enough =
        browse_step n [] rows (list_first rows read) known (λ done rest y split size.
          browse_after n done rest y (read ∙ split)
            (All-middle (λ x. x.id ≢ []) done rest y (subst KnownIds split known)) (omega arith))
