-- ===== src/Service/Access.antt =====
-- policy.go and service.go: lemmas on who is allowed what.
use arandu_attempt.Base.{
  ◌≡◌, refl, sym, ap, subst, ◌∙◌, ◌⊎◌, inl, inr, Bool, true, false, not, ◌&&◌, Option, none, some,
  [], Bytes, bytes_eq, bytes_eq_iff, Bool-cases, if-intro,
}
use arandu_attempt.Base.Result.{Result, ok, err, ◌>>=◌, bind-eq-ok, Result-cases}
use arandu_attempt.Service.{
  Attempt, blank, Action, attempt_view, attempt_list, attempt_create, Subject, can, no_rule,
  Framework, Failure, framework, rejected, PageQuery, lifted, validate, saved, stored, create,
  confirmed, find, list,
}

-- A record that is stored belongs to a tenant, and the policy allows nothing on another's.
pub can_tenant :
    (custom : Subject → Action → Attempt → Bool) (s : Subject) (a : Action) (r : Attempt)
    → can custom s a r ≡ none
    → (r.id ≡ []) ⊎ (r.tenant_id ≡ s.tenant)
unfolding can
can_tenant custom s a r h = elim (Bool-cases (bytes_eq r.id [])) [
  | inl y ↦ inl ((bytes_eq_iff r.id []).0 y)
  | inr n ↦ elim (Bool-cases (bytes_eq r.tenant_id s.tenant)) [
    | inl y ↦ inr ((bytes_eq_iff r.tenant_id s.tenant).0 y)
    | inr m ↦ absurd (cc (rw (n, m, can) at h))
  ]
]

pub can-custom :
    (custom : Subject → Action → Attempt → Bool) (s : Subject) (a : Action) (r : Attempt)
    → can custom s a r ≡ none
    → custom s a r ≡ true
unfolding can
can-custom custom s a r h =
    if-intro (λ o. o ≡ none → custom s a r ≡ true)
      (not (bytes_eq r.id []) && not (bytes_eq r.tenant_id s.tenant)) _ _ (λ _ e. absurd (cc e))
      (λ _ e.
        if-intro (λ o. o ≡ none → custom s a r ≡ true) (custom s a r) _ _ (λ y _. y)
          (λ _ e'. absurd (cc e')) e)
      h

-- What the callers rely on in `security.Authorize`: a grant is given only when the policy is asked
-- about that subject, action and record and refuses with no error.
abbrev pub AsksPolicy : Framework → Type 0
AsksPolicy f =
    (policy : Subject → Action → Attempt → Option Bytes) (s : Subject) (a : Action) (r : Attempt)
    (g : f.Grant)
    → f.authorize policy s a r ≡ ok g
    → policy s a r ≡ none

module _ (f : Framework) (custom : Subject → Action → Attempt → Bool) where
  open f use {State, Grant, Error, authorize}

  lifted-eq-ok : {A : Type 0} (m : Result Error A) {a : A} → lifted f custom m ≡ ok a → m ≡ ok a
  unfolding lifted
  lifted-eq-ok (ok a) h = cc
  lifted-eq-ok (err e) h = absurd (cc h)

  -- The validation accepts the candidate, the rules allow it, and `Authorize` gives a grant for it.
  abbrev pub Asked : Subject → Bytes → Grant → Type 0
  Asked actor name g =
      (f.any (validate f custom name) ≡ false)
      × (custom actor attempt_create (record blank { name = name }) ≡ true)
      × (authorize (can custom) actor attempt_create (record blank { name = name }) ≡ ok g)

  -- How `Create` ends: it refuses the name, it has no grant, there is no id or no row, in which cases
  -- nothing is saved; or it saves one row. A grant is the one that `Authorize` gives the subject for
  -- creating the candidate, and the rules allow that.
  pub data Created (s : State) (actor : Subject) (name : Bytes)
      : State → Result (Failure Error f.Errors) Attempt → Type 0 where
    invalid :
        f.any (validate f custom name) ≡ true
        → Created s actor name s (err (rejected (validate f custom name)))
    forbidden :
        (e : Error)
        → f.any (validate f custom name) ≡ false
        → authorize (can custom) actor attempt_create (record blank { name = name }) ≡ err e
        → Created s actor name s (err (framework e))
    no_id :
        (g : Grant) (e : Error)
        → Asked actor name g
        → (f.new_id s).1 ≡ err e
        → Created s actor name (f.new_id s).0 (err (framework e))
    no_row :
        (g : Grant) (id : Bytes) (e : Error)
        → Asked actor name g
        → (f.new_id s).1 ≡ ok id
        → f.new_row ≡ err e
        → Created s actor name (f.new_id s).0 (err (framework e))
    kept :
        (g : Grant) (id : Bytes) (row : Attempt) {s' : State} (m : Result Error Attempt)
        → Asked actor name g
        → (f.new_id s).1 ≡ ok id
        → f.new_row ≡ ok row
        → f.save
            (f.new_id s).0
            g
            (record row { id = id; tenant_id = f.granted_tenant g; name = name })
          ≡ (s', m)
        → Created s actor name s' (lifted f custom m)

  stored_no_row :
      (name : Bytes) (g : Grant) (n : State × Result Error Bytes) (id : Bytes) (e : Error)
      → n.1 ≡ ok id
      → f.new_row ≡ err e
      → stored f custom g name n ≡ (n.0, err (framework e))
  unfolding stored
  stored_no_row name g (t, r) id e named made = simp (named, made)

  stored_kept :
      (name : Bytes) (g : Grant) (n : State × Result Error Bytes) (id : Bytes) (row : Attempt)
      → n.1 ≡ ok id
      → f.new_row ≡ ok row
      → stored f custom g name n
        ≡ saved f custom
            (f.save n.0 g (record row { id = id; tenant_id = f.granted_tenant g; name = name }))
  unfolding stored
  stored_kept name g (t, r) id row named made = simp (named, made)

  stored-Created :
      (s : State) (actor : Subject) (name : Bytes) (g : Grant)
      → Asked actor name g
      → Created s actor name
          (stored f custom g name (f.new_id s)).0
          (stored f custom g name (f.new_id s)).1
  unfolding stored saved
  stored-Created s actor name g asked = elim (Result-cases (f.new_id s).1) [
    | inr (e, named) ↦ rw (named, stored) (no_id g e asked named)
    | inl (id, named) ↦ elim (Result-cases f.new_row) [
      | inr (e, made) ↦
          subst (λ p. Created s actor name p.0 p.1)
            (sym (stored_no_row name g (f.new_id s) id e named made))
            (no_row g id e asked named made)
      | inl (row, made) ↦
          subst (λ p. Created s actor name p.0 p.1)
            (sym (stored_kept name g (f.new_id s) id row named made))
            (kept g id row _ asked named made refl)
    ]
  ]

  module _ (asks : AsksPolicy f) where
    authorize-rule :
        (s : Subject) (a : Action) (r : Attempt) (g : Grant)
        → lifted f custom (authorize (can custom) s a r) ≡ ok g
        → custom s a r ≡ true
    authorize-rule s a r g h =
        can-custom custom s a r (asks (can custom) s a r g (lifted-eq-ok _ h))

    confirmed-Allowed :
        (actor : Subject) (o : Option Attempt) (r : Attempt)
        → confirmed f custom actor o ≡ ok r
        → (o ≡ some r)
          × ((g : Grant) × (authorize (can custom) actor attempt_view r ≡ ok g))
          × (can custom actor attempt_view r ≡ none)
    unfolding confirmed
    confirmed-Allowed actor none r h = absurd (cc h)
    confirmed-Allowed actor (some r') r h =
        elim (Result-cases (authorize (can custom) actor attempt_view r')) [
          | inl (g, e) ↦
              let same : r' ≡ r = cc (rw (e, confirmed) at h) in
              (
                ap some same,
                (g, subst (λ x. authorize (can custom) actor attempt_view x ≡ ok g) same e),
                subst (λ x. can custom actor attempt_view x ≡ none) same
                    (asks (can custom) actor attempt_view r' g e),
              )
          | inr (e', e) ↦ absurd (cc (rw (e, confirmed) at h))
        ]

    -- `Find` gives a record only under two grants, one on the empty candidate and one on that
    -- record, that `Authorize` gives the subject for viewing: the rules allow both, and the record is
    -- the one that the model reads under the first grant, and has no id or the subject's own tenant.
    -- `Authorize` grants only what the policy allows.
    pub find-Allowed :
        (s : State) (actor : Subject) (id : Bytes) (r : Attempt)
        → find f custom s actor id ≡ ok r
        → (g : Grant) × (authorize (can custom) actor attempt_view blank ≡ ok g)
          × (f.first s g id ≡ ok (some r))
          × ((again : Grant) × (authorize (can custom) actor attempt_view r ≡ ok again))
          × (custom actor attempt_view blank ≡ true)
          × (custom actor attempt_view r ≡ true)
          × ((r.id ≡ []) ⊎ (r.tenant_id ≡ actor.tenant))
    unfolding find
    find-Allowed s actor id r h =
        let (g, granted, h') =
          bind-eq-ok (lifted f custom (authorize (can custom) actor attempt_view blank))
            (λ g. lifted f custom (f.first s g id) >>= confirmed f custom actor) h in
        let (found, row, last) =
          bind-eq-ok (lifted f custom (f.first s g id)) (confirmed f custom actor) h' in
        let (same, again, allowed) = confirmed-Allowed actor found r last in
        (
          g,
          lifted-eq-ok _ granted,
          lifted-eq-ok (f.first s g id) row ∙ ap ok same,
          again,
          authorize-rule actor attempt_view blank g granted,
          can-custom custom actor attempt_view r allowed,
          can_tenant custom actor attempt_view r allowed,
        )

    -- `Create` saves nothing or one row, and answers what came of it: an error, with which error for
    -- which step, or what the save left. It saves only a candidate that the validation accepts and the
    -- rules allow, under the grant for it, with a new id, the tenant of that grant and the name asked
    -- for. `Authorize` grants only what the policy allows.
    pub create-Created :
        (s : State) (actor : Subject) (name : Bytes)
        → Created s actor name (create f custom s actor name).0 (create f custom s actor name).1
    unfolding create
    create-Created s actor name = elim (Bool-cases (f.any (validate f custom name))) [
      | inl bad ↦ rw (bad, create) (invalid bad)
      | inr good ↦
          elim (Result-cases
            (authorize (can custom) actor attempt_create (record blank { name = name }))) [
              | inl (g, e) ↦
                  rw (good, e, create)
                    (stored-Created s actor name g (
                      good,
                      can-custom custom actor attempt_create _
                          (asks (can custom) actor attempt_create _ g e),
                      e,
                    ))
              | inr (x, e) ↦ rw (good, e, create) (forbidden x good e)
            ]
    ]

    refused :
        custom ≡ no_rule
        → (s : Subject) (a : Action) (r : Attempt)
        → (e : Error) × (authorize (can custom) s a r ≡ err e)
    refused shipped s a r = elim (Result-cases (authorize (can custom) s a r)) [
      | inl (g, e) ↦
          let allowed : custom s a r ≡ true =
            can-custom custom s a r (asks (can custom) s a r g e) in
          let never : custom s a r ≡ false = ap (λ c. c s a r) shipped in
          absurd (cc (allowed, never))
      | inr (e, h) ↦ (e, h)
    ]

    -- The package as it ships answers nobody: with no rule in the custom block, every create, find
    -- and list is an error, and a create leaves the state as it was.
    pub no_rule-closed :
        custom ≡ no_rule
        → (s : State) (actor : Subject)
        → ((name : Bytes)
            → (e : Failure Error f.Errors) × (create f custom s actor name ≡ (s, err e)))
          × ((id : Bytes) → (e : Failure Error f.Errors) × (find f custom s actor id ≡ err e))
          × ((q : PageQuery) → (e : Failure Error f.Errors) × (list f custom s actor q ≡ err e))
    unfolding create find list lifted
    no_rule-closed shipped s actor = (
      λ name. elim (Bool-cases (f.any (validate f custom name))) [
        | inl bad ↦ (rejected (validate f custom name), rw (bad, create) refl)
        | inr good ↦
            let (e, refusal) =
              refused shipped actor attempt_create (record blank { name = name }) in
            (framework e, rw (good, refusal, create) refl)
      ],
      λ id.
          let (e, refusal) = refused shipped actor attempt_view blank in
          (framework e, rw (refusal, find, lifted) refl),
      λ q.
          let (e, refusal) = refused shipped actor attempt_list blank in
          (framework e, rw (refusal, list, lifted) refl),
    )
