-- ===== src/Module/Settings.antt =====
-- config.go and module.go, `New`: lemmas on the settings.
use arandu_attempt.Base.{
  ℕ, zero, suc, ◌≤◌, ◌≡◌, refl, sym, ap, subst, ◌⊎◌, inl, inr, map, some, Bool, true, false, not,
  none, [], ◌∷◌, Bytes, bytes_eq, arith, Option-cases, Bool-cases, if◌then◌else◌,
}
use arandu_attempt.Base.Int.{ℤ, pos, negsuc}
use arandu_attempt.Base.Result.{ok, err}
use arandu_attempt.Service.{Framework}
use arandu_attempt.Module.{
  Config, default_prefix, routes, pattern, handle_all, validate_route_prefix, lacks_slash,
  is_bad_size, validate_config, default_size, with_defaults, new_module, no_database, no_sessions,
}

-- An empty mux accepts the patterns of all routes that the module registers.
abbrev pub Accepts : Framework → Config → Type 0
Accepts f c = (mux : f.Mux) × (handle_all f f.new_mux (map pattern (routes c)) ≡ some mux)

-- The settings of a module: a tenant, a route under /, a page of 1 to 200 records, and routes that
-- a mux accepts if their prefix is not the default one.
pub record Ready (f : Framework) (c : Config) : Type 0 where
  pub tenant_known : f.valid_tenant c.tenant ≡ true
  pub path : Bytes
  pub rooted : c.prefix ≡ b'/' ∷ path
  pub size : ℕ
  pub sized : c.page_size ≡ pos (suc size)
  pub bounded : size ≤ 199
  pub routable : (c.prefix ≡ default_prefix) ⊎ Accepts f c

rooted_lem :
    (p : Bytes)
    → lacks_slash p ≡ false
    → (path : Bytes) × ((if bytes_eq p [] then default_prefix else p) ≡ b'/' ∷ path)
unfolding lacks_slash bytes_eq
rooted_lem [] h = (_, refl)
rooted_lem (c ∷ cs) h = (cs, ap (λ x. x ∷ cs) (ground arith))

sized_lem :
    (z : ℤ) → is_bad_size z ≡ false → (size : ℕ) × (default_size z ≡ pos (suc size)) × (size ≤ 199)
unfolding is_bad_size default_size
sized_lem (negsuc n) h = absurd (cc h)
sized_lem (pos zero) h = (24, refl, omega arith)
sized_lem (pos (suc n)) h = (n, refl, ground arith)

-- What a configuration that passes `Validate` satisfies.
valid_lem :
    (f : Framework) (c : Config)
    → validate_config f c ≡ none
    → (f.valid_tenant c.tenant ≡ true)
      × (lacks_slash c.prefix ≡ false)
      × ((if bytes_eq c.prefix [] then none else validate_route_prefix f c.prefix) ≡ none)
      × (is_bad_size c.page_size ≡ false)
unfolding validate_config
valid_lem f c h =
    let tenant : f.valid_tenant c.tenant ≡ true = ground (arith, h) in
    let slash : lacks_slash c.prefix ≡ false = ground (arith, h) in
    let no_tenant_lem : bytes_eq c.tenant [] ≡ false = ground (arith, h) in
    elim (Option-cases (if bytes_eq c.prefix [] then none else validate_route_prefix f c.prefix)) [
      | inl e ↦
          let size : is_bad_size c.page_size ≡ false = ground (arith, h, e) in
          (tenant, slash, e, size)
      | inr (bad, e) ↦ absurd (cc (rw (no_tenant_lem, tenant, slash, e, validate_config) at h))
    ]

-- The patterns that were tried are those of the routes.
accepted_lem : (f : Framework) (c : Config) → validate_route_prefix f c.prefix ≡ none → Accepts f c
unfolding validate_route_prefix
accepted_lem f c h = elim (Option-cases (handle_all f f.new_mux (map pattern (routes c)))) [
  | inr (mux, e) ↦ (mux, e)
  | inl e ↦ absurd (cc (rw (e, validate_route_prefix) at h))
]

routable_lem :
    (f : Framework) (c : Config)
    → (if bytes_eq c.prefix [] then none else validate_route_prefix f c.prefix) ≡ none
    → ((with_defaults c).prefix ≡ default_prefix) ⊎ Accepts f (with_defaults c)
unfolding with_defaults validate_route_prefix
routable_lem f c h = elim (Bool-cases (bytes_eq c.prefix [])) [
  | inl e ↦ inl (rw e refl)
  | inr e ↦
      let same : (if bytes_eq c.prefix [] then default_prefix else c.prefix) ≡ c.prefix =
        rw e refl in
      inr
        (subst (λ p. Accepts f (record c { prefix = p })) (sym same) (accepted_lem f c (rw e at h)))
]

-- `New` builds a module only with both handles, and its settings are then ready: a valid tenant, a
-- prefix that starts with a slash, and a page size from 1 to 200, with the defaults filled in; and a
-- mux has accepted the patterns of all the routes that the module registers, if their prefix is not
-- the default one.
pub new_module-Ready :
    (f : Framework) (c m : Config) (has_database has_sessions : Bool)
    → new_module f c has_database has_sessions ≡ ok m
    → (has_database ≡ true) × (has_sessions ≡ true) × (m.tenant ≡ c.tenant) × Ready f m
unfolding new_module with_defaults
new_module-Ready f c m has_database has_sessions h = elim (Option-cases (validate_config f c)) [
  | inr (e, bad) ↦ absurd (cc (rw (bad, new_module) at h))
  | inl good ↦
      let (tenant, slash, tried, sized) = valid_lem f c good in
      let (path, rooted) = rooted_lem c.prefix slash in
      let (size, is_size, bounded) = sized_lem c.page_size sized in
      let ready : Ready f (with_defaults c) = record {
        tenant_known = tenant;
        path = path;
        rooted = rooted;
        size = size;
        sized = is_size;
        bounded = bounded;
        routable = routable_lem f c tried;
      } in
      handles has_database has_sessions ready (rw (good, new_module) at h)
]
  where
    handles :
        (a b : Bool)
        → Ready f (with_defaults c)
        → (if not a
            then err no_database
            else if not b
            then err no_sessions
            else ok (with_defaults c))
          ≡ ok m
        → (a ≡ true) × (b ≡ true) × (m.tenant ≡ c.tenant) × Ready f m
    handles false b ready h = absurd (cc h)
    handles true false ready h = absurd (cc h)
    handles true true ready h =
        let same : with_defaults c ≡ m = cc h in
        (refl, refl, sym (ap (λ k. k.tenant) same), subst (Ready f) same ready)
