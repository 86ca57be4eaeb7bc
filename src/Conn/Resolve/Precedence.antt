-- ===== src/Conn/Resolve/Precedence.antt =====
-- `resolve` field by field: the DSN, then the service, then the environment, then the default.
use pg_lens.Prelude.{
  ◌≡◌, refl, ◌⊎◌, inl, inr, false, not, ◌&&◌, Option, none, some, List, [], ◌∷◌, is_some, is_empty,
  or_else, unwrap_or, arith, ◌∙◌, if◌then◌else◌,
}
use pg_lens.Prelude.Text.{Text, codes}
use pg_lens.Conn.Error.{ok, >>=-eq-ok, ok_injective}
use pg_lens.Conn.Config.{View, ConfigApi}
use pg_lens.Conn.Services.{Os, ServiceEntry, Warning}
use pg_lens.Conn.Settings.{ConnSpec, PasswordSource, env_value, find_entry}
use pg_lens.Conn.Resolve.{
  has_host, u16_max, u64_max, label_host, from_config, env_loop, env_rules, defaults, Resolved,
  parse_dsn, apply_found, resolve,
}
use pg_lens.Conn.Resolve.Service.{
  push, positive, pins, source_of, service_view, apply_service-view, apply_service-source,
  apply_service-pinned,
}
use pg_lens.Conn.Resolve.Env.{number, unless, env_view, env_loop-view}

-- A field of the entry that was found, if one was found.
abbrev pub entry_field : {A : Type 0} → (ServiceEntry → Option A) → Option ServiceEntry → Option A
entry_field f none = none
entry_field f (some e) = f e

-- The precedence of one field.
abbrev pub preferred : {A : Type 0} → Option A → Option A → Option A → Option A
preferred dsn service env = or_else dsn (or_else service env)

module _ (api : ConfigApi) where
  open api use {Config, view}

  -- The view after the defaults.
  pub default_view : View → View
  default_view v = record v {
    hosts = if has_host v then v.hosts else codes "localhost" ∷ [];
    user = some (unwrap_or v.user (codes "postgres"));
  }

  empty_of_no_host : (v : View) → has_host v ≡ false → v.hosts ≡ []
  empty_of_no_host v h = ground arith

  defaults-view : (c : Config) → view (defaults api c) ≡ default_view (view c)
  unfolding defaults default_view
  defaults-view c = ground (
    arith,
    empty_of_no_host (view c),
    api.view-host c (codes "localhost"),
    api.view-user c (codes "postgres"),
    api.view-user (api.host c (codes "localhost")) (codes "postgres"),
  )

  pub found_view : View → Option ServiceEntry → View
  found_view v none = v
  found_view v (some e) = service_view api v e

  found-view :
      (c : Config) (o : Option ServiceEntry)
      → view (apply_found api c o).config ≡ found_view (view c) o
  unfolding apply_found found_view
  found-view c none = ground arith
  found-view c (some e) = apply_service-view api c e

  pub found-source :
      (c : Config) (o : Option ServiceEntry)
      → (apply_found api c o).source
        ≡ source_of
            (view c).password
            (entry_field (λ e. e.password) o)
            (entry_field (λ e. e.password_cmd) o)
  unfolding apply_found
  found-source c none = ground arith
  found-source c (some e) = apply_service-source api c e

  found-pinned :
      (c : Config) (o : Option ServiceEntry)
      → (apply_found api c o).timeout_pinned ≡ (
          not (is_some (view c).connect_timeout)
          && pins (entry_field (λ e. e.connect_timeout_secs) o))
  unfolding apply_found
  found-pinned c none = ground arith
  found-pinned c (some e) = apply_service-pinned api c e

module _ (api : ConfigApi) (os : Os) (spec : ConnSpec) where
  open api use {Config, view}

  -- The parts of a successful `resolve`.
  pub resolve_parts :
      (base : Config) (found : Option ServiceEntry × List Warning) (r : Resolved api)
      → parse_dsn api spec.dsn ≡ ok base
      → find_entry os spec ≡ ok found
      → resolve api os spec ≡ ok r
      → let a = apply_found api base found.0 in
        (view r.config
          ≡ default_view api (env_view api spec a (found_view api (view base) found.0)))
        × (r.label ≡ from_config (view r.config))
        × (r.password_source ≡ a.source)
        × (r.warnings ≡ found.1)
  unfolding resolve
  resolve_parts base found r hb hf h =
      let a = apply_found api base found.0 in
      let h' = rw (hb, hf) at h in
      let (merged, loop, last) = >>=-eq-ok (env_loop api spec a (env_rules api) a.config) _ h' in
      let seen = env_loop-view api spec a a.config merged loop in
      let e = ok_injective last in
      (
        rw (← e, defaults-view api merged, seen, found-view api base found.0),
        rw (← e),
        rw (← e),
        rw (← e),
      )

  -- Where the DSN parses, the lookup of the service does not fail and `resolve` returns a connection:
  -- whatever the DSN, the service, the environment and, for the user, the default say, in this
  -- order, is what it has for its database, its application name and its user.
  pub resolve_names :
      (base : Config) (found : Option ServiceEntry × List Warning) (r : Resolved api)
      → parse_dsn api spec.dsn ≡ ok base
      → find_entry os spec ≡ ok found
      → resolve api os spec ≡ ok r
      → let v = view base in
        let w = view r.config in
        (w.dbname
          ≡ preferred v.dbname
              (entry_field (λ e. e.dbname) found.0)
              (env_value spec (codes "PGDATABASE")))
        × (w.application_name
            ≡ preferred v.application_name
                (entry_field (λ e. e.application_name) found.0)
                (env_value spec (codes "PGAPPNAME")))
        × (w.user
            ≡ some (
                unwrap_or
                  (preferred v.user
                    (entry_field (λ e. e.user) found.0)
                    (env_value spec (codes "PGUSER")))
                  (codes "postgres")))
  unfolding default_view env_view found_view service_view
  resolve_names base (none, ws) r hb hf h =
      let (e, _, _, _) = resolve_parts base (none, ws) r hb hf h in rw e (ground arith)
  resolve_names base (some entry, ws) r hb hf h =
      let (e, _, _, _) = resolve_parts base (some entry, ws) r hb hf h in rw e (ground arith)

  -- Where the DSN parses, the lookup of the service does not fail and `resolve` returns a connection:
  -- its hosts are those of the DSN if it names a host or an address, and else exactly one host, from the
  -- service, the environment or the default. Addresses are those of the DSN. Ports: those of the
  -- DSN if it names any, and else at most one, from the service or the environment. The label
  -- shows the first host (or, with none, the first address) and the user.
  pub resolve_hosts :
      (base : Config) (found : Option ServiceEntry × List Warning) (r : Resolved api)
      → parse_dsn api spec.dsn ≡ ok base
      → find_entry os spec ≡ ok found
      → resolve api os spec ≡ ok r
      → let v = view base in
        let w = view r.config in
        (w.hosts ≡ (
          if has_host v
          then v.hosts
          else unwrap_or
              (or_else (entry_field (λ e. e.host) found.0) (env_value spec (codes "PGHOST")))
              (codes "localhost")
            ∷ []))
        × (w.hostaddrs ≡ v.hostaddrs)
        × (w.ports
            ≡ push
                (is_empty v.ports)
                (or_else
                  (entry_field (λ e. e.port) found.0)
                  (number u16_max (env_value spec (codes "PGPORT"))))
                v.ports)
        × (r.label ≡ record { host = label_host w.hosts w.hostaddrs; user = w.user })
  unfolding default_view env_view found_view service_view from_config
  resolve_hosts base (none, ws) r hb hf h =
      let (e, l, _, _) = resolve_parts base (none, ws) r hb hf h in
      (rw e (ground arith), rw e (ground arith), rw e (ground arith), l)
  resolve_hosts base (some entry, ws) r hb hf h =
      let (e, l, _, _) = resolve_parts base (some entry, ws) r hb hf h in
      (rw e (ground arith), rw e (ground arith), rw e (ground arith), l)

  resolve_password :
      (base : Config) (found : Option ServiceEntry × List Warning) (r : Resolved api)
      → parse_dsn api spec.dsn ≡ ok base
      → find_entry os spec ≡ ok found
      → resolve api os spec ≡ ok r
      → (view r.config).password
        ≡ preferred
            (view base).password
            (entry_field (λ e. e.password) found.0)
            (unless (is_some r.password_source) (env_value spec (codes "PGPASSWORD")))
  unfolding default_view env_view found_view service_view
  resolve_password base (none, ws) r hb hf h =
      let (e, _, s, _) = resolve_parts base (none, ws) r hb hf h in rw (e, s) (ground arith)
  resolve_password base (some entry, ws) r hb hf h =
      let (e, _, s, _) = resolve_parts base (some entry, ws) r hb hf h in rw (e, s) (ground arith)

  no_password_with_source :
      (dsn pw cmd env p : Option Text) (src : Option PasswordSource)
      → p ≡ preferred dsn pw (unless (is_some src) env)
      → src ≡ source_of dsn pw cmd
      → (src ≡ none) ⊎ (p ≡ none)
  no_password_with_source dsn pw cmd env p none h k = inl refl
  no_password_with_source dsn pw cmd env p (some s) h k = inr (ground (arith, h, k))

  -- Where the DSN parses, the lookup of the service does not fail and `resolve` returns a connection:
  -- its password is that of the DSN, then of the service, then of the environment, where a service with a
  -- `password_cmd` in use hides PGPASSWORD. The command is used exactly if neither the DSN nor the
  -- service has a password, and then the connection carries no password at all.
  pub resolve_secret :
      (base : Config) (found : Option ServiceEntry × List Warning) (r : Resolved api)
      → parse_dsn api spec.dsn ≡ ok base
      → find_entry os spec ≡ ok found
      → resolve api os spec ≡ ok r
      → let v = view base in
        let w = view r.config in
        (w.password
          ≡ preferred v.password
              (entry_field (λ e. e.password) found.0)
              (unless (is_some r.password_source) (env_value spec (codes "PGPASSWORD"))))
        × (r.password_source
            ≡ source_of v.password
                (entry_field (λ e. e.password) found.0)
                (entry_field (λ e. e.password_cmd) found.0))
        × ((r.password_source ≡ none) ⊎ (w.password ≡ none))
  resolve_secret base found r hb hf h =
      let (_, _, s, _) = resolve_parts base found r hb hf h in
      let src = s ∙ found-source api base found.0 in
      let pw = resolve_password base found r hb hf h in
      (pw, src, no_password_with_source _ _ _ _ _ _ pw src)

  -- Where the DSN parses, the lookup of the service does not fail and `resolve` returns a connection:
  -- its timeout is that of the DSN, then of the service, then of the environment; 0 stands for none, and
  -- a service that says 0 hides PGCONNECT_TIMEOUT. The warnings are those of the service lookup.
  pub resolve_timeout :
      (base : Config) (found : Option ServiceEntry × List Warning) (r : Resolved api)
      → parse_dsn api spec.dsn ≡ ok base
      → find_entry os spec ≡ ok found
      → resolve api os spec ≡ ok r
      → let service = entry_field (λ e. e.connect_timeout_secs) found.0 in
        ((view r.config).connect_timeout
          ≡ preferred (view base).connect_timeout (positive service) (
              unless
                (pins service)
                (positive (number u64_max (env_value spec (codes "PGCONNECT_TIMEOUT"))))))
        × (r.warnings ≡ found.1)
  unfolding default_view env_view found_view service_view
  resolve_timeout base (none, ws) r hb hf h =
      let (e, _, _, w) = resolve_parts base (none, ws) r hb hf h in
      (rw (e, found-pinned api base none) (ground arith), w)
  resolve_timeout base (some entry, ws) r hb hf h =
      let (e, _, _, w) = resolve_parts base (some entry, ws) r hb hf h in
      (rw (e, found-pinned api base (some entry)) (ground arith), w)
