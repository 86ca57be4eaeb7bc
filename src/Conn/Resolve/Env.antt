-- ===== src/Conn/Resolve/Env.antt =====
-- What the loop over `ENV_RULES` does to each field of the configuration.
use pg_lens.Prelude.{
  ℕ, ◌≡◌, Bool, not, Option, none, some, is_some, is_empty, or_else, arith, if◌then◌else◌, inl, inr,
  Option-cases,
}
use pg_lens.Prelude.Text.{Text, codes, parse_unsigned}
use pg_lens.Conn.Error.{ok, >>=-eq-ok}
use pg_lens.Conn.Config.{View, ConfigApi}
use pg_lens.Conn.Settings.{ConnSpec, env_value}
use pg_lens.Conn.Resolve.{
  has_host, u16_max, u64_max, Applied, apply_port, apply_timeout, env_round, env_loop, env_rules,
  host_rule, port_rule, dbname_rule, user_rule, password_rule, application_name_rule, timeout_rule,
}
use pg_lens.Conn.Resolve.Service.{push, positive}

-- The number that an environment variable holds.
abbrev pub number : ℕ → Option Text → Option ℕ
number limit none = none
number limit (some v) = parse_unsigned limit v

-- A value that a flag hides.
abbrev pub unless : {A : Type 0} → Bool → Option A → Option A
unless hidden o = if hidden then none else o

module _ (api : ConfigApi) (spec : ConnSpec) (a : Applied api) where
  open api use {Config, view}

  host_round :
      (c c' : Config)
      → env_round api spec a (host_rule api) c ≡ ok c'
      → view c' ≡ record (view c) {
        hosts = push (not (has_host (view c))) (env_value spec (codes "PGHOST")) (view c).hosts;
      }
  unfolding env_round
  host_round c c' h = elim (Option-cases (env_value spec (codes "PGHOST"))) [
    | inl e ↦ rw e (ground (arith, e))
    | inr (v, e) ↦ rw e (ground (arith, e, api.view-host c v))
  ]

  port_round :
      (c c' : Config)
      → env_round api spec a (port_rule api) c ≡ ok c'
      → view c' ≡ record (view c) {
        ports =
            push
              (is_empty (view c).ports)
              (number u16_max (env_value spec (codes "PGPORT")))
              (view c).ports;
      }
  unfolding env_round apply_port
  port_round c c' h = elim (Option-cases (env_value spec (codes "PGPORT"))) [
    | inl e ↦ rw e (ground (arith, e))
    | inr (v, e) ↦ elim (Option-cases (parse_unsigned u16_max v)) [
      | inl bad ↦ rw (e, bad) (ground (arith, e, bad))
      | inr (n, good) ↦ rw (e, good) (ground (arith, e, good, api.view-port c n))
    ]
  ]

  dbname_round :
      (c c' : Config)
      → env_round api spec a (dbname_rule api) c ≡ ok c'
      → view c'
        ≡ record (view c) { dbname = or_else (view c).dbname (env_value spec (codes "PGDATABASE")) }
  unfolding env_round
  dbname_round c c' h = elim (Option-cases (env_value spec (codes "PGDATABASE"))) [
    | inl e ↦ rw e (ground (arith, e))
    | inr (v, e) ↦ rw e (ground (arith, e, api.view-dbname c v))
  ]

  user_round :
      (c c' : Config)
      → env_round api spec a (user_rule api) c ≡ ok c'
      → view c' ≡ record (view c) { user = or_else (view c).user (env_value spec (codes "PGUSER")) }
  unfolding env_round
  user_round c c' h = elim (Option-cases (env_value spec (codes "PGUSER"))) [
    | inl e ↦ rw e (ground (arith, e))
    | inr (v, e) ↦ rw e (ground (arith, e, api.view-user c v))
  ]

  password_round :
      (c c' : Config)
      → env_round api spec a (password_rule api) c ≡ ok c'
      → view c' ≡ record (view c) {
        password =
            or_else
              (view c).password
              (unless (is_some a.source) (env_value spec (codes "PGPASSWORD")));
      }
  unfolding env_round
  password_round c c' h = elim (Option-cases (env_value spec (codes "PGPASSWORD"))) [
    | inl e ↦ rw e (ground (arith, e))
    | inr (v, e) ↦ rw e (ground (arith, e, api.view-password c v))
  ]

  application_name_round :
      (c c' : Config)
      → env_round api spec a (application_name_rule api) c ≡ ok c'
      → view c' ≡ record (view c) {
        application_name = or_else (view c).application_name (env_value spec (codes "PGAPPNAME"));
      }
  unfolding env_round
  application_name_round c c' h = elim (Option-cases (env_value spec (codes "PGAPPNAME"))) [
    | inl e ↦ rw e (ground (arith, e))
    | inr (v, e) ↦ rw e (ground (arith, e, api.view-application_name c v))
  ]

  timeout_round :
      (c c' : Config)
      → env_round api spec a (timeout_rule api) c ≡ ok c'
      → view c' ≡ record (view c) {
        connect_timeout = or_else (view c).connect_timeout (
            unless a.timeout_pinned
              (positive (number u64_max (env_value spec (codes "PGCONNECT_TIMEOUT")))));
      }
  unfolding env_round apply_timeout
  timeout_round c c' h = elim (Option-cases (env_value spec (codes "PGCONNECT_TIMEOUT"))) [
    | inl e ↦ rw e (ground (arith, e))
    | inr (v, e) ↦ elim (Option-cases (parse_unsigned u64_max v)) [
      | inl bad ↦ rw (e, bad) (ground (arith, e, bad))
      | inr (n, good) ↦ rw (e, good) (ground (arith, e, good, api.view-connect_timeout c n))
    ]
  ]

  -- The view behind the whole loop: the environment fills what is free and not masked.
  unfoldable pub env_view : View → View
  env_view v = record {
    hosts = push (not (has_host v)) (env_value spec (codes "PGHOST")) v.hosts;
    hostaddrs = v.hostaddrs;
    ports = push (is_empty v.ports) (number u16_max (env_value spec (codes "PGPORT"))) v.ports;
    dbname = or_else v.dbname (env_value spec (codes "PGDATABASE"));
    user = or_else v.user (env_value spec (codes "PGUSER"));
    password = or_else v.password (unless (is_some a.source) (env_value spec (codes "PGPASSWORD")));
    application_name = or_else v.application_name (env_value spec (codes "PGAPPNAME"));
    connect_timeout = or_else v.connect_timeout (
        unless a.timeout_pinned
          (positive (number u64_max (env_value spec (codes "PGCONNECT_TIMEOUT")))));
  }

  pub env_loop-view :
      (c c' : Config) → env_loop api spec a (env_rules api) c ≡ ok c' → view c' ≡ env_view (view c)
  unfolding env_loop env_view
  env_loop-view c c' h =
      let (c1, h1, k1) = >>=-eq-ok (env_round api spec a (host_rule api) c) _ h in
      let (c2, h2, k2) = >>=-eq-ok (env_round api spec a (port_rule api) c1) _ k1 in
      let (c3, h3, k3) = >>=-eq-ok (env_round api spec a (dbname_rule api) c2) _ k2 in
      let (c4, h4, k4) = >>=-eq-ok (env_round api spec a (user_rule api) c3) _ k3 in
      let (c5, h5, k5) = >>=-eq-ok (env_round api spec a (password_rule api) c4) _ k4 in
      let (c6, h6, k6) = >>=-eq-ok (env_round api spec a (application_name_rule api) c5) _ k5 in
      let (c7, h7, k7) = >>=-eq-ok (env_round api spec a (timeout_rule api) c6) _ k6 in
      let e8 : c7 ≡ c' = ground arith in
      rw (
        ← e8,
        timeout_round c6 c7 h7,
        application_name_round c5 c6 h6,
        password_round c4 c5 h5,
        user_round c3 c4 h4,
        dbname_round c2 c3 h3,
        port_round c1 c2 h2,
        host_round c c1 h1,
      )
