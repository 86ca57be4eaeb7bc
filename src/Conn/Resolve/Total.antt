-- ===== src/Conn/Resolve/Total.antt =====
-- When `resolve` returns a connection.
use pg_lens.Prelude.{
  ◌≡◌, refl, inl, inr, true, ◌&&◌, Option, none, some, List, [], ◌∷◌, All, is_some, ltb,
  if◌then◌else◌, if-both, Option-cases,
}
use pg_lens.Prelude.Text.{Text, codes, parse_unsigned, text_eq}
use pg_lens.Conn.Error.{SettingsError, Result, ok}
use pg_lens.Conn.Config.{ConfigApi}
use pg_lens.Conn.Services.{Os, ServiceEntry, Warning}
use pg_lens.Conn.Settings.{ConnSpec, env_value, find_entry}
use pg_lens.Conn.Resolve.{
  u16_max, u64_max, Applied, EnvRule, apply_port, apply_timeout, env_rules, apply_value, env_round,
  env_loop, defaults, from_config, Resolved, parse_dsn, apply_found, resolve,
}

-- A step that succeeds.
abbrev pub Succeeds : {A : Type 0} → Result SettingsError A → Type 0
Succeeds {A} r = (a : A) × (r ≡ ok a)

module _ (api : ConfigApi) (spec : ConnSpec) where
  open api use {Config, view}

  -- A rule that accepts the value of its variable, if it has one.
  abbrev Accepts : EnvRule api → Type 0
  Accepts rule =
      (c : Config) (v : Text) → env_value spec rule.name ≡ some v → Succeeds (rule.apply c v)

  apply_value-ok :
      (rule : EnvRule api) (c : Config) (o : Option Text)
      → env_value spec rule.name ≡ o
      → Accepts rule
      → Succeeds (apply_value api rule c o)
  apply_value-ok rule c none e acc = (c, refl)
  apply_value-ok rule c (some v) e acc = acc c v e

  env_round-ok :
      (a : Applied api) (rule : EnvRule api) (c : Config)
      → Accepts rule
      → Succeeds (env_round api spec a rule c)
  unfolding env_round
  env_round-ok a rule c acc =
      if-both Succeeds (rule.is_set (view c)) (c, refl)
        (if-both Succeeds (text_eq rule.name (codes "PGPASSWORD") && is_some a.source) (c, refl)
          (if-both Succeeds (text_eq rule.name (codes "PGCONNECT_TIMEOUT") && a.timeout_pinned)
            (c, refl) (apply_value-ok rule c (env_value spec rule.name) refl acc)))

  env_loop-ok :
      (a : Applied api) (rules : List (EnvRule api)) (c : Config)
      → All Accepts rules
      → Succeeds (env_loop api spec a rules c)
  unfolding env_loop
  env_loop-ok a [] c acc = (c, refl)
  env_loop-ok a (rule ∷ rules) c acc =
      let (c', e) = env_round-ok a rule c acc.0 in rw e (env_loop-ok a rules c' acc.1)

  apply_port-ok :
      (c : Config) (v : Text)
      → is_some (parse_unsigned u16_max v) ≡ true
      → Succeeds (apply_port api c v)
  unfolding apply_port
  apply_port-ok c v h = elim (Option-cases (parse_unsigned u16_max v)) [
    | inl e ↦ let h' = rw e at h in cc
    | inr (n, e) ↦ (api.port c n, rw (apply_port, e))
  ]

  apply_timeout-ok :
      (c : Config) (v : Text)
      → is_some (parse_unsigned u64_max v) ≡ true
      → Succeeds (apply_timeout api c v)
  unfolding apply_timeout
  apply_timeout-ok c v h = elim (Option-cases (parse_unsigned u64_max v)) [
    | inl e ↦ let h' = rw e at h in cc
    | inr (n, e) ↦ (if ltb 0 n then api.connect_timeout c n else c, rw (apply_timeout, e))
  ]

module _ (api : ConfigApi) (os : Os) (spec : ConnSpec) where
  -- There is a connection whenever the DSN parses, the lookup of the service does not fail, and
  -- PGPORT and PGCONNECT_TIMEOUT, where they are set, are numbers in their ranges.
  pub resolve_total :
      (base : api.Config) (found : Option ServiceEntry × List Warning)
      → parse_dsn api spec.dsn ≡ ok base
      → find_entry os spec ≡ ok found
      → ((v : Text)
          → env_value spec (codes "PGPORT") ≡ some v
          → is_some (parse_unsigned u16_max v) ≡ true)
      → ((v : Text)
          → env_value spec (codes "PGCONNECT_TIMEOUT") ≡ some v
          → is_some (parse_unsigned u64_max v) ≡ true)
      → (r : Resolved api) × (resolve api os spec ≡ ok r)
  unfolding resolve
  resolve_total base found hb hf port timeout =
      let a = apply_found api base found.0 in
      let (merged, e) = env_loop-ok api spec a (env_rules api) a.config (
        (λ c v _. (api.host c v, refl)),
        (
          (λ c v h. apply_port-ok api spec c v (port v h)),
          (
            (λ c v _. (api.dbname c v, refl)),
            (
              (λ c v _. (api.user c v, refl)),
              (
                (λ c v _. (api.password c v, refl)),
                (
                  (λ c v _. (api.application_name c v, refl)),
                  ((λ c v h. apply_timeout-ok api spec c v (timeout v h)), tt),
                ),
              ),
            ),
          ),
        ),
      ) in
      let config = defaults api merged in
      let r : Resolved api = record {
        config = config;
        label = from_config (api.view config);
        password_source = a.source;
        warnings = found.1;
      } in
      (r, rw (hb, hf, e))
