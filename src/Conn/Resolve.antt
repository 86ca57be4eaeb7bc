-- ===== src/Conn/Resolve.antt =====
-- `apply_service`, `ENV_RULES`, `resolve` and `resolve_service` of
-- crates/pg_lens_core/src/settings.rs, over the driver's `Config` as a parameter.
pub mod Service
pub mod Env
pub mod Precedence
pub mod Total
use pg_lens.Prelude.{
  ℕ, ◌-◌, ◌^◌, Bool, true, false, not, ◌&&◌, ◌||◌, Option, none, some, List, [], ◌∷◌, ◌++◌, is_some,
  is_empty, ltb, if◌then◌else◌,
}
use pg_lens.Prelude.Text.{Text, codes, parse_unsigned, text_eq}
use pg_lens.Conn.Error.{SettingsError, dsn_parse, invalid_env_var, Result, ok, err, ◌>>=◌, map_err}
use pg_lens.Conn.Config.{View, ConfigApi}
use pg_lens.Conn.Services.{Os, ServiceEntry, Warning}
use pg_lens.Conn.Settings.{ConnSpec, PasswordSource, command, env_value, find_entry}

abbrev pub u16_max : ℕ
u16_max = 2 ^ 16 - 1

abbrev pub u64_max : ℕ
u64_max = 2 ^ 64 - 1

abbrev pub has_host : View → Bool
has_host v = not (is_empty v.hosts) || not (is_empty v.hostaddrs)

pub record ConnLabel : Type 0 where
  pub host : Text
  pub user : Option Text

abbrev pub first_or_localhost : List Text → Text
first_or_localhost [] = codes "localhost"
first_or_localhost (a ∷ r) = a

abbrev pub label_host : List Text → List Text → Text
label_host [] addrs = first_or_localhost addrs
label_host (h ∷ r) addrs = h

-- `ConnLabel::from_config`
unfoldable pub from_config : View → ConnLabel
from_config v = record { host = label_host v.hosts v.hostaddrs; user = v.user }

module _ (api : ConfigApi) where
  open api use {Config, view}

  -- A setter that runs when the field is free and the source has a value.
  unfoldable pub set_if : {A : Type 0} → Bool → (Config → A → Config) → Option A → Config → Config
  set_if free setter none c = c
  set_if free setter (some v) c = if free then setter c v else c

  pub record Applied : Type 0 where
    pub config : Config
    pub source : Option PasswordSource
    pub timeout_pinned : Bool

  -- The block on `connect_timeout_secs`: 0 leaves the field unset, and pins it.
  unfoldable pub service_timeout : Option ℕ → Config → Config × Bool
  service_timeout none c = (c, false)
  service_timeout (some secs) c =
      if is_some (view c).connect_timeout
      then (c, false)
      else if ltb 0 secs
      then (api.connect_timeout c secs, false)
      else (c, true)

  unfoldable pub service_password :
      Option Text → Option Text → Config → Config × Option PasswordSource
  service_password (some password) cmd c =
      if is_some (view c).password then (c, none) else (api.password c password, none)
  service_password none (some cmd) c =
      if is_some (view c).password then (c, none) else (c, some (command cmd))
  service_password none none c = (c, none)

  unfoldable pub apply_service : Config → ServiceEntry → Applied
  apply_service c0 entry =
      let c1 = set_if (not (has_host (view c0))) api.host entry.host c0 in
      let c2 = set_if (is_empty (view c1).ports) api.port entry.port c1 in
      let c3 = set_if (not (is_some (view c2).user)) api.user entry.user c2 in
      let c4 = set_if (not (is_some (view c3).dbname)) api.dbname entry.dbname c3 in
      let c5 =
        set_if (not (is_some (view c4).application_name)) api.application_name
          entry.application_name c4 in
      let (c6, pinned) = service_timeout entry.connect_timeout_secs c5 in
      let (c7, source) = service_password entry.password entry.password_cmd c6 in
      record { config = c7; source = source; timeout_pinned = pinned }

  pub record EnvRule : Type 0 where
    pub name : Text
    pub is_set : View → Bool
    pub apply : Config → Text → Result SettingsError Config

  unfoldable pub apply_port : Config → Text → Result SettingsError Config
  apply_port c v = elim (parse_unsigned u16_max v) [
    | none ↦ err (invalid_env_var (codes "PGPORT") v (codes "a TCP port number (1-65535)"))
    | some port ↦ ok (api.port c port)
  ]

  unfoldable pub apply_timeout : Config → Text → Result SettingsError Config
  apply_timeout c v = elim (parse_unsigned u64_max v) [
    | none ↦ err (invalid_env_var (codes "PGCONNECT_TIMEOUT") v (codes "a whole number of seconds"))
    | some secs ↦ ok (if ltb 0 secs then api.connect_timeout c secs else c)
  ]

  abbrev pub host_rule : EnvRule
  host_rule = record { name = codes "PGHOST"; is_set = has_host; apply = λ c v. ok (api.host c v) }

  abbrev pub port_rule : EnvRule
  port_rule = record {
    name = codes "PGPORT";
    is_set = λ w. not (is_empty w.ports);
    apply = apply_port;
  }

  abbrev pub dbname_rule : EnvRule
  dbname_rule = record {
    name = codes "PGDATABASE";
    is_set = λ w. is_some w.dbname;
    apply = λ c v. ok (api.dbname c v);
  }

  abbrev pub user_rule : EnvRule
  user_rule = record {
    name = codes "PGUSER";
    is_set = λ w. is_some w.user;
    apply = λ c v. ok (api.user c v);
  }

  abbrev pub password_rule : EnvRule
  password_rule = record {
    name = codes "PGPASSWORD";
    is_set = λ w. is_some w.password;
    apply = λ c v. ok (api.password c v);
  }

  abbrev pub application_name_rule : EnvRule
  application_name_rule = record {
    name = codes "PGAPPNAME";
    is_set = λ w. is_some w.application_name;
    apply = λ c v. ok (api.application_name c v);
  }

  abbrev pub timeout_rule : EnvRule
  timeout_rule = record {
    name = codes "PGCONNECT_TIMEOUT";
    is_set = λ w. is_some w.connect_timeout;
    apply = apply_timeout;
  }

  abbrev pub env_rules : List EnvRule
  env_rules =
      host_rule ∷ port_rule ∷ dbname_rule ∷ user_rule ∷ password_rule ∷ application_name_rule
      ∷ timeout_rule ∷ []

  abbrev pub apply_value : EnvRule → Config → Option Text → Result SettingsError Config
  apply_value rule c none = ok c
  apply_value rule c (some v) = rule.apply c v

  -- One round of the loop over `ENV_RULES`.
  unfoldable pub env_round : ConnSpec → Applied → EnvRule → Config → Result SettingsError Config
  env_round spec a rule c =
      if rule.is_set (view c)
      then ok c
      else if text_eq rule.name (codes "PGPASSWORD") && is_some a.source
      then ok c
      else if text_eq rule.name (codes "PGCONNECT_TIMEOUT") && a.timeout_pinned
      then ok c
      else apply_value rule c (env_value spec rule.name)

  unfoldable pub env_loop : ConnSpec → Applied → List EnvRule → Config → Result SettingsError Config
  unfolding env_round
  env_loop spec a [] c = ok c
  env_loop spec a (rule ∷ rest) c = do c' ← env_round spec a rule c; env_loop spec a rest c'

  unfoldable pub defaults : Config → Config
  defaults c =
      let c1 = if has_host (view c) then c else api.host c (codes "localhost") in
      if is_some (view c1).user then c1 else api.user c1 (codes "postgres")

  pub record Resolved : Type 0 where
    pub config : Config
    pub label : ConnLabel
    pub password_source : Option PasswordSource
    pub warnings : List Warning

  unfoldable pub parse_dsn : Option Text → Result SettingsError Config
  parse_dsn none = ok api.new
  parse_dsn (some dsn) = map_err dsn_parse (api.from_str dsn)

  unfoldable pub apply_found : Config → Option ServiceEntry → Applied
  unfolding apply_service
  apply_found c none = record { config = c; source = none; timeout_pinned = false }
  apply_found c (some entry) = apply_service c entry

  unfoldable pub resolve : Os → ConnSpec → Result SettingsError Resolved
  unfolding parse_dsn apply_found env_loop apply_port apply_timeout defaults from_config
  resolve os spec = do
    base ← parse_dsn spec.dsn
    found ← find_entry os spec
    let applied = apply_found base found.0
    merged ← env_loop spec applied env_rules applied.config
    let config = defaults merged
    ok (record {
      config = config;
      label = from_config (view config);
      password_source = applied.source;
      warnings = found.1;
    })

  unfoldable pub resolve_service : Os → ConnSpec → Text → Result SettingsError Resolved
  unfolding resolve
  resolve_service os spec service_name =
      resolve os (record spec { service = some service_name; dsn = none })
