-- ===== src/Conn/Resolve/Service.antt =====
-- What `apply_service` does to each field of the configuration.
use pg_lens.Prelude.{
  ℕ, ◌≡◌, Bool, false, not, ◌&&◌, Option, none, some, List, [], ◌∷◌, ◌++◌, is_some, is_empty,
  or_else, ltb, arith, if◌then◌else◌,
}
use pg_lens.Prelude.Text.{Text}
use pg_lens.Conn.Config.{View, ConfigApi}
use pg_lens.Conn.Services.{ServiceEntry}
use pg_lens.Conn.Settings.{PasswordSource, command}
use pg_lens.Conn.Resolve.{has_host, set_if, service_timeout, service_password, apply_service}

-- A value for a field, if the field is free.
abbrev pub put : {A : Type 0} → Bool → Option A → Option A → Option A
put free new old = if free then or_else new old else old

-- One more element at the end of a list, if the list is free.
abbrev pub push : {A : Type 0} → Bool → Option A → List A → List A
push free none old = old
push free (some v) old = if free then old ++ v ∷ [] else old

-- A timeout of 0 is no value.
abbrev pub positive : Option ℕ → Option ℕ
positive none = none
positive (some n) = if ltb 0 n then some n else none

abbrev pub pins : Option ℕ → Bool
pins none = false
pins (some n) = not (ltb 0 n)

-- The command is a source only where neither the DSN nor the entry has a password.
abbrev pub source_of : Option Text → Option Text → Option Text → Option PasswordSource
source_of (some _) pw cmd = none
source_of none (some _) cmd = none
source_of none none none = none
source_of none none (some cmd) = some (command cmd)

module _ (api : ConfigApi) where
  open api use {Config, view}

  set_host-view :
      (free : Bool) (o : Option Text) (c : Config)
      → view (set_if api free api.host o c) ≡ record (view c) { hosts = push free o (view c).hosts }
  unfolding set_if
  set_host-view free none c = ground arith
  set_host-view free (some v) c = ground (arith, api.view-host c v)

  set_port-view :
      (free : Bool) (o : Option ℕ) (c : Config)
      → view (set_if api free api.port o c) ≡ record (view c) { ports = push free o (view c).ports }
  unfolding set_if
  set_port-view free none c = ground arith
  set_port-view free (some v) c = ground (arith, api.view-port c v)

  set_user-view :
      (free : Bool) (o : Option Text) (c : Config)
      → view (set_if api free api.user o c) ≡ record (view c) { user = put free o (view c).user }
  unfolding set_if
  set_user-view free none c = ground arith
  set_user-view free (some v) c = ground (arith, api.view-user c v)

  set_dbname-view :
      (free : Bool) (o : Option Text) (c : Config)
      → view (set_if api free api.dbname o c)
        ≡ record (view c) { dbname = put free o (view c).dbname }
  unfolding set_if
  set_dbname-view free none c = ground arith
  set_dbname-view free (some v) c = ground (arith, api.view-dbname c v)

  set_application_name-view :
      (free : Bool) (o : Option Text) (c : Config)
      → view (set_if api free api.application_name o c)
        ≡ record (view c) { application_name = put free o (view c).application_name }
  unfolding set_if
  set_application_name-view free none c = ground arith
  set_application_name-view free (some v) c = ground (arith, api.view-application_name c v)

  timeout-view :
      (o : Option ℕ) (c : Config)
      → view (service_timeout api o c).0
        ≡ record (view c) { connect_timeout = or_else (view c).connect_timeout (positive o) }
  unfolding service_timeout
  timeout-view none c = ground arith
  timeout-view (some n) c = ground (arith, api.view-connect_timeout c n)

  password-view :
      (pw cmd : Option Text) (c : Config)
      → view (service_password api pw cmd c).0
        ≡ record (view c) { password = or_else (view c).password pw }
  unfolding service_password
  password-view (some p) cmd c = ground (arith, api.view-password c p)
  password-view none (some d) c = ground arith
  password-view none none c = ground arith

  -- The view behind all seven steps: a field that is taken keeps its value.
  unfoldable pub service_view : View → ServiceEntry → View
  service_view v e = record {
    hosts = push (not (has_host v)) e.host v.hosts;
    hostaddrs = v.hostaddrs;
    ports = push (is_empty v.ports) e.port v.ports;
    dbname = put (not (is_some v.dbname)) e.dbname v.dbname;
    user = put (not (is_some v.user)) e.user v.user;
    password = or_else v.password e.password;
    application_name = put (not (is_some v.application_name)) e.application_name v.application_name;
    connect_timeout = or_else v.connect_timeout (positive e.connect_timeout_secs);
  }

  ruleset set_views = (
    set_host-view, set_port-view, set_user-view, set_dbname-view, set_application_name-view,
    timeout-view, password-view,
  )

  pub apply_service-view :
      (c : Config) (e : ServiceEntry)
      → view (apply_service api c e).config ≡ service_view (view c) e
  unfolding apply_service service_view
  apply_service-view c e = simp set_views

  password-source :
      (pw cmd : Option Text) (c : Config)
      → (service_password api pw cmd c).1 ≡ source_of (view c).password pw cmd
  unfolding service_password
  password-source (some p) cmd c = ground arith
  password-source none (some d) c = ground arith
  password-source none none c = ground arith

  pub apply_service-source :
      (c : Config) (e : ServiceEntry)
      → (apply_service api c e).source ≡ source_of (view c).password e.password e.password_cmd
  unfolding apply_service
  apply_service-source c e = simp (password-source, set_views)

  timeout-pins :
      (o : Option ℕ) (c : Config)
      → (service_timeout api o c).1 ≡ (not (is_some (view c).connect_timeout) && pins o)
  unfolding service_timeout
  timeout-pins none c = ground arith
  timeout-pins (some n) c = ground arith

  pub apply_service-pinned :
      (c : Config) (e : ServiceEntry)
      → (apply_service api c e).timeout_pinned
        ≡ (not (is_some (view c).connect_timeout) && pins e.connect_timeout_secs)
  unfolding apply_service
  apply_service-pinned c e = simp (timeout-pins, set_views)
