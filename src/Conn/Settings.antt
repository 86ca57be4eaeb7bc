-- ===== src/Conn/Settings.antt =====
-- crates/pg_lens_core/src/settings.rs: which service is meant, where its file lies, and the
-- connection that results.
use pg_lens.Prelude.{
  ℕ, Bool, true, false, ◌||◌, Option, none, some, List, [], ◌∷◌, ◌++◌, map, last?, nat_eq,
  if◌then◌else◌,
}
use pg_lens.Prelude.Text.{Text, codes, Text_eq}
use pg_lens.Prelude.Map
use pg_lens.Prelude.Map.{Assoc}
use pg_lens.Conn.Error.{SettingsError, services_file_io, service_config, Result, ok, err, ◌>>=◌}
use pg_lens.Conn.Services
use pg_lens.Conn.Services.{
  Os, ServiceEntry, ServicesFile, Warning, env_service_without_file, env_service_without_location,
  load,
}

pub record ConnSpec : Type 0 where
  pub dsn : Option Text
  pub service : Option Text
  pub services_file : Option Text
  pub env : Assoc Text Text
  pub services_override : Option ServicesFile

pub data PasswordSource : Type 0 where
  command : Text → PasswordSource

pub data ServiceOrigin : Type 0 where
  flag : ServiceOrigin
  env_var : Text → ServiceOrigin

-- `Option::filter(|s| !s.is_empty())`
abbrev pub nonempty : Option Text → Option Text
nonempty none = none
nonempty (some []) = none
nonempty (some (c ∷ s)) = some (c ∷ s)

-- `spec.env.get(name).filter(|v| !v.is_empty())`
unfoldable pub env_value : ConnSpec → Text → Option Text
env_value spec name = nonempty (Map.get name spec.env)

unfoldable pub selected_service : ConnSpec → Option (Text × ServiceOrigin)
unfolding env_value
selected_service spec = elim (nonempty spec.service) [
  | some name ↦ some (name, flag)
  | none ↦ elim (env_value spec (codes "PG_LENS_SERVICE")) [
    | some name ↦ some (name, env_var (codes "PG_LENS_SERVICE"))
    | none ↦ elim (env_value spec (codes "PGSERVICE")) [
      | some name ↦ some (name, env_var (codes "PGSERVICE"))
      | none ↦ none
    ]
  ]
]

-- `Path::join` with a relative path
unfoldable pub join : Text → Text → Text
join base rel = elim (last? base) [
  | none ↦ rel
  | some c ↦ if nat_eq c b'/' then base ++ rel else base ++ codes "/" ++ rel
]

unfoldable pub xdg_config_dir : ConnSpec → Option Text
unfolding env_value join
xdg_config_dir spec = elim (env_value spec (codes "XDG_CONFIG_HOME")) [
  | some dir ↦ some dir
  | none ↦ elim (env_value spec (codes "HOME")) [
    | some home ↦ some (join home (codes ".config"))
    | none ↦ none
  ]
]

unfoldable pub services_file_path : ConnSpec → Option (Text × Bool)
unfolding env_value xdg_config_dir join
services_file_path spec = elim spec.services_file [
  | some path ↦ some (path, true)
  | none ↦ elim (env_value spec (codes "PG_LENS_SERVICES_FILE")) [
    | some path ↦ some (path, true)
    | none ↦ elim (xdg_config_dir spec) [
      | some dir ↦ some (join (join dir (codes "pg_lens")) (codes "services.toml"), false)
      | none ↦ none
    ]
  ]
]

unfoldable pub config_file_path : ConnSpec → Option Text
unfolding env_value xdg_config_dir join
config_file_path spec = elim (env_value spec (codes "PG_LENS_CONFIG_FILE")) [
  | some path ↦ some path
  | none ↦ elim (xdg_config_dir spec) [
    | some dir ↦ some (join (join dir (codes "pg_lens")) (codes "config.toml"))
    | none ↦ none
  ]
]

abbrev no_location_message : Text
no_location_message =
    codes
      "cannot locate a services file: pass --services-file, set PG_LENS_SERVICES_FILE, or set HOME/XDG_CONFIG_HOME"

-- The arm of `resolve` for a selected service with no usable file.
unfoldable pub no_file :
    Text → ServiceOrigin → Option (Text × Bool) → Result SettingsError (List Warning)
no_file name (env_var var) (some (path, _)) = ok (env_service_without_file var name path ∷ [])
no_file name (env_var var) none = ok (env_service_without_location var name ∷ [])
no_file name flag (some (path, _)) = err (services_file_io path (codes "no such file"))
no_file name flag none = err (service_config name no_location_message)

-- The guard `explicit || path.exists()` on the path that was found.
unfoldable pub usable_file : Os → ConnSpec → Option Text
usable_file os spec = elim (services_file_path spec) [
  | none ↦ none
  | some (path, explicit) ↦ if explicit || os.exists path then some path else none
]

-- What the first part of `resolve` finds for the selected service: its entry, if there is one,
-- and the warnings.
unfoldable pub find_entry :
    Os → ConnSpec → Result SettingsError (Option ServiceEntry × List Warning)
unfolding no_file usable_file
find_entry os spec = elim (selected_service spec) [
  | none ↦ ok (none, [])
  | some (name, origin) ↦ elim spec.services_override [
    | some file ↦ do entry ← Services.get file name; ok (some entry, [])
    | none ↦ elim (usable_file os spec) [
      | some path ↦ do
        loaded ← load os path
        entry ← Services.get loaded.0 name
        ok (some entry, loaded.1)
      | none ↦ do warnings ← no_file name origin (services_file_path spec); ok (none, warnings)
    ]
  ]
]

pub record ServiceSummary : Type 0 where
  pub name : Text
  pub host : Option Text
  pub port : Option ℕ
  pub user : Option Text
  pub dbname : Option Text

unfoldable pub summary : Text × ServiceEntry → ServiceSummary
summary (name, entry) = record {
  name = name;
  host = entry.host;
  port = entry.port;
  user = entry.user;
  dbname = entry.dbname;
}

unfoldable pub list_services :
    Os → ConnSpec → Result SettingsError (List ServiceSummary × List Warning)
unfolding summary
list_services os spec = elim spec.services_override [
  | some file ↦ ok (map summary file.services, [])
  | none ↦ elim (services_file_path spec) [
    | none ↦ err (service_config (codes "<list>") no_location_message)
    | some (path, _) ↦ do loaded ← load os path; ok (map summary loaded.0.services, loaded.1)
  ]
]
