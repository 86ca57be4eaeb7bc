-- ===== src/Conn/Tests.antt =====
-- Concrete inputs for the theorems on the connection: a driver whose `Config` is its view, one
-- services file on disk, and one of a server.
use Prim.Native.Nat.{bit_and}
use pg_lens.Prelude.{
  is_some, ℕ, ◌≡◌, refl, ◌⊎◌, true, false, Option, none, some, List, [], ◌∷◌, ◌++◌, or_else,
  if◌then◌else◌, nat_eq,
}
use pg_lens.Prelude.Text.{parse_unsigned, trim, strip_prefix, Text, codes, Text_eq}
use pg_lens.Prelude.Map
use pg_lens.Conn.Error.{Result, ok, err, ok_injective}
use pg_lens.Conn.Config.{View, empty_view, ConfigApi}
use pg_lens.Conn.Services.{
  ServiceEntry, ServicesFile, Os, Warning, mode_not_0600, fetch_failed_using_cache, load, validate,
  get, from_remote_bytes, merge_remote_over, file_mode,
}
use pg_lens.Conn.Services.Validate.{validate_exact, load_secure, has_plaintext, AllClean}
use pg_lens.Conn.Services.Merge.{IsSorted, merge_lookup}
use pg_lens.Conn.Settings.{
  ConnSpec, command, env_value, find_entry, selected_service, services_file_path,
}
use pg_lens.Conn.Resolve.{
  u16_max, u64_max, Resolved, service_password, service_timeout, set_if, parse_dsn, resolve,
}
use pg_lens.Conn.Resolve.Total.{resolve_total}
use pg_lens.Conn.Resolve.Precedence.{resolve_names, resolve_hosts, resolve_secret, resolve_timeout}
use pg_lens.Conn.Remote.{
  github, http, fetch_url, parse_config_url, ensure_https_if_token, resolve_effective_services,
  parse_remote,
}
use pg_lens.Conn.Remote.Fetch.{github_roundtrip, token_https_only, effective_lookup, services_of}

abbrev api : ConfigApi
api = record {
  Config = View;
  view = λ c. c;
  new = empty_view;
  from_str = λ dsn. ok (record empty_view { dbname = some dsn });
  host = λ c v. record c { hosts = c.hosts ++ v ∷ [] };
  port = λ c v. record c { ports = c.ports ++ v ∷ [] };
  dbname = λ c v. record c { dbname = some v };
  user = λ c v. record c { user = some v };
  password = λ c v. record c { password = some v };
  application_name = λ c v. record c { application_name = some v };
  connect_timeout = λ c v. record c { connect_timeout = some v };
  view-new = refl;
  view-host = λ c v. refl;
  view-port = λ c v. refl;
  view-dbname = λ c v. refl;
  view-user = λ c v. refl;
  view-password = λ c v. refl;
  view-application_name = λ c v. refl;
  view-connect_timeout = λ c v. refl;
}

abbrev prod : ServiceEntry
prod = record {
  host = some (codes "db");
  port = some 6432;
  user = none;
  dbname = some (codes "sales");
  application_name = none;
  connect_timeout_secs = some 0;
  password = none;
  password_cmd = some (codes "pass");
}

abbrev prod_file : ServicesFile
prod_file = record { services = (codes "prod", prod) ∷ [] }

abbrev os : Os
os = record {
  read_to_string = λ path. ok (codes "toml");
  permissions = λ path. ok 0o640;
  exists = λ path. true;
  toml = λ text. ok prod_file;
  from_utf8 = λ bytes. some bytes;
}

abbrev spec : ConnSpec
spec = record {
  dsn = some (codes "app");
  service = some (codes "prod");
  services_file = some (codes "f");
  env =
      (codes "PGUSER", codes "ann")
      ∷ (codes "PGPASSWORD", codes "x")
      ∷ (codes "PGCONNECT_TIMEOUT", codes "7")
      ∷ [];
  services_override = none;
}

abbrev base : View
base = record empty_view { dbname = some (codes "app") }

abbrev told : List Warning
told = mode_not_0600 (codes "f") 0o640 ∷ []

abbrev view_of_prod : View
view_of_prod = record {
  hosts = codes "db" ∷ [];
  hostaddrs = [];
  ports = 6432 ∷ [];
  dbname = some (codes "app");
  user = some (codes "ann");
  password = none;
  application_name = none;
  connect_timeout = none;
}

abbrev resolved : Resolved api
resolved = record {
  config = view_of_prod;
  label = record { host = codes "db"; user = some (codes "ann") };
  password_source = some (command (codes "pass"));
  warnings = told;
}

dsn_is_base : parse_dsn api spec.dsn ≡ ok base
unfolding parse_dsn
dsn_is_base = refl

entry_is_prod : find_entry os spec ≡ ok (some prod, told)
unfolding find_entry selected_service services_file_path load get Map.get
entry_is_prod = refl

spec_resolves : resolve api os spec ≡ ok resolved
unfolding resolve find_entry selected_service services_file_path load get Map.get service_password
    service_timeout set_if
spec_resolves = refl

no_port :
    (v : Text)
    → env_value spec (codes "PGPORT") ≡ some v
    → is_some (parse_unsigned u16_max v) ≡ true
unfolding env_value Map.get
no_port v h = cc

seven_seconds :
    (v : Text)
    → env_value spec (codes "PGCONNECT_TIMEOUT") ≡ some v
    → is_some (parse_unsigned u64_max v) ≡ true
unfolding env_value Map.get parse_unsigned
seven_seconds v h = let e : codes "7" ≡ v = cc in rw (← e) refl

resolve_total_example : (r : Resolved api) × (resolve api os spec ≡ ok r)
resolve_total_example =
    resolve_total api os spec base (some prod, told) dsn_is_base entry_is_prod no_port seven_seconds

resolve_names_example : view_of_prod.dbname ≡ some (codes "app")
resolve_names_example =
    (resolve_names api os spec base (some prod, told) resolved dsn_is_base entry_is_prod
      spec_resolves).0

resolve_hosts_example : view_of_prod.hosts ≡ codes "db" ∷ []
resolve_hosts_example =
    (resolve_hosts api os spec base (some prod, told) resolved dsn_is_base entry_is_prod
      spec_resolves).0

resolve_secret_example : (resolved.password_source ≡ none) ⊎ (view_of_prod.password ≡ none)
resolve_secret_example =
    (resolve_secret api os spec base (some prod, told) resolved dsn_is_base entry_is_prod
      spec_resolves).2

resolve_timeout_example : resolved.warnings ≡ told
resolve_timeout_example =
    (resolve_timeout api os spec base (some prod, told) resolved dsn_is_base entry_is_prod
      spec_resolves).1

f_loads : load os (codes "f") ≡ ok (prod_file, told)
unfolding load
f_loads = refl

load_secure_example :
    (mode : ℕ) × (file_mode os (codes "f") ≡ ok mode)
    × (bit_and mode 0o022 ≡ 0)
    × ((has_plaintext prod_file ≡ false) ⊎ (bit_and mode 0o044 ≡ 0))
    × AllClean prod_file.services
    × (told ≡ (if nat_eq mode 0o600 then [] else mode_not_0600 (codes "f") mode ∷ []))
load_secure_example = load_secure os (codes "f") prod_file told f_loads

validate_exact_example : validate prod_file ≡ ok prod_file
unfolding validate
validate_exact_example = validate_exact prod_file

abbrev dev_file : ServicesFile
dev_file = record { services = (codes "dev", prod) ∷ [] }

merge_lookup_example :
    Map.get (codes "dev") (merge_remote_over prod_file dev_file).services ≡ some prod
unfolding Map.get merge_remote_over
merge_lookup_example = (merge_lookup prod_file dev_file (codes "dev") (tt, tt) (tt, tt)).0

location_is_trimmed : trim (codes " github:o/r/dir/s.toml@v1 ") ≡ codes "github:o/r/dir/s.toml@v1"
unfolding trim
location_is_trimmed = refl

github_roundtrip_example :
    parse_config_url (codes " github:o/r/dir/s.toml@v1 ")
    ≡ ok (github (codes "o") (codes "r") (codes "dir/s.toml") (some (codes "v1")))
github_roundtrip_example =
    github_roundtrip (codes " github:o/r/dir/s.toml@v1 ") (codes "o") (codes "r")
      (codes "dir/s.toml") (some (codes "v1")) location_is_trimmed refl refl refl refl (refl, tt)
      (refl, tt)
      (
        refl,
        (
          refl,
          (
            refl,
            (
              refl,
              (refl, (refl, (refl, (refl, (refl, (refl, (refl, (refl, (refl, (refl, tt)))))))))),
            ),
          ),
        ),
      )

abbrev plain_url : Text
plain_url = codes "http://h/s.toml"

plain_url_parses : parse_config_url plain_url ≡ ok (http plain_url)
unfolding parse_config_url trim strip_prefix
plain_url_parses = refl

token_https_only_example : ensure_https_if_token plain_url none ≡ ok tt
unfolding fetch_url
token_https_only_example =
    (token_https_only plain_url (http plain_url) (codes "t") plain_url_parses).0

os-IsSorted : (text : Text) (f : ServicesFile) → os.toml text ≡ ok f → IsSorted f.services
os-IsSorted text f h = let e = ok_injective h in rw (← e) (tt, tt)

abbrev failed : Result Text (List ℕ)
failed = err (codes "timeout")

cached_is_used :
    resolve_effective_services os failed (some (codes "toml")) (some dev_file)
    ≡ ok (merge_remote_over dev_file prod_file, fetch_failed_using_cache (codes "timeout") ∷ [])
unfolding resolve_effective_services merge_remote_over from_remote_bytes
cached_is_used = refl

effective_lookup_example :
    (remote : Option ServicesFile) × (parse_remote os (some (codes "toml")) ≡ ok remote)
    × (◌≡◌ {A = ℕ} 1 1)
    × (true ≡ true)
    × (Map.get (codes "prod") (merge_remote_over dev_file prod_file).services
        ≡ or_else
            (Map.get (codes "prod") (services_of remote))
            (Map.get (codes "prod") dev_file.services))
effective_lookup_example =
    effective_lookup os failed (some (codes "toml")) (some dev_file)
      (merge_remote_over dev_file prod_file) (fetch_failed_using_cache (codes "timeout") ∷ [])
      (codes "prod") os-IsSorted (tt, tt) cached_is_used
