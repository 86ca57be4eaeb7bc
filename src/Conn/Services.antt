-- ===== src/Conn/Services.antt =====
-- crates/pg_lens_core/src/services.rs
pub mod Validate
pub mod Merge
use Prim.Native.Nat.{bit_and}
use mathlib.Core.Bool.{cond}
use pg_lens.Prelude.{
  ℕ, Bool, true, false, not, ◌&&◌, Option, none, some, List, [], ◌∷◌, ◌++◌, map, any, is_some,
  nat_eq, if◌then◌else◌, ◌==◌,
}
use pg_lens.Prelude.Text.{Text, codes, strip_prefix, strip_suffix, text_lt, Text_eq}
use pg_lens.Prelude.Map
use pg_lens.Prelude.Map.{Assoc}
use pg_lens.Conn.Error.{
  SettingsError, services_file_io, services_file_parse, insecure_services_file, service_config,
  unknown_service, Result, ok, err, ◌>>=◌, map_err,
}

pub record ServiceEntry : Type 0 where
  pub host : Option Text
  pub port : Option ℕ
  pub user : Option Text
  pub dbname : Option Text
  pub application_name : Option Text
  pub connect_timeout_secs : Option ℕ
  pub password : Option Text
  pub password_cmd : Option Text

-- The field `services`, a `BTreeMap`: its entries in the order of their names.
pub record ServicesFile : Type 0 where
  pub services : Assoc Text ServiceEntry

-- What the program calls of the operating system and of the crate `toml`.
pub record Os : Type 0 where
  pub read_to_string : Text → Result Text Text
  -- `metadata(path).permissions().mode()`
  pub permissions : Text → Result Text ℕ
  pub exists : Text → Bool
  pub toml : Text → Result Text ServicesFile
  pub from_utf8 : List ℕ → Option Text

unfoldable pub command_sugar : Text → Option Text
unfolding strip_prefix strip_suffix
command_sugar password = elim (strip_prefix (codes "$(") password) [
  | none ↦ none
  | some rest ↦ strip_suffix (codes ")") rest
]

abbrev exclusive_message : Text
exclusive_message =
    codes
      "`password` and `password_cmd` are mutually exclusive (note: password = \"$(...)\" is shorthand for password_cmd)"

-- One round of the loop of `validate`.
unfoldable pub validate_entry : Text → ServiceEntry → Result SettingsError ServiceEntry
validate_entry name entry = elim entry.password [
  | none ↦ ok entry
  | some pw ↦
      if is_some entry.password_cmd
      then err (service_config name exclusive_message)
      else elim (command_sugar pw) [
        | none ↦ ok entry
        | some cmd ↦ ok (record entry { password_cmd = some cmd; password = none })
      ]
]

unfoldable pub validate_all :
    Assoc Text ServiceEntry → Result SettingsError (Assoc Text ServiceEntry)
unfolding validate_entry
validate_all [] = ok []
validate_all ((name, entry) ∷ rest) = do
  entry' ← validate_entry name entry
  rest' ← validate_all rest
  ok ((name, entry') ∷ rest')

unfoldable pub validate : ServicesFile → Result SettingsError ServicesFile
unfolding validate_all
validate file = do services ← validate_all file.services; ok (record { services = services })

-- `metadata.permissions().mode() & 0o7777`
unfoldable pub file_mode : Os → Text → Result SettingsError ℕ
file_mode os path = do
  mode ← map_err (services_file_io path) (os.permissions path)
  ok (bit_and mode 0o7777)

abbrev writable_reason : Text
writable_reason =
    codes
      "writable by group/others; this file can execute commands, so treat it like code (fix: chmod 0600)"

abbrev readable_reason : Text
readable_reason =
    codes
      "contains a plaintext `password` and is readable by group/others (fix: chmod 0600, or switch to password_cmd)"

-- A warning is held as the path and the mode that its text is made of.
pub data Warning : Type 0 where
  mode_not_0600 : Text → ℕ → Warning
  env_service_without_file : Text → Text → Text → Warning
  env_service_without_location : Text → Text → Warning
  fetch_failed_using_cache : Text → Warning
  fetch_failed_using_local : Text → Warning

unfoldable pub load : Os → Text → Result SettingsError (ServicesFile × List Warning)
unfolding file_mode validate
load os path = do
  contents ← map_err (services_file_io path) (os.read_to_string path)
  mode ← file_mode os path
  if not (nat_eq (bit_and mode 0o022) 0)
      then err (insecure_services_file path mode writable_reason)
      else do
        parsed ← map_err (services_file_parse path) (os.toml contents)
        file ← validate parsed
        let has_plaintext = any (λ (e : Text × ServiceEntry). is_some e.1.password) file.services
        if has_plaintext && not (nat_eq (bit_and mode 0o044) 0)
            then err (insecure_services_file path mode readable_reason)
            else ok (file, if nat_eq mode 0o600 then [] else mode_not_0600 path mode ∷ [])

unfoldable pub get : ServicesFile → Text → Result SettingsError ServiceEntry
get file name = elim (Map.get name file.services) [
  | none ↦ err (unknown_service name (map (λ (e : Text × ServiceEntry). e.0) file.services))
  | some entry ↦ ok entry
]

abbrev pub empty : ServicesFile
empty = record { services = [] }

abbrev pub remote_path : Text
remote_path = codes "<--config-url>"

unfoldable pub from_remote_bytes : Os → List ℕ → Result SettingsError ServicesFile
unfolding validate
from_remote_bytes os bytes = elim (os.from_utf8 bytes) [
  | none ↦ err (services_file_parse remote_path (codes "remote services file is not valid UTF-8"))
  | some contents ↦ do
    file ← map_err (services_file_parse remote_path) (os.toml contents)
    validate file
]

-- `BTreeMap::insert`
unfoldable pub insert : Text → ServiceEntry → Assoc Text ServiceEntry → Assoc Text ServiceEntry
insert k v [] = (k, v) ∷ []
insert k v ((j, w) ∷ m) =
    let rest = insert k v m in
    if j == k then (k, v) ∷ m else if text_lt k j then (k, v) ∷ (j, w) ∷ m else (j, w) ∷ rest

unfoldable pub insert_all :
    Assoc Text ServiceEntry → Assoc Text ServiceEntry → Assoc Text ServiceEntry
unfolding insert
insert_all local [] = local
insert_all local ((name, entry) ∷ rest) = insert_all (insert name entry local) rest

unfoldable pub merge_remote_over : ServicesFile → ServicesFile → ServicesFile
unfolding insert_all
merge_remote_over local remote = record { services = insert_all local.services remote.services }
