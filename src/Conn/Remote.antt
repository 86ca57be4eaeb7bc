-- ===== src/Conn/Remote.antt =====
-- crates/pg_lens_core/src/remote_config.rs, but for the network call itself.
pub mod Fetch
use pg_lens.Prelude.{
  ℕ, Bool, true, false, not, ◌&&◌, Option, none, some, List, [], ◌∷◌, ◌++◌, is_some, is_empty,
  if◌then◌else◌,
}
use pg_lens.Prelude.Text.{Text, codes, strip_prefix, starts_with, split_once, trim}
use pg_lens.Conn.Error.{
  SettingsError, remote_config_url, remote_config_fetch, Result, ok, err, ◌>>=◌,
}
use pg_lens.Conn.Services.{
  Os, ServicesFile, Warning, fetch_failed_using_cache, fetch_failed_using_local, empty,
  from_remote_bytes, merge_remote_over,
}

pub data ConfigUrl : Type 0 where
  github : Text → Text → Text → Option Text → ConfigUrl
  http : Text → ConfigUrl

unfoldable pub fetch_url : ConfigUrl → Text
fetch_url (github owner repo path none) =
    codes "https://api.github.com/repos/"
    ++ owner
    ++ codes "/"
    ++ repo
    ++ codes "/contents/"
    ++ path
fetch_url (github owner repo path (some git_ref)) =
    codes "https://api.github.com/repos/"
    ++ owner
    ++ codes "/"
    ++ repo
    ++ codes "/contents/"
    ++ path
    ++ codes "?ref="
    ++ git_ref
fetch_url (http url) = url

-- `Option::filter(|s| !s.is_empty())`
abbrev nonempty : Text → Option Text
nonempty [] = none
nonempty (c ∷ s) = some (c ∷ s)

-- `rest.split_once('@')` with its guard: the part for the path, and the ref.
unfoldable pub split_ref : Text → Text × Option Text
split_ref rest = elim (split_once b'@' rest) [
  | none ↦ (rest, none)
  | some (p, r) ↦ if is_empty r then (rest, none) else (p, some r)
]

-- `splitn(3, '/')`, each part dropped when it is empty.
unfoldable pub split_parts : Text → Option (Text × Text × Text)
unfolding split_once
split_parts s = elim (split_once b'/' s) [
  | none ↦ none
  | some (owner, behind) ↦ elim (split_once b'/' behind) [
    | none ↦ none
    | some (repo, path) ↦
        if not (is_empty owner) && not (is_empty repo) && not (is_empty path)
        then some (owner, repo, path)
        else none
  ]
]

unfoldable pub parse_github : Text → Text → Result SettingsError ConfigUrl
unfolding split_ref split_parts
parse_github raw rest =
    let (path_part, git_ref) = split_ref rest in
    elim (split_parts path_part) [
      | none ↦ err (
          remote_config_url (
            codes "invalid github: shorthand "
            ++ raw
            ++ codes ": expected github:OWNER/REPO/PATH[@REF]"))
      | some (owner, repo, path) ↦ ok (github owner repo path git_ref)
    ]

abbrev pub https : Text
https = codes "https://"

unfoldable pub parse_trimmed : Text → Result SettingsError ConfigUrl
unfolding parse_github
parse_trimmed raw =
    if is_empty raw
    then err (remote_config_url (codes "empty value"))
    else elim (strip_prefix (codes "github:") raw) [
      | some rest ↦ parse_github raw rest
      | none ↦
          if starts_with https raw
          then ok (http raw)
          else if starts_with (codes "http://") raw
          then ok (http raw)
          else err (
              remote_config_url (
                codes "unrecognized --config-url "
                ++ raw
                ++ codes ": expected github:OWNER/REPO/PATH[@REF] or an https:// URL"))
    ]

unfoldable pub parse_config_url : Text → Result SettingsError ConfigUrl
unfolding parse_trimmed
parse_config_url raw = parse_trimmed (trim raw)

abbrev pub clear_message : Text
clear_message =
    codes "a token is configured but the URL is not https:// — refusing to send it in the clear"

unfoldable pub ensure_https_if_token : Text → Option Text → Result SettingsError (Unit {0})
ensure_https_if_token url token =
    if is_some token && not (starts_with https url)
    then err (remote_config_url clear_message)
    else ok tt

-- The bytes that `resolve_effective_services` parses, and the warnings that it has made by then.
unfoldable pub choose_bytes :
    Result Text (List ℕ)
    → Option (List ℕ)
    → Option ServicesFile
    → Result SettingsError (Option (List ℕ) × List Warning)
choose_bytes (ok bytes) cached local = ok (some bytes, [])
choose_bytes (err e) (some cached) local = ok (some cached, fetch_failed_using_cache e ∷ [])
choose_bytes (err e) none (some local) = ok (none, fetch_failed_using_local e ∷ [])
choose_bytes (err e) none none = err (
    remote_config_fetch (e ++ codes " (no cached copy and no local services file to fall back on)"))

-- `remote_bytes.map(from_remote_bytes).transpose()`
unfoldable pub parse_remote : Os → Option (List ℕ) → Result SettingsError (Option ServicesFile)
parse_remote os none = ok none
parse_remote os (some bytes) = do file ← from_remote_bytes os bytes; ok (some file)

unfoldable pub merge_found : Option ServicesFile → Option ServicesFile → ServicesFile
merge_found (some local) (some remote) = merge_remote_over local remote
merge_found (some local) none = local
merge_found none (some remote) = remote
merge_found none none = empty

unfoldable pub resolve_effective_services :
    Os
    → Result Text (List ℕ)
    → Option (List ℕ)
    → Option ServicesFile
    → Result SettingsError (ServicesFile × List Warning)
unfolding choose_bytes parse_remote merge_found
resolve_effective_services os fetch_result cached local = do
  chosen ← choose_bytes fetch_result cached local
  remote ← parse_remote os chosen.0
  ok (merge_found local remote, chosen.1)
