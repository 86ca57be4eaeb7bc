-- ===== src/Conn/Remote/Fetch.antt =====
-- Which URL is fetched, when a token may be sent, and what a fetch that fails falls back on.
use pg_lens.Prelude.{
  ℕ, ◌≡◌, refl, sym, ap, ◌⊎◌, inl, inr, Bool, true, false, not, ◌||◌, Option, none, some, List, [],
  ◌∷◌, ◌++◌, append-nil, is_some, is_empty, or_else, length, Bool-cases, Option-cases,
  if◌then◌else◌, arith,
}
use pg_lens.Prelude.Text.{
  Text, codes, Text_eq, strip_prefix, starts_with, split_once, trim, Without,
}
use pg_lens.Prelude.Map
use pg_lens.Prelude.Map.{Assoc}
use pg_lens.Conn.Error.{
  SettingsError, remote_config_url, Result, ok, err, ◌>>=◌, map_err, map_err-ok, >>=-eq-ok,
  ok_injective,
}
use pg_lens.Conn.Services.{Os, ServiceEntry, ServicesFile, Warning, from_remote_bytes}
use pg_lens.Conn.Services.Merge.{IsSorted, merge_lookup, validate-IsSorted}
use pg_lens.Conn.Remote.{
  ConfigUrl, github, http, fetch_url, split_ref, split_parts, parse_github, https, parse_trimmed,
  clear_message, parse_config_url, ensure_https_if_token, choose_bytes, parse_remote, merge_found,
  resolve_effective_services,
}

split_once-first : (d : ℕ) (a b : Text) → Without d a → split_once d (a ++ d ∷ b) ≡ some (a, b)
unfolding split_once
split_once-first d [] b w = ground arith
split_once-first d (c ∷ a) b w = rw (w.0, split_once-first d a b w.1)

split_once-none : (d : ℕ) (a : Text) → Without d a → split_once d a ≡ none
unfolding split_once
split_once-none d [] w = refl
split_once-none d (c ∷ a) w = rw (w.0, split_once-none d a w.1)

-- How a location in a GitHub repository is written.
abbrev suffix : Option Text → Text
suffix none = []
suffix (some r) = b'@' ∷ r

abbrev pub shorthand : Text → Text → Text → Option Text → Text
shorthand owner repo path ref =
    codes "github:" ++ ((owner ++ b'/' ∷ (repo ++ b'/' ∷ path)) ++ suffix ref)

split_parts-join :
    (owner repo path : Text)
    → is_empty owner ≡ false
    → is_empty repo ≡ false
    → is_empty path ≡ false
    → Without b'/' owner
    → Without b'/' repo
    → split_parts (owner ++ b'/' ∷ (repo ++ b'/' ∷ path)) ≡ some (owner, repo, path)
unfolding split_parts
split_parts-join owner repo path ho hr hp o r = rw (
  split_parts,
  split_once-first b'/' owner (repo ++ b'/' ∷ path) o,
  split_once-first b'/' repo path r,
  ho,
  hr,
  hp,
)

abbrev full_ref : Option Text → Bool
full_ref none = true
full_ref (some r) = not (is_empty r)

split_ref-suffix :
    (loc : Text) (ref : Option Text)
    → Without b'@' loc
    → full_ref ref ≡ true
    → split_ref (loc ++ suffix ref) ≡ (loc, ref)
unfolding split_ref
split_ref-suffix loc none w h =
    let e : loc ++ suffix none ≡ loc = append-nil loc in
    rw (e, split_ref, split_once-none b'@' loc w, e)
split_ref-suffix loc (some []) w h = cc
split_ref-suffix loc (some (c ∷ r)) w h = rw (split_ref, split_once-first b'@' loc (c ∷ r) w)

parse_github_lem :
    (raw rest loc : Text) (ref : Option Text) (parts : Text × Text × Text)
    → split_ref rest ≡ (loc, ref)
    → split_parts loc ≡ some parts
    → parse_github raw rest ≡ ok (github parts.0 parts.1 parts.2 ref)
unfolding parse_github
parse_github_lem raw rest loc ref parts h k = rw (parse_github, h, k) (rw h)

-- A location in a GitHub repository survives being written as the `github:` shorthand and parsed
-- again, spaces around it included, where no part is empty, nor the ref if there is one, the owner
-- and the repository have no
-- slash, and none of the three has an at sign.
pub github_roundtrip :
    (raw owner repo path : Text) (ref : Option Text)
    → trim raw ≡ shorthand owner repo path ref
    → is_empty owner ≡ false
    → is_empty repo ≡ false
    → is_empty path ≡ false
    → full_ref ref ≡ true
    → Without b'/' owner
    → Without b'/' repo
    → Without b'@' (owner ++ b'/' ∷ (repo ++ b'/' ∷ path))
    → parse_config_url raw ≡ ok (github owner repo path ref)
unfolding parse_config_url parse_trimmed parse_github strip_prefix
github_roundtrip raw owner repo path ref t ho hr hp hf o r w =
    let cut = split_ref-suffix (owner ++ b'/' ∷ (repo ++ b'/' ∷ path)) ref w hf in
    rw (parse_config_url, t)
      (parse_github_lem (trim raw) ((owner ++ b'/' ∷ (repo ++ b'/' ∷ path)) ++ suffix ref)
        (owner ++ b'/' ∷ (repo ++ b'/' ∷ path)) ref (owner, repo, path) cut
        (split_parts-join owner repo path ho hr hp o r))

github_https :
    (owner repo path : Text) (ref : Option Text)
    → starts_with https (fetch_url (github owner repo path ref)) ≡ true
unfolding fetch_url strip_prefix
github_https owner repo path none = refl
github_https owner repo path (some r) = refl

plain_url :
    (u : ConfigUrl) (raw : Text)
    → u ≡ http raw
    → starts_with https raw ≡ false
    → starts_with https (fetch_url u) ≡ false
unfolding fetch_url
plain_url u raw p q = rw p q

or_else-none : {A : Type 0} (o : Option A) → o ≡ or_else o none
or_else-none none = refl
or_else-none (some a) = refl

abbrev pub answer : Result Text (List ℕ) → Option (List ℕ)
answer (ok bytes) = some bytes
answer (err e) = none

abbrev pub services_of : Option ServicesFile → Assoc Text ServiceEntry
services_of none = []
services_of (some file) = file.services

merge_found-lookup :
    (local remote : Option ServicesFile) (name : Text)
    → IsSorted (services_of local)
    → IsSorted (services_of remote)
    → Map.get name (merge_found local remote).services
      ≡ or_else (Map.get name (services_of remote)) (Map.get name (services_of local))
unfolding merge_found Map.get
merge_found-lookup (some local) (some remote) name s t = (merge_lookup local remote name s t).0
merge_found-lookup (some local) none name s t = refl
merge_found-lookup none (some remote) name s t = or_else-none (Map.get name remote.services)
merge_found-lookup none none name s t = refl

parse_http :
    (raw : Text) (u : ConfigUrl)
    → parse_trimmed raw ≡ ok u
    → (starts_with https (fetch_url u) ≡ true)
      ⊎ ((u ≡ http raw)
          × (starts_with (codes "http://") raw ≡ true)
          × (starts_with https raw ≡ false))
unfolding parse_trimmed parse_github fetch_url
parse_http raw u h = elim (Bool-cases (is_empty raw)) [
  | inl e ↦ let h' = rw e at h in cc
  | inr e ↦
      let h1 = rw e at h in
      elim (Option-cases (strip_prefix (codes "github:") raw)) [
        | inr (rest, p) ↦
            let h2 = rw p at h1 in
            elim (Option-cases (split_parts (split_ref rest).0)) [
              | inl q ↦ let h3 = rw (parse_github, q) at h2 in cc
              | inr (loc, q) ↦
                  let h3 = rw (parse_github, q) at h2 in
                  inl (rw (← ok_injective h3) (github_https loc.0 loc.1 loc.2 (split_ref rest).1))
            ]
        | inl p ↦
            let h2 = rw p at h1 in
            elim (Bool-cases (starts_with https raw)) [
              | inl q ↦ let h3 = rw q at h2 in inl (rw (← ok_injective h3) q)
              | inr q ↦
                  let h3 = rw q at h2 in
                  elim (Bool-cases (starts_with (codes "http://") raw)) [
                    | inl r ↦ let h4 = rw r at h3 in inr (sym (ok_injective h4), r, q)
                    | inr r ↦ let h4 = rw r at h3 in cc
                  ]
            ]
      ]
]

-- A token goes out exactly over `https://`: of a `--config-url` that was accepted, either the URL
-- to fetch starts so and any token is let through, or the value is a plain `http://` URL and a
-- token is refused; without a token every URL is let through.
pub token_https_only :
    (raw : Text) (u : ConfigUrl) (token : Text)
    → parse_config_url raw ≡ ok u
    → (ensure_https_if_token (fetch_url u) none ≡ ok tt)
      × (((starts_with https (fetch_url u) ≡ true)
            × (ensure_https_if_token (fetch_url u) (some token) ≡ ok tt))
          ⊎ ((u ≡ http (trim raw))
              × (starts_with (codes "http://") (trim raw) ≡ true)
              × (ensure_https_if_token (fetch_url u) (some token)
                  ≡ err (remote_config_url clear_message))))
unfolding parse_config_url ensure_https_if_token
token_https_only raw u token h = (
  refl,
  elim (parse_http (trim raw) u h) [
    | inl p ↦ inl (p, rw p)
    | inr (p, q, r) ↦ inr (p, q, rw (plain_url u (trim raw) p r))
  ],
)

abbrev deliver :
    Option ServicesFile
    → List Warning
    → Option ServicesFile
    → Result SettingsError (ServicesFile × List Warning)
deliver local told remote = ok (merge_found local remote, told)

parse_remote-IsSorted :
    (os : Os)
    → ((text : Text) (f : ServicesFile) → os.toml text ≡ ok f → IsSorted f.services)
    → (chosen : Option (List ℕ)) (remote : Option ServicesFile) → parse_remote os chosen ≡ ok remote
    → IsSorted (services_of remote)
unfolding parse_remote from_remote_bytes
parse_remote-IsSorted os law none remote h = let e = ok_injective h in rw (← e) tt
parse_remote-IsSorted os law (some bytes) remote h =
    let (file, h1, k1) = >>=-eq-ok (from_remote_bytes os bytes) _ h in
    let e = ok_injective k1 in
    elim (Option-cases (os.from_utf8 bytes)) [
      | inl bad ↦ let h2 = rw (from_remote_bytes, bad) at h1 in cc
      | inr (text, good) ↦
          let h2 = rw (from_remote_bytes, good) at h1 in
          let (parsed, h3, k3) = >>=-eq-ok (map_err _ (os.toml text)) _ h2 in
          rw (← e) (
            validate-IsSorted parsed file k3
              (law text parsed (map_err-ok _ (os.toml text) parsed h3)))
    ]

merged_answer :
    (os : Os) (chosen : Option (List ℕ)) (local : Option ServicesFile) (told : List Warning)
    (file : ServicesFile) (warnings : List Warning)
    → (parse_remote os chosen >>= deliver local told) ≡ ok (file, warnings)
    → (remote : Option ServicesFile) × (parse_remote os chosen ≡ ok remote)
      × (warnings ≡ told)
      × ((name : Text)
          → IsSorted (services_of local)
          → IsSorted (services_of remote)
          → Map.get name file.services
            ≡ or_else (Map.get name (services_of remote)) (Map.get name (services_of local)))
merged_answer os chosen local told file warnings h =
    let (remote, h1, k1) = >>=-eq-ok (parse_remote os chosen) _ h in
    let e = ok_injective k1 in
    let same = ap (λ (x : ServicesFile × List Warning). x.0) e in
    let ws = ap (λ (x : ServicesFile × List Warning). x.1) e in
    (remote, h1, sym ws, λ name s t. rw (← same) (merge_found-lookup local remote name s t))

-- What `resolve_effective_services` returns: an answer of the server is taken, else the cached
-- copy, else the local file alone, with one warning if the fetch failed; and a name is looked up
-- in the remote file first, then in the local one. The TOML reader is taken to give
-- the names in ascending order, as the local file has them.
pub effective_lookup :
    (os : Os) (fetched : Result Text (List ℕ)) (cached : Option (List ℕ))
    (local : Option ServicesFile) (file : ServicesFile) (warnings : List Warning) (name : Text)
    → ((text : Text) (f : ServicesFile) → os.toml text ≡ ok f → IsSorted f.services)
    → IsSorted (services_of local)
    → resolve_effective_services os fetched cached local ≡ ok (file, warnings)
    → (remote : Option ServicesFile) × (parse_remote os (or_else (answer fetched) cached)
        ≡ ok remote)
      × (length warnings ≡ (if is_some (answer fetched) then 0 else 1))
      × ((is_some (or_else (answer fetched) cached) || is_some local) ≡ true)
      × (Map.get name file.services
          ≡ or_else (Map.get name (services_of remote)) (Map.get name (services_of local)))
unfolding resolve_effective_services choose_bytes parse_remote
effective_lookup os (ok bytes) cached local file warnings name law s h =
    let (remote, p, e, l) = merged_answer os (some bytes) local [] file warnings h in
    (remote, p, rw e, refl, l name s (parse_remote-IsSorted os law (some bytes) remote p))
effective_lookup os (err e) (some bytes) local file warnings name law s h =
    let (remote, p, e, l) = merged_answer os (some bytes) local _ file warnings h in
    (remote, p, rw e, refl, l name s (parse_remote-IsSorted os law (some bytes) remote p))
effective_lookup os (err e) none (some here) file warnings name law s h =
    let (remote, p, e, l) = merged_answer os none (some here) _ file warnings h in
    (remote, p, rw e, refl, l name s (parse_remote-IsSorted os law none remote p))
effective_lookup os (err e) none none file warnings name law s h = cc
