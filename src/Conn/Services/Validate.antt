-- ===== src/Conn/Services/Validate.antt =====
-- What `validate` and `load` promise of a services file.
use Prim.Native.Nat.{bit_and}
use pg_lens.Prelude.{
  ℕ, ◌≡◌, refl, sym, ap, ◌⊎◌, inl, inr, Bool, false, not, ◌&&◌, Option, none, some, List, [], ◌∷◌,
  All, any, is_some, nat_eq, nat_eq_iff, if◌then◌else◌, Bool-cases, Option-cases, arith,
}
use pg_lens.Prelude.Text.{Text}
use pg_lens.Prelude.Map.{Assoc}
use pg_lens.Conn.Error.{
  SettingsError, services_file_io, services_file_parse, insecure_services_file, service_config,
  Result, ok, err, ◌>>=◌, map_err, >>=-eq-ok, ok_injective,
}
use pg_lens.Conn.Services.{
  ServiceEntry, ServicesFile, Os, command_sugar, exclusive_message, validate_entry, validate_all,
  validate, file_mode, readable_reason, Warning, mode_not_0600, load,
}

abbrev pub sugar_of : Option Text → Option Text
sugar_of none = none
sugar_of (some pw) = command_sugar pw

-- At most one way to a password, and a password that is not shorthand for a command.
pub record IsClean (e : ServiceEntry) : Type 0 where
  pub exclusive : (e.password ≡ none) ⊎ (e.password_cmd ≡ none)
  pub plain : sugar_of e.password ≡ none

abbrev pub conflict : ServiceEntry → Bool
conflict e = is_some e.password && is_some e.password_cmd

validate_entry-IsClean :
    (name : Text) (e e' : ServiceEntry) → validate_entry name e ≡ ok e' → IsClean e'
unfolding validate_entry
validate_entry-IsClean name e e' h = elim (Option-cases e.password) [
  | inl free ↦
      let same = ok_injective (rw (validate_entry, free) at h) in
      rw (← same) (record { exclusive = inl free; plain = rw free })
  | inr (pw, taken) ↦ elim (Bool-cases (is_some e.password_cmd)) [
    | inl both ↦ let h' = rw (validate_entry, taken, both) at h in cc
    | inr one ↦ elim (Option-cases (command_sugar pw)) [
      | inl literal ↦
          let same = ok_injective (rw (validate_entry, taken, one, literal) at h) in
          rw (← same)
            (record { exclusive = inr (ground (arith, one)); plain = rw (taken, literal) })
      | inr (cmd, sugar) ↦
          let same = ok_injective (rw (validate_entry, taken, one, sugar) at h) in
          rw (← same) (record { exclusive = inl refl; plain = refl })
    ]
  ]
]

abbrev pub AllClean : Assoc Text ServiceEntry → Type 0
AllClean = All (λ (e : Text × ServiceEntry). IsClean e.1)

validate_all-AllClean : (m m' : Assoc Text ServiceEntry) → validate_all m ≡ ok m' → AllClean m'
unfolding validate_all
validate_all-AllClean [] m' h = let e = ok_injective h in rw (← e) tt
validate_all-AllClean ((name, e) ∷ rest) m' h =
    let (e', h1, k1) = >>=-eq-ok (validate_entry name e) _ h in
    let (rest', h2, k2) = >>=-eq-ok (validate_all rest) _ k1 in
    let q = ok_injective k2 in
    rw (← q) (validate_entry-IsClean name e e' h1, validate_all-AllClean rest rest' h2)

-- The name of the first entry with both a password and a command.
abbrev pub first_conflict : Assoc Text ServiceEntry → Option Text
first_conflict [] = none
first_conflict ((name, e) ∷ rest) =
    let later = first_conflict rest in if conflict e then some name else later

-- The shorthand, expanded.
abbrev expand : ServiceEntry → Option Text → ServiceEntry
expand e none = e
expand e (some cmd) = record e { password_cmd = some cmd; password = none }

abbrev pub desugar : ServiceEntry → ServiceEntry
desugar e = expand e (sugar_of e.password)

abbrev pub desugar_all : Assoc Text ServiceEntry → Assoc Text ServiceEntry
desugar_all [] = []
desugar_all ((name, e) ∷ rest) = (name, desugar e) ∷ desugar_all rest

-- Check every entry first, then expand every shorthand.
abbrev pub checked :
    Assoc Text ServiceEntry → Option Text → Result SettingsError (Assoc Text ServiceEntry)
checked m none = ok (desugar_all m)
checked m (some name) = err (service_config name exclusive_message)

validate_entry_lem :
    (name : Text) (e : ServiceEntry)
    → validate_entry name e
      ≡ (if conflict e then err (service_config name exclusive_message) else ok (desugar e))
unfolding validate_entry
validate_entry_lem name e = elim (Option-cases e.password) [
  | inl free ↦ rw free (ground arith)
  | inr (pw, taken) ↦ elim (Option-cases (command_sugar pw)) [
    | inl literal ↦ rw (taken, literal) (ground arith)
    | inr (cmd, sugar) ↦ rw (taken, sugar) (ground arith)
  ]
]

validate_all-checked : (m : Assoc Text ServiceEntry) → validate_all m ≡ checked m (first_conflict m)
unfolding validate_all
validate_all-checked [] = refl
validate_all-checked ((name, e) ∷ rest) = elim (Bool-cases (conflict e)) [
  | inl both ↦ rw (validate_entry_lem name e, both)
  | inr one ↦
      rw (validate_entry_lem name e, one, validate_all-checked rest)
        (elim (Option-cases (first_conflict rest)) [ inl z ↦ rw z | inr (n, z) ↦ rw z ])
]

-- The loop of `validate` is the same as checking every entry first and then expanding every
-- `"$(...)"`: it fails at the first entry with both a `password` and a `password_cmd`.
pub validate_exact :
    (file : ServicesFile)
    → validate file ≡ (
        checked file.services (first_conflict file.services) >>= λ services.
        ok (record { services = services }))
unfolding validate
validate_exact file = rw (validate_all-checked file.services)

pub validate-AllClean :
    (file file' : ServicesFile) → validate file ≡ ok file' → AllClean file'.services
unfolding validate
validate-AllClean file file' h =
    let (m, h1, k1) = >>=-eq-ok (validate_all file.services) _ h in
    let q = ok_injective k1 in rw (← q) (validate_all-AllClean file.services m h1)

abbrev pub has_plaintext : ServicesFile → Bool
has_plaintext file = any (λ (e : Text × ServiceEntry). is_some e.1.password) file.services

plain_test : (a : Bool) (bits : ℕ) → (a && not (nat_eq bits 0)) ≡ false → (a ≡ false) ⊎ (bits ≡ 0)
plain_test a bits h = ground (arith, nat_eq_iff bits 0)

-- What the last test of `load` leaves.
last_step :
    (path : Text) (mode : ℕ) (loaded file : ServicesFile) (warnings : List Warning)
    → AllClean loaded.services
    → ◌≡◌ {A = Result SettingsError (ServicesFile × List Warning)}
        (if has_plaintext loaded && not (nat_eq (bit_and mode 0o044) 0)
          then err (insecure_services_file path mode readable_reason)
          else ok (loaded, if nat_eq mode 0o600 then [] else mode_not_0600 path mode ∷ []))
        (ok (file, warnings))
    → ((has_plaintext file ≡ false) ⊎ (bit_and mode 0o044 ≡ 0))
      × AllClean file.services
      × (warnings ≡ (if nat_eq mode 0o600 then [] else mode_not_0600 path mode ∷ []))
last_step path mode loaded file warnings clean k =
    elim (Bool-cases (has_plaintext loaded && not (nat_eq (bit_and mode 0o044) 0))) [
      | inl bad ↦ let k' = rw bad at k in cc
      | inr good ↦
          let e = ok_injective (rw good at k) in
          let same = ap (λ (x : ServicesFile × List Warning). x.0) e in
          let told = ap (λ (x : ServicesFile × List Warning). x.1) e in
          rw (← same) (plain_test (has_plaintext loaded) _ good, clean, sym told)
    ]

-- A services file that was loaded cannot have been written by the group or by others; if it holds
-- a plaintext password, they cannot read it either; its entries are clean; and there is a warning,
-- about its mode, exactly if that is not 0600.
pub load_secure :
    (os : Os) (path : Text) (file : ServicesFile) (warnings : List Warning)
    → load os path ≡ ok (file, warnings)
    → (mode : ℕ) × (file_mode os path ≡ ok mode)
      × (bit_and mode 0o022 ≡ 0)
      × ((has_plaintext file ≡ false) ⊎ (bit_and mode 0o044 ≡ 0))
      × AllClean file.services
      × (warnings ≡ (if nat_eq mode 0o600 then [] else mode_not_0600 path mode ∷ []))
unfolding load
load_secure os path file warnings h =
    let (contents, h1, k1) =
      >>=-eq-ok (map_err (services_file_io path) (os.read_to_string path)) _ h in
    let (mode, h2, k2) = >>=-eq-ok (file_mode os path) _ k1 in
    elim (Bool-cases (nat_eq (bit_and mode 0o022) 0)) [
      | inr bad ↦ let k3 = rw bad at k2 in cc
      | inl good ↦
          let k3 = rw good at k2 in
          let (parsed, h4, k4) =
            >>=-eq-ok (map_err (services_file_parse path) (os.toml contents)) _ k3 in
          let (checked_file, h5, k5) = >>=-eq-ok (validate parsed) _ k4 in
          let clean = validate-AllClean parsed checked_file h5 in
          let (readable, cleaned, told) = last_step path mode checked_file file warnings clean k5 in
          (mode, h2, (nat_eq_iff (bit_and mode 0o022) 0).0 good, readable, cleaned, told)
    ]
