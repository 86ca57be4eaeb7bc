-- ===== src/Conn/Error.antt =====
-- `SettingsError` of crates/pg_lens_core/src/settings.rs. The errors of the driver and of the
-- operating system are held as the text that shows them, a path as its text.
use pg_lens.Prelude.{ℕ, ◌≡◌, refl, ap, List}
use pg_lens.Prelude.Text.{Text}

pub data SettingsError : Type 0 where
  dsn_parse : Text → SettingsError
  invalid_env_var : Text → Text → Text → SettingsError
  services_file_io : Text → Text → SettingsError
  services_file_parse : Text → Text → SettingsError
  insecure_services_file : Text → ℕ → Text → SettingsError
  service_config : Text → Text → SettingsError
  unknown_service : Text → List Text → SettingsError
  password_cmd : Text → SettingsError
  remote_config_url : Text → SettingsError
  remote_config_fetch : Text → SettingsError

-- Rust's `Result` with an error of type `E`.
pub data Result (E : Type 0) (A : Type 0) : Type 0 where
  ok : A → Result E A
  err : E → Result E A

infixl 5 ◌>>=◌
abbrev pub ◌>>=◌ : {E A B : Type 0} → Result E A → (A → Result E B) → Result E B
err e >>= next = err e
ok a >>= next = next a

abbrev pub map_err : {E F A : Type 0} → (E → F) → Result E A → Result F A
map_err f (ok a) = ok a
map_err f (err e) = err (f e)

-- To take a chain of fallible steps apart.
pub >>=-eq-ok :
    {E A B : Type 0} (now : Result E A) (next : A → Result E B) {b : B}
    → (now >>= next) ≡ ok b
    → (a : A) × (now ≡ ok a) × (next a ≡ ok b)
>>=-eq-ok (err e) next h = cc
>>=-eq-ok (ok a) next h = (a, refl, h)

pub ok_injective : {E A : Type 0} {a b : A} → ◌≡◌ {A = Result E A} (ok a) (ok b) → a ≡ b
ok_injective h = cc

pub map_err-ok :
    {E F A : Type 0} (f : E → F) (m : Result E A) (a : A) → map_err f m ≡ ok a → m ≡ ok a
map_err-ok f (ok b) a h = ap ok (ok_injective h)
map_err-ok f (err e) a h = cc
