-- ===== src/Conn/Config.antt =====
-- `tokio_postgres::Config`, which the program only calls: a parameter. What its getters return is
-- a `View`; a host or an address is held as the text that it was given.
use pg_lens.Prelude.{ℕ, ◌≡◌, Option, none, some, List, [], ◌∷◌, ◌++◌}
use pg_lens.Prelude.Text.{Text}
use pg_lens.Conn.Error.{Result}

pub record View : Type 0 where
  pub hosts : List Text
  pub hostaddrs : List Text
  pub ports : List ℕ
  pub dbname : Option Text
  pub user : Option Text
  pub password : Option Text
  pub application_name : Option Text
  pub connect_timeout : Option ℕ

abbrev pub empty_view : View
empty_view = record {
  hosts = [];
  hostaddrs = [];
  ports = [];
  dbname = none;
  user = none;
  password = none;
  application_name = none;
  connect_timeout = none;
}

-- The setters are documented to append a host or a port, and to replace any other field; each
-- leaves the other fields alone.
pub record ConfigApi : Type 1 where
  pub Config : Type 0
  pub view : Config → View
  pub new : Config
  pub from_str : Text → Result Text Config
  pub host : Config → Text → Config
  pub port : Config → ℕ → Config
  pub dbname : Config → Text → Config
  pub user : Config → Text → Config
  pub password : Config → Text → Config
  pub application_name : Config → Text → Config
  pub connect_timeout : Config → ℕ → Config
  pub view-new : view new ≡ empty_view
  pub view-host :
      (c : Config) (v : Text)
      → view (host c v) ≡ record (view c) { hosts = (view c).hosts ++ v ∷ [] }
  pub view-port :
      (c : Config) (v : ℕ) → view (port c v) ≡ record (view c) { ports = (view c).ports ++ v ∷ [] }
  pub view-dbname :
      (c : Config) (v : Text) → view (dbname c v) ≡ record (view c) { dbname = some v }
  pub view-user : (c : Config) (v : Text) → view (user c v) ≡ record (view c) { user = some v }
  pub view-password :
      (c : Config) (v : Text) → view (password c v) ≡ record (view c) { password = some v }
  pub view-application_name :
      (c : Config) (v : Text)
      → view (application_name c v) ≡ record (view c) { application_name = some v }
  pub view-connect_timeout :
      (c : Config) (v : ℕ)
      → view (connect_timeout c v) ≡ record (view c) { connect_timeout = some v }
