-- ===== src/Poller/Slow/Keep.antt =====
-- What a failure leaves on the screen.
use pg_lens.Prelude.{ℕ, ◌≡◌, refl, ◌∙◌, some, List, [], ◌∷◌}
use pg_lens.Prelude.Text.{Text}
use pg_lens.Schema.Growth.{Float}
use pg_lens.Poller.Slow.{Payload, SchemaSnapshot, SchemaState, SchemaStatus, error, store_error}

module _ (float : Float) (payload : Payload) where
  -- Failures that come one after the other, each with its message and its time.
  abbrev pub fail_all : SchemaState float payload → List (Text × ℕ) → SchemaState float payload
  unfolding store_error
  fail_all s [] = s
  fail_all s ((msg, now) ∷ rest) = fail_all (store_error float payload s msg now) rest

  -- A snapshot with another status.
  abbrev pub with_status :
      SchemaSnapshot float payload → SchemaStatus → SchemaSnapshot float payload
  with_status p status = record p { status = status }

  abbrev last_status : SchemaStatus → List (Text × ℕ) → SchemaStatus
  last_status status [] = status
  last_status status ((msg, now) ∷ rest) = last_status (error msg) rest

  stored_error :
      (s : SchemaState float payload) (p : SchemaSnapshot float payload) (msg : Text) (now : ℕ)
      → s.current ≡ some p
      → (store_error float payload s msg now).current ≡ some (with_status p (error msg))
  unfolding store_error
  stored_error s p msg now e = rw e

  stored_error-growth :
      (s : SchemaState float payload) (msg : Text) (now : ℕ)
      → (store_error float payload s msg now).growth ≡ s.growth
  unfolding store_error
  stored_error-growth s msg now = refl

  -- However many collections fail after one that was stored, its rows and the time of its
  -- collection stay, with the status of the last failure, and the growth rings stay.
  pub fail_all-keeps :
      (s : SchemaState float payload) (p : SchemaSnapshot float payload)
      (failures : List (Text × ℕ))
      → s.current ≡ some p
      → ((fail_all s failures).current ≡ some (with_status p (last_status p.status failures)))
        × ((fail_all s failures).growth ≡ s.growth)
  unfolding fail_all
  fail_all-keeps s p [] e = (e, refl)
  fail_all-keeps s p ((msg, now) ∷ rest) e =
      let once : (store_error float payload s msg now).current ≡ some (with_status p (error msg)) =
        stored_error s p msg now e in
      let (more, g) =
        fail_all-keeps (store_error float payload s msg now) (with_status p (error msg)) rest
          once in
      (more, g ∙ stored_error-growth s msg now)
