-- ===== src/Poller/Reconnect/Backoff.antt =====
-- How long the poller waits, and what it carries over.
use pg_lens.Prelude.{
  ℕ, ◌*◌, ◌≡◌, refl, ap, ◌∙◌, sym, min, true, false, Option, none, some, List, [], ◌∷◌, ◌++◌, arith,
  append_assoc, append-nil,
}
use pg_lens.Prelude.Text.{Text}
use pg_lens.Schema.Growth.{Float}
use pg_lens.Poller.Slow.{Payload}
use pg_lens.Poller.Reconnect.{Parts, error, Poller, slept, round}

module _ (float : Float) (payload : Payload) (parts : Parts) where
  -- Sessions that all fail before the first poll, each with its message.
  abbrev pub fail_all : Poller float payload parts → List Text → Option (Poller float payload parts)
  unfolding round
  fail_all p [] = some p
  fail_all p (msg ∷ rest) = elim (round float payload parts p false (error msg) slept) [
    | none ↦ none
    | some q ↦ fail_all q rest
  ]

  -- The waits before they are cut off at the maximum.
  abbrev pub delays : ℕ → List Text → List ℕ
  delays b [] = []
  delays b (msg ∷ rest) = min b 10 ∷ delays (b * 2) rest

  fail_all-delays :
      (b : ℕ) (p : Poller float payload parts) (msgs : List Text)
      → p.backoff ≡ min b 10
      → (q : Poller float payload parts) × (fail_all p msgs ≡ some q)
        × (q.waited ≡ p.waited ++ delays b msgs)
        × (q.published ≡ p.published ++ msgs)
        × (q.config ≡ p.config)
        × (q.history ≡ p.history)
        × (q.last_admin ≡ p.last_admin)
  unfolding fail_all round
  fail_all-delays b p [] e =
      (p, refl, sym (append-nil p.waited), sym (append-nil p.published), refl, refl, refl)
  fail_all-delays b p (msg ∷ rest) e =
      let next : Poller float payload parts = record p {
        published = p.published ++ msg ∷ [];
        waited = p.waited ++ p.backoff ∷ [];
        backoff = min (p.backoff * 2) 10;
      } in
      let (q, ran, w, m, c, h, a) = fail_all-delays (b * 2) next rest (omega (arith, e)) in
      (
        q,
        ran,
        w
            ∙ append_assoc p.waited (p.backoff ∷ []) (delays (b * 2) rest)
            ∙ ap (λ d. p.waited ++ d ∷ delays (b * 2) rest) e,
        m ∙ append_assoc p.published (msg ∷ []) rest,
        c,
        h,
        a,
      )

  -- A session that had polled and then failed is followed by a wait of one second; after it, while
  -- sessions fail before their first poll, the waits are 2, 4, 8, 10, 10, ... seconds. Every error
  -- is published, and the connection, the history and the last result survive.
  pub backoff_exact :
      (p : Poller float payload parts) (msg : Text) (msgs : List Text)
      → (q : Poller float payload parts) × (r : Poller float payload parts) × (round float payload
            parts p true
            (error msg)
            slept
          ≡ some q)
        × (fail_all q msgs ≡ some r)
        × (r.waited ≡ p.waited ++ delays 1 (msg ∷ msgs))
        × (r.published ≡ p.published ++ msg ∷ msgs)
        × (r.config ≡ p.config)
        × (r.history ≡ p.history)
        × (r.last_admin ≡ p.last_admin)
  unfolding round
  backoff_exact p msg msgs =
      let next : Poller float payload parts = record p {
        published = p.published ++ msg ∷ [];
        waited = p.waited ++ 1 ∷ [];
        backoff = min (1 * 2) 10;
      } in
      let (r, ran, w, m, c, h, a) = fail_all-delays 2 next msgs refl in
      (
        next,
        r,
        refl,
        ran,
        w ∙ append_assoc p.waited (1 ∷ []) (delays 2 msgs),
        m ∙ append_assoc p.published (msg ∷ []) msgs,
        c,
        h,
        a,
      )
