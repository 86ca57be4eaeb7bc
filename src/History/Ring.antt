-- ===== src/History/Ring.antt =====
-- The ring holds the newest points, in order.
use pg_lens.Prelude.{
  ℕ, zero, suc, ◌+◌, ◌-◌, ◌≤◌, ◌<◌, ◌≡◌, refl, sym, ap, ◌∙◌, inl, inr, List, [], ◌∷◌, ◌++◌, length,
  drop, nat_eq, nat_eq_iff, append_assoc, append-nil, length-append, length-drop, Bool-cases, arith,
}
use pg_lens.History.{SnapshotHistory, push, push_all}

-- The last `n` of a list.
abbrev pub take_last : {A : Type 0} → ℕ → List A → List A
take_last n xs = drop (length xs - n) xs

drop-append :
    {A : Type 0} (n : ℕ) (xs ys : List A) → n ≤ length xs → drop n (xs ++ ys) ≡ drop n xs ++ ys
drop-append zero xs ys h = refl
drop-append (suc n) [] ys h = ground (arith, h)
drop-append (suc n) (x ∷ xs) ys h = drop-append n xs ys (omega (arith, h))

drop-nil : {A : Type 0} (n : ℕ) → drop {A = A} n [] ≡ []
drop-nil zero = refl
drop-nil (suc n) = refl

drop-drop : {A : Type 0} (m n : ℕ) (xs : List A) → drop m (drop n xs) ≡ drop (n + m) xs
drop-drop m zero xs = ap (λ k. drop k xs) (omega arith)
drop-drop m (suc n) [] = drop-nil m ∙ sym (drop-nil (suc n + m))
drop-drop m (suc n) (x ∷ xs) =
    let e : suc (n + m) ≡ suc n + m = omega arith in drop-drop m n xs ∙ ap (λ k. drop k (x ∷ xs)) e

drop-zero : {A : Type 0} (n : ℕ) (xs : List A) → n ≡ 0 → drop n xs ≡ xs
drop-zero n xs h = ap (λ k. drop k xs) h

-- To keep the last `n` before adding more changes nothing.
pub take_last-append :
    {A : Type 0} (n : ℕ) (xs ys : List A)
    → take_last n (take_last n xs ++ ys) ≡ take_last n (xs ++ ys)
take_last-append n xs ys =
    let cut = length xs - n in
    let size = length-drop cut xs in
    let more = length-append (drop cut xs) ys in
    let all = length-append xs ys in
    let joined : drop cut xs ++ ys ≡ drop cut (xs ++ ys) =
      sym (drop-append cut xs ys (omega arith)) in
    ap (λ zs. drop (length (drop cut xs ++ ys) - n) zs) joined
    ∙ drop-drop _ cut (xs ++ ys)
    ∙ ap (λ k. drop k (xs ++ ys)) (omega (arith, size, more, all))

pub take_last-all : {A : Type 0} (n : ℕ) (xs : List A) → length xs ≤ n → take_last n xs ≡ xs
take_last-all n xs h = drop-zero (length xs - n) xs (omega (arith, h))

pub length-take_last : {A : Type 0} (n : ℕ) (xs : List A) → length (take_last n xs) ≤ n
length-take_last n xs = omega (arith, length-drop (length xs - n) xs)

bound : {A : Type 0} (n : ℕ) (xs ys : List A) → xs ≡ take_last n ys → length xs ≤ n
bound n xs ys e = rw e (length-take_last n ys)

module _ (Point : Type 0) where
  -- A ring has room for at least one point, and never holds more than its capacity.
  abbrev pub IsRing : SnapshotHistory Point → Type 0
  IsRing h = (1 ≤ h.cap) × (length h.points ≤ h.cap)

  pub push_lem :
      (h : SnapshotHistory Point) (p : Point)
      → IsRing h
      → (push Point h p).points ≡ take_last h.cap (h.points ++ p ∷ [])
  unfolding push
  push_lem h p (room, fits) = elim (Bool-cases (nat_eq (length h.points) h.cap)) [
    | inl e ↦
        let full = (nat_eq_iff (length h.points) h.cap).0 e in
        let one : length (h.points ++ p ∷ []) - h.cap ≡ 1 =
          omega (arith, full, length-append h.points (p ∷ [])) in
        rw (e, one) (sym (drop-append 1 h.points (p ∷ []) (omega (arith, full, room))))
    | inr e ↦
        let free : length h.points < h.cap = ground (arith, fits, e) in
        rw e (
          sym (
            take_last-all h.cap (h.points ++ p ∷ [])
              (omega (arith, free, length-append h.points (p ∷ [])))))
  ]

  pub push-IsRing : (h : SnapshotHistory Point) (p : Point) → IsRing h → IsRing (push Point h p)
  unfolding push
  push-IsRing h p r = (r.0, bound h.cap _ (h.points ++ p ∷ []) (push_lem h p r))

  pub push-cap : (h : SnapshotHistory Point) (p : Point) → (push Point h p).cap ≡ h.cap
  unfolding push
  push-cap h p = refl

  -- However many points are pushed, the ring holds the newest of those that it had and those that
  -- were pushed, as many as its capacity allows, from the oldest to the newest.
  pub push_all-take_last :
      (h : SnapshotHistory Point) (ps : List Point)
      → IsRing h
      → ((push_all Point h ps).points ≡ take_last h.cap (h.points ++ ps))
        × ((push_all Point h ps).cap ≡ h.cap)
        × IsRing (push_all Point h ps)
  unfolding push_all push
  push_all-take_last h [] r =
      (sym (ap (take_last h.cap) (append-nil h.points) ∙ take_last-all h.cap h.points r.1), refl, r)
  push_all-take_last h (p ∷ ps) r =
      let (e, c, ring) = push_all-take_last (push Point h p) ps (push-IsRing h p r) in
      let one = push_lem h p r in
      (
        e
            ∙ ap (take_last h.cap) (ap (λ xs. xs ++ ps) one)
            ∙ take_last-append h.cap (h.points ++ p ∷ []) ps
            ∙ ap (take_last h.cap) (append_assoc h.points (p ∷ []) ps),
        c ∙ push-cap h p,
        ring,
      )
