-- ===== src/Sessions/Blocking/Chain.antt =====
-- What the chain of `blocking_chain` is.
use pg_lens.Prelude.{
  ℕ, zero, suc, ◌≡◌, refl, sym, ◌⊎◌, inl, inr, true, false, none, some, List, [], ◌∷◌, ◌++◌, nat_eq,
  if◌then◌else◌, Bool-cases, Option-cases, ℕ_eq, arith,
}
use pg_lens.Prelude.Map
use pg_lens.Prelude.Map.{Assoc}
use pg_lens.Sessions.Blocking.{
  LockRow, BlockingChain, collect, next_of, contains, walk, blocking_chain,
}

-- Each pid of the list waits first for the one behind it.
abbrev pub IsLinked : Assoc ℕ LockRow → List ℕ → Type 0
IsLinked m [] = Unit
IsLinked m (x ∷ []) = Unit
IsLinked m (x ∷ y ∷ r) = (next_of m x ≡ some y) × IsLinked m (y ∷ r)

abbrev pub IsDistinct : List ℕ → Type 0
IsDistinct [] = Unit
IsDistinct (x ∷ r) = (contains x r ≡ false) × IsDistinct r

-- A chain from `front` on, which is nonempty and ends in `current`: either it stops at a pid that
-- waits for nobody and nobody is in it twice, or its last pid repeats an earlier one, and only that.
pub record IsChain (m : Assoc ℕ LockRow) (pid : ℕ) (c : BlockingChain) : Type 0 where
  pub front : List ℕ
  pub end : ℕ
  pub split : c.chain ≡ front ++ end ∷ []
  pub starts : (r : List ℕ) × (c.chain ≡ pid ∷ r)
  pub linked : IsLinked m c.chain
  pub distinct : IsDistinct front
  pub repeats : c.deadlock ≡ contains end front
  pub stops : (c.deadlock ≡ true) ⊎ (next_of m end ≡ none)

IsLinked-snoc :
    (m : Assoc ℕ LockRow) (xs : List ℕ) (x y : ℕ)
    → IsLinked m (xs ++ x ∷ [])
    → next_of m x ≡ some y
    → IsLinked m ((xs ++ x ∷ []) ++ y ∷ [])
IsLinked-snoc m [] x y l h = (h, tt)
IsLinked-snoc m (a ∷ []) x y l h = (l.0, (h, tt))
IsLinked-snoc m (a ∷ b ∷ xs) x y l h = (l.0, IsLinked-snoc m (b ∷ xs) x y l.1 h)

contains-snoc :
    (z x : ℕ) (xs : List ℕ)
    → contains z (xs ++ x ∷ []) ≡ (if nat_eq x z then true else contains z xs)
contains-snoc z x [] = ground arith
contains-snoc z x (a ∷ xs) = ground (arith, contains-snoc z x xs)

IsDistinct-snoc :
    (xs : List ℕ) (x : ℕ) → IsDistinct xs → contains x xs ≡ false → IsDistinct (xs ++ x ∷ [])
IsDistinct-snoc [] x d n = (refl, tt)
IsDistinct-snoc (a ∷ xs) x d n =
    (ground (arith, contains-snoc a x xs, d.0, n), IsDistinct-snoc xs x d.1 (ground (arith, n)))

starts-snoc :
    (pid y : ℕ) (xs : List ℕ)
    → (r : List ℕ) × (xs ≡ pid ∷ r)
    → (r : List ℕ) × (xs ++ y ∷ [] ≡ pid ∷ r)
starts-snoc pid y xs (r, e) = (r ++ y ∷ [], rw e)

-- The invariant of the loop gives the chain.
walk-IsChain :
    (fuel : ℕ) (m : Assoc ℕ LockRow) (pid current : ℕ) (front visited : List ℕ) (c : BlockingChain)
    → (r : List ℕ) × (front ++ current ∷ [] ≡ pid ∷ r)
    → IsLinked m (front ++ current ∷ [])
    → IsDistinct (front ++ current ∷ [])
    → ((z : ℕ) → contains z visited ≡ contains z (front ++ current ∷ []))
    → IsDistinct front × (contains current front ≡ false)
    → walk fuel m (front ++ current ∷ []) visited current ≡ some c
    → IsChain m pid c
unfolding walk
walk-IsChain zero m pid current front visited c s l d v f h = cc
walk-IsChain (suc fuel) m pid current front visited c s l d v f h =
    elim (Option-cases (next_of m current)) [
      | inl stop ↦
          let h' = rw (walk, stop) at h in
          let e : record { chain = front ++ current ∷ []; deadlock = false } ≡ c = cc in
          rw (← e) (record {
            front = front;
            end = current;
            split = refl;
            starts = s;
            linked = l;
            distinct = f.0;
            repeats = sym f.1;
            stops = inr stop;
          })
      | inr (next, go) ↦ elim (Bool-cases (contains next visited)) [
        | inl seen ↦
            let h' = rw (walk, go, seen) at h in
            let e : record { chain = (front ++ current ∷ []) ++ next ∷ []; deadlock = true } ≡ c =
              cc in
            rw (← e) (record {
              front = front ++ current ∷ [];
              end = next;
              split = refl;
              starts = starts-snoc pid next _ s;
              linked = IsLinked-snoc m front current next l go;
              distinct = d;
              repeats = rw (← v next) (sym seen);
              stops = inl refl;
            })
        | inr new ↦
            let h' = rw (walk, go, new) at h in
            let away = rw (v next) at new in
            walk-IsChain fuel m pid next (front ++ current ∷ []) (next ∷ visited) c
              (starts-snoc pid next _ s) (IsLinked-snoc m front current next l go)
              (IsDistinct-snoc _ next d away)
              (λ z. ground (arith, contains-snoc z next (front ++ current ∷ []), v z)) (d, away) h'
      ]
    ]

-- The chain that `blocking_chain` returns starts at the pid it was asked for, each link is the
-- first blocker of the one before, and it either stops at a pid that waits for nobody, with nobody
-- in it twice and `deadlock` false, or its last pid is the only repeated one and `deadlock` is true.
pub blocking_chain-IsChain :
    (pid : ℕ) (locks : List LockRow) (c : BlockingChain)
    → blocking_chain pid locks ≡ some c
    → IsChain (collect [] locks) pid c
unfolding blocking_chain
blocking_chain-IsChain pid locks c h = elim (Option-cases (Map.get pid (collect [] locks))) [
  | inl e ↦ let h' = rw (blocking_chain, e) at h in cc
  | inr (row, e) ↦
      let h' = rw (blocking_chain, e) at h in
      walk-IsChain _ (collect [] locks) pid pid [] (pid ∷ []) c ([], refl) tt (refl, tt) (λ z. refl)
        (tt, refl) h'
]
