-- ===== src/Sessions/Tree/Waiters.antt =====
-- `waiters_by_blocker` of blocks.rs: who waits for whom.
use mathlib.Core.Path.{subst}
use pg_lens.Prelude.{
  ℕ, ◌+◌, ◌≤◌, ◌≡◌, refl, sym, ap, ◌∙◌, Bool, ◌&&◌, ◌||◌, Option, List, [], ◌∷◌, ◌++◌, any, arith,
  unwrap_or, nat_eq, nat_eq_iff, leb, if◌then◌else◌, ℕ_eq, Bool-cases, inl, inr,
}
use pg_lens.Prelude.Map
use pg_lens.Prelude.Map.{Assoc, get-insert}
use pg_lens.Sessions.Blocking.{contains}
use pg_lens.Sessions.Tree.Node.{Durations, LockRow, ActivityRow, IdleSessionRow}
use pg_lens.Sessions.Tree.{
  maps_of, waiters, add_waiter, insert_pid, sort_unstable, dedup, sorted_values, keys,
  collect_waiters,
}

contains-insert_pid : (x y : ℕ) (ys : List ℕ) → contains x (insert_pid y ys) ≡ contains x (y ∷ ys)
unfolding insert_pid
contains-insert_pid x y [] = refl
contains-insert_pid x y (z ∷ ys) = ground (arith, contains-insert_pid x y ys)

contains-sort : (x : ℕ) (ys : List ℕ) → contains x (sort_unstable ys) ≡ contains x ys
unfolding sort_unstable
contains-sort x [] = refl
contains-sort x (y ∷ ys) =
    contains-insert_pid x y (sort_unstable ys) ∙ ground (arith, contains-sort x ys)

contains-dedup : (x : ℕ) (ys : List ℕ) → contains x (dedup ys) ≡ contains x ys
unfolding dedup
contains-dedup x [] = refl
contains-dedup x (y ∷ []) = refl
contains-dedup x (y ∷ z ∷ ys) = ground (arith, nat_eq_iff y z, contains-dedup x (z ∷ ys))

-- Ascending from a bound on, so that nothing stands there twice.
abbrev pub Ascends : ℕ → List ℕ → Type 0
Ascends lo [] = Unit
Ascends lo (x ∷ xs) = (lo ≤ x) × Ascends (x + 1) xs

abbrev SortedFrom : ℕ → List ℕ → Type 0
SortedFrom lo [] = Unit
SortedFrom lo (x ∷ xs) = (lo ≤ x) × SortedFrom x xs

insert_pid-SortedFrom :
    (lo x : ℕ) (ys : List ℕ) → lo ≤ x → SortedFrom lo ys → SortedFrom lo (insert_pid x ys)
unfolding insert_pid
insert_pid-SortedFrom lo x [] h s = (h, tt)
insert_pid-SortedFrom lo x (y ∷ ys) h s = elim (Bool-cases (leb x y)) [
  | inl le ↦ rw le (ground arith)
  | inr gt ↦ rw gt (ground (arith, insert_pid-SortedFrom y x ys))
]

sort-SortedFrom : (ys : List ℕ) → SortedFrom 0 (sort_unstable ys)
unfolding sort_unstable
sort-SortedFrom [] = tt
sort-SortedFrom (y ∷ ys) =
    insert_pid-SortedFrom 0 y (sort_unstable ys) (omega arith) (sort-SortedFrom ys)

Ascends-weaken : (lo hi : ℕ) (xs : List ℕ) → lo ≤ hi → Ascends hi xs → Ascends lo xs
Ascends-weaken lo hi [] h a = tt
Ascends-weaken lo hi (x ∷ xs) h a = (omega arith, a.1)

dedup-Ascends : (lo : ℕ) (ys : List ℕ) → SortedFrom lo ys → Ascends lo (dedup ys)
unfolding dedup
dedup-Ascends lo [] h = tt
dedup-Ascends lo (y ∷ []) h = (h.0, tt)
dedup-Ascends lo (y ∷ z ∷ ys) h = elim (Bool-cases (nat_eq y z)) [
  | inl e ↦
      rw (dedup, e)
        (Ascends-weaken lo y (dedup (z ∷ ys)) (omega arith) (dedup-Ascends y (z ∷ ys) h.1))
  | inr e ↦ rw (dedup, e) (h.0, dedup-Ascends (y + 1) (z ∷ ys) (ground (arith, e), h.1.1))
]

get-sorted_values :
    (p : ℕ) (m : Assoc ℕ (List ℕ))
    → unwrap_or (Map.get p (sorted_values m)) []
      ≡ dedup (sort_unstable (unwrap_or (Map.get p m) []))
unfolding Map.get sorted_values
get-sorted_values p [] = refl
get-sorted_values p ((b, ws) ∷ m) = ground (arith, get-sorted_values p m)

keys-sorted_values : (m : Assoc ℕ (List ℕ)) → keys (sorted_values m) ≡ keys m
unfolding sorted_values
keys-sorted_values [] = refl
keys-sorted_values ((b, ws) ∷ m) = ap (λ ks. b ∷ ks) (keys-sorted_values m)

contains-snoc : (x y : ℕ) (ys : List ℕ) → contains x (ys ++ y ∷ []) ≡ (contains x ys || nat_eq y x)
contains-snoc x y [] = ground arith
contains-snoc x y (z ∷ ys) = ground (arith, contains-snoc x y ys)

waiting : ℕ → Assoc ℕ (List ℕ) → List ℕ
waiting p m = unwrap_or (Map.get p m) []

waiting-insert :
    (p b : ℕ) (ws : List ℕ) (m : Assoc ℕ (List ℕ))
    → waiting p (Map.insert b ws m) ≡ (if nat_eq b p then ws else waiting p m)
unfolding waiting
waiting-insert p b ws m = rw (get-insert p b ws m) (ground arith)

contains-insert :
    (c p pid b : ℕ) (m : Assoc ℕ (List ℕ))
    → contains c (waiting p (Map.insert b (waiting b m ++ pid ∷ []) m))
      ≡ (contains c (waiting p m) || (nat_eq b p && nat_eq pid c))
contains-insert c p pid b m = elim (Bool-cases (nat_eq b p)) [
  | inl e ↦
      let same = (nat_eq_iff b p).0 e in
      rw (waiting-insert p b (waiting b m ++ pid ∷ []) m, e, same)
        (contains-snoc c pid (waiting p m))
  | inr e ↦ rw (waiting-insert p b (waiting b m ++ pid ∷ []) m, e) (ground arith)
]

contains-add_waiter :
    (c p pid : ℕ) (bs : List ℕ) (m : Assoc ℕ (List ℕ))
    → contains c (waiting p (add_waiter pid bs m))
      ≡ (contains c (waiting p m) || (nat_eq pid c && contains p bs))
unfolding add_waiter waiting
contains-add_waiter c p pid [] m = ground arith
contains-add_waiter c p pid (b ∷ bs) m =
    contains-add_waiter c p pid bs (Map.insert b (waiting b m ++ pid ∷ []) m)
    ∙ ground (arith, contains-insert c p pid b m)

-- A row of the session `c` names the session `p` as a blocker.
abbrev pub waits_for : {Secs : Type 0} → List (LockRow Secs) → ℕ → ℕ → Bool
waits_for locks c p = any (λ l. nat_eq l.pid c && contains p l.blocked_by) locks

contains-insert_key :
    (x b : ℕ) (ws : List ℕ) (m : Assoc ℕ (List ℕ))
    → contains x (keys (Map.insert b ws m)) ≡ (nat_eq b x || contains x (keys m))
unfolding Map.insert
contains-insert_key x b ws [] = refl
contains-insert_key x b ws ((k, v) ∷ m) =
    ground (arith, nat_eq_iff k b, contains-insert_key x b ws m)

contains-add_waiter_key :
    (x pid : ℕ) (bs : List ℕ) (m : Assoc ℕ (List ℕ))
    → contains x (keys (add_waiter pid bs m)) ≡ (contains x (keys m) || contains x bs)
unfolding add_waiter
contains-add_waiter_key x pid [] m = ground arith
contains-add_waiter_key x pid (b ∷ bs) m =
    let ws = unwrap_or (Map.get b m) [] ++ pid ∷ [] in
    contains-add_waiter_key x pid bs (Map.insert b ws m)
    ∙ ground (arith, contains-insert_key x b ws m)

-- Some row names the session `p` as a blocker.
abbrev pub is_blocker : {Secs : Type 0} → List (LockRow Secs) → ℕ → Bool
is_blocker locks p = any (λ l. contains p l.blocked_by) locks

module _ (durations : Durations) where
  open durations use {Secs}

  contains-collect :
      (c p : ℕ) (locks : List (LockRow Secs)) (m : Assoc ℕ (List ℕ))
      → contains c (waiting p (collect_waiters durations locks m))
        ≡ (contains c (waiting p m) || waits_for locks c p)
  unfolding collect_waiters
  contains-collect c p [] m = ground arith
  contains-collect c p (l ∷ locks) m =
      contains-collect c p locks (add_waiter l.pid l.blocked_by m)
      ∙ ground (arith, contains-add_waiter c p l.pid l.blocked_by m)

  contains-collect_key :
      (x : ℕ) (locks : List (LockRow Secs)) (m : Assoc ℕ (List ℕ))
      → contains x (keys (collect_waiters durations locks m))
        ≡ (contains x (keys m) || is_blocker locks x)
  unfolding collect_waiters
  contains-collect_key x [] m = ground arith
  contains-collect_key x (l ∷ locks) m =
      contains-collect_key x locks (add_waiter l.pid l.blocked_by m)
      ∙ ground (arith, contains-add_waiter_key x l.pid l.blocked_by m)

  module _ (locks : List (LockRow Secs)) (activity : List (ActivityRow Secs))
      (idle : Option (List (IdleSessionRow Secs))) where
    -- The sessions that are found to wait for a session are those with a row that names it, in
    -- ascending order and each once; the blockers are the sessions that some row names.
    pub waiters_exact :
        (p : ℕ)
        → Ascends 0 (waiters durations (maps_of durations locks activity idle) p)
          × ((c : ℕ)
              → contains c (waiters durations (maps_of durations locks activity idle) p)
                ≡ waits_for locks c p)
          × (contains p (keys (maps_of durations locks activity idle).waiters_by_blocker)
              ≡ is_blocker locks p)
    unfolding maps_of waiters waiting Map.get
    waiters_exact p =
        let m = collect_waiters durations locks [] in
        (
          subst (Ascends 0) (sym (get-sorted_values p m))
              (dedup-Ascends 0 _ (sort-SortedFrom (waiting p m))),
          (λ c.
              ap (contains c) (get-sorted_values p m)
              ∙ (contains-dedup c (sort_unstable (waiting p m))
                  ∙ (contains-sort c (waiting p m) ∙ contains-collect c p locks []))),
          ap (contains p) (keys-sorted_values m) ∙ contains-collect_key p locks [],
        )
