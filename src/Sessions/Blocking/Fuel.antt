-- ===== src/Sessions/Blocking/Fuel.antt =====
-- The walk ends: the fuel of `blocking_chain` is enough for every list of locks.
use pg_lens.Prelude.{
  ℕ, zero, suc, ◌+◌, ◌≤◌, ◌<◌, ◌≡◌, inl, inr, true, false, some, List, [], ◌∷◌, ◌++◌, length,
  is_some, nat_eq, nat_eq_iff, if◌then◌else◌, Bool-cases, Option-cases, ℕ_eq, arith,
}
use pg_lens.Prelude.Map
use pg_lens.Prelude.Map.{Assoc}
use pg_lens.Sessions.Blocking.{LockRow, collect, next_of, contains, walk, blocking_chain}

-- The entries whose key was not visited.
abbrev fresh : Assoc ℕ LockRow → List ℕ → ℕ
fresh [] visited = 0
fresh ((k, r) ∷ m) visited = (if contains k visited then 0 else 1) + fresh m visited

fresh-le :
    (m : Assoc ℕ LockRow) (x : ℕ) (visited : List ℕ) → fresh m (x ∷ visited) ≤ fresh m visited
fresh-le [] x visited = omega arith
fresh-le ((k, r) ∷ m) x visited = ground (arith, fresh-le m x visited)

fresh-lt :
    (m : Assoc ℕ LockRow) (x : ℕ) (visited : List ℕ)
    → is_some (Map.get x m) ≡ true
    → contains x visited ≡ false
    → fresh m (x ∷ visited) < fresh m visited
unfolding Map.get
fresh-lt [] x visited h n = cc
fresh-lt ((k, r) ∷ m) x visited h n = elim (Bool-cases (nat_eq k x)) [
  | inl e ↦ let same = (nat_eq_iff k x).0 e in rw same (ground (arith, fresh-le m x visited, n))
  | inr e ↦ ground (arith, e, fresh-lt m x visited (ground (arith, e, h)) n)
]

fresh-length : (m : Assoc ℕ LockRow) (visited : List ℕ) → fresh m visited ≤ length m
fresh-length [] visited = omega arith
fresh-length ((k, r) ∷ m) visited = ground (arith, fresh-length m visited)

next_of-some : (m : Assoc ℕ LockRow) (x y : ℕ) → next_of m x ≡ some y → is_some (Map.get x m) ≡ true
unfolding next_of
next_of-some m x y h = elim (Option-cases (Map.get x m)) [
  | inl e ↦ let h' = rw (next_of, e) at h in cc
  | inr (r, e) ↦ rw e
]

-- From a pid that was visited: one round for each entry that was not, and two more.
walk-is_some :
    (fuel : ℕ) (m : Assoc ℕ LockRow) (chain visited : List ℕ) (current : ℕ)
    → (if is_some (next_of m current) then 2 + fresh m visited else 1) ≤ fuel
    → is_some (walk fuel m chain visited current) ≡ true
unfolding walk
walk-is_some zero m chain visited current h = ground (arith, h)
walk-is_some (suc fuel) m chain visited current h = elim (Option-cases (next_of m current)) [
  | inl e ↦ rw (walk, e)
  | inr (next, e) ↦ elim (Bool-cases (contains next visited)) [
    | inl seen ↦ rw (walk, e, seen)
    | inr new ↦
        let h' = rw e at h in
        let left : (if is_some (next_of m next) then 2 + fresh m (next ∷ visited) else 1) ≤ fuel =
          elim (Option-cases (next_of m next)) [
            | inl f ↦ rw f (ground (arith, h'))
            | inr (y, f) ↦
                rw f (omega (arith, h', fresh-lt m next visited (next_of-some m next y f) new))
          ] in
        rw (walk, e, new) (walk-is_some fuel m (chain ++ next ∷ []) (next ∷ visited) next left)
  ]
]

enough :
    (m : Assoc ℕ LockRow) (pid : ℕ)
    → (if is_some (next_of m pid) then 2 + fresh m (pid ∷ []) else 1) ≤ length m + 2
enough m pid = ground (arith, fresh-length m (pid ∷ []))

-- `blocking_chain` has an answer exactly for the pids that have a row, whatever the rows are.
pub blocking_chain-total :
    (pid : ℕ) (locks : List LockRow)
    → is_some (blocking_chain pid locks) ≡ is_some (Map.get pid (collect [] locks))
unfolding blocking_chain
blocking_chain-total pid locks =
    let m = collect [] locks in
    elim (Option-cases (Map.get pid (collect [] locks))) [
      | inl e ↦ rw (blocking_chain, e)
      | inr (row, e) ↦
          rw (blocking_chain, e)
            (walk-is_some (length m + 2) m (pid ∷ []) (pid ∷ []) pid (enough m pid))
    ]
