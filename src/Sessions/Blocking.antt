-- ===== src/Sessions/Blocking.antt =====
-- crates/pg_lens_core/src/blocking.rs. A pid is used as a key only, so it is held as a number.
pub mod Chain
pub mod Fuel
use pg_lens.Prelude.{
  ℕ, zero, suc, ◌+◌, Bool, true, false, Option, none, some, List, [], ◌∷◌, ◌++◌, length, last?, any,
  nat_eq, if◌then◌else◌, ◌==◌, ℕ_eq,
}
use pg_lens.Prelude.Map
use pg_lens.Prelude.Map.{Assoc}

-- Of `LockRow`, the fields that the walk reads.
pub record LockRow : Type 0 where
  pub pid : ℕ
  pub blocked_by : List ℕ

pub record BlockingChain : Type 0 where
  pub chain : List ℕ
  pub deadlock : Bool

unfoldable pub root : BlockingChain → Option ℕ
root c = last? c.chain

-- `locks.iter().map(|l| (l.pid, l)).collect()`: of two rows of one pid, the later one stays.
unfoldable pub collect : Assoc ℕ LockRow → List LockRow → Assoc ℕ LockRow
unfolding Map.insert
collect m [] = m
collect m (l ∷ locks) = collect (Map.insert l.pid l m) locks

abbrev pub first : List ℕ → Option ℕ
first [] = none
first (x ∷ xs) = some x

-- `by_pid.get(&current)`, then `row.blocked_by.first()`: the condition and the first statement of
-- the loop, which ends where either has nothing.
unfoldable pub next_of : Assoc ℕ LockRow → ℕ → Option ℕ
unfolding Map.get
next_of by_pid current = elim (Map.get current by_pid) [
  | none ↦ none
  | some row ↦ first row.blocked_by
]

-- `visited.contains`
abbrev pub contains : ℕ → List ℕ → Bool
contains x = any (λ y. nat_eq y x)

-- The loop. `visited` holds the pids of `chain`; without fuel there is no result.
unfoldable pub walk : ℕ → Assoc ℕ LockRow → List ℕ → List ℕ → ℕ → Option BlockingChain
unfolding next_of
walk zero by_pid chain visited current = none
walk (suc fuel) by_pid chain visited current = elim (next_of by_pid current) [
  | none ↦ some (record { chain = chain; deadlock = false })
  | some next ↦
      let rest = walk fuel by_pid (chain ++ next ∷ []) (next ∷ visited) next in
      if contains next visited
      then some (record { chain = chain ++ next ∷ []; deadlock = true })
      else rest
]

unfoldable pub blocking_chain : ℕ → List LockRow → Option BlockingChain
unfolding collect walk
blocking_chain pid locks =
    let by_pid = collect [] locks in
    elim (Map.get pid by_pid) [
      | none ↦ none
      | some _ ↦ walk (length by_pid + 2) by_pid (pid ∷ []) (pid ∷ []) pid
    ]
