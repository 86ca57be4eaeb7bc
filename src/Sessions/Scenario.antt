-- ===== src/Sessions/Scenario.antt =====
-- Sessions that wait for each other: 1 is waited for by 2 and 4, 2 by 3, and 5 and 6 wait in a
-- cycle, which 7 waits behind.
use pg_lens.Prelude.{ℕ, ◌≡◌, refl, true, none, some, Option, List, [], ◌∷◌, ltb}
use pg_lens.Prelude.Text.{codes}
use pg_lens.Sessions.Blocking.{contains}
use pg_lens.Sessions.Tree.Node.{Durations, LockRow, Nodes, forest_pids}
use pg_lens.Sessions.Tree.{
  maps_of, waiters, keys, build_blocking_tree, build_roots, build_rest, build_node, sort_trees,
  index_locks, add_idle, add_activity, collect_waiters, sorted_values,
}
use pg_lens.Sessions.Tree.Waiters.{Ascends, waits_for, waiters_exact}
use pg_lens.Sessions.Tree.Cover.{IsForestOf, build_blocking_tree-IsForestOf}

abbrev in_seconds : Durations
in_seconds = record { Secs = ℕ; no_secs = 0; longer = λ a b. ltb b a }

abbrev row : ℕ → List ℕ → LockRow ℕ
row pid blocked_by = record {
  pid = pid;
  blocked_by = blocked_by;
  mode = none;
  locktype = none;
  relation = none;
  duration_secs = pid;
  query = codes "update";
}

abbrev rows : List (LockRow ℕ)
rows =
    row 2 (1 ∷ [])
    ∷ row 3 (2 ∷ [])
    ∷ row 4 (1 ∷ [])
    ∷ row 5 (6 ∷ [])
    ∷ row 6 (5 ∷ [])
    ∷ row 7 (5 ∷ [])
    ∷ []

abbrev pids_of : Option (Nodes ℕ) → List ℕ
pids_of none = []
pids_of (some ns) = forest_pids ns

abbrev as_listed : List ℕ → List ℕ
as_listed xs = xs

all_there :
    pids_of (build_blocking_tree in_seconds as_listed rows [] none) ≡ 1 ∷ 2 ∷ 3 ∷ 4 ∷ 5 ∷ 6 ∷ 7 ∷ []
unfolding build_blocking_tree build_roots build_rest build_node sort_trees collect_waiters
    index_locks add_idle add_activity sorted_values maps_of waiters
all_there = refl

build_blocking_tree-IsForestOf_example :
    IsForestOf in_seconds
      (maps_of in_seconds rows [] none)
      rows
      (build_blocking_tree in_seconds as_listed rows [] none)
build_blocking_tree-IsForestOf_example =
    build_blocking_tree-IsForestOf in_seconds rows [] none as_listed (λ xs x. refl)

waiters_exact_example :
    Ascends 0 (waiters in_seconds (maps_of in_seconds rows [] none) 5)
    × ((c : ℕ)
        → contains c (waiters in_seconds (maps_of in_seconds rows [] none) 5) ≡ waits_for rows c 5)
    × (contains 5 (keys (maps_of in_seconds rows [] none).waiters_by_blocker) ≡ true)
waiters_exact_example = waiters_exact in_seconds rows [] none 5
