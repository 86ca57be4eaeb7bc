-- ===== src/Sessions/Tree/Cover.antt =====
-- The forest of `build_blocking_tree` in blocks.rs, as a whole.
use mathlib.Core.Path.{subst}
use pg_lens.Prelude.{
  ℕ, ◌+◌, ◌<◌, ◌≡◌, refl, sym, ◌∙◌, ◌⊎◌, inl, inr, true, false, not, Option, none, some, List, [],
  All, arith, length, is_empty, if◌then◌else◌, if-each, length-map,
}
use pg_lens.Sessions.Blocking.{contains}
use pg_lens.Sessions.Tree.Node.{
  Durations, Nodes, nil, NodeInfo, LockRow, ActivityRow, IdleSessionRow, forest_pids,
}
use pg_lens.Sessions.Tree.{
  Maps, waiters, maps_of, keys, lock_pids, root_pids, fuel_for, build_node, build_roots, build_rest,
  sort_trees, append_nodes, build_blocking_tree,
}
use pg_lens.Sessions.Tree.Exact.{
  Tops, IsForest, AreBuilt, left, left-length, children-AreBuilt, node-IsBuilt,
}
use pg_lens.Sessions.Tree.Waiters.{waiters_exact, is_blocker}
use pg_lens.Sessions.Tree.Members.{
  all_members, waits-contains, All-imp, none_to_cover, contains-filter, outside-nil, Tops-pids,
  Tops-zip,
}
use pg_lens.Sessions.Tree.Sorted.{
  append-IsForest, sort-IsForest, append-Tops, sort-Tops, contains-append_nodes,
  contains-sort_trees,
}
use pg_lens.Sessions.Tree.Rest.{Rest, children-Rest, round}

module _ (durations : Durations) where
  open durations use {Secs}

  length-pids : (locks : List (LockRow Secs)) → length (lock_pids durations locks) ≡ length locks
  length-pids locks = length-map (λ (l : LockRow Secs). l.pid) locks

  -- What is said of the root of a tree: it is marked as a root, and it either names the cause of a
  -- wait without waiting itself, or is marked as deadlocked and waits.
  abbrev pub IsTop : List (LockRow Secs) → NodeInfo Secs → Type 0
  IsTop locks i =
      (i.is_root ≡ true)
      × (((i.is_deadlock ≡ false)
            × (is_blocker locks i.pid ≡ true)
            × (contains i.pid (lock_pids durations locks) ≡ false))
          ⊎ ((i.is_deadlock ≡ true) × (contains i.pid (lock_pids durations locks) ≡ true)))

  -- The forest of a snapshot.
  pub record IsForestOf (maps : Maps durations) (locks : List (LockRow Secs))
      (result : Option (Nodes Secs)) : Type 0 where
    pub nodes : Nodes Secs
    pub returned : result ≡ some nodes
    pub exact : IsForest durations maps [] nodes
    pub tops : Tops (IsTop locks) nodes
    pub covers : All (λ c. contains c (forest_pids nodes) ≡ true) (lock_pids durations locks)

  module _ (locks : List (LockRow Secs)) (activity : List (ActivityRow Secs))
      (idle : Option (List (IdleSessionRow Secs))) (order : List ℕ → List ℕ)
      (lists : (xs : List ℕ) (x : ℕ) → contains x (order xs) ≡ contains x xs) where
    known :
        (p : ℕ)
        → All
            (λ c. contains c (lock_pids durations locks) ≡ true)
            (waiters durations (maps_of durations locks activity idle) p)
    known p =
        all_members (λ c. contains c (lock_pids durations locks) ≡ true)
          (waiters durations (maps_of durations locks activity idle) p)
          (λ c m.
            waits-contains locks c p
              (sym ((waiters_exact durations locks activity idle p).1 c) ∙ m))

    enough : left (lock_pids durations locks) [] < length locks + 1
    enough = omega (arith, left-length (lock_pids durations locks) [], length-pids locks)

    roots :
        AreBuilt durations
          (maps_of durations locks activity idle)
          []
          true
          false
          (root_pids durations order (maps_of durations locks activity idle) locks)
          []
          (build_roots durations
            (fuel_for durations locks)
            (maps_of durations locks activity idle)
            (root_pids durations order (maps_of durations locks activity idle) locks)
            [])
    unfolding build_roots
    roots =
        let maps = maps_of durations locks activity idle in
        let pids = root_pids durations order maps locks in
        children-AreBuilt durations maps [] pids []
          (λ pid visited.
            build_node durations (fuel_for durations locks) maps pid true false [] visited)
          true false pids
          (λ c v m.
            node-IsBuilt durations maps (lock_pids durations locks) known (fuel_for durations locks)
              c true false [] v (ground (arith, enough)))
          (all_members (λ c. contains c pids ≡ true) pids (λ c m. m))

    rest :
        (v : List ℕ)
        → Rest durations
            (maps_of durations locks activity idle)
            (lock_pids durations locks)
            (lock_pids durations locks)
            v
            (build_rest durations
              (fuel_for durations locks)
              (maps_of durations locks activity idle)
              (lock_pids durations locks)
              v)
    unfolding build_rest
    rest v =
        let maps = maps_of durations locks activity idle in
        let pids = lock_pids durations locks in
        children-Rest durations maps pids pids v
          (λ pid visited.
            let built =
              build_node durations (fuel_for durations locks) maps pid true true [] visited in
            if contains pid visited then some (none, visited) else built)
          (round durations maps pids known (fuel_for durations locks) (omega (arith, enough)))
          (all_members (λ c. contains c pids ≡ true) pids (λ c m. m))

    IsTop-root :
        (c : ℕ)
        → contains c (root_pids durations order (maps_of durations locks activity idle) locks)
          ≡ true
        → (is_blocker locks c ≡ true) × (contains c (lock_pids durations locks) ≡ false)
    IsTop-root c h =
        let blockers = keys (maps_of durations locks activity idle).waiters_by_blocker in
        let parts =
          contains-filter (λ p. not (contains p (lock_pids durations locks))) c (order blockers)
            h in
        (
          sym ((waiters_exact durations locks activity idle c).2)
              ∙ (sym (lists blockers c) ∙ parts.1),
          ground (arith, parts.0),
        )

    root-Tops : Tops (IsTop locks) roots.nodes
    root-Tops =
        let pids = root_pids durations order (maps_of durations locks activity idle) locks in
        let members =
          all_members
            (λ c. (is_blocker locks c ≡ true) × (contains c (lock_pids durations locks) ≡ false))
            pids IsTop-root in
        Tops-zip
          (λ i.
            (is_blocker locks i.pid ≡ true) × (contains i.pid (lock_pids durations locks) ≡ false))
          (λ i. (i.is_root ≡ true) × (i.is_deadlock ≡ false)) (IsTop locks) roots.nodes
          (λ i h k. (k.0, inl (k.1, h.0, h.1)))
          (Tops-pids
            (λ c. (is_blocker locks c ≡ true) × (contains c (lock_pids durations locks) ≡ false))
            roots.nodes
            (subst
              (All (λ c.
                (is_blocker locks c ≡ true) × (contains c (lock_pids durations locks) ≡ false)))
              (sym (roots.tops ∙ outside-nil pids)) members))
          roots.marks

    rest-Tops : (v : List ℕ) → Tops (IsTop locks) (rest v).nodes
    rest-Tops v =
        Tops-zip (λ i. contains i.pid (lock_pids durations locks) ≡ true)
          (λ i. (i.is_root ≡ true) × (i.is_deadlock ≡ true)) (IsTop locks) (rest v).nodes
          (λ i h k. (k.0, inr (k.1, h))) (rest v).tops (rest v).marks

    forest-IsForestOf : IsForestOf (maps_of durations locks activity idle) locks (
        some (sort_trees durations (append_nodes durations roots.nodes (rest roots.visited).nodes)))
    forest-IsForestOf =
        let maps = maps_of durations locks activity idle in
        let more = rest roots.visited in
        let both = append_nodes durations roots.nodes more.nodes in
        record {
          nodes = sort_trees durations both;
          returned = refl;
          exact =
              sort-IsForest durations maps both
                (append-IsForest durations maps roots.nodes more.nodes roots.forest more.forest);
          tops = sort-Tops durations (IsTop locks) both (
              append-Tops durations (IsTop locks) roots.nodes more.nodes root-Tops
                (rest-Tops roots.visited));
          covers =
              All-imp (λ c. contains c more.visited ≡ true)
                (λ c. contains c (forest_pids (sort_trees durations both)) ≡ true)
                (lock_pids durations locks)
                (λ c h. ground (
                  arith,
                  h,
                  more.adds c,
                  roots.adds c,
                  contains-append_nodes durations c roots.nodes more.nodes,
                  contains-sort_trees durations c both,
                ))
                more.covers;
        }

    -- `build_blocking_tree` always returns, whatever the rows are and however sessions wait for
    -- each other. Below each node of its forest stand exactly the sessions that wait for it and are
    -- not above it, none of them marked as deadlocked, even those that wait in a circle with the
    -- root, and it counts the nodes below it; each root is marked as a root, and either blocks
    -- somebody and does not wait, or waits and is marked as deadlocked; and each session with a row
    -- is in the forest. The set of blockers is iterated in any order.
    pub build_blocking_tree-IsForestOf :
        IsForestOf
          (maps_of durations locks activity idle)
          locks
          (build_blocking_tree durations order locks activity idle)
    unfolding build_blocking_tree
    build_blocking_tree-IsForestOf =
        if-each (IsForestOf (maps_of durations locks activity idle) locks) (is_empty locks)
          (λ e. record {
            nodes = nil;
            returned = refl;
            exact = tt;
            tops = tt;
            covers = none_to_cover (λ c. contains c [] ≡ true) locks e;
          })
          (λ e. rw (roots.returned, (rest roots.visited).returned) forest-IsForestOf)
