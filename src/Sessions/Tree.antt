-- ===== src/Sessions/Tree.antt =====
-- crates/pg_lens_core/src/blocks.rs: the forest of sessions that wait for each other. Durations are
-- floating-point numbers and a parameter, as is the order in which a `HashSet` is iterated; a pid is
-- a key only, and held as a number.
pub mod Node
pub mod Waiters
pub mod Exact
pub mod Members
pub mod Sorted
pub mod Rest
pub mod Cover
use pg_lens.Prelude.{
  ℕ, zero, suc, ◌+◌, Bool, true, false, not, ◌&&◌, ◌||◌, Option, none, some, List, [], ◌∷◌, ◌++◌,
  map, length, filter, is_some, is_empty, unwrap_or, or_else, ltb, leb, nat_eq, if◌then◌else◌, ℕ_eq,
}
use pg_lens.Prelude.Text.{Text, codes}
use pg_lens.Prelude.Map
use pg_lens.Prelude.Map.{Assoc}
use pg_lens.Sessions.Blocking.{contains}
use pg_lens.Sessions.Tree.Node.{
  Durations, SessionInfo, ActivityRow, IdleSessionRow, LockRow, BlockTreeNode, Nodes, node, nil,
  cons, NodeInfo, pid_of, info_of,
}

-- `waiters_by_blocker`, before its lists are sorted.
unfoldable pub add_waiter : ℕ → List ℕ → Assoc ℕ (List ℕ) → Assoc ℕ (List ℕ)
unfolding Map.get Map.insert
add_waiter pid [] m = m
add_waiter pid (b ∷ bs) m =
    add_waiter pid bs (Map.insert b (unwrap_or (Map.get b m) [] ++ pid ∷ []) m)

unfoldable pub insert_pid : ℕ → List ℕ → List ℕ
insert_pid x [] = x ∷ []
insert_pid x (y ∷ ys) = let rest = insert_pid x ys in if leb x y then x ∷ y ∷ ys else y ∷ rest

unfoldable pub sort_unstable : List ℕ → List ℕ
unfolding insert_pid
sort_unstable [] = []
sort_unstable (x ∷ xs) = insert_pid x (sort_unstable xs)

-- `Vec::dedup`: of equal neighbours, the first stays.
unfoldable pub dedup : List ℕ → List ℕ
dedup [] = []
dedup (x ∷ []) = x ∷ []
dedup (x ∷ y ∷ ys) = let rest = dedup (y ∷ ys) in if nat_eq x y then rest else x ∷ rest

unfoldable pub sorted_values : Assoc ℕ (List ℕ) → Assoc ℕ (List ℕ)
unfolding sort_unstable dedup
sorted_values [] = []
sorted_values ((b, ws) ∷ m) = (b, dedup (sort_unstable ws)) ∷ sorted_values m

abbrev pub keys : {V : Type 0} → Assoc ℕ V → List ℕ
keys [] = []
keys ((k, v) ∷ m) = k ∷ keys m

module _ (durations : Durations) where
  open durations use {Secs, no_secs, longer}

  unfoldable pub add_idle :
      List (IdleSessionRow Secs) → Assoc ℕ (SessionInfo Secs) → Assoc ℕ (SessionInfo Secs)
  unfolding Map.insert
  add_idle [] m = m
  add_idle (s ∷ rows) m = add_idle rows (
      Map.insert s.pid
        (record {
          usename = s.username;
          application_name = s.application_name;
          state = codes "idle";
          query = codes "(idle)";
          duration_secs = s.idle_age_secs;
          xact_age_secs = none;
          wait_event = none;
        })
        m)

  unfoldable pub add_activity :
      List (ActivityRow Secs) → Assoc ℕ (SessionInfo Secs) → Assoc ℕ (SessionInfo Secs)
  unfolding Map.insert
  add_activity [] m = m
  add_activity (a ∷ rows) m = add_activity rows (
      Map.insert a.pid
        (record {
          usename = a.username;
          application_name = a.application_name;
          state = a.state;
          query = a.query;
          duration_secs = a.duration_secs;
          xact_age_secs = a.xact_age_secs;
          wait_event = a.wait_event;
        })
        m)

  unfoldable pub index_locks : List (LockRow Secs) → Assoc ℕ (LockRow Secs) → Assoc ℕ (LockRow Secs)
  unfolding Map.insert
  index_locks [] m = m
  index_locks (l ∷ locks) m = index_locks locks (Map.insert l.pid l m)

  unfoldable pub collect_waiters : List (LockRow Secs) → Assoc ℕ (List ℕ) → Assoc ℕ (List ℕ)
  unfolding add_waiter
  collect_waiters [] m = m
  collect_waiters (l ∷ locks) m = collect_waiters locks (add_waiter l.pid l.blocked_by m)

  -- What `build_node` reads of its maps.
  pub record Maps : Type 0 where
    pub lock_by_pid : Assoc ℕ (LockRow Secs)
    pub waiters_by_blocker : Assoc ℕ (List ℕ)
    pub sessions : Assoc ℕ (SessionInfo Secs)

  unfoldable pub waiters : Maps → ℕ → List ℕ
  unfolding Map.get
  waiters maps pid = unwrap_or (Map.get pid maps.waiters_by_blocker) []

  -- `1 + child.num_descendants` for each child.
  unfoldable pub count_descendants : Nodes Secs → ℕ
  count_descendants nil = 0
  count_descendants (cons n ns) = 1 + (info_of n).num_descendants + count_descendants ns

  unfoldable pub longest : Secs → Nodes Secs → Secs
  longest d nil = d
  longest d (cons n ns) =
      let child = (info_of n).max_descendant_duration in
      longest (if longer child d then child else d) ns

  -- What an optional row or session has in a column.
  abbrev column : {R A : Type 0} → (R → A) → Option R → Option A
  column f none = none
  column f (some r) = some (f r)

  abbrev flat_column : {R A : Type 0} → (R → Option A) → Option R → Option A
  flat_column f none = none
  flat_column f (some r) = f r

  -- The statements of `build_node` around the loop over the children.
  unfoldable pub make_node : Maps → ℕ → Bool → Bool → Nodes Secs → BlockTreeNode Secs
  unfolding Map.get count_descendants longest
  make_node maps pid is_root force_deadlock children =
      let lock_row = Map.get pid maps.lock_by_pid in
      let session = Map.get pid maps.sessions in
      let duration =
        unwrap_or
          (or_else (column (λ (s : SessionInfo Secs). s.duration_secs) session)
            (column (λ (l : LockRow Secs). l.duration_secs) lock_row))
          no_secs in
      node
        (record {
          pid = pid;
          is_root = is_root;
          is_deadlock = force_deadlock;
          usename =
              unwrap_or (column (λ (s : SessionInfo Secs). s.usename) session) (codes "unknown");
          application_name =
              unwrap_or (column (λ (s : SessionInfo Secs). s.application_name) session) [];
          state =
              unwrap_or (column (λ (s : SessionInfo Secs). s.state) session)
                (if is_some lock_row then codes "active" else codes "unknown");
          query =
              unwrap_or
                (or_else (column (λ (s : SessionInfo Secs). s.query) session)
                  (column (λ (l : LockRow Secs). l.query) lock_row))
                [];
          duration_secs = duration;
          xact_age_secs = flat_column (λ (s : SessionInfo Secs). s.xact_age_secs) session;
          wait_event = flat_column (λ (s : SessionInfo Secs). s.wait_event) session;
          mode = flat_column (λ (l : LockRow Secs). l.mode) lock_row;
          locktype = flat_column (λ (l : LockRow Secs). l.locktype) lock_row;
          relation = flat_column (λ (l : LockRow Secs). l.relation) lock_row;
          blocked_by = unwrap_or (column (λ (l : LockRow Secs). l.blocked_by) lock_row) [];
          num_descendants = count_descendants children;
          max_descendant_duration = longest duration children;
        })
        children

  -- A call of `build_node`: the node, and `visited_globally` behind it.
  abbrev pub Built : Type 0
  Built = Option (BlockTreeNode Secs) × List ℕ

  abbrev pub push_node : Option (BlockTreeNode Secs) → Nodes Secs → Nodes Secs
  push_node none ns = ns
  push_node (some n) ns = cons n ns

  unfoldable pub build_children :
      (ℕ → List ℕ → Option Built) → List ℕ → List ℕ → Option (Nodes Secs × List ℕ)
  build_children build [] visited = some (nil, visited)
  build_children build (c ∷ cs) visited = elim (build c visited) [
    | none ↦ none
    | some (n, visited') ↦ elim (build_children build cs visited') [
      | none ↦ none
      | some (ns, visited'') ↦ some (push_node n ns, visited'')
    ]
  ]

  -- `build_node`; `path` is a set that a call leaves as it was. `none` is a lack of fuel.
  unfoldable pub build_node : ℕ → Maps → ℕ → Bool → Bool → List ℕ → List ℕ → Option Built
  unfolding make_node build_children
  build_node zero maps pid is_root force_deadlock path visited = none
  build_node (suc fuel) maps pid is_root force_deadlock path visited =
      let built : Option Built =
        elim (build_children (λ c v. build_node fuel maps c false false (pid ∷ path) v)
          (waiters maps pid) (pid ∷ visited)) [
            | none ↦ none
            | some (ns, visited') ↦
                some (some (make_node maps pid is_root force_deadlock ns), visited')
          ] in
      if contains pid path then some (none, visited) else built

  -- The first loop of `build_blocking_tree`.
  unfoldable pub build_roots : ℕ → Maps → List ℕ → List ℕ → Option (Nodes Secs × List ℕ)
  unfolding build_node build_children
  build_roots fuel maps =
      build_children (λ pid visited. build_node fuel maps pid true false [] visited)

  -- The second loop, with the test of its body.
  unfoldable pub build_rest : ℕ → Maps → List ℕ → List ℕ → Option (Nodes Secs × List ℕ)
  unfolding build_node build_children
  build_rest fuel maps = build_children λ pid visited.
      let built = build_node fuel maps pid true true [] visited in
      if contains pid visited then some (none, visited) else built

  -- `b` stands before `a` in the order of the last step: `cmp` is `Less`.
  abbrev precedes : BlockTreeNode Secs → BlockTreeNode Secs → Bool
  precedes b a =
      let i = info_of b in
      let j = info_of a in
      ltb j.num_descendants i.num_descendants
      || (nat_eq j.num_descendants i.num_descendants
          && longer i.max_descendant_duration j.max_descendant_duration)

  unfoldable pub insert_tree : BlockTreeNode Secs → Nodes Secs → Nodes Secs
  insert_tree a nil = cons a nil
  insert_tree a (cons b bs) =
      let rest = insert_tree a bs in if precedes b a then cons b rest else cons a (cons b bs)

  -- `trees.sort_by(…)`, which is stable.
  unfoldable pub sort_trees : Nodes Secs → Nodes Secs
  unfolding insert_tree
  sort_trees nil = nil
  sort_trees (cons a bs) = insert_tree a (sort_trees bs)

  abbrev pub append_nodes : Nodes Secs → Nodes Secs → Nodes Secs
  append_nodes nil ms = ms
  append_nodes (cons n ns) ms = cons n (append_nodes ns ms)

  abbrev pub lock_pids : List (LockRow Secs) → List ℕ
  lock_pids locks = map (λ (l : LockRow Secs). l.pid) locks

  unfoldable pub maps_of :
      List (LockRow Secs) → List (ActivityRow Secs) → Option (List (IdleSessionRow Secs)) → Maps
  unfolding index_locks sorted_values collect_waiters add_activity add_idle
  maps_of locks activity idle = record {
    lock_by_pid = index_locks locks [];
    waiters_by_blocker = sorted_values (collect_waiters locks []);
    sessions = add_activity activity (add_idle (unwrap_or idle []) []);
  }

  -- `order` is the order in which the set of blockers is iterated.
  abbrev pub root_pids : (List ℕ → List ℕ) → Maps → List (LockRow Secs) → List ℕ
  root_pids order maps locks =
      filter (λ pid. not (contains pid (lock_pids locks))) (order (keys maps.waiters_by_blocker))

  abbrev pub fuel_for : List (LockRow Secs) → ℕ
  fuel_for locks = suc (suc (length locks))

  unfoldable pub build_blocking_tree :
      (List ℕ → List ℕ)
      → List (LockRow Secs)
      → List (ActivityRow Secs)
      → Option (List (IdleSessionRow Secs))
      → Option (Nodes Secs)
  unfolding maps_of
  build_blocking_tree order locks activity idle =
      let maps = maps_of locks activity idle in
      let fuel = fuel_for locks in
      let forest : Option (Nodes Secs) =
        elim (build_roots fuel maps (root_pids order maps locks) []) [
          | none ↦ none
          | some (trees, visited) ↦ elim (build_rest fuel maps (lock_pids locks) visited) [
            | none ↦ none
            | some (more, _) ↦ some (sort_trees (append_nodes trees more))
          ]
        ] in
      if is_empty locks then some nil else forest
