-- ===== src/Sessions/Tree/Exact.antt =====
-- What `build_node` of blocks.rs returns, and that it ends: whatever the rows are, and also where
-- sessions wait in a cycle.
use pg_lens.Prelude.{
  ℕ, zero, suc, ◌+◌, ◌≤◌, ◌<◌, ◌≡◌, refl, Bool, true, false, not, ◌||◌, Option, none, some, List,
  [], ◌∷◌, ◌++◌, All, arith, filter, length, nat_eq, nat_eq_iff, if◌then◌else◌, Bool-cases, inl,
  inr,
}
use pg_lens.Sessions.Blocking.{contains}
use pg_lens.Sessions.Tree.Node.{
  Durations, BlockTreeNode, Nodes, node, nil, cons, NodeInfo, pid_of, info_of, node_pids,
  forest_pids,
}
use pg_lens.Sessions.Tree.{
  Maps, waiters, count_descendants, make_node, Built, push_node, build_children, build_node,
}

-- The pids at the roots of a forest, and the number of its nodes.
abbrev pub top_pids : {Secs : Type 0} → Nodes Secs → List ℕ
top_pids nil = []
top_pids (cons n ns) = pid_of n ∷ top_pids ns

abbrev mutual
  pub size_node : {Secs : Type 0} → BlockTreeNode Secs → ℕ
  size_node (node i ns) = suc (size ns)

  pub size : {Secs : Type 0} → Nodes Secs → ℕ
  size nil = 0
  size (cons n ns) = size_node n + size ns

abbrev pub outside : List ℕ → List ℕ → List ℕ
outside path = filter (λ c. not (contains c path))

-- The entries of `u` that are not on the path.
abbrev pub left : List ℕ → List ℕ → ℕ
left [] path = 0
left (x ∷ u) path = (if contains x path then 0 else 1) + left u path

left-le : (u path : List ℕ) (x : ℕ) → left u (x ∷ path) ≤ left u path
left-le [] path x = omega arith
left-le (y ∷ u) path x = ground (arith, left-le u path x)

left-lt :
    (u path : List ℕ) (x : ℕ)
    → contains x u ≡ true
    → contains x path ≡ false
    → left u (x ∷ path) < left u path
left-lt [] path x h n = cc
left-lt (y ∷ u) path x h n = elim (Bool-cases (nat_eq y x)) [
  | inl e ↦ let same = (nat_eq_iff y x).0 e in rw same (ground (arith, left-le u path x, n))
  | inr e ↦ ground (arith, e, left-lt u path x (ground (arith, e, h)) n)
]

pub left-length : (u path : List ℕ) → left u path ≤ length u
left-length [] path = omega arith
left-length (x ∷ u) path = ground (arith, left-length u path)

-- The set `v'` is `v` with `pids` added.
abbrev pub Adds : List ℕ → List ℕ → List ℕ → Type 0
Adds v pids v' = (x : ℕ) → contains x v' ≡ (contains x v || contains x pids)

pub contains-append :
    (x : ℕ) (xs ys : List ℕ) → contains x (xs ++ ys) ≡ (contains x xs || contains x ys)
contains-append x [] ys = refl
contains-append x (y ∷ xs) ys = ground (arith, contains-append x xs ys)

Adds-under : (pid : ℕ) (v pids v' : List ℕ) → Adds (pid ∷ v) pids v' → Adds v (pid ∷ pids) v'
Adds-under pid v pids v' h x = ground (arith, h x)

-- What holds of the roots of a forest.
abbrev pub Tops : {Secs : Type 0} → (NodeInfo Secs → Type 0) → Nodes Secs → Type 0
Tops P nil = Unit
Tops P (cons n ns) = P (info_of n) × Tops P ns

-- The marks of the roots of a forest.
abbrev pub Marked : {Secs : Type 0} → Bool → Bool → Nodes Secs → Type 0
Marked root deadlock = Tops (λ i. (i.is_root ≡ root) × (i.is_deadlock ≡ deadlock))

module _ (durations : Durations) (maps : Maps durations) where
  open durations use {Secs}

  -- Below a path: the node is not on it, its children are exactly the sessions that wait for it
  -- and are not above, it counts the nodes below it, and so for each child.
  abbrev mutual
    pub IsTree : List ℕ → BlockTreeNode Secs → Type 0
    IsTree path (node i ns) =
        (contains i.pid path ≡ false)
        × (top_pids ns ≡ outside (i.pid ∷ path) (waiters durations maps i.pid))
        × Marked false false ns
        × (i.num_descendants ≡ size ns)
        × IsForest (i.pid ∷ path) ns

    pub IsForest : List ℕ → Nodes Secs → Type 0
    IsForest path nil = Unit
    IsForest path (cons n ns) = IsTree path n × IsForest path ns

  count-size :
      (path : List ℕ) (ns : Nodes Secs)
      → IsForest path ns
      → count_descendants durations ns ≡ size ns
  unfolding count_descendants
  count-size path nil h = refl
  count-size path (cons (node i ms) ns) h = omega (arith, h.0.3, count-size path ns h.1)

  -- What a call returns for the session `pid`.
  abbrev pub NodeOk : List ℕ → ℕ → Bool → Bool → Option (BlockTreeNode Secs) → Type 0
  NodeOk path pid r d none = contains pid path ≡ true
  NodeOk path pid r d (some n) =
      IsTree path n
      × (contains pid path ≡ false)
      × (pid_of n ≡ pid)
      × ((info_of n).is_root ≡ r)
      × ((info_of n).is_deadlock ≡ d)

  abbrev pub built_pids : Option (BlockTreeNode Secs) → List ℕ
  built_pids none = []
  built_pids (some n) = node_pids n

  pub record IsBuilt (path : List ℕ) (pid : ℕ) (r d : Bool) (v : List ℕ)
      (result : Option (Built durations)) : Type 0 where
    pub made : Option (BlockTreeNode Secs)
    pub visited : List ℕ
    pub returned : result ≡ some (made, visited)
    pub fine : NodeOk path pid r d made
    pub adds : Adds v (built_pids made) visited

  pub record AreBuilt (path : List ℕ) (r d : Bool) (pids v : List ℕ)
      (result : Option (Nodes Secs × List ℕ)) : Type 0 where
    pub nodes : Nodes Secs
    pub visited : List ℕ
    pub returned : result ≡ some (nodes, visited)
    pub forest : IsForest path nodes
    pub tops : top_pids nodes ≡ outside path pids
    pub marks : Marked r d nodes
    pub adds : Adds v (forest_pids nodes) visited

  pub push-IsForest :
      (path : List ℕ) (c : ℕ) (r d : Bool) (o : Option (BlockTreeNode Secs)) (ns : Nodes Secs)
      → NodeOk path c r d o
      → IsForest path ns
      → IsForest path (push_node durations o ns)
  push-IsForest path c r d none ns ok h = h
  push-IsForest path c r d (some n) ns ok h = (ok.0, h)

  top_pids-push :
      (path : List ℕ) (c : ℕ) (cs : List ℕ) (r d : Bool) (o : Option (BlockTreeNode Secs))
      (ns : Nodes Secs)
      → NodeOk path c r d o
      → top_pids ns ≡ outside path cs
      → top_pids (push_node durations o ns) ≡ outside path (c ∷ cs)
  top_pids-push path c cs r d none ns ok h = rw ok h
  top_pids-push path c cs r d (some n) ns ok h = rw (ok.1, ok.2, h) refl

  pub push-Marked :
      (path : List ℕ) (c : ℕ) (r d : Bool) (o : Option (BlockTreeNode Secs)) (ns : Nodes Secs)
      → NodeOk path c r d o
      → Marked r d ns
      → Marked r d (push_node durations o ns)
  push-Marked path c r d none ns ok h = h
  push-Marked path c r d (some n) ns ok h = ((ok.3, ok.4), h)

  pub Adds-push :
      (v v' v'' : List ℕ) (o : Option (BlockTreeNode Secs)) (ns : Nodes Secs)
      → Adds v (built_pids o) v'
      → Adds v' (forest_pids ns) v''
      → Adds v (forest_pids (push_node durations o ns)) v''
  Adds-push v v' v'' none ns h k x = ground (arith, h x, k x)
  Adds-push v v' v'' (some n) ns h k x =
      ground (arith, h x, k x, contains-append x (node_pids n) (forest_pids ns))

  push-AreBuilt :
      (path : List ℕ) (c : ℕ) (cs v : List ℕ) (r d : Bool)
      (build : ℕ → List ℕ → Option (Built durations)) (first : IsBuilt path c r d v (build c v))
      → AreBuilt path r d cs first.visited (build_children durations build cs first.visited)
      → AreBuilt path r d (c ∷ cs) v (build_children durations build (c ∷ cs) v)
  unfolding build_children
  push-AreBuilt path c cs v r d build first rest = record {
    nodes = push_node durations first.made rest.nodes;
    visited = rest.visited;
    returned = rw (build_children, first.returned, rest.returned) refl;
    forest = push-IsForest path c r d first.made rest.nodes first.fine rest.forest;
    tops = top_pids-push path c cs r d first.made rest.nodes first.fine rest.tops;
    marks = push-Marked path c r d first.made rest.nodes first.fine rest.marks;
    adds = Adds-push v first.visited rest.visited first.made rest.nodes first.adds rest.adds;
  }

  -- The loop over the children, for any way to build one.
  pub children-AreBuilt :
      (path : List ℕ) (cs v : List ℕ) (build : ℕ → List ℕ → Option (Built durations)) (r d : Bool)
      (u : List ℕ)
      → ((c : ℕ) (v : List ℕ) → contains c u ≡ true → IsBuilt path c r d v (build c v))
      → All (λ c. contains c u ≡ true) cs
      → AreBuilt path r d cs v (build_children durations build cs v)
  unfolding build_children
  children-AreBuilt path [] v build r d u each inside = record {
    nodes = nil;
    visited = v;
    returned = refl;
    forest = tt;
    tops = refl;
    marks = tt;
    adds = λ x. ground arith;
  }
  children-AreBuilt path (c ∷ cs) v build r d u each inside =
      let first = each c v inside.0 in
      push-AreBuilt path c cs v r d build first
        (children-AreBuilt path cs first.visited build r d u each inside.1)

  -- With more fuel than there are sessions off the path, `build_node` returns.
  pub node-IsBuilt :
      (u : List ℕ) (known : (p : ℕ) → All (λ c. contains c u ≡ true) (waiters durations maps p))
      (fuel pid : ℕ) (r d : Bool) (path v : List ℕ)
      → (if contains pid u then left u path else suc (left u path)) < fuel
      → IsBuilt path pid r d v (build_node durations fuel maps pid r d path v)
  unfolding build_node
  node-IsBuilt u known zero pid r d path v h = absurd (omega (arith, h))
  node-IsBuilt u known (suc fuel) pid r d path v h = elim (Bool-cases (contains pid path)) [
    | inl on_path ↦ record {
      made = none;
      visited = v;
      returned = rw (build_node, on_path) refl;
      fine = on_path;
      adds = λ x. ground arith;
    }
    | inr off ↦
        let fewer : left u (pid ∷ path) < fuel =
          ground (arith, left-lt u path pid, left-le u path pid) in
        let below =
          children-AreBuilt (pid ∷ path) (waiters durations maps pid) (pid ∷ v)
            (λ c w. build_node durations fuel maps c false false (pid ∷ path) w) false false u
            (λ c w inside. node-IsBuilt u known fuel c false false (pid ∷ path) w (rw inside fewer))
            (known pid) in
        record {
          made = some (make_node durations maps pid r d below.nodes);
          visited = below.visited;
          returned = rw (build_node, off, below.returned) refl;
          fine = (
            (
              off,
              below.tops,
              below.marks,
              count-size (pid ∷ path) below.nodes below.forest,
              below.forest,
            ),
            off,
            refl,
            refl,
            refl,
          );
          adds = Adds-under pid v (forest_pids below.nodes) below.visited below.adds;
        }
  ]
