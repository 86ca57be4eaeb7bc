-- ===== src/Sessions/Tree/Rest.antt =====
-- The second loop of `build_blocking_tree` in blocks.rs: what is still to be visited.
use pg_lens.Prelude.{
  ℕ, ◌<◌, ◌≡◌, refl, ap, ◌∙◌, inl, inr, true, Option, none, some, List, [], ◌∷◌, All, arith,
  if◌then◌else◌, Bool-cases, nat_eq_iff,
}
use pg_lens.Sessions.Blocking.{contains}
use pg_lens.Sessions.Tree.Node.{
  Durations, BlockTreeNode, Nodes, node, nil, cons, pid_of, info_of, forest_pids,
}
use pg_lens.Sessions.Tree.{Maps, waiters, Built, build_children, build_node, push_node}
use pg_lens.Sessions.Tree.Exact.{
  Tops, Marked, Adds, IsForest, IsTree, IsBuilt, NodeOk, built_pids, left, node-IsBuilt, Adds-push,
}

module _ (durations : Durations) where
  open durations use {Secs}

  module _ (maps : Maps durations) (u : List ℕ) where
    -- A tree of the second loop, whose root is one of the pids `u`.
    abbrev pub RootOk : Option (BlockTreeNode Secs) → Type 0
    RootOk none = Unit
    RootOk (some n) =
        IsTree durations maps [] n
        × (contains (pid_of n) u ≡ true)
        × ((info_of n).is_root ≡ true)
        × ((info_of n).is_deadlock ≡ true)

    -- What a round of the second loop returns: the pid has been visited.
    pub record IsRound (c : ℕ) (v : List ℕ) (result : Option (Built durations)) : Type 0 where
      made : Option (BlockTreeNode Secs)
      visited : List ℕ
      returned : result ≡ some (made, visited)
      fine : RootOk made
      adds : Adds v (built_pids durations maps made) visited
      covered : contains c visited ≡ true

    -- What the second loop returns: all pids have been visited.
    pub record Rest (cs v : List ℕ) (result : Option (Nodes Secs × List ℕ)) : Type 0 where
      pub nodes : Nodes Secs
      pub visited : List ℕ
      pub returned : result ≡ some (nodes, visited)
      pub forest : IsForest durations maps [] nodes
      pub tops : Tops (λ i. contains i.pid u ≡ true) nodes
      pub marks : Marked true true nodes
      pub adds : Adds v (forest_pids nodes) visited
      pub covers : All (λ c. contains c visited ≡ true) cs

    push-Rest :
        (c : ℕ) (cs v : List ℕ) (build : ℕ → List ℕ → Option (Built durations))
        (first : IsRound c v (build c v))
        (rest : Rest cs first.visited (build_children durations build cs first.visited))
        (o : Option (BlockTreeNode Secs))
        → first.made ≡ o
        → RootOk o
        → Adds v (built_pids durations maps o) first.visited
        → Rest (c ∷ cs) v (build_children durations build (c ∷ cs) v)
    unfolding build_children
    push-Rest c cs v build first rest none e ok a = record {
      nodes = rest.nodes;
      visited = rest.visited;
      returned =
          rw (build_children, first.returned, rest.returned)
            (ap (λ o. some (push_node durations o rest.nodes, rest.visited)) e);
      forest = rest.forest;
      tops = rest.tops;
      marks = rest.marks;
      adds = Adds-push durations maps v first.visited rest.visited none rest.nodes a rest.adds;
      covers = (ground (arith, first.covered, rest.adds c), rest.covers);
    }
    push-Rest c cs v build first rest (some n) e ok a = record {
      nodes = cons n rest.nodes;
      visited = rest.visited;
      returned =
          rw (build_children, first.returned, rest.returned)
            (ap (λ o. some (push_node durations o rest.nodes, rest.visited)) e);
      forest = (ok.0, rest.forest);
      tops = (ok.1, rest.tops);
      marks = ((ok.2, ok.3), rest.marks);
      adds = Adds-push durations maps v first.visited rest.visited (some n) rest.nodes a rest.adds;
      covers = (ground (arith, first.covered, rest.adds c), rest.covers);
    }

    pub children-Rest :
        (cs v : List ℕ) (build : ℕ → List ℕ → Option (Built durations))
        → ((c : ℕ) (v : List ℕ) → contains c u ≡ true → IsRound c v (build c v))
        → All (λ c. contains c u ≡ true) cs
        → Rest cs v (build_children durations build cs v)
    unfolding build_children
    children-Rest [] v build each inside = record {
      nodes = nil;
      visited = v;
      returned = refl;
      forest = tt;
      tops = tt;
      marks = tt;
      adds = λ x. ground arith;
      covers = tt;
    }
    children-Rest (c ∷ cs) v build each inside =
        let first = each c v inside.0 in
        push-Rest c cs v build first (children-Rest cs first.visited build each inside.1) first.made
          refl first.fine first.adds

    module _ (known : (p : ℕ) → All (λ c. contains c u ≡ true) (waiters durations maps p)) where
      pub node-IsRound :
          (c : ℕ) (v : List ℕ) (result : Option (Built durations))
          → contains c u ≡ true
          → (b : IsBuilt durations maps [] c true true v result) → (o : Option (BlockTreeNode Secs))
          → b.made ≡ o
          → NodeOk durations maps [] c true true o
          → Adds v (built_pids durations maps o) b.visited
          → IsRound c v result
      node-IsRound c v result inside b none e ok a = absurd (cc (ok))
      node-IsRound c v result inside b (some (node i ns)) e ok a = record {
        made = some (node i ns);
        visited = b.visited;
        returned = b.returned ∙ ap (λ t. some (t, b.visited)) e;
        fine = (ok.0, rw ok.2 inside, ok.3, ok.4);
        adds = a;
        covered = ground (arith, a c, ok.2, nat_eq_iff i.pid c);
      }

      pub round :
          (fuel : ℕ)
          → left u [] < fuel
          → (c : ℕ) (v : List ℕ) → contains c u ≡ true
          → IsRound c v (
              let built = build_node durations fuel maps c true true [] v in
              if contains c v then some (none, v) else built)
      round fuel h c v inside = elim (Bool-cases (contains c v)) [
        | inl seen ↦ record {
          made = none;
          visited = v;
          returned = rw seen refl;
          fine = tt;
          adds = λ x. ground arith;
          covered = seen;
        }
        | inr new ↦
            let b = node-IsBuilt durations maps u known fuel c true true [] v (rw inside h) in
            rw new (node-IsRound c v _ inside b b.made refl b.fine b.adds)
      ]
