-- ===== src/Sessions/Tree/Sorted.antt =====
-- Joining and sorting trees, in blocks.rs, keeps what holds of them.
use pg_lens.Prelude.{ℕ, ◌≡◌, refl, ◌∙◌, ◌||◌, List, [], ◌++◌, arith, if-both}
use pg_lens.Sessions.Blocking.{contains}
use pg_lens.Sessions.Tree.Node.{
  Durations, BlockTreeNode, Nodes, nil, cons, NodeInfo, info_of, node_pids, forest_pids,
}
use pg_lens.Sessions.Tree.{Maps, insert_tree, sort_trees, append_nodes}
use pg_lens.Sessions.Tree.Exact.{Tops, IsForest, IsTree, contains-append}

module _ (durations : Durations) where
  open durations use {Secs}

  module _ (maps : Maps durations) where
    abbrev Forest : List ℕ → Nodes Secs → Type 0
    Forest = IsForest durations maps

    pub append-IsForest :
        (ns ms : Nodes Secs)
        → Forest [] ns
        → Forest [] ms
        → Forest [] (append_nodes durations ns ms)
    append-IsForest nil ms h k = k
    append-IsForest (cons n ns) ms h k = (h.0, append-IsForest ns ms h.1 k)

    pub insert-IsForest :
        (n : BlockTreeNode Secs) (ns : Nodes Secs)
        → IsTree durations maps [] n
        → Forest [] ns
        → Forest [] (insert_tree durations n ns)
    unfolding insert_tree
    insert-IsForest n nil h k = (h, tt)
    insert-IsForest n (cons m ns) h k =
        if-both (Forest []) _ {x = cons m (insert_tree durations n ns)} {y = cons n (cons m ns)}
          (k.0, insert-IsForest n ns h k.1) (h, k)

    pub sort-IsForest : (ns : Nodes Secs) → Forest [] ns → Forest [] (sort_trees durations ns)
    unfolding sort_trees
    sort-IsForest nil h = tt
    sort-IsForest (cons n ns) h =
        insert-IsForest n (sort_trees durations ns) h.0 (sort-IsForest ns h.1)

  module _ (P : NodeInfo Secs → Type 0) where
    pub append-Tops :
        (ns ms : Nodes Secs) → Tops P ns → Tops P ms → Tops P (append_nodes durations ns ms)
    append-Tops nil ms h k = k
    append-Tops (cons n ns) ms h k = (h.0, append-Tops ns ms h.1 k)

    pub insert-Tops :
        (n : BlockTreeNode Secs) (ns : Nodes Secs)
        → P (info_of n)
        → Tops P ns
        → Tops P (insert_tree durations n ns)
    unfolding insert_tree
    insert-Tops n nil h k = (h, tt)
    insert-Tops n (cons m ns) h k =
        if-both (Tops P) _ {x = cons m (insert_tree durations n ns)} {y = cons n (cons m ns)}
          (k.0, insert-Tops n ns h k.1) (h, k)

    pub sort-Tops : (ns : Nodes Secs) → Tops P ns → Tops P (sort_trees durations ns)
    unfolding sort_trees
    sort-Tops nil h = tt
    sort-Tops (cons n ns) h = insert-Tops n (sort_trees durations ns) h.0 (sort-Tops ns h.1)

  pub contains-append_nodes :
      (x : ℕ) (ns ms : Nodes Secs)
      → contains x (forest_pids (append_nodes durations ns ms))
        ≡ (contains x (forest_pids ns) || contains x (forest_pids ms))
  contains-append_nodes x nil ms = refl
  contains-append_nodes x (cons n ns) ms = ground (
    arith,
    contains-append x (node_pids n) (forest_pids (append_nodes durations ns ms)),
    contains-append x (node_pids n) (forest_pids ns),
    contains-append_nodes x ns ms,
  )

  pub contains-insert_tree :
      (x : ℕ) (n : BlockTreeNode Secs) (ns : Nodes Secs)
      → contains x (forest_pids (insert_tree durations n ns)) ≡ contains x (forest_pids (cons n ns))
  unfolding insert_tree
  contains-insert_tree x n nil = refl
  contains-insert_tree x n (cons m ns) =
      if-both (λ t. contains x (forest_pids t) ≡ contains x (forest_pids (cons n (cons m ns)))) _
        {x = cons m (insert_tree durations n ns)} {y = cons n (cons m ns)}
        (ground (
          arith,
          contains-append x (node_pids m) (forest_pids (insert_tree durations n ns)),
          contains-append x (node_pids n) (node_pids m ++ forest_pids ns),
          contains-append x (node_pids n) (forest_pids ns),
          contains-append x (node_pids m) (forest_pids ns),
          contains-insert_tree x n ns,
        ))
        refl

  pub contains-sort_trees :
      (x : ℕ) (ns : Nodes Secs)
      → contains x (forest_pids (sort_trees durations ns)) ≡ contains x (forest_pids ns)
  unfolding sort_trees
  contains-sort_trees x nil = refl
  contains-sort_trees x (cons n ns) =
      contains-insert_tree x n (sort_trees durations ns)
      ∙ ground (
        arith,
        contains-append x (node_pids n) (forest_pids (sort_trees durations ns)),
        contains-append x (node_pids n) (forest_pids ns),
        contains-sort_trees x ns,
      )
