-- ===== src/Sessions/Tree/Node.antt =====
-- The data of crates/pg_lens_core/src/blocks.rs, and the columns that it reads of the rows of
-- crates/pg_lens_core/src/models.rs.
use pg_lens.Prelude.{ℕ, Bool, Option, List, [], ◌∷◌, ◌++◌}
use pg_lens.Prelude.Text.{Text}

-- `f64`, with its zero and its `>`.
pub record Durations : Type 1 where
  pub Secs : Type 0
  pub no_secs : Secs
  pub longer : Secs → Secs → Bool

pub record SessionInfo (Secs : Type 0) : Type 0 where
  pub usename : Text
  pub application_name : Text
  pub state : Text
  pub query : Text
  pub duration_secs : Secs
  pub xact_age_secs : Option Secs
  pub wait_event : Option Text

pub record ActivityRow (Secs : Type 0) : Type 0 where
  pub pid : ℕ
  pub username : Text
  pub application_name : Text
  pub state : Text
  pub query : Text
  pub duration_secs : Secs
  pub xact_age_secs : Option Secs
  pub wait_event : Option Text

pub record IdleSessionRow (Secs : Type 0) : Type 0 where
  pub pid : ℕ
  pub username : Text
  pub application_name : Text
  pub idle_age_secs : Secs

pub record LockRow (Secs : Type 0) : Type 0 where
  pub pid : ℕ
  pub blocked_by : List ℕ
  pub mode : Option Text
  pub locktype : Option Text
  pub relation : Option Text
  pub duration_secs : Secs
  pub query : Text

-- The fields of `BlockTreeNode` but for its children.
pub record NodeInfo (Secs : Type 0) : Type 0 where
  pub pid : ℕ
  pub is_root : Bool
  pub is_deadlock : Bool
  pub usename : Text
  pub application_name : Text
  pub state : Text
  pub query : Text
  pub duration_secs : Secs
  pub xact_age_secs : Option Secs
  pub wait_event : Option Text
  pub mode : Option Text
  pub locktype : Option Text
  pub relation : Option Text
  pub blocked_by : List ℕ
  pub num_descendants : ℕ
  pub max_descendant_duration : Secs

mutual
  pub data BlockTreeNode (Secs : Type 0) : Type 0 where
    node : NodeInfo Secs → Nodes Secs → BlockTreeNode Secs

  pub data Nodes (Secs : Type 0) : Type 0 where
    nil : Nodes Secs
    cons : BlockTreeNode Secs → Nodes Secs → Nodes Secs

abbrev pub info_of : {Secs : Type 0} → BlockTreeNode Secs → NodeInfo Secs
info_of (node i ns) = i

abbrev pub pid_of : {Secs : Type 0} → BlockTreeNode Secs → ℕ
pid_of n = (info_of n).pid

abbrev mutual
  pub node_pids : {Secs : Type 0} → BlockTreeNode Secs → List ℕ
  node_pids (node i ns) = i.pid ∷ forest_pids ns

  pub forest_pids : {Secs : Type 0} → Nodes Secs → List ℕ
  forest_pids nil = []
  forest_pids (cons n ns) = node_pids n ++ forest_pids ns
