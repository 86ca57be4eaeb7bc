-- ===== src/Sessions/Tests.antt =====
-- Concrete locks for the theorems on the blocking chain.
use pg_lens.Prelude.{◌≡◌, refl, true, false, some, List, [], ◌∷◌, is_some}
use pg_lens.Prelude.Map
use pg_lens.Sessions.Blocking.{LockRow, BlockingChain, collect, blocking_chain}
use pg_lens.Sessions.Blocking.Fuel.{blocking_chain-total}
use pg_lens.Sessions.Blocking.Chain.{IsChain, blocking_chain-IsChain}

-- 1 waits for 2, and 2 and 3 for each other.
abbrev knot : List LockRow
knot =
    record { pid = 1; blocked_by = 2 ∷ [] }
    ∷ record { pid = 2; blocked_by = 3 ∷ 1 ∷ [] }
    ∷ record { pid = 3; blocked_by = 2 ∷ [] }
    ∷ []

abbrev from_one : BlockingChain
from_one = record { chain = 1 ∷ 2 ∷ 3 ∷ 2 ∷ []; deadlock = true }

from_one_is_found : blocking_chain 1 knot ≡ some from_one
unfolding blocking_chain Map.get collect
from_one_is_found = refl

blocking_chain-IsChain_example : IsChain (collect [] knot) 1 from_one
blocking_chain-IsChain_example = blocking_chain-IsChain 1 knot from_one from_one_is_found

blocking_chain-total_example : is_some (blocking_chain 9 knot) ≡ false
unfolding Map.get collect
blocking_chain-total_example = blocking_chain-total 9 knot
