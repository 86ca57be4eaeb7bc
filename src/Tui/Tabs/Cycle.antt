-- ===== src/Tui/Tabs/Cycle.antt =====
-- The tabs are a cycle of nine, numbered in its order.
use pg_lens.Prelude.{ℕ, ◌+◌, ◌%◌, ◌≡◌, refl, ◌↔◌, some, is_some, ltb, arith}
use pg_lens.Tui.Tabs.{
  Tab, macro_lens, micro_lens, blocks_lens, replication_lens, schema_lens, index_lens, query_lens,
  progress_lens, records_lens, index, from_index, next, prev,
}

found-index : (t : Tab) → from_index (index t) ≡ some t
unfolding from_index index
found-index macro_lens = refl
found-index micro_lens = refl
found-index blocks_lens = refl
found-index replication_lens = refl
found-index schema_lens = refl
found-index index_lens = refl
found-index query_lens = refl
found-index progress_lens = refl
found-index records_lens = refl

found-below : (n : ℕ) → is_some (from_index n) ≡ ltb n 9
unfolding from_index
found-below n = ground arith

index-found : (t : Tab) (n : ℕ) → from_index n ≡ some t → n ≡ index t
unfolding from_index index
index-found macro_lens n h = ground (arith, h)
index-found micro_lens n h = ground (arith, h)
index-found blocks_lens n h = ground (arith, h)
index-found replication_lens n h = ground (arith, h)
index-found schema_lens n h = ground (arith, h)
index-found index_lens n h = ground (arith, h)
index-found query_lens n h = ground (arith, h)
index-found progress_lens n h = ground (arith, h)
index-found records_lens n h = ground (arith, h)

-- `from_index` is the inverse of `index`: a tab is found again from its number, a number has a tab
-- exactly if it is below 9, and the tab it has carries it.
pub from_index-index :
    (t : Tab) (n : ℕ)
    → (from_index (index t) ≡ some t)
      × (is_some (from_index n) ≡ ltb n 9)
      × ((from_index n ≡ some t) ↔ (n ≡ index t))
unfolding from_index index
from_index-index t n =
    (found-index t, found-below n, (λ h. index-found t n h, λ e. rw e (found-index t)))

-- `next` and `prev` undo each other, and go up and down by one in the numbering, modulo 9.
pub next-prev :
    (t : Tab)
    → (prev (next t) ≡ t)
      × (next (prev t) ≡ t)
      × (index (next t) ≡ (index t + 1) % 9)
      × (index (prev t) ≡ (index t + 8) % 9)
unfolding next prev index
next-prev macro_lens = (refl, refl, refl, refl)
next-prev micro_lens = (refl, refl, refl, refl)
next-prev blocks_lens = (refl, refl, refl, refl)
next-prev replication_lens = (refl, refl, refl, refl)
next-prev schema_lens = (refl, refl, refl, refl)
next-prev index_lens = (refl, refl, refl, refl)
next-prev query_lens = (refl, refl, refl, refl)
next-prev progress_lens = (refl, refl, refl, refl)
next-prev records_lens = (refl, refl, refl, refl)
