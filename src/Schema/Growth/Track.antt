-- ===== src/Schema/Growth/Track.antt =====
-- The tracker holds what was collected last, within bounds.
use pg_lens.Prelude.{
  ℕ, suc, ◌+◌, ◌≤◌, ◌≡◌, refl, ap, ◌∙◌, inl, inr, Option, none, some, List, [], ◌∷◌, length, take,
  drop, find?, unwrap_or, nat_eq, nat_eq_iff, length-append, length-drop, length-take, Bool-cases,
  All, arith, ℕ_eq,
}
use pg_lens.Prelude.Map
use pg_lens.Prelude.Map.{Assoc, get-insert, get-remove, get-empty}
use pg_lens.Schema.Growth.{
  Float, SizeSample, sample, TableGrowthRing, ring_cap, push, TableStatRow, SchemaGrowthTracker,
  update_loop, update,
}

pub push-bound : (r : TableGrowthRing) (s : SizeSample) → length r ≤ 90 → length (push r s) ≤ 90
unfolding push
push-bound r s h = elim (Bool-cases (nat_eq (length r) ring_cap)) [
  | inl e ↦ rw e (omega (arith, h, length-append (drop 1 r) (s ∷ []), length-drop 1 r))
  | inr e ↦ rw e (let l = length-append r (s ∷ []) in ground (arith, h, l, e))
]

length-insert :
    (k : ℕ) (v : TableGrowthRing) (m : Assoc ℕ TableGrowthRing)
    → length (Map.insert k v m) ≤ suc (length m)
unfolding Map.insert
length-insert k v [] = omega arith
length-insert k v ((j, w) ∷ m) = ground (arith, length-insert k v m)

-- Every ring has at most as many samples as it has room for.
abbrev pub AllBounded : Assoc ℕ TableGrowthRing → Type 0
AllBounded = All (λ (e : ℕ × TableGrowthRing). length e.1 ≤ 90)

insert-AllBounded :
    (k : ℕ) (v : TableGrowthRing) (m : Assoc ℕ TableGrowthRing)
    → length v ≤ 90
    → AllBounded m
    → AllBounded (Map.insert k v m)
unfolding Map.insert
insert-AllBounded k v [] h a = (h, tt)
insert-AllBounded k v ((j, w) ∷ m) h a = elim (Bool-cases (nat_eq j k)) [
  | inl e ↦ rw e (h, a.1)
  | inr e ↦ rw e (a.0, insert-AllBounded k v m h a.1)
]

remove-AllBounded :
    (k : ℕ) (m : Assoc ℕ TableGrowthRing) → AllBounded m → AllBounded (Map.remove k m)
unfolding Map.remove
remove-AllBounded k [] a = tt
remove-AllBounded k ((j, w) ∷ m) a = elim (Bool-cases (nat_eq j k)) [
  | inl e ↦ rw e (remove-AllBounded k m a.1)
  | inr e ↦ rw e (a.0, remove-AllBounded k m a.1)
]

get-AllBounded :
    (k : ℕ) (m : Assoc ℕ TableGrowthRing) → AllBounded m → length (unwrap_or (Map.get k m) []) ≤ 90
unfolding Map.get
get-AllBounded k [] a = omega arith
get-AllBounded k ((j, w) ∷ m) a = elim (Bool-cases (nat_eq j k)) [
  | inl e ↦ rw e a.0
  | inr e ↦ rw e (get-AllBounded k m a.1)
]

module _ (float : Float) where
  update_loop-bounds :
      (rows : List (TableStatRow float)) (now : ℕ) (rings fresh : Assoc ℕ TableGrowthRing)
      → AllBounded rings
      → AllBounded fresh
      → AllBounded (update_loop float rows now rings fresh)
        × (length (update_loop float rows now rings fresh) ≤ length fresh + length rows)
  unfolding update_loop
  update_loop-bounds [] now rings fresh a b = (b, omega arith)
  update_loop-bounds (row ∷ rows) now rings fresh a b =
      let new_sample = sample now row.total_bytes in
      let ring = push (unwrap_or (Map.get row.oid rings) []) new_sample in
      let (c, l) =
        update_loop-bounds rows now (Map.remove row.oid rings) (Map.insert row.oid ring fresh)
          (remove-AllBounded row.oid rings a)
          (insert-AllBounded row.oid ring fresh
            (push-bound (unwrap_or (Map.get row.oid rings) []) new_sample
              (get-AllBounded row.oid rings a))
            b) in
      (c, omega (arith, l, length-insert row.oid ring fresh))

  -- The row of an oid, if it is among these.
  abbrev pub row_of : ℕ → List (TableStatRow float) → Option (TableStatRow float)
  row_of oid = find? (λ (r : TableStatRow float). nat_eq r.oid oid)

  abbrev pub AreDistinct : List (TableStatRow float) → Type 0
  AreDistinct [] = Unit
  AreDistinct (r ∷ rows) = (row_of r.oid rows ≡ none) × AreDistinct rows

  -- What an update makes of the ring of an oid.
  abbrev pub pushed :
      ℕ
      → Option TableGrowthRing
      → Option TableGrowthRing
      → Option (TableStatRow float)
      → Option TableGrowthRing
  unfolding push
  pushed now old other none = other
  pushed now old other (some row) = some (push (unwrap_or old []) (sample now row.total_bytes))

  update_loop-get :
      (rows : List (TableStatRow float)) (now : ℕ) (rings fresh : Assoc ℕ TableGrowthRing) (oid : ℕ)
      → AreDistinct rows
      → Map.get oid (update_loop float rows now rings fresh)
        ≡ pushed now (Map.get oid rings) (Map.get oid fresh) (row_of oid rows)
  unfolding update_loop pushed
  update_loop-get [] now rings fresh oid d = refl
  update_loop-get (row ∷ rows) now rings fresh oid d =
      let new_sample = sample now row.total_bytes in
      let ring = push (unwrap_or (Map.get row.oid rings) []) new_sample in
      let rest =
        update_loop-get rows now (Map.remove row.oid rings) (Map.insert row.oid ring fresh) oid
          d.1 in
      elim (Bool-cases (nat_eq row.oid oid)) [
        | inl e ↦
            let same = (nat_eq_iff row.oid oid).0 e in
            let gone = rw same at d.0 in
            rest
            ∙ rw (gone, get-insert oid row.oid ring fresh, e)
                (ap (λ k. some (push (unwrap_or (Map.get k rings) []) new_sample)) same)
        | inr e ↦
            rest ∙ rw (get-remove oid row.oid rings, get-insert oid row.oid ring fresh, e) refl
      ]

  -- A tracker as the poller keeps it.
  abbrev pub IsTracker : SchemaGrowthTracker float → Type 0
  IsTracker t = (1 ≤ t.max_tables) × AllBounded t.rings × (length t.rings ≤ t.max_tables)

  -- A collection of tables with distinct oids: for each of the first `max_tables` of them the
  -- tracker has its old ring, or an empty one, with the new size at the end; for no other oid it
  -- has a ring; and there are never more rings than `max_tables`, nor more than 90 sizes in one.
  pub update_exact :
      (t : SchemaGrowthTracker float) (tables : List (TableStatRow float)) (now oid : ℕ)
      → IsTracker t
      → AreDistinct (take t.max_tables tables)
      → (Map.get oid (update float t tables now).rings
          ≡ pushed now (Map.get oid t.rings) none (row_of oid (take t.max_tables tables)))
        × IsTracker (update float t tables now)
  unfolding update
  update_exact t tables now oid (room, bounded, few) d =
      let rows = take t.max_tables tables in
      let (b, l) = update_loop-bounds rows now t.rings [] bounded tt in
      (
        update_loop-get rows now t.rings [] oid d
            ∙ ap (λ o. pushed now (Map.get oid t.rings) o (row_of oid rows)) (get-empty oid),
        (room, b, omega (arith, l, length-take t.max_tables tables)),
      )
