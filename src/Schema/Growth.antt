-- ===== src/Schema/Growth.antt =====
-- crates/pg_lens_core/src/schema_growth.rs. An oid is used as a key only, so it is held as a
-- number; a percentage is a floating-point number, whose arithmetic is a parameter.
pub mod Track
use pg_lens.Prelude.{
  ℕ, zero, suc, ◌+◌, ◌-◌, ◌*◌, max, Bool, true, false, not, Option, none, some, List, [], ◌∷◌, ◌++◌,
  length, take, drop, last?, find?, map, unwrap_or, nat_eq, ltb, leb, if◌then◌else◌, ℕ_eq,
}
use pg_lens.Prelude.Int.{ℤ, pos, negsuc, ◌-ℤ◌, unsigned_abs, leb_int}
use pg_lens.Prelude.Map
use pg_lens.Prelude.Map.{Assoc}

-- The `f32` operations of `growth` and `severity`.
pub record Float : Type 1 where
  pub F32 : Type 0
  -- `(bytes as f64 / oldest as f64 * 100.0) as f32`
  pub percent : ℤ → ℤ → F32
  -- `pct.abs() > limit`
  pub abs_above : F32 → ℕ → Bool

abbrev pub ring_cap : ℕ
ring_cap = 90

abbrev pub growth_deadband_bytes : ℕ
growth_deadband_bytes = 65536

abbrev pub warn_growth_pct : ℕ
warn_growth_pct = 10

abbrev pub bad_growth_pct : ℕ
bad_growth_pct = 25

abbrev pub severity_min_table_bytes : ℕ
severity_min_table_bytes = 10 * 1024 * 1024

pub record SizeSample : Type 0 where
  pub epoch_ms : ℕ
  pub total_bytes : ℤ

abbrev pub sample : ℕ → ℤ → SizeSample
sample now bytes = record { epoch_ms = now; total_bytes = bytes }

-- `TableGrowthRing`, by its samples
abbrev pub TableGrowthRing : Type 0
TableGrowthRing = List SizeSample

unfoldable pub push : TableGrowthRing → SizeSample → TableGrowthRing
push samples sample =
    let kept = if nat_eq (length samples) ring_cap then drop 1 samples else samples in
    kept ++ sample ∷ []

abbrev pub first : TableGrowthRing → Option SizeSample
first [] = none
first (s ∷ r) = some s

-- Which samples `growth` compares: the newest one, and the oldest one that is in the window, or
-- the oldest of all.
unfoldable pub endpoints : TableGrowthRing → ℕ → ℕ → Option (SizeSample × SizeSample)
endpoints samples now_epoch_ms lookback_ms =
    if ltb (length samples) 2 then none else elim (last? samples) [
      | none ↦ none
      | some newest ↦
          elim (find? (λ (s : SizeSample). leb (now_epoch_ms - lookback_ms) s.epoch_ms) samples) [
            | some oldest ↦ some (oldest, newest)
            | none ↦ elim (first samples) [ none ↦ none | some oldest ↦ some (oldest, newest) ]
          ]
    ]

-- The delta in bytes, with the deadband.
abbrev pub deadbanded : ℤ → ℤ
deadbanded raw = if ltb (unsigned_abs raw) growth_deadband_bytes then pos 0 else raw

module _ (float : Float) where
  open float use {F32}

  pub record GrowthDelta : Type 0 where
    pub bytes : ℤ
    pub pct : Option F32

  abbrev pub delta : SizeSample × SizeSample → Option GrowthDelta
  delta (oldest, newest) =
      let bytes = deadbanded (newest.total_bytes -ℤ oldest.total_bytes) in
      if nat_eq oldest.epoch_ms newest.epoch_ms
      then none
      else some (record {
        bytes = bytes;
        pct =
            if not (leb_int oldest.total_bytes (pos 0))
            then some (float.percent bytes oldest.total_bytes)
            else none;
      })

  unfoldable pub growth : TableGrowthRing → ℕ → ℕ → Option GrowthDelta
  unfolding endpoints
  growth ring now lookback = elim (endpoints ring now lookback) [ none ↦ none | some e ↦ delta e ]

  pub data Severity : Type 0 where
    warn : Severity
    bad : Severity

  unfoldable pub severity : ℤ → Option F32 → Option Severity
  severity total_bytes none = none
  severity total_bytes (some pct) =
      if not (leb_int (pos severity_min_table_bytes) total_bytes)
      then none
      else if float.abs_above pct bad_growth_pct
      then some bad
      else if float.abs_above pct warn_growth_pct
      then some warn
      else none

  -- The columns of a `TableStatRow` that the tracker reads and writes.
  pub record TableStatRow : Type 0 where
    pub oid : ℕ
    pub total_bytes : ℤ
    pub growth_1h_bytes : Option ℤ
    pub growth_1h_pct : Option F32

  pub record SchemaGrowthTracker : Type 0 where
    pub rings : Assoc ℕ TableGrowthRing
    pub max_tables : ℕ

  unfoldable pub new : ℕ → SchemaGrowthTracker
  new max_tables = record { rings = []; max_tables = max max_tables 1 }

  -- The loop of `update`, over the rows that are taken.
  unfoldable pub update_loop :
      List TableStatRow
      → ℕ
      → Assoc ℕ TableGrowthRing
      → Assoc ℕ TableGrowthRing
      → Assoc ℕ TableGrowthRing
  unfolding Map.get Map.remove Map.insert push
  update_loop [] now rings fresh = fresh
  update_loop (row ∷ rows) now rings fresh =
      let ring = unwrap_or (Map.get row.oid rings) [] in
      update_loop rows now (Map.remove row.oid rings)
        (Map.insert row.oid (push ring (sample now row.total_bytes)) fresh)

  unfoldable pub update : SchemaGrowthTracker → List TableStatRow → ℕ → SchemaGrowthTracker
  unfolding update_loop
  update t tables now = record t { rings = update_loop (take t.max_tables tables) now t.rings [] }

  abbrev pub map_option : {A B : Type 0} → (A → B) → Option A → Option B
  map_option f none = none
  map_option f (some a) = some (f a)

  abbrev pct_of : Option GrowthDelta → Option F32
  pct_of none = none
  pct_of (some d) = d.pct

  abbrev pub growth_of : Option TableGrowthRing → ℕ → ℕ → Option GrowthDelta
  unfolding growth
  growth_of none now lookback = none
  growth_of (some ring) now lookback = growth ring now lookback

  unfoldable pub apply_row : SchemaGrowthTracker → ℕ → ℕ → TableStatRow → TableStatRow
  unfolding Map.get growth_of
  apply_row t now lookback row =
      let d = growth_of (Map.get row.oid t.rings) now lookback in
      record row {
        growth_1h_bytes = map_option (λ (x : GrowthDelta). x.bytes) d;
        growth_1h_pct = pct_of d;
      }

  -- `apply`
  unfoldable pub apply : SchemaGrowthTracker → List TableStatRow → ℕ → ℕ → List TableStatRow
  unfolding apply_row
  apply t tables now lookback = map (apply_row t now lookback) tables
