-- ===== src/Recording/Prune.antt =====
-- `prune_recordings` of crates/pg_lens_core/src/recording.rs, from the entries that
-- `list_recordings` returned on. Whether a file can be removed is a parameter; the files that were
-- removed are part of the result.
pub mod Safe
use pg_lens.Prelude.{
  ℕ, suc, ◌+◌, ◌-◌, ◌*◌, ◌%◌, ◌^◌, Bool, true, false, not, ◌&&◌, Option, none, some, List, [], ◌∷◌,
  ◌++◌, filter, is_some, unwrap_or, ltb, leb, if◌then◌else◌,
}
use pg_lens.Prelude.Text.{Text}

-- The fields of a `RecordingEntry` that it reads.
pub record RecordingEntry : Type 0 where
  pub path : Text
  pub size_bytes : ℕ
  pub started_at_secs : Option ℕ
  pub is_active : Bool

pub record PruneResult : Type 0 where
  pub files_deleted : ℕ
  pub bytes_freed : ℕ
  pub removed : List RecordingEntry

abbrev pub nothing_pruned : PruneResult
nothing_pruned = record { files_deleted = 0; bytes_freed = 0; removed = [] }

abbrev pub key : RecordingEntry → ℕ
key e = unwrap_or e.started_at_secs 0

unfoldable pub insert_by_key : RecordingEntry → List RecordingEntry → List RecordingEntry
insert_by_key e [] = e ∷ []
insert_by_key e (f ∷ fs) =
    let rest = insert_by_key e fs in if leb (key e) (key f) then e ∷ f ∷ fs else f ∷ rest

-- `candidates.sort_by_key(|e| e.started_at_secs.unwrap_or(0))`, a stable sort
unfoldable pub sort_by_key : List RecordingEntry → List RecordingEntry
unfolding insert_by_key
sort_by_key [] = []
sort_by_key (e ∷ es) = insert_by_key e (sort_by_key es)

unfoldable pub count_removed : PruneResult → RecordingEntry → PruneResult
count_removed r e = record {
  files_deleted = r.files_deleted + 1;
  bytes_freed = r.bytes_freed + e.size_bytes;
  removed = r.removed ++ e ∷ [];
}

abbrev is_older : Option ℕ → ℕ → ℕ → Bool
is_older none now max_age = false
is_older (some started) now max_age = ltb max_age (now - started)

-- The test of phase 1; the product is that of a `u64`, which wraps around in a release build.
abbrev pub too_old : ℕ → ℕ → RecordingEntry → Bool
too_old now days e = is_older e.started_at_secs now ((days * 86400) % (2 ^ 64))

-- `candidates.iter().map(|e| e.size_bytes).sum()`
abbrev pub total_size : List RecordingEntry → ℕ
total_size [] = 0
total_size (e ∷ es) = e.size_bytes + total_size es

module _ (can_delete : RecordingEntry → Bool) where
  abbrev pub try_remove : RecordingEntry → PruneResult → PruneResult
  unfolding count_removed
  try_remove e r = if can_delete e then count_removed r e else r

  -- Phase 1: the result, and the entries that remain.
  unfoldable pub prune_by_age :
      ℕ → ℕ → List RecordingEntry → PruneResult → PruneResult × List RecordingEntry
  unfolding try_remove
  prune_by_age now days [] r = (r, [])
  prune_by_age now days (e ∷ es) r =
      let gone = prune_by_age now days es (try_remove e r) in
      let kept = prune_by_age now days es r in
      if too_old now days e then gone else (kept.0, e ∷ kept.1)

  -- Phase 2.
  unfoldable pub prune_by_size : ℕ → ℕ → List RecordingEntry → PruneResult → PruneResult
  unfolding try_remove
  prune_by_size max_bytes total [] r = r
  prune_by_size max_bytes total (e ∷ es) r =
      let removed = prune_by_size max_bytes (total - e.size_bytes) es (try_remove e r) in
      let left = prune_by_size max_bytes total es r in
      if leb total max_bytes then r else if can_delete e then removed else left

  abbrev pub phase_one : Option ℕ → ℕ → List RecordingEntry → PruneResult × List RecordingEntry
  unfolding prune_by_age
  phase_one none now es = (nothing_pruned, es)
  phase_one (some days) now es = prune_by_age now days es nothing_pruned

  abbrev pub phase_two : Option ℕ → List RecordingEntry → PruneResult → PruneResult
  unfolding prune_by_size
  phase_two none es r = r
  phase_two (some max_bytes) es r = prune_by_size max_bytes (total_size es) es r

  unfoldable pub prune_recordings : Option ℕ → Option ℕ → ℕ → List RecordingEntry → PruneResult
  unfolding sort_by_key phase_one phase_two
  prune_recordings max_total_bytes retention_days now entries =
      let candidates = sort_by_key (filter (λ (e : RecordingEntry). not e.is_active) entries) in
      let aged = phase_one retention_days now candidates in
      if not (is_some max_total_bytes) && not (is_some retention_days)
      then nothing_pruned
      else phase_two max_total_bytes aged.1 aged.0
