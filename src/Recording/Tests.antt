-- ===== src/Recording/Tests.antt =====
-- Three recordings, of which one is being written.
use pg_lens.Prelude.{ℕ, ◌≡◌, refl, ◌≤◌, ◌+◌, Bool, true, false, none, some, List, [], ◌∷◌}
use pg_lens.Prelude.Text.{codes}
use pg_lens.Recording.Prune.{RecordingEntry, prune_recordings}
use pg_lens.Recording.Prune.Safe.{IsHonest, prune-IsHonest, prune-quota}

abbrev entry : ℕ → ℕ → Bool → RecordingEntry
entry started size active = record {
  path = codes "rec";
  size_bytes = size;
  started_at_secs = some started;
  is_active = active;
}

abbrev entries : List RecordingEntry
entries = entry 900000 70 true ∷ entry 800000 60 false ∷ entry 700000 50 false ∷ []

abbrev deletable : RecordingEntry → Bool
deletable e = true

always : (e : RecordingEntry) → deletable e ≡ true
always e = refl

-- The older one goes, and the active one is not counted.
one_goes : (prune_recordings deletable (some 60) none 900000 entries).bytes_freed ≡ 50
unfolding prune_recordings
one_goes = refl

prune-IsHonest_example :
    IsHonest deletable (prune_recordings deletable (some 60) (some 1) 900000 entries)
prune-IsHonest_example = prune-IsHonest deletable (some 60) (some 1) 900000 entries

prune-quota_example :
    110 ≤ 60 + (prune_recordings deletable (some 60) none 900000 entries).bytes_freed
prune-quota_example = prune-quota deletable always 60 none 900000 entries
