-- ===== src/Recording/Prune/Safe.antt =====
-- What pruning may remove, and when it stops.
use pg_lens.Prelude.{
  ℕ, ◌+◌, ◌-◌, ◌≤◌, ◌≡◌, refl, ap, ◌∙◌, inl, inr, Bool, true, false, not, ◌&&◌, Option, none, some,
  List, [], ◌∷◌, ◌++◌, length, filter, is_some, leb, if-both, if-each, Bool-cases, All,
  length-append, arith,
}
use pg_lens.Recording.Prune.{
  RecordingEntry, PruneResult, nothing_pruned, key, insert_by_key, sort_by_key, count_removed,
  too_old, try_remove, prune_by_age, prune_by_size, total_size, phase_one, phase_two,
  prune_recordings,
}

total_size-append :
    (es fs : List RecordingEntry) → total_size (es ++ fs) ≡ total_size es + total_size fs
total_size-append [] fs = omega arith
total_size-append (e ∷ es) fs = omega (arith, total_size-append es fs)

All-snoc :
    (P : RecordingEntry → Type 0) (es : List RecordingEntry) (e : RecordingEntry)
    → All P es
    → P e
    → All P (es ++ e ∷ [])
All-snoc P [] e a p = (p, tt)
All-snoc P (x ∷ es) e a p = (a.0, All-snoc P es e a.1 p)

module _ (can_delete : RecordingEntry → Bool) where
  -- An entry that may be removed: it is not being written, and the disk lets it go.
  abbrev pub IsPrunable : RecordingEntry → Type 0
  IsPrunable e = (e.is_active ≡ false) × (can_delete e ≡ true)

  -- A result that counts what was removed, and only what may be.
  abbrev pub IsHonest : PruneResult → Type 0
  IsHonest r =
      All IsPrunable r.removed
      × (r.files_deleted ≡ length r.removed)
      × (r.bytes_freed ≡ total_size r.removed)

  abbrev pub AreIdle : List RecordingEntry → Type 0
  AreIdle = All (λ (e : RecordingEntry). e.is_active ≡ false)

  nothing-IsHonest : IsHonest nothing_pruned
  nothing-IsHonest = (tt, refl, refl)

  insert-AreIdle :
      (e : RecordingEntry) (es : List RecordingEntry)
      → e.is_active ≡ false
      → AreIdle es
      → AreIdle (insert_by_key e es)
  unfolding insert_by_key
  insert-AreIdle e [] h a = (h, tt)
  insert-AreIdle e (f ∷ fs) h a =
      if-both AreIdle (leb (key e) (key f)) (h, a) (a.0, insert-AreIdle e fs h a.1)

  sort-AreIdle : (es : List RecordingEntry) → AreIdle es → AreIdle (sort_by_key es)
  unfolding sort_by_key
  sort-AreIdle [] a = tt
  sort-AreIdle (e ∷ es) a = insert-AreIdle e (sort_by_key es) a.0 (sort-AreIdle es a.1)

  filter-AreIdle :
      (es : List RecordingEntry) → AreIdle (filter (λ (e : RecordingEntry). not e.is_active) es)
  filter-AreIdle [] = tt
  filter-AreIdle (e ∷ es) =
      if-each AreIdle (not e.is_active) (λ h. (ground (arith, h), filter-AreIdle es))
        (λ _. filter-AreIdle es)

  try_remove-IsHonest :
      (e : RecordingEntry) (r : PruneResult)
      → e.is_active ≡ false
      → IsHonest r
      → IsHonest (try_remove can_delete e r)
  unfolding try_remove count_removed
  try_remove-IsHonest e r idle h =
      if-each IsHonest (can_delete e)
        (λ d. (
          All-snoc IsPrunable r.removed e h.0 (idle, d),
          omega (arith, h.1, length-append r.removed (e ∷ [])),
          omega (arith, h.2, total_size-append r.removed (e ∷ [])),
        ))
        (λ _. h)

  prune_by_age-IsHonest :
      (now days : ℕ) (es : List RecordingEntry) (r : PruneResult)
      → AreIdle es
      → IsHonest r
      → IsHonest (prune_by_age can_delete now days es r).0
        × AreIdle (prune_by_age can_delete now days es r).1
  unfolding prune_by_age
  prune_by_age-IsHonest now days [] r a h = (h, tt)
  prune_by_age-IsHonest now days (e ∷ es) r a h =
      let gone =
        prune_by_age-IsHonest now days es (try_remove can_delete e r) a.1
          (try_remove-IsHonest e r a.0 h) in
      let kept = prune_by_age-IsHonest now days es r a.1 h in
      if-both (λ (x : PruneResult × List RecordingEntry). IsHonest x.0 × AreIdle x.1)
        (too_old now days e) gone (kept.0, (a.0, kept.1))

  prune_by_size-IsHonest :
      (max_bytes total : ℕ) (es : List RecordingEntry) (r : PruneResult)
      → AreIdle es
      → IsHonest r
      → IsHonest (prune_by_size can_delete max_bytes total es r)
  unfolding prune_by_size
  prune_by_size-IsHonest max_bytes total [] r a h = h
  prune_by_size-IsHonest max_bytes total (e ∷ es) r a h = if-both IsHonest (leb total max_bytes) h (
      if-both IsHonest (can_delete e)
        (prune_by_size-IsHonest max_bytes (total - e.size_bytes) es (try_remove can_delete e r) a.1
          (try_remove-IsHonest e r a.0 h))
        (prune_by_size-IsHonest max_bytes total es r a.1 h))

  phase_one-IsHonest :
      (days : Option ℕ) (now : ℕ) (es : List RecordingEntry)
      → AreIdle es
      → IsHonest (phase_one can_delete days now es).0 × AreIdle (phase_one can_delete days now es).1
  unfolding phase_one
  phase_one-IsHonest none now es a = ((tt, refl, refl), a)
  phase_one-IsHonest (some days) now es a =
      prune_by_age-IsHonest now days es nothing_pruned a (tt, refl, refl)

  phase_two-IsHonest :
      (bytes : Option ℕ) (es : List RecordingEntry) (r : PruneResult)
      → AreIdle es
      → IsHonest r
      → IsHonest (phase_two can_delete bytes es r)
  unfolding phase_two
  phase_two-IsHonest none es r a h = h
  phase_two-IsHonest (some bytes) es r a h = prune_by_size-IsHonest bytes (total_size es) es r a h

  -- Pruning removes no recording that is being written, whatever the quota and the retention are,
  -- and its result counts exactly the files and the bytes that it removed.
  pub prune-IsHonest :
      (max_total_bytes retention_days : Option ℕ) (now : ℕ) (entries : List RecordingEntry)
      → IsHonest (prune_recordings can_delete max_total_bytes retention_days now entries)
  unfolding prune_recordings
  prune-IsHonest max_total_bytes retention_days now entries =
      let idle = sort-AreIdle _ (filter-AreIdle entries) in
      let (h, a) = phase_one-IsHonest retention_days now _ idle in
      if-both IsHonest (not (is_some max_total_bytes) && not (is_some retention_days))
        nothing-IsHonest (phase_two-IsHonest max_total_bytes _ _ a h)

insert-total_size :
    (e : RecordingEntry) (es : List RecordingEntry)
    → total_size (insert_by_key e es) ≡ e.size_bytes + total_size es
unfolding insert_by_key
insert-total_size e [] = refl
insert-total_size e (f ∷ fs) = ground (arith, insert-total_size e fs)

sort-total_size : (es : List RecordingEntry) → total_size (sort_by_key es) ≡ total_size es
unfolding sort_by_key
sort-total_size [] = refl
sort-total_size (e ∷ es) =
    insert-total_size e (sort_by_key es) ∙ ap (λ n. e.size_bytes + n) (sort-total_size es)

module _ (can_delete : RecordingEntry → Bool)
    (always : (e : RecordingEntry) → can_delete e ≡ true) where
  try_remove-freed :
      (e : RecordingEntry) (r : PruneResult)
      → (try_remove can_delete e r).bytes_freed ≡ r.bytes_freed + e.size_bytes
  unfolding try_remove count_removed
  try_remove-freed e r = rw (always e)

  count_removed-freed :
      (e : RecordingEntry) (r : PruneResult)
      → (count_removed r e).bytes_freed ≡ r.bytes_freed + e.size_bytes
  unfolding count_removed
  count_removed-freed e r = refl

  prune_by_age-freed :
      (now days : ℕ) (es : List RecordingEntry) (r : PruneResult)
      → let after = prune_by_age can_delete now days es r in
        after.0.bytes_freed + total_size after.1 ≡ r.bytes_freed + total_size es
  unfolding prune_by_age
  prune_by_age-freed now days [] r = refl
  prune_by_age-freed now days (e ∷ es) r = elim (Bool-cases (too_old now days e)) [
    | inl old ↦
        let more = prune_by_age-freed now days es (try_remove can_delete e r) in
        rw old (omega (arith, more, try_remove-freed e r))
    | inr new ↦ let more = prune_by_age-freed now days es r in rw new (omega (arith, more))
  ]

  prune_by_size-freed :
      (max_bytes : ℕ) (es : List RecordingEntry) (r : PruneResult)
      → r.bytes_freed + total_size es
        ≤ max_bytes + (prune_by_size can_delete max_bytes (total_size es) es r).bytes_freed
  unfolding prune_by_size
  prune_by_size-freed max_bytes [] r = ground arith
  prune_by_size-freed max_bytes (e ∷ es) r =
      elim (Bool-cases (leb (total_size (e ∷ es)) max_bytes)) [
        | inl fits ↦ rw fits (ground (arith, fits))
        | inr over ↦
            let rest : e.size_bytes + total_size es - e.size_bytes ≡ total_size es = omega arith in
            let more = prune_by_size-freed max_bytes es (count_removed r e) in
            rw (over, always e, rest) (omega (arith, more, count_removed-freed e r))
      ]

  phase_one-freed :
      (days : Option ℕ) (now : ℕ) (es : List RecordingEntry)
      → let after = phase_one can_delete days now es in
        after.0.bytes_freed + total_size after.1 ≡ total_size es
  unfolding phase_one
  phase_one-freed none now es = omega arith
  phase_one-freed (some days) now es = prune_by_age-freed now days es nothing_pruned ∙ omega arith

  -- With a quota, and on a disk that lets every file go, what is left of the recordings that are
  -- not being written fits the quota: their sizes are at most the quota and what was freed.
  pub prune-quota :
      (max_bytes : ℕ) (retention_days : Option ℕ) (now : ℕ) (entries : List RecordingEntry)
      → total_size (filter (λ (e : RecordingEntry). not e.is_active) entries)
        ≤ max_bytes
          + (prune_recordings can_delete (some max_bytes) retention_days now entries).bytes_freed
  unfolding prune_recordings phase_two
  prune-quota max_bytes retention_days now entries =
      let idle = filter (λ (e : RecordingEntry). not e.is_active) entries in
      let aged = phase_one can_delete retention_days now (sort_by_key idle) in
      let one = phase_one-freed retention_days now (sort_by_key idle) in
      let two = prune_by_size-freed max_bytes aged.1 aged.0 in
      omega (arith, one, two, sort-total_size idle)
