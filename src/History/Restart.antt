-- ===== src/History/Restart.antt =====
-- The file keeps what the ring holds, within bounds.
use pg_lens.Prelude.{
  ℕ, ◌+◌, ◌≤◌, ◌<◌, ◌≡◌, sym, max, inl, inr, true, none, some, List, [], ◌∷◌, length, map, All, ltb,
  Bool-cases, arith,
}
use pg_lens.Prelude.Text.{Text}
use pg_lens.History.{Json, File, parse_lines, newest, load, Kept, default_cap, tick}
use pg_lens.History.Ring.{take_last, take_last-all, IsRing}

module _ {Point : Type 0} (json : Json Point) where
  abbrev pub cap : ℕ
  cap = default_cap json

  newest-take_last : (n : ℕ) (ps : List Point) → newest json n ps ≡ take_last n ps
  unfolding newest
  newest-take_last n ps = elim (Bool-cases (ltb n (length ps))) [
    | inl e ↦ rw e
    | inr e ↦ rw e (sym (take_last-all n ps (ground (arith, e))))
  ]

  -- The points that the file holds.
  abbrev pub stored : File → List Point
  unfolding parse_lines
  stored none = []
  stored (some lines) = parse_lines json lines

  pub load_lem : (n : ℕ) (file : File) → load json n file ≡ take_last n (stored file)
  unfolding load stored
  load_lem n none = sym (take_last-all n [] (omega arith))
  load_lem n (some lines) = newest-take_last n (parse_lines json lines)

  -- Rounds whose disk takes every write and whose snapshots are received.
  unfoldable pub ticks : Kept json → List Point → Kept json
  unfolding tick
  ticks k [] = k
  ticks k (p ∷ ps) = ticks (tick json true true k p).0 ps

  -- `view` is what of a point comes back from its text, such as its whole numbers: a floating-point
  -- number may come back with another last digit. A point `IsFine` if it can be written so that it
  -- can be read, which one with an infinite rate cannot.
  module _ {View : Type 0} (view : Point → View) (IsFine : Point → Type 0) where
    -- A fine point is written as a line that is read as a point with the same view.
    abbrev pub Writes : Type 0
    Writes =
        (p : Point)
        → IsFine p
        → (line : Text) × (q : Point) × (json.to_string p ≡ some line)
          × (json.from_str line ≡ some q)
          × (view q ≡ view p)

    -- What is read from a line is fine.
    abbrev pub Reads : Type 0
    Reads = (line : Text) (p : Point) → json.from_str line ≡ some p → IsFine p

    module _ (writes : Writes) (reads : Reads) where
      -- What the file holds, as far as it comes back.
      abbrev views : File → List View
      views file = map view (stored file)

      -- The ring holds the newest stored points, as many as it may, as far as they come back, and
      -- the file at most that many and those that were appended since it was compacted, or what it
      -- held at the start.
      pub record IsKept (size : ℕ) (k : Kept json) : Type 0 where
        pub full_cap : k.history.cap ≡ 1800
        pub ring : IsRing Point k.history
        pub fine : All IsFine k.history.points
        pub same : map view k.history.points ≡ take_last 1800 (views k.file)
        pub since : k.appends_since_compact < 1800
        pub bounded : length (views k.file) ≤ max size 1800 + k.appends_since_compact
