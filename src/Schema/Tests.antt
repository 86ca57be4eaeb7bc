-- ===== src/Schema/Tests.antt =====
-- Percentages as pairs of whole numbers, and two tables.
use pg_lens.Prelude.{
  ℕ, ◌≡◌, refl, ◌*◌, true, false, ◌&&◌, none, some, List, [], ◌∷◌, get_elem?, ltb, arith, ℕ_eq,
}
use pg_lens.Prelude.Int.{ℤ, pos, unsigned_abs}
use pg_lens.Prelude.Map
use pg_lens.Schema.Growth.{Float, sample, TableStatRow, SchemaGrowthTracker, update, push}
use pg_lens.Prelude.Text.{Text, codes, is_whitespace}
use pg_lens.Schema.Advisor.{
  IndexCatalogRow, IndexFinding, duplicate_exact, duplicate_prefix, same_table, same_signature,
  classify,
}
use pg_lens.Schema.Advisor.Findings.{
  IsJustified, classify-IsJustified, duplicates_flagged, is_flagged,
}
use pg_lens.Schema.Growth.Track.{update_exact}

abbrev pub float : Float
float = record {
  F32 = ℤ × ℤ;
  percent = λ a b. (a, b);
  abs_above = λ p limit. ltb (limit * unsigned_abs p.1) (100 * unsigned_abs p.0);
}

abbrev pub row : ℕ → ℕ → TableStatRow float
row oid bytes = record {
  oid = oid;
  total_bytes = pos bytes;
  growth_1h_bytes = none;
  growth_1h_pct = none;
}

abbrev tracker : SchemaGrowthTracker float
tracker = record { rings = (1, sample 5 (pos 70) ∷ []) ∷ (2, []) ∷ []; max_tables = 2 }

update_exact_example :
    Map.get 1 (update float tracker (row 3 10 ∷ row 1 90 ∷ []) 9).rings
    ≡ some (sample 5 (pos 70) ∷ sample 9 (pos 90) ∷ [])
unfolding Map.get push
update_exact_example =
    (update_exact float tracker (row 3 10 ∷ row 1 90 ∷ []) 9 1
      (omega arith, (omega arith, (omega arith, tt)), omega arith) (refl, (refl, tt))).0

abbrev index_on : Text → Text → Text → IndexCatalogRow
index_on name indkey indclass = record {
  schema = codes "public";
  table = codes "t";
  name = name;
  idx_scan = pos 5;
  is_unique = false;
  is_primary = false;
  is_exclusion = false;
  is_valid = true;
  is_ready = true;
  indkey = indkey;
  indclass = indclass;
  indcollation = indclass;
  indpred = [];
}

abbrev catalog : List IndexCatalogRow
catalog =
    index_on (codes "a") (codes "1") (codes "9")
    ∷ index_on (codes "b") (codes "1") (codes "9")
    ∷ index_on (codes "c") (codes "1 2") (codes "9 9")
    ∷ index_on (codes "d") (codes "2") (codes "9")
    ∷ index_on (codes "e") (codes "2 3") (codes "9 9")
    ∷ []

-- The narrow index on the second column is covered, and the first two are the same.
catalog_findings :
    (get_elem? (classify catalog) 0 ≡ some (duplicate_exact (codes "b")))
    × (get_elem? (classify catalog) 3 ≡ some (duplicate_prefix (codes "e")))
unfolding classify is_whitespace
catalog_findings = (refl, refl)

classify-IsJustified_example :
    (f : IndexFinding) × (get_elem? (classify catalog) 3 ≡ some f)
    × IsJustified catalog 3 (index_on (codes "d") (codes "2") (codes "9")) f
classify-IsJustified_example =
    classify-IsJustified catalog 3 (index_on (codes "d") (codes "2") (codes "9")) refl

first_two_agree :
    (same_table
        (index_on (codes "a") (codes "1") (codes "9"))
        (index_on (codes "b") (codes "1") (codes "9"))
      && same_signature
          (index_on (codes "a") (codes "1") (codes "9"))
          (index_on (codes "b") (codes "1") (codes "9")))
    ≡ true
unfolding same_signature is_whitespace
first_two_agree = refl

duplicates_flagged_example :
    (f : IndexFinding) × (get_elem? (classify catalog) 0 ≡ some f) × (is_flagged f ≡ true)
duplicates_flagged_example =
    duplicates_flagged catalog 0 1 (index_on (codes "a") (codes "1") (codes "9"))
      (index_on (codes "b") (codes "1") (codes "9")) refl refl refl first_two_agree
