-- ===== src/Schema/Advisor.antt =====
-- crates/pg_lens_core/src/index_advisor.rs. Each loop of `classify` reads and writes the finding of
-- its own row only, so the loops are held as what they make of one row, one after the other.
pub mod Findings
use pg_lens.Prelude.{
  ℕ, zero, suc, ◌+◌, Bool, true, false, not, ◌&&◌, ◌||◌, Option, none, some, List, [], ◌∷◌, ◌++◌,
  length, take, nat_eq, ltb, if◌then◌else◌, ◌==◌,
}
use pg_lens.Prelude.Text.{Text, Text_eq, is_whitespace}
use pg_lens.Prelude.Int.{ℤ, unsigned_abs}

-- Of an `IndexCatalogRow`, what `classify` reads.
pub record IndexCatalogRow : Type 0 where
  pub schema : Text
  pub table : Text
  pub name : Text
  pub idx_scan : ℤ
  pub is_unique : Bool
  pub is_primary : Bool
  pub is_exclusion : Bool
  pub is_valid : Bool
  pub is_ready : Bool
  pub indkey : Text
  pub indclass : Text
  pub indcollation : Text
  pub indpred : Text

-- `IndexFinding` of crates/pg_lens_core/src/models.rs
pub data IndexFinding : Type 0 where
  nothing : IndexFinding
  duplicate_exact : Text → IndexFinding
  duplicate_prefix : Text → IndexFinding
  unused : IndexFinding
  invalid : IndexFinding

unfoldable pub serves_a_constraint : IndexCatalogRow → Bool
serves_a_constraint row = row.is_unique || row.is_primary || row.is_exclusion

abbrev flush : Text → List Text → List Text
flush [] words = words
flush (c ∷ word) words = (c ∷ word) ∷ words

unfoldable pub split_words : Text → Text → List Text
unfolding is_whitespace
split_words word [] = flush word []
split_words word (c ∷ s) =
    let next = split_words [] s in
    let longer = split_words (word ++ c ∷ []) s in
    if is_whitespace c then flush word next else longer

-- `str::split_whitespace`
unfoldable pub tokens : Text → List Text
unfolding split_words
tokens s = split_words [] s

abbrev pub texts_eq : List Text → List Text → Bool
texts_eq [] [] = true
texts_eq [] (t ∷ ts) = false
texts_eq (s ∷ ss) [] = false
texts_eq (s ∷ ss) (t ∷ ts) = s == t && texts_eq ss ts

abbrev same_bool : Bool → Bool → Bool
same_bool true b = b
same_bool false b = not b

-- `exact_signature(a) == exact_signature(b)`
unfoldable pub same_signature : IndexCatalogRow → IndexCatalogRow → Bool
unfolding tokens
same_signature a b =
    texts_eq (tokens a.indkey) (tokens b.indkey)
    && texts_eq (tokens a.indclass) (tokens b.indclass)
    && texts_eq (tokens a.indcollation) (tokens b.indcollation)
    && a.indpred == b.indpred
    && same_bool a.is_unique b.is_unique

-- `a.iter().zip(b.iter()).all(|(x, y)| x == y)`
abbrev pub zip_all_eq : List Text → List Text → Bool
zip_all_eq [] ts = true
zip_all_eq (s ∷ ss) [] = true
zip_all_eq (s ∷ ss) (t ∷ ts) = s == t && zip_all_eq ss ts

unfoldable pub is_strict_prefix : List Text → List Text → Bool
is_strict_prefix a b = ltb (length a) (length b) && zip_all_eq a b

unfoldable pub b_key_prefix : Text → ℕ → List Text
unfolding tokens
b_key_prefix s len = take len (tokens s)

abbrev pub same_table : IndexCatalogRow → IndexCatalogRow → Bool
same_table a b = a.table == b.table && a.schema == b.schema

-- The tests of the second loop on a wider index `b` of the same table.
unfoldable pub is_covered_by : IndexCatalogRow → IndexCatalogRow → Bool
unfolding tokens is_strict_prefix b_key_prefix
is_covered_by a b =
    let a_key = tokens a.indkey in
    a.indpred == b.indpred
    && is_strict_prefix a_key (tokens b.indkey)
    && texts_eq (tokens a.indclass) (b_key_prefix b.indclass (length a_key))
    && texts_eq (tokens a.indcollation) (b_key_prefix b.indcollation (length a_key))

-- The name of the first row, of those numbered from `j` on, that passes the test and is not row `i`.
unfoldable pub partner : (IndexCatalogRow → Bool) → ℕ → ℕ → List IndexCatalogRow → Option Text
partner test i j [] = none
partner test i j (row ∷ rows) =
    let rest = partner test i (suc j) rows in
    if not (nat_eq i j) && test row then some row.name else rest

abbrev exact_of : Option Text → IndexFinding
exact_of none = nothing
exact_of (some p) = duplicate_exact p

-- The loop on exact duplicates.
unfoldable pub find_exact : List IndexCatalogRow → ℕ → IndexCatalogRow → IndexFinding
unfolding partner same_signature
find_exact rows i row = exact_of (partner (λ r. same_table row r && same_signature row r) i 0 rows)

abbrev prefix_of : Option Text → IndexFinding
prefix_of none = nothing
prefix_of (some p) = duplicate_prefix p

-- The loop on prefixes.
unfoldable pub find_prefix :
    List IndexCatalogRow → ℕ → IndexCatalogRow → IndexFinding → IndexFinding
unfolding partner is_covered_by serves_a_constraint
find_prefix rows i row nothing =
    if serves_a_constraint row
    then nothing
    else prefix_of (partner (λ r. same_table row r && is_covered_by row r) i 0 rows)
find_prefix rows i row found = found

-- The last two loops.
unfoldable pub override : IndexCatalogRow → IndexFinding → IndexFinding
unfolding serves_a_constraint
override row found =
    if not row.is_valid || not row.is_ready
    then invalid
    else if nat_eq (unsigned_abs row.idx_scan) 0 && not (serves_a_constraint row)
    then unused
    else found

unfoldable pub classify_from : List IndexCatalogRow → ℕ → List IndexCatalogRow → List IndexFinding
unfolding find_exact find_prefix override
classify_from rows i [] = []
classify_from rows i (row ∷ rest) =
    override row (find_prefix rows i row (find_exact rows i row)) ∷ classify_from rows (suc i) rest

unfoldable pub classify : List IndexCatalogRow → List IndexFinding
unfolding classify_from
classify rows = classify_from rows 0 rows
