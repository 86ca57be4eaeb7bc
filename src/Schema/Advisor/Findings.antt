-- ===== src/Schema/Advisor/Findings.antt =====
-- Every finding has its reason.
use pg_lens.Prelude.{
  ℕ, zero, suc, ◌+◌, ◌≡◌, refl, ap, ◌∙◌, inl, inr, Bool, true, false, not, ◌&&◌, ◌||◌, some, List,
  [], ◌∷◌, get_elem?, nat_eq, if-each, Bool-cases, Option-cases, arith,
}
use pg_lens.Prelude.Text.{Text}
use pg_lens.Prelude.Int.{unsigned_abs}
use pg_lens.Schema.Advisor.{
  IndexCatalogRow, IndexFinding, nothing, duplicate_exact, duplicate_prefix, unused, invalid,
  serves_a_constraint, same_signature, same_table, is_covered_by, partner, find_exact, find_prefix,
  override, classify_from, classify,
}

-- Another row that passes a test, by its place and its name.
pub record IsPartner (test : IndexCatalogRow → Bool) (rows : List IndexCatalogRow) (i : ℕ)
    (p : Text) : Type 0 where
  pub place : ℕ
  pub row : IndexCatalogRow
  pub is_there : get_elem? rows place ≡ some row
  pub other : nat_eq i place ≡ false
  pub passes : test row ≡ true
  pub named : row.name ≡ p

partner_lem :
    (test : IndexCatalogRow → Bool) (i j : ℕ) (rows : List IndexCatalogRow) (p : Text)
    → partner test i j rows ≡ some p
    → (k : ℕ) × (row : IndexCatalogRow) × (get_elem? rows k ≡ some row)
      × (nat_eq i (j + k) ≡ false)
      × (test row ≡ true)
      × (row.name ≡ p)
unfolding partner
partner_lem test i j [] p h = cc
partner_lem test i j (row ∷ rows) p h = elim (Bool-cases (not (nat_eq i j) && test row)) [
  | inl e ↦ let h' = rw e at h in (zero, row, refl, ground (arith, e), ground (arith, e), cc)
  | inr e ↦
      let h' = rw e at h in
      let (k, r, g, o, t, n) = partner_lem test i (suc j) rows p h' in
      (suc k, r, g, ground (arith, o), t, n)
]

partner-IsPartner :
    (test : IndexCatalogRow → Bool) (i : ℕ) (rows : List IndexCatalogRow) (p : Text)
    → partner test i 0 rows ≡ some p
    → IsPartner test rows i p
partner-IsPartner test i rows p h =
    let (k, r, g, o, t, n) = partner_lem test i 0 rows p h in
    record { place = k; row = r; is_there = g; other = ground (arith, o); passes = t; named = n }

-- The reason for a finding.
abbrev pub IsJustified : List IndexCatalogRow → ℕ → IndexCatalogRow → IndexFinding → Type 0
IsJustified rows i row nothing = (row.is_valid ≡ true) × (row.is_ready ≡ true)
IsJustified rows i row invalid = (row.is_valid && row.is_ready) ≡ false
IsJustified rows i row unused = (unsigned_abs row.idx_scan ≡ 0) × (serves_a_constraint row ≡ false)
IsJustified rows i row (duplicate_exact p) =
    IsPartner (λ r. same_table row r && same_signature row r) rows i p
IsJustified rows i row (duplicate_prefix p) =
    (serves_a_constraint row ≡ false)
    × IsPartner (λ r. same_table row r && is_covered_by row r) rows i p

-- A duplicate of either kind, or none.
abbrev IsPaired : List IndexCatalogRow → ℕ → IndexCatalogRow → IndexFinding → Type 0
IsPaired rows i row nothing = Unit
IsPaired rows i row invalid = ⊥
IsPaired rows i row unused = ⊥
IsPaired rows i row (duplicate_exact p) =
    IsPartner (λ r. same_table row r && same_signature row r) rows i p
IsPaired rows i row (duplicate_prefix p) =
    (serves_a_constraint row ≡ false)
    × IsPartner (λ r. same_table row r && is_covered_by row r) rows i p

find_prefix-IsPaired :
    (rows : List IndexCatalogRow) (i : ℕ) (row : IndexCatalogRow)
    → IsPaired rows i row (find_prefix rows i row nothing)
unfolding find_prefix
find_prefix-IsPaired rows i row =
    if-each (IsPaired rows i row) (serves_a_constraint row) (λ _. tt)
      (λ free.
        elim (Option-cases (partner (λ r. same_table row r && is_covered_by row r) i 0 rows)) [
          | inl e ↦ rw e tt
          | inr (p, e) ↦
              rw e
                (free, partner-IsPartner (λ r. same_table row r && is_covered_by row r) i rows p e)
        ])

find-IsPaired :
    (rows : List IndexCatalogRow) (i : ℕ) (row : IndexCatalogRow)
    → IsPaired rows i row (find_prefix rows i row (find_exact rows i row))
unfolding find_exact find_prefix
find-IsPaired rows i row =
    elim (Option-cases (partner (λ r. same_table row r && same_signature row r) i 0 rows)) [
      | inl e ↦ rw e (find_prefix-IsPaired rows i row)
      | inr (p, e) ↦
          rw e (partner-IsPartner (λ r. same_table row r && same_signature row r) i rows p e)
    ]

justify :
    (rows : List IndexCatalogRow) (i : ℕ) (row : IndexCatalogRow) (f : IndexFinding)
    → row.is_valid ≡ true
    → row.is_ready ≡ true
    → IsPaired rows i row f
    → IsJustified rows i row f
justify rows i row nothing v r p = (v, r)
justify rows i row invalid v r p = absurd p
justify rows i row unused v r p = absurd p
justify rows i row (duplicate_exact q) v r p = p
justify rows i row (duplicate_prefix q) v r p = p

override-IsJustified :
    (rows : List IndexCatalogRow) (i : ℕ) (row : IndexCatalogRow) (f : IndexFinding)
    → IsPaired rows i row f
    → IsJustified rows i row (override row f)
unfolding override
override-IsJustified rows i row f p =
    if-each (IsJustified rows i row) (not row.is_valid || not row.is_ready)
      (λ bad. ground (arith, bad))
      (λ good.
        if-each (IsJustified rows i row)
          (nat_eq (unsigned_abs row.idx_scan) 0 && not (serves_a_constraint row))
          (λ idle. (ground (arith, idle), ground (arith, idle)))
          (λ _. justify rows i row f (ground (arith, good)) (ground (arith, good)) p))

classify_from-get :
    (rows : List IndexCatalogRow) (i k : ℕ) (rest : List IndexCatalogRow) (row : IndexCatalogRow)
    → get_elem? rest k ≡ some row
    → get_elem? (classify_from rows i rest) k
      ≡ some (override row (find_prefix rows (i + k) row (find_exact rows (i + k) row)))
unfolding classify_from
classify_from-get rows i k [] row h = cc
classify_from-get rows i zero (r ∷ rest) row h =
    let same : r ≡ row = cc in
    ap (λ x. some (override x (find_prefix rows i x (find_exact rows i x)))) same
    ∙ ap (λ n. some (override row (find_prefix rows n row (find_exact rows n row)))) (omega arith)
classify_from-get rows i (suc k) (r ∷ rest) row h =
    classify_from-get rows (suc i) k rest row h
    ∙ ap (λ n. some (override row (find_prefix rows n row (find_exact rows n row)))) (omega arith)

finding_lem :
    (rows : List IndexCatalogRow) (i : ℕ) (row : IndexCatalogRow)
    → get_elem? rows i ≡ some row
    → get_elem? (classify rows) i
      ≡ some (override row (find_prefix rows i row (find_exact rows i row)))
unfolding classify
finding_lem rows i row h =
    classify_from-get rows 0 i rows row h
    ∙ ap (λ n. some (override row (find_prefix rows n row (find_exact rows n row)))) (omega arith)

-- Every row has a finding, and it is justified: an invalid index is not valid or not ready; an
-- unused one was never scanned and serves no constraint; a duplicate has another row of its table,
-- with the name that is shown, and of the same signature or, if it serves no constraint itself,
-- covering it; and a row without a finding is valid and ready.
pub classify-IsJustified :
    (rows : List IndexCatalogRow) (i : ℕ) (row : IndexCatalogRow)
    → get_elem? rows i ≡ some row
    → (f : IndexFinding) × (get_elem? (classify rows) i ≡ some f) × IsJustified rows i row f
classify-IsJustified rows i row h = (
  override row (find_prefix rows i row (find_exact rows i row)),
  finding_lem rows i row h,
  override-IsJustified rows i row _ (find-IsPaired rows i row),
)

partner-found :
    (test : IndexCatalogRow → Bool) (i j k : ℕ) (rows : List IndexCatalogRow) (r : IndexCatalogRow)
    → get_elem? rows k ≡ some r
    → nat_eq i (j + k) ≡ false
    → test r ≡ true
    → (p : Text) × (partner test i j rows ≡ some p)
unfolding partner
partner-found test i j k [] r h o t = cc
partner-found test i j zero (row ∷ rows) r h o t =
    let same : row ≡ r = cc in
    let passes : (not (nat_eq i j) && test row) ≡ true = rw same (ground (arith, o, t)) in
    (row.name, rw passes)
partner-found test i j (suc k) (row ∷ rows) r h o t =
    elim (Bool-cases (not (nat_eq i j) && test row)) [
      | inl e ↦ (row.name, rw e)
      | inr e ↦ rw e (partner-found test i (suc j) k rows r h (ground (arith, o)) t)
    ]

-- A finding that says at least that there is an exact duplicate.
abbrev pub is_flagged : IndexFinding → Bool
is_flagged nothing = false
is_flagged (duplicate_prefix p) = false
is_flagged (duplicate_exact p) = true
is_flagged unused = true
is_flagged invalid = true

override-flagged :
    (row : IndexCatalogRow) (f : IndexFinding)
    → is_flagged f ≡ true
    → is_flagged (override row f) ≡ true
unfolding override
override-flagged row f h =
    if-each (λ x. is_flagged x ≡ true) (not row.is_valid || not row.is_ready) (λ _. refl)
      (λ _.
        if-each (λ x. is_flagged x ≡ true)
          (nat_eq (unsigned_abs row.idx_scan) 0 && not (serves_a_constraint row)) (λ _. refl)
          (λ _. h))

-- Two rows of one table with the same signature, which two places hold: each of them is flagged,
-- as an exact duplicate or as something worse.
pub duplicates_flagged :
    (rows : List IndexCatalogRow) (i j : ℕ) (row other : IndexCatalogRow)
    → get_elem? rows i ≡ some row
    → get_elem? rows j ≡ some other
    → nat_eq i j ≡ false
    → (same_table row other && same_signature row other) ≡ true
    → (f : IndexFinding) × (get_elem? (classify rows) i ≡ some f) × (is_flagged f ≡ true)
unfolding find_exact find_prefix
duplicates_flagged rows i j row other h g o s =
    let (p, e) =
      partner-found (λ r. same_table row r && same_signature row r) i 0 j rows other g
        (ground (arith, o)) s in
    let exact : find_exact rows i row ≡ duplicate_exact p = rw e in
    let found : is_flagged (find_prefix rows i row (find_exact rows i row)) ≡ true =
      rw exact refl in
    (
      override row (find_prefix rows i row (find_exact rows i row)),
      finding_lem rows i row h,
      override-flagged row _ found,
    )
