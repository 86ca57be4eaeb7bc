-- ===== src/Prelude/Map.antt =====
-- `HashMap` and `BTreeMap` as an association list with at most one entry for a key.
use mathlib.Core.Path.{◌≡◌, refl}
use mathlib.Core.Logic.{◌≢◌}
use mathlib.Core.List.{List, [], ◌∷◌}
use mathlib.Core.Option.{Option, none, some}
use native.Mathlib.Omega.{arith}
use pg_lens.Prelude.Tests.{Eq, ◌==◌, if◌then◌else◌}

abbrev pub Assoc {ℓ κ} : Type ℓ → Type κ → Type (ℓ ⊔ κ)
Assoc K V = List (K × V)

module _ {ℓ κ} {K : Type ℓ} {V : Type κ} ⦃e : Eq K⦄ where
  unfoldable pub get : K → Assoc K V → Option V
  get k [] = none
  get k ((j, v) ∷ m) = if j == k then some v else get k m

  unfoldable pub insert : K → V → Assoc K V → Assoc K V
  insert k v [] = (k, v) ∷ []
  insert k v ((j, w) ∷ m) = if j == k then (k, v) ∷ m else (j, w) ∷ insert k v m

  unfoldable pub remove : K → Assoc K V → Assoc K V
  remove k [] = []
  remove k ((j, w) ∷ m) = let rest = remove k m in if j == k then rest else (j, w) ∷ rest

  pub get-insert :
      (j k : K) (v : V) (m : Assoc K V)
      → get j (insert k v m) ≡ (if k == j then some v else get j m)
  unfolding get insert
  get-insert j k v [] = refl
  get-insert j k v ((i, w) ∷ m) =
      ground (arith, e.same_iff k j, e.same_iff i k, e.same_iff i j, get-insert j k v m)

  pub get-remove :
      (j k : K) (m : Assoc K V) → get j (remove k m) ≡ (if k == j then none else get j m)
  unfolding get remove
  get-remove j k [] = ground arith
  get-remove j k ((i, w) ∷ m) =
      ground (arith, e.same_iff k j, e.same_iff i k, e.same_iff i j, get-remove j k m)

  pub get-empty : (j : K) → get j [] ≡ none
  unfolding get
  get-empty j = refl

  pub get-insert_self : (k : K) (v : V) (m : Assoc K V) → get k (insert k v m) ≡ some v
  get-insert_self k v m = rw (get-insert k k v m) (ground (arith, e.same_iff k k))

  pub get-insert_other : {j k : K} (v : V) (m : Assoc K V) → k ≢ j → get j (insert k v m) ≡ get j m
  get-insert_other {j} {k} v m ne = rw (get-insert j k v m) (ground (arith, e.same_iff k j))

  pub get-remove_other : {j k : K} (m : Assoc K V) → k ≢ j → get j (remove k m) ≡ get j m
  get-remove_other {j} {k} m ne = rw (get-remove j k m) (ground (arith, e.same_iff k j))

  pub ruleset map_laws = (get-insert, get-remove, get-empty)
