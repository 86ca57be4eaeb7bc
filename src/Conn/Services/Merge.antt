-- ===== src/Conn/Services/Merge.antt =====
-- What `merge_remote_over` and the `BTreeMap` that it inserts into promise.
use pg_lens.Prelude.{
  ◌≡◌, refl, true, false, none, some, [], ◌∷◌, or_else, if◌then◌else◌, ◌==◌, inl, inr, Bool-cases,
  arith,
}
use pg_lens.Prelude.Text.{Text, Text_eq, text_eq, text_eq_iff, text_lt}
use pg_lens.Prelude.Map
use pg_lens.Prelude.Map.{Assoc}
use pg_lens.Conn.Error.{ok, >>=-eq-ok, ok_injective}
use pg_lens.Conn.Services.{
  validate_entry, validate_all, validate, ServiceEntry, ServicesFile, insert, insert_all,
  merge_remote_over,
}

-- Every name in the map comes behind `k`.
abbrev pub Above : Text → Assoc Text ServiceEntry → Type 0
Above k [] = Unit
Above k ((j, w) ∷ m) = (text_lt k j ≡ true) × Above k m

-- A `BTreeMap`: its names ascend.
abbrev pub IsSorted : Assoc Text ServiceEntry → Type 0
IsSorted [] = Unit
IsSorted ((j, w) ∷ m) = Above j m × IsSorted m

text_lt_trans : (s t u : Text) → text_lt s t ≡ true → text_lt t u ≡ true → text_lt s u ≡ true
text_lt_trans s t [] h k = cc
text_lt_trans s [] (e ∷ u) h k = cc
text_lt_trans [] (d ∷ t) (e ∷ u) h k = refl
text_lt_trans (c ∷ s) (d ∷ t) (e ∷ u) h k = ground (arith, text_lt_trans s t u, h, k)

text_lt_irrefl : (s : Text) → text_lt s s ≡ false
text_lt_irrefl [] = refl
text_lt_irrefl (c ∷ s) = ground (arith, text_lt_irrefl s)

text_lt_total : (s t : Text) → text_eq s t ≡ false → text_lt s t ≡ false → text_lt t s ≡ true
text_lt_total [] [] h k = cc
text_lt_total [] (d ∷ t) h k = cc
text_lt_total (c ∷ s) [] h k = refl
text_lt_total (c ∷ s) (d ∷ t) h k = ground (arith, text_lt_total s t, h, k)

Above-trans :
    (j k : Text) (m : Assoc Text ServiceEntry) → text_lt j k ≡ true → Above k m → Above j m
Above-trans j k [] h a = tt
Above-trans j k ((i, w) ∷ m) h a = (text_lt_trans j k i h a.0, Above-trans j k m h a.1)

Above-insert :
    (j k : Text) (v : ServiceEntry) (m : Assoc Text ServiceEntry)
    → text_lt j k ≡ true
    → Above j m
    → Above j (insert k v m)
unfolding insert
Above-insert j k v [] h a = (h, tt)
Above-insert j k v ((i, w) ∷ m) h a = ground (arith, Above-insert j k v m h a.1, h, a)

insert-IsSorted :
    (k : Text) (v : ServiceEntry) (m : Assoc Text ServiceEntry)
    → IsSorted m
    → IsSorted (insert k v m)
unfolding insert
insert-IsSorted k v [] s = (tt, tt)
insert-IsSorted k v ((j, w) ∷ m) s = ground (
  arith,
  text_eq_iff j k,
  text_lt_total j k,
  Above-trans k j m,
  Above-insert j k v m,
  insert-IsSorted k v m s.1,
  s,
)

insert_all-IsSorted :
    (local remote : Assoc Text ServiceEntry) → IsSorted local → IsSorted (insert_all local remote)
unfolding insert_all
insert_all-IsSorted local [] s = s
insert_all-IsSorted local ((k, v) ∷ rest) s =
    insert_all-IsSorted (insert k v local) rest (insert-IsSorted k v local s)

get-Above : (k : Text) (m : Assoc Text ServiceEntry) → Above k m → Map.get k m ≡ none
unfolding Map.get
get-Above k [] a = refl
get-Above k ((j, w) ∷ m) a =
    ground (arith, text_eq_iff j k, text_lt_irrefl k, get-Above k m a.1, a.0)

-- `BTreeMap::get` after `BTreeMap::insert`
get-insert_sorted :
    (j k : Text) (v : ServiceEntry) (m : Assoc Text ServiceEntry)
    → IsSorted m
    → Map.get j (insert k v m) ≡ (if k == j then some v else Map.get j m)
unfolding Map.get insert
get-insert_sorted j k v [] s = refl
get-insert_sorted j k v ((i, w) ∷ m) s = ground (
  arith,
  text_eq_iff k j,
  text_eq_iff i k,
  text_eq_iff i j,
  text_eq_iff j j,
  get-insert_sorted j k v m s.1,
)

get-insert_all :
    (j : Text) (local remote : Assoc Text ServiceEntry)
    → IsSorted local
    → IsSorted remote
    → Map.get j (insert_all local remote) ≡ or_else (Map.get j remote) (Map.get j local)
unfolding Map.get insert_all
get-insert_all j local [] s t = refl
get-insert_all j local ((k, v) ∷ rest) s t =
    rw
      (
        get-insert_all j (insert k v local) rest (insert-IsSorted k v local s) t.1,
        get-insert_sorted j k v local s,
      )
      (elim (Bool-cases (k == j)) [
        | inl e ↦
            let same = (text_eq_iff k j).0 e in
            let gone = rw same at (get-Above k rest t.0) in rw (e, gone)
        | inr e ↦ rw e
      ])

-- Merging remote services over local ones, both in ascending order of their names: a name in the remote file has the remote entry, any
-- other the local one, and the result is again in ascending order.
pub merge_lookup :
    (local remote : ServicesFile) (name : Text)
    → IsSorted local.services
    → IsSorted remote.services
    → (Map.get name (merge_remote_over local remote).services
        ≡ or_else (Map.get name remote.services) (Map.get name local.services))
      × IsSorted (merge_remote_over local remote).services
unfolding merge_remote_over
merge_lookup local remote name s t = (
  get-insert_all name local.services remote.services s t,
  insert_all-IsSorted local.services remote.services s,
)

validate_all-Above :
    (j : Text) (m m' : Assoc Text ServiceEntry) → validate_all m ≡ ok m' → Above j m → Above j m'
unfolding validate_all
validate_all-Above j [] m' h a = let e = ok_injective h in rw (← e) tt
validate_all-Above j ((name, e) ∷ rest) m' h a =
    let (e', h1, k1) = >>=-eq-ok (validate_entry name e) _ h in
    let (rest', h2, k2) = >>=-eq-ok (validate_all rest) _ k1 in
    let q = ok_injective k2 in rw (← q) (a.0, validate_all-Above j rest rest' h2 a.1)

pub validate_all-IsSorted :
    (m m' : Assoc Text ServiceEntry) → validate_all m ≡ ok m' → IsSorted m → IsSorted m'
unfolding validate_all
validate_all-IsSorted [] m' h s = let e = ok_injective h in rw (← e) tt
validate_all-IsSorted ((name, e) ∷ rest) m' h s =
    let (e', h1, k1) = >>=-eq-ok (validate_entry name e) _ h in
    let (rest', h2, k2) = >>=-eq-ok (validate_all rest) _ k1 in
    let q = ok_injective k2 in
    rw (← q) (validate_all-Above name rest rest' h2 s.0, validate_all-IsSorted rest rest' h2 s.1)

pub validate-IsSorted :
    (file file' : ServicesFile)
    → validate file ≡ ok file'
    → IsSorted file.services
    → IsSorted file'.services
unfolding validate
validate-IsSorted file file' h s =
    let (m, h1, k1) = >>=-eq-ok (validate_all file.services) _ h in
    let q = ok_injective k1 in rw (← q) (validate_all-IsSorted file.services m h1 s)
