-- ===== src/Sessions/Tree/Members.antt =====
-- What the proofs on the forest of blocks.rs use of lists and of roots.
use pg_lens.Prelude.{
  ℕ, ◌≡◌, refl, sym, ap, ◌∙◌, inl, inr, Bool, true, List, [], ◌∷◌, All, arith, filter, is_empty,
  Bool-cases, map, nat_eq, nat_eq_iff,
}
use pg_lens.Sessions.Blocking.{contains}
use pg_lens.Sessions.Tree.Node.{Nodes, nil, cons, NodeInfo, LockRow, info_of}
use pg_lens.Sessions.Tree.Exact.{Tops, outside, top_pids}
use pg_lens.Sessions.Tree.Waiters.{waits_for}

-- A property of all members, from its instances.
pub all_members : (P : ℕ → Type 0) (xs : List ℕ) → ((x : ℕ) → contains x xs ≡ true → P x) → All P xs
all_members P [] h = tt
all_members P (x ∷ xs) h =
    (h x (ground (arith, nat_eq_iff x x)), all_members P xs (λ y m. h y (ground (arith, m))))

pub waits-contains :
    {Secs : Type 0} (locks : List (LockRow Secs)) (c p : ℕ)
    → waits_for locks c p ≡ true
    → contains c (map (λ l. l.pid) locks) ≡ true
waits-contains [] c p h = cc
waits-contains (l ∷ locks) c p h = ground (arith, waits-contains locks c p)

pub All-imp : (P Q : ℕ → Type 0) (xs : List ℕ) → ((x : ℕ) → P x → Q x) → All P xs → All Q xs
All-imp P Q [] f h = tt
All-imp P Q (x ∷ xs) f h = (f x h.0, All-imp P Q xs f h.1)

pub none_to_cover :
    {Secs : Type 0} (P : ℕ → Type 0) (locks : List (LockRow Secs))
    → is_empty locks ≡ true
    → All P (map (λ l. l.pid) locks)
none_to_cover P [] h = tt
none_to_cover P (l ∷ locks) h = absurd (cc)

pub contains-filter :
    (f : ℕ → Bool) (x : ℕ) (xs : List ℕ)
    → contains x (filter f xs) ≡ true
    → (f x ≡ true) × (contains x xs ≡ true)
contains-filter f x [] h = absurd (cc)
contains-filter f x (y ∷ xs) h = elim (Bool-cases (f y)) [
  | inl e ↦ elim (Bool-cases (nat_eq y x)) [
    | inl q ↦ (ap f (sym ((nat_eq_iff y x).0 q)) ∙ e, rw q refl)
    | inr q ↦ let rest = contains-filter f x xs (ground (arith, e, q, h)) in (rest.0, rw q rest.1)
  ]
  | inr e ↦ let rest = contains-filter f x xs (rw e at h) in (rest.0, ground (arith, rest.1))
]

pub outside-nil : (xs : List ℕ) → outside [] xs ≡ xs
outside-nil [] = refl
outside-nil (x ∷ xs) = ap (λ ys. x ∷ ys) (outside-nil xs)

pub Tops-pids :
    {Secs : Type 0} (P : ℕ → Type 0) (ns : Nodes Secs)
    → All P (top_pids ns)
    → Tops (λ i. P i.pid) ns
Tops-pids P nil h = tt
Tops-pids P (cons n ns) h = (h.0, Tops-pids P ns h.1)

pub Tops-zip :
    {Secs : Type 0} (P Q R : NodeInfo Secs → Type 0) (ns : Nodes Secs)
    → ((i : NodeInfo Secs) → P i → Q i → R i)
    → Tops P ns
    → Tops Q ns
    → Tops R ns
Tops-zip P Q R nil f h k = tt
Tops-zip P Q R (cons n ns) f h k = (f (info_of n) h.0 k.0, Tops-zip P Q R ns f h.1 k.1)
