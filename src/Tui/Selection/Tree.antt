-- ===== src/Tui/Selection/Tree.antt =====
-- The cursor over the blocking tree counts its nodes in the order in which they are drawn.
use pg_lens.Prelude.{
  ℕ, zero, suc, ◌+◌, ◌-◌, ◌≤◌, ◌≡◌, refl, sym, ap, ◌∙◌, is_some, ltb, inl, inr, true, false, none,
  some, List, [], ◌∷◌, ◌++◌, length, get_elem?, nat_eq, nat_eq_iff, Option-cases, arith,
  length-append,
}
use pg_lens.Tui.Selection.{BlockNode, Forest, nil, cons, count, find}

-- A node comes before its children, and these before the nodes behind it.
abbrev pub preorder : Forest → List BlockNode
preorder nil = []
preorder (cons node children rest) = node ∷ (preorder children ++ preorder rest)

pub count-preorder : (f : Forest) → count f ≡ length (preorder f)
unfolding count
count-preorder nil = refl
count-preorder (cons node children rest) = omega (
  arith,
  count-preorder children,
  count-preorder rest,
  length-append (preorder children) (preorder rest),
)

get_elem?-some :
    {A : Type 0} (xs ys : List A) (i : ℕ) (a : A)
    → get_elem? xs i ≡ some a
    → get_elem? (xs ++ ys) i ≡ some a
get_elem?-some [] ys i a h = cc
get_elem?-some (x ∷ xs) ys zero a h = h
get_elem?-some (x ∷ xs) ys (suc i) a h = get_elem?-some xs ys i a h

get_elem?-none :
    {A : Type 0} (xs ys : List A) (i : ℕ)
    → get_elem? xs i ≡ none
    → (length xs ≤ i) × (get_elem? (xs ++ ys) i ≡ get_elem? ys (i - length xs))
get_elem?-none [] ys i h = (omega arith, ap (λ j. get_elem? ys j) (omega arith))
get_elem?-none (x ∷ xs) ys zero h = cc
get_elem?-none (x ∷ xs) ys (suc i) h =
    let (le, e) = get_elem?-none xs ys i h in
    (omega (arith, le), e ∙ ap (λ j. get_elem? ys j) (omega arith))

get_elem?-is_some :
    {A : Type 0} (xs : List A) (i : ℕ) → is_some (get_elem? xs i) ≡ ltb i (length xs)
get_elem?-is_some [] i = ground arith
get_elem?-is_some (x ∷ xs) zero = ground arith
get_elem?-is_some (x ∷ xs) (suc i) = ground (arith, get_elem?-is_some xs i)

later : (curr i : ℕ) → nat_eq curr (curr + suc i) ≡ false
later curr i = ground arith

-- The walk with its counter at `curr`, `i` nodes before its target.
Finds : Forest → ℕ → ℕ → ℕ → Type 0
Finds f curr target i =
    ((find f curr target).0 ≡ get_elem? (preorder f) i)
    × (get_elem? (preorder f) i ≡ none → (find f curr target).1 ≡ curr + count f)

find_lem : (f : Forest) (curr target i : ℕ) → target ≡ curr + i → Finds f curr target i
unfolding find count Finds
find_lem nil curr target i e = (refl, λ _. omega arith)
find_lem (cons node children rest) curr target zero e =
    let here : nat_eq curr target ≡ true = (nat_eq_iff curr target).1 (omega (arith, e)) in
    (rw here, λ h. cc)
find_lem (cons node children rest) curr target (suc i) e =
    let away : nat_eq curr target ≡ false = rw e (later curr i) in
    let inside = find_lem children (suc curr) target i (omega (arith, e)) in
    elim (Option-cases (get_elem? (preorder children) i)) [
      | inr (b, z) ↦
          let got = inside.0 ∙ z in
          let all = get_elem?-some (preorder children) (preorder rest) i b z in
          (rw (away, got, all), λ h. cc)
      | inl z ↦
          let (le, all) = get_elem?-none (preorder children) (preorder rest) i z in
          let size = count-preorder children in
          let at = inside.1 z in
          let behind =
            find_lem rest (find children (suc curr) target).1 target
              (i - length (preorder children)) (omega (arith, e, le, size, at)) in
          let got = inside.0 ∙ z in
          (
            rw (away, got, all) behind.0,
            λ h. rw (away, got) (let more = behind.1 (sym all ∙ h) in omega (arith, more, at)),
          )
    ]

-- `find` counts the nodes as they are drawn: the one with number `idx` is a node's place among all
-- of them, before its children; and there is one exactly for the numbers below `count`.
pub find-preorder :
    (tree : Forest) (idx : ℕ)
    → ((find tree 0 idx).0 ≡ get_elem? (preorder tree) idx)
      × (is_some ((find tree 0 idx).0) ≡ ltb idx (count tree))
unfolding Finds
find-preorder tree idx =
    let found = (find_lem tree 0 idx idx (omega arith)).0 in
    (found, rw (found, count-preorder tree) (get_elem?-is_some (preorder tree) idx))
