-- ===== src/History/Tests.antt =====
-- A library that writes a number as one line of itself, and points to keep.
use pg_lens.Prelude.{◌≤◌, ℕ, ◌≡◌, Option, none, some, [], ◌∷◌, arith}
use pg_lens.Prelude.Text.{Text}
use pg_lens.History.{Json, new, push_all, File}
use pg_lens.History.Ring.{push_all-take_last}

-- A point with a number that comes back and a rate that may not.
abbrev Sample : Type 0
Sample = ℕ × ℕ

abbrev first_of : Text → Option Sample
first_of [] = none
first_of (n ∷ r) = some (n, 0)

abbrev json : Json Sample
json = record { from_str = first_of; to_string = λ p. some (p.0 ∷ []) }

abbrev number : Sample → ℕ
number p = p.0

abbrev IsRated : Sample → Type 0
IsRated p = p.1 ≤ 9

abbrev old : File
old = some ((7 ∷ []) ∷ [] ∷ (8 ∷ []) ∷ [])

push_all-take_last_example : (push_all ℕ (new ℕ 2) (1 ∷ 2 ∷ 3 ∷ [])).points ≡ 2 ∷ 3 ∷ []
unfolding new
push_all-take_last_example =
    (push_all-take_last ℕ (new ℕ 2) (1 ∷ 2 ∷ 3 ∷ []) (omega arith, omega arith)).0
