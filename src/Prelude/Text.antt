-- ===== src/Prelude/Text.antt =====
-- Text as the list of its code points, with the operations of Rust's `str` that the program uses.
-- UTF-8 keeps the order of code points, so comparing texts is comparing these lists.
use Prim.Native.Char.{code}
use Prim.Native.String.{String}
use Prim.Native.Nat.{ℕ, ◌+◌, ◌-◌, ◌*◌}
use mathlib.Core.Path.{◌≡◌}
use mathlib.Core.Logic.{◌↔◌}
use mathlib.Core.Bool.{Bool, true, false, ◌&&◌, ◌||◌}
use mathlib.Core.List.{List, [], ◌∷◌, reverse}
use mathlib.Core.Option.{Option, none, some}
use native.Mathlib.Omega.{arith}
use pg_lens.Prelude.Lists.{All}
use pg_lens.Prelude.Tests.{nat_eq, nat_eq_iff, ltb, leb, if◌then◌else◌, Eq}

abbrev pub Text : Type 0
Text = List ℕ

abbrev pub codes : String → Text
codes String.[] = []
codes (String.◌∷◌ c s) = code c ∷ codes s

abbrev pub text_eq : Text → Text → Bool
text_eq [] [] = true
text_eq [] (d ∷ t) = false
text_eq (c ∷ s) [] = false
text_eq (c ∷ s) (d ∷ t) = nat_eq c d && text_eq s t

pub text_eq_iff : (s t : Text) → (text_eq s t ≡ true) ↔ (s ≡ t)
text_eq_iff [] [] = ground arith
text_eq_iff [] (d ∷ t) = ground arith
text_eq_iff (c ∷ s) [] = ground arith
text_eq_iff (c ∷ s) (d ∷ t) = ground (arith, text_eq_iff s t, nat_eq_iff c d)

instance abbrev pub Text_eq : Eq Text
Text_eq = record { same = text_eq; same_iff = text_eq_iff }

abbrev pub text_lt : Text → Text → Bool
text_lt s [] = false
text_lt [] (d ∷ t) = true
text_lt (c ∷ s) (d ∷ t) = ltb c d || (nat_eq c d && text_lt s t)

-- str::strip_prefix, str::starts_with
unfoldable pub strip_prefix : Text → Text → Option Text
strip_prefix [] s = some s
strip_prefix (p ∷ ps) [] = none
strip_prefix (p ∷ ps) (c ∷ s) = let rest = strip_prefix ps s in if nat_eq p c then rest else none

abbrev pub starts_with : Text → Text → Bool
starts_with p s = elim (strip_prefix p s) [ none ↦ false | some _ ↦ true ]

-- str::strip_suffix, str::ends_with
unfoldable pub strip_suffix : Text → Text → Option Text
unfolding strip_prefix
strip_suffix p s = elim (strip_prefix (reverse p) (reverse s)) [
  | none ↦ none
  | some r ↦ some (reverse r)
]

-- str::split_once at a character: what stands before its first occurrence, and behind it.
unfoldable pub split_once : ℕ → Text → Option (Text × Text)
split_once d [] = none
split_once d (c ∷ s) =
    let rest : Option (Text × Text) = elim (split_once d s) [
      | none ↦ none
      | some (a, b) ↦ some (c ∷ a, b)
    ] in
    if nat_eq c d then some ([], s) else rest

-- Text without the character `d`.
abbrev pub Without : ℕ → Text → Type 0
Without d s = All (λ c. nat_eq c d ≡ false) s

-- char::is_whitespace
unfoldable pub is_whitespace : ℕ → Bool
is_whitespace c =
    (leb 9 c && leb c 13)
    || nat_eq c 32
    || nat_eq c 0x85
    || nat_eq c 0xa0
    || nat_eq c 0x1680
    || (leb 0x2000 c && leb c 0x200a)
    || nat_eq c 0x2028
    || nat_eq c 0x2029
    || nat_eq c 0x202f
    || nat_eq c 0x205f
    || nat_eq c 0x3000

unfoldable pub trim_start : Text → Text
unfolding is_whitespace
trim_start [] = []
trim_start (c ∷ s) = let rest = trim_start s in if is_whitespace c then rest else c ∷ s

-- str::trim
unfoldable pub trim : Text → Text
unfolding trim_start
trim s = reverse (trim_start (reverse (trim_start s)))

abbrev pub is_digit : ℕ → Bool
is_digit c = leb b'0' c && leb c b'9'

unfoldable pub scan_digits : ℕ → Text → ℕ → Option ℕ
scan_digits limit [] n = if leb n limit then some n else none
scan_digits limit (c ∷ s) n =
    let rest = scan_digits limit s (n * 10 + (c - b'0')) in if is_digit c then rest else none

-- `str::parse` into an unsigned type whose largest value is `limit`: an optional `+`, then digits.
unfoldable pub parse_unsigned : ℕ → Text → Option ℕ
unfolding scan_digits
parse_unsigned limit [] = none
parse_unsigned limit (c ∷ []) = if is_digit c then some (c - b'0') else none
parse_unsigned limit (c ∷ d ∷ s) =
    if nat_eq c b'+' then scan_digits limit (d ∷ s) 0 else scan_digits limit (c ∷ d ∷ s) 0
