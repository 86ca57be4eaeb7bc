-- ===== src/Tui/Clipboard.antt =====
-- `base64_encode` of crates/pg_lens_tui/src/clipboard.rs. A byte is a number below 256; a shift is
-- a product or a quotient by a power of two, a mask a remainder, and `|` of disjoint bits a sum.
pub mod Decode
use pg_lens.Prelude.{ℕ, ◌+◌, ◌-◌, ◌*◌, ◌/◌, ◌%◌, List, [], ◌∷◌, nat_eq, ltb, if◌then◌else◌}

-- `BASE64_ALPHABET[i]`, by the runs of its characters
unfoldable pub symbol : ℕ → ℕ
symbol i =
    if ltb i 26
    then b'A' + i
    else if ltb i 52
    then b'a' + (i - 26)
    else if ltb i 62
    then b'0' + (i - 52)
    else if nat_eq i 62
    then b'+'
    else b'/'

-- The loop over the chunks of three bytes, of which the last may be shorter.
unfoldable pub base64_encode : List ℕ → List ℕ
unfolding symbol
base64_encode [] = []
base64_encode (b0 ∷ []) = symbol (b0 / 4) ∷ symbol (b0 % 4 * 16) ∷ b'=' ∷ b'=' ∷ []
base64_encode (b0 ∷ b1 ∷ []) =
    symbol (b0 / 4) ∷ symbol (b0 % 4 * 16 + b1 / 16) ∷ symbol (b1 % 16 * 4) ∷ b'=' ∷ []
base64_encode (b0 ∷ b1 ∷ b2 ∷ rest) =
    symbol (b0 / 4)
    ∷ symbol (b0 % 4 * 16 + b1 / 16)
    ∷ symbol (b1 % 16 * 4 + b2 / 64)
    ∷ symbol (b2 % 64)
    ∷ base64_encode rest
