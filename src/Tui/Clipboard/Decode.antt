-- ===== src/Tui/Clipboard/Decode.antt =====
-- What a terminal makes of the text: the reading of base64 that RFC 4648 states.
use pg_lens.Prelude.{
  ℕ, ◌+◌, ◌-◌, ◌*◌, ◌/◌, ◌%◌, ◌<◌, ◌≡◌, refl, false, List, [], ◌∷◌, All, nat_eq, leb, if◌then◌else◌,
  arith,
}
use pg_lens.Tui.Clipboard.{symbol, base64_encode}

abbrev pub value : ℕ → ℕ
value c =
    if leb b'a' c
    then c - b'a' + 26
    else if leb b'A' c
    then c - b'A'
    else if leb b'0' c
    then c - b'0' + 52
    else if nat_eq c b'+'
    then 62
    else 63

-- The bytes of a group of four characters, with what the groups behind it give.
abbrev group : ℕ → ℕ → ℕ → ℕ → List ℕ → List ℕ
group a b c d rest =
    if nat_eq c b'='
    then (value a * 4 + value b / 16) ∷ []
    else if nat_eq d b'='
    then (value a * 4 + value b / 16) ∷ (value b % 16 * 16 + value c / 4) ∷ []
    else (value a * 4 + value b / 16)
      ∷ (value b % 16 * 16 + value c / 4)
      ∷ (value c % 4 * 64 + value d)
      ∷ rest

abbrev pub base64_decode : List ℕ → List ℕ
base64_decode (a ∷ b ∷ c ∷ d ∷ rest) = group a b c d (base64_decode rest)
base64_decode _ = []

value-symbol : (i : ℕ) → i < 64 → value (symbol i) ≡ i
unfolding symbol
value-symbol i h = ground arith

symbol-not_pad : (i : ℕ) → i < 64 → nat_eq (symbol i) b'=' ≡ false
unfolding symbol
symbol-not_pad i h = ground arith

first_byte : (b0 b1 : ℕ) → b1 < 256 → b0 / 4 * 4 + (b0 % 4 * 16 + b1 / 16) / 16 ≡ b0
first_byte b0 b1 h = omega arith

second_byte :
    (b0 b1 b2 : ℕ)
    → b1 < 256
    → b2 < 256
    → (b0 % 4 * 16 + b1 / 16) % 16 * 16 + (b1 % 16 * 4 + b2 / 64) / 4 ≡ b1
second_byte b0 b1 b2 h k = omega arith

third_byte : (b1 b2 : ℕ) → b2 < 256 → (b1 % 16 * 4 + b2 / 64) % 4 * 64 + b2 % 64 ≡ b2
third_byte b1 b2 h = omega arith

alone : (b0 : ℕ) → b0 / 4 * 4 + b0 % 4 * 16 / 16 ≡ b0
alone b0 = omega arith

last_of_two : (b0 b1 : ℕ) → b1 < 256 → (b0 % 4 * 16 + b1 / 16) % 16 * 16 + b1 % 16 * 4 / 4 ≡ b1
last_of_two b0 b1 h = omega arith

abbrev pub AreBytes : List ℕ → Type 0
AreBytes = All (λ b. b < 256)

-- What `base64_encode` writes for any bytes, of whatever number, reads back as these bytes.
pub base64_roundtrip :
    (bytes : List ℕ) → AreBytes bytes → base64_decode (base64_encode bytes) ≡ bytes
unfolding base64_encode
base64_roundtrip [] h = refl
base64_roundtrip (b0 ∷ []) (l0, _) =
    rw (
      value-symbol (b0 / 4) (omega (arith, l0)),
      value-symbol (b0 % 4 * 16) (omega arith),
      alone b0,
    )
base64_roundtrip (b0 ∷ b1 ∷ []) (l0, (l1, _)) = rw (
  symbol-not_pad (b1 % 16 * 4) (omega arith),
  value-symbol (b0 / 4) (omega (arith, l0)),
  value-symbol (b0 % 4 * 16 + b1 / 16) (omega (arith, l1)),
  value-symbol (b1 % 16 * 4) (omega arith),
  first_byte b0 b1 l1,
  last_of_two b0 b1 l1,
)
base64_roundtrip (b0 ∷ b1 ∷ b2 ∷ rest) (l0, (l1, (l2, more))) = rw (
  symbol-not_pad (b1 % 16 * 4 + b2 / 64) (omega (arith, l2)),
  symbol-not_pad (b2 % 64) (omega arith),
  value-symbol (b0 / 4) (omega (arith, l0)),
  value-symbol (b0 % 4 * 16 + b1 / 16) (omega (arith, l1)),
  value-symbol (b1 % 16 * 4 + b2 / 64) (omega (arith, l2)),
  value-symbol (b2 % 64) (omega arith),
  first_byte b0 b1 l1,
  second_byte b0 b1 b2 l1 l2,
  third_byte b1 b2 l2,
  base64_roundtrip rest more,
)
