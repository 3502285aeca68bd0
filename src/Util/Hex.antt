-- ===== src/Util/Hex.antt =====
-- `hex_encode`, `hex_val` and `hex_decode` of src/util.rs.
use Prim.Native.Nat.{bit_and, bit_or}
use yt_websub.Prelude.{
  ℕ, zero, suc, ◌+◌, ◌-◌, ◌*◌, ◌/◌, ◌%◌, ◌<◌, Bool, true, false, ◌&&◌, Option, none, some, [], ◌∷◌,
  ◌≡◌, refl, arith, Bytes, codes, ltb, leb, ◌==◌, ltb→lt, if◌then◌else◌, ◌>>=◌, All, length,
}
use yt_websub.Prelude.Ranges.{holds_below, holds_below-at}
use yt_websub.Text.Space.{trim, IsGraphic, trim-IsGraphic}

-- `table[i]`; an index past the end would panic, and none is.
unfoldable pub table_at : Bytes → ℕ → ℕ
table_at [] i = 0
table_at (c ∷ t) zero = c
table_at (c ∷ t) (suc i) = table_at t i

abbrev pub hex_digits : Bytes
hex_digits = codes "0123456789abcdef"

unfoldable pub hex_encode : Bytes → Bytes
unfolding table_at
hex_encode [] = []
hex_encode (b ∷ s) =
    table_at hex_digits (b / 16) ∷ table_at hex_digits (bit_and b 0x0f) ∷ hex_encode s

unfoldable pub hex_val : ℕ → Option ℕ
hex_val c =
    if leb b'0' c && leb c b'9'
    then some (c - b'0')
    else if leb b'a' c && leb c b'f'
    then some (c - b'a' + 10)
    else if leb b'A' c && leb c b'F'
    then some (c - b'A' + 10)
    else none

-- `(hi << 4) | lo` of two bytes.
unfoldable pub join_nibbles : ℕ → ℕ → ℕ
join_nibbles hi lo = bit_or (hi * 16 % 256) lo

-- The loop takes two bytes a round; of an odd number it would read past the end, and panic.
decode_pairs : Bytes → Option Bytes
decode_pairs [] = some []
decode_pairs (x ∷ []) = none
decode_pairs (x ∷ y ∷ s) = do
  hi ← hex_val x
  lo ← hex_val y
  rest ← decode_pairs s
  some (join_nibbles hi lo ∷ rest)

unfoldable pub hex_decode : Bytes → Option Bytes
unfolding decode_pairs hex_val join_nibbles
hex_decode s = let t = trim s in if length t % 2 == 0 then decode_pairs t else none

abbrev pub IsByte : ℕ → Type 0
IsByte b = b < 256

-- Both digits of a byte are read back, whichever of the two alphabets `table` is.
abbrev reads_back : Bytes → ℕ → Bool
reads_back table b = elim (hex_val (table_at table (b / 16))) [
  | none ↦ false
  | some hi ↦ elim (hex_val (table_at table (bit_and b 0x0f))) [
    | none ↦ false
    | some lo ↦ join_nibbles hi lo == b
  ]
]

hex_digits_test : holds_below (reads_back hex_digits) 256 ≡ true
unfolding holds_below hex_val table_at join_nibbles
hex_digits_test = refl

reads_back-parts :
    (table : Bytes) (b : ℕ)
    → reads_back table b ≡ true
    → (hi lo : ℕ) × (hex_val (table_at table (b / 16)) ≡ some hi)
      × (hex_val (table_at table (bit_and b 0x0f)) ≡ some lo)
      × (join_nibbles hi lo ≡ b)
reads_back-parts table b h = ground arith

hex_digits_parts :
    (b : ℕ)
    → IsByte b
    → (hi lo : ℕ) × (hex_val (table_at hex_digits (b / 16)) ≡ some hi)
      × (hex_val (table_at hex_digits (bit_and b 0x0f)) ≡ some lo)
      × (join_nibbles hi lo ≡ b)
hex_digits_parts b h =
    reads_back-parts hex_digits b (holds_below-at (reads_back hex_digits) 256 b hex_digits_test h)

decode_pairs-encode : (s : Bytes) → All IsByte s → decode_pairs (hex_encode s) ≡ some s
unfolding decode_pairs hex_encode
decode_pairs-encode [] h = refl
decode_pairs-encode (b ∷ s) (hb, h) =
    let (hi, lo, p, q, r) = hex_digits_parts b hb in rw (p, q, decode_pairs-encode s h, r)

abbrev graphic_at : ℕ → Bool
graphic_at i = leb 33 (table_at hex_digits i) && leb (table_at hex_digits i) 126

graphic_test : holds_below graphic_at 16 ≡ true
unfolding holds_below table_at
graphic_test = refl

IsGraphic-parts : (i : ℕ) → graphic_at i ≡ true → IsGraphic (table_at hex_digits i)
IsGraphic-parts i h = ground arith

low_test : holds_below (λ b. ltb (bit_and b 0x0f) 16) 256 ≡ true
unfolding holds_below
low_test = refl

pub low-lt : (b : ℕ) → IsByte b → bit_and b 0x0f < 16
low-lt b h = ltb→lt _ _ (holds_below-at (λ (x : ℕ). ltb (bit_and x 0x0f) 16) 256 b low_test h)

hex_digits-IsGraphic : (i : ℕ) → i < 16 → IsGraphic (table_at hex_digits i)
hex_digits-IsGraphic i h = IsGraphic-parts i (holds_below-at graphic_at 16 i graphic_test h)

pub hex_encode-IsGraphic : (s : Bytes) → All IsByte s → All IsGraphic (hex_encode s)
unfolding hex_encode
hex_encode-IsGraphic [] h = tt
hex_encode-IsGraphic (b ∷ s) (hb, h) = (
  hex_digits-IsGraphic (b / 16) (omega arith),
  (hex_digits-IsGraphic (bit_and b 0x0f) (low-lt b hb), hex_encode-IsGraphic s h),
)

length-hex_encode : (s : Bytes) → length (hex_encode s) ≡ 2 * length s
unfolding hex_encode
length-hex_encode [] = refl
length-hex_encode (b ∷ s) = omega (arith, length-hex_encode s)

-- Bytes are read back from their hexadecimal print.
pub hex_decode-encode : (s : Bytes) → All IsByte s → hex_decode (hex_encode s) ≡ some s
unfolding hex_decode
hex_decode-encode s h =
    rw (trim-IsGraphic (hex_encode s) (hex_encode-IsGraphic s h), length-hex_encode s)
      (ground (arith, decode_pairs-encode s h))
