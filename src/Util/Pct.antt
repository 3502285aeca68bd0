-- ===== src/Util/Pct.antt =====
-- `pct_encode` and `pct_decode` of src/util.rs: a stored field without structural bytes.
use Prim.Native.Nat.{bit_and}
use yt_websub.Prelude.{
  ℕ, ◌/◌, ◌≤◌, ◌<◌, Bool, true, false, not, ◌&&◌, ◌||◌, Option, none, some, [], ◌∷◌, ◌++◌, ◌≡◌, ◌≢◌,
  refl, arith, Bytes, codes, ltb, leb, ◌==◌, if◌then◌else◌, ◌>>=◌, All, All-append, Bool-cases, inl,
  inr, ap, ◌∙◌, all,
}
use yt_websub.Prelude.Ranges.{holds_below, holds_below-at}
use yt_websub.Text.Utf8.{
  start, one, Utf8State, next, valid_from, valid_from_step, is_utf8, from_utf8_lossy,
  from_utf8_lossy-valid,
}
use yt_websub.Util.Hex.{table_at, hex_val, join_nibbles}

abbrev pub upper_digits : Bytes
upper_digits = codes "0123456789ABCDEF"

unfoldable pub is_escaped : ℕ → Bool
is_escaped b = ltb b 0x20 || b == b'%' || b == 0x7f

-- What one byte is written as.
pct_byte : ℕ → Bytes
unfolding is_escaped table_at
pct_byte b =
    if is_escaped b
    then b'%' ∷ table_at upper_digits (b / 16) ∷ table_at upper_digits (bit_and b 0x0f) ∷ []
    else b ∷ []

pct_bytes : Bytes → Bytes
unfolding pct_byte
pct_bytes [] = []
pct_bytes (b ∷ s) = pct_byte b ++ pct_bytes s

-- `String::from_utf8(out).unwrap_or_default()` at the end.
unfoldable pub pct_encode : Bytes → Bytes
unfolding pct_bytes is_utf8
pct_encode s = if is_utf8 (pct_bytes s) then pct_bytes s else []

-- The byte of two hexadecimal digits.
unfoldable pub hex_pair : ℕ → ℕ → Option ℕ
unfolding hex_val join_nibbles
hex_pair h l = do hi ← hex_val h; lo ← hex_val l; some (join_nibbles hi lo)

-- A `%` with two bytes behind it that are digits is their byte; any other byte is copied.
unescape : Bytes → Bytes
unescape [] = []
unescape (a ∷ []) = a ∷ []
unescape (a ∷ b ∷ []) = a ∷ unescape (b ∷ [])
unescape (a ∷ b ∷ c ∷ s) =
    let copy = a ∷ unescape (b ∷ c ∷ s) in
    let cut = unescape s in
    if a == b'%' then elim (hex_pair b c) [ none ↦ copy | some v ↦ v ∷ cut ] else copy

unfoldable pub pct_decode : Bytes → Bytes
unfolding unescape hex_pair from_utf8_lossy
pct_decode s = from_utf8_lossy (unescape s)

abbrev escape_reads_back : ℕ → Bool
escape_reads_back b =
    elim (hex_pair (table_at upper_digits (b / 16)) (table_at upper_digits (bit_and b 0x0f))) [
      | none ↦ false
      | some v ↦ v == b
    ]

escape_test : holds_below escape_reads_back 128 ≡ true
unfolding holds_below hex_pair table_at
escape_test = refl

escape_parts :
    (b : ℕ)
    → escape_reads_back b ≡ true
    → hex_pair (table_at upper_digits (b / 16)) (table_at upper_digits (bit_and b 0x0f)) ≡ some b
escape_parts b h = ground arith

is_escaped-lt : (b : ℕ) → is_escaped b ≡ true → b < 128
unfolding is_escaped
is_escaped-lt b h = ground arith

hex_pair-escape :
    (b : ℕ)
    → is_escaped b ≡ true
    → hex_pair (table_at upper_digits (b / 16)) (table_at upper_digits (bit_and b 0x0f)) ≡ some b
hex_pair-escape b h =
    escape_parts b (holds_below-at escape_reads_back 128 b escape_test (is_escaped-lt b h))

unescape_copy : (b : ℕ) (s : Bytes) → b ≢ b'%' → unescape (b ∷ s) ≡ b ∷ unescape s
unfolding unescape
unescape_copy b [] h = refl
unescape_copy b (c ∷ []) h = refl
unescape_copy b (c ∷ d ∷ s) h = ground arith

unescape_cut :
    (h l v : ℕ) (s : Bytes) → hex_pair h l ≡ some v → unescape (b'%' ∷ h ∷ l ∷ s) ≡ v ∷ unescape s
unfolding unescape
unescape_cut h l v s e = ground arith

unescape-pct_byte : (b : ℕ) (s : Bytes) → unescape (pct_byte b ++ s) ≡ b ∷ unescape s
unfolding pct_byte
unescape-pct_byte b s = elim (Bool-cases (is_escaped b)) [
  | inl e ↦ rw e (unescape_cut _ _ b s (hex_pair-escape b e))
  | inr e ↦ rw e (unescape_copy b s (ground (arith, e)))
]

unescape-pct_bytes : (s : Bytes) → unescape (pct_bytes s) ≡ s
unfolding pct_bytes
unescape-pct_bytes [] = unfold unescape in refl
unescape-pct_bytes (b ∷ s) =
    unescape-pct_byte b (pct_bytes s) ∙ ap (λ (t : Bytes). b ∷ t) (unescape-pct_bytes s)

-- An escaped byte is an ASCII character, and so is each byte that it is written as.
pct_byte_ascii : holds_below (λ b. all (λ c. ltb c 0x80) (pct_byte b)) 128 ≡ true
unfolding holds_below pct_byte all
pct_byte_ascii = refl

valid_from_ascii : (c : ℕ) (s : Bytes) → c < 128 → valid_from start (c ∷ s) ≡ valid_from start s
unfolding valid_from next
valid_from_ascii c s h = ground arith

valid_from-all_ascii :
    (p s : Bytes) → all (λ c. ltb c 0x80) p ≡ true → valid_from start (p ++ s) ≡ valid_from start s
unfolding all
valid_from-all_ascii [] s h = refl
valid_from-all_ascii (c ∷ p) s h =
    valid_from_ascii c (p ++ s) (ground arith) ∙ valid_from-all_ascii p s (ground arith)

next_ascii :
    (st : Utf8State) (b : ℕ) (st' : Utf8State) → next st b ≡ some st' → b < 128 → st ≡ start
unfolding next
next_ascii start b st' e h = refl
next_ascii one b st' e h = ground arith
next_ascii _ b st' e h = ground arith

next_ascii_start : (b : ℕ) → b < 128 → next start b ≡ some start
unfolding next
next_ascii_start b h = ground arith

valid_from-next :
    (st st' : Utf8State) (b : ℕ) (s : Bytes)
    → next st b ≡ some st'
    → valid_from st (b ∷ s) ≡ valid_from st' s
unfolding valid_from
valid_from-next st st' b s e = rw (e, valid_from)

pct_byte-ascii : (b : ℕ) → b < 128 → all (λ c. ltb c 0x80) (pct_byte b) ≡ true
pct_byte-ascii b h =
    holds_below-at (λ (x : ℕ). all (λ c. ltb c 0x80) (pct_byte x)) 128 b pct_byte_ascii h

valid_from-pct_byte :
    (st st' : Utf8State) (b : ℕ) (s : Bytes)
    → next st b ≡ some st'
    → b < 128
    → valid_from st' s ≡ true
    → valid_from st (pct_byte b ++ s) ≡ true
valid_from-pct_byte st st' b s e lt h =
    let z = next_ascii st b st' e lt in
    let w : st' ≡ start = cc (e, z, next_ascii_start b lt) in
    rw (z, valid_from-all_ascii (pct_byte b) s (pct_byte-ascii b lt)) (rw w at h)

valid_from-pct_bytes :
    (st : Utf8State) (s : Bytes) → valid_from st s ≡ true → valid_from st (pct_bytes s) ≡ true
unfolding pct_bytes
valid_from-pct_bytes st [] h = h
valid_from-pct_bytes st (b ∷ s) h =
    let (st', e, h') = valid_from_step st s b h in
    let ih = valid_from-pct_bytes st' s h' in
    elim (Bool-cases (is_escaped b)) [
      | inl esc ↦ valid_from-pct_byte st st' b (pct_bytes s) e (is_escaped-lt b esc) ih
      | inr plain ↦ rw plain (valid_from-next st st' b (pct_bytes s) e ∙ ih)
    ]

-- The escaped text is UTF-8 wherever the text is, so the fallback of `pct_encode` is never taken.
pct_encode-pct_bytes : (s : Bytes) → is_utf8 s ≡ true → pct_encode s ≡ pct_bytes s
unfolding pct_encode is_utf8
pct_encode-pct_bytes s h = rw (valid_from-pct_bytes start s h)

-- A stored field of UTF-8 text is read back as it was, whatever characters it holds.
pub pct_decode-encode : (s : Bytes) → is_utf8 s ≡ true → pct_decode (pct_encode s) ≡ s
unfolding pct_decode
pct_decode-encode s h =
    rw (pct_encode-pct_bytes s h, unescape-pct_bytes s) (from_utf8_lossy-valid s h)

-- No control character: no tab, newline or carriage return.
abbrev pub IsFieldByte : ℕ → Type 0
IsFieldByte c = (0x20 ≤ c) × (c ≢ 0x7f)

abbrev is_field_byte : ℕ → Bool
is_field_byte c = leb 0x20 c && not (c == 0x7f)

all-IsFieldByte : (s : Bytes) → all is_field_byte s ≡ true → All IsFieldByte s
unfolding all
all-IsFieldByte [] h = tt
all-IsFieldByte (c ∷ s) h = (ground arith, all-IsFieldByte s (ground arith))

pct_byte_test : holds_below (λ b. all is_field_byte (pct_byte b)) 128 ≡ true
unfolding holds_below pct_byte all
pct_byte_test = refl

pct_byte-All : (b : ℕ) → All IsFieldByte (pct_byte b)
pct_byte-All b = elim (Bool-cases (is_escaped b)) [
  | inl e ↦ all-IsFieldByte (pct_byte b) (
      holds_below-at (λ (x : ℕ). all is_field_byte (pct_byte x)) 128 b pct_byte_test
        (is_escaped-lt b e))
  | inr e ↦ unfold pct_byte in rw e (ground (arith, e), tt)
]

pct_bytes-All : (s : Bytes) → All IsFieldByte (pct_bytes s)
unfolding pct_bytes
pct_bytes-All [] = tt
pct_bytes-All (b ∷ s) =
    All-append IsFieldByte (pct_byte b) (pct_bytes s) (pct_byte-All b) (pct_bytes-All s)

-- Whatever the text, the stored field holds no control character.
pub pct_encode-All : (s : Bytes) → All IsFieldByte (pct_encode s)
unfolding pct_encode
pct_encode-All s = elim (Bool-cases (is_utf8 (pct_bytes s))) [
  | inl e ↦ rw e (pct_bytes-All s)
  | inr e ↦ rw e tt
]

-- A stored field is text again.
pub pct_encode-utf8 : (s : Bytes) → is_utf8 (pct_encode s) ≡ true
unfolding pct_encode
pct_encode-utf8 s = elim (Bool-cases (is_utf8 (pct_bytes s))) [
  | inl e ↦ rw e e
  | inr e ↦ rw e (unfold is_utf8 in refl)
]

pct_bytes-plain : (s : Bytes) → All (λ b. is_escaped b ≡ false) s → pct_bytes s ≡ s
unfolding pct_bytes
pct_bytes-plain [] h = refl
pct_bytes-plain (b ∷ s) (plain, h) = rw (plain, pct_bytes-plain s h)

-- Text without structural bytes is stored as it is.
pub pct_encode-plain :
    (s : Bytes) → is_utf8 s ≡ true → All (λ b. is_escaped b ≡ false) s → pct_encode s ≡ s
pct_encode-plain s h plain = pct_encode-pct_bytes s h ∙ pct_bytes-plain s plain
