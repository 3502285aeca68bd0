-- ===== src/Util/Json.antt =====
-- `json_string` of src/util.rs.
use yt_websub.Prelude.{
  ℕ, ◌+◌, ◌-◌, ◌*◌, ◌/◌, ◌%◌, ◌<◌, Bool, true, false, Option, none, some, [], ◌∷◌, ◌++◌,
  append_assoc, ◌≡◌, inl, inr, refl, ap, ◌∙◌, arith, Bytes, ltb, ◌==◌, if◌then◌else◌, Bool-cases,
  Option-cases, lt→ltb, ltb→lt,
}
use yt_websub.Prelude.Ranges.{holds_below, holds_below-at}
use yt_websub.Util.Hex.{table_at, hex_digits, hex_val}
use yt_websub.Util.JsonReader.{plain, hex_digit, short_escape, put_front, read_chars, read_json}

-- What one character becomes. A character beyond ASCII is copied, so each of its bytes is.
unfoldable pub json_byte : ℕ → Bytes
unfolding table_at
json_byte c =
    if c == b'"'
    then b'\\' ∷ b'"' ∷ []
    else if c == b'\\'
    then b'\\' ∷ b'\\' ∷ []
    else if c == b'\n'
    then b'\\' ∷ b'n' ∷ []
    else if c == b'\r'
    then b'\\' ∷ b'r' ∷ []
    else if c == b'\t'
    then b'\\' ∷ b't' ∷ []
    else if ltb c 0x20
    then b'\\'
      ∷ b'u'
      ∷ b'0'
      ∷ b'0'
      ∷ table_at hex_digits (c / 16)
      ∷ table_at hex_digits (c % 16)
      ∷ []
    else c ∷ []

unfoldable pub json_bytes : Bytes → Bytes
unfolding json_byte
json_bytes [] = []
json_bytes (c ∷ s) = json_byte c ++ json_bytes s

unfoldable pub json_string : Bytes → Bytes
unfolding json_bytes
json_string s = b'"' ∷ (json_bytes s ++ b'"' ∷ [])

-- The two digits of a control character are read back.
abbrev control_reads_back : ℕ → Bool
control_reads_back c = elim (hex_val (table_at hex_digits (c / 16))) [
  | none ↦ false
  | some hi ↦ elim (hex_val (table_at hex_digits (c % 16))) [
    | none ↦ false
    | some lo ↦ hi * 16 + lo == c
  ]
]

control_test : holds_below control_reads_back 32 ≡ true
unfolding holds_below hex_val table_at
control_test = refl

-- One digit of `\u`, and the last one.
digit_step :
    (left value c d next : ℕ) (t : Bytes)
    → hex_val c ≡ some d
    → left == 1 ≡ false
    → value * 16 + d ≡ next
    → read_chars (hex_digit left value) (c ∷ t) ≡ read_chars (hex_digit (left - 1) next) t
unfolding read_chars
digit_step left value c d next t h k e = rw (read_chars, h, k, e) refl

last_step :
    (value c d v : ℕ) (t : Bytes)
    → hex_val c ≡ some d
    → value * 16 + d ≡ v
    → v < 0x80
    → read_chars (hex_digit 1 value) (c ∷ t) ≡ put_front v (read_chars plain t)
unfolding read_chars
last_step value c d v t h e k = rw (read_chars, h, e, lt→ltb v 0x80 k) refl

zero_digit : hex_val b'0' ≡ some 0
unfolding hex_val
zero_digit = refl

escape_step : (t : Bytes) → read_chars plain (b'\\' ∷ b'u' ∷ t) ≡ read_chars (hex_digit 4 0) t
unfolding read_chars
escape_step t = refl

quote_ends : (rest : Bytes) → read_chars plain (b'"' ∷ rest) ≡ some ([], rest)
unfolding read_chars
quote_ends rest = refl

put_front-eq :
    (c v : ℕ) (o : Option (Bytes × Bytes)) → c == v ≡ true → put_front v o ≡ put_front c o
put_front-eq c v o h = ap (λ (x : ℕ). put_front x o) (ground (arith, h))

-- A character after a backslash, and one that is copied.
escaped_char :
    (sign v c : ℕ) (t : Bytes)
    → short_escape sign ≡ some v
    → c == v ≡ true
    → read_chars plain (b'\\' ∷ sign ∷ t) ≡ put_front c (read_chars plain t)
unfolding read_chars
escaped_char sign v c t h e = rw (read_chars, h) (put_front-eq c v (read_chars plain t) e)

copied_char :
    (c : ℕ) (t : Bytes)
    → c == b'"' ≡ false
    → c == b'\\' ≡ false
    → ltb c 0x20 ≡ false
    → read_chars plain (c ∷ t) ≡ put_front c (read_chars plain t)
unfolding read_chars
copied_char c t e1 e2 e3 = rw (read_chars, e1, e2, e3) refl

-- The digits that stand for a control character.
digits_of :
    (c : ℕ)
    → control_reads_back c ≡ true
    → (hi : ℕ) × (lo : ℕ) × (hex_val (table_at hex_digits (c / 16)) ≡ some hi)
      × (hex_val (table_at hex_digits (c % 16)) ≡ some lo)
      × (hi * 16 + lo ≡ c)
digits_of c h = elim (Option-cases (hex_val (table_at hex_digits (c / 16)))) [
  | inl e ↦ absurd (ground (arith, e))
  | inr (hi, e) ↦ elim (Option-cases (hex_val (table_at hex_digits (c % 16)))) [
    | inl k ↦ absurd (ground (arith, e, k))
    | inr (lo, k) ↦ (hi, lo, e, k, ground (arith, e, k))
  ]
]

control_digits :
    (c : ℕ)
    → c < 32
    → (hi : ℕ) × (lo : ℕ) × (hex_val (table_at hex_digits (c / 16)) ≡ some hi)
      × (hex_val (table_at hex_digits (c % 16)) ≡ some lo)
      × (hi * 16 + lo ≡ c)
control_digits c small = digits_of c (holds_below-at control_reads_back 32 c control_test small)

read_chars-control :
    (c : ℕ) (t : Bytes)
    → c < 32
    → read_chars plain (
        b'\\'
        ∷ b'u'
        ∷ b'0'
        ∷ b'0'
        ∷ table_at hex_digits (c / 16)
        ∷ table_at hex_digits (c % 16)
        ∷ t)
      ≡ put_front c (read_chars plain t)
read_chars-control c t small =
    let (hi, lo, h, l, e) = control_digits c small in
    let digits = table_at hex_digits (c / 16) ∷ table_at hex_digits (c % 16) ∷ t in
    escape_step (b'0' ∷ b'0' ∷ digits)
    ∙ digit_step 4 0 b'0' 0 0 (b'0' ∷ digits) zero_digit refl refl
    ∙ digit_step 3 0 b'0' 0 0 digits zero_digit refl refl
    ∙ digit_step 2 0 (table_at hex_digits (c / 16)) hi hi (table_at hex_digits (c % 16) ∷ t) h refl
        (omega arith)
    ∙ last_step hi (table_at hex_digits (c % 16)) lo c t l e (omega arith)

read_chars-json_byte :
    (c : ℕ) (t : Bytes) → read_chars plain (json_byte c ++ t) ≡ put_front c (read_chars plain t)
unfolding json_byte
read_chars-json_byte c t = elim (Bool-cases (c == b'"')) [
  | inl e ↦ rw (json_byte, e) (escaped_char b'"' b'"' c t refl e)
  | inr e1 ↦ elim (Bool-cases (c == b'\\')) [
    | inl e ↦ rw (json_byte, e1, e) (escaped_char b'\\' b'\\' c t refl e)
    | inr e2 ↦ elim (Bool-cases (c == b'\n')) [
      | inl e ↦ rw (json_byte, e1, e2, e) (escaped_char b'n' b'\n' c t refl e)
      | inr e3 ↦ elim (Bool-cases (c == b'\r')) [
        | inl e ↦ rw (json_byte, e1, e2, e3, e) (escaped_char b'r' b'\r' c t refl e)
        | inr e4 ↦ elim (Bool-cases (c == b'\t')) [
          | inl e ↦ rw (json_byte, e1, e2, e3, e4, e) (escaped_char b't' b'\t' c t refl e)
          | inr e5 ↦ elim (Bool-cases (ltb c 0x20)) [
            | inl e ↦
                rw (json_byte, e1, e2, e3, e4, e5, e) (read_chars-control c t (ltb→lt c 0x20 e))
            | inr e ↦ rw (json_byte, e1, e2, e3, e4, e5, e) (copied_char c t e1 e2 e)
          ]
        ]
      ]
    ]
  ]
]

read_chars-json_bytes :
    (s rest : Bytes) → read_chars plain (json_bytes s ++ b'"' ∷ rest) ≡ some (s, rest)
unfolding json_bytes
read_chars-json_bytes [] rest = quote_ends rest
read_chars-json_bytes (c ∷ s) rest =
    ap (read_chars plain) (append_assoc (json_byte c) (json_bytes s) (b'"' ∷ rest))
    ∙ read_chars-json_byte c (json_bytes s ++ b'"' ∷ rest)
    ∙ ap (put_front c) (read_chars-json_bytes s rest)

-- Whatever the text, its JSON string is read back as it is, up to its closing quote.
pub read_json-json_string : (s rest : Bytes) → read_json (json_string s ++ rest) ≡ some (s, rest)
unfolding read_json json_string
read_json-json_string s rest =
    ap (read_chars plain) (append_assoc (json_bytes s) (b'"' ∷ []) rest)
    ∙ read_chars-json_bytes s rest
