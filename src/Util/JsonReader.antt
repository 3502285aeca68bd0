-- ===== src/Util/JsonReader.antt =====
-- A reader for the strings of JSON, against which `json_string` of src/util.rs is measured.
use yt_websub.Prelude.{
  ℕ, ◌+◌, ◌-◌, ◌*◌, Option, none, some, [], ◌∷◌, Bytes, ltb, ◌==◌, if◌then◌else◌,
}
use yt_websub.Util.Hex.{hex_val}

-- A reader of JSON's strings, in which `\u` stands for a byte of ASCII: where it stands, what it has
-- read, and the text behind the closing quote.
pub data Mode : Type 0 where
  plain escaped : Mode
  hex_digit : ℕ → ℕ → Mode

abbrev pub short_escape : ℕ → Option ℕ
short_escape c =
    if c == b'"'
    then some b'"'
    else if c == b'\\'
    then some b'\\'
    else if c == b'/'
    then some b'/'
    else if c == b'b'
    then some 8
    else if c == b'f'
    then some 12
    else if c == b'n'
    then some 10
    else if c == b'r'
    then some 13
    else if c == b't'
    then some 9
    else none

abbrev pub put_front : ℕ → Option (Bytes × Bytes) → Option (Bytes × Bytes)
put_front c none = none
put_front c (some (s, rest)) = some (c ∷ s, rest)

unfoldable pub read_chars : Mode → Bytes → Option (Bytes × Bytes)
unfolding hex_val
read_chars m [] = none
read_chars plain (c ∷ s) =
    let copy = put_front c (read_chars plain s) in
    let escape = read_chars escaped s in
    if c == b'"'
    then some ([], s)
    else if c == b'\\'
    then escape
    else if ltb c 0x20
    then none
    else copy
read_chars escaped (c ∷ s) =
    let digits = read_chars (hex_digit 4 0) s in
    elim (short_escape c) [
      | some v ↦ put_front v (read_chars plain s)
      | none ↦ if c == b'u' then digits else none
    ]
read_chars (hex_digit left value) (c ∷ s) = elim (hex_val c) [
  | none ↦ none
  | some d ↦
      (let last = put_front (value * 16 + d) (read_chars plain s) in
        let more = read_chars (hex_digit (left - 1) (value * 16 + d)) s in
        if left == 1 then if ltb (value * 16 + d) 0x80 then last else none else more)
]

unfoldable pub read_json : Bytes → Option (Bytes × Bytes)
read_json [] = none
read_json (c ∷ s) = if c == b'"' then read_chars plain s else none
