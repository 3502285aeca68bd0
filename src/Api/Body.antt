-- ===== src/Api/Body.antt =====
-- What `handle` of src/api.rs reads out of a request's body, and the file of channels that it writes.
use yt_websub.Prelude.{
  ℕ, ◌+◌, ◌*◌, Bool, ◌&&◌, not, Option, none, some, List, [], ◌∷◌, ◌++◌, Bytes, codes, leb, ◌==◌,
  ◌=b◌, if◌then◌else◌, ◌>>=◌, length, drop, take, all, keep,
}
use yt_websub.Text.Find.{find}
use yt_websub.Text.Number.{max_u64, parse, is_digit}
use yt_websub.Text.Pieces.{lines, strip_prefix}
use yt_websub.Text.Lines.{rows}
use yt_websub.Text.Space.{trim, trim_start}
use yt_websub.Text.Utf8.{is_utf8, from_utf8_lossy}
use yt_websub.Renew.Desired.{is_entry}

abbrev pub max_body : ℕ
max_body = 1024 * 1024

unfoldable pub read_body : Bytes → Bytes
unfolding from_utf8_lossy
read_body body = from_utf8_lossy (take max_body body)

-- `take_while(|c| c.is_ascii_digit())`
unfoldable pub take_digits : Bytes → Bytes
unfolding is_digit
take_digits [] = []
take_digits (c ∷ s) = let rest = take_digits s in if is_digit c then c ∷ rest else []

-- A key in quotes.
abbrev pub quoted : Bytes → Bytes
quoted key = b'"' ∷ (key ++ b'"' ∷ [])

unfoldable pub extract_u64 : Bytes → Bytes → Option ℕ
unfolding find strip_prefix trim_start take_digits parse
extract_u64 text key = do
  pos ← find (quoted key) text
  rest ← strip_prefix (codes ":") (trim_start (drop (pos + length (quoted key)) text))
  parse max_u64 (take_digits (trim_start rest))

-- The text behind the first `[`.
unfoldable pub after_bracket : Bytes → Option Bytes
after_bracket [] = none
after_bracket (c ∷ s) = let later = after_bracket s in if c == b'[' then some s else later

-- The text before the first `]`, or all of it.
unfoldable pub before_bracket : Bytes → Bytes
before_bracket [] = []
before_bracket (c ∷ s) = let rest = before_bracket s in if c == b']' then [] else c ∷ rest

-- Where the scan stands: between strings, in one, or behind a backslash in one.
pub data Scan : Type 0 where
  between_strings in_string escaped : Scan

abbrev pub unescaped : ℕ → ℕ
unescaped c =
    if c == b'n' then b'\n' else if c == b't' then b'\t' else if c == b'r' then b'\r' else c

-- A string that ends is kept unless it is blank.
abbrev pub push_trimmed : Bytes → List Bytes → List Bytes
push_trimmed s out = if trim s =b [] then out else trim s ∷ out

-- The scan, with what it has of the string that it is in.
unfoldable pub scan_strings : Scan → Bytes → Bytes → List Bytes
unfolding trim
scan_strings between_strings cur [] = []
scan_strings between_strings cur (c ∷ s) =
    let inside = scan_strings in_string [] s in
    let outside = scan_strings between_strings [] s in if c == b'"' then inside else outside
scan_strings in_string cur [] = push_trimmed cur []
scan_strings in_string cur (c ∷ s) =
    let behind = scan_strings escaped cur s in
    let ended = push_trimmed cur (scan_strings between_strings [] s) in
    let more = scan_strings in_string (cur ++ c ∷ []) s in
    if c == b'\\' then behind else if c == b'"' then ended else more
scan_strings escaped cur [] = push_trimmed cur []
scan_strings escaped cur (c ∷ s) = scan_strings in_string (cur ++ unescaped c ∷ []) s

unfoldable pub extract_string_array : Bytes → List Bytes
unfolding after_bracket before_bracket scan_strings
extract_string_array text = elim (after_bracket text) [
  | none ↦ []
  | some rest ↦ scan_strings between_strings [] (before_bracket rest)
]

abbrev pub is_plain : ℕ → Bool
is_plain b = leb 0x20 b && not (b == 0x7f)

unfoldable pub is_safe_channel_entry : Bytes → Bool
unfolding all
is_safe_channel_entry s = not (s =b []) && all is_plain s

-- The entries of the body that are kept.
unfoldable pub posted_channels : Bytes → List Bytes
unfolding extract_string_array is_safe_channel_entry keep
posted_channels body = keep is_safe_channel_entry (extract_string_array body)

-- The lines of the file that are blank or comments.
unfoldable pub kept_lines : Option Bytes → List Bytes
unfolding is_utf8 lines keep is_entry
kept_lines none = []
kept_lines (some existing) =
    if is_utf8 existing then keep (λ line. not (is_entry line)) (lines existing) else []

unfoldable pub render_channels_file : Option Bytes → List Bytes → Bytes
unfolding rows kept_lines
render_channels_file existing channels = rows (kept_lines existing) ++ rows channels
