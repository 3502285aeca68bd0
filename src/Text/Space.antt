-- ===== src/Text/Space.antt =====
-- `str::trim`: Unicode's White_Space, by the bytes that its characters have in UTF-8.
pub mod Trimmed
use yt_websub.Prelude.{
  ℕ, zero, suc, Bool, true, false, ◌&&◌, ◌||◌, [], ◌∷◌, ◌≤◌, ◌≡◌, refl, ap, ◌∙◌, arith, Bytes,
  codes, All, leb, ◌==◌, if◌then◌else◌,
}

-- U+0009 to U+000D, and U+0020.
is_ascii_space : ℕ → Bool
is_ascii_space b = (leb 9 b && leb b 13) || b == 32

-- U+0085 and U+00A0.
is_latin_space : ℕ → ℕ → Bool
is_latin_space a b = a == 0xC2 && (b == 0x85 || b == 0xA0)

-- U+1680, U+2000 to U+200A, U+2028, U+2029, U+202F, U+205F and U+3000.
is_wide_space : ℕ → ℕ → ℕ → Bool
is_wide_space a b c =
    (a == 0xE1 && b == 0x9A && c == 0x80)
    || (a == 0xE2 && b == 0x80 && (leb 0x80 c && leb c 0x8A || c == 0xA8 || c == 0xA9 || c == 0xAF))
    || (a == 0xE2 && b == 0x81 && c == 0x9F)
    || (a == 0xE3 && b == 0x80 && c == 0x80)

-- The length of the white space character that a text begins with, or 0.
space_len : Bytes → ℕ
unfolding is_ascii_space is_latin_space is_wide_space
space_len [] = 0
space_len (a ∷ []) = if is_ascii_space a then 1 else 0
space_len (a ∷ b ∷ []) = if is_ascii_space a then 1 else if is_latin_space a b then 2 else 0
space_len (a ∷ b ∷ c ∷ s) =
    if is_ascii_space a
    then 1
    else if is_latin_space a b
    then 2
    else if is_wide_space a b c
    then 3
    else 0

-- `k` bytes of a character are still to be skipped.
skip_spaces : ℕ → Bytes → Bytes
unfolding space_len
skip_spaces k [] = []
skip_spaces (suc k) (c ∷ s) = skip_spaces k s
skip_spaces zero (c ∷ s) = elim (space_len (c ∷ s)) [ zero ↦ c ∷ s | suc k ↦ skip_spaces k s ]

unfoldable pub trim_start : Bytes → Bytes
unfolding skip_spaces
trim_start s = skip_spaces 0 s

unfoldable pub is_blank : Bytes → Bool
unfolding trim_start
is_blank s = elim (trim_start s) [ [] ↦ true | c ∷ r ↦ false ]

-- No white space character begins with a byte that continues another.
unfoldable pub trim_end : Bytes → Bytes
trim_end [] = []
trim_end (c ∷ s) = let rest = trim_end s in if is_blank (c ∷ s) then [] else c ∷ rest

unfoldable pub trim : Bytes → Bytes
unfolding trim_start trim_end is_blank
trim s = trim_end (trim_start s)

trim_test : trim (codes " \t ab c\r\n ") ≡ codes "ab c"
unfolding trim
trim_test = refl

trim_wide_test : trim (0xE3 ∷ 0x80 ∷ 0x80 ∷ b'x' ∷ 0xC2 ∷ 0xA0 ∷ []) ≡ b'x' ∷ []
unfolding trim
trim_wide_test = refl

-- Printable ASCII other than the space.
abbrev pub IsGraphic : ℕ → Type 0
IsGraphic b = (33 ≤ b) × (b ≤ 126)

space_len-IsGraphic : (b : ℕ) (s : Bytes) → IsGraphic b → space_len (b ∷ s) ≡ 0
unfolding space_len
space_len-IsGraphic b [] h = ground arith
space_len-IsGraphic b (c ∷ []) h = ground arith
space_len-IsGraphic b (c ∷ d ∷ s) h = ground arith

pub trim_start-IsGraphic : (b : ℕ) (s : Bytes) → IsGraphic b → trim_start (b ∷ s) ≡ b ∷ s
unfolding trim_start
trim_start-IsGraphic b s h = rw (space_len-IsGraphic b s h, skip_spaces)

is_blank-IsGraphic : (b : ℕ) (s : Bytes) → IsGraphic b → is_blank (b ∷ s) ≡ false
unfolding is_blank
is_blank-IsGraphic b s h = rw (space_len-IsGraphic b s h, is_blank, skip_spaces)

trim_end-IsGraphic : (s : Bytes) → All IsGraphic s → trim_end s ≡ s
unfolding trim_end
trim_end-IsGraphic [] h = refl
trim_end-IsGraphic (b ∷ s) (g, h) = rw (is_blank-IsGraphic b s g, trim_end-IsGraphic s h)

-- Text with no white space in it is left as it is.
pub trim-IsGraphic : (s : Bytes) → All IsGraphic s → trim s ≡ s
unfolding trim
trim-IsGraphic [] h = refl
trim-IsGraphic (b ∷ s) h = ap trim_end (trim_start-IsGraphic b s h.0) ∙ trim_end-IsGraphic (b ∷ s) h
