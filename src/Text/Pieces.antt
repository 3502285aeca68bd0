-- ===== src/Text/Pieces.antt =====
-- `split`, `split_once`, `lines`, prefixes and suffixes.
use yt_websub.Prelude.{
  ℕ, Bool, true, false, ◌&&◌, Option, none, some, List, [], ◌∷◌, ◌++◌, append-nil, append_assoc,
  ◌≡◌, ◌≢◌, refl, ap, ◌∙◌, arith, Bytes, ◌==◌, if◌then◌else◌, All,
}

abbrev pub Lacks : ℕ → Bytes → Type 0
Lacks b = All (λ c. c ≢ b)

-- `cur` is the piece begun.
unfoldable pub pieces : ℕ → Bytes → Bytes → List Bytes
pieces sep cur [] = cur ∷ []
pieces sep cur (c ∷ s) =
    let cut = cur ∷ pieces sep [] s in
    let copy = pieces sep (cur ++ c ∷ []) s in if c == sep then cut else copy

-- `s.split(sep)`
unfoldable pub split : ℕ → Bytes → List Bytes
unfolding pieces
split sep s = pieces sep [] s

once_from : ℕ → Bytes → Bytes → Option (Bytes × Bytes)
once_from sep cur [] = none
once_from sep cur (c ∷ s) =
    let copy = once_from sep (cur ++ c ∷ []) s in if c == sep then some (cur, s) else copy

-- `s.split_once(sep)`
unfoldable pub split_once : ℕ → Bytes → Option (Bytes × Bytes)
unfolding once_from
split_once sep s = once_from sep [] s

-- A line's text without the `\r` of its `\r\n`.
unfoldable pub chomp : Bytes → Bytes
chomp [] = []
chomp (x ∷ []) = if x == b'\r' then [] else x ∷ []
chomp (x ∷ y ∷ s) = x ∷ chomp (y ∷ s)

unfoldable pub lines_from : Bytes → Bytes → List Bytes
lines_from [] [] = []
lines_from (x ∷ cur) [] = (x ∷ cur) ∷ []
lines_from cur (c ∷ s) =
    let cut = chomp cur ∷ lines_from [] s in
    let copy = lines_from (cur ++ c ∷ []) s in if c == b'\n' then cut else copy

-- `s.lines()`, and the lines that `BufRead::lines` reads, before their check for UTF-8.
unfoldable pub lines : Bytes → List Bytes
unfolding lines_from chomp
lines s = lines_from [] s

unfoldable pub starts_with : Bytes → Bytes → Bool
starts_with [] s = true
starts_with (p ∷ ps) [] = false
starts_with (p ∷ ps) (c ∷ s) = p == c && starts_with ps s

-- `s.starts_with(c)` of one byte.
abbrev pub begins_by : ℕ → Bytes → Bool
begins_by c [] = false
begins_by c (d ∷ s) = c == d

-- `s.strip_prefix(p)`
unfoldable pub strip_prefix : Bytes → Bytes → Option Bytes
strip_prefix [] s = some s
strip_prefix (p ∷ ps) [] = none
strip_prefix (p ∷ ps) (c ∷ s) = let rest = strip_prefix ps s in if p == c then rest else none

-- `s.trim_end_matches(c)`
unfoldable pub trim_end_matches : ℕ → Bytes → Bytes
trim_end_matches c [] = []
trim_end_matches c (x ∷ s) = elim (trim_end_matches c s) [
  | [] ↦ if x == c then [] else x ∷ []
  | y ∷ r ↦ x ∷ y ∷ r
]

pieces-append :
    (sep : ℕ) (cur p rest : Bytes)
    → Lacks sep p
    → pieces sep cur (p ++ sep ∷ rest) ≡ (cur ++ p) ∷ pieces sep [] rest
unfolding pieces
pieces-append sep cur [] rest h = rw append-nil (ground arith)
pieces-append sep cur (c ∷ p) rest h =
    ground (arith, pieces-append sep (cur ++ c ∷ []) p rest h.1, append_assoc cur (c ∷ []) p)

pieces-last : (sep : ℕ) (cur p : Bytes) → Lacks sep p → pieces sep cur p ≡ (cur ++ p) ∷ []
unfolding pieces
pieces-last sep cur [] h = rw append-nil
pieces-last sep cur (c ∷ p) h =
    ground (arith, pieces-last sep (cur ++ c ∷ []) p h.1, append_assoc cur (c ∷ []) p)

-- A piece ends at the first separator.
pub split-append :
    (sep : ℕ) (p rest : Bytes) → Lacks sep p → split sep (p ++ sep ∷ rest) ≡ p ∷ split sep rest
unfolding split
split-append sep p rest h = pieces-append sep [] p rest h

pub split-last : (sep : ℕ) (p : Bytes) → Lacks sep p → split sep p ≡ p ∷ []
unfolding split
split-last sep p h = pieces-last sep [] p h

pub chomp-Lacks : (s : Bytes) → Lacks b'\r' s → chomp s ≡ s
unfolding chomp
chomp-Lacks [] h = refl
chomp-Lacks (x ∷ []) h = ground arith
chomp-Lacks (x ∷ y ∷ s) h = ground (arith, chomp-Lacks (y ∷ s) h.1)

lines_from-append :
    (cur p rest : Bytes)
    → Lacks b'\n' p
    → lines_from cur (p ++ b'\n' ∷ rest) ≡ chomp (cur ++ p) ∷ lines_from [] rest
unfolding lines_from
lines_from-append [] [] rest h = ground arith
lines_from-append (x ∷ cur) [] rest h = rw append-nil (ground arith)
lines_from-append [] (c ∷ p) rest h = ground (arith, lines_from-append (c ∷ []) p rest h.1)
lines_from-append (x ∷ cur) (c ∷ p) rest h =
    ground (arith, lines_from-append (x ∷ cur ++ c ∷ []) p rest h.1, append_assoc cur (c ∷ []) p)

-- The first line of a text that holds a newline.
pub lines-append :
    (p rest : Bytes) → Lacks b'\n' p → Lacks b'\r' p → lines (p ++ b'\n' ∷ rest) ≡ p ∷ lines rest
unfolding lines
lines-append p rest h k =
    lines_from-append [] p rest h ∙ ap (λ (t : Bytes). t ∷ lines_from [] rest) (chomp-Lacks p k)

once_from-append :
    (sep : ℕ) (cur p rest : Bytes)
    → Lacks sep p
    → once_from sep cur (p ++ sep ∷ rest) ≡ some (cur ++ p, rest)
unfolding once_from
once_from-append sep cur [] rest h = rw append-nil (ground arith)
once_from-append sep cur (c ∷ p) rest h =
    ground (arith, once_from-append sep (cur ++ c ∷ []) p rest h.1, append_assoc cur (c ∷ []) p)

-- A text is parted at its first separator.
pub split_once-append :
    (sep : ℕ) (p rest : Bytes) → Lacks sep p → split_once sep (p ++ sep ∷ rest) ≡ some (p, rest)
unfolding split_once
split_once-append sep p rest h = once_from-append sep [] p rest h
