-- ===== src/Atom/Rounds.antt =====
-- The two loops of `parse` in src/atom.rs, as the source writes them, end on every text.
use mathlib.Core.Option.{none-ne-some}
use yt_websub.Prelude.{
  ℕ, zero, suc, ◌+◌, ◌-◌, ◌≤◌, ◌<◌, none, some, List, [], ◌∷◌, ◌++◌, ◌≡◌, inl, inr, refl, arith,
  Bytes, codes, leb, Bool-cases, Option-cases, length, take, drop, All,
}
use yt_websub.Text.Utf8.{from_utf8_lossy}
use yt_websub.Text.Utf8.Lossy.{from_utf8_lossy-IsUtf8}
use yt_websub.Text.Find.{find}
use yt_websub.Text.Pieces.{starts_with}
use yt_websub.Atom.{Entry, deleted_entry, deleted_end, deletions, entry, entry_end, entries, parse}
use yt_websub.Atom.Read.{IsText, parse-IsText}

-- A run of the first loop on a text, with what it pushes.
pub data Deletes : Bytes → List Entry → Type 0 where
  no_marker : {rest : Bytes} → find (codes "<at:deleted-entry") rest ≡ none → Deletes rest []
  marker :
      {rest : Bytes} {pos : ℕ} {out : List Entry}
      → find (codes "<at:deleted-entry") rest ≡ some pos
      → Deletes (drop (deleted_end pos rest) rest) out
      → Deletes rest (deleted_entry (take (deleted_end pos rest - pos) (drop pos rest)) ++ out)

-- A run of the second loop, which breaks off at an entry that ends the text.
pub data Enters : Bytes → List Entry → Type 0 where
  no_entry : {rest : Bytes} → find (codes "<entry>") rest ≡ none → Enters rest []
  last_entry :
      {rest : Bytes} {pos : ℕ}
      → find (codes "<entry>") rest ≡ some pos
      → length rest ≤ entry_end (pos + 7) rest + 8
      → Enters rest
          (entry (take (entry_end (pos + 7) rest - (pos + 7)) (drop (pos + 7) rest)) ++ [])
  next_entry :
      {rest : Bytes} {pos : ℕ} {out : List Entry}
      → find (codes "<entry>") rest ≡ some pos
      → entry_end (pos + 7) rest + 8 < length rest
      → Enters (drop (entry_end (pos + 7) rest + 8) rest) out
      → Enters rest
          (entry (take (entry_end (pos + 7) rest - (pos + 7)) (drop (pos + 7) rest)) ++ out)

length-drop-le : (n : ℕ) (s : Bytes) → length (drop n s) ≤ length s
length-drop-le zero s = omega arith
length-drop-le (suc n) [] = omega arith
length-drop-le (suc n) (x ∷ s) = let shorter = length-drop-le n s in omega arith

drop_shrinks : (n : ℕ) (s : Bytes) → 0 < n → 0 < length s → length (drop n s) < length s
drop_shrinks zero s h k = absurd (omega arith)
drop_shrinks (suc n) [] h k = absurd (omega arith)
drop_shrinks (suc n) (x ∷ s) h k = let shorter = length-drop-le n s in omega arith

find_nonempty : (c : ℕ) (p s : Bytes) (pos : ℕ) → find (c ∷ p) s ≡ some pos → 0 < length s
unfolding find starts_with
find_nonempty c p [] pos h = absurd (none-ne-some pos h)
find_nonempty c p (x ∷ s) pos h = omega arith

deleted_end-lt : (pos : ℕ) (rest : Bytes) → 0 < length rest → 0 < deleted_end pos rest
unfolding deleted_end
deleted_end-lt pos rest h =
    elim (Option-cases (find (codes "</at:deleted-entry>") (drop pos rest))) [
      | inl n ↦ rw (deleted_end, n) h
      | inr (e, k) ↦ rw (deleted_end, k) (omega arith)
    ]

deletions-Deletes :
    (fuel : ℕ) (rest : Bytes) → length rest < fuel → Deletes rest (deletions fuel rest)
unfolding deletions
deletions-Deletes zero rest h = absurd (omega arith)
deletions-Deletes (suc fuel) rest h = elim (Option-cases (find (codes "<at:deleted-entry") rest)) [
  | inl n ↦ rw (deletions, n) (no_marker n)
  | inr (pos, e) ↦
      (let full = find_nonempty b'<' (codes "at:deleted-entry") rest pos e in
        let shrinks =
          drop_shrinks (deleted_end pos rest) rest (deleted_end-lt pos rest full) full in
        rw (deletions, e)
          (marker e (deletions-Deletes fuel (drop (deleted_end pos rest) rest) (omega arith))))
]

entries-Enters : (fuel : ℕ) (rest : Bytes) → length rest < fuel → Enters rest (entries fuel rest)
unfolding entries
entries-Enters zero rest h = absurd (omega arith)
entries-Enters (suc fuel) rest h = elim (Option-cases (find (codes "<entry>") rest)) [
  | inl n ↦ rw (entries, n) (no_entry n)
  | inr (pos, e) ↦
      (let full = find_nonempty b'<' (codes "entry>") rest pos e in
        let advance = entry_end (pos + 7) rest + 8 in
        let shrinks = drop_shrinks advance rest (omega arith) full in
        rw (entries, e)
          (elim (Bool-cases (leb (length rest) advance)) [
            | inl last ↦ rw last (last_entry e (ground arith))
            | inr more ↦ rw more (
                next_entry e (ground arith) (entries-Enters fuel (drop advance rest) (omega arith)))
          ]))
]

-- Whatever bytes the hub sends: on the text that they are repaired to, both loops of `parse` end, with
-- the entries that `parse` returns; and the texts of these are UTF-8.
pub parse_ends :
    (bytes : Bytes)
    → (deleted : List Entry) × (entered : List Entry) × Deletes (from_utf8_lossy bytes) deleted
      × Enters (from_utf8_lossy bytes) entered
      × (parse (from_utf8_lossy bytes) ≡ deleted ++ entered)
      × All IsText (parse (from_utf8_lossy bytes))
unfolding parse
parse_ends bytes =
    let body = from_utf8_lossy bytes in
    let rounds = suc (length body) in
    (
      deletions rounds body,
      entries rounds body,
      deletions-Deletes rounds body (omega arith),
      entries-Enters rounds body (omega arith),
      refl,
      parse-IsText body (from_utf8_lossy-IsUtf8 bytes),
    )
