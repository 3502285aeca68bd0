-- ===== src/Store/Log.antt =====
-- The events that a log holds, and what the three loops over it compute: those of `open`,
-- `events_after` and `maybe_compact` in src/store.rs.
use yt_websub.Prelude.{
  ℕ, ◌<◌, Bool, true, false, none, some, List, [], ◌∷◌, ◌++◌, foldl, map, append_assoc, append-nil,
  ◌≡◌, refl, sym, ap, ◌∙◌, arith, Bytes, ltb, leb, keep, All, Bool-cases, Option-cases, inl, inr,
  take, take_all, take-append_self, length, length-append,
}
use yt_websub.Text.Utf8.{is_utf8}
use yt_websub.Text.Pieces.{lines}
use yt_websub.Store.Line.{
  Event, row, format_line, parse_line, IsEvent, parse_line-row, row-utf8, lines-format_line,
}
use yt_websub.Store.{load_event, load_lines, read_after}
use yt_websub.Store.Rewrite.{compact_lines}

-- The events of the lines before the first that is not text.
unfoldable pub events_of : List Bytes → List Event
events_of [] = []
events_of (line ∷ rest) = elim (is_utf8 line) [
  | false ↦ []
  | true ↦ elim (parse_line line) [ none ↦ events_of rest | some e ↦ e ∷ events_of rest ]
]

-- The log that holds these events and nothing else.
unfoldable pub render : List Event → Bytes
render [] = []
render (e ∷ es) = format_line e ++ render es

pub render-append : (es fs : List Event) → render (es ++ fs) ≡ render es ++ render fs
unfolding render
render-append [] fs = refl
render-append (e ∷ es) fs =
    ap (λ (t : Bytes). format_line e ++ t) (render-append es fs)
    ∙ sym (append_assoc (format_line e) (render es) (render fs))

pub render-nil : render [] ≡ []
unfolding render
render-nil = refl

pub render-one : (e : Event) → render (e ∷ []) ≡ format_line e
unfolding render
render-one e = append-nil (format_line e)

pub lines-nil : lines [] ≡ []
unfolding lines
lines-nil = refl

pub lines-render : (es : List Event) → lines (render es) ≡ map row es
unfolding render
lines-render [] = lines-nil
lines-render (e ∷ es) =
    lines-format_line e (render es) ∙ ap (λ (t : List Bytes). row e ∷ t) (lines-render es)

pub events_of-row :
    (e : Event) (rest : List Bytes) → IsEvent e → events_of (row e ∷ rest) ≡ e ∷ events_of rest
unfolding events_of
events_of-row e rest v = rw (row-utf8 e, events_of, parse_line-row e v)

pub events_of-rows : (es : List Event) → All IsEvent es → events_of (map row es) ≡ es
unfolding events_of
events_of-rows [] h = refl
events_of-rows (e ∷ es) (v, h) =
    events_of-row e (map row es) v ∙ ap (λ (t : List Event). e ∷ t) (events_of-rows es h)

-- What was written is what is read, whatever texts the events carry.
pub events_of-render : (es : List Event) → All IsEvent es → events_of (lines (render es)) ≡ es
events_of-render es h = ap events_of (lines-render es) ∙ events_of-rows es h

pub load_lines-foldl :
    (ls : List Bytes) (st : ℕ × List Event) → load_lines st ls ≡ foldl load_event st (events_of ls)
unfolding load_lines events_of
load_lines-foldl [] st = refl
load_lines-foldl (line ∷ rest) st = elim (Bool-cases (is_utf8 line)) [
  | inl text ↦ elim (Option-cases (parse_line line)) [
    | inl bad ↦ rw (text, load_lines, events_of, bad) (load_lines-foldl rest st)
    | inr (e, good) ↦
        rw (text, load_lines, events_of, good) (load_lines-foldl rest (load_event st e))
  ]
  | inr broken ↦ rw (broken, load_lines, events_of)
]

abbrev pub is_after : ℕ → Event → Bool
is_after after e = ltb after e.seq

-- One event that the loop of `events_after` takes.
read_after-take :
    (after limit : ℕ) (out : List Event) (e : Event) (rest : List Bytes) (more : List Event)
    → length out < limit
    → (length (out ++ e ∷ []) < limit
        → read_after after limit (out ++ e ∷ []) rest ≡ take limit ((out ++ e ∷ []) ++ more))
    → (elim (leb limit (length (out ++ e ∷ []))) [
      | true ↦ out ++ e ∷ []
      | false ↦ read_after after limit (out ++ e ∷ []) rest
    ])
      ≡ take limit (out ++ e ∷ more)
read_after-take after limit out e rest more room ih =
    elim (Bool-cases (leb limit (length (out ++ e ∷ [])))) [
      | inl full ↦
          rw (full, ← append_assoc out (e ∷ []) more)
            (sym (
              take-append_self limit (out ++ e ∷ []) more
                (ground (arith, length-append out (e ∷ [])))))
      | inr free ↦ rw (free, ← append_assoc out (e ∷ []) more) (ih (ground arith))
    ]

-- The loop returns the first events behind the cursor, up to a limit that is not 0.
pub read_after-keep :
    (after limit : ℕ) (out : List Event) (ls : List Bytes)
    → length out < limit
    → read_after after limit out ls ≡ take limit (out ++ keep (is_after after) (events_of ls))
unfolding read_after events_of keep
read_after-keep after limit out [] room =
    rw (append-nil out) (sym (take_all limit out (omega arith)))
read_after-keep after limit out (line ∷ rest) room = elim (Bool-cases (is_utf8 line)) [
  | inl text ↦ elim (Option-cases (parse_line line)) [
    | inl bad ↦ rw (text, read_after, events_of, bad) (read_after-keep after limit out rest room)
    | inr (e, good) ↦ elim (Bool-cases (ltb after e.seq)) [
      | inl behind ↦
          rw (text, read_after, events_of, good, behind, keep)
            (read_after-take after limit out e rest (keep (is_after after) (events_of rest)) room
              (read_after-keep after limit (out ++ e ∷ []) rest))
      | inr before ↦
          rw (text, read_after, events_of, good, before, keep)
            (read_after-keep after limit out rest room)
    ]
  ]
  | inr broken ↦
      rw (broken, read_after, events_of, append-nil out) (sym (take_all limit out (omega arith)))
]

-- The rewritten log holds the events above the floor, and the count is of the others.
pub compact_lines-rows :
    (floor : ℕ) (es : List Event)
    → All IsEvent es
    → compact_lines floor (map row es)
      ≡ (render (keep (is_after floor) es), length (keep (λ e. leb e.seq floor) es))
unfolding compact_lines keep render format_line
compact_lines-rows floor [] h = refl
compact_lines-rows floor (e ∷ es) (v, h) =
    let kept = render (keep (is_after floor) es) in
    let count = length (keep (λ (x : Event). leb x.seq floor) es) in
    let step = row-utf8 e in
    elim (Bool-cases (ltb floor e.seq)) [
      | inl above ↦
          let out : leb e.seq floor ≡ false = ground arith in
          rw (step, compact_lines, parse_line-row e v, compact_lines-rows floor es h, above, out)
            (ap {B = Bytes × ℕ} (λ t. (t, count)) (sym (append_assoc (row e) (b'\n' ∷ []) kept)))
      | inr below ↦
          let out : leb e.seq floor ≡ true = ground arith in
          rw (step, compact_lines, parse_line-row e v, compact_lines-rows floor es h, below, out)
            (ap {B = Bytes × ℕ} (λ t. (kept, t)) (omega arith))
    ]

-- A log that begins with whole rows.
pub lines-render-append :
    (es : List Event) (rest : Bytes) → lines (render es ++ rest) ≡ map row es ++ lines rest
unfolding render
lines-render-append [] rest = refl
lines-render-append (e ∷ es) rest =
    ap lines (append_assoc (format_line e) (render es) rest)
    ∙ lines-format_line e (render es ++ rest)
    ∙ ap (λ (t : List Bytes). row e ∷ t) (lines-render-append es rest)

pub events_of-rows-append :
    (es : List Event) (ls : List Bytes)
    → All IsEvent es
    → events_of (map row es ++ ls) ≡ es ++ events_of ls
events_of-rows-append [] ls h = refl
events_of-rows-append (e ∷ es) ls (v, h) =
    events_of-row e (map row es ++ ls) v
    ∙ ap (λ (t : List Event). e ∷ t) (events_of-rows-append es ls h)
