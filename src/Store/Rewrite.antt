-- ===== src/Store/Rewrite.antt =====
-- The compaction of src/store.rs.
use yt_websub.Prelude.{
  ℕ, ◌+◌, ◌-◌, ◌*◌, max, true, false, Option, none, some, List, [], ◌∷◌, ◌++◌, get_or, Bytes, ltb,
  ◌==◌, if◌then◌else◌, length,
}
use yt_websub.Prelude.Outcomes.{IoResult, ok, err}
use yt_websub.Text.Utf8.{is_utf8}
use yt_websub.Text.Pieces.{lines}
use yt_websub.Store.Line.{parse_line}
use yt_websub.Store.{Store, max_seq}

abbrev pub compact_bytes : ℕ
compact_bytes = 8 * 1024 * 1024

abbrev pub compact_margin : ℕ
compact_margin = 1000

abbrev pub max_retained_events : ℕ
max_retained_events = 100000

-- The loop of `maybe_compact`: the new log, and the number of events dropped.
unfoldable pub compact_lines : ℕ → List Bytes → Bytes × ℕ
unfolding is_utf8 parse_line
compact_lines keep_above [] = ([], 0)
compact_lines keep_above (line ∷ rest) = elim (is_utf8 line) [
  | false ↦ ([], 0)
  | true ↦ elim (parse_line line) [
    | none ↦ compact_lines keep_above rest
    | some e ↦
        let (out, dropped) = compact_lines keep_above rest in
        if ltb keep_above e.seq then (line ++ b'\n' ∷ out, dropped) else (out, dropped + 1)
  ]
]

unfoldable pub keep_above : Store → ℕ
unfolding max_seq
keep_above s = max (s.ack_through - compact_margin) (max_seq s - max_retained_events)

-- How the file operations of a compaction end: all of them well, one before or at the rename
-- badly, or only the opening of the new log badly.
pub data CompactFate : Type 0 where
  compacted rewrite_fails reopen_fails : CompactFate

unfoldable pub finish_compact : CompactFate → Bytes × ℕ → Store → Store × IoResult (Unit {0})
finish_compact rewrite_fails (out, dropped) s = (s, err)
finish_compact compacted (out, dropped) s =
    if dropped == 0
    then (s, ok tt)
    else (record s { disk = record s.disk { events = some out }; log_linked = true }, ok tt)
finish_compact reopen_fails (out, dropped) s =
    if dropped == 0
    then (s, ok tt)
    else (record s { disk = record s.disk { events = some out }; log_linked = false }, err)

unfoldable pub compact_text : CompactFate → Store → Option Bytes → Store × IoResult (Unit {0})
compact_text fate s none = (s, err)
compact_text fate s (some text) = finish_compact fate (compact_lines (keep_above s) (lines text)) s

unfoldable pub maybe_compact : CompactFate → Store → Store × IoResult (Unit {0})
unfolding compact_text finish_compact compact_lines keep_above lines
maybe_compact fate s =
    if ltb (length (get_or s.events [])) compact_bytes
    then (s, ok tt)
    else compact_text fate s s.events
