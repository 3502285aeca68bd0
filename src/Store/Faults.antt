-- ===== src/Store/Faults.antt =====
-- Where src/store.rs does not do what its comments say: a row behind a torn row, a poll for no
-- events, and an acknowledgement beyond the newest event.
use yt_websub.Prelude.{
  ℕ, ◌+◌, ◌%◌, ◌^◌, ◌≤◌, ◌<◌, max, true, false, ◌≢◌, Option, none, some, List, [], ◌∷◌, ◌++◌,
  append-nil, append_assoc, ◌≡◌, refl, sym, ap, ◌∙◌, arith, Bytes, ltb, leb, keep, keep_none, All,
  All-map, All-append, Bool-cases, Option-cases, inl, inr, get_or, length,
}
use yt_websub.Prelude.Outcomes.{ok}
use yt_websub.Text.Utf8.{is_utf8}
use yt_websub.Text.Pieces.{Lacks, split, split-append, pieces, lines, lines-append}
use yt_websub.Store.Line.{
  Event, IsEvent, row, format_line, parse_line, parse_columns, split-row, row-Lacks,
}
use yt_websub.Store.{
  Store, Disk, loaded, written, append, finish_append, remember, events_after, read_after,
  recent_front, contains, key_of,
}
use yt_websub.Store.Rewrite.{maybe_compact, compacted, keep_above, compact_margin}
use yt_websub.Store.Log.{
  render, render-nil, events_of, events_of-rows-append, lines-render-append, lines-nil, is_after,
}
use yt_websub.Store.Append.{incoming, append-fresh}
use yt_websub.Store.Compact.{is_small, maybe_compact-file, ack_floor-le}
use yt_websub.Store.Order.{tip, All-lt-tip}
use yt_websub.Store.Reopen.{opened}
use yt_websub.Store.Tracks.{Tracks, write_log-linked}

-- The number of pieces does not depend on what the first piece began with.
length-pieces :
    (sep : ℕ) (cur cur' s : Bytes) → length (pieces sep cur s) ≡ length (pieces sep cur' s)
unfolding pieces
length-pieces sep cur cur' [] = refl
length-pieces sep cur cur' (c ∷ s) =
    ground (arith, length-pieces sep (cur ++ c ∷ []) (cur' ++ c ∷ []) s)

length-pieces-le :
    (sep : ℕ) (cur cur' q s : Bytes) → length (pieces sep cur s) ≤ length (pieces sep cur' (q ++ s))
unfolding pieces
length-pieces-le sep cur cur' [] s = omega (arith, length-pieces sep cur cur' s)
length-pieces-le sep cur cur' (c ∷ q) s =
    ground (arith, length-pieces-le sep cur (cur' ++ c ∷ []) q s, length-pieces-le sep cur [] q s)

length-split-le : (sep : ℕ) (q s : Bytes) → length (split sep s) ≤ length (split sep (q ++ s))
unfolding split
length-split-le sep q s = length-pieces-le sep [] [] q s

-- A row needs seven columns.
parse_columns_long : (cs : List Bytes) → 8 ≤ length cs → parse_columns cs ≡ none
unfolding parse_columns
parse_columns_long [] h = elim h [ ]
parse_columns_long (a ∷ []) h = absurd (omega arith)
parse_columns_long (a ∷ b ∷ []) h = absurd (omega arith)
parse_columns_long (a ∷ b ∷ c ∷ []) h = absurd (omega arith)
parse_columns_long (a ∷ b ∷ c ∷ d ∷ []) h = absurd (omega arith)
parse_columns_long (a ∷ b ∷ c ∷ d ∷ e ∷ []) h = absurd (omega arith)
parse_columns_long (a ∷ b ∷ c ∷ d ∷ e ∷ f ∷ []) h = absurd (omega arith)
parse_columns_long (a ∷ b ∷ c ∷ d ∷ e ∷ f ∷ g ∷ []) h = absurd (omega arith)
parse_columns_long (a ∷ b ∷ c ∷ d ∷ e ∷ f ∷ g ∷ k ∷ r) h = refl

-- A row behind the beginning of another, `p`, a tab and `q`, is no row.
parse_line_torn :
    (p q : Bytes) (e : Event) → Lacks b'\t' p → parse_line ((p ++ b'\t' ∷ q) ++ row e) ≡ none
unfolding parse_line
parse_line_torn p q e h =
    rw (append_assoc p (b'\t' ∷ q) (row e), split-append b'\t' p (q ++ row e) h)
      (parse_columns_long (p ∷ split b'\t' (q ++ row e))
        (omega (arith, length-split-le b'\t' q (row e), ap length (split-row e))))

events_of_bad : (line : Bytes) → parse_line line ≡ none → events_of (line ∷ []) ≡ []
unfolding events_of
events_of_bad line h = elim (Bool-cases (is_utf8 line)) [
  | inl text ↦ rw (text, events_of, h)
  | inr broken ↦ rw (broken, events_of)
]

torn_line :
    (p q : Bytes) (e : Event)
    → Lacks b'\t' p
    → Lacks b'\n' (p ++ b'\t' ∷ q)
    → Lacks b'\r' (p ++ b'\t' ∷ q)
    → events_of (lines ((p ++ b'\t' ∷ q) ++ format_line e)) ≡ []
unfolding format_line
torn_line p q e tab nl cr =
    let torn = p ++ b'\t' ∷ q in
    let line = torn ++ row e in
    ap {B = List Event} (λ l. events_of (lines l)) (sym (append_assoc torn (row e) (b'\n' ∷ [])))
    ∙ ap events_of (
        lines-append line []
          (All-append (λ c. c ≢ b'\n') torn (row e) nl
            (row-Lacks e b'\n' (omega arith) (omega arith)))
          (All-append (λ c. c ≢ b'\r') torn (row e) cr
            (row-Lacks e b'\r' (omega arith) (omega arith))))
    ∙ ap {B = List Event} (λ ls. events_of (line ∷ ls)) lines-nil
    ∙ events_of_bad line (parse_line_torn p q e tab)

-- If events.log ends in the beginning of a row, `p`, a tab and `q`, with no newline, as a crash or
-- a failed write leaves it, then the next new event is reported as appended and a restart does not
-- find it: the log holds the events before the torn row and no other.
pub torn_row_loses_next :
    (es : List Event) (p q : Bytes) (now : ℕ) (kind channel_id video_id ts title : Bytes)
    (s : Store)
    → All IsEvent es
    → Lacks b'\t' p
    → Lacks b'\n' (p ++ b'\t' ∷ q)
    → Lacks b'\r' (p ++ b'\t' ∷ q)
    → s.log_linked ≡ true
    → s.events ≡ some (render es ++ (p ++ b'\t' ∷ q))
    → contains s.seen (key_of (incoming now kind channel_id video_id ts title s)) ≡ false
    → ((append written now kind channel_id video_id ts title s).1 ≡ ok (some s.next_seq))
      × (events_of
            (lines (get_or (append written now kind channel_id video_id ts title s).0.events []))
          ≡ es)
torn_row_loses_next es p q now kind channel_id video_id ts title s v tab nl cr linked file new =
    let e = incoming now kind channel_id video_id ts title s in
    let torn = p ++ b'\t' ∷ q in
    rw (append-fresh now kind channel_id video_id ts title s written new) (
      unfold finish_append remember in
      (
        refl,
        rw (write_log-linked (format_line e) s linked) (
            ap {B = List Event} (λ f. events_of (lines (get_or f [] ++ format_line e))) file
            ∙ ap {B = List Event} (λ l. events_of (lines l))
                (append_assoc (render es) torn (format_line e))
            ∙ ap events_of (lines-render-append es (torn ++ format_line e))
            ∙ events_of-rows-append es (lines (torn ++ format_line e)) v
            ∙ ap (λ (l : List Event). es ++ l) (torn_line p q e tab nl cr)
            ∙ append-nil es),
      ))

-- With the limit 0 the loop over the file takes an event before it looks.
read_after_zero :
    (after : ℕ) (ls : List Bytes) → read_after after 0 [] ls ≡ read_after after 1 [] ls
unfolding read_after
read_after_zero after [] = refl
read_after_zero after (line ∷ rest) = elim (Bool-cases (is_utf8 line)) [
  | inr broken ↦ rw (broken, read_after)
  | inl text ↦ elim (Option-cases (parse_line line)) [
    | inl bad ↦ rw (text, read_after, bad) (read_after_zero after rest)
    | inr (e, good) ↦ elim (Bool-cases (ltb after e.seq)) [
      | inl behind ↦ rw (text, read_after, good, behind)
      | inr before ↦ rw (text, read_after, good, before) (read_after_zero after rest)
    ]
  ]
]

file_zero :
    (after : ℕ) (file : Option Bytes)
    → (elim file [ none ↦ [] | some text ↦ read_after after 0 [] (lines text) ])
      ≡ (elim file [ none ↦ [] | some text ↦ read_after after 1 [] (lines text) ])
file_zero after none = refl
file_zero after (some text) = read_after_zero after (lines text)

-- A poll that reads the file and asks for no event gets as much as one that asks for one event.
pub zero_limit_yields_one :
    (after : ℕ) (s : Store)
    → leb (recent_front s) ((after + 1) % 2 ^ 64) ≡ false
    → events_after after 0 s ≡ events_after after 1 s
unfolding events_after
zero_limit_yields_one after s h = rw h (file_zero after s.events)

no_event_above :
    (floor : ℕ) (es : List Event) (next : ℕ)
    → All (λ e. e.seq < next) es
    → next ≤ floor
    → keep (is_after floor) es ≡ []
no_event_above floor es next h le =
    keep_none (is_after floor) es
      (All-map (λ e. e.seq < next) (λ e. ltb floor e.seq ≡ false) (λ e lt. ground arith) es h)

loaded-nil : (disk : Disk) → disk.events ≡ some [] → loaded disk ≡ (1, [])
unfolding loaded
loaded-nil disk e = rw e

-- If the acknowledged number lies a thousand or more beyond the newest event's, then a compaction
-- of a log of eight megabytes or more leaves no event, and the next start numbers from 1 again.
pub ack_past_end_renumbers :
    {es : List Event} {low : ℕ} {s : Store}
    → Tracks es low s
    → s.next_seq + compact_margin ≤ s.ack_through
    → is_small s ≡ false
    → ((maybe_compact compacted s).0.events ≡ some [])
      × ((opened (maybe_compact compacted s).0.disk).next_seq ≡ 1)
ack_past_end_renumbers {es} {low} {s} t ack large =
    let floor = max low (keep_above s) in
    let gone =
      no_event_above floor es (tip 1 es) (All-lt-tip 0 es t.ascending)
        (omega (arith, t.next_is_tip, ack, ack_floor-le s)) in
    let file =
      maybe_compact-file t large
      ∙ ap {B = Option Bytes} (λ l. some (render l)) gone
      ∙ ap {B = Option Bytes} some render-nil in
    (file, ap (λ (r : ℕ × List Event). r.0) (loaded-nil (maybe_compact compacted s).0.disk file))
