-- ===== src/Store.antt =====
-- src/store.rs: the event log, its window in memory, the cursor of acknowledged events, and the
-- compaction. The files are part of the store's state, and each call that can fail takes the way
-- it ends as an argument.
pub mod Line
pub mod Log
pub mod Window
pub mod Keys
pub mod Dedup
pub mod Order
pub mod Tracks
pub mod Append
pub mod Poll
pub mod Reopen
pub mod Rewrite
pub mod Compact
pub mod Ack
pub mod Held
pub mod Run
pub mod Faults
mod Samples
pub mod Tests
use yt_websub.Prelude.{
  ℕ, ◌+◌, ◌-◌, ◌*◌, ◌%◌, ◌^◌, max, Bool, true, false, not, Option, none, some, List, [], ◌∷◌, ◌++◌,
  foldl, map, ◌≡◌, refl, get_or, Bytes, codes, ltb, leb, ◌==◌, ◌=b◌, if◌then◌else◌, length, take,
  pop_front, front?, keep, any, ◌>>=◌,
}
use yt_websub.Prelude.Outcomes.{IoResult, ok, err}
use yt_websub.Text.Utf8.{is_utf8}
use yt_websub.Text.Number.{max_u64, to_string, parse}
use yt_websub.Text.Pieces.{lines}
use yt_websub.Text.Space.{trim}
use yt_websub.Util.Atomic.{Slot, Fate, write_atomic}
use yt_websub.Store.Line.{Event, dedup_key, format_line, parse_line}

abbrev pub recent_cap : ℕ
recent_cap = 2000

-- The contents of events.log, `none` where there is no such file, and ack.txt with its temporary.
pub record Disk : Type 0 where
  pub events : Option Bytes
  pub ack : Slot

-- `log_linked` says that the open handle `log` is of the file that stands at `events_path`.
pub record Store : Type 0 where
  pub disk : Disk
  pub open disk use {events, ack}
  pub log_linked : Bool
  pub next_seq : ℕ
  pub recent : List Event
  pub seen : List Bytes
  pub ack_through : ℕ

abbrev pub key_of : Event → Bytes
key_of e = dedup_key e.video_id e.ts e.kind

-- `HashSet<String>`: `contains`, `insert` and `remove`.
unfoldable pub contains : List Bytes → Bytes → Bool
contains set k = any (λ j. j =b k) set

unfoldable pub insert_key : List Bytes → Bytes → List Bytes
unfolding contains
insert_key set k = if contains set k then set else k ∷ set

unfoldable pub remove_key : List Bytes → Bytes → List Bytes
remove_key set k = keep (λ j. not (j =b k)) set

-- `push_back`, and `pop_front` past the cap.
unfoldable pub push_recent : List Event → Event → List Event
push_recent recent e =
    let longer = recent ++ e ∷ [] in
    if ltb recent_cap (length longer) then pop_front longer else longer

-- `seq.saturating_add(1)`
abbrev after_seq : ℕ → ℕ
after_seq seq = if seq == max_u64 then max_u64 else seq + 1

-- A row of the log that `open` reads.
unfoldable pub load_event : ℕ × List Event → Event → ℕ × List Event
unfolding push_recent
load_event (next_seq, recent) e =
    (if leb next_seq e.seq then after_seq e.seq else next_seq, push_recent recent e)

-- The loop of `open`; it ends at the first line that is not text.
unfoldable pub load_lines : ℕ × List Event → List Bytes → ℕ × List Event
unfolding load_event is_utf8 parse_line
load_lines st [] = st
load_lines st (line ∷ rest) = elim (is_utf8 line) [
  | false ↦ st
  | true ↦ load_lines (elim (parse_line line) [ none ↦ st | some e ↦ load_event st e ]) rest
]

unfoldable pub load_ack : Option Bytes → ℕ
unfolding trim parse
load_ack none = 0
load_ack (some text) = if is_utf8 text then get_or (parse max_u64 (trim text)) 0 else 0

pub loaded : Disk → ℕ × List Event
unfolding load_lines lines
loaded disk = elim disk.events [ none ↦ (1, []) | some text ↦ load_lines (1, []) (lines text) ]

-- `dir_ok` and `log_ok` say whether the directory and the log can be created or opened.
unfoldable pub open_store : Bool → Bool → Disk → IoResult Store
unfolding loaded load_ack insert_key
open_store dir_ok log_ok disk =
    if not dir_ok
    then err
    else if not log_ok
    then err
    else (let (next_seq, recent) = loaded disk in
        ok (record {
          disk = record disk { events = some (get_or disk.events []) };
          log_linked = true;
          next_seq = next_seq;
          recent = recent;
          seen = foldl insert_key [] (map key_of recent);
          ack_through = load_ack disk.ack.target;
        }))

-- How `write_all`, `flush` and `sync_data` end: the bytes that reached the file before a failure.
pub data LogFate : Type 0 where
  written : LogFate
  failed : ℕ → LogFate

-- Bytes written through `log` reach the file at `events_path` if it is still the same.
abbrev pub write_log : Bytes → Store → Store
write_log bytes s =
    if s.log_linked
    then record s { disk = record s.disk { events = some (get_or s.events [] ++ bytes) } }
    else s

-- The bookkeeping of `append` once the row is durable.
unfoldable pub remember : Event → Store → Store
unfolding insert_key remove_key
remember e s =
    let longer = s.recent ++ e ∷ [] in
    let seen = insert_key s.seen (key_of e) in
    record s {
      next_seq = (s.next_seq + 1) % 2 ^ 64;
      recent = if ltb recent_cap (length longer) then pop_front longer else longer;
      seen =
          if ltb recent_cap (length longer)
          then (elim (front? longer) [ none ↦ seen | some old ↦ remove_key seen (key_of old) ])
          else seen;
    }

unfoldable pub finish_append : LogFate → Event → Store → Store × IoResult (Option ℕ)
finish_append written e s = (remember e (write_log (format_line e) s), ok (some e.seq))
finish_append (failed k) e s = (write_log (take k (format_line e)) s, err)

abbrev pub new_event : ℕ → Bytes → Bytes → Bytes → Bytes → Bytes → Store → Event
new_event now kind channel_id video_id ts title s = record {
  seq = s.next_seq;
  received_at = now;
  kind = kind;
  channel_id = channel_id;
  video_id = video_id;
  ts = ts;
  title = title;
}

-- `now` is `now_unix()`.
unfoldable pub append :
    LogFate → ℕ → Bytes → Bytes → Bytes → Bytes → Bytes → Store → Store × IoResult (Option ℕ)
unfolding finish_append remember format_line dedup_key contains
append fate now kind channel_id video_id ts title s =
    if contains s.seen (dedup_key video_id ts kind)
    then (s, ok none)
    else finish_append fate (new_event now kind channel_id video_id ts title s) s

unfoldable pub max_seq : Store → ℕ
max_seq s = s.next_seq - 1

-- The loop of `events_after` over the file.
pub read_after : ℕ → ℕ → List Event → List Bytes → List Event
unfolding is_utf8 parse_line
read_after after limit out [] = out
read_after after limit out (line ∷ rest) = elim (is_utf8 line) [
  | false ↦ out
  | true ↦ elim (parse_line line) [
    | none ↦ read_after after limit out rest
    | some e ↦ elim (ltb after e.seq) [
      | false ↦ read_after after limit out rest
      | true ↦ elim (leb limit (length (out ++ e ∷ []))) [
        | true ↦ out ++ e ∷ []
        | false ↦ read_after after limit (out ++ e ∷ []) rest
      ]
    ]
  ]
]

pub recent_front : Store → ℕ
recent_front s = elim (front? s.recent) [ none ↦ s.next_seq | some e ↦ e.seq ]

-- `after + 1` wraps around in a release build.
unfoldable pub events_after : ℕ → ℕ → Store → List Event
unfolding read_after recent_front lines
events_after after limit s =
    if leb (recent_front s) ((after + 1) % 2 ^ 64)
    then take limit (keep (λ e. ltb after e.seq) s.recent)
    else (elim s.events [ none ↦ [] | some text ↦ read_after after limit [] (lines text) ])

unfoldable pub set_ack : Fate → ℕ → Store → Store
unfolding to_string write_atomic
set_ack fate through s =
    if ltb s.ack_through through
    then record s {
      ack_through = through;
      disk = record s.disk { ack = (write_atomic fate (to_string through) s.ack).0 };
    }
    else s
