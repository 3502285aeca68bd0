-- ===== src/Store/Tests.antt =====
-- Runs of the store at concrete inputs, and the theorems about it at some of them.
use yt_websub.Prelude.{
  ◌+◌, ◌-◌, ◌%◌, ◌^◌, ◌≤◌, ◌<◌, max, true, false, none, some, [], ◌∷◌, ◌++◌, ◌≡◌, refl, arith,
  Bytes, codes, leb, any, keep, length, get_or, inl,
}
use yt_websub.Prelude.Outcomes.{ok}
use yt_websub.Text.Utf8.{next, is_utf8}
use yt_websub.Text.Number.{max_u64}
use yt_websub.Text.Pieces.{lines}
use yt_websub.Util.Atomic.{succeeds}
use yt_websub.Store.Line.{Event, IsEvent, row, parse_line, parse_line-row}
use yt_websub.Store.{
  Store, append, written, events_after, open_store, loaded, contains, key_of, max_seq, set_ack,
  load_ack, recent_front,
}
use yt_websub.Store.Rewrite.{
  maybe_compact, compacted, compact_bytes, compact_margin, max_retained_events,
}
use yt_websub.Store.Log.{render, events_of, is_after}
use yt_websub.Store.Append.{incoming, AppendDone, append-refines, accept-Tracks, append-cursor}
use yt_websub.Store.Ack.{stored_ack, set_ack-Tracks, set_ack-max, set_ack-survives}
use yt_websub.Store.Tracks.{Tracks}
use yt_websub.Store.Samples.{long, long-utf8, long_title-large}
use yt_websub.Store.Poll.{unseen}
use yt_websub.Store.Reopen.{opened, open_store-refines}
use yt_websub.Store.Compact.{floor_after, maybe_compact-refines, maybe_compact-retains, is_small}
use yt_websub.Store.Held.{empty_disk, first_start-Tracks}
use yt_websub.Store.Run.{Run, first_start, accept, restart, no_event_lost}
use yt_websub.Store.Faults.{torn_row_loses_next, zero_limit_yields_one, ack_past_end_renumbers}

abbrev pub store0 : Store
store0 = opened empty_disk

abbrev put : Bytes → Bytes → Store → Store
put video title s = (append written 7 (codes "new") (codes "UC1") video (codes "t") title s).0

abbrev pub put_event : Bytes → Bytes → Store → Event
put_event video title s = incoming 7 (codes "new") (codes "UC1") video (codes "t") title s

abbrev pub store1 : Store
store1 = put (codes "a\tb") (codes "100%") store0

module _ (video title : Bytes) (s : Store) where
  put_event-IsEvent :
      is_utf8 video ≡ true
      → is_utf8 title ≡ true
      → s.next_seq ≤ max_u64
      → IsEvent (put_event video title s)
  unfolding is_utf8 next
  put_event-IsEvent v t n = record {
    seq_fits = n;
    received_fits = omega arith;
    kind_utf8 = refl;
    channel_utf8 = refl;
    video_utf8 = v;
    ts_utf8 = refl;
    title_utf8 = t;
  }

utf8_test : (is_utf8 (codes "a\tb") ≡ true) × (is_utf8 (codes "100%") ≡ true)
unfolding is_utf8 next
utf8_test = (refl, refl)

event1-IsEvent : IsEvent (put_event (codes "a\tb") (codes "100%") store0)
event1-IsEvent =
    put_event-IsEvent (codes "a\tb") (codes "100%") store0 utf8_test.0 utf8_test.1
      first_start-Tracks.fits

utf8_v : is_utf8 (codes "v") ≡ true
unfolding is_utf8 next
utf8_v = refl

row_test : parse_line (codes "3\t999\tnew\tUC1\tvidC") ≡ none
unfolding parse_line
row_test = refl

forged_test :
    parse_line (codes "1\t2\tnew\tUC1\ta%09b\tt\t100%25")
    ≡ some (record {
      seq = 1;
      received_at = 2;
      kind = codes "new";
      channel_id = codes "UC1";
      video_id = codes "a\tb";
      ts = codes "t";
      title = codes "100%";
    })
unfolding parse_line next
forged_test = refl

parse_line-row_example :
    parse_line (row (put_event (codes "a\tb") (codes "100%") store0))
    ≡ some (put_event (codes "a\tb") (codes "100%") store0)
parse_line-row_example =
    parse_line-row (put_event (codes "a\tb") (codes "100%") store0) event1-IsEvent

append-refines_example :
    AppendDone 7 (codes "new") (codes "UC1") (codes "a\tb") (codes "t") (codes "100%") store0 [] 0
append-refines_example =
    append-refines 7 (codes "new") (codes "UC1") (codes "a\tb") (codes "t") (codes "100%") store0
      first_start-Tracks event1-IsEvent (omega (arith, first_start-Tracks.next_is_tip))

fresh1 : contains store0.seen (key_of (put_event (codes "a\tb") (codes "100%") store0)) ≡ false
unfolding contains loaded any
fresh1 = refl

room1 : store0.next_seq < max_u64
room1 = omega (arith, first_start-Tracks.next_is_tip)

pub run1 : Run ([] ++ put_event (codes "a\tb") (codes "100%") store0 ∷ []) 0 store1
run1 =
    accept first_start 7 (codes "new") (codes "UC1") (codes "a\tb") (codes "t") (codes "100%")
      event1-IsEvent room1 fresh1

-- After a restart the event is still there.
no_event_lost_example :
    (events_after 0 10 (opened store1.disk)
      ≡ unseen 0 10 ([] ++ put_event (codes "a\tb") (codes "100%") store0 ∷ []))
    × (0 ≤ max_seq (opened store1.disk) - compact_margin)
no_event_lost_example = no_event_lost (restart run1) 0 10 (omega arith) (omega arith) (omega arith)

open_store-refines_example :
    (open_store true true store0.disk ≡ ok (opened store0.disk))
    × Tracks (keep (is_after 0) []) 0 (opened store0.disk)
    × ((opened store0.disk).next_seq ≡ store0.next_seq)
open_store-refines_example = open_store-refines first_start-Tracks (inl refl)

-- A log that ends in the beginning of a row, as in the unit test of the source.
abbrev torn_store : Store
torn_store = record store0 {
  disk = record store0.disk {
    events = some (render [] ++ (codes "3" ++ b'\t' ∷ codes "999\tnew\tUC1\tvidC"));
  };
}

fresh_torn :
    contains torn_store.seen (key_of (put_event (codes "v") (codes "T") torn_store)) ≡ false
unfolding contains loaded any
fresh_torn = refl

torn_row_loses_next_example :
    ((append written 7 (codes "new") (codes "UC1") (codes "v") (codes "t") (codes "T") torn_store).1
      ≡ ok (some torn_store.next_seq))
    × (events_of (
          lines (
            get_or
              (append written 7
                (codes "new")
                (codes "UC1")
                (codes "v")
                (codes "t")
                (codes "T")
                torn_store).0.events
              []))
        ≡ [])
torn_row_loses_next_example =
    torn_row_loses_next [] (codes "3") (codes "999\tnew\tUC1\tvidC") 7 (codes "new") (codes "UC1")
      (codes "v") (codes "t") (codes "T") torn_store tt (omega arith) (omega arith) (omega arith)
      refl refl fresh_torn

-- The window has moved past the first event, which only the file still has.
abbrev moved_store : Store
moved_store = record store0 {
  disk = record store0.disk { events = some (codes "1\t2\tnew\tUC1\tv\tt\tT\n") };
  next_seq = 5;
  recent = [];
}

moved_front : leb (recent_front moved_store) ((0 + 1) % 2 ^ 64) ≡ false
unfolding recent_front
moved_front = refl

zero_limit_yields_one_test : events_after 0 0 moved_store ≡ events_after 0 1 moved_store
zero_limit_yields_one_test = zero_limit_yields_one 0 moved_store moved_front

zero_limit_test : length (events_after 0 0 moved_store) ≡ 1
unfolding events_after next keep
zero_limit_test = refl

abbrev store_big : Store
store_big = put (codes "v") (long compact_bytes) store0

big-IsEvent : IsEvent (put_event (codes "v") (long compact_bytes) store0)
big-IsEvent =
    put_event-IsEvent (codes "v") (long compact_bytes) store0 utf8_v (long-utf8 compact_bytes)
      first_start-Tracks.fits

fresh_big :
    contains store0.seen (key_of (put_event (codes "v") (long compact_bytes) store0)) ≡ false
unfolding contains loaded any
fresh_big = refl

Tracks-big : Tracks (put_event (codes "v") (long compact_bytes) store0 ∷ []) 0 store_big
Tracks-big =
    accept-Tracks 7 (codes "new") (codes "UC1") (codes "v") (codes "t") (long compact_bytes) store0
      first_start-Tracks big-IsEvent room1 fresh_big

big_large : is_small store_big ≡ false
big_large =
    long_title-large compact_bytes (put_event (codes "v") (long compact_bytes) store0) store_big
      Tracks-big refl (omega arith)

ack_big : store_big.ack_through ≡ 0
unfolding loaded load_ack
ack_big =
    (append-cursor 7 (codes "new") (codes "UC1") (codes "v") (codes "t") (long compact_bytes) store0
      first_start-Tracks fresh_big).0

sane_big : store_big.ack_through < store_big.next_seq + compact_margin
sane_big = omega (arith, ack_big)

maybe_compact-refines_example :
    Tracks
      (put_event (codes "v") (long compact_bytes) store0 ∷ [])
      (floor_after compacted 0 store_big)
      (maybe_compact compacted store_big).0
maybe_compact-refines_example = maybe_compact-refines Tracks-big sane_big compacted (λ e. cc)

maybe_compact-retains_example :
    ((maybe_compact compacted store_big).1 ≡ ok tt)
    × (length (events_of (lines (get_or (maybe_compact compacted store_big).0.events [])))
        ≤ max_retained_events)
maybe_compact-retains_example = maybe_compact-retains Tracks-big sane_big big_large

-- A client that acknowledges far beyond the newest event.
acked_big : Store
acked_big = set_ack succeeds 5000 store_big

acked-Tracks : Tracks (put_event (codes "v") (long compact_bytes) store0 ∷ []) 0 acked_big
unfolding acked_big
acked-Tracks = set_ack-Tracks succeeds 5000 Tracks-big

acked_through : acked_big.ack_through ≡ 5000
unfolding acked_big
acked_through = omega (arith, set_ack-max succeeds 5000 store_big, ack_big)

next_big : acked_big.next_seq ≡ 2
unfolding loaded
next_big = acked-Tracks.next_is_tip

ack_past_end_renumbers_example :
    ((maybe_compact compacted acked_big).0.events ≡ some [])
    × ((opened (maybe_compact compacted acked_big).0.disk).next_seq ≡ 1)
ack_past_end_renumbers_example =
    ack_past_end_renumbers acked-Tracks (omega (arith, acked_through, next_big)) (
      long_title-large compact_bytes (put_event (codes "v") (long compact_bytes) store0) acked_big
        acked-Tracks refl (omega arith))

set_ack-survives_test :
    ((set_ack succeeds 9 store0).ack_through ≡ max store0.ack_through 9)
    × (stored_ack (set_ack succeeds 9 store0) ≡ max store0.ack_through 9)
set_ack-survives_test = set_ack-survives 9 store0 (omega arith) stored0
  where
    stored0 : stored_ack store0 ≡ store0.ack_through
    stored0 = refl
