-- ===== src/Store/Run.antt =====
-- Runs of the store of src/store.rs: events that come in, acknowledgements, compactions and
-- restarts, in any order.
use yt_websub.Prelude.{
  ℕ, ◌-◌, ◌≤◌, ◌<◌, true, false, ◌≢◌, List, [], ◌∷◌, ◌++◌, ◌≡◌, ap, ◌∙◌, Bytes, take,
}
use yt_websub.Text.Number.{max_u64}
use yt_websub.Util.Atomic.{Fate}
use yt_websub.Store.Line.{Event, IsEvent}
use yt_websub.Store.{
  Store, LogFate, written, append, set_ack, events_after, contains, key_of, max_seq,
}
use yt_websub.Store.Rewrite.{CompactFate, reopen_fails, maybe_compact, compact_margin}
use yt_websub.Store.Append.{incoming, append-duplicate}
use yt_websub.Store.Poll.{unseen, events_after-unseen}
use yt_websub.Store.Reopen.{opened}
use yt_websub.Store.Compact.{floor_after}
use yt_websub.Store.Held.{
  empty_disk, Holds, agrees-raise, accept-Holds, acknowledge-Holds, compact-Holds, restart-Holds,
  first_start-Holds,
}

-- `Run es low s`: the store `s` is reached; `es` are the events that it accepted since it first
-- started, and the compaction's floor has come to `low`. Acknowledgements are of events handed
-- out, so they do not pass `max_seq`.
pub data Run : List Event → ℕ → Store → Type 0 where
  first_start : Run [] 0 (opened empty_disk)
  accept :
      {es : List Event} {low : ℕ} {s : Store}
      → Run es low s
      → (now : ℕ) (kind channel_id video_id ts title : Bytes)
      → IsEvent (incoming now kind channel_id video_id ts title s)
      → s.next_seq < max_u64
      → contains s.seen (key_of (incoming now kind channel_id video_id ts title s)) ≡ false
      → Run
          (es ++ incoming now kind channel_id video_id ts title s ∷ [])
          low
          (append written now kind channel_id video_id ts title s).0
  suppress :
      {es : List Event} {low : ℕ} {s : Store}
      → Run es low s
      → (fate : LogFate) (now : ℕ) (kind channel_id video_id ts title : Bytes)
      → contains s.seen (key_of (incoming now kind channel_id video_id ts title s)) ≡ true
      → Run es low (append fate now kind channel_id video_id ts title s).0
  acknowledge :
      {es : List Event} {low : ℕ} {s : Store}
      → Run es low s
      → (fate : Fate) (through : ℕ) → through ≤ max_seq s
      → Run es low (set_ack fate through s)
  compact :
      {es : List Event} {low : ℕ} {s : Store}
      → Run es low s
      → (fate : CompactFate) → fate ≢ reopen_fails
      → Run es (floor_after fate low s) (maybe_compact fate s).0
  restart : {es : List Event} {low : ℕ} {s : Store} → Run es low s → Run es low (opened s.disk)

pub Run-Holds : {es : List Event} {low : ℕ} {s : Store} → Run es low s → Holds es low s
Run-Holds first_start = first_start-Holds
Run-Holds (accept r now kind channel_id video_id ts title v room new) =
    accept-Holds (Run-Holds r) now kind channel_id video_id ts title v room new
Run-Holds (suppress {s = s} r fate now kind channel_id video_id ts title old) =
    rw (append-duplicate now kind channel_id video_id ts title s fate old) (Run-Holds r)
Run-Holds (acknowledge r fate through le) = acknowledge-Holds (Run-Holds r) fate through le
Run-Holds (compact r fate ne) = compact-Holds (Run-Holds r) fate ne
Run-Holds (restart r) = restart-Holds (Run-Holds r)

-- In a run of the store from its first start in which the rows of new events are written whole, their
-- texts are UTF-8, their times below 2^64 and their numbers below 2^64 - 1, acknowledgements go no
-- further than the newest number, and the log can be reopened after each compaction: whatever the order of these and of
-- duplicates and restarts, and whichever acknowledgements and compactions fail to be written, a poll of
-- at least one event with a cursor at or above the compaction's floor has exactly the first events, up
-- to its limit, behind the cursor among all that were ever accepted; and the floor leaves at least the
-- newest thousand.
pub no_event_lost :
    {es : List Event} {low : ℕ} {s : Store}
    → Run es low s
    → (after limit : ℕ) → after ≤ max_u64
    → low ≤ after
    → 0 < limit
    → (events_after after limit s ≡ unseen after limit es) × (low ≤ max_seq s - compact_margin)
unfolding max_seq
no_event_lost {es} {low} {s} r after limit fits floor wanted =
    let h = Run-Holds r in
    (
      events_after-unseen h.tracks after limit fits floor wanted
          ∙ ap (take limit) (agrees-raise low after h.history es floor h.agrees),
      h.margin,
    )
