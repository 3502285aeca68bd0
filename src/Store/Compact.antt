-- ===== src/Store/Compact.antt =====
-- `maybe_compact` of src/store.rs: only events at or below its floor leave the log.
use yt_websub.Prelude.{
  ℕ, ◌+◌, ◌-◌, ◌≤◌, ◌<◌, max, Bool, true, false, Option, none, some, List, [], ◌≡◌, ◌≢◌, refl, sym,
  ap, ◌∙◌, arith, Bytes, ltb, leb, ◌==◌, if◌then◌else◌, keep, keep_both, keep_all_of_none, All-keep,
  Bool-cases, inl, inr, get_or, length,
}
use yt_websub.Prelude.Outcomes.{ok}
use yt_websub.Text.Pieces.{lines}
use yt_websub.Store.Line.{Event, IsEvent}
use yt_websub.Store.{Store}
use yt_websub.Store.Rewrite.{
  CompactFate, compacted, rewrite_fails, reopen_fails, maybe_compact, finish_compact, compact_lines,
  compact_text, keep_above, compact_bytes, compact_margin, max_retained_events,
}
use yt_websub.Store.Log.{
  render, is_after, events_of, events_of-render, lines-render, compact_lines-rows,
}
use yt_websub.Store.Order.{tip, All-lt-tip, keep-Ascending, length-lt}
use yt_websub.Store.Tracks.{Tracks}

abbrev pub is_small : Store → Bool
is_small s = ltb (length (get_or s.events [])) compact_bytes

-- The floor below which events are gone afterwards.
abbrev pub floor_after : CompactFate → ℕ → Store → ℕ
floor_after rewrite_fails low s = low
floor_after fate low s = if is_small s then low else max low (keep_above s)

module _ (fate : CompactFate) (s : Store) where
  compact_small : is_small s ≡ true → maybe_compact fate s ≡ (s, ok tt)
  unfolding maybe_compact
  compact_small h = rw h

  compact_large :
      (text : Bytes)
      → is_small s ≡ false
      → s.events ≡ some text
      → maybe_compact fate s ≡ finish_compact fate (compact_lines (keep_above s) (lines text)) s
  unfolding maybe_compact
  compact_large text h e = rw h (ap (compact_text fate s) e)

-- What a compaction leaves as it is.
abbrev pub Untouched : Store → Store → Type 0
Untouched s' s = (s'.next_seq ≡ s.next_seq) × (s'.ack_through ≡ s.ack_through) × (s'.ack ≡ s.ack)

finish_compact-Untouched :
    (fate : CompactFate) (out : Bytes) (dropped : ℕ) (s : Store)
    → Untouched (finish_compact fate (out, dropped) s).0 s
unfolding finish_compact
finish_compact-Untouched rewrite_fails out dropped s = (refl, refl, refl)
finish_compact-Untouched compacted out dropped s = elim (Bool-cases (dropped == 0)) [
  | inl none_dropped ↦ rw none_dropped (refl, refl, refl)
  | inr some_dropped ↦ rw some_dropped (refl, refl, refl)
]
finish_compact-Untouched reopen_fails out dropped s = elim (Bool-cases (dropped == 0)) [
  | inl none_dropped ↦ rw none_dropped (refl, refl, refl)
  | inr some_dropped ↦ rw some_dropped (refl, refl, refl)
]

compact_text-Untouched :
    (fate : CompactFate) (o : Option Bytes) (s : Store) → Untouched (compact_text fate s o).0 s
unfolding compact_text
compact_text-Untouched fate none s = (refl, refl, refl)
compact_text-Untouched fate (some text) s =
    let w = compact_lines (keep_above s) (lines text) in finish_compact-Untouched fate w.0 w.1 s

pub maybe_compact-Untouched :
    (fate : CompactFate) (s : Store) → Untouched (maybe_compact fate s).0 s
unfolding maybe_compact
maybe_compact-Untouched fate s = elim (Bool-cases (is_small s)) [
  | inl small ↦ rw small (refl, refl, refl)
  | inr large ↦ rw large (compact_text-Untouched fate s.events s)
]

seq_floor-le : (s : Store) → s.next_seq - 1 - max_retained_events ≤ keep_above s
unfolding keep_above
seq_floor-le s = omega arith

pub ack_floor-le : (s : Store) → s.ack_through - compact_margin ≤ keep_above s
unfolding keep_above
ack_floor-le s = omega arith

module _ {es : List Event} {low : ℕ} {s : Store} (t : Tracks es low s) where
  abbrev pub rewritten : Bytes × ℕ
  rewritten = (
    render (keep (is_after (max low (keep_above s))) es),
    length (keep (λ e. leb e.seq (keep_above s)) (keep (is_after low) es)),
  )

  log_rewritten : compact_lines (keep_above s) (lines (render (keep (is_after low) es))) ≡ rewritten
  log_rewritten =
      let floor = keep_above s in
      let kept = keep (is_after low) es in
      ap (compact_lines floor) (lines-render kept)
      ∙ compact_lines-rows floor kept (All-keep IsEvent (is_after low) es t.wellformed)
      ∙ ap {B = Bytes × ℕ} (λ l. (render l, length (keep (λ (e : Event). leb e.seq floor) kept)))
          (keep_both (is_after floor) (is_after low) (is_after (max low floor)) (λ e. ground arith)
            es)

  large_step :
      (fate : CompactFate)
      → is_small s ≡ false
      → maybe_compact fate s ≡ finish_compact fate rewritten s
  large_step fate large =
      compact_large fate s (render (keep (is_after low) es)) large t.on_disk
      ∙ ap (λ w. finish_compact fate w s) log_rewritten

  -- Where nothing was dropped, the file is the rewritten log already.
  none_dropped_file : rewritten.1 ≡ 0 → s.events ≡ some rewritten.0
  none_dropped_file h =
      t.on_disk
      ∙ ap {B = Option Bytes} (λ l. some (render l))
          (sym (
              keep_all_of_none (is_after (keep_above s)) (λ e. leb e.seq (keep_above s))
                (λ e p. ground arith) (keep (is_after low) es) h)
            ∙ keep_both (is_after (keep_above s)) (is_after low) (is_after (max low (keep_above s)))
                (λ e. ground arith) es)

  compacted_file : (finish_compact compacted rewritten s).0.events ≡ some rewritten.0
  unfolding finish_compact
  compacted_file = elim (Bool-cases (rewritten.1 == 0)) [
    | inl none_dropped ↦ rw none_dropped (none_dropped_file (ground (arith, none_dropped)))
    | inr dropped ↦ rw dropped
  ]

  pub maybe_compact-file :
      is_small s ≡ false → (maybe_compact compacted s).0.events ≡ some rewritten.0
  maybe_compact-file large = rw (large_step compacted large) compacted_file

module _ {es : List Event} {low : ℕ} {s : Store} (t : Tracks es low s)
    (sane : s.ack_through < s.next_seq + compact_margin) where
  keep_above-lt : keep_above s < s.next_seq
  unfolding keep_above
  keep_above-lt = omega (arith, sane, t.below)

  -- The store whose file is the rewritten log.
  replaced-Tracks :
      Tracks es
        (max low (keep_above s))
        (record s { disk = record s.disk { events = some (rewritten t).0 }; log_linked = true })
  replaced-Tracks = record {
    linked = refl;
    on_disk = refl;
    in_memory = t.in_memory;
    next_is_tip = t.next_is_tip;
    fits = t.fits;
    below = omega (arith, t.below, keep_above-lt);
    ascending = t.ascending;
    wellformed = t.wellformed;
    keys = t.keys;
    distinct = t.distinct;
  }

  -- Where nothing was dropped, the file is the rewritten log already.
  unchanged : (rewritten t).1 ≡ 0 → Tracks es (max low (keep_above s)) s
  unchanged h = record {
    linked = t.linked;
    on_disk = none_dropped_file t h;
    in_memory = t.in_memory;
    next_is_tip = t.next_is_tip;
    fits = t.fits;
    below = omega (arith, t.below, keep_above-lt);
    ascending = t.ascending;
    wellformed = t.wellformed;
    keys = t.keys;
    distinct = t.distinct;
  }

  compacted-Tracks : Tracks es (max low (keep_above s)) (finish_compact compacted (rewritten t) s).0
  unfolding finish_compact
  compacted-Tracks = elim (Bool-cases ((rewritten t).1 == 0)) [
    | inl none_dropped ↦ rw none_dropped (unchanged (ground (arith, none_dropped)))
    | inr dropped ↦ rw dropped replaced-Tracks
  ]

  compacted-ok : (finish_compact compacted (rewritten t) s).1 ≡ ok tt
  unfolding finish_compact
  compacted-ok = elim (Bool-cases ((rewritten t).1 == 0)) [
    | inl none_dropped ↦ rw none_dropped
    | inr dropped ↦ rw dropped
  ]

  -- A compaction of a store whose acknowledged number is less than a thousand past the newest keeps
  -- the history, its numbers and the window, and drops from the file at most the events up to its
  -- floor, unless only the reopening of the new log fails.
  pub maybe_compact-refines :
      (fate : CompactFate)
      → fate ≢ reopen_fails
      → Tracks es (floor_after fate low s) (maybe_compact fate s).0
  maybe_compact-refines reopen_fails ne = absurd (ne refl)
  maybe_compact-refines rewrite_fails ne = elim (Bool-cases (is_small s)) [
    | inl small ↦ rw (compact_small rewrite_fails s small) t
    | inr large ↦ rw (large_step t rewrite_fails large) (unfold finish_compact in t)
  ]
  maybe_compact-refines compacted ne = elim (Bool-cases (is_small s)) [
    | inl small ↦ rw (compact_small compacted s small, small) t
    | inr large ↦ rw (large_step t compacted large, large) compacted-Tracks
  ]

  -- What is left of the history after a floor that is at least the retention's.
  retained : length (keep (is_after (max low (keep_above s))) es) ≤ max_retained_events
  retained =
      let floor = max low (keep_above s) in
      let kept = keep (is_after floor) es in
      let old =
        All-keep (λ (e : Event). e.seq < tip 1 es) (is_after floor) es
          (All-lt-tip 0 es t.ascending) in
      let count =
        length-lt floor (tip 1 es) kept (keep-Ascending 0 floor es (omega arith) t.ascending) old
          (omega (arith, t.below, keep_above-lt, t.next_is_tip)) in
      omega (arith, count, t.next_is_tip, seq_floor-le s)

  -- A compaction that succeeds on a log of eight megabytes or more, with such an acknowledged number,
  -- leaves at most a hundred thousand events in it, however little was acknowledged.
  pub maybe_compact-retains :
      is_small s ≡ false
      → ((maybe_compact compacted s).1 ≡ ok tt)
        × (length (events_of (lines (get_or (maybe_compact compacted s).0.events [])))
            ≤ max_retained_events)
  maybe_compact-retains large =
      let after : Tracks es (max low (keep_above s)) (maybe_compact compacted s).0 =
        rw (large_step t compacted large) compacted-Tracks in
      (
        rw (large_step t compacted large) compacted-ok,
        rw
            (
              after.on_disk,
              events_of-render (keep (is_after (max low (keep_above s))) es)
                  (All-keep IsEvent (is_after (max low (keep_above s))) es t.wellformed),
            )
            retained,
      )
