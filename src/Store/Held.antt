-- ===== src/Store/Held.antt =====
-- What holds of the store of src/store.rs all along a run, and that each step keeps it.
use yt_websub.Prelude.{
  ℕ, ◌-◌, ◌≤◌, ◌<◌, max, true, false, ◌≢◌, none, List, [], ◌∷◌, ◌++◌, ◌≡◌, refl, sym, ap, ◌∙◌,
  subst, arith, Bytes, any, keep, keep-append, keep-keep, Bool-cases, inl, inr,
}
use yt_websub.Text.Number.{max_u64}
use yt_websub.Util.Atomic.{Fate, Slot}
use yt_websub.Store.Line.{Event, IsEvent}
use yt_websub.Store.{
  Disk, Store, written, append, set_ack, load_ack, loaded, contains, key_of, max_seq,
}
use yt_websub.Store.Rewrite.{
  CompactFate, compacted, rewrite_fails, reopen_fails, maybe_compact, compact_margin, keep_above,
}
use yt_websub.Store.Log.{is_after, render}
use yt_websub.Store.Window.{window, window-IsEnd}
use yt_websub.Store.Order.{tip-concat}
use yt_websub.Store.Tracks.{Tracks}
use yt_websub.Store.Keys.{has_key, has_key-append, has_key-keep}
use yt_websub.Store.Append.{incoming, accept-Tracks, append-cursor}
use yt_websub.Store.Reopen.{opened, NewestKept, opened-Tracks, next_seq-opened, NewestKept-kept}
use yt_websub.Store.Compact.{floor_after, maybe_compact-refines, maybe_compact-Untouched, is_small}
use yt_websub.Store.Ack.{set_ack-Tracks, set_ack-max, stored_ack, stored_ack-le}

abbrev pub empty_disk : Disk
empty_disk = record { events = none; ack = record { target = none; tmp = none } }

-- What holds all along: the store tracks a history that agrees with the true one above the floor.
pub record Holds (es : List Event) (low : ℕ) (s : Store) : Type 0 where
  pub history : List Event
  pub tracks : Tracks history low s
  pub agrees : keep (is_after low) history ≡ keep (is_after low) es
  pub within : (k : Bytes) → has_key history k ≡ true → has_key es k ≡ true
  pub ack_below : s.ack_through < s.next_seq
  pub stored_below : stored_ack s ≤ s.ack_through
  pub newest : NewestKept history low
  -- the newest thousand are never dropped
  pub margin : low ≤ s.next_seq - 1 - compact_margin

within-append :
    (history es : List Event) (e : Event)
    → ((k : Bytes) → has_key history k ≡ true → has_key es k ≡ true)
    → (k : Bytes) → has_key (history ++ e ∷ []) k ≡ true
    → has_key (es ++ e ∷ []) k ≡ true
within-append history es e h k found =
    has_key-append es (e ∷ []) k ∙ ground (arith, h k, found, has_key-append history (e ∷ []) k)

agrees-append :
    (low : ℕ) (es fs : List Event) (e : Event)
    → keep (is_after low) es ≡ keep (is_after low) fs
    → keep (is_after low) (es ++ e ∷ []) ≡ keep (is_after low) (fs ++ e ∷ [])
agrees-append low es fs e h =
    keep-append (is_after low) es (e ∷ [])
    ∙ ap (λ (t : List Event). t ++ keep (is_after low) (e ∷ [])) h
    ∙ sym (keep-append (is_after low) fs (e ∷ []))

-- Lists that agree above a floor agree above any higher one.
pub agrees-raise :
    (low high : ℕ) (es fs : List Event)
    → low ≤ high
    → keep (is_after low) es ≡ keep (is_after low) fs
    → keep (is_after high) es ≡ keep (is_after high) fs
agrees-raise low high es fs le h =
    sym (keep-keep (is_after high) (is_after low) (λ e p. ground arith) es)
    ∙ ap (keep (is_after high)) h
    ∙ keep-keep (is_after high) (is_after low) (λ e p. ground arith) fs

le-floor_after : (fate : CompactFate) (low : ℕ) (s : Store) → low ≤ floor_after fate low s
le-floor_after rewrite_fails low s = omega arith
le-floor_after compacted low s = ground arith
le-floor_after reopen_fails low s = ground arith

module _ {es : List Event} {low : ℕ} {s : Store} (h : Holds es low s) where
  pub accept-Holds :
      (now : ℕ) (kind channel_id video_id ts title : Bytes)
      → IsEvent (incoming now kind channel_id video_id ts title s)
      → s.next_seq < max_u64
      → contains s.seen (key_of (incoming now kind channel_id video_id ts title s)) ≡ false
      → Holds
          (es ++ incoming now kind channel_id video_id ts title s ∷ [])
          low
          (append written now kind channel_id video_id ts title s).0
  accept-Holds now kind channel_id video_id ts title v room new =
      let e = incoming now kind channel_id video_id ts title s in
      let t = accept-Tracks now kind channel_id video_id ts title s h.tracks v room new in
      let (ack, file) = append-cursor now kind channel_id video_id ts title s h.tracks new in
      let next = t.next_is_tip ∙ tip-concat 1 h.history e in
      record {
        history = h.history ++ e ∷ [];
        tracks = t;
        agrees = agrees-append low h.history es e h.agrees;
        within = within-append h.history es e h.within;
        ack_below = omega (arith, ack, next, h.ack_below);
        stored_below =
            omega (arith, ack, ap (λ (f : Slot). load_ack f.target) file, h.stored_below);
        newest = inr (omega (arith, tip-concat 1 h.history e, h.tracks.below));
        margin = omega (arith, next, h.margin);
      }

  pub acknowledge-Holds :
      (fate : Fate) (through : ℕ) → through ≤ max_seq s → Holds es low (set_ack fate through s)
  unfolding max_seq
  acknowledge-Holds fate through le =
      let t = set_ack-Tracks fate through h.tracks in
      let next = t.next_is_tip ∙ sym h.tracks.next_is_tip in
      record {
        history = h.history;
        tracks = t;
        agrees = h.agrees;
        within = h.within;
        ack_below =
            omega (arith, set_ack-max fate through s, h.ack_below, next, h.tracks.below, le);
        stored_below = omega (
          arith,
          stored_ack-le fate through s (omega (arith, le, h.tracks.fits)) h.stored_below,
          set_ack-max fate through s,
        );
        newest = h.newest;
        margin = omega (arith, next, h.tracks.next_is_tip, h.margin);
      }

  -- The floor of a compaction stays below the newest event.
  floor-newest : NewestKept h.history (max low (keep_above s))
  unfolding keep_above
  floor-newest = elim h.newest [
    | inl none_yet ↦ inl none_yet
    | inr here ↦ inr (omega (arith, here, h.ack_below, h.tracks.next_is_tip))
  ]

  compact-newest : (fate : CompactFate) → NewestKept h.history (floor_after fate low s)
  compact-newest rewrite_fails = h.newest
  compact-newest compacted = elim (Bool-cases (is_small s)) [
    | inl small ↦ rw small h.newest
    | inr large ↦ rw large floor-newest
  ]
  compact-newest reopen_fails = elim (Bool-cases (is_small s)) [
    | inl small ↦ rw small h.newest
    | inr large ↦ rw large floor-newest
  ]

  floor-margin : max low (keep_above s) ≤ s.next_seq - 1 - compact_margin
  unfolding keep_above
  floor-margin = omega (arith, h.margin, h.ack_below)

  compact-margin : (fate : CompactFate) → floor_after fate low s ≤ s.next_seq - 1 - compact_margin
  compact-margin rewrite_fails = h.margin
  compact-margin compacted = ground (arith, floor-margin, h.margin)
  compact-margin reopen_fails = ground (arith, floor-margin, h.margin)

  pub compact-Holds :
      (fate : CompactFate)
      → fate ≢ reopen_fails
      → Holds es (floor_after fate low s) (maybe_compact fate s).0
  compact-Holds fate ne =
      let (next, ack, file) = maybe_compact-Untouched fate s in
      record {
        history = h.history;
        tracks = maybe_compact-refines h.tracks (omega (arith, h.ack_below)) fate ne;
        agrees =
            agrees-raise low (floor_after fate low s) h.history es (le-floor_after fate low s)
              h.agrees;
        within = h.within;
        ack_below = omega (arith, next, ack, h.ack_below);
        stored_below =
            omega (arith, ack, ap (λ (f : Slot). load_ack f.target) file, h.stored_below);
        newest = compact-newest fate;
        margin = omega (arith, next, compact-margin fate);
      }

  pub restart-Holds : Holds es low (opened s.disk)
  restart-Holds = record {
    history = keep (is_after low) h.history;
    tracks = opened-Tracks h.tracks h.newest;
    within = λ k e. h.within k (has_key-keep (is_after low) h.history k e);
    agrees = keep-keep (is_after low) (is_after low) (λ e p. p) h.history ∙ h.agrees;
    ack_below = omega (arith, h.stored_below, h.ack_below, next_seq-opened h.tracks h.newest);
    stored_below = omega arith;
    newest = NewestKept-kept h.tracks h.newest;
    margin = omega (arith, h.margin, next_seq-opened h.tracks h.newest);
  }

pub first_start-Tracks : Tracks [] 0 (opened empty_disk)
unfolding loaded contains any keep render window
first_start-Tracks = record {
  linked = refl;
  on_disk = refl;
  in_memory = refl;
  next_is_tip = refl;
  fits = omega arith;
  below = omega arith;
  ascending = tt;
  wellformed = tt;
  keys = λ k. refl;
  distinct = tt;
}

pub first_start-Holds : Holds [] 0 (opened empty_disk)
unfolding loaded load_ack
first_start-Holds = record {
  history = [];
  tracks = first_start-Tracks;
  agrees = refl;
  within = λ k e. e;
  ack_below = omega arith;
  stored_below = omega arith;
  newest = inl refl;
  margin = omega arith;
}

-- An event whose key is in the set is in the history.
pub Holds-key :
    {es : List Event} {low : ℕ} {s : Store}
    → Holds es low s
    → (k : Bytes) → contains s.seen k ≡ true
    → has_key es k ≡ true
Holds-key {es} {low} {s} h k seen =
    let (pre, whole) = window-IsEnd h.history in
    let recent : has_key (window h.history) k ≡ true =
      subst (λ (w : List Event). has_key w k ≡ true) h.tracks.in_memory
        (sym (h.tracks.keys k) ∙ seen) in
    h.within k (
      subst (λ (l : List Event). has_key l k ≡ true) (sym whole)
        (has_key-append pre (window h.history) k ∙ ground (arith, recent)))
