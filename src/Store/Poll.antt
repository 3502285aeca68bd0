-- ===== src/Store/Poll.antt =====
-- `events_after` of src/store.rs: the answer from memory and the answer from the file are one.
use yt_websub.Prelude.{
  ℕ, ◌+◌, ◌%◌, ◌^◌, ◌≤◌, ◌<◌, true, false, some, List, [], ◌∷◌, ◌++◌, ◌≡◌, refl, sym, ap, ◌∙◌,
  arith, Bytes, ltb, leb, keep, keep-append, keep_none, keep-keep, All, All-map, All-keep,
  Bool-cases, inl, inr, take,
}
use yt_websub.Text.Number.{max_u64}
use yt_websub.Text.Pieces.{lines}
use yt_websub.Store.Line.{Event, IsEvent}
use yt_websub.Store.{Store, events_after, read_after, recent_front}
use yt_websub.Store.Log.{render, is_after, events_of-render, read_after-keep}
use yt_websub.Store.Window.{window-IsEnd, window-eq-nil}
use yt_websub.Store.Order.{Ascending, before_end}
use yt_websub.Store.Tracks.{Tracks}

-- The part of a history that a client with this cursor has not seen, at most `limit` events of it.
abbrev pub unseen : ℕ → ℕ → List Event → List Event
unseen after limit es = take limit (keep (is_after after) es)

from_memory :
    (after limit : ℕ) (s : Store)
    → leb (recent_front s) ((after + 1) % 2 ^ 64) ≡ true
    → events_after after limit s ≡ unseen after limit s.recent
unfolding events_after
from_memory after limit s h = rw h

from_file :
    (after limit : ℕ) (s : Store) (text : Bytes)
    → leb (recent_front s) ((after + 1) % 2 ^ 64) ≡ false
    → s.events ≡ some text
    → events_after after limit s ≡ read_after after limit [] (lines text)
unfolding events_after
from_file after limit s text h e = rw (h, e)

-- The window has all that is unseen, if the cursor is not before its front.
window_suffices :
    (after : ℕ) (es pre w : List Event)
    → Ascending 0 es
    → es ≡ pre ++ w
    → (w ≡ [] → es ≡ [])
    → ((f : Event) (fs : List Event) → w ≡ f ∷ fs → f.seq ≤ after + 1)
    → keep (is_after after) w ≡ keep (is_after after) es
window_suffices after es pre [] a e empty front = rw (empty refl)
window_suffices after es pre (f ∷ fs) a e empty front =
    let old : All (λ x. x.seq < f.seq) pre = before_end 0 pre f fs (rw e at a) in
    let gone : keep (is_after after) pre ≡ [] = keep_none (is_after after) pre (
      All-map (λ x. x.seq < f.seq) (λ x. ltb after x.seq ≡ false)
        (λ x lt. ground (arith, front f fs refl)) pre old) in
    rw (e, keep-append (is_after after) pre (f ∷ fs), gone)

recent_front-some :
    (s : Store) (f : Event) (fs : List Event) → s.recent ≡ f ∷ fs → recent_front s ≡ f.seq
unfolding recent_front
recent_front-some s f fs e = rw e

module _ {es : List Event} {low : ℕ} {s : Store} (t : Tracks es low s) (after limit : ℕ)
    (fits : after ≤ max_u64) (floor : low ≤ after) (some_wanted : 0 < limit) where
  -- In `u64` the cursor's successor is its true successor, or 0.
  successor : leb (recent_front s) ((after + 1) % 2 ^ 64) ≡ true → recent_front s ≤ after + 1
  successor h = ground arith

  by_memory :
      leb (recent_front s) ((after + 1) % 2 ^ 64) ≡ true
      → events_after after limit s ≡ unseen after limit es
  by_memory h =
      let (pre, split) = window-IsEnd es in
      from_memory after limit s h
      ∙ ap (take limit) (
          window_suffices after es pre s.recent t.ascending
            (split ∙ ap (λ (w : List Event). pre ++ w) (sym t.in_memory))
            (λ e. window-eq-nil es (sym t.in_memory ∙ e))
            (λ f fs e. rw (recent_front-some s f fs e) at (successor h)))

  by_file :
      leb (recent_front s) ((after + 1) % 2 ^ 64) ≡ false
      → events_after after limit s ≡ unseen after limit es
  by_file h =
      let kept = keep (is_after low) es in
      from_file after limit s (render kept) h t.on_disk
      ∙ read_after-keep after limit [] (lines (render kept)) some_wanted
      ∙ ap (unseen after limit)
          (events_of-render kept (All-keep IsEvent (is_after low) es t.wellformed))
      ∙ ap (take limit) (keep-keep (is_after after) (is_after low) (λ e p. ground arith) es)

  pub events_after-unseen : events_after after limit s ≡ unseen after limit es
  events_after-unseen = elim (Bool-cases (leb (recent_front s) ((after + 1) % 2 ^ 64))) [
    | inl memory ↦ by_memory memory
    | inr file ↦ by_file file
  ]
