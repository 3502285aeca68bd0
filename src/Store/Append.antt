-- ===== src/Store/Append.antt =====
-- `append` of src/store.rs refines one more event in the history, or none for a duplicate.
use yt_websub.Prelude.{
  ℕ, ◌<◌, true, false, ◌⊎◌, Option, none, some, List, [], ◌∷◌, ◌++◌, ◌≡◌, refl, sym, ap, ◌∙◌, Bytes,
  Bool-cases, inl, inr,
}
use yt_websub.Prelude.Outcomes.{IoResult, ok}
use yt_websub.Text.Number.{max_u64}
use yt_websub.Store.Line.{Event, IsEvent, format_line}
use yt_websub.Store.{
  Store, LogFate, written, append, new_event, remember, finish_append, contains, key_of,
}
use yt_websub.Store.Window.{window}
use yt_websub.Store.Keys.{has_key}
use yt_websub.Store.Order.{tip}
use yt_websub.Store.Tracks.{Tracks, write_log-linked, remember-Tracks}

module _ (now : ℕ) (kind channel_id video_id ts title : Bytes) (s : Store) where
  abbrev pub incoming : Event
  incoming = new_event now kind channel_id video_id ts title s

  pub append-duplicate :
      (fate : LogFate)
      → contains s.seen (key_of incoming) ≡ true
      → append fate now kind channel_id video_id ts title s ≡ (s, ok none)
  unfolding append
  append-duplicate fate h = rw h

  pub append-fresh :
      (fate : LogFate)
      → contains s.seen (key_of incoming) ≡ false
      → append fate now kind channel_id video_id ts title s ≡ finish_append fate incoming s
  unfolding append
  append-fresh fate h = rw h

  -- What an `append` whose write succeeds does to a store that holds the history `es`.
  abbrev pub AppendDone : List Event → ℕ → Type 0
  AppendDone es low =
      ((has_key (window es) (key_of incoming) ≡ true)
        × (append written now kind channel_id video_id ts title s ≡ (s, ok none)))
      ⊎ ((has_key (window es) (key_of incoming) ≡ false)
          × ((append written now kind channel_id video_id ts title s).1 ≡ ok (some (tip 1 es)))
          × Tracks (es ++ incoming ∷ []) low
              (append written now kind channel_id video_id ts title s).0)

  module _ {es : List Event} {low : ℕ} (t : Tracks es low s) where
    pub seen-window : contains s.seen (key_of incoming) ≡ has_key (window es) (key_of incoming)
    seen-window =
        t.keys (key_of incoming) ∙ ap (λ (w : List Event). has_key w (key_of incoming)) t.in_memory

    finish_append-Tracks :
        IsEvent incoming
        → s.next_seq < max_u64
        → contains s.seen (key_of incoming) ≡ false
        → Tracks (es ++ incoming ∷ []) low (finish_append written incoming s).0
    unfolding finish_append
    finish_append-Tracks v room h =
        rw (write_log-linked (format_line incoming) s t.linked)
          (remember-Tracks t incoming v refl room (sym (t.keys (key_of incoming)) ∙ h))

    -- An event that is no duplicate.
    pub accept-Tracks :
        IsEvent incoming
        → s.next_seq < max_u64
        → contains s.seen (key_of incoming) ≡ false
        → Tracks
            (es ++ incoming ∷ [])
            low
            (append written now kind channel_id video_id ts title s).0
    accept-Tracks v room new = rw (append-fresh written new) (finish_append-Tracks v room new)

    -- The cursor of acknowledged events is not touched.
    pub append-cursor :
        contains s.seen (key_of incoming) ≡ false
        → ((append written now kind channel_id video_id ts title s).0.ack_through ≡ s.ack_through)
          × ((append written now kind channel_id video_id ts title s).0.ack ≡ s.ack)
    append-cursor new = rw (append-fresh written new) (
        unfold finish_append in
        rw (write_log-linked (format_line incoming) s t.linked) (unfold remember in (refl, refl)))

    -- An append whose write succeeds, to a store that holds a history and has numbers left: if the
    -- window of recent events has one with the same key, nothing changes and the result is
    -- `Ok(None)`; otherwise the result is the number behind the newest event's, and the store holds
    -- the history with the new event at its end.
    pub append-refines : IsEvent incoming → s.next_seq < max_u64 → AppendDone es low
    append-refines v room = elim (Bool-cases (contains s.seen (key_of incoming))) [
      | inl old ↦ inl (sym seen-window ∙ old, append-duplicate written old)
      | inr new ↦ inr (
        sym seen-window ∙ new,
        rw (append-fresh written new)
            (unfold finish_append in ap {B = IoResult (Option ℕ)} (λ n. ok (some n)) t.next_is_tip),
        accept-Tracks v room new,
      )
    ]
