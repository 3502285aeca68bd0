-- ===== src/Store/Reopen.antt =====
-- `open` of src/store.rs after a stop or a crash between operations: nothing durable is lost.
use yt_websub.Prelude.{
  ℕ, suc, ◌≤◌, ◌<◌, true, ◌⊎◌, Option, some, List, [], ◌++◌, foldl, map, ◌≡◌, refl, sym, ap, ◌∙◌,
  arith, Bytes, keep, keep-keep, All, All-keep, inl, inr, get_or, subst,
}
use yt_websub.Prelude.Outcomes.{ok}
use yt_websub.Text.Number.{max_u64}
use yt_websub.Store.Line.{Event, IsEvent}
use yt_websub.Store.{Disk, Store, open_store, loaded, load_ack, insert_key, key_of, push_recent}
use yt_websub.Store.Log.{render, is_after, events_of-render, load_lines-foldl}
use yt_websub.Store.Window.{window, window-append}
use yt_websub.Store.Keys.{Distinct, Distinct-append_right, contains-load}
use yt_websub.Store.Order.{
  Ascending, Ascending-append_right, tip, tip-keep, keep-after-end, foldl-load_event,
}
use yt_websub.Store.Tracks.{Tracks}

-- The store that `open` makes of a disk.
abbrev pub opened : Disk → Store
opened disk = record {
  disk = record disk { events = some (get_or disk.events []) };
  log_linked = true;
  next_seq = (loaded disk).0;
  recent = (loaded disk).1;
  seen = foldl insert_key [] (map key_of (loaded disk).1);
  ack_through = load_ack disk.ack.target;
}

pub open_store-opened : (disk : Disk) → open_store true true disk ≡ ok (opened disk)
unfolding open_store
open_store-opened disk = refl

window-foldl : (es : List Event) → foldl push_recent [] es ≡ window es
unfolding window
window-foldl es = refl

loaded-render :
    (disk : Disk) (es : List Event)
    → disk.events ≡ some (render es)
    → All IsEvent es
    → Ascending 0 es
    → tip 1 es ≤ max_u64
    → loaded disk ≡ (tip 1 es, window es)
unfolding loaded
loaded-render disk es e v a fits =
    rw (e, load_lines-foldl, events_of-render es v, foldl-load_event 0 1 es [] a (omega arith) fits)
      (ap {B = ℕ × List Event} (λ w. (tip 1 es, w)) (window-foldl es))

-- The newest event is still in the file, or there has been none.
abbrev pub NewestKept : List Event → ℕ → Type 0
NewestKept es low = (es ≡ []) ⊎ (suc low < tip 1 es)

module _ {es : List Event} {low : ℕ} {s : Store} (t : Tracks es low s)
    (newest : NewestKept es low) where
  abbrev pub kept : List Event
  kept = keep (is_after low) es

  kept_end : (pre : List Event) × (es ≡ pre ++ kept)
  kept_end = keep-after-end 0 low es t.ascending

  kept-Ascending : Ascending 0 kept
  kept-Ascending =
      let (pre, e) = kept_end in
      Ascending-append_right 0 pre kept (subst (Ascending 0) e t.ascending)

  tip-kept : tip 1 kept ≡ tip 1 es
  tip-kept = elim newest [
    | inl none_yet ↦ rw none_yet (unfold keep in refl)
    | inr here ↦ tip-keep 0 low 1 es t.ascending here
  ]

  loaded-kept : loaded s.disk ≡ (tip 1 kept, window kept)
  loaded-kept =
      loaded-render s.disk kept t.on_disk (All-keep IsEvent (is_after low) es t.wellformed)
        kept-Ascending (omega (arith, tip-kept, t.fits, t.next_is_tip))

  window-Distinct : Distinct (window kept)
  window-Distinct =
      let (pre, e) = kept_end in
      let (p, q) = window-append pre kept in
      Distinct-append_right p (window kept)
        (subst Distinct (t.in_memory ∙ ap window e ∙ q) t.distinct)

  pub opened-Tracks : Tracks kept low (opened s.disk)
  opened-Tracks = record {
    linked = refl;
    on_disk =
        ap {B = Option Bytes} (λ f. some (get_or f [])) t.on_disk
        ∙ ap {B = Option Bytes} (λ l. some (render l))
            (sym (keep-keep (is_after low) (is_after low) (λ e p. p) es));
    in_memory = ap (λ (r : ℕ × List Event). r.1) loaded-kept;
    next_is_tip = ap (λ (r : ℕ × List Event). r.0) loaded-kept;
    fits =
        omega
          (arith, tip-kept, t.fits, t.next_is_tip, ap (λ (r : ℕ × List Event). r.0) loaded-kept);
    below =
        omega
          (arith, tip-kept, t.below, t.next_is_tip, ap (λ (r : ℕ × List Event). r.0) loaded-kept);
    ascending = kept-Ascending;
    wellformed = All-keep IsEvent (is_after low) es t.wellformed;
    keys = λ k. contains-load (loaded s.disk).1 k;
    distinct = subst Distinct (sym (ap (λ (r : ℕ × List Event). r.1) loaded-kept)) window-Distinct;
  }

  pub next_seq-opened : (opened s.disk).next_seq ≡ s.next_seq
  next_seq-opened =
      omega (arith, tip-kept, t.next_is_tip, ap (λ (r : ℕ × List Event). r.0) loaded-kept)

  pub NewestKept-kept : NewestKept kept low
  NewestKept-kept = elim newest [
    | inl none_yet ↦ inl (ap (keep (is_after low)) none_yet ∙ (unfold keep in refl))
    | inr here ↦ inr (omega (arith, here, tip-kept))
  ]

  -- If a store's newest event is still in its file, or it never had one, then the store that is
  -- opened on its files holds every event that is not compacted away, and goes on with the number
  -- that was next.
  pub open_store-refines :
      (open_store true true s.disk ≡ ok (opened s.disk))
      × Tracks (keep (is_after low) es) low (opened s.disk)
      × ((opened s.disk).next_seq ≡ s.next_seq)
  open_store-refines = (open_store-opened s.disk, opened-Tracks, next_seq-opened)
