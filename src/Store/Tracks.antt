-- ===== src/Store/Tracks.antt =====
-- What a store promises, against the history of the events that it took: the abstract view of
-- src/store.rs is a list of events and the number up to which the compaction has dropped them.
use yt_websub.Prelude.{
  ℕ, ◌≤◌, ◌<◌, true, false, Option, none, some, List, [], ◌∷◌, ◌++◌, foldl-append, ◌≡◌, refl, sym,
  ap, ◌∙◌, arith, Bytes, ltb, =b_iff, any, front?, pop_front, get_or, keep, keep-append, All,
  All-append, Bool-cases, inl, inr, if◌then◌else◌, length,
}
use yt_websub.Text.Number.{max_u64}
use yt_websub.Store.Line.{Event, IsEvent, format_line}
use yt_websub.Store.{
  Store, remember, write_log, contains, insert_key, remove_key, push_recent, key_of, recent_cap,
}
use yt_websub.Store.Log.{render, render-append, render-one, is_after}
use yt_websub.Store.Window.{window}
use yt_websub.Store.Keys.{
  has_key, has_key-append, Distinct, Distinct-concat, contains-insert_key, contains-remove_key,
}
use yt_websub.Store.Order.{Ascending, Ascending-concat, tip, tip-concat}

-- The store holds the history `es`, of which the events up to `low` may be gone from the file.
pub record Tracks (es : List Event) (low : ℕ) (s : Store) : Type 0 where
  pub linked : s.log_linked ≡ true
  pub on_disk : s.events ≡ some (render (keep (is_after low) es))
  pub in_memory : s.recent ≡ window es
  pub next_is_tip : s.next_seq ≡ tip 1 es
  pub fits : s.next_seq ≤ max_u64
  pub below : low < s.next_seq
  pub ascending : Ascending 0 es
  pub wellformed : All IsEvent es
  pub keys : (k : Bytes) → contains s.seen k ≡ has_key s.recent k
  pub distinct : Distinct s.recent

window-concat : (es : List Event) (e : Event) → window (es ++ e ∷ []) ≡ push_recent (window es) e
unfolding window
window-concat es e = foldl-append push_recent [] es (e ∷ [])

-- The window and the key set after an event with a new key.
recent-remember : (e : Event) (s : Store) → (remember e s).recent ≡ push_recent s.recent e
unfolding remember push_recent
recent-remember e s = refl

-- What `write_log` leaves through a handle of the file at `events_path`.
abbrev pub appended : Bytes → Store → Store
appended bytes s = record s { disk = record s.disk { events = some (get_or s.events [] ++ bytes) } }

pub write_log-linked :
    (bytes : Bytes) (s : Store) → s.log_linked ≡ true → write_log bytes s ≡ appended bytes s
write_log-linked bytes s h = ground arith

remove_front :
    (set : List Bytes) (old : Event) (rest : List Event) (k : Bytes)
    → contains set k ≡ has_key (old ∷ rest) k
    → has_key rest (key_of old) ≡ false
    → contains (remove_key set (key_of old)) k ≡ has_key rest k
unfolding any
remove_front set old rest k h d =
    ground (arith, contains-remove_key set (key_of old) k, h, d, =b_iff (key_of old) k)

-- Past the cap the front leaves the window and its key the set; either way they agree.
evict_keys :
    (set : List Bytes) (longer : List Event) (k : Bytes)
    → contains set k ≡ has_key longer k
    → Distinct longer
    → contains
        (if ltb recent_cap (length longer)
          then (elim (front? longer) [ none ↦ set | some old ↦ remove_key set (key_of old) ])
          else set)
        k
      ≡ has_key (if ltb recent_cap (length longer) then pop_front longer else longer) k
evict_keys set [] k h d = h
evict_keys set (old ∷ rest) k h d = elim (Bool-cases (ltb recent_cap (length (old ∷ rest)))) [
  | inl over ↦ rw over (remove_front set old rest k h d.0)
  | inr room ↦ rw room h
]

evict-Distinct :
    (longer : List Event)
    → Distinct longer
    → Distinct (if ltb recent_cap (length longer) then pop_front longer else longer)
evict-Distinct [] d = d
evict-Distinct (old ∷ rest) d = elim (Bool-cases (ltb recent_cap (length (old ∷ rest)))) [
  | inl over ↦ rw over d.1
  | inr room ↦ rw room d
]

module _ (e : Event) (s : Store) (keys : (k : Bytes) → contains s.seen k ≡ has_key s.recent k)
    (distinct : Distinct s.recent) (fresh : has_key s.recent (key_of e) ≡ false) where
  longer_keys :
      (k : Bytes) → contains (insert_key s.seen (key_of e)) k ≡ has_key (s.recent ++ e ∷ []) k
  unfolding any
  longer_keys k =
      ground
        (arith, contains-insert_key s.seen (key_of e) k, keys k, has_key-append s.recent (e ∷ []) k)

  remember-Distinct : Distinct (remember e s).recent
  unfolding remember
  remember-Distinct =
      evict-Distinct (s.recent ++ e ∷ []) (Distinct-concat s.recent e distinct fresh)

  remember-keys : (k : Bytes) → contains (remember e s).seen k ≡ has_key (remember e s).recent k
  unfolding remember
  remember-keys k =
      evict_keys (insert_key s.seen (key_of e)) (s.recent ++ e ∷ []) k (longer_keys k)
        (Distinct-concat s.recent e distinct fresh)

module _ {es : List Event} {low : ℕ} {s : Store} (t : Tracks es low s) (e : Event) (v : IsEvent e)
    (next : e.seq ≡ s.next_seq) (room : s.next_seq < max_u64)
    (fresh : has_key s.recent (key_of e) ≡ false) where
  log_concat :
      render (keep (is_after low) (es ++ e ∷ [])) ≡ render (keep (is_after low) es) ++ format_line e
  log_concat =
      let above : ltb low e.seq ≡ true = ground (arith, t.below, next) in
      rw (keep-append (is_after low) es (e ∷ []), render-append)
        (unfold keep in rw (above, render-one))

  -- One more event in the history is one more row in the file and one more event in memory.
  pub remember-Tracks : Tracks (es ++ e ∷ []) low (remember e (appended (format_line e) s))
  unfolding remember
  remember-Tracks = record {
    linked = t.linked;
    on_disk =
        ap (λ (f : Option Bytes). some (get_or f [] ++ format_line e)) t.on_disk
        ∙ ap {B = Option Bytes} some (sym log_concat);
    in_memory =
        recent-remember e s
        ∙ ap (λ (w : List Event). push_recent w e) t.in_memory
        ∙ sym (window-concat es e);
    next_is_tip = rw (tip-concat 1 es e) (omega (arith, room, next));
    fits = omega (arith, room);
    below = omega (arith, room, t.below);
    ascending = Ascending-concat 0 es e t.ascending (next ∙ t.next_is_tip);
    wellformed = All-append IsEvent es (e ∷ []) t.wellformed (v, tt);
    keys = remember-keys e s t.keys t.distinct fresh;
    distinct = remember-Distinct e s t.keys t.distinct fresh;
  }
