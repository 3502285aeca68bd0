-- ===== src/Subs/Waiting.antt =====
-- A tombstone of src/subs.rs while other changes are made to the registry.
use mathlib.Core.Option.{none-ne-some}
use yt_websub.Prelude.{
  ℕ, ◌+◌, ◌%◌, ◌^◌, ◌<◌, Option, none, some, ◌≡◌, ◌≢◌, inl, inr, refl, sym, ap, ◌∙◌, subst, Bytes,
  ◌=b◌, =b_refl, arith, Bool-cases, lt→ltb, Option-cases,
}
use yt_websub.Prelude.Maps.{
  Table, IsMap, get, get-put-at, put, delete, retain, filtered, =b_false, get-put-off,
  get-delete-off, get-delete, get-retain, put-IsMap, delete-IsMap,
}
use yt_websub.Util.Atomic.{Fate}
use yt_websub.Subs.{
  Sub, Registry, insert, update, drop_stale, remove, remove_found, sweep_unsub, by_token,
  unsub_topic, forget_unsub, waits, unsub_grace,
}
use yt_websub.Subs.Rows.{save}
use yt_websub.Subs.Index.{IsFree}
use yt_websub.Subs.Life.{
  IsSound, insert-update, update-IsSound, remove-IsSound, forget_unsub-IsSound, save-IsSound,
}
use yt_websub.Subs.Grace.{remove-eq}

-- Changes after which the token `t` is still asked for: in any number and order, other channels come,
-- change and go and other tombstones are dropped, at times before `until`, and the registry is saved.
pub data Changes (t : Bytes) (until : ℕ) (r : Registry) : Registry → Type 0 where
  no_change : Changes t until r r
  then_added :
      {r' : Registry}
      → Changes t until r r'
      → (s : Sub) → s.token ≢ t
      → get s.channel_id r'.sub_map ≡ none
      → IsFree s r'.token_map
      → Changes t until r (insert s r')
  then_updated :
      {r' : Registry}
      → Changes t until r r'
      → (s : Sub) → s.token ≢ t
      → IsFree s r'.token_map
      → Changes t until r (update s r')
  then_removed :
      {r' : Registry}
      → Changes t until r r'
      → (c : Bytes) (now : ℕ) → now < until
      → Changes t until r (remove c now r').0
  then_forgotten :
      {r' : Registry}
      → Changes t until r r'
      → (u : Bytes) (now : ℕ) → u ≢ t
      → now < until
      → Changes t until r (forget_unsub u now r')
  then_written :
      {r' : Registry} → Changes t until r r' → (fate : Fate) → Changes t until r (save fate r')

delete-none :
    {V : Type 0} → (t k : Bytes) (m : Table V) → get t m ≡ none → get t (delete k m) ≡ none
delete-none t k m h =
    get-delete t k m ∙ elim (Bool-cases (k =b t)) [ inl e ↦ rw e refl | inr e ↦ rw e h ]

remove-none :
    (c : Bytes) (now : ℕ) (r : Registry) → get c r.sub_map ≡ none → remove c now r ≡ (r, none)
unfolding remove
remove-none c now r n = rw (remove, n) refl

-- A token that no subscription has, with a tombstone.
pub record IsWaiting (t topic : Bytes) (until : ℕ) (r : Registry) : Type 0 where
  pub sound : IsSound r
  pub unknown : get t r.token_map ≡ none
  pub grave : get t r.unsub_pending ≡ some (topic, until)

module _ (t topic : Bytes) (until : ℕ) where
  drop_stale-none :
      (s : Sub) (o : Option Sub) (m : Table Bytes)
      → get t m ≡ none
      → get t (drop_stale s o m) ≡ none
  unfolding drop_stale
  drop_stale-none s none m h = h
  drop_stale-none s (some old) m h = elim (Bool-cases (old.token =b s.token)) [
    | inl e ↦ rw e h
    | inr e ↦ rw e (delete-none t old.token m h)
  ]

  swept_grave :
      (now : ℕ) (m : Table (Bytes × ℕ))
      → now < until
      → IsMap m
      → get t m ≡ some (topic, until)
      → get t (retain (waits now) m) ≡ some (topic, until)
  swept_grave now m soon map h =
      get-retain t (waits now) m map
      ∙ (ap (filtered (waits now)) h ∙ rw (lt→ltb now until soon) refl)

  module _ (r : Registry) (h : IsWaiting t topic until r) where
    update-IsWaiting :
        (s : Sub) → s.token ≢ t → IsFree s r.token_map → IsWaiting t topic until (update s r)
    unfolding update
    update-IsWaiting s other free = record {
      sound = update-IsSound s r h.sound free;
      unknown =
          get-put-off t s.token s.channel_id (drop_stale s (get s.channel_id r.sub_map) r.token_map)
            (=b_false s.token t other)
          ∙ drop_stale-none s (get s.channel_id r.sub_map) r.token_map h.unknown;
      grave = h.grave;
    }

    insert-IsWaiting :
        (s : Sub)
        → s.token ≢ t
        → get s.channel_id r.sub_map ≡ none
        → IsFree s r.token_map
        → IsWaiting t topic until (insert s r)
    insert-IsWaiting s other fresh free =
        subst (IsWaiting t topic until) (sym (insert-update s r fresh))
          (update-IsWaiting s other free)

    -- The token of a subscription that is there is another one.
    found_apart : (c : Bytes) (s : Sub) → get c r.sub_map ≡ some s → s.token ≢ t
    found_apart c s found same = none-ne-some c (
        sym h.unknown
        ∙ (ap (λ (x : Bytes). get x r.token_map) (sym same) ∙ h.sound.indexed.pointed c s found))

    remove-IsWaiting :
        (c : Bytes) (now : ℕ) → now < until → IsWaiting t topic until (remove c now r).0
    unfolding remove_found sweep_unsub
    remove-IsWaiting c now soon = elim (Option-cases (get c r.sub_map)) [
      | inl n ↦
          subst (λ (x : Registry × Option Sub). IsWaiting t topic until x.0)
            (sym (remove-none c now r n)) h
      | inr (s, e) ↦
          (let after : IsSound (remove_found c now r s) =
              subst (λ (x : Registry × Option Sub). IsSound x.0) (remove-eq c now r s e)
                (remove-IsSound c now r h.sound) in
            let grave : Bytes × ℕ = (s.topic, (now + unsub_grace) % 2 ^ 64) in
            subst (λ (x : Registry × Option Sub). IsWaiting t topic until x.0)
              (sym (remove-eq c now r s e))
              (record {
                sound = after;
                unknown = delete-none t s.token r.token_map h.unknown;
                grave =
                    swept_grave now (put s.token grave r.unsub_pending) soon
                      (put-IsMap s.token grave r.unsub_pending h.sound.graves)
                      (get-put-off t s.token grave r.unsub_pending
                          (=b_false s.token t (found_apart c s e))
                        ∙ h.grave);
              }))
    ]

    forget_unsub-IsWaiting :
        (u : Bytes) (now : ℕ) → u ≢ t → now < until → IsWaiting t topic until (forget_unsub u now r)
    unfolding forget_unsub sweep_unsub
    forget_unsub-IsWaiting u now other soon = record {
      sound = forget_unsub-IsSound u now r h.sound;
      unknown = h.unknown;
      grave =
          swept_grave now (delete u r.unsub_pending) soon
            (delete-IsMap u r.unsub_pending h.sound.graves)
            (get-delete-off t u r.unsub_pending (=b_false u t other) ∙ h.grave);
    }

    save-IsWaiting : (fate : Fate) → IsWaiting t topic until (save fate r)
    save-IsWaiting fate = record {
      sound = save-IsSound fate r h.sound;
      unknown = h.unknown;
      grave = h.grave;
    }

  pub Changes-IsWaiting :
      (r r' : Registry)
      → IsWaiting t topic until r
      → Changes t until r r'
      → IsWaiting t topic until r'
  Changes-IsWaiting r _ h no_change = h
  Changes-IsWaiting r _ h (then_added {r'} before s other fresh free) =
      insert-IsWaiting r' (Changes-IsWaiting r r' h before) s other fresh free
  Changes-IsWaiting r _ h (then_updated {r'} before s other free) =
      update-IsWaiting r' (Changes-IsWaiting r r' h before) s other free
  Changes-IsWaiting r _ h (then_removed {r'} before c now soon) =
      remove-IsWaiting r' (Changes-IsWaiting r r' h before) c now soon
  Changes-IsWaiting r _ h (then_forgotten {r'} before u now other soon) =
      forget_unsub-IsWaiting r' (Changes-IsWaiting r r' h before) u now other soon
  Changes-IsWaiting r _ h (then_written {r'} before fate) =
      save-IsWaiting r' (Changes-IsWaiting r r' h before) fate

  pub by_token-none : (r : Registry) → IsWaiting t topic until r → by_token t r ≡ none
  unfolding by_token
  by_token-none r h = rw (h.unknown) refl

  pub unsub_topic-waiting :
      (r : Registry) (now : ℕ)
      → IsWaiting t topic until r
      → now < until
      → unsub_topic t now r ≡ some topic
  unfolding unsub_topic
  unsub_topic-waiting r now h soon = rw (unsub_topic, h.grave, lt→ltb now until soon) refl

-- A removal leaves such a tombstone.
pub removed-IsWaiting :
    (r : Registry) (c : Bytes) (s : Sub) (at : ℕ)
    → IsSound r
    → get c r.sub_map ≡ some s
    → at + unsub_grace < 2 ^ 64
    → IsWaiting s.token s.topic (at + unsub_grace) (remove c at r).0
unfolding remove_found sweep_unsub
removed-IsWaiting r c s at sound found fits =
    let until = at + unsub_grace in
    let same : until % 2 ^ 64 ≡ until = omega arith in
    let grave : Bytes × ℕ = (s.topic, until % 2 ^ 64) in
    let here : get s.token (put s.token grave r.unsub_pending) ≡ some (s.topic, until) =
      get-put-at s.token grave r.unsub_pending ∙ ap (λ (n : ℕ). some (s.topic, n)) same in
    subst (λ (x : Registry × Option Sub). IsWaiting s.token s.topic until x.0)
      (sym (remove-eq c at r s found))
      (record {
        sound =
            subst (λ (x : Registry × Option Sub). IsSound x.0) (remove-eq c at r s found)
              (remove-IsSound c at r sound);
        unknown = get-delete s.token s.token r.token_map ∙ rw (=b_refl s.token) refl;
        grave =
            swept_grave s.token s.topic until at (put s.token grave r.unsub_pending) (omega arith)
              (put-IsMap s.token grave r.unsub_pending sound.graves) here;
      })
