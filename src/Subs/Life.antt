-- ===== src/Subs/Life.antt =====
-- The registry of src/subs.rs over its life: additions, updates, removals, confirmations, and any
-- sequence of them.
use mathlib.Core.Option.{some-injective}
use yt_websub.Prelude.{
  ℕ, none, some, ◌≡◌, ◌↔◌, inl, inr, refl, sym, ap, ◌∙◌, subst, Bytes, Option-cases, >>=-eq-some,
}
use yt_websub.Prelude.Maps.{
  Table, get, delete, IsMap, get-delete-off, get-delete-inv, put-IsMap, delete-IsMap, retain-IsMap,
  Key-cases, apart-ne,
}
use yt_websub.Subs.{
  Sub, Registry, empty, drop_stale, update, insert, remove, remove_found, sweep_unsub, by_token,
  forget_unsub, waits,
}
use yt_websub.Util.Atomic.{Fate}
use yt_websub.Subs.Rows.{save}
use yt_websub.Subs.Index.{IsIndexed, IsFree, update-IsIndexed, empty-IsIndexed}

pub insert-update :
    (s : Sub) (r : Registry) → get (s.channel_id) (r.sub_map) ≡ none → insert s r ≡ update s r
unfolding insert update drop_stale
insert-update s r h = rw h refl

module _ (s : Sub) (subs : Table Sub) (tokens : Table Bytes) (i : IsIndexed subs tokens) where
  -- The maps without a subscription that was in them.
  pub dropped-IsIndexed :
      (c : Bytes) → get c subs ≡ some s → IsIndexed (delete c subs) (delete (s.token) tokens)
  dropped-IsIndexed c h = record {
    points = λ t d k.
        let g = get-delete-inv t (s.token) d tokens k in
        let found = i.points t d (g.1) in
        elim (Key-cases c d) [
          | inl e ↦ absurd (
              apart-ne _ _ (g.0) (
                ap (λ (x : Sub). x.token)
                  (some-injective _ _ (sym h ∙ (ap (λ (x : Bytes). get x subs) e ∙ found.1)))
                ∙ found.2))
          | inr (e, _) ↦ (found.0, get-delete-off d c subs e ∙ found.1, found.2)
        ];
    pointed = λ d s' k.
        let g = get-delete-inv d c s' subs k in
        elim (Key-cases (s.token) (s'.token)) [
          | inl e ↦ absurd (
              apart-ne _ _ (g.0) (
                some-injective _ _ (
                  sym (i.pointed c s h)
                  ∙ (ap (λ (x : Bytes). get x tokens) e ∙ i.pointed d s' (g.1)))))
          | inr (e, _) ↦ get-delete-off (s'.token) (s.token) tokens e ∙ i.pointed d s' (g.1)
        ];
    keyed = λ d s' k. i.keyed d s' (get-delete-inv d c s' subs k).1;
  }

-- The invariant of a registry: its index is right, and no channel or tombstone is there twice.
pub record IsSound (r : Registry) : Type 0 where
  pub keys : IsMap (r.sub_map)
  pub indexed : IsIndexed (r.sub_map) (r.token_map)
  pub graves : IsMap (r.unsub_pending)

pub empty-IsSound : IsSound empty
unfolding IsMap
empty-IsSound = record { keys = tt; indexed = empty-IsIndexed; graves = tt }

pub sweep_unsub-IsSound : (now : ℕ) (r : Registry) → IsSound r → IsSound (sweep_unsub now r)
unfolding sweep_unsub
sweep_unsub-IsSound now r h = record {
  keys = h.keys;
  indexed = h.indexed;
  graves = retain-IsMap (waits now) (r.unsub_pending) (h.graves);
}

pub update-IsSound :
    (s : Sub) (r : Registry) → IsSound r → IsFree s (r.token_map) → IsSound (update s r)
unfolding update
update-IsSound s r h free = record {
  keys = put-IsMap (s.channel_id) s (r.sub_map) (h.keys);
  indexed = update-IsIndexed s r (h.indexed) free;
  graves = h.graves;
}

pub insert-IsSound :
    (s : Sub) (r : Registry)
    → IsSound r
    → get (s.channel_id) (r.sub_map) ≡ none
    → IsFree s (r.token_map)
    → IsSound (insert s r)
insert-IsSound s r h fresh free =
    subst IsSound (sym (insert-update s r fresh)) (update-IsSound s r h free)

remove_found-IsSound :
    (c : Bytes) (now : ℕ) (r : Registry) (s : Sub)
    → IsSound r
    → get c (r.sub_map) ≡ some s
    → IsSound (remove_found c now r s)
unfolding remove_found
remove_found-IsSound c now r s h k = sweep_unsub-IsSound now _ (record {
  keys = delete-IsMap c (r.sub_map) (h.keys);
  indexed = dropped-IsIndexed s (r.sub_map) (r.token_map) (h.indexed) c k;
  graves = put-IsMap (s.token) _ (r.unsub_pending) (h.graves);
})

pub remove-IsSound : (c : Bytes) (now : ℕ) (r : Registry) → IsSound r → IsSound ((remove c now r).0)
unfolding remove
remove-IsSound c now r h = elim (Option-cases (get c (r.sub_map))) [
  | inl n ↦ rw (remove, n) h
  | inr (s, k) ↦ rw (remove, k) (remove_found-IsSound c now r s h k)
]

pub save-IsSound : (fate : Fate) (r : Registry) → IsSound r → IsSound (save fate r)
save-IsSound fate r h = record { keys = h.keys; indexed = h.indexed; graves = h.graves }

pub forget_unsub-IsSound :
    (t : Bytes) (now : ℕ) (r : Registry) → IsSound r → IsSound (forget_unsub t now r)
unfolding forget_unsub
forget_unsub-IsSound t now r h = sweep_unsub-IsSound now _ (record {
  keys = h.keys;
  indexed = h.indexed;
  graves = delete-IsMap t (r.unsub_pending) (h.graves);
})

-- The changes that the program makes: a channel that is not there is added, a subscription replaces
-- the one of its channel, a channel is dropped, a tombstone is, and the registry is saved.
pub data Step (r : Registry) : Registry → Type 0 where
  added :
      (s : Sub)
      → get (s.channel_id) (r.sub_map) ≡ none
      → IsFree s (r.token_map)
      → Step r (insert s r)
  updated : (s : Sub) → IsFree s (r.token_map) → Step r (update s r)
  removed : (c : Bytes) (now : ℕ) → Step r ((remove c now r).0)
  forgotten : (t : Bytes) (now : ℕ) → Step r (forget_unsub t now r)
  written : (fate : Fate) → Step r (save fate r)

pub data Reached : Registry → Type 0 where
  new : Reached empty
  later : (r r' : Registry) → Reached r → Step r r' → Reached r'

Step-IsSound : (r r' : Registry) → IsSound r → Step r r' → IsSound r'
Step-IsSound r _ h (added s fresh free) = insert-IsSound s r h fresh free
Step-IsSound r _ h (updated s free) = update-IsSound s r h free
Step-IsSound r _ h (removed c now) = remove-IsSound c now r h
Step-IsSound r _ h (forgotten t now) = forget_unsub-IsSound t now r h
Step-IsSound r _ h (written fate) = save-IsSound fate r h

pub Reached-IsSound : (r : Registry) → Reached r → IsSound r
Reached-IsSound _ new = empty-IsSound
Reached-IsSound _ (later r r' before step) = Step-IsSound r r' (Reached-IsSound r before) step

by_token-parts :
    (t : Bytes) (r : Registry) (s : Sub)
    → by_token t r ≡ some s
    → (c : Bytes) × (get t (r.token_map) ≡ some c) × (get c (r.sub_map) ≡ some s)
unfolding by_token
by_token-parts t r s h = >>=-eq-some (get t (r.token_map)) (λ c. get c (r.sub_map)) h

by_token-found :
    (r : Registry) (s : Sub)
    → get (s.token) (r.token_map) ≡ some (s.channel_id)
    → get (s.channel_id) (r.sub_map) ≡ some s
    → by_token (s.token) r ≡ some s
unfolding by_token
by_token-found r s h k = rw (h, k) refl

pub by_token_sound :
    (r : Registry)
    → IsSound r
    → (t : Bytes) (s : Sub)
    → (by_token t r ≡ some s) ↔ ((get (s.channel_id) (r.sub_map) ≡ some s) × (s.token ≡ t))
by_token_sound r sound t s =
    let i = sound.indexed in
    (
      λ h.
          (let (c, k, g) = by_token-parts t r s h in
            let found = i.points t c k in
            (
              subst (λ (x : Bytes). get x (r.sub_map) ≡ some s) (sym (i.keyed c s g)) g,
              ap (λ (x : Sub). x.token) (some-injective _ _ (sym g ∙ found.1)) ∙ found.2,
            )),
      λ (h, e).
          subst (λ (x : Bytes). by_token x r ≡ some s) e
            (by_token-found r s (i.pointed (s.channel_id) s h) h),
    )

-- However the registry came about, a token resolves to a subscription exactly when the map of
-- subscriptions has it, under its channel and with that token.
pub by_token_iff :
    (r : Registry)
    → Reached r
    → (t : Bytes) (s : Sub)
    → (by_token t r ≡ some s) ↔ ((get (s.channel_id) (r.sub_map) ≡ some s) × (s.token ≡ t))
by_token_iff r reached t s = by_token_sound r (Reached-IsSound r reached) t s
