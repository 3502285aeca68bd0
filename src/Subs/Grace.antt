-- ===== src/Subs/Grace.antt =====
-- Removals in the registry of src/subs.rs: the grace period of the token of a removed channel.
use yt_websub.Prelude.{
  ℕ, ◌+◌, ◌%◌, ◌^◌, ◌<◌, true, none, some, ◌≡◌, refl, ◌∙◌, arith, Bytes, =b_refl, if◌then◌else◌,
  ltb,
}
use yt_websub.Prelude.Maps.{
  get, put, delete, filtered, get-put-at, get-delete, get-retain, put-IsMap, delete-IsMap,
}
use yt_websub.Subs.{
  Sub, Registry, remove, remove_found, sweep_unsub, by_token, unsub_topic, forget_unsub,
  unsub_grace, waits,
}
use yt_websub.Subs.Life.{IsSound, Reached, Reached-IsSound}

later_waits :
    (now : ℕ)
    → now + unsub_grace < 2 ^ 64
    → (topic : Bytes) → waits now (topic, (now + unsub_grace) % 2 ^ 64) ≡ true
later_waits now fits topic = ground arith

removed_pending :
    (c : Bytes) (now : ℕ) (r : Registry) (s : Sub) (t : Bytes)
    → IsSound r
    → get t ((remove_found c now r s).unsub_pending)
      ≡ filtered
          (waits now)
          (get t (put (s.token) (s.topic, (now + unsub_grace) % 2 ^ 64) (r.unsub_pending)))
unfolding remove_found sweep_unsub
removed_pending c now r s t h =
    get-retain t (waits now) _ (put-IsMap (s.token) _ (r.unsub_pending) (h.graves))

pub remove-eq :
    (c : Bytes) (now : ℕ) (r : Registry) (s : Sub)
    → get c (r.sub_map) ≡ some s
    → remove c now r ≡ (remove_found c now r s, some s)
unfolding remove remove_found
remove-eq c now r s h = rw (remove, h) refl

gone :
    (c : Bytes) (now : ℕ) (r : Registry) (s : Sub) → get c ((remove_found c now r s).sub_map) ≡ none
unfolding remove_found sweep_unsub
gone c now r s = get-delete c c (r.sub_map) ∙ rw (=b_refl c) refl

token_gone :
    (c : Bytes) (now : ℕ) (r : Registry) (s : Sub)
    → by_token (s.token) (remove_found c now r s) ≡ none
unfolding remove_found sweep_unsub by_token
token_gone c now r s = rw (get-delete (s.token) (s.token) (r.token_map), =b_refl (s.token)) refl

topic_left :
    (c : Bytes) (now at : ℕ) (r : Registry) (s : Sub)
    → IsSound r
    → now + unsub_grace < 2 ^ 64
    → unsub_topic (s.token) at (remove_found c now r s)
      ≡ (if ltb at (now + unsub_grace) then some (s.topic) else none)
unfolding unsub_topic
topic_left c now at r s h fits =
    rw
      (
        unsub_topic,
        removed_pending c now r s (s.token) h,
        get-put-at (s.token) (s.topic, (now + unsub_grace) % 2 ^ 64) (r.unsub_pending),
        later_waits now fits (s.topic),
      )
      (ground arith)

-- A channel that is removed at `now` (less than 2^64 - 900) is gone, and so is its token; for 900
-- seconds and no longer the token answers with the topic it was subscribed to.
pub remove-grace :
    (r : Registry) (c : Bytes) (s : Sub) (now at : ℕ)
    → Reached r
    → get c (r.sub_map) ≡ some s
    → now + unsub_grace < 2 ^ 64
    → let after = (remove c now r).0 in
      (get c (after.sub_map) ≡ none)
      × (by_token (s.token) after ≡ none)
      × (unsub_topic (s.token) at after
          ≡ (if ltb at (now + unsub_grace) then some (s.topic) else none))
remove-grace r c s now at reached h fits =
    let sound = Reached-IsSound r reached in
    rw (remove-eq c now r s h)
      (gone c now r s, token_gone c now r s, topic_left c now at r s sound fits)

-- A forgotten token has no tombstone.
pub forget_unsub-gone :
    (t : Bytes) (now at : ℕ) (r : Registry)
    → IsSound r
    → unsub_topic t at (forget_unsub t now r) ≡ none
unfolding unsub_topic forget_unsub sweep_unsub
forget_unsub-gone t now at r h =
    rw
      (
        unsub_topic,
        get-retain t (waits now) (delete t (r.unsub_pending))
            (delete-IsMap t (r.unsub_pending) (h.graves)),
        get-delete t t (r.unsub_pending),
        =b_refl t,
      )
      refl

pub forget_unsub-by_token :
    (t u : Bytes) (now : ℕ) (r : Registry) → by_token u (forget_unsub t now r) ≡ by_token u r
unfolding by_token forget_unsub sweep_unsub
forget_unsub-by_token t u now r = refl
