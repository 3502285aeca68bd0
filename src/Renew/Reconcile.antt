-- ===== src/Renew/Reconcile.antt =====
-- `reconcile_locked` of src/renew.rs: the registry is brought to the channels that are asked for.
use yt_websub.Prelude.{
  ℕ, suc, ◌+◌, ◌%◌, ◌^◌, Bool, true, false, Option, none, some, List, [], ◌∷◌, Bytes, codes,
  if◌then◌else◌, length,
}
use yt_websub.Prelude.Maps.{Table, get}
use yt_websub.Subs.{Sub, Registry, new_sub, insert, remove}
use yt_websub.Subs.Rows.{save}
use yt_websub.Renew.{backoff, verdict, merge_attempt, live_count}
use yt_websub.Renew.Due.{Hub, Attempt}
use yt_websub.Renew.Desired.{Desired, contains}

abbrev pub is_some {ℓ} : {V : Type ℓ} → Option V → Bool
is_some none = false
is_some (some v) = true

-- `map.contains_key(c)`
unfoldable pub contains_key {ℓ} : {V : Type ℓ} → Bytes → Table V → Bool
unfolding get
contains_key c m = is_some (get c m)

-- The channels that are asked for and not there.
unfoldable pub to_add : Table Sub → List Bytes → List Bytes
unfolding contains_key
to_add m [] = []
to_add m (c ∷ more) = let rest = to_add m more in if contains_key c m then rest else c ∷ rest

-- The subscriptions whose channel is not asked for.
unfoldable pub unwanted : List Bytes → Table Sub → List Sub
unfolding contains
unwanted desired [] = []
unwanted desired ((c, s) ∷ m) =
    let rest = unwanted desired m in if contains (s.channel_id) desired then rest else s ∷ rest

unfoldable pub to_remove : Desired → Table Sub → List Sub
unfolding unwanted
to_remove d m = if d.complete then unwanted (d.channels) m else []

-- The random bytes of the i-th new subscription, for its token and its secret.
pub record Random : Type 0 where
  pub token_bytes : ℕ → Bytes
  pub secret_bytes : ℕ → Bytes

unfoldable pub fresh_sub : Random → ℕ → Attempt → Bytes → Sub
unfolding new_sub
fresh_sub random i a c = record (new_sub c (random.token_bytes i) (random.secret_bytes i)) {
  last_subscribe_at = a.begun;
}

abbrev pub failed_sub : Attempt → Sub → Bytes → Sub
failed_sub a s why = record s {
  state = codes "failed";
  fail_count = 1;
  next_attempt_at = (a.ended + backoff (a.random) 1) % 2 ^ 64;
  last_error = why;
}

-- What is written after the answer to a new subscription.
unfoldable pub settle : Attempt → Sub → Option Bytes → Registry → Registry
unfolding backoff merge_attempt
settle a s none r = r
settle a s (some why) r = merge_attempt (a.saves) (failed_sub a s why) r

-- One channel is added: it is entered, then other threads run during the request.
unfoldable pub subscribe : Hub → Random → ℕ → Bytes → Registry → Registry
unfolding fresh_sub settle insert verdict
subscribe h random i c r =
    let a = h.attempts i in
    let s = fresh_sub random i a c in settle a s (verdict (a.sent)) (h.meanwhile i (insert s r))

unfoldable pub add_all : Hub → Random → ℕ → List Bytes → Registry → Registry
unfolding subscribe
add_all h random i [] r = r
add_all h random i (c ∷ more) r = add_all h random (suc i) more (subscribe h random i c r)

-- `subscribed`: how many of the requests were accepted.
unfoldable pub accepted_count : Hub → ℕ → List Bytes → ℕ
unfolding verdict
accepted_count h i [] = 0
accepted_count h i (c ∷ more) =
    let rest = accepted_count h (suc i) more in
    elim (verdict ((h.attempts i).sent)) [ none ↦ suc rest | some why ↦ rest ]

-- The channels are removed one by one; an answer of the hub does not matter.
unfoldable pub remove_all : Hub → ℕ → List Sub → Registry → Registry
unfolding remove
remove_all h i [] r = r
remove_all h i (s ∷ more) r =
    remove_all h (suc i) more ((remove (s.channel_id) ((h.attempts i).ended) (h.meanwhile i r)).0)

-- The registry once the channels are added and removed.
unfoldable pub changed : Hub → Random → Desired → Registry → Registry
unfolding to_add to_remove add_all remove_all
changed h random d r =
    let adds = to_add (r.sub_map) (d.channels) in
    remove_all h (length adds) (to_remove d (r.sub_map)) (add_all h random 0 adds r)

-- `reconcile_locked`, once the desired set is known: the registry, which is saved at the next lock,
-- and the three counts.
unfoldable pub reconcile_locked : Hub → Random → Desired → Registry → Registry × ℕ × ℕ × ℕ
unfolding changed accepted_count live_count
reconcile_locked h random d r =
    let adds = to_add (r.sub_map) (d.channels) in
    let removes = to_remove d (r.sub_map) in
    let locked = h.meanwhile (length adds + length removes) (changed h random d r) in
    let after = save (h.saves) locked in
    (after, accepted_count h 0 adds, length removes, live_count (h.now) (after.sub_map))
