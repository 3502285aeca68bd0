-- ===== src/Renew.antt =====
-- Retries and merges of src/renew.rs, and `is_ok` of src/hub.rs.
pub mod Merge
pub mod Expire
pub mod Due
pub mod Desired
pub mod Reconcile
pub mod Has
pub mod Channels
pub mod Wanted
pub mod Listed
pub mod Loop
pub mod Fresh
pub mod Preserved
pub mod Fits
pub mod Kept
pub mod Demoted
pub mod Sound
mod Tests
pub mod HubTests
use yt_websub.Prelude.{
  ℕ, zero, suc, ◌<◌, ◌+◌, ◌*◌, ◌/◌, ◌^◌, ◌≤◌, Bool, true, false, ◌&&◌, not, Option, none, some,
  List, [], ◌∷◌, ◌++◌, ◌≡◌, arith, Bytes, codes, leb, ltb, ◌=b◌, if◌then◌else◌, min,
}
use yt_websub.Prelude.Maps.{Table, get}
use yt_websub.Text.Number.{to_string}
use yt_websub.Util.Random.{rand_below, rand_below-lt}
use yt_websub.Subs.{Sub, Registry, update, lease_expired}
use yt_websub.Util.Atomic.{Fate}
use yt_websub.Subs.Rows.{clamp_error, save}

-- `(30 * (1 << fail_count.min(6))).min(1800)`
unfoldable pub base_delay : ℕ → ℕ
base_delay fail_count = min (30 * 2 ^ min fail_count 6) 1800

-- `backoff`, with the random number of `rand_below`.
unfoldable pub backoff : ℕ → ℕ → ℕ
unfolding base_delay rand_below
backoff random fail_count =
    base_delay fail_count + rand_below (base_delay fail_count / 4 + 1) random

unfoldable pub is_ok : ℕ → Bool
is_ok code = leb 200 code && ltb code 300

-- What `hub::send` returns: a status, or the text of a transport error.
pub data Sent : Type 0 where
  status : ℕ → Sent
  transport_error : Bytes → Sent

unfoldable pub verdict : Sent → Option Bytes
unfolding is_ok clamp_error to_string
verdict (status code) = if is_ok code then none else some (codes "HTTP " ++ to_string code)
verdict (transport_error e) = some (clamp_error e)

-- Whether a subscription counts as live.
abbrev pub is_live : ℕ → Sub → Bool
is_live now s = s.state =b codes "active" && not (lease_expired s now)

unfoldable pub live_count : ℕ → Table Sub → ℕ
live_count now [] = 0
live_count now ((c, s) ∷ m) =
    let rest = live_count now m in if is_live now s then suc rest else rest

-- What `merge_attempt` writes of an attempt `s` when `cur` stands in the registry.
unfoldable pub merged : Sub → Sub → Sub
merged cur s =
    if cur.state =b codes "active"
    then record s {
      state = codes "active";
      expires_at = cur.expires_at;
      lease_seconds = cur.lease_seconds;
    }
    else s

-- `merge_attempt`, with the end of its `save`.
unfoldable pub merge_attempt : Fate → Sub → Registry → Registry
unfolding get merged update
merge_attempt fate s r = elim (get (s.channel_id) (r.sub_map)) [
  | none ↦ r
  | some cur ↦ if cur.token =b s.token then save fate (update (merged cur s) r) else r
]

-- An active subscription whose lease has run out.
abbrev pub lapses : ℕ → Sub → Bool
lapses now s = s.state =b codes "active" && lease_expired s now

-- The channels that `expire_lapsed` collects first.
unfoldable pub lapsed : ℕ → Table Sub → List Bytes
lapsed now [] = []
lapsed now ((c, s) ∷ m) =
    let rest = lapsed now m in if lapses now s then s.channel_id ∷ rest else rest

abbrev pub expired : Sub → Sub
expired s = record s { state = codes "expired" }

-- `get_mut(cid)` and the write to what it finds.
unfoldable pub set_expired : Bytes → Table Sub → Table Sub
set_expired cid [] = []
set_expired cid ((c, s) ∷ m) =
    let rest = set_expired cid m in if c =b cid then (c, expired s) ∷ m else (c, s) ∷ rest

unfoldable pub expire_all : List Bytes → Table Sub → Table Sub
unfolding set_expired
expire_all [] m = m
expire_all (cid ∷ more) m = expire_all more (set_expired cid m)

-- What `expire_lapsed` does to the channels that it collected.
unfoldable pub expire_found : Fate → List Bytes → Registry → Registry
unfolding expire_all
expire_found fate [] r = r
expire_found fate (cid ∷ more) r =
    save fate (record r { sub_map = expire_all (cid ∷ more) (r.sub_map) })

-- `expire_lapsed`, with the end of its `save`.
unfoldable pub expire_lapsed : Fate → ℕ → Registry → Registry
unfolding lapsed expire_found
expire_lapsed fate now r = expire_found fate (lapsed now (r.sub_map)) r

power-pos : (k : ℕ) → 1 ≤ 2 ^ k
power-pos zero = omega arith
power-pos (suc k) = let before = power-pos k in omega arith

base_delay-bounds : (fail_count : ℕ) → (30 ≤ base_delay fail_count) × (base_delay fail_count ≤ 1800)
unfolding base_delay
base_delay-bounds fail_count =
    let factor = power-pos (min fail_count 6) in (omega arith, omega arith)

-- A retry waits for at least half a minute and at most 37 and a half, and for at least as long as
-- the base delay of its number of failures.
pub backoff-bounds :
    (random fail_count : ℕ)
    → (30 ≤ backoff random fail_count)
      × (backoff random fail_count ≤ 2250)
      × (base_delay fail_count ≤ backoff random fail_count)
unfolding backoff
backoff-bounds random fail_count =
    let (low, high) = base_delay-bounds fail_count in
    let jitter = rand_below-lt (base_delay fail_count / 4 + 1) random (omega arith) in
    (omega arith, omega arith, omega arith)
