-- ===== src/Renew/Tests.antt =====
-- Retries and merges of src/renew.rs at concrete subscriptions.
use mathlib.Core.Option.{none-ne-some}
use yt_websub.Prelude.{◌+◌, ◌≤◌, true, false, some, none, [], ◌∷◌, ◌≡◌, refl, Bytes, codes}
use yt_websub.Util.Atomic.{succeeds}
use yt_websub.Renew.{lapses, expire_lapsed, live_count}
use yt_websub.Prelude.Maps.{Table, get, IsMap}
use yt_websub.Renew.Expire.{demoted_if, expire_lapsed-demoted}
use yt_websub.Subs
use yt_websub.Subs.{Sub, Registry, insert}
use yt_websub.Subs.Life.{IsSound, Reached, new, later, added, Reached-IsSound}
use yt_websub.Renew.{
  base_delay, backoff, backoff-bounds, verdict, status, transport_error, merge_attempt,
}
use yt_websub.Renew.Merge.{StaysActive, merge_attempt-keeps_active}

abbrev pub live_sub : Sub
live_sub = record {
  channel_id = codes "UC1";
  token = codes "0011";
  topic = codes "https://t";
  secret = codes "aabb";
  state = codes "active";
  lease_seconds = 432000;
  expires_at = 433000;
  last_subscribe_at = 900;
  fail_count = 0;
  next_attempt_at = 0;
  last_error = [];
}

-- An attempt that was refused meanwhile.
abbrev refused : Sub
refused = record live_sub { state = codes "failed"; expires_at = 0; fail_count = 1 }

abbrev pub live_registry : Registry
live_registry = insert live_sub Subs.empty

pub live_registry-Reached : Reached live_registry
unfolding get
live_registry-Reached =
    later Subs.empty live_registry new (added live_sub refl (λ c h. absurd (none-ne-some c h)))

backoff-bounds_test :
    (30 ≤ backoff 12345 73) × (backoff 12345 73 ≤ 2250) × (base_delay 73 ≤ backoff 12345 73)
backoff-bounds_test = backoff-bounds 12345 73

merge_attempt-keeps_active_example :
    IsSound (merge_attempt succeeds refused live_registry)
    × ((c : Bytes) (before : Sub)
        → get c (live_registry.sub_map) ≡ some before
        → before.state ≡ codes "active"
        → StaysActive c before (merge_attempt succeeds refused live_registry))
merge_attempt-keeps_active_example =
    merge_attempt-keeps_active succeeds refused live_registry
      (Reached-IsSound live_registry live_registry-Reached)

verdict_test :
    (verdict (status 202) ≡ none)
    × (verdict (status 429) ≡ some (codes "HTTP 429"))
    × (verdict (transport_error (codes "timed out")) ≡ some (codes "timed out"))
unfolding verdict
verdict_test = (refl, refl, refl)

abbrev two_subs : Table Sub
two_subs =
    (codes "UC1", live_sub)
    ∷ (codes "UC2", record live_sub { channel_id = codes "UC2"; expires_at = 500000 })
    ∷ []

two_subs-IsMap : IsMap two_subs
unfolding IsMap get yt_websub.Prelude.◌=b◌
two_subs-IsMap = (refl, (refl, tt))

abbrev two : Registry
two = record live_registry { sub_map = two_subs }

expire_lapsed-demoted_example :
    (get (codes "UC1") ((expire_lapsed succeeds 450000 two).sub_map)
      ≡ demoted_if 450000 (get (codes "UC1") two_subs))
    × ((s : Sub)
        → get (codes "UC1") ((expire_lapsed succeeds 450000 two).sub_map) ≡ some s
        → lapses 450000 s ≡ false)
expire_lapsed-demoted_example =
    expire_lapsed-demoted succeeds 450000 two two_subs-IsMap (refl, (refl, tt)) (codes "UC1")

one_left :
    (live_count 450000 two_subs ≡ 1)
    × (live_count 450000 ((expire_lapsed succeeds 450000 two).sub_map) ≡ 1)
unfolding live_count expire_lapsed yt_websub.Prelude.◌=b◌ yt_websub.Subs.lease_expired
one_left = (refl, refl)
