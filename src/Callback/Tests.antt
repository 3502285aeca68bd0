-- ===== src/Callback/Tests.antt =====
-- The callback of src/callback.rs at concrete requests, and the theorems about it at some of them.
use mathlib.Core.Option.{none-ne-some}
use yt_websub.Prelude.{
  ℕ, ◌+◌, ◌%◌, ◌^◌, ◌≤◌, ◌<◌, Bool, true, false, Option, none, some, [], ◌∷◌, ◌≡◌, ◌≢◌, ◌⊎◌, inl,
  inr, refl, arith, Bytes, codes, All, max, suc,
}
use yt_websub.Prelude.Maps.{get}
use yt_websub.Text.Utf8.{is_utf8, next}
use yt_websub.Util.Query.{query_text, IsTextPair}
use yt_websub.Config.{Config}
use yt_websub.Store.{Store, written}
use yt_websub.Subs
use yt_websub.Subs.{Sub, Registry, insert, remove, unsub_grace, by_token}
use yt_websub.Util.Atomic.{succeeds}
use yt_websub.Subs.Waiting.{no_change, then_removed}
use yt_websub.Subs.Life.{Reached, new, later, added, IsSound, Reached-IsSound}
use yt_websub.Renew.Expire.{IsKeyed}
use yt_websub.Renew.Has.{has}
use yt_websub.Renew.HubTests.{hub}
use yt_websub.Callback.Between.{Visit, visited, visited-KeepsChannels}
use yt_websub.App.{App, Request, get_method, post_method, text, empty}
use yt_websub.Callback.{World, handle}
use yt_websub.Callback.Keeps.{handle-IsSound, handle-IsGranted, IsGranted}
use yt_websub.Callback.Answers.{handle-IsSigned, IsSigned, unsubscribe_query, handle-unsubscribe}

abbrev pub sub0 : Sub
sub0 = record {
  channel_id = codes "UC1";
  token = codes "0011";
  topic = codes "https://t";
  secret = codes "aabb";
  state = codes "pending";
  lease_seconds = 0;
  expires_at = 0;
  last_subscribe_at = 0;
  fail_count = 0;
  next_attempt_at = 0;
  last_error = [];
}

abbrev pub registry0 : Registry
registry0 = insert sub0 Subs.empty

pub registry0-Reached : Reached registry0
unfolding get
registry0-Reached =
    later Subs.empty registry0 new (added sub0 refl (λ c h. absurd (none-ne-some c h)))

pub registry0-IsKeyed : IsKeyed (registry0.sub_map)
unfolding insert
registry0-IsKeyed = (refl, tt)

pub sub0-found : get (codes "UC1") (registry0.sub_map) ≡ some sub0
unfolding get insert yt_websub.Prelude.◌=b◌
sub0-found = refl

abbrev pub world : ℕ → World
world now = record {
  mac = λ secret body. some secret;
  now = now;
  saves = succeeds;
  appends = λ i. (written, now);
}

abbrev fresh : Store
fresh = record {
  disk = record { events = some []; ack = record { target = none; tmp = none } };
  log_linked = true;
  next_seq = 1;
  recent = [];
  seen = [];
  ack_through = 0;
}

abbrev pub config : Config
config = record {
  callback_base = codes "https://h.example.com";
  listen = codes "0.0.0.0:443";
  tls_cert = codes "/c.pem";
  tls_key = codes "/k.pem";
  bearer_token = codes "0123456789abcdef0123456789abcdef";
  channels_file = codes "/channels.txt";
  storage_dir = codes "/";
  lease_seconds = 432000;
  hub_url = codes "https://hub";
  accept_threads = 4;
}

abbrev pub app_of : Registry → App
app_of r = record {
  cfg = config;
  store = fresh;
  subs = r;
  resolve_cache = [];
  cache_file = none;
  channels = record { target = none; tmp = none };
}

abbrev pub get_request : Request
get_request = record { method = get_method; signature = none; authorizations = []; body = [] }

abbrev subscribe : Bytes
subscribe =
    codes "hub.mode=subscribe&hub.topic=https%3A%2F%2Ft&hub.challenge=xyz&hub.lease_seconds=9999999"

-- The hub's confirmation of a subscribe: the challenge comes back, the lease is the configured one.
subscribe_test :
    ((handle (world 1000) registry0 get_request (codes "0011") subscribe (app_of registry0)).1
      ≡ text (codes "xyz"))
    × (get (codes "UC1") (
          (handle
            (world 1000)
            registry0
            get_request
            (codes "0011")
            subscribe
            (app_of registry0)).0.subs.sub_map)
        ≡ some
            (record sub0 { state = codes "active"; lease_seconds = 432000; expires_at = 433000 }))
unfolding handle get insert yt_websub.Prelude.◌=b◌ next yt_websub.Prelude.any
subscribe_test = (refl, refl)

handle-IsSound_test :
    IsSound (
      (handle
        (world 1000)
        registry0
        get_request
        (codes "0011")
        subscribe
        (app_of registry0)).0.subs)
handle-IsSound_test =
    handle-IsSound (world 1000) registry0 get_request (codes "0011") subscribe (app_of registry0)
      (Reached-IsSound registry0 registry0-Reached)

abbrev active : Sub
active = record sub0 { state = codes "active"; lease_seconds = 432000; expires_at = 433000 }

active-found :
    get (codes "UC1") (
      (handle
        (world 1000)
        registry0
        get_request
        (codes "0011")
        subscribe
        (app_of registry0)).0.subs.sub_map)
    ≡ some active
unfolding handle get insert yt_websub.Prelude.◌=b◌ next yt_websub.Prelude.any
active-found = refl

handle-IsGranted_example :
    (get (codes "UC1") (registry0.sub_map) ≡ some active) ⊎ IsGranted 432000 1000 active
handle-IsGranted_example =
    handle-IsGranted (world 1000) registry0 get_request (codes "0011") subscribe (app_of registry0)
      (codes "UC1") active active-found

abbrev notification : Request
notification = record {
  method = post_method;
  signature = some (codes "sha1=61616262");
  authorizations = [];
  body =
      codes
        "<entry><yt:videoId>ABCDEFGHIJ_</yt:videoId><yt:channelId>UCabcdefghijklmnopqrstuv</yt:channelId><title>t</title></entry>";
}

handle-IsSigned_example :
    ((handle (world 1000) registry0 notification (codes "0011") [] (app_of registry0)).0.store
      ≡ (app_of registry0).store)
    ⊎ IsSigned (world 1000) registry0 notification (codes "0011")
handle-IsSigned_example =
    handle-IsSigned (world 1000) registry0 notification (codes "0011") [] (app_of registry0)

-- A signed notification is an event of the subscription's channel, a forged one is none.
notify_test :
    ((handle
        (world 1000)
        registry0
        notification
        (codes "0011")
        []
        (app_of registry0)).0.store.next_seq
      ≡ 2)
    × ((handle
          (world 1000)
          registry0
          (record notification { signature = some (codes "sha1=00") })
          (codes "0011")
          []
          (app_of registry0)).0.store.next_seq
        ≡ 1)
unfolding handle get insert yt_websub.Prelude.◌=b◌ next yt_websub.Prelude.any
notify_test = (refl, refl)

abbrev sub1 : Sub
sub1 = record sub0 { channel_id = codes "UC2"; token = codes "0022"; topic = codes "https://u" }

abbrev registry1 : Registry
registry1 = insert sub1 registry0

registry1-Reached : Reached registry1
unfolding get insert yt_websub.Prelude.◌=b◌
registry1-Reached =
    later registry0 registry1 registry0-Reached (added sub1 refl (λ c h. absurd (none-ne-some c h)))

sub0-found_first : get (codes "UC1") (registry1.sub_map) ≡ some sub0
unfolding get insert yt_websub.Prelude.◌=b◌
sub0-found_first = refl

-- The first channel is removed, half a minute later the other.
abbrev removed : Registry
removed = (remove (codes "UC1") 1000 registry1).0

abbrev both_removed : Registry
both_removed = (remove (codes "UC2") 1030 removed).0

challenge-utf8 : All IsTextPair (unsubscribe_query (sub0.topic) (codes "xyz") [])
unfolding is_utf8 next
challenge-utf8 = ((refl, refl), ((refl, refl), ((refl, refl), tt)))

handle-unsubscribe_example :
    let query = query_text (unsubscribe_query (sub0.topic) (codes "xyz") []) in
    let done =
      handle (world 1060) both_removed get_request (sub0.token) query (app_of both_removed) in
    (done.1 ≡ text (codes "xyz"))
    × ((handle (world 1090) (done.0.subs) get_request (sub0.token) query (done.0)).1 ≡ empty 404)
handle-unsubscribe_example =
    handle-unsubscribe registry1 (codes "UC1") sub0 1000 (world 1060) (world 1090) get_request
      get_request (codes "xyz") [] (app_of both_removed) registry1-Reached sub0-found_first
      (omega arith) (then_removed no_change (codes "UC2") 1030 (omega arith)) (omega arith)
      (ground arith) challenge-utf8

abbrev visit : Visit
visit = record {
  world = world 1000;
  seen = registry0;
  request = get_request;
  token = codes "0011";
  query = subscribe;
}

visited-KeepsChannels_example :
    IsKeyed ((visited visit (app_of registry0) registry0).sub_map)
    × ((c : Bytes) → has c (visited visit (app_of registry0) registry0) ≡ has c registry0)
visited-KeepsChannels_example =
    visited-KeepsChannels hub (λ i. visit) (app_of registry0) 3 registry0 registry0-IsKeyed
