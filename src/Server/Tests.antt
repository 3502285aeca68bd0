-- ===== src/Server/Tests.antt =====
-- A process of src/main.rs that starts on a new machine, subscribes to one channel and is notified.
use mathlib.Core.List.{Memᴰ}
use yt_websub.Prelude.{
  ℕ, ◌+◌, ◌-◌, ◌<◌, ◌≤◌, ◌%◌, Bool, true, false, Option, none, some, List, [], ◌∷◌, ◌++◌, ◌≡◌, ◌↔◌,
  ◌⊎◌, refl, arith, Bytes, codes, All, length, ◌=b◌, zero,
}
use yt_websub.Prelude.Maps.{get}
use yt_websub.Util.Atomic.{succeeds}
use yt_websub.Sig.{Mac}
use yt_websub.Store.{written, max_seq, events_after}
use yt_websub.Store.Line.{Event}
use yt_websub.Store.Poll.{unseen}
use yt_websub.Store.Reopen.{opened}
use yt_websub.Store.Rewrite.{compacted, compact_margin}
use yt_websub.Store.Run as StoreRun
use yt_websub.Store.Held.{empty_disk, first_start-Tracks}
use yt_websub.Text.Number.{max_u64}
use yt_websub.Renew.Desired.{desired_set}
use yt_websub.Renew.Reconcile.{to_add}
use yt_websub.Subs.{Sub, by_token}
use yt_websub.Subs.Rows.{load}
use yt_websub.Resolve.Cache.{written_whole}
use yt_websub.Renew.{status}
use yt_websub.Renew.Due.{Hub}
use yt_websub.Renew.Reconcile.{Random}
use yt_websub.Renew.Fits.{IsRandom}
use yt_websub.Renew.Kept.{IsOutside}
use yt_websub.Renew.Loop.{Loop, Tick, run_begins}
use yt_websub.Renew.HubTests.{no_net}
use yt_websub.App.{App, Request, post_method, empty}
use yt_websub.Callback
use yt_websub.Callback.{is_signed}
use yt_websub.Callback.Logged.{entries_of}
use yt_websub.Server.Recorded.{IsRecorded, Run-IsRecorded}
use yt_websub.Server.Steps.{callback_token}
use yt_websub.Api
use yt_websub.Api.Outcome.{acked, posted_files}
use yt_websub.Http.{handle}
use yt_websub.Main.{Machine, serves, start, shared, join, disk_at}
use yt_websub.Main.Tests.{variables, config}
use yt_websub.Server.{IsServed, IsTicked, Taken, Run, started, served}
use yt_websub.Server.Logs.{IsNotified}
use yt_websub.Server.Life.{Run-IsNotified, Run-by_token_iff}

abbrev machine : Machine
machine = record {
  env = variables;
  read = λ path. get path (
      (codes "/c.pem", codes "C")
      ∷ (codes "/k.pem", codes "K")
      ∷ (codes "/d/channels.txt", codes "UCabcdefghijklmnopqrstuv\n")
      ∷ []);
  read_tmp = λ path. none;
  dir_ok = λ dir. true;
  log_ok = λ dir. true;
  listens = λ address. true;
}

abbrev hub : Hub
hub = record {
  now = 400000;
  saves = succeeds;
  attempts = λ i. record {
    begun = 400001;
    ended = 400021;
    sent = status 202;
    random = 7;
    saves = succeeds;
  };
  meanwhile = λ i r. r;
}

abbrev random : Random
random = record { token_bytes = λ i. 7 ∷ i % 256 ∷ []; secret_bytes = λ i. 2 ∷ [] }

abbrev tick : Tick
tick = record {
  metadata = some (some 5, 25);
  fetch = no_net;
  hub = hub;
  random = random;
  cache_write = written_whole;
  renewal = hub;
  compaction = compacted;
}

abbrev new_app : App
new_app = shared machine config (opened empty_disk)

hub-IsOutside : IsOutside hub
hub-IsOutside = record {
  real = λ i. record { begun_fits = omega arith; sent_text = tt };
  channels = λ i r keyed. (keyed, λ c. refl);
  keeps = λ i r kept. (kept, λ t free. free);
}

random-IsRandom : IsRandom random
random-IsRandom = record {
  tokens = λ i. (omega arith, (omega arith, tt));
  secrets = λ i. (omega arith, tt);
}

tick-IsTicked : IsTicked tick new_app
unfolding shared yt_websub.Renew.Fresh.AreNew yt_websub.Renew.Desired.desired_set
    yt_websub.Renew.Reconcile.to_add ◌=b◌ yt_websub.Text.Utf8.next yt_websub.Prelude.any
    yt_websub.Prelude.all join get yt_websub.Util.Random.rand_hex load
tick-IsTicked = record {
  outside = hub-IsOutside;
  renewal = hub-IsOutside;
  random = random-IsRandom;
  fresh = (refl, tt);
  reopens = λ e. cc;
}

new_start : start machine ≡ serves new_app 4
unfolding start shared join get ◌=b◌ load
new_start = refl

abbrev loop0 : Loop
loop0 = run_begins tick new_app

mac : Mac
mac = λ secret body. some secret

first-Run : Run mac [] [] loop0
unfolding shared join get ◌=b◌ disk_at
first-Run = started machine 4 new_app tick new_start refl refl tick-IsTicked

-- The random token is 0700, the secret is 02.
abbrev notification : Request
notification = record {
  method = post_method;
  signature = some (codes "sha1=3032");
  authorizations = [];
  body =
      codes
        "<entry><yt:videoId>ABCDEFGHIJ_</yt:videoId><yt:channelId>UCabcdefghijklmnopqrstuv</yt:channelId><title>t</title></entry>";
}

abbrev url : Bytes
url = codes "/yt/cb/0700"

abbrev world : Callback.World
world = record { mac = mac; now = 400100; saves = succeeds; appends = λ i. (written, 400100) }

abbrev api_world : Api.World
api_world = record {
  now = 400100;
  uptime = codes "1.5";
  ack_fate = succeeds;
  write_fate = succeeds;
  write_error = [];
  busy = false;
  fetch = no_net;
  hub = hub;
  random = random;
  cache_write = written_whole;
}

one_entry : length (entries_of notification) ≡ 1
unfolding entries_of yt_websub.Text.Utf8.next ◌=b◌ yt_websub.Prelude.any yt_websub.Prelude.all
one_entry = refl

acks_nothing : acked notification ≡ 0
unfolding acked ◌=b◌ yt_websub.Text.Utf8.next
acks_nothing = refl

room : loop0.app.store.next_seq + length (entries_of notification) < max_u64
unfolding run_begins shared
room = omega (arith, first_start-Tracks.next_is_tip, one_entry)

no_channel_lost :
    yt_websub.Renew.Fresh.AreNew random 0
      (to_add loop0.app.subs.sub_map (
        (desired_set no_net
          (posted_files api_world notification loop0.app).target
          loop0.app.resolve_cache).channels))
      loop0.app.subs.token_map
unfolding run_begins shared yt_websub.Renew.Fresh.AreNew desired_set to_add ◌=b◌
    yt_websub.Text.Utf8.next yt_websub.Prelude.any yt_websub.Prelude.all join get
    yt_websub.Util.Random.rand_hex load posted_files
no_channel_lost = tt

is_served : IsServed mac world api_world notification loop0.app
is_served = record {
  mac_same = refl;
  rows = record { whole = λ i. refl; dated = λ i. omega arith };
  room = room;
  given = omega (arith, acks_nothing);
  outside = hub-IsOutside;
  random = random-IsRandom;
  fresh = no_channel_lost;
}

abbrev loop1 : Loop
loop1 = record loop0 { app = (handle world loop0.app.subs api_world notification url loop0.app).0 }

abbrev notice : Taken
notice = record { request = notification; url = url; seen = loop0 }

notified : Run mac (loop0 ∷ []) (notice ∷ []) loop1
notified = served first-Run loop0 (Memᴰ.head refl) world api_world notification url is_served

Run-IsNotified_example :
    (es : List Event) × (low : ℕ) × StoreRun.Run es low loop1.app.store
    × All (IsNotified mac (notice ∷ [])) es
    × ((0 < low) ⊎ (events_after 0 10 loop1.app.store ≡ unseen 0 10 es))
    × (low ≤ max_seq loop1.app.store - compact_margin)
Run-IsNotified_example = Run-IsNotified mac notified 0 10 (omega arith) (omega arith)

-- What the reconcile entered and the hub took.
abbrev pending : Sub
pending = record {
  channel_id = codes "UCabcdefghijklmnopqrstuv";
  token = codes "0700";
  topic = codes "https://www.youtube.com/feeds/videos.xml?channel_id=UCabcdefghijklmnopqrstuv";
  secret = codes "02";
  state = codes "pending";
  lease_seconds = 0;
  expires_at = 0;
  last_subscribe_at = 400001;
  fail_count = 0;
  next_attempt_at = 0;
  last_error = [];
}

pending-found : by_token (codes "0700") loop0.app.subs ≡ some pending
unfolding run_begins shared desired_set to_add ◌=b◌ yt_websub.Text.Utf8.next yt_websub.Prelude.any
    yt_websub.Prelude.all join get yt_websub.Util.Random.rand_hex load by_token
pending-found = refl

Run-by_token_iff_example :
    ((by_token (codes "0700") loop1.app.subs ≡ some pending) ↔ (
      (get pending.channel_id loop1.app.subs.sub_map ≡ some pending)
      × (pending.token ≡ codes "0700")))
    × ((by_token (codes "0700") (load loop1.app.subs.file) ≡ some pending) ↔ (
        (get pending.channel_id (load loop1.app.subs.file).sub_map ≡ some pending)
        × (pending.token ≡ codes "0700")))
Run-by_token_iff_example = Run-by_token_iff mac notified (codes "0700") pending

url_token : callback_token url ≡ some (codes "0700")
unfolding callback_token
url_token = refl

pending-signed : is_signed mac pending notification ≡ true
unfolding is_signed mac ◌=b◌
pending-signed = refl

Run-IsRecorded_example :
    let store = (handle world loop0.app.subs api_world notification url loop0.app).0.store in
    (es : List Event) × (low : ℕ) × StoreRun.Run es low store
    × All (IsRecorded es) (entries_of notification)
    × ((0 < low) ⊎ (events_after 0 10 store ≡ unseen 0 10 es))
Run-IsRecorded_example =
    Run-IsRecorded mac first-Run loop0 (Memᴰ.head refl) world api_world notification is_served url
      (codes "0700") pending url_token pending-found refl pending-signed 0 10 (omega arith)
      (omega arith)

answer_test : (handle world loop0.app.subs api_world notification url loop0.app).1 ≡ empty 204
unfolding handle run_begins shared desired_set to_add ◌=b◌ yt_websub.Text.Utf8.next
    yt_websub.Prelude.any yt_websub.Prelude.all join get yt_websub.Util.Random.rand_hex load
    by_token mac
answer_test = refl
