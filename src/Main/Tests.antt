-- ===== src/Main/Tests.antt =====
-- A start of the process of src/main.rs on the files of a concrete store, registry and cache.
use yt_websub.Prelude.{
  ◌≤◌, max, true, Option, none, some, List, [], ◌∷◌, ◌++◌, ◌≡◌, refl, arith, Bytes, codes, ◌=b◌,
  if◌then◌else◌,
}
use yt_websub.Prelude.Maps.{get}
use yt_websub.Config.{Config, load_config}
use yt_websub.Store.{events_after}
use yt_websub.Store.Poll.{unseen}
use yt_websub.Store.Tests.{store0, store1, put_event, run1}
use yt_websub.Subs.{by_token}
use yt_websub.Subs.Rows.{saved}
use yt_websub.Subs.File.{over}
use yt_websub.Subs.Tests.{first, one, one-Reached, one-fits}
use yt_websub.Resolve.Cache.{save_cache}
use yt_websub.Resolve.Tests.{id_cache, id_cache-IsMap, id_cache-All}
use yt_websub.App.{App}
use yt_websub.Main.{Machine, serves, exits, join, disk_at, start}
use yt_websub.Main.Restart.{IsLeft, start-resumes}

abbrev pub variables : List (Bytes × Bytes)
variables =
    (codes "YTWEBSUB_CALLBACK_BASE", codes "https://h.example.com")
    ∷ (codes "YTWEBSUB_BEARER_TOKEN", codes "0123456789abcdef0123456789abcdef")
    ∷ (codes "YTWEBSUB_TLS_CERT", codes "/c.pem")
    ∷ (codes "YTWEBSUB_TLS_KEY", codes "/k.pem")
    ∷ (codes "YTWEBSUB_STORAGE_DIR", codes "/d")
    ∷ []

abbrev pub config : Config
config = record {
  callback_base = codes "https://h.example.com";
  listen = codes "0.0.0.0:443";
  tls_cert = codes "/c.pem";
  tls_key = codes "/k.pem";
  bearer_token = codes "0123456789abcdef0123456789abcdef";
  channels_file = codes "/d/channels.txt";
  storage_dir = codes "/d";
  lease_seconds = 432000;
  hub_url = codes "https://pubsubhubbub.appspot.com/subscribe";
  accept_threads = 4;
}

abbrev files : Bytes → Option Bytes
files path =
    if path =b codes "/d/events.log"
    then store1.disk.events
    else if path =b codes "/d/ack.txt"
    then store1.disk.ack.target
    else if path =b codes "/d/subs.tsv"
    then some (saved (one.sub_map))
    else if path =b codes "/d/resolve.cache"
    then some (save_cache id_cache)
    else get path ((codes "/c.pem", codes "C") ∷ (codes "/k.pem", codes "K") ∷ [])

abbrev machine : Machine
machine = record {
  env = variables;
  read = files;
  read_tmp = λ path. store1.disk.ack.tmp;
  dir_ok = λ dir. true;
  log_ok = λ dir. true;
  listens = λ address. true;
}

machine-IsLeft : IsLeft machine config store1 one id_cache
unfolding load_config join disk_at get ◌=b◌
machine-IsLeft = record {
  configured = refl;
  dir_there = refl;
  log_there = refl;
  store_files = refl;
  registry_file = refl;
  cache_file = refl;
  cert = codes "C";
  cert_file = refl;
  key = codes "K";
  key_file = refl;
  free_port = refl;
}

start-resumes_example :
    (app : App) × ((start machine ≡ serves app (max 4 1))
      × (1 ≤ max 4 1)
      × (events_after 0 10 app.store
          ≡ unseen 0 10 ([] ++ put_event (codes "a\tb") (codes "100%") store0 ∷ []))
      × (by_token (first.token) app.subs ≡ over (by_token (first.token) one) none)
      × (get (codes "@handle") app.resolve_cache ≡ get (codes "@handle") id_cache))
start-resumes_example =
    start-resumes machine config store1 one id_cache machine-IsLeft run1 one-Reached one-fits
      id_cache-IsMap id_cache-All 0 10 (omega arith) (omega arith) (omega arith) (first.token)
      (codes "@handle")

-- Without a configuration there is no start.
no_config_test : start (record machine { env = [] }) ≡ exits 2
unfolding start load_config get ◌=b◌
no_config_test = refl
