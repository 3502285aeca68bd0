-- ===== src/Main.antt =====
-- The start of the process, src/main.rs: from the environment and the files to the state that the
-- workers share, and what becomes of a worker.
pub mod Restart
pub mod Tests
use yt_websub.Prelude.{
  ℕ, Bool, true, false, Option, none, some, List, [], ◌∷◌, ◌++◌, Bytes, codes, get_or, max, ◌==◌,
  ◌=b◌, if◌then◌else◌,
}
use yt_websub.Prelude.Maps.{Table, get}
use yt_websub.Prelude.Outcomes.{IoResult, ok, err}
use yt_websub.Config.{Config, Result, accepted, refused, load_config, overlay}
use yt_websub.Store.{Disk, Store, open_store}
use yt_websub.Subs.Rows.{load}
use yt_websub.Resolve.Cache.{load_cache}
use yt_websub.App.{App}

-- What the process finds: the variables of its environment, what a path holds and what its temporary
-- sibling does (`none` where there is nothing to read), whether a directory can be made and the log
-- in it opened, and whether the server can listen.
pub record Machine : Type 0 where
  pub env : List (Bytes × Bytes)
  pub read : Bytes → Option Bytes
  pub read_tmp : Bytes → Option Bytes
  pub dir_ok : Bytes → Bool
  pub log_ok : Bytes → Bool
  pub listens : Bytes → Bool

-- `process::exit`, or the shared state and the number of workers.
pub data Start : Type 0 where
  exits : ℕ → Start
  serves : App → ℕ → Start

abbrev ends_in_slash : Bytes → Bool
ends_in_slash [] = false
ends_in_slash (b ∷ []) = b == b'/'
ends_in_slash (b ∷ c ∷ s) = ends_in_slash (c ∷ s)

-- `Path::join` with a relative name.
unfoldable pub join : Bytes → Bytes → Bytes
join [] name = name
join dir name = if ends_in_slash dir then dir ++ name else dir ++ b'/' ∷ name

abbrev pub config_path : Machine → Bytes
config_path m =
    get_or (get (codes "YTWEBSUB_CONFIG") (overlay [] (m.env))) (codes "/etc/yt-websub.env")

-- The files of the store.
unfoldable pub disk_at : Machine → Bytes → Disk
unfolding join
disk_at m dir = record {
  events = m.read (join dir (codes "events.log"));
  ack = record {
    target = m.read (join dir (codes "ack.txt"));
    tmp = m.read_tmp (join dir (codes "ack.txt"));
  };
}

-- `App { .. }`
unfoldable pub shared : Machine → Config → Store → App
unfolding join load load_cache
shared m cfg store = record {
  cfg = cfg;
  store = store;
  subs = load (record {
    target = m.read (join cfg.storage_dir (codes "subs.tsv"));
    tmp = m.read_tmp (join cfg.storage_dir (codes "subs.tsv"));
  });
  cache_file = m.read (join cfg.storage_dir (codes "resolve.cache"));
  resolve_cache = load_cache (m.read (join cfg.storage_dir (codes "resolve.cache")));
  channels = record { target = m.read cfg.channels_file; tmp = m.read_tmp cfg.channels_file };
}

-- Once the store is open: the certificate, its key, the server. The thread of renewals, which runs
-- already when the server is bound, is left out here.
unfoldable pub start_with : Machine → Config → IoResult Store → Start
unfolding shared
start_with m cfg err = exits 2
start_with m cfg (ok store) = elim (m.read cfg.tls_cert) [
  | none ↦ exits 2
  | some cert ↦ elim (m.read cfg.tls_key) [
    | none ↦ exits 2
    | some key ↦
        if m.listens cfg.listen
        then serves (shared m cfg store) (max cfg.accept_threads 1)
        else exits 2
  ]
]

unfoldable pub start_from : Machine → Result Config → Start
unfolding start_with open_store disk_at
start_from m (refused why) = exits 2
start_from m (accepted cfg) =
    start_with m cfg
      (open_store (m.dir_ok cfg.storage_dir) (m.log_ok cfg.storage_dir) (disk_at m cfg.storage_dir))

-- `main`, up to the workers.
unfoldable pub start : Machine → Start
unfolding start_from load_config overlay get
start m = start_from m (load_config (m.read (config_path m)) (m.env))
