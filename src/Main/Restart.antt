-- ===== src/Main/Restart.antt =====
-- What src/main.rs starts from is what the process before it left: the store, the registry and the
-- cache of src/store.rs, src/subs.rs and src/renew.rs together.
use yt_websub.Prelude.{
  ℕ, ◌<◌, ◌≤◌, max, true, none, some, List, arith, ◌≡◌, refl, ap, ◌∙◌, Bytes, codes, All,
}
use yt_websub.Prelude.Maps.{Table, get, IsMap}
use yt_websub.Text.Number.{max_u64}
use yt_websub.Prelude.Outcomes.{ok}
use yt_websub.Config.{Config, accepted, load_config}
use yt_websub.Store.{Store, events_after, open_store}
use yt_websub.Store.Line.{Event}
use yt_websub.Store.Poll.{unseen}
use yt_websub.Store.Reopen.{opened, open_store-opened}
use yt_websub.Store.Run.{Run, restart, no_event_lost}
use yt_websub.Subs.{Registry, by_token}
use yt_websub.Subs.Rows.{saved}
use yt_websub.Subs.Life.{Reached, Reached-IsSound}
use yt_websub.Subs.Entries.{Everywhere, Fits}
use yt_websub.Subs.File.{over, load-token}
use yt_websub.Resolve.Cache.{IsRow, save_cache, load_cache-save_cache}
use yt_websub.App.{App}
use yt_websub.Main.{
  Machine, serves, config_path, join, disk_at, shared, start_with, start_from, start,
}

-- The machine has the configuration, the files of a store, a registry and a cache in its directory,
-- a certificate and its key, and lets the server listen.
pub record IsLeft (m : Machine) (cfg : Config) (s : Store) (r : Registry) (cache : Table Bytes)
    : Type 0 where
  pub configured : load_config (m.read (config_path m)) (m.env) ≡ accepted cfg
  pub dir_there : m.dir_ok cfg.storage_dir ≡ true
  pub log_there : m.log_ok cfg.storage_dir ≡ true
  pub store_files : disk_at m cfg.storage_dir ≡ s.disk
  pub registry_file : m.read (join cfg.storage_dir (codes "subs.tsv")) ≡ some (saved (r.sub_map))
  pub cache_file : m.read (join cfg.storage_dir (codes "resolve.cache")) ≡ some (save_cache cache)
  pub cert : Bytes
  pub cert_file : m.read cfg.tls_cert ≡ some cert
  pub key : Bytes
  pub key_file : m.read cfg.tls_key ≡ some key
  pub free_port : m.listens cfg.listen ≡ true

-- The state that the workers get.
abbrev pub resumed : Machine → Config → Store → App
resumed m cfg s = shared m cfg (opened s.disk)

module _ {m : Machine} {cfg : Config} {s : Store} {r : Registry} {cache : Table Bytes}
    (left : IsLeft m cfg s r cache) where
  store-opens :
      open_store (m.dir_ok cfg.storage_dir) (m.log_ok cfg.storage_dir) (disk_at m cfg.storage_dir)
      ≡ ok (opened s.disk)
  store-opens = rw (left.dir_there, left.log_there, left.store_files) (open_store-opened s.disk)

  start_with-serves :
      start_with m cfg (ok (opened s.disk)) ≡ serves (resumed m cfg s) (max cfg.accept_threads 1)
  unfolding start_with
  start_with-serves = rw (start_with, left.cert_file, left.key_file, left.free_port) refl

  start-serves : start m ≡ serves (resumed m cfg s) (max cfg.accept_threads 1)
  unfolding start start_from
  start-serves =
      ap (start_from m) (left.configured) ∙ ap (start_with m cfg) store-opens ∙ start_with-serves

  resumed-token :
      Reached r
      → Everywhere Fits (r.sub_map)
      → (t : Bytes) → by_token t ((resumed m cfg s).subs) ≡ over (by_token t r) none
  unfolding shared
  resumed-token reached fits t =
      load-token
        (record {
          target = m.read (join cfg.storage_dir (codes "subs.tsv"));
          tmp = m.read_tmp (join cfg.storage_dir (codes "subs.tsv"));
        })
        r (Reached-IsSound r reached) fits (left.registry_file) t

  resumed-cache :
      IsMap cache
      → All IsRow cache
      → (entry : Bytes) → get entry ((resumed m cfg s).resolve_cache) ≡ get entry cache
  unfolding shared
  resumed-cache once rows entry = rw (left.cache_file) (load_cache-save_cache cache once rows entry)

-- A process that starts on the files of a store, a registry and a cache serves, with a worker at
-- least: a poll with a cursor at or above the compaction's floor has exactly the first events, up to
-- its limit, behind the cursor among all that were ever accepted; a token finds the subscription that
-- it found before, with its verdict cut to 200 characters; and an entry has the id that it had. The
-- store came about by a run, the registry by the program's changes, and the cache has rows that can
-- be read back.
pub start-resumes :
    (m : Machine) (cfg : Config) {es : List Event} {low : ℕ} (s : Store) (r : Registry)
    (cache : Table Bytes)
    → IsLeft m cfg s r cache
    → Run es low s
    → Reached r
    → Everywhere Fits (r.sub_map)
    → IsMap cache
    → All IsRow cache
    → (after limit : ℕ) → after ≤ max_u64
    → low ≤ after
    → 0 < limit
    → (token entry : Bytes)
    → (app : App) × ((start m ≡ serves app (max cfg.accept_threads 1))
        × (1 ≤ max cfg.accept_threads 1)
        × (events_after after limit app.store ≡ unseen after limit es)
        × (by_token token app.subs ≡ over (by_token token r) none)
        × (get entry app.resolve_cache ≡ get entry cache))
unfolding shared
start-resumes m cfg s r cache left run reached fits once rows after limit small floor wanted token
      entry =
    (
      resumed m cfg s,
      (
        start-serves left,
        omega arith,
        (no_event_lost (restart run) after limit small floor wanted).0,
        resumed-token left reached fits token,
        resumed-cache left once rows entry,
      ),
    )
