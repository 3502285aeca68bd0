-- ===== src/Server.antt =====
-- The whole process of src/main.rs over its life: requests that the workers take, rounds of the
-- renewal thread, and restarts, in any order.
pub mod Started
pub mod Steps
pub mod Logs
pub mod Life
pub mod Recorded
mod Tests
use mathlib.Core.List.{Memᴰ}
use yt_websub.Prelude.{ℕ, ◌+◌, ◌<◌, ◌≤◌, ◌≢◌, ◌≡◌, none, List, [], ◌∷◌, Bytes, codes, length}
use yt_websub.Text.Number.{max_u64}
use yt_websub.Sig.{Mac}
use yt_websub.Store.{max_seq}
use yt_websub.Store.Rewrite.{reopen_fails}
use yt_websub.Store.Held.{empty_disk}
use yt_websub.Renew.Desired.{desired_set}
use yt_websub.Renew.Reconcile.{to_add}
use yt_websub.Renew.Fresh.{AreNew}
use yt_websub.Renew.Fits.{IsRandom}
use yt_websub.Renew.Kept.{IsOutside}
use yt_websub.Renew.Loop.{Loop, Tick, run_begins, run_tick}
use yt_websub.App.{App, Request}
use yt_websub.Callback
use yt_websub.Callback.Logged.{IsWritten, entries_of}
use yt_websub.Api
use yt_websub.Api.Outcome.{acked, posted_files}
use yt_websub.Http.{handle}
use yt_websub.Main.{Machine, serves, start, join, disk_at}

-- What is assumed of the world in a request: the key of the hub's code is the same all along, rows are
-- written whole, numbers of events do not run out, a client acknowledges what it was given, the
-- random tokens are new, and other threads keep the registry while the hub is waited for.
pub record IsServed (mac : Mac) (w : Callback.World) (v : Api.World) (r : Request) (app : App)
    : Type 0 where
  pub mac_same : w.mac ≡ mac
  pub rows : IsWritten w
  pub room : app.store.next_seq + length (entries_of r) < max_u64
  pub given : acked r ≤ max_seq app.store
  pub outside : IsOutside v.hub
  pub random : IsRandom v.random
  pub fresh :
      AreNew v.random 0
        (to_add app.subs.sub_map
          ((desired_set v.fetch (posted_files v r app).target app.resolve_cache).channels))
        app.subs.token_map

-- What is assumed of the world in a round of the renewal thread.
pub record IsTicked (t : Tick) (app : App) : Type 0 where
  pub outside : IsOutside t.hub
  pub renewal : IsOutside t.renewal
  pub random : IsRandom t.random
  pub fresh :
      AreNew t.random 0
        (to_add app.subs.sub_map
          ((desired_set t.fetch app.channels.target app.resolve_cache).channels))
        app.subs.token_map
  pub reopens : t.compaction ≢ reopen_fails

-- A request that the process took, the URL, and the state in whose registry its token was looked up.
pub record Taken : Type 0 where
  pub request : Request
  pub url : Bytes
  pub seen : Loop

-- `Run mac live taken l`: the process comes to `l`; `live` are the states since its last start, the
-- newest first, and `taken` the requests that it ever took. A request finds its token in the registry
-- of one of the states since the start, `seen`, and goes on in the current one; a restart finds the
-- files as they are.
pub data Run (mac : Mac) : List Loop → List Taken → Loop → Type 0 where
  started :
      (m : Machine) (n : ℕ) (app : App) (t : Tick)
      → start m ≡ serves app n
      → disk_at m app.cfg.storage_dir ≡ empty_disk
      → m.read (join app.cfg.storage_dir (codes "subs.tsv")) ≡ none
      → IsTicked t app
      → Run mac [] [] (run_begins t app)
  served :
      {live : List Loop} {taken : List Taken} {l : Loop}
      → Run mac live taken l
      → (seen : Loop) → Memᴰ seen (l ∷ live)
      → (w : Callback.World) (v : Api.World) (r : Request) (url : Bytes) → IsServed mac w v r l.app
      → Run mac
          (l ∷ live)
          (record { request = r; url = url; seen = seen } ∷ taken)
          (record l { app = (handle w seen.app.subs v r url l.app).0 })
  ticked :
      {live : List Loop} {taken : List Taken} {l : Loop}
      → Run mac live taken l
      → (t : Tick) → IsTicked t l.app
      → Run mac (l ∷ live) taken (run_tick t l)
  restarted :
      {live : List Loop} {taken : List Taken} {l : Loop}
      → Run mac live taken l
      → (m : Machine) (n : ℕ) (app : App) (t : Tick) → start m ≡ serves app n
      → disk_at m app.cfg.storage_dir ≡ l.app.store.disk
      → m.read (join app.cfg.storage_dir (codes "subs.tsv")) ≡ l.app.subs.file.target
      → IsTicked t app
      → Run mac [] taken (run_begins t app)
