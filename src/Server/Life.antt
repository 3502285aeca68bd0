-- ===== src/Server/Life.antt =====
-- Over the life of the process of src/main.rs: the registry stays sound, its file can be read back,
-- and the log holds what was notified.
use mathlib.Core.List.{Memᴰ}
use yt_websub.Prelude.{
  ℕ, ◌<◌, ◌≤◌, ◌-◌, none, some, List, [], ◌∷◌, ◌≡◌, ◌↔◌, ◌⊎◌, ltb, ltb→lt, not-ltb→le, inl, inr,
  sym, ap, ◌∙◌, subst, Bytes, codes, Bool-cases, All,
}
use yt_websub.Prelude.Maps.{get}
use yt_websub.Util.Atomic.{Slot}
use yt_websub.Text.Number.{max_u64}
use yt_websub.Sig.{Mac}
use yt_websub.Store.{Store, events_after, max_seq}
use yt_websub.Store.Line.{Event}
use yt_websub.Store.Poll.{unseen}
use yt_websub.Store.Reopen.{opened}
use yt_websub.Store.Rewrite.{compact_margin}
use yt_websub.Store.Run as StoreRun
use yt_websub.Store.Held.{empty_disk}
use yt_websub.Store.Run.{first_start, acknowledge, compact, restart, no_event_lost}
use yt_websub.Subs.{Sub, by_token}
use yt_websub.Subs.Rows.{load}
use yt_websub.Subs.Life.{by_token_sound}
use yt_websub.Subs.Kept.{IsKept, IsStored, load-IsKept}
use yt_websub.Renew.Loop.{Loop, Tick, run_begins, reconcile}
use yt_websub.App.{App}
use yt_websub.Main.{Machine, serves, start, shared, join, disk_at}
use yt_websub.Server.{IsTicked, Taken, Run, started, served, ticked, restarted}
use yt_websub.Server.Started.{start-CameUp}
use yt_websub.Server.Logs.{IsNotified, Logs, served-Logs, ticked-Logs}
use yt_websub.Server.Steps.{IsGood, reconcile-IsGood, served-IsGood, ticked-IsGood}

-- What holds all along.
pub record Holds (mac : Mac) (live : List Loop) (taken : List Taken) (app : App) : Type 0 where
  pub good : IsGood app
  pub were_good : All (λ (l : Loop). IsGood l.app) live
  pub logs : Logs mac taken app.store

-- In each state since the last start.
pub IsGood-at :
    (live : List Loop)
    → All (λ (l : Loop). IsGood l.app) live
    → (seen : Loop) → Memᴰ seen live
    → IsGood seen.app
IsGood-at [] h seen m = elim m [ ]
IsGood-at (l ∷ live) (good, more) seen (Memᴰ.head e) =
    subst (λ (x : Loop). IsGood x.app) (sym e) good
IsGood-at (l ∷ live) (good, more) seen (Memᴰ.tail m) = IsGood-at live more seen m

begun-Holds :
    (mac : Mac) (taken : List Taken) (t : Tick) (app : App)
    → IsTicked t app
    → Holds mac [] taken app
    → Holds mac [] taken (run_begins t app).app
unfolding run_begins reconcile
begun-Holds mac taken t app world h = record {
  good =
      reconcile-IsGood t.fetch t.hub t.random t.cache_write app world.outside world.random
        world.fresh h.good;
  were_good = tt;
  logs = h.logs;
}

module _ (mac : Mac) (m : Machine) (n : ℕ) (app : App) (up : start m ≡ serves app n) where
  up_store : app.store ≡ opened (disk_at m app.cfg.storage_dir)
  unfolding shared
  up_store = ap (λ (x : App). x.store) ((start-CameUp m app n up).made)

  subs_slot : Slot
  subs_slot = record {
    target = m.read (join app.cfg.storage_dir (codes "subs.tsv"));
    tmp = m.read_tmp (join app.cfg.storage_dir (codes "subs.tsv"));
  }

  up_subs : app.subs ≡ load subs_slot
  unfolding shared subs_slot
  up_subs = ap (λ (x : App). x.subs) ((start-CameUp m app n up).made)

  up-IsGood : IsStored subs_slot → IsGood app
  up-IsGood stored = record {
    kept = subst IsKept (sym up_subs) (load-IsKept subs_slot stored);
    lease_fits = (start-CameUp m app n up).lease_fits;
  }

  first-Holds :
      disk_at m app.cfg.storage_dir ≡ empty_disk
      → m.read (join app.cfg.storage_dir (codes "subs.tsv")) ≡ none
      → Holds mac [] [] app
  unfolding subs_slot
  first-Holds disk file = record {
    good = up-IsGood (inl file);
    were_good = tt;
    logs = subst (Logs mac []) (sym (up_store ∙ ap opened disk)) ([], 0, first_start, tt);
  }

  again-Holds :
      (live : List Loop) (taken : List Taken) (before : App)
      → Holds mac live taken before
      → disk_at m app.cfg.storage_dir ≡ before.store.disk
      → m.read (join app.cfg.storage_dir (codes "subs.tsv")) ≡ before.subs.file.target
      → Holds mac [] taken app
  unfolding subs_slot
  again-Holds live taken before h disk file =
      let (es, low, run, from) = h.logs in
      record {
        good = up-IsGood (elim h.good.kept.stored [
          | inl absent ↦ inl (file ∙ absent)
          | inr (r, sound, fits, e) ↦ inr (r, sound, fits, file ∙ e)
        ]);
        were_good = tt;
        logs =
            subst (Logs mac taken) (sym (up_store ∙ ap opened disk)) (es, low, restart run, from);
      }

pub Run-Holds :
    (mac : Mac) {live : List Loop} {taken : List Taken} {l : Loop}
    → Run mac live taken l
    → Holds mac live taken l.app
Run-Holds mac (started m n app t up disk file world) =
    begun-Holds mac [] t app world (first-Holds mac m n app up disk file)
Run-Holds mac (served {live} {taken} {l} run seen member w v r url world) =
    let h = Run-Holds mac run in
    record {
      good =
          served-IsGood w v seen.app.subs r url l.app world.outside world.random world.fresh h.good;
      were_good = (h.good, h.were_good);
      logs =
          served-Logs mac taken seen (IsGood-at (l ∷ live) (h.good, h.were_good) seen member) w v r
            url l.app world h.logs;
    }
Run-Holds mac (ticked {live} {taken} {l} run t world) =
    let h = Run-Holds mac run in
    record {
      good = ticked-IsGood t l world h.good;
      were_good = (h.good, h.were_good);
      logs = ticked-Logs mac taken t world.reopens l h.logs;
    }
Run-Holds mac (restarted {live} {taken} {l} run m n app t up disk file world) =
    begun-Holds mac taken t app world
      (again-Holds mac m n app up live taken l.app (Run-Holds mac run) disk file)

pub polled :
    {es : List Event} {low : ℕ} {s : Store}
    → StoreRun.Run es low s
    → (after limit : ℕ) → after ≤ max_u64
    → 0 < limit
    → (after < low) ⊎ (events_after after limit s ≡ unseen after limit es)
polled {low} run after limit fits wanted = elim (Bool-cases (ltb after low)) [
  | inl below ↦ inl (ltb→lt after low below)
  | inr above ↦ inr ((no_event_lost run after limit fits (not-ltb→le after low above) wanted).0)
]

-- However the process ran, with requests, rounds of the renewal thread and restarts in any order, as
-- `Run` assumes of the world: there is a history of the events that the store accepted, each of which
-- was in a POST that this process took; the URL has the token of a subscription that the process had
-- in the state in which it looked it up, the body is signed with that subscription's secret, and the
-- event is for its channel. A poll of at least one event has exactly the first events, up to
-- its limit, behind its cursor in that history, unless the cursor is below a floor; and the floor
-- leaves at least the newest thousand.
pub Run-IsNotified :
    (mac : Mac) {live : List Loop} {taken : List Taken} {l : Loop}
    → Run mac live taken l
    → (after limit : ℕ) → after ≤ max_u64
    → 0 < limit
    → (es : List Event) × (low : ℕ) × StoreRun.Run es low l.app.store
      × All (IsNotified mac taken) es
      × ((after < low) ⊎ (events_after after limit l.app.store ≡ unseen after limit es))
      × (low ≤ max_seq l.app.store - compact_margin)
unfolding max_seq
Run-IsNotified mac h after limit fits wanted =
    let (es, low, run, from) = (Run-Holds mac h).logs in
    (es, low, run, from, polled run after limit fits wanted, (StoreRun.Run-Holds run).margin)

-- However the process ran, with requests, rounds of the renewal thread and restarts in any order, as
-- `Run` assumes of the world: a token finds a subscription exactly when the map has it under its
-- channel with that token; and what a restart would read from subs.tsv, whichever of its writes
-- failed, is a registry of which the same is true.
pub Run-by_token_iff :
    (mac : Mac) {live : List Loop} {taken : List Taken} {l : Loop}
    → Run mac live taken l
    → (t : Bytes) (s : Sub)
    → ((by_token t l.app.subs ≡ some s)
        ↔ ((get s.channel_id l.app.subs.sub_map ≡ some s) × (s.token ≡ t)))
      × ((by_token t (load l.app.subs.file) ≡ some s)
          ↔ ((get s.channel_id (load l.app.subs.file).sub_map ≡ some s) × (s.token ≡ t)))
Run-by_token_iff mac {l = l} run t s =
    let kept = (Run-Holds mac run).good.kept in
    let read = load-IsKept l.app.subs.file kept.stored in
    (by_token_sound l.app.subs kept.sound t s, by_token_sound (load l.app.subs.file) read.sound t s)
