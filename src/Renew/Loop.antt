-- ===== src/Renew/Loop.antt =====
-- The loop of the renewal thread, `run` of src/renew.rs, on the shared state (App).
use yt_websub.Prelude.{
  ℕ, false, ◌+◌, ◌%◌, ◌^◌, Bool, ◌&&◌, ◌||◌, not, Option, none, some, get_or, ◌≡◌, inl, inr, refl,
  ap, ◌∙◌, Bytes, ◌==◌, if◌then◌else◌, Bool-cases,
}
use yt_websub.Text.Utf8.{is_utf8}
use yt_websub.Resolve.{Fetch}
use yt_websub.Resolve.Cache.{WriteEnd, write_file, save_cache}
use yt_websub.Store.Rewrite.{CompactFate, maybe_compact}
use yt_websub.App.{App}
use yt_websub.Renew.Expire.{IsKeyed}
use yt_websub.Renew.Due.{Hub, renew_due}
use yt_websub.Renew.Desired.{contains, desired_set, or_insert_all}
use yt_websub.Renew.Reconcile.{Random, reconcile_locked}
use yt_websub.Renew.Has.{has}
use yt_websub.Renew.Channels.{KeepsChannels}
use yt_websub.Renew.Wanted.{reconcile_locked-wanted, reconcile_locked-IsKeyed, renew_due-channels}

-- Whether `desired_set` gets as far as the cache.
unfoldable pub is_readable : Option Bytes → Bool
unfolding is_utf8
is_readable none = false
is_readable (some content) = is_utf8 content

-- `reconcile`, on the state, with the end of the write of resolve.cache.
unfoldable pub reconcile : (ℕ → Fetch) → Hub → Random → WriteEnd → App → App × ℕ × ℕ × ℕ
unfolding desired_set or_insert_all reconcile_locked is_readable write_file save_cache
reconcile fetch hub random ends app =
    let d = desired_set fetch app.channels.target app.resolve_cache in
    let cache = or_insert_all d.cache app.resolve_cache in
    let after = reconcile_locked hub random d app.subs in
    (
      record app {
        subs = after.0;
        resolve_cache = cache;
        cache_file =
            if is_readable app.channels.target
            then write_file ends (save_cache cache) app.cache_file
            else app.cache_file;
      },
      after.1,
      after.2,
      after.3,
    )

-- The time of the last change, if it can be told, and the length of channels.txt, if there is one.
abbrev pub Metadata : Type 0
Metadata = Option (Option ℕ × ℕ)

unfoldable pub channels_sig : Metadata → ℕ × ℕ
channels_sig none = (0, 0)
channels_sig (some (mtime, len)) = (get_or mtime 0, len)

abbrev pub compact_every_ticks : ℕ
compact_every_ticks = 60

-- What the loop keeps.
pub record Loop : Type 0 where
  pub last_sig : ℕ × ℕ
  pub ticks : ℕ
  pub app : App

-- What comes from outside in one round, or before the first.
pub record Tick : Type 0 where
  pub metadata : Metadata
  pub fetch : ℕ → Fetch
  pub hub : Hub
  pub random : Random
  pub cache_write : WriteEnd
  pub renewal : Hub
  pub compaction : CompactFate

abbrev pub same_sig : ℕ × ℕ → ℕ × ℕ → Bool
same_sig a b = a.0 == b.0 && a.1 == b.1

-- What `run` does before its loop.
unfoldable pub run_begins : Tick → App → Loop
unfolding channels_sig reconcile
run_begins t app = record {
  last_sig = channels_sig t.metadata;
  ticks = 0;
  app = (reconcile t.fetch t.hub t.random t.cache_write app).0;
}

-- The reconcile, if the file changed.
unfoldable pub follow : Tick → Loop → App
unfolding channels_sig reconcile
follow t l =
    if same_sig (channels_sig t.metadata) l.last_sig
    then l.app
    else (reconcile t.fetch t.hub t.random t.cache_write l.app).0

abbrev pub is_compaction : ℕ → Bool
is_compaction ticks = ticks % compact_every_ticks == 0

unfoldable pub compacted_app : Tick → ℕ → App → App
unfolding maybe_compact
compacted_app t ticks app =
    if is_compaction ticks
    then record app { store = (maybe_compact t.compaction app.store).0 }
    else app

-- One round of the loop.
unfoldable pub run_tick : Tick → Loop → Loop
unfolding channels_sig follow renew_due compacted_app
run_tick t l =
    let followed = follow t l in
    let renewed = record followed { subs = renew_due t.renewal followed.subs } in
    let ticks = (l.ticks + 1) % 2 ^ 64 in
    record {
      last_sig = channels_sig t.metadata;
      ticks = ticks;
      app = compacted_app t ticks renewed;
    }

compacted_app-subs :
    (t : Tick) (ticks : ℕ) (app : App) → (compacted_app t ticks app).subs ≡ app.subs
unfolding compacted_app
compacted_app-subs t ticks app = elim (Bool-cases (ticks % compact_every_ticks == 0)) [
  | inl e ↦ rw e refl
  | inr e ↦ rw e refl
]

-- Which channels a round leaves: those that channels.txt asks for, if it changed.
abbrev pub followed_has : Tick → Loop → Bytes → Bool
followed_has t l c =
    let d = desired_set t.fetch l.app.channels.target l.app.resolve_cache in
    if same_sig (channels_sig t.metadata) l.last_sig
    then has c l.app.subs
    else contains c d.channels || (not d.complete && has c l.app.subs)

module _ (t : Tick) (l : Loop) (keeps : KeepsChannels t.hub)
    (keyed : IsKeyed l.app.subs.sub_map) where
  follow-IsKeyed : IsKeyed (follow t l).subs.sub_map
  unfolding follow reconcile
  follow-IsKeyed = elim (Bool-cases (same_sig (channels_sig t.metadata) l.last_sig)) [
    | inl e ↦ rw e keyed
    | inr e ↦ rw e (
        reconcile_locked-IsKeyed t.hub t.random
          (desired_set t.fetch l.app.channels.target l.app.resolve_cache) l.app.subs keeps keyed)
  ]

  has-follow : (c : Bytes) → has c (follow t l).subs ≡ followed_has t l c
  unfolding follow reconcile
  has-follow c = elim (Bool-cases (same_sig (channels_sig t.metadata) l.last_sig)) [
    | inl e ↦ rw e refl
    | inr e ↦ rw e (
        reconcile_locked-wanted t.hub t.random
          (desired_set t.fetch l.app.channels.target l.app.resolve_cache) l.app.subs keeps keyed c)
  ]

  -- A round of the loop, in which other threads add and drop no channel, leaves the channels as they
  -- are if the time and the length of channels.txt are those last seen; otherwise it leaves exactly
  -- the channels that the file asks for, and those that were there too if an entry does not resolve.
  pub run_tick-follows :
      KeepsChannels t.renewal → (c : Bytes) → has c (run_tick t l).app.subs ≡ followed_has t l c
  unfolding run_tick
  run_tick-follows renewal_keeps c =
      let followed = follow t l in
      let renewed = record followed { subs = renew_due t.renewal followed.subs } in
      ap (has c) (compacted_app-subs t ((l.ticks + 1) % 2 ^ 64) renewed)
      ∙ renew_due-channels t.renewal renewal_keeps c followed.subs follow-IsKeyed
      ∙ has-follow c
