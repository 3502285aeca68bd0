-- ===== src/Subs.antt =====
-- The subscriptions and their registry, src/subs.rs.
pub mod Rows
pub mod Clamp
pub mod Row
pub mod Index
pub mod Life
pub mod Grace
pub mod Waiting
pub mod Entries
pub mod File
pub mod Kept
pub mod Tests
use yt_websub.Prelude.{
  ℕ, zero, suc, ◌+◌, ◌%◌, ◌^◌, Bool, true, false, ◌&&◌, Option, none, some, List, [], ◌∷◌, ◌++◌,
  Bytes, codes, ltb, leb, ◌==◌, ◌=b◌, if◌then◌else◌, ◌>>=◌, length, foldl,
}
use yt_websub.Prelude.Maps.{Table, get, put, delete, retain, filtered}
use yt_websub.Text.Number.{max_u64, max_u32, to_string, parse}
use yt_websub.Text.Pieces.{split, lines}
use yt_websub.Text.Utf8.{is_utf8}
use yt_websub.Util.Pct.{pct_encode, pct_decode}
use yt_websub.Util.Random.{rand_hex}
use yt_websub.Util.Atomic.{Slot}

pub record Sub : Type 0 where
  pub channel_id : Bytes
  pub token : Bytes
  pub topic : Bytes
  pub secret : Bytes
  pub state : Bytes
  pub lease_seconds : ℕ
  pub expires_at : ℕ
  pub last_subscribe_at : ℕ
  pub fail_count : ℕ
  pub next_attempt_at : ℕ
  pub last_error : Bytes

unfoldable pub topic_for : Bytes → Bytes
topic_for channel = codes "https://www.youtube.com/feeds/videos.xml?channel_id=" ++ channel

-- `Sub::new`, with the random bytes of its token and of its secret.
unfoldable pub new_sub : Bytes → Bytes → Bytes → Sub
unfolding topic_for rand_hex
new_sub channel token_bytes secret_bytes = record {
  channel_id = channel;
  token = rand_hex token_bytes;
  topic = topic_for channel;
  secret = rand_hex secret_bytes;
  state = codes "pending";
  lease_seconds = 0;
  expires_at = 0;
  last_subscribe_at = 0;
  fail_count = 0;
  next_attempt_at = 0;
  last_error = [];
}

unfoldable pub lease_expired : Sub → ℕ → Bool
lease_expired s now = ltb 0 (s.expires_at) && leb (s.expires_at) now

abbrev pub unsub_grace : ℕ
unsub_grace = 900

-- `sub_map` is the field `subs`, `token_map` is `by_token`; `file` has what stands at `path` and at
-- its temporary sibling.
pub record Registry : Type 0 where
  pub sub_map : Table Sub
  pub token_map : Table Bytes
  pub unsub_pending : Table (Bytes × ℕ)
  pub file : Slot

unfoldable pub insert : Sub → Registry → Registry
unfolding put
insert s r = record {
  sub_map = put (s.channel_id) s (r.sub_map);
  token_map = put (s.token) (s.channel_id) (r.token_map);
  unsub_pending = r.unsub_pending;
  file = r.file;
}

abbrev pub empty : Registry
empty = record {
  sub_map = [];
  token_map = [];
  unsub_pending = [];
  file = record { target = none; tmp = none };
}

unfoldable pub by_token : Bytes → Registry → Option Sub
unfolding get
by_token t r = do channel ← get t (r.token_map); get channel (r.sub_map)

-- The tokens after `update` dropped the one that the channel had until then.
unfoldable pub drop_stale : Sub → Option Sub → Table Bytes → Table Bytes
unfolding delete
drop_stale s none m = m
drop_stale s (some old) m = if old.token =b s.token then m else delete (old.token) m

unfoldable pub update : Sub → Registry → Registry
unfolding get put drop_stale
update s r = record {
  sub_map = put (s.channel_id) s (r.sub_map);
  token_map =
      put (s.token) (s.channel_id) (drop_stale s (get (s.channel_id) (r.sub_map)) (r.token_map));
  unsub_pending = r.unsub_pending;
  file = r.file;
}

-- Whether the grace period of a tombstone still runs.
abbrev pub waits : ℕ → Bytes × ℕ → Bool
waits now grave = ltb now (grave.1)

unfoldable pub sweep_unsub : ℕ → Registry → Registry
unfolding retain
sweep_unsub now r = record {
  sub_map = r.sub_map;
  token_map = r.token_map;
  unsub_pending = retain (waits now) (r.unsub_pending);
  file = r.file;
}

unfoldable pub remove_found : Bytes → ℕ → Registry → Sub → Registry
unfolding delete put sweep_unsub
remove_found channel now r s = sweep_unsub now (record {
  sub_map = delete channel (r.sub_map);
  token_map = delete (s.token) (r.token_map);
  unsub_pending = put (s.token) (s.topic, (now + unsub_grace) % 2 ^ 64) (r.unsub_pending);
  file = r.file;
})

unfoldable pub remove : Bytes → ℕ → Registry → Registry × Option Sub
unfolding get remove_found
remove channel now r = elim (get channel (r.sub_map)) [
  | none ↦ (r, none)
  | some s ↦ (remove_found channel now r s, some s)
]

unfoldable pub unsub_topic : Bytes → ℕ → Registry → Option Bytes
unfolding get
unsub_topic t now r = elim (filtered (waits now) (get t (r.unsub_pending))) [
  | none ↦ none
  | some grave ↦ some (grave.0)
]

unfoldable pub forget_unsub : Bytes → ℕ → Registry → Registry
unfolding delete sweep_unsub
forget_unsub t now r = sweep_unsub now (record {
  sub_map = r.sub_map;
  token_map = r.token_map;
  unsub_pending = delete t (r.unsub_pending);
  file = r.file;
})
