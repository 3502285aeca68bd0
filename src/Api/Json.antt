-- ===== src/Api/Json.antt =====
-- The texts of the responses of src/api.rs.
use yt_websub.Prelude.{
  ℕ, suc, Bool, true, false, ◌&&◌, ◌||◌, not, List, [], ◌∷◌, ◌++◌, Bytes, codes, ltb, ◌=b◌,
  if◌then◌else◌, length,
}
use yt_websub.Prelude.Maps.{Table}
use yt_websub.Text.Number.{to_string}
use yt_websub.Util.Json.{json_string}
use yt_websub.Store.Line.{Event}
use yt_websub.Subs.{Sub, lease_expired}

-- Texts one after the other.
unfoldable pub concat : List Bytes → Bytes
concat [] = []
concat (t ∷ more) = t ++ concat more

-- Texts with commas between them.
unfoldable pub commas : List Bytes → Bytes
commas [] = []
commas (t ∷ []) = t
commas (t ∷ u ∷ more) = t ++ b',' ∷ commas (u ∷ more)

-- The numbers of subscriptions by what they are.
pub record Counts : Type 0 where
  pub active : ℕ
  pub expired : ℕ
  pub failed : ℕ
  pub pending : ℕ
  pub total : ℕ

unfoldable pub count_one : ℕ → Sub → Counts → Counts
count_one now s c =
    if s.state =b codes "active" && not (lease_expired s now)
    then record c { active = suc c.active; total = suc c.total }
    else if s.state =b codes "active" || s.state =b codes "expired"
    then record c { expired = suc c.expired; total = suc c.total }
    else if s.state =b codes "pending"
    then record c { pending = suc c.pending; total = suc c.total }
    else record c { failed = suc c.failed; total = suc c.total }

unfoldable pub counts : ℕ → Table Sub → Counts
unfolding count_one
counts now [] = record { active = 0; expired = 0; failed = 0; pending = 0; total = 0 }
counts now ((c, s) ∷ m) = count_one now s (counts now m)

abbrev pub version : Bytes
version = codes "0.1.0"

-- GET /api/health; `uptime` is the print of the seconds since the start.
unfoldable pub health_json : Counts → ℕ → ℕ → Bytes → Bytes
unfolding concat to_string json_string
health_json c max_seq now uptime = concat (
    codes "{\"ok\":true,\"subs_active\":"
    ∷ to_string (c.active)
    ∷ codes ",\"subs_expired\":"
    ∷ to_string (c.expired)
    ∷ codes ",\"subs_failed\":"
    ∷ to_string (c.failed)
    ∷ codes ",\"subs_pending\":"
    ∷ to_string (c.pending)
    ∷ codes ",\"subs_total\":"
    ∷ to_string (c.total)
    ∷ codes ",\"max_seq\":"
    ∷ to_string max_seq
    ∷ codes ",\"now\":"
    ∷ to_string now
    ∷ codes ",\"uptime_secs\":"
    ∷ uptime
    ∷ codes ",\"version\":"
    ∷ json_string version
    ∷ codes "}"
    ∷ [])

unfoldable pub event_json : Event → Bytes
unfolding concat to_string json_string
event_json e = concat (
    codes "{\"seq\":"
    ∷ to_string (e.seq)
    ∷ codes ",\"received_at\":"
    ∷ to_string (e.received_at)
    ∷ codes ",\"kind\":"
    ∷ json_string (e.kind)
    ∷ codes ",\"channel_id\":"
    ∷ json_string (e.channel_id)
    ∷ codes ",\"video_id\":"
    ∷ json_string (e.video_id)
    ∷ codes ",\"ts\":"
    ∷ json_string (e.ts)
    ∷ codes ",\"title\":"
    ∷ json_string (e.title)
    ∷ codes "}"
    ∷ [])

abbrev pub event_texts : List Event → List Bytes
event_texts [] = []
event_texts (e ∷ more) = event_json e ∷ event_texts more

-- GET /api/events
unfoldable pub events_json : List Event → ℕ → Bytes
unfolding concat commas event_json to_string
events_json events max_seq = concat (
    codes "{\"events\":["
    ∷ commas (event_texts events)
    ∷ codes "],\"max_seq\":"
    ∷ to_string max_seq
    ∷ codes "}"
    ∷ [])

unfoldable pub channel_json : Sub → Bytes
unfolding concat to_string json_string
channel_json s = concat (
    codes "{\"channel_id\":"
    ∷ json_string (s.channel_id)
    ∷ codes ",\"state\":"
    ∷ json_string (s.state)
    ∷ codes ",\"lease_seconds\":"
    ∷ to_string (s.lease_seconds)
    ∷ codes ",\"expires_at\":"
    ∷ to_string (s.expires_at)
    ∷ codes ",\"fail_count\":"
    ∷ to_string (s.fail_count)
    ∷ codes ",\"last_subscribe_at\":"
    ∷ to_string (s.last_subscribe_at)
    ∷ codes ",\"next_attempt_at\":"
    ∷ to_string (s.next_attempt_at)
    ∷ codes ",\"last_error\":"
    ∷ json_string (s.last_error)
    ∷ codes ",\"topic\":"
    ∷ json_string (s.topic)
    ∷ codes "}"
    ∷ [])

-- `a.cmp(b)` is not `Greater`.
unfoldable pub text_le : Bytes → Bytes → Bool
text_le [] b = true
text_le (c ∷ a) [] = false
text_le (c ∷ a) (d ∷ b) =
    let rest = text_le a b in if ltb c d then true else if ltb d c then false else rest

-- A stable sort by channel.
unfoldable pub insert_sorted : Sub → List Sub → List Sub
unfolding text_le
insert_sorted s [] = s ∷ []
insert_sorted s (t ∷ more) =
    let rest = insert_sorted s more in
    if text_le (s.channel_id) (t.channel_id) then s ∷ t ∷ more else t ∷ rest

unfoldable pub sorted_subs : Table Sub → List Sub
unfolding insert_sorted
sorted_subs [] = []
sorted_subs ((c, s) ∷ m) = insert_sorted s (sorted_subs m)

abbrev pub channel_texts : List Sub → List Bytes
channel_texts [] = []
channel_texts (s ∷ more) = channel_json s ∷ channel_texts more

-- GET /api/channels
unfoldable pub channels_json : List Sub → Bytes
unfolding concat commas channel_json to_string
channels_json subs = concat (
    codes "{\"channels\":["
    ∷ commas (channel_texts subs)
    ∷ codes "],\"count\":"
    ∷ to_string (length subs)
    ∷ codes "}"
    ∷ [])
