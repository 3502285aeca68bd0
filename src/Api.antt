-- ===== src/Api.antt =====
-- The control and poll interface, src/api.rs, on the shared state (App).
pub mod Body
pub mod Json
pub mod Outcome
pub mod Guard
pub mod Health
pub mod Blind
pub mod Posted
pub mod Client
pub mod Ids
pub mod Exact
pub mod Poll
pub mod Tests
mod PollTests
use yt_websub.Prelude.{
  ℕ, ◌+◌, Bool, true, false, Option, none, some, [], ◌∷◌, ◌++◌, Bytes, codes, ◌=b◌, if◌then◌else◌,
  ◌>>=◌, get_or, min, any,
}
use yt_websub.Prelude.Maps.{Table}
use yt_websub.Text.Number.{max_u64, parse, to_string}
use yt_websub.Util.Atomic
use yt_websub.Util.Atomic.{Slot, write_atomic}
use yt_websub.Util.Compare.{ct_eq}
use yt_websub.Util.Json.{json_string}
use yt_websub.Util.Query.{query_get}
use yt_websub.Resolve.{Fetch}
use yt_websub.Resolve.Cache.{WriteEnd}
use yt_websub.Store.{events_after, max_seq, set_ack}
use yt_websub.Subs.{Registry}
use yt_websub.Renew.Due.{Hub}
use yt_websub.Renew.Desired.{Desired, desired_set, or_insert_all}
use yt_websub.Renew.Reconcile.{Random, reconcile_locked}
use yt_websub.Renew.Loop.{reconcile}
use yt_websub.App.{App, Request, Response, json, get_method, post_method, other_method}
use Body.{read_body, extract_u64, posted_channels, render_channels_file}
use Json.{counts, health_json, events_json, channels_json, sorted_subs}

-- What comes from outside: the clock, the print of the uptime, the ends of the writes of the
-- acknowledged number and of channels.txt, the text of a failure, whether another reconcile runs, and
-- what a reconcile meets.
pub record World : Type 0 where
  pub now : ℕ
  pub uptime : Bytes
  pub ack_fate : Atomic.Fate
  pub write_fate : Atomic.Fate
  pub write_error : Bytes
  pub busy : Bool
  pub fetch : ℕ → Fetch
  pub hub : Hub
  pub random : Random
  pub cache_write : WriteEnd

-- The reconcile of a request.
unfoldable pub reconciled : World → App → App × ℕ × ℕ × ℕ
unfolding reconcile
reconciled w app = reconcile w.fetch w.hub w.random w.cache_write app

-- `try_reconcile` of src/renew.rs, on the state.
unfoldable pub try_reconcile : World → App → Option (App × ℕ × ℕ × ℕ)
unfolding reconciled
try_reconcile w app = if w.busy then none else some (reconciled w app)

abbrev pub number_param : Bytes → Bytes → ℕ → ℕ
number_param query key default = get_or (query_get query key >>= parse max_u64) default

unfoldable pub is_authed : Bytes → Request → Bool
unfolding any ct_eq
is_authed bearer_token r = any (λ v. ct_eq v (codes "Bearer " ++ bearer_token)) r.authorizations

unfoldable pub get_health : World → App → App × Response
unfolding counts health_json max_seq
get_health w app =
    (app, json 200 (health_json (counts w.now app.subs.sub_map) (max_seq app.store) w.now w.uptime))

-- The numbers of a request for events: the cursor, and how many at most.
unfoldable pub after_param : Bytes → ℕ
unfolding query_get parse
after_param query = number_param query (codes "after") 0

unfoldable pub limit_param : Bytes → ℕ
unfolding query_get parse
limit_param query = min (number_param query (codes "max") 500) 2000

unfoldable pub get_events : Bytes → App → App × Response
unfolding after_param limit_param events_after max_seq events_json
get_events query app = (
  app,
  json 200 (
      events_json (events_after (after_param query) (limit_param query) app.store)
        (max_seq app.store)),
)

unfoldable pub get_channels : App → App × Response
unfolding sorted_subs channels_json
get_channels app = (app, json 200 (channels_json (sorted_subs app.subs.sub_map)))

unfoldable pub post_ack : World → Request → App → App × Response
unfolding read_body extract_u64 set_ack
post_ack w r app =
    let through = get_or (extract_u64 (read_body r.body) (codes "through")) 0 in
    (record app { store = set_ack w.ack_fate through app.store }, json 200 (codes "{\"ok\":true}"))

-- The response to a POST of channels, of what came of the reconcile.
unfoldable pub answer_posted : App → Option (App × ℕ × ℕ × ℕ) → App × Response
unfolding to_string
answer_posted app none = (
  app,
  json 202 (
      codes
        "{\"status\":\"accepted\",\"note\":\"reconcile already running; change will be applied shortly\"}"),
)
answer_posted app (some (after, subscribed, unsubscribed, active)) = (
  after,
  json 200 (
      codes "{\"subscribed\":"
      ++ (to_string subscribed
          ++ (codes ",\"unsubscribed\":"
              ++ (to_string unsubscribed
                  ++ (codes ",\"active\":" ++ (to_string active ++ codes "}")))))),
)

-- Once channels.txt is written, or not.
unfoldable pub answer_written : World → App → Slot × Bool → App × Response
unfolding json_string answer_posted try_reconcile
answer_written w app (files, false) = (
  record app { channels = files },
  json 500 (codes "{\"error\":" ++ (json_string w.write_error ++ codes "}")),
)
answer_written w app (files, true) =
    let saved = record app { channels = files } in answer_posted saved (try_reconcile w saved)

unfoldable pub post_channels : World → Request → App → App × Response
unfolding read_body posted_channels render_channels_file write_atomic answer_written
post_channels w r app =
    let posted = posted_channels (read_body r.body) in
    answer_written w app
      (write_atomic w.write_fate (render_channels_file app.channels.target posted) app.channels)

abbrev not_found : App → App × Response
not_found app = (app, json 404 (codes "{\"error\":\"not found\"}"))

-- The requests by method and path.
unfoldable pub route : World → Request → Bytes → Bytes → App → App × Response
unfolding get_health get_events get_channels post_ack post_channels
route w r path query app = elim (r.method) [
  | get_method ↦
      if path =b codes "/api/health"
      then get_health w app
      else if path =b codes "/api/events"
      then get_events query app
      else if path =b codes "/api/channels"
      then get_channels app
      else not_found app
  | post_method ↦
      if path =b codes "/api/ack"
      then post_ack w r app
      else if path =b codes "/api/channels"
      then post_channels w r app
      else not_found app
  | other_method ↦ not_found app
]

unfoldable pub handle : World → Request → Bytes → Bytes → App → App × Response
unfolding is_authed route
handle w r path query app =
    if is_authed app.cfg.bearer_token r
    then route w r path query app
    else (app, json 401 (codes "{\"error\":\"unauthorized\"}"))
