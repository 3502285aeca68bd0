-- ===== src/Callback.antt =====
-- The callback that the hub talks to, src/callback.rs, on the shared state (App).
pub mod Keeps
pub mod Answers
pub mod Between
pub mod Verified
pub mod Kept
pub mod Logged
pub mod Tests
use yt_websub.Prelude.{
  ℕ, suc, ◌+◌, ◌*◌, Bool, true, false, ◌&&◌, ◌||◌, not, Option, none, some, List, [], ◌∷◌, Bytes,
  codes, ◌=b◌, if◌then◌else◌, ◌>>=◌, get_or, min, max, take,
}
use yt_websub.Prelude.Maps.{get}
use yt_websub.Text.Number.{max_u64, parse}
use yt_websub.Text.Utf8.{from_utf8_lossy}
use yt_websub.Util.Query.{query_get}
use yt_websub.Store.{Store, LogFate, append}
use yt_websub.Subs.{Sub, Registry, by_token, update, unsub_topic, forget_unsub}
use yt_websub.Util.Atomic.{Fate}
use yt_websub.Subs.Rows.{save}
use yt_websub.App.{
  App, Method, get_method, post_method, other_method, Request, Response, empty, text,
}
use yt_websub.Sig.{Mac, verify}
use yt_websub.Atom
use yt_websub.Atom.{Entry}

-- What comes from outside in a request: the clock, the end of the `save` of subs.tsv, and for each
-- append the clock and the end of its write.
pub record World : Type 0 where
  pub mac : Mac
  pub now : ℕ
  pub saves : Fate
  pub appends : ℕ → LogFate × ℕ

abbrev pub max_body : ℕ
max_body = 4 * 1024 * 1024

-- `query_get(query, key).unwrap_or_default()`
unfoldable pub param : Bytes → Bytes → Bytes
unfolding query_get
param query key = get_or (query_get query key) []

unfoldable pub confirms : Bytes → Bytes → Bool
unfolding param
confirms query topic =
    param query (codes "hub.mode") =b codes "unsubscribe"
    && topic =b param query (codes "hub.topic")
    && not (param query (codes "hub.challenge") =b [])

unfoldable pub finish_unsubscribe : ℕ → Bytes → Bytes → App → App × Response
unfolding unsub_topic confirms forget_unsub param
finish_unsubscribe now token query app = elim (unsub_topic token now (app.subs)) [
  | none ↦ (app, empty 404)
  | some topic ↦
      if confirms query topic
      then (
        record app { subs = forget_unsub token now (app.subs) },
        text (param query (codes "hub.challenge")),
      )
      else (app, empty 404)
]

-- `requested.min(cfg.lease_seconds.max(1))`
unfoldable pub granted : ℕ → Bytes → ℕ
unfolding query_get parse
granted configured query =
    min (get_or (query_get query (codes "hub.lease_seconds") >>= parse max_u64) configured)
      (max configured 1)

unfoldable pub activated : ℕ → ℕ → Sub → Sub
activated now lease s = record s {
  state = codes "active";
  lease_seconds = lease;
  expires_at = min max_u64 (now + lease);
  fail_count = 0;
  next_attempt_at = 0;
}

-- The registry once the subscription is active, and saved.
unfoldable pub activate : World → ℕ → Bytes → App → App
unfolding get update activated
activate w lease channel app = elim (get channel (app.subs.sub_map)) [
  | none ↦ app
  | some s ↦ record app { subs = save w.saves (update (activated (w.now) lease s) (app.subs)) }
]

-- A topic or a token that is not the subscription's, or no challenge.
unfoldable pub mismatches : Sub → Bytes → Bool
unfolding param
mismatches s query =
    not (param query (codes "hub.topic") =b s.topic)
    || param query (codes "hub.challenge") =b []
    || (not (param query (codes "hub.verify_token") =b [])
        && not (param query (codes "hub.verify_token") =b s.token))

unfoldable pub handle_verify : World → Sub → Bytes → App → App × Response
unfolding param mismatches activate granted
handle_verify w s query app =
    if mismatches s query
    then (app, empty 404)
    else if param query (codes "hub.mode") =b codes "subscribe"
    then (
      activate w (granted (app.cfg.lease_seconds) query) (s.channel_id) app,
      text (param query (codes "hub.challenge")),
    )
    else if param query (codes "hub.mode") =b codes "unsubscribe"
    then (app, text (param query (codes "hub.challenge")))
    else (app, empty 404)

-- The loop over the entries; an append that fails is logged and the next one is tried. `i` numbers
-- the appends.
unfoldable pub append_entries : World → ℕ → Bytes → List Entry → Store → Store
unfolding append
append_entries w i channel [] s = s
append_entries w i channel (e ∷ more) s = append_entries w (suc i) channel more (
    (append ((w.appends i).0) ((w.appends i).1) (e.kind) channel (e.video_id) (e.ts) (e.title) s).0)

unfoldable pub is_signed : Mac → Sub → Request → Bool
unfolding verify
is_signed mac s r = elim (r.signature) [
  | none ↦ false
  | some h ↦ verify mac (s.secret) (take max_body (r.body)) h
]

unfoldable pub handle_notify : World → Sub → Request → App → App × Response
unfolding is_signed append_entries from_utf8_lossy Atom.parse
handle_notify w s r app = if not (is_signed (w.mac) s r) then (app, empty 204) else (
  record app {
    store =
        append_entries w 0 (s.channel_id) (Atom.parse (from_utf8_lossy (take max_body (r.body))))
          (app.store);
  },
  empty 204,
)

unfoldable pub serve : World → Sub → Request → Bytes → App → App × Response
unfolding handle_verify handle_notify
serve w s r query app = elim (r.method) [
  | get_method ↦ handle_verify w s query app
  | post_method ↦ handle_notify w s r app
  | other_method ↦ (app, empty 405)
]

-- `seen` is the registry at the first lock; `app` is the state at the next, before which other
-- threads may have run.
unfoldable pub handle : World → Registry → Request → Bytes → Bytes → App → App × Response
unfolding by_token finish_unsubscribe serve
handle w seen r token query app = elim (by_token token seen) [
  | none ↦ finish_unsubscribe (w.now) token query app
  | some s ↦ serve w s r query app
]
