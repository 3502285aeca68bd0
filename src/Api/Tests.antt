-- ===== src/Api/Tests.antt =====
-- The interface of src/api.rs at concrete requests.
use yt_websub.Prelude.{
  ℕ, Bool, true, false, none, some, Option, List, [], ◌∷◌, ◌++◌, ◌≡◌, refl, arith, not-ltb→le, ◌≤◌,
  Bytes, codes, All, length, if◌then◌else◌, keep, all, any,
}
use yt_websub.Text.Pieces.{lines}
use yt_websub.Text.Utf8.{is_utf8, next}
use yt_websub.Util.Atomic
use yt_websub.Subs.{Sub}
use yt_websub.Renew.Desired.{contains, entry_lines}
use yt_websub.Renew.Has.{has}
use yt_websub.Renew.HubTests.{hub, hub-KeepsChannels, random, no_net}
use yt_websub.Store.Rewrite.{compacted}
use yt_websub.Renew.Loop.{Tick, Loop, run_tick, followed_has, run_tick-follows}
use yt_websub.Resolve.Cache.{written_whole}
use yt_websub.App.{App, Request, post_method, json}
use yt_websub.Callback.Tests.{sub0, registry0, app_of, registry0-IsKeyed}
use yt_websub.Api.{World, is_authed, handle, route, get_channels}
use yt_websub.Api.Body.{
  extract_u64, extract_string_array, is_safe_channel_entry, kept_lines, render_channels_file,
  read_body, posted_channels, max_body,
}
use yt_websub.Api.Json.{counts}
use yt_websub.Api.Guard.{has_bearer, handle-guarded}
use yt_websub.Api.Health.{IsCount, counts-IsCount}
use yt_websub.Api.Blind.{get_channels-blind}
use yt_websub.Api.Posted.{IsPosted, is_read, render_channels_file-entries}
use yt_websub.Api.Client.{channels_body, posted_channels-body}
use yt_websub.Api.Ids.{IsId}
use yt_websub.Api.Exact.{handle-posted_ids}

strings_test :
    (extract_string_array (codes "{\"channels\":[\"UCa\",\"@handle\",\" UCb \"]}")
      ≡ codes "UCa" ∷ codes "@handle" ∷ codes "UCb" ∷ [])
    × (extract_string_array (codes "{\"channels\":[\"a]b\",\"c\"]}") ≡ codes "a" ∷ [])
    × (extract_string_array (codes "[\"\\u0040x\"]") ≡ codes "u0040x" ∷ [])
unfolding extract_string_array yt_websub.Prelude.◌=b◌
strings_test = (refl, refl, refl)

through_test :
    (extract_u64 (codes "{\"through\": 42}") (codes "through") ≡ some 42)
    × (extract_u64 (codes "{\"through\":7,\"x\":1}") (codes "through") ≡ some 7)
    × (extract_u64 (codes "{\"x\":1}") (codes "through") ≡ none)
unfolding extract_u64
through_test = (refl, refl, refl)

entry_test :
    (is_safe_channel_entry (codes "@handle") ≡ true)
    × (is_safe_channel_entry (codes "has\ttab") ≡ false)
    × (is_safe_channel_entry [] ≡ false)
unfolding is_safe_channel_entry yt_websub.Prelude.◌=b◌ all
entry_test = (refl, refl, refl)

abbrev pub api_world : World
api_world = record {
  now = 1000;
  uptime = codes "1.5";
  ack_fate = Atomic.succeeds;
  write_fate = Atomic.succeeds;
  write_error = [];
  busy = false;
  fetch = no_net;
  hub = hub;
  random = random;
  cache_write = written_whole;
}

abbrev old_file : Bytes
old_file = codes "# my notes\r\n\nUColdoldoldoldoldoldold0\n"

render_test :
    render_channels_file (some old_file) (codes "UCnew" ∷ []) ≡ codes "# my notes\n\nUCnew\n"
unfolding render_channels_file next keep yt_websub.Prelude.◌=b◌
render_test = refl

abbrev two_ids : List Bytes
two_ids = codes "UCabcdefghijklmnopqrstuv" ∷ codes "UCvutsrqponmlkjihgfedcba" ∷ []

two_ids-All : All IsId two_ids
unfolding yt_websub.Resolve.is_channel_id all
two_ids-All = (refl, (refl, tt))

abbrev pub the_app : App
the_app = record (app_of registry0) { channels = record { target = some old_file; tmp = none } }

abbrev pub client : Request
client = record {
  method = post_method;
  signature = none;
  authorizations = codes "Bearer 0123456789abcdef0123456789abcdef" ∷ [];
  body = channels_body two_ids;
}

pub client_authed : is_authed (the_app.cfg.bearer_token) client ≡ true
unfolding is_authed any
client_authed = refl

old_file-returns : All (yt_websub.Text.Pieces.Lacks b'\r') (kept_lines (some old_file))
unfolding kept_lines next keep yt_websub.Prelude.◌=b◌
old_file-returns = (omega arith, (tt, tt))

two_ids_short : length (channels_body two_ids) ≤ max_body
unfolding yt_websub.Util.Json.json_string yt_websub.Api.Json.commas
two_ids_short = not-ltb→le max_body (length (channels_body two_ids)) refl

handle-posted_ids_example :
    has (codes "UC1") ((handle api_world client (codes "/api/channels") [] the_app).0.subs)
    ≡ contains (codes "UC1") two_ids
handle-posted_ids_example =
    handle-posted_ids api_world client the_app two_ids [] client_authed refl refl two_ids_short
      two_ids-All refl refl old_file-returns hub-KeepsChannels registry0-IsKeyed (codes "UC1")

abbrev some_entries : List Bytes
some_entries = codes "@handle" ∷ codes "#x" ∷ []

some_entries-All : All IsPosted some_entries
unfolding is_safe_channel_entry all yt_websub.Prelude.◌=b◌ yt_websub.Text.Space.trim
some_entries-All =
    (record { safe = refl; trimmed = refl }, (record { safe = refl; trimmed = refl }, tt))

render_channels_file-entries_example :
    entry_lines (lines (render_channels_file (some old_file) some_entries))
    ≡ keep is_read some_entries
render_channels_file-entries_example =
    render_channels_file-entries (some old_file) some_entries old_file-returns some_entries-All

some_short : length (channels_body some_entries) ≤ max_body
unfolding yt_websub.Util.Json.json_string yt_websub.Api.Json.commas
some_short = not-ltb→le max_body (length (channels_body some_entries)) refl

some_utf8 : is_utf8 (channels_body some_entries) ≡ true
unfolding is_utf8 next yt_websub.Util.Json.json_string yt_websub.Api.Json.commas
some_utf8 = refl

posted_channels-body_test : posted_channels (read_body (channels_body some_entries)) ≡ some_entries
posted_channels-body_test =
    posted_channels-body some_entries some_entries-All (omega arith) some_utf8 some_short

counts-IsCount_example :
    IsCount 1000 ((codes "UC1", sub0) ∷ []) (counts 1000 ((codes "UC1", sub0) ∷ []))
counts-IsCount_example = counts-IsCount 1000 ((codes "UC1", sub0) ∷ [])

abbrev other_app : App
other_app = record (app_of registry0) {
  subs =
      yt_websub.Subs.insert (record sub0 { token = codes "ff"; secret = codes "00" })
        yt_websub.Subs.empty;
}

get_channels-blind_example : (get_channels (app_of registry0)).1 ≡ (get_channels other_app).1
unfolding yt_websub.Subs.insert
get_channels-blind_example = get_channels-blind (app_of registry0) other_app refl

handle-guarded_test : handle api_world client (codes "/api/health") [] the_app ≡ (
    if has_bearer (the_app.cfg.bearer_token) (client.authorizations)
    then route api_world client (codes "/api/health") [] the_app
    else (the_app, json 401 (codes "{\"error\":\"unauthorized\"}")))
handle-guarded_test =
    handle-guarded api_world client (codes "/api/health") [] the_app (omega arith) (omega arith, tt)

-- A round of the loop after the file changed.
abbrev tick : Tick
tick = record {
  metadata = some (some 5, 53);
  fetch = no_net;
  hub = hub;
  random = random;
  cache_write = written_whole;
  renewal = hub;
  compaction = compacted;
}

abbrev loop : Loop
loop = record { last_sig = (4, 53); ticks = 59; app = the_app }

run_tick-follows_example :
    has (codes "UC1") ((run_tick tick loop).app.subs) ≡ followed_has tick loop (codes "UC1")
run_tick-follows_example =
    run_tick-follows tick loop hub-KeepsChannels registry0-IsKeyed hub-KeepsChannels (codes "UC1")
