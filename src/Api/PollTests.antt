-- ===== src/Api/PollTests.antt =====
-- A poll and an acknowledgement of src/api.rs.
use yt_websub.Prelude.{min, [], ◌≡◌, refl, arith, codes, true, any}
use yt_websub.Util.Query.{query_text}
use yt_websub.Store.{events_after, max_seq, set_ack}
use yt_websub.App.{Request, get_method, json}
use yt_websub.Api.{handle, is_authed}
use yt_websub.Api.Json.{events_json}
use yt_websub.Api.Poll.{ack_body, poll_query, handle-acked, handle-polled}
use yt_websub.Api.Tests.{api_world, client, the_app}

abbrev acking : Request
acking = record client { body = ack_body 7 }

acking_authed : is_authed (the_app.cfg.bearer_token) acking ≡ true
unfolding is_authed any
acking_authed = refl

handle-acked_example :
    (handle api_world acking (codes "/api/ack") [] the_app).0
    ≡ record the_app { store = set_ack (api_world.ack_fate) 7 (the_app.store) }
handle-acked_example =
    handle-acked api_world acking the_app acking_authed [] 7 refl refl (omega arith)

abbrev polling : Request
polling = record client { method = get_method }

polling_authed : is_authed (the_app.cfg.bearer_token) polling ≡ true
unfolding is_authed any
polling_authed = refl

handle-polled_example :
    handle api_world polling (codes "/api/events") (query_text (poll_query 3 5000)) the_app ≡ (
      the_app,
      json 200
          (events_json (events_after 3 (min 5000 2000) (the_app.store)) (max_seq (the_app.store))),
    )
handle-polled_example =
    handle-polled api_world polling the_app polling_authed 3 5000 refl (omega arith) (omega arith)
