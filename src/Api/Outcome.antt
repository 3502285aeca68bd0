-- ===== src/Api/Outcome.antt =====
-- The ways in which a request to src/api.rs can leave the state.
use yt_websub.Prelude.{
  ℕ, Bool, true, false, inl, inr, Bytes, codes, ◌=b◌, if◌then◌else◌, Bool-cases, get_or,
}
use yt_websub.Util.Atomic.{Slot, write_atomic}
use yt_websub.Store.{set_ack}
use yt_websub.App.{App, Request, Response}
use yt_websub.Callback.Keeps.{method-cases}
use yt_websub.Api.{
  World, reconciled, try_reconcile, is_authed, get_health, get_events, get_channels, post_ack,
  answer_posted, answer_written, post_channels, route, handle,
}
use yt_websub.Api.Body.{read_body, extract_u64, posted_channels, render_channels_file}

-- The number that a request acknowledges.
unfoldable pub acked : Request → ℕ
unfolding read_body extract_u64
acked r = get_or (extract_u64 (read_body r.body) (codes "through")) 0

-- The file of channels after a POST.
unfoldable pub posted_files : World → Request → App → Slot
unfolding read_body posted_channels render_channels_file write_atomic
posted_files w r app =
    (write_atomic w.write_fate
      (render_channels_file app.channels.target (posted_channels (read_body r.body)))
      app.channels).0

-- What holds of the state, of it after an acknowledgement, after channels.txt is written, and after a
-- reconcile on that, holds after every request.
module _ (w : World) (r : Request) (app : App) (P : App → Type 0) (same : P app)
    (after_ack : P (record app { store = set_ack w.ack_fate (acked r) app.store }))
    (written : P (record app { channels = posted_files w r app }))
    (after_reconcile : P (reconciled w (record app { channels = posted_files w r app })).0) where
  either : (b : Bool) (x y : App × Response) → P (x.0) → P (y.0) → P ((if b then x else y).0)
  either true x y h k = h
  either false x y h k = k

  posted :
      P
        (answer_posted
          (record app { channels = posted_files w r app })
          (try_reconcile w (record app { channels = posted_files w r app }))).0
  unfolding answer_posted try_reconcile posted_files
  posted = elim (Bool-cases w.busy) [
    | inl e ↦ rw (try_reconcile, e) written
    | inr e ↦ rw (try_reconcile, e) after_reconcile
  ]

  answered : (ok : Bool) → P (answer_written w app (posted_files w r app, ok)).0
  unfolding answer_written
  answered true = posted
  answered false = written

  handle_post : P (post_channels w r app).0
  unfolding post_channels posted_files
  handle_post = answered (
      (write_atomic w.write_fate
        (render_channels_file app.channels.target (posted_channels (read_body r.body)))
        app.channels).1)

  pub handle-outcome : (path query : Bytes) → P (handle w r path query app).0
  unfolding handle route get_health get_events get_channels post_ack acked
  handle-outcome path query =
      either (is_authed app.cfg.bearer_token r) _ _
        (elim (method-cases r.method) [
          | inl e ↦
              rw (route, e)
                (either (path =b codes "/api/health") _ _ same (
                  either (path =b codes "/api/events") _ _ same
                    (either (path =b codes "/api/channels") _ _ same same)))
          | inr (inl e) ↦
              rw (route, e)
                (either (path =b codes "/api/ack") _ _ after_ack
                  (either (path =b codes "/api/channels") _ _ handle_post same))
          | inr (inr e) ↦ rw (route, e) same
        ])
        same
