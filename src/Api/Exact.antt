-- ===== src/Api/Exact.antt =====
-- A POST of channels from the request to the registry: src/api.rs, src/resolve.rs and src/renew.rs
-- together.
use yt_websub.Prelude.{
  ℕ, ◌≤◌, ◌<◌, Bool, true, false, Option, none, some, List, ◌++◌, ◌≡◌, refl, ap, ◌∙◌, arith, Bytes,
  codes, if◌then◌else◌, ◌=b◌, All, All-append, All-map, length, or-nil,
}
use yt_websub.Prelude.Maps.{Table}
use yt_websub.Text.Lines.{IsUtf8}
use yt_websub.Text.Pieces.{Lacks}
use yt_websub.Text.Utf8.{is_utf8, is_utf8-ascii}
use yt_websub.Util.Atomic
use yt_websub.Util.Atomic.{Slot, write_atomic}
use yt_websub.Resolve.{Fetch}
use yt_websub.Renew.Expire.{IsKeyed}
use yt_websub.Renew.Desired.{contains, desired_set}
use yt_websub.Renew.Has.{has}
use yt_websub.Renew.Channels.{KeepsChannels}
use yt_websub.Renew.Wanted.{reconcile_locked-wanted}
use yt_websub.App.{App, Request, Response, post_method}
use yt_websub.Api.{
  World, is_authed, handle, route, post_channels, answer_written, answer_posted, try_reconcile,
  reconciled,
}
use yt_websub.Api.Json.{commas}
use yt_websub.Api.Body.{max_body, kept_lines, posted_channels, read_body, render_channels_file}
use yt_websub.Api.Client.{channels_body, printed, printed-All, posted_channels-body, commas-All}
use yt_websub.Api.Ids.{IsId, id-Lacks, id-ascii, id-IsPosted, keep-ids, resolve_all-ids}
use yt_websub.Api.Posted.{IsPosted, render_channels_file-entries, render_channels_file-utf8}

abbrev IsAscii : ℕ → Type 0
IsAscii b = b < 128

module _ (cs : List Bytes) (ids : All IsId cs) where
  ids-IsPosted : All IsPosted cs
  ids-IsPosted = All-map IsId IsPosted id-IsPosted cs ids

  body-utf8 : is_utf8 (channels_body cs) ≡ true
  body-utf8 = is_utf8-ascii (channels_body cs) (
      All-append IsAscii (codes "{\"channels\":[") (commas (printed cs) ++ codes "]}") (omega arith)
        (All-append IsAscii (commas (printed cs)) (codes "]}")
          (commas-All IsAscii (printed cs) (omega arith) (
            printed-All IsAscii cs (omega arith) (omega arith)
              (All-map IsId (All IsAscii) id-ascii cs ids) ids-IsPosted))
          (omega arith)))

  -- What is posted as ids is read as these ids.
  posted-ids :
      length (channels_body cs) ≤ max_body → posted_channels (read_body (channels_body cs)) ≡ cs
  posted-ids short =
      posted_channels-body cs ids-IsPosted (All-map IsId (Lacks b']') id-Lacks cs ids) body-utf8
        short

  rendered-utf8 : (existing : Option Bytes) → is_utf8 (render_channels_file existing cs) ≡ true
  rendered-utf8 existing =
      render_channels_file-utf8 existing cs
        (All-map IsId IsUtf8 (λ c h. is_utf8-ascii c (id-ascii c h)) cs ids)

  -- The file is read as exactly these ids, all of them resolved.
  desired_set-ids :
      (existing : Option Bytes) (fetch : ℕ → Fetch) (cache : Table Bytes)
      → All (Lacks b'\r') (kept_lines existing)
      → (c : Bytes)
      → ((desired_set fetch (some (render_channels_file existing cs)) cache).complete ≡ true)
        × (contains c ((desired_set fetch (some (render_channels_file existing cs)) cache).channels)
            ≡ contains c cs)
  unfolding desired_set
  desired_set-ids existing fetch cache no_return c =
      let entries =
        render_channels_file-entries existing cs no_return ids-IsPosted ∙ keep-ids cs ids in
      rw (rendered-utf8 existing, entries) (resolve_all-ids fetch c 0 cs _ ids)

-- The state once the file is written.
abbrev written_app : List Bytes → App → App
written_app cs app = record app {
  channels = record { target = some (render_channels_file app.channels.target cs); tmp = none };
}

module _ (w : World) (r : Request) (app : App) (cs : List Bytes) where
  -- A write that succeeds, with no other reconcile running, is followed by a reconcile.
  post_channels-reconciled :
      posted_channels (read_body r.body) ≡ cs
      → w.write_fate ≡ Atomic.succeeds
      → w.busy ≡ false
      → (post_channels w r app).0 ≡ (reconciled w (written_app cs app)).0
  unfolding post_channels write_atomic answer_written answer_posted try_reconcile
  post_channels-reconciled posted fate free =
      ap
        (λ (l : List Bytes).
          (answer_written w app (
            write_atomic w.write_fate (render_channels_file app.channels.target l) app.channels)).0)
        posted
      ∙ ap
          (λ (f : Atomic.Fate).
            (answer_written w app
              (write_atomic f (render_channels_file app.channels.target cs) app.channels)).0)
          fate
      ∙ ap
          (λ (b : Bool).
            (answer_posted (written_app cs app)
              (if b then none else some (reconciled w (written_app cs app)))).0)
          free

  handle-posted :
      (query : Bytes)
      → is_authed app.cfg.bearer_token r ≡ true
      → r.method ≡ post_method
      → handle w r (codes "/api/channels") query app ≡ post_channels w r app
  unfolding handle route ◌=b◌
  handle-posted query authed post = rw (authed, post) refl

  reconciled-has :
      (c : Bytes)
      → All IsId cs
      → All (Lacks b'\r') (kept_lines app.channels.target)
      → KeepsChannels w.hub
      → IsKeyed app.subs.sub_map
      → has c (reconciled w (written_app cs app)).0.subs ≡ contains c cs
  unfolding reconciled
  reconciled-has c ids no_return keeps keyed =
      let (complete, channels) =
        desired_set-ids cs ids app.channels.target w.fetch app.resolve_cache no_return c in
      reconcile_locked-wanted w.hub w.random
        (desired_set w.fetch (written_app cs app).channels.target app.resolve_cache) app.subs keeps
        keyed c
      ∙ rw (complete, channels) (or-nil (contains c cs))

  -- A client that has the token posts channel ids, in at most a megabyte; the file is written and no
  -- other reconcile runs. Then the registry has exactly these channels, whatever it had, whatever the
  -- hub and the net answer, while other threads add and drop no channel and no comment that the file
  -- had holds a carriage return.
  pub handle-posted_ids :
      (query : Bytes)
      → is_authed app.cfg.bearer_token r ≡ true
      → r.method ≡ post_method
      → r.body ≡ channels_body cs
      → length (channels_body cs) ≤ max_body
      → All IsId cs
      → w.write_fate ≡ Atomic.succeeds
      → w.busy ≡ false
      → All (Lacks b'\r') (kept_lines app.channels.target)
      → KeepsChannels w.hub
      → IsKeyed app.subs.sub_map
      → (c : Bytes) → has c (handle w r (codes "/api/channels") query app).0.subs ≡ contains c cs
  handle-posted_ids query authed post body short ids fate free no_return keeps keyed c =
      let posted =
        ap (λ (b : Bytes). posted_channels (read_body b)) body ∙ posted-ids cs ids short in
      ap (λ (x : App × Response). has c x.0.subs) (handle-posted query authed post)
      ∙ ap (λ (a : App). has c a.subs) (post_channels-reconciled posted fate free)
      ∙ reconciled-has c ids no_return keeps keyed
