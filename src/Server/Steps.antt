-- ===== src/Server/Steps.antt =====
-- What each step of the process of src/main.rs does to the registry and the configuration.
use mathlib.Core.Option
use mathlib.Core.Option.{some-injective, none-ne-some}
use yt_websub.Prelude.{
  ℕ, ◌≤◌, ◌≡◌, Option, some, inl, inr, refl, sym, ap, ◌∙◌, subst, Bytes, codes, Bool-cases,
  Option-cases, ◌%◌, ◌^◌, ◌+◌,
}
use yt_websub.Prelude.Maps.{get}
use yt_websub.Text.Number.{max_u64}
use yt_websub.Text.Pieces.{strip_prefix, starts_with, trim_end_matches}
use yt_websub.Subs.{Registry}
use yt_websub.Subs.Kept.{IsKept}
use yt_websub.Resolve.{Fetch}
use yt_websub.Resolve.Cache.{WriteEnd}
use yt_websub.Renew.Due.{Hub, renew_due}
use yt_websub.Renew.Desired.{desired_set}
use yt_websub.Renew.Reconcile.{Random, to_add}
use yt_websub.Renew.Fresh.{AreNew}
use yt_websub.Renew.Fits.{IsRandom}
use yt_websub.Renew.Kept.{IsOutside, reconcile_locked-IsKept}
use yt_websub.Renew.Demoted.{renew_due-IsKept}
use yt_websub.Renew.Loop.{
  Loop, Tick, reconcile, run_tick, follow, compacted_app, same_sig, channels_sig, is_compaction,
}
use yt_websub.App.{App, Request}
use yt_websub.Callback
use yt_websub.Callback.{activate}
use yt_websub.Callback.Keeps.{Outcome, unchanged, renewed, forgot, noted, handle-Outcome}
use yt_websub.Callback.Kept.{handle-Leaves}
use yt_websub.Api
use yt_websub.Api.{reconciled}
use yt_websub.Api.Outcome.{handle-outcome, posted_files}
use yt_websub.Http.{split_url, dispatch, handle}
use yt_websub.Server.{IsTicked}

-- The registry and its file are kept, and no lease is configured that does not fit.
pub record IsGood (app : App) : Type 0 where
  pub kept : IsKept app.subs
  pub lease_fits : app.cfg.lease_seconds ≤ max_u64

pub reconcile-IsGood :
    (fetch : ℕ → Fetch) (h : Hub) (random : Random) (ends : WriteEnd) (app : App)
    → IsOutside h
    → IsRandom random
    → AreNew random 0
        (to_add app.subs.sub_map
          ((desired_set fetch app.channels.target app.resolve_cache).channels))
        app.subs.token_map
    → IsGood app
    → IsGood (reconcile fetch h random ends app).0
unfolding reconcile
reconcile-IsGood fetch h random ends app outside bytes fresh good = record {
  kept =
      reconcile_locked-IsKept fetch app.channels.target app.resolve_cache h random app.subs outside
        bytes good.kept fresh;
  lease_fits = good.lease_fits;
}

module _ (w : Callback.World) (query : Bytes) (app : App) where
  activate_cfg : (lease : ℕ) (c : Bytes) → (activate w lease c app).cfg ≡ app.cfg
  unfolding activate
  activate_cfg lease c = elim (Option-cases (get c app.subs.sub_map)) [
    | inl n ↦ rw (activate, n) refl
    | inr (s, e) ↦ rw (activate, e) refl
  ]

  Outcome_cfg : (after : App) → Outcome w query app after → after.cfg ≡ app.cfg
  Outcome_cfg _ unchanged = refl
  Outcome_cfg _ (renewed c) = activate_cfg _ c
  Outcome_cfg _ (forgot t) = refl
  Outcome_cfg _ (noted s) = refl

  callback-IsGood :
      (seen : Registry) (r : Request) (token : Bytes)
      → IsGood app
      → IsGood (Callback.handle w seen r token query app).0
  callback-IsGood seen r token good =
      let after = (Callback.handle w seen r token query app).0 in
      record {
        kept = (handle-Leaves w query app good.kept good.lease_fits seen r token).0;
        lease_fits =
            subst (λ (n : ℕ). n ≤ max_u64)
              (sym (
                ap (λ c. c.lease_seconds)
                  (Outcome_cfg after (handle-Outcome w query app seen r token))))
              good.lease_fits;
      }

-- The token of a callback's URL.
unfoldable pub callback_token : Bytes → Option Bytes
unfolding split_url strip_prefix trim_end_matches
callback_token url =
    Option.map (trim_end_matches b'/') (strip_prefix (codes "/yt/cb/") (split_url url).0)

-- A request at such a URL is the callback's.
pub handle-callback :
    (w : Callback.World) (seen : Registry) (v : Api.World) (r : Request) (url token : Bytes)
    (app : App)
    → callback_token url ≡ some token
    → handle w seen v r url app ≡ Callback.handle w seen r token (split_url url).1 app
unfolding handle dispatch callback_token
handle-callback w seen v r url token app h =
    elim (Option-cases (strip_prefix (codes "/yt/cb/") (split_url url).0)) [
      | inl n ↦ absurd (none-ne-some token (sym (rw (callback_token, n) refl) ∙ h))
      | inr (t, e) ↦
          rw (dispatch, e)
            (ap (λ (x : Bytes). Callback.handle w seen r x (split_url url).1 app)
              (some-injective (trim_end_matches b'/' t) token
                (sym (rw (callback_token, e) refl) ∙ h)))
    ]

module _ (P : App → Type 0) (w : Callback.World) (seen : Registry) (v : Api.World) (r : Request)
    (app : App) (same : P app) (url : Bytes)
    (callback : (token query : Bytes)
      → callback_token url ≡ some token
      → P (Callback.handle w seen r token query app).0)
    (api : (path query : Bytes) → P (Api.handle v r path query app).0) where
  -- A property that callbacks and the interface preserve is preserved by every request.
  pub handle-preserves : P (handle w seen v r url app).0
  unfolding handle dispatch callback_token
  handle-preserves =
      let path = (split_url url).0 in
      let query = (split_url url).1 in
      elim (Option-cases (strip_prefix (codes "/yt/cb/") path)) [
        | inr (token, e) ↦
            rw (dispatch, e)
              (callback (trim_end_matches b'/' token) query (rw (callback_token, e) refl))
        | inl n ↦ elim (Bool-cases (starts_with (codes "/api/") path)) [
          | inl e ↦ rw (dispatch, n, e) (api path query)
          | inr e ↦ rw (dispatch, n, e) same
        ]
      ]

pub served-IsGood :
    (w : Callback.World) (v : Api.World) (seen : Registry) (r : Request) (url : Bytes) (app : App)
    → IsOutside v.hub
    → IsRandom v.random
    → AreNew v.random 0
        (to_add app.subs.sub_map
          ((desired_set v.fetch (posted_files v r app).target app.resolve_cache).channels))
        app.subs.token_map
    → IsGood app
    → IsGood (handle w seen v r url app).0
unfolding reconciled
served-IsGood w v seen r url app outside bytes fresh good =
    handle-preserves IsGood w seen v r app good url
      (λ token query called. callback-IsGood w query app seen r token good)
      (λ path query.
        handle-outcome v r app IsGood good
          (record { kept = good.kept; lease_fits = good.lease_fits })
          (record { kept = good.kept; lease_fits = good.lease_fits })
          (reconcile-IsGood v.fetch v.hub v.random v.cache_write
            (record app { channels = posted_files v r app }) outside bytes fresh
            (record { kept = good.kept; lease_fits = good.lease_fits }))
          path query)

follow-IsGood : (t : Tick) (l : Loop) → IsTicked t l.app → IsGood l.app → IsGood (follow t l)
unfolding follow
follow-IsGood t l world good = elim (Bool-cases (same_sig (channels_sig t.metadata) l.last_sig)) [
  | inl e ↦ rw e good
  | inr e ↦ rw e (
      reconcile-IsGood t.fetch t.hub t.random t.cache_write l.app world.outside world.random
        world.fresh good)
]

compacted-IsGood :
    (t : Tick) (ticks : ℕ) (app : App) → IsGood app → IsGood (compacted_app t ticks app)
unfolding compacted_app
compacted-IsGood t ticks app good = elim (Bool-cases (is_compaction ticks)) [
  | inl e ↦ rw e (record { kept = good.kept; lease_fits = good.lease_fits })
  | inr e ↦ rw e good
]

pub ticked-IsGood :
    (t : Tick) (l : Loop) → IsTicked t l.app → IsGood l.app → IsGood (run_tick t l).app
unfolding run_tick
ticked-IsGood t l world good =
    let followed = follow-IsGood t l world good in
    compacted-IsGood t ((l.ticks + 1) % 2 ^ 64)
      (record (follow t l) { subs = renew_due t.renewal (follow t l).subs })
      (record {
        kept = renew_due-IsKept t.renewal world.renewal (follow t l).subs followed.kept;
        lease_fits = followed.lease_fits;
      })
