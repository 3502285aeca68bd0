-- ===== src/Callback/Kept.antt =====
-- A request to src/callback.rs leaves the registry, and its file, in a state from which a restart can
-- go on; so the renewal thread may have any requests in between.
use yt_websub.Prelude.{
  ℕ, ◌≤◌, some, ◌≡◌, inl, inr, refl, sym, ap, ◌∙◌, subst, arith, Bytes, Option-cases,
}
use yt_websub.Prelude.Maps.{get}
use yt_websub.Text.Number.{max_u64}
use yt_websub.Subs.{Sub, Registry, update, forget_unsub, sweep_unsub}
use yt_websub.Subs.Rows.{save}
use yt_websub.Subs.Row.{IsSub}
use yt_websub.Subs.Kept.{IsKept, save-IsKept, update-IsKept, forget_unsub-IsKept}
use yt_websub.Renew.Due.{Hub}
use yt_websub.Renew.Fresh.{KeepsFree, update-KeepsFree}
use yt_websub.Renew.Preserved.{Keeps}
use yt_websub.App.{App, Request}
use yt_websub.Callback.{World, activate, activated, granted, handle}
use yt_websub.Callback.Between.{Visit, visited}
use yt_websub.Callback.Keeps.{
  Outcome, unchanged, renewed, forgot, noted, handle-Outcome, granted-le, activated-IsFree,
  activate-none, activate-some,
}

activated-IsSub :
    (now lease : ℕ) (s : Sub) → lease ≤ max_u64 → IsSub s → IsSub (activated now lease s)
unfolding activated
activated-IsSub now lease s fits good = record {
  channel_graphic = good.channel_graphic;
  token_graphic = good.token_graphic;
  topic_graphic = good.topic_graphic;
  secret_graphic = good.secret_graphic;
  state_graphic = omega arith;
  lease_fits = fits;
  expires_fits = omega arith;
  last_fits = good.last_fits;
  fails_fit = omega arith;
  next_fits = omega arith;
  error_utf8 = good.error_utf8;
}

-- What a request leaves of a registry: it is kept, and no token is given out.
abbrev pub Leaves : Registry → Registry → Type 0
Leaves before after = IsKept after × KeepsFree (before.token_map) (after.token_map)

module _ (w : World) (lease : ℕ) (c : Bytes) (app : App) (kept : IsKept (app.subs))
    (fits : lease ≤ max_u64) where
  update-Leaves :
      (s : Sub)
      → get c (app.subs.sub_map) ≡ some s
      → Leaves (app.subs) (save (w.saves) (update (activated (w.now) lease s) (app.subs)))
  unfolding activated
  update-Leaves s e =
      let u = activated (w.now) lease s in
      let keyed = kept.sound.indexed.keyed c s e in
      (
        save-IsKept (w.saves) (update u (app.subs)) (
            update-IsKept u (app.subs) kept (activated-IsFree w lease (app.subs) c s (kept.sound) e)
              (activated-IsSub (w.now) lease s fits (kept.fits c s e))),
        update-KeepsFree u s (app.subs) (kept.sound)
            (ap (λ (x : Bytes). get x (app.subs.sub_map)) keyed ∙ e) refl,
      )

  activate-Leaves : Leaves (app.subs) ((activate w lease c app).subs)
  activate-Leaves = elim (Option-cases (get c (app.subs.sub_map))) [
    | inl n ↦
        subst (λ (x : App). Leaves (app.subs) (x.subs)) (sym (activate-none w lease c app n))
          (kept, λ t h. h)
    | inr (s, e) ↦
        subst (Leaves (app.subs)) (sym (activate-some w lease c app s e)) (update-Leaves s e)
  ]

module _ (w : World) (query : Bytes) (app : App) (kept : IsKept (app.subs))
    (fits : app.cfg.lease_seconds ≤ max_u64) where
  granted_fits : granted (app.cfg.lease_seconds) query ≤ max_u64
  granted_fits = omega (arith, granted-le (app.cfg.lease_seconds) query)

  Outcome-Leaves : (after : App) → Outcome w query app after → Leaves (app.subs) (after.subs)
  unfolding forget_unsub sweep_unsub
  Outcome-Leaves _ unchanged = (kept, λ t h. h)
  Outcome-Leaves _ (renewed c) = activate-Leaves w _ c app kept granted_fits
  Outcome-Leaves _ (forgot t) = (forget_unsub-IsKept t (w.now) (app.subs) kept, λ t h. h)
  Outcome-Leaves _ (noted after) = (kept, λ t h. h)

  pub handle-Leaves :
      (seen : Registry) (r : Request) (token : Bytes)
      → Leaves (app.subs) ((handle w seen r token query app).0.subs)
  handle-Leaves seen r token =
      Outcome-Leaves ((handle w seen r token query app).0) (handle-Outcome w query app seen r token)

-- The requests of the hub, whatever they hold, are such as the renewal thread may have in between.
pub visited-Keeps :
    (h : Hub) (visits : ℕ → Visit) (app : App)
    → app.cfg.lease_seconds ≤ max_u64
    → Keeps IsKept (record h { meanwhile = λ i r. visited (visits i) app r })
unfolding visited
visited-Keeps h visits app fits i r kept =
    let v = visits i in
    handle-Leaves (v.world) (v.query) (record app { subs = r }) kept fits (v.seen) (v.request)
      (v.token)
