-- ===== src/Callback/Between.antt =====
-- The callbacks of src/callback.rs that run while src/renew.rs waits for the hub.
use yt_websub.Prelude.{ℕ, ◌≡◌, inl, inr, refl, ap, ◌∙◌, Bytes, Option-cases}
use yt_websub.Prelude.Maps.{get}
use yt_websub.Subs.{Registry, forget_unsub, sweep_unsub}
use yt_websub.Renew.Expire.{IsKeyed}
use yt_websub.Renew.Due.{Hub}
use yt_websub.Renew.Has.{has, has-update, has-found, update-IsKeyed, get-IsKeyed}
use yt_websub.Renew.Channels.{KeepsChannels}
use yt_websub.App.{App, Request}
use yt_websub.Callback.{World, activate, activated, handle}
use yt_websub.Callback.Keeps.{Outcome, unchanged, renewed, forgot, noted, handle-Outcome}

-- The channels of a registry under their keys, and the same as before.
pub record HasSame (before after : Registry) : Type 0 where
  pub keyed : IsKeyed (after.sub_map)
  pub same : (c : Bytes) → has c after ≡ has c before

module _ (w : World) (query : Bytes) (app : App) (keyed : IsKeyed (app.subs.sub_map)) where
  activate-HasSame : (lease : ℕ) (c : Bytes) → HasSame (app.subs) ((activate w lease c app).subs)
  unfolding activate activated
  activate-HasSame lease c = elim (Option-cases (get c (app.subs.sub_map))) [
    | inl n ↦ rw (activate, n) (record { keyed = keyed; same = λ d. refl })
    | inr (s, e) ↦
        rw (activate, e)
          (record {
            keyed = update-IsKeyed (activated (w.now) lease s) (app.subs) keyed;
            same = λ d. has-update d (activated (w.now) lease s) (app.subs) (
                ap (λ (x : Bytes). has x (app.subs)) (get-IsKeyed c s (app.subs.sub_map) keyed e)
                ∙ has-found c s (app.subs) e);
          })
  ]

  pub Outcome-HasSame : (after : App) → Outcome w query app after → HasSame (app.subs) (after.subs)
  unfolding forget_unsub sweep_unsub
  Outcome-HasSame _ unchanged = record { keyed = keyed; same = λ c. refl }
  Outcome-HasSame _ (renewed c) = activate-HasSame _ c
  Outcome-HasSame _ (forgot t) = record { keyed = keyed; same = λ c. refl }
  Outcome-HasSame _ (noted s) = record { keyed = keyed; same = λ c. refl }

-- A request of the hub that comes in between.
pub record Visit : Type 0 where
  pub world : World
  pub seen : Registry
  pub request : Request
  pub token : Bytes
  pub query : Bytes

-- What the request does to the registry.
unfoldable pub visited : Visit → App → Registry → Registry
unfolding handle
visited v app r =
    (handle (v.world) (v.seen) (v.request) (v.token) (v.query) (record app { subs = r })).0.subs

-- While requests of the hub are handled, whatever they hold, no channel comes or goes: a pass of the
-- renewal thread may have one of them in each place where it waits.
pub visited-KeepsChannels :
    (h : Hub) (visits : ℕ → Visit) (app : App)
    → KeepsChannels (record h { meanwhile = λ i r. visited (visits i) app r })
unfolding visited
visited-KeepsChannels h visits app i r keyed =
    let v = visits i in
    let state = record app { subs = r } in
    let after =
      Outcome-HasSame (v.world) (v.query) state keyed _
        (handle-Outcome (v.world) (v.query) state (v.seen) (v.request) (v.token)) in
    (after.keyed, after.same)
