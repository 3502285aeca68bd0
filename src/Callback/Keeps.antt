-- ===== src/Callback/Keeps.antt =====
-- What the callback of src/callback.rs does to the registry: it stays sound, and no lease becomes
-- longer than was asked for.
use mathlib.Core.Option.{some-injective}
use yt_websub.Prelude.{
  ℕ, ◌+◌, ◌≤◌, Bool, true, false, none, some, ◌≡◌, ◌⊎◌, inl, inr, refl, sym, ◌∙◌, subst, arith,
  Bytes, codes, ◌=b◌, if◌then◌else◌, Option-cases, max, not,
}
use yt_websub.Store.{Store}
use yt_websub.Prelude.Maps.{get, get-put-inv}
use yt_websub.Subs.{Sub, Registry, by_token, update, forget_unsub, unsub_topic}
use yt_websub.Subs.Rows.{save}
use yt_websub.Subs.Index.{IsFree}
use yt_websub.Subs.Life.{IsSound, save-IsSound, update-IsSound, forget_unsub-IsSound}
use yt_websub.App.{App, Request, Response, Method, get_method, post_method, other_method}
use yt_websub.Callback.{
  World, param, confirms, finish_unsubscribe, granted, activated, activate, mismatches,
  handle_verify, handle_notify, is_signed, serve, handle,
}

pub granted-le : (configured : ℕ) (query : Bytes) → granted configured query ≤ max configured 1
unfolding granted
granted-le configured query = ground arith

pub activated-IsFree :
    (w : World) (lease : ℕ) (r : Registry) (c : Bytes) (s : Sub)
    → IsSound r
    → get c (r.sub_map) ≡ some s
    → IsFree (activated (w.now) lease s) (r.token_map)
unfolding activated
activated-IsFree w lease r c s sound h d k =
    sound.indexed.keyed c s h ∙ some-injective _ _ (sym (sound.indexed.pointed c s h) ∙ k)

activate-IsSound :
    (w : World) (lease : ℕ) (c : Bytes) (app : App)
    → IsSound (app.subs)
    → IsSound ((activate w lease c app).subs)
unfolding activate
activate-IsSound w lease c app sound = elim (Option-cases (get c (app.subs.sub_map))) [
  | inl n ↦ rw (activate, n) sound
  | inr (s, e) ↦
      rw (activate, e)
        (save-IsSound (w.saves) (update (activated (w.now) lease s) (app.subs)) (
          update-IsSound (activated (w.now) lease s) (app.subs) sound
            (activated-IsFree w lease (app.subs) c s sound e)))
]

-- The ways in which a request can leave the state.
pub data Outcome (w : World) (query : Bytes) (app : App) : App → Type 0 where
  unchanged : Outcome w query app app
  renewed :
      (c : Bytes) → Outcome w query app (activate w (granted (app.cfg.lease_seconds) query) c app)
  forgot :
      (t : Bytes) → Outcome w query app (record app { subs = forget_unsub t (w.now) (app.subs) })
  noted : (after : Store) → Outcome w query app (record app { store = after })

pub method-cases : (m : Method) → (m ≡ get_method) ⊎ ((m ≡ post_method) ⊎ (m ≡ other_method))
method-cases get_method = inl refl
method-cases post_method = inr (inl refl)
method-cases other_method = inr (inr refl)

module _ (w : World) (query : Bytes) (app : App) where
  either :
      (b : Bool) (x y : App × Response)
      → Outcome w query app (x.0)
      → Outcome w query app (y.0)
      → Outcome w query app ((if b then x else y).0)
  either true x y h k = h
  either false x y h k = k

  finish_unsubscribe-Outcome :
      (token : Bytes) → Outcome w query app ((finish_unsubscribe (w.now) token query app).0)
  unfolding finish_unsubscribe
  finish_unsubscribe-Outcome token = elim (Option-cases (unsub_topic token (w.now) (app.subs))) [
    | inl n ↦ rw (finish_unsubscribe, n) unchanged
    | inr (topic, e) ↦
        rw (finish_unsubscribe, e) (either (confirms query topic) _ _ (forgot token) unchanged)
  ]

  handle_verify-Outcome : (s : Sub) → Outcome w query app ((handle_verify w s query app).0)
  unfolding handle_verify
  handle_verify-Outcome s = either (mismatches s query) _ _ unchanged (
      either (param query (codes "hub.mode") =b codes "subscribe") _ _ (renewed (s.channel_id))
        (either (param query (codes "hub.mode") =b codes "unsubscribe") _ _ unchanged unchanged))

  handle_notify-Outcome :
      (s : Sub) (r : Request) → Outcome w query app ((handle_notify w s r app).0)
  unfolding handle_notify
  handle_notify-Outcome s r = either (not (is_signed (w.mac) s r)) _ _ unchanged (noted _)

  serve-Outcome : (s : Sub) (r : Request) → Outcome w query app ((serve w s r query app).0)
  unfolding serve
  serve-Outcome s r = elim (method-cases (r.method)) [
    | inl e ↦ rw (serve, e) (handle_verify-Outcome s)
    | inr (inl e) ↦ rw (serve, e) (handle_notify-Outcome s r)
    | inr (inr e) ↦ rw (serve, e) unchanged
  ]

  pub handle-Outcome :
      (seen : Registry) (r : Request) (token : Bytes)
      → Outcome w query app ((handle w seen r token query app).0)
  unfolding handle
  handle-Outcome seen r token = elim (Option-cases (by_token token seen)) [
    | inl n ↦ rw (handle, n) (finish_unsubscribe-Outcome token)
    | inr (s, e) ↦ rw (handle, e) (serve-Outcome s r)
  ]

outcome-IsSound :
    (w : World) (query : Bytes) (app app' : App)
    → Outcome w query app app'
    → IsSound (app.subs)
    → IsSound (app'.subs)
outcome-IsSound w query app _ unchanged sound = sound
outcome-IsSound w query app _ (renewed c) sound = activate-IsSound w _ c app sound
outcome-IsSound w query app _ (forgot t) sound = forget_unsub-IsSound t (w.now) (app.subs) sound
outcome-IsSound w query app _ (noted after) sound = sound

-- A request, whatever it holds and whatever other threads did since its token was looked up, leaves
-- a sound registry sound: the token index is right and no channel is there twice.
pub handle-IsSound :
    (w : World) (seen : Registry) (r : Request) (token query : Bytes) (app : App)
    → IsSound (app.subs)
    → IsSound ((handle w seen r token query app).0.subs)
handle-IsSound w seen r token query app sound =
    outcome-IsSound w query app _ (handle-Outcome w query app seen r token) sound

-- A lease that the callback may set.
abbrev pub IsGranted : ℕ → ℕ → Sub → Type 0
IsGranted configured now s =
    (s.lease_seconds ≤ max configured 1)
    × (s.expires_at ≤ now + s.lease_seconds)
    × (s.state ≡ codes "active")

activated-IsGranted :
    (configured now lease : ℕ) (s : Sub)
    → lease ≤ max configured 1
    → IsGranted configured now (activated now lease s)
unfolding activated
activated-IsGranted configured now lease s h = (h, omega arith, refl)

pub activate-none :
    (w : World) (lease : ℕ) (c : Bytes) (app : App)
    → get c (app.subs.sub_map) ≡ none
    → activate w lease c app ≡ app
unfolding activate
activate-none w lease c app n = rw (activate, n) refl

pub activate-some :
    (w : World) (lease : ℕ) (c : Bytes) (app : App) (s : Sub)
    → get c (app.subs.sub_map) ≡ some s
    → (activate w lease c app).subs ≡ save (w.saves) (update (activated (w.now) lease s) (app.subs))
unfolding activate
activate-some w lease c app s e = rw (activate, e) refl

updated_sub :
    (configured now : ℕ) (d : Bytes) (r : Registry) (s s' : Sub)
    → IsGranted configured now s
    → get d ((update s r).sub_map) ≡ some s'
    → (get d (r.sub_map) ≡ some s') ⊎ IsGranted configured now s'
unfolding update
updated_sub configured now d r s s' g k = elim (get-put-inv d _ s s' (r.sub_map) k) [
  | inl (_, e) ↦ inr (subst (IsGranted configured now) e g)
  | inr (_, h) ↦ inl h
]

activate-IsGranted :
    (w : World) (lease configured : ℕ) (c d : Bytes) (app : App) (s' : Sub)
    → lease ≤ max configured 1
    → get d ((activate w lease c app).subs.sub_map) ≡ some s'
    → (get d (app.subs.sub_map) ≡ some s') ⊎ IsGranted configured (w.now) s'
activate-IsGranted w lease configured c d app s' h k =
    elim (Option-cases (get c (app.subs.sub_map))) [
      | inl n ↦
          inl (
            subst (λ (x : App). get d (x.subs.sub_map) ≡ some s') (activate-none w lease c app n) k)
      | inr (s, e) ↦
          updated_sub configured (w.now) d (app.subs) (activated (w.now) lease s) s'
            (activated-IsGranted configured (w.now) lease s h)
            (subst (λ (x : Registry). get d (x.sub_map) ≡ some s') (activate-some w lease c app s e)
              k)
    ]

outcome-IsGranted :
    (w : World) (query : Bytes) (app app' : App) (d : Bytes) (s' : Sub)
    → Outcome w query app app'
    → get d (app'.subs.sub_map) ≡ some s'
    → (get d (app.subs.sub_map) ≡ some s') ⊎ IsGranted (app.cfg.lease_seconds) (w.now) s'
unfolding forget_unsub
outcome-IsGranted w query app _ d s' unchanged k = inl k
outcome-IsGranted w query app _ d s' (renewed c) k =
    activate-IsGranted w _ (app.cfg.lease_seconds) c d app s'
      (granted-le (app.cfg.lease_seconds) query) k
outcome-IsGranted w query app _ d s' (forgot t) k = inl k
outcome-IsGranted w query app _ d s' (noted after) k = inl k

-- Whatever a request asks for, a subscription that it changes becomes active with a lease no longer
-- than the configured one (of a second at least), which ends no later than the lease from now on.
pub handle-IsGranted :
    (w : World) (seen : Registry) (r : Request) (token query : Bytes) (app : App) (d : Bytes)
    (s' : Sub)
    → get d ((handle w seen r token query app).0.subs.sub_map) ≡ some s'
    → (get d (app.subs.sub_map) ≡ some s') ⊎ IsGranted (app.cfg.lease_seconds) (w.now) s'
handle-IsGranted w seen r token query app d s' k =
    outcome-IsGranted w query app _ d s' (handle-Outcome w query app seen r token) k
