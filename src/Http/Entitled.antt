-- ===== src/Http/Entitled.antt =====
-- What a request can change without the bearer token and without the hub's signature, over src/http.rs,
-- src/api.rs and src/callback.rs.
use yt_websub.Prelude.{
  ℕ, true, false, ◌≡◌, ◌⊎◌, inl, inr, refl, sym, ap, ◌∙◌, subst, Bytes, codes, Bool-cases,
  Option-cases, All,
}
use yt_websub.Prelude.Maps.{get}
use yt_websub.Text.Pieces.{strip_prefix, starts_with, trim_end_matches}
use yt_websub.Util.Hex.{IsByte}
use yt_websub.Subs.{Registry}
use yt_websub.Renew.Expire.{IsKeyed}
use yt_websub.Callback.Between.{Outcome-HasSame}
use yt_websub.Renew.Has.{has}
use yt_websub.App.{App, Request, Response}
use yt_websub.Callback
use yt_websub.Callback.{activate, activated, granted}
use yt_websub.Callback.Keeps.{Outcome, unchanged, renewed, forgot, noted, handle-Outcome}
use yt_websub.Callback.Answers.{IsSigned, handle-IsSigned}
use yt_websub.Api
use yt_websub.Api.Guard.{has_bearer, handle-guarded}
use yt_websub.Http.{split_url, dispatch, handle}

-- The files of channels and of the cache and the cache are the same, and so are the channels of the
-- registry.
pub record KeepsSubscribed (app after : App) : Type 0 where
  pub channels : after.channels ≡ app.channels
  pub cache : after.resolve_cache ≡ app.resolve_cache
  pub cache_file : after.cache_file ≡ app.cache_file
  pub subscribed : (c : Bytes) → has c after.subs ≡ has c app.subs

-- So is the event log.
pub record KeepsAll (app after : App) : Type 0 where
  pub store : after.store ≡ app.store
  pub rest : KeepsSubscribed app after

same_app : (app : App) → KeepsSubscribed app app
same_app app = record { channels = refl; cache = refl; cache_file = refl; subscribed = λ c. refl }

module _ (w : Callback.World) (query : Bytes) (app : App) where
  activate_rest :
      (lease : ℕ) (c : Bytes)
      → ((activate w lease c app).channels ≡ app.channels)
        × ((activate w lease c app).resolve_cache ≡ app.resolve_cache)
        × ((activate w lease c app).cache_file ≡ app.cache_file)
  unfolding activate
  activate_rest lease c = elim (Option-cases (get c app.subs.sub_map)) [
    | inl n ↦ rw (activate, n) (refl, refl, refl)
    | inr (s, e) ↦ rw (activate, e) (refl, refl, refl)
  ]

  Outcome_rest :
      (after : App)
      → Outcome w query app after
      → (after.channels ≡ app.channels)
        × (after.resolve_cache ≡ app.resolve_cache)
        × (after.cache_file ≡ app.cache_file)
  Outcome_rest _ unchanged = (refl, refl, refl)
  Outcome_rest _ (renewed c) = activate_rest _ c
  Outcome_rest _ (forgot t) = (refl, refl, refl)
  Outcome_rest _ (noted s) = (refl, refl, refl)

  Outcome-KeepsSubscribed :
      IsKeyed app.subs.sub_map
      → (after : App) → Outcome w query app after
      → KeepsSubscribed app after
  Outcome-KeepsSubscribed keyed after o = record {
    channels = (Outcome_rest after o).0;
    cache = (Outcome_rest after o).1;
    cache_file = (Outcome_rest after o).2;
    subscribed = (Outcome-HasSame w query app keyed after o).same;
  }

-- Who may change what: the client with the token, and the hub with a signature.
abbrev pub IsEntitled : Callback.World → Registry → Request → App → Type 0
IsEntitled w seen r app =
    (has_bearer app.cfg.bearer_token r.authorizations ≡ true)
    ⊎ ((token : Bytes) × IsSigned w seen r token)

module _ (w : Callback.World) (seen : Registry) (v : Api.World) (r : Request) (app : App)
    (keyed : IsKeyed app.subs.sub_map) (token_bytes : All IsByte app.cfg.bearer_token)
    (header_bytes : All (All IsByte) r.authorizations) where
  callback-IsEntitled :
      (token query : Bytes)
      → KeepsAll app (Callback.handle w seen r token query app).0 ⊎ IsEntitled w seen r app
  callback-IsEntitled token query = elim (handle-IsSigned w seen r token query app) [
    | inr signed ↦ inr (inr (token, signed))
    | inl same ↦ inl (record {
      store = same;
      rest = Outcome-KeepsSubscribed w query app keyed _ (handle-Outcome w query app seen r token);
    })
  ]

  api_refused :
      (path query : Bytes)
      → has_bearer app.cfg.bearer_token r.authorizations ≡ false
      → (Api.handle v r path query app).0 ≡ app
  api_refused path query e =
      ap (λ (x : App × Response). x.0) (handle-guarded v r path query app token_bytes header_bytes)
      ∙ rw e refl

  api-IsEntitled :
      (path query : Bytes)
      → KeepsAll app (Api.handle v r path query app).0 ⊎ IsEntitled w seen r app
  api-IsEntitled path query = elim (Bool-cases (has_bearer app.cfg.bearer_token r.authorizations)) [
    | inl e ↦ inr (inl e)
    | inr e ↦ inl (
        subst (KeepsAll app) (sym (api_refused path query e))
          (record { store = refl; rest = same_app app }))
  ]

  dispatch-IsEntitled :
      (path query : Bytes)
      → KeepsAll app (dispatch w seen v r path query app).0 ⊎ IsEntitled w seen r app
  unfolding dispatch
  dispatch-IsEntitled path query = elim (Option-cases (strip_prefix (codes "/yt/cb/") path)) [
    | inr (token, e) ↦ rw (dispatch, e) (callback-IsEntitled (trim_end_matches b'/' token) query)
    | inl n ↦ elim (Bool-cases (starts_with (codes "/api/") path)) [
      | inl e ↦ rw (dispatch, n, e) (api-IsEntitled path query)
      | inr e ↦ rw (dispatch, n, e) (inl (record { store = refl; rest = same_app app }))
    ]
  ]

  -- Whatever the URL and the body, a request leaves the event log, the file of channels, the cache
  -- and the channels of a registry that has each under its key as they are, unless one of its
  -- Authorization headers has the bearer token, or it is a notification that is signed with the
  -- secret of a subscription.
  pub handle-IsEntitled :
      (url : Bytes) → KeepsAll app (handle w seen v r url app).0 ⊎ IsEntitled w seen r app
  unfolding handle
  handle-IsEntitled url = dispatch-IsEntitled (split_url url).0 (split_url url).1
