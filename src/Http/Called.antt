-- ===== src/Http/Called.antt =====
-- The hub's call of the URL that src/hub.rs told it, through src/http.rs to src/callback.rs.
use yt_websub.Prelude.{
  ℕ, ◌≤◌, some, [], ◌∷◌, ◌++◌, ◌≡◌, ◌≢◌, refl, ap, ◌∙◌, arith, Bytes, codes, All, All-append, min,
  max,
}
use yt_websub.Prelude.Maps.{get}
use yt_websub.Text.Number.{max_u64}
use yt_websub.Text.Pieces.{Lacks, split_once-append, strip_prefix, trim_end_matches}
use yt_websub.Util.Query.{query_text, IsTextPair}
use yt_websub.Config.{Config}
use yt_websub.Subs.{Sub, Registry, by_token}
use yt_websub.Hub.{callback_path}
use yt_websub.App.{App, Request, get_method, text}
use yt_websub.Callback
use yt_websub.Callback.{activated}
use yt_websub.Callback.Verified.{verify_query, handle-verified}
use yt_websub.Api
use yt_websub.Http.{split_url, dispatch, handle}

trim_end_matches-Lacks : (c : ℕ) (s : Bytes) → Lacks c s → trim_end_matches c s ≡ s
unfolding trim_end_matches
trim_end_matches-Lacks c [] h = refl
trim_end_matches-Lacks c (x ∷ []) h = ground arith
trim_end_matches-Lacks c (x ∷ y ∷ s) h = rw (trim_end_matches-Lacks c (y ∷ s) (h.1)) refl

module _ (token : Bytes) (plain : Lacks b'?' token) (no_slash : Lacks b'/' token) where
  split_url-called :
      (query : Bytes)
      → split_url (callback_path token ++ b'?' ∷ query) ≡ (callback_path token, query)
  unfolding split_url
  split_url-called query =
      rw
        (split_once-append b'?' (callback_path token) query
          (All-append (λ b. b ≢ b'?') (codes "/yt/cb/") token (omega arith) plain))
        refl

  -- A call of the path reaches the callback with the token.
  handle-called :
      (w : Callback.World) (seen : Registry) (v : Api.World) (r : Request) (query : Bytes)
      (app : App)
      → handle w seen v r (callback_path token ++ b'?' ∷ query) app
        ≡ Callback.handle w seen r token query app
  unfolding handle dispatch strip_prefix
  handle-called w seen v r query app =
      ap (λ (p : Bytes × Bytes). dispatch w seen v r p.0 p.1 app) (split_url-called query)
      ∙ ap (λ (t : Bytes). Callback.handle w seen r t query app)
          (trim_end_matches-Lacks b'/' token no_slash)

-- The hub that calls the path it was told for a subscription, to ask with the topic and the token it
-- was told whether to subscribe, gets its challenge back; the subscription that then stands at the
-- channel is active, with the lease that the hub gives, no longer than the configured one. The token
-- has no `/` and no `?`, and the query is UTF-8 with a challenge that is not empty.
pub handle-verified_url :
    (cfg : Config) (s : Sub) (challenge : Bytes) (lease : ℕ)
    → Lacks b'?' s.token
    → Lacks b'/' s.token
    → All IsTextPair (verify_query cfg s challenge lease)
    → (w : Callback.World) (seen : Registry) (v : Api.World) (r : Request) (app : App) (cur : Sub)
    → by_token s.token seen ≡ some s
    → r.method ≡ get_method
    → challenge ≢ []
    → lease ≤ max_u64
    → get s.channel_id app.subs.sub_map ≡ some cur
    → cur.channel_id ≡ s.channel_id
    → let url = callback_path s.token ++ b'?' ∷ query_text (verify_query cfg s challenge lease) in
      let done = handle w seen v r url app in
      (done.1 ≡ text challenge)
      × (get s.channel_id done.0.subs.sub_map
          ≡ some (activated w.now (min lease (max app.cfg.lease_seconds 1)) cur))
handle-verified_url cfg s challenge lease plain no_slash utf8 w seen v r app cur found is_get full
      small here own =
    rw
      (handle-called s.token plain no_slash w seen v r
        (query_text (verify_query cfg s challenge lease)) app)
      (handle-verified cfg s challenge lease utf8 w seen r app cur found is_get full small here own)
