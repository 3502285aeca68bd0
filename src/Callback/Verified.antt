-- ===== src/Callback/Verified.antt =====
-- A subscription that the hub verifies, with what `send` of src/hub.rs told it.
use yt_websub.Prelude.{
  ℕ, ◌≤◌, false, not, and-false, Option, some, get_or, [], ◌∷◌, ◌≡◌, ◌≢◌, refl, ap, ◌∙◌, subst,
  Bytes, codes, ◌=b◌, =b_refl, ◌>>=◌, All, min, max,
}
use yt_websub.Prelude.Maps.{Table, get, get-put-at, =b_false}
use yt_websub.Text.Number.{max_u64, to_string, parse, parse-to_string}
use yt_websub.Util.Query.{query_get, query_text, query_get-query_text, IsTextPair}
use yt_websub.Subs.{Sub, Registry, by_token, update}
use yt_websub.Config.{Config}
use yt_websub.Hub.{send_form}
use yt_websub.App.{App, Request, get_method, text}
use yt_websub.Callback.{
  World, param, mismatches, granted, activated, activate, handle_verify, serve, handle,
}

-- What the hub takes over from the form.
abbrev pub value_of : Bytes → Config → Sub → Bytes
value_of key cfg s = get_or (get key (send_form cfg s (codes "subscribe"))) []

-- The hub's verification of a subscribe: what it was told, and a challenge and a lease of its own.
abbrev pub verify_query : Config → Sub → Bytes → ℕ → Table Bytes
verify_query cfg s challenge lease =
    (codes "hub.mode", value_of (codes "hub.mode") cfg s)
    ∷ (codes "hub.topic", value_of (codes "hub.topic") cfg s)
    ∷ (codes "hub.challenge", challenge)
    ∷ (codes "hub.lease_seconds", to_string lease)
    ∷ (codes "hub.verify_token", value_of (codes "hub.verify_token") cfg s)
    ∷ []

module _ (cfg : Config) (s : Sub) (challenge : Bytes) (lease : ℕ)
    (utf8 : All IsTextPair (verify_query cfg s challenge lease)) where
  asked : Bytes
  asked = query_text (verify_query cfg s challenge lease)

  asked_for : (key : Bytes) → query_get asked key ≡ get key (verify_query cfg s challenge lease)
  unfolding asked
  asked_for key = query_get-query_text key (verify_query cfg s challenge lease) utf8

  asked_value :
      (key value : Bytes)
      → get key (verify_query cfg s challenge lease) ≡ some value
      → param asked key ≡ value
  unfolding param
  asked_value key value h = ap (λ (o : Option Bytes). get_or o []) (asked_for key ∙ h)

  asked_mode : param asked (codes "hub.mode") ≡ codes "subscribe"
  unfolding get ◌=b◌ send_form
  asked_mode = asked_value (codes "hub.mode") (codes "subscribe") refl

  asked_topic : param asked (codes "hub.topic") ≡ s.topic
  unfolding get ◌=b◌ send_form
  asked_topic = asked_value (codes "hub.topic") s.topic refl

  asked_token : param asked (codes "hub.verify_token") ≡ s.token
  unfolding get ◌=b◌ send_form
  asked_token = asked_value (codes "hub.verify_token") s.token refl

  asked_challenge : param asked (codes "hub.challenge") ≡ challenge
  unfolding get ◌=b◌ send_form
  asked_challenge = asked_value (codes "hub.challenge") challenge refl

  asked_lease :
      (configured : ℕ) → lease ≤ max_u64 → granted configured asked ≡ min lease (max configured 1)
  unfolding granted get ◌=b◌ send_form
  asked_lease configured small =
      ap (λ (o : Option Bytes). min (get_or (o >>= parse max_u64) configured) (max configured 1))
        (asked_for (codes "hub.lease_seconds"))
      ∙ ap (λ (o : Option ℕ). min (get_or o configured) (max configured 1))
          (parse-to_string max_u64 lease small)

  asked-mismatches : challenge ≢ [] → mismatches s asked ≡ false
  unfolding mismatches
  asked-mismatches full =
      rw
        (
          asked_topic,
          asked_challenge,
          asked_token,
          =b_refl s.topic,
          =b_false challenge [] full,
          =b_refl s.token,
        )
        (and-false (not (s.token =b [])))

  -- The subscription of the token at the next lock is verified.
  verified :
      (w : World) (seen : Registry) (r : Request) (app : App)
      → by_token s.token seen ≡ some s
      → r.method ≡ get_method
      → challenge ≢ []
      → lease ≤ max_u64
      → handle w seen r s.token asked app
        ≡ (activate w (min lease (max app.cfg.lease_seconds 1)) s.channel_id app, text challenge)
  unfolding handle serve handle_verify
  verified w seen r app found is_get full small =
      rw
        (
          handle,
          found,
          serve,
          is_get,
          asked-mismatches full,
          asked_mode,
          =b_refl (codes "subscribe"),
          asked_challenge,
          asked_lease app.cfg.lease_seconds small,
        )
        refl

activated-found :
    (w : World) (lease : ℕ) (c : Bytes) (cur : Sub) (app : App)
    → get c app.subs.sub_map ≡ some cur
    → cur.channel_id ≡ c
    → get c (activate w lease c app).subs.sub_map ≡ some (activated w.now lease cur)
unfolding activate activated update
activated-found w lease c cur app h own =
    rw (activate, h)
      (subst
        (λ (x : Bytes).
          get x (update (activated w.now lease cur) app.subs).sub_map
          ≡ some (activated w.now lease cur))
        own (get-put-at cur.channel_id (activated w.now lease cur) app.subs.sub_map))

-- The hub that asks, at the token of a subscription and with the topic and the token it was told,
-- whether to subscribe, gets its challenge back, and the subscription that then stands at the channel
-- is active, with the lease that the hub gives, no longer than the configured one; a program with the
-- configuration `cfg` sent the form.
pub handle-verified :
    (cfg : Config) (s : Sub) (challenge : Bytes) (lease : ℕ)
    → All IsTextPair (verify_query cfg s challenge lease)
    → (w : World) (seen : Registry) (r : Request) (app : App) (cur : Sub)
    → by_token s.token seen ≡ some s
    → r.method ≡ get_method
    → challenge ≢ []
    → lease ≤ max_u64
    → get s.channel_id app.subs.sub_map ≡ some cur
    → cur.channel_id ≡ s.channel_id
    → let done = handle w seen r s.token (query_text (verify_query cfg s challenge lease)) app in
      (done.1 ≡ text challenge)
      × (get s.channel_id done.0.subs.sub_map
          ≡ some (activated w.now (min lease (max app.cfg.lease_seconds 1)) cur))
unfolding asked
handle-verified cfg s challenge lease utf8 w seen r app cur found is_get full small here own =
    let done = verified cfg s challenge lease utf8 w seen r app found is_get full small in
    rw done (
      refl,
      activated-found w (min lease (max app.cfg.lease_seconds 1)) s.channel_id cur app here own,
    )
