-- ===== src/Callback/Answers.antt =====
-- What the callback of src/callback.rs answers to whom: events only of signed notifications, and the
-- confirmation of an unsubscribe.
use yt_websub.Prelude.{
  ℕ, ◌+◌, ◌<◌, ◌^◌, Bool, true, false, Option, none, some, [], ◌∷◌, ◌≡◌, ◌≢◌, ◌⊎◌, inl, inr, refl,
  ap, ◌∙◌, Bytes, codes, ◌=b◌, =b_refl, if◌then◌else◌, Bool-cases, Option-cases, All, get_or,
}
use yt_websub.Prelude.Maps.{Table, get, =b_false}
use yt_websub.Util.Query.{query_text, query_get-query_text, IsTextPair}
use yt_websub.Subs.{Sub, Registry, by_token, remove, unsub_topic, forget_unsub, unsub_grace}
use yt_websub.Subs.Life.{IsSound, Reached, Reached-IsSound}
use yt_websub.Subs.Waiting.{
  Changes, Changes-IsWaiting, removed-IsWaiting, by_token-none, unsub_topic-waiting,
}
use yt_websub.Subs.Grace.{forget_unsub-gone, forget_unsub-by_token}
use yt_websub.Callback.Keeps.{method-cases}
use yt_websub.App.{App, Request, Response, post_method, empty, text}
use yt_websub.Callback.{
  World, param, confirms, finish_unsubscribe, handle_verify, handle_notify, is_signed, serve,
  handle, mismatches, activate, granted,
}

-- What a signed notification is.
abbrev pub IsSigned : World → Registry → Request → Bytes → Type 0
IsSigned w seen r token =
    (s : Sub) × (by_token token seen ≡ some s)
    × (r.method ≡ post_method)
    × (is_signed (w.mac) s r ≡ true)

module _ (w : World) (query : Bytes) (app : App) where
  same_store :
      (b : Bool) (x y : App × Response)
      → x.0.store ≡ app.store
      → y.0.store ≡ app.store
      → (if b then x else y).0.store ≡ app.store
  same_store true x y h k = h
  same_store false x y h k = k

  activate_store : (lease : ℕ) (c : Bytes) → (activate w lease c app).store ≡ app.store
  unfolding activate
  activate_store lease c = elim (Option-cases (get c (app.subs.sub_map))) [
    | inl n ↦ rw (activate, n) refl
    | inr (s, e) ↦ rw (activate, e) refl
  ]

  verify_store : (s : Sub) → (handle_verify w s query app).0.store ≡ app.store
  unfolding handle_verify
  verify_store s = same_store (mismatches s query) _ _ refl (
      same_store (param query (codes "hub.mode") =b codes "subscribe") _ _
        (activate_store (granted (app.cfg.lease_seconds) query) (s.channel_id))
        (same_store (param query (codes "hub.mode") =b codes "unsubscribe") _ _ refl refl))

  finish_store : (token : Bytes) → (finish_unsubscribe (w.now) token query app).0.store ≡ app.store
  unfolding finish_unsubscribe
  finish_store token = elim (Option-cases (unsub_topic token (w.now) (app.subs))) [
    | inl n ↦ rw (finish_unsubscribe, n) refl
    | inr (topic, e) ↦ rw (finish_unsubscribe, e) (same_store (confirms query topic) _ _ refl refl)
  ]

  serve_store :
      (s : Sub) (r : Request)
      → ((serve w s r query app).0.store ≡ app.store)
        ⊎ ((r.method ≡ post_method) × (is_signed (w.mac) s r ≡ true))
  unfolding serve handle_notify
  serve_store s r = elim (method-cases (r.method)) [
    | inl e ↦ inl (rw (serve, e) (verify_store s))
    | inr (inl e) ↦ elim (Bool-cases (is_signed (w.mac) s r)) [
      | inl k ↦ inr (e, k)
      | inr k ↦ inl (rw (serve, e, handle_notify, k) refl)
    ]
    | inr (inr e) ↦ inl (rw (serve, e) refl)
  ]

-- Whatever a request holds, the event log stays as it is unless the token finds a subscription, the
-- request is a POST and its header has the code of its body under that subscription's secret.
pub handle-IsSigned :
    (w : World) (seen : Registry) (r : Request) (token query : Bytes) (app : App)
    → ((handle w seen r token query app).0.store ≡ app.store) ⊎ IsSigned w seen r token
unfolding handle
handle-IsSigned w seen r token query app = elim (Option-cases (by_token token seen)) [
  | inl n ↦ inl (rw (handle, n) (finish_store w query app token))
  | inr (s, e) ↦ elim (serve_store w query app s r) [
    | inl k ↦ inl (rw (handle, e) k)
    | inr (p, k) ↦ inr (s, e, p, k)
  ]
]

-- The hub's query on an unsubscribe, with what else it may send.
abbrev pub unsubscribe_query : Bytes → Bytes → Table Bytes → Table Bytes
unsubscribe_query topic challenge more =
    (codes "hub.mode", codes "unsubscribe")
    ∷ (codes "hub.topic", topic)
    ∷ (codes "hub.challenge", challenge)
    ∷ more

module _ (topic challenge : Bytes) (more : Table Bytes)
    (utf8 : All IsTextPair (unsubscribe_query topic challenge more)) where
  asked : Bytes
  asked = query_text (unsubscribe_query topic challenge more)

  asked_for :
      (key value : Bytes)
      → get key (unsubscribe_query topic challenge more) ≡ some value
      → param asked key ≡ value
  unfolding param asked
  asked_for key value h =
      ap (λ (o : Option Bytes). get_or o [])
        (query_get-query_text key (unsubscribe_query topic challenge more) utf8 ∙ h)

  asked_mode : param asked (codes "hub.mode") ≡ codes "unsubscribe"
  unfolding get ◌=b◌
  asked_mode = asked_for (codes "hub.mode") (codes "unsubscribe") refl

  asked_topic : param asked (codes "hub.topic") ≡ topic
  unfolding get ◌=b◌
  asked_topic = asked_for (codes "hub.topic") topic refl

  asked_challenge : param asked (codes "hub.challenge") ≡ challenge
  unfolding get ◌=b◌
  asked_challenge = asked_for (codes "hub.challenge") challenge refl

  asked-confirms : challenge ≢ [] → confirms asked topic ≡ true
  unfolding confirms
  asked-confirms full =
      rw
        (
          asked_mode,
          asked_topic,
          asked_challenge,
          =b_refl (codes "unsubscribe"),
          =b_refl topic,
          =b_false challenge [] full,
        )
        refl

handle_gone :
    (w : World) (seen : Registry) (r : Request) (token query : Bytes) (app : App)
    → by_token token seen ≡ none
    → handle w seen r token query app ≡ finish_unsubscribe (w.now) token query app
unfolding handle
handle_gone w seen r token query app n = rw (handle, n) refl

finish_confirmed :
    (now : ℕ) (token query topic : Bytes) (app : App)
    → unsub_topic token now (app.subs) ≡ some topic
    → confirms query topic ≡ true
    → finish_unsubscribe now token query app ≡ (
      record app { subs = forget_unsub token now (app.subs) },
      text (param query (codes "hub.challenge")),
    )
unfolding finish_unsubscribe
finish_confirmed now token query topic app e k = rw (finish_unsubscribe, e, k) refl

finish_unknown :
    (now : ℕ) (token query : Bytes) (app : App)
    → unsub_topic token now (app.subs) ≡ none
    → finish_unsubscribe now token query app ≡ (app, empty 404)
unfolding finish_unsubscribe
finish_unknown now token query app n = rw (finish_unsubscribe, n) refl

-- The hub asks about a token that has a tombstone for its topic, and asks once more.
confirmed_once :
    (w later : World) (r again : Request) (token topic challenge : Bytes) (more : Table Bytes)
    (app : App)
    → IsSound (app.subs)
    → by_token token (app.subs) ≡ none
    → unsub_topic token (w.now) (app.subs) ≡ some topic
    → challenge ≢ []
    → All IsTextPair (unsubscribe_query topic challenge more)
    → let query = query_text (unsubscribe_query topic challenge more) in
      let done = handle w (app.subs) r token query app in
      (done.1 ≡ text challenge)
      × ((handle later (done.0.subs) again token query (done.0)).1 ≡ empty 404)
unfolding asked
confirmed_once w later r again token topic challenge more app sound absent grave full utf8 =
    let query = query_text (unsubscribe_query topic challenge more) in
    let after = record app { subs = forget_unsub token (w.now) (app.subs) } in
    let done =
      handle_gone w (app.subs) r token query app absent
      ∙ finish_confirmed (w.now) token query topic app grave
          (asked-confirms topic challenge more utf8 full) in
    rw done (
      ap text (asked_challenge topic challenge more utf8),
      ap (λ (x : App × Response). x.1)
          (handle_gone later (after.subs) again token query after
              (forget_unsub-by_token token token (w.now) (app.subs) ∙ absent)
            ∙ finish_unknown (later.now) token query after
                (forget_unsub-gone token (w.now) (later.now) (app.subs) sound)),
    )

-- When a channel was removed at `at` and, since then, any other channels came, changed or were removed
-- and other tombstones were dropped, at times within 900 seconds, while no other subscription got its
-- token: the hub that asks within 900 seconds whether to unsubscribe from its topic, at the token it
-- had, gets its challenge back; asking again it gets a 404. The registry came about by the program's
-- changes, `at` is at least 900 seconds below 2^64, and the query holds names and values in UTF-8 with
-- a challenge that is not empty.
pub handle-unsubscribe :
    (r0 : Registry) (c : Bytes) (s : Sub) (at : ℕ) (w later : World) (r again : Request)
    (challenge : Bytes) (more : Table Bytes) (app : App)
    → Reached r0
    → get c (r0.sub_map) ≡ some s
    → at + unsub_grace < 2 ^ 64
    → Changes s.token (at + unsub_grace) (remove c at r0).0 app.subs
    → w.now < at + unsub_grace
    → challenge ≢ []
    → All IsTextPair (unsubscribe_query (s.topic) challenge more)
    → let query = query_text (unsubscribe_query (s.topic) challenge more) in
      let done = handle w (app.subs) r (s.token) query app in
      (done.1 ≡ text challenge)
      × ((handle later (done.0.subs) again (s.token) query (done.0)).1 ≡ empty 404)
handle-unsubscribe r0 c s at w later r again challenge more app reached h fits changes soon full
      utf8 =
    let until = at + unsub_grace in
    let waiting =
      Changes-IsWaiting s.token s.topic until (remove c at r0).0 app.subs
        (removed-IsWaiting r0 c s at (Reached-IsSound r0 reached) h fits) changes in
    confirmed_once w later r again (s.token) (s.topic) challenge more app waiting.sound
      (by_token-none s.token s.topic until app.subs waiting)
      (unsub_topic-waiting s.token s.topic until app.subs w.now waiting soon) full utf8
