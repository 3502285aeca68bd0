-- ===== src/Server/Logs.antt =====
-- The event log over the life of the process: what a request and a round of the renewal thread add
-- to it.
use mathlib.Core.List.{Memᴰ}
use yt_websub.Prelude.{
  ℕ, ◌<◌, ◌+◌, ◌%◌, ◌^◌, true, some, List, ◌∷◌, ◌++◌, ◌≡◌, ◌≢◌, inl, inr, refl, sym, subst, arith,
  Bytes, Bool-cases, All, All-append, All-map,
}
use yt_websub.Text.Space.{IsGraphic}
use yt_websub.Text.Utf8.{is_utf8, is_utf8-ascii}
use yt_websub.Sig.{Mac}
use yt_websub.Store.{Store, set_ack}
use yt_websub.Store.Line.{Event}
use yt_websub.Store.Rewrite.{reopen_fails}
use yt_websub.Store.Run as StoreRun
use yt_websub.Store.Run.{first_start, acknowledge, compact, restart, no_event_lost}
use yt_websub.Subs.{Sub, Registry, by_token}
use yt_websub.Subs.Life.{by_token_sound}
use yt_websub.Subs.Kept.{IsKept}
use yt_websub.Renew.Due.{renew_due}
use yt_websub.Renew.Loop.{
  Loop, Tick, run_tick, follow, compacted_app, is_compaction, reconcile, same_sig, channels_sig,
}
use yt_websub.App.{App, Request, post_method}
use yt_websub.Callback
use yt_websub.Callback.{World, is_signed}
use yt_websub.Callback.Logged.{
  IsAmong, entries_of, entries_of-IsText, append_entries-Run, handle-store,
}
use yt_websub.Api
use yt_websub.Api.{reconciled}
use yt_websub.Api.Outcome.{handle-outcome, acked}
use yt_websub.Http.{handle}
use yt_websub.Server.{IsServed, Taken}
use yt_websub.Server.Steps.{IsGood, callback_token, handle-preserves}

-- An event that was in one of the requests that were taken: its URL has the token of a subscription
-- that the process had in the state in which it looked, it is a POST that is signed with that
-- subscription's secret, and the event is for that subscription's channel.
pub record IsNotified (mac : Mac) (taken : List Taken) (e : Event) : Type 0 where
  pub notice : Taken
  pub was_taken : Memᴰ notice taken
  pub token : Bytes
  pub called : callback_token notice.url ≡ some token
  pub sub : Sub
  pub found : by_token token notice.seen.app.subs ≡ some sub
  pub posted : notice.request.method ≡ post_method
  pub signed : is_signed mac sub notice.request ≡ true
  pub among : IsAmong sub.channel_id (entries_of notice.request) e

IsNotified-later :
    (mac : Mac) (q : Taken) (taken : List Taken) (e : Event)
    → IsNotified mac taken e
    → IsNotified mac (q ∷ taken) e
IsNotified-later mac q taken e n = record {
  notice = n.notice;
  was_taken = Memᴰ.tail n.was_taken;
  token = n.token;
  called = n.called;
  sub = n.sub;
  found = n.found;
  posted = n.posted;
  signed = n.signed;
  among = n.among;
}

-- A history of the store, all of whose events were notified.
abbrev pub Logs : Mac → List Taken → Store → Type 0
Logs mac taken s =
    (es : List Event) × (low : ℕ) × StoreRun.Run es low s × All (IsNotified mac taken) es

graphic-utf8 : (s : Bytes) → All IsGraphic s → is_utf8 s ≡ true
graphic-utf8 s h = is_utf8-ascii s (All-map IsGraphic (λ b. b < 128) (λ b g. omega arith) s h)

pub channel-utf8 :
    (r : Registry) (token : Bytes) (s : Sub)
    → IsKept r
    → by_token token r ≡ some s
    → is_utf8 s.channel_id ≡ true
channel-utf8 r token s k found =
    graphic-utf8 s.channel_id
      ((k.fits s.channel_id s (((by_token_sound r k.sound token s).0 found).0)).channel_graphic)

module _ (mac : Mac) (taken : List Taken) (before : Loop) (good : IsGood before.app)
    (w : Callback.World) (v : Api.World) (r : Request) (url : Bytes) (app : App)
    (world : IsServed mac w v r app) (logs : Logs mac taken app.store) where
  abbrev notice : Taken
  notice = record { request = r; url = url; seen = before }

  kept-Logs : Logs mac (notice ∷ taken) app.store
  kept-Logs =
      let (es, low, run, from) = logs in
      (
        es,
        low,
        run,
        All-map (IsNotified mac taken) (IsNotified mac (notice ∷ taken))
            (IsNotified-later mac notice taken) es from,
      )

  callback-Logs :
      (token query : Bytes)
      → callback_token url ≡ some token
      → Logs mac (notice ∷ taken) (Callback.handle w before.app.subs r token query app).0.store
  callback-Logs token query called = elim (handle-store w before.app.subs r token query app) [
    | inl same ↦ subst (Logs mac (notice ∷ taken)) (sym same) kept-Logs
    | inr (s, found, post, signed, e) ↦
        (let (es, low, run, from) = kept-Logs in
          let text = channel-utf8 before.app.subs token s good.kept found in
          let (more, run', among, recorded) =
            append_entries-Run w s.channel_id world.rows text (entries_of r) 0 app.store
              (entries_of-IsText r) world.room run in
          subst (Logs mac (notice ∷ taken)) (sym e) (
            es ++ more,
            low,
            run',
            All-append (IsNotified mac (notice ∷ taken)) es more from (
                All-map (IsAmong s.channel_id (entries_of r)) (IsNotified mac (notice ∷ taken))
                  (λ x h. record {
                    notice = notice;
                    was_taken = Memᴰ.head refl;
                    token = token;
                    called = called;
                    sub = s;
                    found = found;
                    posted = post;
                    signed = subst (λ (m : Mac). is_signed m s r ≡ true) world.mac_same signed;
                    among = h;
                  })
                  more among),
          ))
  ]

  acked-Logs : Logs mac (notice ∷ taken) (set_ack v.ack_fate (acked r) app.store)
  acked-Logs =
      let (es, low, run, from) = kept-Logs in
      (es, low, acknowledge run v.ack_fate (acked r) world.given, from)

  pub served-Logs : Logs mac (notice ∷ taken) (handle w before.app.subs v r url app).0.store
  unfolding reconciled reconcile
  served-Logs =
      handle-preserves (λ x. Logs mac (notice ∷ taken) x.store) w before.app.subs v r app kept-Logs
        url callback-Logs
        (handle-outcome v r app (λ x. Logs mac (notice ∷ taken) x.store) kept-Logs acked-Logs
          kept-Logs kept-Logs)

module _ (mac : Mac) (taken : List Taken) (t : Tick) where
  follow_store : (l : Loop) → (follow t l).store ≡ l.app.store
  unfolding follow reconcile
  follow_store l = elim (Bool-cases (same_sig (channels_sig t.metadata) l.last_sig)) [
    | inl e ↦ rw e refl
    | inr e ↦ rw e refl
  ]

  module _ (reopens : t.compaction ≢ reopen_fails) where
    compacted-Logs :
        (ticks : ℕ) (app : App)
        → Logs mac taken app.store
        → Logs mac taken (compacted_app t ticks app).store
    unfolding compacted_app
    compacted-Logs ticks app (es, low, run, from) = elim (Bool-cases (is_compaction ticks)) [
      | inl e ↦ rw e (es, _, compact run t.compaction reopens, from)
      | inr e ↦ rw e (es, low, run, from)
    ]

    pub ticked-Logs :
        (l : Loop) → Logs mac taken l.app.store → Logs mac taken (run_tick t l).app.store
    unfolding run_tick
    ticked-Logs l logs =
        compacted-Logs ((l.ticks + 1) % 2 ^ 64)
          (record (follow t l) { subs = renew_due t.renewal (follow t l).subs })
          (subst (Logs mac taken) (sym (follow_store l)) logs)
