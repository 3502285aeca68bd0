-- ===== src/Server/Recorded.antt =====
-- That no notification is lost: what the process does with one that its hub signed.
use mathlib.Core.List.{Memᴰ}
use yt_websub.Prelude.{
  ℕ, ◌<◌, ◌≤◌, true, some, List, [], ◌∷◌, ◌++◌, ◌≡◌, ◌⊎◌, inl, inr, refl, sym, ap, ◌∙◌, subst,
  arith, Bytes, All, All-append, All-map, all, and-left, and-right, length, take, ◌==◌, codes, not,
}
use yt_websub.Text.Number.{max_u64}
use yt_websub.Text.Pieces.{Lacks}
use yt_websub.Text.Utf8.{from_utf8_lossy}
use yt_websub.Sig.{Mac}
use yt_websub.Store.{events_after}
use yt_websub.Store.Line.{Event, dedup_key}
use yt_websub.Store.Dedup.{dedup_key-injective, has_key-found}
use yt_websub.Store.Poll.{unseen}
use yt_websub.Store.Run as StoreRun
use yt_websub.Subs.{Sub, by_token}
use yt_websub.Resolve.{is_id_byte}
use yt_websub.Atom.{Entry, is_video_id}
use yt_websub.Atom.Shape.{IsWellFormed, parse-IsWellFormed}
use yt_websub.Renew.Loop.{Loop}
use yt_websub.App.{Request, post_method}
use yt_websub.Callback
use yt_websub.Callback.{is_signed, max_body}
use yt_websub.Callback.Logged.{
  HasKey, IsAmong, entries_of, entries_of-IsText, append_entries-Run, handle-logged,
}
use yt_websub.Api
use yt_websub.Http.{split_url, handle}
use yt_websub.Server.{IsServed, Taken, Run}
use yt_websub.Server.Steps.{callback_token, handle-callback}
use yt_websub.Server.Logs.{IsNotified, channel-utf8}
use yt_websub.Server.Life.{Run-Holds, IsGood-at, polled}

-- A history has an event of the entry's video, time and kind.
pub record IsRecorded (es : List Event) (n : Entry) : Type 0 where
  pub event : Event
  pub stored : Memᴰ event es
  pub video_same : event.video_id ≡ n.video_id
  pub ts_same : event.ts ≡ n.ts
  pub kind_same : event.kind ≡ n.kind

-- The video and the kind hold no separator of keys.
record IsPlain (video_id kind : Bytes) : Type 0 where
  video_plain : Lacks b'|' video_id
  kind_plain : Lacks b'|' kind

id-Lacks : (s : Bytes) → all is_id_byte s ≡ true → Lacks b'|' s
unfolding all
id-Lacks [] h = tt
id-Lacks (c ∷ s) h =
    let one : is_id_byte c ≡ true = and-left _ _ h in (ground arith, id-Lacks s (and-right _ _ h))

plain_bytes : (s : Bytes) → all (λ c. not (c == b'|')) s ≡ true → Lacks b'|' s
unfolding all
plain_bytes [] h = tt
plain_bytes (c ∷ s) h =
    let one : not (c == b'|') ≡ true = and-left _ _ h in
    (ground arith, plain_bytes s (and-right _ _ h))

entry-IsPlain : (n : Entry) → IsWellFormed n → IsPlain n.video_id n.kind
unfolding is_video_id all
entry-IsPlain n (video, rest) = record {
  video_plain = id-Lacks n.video_id (and-right (length n.video_id == 11) _ video);
  kind_plain = elim rest [
    | inl (e, _) ↦ subst (Lacks b'|') (sym e) (plain_bytes (codes "deleted") refl)
    | inr (inl e, _) ↦ subst (Lacks b'|') (sym e) (plain_bytes (codes "new") refl)
    | inr (inr e, _) ↦ subst (Lacks b'|') (sym e) (plain_bytes (codes "updated") refl)
  ];
}

entries_of-IsWellFormed : (r : Request) → All IsWellFormed (entries_of r)
unfolding entries_of
entries_of-IsWellFormed r = parse-IsWellFormed (from_utf8_lossy (take max_body r.body))

among-IsPlain :
    (channel : Bytes) (entries : List Entry) (e : Event)
    → All IsWellFormed entries
    → IsAmong channel entries e
    → IsPlain e.video_id e.kind
unfolding IsAmong
among-IsPlain channel [] e h m = elim m [ ]
among-IsPlain channel (n ∷ more) e (h, hs) m = elim m [
  | inl same ↦
      (let p = entry-IsPlain n h in
        record {
          video_plain = subst (Lacks b'|') (sym same.video_same) p.video_plain;
          kind_plain = subst (Lacks b'|') (sym same.kind_same) p.kind_plain;
        })
  | inr later ↦ among-IsPlain channel more e hs later
]

member-All : (P : Event → Type 0) (es : List Event) (e : Event) → All P es → Memᴰ e es → P e
member-All P [] e h m = elim m [ ]
member-All P (x ∷ es) e (h, hs) (Memᴰ.head same) = subst P (sym same) h
member-All P (x ∷ es) e (h, hs) (Memᴰ.tail m) = member-All P es e hs m

key-IsRecorded :
    (es : List Event) (n : Entry)
    → All (λ (e : Event). IsPlain e.video_id e.kind) es
    → IsWellFormed n
    → HasKey es n
    → IsRecorded es n
unfolding HasKey
key-IsRecorded es n plain good h =
    let (e, member, key) = has_key-found es (dedup_key n.video_id n.ts n.kind) h in
    let p = member-All (λ (x : Event). IsPlain x.video_id x.kind) es e plain member in
    let q = entry-IsPlain n good in
    let (video, ts, kind) =
      dedup_key-injective e.video_id n.video_id e.ts n.ts e.kind n.kind p.video_plain q.video_plain
        p.kind_plain q.kind_plain key in
    record { event = e; stored = member; video_same = video; ts_same = ts; kind_same = kind }

All-IsRecorded :
    (es : List Event) (entries : List Entry)
    → All (λ (e : Event). IsPlain e.video_id e.kind) es
    → All IsWellFormed entries
    → All (HasKey es) entries
    → All (IsRecorded es) entries
All-IsRecorded es [] plain good h = tt
All-IsRecorded es (n ∷ more) plain (g, good) (k, h) =
    (key-IsRecorded es n plain g k, All-IsRecorded es more plain good h)

-- However the process ran, as `Run` assumes of the world: the hub posts a notification to a URL with
-- the token of a subscription that the process had in some state since its start, signed with its
-- secret, and its rows are written. Then the log has a history with an event of the video, the time
-- and the kind of each entry of the notification; and a poll of at least one event has exactly the
-- first events, up to its limit, behind its cursor in that history, unless the cursor is below the
-- compaction's floor.
pub Run-IsRecorded :
    (mac : Mac) {live : List Loop} {taken : List Taken} {l : Loop}
    → Run mac live taken l
    → (seen : Loop) → Memᴰ seen (l ∷ live)
    → (w : Callback.World) (v : Api.World) (r : Request) → IsServed mac w v r l.app
    → (url token : Bytes) (s : Sub) → callback_token url ≡ some token
    → by_token token seen.app.subs ≡ some s
    → r.method ≡ post_method
    → is_signed mac s r ≡ true
    → (after limit : ℕ) → after ≤ max_u64
    → 0 < limit
    → let store = (handle w seen.app.subs v r url l.app).0.store in
      (es : List Event) × (low : ℕ) × StoreRun.Run es low store
      × All (IsRecorded es) (entries_of r)
      × ((after < low) ⊎ (events_after after limit store ≡ unseen after limit es))
Run-IsRecorded mac {live} {taken} {l} run seen member w v r world url token s called found post
      signed after limit fits wanted =
    let h = Run-Holds mac run in
    let (es, low, stored, from) = h.logs in
    let good = IsGood-at (l ∷ live) (h.good, h.were_good) seen member in
    let text = channel-utf8 seen.app.subs token s good.kept found in
    let (more, grown, among, keys) =
      append_entries-Run w s.channel_id world.rows text (entries_of r) 0 l.app.store
        (entries_of-IsText r) world.room stored in
    let logged =
      subst (StoreRun.Run (es ++ more) low)
        (sym (
          ap (λ x. x.0.store) (handle-callback w seen.app.subs v r url token l.app called)
          ∙ handle-logged w seen.app.subs r token (split_url url).1 l.app s found post
              (subst (λ (m : Mac). is_signed m s r ≡ true) (sym world.mac_same) signed)))
        grown in
    let plain =
      All-append (λ (e : Event). IsPlain e.video_id e.kind) es more
        (All-map (IsNotified mac taken) (λ (e : Event). IsPlain e.video_id e.kind)
          (λ e n.
            among-IsPlain n.sub.channel_id (entries_of n.notice.request) e
              (entries_of-IsWellFormed n.notice.request) n.among)
          es from)
        (All-map (IsAmong s.channel_id (entries_of r)) (λ (e : Event). IsPlain e.video_id e.kind)
          (λ e m. among-IsPlain s.channel_id (entries_of r) e (entries_of-IsWellFormed r) m) more
          among) in
    (
      es ++ more,
      low,
      logged,
      All-IsRecorded (es ++ more) (entries_of r) plain (entries_of-IsWellFormed r) keys,
      polled logged after limit fits wanted,
    )
