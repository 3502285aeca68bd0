-- ===== src/Callback/Logged.antt =====
-- The events that a notification to src/callback.rs adds to the log of src/store.rs.
use yt_websub.Prelude.{
  ℕ, suc, ◌+◌, ◌<◌, ◌≤◌, true, List, [], ◌∷◌, ◌++◌, append_assoc, append-nil, ◌≡◌, ◌⊎◌, inl, inr,
  refl, sym, ◌∙◌, subst, arith, any, =b_iff, Bytes, Bool-cases, All, All-append, All-map, length,
  some, take,
}
use yt_websub.Text.Number.{max_u64}
use yt_websub.Text.Utf8.{is_utf8}
use yt_websub.Store.{Store, written, append, contains, key_of, write_log, finish_append, remember}
use yt_websub.Store.Line.{Event, IsEvent, format_line, dedup_key}
use yt_websub.Store.Append.{incoming, append-duplicate, append-fresh}
use yt_websub.Store.Keys.{has_key, has_key-append}
use yt_websub.Store.Held.{Holds-key}
use yt_websub.Store.Run.{Run, accept, suppress, Run-Holds}
use yt_websub.Text.Utf8.{from_utf8_lossy}
use yt_websub.Subs.{Sub, Registry, by_token}
use yt_websub.App.{App, Request, post_method}
use yt_websub.Atom
use yt_websub.Atom.Read.{IsText, parse-IsText}
use yt_websub.Text.Utf8.Lossy.{from_utf8_lossy-IsUtf8}
use yt_websub.Atom.{Entry}
use yt_websub.Callback.Answers.{handle-IsSigned}
use yt_websub.Callback.{World, append_entries, max_body, is_signed, handle_notify, serve, handle}

-- What an event has of an entry of a notification.
pub record IsOf (channel : Bytes) (n : Entry) (e : Event) : Type 0 where
  pub channel_same : e.channel_id ≡ channel
  pub kind_same : e.kind ≡ n.kind
  pub video_same : e.video_id ≡ n.video_id
  pub ts_same : e.ts ≡ n.ts
  pub title_same : e.title ≡ n.title

-- Some entry of a list has it.
unfoldable pub IsAmong : Bytes → List Entry → Event → Type 0
IsAmong channel [] e = ⊥
IsAmong channel (n ∷ more) e = IsOf channel n e ⊎ IsAmong channel more e

-- Every row is written, at a time of 64 bits.
pub record IsWritten (w : World) : Type 0 where
  pub whole : (i : ℕ) → (w.appends i).0 ≡ written
  pub dated : (i : ℕ) → (w.appends i).1 ≤ max_u64

write_log-next : (bytes : Bytes) (s : Store) → (write_log bytes s).next_seq ≡ s.next_seq
write_log-next bytes s = elim (Bool-cases s.log_linked) [ inl e ↦ rw e refl | inr e ↦ rw e refl ]

-- An append takes one number at most.
append-next :
    (now : ℕ) (n : Entry) (channel : Bytes) (s : Store)
    → (append written now n.kind channel n.video_id n.ts n.title s).0.next_seq ≤ s.next_seq + 1
append-next now n channel s =
    let e = incoming now n.kind channel n.video_id n.ts n.title s in
    elim (Bool-cases (contains s.seen (key_of e))) [
      | inl old ↦
          rw (append-duplicate now n.kind channel n.video_id n.ts n.title s written old)
            (omega arith)
      | inr new ↦ rw (append-fresh now n.kind channel n.video_id n.ts n.title s written new) (
          unfold finish_append in
          unfold remember in omega (arith, write_log-next (format_line e) s))
    ]

incoming-IsEvent :
    (now : ℕ) (n : Entry) (channel : Bytes) (s : Store)
    → now ≤ max_u64
    → is_utf8 channel ≡ true
    → IsText n
    → s.next_seq ≤ max_u64
    → IsEvent (incoming now n.kind channel n.video_id n.ts n.title s)
incoming-IsEvent now n channel s dated text t room = record {
  seq_fits = room;
  received_fits = dated;
  kind_utf8 = t.kind_utf8;
  channel_utf8 = text;
  video_utf8 = t.video_utf8;
  ts_utf8 = t.ts_utf8;
  title_utf8 = t.title_utf8;
}

-- A history has an event with the key that the entry's event would have.
unfoldable pub HasKey : List Event → Entry → Type 0
HasKey es n = has_key es (dedup_key n.video_id n.ts n.kind) ≡ true

HasKey-append : (es more : List Event) (n : Entry) → HasKey es n → HasKey (es ++ more) n
unfolding HasKey
HasKey-append es more n h =
    has_key-append es more (dedup_key n.video_id n.ts n.kind) ∙ ground (arith, h)

HasKey-last :
    (es : List Event) (n : Entry) (e : Event)
    → key_of e ≡ dedup_key n.video_id n.ts n.kind
    → HasKey (es ++ e ∷ []) n
unfolding HasKey any
HasKey-last es n e same =
    let k = dedup_key n.video_id n.ts n.kind in
    has_key-append es (e ∷ []) k ∙ ground (arith, =b_iff (key_of e) k, same)

-- What a run has after some more events, each of one of the entries, when the history has the keys of
-- all of these.
abbrev pub Grows : Bytes → List Entry → List Event → ℕ → Store → Type 0
Grows channel entries es low s =
    (more : List Event) × Run (es ++ more) low s
    × All (IsAmong channel entries) more
    × All (HasKey (es ++ more)) entries

module _ (w : World) (channel : Bytes) (outside : IsWritten w) (text : is_utf8 channel ≡ true) where
  one_more :
      (i : ℕ) (n : Entry) {es : List Event} {low : ℕ} (s : Store)
      → IsText n
      → s.next_seq < max_u64
      → Run es low s
      → Grows channel
          (n ∷ [])
          es
          low
          (append written ((w.appends i).1) n.kind channel n.video_id n.ts n.title s).0
  unfolding IsAmong
  one_more i n {es} {low} s t room r =
      let now = (w.appends i).1 in
      let e = incoming now n.kind channel n.video_id n.ts n.title s in
      let after = (append written now n.kind channel n.video_id n.ts n.title s).0 in
      elim (Bool-cases (contains s.seen (key_of e))) [
        | inl old ↦ (
          [],
          subst (λ (l : List Event). Run l low after) (sym (append-nil es))
              (suppress r written now n.kind channel n.video_id n.ts n.title old),
          tt,
          (
            subst (λ (l : List Event). HasKey l n) (sym (append-nil es))
                (unfold HasKey in Holds-key (Run-Holds r) (key_of e) old),
            tt,
          ),
        )
        | inr new ↦ (
          e ∷ [],
          accept r now n.kind channel n.video_id n.ts n.title
              (incoming-IsEvent now n channel s (outside.dated i) text t (omega arith)) room new,
          (
            inl (record {
              channel_same = refl;
              kind_same = refl;
              video_same = refl;
              ts_same = refl;
              title_same = refl;
            }),
            tt,
          ),
          (HasKey-last es n e refl, tt),
        )
      ]

  pub append_entries-Run :
      (entries : List Entry) (i : ℕ) {es : List Event} {low : ℕ} (s : Store)
      → All IsText entries
      → s.next_seq + length entries < max_u64
      → Run es low s
      → Grows channel entries es low (append_entries w i channel entries s)
  unfolding append_entries IsAmong
  append_entries-Run [] i {es} {low} s t room r =
      ([], subst (λ (l : List Event). Run l low s) (sym (append-nil es)) r, tt, tt)
  append_entries-Run (n ∷ entries) i {es} {low} s t room r =
      let now = (w.appends i).1 in
      let after = (append written now n.kind channel n.video_id n.ts n.title s).0 in
      let (first, r', from, recorded) = one_more i n s (t.0) (omega arith) r in
      let (rest, r'', from', all_recorded) =
        append_entries-Run entries (suc i) after (t.1) (omega (arith, append-next now n channel s))
          r' in
      (
        first ++ rest,
        rw (outside.whole i) (
            subst (λ (l : List Event). Run l low (append_entries w (suc i) channel entries after))
              (append_assoc es first rest) r''),
        All-append (IsAmong channel (n ∷ entries)) first rest
            (All-map (IsAmong channel (n ∷ [])) (IsAmong channel (n ∷ entries))
              (λ e h. elim h [ inl here ↦ inl here | inr never ↦ absurd never ]) first from)
            (All-map (IsAmong channel entries) (IsAmong channel (n ∷ entries)) (λ e h. inr h) rest
              from'),
        (
          subst (λ (l : List Event). HasKey l n) (append_assoc es first rest)
              (HasKey-append (es ++ first) rest n (recorded.0)),
          subst (λ (l : List Event). All (HasKey l) entries) (append_assoc es first rest)
              all_recorded,
        ),
      )

-- The entries that a notification has.
unfoldable pub entries_of : Request → List Entry
unfolding from_utf8_lossy Atom.parse
entries_of r = Atom.parse (from_utf8_lossy (take max_body r.body))

-- Whatever the bytes of the body, the texts of the entries are UTF-8.
pub entries_of-IsText : (r : Request) → All IsText (entries_of r)
unfolding entries_of
entries_of-IsText r =
    parse-IsText (from_utf8_lossy (take max_body r.body))
      (from_utf8_lossy-IsUtf8 (take max_body r.body))

-- A notification that is signed goes to the log.
pub handle-logged :
    (w : World) (seen : Registry) (r : Request) (token query : Bytes) (app : App) (s : Sub)
    → by_token token seen ≡ some s
    → r.method ≡ post_method
    → is_signed w.mac s r ≡ true
    → (handle w seen r token query app).0.store
      ≡ append_entries w 0 s.channel_id (entries_of r) app.store
unfolding handle serve handle_notify entries_of
handle-logged w seen r token query app s found post signed =
    rw (handle, found) (rw (serve, post) (rw (handle_notify, signed) refl))

-- A request leaves the log, or it is signed and its entries are appended.
pub handle-store :
    (w : World) (seen : Registry) (r : Request) (token query : Bytes) (app : App)
    → ((handle w seen r token query app).0.store ≡ app.store)
      ⊎ ((s : Sub) × (by_token token seen ≡ some s)
          × (r.method ≡ post_method)
          × (is_signed w.mac s r ≡ true)
          × ((handle w seen r token query app).0.store
              ≡ append_entries w 0 s.channel_id (entries_of r) app.store))
unfolding handle serve handle_notify entries_of
handle-store w seen r token query app = elim (handle-IsSigned w seen r token query app) [
  | inl same ↦ inl same
  | inr (s, found, post, signed) ↦
      inr (s, found, post, signed, handle-logged w seen r token query app s found post signed)
]
