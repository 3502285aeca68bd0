-- ===== src/Renew/Fresh.antt =====
-- The random tokens of new subscriptions in src/renew.rs, and which tokens each change leaves free.
use mathlib.Core.Option.{none-ne-some}
use yt_websub.Prelude.{
  ℕ, suc, true, false, Option, none, some, List, [], ◌∷◌, ◌≡◌, inl, inr, refl, sym, ap, ◌∙◌, Bytes,
  ◌=b◌, =b_refl,
}
use yt_websub.Prelude.Maps.{Table, get, put, IsMap, get-put-at, get-put-off, Key-cases}
use yt_websub.Util.Random.{rand_hex}
use yt_websub.Util.Atomic.{Fate}
use yt_websub.Subs.{Sub, Registry, update, drop_stale}
use yt_websub.Subs.Life.{IsSound}
use yt_websub.Renew.{merge_attempt, merged}
use yt_websub.Renew.Expire.{IsKeyed}
use yt_websub.Renew.Merge.{merge_attempt-cases, merged-keys}
use yt_websub.Renew.Due.{Attempt}
use yt_websub.Renew.Reconcile.{Random, failed_sub, settle}

-- The token of the i-th new subscription.
abbrev pub new_token : Random → ℕ → Bytes
new_token random i = rand_hex (random.token_bytes i)

-- No new token is one of the registry's, nor one of those before it.
unfoldable pub AreNew : Random → ℕ → List Bytes → Table Bytes → Type 0
unfolding get put
AreNew random i [] tokens = Unit
AreNew random i (c ∷ more) tokens =
    (get (new_token random i) tokens ≡ none)
    × AreNew random (suc i) more (put (new_token random i) c tokens)

-- What is free in the first map is free in the second.
abbrev pub KeepsFree : Table Bytes → Table Bytes → Type 0
KeepsFree before after = (t : Bytes) → get t before ≡ none → get t after ≡ none

put-KeepsFree :
    (k v : Bytes) (a b : Table Bytes) → KeepsFree a b → KeepsFree (put k v a) (put k v b)
put-KeepsFree k v a b keeps t h = elim (Key-cases k t) [
  | inl e ↦
      absurd (
        none-ne-some v (sym h ∙ (ap (λ (x : Bytes). get x (put k v a)) (sym e) ∙ get-put-at k v a)))
  | inr (e, _) ↦ get-put-off t k v b e ∙ keeps t (sym (get-put-off t k v a e) ∙ h)
]

pub AreNew-later :
    (random : Random) (i : ℕ) (adds : List Bytes) (a b : Table Bytes)
    → KeepsFree a b
    → AreNew random i adds a
    → AreNew random i adds b
unfolding AreNew
AreNew-later random i [] a b keeps h = tt
AreNew-later random i (c ∷ more) a b keeps h = (
  keeps (new_token random i) (h.0),
  AreNew-later random (suc i) more (put (new_token random i) c a) (put (new_token random i) c b)
      (put-KeepsFree (new_token random i) c a b keeps) (h.1),
)

-- A change of a subscription that keeps its token.
update-same :
    (u cur : Sub) (r : Registry)
    → get (u.channel_id) (r.sub_map) ≡ some cur
    → cur.token ≡ u.token
    → (update u r).token_map ≡ put (u.token) (u.channel_id) (r.token_map)
unfolding update drop_stale
update-same u cur r found same =
    rw (found, ap (λ (x : Bytes). x =b u.token) same ∙ =b_refl (u.token)) refl

pub update-KeepsFree :
    (u cur : Sub) (r : Registry)
    → IsSound r
    → get (u.channel_id) (r.sub_map) ≡ some cur
    → cur.token ≡ u.token
    → KeepsFree (r.token_map) ((update u r).token_map)
update-KeepsFree u cur r sound found same t h =
    let taken =
      ap (λ (x : Bytes). get x (r.token_map)) (sym same)
      ∙ sound.indexed.pointed (u.channel_id) cur found in
    ap (get t) (update-same u cur r found same) ∙ elim (Key-cases (u.token) t) [
      | inl e ↦ absurd (
          none-ne-some (u.channel_id)
            (sym h ∙ (ap (λ (x : Bytes). get x (r.token_map)) (sym e) ∙ taken)))
      | inr (e, _) ↦ get-put-off t (u.token) (u.channel_id) (r.token_map) e ∙ h
    ]

-- The tokens of a merge are those that were there.
merge_attempt-KeepsFree :
    (fate : Fate) (s : Sub) (r : Registry)
    → IsSound r
    → KeepsFree (r.token_map) ((merge_attempt fate s r).token_map)
merge_attempt-KeepsFree fate s r sound t h = elim (merge_attempt-cases fate s r) [
  | inl e ↦ ap (λ (x : Registry). get t (x.token_map)) e ∙ h
  | inr (cur, found, same, e) ↦
      (let (channel, token) = merged-keys cur s in
        ap (λ (x : Registry). get t (x.token_map)) e
        ∙ update-KeepsFree (merged cur s) cur r sound
            (ap (λ (x : Bytes). get x (r.sub_map)) channel ∙ found) (same ∙ sym token) t h)
]

pub settle-KeepsFree :
    (a : Attempt) (s : Sub) (o : Option Bytes) (r : Registry)
    → IsSound r
    → KeepsFree (r.token_map) ((settle a s o r).token_map)
unfolding settle
settle-KeepsFree a s none r sound t h = h
settle-KeepsFree a s (some why) r sound t h =
    merge_attempt-KeepsFree (a.saves) (failed_sub a s why) r sound t h

get_head : (j c : Bytes) (t : Sub) (m : Table Sub) → j =b c ≡ true → get c ((j, t) ∷ m) ≡ some t
unfolding get
get_head j c t m e = rw e refl

get_rest : (j c : Bytes) (t : Sub) (m : Table Sub) → j =b c ≡ false → get c ((j, t) ∷ m) ≡ get c m
unfolding get
get_rest j c t m e = rw e refl

-- A map without a key twice, whose lookups are keyed.
IsKeyed-all :
    (m : Table Sub)
    → IsMap m
    → ((c : Bytes) (s : Sub) → get c m ≡ some s → s.channel_id ≡ c)
    → IsKeyed m
unfolding IsMap
IsKeyed-all [] once keyed = tt
IsKeyed-all ((k, t) ∷ m) once keyed = (
  keyed k t (get_head k k t m (=b_refl k)),
  IsKeyed-all m (once.1) (λ c s h. elim (Key-cases k c) [
    | inl e ↦ absurd (none-ne-some s (sym (once.0) ∙ (ap (λ (x : Bytes). get x m) e ∙ h)))
    | inr (e, _) ↦ keyed c s (get_rest k c t m e ∙ h)
  ]),
)

pub sound-IsKeyed : (r : Registry) → IsSound r → IsKeyed (r.sub_map)
sound-IsKeyed r sound = IsKeyed-all (r.sub_map) (sound.keys) (sound.indexed.keyed)
