-- ===== src/Renew/Preserved.antt =====
-- What a pass of src/renew.rs over the registry preserves: any property that each of its steps, and
-- what other threads do in between, preserves.
use mathlib.Core.Bool.{true≢false}
use yt_websub.Prelude.{
  ℕ, suc, ◌+◌, Bool, true, false, ◌&&◌, ◌||◌, not, Option, none, List, [], ◌∷◌, ◌≡◌, inl, inr, sym,
  ap, ◌∙◌, Bytes, ◌=b◌, Bool-cases, Option-cases, length, or-false, any,
}
use yt_websub.Prelude.Maps.{Table, get, put}
use yt_websub.Subs.{Sub, Registry, new_sub, insert, remove}
use yt_websub.Subs.Rows.{save}
use yt_websub.Subs.Life.{IsSound}
use yt_websub.Renew.{verdict}
use yt_websub.Renew.Due.{Hub}
use yt_websub.Renew.Desired.{contains, desired_set}
use yt_websub.Renew.Reconcile.{
  is_some, contains_key, to_add, to_remove, Random, fresh_sub, settle, subscribe, add_all,
  remove_all, changed, reconcile_locked,
}
use yt_websub.Resolve.{Fetch, is_channel_id}
use yt_websub.Renew.Listed.{AreChannels, desired_set-AreChannels, flipped}
use yt_websub.Renew.Has.{has}
use yt_websub.Renew.Channels.{KeepsChannels, has-subscribe, contains-to_add}
use yt_websub.Renew.Fresh.{
  AreNew, AreNew-later, KeepsFree, new_token, settle-KeepsFree, sound-IsKeyed,
}

-- What other threads do keeps the property and gives out no token.
abbrev pub Keeps : (Registry → Type 0) → Hub → Type 0
Keeps P h =
    (i : ℕ) (r : Registry)
    → P r
    → P (h.meanwhile i r) × KeepsFree (r.token_map) ((h.meanwhile i r).token_map)

-- The steps of a reconcile preserve `P`, which holds of sound registries only.
pub record IsPreserved (h : Hub) (random : Random) (P : Registry → Type 0) : Type 0 where
  pub is_sound : (r : Registry) → P r → IsSound r
  pub inserts :
      (i : ℕ) (c : Bytes) (r : Registry)
      → P r
      → is_channel_id c ≡ true
      → get c (r.sub_map) ≡ none
      → get (new_token random i) (r.token_map) ≡ none
      → P (insert (fresh_sub random i (h.attempts i) c) r)
  pub settles :
      (i : ℕ) (c : Bytes) (r : Registry)
      → P r
      → is_channel_id c ≡ true
      → P (
          settle
            (h.attempts i)
            (fresh_sub random i (h.attempts i) c)
            (verdict ((h.attempts i).sent))
            r)
  pub removes : (c : Bytes) (now : ℕ) (r : Registry) → P r → P ((remove c now r).0)
  pub saves : (r : Registry) → P r → P (save (h.saves) r)

-- Ids of channels of which none is there, and none twice.
unfoldable pub AreAbsent : List Bytes → Registry → Type 0
unfolding contains is_channel_id
AreAbsent [] r = Unit
AreAbsent (c ∷ more) r =
    (is_channel_id c ≡ true) × (has c r ≡ false) × (contains c more ≡ false) × AreAbsent more r

has-none : (c : Bytes) (r : Registry) → has c r ≡ false → get c (r.sub_map) ≡ none
unfolding contains_key
has-none c r h = elim (Option-cases (get c (r.sub_map))) [
  | inl n ↦ n
  | inr (s, e) ↦ absurd (true≢false (sym (ap is_some e) ∙ h))
]

module _ {h : Hub} {random : Random} (P : Registry → Type 0) (steps : IsPreserved h random P)
    (keeps : Keeps P h) where
  remove_all-keeps : (i : ℕ) (subs : List Sub) (r : Registry) → P r → P (remove_all h i subs r)
  unfolding remove_all
  remove_all-keeps i [] r p = p
  remove_all-keeps i (s ∷ more) r p =
      let at = (h.attempts i).ended in
      remove_all-keeps (suc i) more ((remove (s.channel_id) at (h.meanwhile i r)).0)
        (steps.removes (s.channel_id) at (h.meanwhile i r) ((keeps i r p).0))

  -- One new subscription.
  subscribe-keeps :
      (i : ℕ) (c : Bytes) (r : Registry)
      → P r
      → is_channel_id c ≡ true
      → has c r ≡ false
      → get (new_token random i) (r.token_map) ≡ none
      → (P (subscribe h random i c r))
        × KeepsFree
            (put (new_token random i) c (r.token_map))
            ((subscribe h random i c r).token_map)
  unfolding subscribe fresh_sub new_sub insert
  subscribe-keeps i c r p id absent free =
      let a = h.attempts i in
      let s = fresh_sub random i a c in
      let between = keeps i (insert s r) (steps.inserts i c r p id (has-none c r absent) free) in
      let there = h.meanwhile i (insert s r) in
      (
        steps.settles i c there (between.0) id,
        λ t k.
            settle-KeepsFree a s (verdict (a.sent)) there (steps.is_sound there (between.0)) t
              (between.1 t k),
      )

-- The channels still to add are absent after one that is not among them is added.
AreAbsent-later :
    (c : Bytes) (cs : List Bytes) (r next : Registry)
    → ((d : Bytes) → has d next ≡ c =b d || has d r)
    → contains c cs ≡ false
    → AreAbsent cs r
    → AreAbsent cs next
unfolding AreAbsent contains any
AreAbsent-later c [] r next adds apart h = tt
AreAbsent-later c (d ∷ cs) r next adds apart h =
    let (here, later) = or-false (d =b c) (contains c cs) apart in
    (
      h.0,
      adds d ∙ ap (λ (b : Bool). b || has d r) (flipped d c here) ∙ h.1,
      h.2,
      AreAbsent-later c cs r next adds later (h.3),
    )

module _ {h : Hub} {random : Random} (P : Registry → Type 0) (steps : IsPreserved h random P)
    (keeps : Keeps P h) (channels : KeepsChannels h) where
  add_all-keeps :
      (i : ℕ) (adds : List Bytes) (r : Registry)
      → P r
      → AreAbsent adds r
      → AreNew random i adds (r.token_map)
      → P (add_all h random i adds r)
  unfolding add_all AreAbsent AreNew
  add_all-keeps i [] r p absent new = p
  add_all-keeps i (c ∷ more) r p absent new =
      let next = subscribe h random i c r in
      let (still, free) = subscribe-keeps P steps keeps i c r p (absent.0) (absent.1) (new.0) in
      let keyed = sound-IsKeyed r (steps.is_sound r p) in
      add_all-keeps (suc i) more next still
        (AreAbsent-later c more r next (λ d. has-subscribe h channels d random i c r keyed)
          (absent.2) (absent.3))
        (AreNew-later random (suc i) more (put (new_token random i) c (r.token_map))
          (next.token_map) free (new.1))

-- What is added is absent.
to_add-AreAbsent :
    (cs : List Bytes) (r : Registry) → AreChannels cs → AreAbsent (to_add (r.sub_map) cs) r
unfolding AreAbsent AreChannels to_add
to_add-AreAbsent [] r h = tt
to_add-AreAbsent (c ∷ cs) r h = elim (Bool-cases (contains_key c (r.sub_map))) [
  | inl e ↦ rw e (to_add-AreAbsent cs r (h.2))
  | inr e ↦ rw e (
    h.0,
    e,
    contains-to_add c (r.sub_map) cs
        ∙ ap (λ (b : Bool). b && not (contains_key c (r.sub_map))) (h.1),
    to_add-AreAbsent cs r (h.2),
  )
]

module _ {h : Hub} {random : Random} (P : Registry → Type 0) (steps : IsPreserved h random P)
    (keeps : Keeps P h) (channels : KeepsChannels h) where
  pub reconcile_locked-keeps :
      (fetch : ℕ → Fetch) (file : Option Bytes) (cache : Table Bytes) (r : Registry)
      → P r
      → AreNew random 0 (to_add (r.sub_map) ((desired_set fetch file cache).channels)) (r.token_map)
      → P ((reconcile_locked h random (desired_set fetch file cache) r).0)
  unfolding reconcile_locked changed
  reconcile_locked-keeps fetch file cache r p new =
      let d = desired_set fetch file cache in
      let adds = to_add (r.sub_map) (d.channels) in
      let removes = to_remove d (r.sub_map) in
      let still = remove_all-keeps P steps keeps (length adds) removes (add_all h random 0 adds r) (
        add_all-keeps P steps keeps channels 0 adds r p
          (to_add-AreAbsent (d.channels) r (desired_set-AreChannels fetch file cache)) new) in
      let n = length adds + length removes in
      let left = changed h random d r in steps.saves (h.meanwhile n left) ((keeps n left still).0)
