-- ===== src/Renew/Wanted.antt =====
-- `reconcile_locked` and `renew_due` of src/renew.rs: which channels they leave.
use yt_websub.Prelude.{
  ℕ, suc, Bool, true, false, ◌&&◌, ◌||◌, not, List, [], ◌∷◌, ◌≡◌, inl, inr, refl, sym, ap, ◌∙◌,
  subst, Bytes, ◌=b◌, Bool-cases, Option, some, none, length, any,
}
use yt_websub.Prelude.Maps.{Table, get}
use yt_websub.Subs.{Sub, Registry}
use yt_websub.Renew.{merge_attempt, set_expired, expire_all, lapsed, expire_lapsed}
use yt_websub.Renew.Expire.{IsKeyed, expire_lapsed-map, expired_if, get-set_expired}
use yt_websub.Renew.Due.{Hub, candidates, renewed, renew_all, renew_due}
use yt_websub.Renew.Desired.{Desired, contains}
use yt_websub.Renew.Reconcile.{
  to_add, to_remove, unwanted, is_some, contains_key, Random, add_all, changed, reconcile_locked,
}
use yt_websub.Renew.Has.{has, has-merge_attempt, merge_attempt-IsKeyed}
use yt_websub.Renew.Channels.{
  names, KeepsChannels, add_all-IsKeyed, has-add_all, has-remove_all, remove_all-IsKeyed,
  contains-to_add, names-unwanted,
}

-- The channels that are removed.
names-to_remove :
    (c : Bytes) (d : Desired) (m : Table Sub)
    → IsKeyed m
    → names c (to_remove d m) ≡ d.complete && names c (unwanted (d.channels) m)
unfolding to_remove any
names-to_remove c d m keyed = elim (Bool-cases (d.complete)) [
  | inl e ↦ rw e refl
  | inr e ↦ rw e refl
]

-- What is wanted or there, less what is there and not wanted, in a complete set.
wanted :
    (w k complete : Bool)
    → ((w && not k) || k) && not (complete && (k && not w)) ≡ w || (not complete && k)
wanted true true true = refl
wanted true true false = refl
wanted true false true = refl
wanted true false false = refl
wanted false true true = refl
wanted false true false = refl
wanted false false true = refl
wanted false false false = refl

changed-wanted :
    (h : Hub) (random : Random) (d : Desired) (r : Registry)
    → KeepsChannels h
    → IsKeyed (r.sub_map)
    → (c : Bytes)
    → has c (changed h random d r) ≡ contains c (d.channels) || (not (d.complete) && has c r)
unfolding changed
changed-wanted h random d r keeps keyed c =
    let adds = to_add (r.sub_map) (d.channels) in
    let removes = to_remove d (r.sub_map) in
    has-remove_all h keeps c (length adds) removes (add_all h random 0 adds r)
      (add_all-IsKeyed h keeps c random 0 adds r keyed)
    ∙ ap (λ (b : Bool). b && not (names c removes))
        (has-add_all h keeps c random 0 adds r keyed
          ∙ ap (λ (b : Bool). b || has c r) (contains-to_add c (r.sub_map) (d.channels)))
    ∙ ap (λ (b : Bool). ((contains c (d.channels) && not (has c r)) || has c r) && not b)
        (names-to_remove c d (r.sub_map) keyed
          ∙ ap (λ (b : Bool). d.complete && b) (names-unwanted c (d.channels) (r.sub_map) keyed))
    ∙ wanted (contains c (d.channels)) (has c r) (d.complete)

changed-IsKeyed :
    (h : Hub) (random : Random) (d : Desired) (r : Registry)
    → KeepsChannels h
    → IsKeyed (r.sub_map)
    → IsKeyed ((changed h random d r).sub_map)
unfolding changed
changed-IsKeyed h random d r keeps keyed =
    let adds = to_add (r.sub_map) (d.channels) in
    remove_all-IsKeyed h keeps [] (length adds) (to_remove d (r.sub_map))
      (add_all h random 0 adds r) (add_all-IsKeyed h keeps [] random 0 adds r keyed)

-- While other threads add and drop no channel, a reconcile leaves exactly the channels that are asked
-- for if all entries were resolved; otherwise it leaves those and every channel that was there.
pub reconcile_locked-wanted :
    (h : Hub) (random : Random) (d : Desired) (r : Registry)
    → KeepsChannels h
    → IsKeyed (r.sub_map)
    → (c : Bytes)
    → has c ((reconcile_locked h random d r).0)
      ≡ contains c (d.channels) || (not (d.complete) && has c r)
unfolding reconcile_locked
reconcile_locked-wanted h random d r keeps keyed c =
    (keeps _ (changed h random d r) (changed-IsKeyed h random d r keeps keyed)).1 c
    ∙ changed-wanted h random d r keeps keyed c

pub reconcile_locked-IsKeyed :
    (h : Hub) (random : Random) (d : Desired) (r : Registry)
    → KeepsChannels h
    → IsKeyed (r.sub_map)
    → IsKeyed ((reconcile_locked h random d r).0.sub_map)
unfolding reconcile_locked
reconcile_locked-IsKeyed h random d r keeps keyed =
    (keeps _ (changed h random d r) (changed-IsKeyed h random d r keeps keyed)).0

is_some-expired_if : (b : Bool) (o : Option Sub) → is_some (expired_if b o) ≡ is_some o
is_some-expired_if b none = refl
is_some-expired_if true (some s) = refl
is_some-expired_if false (some s) = refl

contains_key-expire_all :
    (c : Bytes) (cids : List Bytes) (m : Table Sub)
    → contains_key c (expire_all cids m) ≡ contains_key c m
unfolding expire_all contains_key
contains_key-expire_all c [] m = refl
contains_key-expire_all c (cid ∷ more) m =
    contains_key-expire_all c more (set_expired cid m)
    ∙ ap is_some (get-set_expired c cid m)
    ∙ is_some-expired_if (cid =b c) (get c m)

set_expired-IsKeyed : (cid : Bytes) (m : Table Sub) → IsKeyed m → IsKeyed (set_expired cid m)
unfolding set_expired
set_expired-IsKeyed cid [] h = tt
set_expired-IsKeyed cid ((k, s) ∷ m) h = elim (Bool-cases (k =b cid)) [
  | inl e ↦ rw e ((h.0, h.1))
  | inr e ↦ rw e ((h.0, set_expired-IsKeyed cid m (h.1)))
]

expire_all-IsKeyed : (cids : List Bytes) (m : Table Sub) → IsKeyed m → IsKeyed (expire_all cids m)
unfolding expire_all
expire_all-IsKeyed [] m h = h
expire_all-IsKeyed (cid ∷ more) m h =
    expire_all-IsKeyed more (set_expired cid m) (set_expired-IsKeyed cid m h)

module _ (h : Hub) (keeps : KeepsChannels h) (c : Bytes) where
  has-renew_all :
      (i : ℕ) (subs : List Sub) (r : Registry)
      → IsKeyed (r.sub_map)
      → has c (renew_all h i subs r) ≡ has c r
  unfolding renew_all
  has-renew_all i [] r keyed = refl
  has-renew_all i (s ∷ more) r keyed =
      let (still_keyed, same) = keeps i r keyed in
      let tried = renewed (h.attempts i) s in
      has-renew_all (suc i) more (merge_attempt ((h.attempts i).saves) tried (h.meanwhile i r))
        (merge_attempt-IsKeyed ((h.attempts i).saves) tried (h.meanwhile i r) still_keyed)
      ∙ has-merge_attempt c ((h.attempts i).saves) tried (h.meanwhile i r)
      ∙ same c

  -- While other threads add and drop no channel, neither does a pass over the subscriptions that are
  -- due, whatever the hub answers.
  pub renew_due-channels : (r : Registry) → IsKeyed (r.sub_map) → has c (renew_due h r) ≡ has c r
  unfolding renew_due
  renew_due-channels r keyed =
      let before = expire_lapsed (h.saves) (h.now) r in
      let expired = expire_lapsed-map (h.saves) (h.now) r in
      let (still_keyed, same) = keeps 0 before (
        subst IsKeyed (sym expired)
          (expire_all-IsKeyed (lapsed (h.now) (r.sub_map)) (r.sub_map) keyed)) in
      let after = h.meanwhile 0 before in
      has-renew_all 1 (candidates (h.now) (after.sub_map)) after still_keyed
      ∙ same c
      ∙ ap (contains_key c) expired
      ∙ contains_key-expire_all c (lapsed (h.now) (r.sub_map)) (r.sub_map)
