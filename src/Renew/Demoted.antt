-- ===== src/Renew/Demoted.antt =====
-- `expire_lapsed` and `renew_due` of src/renew.rs leave the registry, and its file, in a state from
-- which a restart can go on.
use mathlib.Core.Option.{none-ne-some, some-injective}
use yt_websub.Prelude.{
  ℕ, suc, Bool, true, false, Option, none, some, List, [], ◌∷◌, ◌≡◌, ◌⊎◌, inl, inr, refl, sym, ap,
  ◌∙◌, subst, Bytes, ◌=b◌, Bool-cases, All,
}
use yt_websub.Prelude.Maps.{Table, get, IsMap}
use yt_websub.Util.Atomic.{Fate}
use yt_websub.Subs.{Sub, Registry}
use yt_websub.Subs.Row.{IsSub}
use yt_websub.Subs.Index.{IsIndexed}
use yt_websub.Subs.Entries.{Everywhere, Fits, IsMap-tail, get-head, get-tail}
use yt_websub.Subs.Kept.{IsKept, save-IsKept}
use yt_websub.Renew.{
  merge_attempt, lapsed, expired, set_expired, expire_all, expire_found, expire_lapsed,
}
use yt_websub.Renew.Expire.{expired_if, get-set_expired}
use yt_websub.Renew.Due.{Hub, renewed, renew_all, renew_due, candidates, is_due}
use yt_websub.Renew.Fits.{renewed-IsSub, expired-IsSub}
use yt_websub.Renew.Kept.{IsOutside, merge_attempt-IsKept}

-- A subscription that is expired or not.
abbrev CameFrom : Sub → Sub → Type 0
CameFrom s s' = (s' ≡ s) ⊎ (s' ≡ expired s)

expired_if-some :
    (b : Bool) (o : Option Sub) (s' : Sub)
    → expired_if b o ≡ some s'
    → (s : Sub) × (o ≡ some s) × CameFrom s s'
expired_if-some b none s' h = absurd (none-ne-some s' h)
expired_if-some true (some s) s' h = (s, refl, inr (sym (some-injective _ _ h)))
expired_if-some false (some s) s' h = (s, refl, inl (sym (some-injective _ _ h)))

came-keys : (s s' : Sub) → CameFrom s s' → (s'.token ≡ s.token) × (s'.channel_id ≡ s.channel_id)
came-keys s s' (inl e) = (ap (λ (x : Sub). x.token) e, ap (λ (x : Sub). x.channel_id) e)
came-keys s s' (inr e) = (ap (λ (x : Sub). x.token) e, ap (λ (x : Sub). x.channel_id) e)

came-IsSub : (s s' : Sub) → CameFrom s s' → IsSub s → IsSub s'
came-IsSub s s' (inl e) good = subst IsSub (sym e) good
came-IsSub s s' (inr e) good = subst IsSub (sym e) (expired-IsSub s good)

set_expired-IsMap : (cid : Bytes) (m : Table Sub) → IsMap m → IsMap (set_expired cid m)
unfolding IsMap set_expired
set_expired-IsMap cid [] once = tt
set_expired-IsMap cid ((k, s) ∷ m) once = elim (Bool-cases (k =b cid)) [
  | inl e ↦ rw e once
  | inr e ↦ rw e (
    get-set_expired k cid m ∙ ap (expired_if (cid =b k)) (once.0),
    set_expired-IsMap cid m (once.1),
  )
]

module _ (cid : Bytes) (m : Table Sub) where
  set_expired-inv :
      (c : Bytes) (s' : Sub)
      → get c (set_expired cid m) ≡ some s'
      → (s : Sub) × (get c m ≡ some s) × CameFrom s s'
  set_expired-inv c s' h =
      expired_if-some (cid =b c) (get c m) s' (sym (get-set_expired c cid m) ∙ h)

  set_expired-found :
      (c : Bytes) (s : Sub)
      → get c m ≡ some s
      → (s' : Sub) × (get c (set_expired cid m) ≡ some s') × (s'.token ≡ s.token)
  set_expired-found c s h =
      let found = get-set_expired c cid m ∙ ap (expired_if (cid =b c)) h in
      elim (Bool-cases (cid =b c)) [
        | inl e ↦ (expired s, found ∙ rw e refl, refl)
        | inr e ↦ (s, found ∙ rw e refl, refl)
      ]

  set_expired-IsIndexed :
      (tokens : Table Bytes) → IsIndexed m tokens → IsIndexed (set_expired cid m) tokens
  set_expired-IsIndexed tokens i = record {
    points = λ t d k.
        (let (s, found, same) = i.points t d k in
          let (s', found', same') = set_expired-found d s found in (s', found', same' ∙ same));
    pointed = λ c s' k.
        (let (s, found, from) = set_expired-inv c s' k in
          ap (λ (x : Bytes). get x tokens) ((came-keys s s' from).0) ∙ i.pointed c s found);
    keyed = λ c s' k.
        (let (s, found, from) = set_expired-inv c s' k in
          (came-keys s s' from).1 ∙ i.keyed c s found);
  }

set_expired-IsKept :
    (cid : Bytes) (r : Registry)
    → IsKept r
    → IsKept (record r { sub_map = set_expired cid (r.sub_map) })
set_expired-IsKept cid r k = record {
  sound = record {
    keys = set_expired-IsMap cid (r.sub_map) k.sound.keys;
    indexed = set_expired-IsIndexed cid (r.sub_map) (r.token_map) k.sound.indexed;
    graves = k.sound.graves;
  };
  fits = λ c s' h.
      (let (s, found, from) = set_expired-inv cid (r.sub_map) c s' h in
        came-IsSub s s' from (k.fits c s found));
  stored = k.stored;
}

expire_all-IsKept :
    (cids : List Bytes) (r : Registry)
    → IsKept r
    → IsKept (record r { sub_map = expire_all cids (r.sub_map) })
unfolding expire_all
expire_all-IsKept [] r k = k
expire_all-IsKept (cid ∷ more) r k =
    expire_all-IsKept more (record r { sub_map = set_expired cid (r.sub_map) })
      (set_expired-IsKept cid r k)

expire_found-IsKept :
    (fate : Fate) (cids : List Bytes) (r : Registry) → IsKept r → IsKept (expire_found fate cids r)
unfolding expire_found
expire_found-IsKept fate [] r k = k
expire_found-IsKept fate (cid ∷ more) r k =
    save-IsKept fate (record r { sub_map = expire_all (cid ∷ more) (r.sub_map) })
      (expire_all-IsKept (cid ∷ more) r k)

candidates-Fits :
    (now : ℕ) (m : Table Sub) → IsMap m → Everywhere Fits m → All IsSub (candidates now m)
unfolding candidates
candidates-Fits now [] once fits = tt
candidates-Fits now ((c, s) ∷ m) once fits =
    let rest =
      candidates-Fits now m (IsMap-tail c s m once)
        (λ d s' h. fits d s' (get-tail c s m d s' once h)) in
    elim (Bool-cases (is_due now s)) [
      | inl e ↦ rw e (fits c s (get-head c s m), rest)
      | inr e ↦ rw e rest
    ]

module _ (h : Hub) (outside : IsOutside h) where
  renew_all-IsKept :
      (i : ℕ) (subs : List Sub) (r : Registry)
      → All IsSub subs
      → IsKept r
      → IsKept (renew_all h i subs r)
  unfolding renew_all
  renew_all-IsKept i [] r good k = k
  renew_all-IsKept i (s ∷ more) r good k =
      let a = h.attempts i in
      renew_all-IsKept (suc i) more (merge_attempt (a.saves) (renewed a s) (h.meanwhile i r))
        (good.1)
        (merge_attempt-IsKept (a.saves) (renewed a s) (h.meanwhile i r) ((outside.keeps i r k).0)
          (renewed-IsSub s (good.0) a (outside.real i)))

  pub renew_due-IsKept : (r : Registry) → IsKept r → IsKept (renew_due h r)
  unfolding renew_due expire_lapsed
  renew_due-IsKept r k =
      let lapsed_kept = expire_found-IsKept (h.saves) (lapsed (h.now) (r.sub_map)) r k in
      let kept = (outside.keeps 0 (expire_lapsed (h.saves) (h.now) r) lapsed_kept).0 in
      let after = h.meanwhile 0 (expire_lapsed (h.saves) (h.now) r) in
      renew_all-IsKept 1 (candidates (h.now) (after.sub_map)) after
        (candidates-Fits (h.now) (after.sub_map) kept.sound.keys kept.fits) kept
