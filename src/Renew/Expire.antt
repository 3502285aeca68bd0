-- ===== src/Renew/Expire.antt =====
-- `expire_lapsed` of src/renew.rs: afterwards no subscription claims to be active past its lease.
use mathlib.Core.Option.{none-ne-some, some-injective}
use yt_websub.Prelude.{
  ℕ, Bool, true, false, ◌||◌, Option, none, some, List, [], ◌∷◌, ◌≡◌, inl, inr, refl, sym, ap, ◌∙◌,
  subst, Bytes, codes, ◌=b◌, =b_refl, =b_sound, if◌then◌else◌, Bool-cases, All,
}
use yt_websub.Prelude.Maps.{Table, get, IsMap, Key-cases}
use yt_websub.Util.Atomic.{Fate}
use yt_websub.Subs.{Sub, Registry}
use yt_websub.Renew.{lapses, lapsed, expired, set_expired, expire_all, expire_found, expire_lapsed}

-- Each subscription stands under its channel.
abbrev pub IsKeyed : Table Sub → Type 0
IsKeyed = All (λ p. p.1.channel_id ≡ p.0)

-- What the operation makes of one subscription.
abbrev pub demoted : ℕ → Sub → Sub
demoted now s = if lapses now s then expired s else s

abbrev pub demoted_if : ℕ → Option Sub → Option Sub
demoted_if now none = none
demoted_if now (some s) = some (demoted now s)

abbrev pub expired_if : Bool → Option Sub → Option Sub
expired_if b none = none
expired_if b (some s) = some (if b then expired s else s)

expired_if-false : (o : Option Sub) → o ≡ expired_if false o
expired_if-false none = refl
expired_if-false (some s) = refl

apart_from : (c d cid : Bytes) → c =b d ≡ true → cid =b c ≡ false → cid =b d ≡ false
apart_from c d cid k e = subst (λ (x : Bytes). cid =b x ≡ false) (=b_sound c d k) e

pub get-set_expired :
    (d cid : Bytes) (m : Table Sub) → get d (set_expired cid m) ≡ expired_if (cid =b d) (get d m)
unfolding get set_expired
get-set_expired d cid [] = refl
get-set_expired d cid ((c, s) ∷ m) = elim (Key-cases c cid) [
  | inl e ↦ elim (Bool-cases (c =b d)) [
    | inl k ↦ rw (← e, =b_refl c, k) refl
    | inr k ↦ rw (← e, =b_refl c, k) (expired_if-false (get d m))
  ]
  | inr (e, swapped) ↦ elim (Bool-cases (c =b d)) [
    | inl k ↦ rw (e, k, apart_from c d cid k swapped) refl
    | inr k ↦ rw (e, k) (get-set_expired d cid m)
  ]
]

expired_twice :
    (a b : Bool) (o : Option Sub) → expired_if b (expired_if a o) ≡ expired_if (a || b) o
expired_twice a b none = refl
expired_twice true true (some s) = refl
expired_twice true false (some s) = refl
expired_twice false b (some s) = refl

-- Whether a channel is in the list.
abbrev is_in : Bytes → List Bytes → Bool
is_in d [] = false
is_in d (c ∷ more) = (c =b d) || is_in d more

get-expire_all :
    (d : Bytes) (cs : List Bytes) (m : Table Sub)
    → get d (expire_all cs m) ≡ expired_if (is_in d cs) (get d m)
unfolding expire_all
get-expire_all d [] m = expired_if-false (get d m)
get-expire_all d (c ∷ cs) m =
    get-expire_all d cs (set_expired c m)
    ∙ ap (expired_if (is_in d cs)) (get-set_expired d c m)
    ∙ expired_twice (c =b d) (is_in d cs) (get d m)

abbrev lapses_if : ℕ → Option Sub → Bool
lapses_if now none = false
lapses_if now (some s) = lapses now s

is_in-if :
    (c : Bytes) (b : Bool) (key : Bytes) (more : List Bytes)
    → key ≡ c
    → is_in c more ≡ false
    → is_in c (if b then key ∷ more else more) ≡ b
is_in-if c true key more e h = rw (e, =b_refl c) refl
is_in-if c false key more e h = h

is_in-lapsed_at :
    (now : ℕ) (c : Bytes) (s : Sub) (m : Table Sub)
    → s.channel_id ≡ c
    → is_in c (lapsed now m) ≡ false
    → is_in c (lapsed now ((c, s) ∷ m)) ≡ lapses_if now (get c ((c, s) ∷ m))
unfolding get lapsed
is_in-lapsed_at now c s m keyed out =
    is_in-if c (lapses now s) (s.channel_id) (lapsed now m) keyed out
    ∙ ap (λ (b : Bool). lapses_if now (if b then some s else get c m)) (sym (=b_refl c))

is_in-lapsed :
    (now : ℕ) (d : Bytes) (m : Table Sub)
    → IsMap m
    → IsKeyed m
    → is_in d (lapsed now m) ≡ lapses_if now (get d m)
unfolding get lapsed IsMap
is_in-lapsed now d [] once keyed = refl
is_in-lapsed now d ((c, s) ∷ m) once keyed = elim (Key-cases c d) [
  | inl e ↦
      subst (λ (x : Bytes). is_in x (lapsed now ((c, s) ∷ m)) ≡ lapses_if now (get x ((c, s) ∷ m)))
        e
        (is_in-lapsed_at now c s m (keyed.0)
          (is_in-lapsed now c m (once.1) (keyed.1) ∙ ap (lapses_if now) (once.0)))
  | inr (e, _) ↦ elim (Bool-cases (lapses now s)) [
    | inl k ↦ rw (k, keyed.0, e) (is_in-lapsed now d m (once.1) (keyed.1))
    | inr k ↦ rw (k, e) (is_in-lapsed now d m (once.1) (keyed.1))
  ]
]

demoted-lapses : (now : ℕ) (o : Option Sub) → expired_if (lapses_if now o) o ≡ demoted_if now o
demoted-lapses now none = refl
demoted-lapses now (some s) = refl

expire_found-map :
    (fate : Fate) (cids : List Bytes) (r : Registry)
    → (expire_found fate cids r).sub_map ≡ expire_all cids (r.sub_map)
unfolding expire_found expire_all
expire_found-map fate [] r = refl
expire_found-map fate (cid ∷ more) r = refl

pub expire_lapsed-map :
    (fate : Fate) (now : ℕ) (r : Registry)
    → (expire_lapsed fate now r).sub_map ≡ expire_all (lapsed now (r.sub_map)) (r.sub_map)
unfolding expire_lapsed
expire_lapsed-map fate now r = expire_found-map fate (lapsed now (r.sub_map)) r

get-expire_lapsed :
    (fate : Fate) (now : ℕ) (d : Bytes) (r : Registry)
    → IsMap (r.sub_map)
    → IsKeyed (r.sub_map)
    → get d ((expire_lapsed fate now r).sub_map) ≡ demoted_if now (get d (r.sub_map))
get-expire_lapsed fate now d r once keyed =
    ap (get d) (expire_lapsed-map fate now r)
    ∙ get-expire_all d (lapsed now (r.sub_map)) (r.sub_map)
    ∙ ap (λ (b : Bool). expired_if b (get d (r.sub_map)))
        (is_in-lapsed now d (r.sub_map) once keyed)
    ∙ demoted-lapses now (get d (r.sub_map))

expired_state : codes "expired" =b codes "active" ≡ false
unfolding ◌=b◌
expired_state = refl

demoted-lapses-false : (now : ℕ) (s : Sub) → lapses now (demoted now s) ≡ false
demoted-lapses-false now s = elim (Bool-cases (lapses now s)) [
  | inl e ↦ rw (e, expired_state) refl
  | inr e ↦ rw e e
]

none_lapses :
    (now : ℕ) (o : Option Sub) (s : Sub) → demoted_if now o ≡ some s → lapses now s ≡ false
none_lapses now none s h = absurd (none-ne-some s h)
none_lapses now (some x) s h =
    subst (λ (t : Sub). lapses now t ≡ false) (some-injective _ _ h) (demoted-lapses-false now x)

-- In a registry without a channel twice, each subscription under its channel, the operation leaves
-- at each channel what was there, demoted to `expired` if it was active and its lease had run out; no
-- subscription is then active past its lease. How the file is written does not matter.
pub expire_lapsed-demoted :
    (fate : Fate) (now : ℕ) (r : Registry)
    → IsMap (r.sub_map)
    → IsKeyed (r.sub_map)
    → (d : Bytes)
    → (get d ((expire_lapsed fate now r).sub_map) ≡ demoted_if now (get d (r.sub_map)))
      × ((s : Sub) → get d ((expire_lapsed fate now r).sub_map) ≡ some s → lapses now s ≡ false)
expire_lapsed-demoted fate now r once keyed d =
    let same = get-expire_lapsed fate now d r once keyed in
    (same, λ s h. none_lapses now (get d (r.sub_map)) s (sym same ∙ h))
