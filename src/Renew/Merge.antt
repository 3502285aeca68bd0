-- ===== src/Renew/Merge.antt =====
-- `merge_attempt` of src/renew.rs: the outcome of an attempt is merged into the registry.
use mathlib.Core.Option.{some-injective}
use yt_websub.Prelude.{
  false, some, ◌≡◌, ◌⊎◌, inl, inr, refl, sym, ap, ◌∙◌, subst, Bytes, codes, ◌=b◌, =b_sound, =b_refl,
  Bool-cases, Option-cases,
}
use yt_websub.Prelude.Maps.{get, put, get-put-at, get-put-off, Key-cases}
use yt_websub.Subs.{Sub, Registry, update}
use yt_websub.Subs.Life.{IsSound, update-IsSound, save-IsSound}
use yt_websub.Util.Atomic.{Fate}
use yt_websub.Subs.Rows.{save}
use yt_websub.Renew.{merged, merge_attempt}

-- What the merge has, by the cases of its code.
module _ (fate : Fate) (s : Sub) (r : Registry) where
  pub merge_attempt-cases :
      (merge_attempt fate s r ≡ r)
      ⊎ ((cur : Sub) × (get (s.channel_id) (r.sub_map) ≡ some cur)
          × (cur.token ≡ s.token)
          × (merge_attempt fate s r ≡ save fate (update (merged cur s) r)))
  unfolding merge_attempt
  merge_attempt-cases = elim (Option-cases (get (s.channel_id) (r.sub_map))) [
    | inl n ↦ inl (rw (merge_attempt, n) refl)
    | inr (cur, e) ↦ elim (Bool-cases (cur.token =b s.token)) [
      | inl k ↦ inr (cur, e, =b_sound _ _ k, rw (merge_attempt, e, k) refl)
      | inr k ↦ inl (rw (merge_attempt, e, k) refl)
    ]
  ]

pub merged-keys :
    (cur s : Sub) → ((merged cur s).channel_id ≡ s.channel_id) × ((merged cur s).token ≡ s.token)
unfolding merged
merged-keys cur s = elim (Bool-cases (cur.state =b codes "active")) [
  | inl e ↦ rw (merged, e) (refl, refl)
  | inr e ↦ rw (merged, e) (refl, refl)
]

merged-active :
    (cur s : Sub)
    → cur.state ≡ codes "active"
    → ((merged cur s).state ≡ codes "active") × ((merged cur s).expires_at ≡ cur.expires_at)
unfolding merged
merged-active cur s a =
    let e = ap (λ (t : Bytes). t =b codes "active") a ∙ =b_refl (codes "active") in
    rw (merged, e) (refl, refl)

-- A merge leaves a sound registry sound.
pub merge_attempt-IsSound :
    (fate : Fate) (s : Sub) (r : Registry) → IsSound r → IsSound (merge_attempt fate s r)
merge_attempt-IsSound fate s r sound = elim (merge_attempt-cases fate s r) [
  | inl e ↦ subst IsSound (sym e) sound
  | inr (cur, h, t, e) ↦
      (let (same_channel, same_token) = merged-keys cur s in
        subst IsSound (sym e) (
          save-IsSound fate (update (merged cur s) r) (
            update-IsSound (merged cur s) r sound (λ c k.
              same_channel
              ∙ some-injective _ _ (
                  sym (sound.indexed.pointed (s.channel_id) cur h)
                  ∙ (ap (λ (x : Bytes). get x (r.token_map)) (t ∙ sym same_token) ∙ k))))))
]

-- What stands in the registry at a channel that was active.
abbrev pub StaysActive : Bytes → Sub → Registry → Type 0
StaysActive c before after =
    (s : Sub) × (get c (after.sub_map) ≡ some s)
    × (s.state ≡ codes "active")
    × (s.expires_at ≡ before.expires_at)

merged_found :
    (cur s : Sub) (r : Registry)
    → get (s.channel_id) ((update (merged cur s) r).sub_map) ≡ some (merged cur s)
unfolding update
merged_found cur s r =
    ap (λ (c : Bytes). get c (put ((merged cur s).channel_id) (merged cur s) (r.sub_map)))
      (sym ((merged-keys cur s).0))
    ∙ get-put-at ((merged cur s).channel_id) (merged cur s) (r.sub_map)

merged_other :
    (cur s : Sub) (r : Registry) (c : Bytes)
    → s.channel_id =b c ≡ false
    → get c ((update (merged cur s) r).sub_map) ≡ get c (r.sub_map)
unfolding update
merged_other cur s r c e =
    get-put-off c ((merged cur s).channel_id) (merged cur s) (r.sub_map)
      (ap (λ (x : Bytes). x =b c) ((merged-keys cur s).0) ∙ e)

merge_attempt-StaysActive :
    (fate : Fate) (s : Sub) (r : Registry) (c : Bytes) (before : Sub)
    → get c (r.sub_map) ≡ some before
    → before.state ≡ codes "active"
    → StaysActive c before (merge_attempt fate s r)
merge_attempt-StaysActive fate s r c before found active = elim (merge_attempt-cases fate s r) [
  | inl e ↦ subst (StaysActive c before) (sym e) (before, found, active, refl)
  | inr (cur, h, t, e) ↦ subst (StaysActive c before) (sym e) (elim (Key-cases (s.channel_id) c) [
    | inr (apart, _) ↦ (before, merged_other cur s r c apart ∙ found, active, refl)
    | inl same ↦
        (let own =
            some-injective _ _ (sym h ∙ (ap (λ (x : Bytes). get x (r.sub_map)) same ∙ found)) in
          let (state, expires) = merged-active cur s (ap (λ (x : Sub). x.state) own ∙ active) in
          (
            merged cur s,
            ap (λ (x : Bytes). get x ((update (merged cur s) r).sub_map)) (sym same)
                ∙ merged_found cur s r,
            state,
            expires ∙ ap (λ (x : Sub). x.expires_at) own,
          ))
  ])
]

-- The outcome of an attempt, accepted or refused, leaves a sound registry sound and every channel
-- that is active by then active, with the expiry that it has.
pub merge_attempt-keeps_active :
    (fate : Fate) (s : Sub) (r : Registry)
    → IsSound r
    → IsSound (merge_attempt fate s r)
      × ((c : Bytes) (before : Sub)
          → get c (r.sub_map) ≡ some before
          → before.state ≡ codes "active"
          → StaysActive c before (merge_attempt fate s r))
merge_attempt-keeps_active fate s r sound =
    (merge_attempt-IsSound fate s r sound, merge_attempt-StaysActive fate s r)
