-- ===== src/Subs/Index.antt =====
-- The token index of the registry of src/subs.rs: the operations keep it in step with the map of
-- subscriptions.
use mathlib.Core.Option.{some-injective, none-ne-some}
use yt_websub.Prelude.{
  Bool, false, Option, none, some, [], ◌≡◌, ◌≢◌, inl, inr, refl, sym, ap, ◌∙◌, subst, Bytes, ◌=b◌,
  =b_sound, if◌then◌else◌, Bool-cases, Option-cases,
}
use yt_websub.Prelude.Maps.{
  Table, get, put, delete, get-put-at, get-put-off, get-put-inv, get-delete-off, get-delete-inv,
  Key-cases, apart-ne,
}
use yt_websub.Subs.{Sub, Registry, drop_stale, update, by_token}

-- Every token leads to the subscription that has it, and every subscription is found by its token.
pub record IsIndexed (subs : Table Sub) (tokens : Table Bytes) : Type 0 where
  pub points :
      (t c : Bytes) → get t tokens ≡ some c → (s : Sub) × (get c subs ≡ some s) × (s.token ≡ t)
  pub pointed : (c : Bytes) (s : Sub) → get c subs ≡ some s → get (s.token) tokens ≡ some c
  pub keyed : (c : Bytes) (s : Sub) → get c subs ≡ some s → s.channel_id ≡ c

pub empty-IsIndexed : IsIndexed [] []
unfolding get
empty-IsIndexed = record {
  points = λ t c h. absurd (none-ne-some c h);
  pointed = λ c s h. absurd (none-ne-some s h);
  keyed = λ c s h. absurd (none-ne-some s h);
}

-- No other channel has the token.
abbrev pub IsFree : Sub → Table Bytes → Type 0
IsFree s tokens = (c : Bytes) → get (s.token) tokens ≡ some c → s.channel_id ≡ c

-- A token of another channel.
abbrev Elsewhere : Sub → Table Bytes → Bytes → Bytes → Type 0
Elsewhere s tokens t c = (get t tokens ≡ some c) × (s.channel_id =b c ≡ false)

module _ (s : Sub) (subs : Table Sub) (tokens : Table Bytes) (i : IsIndexed subs tokens) where
  -- A token of the channel of a subscription is that subscription's.
  same_token :
      (t c : Bytes) (old : Sub) → get t tokens ≡ some c → get c subs ≡ some old → t ≡ old.token
  same_token t c old h k =
      let found = i.points t c h in
      sym (found.2) ∙ ap (λ (x : Sub). x.token) (some-injective _ _ (sym (found.1) ∙ k))

  Elsewhere-unless :
      (t c : Bytes) → get t tokens ≡ some c → s.channel_id ≢ c → Elsewhere s tokens t c
  Elsewhere-unless t c h apart = elim (Key-cases (s.channel_id) c) [
    | inl e ↦ absurd (apart e)
    | inr (e, _) ↦ (h, e)
  ]

  -- What `drop_stale` leaves belongs to other channels, but for the token itself.
  stale_gone :
      (t c : Bytes)
      → s.token =b t ≡ false
      → get t (drop_stale s (get (s.channel_id) subs) tokens) ≡ some c
      → Elsewhere s tokens t c
  unfolding drop_stale
  stale_gone t c other h = elim (Option-cases (get (s.channel_id) subs)) [
    | inl n ↦
        let h' = subst (λ (o : Option Sub). get t (drop_stale s o tokens) ≡ some c) n h in
        let found = i.points t c h' in
        Elsewhere-unless t c h'
          (λ e. none-ne-some _ (sym n ∙ (ap (λ (x : Bytes). get x subs) e ∙ found.1)))
    | inr (old, k) ↦
        let h' = subst (λ (o : Option Sub). get t (drop_stale s o tokens) ≡ some c) k h in
        elim (Bool-cases (old.token =b s.token)) [
          | inl e ↦
              let g =
                subst
                  (λ (b : Bool). get t (if b then tokens else delete (old.token) tokens) ≡ some c) e
                  h' in
              Elsewhere-unless t c g (λ ch. apart-ne _ _ other (
                sym (=b_sound _ _ e)
                ∙ sym (same_token t c old g (ap (λ (x : Bytes). get x subs) (sym ch) ∙ k))))
          | inr e ↦
              let g = get-delete-inv t (old.token) c tokens (
                subst
                  (λ (b : Bool). get t (if b then tokens else delete (old.token) tokens) ≡ some c) e
                  h') in
              Elsewhere-unless t c (g.1) (λ ch.
                apart-ne _ _ (g.0)
                  (sym (same_token t c old (g.1) (ap (λ (x : Bytes). get x subs) (sym ch) ∙ k))))
        ]
  ]

  -- And it leaves every token of another channel.
  others_stay :
      (t c : Bytes)
      → Elsewhere s tokens t c
      → get t (drop_stale s (get (s.channel_id) subs) tokens) ≡ some c
  unfolding drop_stale
  others_stay t c h = elim (Option-cases (get (s.channel_id) subs)) [
    | inl n ↦ rw n (h.0)
    | inr (old, k) ↦ elim (Bool-cases (old.token =b s.token)) [
      | inl e ↦ rw (k, e) (h.0)
      | inr e ↦ elim (Key-cases (old.token) t) [
        | inl same ↦ absurd (
            apart-ne _ _ (h.1) (
              some-injective _ _
                (sym (i.pointed _ old k) ∙ (ap (λ (x : Bytes). get x tokens) same ∙ h.0))))
        | inr (f, _) ↦ rw (k, e) (get-delete-off t (old.token) tokens f ∙ h.0)
      ]
    ]
  ]

module _ (s : Sub) (r : Registry) (i : IsIndexed (r.sub_map) (r.token_map)) where
  updated_points :
      (t c : Bytes)
      → get t ((update s r).token_map) ≡ some c
      → (s' : Sub) × (get c ((update s r).sub_map) ≡ some s') × (s'.token ≡ t)
  unfolding update
  updated_points t c h = elim (get-put-inv t _ _ c _ h) [
    | inl (same, ch) ↦ (
      s,
      ap (λ (x : Bytes). get x (put (s.channel_id) s (r.sub_map))) (sym ch) ∙ get-put-at _ s _,
      same,
    )
    | inr (other, g) ↦
        let there = stale_gone s (r.sub_map) (r.token_map) i t c other g in
        let found = i.points t c (there.0) in
        (found.0, get-put-off c _ s _ (there.1) ∙ found.1, found.2)
  ]

  updated_pointed :
      IsFree s (r.token_map)
      → (c : Bytes) (s' : Sub) → get c ((update s r).sub_map) ≡ some s'
      → get (s'.token) ((update s r).token_map) ≡ some c
  unfolding update
  updated_pointed free c s' h = elim (get-put-inv c _ s s' _ h) [
    | inl (ch, same) ↦
        subst (λ (x : Sub). get (x.token) ((update s r).token_map) ≡ some c) same
          (get-put-at (s.token) (s.channel_id) _ ∙ ap (λ (x : Bytes). some x) ch)
    | inr (apart, g) ↦
        let home = i.pointed c s' g in
        elim (Key-cases (s.token) (s'.token)) [
          | inl e ↦
              absurd
                (apart-ne _ _ apart (free c (ap (λ (x : Bytes). get x (r.token_map)) e ∙ home)))
          | inr (e, _) ↦
              get-put-off (s'.token) _ _ _ e
              ∙ others_stay s (r.sub_map) (r.token_map) i (s'.token) c (home, apart)
        ]
  ]

  -- The invariant after an update whose token no other channel has.
  pub update-IsIndexed :
      IsFree s (r.token_map) → IsIndexed ((update s r).sub_map) ((update s r).token_map)
  unfolding update
  update-IsIndexed free = record {
    points = updated_points;
    pointed = updated_pointed free;
    keyed = λ c s' h. elim (get-put-inv c _ s s' _ h) [
      | inl (ch, same) ↦ ap (λ (x : Sub). x.channel_id) (sym same) ∙ ch
      | inr (_, g) ↦ i.keyed c s' g
    ];
  }

  -- In a registry whose index is right, the token of a subscription that is replaced by one with
  -- another token leads nowhere afterwards.
  pub update-superseded :
      (old : Sub)
      → get (s.channel_id) (r.sub_map) ≡ some old
      → s.token =b old.token ≡ false
      → by_token (old.token) (update s r) ≡ none
  unfolding by_token update
  update-superseded old h e = elim (Option-cases (get (old.token) ((update s r).token_map))) [
    | inl n ↦ rw n refl
    | inr (c, k) ↦
        let there =
          stale_gone s (r.sub_map) (r.token_map) i (old.token) c e
            (sym (get-put-off (old.token) _ _ _ e) ∙ k) in
        absurd (apart-ne _ _ (there.1) (some-injective _ _ (sym (i.pointed _ old h) ∙ there.0)))
  ]

pub update-found : (s : Sub) (r : Registry) → by_token (s.token) (update s r) ≡ some s
unfolding by_token update
update-found s r =
    rw
      (
        get-put-at (s.token) (s.channel_id)
            (drop_stale s (get (s.channel_id) (r.sub_map)) (r.token_map)),
        get-put-at (s.channel_id) s (r.sub_map),
      )
      refl
