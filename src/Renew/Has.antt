-- ===== src/Renew/Has.antt =====
-- Which channels a registry has, and under which keys, after one change of src/renew.rs.
use mathlib.Core.Bool.{true≢false}
use mathlib.Core.Option.{some-injective, none-ne-some}
use yt_websub.Prelude.{
  and-false, ℕ, Bool, true, false, ◌&&◌, ◌||◌, not, Option, none, some, [], ◌∷◌, ◌≡◌, inl, inr,
  refl, sym, ap, ◌∙◌, subst, Bytes, ◌=b◌, if◌then◌else◌, Bool-cases, Option-cases, =b_sound,
}
use yt_websub.Prelude.Maps.{Table, get, put, delete, get-put, get-delete}
use yt_websub.Util.Atomic.{Fate}
use yt_websub.Subs.{Sub, Registry, insert, update, remove, remove_found, sweep_unsub}
use yt_websub.Renew.{merge_attempt, merged}
use yt_websub.Renew.Merge.{merge_attempt-cases, merged-keys}
use yt_websub.Renew.Expire.{IsKeyed}
use yt_websub.Renew.Due.{Attempt}
use yt_websub.Renew.Reconcile.{is_some, contains_key, failed_sub, settle}

-- Whether the registry has a channel.
abbrev pub has : Bytes → Registry → Bool
has c r = contains_key c (r.sub_map)

pub and-true : (b : Bool) → b && true ≡ b
and-true true = refl
and-true false = refl

pub or_move : (a b d : Bool) → a || (b || d) ≡ (b || a) || d
or_move true true d = refl
or_move true false d = refl
or_move false true d = refl
or_move false false d = refl

pub and_move : (a b d : Bool) → (a && not b) && not d ≡ a && not (b || d)
and_move false b d = refl
and_move true true d = refl
and_move true false d = refl

-- One more element, which is left out if `e`.
pub one_more :
    (e x w k : Bool)
    → (x ≡ true → e ≡ k)
    → (if e then w && not k else x || (w && not k)) ≡ (x || w) && not k
one_more true true w true h = and-false w
one_more true true w false h = absurd (true≢false (h refl))
one_more true false w k h = refl
one_more false true w true h = absurd (true≢false (sym (h refl)))
one_more false true w false h = refl
one_more false false w k h = refl

pub is_some-if-some :
    {V : Type 0} (b : Bool) (v : V) (o : Option V)
    → is_some (if b then some v else o) ≡ b || is_some o
is_some-if-some true v o = refl
is_some-if-some false v o = refl

is_some-if-none :
    {V : Type 0} (b : Bool) (o : Option V) → is_some (if b then none else o) ≡ is_some o && not b
is_some-if-none true none = refl
is_some-if-none true (some v) = refl
is_some-if-none false none = refl
is_some-if-none false (some v) = refl

contains_key-put :
    {V : Type 0} (c k : Bytes) (v : V) (m : Table V)
    → contains_key c (put k v m) ≡ k =b c || contains_key c m
unfolding contains_key
contains_key-put c k v m = ap is_some (get-put c k v m) ∙ is_some-if-some (k =b c) v (get c m)

contains_key-delete :
    {V : Type 0} (c k : Bytes) (m : Table V)
    → contains_key c (delete k m) ≡ contains_key c m && not (k =b c)
unfolding contains_key
contains_key-delete c k m = ap is_some (get-delete c k m) ∙ is_some-if-none (k =b c) (get c m)

pub has-insert :
    (c : Bytes) (s : Sub) (r : Registry) → has c (insert s r) ≡ s.channel_id =b c || has c r
unfolding insert
has-insert c s r = contains_key-put c (s.channel_id) s (r.sub_map)

has-same : (c d : Bytes) (r : Registry) → d =b c ≡ true → has c r ≡ has d r
has-same c d r e = ap (λ (x : Bytes). has x r) (sym (=b_sound d c e))

-- An update of a channel that is there.
pub has-update :
    (c : Bytes) (s : Sub) (r : Registry)
    → has (s.channel_id) r ≡ true
    → has c (update s r) ≡ has c r
unfolding update
has-update c s r h =
    contains_key-put c (s.channel_id) s (r.sub_map) ∙ elim (Bool-cases (s.channel_id =b c)) [
      | inl e ↦ rw e (sym h ∙ sym (has-same c (s.channel_id) r e))
      | inr e ↦ rw e refl
    ]

pub has-found : (c : Bytes) (s : Sub) (r : Registry) → get c (r.sub_map) ≡ some s → has c r ≡ true
unfolding contains_key
has-found c s r h = ap is_some h

has-absent : (c : Bytes) (r : Registry) → get c (r.sub_map) ≡ none → has c r ≡ false
unfolding contains_key
has-absent c r h = ap is_some h

pub has-remove :
    (c d : Bytes) (now : ℕ) (r : Registry) → has c ((remove d now r).0) ≡ has c r && not (d =b c)
unfolding remove remove_found sweep_unsub
has-remove c d now r = elim (Option-cases (get d (r.sub_map))) [
  | inr (s, e) ↦ rw (remove, e) (contains_key-delete c d (r.sub_map))
  | inl n ↦ elim (Bool-cases (d =b c)) [
    | inr k ↦ rw (remove, n, k) (sym (and-true (has c r)))
    | inl k ↦
        rw (remove, n, k)
          (has-same c d r k
            ∙ (has-absent d r n
                ∙ sym (ap (λ (b : Bool). b && false) (has-same c d r k ∙ has-absent d r n))))
  ]
]

pub has-merge_attempt :
    (c : Bytes) (fate : Fate) (s : Sub) (r : Registry) → has c (merge_attempt fate s r) ≡ has c r
has-merge_attempt c fate s r = elim (merge_attempt-cases fate s r) [
  | inl e ↦ ap (has c) e
  | inr (cur, h, t, e) ↦
      ap (has c) e
      ∙ has-update c (merged cur s) r
          (ap (λ (x : Bytes). has x r) ((merged-keys cur s).0) ∙ has-found (s.channel_id) cur r h)
]

pub has-settle :
    (c : Bytes) (a : Attempt) (s : Sub) (o : Option Bytes) (r : Registry)
    → has c (settle a s o r) ≡ has c r
unfolding settle
has-settle c a s none r = refl
has-settle c a s (some why) r = has-merge_attempt c (a.saves) (failed_sub a s why) r

delete-IsKeyed : (k : Bytes) (m : Table Sub) → IsKeyed m → IsKeyed (delete k m)
unfolding delete
delete-IsKeyed k [] h = tt
delete-IsKeyed k ((j, s) ∷ m) h = elim (Bool-cases (j =b k)) [
  | inl e ↦ rw e (delete-IsKeyed k m (h.1))
  | inr e ↦ rw e ((h.0, delete-IsKeyed k m (h.1)))
]

get_at : (j c : Bytes) (t : Sub) (m : Table Sub) → j =b c ≡ true → some t ≡ get c ((j, t) ∷ m)
unfolding get
get_at j c t m e = rw e refl

get_past : (j c : Bytes) (t : Sub) (m : Table Sub) → j =b c ≡ false → get c m ≡ get c ((j, t) ∷ m)
unfolding get
get_past j c t m e = rw e refl

pub get-IsKeyed :
    (c : Bytes) (s : Sub) (m : Table Sub) → IsKeyed m → get c m ≡ some s → s.channel_id ≡ c
unfolding get
get-IsKeyed c s [] h k = absurd (none-ne-some s k)
get-IsKeyed c s ((j, t) ∷ m) h k = elim (Bool-cases (j =b c)) [
  | inl e ↦
      ap (λ (x : Sub). x.channel_id) (sym (some-injective _ _ (get_at j c t m e ∙ k)))
      ∙ (h.0 ∙ =b_sound j c e)
  | inr e ↦ get-IsKeyed c s m (h.1) (get_past j c t m e ∙ k)
]

pub insert-IsKeyed : (s : Sub) (r : Registry) → IsKeyed (r.sub_map) → IsKeyed ((insert s r).sub_map)
unfolding insert put
insert-IsKeyed s r h = (refl, delete-IsKeyed (s.channel_id) (r.sub_map) h)

pub update-IsKeyed : (s : Sub) (r : Registry) → IsKeyed (r.sub_map) → IsKeyed ((update s r).sub_map)
unfolding update put
update-IsKeyed s r h = (refl, delete-IsKeyed (s.channel_id) (r.sub_map) h)

pub merge_attempt-IsKeyed :
    (fate : Fate) (s : Sub) (r : Registry)
    → IsKeyed (r.sub_map)
    → IsKeyed ((merge_attempt fate s r).sub_map)
merge_attempt-IsKeyed fate s r h = elim (merge_attempt-cases fate s r) [
  | inl e ↦ subst (λ (x : Registry). IsKeyed (x.sub_map)) (sym e) h
  | inr (cur, found, t, e) ↦
      subst (λ (x : Registry). IsKeyed (x.sub_map)) (sym e) (update-IsKeyed (merged cur s) r h)
]

pub settle-IsKeyed :
    (a : Attempt) (s : Sub) (o : Option Bytes) (r : Registry)
    → IsKeyed (r.sub_map)
    → IsKeyed ((settle a s o r).sub_map)
unfolding settle
settle-IsKeyed a s none r h = h
settle-IsKeyed a s (some why) r h = merge_attempt-IsKeyed (a.saves) (failed_sub a s why) r h

pub remove-IsKeyed :
    (d : Bytes) (now : ℕ) (r : Registry)
    → IsKeyed (r.sub_map)
    → IsKeyed ((remove d now r).0.sub_map)
unfolding remove remove_found sweep_unsub
remove-IsKeyed d now r h = elim (Option-cases (get d (r.sub_map))) [
  | inr (s, e) ↦ rw (remove, e) (delete-IsKeyed d (r.sub_map) h)
  | inl n ↦ rw (remove, n) h
]
