-- ===== src/Renew/Listed.antt =====
-- `desired_set` of src/renew.rs: what it asks for, and the composition with `reconcile_locked`.
use mathlib.Core.Bool.{true≢false}
use yt_websub.Prelude.{
  ℕ, suc, Bool, true, false, ◌||◌, Option, none, some, List, [], ◌∷◌, ◌++◌, ◌≡◌, inl, inr, refl,
  sym, ap, ◌∙◌, subst, arith, Bytes, ◌=b◌, =b_sound, =b_refl, Bool-cases, All, any, and-left,
  and-right, or-cases, or-false, or-true, or-nil, or_assoc, all,
}
use yt_websub.Prelude.Maps.{Table, Key-cases, apart-ne}
use yt_websub.Text.Pieces.{lines}
use yt_websub.Text.Space.{IsGraphic, trim-IsGraphic}
use yt_websub.Text.Utf8.{is_utf8}
use yt_websub.Resolve.{Fetch, resolve, resolve_trimmed, is_channel_id, is_id_byte}
use yt_websub.Resolve.Safe.{resolve-IsSafe, GivesChannel}
use yt_websub.Subs.{Registry}
use yt_websub.Renew.Expire.{IsKeyed}
use yt_websub.Renew.Due.{Hub}
use yt_websub.Renew.Desired.{
  contains, push_new, entry_lines, Desired, add_found, resolve_all, desired_set,
}
use yt_websub.Renew.Reconcile.{Random, reconcile_locked}
use yt_websub.Renew.Has.{has}
use yt_websub.Renew.Channels.{KeepsChannels}
use yt_websub.Renew.Wanted.{reconcile_locked-wanted}

-- Channel ids, none of them twice.
unfoldable pub AreChannels : List Bytes → Type 0
unfolding contains
AreChannels [] = Unit
AreChannels (c ∷ more) = (is_channel_id c ≡ true) × (contains c more ≡ false) × AreChannels more

pub contains-append :
    (c d : Bytes) (l : List Bytes) → contains c (l ++ d ∷ []) ≡ contains c l || d =b c
unfolding contains any
contains-append c d [] = or-nil (d =b c)
contains-append c d (x ∷ l) =
    ap (λ (b : Bool). x =b c || b) (contains-append c d l)
    ∙ or_assoc (x =b c) (contains c l) (d =b c)

pub flipped : (c uc : Bytes) → c =b uc ≡ false → uc =b c ≡ false
flipped c uc apart = elim (Key-cases c uc) [
  | inl e ↦ absurd (apart-ne c uc apart e)
  | inr (_, e) ↦ e
]

push-AreChannels :
    (uc : Bytes) (l : List Bytes)
    → is_channel_id uc ≡ true
    → contains uc l ≡ false
    → AreChannels l
    → AreChannels (l ++ uc ∷ [])
unfolding AreChannels contains any
push-AreChannels uc [] good absent h = (good, refl, tt)
push-AreChannels uc (c ∷ l) good absent h =
    let (apart, absent_later) = or-false (c =b uc) (contains uc l) absent in
    (
      h.0,
      contains-append c uc l ∙ ap (λ (b : Bool). b || uc =b c) (h.1) ∙ flipped c uc apart,
      push-AreChannels uc l good absent_later (h.2),
    )

push_new-AreChannels :
    (uc : Bytes) (l : List Bytes)
    → is_channel_id uc ≡ true
    → AreChannels l
    → AreChannels (push_new uc l)
push_new-AreChannels uc l good h = elim (Bool-cases (contains uc l)) [
  | inl e ↦ rw e h
  | inr e ↦ rw e (push-AreChannels uc l good e h)
]

contains-push_new :
    (c uc : Bytes) (l : List Bytes) → contains c l ≡ true → contains c (push_new uc l) ≡ true
contains-push_new c uc l h = elim (Bool-cases (contains uc l)) [
  | inl e ↦ rw e h
  | inr e ↦ rw e (contains-append c uc l ∙ ap (λ (b : Bool). b || uc =b c) h)
]

push_new-contains : (uc : Bytes) (l : List Bytes) → contains uc (push_new uc l) ≡ true
push_new-contains uc l = elim (Bool-cases (contains uc l)) [
  | inl e ↦ rw e e
  | inr e ↦ rw e (
      contains-append uc uc l
      ∙ ap (λ (b : Bool). contains uc l || b) (=b_refl uc)
      ∙ or-true (contains uc l))
]

add_found-AreChannels :
    (o : Option Bytes) (cache : Table Bytes) (d : Desired)
    → GivesChannel o
    → AreChannels (d.channels)
    → AreChannels ((add_found o cache d).channels)
unfolding add_found
add_found-AreChannels none cache d g h = h
add_found-AreChannels (some uc) cache d g h = push_new-AreChannels uc (d.channels) (g uc refl) h

resolve_all-AreChannels :
    (fetch : ℕ → Fetch) (i : ℕ) (entries : List Bytes) (d : Desired)
    → AreChannels (d.channels)
    → AreChannels ((resolve_all fetch i entries d).channels)
unfolding resolve_all
resolve_all-AreChannels fetch i [] d h = h
resolve_all-AreChannels fetch i (line ∷ more) d h =
    let o = resolve (fetch i) line (d.cache) in
    resolve_all-AreChannels fetch (suc i) more (add_found (o.found) (o.cache) d) (
      add_found-AreChannels (o.found) (o.cache) d
        ((resolve-IsSafe (fetch i) line (d.cache)).gives_channel) h)

-- Whatever channels.txt holds, and whatever the net gives, what is asked for are channel ids, none of
-- them twice.
pub desired_set-AreChannels :
    (fetch : ℕ → Fetch) (file : Option Bytes) (cache : Table Bytes)
    → AreChannels ((desired_set fetch file cache).channels)
unfolding desired_set AreChannels
desired_set-AreChannels fetch none cache = tt
desired_set-AreChannels fetch (some content) cache = elim (Bool-cases (is_utf8 content)) [
  | inl e ↦ rw e (resolve_all-AreChannels fetch 0 (entry_lines (lines content)) _ tt)
  | inr e ↦ rw e tt
]

id_bytes-IsGraphic : (s : Bytes) → all is_id_byte s ≡ true → All IsGraphic s
unfolding all
id_bytes-IsGraphic [] h = tt
id_bytes-IsGraphic (b ∷ s) h =
    let here = and-left (is_id_byte b) (all is_id_byte s) h in
    (ground arith, id_bytes-IsGraphic s (and-right (is_id_byte b) (all is_id_byte s) h))

pub channel_id-IsGraphic : (s : Bytes) → is_channel_id s ≡ true → All IsGraphic s
unfolding is_channel_id
channel_id-IsGraphic s h = id_bytes-IsGraphic s (and-right _ _ h)

pub channel_id-nonempty : (s : Bytes) → is_channel_id s ≡ true → s =b [] ≡ false
unfolding is_channel_id ◌=b◌
channel_id-nonempty [] h = sym h
channel_id-nonempty (b ∷ s) h = refl

-- A channel id is resolved to itself, with no look at the cache or the net.
pub resolve-id :
    (fetch : Fetch) (s : Bytes) (cache : Table Bytes)
    → is_channel_id s ≡ true
    → (resolve fetch s cache).found ≡ some s
unfolding resolve
resolve-id fetch s cache h =
    ap (λ (t : Bytes). (resolve_trimmed fetch t cache).found)
      (trim-IsGraphic s (channel_id-IsGraphic s h))
    ∙ rw (resolve_trimmed, channel_id-nonempty s h, h) refl

add_found-contains :
    (c : Bytes) (o : Option Bytes) (cache : Table Bytes) (d : Desired)
    → contains c (d.channels) ≡ true
    → contains c ((add_found o cache d).channels) ≡ true
unfolding add_found
add_found-contains c none cache d h = h
add_found-contains c (some uc) cache d h = contains-push_new c uc (d.channels) h

resolve_all-contains :
    (fetch : ℕ → Fetch) (c : Bytes) (i : ℕ) (entries : List Bytes) (d : Desired)
    → contains c (d.channels) ≡ true
    → contains c ((resolve_all fetch i entries d).channels) ≡ true
unfolding resolve_all
resolve_all-contains fetch c i [] d h = h
resolve_all-contains fetch c i (line ∷ more) d h =
    let o = resolve (fetch i) line (d.cache) in
    resolve_all-contains fetch c (suc i) more (add_found (o.found) (o.cache) d)
      (add_found-contains c (o.found) (o.cache) d h)

add_found-own :
    (c : Bytes) (o : Option Bytes) (cache : Table Bytes) (d : Desired)
    → o ≡ some c
    → contains c ((add_found o cache d).channels) ≡ true
unfolding add_found
add_found-own c o cache d e = rw e (push_new-contains c (d.channels))

resolve_all-listed :
    (fetch : ℕ → Fetch) (c : Bytes) (i : ℕ) (entries : List Bytes) (d : Desired)
    → is_channel_id c ≡ true
    → contains c entries ≡ true
    → contains c ((resolve_all fetch i entries d).channels) ≡ true
unfolding resolve_all contains any
resolve_all-listed fetch c i [] d good h = absurd (true≢false (sym h))
resolve_all-listed fetch c i (line ∷ more) d good h =
    let o = resolve (fetch i) line (d.cache) in
    let after = add_found (o.found) (o.cache) d in
    elim (or-cases (line =b c) (contains c more) h) [
      | inr e ↦ resolve_all-listed fetch c (suc i) more after good e
      | inl e ↦ resolve_all-contains fetch c (suc i) more after (
          add_found-own c (o.found) (o.cache) d (
            subst (λ (t : Bytes). (resolve (fetch i) t (d.cache)).found ≡ some c)
              (sym (=b_sound line c e)) (resolve-id (fetch i) c (d.cache) good)))
    ]

-- While other threads add and drop no channel, a channel whose id stands on a line of channels.txt is
-- there after a reconcile, whatever becomes of the other lines.
pub reconcile-listed :
    (fetch : ℕ → Fetch) (content : Bytes) (cache : Table Bytes) (h : Hub) (random : Random)
    (r : Registry)
    → is_utf8 content ≡ true
    → KeepsChannels h
    → IsKeyed (r.sub_map)
    → (c : Bytes) → is_channel_id c ≡ true
    → contains c (entry_lines (lines content)) ≡ true
    → has c ((reconcile_locked h random (desired_set fetch (some content) cache) r).0) ≡ true
unfolding desired_set
reconcile-listed fetch content cache h random r valid keeps keyed c good listed =
    reconcile_locked-wanted h random (desired_set fetch (some content) cache) r keeps keyed c
    ∙ rw (valid, resolve_all-listed fetch c 0 (entry_lines (lines content)) _ good listed) refl
