-- ===== src/Renew/Channels.antt =====
-- Which channels a registry has, after the loops of src/renew.rs.
use yt_websub.Prelude.{
  ℕ, suc, Bool, true, false, ◌&&◌, ◌||◌, not, List, [], ◌∷◌, ◌≡◌, refl, sym, ap, ◌∙◌, Bytes, ◌=b◌,
  if◌then◌else◌, any, =b_sound,
}
use yt_websub.Prelude.Maps.{Table, get}
use yt_websub.Subs.{Sub, new_sub, Registry, insert, remove}
use yt_websub.Renew.{verdict}
use yt_websub.Renew.Expire.{IsKeyed}
use yt_websub.Renew.Due.{Hub}
use yt_websub.Renew.Desired.{contains}
use yt_websub.Renew.Reconcile.{
  contains_key, to_add, unwanted, Random, fresh_sub, subscribe, add_all, remove_all,
}
use yt_websub.Renew.Has.{
  has, and-true, or_move, and_move, one_more, is_some-if-some, has-insert, has-remove, has-settle,
  insert-IsKeyed, settle-IsKeyed, remove-IsKeyed,
}

-- Whether one of some subscriptions is of a channel.
abbrev pub names : Bytes → List Sub → Bool
names c = any (λ s. s.channel_id =b c)

-- What other threads do keeps every subscription under its channel, adds no channel and drops none.
abbrev pub KeepsChannels : Hub → Type 0
KeepsChannels h =
    (i : ℕ) (r : Registry)
    → IsKeyed (r.sub_map)
    → IsKeyed ((h.meanwhile i r).sub_map) × ((c : Bytes) → has c (h.meanwhile i r) ≡ has c r)

module _ (h : Hub) (keeps : KeepsChannels h) (c : Bytes) where
  pub subscribe-IsKeyed :
      (random : Random) (i : ℕ) (d : Bytes) (r : Registry)
      → IsKeyed (r.sub_map)
      → IsKeyed ((subscribe h random i d r).sub_map)
  unfolding subscribe
  subscribe-IsKeyed random i d r keyed =
      let s = fresh_sub random i (h.attempts i) d in
      settle-IsKeyed (h.attempts i) s (verdict ((h.attempts i).sent)) (h.meanwhile i (insert s r))
        ((keeps i (insert s r) (insert-IsKeyed s r keyed)).0)

  pub has-subscribe :
      (random : Random) (i : ℕ) (d : Bytes) (r : Registry)
      → IsKeyed (r.sub_map)
      → has c (subscribe h random i d r) ≡ d =b c || has c r
  unfolding subscribe fresh_sub new_sub
  has-subscribe random i d r keyed =
      let s = fresh_sub random i (h.attempts i) d in
      has-settle c (h.attempts i) s (verdict ((h.attempts i).sent)) (h.meanwhile i (insert s r))
      ∙ (keeps i (insert s r) (insert-IsKeyed s r keyed)).1 c
      ∙ has-insert c s r

  pub add_all-IsKeyed :
      (random : Random) (i : ℕ) (adds : List Bytes) (r : Registry)
      → IsKeyed (r.sub_map)
      → IsKeyed ((add_all h random i adds r).sub_map)
  unfolding add_all
  add_all-IsKeyed random i [] r keyed = keyed
  add_all-IsKeyed random i (d ∷ more) r keyed =
      add_all-IsKeyed random (suc i) more (subscribe h random i d r)
        (subscribe-IsKeyed random i d r keyed)

  pub has-add_all :
      (random : Random) (i : ℕ) (adds : List Bytes) (r : Registry)
      → IsKeyed (r.sub_map)
      → has c (add_all h random i adds r) ≡ contains c adds || has c r
  unfolding add_all contains any
  has-add_all random i [] r keyed = refl
  has-add_all random i (d ∷ more) r keyed =
      has-add_all random (suc i) more (subscribe h random i d r)
        (subscribe-IsKeyed random i d r keyed)
      ∙ ap (λ (b : Bool). contains c more || b) (has-subscribe random i d r keyed)
      ∙ or_move (contains c more) (d =b c) (has c r)

  pub remove_all-IsKeyed :
      (i : ℕ) (subs : List Sub) (r : Registry)
      → IsKeyed (r.sub_map)
      → IsKeyed ((remove_all h i subs r).sub_map)
  unfolding remove_all
  remove_all-IsKeyed i [] r keyed = keyed
  remove_all-IsKeyed i (s ∷ more) r keyed =
      let at = (h.attempts i).ended in
      remove_all-IsKeyed (suc i) more ((remove (s.channel_id) at (h.meanwhile i r)).0)
        (remove-IsKeyed (s.channel_id) at (h.meanwhile i r) ((keeps i r keyed).0))

  pub has-remove_all :
      (i : ℕ) (subs : List Sub) (r : Registry)
      → IsKeyed (r.sub_map)
      → has c (remove_all h i subs r) ≡ has c r && not (names c subs)
  unfolding remove_all any
  has-remove_all i [] r keyed = sym (and-true (has c r))
  has-remove_all i (s ∷ more) r keyed =
      let at = (h.attempts i).ended in
      let (still_keyed, same) = keeps i r keyed in
      has-remove_all (suc i) more ((remove (s.channel_id) at (h.meanwhile i r)).0)
        (remove-IsKeyed (s.channel_id) at (h.meanwhile i r) still_keyed)
      ∙ ap (λ (b : Bool). b && not (names c more))
          (has-remove c (s.channel_id) at (h.meanwhile i r)
            ∙ ap (λ (b : Bool). b && not (s.channel_id =b c)) (same c))
      ∙ and_move (has c r) (s.channel_id =b c) (names c more)

contains-if :
    (c d : Bytes) (e : Bool) (l : List Bytes)
    → contains c (if e then l else d ∷ l) ≡ (if e then contains c l else d =b c || contains c l)
unfolding contains any
contains-if c d true l = refl
contains-if c d false l = refl

names-if :
    (c : Bytes) (s : Sub) (e : Bool) (l : List Sub)
    → names c (if e then l else s ∷ l) ≡ (if e then names c l else s.channel_id =b c || names c l)
unfolding any
names-if c s true l = refl
names-if c s false l = refl

contains_key-cons :
    (c k : Bytes) (s : Sub) (m : Table Sub)
    → s.channel_id ≡ k
    → s.channel_id =b c || contains_key c m ≡ contains_key c ((k, s) ∷ m)
unfolding contains_key get
contains_key-cons c k s m e =
    ap (λ (x : Bytes). x =b c || contains_key c m) e ∙ sym (is_some-if-some (k =b c) s (get c m))

-- Only channels that are not there are added.
pub contains-to_add :
    (c : Bytes) (m : Table Sub) (desired : List Bytes)
    → contains c (to_add m desired) ≡ contains c desired && not (contains_key c m)
unfolding contains any to_add
contains-to_add c m [] = refl
contains-to_add c m (d ∷ more) =
    contains-if c d (contains_key d m) (to_add m more)
    ∙ ap (λ (b : Bool). if contains_key d m then b else d =b c || b) (contains-to_add c m more)
    ∙ one_more (contains_key d m) (d =b c) (contains c more) (contains_key c m)
        (λ e. ap (λ (x : Bytes). contains_key x m) (=b_sound d c e))

pub names-unwanted :
    (c : Bytes) (desired : List Bytes) (m : Table Sub)
    → IsKeyed m
    → names c (unwanted desired m) ≡ contains_key c m && not (contains c desired)
unfolding any unwanted contains_key get
names-unwanted c desired [] keyed = refl
names-unwanted c desired ((k, s) ∷ m) keyed =
    let e = contains (s.channel_id) desired in
    names-if c s e (unwanted desired m)
    ∙ ap (λ (b : Bool). if e then b else s.channel_id =b c || b)
        (names-unwanted c desired m (keyed.1))
    ∙ one_more e (s.channel_id =b c) (contains_key c m) (contains c desired)
        (λ same. ap (λ (x : Bytes). contains x desired) (=b_sound _ _ same))
    ∙ ap (λ (b : Bool). b && not (contains c desired)) (contains_key-cons c k s m (keyed.0))
