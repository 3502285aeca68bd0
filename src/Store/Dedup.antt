-- ===== src/Store/Dedup.antt =====
-- The key by which src/store.rs tells duplicates: where the video and the kind hold no `|`, it has the
-- video, the time and the kind.
use mathlib.Core.List.{Memᴰ}
use mathlib.Core.Option.{some-injective}
use yt_websub.Prelude.{
  ℕ, true, List, [], ◌∷◌, ◌++◌, ◌≡◌, ◌≢◌, refl, sym, ap, ◌∙◌, subst, arith, Bytes, ◌=b◌, =b_sound,
  any, Bool-cases, inl, inr, All-append_right, drop,
}
use yt_websub.Text.Pieces.{Lacks, split_once, split_once-append}
use yt_websub.Store.Line.{Event, dedup_key}
use yt_websub.Store.{key_of}
use yt_websub.Store.Keys.{has_key}

first_byte : Bytes → ℕ
first_byte [] = 0
first_byte (c ∷ s) = c

heads : (c d : ℕ) (s t : Bytes) → c ∷ s ≡ d ∷ t → c ≡ d
unfolding first_byte
heads c d s t h = ap first_byte h

tails : (c d : ℕ) (s t : Bytes) → c ∷ s ≡ d ∷ t → s ≡ t
tails c d s t h = ap (drop 1) h

Lacks-separator : (sep : ℕ) (p s : Bytes) → Lacks sep (p ++ sep ∷ s) → ⊥
Lacks-separator sep p s h = (All-append_right (λ c. c ≢ sep) p (sep ∷ s) h).0 refl

-- Where the last piece holds no separator, the cut before it is the only one.
last_cut :
    (sep : ℕ) (p q s t : Bytes)
    → Lacks sep s
    → Lacks sep t
    → p ++ sep ∷ s ≡ q ++ sep ∷ t
    → (p ≡ q) × (s ≡ t)
last_cut sep [] [] s t hs ht e = (refl, tails sep sep s t e)
last_cut sep [] (d ∷ q) s t hs ht e =
    absurd (Lacks-separator sep q t (subst (Lacks sep) (tails sep d s (q ++ sep ∷ t) e) hs))
last_cut sep (c ∷ p) [] s t hs ht e =
    absurd (Lacks-separator sep p s (subst (Lacks sep) (sym (tails c sep (p ++ sep ∷ s) t e)) ht))
last_cut sep (c ∷ p) (d ∷ q) s t hs ht e =
    let (same, rest) = last_cut sep p q s t hs ht (tails c d (p ++ sep ∷ s) (q ++ sep ∷ t) e) in
    (
      ap (λ (x : ℕ). x ∷ p) (heads c d (p ++ sep ∷ s) (q ++ sep ∷ t) e)
          ∙ ap (λ (x : Bytes). d ∷ x) same,
      rest,
    )

-- The parts of a key are those of one that equals it.
pub dedup_key-injective :
    (v v' t t' k k' : Bytes)
    → Lacks b'|' v
    → Lacks b'|' v'
    → Lacks b'|' k
    → Lacks b'|' k'
    → dedup_key v t k ≡ dedup_key v' t' k'
    → (v ≡ v') × (t ≡ t') × (k ≡ k')
unfolding dedup_key
dedup_key-injective v v' t t' k k' hv hv' hk hk' e =
    let cut =
      some-injective (v, t ++ b'|' ∷ k) (v', t' ++ b'|' ∷ k')
        (sym (split_once-append b'|' v (t ++ b'|' ∷ k) hv)
          ∙ (ap (split_once b'|') e ∙ split_once-append b'|' v' (t' ++ b'|' ∷ k') hv')) in
    let (same_t, same_k) = last_cut b'|' t t' k k' hk hk' (ap (λ (x : Bytes × Bytes). x.1) cut) in
    (ap (λ (x : Bytes × Bytes). x.0) cut, same_t, same_k)

-- An event that has a key that is in a list.
pub has_key-found :
    (es : List Event) (k : Bytes) → has_key es k ≡ true → (e : Event) × Memᴰ e es × (key_of e ≡ k)
unfolding any
has_key-found [] k h = absurd (ground (arith, h))
has_key-found (e ∷ es) k h = elim (Bool-cases (key_of e =b k)) [
  | inl same ↦ (e, Memᴰ.head refl, =b_sound (key_of e) k same)
  | inr other ↦
      (let (x, member, same) = has_key-found es k (ground (arith, h, other)) in
        (x, Memᴰ.tail member, same))
]
