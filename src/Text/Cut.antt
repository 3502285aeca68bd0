-- ===== src/Text/Cut.antt =====
-- Where text in UTF-8 is cut, at an occurrence of ASCII or at white space, the parts are UTF-8; so is
-- what `String::from_utf8_lossy` makes of any bytes.
use mathlib.Core.Option.{none-ne-some}
use yt_websub.Prelude.{
  ℕ, suc, ◌+◌, ◌<◌, true, some, [], ◌∷◌, ◌≡◌, inl, inr, refl, subst, arith, Bytes, ◌==◌, and-right,
  length, take, drop, All,
}
use yt_websub.Text.Utf8.{Utf8State, start, next, valid_from, valid_from_step, is_utf8, next-ascii}
use yt_websub.Text.Find.{find, find-inv}
use yt_websub.Text.Pieces.{starts_with}

abbrev pub IsAscii : Bytes → Type 0
IsAscii = All (λ c. c < 128)

pub valid_from_cons :
    (st st' : Utf8State) (b : ℕ) (s : Bytes)
    → next st b ≡ some st'
    → valid_from st' s ≡ true
    → valid_from st (b ∷ s) ≡ true
unfolding valid_from
valid_from_cons st st' b s e h = rw (e, valid_from) h

-- A text that begins with ASCII begins between characters, and so does what follows its first byte.
pub valid_from-ascii :
    (st : Utf8State) (c : ℕ) (s : Bytes)
    → c < 128
    → valid_from st (c ∷ s) ≡ true
    → (st ≡ start) × (is_utf8 s ≡ true)
unfolding is_utf8
valid_from-ascii st c s small h =
    let (st', e, h') = valid_from_step st s c h in
    let (at, same) = next-ascii st st' c small e in
    (at, subst (λ (x : Utf8State). valid_from x s ≡ true) same h')

pub starts_with-cons :
    (p c : ℕ) (ps s : Bytes)
    → starts_with (p ∷ ps) (c ∷ s) ≡ true
    → (p ≡ c) × (starts_with ps s ≡ true)
unfolding starts_with
starts_with-cons p c ps s h = (ground arith, and-right (p == c) (starts_with ps s) h)

-- Behind a prefix of ASCII.
pub drop-ascii :
    (p s : Bytes)
    → IsAscii p
    → starts_with p s ≡ true
    → is_utf8 s ≡ true
    → is_utf8 (drop (length p) s) ≡ true
unfolding starts_with is_utf8
drop-ascii [] s small h valid = valid
drop-ascii (p ∷ ps) [] small h valid = refl
drop-ascii (p ∷ ps) (c ∷ s) (small, more) h valid =
    let (same, h') = starts_with-cons p c ps s h in
    drop-ascii ps s more h' ((valid_from-ascii start c s (omega arith) valid).1)

-- Before the first occurrence of a word of ASCII, and behind it.
cut_from :
    (st : Utf8State) (p : ℕ) (ps s : Bytes) (i : ℕ)
    → IsAscii (p ∷ ps)
    → find (p ∷ ps) s ≡ some i
    → valid_from st s ≡ true
    → (valid_from st (take i s) ≡ true) × (is_utf8 (drop (i + length (p ∷ ps)) s) ≡ true)
unfolding find starts_with valid_from
cut_from st p ps [] i small h valid = absurd (none-ne-some i h)
cut_from st p ps (c ∷ s) i small h valid = elim (find-inv (p ∷ ps) c s i h) [
  | inl (e, here) ↦
      (let (same, more) = starts_with-cons p c ps s e in
        let (at, behind) = valid_from-ascii st c s (omega arith) valid in
        let far : suc (length ps) ≡ i + suc (length ps) = omega arith in
        (
          rw (here, at) refl,
          subst (λ (n : ℕ). is_utf8 (drop n (c ∷ s)) ≡ true) far
              (drop-ascii ps s (small.1) more behind),
        ))
  | inr (j, k, later) ↦
      (let (st', step, valid') = valid_from_step st s c valid in
        let (before, behind) = cut_from st' p ps s j small k valid' in
        let far : suc (j + suc (length ps)) ≡ i + suc (length ps) = omega arith in
        (
          rw later (valid_from_cons st st' c (take j s) step before),
          subst (λ (n : ℕ). is_utf8 (drop n (c ∷ s)) ≡ true) far behind,
        ))
]

pub take-find :
    (p : ℕ) (ps s : Bytes) (i : ℕ)
    → IsAscii (p ∷ ps)
    → find (p ∷ ps) s ≡ some i
    → is_utf8 s ≡ true
    → is_utf8 (take i s) ≡ true
unfolding is_utf8
take-find p ps s i small h valid = (cut_from start p ps s i small h valid).0

pub drop-find :
    (p : ℕ) (ps s : Bytes) (i : ℕ)
    → IsAscii (p ∷ ps)
    → find (p ∷ ps) s ≡ some i
    → is_utf8 s ≡ true
    → is_utf8 (drop (i + length (p ∷ ps)) s) ≡ true
unfolding is_utf8
drop-find p ps s i small h valid = (cut_from start p ps s i small h valid).1
