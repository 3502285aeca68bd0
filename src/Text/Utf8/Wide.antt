-- ===== src/Text/Utf8/Wide.antt =====
-- The steps of the decoder on characters of two and three bytes.
use mathlib.Core.Option.{some-injective}
use yt_websub.Prelude.{
  ℕ, ◌≤◌, ◌<◌, true, some, ◌∷◌, ◌≡◌, ◌⊎◌, inl, inr, refl, sym, ◌∙◌, subst, arith, Bytes,
}
use yt_websub.Text.Utf8.{
  Utf8State, start, one, two, three, after_e0, after_ed, after_f0, after_f4, next, valid_from,
  valid_from_step, is_utf8, within,
}

-- Inside a character there are only bytes that continue one.
pub next-continues :
    (st st' : Utf8State) (b : ℕ) → next st b ≡ some st' → (st ≡ start) ⊎ ((0x80 ≤ b) × (b < 0xC0))
unfolding next within
next-continues start st' b h = inl refl
next-continues one st' b h = inr (ground arith, ground arith)
next-continues two st' b h = inr (ground arith, ground arith)
next-continues three st' b h = inr (ground arith, ground arith)
next-continues after_e0 st' b h = inr (ground arith, ground arith)
next-continues after_ed st' b h = inr (ground arith, ground arith)
next-continues after_f0 st' b h = inr (ground arith, ground arith)
next-continues after_f4 st' b h = inr (ground arith, ground arith)

next-one : (b : ℕ) (st : Utf8State) → next one b ≡ some st → st ≡ start
unfolding next within
next-one b st h = ground arith

next-two : (b : ℕ) (st : Utf8State) → next two b ≡ some st → st ≡ one
unfolding next within
next-two b st h = ground arith

valid_from-next :
    (st st' : Utf8State) (b : ℕ) (s : Bytes)
    → next st b ≡ some st'
    → valid_from st (b ∷ s) ≡ true
    → valid_from st' s ≡ true
valid_from-next st st' b s e h =
    let (st'', k, h') = valid_from_step st s b h in
    subst (λ (x : Utf8State). valid_from x s ≡ true) (some-injective st'' st' (sym k ∙ e)) h'

valid_from-one : (b : ℕ) (s : Bytes) → valid_from one (b ∷ s) ≡ true → valid_from start s ≡ true
valid_from-one b s h =
    let (st, k, h') = valid_from_step one s b h in
    subst (λ (x : Utf8State). valid_from x s ≡ true) (next-one b st k) h'

valid_from-two : (b : ℕ) (s : Bytes) → valid_from two (b ∷ s) ≡ true → valid_from one s ≡ true
valid_from-two b s h =
    let (st, k, h') = valid_from_step two s b h in
    subst (λ (x : Utf8State). valid_from x s ≡ true) (next-two b st k) h'

leads_one : (a : ℕ) → a ≡ 0xC2 → next start a ≡ some one
unfolding next within
leads_one a h = ground arith

leads_two : (a : ℕ) → 0xE1 ≤ a → a ≤ 0xE3 → next start a ≡ some two
unfolding next within
leads_two a h k = ground arith

-- Behind a character of two bytes that begins with 0xC2.
pub behind_two : (a b : ℕ) (s : Bytes) → a ≡ 0xC2 → is_utf8 (a ∷ b ∷ s) ≡ true → is_utf8 s ≡ true
unfolding is_utf8
behind_two a b s e h = valid_from-one b s (valid_from-next start one a (b ∷ s) (leads_one a e) h)

-- Behind a character of three bytes that begins with 0xE1, 0xE2 or 0xE3.
pub behind_three :
    (a b c : ℕ) (s : Bytes)
    → 0xE1 ≤ a
    → a ≤ 0xE3
    → is_utf8 (a ∷ b ∷ c ∷ s) ≡ true
    → is_utf8 s ≡ true
unfolding is_utf8
behind_three a b c s low high h =
    valid_from-one c s
      (valid_from-two b (c ∷ s) (valid_from-next start two a (b ∷ c ∷ s) (leads_two a low high) h))
