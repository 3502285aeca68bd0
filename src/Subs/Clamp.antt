-- ===== src/Subs/Clamp.antt =====
-- `clamp_error` of src/subs.rs: a text cut at 200 characters is still UTF-8.
use mathlib.Core.Bool.{true≢false}
use yt_websub.Prelude.{
  ℕ, zero, suc, ◌≤◌, Bool, true, false, some, [], ◌∷◌, ◌≡◌, inl, inr, refl, sym, ◌∙◌, arith, Bytes,
  if◌then◌else◌, Bool-cases,
}
use yt_websub.Text.Utf8.{Utf8State, next, valid_from, valid_from_step, is_utf8}
use yt_websub.Subs.Rows.{continues, take_chars, clamp_error, max_err}

-- The number of characters.
unfoldable pub chars_count : Bytes → ℕ
chars_count [] = 0
chars_count (b ∷ s) = let rest = chars_count s in if continues b then rest else suc rest

-- Between characters no byte goes on, inside one every byte does.
start-continues : (b : ℕ) (st : Utf8State) → next Utf8State.start b ≡ some st → continues b ≡ false
unfolding next
start-continues b st h = ground arith

abbrev is_start : Utf8State → Bool
is_start Utf8State.start = true
is_start _ = false

inside-continues :
    (st st' : Utf8State) (b : ℕ) → is_start st ≡ false → next st b ≡ some st' → continues b ≡ true
unfolding next
inside-continues Utf8State.start st' b p h = ground arith
inside-continues Utf8State.one st' b p h = ground arith
inside-continues Utf8State.two st' b p h = ground arith
inside-continues Utf8State.three st' b p h = ground arith
inside-continues Utf8State.after_e0 st' b p h = ground arith
inside-continues Utf8State.after_ed st' b p h = ground arith
inside-continues Utf8State.after_f0 st' b p h = ground arith
inside-continues Utf8State.after_f4 st' b p h = ground arith

-- Where a character begins, the text may end.
may_end :
    (st st' : Utf8State) (b : ℕ)
    → next st b ≡ some st'
    → continues b ≡ false
    → valid_from st [] ≡ true
unfolding valid_from
may_end Utf8State.start st' b e h = refl
may_end st st' b e h = absurd (true≢false (sym (inside-continues st st' b refl e) ∙ h))

pub take_chars-valid :
    (n : ℕ) (st : Utf8State) (s : Bytes)
    → valid_from st s ≡ true
    → valid_from st (take_chars n s) ≡ true
unfolding valid_from take_chars
take_chars-valid n st [] h = h
take_chars-valid zero st (b ∷ s) h =
    let (st', e, h') = valid_from_step st s b h in
    elim (Bool-cases (continues b)) [
      | inl k ↦ rw (k, e, valid_from) (take_chars-valid 0 st' s h')
      | inr k ↦ rw k (may_end st st' b e k)
    ]
take_chars-valid (suc n) st (b ∷ s) h =
    let (st', e, h') = valid_from_step st s b h in
    elim (Bool-cases (continues b)) [
      | inl k ↦ rw (k, e, valid_from) (take_chars-valid (suc n) st' s h')
      | inr k ↦ rw (k, e, valid_from) (take_chars-valid n st' s h')
    ]

pub take_chars-le : (n : ℕ) (s : Bytes) → chars_count (take_chars n s) ≤ n
unfolding take_chars chars_count
take_chars-le n [] = omega arith
take_chars-le zero (b ∷ s) = ground (arith, take_chars-le 0 s)
take_chars-le (suc n) (b ∷ s) = ground (arith, take_chars-le n s, take_chars-le (suc n) s)

-- A text of at most `n` characters is left as it is.
pub take_chars-all : (n : ℕ) (s : Bytes) → chars_count s ≤ n → take_chars n s ≡ s
unfolding take_chars chars_count
take_chars-all n [] h = refl
take_chars-all zero (b ∷ s) h = ground (arith, take_chars-all 0 s)
take_chars-all (suc n) (b ∷ s) h = ground (arith, take_chars-all n s, take_chars-all (suc n) s)

-- `clamp_error` gives UTF-8, and at most 200 characters of it.
pub clamp_error-utf8 : (s : Bytes) → is_utf8 s ≡ true → is_utf8 (clamp_error s) ≡ true
unfolding clamp_error is_utf8
clamp_error-utf8 s h = take_chars-valid max_err Utf8State.start s h

pub clamp_error-le : (s : Bytes) → chars_count (clamp_error s) ≤ max_err
unfolding clamp_error
clamp_error-le s = take_chars-le max_err s

pub clamp_error-all : (s : Bytes) → chars_count s ≤ max_err → clamp_error s ≡ s
unfolding clamp_error
clamp_error-all s h = take_chars-all max_err s h

-- The verdict that is kept of a text in UTF-8 is UTF-8 and has at most 200 characters; one of at
-- most 200 characters is kept whole.
pub clamp_error-bounds :
    (s : Bytes)
    → is_utf8 s ≡ true
    → (is_utf8 (clamp_error s) ≡ true)
      × (chars_count (clamp_error s) ≤ max_err)
      × (chars_count s ≤ max_err → clamp_error s ≡ s)
clamp_error-bounds s h = (clamp_error-utf8 s h, clamp_error-le s, clamp_error-all s)
