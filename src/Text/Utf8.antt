-- ===== src/Text/Utf8.antt =====
-- UTF-8 as `str` checks it, and the repair of `String::from_utf8_lossy`.
pub mod Lossy
pub mod Wide
use mathlib.Core.Option.{some-injective}
use yt_websub.Prelude.{
  ℕ, Bool, true, false, ◌&&◌, Option, none, some, [], ◌∷◌, ◌++◌, append-nil, append_assoc, ◌≡◌, ◌<◌,
  ◌∙◌, All, refl, arith, Bytes, ltb, leb, ◌==◌, if◌then◌else◌, Option-cases, inl, inr, sym, lt→ltb,
}

-- Where a decoder stands: between two characters, or with bytes of one still to come.
pub data Utf8State : Type 0 where
  start one two three after_e0 after_ed after_f0 after_f4 : Utf8State

within : ℕ → ℕ → ℕ → Bool
within lo hi b = leb lo b && leb b hi

-- One byte more; `none` where no character goes on so.
unfoldable pub next : Utf8State → ℕ → Option Utf8State
unfolding within
next start b =
    if ltb b 0x80
    then some start
    else if within 0xC2 0xDF b
    then some one
    else if b == 0xE0
    then some after_e0
    else if b == 0xED
    then some after_ed
    else if within 0xE1 0xEF b
    then some two
    else if b == 0xF0
    then some after_f0
    else if within 0xF1 0xF3 b
    then some three
    else if b == 0xF4
    then some after_f4
    else none
next one b = if within 0x80 0xBF b then some start else none
next two b = if within 0x80 0xBF b then some one else none
next three b = if within 0x80 0xBF b then some two else none
next after_e0 b = if within 0xA0 0xBF b then some one else none
next after_ed b = if within 0x80 0x9F b then some one else none
next after_f0 b = if within 0x90 0xBF b then some two else none
next after_f4 b = if within 0x80 0x8F b then some two else none

abbrev pub at_start : Utf8State → Bool
at_start start = true
at_start _ = false

-- Whether the bytes complete the character begun and are characters from there on.
unfoldable pub valid_from : Utf8State → Bytes → Bool
valid_from st [] = at_start st
valid_from st (b ∷ s) = elim (next st b) [ none ↦ false | some st' ↦ valid_from st' s ]

-- `str::from_utf8(s).is_ok()`
unfoldable pub is_utf8 : Bytes → Bool
unfolding valid_from
is_utf8 s = valid_from start s

-- U+FFFD, which takes the place of a broken character.
abbrev pub replacement : Bytes
replacement = 0xEF ∷ 0xBF ∷ 0xBD ∷ []

-- Of the bytes read since the last whole character: what is whole now, and what still waits.
abbrev done : Utf8State → Bytes → Bytes
done start q = q
done _ q = []

abbrev waiting : Utf8State → Bytes → Bytes
waiting start q = []
waiting _ q = q

abbrev broken : Utf8State → Bytes
broken start = []
broken _ = replacement

lossy_from : Utf8State → Bytes → Bytes → Bytes
lossy_from st q [] = broken st
lossy_from st q (b ∷ s) = elim (next st b) [
  | some st' ↦ done st' (q ++ b ∷ []) ++ lossy_from st' (waiting st' (q ++ b ∷ [])) s
  | none ↦ broken st ++ (elim (next start b) [
    | some st' ↦ done st' (b ∷ []) ++ lossy_from st' (waiting st' (b ∷ [])) s
    | none ↦ replacement ++ lossy_from start [] s
  ])
]

-- `String::from_utf8_lossy`
unfoldable pub from_utf8_lossy : Bytes → Bytes
unfolding lossy_from
from_utf8_lossy s = lossy_from start [] s

done-waiting : (st : Utf8State) (q : Bytes) → done st q ++ waiting st q ≡ q
done-waiting start q = append-nil q
done-waiting one q = refl
done-waiting _ q = refl

lossy_from_step :
    (st st' : Utf8State) (q s : Bytes) (b : ℕ)
    → next st b ≡ some st'
    → lossy_from st q (b ∷ s)
      ≡ done st' (q ++ b ∷ []) ++ lossy_from st' (waiting st' (q ++ b ∷ [])) s
unfolding lossy_from
lossy_from_step st st' q s b e = rw (e, lossy_from)

pub valid_from_step :
    (st : Utf8State) (s : Bytes) (b : ℕ)
    → valid_from st (b ∷ s) ≡ true
    → (st' : Utf8State) × (next st b ≡ some st') × (valid_from st' s ≡ true)
unfolding valid_from
valid_from_step st s b h = elim (Option-cases (next st b)) [
  | inl e ↦ absurd (ground (arith, e))
  | inr (st', e) ↦ (st', e, ground (arith, e))
]

lossy_from-valid :
    (st : Utf8State) (q s : Bytes)
    → valid_from st s ≡ true
    → lossy_from st (waiting st q) s ≡ waiting st q ++ s
unfolding lossy_from valid_from
lossy_from-valid start q [] h = refl
lossy_from-valid _ q [] h = ground arith
lossy_from-valid st q (b ∷ s) h =
    let (st', e, h') = valid_from_step st s b h in
    let p = waiting st q ++ b ∷ [] in
    rw (
      lossy_from_step st st' (waiting st q) s b e,
      lossy_from-valid st' p s h',
      ← append_assoc,
      done-waiting st' p,
      append_assoc,
    )

-- Text that is UTF-8 is left as it is.
pub from_utf8_lossy-valid : (s : Bytes) → is_utf8 s ≡ true → from_utf8_lossy s ≡ s
unfolding from_utf8_lossy is_utf8
from_utf8_lossy-valid s h = lossy_from-valid start [] s h

pub valid_from-append :
    (st : Utf8State) (s t : Bytes)
    → valid_from st s ≡ true
    → valid_from st (s ++ t) ≡ valid_from start t
unfolding valid_from
valid_from-append start [] t h = refl
valid_from-append _ [] t h = ground arith
valid_from-append st (b ∷ s) t h =
    let (st', e, h') = valid_from_step st s b h in rw (e, valid_from) (valid_from-append st' s t h')

-- UTF-8 behind UTF-8 is UTF-8.
pub is_utf8-append : (s t : Bytes) → is_utf8 s ≡ true → is_utf8 t ≡ true → is_utf8 (s ++ t) ≡ true
unfolding is_utf8
is_utf8-append s t h k = valid_from-append start s t h ∙ k

pub is_utf8-cons : (c : ℕ) (s : Bytes) → c < 128 → is_utf8 s ≡ true → is_utf8 (c ∷ s) ≡ true
unfolding is_utf8 valid_from next
is_utf8-cons c s h k = ground arith

pub is_utf8-ascii : (s : Bytes) → All (λ c. c < 128) s → is_utf8 s ≡ true
is_utf8-ascii [] h = unfold is_utf8 in refl
is_utf8-ascii (c ∷ s) (hc, h) = is_utf8-cons c s hc (is_utf8-ascii s h)

next-IsByte : (st st' : Utf8State) (b : ℕ) → next st b ≡ some st' → b < 256
unfolding next within
next-IsByte start st' b h = ground arith
next-IsByte one st' b h = ground arith
next-IsByte two st' b h = ground arith
next-IsByte three st' b h = ground arith
next-IsByte after_e0 st' b h = ground arith
next-IsByte after_ed st' b h = ground arith
next-IsByte after_f0 st' b h = ground arith
next-IsByte after_f4 st' b h = ground arith

valid_from-IsByte : (st : Utf8State) (s : Bytes) → valid_from st s ≡ true → All (λ b. b < 256) s
valid_from-IsByte st [] h = tt
valid_from-IsByte st (b ∷ s) h =
    let (st', e, h') = valid_from_step st s b h in
    (next-IsByte st st' b e, valid_from-IsByte st' s h')

-- UTF-8 is made of bytes.
pub is_utf8-IsByte : (s : Bytes) → is_utf8 s ≡ true → All (λ b. b < 256) s
unfolding is_utf8
is_utf8-IsByte s h = valid_from-IsByte start s h

next-start : (c : ℕ) → c < 128 → next start c ≡ some start
unfolding next
next-start c small = rw (lt→ltb c 128 small) refl

-- A byte of ASCII stands between characters.
pub next-ascii :
    (st st' : Utf8State) (c : ℕ) → c < 128 → next st c ≡ some st' → (st ≡ start) × (st' ≡ start)
unfolding next within
next-ascii start st' c small h = (refl, some-injective st' start (sym h ∙ next-start c small))
next-ascii one st' c small h = absurd (ground arith)
next-ascii two st' c small h = absurd (ground arith)
next-ascii three st' c small h = absurd (ground arith)
next-ascii after_e0 st' c small h = absurd (ground arith)
next-ascii after_ed st' c small h = absurd (ground arith)
next-ascii after_f0 st' c small h = absurd (ground arith)
next-ascii after_f4 st' c small h = absurd (ground arith)
