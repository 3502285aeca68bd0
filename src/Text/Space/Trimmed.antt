-- ===== src/Text/Space/Trimmed.antt =====
-- What `str::trim` leaves of text in UTF-8 is UTF-8.
use mathlib.Core.Bool.{true≢false}
use yt_websub.Prelude.{
  ℕ, zero, suc, ◌≤◌, ◌<◌, true, false, some, [], ◌∷◌, ◌≡◌, ◌⊎◌, inl, inr, refl, sym, ◌∙◌, subst,
  arith, Bytes, leb, ◌==◌, Bool-cases, drop,
}
use yt_websub.Text.Utf8.{Utf8State, start, next, valid_from, valid_from_step, is_utf8}
use yt_websub.Text.Utf8.Wide.{next-continues, behind_two, behind_three}
use yt_websub.Text.Cut.{valid_from-ascii, valid_from_cons}
use yt_websub.Text.Space.{
  space_len, skip_spaces, trim_start, trim_end, trim, is_blank, is_ascii_space, is_latin_space,
  is_wide_space,
}

-- A white space character begins with ASCII or with the first byte of a longer character.
space_first : (c k : ℕ) (s : Bytes) → space_len (c ∷ s) ≡ suc k → (c < 128) ⊎ (0xC0 ≤ c)
unfolding space_len is_ascii_space is_latin_space is_wide_space
space_first c k s h = elim (Bool-cases (leb 0xC0 c)) [
  | inl high ↦ inr (ground arith)
  | inr low ↦ inl (continuation c k s h low)
]
  where
    continuation : (c k : ℕ) (s : Bytes) → space_len (c ∷ s) ≡ suc k → leb 0xC0 c ≡ false → c < 128
    continuation c k [] h low = ground arith
    continuation c k (a ∷ []) h low = ground arith
    continuation c k (a ∷ b ∷ s) h low = ground arith

-- So it stands between characters.
space_starts :
    (st st' : Utf8State) (c k : ℕ) (s : Bytes)
    → space_len (c ∷ s) ≡ suc k
    → next st c ≡ some st'
    → st ≡ start
space_starts st st' c k s h e = elim (next-continues st st' c e) [
  | inl at ↦ at
  | inr (low, high) ↦ elim (space_first c k s h) [
    | inl small ↦ absurd (omega arith)
    | inr big ↦ absurd (omega arith)
  ]
]

-- The white space characters have one, two or three bytes, by the first.
Kinds : ℕ → ℕ → Type 0
Kinds c k = ((c < 128) × (k ≡ 0)) ⊎ (((c ≡ 0xC2) × (k ≡ 1)) ⊎ (((0xE1 ≤ c) × (c ≤ 0xE3)) × (k ≡ 2)))

space-Kinds : (c a b k : ℕ) (s : Bytes) → space_len (c ∷ a ∷ b ∷ s) ≡ suc k → Kinds c k
unfolding space_len is_ascii_space is_latin_space is_wide_space Kinds
space-Kinds c a b k s h = elim (Bool-cases (leb 128 c)) [
  | inr low ↦ inl (ground arith, ground arith)
  | inl high ↦ elim (Bool-cases (c == 0xC2)) [
    | inl e ↦ inr (inl (ground arith, ground arith))
    | inr e ↦ inr (inr ((ground arith, ground arith), ground arith))
  ]
]

-- Behind a white space character.
drop-space :
    (c k : ℕ) (s : Bytes)
    → space_len (c ∷ s) ≡ suc k
    → is_utf8 (c ∷ s) ≡ true
    → is_utf8 (drop k s) ≡ true
unfolding space_len is_ascii_space is_latin_space is_wide_space Kinds is_utf8
drop-space c k [] h valid = let none_left : k ≡ 0 = ground arith in rw none_left refl
drop-space c k (a ∷ []) h valid = elim (Bool-cases (leb 128 c)) [
  | inr low ↦
      (let one_byte : k ≡ 0 = ground arith in
        let small : c < 128 = ground arith in
        rw one_byte ((valid_from-ascii start c (a ∷ []) small valid).1))
  | inl high ↦ (let two_bytes : k ≡ 1 = ground arith in rw two_bytes refl)
]
drop-space c k (a ∷ b ∷ s) h valid = elim (space-Kinds c a b k s h) [
  | inl (small, e) ↦ rw e ((valid_from-ascii start c (a ∷ b ∷ s) small valid).1)
  | inr (inl (lead, e)) ↦ rw e (behind_two c a (b ∷ s) lead valid)
  | inr (inr ((low, high), e)) ↦ rw e (behind_three c a b s low high valid)
]

abbrev IsUtf8 : Bytes → Type 0
IsUtf8 s = is_utf8 s ≡ true

zero_or_suc : (n : ℕ) → (n ≡ 0) ⊎ ((k : ℕ) × (n ≡ suc k))
zero_or_suc zero = inl refl
zero_or_suc (suc k) = inr (k, refl)

skip_spaces-nil : (k : ℕ) → skip_spaces k [] ≡ []
unfolding skip_spaces
skip_spaces-nil zero = refl
skip_spaces-nil (suc k) = refl

skip_spaces_stops : (c : ℕ) (s : Bytes) → space_len (c ∷ s) ≡ 0 → skip_spaces 0 (c ∷ s) ≡ c ∷ s
unfolding skip_spaces
skip_spaces_stops c s e = rw (skip_spaces, e) refl

skip_spaces_goes_on :
    (c k : ℕ) (s : Bytes) → space_len (c ∷ s) ≡ suc k → skip_spaces 0 (c ∷ s) ≡ skip_spaces k s
unfolding skip_spaces
skip_spaces_goes_on c k s e = rw (skip_spaces, e) refl

skip_spaces-IsUtf8 :
    (k : ℕ) (s : Bytes) → is_utf8 (drop k s) ≡ true → is_utf8 (skip_spaces k s) ≡ true
unfolding skip_spaces is_utf8
skip_spaces-IsUtf8 k [] valid = subst IsUtf8 (sym (skip_spaces-nil k)) refl
skip_spaces-IsUtf8 (suc k) (c ∷ s) valid = skip_spaces-IsUtf8 k s valid
skip_spaces-IsUtf8 zero (c ∷ s) valid = elim (zero_or_suc (space_len (c ∷ s))) [
  | inl e ↦ subst IsUtf8 (sym (skip_spaces_stops c s e)) valid
  | inr (k, e) ↦
      subst IsUtf8 (sym (skip_spaces_goes_on c k s e))
        (skip_spaces-IsUtf8 k s (drop-space c k s e valid))
]

trim_start-IsUtf8 : (s : Bytes) → is_utf8 s ≡ true → is_utf8 (trim_start s) ≡ true
unfolding trim_start
trim_start-IsUtf8 s = skip_spaces-IsUtf8 0 s

blank_starts :
    (st st' : Utf8State) (c : ℕ) (s : Bytes)
    → is_blank (c ∷ s) ≡ true
    → next st c ≡ some st'
    → st ≡ start
unfolding is_blank trim_start skip_spaces
blank_starts st st' c s blank e = elim (zero_or_suc (space_len (c ∷ s))) [
  | inl none_there ↦
      absurd (true≢false (sym blank ∙ rw (is_blank, trim_start, skip_spaces, none_there) refl))
  | inr (k, there) ↦ space_starts st st' c k s there e
]

trim_end-valid :
    (st : Utf8State) (s : Bytes) → valid_from st s ≡ true → valid_from st (trim_end s) ≡ true
unfolding trim_end valid_from
trim_end-valid st [] h = h
trim_end-valid st (c ∷ s) h =
    let (st', e, h') = valid_from_step st s c h in
    elim (Bool-cases (is_blank (c ∷ s))) [
      | inl blank ↦ rw (trim_end, blank) (rw (blank_starts st st' c s blank e) refl)
      | inr more ↦
          rw (trim_end, more) (valid_from_cons st st' c (trim_end s) e (trim_end-valid st' s h'))
    ]

pub trim-IsUtf8 : (s : Bytes) → is_utf8 s ≡ true → is_utf8 (trim s) ≡ true
unfolding trim is_utf8
trim-IsUtf8 s valid = trim_end-valid start (trim_start s) (trim_start-IsUtf8 s valid)
