-- ===== src/Util/Compare.antt =====
-- `ct_eq` of src/util.rs.
use mathlib.Core.Bool.{and_assoc, false≢true}
use Prim.Native.Nat.{bit_or, bit_xor}
use yt_websub.Util.Hex.{IsByte}
use yt_websub.Prelude.Ranges.{holds_below, holds_below-at}
use yt_websub.Prelude.{
  ℕ, ◌<◌, sym, ap, ◌∙◌, ltb→lt, ◌=b◌, =b_iff, Bool, true, false, ◌&&◌, [], ◌∷◌, ◌≡◌, ◌↔◌, inl, inr,
  refl, arith, Bytes, ltb, ◌==◌, if◌then◌else◌, length, All, Bool-cases, not, and-left, and-right,
}

-- The loop over both texts, up to the end of the shorter, with what differed so far.
unfoldable pub differences : ℕ → Bytes → Bytes → ℕ
differences diff [] b = diff
differences diff (x ∷ a) [] = diff
differences diff (x ∷ a) (y ∷ b) = differences (bit_or diff (bit_xor x y)) a b

unfoldable pub ct_eq : Bytes → Bytes → Bool
unfolding differences
ct_eq a b = if not (length a == length b) then false else differences 0 a b == 0

-- The tables of `|` and `^` on bytes, as far as zero goes.
abbrev same_test : Bool → Bool → Bool
same_test true b = b
same_test false b = not b

abbrev xor_agrees : ℕ → ℕ → Bool
xor_agrees x y = same_test (bit_xor x y == 0) (x == y) && ltb (bit_xor x y) 256

abbrev or_agrees : ℕ → ℕ → Bool
or_agrees d e = same_test (bit_or d e == 0) (d == 0 && e == 0) && ltb (bit_or d e) 256

xor_table : holds_below (λ x. holds_below (xor_agrees x) 256) 256 ≡ true
unfolding holds_below
xor_table = refl

or_table : holds_below (λ x. holds_below (or_agrees x) 256) 256 ≡ true
unfolding holds_below
or_table = refl

same_test-eq : (a b : Bool) → same_test a b ≡ true → a ≡ b
same_test-eq true b h = sym h
same_test-eq false b h = ground (arith, h)

xor-byte : (x y : ℕ) → IsByte x → IsByte y → ((bit_xor x y == 0) ≡ (x == y)) × (bit_xor x y < 256)
xor-byte x y hx hy =
    let row = holds_below-at (λ (i : ℕ). holds_below (xor_agrees i) 256) 256 x xor_table hx in
    let both = holds_below-at (xor_agrees x) 256 y row hy in
    (same_test-eq _ _ (and-left _ _ both), ltb→lt _ _ (and-right _ _ both))

or-byte :
    (d e : ℕ) → IsByte d → IsByte e → ((bit_or d e == 0) ≡ (d == 0 && e == 0)) × (bit_or d e < 256)
or-byte d e hd he =
    let row = holds_below-at (λ (i : ℕ). holds_below (or_agrees i) 256) 256 d or_table hd in
    let both = holds_below-at (or_agrees d) 256 e row he in
    (same_test-eq _ _ (and-left _ _ both), ltb→lt _ _ (and-right _ _ both))

differences-zero :
    (d : ℕ) (a b : Bytes)
    → IsByte d
    → All IsByte a
    → All IsByte b
    → length a ≡ length b
    → (differences d a b == 0) ≡ (d == 0 && a =b b)
unfolding differences ◌=b◌
differences-zero d [] [] hd ha hb same = ground arith
differences-zero d [] (y ∷ b) hd ha hb same = absurd (omega (arith, same))
differences-zero d (x ∷ a) [] hd ha hb same = absurd (omega (arith, same))
differences-zero d (x ∷ a) (y ∷ b) hd ha hb same =
    let (xor_zero, xor_small) = xor-byte x y (ha.0) (hb.0) in
    let (or_zero, or_small) = or-byte d (bit_xor x y) hd xor_small in
    differences-zero (bit_or d (bit_xor x y)) a b or_small (ha.1) (hb.1) (omega (arith, same))
    ∙ rw (or_zero, xor_zero) (and_assoc (d == 0) (x == y) (a =b b))

-- `ct_eq` of two texts of bytes is true exactly when they are equal.
pub ct_eq_iff : (a b : Bytes) → All IsByte a → All IsByte b → (ct_eq a b ≡ true) ↔ (a ≡ b)
unfolding ct_eq
ct_eq_iff a b ha hb = elim (Bool-cases (length a == length b)) [
  | inl e ↦ rw (e, differences-zero 0 a b (omega arith) ha hb (ground (arith, e))) (=b_iff a b)
  | inr e ↦ rw e (
    (λ h. absurd (false≢true h)),
    (λ h. absurd (ground (arith, e, ap (λ (s : Bytes). length s) h))),
  )
]
