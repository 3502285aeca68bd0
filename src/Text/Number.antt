-- ===== src/Text/Number.antt =====
-- Decimal numbers: `to_string` and `str::parse` of the unsigned types.
use yt_websub.Prelude.{
  ℕ, zero, suc, ◌+◌, ◌-◌, ◌*◌, ◌/◌, ◌%◌, ◌^◌, ◌≤◌, ◌<◌, Bool, ◌&&◌, Option, none, some, [], ◌∷◌,
  ◌++◌, append_assoc, append-nil, ◌≡◌, ◌≢◌, refl, ap, sym, ◌∙◌, arith, Bytes, ltb, leb, ◌==◌,
  if◌then◌else◌, All, All-append, Bool-cases, inl, inr, length, length-append, lt→ltb,
}

abbrev pub max_u64 : ℕ
max_u64 = 2 ^ 64 - 1

abbrev pub max_u32 : ℕ
max_u32 = 2 ^ 32 - 1

-- The fuel is a bound on the number of digits.
digits : ℕ → ℕ → Bytes
digits zero n = []
digits (suc fuel) n =
    let higher = digits fuel (n / 10) in
    if ltb n 10 then (b'0' + n) ∷ [] else higher ++ (b'0' + n % 10) ∷ []

-- `n.to_string()`
unfoldable pub to_string : ℕ → Bytes
unfolding digits
to_string n = digits (suc n) n

unfoldable pub is_digit : ℕ → Bool
is_digit c = leb b'0' c && leb c b'9'

-- `checked_mul` and `checked_add` of each digit.
unfoldable pub scan : ℕ → ℕ → Bytes → Option ℕ
unfolding is_digit
scan limit n [] = some n
scan limit n (c ∷ s) =
    let rest = scan limit (n * 10 + (c - b'0')) s in
    if is_digit c && leb (n * 10 + (c - b'0')) limit then rest else none

-- `s.parse()` into an unsigned type that holds 0 to `limit`; one leading `+` is allowed.
unfoldable pub parse : ℕ → Bytes → Option ℕ
unfolding scan
parse limit [] = none
parse limit (c ∷ []) = if c == b'+' then none else scan limit 0 (c ∷ [])
parse limit (c ∷ d ∷ s) = if c == b'+' then scan limit 0 (d ∷ s) else scan limit 0 (c ∷ d ∷ s)

abbrev pub IsDigit : ℕ → Type 0
IsDigit byte = (b'0' ≤ byte) × (byte ≤ b'9')

digits-All : (fuel n : ℕ) → All IsDigit (digits fuel n)
unfolding digits
digits-All zero n = tt
digits-All (suc fuel) n = elim (Bool-cases (ltb n 10)) [
  | inl small ↦ rw small (ground arith, tt)
  | inr large ↦
      rw large (All-append _ (digits fuel (n / 10)) _ (digits-All fuel (n / 10)) (omega arith))
]

-- Every byte of a printed number is a digit.
pub to_string-All : (n : ℕ) → All IsDigit (to_string n)
unfolding to_string
to_string-All n = digits-All (suc n) n

append-ne-nil : (xs : Bytes) (c : ℕ) → xs ++ c ∷ [] ≢ []
append-ne-nil [] c = ground arith
append-ne-nil (x ∷ xs) c = ground arith

pub to_string-ne-nil : (n : ℕ) → to_string n ≢ []
unfolding to_string
to_string-ne-nil n = elim (Bool-cases (ltb n 10)) [
  | inl small ↦ rw small (append-ne-nil [] (b'0' + n))
  | inr large ↦ rw large (append-ne-nil (digits n (n / 10)) (b'0' + n % 10))
]

scan_last :
    (limit n : ℕ) (out : Bytes)
    → n ≤ limit
    → scan limit (n / 10) ((b'0' + n % 10) ∷ out) ≡ scan limit n out
unfolding scan
scan_last limit n out h = ground arith

scan_first :
    (limit n : ℕ) (out : Bytes)
    → n ≤ limit
    → n < 10
    → scan limit 0 ((b'0' + n) ∷ out) ≡ scan limit n out
unfolding scan
scan_first limit n out h k = ground arith

scan-digits :
    (limit fuel n : ℕ) (out : Bytes)
    → n < fuel
    → n ≤ limit
    → scan limit 0 (digits fuel n ++ out) ≡ scan limit n out
unfolding digits
scan-digits limit zero n out h k = elim h [ ]
scan-digits limit (suc fuel) n out h k = elim (Bool-cases (ltb n 10)) [
  | inl small ↦ rw small (scan_first limit n out k (ground arith))
  | inr large ↦
      rw
        (
          large,
          append_assoc,
          scan-digits limit fuel (n / 10) ((b'0' + n % 10) ∷ out) (ground arith) (omega arith),
        )
        (scan_last limit n out k)
]

parse-scan : (limit : ℕ) (s : Bytes) → s ≢ [] → All IsDigit s → parse limit s ≡ scan limit 0 s
unfolding parse
parse-scan limit [] h a = absurd (h refl)
parse-scan limit (c ∷ []) h a = ground arith
parse-scan limit (c ∷ d ∷ s) h a = ground arith

scan-to_string : (limit n : ℕ) → n ≤ limit → scan limit 0 (to_string n) ≡ some n
unfolding to_string scan
scan-to_string limit n h =
    ap (scan limit 0) (sym (append-nil (digits (suc n) n)))
    ∙ scan-digits limit (suc n) n [] (omega arith) h

-- A number that fits its type is read back from its print.
pub parse-to_string : (limit n : ℕ) → n ≤ limit → parse limit (to_string n) ≡ some n
parse-to_string limit n h =
    parse-scan limit (to_string n) (to_string-ne-nil n) (to_string-All n) ∙ scan-to_string limit n h

scan-le : (limit n r : ℕ) (s : Bytes) → n ≤ limit → scan limit n s ≡ some r → r ≤ limit
unfolding scan
scan-le limit n r [] h e = ground arith
scan-le limit n r (c ∷ s) h e = ground (arith, scan-le limit (n * 10 + (c - b'0')) r s)

-- What is read fits the type.
pub parse-le : (limit r : ℕ) (s : Bytes) → parse limit s ≡ some r → r ≤ limit
unfolding parse
parse-le limit r [] h = ground arith
parse-le limit r (c ∷ []) h = ground (arith, scan-le limit 0 r (c ∷ []))
parse-le limit r (c ∷ d ∷ s) h =
    ground (arith, scan-le limit 0 r (d ∷ s), scan-le limit 0 r (c ∷ d ∷ s))

digits-length : (fuel n k : ℕ) → n < 10 ^ suc k → length (digits fuel n) ≤ suc k
unfolding digits
digits-length zero n k h = omega arith
digits-length (suc fuel) n zero h = rw (lt→ltb n 10 (omega arith)) (omega arith)
digits-length (suc fuel) n (suc k) h = elim (Bool-cases (ltb n 10)) [
  | inl small ↦ rw small (omega arith)
  | inr large ↦
      (let shorter = digits-length fuel (n / 10) k (omega arith) in
        let all_but_last = length-append (digits fuel (n / 10)) ((b'0' + n % 10) ∷ []) in
        rw large (omega arith))
]

-- A number below a power of ten has at most as many digits.
pub to_string-length : (n k : ℕ) → n < 10 ^ suc k → length (to_string n) ≤ suc k
unfolding to_string
to_string-length n k h = digits-length (suc n) n k h
