-- ===== src/Util/Form.antt =====
-- `url_decode` of src/util.rs, which reads back what a client makes of a form's fields.
use Prim.Native.Nat.{bit_and}
use yt_websub.Prelude.{
  ℕ, ◌/◌, Bool, true, false, ◌&&◌, ◌||◌, none, some, [], ◌∷◌, ◌++◌, ◌≡◌, ◌≢◌, inl, inr, not, refl,
  ap, ◌∙◌, arith, Bytes, leb, ◌==◌, if◌then◌else◌, Bool-cases, All, All-append, all,
}
use yt_websub.Prelude.Ranges.{holds_below, holds_below-at}
use yt_websub.Text.Utf8.{is_utf8, from_utf8_lossy, from_utf8_lossy-valid, is_utf8-IsByte}
use yt_websub.Util.Hex.{table_at, IsByte}
use yt_websub.Util.Pct.{hex_pair, upper_digits}

-- The loop of `url_decode`: as `unescape`, and a `+` is a space.
unfoldable pub unform : Bytes → Bytes
unform [] = []
unform (a ∷ []) = (if a == b'+' then b' ' else a) ∷ []
unform (a ∷ b ∷ []) = (if a == b'+' then b' ' else a) ∷ unform (b ∷ [])
unform (a ∷ b ∷ c ∷ s) =
    let plain = (if a == b'+' then b' ' else a) ∷ unform (b ∷ c ∷ s) in
    let cut = unform s in
    if a == b'%' then elim (hex_pair b c) [ none ↦ plain | some v ↦ v ∷ cut ] else plain

unfoldable pub url_decode : Bytes → Bytes
unfolding unform hex_pair from_utf8_lossy
url_decode s = from_utf8_lossy (unform s)

-- What a client makes of one byte of a form: letters, digits and `*-._` stay, a space is a `+`, and
-- the rest is escaped.
abbrev stays : ℕ → Bool
stays b =
    (leb b'a' b && leb b b'z')
    || (leb b'A' b && leb b b'Z')
    || (leb b'0' b && leb b b'9')
    || b == b'*'
    || b == b'-'
    || b == b'.'
    || b == b'_'

form_byte : ℕ → Bytes
unfolding table_at
form_byte b =
    if stays b
    then b ∷ []
    else if b == b' '
    then b'+' ∷ []
    else b'%' ∷ table_at upper_digits (b / 16) ∷ table_at upper_digits (bit_and b 0x0f) ∷ []

pub form_encode : Bytes → Bytes
unfolding form_byte
form_encode [] = []
form_encode (b ∷ s) = form_byte b ++ form_encode s

unform_plain : (b : ℕ) (s : Bytes) → b ≢ b'%' → b ≢ b'+' → unform (b ∷ s) ≡ b ∷ unform s
unfolding unform
unform_plain b [] h k = ground arith
unform_plain b (c ∷ []) h k = ground arith
unform_plain b (c ∷ d ∷ s) h k = ground arith

unform_plus : (s : Bytes) → unform (b'+' ∷ s) ≡ b' ' ∷ unform s
unfolding unform
unform_plus [] = refl
unform_plus (c ∷ []) = refl
unform_plus (c ∷ d ∷ s) = refl

unform_cut :
    (h l v : ℕ) (s : Bytes) → hex_pair h l ≡ some v → unform (b'%' ∷ h ∷ l ∷ s) ≡ v ∷ unform s
unfolding unform
unform_cut h l v s e = ground arith

abbrev pair_reads_back : ℕ → Bool
pair_reads_back b =
    elim (hex_pair (table_at upper_digits (b / 16)) (table_at upper_digits (bit_and b 0x0f))) [
      | none ↦ false
      | some v ↦ v == b
    ]

pair_test : holds_below pair_reads_back 256 ≡ true
unfolding holds_below hex_pair table_at
pair_test = refl

pair_parts_back :
    (b : ℕ)
    → pair_reads_back b ≡ true
    → hex_pair (table_at upper_digits (b / 16)) (table_at upper_digits (bit_and b 0x0f)) ≡ some b
pair_parts_back b h = ground arith

unform-form_byte : (b : ℕ) (s : Bytes) → IsByte b → unform (form_byte b ++ s) ≡ b ∷ unform s
unfolding form_byte
unform-form_byte b s h = elim (Bool-cases (stays b)) [
  | inl e ↦ rw e (unform_plain b s (ground (arith, e)) (ground (arith, e)))
  | inr e ↦ elim (Bool-cases (b == b' ')) [
    | inl f ↦ rw (e, f) (unform_plus s ∙ ap (λ (c : ℕ). c ∷ unform s) (ground (arith, f)))
    | inr f ↦
        rw (e, f)
          (unform_cut _ _ b s
            (pair_parts_back b (holds_below-at pair_reads_back 256 b pair_test h)))
  ]
]

unform-form_encode : (s : Bytes) → All IsByte s → unform (form_encode s) ≡ s
unfolding form_encode
unform-form_encode [] h = unfold unform in refl
unform-form_encode (b ∷ s) h =
    unform-form_byte b (form_encode s) (h.0)
    ∙ ap (λ (t : Bytes). b ∷ t) (unform-form_encode s (h.1))

-- The text of a form field in UTF-8 is read back.
pub url_decode-form_encode : (s : Bytes) → is_utf8 s ≡ true → url_decode (form_encode s) ≡ s
unfolding url_decode
url_decode-form_encode s h =
    ap from_utf8_lossy (unform-form_encode s (is_utf8-IsByte s h)) ∙ from_utf8_lossy-valid s h

-- No byte of an encoded field parts pairs or a name from its value.
abbrev pub IsFormByte : ℕ → Type 0
IsFormByte b = (b ≢ b'&') × (b ≢ b'=')

abbrev parts_nothing : ℕ → Bool
parts_nothing b = not (b == b'&') && not (b == b'=')

form_byte_test : holds_below (λ b. all parts_nothing (form_byte b)) 256 ≡ true
unfolding holds_below form_byte table_at all
form_byte_test = refl

all-IsFormByte : (s : Bytes) → all parts_nothing s ≡ true → All IsFormByte s
unfolding all
all-IsFormByte [] h = tt
all-IsFormByte (b ∷ s) h =
    ((ground (arith, h), ground (arith, h)), all-IsFormByte s (ground (arith, h)))

pub form_encode-All : (s : Bytes) → All IsByte s → All IsFormByte (form_encode s)
unfolding form_encode
form_encode-All [] h = tt
form_encode-All (b ∷ s) h =
    All-append IsFormByte (form_byte b) (form_encode s)
      (all-IsFormByte (form_byte b)
        (holds_below-at (λ (x : ℕ). all parts_nothing (form_byte x)) 256 b form_byte_test (h.0)))
      (form_encode-All s (h.1))
