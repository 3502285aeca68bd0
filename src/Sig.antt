-- ===== src/Sig.antt =====
-- `verify` of src/sig.rs. HMAC-SHA1 is a parameter: the code of a message under a key, or `none` if
-- the key is refused.
mod Tests
use yt_websub.Prelude.{
  Bool, true, false, Option, none, some, ◌++◌, ◌≡◌, ◌↔◌, refl, Bytes, codes, ◌=b◌, =b_iff, All, ◌∷◌,
  [], ap, sym, ◌∙◌, All-append, arith, subst,
}
use yt_websub.Text.Pieces.{strip_prefix}
use yt_websub.Text.Space.{trim, trim-IsGraphic, IsGraphic}
use yt_websub.Util.Hex.{hex_encode, hex_decode, hex_decode-encode, hex_encode-IsGraphic, IsByte}

abbrev pub Mac : Type 0
Mac = Bytes → Bytes → Option Bytes

-- `mac.verify_slice(expected)` after the key is taken.
unfoldable pub verify_slice : Option Bytes → Bytes → Bool
verify_slice none expected = false
verify_slice (some digest) expected = digest =b expected

unfoldable pub check_hex : Mac → Bytes → Bytes → Bytes → Bool
unfolding hex_decode verify_slice
check_hex mac secret body hex = elim (hex_decode hex) [
  | none ↦ false
  | some expected ↦ verify_slice (mac secret body) expected
]

unfoldable pub verify : Mac → Bytes → Bytes → Bytes → Bool
unfolding trim strip_prefix check_hex
verify mac secret body header = elim (strip_prefix (codes "sha1=") (trim header)) [
  | none ↦ false
  | some h ↦ check_hex mac secret body (trim h)
]

-- What the hub sends for a digest.
pub header_of : Bytes → Bytes
header_of digest = codes "sha1=" ++ hex_encode digest

trim-header_of : (m : Bytes) → All IsByte m → trim (header_of m) ≡ header_of m
unfolding header_of
trim-header_of m h =
    trim-IsGraphic (codes "sha1=" ++ hex_encode m)
      (All-append IsGraphic (codes "sha1=") (hex_encode m) (omega arith) (hex_encode-IsGraphic m h))

strip_prefix-header_of :
    (m : Bytes) → strip_prefix (codes "sha1=") (header_of m) ≡ some (hex_encode m)
unfolding strip_prefix header_of
strip_prefix-header_of m = refl

verify-header_of :
    (mac : Mac) (secret body digest m : Bytes)
    → mac secret body ≡ some digest
    → All IsByte m
    → verify mac secret body (header_of m) ≡ digest =b m
unfolding verify ◌=b◌
verify-header_of mac secret body digest m key bytes =
    rw
      (
        verify,
        trim-header_of m bytes,
        strip_prefix-header_of m,
        trim-IsGraphic (hex_encode m) (hex_encode-IsGraphic m bytes),
        check_hex,
        hex_decode-encode m bytes,
        key,
      )
      refl

-- If the secret is taken as a key, a header that is the print of some bytes passes exactly if they
-- are the code of the body under it.
pub verify_iff :
    (mac : Mac) (secret body digest m : Bytes)
    → mac secret body ≡ some digest
    → All IsByte m
    → (verify mac secret body (header_of m) ≡ true) ↔ (digest ≡ m)
verify_iff mac secret body digest m key bytes =
    let same = verify-header_of mac secret body digest m key bytes in
    ((λ h. (=b_iff digest m).0 (sym same ∙ h)), (λ e. same ∙ (=b_iff digest m).1 e))
