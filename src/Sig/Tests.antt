-- ===== src/Sig/Tests.antt =====
-- Signatures at a code of two bytes.
use yt_websub.Prelude.{true, false, some, ◌≡◌, ◌↔◌, [], ◌∷◌, refl, Bytes, codes, arith}
use yt_websub.Sig.{Mac, verify, header_of, verify_iff}

-- A code that is the key.
abbrev key_mac : Mac
key_mac secret body = some secret

abbrev key : Bytes
key = 1 ∷ 2 ∷ []

verify_iff_example : (verify key_mac key [] (header_of key) ≡ true) ↔ (key ≡ key)
verify_iff_example = verify_iff key_mac key [] key key refl (omega arith, (omega arith, tt))

wrong_scheme : verify key_mac (1 ∷ []) [] (codes "sha256=01") ≡ false
unfolding verify
wrong_scheme = refl
