-- ===== src/Util/Tests.antt =====
-- The helpers of src/util.rs at concrete inputs, and the theorems about them at some of these.
use yt_websub.Prelude.Maps.{Table, get}
use yt_websub.Util.Compare.{ct_eq, ct_eq_iff}
use yt_websub.Util.Query.{query_get, query_text, query_get-query_text, IsTextPair}
use yt_websub.Prelude.{
  ◌=b◌, ◌↔◌, ◌≡◌, ◌⊎◌, true, false, some, none, [], ◌∷◌, ◌++◌, refl, Bytes, codes, All, arith,
}
use yt_websub.Text.Utf8.{is_utf8, next}
use yt_websub.Util.Hex.{hex_encode, hex_decode}
use yt_websub.Util.JsonReader.{read_json}
use yt_websub.Util.Json.{json_string, read_json-json_string}
use yt_websub.Util.Pct.{pct_encode, pct_decode, pct_decode-encode}
use yt_websub.Util.Atomic.{Slot, write_fails, write_atomic, write_atomic-target}

hex_test : hex_encode (0xde ∷ 0xad ∷ []) ≡ codes "dead"
unfolding hex_encode
hex_test = refl

hex_upper_test : hex_decode (codes " DEad ") ≡ some (0xde ∷ 0xad ∷ [])
unfolding hex_decode yt_websub.Text.Space.trim
hex_upper_test = refl

hex_bad_test : (hex_decode (codes "xyz") ≡ none) × (hex_decode (codes "xy") ≡ none)
unfolding hex_decode yt_websub.Text.Space.trim
hex_bad_test = (refl, refl)

pct_test : pct_encode (codes "a\tb%") ≡ codes "a%09b%25"
unfolding pct_encode next
pct_test = refl

pct_loose_test : pct_decode (codes "100% %zz") ≡ codes "100% %zz"
unfolding pct_decode next
pct_loose_test = refl

-- `café`, a tab and a percent sign.
abbrev cafe : Bytes
cafe = 0x63 ∷ 0x61 ∷ 0x66 ∷ 0xC3 ∷ 0xA9 ∷ 9 ∷ b'%' ∷ []

utf8_cafe : is_utf8 cafe ≡ true
unfolding is_utf8 next
utf8_cafe = refl

pct_decode-encode_test : pct_decode (pct_encode cafe) ≡ cafe
pct_decode-encode_test = pct_decode-encode cafe utf8_cafe

abbrev slot : Slot
slot = record { target = some (codes "old"); tmp = none }

write_atomic-target_test :
    (((write_atomic (write_fails 2) (codes "new") slot).1 ≡ true)
      × ((write_atomic (write_fails 2) (codes "new") slot).0.target ≡ some (codes "new")))
    ⊎ (((write_atomic (write_fails 2) (codes "new") slot).1 ≡ false)
        × ((write_atomic (write_fails 2) (codes "new") slot).0.target ≡ slot.target))
write_atomic-target_test = write_atomic-target (write_fails 2) (codes "new") slot

abbrev form : Table Bytes
form = (codes "a", codes "1") ∷ (codes "b c", codes "x&y=%") ∷ []

form-All : All IsTextPair form
unfolding is_utf8 next
form-All = ((refl, refl), ((refl, refl), tt))

query_get-query_text_example : query_get (query_text form) (codes "b c") ≡ get (codes "b c") form
query_get-query_text_example = query_get-query_text (codes "b c") form form-All

abbrev left_bytes : Bytes
left_bytes = 7 ∷ 9 ∷ []

abbrev right_bytes : Bytes
right_bytes = 7 ∷ 8 ∷ []

ct_eq_iff_test : (ct_eq left_bytes right_bytes ≡ true) ↔ (left_bytes ≡ right_bytes)
ct_eq_iff_test =
    ct_eq_iff left_bytes right_bytes (omega arith, (omega arith, tt))
      (omega arith, (omega arith, tt))

loose_query : query_get (codes "&x=%zz+%4") (codes "x") ≡ some (codes "%zz %4")
unfolding query_get next ◌=b◌
loose_query = refl

json_test : json_string (codes "a\"b\n") ≡ codes "\"a\\\"b\\n\""
unfolding json_string
json_test = refl

read_json-json_string_example :
    read_json (json_string (codes "a\"b\\\n") ++ codes ",x") ≡ some (codes "a\"b\\\n", codes ",x")
read_json-json_string_example = read_json-json_string (codes "a\"b\\\n") (codes ",x")
