-- ===== src/Util/Query.antt =====
-- `query_get` of src/util.rs.
use yt_websub.Prelude.{
  ℕ, true, Option, none, some, List, [], ◌∷◌, ◌++◌, ◌≡◌, ◌≢◌, ◌⊎◌, inl, inr, refl, ap, ◌∙◌, arith,
  Bytes, ◌=b◌, if◌then◌else◌, All, All-append, All-map,
}
use yt_websub.Prelude.Maps.{Table, get}
use yt_websub.Text.Pieces.{split, split_once, split-append, split-last, split_once-append, Lacks}
use yt_websub.Text.Utf8.{is_utf8, is_utf8-IsByte}
use yt_websub.Util.Form.{
  url_decode, form_encode, url_decode-form_encode, IsFormByte, form_encode-All,
}

-- The name and the value of a pair, without an `=` the whole and nothing.
unfoldable pub pair_parts : Bytes → Bytes × Bytes
unfolding split_once
pair_parts pair = elim (split_once b'=' pair) [ none ↦ (pair, []) | some parts ↦ parts ]

unfoldable pub find_pair : Bytes → List Bytes → Option Bytes
unfolding pair_parts url_decode
find_pair key [] = none
find_pair key ([] ∷ more) = find_pair key more
find_pair key (pair ∷ more) =
    let rest = find_pair key more in
    if url_decode ((pair_parts pair).0) =b key
    then some (url_decode ((pair_parts pair).1))
    else rest

unfoldable pub query_get : Bytes → Bytes → Option Bytes
unfolding find_pair split
query_get query key = find_pair key (split b'&' query)

pub pair_text : Bytes → Bytes → Bytes
pair_text k v = form_encode k ++ b'=' ∷ form_encode v

-- A query string as a client makes it.
pub query_text : Table Bytes → Bytes
unfolding pair_text
query_text [] = []
query_text ((k, v) ∷ []) = pair_text k v
query_text ((k, v) ∷ q ∷ more) = pair_text k v ++ b'&' ∷ query_text (q ∷ more)

abbrev pub IsTextPair : Bytes × Bytes → Type 0
IsTextPair p = (is_utf8 (p.0) ≡ true) × (is_utf8 (p.1) ≡ true)

-- `find_pair` at a pair that is not empty.
find_pair-at :
    (key pair : Bytes) (more : List Bytes) (k v : Bytes)
    → pair ≢ []
    → pair_parts pair ≡ (k, v)
    → find_pair key (pair ∷ more)
      ≡ (if url_decode k =b key then some (url_decode v) else find_pair key more)
unfolding find_pair
find_pair-at key [] more k v h e = absurd (h refl)
find_pair-at key (c ∷ t) more k v h e = rw e refl

ends_nonempty : (s t : Bytes) (b : ℕ) → s ++ b ∷ t ≢ []
ends_nonempty [] t b = ground arith
ends_nonempty (c ∷ s) t b = ground arith

module _ (k v : Bytes) (p : IsTextPair (k, v)) where
  form-Lacks :
      (b : ℕ) (s : Bytes) → is_utf8 s ≡ true → (b ≡ b'&') ⊎ (b ≡ b'=') → Lacks b (form_encode s)
  form-Lacks b s u which =
      All-map IsFormByte (λ c. c ≢ b) (λ c d. ground (arith, d, which)) (form_encode s)
        (form_encode-All s (is_utf8-IsByte s u))

  pair_text-Lacks : Lacks b'&' (pair_text k v)
  unfolding pair_text
  pair_text-Lacks =
      All-append (λ c. c ≢ b'&') (form_encode k) (b'=' ∷ form_encode v)
        (form-Lacks b'&' k (p.0) (inl refl)) (omega arith, form-Lacks b'&' v (p.1) (inl refl))

  parts : pair_parts (pair_text k v) ≡ (form_encode k, form_encode v)
  unfolding pair_parts pair_text
  parts =
      rw
        (
          pair_parts,
          split_once-append b'=' (form_encode k) (form_encode v)
              (form-Lacks b'=' k (p.0) (inr refl)),
        )
        refl

  found_or_later :
      (key : Bytes) (more : List Bytes)
      → find_pair key (pair_text k v ∷ more) ≡ (if k =b key then some v else find_pair key more)
  unfolding pair_text
  found_or_later key more =
      find_pair-at key (pair_text k v) more (form_encode k) (form_encode v)
        (ends_nonempty (form_encode k) (form_encode v) b'=') parts
      ∙ rw (url_decode-form_encode k (p.0), url_decode-form_encode v (p.1)) refl

found_in :
    (key : Bytes) (pairs : Table Bytes)
    → All IsTextPair pairs
    → find_pair key (split b'&' (query_text pairs)) ≡ get key pairs
unfolding query_text get find_pair
found_in key [] h = unfold find_pair in unfold split in refl
found_in key ((k, v) ∷ []) h =
    ap (find_pair key) (split-last b'&' (pair_text k v) (pair_text-Lacks k v (h.0)))
    ∙ found_or_later k v (h.0) key []
found_in key ((k, v) ∷ q ∷ more) h =
    ap (find_pair key)
      (split-append b'&' (pair_text k v) (query_text (q ∷ more)) (pair_text-Lacks k v (h.0)))
    ∙ found_or_later k v (h.0) key (split b'&' (query_text (q ∷ more)))
    ∙ ap (λ (o : Option Bytes). if k =b key then some v else o) (found_in key (q ∷ more) (h.1))

-- In the query string that a client makes of names and values in UTF-8, a name is found with the
-- value of its first pair, and no other name is.
pub query_get-query_text :
    (key : Bytes) (pairs : Table Bytes)
    → All IsTextPair pairs
    → query_get (query_text pairs) key ≡ get key pairs
unfolding query_get
query_get-query_text key pairs h = found_in key pairs h
