-- ===== src/Api/Client.antt =====
-- What the handlers of src/api.rs read of the bodies that a client makes.
use yt_websub.Prelude.{
  ℕ, ◌<◌, ◌≤◌, true, false, List, [], ◌∷◌, ◌++◌, append-nil, append_assoc, ◌≡◌, ◌≢◌, ◌⊎◌, inl, inr,
  refl, sym, ap, ◌∙◌, subst, arith, Bytes, codes, ◌==◌, ltb, Bool-cases, All, All-append, All-map,
  keep, keep-All, all, and-left, and-right, length, take_all, le→not-ltb,
}
use yt_websub.Text.Pieces.{Lacks}
use yt_websub.Text.Utf8.{is_utf8, from_utf8_lossy, from_utf8_lossy-valid}
use yt_websub.Util.Json.{json_byte, json_bytes, json_string}
use yt_websub.Api.Json.{commas}
use yt_websub.Api.Body.{
  is_plain, is_safe_channel_entry, scan_strings, in_string, between_strings, push_trimmed,
  before_bracket, after_bracket, extract_string_array, posted_channels, read_body, max_body,
}
use yt_websub.Api.Posted.{IsPosted, safe_full, safe_plain, plain-le}

module _ (c : ℕ) where
  not-same : (d : ℕ) → d < 32 → is_plain c ≡ true → c == d ≡ false
  not-same d small h = ground arith

  not-small : is_plain c ≡ true → ltb c 0x20 ≡ false
  not-small h = le→not-ltb c 0x20 (plain-le c h)

  same_scan :
      (d : ℕ) (cur t : Bytes)
      → c ≡ d
      → scan_strings in_string (cur ++ d ∷ []) t ≡ scan_strings in_string (cur ++ c ∷ []) t
  same_scan d cur t e = ap (λ (x : ℕ). scan_strings in_string (cur ++ x ∷ []) t) (sym e)

  -- How a printable byte is printed.
  json_byte-plain :
      is_plain c ≡ true
      → ((c ≡ b'"') × (json_byte c ≡ b'\\' ∷ b'"' ∷ []))
        ⊎ (((c ≡ b'\\') × (json_byte c ≡ b'\\' ∷ b'\\' ∷ []))
            ⊎ ((c == b'"' ≡ false) × (c == b'\\' ≡ false) × (json_byte c ≡ c ∷ [])))
  unfolding json_byte
  json_byte-plain h = elim (Bool-cases (c == b'"')) [
    | inl e ↦ inl (ground arith, rw (json_byte, e) refl)
    | inr e ↦ elim (Bool-cases (c == b'\\')) [
      | inl k ↦ inr (inl (ground arith, rw (json_byte, e, k) refl))
      | inr k ↦ inr (
          inr (
            e,
            k,
            rw
                (
                  json_byte,
                  e,
                  k,
                  not-same b'\n' (omega arith) h,
                  not-same b'\r' (omega arith) h,
                  not-same b'\t' (omega arith) h,
                  not-small h,
                )
                refl,
          ))
    ]
  ]

  scan-json_byte :
      (cur t : Bytes)
      → is_plain c ≡ true
      → scan_strings in_string cur (json_byte c ++ t) ≡ scan_strings in_string (cur ++ c ∷ []) t
  unfolding scan_strings
  scan-json_byte cur t h = elim (json_byte-plain h) [
    | inl (e, k) ↦ rw k (same_scan b'"' cur t e)
    | inr (inl (e, k)) ↦ rw k (same_scan b'\\' cur t e)
    | inr (inr (e1, e2, k)) ↦ rw (k, scan_strings, e1, e2) refl
  ]

  json_byte-All : (P : ℕ → Type 0) → P b'\\' → P c → is_plain c ≡ true → All P (json_byte c)
  json_byte-All P slash own h = elim (json_byte-plain h) [
    | inl (e, k) ↦ subst (All P) (sym k) (slash, (subst P e own, tt))
    | inr (inl (e, k)) ↦ subst (All P) (sym k) (slash, (slash, tt))
    | inr (inr (e1, e2, k)) ↦ subst (All P) (sym k) (own, tt)
  ]

json_bytes-All :
    (P : ℕ → Type 0) (s : Bytes) → P b'\\' → All P s → all is_plain s ≡ true → All P (json_bytes s)
unfolding json_bytes all
json_bytes-All P [] slash own h = tt
json_bytes-All P (c ∷ s) slash own h =
    All-append P (json_byte c) (json_bytes s)
      (json_byte-All c P slash (own.0) (and-left (is_plain c) (all is_plain s) h))
      (json_bytes-All P s slash (own.1) (and-right (is_plain c) (all is_plain s) h))

pub json_string-All :
    (P : ℕ → Type 0) (s : Bytes)
    → P b'\\'
    → P b'"'
    → All P s
    → all is_plain s ≡ true
    → All P (json_string s)
unfolding json_string
json_string-All P s slash quote own h =
    (quote, All-append P (json_bytes s) (b'"' ∷ []) (json_bytes-All P s slash own h) (quote, tt))

scan-json_bytes :
    (cur s rest : Bytes)
    → all is_plain s ≡ true
    → scan_strings in_string cur (json_bytes s ++ b'"' ∷ rest)
      ≡ push_trimmed (cur ++ s) (scan_strings between_strings [] rest)
unfolding json_bytes scan_strings all
scan-json_bytes cur [] rest h =
    ap (λ (t : Bytes). push_trimmed t (scan_strings between_strings [] rest)) (sym (append-nil cur))
scan-json_bytes cur (c ∷ s) rest h =
    ap (scan_strings in_string cur) (append_assoc (json_byte c) (json_bytes s) (b'"' ∷ rest))
    ∙ scan-json_byte c cur (json_bytes s ++ b'"' ∷ rest) (and-left (is_plain c) (all is_plain s) h)
    ∙ scan-json_bytes (cur ++ c ∷ []) s rest (and-right (is_plain c) (all is_plain s) h)
    ∙ ap (λ (t : Bytes). push_trimmed t (scan_strings between_strings [] rest))
        (append_assoc cur (c ∷ []) s)

before_bracket-append : (x y : Bytes) → Lacks b']' x → before_bracket (x ++ b']' ∷ y) ≡ x
unfolding before_bracket
before_bracket-append [] y h = refl
before_bracket-append (c ∷ x) y h = ground (arith, before_bracket-append x y (h.1))

-- The strings of an array, as a client prints them.
abbrev pub printed : List Bytes → List Bytes
printed [] = []
printed (c ∷ cs) = json_string c ∷ printed cs

-- What a client posts.
abbrev pub channels_body : List Bytes → Bytes
channels_body cs = codes "{\"channels\":[" ++ (commas (printed cs) ++ codes "]}")

push-posted : (c : Bytes) (out : List Bytes) → IsPosted c → push_trimmed c out ≡ c ∷ out
push-posted c out h = rw (h.trimmed, safe_full c (h.safe)) refl

scan-json_string :
    (c rest : Bytes)
    → IsPosted c
    → scan_strings between_strings [] (json_string c ++ rest)
      ≡ c ∷ scan_strings between_strings [] rest
unfolding scan_strings json_string
scan-json_string c rest h =
    ap (scan_strings in_string []) (append_assoc (json_bytes c) (b'"' ∷ []) rest)
    ∙ scan-json_bytes [] c rest (safe_plain c (h.safe))
    ∙ push-posted c (scan_strings between_strings [] rest) h

scan-printed :
    (cs : List Bytes) → All IsPosted cs → scan_strings between_strings [] (commas (printed cs)) ≡ cs
unfolding commas scan_strings
scan-printed [] h = refl
scan-printed (c ∷ []) h =
    ap (scan_strings between_strings []) (sym (append-nil (json_string c)))
    ∙ scan-json_string c [] (h.0)
scan-printed (c ∷ d ∷ cs) h =
    scan-json_string c (b',' ∷ commas (printed (d ∷ cs))) (h.0)
    ∙ ap (λ (t : List Bytes). c ∷ t) (scan-printed (d ∷ cs) (h.1))

pub commas-All : (P : ℕ → Type 0) (ts : List Bytes) → P b',' → All (All P) ts → All P (commas ts)
unfolding commas
commas-All P [] comma h = tt
commas-All P (t ∷ []) comma h = h.0
commas-All P (t ∷ u ∷ ts) comma h =
    All-append P t (b',' ∷ commas (u ∷ ts)) (h.0) (comma, commas-All P (u ∷ ts) comma (h.1))

pub printed-All :
    (P : ℕ → Type 0) (cs : List Bytes)
    → P b'\\'
    → P b'"'
    → All (All P) cs
    → All IsPosted cs
    → All (All P) (printed cs)
printed-All P [] slash quote own h = tt
printed-All P (c ∷ cs) slash quote own h = (
  json_string-All P c slash quote (own.0) (safe_plain c (h.0.safe)),
  printed-All P cs slash quote (own.1) (h.1),
)

-- The entries that a client posts as an array of strings are read as they are, if they are printable,
-- have no white space around them and hold no `]`, and the body is UTF-8 of at most a megabyte.
pub posted_channels-body :
    (cs : List Bytes)
    → All IsPosted cs
    → All (Lacks b']') cs
    → is_utf8 (channels_body cs) ≡ true
    → length (channels_body cs) ≤ max_body
    → posted_channels (read_body (channels_body cs)) ≡ cs
unfolding read_body posted_channels extract_string_array after_bracket
posted_channels-body cs posted no_bracket valid short =
    let inner = commas (printed cs) in
    let lacks =
      commas-All (λ b. b ≢ b']') (printed cs) (omega arith)
        (printed-All (λ b. b ≢ b']') cs (omega arith) (omega arith) no_bracket posted) in
    ap (λ (t : Bytes). posted_channels (from_utf8_lossy t))
      (take_all max_body (channels_body cs) short)
    ∙ ap posted_channels (from_utf8_lossy-valid (channels_body cs) valid)
    ∙ ap (λ (t : Bytes). keep is_safe_channel_entry (scan_strings between_strings [] t))
        (before_bracket-append inner (b'}' ∷ []) lacks)
    ∙ ap (keep is_safe_channel_entry) (scan-printed cs posted)
    ∙ keep-All is_safe_channel_entry cs
        (All-map IsPosted (λ c. is_safe_channel_entry c ≡ true) (λ c h. h.safe) cs posted)
