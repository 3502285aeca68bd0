-- ===== src/Resolve/Safe.antt =====
-- `resolve` of src/resolve.rs: what it fetches, what it gives and what it caches.
use mathlib.Core.Option.{some-injective, none-ne-some}
use yt_websub.Prelude.{
  ◌+◌, ◌-◌, drop, ◌≤◌, Bool, true, false, Option, none, some, List, [], ◌∷◌, ◌≡◌, ◌⊎◌, inl, inr,
  refl, subst, arith, Bytes, ◌=b◌, if◌then◌else◌, Bool-cases, Option-cases, All, length,
  >>=-eq-some, take,
}
use yt_websub.Prelude.Maps.{Table, get, put}
use yt_websub.Subs.Rows.{take_chars}
use yt_websub.Text.Find.{find}
use yt_websub.Text.Space.{trim}
use yt_websub.Text.Utf8.{from_utf8_lossy}
use yt_websub.Resolve.{
  is_channel_id, id_after, first_id, extract_uc, markers, Outcome, Fetch, cached, read_page,
  fetch_page, look_up, resolve_trimmed, resolve, is_allowed_url, normalize_url, max_response_bytes,
}
use yt_websub.Resolve.Url.{IsYoutube, is_allowed_url-IsYoutube}

-- What an option has is a channel id.
abbrev pub GivesChannel : Option Bytes → Type 0
GivesChannel o = (c : Bytes) → o ≡ some c → is_channel_id c ≡ true

none-GivesChannel : GivesChannel none
none-GivesChannel c h = absurd (none-ne-some c h)

some-GivesChannel : (c : Bytes) → is_channel_id c ≡ true → GivesChannel (some c)
some-GivesChannel c good d h =
    subst (λ (t : Bytes). is_channel_id t ≡ true) (some-injective _ _ h) good

-- An option that is tested before it is given.
tested-GivesChannel :
    (b : Bool) (c : Bytes)
    → (b ≡ true → is_channel_id c ≡ true)
    → GivesChannel (if b then some c else none)
tested-GivesChannel true c h = some-GivesChannel c (h refl)
tested-GivesChannel false c h = none-GivesChannel

id_after-GivesChannel : (text marker : Bytes) → GivesChannel (id_after text marker)
unfolding id_after
id_after-GivesChannel text marker c h =
    let (pos, e, k) = >>=-eq-some (find marker text) _ h in
    let cand = take_chars 24 (drop (pos + length marker - 2) text) in
    tested-GivesChannel (is_channel_id cand) cand (λ good. good) c k

first_id-GivesChannel : (text : Bytes) (ms : List Bytes) → GivesChannel (first_id text ms)
unfolding first_id
first_id-GivesChannel text [] = none-GivesChannel
first_id-GivesChannel text (m ∷ ms) = elim (Option-cases (id_after text m)) [
  | inl n ↦ rw (first_id, n) (first_id-GivesChannel text ms)
  | inr (c, e) ↦ rw (first_id, e) (some-GivesChannel c (id_after-GivesChannel text m c e))
]

pub extract_uc-GivesChannel : (text : Bytes) → GivesChannel (extract_uc text)
unfolding extract_uc
extract_uc-GivesChannel text = first_id-GivesChannel text markers

cached-GivesChannel : (s : Bytes) (cache : Table Bytes) → GivesChannel (cached s cache)
unfolding cached
cached-GivesChannel s cache = elim (Option-cases (get s cache)) [
  | inl n ↦ rw (cached, n) none-GivesChannel
  | inr (uc, e) ↦ rw (cached, e) (tested-GivesChannel (is_channel_id uc) uc (λ good. good))
]

-- The cache as it was, or with one more channel id.
abbrev pub CachesOne : Bytes → Table Bytes → Table Bytes → Type 0
CachesOne s before after =
    (after ≡ before) ⊎ ((uc : Bytes) × (is_channel_id uc ≡ true) × (after ≡ put s uc before))

pub record IsSafe (s : Bytes) (before : Table Bytes) (o : Outcome) : Type 0 where
  pub gives_channel : GivesChannel o.found
  pub caches : CachesOne s before o.cache
  pub fetches_once : length o.fetched ≤ 1
  pub fetches_youtube : All IsYoutube o.fetched

module _ (fetch : Fetch) (s : Bytes) (cache : Table Bytes) where
  quiet :
      (o : Option Bytes)
      → GivesChannel o
      → IsSafe s cache (record { found = o; cache = cache; fetched = [] })
  quiet o h = record {
    gives_channel = h;
    caches = inl refl;
    fetches_once = omega arith;
    fetches_youtube = tt;
  }

  read_page-IsSafe :
      (url page : Bytes) → IsYoutube url → IsSafe s cache (read_page s cache url page)
  unfolding read_page
  read_page-IsSafe url page ok =
      let text = from_utf8_lossy (take max_response_bytes page) in
      elim (Option-cases (extract_uc text)) [
        | inl n ↦
            rw (read_page, n)
              (record {
                gives_channel = none-GivesChannel;
                caches = inl refl;
                fetches_once = omega arith;
                fetches_youtube = (ok, tt);
              })
        | inr (uc, e) ↦
            (let good = extract_uc-GivesChannel text uc e in
              rw (read_page, e)
                (record {
                  gives_channel = some-GivesChannel uc good;
                  caches = inr (uc, good, refl);
                  fetches_once = omega arith;
                  fetches_youtube = (ok, tt);
                }))
      ]

  fetch_page-IsSafe : (url : Bytes) → IsSafe s cache (fetch_page fetch s cache url)
  unfolding fetch_page
  fetch_page-IsSafe url = elim (Bool-cases (is_allowed_url url)) [
    | inr e ↦ rw (fetch_page, e) (quiet none none-GivesChannel)
    | inl e ↦
        (let ok = is_allowed_url-IsYoutube url e in
          elim (Option-cases (fetch url)) [
            | inl n ↦
                rw (fetch_page, e, n)
                  (record {
                    gives_channel = none-GivesChannel;
                    caches = inl refl;
                    fetches_once = omega arith;
                    fetches_youtube = (ok, tt);
                  })
            | inr (page, k) ↦ rw (fetch_page, e, k) (read_page-IsSafe url page ok)
          ])
  ]

  look_up-IsSafe : IsSafe s cache (look_up fetch s cache)
  unfolding look_up
  look_up-IsSafe = elim (Option-cases (cached s cache)) [
    | inl n ↦ rw (look_up, n) (fetch_page-IsSafe (normalize_url s))
    | inr (uc, e) ↦
        rw (look_up, e) (quiet (some uc) (some-GivesChannel uc (cached-GivesChannel s cache uc e)))
  ]

  resolve_trimmed-IsSafe : IsSafe s cache (resolve_trimmed fetch s cache)
  unfolding resolve_trimmed
  resolve_trimmed-IsSafe = elim (Bool-cases (s =b [])) [
    | inl e ↦ rw (resolve_trimmed, e) (quiet none none-GivesChannel)
    | inr e ↦ elim (Bool-cases (is_channel_id s)) [
      | inl k ↦ rw (resolve_trimmed, e, k) (quiet (some s) (some-GivesChannel s k))
      | inr k ↦ elim (Option-cases (extract_uc s)) [
        | inl n ↦ rw (resolve_trimmed, e, k, n) look_up-IsSafe
        | inr (uc, f) ↦
            rw (resolve_trimmed, e, k, f)
              (quiet (some uc) (some-GivesChannel uc (extract_uc-GivesChannel s uc f)))
      ]
    ]
  ]

-- Whatever the entry, the cache and the pages: an id that is found is a channel id; nothing is
-- fetched but at most one URL, of a host of YouTube over https; and the cache gains at most the
-- entry, with a channel id.
pub resolve-IsSafe :
    (fetch : Fetch) (input : Bytes) (cache : Table Bytes)
    → IsSafe (trim input) cache (resolve fetch input cache)
unfolding resolve
resolve-IsSafe fetch input cache = resolve_trimmed-IsSafe fetch (trim input) cache
