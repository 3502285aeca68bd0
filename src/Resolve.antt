-- ===== src/Resolve.antt =====
-- From an entry of channels.txt to a channel id, src/resolve.rs. A fetch is a parameter: the body
-- that a URL gives, or `none` for an error; a redirect is not followed.
pub mod Url
pub mod Safe
pub mod Cache
pub mod Tests
use yt_websub.Prelude.{
  ℕ, ◌+◌, ◌-◌, ◌*◌, Bool, true, false, ◌&&◌, ◌||◌, not, Option, none, some, List, [], ◌∷◌, ◌++◌,
  map, Bytes, codes, leb, ◌==◌, ◌=b◌, if◌then◌else◌, ◌>>=◌, length, take, drop, all, any,
}
use yt_websub.Prelude.Maps.{Table, get, put}
use yt_websub.Text.Find.{find}
use yt_websub.Text.Pieces.{split, starts_with, strip_prefix, trim_end_matches}
use yt_websub.Text.Space.{trim}
use yt_websub.Text.Utf8.{from_utf8_lossy}
use yt_websub.Subs.Rows.{take_chars}

-- `b.is_ascii_alphanumeric() || b == b'_' || b == b'-'`
abbrev pub is_id_byte : ℕ → Bool
is_id_byte b =
    (leb b'a' b && leb b b'z')
    || (leb b'A' b && leb b b'Z')
    || (leb b'0' b && leb b b'9')
    || b == b'_'
    || b == b'-'

unfoldable pub is_channel_id : Bytes → Bool
unfolding all starts_with
is_channel_id s = length s == 24 && starts_with (codes "UC") s && all is_id_byte s

abbrev pub max_response_bytes : ℕ
max_response_bytes = 4 * 1024 * 1024

abbrev pub allowed_hosts : List Bytes
allowed_hosts = codes "www.youtube.com" ∷ codes "youtube.com" ∷ codes "m.youtube.com" ∷ []

abbrev pub ends_authority : ℕ → Bool
ends_authority b = b == b'/' || b == b'?' || b == b'#'

-- What stands before the first `/`, `?` or `#`.
unfoldable pub authority_of : Bytes → Bytes
authority_of [] = []
authority_of (b ∷ s) = let more = authority_of s in if ends_authority b then [] else b ∷ more

-- `to_ascii_lowercase` of one byte.
abbrev pub lower : ℕ → ℕ
lower b = if leb b'A' b && leb b b'Z' then b + 32 else b

-- `s.split(':').next()`, of which there is always one.
unfoldable pub before_colon : Bytes → Bytes
unfolding split
before_colon s = elim (split b':' s) [ [] ↦ s | first ∷ more ↦ first ]

unfoldable pub host_of : Bytes → Bytes
unfolding before_colon trim_end_matches
host_of authority = map lower (trim_end_matches b'.' (before_colon authority))

-- `authority.contains('@')`
abbrev pub has_userinfo : Bytes → Bool
has_userinfo = any (λ b. b == b'@')

unfoldable pub is_allowed_authority : Bytes → Bool
unfolding host_of any
is_allowed_authority authority =
    if has_userinfo authority then false else any (λ h. h =b host_of authority) allowed_hosts

unfoldable pub is_allowed_url : Bytes → Bool
unfolding strip_prefix is_allowed_authority authority_of
is_allowed_url url = elim (strip_prefix (codes "https://") url) [
  | none ↦ false
  | some rest ↦ is_allowed_authority (authority_of rest)
]

-- The candidate behind one marker.
unfoldable pub id_after : Bytes → Bytes → Option Bytes
unfolding find take_chars is_channel_id
id_after text marker = do
  pos ← find marker text
  let cand = take_chars 24 (drop (pos + length marker - 2) text) in
      if is_channel_id cand then some cand else none

-- The markers in the order in which they are tried.
abbrev pub markers : List Bytes
markers =
    codes "rel=\"canonical\" href=\"https://www.youtube.com/channel/UC"
    ∷ codes "property=\"og:url\" content=\"https://www.youtube.com/channel/UC"
    ∷ codes "\"externalId\":\"UC"
    ∷ codes "\"channelId\":\"UC"
    ∷ codes "/channel/UC"
    ∷ codes "channel_id=UC"
    ∷ []

unfoldable pub first_id : Bytes → List Bytes → Option Bytes
unfolding id_after
first_id text [] = none
first_id text (marker ∷ more) = elim (id_after text marker) [
  | none ↦ first_id text more
  | some cand ↦ some cand
]

unfoldable pub extract_uc : Bytes → Option Bytes
unfolding first_id
extract_uc text = first_id text markers

unfoldable pub handle_url : Bytes → Bytes
handle_url s = codes "https://www.youtube.com/@" ++ s

unfoldable pub normalize_trimmed : Bytes → Bytes
unfolding starts_with strip_prefix handle_url
normalize_trimmed s =
    if starts_with (codes "http://") s || starts_with (codes "https://") s
    then s
    else elim (strip_prefix (codes "@") s) [
      | some rest ↦ handle_url rest
      | none ↦
          if starts_with (codes "youtube.com") s || starts_with (codes "www.youtube.com") s
          then codes "https://" ++ s
          else handle_url s
    ]

unfoldable pub normalize_url : Bytes → Bytes
unfolding trim normalize_trimmed
normalize_url s = normalize_trimmed (trim s)

-- What `resolve` comes to: the id, the cache as it is then, and the URLs that were fetched.
pub record Outcome : Type 0 where
  pub found : Option Bytes
  pub cache : Table Bytes
  pub fetched : List Bytes

abbrev pub Fetch : Type 0
Fetch = Bytes → Option Bytes

-- The cached value, if it is a channel id.
unfoldable pub cached : Bytes → Table Bytes → Option Bytes
unfolding get is_channel_id
cached s cache = elim (get s cache) [
  | none ↦ none
  | some uc ↦ if is_channel_id uc then some uc else none
]

-- The page that was fetched.
unfoldable pub read_page : Bytes → Table Bytes → Bytes → Bytes → Outcome
unfolding extract_uc from_utf8_lossy put
read_page s cache url page = elim (extract_uc (from_utf8_lossy (take max_response_bytes page))) [
  | none ↦ record { found = none; cache = cache; fetched = url ∷ [] }
  | some uc ↦ record { found = some uc; cache = put s uc cache; fetched = url ∷ [] }
]

unfoldable pub fetch_page : Fetch → Bytes → Table Bytes → Bytes → Outcome
unfolding is_allowed_url read_page
fetch_page fetch s cache url =
    if is_allowed_url url
    then (elim (fetch url) [
      | none ↦ record { found = none; cache = cache; fetched = url ∷ [] }
      | some page ↦ read_page s cache url page
    ])
    else record { found = none; cache = cache; fetched = [] }

-- The last two ways of `resolve`: the cache, and the page.
unfoldable pub look_up : Fetch → Bytes → Table Bytes → Outcome
unfolding cached fetch_page normalize_url
look_up fetch s cache = elim (cached s cache) [
  | some uc ↦ record { found = some uc; cache = cache; fetched = [] }
  | none ↦ fetch_page fetch s cache (normalize_url s)
]

unfoldable pub resolve_trimmed : Fetch → Bytes → Table Bytes → Outcome
unfolding is_channel_id extract_uc look_up
resolve_trimmed fetch s cache =
    if s =b []
    then record { found = none; cache = cache; fetched = [] }
    else if is_channel_id s
    then record { found = some s; cache = cache; fetched = [] }
    else elim (extract_uc s) [
      | some uc ↦ record { found = some uc; cache = cache; fetched = [] }
      | none ↦ look_up fetch s cache
    ]

unfoldable pub resolve : Fetch → Bytes → Table Bytes → Outcome
unfolding trim resolve_trimmed
resolve fetch input cache = resolve_trimmed fetch (trim input) cache
