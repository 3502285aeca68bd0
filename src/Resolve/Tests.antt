-- ===== src/Resolve/Tests.antt =====
-- URLs and entries of channels.txt at concrete texts.
use yt_websub.Prelude.{
  true, false, Option, some, none, [], ◌∷◌, ◌≡◌, refl, All, arith, Bytes, codes,
}
use yt_websub.Prelude.Maps.{Table, IsMap, get}
use yt_websub.Text.Space.{trim}
use yt_websub.Resolve.{is_allowed_url, resolve, Fetch}
use yt_websub.Text.Utf8.{is_utf8, next}
use yt_websub.Resolve.Cache.{IsRow, save_cache, load_cache, load_cache-save_cache}
use yt_websub.Resolve.Safe.{IsSafe, resolve-IsSafe}

allowed_test :
    (is_allowed_url (codes "https://www.youtube.com/@handle") ≡ true)
    × (is_allowed_url (codes "https://WWW.youtube.com.:443/@x") ≡ true)
    × (is_allowed_url (codes "https://m.youtube.com") ≡ true)
unfolding is_allowed_url yt_websub.Prelude.◌=b◌
allowed_test = (refl, refl, refl)

refused_test :
    (is_allowed_url (codes "http://www.youtube.com/@x") ≡ false)
    × (is_allowed_url (codes "https://169.254.169.254/latest/meta-data/") ≡ false)
    × (is_allowed_url (codes "https://www.youtube.com.evil.com/") ≡ false)
    × (is_allowed_url (codes "https://www.youtube.com@evil.com/") ≡ false)
    × (is_allowed_url (codes "https://evil.com/?www.youtube.com") ≡ false)
unfolding is_allowed_url yt_websub.Prelude.◌=b◌
refused_test = (refl, refl, refl, refl, refl)

-- Every page names the same channel.
abbrev one_page : Fetch
one_page url = some (codes "x \"channelId\":\"UCabcdefghijklmnopqrstuv\" y")

resolved_test :
    ((resolve one_page (codes " @handle ") []).found ≡ some (codes "UCabcdefghijklmnopqrstuv"))
    × ((resolve one_page (codes " @handle ") []).fetched
        ≡ codes "https://www.youtube.com/@handle" ∷ [])
    × ((resolve one_page (codes "https://10.0.0.1/") []).fetched ≡ [])
unfolding resolve yt_websub.Prelude.◌=b◌ yt_websub.Text.Utf8.next
resolved_test = (refl, refl, refl)

resolve-IsSafe_example :
    IsSafe (trim (codes " @handle ")) [] (resolve one_page (codes " @handle ") [])
resolve-IsSafe_example = resolve-IsSafe one_page (codes " @handle ") []

abbrev pub id_cache : Table Bytes
id_cache =
    (codes "@handle", codes "UCabcdefghijklmnopqrstuv")
    ∷ (codes "https://www.youtube.com/@x", codes "UCvutsrqponmlkjihgfedcba")
    ∷ []

pub id_cache-IsMap : IsMap id_cache
unfolding IsMap get yt_websub.Prelude.◌=b◌
id_cache-IsMap = (refl, (refl, tt))

pub id_cache-All : All IsRow id_cache
unfolding is_utf8 next
id_cache-All = (
  record {
    key_utf8 = refl;
    value_utf8 = refl;
    no_tab = omega arith;
    key_line = omega arith;
    value_line = omega arith;
  },
  (
    record {
      key_utf8 = refl;
      value_utf8 = refl;
      no_tab = omega arith;
      key_line = omega arith;
      value_line = omega arith;
    },
    tt,
  ),
)

load_cache-save_cache_test :
    get (codes "@handle") (load_cache (some (save_cache id_cache))) ≡ get (codes "@handle") id_cache
load_cache-save_cache_test =
    load_cache-save_cache id_cache id_cache-IsMap id_cache-All (codes "@handle")
