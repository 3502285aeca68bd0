-- ===== src/Renew/Desired.antt =====
-- The channels that channels.txt asks for: `desired_set` of src/renew.rs.
use yt_websub.Prelude.{
  ℕ, suc, Bool, true, false, ◌||◌, not, Option, none, some, List, [], ◌∷◌, ◌++◌, Bytes, ◌=b◌, any,
  if◌then◌else◌,
}
use yt_websub.Prelude.Maps.{Table, get, put}
use yt_websub.Text.Pieces.{begins_by, lines}
use yt_websub.Text.Space.{trim}
use yt_websub.Text.Utf8.{is_utf8}
use yt_websub.Resolve.{Fetch, resolve}

-- `list.contains(c)`
unfoldable pub contains : Bytes → List Bytes → Bool
unfolding any
contains c = any (λ d. d =b c)

-- A line of the file that is not blank and no comment.
unfoldable pub is_entry : Bytes → Bool
unfolding trim
is_entry line = not (trim line =b [] || begins_by b'#' (trim line))

-- The entries of the file, trimmed.
unfoldable pub entry_lines : List Bytes → List Bytes
unfolding is_entry trim
entry_lines [] = []
entry_lines (line ∷ more) =
    let rest = entry_lines more in if is_entry line then trim line ∷ rest else rest

-- The ids so far, whether every entry was resolved, and the cache.
pub record Desired : Type 0 where
  pub channels : List Bytes
  pub complete : Bool
  pub cache : Table Bytes

abbrev pub push_new : Bytes → List Bytes → List Bytes
push_new uc out = if contains uc out then out else out ++ uc ∷ []

-- What an entry adds.
unfoldable pub add_found : Option Bytes → Table Bytes → Desired → Desired
unfolding contains
add_found none cache d = record { channels = d.channels; complete = false; cache = cache }
add_found (some uc) cache d = record {
  channels = push_new uc (d.channels);
  complete = d.complete;
  cache = cache;
}

-- The loop over the entries; `fetch i` is what the i-th of them finds on the net.
unfoldable pub resolve_all : (ℕ → Fetch) → ℕ → List Bytes → Desired → Desired
unfolding resolve add_found
resolve_all fetch i [] d = d
resolve_all fetch i (line ∷ more) d =
    let o = resolve (fetch i) line (d.cache) in
    resolve_all fetch (suc i) more (add_found (o.found) (o.cache) d)

-- `live.entry(k).or_insert(v)` for the entries of the snapshot.
unfoldable pub or_insert_all : Table Bytes → Table Bytes → Table Bytes
unfolding get put
or_insert_all [] live = live
or_insert_all ((k, v) ∷ m) live =
    or_insert_all m (elim (get k live) [ none ↦ put k v live | some w ↦ live ])

-- `desired_set`, of the content of channels.txt and the cache when it was copied.
unfoldable pub desired_set : (ℕ → Fetch) → Option Bytes → Table Bytes → Desired
unfolding lines is_utf8 entry_lines resolve_all
desired_set fetch none cache = record { channels = []; complete = false; cache = cache }
desired_set fetch (some content) cache =
    if is_utf8 content
    then resolve_all fetch 0 (entry_lines (lines content))
        (record { channels = []; complete = true; cache = cache })
    else record { channels = []; complete = false; cache = cache }
