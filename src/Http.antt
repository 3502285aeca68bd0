-- ===== src/Http.antt =====
-- The dispatch of a request by its path, src/http.rs.
pub mod Entitled
pub mod Called
mod Tests
use yt_websub.Prelude.{Bool, Option, none, some, [], Bytes, codes, if◌then◌else◌}
use yt_websub.Text.Pieces.{split_once, strip_prefix, starts_with, trim_end_matches}
use yt_websub.Subs.{Registry}
use yt_websub.App.{App, Request, Response, empty}
use yt_websub.Callback
use yt_websub.Api

-- The path and the query of a URL.
unfoldable pub split_url : Bytes → Bytes × Bytes
unfolding split_once
split_url url = elim (split_once b'?' url) [ none ↦ (url, []) | some (path, query) ↦ (path, query) ]

-- A request by its path: `seen` is the registry in which a callback's token is looked up.
unfoldable pub dispatch :
    Callback.World → Registry → Api.World → Request → Bytes → Bytes → App → App × Response
unfolding strip_prefix trim_end_matches starts_with Callback.handle Api.handle
dispatch w seen v r path query app = elim (strip_prefix (codes "/yt/cb/") path) [
  | some token ↦ Callback.handle w seen r (trim_end_matches b'/' token) query app
  | none ↦
      if starts_with (codes "/api/") path then Api.handle v r path query app else (app, empty 404)
]

unfoldable pub handle :
    Callback.World → Registry → Api.World → Request → Bytes → App → App × Response
unfolding split_url dispatch
handle w seen v r url app = dispatch w seen v r (split_url url).0 (split_url url).1 app
