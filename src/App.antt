-- ===== src/App.antt =====
-- The shared state, src/app.rs, and what the handlers take of a request and give as a response.
use yt_websub.Prelude.{ℕ, Option, List, Bytes}
use yt_websub.Prelude.Maps.{Table}
use yt_websub.Util.Atomic.{Slot}
use yt_websub.Config.{Config}
use yt_websub.Store.{Store}
use yt_websub.Subs.{Registry}

-- `App`, with the files that its operations write: `cache_file` is what resolve.cache holds,
-- `channels` the file of channels and its temporary sibling. The start of the process and the lock of reconciles are
-- inputs of the requests that read them.
pub record App : Type 0 where
  pub cfg : Config
  pub store : Store
  pub subs : Registry
  pub resolve_cache : Table Bytes
  pub cache_file : Option Bytes
  pub channels : Slot

pub data Method : Type 0 where
  get_method post_method other_method : Method

-- What the handlers read of a request: its method, its first X-Hub-Signature header, the values of
-- its Authorization headers, its body.
pub record Request : Type 0 where
  pub method : Method
  pub signature : Option Bytes
  pub authorizations : List Bytes
  pub body : Bytes

-- `Response::empty`, `Response::from_string` and `json_response`.
pub data Response : Type 0 where
  empty : ℕ → Response
  text : Bytes → Response
  json : ℕ → Bytes → Response
