-- ===== src/Config.antt =====
-- The configuration, src/config.rs.
pub mod Checked
pub mod EnvFile
mod Tests
use yt_websub.Prelude.{
  ℕ, ◌-◌, Bool, true, false, ◌&&◌, ◌||◌, not, Option, none, some, List, [], ◌∷◌, ◌++◌, foldl, Bytes,
  codes, ltb, leb, ◌==◌, ◌=b◌, if◌then◌else◌, length, take, drop, get_or,
}
use yt_websub.Prelude.Maps.{Table, get, put}
use yt_websub.Text.Number.{max_u64, parse}
use yt_websub.Text.Pieces.{begins_by, lines, split_once, starts_with, trim_end_matches}
use yt_websub.Text.Space.{trim}
use yt_websub.Text.Utf8.{is_utf8}

pub record Config : Type 0 where
  pub callback_base : Bytes
  pub listen : Bytes
  pub tls_cert : Bytes
  pub tls_key : Bytes
  pub bearer_token : Bytes
  pub channels_file : Bytes
  pub storage_dir : Bytes
  pub lease_seconds : ℕ
  pub hub_url : Bytes
  pub accept_threads : ℕ

-- The last byte of a text.
abbrev pub last_byte : Bytes → Option ℕ
last_byte [] = none
last_byte (c ∷ []) = some c
last_byte (c ∷ d ∷ s) = last_byte (d ∷ s)

-- `s.ends_with(c)` of one byte.
abbrev pub ends_by : ℕ → Bytes → Bool
ends_by c s = elim (last_byte s) [ none ↦ false | some d ↦ c == d ]

abbrev pub quoted_by : ℕ → Bytes → Bool
quoted_by q v = begins_by q v && ends_by q v

-- One layer of matching quotes is taken away.
unfoldable pub unquote : Bytes → Bytes
unquote v =
    if leb 2 (length v) && (quoted_by b'"' v || quoted_by b'\'' v)
    then take (length v - 2) (drop 1 v)
    else v

-- One line of the file.
unfoldable pub env_line : Bytes → List (Bytes × Bytes)
unfolding trim split_once unquote
env_line line =
    let t = trim line in
    if t =b [] || begins_by b'#' t
    then []
    else elim (split_once b'=' t) [ none ↦ [] | some (k, v) ↦ (trim k, unquote (trim v)) ∷ [] ]

unfoldable pub env_lines : List Bytes → List (Bytes × Bytes)
unfolding env_line
env_lines [] = []
env_lines (line ∷ more) = env_line line ++ env_lines more

unfoldable pub parse_env_file : Bytes → List (Bytes × Bytes)
unfolding lines env_lines
parse_env_file content = env_lines (lines content)

-- Pairs entered one after the other.
unfoldable pub overlay : Table Bytes → List (Bytes × Bytes) → Table Bytes
unfolding put
overlay m [] = m
overlay m ((k, v) ∷ more) = overlay (put k v m) more

-- The pairs of the process environment that are the program's.
unfoldable pub own_vars : List (Bytes × Bytes) → List (Bytes × Bytes)
unfolding starts_with
own_vars [] = []
own_vars ((k, v) ∷ more) =
    let rest = own_vars more in if starts_with (codes "YTWEBSUB_") k then (k, v) ∷ rest else rest

-- The map that `load` hands to `from_map`, of the text of the file (`none` if it cannot be read) and
-- the process environment.
unfoldable pub config_map : Option Bytes → List (Bytes × Bytes) → Table Bytes
unfolding overlay parse_env_file own_vars is_utf8
config_map none env = overlay [] (own_vars env)
config_map (some content) env =
    overlay (if is_utf8 content then overlay [] (parse_env_file content) else []) (own_vars env)

-- Why a configuration is refused.
pub data ConfigError : Type 0 where
  missing : Bytes → ConfigError
  weak_token : ConfigError

pub data Result {ℓ} (A : Type ℓ) : Type ℓ where
  accepted : A → Result A
  refused : ConfigError → Result A

infixl 5 ◌>>=◌
abbrev pub ◌>>=◌ {ℓ κ} : {A : Type ℓ} {B : Type κ} → Result A → (A → Result B) → Result B
accepted a >>= f = f a
refused e >>= f = refused e

-- `req`: the value of a key, which is not empty.
unfoldable pub required : Table Bytes → Bytes → Result Bytes
unfolding get
required m key = elim (get key m) [
  | none ↦ refused (missing key)
  | some v ↦ if v =b [] then refused (missing key) else accepted v
]

unfoldable pub is_weak : Bytes → Bool
unfolding starts_with
is_weak token = starts_with (codes "CHANGE_ME") token || ltb (length token) 32

abbrev pub check_token : Bytes → Result (Unit {0})
check_token token = if is_weak token then refused weak_token else accepted tt

-- A key with a default.
unfoldable pub optional : Table Bytes → Bytes → Bytes → Bytes
unfolding get
optional m key default = get_or (get key m) default

-- A key that holds a number, with a default.
unfoldable pub number_or : Table Bytes → Bytes → ℕ → ℕ
unfolding get parse
number_or m key default = elim (get key m) [
  | none ↦ default
  | some v ↦ get_or (parse max_u64 v) default
]

abbrev pub at_least_one : ℕ → ℕ → ℕ
at_least_one default n = if leb 1 n then n else default

unfoldable pub from_map : Table Bytes → Result Config
unfolding required is_weak optional number_or trim_end_matches
from_map m = do
  base ← required m (codes "YTWEBSUB_CALLBACK_BASE")
  token ← required m (codes "YTWEBSUB_BEARER_TOKEN")
  check_token token >>= λ _. do
    cert ← required m (codes "YTWEBSUB_TLS_CERT")
    key ← required m (codes "YTWEBSUB_TLS_KEY")
    let dir = optional m (codes "YTWEBSUB_STORAGE_DIR") (codes "/var/lib/yt-websub")
    accepted (record {
      callback_base = trim_end_matches b'/' base;
      listen = optional m (codes "YTWEBSUB_LISTEN") (codes "0.0.0.0:443");
      tls_cert = cert;
      tls_key = key;
      bearer_token = token;
      channels_file = optional m (codes "YTWEBSUB_CHANNELS_FILE") (dir ++ codes "/channels.txt");
      storage_dir = dir;
      lease_seconds = number_or m (codes "YTWEBSUB_LEASE_SECONDS") 432000;
      hub_url =
          optional m (codes "YTWEBSUB_HUB_URL")
            (codes "https://pubsubhubbub.appspot.com/subscribe");
      accept_threads = at_least_one 4 (number_or m (codes "YTWEBSUB_ACCEPT_THREADS") 4);
    })

unfoldable pub load_config : Option Bytes → List (Bytes × Bytes) → Result Config
unfolding config_map from_map
load_config file env = from_map (config_map file env)
