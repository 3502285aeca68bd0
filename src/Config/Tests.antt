-- ===== src/Config/Tests.antt =====
-- A configuration of src/config.rs at concrete texts, from its tests.
use yt_websub.Prelude.{true, none, some, List, [], ◌∷◌, ◌++◌, ◌≡◌, refl, Bytes, codes}
use yt_websub.Prelude.Maps.{Table, get}
use yt_websub.Text.Pieces.{starts_with}
use yt_websub.Config.{parse_env_file, from_map, refused, missing, weak_token, config_map}
use yt_websub.Config.EnvFile.{or_else, last_of, in_file, config_map-get}

abbrev env_file : Bytes
env_file =
    codes "# a comment\nYTWEBSUB_CALLBACK_BASE = https://hooks.example.com/\n"
    ++ codes
        "YTWEBSUB_BEARER_TOKEN=\"secret token\"\n\nYTWEBSUB_LEASE_SECONDS = 600\nnot_a_kv_line\n"

parse_test :
    parse_env_file env_file
    ≡ (codes "YTWEBSUB_CALLBACK_BASE", codes "https://hooks.example.com/")
      ∷ (codes "YTWEBSUB_BEARER_TOKEN", codes "secret token")
      ∷ (codes "YTWEBSUB_LEASE_SECONDS", codes "600")
      ∷ []
unfolding parse_env_file yt_websub.Prelude.◌=b◌
parse_test = refl

abbrev full_map : Table Bytes
full_map =
    (codes "YTWEBSUB_CALLBACK_BASE", codes "https://h.example.com/")
    ∷ (codes "YTWEBSUB_BEARER_TOKEN", codes "0123456789abcdef0123456789abcdef")
    ∷ (codes "YTWEBSUB_TLS_CERT", codes "/c.pem")
    ∷ (codes "YTWEBSUB_TLS_KEY", codes "/k.pem")
    ∷ []

weak_test :
    (from_map ((codes "YTWEBSUB_BEARER_TOKEN", codes "deadbeef") ∷ full_map) ≡ refused weak_token)
    × (from_map [] ≡ refused (missing (codes "YTWEBSUB_CALLBACK_BASE")))
unfolding from_map yt_websub.Prelude.◌=b◌
weak_test = (refl, refl)

own_key : starts_with (codes "YTWEBSUB_") (codes "YTWEBSUB_LEASE_SECONDS") ≡ true
unfolding starts_with
own_key = refl

config_map-get_test :
    get
      (codes "YTWEBSUB_LEASE_SECONDS")
      (config_map (some env_file) ((codes "YTWEBSUB_LEASE_SECONDS", codes "900") ∷ []))
    ≡ or_else
        (last_of
          (codes "YTWEBSUB_LEASE_SECONDS")
          ((codes "YTWEBSUB_LEASE_SECONDS", codes "900") ∷ []))
        (in_file (codes "YTWEBSUB_LEASE_SECONDS") (some env_file))
config_map-get_test =
    config_map-get (codes "YTWEBSUB_LEASE_SECONDS") (some env_file)
      ((codes "YTWEBSUB_LEASE_SECONDS", codes "900") ∷ []) own_key
