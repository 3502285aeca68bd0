-- ===== src/Hub.antt =====
-- What `send` of src/hub.rs posts; what comes back is `Sent` of Renew.
use yt_websub.Prelude.{List, [], ◌∷◌, ◌++◌, Bytes, codes}
use yt_websub.Text.Number.{to_string}
use yt_websub.Config.{Config}
use yt_websub.Subs.{Sub}

-- The path that the hub calls for a token.
abbrev pub callback_path : Bytes → Bytes
callback_path token = codes "/yt/cb/" ++ token

-- The fields of the form, in their order.
unfoldable pub send_form : Config → Sub → Bytes → List (Bytes × Bytes)
unfolding to_string
send_form cfg s mode =
    (codes "hub.callback", cfg.callback_base ++ callback_path s.token)
    ∷ (codes "hub.topic", s.topic)
    ∷ (codes "hub.verify", codes "async")
    ∷ (codes "hub.mode", mode)
    ∷ (codes "hub.secret", s.secret)
    ∷ (codes "hub.lease_seconds", to_string cfg.lease_seconds)
    ∷ (codes "hub.verify_token", s.token)
    ∷ []
