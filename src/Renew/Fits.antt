-- ===== src/Renew/Fits.antt =====
-- What src/renew.rs and src/callback.rs write of a subscription can be stored in subs.tsv and read back.
use mathlib.Core.Option.{some-injective, none-ne-some}
use yt_websub.Prelude.{
  ℕ, ◌<◌, ◌≤◌, true, Option, none, some, [], ◌++◌, ◌≡◌, inl, inr, refl, subst, arith, Bytes, codes,
  ◌=b◌, Bool-cases, All, All-append, All-map,
}
use yt_websub.Text.Number.{max_u64, to_string, IsDigit, to_string-All}
use yt_websub.Text.Space.{IsGraphic}
use yt_websub.Text.Utf8.{is_utf8, is_utf8-ascii}
use yt_websub.Util.Hex.{IsByte, hex_encode-IsGraphic}
use yt_websub.Util.Random.{rand_hex}
use yt_websub.Subs.{Sub, new_sub, topic_for}
use yt_websub.Subs.Row.{IsSub}
use yt_websub.Subs.Clamp.{clamp_error-utf8}
use yt_websub.Resolve.{is_channel_id}
use yt_websub.Renew.{Sent, status, transport_error, verdict, is_ok, merged, expired}
use yt_websub.Renew.Due.{Attempt, renewed, renewed_by, unless_active}
use yt_websub.Renew.Reconcile.{Random, fresh_sub, failed_sub}
use yt_websub.Renew.Listed.{channel_id-IsGraphic}

-- The text of a transport error is UTF-8, as each `String` is.
abbrev pub IsText : Sent → Type 0
IsText (status code) = Unit
IsText (transport_error e) = is_utf8 e ≡ true

-- The clock of a request has 64 bits.
pub record IsReal (a : Attempt) : Type 0 where
  pub begun_fits : a.begun ≤ max_u64
  pub sent_text : IsText a.sent

status_ascii : (code : ℕ) → is_utf8 (codes "HTTP " ++ to_string code) ≡ true
status_ascii code = is_utf8-ascii (codes "HTTP " ++ to_string code) (
    All-append (λ b. b < 128) (codes "HTTP ") (to_string code) (omega arith)
      (All-map IsDigit (λ b. b < 128) (λ b h. omega arith) (to_string code) (to_string-All code)))

pub verdict-utf8 : (x : Sent) (why : Bytes) → IsText x → verdict x ≡ some why → is_utf8 why ≡ true
unfolding verdict
verdict-utf8 (status code) why h e = elim (Bool-cases (is_ok code)) [
  | inl k ↦ absurd (none-ne-some why (rw k at e))
  | inr k ↦
      subst (λ (t : Bytes). is_utf8 t ≡ true) (some-injective _ _ (rw k at e)) (status_ascii code)
]
verdict-utf8 (transport_error t) why h e =
    subst (λ (t : Bytes). is_utf8 t ≡ true) (some-injective _ _ e) (clamp_error-utf8 t h)

-- A subscription with another state, other times and another verdict.
module _ (s : Sub) (good : IsSub s) where
  state_of : (state : Bytes) → All IsGraphic state → All IsGraphic (unless_active s state)
  state_of state h = elim (Bool-cases (s.state =b codes "active")) [
    | inl e ↦ rw e good.state_graphic
    | inr e ↦ rw e h
  ]

  renewed_by-IsSub :
      (a : Attempt) (o : Option Bytes)
      → a.begun ≤ max_u64
      → ((why : Bytes) → o ≡ some why → is_utf8 why ≡ true)
      → IsSub (renewed_by a s o)
  unfolding renewed_by
  renewed_by-IsSub a none fits text = record {
    channel_graphic = good.channel_graphic;
    token_graphic = good.token_graphic;
    topic_graphic = good.topic_graphic;
    secret_graphic = good.secret_graphic;
    state_graphic = state_of (codes "pending") (omega arith);
    lease_fits = good.lease_fits;
    expires_fits = good.expires_fits;
    last_fits = fits;
    fails_fit = omega arith;
    next_fits = omega arith;
    error_utf8 = is_utf8-ascii [] tt;
  }
  renewed_by-IsSub a (some why) fits text = record {
    channel_graphic = good.channel_graphic;
    token_graphic = good.token_graphic;
    topic_graphic = good.topic_graphic;
    secret_graphic = good.secret_graphic;
    state_graphic = state_of (codes "failed") (omega arith);
    lease_fits = good.lease_fits;
    expires_fits = good.expires_fits;
    last_fits = fits;
    fails_fit = omega arith;
    next_fits = omega arith;
    error_utf8 = text why refl;
  }

  pub renewed-IsSub : (a : Attempt) → IsReal a → IsSub (renewed a s)
  unfolding renewed
  renewed-IsSub a real =
      renewed_by-IsSub a (verdict (a.sent)) real.begun_fits
        (λ why e. verdict-utf8 (a.sent) why real.sent_text e)

  pub expired-IsSub : IsSub (expired s)
  expired-IsSub = record {
    channel_graphic = good.channel_graphic;
    token_graphic = good.token_graphic;
    topic_graphic = good.topic_graphic;
    secret_graphic = good.secret_graphic;
    state_graphic = omega arith;
    lease_fits = good.lease_fits;
    expires_fits = good.expires_fits;
    last_fits = good.last_fits;
    fails_fit = good.fails_fit;
    next_fits = good.next_fits;
    error_utf8 = good.error_utf8;
  }

  pub failed-IsSub : (a : Attempt) (why : Bytes) → is_utf8 why ≡ true → IsSub (failed_sub a s why)
  failed-IsSub a why text = record {
    channel_graphic = good.channel_graphic;
    token_graphic = good.token_graphic;
    topic_graphic = good.topic_graphic;
    secret_graphic = good.secret_graphic;
    state_graphic = omega arith;
    lease_fits = good.lease_fits;
    expires_fits = good.expires_fits;
    last_fits = good.last_fits;
    fails_fit = omega arith;
    next_fits = omega arith;
    error_utf8 = text;
  }

  pub merged-IsSub : (cur : Sub) → IsSub cur → IsSub (merged cur s)
  unfolding merged
  merged-IsSub cur h = elim (Bool-cases (cur.state =b codes "active")) [
    | inr e ↦ rw (merged, e) good
    | inl e ↦
        rw (merged, e)
          (record {
            channel_graphic = good.channel_graphic;
            token_graphic = good.token_graphic;
            topic_graphic = good.topic_graphic;
            secret_graphic = good.secret_graphic;
            state_graphic = omega arith;
            lease_fits = h.lease_fits;
            expires_fits = h.expires_fits;
            last_fits = good.last_fits;
            fails_fit = good.fails_fit;
            next_fits = good.next_fits;
            error_utf8 = good.error_utf8;
          })
  ]

-- The random bytes are bytes.
pub record IsRandom (random : Random) : Type 0 where
  pub tokens : (i : ℕ) → All IsByte (random.token_bytes i)
  pub secrets : (i : ℕ) → All IsByte (random.secret_bytes i)

topic_for-IsGraphic : (c : Bytes) → All IsGraphic c → All IsGraphic (topic_for c)
unfolding topic_for
topic_for-IsGraphic c h =
    All-append IsGraphic (codes "https://www.youtube.com/feeds/videos.xml?channel_id=") c
      (omega arith) h

pub fresh-IsSub :
    (random : Random) (i : ℕ) (a : Attempt) (c : Bytes)
    → IsRandom random
    → a.begun ≤ max_u64
    → is_channel_id c ≡ true
    → IsSub (fresh_sub random i a c)
unfolding fresh_sub new_sub rand_hex
fresh-IsSub random i a c bytes fits id = record {
  channel_graphic = channel_id-IsGraphic c id;
  token_graphic = hex_encode-IsGraphic (random.token_bytes i) (bytes.tokens i);
  topic_graphic = topic_for-IsGraphic c (channel_id-IsGraphic c id);
  secret_graphic = hex_encode-IsGraphic (random.secret_bytes i) (bytes.secrets i);
  state_graphic = omega arith;
  lease_fits = omega arith;
  expires_fits = omega arith;
  last_fits = fits;
  fails_fit = omega arith;
  next_fits = omega arith;
  error_utf8 = is_utf8-ascii [] tt;
}
