-- ===== src/Subs/Tests.antt =====
-- Runs of the registry of src/subs.rs on small inputs.
use mathlib.Core.Option.{none-ne-some}
use yt_websub.Prelude.{
  ◌+◌, ◌≤◌, Bool, true, false, ◌&&◌, none, some, [], ◌∷◌, ◌≡◌, ◌↔◌, inl, inr, refl, subst, arith,
  Bytes, codes, All, ltb, leb, if◌then◌else◌, ◌=b◌,
}
use yt_websub.Prelude.Maps.{get-put-inv, get}
use yt_websub.Text.Space.{IsGraphic}
use yt_websub.Text.Utf8.{next, is_utf8}
use yt_websub.Subs.{
  Sub, Registry, empty, insert, remove, by_token, unsub_topic, unsub_grace, lease_expired,
}
use yt_websub.Util.Atomic.{succeeds}
use yt_websub.Subs.Rows.{save, load, columns, parse_line, clamp_error, max_err}
use yt_websub.Subs.Clamp.{chars_count, clamp_error-bounds}
use yt_websub.Subs.Row.{IsSub, clamped, legacy_columns, parse_line-columns, parse_line-legacy}
use yt_websub.Subs.Life.{Reached, new, later, added, by_token_iff}
use yt_websub.Subs.Grace.{remove-grace}
use yt_websub.Subs.File.{over, load-saved}

all_graphic : Bytes → Bool
all_graphic [] = true
all_graphic (b ∷ s) = leb 33 b && leb b 126 && all_graphic s

all_graphic-All : (s : Bytes) → all_graphic s ≡ true → All IsGraphic s
unfolding all_graphic
all_graphic-All [] h = tt
all_graphic-All (b ∷ s) h = ((ground arith, ground arith), all_graphic-All s (ground arith))

abbrev channel : Bytes
channel = codes "UCabcdefghijklmnopqrstuv"

abbrev pub first : Sub
first = record {
  channel_id = channel;
  token = codes "0011";
  topic = codes "https://www.youtube.com/feeds/videos.xml?channel_id=UCabcdefghijklmnopqrstuv";
  secret = codes "aabb";
  state = codes "active";
  lease_seconds = 432000;
  expires_at = 1788800000;
  last_subscribe_at = 1788400000;
  fail_count = 3;
  next_attempt_at = 1788400300;
  last_error = codes "HTTP 503\tTransient error;\nlater";
}

abbrev renewed : Sub
renewed = record first { token = codes "2233" }

first-IsSub : IsSub first
unfolding all_graphic is_utf8 next
first-IsSub = record {
  channel_graphic = all_graphic-All (first.channel_id) refl;
  token_graphic = all_graphic-All (first.token) refl;
  topic_graphic = all_graphic-All (first.topic) refl;
  secret_graphic = all_graphic-All (first.secret) refl;
  state_graphic = all_graphic-All (first.state) refl;
  lease_fits = omega arith;
  expires_fits = omega arith;
  last_fits = omega arith;
  fails_fit = omega arith;
  next_fits = omega arith;
  error_utf8 = refl;
}

abbrev pub one : Registry
one = insert first empty

pub one-Reached : Reached one
unfolding get
one-Reached = later empty one new (added first refl (λ c h. absurd (none-ne-some c h)))

first-found : get channel (one.sub_map) ≡ some first
unfolding get insert ◌=b◌
first-found = refl

clamp_error-bounds_test :
    (is_utf8 (clamp_error (first.last_error)) ≡ true)
    × (chars_count (clamp_error (first.last_error)) ≤ max_err)
    × (chars_count (first.last_error) ≤ max_err → clamp_error (first.last_error) ≡ first.last_error)
clamp_error-bounds_test = clamp_error-bounds (first.last_error) (first-IsSub.error_utf8)

parse_line-columns_test : parse_line (columns first) ≡ some (clamped first)
parse_line-columns_test = parse_line-columns first first-IsSub

parse_line-legacy_test : parse_line (legacy_columns first) ≡ some (record first { last_error = [] })
parse_line-legacy_test = parse_line-legacy first first-IsSub

tokens_differ : renewed.token =b first.token ≡ false
unfolding ◌=b◌
tokens_differ = refl

by_token_iff_test :
    (by_token (first.token) one ≡ some first)
    ↔ ((get channel (one.sub_map) ≡ some first) × (first.token ≡ first.token))
by_token_iff_test = by_token_iff one one-Reached (first.token) first

remove-grace_example :
    let after = (remove channel 1000000 one).0 in
    (get channel (after.sub_map) ≡ none)
    × (by_token (first.token) after ≡ none)
    × (unsub_topic (first.token) 1000060 after
        ≡ (if ltb 1000060 (1000000 + unsub_grace) then some (first.topic) else none))
remove-grace_example =
    remove-grace one channel first 1000000 1000060 one-Reached first-found (omega arith)

pub one-fits : (c : Bytes) (s : Sub) → get c (one.sub_map) ≡ some s → IsSub s
unfolding get insert ◌=b◌
one-fits c s h = elim (get-put-inv c channel first s [] h) [
  | inl (_, e) ↦ subst IsSub e first-IsSub
  | inr (_, k) ↦ absurd (none-ne-some s k)
]

load-saved_example :
    ((c : Bytes)
      → get c ((load ((save succeeds one).file)).sub_map) ≡ over (get c (one.sub_map)) none)
    × ((t : Bytes) → by_token t (load ((save succeeds one).file)) ≡ over (by_token t one) none)
load-saved_example = load-saved one one-Reached one-fits

-- A row of two columns is no subscription.
short_row : parse_line (codes "UConly\ttwo") ≡ none
unfolding parse_line
short_row = refl

lease_at_end : (lease_expired first 1788799999 ≡ false) × (lease_expired first 1788800000 ≡ true)
unfolding lease_expired
lease_at_end = (refl, refl)
