-- ===== src/Renew/HubTests.antt =====
-- Passes over the subscriptions of src/renew.rs at a concrete hub and file.
use yt_websub.Prelude.{
  ℕ, ◌+◌, ◌<◌, ◌≤◌, Bool, true, false, ◌||◌, ◌&&◌, not, none, some, List, [], ◌∷◌, ◌++◌, ◌≡◌, refl,
  arith, Bytes, codes,
}
use yt_websub.Text.Pieces.{lines}
use yt_websub.Text.Utf8.{is_utf8, next}
use yt_websub.Resolve.{Fetch, is_channel_id}
use yt_websub.Subs.{Registry}
use yt_websub.Renew.{status}
use yt_websub.Renew.Expire.{IsKeyed}
use yt_websub.Renew.Due.{is_due, Attempt, Hub, renewed, renewed-due_again, renew_due}
use yt_websub.Renew.Desired.{Desired, contains, entry_lines, desired_set}
use yt_websub.Renew.Reconcile.{Random, to_add, reconcile_locked}
use yt_websub.Renew.Has.{has}
use yt_websub.Renew.Channels.{KeepsChannels}
use yt_websub.Renew.Wanted.{reconcile_locked-wanted, renew_due-channels}
use yt_websub.Renew.Listed.{AreChannels, desired_set-AreChannels, reconcile-listed}
use yt_websub.Util.Atomic.{succeeds}
use yt_websub.Renew.Fresh.{AreNew}
use yt_websub.Renew.Preserved.{Keeps}
use yt_websub.Renew.Sound.{reconcile_locked-IsSound}
use yt_websub.Subs.Life.{IsSound, Reached-IsSound}
use yt_websub.Renew.Tests.{live_sub, live_registry, live_registry-Reached}

-- The hub is busy.
abbrev attempt : Attempt
attempt = record { begun = 400001; ended = 400021; sent = status 503; random = 7; saves = succeeds }

abbrev pub hub : Hub
hub = record { now = 400000; saves = succeeds; attempts = λ i. attempt; meanwhile = λ i r. r }

abbrev pub random : Random
random = record { token_bytes = λ i. i ∷ 1 ∷ []; secret_bytes = λ i. i ∷ 2 ∷ [] }

pub hub-KeepsChannels : KeepsChannels hub
hub-KeepsChannels i r keyed = (keyed, λ c. refl)

live_registry-IsKeyed : IsKeyed (live_registry.sub_map)
unfolding yt_websub.Subs.insert
live_registry-IsKeyed = (refl, tt)

live_due : is_due 400000 live_sub ≡ true
unfolding is_due yt_websub.Prelude.◌=b◌
live_due = refl

renewed-due_again_example :
    (402300 < 400021 + 30 → is_due 402300 (renewed attempt live_sub) ≡ false)
    × (400021 + 2250 ≤ 402300 → is_due 402300 (renewed attempt live_sub) ≡ true)
renewed-due_again_example =
    renewed-due_again attempt live_sub 400000 live_due (omega arith) (omega arith) 402300
      (omega arith) (omega arith)

renew_due-channels_test :
    has (codes "UC1") (renew_due hub live_registry) ≡ has (codes "UC1") live_registry
renew_due-channels_test =
    renew_due-channels hub hub-KeepsChannels (codes "UC1") live_registry live_registry-IsKeyed

-- Two channels are asked for; the third line does not resolve.
abbrev channels_file : Bytes
channels_file = codes "# mine\nUCabcdefghijklmnopqrstuv\n\n  UCvutsrqponmlkjihgfedcba \n@lost\n"

abbrev pub no_net : ℕ → Fetch
no_net i url = none

desired_test :
    ((desired_set no_net (some channels_file) []).channels
      ≡ codes "UCabcdefghijklmnopqrstuv" ∷ codes "UCvutsrqponmlkjihgfedcba" ∷ [])
    × ((desired_set no_net (some channels_file) []).complete ≡ false)
unfolding desired_set yt_websub.Prelude.◌=b◌ next yt_websub.Prelude.any yt_websub.Prelude.all
desired_test = (refl, refl)

desired_set-AreChannels_test : AreChannels ((desired_set no_net (some channels_file) []).channels)
desired_set-AreChannels_test = desired_set-AreChannels no_net (some channels_file) []

abbrev wanted_one : Desired
wanted_one = record {
  channels = codes "UCabcdefghijklmnopqrstuv" ∷ [];
  complete = true;
  cache = [];
}

reconcile_locked-wanted_example :
    has (codes "UC1") ((reconcile_locked hub random wanted_one live_registry).0)
    ≡ contains (codes "UC1") (wanted_one.channels)
      || (not (wanted_one.complete) && has (codes "UC1") live_registry)
reconcile_locked-wanted_example =
    reconcile_locked-wanted hub random wanted_one live_registry hub-KeepsChannels
      live_registry-IsKeyed (codes "UC1")

file_utf8 : is_utf8 channels_file ≡ true
unfolding is_utf8 next
file_utf8 = refl

is_channel : is_channel_id (codes "UCvutsrqponmlkjihgfedcba") ≡ true
unfolding is_channel_id yt_websub.Prelude.all
is_channel = refl

is_listed : contains (codes "UCvutsrqponmlkjihgfedcba") (entry_lines (lines channels_file)) ≡ true
unfolding contains entry_lines lines yt_websub.Prelude.◌=b◌ yt_websub.Prelude.any
is_listed = refl

reconcile-listed_example :
    has
      (codes "UCvutsrqponmlkjihgfedcba")
      ((reconcile_locked hub random (desired_set no_net (some channels_file) []) live_registry).0)
    ≡ true
reconcile-listed_example =
    reconcile-listed no_net channels_file [] hub random live_registry file_utf8 hub-KeepsChannels
      live_registry-IsKeyed (codes "UCvutsrqponmlkjihgfedcba") is_channel is_listed

hub-KeepsSound : Keeps IsSound hub
hub-KeepsSound i r sound = (sound, λ t free. free)

live_registry-IsSound : IsSound live_registry
live_registry-IsSound = Reached-IsSound live_registry live_registry-Reached

added_tokens-AreNew :
    AreNew random 0
      (to_add (live_registry.sub_map) ((desired_set no_net (some channels_file) []).channels))
      (live_registry.token_map)
unfolding AreNew desired_set to_add yt_websub.Prelude.◌=b◌ next yt_websub.Prelude.any
    yt_websub.Prelude.all yt_websub.Subs.insert yt_websub.Util.Random.rand_hex
    yt_websub.Prelude.Maps.get yt_websub.Prelude.Maps.put
added_tokens-AreNew = (refl, (refl, tt))

reconcile_locked-IsSound_example :
    IsSound
      ((reconcile_locked hub random (desired_set no_net (some channels_file) []) live_registry).0)
reconcile_locked-IsSound_example =
    reconcile_locked-IsSound no_net (some channels_file) [] hub random live_registry
      hub-KeepsChannels hub-KeepsSound live_registry-IsSound added_tokens-AreNew
