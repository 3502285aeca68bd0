-- ===== src/Renew/Sound.antt =====
-- `reconcile_locked` of src/renew.rs leaves a sound registry sound.
use mathlib.Core.Option.{none-ne-some}
use yt_websub.Prelude.{ℕ, Option, none, some, sym, ◌∙◌, Bytes}
use yt_websub.Prelude.Maps.{Table}
use yt_websub.Subs.{Sub, Registry, new_sub}
use yt_websub.Subs.Life.{IsSound, save-IsSound, insert-IsSound, remove-IsSound}
use yt_websub.Renew.{verdict}
use yt_websub.Renew.Merge.{merge_attempt-IsSound}
use yt_websub.Renew.Due.{Hub, Attempt}
use yt_websub.Renew.Desired.{desired_set}
use yt_websub.Renew.Reconcile.{to_add, Random, fresh_sub, failed_sub, settle, reconcile_locked}
use yt_websub.Resolve.{Fetch}
use yt_websub.Renew.Channels.{KeepsChannels}
use yt_websub.Renew.Fresh.{AreNew}
use yt_websub.Renew.Preserved.{Keeps, IsPreserved, reconcile_locked-keeps}

settle-IsSound :
    (a : Attempt) (s : Sub) (o : Option Bytes) (r : Registry) → IsSound r → IsSound (settle a s o r)
unfolding settle
settle-IsSound a s none r h = h
settle-IsSound a s (some why) r h = merge_attempt-IsSound (a.saves) (failed_sub a s why) r h

IsSound-steps : (h : Hub) (random : Random) → IsPreserved h random IsSound
unfolding fresh_sub new_sub
IsSound-steps h random = record {
  is_sound = λ r p. p;
  inserts = λ i c r p id absent free.
      insert-IsSound (fresh_sub random i (h.attempts i) c) r p absent
        (λ d k. absurd (none-ne-some d (sym free ∙ k)));
  settles = λ i c r p id.
      settle-IsSound (h.attempts i) (fresh_sub random i (h.attempts i) c)
        (verdict ((h.attempts i).sent)) r p;
  removes = remove-IsSound;
  saves = save-IsSound (h.saves);
}

-- A reconcile leaves a sound registry sound, whatever channels.txt, the net and the hub give, if the
-- random tokens of the new subscriptions are new and no two of them are the same, and other threads
-- keep the registry sound, its channels, and give out no token.
pub reconcile_locked-IsSound :
    (fetch : ℕ → Fetch) (file : Option Bytes) (cache : Table Bytes) (h : Hub) (random : Random)
    (r : Registry)
    → KeepsChannels h
    → Keeps IsSound h
    → IsSound r
    → AreNew random 0 (to_add (r.sub_map) ((desired_set fetch file cache).channels)) (r.token_map)
    → IsSound ((reconcile_locked h random (desired_set fetch file cache) r).0)
reconcile_locked-IsSound fetch file cache h random r channels keeps sound new =
    reconcile_locked-keeps IsSound (IsSound-steps h random) keeps channels fetch file cache r sound
      new
