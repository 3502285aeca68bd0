-- ===== src/Renew/Kept.antt =====
-- The passes of src/renew.rs over a registry leave it, and its file, in a state from which a restart
-- can go on.
use mathlib.Core.Option.{none-ne-some, some-injective}
use yt_websub.Prelude.{ℕ, true, Option, none, some, ◌≡◌, inl, inr, refl, sym, ap, ◌∙◌, subst, Bytes}
use yt_websub.Prelude.Maps.{Table, get}
use yt_websub.Util.Atomic.{Fate}
use yt_websub.Text.Utf8.{is_utf8}
use yt_websub.Subs.{Sub, Registry, new_sub, update}
use yt_websub.Subs.Row.{IsSub}
use yt_websub.Subs.Kept.{IsKept, save-IsKept, insert-IsKept, update-IsKept, remove-IsKept}
use yt_websub.Resolve.{Fetch}
use yt_websub.Renew.{merge_attempt, merged, verdict}
use yt_websub.Renew.Merge.{merge_attempt-cases, merged-keys}
use yt_websub.Renew.Due.{Hub, Attempt}
use yt_websub.Renew.Desired.{desired_set}
use yt_websub.Renew.Reconcile.{to_add, Random, fresh_sub, failed_sub, settle, reconcile_locked}
use yt_websub.Renew.Channels.{KeepsChannels}
use yt_websub.Renew.Fresh.{AreNew}
use yt_websub.Renew.Preserved.{Keeps, IsPreserved, reconcile_locked-keeps}
use yt_websub.Renew.Fits.{IsReal, IsRandom, verdict-utf8, fresh-IsSub, failed-IsSub, merged-IsSub}

pub merge_attempt-IsKept :
    (fate : Fate) (s : Sub) (r : Registry) → IsKept r → IsSub s → IsKept (merge_attempt fate s r)
merge_attempt-IsKept fate s r k good = elim (merge_attempt-cases fate s r) [
  | inl e ↦ subst IsKept (sym e) k
  | inr (cur, h, t, e) ↦
      (let (same_channel, same_token) = merged-keys cur s in
        subst IsKept (sym e) (
          save-IsKept fate (update (merged cur s) r) (
            update-IsKept (merged cur s) r k
              (λ c g.
                same_channel
                ∙ some-injective _ _ (
                    sym (k.sound.indexed.pointed (s.channel_id) cur h)
                    ∙ (ap (λ (x : Bytes). get x (r.token_map)) (t ∙ sym same_token) ∙ g)))
              (merged-IsSub s good cur (k.fits (s.channel_id) cur h)))))
]

settle-IsKept :
    (a : Attempt) (s : Sub) (o : Option Bytes) (r : Registry)
    → IsKept r
    → IsSub s
    → ((why : Bytes) → o ≡ some why → is_utf8 why ≡ true)
    → IsKept (settle a s o r)
unfolding settle
settle-IsKept a s none r k good text = k
settle-IsKept a s (some why) r k good text =
    merge_attempt-IsKept (a.saves) (failed_sub a s why) r k
      (failed-IsSub s good a why (text why refl))

-- What comes from outside in a pass is real, and other threads keep the registry.
pub record IsOutside (h : Hub) : Type 0 where
  pub real : (i : ℕ) → IsReal (h.attempts i)
  pub channels : KeepsChannels h
  pub keeps : Keeps IsKept h

IsKept-steps :
    (h : Hub) (random : Random) → IsOutside h → IsRandom random → IsPreserved h random IsKept
unfolding fresh_sub new_sub
IsKept-steps h random outside bytes = record {
  is_sound = λ r k. k.sound;
  inserts = λ i c r k id absent free.
      insert-IsKept (fresh_sub random i (h.attempts i) c) r k absent
        (λ d g. absurd (none-ne-some d (sym free ∙ g)))
        (fresh-IsSub random i (h.attempts i) c bytes ((outside.real i).begun_fits) id);
  settles = λ i c r k id.
      settle-IsKept (h.attempts i) (fresh_sub random i (h.attempts i) c)
        (verdict ((h.attempts i).sent)) r k
        (fresh-IsSub random i (h.attempts i) c bytes ((outside.real i).begun_fits) id)
        (λ why e. verdict-utf8 ((h.attempts i).sent) why ((outside.real i).sent_text) e);
  removes = remove-IsKept;
  saves = save-IsKept (h.saves);
}

pub reconcile_locked-IsKept :
    (fetch : ℕ → Fetch) (file : Option Bytes) (cache : Table Bytes) (h : Hub) (random : Random)
    (r : Registry)
    → IsOutside h
    → IsRandom random
    → IsKept r
    → AreNew random 0 (to_add (r.sub_map) ((desired_set fetch file cache).channels)) (r.token_map)
    → IsKept ((reconcile_locked h random (desired_set fetch file cache) r).0)
reconcile_locked-IsKept fetch file cache h random r outside bytes kept new =
    reconcile_locked-keeps IsKept (IsKept-steps h random outside bytes) outside.keeps
      outside.channels fetch file cache r kept new
