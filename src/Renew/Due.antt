-- ===== src/Renew/Due.antt =====
-- `renew_due` of src/renew.rs: which subscriptions are tried again, and what becomes of a try.
use mathlib.Core.Bool.{true≢false}
use yt_websub.Prelude.{
  ℕ, suc, ◌+◌, ◌-◌, ◌%◌, ◌^◌, ◌≤◌, ◌<◌, Bool, true, false, ◌&&◌, ◌||◌, ◌*◌, Option, none, some,
  List, [], ◌∷◌, ◌≡◌, inl, inr, refl, sym, ◌∙◌, arith, Bytes, codes, leb, ltb, ◌=b◌, if◌then◌else◌,
  Bool-cases, lt→ltb, le→not-ltb, ltb→lt, not-ltb→le,
}
use yt_websub.Prelude.Maps.{Table}
use yt_websub.Util.Atomic.{Fate}
use yt_websub.Subs.{Sub, Registry}
use yt_websub.Renew.{backoff, backoff-bounds, Sent, verdict, merge_attempt, expire_lapsed}

abbrev pub renew_lead : ℕ
renew_lead = 24 * 3600

abbrev pub pending_timeout : ℕ
pending_timeout = 600

abbrev pub renew_cooldown : ℕ
renew_cooldown = 300

-- Whether `renew_due` tries a subscription.
unfoldable pub is_due : ℕ → Sub → Bool
is_due now s =
    if ltb now (s.next_attempt_at)
    then false
    else if s.state =b codes "active"
    then ltb 0 (s.expires_at) && leb (s.expires_at) ((now + renew_lead) % 2 ^ 64)
    else if s.state =b codes "pending"
    then ltb pending_timeout (now - s.last_subscribe_at)
    else s.state =b codes "failed" || s.state =b codes "expired"

unfoldable pub candidates : ℕ → Table Sub → List Sub
unfolding is_due
candidates now [] = []
candidates now ((c, s) ∷ m) = let rest = candidates now m in if is_due now s then s ∷ rest else rest

-- One request to the hub: the clock before it and after it, what came of it, the random number that
-- goes into the delay of a retry, and the end of the `save` that follows.
pub record Attempt : Type 0 where
  pub begun : ℕ
  pub ended : ℕ
  pub sent : Sent
  pub random : ℕ
  pub saves : Fate

-- The new state, which an active subscription does not take.
abbrev pub unless_active : Sub → Bytes → Bytes
unless_active s state = if s.state =b codes "active" then s.state else state

unfoldable pub renewed_by : Attempt → Sub → Option Bytes → Sub
unfolding backoff
renewed_by a s none = record s {
  state = unless_active s (codes "pending");
  last_subscribe_at = a.begun;
  fail_count = 0;
  last_error = [];
  next_attempt_at = (a.ended + renew_cooldown) % 2 ^ 64;
}
renewed_by a s (some why) = record s {
  state = unless_active s (codes "failed");
  last_subscribe_at = a.begun;
  fail_count = (s.fail_count + 1) % 2 ^ 32;
  last_error = why;
  next_attempt_at = (a.ended + backoff (a.random) ((s.fail_count + 1) % 2 ^ 32)) % 2 ^ 64;
}

-- The subscription after a try.
unfoldable pub renewed : Attempt → Sub → Sub
unfolding verdict renewed_by
renewed a s = renewed_by a s (verdict (a.sent))

-- What comes from outside: the clock that a pass reads for itself (at its start, or at the end of a
-- reconcile for the count of its log line), the end of its own `save`, the requests to the hub by their numbers, and what
-- other threads do to the registry while the lock is free: `meanwhile 0` before the candidates are
-- collected, `meanwhile i` during the i-th request.
pub record Hub : Type 0 where
  pub now : ℕ
  pub saves : Fate
  pub attempts : ℕ → Attempt
  pub meanwhile : ℕ → Registry → Registry

unfoldable pub renew_all : Hub → ℕ → List Sub → Registry → Registry
unfolding renewed merge_attempt
renew_all h i [] r = r
renew_all h i (s ∷ more) r =
    renew_all h (suc i) more
      (merge_attempt ((h.attempts i).saves) (renewed (h.attempts i) s) (h.meanwhile i r))

unfoldable pub renew_due : Hub → Registry → Registry
unfolding expire_lapsed candidates renew_all
renew_due h r =
    let lapsed = h.meanwhile 0 (expire_lapsed (h.saves) (h.now) r) in
    renew_all h 1 (candidates (h.now) (lapsed.sub_map)) lapsed

-- What a subscription that is due has, if it is active.
within_lead : (now : ℕ) (s : Sub) → Bool
within_lead now s = ltb 0 (s.expires_at) && leb (s.expires_at) ((now + renew_lead) % 2 ^ 64)

module _ (now : ℕ) (s : Sub) where
  early : now < s.next_attempt_at → is_due now s ≡ false
  unfolding is_due
  early h = rw (is_due, lt→ltb _ _ h) refl

  module _ (late : s.next_attempt_at ≤ now) where
    due_active : s.state =b codes "active" ≡ true → is_due now s ≡ within_lead now s
    unfolding is_due within_lead
    due_active e = rw (is_due, le→not-ltb _ _ late, e) refl

    due_pending :
        s.state ≡ codes "pending" → is_due now s ≡ ltb pending_timeout (now - s.last_subscribe_at)
    unfolding is_due ◌=b◌
    due_pending e = rw (is_due, le→not-ltb _ _ late, e) refl

    due_failed : s.state ≡ codes "failed" → is_due now s ≡ true
    unfolding is_due ◌=b◌
    due_failed e = rw (is_due, le→not-ltb _ _ late, e) refl

  due-within_lead :
      s.state =b codes "active" ≡ true → is_due now s ≡ true → within_lead now s ≡ true
  due-within_lead e h = elim (Bool-cases (ltb now (s.next_attempt_at))) [
    | inl k ↦ absurd (true≢false (sym h ∙ early (ltb→lt _ _ k)))
    | inr k ↦ sym (due_active (not-ltb→le _ _ k) e) ∙ h
  ]

within_lead-later :
    (before now : ℕ) (s t : Sub)
    → s.expires_at ≡ t.expires_at
    → before ≤ now
    → now + renew_lead < 2 ^ 64
    → within_lead before s ≡ true
    → within_lead now t ≡ true
unfolding within_lead
within_lead-later before now s t same le fits h = ground arith

unless_active-same :
    (s : Sub) (state : Bytes) → s.state =b codes "active" ≡ true → unless_active s state ≡ s.state
unless_active-same s state e = rw e refl

unless_active-new :
    (s : Sub) (state : Bytes) → s.state =b codes "active" ≡ false → unless_active s state ≡ state
unless_active-new s state e = rw e refl

-- The delay until the next request.
delay : Attempt → Sub → Option Bytes → ℕ
unfolding backoff
delay a s none = renew_cooldown
delay a s (some why) = backoff (a.random) ((s.fail_count + 1) % 2 ^ 32)

delay-bounds :
    (a : Attempt) (s : Sub) (o : Option Bytes) → (30 ≤ delay a s o) × (delay a s o ≤ 2250)
unfolding delay
delay-bounds a s none = (omega arith, omega arith)
delay-bounds a s (some why) =
    let (low, high, _) = backoff-bounds (a.random) ((s.fail_count + 1) % 2 ^ 32) in (low, high)

renewed_by-next :
    (a : Attempt) (s : Sub) (o : Option Bytes)
    → (renewed_by a s o).next_attempt_at ≡ (a.ended + delay a s o) % 2 ^ 64
unfolding renewed_by delay
renewed_by-next a s none = refl
renewed_by-next a s (some why) = refl

renewed_by-expires :
    (a : Attempt) (s : Sub) (o : Option Bytes) → s.expires_at ≡ (renewed_by a s o).expires_at
unfolding renewed_by
renewed_by-expires a s none = refl
renewed_by-expires a s (some why) = refl

renewed_by-active :
    (a : Attempt) (s : Sub) (o : Option Bytes)
    → s.state =b codes "active" ≡ true
    → (renewed_by a s o).state =b codes "active" ≡ true
unfolding renewed_by
renewed_by-active a s none e = rw (unless_active-same s (codes "pending") e) e
renewed_by-active a s (some why) e = rw (unless_active-same s (codes "failed") e) e

-- One that is not active, and its request was sent more than 600 seconds ago, is due after its delay.
renewed_by-inactive :
    (a : Attempt) (s : Sub) (now : ℕ) (o : Option Bytes)
    → a.begun + 600 < now
    → s.state =b codes "active" ≡ false
    → (renewed_by a s o).next_attempt_at ≤ now
    → is_due now (renewed_by a s o) ≡ true
unfolding renewed_by
renewed_by-inactive a s now none waited e late =
    due_pending now (renewed_by a s none) late (unless_active-new s (codes "pending") e)
    ∙ lt→ltb 600 (now - a.begun) (omega arith)
renewed_by-inactive a s now (some why) waited e late =
    due_failed now (renewed_by a s (some why)) late (unless_active-new s (codes "failed") e)

module _ (a : Attempt) (s : Sub) (before : ℕ) (due : is_due before s ≡ true) where
  module _ (o : Option Bytes) (hb : before ≤ a.begun) (he : a.begun ≤ a.ended) (now : ℕ)
      (hn : a.ended ≤ now) (fits : now + renew_lead < 2 ^ 64) where
    renewed_by-early : now < a.ended + 30 → is_due now (renewed_by a s o) ≡ false
    renewed_by-early h =
        let (low, high) = delay-bounds a s o in
        let next = renewed_by-next a s o in early now (renewed_by a s o) (omega arith)

    renewed_by-late : a.ended + 2250 ≤ now → is_due now (renewed_by a s o) ≡ true
    renewed_by-late h =
        let (low, high) = delay-bounds a s o in
        let next = renewed_by-next a s o in
        let late : (renewed_by a s o).next_attempt_at ≤ now = omega arith in
        elim (Bool-cases (s.state =b codes "active")) [
          | inr e ↦ renewed_by-inactive a s now o (omega arith) e late
          | inl e ↦
              due_active now (renewed_by a s o) late (renewed_by-active a s o e)
              ∙ within_lead-later before now s (renewed_by a s o) (renewed_by-expires a s o)
                  (omega arith) fits (due-within_lead before s e due)
        ]

  -- A subscription that was due, whatever the hub answers, is not due in the half minute after the
  -- request and is due from 2250 seconds after it on, unless something else changes it.
  pub renewed-due_again :
      before ≤ a.begun
      → a.begun ≤ a.ended
      → (now : ℕ) → a.ended ≤ now
      → now + renew_lead < 2 ^ 64
      → (now < a.ended + 30 → is_due now (renewed a s) ≡ false)
        × (a.ended + 2250 ≤ now → is_due now (renewed a s) ≡ true)
  unfolding renewed
  renewed-due_again hb he now hn fits =
      let o = verdict (a.sent) in
      (renewed_by-early o hb he now hn fits, renewed_by-late o hb he now hn fits)
