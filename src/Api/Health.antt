-- ===== src/Api/Health.antt =====
-- The counts of GET /api/health of src/api.rs.
use yt_websub.Prelude.{
  ℕ, suc, ◌+◌, true, false, ◌||◌, [], ◌∷◌, ◌≡◌, inl, inr, refl, sym, ap, ◌∙◌, arith, Bytes, codes,
  ◌=b◌, Bool-cases, length,
}
use yt_websub.Prelude.Maps.{Table}
use yt_websub.Subs.{Sub}
use yt_websub.Renew.{is_live, live_count}
use yt_websub.Api.Json.{Counts, count_one, counts}

-- Every subscription is counted once, and as active exactly if it is live.
pub record IsCount (now : ℕ) (m : Table Sub) (c : Counts) : Type 0 where
  pub live : c.active ≡ live_count now m
  pub sum : c.active + c.expired + c.failed + c.pending ≡ c.total
  pub all_counted : c.total ≡ length m

module _ (now : ℕ) (k : Bytes) (s : Sub) (m : Table Sub) where
  live_count-live : is_live now s ≡ true → live_count now ((k, s) ∷ m) ≡ suc (live_count now m)
  unfolding live_count
  live_count-live e = rw e refl

  live_count-other : is_live now s ≡ false → live_count now ((k, s) ∷ m) ≡ live_count now m
  unfolding live_count
  live_count-other e = rw e refl

  -- The count of one that is not live, whichever it is.
  counted :
      (c d : Counts)
      → IsCount now m c
      → is_live now s ≡ false
      → d.active ≡ c.active
      → d.expired + d.failed + d.pending ≡ suc (c.expired + c.failed + c.pending)
      → d.total ≡ suc c.total
      → IsCount now ((k, s) ∷ m) d
  counted c d h e a o t = record {
    live = a ∙ h.live ∙ sym (live_count-other e);
    sum = omega (arith, h.sum);
    all_counted = t ∙ ap suc h.all_counted;
  }

  count_one-IsCount : (c : Counts) → IsCount now m c → IsCount now ((k, s) ∷ m) (count_one now s c)
  unfolding count_one
  count_one-IsCount c h = elim (Bool-cases (is_live now s)) [
    | inl e ↦ rw e (record {
      live = ap suc h.live ∙ sym (live_count-live e);
      sum = omega (arith, h.sum);
      all_counted = ap suc h.all_counted;
    })
    | inr e ↦ elim (Bool-cases (s.state =b codes "active" || s.state =b codes "expired")) [
      | inl f ↦ rw (e, f) (counted c _ h e refl (omega arith) refl)
      | inr f ↦ elim (Bool-cases (s.state =b codes "pending")) [
        | inl g ↦ rw (e, f, g) (counted c _ h e refl (omega arith) refl)
        | inr g ↦ rw (e, f, g) (counted c _ h e refl (omega arith) refl)
      ]
    ]
  ]

-- The counts that the endpoint reports: each subscription counts once, and as active exactly if it is
-- active within its lease.
pub counts-IsCount : (now : ℕ) (m : Table Sub) → IsCount now m (counts now m)
unfolding counts live_count
counts-IsCount now [] = record { live = refl; sum = refl; all_counted = refl }
counts-IsCount now ((k, s) ∷ m) = count_one-IsCount now k s m (counts now m) (counts-IsCount now m)
