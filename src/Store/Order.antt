-- ===== src/Store/Order.antt =====
-- The order of sequence numbers in a history of events.
use yt_websub.Prelude.{
  ℕ, suc, ◌+◌, ◌≤◌, ◌<◌, true, List, [], ◌∷◌, ◌++◌, foldl, ◌≡◌, refl, sym, ap, arith, ltb, leb,
  keep, keep-All, All, All-map, Bool-cases, inl, inr, if◌then◌else◌, ◌==◌, length,
}
use yt_websub.Text.Number.{max_u64}
use yt_websub.Store.Line.{Event}
use yt_websub.Store.{load_event, push_recent}
use yt_websub.Store.Log.{is_after}

-- The sequence numbers grow strictly, from above `low`.
abbrev pub Ascending : ℕ → List Event → Type 0
Ascending low [] = Unit
Ascending low (e ∷ es) = (low < e.seq) × Ascending e.seq es

-- The number behind the last event's, or `n` where there is none.
abbrev pub tip : ℕ → List Event → ℕ
tip n [] = n
tip n (e ∷ es) = tip (suc e.seq) es

pub tip-concat : (n : ℕ) (es : List Event) (e : Event) → tip n (es ++ e ∷ []) ≡ suc e.seq
tip-concat n [] e = refl
tip-concat n (x ∷ es) e = tip-concat (suc x.seq) es e

pub lt-tip : (low : ℕ) (es : List Event) → Ascending low es → low < tip (suc low) es
lt-tip low [] h = omega arith
lt-tip low (e ∷ es) (lt, h) = omega (arith, lt-tip e.seq es h)

pub Ascending-concat :
    (low : ℕ) (es : List Event) (e : Event)
    → Ascending low es
    → e.seq ≡ tip (suc low) es
    → Ascending low (es ++ e ∷ [])
Ascending-concat low [] e h p = (omega arith, tt)
Ascending-concat low (x ∷ es) e (lt, h) p = (lt, Ascending-concat x.seq es e h p)

pub Ascending-weaken :
    (low low' : ℕ) (es : List Event) → low ≤ low' → Ascending low' es → Ascending low es
Ascending-weaken low low' [] le h = tt
Ascending-weaken low low' (e ∷ es) le (lt, h) = (omega arith, h)

pub Ascending-append_right :
    (low : ℕ) (es fs : List Event) → Ascending low (es ++ fs) → Ascending low fs
Ascending-append_right low [] fs h = h
Ascending-append_right low (e ∷ es) fs (lt, h) =
    Ascending-weaken low e.seq fs (omega arith) (Ascending-append_right e.seq es fs h)

-- Events below the tip, and the first event of an end against those before it.
pub before_end :
    (low : ℕ) (es : List Event) (f : Event) (fs : List Event)
    → Ascending low (es ++ f ∷ fs)
    → All (λ e. e.seq < f.seq) es
before_end low [] f fs h = tt
before_end low (e ∷ es) f fs (lt, h) =
    ((Ascending-append_right e.seq es (f ∷ fs) h).0, before_end e.seq es f fs h)

pub All-lt-tip :
    (low : ℕ) (es : List Event) → Ascending low es → All (λ e. e.seq < tip (suc low) es) es
All-lt-tip low [] h = tt
All-lt-tip low (e ∷ es) (lt, h) = (lt-tip e.seq es h, All-lt-tip e.seq es h)

pub Ascending-above : (low : ℕ) (es : List Event) → Ascending low es → All (λ e. low < e.seq) es
Ascending-above low [] h = tt
Ascending-above low (e ∷ es) (lt, h) =
    (lt, Ascending-above low es (Ascending-weaken low e.seq es (omega arith) h))

-- What a cursor leaves of a history is an end of it.
pub keep-after-end :
    (low floor : ℕ) (es : List Event)
    → Ascending low es
    → (pre : List Event) × (es ≡ pre ++ keep (is_after floor) es)
unfolding keep
keep-after-end low floor [] h = ([], refl)
keep-after-end low floor (e ∷ es) (lt, h) = elim (Bool-cases (ltb floor e.seq)) [
  | inl above ↦
      let rest : keep (is_after floor) es ≡ es = keep-All (is_after floor) es (
        All-map (λ x. e.seq < x.seq) (λ x. ltb floor x.seq ≡ true) (λ x q. ground arith) es
          (Ascending-above e.seq es h)) in
      rw above ([], ap (λ (t : List Event). e ∷ t) (sym rest))
  | inr below ↦
      let (pre, p) = keep-after-end e.seq floor es h in
      rw below (e ∷ pre, ap (λ (t : List Event). e ∷ t) p)
]

-- As long as the newest event stays, so does the tip.
pub tip-keep :
    (low floor n : ℕ) (es : List Event)
    → Ascending low es
    → suc floor < tip n es
    → tip n (keep (is_after floor) es) ≡ tip n es
unfolding keep
tip-keep low floor n [] h p = refl
tip-keep low floor n (e ∷ []) h p = ground arith
tip-keep low floor n (e ∷ f ∷ es) (lt, h) p = elim (Bool-cases (ltb floor e.seq)) [
  | inl above ↦ rw above (tip-keep e.seq floor (suc e.seq) (f ∷ es) h p)
  | inr below ↦ rw below (tip-keep e.seq floor n (f ∷ es) h p)
]

-- The fold of `open` over a log in order: the next number is the tip.
pub foldl-load_event :
    (low n : ℕ) (es w : List Event)
    → Ascending low es
    → n ≤ suc low
    → tip n es ≤ max_u64
    → foldl load_event (n, w) es ≡ (tip n es, foldl push_recent w es)
unfolding load_event
foldl-load_event low n [] w h le fits = refl
foldl-load_event low n (e ∷ es) w (lt, h) le fits =
    let last = lt-tip e.seq es h in
    let next : (if leb n e.seq then (if e.seq == max_u64 then max_u64 else e.seq + 1) else n)
        ≡ suc e.seq =
      ground arith in
    rw next (foldl-load_event e.seq (suc e.seq) es (push_recent w e) h (omega arith) fits)

-- Events in order, above `low` and below `high`, are no more than fit there.
pub length-lt :
    (low high : ℕ) (es : List Event)
    → Ascending low es
    → All (λ e. e.seq < high) es
    → low < high
    → low + length es < high
length-lt low high [] h a lt = omega arith
length-lt low high (e ∷ es) (lt, h) (b, a) _ = omega (arith, length-lt e.seq high es h a b)

pub keep-Ascending :
    (low floor : ℕ) (es : List Event)
    → low ≤ floor
    → Ascending low es
    → Ascending floor (keep (is_after floor) es)
unfolding keep
keep-Ascending low floor [] le h = tt
keep-Ascending low floor (e ∷ es) le (lt, h) = elim (Bool-cases (ltb floor e.seq)) [
  | inl above ↦
      rw
        (
          above,
          keep-All (is_after floor) es (
              All-map (λ x. e.seq < x.seq) (λ x. ltb floor x.seq ≡ true) (λ x q. ground arith) es
                (Ascending-above e.seq es h)),
        )
        (ground arith, h)
  | inr below ↦ rw below (keep-Ascending e.seq floor es (ground arith) h)
]
