-- ===== src/Store/Ack.antt =====
-- `set_ack` of src/store.rs: the cursor only advances, and survives a restart where it was written.
use yt_websub.Prelude.{
  ℕ, ◌≤◌, ◌<◌, max, true, some, List, ◌≡◌, ◌∙◌, arith, ltb, All-map, Bool-cases, inl, inr,
}
use yt_websub.Text.Utf8.{is_utf8-ascii}
use yt_websub.Text.Number.{max_u64, to_string, IsDigit, to_string-All, parse-to_string}
use yt_websub.Text.Space.{IsGraphic, trim-IsGraphic}
use yt_websub.Util.Atomic.{Fate, create_fails, write_fails, sync_fails, rename_fails, succeeds}
use yt_websub.Store.Line.{Event}
use yt_websub.Store.{Store, set_ack, load_ack}
use yt_websub.Store.Tracks.{Tracks}

pub load_ack-to_string : (n : ℕ) → n ≤ max_u64 → load_ack (some (to_string n)) ≡ n
unfolding load_ack
load_ack-to_string n h = rw (
  is_utf8-ascii (to_string n)
      (All-map IsDigit (λ c. c < 128) (λ c d. omega arith) (to_string n) (to_string-All n)),
  trim-IsGraphic (to_string n)
      (All-map IsDigit IsGraphic (λ c d. omega arith) (to_string n) (to_string-All n)),
  parse-to_string max_u64 n h,
)

pub set_ack-max :
    (fate : Fate) (through : ℕ) (s : Store)
    → (set_ack fate through s).ack_through ≡ max s.ack_through through
unfolding set_ack
set_ack-max fate through s = ground arith

-- What a restart would read.
abbrev pub stored_ack : Store → ℕ
stored_ack s = load_ack s.ack.target

pub set_ack-stored :
    (fate : Fate) (through : ℕ) (s : Store)
    → ltb s.ack_through through ≡ true
    → through ≤ max_u64
    → stored_ack (set_ack fate through s) ≡ elim fate [ succeeds ↦ through | _ ↦ stored_ack s ]
unfolding set_ack
set_ack-stored create_fails through s h le = rw h
set_ack-stored (write_fails k) through s h le = rw h
set_ack-stored sync_fails through s h le = rw h
set_ack-stored rename_fails through s h le = rw h
set_ack-stored succeeds through s h le = rw h (load_ack-to_string through le)

pub stored_ack-le :
    (fate : Fate) (through : ℕ) (s : Store)
    → through ≤ max_u64
    → stored_ack s ≤ s.ack_through
    → stored_ack (set_ack fate through s) ≤ max s.ack_through through
stored_ack-le fate through s le h = elim (Bool-cases (ltb s.ack_through through)) [
  | inl more ↦ rw (set_ack-stored fate through s more le) (stored_ack-cases fate)
  | inr old ↦ unfold set_ack in rw old (ground (arith, old))
]
  where
    stored_ack-cases :
        (f : Fate) → (elim f [ succeeds ↦ through | _ ↦ stored_ack s ]) ≤ max s.ack_through through
    stored_ack-cases create_fails = omega arith
    stored_ack-cases (write_fails k) = omega arith
    stored_ack-cases sync_fails = omega arith
    stored_ack-cases rename_fails = omega arith
    stored_ack-cases succeeds = omega arith

-- Everything but the cursor is as it was.
pub set_ack-Tracks :
    {es : List Event} {low : ℕ} {s : Store} (fate : Fate) (through : ℕ)
    → Tracks es low s
    → Tracks es low (set_ack fate through s)
unfolding set_ack
set_ack-Tracks {es} {low} {s} fate through t = elim (Bool-cases (ltb s.ack_through through)) [
  | inl more ↦ rw more (record {
    linked = t.linked;
    on_disk = t.on_disk;
    in_memory = t.in_memory;
    next_is_tip = t.next_is_tip;
    fits = t.fits;
    below = t.below;
    ascending = t.ascending;
    wellformed = t.wellformed;
    keys = t.keys;
    distinct = t.distinct;
  })
  | inr old ↦ rw old t
]

-- Where memory and file agree on the acknowledged number, they do after a `set_ack` that is written
-- out: it is the larger of the number so far and the new one.
pub set_ack-survives :
    (through : ℕ) (s : Store)
    → through ≤ max_u64
    → stored_ack s ≡ s.ack_through
    → ((set_ack succeeds through s).ack_through ≡ max s.ack_through through)
      × (stored_ack (set_ack succeeds through s) ≡ max s.ack_through through)
set_ack-survives through s le h = elim (Bool-cases (ltb s.ack_through through)) [
  | inl more ↦ (
    set_ack-max succeeds through s,
    set_ack-stored succeeds through s more le ∙ ground (arith, more),
  )
  | inr old ↦ (set_ack-max succeeds through s, unfold set_ack in rw old (ground (arith, old, h)))
]
