-- ===== src/Util/Atomic.antt =====
-- `write_atomic` of src/util.rs: a file and its temporary sibling, and every way the write can end.
use yt_websub.Prelude.{
  ℕ, Bool, true, false, Option, none, some, ◌≡◌, refl, ◌⊎◌, inl, inr, Bytes, take,
}

-- The contents of `path` and of `path.with_extension("tmp")`; `none` where there is no such file.
pub record Slot : Type 0 where
  pub target : Option Bytes
  pub tmp : Option Bytes

-- How far a write gets. A crash leaves the files as the failure at the same point does.
pub data Fate : Type 0 where
  create_fails : Fate
  -- so many bytes reach the temporary file
  write_fails : ℕ → Fate
  sync_fails rename_fails succeeds : Fate

-- The files afterwards, and whether the result is `Ok`.
unfoldable pub write_atomic : Fate → Bytes → Slot → Slot × Bool
write_atomic create_fails bytes f = (f, false)
write_atomic (write_fails k) bytes f = (record f { tmp = some (take k bytes) }, false)
write_atomic sync_fails bytes f = (record f { tmp = some bytes }, false)
write_atomic rename_fails bytes f = (record f { tmp = some bytes }, false)
write_atomic succeeds bytes f = (record { target = some bytes; tmp = none }, true)

-- The result is `Ok` exactly when the file holds the new bytes whole; otherwise it is as it was.
pub write_atomic-target :
    (fate : Fate) (bytes : Bytes) (f : Slot)
    → (((write_atomic fate bytes f).1 ≡ true) × ((write_atomic fate bytes f).0.target ≡ some bytes))
      ⊎ (((write_atomic fate bytes f).1 ≡ false)
          × ((write_atomic fate bytes f).0.target ≡ f.target))
unfolding write_atomic
write_atomic-target create_fails bytes f = inr (refl, refl)
write_atomic-target (write_fails k) bytes f = inr (refl, refl)
write_atomic-target sync_fails bytes f = inr (refl, refl)
write_atomic-target rename_fails bytes f = inr (refl, refl)
write_atomic-target succeeds bytes f = inl (refl, refl)
