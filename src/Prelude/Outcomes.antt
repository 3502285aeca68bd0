-- ===== src/Prelude/Outcomes.antt =====
-- `io::Result<A>`, its error's text left out.
pub data IoResult {ℓ} (A : Type ℓ) : Type ℓ where
  ok : A → IoResult A
  err : IoResult A
