-- ===== src/Prelude/Texts.antt =====
-- Texts as the bytes that Rust's `String` and `&[u8]` hold, and their comparison.
use Prim.Native.Nat.{ℕ}
use Prim.Native.Char.{code}
use Prim.Native.String.{String}
use mathlib.Core.Path.{◌≡◌, refl}
use mathlib.Core.Logic.{◌↔◌}
use mathlib.Core.Bool.{Bool, true, false, ◌&&◌}
use mathlib.Core.List.{List, [], ◌∷◌}
use native.Mathlib.Omega.{arith}
use yt_websub.Prelude.Tests.{◌==◌}

abbrev pub Bytes : Type 0
Bytes = List ℕ

-- The code points of a literal: its bytes, where the text is ASCII.
abbrev pub codes : String → Bytes
codes String.[] = []
codes (String.◌∷◌ c s) = code c ∷ codes s

infix 50 ◌=b◌
unfoldable pub ◌=b◌ : Bytes → Bytes → Bool
[] =b [] = true
[] =b (y ∷ ys) = false
(x ∷ xs) =b [] = false
(x ∷ xs) =b (y ∷ ys) = x == y && xs =b ys

pub =b_sound : (a b : Bytes) → a =b b ≡ true → a ≡ b
unfolding ◌=b◌
=b_sound [] [] h = refl
=b_sound [] (y ∷ ys) h = ground arith
=b_sound (x ∷ xs) [] h = ground arith
=b_sound (x ∷ xs) (y ∷ ys) h = ground (arith, =b_sound xs ys)

pub =b_refl : (a : Bytes) → a =b a ≡ true
unfolding ◌=b◌
=b_refl [] = refl
=b_refl (x ∷ xs) = ground (arith, =b_refl xs)

pub =b_iff : (a b : Bytes) → (a =b b ≡ true) ↔ (a ≡ b)
=b_iff a b = (=b_sound a b, λ e. rw e (=b_refl b))
