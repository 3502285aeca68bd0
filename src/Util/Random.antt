-- ===== src/Util/Random.antt =====
-- `rand_hex` and `rand_below` of src/util.rs; the bytes of the system's generator are an argument.
use yt_websub.Prelude.{ℕ, ◌%◌, ◌<◌, ◌≡◌, refl, arith, Bytes, ◌==◌, if◌then◌else◌}
use yt_websub.Util.Hex.{hex_encode}

-- `buf` is what `getrandom` fills in.
unfoldable pub rand_hex : Bytes → Bytes
unfolding hex_encode
rand_hex buf = hex_encode buf

-- `r` is the number that the eight random bytes spell.
unfoldable pub rand_below : ℕ → ℕ → ℕ
rand_below n r = if n == 0 then 0 else r % n

pub rand_below-lt : (n r : ℕ) → 0 < n → rand_below n r < n
unfolding rand_below
rand_below-lt n r h = grind arith

pub rand_below-zero : (r : ℕ) → rand_below 0 r ≡ 0
unfolding rand_below
rand_below-zero r = refl
