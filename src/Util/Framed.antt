-- ===== src/Util/Framed.antt =====
-- The columns of a file of rows, as src/store.rs and src/subs.rs write them, hold none of the bytes
-- that part columns and rows.
use yt_websub.Prelude.{ℕ, ◌≤◌, ◌≢◌, arith, Bytes, All, All-map}
use yt_websub.Text.Number.{to_string, IsDigit, to_string-All}
use yt_websub.Text.Pieces.{Lacks}
use yt_websub.Text.Space.{IsGraphic}
use yt_websub.Util.Pct.{pct_encode, IsFieldByte, pct_encode-All}

-- A digit or a byte of a stored field is none of the bytes that frame the file.
abbrev pub IsFraming : ℕ → Type 0
IsFraming b = b ≤ 0x1f

pub Lacks-to_string : (b n : ℕ) → IsFraming b → Lacks b (to_string n)
Lacks-to_string b n h =
    All-map IsDigit (λ c. c ≢ b) (λ c d. omega arith) (to_string n) (to_string-All n)

pub Lacks-pct_encode : (b : ℕ) (s : Bytes) → IsFraming b → Lacks b (pct_encode s)
Lacks-pct_encode b s h =
    All-map IsFieldByte (λ c. c ≢ b) (λ c d. omega arith) (pct_encode s) (pct_encode-All s)

pub Lacks-graphic : (b : ℕ) (s : Bytes) → IsFraming b → All IsGraphic s → Lacks b s
Lacks-graphic b s h g = All-map IsGraphic (λ c. c ≢ b) (λ c d. omega arith) s g
