-- ===== src/Store/Samples.antt =====
-- A store whose log is longer than the size from which it is compacted.
use yt_websub.Prelude.{
  ℕ, zero, suc, ◌≤◌, ◌<◌, true, false, [], ◌∷◌, Bytes, ◌≡◌, refl, ap, ◌∙◌, arith, All, ltb,
  le→not-ltb, length, keep,
}
use yt_websub.Text.Utf8.{is_utf8, is_utf8-ascii}
use yt_websub.Util.Pct.{pct_encode, pct_encode-plain, is_escaped}
use yt_websub.Store.Line.{Event, format_line, length-title-le}
use yt_websub.Store.{Store}
use yt_websub.Store.Rewrite.{compact_bytes}
use yt_websub.Store.Log.{render-one, is_after}
use yt_websub.Store.Compact.{is_small}
use yt_websub.Store.Tracks.{Tracks}

-- `n` times the letter `a`.
pub long : ℕ → Bytes
long zero = []
long (suc n) = b'a' ∷ long n

length-long : (n : ℕ) → length (long n) ≡ n
unfolding long
length-long zero = refl
length-long (suc n) = ap suc (length-long n)

long-plain : (n : ℕ) → All (λ b. is_escaped b ≡ false) (long n)
unfolding long is_escaped
long-plain zero = tt
long-plain (suc n) = (refl, long-plain n)

long-ascii : (n : ℕ) → All (λ b. b < 128) (long n)
unfolding long
long-ascii zero = tt
long-ascii (suc n) = (omega arith, long-ascii n)

pub long-utf8 : (n : ℕ) → is_utf8 (long n) ≡ true
long-utf8 n = is_utf8-ascii (long n) (long-ascii n)

length-long-title : (n : ℕ) → length (pct_encode (long n)) ≡ n
length-long-title n =
    ap (length {A = ℕ}) (pct_encode-plain (long n) (long-utf8 n) (long-plain n)) ∙ length-long n

-- One event with a title of `n` letters makes a log of more than `n` bytes.
pub long_title-large :
    (n : ℕ) (e : Event) (s : Store)
    → Tracks (e ∷ []) 0 s
    → e.title ≡ long n
    → compact_bytes ≤ n
    → is_small s ≡ false
long_title-large n e s t title le =
    let above : ltb 0 e.seq ≡ true = ground (arith, t.ascending) in
    let kept : keep (is_after 0) (e ∷ []) ≡ e ∷ [] = unfold keep in rw above in
    rw (t.on_disk, kept, render-one e)
      (le→not-ltb (length (format_line e)) compact_bytes (
        omega (
          arith,
          length-title-le e,
          length-long-title n,
          le,
          ap (λ (t : Bytes). length (pct_encode t)) title,
        )))
