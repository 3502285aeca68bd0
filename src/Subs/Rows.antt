-- ===== src/Subs/Rows.antt =====
-- The rows of subs.tsv in src/subs.rs, how they are read and written.
use yt_websub.Prelude.{
  ℕ, zero, suc, Bool, ◌&&◌, Option, none, some, List, [], ◌∷◌, ◌++◌, Bytes, ltb, leb, if◌then◌else◌,
  ◌>>=◌, foldl,
}
use yt_websub.Prelude.Maps.{Table}
use yt_websub.Text.Number.{max_u64, max_u32, to_string, parse}
use yt_websub.Text.Pieces.{split, lines}
use yt_websub.Text.Utf8.{is_utf8}
use yt_websub.Util.Pct.{pct_encode, pct_decode}
use yt_websub.Util.Atomic.{Slot, Fate, write_atomic}
use yt_websub.Subs.{Sub, Registry, insert, empty}

abbrev pub max_err : ℕ
max_err = 200

-- A byte inside a character of UTF-8.
abbrev pub continues : ℕ → Bool
continues b = leb 0x80 b && ltb b 0xC0

-- `s.chars().take(n)`
unfoldable pub take_chars : ℕ → Bytes → Bytes
take_chars n [] = []
take_chars zero (b ∷ s) = let rest = take_chars zero s in if continues b then b ∷ rest else []
take_chars (suc n) (b ∷ s) =
    let inside = take_chars (suc n) s in
    let other = take_chars n s in if continues b then b ∷ inside else b ∷ other

unfoldable pub clamp_error : Bytes → Bytes
unfolding take_chars
clamp_error s = take_chars max_err s

-- `fmt_line` without its newline.
unfoldable pub columns : Sub → Bytes
unfolding to_string pct_encode clamp_error
columns s =
    s.channel_id
    ++ b'\t'
      ∷ (s.token
          ++ b'\t'
            ∷ (s.topic
                ++ b'\t'
                  ∷ (s.secret
                      ++ b'\t'
                        ∷ (s.state
                            ++ b'\t'
                              ∷ (to_string (s.lease_seconds)
                                  ++ b'\t'
                                    ∷ (to_string (s.expires_at)
                                        ++ b'\t'
                                          ∷ (to_string (s.last_subscribe_at)
                                              ++ b'\t'
                                                ∷ (to_string (s.fail_count)
                                                    ++ b'\t'
                                                      ∷ (to_string (s.next_attempt_at)
                                                          ++ b'\t'
                                                            ∷ (pct_encode
                                                            (clamp_error (s.last_error))))))))))))

unfoldable pub fmt_line : Sub → Bytes
unfolding columns
fmt_line s = columns s ++ b'\n' ∷ []

-- `p.get(10).map(pct_decode).unwrap_or_default()`
unfoldable pub error_column : List Bytes → Bytes
unfolding pct_decode
error_column [] = []
error_column (p ∷ more) = pct_decode p

-- The columns from the sixth on, with the five texts before them.
unfoldable pub parse_numbers :
    Bytes
    → Bytes
    → Bytes
    → Bytes
    → Bytes
    → Bytes
    → Bytes
    → Bytes
    → Bytes
    → Bytes
    → List Bytes
    → Option Sub
unfolding parse error_column
parse_numbers channel token topic secret state p5 p6 p7 p8 p9 more = do
  lease ← parse max_u64 p5
  expires ← parse max_u64 p6
  last ← parse max_u64 p7
  fails ← parse max_u32 p8
  next ← parse max_u64 p9
  some (record {
    channel_id = channel;
    token = token;
    topic = topic;
    secret = secret;
    state = state;
    lease_seconds = lease;
    expires_at = expires;
    last_subscribe_at = last;
    fail_count = fails;
    next_attempt_at = next;
    last_error = error_column more;
  })

unfoldable pub parse_columns : List Bytes → Option Sub
unfolding parse_numbers
parse_columns (p0 ∷ p1 ∷ p2 ∷ p3 ∷ p4 ∷ p5 ∷ p6 ∷ p7 ∷ p8 ∷ p9 ∷ more) =
    parse_numbers p0 p1 p2 p3 p4 p5 p6 p7 p8 p9 more
parse_columns _ = none

unfoldable pub parse_line : Bytes → Option Sub
unfolding split parse_columns
parse_line line = parse_columns (split b'\t' line)

-- One line of `load`, an `insert` on the two new maps.
unfoldable pub load_line : Registry → Bytes → Registry
unfolding parse_line insert
load_line r line = elim (parse_line line) [ none ↦ r | some s ↦ insert s r ]

-- The maps of `load`; `none` is a file that cannot be read, and neither can one that is not UTF-8.
unfoldable pub load_text : Option Bytes → Registry
unfolding is_utf8 lines load_line
load_text none = empty
load_text (some content) = if is_utf8 content then foldl load_line empty (lines content) else empty

-- What `save` writes, the rows in the order of the map.
unfoldable pub saved : Table Sub → Bytes
unfolding fmt_line
saved [] = []
saved ((channel, s) ∷ m) = fmt_line s ++ saved m

unfoldable pub load : Slot → Registry
unfolding load_text
load f = record (load_text f.target) { file = f }

-- `save`, whose result all callers drop. A failure leaves the file as it was.
abbrev pub save : Fate → Registry → Registry
save fate r = record r { file = (write_atomic fate (saved (r.sub_map)) r.file).0 }
