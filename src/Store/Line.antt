-- ===== src/Store/Line.antt =====
-- The rows of events.log: `Event`, `dedup_key`, `format_line` and `parse_line` of src/store.rs.
use yt_websub.Prelude.{
  ℕ, ◌≤◌, true, ◌≢◌, Option, none, some, List, [], ◌∷◌, ◌++◌, append_assoc, ◌≡◌, arith, Bytes,
  ◌>>=◌, length, length-append, All-map, All-append, sym, ◌<◌,
}
use yt_websub.Text.Utf8.{is_utf8, is_utf8-append, is_utf8-cons, is_utf8-ascii}
use yt_websub.Text.Number.{max_u64, to_string, parse, IsDigit, to_string-All, parse-to_string}
use yt_websub.Text.Pieces.{Lacks, lines, lines-append, split, split-append, split-last}
use yt_websub.Util.Framed.{IsFraming, Lacks-to_string, Lacks-pct_encode}
use yt_websub.Util.Pct.{pct_encode, pct_decode, pct_decode-encode, pct_encode-utf8}

pub record Event : Type 0 where
  pub seq : ℕ
  pub received_at : ℕ
  pub kind : Bytes
  pub channel_id : Bytes
  pub video_id : Bytes
  pub ts : Bytes
  pub title : Bytes

-- `format!("{}|{}|{}", video_id, ts, kind)`
unfoldable pub dedup_key : Bytes → Bytes → Bytes → Bytes
dedup_key video_id ts kind = video_id ++ b'|' ∷ (ts ++ b'|' ∷ kind)

-- A row, without its newline.
unfoldable pub row : Event → Bytes
unfolding to_string pct_encode
row e =
    to_string e.seq
    ++ b'\t'
      ∷ (to_string e.received_at
          ++ b'\t'
            ∷ (pct_encode e.kind
                ++ b'\t'
                  ∷ (pct_encode e.channel_id
                      ++ b'\t'
                        ∷ (pct_encode e.video_id
                            ++ b'\t' ∷ (pct_encode e.ts ++ b'\t' ∷ pct_encode e.title)))))

unfoldable pub format_line : Event → Bytes
unfolding row
format_line e = row e ++ b'\n' ∷ []

-- The columns of a row; any other number than seven is no event.
unfoldable pub parse_columns : List Bytes → Option Event
unfolding parse pct_decode
parse_columns (a ∷ b ∷ c ∷ d ∷ e ∷ f ∷ g ∷ []) = do
  seq ← parse max_u64 a
  received_at ← parse max_u64 b
  some (record {
    seq = seq;
    received_at = received_at;
    kind = pct_decode c;
    channel_id = pct_decode d;
    video_id = pct_decode e;
    ts = pct_decode f;
    title = pct_decode g;
  })
parse_columns _ = none

unfoldable pub parse_line : Bytes → Option Event
unfolding parse_columns split
parse_line line = parse_columns (split b'\t' line)

-- What Rust's types say of an event: numbers of 64 bits, and texts in UTF-8.
pub record IsEvent (e : Event) : Type 0 where
  pub seq_fits : e.seq ≤ max_u64
  pub received_fits : e.received_at ≤ max_u64
  pub kind_utf8 : is_utf8 e.kind ≡ true
  pub channel_utf8 : is_utf8 e.channel_id ≡ true
  pub video_utf8 : is_utf8 e.video_id ≡ true
  pub ts_utf8 : is_utf8 e.ts ≡ true
  pub title_utf8 : is_utf8 e.title ≡ true

module _ (e : Event) where
  -- The seven columns of a row.
  pub split-row :
      split b'\t' (row e)
      ≡ to_string e.seq
        ∷ to_string e.received_at
        ∷ pct_encode e.kind
        ∷ pct_encode e.channel_id
        ∷ pct_encode e.video_id
        ∷ pct_encode e.ts
        ∷ pct_encode e.title
        ∷ []
  unfolding row
  split-row = rw (
    split-append 9 (to_string e.seq) _ (Lacks-to_string 9 e.seq (omega arith)),
    split-append 9 (to_string e.received_at) _ (Lacks-to_string 9 e.received_at (omega arith)),
    split-append 9 (pct_encode e.kind) _ (Lacks-pct_encode 9 e.kind (omega arith)),
    split-append 9 (pct_encode e.channel_id) _ (Lacks-pct_encode 9 e.channel_id (omega arith)),
    split-append 9 (pct_encode e.video_id) _ (Lacks-pct_encode 9 e.video_id (omega arith)),
    split-append 9 (pct_encode e.ts) _ (Lacks-pct_encode 9 e.ts (omega arith)),
    split-last 9 (pct_encode e.title) (Lacks-pct_encode 9 e.title (omega arith)),
  )

  -- Every row of an event with numbers of 64 bits and texts in UTF-8 is read back as that event.
  pub parse_line-row : IsEvent e → parse_line (row e) ≡ some e
  unfolding parse_line
  parse_line-row v = rw (
    split-row,
    parse_columns,
    parse-to_string max_u64 e.seq v.seq_fits,
    parse-to_string max_u64 e.received_at v.received_fits,
    pct_decode-encode e.kind v.kind_utf8,
    pct_decode-encode e.channel_id v.channel_utf8,
    pct_decode-encode e.video_id v.video_utf8,
    pct_decode-encode e.ts v.ts_utf8,
    pct_decode-encode e.title v.title_utf8,
  )

  -- A row is one line of text.
  pub row-utf8 : is_utf8 (row e) ≡ true
  unfolding row
  row-utf8 =
      let num = λ (n : ℕ).
        is_utf8-ascii (to_string n)
          (All-map IsDigit (λ c. c < 128) (λ c d. omega arith) (to_string n) (to_string-All n)) in
      let tab = λ (a b : Bytes) (p : is_utf8 a ≡ true) (q : is_utf8 b ≡ true).
        is_utf8-append a (b'\t' ∷ b) p (is_utf8-cons b'\t' b (omega arith) q) in
      tab _ _ (num e.seq) (
        tab _ _ (num e.received_at) (
          tab _ _ (pct_encode-utf8 e.kind) (
            tab _ _ (pct_encode-utf8 e.channel_id) (
              tab _ _ (pct_encode-utf8 e.video_id)
                (tab _ _ (pct_encode-utf8 e.ts) (pct_encode-utf8 e.title))))))

  pub row-Lacks : (b : ℕ) → IsFraming b → b ≢ b'\t' → Lacks b (row e)
  unfolding row
  row-Lacks b h ne =
      let num = λ (n : ℕ). Lacks-to_string b n h in
      let field = λ (s : Bytes). Lacks-pct_encode b s h in
      let tab = λ (p q : Bytes) (hp : Lacks b p) (hq : Lacks b q).
        All-append (λ c. c ≢ b) p (b'\t' ∷ q) hp (λ t. ne (sym t), hq) in
      tab _ _ (num e.seq) (
        tab _ _ (num e.received_at) (
          tab _ _ (field e.kind) (
            tab _ _ (field e.channel_id)
              (tab _ _ (field e.video_id) (tab _ _ (field e.ts) (field e.title))))))

  -- A row and what follows it are the first line and the others.
  pub lines-format_line : (rest : Bytes) → lines (format_line e ++ rest) ≡ row e ∷ lines rest
  unfolding format_line
  lines-format_line rest = rw (append_assoc (row e) (b'\n' ∷ []) rest) (
      lines-append (row e) rest (row-Lacks b'\n' (omega arith) (omega arith))
        (row-Lacks b'\r' (omega arith) (omega arith)))

  -- The title is part of the row.
  pub length-title-le : length (pct_encode e.title) ≤ length (format_line e)
  unfolding format_line row
  length-title-le = omega (arith, length-append {0}, length-append (row e) (b'\n' ∷ []))
