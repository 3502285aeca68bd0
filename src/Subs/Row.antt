-- ===== src/Subs/Row.antt =====
-- The rows of subs.tsv, `fmt_line` and `parse_line` of src/subs.rs.
use yt_websub.Prelude.{
  ℕ, ◌≤◌, ◌<◌, true, some, [], ◌∷◌, ◌++◌, ◌≡◌, ◌≢◌, sym, arith, Bytes, All, All-append, All-map,
}
use yt_websub.Text.Number.{max_u64, max_u32, to_string, parse-to_string, IsDigit, to_string-All}
use yt_websub.Text.Pieces.{split, split-append, split-last, Lacks}
use yt_websub.Text.Space.{IsGraphic}
use yt_websub.Text.Utf8.{is_utf8, is_utf8-append, is_utf8-cons, is_utf8-ascii}
use yt_websub.Util.Framed.{IsFraming, Lacks-to_string, Lacks-pct_encode, Lacks-graphic}
use yt_websub.Util.Pct.{pct_encode, pct_decode-encode, pct_encode-utf8}
use yt_websub.Subs.{Sub}
use yt_websub.Subs.Rows.{columns, clamp_error, parse_line, parse_columns}
use yt_websub.Subs.Clamp.{clamp_error-utf8}

-- What the program keeps to: texts of graphic characters but for the hub's verdict, which is any
-- UTF-8, and numbers that fit their types.
pub record IsSub (s : Sub) : Type 0 where
  pub channel_graphic : All IsGraphic (s.channel_id)
  pub token_graphic : All IsGraphic (s.token)
  pub topic_graphic : All IsGraphic (s.topic)
  pub secret_graphic : All IsGraphic (s.secret)
  pub state_graphic : All IsGraphic (s.state)
  pub lease_fits : s.lease_seconds ≤ max_u64
  pub expires_fits : s.expires_at ≤ max_u64
  pub last_fits : s.last_subscribe_at ≤ max_u64
  pub fails_fit : s.fail_count ≤ max_u32
  pub next_fits : s.next_attempt_at ≤ max_u64
  pub error_utf8 : is_utf8 (s.last_error) ≡ true

-- The same subscription with its verdict cut to 200 characters.
abbrev pub clamped : Sub → Sub
clamped s = record s { last_error = clamp_error (s.last_error) }

-- The ten columns of an older build.
unfoldable pub legacy_columns : Sub → Bytes
legacy_columns s =
    s.channel_id
    ++ b'\t'
      ∷ (s.token
          ++ b'\t'
            ∷ (s.topic
                ++ b'\t'
                  ∷ (s.secret
                      ++ b'\t'
                        ∷ (s.state
                            ++ b'\t'
                              ∷ (to_string (s.lease_seconds)
                                  ++ b'\t'
                                    ∷ (to_string (s.expires_at)
                                        ++ b'\t'
                                          ∷ (to_string (s.last_subscribe_at)
                                              ++ b'\t'
                                                ∷ (to_string (s.fail_count)
                                                    ++ b'\t'
                                                      ∷ (to_string (s.next_attempt_at))))))))))

module _ (s : Sub) (v : IsSub s) where
  split-columns :
      split b'\t' (columns s)
      ≡ s.channel_id
        ∷ s.token
        ∷ s.topic
        ∷ s.secret
        ∷ s.state
        ∷ to_string (s.lease_seconds)
        ∷ to_string (s.expires_at)
        ∷ to_string (s.last_subscribe_at)
        ∷ to_string (s.fail_count)
        ∷ to_string (s.next_attempt_at)
        ∷ pct_encode (clamp_error (s.last_error))
        ∷ []
  unfolding columns
  split-columns = rw (
    split-append 9 (s.channel_id) _
        (Lacks-graphic 9 (s.channel_id) (omega arith) (v.channel_graphic)),
    split-append 9 (s.token) _ (Lacks-graphic 9 (s.token) (omega arith) (v.token_graphic)),
    split-append 9 (s.topic) _ (Lacks-graphic 9 (s.topic) (omega arith) (v.topic_graphic)),
    split-append 9 (s.secret) _ (Lacks-graphic 9 (s.secret) (omega arith) (v.secret_graphic)),
    split-append 9 (s.state) _ (Lacks-graphic 9 (s.state) (omega arith) (v.state_graphic)),
    split-append 9 (to_string (s.lease_seconds)) _
        (Lacks-to_string 9 (s.lease_seconds) (omega arith)),
    split-append 9 (to_string (s.expires_at)) _ (Lacks-to_string 9 (s.expires_at) (omega arith)),
    split-append 9 (to_string (s.last_subscribe_at)) _
        (Lacks-to_string 9 (s.last_subscribe_at) (omega arith)),
    split-append 9 (to_string (s.fail_count)) _ (Lacks-to_string 9 (s.fail_count) (omega arith)),
    split-append 9 (to_string (s.next_attempt_at)) _
        (Lacks-to_string 9 (s.next_attempt_at) (omega arith)),
    split-last 9 (pct_encode (clamp_error (s.last_error)))
        (Lacks-pct_encode 9 (clamp_error (s.last_error)) (omega arith)),
  )

  -- A row is read back as the subscription it was written from, with its verdict cut to 200
  -- characters, if its texts are graphic, its verdict is UTF-8 and its numbers fit their types.
  pub parse_line-columns : parse_line (columns s) ≡ some (clamped s)
  unfolding parse_line
  parse_line-columns = rw (
    split-columns,
    parse_columns,
    parse-to_string max_u64 (s.lease_seconds) (v.lease_fits),
    parse-to_string max_u64 (s.expires_at) (v.expires_fits),
    parse-to_string max_u64 (s.last_subscribe_at) (v.last_fits),
    parse-to_string max_u32 (s.fail_count) (v.fails_fit),
    parse-to_string max_u64 (s.next_attempt_at) (v.next_fits),
    pct_decode-encode (clamp_error (s.last_error)) (clamp_error-utf8 (s.last_error) (v.error_utf8)),
  )

  split-legacy :
      split b'\t' (legacy_columns s)
      ≡ s.channel_id
        ∷ s.token
        ∷ s.topic
        ∷ s.secret
        ∷ s.state
        ∷ to_string (s.lease_seconds)
        ∷ to_string (s.expires_at)
        ∷ to_string (s.last_subscribe_at)
        ∷ to_string (s.fail_count)
        ∷ to_string (s.next_attempt_at)
        ∷ []
  unfolding legacy_columns
  split-legacy = rw (
    split-append 9 (s.channel_id) _
        (Lacks-graphic 9 (s.channel_id) (omega arith) (v.channel_graphic)),
    split-append 9 (s.token) _ (Lacks-graphic 9 (s.token) (omega arith) (v.token_graphic)),
    split-append 9 (s.topic) _ (Lacks-graphic 9 (s.topic) (omega arith) (v.topic_graphic)),
    split-append 9 (s.secret) _ (Lacks-graphic 9 (s.secret) (omega arith) (v.secret_graphic)),
    split-append 9 (s.state) _ (Lacks-graphic 9 (s.state) (omega arith) (v.state_graphic)),
    split-append 9 (to_string (s.lease_seconds)) _
        (Lacks-to_string 9 (s.lease_seconds) (omega arith)),
    split-append 9 (to_string (s.expires_at)) _ (Lacks-to_string 9 (s.expires_at) (omega arith)),
    split-append 9 (to_string (s.last_subscribe_at)) _
        (Lacks-to_string 9 (s.last_subscribe_at) (omega arith)),
    split-append 9 (to_string (s.fail_count)) _ (Lacks-to_string 9 (s.fail_count) (omega arith)),
    split-last 9 (to_string (s.next_attempt_at))
        (Lacks-to_string 9 (s.next_attempt_at) (omega arith)),
  )

  -- A row of an older build, which has no verdict, is read as the subscription without one, under
  -- the same conditions.
  pub parse_line-legacy : parse_line (legacy_columns s) ≡ some (record s { last_error = [] })
  unfolding parse_line
  parse_line-legacy = rw (
    split-legacy,
    parse_columns,
    parse-to_string max_u64 (s.lease_seconds) (v.lease_fits),
    parse-to_string max_u64 (s.expires_at) (v.expires_fits),
    parse-to_string max_u64 (s.last_subscribe_at) (v.last_fits),
    parse-to_string max_u32 (s.fail_count) (v.fails_fit),
    parse-to_string max_u64 (s.next_attempt_at) (v.next_fits),
  )

  -- A row is one line of UTF-8.
  pub columns-utf8 : is_utf8 (columns s) ≡ true
  unfolding columns
  columns-utf8 =
      let num = λ (n : ℕ).
        is_utf8-ascii (to_string n)
          (All-map IsDigit (λ c. c < 128) (λ c d. omega arith) (to_string n) (to_string-All n)) in
      let text = λ (t : Bytes) (g : All IsGraphic t).
        is_utf8-ascii t (All-map IsGraphic (λ c. c < 128) (λ c d. omega arith) t g) in
      let tab = λ (a b : Bytes) (p : is_utf8 a ≡ true) (q : is_utf8 b ≡ true).
        is_utf8-append a (b'\t' ∷ b) p (is_utf8-cons b'\t' b (omega arith) q) in
      tab _ _ (text (s.channel_id) (v.channel_graphic)) (
        tab _ _ (text (s.token) (v.token_graphic)) (
          tab _ _ (text (s.topic) (v.topic_graphic)) (
            tab _ _ (text (s.secret) (v.secret_graphic)) (
              tab _ _ (text (s.state) (v.state_graphic)) (
                tab _ _ (num (s.lease_seconds)) (
                  tab _ _ (num (s.expires_at)) (
                    tab _ _ (num (s.last_subscribe_at)) (
                      tab _ _ (num (s.fail_count)) (
                        tab _ _ (num (s.next_attempt_at))
                          (pct_encode-utf8 (clamp_error (s.last_error))))))))))))

  pub columns-Lacks : (b : ℕ) → IsFraming b → b ≢ b'\t' → Lacks b (columns s)
  unfolding columns
  columns-Lacks b h ne =
      let num = λ (n : ℕ). Lacks-to_string b n h in
      let text = λ (t : Bytes) (g : All IsGraphic t). Lacks-graphic b t h g in
      let tab = λ (p q : Bytes) (hp : Lacks b p) (hq : Lacks b q).
        All-append (λ c. c ≢ b) p (b'\t' ∷ q) hp (λ t. ne (sym t), hq) in
      tab _ _ (text (s.channel_id) (v.channel_graphic)) (
        tab _ _ (text (s.token) (v.token_graphic)) (
          tab _ _ (text (s.topic) (v.topic_graphic)) (
            tab _ _ (text (s.secret) (v.secret_graphic)) (
              tab _ _ (text (s.state) (v.state_graphic)) (
                tab _ _ (num (s.lease_seconds)) (
                  tab _ _ (num (s.expires_at)) (
                    tab _ _ (num (s.last_subscribe_at)) (
                      tab _ _ (num (s.fail_count)) (
                        tab _ _ (num (s.next_attempt_at))
                          (Lacks-pct_encode b (clamp_error (s.last_error)) h))))))))))
