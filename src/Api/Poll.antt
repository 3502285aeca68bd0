-- ===== src/Api/Poll.antt =====
-- What a client of src/api.rs gets that polls with a cursor, and what its acknowledgement does.
use yt_websub.Prelude.{
  ℕ, ◌≤◌, ◌<◌, ◌+◌, min, true, Option, some, get_or, [], ◌∷◌, ◌++◌, ◌≡◌, refl, ap, ◌∙◌, arith,
  Bytes, codes, ◌=b◌, ◌>>=◌, All, All-append, All-map, length, length-append, drop, take, take_all,
}
use yt_websub.Prelude.Maps.{Table, get}
use yt_websub.Text.Find.{find}
use yt_websub.Text.Number.{
  max_u64, to_string, parse, parse-to_string, is_digit, IsDigit, to_string-All, to_string-length,
}
use yt_websub.Text.Pieces.{strip_prefix}
use yt_websub.Text.Space.{trim_start, trim_start-IsGraphic}
use yt_websub.Text.Utf8.{is_utf8, is_utf8-ascii, from_utf8_lossy, from_utf8_lossy-valid}
use yt_websub.Util.Query.{query_text, query_get-query_text, IsTextPair}
use yt_websub.Store.{events_after, max_seq, set_ack}
use yt_websub.App.{App, Request, json, get_method, post_method}
use yt_websub.Api.{
  World, is_authed, handle, route, get_events, post_ack, after_param, limit_param, number_param,
}
use yt_websub.Api.Body.{max_body, read_body, quoted, take_digits, extract_u64}
use yt_websub.Api.Json.{events_json}

abbrev IsAscii : ℕ → Type 0
IsAscii b = b < 128

to_string-utf8 : (n : ℕ) → is_utf8 (to_string n) ≡ true
to_string-utf8 n =
    is_utf8-ascii (to_string n)
      (All-map IsDigit IsAscii (λ b h. omega arith) (to_string n) (to_string-All n))

-- The query of a poll.
abbrev pub poll_query : ℕ → ℕ → Table Bytes
poll_query after limit = (codes "after", to_string after) ∷ (codes "max", to_string limit) ∷ []

after-utf8 : is_utf8 (codes "after") ≡ true
after-utf8 = is_utf8-ascii (codes "after") (omega arith)

max-utf8 : is_utf8 (codes "max") ≡ true
max-utf8 = is_utf8-ascii (codes "max") (omega arith)

module _ (after limit : ℕ) where
  poll_query-All : All IsTextPair (poll_query after limit)
  poll_query-All = ((after-utf8, to_string-utf8 after), ((max-utf8, to_string-utf8 limit), tt))

  -- A number of the query.
  number_param-poll :
      (key : Bytes) (n default : ℕ)
      → get key (poll_query after limit) ≡ some (to_string n)
      → n ≤ max_u64
      → number_param (query_text (poll_query after limit)) key default ≡ n
  number_param-poll key n default found small =
      ap (λ (o : Option Bytes). get_or (o >>= parse max_u64) default)
        (query_get-query_text key (poll_query after limit) poll_query-All ∙ found)
      ∙ ap (λ (o : Option ℕ). get_or o default) (parse-to_string max_u64 n small)

digits_end : (s rest : Bytes) → All IsDigit s → take_digits (s ++ b'}' ∷ rest) ≡ s
unfolding take_digits is_digit
digits_end [] rest h = refl
digits_end (c ∷ s) rest h = ground (arith, digits_end s rest (h.1))

-- The body of an acknowledgement.
abbrev pub ack_body : ℕ → Bytes
ack_body n = codes "{\"through\":" ++ (to_string n ++ codes "}")

ack_body-utf8 : (n : ℕ) → is_utf8 (ack_body n) ≡ true
ack_body-utf8 n = is_utf8-ascii (ack_body n) (
    All-append IsAscii (codes "{\"through\":") (to_string n ++ codes "}") (omega arith) (
      All-append IsAscii (to_string n) (codes "}")
        (All-map IsDigit IsAscii (λ b h. omega arith) (to_string n) (to_string-All n))
        (omega arith)))

trim_start-digits :
    (s rest : Bytes) → All IsDigit s → trim_start (s ++ b'}' ∷ rest) ≡ s ++ b'}' ∷ rest
trim_start-digits [] rest h = trim_start-IsGraphic b'}' rest (omega arith)
trim_start-digits (c ∷ s) rest h =
    trim_start-IsGraphic c (s ++ b'}' ∷ rest) (let here = h.0 in omega arith)

ack_body-find : (n : ℕ) → find (quoted (codes "through")) (ack_body n) ≡ some 1
unfolding find yt_websub.Text.Pieces.starts_with
ack_body-find n = refl

-- What stands behind the key.
number_behind : Bytes → Option ℕ
number_behind t =
    strip_prefix (codes ":") t >>= λ rest. parse max_u64 (take_digits (trim_start rest))

ack_body-length : (n : ℕ) → n ≤ max_u64 → length (ack_body n) ≤ max_body
ack_body-length n small =
    let digits = to_string-length n 19 (omega arith) in
    let tail = length-append (to_string n) (codes "}") in omega arith

extract_u64-ack_body : (n : ℕ) → n ≤ max_u64 → extract_u64 (ack_body n) (codes "through") ≡ some n
unfolding extract_u64 strip_prefix number_behind
extract_u64-ack_body n small =
    let digits = to_string-All n in
    ap
      (λ (o : Option ℕ). o >>= λ pos.
        number_behind (trim_start (drop (pos + length (quoted (codes "through"))) (ack_body n))))
      (ack_body-find n)
    ∙ ap number_behind (trim_start-IsGraphic b':' (to_string n ++ codes "}") (omega arith))
    ∙ ap (λ (t : Bytes). parse max_u64 (take_digits t)) (trim_start-digits (to_string n) [] digits)
    ∙ ap (parse max_u64) (digits_end (to_string n) [] digits)
    ∙ parse-to_string max_u64 n small

module _ (w : World) (r : Request) (app : App)
    (authed : is_authed app.cfg.bearer_token r ≡ true) where
  -- A client that has the token and acknowledges a number of 64 bits moves the acknowledged number of
  -- the store to it as set_ack does, and changes nothing else.
  pub handle-acked :
      (query : Bytes) (n : ℕ)
      → r.method ≡ post_method
      → r.body ≡ ack_body n
      → n ≤ max_u64
      → (handle w r (codes "/api/ack") query app).0
        ≡ record app { store = set_ack w.ack_fate n app.store }
  unfolding handle route ◌=b◌ post_ack read_body
  handle-acked query n post body small =
      let read =
        ap (λ (b : Bytes). from_utf8_lossy (take max_body b)) body
        ∙ ap from_utf8_lossy (take_all max_body (ack_body n) (ack_body-length n small))
        ∙ from_utf8_lossy-valid (ack_body n) (ack_body-utf8 n) in
      rw (authed, post)
        (ap (λ (o : Option ℕ). record app { store = set_ack w.ack_fate (get_or o 0) app.store })
          (ap (λ (t : Bytes). extract_u64 t (codes "through")) read ∙ extract_u64-ack_body n small))

  -- A client that has the token and polls with a cursor and a limit, numbers of 64 bits, gets the
  -- events of events_after for the cursor and the limit, of which at most 2000 count, and the newest
  -- number; nothing changes.
  pub handle-polled :
      (after limit : ℕ)
      → r.method ≡ get_method
      → after ≤ max_u64
      → limit ≤ max_u64
      → handle w r (codes "/api/events") (query_text (poll_query after limit)) app ≡ (
        app,
        json 200 (events_json (events_after after (min limit 2000) app.store) (max_seq app.store)),
      )
  unfolding handle route ◌=b◌ get_events after_param limit_param get
  handle-polled after limit get small_after small_limit =
      rw (authed, get)
        (ap
            (λ (k : ℕ). (
              app,
              json 200 (
                  events_json
                    (events_after k (limit_param (query_text (poll_query after limit))) app.store)
                    (max_seq app.store)),
            ))
            (number_param-poll after limit (codes "after") after 0 refl small_after)
          ∙ ap
              (λ (k : ℕ). (
                app,
                json 200
                    (events_json (events_after after (min k 2000) app.store) (max_seq app.store)),
              ))
              (number_param-poll after limit (codes "max") limit 500 refl small_limit))
