-- ===== src/Http/Response.antt =====
-- The body of a response: `ymo_http_response_body_append` and `ymo_http_response_body_get` of
-- src/protocol/http/ymo_http_response.c, and what `ymo_proto_http_write` of ymo_proto_http.c puts in
-- the session's send buffer once the response is started. The allocation of buckets succeeds.
pub mod Hex
pub mod RoundTrip
pub mod Start
pub mod Text
use libyimmo.Base.{
  ℕ, zero, suc, ◌+◌, ◌/◌, ◌%◌, ◌^◌, bit_or, Bool, true, false, ◌&&◌, not, Option, none, some, List,
  [], ◌∷◌, ◌++◌, length, take, ltb, leb, ◌==◌, if◌then◌else◌,
}
use libyimmo.Core.Bucket.{Bucket, len, append, create}
use libyimmo.Http.Exchange.{has_flag, flag_supports_chunked}
use libyimmo.Http.Session.{Response, response_ready, response_complete}

-- YMO_HTTP_RESPONSE_CHUNKED and YMO_HTTP_RESPONSE_CHUNK_TERM
abbrev pub response_chunked : ℕ
response_chunked = 2 ^ 27

abbrev pub response_chunk_term : ℕ
response_chunk_term = 2 ^ 28

-- "%zx" of printf: a size_t has at most sixteen digits.
abbrev pub hex_digit : ℕ → ℕ
hex_digit d = if ltb d 10 then d + 0x30 else d + 0x57

unfoldable pub hex_loop : ℕ → ℕ → List ℕ → List ℕ
hex_loop zero n text = text
hex_loop (suc rounds) n text =
    let more = hex_loop rounds (n / 16) (hex_digit (n % 16) ∷ text) in
    if n / 16 == 0 then hex_digit (n % 16) ∷ text else more

-- "%zx\r\n"
abbrev pub chunk_text : ℕ → List ℕ
chunk_text n = hex_loop 16 n [] ++ (0x0D ∷ 0x0A ∷ [])

-- The copy of `chunk_hdr_buf`, which has eight bytes: `snprintf` writes six of the text at most and
-- a NUL behind them, and returns the length of the whole text, which is the number of bytes copied.
-- The last byte of the buffer is never written. `none` where the copy goes past the buffer.
unfoldable pub chunk_hdr : ℕ → Option (List ℕ)
unfolding hex_loop
chunk_hdr n =
    let no_chars = length (chunk_text n) in
    if leb no_chars 8 then some (take no_chars (take 6 (chunk_text n) ++ (0 ∷ 0 ∷ []))) else none

-- A bucket of its own for some bytes.
abbrev pub from_cpy : List ℕ → Bucket
from_cpy content = record { content = content; bytes_sent = 0 }

-- One turn of the loop: the bucket between its header and a line end, in front of the turns behind.
abbrev pub chunked : Option (List ℕ) → Bucket → Option (List Bucket) → Option (List Bucket)
chunked none b rest = none
chunked (some hdr) b none = none
chunked (some hdr) b (some rest) =
    some (append (from_cpy hdr ∷ b ∷ from_cpy (0x0D ∷ 0x0A ∷ []) ∷ []) rest)

unfoldable pub chunk_loop : List Bucket → Option (List Bucket)
chunk_loop [] = some []
chunk_loop (b ∷ body) = chunked (chunk_hdr (len b)) b (chunk_loop body)

-- The chain and the response without it.
unfoldable pub body_get : Response → Option (List Bucket) × Response
body_get r =
    let out = if has_flag r.flags response_chunked then chunk_loop r.body else some r.body in
    (out, record r { body = [] })

-- A chain `body_data` behind the body, which it becomes where that is NULL, and the state of the
-- connection's watcher for writing.
unfoldable pub body_append : Response → Bool → List Bucket → Response × Bool
body_append r tx_enabled body_data =
    let r1 = record r { body = r.body ++ body_data } in
    if has_flag r.flags flag_supports_chunked
    then (record r1 { flags = bit_or r.flags response_ready }, true)
    else (r1, tx_enabled)

-- Here as in `with_body` the chain that is added becomes the send buffer where that is NULL. The
-- terminal chunk, "0\r\n\r\n".
abbrev pub chunk_term : Bucket
chunk_term = from_cpy (0x30 ∷ 0x0D ∷ 0x0A ∷ 0x0D ∷ 0x0A ∷ [])

abbrev pub terminated : List Bucket → Response → List Bucket × Response
terminated send_buffer r =
    if has_flag r.flags response_complete
      && (has_flag r.flags response_chunked && not (has_flag r.flags response_chunk_term))
    then (send_buffer ++ (chunk_term ∷ []), record r { flags = bit_or r.flags response_chunk_term })
    else (send_buffer, r)

abbrev pub with_body :
    List Bucket → Option (List Bucket) × Response → Option (List Bucket × Response)
with_body send_buffer (none, r) = none
with_body send_buffer (some body_data, r) = some (terminated (send_buffer ++ body_data) r)

-- What the write callback adds to the send buffer.
unfoldable pub fill : List Bucket → Response → Option (List Bucket × Response)
fill send_buffer r = with_body send_buffer (body_get r)
