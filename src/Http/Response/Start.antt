-- ===== src/Http/Response/Start.antt =====
-- `ymo_http_response_start` and `should_buffer_body` of src/protocol/http/ymo_http_response.c: the
-- status line and the header fields of a response, in one buffer.
use libyimmo.Base.{
  ℕ, zero, suc, ◌+◌, ◌-◌, ◌/◌, ◌%◌, ◌^◌, bit_or, Bool, true, false, ◌||◌, Option, none, some, List,
  [], ◌∷◌, ◌++◌, length, ltb, leb, ◌==◌, if◌then◌else◌, Status, okay, einval, enomem,
}
use libyimmo.Core.Bucket.{Bucket, len}
use libyimmo.Http.HeaderTable.{
  Memory, Node, Table, Found, nothing, string, block_at, freed, found, get_id, insert,
  insert_precompute,
}
use libyimmo.Http.HeaderTable.Iterate.{walk, next_node}
use libyimmo.Http.Exchange.{has_flag, flag_supports_chunked}
use libyimmo.Http.Headers.{hid_content_length, hid_transfer_encoding}
use libyimmo.Http.Session.{Response, response_complete}
use libyimmo.Http.Response.{response_chunked}

-- YMO_HTTP_SEND_BUF_SIZE
abbrev pub send_buf_size : ℕ
send_buf_size = 1024

-- "%zu" of printf: a size_t has at most twenty digits.
unfoldable pub decimal_loop : ℕ → ℕ → List ℕ → List ℕ
decimal_loop zero n text = text
decimal_loop (suc rounds) n text =
    let more = decimal_loop rounds (n / 10) ((n % 10 + 0x30) ∷ text) in
    if n / 10 == 0 then (n % 10 + 0x30) ∷ text else more

abbrev pub sum_len : ℕ → List Bucket → ℕ
sum_len n [] = n
sum_len n (b ∷ body) = sum_len ((n + len b) % 2 ^ 64) body

-- "Content-Length", "Transfer-Encoding" and "Chunked"
abbrev pub text_content_length : List ℕ
text_content_length =
    0x43 ∷ 0x6F ∷ 0x6E ∷ 0x74 ∷ 0x65 ∷ 0x6E ∷ 0x74 ∷ 0x2D ∷ 0x4C ∷ 0x65 ∷ 0x6E ∷ 0x67 ∷ 0x74 ∷ 0x68
    ∷ []

abbrev pub text_transfer_encoding : List ℕ
text_transfer_encoding =
    0x54 ∷ 0x72 ∷ 0x61 ∷ 0x6E ∷ 0x73 ∷ 0x66 ∷ 0x65 ∷ 0x72 ∷ 0x2D ∷ 0x45 ∷ 0x6E ∷ 0x63 ∷ 0x6F ∷ 0x64
    ∷ 0x69 ∷ 0x6E ∷ 0x67 ∷ []

abbrev pub text_chunked_title : List ℕ
text_chunked_title = 0x43 ∷ 0x68 ∷ 0x75 ∷ 0x6E ∷ 0x6B ∷ 0x65 ∷ 0x64 ∷ []

abbrev pub is_set : Found → Bool
is_set nothing = false
is_set _ = true

-- Whether the body is to be buffered, and the response with the header that says its length.
unfoldable pub should_buffer_body : Memory → Response → Bool × Response
unfolding decimal_loop
should_buffer_body m r =
    let total = sum_len r.content_len r.body in
    if is_set (get_id r.headers hid_content_length)
      || is_set (get_id r.headers hid_transfer_encoding)
    then (false, r)
    else if has_flag r.flags response_complete
    then (
      false,
      record r {
        content_len = total;
        headers =
            (insert_precompute m r.headers hid_content_length text_content_length
              (decimal_loop 20 total [])).1;
      },
    )
    else if has_flag r.flags flag_supports_chunked
    then (
      false,
      record r {
        headers = (insert m r.headers text_transfer_encoding text_chunked_title).1;
        flags = bit_or r.flags response_chunked;
      },
    )
    else (true, r)

-- What is written so far, with the space behind it; or ENOMEM; or something is written behind the
-- buffer, or a value is read that has no NUL or is freed.
pub data Filling : Type 0 where
  filling : List ℕ → ℕ → Filling
  no_space overrun : Filling

-- The bytes of a C string in a block
abbrev pub until_nul : List ℕ → Option (List ℕ)
until_nul [] = none
until_nul (zero ∷ bytes) = some []
until_nul (suc b ∷ bytes) = elim (until_nul bytes) [ none ↦ none | some rest ↦ some (suc b ∷ rest) ]

abbrev pub text_of : Found → Option (List ℕ)
text_of nothing = none
text_of (string v) = some v
text_of (block_at bytes) = until_nul bytes
text_of freed = none

-- `memccpy` of the value with the space that is left, which finds the NUL in that space or not, and
-- the line end.
abbrev pub add_value : List ℕ → ℕ → Option (List ℕ) → Filling
add_value out remain none = overrun
add_value out remain (some value) =
    if ltb remain (length value + 1)
    then no_space
    else if leb 2 (remain - length value)
    then filling (out ++ (value ++ (0x0D ∷ 0x0A ∷ []))) (remain - length value - 2)
    else no_space

-- The test lets a name pass that is up to three bytes longer than the space for it and its ": ".
abbrev pub add_field : List ℕ → ℕ → Node → Filling
add_field out remain n =
    if ltb (length n.hdr) (remain + 2)
    then if leb (length n.hdr + 2) remain
      then add_value (out ++ (n.hdr ++ (0x3A ∷ 0x20 ∷ []))) (remain - length n.hdr - 2)
          (text_of (found n))
      else overrun
    else no_space

abbrev pub and_fields : (List ℕ → ℕ → Filling) → Filling → Filling
and_fields more (filling out remain) = more out remain
and_fields more no_space = no_space
and_fields more overrun = overrun

-- The loop over the fields, and the line end behind them.
unfoldable pub add_fields : List Node → List ℕ → ℕ → Filling
add_fields [] out remain =
    if ltb remain 2 then no_space else filling (out ++ (0x0D ∷ 0x0A ∷ [])) (remain - 2)
add_fields (n ∷ ns) out remain = and_fields (add_fields ns) (add_field out remain n)

-- "HTTP/1.1 "
abbrev pub text_version : List ℕ
text_version = 0x48 ∷ 0x54 ∷ 0x54 ∷ 0x50 ∷ 0x2F ∷ 0x31 ∷ 0x2E ∷ 0x31 ∷ 0x20 ∷ []

abbrev pub status_line : List ℕ → List ℕ
status_line status_str = text_version ++ (status_str ++ (0x0D ∷ 0x0A ∷ []))

-- The bucket, a NULL with its errno, or a write behind the buffer.
pub data Started : Type 0 where
  started : Bucket → Started
  refused : Status → Started
  stray : Started

abbrev pub started_with : Filling → Started
started_with (filling out remain) = started (record { content = out; bytes_sent = 0 })
started_with no_space = refused enomem
started_with overrun = stray

abbrev pub serialized : ℕ → List ℕ → Table → Started
serialized nodes status_str headers =
    let fields = walk nodes headers (next_node headers none) in
    if ltb send_buf_size (length status_str + 11)
    then refused enomem
    else started_with
        (add_fields fields (status_line status_str) (send_buf_size - (11 + length status_str)))

-- Where there is memory for the buffer and the bucket; the first number bounds the nodes that the
-- walk comes by.
unfoldable pub response_start : Memory → ℕ → List ℕ → Response → Started × Response
unfolding should_buffer_body add_fields
response_start m nodes status_str r =
    let buffer = should_buffer_body m r in
    if length status_str == 0
    then (refused einval, r)
    else (if buffer.0 then refused okay else serialized nodes status_str buffer.1.headers, buffer.1)
