-- ===== src/Http/Headers.antt =====
-- `ymo_parse_http_crlf`, `ymo_parse_http_headers` and the functions below it, of
-- src/protocol/http/ymo_http_parse.c. The memory of the header table and `strtol` are parameters.
pub mod Steps
pub mod Field
pub mod Space
pub mod Close
pub mod Fuel
use libyimmo.Base.{
  ℕ, zero, suc, ◌+◌, ◌-◌, ◌^◌, bit_and, bit_or, Bool, true, false, ◌&&◌, ◌||◌, Option, none, some,
  List, [], ◌∷◌, ◌++◌, length, drop, leb, ◌==◌, if◌then◌else◌, Status, ebadmsg, efbig, sub_size,
}
use libyimmo.Util.Case.{strcasecmp}
use libyimmo.Http.HeaderTable.{Memory, hash_ch, add_precompute}
use libyimmo.Http.Exchange.{
  HttpState, crlf, header_name, header_value_leading_space, header_value, headers_complete,
  body_chunk_header, body, body_chunk_trailer, complete, Request, Exchange, hash_init, string_at,
  has_flag, flag_version_1_1, flag_request_close, flag_request_keepalive, flag_expect, flag_upgrade,
  flag_chunked, Parsed, took, refused, parse_done,
}

-- What `strtol` gives for a string: its `long`, cast to `size_t`, and whether it has read all.
pub record Strtol : Type 0 where
  pub as_size : ℕ
  pub at_end : Bool

-- `parser_saw_cr`
abbrev pub parser_saw_cr : Exchange → HttpState → Exchange
parser_saw_cr e next = record e { state = crlf; next_state = next }

-- The switch of `ymo_parse_http_crlf`, on the state that is jumped to.
abbrev pub jump : HttpState → Exchange → Exchange
jump header_name e = record e { hdr_name = some (length e.recv_buf) }
jump body_chunk_header e = record e { next_state = body_chunk_trailer }
jump body e = record e { next_state = complete }
jump _ e = e

-- `ymo_parse_http_crlf`, on the first byte of the buffer.
unfoldable pub parse_crlf : Exchange → ℕ → Parsed
parse_crlf e c =
    if c == 0x0A
    then took 1 (jump e.next_state (record e { state = e.next_state }))
    else refused ebadmsg e

-- IS_HTTP_HDR_FIELD_TOKEN
abbrev pub is_field_token : ℕ → Bool
is_field_token c =
    (leb 0x30 c && leb c 0x39)
    || (leb 0x41 c && leb c 0x5A)
    || (leb 0x61 c && leb c 0x7A)
    || c == 0x2D

-- What the two inner parsers return: the count and the bytes behind, or -1 with `errno`.
pub data Part : Type 0 where
  part : ℕ → Exchange → List ℕ → Part
  part_refused : Status → Exchange → Part

abbrev pub part_done : ℕ → Exchange → List ℕ → ℕ → List ℕ → Part
part_done n e buf remain rest =
    if remain == 0
    then part_refused efbig e
    else part n (record e { recv_buf = buf; remain = remain }) rest

abbrev pub hashed : Exchange → ℕ → Exchange
hashed e c = record e { h_id = hash_ch e.h_id c }

-- `parse_http_header_name`
unfoldable pub name_loop : ℕ → Exchange → List ℕ → ℕ → List ℕ → Part
name_loop n e buf remain [] = part_done n e buf remain []
name_loop n e buf remain (c ∷ cs) =
    let more = name_loop (n + 1) (hashed e c) (buf ++ (c ∷ [])) (sub_size remain 1) cs in
    if c == 0x3A
    then part_done (n + 1) (record e { state = header_value_leading_space }) (buf ++ (0 ∷ []))
        (sub_size remain 1) cs
    else if c == 0x0D
    then part_done (n + 1) (parser_saw_cr e headers_complete) buf remain cs
    else if is_field_token c
    then if sub_size remain 1 == 0
      then part_done (n + 1) (hashed e c) (buf ++ (c ∷ [])) (sub_size remain 1) cs
      else more
    else part_refused ebadmsg e

-- The header fields that the parser itself reads: YMO_HTTP_HID_*.
abbrev pub hid_connection : ℕ
hid_connection = 31919

abbrev pub hid_content_length : ℕ
hid_content_length = 12647

abbrev pub hid_expect : ℕ
hid_expect = 20206

abbrev pub hid_upgrade : ℕ
hid_upgrade = 17987

abbrev pub hid_transfer_encoding : ℕ
hid_transfer_encoding = 15812

-- "close", "keep-alive", "100-continue" and "chunked"
abbrev pub text_close : List ℕ
text_close = 0x63 ∷ 0x6C ∷ 0x6F ∷ 0x73 ∷ 0x65 ∷ []

abbrev pub text_keepalive : List ℕ
text_keepalive = 0x6B ∷ 0x65 ∷ 0x65 ∷ 0x70 ∷ 0x2D ∷ 0x61 ∷ 0x6C ∷ 0x69 ∷ 0x76 ∷ 0x65 ∷ []

abbrev pub text_continue : List ℕ
text_continue =
    0x31 ∷ 0x30 ∷ 0x30 ∷ 0x2D ∷ 0x63 ∷ 0x6F ∷ 0x6E ∷ 0x74 ∷ 0x69 ∷ 0x6E ∷ 0x75 ∷ 0x65 ∷ []

abbrev pub text_chunked : List ℕ
text_chunked = 0x63 ∷ 0x68 ∷ 0x75 ∷ 0x6E ∷ 0x6B ∷ 0x65 ∷ 0x64 ∷ []

abbrev pub is_text : List ℕ → List ℕ → Bool
is_text value text = strcasecmp value text == 0

abbrev pub set_flag : ℕ → Request → Request
set_flag flag r = record r { flags = bit_or r.flags flag }

abbrev pub connection_of : List ℕ → Request → Request
connection_of value r =
    if has_flag r.flags flag_version_1_1
    then if is_text value text_close
      then record r { flags = bit_and r.flags flag_request_close }
      else r
    else if is_text value text_keepalive
    then set_flag flag_request_keepalive r
    else r

abbrev pub content_length_of : Strtol → Request → Request
content_length_of number r =
    if number.at_end then record r { content_length = number.as_size } else r

-- The switch of `http_header_got_value`, on the masked id, the string that the
-- value is, and its bytes.
unfoldable pub field_of : (List ℕ → Strtol) → ℕ → List ℕ → List ℕ → Request → Request
unfolding strcasecmp
field_of strtol h_id text value r =
    if h_id == hid_connection
    then connection_of value r
    else if h_id == hid_content_length
    then content_length_of (strtol text) r
    else if h_id == hid_expect
    then if is_text value text_continue then set_flag flag_expect r else r
    else if h_id == hid_upgrade
    then set_flag flag_upgrade r
    else if h_id == hid_transfer_encoding
    then if is_text value text_chunked then set_flag flag_chunked r else r
    else r

-- A string of the receive buffer; no caller has NULL here.
abbrev pub text_at : List ℕ → Option ℕ → List ℕ
text_at buf p = elim (string_at buf p) [ none ↦ [] | some s ↦ s ]

abbrev pub added_header : Memory → ℕ → List ℕ → List ℕ → Request → Request
added_header memory h_id name value r = record r {
  headers = (add_precompute memory r.headers h_id name value).1;
}

-- `http_header_got_value`, on the buffer with the value and its NUL, and the value's bytes.
unfoldable pub got_value : Memory → (List ℕ → Strtol) → Exchange → List ℕ → List ℕ → Exchange
unfolding field_of
got_value memory strtol e buf value =
    let h_id = bit_and e.h_id 0x7FFF in
    record e {
      request =
          field_of strtol h_id (text_at buf e.hdr_value) value
            (added_header memory h_id (text_at buf e.hdr_name) (text_at buf e.hdr_value) e.request);
      h_id = hash_init;
    }

-- The bytes of the value that ends where the buffer does.
abbrev pub value_bytes : List ℕ → Option ℕ → List ℕ
value_bytes buf none = []
value_bytes buf (some p) = drop p buf

-- `parse_http_header_value`: each byte takes one from `remain`, and going on takes one more.
unfoldable pub value_loop : Memory → (List ℕ → Strtol) → ℕ → Exchange → List ℕ → ℕ → List ℕ → Part
unfolding got_value
value_loop memory strtol n e buf remain [] = part_done n e buf remain []
value_loop memory strtol n e buf remain (c ∷ []) =
    if c == 0x0D
    then part_done (n + 1)
        (parser_saw_cr (got_value memory strtol e (buf ++ (0 ∷ [])) (value_bytes buf e.hdr_value))
          header_name)
        (buf ++ (0 ∷ [])) (sub_size remain 1) []
    else part_done (n + 1) e (buf ++ (c ∷ [])) (sub_size remain 1) []
value_loop memory strtol n e buf remain (c ∷ d ∷ cs) =
    let left = sub_size (sub_size remain 1) 1 in
    let more = value_loop memory strtol (n + 1) e (buf ++ (c ∷ [])) left (d ∷ cs) in
    if c == 0x0D
    then part_done (n + 1)
        (parser_saw_cr (got_value memory strtol e (buf ++ (0 ∷ [])) (value_bytes buf e.hdr_value))
          header_name)
        (buf ++ (0 ∷ [])) (sub_size remain 1) (d ∷ cs)
    else if left == 0
    then part_done (n + 1) e (buf ++ (c ∷ [])) left (d ∷ cs)
    else more

-- Behind a part: the exchange's own values are read again, and the loop goes on with the bytes
-- that are left.
abbrev pub behind_part : ℕ → Part → (ℕ → Exchange → List ℕ → Option Parsed) → Option Parsed
behind_part n (part k e rest) more = more (n + k) e rest
behind_part n (part_refused status e) more = some (refused status e)

-- The loop of `ymo_parse_http_headers` on bytes that there are; `none` is for fuel that is too
-- little.
unfoldable pub headers_switch :
    HttpState
    → Memory
    → (List ℕ → Strtol)
    → ℕ
    → Exchange
    → List ℕ
    → ℕ
    → ℕ
    → List ℕ
    → (ℕ → Exchange → List ℕ → ℕ → List ℕ → Option Parsed)
    → Option Parsed
unfolding name_loop value_loop
headers_switch header_name memory strtol n e buf remain c cs again =
    behind_part n (name_loop 0 e buf remain (c ∷ cs))
      (λ n' e' rest. again n' e' e'.recv_buf e'.remain rest)
headers_switch header_value_leading_space memory strtol n e buf remain c cs again =
    if c == 0x20
    then (if remain == 0
        then some (parse_done (n + 1) e buf remain)
        else again (n + 1) e buf remain cs)
    else behind_part n
        (value_loop memory strtol 0
          (record e { hdr_value = some (length buf); state = header_value }) buf remain (c ∷ cs))
        (λ n' e' rest. again n' e' e'.recv_buf e'.remain rest)
headers_switch header_value memory strtol n e buf remain c cs again =
    behind_part n (value_loop memory strtol 0 e buf remain (c ∷ cs))
      (λ n' e' rest. again n' e' e'.recv_buf e'.remain rest)
headers_switch _ memory strtol n e buf remain c cs again = some (parse_done n e buf remain)

unfoldable pub headers_loop :
    ℕ → Memory → (List ℕ → Strtol) → ℕ → Exchange → List ℕ → ℕ → List ℕ → Option Parsed
unfolding headers_switch
headers_loop fuel memory strtol n e buf remain [] = some (parse_done n e buf remain)
headers_loop zero memory strtol n e buf remain (c ∷ cs) = none
headers_loop (suc fuel) memory strtol n e buf remain (c ∷ cs) =
    headers_switch e.state memory strtol n e buf remain c cs
      (λ n' e' buf' remain' rest. headers_loop fuel memory strtol n' e' buf' remain' rest)

-- On the bytes of a buffer that is not empty, with fuel for every byte.
unfoldable pub parse_headers : Memory → (List ℕ → Strtol) → Exchange → List ℕ → Option Parsed
unfolding headers_loop
parse_headers memory strtol e buffer =
    headers_loop (length buffer) memory strtol 0 e e.recv_buf e.remain buffer
