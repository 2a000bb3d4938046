-- ===== src/Http/Exchange.antt =====
-- src/protocol/http/ymo_http_exchange.h and .c: the state of one request while it is parsed. The
-- receive buffer is the list of the bytes before `recv_current`, and a pointer into it an offset.
-- The block allocator of the request is not modelled.
use libyimmo.Base.{
  ℕ, bit_and, Bool, not, Option, none, some, List, [], drop, ◌==◌, if◌then◌else◌, Status, efbig,
}
use libyimmo.Http.HeaderTable.{Table, clear, string_in}

-- `http_state_t`
pub data HttpState : Type 0 where
  connected request_method request_uri_path request_query request_fragment request_version crlf
        header_name header_value_leading_space header_value headers_complete expect
        body_chunk_header body body_chunk_trailer complete :
      HttpState

-- `ymo_http_request_t`
pub record Request : Type 0 where
  pub method : Option ℕ
  pub uri : Option ℕ
  pub version : Option ℕ
  pub query : Option ℕ
  pub fragment : Option ℕ
  pub headers : Table
  pub body_received : ℕ
  pub content_length : ℕ
  pub flags : ℕ

-- `ymo_http_exchange_t`. `body_remain` shares its bytes with the three fields for headers, which
-- the code uses in the phase before.
pub record Exchange : Type 0 where
  pub request : Request
  pub hdr_name : Option ℕ
  pub hdr_value : Option ℕ
  pub h_id : ℕ
  pub body_remain : ℕ
  pub state : HttpState
  pub next_state : HttpState
  pub recv_buf : List ℕ
  pub remain : ℕ

-- YMO_HTTP_FLAG_*, and YMO_HTTP_REQUEST_CHUNKED
abbrev pub flag_version_1_1 : ℕ
flag_version_1_1 = 0x1

abbrev pub flag_request_close : ℕ
flag_request_close = 0xFB

abbrev pub flag_request_keepalive : ℕ
flag_request_keepalive = 0x4

abbrev pub flag_supports_chunked : ℕ
flag_supports_chunked = 0x8

abbrev pub flag_expect : ℕ
flag_expect = 0x10

abbrev pub flag_upgrade : ℕ
flag_upgrade = 0x20

abbrev pub flag_chunked : ℕ
flag_chunked = 0x10000

abbrev pub has_flag : ℕ → ℕ → Bool
has_flag flags flag = not (bit_and flags flag == 0)

-- The initial value of the running hash of a header's name.
abbrev pub hash_init : ℕ
hash_init = 5

-- `ymo_http_exchange_reset`, with YMO_HTTP_RECV_BUF_SIZE as `buf_size`. The state after `reset` is
-- also the one that `ymo_http_exchange_create` leaves.
unfoldable pub reset : ℕ → Exchange → Exchange
reset buf_size e = record {
  request = record {
    method = some 0;
    uri = none;
    version = none;
    query = none;
    fragment = none;
    headers = clear e.request.headers;
    body_received = 0;
    content_length = 0;
    flags = 0;
  };
  hdr_name = none;
  hdr_value = none;
  h_id = hash_init;
  body_remain = 0;
  state = connected;
  next_state = connected;
  recv_buf = [];
  remain = buf_size;
}

-- The string of a pointer into the receive buffer; `none` for NULL.
abbrev pub string_at : List ℕ → Option ℕ → Option (List ℕ)
string_at buf none = none
string_at buf (some offset) = string_in (drop offset buf)

-- What the parse functions return: a count of bytes, or -1 with `errno`.
pub data Parsed : Type 0 where
  took : ℕ → Exchange → Parsed
  refused : Status → Exchange → Parsed

-- The end of each parse function, with its local `recv_current` and `remain`: where the buffer is
-- full, the request is too large, and the exchange keeps its own values.
abbrev pub parse_done : ℕ → Exchange → List ℕ → ℕ → Parsed
parse_done n e buf remain =
    if remain == 0 then refused efbig e else took n (record e { recv_buf = buf; remain = remain })
