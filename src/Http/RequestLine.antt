-- ===== src/Http/RequestLine.antt =====
-- `ymo_parse_http_request_line` and `check_request` of src/protocol/http/ymo_http_parse.c.
pub mod Split
pub mod Steps
pub mod RoundTrip
use libyimmo.Base.{
  ℕ, ◌+◌, ◌-◌, bit_or, Bool, true, false, ◌&&◌, ◌||◌, Option, none, some, List, [], ◌∷◌, ◌++◌,
  length, get_or, leb, ◌==◌, if◌then◌else◌, Status, okay, einval, sub_size,
}
use libyimmo.Http.Exchange.{
  HttpState, request_method, request_uri_path, request_query, request_fragment, request_version,
  crlf, header_name, Request, Exchange, flag_version_1_1, flag_supports_chunked,
  flag_request_keepalive, Parsed, took, refused, parse_done,
}

-- IS_HTTP_METHOD_TOKEN
abbrev pub is_method_token : ℕ → Bool
is_method_token c = (leb 0x41 c && leb c 0x5A) || c == 0x2D

-- What one byte does: it is stored, or it ends an item and starts the next (the state, and the
-- pointer that is set), or it ends the line, or it is refused.
pub data LineStep : Type 0 where
  store : LineStep
  item : HttpState → (ℕ → Request → Request) → LineStep
  line_end : LineStep
  reject : LineStep
  outside : LineStep

abbrev pub set_uri : ℕ → Request → Request
set_uri p r = record r { uri = some p }

abbrev pub set_query : ℕ → Request → Request
set_query p r = record r { query = some p }

abbrev pub set_fragment : ℕ → Request → Request
set_fragment p r = record r { fragment = some p }

abbrev pub set_version : ℕ → Request → Request
set_version p r = record r { version = some p }

unfoldable pub line_step : HttpState → ℕ → LineStep
line_step request_method c =
    if is_method_token c then store else if c == 0x20 then item request_uri_path set_uri else reject
line_step request_uri_path c =
    if c == 0x3F
    then item request_query set_query
    else if c == 0x23
    then item request_fragment (λ p r. set_fragment p (record r { query = none }))
    else if c == 0x20
    then item request_version (λ p r. set_version p (record r { query = none; fragment = none }))
    else store
line_step request_query c =
    if c == 0x23
    then item request_fragment set_fragment
    else if c == 0x20
    then item request_version (λ p r. set_version p (record r { fragment = none }))
    else store
line_step request_fragment c = if c == 0x20 then item request_version set_version else store
line_step request_version c = if c == 0x0D then line_end else store
line_step _ c = outside

-- The version string in the buffer, from its offset; no caller has NULL here.
abbrev pub version_at : Exchange → ℕ
version_at e = elim e.request.version [ none ↦ 0 | some p ↦ p ]

-- `check_request`, where it accepts: only the bytes for the two digits are looked at.
abbrev pub version_flags : ℕ → ℕ → ℕ → Option ℕ
version_flags c5 c7 flags =
    if c5 == 0x31 && c7 == 0x31
    then some (bit_or flags (flag_version_1_1 + flag_supports_chunked + flag_request_keepalive))
    else if c5 == 0x31 && c7 == 0x30
    then some flags
    else none

unfoldable pub check_request : Exchange → List ℕ → Option ℕ
check_request e buf =
    let p = version_at e in
    if length buf - p == 8
    then version_flags (get_or buf (p + 5) 0) (get_or buf (p + 7) 0) e.request.flags
    else none

-- The end of the line, at the carriage return: its NUL is written, and not counted in `remain`.
unfoldable pub line_done : ℕ → Exchange → List ℕ → ℕ → Option ℕ → Parsed
line_done n e buf remain (some flags) =
    parse_done (n + 1)
      (record e {
        request = record e.request { flags = flags };
        state = crlf;
        next_state = header_name;
      })
      (buf ++ (0 ∷ [])) remain
line_done n e buf remain none = refused einval (record e { recv_buf = buf })

abbrev pub next_item : Exchange → HttpState → (ℕ → Request → Request) → List ℕ → Exchange
next_item e state set buf = record e { request = set (length buf + 1) e.request; state = state }

-- Behind a byte: the loop goes on while there is space, with `more`.
abbrev pub go_on : ℕ → Exchange → List ℕ → ℕ → (Exchange → List ℕ → Parsed) → Parsed
go_on n e buf left more = if left == 0 then parse_done n e buf left else more e buf

-- The body of the loop, on the byte `c`.
unfoldable pub line_at :
    LineStep → ℕ → Exchange → List ℕ → ℕ → ℕ → (Exchange → List ℕ → Parsed) → Parsed
unfolding check_request line_done
line_at store n e buf remain c more = go_on (n + 1) e (buf ++ (c ∷ [])) (sub_size remain 1) more
line_at (item state set) n e buf remain c more =
    go_on (n + 1) (next_item e state set buf) (buf ++ (0 ∷ [])) (sub_size remain 1) more
line_at line_end n e buf remain c more = line_done n e buf remain (check_request e buf)
line_at reject n e buf remain c more = refused einval e
line_at outside n e buf remain c more = parse_done n e buf remain

-- The loop, with its count of bytes and its own `recv_current` and `remain`.
unfoldable pub line_loop : ℕ → Exchange → List ℕ → ℕ → List ℕ → Parsed
unfolding line_step line_at
line_loop n e buf remain [] = parse_done n e buf remain
line_loop n e buf remain (c ∷ cs) =
    line_at (line_step e.state c) n e buf remain c
      (λ e' buf'. line_loop (n + 1) e' buf' (sub_size remain 1) cs)

-- On the bytes of a buffer that is not empty.
unfoldable pub parse_request_line : Exchange → List ℕ → Parsed
unfolding line_loop
parse_request_line e buffer = line_loop 0 e e.recv_buf e.remain buffer
