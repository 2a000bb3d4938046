-- ===== src/Http/Read.antt =====
-- The loop of `ymo_proto_http_read` of src/protocol/http/ymo_proto_http.c over the parse functions,
-- and what it does to the exchange where the headers are complete. The callbacks and the responses
-- of the rest of that function are not modelled.
pub mod Fields
pub mod Target
pub mod Head
pub mod Content
pub mod Stuck
use libyimmo.Base.{
  ℕ, zero, suc, ◌+◌, Bool, true, false, Option, none, some, List, [], ◌∷◌, length, drop, ltb, ◌==◌,
  if◌then◌else◌, Status,
}
use libyimmo.Http.HeaderTable.{Memory}
use libyimmo.Http.Exchange.{
  HttpState, connected, request_method, request_uri_path, request_query, request_fragment,
  request_version, crlf, header_name, header_value_leading_space, header_value, headers_complete,
  expect, body_chunk_header, body, body_chunk_trailer, complete, Exchange, has_flag, flag_chunked,
  Parsed, took, refused,
}
use libyimmo.Http.RequestLine.{parse_request_line}
use libyimmo.Http.Headers.{Strtol, parse_crlf, parse_headers}
use libyimmo.Http.Body.{
  BodyCb, BodyResult, body_took, body_failed, overrun, out_of_fuel, parse_body,
}

-- How the loop is left: at the assessment of the state, with the count of `parse_buf` and the bytes
-- that are left; where a parse function has failed; and where a byte behind the buffer is read.
pub data ReadEnd (S : Type 0) : Type 0 where
  assess : ℕ → Exchange → List ℕ → S → ReadEnd S
  read_failed : Status → Exchange → S → ReadEnd S
  read_overrun : ReadEnd S
  read_unfinished : ReadEnd S

module _ {S : Type 0} where
  abbrev pub behind_parsed : ℕ → S → Parsed → (ℕ → Exchange → S → ReadEnd S) → ReadEnd S
  behind_parsed n s (took k e) more = more k e s
  behind_parsed n s (refused status e) more = read_failed status e s

  abbrev pub behind_headers : ℕ → S → Option Parsed → (ℕ → Exchange → S → ReadEnd S) → ReadEnd S
  behind_headers n s (some r) more = behind_parsed n s r more
  behind_headers n s none more = read_unfinished

  abbrev pub behind_body : BodyResult S → (ℕ → Exchange → S → ReadEnd S) → ReadEnd S
  behind_body (body_took k e s) more = more k e s
  behind_body (body_failed status e s) more = read_failed status e s
  behind_body overrun more = read_overrun
  behind_body out_of_fuel more = read_unfinished

module _ {S : Type 0} (memory : Memory) (strtol : List ℕ → Strtol) (body_cb : BodyCb S) where
  -- The switch, on a buffer that is not empty; `more` goes on behind the bytes that are parsed. There
  -- is no case for a query, for a fragment and for `expect`.
  unfoldable pub read_switch :
      HttpState → ℕ → Exchange → ℕ → List ℕ → S → (ℕ → Exchange → S → ReadEnd S) → ReadEnd S
  unfolding parse_request_line parse_crlf parse_headers parse_body
  read_switch connected n e c cs s more =
      behind_parsed n s (parse_request_line (record e { state = request_method }) (c ∷ cs)) more
  read_switch request_method n e c cs s more =
      behind_parsed n s (parse_request_line e (c ∷ cs)) more
  read_switch request_uri_path n e c cs s more =
      behind_parsed n s (parse_request_line e (c ∷ cs)) more
  read_switch request_version n e c cs s more =
      behind_parsed n s (parse_request_line e (c ∷ cs)) more
  read_switch crlf n e c cs s more = behind_parsed n s (parse_crlf e c) more
  read_switch header_name n e c cs s more =
      behind_headers n s (parse_headers memory strtol e (c ∷ cs)) more
  read_switch header_value_leading_space n e c cs s more =
      behind_headers n s (parse_headers memory strtol e (c ∷ cs)) more
  read_switch header_value n e c cs s more =
      behind_headers n s (parse_headers memory strtol e (c ∷ cs)) more
  read_switch headers_complete n e c cs s more = assess n e (c ∷ cs) s
  read_switch body_chunk_header n e c cs s more = behind_body (parse_body body_cb e (c ∷ cs) s) more
  read_switch body n e c cs s more = behind_body (parse_body body_cb e (c ∷ cs) s) more
  read_switch body_chunk_trailer n e c cs s more =
      behind_body (parse_body body_cb e (c ∷ cs) s) more
  read_switch complete n e c cs s more = assess n e (c ∷ cs) s
  read_switch _ n e c cs s more = more 0 e s

  -- The loop, on fuel; `read_unfinished` is for fuel that is too little.
  unfoldable pub read_loop : ℕ → ℕ → Exchange → List ℕ → S → ReadEnd S
  unfolding read_switch
  read_loop fuel n e [] s = assess n e [] s
  read_loop zero n e (c ∷ cs) s = read_unfinished
  read_loop (suc fuel) n e (c ∷ cs) s = read_switch e.state n e c cs s (λ k e' s'.
      let more = read_loop fuel (n + k) e' (drop k (c ∷ cs)) s' in
      if ltb (length (c ∷ cs)) k then read_overrun else more)

-- What `ymo_proto_http_read` does to the exchange at http_headers_complete.
unfoldable pub start_body : Exchange → Exchange
start_body e =
    if ltb 0 e.request.content_length
    then record e { state = body; next_state = complete; body_remain = e.request.content_length }
    else if has_flag e.request.flags flag_chunked
    then record e { state = body_chunk_header; next_state = body; body_remain = 0 }
    else record e { state = complete; next_state = complete }
