-- ===== src/Http/ParseTests.antt =====
-- Runs of the request parser, and its theorems at concrete requests.
use libyimmo.Base.{ℕ, ◌≡◌, refl, inl, true, false, none, some, List, [], ◌∷◌, ◌++◌, okay, arith}
use libyimmo.Http.HeaderTable.{Memory, empty_table}
use libyimmo.Http.Exchange.{
  request_method, body_chunk_header, header_name, Exchange, Request, took, reset, hash_init,
  flag_chunked,
}
use libyimmo.Http.RequestLine.{parse_request_line}
use libyimmo.Http.RequestLine.Split.{Continues, parse_request_line-append}
use libyimmo.Http.RequestLine.RoundTrip.{ReadsLine, query_line, parse_request_line-query_line}
use libyimmo.Http.Headers.{Strtol, parse_headers}
use libyimmo.Http.Headers.Fuel.{EndsWithin, parse_headers-EndsWithin}
use libyimmo.Http.Headers.Field.{at_field, at_line_end, field_line, parse_headers-field_line}
use libyimmo.Http.Body.{BodyCb, body_took, parse_body}
use libyimmo.Http.Body.Rounds.{at_header}
use libyimmo.Http.Body.Chunks.{Chunk, at_complete, chunked_body, parse_body-chunked_body}
use libyimmo.Http.Body.Loop.{HasNewline, Returns, parse_body-Returns}

abbrev blank_request : Request
blank_request = record {
  method = some 0;
  uri = none;
  version = none;
  query = none;
  fragment = none;
  headers = empty_table;
  body_received = 0;
  content_length = 0;
  flags = 0;
}

abbrev blank : Exchange
blank = record {
  request = blank_request;
  hdr_name = none;
  hdr_value = none;
  h_id = hash_init;
  body_remain = 0;
  state = request_method;
  next_state = request_method;
  recv_buf = [];
  remain = 64;
}

abbrev memory : Memory
memory = record { has_node = true; malloc = λ n. none }

-- A `strtol` that has read nothing.
abbrev no_number : List ℕ → Strtol
no_number s = record { as_size = 0; at_end = false }

-- "GET", "/a" and "b=1"
abbrev get_text : List ℕ
get_text = 0x47 ∷ 0x45 ∷ 0x54 ∷ []

abbrev path_text : List ℕ
path_text = 0x2F ∷ 0x61 ∷ []

abbrev query_text : List ℕ
query_text = 0x62 ∷ 0x3D ∷ 0x31 ∷ []

parse_request_line-append_example :
    Continues
      (query_text ++ (0x20 ∷ 0x0D ∷ []))
      (parse_request_line blank (get_text ++ (0x20 ∷ 0x2F ∷ 0x3F ∷ [])))
      (parse_request_line blank
        ((get_text ++ (0x20 ∷ 0x2F ∷ 0x3F ∷ [])) ++ (query_text ++ (0x20 ∷ 0x0D ∷ []))))
parse_request_line-append_example =
    parse_request_line-append blank (get_text ++ (0x20 ∷ 0x2F ∷ 0x3F ∷ []))
      (query_text ++ (0x20 ∷ 0x0D ∷ [])) refl (λ e. absurd (omega arith))

parse_request_line-query_line_example : ReadsLine get_text path_text query_text 0x31 64 (
    parse_request_line
      (record (reset 64 blank) { state = request_method })
      (query_line get_text path_text query_text 0x31 (0x0A ∷ [])))
parse_request_line-query_line_example =
    parse_request_line-query_line blank get_text path_text query_text 0x31 64 (0x0A ∷ [])
      (refl, (refl, (refl, tt))) (refl, (refl, tt)) (refl, (refl, (refl, tt))) (inl refl)
      (omega arith) (omega arith)

-- "Host"
abbrev host_rest : List ℕ
host_rest = 0x6F ∷ 0x73 ∷ 0x74 ∷ []

parse_headers-EndsWithin_example :
    EndsWithin 4
      (parse_headers memory no_number (record blank { state = header_name }) (0x48 ∷ host_rest))
parse_headers-EndsWithin_example =
    parse_headers-EndsWithin memory no_number (record blank { state = header_name })
      (0x48 ∷ host_rest)

parse_headers-field_line_example :
    parse_headers memory no_number
      (at_field memory no_number blank 0x48 host_rest path_text 9)
      (field_line (0x48 ∷ host_rest) path_text (0x0A ∷ []))
    ≡ some (took 9 (at_line_end memory no_number blank 0x48 host_rest path_text 9))
parse_headers-field_line_example =
    parse_headers-field_line memory no_number blank 0x48 host_rest path_text 9 (0x0A ∷ [])
      (refl, (refl, (refl, (refl, tt))))
      ((λ e. absurd (omega arith)), ((λ e. absurd (omega arith)), tt))
      ((λ e. absurd (omega arith)), ((λ e. absurd (omega arith)), tt)) (λ e. absurd (omega arith))
      (omega arith) (omega arith)

-- A callback that keeps what it gets.
abbrev keep : BodyCb (List ℕ)
keep r bytes s = (okay, s ++ bytes)

abbrev chunked_blank : Exchange
chunked_blank = record blank { request = record blank_request { flags = flag_chunked } }

-- "2" and "3"
abbrev two_chunks : List Chunk
two_chunks =
    record { digits = 0x32 ∷ []; content = path_text }
    ∷ record { digits = 0x33 ∷ []; content = query_text }
    ∷ []

parse_body-chunked_body_example :
    parse_body keep (at_header chunked_blank body_chunk_header) (chunked_body two_chunks) []
    ≡ body_took 20 (at_complete keep chunked_blank) (path_text ++ query_text)
parse_body-chunked_body_example =
    parse_body-chunked_body keep chunked_blank body_chunk_header two_chunks []
      (
        record { hex = (refl, tt); is_size = refl; some_bytes = omega arith },
        (record { hex = (refl, tt); is_size = refl; some_bytes = omega arith }, tt),
      )
      (refl, (refl, tt)) refl (omega arith)

parse_body-Returns_example :
    Returns keep
      (HasNewline (0x32 ∷ []))
      (parse_body keep (at_header chunked_blank body_chunk_header) (0x32 ∷ []) [])
parse_body-Returns_example =
    parse_body-Returns keep (at_header chunked_blank body_chunk_header) 0x32 [] [] (omega arith)

-- "Transfer-Encoding: chunked" has been read.
abbrev chunked_1_1 : Request
chunked_1_1 = record blank_request { flags = 0x10001 }
