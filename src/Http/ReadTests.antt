-- ===== src/Http/ReadTests.antt =====
-- Runs of the read loop, and its theorems at concrete requests.
use libyimmo.Base.{ℕ, ◌≡◌, refl, inl, true, false, none, some, List, [], ◌∷◌, ◌++◌, okay, arith}
use libyimmo.Http.HeaderTable.{Memory, empty_table}
use libyimmo.Http.Exchange.{
  request_method, request_query, Exchange, Request, reset, hash_init, flag_chunked,
}
use libyimmo.Http.RequestLine.RoundTrip.{at_end}
use libyimmo.Http.Headers.{Strtol}
use libyimmo.Http.Body.{BodyCb}
use libyimmo.Http.Body.Chunks.{Chunk}
use libyimmo.Http.Read.{read_unfinished, read_loop}
use libyimmo.Http.Read.{read_failed}
use libyimmo.Base.{einval}
use libyimmo.Http.Session.{session_open, http_read}
use libyimmo.Http.Session.Answers.{Answers, http_read-Answers}
use libyimmo.Http.Read.Fields.{Field, IsField}
use libyimmo.Http.Read.Head.{head_text, ReadsHead, read_loop-head}
use libyimmo.Http.Read.Stuck.{read_loop-stuck}

abbrev plain_request : Request
plain_request = record {
  method = some 0;
  uri = none;
  version = none;
  query = none;
  fragment = none;
  headers = empty_table;
  body_received = 0;
  content_length = 3;
  flags = 0;
}

abbrev plain : Exchange
plain = record {
  request = plain_request;
  hdr_name = none;
  hdr_value = none;
  h_id = hash_init;
  body_remain = 0;
  state = request_query;
  next_state = request_method;
  recv_buf = [];
  remain = 64;
}

abbrev pub chunked : Exchange
chunked = record plain {
  request = record plain_request { content_length = 0; flags = flag_chunked };
}

abbrev nodes : Memory
nodes = record { has_node = true; malloc = λ n. none }

abbrev nothing_read : List ℕ → Strtol
nothing_read s = record { as_size = 0; at_end = false }

-- A callback that keeps what it gets.
abbrev pub collect : BodyCb (List ℕ)
collect r bytes s = (okay, s ++ bytes)

-- "Host: a"
abbrev host_field : Field
host_field = record { first = 0x48; others = 0x6F ∷ 0x73 ∷ 0x74 ∷ []; value = 0x61 ∷ [] }

host_field-IsField : IsField host_field
host_field-IsField = record {
  tokens = (refl, (refl, (refl, (refl, tt))));
  no_cr = ((λ e. absurd (omega arith)), tt);
  no_nul = ((λ e. absurd (omega arith)), tt);
  no_blank = λ e. absurd (omega arith);
}

read_loop-head_example :
    ReadsHead nodes nothing_read
      (0x47 ∷ 0x45 ∷ 0x54 ∷ [])
      (0x2F ∷ [])
      (0x71 ∷ [])
      0x31
      (host_field ∷ [])
      (at_end plain (0x47 ∷ 0x45 ∷ 0x54 ∷ []) (0x2F ∷ []) (0x71 ∷ []) 0x31 64).request
      (0x7A ∷ [])
      []
      (read_loop nodes nothing_read collect 7 0
        (reset 64 plain)
        (head_text
          (0x47 ∷ 0x45 ∷ 0x54 ∷ [])
          (0x2F ∷ [])
          (0x71 ∷ [])
          0x31
          (host_field ∷ [])
          (0x7A ∷ []))
        [])
read_loop-head_example =
    read_loop-head nodes nothing_read collect plain 0x47 (0x45 ∷ 0x54 ∷ []) (0x2F ∷ []) (0x71 ∷ [])
      0x31 64 (host_field ∷ []) (0x7A ∷ []) [] 5 (refl, (refl, (refl, tt))) (refl, tt) (refl, tt)
      (inl refl) (host_field-IsField, tt) (omega arith) (omega arith) (omega arith)

read_loop-stuck_example :
    read_loop nodes nothing_read collect 9 0 plain (0x61 ∷ []) [] ≡ read_unfinished
read_loop-stuck_example = read_loop-stuck nodes nothing_read collect 9 0 plain 0x61 [] [] (inl refl)

abbrev one_chunk : Chunk
one_chunk = record { digits = 0x32 ∷ []; content = 0x68 ∷ 0x69 ∷ [] }

abbrev at_start : Exchange
at_start = record plain { state = request_method }

-- A request that starts with '?'.
run_refused :
    read_loop nodes nothing_read collect 3 0 at_start (0x3F ∷ []) []
    ≡ read_failed einval at_start []
unfolding read_loop
run_refused = refl

http_read-Answers_example :
    Answers nodes nothing_read collect
      (record { state = session_open; responses = [] })
      (http_read nodes true nothing_read collect 3
        (record { state = session_open; responses = [] })
        at_start
        (0x3F ∷ [])
        [])
      9
      plain
      (0x61 ∷ [])
      []
http_read-Answers_example =
    http_read-Answers nodes nothing_read collect 3 [] at_start at_start (0x3F ∷ []) [] [] einval 9
      plain (0x61 ∷ []) [] refl run_refused
