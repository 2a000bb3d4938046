-- ===== src/Http/ResponseTests.antt =====
-- Runs of the start and the body of a response.
use libyimmo.Base.{
  Bool, false, All, length, ◌≤◌, epipe, ℕ, true, ◌+◌, none, some, Status, okay, List, [], ◌∷◌, ◌≡◌,
  refl, arith, inl, inr, sym, Bool-cases, ◌==◌, ==→eq,
}
use libyimmo.Core.Bucket.{Bucket, bytes_of, Sent, failed}
use libyimmo.Core.Bucket.Chain.{InRange}
use libyimmo.Core.Bucket.Stream.{Sends}
use libyimmo.Core.Bucket.Drain.{Progress}
use libyimmo.Core.Conn.{Conn, received, Calls, conn_create}
use libyimmo.Core.Tests.{wire, Writable, sendmsg, sendmsg-Sends, sendmsg-Progress}
use libyimmo.Http.Write.{Writer, proto_write}
use libyimmo.Http.Write.Head.{message}
use libyimmo.Http.Write.Order.{IsWritable, messages, AllSent, write_loop, write_loop-AllSent}
use libyimmo.Http.Write.Wire.{IsSent, proto_write-IsSent}
use libyimmo.Http.HeaderTable.{Memory, Node, empty_table, put, new_node, get_id, find_field}
use libyimmo.Http.HeaderTable.Iterate.{IsPlaced}
use libyimmo.Http.Headers.{hid_content_length}
use libyimmo.Http.Response.Start.{text_content_length, should_buffer_body, overrun, add_field}
use libyimmo.Http.Exchange.{flag_request_keepalive, body_chunk_header}
use libyimmo.Http.Session.{session_open, Response, new_response, response_ready, response_complete}
use libyimmo.Http.Response.{response_chunked, hex_loop, chunk_hdr, fill}
use libyimmo.Http.Response.RoundTrip.{Arrives, fill-Arrives}
use libyimmo.Http.ReadTests.{chunked, collect}

abbrev parts : List Bucket
parts =
    record { content = 0x68 ∷ 0x69 ∷ []; bytes_sent = 0 }
    ∷ record { content = 0x21 ∷ []; bytes_sent = 0 }
    ∷ []

abbrev response : Response
response = record new_response {
  body = parts;
  flags = response_ready + response_complete + response_chunked;
}

small_header : chunk_hdr 26 ≡ some (0x31 ∷ 0x61 ∷ 0x0D ∷ 0x0A ∷ [])
unfolding chunk_hdr hex_loop
small_header = refl

-- From 64 KiB on the newline is cut off, and from 16 MiB on the copy goes past the buffer.
cut_header : chunk_hdr 0x10000 ≡ some (0x31 ∷ 0x30 ∷ 0x30 ∷ 0x30 ∷ 0x30 ∷ 0x0D ∷ 0x00 ∷ [])
unfolding chunk_hdr hex_loop
cut_header = refl

header_past_buffer : chunk_hdr 0x1000000 ≡ none
unfolding chunk_hdr hex_loop
header_past_buffer = refl

fill-Arrives_example : Arrives collect chunked body_chunk_header parts [] (fill [] response)
unfolding hex_loop
fill-Arrives_example =
    fill-Arrives collect chunked body_chunk_header response []
      (
        record { some_bytes = omega arith; small = omega arith; unsent_yet = refl },
        (record { some_bytes = omega arith; small = omega arith; unsent_yet = refl }, tt),
      )
      refl refl refl (refl, (refl, tt)) refl (omega arith)

-- "2" for the length of the body, which the application says
abbrev length_node : Node
length_node = new_node hid_content_length text_content_length (0x32 ∷ [])

abbrev measured : Response
measured = record new_response { headers = put empty_table 7 (length_node ∷ []) }

abbrev status_ok : List ℕ
status_ok = 0x32 ∷ 0x30 ∷ 0x30 ∷ 0x20 ∷ 0x4F ∷ 0x4B ∷ []

abbrev memory : Memory
memory = record { has_node = true; malloc = λ n. none }

measured-IsPlaced : IsPlaced measured.headers
measured-IsPlaced i = elim (Bool-cases (i == 7)) [
  | inl e ↦ rw e (sym (==→eq i 7 e), tt)
  | inr e ↦ rw e tt
]

-- A name of five bytes with space for five passes the test, and what is behind it is written over.
name_too_long : add_field [] 5 (new_node 0 (0x61 ∷ 0x62 ∷ 0x63 ∷ 0x64 ∷ 0x65 ∷ []) []) ≡ overrun
name_too_long = refl

-- No length, no chunks, not complete: the body is buffered.
buffered : should_buffer_body memory new_response ≡ (true, new_response)
unfolding should_buffer_body get_id find_field
buffered = refl

-- "hi!" in two buckets, whole from the start, and with nothing behind it
abbrev pending : Response
pending = record measured {
  body = parts;
  flags = response_ready + response_complete + flag_request_keepalive;
}

abbrev status_of_pending : Response → List ℕ
status_of_pending r = status_ok

abbrev idle : Calls (List ℕ)
idle = record { shutdown = λ w. (none, w); recv = λ w. (received 0, w); close_fd = λ w. w }

abbrev no_transition : Conn → List ℕ → Status × (Conn × List ℕ)
no_transition c w = (okay, (c, w))

abbrev writer : Writer (List ℕ)
writer = record {
  session = record { state = session_open; responses = pending ∷ [] };
  send_buffer = [];
  conn = conn_create;
  world = [];
}

proto_write-IsSent_example :
    IsSent wire Writable
      (message memory status_ok pending)
      session_open
      []
      true
      conn_create
      (proto_write idle no_transition sendmsg 100 memory 1 status_of_pending writer)
unfolding should_buffer_body get_id find_field
proto_write-IsSent_example =
    proto_write-IsSent wire Writable memory 1 100 status_of_pending sendmsg idle no_transition
      sendmsg-Sends sendmsg-Progress (λ w. refl) writer pending [] refl tt
      (record { ready = refl; unstarted = refl; complete = refl; unchunked = refl; stays = refl })
      (omega arith) measured-IsPlaced (omega arith) (refl, tt) (omega arith)
      (
        record { started = omega arith; sized = omega arith },
        (record { started = omega arith; sized = omega arith }, tt),
      )
      (omega arith, (omega arith, tt)) (omega arith) (omega arith)

parts_fit : All InRange parts
parts_fit = (
  record { started = omega arith; sized = omega arith },
  (record { started = omega arith; sized = omega arith }, tt),
)

pending-IsWritable : IsWritable memory 1 100 status_of_pending pending
unfolding should_buffer_body get_id find_field
pending-IsWritable = record {
  pending = record {
    ready = refl;
    unstarted = refl;
    complete = refl;
    unchunked = refl;
    stays = refl;
  };
  some_status = omega arith;
  placed = measured-IsPlaced;
  enough = omega arith;
  plain = (refl, tt);
  fits = omega arith;
  inside = parts_fit;
  unfinished = (omega arith, (omega arith, tt));
  most = omega arith;
  sized = omega arith;
}

-- A socket with what was sent on it, and whether it is still writable: behind `shutdown` nothing is
-- sent, and errno is EPIPE.
abbrev Socket : Type 0
Socket = List ℕ × Bool

abbrev socket_wire : Socket → List ℕ
socket_wire (w, b) = w

abbrev IsOpen : Socket → Type 0
IsOpen (w, b) = b ≡ true

abbrev socket_sendmsg : Socket → List (List ℕ) → Sent × Socket
socket_sendmsg (w, true) vec = ((sendmsg w vec).0, ((sendmsg w vec).1, true))
socket_sendmsg (w, false) vec = (failed epipe, (w, false))

socket_sendmsg-Sends :
    (s : Socket) (vec : List (List ℕ))
    → Sends socket_wire (socket_wire s) (bytes_of vec) (socket_sendmsg s vec)
socket_sendmsg-Sends (w, true) vec = (omega arith, refl)
socket_sendmsg-Sends (w, false) vec = refl

socket_sendmsg-Progress :
    (s : Socket) (vec : List (List ℕ))
    → IsOpen s
    → 1 ≤ length (bytes_of vec)
    → Progress (socket_sendmsg s vec).0 × IsOpen (socket_sendmsg s vec).1
socket_sendmsg-Progress (w, true) vec e h = (omega arith, refl)
socket_sendmsg-Progress (w, false) vec e h = absurd (ground (arith, e))

abbrev until_shut : Calls Socket
until_shut = record {
  shutdown = λ s. (none, (socket_wire s, false));
  recv = λ s. (received 0, s);
  close_fd = λ s. s;
}

abbrev staying : Conn → Socket → Status × (Conn × Socket)
staying c s = (okay, (c, s))

-- The second response has no keep-alive.
abbrev closing_pending : Response
closing_pending = record pending { flags = response_ready + response_complete }

closing_pending-IsWritable : IsWritable memory 1 100 status_of_pending closing_pending
unfolding should_buffer_body get_id find_field
closing_pending-IsWritable = record {
  pending = record {
    ready = refl;
    unstarted = refl;
    complete = refl;
    unchunked = refl;
    stays = refl;
  };
  some_status = omega arith;
  placed = measured-IsPlaced;
  enough = omega arith;
  plain = (refl, tt);
  fits = omega arith;
  inside = parts_fit;
  unfinished = (omega arith, (omega arith, tt));
  most = omega arith;
  sized = omega arith;
}

abbrev two_pending : Writer Socket
two_pending = record {
  session = record { state = session_open; responses = pending ∷ closing_pending ∷ [] };
  send_buffer = [];
  conn = record conn_create { tx = true };
  world = ([], true);
}

write_loop-AllSent_example :
    AllSent memory 1 100 status_of_pending socket_sendmsg until_shut staying socket_wire IsOpen
      socket_sendmsg-Sends socket_sendmsg-Progress
      (λ s. refl)
      (messages memory 1 100 status_of_pending (pending ∷ closing_pending ∷ []))
      session_open
      (write_loop memory 1 100 status_of_pending socket_sendmsg until_shut staying 2 two_pending)
write_loop-AllSent_example =
    write_loop-AllSent memory 1 100 status_of_pending socket_sendmsg until_shut staying socket_wire
      IsOpen socket_sendmsg-Sends socket_sendmsg-Progress (λ s. refl) 2 two_pending pending
      (closing_pending ∷ []) refl (omega arith) refl refl (refl, tt)
      (pending-IsWritable, (closing_pending-IsWritable, tt))
