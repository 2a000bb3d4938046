-- ===== src/Http/Write/Wire.antt =====
-- What `ymo_proto_http_write` (src/protocol/http/ymo_proto_http.c) puts on the wire for a response
-- that is whole when it is first written.
use mathlib.Core.Path.{subst}
use libyimmo.Base.{
  Bool, ◌&&◌, ==→eq, ◌==◌, bit_and, ℕ, ◌+◌, ◌^◌, ◌≤◌, ◌<◌, bit_or, true, false, Bool-cases, inl,
  inr, if◌then◌else◌, Option, none, some, List, [], ◌∷◌, ◌++◌, length, length-append, All, Status,
  okay, eagain, ◌≡◌, refl, sym, ap, ap₂, ◌∙◌, arith,
}
use libyimmo.Base.Bits.{zero-bit_and-bit_or, bit_and-bit_or_zero}
use libyimmo.Core.Bucket.{
  Bucket, bytes_of, Sent, Sending, returned, still, null_dereference, send_buckets,
}
use libyimmo.Core.Bucket.Chain.{InRange, unsent}
use libyimmo.Core.Bucket.Stream.{Sends}
use libyimmo.Core.Bucket.Drain.{Unfinished, Progress, SendsAll, send_buckets-SendsAll}
use libyimmo.Core.Conn.{
  ConnState, conn_open, tls_handshake, tls_established, tls_closing, tls_closed, conn_shutdown,
  closing, closed, Conn, Calls, after_shutdown, shutdown_in, shutdown_conn,
}
use libyimmo.Http.HeaderTable.{Memory, bucket_size}
use libyimmo.Http.HeaderTable.Iterate.{nodes_from, IsPlaced}
use libyimmo.Http.Exchange.{has_flag, flag_request_keepalive}
use libyimmo.Http.Session.{
  HttpSessionState, session_open, session_closing, session_error, Response, response_complete,
  complete_response,
}
use libyimmo.Http.Response.{response_chunked, fill}
use libyimmo.Http.Response.Start.{
  send_buf_size, should_buffer_body, status_line, started, response_start,
}
use libyimmo.Http.Response.Text.{IsPlain, fields_text, response_start-text}
use libyimmo.Http.Write.Head.{
  IsPending, SameBody, should_buffer_body_complete, response_start-response, fill-unchunked,
  message,
}
use libyimmo.Http.Write.{
  response_started, Writer, WriteEnd, written, sending, write_fault, next_ready, with_head, shut,
  shut_in, next_or_end, fully_sent, behind_send, send_filled, proto_write,
}

-- The flag for keep-alive is that of before the response was started.
started-keepalive :
    (f : ℕ)
    → has_flag (bit_or f response_started) flag_request_keepalive
      ≡ has_flag f flag_request_keepalive
started-keepalive f = elim (Bool-cases (bit_and f flag_request_keepalive == 0)) [
  | inl e ↦
      let clear : bit_and f flag_request_keepalive ≡ 0 = ==→eq _ 0 e in
      rw (zero-bit_and-bit_or f response_started flag_request_keepalive clear refl, clear) refl
  | inr e ↦ elim (Bool-cases (bit_and (bit_or f response_started) flag_request_keepalive == 0)) [
    | inl z ↦
        let both = bit_and-bit_or_zero f response_started flag_request_keepalive (==→eq _ 0 z) in
        absurd (ground (arith, both.0))
    | inr z ↦ rw (z, e) refl
  ]
]

module _ {W : Type 0} (wire : W → List ℕ) (Writable : W → Type 0) where
  -- The connection is what it was, and its socket has not been shut down for writing.
  abbrev pub Stays : Bool → Conn → Writer W → Type 0
  Stays true c x = (x.conn ≡ c) × Writable x.world
  Stays false c x = Unit

  -- YMO_OKAY, or YMO_WOULDBLOCK where the next response is ready; the response has left the session,
  -- the send buffer is NULL, and `all` is on the wire. Where the response has keep-alive and the next
  -- one is ready, the connection stays.
  abbrev pub IsSent : List ℕ → HttpSessionState → List Response → Bool → Conn → WriteEnd W → Type 0
  IsSent all state rs keepalive c (written status x) =
      (status ≡ (if next_ready rs then eagain else okay))
      × (x.session ≡ record { state = state; responses = rs })
      × (x.send_buffer ≡ [])
      × (wire x.world ≡ all)
      × Stays (next_ready rs && keepalive) c x
  IsSent all state rs keepalive c (sending x) = ⊥
  IsSent all state rs keepalive c write_fault = ⊥

  module _ (memory : Memory) (nodes rounds : ℕ) (status_str : Response → List ℕ)
      (sendmsg : W → List (List ℕ) → Sent × W) (calls : Calls W)
      (transition_proto : Conn → W → Status × (Conn × W))
      (documented : (w : W) (vec : List (List ℕ))
        → Sends wire (wire w) (bytes_of vec) (sendmsg w vec))
      (progress : (w : W) (vec : List (List ℕ))
        → Writable w
        → 1 ≤ length (bytes_of vec)
        → Progress (sendmsg w vec).0 × Writable (sendmsg w vec).1)
      (silent : (w : W) → wire (calls.shutdown w).1 ≡ wire w) where
    after_shutdown-wire :
        (c : Conn) (r : Option Status × W) → wire (after_shutdown calls c r).1.1 ≡ wire r.1
    after_shutdown-wire c (none, w) = refl
    after_shutdown-wire c (some e, w) = refl

    shutdown_in-wire :
        (s : ConnState) (c : Conn) (w : W) → wire (shutdown_in calls s c w).1.1 ≡ wire w
    shutdown_in-wire conn_open c w = after_shutdown-wire c (calls.shutdown w) ∙ silent w
    shutdown_in-wire tls_handshake c w = after_shutdown-wire c (calls.shutdown w) ∙ silent w
    shutdown_in-wire tls_established c w = after_shutdown-wire c (calls.shutdown w) ∙ silent w
    shutdown_in-wire tls_closing c w = after_shutdown-wire c (calls.shutdown w) ∙ silent w
    shutdown_in-wire tls_closed c w = after_shutdown-wire c (calls.shutdown w) ∙ silent w
    shutdown_in-wire conn_shutdown c w = refl
    shutdown_in-wire closing c w = refl
    shutdown_in-wire closed c w = refl

    shutdown_conn-wire : (c : Conn) (w : W) → wire (shutdown_conn calls c w).1.1 ≡ wire w
    unfolding shutdown_conn
    shutdown_conn-wire c w = shutdown_in-wire c.state c w

    shut_in-wire :
        (s : HttpSessionState) (x : Writer W)
        → (wire (shut_in calls s x).world ≡ wire x.world)
          × ((shut_in calls s x).session ≡ x.session)
          × ((shut_in calls s x).send_buffer ≡ x.send_buffer)
    shut_in-wire session_open x = (refl, refl, refl)
    shut_in-wire session_closing x = (refl, refl, refl)
    shut_in-wire session_error x = (shutdown_conn-wire x.conn x.world, refl, refl)

    next_or_end-IsSent :
        (y : Writer W) (all : List ℕ) (keepalive : Bool) (c : Conn)
        → y.send_buffer ≡ []
        → wire y.world ≡ all
        → Stays keepalive c y
        → IsSent all y.session.state y.session.responses keepalive c (next_or_end calls y)
    next_or_end-IsSent y all keepalive c empty on_wire stay =
        elim (Bool-cases (next_ready y.session.responses)) [
          | inl e ↦ rw e (rw e refl, refl, empty, on_wire, rw e stay)
          | inr e ↦
              let kept = shut_in-wire y.session.state y in
              rw e (rw e refl, kept.1, kept.2 ∙ empty, kept.0 ∙ on_wire, rw e tt)
        ]

    fully_sent-IsSent :
        (r : Response) (x : Writer W) (rs : List Response) (all : List ℕ)
        → r.proto_new ≡ false
        → (complete_response x.session).1 ≡ record { state = x.session.state; responses = rs }
        → wire x.world ≡ all
        → Writable x.world
        → IsSent all x.session.state rs
            (has_flag r.flags flag_request_keepalive)
            x.conn
            (fully_sent calls transition_proto r x)
    fully_sent-IsSent r x rs all stays e on_wire can =
        let y : Writer W = record x {
          session = record { state = x.session.state; responses = rs };
          send_buffer = [];
        } in
        rw (stays, e)
          (elim (Bool-cases (has_flag r.flags flag_request_keepalive)) [
            | inl k ↦ rw k (next_or_end-IsSent y all true x.conn refl on_wire (refl, can))
            | inr k ↦ rw k (
                next_or_end-IsSent (shut calls y) all false x.conn refl
                  (shutdown_conn-wire x.conn x.world ∙ on_wire) tt)
          ])

    behind_send-IsSent :
        (r_flags : ℕ) (r : Response) (x : Writer W) (rs : List Response) (all : List ℕ)
        → has_flag r_flags response_complete ≡ true
        → r.proto_new ≡ false
        → (complete_response x.session).1 ≡ record { state = x.session.state; responses = rs }
        → (o : Sending W) → SendsAll wire Writable all o
        → IsSent all x.session.state rs
            (has_flag r.flags flag_request_keepalive)
            x.conn
            (behind_send calls transition_proto r_flags r x o)
    behind_send-IsSent r_flags r x rs all complete stays e (returned status w chain)
          (ok, empty, on_wire, can) =
        let y : Writer W = record x { send_buffer = chain; world = w } in
        subst
          (λ a.
            IsSent all x.session.state rs (has_flag r.flags flag_request_keepalive) x.conn
              (behind_send calls transition_proto r_flags r x (returned a w chain)))
          (sym ok) (rw complete (fully_sent-IsSent r y rs all stays e on_wire can))
    behind_send-IsSent r_flags r x rs all complete stays e (still w chain) sends = absurd sends
    behind_send-IsSent r_flags r x rs all complete stays e (null_dereference w) sends = absurd sends

    -- The buffer of the head before a body
    head_SendsAll :
        (w : W) (head : List ℕ) (body : List Bucket)
        → Writable w
        → 1 ≤ length head
        → All InRange body
        → All Unfinished body
        → length (head ++ unsent body) ≤ rounds
        → length (head ++ unsent body) < 2 ^ 64
        → SendsAll wire Writable
            (wire w ++ (head ++ unsent body))
            (send_buckets sendmsg rounds w (record { content = head; bytes_sent = 0 } ∷ body))
    head_SendsAll w head body can some_bytes inside unfinished most sized =
        let size = length-append head (unsent body) in
        send_buckets-SendsAll wire Writable sendmsg documented progress rounds w
          (record { content = head; bytes_sent = 0 } ∷ body) can most sized
          (record { started = omega arith; sized = omega (arith, size) }, inside)
          (some_bytes, unfinished) (λ n. absurd (omega (arith, ap length n)))

    -- Behind the start: `q` is the response `r` with its headers as they are written.
    send_filled-IsSent :
        (x : Writer W) (r q : Response) (rs : List Response) (head : List ℕ)
        → IsPending r
        → SameBody r q
        → Writable x.world
        → 1 ≤ length head
        → All InRange r.body
        → All Unfinished r.body
        → length (head ++ unsent r.body) ≤ rounds
        → length (head ++ unsent r.body) < 2 ^ 64
        → IsSent
            (wire x.world ++ (head ++ unsent r.body))
            x.session.state
            rs
            (has_flag r.flags flag_request_keepalive)
            x.conn
            (send_filled calls transition_proto sendmsg rounds r.flags rs x (
              fill
                (record { content = head; bytes_sent = 0 } ∷ [])
                (record q { flags = bit_or q.flags response_started })))
    unfolding complete_response
    send_filled-IsSent x r q rs head pending kept can some_bytes inside unfinished most sized =
        let b : Bucket = record { content = head; bytes_sent = 0 } in
        let begun : Response = record q { flags = bit_or q.flags response_started } in
        let all = wire x.world ++ (head ++ unsent r.body) in
        let unchunked : bit_and begun.flags response_chunked ≡ 0 =
          zero-bit_and-bit_or q.flags response_started response_chunked
            (ap (λ f. bit_and f response_chunked) kept.0 ∙ pending.unchunked) refl in
        let sends : SendsAll wire Writable all (send_buckets sendmsg rounds x.world (b ∷ q.body)) =
          subst (λ p. SendsAll wire Writable all (send_buckets sendmsg rounds x.world (b ∷ p)))
            (sym kept.1)
            (head_SendsAll x.world head r.body can some_bytes inside unfinished most sized) in
        let keepalive : has_flag begun.flags flag_request_keepalive
            ≡ has_flag r.flags flag_request_keepalive =
          started-keepalive q.flags ∙ ap (λ f. has_flag f flag_request_keepalive) kept.0 in
        rw (fill-unchunked (b ∷ []) begun unchunked, sym keepalive)
          (behind_send-IsSent r.flags (record begun { body = [] })
            (record x {
              session = with_head x.session (record begun { body = [] }) rs;
              send_buffer = b ∷ q.body;
            })
            rs all pending.complete (kept.2 ∙ pending.stays) refl
            (send_buckets sendmsg rounds x.world (b ∷ q.body)) sends)

    -- For a `sendmsg` that puts on the wire the first bytes of its buffers, as many as it says, and
    -- on a writable socket at least one where there is one, and leaves it writable; a writable
    -- socket; and a `shutdown` that puts nothing there: the first response
    -- of the session is ready and complete, not started, not chunked, and changes no protocol; it
    -- has a status; its header table, as it is once the length of the body is in it, has each field
    -- in its bucket and none combined, and the status line, the fields and the empty line fit in
    -- the buffer; each bucket of its body has something left to send; and the message is no longer
    -- than the rounds, and less than 2^64 bytes. Then the callback returns YMO_WOULDBLOCK where the
    -- next response is ready, and YMO_OKAY otherwise; the status line, the fields, the empty line
    -- and the body are on the wire, behind what was there; the response has left the session, the
    -- others are as they were, and the send buffer is NULL. Where it has keep-alive and the next
    -- response is ready, the connection is as it was and the socket writable.
    pub proto_write-IsSent :
        (x : Writer W) (r : Response) (rs : List Response)
        → x.session.responses ≡ r ∷ rs
        → Writable x.world
        → IsPending r
        → 1 ≤ length (status_str r)
        → IsPlaced (should_buffer_body memory r).1.headers
        → length (nodes_from bucket_size 0 (should_buffer_body memory r).1.headers) ≤ nodes
        → All IsPlain (nodes_from bucket_size 0 (should_buffer_body memory r).1.headers)
        → length (status_str r)
            + 11
            + length
                (fields_text (nodes_from bucket_size 0 (should_buffer_body memory r).1.headers))
          ≤ send_buf_size
        → All InRange r.body
        → All Unfinished r.body
        → length (message memory (status_str r) r) ≤ rounds
        → length (message memory (status_str r) r) < 2 ^ 64
        → IsSent
            (wire x.world ++ message memory (status_str r) r)
            x.session.state
            rs
            (has_flag r.flags flag_request_keepalive)
            x.conn
            (proto_write calls transition_proto sendmsg rounds memory nodes status_str x)
    unfolding proto_write
    proto_write-IsSent x r rs e can pending some_status placed enough plain fits inside unfinished
          most sized =
        let kept = should_buffer_body_complete memory r pending.complete in
        let q : Response = (should_buffer_body memory r).1 in
        let head : List ℕ =
          status_line (status_str r) ++ fields_text (nodes_from bucket_size 0 q.headers) in
        let begun : response_start memory nodes (status_str r) r
            ≡ (started (record { content = head; bytes_sent = 0 }), q) =
          ap₂ (λ a b. (a, b))
            (response_start-text memory nodes (status_str r) r some_status kept.0 placed enough
              plain fits)
            (response_start-response memory nodes (status_str r) r some_status) in
        rw (e, pending.ready, pending.unstarted, begun)
          (send_filled-IsSent x r q rs head pending kept.1 can
            (omega (arith, length-append (status_str r) (0x0D ∷ 0x0A ∷ []))) inside unfinished most
            sized)
