-- ===== src/Ws/Conn/Answers.antt =====
-- What the read callback does with a client's frame: a ping is answered, a message reaches the
-- user's callback.
use libyimmo.Base.{
  ℕ, suc, ◌+◌, ◌-◌, ◌/◌, ◌^◌, ◌≤◌, ◌<◌, ◌≡◌, ◌⊎◌, inl, inr, refl, sym, ap, ◌∙◌, bit_and, ◌*◌,
  if◌then◌else◌, true, Option, List, [], ◌∷◌, ◌++◌, length, length-append, leb, ◌==◌, Bool-cases,
  Status, okay, enoent, IsByte, arith,
}
use mathlib.Core.Path.{subst}
use libyimmo.Ws.Session.{IsSized, Session, op_code, gen_ws_msg_hdr, complete}
use libyimmo.Ws.Unmask.Cycle.{cycle}
use libyimmo.Ws.Header.{with_frame}
use libyimmo.Ws.Parse.{block_of, parse_loop, is_complete, stopped}
use libyimmo.Ws.Client.{client_frame, mask_header, fresh_frame, HasMemory}
use libyimmo.Ws.Client.RoundTrip.{Delivers}
use libyimmo.Ws.Client.Delivery.{IsReady, client_frame-Delivers}
use libyimmo.Ws.Conn.{
  connected, Conn, Server, RecvCb, send_no_check, ws_echo_cb, callback_loop, no_recv,
  invoke_recv_callback, message_in, complete_switch, ReadResult, read, frame_end, frame_complete,
  loop_end, read_in, proto_read,
}

length-mask_header : (header : List ℕ) → length (mask_header header) ≡ length header
length-mask_header [] = refl
length-mask_header (h ∷ []) = refl
length-mask_header (h0 ∷ h1 ∷ r) = refl

two-gen_ws_msg_hdr : (flag n : ℕ) → 2 ≤ length (gen_ws_msg_hdr flag n)
unfolding gen_ws_msg_hdr
two-gen_ws_msg_hdr flag n = elim (Bool-cases (leb n 125)) [
  | inl h ↦ rw h (omega arith)
  | inr h ↦ elim (Bool-cases (leb n 0xFFFF)) [
    | inl k ↦ rw (h, k) (omega arith)
    | inr k ↦ rw (h, k) (omega arith)
  ]
]

frame_length :
    (flag k0 k1 k2 k3 : ℕ) (message : List ℕ)
    → 6 ≤ length (client_frame flag (k0 ∷ k1 ∷ k2 ∷ k3 ∷ []) message)
unfolding client_frame
frame_length flag k0 k1 k2 k3 message = omega (
  arith,
  two-gen_ws_msg_hdr flag (length message),
  length-mask_header (gen_ws_msg_hdr flag (length message)),
  length-append (mask_header (gen_ws_msg_hdr flag (length message)))
      ((k0 ∷ k1 ∷ k2 ∷ k3 ∷ []) ++ cycle (k0 ∷ k1 ∷ k2 ∷ k3 ∷ []) 0 message),
)

either_status : (r : Status × Conn) → (elim r.0 [ okay ↦ (r.0, r.1) | other ↦ (other, r.1) ]) ≡ r
either_status (okay, c) = refl
either_status (e, c) = refl

callback_loop-one :
    (cb : RecvCb) (p : List ℕ) (c : Conn)
    → callback_loop cb enoent (p ∷ []) c ≡ cb c.session.frame_in.flags p c
unfolding callback_loop
callback_loop-one cb p c = either_status (cb c.session.frame_in.flags p c)

-- The read callback has consumed `taken` bytes and queued `answer`, and the next frame can come.
pub record Answers (c : Conn) (taken : ℕ) (answer : List (List ℕ)) (o : ReadResult × Conn)
    : Type 0 where
  pub result : o.0 ≡ read taken
  pub sent : o.1.send ≡ c.send ++ answer
  pub still_open : o.1.state ≡ connected
  pub emptied : o.1.session.recv ≡ []
  pub waits :
      o.1.session.frame_in ≡ fresh_frame o.1.session.frame_in.buffer o.1.session.frame_in.buf_len

module _ (server : Server) (c : Conn) (flag k0 k1 k2 k3 : ℕ) (message rest : List ℕ)
    (buffer : Option (List ℕ)) (buf_len addr : ℕ) where
  abbrev frame : List ℕ
  frame = client_frame flag (k0 ∷ k1 ∷ k2 ∷ k3 ∷ []) message

  -- A connection that waits for a frame outside of any fragmented message, and a client's frame,
  -- whole and within its limits, that it can take.
  abbrev pub CanTake : Type 0
  CanTake =
      (c.state ≡ connected)
      × (c.session.frame_in ≡ fresh_frame buffer buf_len)
      × (c.session.recv ≡ [])
      × IsSized server.platform
      × HasMemory server.platform
      × (buf_len ≤ length (block_of (fresh_frame buffer buf_len)))
      × IsByte flag
      × (flag / 16 ≡ 8)
      × ((bit_and flag 0x08 ≡ 0) ⊎ (length message ≤ 125))
      × (length message ≤ server.platform.frame_max)
      × IsReady server.platform c.session flag k0 k1 k2 k3 message rest buffer buf_len
      × (addr + length message + 18 < 2 ^ 64)

  loop-frame :
      CanTake
      → Delivers c.session flag message rest
          (parse_loop (length (frame ++ rest)) server.platform addr c.session (frame ++ rest))
  loop-frame (st, fresh, empty, sized, memory, block, byte, top, code, allowed, ready, fits) =
      let fuel = length (frame ++ rest) - 6 in
      let enough : suc (suc (suc (suc (suc (suc fuel))))) ≡ length (frame ++ rest) =
        omega (arith, length-append frame rest, frame_length flag k0 k1 k2 k3 message) in
      let same : with_frame c.session (fresh_frame buffer buf_len) ≡ c.session =
        ap (with_frame c.session) (sym fresh) in
      subst
        (λ n.
          Delivers c.session flag message rest
            (parse_loop n server.platform addr c.session (frame ++ rest)))
        enough
        (subst
          (λ s. Delivers c.session flag message rest (
            parse_loop (suc (suc (suc (suc (suc (suc fuel)))))) server.platform addr s
              (frame ++ rest)))
          same
          (client_frame-Delivers server.platform c.session flag k0 k1 k2 k3 message rest buffer
            buf_len fuel addr sized memory block byte top code allowed ready fits))

  proto_read-frame :
      (s' : Session)
      → c.state ≡ connected
      → parse_loop (length (frame ++ rest)) server.platform addr c.session (frame ++ rest)
        ≡ stopped s' rest
      → s'.frame_in.parse_state ≡ complete
      → proto_read server addr (frame ++ rest) c
        ≡ frame_complete server (length (frame ++ rest)) (length frame) (record c { session = s' })
  unfolding proto_read read_in loop_end
  proto_read-frame s' st stop done =
      let size : length (frame ++ rest) - length rest ≡ length frame =
        omega (arith, length-append frame rest) in
      let done' : is_complete s'.frame_in.parse_state ≡ true = ap is_complete done in
      ap (λ x. read_in x server addr (frame ++ rest) c) st
      ∙ ap (loop_end server (length (frame ++ rest)) c) stop
      ∙ rw (done', size) refl

  -- The connection once the session has a complete frame.
  abbrev with_session : Session → Conn
  with_session s' = record c { session = s' }

  complete-ping :
      (s' : Session) (len parsed : ℕ)
      → s'.frame_in.flags ≡ 0x89
      → s'.recv ≡ message ∷ []
      → frame_complete server len parsed (with_session s')
        ≡ frame_end len parsed (okay, no_recv (send_no_check 0x8A message (with_session s')))
  unfolding frame_complete complete_switch invoke_recv_callback callback_loop ws_echo_cb
  complete-ping s' len parsed flags recv =
      let d = with_session s' in
      ap (λ f. complete_switch (op_code f) server len parsed d) flags
      ∙ ap
          (λ r.
            let (status, c') = callback_loop ws_echo_cb enoent r d in
            frame_end len parsed (status, no_recv c'))
          recv
      ∙ ap
          (λ f. frame_end len parsed (
            okay,
            no_recv (send_no_check (if op_code f == 0x9 then f / 16 * 16 + 0xA else f) message d),
          ))
          flags

  -- A ping that is not empty, that arrives whole at a connection which can take it (`CanTake`: it
  -- waits for a frame outside of any fragmented message, with memory for it), is answered by a pong
  -- with the same payload; the frame is consumed and the next one can come.
  pub proto_read-pong :
      CanTake
      → flag ≡ 0x89
      → Answers c
          (length frame)
          (gen_ws_msg_hdr 0x8A (length message) ∷ message ∷ [])
          (proto_read server addr (frame ++ rest) c)
  unfolding send_no_check frame_end
  proto_read-pong can ping =
      let (s', stop, recv, outside, flags, done) = loop-frame can in
      let d = with_session s' in
      subst (Answers c (length frame) (gen_ws_msg_hdr 0x8A (length message) ∷ message ∷ []))
        (sym (
          proto_read-frame s' can.0 stop done
          ∙ complete-ping s' (length (frame ++ rest)) (length frame) (flags ∙ ping)
              (recv ∙ ap (λ r. r ++ (message ∷ [])) can.2)))
        (record { result = refl; sent = refl; still_open = can.0; emptied = refl; waits = refl })

  complete-message :
      (s' : Session) (len parsed : ℕ)
      → s'.frame_in.flags ≡ flag
      → s'.recv ≡ message ∷ []
      → op_code flag ≤ 2
      → c.state ≡ connected
      → let (status, c') = server.recv_cb flag message (with_session s') in
        frame_complete server len parsed (with_session s')
        ≡ frame_end len parsed (status, no_recv c')
  unfolding frame_complete complete_switch message_in invoke_recv_callback
  complete-message s' len parsed flags recv message_code st =
      let d = with_session s' in
      let is_message : leb (op_code flag) 2 ≡ true = ground arith in
      ap (λ f. complete_switch (op_code f) server len parsed d) flags
      ∙ rw is_message refl
      ∙ ap (λ x. message_in x server len parsed d) st
      ∙ ap
          (λ r.
            let (status, c') = callback_loop server.recv_cb enoent r d in
            frame_end len parsed (status, no_recv c'))
          recv
      ∙ ap (λ r. frame_end len parsed (r.0, no_recv r.1))
          (callback_loop-one server.recv_cb message d)
      ∙ ap
          (λ f.
            let (status, c') = server.recv_cb f message d in
            frame_end len parsed (status, no_recv c'))
          flags

  -- Where the connection can take it (`CanTake`), a text, binary or continuation frame reaches the user's callback once, with the message as it
  -- was before masking, and what the callback leaves decides how the read ends.
  pub proto_read-message :
      CanTake
      → op_code flag ≤ 2
      → (s' : Session) × (s'.recv ≡ message ∷ [])
        × (proto_read server addr (frame ++ rest) c ≡ (
            let (status, c') = server.recv_cb flag message (record c { session = s' }) in
            frame_end (length (frame ++ rest)) (length frame) (status, no_recv c')))
  proto_read-message can message_code =
      let (s', stop, recv, outside, flags, done) = loop-frame can in
      let recv' : s'.recv ≡ message ∷ [] = recv ∙ ap (λ r. r ++ (message ∷ [])) can.2 in
      (
        s',
        recv',
        proto_read-frame s' can.0 stop done
            ∙ complete-message s' (length (frame ++ rest)) (length frame) flags recv' message_code
                can.0,
      )
