-- ===== src/Ws/Conn.antt =====
-- src/protocol/ws/ymo_proto_ws.c, the read callback around the parser's loop: answering, closing,
-- and the user's callback. Sending is `ymo_ws_session_send_no_check` of ymo_ws_session.c. Creating
-- a header or a bucket is taken to succeed.
pub mod Close
pub mod Answers
pub mod Buffering
use libyimmo.Base.{
  ℕ, ◌+◌, ◌-◌, ◌*◌, ◌/◌, ◌%◌, ◌^◌, Bool, true, false, ◌&&◌, ◌||◌, not, Option, none, some, List, [],
  ◌∷◌, ◌++◌, length, take, leb, ltb, ◌==◌, if◌then◌else◌, Status, okay, einval, ebadmsg, eilseq,
  efbig, enoent, epipe, eaddrnotavail, enoprotoopt, eprototype, enosys, eprotonosupport, enotsup,
  econnrefused, eacces, emsgsize, eoverflow, econnaborted,
}
use libyimmo.Ws.Session.{Platform, Frame, Session, op_code, gen_ws_msg_hdr}
use libyimmo.Ws.Client.{fresh_frame}
use libyimmo.Ws.Parse.{is_complete, Outcome, stopped, broke, stuck, parse_loop}

pub data SessionState : Type 0 where
  connected close_received expect_close closed error : SessionState

-- What the callbacks change: the parser's session, `state`, the buckets from `send_head` on, and
-- what the session has asked of its connection (`ymo_conn_tx_enable`, `ymo_conn_shutdown`).
pub record Conn : Type 0 where
  pub session : Session
  pub state : SessionState
  pub send : List (List ℕ)
  pub tx_enabled : Bool
  pub is_shut : Bool

-- `ymo_ws_recv_cb_t`, with the session in and out.
abbrev pub RecvCb : Type 0
RecvCb = ℕ → List ℕ → Conn → Status × Conn

-- The code around the protocol: the user's callback, and `ymo_conn_tx_now`, which has the event
-- loop run the connection's write watcher at once.
pub record Server : Type 0 where
  pub platform : Platform
  pub recv_cb : RecvCb
  pub tx_now : Conn → Conn

unfoldable pub send_no_check : ℕ → List ℕ → Conn → Conn
send_no_check flags data_out c = record c {
  send = c.send ++ (gen_ws_msg_hdr flags (length data_out) ∷ data_out ∷ []);
  tx_enabled = true;
}

-- The end of `ymo_ws_session_send`: whether the state lets a message out.
unfoldable pub send_in : SessionState → ℕ → List ℕ → Conn → Status × Conn
unfolding send_no_check
send_in connected flags data_out c = (okay, send_no_check flags data_out c)
send_in close_received flags data_out c = (eaddrnotavail, c)
send_in expect_close flags data_out c = (eaddrnotavail, c)
send_in closed flags data_out c = (epipe, c)
send_in error flags data_out c = (econnaborted, c)

-- `ymo_ws_session_send`
unfoldable pub session_send : ℕ → List ℕ → Conn → Status × Conn
unfolding send_in
session_send flags data_out c =
    if leb (flags % 16) 2 || (leb 8 (flags % 16) && leb (flags % 16) 10)
    then send_in c.state flags data_out c
    else (einval, c)

-- `ws_echo_cb`: a ping's flags are those of a pong.
unfoldable pub ws_echo_cb : RecvCb
unfolding send_no_check
ws_echo_cb flags data_in c =
    (okay, send_no_check (if op_code flags == 0x9 then flags / 16 * 16 + 0xA else flags) data_in c)

-- The loop of `invoke_recv_callback`, from the status so far.
unfoldable pub callback_loop : RecvCb → Status → List (List ℕ) → Conn → Status × Conn
callback_loop cb status [] c = (status, c)
callback_loop cb status (p ∷ ps) c =
    let (next, c') = cb c.session.frame_in.flags p c in
    let rest = callback_loop cb next ps c' in elim next [ okay ↦ rest | other ↦ (other, c') ]

-- The received buckets are freed.
abbrev pub no_recv : Conn → Conn
no_recv c = record c { session = record c.session { recv = [] } }

unfoldable pub invoke_recv_callback : RecvCb → Conn → Status × Conn
unfolding callback_loop
invoke_recv_callback cb c =
    let (status, c') = callback_loop cb enoent c.session.recv c in (status, no_recv c')

unfoldable pub send_ws_close : ℕ → Conn → Conn
unfolding send_no_check
send_ws_close reason c = send_no_check 0x88 (reason / 256 % 256 ∷ reason % 256 ∷ []) c

-- A close frame goes out unless an error has been answered before.
unfoldable pub err_close_in : SessionState → ℕ → Conn → Conn
unfolding send_ws_close
err_close_in error reason c = c
err_close_in _ reason c = send_ws_close reason (record c { state = error })

unfoldable pub ws_err_close : ℕ → Conn → Conn
unfolding err_close_in
ws_err_close reason c = err_close_in c.state reason c

-- The loop of `get_close_reason`, with `vals[0..idx]`.
unfoldable pub first_vals : List ℕ → List (List ℕ) → List ℕ
first_vals vals [] = vals
first_vals vals (b ∷ bs) =
    let rest = first_vals (vals ++ take (2 - length vals) b) bs in
    if ltb (length vals) 2 then rest else vals

abbrev pub reason_of : List ℕ → Option ℕ
reason_of (b0 ∷ b1 ∷ []) = some (b0 * 2 ^ 8 + b1)
reason_of _ = none

unfoldable pub get_close_reason : List (List ℕ) → Option ℕ
unfolding first_vals
get_close_reason recv = reason_of (first_vals [] recv)

unfoldable pub is_reason_valid : ℕ → Bool
is_reason_valid reason =
    if leb 1000 reason && ltb reason 3000
    then (reason == 1000 || (reason == 1001 || (reason == 1002 || reason == 1003)))
      || (reason == 1007
          || (reason == 1008 || (reason == 1009 || (reason == 1010 || reason == 1011))))
    else leb 3000 reason

-- What the read callback returns: a count of bytes, or -1 with EAGAIN.
pub data ReadResult : Type 0 where
  read : ℕ → ReadResult
  again : ReadResult

-- The reply to a close that was not expected, behind the test of its reason.
unfoldable pub echo_close : Server → Conn → ReadResult × Conn
unfolding invoke_recv_callback ws_echo_cb
echo_close server c = (again, server.tx_now (invoke_recv_callback ws_echo_cb c).1)

-- By the reason that the close frame gives.
unfoldable pub reply_to : Option ℕ → Server → ℕ → Conn → ReadResult × Conn
unfolding is_reason_valid ws_err_close echo_close
reply_to none server len c = echo_close server c
reply_to (some reason) server len c =
    if is_reason_valid reason then echo_close server c else (read len, ws_err_close 1002 c)

unfoldable pub reply_close : Server → ℕ → Conn → ReadResult × Conn
unfolding get_close_reason reply_to
reply_close server len c = reply_to (get_close_reason c.session.recv) server len c

-- By the state that the session was in when the close arrived.
unfoldable pub close_in : SessionState → Server → ℕ → Conn → ReadResult × Conn
unfolding reply_close
close_in expect_close server len c = (read len, record c { is_shut = true })
close_in _ server len c = reply_close server len c

unfoldable pub handle_client_close : Server → ℕ → Conn → ReadResult × Conn
unfolding close_in
handle_client_close server len c = close_in c.state server len (record c { state = close_received })

unfoldable pub reason_from_errno : Status → ℕ
reason_from_errno okay = 1000
reason_from_errno epipe = 1001
reason_from_errno eaddrnotavail = 1001
reason_from_errno enoprotoopt = 1001
reason_from_errno eprototype = 1002
reason_from_errno einval = 1002
reason_from_errno ebadmsg = 1002
reason_from_errno enosys = 1003
reason_from_errno eprotonosupport = 1003
reason_from_errno enotsup = 1003
reason_from_errno eilseq = 1007
reason_from_errno econnrefused = 1008
reason_from_errno eacces = 1008
reason_from_errno efbig = 1009
reason_from_errno emsgsize = 1009
reason_from_errno eoverflow = 1009
reason_from_errno _ = 1011

-- The end of `ymo_proto_ws_read`: the frame is reset where the callback has accepted it.
unfoldable pub frame_end : ℕ → ℕ → Status × Conn → ReadResult × Conn
unfolding ws_err_close
frame_end len parsed (okay, c) = (
  read parsed,
  record c {
    session = record c.session {
      frame_in = fresh_frame c.session.frame_in.buffer c.session.frame_in.buf_len;
    };
  },
)
frame_end len parsed (e, c) = (read len, ws_err_close 1002 c)

-- A text, binary or continuation frame, by the session's state.
unfoldable pub message_in : SessionState → Server → ℕ → ℕ → Conn → ReadResult × Conn
unfolding invoke_recv_callback frame_end
message_in connected server len parsed c =
    frame_end len parsed (invoke_recv_callback server.recv_cb c)
message_in _ server len parsed c = (read len, c)

-- The switch behind `ws_parse_complete`, on the op code.
unfoldable pub complete_switch : ℕ → Server → ℕ → ℕ → Conn → ReadResult × Conn
unfolding message_in invoke_recv_callback ws_echo_cb handle_client_close frame_end ws_err_close
complete_switch code server len parsed c =
    if leb code 2
    then message_in c.state server len parsed c
    else if code == 0x8
    then handle_client_close server len c
    else if code == 0x9
    then frame_end len parsed (invoke_recv_callback ws_echo_cb c)
    else if code == 0xA
    then frame_end len parsed (okay, c)
    else (read len, ws_err_close 1002 c)

unfoldable pub frame_complete : Server → ℕ → ℕ → Conn → ReadResult × Conn
unfolding complete_switch
frame_complete server len parsed c =
    complete_switch (op_code c.session.frame_in.flags) server len parsed c

-- What follows the loop.
unfoldable pub loop_end : Server → ℕ → Conn → Outcome → ReadResult × Conn
unfolding frame_complete ws_err_close reason_from_errno
loop_end server len c (broke e s) =
    (read len, ws_err_close (reason_from_errno e) (record c { session = s }))
loop_end server len c (stopped s rest) =
    let c' = record c { session = s } in
    if is_complete s.frame_in.parse_state
    then frame_complete server len (len - length rest) c'
    else (read (len - length rest), c')
loop_end server len c stuck = (read len, c)

-- The callback by the session's state, which it looks at first.
unfoldable pub read_in : SessionState → Server → ℕ → List ℕ → Conn → ReadResult × Conn
unfolding loop_end
read_in close_received server addr bytes c = (read (length bytes), c)
read_in error server addr bytes c = (read (length bytes), c)
read_in _ server addr bytes c =
    loop_end server (length bytes) c
      (parse_loop (length bytes) server.platform addr c.session bytes)

-- `ymo_proto_ws_read` on the bytes at `addr`, at least one. Each round of the loop that goes on
-- reads a byte, so their number bounds the rounds.
unfoldable pub proto_read : Server → ℕ → List ℕ → Conn → ReadResult × Conn
unfolding read_in
proto_read server addr bytes c = read_in c.state server addr bytes c
