-- ===== src/Http/Write.antt =====
-- `ymo_proto_http_write` of src/protocol/http/ymo_proto_http.c: the first response of a session goes
-- on the wire. The text of its status, `sendmsg`, the socket calls of `ymo_conn_shutdown`, and
-- `ymo_conn_transition_proto` of ymo_server.c are parameters, on a world `W`. The connection is one
-- without TLS, and the allocation of buckets succeeds.
pub mod Head
pub mod Wire
pub mod Order
use libyimmo.Base.{
  ℕ, ◌^◌, bit_or, Bool, true, false, if◌then◌else◌, Option, none, some, List, [], ◌∷◌, Status, okay,
  eagain,
}
use libyimmo.Core.Bucket.{Bucket, Sent, Sending, returned, still, null_dereference, send_buckets}
use libyimmo.Core.Conn.{Conn, Calls, shutdown_conn}
use libyimmo.Http.HeaderTable.{Memory}
use libyimmo.Http.Exchange.{has_flag, flag_request_keepalive}
use libyimmo.Http.Session.{
  HttpSessionState, session_error, Response, HttpSession, response_ready, response_complete,
  complete_response,
}
use libyimmo.Http.Response.{fill}
use libyimmo.Http.Response.Start.{Started, started, refused, stray, response_start}

-- YMO_HTTP_RESPONSE_STARTED
abbrev pub response_started : ℕ
response_started = 2 ^ 25

-- What the callback reads and changes: the session with its `send_buffer`, the connection, the world.
pub record Writer (W : Type 0) : Type 0 where
  pub session : HttpSession
  pub send_buffer : List Bucket
  pub conn : Conn
  pub world : W

-- The status that the callback returns; or the rounds of `ymo_net_send_buckets` are used up; or there
-- is a write behind a buffer.
pub data WriteEnd (W : Type 0) : Type 0 where
  written : Status → Writer W → WriteEnd W
  sending : Writer W → WriteEnd W
  write_fault : WriteEnd W

-- Whether there is a next response and it is ready.
abbrev pub next_ready : List Response → Bool
next_ready [] = false
next_ready (r ∷ rs) = has_flag r.flags response_ready

abbrev pub with_head : HttpSession → Response → List Response → HttpSession
with_head s r rs = record s { responses = r ∷ rs }

abbrev pub on_conn : {W : Type 0} → Writer W → Conn × W → Writer W
on_conn x (c, w) = record x { conn = c; world = w }

abbrev pub transitioned : {W : Type 0} → Writer W → Status × (Conn × W) → WriteEnd W
transitioned x (status, cw) = written status (on_conn x cw)

module _ {W : Type 0} (calls : Calls W) where
  abbrev pub shut : Writer W → Writer W
  shut x = on_conn x (shutdown_conn calls x.conn x.world).1

  abbrev pub shut_in : HttpSessionState → Writer W → Writer W
  shut_in session_error x = shut x
  shut_in _ x = x

  abbrev pub next_or_end : Writer W → WriteEnd W
  next_or_end x =
      if next_ready x.session.responses
      then written eagain x
      else written okay (shut_in x.session.state x)

module _ {W : Type 0} (calls : Calls W) (transition_proto : Conn → W → Status × (Conn × W)) where
  -- The response is sent. It is freed here, and its `proto_new` is read behind that: the value is
  -- that of before.
  abbrev pub fully_sent : Response → Writer W → WriteEnd W
  fully_sent r x =
      let y = record x { session = (complete_response x.session).1; send_buffer = [] } in
      if r.proto_new
      then transitioned y (transition_proto y.conn y.world)
      else next_or_end calls (if has_flag r.flags flag_request_keepalive then y else shut calls y)

  -- `r_flags` are the flags at the start of the callback.
  abbrev pub behind_send : ℕ → Response → Writer W → Sending W → WriteEnd W
  behind_send r_flags r x (returned okay w chain) =
      let y = record x { send_buffer = chain; world = w } in
      if has_flag r_flags response_complete then fully_sent r y else written okay y
  behind_send r_flags r x (returned status w chain) =
      written status (record x { send_buffer = chain; world = w })
  behind_send r_flags r x (still w chain) = sending (record x { send_buffer = chain; world = w })
  behind_send r_flags r x (null_dereference w) = write_fault

module _ {W : Type 0} (calls : Calls W) (transition_proto : Conn → W → Status × (Conn × W))
    (sendmsg : W → List (List ℕ) → Sent × W) (rounds : ℕ) where
  abbrev pub send_filled :
      ℕ → List Response → Writer W → Option (List Bucket × Response) → WriteEnd W
  send_filled r_flags rs x none = write_fault
  send_filled r_flags rs x (some (chain, r)) =
      behind_send calls transition_proto r_flags r
        (record x { session = with_head x.session r rs; send_buffer = chain })
        (send_buckets sendmsg rounds x.world chain)

  abbrev pub when_started : ℕ → List Response → Writer W → Started × Response → WriteEnd W
  when_started r_flags rs x (started b, r) =
      send_filled r_flags rs x
        (fill (b ∷ []) (record r { flags = bit_or r.flags response_started }))
  when_started r_flags rs x (refused e, r) =
      written e (record x { session = with_head x.session r rs; send_buffer = [] })
  when_started r_flags rs x (stray, r) = write_fault

  module _ (memory : Memory) (nodes : ℕ) (status_str : Response → List ℕ) where
    abbrev pub write_head : Writer W → List Response → WriteEnd W
    write_head x [] = written okay x
    write_head x (r ∷ rs) =
        if has_flag r.flags response_ready
        then if has_flag r.flags response_started
          then send_filled r.flags rs x (fill x.send_buffer r)
          else when_started r.flags rs x (response_start memory nodes (status_str r) r)
        else written okay x

    unfoldable pub proto_write : Writer W → WriteEnd W
    proto_write x = write_head x x.session.responses
