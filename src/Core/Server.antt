-- ===== src/Core/Server.antt =====
-- The life of a server and of its connections, src/core/ymo_server.c, without TLS: the count of the
-- connections, the accept and the write callbacks, and the graceful end. The socket calls, what the
-- protocol's callbacks return, and the cleanup of a connection are parameters, on a world `W`; what
-- `user_init` does is not modelled.
pub mod Count
use libyimmo.Base.{
  ℕ, ◌+◌, ◌%◌, ◌^◌, Bool, true, false, ◌&&◌, ◌==◌, if◌then◌else◌, sub_size, Option, none, some,
  Status, okay, eagain,
}
use libyimmo.Core.Conn.{
  ConnState, closed, Conn, conn_create, start_idle_timeout, reset_idle_timeout, Calls, conn_close,
}

-- `ymo_server_state_t`
pub data ServerState : Type 0 where
  server_created server_initialized server_started server_stop_graceful : ServerState

-- `ymo_server_t`: `accepting` says whether the watcher for accepting is started, and `broken` whether
-- `ev_break` has ended the event loop.
pub record Server : Type 0 where
  pub state : ServerState
  pub no_conn : ℕ
  pub accepting : Bool
  pub broken : Bool

-- `ymo_server_create`, where there is memory; the status is that of the protocol's `init_cb`.
abbrev pub server_create : Status → Option Server
server_create okay =
    some (record { state = server_created; no_conn = 0; accepting = false; broken = false })
server_create _ = none

-- `ymo_server_init_socket`: the result of `listen`.
abbrev pub init_socket : Option Status → Server → Status × Server
init_socket (some e) s = (e, s)
init_socket none s = (okay, record s { state = server_initialized })

-- `ymo_server_start`: the error of the idle timeout's text, where it has one.
abbrev pub server_start : Option Status → Server → Status × Server
server_start (some e) s = (e, s)
server_start none s = (okay, record s { state = server_started; accepting = true })

abbrev pub is_stopping : ServerState → Bool
is_stopping server_stop_graceful = true
is_stopping _ = false

-- `ev_break`, where it was the last connection
abbrev pub break_if_last : Server → Server
break_if_last s = if s.no_conn == 0 then record s { broken = true } else s

unfoldable pub stop_graceful : Server → Status × Server
stop_graceful s =
    (okay, break_if_last (record s { accepting = false; state = server_stop_graceful }))

-- The end of `close_and_free_connection`
unfoldable pub conn_gone : Server → Server
conn_gone s =
    let t : Server = record s { no_conn = sub_size s.no_conn 1 } in
    if is_stopping s.state then break_if_last t else t

-- The server, the connection unless it is freed, and the world.
abbrev pub Ended : Type 0 → Type 0
Ended W = Server × Option Conn × W

module _ {W : Type 0} (calls : Calls W) (cleanup : Conn → W → W) (rounds : ℕ) where
  abbrev pub when_closed : Server → ConnState → Conn → W → Ended W
  when_closed s closed c w = (conn_gone s, none, cleanup c w)
  when_closed s _ c w = (s, some c, w)

  abbrev pub free_closed : Server → Option (Conn × W) → Option (Ended W)
  free_closed s none = none
  free_closed s (some (c, w)) = some (when_closed s c.state c w)

  -- `close_and_free_connection`; `none` where the rounds of `ymo_conn_close` are used up.
  unfoldable pub close_and_free : Server → Conn → Bool → W → Option (Ended W)
  close_and_free s c clean w = free_closed s (conn_close calls rounds c clean w)

  -- `ymo_conn_accept` of a socket: whether `ymo_conn_create` succeeds, and the status of
  -- `conn_proto_init`. The `close` of the socket is `close_fd`, like that of a connection.
  abbrev pub accept_created : Server → Status → W → Option (Ended W)
  accept_created s okay w = some (
    record s { no_conn = (s.no_conn + 1) % 2 ^ 64 },
    some (record (start_idle_timeout conn_create) { rx = true }),
    w,
  )
  accept_created s e w = close_and_free s conn_create true w

  unfoldable pub conn_accept : Server → Bool → Status → W → Option (Ended W)
  conn_accept s created init_status w =
      if created then accept_created s init_status w else some (s, none, calls.close_fd w)

  -- `ymo_write_cb`, behind the `write_cb` of the protocol
  abbrev pub after_write : Server → Status → Conn → W → Option (Ended W)
  after_write s okay c w = some (s, some (record c { tx = false }), w)
  after_write s eagain c w = some (s, some c, w)
  after_write s e c w = close_and_free s c true w

  unfoldable pub write_cb : Server → Status × Conn × W → Option (Ended W)
  write_cb s (status, c, w) = after_write s status (reset_idle_timeout c) w
