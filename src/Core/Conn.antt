-- ===== src/Core/Conn.antt =====
-- The states of a connection, src/core/ymo_conn.c: its watchers, its idle timeout, `ymo_conn_shutdown`
-- and `ymo_conn_close`. The socket calls are parameters on a world `W`.
pub mod Close
use libyimmo.Base.{
  ℕ, zero, suc, Bool, true, false, ltb, if◌then◌else◌, Option, none, some, Status, okay,
}

pub data ConnState : Type 0 where
  conn_open tls_handshake tls_established tls_closing tls_closed conn_shutdown closing closed :
      ConnState

-- `ymo_conn_t`: `rx` and `tx` say whether the watchers for reading and writing are started, `toq`
-- whether there is a queue of timeouts, and `armed` whether the idle timeout is started.
pub record Conn : Type 0 where
  pub state : ConnState
  pub rx : Bool
  pub tx : Bool
  pub toq : Bool
  pub armed : Bool

-- `ymo_conn_create` with the timeout as `bsat_timeout_init` leaves it
abbrev pub conn_create : Conn
conn_create = record { state = conn_open; rx = false; tx = false; toq = false; armed = false }

abbrev pub start_idle_timeout : Conn → Conn
start_idle_timeout c = record c { toq = true; armed = true }

-- The switch of `ymo_conn_reset_idle_timeout`: a reset or a start, where the state allows it.
abbrev pub reset_in : ConnState → Conn → Conn
reset_in conn_open c = record c { armed = true }
reset_in tls_handshake c = record c { armed = true }
reset_in tls_established c = record c { armed = true }
reset_in tls_closing c = c
reset_in tls_closed c = c
reset_in conn_shutdown c = record c { armed = true }
reset_in closing c = record c { armed = true }
reset_in closed c = c

unfoldable pub reset_idle_timeout : Conn → Conn
reset_idle_timeout c = reset_in c.state c

abbrev pub cancel_idle_timeout : Conn → Conn
cancel_idle_timeout c = if c.toq then record c { armed = false } else c

-- What `recv` says: a number of bytes, 0 where the peer has closed; or -1 with errno.
pub data Received : Type 0 where
  received : ℕ → Received
  recv_failed : Status → Received

-- `shutdown` returns 0, here `none`, or -1 with errno. The other calls of the end, the second
-- `shutdown` and `close`, are `close_fd`, whose results are not looked at.
pub record Calls (W : Type 0) : Type 0 where
  pub shutdown : W → Option Status × W
  pub recv : W → Received × W
  pub close_fd : W → W

module _ {W : Type 0} (calls : Calls W) where
  -- The cases from YMO_CONN_SHUTDOWN on
  abbrev pub half_closed : Conn → Conn
  half_closed c = record c { rx = true; tx = false }

  abbrev pub after_shutdown : Conn → Option Status × W → Status × (Conn × W)
  after_shutdown c (none, w) = (okay, (half_closed (record c { state = conn_shutdown }), w))
  after_shutdown c (some e, w) = (e, (c, w))

  abbrev pub shutdown_in : ConnState → Conn → W → Status × (Conn × W)
  shutdown_in conn_shutdown c w = (okay, (half_closed c, w))
  shutdown_in closing c w = (okay, (half_closed c, w))
  shutdown_in closed c w = (okay, (c, w))
  shutdown_in _ c w = after_shutdown c (calls.shutdown w)

  unfoldable pub shutdown_conn : Conn → W → Status × (Conn × W)
  shutdown_conn c w = shutdown_in c.state c w

  -- `do { len = recv(...) } while( len > 0 )`: `len` is a size_t, so that -1 is more than 0 as well.
  -- `none` where the rounds are used up.
  abbrev pub while_received : (W → Option W) → Received × W → Option W
  while_received again (received zero, w) = some w
  while_received again (received (suc n), w) = again w
  while_received again (recv_failed e, w) = again w

  unfoldable pub drain : ℕ → W → Option W
  drain zero w = none
  drain (suc rounds) w = while_received (drain rounds) (calls.recv w)

  -- The case YMO_CONN_CLOSING and those behind it
  abbrev pub close_now : Conn → W → Conn × W
  close_now c w =
      (record (cancel_idle_timeout c) { state = closed; rx = false; tx = false }, calls.close_fd w)

  -- The case YMO_CONN_SHUTDOWN and those behind it. Its test `len < 0` is never true.
  abbrev pub drained : Conn → Option W → Option (Conn × W)
  drained c none = none
  drained c (some w) = some (close_now (record c { state = closing }) w)

  abbrev pub close_open : ℕ → Status × (Conn × W) → Option (Conn × W)
  close_open rounds (rc, (c, w)) = drained c (drain rounds w)

  abbrev pub close_in : ℕ → ConnState → Conn → W → Option (Conn × W)
  close_in rounds conn_shutdown c w = drained c (drain rounds w)
  close_in rounds closing c w = some (close_now c w)
  close_in rounds closed c w = some (record c { rx = false; tx = false }, w)
  close_in rounds _ c w = close_open rounds (shutdown_conn c w)

  unfoldable pub conn_close : ℕ → Conn → Bool → W → Option (Conn × W)
  conn_close rounds c clean w =
      if clean
      then close_in rounds c.state c w
      else close_in rounds closing (record c { state = closing }) w
