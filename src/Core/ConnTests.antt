-- ===== src/Core/ConnTests.antt =====
-- Runs of the end of a connection.
use libyimmo.Base.{Bool, true, false, none, some, epipe, eagain, ◌≡◌, refl, inl, inr}
use libyimmo.Core.Conn.{
  closed, conn_create, start_idle_timeout, Received, received, recv_failed, Calls, shutdown_conn,
  drain, conn_close,
}
use libyimmo.Core.Conn.Close.{IsClosed, PeerCloses, conn_close-IsClosed, conn_close-stuck}

-- The world is true while the peer is still there: one `recv` fails, and the next one ends.
abbrev recv_once : Bool → Received × Bool
recv_once true = (recv_failed eagain, false)
recv_once false = (received 0, false)

abbrev leaving : Calls Bool
leaving = record { shutdown = λ w. (none, w); recv = recv_once; close_fd = λ w. w }

leaving-PeerCloses : (w : Bool) → PeerCloses leaving 1 w
leaving-PeerCloses true = inr refl
leaving-PeerCloses false = inl refl

-- A peer that sends nothing, and a socket that cannot be shut down.
abbrev silent : Calls Bool
silent = record {
  shutdown = λ w. (some epipe, w);
  recv = λ w. (recv_failed eagain, w);
  close_fd = λ w. w;
}

closes :
    conn_close leaving 2 (start_idle_timeout conn_create) true true
    ≡ some (record { state = closed; rx = false; tx = false; toq = true; armed = false }, false)
unfolding conn_close shutdown_conn drain
closes = refl

-- A failed shutdown leaves the state.
shutdown_fails : shutdown_conn silent conn_create true ≡ (epipe, (conn_create, true))
unfolding shutdown_conn
shutdown_fails = refl

conn_close-IsClosed_example : IsClosed leaving (conn_close leaving 2 conn_create true true)
conn_close-IsClosed_example = conn_close-IsClosed leaving 1 leaving-PeerCloses conn_create true true

conn_close-stuck_example : conn_close silent 9 conn_create true true ≡ none
conn_close-stuck_example = conn_close-stuck silent (λ w. tt) 9 conn_create true tt
