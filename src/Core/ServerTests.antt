-- ===== src/Core/ServerTests.antt =====
-- Runs of the life of a server.
use libyimmo.Base.{ℕ, suc, ◌-◌, ◌^◌, true, false, none, some, okay, enomem, ◌≡◌, refl, arith}
use libyimmo.Core.Conn.{
  Conn, conn_create, start_idle_timeout, reset_idle_timeout, received, Calls, shutdown_conn, drain,
  conn_close,
}
use libyimmo.Core.Server.{
  server_started, server_stop_graceful, Server, stop_graceful, conn_gone, close_and_free,
  conn_accept, write_cb,
}
use libyimmo.Core.Server.Count.{begins, accepts, ends, stops, IsCounted, Reaches-IsCounted}

-- A peer that closes at once; the world is the number of descriptors that were closed.
abbrev polite : Calls ℕ
polite = record { shutdown = λ w. (none, w); recv = λ w. (received 0, w); close_fd = suc }

abbrev no_cleanup : Conn → ℕ → ℕ
no_cleanup c w = w

abbrev waiting : Server
waiting = record { state = server_started; no_conn = 0; accepting = true; broken = false }

abbrev busy : Server
busy = record waiting { no_conn = 1 }

abbrev finished : Server
finished = record { state = server_stop_graceful; no_conn = 0; accepting = false; broken = true }

abbrev accepted : Conn
accepted = record (start_idle_timeout conn_create) { rx = true }

accept_one : conn_accept polite no_cleanup 2 waiting true okay 0 ≡ some (busy, some accepted, 0)
unfolding conn_accept
accept_one = refl

end_one :
    close_and_free polite no_cleanup 2 (stop_graceful busy).1 accepted true 0
    ≡ some (finished, none, 1)
unfolding close_and_free conn_close shutdown_conn drain conn_gone stop_graceful
end_one = refl

-- A connection that cannot be initialised is taken off the count, in which it is not.
accept_failing :
    conn_accept polite no_cleanup 2 waiting true enomem 0
    ≡ some (record waiting { no_conn = 2 ^ 64 - 1 }, none, 1)
unfolding conn_accept close_and_free conn_close shutdown_conn drain conn_gone
accept_failing = refl

-- An error of the protocol ends the connection, and YMO_OKAY stops the watcher for writing.
write_failing :
    write_cb polite no_cleanup 2 busy (enomem, accepted, 0)
    ≡ some (record busy { no_conn = 0 }, none, 1)
unfolding write_cb reset_idle_timeout close_and_free conn_close shutdown_conn drain conn_gone
write_failing = refl

Reaches-IsCounted_example : IsCounted finished 0 0
Reaches-IsCounted_example = Reaches-IsCounted polite no_cleanup 2 finished 0 0 (
    ends (stop_graceful busy).1 finished 0 0 accepted true 0 1
      (stops busy 1 0
        (accepts waiting busy 0 0 accepted 0 0 (begins waiting refl refl refl) refl (omega arith)
          accept_one)
        refl)
      end_one)
