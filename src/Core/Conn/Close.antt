-- ===== src/Core/Conn/Close.antt =====
-- The end of a connection (src/core/ymo_conn.c): where it comes, and where it does not.
use libyimmo.Base.{
  ℕ, zero, suc, Bool, true, false, Option, none, some, Status, ◌≡◌, ◌⊎◌, inl, inr, refl, sym, ap,
  arith,
}
use libyimmo.Core.Conn.{
  ConnState, conn_open, tls_handshake, tls_established, tls_closing, tls_closed, conn_shutdown,
  closing, closed, Conn, Received, received, recv_failed, Calls, shutdown_conn, while_received,
  drain, drained, close_open, close_in, conn_close,
}

-- A number of a result: 0 for the one that ends the draining.
abbrev count : Received → ℕ
count (received zero) = 0
count (received (suc n)) = 1
count (recv_failed e) = 1

module _ {W : Type 0} (calls : Calls W) where
  -- Closed, with both watchers stopped.
  abbrev pub IsClosed : Option (Conn × W) → Type 0
  IsClosed none = ⊥
  IsClosed (some (c, w)) = (c.state ≡ closed) × (c.rx ≡ false) × (c.tx ≡ false)

  -- `recv` says that the peer has closed, after at most so many other results.
  abbrev pub PeerCloses : ℕ → W → Type 0
  PeerCloses zero w = (calls.recv w).0 ≡ received 0
  PeerCloses (suc n) w = ((calls.recv w).0 ≡ received 0) ⊎ PeerCloses n (calls.recv w).1

  -- The result of the draining, where it has an end.
  abbrev pub Drained : Option W → Type 0
  Drained none = ⊥
  Drained (some w) = Unit

  round-Drained :
      (again : W → Option W) (r : Received × W)
      → (r.0 ≡ received 0) ⊎ Drained (again r.1)
      → Drained (while_received calls again r)
  round-Drained again (received zero, w) h = tt
  round-Drained again (received (suc n), w) (inr h) = h
  round-Drained again (received (suc n), w) (inl e) = absurd (omega (arith, ap count e))
  round-Drained again (recv_failed x, w) (inr h) = h
  round-Drained again (recv_failed x, w) (inl e) = absurd (omega (arith, ap count e))

  drain-Drained : (n : ℕ) (w : W) → PeerCloses n w → Drained (drain calls (suc n) w)
  unfolding drain
  drain-Drained zero w h = round-Drained (drain calls zero) (calls.recv w) (inl h)
  drain-Drained (suc n) w (inl e) = round-Drained (drain calls (suc n)) (calls.recv w) (inl e)
  drain-Drained (suc n) w (inr h) =
      round-Drained (drain calls (suc n)) (calls.recv w) (inr (drain-Drained n (calls.recv w).1 h))

  drained-IsClosed : (c : Conn) (o : Option W) → Drained o → IsClosed (drained calls c o)
  drained-IsClosed c none h = h
  drained-IsClosed c (some w) h = (refl, refl, refl)

  module _ (n : ℕ) (peer : (w : W) → PeerCloses n w) where
    open-IsClosed : (r : Status × (Conn × W)) → IsClosed (close_open calls (suc n) r)
    open-IsClosed (rc, (c, w)) =
        drained-IsClosed c (drain calls (suc n) w) (drain-Drained n w (peer w))

    close_in-IsClosed :
        (st : ConnState) (c : Conn) (w : W)
        → st ≡ c.state
        → IsClosed (close_in calls (suc n) st c w)
    close_in-IsClosed conn_shutdown c w e =
        drained-IsClosed c (drain calls (suc n) w) (drain-Drained n w (peer w))
    close_in-IsClosed closing c w e = (refl, refl, refl)
    close_in-IsClosed closed c w e = (sym e, refl, refl)
    close_in-IsClosed conn_open c w e = open-IsClosed (shutdown_conn calls c w)
    close_in-IsClosed tls_handshake c w e = open-IsClosed (shutdown_conn calls c w)
    close_in-IsClosed tls_established c w e = open-IsClosed (shutdown_conn calls c w)
    close_in-IsClosed tls_closing c w e = open-IsClosed (shutdown_conn calls c w)
    close_in-IsClosed tls_closed c w e = open-IsClosed (shutdown_conn calls c w)

    -- Where `recv` says that the peer has closed, after at most `n` other results, whatever the
    -- state of the connection, whether `shutdown` succeeds, and whether the end is to be clean:
    -- `ymo_conn_close` returns, within one round more, and the connection is closed with both
    -- watchers stopped.
    pub conn_close-IsClosed :
        (c : Conn) (clean : Bool) (w : W) → IsClosed (conn_close calls (suc n) c clean w)
    unfolding conn_close
    conn_close-IsClosed c true w = close_in-IsClosed c.state c w refl
    conn_close-IsClosed c false w = (refl, refl, refl)

  -- The states from which a clean end reads what is left.
  abbrev pub IsDraining : ConnState → Type 0
  IsDraining closing = ⊥
  IsDraining closed = ⊥
  IsDraining _ = Unit

  -- -1, with any errno
  abbrev pub Fails : Received → Type 0
  Fails (received n) = ⊥
  Fails (recv_failed e) = Unit

  module _ (blocked : (w : W) → Fails (calls.recv w).0) where
    round-none :
        (again : W → Option W) (r : Received × W)
        → ((w : W) → again w ≡ none)
        → Fails r.0
        → while_received calls again r ≡ none
    round-none again (received zero, w) h f = absurd f
    round-none again (received (suc n), w) h f = absurd f
    round-none again (recv_failed e, w) h f = h w

    drain-none : (rounds : ℕ) (w : W) → drain calls rounds w ≡ none
    unfolding drain
    drain-none zero w = refl
    drain-none (suc rounds) w =
        round-none (drain calls rounds) (calls.recv w) (drain-none rounds) (blocked w)

    open_stuck : (rounds : ℕ) (r : Status × (Conn × W)) → close_open calls rounds r ≡ none
    open_stuck rounds (rc, (c, w)) = ap (drained calls c) (drain-none rounds w)

    stuck_in :
        (rounds : ℕ) (st : ConnState) (c : Conn) (w : W)
        → IsDraining st
        → close_in calls rounds st c w ≡ none
    stuck_in rounds conn_shutdown c w h = ap (drained calls c) (drain-none rounds w)
    stuck_in rounds closing c w h = absurd h
    stuck_in rounds closed c w h = absurd h
    stuck_in rounds conn_open c w h = open_stuck rounds (shutdown_conn calls c w)
    stuck_in rounds tls_handshake c w h = open_stuck rounds (shutdown_conn calls c w)
    stuck_in rounds tls_established c w h = open_stuck rounds (shutdown_conn calls c w)
    stuck_in rounds tls_closing c w h = open_stuck rounds (shutdown_conn calls c w)
    stuck_in rounds tls_closed c w h = open_stuck rounds (shutdown_conn calls c w)

    -- Where `recv` returns -1, with whatever errno, as on a socket without blocking while the peer
    -- sends nothing: a clean end of a connection that is not closing or closed yet does not come,
    -- for any number of rounds.
    pub conn_close-stuck :
        (rounds : ℕ) (c : Conn) (w : W)
        → IsDraining c.state
        → conn_close calls rounds c true w ≡ none
    unfolding conn_close
    conn_close-stuck rounds c w h = stuck_in rounds c.state c w h
