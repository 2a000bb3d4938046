-- ===== src/Core/Server/Count.antt =====
-- How `no_conn` (src/core/ymo_server.c) counts the connections, and when the event loop of a server
-- that stops is broken.
use mathlib.Core.Path.{subst}
use libyimmo.Base.{
  ℕ, suc, ◌+◌, ◌%◌, ◌^◌, ◌<◌, Bool, true, false, Bool-cases, inl, inr, ◌&&◌, ◌||◌, ◌==◌, sub_size,
  Option, none, some, Status, okay, ◌≡◌, refl, sym, ap, ap₂, ◌∙◌, arith,
}
use libyimmo.Core.Conn.{ConnState, closed, Conn, conn_create, Calls, conn_close}
use libyimmo.Core.Server.{
  server_started, server_stop_graceful, Server, is_stopping, stop_graceful, conn_gone, Ended,
  when_closed, free_closed, close_and_free, conn_accept,
}

abbrev kept : {W : Type 0} → Option (Ended W) → ℕ
kept none = 2
kept (some (s, none, w)) = 0
kept (some (s, some c, w)) = 1

abbrev server_of : {W : Type 0} → Server → Option (Ended W) → Server
server_of s none = s
server_of s (some (t, c, w)) = t

module _ {W : Type 0} (calls : Calls W) (cleanup : Conn → W → W) (rounds : ℕ) where
  -- A server comes to a state with so many connections that are open, and so many that were
  -- created and could not be initialised: an accept, while the watcher is started, with fewer than
  -- 2^64 connections; the end of a connection, cleanly or not; and the stop of the server.
  pub data Reaches : Server → ℕ → ℕ → Type 0 where
    begins :
        (s : Server) → s.state ≡ server_started → s.no_conn ≡ 0 → s.broken ≡ false → Reaches s 0 0
    accepts :
        (s t : Server) (n failed : ℕ) (c : Conn) (w v : W)
        → Reaches s n failed
        → s.accepting ≡ true
        → suc n < 2 ^ 64
        → conn_accept calls cleanup rounds s true okay w ≡ some (t, some c, v)
        → Reaches t (suc n) failed
    rejects :
        (s t : Server) (n failed : ℕ) (e : Status) (w v : W)
        → Reaches s n failed
        → s.accepting ≡ true
        → conn_accept calls cleanup rounds s true e w ≡ some (t, none, v)
        → Reaches t n (suc failed)
    ends :
        (s t : Server) (n failed : ℕ) (c : Conn) (clean : Bool) (w v : W)
        → Reaches s (suc n) failed
        → close_and_free calls cleanup rounds s c clean w ≡ some (t, none, v)
        → Reaches t n failed
    stops :
        (s : Server) (n failed : ℕ)
        → Reaches s n failed
        → s.state ≡ server_started
        → Reaches (stop_graceful s).1 n failed

  when_closed-gone :
      (s t : Server) (state : ConnState) (c : Conn) (w v : W)
      → some (when_closed calls cleanup rounds s state c w) ≡ some (t, none, v)
      → t ≡ conn_gone s
  when_closed-gone s t closed c w v e = sym (ap (server_of s) e)
  when_closed-gone s t _ c w v e = absurd (omega (arith, ap kept e))

  free_closed-gone :
      (s t : Server) (o : Option (Conn × W)) (v : W)
      → free_closed calls cleanup rounds s o ≡ some (t, none, v)
      → t ≡ conn_gone s
  free_closed-gone s t none v e = absurd (omega (arith, ap kept e))
  free_closed-gone s t (some (c, w)) v e = when_closed-gone s t c.state c w v e

  close_and_free-gone :
      (s t : Server) (c : Conn) (clean : Bool) (w v : W)
      → close_and_free calls cleanup rounds s c clean w ≡ some (t, none, v)
      → t ≡ conn_gone s
  unfolding close_and_free
  close_and_free-gone s t c clean w v e =
      free_closed-gone s t (conn_close calls rounds c clean w) v e

  conn_accept-gone :
      (s t : Server) (e : Status) (w v : W)
      → conn_accept calls cleanup rounds s true e w ≡ some (t, none, v)
      → t ≡ conn_gone s
  unfolding conn_accept
  conn_accept-gone s t okay w v e = absurd (omega (arith, ap kept e))
  conn_accept-gone s t _ w v e = close_and_free-gone s t conn_create true w v e

  conn_accept-counted :
      (s t : Server) (c : Conn) (w v : W)
      → conn_accept calls cleanup rounds s true okay w ≡ some (t, some c, v)
      → t ≡ record s { no_conn = (s.no_conn + 1) % 2 ^ 64 }
  unfolding conn_accept
  conn_accept-counted s t c w v e = sym (ap (server_of s) e)

-- What is known of a server that has come to its state with `n` connections open.
pub record IsCounted (s : Server) (n failed : ℕ) : Type 0 where
  pub total : (s.no_conn + failed) % 2 ^ 64 ≡ n
  pub small : s.no_conn < 2 ^ 64
  pub watched : (is_stopping s.state && s.accepting) ≡ false
  pub ending : failed ≡ 0 → s.broken ≡ (is_stopping s.state && (n == 0))

-- The server without the connection; only `broken` may have changed besides.
conn_gone-fields :
    (s : Server)
    → conn_gone s ≡ record s {
      no_conn = sub_size s.no_conn 1;
      broken = (is_stopping s.state && (sub_size s.no_conn 1 == 0)) || s.broken;
    }
unfolding conn_gone
conn_gone-fields s = elim (Bool-cases (is_stopping s.state)) [
  | inl e ↦ elim (Bool-cases (sub_size s.no_conn 1 == 0)) [
    | inl z ↦ rw (e, z) refl
    | inr z ↦ rw (e, z) refl
  ]
  | inr e ↦ rw e refl
]

stop_graceful-fields :
    (s : Server)
    → (stop_graceful s).1 ≡ record s {
      state = server_stop_graceful;
      accepting = false;
      broken = (s.no_conn == 0) || s.broken;
    }
unfolding stop_graceful
stop_graceful-fields s = elim (Bool-cases (s.no_conn == 0)) [
  | inl z ↦ rw z refl
  | inr z ↦ rw z refl
]

or_false : (b : Bool) → (b || false) ≡ b
or_false true = refl
or_false false = refl

was_last :
    (stopping : Bool) (n : ℕ)
    → ((stopping && (n == 0)) || (stopping && (suc n == 0))) ≡ (stopping && (n == 0))
was_last false n = refl
was_last true n =
    let some_conn : (suc n == 0) ≡ false = ground arith in
    ap (λ x. (n == 0) || x) some_conn ∙ or_false (n == 0)

ends-IsCounted :
    (s : Server) (n failed : ℕ) → IsCounted s (suc n) failed → IsCounted (conn_gone s) n failed
ends-IsCounted s n failed h =
    let total : (s.no_conn + failed) % 2 ^ 64 ≡ suc n = h.total in
    let small : s.no_conn < 2 ^ 64 = h.small in
    subst (λ t. IsCounted t n failed) (sym (conn_gone-fields s))
      (record {
        total = omega arith;
        small = omega arith;
        watched = h.watched;
        ending = λ none_failed.
            ap₂ (λ k x. (is_stopping s.state && (k == 0)) || x) (omega arith) (h.ending none_failed)
            ∙ was_last (is_stopping s.state) n;
      })

rejects-IsCounted :
    (s : Server) (n failed : ℕ) → IsCounted s n failed → IsCounted (conn_gone s) n (suc failed)
rejects-IsCounted s n failed h =
    let total : (s.no_conn + failed) % 2 ^ 64 ≡ n = h.total in
    let small : s.no_conn < 2 ^ 64 = h.small in
    subst (λ t. IsCounted t n (suc failed)) (sym (conn_gone-fields s))
      (record {
        total = omega arith;
        small = omega arith;
        watched = h.watched;
        ending = λ none_failed. absurd (omega arith);
      })

accepts-IsCounted :
    (s : Server) (n failed : ℕ)
    → s.accepting ≡ true
    → suc n < 2 ^ 64
    → IsCounted s n failed
    → IsCounted (record s { no_conn = (s.no_conn + 1) % 2 ^ 64 }) (suc n) failed
accepts-IsCounted s n failed accepting few h =
    let total : (s.no_conn + failed) % 2 ^ 64 ≡ n = h.total in
    let runs : is_stopping s.state ≡ false =
      sym (and-true (is_stopping s.state))
      ∙ ap (λ a. is_stopping s.state && a) (sym accepting)
      ∙ h.watched in
    record {
      total = omega arith;
      small = omega arith;
      watched = h.watched;
      ending = λ none_failed.
          h.ending none_failed
          ∙ ap (λ b. b && (n == 0)) runs
          ∙ sym (ap (λ b. b && (suc n == 0)) runs);
    }
  where
    and-true : (b : Bool) → (b && true) ≡ b
    and-true true = refl
    and-true false = refl

stops-IsCounted :
    (s : Server) (n failed : ℕ)
    → s.state ≡ server_started
    → IsCounted s n failed
    → IsCounted (stop_graceful s).1 n failed
stops-IsCounted s n failed running h =
    let total : (s.no_conn + failed) % 2 ^ 64 ≡ n = h.total in
    let small : s.no_conn < 2 ^ 64 = h.small in
    subst (λ t. IsCounted t n failed) (sym (stop_graceful-fields s))
      (record {
        total = h.total;
        small = h.small;
        watched = refl;
        ending = λ none_failed.
            ap₂ (λ k x. (k == 0) || x) (omega arith)
              (h.ending none_failed ∙ ap (λ t. is_stopping t && (n == 0)) running)
            ∙ or_false (n == 0);
      })

module _ {W : Type 0} (calls : Calls W) (cleanup : Conn → W → W) (rounds : ℕ) where
  -- In each state that a started server comes to by accepts, ends and its stop: `no_conn` is the
  -- number of the connections that are open, less one for each connection that could not be
  -- initialised, as a size_t; while the server stops it does not accept; and where none failed so,
  -- the event loop is broken exactly when the server stops and no connection is open.
  pub Reaches-IsCounted :
      (s : Server) (n failed : ℕ) → Reaches calls cleanup rounds s n failed → IsCounted s n failed
  Reaches-IsCounted _ _ _ (begins s running empty whole) = record {
    total = omega arith;
    small = omega arith;
    watched = ap (λ t. is_stopping t && s.accepting) running;
    ending = λ none_failed. whole ∙ sym (ap (λ t. is_stopping t && true) running);
  }
  Reaches-IsCounted _ _ _ (accepts s t n failed c w v r accepting few e) =
      subst (λ u. IsCounted u (suc n) failed)
        (sym (conn_accept-counted calls cleanup rounds s t c w v e))
        (accepts-IsCounted s n failed accepting few (Reaches-IsCounted s n failed r))
  Reaches-IsCounted _ _ _ (rejects s t n failed e w v r accepting h) =
      subst (λ u. IsCounted u n (suc failed))
        (sym (conn_accept-gone calls cleanup rounds s t e w v h))
        (rejects-IsCounted s n failed (Reaches-IsCounted s n failed r))
  Reaches-IsCounted _ _ _ (ends s t n failed c clean w v r e) =
      subst (λ u. IsCounted u n failed)
        (sym (close_and_free-gone calls cleanup rounds s t c clean w v e))
        (ends-IsCounted s n failed (Reaches-IsCounted s (suc n) failed r))
  Reaches-IsCounted _ _ _ (stops s n failed r running) =
      stops-IsCounted s n failed running (Reaches-IsCounted s n failed r)
