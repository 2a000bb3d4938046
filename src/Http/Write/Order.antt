-- ===== src/Http/Write/Order.antt =====
-- The responses of a session leave in their order, src/protocol/http/ymo_proto_http.c.
use mathlib.Core.Path.{subst}
use libyimmo.Base.{
  ℕ, zero, suc, ◌+◌, ◌^◌, ◌≤◌, ◌<◌, true, List, [], ◌∷◌, ◌++◌, append_assoc, append-nil, length,
  All, if◌then◌else◌, Status, okay, eagain, ◌≡◌, refl, sym, ap, ◌∙◌, arith, Bool, ◌&&◌, ap₂,
}
use libyimmo.Core.Bucket.{bytes_of, Sent}
use libyimmo.Core.Bucket.Chain.{InRange}
use libyimmo.Core.Bucket.Stream.{Sends}
use libyimmo.Core.Bucket.Drain.{Unfinished, Progress}
use libyimmo.Core.Conn.{Conn, Calls}
use libyimmo.Http.HeaderTable.{Memory, bucket_size}
use libyimmo.Http.HeaderTable.Iterate.{nodes_from, IsPlaced}
use libyimmo.Http.Session.{HttpSessionState, Response}
use libyimmo.Http.Response.Start.{send_buf_size, should_buffer_body}
use libyimmo.Http.Response.Text.{IsPlain, fields_text}
use libyimmo.Http.Write.{next_ready, Writer, WriteEnd, written, sending, write_fault, proto_write}
use libyimmo.Http.Write.Head.{IsPending, message}
use libyimmo.Http.Exchange.{has_flag, flag_request_keepalive}
use libyimmo.Http.Write.Wire.{Stays, IsSent, proto_write-IsSent}

-- Behind YMO_WOULDBLOCK `ymo_write_cb` leaves the watcher for writing as it is, and the event loop
-- calls the callback again where it is on: `ymo_conn_shutdown` stops it.
abbrev pub while_blocked : {W : Type 0} → (Writer W → WriteEnd W) → WriteEnd W → WriteEnd W
while_blocked again (written eagain x) = if x.conn.tx then again x else written eagain x
while_blocked again e = e

-- Each response but the last has keep-alive.
abbrev pub KeepAlive : List Response → Type 0
KeepAlive [] = Unit
KeepAlive (r ∷ []) = Unit
KeepAlive (r ∷ q ∷ rs) = (has_flag r.flags flag_request_keepalive ≡ true) × KeepAlive (q ∷ rs)

module _ (memory : Memory) (nodes rounds : ℕ) (status_str : Response → List ℕ) where
  -- Whole, with a head that fits in its buffer and a body that is still to be sent.
  pub record IsWritable (r : Response) : Type 0 where
    pub pending : IsPending r
    pub some_status : 1 ≤ length (status_str r)
    pub placed : IsPlaced (should_buffer_body memory r).1.headers
    pub enough : length (nodes_from bucket_size 0 (should_buffer_body memory r).1.headers) ≤ nodes
    pub plain : All IsPlain (nodes_from bucket_size 0 (should_buffer_body memory r).1.headers)
    pub fits :
        length (status_str r)
          + 11
          + length (fields_text (nodes_from bucket_size 0 (should_buffer_body memory r).1.headers))
        ≤ send_buf_size
    pub inside : All InRange r.body
    pub unfinished : All Unfinished r.body
    pub most : length (message memory (status_str r) r) ≤ rounds
    pub sized : length (message memory (status_str r) r) < 2 ^ 64

  abbrev pub messages : List Response → List ℕ
  messages [] = []
  messages (r ∷ rs) = message memory (status_str r) r ++ messages rs

  module _ {W : Type 0} (sendmsg : W → List (List ℕ) → Sent × W) (calls : Calls W)
      (transition_proto : Conn → W → Status × (Conn × W)) where
    unfoldable pub write_loop : ℕ → Writer W → WriteEnd W
    write_loop zero x = sending x
    write_loop (suc n) x =
        while_blocked (write_loop n)
          (proto_write calls transition_proto sendmsg rounds memory nodes status_str x)

    module _ (wire : W → List ℕ) (Writable : W → Type 0)
        (documented : (w : W) (vec : List (List ℕ))
          → Sends wire (wire w) (bytes_of vec) (sendmsg w vec))
        (progress : (w : W) (vec : List (List ℕ))
          → Writable w
          → 1 ≤ length (bytes_of vec)
          → Progress (sendmsg w vec).0 × Writable (sendmsg w vec).1)
        (silent : (w : W) → wire (calls.shutdown w).1 ≡ wire w) where
      -- YMO_OKAY, no response left in the session, nothing left in the send buffer, and `all` on the
      -- wire.
      abbrev pub AllSent : List ℕ → HttpSessionState → WriteEnd W → Type 0
      AllSent all state (written status x) =
          (status ≡ okay)
          × (x.session ≡ record { state = state; responses = [] })
          × (x.send_buffer ≡ [])
          × (wire x.world ≡ all)
      AllSent all state (sending x) = ⊥
      AllSent all state write_fault = ⊥

      written-IsSent :
          (x : Writer W) (r : Response) (rs : List Response)
          → x.session.responses ≡ r ∷ rs
          → Writable x.world
          → IsWritable r
          → IsSent wire Writable
              (wire x.world ++ message memory (status_str r) r)
              x.session.state
              rs
              (has_flag r.flags flag_request_keepalive)
              x.conn
              (proto_write calls transition_proto sendmsg rounds memory nodes status_str x)
      written-IsSent x r rs e can h =
          proto_write-IsSent wire Writable memory nodes rounds status_str sendmsg calls
            transition_proto documented progress silent x r rs e can h.pending h.some_status
            h.placed h.enough h.plain h.fits h.inside h.unfinished h.most h.sized

      last-AllSent :
          (again : Writer W → WriteEnd W) (all : List ℕ) (state : HttpSessionState)
          (keepalive : Bool) (c : Conn) (o : WriteEnd W)
          → IsSent wire Writable all state [] keepalive c o
          → AllSent all state (while_blocked again o)
      last-AllSent again all state keepalive c (written status y) (ok, same, empty, on_wire, stay) =
          subst (λ a. AllSent all state (while_blocked again (written a y))) (sym ok)
            (refl, same, empty, on_wire)
      last-AllSent again all state keepalive c (sending y) h = absurd h
      last-AllSent again all state keepalive c write_fault h = absurd h

      next-AllSent :
          (again : Writer W → WriteEnd W) (before all : List ℕ) (state : HttpSessionState)
          (rs : List Response) (keepalive : Bool) (c : Conn)
          → next_ready rs ≡ true
          → keepalive ≡ true
          → c.tx ≡ true
          → ((y : Writer W)
              → y.session ≡ record { state = state; responses = rs }
              → wire y.world ≡ before
              → Writable y.world
              → y.conn.tx ≡ true
              → AllSent all state (again y))
          → (o : WriteEnd W) → IsSent wire Writable before state rs keepalive c o
          → AllSent all state (while_blocked again o)
      next-AllSent again before all state rs keepalive c ready alive watched rest (written status y)
            (ok, same, empty, on_wire, stay) =
          let blocked : status ≡ eagain = ok ∙ ap (λ b. if b then eagain else okay) ready in
          let stays : Stays wire Writable true c y =
            subst (λ b. Stays wire Writable b c y) (ap₂ (λ a b. a && b) ready alive) stay in
          let on : y.conn.tx ≡ true = ap (λ d. d.tx) stays.0 ∙ watched in
          subst (λ a. AllSent all state (while_blocked again (written a y))) (sym blocked)
            (subst (λ b. AllSent all state (if b then again y else written eagain y)) (sym on)
              (rest y same on_wire stays.1 on))
      next-AllSent again before all state rs keepalive c ready alive watched rest (sending y) h =
          absurd h
      next-AllSent again before all state rs keepalive c ready alive watched rest write_fault h =
          absurd h

      -- For a session with responses that are each ready and complete when they are first written,
      -- with heads that fit and bodies to be sent, each but the last with keep-alive; a `sendmsg`
      -- that puts on the wire what it says it does, and on a writable socket makes some progress
      -- and leaves it writable; a `shutdown` that puts nothing there; a writable socket; and the
      -- watcher for writing on: where the callback is called again as long as it returns
      -- YMO_WOULDBLOCK with the watcher on, at least as often as there are responses, it ends with
      -- YMO_OKAY, the session has no response left, the send buffer is NULL, and the messages of
      -- all responses are on the wire, in the order of the responses, behind what was there.
      pub write_loop-AllSent :
          (n : ℕ) (x : Writer W) (r : Response) (rs : List Response)
          → x.session.responses ≡ r ∷ rs
          → length (r ∷ rs) ≤ n
          → Writable x.world
          → x.conn.tx ≡ true
          → KeepAlive (r ∷ rs)
          → All IsWritable (r ∷ rs)
          → AllSent (wire x.world ++ messages (r ∷ rs)) x.session.state (write_loop n x)
      unfolding write_loop
      write_loop-AllSent zero x r rs e most can on alive h = absurd (omega arith)
      write_loop-AllSent (suc n) x r [] e most can on alive (h, hs) =
          rw (append-nil (message memory (status_str r) r)) (
            last-AllSent (write_loop n) (wire x.world ++ message memory (status_str r) r)
              x.session.state (has_flag r.flags flag_request_keepalive) x.conn
              (proto_write calls transition_proto sendmsg rounds memory nodes status_str x)
              (written-IsSent x r [] e can h))
      write_loop-AllSent (suc n) x r (q ∷ rs) e most can on (alive, alives) (h, (h', hs)) =
          let sent_first : List ℕ = wire x.world ++ message memory (status_str r) r in
          let next : IsPending q = h'.pending in
          let all : (sent_first ++ messages (q ∷ rs)) ≡ wire x.world ++ messages (r ∷ (q ∷ rs)) =
            append_assoc (wire x.world) (message memory (status_str r) r) (messages (q ∷ rs)) in
          next-AllSent (write_loop n) sent_first (wire x.world ++ messages (r ∷ (q ∷ rs)))
            x.session.state (q ∷ rs) (has_flag r.flags flag_request_keepalive) x.conn next.ready
            alive on
            (λ y same on_wire can' on'.
              subst (λ t. AllSent t x.session.state (write_loop n y))
                (ap (λ t. t ++ messages (q ∷ rs)) on_wire ∙ all)
                (subst (λ t. AllSent (wire y.world ++ messages (q ∷ rs)) t (write_loop n y))
                  (ap (λ t. t.state) same)
                  (write_loop-AllSent n y q rs (ap (λ t. t.responses) same) (omega arith) can' on'
                    alives (h', hs))))
            (proto_write calls transition_proto sendmsg rounds memory nodes status_str x)
            (written-IsSent x r (q ∷ rs) e can h)
