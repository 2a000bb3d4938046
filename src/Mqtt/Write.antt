-- ===== src/Mqtt/Write.antt =====
-- `ymo_proto_mqtt_write` of src/protocol/mqtt/ymo_proto_mqtt.c, and the answer to a CONNECT packet on
-- the wire.
use mathlib.Core.Path.{subst}
use libyimmo.Base.{
  ℕ, ◌≤◌, ◌<◌, ◌^◌, true, false, List, [], ◌∷◌, ◌++◌, length, Status, okay, ◌≡◌, ap, sym, arith,
}
use libyimmo.Core.Bucket.{
  Bucket, Sent, bytes_of, Sending, returned, still, null_dereference, send_buckets,
}
use libyimmo.Core.Bucket.Stream.{Sends}
use libyimmo.Core.Bucket.Drain.{Progress, SendsAll, send_buckets-SendsAll}
use libyimmo.Mqtt.Session.{Session}
use libyimmo.Mqtt.Reader.{Platform}
use libyimmo.Mqtt.Packet.Connect.{Connect, IsConnect, connect_body}
use libyimmo.Mqtt.Read.{Result, bytes_read, error, stray, unfinished, proto_read}
use libyimmo.Mqtt.Read.Greeting.{packet, waiting, acknowledged, connack, proto_read-packet}

-- The status, the socket and the session; or the rounds of the sending are used up.
pub data Writing (S : Type 0) : Type 0 where
  written : Status → S → Session → Writing S
  sending : S → Session → Writing S

-- `if( !session->send_head )`
abbrev pub all_sent : Session → List Bucket → Session
all_sent s [] = record s { send = []; tx_enabled = false }
all_sent s (b ∷ chain) = record s { send = b ∷ chain }

module _ {S : Type 0} where
  abbrev pub after_send : Session → Sending S → Writing S
  after_send s (returned status w chain) = written status w (all_sent s chain)
  after_send s (still w chain) = sending w (record s { send = chain })
  after_send s (null_dereference w) = sending w s

  module _ (sendmsg : S → List (List ℕ) → Sent × S) where
    -- `if( session->send_head )`
    abbrev pub write_chain : ℕ → S → Session → List Bucket → Writing S
    write_chain rounds w s [] = written okay w (all_sent s [])
    write_chain rounds w s (b ∷ chain) = after_send s (send_buckets sendmsg rounds w (b ∷ chain))

    unfoldable pub proto_write : ℕ → S → Session → Writing S
    proto_write rounds w s = write_chain rounds w s s.send

module _ {S : Type 0} (wire : S → List ℕ) (Writable : S → Type 0) where
  -- The function returns YMO_OKAY, with a session that has nothing to send and does not watch for
  -- writing, and the bytes are on the wire.
  abbrev pub Writes : List ℕ → Session → Writing S → Type 0
  Writes all s (written status w t) =
      (status ≡ okay) × (wire w ≡ all) × (t ≡ record s { send = []; tx_enabled = false })
  Writes all s (sending w t) = ⊥

  module _ (sendmsg : S → List (List ℕ) → Sent × S)
      (documented : (w : S) (vec : List (List ℕ))
        → Sends wire (wire w) (bytes_of vec) (sendmsg w vec))
      (progress : (w : S) (vec : List (List ℕ))
        → Writable w
        → 1 ≤ length (bytes_of vec)
        → Progress (sendmsg w vec).0 × Writable (sendmsg w vec).1) where
    after_send-Writes :
        (all : List ℕ) (s : Session) (o : Sending S)
        → SendsAll wire Writable all o
        → Writes all s (after_send s o)
    after_send-Writes all s (returned status w chain) (ok, none_left, on_wire, can) =
        (ok, on_wire, ap (all_sent s) none_left)
    after_send-Writes all s (still w chain) h = h
    after_send-Writes all s (null_dereference w) h = h

    -- The session that `ymo_proto_mqtt_read` leaves is the one that `ymo_proto_mqtt_write` gets.
    abbrev pub Answers : List ℕ → S → Result → Type 0
    Answers all w (bytes_read n t) = Writes all t (proto_write sendmsg 4 w t)
    Answers all w (error e t) = ⊥
    Answers all w stray = ⊥
    Answers all w unfinished = ⊥

    connack_sent :
        (t : Session) (w : S)
        → Writable w
        → Writes (wire w ++ (0x20 ∷ 0x02 ∷ 0x00 ∷ 0x00 ∷ [])) t (write_chain sendmsg 4 w t connack)
    connack_sent t w can =
        after_send-Writes (wire w ++ (0x20 ∷ 0x02 ∷ 0x00 ∷ 0x00 ∷ [])) t
          (send_buckets sendmsg 4 w connack)
          (send_buckets-SendsAll wire Writable sendmsg documented progress 4 w connack can
            (omega arith) (omega arith)
            (
              record { started = omega arith; sized = omega arith },
              (record { started = omega arith; sized = omega arith }, tt),
            )
            (omega arith, (omega arith, tt)) (λ n. absurd (omega (arith, ap length n))))

    -- A CONNECT packet of version 3.1.1 as `IsConnect` has it (its strings with memory, the
    -- identifier of at most 24 bytes, the low bytes of its 16-bit numbers below 128 where `char` is
    -- signed), shorter than 2^28 and with memory, with anything behind it, to a session that waits for
    -- its first packet and has nothing to send; and then the write callback, on a writable socket
    -- where each `sendmsg` takes at least one byte, puts on the wire what it takes, and leaves it
    -- writable: the packet is taken, and
    -- the four bytes of CONNACK, 20 02 00 00, are on the wire. The write callback returns YMO_OKAY
    -- with nothing left to send, and the watcher for writing is off.
    pub proto_read-Answers :
        (p : Platform) (c : Connect) (s : Session) (w : S) (rest : List ℕ)
        → IsConnect p c
        → length (connect_body c) < 2 ^ 28
        → p.alloc (length (connect_body c)) ≡ true
        → s.send ≡ []
        → Writable w
        → Answers
            (wire w ++ (0x20 ∷ 0x02 ∷ 0x00 ∷ 0x00 ∷ []))
            w
            (proto_read p (waiting s) (packet c rest))
    unfolding proto_write
    proto_read-Answers p c s w rest h small memory nothing can =
        let all : List ℕ = wire w ++ (0x20 ∷ 0x02 ∷ 0x00 ∷ 0x00 ∷ []) in
        subst (Answers all w) (sym (proto_read-packet p c h s small memory rest)) (
          subst
            (λ chain.
              Writes all (acknowledged c s)
                (write_chain sendmsg 4 w (acknowledged c s) (chain ++ connack)))
            (sym nothing) (connack_sent (acknowledged c s) w can))
