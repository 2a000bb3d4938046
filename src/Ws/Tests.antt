-- ===== src/Ws/Tests.antt =====
-- Runs of the parser, and its theorems at concrete frames.
use libyimmo.Base.{
  ℕ, zero, suc, ◌+◌, ◌%◌, ◌≡◌, inl, inr, refl, sym, ap, ◌∙◌, max, Bool, true, false, ◌&&◌, ltb,
  none, some, List, [], ◌∷◌, ◌++◌, length, take, All, IsByte, arith, okay, Status, efbig,
}
use libyimmo.Util.Utf8.{reset}
use libyimmo.Ws.Session.{Platform, IsSized, payload, Session, gen_ws_msg_hdr, frame_min}
use libyimmo.Ws.Unmask.{unmask_payload}
use libyimmo.Ws.Unmask.Cycle.{cycle}
use libyimmo.Ws.Unmask.Payload.{unmask_payload-cycle}
use libyimmo.Ws.Header.{consumed, with_frame, parse_op}
use libyimmo.Ws.Parse.{block_of, parse_payload, parse_loop}
use libyimmo.Ws.Parse.Invariant.{IsValid}
use libyimmo.Ws.Parse.Safety.{EndsSoundly, parse_loop-EndsSoundly}
use libyimmo.Ws.Parse.Opening.{IsLegal, opened, parse_op-IsLegal}
use libyimmo.Ws.Parse.Bounds.{session_after, parse_payload-length}
use libyimmo.Ws.Client.{client_frame, fresh_frame, HasMemory}
use libyimmo.Ws.Client.RoundTrip.{Delivers}
use libyimmo.Ws.Client.Delivery.{client_frame-Delivers}
use libyimmo.Ws.Conn.{
  connected, close_received, Conn, Server, frame_end, no_recv, proto_read, session_send,
}
use libyimmo.Ws.Conn.Buffering.{Buffering, buffer_msg, SeesNothing, buffer_msg-SeesNothing}
use libyimmo.Ws.Conn.Close.{arrives, sends, Steps, none_yet, one_more, Steps-over}
use libyimmo.Ws.Conn.Answers.{CanTake, Answers, proto_read-pong, proto_read-message}

abbrev are_bytes : List ℕ → Bool
are_bytes [] = true
are_bytes (b ∷ bs) = ltb b 256 && are_bytes bs

are_bytes→All : (bs : List ℕ) → are_bytes bs ≡ true → All IsByte bs
are_bytes→All [] h = tt
are_bytes→All (b ∷ bs) h = (ground (arith, h), are_bytes→All bs (ground (arith, h)))

abbrev zeros : ℕ → List ℕ
zeros zero = []
zeros (suc n) = 0 ∷ zeros n

length-zeros : (n : ℕ) → length (zeros n) ≡ n
length-zeros zero = refl
length-zeros (suc n) = ap suc (length-zeros n)

-- A process that has memory for every frame.
abbrev roomy : Platform
roomy = record { alloc = λ n. some (zeros n); frame_max = 4096 }

roomy-IsSized : IsSized roomy
roomy-IsSized n block e =
    ap (λ o. length (elim o [ none ↦ zeros n | some b ↦ b ])) (sym e) ∙ length-zeros n

roomy-HasMemory : HasMemory roomy
roomy-HasMemory n h = (zeros (max frame_min n), refl)

abbrev fresh_session : Session
fresh_session = record {
  frame_in = fresh_frame none 0;
  recv = [];
  msg_type = 0;
  utf8_state = reset;
}

abbrev mask_key : List ℕ
mask_key = 0x37 ∷ 0xFA ∷ 0x21 ∷ 0x3D ∷ []

-- "Hello", of RFC 6455, 5.7
abbrev hello : List ℕ
hello = 0x48 ∷ 0x65 ∷ 0x6C ∷ 0x6C ∷ 0x6F ∷ []

abbrev hello_frame : List ℕ
hello_frame = 0x81 ∷ 0x85 ∷ 0x37 ∷ 0xFA ∷ 0x21 ∷ 0x3D ∷ 0x7F ∷ 0x9F ∷ 0x4D ∷ 0x51 ∷ 0x58 ∷ []

client_hello : client_frame 0x81 mask_key hello ≡ hello_frame
unfolding client_frame gen_ws_msg_hdr
client_hello = refl

abbrev seven : List ℕ
seven = 1 ∷ 2 ∷ 3 ∷ 4 ∷ 5 ∷ 6 ∷ 7 ∷ []

-- A frame whose payload is under way, with a buffer of eight bytes.
abbrev reading : Session
reading = record fresh_session {
  frame_in = record (fresh_frame (some (zeros 8)) 8) {
    flags = 0x82;
    len = 7;
    parsed = 2;
    masking_key = mask_key;
    masked = 128;
    parse_state = payload;
    idx = 2;
  };
}

reading-IsValid : IsValid reading.frame_in
reading-IsValid = record {
  block_fits = omega arith;
  key_fits = refl;
  shape = (omega arith, omega arith, omega arith);
}

unmask_payload-cycle_example :
    let c = unmask_payload mask_key 0 4098 (0x7F ∷ 0x9F ∷ 0x4D ∷ 0x51 ∷ 0x58 ∷ 0 ∷ []) 5 in
    (c.output ≡ cycle mask_key 0 (take 5 (0x7F ∷ 0x9F ∷ 0x4D ∷ 0x51 ∷ 0x58 ∷ 0 ∷ [])))
    × (c.mask_mod % 4 ≡ (0 + 5) % 4)
unmask_payload-cycle_example =
    unmask_payload-cycle mask_key 0 4098 5 (0x7F ∷ 0x9F ∷ 0x4D ∷ 0x51 ∷ 0x58 ∷ 0 ∷ [])
      (are_bytes→All mask_key refl) (are_bytes→All (0x7F ∷ 0x9F ∷ 0x4D ∷ 0x51 ∷ 0x58 ∷ 0 ∷ []) refl)
      (omega arith) (omega arith)

parse_payload-length_example :
    length (block_of (session_after (parse_payload 4096 reading seven)).frame_in)
    ≡ length (block_of reading.frame_in)
parse_payload-length_example =
    parse_payload-length 4096 reading seven refl reading-IsValid (are_bytes→All mask_key refl)
      (are_bytes→All seven refl) (omega arith)

parse_loop-EndsSoundly_example : EndsSoundly (parse_loop 7 roomy 4096 reading seven)
parse_loop-EndsSoundly_example =
    parse_loop-EndsSoundly 7 roomy 4096 reading seven roomy-IsSized (are_bytes→All seven refl)
      reading-IsValid (omega arith)

parse_op-IsLegal_example :
    (IsLegal 0x81 0 → parse_op fresh_session 0x81 ≡ consumed 1 (opened fresh_session 0x81))
    × ((n : ℕ) (s' : Session) → parse_op fresh_session 0x81 ≡ consumed n s' → IsLegal 0x81 0)
parse_op-IsLegal_example = parse_op-IsLegal fresh_session 0x81 (omega arith)

client_frame-Delivers_example : Delivers fresh_session 0x82 (1 ∷ 2 ∷ 3 ∷ []) (0x89 ∷ []) (
    parse_loop 6 roomy 4096
      (with_frame fresh_session (fresh_frame none 0))
      (client_frame 0x82 mask_key (1 ∷ 2 ∷ 3 ∷ []) ++ (0x89 ∷ [])))
client_frame-Delivers_example =
    client_frame-Delivers roomy fresh_session 0x82 0x37 0xFA 0x21 0x3D (1 ∷ 2 ∷ 3 ∷ []) (0x89 ∷ [])
      none 0 0 4096 roomy-IsSized roomy-HasMemory (omega arith) (omega arith) refl (inl refl)
      (omega arith)
      (
        (refl, omega arith, refl, inr (inl refl), λ e. absurd (omega arith)),
        are_bytes→All mask_key refl,
        are_bytes→All (1 ∷ 2 ∷ 3 ∷ []) refl,
        are_bytes→All (0x89 ∷ []) refl,
        omega arith,
      )
      (omega arith)

-- A server whose callback takes every message, and whose write watcher has nothing to do.
abbrev quiet : Server
quiet = record { platform = roomy; recv_cb = λ flags message c. (okay, c); tx_now = λ c. c }

abbrev open_conn : Conn
open_conn = record {
  session = fresh_session;
  state = connected;
  send = [];
  tx_enabled = false;
  is_shut = false;
}

abbrev closing_conn : Conn
closing_conn = record open_conn { state = close_received }

abbrev after_close : Conn
after_close = (session_send 0x82 seven (proto_read quiet 4096 seven closing_conn).1).1

after_close-Steps : Steps quiet closing_conn after_close
after_close-Steps = one_more _ _ (one_more _ _ none_yet (arrives 4096 seven)) (sends 0x82 seven)

Steps-over_example : after_close ≡ closing_conn
Steps-over_example = Steps-over quiet closing_conn after_close (inl refl) after_close-Steps

ping_can : CanTake quiet open_conn 0x89 0x37 0xFA 0x21 0x3D hello (0x81 ∷ []) none 0 4096
ping_can = (
  refl,
  refl,
  refl,
  roomy-IsSized,
  roomy-HasMemory,
  omega arith,
  omega arith,
  refl,
  inr (omega arith),
  omega arith,
  (
    (refl, omega arith, refl, inr (inr (inr refl)), λ e. absurd (omega arith)),
    are_bytes→All mask_key refl,
    are_bytes→All hello refl,
    are_bytes→All (0x81 ∷ []) refl,
    omega arith,
  ),
  omega arith,
)

proto_read-pong_example :
    Answers open_conn
      (length (client_frame 0x89 mask_key hello))
      (gen_ws_msg_hdr 0x8A 5 ∷ hello ∷ [])
      (proto_read quiet 4096 (client_frame 0x89 mask_key hello ++ (0x81 ∷ [])) open_conn)
proto_read-pong_example =
    proto_read-pong quiet open_conn 0x89 0x37 0xFA 0x21 0x3D hello (0x81 ∷ []) none 0 4096 ping_can
      refl

binary_can : CanTake quiet open_conn 0x82 0x37 0xFA 0x21 0x3D seven [] none 0 4096
binary_can = (
  refl,
  refl,
  refl,
  roomy-IsSized,
  roomy-HasMemory,
  omega arith,
  omega arith,
  refl,
  inl refl,
  omega arith,
  (
    (refl, omega arith, refl, inr (inl refl), λ e. absurd (omega arith)),
    are_bytes→All mask_key refl,
    are_bytes→All seven refl,
    tt,
    omega arith,
  ),
  omega arith,
)

proto_read-message_example :
    (s' : Session) × (s'.recv ≡ seven ∷ [])
    × (proto_read quiet 4096 (client_frame 0x82 mask_key seven ++ []) open_conn
        ≡ frame_end
            (length (client_frame 0x82 mask_key seven ++ []))
            (length (client_frame 0x82 mask_key seven))
            (okay, no_recv (record open_conn { session = s' })))
proto_read-message_example =
    proto_read-message quiet open_conn 0x82 0x37 0xFA 0x21 0x3D seven [] none 0 4096 binary_can
      (omega arith)

abbrev no_message : Buffering
no_message = record { msg = none; msg_end = 0; msg_len = 0 }

-- A callback that refuses what is not empty.
abbrev refuses : ℕ → List ℕ → Status
refuses flags [] = okay
refuses flags (b ∷ bs) = efbig

buffer_msg-SeesNothing_example :
    SeesNothing
      (buffer_msg roomy (λ flags m. okay) 4096 0x82 seven no_message)
      (buffer_msg roomy refuses 4096 0x82 seven no_message)
buffer_msg-SeesNothing_example =
    buffer_msg-SeesNothing roomy (λ flags m. okay) refuses 4096 0x82 seven no_message
      (λ flags. refl) refl
