-- ===== src/Mqtt/Read.antt =====
-- `ymo_proto_mqtt_read` of src/protocol/mqtt/ymo_proto_mqtt.c.
pub mod Greeting
pub mod Ends
use libyimmo.Base.{
  ℕ, zero, suc, ◌+◌, Bool, true, false, Option, none, some, List, [], ◌∷◌, length, drop, ◌==◌,
  if◌then◌else◌, Status, okay,
}
use libyimmo.Mqtt.Session.{
  ParseState, fixed_ctrlpack, fixed_length, varhdr_payload, complete, awaiting_authentication,
  connected, Session, session_send,
}
use libyimmo.Mqtt.Reader.{Platform}
use libyimmo.Mqtt.Packet.{
  Parsed, consumed, failed, overrun, parse_reset, parse_fixed_ctrlpack, parsed_fixed_len,
  parse_varhdr_payload,
}

-- What the callback returns: the number of bytes, or -1 with errno; an access outside of a buffer;
-- or the rounds of the loop are used up.
pub data Result : Type 0 where
  bytes_read : ℕ → Session → Result
  error : Option Status → Session → Result
  stray unfinished : Result

abbrev pub reset_after : ℕ → Option Session → Result
reset_after n none = stray
reset_after n (some s) = bytes_read n (parse_reset (record s { state = connected }))

-- Behind the label `mqtt_parse_complete`.
unfoldable pub message_complete : ℕ → Session → Result
message_complete n s =
    let awaiting = record s { state = awaiting_authentication } in
    let connack = reset_after n (session_send awaiting 0x20 0 (0x00 ∷ 0x00 ∷ [])) in
    if s.msg_in.msg_type == 0x10 then connack else bytes_read n (parse_reset s)

-- Behind the loop.
abbrev pub loop_left : ℕ → ParseState → Session → Result
loop_left n complete s = message_complete n s
loop_left n _ s = bytes_read n s

-- `while( len )`
abbrev pub while_len : (Session → List ℕ → Result) → ℕ → Session → List ℕ → Result
while_len more n s [] = loop_left n s.msg_in.parse_state s
while_len more n s (b ∷ rest) = more s (b ∷ rest)

abbrev pub parse_step : (ℕ → Session → List ℕ → Result) → ℕ → List ℕ → Parsed → Result
parse_step more n parse_buf (consumed k s) = while_len (more (n + k)) (n + k) s (drop k parse_buf)
parse_step more n parse_buf (failed e s) = error e s
parse_step more n parse_buf overrun = stray

abbrev pub read_switch :
    (Session → List ℕ → ParseState → Parsed)
    → (ℕ → Session → List ℕ → Result)
    → ParseState
    → ℕ
    → Session
    → List ℕ
    → Result
read_switch parse more complete n s parse_buf = message_complete n s
read_switch parse more st n s parse_buf = parse_step more n parse_buf (parse s parse_buf st)

-- The parse function of a state.
abbrev pub parse_function : Platform → Session → List ℕ → ParseState → Parsed
parse_function p s parse_buf fixed_ctrlpack = parse_fixed_ctrlpack s parse_buf
parse_function p s parse_buf fixed_length = parsed_fixed_len p s parse_buf
parse_function p s parse_buf varhdr_payload = parse_varhdr_payload p s parse_buf
parse_function p s parse_buf complete = consumed 0 s

unfoldable pub read_loop : Platform → ℕ → ℕ → Session → List ℕ → Result
read_loop p zero n s parse_buf = unfinished
read_loop p (suc rounds) n s parse_buf =
    read_switch (parse_function p) (read_loop p rounds) s.msg_in.parse_state n s parse_buf

-- Each round but the last takes a byte, or completes a message of no bytes.
unfoldable pub proto_read : Platform → Session → List ℕ → Result
unfolding read_loop
proto_read p s recv_buf = read_loop p (length recv_buf + 2) 0 s recv_buf
