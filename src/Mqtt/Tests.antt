-- ===== src/Mqtt/Tests.antt =====
-- Runs of the MQTT protocol.
use libyimmo.Base.{
  ap, ◌≢◌, ℕ, ◌+◌, ◌<◌, true, inr, none, some, List, [], ◌∷◌, ◌++◌, length, einval, ◌≡◌, refl,
  arith,
}
use libyimmo.Core.Tests.{wire, Writable, sendmsg, sendmsg-Sends, sendmsg-Progress}
use libyimmo.Mqtt.Session.{session_create, encode_remain, encode_loop, connected}
use libyimmo.Mqtt.Reader.{Platform, got, uint16}
use libyimmo.Mqtt.Packet.{
  consumed, failed, overrun, parse_fixed_ctrlpack, parsed_fixed_len, fixed_len_loop,
}
use libyimmo.Mqtt.Packet.Length.{counting, expecting, parsed_fixed_len-encode_remain}
use libyimmo.Mqtt.Packet.Connect.{Connect, IsConnect, IsReadable, IsString, connect_body}
use libyimmo.Mqtt.Read.{Result, stray, message_complete, bytes_read, error, proto_read, read_loop}
use libyimmo.Mqtt.Read.Greeting.{packet, waiting, acknowledged, proto_read-packet}
use libyimmo.Mqtt.Read.Ends.{Returns, proto_read-Returns}
use libyimmo.Mqtt.Write.{Answers, proto_read-Answers}

-- `char` is signed, and there is memory.
abbrev platform : Platform
platform = record { signed_char = true; alloc = λ n. true }

-- "ab", with the user name "u" and a keep-alive time of a minute
abbrev client : Connect
client = record {
  flags = 0x80;
  keep_alive = 60;
  cid = 0x61 ∷ 0x62 ∷ [];
  topic = [];
  message = [];
  user = 0x75 ∷ [];
  secret = [];
}

small_number : (n : ℕ) → n < 128 → IsReadable platform n
small_number n h = record { bounded = omega arith; low = inr (omega arith) }

short_text : (v : List ℕ) → length v < 128 → IsString platform v
short_text v h = record { size = small_number (length v) h; memory = refl }

client-IsConnect : IsConnect platform client
client-IsConnect = record {
  keep_alive = small_number 60 (omega arith);
  cid = small_number 2 (omega arith);
  cid_fits = omega arith;
  topic = short_text [] (omega arith);
  message = short_text [] (omega arith);
  user = short_text (0x75 ∷ []) (omega arith);
  secret = short_text [] (omega arith);
}

length_300 : encode_remain 300 ≡ 0xAC ∷ 0x02 ∷ []
unfolding encode_remain encode_loop
length_300 = refl

-- A continuation bit in the last byte of the buffer: the next byte is read from behind it.
length_cut : parsed_fixed_len platform (counting session_create 0 1) (0xAC ∷ []) ≡ overrun
unfolding parsed_fixed_len fixed_len_loop
length_cut = refl

length_too_long :
    parsed_fixed_len platform (counting session_create 0 1) (0x80 ∷ 0x80 ∷ 0x80 ∷ 0x80 ∷ 0x01 ∷ [])
    ≡ failed (some einval) (counting session_create 0 0x10000000)
unfolding parsed_fixed_len fixed_len_loop
length_too_long = refl

-- A low byte above 0x7F, with a signed `char`.
uint16_signed : uint16 platform (0x00 ∷ 0x80 ∷ []) ≡ got 0xFF80 []
unfolding uint16
uint16_signed = refl

-- A second CONNECT packet is refused, without an errno.
second_connect :
    proto_read platform (record session_create { state = connected }) (0x10 ∷ 0x00 ∷ [])
    ≡ error none (record session_create { state = connected })
unfolding proto_read read_loop parse_fixed_ctrlpack
second_connect = refl

-- PINGREQ, which has no bytes behind its length, is not complete when its bytes are read.
ping_waits :
    proto_read platform session_create (0xC0 ∷ 0x00 ∷ [])
    ≡ bytes_read 2 (
        expecting
          (record session_create { msg_in = record session_create.msg_in { msg_type = 0xC0 } })
          0)
unfolding proto_read read_loop parse_fixed_ctrlpack parsed_fixed_len fixed_len_loop
ping_waits = refl

parsed_fixed_len-encode_remain_example :
    parsed_fixed_len platform (counting session_create 0 1) (encode_remain 300 ++ (7 ∷ []))
    ≡ consumed (length (encode_remain 300)) (expecting session_create 300)
parsed_fixed_len-encode_remain_example =
    parsed_fixed_len-encode_remain platform session_create 300 (7 ∷ []) (omega arith) refl

proto_read-packet_example :
    proto_read platform (waiting session_create) (packet client (0xC0 ∷ []))
    ≡ bytes_read
        (1 + length (encode_remain (length (connect_body client))) + length (connect_body client))
        (acknowledged client session_create)
proto_read-packet_example =
    proto_read-packet platform client client-IsConnect session_create (omega arith) refl (0xC0 ∷ [])

proto_read-Answers_example :
    Answers wire Writable sendmsg sendmsg-Sends sendmsg-Progress
      (wire [] ++ (0x20 ∷ 0x02 ∷ 0x00 ∷ 0x00 ∷ []))
      []
      (proto_read platform (waiting session_create) (packet client []))
proto_read-Answers_example =
    proto_read-Answers wire Writable sendmsg sendmsg-Sends sendmsg-Progress platform client
      session_create [] [] client-IsConnect (omega arith) refl refl tt

abbrev is_stray : Result → ℕ
is_stray stray = 1
is_stray _ = 0

-- No packet comes before CONNECT.
inside_buffer : proto_read platform session_create (0xC0 ∷ 0x00 ∷ []) ≢ stray
unfolding proto_read read_loop parse_fixed_ctrlpack parsed_fixed_len fixed_len_loop message_complete
inside_buffer e = absurd (omega (arith, ap is_stray e))

proto_read-Returns_example : Returns (proto_read platform session_create (0xC0 ∷ 0x00 ∷ []))
proto_read-Returns_example =
    proto_read-Returns platform session_create (0xC0 ∷ 0x00 ∷ []) (omega arith) inside_buffer
