-- ===== src/Mqtt/Session.antt =====
-- src/protocol/mqtt/ymo_mqtt_session.h and ymo_mqtt_session.c: the session, and what it sends.
use libyimmo.Base.{
  ℕ, zero, suc, ◌/◌, ◌%◌, Bool, true, false, Option, none, some, List, [], ◌∷◌, ◌++◌, length,
  bit_and, bit_or, leb, ◌==◌, if◌then◌else◌,
}
use libyimmo.Core.Bucket.{Bucket, create}

pub data ParseState : Type 0 where
  fixed_ctrlpack fixed_length varhdr_payload complete : ParseState

pub data MqttState : Type 0 where
  connecting awaiting_authentication connected disconnecting disconnected : MqttState

-- `ymo_mqtt_msg_t`. `len_mult` is in a union with `msg_remain`. `var_hdr` is NULL or the block of
-- `msg_len` bytes, as far as it is written, and `payload` is the offset of that pointer in the block.
pub record Message : Type 0 where
  pub msg_len : ℕ
  pub payload_len : ℕ
  pub msg_remain : ℕ
  pub var_hdr : Option (List ℕ)
  pub payload : ℕ
  pub parse_state : ParseState
  pub msg_type : ℕ

abbrev pub len_mult : Message → ℕ
len_mult m = m.msg_remain

-- `ymo_mqtt_session_t`. A `ymo_mqtt_str_t` is NULL or a block of its length; `send` is the chain from
-- `send_head` to `send_tail`, and `tx_enabled` the state of the connection's watcher for writing.
pub record Session : Type 0 where
  pub msg_in : Message
  pub state : MqttState
  pub send : List Bucket
  pub tx_enabled : Bool
  pub client_id : List ℕ
  pub ka_timer : ℕ
  pub connect_flags : ℕ
  pub username : Option (List ℕ)
  pub password : Option (List ℕ)
  pub will_topic : Option (List ℕ)
  pub will_msg : Option (List ℕ)
  pub proto_id : ℕ

-- All bytes of a new session are 0.
abbrev pub session_create : Session
session_create = record {
  msg_in = record {
    msg_len = 0;
    payload_len = 0;
    msg_remain = 0;
    var_hdr = none;
    payload = 0;
    parse_state = fixed_ctrlpack;
    msg_type = 0;
  };
  state = connecting;
  send = [];
  tx_enabled = false;
  client_id =
      0 ∷ 0 ∷ 0 ∷ 0 ∷ 0 ∷ 0 ∷ 0 ∷ 0 ∷ 0 ∷ 0 ∷ 0 ∷ 0 ∷ 0 ∷ 0 ∷ 0 ∷ 0 ∷ 0 ∷ 0 ∷ 0 ∷ 0 ∷ 0 ∷ 0 ∷ 0 ∷ 0
      ∷ [];
  ka_timer = 0;
  connect_flags = 0;
  username = none;
  password = none;
  will_topic = none;
  will_msg = none;
  proto_id = 0;
}

abbrev pub msg_free : Session → Session
msg_free s = record s { msg_in = record s.msg_in { msg_len = 0; var_hdr = none; payload = 0 } }

-- `if( len ) e |= 0x80;`
abbrev pub length_byte : ℕ → ℕ → ℕ
length_byte len e = if len == 0 then e else bit_or e 0x80

-- The bytes that `encode_remain` writes: seven bits each, the lowest first, so ten of them are
-- enough for a size_t.
unfoldable pub encode_loop : ℕ → ℕ → List ℕ
encode_loop zero len = []
encode_loop (suc rounds) len =
    let e = length_byte (len / 0x80) (len % 0x80) in
    let rest = encode_loop rounds (len / 0x80) in if len / 0x80 == 0 then e ∷ [] else e ∷ rest

unfoldable pub encode_remain : ℕ → List ℕ
unfolding encode_loop
encode_remain len = encode_loop 10 len

-- The header and the message are put behind the chain, where their buckets can be allocated;
-- `none` where the header does not fit in `fixed_hdr`.
unfoldable pub session_send : Session → ℕ → ℕ → List ℕ → Option Session
unfolding encode_remain
session_send s msg_type msg_flags buf =
    let fixed_hdr =
      bit_or (bit_and msg_type 0xF0) (bit_and msg_flags 0x0F) ∷ encode_remain (length buf) in
    if leb (length fixed_hdr) 5
    then some
        (record s { send = s.send ++ create [] (create [] [] buf) fixed_hdr; tx_enabled = true })
    else none
