-- ===== src/Mqtt/Packet.antt =====
-- The parse functions of src/protocol/mqtt/ymo_mqtt_parse.c. A buffer comes with its length.
pub mod Length
pub mod Connect
use libyimmo.Base.{
  ℕ, zero, suc, ◌+◌, ◌-◌, ◌*◌, ◌%◌, ◌^◌, min, bit_and, Bool, true, false, ◌&&◌, ◌||◌, not, Option,
  none, some, List, [], ◌∷◌, ◌++◌, length, take, drop, ltb, leb, ◌==◌, if◌then◌else◌, Status, okay,
  einval, enomem, sub_size,
}
use libyimmo.Mqtt.Session.{
  ParseState, fixed_ctrlpack, fixed_length, varhdr_payload, complete, MqttState, connecting,
  Message, len_mult, Session, msg_free,
}
use libyimmo.Mqtt.Reader.{
  Platform, Reading, got, refused, outside, Reader, ◌>>=◌, pure, refuse, uint8, uint16, strval,
  array, strdup,
}

-- The number of bytes that a parse function took; or -1, with what it puts in errno; or it reads or
-- writes outside of its buffers.
pub data Parsed : Type 0 where
  consumed : ℕ → Session → Parsed
  failed : Option Status → Session → Parsed
  overrun : Parsed

abbrev pub parse_reset : Session → Session
parse_reset s = msg_free (record s {
  msg_in = record s.msg_in { parse_state = fixed_ctrlpack; msg_remain = 0; msg_type = 0 };
})

-- ASSERT_CTRL_FLAG, per type: the flags that the switch asks for.
abbrev pub asserted_flag : ℕ → Option ℕ
asserted_flag msg_type =
    if msg_type == 0x30 || msg_type == 0xE0 || msg_type == 0x00 || msg_type == 0xF0
    then none
    else if msg_type == 0x60 || msg_type == 0x80 || msg_type == 0xA0
    then some 2
    else some 0

abbrev pub is_connecting : MqttState → Bool
is_connecting connecting = true
is_connecting _ = false

abbrev pub flags_ok : Option ℕ → ℕ → Bool
flags_ok none msg_flags = true
flags_ok (some flag_val) msg_flags = msg_flags == flag_val

-- `ymo_mqtt_parse_fixed_ctrlpack`, with `mqtt_parse_len_init`. It sets no errno.
unfoldable pub parse_fixed_ctrlpack : Session → List ℕ → Parsed
parse_fixed_ctrlpack s [] = overrun
parse_fixed_ctrlpack s (fixed_hdr ∷ rest) =
    let msg_type = bit_and fixed_hdr 0xF0 in
    let msg_flags = bit_and fixed_hdr 0x0F in
    if msg_type == 0x10 && not (is_connecting s.state)
    then failed none s
    else if not (flags_ok (asserted_flag msg_type) msg_flags)
    then failed none s
    else consumed 1 (record s {
      msg_in = record s.msg_in { msg_type = msg_type; msg_remain = 1; parse_state = fixed_length };
    })

abbrev pub varhdr_init : Platform → ℕ → Session → Parsed
varhdr_init p n s =
    let waiting = record s.msg_in { msg_remain = s.msg_in.msg_len } in
    if p.alloc s.msg_in.msg_len
    then consumed n (record s {
      msg_in = record waiting { var_hdr = some []; payload = 0; parse_state = varhdr_payload };
    })
    else failed (some enomem) (record s { msg_in = record waiting { var_hdr = none } })

-- One byte of the length.
abbrev pub add_length : ℕ → Session → Session
add_length r_len s = record s {
  msg_in = record s.msg_in {
    msg_len = (s.msg_in.msg_len + bit_and r_len 0x7F * len_mult s.msg_in) % 2 ^ 64;
    msg_remain = len_mult s.msg_in * 0x80 % 2 ^ 64;
  };
}

-- The loop of `ymo_mqtt_parsed_fixed_len`, behind `n` bytes. It does not count `len` down, so it
-- ends at a byte without LEN_CONTINUATION only, or when the multiplier is past LEN_MAX_MULT.
unfoldable pub fixed_len_loop : Platform → ℕ → Session → List ℕ → Parsed
fixed_len_loop p n s [] =
    if ltb 0x200000 (len_mult s.msg_in) then failed (some einval) s else overrun
fixed_len_loop p n s (r_len ∷ buffer) =
    let again = fixed_len_loop p (n + 1) (add_length r_len s) buffer in
    if ltb 0x200000 (len_mult s.msg_in)
    then failed (some einval) s
    else if bit_and r_len 0x80 == 0
    then varhdr_init p (n + 1) (add_length r_len s)
    else again

unfoldable pub parsed_fixed_len : Platform → Session → List ℕ → Parsed
unfolding fixed_len_loop
parsed_fixed_len p s buffer = fixed_len_loop p 0 s buffer

-- `!memcmp(proto_name, name, proto_len)` where both lengths are the same
abbrev pub same_bytes : List ℕ → List ℕ → Bool
same_bytes [] [] = true
same_bytes (x ∷ xs) (y ∷ ys) = x == y && same_bytes xs ys
same_bytes _ _ = false

-- "MQTT" and "MQIsdp"
abbrev pub mqtt : List ℕ
mqtt = 0x4D ∷ 0x51 ∷ 0x54 ∷ 0x54 ∷ []

abbrev pub mqisdp : List ℕ
mqisdp = 0x4D ∷ 0x51 ∷ 0x49 ∷ 0x73 ∷ 0x64 ∷ 0x70 ∷ []

abbrev pub is_protocol : ℕ → ℕ → List ℕ → Bool
is_protocol proto_id proto_len proto_name =
    proto_id == 0x04 && (proto_len == 0x04 && same_bytes proto_name mqtt)
    || proto_id == 0x03 && (proto_len == 0x06 && same_bytes proto_name mqisdp)

-- The case YMO_MQTT_CONNECT of `mqtt_parse_varhdr`.
unfoldable pub connect_varhdr : Platform → Session → Reader Session
connect_varhdr p s = do
  proto_len ← uint16 p
  proto_name ← array 12 proto_len
  proto_id ← uint8
  if is_protocol proto_id proto_len proto_name
      then (do
        connect_flags ← uint8
        ka_timer ← uint16 p
        pure (record s { proto_id = proto_id; connect_flags = connect_flags; ka_timer = ka_timer }))
      else refuse einval

unfoldable pub parse_varhdr : Platform → Session → Reader Session
parse_varhdr p s = if s.msg_in.msg_type == 0x10 then connect_varhdr p s else pure s

-- PARSE_CONNECT_FIELD
unfoldable pub connect_field : Platform → ℕ → ℕ → Option (List ℕ) → Reader (Option (List ℕ))
connect_field p connect_flags flag dst =
    if bit_and connect_flags flag == 0 then pure dst else strdup p

-- The case YMO_MQTT_CONNECT of `mqtt_parse_payload`.
unfoldable pub connect_payload : Platform → Session → Reader Session
connect_payload p s = do
  cid_len ← uint16 p
  cid ← array 24 cid_len
  will_topic ← connect_field p s.connect_flags 0x04 s.will_topic
  will_msg ← connect_field p s.connect_flags 0x04 s.will_msg
  username ← connect_field p s.connect_flags 0x80 s.username
  password ← connect_field p s.connect_flags 0x40 s.password
  pure (record s {
    client_id = cid ++ drop cid_len s.client_id;
    will_topic = will_topic;
    will_msg = will_msg;
    username = username;
    password = password;
  })

unfoldable pub parse_payload : Platform → Session → Reader Session
parse_payload p s = if s.msg_in.msg_type == 0x10 then connect_payload p s else pure s

-- What the two results make of the session.
abbrev pub payload_done : ℕ → Session → Reading Session → Parsed
payload_done n s (got t rest) =
    consumed n (record t { msg_in = record t.msg_in { parse_state = complete } })
payload_done n s (refused e rest) = failed (some e) s
payload_done n s outside = overrun

abbrev pub varhdr_done : Platform → ℕ → Session → List ℕ → Reading Session → Parsed
varhdr_done p n s block outside = overrun
varhdr_done p n s block (refused e rest) =
    failed (some e) (record s { msg_in = record s.msg_in { payload = length block - length rest } })
varhdr_done p n s block (got t rest) =
    let offset = length block - length rest in
    let t1 = record t {
      msg_in = record t.msg_in { payload = offset; payload_len = sub_size t.msg_in.msg_len offset };
    } in
    payload_done n t1 (parse_payload p t1 rest)

abbrev pub block_of : Message → List ℕ
block_of m = elim m.var_hdr [ none ↦ [] | some block ↦ block ]

-- The bytes are appended to the block; a whole block is taken apart.
unfoldable pub parse_varhdr_payload : Platform → Session → List ℕ → Parsed
parse_varhdr_payload p s buffer =
    let to_copy = min (length buffer) s.msg_in.msg_remain in
    let block = take s.msg_in.payload (block_of s.msg_in) ++ take to_copy buffer in
    let s1 = record s {
      msg_in = record s.msg_in {
        var_hdr = some block;
        payload = s.msg_in.payload + to_copy;
        msg_remain = s.msg_in.msg_remain - to_copy;
      };
    } in
    let done = varhdr_done p to_copy s1 block (parse_varhdr p s1 block) in
    if s1.msg_in.msg_remain == 0 then done else consumed to_copy s1
