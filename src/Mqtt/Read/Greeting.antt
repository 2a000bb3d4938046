-- ===== src/Mqtt/Read/Greeting.antt =====
-- A CONNECT packet through `ymo_proto_mqtt_read` of src/protocol/mqtt/ymo_proto_mqtt.c.
use libyimmo.Base.{
  ℕ, suc, ◌+◌, ◌-◌, ◌^◌, ◌≤◌, ◌<◌, min, true, none, some, List, [], ◌∷◌, ◌++◌, length, take,
  length-append, take-append, drop-append, sub_size, ◌≡◌, refl, ap, ◌∙◌, arith,
}
use libyimmo.Core.Bucket.{Bucket}
use libyimmo.Mqtt.Session.{
  ParseState, fixed_ctrlpack, fixed_length, varhdr_payload, complete, connecting, connected,
  Session, encode_loop, encode_remain, session_send,
}
use libyimmo.Mqtt.Reader.{Platform}
use libyimmo.Mqtt.Packet.{
  consumed, parse_fixed_ctrlpack, parse_varhdr, parse_payload, parse_varhdr_payload, varhdr_done,
  payload_done,
}
use libyimmo.Mqtt.Packet.Length.{expecting, parsed_fixed_len-encode_remain}
use libyimmo.Mqtt.Packet.Connect.{
  Connect, IsConnect, connect_body, string, fields, greeted, identified, varhdr-connect_body,
  payload-fields,
}
use libyimmo.Mqtt.Read.{
  Result, bytes_read, message_complete, while_len, parse_step, read_loop, proto_read,
}

abbrev pub packet : Connect → List ℕ → List ℕ
packet c rest = 0x10 ∷ (encode_remain (length (connect_body c)) ++ (connect_body c ++ rest))

-- A session that waits for the first packet.
abbrev pub waiting : Session → Session
waiting s = record s {
  state = connecting;
  msg_in = record s.msg_in { parse_state = fixed_ctrlpack; msg_len = 0 };
}

-- The two buckets of CONNACK
abbrev pub connack : List Bucket
connack =
    record { content = 0x20 ∷ 0x02 ∷ []; bytes_sent = 0 }
    ∷ record { content = 0x00 ∷ 0x00 ∷ []; bytes_sent = 0 }
    ∷ []

abbrev pub acknowledged : Connect → Session → Session
acknowledged c s = record (identified c (greeted c s)) {
  state = connected;
  send = s.send ++ connack;
  tx_enabled = true;
  msg_in = record {
    msg_len = 0;
    payload_len = length (string c.cid (fields c));
    msg_remain = 0;
    var_hdr = none;
    payload = 0;
    parse_state = fixed_ctrlpack;
    msg_type = 0;
  };
}

while_some :
    (more : Session → List ℕ → Result) (n : ℕ) (t : Session) (parse_buf : List ℕ)
    → 1 ≤ length parse_buf
    → while_len more n t parse_buf ≡ more t parse_buf
while_some more n t [] h = absurd (omega arith)
while_some more n t (b ∷ rest) h = refl

abbrev holding : Session → List ℕ → Session
holding t body = record t {
  msg_in = record t.msg_in {
    msg_len = length body;
    msg_remain = 0;
    var_hdr = some body;
    payload = length body;
    parse_state = varhdr_payload;
  };
}

-- The whole message is there.
whole_block :
    (p : Platform) (t : Session) (body rest : List ℕ)
    → parse_varhdr_payload p (expecting t (length body)) (body ++ rest)
      ≡ varhdr_done p (length body) (holding t body) body (parse_varhdr p (holding t body) body)
unfolding parse_varhdr_payload
whole_block p t body rest =
    let copied : min (length (body ++ rest)) (length body) ≡ length body =
      omega (arith, length-append body rest) in
    let front : take (length body) (body ++ rest) ≡ body =
      take-append body rest (length body) refl in
    let left : length body - length body ≡ 0 = omega arith in
    let end : 0 + length body ≡ length body = omega arith in rw (copied, front, left, end) refl

module _ (p : Platform) (c : Connect) (h : IsConnect p c) (s : Session) where
  abbrev opened : Session
  opened = record (waiting s) {
    msg_in = record s.msg_in {
      msg_type = 0x10;
      msg_remain = 1;
      msg_len = 0;
      parse_state = fixed_length;
    };
  }

  abbrev size : ℕ
  size = length (connect_body c)

  -- With the whole message in its block.
  abbrev filled : ParseState → Session
  filled st = record opened {
    msg_in = record opened.msg_in {
      msg_len = size;
      msg_remain = 0;
      var_hdr = some (connect_body c);
      payload = size;
      parse_state = st;
    };
  }

  abbrev parsed : Session
  parsed = record (identified c (greeted c (filled complete))) {
    msg_in = record (filled complete).msg_in {
      payload = size - length (string c.cid (fields c));
      payload_len = length (string c.cid (fields c));
    };
  }

  module _ (small : length (connect_body c) < 2 ^ 28)
      (memory : p.alloc (length (connect_body c)) ≡ true) where
    block_done :
        varhdr_done p size
          (filled varhdr_payload)
          (connect_body c)
          (parse_varhdr p (filled varhdr_payload) (connect_body c))
        ≡ consumed size parsed
    unfolding parse_varhdr parse_payload
    block_done =
        let offset : sub_size size (size - length (string c.cid (fields c)))
            ≡ length (string c.cid (fields c)) =
          omega arith in
        rw (varhdr-connect_body p c h (filled varhdr_payload)) (
          rw offset (
            ap (payload_done size _) (
              payload-fields p c h
                (record (greeted c (filled varhdr_payload)) {
                  msg_in = record (filled varhdr_payload).msg_in {
                    payload = size - length (string c.cid (fields c));
                    payload_len = length (string c.cid (fields c));
                  };
                })
                refl)))

    loop_opened :
        (rounds : ℕ) (more : List ℕ)
        → read_loop p (suc rounds) 0 (waiting s) (0x10 ∷ more)
          ≡ while_len (read_loop p rounds 1) 1 opened more
    unfolding read_loop parse_fixed_ctrlpack
    loop_opened rounds more = refl

    loop_length :
        (rounds : ℕ) (tail : List ℕ)
        → read_loop p (suc rounds) 1 opened (encode_remain size ++ tail)
          ≡ while_len
              (read_loop p rounds (1 + length (encode_remain size)))
              (1 + length (encode_remain size))
              (expecting opened size)
              tail
    unfolding read_loop
    loop_length rounds tail =
        ap (parse_step (read_loop p rounds) 1 (encode_remain size ++ tail))
          (parsed_fixed_len-encode_remain p opened size tail small memory)
        ∙ ap
            (while_len (read_loop p rounds (1 + length (encode_remain size)))
              (1 + length (encode_remain size)) (expecting opened size))
            (drop-append (encode_remain size) tail (length (encode_remain size)) refl)

    loop_block :
        (rounds n : ℕ) (rest : List ℕ)
        → read_loop p (suc rounds) n (expecting opened size) (connect_body c ++ rest)
          ≡ while_len (read_loop p rounds (n + size)) (n + size) parsed rest
    unfolding read_loop
    loop_block rounds n rest =
        ap (parse_step (read_loop p rounds) n (connect_body c ++ rest))
          (whole_block p opened (connect_body c) rest ∙ block_done)
        ∙ ap (while_len (read_loop p rounds (n + size)) (n + size) parsed)
            (drop-append (connect_body c) rest size refl)

    completes :
        (rounds n : ℕ) (rest : List ℕ)
        → while_len (read_loop p (suc rounds) n) n parsed rest ≡ bytes_read n (acknowledged c s)
    unfolding read_loop message_complete session_send encode_remain encode_loop
    completes rounds n [] = refl
    completes rounds n (b ∷ rest) = refl

    -- A CONNECT packet of version 3.1.1 with anything behind it, shorter than 2^28, where memory is
    -- found for it and its strings: with a client identifier of at most 24 bytes, and, where `char`
    -- is signed, with the low byte of each 16-bit number below 128. A session that waits for its
    -- first packet takes the packet and no more, is connected with the packet's flags, keep-alive
    -- time, identifier and the fields that the flags name, and has the two buckets of CONNACK
    -- behind what it had to send, with the watcher for writing on.
    pub proto_read-packet :
        (rest : List ℕ)
        → proto_read p (waiting s) (packet c rest)
          ≡ bytes_read (1 + length (encode_remain size) + size) (acknowledged c s)
    unfolding proto_read
    proto_read-packet rest =
        let tail : List ℕ = connect_body c ++ rest in
        let more : List ℕ = encode_remain size ++ tail in
        let total : length more ≡ length (encode_remain size) + (size + length rest) =
          length-append (encode_remain size) tail
          ∙ ap (λ k. length (encode_remain size) + k) (length-append (connect_body c) rest) in
        let enough : length (packet c rest) + 2 ≡ suc (suc (suc (suc (length more - 1)))) =
          omega arith in
        ap (λ rounds. read_loop p rounds 0 (waiting s) (packet c rest)) enough
        ∙ loop_opened (suc (suc (suc (length more - 1)))) more
        ∙ while_some (read_loop p (suc (suc (suc (length more - 1)))) 1) 1 opened more (omega arith)
        ∙ loop_length (suc (suc (length more - 1))) tail
        ∙ while_some (read_loop p (suc (suc (length more - 1))) (1 + length (encode_remain size)))
            (1 + length (encode_remain size)) (expecting opened size) tail
            (omega (arith, length-append (connect_body c) rest))
        ∙ loop_block (suc (length more - 1)) (1 + length (encode_remain size)) rest
        ∙ completes (length more - 1) (1 + length (encode_remain size) + size) rest
