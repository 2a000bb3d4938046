-- ===== src/Mqtt/Packet/Length.antt =====
-- `encode_remain` of src/protocol/mqtt/ymo_mqtt_session.c against `ymo_mqtt_parsed_fixed_len` of
-- src/protocol/mqtt/ymo_mqtt_parse.c.
use libyimmo.Base.{
  ℕ, suc, ◌+◌, ◌*◌, ◌/◌, ◌%◌, ◌^◌, ◌≤◌, ◌<◌, bit_and, bit_or, true, false, Bool-cases, inl, inr,
  List, [], ◌∷◌, ◌++◌, length, ltb, ◌==◌, some, ◌≡◌, refl, ap, ◌∙◌, arith,
}
use libyimmo.Base.Bits.{bytes_agree}
use libyimmo.Mqtt.Session.{varhdr_payload, Session, encode_loop, encode_remain}
use libyimmo.Mqtt.Reader.{Platform}
use libyimmo.Mqtt.Packet.{consumed, fixed_len_loop, parsed_fixed_len}

-- While the length is read: what was added so far, and the next multiplier.
abbrev pub counting : Session → ℕ → ℕ → Session
counting s acc mult = record s { msg_in = record s.msg_in { msg_len = acc; msg_remain = mult } }

-- With a block for a message of `n` bytes.
abbrev pub expecting : Session → ℕ → Session
expecting s n = record s {
  msg_in = record s.msg_in {
    msg_len = n;
    msg_remain = n;
    var_hdr = some [];
    payload = 0;
    parse_state = varhdr_payload;
  };
}

module _ (p : Platform) (s : Session) where
  loop_goes_on :
      (k acc mult b : ℕ) (rest : List ℕ)
      → b < 128
      → mult ≤ 0x200000
      → acc + b * mult < 2 ^ 64
      → fixed_len_loop p k (counting s acc mult) (bit_or b 0x80 ∷ rest)
        ≡ fixed_len_loop p (k + 1) (counting s (acc + b * mult) (mult * 0x80)) rest
  unfolding fixed_len_loop
  loop_goes_on k acc mult b rest small low fits =
      let value : bit_and (bit_or b 0x80) 0x7F ≡ b =
        bytes_agree (λ x. bit_and (bit_or x 0x80) 0x7F) (λ x. x) 128 b small refl in
      let top : bit_and (bit_or b 0x80) 0x80 ≡ 128 =
        bytes_agree (λ x. bit_and (bit_or x 0x80) 0x80) (λ x. 128) 128 b small refl in
      let below : ltb 0x200000 mult ≡ false = ground arith in
      let sum : (acc + b * mult) % 2 ^ 64 ≡ acc + b * mult = omega arith in
      let next : mult * 0x80 % 2 ^ 64 ≡ mult * 0x80 = omega arith in
      rw (below, top, value, sum, next) refl

  loop_ends :
      (k acc mult b total : ℕ) (rest : List ℕ)
      → b < 128
      → mult ≤ 0x200000
      → acc + b * mult ≡ total
      → total < 2 ^ 64
      → p.alloc total ≡ true
      → fixed_len_loop p k (counting s acc mult) (b ∷ rest) ≡ consumed (k + 1) (expecting s total)
  unfolding fixed_len_loop
  loop_ends k acc mult b total rest small low is fits memory =
      let value : bit_and b 0x7F ≡ b =
        bytes_agree (λ x. bit_and x 0x7F) (λ x. x) 128 b small refl in
      let top : bit_and b 0x80 ≡ 0 = bytes_agree (λ x. bit_and x 0x80) (λ x. 0) 128 b small refl in
      let below : ltb 0x200000 mult ≡ false = ground arith in
      let sum : (acc + b * mult) % 2 ^ 64 ≡ total = omega arith in
      rw (below, top, value, sum, memory) refl

  module _ (total : ℕ) (rest : List ℕ) (small : total < 2 ^ 28)
      (memory : p.alloc total ≡ true) where
    -- The bytes of what is left of the length, with the multiplier they start at.
    abbrev Reads : ℕ → ℕ → ℕ → ℕ → ℕ → Type 0
    Reads rounds k acc mult n =
        fixed_len_loop p k (counting s acc mult) (encode_loop rounds n ++ rest)
        ≡ consumed (k + length (encode_loop rounds n)) (expecting s total)

    last_byte :
        (rounds k acc mult n : ℕ)
        → n < 128
        → mult ≤ 0x200000
        → acc + n * mult ≡ total
        → Reads (suc rounds) k acc mult n
    unfolding encode_loop
    last_byte rounds k acc mult n low few is =
        let none_left : (n / 0x80 == 0) ≡ true = ground arith in
        let whole : n % 0x80 ≡ n = omega arith in
        rw (none_left, whole) (loop_ends k acc mult n total rest low few is (omega arith) memory)

    more_bytes :
        (rounds k acc mult n : ℕ)
        → 128 ≤ n
        → mult ≤ 0x200000
        → acc + n % 0x80 * mult < 2 ^ 64
        → Reads rounds (k + 1) (acc + n % 0x80 * mult) (mult * 0x80) (n / 0x80)
        → Reads (suc rounds) k acc mult n
    unfolding encode_loop
    more_bytes rounds k acc mult n high few fits ih =
        let some_left : (n / 0x80 == 0) ≡ false = ground arith in
        rw some_left (
          loop_goes_on k acc mult (n % 0x80) (encode_loop rounds (n / 0x80) ++ rest) (omega arith)
            few fits
          ∙ ih
          ∙ ap (λ t. consumed t (expecting s total)) (omega arith))

    -- By the number of bytes that the multiplier leaves.
    length_1 :
        (rounds k acc n : ℕ) → acc + n * 0x200000 ≡ total → Reads (suc rounds) k acc 0x200000 n
    length_1 rounds k acc n is = last_byte rounds k acc 0x200000 n (omega arith) (omega arith) is

    length_2 :
        (rounds k acc n : ℕ) → acc + n * 0x4000 ≡ total → Reads (suc (suc rounds)) k acc 0x4000 n
    length_2 rounds k acc n is = elim (Bool-cases (ltb n 128)) [
      | inl e ↦ last_byte (suc rounds) k acc 0x4000 n (ground arith) (omega arith) is
      | inr e ↦
          more_bytes (suc rounds) k acc 0x4000 n (ground arith) (omega arith) (omega arith)
            (length_1 rounds (k + 1) (acc + n % 0x80 * 0x4000) (n / 0x80) (omega arith))
    ]

    length_3 :
        (rounds k acc n : ℕ) → acc + n * 0x80 ≡ total → Reads (suc (suc (suc rounds))) k acc 0x80 n
    length_3 rounds k acc n is = elim (Bool-cases (ltb n 128)) [
      | inl e ↦ last_byte (suc (suc rounds)) k acc 0x80 n (ground arith) (omega arith) is
      | inr e ↦
          more_bytes (suc (suc rounds)) k acc 0x80 n (ground arith) (omega arith) (omega arith)
            (length_2 rounds (k + 1) (acc + n % 0x80 * 0x80) (n / 0x80) (omega arith))
    ]

    length_4 : (k : ℕ) → Reads 10 k 0 1 total
    length_4 k = elim (Bool-cases (ltb total 128)) [
      | inl e ↦ last_byte 9 k 0 1 total (ground arith) (omega arith) (omega arith)
      | inr e ↦
          more_bytes 9 k 0 1 total (ground arith) (omega arith) (omega arith)
            (length_3 6 (k + 1) (0 + total % 0x80 * 1) (total / 0x80) (omega arith))
    ]

  -- A length below 2^28, where memory for it is found, with anything behind it: the parser, at the
  -- start of the length, takes the bytes that `encode_remain` writes, all of them and no more,
  -- gets the length, and goes on to the message.
  pub parsed_fixed_len-encode_remain :
      (n : ℕ) (rest : List ℕ)
      → n < 2 ^ 28
      → p.alloc n ≡ true
      → parsed_fixed_len p (counting s 0 1) (encode_remain n ++ rest)
        ≡ consumed (length (encode_remain n)) (expecting s n)
  unfolding parsed_fixed_len encode_remain
  parsed_fixed_len-encode_remain n rest small memory =
      length_4 n rest small memory 0 ∙ ap (λ k. consumed k (expecting s n)) (omega arith)
