-- ===== src/Ws/Client/Delivery.antt =====
-- From the first byte of a client's frame to the message in the session's receive list.
use libyimmo.Base.{
  ℕ, suc, ◌+◌, ◌/◌, ◌%◌, ◌^◌, ◌≤◌, ◌<◌, ◌≡◌, ◌⊎◌, refl, sym, ap, ◌∙◌, bit_and, Option, List, [],
  ◌∷◌, ◌++◌, length, All, IsByte, arith,
}
use mathlib.Core.Path.{subst}
use native.Mathlib.Decide.{dec_le}
use libyimmo.Ws.Session.{Platform, IsSized, Session}
use libyimmo.Ws.Unmask.Cycle.{cycle}
use libyimmo.Ws.Header.{consumed, with_frame, parse_op}
use libyimmo.Ws.Parse.{block_of, parse_step, parse_loop}
use libyimmo.Ws.Parse.Opening.{IsLegal, opened, parse_op-IsLegal}
use libyimmo.Ws.Client.{client_frame, mask_header, fresh_frame, HasMemory}
use libyimmo.Ws.Client.Length.{
  Room, alloc_frame-Room, opened_frame, keyed_frame, counted_frame, big_endian_8, short_frame,
  long_frame, parse_len_short, parse_len_126, parse_len_127, parse_len_ext_2, parse_len_ext_8,
}
use libyimmo.Ws.Client.Payload.{parse_masking_key-consumed, IsWhole}
use libyimmo.Ws.Client.RoundTrip.{
  loop_step, gen_ws_msg_hdr-short, gen_ws_msg_hdr-medium, gen_ws_msg_hdr-long, Delivers,
  payload_loop,
}

parse_op-opened :
    (s : Session) (flag : ℕ) (message : List ℕ) (buffer : Option (List ℕ)) (buf_len : ℕ)
    → IsByte flag
    → flag / 16 ≡ 8
    → IsWhole s flag message
    → parse_op (with_frame s (fresh_frame buffer buf_len)) flag
      ≡ consumed 1 (with_frame s (opened_frame flag buffer buf_len))
parse_op-opened s flag message buffer buf_len byte top whole =
    (parse_op-IsLegal (with_frame s (fresh_frame buffer buf_len)) flag byte).0 legal
    ∙ ap (λ m. consumed 1 (record s { frame_in = opened_frame flag buffer buf_len; msg_type = m }))
        same
  where
    legal : IsLegal flag s.msg_type
    legal = ground (arith, whole.0, whole.3)

    same : (opened (with_frame s (fresh_frame buffer buf_len)) flag).msg_type ≡ s.msg_type
    same = ground (arith, whole.2)

module _ (p : Platform) (s : Session) (flag : ℕ) (k0 k1 k2 k3 : ℕ) (message rest : List ℕ)
    (buffer : Option (List ℕ)) (buf_len : ℕ) where
  abbrev pub key : List ℕ
  key = k0 ∷ k1 ∷ k2 ∷ k3 ∷ []

  -- The message is whole and fits, and all bytes are bytes.
  abbrev pub IsReady : Type 0
  IsReady =
      IsWhole s flag message
      × All IsByte key
      × All IsByte message
      × All IsByte rest
      × (length message < 2 ^ 63)

  -- The frame from its key on.
  abbrev fields : List ℕ
  fields = k0 ∷ k1 ∷ k2 ∷ k3 ∷ (cycle key 0 message ++ rest)

  key_steps :
      (fuel addr : ℕ) (block : List ℕ) (size : ℕ)
      → IsReady
      → addr + length message + 8 < 2 ^ 64
      → Delivers s flag message rest (
          parse_loop
            (suc (suc (suc fuel)))
            p
            addr
            (with_frame s (keyed_frame flag (length message) block size))
            fields)
  unfolding parse_step
  key_steps fuel addr block size (whole, hk, hm, hr, small) fits =
      subst (Delivers s flag message rest)
        (sym (
          loop_step (suc (suc fuel)) p addr
            (with_frame s (keyed_frame flag (length message) block size)) k0
            (k1 ∷ k2 ∷ k3 ∷ (cycle key 0 message ++ rest)) 4 _ refl
            (parse_masking_key-consumed s flag (length message) block size k0 k1 k2 k3
              (cycle key 0 message ++ rest) whole.1)))
        (payload_loop fuel p (addr + 4) s flag key block size message rest whole hk hm hr small
          (omega arith))

  abbrev DeliversFrom : ℕ → ℕ → List ℕ → Type 0
  DeliversFrom fuel addr bytes = Delivers s flag message rest (
      parse_loop (suc (suc (suc (suc (suc fuel))))) p addr
        (with_frame s (opened_frame flag buffer buf_len)) bytes)

  short_loop :
      (fuel addr : ℕ)
      → length message ≤ 125
      → Room p (short_frame p s flag (length message) buffer buf_len) (length message)
      → IsReady
      → addr + length message + 9 < 2 ^ 64
      → DeliversFrom fuel addr ((length message + 128) ∷ fields)
  unfolding parse_step
  short_loop fuel addr h r ready fits =
      subst (Delivers s flag message rest)
        (sym (
          loop_step _ p addr (with_frame s (opened_frame flag buffer buf_len))
            (length message + 128) fields 1 _ refl
            (parse_len_short p s flag (length message) buffer buf_len h r)))
        (key_steps (suc fuel) (addr + 1) r.block r.size ready (omega arith))

  medium_loop :
      (fuel addr : ℕ)
      → length message < 2 ^ 16
      → bit_and flag 0x08 ≡ 0
      → Room p (long_frame p s flag (length message) buffer buf_len) (length message)
      → IsReady
      → addr + length message + 11 < 2 ^ 64
      → DeliversFrom fuel addr (254 ∷ length message / 256 ∷ length message % 256 ∷ fields)
  unfolding parse_step
  medium_loop fuel addr h message_code r ready fits =
      let n = length message in
      subst (Delivers s flag message rest)
        (sym (
          loop_step _ p addr (with_frame s (opened_frame flag buffer buf_len)) 254
            (n / 256 ∷ n % 256 ∷ fields) 1 _ refl
            (parse_len_126 p s flag n buffer buf_len message_code)
          ∙ loop_step _ p (addr + 1) (with_frame s (counted_frame p s flag n buffer buf_len 2))
              (n / 256) (n % 256 ∷ fields) 2 _ refl
              (parse_len_ext_2 p s flag n buffer buf_len fields h r)))
        (key_steps fuel (addr + 1 + 2) r.block r.size ready (omega arith))

  long_loop :
      (fuel addr : ℕ)
      → bit_and flag 0x08 ≡ 0
      → Room p (long_frame p s flag (length message) buffer buf_len) (length message)
      → IsReady
      → addr + length message + 17 < 2 ^ 64
      → DeliversFrom fuel addr (255 ∷ (big_endian_8 (length message) ++ fields))
  unfolding parse_step
  long_loop fuel addr message_code r ready fits =
      let n = length message in
      subst (Delivers s flag message rest)
        (sym (
          loop_step _ p addr (with_frame s (opened_frame flag buffer buf_len)) 255
            (big_endian_8 n ++ fields) 1 _ refl
            (parse_len_127 p s flag n buffer buf_len message_code)
          ∙ loop_step _ p (addr + 1) (with_frame s (counted_frame p s flag n buffer buf_len 8)) _ _
              8 _ refl (parse_len_ext_8 p s flag n buffer buf_len fields ready.4 r)))
        (key_steps fuel (addr + 1 + 8) r.block r.size ready (omega arith))

  -- The header in its three lengths.
  length_loop :
      (fuel addr : ℕ)
      → Room p (short_frame p s flag (length message) buffer buf_len) (length message)
      → Room p (long_frame p s flag (length message) buffer buf_len) (length message)
      → (bit_and flag 0x08 ≡ 0) ⊎ (length message ≤ 125)
      → IsReady
      → addr + length message + 17 < 2 ^ 64
      → (bytes : List ℕ) × (client_frame flag key message ++ rest ≡ flag ∷ bytes)
        × DeliversFrom fuel addr bytes
  unfolding client_frame
  length_loop fuel addr short long fits_code ready fits =
      let n = length message in
      let frame : List ℕ → List ℕ =
        λ header. (mask_header header ++ (key ++ cycle key 0 message)) ++ rest in
      elim (dec_le n 125) [
        | yes h ↦ (
          _,
          ap frame (gen_ws_msg_hdr-short flag n h),
          short_loop fuel addr h short ready (omega arith),
        )
        | no h ↦
            (let message_code : bit_and flag 0x08 ≡ 0 = ground arith in
              elim (dec_le n 0xFFFF) [
                | yes k ↦ (
                  _,
                  ap frame (gen_ws_msg_hdr-medium flag n (omega arith) (omega arith)),
                  medium_loop fuel addr (omega arith) message_code long ready (omega arith),
                )
                | no k ↦ (
                  _,
                  ap frame (gen_ws_msg_hdr-long flag n (omega arith) ready.4),
                  long_loop fuel addr message_code long ready (omega arith),
                )
              ])
      ]

-- A client's frame with a whole message outside of any fragmented one (text that is UTF-8, binary,
-- or a control frame of at most 125 bytes; not empty, not a pong) is parsed, from a fresh frame
-- and in six rounds, to the message: one new bucket holds it, and the bytes behind the frame are
-- left.
pub client_frame-Delivers :
    (p : Platform) (s : Session) (flag k0 k1 k2 k3 : ℕ) (message rest : List ℕ)
    (buffer : Option (List ℕ)) (buf_len fuel addr : ℕ)
    → IsSized p
    → HasMemory p
    → buf_len ≤ length (block_of (fresh_frame buffer buf_len))
    → IsByte flag
    → flag / 16 ≡ 8
    → (bit_and flag 0x08 ≡ 0) ⊎ (length message ≤ 125)
    → length message ≤ p.frame_max
    → IsReady p s flag k0 k1 k2 k3 message rest buffer buf_len
    → addr + length message + 18 < 2 ^ 64
    → Delivers s flag message rest (
        parse_loop
          (suc (suc (suc (suc (suc (suc fuel))))))
          p
          addr
          (with_frame s (fresh_frame buffer buf_len))
          (client_frame flag (k0 ∷ k1 ∷ k2 ∷ k3 ∷ []) message ++ rest))
unfolding parse_step
client_frame-Delivers p s flag k0 k1 k2 k3 message rest buffer buf_len fuel addr sized memory block
      byte top fits_code allowed ready fits =
    let n = length message in
    let short =
      alloc_frame-Room p (short_frame p s flag n buffer buf_len) n sized memory allowed block in
    let long =
      alloc_frame-Room p (long_frame p s flag n buffer buf_len) n sized memory allowed block in
    let (bytes, written, delivers) =
      length_loop p s flag k0 k1 k2 k3 message rest buffer buf_len fuel (addr + 1) short long
        fits_code ready (omega arith) in
    subst (Delivers s flag message rest)
      (sym (
        ap (parse_loop _ p addr (with_frame s (fresh_frame buffer buf_len))) written
        ∙ loop_step _ p addr (with_frame s (fresh_frame buffer buf_len)) flag bytes 1 _ refl
            (parse_op-opened s flag message buffer buf_len byte top ready.0)))
      delivers
