-- ===== src/Ws/Session.antt =====
-- src/protocol/ws/ymo_ws_session.h and ymo_ws_session.c: the session, the frame buffer and the
-- header of an outgoing message.
use libyimmo.Base.{
  ℕ, ◌/◌, ◌%◌, ◌^◌, ◌≡◌, bit_and, max, Bool, Option, none, some, List, [], ◌∷◌, length, ltb, leb,
  if◌then◌else◌, Status, okay, enomem, enobufs,
}
use libyimmo.Util.Utf8.{Utf8State}

-- What the process gives: `YMO_ALLOC(n)` is `none` or some block, whose contents are whatever
-- was there, and YMO_WS_FRAME_MAX is set when the library is configured.
pub record Platform : Type 0 where
  pub alloc : ℕ → Option (List ℕ)
  pub frame_max : ℕ

-- A block is as long as it was asked for.
abbrev pub IsSized : Platform → Type 0
IsSized p = (n : ℕ) (block : List ℕ) → p.alloc n ≡ some block → length block ≡ n

pub data ParseState : Type 0 where
  op len len_extended masking_key payload complete : ParseState

-- `ymo_ws_frame_t`. `flags` is the packed byte. `mask_mod` and `len_idx` share one byte, here
-- `idx`. The buffer is the block of `buf_len` bytes at `buffer`, or `none` for NULL.
pub record Frame : Type 0 where
  pub len : ℕ
  pub parsed : ℕ
  pub masking_key : List ℕ
  pub parse_state : ParseState
  pub masked : ℕ
  pub flags : ℕ
  pub buffer : Option (List ℕ)
  pub buf_len : ℕ
  pub idx : ℕ

-- The fields of `ymo_ws_session_t` that the parser works on. `recv` is the list from `recv_head`
-- to `recv_tail`: for each bucket the bytes it lends out.
pub record Session : Type 0 where
  pub frame_in : Frame
  pub recv : List (List ℕ)
  pub msg_type : ℕ
  pub utf8_state : Utf8State

-- The bit fields of `ymo_ws_frame_flags_t`.
abbrev pub op_code : ℕ → ℕ
op_code packed = packed % 16

abbrev pub fin : ℕ → Bool
fin packed = leb 128 packed

abbrev pub frame_min : ℕ
frame_min = 256

-- The allocation at the end of `ymo_ws_session_alloc_frame`.
unfoldable pub new_buffer : Platform → Frame → ℕ → Status × Frame
new_buffer p f n = elim (p.alloc (max frame_min n)) [
  | none ↦ (enomem, record f { buffer = none })
  | some block ↦ (okay, record f { buffer = some block; buf_len = max frame_min n })
]

unfoldable pub alloc_frame : Platform → Frame → ℕ → Status × Frame
unfolding new_buffer
alloc_frame p f n = if ltb p.frame_max n then (enobufs, f) else elim f.buffer [
  | none ↦ new_buffer p f n
  | some block ↦
      if leb n f.buf_len
      then (okay, f)
      else new_buffer p (record f { buffer = none; buf_len = 0 }) n
]

abbrev pub byte_at : ℕ → ℕ → ℕ
byte_at n k = bit_and (n / 2 ^ k) 0xFF

-- `gen_ws_msg_hdr`, where its allocation succeeds.
unfoldable pub gen_ws_msg_hdr : ℕ → ℕ → List ℕ
gen_ws_msg_hdr flag n =
    if leb n 125
    then flag ∷ n ∷ []
    else if leb n 0xFFFF
    then flag ∷ 126 ∷ byte_at n 8 ∷ byte_at n 0 ∷ []
    else flag
      ∷ 127
      ∷ byte_at n 56
      ∷ byte_at n 48
      ∷ byte_at n 40
      ∷ byte_at n 32
      ∷ byte_at n 24
      ∷ byte_at n 16
      ∷ byte_at n 8
      ∷ byte_at n 0
      ∷ []
