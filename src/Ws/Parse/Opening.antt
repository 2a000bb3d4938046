-- ===== src/Ws/Parse/Opening.antt =====
-- The first byte of a frame: which ones `ymo_ws_parse_op` accepts, against RFC 6455, 5.2 to 5.5.
use libyimmo.Base.{
  ℕ, ◌/◌, ◌%◌, ◌≤◌, ◌≡◌, ◌≢◌, ◌⊎◌, refl, bit_and, not, ◌&&◌, ◌||◌, ◌==◌, if◌then◌else◌, IsByte,
  arith,
}
use libyimmo.Base.Bits.{all_agree→eq}
use libyimmo.Ws.Session.{Session, len, op_code, fin}
use libyimmo.Ws.Header.{consumed, parse_op}

abbrev IsControl : ℕ → Type 0
IsControl code = (code ≡ 0x8) ⊎ (code ≡ 0x9) ⊎ (code ≡ 0xA)

-- The reserved bits are clear; a control frame is not fragmented; a continuation stands within a
-- message, and a text or binary frame outside of any.
abbrev pub IsLegal : ℕ → ℕ → Type 0
IsLegal byte msg_type =
    (byte / 16 % 8 ≡ 0)
    × ((IsControl (byte % 16) × (128 ≤ byte))
        ⊎ ((byte % 16 ≡ 0) × (msg_type ≢ 0))
        ⊎ (((byte % 16 ≡ 1) ⊎ (byte % 16 ≡ 2)) × (msg_type ≡ 0)))

-- The session after an accepted byte: an unfinished text or binary frame opens a message.
abbrev pub opened : Session → ℕ → Session
opened s byte = record s {
  frame_in = record s.frame_in { flags = byte; parse_state = len };
  msg_type =
      if (op_code byte == 1 || op_code byte == 2) && not (fin byte)
      then op_code byte
      else s.msg_type;
}

reserved_bits : (b : ℕ) → IsByte b → (bit_and b 0x70 == 0) ≡ (b / 16 % 8 == 0)
reserved_bits b h = all_agree→eq (λ x. bit_and x 0x70 == 0) (λ x. x / 16 % 8 == 0) 256 b h refl

-- A legal first byte is consumed and opens the frame, and no other byte is consumed.
pub parse_op-IsLegal :
    (s : Session) (byte : ℕ)
    → IsByte byte
    → (IsLegal byte s.msg_type → parse_op s byte ≡ consumed 1 (opened s byte))
      × ((n : ℕ) (s' : Session) → parse_op s byte ≡ consumed n s' → IsLegal byte s.msg_type)
unfolding parse_op
parse_op-IsLegal s byte h = (
  λ legal. ground (arith, reserved_bits byte h),
  λ n s' e. (ground (arith, reserved_bits byte h), ground (arith, reserved_bits byte h)),
)
