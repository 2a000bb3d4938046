-- ===== src/Ws/Client.antt =====
-- A client's side of src/protocol/ws: masked frames as RFC 6455, 5.2 asks for them, built on the
-- header of `gen_ws_msg_hdr`, and what the server's parser makes of them.
pub mod Length
pub mod Payload
pub mod RoundTrip
pub mod Delivery
use libyimmo.Base.{ℕ, ◌+◌, ◌≤◌, ◌≡◌, max, Option, some, List, [], ◌∷◌, ◌++◌, length}
use libyimmo.Util.Utf8.{Utf8State}
use libyimmo.Ws.Session.{Platform, op, Frame, Session, gen_ws_msg_hdr, frame_min}
use libyimmo.Ws.Unmask.Cycle.{cycle}

-- The mask bit is the top bit of the second byte.
abbrev pub mask_header : List ℕ → List ℕ
mask_header [] = []
mask_header (h ∷ []) = h ∷ []
mask_header (h0 ∷ h1 ∷ r) = h0 ∷ (h1 + 128) ∷ r

unfoldable pub client_frame : ℕ → List ℕ → List ℕ → List ℕ
client_frame flag key message =
    mask_header (gen_ws_msg_hdr flag (length message)) ++ (key ++ cycle key 0 message)

-- A frame as `ymo_proto_ws_read` resets it, and as a new session has it: all zero, but for the
-- buffer.
abbrev pub fresh_frame : Option (List ℕ) → ℕ → Frame
fresh_frame buffer buf_len = record {
  len = 0;
  parsed = 0;
  masking_key = 0 ∷ 0 ∷ 0 ∷ 0 ∷ [];
  parse_state = op;
  masked = 0;
  flags = 0;
  buffer = buffer;
  buf_len = buf_len;
  idx = 0;
}

-- The process has memory for the frames that the parser lets through.
abbrev pub HasMemory : Platform → Type 0
HasMemory p =
    (n : ℕ) → n ≤ p.frame_max → (block : List ℕ) × (p.alloc (max frame_min n) ≡ some block)
