-- ===== src/Ws/Parse.antt =====
-- `ymo_ws_parse_payload` of src/protocol/ws/ymo_ws_parse.c, and the loop of `ymo_proto_ws_read`
-- (src/protocol/ws/ymo_proto_ws.c) that drives the parse functions.
pub mod Invariant
pub mod Key
pub mod Safety
pub mod Opening
pub mod Bounds
use libyimmo.Base.{
  ℕ, zero, suc, ◌+◌, min, Bool, true, false, ◌&&◌, ◌||◌, not, Option, none, some, List, [], ◌∷◌,
  ◌++◌, length, take, drop, leb, ◌==◌, if◌then◌else◌, Status, okay,
}
use mathlib.Core.Option
use libyimmo.Util.Utf8.{check_utf8}
use libyimmo.Ws.Session.{
  Platform, ParseState, op, len, len_extended, masking_key, payload, complete, Frame, Session,
  op_code, fin,
}
use libyimmo.Ws.Unmask.{sub_size, unmask_payload}
use libyimmo.Ws.Header.{
  Parsed, consumed, failed, with_frame, parse_op, parse_len, parse_len_ext, parse_masking_key,
}

-- `out` replaces what stands in the block from `offset` on.
abbrev pub write_at : List ℕ → ℕ → List ℕ → List ℕ
write_at block offset out = take offset block ++ (out ++ drop (offset + length out) block)

abbrev pub block_of : Frame → List ℕ
block_of f = elim f.buffer [ none ↦ [] | some block ↦ block ]

-- The call of `unmask_payload`, on the frame buffer: nothing is written for a pong.
unfoldable pub unmask_frame : Frame → ℕ → List ℕ → ℕ → Frame
unmask_frame f addr buffer n =
    if op_code f.flags == 0xA
    then f
    else let c = unmask_payload f.masking_key f.idx addr buffer n in
      record f {
        buffer = Option.map (λ block. write_at block f.parsed c.output) f.buffer;
        idx = c.mask_mod;
      }

-- The switch at the end of a frame.
unfoldable pub frame_done : Session → Session
frame_done s =
    let s1 = record s { frame_in = record s.frame_in { parse_state = complete } } in
    let code = op_code s.frame_in.flags in
    let s2 = record s1 {
      msg_type = if leb code 0x2 && fin s.frame_in.flags then 0 else s.msg_type;
    } in
    if leb code 0x2 || (code == 0x8 || code == 0x9)
    then record s2 { recv = s.recv ++ (take s.frame_in.len (block_of s.frame_in) ∷ []) }
    else s2

-- The bytes that are checked: past the reason code at the start of a close frame.
abbrev pub checked_bytes : Frame → ℕ → ℕ → List ℕ
checked_bytes f offset n =
    take n (drop (if op_code f.flags == 0x8 && offset == 0 then 2 else offset) (block_of f))

-- The UTF-8 test of `ymo_ws_parse_payload` on the `n` bytes written at `offset`.
unfoldable pub check_text : Session → ℕ → ℕ → Status × Session
check_text s offset n =
    if (op_code s.frame_in.flags == 0x1 || s.msg_type == 0x1) && not (s.frame_in.len == 0)
    then (let (e, u) =
          check_utf8 s.utf8_state (checked_bytes s.frame_in offset n)
            (s.frame_in.parsed == s.frame_in.len && fin s.frame_in.flags) in
        (e, record s { utf8_state = u }))
    else (okay, s)

unfoldable pub payload_end : ℕ → Status × Session → Parsed
unfolding frame_done
payload_end n (okay, s) =
    consumed n (if s.frame_in.parsed == s.frame_in.len then frame_done s else s)
payload_end n (e, s) = failed e s

-- `addr` is the address of the buffer.
unfoldable pub parse_payload : ℕ → Session → List ℕ → Parsed
unfolding unmask_frame check_text payload_end
parse_payload addr s buffer =
    let f = s.frame_in in
    let n = min (length buffer) (sub_size f.len f.parsed) in
    let f1 = unmask_frame f addr buffer n in
    let s1 = with_frame s (record f1 { parsed = f.parsed + n }) in
    payload_end n (check_text s1 f.parsed n)

-- One round of the loop, on the unread bytes; `complete` ends the loop before its next round.
unfoldable pub parse_step : Platform → ℕ → Session → ParseState → ℕ → List ℕ → Parsed
unfolding parse_op parse_len parse_len_ext parse_masking_key parse_payload
parse_step p addr s op b bs = parse_op s b
parse_step p addr s len b bs = parse_len p s b
parse_step p addr s len_extended b bs = parse_len_ext p s (b ∷ bs)
parse_step p addr s masking_key b bs = parse_masking_key s (b ∷ bs)
parse_step p addr s payload b bs = parse_payload addr s (b ∷ bs)
parse_step p addr s complete b bs = consumed 0 s

-- How the loop ends: with the session and the unread bytes, or at an error. `stuck` is no
-- outcome of the code: the fuel has run out.
pub data Outcome : Type 0 where
  stopped : Session → List ℕ → Outcome
  broke : Status → Session → Outcome
  stuck : Outcome

abbrev pub is_complete : ParseState → Bool
is_complete complete = true
is_complete _ = false

unfoldable pub parse_loop : ℕ → Platform → ℕ → Session → List ℕ → Outcome
unfolding parse_step
parse_loop fuel p addr s [] = stopped s []
parse_loop zero p addr s (b ∷ bs) = stuck
parse_loop (suc fuel) p addr s (b ∷ bs) = elim (is_complete s.frame_in.parse_state) [
  | true ↦ stopped s (b ∷ bs)
  | false ↦ elim (parse_step p addr s s.frame_in.parse_state b bs) [
    | failed e s' ↦ broke e s'
    | consumed n s' ↦ parse_loop fuel p (addr + n) s' (drop n (b ∷ bs))
  ]
]
