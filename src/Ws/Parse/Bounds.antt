-- ===== src/Ws/Parse/Bounds.antt =====
-- Where `ymo_ws_parse_payload` writes: inside the frame buffer.
use libyimmo.Base.{
  ℕ, ◌+◌, ◌^◌, ◌≤◌, ◌<◌, ◌≡◌, inl, inr, refl, ap, ◌∙◌, min, Option, none, some, List, ◌++◌, length,
  take, drop, length-append, length-take, length-drop, ◌==◌, Bool-cases, All, Status, okay, IsByte,
  arith,
}
use mathlib.Core.Option
use mathlib.Core.Path.{subst}
use libyimmo.Ws.Session.{payload, Frame, Session, op_code}
use libyimmo.Ws.Unmask.{sub_size, unmask_payload}
use libyimmo.Ws.Unmask.Cycle.{length-cycle}
use libyimmo.Ws.Unmask.Payload.{unmask_payload-cycle}
use libyimmo.Ws.Header.{Parsed, consumed, failed, with_frame}
use libyimmo.Ws.Parse.{
  block_of, write_at, unmask_frame, frame_done, check_text, payload_end, parse_payload,
}
use libyimmo.Ws.Parse.Invariant.{Shape, IsValid}

-- The session that a parse function leaves, accepted or not.
abbrev pub session_after : Parsed → Session
session_after (consumed n s) = s
session_after (failed e s) = s

length-write_at :
    (block : List ℕ) (offset : ℕ) (out : List ℕ)
    → offset + length out ≤ length block
    → length (write_at block offset out) ≡ length block
length-write_at block offset out h = omega (
  arith,
  length-append (take offset block) (out ++ drop (offset + length out) block),
  length-append out (drop (offset + length out) block),
  length-take offset block,
  length-drop (offset + length out) block,
)

length-unmask_frame :
    (f : Frame) (addr : ℕ) (buffer : List ℕ) (n : ℕ)
    → All IsByte f.masking_key
    → All IsByte buffer
    → n ≤ length buffer
    → f.parsed + n ≤ length (block_of f)
    → addr + n + 4 < 2 ^ 64
    → length (block_of (unmask_frame f addr buffer n)) ≡ length (block_of f)
unfolding unmask_frame
length-unmask_frame f addr buffer n hk hb read room fits =
    elim (Bool-cases (op_code f.flags == 0xA)) [
      | inl pong ↦ rw pong
      | inr other ↦ rw other (mapped f.buffer room)
    ]
  where
    out : List ℕ
    out = (unmask_payload f.masking_key f.idx addr buffer n).output

    length-out : length out ≡ n
    length-out =
        ap length (unmask_payload-cycle f.masking_key f.idx addr n buffer hk hb read fits).0
        ∙ length-cycle f.masking_key f.idx (take n buffer)
        ∙ omega (arith, length-take n buffer)

    mapped :
        (o : Option (List ℕ))
        → f.parsed + n ≤ length (block_of (record f { buffer = o }))
        → length
            (block_of (record f { buffer = Option.map (λ block. write_at block f.parsed out) o }))
          ≡ length (block_of (record f { buffer = o }))
    mapped none k = refl
    mapped (some block) k = length-write_at block f.parsed out (omega (arith, length-out))

block-check_text :
    (s : Session) (o n : ℕ) → block_of (check_text s o n).1.frame_in ≡ block_of s.frame_in
unfolding check_text
block-check_text s o n = ground arith

block-payload_end :
    (n : ℕ) (r : Status × Session)
    → block_of (session_after (payload_end n r)).frame_in ≡ block_of r.1.frame_in
unfolding payload_end frame_done
block-payload_end n (okay, s) = ground arith
block-payload_end n (e, s) = refl

-- In the payload state of a valid session, accepted bytes or not, the writes of
-- `ymo_ws_parse_payload` end inside the frame buffer: the block keeps its length.
pub parse_payload-length :
    (addr : ℕ) (s : Session) (bs : List ℕ)
    → s.frame_in.parse_state ≡ payload
    → IsValid s.frame_in
    → All IsByte s.frame_in.masking_key
    → All IsByte bs
    → addr + length bs + 4 < 2 ^ 64
    → length (block_of (session_after (parse_payload addr s bs)).frame_in)
      ≡ length (block_of s.frame_in)
unfolding parse_payload
parse_payload-length addr s bs st v hk hb fits =
    let f = s.frame_in in
    let (small, part, room) : Shape payload f = subst (λ t. Shape t f) st v.shape in
    let n = min (length bs) (sub_size f.len f.parsed) in
    let f1 = unmask_frame f addr bs n in
    let s1 = with_frame s (record f1 { parsed = f.parsed + n }) in
    ap length (block-payload_end n (check_text s1 f.parsed n) ∙ block-check_text s1 f.parsed n)
    ∙ length-unmask_frame f addr bs n hk hb (omega arith) (omega (arith, v.block_fits))
        (omega arith)
