-- ===== src/Ws/Header.antt =====
-- src/protocol/ws/ymo_ws_parse.c, the functions for a frame's header: first byte, length, extended
-- length and masking key. Creating a bucket is taken to succeed; allocating the frame buffer
-- may fail.
use libyimmo.Base.{
  ℕ, ◌+◌, ◌-◌, ◌*◌, ◌%◌, ◌^◌, bit_and, Bool, true, false, ◌&&◌, ◌||◌, not, List, [], ◌∷◌, ◌++◌, set,
  leb, ◌==◌, if◌then◌else◌, Status, okay, einval, ebadmsg,
}
use libyimmo.Ws.Session.{
  Platform, len, len_extended, masking_key, payload, complete, Frame, Session, op_code, fin,
  alloc_frame,
}

-- What a parse function returns: a count of bytes, or -1 with `errno`.
pub data Parsed : Type 0 where
  consumed : ℕ → Session → Parsed
  failed : Status → Session → Parsed

abbrev pub with_frame : Session → Frame → Session
with_frame s f = record s { frame_in = f }

-- The end of `ymo_ws_parse_op`, behind its switch.
op_accepted : Session → Bool → Parsed
op_accepted s fin_required =
    if fin_required && not (fin s.frame_in.flags)
    then failed ebadmsg s
    else consumed 1 (with_frame s (record s.frame_in { parse_state = len }))

-- The case of a text or binary frame.
op_message : Session → Parsed
unfolding op_accepted
op_message s =
    if not (s.msg_type == 0)
    then failed einval s
    else op_accepted
        (if fin s.frame_in.flags then s else record s { msg_type = op_code s.frame_in.flags }) false

op_switch : Session → ℕ → Parsed
unfolding op_accepted op_message
op_switch s code =
    if code == 0x8
    then op_accepted s true
    else if code == 0x0
    then if s.msg_type == 0 then failed einval s else op_accepted s false
    else if code == 0x1 || code == 0x2
    then op_message s
    else if code == 0x9 || code == 0xA
    then op_accepted s true
    else failed ebadmsg s

unfoldable pub parse_op : Session → ℕ → Parsed
unfolding op_switch
parse_op s byte =
    let s1 = with_frame s (record s.frame_in { flags = byte }) in
    if not (bit_and byte 0x70 == 0) then failed ebadmsg s1 else op_switch s1 (op_code byte)

-- What follows a call of `ymo_ws_session_alloc_frame`.
unfoldable pub allocated : Session → ℕ → Status × Frame → Parsed
allocated s n (okay, f) = consumed n (with_frame s f)
allocated s n (e, f) = failed e (with_frame s f)

unfoldable pub parse_len : Platform → Session → ℕ → Parsed
unfolding allocated
parse_len p s ch =
    let f = record s.frame_in { masked = bit_and ch 0x80 } in
    let msg_len = bit_and ch 0x7F in
    if f.masked == 0
    then failed ebadmsg (with_frame s f)
    else if leb msg_len 125
    then allocated s 1
        (alloc_frame p (record f { len = msg_len; parse_state = masking_key }) msg_len)
    else let f' = record f { idx = if msg_len == 126 then 2 else 8; parse_state = len_extended } in
      if not (bit_and f'.flags 0x08 == 0)
      then failed ebadmsg (with_frame s f')
      else consumed 1 (with_frame s f')

-- `while( len-- && session->frame_in.len_idx )`, with the bytes read so far.
unfoldable pub ext_loop : Frame → ℕ → List ℕ → ℕ × Frame
ext_loop f n [] = (n, f)
ext_loop f n (b ∷ bs) =
    let rest =
      ext_loop
        (record f { len = (f.len + b * 2 ^ (8 * (f.idx - 1)) % 2 ^ 64) % 2 ^ 64; idx = f.idx - 1 })
        (n + 1) bs in
    if f.idx == 0 then (n, f) else rest

-- The masking key comes next, once the buffer is there.
abbrev pub start_key : Status × Frame → Status × Frame
start_key (okay, f) = (okay, record f { parse_state = masking_key })
start_key (e, f) = (e, f)

-- What follows the loop.
unfoldable pub ext_done : Platform → Session → ℕ × Frame → Parsed
unfolding allocated
ext_done p s (n, f) =
    if not (f.idx == 0)
    then consumed n (with_frame s f)
    else if not (bit_and f.len 0x8000000000000000 == 0)
    then failed ebadmsg (with_frame s f)
    else allocated s n (start_key (alloc_frame p f f.len))

unfoldable pub parse_len_ext : Platform → Session → List ℕ → Parsed
unfolding ext_loop ext_done
parse_len_ext p s buffer = ext_done p s (ext_loop s.frame_in 0 buffer)

-- The masking key is complete: an empty frame is delivered as an empty bucket.
unfoldable pub key_complete : Session → Session
key_complete s =
    if not (s.frame_in.len == 0)
    then with_frame s (record s.frame_in { parse_state = payload })
    else record s {
      frame_in = record s.frame_in { parse_state = complete };
      recv = s.recv ++ ([] ∷ []);
    }

-- The loop over the key's bytes.
unfoldable pub key_loop : Session → ℕ → List ℕ → Parsed
key_loop s n [] = consumed n s
key_loop s n (b ∷ bs) =
    let f = record s.frame_in {
      masking_key = set s.frame_in.masking_key s.frame_in.idx b;
      idx = (s.frame_in.idx + 1) % 256;
    } in
    let rest = key_loop (with_frame s f) (n + 1) bs in
    if f.idx == 4 then consumed (n + 1) (key_complete (with_frame s f)) else rest

unfoldable pub parse_masking_key : Session → List ℕ → Parsed
unfolding key_loop key_complete
parse_masking_key s buffer =
    if s.frame_in.masked == 0
    then consumed 0 (with_frame s (record s.frame_in { parse_state = payload }))
    else key_loop s 0 buffer
