-- ===== src/Ws/Parse/Safety.antt =====
-- The parser's loop ends, and keeps its session valid where no parse function fails.
use libyimmo.Base.{
  ℕ, zero, suc, ◌+◌, ◌^◌, ◌≤◌, ◌<◌, ◌≡◌, ◌⊎◌, inl, inr, refl, sym, ap, ◌∙◌, min, Bool, true, false,
  Option, none, some, List, [], ◌∷◌, ◌++◌, length, take, drop, length-append, length-take,
  length-drop, ◌==◌, Bool-cases, All, Status, okay, IsByte, arith,
}
use mathlib.Core.Option
use mathlib.Core.Path.{subst}
use libyimmo.Ws.Session.{
  Platform, IsSized, ParseState, op, len, len_extended, masking_key, payload, complete, Frame,
  Session, op_code,
}
use libyimmo.Ws.Unmask.{sub_size, unmask_payload}
use libyimmo.Ws.Header.{Parsed, consumed, failed, with_frame}
use libyimmo.Ws.Parse.{
  block_of, write_at, unmask_frame, frame_done, check_text, payload_end, parse_payload, parse_step,
  is_complete, Outcome, stopped, broke, stuck, parse_loop,
}
use libyimmo.Ws.Parse.Invariant.{
  Shape, IsValid, Keeps, parse_op-Keeps, parse_len-Keeps, parse_len_ext-Keeps,
}
use libyimmo.Ws.Parse.Key.{parse_masking_key-Keeps}

length-write_at :
    (block : List ℕ) (offset : ℕ) (out : List ℕ)
    → offset ≤ length block
    → length block ≤ length (write_at block offset out)
length-write_at block offset out h = omega (
  arith,
  length-append (take offset block) (out ++ drop (offset + length out) block),
  length-append out (drop (offset + length out) block),
  length-take offset block,
  length-drop (offset + length out) block,
)

-- Unmasking changes the block's contents and the position in the key.
record Written (f f' : Frame) : Type 0 where
  block : length (block_of f) ≤ length (block_of f')
  same : f' ≡ record f { buffer = f'.buffer; idx = f'.idx }

unmask_frame-Written :
    (f : Frame) (addr : ℕ) (buffer : List ℕ) (n : ℕ)
    → f.parsed ≤ length (block_of f)
    → Written f (unmask_frame f addr buffer n)
unfolding unmask_frame
unmask_frame-Written f addr buffer n h = elim (Bool-cases (op_code f.flags == 0xA)) [
  | inl pong ↦ rw pong (record { block = omega arith; same = refl })
  | inr other ↦ rw other (record { block = mapped f.buffer h; same = refl })
]
  where
    out : List ℕ
    out = (unmask_payload f.masking_key f.idx addr buffer n).output

    mapped :
        (o : Option (List ℕ))
        → f.parsed ≤ length (block_of (record f { buffer = o }))
        → length (block_of (record f { buffer = o }))
          ≤ length
              (block_of (record f { buffer = Option.map (λ block. write_at block f.parsed out) o }))
    mapped none k = omega arith
    mapped (some block) k = length-write_at block f.parsed out k

frame_in-check_text : (s : Session) (o n : ℕ) → (check_text s o n).1.frame_in ≡ s.frame_in
unfolding check_text
frame_in-check_text s o n = ground arith

frame_in-frame_done :
    (s : Session) → (frame_done s).frame_in ≡ record s.frame_in { parse_state = complete }
unfolding frame_done
frame_in-frame_done s = ground arith

payload_end-Keeps :
    (n room : ℕ) (r : Status × Session)
    → 1 ≤ n
    → n ≤ room
    → r.1.frame_in.parse_state ≡ payload
    → r.1.frame_in.buf_len ≤ length (block_of r.1.frame_in)
    → length r.1.frame_in.masking_key ≡ 4
    → (r.1.frame_in.len < 2 ^ 64)
      × (r.1.frame_in.parsed ≤ r.1.frame_in.len)
      × (r.1.frame_in.len ≤ r.1.frame_in.buf_len)
    → Keeps room (payload_end n r)
unfolding payload_end
payload_end-Keeps n room (okay, s) h k st block key shape =
    elim (Bool-cases (s.frame_in.parsed == s.frame_in.len)) [
      | inl last ↦ rw last (
        h,
        k,
        subst IsValid (sym (frame_in-frame_done s))
            (record { block_fits = block; key_fits = key; shape = shape.2 }),
      )
      | inr more ↦ rw more (
        h,
        k,
        record {
          block_fits = block;
          key_fits = key;
          shape =
              subst (λ t. Shape t s.frame_in) (sym st)
                (shape.0, ground (arith, more, shape.1), shape.2);
        },
      )
    ]
payload_end-Keeps n room (e, s) h k st block key shape = tt

parse_payload-Keeps :
    (addr : ℕ) (s : Session) (b : ℕ) (bs : List ℕ)
    → s.frame_in.parse_state ≡ payload
    → IsValid s.frame_in
    → Keeps (length (b ∷ bs)) (parse_payload addr s (b ∷ bs))
unfolding parse_payload
parse_payload-Keeps addr s b bs st v =
    let f = s.frame_in in
    let (small, part, room) : Shape payload f = subst (λ t. Shape t f) st v.shape in
    let n = min (length (b ∷ bs)) (sub_size f.len f.parsed) in
    let f1 = unmask_frame f addr (b ∷ bs) n in
    let w = unmask_frame-Written f addr (b ∷ bs) n (omega (arith, v.block_fits)) in
    let f2 = record f1 { parsed = f.parsed + n } in
    let r = check_text (with_frame s f2) f.parsed n in
    let is : record f { buffer = f1.buffer; idx = f1.idx; parsed = f.parsed + n } ≡ r.1.frame_in =
      ap {A = Frame} {B = Frame} (λ g. record g { parsed = f.parsed + n }) (sym w.same)
      ∙ sym (frame_in-check_text (with_frame s f2) f.parsed n) in
    payload_end-Keeps n (length (b ∷ bs)) r (omega arith) (omega arith)
      (subst (λ g. g.parse_state ≡ payload) is st)
      (subst (λ g. g.buf_len ≤ length (block_of g)) is (omega (arith, v.block_fits, w.block)))
      (subst (λ g. length g.masking_key ≡ 4) is v.key_fits)
      (subst (λ g. (g.len < 2 ^ 64) × (g.parsed ≤ g.len) × (g.len ≤ g.buf_len)) is
        (small, omega arith, room))

parse_step-Keeps :
    (p : Platform) (addr : ℕ) (s : Session) (st : ParseState) (b : ℕ) (bs : List ℕ)
    → IsSized p
    → IsByte b
    → s.frame_in.parse_state ≡ st
    → is_complete st ≡ false
    → IsValid s.frame_in
    → Keeps (length (b ∷ bs)) (parse_step p addr s st b bs)
unfolding parse_step
parse_step-Keeps p addr s op b bs sized hb e h v =
    parse_op-Keeps s b (length (b ∷ bs)) (omega arith) e v
parse_step-Keeps p addr s len b bs sized hb e h v =
    parse_len-Keeps p s b (length (b ∷ bs)) sized hb (omega arith) e v
parse_step-Keeps p addr s len_extended b bs sized hb e h v = parse_len_ext-Keeps p s b bs sized e v
parse_step-Keeps p addr s masking_key b bs sized hb e h v = parse_masking_key-Keeps s b bs e v
parse_step-Keeps p addr s payload b bs sized hb e h v = parse_payload-Keeps addr s b bs e v
parse_step-Keeps p addr s complete b bs sized hb e h v = absurd (cc)

-- How the loop may end: at a frame's end, with all bytes read, or at an error; never for want of
-- fuel.
abbrev pub EndsSoundly : Outcome → Type 0
EndsSoundly (stopped s rest) =
    IsValid s.frame_in × ((rest ≡ []) ⊎ (is_complete s.frame_in.parse_state ≡ true))
EndsSoundly (broke e s) = Unit
EndsSoundly stuck = ⊥

abbrev pub after_step : ℕ → Platform → ℕ → List ℕ → Parsed → Outcome
after_step fuel p addr bs r = elim r [
  | failed e s' ↦ broke e s'
  | consumed n s' ↦ parse_loop fuel p (addr + n) s' (drop n bs)
]

abbrev pub round : ℕ → Platform → ℕ → Session → ℕ → List ℕ → Bool → Outcome
round fuel p addr s b bs last = elim last [
  | true ↦ stopped s (b ∷ bs)
  | false ↦ after_step fuel p addr (b ∷ bs) (parse_step p addr s s.frame_in.parse_state b bs)
]

All-drop : (n : ℕ) (bs : List ℕ) → All IsByte bs → All IsByte (drop n bs)
All-drop zero bs h = h
All-drop (suc n) [] h = h
All-drop (suc n) (b ∷ bs) h = All-drop n bs h.1

after_step-EndsSoundly :
    (fuel : ℕ) (p : Platform) (addr : ℕ) (bs : List ℕ) (r : Parsed)
    → Keeps (length bs) r
    → length bs ≤ suc fuel
    → ((n : ℕ) (s : Session)
        → IsValid s.frame_in
        → length (drop n bs) ≤ fuel
        → EndsSoundly (parse_loop fuel p (addr + n) s (drop n bs)))
    → EndsSoundly (after_step fuel p addr bs r)
after_step-EndsSoundly fuel p addr bs (consumed n s) k h rest =
    rest n s k.2 (omega (arith, length-drop n bs))
after_step-EndsSoundly fuel p addr bs (failed e s) k h rest = tt

-- From a valid session, with sized blocks and fuel for every byte, the loop ends. It breaks off
-- where a parse function fails, and nothing is said of the session then; or else the session it
-- leaves is valid, and bytes are left unread only behind a complete frame.
pub parse_loop-EndsSoundly :
    (fuel : ℕ) (p : Platform) (addr : ℕ) (s : Session) (bs : List ℕ)
    → IsSized p
    → All IsByte bs
    → IsValid s.frame_in
    → length bs ≤ fuel
    → EndsSoundly (parse_loop fuel p addr s bs)
unfolding parse_loop
parse_loop-EndsSoundly zero p addr s [] sized hb v h = (v, inl refl)
parse_loop-EndsSoundly (suc fuel) p addr s [] sized hb v h = (v, inl refl)
parse_loop-EndsSoundly zero p addr s (b ∷ bs) sized hb v h = absurd (omega arith)
parse_loop-EndsSoundly (suc fuel) p addr s (b ∷ bs) sized hb v h =
    elim (Bool-cases (is_complete s.frame_in.parse_state)) [
      | inl last ↦ subst (λ c. EndsSoundly (round fuel p addr s b bs c)) (sym last) (v, inr last)
      | inr more ↦
          subst (λ c. EndsSoundly (round fuel p addr s b bs c)) (sym more)
            (after_step-EndsSoundly fuel p addr (b ∷ bs)
              (parse_step p addr s s.frame_in.parse_state b bs)
              (parse_step-Keeps p addr s s.frame_in.parse_state b bs sized hb.0 refl more v) h
              (λ n s' v' h'.
                parse_loop-EndsSoundly fuel p (addr + n) s' (drop n (b ∷ bs)) sized
                  (All-drop n (b ∷ bs) hb) v' h'))
    ]
