-- ===== src/Mqtt/Read/Ends.antt =====
-- The loop of `ymo_proto_mqtt_read` (src/protocol/mqtt/ymo_proto_mqtt.c) comes to an end.
use libyimmo.Base.{
  ℕ, zero, suc, ◌+◌, ◌-◌, ◌≤◌, ◌<◌, ◌⊎◌, inl, inr, min, bit_and, not, ◌&&◌, Bool-cases, Option,
  none, some, List, [], ◌∷◌, ◌++◌, length, take, drop, length-drop, ltb, ◌==◌, ◌≡◌, ◌≢◌, refl, ap,
  arith,
}
use libyimmo.Mqtt.Session.{
  ParseState, fixed_ctrlpack, fixed_length, varhdr_payload, complete, Session, session_send,
}
use libyimmo.Mqtt.Reader.{Platform, Reading, got, refused, outside}
use libyimmo.Mqtt.Packet.{
  Parsed, consumed, failed, overrun, parse_fixed_ctrlpack, parsed_fixed_len, fixed_len_loop,
  varhdr_init, add_length, parse_varhdr_payload, varhdr_done, payload_done, parse_varhdr,
  parse_payload, is_connecting, asserted_flag, flags_ok, block_of,
}
use libyimmo.Mqtt.Read.{
  Result, bytes_read, error, stray, unfinished, reset_after, message_complete, loop_left, while_len,
  parse_step, read_switch, parse_function, read_loop, proto_read,
}

-- The function returned, or went outside of a buffer; its loop is over.
abbrev IsOver : Result → Type 0
IsOver (bytes_read n s) = Unit
IsOver (error e s) = Unit
IsOver stray = Unit
IsOver unfinished = ⊥

-- The function returned.
abbrev pub Returns : Result → Type 0
Returns (bytes_read n s) = Unit
Returns (error e s) = Unit
Returns stray = ⊥
Returns unfinished = ⊥

over_inside : (r : Result) → IsOver r → r ≢ stray → Returns r
over_inside (bytes_read n s) over inside = tt
over_inside (error e s) over inside = tt
over_inside stray over inside = absurd (inside refl)
over_inside unfinished over inside = over

-- A parse function that returns took a byte, or the message is complete.
abbrev pub Advances : Parsed → Type 0
Advances (consumed k s) = (1 ≤ k) ⊎ (s.msg_in.parse_state ≡ complete)
Advances (failed e s) = Unit
Advances overrun = Unit

ctrlpack-Advances :
    (s : Session) (b : ℕ) (buf : List ℕ) → Advances (parse_fixed_ctrlpack s (b ∷ buf))
unfolding parse_fixed_ctrlpack
ctrlpack-Advances s b buf =
    elim (Bool-cases (bit_and b 0xF0 == 0x10 && not (is_connecting s.state))) [
      | inl e ↦ rw e tt
      | inr e ↦
          elim (Bool-cases (not (flags_ok (asserted_flag (bit_and b 0xF0)) (bit_and b 0x0F)))) [
            | inl f ↦ rw (e, f) tt
            | inr f ↦ rw (e, f) (inl (omega arith))
          ]
    ]

varhdr_init-Advances : (p : Platform) (k : ℕ) (s : Session) → Advances (varhdr_init p (k + 1) s)
varhdr_init-Advances p k s = elim (Bool-cases (p.alloc s.msg_in.msg_len)) [
  | inl e ↦ rw e (inl (omega arith))
  | inr e ↦ rw e tt
]

fixed_len-Advances :
    (p : Platform) (k : ℕ) (s : Session) (buf : List ℕ) → Advances (fixed_len_loop p k s buf)
unfolding fixed_len_loop
fixed_len-Advances p k s [] = elim (Bool-cases (ltb 0x200000 s.msg_in.msg_remain)) [
  | inl e ↦ rw e tt
  | inr e ↦ rw e tt
]
fixed_len-Advances p k s (b ∷ buf) = elim (Bool-cases (ltb 0x200000 s.msg_in.msg_remain)) [
  | inl e ↦ rw e tt
  | inr e ↦ elim (Bool-cases (bit_and b 0x80 == 0)) [
    | inl f ↦ rw (e, f) (varhdr_init-Advances p k (add_length b s))
    | inr f ↦ rw (e, f) (fixed_len-Advances p (k + 1) (add_length b s) buf)
  ]
]

payload_done-Advances : (k : ℕ) (s : Session) (r : Reading Session) → Advances (payload_done k s r)
payload_done-Advances k s (got t rest) = inr refl
payload_done-Advances k s (refused e rest) = tt
payload_done-Advances k s outside = tt

varhdr_done-Advances :
    (p : Platform) (k : ℕ) (s : Session) (block : List ℕ) (r : Reading Session)
    → Advances (varhdr_done p k s block r)
varhdr_done-Advances p k s block (got t rest) = payload_done-Advances k _ (parse_payload p _ rest)
varhdr_done-Advances p k s block (refused e rest) = tt
varhdr_done-Advances p k s block outside = tt

payload-Advances :
    (p : Platform) (s : Session) (b : ℕ) (buf : List ℕ)
    → Advances (parse_varhdr_payload p s (b ∷ buf))
unfolding parse_varhdr_payload
payload-Advances p s b buf =
    let copy : ℕ = min (suc (length buf)) s.msg_in.msg_remain in
    let block : List ℕ = take s.msg_in.payload (block_of s.msg_in) ++ take copy (b ∷ buf) in
    let s1 : Session = record s {
      msg_in = record s.msg_in {
        var_hdr = some block;
        payload = s.msg_in.payload + copy;
        msg_remain = s.msg_in.msg_remain - copy;
      };
    } in
    elim (Bool-cases (s.msg_in.msg_remain - copy == 0)) [
      | inl e ↦ rw e (varhdr_done-Advances p copy s1 block (parse_varhdr p s1 block))
      | inr e ↦ rw e (inl (ground arith))
    ]

advances :
    (p : Platform) (st : ParseState) (s : Session) (b : ℕ) (buf : List ℕ)
    → st ≢ complete
    → Advances (parse_function p s (b ∷ buf) st)
unfolding parsed_fixed_len
advances p fixed_ctrlpack s b buf ne = ctrlpack-Advances s b buf
advances p fixed_length s b buf ne = fixed_len-Advances p 0 s (b ∷ buf)
advances p varhdr_payload s b buf ne = payload-Advances p s b buf
advances p complete s b buf ne = absurd (ne refl)

message_complete-IsOver : (n : ℕ) (s : Session) → IsOver (message_complete n s)
unfolding message_complete
message_complete-IsOver n s = elim (Bool-cases (s.msg_in.msg_type == 0x10)) [
  | inl e ↦ rw e (reset_over (session_send _ 0x20 0 (0x00 ∷ 0x00 ∷ [])))
  | inr e ↦ rw e tt
]
  where
    reset_over : (o : Option Session) → IsOver (reset_after n o)
    reset_over none = tt
    reset_over (some t) = tt

loop_left-IsOver : (n : ℕ) (st : ParseState) (s : Session) → IsOver (loop_left n st s)
loop_left-IsOver n complete s = message_complete-IsOver n s
loop_left-IsOver n fixed_ctrlpack s = tt
loop_left-IsOver n fixed_length s = tt
loop_left-IsOver n varhdr_payload s = tt

abbrev step_of : ParseState → ℕ
step_of fixed_ctrlpack = 0
step_of fixed_length = 1
step_of varhdr_payload = 2
step_of complete = 3

module _ (p : Platform) where
  while_len-IsOver :
      (more : Session → List ℕ → Result) (n : ℕ) (s : Session) (buf : List ℕ)
      → (1 ≤ length buf → IsOver (more s buf))
      → IsOver (while_len more n s buf)
  while_len-IsOver more n s [] h = loop_left-IsOver n s.msg_in.parse_state s
  while_len-IsOver more n s (b ∷ buf) h = h (omega arith)

  -- Rounds for the bytes and for the one that finds the message complete.
  abbrev OverIn : ℕ → Type 0
  OverIn rounds =
      (n : ℕ) (s : Session) (buf : List ℕ)
      → (length buf < rounds) ⊎ ((s.msg_in.parse_state ≡ complete) × (1 ≤ rounds))
      → 1 ≤ length buf
      → IsOver (read_loop p rounds n s buf)

  step-IsOver :
      (rounds n : ℕ) (buf : List ℕ) (r : Parsed)
      → OverIn rounds
      → length buf ≤ rounds
      → 1 ≤ rounds
      → Advances r
      → IsOver (parse_step (read_loop p rounds) n buf r)
  step-IsOver rounds n buf (failed e s) ih h some_rounds adv = tt
  step-IsOver rounds n buf overrun ih h some_rounds adv = tt
  step-IsOver rounds n buf (consumed k s) ih h some_rounds (inl taken) =
      while_len-IsOver (read_loop p rounds (n + k)) (n + k) s (drop k buf)
        (λ left. ih (n + k) s (drop k buf) (inl (omega (arith, length-drop k buf))) left)
  step-IsOver rounds n buf (consumed k s) ih h some_rounds (inr done) =
      while_len-IsOver (read_loop p rounds (n + k)) (n + k) s (drop k buf)
        (λ left. ih (n + k) s (drop k buf) (inr (done, some_rounds)) left)

  parse-IsOver :
      (st : ParseState) (rounds n : ℕ) (s : Session) (buf : List ℕ)
      → st ≢ complete
      → OverIn rounds
      → (length buf ≤ rounds) ⊎ (st ≡ complete)
      → 1 ≤ length buf
      → IsOver (parse_step (read_loop p rounds) n buf (parse_function p s buf st))
  parse-IsOver st rounds n s buf ne ih (inr e) some_bytes = absurd (ne e)
  parse-IsOver st rounds n s [] ne ih (inl h) some_bytes = absurd (omega arith)
  parse-IsOver st rounds n s (b ∷ buf) ne ih (inl h) some_bytes =
      step-IsOver rounds n (b ∷ buf) (parse_function p s (b ∷ buf) st) ih h (omega arith)
        (advances p st s b buf ne)

  switch-IsOver :
      (st : ParseState) (rounds n : ℕ) (s : Session) (buf : List ℕ)
      → OverIn rounds
      → (length buf ≤ rounds) ⊎ (st ≡ complete)
      → 1 ≤ length buf
      → IsOver (read_switch (parse_function p) (read_loop p rounds) st n s buf)
  switch-IsOver complete rounds n s buf ih h some_bytes = message_complete-IsOver n s
  switch-IsOver fixed_ctrlpack rounds n s buf ih h some_bytes =
      parse-IsOver fixed_ctrlpack rounds n s buf (λ e. absurd (omega (arith, ap step_of e))) ih h
        some_bytes
  switch-IsOver fixed_length rounds n s buf ih h some_bytes =
      parse-IsOver fixed_length rounds n s buf (λ e. absurd (omega (arith, ap step_of e))) ih h
        some_bytes
  switch-IsOver varhdr_payload rounds n s buf ih h some_bytes =
      parse-IsOver varhdr_payload rounds n s buf (λ e. absurd (omega (arith, ap step_of e))) ih h
        some_bytes

  loop-IsOver : (rounds : ℕ) → OverIn rounds
  unfolding read_loop
  loop-IsOver zero n s buf (inl h) some_bytes = absurd (omega arith)
  loop-IsOver zero n s buf (inr h) some_bytes = absurd (omega arith)
  loop-IsOver (suc rounds) n s buf (inl h) some_bytes =
      switch-IsOver s.msg_in.parse_state rounds n s buf (loop-IsOver rounds) (inl (omega arith))
        some_bytes
  loop-IsOver (suc rounds) n s buf (inr (e, h)) some_bytes =
      switch-IsOver s.msg_in.parse_state rounds n s buf (loop-IsOver rounds) (inr e) some_bytes

  proto_read-IsOver : (s : Session) (buf : List ℕ) → 1 ≤ length buf → IsOver (proto_read p s buf)
  unfolding proto_read
  proto_read-IsOver s buf h = loop-IsOver (length buf + 2) 0 s buf (inl (omega arith)) h

  -- For any session and any buffer with at least one byte, where no access goes outside of a buffer
  -- or of a block: the loop comes to an end, and the function returns a number of bytes or an error.
  pub proto_read-Returns :
      (s : Session) (buf : List ℕ)
      → 1 ≤ length buf
      → proto_read p s buf ≢ stray
      → Returns (proto_read p s buf)
  proto_read-Returns s buf h inside =
      over_inside (proto_read p s buf) (proto_read-IsOver s buf h) inside
