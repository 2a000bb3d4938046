-- ===== src/Ws/Client/Payload.antt =====
-- Masking twice, and the payload and masking key of a client's frame as the parser takes them.
use libyimmo.Base.{
  ℕ, zero, suc, ◌+◌, ◌%◌, ◌^◌, ◌≤◌, ◌<◌, ◌≡◌, ◌⊎◌, inl, inr, refl, sym, ap, ap₂, ◌∙◌, min, true,
  false, some, List, [], ◌∷◌, ◌++◌, length, drop, take-append, length-append, get_or, ◌==◌, All,
  All-append, okay, IsByte, arith,
}
use libyimmo.Base.Bits.{bit_xor_twice, bit_xor-lt}
use libyimmo.Util.Utf8.{Utf8State, check_utf8}
use libyimmo.Ws.Session.{payload, complete, Frame, Session, op_code, fin}
use libyimmo.Ws.Unmask.{key_byte, sub_size, unmask_payload}
use libyimmo.Ws.Unmask.Cycle.{cycle, length-cycle, cycle_mod}
use libyimmo.Ws.Unmask.Payload.{unmask_payload-cycle}
use libyimmo.Ws.Header.{Parsed, consumed, with_frame, parse_masking_key, key_loop, key_complete}
use libyimmo.Ws.Parse.{write_at, frame_done, check_text, payload_end, parse_payload, unmask_frame}
use libyimmo.Ws.Client.Length.{keyed_frame}

cycle_twice : (key : List ℕ) (m : ℕ) (bs : List ℕ) → cycle key m (cycle key m bs) ≡ bs
cycle_twice key m [] = refl
cycle_twice key m (b ∷ bs) = ap₂ ◌∷◌ (bit_xor_twice b (key_byte key m)) (cycle_twice key (m + 1) bs)

get_or-IsByte : (key : List ℕ) (i : ℕ) → All IsByte key → IsByte (get_or key i 0)
get_or-IsByte [] i h = omega arith
get_or-IsByte (b ∷ key) zero h = h.0
get_or-IsByte (b ∷ key) (suc i) h = get_or-IsByte key i h.1

cycle-IsByte :
    (key : List ℕ) (m : ℕ) (bs : List ℕ)
    → All IsByte key
    → All IsByte bs
    → All IsByte (cycle key m bs)
cycle-IsByte key m [] hk h = tt
cycle-IsByte key m (b ∷ bs) hk h = (
  bit_xor-lt 8 b (key_byte key m) h.0 (get_or-IsByte key (m % 4) hk),
  cycle-IsByte key (m + 1) bs hk h.1,
)

abbrev pub ready_frame : ℕ → ℕ → List ℕ → ℕ → List ℕ → Frame
ready_frame flag n block size key = record (keyed_frame flag n block size) {
  masking_key = key;
  parse_state = payload;
  idx = 4;
}

pub parse_masking_key-consumed :
    (s : Session) (flag n : ℕ) (block : List ℕ) (size : ℕ) (k0 k1 k2 k3 : ℕ) (tail : List ℕ)
    → 1 ≤ n
    → parse_masking_key (with_frame s (keyed_frame flag n block size)) (k0 ∷ k1 ∷ k2 ∷ k3 ∷ tail)
      ≡ consumed 4 (with_frame s (ready_frame flag n block size (k0 ∷ k1 ∷ k2 ∷ k3 ∷ [])))
unfolding parse_masking_key key_loop key_complete
parse_masking_key-consumed s flag n block size k0 k1 k2 k3 tail some_bytes =
    let e : (n == 0) ≡ false = ground arith in rw e

-- A whole message outside of any fragmented one, its text, where it is text, accepted.
abbrev pub IsWhole : Session → ℕ → List ℕ → Type 0
IsWhole s flag message =
    (s.msg_type ≡ 0)
    × (1 ≤ length message)
    × (fin flag ≡ true)
    × (op_code flag ≡ 1 ⊎ op_code flag ≡ 2 ⊎ op_code flag ≡ 8 ⊎ op_code flag ≡ 9)
    × (op_code flag ≡ 1 → (u : Utf8State) × (check_utf8 s.utf8_state message true ≡ (okay, u)))

-- The frame once its whole payload is in the buffer.
abbrev pub filled_frame : ℕ → List ℕ → List ℕ → ℕ → List ℕ → ℕ → Frame
filled_frame flag message block size key i =
    record (ready_frame flag (length message) block size key) {
      buffer = some (write_at block 0 message);
      idx = i;
      parsed = length message;
    }

module _ (s : Session) (flag : ℕ) (key : List ℕ) (block : List ℕ) (size : ℕ)
    (message : List ℕ) where
  unmask_frame-message :
      (addr : ℕ) (rest : List ℕ)
      → (op_code flag == 0xA) ≡ false
      → All IsByte key
      → All IsByte message
      → All IsByte rest
      → addr + length message + 4 < 2 ^ 64
      → (i : ℕ) × (record (unmask_frame
            (ready_frame flag (length message) block size key)
            addr
            (cycle key 0 message ++ rest)
            (length message)) { parsed = length message }
          ≡ filled_frame flag message block size key i)
  unfolding unmask_frame
  unmask_frame-message addr rest other hk hm hr fits =
      let buffer = cycle key 0 message ++ rest in
      let c = unmask_payload key 4 addr buffer (length message) in
      let whole =
        unmask_payload-cycle key 4 addr (length message) buffer hk
          (All-append IsByte (cycle key 0 message) rest (cycle-IsByte key 0 message hk hm) hr)
          (omega (arith, length-append (cycle key 0 message) rest, length-cycle key 0 message))
          fits in
      let out : c.output ≡ message =
        whole.0
        ∙ ap (cycle key 4) (
            take-append (cycle key 0 message) rest (length message)
              (sym (length-cycle key 0 message)))
        ∙ cycle_mod key (cycle key 0 message) 4 0 refl
        ∙ cycle_twice key 0 message in
      (c.mask_mod, rw (other, out))

  -- What the last payload byte leads to: the session with the payload in a new bucket.
  abbrev pub delivered : ℕ → Utf8State → Session
  delivered i u = record s {
    frame_in = record (filled_frame flag message block size key i) { parse_state = complete };
    recv = s.recv ++ (message ∷ []);
    msg_type = 0;
    utf8_state = u;
  }

  -- The session between the text check and the end of the frame.
  abbrev checked : ℕ → Utf8State → Session
  checked i u = record (with_frame s (filled_frame flag message block size key i)) {
    utf8_state = u;
  }

  check_text-checked :
      (i : ℕ)
      → IsWhole s flag message
      → (u : Utf8State) × (check_text
            (with_frame s (filled_frame flag message block size key i))
            0
            (length message)
          ≡ (okay, checked i u))
  unfolding check_text
  check_text-checked i (outside, some_bytes, last, kind, text) =
      let nonempty : (length message == 0) ≡ false = ground arith in
      let full : (length message == length message) ≡ true = ground arith in
      let cut = take-append message (drop (0 + length message) block) (length message) refl in
      elim kind [
        | inl e ↦ (let (u, ok) = text e in (u, rw (e, outside, nonempty, full, last, cut, ok)))
        | inr (inl e) ↦ (s.utf8_state, rw (e, outside))
        | inr (inr (inl e)) ↦ (s.utf8_state, rw (e, outside))
        | inr (inr (inr e)) ↦ (s.utf8_state, rw (e, outside))
      ]

  payload_end-delivered :
      (i : ℕ) (u : Utf8State)
      → IsWhole s flag message
      → payload_end (length message) (okay, checked i u) ≡ consumed (length message) (delivered i u)
  unfolding payload_end frame_done
  payload_end-delivered i u (outside, some_bytes, last, kind, text) =
      let full : (length message == length message) ≡ true = ground arith in
      let cut = take-append message (drop (0 + length message) block) (length message) refl in
      elim kind [
        | inl e ↦ rw (e, outside, full, last, cut)
        | inr (inl e) ↦ rw (e, outside, full, last, cut)
        | inr (inr (inl e)) ↦ rw (e, outside, full, cut)
        | inr (inr (inr e)) ↦ rw (e, outside, full, cut)
      ]

  pub parse_payload-delivered :
      (addr : ℕ) (rest : List ℕ)
      → IsWhole s flag message
      → All IsByte key
      → All IsByte message
      → All IsByte rest
      → length message < 2 ^ 63
      → addr + length message + 4 < 2 ^ 64
      → (i : ℕ) × (u : Utf8State) × (parse_payload addr
            (with_frame s (ready_frame flag (length message) block size key))
            (cycle key 0 message ++ rest)
          ≡ consumed (length message) (delivered i u))
  unfolding parse_payload
  parse_payload-delivered addr rest whole hk hm hr small fits =
      let other : (op_code flag == 0xA) ≡ false = ground (arith, whole.3) in
      let (i, unmasked) = unmask_frame-message addr rest other hk hm hr fits in
      let (u, text) = check_text-checked i whole in
      let n : min (length (cycle key 0 message ++ rest)) (sub_size (length message) 0)
          ≡ length message =
        omega (arith, length-append (cycle key 0 message) rest, length-cycle key 0 message) in
      let f = ready_frame flag (length message) block size key in
      let none_before : 0 + length message ≡ length message = omega arith in
      let step : ℕ → Frame → Parsed = λ k g. payload_end k (check_text (with_frame s g) 0 k) in
      (
        i,
        u,
        ap
              (λ k.
                step k
                  (record (unmask_frame f addr (cycle key 0 message ++ rest) k) { parsed = 0 + k }))
              n
            ∙ ap
                (λ k.
                  step (length message)
                    (record (unmask_frame f addr (cycle key 0 message ++ rest) (length message)) {
                      parsed = k;
                    }))
                none_before
            ∙ ap (step (length message)) unmasked
            ∙ ap (payload_end (length message)) text
            ∙ payload_end-delivered i u whole,
      )
