-- ===== src/Ws/Client/RoundTrip.antt =====
-- A client's frame, parsed: the loop delivers the message that the client has sent.
use libyimmo.Base.{
  ℕ, suc, ◌+◌, ◌/◌, ◌%◌, ◌^◌, ◌≤◌, ◌<◌, ◌≡◌, refl, sym, ap, ◌∙◌, true, false, List, [], ◌∷◌, ◌++◌,
  length, drop, drop-append, leb, All, IsByte, arith,
}
use libyimmo.Base.Bits.{bit_and_255}
use libyimmo.Ws.Session.{Platform, Session, complete, gen_ws_msg_hdr, byte_at}
use libyimmo.Ws.Unmask.Cycle.{cycle, length-cycle}
use libyimmo.Ws.Header.{consumed, with_frame}
use libyimmo.Ws.Parse.{is_complete, parse_step, Outcome, stopped, parse_loop}
use libyimmo.Ws.Parse.Safety.{after_step, round}
use libyimmo.Ws.Client.Length.{big_endian_8}
use libyimmo.Ws.Client.Payload.{ready_frame, delivered, IsWhole, parse_payload-delivered}

pub loop_step :
    (fuel : ℕ) (p : Platform) (addr : ℕ) (s : Session) (b : ℕ) (bs : List ℕ) (n : ℕ) (s' : Session)
    → is_complete s.frame_in.parse_state ≡ false
    → parse_step p addr s s.frame_in.parse_state b bs ≡ consumed n s'
    → parse_loop (suc fuel) p addr s (b ∷ bs) ≡ parse_loop fuel p (addr + n) s' (drop n (b ∷ bs))
unfolding parse_loop
loop_step fuel p addr s b bs n s' more e =
    ap (round fuel p addr s b bs) more ∙ ap (after_step fuel p addr (b ∷ bs)) e

-- The client's header, byte by byte.
pub gen_ws_msg_hdr-short : (flag n : ℕ) → n ≤ 125 → gen_ws_msg_hdr flag n ≡ flag ∷ n ∷ []
unfolding gen_ws_msg_hdr
gen_ws_msg_hdr-short flag n h = let e : leb n 125 ≡ true = ground arith in rw e

pub gen_ws_msg_hdr-medium :
    (flag n : ℕ)
    → 125 < n
    → n < 2 ^ 16
    → gen_ws_msg_hdr flag n ≡ flag ∷ 126 ∷ n / 256 ∷ n % 256 ∷ []
unfolding gen_ws_msg_hdr
gen_ws_msg_hdr-medium flag n h k =
    let e : leb n 125 ≡ false = ground arith in
    let e2 : leb n 0xFFFF ≡ true = ground arith in
    let b0 : byte_at n 0 ≡ n % 256 = omega (arith, bit_and_255 (n / 2 ^ 0)) in
    let b1 : byte_at n 8 ≡ n / 256 = omega (arith, bit_and_255 (n / 2 ^ 8)) in rw (e, e2, b0, b1)

pub gen_ws_msg_hdr-long :
    (flag n : ℕ) → 2 ^ 16 ≤ n → n < 2 ^ 63 → gen_ws_msg_hdr flag n ≡ flag ∷ 127 ∷ big_endian_8 n
unfolding gen_ws_msg_hdr
gen_ws_msg_hdr-long flag n h k =
    let e : leb n 125 ≡ false = ground arith in
    let e2 : leb n 0xFFFF ≡ false = ground arith in
    let b0 : byte_at n 0 ≡ n % 256 = omega (arith, bit_and_255 (n / 2 ^ 0)) in
    let b7 : byte_at n 56 ≡ n / 2 ^ 56 = omega (arith, bit_and_255 (n / 2 ^ 56)) in
    rw (
      e,
      e2,
      b0,
      bit_and_255 (n / 2 ^ 8),
      bit_and_255 (n / 2 ^ 16),
      bit_and_255 (n / 2 ^ 24),
      bit_and_255 (n / 2 ^ 32),
      bit_and_255 (n / 2 ^ 40),
      bit_and_255 (n / 2 ^ 48),
      b7,
    )

complete_stops :
    (fuel : ℕ) (p : Platform) (addr : ℕ) (s : Session) (bs : List ℕ)
    → is_complete s.frame_in.parse_state ≡ true
    → parse_loop (suc fuel) p addr s bs ≡ stopped s bs
unfolding parse_loop
complete_stops fuel p addr s [] h = refl
complete_stops fuel p addr s (b ∷ bs) h = ap (round fuel p addr s b bs) h

-- The loop has stopped behind the frame, with the message in a new bucket.
abbrev pub Delivers : Session → ℕ → List ℕ → List ℕ → Outcome → Type 0
Delivers s flag message rest o =
    (s' : Session) × (o ≡ stopped s' rest)
    × (s'.recv ≡ s.recv ++ (message ∷ []))
    × (s'.msg_type ≡ 0)
    × (s'.frame_in.flags ≡ flag)
    × (s'.frame_in.parse_state ≡ complete)

pub payload_loop :
    (fuel : ℕ) (p : Platform) (addr : ℕ) (s : Session) (flag : ℕ) (key block : List ℕ) (size : ℕ)
    (message rest : List ℕ)
    → IsWhole s flag message
    → All IsByte key
    → All IsByte message
    → All IsByte rest
    → length message < 2 ^ 63
    → addr + length message + 4 < 2 ^ 64
    → Delivers s flag message rest (
        parse_loop
          (suc (suc fuel))
          p
          addr
          (with_frame s (ready_frame flag (length message) block size key))
          (cycle key 0 message ++ rest))
unfolding parse_step
payload_loop fuel p addr s flag key block size [] rest whole hk hm hr small fits =
    absurd (omega (arith, whole.1))
payload_loop fuel p addr s flag key block size (m ∷ ms) rest whole hk hm hr small fits =
    let message = m ∷ ms in
    let (i, u, read) =
      parse_payload-delivered s flag key block size message addr rest whole hk hm hr small fits in
    let s' = delivered s flag key block size message i u in
    (
      s',
      loop_step (suc fuel) p addr (with_frame s (ready_frame flag (length message) block size key))
            _ _ (length message) s' refl read
          ∙ complete_stops fuel p (addr + length message) s' _ refl
          ∙ ap (stopped s') (
              drop-append (cycle key 0 message) rest (length message)
                (sym (length-cycle key 0 message))),
      refl,
      refl,
      refl,
      refl,
    )
