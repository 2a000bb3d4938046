-- ===== src/Ws/Client/Length.antt =====
-- The length that a client's header carries is the length that the parser reads.
use libyimmo.Base.{
  ℕ, ◌+◌, ◌*◌, ◌/◌, ◌%◌, ◌^◌, ◌≤◌, ◌<◌, ◌≡◌, inl, inr, refl, ap, ◌∙◌, max, bit_and, true, false,
  Option, some, List, [], ◌∷◌, ◌++◌, length, leb, ltb, Bool-cases, Option-cases, okay, arith,
}
use mathlib.Core.Path.{subst}
use libyimmo.Base.Bits.{bytes_agree, bit_and_power}
use libyimmo.Ws.Session.{
  Platform, IsSized, len, len_extended, masking_key, Frame, Session, alloc_frame, frame_min,
}
use libyimmo.Ws.Header.{consumed, with_frame, parse_len, ext_loop, ext_done, parse_len_ext}
use libyimmo.Ws.Parse.{block_of}
use libyimmo.Ws.Client.{HasMemory, fresh_frame}

-- A frame with room for `n` bytes.
pub record Room (p : Platform) (f : Frame) (n : ℕ) : Type 0 where
  pub block : List ℕ
  pub size : ℕ
  pub got : alloc_frame p f n ≡ (okay, record f { buffer = some block; buf_len = size })
  pub fits : n ≤ size
  pub within : size ≤ length block

pub alloc_frame-Room :
    (p : Platform) (f : Frame) (n : ℕ)
    → IsSized p
    → HasMemory p
    → n ≤ p.frame_max
    → f.buf_len ≤ length (block_of f)
    → Room p f n
unfolding alloc_frame
alloc_frame-Room p f n sized memory small block =
    let (fresh, got) = memory n small in
    let allowed : ltb p.frame_max n ≡ false = ground arith in
    elim (Option-cases f.buffer) [
      | inl null ↦ record {
        block = fresh;
        size = max frame_min n;
        got = ground (arith, allowed, null, got);
        fits = omega arith;
        within = omega (arith, sized _ fresh got);
      }
      | inr (old, there) ↦ elim (Bool-cases (leb n f.buf_len)) [
        | inl enough ↦ record {
          block = old;
          size = f.buf_len;
          got = ground (arith, allowed, there, enough);
          fits = ground arith;
          within = subst (λ o. f.buf_len ≤ length (block_of (record f { buffer = o }))) there block;
        }
        | inr short ↦ record {
          block = fresh;
          size = max frame_min n;
          got = ground (arith, allowed, there, short, got);
          fits = omega arith;
          within = omega (arith, sized _ fresh got);
        }
      ]
    ]

-- The frame behind its first byte, and the one that waits for its key.
abbrev pub opened_frame : ℕ → Option (List ℕ) → ℕ → Frame
opened_frame flag buffer size = record (fresh_frame buffer size) { flags = flag; parse_state = len }

abbrev pub keyed_frame : ℕ → ℕ → List ℕ → ℕ → Frame
keyed_frame flag n block size = record (fresh_frame (some block) size) {
  flags = flag;
  len = n;
  masked = 128;
  parse_state = masking_key;
}

ext_loop_done : (f : Frame) (n : ℕ) (bs : List ℕ) → f.idx ≡ 0 → ext_loop f n bs ≡ (n, f)
unfolding ext_loop
ext_loop_done f n [] e = refl
ext_loop_done f n (b ∷ bs) e = ground arith

-- Horner's sum of the eight bytes, one byte at a time.
abbrev plus_byte : ℕ → ℕ → ℕ → ℕ
plus_byte sum b k = (sum + b * 2 ^ (8 * k) % 2 ^ 64) % 2 ^ 64

-- The eight bytes of a 64-bit number, highest first.
abbrev pub big_endian_8 : ℕ → List ℕ
big_endian_8 n =
    n / 72057594037927936
    ∷ n / 281474976710656 % 256
    ∷ n / 1099511627776 % 256
    ∷ n / 4294967296 % 256
    ∷ n / 16777216 % 256
    ∷ n / 65536 % 256
    ∷ n / 256 % 256
    ∷ n % 256
    ∷ []

module _ (p : Platform) (s : Session) (flag n : ℕ) (buffer : Option (List ℕ)) (buf_len : ℕ) where
  -- The frames that the buffer is allocated for.
  abbrev pub short_frame : Frame
  short_frame = record (opened_frame flag buffer buf_len) {
    len = n;
    masked = 128;
    parse_state = masking_key;
  }

  abbrev pub long_frame : Frame
  long_frame = record (opened_frame flag buffer buf_len) {
    len = n;
    masked = 128;
    parse_state = len_extended;
  }

  abbrev pub counted_frame : ℕ → Frame
  counted_frame k = record (opened_frame flag buffer buf_len) {
    masked = 128;
    parse_state = len_extended;
    idx = k;
  }

  pub parse_len_short :
      n ≤ 125
      → (r : Room p short_frame n)
      → parse_len p (with_frame s (opened_frame flag buffer buf_len)) (n + 128)
        ≡ consumed 1 (with_frame s (keyed_frame flag n r.block r.size))
  unfolding parse_len
  parse_len_short small r =
      let top = bytes_agree (λ x. bit_and (x + 128) 0x80) (λ x. 128) 128 n (omega arith) refl in
      let low = bytes_agree (λ x. bit_and (x + 128) 0x7F) (λ x. x) 128 n (omega arith) refl in
      let le : leb n 125 ≡ true = ground arith in rw (top, low, le, r.got)

  pub parse_len_126 :
      bit_and flag 0x08 ≡ 0
      → parse_len p (with_frame s (opened_frame flag buffer buf_len)) 254
        ≡ consumed 1 (with_frame s (counted_frame 2))
  unfolding parse_len
  parse_len_126 message = rw message

  pub parse_len_127 :
      bit_and flag 0x08 ≡ 0
      → parse_len p (with_frame s (opened_frame flag buffer buf_len)) 255
        ≡ consumed 1 (with_frame s (counted_frame 8))
  unfolding parse_len
  parse_len_127 message = rw message

  counted :
      (k : ℕ) (g : Frame)
      → n < 2 ^ 63
      → (r : Room p long_frame n)
      → ext_done p (with_frame s g) (k, long_frame)
        ≡ consumed k (with_frame s (keyed_frame flag n r.block r.size))
  unfolding ext_done
  counted k g small r = let clear = bit_and_power 63 n small in rw (clear, r.got)

  ext_loop_2 :
      (tail : List ℕ)
      → n < 2 ^ 16
      → ext_loop (counted_frame 2) 0 (n / 256 ∷ n % 256 ∷ tail) ≡ (2, long_frame)
  unfolding ext_loop
  ext_loop_2 tail small =
      let sum : ((0 + n / 256 * 256 % 2 ^ 64) % 2 ^ 64 + n % 256 * 1 % 2 ^ 64) % 2 ^ 64 ≡ n =
        omega arith in
      ap (λ x. ext_loop (record long_frame { len = x }) 2 tail) sum
      ∙ ext_loop_done long_frame 2 tail refl

  pub parse_len_ext_2 :
      (tail : List ℕ)
      → n < 2 ^ 16
      → (r : Room p long_frame n)
      → parse_len_ext p (with_frame s (counted_frame 2)) (n / 256 ∷ n % 256 ∷ tail)
        ≡ consumed 2 (with_frame s (keyed_frame flag n r.block r.size))
  unfolding parse_len_ext
  parse_len_ext_2 tail small r =
      ap (ext_done p (with_frame s (counted_frame 2))) (ext_loop_2 tail small)
      ∙ counted 2 (counted_frame 2) (omega arith) r

  ext_loop_8 :
      (tail : List ℕ)
      → n < 2 ^ 63
      → ext_loop (counted_frame 8) 0 (big_endian_8 n ++ tail) ≡ (8, long_frame)
  unfolding ext_loop
  ext_loop_8 tail small =
      let e0 : plus_byte (0) (n / 72057594037927936) 7 ≡ n / 72057594037927936 * 72057594037927936 =
        omega arith in
      let e1 : plus_byte (n / 72057594037927936 * 72057594037927936) (n / 281474976710656 % 256) 6
          ≡ n / 281474976710656 * 281474976710656 =
        omega arith in
      let e2 : plus_byte (n / 281474976710656 * 281474976710656) (n / 1099511627776 % 256) 5
          ≡ n / 1099511627776 * 1099511627776 =
        omega arith in
      let e3 : plus_byte (n / 1099511627776 * 1099511627776) (n / 4294967296 % 256) 4
          ≡ n / 4294967296 * 4294967296 =
        omega arith in
      let e4 : plus_byte (n / 4294967296 * 4294967296) (n / 16777216 % 256) 3
          ≡ n / 16777216 * 16777216 =
        omega arith in
      let e5 : plus_byte (n / 16777216 * 16777216) (n / 65536 % 256) 2 ≡ n / 65536 * 65536 =
        omega arith in
      let e6 : plus_byte (n / 65536 * 65536) (n / 256 % 256) 1 ≡ n / 256 * 256 = omega arith in
      let e7 : plus_byte (n / 256 * 256) (n % 256) 0 ≡ n = omega arith in
      ap (λ x. ext_loop (record long_frame { len = x }) 8 tail)
        (ap (λ x. plus_byte x (n % 256) 0)
            (ap (λ x. plus_byte x (n / 256 % 256) 1)
                (ap (λ x. plus_byte x (n / 65536 % 256) 2)
                    (ap (λ x. plus_byte x (n / 16777216 % 256) 3)
                        (ap (λ x. plus_byte x (n / 4294967296 % 256) 4)
                            (ap (λ x. plus_byte x (n / 1099511627776 % 256) 5)
                                (ap (λ x. plus_byte x (n / 281474976710656 % 256) 6) (e0) ∙ e1)
                              ∙ e2)
                          ∙ e3)
                      ∙ e4)
                  ∙ e5)
              ∙ e6)
          ∙ e7)
      ∙ ext_loop_done long_frame 8 tail refl

  pub parse_len_ext_8 :
      (tail : List ℕ)
      → n < 2 ^ 63
      → (r : Room p long_frame n)
      → parse_len_ext p (with_frame s (counted_frame 8)) (big_endian_8 n ++ tail)
        ≡ consumed 8 (with_frame s (keyed_frame flag n r.block r.size))
  unfolding parse_len_ext
  parse_len_ext_8 tail small r =
      ap (ext_done p (with_frame s (counted_frame 8))) (ext_loop_8 tail small)
      ∙ counted 8 (counted_frame 8) small r
