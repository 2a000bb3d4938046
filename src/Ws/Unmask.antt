-- ===== src/Ws/Unmask.antt =====
-- `get_mask32` and `unmask_payload` of src/protocol/ws/ymo_ws_parse.c: single bytes up to the next
-- 32-bit boundary of the read pointer, whole words, then single bytes again.
pub mod Cycle
pub mod Payload
pub use libyimmo.Base.{sub_size}
use libyimmo.Base.{
  ℕ, zero, suc, ◌+◌, ◌-◌, ◌*◌, ◌/◌, ◌%◌, ◌^◌, min, bit_xor, Bool, true, false, ◌&&◌, not, List, [],
  ◌∷◌, ◌++◌, get_or, ltb, ◌==◌, if◌then◌else◌,
}

-- The variables of the function: the read pointer as an address, the buffer from there on, the
-- bytes written so far, `mask_mod` and `parse_remain`.
pub record Cursor : Type 0 where
  pub c_in : ℕ
  pub input : List ℕ
  pub output : List ℕ
  pub mask_mod : ℕ
  pub parse_remain : ℕ

-- `session->frame_in.mask_mod++ % 4`
abbrev pub key_byte : List ℕ → ℕ → ℕ
key_byte key m = get_or key (m % 4) 0

abbrev pub next_mod : ℕ → ℕ
next_mod m = (m + 1) % 256

-- YMO_PTR32_FLOOR and YMO_PTR32_CEIL on addresses
abbrev pub ptr32_floor : ℕ → ℕ
ptr32_floor a = a / 4 * 4

abbrev pub ptr32_ceil : ℕ → ℕ
ptr32_ceil a = (a + 3) / 4 * 4

-- A word as the processor loads and stores it, lowest byte first.
abbrev pub word : ℕ → ℕ → ℕ → ℕ → ℕ
word b0 b1 b2 b3 = ((b3 * 2 ^ 8 + b2) * 2 ^ 8 + b1) * 2 ^ 8 + b0

abbrev pub word_bytes : ℕ → List ℕ
word_bytes w = w % 256 ∷ w / 256 % 256 ∷ w / 65536 % 256 ∷ w / 16777216 % 256 ∷ []

pub get_mask32 : List ℕ → ℕ → ℕ
get_mask32 key m =
    word (key_byte key m) (key_byte key (next_mod m)) (key_byte key (next_mod (next_mod m)))
      (key_byte key (next_mod (next_mod (next_mod m))))

-- `while( end-- > 0 && parse_remain-- > 0 )`, byte by byte. The second test also counts down
-- when it fails.
pub byte_loop : List ℕ → ℕ → Cursor → Cursor
byte_loop key zero c = c
byte_loop key (suc end) c = elim c.parse_remain [
  | zero ↦ record c { parse_remain = 2 ^ 64 - 1 }
  | suc r ↦ elim c.input [
    | [] ↦ c
    | b ∷ rest ↦ byte_loop key end (record {
      c_in = c.c_in + 1;
      input = rest;
      output = c.output ++ (bit_xor b (key_byte key c.mask_mod) ∷ []);
      mask_mod = next_mod c.mask_mod;
      parse_remain = r;
    })
  ]
]

-- `while( end > 0 && parse_remain > 0 )`, four bytes at a time; the first number bounds the
-- rounds.
pub word_loop : ℕ → ℕ → ℕ → Cursor → Cursor
word_loop zero mask end c = c
word_loop (suc rounds) mask end c =
    let next = λ (b0 b1 b2 b3 : ℕ) (rest : List ℕ).
      word_loop rounds mask (sub_size end 4) (record c {
        c_in = c.c_in + 4;
        input = rest;
        output = c.output ++ word_bytes (bit_xor (word b0 b1 b2 b3) mask);
        parse_remain = sub_size c.parse_remain 4;
      }) in
    if ltb 0 end && ltb 0 c.parse_remain
    then (elim c.input [ b0 ∷ b1 ∷ b2 ∷ b3 ∷ rest ↦ next b0 b1 b2 b3 rest | _ ↦ c ])
    else c

-- `unmask_payload` for a buffer at address `addr`, apart from its test for a pong. The words of
-- `parse_len` bytes are at most `parse_len` many.
unfoldable pub unmask_payload : List ℕ → ℕ → ℕ → List ℕ → ℕ → Cursor
unfolding byte_loop word_loop get_mask32
unmask_payload key m addr buffer parse_len =
    let parse_end = addr + parse_len in
    let before = min parse_len (ptr32_ceil addr - addr) in
    let c1 = byte_loop key before (record {
      c_in = addr;
      input = buffer;
      output = [];
      mask_mod = m;
      parse_remain = parse_len;
    }) in
    let mask = get_mask32 key c1.mask_mod in
    let words = sub_size (ptr32_floor parse_end) c1.c_in in
    let c2 = word_loop parse_len mask words (record c1 { mask_mod = (c1.mask_mod + 4) % 256 }) in
    byte_loop key (sub_size parse_end c2.c_in) c2
