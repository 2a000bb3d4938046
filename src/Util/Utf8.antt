-- ===== src/Util/Utf8.antt =====
-- The streaming UTF-8 validator `ymo_check_utf8` of src/core/ymo_util.c, with its state
-- `ymo_utf8_state_t` of include/ymo_util.h. A buffer is the list of its `len` bytes.
pub mod Grammar
pub mod Bytes
pub mod Simulation
pub mod Language
mod Tests
use libyimmo.Base.{
  ℕ, zero, suc, ◌+◌, ◌-◌, ◌*◌, ◌%◌, ◌^◌, bit_and, bit_or, Bool, true, false, ◌&&◌, ◌||◌, not, List,
  [], ◌∷◌, ltb, leb, ◌==◌, if◌then◌else◌, get_or, Status, okay, eilseq,
}

-- The bit fields of the union; writing 0 to `flags` clears them all.
pub record Utf8State : Type 0 where
  pub point_remain : ℕ
  pub code_width : ℕ
  pub check_surrogate : Bool
  pub check_overlong : Bool
  pub check_max : Bool

abbrev pub reset : Utf8State
reset = record {
  point_remain = 0;
  code_width = 0;
  check_surrogate = false;
  check_overlong = false;
  check_max = false;
}

abbrev c3_min : List ℕ
c3_min = 0x00 ∷ 0x80 ∷ 0xA0 ∷ 0xE0 ∷ []

abbrev c4_min : List ℕ
c4_min = 0x00 ∷ 0x80 ∷ 0x80 ∷ 0x90 ∷ 0xF0 ∷ []

abbrev c4_max : List ℕ
c4_max = 0x00 ∷ 0xBF ∷ 0xBF ∷ 0x8F ∷ 0xF4 ∷ []

-- A `char` promoted to `int`, as its 32-bit pattern.
abbrev pub sign_extend : ℕ → ℕ
sign_extend b = if ltb b 0x80 then b else b + 0xFFFFFF00

abbrev pub quartet : ℕ → ℕ → ℕ → ℕ → ℕ
quartet c p0 p1 p2 =
    bit_or
      (bit_or (bit_or (c * 2 ^ 24 % 2 ^ 32) (sign_extend p0 * 2 ^ 16 % 2 ^ 32))
        (sign_extend p1 * 2 ^ 8 % 2 ^ 32))
      (sign_extend p2)

-- `len >= 3 && ((quartet(c,p) & 0x80808080) == 0)`
pub ascii_run : ℕ → List ℕ → Bool
ascii_run c (p0 ∷ p1 ∷ p2 ∷ rest) = bit_and (quartet c p0 p1 p2) 0x80808080 == 0
ascii_run c _ = false

-- One round of the loop: the validator gives up, or it goes on and passes over some more bytes.
pub data Round : Type 0 where
  reject : Utf8State → Round
  advance : Utf8State → ℕ → Round

start_byte : ℕ → Round
start_byte c =
    if bit_and c 0x80 == 0
    then advance reset 0
    else if bit_and c 0xE0 == 0xC0
    then advance (record reset { point_remain = 1; code_width = 1 }) 0
    else if bit_and c 0xF0 == 0xE0
    then advance
        (record reset {
          point_remain = 2;
          code_width = 2;
          check_surrogate = c == 0xED;
          check_overlong = c == 0xE0;
        })
        0
    else if bit_and c 0xF8 == 0xF0
    then advance
        (record reset {
          point_remain = 3;
          code_width = 3;
          check_overlong = c == 0xF0;
          check_max = c == 0xF4;
        })
        0
    else reject reset

-- `--state->point_remain`
took_byte : Utf8State → Round
took_byte s = advance (record s { point_remain = s.point_remain - 1 }) 0

width_3 : Utf8State → ℕ → Round
unfolding took_byte
width_3 s c =
    if s.check_overlong && ltb c (get_or c3_min s.point_remain 0)
    then reject s
    else if s.check_surrogate && leb 0xA0 c
    then reject (record s { check_overlong = false })
    else took_byte (record s { check_overlong = false; check_surrogate = false })

width_4 : Utf8State → ℕ → Round
unfolding took_byte
width_4 s c =
    if s.check_overlong && ltb c (get_or c4_min s.point_remain 0)
    then reject s
    else if s.check_max && ltb (get_or c4_max s.point_remain 0) c
    then reject (record s { check_overlong = false })
    else took_byte (record s { check_overlong = false })

continue_byte : Utf8State → ℕ → Round
unfolding width_3 width_4 took_byte
continue_byte s c =
    if s.code_width == 2
    then width_3 s c
    else if s.code_width == 3
    then width_4 s c
    else took_byte s

-- The body of the loop on the byte `c`, with `p` behind it. Inside the branch of a start byte
-- the run of four ASCII bytes is tried first.
pub read_byte : Utf8State → ℕ → List ℕ → Round
unfolding start_byte continue_byte
read_byte s c p =
    if ltb 0xF4 c || (c == 0xC0 || c == 0xC1)
    then reject s
    else if s.point_remain == 0
    then if ascii_run c p then advance s 3 else start_byte c
    else if bit_and c 0xC0 == 0x80
    then continue_byte s c
    else reject s

-- The loop; its number counts the bytes that the pointer has already been moved over.
pub scan : ℕ → Utf8State → List ℕ → Status × Utf8State
scan k s [] = (okay, s)
scan (suc k) s (c ∷ p) = scan k s p
scan zero s (c ∷ p) = elim (read_byte s c p) [
  | reject s' ↦ (eilseq, s')
  | advance s' k ↦ scan k s' p
]

finish : Bool → Status × Utf8State → Status × Utf8State
finish done (okay, s) = if not (s.point_remain == 0) && done then (eilseq, s) else (okay, s)
finish done (e, s) = (e, s)

unfoldable pub check_utf8 : Utf8State → List ℕ → Bool → Status × Utf8State
unfolding finish
check_utf8 s buffer done = finish done (scan 0 s buffer)
