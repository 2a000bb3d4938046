-- ===== src/Util/Case.antt =====
-- include/ymo_util.h: letter case of single bytes, and the comparison without case.
pub mod Compare
mod Tests
use libyimmo.Base.{
  ℕ, ◌+◌, ◌-◌, ◌/◌, ◌%◌, ◌^◌, bit_and, bit_xor, Bool, ◌&&◌, List, [], ◌∷◌, length, ltb, ◌==◌,
  if◌then◌else◌,
}

-- Bit 7 of both differences is looked at, which modulo 256 has as the `int` has.
abbrev pub case_bit : ℕ → ℕ → ℕ → ℕ
case_bit low high c =
    bit_and (bit_xor ((low + 256 - c) % 256) ((high + 256 - c) % 256) / 2 ^ 2) 0x20

-- `ymo_tolower` and `ymo_toupper`, of a byte
abbrev pub tolower : ℕ → ℕ
tolower c = bit_xor c (case_bit 0x40 0x5A c)

abbrev pub toupper : ℕ → ℕ
toupper c = bit_xor c (case_bit 0x60 0x7A c)

-- The loop of `ymo_strcasecmp`, with its `l2` before it is decremented.
abbrev pub casecmp_loop : ℕ → List ℕ → List ℕ → ℕ
casecmp_loop l2 (a ∷ s1) (b ∷ s2) =
    let rest = casecmp_loop (l2 - 1) s1 s2 in
    if ltb 0 (l2 - 1) && tolower a == tolower b then rest else l2 - 1
casecmp_loop l2 _ _ = l2 - 1

-- `ymo_strcasecmp` of two strings and their lengths; the result is an `int`, and -1 the last number.
unfoldable pub strcasecmp : List ℕ → List ℕ → ℕ
strcasecmp s1 s2 =
    if length s1 == length s2 then casecmp_loop (length s2 + 1) s1 s2 % 2 ^ 32 else 2 ^ 32 - 1
