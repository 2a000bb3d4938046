-- ===== src/Util/Base64.antt =====
-- `ymo_base64_encode` and YMO_BASE64_LEN of src/core/ymo_util.c and include/ymo_util.h.
pub mod RoundTrip
mod Tests
use libyimmo.Base.{ℕ, ◌+◌, ◌*◌, ◌/◌, ◌%◌, ◌^◌, bit_and, bit_or, List, [], ◌∷◌, ◌++◌, get_or}

abbrev pub base64_table : List ℕ
base64_table =
    65 ∷ 66 ∷ 67 ∷ 68 ∷ 69 ∷ 70 ∷ 71 ∷ 72 ∷ 73 ∷ 74 ∷ 75 ∷ 76 ∷ 77 ∷ 78 ∷ 79 ∷ 80 ∷ 81 ∷ 82 ∷ 83
    ∷ 84 ∷ 85 ∷ 86 ∷ 87 ∷ 88 ∷ 89 ∷ 90 ∷ 97 ∷ 98 ∷ 99 ∷ 100 ∷ 101 ∷ 102 ∷ 103 ∷ 104 ∷ 105 ∷ 106
    ∷ 107 ∷ 108 ∷ 109 ∷ 110 ∷ 111 ∷ 112 ∷ 113 ∷ 114 ∷ 115 ∷ 116 ∷ 117 ∷ 118 ∷ 119 ∷ 120 ∷ 121 ∷ 122
    ∷ 48 ∷ 49 ∷ 50 ∷ 51 ∷ 52 ∷ 53 ∷ 54 ∷ 55 ∷ 56 ∷ 57 ∷ 43 ∷ 47 ∷ []

abbrev pub digit : ℕ → ℕ
digit i = get_or base64_table i 0

-- `'='`
abbrev pub pad : ℕ
pad = 61

-- The bytes that are written before the NUL.
unfoldable pub encoded : List ℕ → List ℕ
encoded [] = []
encoded (s0 ∷ []) =
    digit (bit_and (s0 / 2 ^ 2) 0x3F) ∷ digit (bit_and s0 0x03 * 2 ^ 4) ∷ pad ∷ pad ∷ []
encoded (s0 ∷ s1 ∷ []) =
    digit (bit_and (s0 / 2 ^ 2) 0x3F)
    ∷ digit (bit_or (bit_and s0 0x03 * 2 ^ 4) (s1 / 2 ^ 4))
    ∷ digit (bit_and s1 0x0F * 2 ^ 2)
    ∷ pad
    ∷ []
encoded (s0 ∷ s1 ∷ s2 ∷ src) =
    digit (bit_and (s0 / 2 ^ 2) 0x3F)
    ∷ digit (bit_or (bit_and s0 0x03 * 2 ^ 4) (s1 / 2 ^ 4))
    ∷ digit (bit_or (bit_and s1 0x0F * 2 ^ 2) (s2 / 2 ^ 6))
    ∷ digit (bit_and s2 0x3F)
    ∷ encoded src

unfoldable pub base64_encode : List ℕ → List ℕ
unfolding encoded
base64_encode src = encoded src ++ (0 ∷ [])

-- YMO_BASE64_LEN of a size_t
abbrev pub base64_len : ℕ → ℕ
base64_len len = 4 * ((len + 2) % 2 ^ 64) % 2 ^ 64 / 3
