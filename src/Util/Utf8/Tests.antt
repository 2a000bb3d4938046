-- ===== src/Util/Utf8/Tests.antt =====
-- Runs of the validator, and its theorem at concrete texts.
use libyimmo.Base.{ℕ, ◌≡◌, ◌↔◌, refl, true, List, [], ◌∷◌, okay, eilseq, arith}
use libyimmo.Util.Utf8.{reset, scan, read_byte, ascii_run, check_utf8}
use libyimmo.Util.Utf8.Grammar.{WellFormed}
use libyimmo.Util.Utf8.Language.{check_buffers, joined, check_utf8-WellFormed}

-- "añ€😀b"
abbrev sample : List ℕ
sample = 0x61 ∷ 0xC3 ∷ 0xB1 ∷ 0xE2 ∷ 0x82 ∷ 0xAC ∷ 0xF0 ∷ 0x9F ∷ 0x98 ∷ 0x80 ∷ 0x62 ∷ []

abbrev ascii : List ℕ
ascii = 0x61 ∷ 0x62 ∷ 0x63 ∷ 0x64 ∷ 0x65 ∷ []

check_sample : (check_utf8 reset sample true).0 ≡ okay
unfolding check_utf8 scan read_byte ascii_run
check_sample = refl

check_ascii : check_utf8 reset ascii true ≡ (okay, reset)
unfolding check_utf8 scan read_byte ascii_run
check_ascii = refl

check_overlong : (check_utf8 reset (0xE0 ∷ 0x80 ∷ 0x80 ∷ []) true).0 ≡ eilseq
unfolding check_utf8 scan read_byte ascii_run
check_overlong = refl

check_surrogate : (check_utf8 reset (0xED ∷ 0xA0 ∷ 0x80 ∷ []) true).0 ≡ eilseq
unfolding check_utf8 scan read_byte ascii_run
check_surrogate = refl

check_cut : (check_utf8 reset (0x61 ∷ 0xE2 ∷ 0x82 ∷ []) true).0 ≡ eilseq
unfolding check_utf8 scan read_byte ascii_run
check_cut = refl

-- The euro sign, cut after its first byte.
abbrev cut_buffers : List (List ℕ)
cut_buffers = (0x61 ∷ 0xE2 ∷ []) ∷ (0x82 ∷ []) ∷ []

check_utf8-WellFormed_example :
    (check_buffers reset cut_buffers (0xAC ∷ []) ≡ okay)
    ↔ WellFormed (joined cut_buffers (0xAC ∷ []))
check_utf8-WellFormed_example =
    check_utf8-WellFormed cut_buffers (0xAC ∷ []) (omega arith) (omega arith)
