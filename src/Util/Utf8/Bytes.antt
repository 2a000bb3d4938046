-- ===== src/Util/Utf8/Bytes.antt =====
-- The masks of the validator as comparisons, each checked on all bytes, and the ASCII test.
use libyimmo.Base.{
  ℕ, ◌*◌, ◌%◌, ◌^◌, ◌<◌, ◌≡◌, refl, bit_and, Bool, true, ◌&&◌, ltb, leb, ◌==◌, ==→eq, arith, IsByte,
}
use libyimmo.Base.Bits.{all_agree→eq, bit_and-bit_or_zero}
use libyimmo.Util.Utf8.{sign_extend, quartet}

pub mask_80 : (c : ℕ) → IsByte c → (bit_and c 0x80 == 0) ≡ ltb c 0x80
mask_80 c h = all_agree→eq (λ x. bit_and x 0x80 == 0) (λ x. ltb x 0x80) 256 c h refl

pub mask_e0 : (c : ℕ) → IsByte c → (bit_and c 0xE0 == 0xC0) ≡ (leb 0xC0 c && ltb c 0xE0)
mask_e0 c h =
    all_agree→eq (λ x. bit_and x 0xE0 == 0xC0) (λ x. leb 0xC0 x && ltb x 0xE0) 256 c h refl

pub mask_f0 : (c : ℕ) → IsByte c → (bit_and c 0xF0 == 0xE0) ≡ (leb 0xE0 c && ltb c 0xF0)
mask_f0 c h =
    all_agree→eq (λ x. bit_and x 0xF0 == 0xE0) (λ x. leb 0xE0 x && ltb x 0xF0) 256 c h refl

pub mask_f8 : (c : ℕ) → IsByte c → (bit_and c 0xF8 == 0xF0) ≡ (leb 0xF0 c && ltb c 0xF8)
mask_f8 c h =
    all_agree→eq (λ x. bit_and x 0xF8 == 0xF0) (λ x. leb 0xF0 x && ltb x 0xF8) 256 c h refl

pub mask_c0 : (c : ℕ) → IsByte c → (bit_and c 0xC0 == 0x80) ≡ (leb 0x80 c && ltb c 0xC0)
mask_c0 c h =
    all_agree→eq (λ x. bit_and x 0xC0 == 0x80) (λ x. leb 0x80 x && ltb x 0xC0) 256 c h refl

abbrev top_clear : (ℕ → ℕ) → ℕ → Bool
top_clear f x = bit_and (f x) 0x80808080 == 0

-- Each operand of the quartet has its top bit in the mask.
module _ (c : ℕ) (h : IsByte c) where
  top_first : top_clear (λ x. x * 2 ^ 24 % 2 ^ 32) c ≡ ltb c 0x80
  top_first = all_agree→eq (top_clear (λ x. x * 2 ^ 24 % 2 ^ 32)) (λ x. ltb x 0x80) 256 c h refl

  top_second : top_clear (λ x. sign_extend x * 2 ^ 16 % 2 ^ 32) c ≡ ltb c 0x80
  top_second =
      all_agree→eq (top_clear (λ x. sign_extend x * 2 ^ 16 % 2 ^ 32)) (λ x. ltb x 0x80) 256 c h refl

  top_third : top_clear (λ x. sign_extend x * 2 ^ 8 % 2 ^ 32) c ≡ ltb c 0x80
  top_third =
      all_agree→eq (top_clear (λ x. sign_extend x * 2 ^ 8 % 2 ^ 32)) (λ x. ltb x 0x80) 256 c h refl

  top_last : top_clear sign_extend c ≡ ltb c 0x80
  top_last = all_agree→eq (top_clear sign_extend) (λ x. ltb x 0x80) 256 c h refl

clear→ascii :
    (f : ℕ → ℕ) (c : ℕ) → top_clear f c ≡ ltb c 0x80 → bit_and (f c) 0x80808080 ≡ 0 → c < 0x80
clear→ascii f c e z = ground arith

-- A clear mask shows four ASCII bytes.
pub quartet→ascii :
    (c p0 p1 p2 : ℕ)
    → IsByte c × IsByte p0 × IsByte p1 × IsByte p2
    → (bit_and (quartet c p0 p1 p2) 0x80808080 == 0) ≡ true
    → (c < 0x80) × (p0 < 0x80) × (p1 < 0x80) × (p2 < 0x80)
quartet→ascii c p0 p1 p2 (h, h0, h1, h2) e =
    let (front, last) = bit_and-bit_or_zero _ (sign_extend p2) 0x80808080 (==→eq _ 0 e) in
    let (front', third) =
      bit_and-bit_or_zero _ (sign_extend p1 * 2 ^ 8 % 2 ^ 32) 0x80808080 front in
    let (first, second) =
      bit_and-bit_or_zero _ (sign_extend p0 * 2 ^ 16 % 2 ^ 32) 0x80808080 front' in
    (
      clear→ascii (λ x. x * 2 ^ 24 % 2 ^ 32) c (top_first c h) first,
      clear→ascii (λ x. sign_extend x * 2 ^ 16 % 2 ^ 32) p0 (top_second p0 h0) second,
      clear→ascii (λ x. sign_extend x * 2 ^ 8 % 2 ^ 32) p1 (top_third p1 h1) third,
      clear→ascii sign_extend p2 (top_last p2 h2) last,
    )
