-- ===== src/Util/Base64/RoundTrip.antt =====
-- Decoding what was encoded, and the space that an encoding needs.
use libyimmo.Base.{
  ℕ, ◌+◌, ◌-◌, ◌*◌, ◌/◌, ◌%◌, ◌^◌, ◌≤◌, ◌<◌, ◌≡◌, ◌≢◌, ◌↔◌, refl, ap, ap₂, ◌∙◌, bit_and, bit_or,
  false, List, [], ◌∷◌, ◌++◌, length, length-append, leb, ◌&&◌, ◌==◌, if◌then◌else◌, All, IsByte,
  arith,
}
use libyimmo.Base.Bits.{all_agree→eq, bytes_agree, bit_or_fields}
use libyimmo.Util.Base64.{digit, pad, encoded, base64_encode, base64_len}

-- The number that a digit stands for, RFC 4648, table 1: A to Z, a to z, 0 to 9, + and /. Another
-- byte is no digit.
abbrev pub value_of : ℕ → ℕ
value_of c =
    if leb 0x41 c && leb c 0x5A
    then c - 0x41
    else if leb 0x61 c && leb c 0x7A
    then c - 0x61 + 26
    else if leb 0x30 c && leb c 0x39
    then c - 0x30 + 52
    else if c == 0x2B
    then 62
    else if c == 0x2F
    then 63
    else 64

-- RFC 4648, 4: four digits are three bytes, and less where there is padding. The decoding stops at
-- the NUL.
abbrev pub decoded : List ℕ → List ℕ
decoded (w ∷ x ∷ y ∷ z ∷ rest) =
    let b0 = value_of w * 4 + value_of x / 16 in
    let b1 = value_of x % 16 * 16 + value_of y / 4 in
    let b2 = value_of y % 4 * 64 + value_of z in
    let more = decoded rest in
    if z == pad then (if y == pad then b0 ∷ [] else b0 ∷ b1 ∷ []) else b0 ∷ b1 ∷ b2 ∷ more
decoded _ = []

value_of-digit : (i : ℕ) → i < 64 → value_of (digit i) ≡ i
value_of-digit i h = bytes_agree (λ x. value_of (digit x)) (λ x. x) 64 i h refl

digit-pad : (i : ℕ) → i < 64 → (digit i == pad) ≡ false
digit-pad i h = all_agree→eq (λ x. digit x == pad) (λ x. false) 64 i h refl

sextet_0 : (a : ℕ) → IsByte a → bit_and (a / 2 ^ 2) 0x3F ≡ a / 4
sextet_0 a h = bytes_agree (λ x. bit_and (x / 2 ^ 2) 0x3F) (λ x. x / 4) 256 a h refl

low_2 : (a : ℕ) → IsByte a → bit_and a 0x03 ≡ a % 4
low_2 a h = bytes_agree (λ x. bit_and x 0x03) (λ x. x % 4) 256 a h refl

low_4 : (a : ℕ) → IsByte a → bit_and a 0x0F ≡ a % 16
low_4 a h = bytes_agree (λ x. bit_and x 0x0F) (λ x. x % 16) 256 a h refl

low_6 : (a : ℕ) → IsByte a → bit_and a 0x3F ≡ a % 64
low_6 a h = bytes_agree (λ x. bit_and x 0x3F) (λ x. x % 64) 256 a h refl

sextet_1 :
    (a b : ℕ)
    → IsByte a
    → IsByte b
    → bit_or (bit_and a 0x03 * 2 ^ 4) (b / 2 ^ 4) ≡ a % 4 * 16 + b / 16
sextet_1 a b ha hb =
    ap (λ x. bit_or (x * 2 ^ 4) (b / 2 ^ 4)) (low_2 a ha)
    ∙ bit_or_fields 4 (a % 4) (b / 2 ^ 4) (omega arith)

sextet_2 :
    (b c : ℕ)
    → IsByte b
    → IsByte c
    → bit_or (bit_and b 0x0F * 2 ^ 2) (c / 2 ^ 6) ≡ b % 16 * 4 + c / 64
sextet_2 b c hb hc =
    ap (λ x. bit_or (x * 2 ^ 2) (c / 2 ^ 6)) (low_4 b hb)
    ∙ bit_or_fields 2 (b % 16) (c / 2 ^ 6) (omega arith)

-- What the decoder makes of four digits, three and padding, two and padding.
unpack_4 :
    (w x y z : ℕ) (rest : List ℕ)
    → w < 64
    → x < 64
    → y < 64
    → z < 64
    → decoded (digit w ∷ digit x ∷ digit y ∷ digit z ∷ rest)
      ≡ (w * 4 + x / 16) ∷ (x % 16 * 16 + y / 4) ∷ (y % 4 * 64 + z) ∷ decoded rest
unpack_4 w x y z rest hw hx hy hz =
    rw
      (
        digit-pad z hz,
        value_of-digit w hw,
        value_of-digit x hx,
        value_of-digit y hy,
        value_of-digit z hz,
      )
      refl

unpack_3 :
    (w x y : ℕ) (rest : List ℕ)
    → w < 64
    → x < 64
    → y < 64
    → decoded (digit w ∷ digit x ∷ digit y ∷ pad ∷ rest)
      ≡ (w * 4 + x / 16) ∷ (x % 16 * 16 + y / 4) ∷ []
unpack_3 w x y rest hw hx hy =
    rw (digit-pad y hy, value_of-digit w hw, value_of-digit x hx, value_of-digit y hy) refl

unpack_2 :
    (w x : ℕ) (rest : List ℕ)
    → w < 64
    → x < 64
    → decoded (digit w ∷ digit x ∷ pad ∷ pad ∷ rest) ≡ (w * 4 + x / 16) ∷ []
unpack_2 w x rest hw hx = rw (value_of-digit w hw, value_of-digit x hx) refl

decoded-encoded : (src : List ℕ) → All IsByte src → decoded (encoded src ++ (0 ∷ [])) ≡ src
unfolding encoded
decoded-encoded [] h = refl
decoded-encoded (a ∷ []) (ha, h) =
    let w = sextet_0 a ha in
    let x = low_2 a ha in
    let back : a / 4 * 4 + a % 4 * 16 / 16 ≡ a = omega arith in
    ap₂ (λ i j. decoded (digit i ∷ digit (j * 2 ^ 4) ∷ pad ∷ pad ∷ 0 ∷ [])) w x
    ∙ unpack_2 (a / 4) (a % 4 * 16) (0 ∷ []) (omega arith) (omega arith)
    ∙ ap (λ i. i ∷ []) back
decoded-encoded (a ∷ b ∷ []) (ha, (hb, h)) =
    let back_a : a / 4 * 4 + (a % 4 * 16 + b / 16) / 16 ≡ a = omega arith in
    let back_b : (a % 4 * 16 + b / 16) % 16 * 16 + b % 16 * 4 / 4 ≡ b = omega arith in
    ap₂ (λ i j. decoded (digit i ∷ digit j ∷ digit (bit_and b 0x0F * 2 ^ 2) ∷ pad ∷ 0 ∷ []))
      (sextet_0 a ha) (sextet_1 a b ha hb)
    ∙ ap
        (λ k.
          decoded (digit (a / 4) ∷ digit (a % 4 * 16 + b / 16) ∷ digit (k * 2 ^ 2) ∷ pad ∷ 0 ∷ []))
        (low_4 b hb)
    ∙ unpack_3 (a / 4) (a % 4 * 16 + b / 16) (b % 16 * 4) (0 ∷ []) (omega arith) (omega arith)
        (omega arith)
    ∙ ap₂ (λ i j. i ∷ j ∷ []) back_a back_b
decoded-encoded (a ∷ b ∷ c ∷ src) (ha, (hb, (hc, h))) =
    let rest = encoded src ++ (0 ∷ []) in
    let back_a : a / 4 * 4 + (a % 4 * 16 + b / 16) / 16 ≡ a = omega arith in
    let back_b : (a % 4 * 16 + b / 16) % 16 * 16 + (b % 16 * 4 + c / 64) / 4 ≡ b = omega arith in
    let back_c : (b % 16 * 4 + c / 64) % 4 * 64 + c % 64 ≡ c = omega arith in
    ap₂
      (λ i j. decoded (
        digit i
        ∷ digit j
        ∷ digit (bit_or (bit_and b 0x0F * 2 ^ 2) (c / 2 ^ 6))
        ∷ digit (bit_and c 0x3F)
        ∷ rest))
      (sextet_0 a ha) (sextet_1 a b ha hb)
    ∙ ap₂ (λ k l. decoded (digit (a / 4) ∷ digit (a % 4 * 16 + b / 16) ∷ digit k ∷ digit l ∷ rest))
        (sextet_2 b c hb hc) (low_6 c hc)
    ∙ unpack_4 (a / 4) (a % 4 * 16 + b / 16) (b % 16 * 4 + c / 64) (c % 64) rest (omega arith)
        (omega arith) (omega arith) (omega arith)
    ∙ ap₂ (λ i j. i ∷ j ∷ ((b % 16 * 4 + c / 64) % 4 * 64 + c % 64) ∷ decoded rest) back_a back_b
    ∙ ap₂ (λ k more. a ∷ b ∷ k ∷ more) back_c (decoded-encoded src h)

-- Decoding an encoded string of bytes, by the alphabet and the padding of RFC 4648, gives it back.
pub decoded-base64_encode : (src : List ℕ) → All IsByte src → decoded (base64_encode src) ≡ src
unfolding base64_encode
decoded-base64_encode src h = decoded-encoded src h

length-encoded : (src : List ℕ) → length (encoded src) ≡ (length src + 2) / 3 * 4
unfolding encoded
length-encoded [] = refl
length-encoded (a ∷ []) = refl
length-encoded (a ∷ b ∷ []) = refl
length-encoded (a ∷ b ∷ c ∷ src) = omega (arith, length-encoded src)

-- The string that `ymo_base64_encode` writes fits in YMO_BASE64_LEN bytes exactly when the length
-- of its source is not 1 modulo 3, for a source so short that YMO_BASE64_LEN does not wrap.
pub base64_encode-fits :
    (src : List ℕ)
    → length src + 2 < 2 ^ 62
    → (length (base64_encode src) ≤ base64_len (length src)) ↔ (length src % 3 ≢ 1)
unfolding base64_encode
base64_encode-fits src short =
    let size : length (encoded src ++ (0 ∷ [])) ≡ (length src + 2) / 3 * 4 + 1 =
      omega (arith, length-append (encoded src) (0 ∷ []), length-encoded src) in
    (λ h e. omega (arith, size, h, e), λ h. omega (arith, size, h))
