-- ===== src/Http/Body/Digits.antt =====
-- The size of a chunk, from its hexadecimal digits.
use libyimmo.Base.{
  ℕ, ◌+◌, ◌-◌, ◌*◌, ◌/◌, ◌%◌, ◌^◌, ◌≤◌, ◌<◌, ◌≡◌, ◌⊎◌, inl, inr, refl, ap, ap₂, ◌∙◌, bit_and,
  bit_or, Bool, true, false, not, ◌&&◌, ◌||◌, List, [], ◌∷◌, ◌++◌, length, ltb, leb, ◌==◌,
  if◌then◌else◌, Bool-cases, All, sub_size, arith,
}
use libyimmo.Base.Bits.{bit_or_digit, bit_or-zero, bit_or_fields, all_agree→eq}
use libyimmo.Http.Exchange.{Exchange}
use libyimmo.Http.Body.{inner, shift_6, add_digit, size_end, with_digit, size_loop}

-- RFC 5234: HEXDIG, in either case, and what it stands for.
abbrev pub is_hex : ℕ → Bool
is_hex c = (leb 0x30 c && leb c 0x39) || (leb 0x41 c && leb c 0x46) || (leb 0x61 c && leb c 0x66)

abbrev pub hex_value : ℕ → ℕ
hex_value c = if leb c 0x39 then c - 0x30 else if leb c 0x46 then c - 0x37 else c - 0x57

abbrev pub size_from : ℕ → List ℕ → ℕ
size_from acc [] = acc
size_from acc (c ∷ cs) = size_from (acc * 16 + hex_value c) cs

abbrev pub size_of : List ℕ → ℕ
size_of digits = size_from 0 digits

-- The two parts that the code joins.
abbrev low_part : ℕ → ℕ
low_part c = (bit_and c 0xF + shift_6 c) % 2 ^ 64

abbrev high_part : ℕ → ℕ
high_part c = bit_and (c / 2 ^ 3) 0x8

abbrev fits : ℕ → Bool
fits c =
    not (is_hex c)
    || ((high_part c == 0 && low_part c == hex_value c && ltb (low_part c) 16)
        || (high_part c == 8 && low_part c + 8 == hex_value c && ltb (low_part c) 8))

hex-fits : (c : ℕ) → c < 256 → fits c ≡ true
hex-fits c h = all_agree→eq fits (λ x. true) 256 c h refl

bit_or_8 : (x : ℕ) → x % 16 < 8 → bit_or x 8 ≡ x + 8
bit_or_8 x h = omega (
  arith,
  bit_or_digit x 8,
  bit_or_digit (x / 2) 4,
  bit_or_digit (x / 2 / 2) 2,
  bit_or_digit (x / 2 / 2 / 2) 1,
  bit_or-zero (x / 2 / 2 / 2 / 2),
)

parts-cases :
    (low high v : ℕ)
    → ((high == 0 && low == v && ltb low 16) || (high == 8 && low + 8 == v && ltb low 8)) ≡ true
    → ((high ≡ 0) × (low ≡ v) × (low < 16)) ⊎ ((high ≡ 8) × (low + 8 ≡ v) × (low < 8))
parts-cases low high v h = elim (Bool-cases (high == 0 && low == v && ltb low 16)) [
  | inl is ↦ inl (ground arith, ground arith, ground arith)
  | inr is ↦ inr (ground arith, ground arith, ground arith)
]

byte_of : (c : ℕ) → is_hex c ≡ true → c < 256
byte_of c h = ground arith

drop_test : {a b : Bool} → a ≡ true → (not a || b) ≡ true → b ≡ true
drop_test h k = ground arith

hex-cases :
    (c : ℕ)
    → is_hex c ≡ true
    → ((high_part c ≡ 0) × (low_part c ≡ hex_value c) × (low_part c < 16))
      ⊎ ((high_part c ≡ 8) × (low_part c + 8 ≡ hex_value c) × (low_part c < 8))
hex-cases c h =
    parts-cases (low_part c) (high_part c) (hex_value c) (drop_test h (hex-fits c (byte_of c h)))

join :
    (q low high v : ℕ)
    → ((high ≡ 0) × (low ≡ v) × (low < 16)) ⊎ ((high ≡ 8) × (low + 8 ≡ v) × (low < 8))
    → bit_or (bit_or (q * 2 ^ 4) low) high ≡ q * 16 + v
join q low high v (inl (none_high, is, small)) =
    ap₂ bit_or (bit_or_fields 4 q low small) none_high ∙ bit_or-zero (q * 2 ^ 4 + low) ∙ omega arith
join q low high v (inr (is_high, is, small)) =
    ap₂ bit_or (bit_or_fields 4 q low (omega arith)) is_high
    ∙ bit_or_8 (q * 2 ^ 4 + low) (omega arith)
    ∙ omega arith

-- A digit shifts the size by four bits and adds its value.
pub add_digit-hex :
    (acc c : ℕ)
    → is_hex c ≡ true
    → acc * 16 + hex_value c < 2 ^ 64
    → add_digit acc c ≡ acc * 16 + hex_value c
unfolding add_digit
add_digit-hex acc c h small =
    ap (λ q. bit_or (bit_or q (low_part c)) (high_part c)) (omega arith)
    ∙ join acc (low_part c) (high_part c) (hex_value c) (hex-cases c h)

size_from-le : (acc : ℕ) (digits : List ℕ) → acc ≤ size_from acc digits
size_from-le acc [] = omega arith
size_from-le acc (c ∷ cs) = omega (arith, size_from-le (acc * 16 + hex_value c) cs)

abbrev pub sized : Exchange → ℕ → Exchange
sized e size = record e { body_remain = size }

-- A size, its CR and its newline, with one more in `len` than that the digits and the CR take.
pub size_loop-digits :
    (n len : ℕ) (e : Exchange) (digits rest : List ℕ)
    → All (λ c. is_hex c ≡ true) digits
    → size_from e.body_remain digits < 2 ^ 64
    → len < 2 ^ 64
    → length digits + 2 ≤ len
    → size_loop n len e (digits ++ (0x0D ∷ 0x0A ∷ rest))
      ≡ inner
          (n + length digits + 2)
          (size_end (sized e (size_from e.body_remain digits)))
          rest
          (len - (length digits + 1))
unfolding size_loop
size_loop-digits n len e [] rest h small len_small enough =
    let less : sub_size len 1 ≡ len - 1 = omega arith in
    let space : (len - 1 == 0) ≡ false = ground arith in
    rw less (rw space (ap (λ k. inner k (size_end e) rest (len - 1)) (omega arith)))
size_loop-digits n len e (c ∷ cs) rest (hex, h) small len_small enough =
    let less : sub_size len 1 ≡ len - 1 = omega arith in
    let space : (len - 1 == 0) ≡ false = ground arith in
    let no_lf : (c == 0x0A) ≡ false = ground arith in
    let no_cr : (c == 0x0D) ≡ false = ground arith in
    let acc : add_digit e.body_remain c ≡ e.body_remain * 16 + hex_value c =
      add_digit-hex e.body_remain c hex
        (omega (arith, size_from-le (e.body_remain * 16 + hex_value c) cs)) in
    let next : Exchange = sized e (e.body_remain * 16 + hex_value c) in
    let takes : with_digit e c ≡ next = rw no_cr (ap (sized e) acc) in
    rw no_lf (
      rw less (
        rw space (
          ap (λ e'. size_loop (n + 1) (len - 1) e' (cs ++ (0x0D ∷ 0x0A ∷ rest))) takes
          ∙ size_loop-digits (n + 1) (len - 1) next cs rest h small (omega arith) (omega arith)
          ∙ ap₂ (λ k l. inner k (size_end (sized next (size_from next.body_remain cs))) rest l)
              (omega arith) (omega arith))))
