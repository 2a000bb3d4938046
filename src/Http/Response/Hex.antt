-- ===== src/Http/Response/Hex.antt =====
-- The digits of a chunk's size, as the server writes them (src/protocol/http/ymo_http_response.c) and
-- as they are read.
use libyimmo.Base.{
  ℕ, zero, suc, ◌+◌, ◌/◌, ◌%◌, ◌^◌, ◌≤◌, ◌<◌, true, Bool-cases, inl, inr, some, List, [], ◌∷◌,
  length, length-append, take-all, take, take-append, leb, ◌==◌, All, ◌≡◌, refl, ap, ◌∙◌, arith,
}
use libyimmo.Base.Bits.{all_agree→eq}
use native.Mathlib.Nat.{pow-suc}
use libyimmo.Http.Body.Digits.{is_hex, hex_value, size_from, size_of}
use libyimmo.Http.Response.{hex_digit, hex_loop, chunk_text, chunk_hdr}

digit_value : (d : ℕ) → d < 16 → hex_value (hex_digit d) ≡ d
digit_value d h = ground arith

digit_is_hex : (d : ℕ) → d < 16 → is_hex (hex_digit d) ≡ true
digit_is_hex d h = all_agree→eq (λ x. is_hex (hex_digit x)) (λ x. true) 16 d h refl

hex_size :
    (rounds n : ℕ) (text : List ℕ)
    → n < 16 ^ rounds
    → 1 ≤ rounds
    → size_from 0 (hex_loop rounds n text) ≡ size_from n text
unfolding hex_loop
hex_size zero n text h some_rounds = absurd (omega arith)
hex_size (suc rounds) n text h some_rounds =
    let value = digit_value (n % 16) (omega arith) in
    elim (Bool-cases (n / 16 == 0)) [
      | inl e ↦
          let last : n / 16 ≡ 0 = ground arith in rw e (ap (λ k. size_from k text) (omega arith))
      | inr e ↦
          let left : 1 ≤ n / 16 = ground arith in
          rw e (
            hex_size rounds (n / 16) (hex_digit (n % 16) ∷ text) (omega (arith, pow-suc 16 rounds))
              (rounds_left rounds left (omega (arith, pow-suc 16 rounds)))
            ∙ ap (λ k. size_from k text) (omega arith))
    ]
  where
    rounds_left : (k : ℕ) {m : ℕ} → 1 ≤ m → m < 16 ^ k → 1 ≤ k
    rounds_left zero pos lt = absurd (omega arith)
    rounds_left (suc k) pos lt = omega arith

each_hex :
    (rounds n : ℕ) (text : List ℕ)
    → All (λ d. is_hex d ≡ true) text
    → All (λ d. is_hex d ≡ true) (hex_loop rounds n text)
unfolding hex_loop
each_hex zero n text h = h
each_hex (suc rounds) n text h =
    let digit = digit_is_hex (n % 16) (omega arith) in
    elim (Bool-cases (n / 16 == 0)) [
      | inl e ↦ rw e (digit, h)
      | inr e ↦ rw e (each_hex rounds (n / 16) (hex_digit (n % 16) ∷ text) (digit, h))
    ]

-- No more digits than the size needs.
hex_length :
    (rounds most n : ℕ) (text : List ℕ)
    → n < 16 ^ suc most
    → length (hex_loop rounds n text) ≤ length text + suc most
unfolding hex_loop
hex_length zero most n text h = omega arith
hex_length (suc rounds) zero n text h =
    let last : (n / 16 == 0) ≡ true = ground arith in rw last (omega arith)
hex_length (suc rounds) (suc most) n text h = elim (Bool-cases (n / 16 == 0)) [
  | inl e ↦ rw e (omega arith)
  | inr e ↦ rw e (
      omega (
        arith,
        hex_length rounds most (n / 16) (hex_digit (n % 16) ∷ text)
            (omega (arith, pow-suc 16 (suc most))),
      ))
]

pub size_of-hex : (n : ℕ) → n < 2 ^ 64 → size_of (hex_loop 16 n []) ≡ n
size_of-hex n h = hex_size 16 n [] (omega arith) (omega arith)

pub hex_digits : (n : ℕ) → All (λ d. is_hex d ≡ true) (hex_loop 16 n [])
hex_digits n = each_hex 16 n [] tt

-- A size below 2^16 has its whole text in the buffer.
pub chunk_hdr-text : (n : ℕ) → n < 2 ^ 16 → chunk_hdr n ≡ some (chunk_text n)
unfolding chunk_hdr
chunk_hdr-text n h =
    let short : length (chunk_text n) ≤ 6 = omega (
      arith,
      hex_length 16 3 n [] (omega arith),
      length-append (hex_loop 16 n []) (0x0D ∷ 0x0A ∷ []),
    ) in
    let fits : leb (length (chunk_text n)) 8 ≡ true = ground arith in
    let all : take 6 (chunk_text n) ≡ chunk_text n = take-all (chunk_text n) 6 short in
    rw (fits, all) (ap some (take-append (chunk_text n) (0 ∷ 0 ∷ []) (length (chunk_text n)) refl))
