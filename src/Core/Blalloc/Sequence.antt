-- ===== src/Core/Blalloc/Sequence.antt =====
-- The objects that a block (src/core/ymo_blalloc.c) gives out, one after the other.
use libyimmo.Base.{
  ℕ, zero, suc, ◌+◌, ◌-◌, ◌*◌, ◌/◌, ◌%◌, ◌^◌, ◌≤◌, ◌<◌, bit_and, Bool-cases, inl, inr, Option, none,
  some, List, [], ◌∷◌, ltb, sub_size, ◌≡◌, refl, ap, ◌∙◌, arith, All,
}
use native.Mathlib.Nat.{pow-suc}
use mathlib.Core.Path.{subst}
use libyimmo.Base.Bits.{bit_and_digit}
use libyimmo.Core.Blalloc.{Block, type_ceil, blalloc}

bit_and_ones : (k y : ℕ) → y < 2 ^ k → bit_and y (2 ^ k - 1) ≡ y
bit_and_ones zero zero h = refl
bit_and_ones zero (suc y) h = absurd (omega arith)
bit_and_ones (suc k) y h =
    let halved : (2 ^ suc k - 1) / 2 ≡ 2 ^ k - 1 = omega (arith, pow-suc 2 k) in
    let half : bit_and (y / 2) ((2 ^ suc k - 1) / 2) ≡ y / 2 =
      ap (bit_and (y / 2)) halved ∙ bit_and_ones k (y / 2) (omega (arith, pow-suc 2 k)) in
    let odd : (2 ^ suc k - 1) % 2 ≡ 1 = omega (arith, pow-suc 2 k, power_positive k) in
    omega (arith, bit_and_digit y (2 ^ suc k - 1), half, odd)
  where
    power_positive : (j : ℕ) → 1 ≤ 2 ^ j
    power_positive zero = omega arith
    power_positive (suc j) = omega (arith, pow-suc 2 j, power_positive j)

-- Only bit 3 is cleared.
pub type_ceil-fields : (p : ℕ) → p + 8 < 2 ^ 64 → type_ceil p ≡ (p + 8) / 16 * 16 + (p + 8) % 8
type_ceil-fields p h =
    let x : ℕ = (p + 8) % 2 ^ 64 in
    omega (
      arith,
      bit_and_digit x (2 ^ 64 - 9),
      bit_and_digit (x / 2) (2 ^ 63 - 5),
      bit_and_digit (x / 2 / 2) (2 ^ 62 - 3),
      bit_and_digit (x / 2 / 2 / 2) (2 ^ 61 - 2),
      bit_and_ones 60 (x / 2 / 2 / 2 / 2) (omega arith),
    )

pub record IsBlock (b : Block) : Type 0 where
  pub started : b.val ≤ b.current
  pub ended : b.current ≤ b.end
  pub left : b.remain ≡ b.end - b.current
  pub bounded : b.end < 2 ^ 63

pub record Object : Type 0 where
  pub start : ℕ
  pub size : ℕ

abbrev pub with_object : ℕ → Option ℕ → List Object → List Object
with_object n none os = os
with_object n (some a) os = record { start = a; size = n } ∷ os

-- The objects that calls with these sizes are given.
abbrev pub allocate : Block → List ℕ → List Object
allocate b [] = []
allocate b (n ∷ ns) = with_object n (blalloc b n).0 (allocate (blalloc b n).1 ns)

-- Each object is behind the one before, the first at `from` or behind it, and none goes past `end`.
-- The address of each is that where the one before has ended, modulo 8.
abbrev pub Placed : ℕ → ℕ → List Object → Type 0
Placed from end [] = from ≤ end
Placed from end (o ∷ os) =
    (from ≤ o.start) × (o.start % 8 ≡ from % 8) × Placed (o.start + o.size) end os

type_ceil-near : (p : ℕ) → p + 8 < 2 ^ 64 → (p ≤ type_ceil p) × (type_ceil p ≤ p + 8)
type_ceil-near p h = (omega (arith, type_ceil-fields p h), omega (arith, type_ceil-fields p h))

type_ceil-mod : (p : ℕ) → p + 8 < 2 ^ 64 → type_ceil p % 8 ≡ p % 8
type_ceil-mod p h = omega (arith, type_ceil-fields p h)

-- What is left where an object is given.
abbrev given : Block → ℕ → Block
given b n = record b {
  remain = sub_size b.remain (sub_size ((type_ceil b.current + n) % 2 ^ 64) b.current);
  current = (type_ceil b.current + n) % 2 ^ 64;
}

given-IsBlock :
    (b : Block) (n : ℕ)
    → IsBlock b
    → n < 2 ^ 62
    → (type_ceil b.current + n) % 2 ^ 64 < b.end
    → IsBlock (given b n) × ((type_ceil b.current + n) % 2 ^ 64 ≡ type_ceil b.current + n)
given-IsBlock b n h small fits =
    let started : b.val ≤ b.current = h.started in
    let ended : b.current ≤ b.end = h.ended in
    let left : b.remain ≡ b.end - b.current = h.left in
    let bounded : b.end < 2 ^ 63 = h.bounded in
    let near = type_ceil-near b.current (omega arith) in
    let whole : (type_ceil b.current + n) % 2 ^ 64 ≡ type_ceil b.current + n =
      omega (arith, near) in
    (
      record {
        started = omega (arith, near);
        ended = omega arith;
        left = omega (arith, near);
        bounded = bounded;
      },
      whole,
    )

-- A block with `current` and `end` in order, below 2^63, and any sizes below 2^62: the objects that
-- the calls of `ymo_blalloc` give out do not overlap, each lies behind the one before, and none
-- goes past the end of the block. Each is at the address where the one before has ended, modulo 8:
-- no alignment is made.
pub allocate-Placed :
    (b : Block) (ns : List ℕ)
    → IsBlock b
    → All (λ n. n < 2 ^ 62) ns
    → Placed b.current b.end (allocate b ns)
unfolding blalloc
allocate-Placed b [] h small = h.ended
allocate-Placed b (n ∷ ns) h (small, smalls) =
    elim (Bool-cases (ltb ((type_ceil b.current + n) % 2 ^ 64) b.end)) [
      | inl e ↦
          let ended : b.current ≤ b.end = h.ended in
          let bounded : b.end < 2 ^ 63 = h.bounded in
          let rest = given-IsBlock b n h small (ground arith) in
          let near = type_ceil-near b.current (omega arith) in
          rw e (
            near.0,
            type_ceil-mod b.current (omega arith),
            subst (λ k. Placed k b.end (allocate (given b n) ns)) rest.1
                (allocate-Placed (given b n) ns rest.0 smalls),
          )
      | inr e ↦ rw e (allocate-Placed b ns h smalls)
    ]
