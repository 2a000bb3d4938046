-- ===== src/Base/Bits.antt =====
-- Laws of the bit operations at variables: one equation for the lowest binary digit each, what
-- follows from these by strong induction, and a table check for facts about single bytes.
use Prim.Native.Nat.{
  ℕ, zero, suc, ◌+◌, ◌*◌, ◌/◌, ◌%◌, ◌^◌, ◌≤◌, ◌<◌, min, max, bit_and, bit_or, bit_xor, digits,
  bitwise, differ, bit_and-bitwise, bit_or-bitwise, bit_xor-bitwise,
}
use mathlib.Core.Path.{◌≡◌, refl, ap, ap₂, ◌∙◌}
use mathlib.Core.Bool.{Bool, true, false}
use native.Mathlib.Nat.{pow-suc}
use native.Mathlib.Omega.{arith}
use libyimmo.Base.Tests.{◌==◌, if◌then◌else◌, ==→eq}

-- Any fuel that covers the first number gives the same digits.
module _ (rest : ℕ → ℕ) (digit : ℕ → ℕ → ℕ) where
  same_digits : (k l a b : ℕ) → a ≤ k → a ≤ l → digits rest digit k a b ≡ digits rest digit l a b
  same_digits zero zero a b hk hl = refl
  same_digits zero (suc l) zero b hk hl = refl
  same_digits zero (suc l) (suc a) b hk hl = absurd (omega arith)
  same_digits (suc k) zero zero b hk hl = refl
  same_digits (suc k) zero (suc a) b hk hl = absurd (omega arith)
  same_digits (suc k) (suc l) zero b hk hl = refl
  same_digits (suc k) (suc l) (suc a) b hk hl =
      rw (same_digits k l (suc a / 2) (b / 2) (omega arith) (omega arith))

  lowest_digit :
      (a b : ℕ)
      → bitwise rest digit (suc a) b
        ≡ bitwise rest digit (suc a / 2) (b / 2) * 2 + digit (suc a % 2) (b % 2)
  lowest_digit a b =
      omega (arith, same_digits a (suc a / 2) (suc a / 2) (b / 2) (omega arith) (omega arith))

pub bit_and_digit : (a b : ℕ) → bit_and a b ≡ bit_and (a / 2) (b / 2) * 2 + min (a % 2) (b % 2)
bit_and_digit zero b = simp bit_and-bitwise (omega arith)
bit_and_digit (suc a) b = simp bit_and-bitwise (lowest_digit (λ _. 0) min a b)

pub bit_or_digit : (a b : ℕ) → bit_or a b ≡ bit_or (a / 2) (b / 2) * 2 + max (a % 2) (b % 2)
bit_or_digit zero b = simp bit_or-bitwise (omega arith)
bit_or_digit (suc a) b = simp bit_or-bitwise (lowest_digit (λ y. y) max a b)

differ_zero : (y : ℕ) → differ 0 y ≡ y
differ_zero y = refl

differ_binary : (x y : ℕ) → x < 2 → y < 2 → differ x y ≡ (x + y) % 2
differ_binary zero y hx hy = omega arith
differ_binary (suc zero) zero hx hy = refl
differ_binary (suc zero) (suc zero) hx hy = refl
differ_binary (suc zero) (suc (suc y)) hx hy = absurd (omega arith)
differ_binary (suc (suc x)) y hx hy = absurd (omega arith)

pub bit_xor_digit : (a b : ℕ) → bit_xor a b ≡ bit_xor (a / 2) (b / 2) * 2 + differ (a % 2) (b % 2)
bit_xor_digit zero b = simp bit_xor-bitwise (omega (arith, differ_zero (b % 2)))
bit_xor_digit (suc a) b = simp bit_xor-bitwise (lowest_digit (λ y. y) differ a b)

pub bit_xor_binary : (a b : ℕ) → bit_xor a b ≡ bit_xor (a / 2) (b / 2) * 2 + (a % 2 + b % 2) % 2
bit_xor_binary a b =
    omega (arith, bit_xor_digit a b, differ_binary (a % 2) (b % 2) (omega arith) (omega arith))

-- Masking twice with the same key gives the value back.
xor_halves : (k a : ℕ) (c : ℕ) → a ≤ k → c ≤ k → bit_xor (bit_xor a c) c ≡ a
xor_halves zero zero zero ha hc = refl
xor_halves zero (suc a) c ha hc = absurd (omega arith)
xor_halves zero zero (suc c) ha hc = absurd (omega arith)
xor_halves (suc k) a c ha hc = omega (
  arith,
  bit_xor_binary a c,
  bit_xor_binary (bit_xor a c) c,
  half,
  xor_halves k (a / 2) (c / 2) (omega arith) (omega arith),
)
  where
    half : bit_xor (bit_xor a c / 2) (c / 2) ≡ bit_xor (bit_xor (a / 2) (c / 2)) (c / 2)
    half = ap (λ t. bit_xor t (c / 2)) (omega (arith, bit_xor_binary a c))

pub bit_xor_twice : (a b : ℕ) → bit_xor (bit_xor a b) b ≡ a
bit_xor_twice a b = xor_halves (a + b) a b (omega arith) (omega arith)

pub bit_xor-lt : (k a b : ℕ) → a < 2 ^ k → b < 2 ^ k → bit_xor a b < 2 ^ k
bit_xor-lt zero zero zero ha hb = ha
bit_xor-lt zero (suc a) b ha hb = absurd (omega arith)
bit_xor-lt zero zero (suc b) ha hb = absurd (omega arith)
bit_xor-lt (suc k) a b ha hb = omega (
  arith,
  pow-suc 2 k,
  bit_xor_binary a b,
  bit_xor-lt k (a / 2) (b / 2) (omega (arith, pow-suc 2 k)) (omega (arith, pow-suc 2 k)),
)

-- Exclusive or works on the two fields of `(q << k) | r` separately.
pub bit_xor_fields :
    (k q r q' r' : ℕ)
    → r < 2 ^ k
    → r' < 2 ^ k
    → bit_xor (q * 2 ^ k + r) (q' * 2 ^ k + r') ≡ bit_xor q q' * 2 ^ k + bit_xor r r'
bit_xor_fields zero q zero q' zero h h' =
    let whole : (t : ℕ) → t * 2 ^ 0 + 0 ≡ t = λ t. omega arith in
    ap₂ bit_xor (whole q) (whole q') ∙ omega arith
bit_xor_fields zero q (suc r) q' r' h h' = absurd (omega arith)
bit_xor_fields zero q zero q' (suc r') h h' = absurd (omega arith)
bit_xor_fields (suc k) q r q' r' h h' = omega (
  arith,
  bit_xor_binary (q * 2 ^ suc k + r) (q' * 2 ^ suc k + r'),
  bit_xor_binary r r',
  double q,
  double q',
  double (bit_xor q q'),
  halves,
  bit_xor_fields k q (r / 2) q' (r' / 2) (omega (arith, pow-suc 2 k)) (omega (arith, pow-suc 2 k)),
)
  where
    double : (t : ℕ) → t * 2 ^ suc k ≡ 2 * (t * 2 ^ k)
    double t = omega (arith, ap (λ (u : ℕ). t * u) (pow-suc 2 k))

    half : (t u : ℕ) → (t * 2 ^ suc k + u) / 2 ≡ t * 2 ^ k + u / 2
    half t u = omega (arith, double t)

    halves :
        bit_xor ((q * 2 ^ suc k + r) / 2) ((q' * 2 ^ suc k + r') / 2)
        ≡ bit_xor (q * 2 ^ k + r / 2) (q' * 2 ^ k + r' / 2)
    halves = ap₂ bit_xor (half q r) (half q' r')

bit_or-zero_bounded : (k a : ℕ) → a ≤ k → bit_or a 0 ≡ a
bit_or-zero_bounded k zero h = refl
bit_or-zero_bounded zero (suc a) h = absurd (omega arith)
bit_or-zero_bounded (suc k) (suc a) h =
    omega (arith, bit_or_digit (suc a) 0, bit_or-zero_bounded k (suc a / 2) (omega arith))

pub bit_or-zero : (a : ℕ) → bit_or a 0 ≡ a
bit_or-zero a = bit_or-zero_bounded a a (omega arith)

-- `(q << k) | r` adds the fields when `r` has at most `k` digits.
pub bit_or_fields : (k q r : ℕ) → r < 2 ^ k → bit_or (q * 2 ^ k) r ≡ q * 2 ^ k + r
bit_or_fields zero q zero h = omega (arith, bit_or-zero (q * 2 ^ 0))
bit_or_fields zero q (suc r) h = absurd (omega arith)
bit_or_fields (suc k) q r h = omega (
  arith,
  bit_or_digit (q * 2 ^ suc k) r,
  double,
  halves,
  bit_or_fields k q (r / 2) (omega (arith, pow-suc 2 k)),
)
  where
    double : q * 2 ^ suc k ≡ 2 * (q * 2 ^ k)
    double = omega (arith, ap (λ (t : ℕ). q * t) (pow-suc 2 k))

    halves : bit_or (q * 2 ^ suc k / 2) (r / 2) ≡ bit_or (q * 2 ^ k) (r / 2)
    halves = ap (λ t. bit_or t (r / 2)) (omega (arith, double))

zero-bit_and : (m : ℕ) → bit_and 0 m ≡ 0
zero-bit_and m = bit_and-bitwise 0 m

-- A disjunction has a digit under a mask exactly where one of its parts has.
and_or_bounded :
    (k a b m : ℕ) → a + b ≤ k → bit_and (bit_or a b) m ≡ 0 → (bit_and a m ≡ 0) × (bit_and b m ≡ 0)
and_or_bounded zero zero zero m h e = (zero-bit_and m, zero-bit_and m)
and_or_bounded zero (suc a) b m h e = absurd (omega arith)
and_or_bounded zero zero (suc b) m h e = absurd (omega arith)
and_or_bounded (suc k) a b m h e = omega (
  arith,
  bit_and_digit a m,
  bit_and_digit b m,
  bit_or_digit a b,
  bit_and_digit (bit_or a b) m,
  and_or_bounded k (a / 2) (b / 2) (m / 2) (omega arith) halves,
)
  where
    or_half : bit_or (a / 2) (b / 2) ≡ bit_or a b / 2
    or_half = omega (arith, bit_or_digit a b)

    halves : bit_and (bit_or (a / 2) (b / 2)) (m / 2) ≡ 0
    halves = ap (λ t. bit_and t (m / 2)) or_half ∙ omega (arith, e, bit_and_digit (bit_or a b) m)

pub bit_and-bit_or_zero :
    (a b m : ℕ) → bit_and (bit_or a b) m ≡ 0 → (bit_and a m ≡ 0) × (bit_and b m ≡ 0)
bit_and-bit_or_zero a b m e = and_or_bounded (a + b) a b m (omega arith) e

or_and_bounded :
    (k a b m : ℕ) → a + b ≤ k → bit_and a m ≡ 0 → bit_and b m ≡ 0 → bit_and (bit_or a b) m ≡ 0
or_and_bounded zero zero zero m h x y = zero-bit_and m
or_and_bounded zero (suc a) b m h x y = absurd (omega arith)
or_and_bounded zero zero (suc b) m h x y = absurd (omega arith)
or_and_bounded (suc k) a b m h x y = omega (
  arith,
  bit_and_digit a m,
  bit_and_digit b m,
  bit_or_digit a b,
  bit_and_digit (bit_or a b) m,
  ap (λ t. bit_and t (m / 2)) or_half
      ∙ or_and_bounded k (a / 2) (b / 2) (m / 2) (omega arith) (omega (arith, bit_and_digit a m))
          (omega (arith, bit_and_digit b m)),
)
  where
    or_half : bit_or a b / 2 ≡ bit_or (a / 2) (b / 2)
    or_half = omega (arith, bit_or_digit a b)

pub zero-bit_and-bit_or :
    (a b m : ℕ) → bit_and a m ≡ 0 → bit_and b m ≡ 0 → bit_and (bit_or a b) m ≡ 0
zero-bit_and-bit_or a b m x y = or_and_bounded (a + b) a b m (omega arith) x y

bit_and-zero_bounded : (k a : ℕ) → a ≤ k → bit_and a 0 ≡ 0
bit_and-zero_bounded k zero h = zero-bit_and 0
bit_and-zero_bounded zero (suc a) h = absurd (omega arith)
bit_and-zero_bounded (suc k) (suc a) h =
    omega (arith, bit_and_digit (suc a) 0, bit_and-zero_bounded k (suc a / 2) (omega arith))

bit_and_15 : (a : ℕ) → bit_and a 15 ≡ a % 16
bit_and_15 a = omega (
  arith,
  bit_and_digit a 15,
  bit_and_digit (a / 2) 7,
  bit_and_digit (a / 2 / 2) 3,
  bit_and_digit (a / 2 / 2 / 2) 1,
  bit_and-zero_bounded (a / 2 / 2 / 2 / 2) (a / 2 / 2 / 2 / 2) (omega arith),
)

-- The mask 0xFF keeps the lowest byte.
pub bit_and_255 : (a : ℕ) → bit_and a 255 ≡ a % 256
bit_and_255 a = omega (
  arith,
  bit_and_digit a 255,
  bit_and_digit (a / 2) 127,
  bit_and_digit (a / 2 / 2) 63,
  bit_and_digit (a / 2 / 2 / 2) 31,
  bit_and_15 (a / 2 / 2 / 2 / 2),
)

-- A number below `2 ^ k` has that digit clear.
pub bit_and_power : (k a : ℕ) → a < 2 ^ k → bit_and a (2 ^ k) ≡ 0
bit_and_power zero zero h = zero-bit_and (2 ^ 0)
bit_and_power zero (suc a) h = absurd (omega arith)
bit_and_power (suc k) a h = omega (
  arith,
  bit_and_digit a (2 ^ suc k),
  pow-suc 2 k,
  half,
  bit_and_power k (a / 2) (omega (arith, pow-suc 2 k)),
)
  where
    halved : 2 ^ suc k / 2 ≡ 2 ^ k
    halved = omega (arith, pow-suc 2 k)

    half : bit_and (a / 2) (2 ^ suc k / 2) ≡ bit_and (a / 2) (2 ^ k)
    half = ap (bit_and (a / 2)) halved

abbrev pub same : Bool → Bool → Bool
same true b = b
same false true = false
same false false = true

same→eq : (a b : Bool) → same a b ≡ true → a ≡ b
same→eq a b h = ground arith

-- A statement about single bytes is checked at each of them.
module _ (f g : ℕ → Bool) where
  abbrev pub all_agree : ℕ → Bool
  all_agree zero = true
  all_agree (suc n) = let rest = all_agree n in if same (f n) (g n) then rest else false

  pub all_agree→eq : (n x : ℕ) → x < n → all_agree n ≡ true → f x ≡ g x
  all_agree→eq zero x lt h = absurd (omega arith)
  all_agree→eq (suc n) x lt h = ground (arith, same→eq (f n) (g n), all_agree→eq n x)

-- The same for numbers in place of truth values.
pub bytes_agree :
    (f g : ℕ → ℕ) (n x : ℕ) → x < n → all_agree (λ y. f y == g y) (λ y. true) n ≡ true → f x ≡ g x
bytes_agree f g n x lt h = ==→eq (f x) (g x) (all_agree→eq (λ y. f y == g y) (λ y. true) n x lt h)
