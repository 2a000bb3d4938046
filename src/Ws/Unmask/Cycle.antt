-- ===== src/Ws/Unmask/Cycle.antt =====
-- The masking of RFC 6455, and what each loop of `unmask_payload` does towards it.
use libyimmo.Base.{
  ℕ, zero, suc, ◌+◌, ◌-◌, ◌*◌, ◌%◌, ◌^◌, ◌≤◌, ◌<◌, ◌≡◌, refl, sym, ap, ap₂, ◌∙◌, bit_xor, true,
  List, [], ◌∷◌, ◌++◌, append_assoc, length, take, All, IsByte, ◌&&◌, ltb, get_or, arith,
}
use libyimmo.Base.Bits.{bit_xor_fields, bit_xor-lt}
use mathlib.Core.Path.{subst}
use libyimmo.Ws.Unmask.{
  Cursor, key_byte, next_mod, sub_size, word, word_bytes, get_mask32, byte_loop, word_loop,
}

-- RFC 6455, 5.3: byte `i` of the payload is combined with byte `i` modulo 4 of the key.
abbrev pub cycle : List ℕ → ℕ → List ℕ → List ℕ
cycle key m [] = []
cycle key m (b ∷ bs) = bit_xor b (key_byte key m) ∷ cycle key (m + 1) bs

pub cycle_mod :
    (key : List ℕ) (bs : List ℕ) (m n : ℕ) → m % 4 ≡ n % 4 → cycle key m bs ≡ cycle key n bs
cycle_mod key [] m n e = refl
cycle_mod key (b ∷ bs) m n e =
    ap₂ ◌∷◌ (ap (λ i. bit_xor b (get_or key i 0)) e)
      (cycle_mod key bs (m + 1) (n + 1) (omega arith))

pub length-cycle : (key : List ℕ) (m : ℕ) (bs : List ℕ) → length (cycle key m bs) ≡ length bs
length-cycle key m [] = refl
length-cycle key m (b ∷ bs) = ap suc (length-cycle key (m + 1) bs)

-- What the function has written and has yet to write.
abbrev pub pending : List ℕ → Cursor → List ℕ
pending key c = c.output ++ cycle key c.mask_mod (take c.parse_remain c.input)

-- `n` bytes were read, and the whole output is unchanged.
pub record Moves (key : List ℕ) (n : ℕ) (c d : Cursor) : Type 0 where
  pub whole : pending key d ≡ pending key c
  pub left : d.parse_remain + n ≡ c.parse_remain
  pub read : d.c_in ≡ c.c_in + n
  pub room : d.parse_remain ≤ length d.input
  pub turn : d.mask_mod % 4 ≡ (c.mask_mod + n) % 4
  pub bytes : All IsByte c.input → All IsByte d.input

pub Moves-trans :
    (key : List ℕ) (n k t : ℕ) (c d e : Cursor)
    → n + k ≡ t
    → Moves key n c d
    → Moves key k d e
    → Moves key t c e
Moves-trans key n k t c d e total p q = record {
  whole = q.whole ∙ p.whole;
  left = omega arith;
  read = omega arith;
  room = q.room;
  turn = omega arith;
  bytes = λ h. q.bytes (p.bytes h);
}

abbrev taken : List ℕ → Cursor → ℕ → List ℕ → ℕ → Cursor
taken key c b rest r = record {
  c_in = c.c_in + 1;
  input = rest;
  output = c.output ++ (bit_xor b (key_byte key c.mask_mod) ∷ []);
  mask_mod = next_mod c.mask_mod;
  parse_remain = r;
}

byte_Moves :
    (key : List ℕ) (c : Cursor) (b : ℕ) (rest : List ℕ) (r : ℕ)
    → c.input ≡ b ∷ rest
    → c.parse_remain ≡ suc r
    → suc r ≤ length (b ∷ rest)
    → Moves key 1 c (taken key c b rest r)
byte_Moves key c b rest r ei er h = record {
  whole =
      append_assoc c.output (bit_xor b (key_byte key c.mask_mod) ∷ []) _
      ∙ ap (λ t. c.output ++ (bit_xor b (key_byte key c.mask_mod) ∷ t))
          (cycle_mod key (take r rest) (next_mod c.mask_mod) (c.mask_mod + 1) (omega arith))
      ∙ ap₂ (λ n xs. c.output ++ cycle key c.mask_mod (take n xs)) (sym er) (sym ei);
  left = omega arith;
  read = refl;
  room = omega arith;
  turn = omega arith;
  bytes = λ h. (subst (All IsByte) ei h).1;
}

abbrev pub at : ℕ → List ℕ → List ℕ → ℕ → ℕ → Cursor
at a xs out m r = record { c_in = a; input = xs; output = out; mask_mod = m; parse_remain = r }

pub byte_loop-Moves :
    (key : List ℕ) (n a : ℕ) (xs out : List ℕ) (m r : ℕ)
    → n ≤ r
    → r ≤ length xs
    → Moves key n (at a xs out m r) (byte_loop key n (at a xs out m r))
unfolding byte_loop
byte_loop-Moves key zero a xs out m r h room = record {
  whole = refl;
  left = omega arith;
  read = omega arith;
  room = room;
  turn = omega arith;
  bytes = λ h. h;
}
byte_loop-Moves key (suc n) a (b ∷ xs) out m (suc r) h room =
    let c = at a (b ∷ xs) out m (suc r) in
    Moves-trans key 1 n (suc n) c (taken key c b xs r) (byte_loop key n (taken key c b xs r))
      (omega arith) (byte_Moves key c b xs r refl refl room)
      (byte_loop-Moves key n (a + 1) xs (out ++ (bit_xor b (key_byte key m) ∷ [])) (next_mod m) r
        (omega arith) (omega arith))
byte_loop-Moves key (suc n) a xs out m zero h room = absurd (omega arith)
byte_loop-Moves key (suc n) a [] out m (suc r) h room = absurd (omega arith)

abbrev xor_bytes : List ℕ → ℕ → ℕ → ℕ → ℕ → ℕ → List ℕ
xor_bytes key m b0 b1 b2 b3 = cycle key m (b0 ∷ b1 ∷ b2 ∷ b3 ∷ [])

word_bytes-word :
    (b0 b1 b2 b3 : ℕ)
    → IsByte b0 × IsByte b1 × IsByte b2 × IsByte b3
    → word_bytes (word b0 b1 b2 b3) ≡ b0 ∷ b1 ∷ b2 ∷ b3 ∷ []
word_bytes-word b0 b1 b2 b3 (h0, h1, h2, h3) =
    ap₂ ◌∷◌ (omega arith)
      (ap₂ ◌∷◌ (omega arith) (ap₂ ◌∷◌ (omega arith) (ap₂ ◌∷◌ (omega arith) refl)))

bit_xor-word :
    (b0 b1 b2 b3 k0 k1 k2 k3 : ℕ)
    → IsByte b0 × IsByte b1 × IsByte b2
    → IsByte k0 × IsByte k1 × IsByte k2
    → bit_xor (word b0 b1 b2 b3) (word k0 k1 k2 k3)
      ≡ word (bit_xor b0 k0) (bit_xor b1 k1) (bit_xor b2 k2) (bit_xor b3 k3)
bit_xor-word b0 b1 b2 b3 k0 k1 k2 k3 (h0, h1, h2) (g0, g1, g2) = omega (
  arith,
  bit_xor_fields 8 b3 b2 k3 k2 h2 g2,
  bit_xor_fields 8 (b3 * 2 ^ 8 + b2) b1 (k3 * 2 ^ 8 + k2) k1 h1 g1,
  bit_xor_fields 8 ((b3 * 2 ^ 8 + b2) * 2 ^ 8 + b1) b0 ((k3 * 2 ^ 8 + k2) * 2 ^ 8 + k1) k0 h0 g0,
)

nth_key-IsByte : (key : List ℕ) (i : ℕ) → All IsByte key → IsByte (get_or key i 0)
nth_key-IsByte [] i h = omega arith
nth_key-IsByte (k ∷ key) zero h = h.0
nth_key-IsByte (k ∷ key) (suc i) h = nth_key-IsByte key i h.1

pub key_byte_mod : (key : List ℕ) (m n : ℕ) → m % 4 ≡ n % 4 → key_byte key m ≡ key_byte key n
key_byte_mod key m n e = ap (λ i. get_or key i 0) e

-- One word of the middle loop writes the same four bytes.
word_step :
    (key : List ℕ) (m b0 b1 b2 b3 : ℕ)
    → All IsByte key
    → IsByte b0 × IsByte b1 × IsByte b2 × IsByte b3
    → word_bytes (bit_xor (word b0 b1 b2 b3) (get_mask32 key m)) ≡ xor_bytes key m b0 b1 b2 b3
unfolding get_mask32
word_step key m b0 b1 b2 b3 hk (h0, h1, h2, h3) =
    let m1 = next_mod m in
    let m2 = next_mod m1 in
    let m3 = next_mod m2 in
    let at_key : (i : ℕ) → IsByte (key_byte key i) = λ i. nth_key-IsByte key (i % 4) hk in
    let out : (b i : ℕ) → IsByte b → IsByte (bit_xor b (key_byte key i)) =
      λ b i h. bit_xor-lt 8 b (key_byte key i) h (at_key i) in
    ap word_bytes (
      bit_xor-word b0 b1 b2 b3 (key_byte key m) (key_byte key m1) (key_byte key m2)
        (key_byte key m3) (h0, h1, h2) (at_key m, at_key m1, at_key m2))
    ∙ word_bytes-word _ _ _ _ (out b0 m h0, out b1 m1 h1, out b2 m2 h2, out b3 m3 h3)
    ∙ ap₂ (λ x t. bit_xor b0 (key_byte key m) ∷ x ∷ t) (turn b1 m1 (m + 1) (omega arith))
        (ap₂ (λ x y. x ∷ y ∷ []) (turn b2 m2 (m + 1 + 1) (omega arith))
          (turn b3 m3 (m + 1 + 1 + 1) (omega arith)))
  where
    turn : (b i j : ℕ) → i % 4 ≡ j % 4 → bit_xor b (key_byte key i) ≡ bit_xor b (key_byte key j)
    turn b i j e = ap (bit_xor b) (key_byte_mod key i j e)

pub Moves-none :
    (key : List ℕ) (n : ℕ) (c : Cursor) → n ≡ 0 → c.parse_remain ≤ length c.input → Moves key n c c
Moves-none key n c e room = record {
  whole = refl;
  left = omega arith;
  read = omega arith;
  room = room;
  turn = omega arith;
  bytes = λ h. h;
}

word-Moves :
    (key : List ℕ) (a m b0 b1 b2 b3 r : ℕ) (xs out : List ℕ)
    → All IsByte key
    → IsByte b0 × IsByte b1 × IsByte b2 × IsByte b3
    → 4 ≤ r
    → r ≤ length (b0 ∷ b1 ∷ b2 ∷ b3 ∷ xs)
    → r < 2 ^ 64
    → Moves key 4 (at a (b0 ∷ b1 ∷ b2 ∷ b3 ∷ xs) out m r) (
        at
          (a + 4)
          xs
          (out ++ word_bytes (bit_xor (word b0 b1 b2 b3) (get_mask32 key m)))
          m
          (sub_size r 4))
word-Moves key a m b0 b1 b2 b3 r xs out hk hb h room small = record {
  whole =
      append_assoc out (word_bytes (bit_xor (word b0 b1 b2 b3) (get_mask32 key m))) _
      ∙ ap₂ (λ ws t. out ++ (ws ++ t)) (word_step key m b0 b1 b2 b3 hk hb)
          (ap (λ n. cycle key m (take n xs)) fewer
            ∙ cycle_mod key (take (r - 4) xs) m (m + 1 + 1 + 1 + 1) (omega arith))
      ∙ ap (λ n. out ++ cycle key m (take n (b0 ∷ b1 ∷ b2 ∷ b3 ∷ xs))) split;
  left = omega arith;
  read = omega arith;
  room = omega arith;
  turn = omega arith;
  bytes = λ h. h.1.1.1.1;
}
  where
    fewer : sub_size r 4 ≡ r - 4
    fewer = omega arith

    split : suc (suc (suc (suc (r - 4)))) ≡ r
    split = omega arith

pub word_loop-Moves :
    (key : List ℕ) (rounds e a m r : ℕ) (xs out : List ℕ)
    → All IsByte key
    → All IsByte xs
    → e % 4 ≡ 0
    → e ≤ r
    → e ≤ 4 * rounds
    → r ≤ length xs
    → r < 2 ^ 64
    → Moves key e (at a xs out m r) (word_loop rounds (get_mask32 key m) e (at a xs out m r))
unfolding word_loop
word_loop-Moves key zero e a m r xs out hk hx four h small room big =
    Moves-none key e (at a xs out m r) (omega arith) room
word_loop-Moves key (suc rounds) zero a m r xs out hk hx four h small room big =
    Moves-none key zero (at a xs out m r) refl room
word_loop-Moves key (suc rounds) (suc e) a m r (b0 ∷ b1 ∷ b2 ∷ b3 ∷ xs) out hk hx four h small room
      big =
    let after = out ++ word_bytes (bit_xor (word b0 b1 b2 b3) (get_mask32 key m)) in
    let (h0, (h1, (h2, (h3, hxs)))) = hx in
    let goes_on : (ltb 0 (suc e) && ltb 0 r) ≡ true = ground arith in
    rw goes_on (
      Moves-trans key 4 (sub_size (suc e) 4) (suc e) _ (at (a + 4) xs after m (sub_size r 4)) _
        (omega arith)
        (word-Moves key a m b0 b1 b2 b3 r xs out hk (h0, h1, h2, h3) (omega arith) room big)
        (word_loop-Moves key rounds (sub_size (suc e) 4) (a + 4) m (sub_size r 4) xs after hk hxs
          (omega arith) (omega arith) (omega arith) (omega arith) (omega arith)))
word_loop-Moves key (suc rounds) (suc e) a m r xs out hk hx four h small room big =
    absurd (omega arith)
