-- ===== src/Ws/Unmask/Payload.antt =====
-- Unmasking is the exclusive or with the four key bytes in turn, wherever the buffer lies.
use libyimmo.Base.{
  ℕ, zero, suc, ◌+◌, ◌-◌, ◌%◌, ◌^◌, ◌≤◌, ◌<◌, min, ◌≡◌, ◌⊎◌, inl, inr, refl, sym, ap, ap₂, ◌∙◌,
  List, [], ◌++◌, append-nil, length, take, All, IsByte, arith,
}
use mathlib.Core.Path.{subst}
use native.Mathlib.Decide.{dec_le}
use libyimmo.Ws.Unmask.{
  Cursor, key_byte, next_mod, sub_size, ptr32_floor, ptr32_ceil, word, get_mask32, byte_loop,
  word_loop, unmask_payload,
}
use libyimmo.Ws.Unmask.Cycle.{
  cycle, cycle_mod, pending, Moves, Moves-trans, Moves-none, at, byte_loop-Moves, word_loop-Moves,
  key_byte_mod,
}

get_mask32_mod : (key : List ℕ) (m n : ℕ) → m % 4 ≡ n % 4 → get_mask32 key m ≡ get_mask32 key n
unfolding get_mask32
get_mask32_mod key m n e =
    let m2 = next_mod (next_mod m) in
    let n2 = next_mod (next_mod n) in
    ap₂ (λ b0 b1. word b0 b1 (key_byte key m2) (key_byte key (next_mod m2)))
      (key_byte_mod key m n e) (key_byte_mod key (next_mod m) (next_mod n) (omega arith))
    ∙ ap₂ (λ b2 b3. word (key_byte key n) (key_byte key (next_mod n)) b2 b3)
        (key_byte_mod key m2 n2 (omega arith))
        (key_byte_mod key (next_mod m2) (next_mod n2) (omega arith))

word_loop_idle :
    (rounds mask e a m : ℕ) (xs out : List ℕ)
    → word_loop rounds mask e (at a xs out m 0) ≡ at a xs out m 0
unfolding word_loop
word_loop_idle zero mask e a m xs out = refl
word_loop_idle (suc rounds) mask e a m xs out = ground arith

-- Building the word mask moves the position by a whole turn.
mask-Moves :
    (key : List ℕ) (a m r : ℕ) (xs out : List ℕ)
    → r ≤ length xs
    → Moves key 0 (at a xs out m r) (at a xs out ((m + 4) % 256) r)
mask-Moves key a m r xs out room = record {
  whole = ap (λ t. out ++ t) (cycle_mod key (take r xs) ((m + 4) % 256) m (omega arith));
  left = omega arith;
  read = omega arith;
  room = room;
  turn = omega arith;
  bytes = λ h. h;
}

-- The middle loop, from a read pointer on a boundary or with nothing left to read.
words-Moves :
    (key : List ℕ) (a m r pe rounds : ℕ) (xs out : List ℕ)
    → All IsByte key
    → All IsByte xs
    → (r ≡ 0) ⊎ (a % 4 ≡ 0)
    → r ≤ rounds
    → r ≤ length xs
    → a + r ≡ pe
    → pe + 4 < 2 ^ 64
    → (n : ℕ) × (n ≤ r)
      × Moves key n
          (at a xs out m r)
          (word_loop rounds (get_mask32 key m) (sub_size (ptr32_floor pe) a) (at a xs out m r))
words-Moves key a m zero pe rounds xs out hk hx start enough room ends fits = (
  0,
  omega arith,
  subst (Moves key 0 (at a xs out m 0))
      (sym (word_loop_idle rounds (get_mask32 key m) (sub_size (ptr32_floor pe) a) a m xs out))
      (Moves-none key 0 (at a xs out m 0) refl room),
)
words-Moves key a m (suc r) pe rounds xs out hk hx (inl e) enough room ends fits =
    absurd (omega arith)
words-Moves key a m (suc r) pe rounds xs out hk hx (inr e) enough room ends fits =
    let n = sub_size (ptr32_floor pe) a in
    (
      n,
      omega arith,
      word_loop-Moves key rounds n a m (suc r) xs out hk hx (omega arith) (omega arith)
          (omega arith) room (omega arith),
    )

-- From the end of the first loop to the end of the function.
later-Moves :
    (key : List ℕ) (a m r pe rounds : ℕ) (xs out : List ℕ)
    → All IsByte key
    → All IsByte xs
    → (r ≡ 0) ⊎ (a % 4 ≡ 0)
    → r ≤ rounds
    → r ≤ length xs
    → a + r ≡ pe
    → pe + 4 < 2 ^ 64
    → let c2 =
        word_loop rounds
          (get_mask32 key m)
          (sub_size (ptr32_floor pe) a)
          (at a xs out ((m + 4) % 256) r) in
      Moves key r (at a xs out m r) (byte_loop key (sub_size pe c2.c_in) c2)
later-Moves key a m r pe rounds xs out hk hx start enough room ends fits =
    let m' = (m + 4) % 256 in
    let c1 = at a xs out m' r in
    let until = sub_size (ptr32_floor pe) a in
    let (n, small, words) =
      words-Moves key a m' r pe rounds xs out hk hx start enough room ends fits in
    let same_mask = get_mask32_mod key m' m (omega arith) in
    let c2 = word_loop rounds (get_mask32 key m) until c1 in
    let words' : Moves key n c1 c2 =
      subst (λ k. Moves key n c1 (word_loop rounds k until c1)) same_mask words in
    let k = sub_size pe c2.c_in in
    let rest : k ≡ r - n = omega (arith, words'.read) in
    let bytes : Moves key k c2 (byte_loop key k c2) =
      byte_loop-Moves key k c2.c_in c2.input c2.output c2.mask_mod c2.parse_remain
        (omega (arith, rest, words'.left)) words'.room in
    Moves-trans key 0 r r (at a xs out m r) c1 (byte_loop key k c2) (omega arith)
      (mask-Moves key a m r xs out room)
      (Moves-trans key n k r c1 c2 (byte_loop key k c2) (omega (arith, rest)) words' bytes)

finished :
    (key : List ℕ) (n : ℕ) (c d : Cursor)
    → Moves key n c d
    → c.parse_remain ≡ n
    → d.output ≡ pending key c
finished key n c d p e =
    sym (append-nil d.output)
    ∙ ap (λ r. d.output ++ cycle key d.mask_mod (take r d.input)) none_left
    ∙ p.whole
  where
    none_left : 0 ≡ d.parse_remain
    none_left = omega (arith, p.left)

boundary_of :
    (addr parse_len before r a : ℕ)
    → before ≡ min parse_len (ptr32_ceil addr - addr)
    → r + before ≡ parse_len
    → a ≡ addr + before
    → (r ≡ 0) ⊎ (a % 4 ≡ 0)
boundary_of addr parse_len before r a e left read =
    elim (dec_le parse_len (ptr32_ceil addr - addr)) [
      | yes h ↦ inl (omega arith)
      | no h ↦ inr (omega arith)
    ]

-- For a buffer anywhere in memory, `unmask_payload` writes the first `parse_len` bytes combined
-- with the key from the position `m` on, and leaves the position of the next byte.
pub unmask_payload-cycle :
    (key : List ℕ) (m addr parse_len : ℕ) (buffer : List ℕ)
    → All IsByte key
    → All IsByte buffer
    → parse_len ≤ length buffer
    → addr + parse_len + 4 < 2 ^ 64
    → let c = unmask_payload key m addr buffer parse_len in
      (c.output ≡ cycle key m (take parse_len buffer)) × (c.mask_mod % 4 ≡ (m + parse_len) % 4)
unfolding unmask_payload
unmask_payload-cycle key m addr parse_len buffer hk hb room fits =
    let before = min parse_len (ptr32_ceil addr - addr) in
    let c0 = at addr buffer [] m parse_len in
    let c1 = byte_loop key before c0 in
    let first = byte_loop-Moves key before addr buffer [] m parse_len (omega arith) room in
    let at_boundary : (c1.parse_remain ≡ 0) ⊎ (c1.c_in % 4 ≡ 0) = boundary in
    let pe = addr + parse_len in
    let same_end : c1.c_in + c1.parse_remain ≡ pe = omega (arith, first.left, first.read) in
    let later =
      later-Moves key c1.c_in c1.mask_mod c1.parse_remain pe parse_len c1.input c1.output hk
        (first.bytes hb) at_boundary (omega (arith, first.left)) first.room same_end fits in
    (
      finished key c1.parse_remain c1 _ later refl ∙ first.whole,
      omega (arith, later.turn, first.turn, first.left),
    )
  where
    before : ℕ
    before = min parse_len (ptr32_ceil addr - addr)

    moves :
        Moves key before
          (at addr buffer [] m parse_len)
          (byte_loop key before (at addr buffer [] m parse_len))
    moves = byte_loop-Moves key before addr buffer [] m parse_len (omega arith) room

    boundary :
        ((byte_loop key before (at addr buffer [] m parse_len)).parse_remain ≡ 0)
        ⊎ ((byte_loop key before (at addr buffer [] m parse_len)).c_in % 4 ≡ 0)
    boundary = boundary_of addr parse_len before _ _ refl moves.left moves.read
