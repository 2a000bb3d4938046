-- ===== src/Ws/Parse/Key.antt =====
-- The masking key keeps a session well-formed.
use libyimmo.Base.{
  ℕ, zero, suc, ◌+◌, ◌%◌, ◌≤◌, ◌≡◌, inl, inr, refl, false, List, [], ◌∷◌, length, set, ◌==◌,
  Bool-cases, arith,
}
use mathlib.Core.Path.{subst, sym}
use libyimmo.Ws.Session.{masking_key, Session}
use libyimmo.Ws.Header.{with_frame, key_complete, key_loop, parse_masking_key}
use libyimmo.Ws.Parse.Invariant.{Shape, IsValid, Keeps}

length-set : (xs : List ℕ) (i v : ℕ) → length (set xs i v) ≡ length xs
length-set [] i v = refl
length-set (x ∷ xs) zero v = refl
length-set (x ∷ xs) (suc i) v = omega (arith, length-set xs i v)

key_loop-Keeps :
    (s : Session) (n room : ℕ) (bs : List ℕ)
    → s.frame_in.parse_state ≡ masking_key
    → IsValid s.frame_in
    → 1 ≤ n + length bs
    → n + length bs ≤ room
    → Keeps room (key_loop s n bs)
unfolding key_loop key_complete
key_loop-Keeps s n room [] st v h k = (omega arith, omega arith, v)
key_loop-Keeps s n room (b ∷ bs) st v h k =
    let f = record s.frame_in {
      masking_key = set s.frame_in.masking_key s.frame_in.idx b;
      idx = (s.frame_in.idx + 1) % 256;
    } in
    let shape : Shape masking_key s.frame_in = subst (λ t. Shape t s.frame_in) st v.shape in
    let same_length = length-set s.frame_in.masking_key s.frame_in.idx b in
    let key : length f.masking_key ≡ 4 = omega (arith, same_length, v.key_fits) in
    elim (Bool-cases (f.idx == 4)) [
      | inr more ↦ rw more (
          key_loop-Keeps (with_frame s f) (n + 1) room bs st
            (record {
              block_fits = v.block_fits;
              key_fits = key;
              shape =
                  subst (λ t. Shape t f) (sym st)
                    (shape.0, shape.1, ground (arith, more, shape.2), shape.3, shape.4);
            })
            (omega arith) (omega arith))
      | inl last ↦ elim (Bool-cases (s.frame_in.len == 0)) [
        | inl empty ↦
            rw (last, empty)
              (
                omega arith,
                omega arith,
                record { block_fits = v.block_fits; key_fits = key; shape = shape.4 },
              )
        | inr some_len ↦
            rw (last, some_len)
              (
                omega arith,
                omega arith,
                record {
                  block_fits = v.block_fits;
                  key_fits = key;
                  shape = (shape.0, ground (arith, some_len, shape.1), shape.4);
                },
              )
      ]
    ]

pub parse_masking_key-Keeps :
    (s : Session) (b : ℕ) (bs : List ℕ)
    → s.frame_in.parse_state ≡ masking_key
    → IsValid s.frame_in
    → Keeps (length (b ∷ bs)) (parse_masking_key s (b ∷ bs))
unfolding parse_masking_key
parse_masking_key-Keeps s b bs st v =
    let shape : Shape masking_key s.frame_in = subst (λ t. Shape t s.frame_in) st v.shape in
    let masked : (s.frame_in.masked == 0) ≡ false = ground (arith, shape.3) in
    rw masked (key_loop-Keeps s 0 (length (b ∷ bs)) (b ∷ bs) st v (omega arith) (omega arith))
