-- ===== src/Http/Headers/Steps.antt =====
-- The inner parsers on a whole name and on a whole value.
use libyimmo.Base.{
  ℕ, zero, suc, ◌+◌, ◌*◌, ◌^◌, ◌≤◌, ◌<◌, ◌≡◌, refl, sym, ap, ◌∙◌, true, false, List, [], ◌∷◌, ◌++◌,
  append_assoc, append-nil, length, ◌==◌, All, sub_size, arith,
}
use libyimmo.Http.HeaderTable.{Memory, hash_loop}
use libyimmo.Http.Exchange.{header_name, header_value_leading_space, Exchange}
use libyimmo.Http.Headers.{
  Strtol, part, hashed, is_field_token, parser_saw_cr, got_value, value_bytes, name_loop,
  value_loop,
}
use libyimmo.Http.Headers.Space.{NoCr}

-- Where a name has ended.
abbrev pub named : Exchange → List ℕ → ℕ → List ℕ → Exchange
named e buf remain name = record e {
  h_id = hash_loop e.h_id name;
  state = header_value_leading_space;
  recv_buf = (buf ++ name) ++ (0 ∷ []);
  remain = remain;
}

pub name_loop-name :
    (n : ℕ) (e : Exchange) (buf : List ℕ) (remain left : ℕ) (name rest : List ℕ)
    → All (λ c. is_field_token c ≡ true) name
    → left + length name + 1 ≡ remain
    → 1 ≤ left
    → remain < 2 ^ 64
    → name_loop n e buf remain (name ++ (0x3A ∷ rest))
      ≡ part (n + length name + 1) (named e buf left name) rest
unfolding name_loop
name_loop-name n e buf remain left [] rest h spent some_left small =
    let same : sub_size remain 1 ≡ left = omega arith in
    let space : (left == 0) ≡ false = ground arith in
    rw same (
      rw space (
        ap
          (λ k.
            part k
              (record e {
                state = header_value_leading_space;
                recv_buf = buf ++ (0 ∷ []);
                remain = left;
              })
              rest)
          (omega arith)
        ∙ ap
            (λ b.
              part (n + length {A = ℕ} [] + 1)
                (record e {
                  state = header_value_leading_space;
                  recv_buf = b ++ (0 ∷ []);
                  remain = left;
                })
                rest)
            (sym (append-nil buf))))
name_loop-name n e buf remain left (c ∷ name) rest (token, h) spent some_left small =
    let same : sub_size remain 1 ≡ left + length name + 1 = omega arith in
    let space : (left + length name + 1 == 0) ≡ false = ground arith in
    let no_colon : (c == 0x3A) ≡ false = ground arith in
    let no_cr : (c == 0x0D) ≡ false = ground arith in
    rw no_colon (
      rw no_cr (
        rw token (
          rw same (
            rw space (
              name_loop-name (n + 1) (hashed e c) (buf ++ (c ∷ [])) (left + length name + 1) left
                name rest h refl some_left (omega arith)
              ∙ ap (λ k. part k (named (hashed e c) (buf ++ (c ∷ [])) left name) rest) (omega arith)
              ∙ ap
                  (λ b.
                    part (n + suc (length name) + 1)
                      (record (named (hashed e c) (buf ++ (c ∷ [])) left name) {
                        recv_buf = b ++ (0 ∷ []);
                      })
                      rest)
                  (append_assoc buf (c ∷ []) name))))))

-- Where a value has ended.
abbrev pub valued : Memory → (List ℕ → Strtol) → Exchange → List ℕ → ℕ → Exchange
valued memory strtol e buf remain =
    record (parser_saw_cr
      (got_value memory strtol e (buf ++ (0 ∷ [])) (value_bytes buf e.hdr_value)) header_name) {
        recv_buf = buf ++ (0 ∷ []);
        remain = remain;
      }

pub value_loop-value :
    (memory : Memory) (strtol : List ℕ → Strtol) (n : ℕ) (e : Exchange) (buf : List ℕ)
    (remain left : ℕ) (value rest : List ℕ)
    → NoCr value
    → left + 2 * length value + 1 ≡ remain
    → 1 ≤ left
    → remain < 2 ^ 64
    → value_loop memory strtol n e buf remain (value ++ (0x0D ∷ rest))
      ≡ part (n + length value + 1) (valued memory strtol e (buf ++ value) left) rest
unfolding value_loop
value_loop-value memory strtol n e buf remain left [] [] h spent some_left small =
    let same : sub_size remain 1 ≡ left = omega arith in
    let space : (left == 0) ≡ false = ground arith in
    rw same (
      rw space (
        ap (λ k. part k (valued memory strtol e buf left) []) (omega arith)
        ∙ ap (λ b. part (n + length {A = ℕ} [] + 1) (valued memory strtol e b left) [])
            (sym (append-nil buf))))
value_loop-value memory strtol n e buf remain left [] (x ∷ xs) h spent some_left small =
    let same : sub_size remain 1 ≡ left = omega arith in
    let space : (left == 0) ≡ false = ground arith in
    rw same (
      rw space (
        ap (λ k. part k (valued memory strtol e buf left) (x ∷ xs)) (omega arith)
        ∙ ap (λ b. part (n + length {A = ℕ} [] + 1) (valued memory strtol e b left) (x ∷ xs))
            (sym (append-nil buf))))
value_loop-value memory strtol n e buf remain left (c ∷ []) rest (h, hs) spent some_left small =
    let no_cr : (c == 0x0D) ≡ false = ground (arith, h) in
    let same : sub_size (sub_size remain 1) 1 ≡ left + 1 = omega arith in
    let space : (left + 1 == 0) ≡ false = ground arith in
    rw no_cr (
      rw same (
        rw space (
          value_loop-value memory strtol (n + 1) e (buf ++ (c ∷ [])) (left + 1) left [] rest hs
            (omega arith) some_left (omega arith)
          ∙ ap (λ k. part k (valued memory strtol e ((buf ++ (c ∷ [])) ++ []) left) rest)
              (omega arith)
          ∙ ap (λ b. part (n + suc zero + 1) (valued memory strtol e b left) rest)
              (append_assoc buf (c ∷ []) []))))
value_loop-value memory strtol n e buf remain left (c ∷ d ∷ value) rest (h, hs) spent some_left
      small =
    let no_cr : (c == 0x0D) ≡ false = ground (arith, h) in
    let next : ℕ = left + 2 * suc (length value) + 1 in
    let same : sub_size (sub_size remain 1) 1 ≡ next = omega arith in
    let space : (next == 0) ≡ false = ground arith in
    rw no_cr (
      rw same (
        rw space (
          value_loop-value memory strtol (n + 1) e (buf ++ (c ∷ [])) next left (d ∷ value) rest hs
            refl some_left (omega arith)
          ∙ ap (λ k. part k (valued memory strtol e ((buf ++ (c ∷ [])) ++ (d ∷ value)) left) rest)
              (omega arith)
          ∙ ap (λ b. part (n + suc (suc (length value)) + 1) (valued memory strtol e b left) rest)
              (append_assoc buf (c ∷ []) (d ∷ value)))))
