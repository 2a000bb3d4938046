-- ===== src/Http/Headers/Space.antt =====
-- The space that a header's value may take.
use libyimmo.Base.{
  ℕ, zero, suc, ◌+◌, ◌-◌, ◌*◌, ◌%◌, ◌^◌, ◌≤◌, ◌<◌, ◌≡◌, ◌≢◌, refl, ap, ◌∙◌, false, List, [], ◌∷◌,
  ◌++◌, append_assoc, length, ◌==◌, All, efbig, sub_size, arith,
}
use libyimmo.Http.HeaderTable.{Memory}
use libyimmo.Http.Exchange.{Exchange}
use libyimmo.Http.Headers.{Strtol, part, part_refused, value_loop}

abbrev pub NoCr : List ℕ → Type 0
NoCr cs = All (λ c. c ≢ 0x0D) cs

-- The exchange with the bytes in its buffer, each of which has taken two, less one for the last.
abbrev pub stored : Exchange → List ℕ → ℕ → List ℕ → Exchange
stored e buf remain cs = record e {
  recv_buf = buf ++ cs;
  remain = sub_size remain (2 * length cs - 1);
}

no_cr : (c : ℕ) → c ≢ 0x0D → (c == 0x0D) ≡ false
no_cr c h = ground (arith, h)

module _ (memory : Memory) (strtol : List ℕ → Strtol) where
  last-odd :
      (n : ℕ) (e : Exchange) (buf : List ℕ) (remain c : ℕ)
      → c ≢ 0x0D
      → remain % 2 ≡ 1
      → remain < 2 ^ 64
      → remain ≢ 1
      → value_loop memory strtol n e buf remain (c ∷ [])
        ≡ part (n + 1) (stored e buf remain (c ∷ [])) []
  unfolding value_loop
  last-odd n e buf remain c h odd small other =
      let space : (sub_size remain 1 == 0) ≡ false = ground (arith, other) in
      rw (no_cr c h) (rw space refl)

  -- A header value without its CR, of at most 2^62 bytes, where the space in the receive buffer is
  -- odd and is not twice the number of the bytes less one: every byte is stored and none is
  -- refused, however many there are.
  pub value_loop-odd :
      (n : ℕ) (e : Exchange) (buf : List ℕ) (remain c : ℕ) (cs : List ℕ)
      → NoCr (c ∷ cs)
      → remain % 2 ≡ 1
      → remain < 2 ^ 64
      → remain ≢ 2 * length cs + 1
      → length cs < 2 ^ 62
      → value_loop memory strtol n e buf remain (c ∷ cs)
        ≡ part (n + suc (length cs)) (stored e buf remain (c ∷ cs)) []
  unfolding value_loop
  value_loop-odd n e buf remain c [] (h, hs) odd small other short =
      last-odd n e buf remain c h odd small (λ one. other (omega arith))
  value_loop-odd n e buf remain c (d ∷ cs) (h, hs) odd small other short =
      let left : ℕ = sub_size (sub_size remain 1) 1 in
      let space : (left == 0) ≡ false = ground arith in
      let rest =
        value_loop-odd (n + 1) e (buf ++ (c ∷ [])) left d cs hs (omega arith) (omega arith)
          (λ same. other (omega arith)) (omega arith) in
      let spent : sub_size left (2 * suc (length cs) - 1)
          ≡ sub_size remain (2 * suc (suc (length cs)) - 1) =
        omega arith in
      rw (no_cr c h) (
        rw space (
          rest
          ∙ ap (λ k. part k (stored e (buf ++ (c ∷ [])) left (d ∷ cs)) []) (omega arith)
          ∙ ap
              (λ r.
                part (n + suc (suc (length cs)))
                  (record e { recv_buf = (buf ++ (c ∷ [])) ++ (d ∷ cs); remain = r }) [])
              spent
          ∙ ap
              (λ b.
                part (n + suc (suc (length cs)))
                  (record e {
                    recv_buf = b;
                    remain = sub_size remain (2 * suc (suc (length cs)) - 1);
                  })
                  [])
              (append_assoc buf (c ∷ []) (d ∷ cs))))

  -- A header value without its CR, where the space in the receive buffer is even and not 0, and
  -- the bytes are more than half of it: the value is refused with EFBIG, and the exchange is left
  -- as it is.
  pub value_loop-even :
      (k n : ℕ) (e : Exchange) (buf : List ℕ) (cs : List ℕ)
      → NoCr cs
      → 1 ≤ k
      → k < length cs
      → 2 * k < 2 ^ 64
      → value_loop memory strtol n e buf (2 * k) cs ≡ part_refused efbig e
  unfolding value_loop
  value_loop-even k n e buf [] h some_space more small = absurd (omega arith)
  value_loop-even k n e buf (c ∷ []) h some_space more small = absurd (omega arith)
  value_loop-even zero n e buf (c ∷ d ∷ cs) h some_space more small = absurd (omega arith)
  value_loop-even (suc zero) n e buf (c ∷ d ∷ cs) (h, hs) some_space more small =
      rw (no_cr c h) refl
  value_loop-even (suc (suc k)) n e buf (c ∷ d ∷ cs) (h, hs) some_space more small =
      let left : sub_size (sub_size (2 * suc (suc k)) 1) 1 ≡ 2 * suc k = omega arith in
      let space : (2 * suc k == 0) ≡ false = ground arith in
      rw (no_cr c h) (
        rw left (
          rw space (
            value_loop-even (suc k) (n + 1) e (buf ++ (c ∷ [])) (d ∷ cs) hs (omega arith)
              (omega arith) (omega arith))))
