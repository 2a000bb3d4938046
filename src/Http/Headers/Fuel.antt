-- ===== src/Http/Headers/Fuel.antt =====
-- The header parser ends, and takes no more bytes than there are.
use libyimmo.Base.{
  ℕ, zero, suc, ◌+◌, ◌≤◌, ◌≡◌, inl, inr, Option, none, some, List, [], ◌∷◌, ◌++◌, length, min, ◌==◌,
  Bool-cases, sub_size, arith,
}
use libyimmo.Http.HeaderTable.{Memory}
use libyimmo.Http.Exchange.{
  HttpState, header_name, header_value_leading_space, header_value, Exchange, Parsed, took, refused,
  parse_done,
}
use libyimmo.Http.Headers.{
  Strtol, Part, part, part_refused, part_done, hashed, is_field_token, name_loop, value_loop,
  behind_part, headers_switch, headers_loop, parse_headers,
}

-- A part that has counted up to `total` with the bytes behind it, and at least to `low`.
abbrev Leaves : ℕ → ℕ → Part → Type 0
Leaves low total (part n e rest) = (low ≤ n) × (n + length rest ≡ total)
Leaves low total (part_refused s e) = Unit

Leaves-part_done :
    (low total n : ℕ) (e : Exchange) (buf : List ℕ) (remain : ℕ) (rest : List ℕ)
    → low ≤ n
    → n + length rest ≡ total
    → Leaves low total (part_done n e buf remain rest)
Leaves-part_done low total n e buf remain rest h k = elim (Bool-cases (remain == 0)) [
  | inl full ↦ rw full tt
  | inr space ↦ rw space (h, k)
]

name_loop-Leaves :
    (low total n : ℕ) (e : Exchange) (buf : List ℕ) (remain : ℕ) (bytes : List ℕ)
    → low ≤ n + min 1 (length bytes)
    → n + length bytes ≡ total
    → Leaves low total (name_loop n e buf remain bytes)
unfolding name_loop
name_loop-Leaves low total n e buf remain [] h k =
    Leaves-part_done low total n e buf remain [] (omega arith) k
name_loop-Leaves low total n e buf remain (c ∷ cs) h k =
    let ends = λ (e' : Exchange) (buf' : List ℕ) (remain' : ℕ).
      Leaves-part_done low total (n + 1) e' buf' remain' cs (omega arith) (omega arith) in
    let more =
      name_loop-Leaves low total (n + 1) (hashed e c) (buf ++ (c ∷ [])) (sub_size remain 1) cs
        (omega arith) (omega arith) in
    elim (Bool-cases (c == 0x3A)) [
      | inl colon ↦ rw colon (ends _ _ _)
      | inr other ↦ elim (Bool-cases (c == 0x0D)) [
        | inl cr ↦ rw other (rw cr (ends _ _ _))
        | inr no_cr ↦ elim (Bool-cases (is_field_token c)) [
          | inl token ↦ elim (Bool-cases (sub_size remain 1 == 0)) [
            | inl full ↦ rw other (rw no_cr (rw token (rw full tt)))
            | inr space ↦ rw other (rw no_cr (rw token (rw space more)))
          ]
          | inr bad ↦ rw other (rw no_cr (rw bad tt))
        ]
      ]
    ]

module _ (memory : Memory) (strtol : List ℕ → Strtol) where
  value_loop-Leaves :
      (low total n : ℕ) (e : Exchange) (buf : List ℕ) (remain : ℕ) (bytes : List ℕ)
      → low ≤ n + min 1 (length bytes)
      → n + length bytes ≡ total
      → Leaves low total (value_loop memory strtol n e buf remain bytes)
  unfolding value_loop
  value_loop-Leaves low total n e buf remain [] h k =
      Leaves-part_done low total n e buf remain [] (omega arith) k
  value_loop-Leaves low total n e buf remain (c ∷ []) h k =
      let ends = λ (e' : Exchange) (buf' : List ℕ) (remain' : ℕ).
        Leaves-part_done low total (n + 1) e' buf' remain' [] (omega arith) (omega arith) in
      elim (Bool-cases (c == 0x0D)) [
        | inl cr ↦ rw cr (ends _ _ _)
        | inr other ↦ rw other (ends _ _ _)
      ]
  value_loop-Leaves low total n e buf remain (c ∷ d ∷ cs) h k =
      let ends = λ (e' : Exchange) (buf' : List ℕ) (remain' : ℕ).
        Leaves-part_done low total (n + 1) e' buf' remain' (d ∷ cs) (omega arith) (omega arith) in
      let left = sub_size (sub_size remain 1) 1 in
      let more =
        value_loop-Leaves low total (n + 1) e (buf ++ (c ∷ [])) left (d ∷ cs) (omega arith)
          (omega arith) in
      elim (Bool-cases (c == 0x0D)) [
        | inl cr ↦ rw cr (ends _ _ _)
        | inr other ↦ elim (Bool-cases (left == 0)) [
          | inl full ↦ rw other (rw full tt)
          | inr space ↦ rw other (rw space more)
        ]
      ]

-- A result there is, and what it has taken is at most `total`.
abbrev pub EndsWithin : ℕ → Option Parsed → Type 0
EndsWithin total none = ⊥
EndsWithin total (some (took n e)) = n ≤ total
EndsWithin total (some (refused s e)) = Unit

EndsWithin-parse_done :
    (total n : ℕ) (e : Exchange) (buf : List ℕ) (remain : ℕ)
    → n ≤ total
    → EndsWithin total (some (parse_done n e buf remain))
EndsWithin-parse_done total n e buf remain h = elim (Bool-cases (remain == 0)) [
  | inl full ↦ rw full tt
  | inr space ↦ rw space h
]

EndsWithin-behind_part :
    (total n : ℕ) (p : Part) (len : ℕ) (more : ℕ → Exchange → List ℕ → Option Parsed)
    → Leaves 1 len p
    → ((k : ℕ) (e : Exchange) (rest : List ℕ)
        → 1 ≤ k
        → k + length rest ≡ len
        → EndsWithin total (more (n + k) e rest))
    → EndsWithin total (behind_part n p more)
EndsWithin-behind_part total n (part k e rest) len more (h, same) go = go k e rest h same
EndsWithin-behind_part total n (part_refused s e) len more h go = tt

module _ (memory : Memory) (strtol : List ℕ → Strtol) where
  headers_switch-EndsWithin :
      (state : HttpState) (total n : ℕ) (e : Exchange) (buf : List ℕ) (remain c : ℕ) (cs : List ℕ)
      (again : ℕ → Exchange → List ℕ → ℕ → List ℕ → Option Parsed)
      → n + suc (length cs) ≡ total
      → ((n' : ℕ) (e' : Exchange) (buf' : List ℕ) (remain' : ℕ) (rest : List ℕ)
          → length rest ≤ length cs
          → n' + length rest ≡ total
          → EndsWithin total (again n' e' buf' remain' rest))
      → EndsWithin total (headers_switch state memory strtol n e buf remain c cs again)
  unfolding headers_switch
  headers_switch-EndsWithin header_name total n e buf remain c cs again h go =
      EndsWithin-behind_part total n (name_loop 0 e buf remain (c ∷ cs)) (suc (length cs)) _
        (name_loop-Leaves 1 (suc (length cs)) 0 e buf remain (c ∷ cs) (omega arith) (omega arith))
        (λ k e' rest some_taken same. go (n + k) e' _ _ rest (omega arith) (omega arith))
  headers_switch-EndsWithin header_value total n e buf remain c cs again h go =
      EndsWithin-behind_part total n (value_loop memory strtol 0 e buf remain (c ∷ cs))
        (suc (length cs)) _
        (value_loop-Leaves memory strtol 1 (suc (length cs)) 0 e buf remain (c ∷ cs) (omega arith)
          (omega arith))
        (λ k e' rest some_taken same. go (n + k) e' _ _ rest (omega arith) (omega arith))
  headers_switch-EndsWithin header_value_leading_space total n e buf remain c cs again h go =
      elim (Bool-cases (c == 0x20)) [
        | inl blank ↦ elim (Bool-cases (remain == 0)) [
          | inl full ↦ rw blank (rw full tt)
          | inr space ↦ rw blank (rw space (go (n + 1) e buf remain cs (omega arith) (omega arith)))
        ]
        | inr other ↦
            let e' : Exchange = record e { hdr_value = some (length buf); state = header_value } in
            rw other (
              EndsWithin-behind_part total n (value_loop memory strtol 0 e' buf remain (c ∷ cs))
                (suc (length cs)) _
                (value_loop-Leaves memory strtol 1 (suc (length cs)) 0 e' buf remain (c ∷ cs)
                  (omega arith) (omega arith))
                (λ k e'' rest some_taken same. go (n + k) e'' _ _ rest (omega arith) (omega arith)))
      ]
  headers_switch-EndsWithin _ total n e buf remain c cs again h go =
      EndsWithin-parse_done total n e buf remain (omega arith)

  headers_loop-EndsWithin :
      (fuel total n : ℕ) (e : Exchange) (buf : List ℕ) (remain : ℕ) (bytes : List ℕ)
      → length bytes ≤ fuel
      → n + length bytes ≡ total
      → EndsWithin total (headers_loop fuel memory strtol n e buf remain bytes)
  unfolding headers_loop
  headers_loop-EndsWithin fuel total n e buf remain [] h k =
      EndsWithin-parse_done total n e buf remain (omega arith)
  headers_loop-EndsWithin zero total n e buf remain (c ∷ cs) h k = absurd (omega arith)
  headers_loop-EndsWithin (suc fuel) total n e buf remain (c ∷ cs) h k =
      headers_switch-EndsWithin e.state total n e buf remain c cs
        (λ n' e' buf' remain' rest. headers_loop fuel memory strtol n' e' buf' remain' rest) k
        (λ n' e' buf' remain' rest shorter same.
          headers_loop-EndsWithin fuel total n' e' buf' remain' rest (omega arith) same)

  -- The header parser ends on every buffer, whatever its state, and reports no more bytes than the
  -- buffer has.
  pub parse_headers-EndsWithin :
      (e : Exchange) (buffer : List ℕ)
      → EndsWithin (length buffer) (parse_headers memory strtol e buffer)
  unfolding parse_headers
  parse_headers-EndsWithin e buffer =
      headers_loop-EndsWithin (length buffer) (length buffer) 0 e e.recv_buf e.remain buffer
        (omega arith) (omega arith)
