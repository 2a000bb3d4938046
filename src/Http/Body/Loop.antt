-- ===== src/Http/Body/Loop.antt =====
-- The loop of the body ends, and where it can read behind the buffer: only behind a newline, which
-- `len` does not count.
use libyimmo.Base.{
  ℕ, zero, suc, ◌+◌, ◌-◌, ◌≤◌, ◌<◌, ◌≡◌, ◌⊎◌, ◌^◌, refl, true, ==→eq, All, inl, inr, min, List, [],
  ◌∷◌, length, length-drop, take, drop, ltb, ◌==◌, if◌then◌else◌, Bool-cases, sub_size, arith,
}
use mathlib.Core.Path.{subst}
use libyimmo.Base.{Status, okay}
use libyimmo.Http.Exchange.{
  HttpState, body_chunk_header, body, body_chunk_trailer, complete, Exchange,
}
use libyimmo.Http.Body.{
  BodyCb, BodyResult, body_took, body_failed, overrun, out_of_fuel, Inner, inner, inner_overrun,
  with_digit, size_loop, trailer_loop, delivered, called, behind_inner, deliver, body_switch,
  body_loop, parse_body,
}

-- One of the bytes is a newline.
abbrev pub HasNewline : List ℕ → Type 0
HasNewline [] = ⊥
HasNewline (c ∷ cs) = ((c == 0x0A) ≡ true) ⊎ HasNewline cs

-- `len` counts the bytes that are left, unless `P` holds; and `P` holds where one of them is a newline.
abbrev Counts : Type 0 → ℕ → List ℕ → Type 0
Counts P len bytes =
    (len < 2 ^ 64) × (P ⊎ (len ≡ length bytes)) × All (λ c. (c == 0x0A) ≡ true → P) bytes

newlines :
    (P : Type 0) (bytes : List ℕ) → (HasNewline bytes → P) → All (λ c. (c == 0x0A) ≡ true → P) bytes
newlines P [] h = tt
newlines P (c ∷ cs) h = ((λ e. h (inl e)), newlines P cs (λ n. h (inr n)))

newlines_drop :
    (P : Type 0) (n : ℕ) (bytes : List ℕ)
    → All (λ c. (c == 0x0A) ≡ true → P) bytes
    → All (λ c. (c == 0x0A) ≡ true → P) (drop n bytes)
newlines_drop P zero bytes h = h
newlines_drop P (suc n) [] h = h
newlines_drop P (suc n) (b ∷ bs) (h, hs) = newlines_drop P n bs hs

-- What is left is shorter and counted; a read behind the buffer needs `P`.
abbrev Shorter : Type 0 → ℕ → Inner → Type 0
Shorter P k (inner n e rest len) = (length rest < k) × Counts P len rest
Shorter P k inner_overrun = P

counted_next :
    (P : Type 0) (len c : ℕ) (cs : List ℕ)
    → 1 ≤ len
    → Counts P len (c ∷ cs)
    → Counts P (sub_size len 1) cs
counted_next P len c cs some_len (fits, inl p, (is, lf)) = (omega arith, inl p, lf)
counted_next P len c cs some_len (fits, inr e, (is, lf)) = (omega arith, inr (omega arith), lf)

size_loop-Shorter :
    (P : Type 0) (k n len : ℕ) (e : Exchange) (bytes : List ℕ)
    → length bytes ≤ k
    → 1 ≤ len
    → Counts P len bytes
    → Shorter P k (size_loop n len e bytes)
unfolding size_loop
size_loop-Shorter P k n len e [] h some_len (fits, inl p, lf) = p
size_loop-Shorter P k n len e [] h some_len (fits, inr none_left, lf) = absurd (omega arith)
size_loop-Shorter P k n len e (c ∷ cs) h some_len counts =
    let next : Counts P (sub_size len 1) cs = counted_next P len c cs some_len counts in
    elim (Bool-cases (c == 0x0A)) [
      | inl lf ↦ rw lf (omega arith, (counts.0, inl (counts.2.0 lf), counts.2.1))
      | inr other ↦ elim (Bool-cases (sub_size len 1 == 0)) [
        | inl ended ↦
            rw (other, ended)
              (omega arith, subst (λ l. Counts P l cs) (==→eq (sub_size len 1) 0 ended) next)
        | inr more ↦
            rw (other, more)
              (size_loop-Shorter P k (n + 1) (sub_size len 1) (with_digit e c) cs (omega arith)
                (ground arith) next)
      ]
    ]

trailer_loop-Shorter :
    (P : Type 0) (k n len : ℕ) (e : Exchange) (bytes : List ℕ)
    → length bytes ≤ k
    → 1 ≤ len
    → Counts P len bytes
    → Shorter P k (trailer_loop n len e bytes)
unfolding trailer_loop
trailer_loop-Shorter P k n len e [] h some_len (fits, inl p, lf) = p
trailer_loop-Shorter P k n len e [] h some_len (fits, inr none_left, lf) = absurd (omega arith)
trailer_loop-Shorter P k n len e (c ∷ cs) h some_len counts =
    let next : Counts P (sub_size len 1) cs = counted_next P len c cs some_len counts in
    elim (Bool-cases (c == 0x0A)) [
      | inl lf ↦ rw lf (omega arith, (counts.0, inl (counts.2.0 lf), counts.2.1))
      | inr other ↦ elim (Bool-cases (sub_size len 1 == 0)) [
        | inl ended ↦
            rw (other, ended)
              (omega arith, subst (λ l. Counts P l cs) (==→eq (sub_size len 1) 0 ended) next)
        | inr more ↦
            rw (other, more)
              (trailer_loop-Shorter P k (n + 1) (sub_size len 1) e cs (omega arith) (ground arith)
                next)
      ]
    ]

module _ {S : Type 0} (body_cb : BodyCb S) (P : Type 0) where
  -- The function returns; or it reads behind the buffer, and `P` holds.
  abbrev pub Returns : BodyResult S → Type 0
  Returns (body_took n e s) = Unit
  Returns (body_failed status e s) = Unit
  Returns overrun = P
  Returns out_of_fuel = ⊥

  Returns-again :
      (n len : ℕ) (e : Exchange) (s : S) (more : BodyResult S)
      → (1 ≤ len → Returns more)
      → Returns (if len == 0 then body_took n e s else more)
  Returns-again n len e s more h = elim (Bool-cases (len == 0)) [
    | inl ended ↦ rw ended tt
    | inr left ↦ rw left (h (ground arith))
  ]

  Returns-behind_inner :
      (k n : ℕ) (s : S) (i : Inner) (more : ℕ → ℕ → Exchange → List ℕ → S → BodyResult S)
      → Shorter P k i
      → ((n' len' : ℕ) (e' : Exchange) (rest : List ℕ) (s' : S)
          → length rest < k
          → Counts P len' rest
          → Returns (more n' len' e' rest s'))
      → Returns (behind_inner body_cb n s i more)
  Returns-behind_inner k n s (inner m e rest len) more h go = go (n + m) len e rest s h.0 h.1
  Returns-behind_inner k n s inner_overrun more h go = h

  Returns-called :
      (n len : ℕ) (e : Exchange) (bytes : List ℕ) (available : ℕ) (status : Status) (s : S)
      (more : ℕ → ℕ → Exchange → List ℕ → S → BodyResult S)
      → ((n' : ℕ) (e' : Exchange) (s' : S)
          → Returns (more n' (len - available) e' (drop available bytes) s'))
      → Returns (called body_cb n len e bytes available (status, s) more)
  unfolding called
  Returns-called n len e bytes available okay s more go =
      go (n + available) (delivered body_cb e available) s
  Returns-called n len e bytes available _ s more go = tt

  Returns-deliver :
      (k n len : ℕ) (e : Exchange) (bytes : List ℕ) (s : S)
      (more : ℕ → ℕ → Exchange → List ℕ → S → BodyResult S)
      → 1 ≤ len
      → length bytes ≤ k
      → Counts P len bytes
      → ((n' len' : ℕ) (e' : Exchange) (rest : List ℕ) (s' : S)
          → length rest < k
          → Counts P len' rest
          → Returns (more n' len' e' rest s'))
      → Returns (more n len (record e { state = complete }) bytes s)
      → Returns (deliver body_cb n len e bytes s more)
  unfolding deliver
  Returns-deliver k n len e bytes s more some_len h counts go done =
      elim (Bool-cases (e.body_remain == 0)) [
        | inl all ↦ rw all done
        | inr left ↦ elim (Bool-cases (ltb (length bytes) (min len e.body_remain))) [
          | inl short ↦ rw left (rw short (past counts short))
          | inr there ↦
              let some_there : 1 ≤ min len e.body_remain = ground arith in
              let enough : min len e.body_remain ≤ length bytes = ground arith in
              rw left (
                rw there (
                  Returns-called n len e bytes (min len e.body_remain)
                    (body_cb e.request (take (min len e.body_remain) bytes) s).0
                    (body_cb e.request (take (min len e.body_remain) bytes) s).1 more
                    (λ n' e' s'.
                      go n' (len - min len e.body_remain) e' (drop (min len e.body_remain) bytes) s'
                        (omega (arith, length-drop (min len e.body_remain) bytes))
                        (counted_drop (min len e.body_remain) counts))))
        ]
      ]
    where
      past : Counts P len bytes → ltb (length bytes) (min len e.body_remain) ≡ true → P
      past (fits, inl p, lf) short = p
      past (fits, inr counted, lf) short = absurd (ground arith)

      counted_drop : (m : ℕ) → Counts P len bytes → Counts P (len - m) (drop m bytes)
      counted_drop m (fits, inl p, lf) = (omega arith, inl p, newlines_drop P m bytes lf)
      counted_drop m (fits, inr counted, lf) =
          (omega arith, inr (omega (arith, length-drop m bytes)), newlines_drop P m bytes lf)

  -- A loop that has nothing left to do, which takes fuel for one more round.
  Returns-complete :
      (fuel n len : ℕ) (e : Exchange) (bytes : List ℕ) (s : S)
      → 1 ≤ fuel
      → Returns (body_loop body_cb fuel n len (record e { state = complete }) bytes s)
  unfolding body_loop body_switch
  Returns-complete zero n len e bytes s h = absurd (omega arith)
  Returns-complete (suc fuel) n len e bytes s h = tt

  body_switch-Returns :
      (state : HttpState) (k n len : ℕ) (e : Exchange) (bytes : List ℕ) (s : S)
      (more : ℕ → ℕ → Exchange → List ℕ → S → BodyResult S)
      → 1 ≤ len
      → length bytes ≤ k
      → Counts P len bytes
      → ((n' len' : ℕ) (e' : Exchange) (rest : List ℕ) (s' : S)
          → length rest < k
          → Counts P len' rest
          → Returns (more n' len' e' rest s'))
      → Returns (more n len (record e { state = complete }) bytes s)
      → Returns (body_switch body_cb state n len e bytes s more)
  unfolding body_switch
  body_switch-Returns body_chunk_header k n len e bytes s more some_len h counts go done =
      Returns-behind_inner k n s (size_loop 0 len e bytes) more
        (size_loop-Shorter P k 0 len e bytes h some_len counts) go
  body_switch-Returns body_chunk_trailer k n len e bytes s more some_len h counts go done =
      Returns-behind_inner k n s (trailer_loop 0 len e bytes) more
        (trailer_loop-Shorter P k 0 len e bytes h some_len counts) go
  body_switch-Returns body k n len e bytes s more some_len h counts go done =
      Returns-deliver k n len e bytes s more some_len h counts go done
  body_switch-Returns _ k n len e bytes s more some_len h counts go done = tt

  abbrev again : ℕ → ℕ → ℕ → Exchange → List ℕ → S → BodyResult S
  again fuel n len e rest s =
      if len == 0 then body_took n e s else body_loop body_cb fuel n len e rest s

  body_loop-Returns :
      (k n len : ℕ) (e : Exchange) (bytes : List ℕ) (s : S)
      → 1 ≤ len
      → length bytes ≤ k
      → Counts P len bytes
      → Returns (body_loop body_cb (suc (suc k)) n len e bytes s)
  unfolding body_loop
  body_loop-Returns zero n len e bytes s some_len h counts =
      body_switch-Returns e.state zero n len e bytes s (again (suc zero)) some_len h counts
        (λ n' len' e' rest s' shorter counted. absurd (omega arith))
        (Returns-again n len (record e { state = complete }) s
          (body_loop body_cb (suc zero) n len (record e { state = complete }) bytes s)
          (λ left. Returns-complete (suc zero) n len e bytes s (omega arith)))
  body_loop-Returns (suc k) n len e bytes s some_len h counts =
      body_switch-Returns e.state (suc k) n len e bytes s (again (suc (suc k))) some_len h counts
        (λ n' len' e' rest s' shorter counted.
          Returns-again n' len' e' s' (body_loop body_cb (suc (suc k)) n' len' e' rest s')
            (λ left. body_loop-Returns k n' len' e' rest s' left (omega arith) counted))
        (Returns-again n len (record e { state = complete }) s
          (body_loop body_cb (suc (suc k)) n len (record e { state = complete }) bytes s)
          (λ left. Returns-complete (suc (suc k)) n len e bytes s (omega arith)))

-- On every buffer that is not empty and shorter than 2^64, whatever its state and the callback, the body parser does not
-- run out of fuel, which is what it starts with; and it reads behind the buffer only where the
-- buffer holds a newline.
pub parse_body-Returns :
    {S : Type 0} (body_cb : BodyCb S) (e : Exchange) (c : ℕ) (cs : List ℕ) (s : S)
    → length (c ∷ cs) < 2 ^ 64
    → Returns body_cb (HasNewline (c ∷ cs)) (parse_body body_cb e (c ∷ cs) s)
unfolding parse_body
parse_body-Returns body_cb e c cs s fits =
    let P : Type 0 = HasNewline (c ∷ cs) in
    let enough : suc (suc (suc (length cs))) ≡ suc (length cs) + 2 = omega arith in
    subst (λ fuel. Returns body_cb P (body_loop body_cb fuel 0 (suc (length cs)) e (c ∷ cs) s))
      enough
      (body_loop-Returns body_cb P (suc (length cs)) 0 (suc (length cs)) e (c ∷ cs) s (omega arith)
        (omega arith) (fits, inr refl, newlines P (c ∷ cs) (λ h. h)))
