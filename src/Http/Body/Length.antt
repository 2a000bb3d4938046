-- ===== src/Http/Body/Length.antt =====
-- A body whose length is known, as it arrives.
use libyimmo.Base.{
  ℕ, suc, ◌+◌, ◌-◌, ◌≤◌, ◌≡◌, inl, inr, refl, ap, ◌∙◌, min, true, false, List, ◌∷◌, length, take,
  drop, ltb, leb, ◌==◌, if◌then◌else◌, Bool-cases, okay, arith,
}
use libyimmo.Http.Exchange.{body, complete, Exchange, has_flag, flag_chunked}
use libyimmo.Http.Body.{BodyCb, body_took, delivered, deliver, body_switch, body_loop, parse_body}
use libyimmo.Http.Body.Rounds.{called-okay}

-- With `size` bytes to come, and the end of the exchange behind them.
abbrev pub awaiting : Exchange → ℕ → Exchange
awaiting e size = record e { state = body; next_state = complete; body_remain = size }

-- Behind `count` bytes of them.
abbrev pub received : Exchange → ℕ → ℕ → Exchange
received e size count =
    if leb size count
    then record e { state = complete; next_state = complete; body_remain = 0 }
    else awaiting e (size - count)

module _ {S : Type 0} (body_cb : BodyCb S) where
  delivered-received :
      (e : Exchange) (size count : ℕ)
      → has_flag e.request.flags flag_chunked ≡ false
      → delivered body_cb (awaiting e size) (min count size) ≡ received e size count
  delivered-received e size count plain = elim (Bool-cases (leb size count)) [
    | inl all ↦
        let none_left : (size - min count size == 0) ≡ true = ground arith in
        let zero_left : size - min count size ≡ 0 = ground arith in
        rw all (
          rw none_left (
            rw plain (
              ap (λ l. record e { state = complete; next_state = complete; body_remain = l })
                zero_left)))
    | inr some_left ↦
        let left : (size - min count size == 0) ≡ false = ground arith in
        let same : size - min count size ≡ size - count = ground arith in
        rw some_left (rw left (ap (awaiting e) same))
  ]

  -- What the loop does behind the callback.
  loop-received :
      (fuel n len count size : ℕ) (e : Exchange) (rest : List ℕ) (s : S)
      → len ≡ count - min count size
      → (if len == 0
          then body_took n (received e size count) s
          else body_loop body_cb (suc fuel) n len (received e size count) rest s)
        ≡ body_took n (received e size count) s
  unfolding body_loop body_switch
  loop-received fuel n len count size e rest s is = elim (Bool-cases (len == 0)) [
    | inl ended ↦ rw ended refl
    | inr left ↦ let all : leb size count ≡ true = ground arith in rw left (rw all refl)
  ]

  -- A body of a given size, not 0, or what is left of it, of a request that is not chunked, and a
  -- buffer that is not empty, with a callback that returns YMO_OKAY for it: the callback gets the
  -- bytes of the buffer that belong to the body, they are taken and no more, and the exchange is
  -- complete where that is all, and awaits the rest where it is not.
  pub parse_body-received :
      (e : Exchange) (size c : ℕ) (cs : List ℕ) (s : S)
      → 1 ≤ size
      → has_flag e.request.flags flag_chunked ≡ false
      → (body_cb e.request (take (min (length (c ∷ cs)) size) (c ∷ cs)) s).0 ≡ okay
      → parse_body body_cb (awaiting e size) (c ∷ cs) s
        ≡ body_took
            (min (length (c ∷ cs)) size)
            (received e size (length (c ∷ cs)))
            (body_cb e.request (take (min (length (c ∷ cs)) size) (c ∷ cs)) s).1
  unfolding parse_body body_loop body_switch deliver
  parse_body-received e size c cs s some_bytes plain ok =
      let k : ℕ = suc (length cs) in
      let count : ℕ = min k size in
      let nonzero : (size == 0) ≡ false = ground arith in
      let there : ltb k count ≡ false = ground arith in
      let s' : S = (body_cb e.request (take count (c ∷ cs)) s).1 in
      let rest : List ℕ = drop count (c ∷ cs) in
      let fuel : suc (length cs) + 2 ≡ suc (suc k) = omega arith in
      ap (λ f. body_loop body_cb f 0 k (awaiting e size) (c ∷ cs) s) fuel
      ∙ rw nonzero (
          rw there (
            called-okay body_cb 0 k (awaiting e size) (c ∷ cs) count
              (body_cb e.request (take count (c ∷ cs)) s)
              (λ n' len' e' rest' s''.
                if len' == 0
                then body_took n' e' s''
                else body_loop body_cb (suc k) n' len' e' rest' s'')
              ok
            ∙ ap
                (λ e'.
                  if k - count == 0
                  then body_took (0 + count) e' s'
                  else body_loop body_cb (suc k) (0 + count) (k - count) e' rest s')
                (delivered-received e size k plain)
            ∙ loop-received k (0 + count) (k - count) k size e rest s' refl
            ∙ ap (λ n. body_took n (received e size k) s') (omega arith)))
