-- ===== src/Http/Body/Rounds.antt =====
-- The rounds of the loop over a chunked body.
use libyimmo.Base.{
  ℕ, suc, ◌+◌, ◌-◌, ◌^◌, ◌≤◌, ◌<◌, ◌≡◌, refl, ap, ap₂, ◌∙◌, min, true, false, List, [], ◌∷◌, ◌++◌,
  length, length-append, drop, take-append, drop-append, ltb, ◌==◌, if◌then◌else◌, All, Status,
  okay, sub_size, arith,
}
use libyimmo.Http.Exchange.{
  body_chunk_header, body, body_chunk_trailer, HttpState, Exchange, has_flag, flag_chunked,
}
use libyimmo.Http.Body.{
  BodyCb, BodyResult, body_took, overrun, inner, size_end, trailer_loop, delivered, called,
  behind_inner, deliver, body_switch, body_loop,
}
use libyimmo.Http.Body.Digits.{is_hex, size_of, sized, size_loop-digits}

abbrev pub at_header : Exchange → HttpState → Exchange
at_header e next = record e { state = body_chunk_header; next_state = next; body_remain = 0 }

trailer_loop-line :
    (n len : ℕ) (e : Exchange) (rest : List ℕ)
    → 2 ≤ len
    → len < 2 ^ 64
    → trailer_loop n len e (0x0D ∷ 0x0A ∷ rest)
      ≡ inner (n + 2) (record e { state = e.next_state }) rest (len - 1)
unfolding trailer_loop
trailer_loop-line n len e rest enough small =
    let less : sub_size len 1 ≡ len - 1 = omega arith in
    let space : (len - 1 == 0) ≡ false = ground arith in
    rw less (
      rw space (ap (λ k. inner k (record e { state = e.next_state }) rest (len - 1)) (omega arith)))

module _ {S : Type 0} (body_cb : BodyCb S) where
  pub called-okay :
      (n len : ℕ) (e : Exchange) (bytes : List ℕ) (available : ℕ) (r : Status × S)
      (more : ℕ → ℕ → Exchange → List ℕ → S → BodyResult S)
      → r.0 ≡ okay
      → called body_cb n len e bytes available r more
        ≡ more
            (n + available)
            (len - available)
            (delivered body_cb e available)
            (drop available bytes)
            r.1
  unfolding called
  called-okay n len e bytes available r more h =
      ap (λ st. called body_cb n len e bytes available (st, r.1) more) h

  pub loop-size :
      (fuel n len : ℕ) (e : Exchange) (next : HttpState) (digits rest : List ℕ) (s : S)
      → All (λ d. is_hex d ≡ true) digits
      → size_of digits < 2 ^ 64
      → len < 2 ^ 64
      → length digits + 2 ≤ len
      → body_loop body_cb (suc fuel) n len (at_header e next) (digits ++ (0x0D ∷ 0x0A ∷ rest)) s
        ≡ body_loop body_cb fuel
            (n + (0 + length digits + 2))
            (len - (length digits + 1))
            (size_end (sized (at_header e next) (size_of digits)))
            rest
            s
  unfolding body_loop body_switch
  loop-size fuel n len e next digits rest s hex small len_small enough =
      let space : (len - (length digits + 1) == 0) ≡ false = ground arith in
      ap
        (λ i. behind_inner body_cb n s i (λ n' len' e' rest' s'.
          if len' == 0 then body_took n' e' s' else body_loop body_cb fuel n' len' e' rest' s'))
        (size_loop-digits 0 len (at_header e next) digits rest hex small len_small enough)
      ∙ rw space refl

  pub loop-trailer :
      (fuel n len : ℕ) (e : Exchange) (rest : List ℕ) (s : S)
      → 2 ≤ len
      → len < 2 ^ 64
      → body_loop body_cb
          (suc fuel)
          n
          len
          (record e { state = body_chunk_trailer })
          (0x0D ∷ 0x0A ∷ rest)
          s
        ≡ body_loop body_cb fuel (n + (0 + 2)) (len - 1) (record e { state = e.next_state }) rest s
  unfolding body_loop body_switch
  loop-trailer fuel n len e rest s enough small =
      let space : (len - 1 == 0) ≡ false = ground arith in
      ap
        (λ i. behind_inner body_cb n s i (λ n' len' e' rest' s'.
          if len' == 0 then body_took n' e' s' else body_loop body_cb fuel n' len' e' rest' s'))
        (trailer_loop-line 0 len (record e { state = body_chunk_trailer }) rest enough small)
      ∙ rw space refl

  pub loop-content :
      (fuel n len : ℕ) (e : Exchange) (content rest : List ℕ) (s : S)
      → (body_cb e.request content s).0 ≡ okay
      → has_flag e.request.flags flag_chunked ≡ true
      → 1 ≤ length content
      → length content < len
      → body_loop body_cb
          (suc fuel)
          n
          len
          (record e { state = body; body_remain = length content })
          (content ++ rest)
          s
        ≡ body_loop body_cb fuel
            (n + length content)
            (len - length content)
            (record e {
              state = body_chunk_trailer;
              next_state = body_chunk_header;
              body_remain = 0;
            })
            rest
            (body_cb e.request content s).1
  unfolding body_loop body_switch deliver
  loop-content fuel n len e content rest s ok chunked some_bytes enough =
      let all : min len (length content) ≡ length content = omega arith in
      let nonzero : (length content == 0) ≡ false = ground arith in
      let there : ltb (length (content ++ rest)) (length content) ≡ false =
        ground (arith, length-append content rest) in
      let space : (len - length content == 0) ≡ false = ground arith in
      let none_left : (length content - length content == 0) ≡ true = ground arith in
      let here : Exchange = record e { state = body; body_remain = length content } in
      let more : ℕ → ℕ → Exchange → List ℕ → S → BodyResult S = λ n' len' e' rest' s'.
        if len' == 0 then body_took n' e' s' else body_loop body_cb fuel n' len' e' rest' s' in
      let zero_left : length content - length content ≡ 0 = omega arith in
      let taken : delivered body_cb here (length content) ≡ record e {
        state = body_chunk_trailer;
        next_state = body_chunk_header;
        body_remain = 0;
      } =
        rw none_left (
          rw chunked (
            ap
              (λ l. record e {
                state = body_chunk_trailer;
                next_state = body_chunk_header;
                body_remain = l;
              })
              zero_left)) in
      rw nonzero (
        rw all (
          rw there (
            ap
              (λ b.
                called body_cb n len here (content ++ rest) (length content) (body_cb e.request b s)
                  more)
              (take-append content rest (length content) refl)
            ∙ called-okay n len here (content ++ rest) (length content)
                (body_cb e.request content s) more ok
            ∙ rw space (
                ap₂
                  (λ e' r.
                    body_loop body_cb fuel (n + length content) (len - length content) e' r
                      (body_cb e.request content s).1)
                  taken (drop-append content rest (length content) refl)))))

  pub loop-no_content :
      (fuel n len : ℕ) (e : Exchange) (s : S)
      → 1 ≤ len
      → 1 ≤ e.body_remain
      → body_loop body_cb (suc fuel) n len (record e { state = body }) [] s ≡ overrun
  unfolding body_loop body_switch deliver
  loop-no_content fuel n len e s some_len some_bytes =
      let nonzero : (e.body_remain == 0) ≡ false = ground arith in
      let there : ltb 0 (min len e.body_remain) ≡ true = ground arith in rw nonzero (rw there refl)
