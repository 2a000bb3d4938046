-- ===== src/Http/Read/Content.antt =====
-- The body behind a request head, read by the loop of `ymo_proto_http_read`.
use libyimmo.Base.{
  ℕ, suc, ◌+◌, ◌^◌, ◌≤◌, ◌<◌, ◌≡◌, refl, sym, ap, ap₂, ◌∙◌, min, true, false, List, [], ◌∷◌,
  append-nil, take-append-drop, length, length-take, take, drop, ltb, leb, All, okay, arith,
}
use libyimmo.Http.HeaderTable.{Memory}
use libyimmo.Http.Exchange.{HttpState, body, complete, Exchange, has_flag, flag_chunked}
use libyimmo.Http.Headers.{Strtol}
use libyimmo.Http.Body.{BodyCb, parse_body}
use libyimmo.Http.Body.Rounds.{at_header}
use libyimmo.Http.Body.Chunks.{
  Chunk, IsChunk, Accepts, fed, at_complete, chunked_body, chunks-fuel, parse_body-chunked_body,
}
use libyimmo.Http.Body.Length.{awaiting, received, parse_body-received}
use libyimmo.Http.Read.{assess, behind_body, read_switch, read_loop, start_body}
use libyimmo.Http.Read.Fields.{again, again-rest}

module _ {S : Type 0} (memory : Memory) (strtol : List ℕ → Strtol) (body_cb : BodyCb S) where
  chunk_round :
      (fuel n : ℕ) (e : Exchange) (next : HttpState) (bytes : List ℕ) (s : S)
      → 1 ≤ length bytes
      → read_loop memory strtol body_cb (suc fuel) n (at_header e next) bytes s
        ≡ behind_body
            (parse_body body_cb (at_header e next) bytes s)
            (again memory strtol body_cb fuel n bytes)
  unfolding read_loop read_switch
  chunk_round fuel n e next [] s h = absurd (omega arith)
  chunk_round fuel n e next (c ∷ cs) s h = refl

  loop_over :
      (fuel n : ℕ) (e : Exchange) (s : S)
      → read_loop memory strtol body_cb (suc fuel) n e [] s ≡ assess n e [] s
  unfolding read_loop
  loop_over fuel n e s = refl

  loop_stops :
      (fuel n : ℕ) (e : Exchange) (rest : List ℕ) (s : S)
      → read_loop memory strtol body_cb (suc fuel) n (record e { state = complete }) rest s
        ≡ assess n (record e { state = complete }) rest s
  unfolding read_loop read_switch
  loop_stops fuel n e [] s = refl
  loop_stops fuel n e (c ∷ cs) s = refl

  -- Behind the headers of a request without a Content-Length, whose Transfer-Encoding is chunked: where
  -- the next buffer is its body, and the callback returns YMO_OKAY, two rounds bring the loop
  -- to the end of the exchange, behind all the bytes, and the callback has had every chunk's bytes.
  pub read_loop-chunked_body :
      (fuel n : ℕ) (e : Exchange) (chunks : List Chunk) (s : S)
      → e.request.content_length ≡ 0
      → has_flag e.request.flags flag_chunked ≡ true
      → All IsChunk chunks
      → Accepts body_cb e.request chunks s
      → length (chunked_body chunks) < 2 ^ 64
      → read_loop memory strtol body_cb (suc (suc fuel)) n (start_body e) (chunked_body chunks) s
        ≡ assess
            (n + length (chunked_body chunks))
            (at_complete body_cb e)
            []
            (fed body_cb e.request chunks s)
  unfolding start_body
  read_loop-chunked_body fuel n e chunks s no_length chunked are ok small =
      let none : ltb 0 e.request.content_length ≡ false = ground arith in
      let bytes : List ℕ = chunked_body chunks in
      let start : start_body e ≡ at_header e body = rw none (rw chunked refl) in
      ap (λ e'. read_loop memory strtol body_cb (suc (suc fuel)) n e' bytes s) start
      ∙ chunk_round (suc fuel) n e body bytes s (omega (arith, chunks-fuel body_cb chunks are))
      ∙ ap (λ r. behind_body r (again memory strtol body_cb (suc fuel) n bytes))
          (parse_body-chunked_body body_cb e body chunks s are ok chunked small)
      ∙ again-rest memory strtol body_cb (suc fuel) n (length bytes) (at_complete body_cb e) bytes
          bytes [] (fed body_cb e.request chunks s) (sym (append-nil bytes)) refl
      ∙ loop_over fuel (n + length bytes) (at_complete body_cb e) (fed body_cb e.request chunks s)

  length_round :
      (fuel n size c : ℕ) (e : Exchange) (cs : List ℕ) (s : S)
      → read_loop memory strtol body_cb (suc fuel) n (awaiting e size) (c ∷ cs) s
        ≡ behind_body
            (parse_body body_cb (awaiting e size) (c ∷ cs) s)
            (again memory strtol body_cb fuel n (c ∷ cs))
  unfolding read_loop read_switch
  length_round fuel n size c e cs s = refl

  -- Behind the headers of a request with a Content-Length and no chunks: where the next buffer has that
  -- many bytes or more, and the callback returns YMO_OKAY, two rounds bring the loop to the end of the
  -- exchange, the callback has had that many bytes, and those behind them are left.
  pub read_loop-content :
      (fuel n c : ℕ) (e : Exchange) (cs : List ℕ) (s : S)
      → 1 ≤ e.request.content_length
      → e.request.content_length ≤ length (c ∷ cs)
      → has_flag e.request.flags flag_chunked ≡ false
      → (body_cb e.request (take e.request.content_length (c ∷ cs)) s).0 ≡ okay
      → read_loop memory strtol body_cb (suc (suc fuel)) n (start_body e) (c ∷ cs) s
        ≡ assess
            (n + e.request.content_length)
            (record e { state = complete; next_state = complete; body_remain = 0 })
            (drop e.request.content_length (c ∷ cs))
            (body_cb e.request (take e.request.content_length (c ∷ cs)) s).1
  unfolding start_body
  read_loop-content fuel n c e cs s some_bytes there plain ok =
      let size : ℕ = e.request.content_length in
      let bytes : List ℕ = c ∷ cs in
      let some_length : ltb 0 size ≡ true = ground arith in
      let start : start_body e ≡ awaiting e size = rw some_length refl in
      let all : min (length bytes) size ≡ size = omega arith in
      let done : Exchange = record e { state = complete; next_state = complete; body_remain = 0 } in
      let over : leb size (length bytes) ≡ true = ground arith in
      let taken : received e size (length bytes) ≡ done = rw over refl in
      ap (λ e'. read_loop memory strtol body_cb (suc (suc fuel)) n e' bytes s) start
      ∙ length_round (suc fuel) n size c e cs s
      ∙ ap (λ r. behind_body r (again memory strtol body_cb (suc fuel) n bytes))
          (parse_body-received body_cb e size c cs s some_bytes plain
            (ap (λ k. (body_cb e.request (take k bytes) s).0) all ∙ ok))
      ∙ ap₂
          (λ k e'.
            again memory strtol body_cb (suc fuel) n bytes k e'
              (body_cb e.request (take k bytes) s).1)
          all taken
      ∙ again-rest memory strtol body_cb (suc fuel) n size done bytes (take size bytes)
          (drop size bytes) (body_cb e.request (take size bytes) s).1
          (sym (take-append-drop size bytes)) (omega (arith, length-take size bytes))
      ∙ loop_stops fuel (n + size) done (drop size bytes) (body_cb e.request (take size bytes) s).1
