-- ===== src/Http/Body/Chunks.antt =====
-- A chunked body in one buffer.
use libyimmo.Base.{
  ℕ, suc, ◌+◌, ◌-◌, ◌*◌, ◌^◌, ◌≤◌, ◌<◌, ◌≡◌, refl, ap, ap₂, ◌∙◌, true, false, List, [], ◌∷◌, ◌++◌,
  length, length-append, ◌==◌, All, okay, arith,
}
use libyimmo.Http.Exchange.{
  body_chunk_header, body, body_chunk_trailer, complete, HttpState, Request, Exchange, has_flag,
  flag_chunked,
}
use libyimmo.Http.Body.{BodyCb, body_took, overrun, size_end, body_switch, body_loop, parse_body}
use libyimmo.Http.Body.Digits.{is_hex, size_of, sized}
use libyimmo.Http.Body.Rounds.{at_header, loop-size, loop-trailer, loop-content, loop-no_content}

-- The digits of a size, and the bytes.
pub record Chunk : Type 0 where
  pub digits : List ℕ
  pub content : List ℕ

-- RFC 7230, 4.1: a chunk is not empty, and its size is that of its bytes.
pub record IsChunk (c : Chunk) : Type 0 where
  pub hex : All (λ d. is_hex d ≡ true) c.digits
  pub is_size : size_of c.digits ≡ length c.content
  pub some_bytes : 1 ≤ length c.content

abbrev pub chunk_line : Chunk → List ℕ → List ℕ
chunk_line c rest = c.digits ++ (0x0D ∷ 0x0A ∷ (c.content ++ (0x0D ∷ 0x0A ∷ rest)))

-- The chunks, and the last one, of size 0, without trailers.
abbrev pub chunked_body : List Chunk → List ℕ
chunked_body [] = 0x30 ∷ 0x0D ∷ 0x0A ∷ 0x0D ∷ 0x0A ∷ []
chunked_body (c ∷ cs) = chunk_line c (chunked_body cs)

module _ {S : Type 0} (body_cb : BodyCb S) where
  -- The user's state behind the chunks: the callback has had the bytes of each, in order.
  abbrev pub fed : Request → List Chunk → S → S
  fed r [] s = s
  fed r (c ∷ cs) s = fed r cs (body_cb r c.content s).1

  abbrev pub Accepts : Request → List Chunk → S → Type 0
  Accepts r [] s = Unit
  Accepts r (c ∷ cs) s = ((body_cb r c.content s).0 ≡ okay) × Accepts r cs (body_cb r c.content s).1

  abbrev pub at_complete : Exchange → Exchange
  at_complete e = record e { state = complete; next_state = complete; body_remain = 0 }

  loop-last :
      (fuel n len : ℕ) (e : Exchange) (next : HttpState) (s : S)
      → 5 ≤ len
      → len < 2 ^ 64
      → body_loop body_cb (suc (suc (suc fuel))) n len (at_header e next) (chunked_body []) s
        ≡ body_took (n + 5) (at_complete e) s
  unfolding body_loop body_switch
  loop-last fuel n len e next s enough small =
      loop-size body_cb (suc (suc fuel)) n len e next (0x30 ∷ []) (0x0D ∷ 0x0A ∷ []) s (refl, tt)
        (omega arith) small (omega arith)
      ∙ loop-trailer body_cb (suc fuel) (n + (0 + 1 + 2)) (len - 2) (at_complete e) [] s
          (omega arith) (omega arith)
      ∙ ap (λ k. body_took k (at_complete e) s) (omega arith)

  size_end-chunk :
      (e : Exchange) (next : HttpState) (c : Chunk)
      → IsChunk c
      → size_end (sized (at_header e next) (size_of c.digits))
        ≡ record e { state = body; next_state = body_chunk_trailer; body_remain = length c.content }
  size_end-chunk e next c h =
      let is : size_of c.digits ≡ length c.content = h.is_size in
      let many : 1 ≤ length c.content = h.some_bytes in
      let nonzero : (length c.content == 0) ≡ false = ground arith in
      ap (λ k. size_end (sized (at_header e next) k)) is ∙ rw nonzero refl

  loop-chunk :
      (fuel n len : ℕ) (e : Exchange) (next : HttpState) (c : Chunk) (rest : List ℕ) (s : S)
      → IsChunk c
      → (body_cb e.request c.content s).0 ≡ okay
      → has_flag e.request.flags flag_chunked ≡ true
      → length c.digits + length c.content + 4 ≤ len
      → len < 2 ^ 64
      → body_loop body_cb (suc (suc (suc fuel))) n len (at_header e next) (chunk_line c rest) s
        ≡ body_loop body_cb fuel
            (n + (length c.digits + length c.content + 4))
            (len - (length c.digits + length c.content + 2))
            (at_header e body_chunk_header)
            rest
            (body_cb e.request c.content s).1
  loop-chunk fuel n len e next c rest s is ok chunked enough small =
      let same : size_of c.digits ≡ length c.content = is.is_size in
      let many : 1 ≤ length c.content = is.some_bytes in
      let s' : S = (body_cb e.request c.content s).1 in
      loop-size body_cb (suc (suc fuel)) n len e next c.digits (c.content ++ (0x0D ∷ 0x0A ∷ rest)) s
        is.hex (omega arith) small (omega arith)
      ∙ ap
          (λ e'.
            body_loop body_cb (suc (suc fuel)) (n + (0 + length c.digits + 2))
              (len - (length c.digits + 1)) e' (c.content ++ (0x0D ∷ 0x0A ∷ rest)) s)
          (size_end-chunk e next c is)
      ∙ loop-content body_cb (suc fuel) (n + (0 + length c.digits + 2))
          (len - (length c.digits + 1)) (record e { next_state = body_chunk_trailer }) c.content
          (0x0D ∷ 0x0A ∷ rest) s ok chunked many (omega arith)
      ∙ loop-trailer body_cb fuel (n + (0 + length c.digits + 2) + length c.content)
          (len - (length c.digits + 1) - length c.content) (at_header e body_chunk_header) rest s'
          (omega arith) (omega arith)
      ∙ ap₂ (λ k l. body_loop body_cb fuel k l (at_header e body_chunk_header) rest s')
          (omega arith) (omega arith)

  length-chunk_line :
      (c : Chunk) (rest : List ℕ)
      → length (chunk_line c rest) ≡ length c.digits + length c.content + 4 + length rest
  length-chunk_line c rest = omega (
    arith,
    length-append c.digits (0x0D ∷ 0x0A ∷ (c.content ++ (0x0D ∷ 0x0A ∷ rest))),
    length-append c.content (0x0D ∷ 0x0A ∷ rest),
  )

  loop-chunks :
      (fuel n len : ℕ) (e : Exchange) (next : HttpState) (chunks : List Chunk) (s : S)
      → All IsChunk chunks
      → Accepts e.request chunks s
      → has_flag e.request.flags flag_chunked ≡ true
      → length (chunked_body chunks) ≤ len
      → len < 2 ^ 64
      → 3 * length chunks + 3 ≤ fuel
      → body_loop body_cb fuel n len (at_header e next) (chunked_body chunks) s
        ≡ body_took (n + length (chunked_body chunks)) (at_complete e) (fed e.request chunks s)
  loop-chunks (suc (suc (suc fuel))) n len e next [] s are ok chunked enough small fuelled =
      loop-last fuel n len e next s enough small
  loop-chunks (suc (suc (suc fuel))) n len e next (c ∷ cs) s (is, are) (okay_c, ok) chunked enough
        small fuelled =
      let total = length-chunk_line c (chunked_body cs) in
      loop-chunk fuel n len e next c (chunked_body cs) s is okay_c chunked (omega arith) small
      ∙ loop-chunks fuel (n + (length c.digits + length c.content + 4))
          (len - (length c.digits + length c.content + 2)) e body_chunk_header cs
          (body_cb e.request c.content s).1 are ok chunked (omega arith) (omega arith) (omega arith)
      ∙ ap (λ k. body_took k (at_complete e) (fed e.request (c ∷ cs) s)) (omega arith)
  loop-chunks _ n len e next chunks s are ok chunked enough small fuelled = absurd (omega arith)

  pub chunks-fuel :
      (chunks : List Chunk)
      → All IsChunk chunks
      → 5 * length chunks + 5 ≤ length (chunked_body chunks)
  chunks-fuel [] h = omega arith
  chunks-fuel (c ∷ cs) (is, h) =
      let many : 1 ≤ length c.content = is.some_bytes in
      omega (arith, length-chunk_line c (chunked_body cs), chunks-fuel cs h)

  -- At a chunk's header of a chunked request, where the buffer is the whole chunked body, each
  -- chunk not empty and its size in hexadecimal digits of either case, with a callback that
  -- returns YMO_OKAY for each: the callback gets the bytes of each chunk, in order and without the
  -- framing, the whole buffer is taken, and the exchange is complete.
  pub parse_body-chunked_body :
      (e : Exchange) (next : HttpState) (chunks : List Chunk) (s : S)
      → All IsChunk chunks
      → Accepts e.request chunks s
      → has_flag e.request.flags flag_chunked ≡ true
      → length (chunked_body chunks) < 2 ^ 64
      → parse_body body_cb (at_header e next) (chunked_body chunks) s
        ≡ body_took (length (chunked_body chunks)) (at_complete e) (fed e.request chunks s)
  unfolding parse_body
  parse_body-chunked_body e next chunks s are ok chunked small =
      loop-chunks (length (chunked_body chunks) + 2) 0 (length (chunked_body chunks)) e next chunks
        s are ok chunked (omega arith) small (omega (arith, chunks-fuel chunks are))
      ∙ ap (λ k. body_took k (at_complete e) (fed e.request chunks s)) (omega arith)

  -- At a chunk's header, where the buffer is a size in hexadecimal digits, not 0 and below 2^64,
  -- with its CR and newline and nothing behind: the parser goes on to read the byte behind the
  -- buffer.
  pub parse_body-overrun :
      (e : Exchange) (next : HttpState) (digits : List ℕ) (s : S)
      → All (λ d. is_hex d ≡ true) digits
      → 1 ≤ length digits
      → 1 ≤ size_of digits
      → size_of digits < 2 ^ 64
      → length digits + 2 < 2 ^ 64
      → parse_body body_cb (at_header e next) (digits ++ (0x0D ∷ 0x0A ∷ [])) s ≡ overrun
  unfolding parse_body
  parse_body-overrun e next digits s hex some_digits positive small fits =
      let all : length (digits ++ (0x0D ∷ 0x0A ∷ [])) ≡ length digits + 2 =
        length-append digits (0x0D ∷ 0x0A ∷ []) in
      let nonzero : (size_of digits == 0) ≡ false = ground arith in
      let sized_state : size_end (sized (at_header e next) (size_of digits)) ≡ record e {
        state = body;
        next_state = body_chunk_trailer;
        body_remain = size_of digits;
      } =
        rw nonzero refl in
      let more : length (digits ++ (0x0D ∷ 0x0A ∷ [])) + 2 ≡ suc (suc (length digits + 2)) =
        omega arith in
      ap₂
        (λ fuel len.
          body_loop body_cb fuel 0 len (at_header e next) (digits ++ (0x0D ∷ 0x0A ∷ [])) s)
        more all
      ∙ loop-size body_cb (suc (length digits + 2)) 0 (length digits + 2) e next digits [] s hex
          small fits (omega arith)
      ∙ ap
          (λ e'.
            body_loop body_cb (suc (length digits + 2)) (0 + (0 + length digits + 2))
              (length digits + 2 - (length digits + 1)) e' [] s)
          sized_state
      ∙ loop-no_content body_cb (length digits + 2) (0 + (0 + length digits + 2))
          (length digits + 2 - (length digits + 1))
          (record e { body_remain = size_of digits; next_state = body_chunk_trailer }) s
          (omega arith) positive
