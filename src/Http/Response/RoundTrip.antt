-- ===== src/Http/Response/RoundTrip.antt =====
-- A chunked body from the server (src/protocol/http/ymo_http_response.c and ymo_proto_http.c) through
-- the parser of chunked bodies (src/protocol/http/ymo_http_parse.c).
use libyimmo.Base.{
  ◌^◌, ◌≤◌, ◌<◌, true, false, Option, none, some, List, [], ◌∷◌, ◌++◌, map, append_assoc, length,
  drop, All, ◌≡◌, refl, sym, ap₂, ◌∙◌, arith,
}
use mathlib.Core.Path.{subst}
use libyimmo.Core.Bucket.{Bucket, len}
use libyimmo.Core.Bucket.Chain.{unsent}
use libyimmo.Http.Exchange.{Exchange, HttpState, has_flag, flag_chunked}
use libyimmo.Http.Body.{BodyCb, body_took, parse_body}
use libyimmo.Http.Body.Rounds.{at_header}
use libyimmo.Http.Body.Chunks.{
  Chunk, IsChunk, chunked_body, fed, Accepts, at_complete, parse_body-chunked_body,
}
use libyimmo.Http.Session.{Response, response_complete}
use libyimmo.Http.Response.{
  response_chunked, response_chunk_term, hex_loop, chunk_text, from_cpy, chunk_loop, body_get,
  chunk_term, fill,
}
use libyimmo.Http.Response.Hex.{size_of-hex, hex_digits, chunk_hdr-text}

-- A bucket of the body: not empty, below 64 KiB, and nothing of it sent.
pub record IsBody (b : Bucket) : Type 0 where
  pub some_bytes : 1 ≤ len b
  pub small : len b < 2 ^ 16
  pub unsent_yet : b.bytes_sent ≡ 0

abbrev pub chunk_of : Bucket → Chunk
chunk_of b = record { digits = hex_loop 16 (len b) []; content = b.content }

abbrev framed : List Bucket → List Bucket
framed [] = []
framed (b ∷ body) = from_cpy (chunk_text (len b)) ∷ b ∷ from_cpy (0x0D ∷ 0x0A ∷ []) ∷ framed body

loop-framed : (body : List Bucket) → All IsBody body → chunk_loop body ≡ some (framed body)
unfolding chunk_loop
loop-framed [] h = refl
loop-framed (b ∷ body) (h, hs) = rw (chunk_hdr-text (len b) h.small, loop-framed body hs) refl

framed_bytes :
    (body : List Bucket)
    → All IsBody body
    → unsent (framed body ++ (chunk_term ∷ [])) ≡ chunked_body (map chunk_of body)
framed_bytes [] h = refl
framed_bytes (b ∷ body) (h, hs) =
    append_assoc (hex_loop 16 (len b) []) (0x0D ∷ 0x0A ∷ [])
      (drop b.bytes_sent b.content ++ (0x0D ∷ 0x0A ∷ unsent (framed body ++ (chunk_term ∷ []))))
    ∙ ap₂
        (λ k rest.
          hex_loop 16 (len b) [] ++ (0x0D ∷ 0x0A ∷ (drop k b.content ++ (0x0D ∷ 0x0A ∷ rest))))
        h.unsent_yet (framed_bytes body hs)

chunks-IsChunk : (body : List Bucket) → All IsBody body → All IsChunk (map chunk_of body)
chunks-IsChunk [] h = tt
chunks-IsChunk (b ∷ body) (h, hs) =
    let small : len b < 2 ^ 16 = h.small in
    (
      record {
        hex = hex_digits (len b);
        is_size = size_of-hex (len b) (omega arith);
        some_bytes = h.some_bytes;
      },
      chunks-IsChunk body hs,
    )

module _ {S : Type 0} (body_cb : BodyCb S) (e : Exchange) (next : HttpState) where
  -- The bytes to send are a chunked body: the parser takes all of them and is complete, and the
  -- callback gets the bytes of each bucket of `body`, in order and without the framing.
  abbrev pub Arrives : List Bucket → S → Option (List Bucket × Response) → Type 0
  Arrives body s none = ⊥
  Arrives body s (some (chain, r)) =
      parse_body body_cb (at_header e next) (unsent chain) s
      ≡ body_took (length (unsent chain)) (at_complete body_cb e)
          (fed body_cb e.request (map chunk_of body) s)

  -- A complete chunked response whose terminal chunk is not sent yet, each bucket of its body not
  -- empty, below 64 KiB and unsent, with an empty send buffer: what the write callback puts in the
  -- send buffer arrives, at a chunk's header of a chunked exchange with a callback that returns
  -- YMO_OKAY for each bucket, as the buckets of the body.
  pub fill-Arrives :
      (r : Response) (s : S)
      → All IsBody r.body
      → has_flag r.flags response_chunked ≡ true
      → has_flag r.flags response_complete ≡ true
      → has_flag r.flags response_chunk_term ≡ false
      → Accepts body_cb e.request (map chunk_of r.body) s
      → has_flag e.request.flags flag_chunked ≡ true
      → length (chunked_body (map chunk_of r.body)) < 2 ^ 64
      → Arrives r.body s (fill [] r)
  unfolding fill body_get
  fill-Arrives r s body is_chunked is_complete no_term ok chunked_exchange small =
      rw (is_chunked, loop-framed r.body body, is_chunked, is_complete, no_term)
        (subst
          (λ bytes.
            parse_body body_cb (at_header e next) bytes s
            ≡ body_took (length bytes) (at_complete body_cb e)
                (fed body_cb e.request (map chunk_of r.body) s))
          (sym (framed_bytes r.body body))
          (parse_body-chunked_body body_cb e next (map chunk_of r.body) s
            (chunks-IsChunk r.body body) ok chunked_exchange small))
