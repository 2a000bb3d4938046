-- ===== src/Http/Response/Text.antt =====
-- What `ymo_http_response_start` (src/protocol/http/ymo_http_response.c) writes.
use libyimmo.Base.{
  ℕ, ◌+◌, ◌-◌, ◌≤◌, true, false, some, List, [], ◌∷◌, ◌++◌, append_assoc, length, length-append,
  All, ltb, leb, ◌==◌, ◌≡◌, refl, ap, ap₂, ◌∙◌, arith,
}
use libyimmo.Http.HeaderTable.{Memory, Node, Table, null, bucket_size, found}
use libyimmo.Http.HeaderTable.Iterate.{nodes_from, IsPlaced, walk-nodes}
use libyimmo.Http.Session.{Response}
use libyimmo.Http.Response.Start.{
  send_buf_size, should_buffer_body, filling, text_of, add_field, and_fields, add_fields,
  status_line, started, started_with, response_start,
}

-- The fields as lines.
abbrev pub field_text : Node → List ℕ
field_text n = n.hdr ++ (0x3A ∷ 0x20 ∷ (n.value ++ (0x0D ∷ 0x0A ∷ [])))

abbrev pub fields_text : List Node → List ℕ
fields_text [] = 0x0D ∷ 0x0A ∷ []
fields_text (n ∷ ns) = field_text n ++ fields_text ns

abbrev pub IsPlain : Node → Type 0
IsPlain n = n.buffer ≡ null

length-field_text : (n : Node) → length (field_text n) ≡ length n.hdr + length n.value + 4
length-field_text n = omega (
  arith,
  length-append n.hdr (0x3A ∷ 0x20 ∷ (n.value ++ (0x0D ∷ 0x0A ∷ []))),
  length-append n.value (0x0D ∷ 0x0A ∷ []),
)

add_field-text :
    (out : List ℕ) (remain : ℕ) (n : Node)
    → IsPlain n
    → length (field_text n) ≤ remain
    → add_field out remain n ≡ filling (out ++ field_text n) (remain - length (field_text n))
add_field-text out remain n plain fits =
    let size = length-field_text n in
    let key : ltb (length n.hdr) (remain + 2) ≡ true = ground arith in
    let inside : leb (length n.hdr + 2) remain ≡ true = ground arith in
    let copied : ltb (remain - length n.hdr - 2) (length n.value + 1) ≡ false = ground arith in
    let line_end : leb 2 (remain - length n.hdr - 2 - length n.value) ≡ true = ground arith in
    let value : text_of (found n) ≡ some n.value = rw plain refl in
    rw (key, inside, value, copied, line_end)
      (ap₂ filling
        (append_assoc out (n.hdr ++ (0x3A ∷ 0x20 ∷ [])) (n.value ++ (0x0D ∷ 0x0A ∷ []))
          ∙ ap (λ t. out ++ t)
              (append_assoc n.hdr (0x3A ∷ 0x20 ∷ []) (n.value ++ (0x0D ∷ 0x0A ∷ []))))
        (omega arith))

add_fields-text :
    (ns : List Node) (out : List ℕ) (remain : ℕ)
    → All IsPlain ns
    → length (fields_text ns) ≤ remain
    → add_fields ns out remain ≡ filling (out ++ fields_text ns) (remain - length (fields_text ns))
unfolding add_fields
add_fields-text [] out remain plain fits =
    let space : ltb remain 2 ≡ false = ground arith in rw space refl
add_fields-text (n ∷ ns) out remain (plain, plains) fits =
    let total = length-append (field_text n) (fields_text ns) in
    ap (and_fields (add_fields ns)) (add_field-text out remain n plain (omega arith))
    ∙ add_fields-text ns (out ++ field_text n) (remain - length (field_text n)) plains (omega arith)
    ∙ ap₂ filling (append_assoc out (field_text n) (fields_text ns)) (omega arith)

length-status_line :
    (status_str : List ℕ) → length (status_line status_str) ≡ length status_str + 11
length-status_line status_str = omega (arith, length-append status_str (0x0D ∷ 0x0A ∷ []))

-- A response with a status, whose body is not to be buffered (the length or the coding of its body
-- is known now), with memory; its header table has each field in its bucket and none combined, and
-- the status line, the fields and the empty line fit in the buffer. Then the bucket that the
-- function returns holds the status line, each field as a line, bucket by bucket of the table, and
-- the empty line.
pub response_start-text :
    (m : Memory) (nodes : ℕ) (status_str : List ℕ) (r : Response)
    → 1 ≤ length status_str
    → (should_buffer_body m r).0 ≡ false
    → IsPlaced (should_buffer_body m r).1.headers
    → length (nodes_from bucket_size 0 (should_buffer_body m r).1.headers) ≤ nodes
    → All IsPlain (nodes_from bucket_size 0 (should_buffer_body m r).1.headers)
    → length status_str
        + 11
        + length (fields_text (nodes_from bucket_size 0 (should_buffer_body m r).1.headers))
      ≤ send_buf_size
    → (response_start m nodes status_str r).0
      ≡ started (record {
        content =
            status_line status_str
            ++ fields_text (nodes_from bucket_size 0 (should_buffer_body m r).1.headers);
        bytes_sent = 0;
      })
unfolding response_start
response_start-text m nodes status_str r some_status now placed enough plain fits =
    let headers : Table = (should_buffer_body m r).1.headers in
    let has_status : (length status_str == 0) ≡ false = ground arith in
    let space : ltb send_buf_size (length status_str + 11) ≡ false = ground arith in
    rw (has_status, now, walk-nodes headers nodes placed enough, space)
      (ap started_with (
        add_fields-text (nodes_from bucket_size 0 headers) (status_line status_str)
          (send_buf_size - (11 + length status_str)) plain (omega arith)))
