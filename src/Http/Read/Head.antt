-- ===== src/Http/Read/Head.antt =====
-- A whole request head, read by the loop of `ymo_proto_http_read`.
use mathlib.Core.Path.{subst}
use libyimmo.Base.{
  ℕ, suc, ◌+◌, ◌-◌, ◌*◌, ◌^◌, ◌≤◌, ◌<◌, ◌≡◌, ◌⊎◌, refl, sym, ap, ◌∙◌, true, some, List, [], ◌∷◌,
  ◌++◌, append_assoc, length, length-append, All, arith,
}
use libyimmo.Http.HeaderTable.{Memory}
use libyimmo.Http.Exchange.{headers_complete, Request, Exchange, reset, string_at}
use libyimmo.Http.RequestLine.{is_method_token}
use libyimmo.Http.RequestLine.Steps.{version_text}
use libyimmo.Http.RequestLine.RoundTrip.{
  is_target_byte, query_line, IsLine, at_end, loop-line, at_end-IsLine,
}
use libyimmo.Http.Headers.{Strtol, parse_crlf}
use libyimmo.Http.Body.{BodyCb}
use libyimmo.Http.Read.{ReadEnd, assess, behind_parsed, read_switch, read_loop}
use libyimmo.Http.Read.Fields.{
  Field, IsField, fields_text, costs, at_name, again, again-rest, after_fields, at_headers_end,
  loop-fields,
}
use libyimmo.Http.Read.Target.{
  Same, with_fields, with_fields-Same, request-after_fields, after_fields-kept,
}

-- What is read back from the exchange where the headers are complete.
pub record IsHead (memory : Memory) (strtol : List ℕ → Strtol) (m p q : List ℕ) (d : ℕ)
    (fs : List Field) (line : Request) (e : Exchange) : Type 0 where
  pub method : string_at e.recv_buf e.request.method ≡ some m
  pub uri : string_at e.recv_buf e.request.uri ≡ some p
  pub query : string_at e.recv_buf e.request.query ≡ some q
  pub version : string_at e.recv_buf e.request.version ≡ some (version_text d)
  pub fields : e.request ≡ with_fields memory strtol fs line
  pub state : e.state ≡ headers_complete

abbrev pub head_text : List ℕ → List ℕ → List ℕ → ℕ → List Field → List ℕ → List ℕ
head_text m p q d fs rest = query_line m p q d (0x0A ∷ fields_text fs (0x0D ∷ 0x0A ∷ rest))

abbrev pub ReadsHead :
    {S : Type 0} (memory : Memory) (strtol : List ℕ → Strtol) (m p q : List ℕ) (d : ℕ)
    (fs : List Field) (line : Request) (rest : List ℕ) (s : S)
    → ReadEnd S
    → Type 0
ReadsHead memory strtol m p q d fs line rest s (assess n e left s') =
    (n ≡ length (head_text m p q d fs []))
    × (left ≡ rest)
    × (s' ≡ s)
    × IsHead memory strtol m p q d fs line e
ReadsHead memory strtol m p q d fs line rest s _ = ⊥

two : (fuel : ℕ) → fuel + 2 ≡ suc (suc fuel)
two fuel = omega arith

query_line-rest :
    (m p q : List ℕ) (d : ℕ) (rest : List ℕ)
    → query_line m p q d rest ≡ query_line m p q d [] ++ rest
query_line-rest m p q d rest = sym (
    append_assoc m (0x20 ∷ (p ++ (0x3F ∷ (q ++ (0x20 ∷ (version_text d ++ (0x0D ∷ []))))))) rest
    ∙ ap (λ t. m ++ (0x20 ∷ t))
        (append_assoc p (0x3F ∷ (q ++ (0x20 ∷ (version_text d ++ (0x0D ∷ []))))) rest)
    ∙ ap (λ t. m ++ (0x20 ∷ (p ++ (0x3F ∷ t))))
        (append_assoc q (0x20 ∷ (version_text d ++ (0x0D ∷ []))) rest))

length-query_line :
    (m p q : List ℕ) (d : ℕ) → length (query_line m p q d []) ≡ length m + length p + length q + 12
length-query_line m p q d = omega (
  arith,
  length-append m (0x20 ∷ (p ++ (0x3F ∷ (q ++ (0x20 ∷ (version_text d ++ (0x0D ∷ []))))))),
  length-append p (0x3F ∷ (q ++ (0x20 ∷ (version_text d ++ (0x0D ∷ []))))),
  length-append q (0x20 ∷ (version_text d ++ (0x0D ∷ []))),
)

module _ {S : Type 0} (memory : Memory) (strtol : List ℕ → Strtol) (body_cb : BodyCb S)
    (before : Exchange) (c : ℕ) (cs p q : List ℕ) (d size : ℕ) (fs : List Field) (rest : List ℕ)
    (s : S) where
  abbrev line_end : Exchange
  line_end = at_end before (c ∷ cs) p q d size

  abbrev left : ℕ
  left = size - (length (c ∷ cs) + length p + length q + 11)

  abbrev final : Exchange
  final =
      at_headers_end memory strtol body_cb (after_fields memory strtol body_cb line_end left fs)
        (left - costs fs)

  module _ (m_bytes : All (λ b. is_method_token b ≡ true) (c ∷ cs))
      (p_bytes : All (λ b. is_target_byte b ≡ true) p)
      (q_bytes : All (λ b. is_target_byte b ≡ true) q) (digit : (d ≡ 0x31) ⊎ (d ≡ 0x30))
      (are : All IsField fs) (fits : length (c ∷ cs) + length p + length q + 11 + costs fs < size)
      (small : size < 2 ^ 64) where
    loop_head :
        (fuel : ℕ)
        → 2 * length fs + 3 ≤ fuel
        → read_loop memory strtol body_cb
            (suc (suc fuel))
            0
            (reset size before)
            (head_text (c ∷ cs) p q d fs rest)
            s
          ≡ assess (length (head_text (c ∷ cs) p q d fs [])) final rest s
    unfolding read_loop read_switch parse_crlf reset
    loop_head fuel enough =
        let tail : List ℕ = fields_text fs (0x0D ∷ 0x0A ∷ rest) in
        let bytes : List ℕ = query_line (c ∷ cs) p q d (0x0A ∷ tail) in
        let k : ℕ = length (c ∷ cs) + length p + length q + 12 in
        let total : length (head_text (c ∷ cs) p q d fs [])
            ≡ 0 + k + 1 + length (fields_text fs (0x0D ∷ 0x0A ∷ [])) =
          ap length (query_line-rest (c ∷ cs) p q d (0x0A ∷ fields_text fs (0x0D ∷ 0x0A ∷ [])))
          ∙ length-append (query_line (c ∷ cs) p q d []) (0x0A ∷ fields_text fs (0x0D ∷ 0x0A ∷ []))
          ∙ omega (arith, length-query_line (c ∷ cs) p q d) in
        ap (λ r. behind_parsed 0 s r (again memory strtol body_cb (suc fuel) 0 bytes))
          (loop-line before (c ∷ cs) p q d size (0x0A ∷ tail) m_bytes p_bytes q_bytes digit
            (omega arith) small)
        ∙ again-rest memory strtol body_cb (suc fuel) 0 k line_end bytes
            (query_line (c ∷ cs) p q d []) (0x0A ∷ tail) s
            (query_line-rest (c ∷ cs) p q d (0x0A ∷ tail)) (sym (length-query_line (c ∷ cs) p q d))
        ∙ again-rest memory strtol body_cb fuel (0 + k) 1 (at_name line_end left) (0x0A ∷ tail)
            (0x0A ∷ []) tail s refl refl
        ∙ loop-fields memory strtol body_cb fuel (0 + k + 1) line_end left fs rest s are
            (omega arith) (omega arith) enough
        ∙ ap (λ n. assess n final rest s) (sym total)

    final-IsHead : IsHead memory strtol (c ∷ cs) p q d fs line_end.request final
    unfolding reset
    final-IsHead =
        let line : IsLine (c ∷ cs) p q d size line_end =
          at_end-IsLine before (c ∷ cs) p q d size [] m_bytes p_bytes q_bytes digit (omega arith)
            small in
        let fields : final.request ≡ with_fields memory strtol fs line_end.request =
          request-after_fields memory strtol body_cb line_end left fs in
        let same : Same line_end.request (with_fields memory strtol fs line_end.request) =
          with_fields-Same memory strtol fs line_end.request in
        let kept = after_fields-kept memory strtol body_cb line_end left fs in
        record {
          method =
              ap (string_at final.recv_buf) (ap (λ r. r.method) fields ∙ same.method)
              ∙ kept 0 (c ∷ cs) line.method;
          uri =
              ap (string_at final.recv_buf) (ap (λ r. r.uri) fields ∙ same.uri) ∙ kept _ p line.uri;
          query =
              ap (string_at final.recv_buf) (ap (λ r. r.query) fields ∙ same.query)
              ∙ kept _ q line.query;
          version =
              ap (string_at final.recv_buf) (ap (λ r. r.version) fields ∙ same.version)
              ∙ kept _ (version_text d) line.version;
          fields = fields;
          state = refl;
        }

-- The head of a request that arrives in one buffer at a fresh exchange: a request line with a query,
-- header fields and the empty line, with any bytes behind, where the receive buffer has the space
-- that they take (twice a value's bytes). With fuel of two rounds for the line and for each field,
-- and three more, the loop of `ymo_proto_http_read` comes to the end of the headers behind the
-- bytes of the head and no more; the strings of the line are read back from the receive buffer, and the request
-- is that of the line with every field, in order, added to its table and read where the parser
-- knows it.
pub read_loop-head :
    {S : Type 0} (memory : Memory) (strtol : List ℕ → Strtol) (body_cb : BodyCb S)
    (before : Exchange) (c : ℕ) (cs p q : List ℕ) (d size : ℕ) (fs : List Field) (rest : List ℕ)
    (s : S) (fuel : ℕ)
    → All (λ b. is_method_token b ≡ true) (c ∷ cs)
    → All (λ b. is_target_byte b ≡ true) p
    → All (λ b. is_target_byte b ≡ true) q
    → (d ≡ 0x31) ⊎ (d ≡ 0x30)
    → All IsField fs
    → length (c ∷ cs) + length p + length q + 11 + costs fs < size
    → size < 2 ^ 64
    → 2 * length fs + 3 ≤ fuel
    → ReadsHead memory strtol (c ∷ cs) p q d fs (at_end before (c ∷ cs) p q d size).request rest s (
        read_loop memory strtol body_cb
          (fuel + 2)
          0
          (reset size before)
          (head_text (c ∷ cs) p q d fs rest)
          s)
read_loop-head memory strtol body_cb before c cs p q d size fs rest s fuel m_bytes p_bytes q_bytes
      digit are fits small enough =
    let whole : read_loop memory strtol body_cb (fuel + 2) 0 (reset size before)
          (head_text (c ∷ cs) p q d fs rest) s
        ≡ assess (length (head_text (c ∷ cs) p q d fs []))
            (final memory strtol body_cb before c cs p q d size fs rest s) rest s =
      ap
        (λ k.
          read_loop memory strtol body_cb k 0 (reset size before) (head_text (c ∷ cs) p q d fs rest)
            s)
        (two fuel)
      ∙ loop_head memory strtol body_cb before c cs p q d size fs rest s m_bytes p_bytes q_bytes
          digit are fits small fuel enough in
    subst
      (ReadsHead memory strtol (c ∷ cs) p q d fs (at_end before (c ∷ cs) p q d size).request rest s)
      (sym whole)
      (
        refl,
        refl,
        refl,
        final-IsHead memory strtol body_cb before c cs p q d size fs rest s m_bytes p_bytes q_bytes
            digit are fits small,
      )
