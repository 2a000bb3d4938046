-- ===== src/Http/RequestLine/RoundTrip.antt =====
-- A request line as a client writes it, parsed.
use libyimmo.Base.{
  ℕ, ◌+◌, ◌-◌, ◌^◌, ◌<◌, ◌≡◌, ◌⊎◌, refl, sym, ap, ◌∙◌, Bool, true, false, not, ◌||◌, none, some,
  List, [], ◌∷◌, ◌++◌, length, length-append, ◌==◌, All, arith,
}
use mathlib.Core.Path.{subst}
use libyimmo.Http.HeaderTable.Combine.{HasNoNul}
use libyimmo.Http.Exchange.{
  request_method, request_uri_path, request_query, request_version, crlf, header_name, Exchange,
  reset, string_at, Parsed, took, refused,
}
use libyimmo.Http.RequestLine.{
  is_method_token, store, item, line_step, next_item, set_uri, set_query, set_version, line_loop,
  parse_request_line,
}
use libyimmo.Http.RequestLine.Steps.{
  line_loop-stores, line_loop-item, line_loop-end, version_text, flags_of, check_request-version,
  string_at-kept, string_at-new,
}

-- A byte that may stand in a path or in a query.
abbrev pub is_target_byte : ℕ → Bool
is_target_byte c = not (c == 0 || c == 0x20 || c == 0x23 || c == 0x3F)

abbrev pub query_line : List ℕ → List ℕ → List ℕ → ℕ → List ℕ → List ℕ
query_line m p q d rest =
    m ++ (0x20 ∷ (p ++ (0x3F ∷ (q ++ (0x20 ∷ (version_text d ++ (0x0D ∷ rest)))))))

-- What is read back from the exchange.
pub record IsLine (m p q : List ℕ) (d size : ℕ) (e : Exchange) : Type 0 where
  pub method : string_at e.recv_buf e.request.method ≡ some m
  pub uri : string_at e.recv_buf e.request.uri ≡ some p
  pub query : string_at e.recv_buf e.request.query ≡ some q
  pub fragment : string_at e.recv_buf e.request.fragment ≡ none
  pub version : string_at e.recv_buf e.request.version ≡ some (version_text d)
  pub flags : e.request.flags ≡ flags_of d 0
  pub state : e.state ≡ crlf
  pub next_state : e.next_state ≡ header_name
  pub space : length e.recv_buf + e.remain ≡ size + 1

abbrev pub ReadsLine : (m p q : List ℕ) (d size : ℕ) → Parsed → Type 0
ReadsLine m p q d size (took n e) =
    (n ≡ length m + length p + length q + 12) × IsLine m p q d size e
ReadsLine m p q d size (refused s e) = ⊥

method_bytes :
    (cs : List ℕ)
    → All (λ c. is_method_token c ≡ true) cs
    → All (λ c. line_step request_method c ≡ store) cs
unfolding line_step
method_bytes [] h = tt
method_bytes (c ∷ cs) (is, h) = (rw is refl, method_bytes cs h)

path_bytes :
    (cs : List ℕ)
    → All (λ c. is_target_byte c ≡ true) cs
    → All (λ c. line_step request_uri_path c ≡ store) cs
unfolding line_step
path_bytes [] h = tt
path_bytes (c ∷ cs) (is, h) = (ground arith, path_bytes cs h)

query_bytes :
    (cs : List ℕ)
    → All (λ c. is_target_byte c ≡ true) cs
    → All (λ c. line_step request_query c ≡ store) cs
unfolding line_step
query_bytes [] h = tt
query_bytes (c ∷ cs) (is, h) = (ground arith, query_bytes cs h)

version_bytes :
    (d : ℕ)
    → (d ≡ 0x31) ⊎ (d ≡ 0x30)
    → All (λ c. line_step request_version c ≡ store) (version_text d)
unfolding line_step
version_bytes d h =
    let e : (d == 0x0D) ≡ false = ground arith in
    (refl, (refl, (refl, (refl, (refl, (refl, (refl, (rw e refl, tt))))))))

method_NoNul : (cs : List ℕ) → All (λ c. is_method_token c ≡ true) cs → HasNoNul cs
method_NoNul [] h = tt
method_NoNul (c ∷ cs) (is, h) = (ground arith, method_NoNul cs h)

target_NoNul : (cs : List ℕ) → All (λ c. is_target_byte c ≡ true) cs → HasNoNul cs
target_NoNul [] h = tt
target_NoNul (c ∷ cs) (is, h) = (ground arith, target_NoNul cs h)

version_NoNul : (d : ℕ) → (d ≡ 0x31) ⊎ (d ≡ 0x30) → HasNoNul (version_text d)
version_NoNul d h = (
  ground arith,
  (
    ground arith,
    (
      ground arith,
      (ground arith, (ground arith, (ground arith, (ground arith, (ground arith, tt))))),
    ),
  ),
)

method_end : line_step request_method 0x20 ≡ item request_uri_path set_uri
unfolding line_step
method_end = refl

path_end : line_step request_uri_path 0x3F ≡ item request_query set_query
unfolding line_step
path_end = refl

query_end :
    line_step request_query 0x20
    ≡ item request_version (λ k r. set_version k (record r { fragment = none }))
unfolding line_step
query_end = refl

module _ (before : Exchange) (m p q : List ℕ) (d size : ℕ) where
  abbrev pub start : Exchange
  start = record (reset size before) { state = request_method }

  abbrev buf_path : List ℕ
  buf_path = (m ++ (0 ∷ [])) ++ p

  abbrev buf_query : List ℕ
  buf_query = (buf_path ++ (0 ∷ [])) ++ q

  abbrev buf_version : List ℕ
  buf_version = (buf_query ++ (0 ∷ [])) ++ version_text d

  abbrev at_path : Exchange
  at_path = next_item start request_uri_path set_uri m

  abbrev at_query : Exchange
  at_query = next_item at_path request_query set_query buf_path

  abbrev at_version : Exchange
  at_version =
      next_item at_query request_version (λ k r. set_version k (record r { fragment = none }))
        buf_query

  abbrev pub at_end : Exchange
  at_end = record at_version {
    request = record at_version.request { flags = flags_of d 0 };
    state = crlf;
    next_state = header_name;
    recv_buf = buf_version ++ (0 ∷ []);
    remain = size - (length m + length p + length q + 11);
  }

  module _ (rest : List ℕ) (m_bytes : All (λ c. is_method_token c ≡ true) m)
      (p_bytes : All (λ c. is_target_byte c ≡ true) p)
      (q_bytes : All (λ c. is_target_byte c ≡ true) q) (digit : (d ≡ 0x31) ⊎ (d ≡ 0x30))
      (fits : length m + length p + length q + 11 < size) (small : size < 2 ^ 64) where
    abbrev rest_version : List ℕ
    rest_version = version_text d ++ (0x0D ∷ rest)

    abbrev rest_query : List ℕ
    rest_query = q ++ (0x20 ∷ rest_version)

    loop-version :
        line_loop
          (length m + length p + length q + 3)
          at_version
          (buf_query ++ (0 ∷ []))
          (size - (length m + length p + length q + 3))
          rest_version
        ≡ took (length m + length p + length q + 12) at_end
    unfolding reset
    loop-version =
        line_loop-stores at_version (version_text d) (0x0D ∷ rest)
          (length m + length p + length q + 3) (length m + length p + length q + 11)
          (size - (length m + length p + length q + 3))
          (size - (length m + length p + length q + 11)) (buf_query ++ (0 ∷ [])) buf_version
          (version_bytes d digit) (omega arith) (omega arith) (omega arith) (omega arith) refl
        ∙ line_loop-end at_version rest (length m + length p + length q + 11)
            (size - (length m + length p + length q + 11)) (flags_of d 0) buf_version refl
            (check_request-version at_version (buf_query ++ (0 ∷ [])) d
              (ap some (sym (length-append buf_query (0 ∷ [])))) digit)
            (omega arith)
        ∙ ap (λ n. took n at_end) (omega arith)

    loop-query :
        line_loop
          (length m + length p + 2)
          at_query
          (buf_path ++ (0 ∷ []))
          (size - (length m + length p + 2))
          rest_query
        ≡ took (length m + length p + length q + 12) at_end
    loop-query =
        line_loop-stores at_query q (0x20 ∷ rest_version) (length m + length p + 2)
          (length m + length p + length q + 2) (size - (length m + length p + 2))
          (size - (length m + length p + length q + 2)) (buf_path ++ (0 ∷ [])) buf_query
          (query_bytes q q_bytes) (omega arith) (omega arith) (omega arith) (omega arith) refl
        ∙ line_loop-item at_query request_version
            (λ k r. set_version k (record r { fragment = none })) 0x20 rest_version
            (length m + length p + length q + 2) (size - (length m + length p + length q + 2))
            (size - (length m + length p + length q + 3)) buf_query (query_end) (omega arith)
            (omega arith) (omega arith)
        ∙ ap
            (λ n.
              line_loop n at_version (buf_query ++ (0 ∷ []))
                (size - (length m + length p + length q + 3)) rest_version)
            (omega arith)
        ∙ loop-version

    loop-path :
        line_loop
          (length m + 1)
          at_path
          (m ++ (0 ∷ []))
          (size - (length m + 1))
          (p ++ (0x3F ∷ rest_query))
        ≡ took (length m + length p + length q + 12) at_end
    loop-path =
        line_loop-stores at_path p (0x3F ∷ rest_query) (length m + 1) (length m + length p + 1)
          (size - (length m + 1)) (size - (length m + length p + 1)) (m ++ (0 ∷ [])) buf_path
          (path_bytes p p_bytes) (omega arith) (omega arith) (omega arith) (omega arith) refl
        ∙ line_loop-item at_path request_query set_query 0x3F rest_query (length m + length p + 1)
            (size - (length m + length p + 1)) (size - (length m + length p + 2)) buf_path path_end
            (omega arith) (omega arith) (omega arith)
        ∙ ap
            (λ n.
              line_loop n at_query (buf_path ++ (0 ∷ [])) (size - (length m + length p + 2))
                rest_query)
            (omega arith)
        ∙ loop-query

    pub loop-line :
        parse_request_line start (query_line m p q d rest)
        ≡ took (length m + length p + length q + 12) at_end
    unfolding parse_request_line reset
    loop-line =
        line_loop-stores start m (0x20 ∷ (p ++ (0x3F ∷ rest_query))) 0 (length m) size
          (size - length m) [] m (method_bytes m m_bytes) (omega arith) (omega arith) (omega arith)
          (omega arith) refl
        ∙ line_loop-item start request_uri_path set_uri 0x20 (p ++ (0x3F ∷ rest_query)) (length m)
            (size - length m) (size - (length m + 1)) m method_end (omega arith) (omega arith)
            (omega arith)
        ∙ loop-path

    pub at_end-IsLine : IsLine m p q d size at_end
    unfolding reset
    at_end-IsLine =
        let uri_at : length m + 1 ≡ length (m ++ (0 ∷ [])) = sym (length-append m (0 ∷ [])) in
        let query_at : length buf_path + 1 ≡ length (buf_path ++ (0 ∷ [])) =
          sym (length-append buf_path (0 ∷ [])) in
        let version_at : length buf_query + 1 ≡ length (buf_query ++ (0 ∷ [])) =
          sym (length-append buf_query (0 ∷ [])) in
        let l1 = length-append (m ++ (0 ∷ [])) p in
        let l2 = length-append (buf_path ++ (0 ∷ [])) q in
        let l3 = length-append (buf_query ++ (0 ∷ [])) (version_text d) in
        let l4 = length-append buf_version (0 ∷ []) in
        record {
          method = string_at-kept (buf_version) (0 ∷ []) m 0 (
              string_at-kept (buf_query ++ (0 ∷ [])) (version_text d) m 0 (
                string_at-kept buf_query (0 ∷ []) m 0 (
                  string_at-kept (buf_path ++ (0 ∷ [])) q m 0 (
                    string_at-kept buf_path (0 ∷ []) m 0 (
                      string_at-kept (m ++ (0 ∷ [])) p m 0
                        (string_at-new [] m 0 (method_NoNul m m_bytes) refl))))));
          uri = string_at-kept (buf_version) (0 ∷ []) p (length m + 1) (
              string_at-kept (buf_query ++ (0 ∷ [])) (version_text d) p (length m + 1) (
                string_at-kept buf_query (0 ∷ []) p (length m + 1) (
                  string_at-kept (buf_path ++ (0 ∷ [])) q p (length m + 1) (
                    string_at-new (m ++ (0 ∷ [])) p (length m + 1) (target_NoNul p p_bytes)
                      uri_at))));
          query = string_at-kept (buf_version) (0 ∷ []) q (length buf_path + 1) (
              string_at-kept (buf_query ++ (0 ∷ [])) (version_text d) q (length buf_path + 1) (
                string_at-new (buf_path ++ (0 ∷ [])) q (length buf_path + 1)
                  (target_NoNul q q_bytes) query_at));
          fragment = refl;
          version =
              string_at-new (buf_query ++ (0 ∷ [])) (version_text d) (length buf_query + 1)
                (version_NoNul d digit) version_at;
          flags = refl;
          state = refl;
          next_state = refl;
          space = omega arith;
        }

-- An upper-case method, a path and a query of bytes that are neither NUL, blank, '#' nor '?', and
-- the version HTTP/1.0 or HTTP/1.1, written as a request line, with any bytes behind it, to an
-- exchange that has been reset, whose receive buffer is larger than the line without its CR: the
-- parser takes the line with its CR, its strings are read back from the buffer, the fragment is
-- missing, the flags are those of the version, the state is that of a line's end with the headers
-- behind it, and one byte was written that is not counted.
pub parse_request_line-query_line :
    (before : Exchange) (m p q : List ℕ) (d size : ℕ) (rest : List ℕ)
    → All (λ c. is_method_token c ≡ true) m
    → All (λ c. is_target_byte c ≡ true) p
    → All (λ c. is_target_byte c ≡ true) q
    → (d ≡ 0x31) ⊎ (d ≡ 0x30)
    → length m + length p + length q + 11 < size
    → size < 2 ^ 64
    → ReadsLine m p q d size (
        parse_request_line
          (record (reset size before) { state = request_method })
          (query_line m p q d rest))
parse_request_line-query_line before m p q d size rest m_bytes p_bytes q_bytes digit fits small =
    subst (ReadsLine m p q d size)
      (sym (loop-line before m p q d size rest m_bytes p_bytes q_bytes digit fits small))
      (refl, at_end-IsLine before m p q d size rest m_bytes p_bytes q_bytes digit fits small)
