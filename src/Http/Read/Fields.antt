-- ===== src/Http/Read/Fields.antt =====
-- Header fields up to the empty line, read by the loop of `ymo_proto_http_read`.
use libyimmo.Base.{
  ℕ, suc, ◌+◌, ◌-◌, ◌*◌, ◌^◌, ◌≤◌, ◌<◌, ◌≡◌, refl, sym, ap, ap₂, ◌∙◌, true, false, some, List, [],
  ◌∷◌, ◌++◌, append_assoc, length, length-append, drop, drop-append, ltb, ◌==◌, if◌then◌else◌, All,
  arith,
}
use libyimmo.Http.HeaderTable.{Memory}
use libyimmo.Http.HeaderTable.Combine.{HasNoNul}
use libyimmo.Http.Exchange.{header_name, headers_complete, Exchange, hash_init, took}
use libyimmo.Http.Headers.{
  Strtol, is_field_token, parse_crlf, name_loop, headers_switch, headers_loop, parse_headers,
  parser_saw_cr,
}
use libyimmo.Http.Headers.Space.{NoCr}
use libyimmo.Http.Headers.Field.{NoBlank, field_line, at_line_end, parse_headers-field_line}
use libyimmo.Http.Body.{BodyCb}
use libyimmo.Http.Read.{ReadEnd, assess, read_overrun, behind_headers, read_switch, read_loop}

-- A header field that a client sends: its name, of one byte or more, and its value.
pub record Field : Type 0 where
  pub first : ℕ
  pub others : List ℕ
  pub value : List ℕ

abbrev pub name_of : Field → List ℕ
name_of f = f.first ∷ f.others

pub record IsField (f : Field) : Type 0 where
  pub tokens : All (λ c. is_field_token c ≡ true) (name_of f)
  pub no_cr : NoCr f.value
  pub no_nul : HasNoNul f.value
  pub no_blank : NoBlank f.value

abbrev pub fields_text : List Field → List ℕ → List ℕ
fields_text [] rest = rest
fields_text (f ∷ fs) rest = field_line (name_of f) f.value (0x0A ∷ fields_text fs rest)

-- The space that a field takes.
abbrev pub cost : Field → ℕ
cost f = 2 * length f.value + 1 + length (name_of f) + 1

abbrev pub costs : List Field → ℕ
costs [] = 0
costs (f ∷ fs) = cost f + costs fs

-- At the start of a header field, or of the empty line.
abbrev pub at_name : Exchange → ℕ → Exchange
at_name e remain = record e {
  hdr_name = some (length e.recv_buf);
  h_id = hash_init;
  state = header_name;
  remain = remain;
}

field_line-rest :
    (name value rest : List ℕ) → field_line name value rest ≡ field_line name value [] ++ rest
field_line-rest name value rest = sym (
    append_assoc name (0x3A ∷ 0x20 ∷ (value ++ (0x0D ∷ []))) rest
    ∙ ap (λ t. name ++ (0x3A ∷ 0x20 ∷ t)) (append_assoc value (0x0D ∷ []) rest))

length-field_line :
    (name value : List ℕ) → length (field_line name value []) ≡ length name + length value + 3
length-field_line name value = omega (
  arith,
  length-append name (0x3A ∷ 0x20 ∷ (value ++ (0x0D ∷ []))),
  length-append value (0x0D ∷ []),
)

module _ {S : Type 0} (memory : Memory) (strtol : List ℕ → Strtol) (body_cb : BodyCb S) where
  abbrev pub again : ℕ → ℕ → List ℕ → ℕ → Exchange → S → ReadEnd S
  again fuel n bytes k e s =
      if ltb (length bytes) k
      then read_overrun
      else read_loop memory strtol body_cb fuel (n + k) e (drop k bytes) s

  -- Going on behind the bytes that were parsed.
  pub again-rest :
      (fuel n k : ℕ) (e : Exchange) (bytes before rest : List ℕ) (s : S)
      → bytes ≡ before ++ rest
      → k ≡ length before
      → again fuel n bytes k e s ≡ read_loop memory strtol body_cb fuel (n + k) e rest s
  again-rest fuel n k e bytes before rest s is count =
      let there : ltb (length (before ++ rest)) k ≡ false =
        ground (arith, length-append before rest) in
      ap (λ b. again fuel n b k e s) is
      ∙ rw there (
          ap (λ b. read_loop memory strtol body_cb fuel (n + k) e b s)
            (drop-append before rest k count))

  -- Behind the field.
  abbrev pub after_field : Exchange → ℕ → Field → Exchange
  after_field e remain f = at_line_end memory strtol e f.first f.others f.value (remain - cost f)

  abbrev pub after_fields : Exchange → ℕ → List Field → Exchange
  after_fields e remain [] = e
  after_fields e remain (f ∷ fs) = after_fields (after_field e remain f) (remain - cost f) fs

  loop_newline :
      (fuel n : ℕ) (e : Exchange) (remain : ℕ) (f : Field) (rest : List ℕ) (s : S)
      → read_loop memory strtol body_cb (suc fuel) n (after_field e remain f) (0x0A ∷ rest) s
        ≡ read_loop memory strtol body_cb fuel
            (n + 1)
            (at_name (after_field e remain f) (remain - cost f))
            rest
            s
  unfolding read_loop read_switch parse_crlf
  loop_newline fuel n e remain f rest s =
      again-rest fuel n 1 (at_name (after_field e remain f) (remain - cost f)) (0x0A ∷ rest)
        (0x0A ∷ []) rest s refl refl

  loop-field :
      (fuel n : ℕ) (e : Exchange) (remain : ℕ) (f : Field) (rest : List ℕ) (s : S)
      → IsField f
      → cost f < remain
      → remain < 2 ^ 64
      → read_loop memory strtol body_cb
          (suc (suc fuel))
          n
          (at_name e remain)
          (field_line (name_of f) f.value (0x0A ∷ rest))
          s
        ≡ read_loop memory strtol body_cb fuel
            (n + (length (name_of f) + length f.value + 4))
            (at_name (after_field e remain f) (remain - cost f))
            rest
            s
  unfolding read_loop read_switch
  loop-field fuel n e remain f rest s is fits small =
      let bytes : List ℕ = field_line (name_of f) f.value (0x0A ∷ rest) in
      let same : remain ≡ (remain - cost f) + 2 * length f.value + 1 + length (name_of f) + 1 =
        omega arith in
      ap (λ r. read_loop memory strtol body_cb (suc (suc fuel)) n (at_name e r) bytes s) same
      ∙ ap (λ p. behind_headers n s p (again (suc fuel) n bytes))
          (parse_headers-field_line memory strtol e f.first f.others f.value (remain - cost f)
            (0x0A ∷ rest) is.tokens is.no_cr is.no_nul is.no_blank (omega arith) (omega arith))
      ∙ again-rest (suc fuel) n (length (name_of f) + length f.value + 3) (after_field e remain f)
          bytes (field_line (name_of f) f.value []) (0x0A ∷ rest) s
          (field_line-rest (name_of f) f.value (0x0A ∷ rest))
          (sym (length-field_line (name_of f) f.value))
      ∙ loop_newline fuel (n + (length (name_of f) + length f.value + 3)) e remain f rest s
      ∙ ap
          (λ k.
            read_loop memory strtol body_cb fuel k
              (at_name (after_field e remain f) (remain - cost f)) rest s)
          (omega arith)

  -- Behind the empty line.
  abbrev pub at_headers_end : Exchange → ℕ → Exchange
  at_headers_end e remain = record (at_name e remain) {
    state = headers_complete;
    next_state = headers_complete;
  }

  parse_headers_empty :
      (e : Exchange) (remain : ℕ) (rest : List ℕ)
      → 1 ≤ remain
      → parse_headers memory strtol (at_name e remain) (0x0D ∷ 0x0A ∷ rest)
        ≡ some (took 1 (parser_saw_cr (at_name e remain) headers_complete))
  unfolding parse_headers headers_loop headers_switch name_loop
  parse_headers_empty e remain rest some_left =
      let space : (remain == 0) ≡ false = ground arith in rw space (rw space refl)

  loop_complete :
      (fuel n : ℕ) (e : Exchange) (rest : List ℕ) (s : S)
      → read_loop memory strtol body_cb (suc fuel) n (record e { state = headers_complete }) rest s
        ≡ assess n (record e { state = headers_complete }) rest s
  unfolding read_loop read_switch
  loop_complete fuel n e [] s = refl
  loop_complete fuel n e (c ∷ cs) s = refl

  loop_empty :
      (fuel n : ℕ) (e : Exchange) (remain : ℕ) (rest : List ℕ) (s : S)
      → 1 ≤ remain
      → read_loop memory strtol body_cb
          (suc (suc (suc fuel)))
          n
          (at_name e remain)
          (0x0D ∷ 0x0A ∷ rest)
          s
        ≡ assess (n + 2) (at_headers_end e remain) rest s
  unfolding read_loop read_switch parse_crlf
  loop_empty fuel n e remain rest s some_left =
      ap (λ p. behind_headers n s p (again (suc (suc fuel)) n (0x0D ∷ 0x0A ∷ rest)))
        (parse_headers_empty e remain rest some_left)
      ∙ again-rest (suc (suc fuel)) n 1 (parser_saw_cr (at_name e remain) headers_complete)
          (0x0D ∷ 0x0A ∷ rest) (0x0D ∷ []) (0x0A ∷ rest) s refl refl
      ∙ again-rest (suc fuel) (n + 1) 1 (at_headers_end e remain) (0x0A ∷ rest) (0x0A ∷ []) rest s
          refl refl
      ∙ loop_complete fuel (n + 1 + 1) (at_headers_end e remain) rest s
      ∙ ap (λ k. assess k (at_headers_end e remain) rest s) (omega arith)

  pub loop-fields :
      (fuel n : ℕ) (e : Exchange) (remain : ℕ) (fs : List Field) (rest : List ℕ) (s : S)
      → All IsField fs
      → costs fs < remain
      → remain < 2 ^ 64
      → 2 * length fs + 3 ≤ fuel
      → read_loop memory strtol body_cb fuel n
          (at_name e remain)
          (fields_text fs (0x0D ∷ 0x0A ∷ rest))
          s
        ≡ assess
            (n + length (fields_text fs (0x0D ∷ 0x0A ∷ [])))
            (at_headers_end (after_fields e remain fs) (remain - costs fs))
            rest
            s
  loop-fields (suc (suc (suc fuel))) n e remain [] rest s are fits small enough =
      loop_empty fuel n e remain rest s (omega arith)
      ∙ ap (λ r. assess (n + 2) (at_headers_end e r) rest s) (omega arith)
  loop-fields (suc (suc fuel)) n e remain (f ∷ fs) rest s (is, are) fits small enough =
      let count : length (fields_text (f ∷ fs) (0x0D ∷ 0x0A ∷ []))
          ≡ length (name_of f) + length f.value + 4 + length (fields_text fs (0x0D ∷ 0x0A ∷ [])) =
        ap length (field_line-rest (name_of f) f.value (0x0A ∷ fields_text fs (0x0D ∷ 0x0A ∷ [])))
        ∙ length-append (field_line (name_of f) f.value [])
            (0x0A ∷ fields_text fs (0x0D ∷ 0x0A ∷ []))
        ∙ omega (arith, length-field_line (name_of f) f.value) in
      loop-field fuel n e remain f (fields_text fs (0x0D ∷ 0x0A ∷ rest)) s is (omega arith) small
      ∙ loop-fields fuel (n + (length (name_of f) + length f.value + 4)) (after_field e remain f)
          (remain - cost f) fs rest s are (omega arith) (omega arith) (omega arith)
      ∙ ap₂ (λ k r. assess k (at_headers_end (after_fields e remain (f ∷ fs)) r) rest s)
          (omega arith) (omega arith)
  loop-fields _ n e remain fs rest s are fits small enough = absurd (omega arith)
