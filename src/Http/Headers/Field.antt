-- ===== src/Http/Headers/Field.antt =====
-- A header field as a client writes it, parsed.
use libyimmo.Base.{
  ℕ, suc, ◌+◌, ◌*◌, ◌^◌, ◌≤◌, ◌<◌, ◌≡◌, ◌≢◌, refl, sym, ap, ◌∙◌, true, false, none, some, List, [],
  ◌∷◌, ◌++◌, length, length-append, drop, drop-append, ◌==◌, All, arith,
}
use libyimmo.Http.HeaderTable.{Memory, hdr_hash, string_in}
use libyimmo.Http.HeaderTable.Combine.{HasNoNul}
use libyimmo.Http.Exchange.{crlf, header_name, header_value, Exchange, Request, hash_init, took}
use libyimmo.Http.RequestLine.Steps.{string_at-kept, string_at-new}
use libyimmo.Http.Headers.{
  Strtol, is_field_token, field_of, text_at, added_header, got_value, value_loop, behind_part,
  headers_switch, headers_loop, parse_headers,
}
use libyimmo.Http.Headers.Space.{NoCr}
use libyimmo.Http.Headers.Steps.{named, name_loop-name, valued, value_loop-value}

abbrev pub field_line : List ℕ → List ℕ → List ℕ → List ℕ
field_line name value rest = name ++ (0x3A ∷ 0x20 ∷ (value ++ (0x0D ∷ rest)))

-- What the field does to the request: it is added to the table, and read where the parser knows it.
abbrev pub with_field : Memory → (List ℕ → Strtol) → List ℕ → List ℕ → Request → Request
with_field memory strtol name value r =
    field_of strtol (hdr_hash name) value value (added_header memory (hdr_hash name) name value r)

-- The blanks before a value are not of the value.
abbrev pub NoBlank : List ℕ → Type 0
NoBlank [] = Unit
NoBlank (c ∷ cs) = c ≢ 0x20

token_NoNul : (cs : List ℕ) → All (λ c. is_field_token c ≡ true) cs → HasNoNul cs
token_NoNul [] h = tt
token_NoNul (c ∷ cs) (is, h) = (ground arith, token_NoNul cs h)

text_at-kept : (buf s : List ℕ) (k : ℕ) → string_in (drop k buf) ≡ some s → text_at buf (some k) ≡ s
text_at-kept buf s k h = ap (λ o. elim o [ none ↦ [] | some t ↦ t ]) h

module _ (memory : Memory) (strtol : List ℕ → Strtol) (before : Exchange) (t : ℕ)
    (ts value : List ℕ) (left : ℕ) where
  abbrev name : List ℕ
  name = t ∷ ts

  -- At the start of a header field.
  abbrev pub at_field : Exchange
  at_field = record before {
    hdr_name = some (length before.recv_buf);
    h_id = hash_init;
    state = header_name;
    remain = left + 2 * length value + 1 + length name + 1;
  }

  abbrev buf_name : List ℕ
  buf_name = (before.recv_buf ++ name) ++ (0 ∷ [])

  abbrev at_value : Exchange
  at_value = record (named at_field before.recv_buf (left + 2 * length value + 1) name) {
    hdr_value = some (length buf_name);
    state = header_value;
  }

  -- Behind the field.
  abbrev pub at_line_end : Exchange
  at_line_end = record before {
    request = with_field memory strtol name value before.request;
    hdr_name = some (length before.recv_buf);
    hdr_value = some (length buf_name);
    h_id = hash_init;
    state = crlf;
    next_state = header_name;
    recv_buf = (buf_name ++ value) ++ (0 ∷ []);
    remain = left;
  }

  module _ (rest : List ℕ) (tokens : All (λ c. is_field_token c ≡ true) (t ∷ ts))
      (no_cr : NoCr value) (no_nul : HasNoNul value) (some_left : 1 ≤ left)
      (small : left + 2 * length value + length (t ∷ ts) + 2 < 2 ^ 64) where
    valued-at_line_end : valued memory strtol at_value (buf_name ++ value) left ≡ at_line_end
    unfolding got_value
    valued-at_line_end =
        let here : length buf_name ≡ length buf_name = refl in
        let full : List ℕ = (buf_name ++ value) ++ (0 ∷ []) in
        let name_text : text_at full (some (length before.recv_buf)) ≡ name =
          text_at-kept full name (length before.recv_buf) (
            string_at-kept (buf_name ++ value) (0 ∷ []) name (length before.recv_buf) (
              string_at-kept buf_name value name (length before.recv_buf) (
                string_at-new before.recv_buf name (length before.recv_buf)
                  (token_NoNul name tokens) refl))) in
        let value_text : text_at full (some (length buf_name)) ≡ value =
          text_at-kept full value (length buf_name)
            (string_at-new buf_name value (length buf_name) no_nul refl) in
        let bytes : drop (length buf_name) (buf_name ++ value) ≡ value =
          drop-append buf_name value (length buf_name) refl in
        ap
          (λ s. record at_line_end {
            request =
                field_of strtol (hdr_hash name) (text_at full (some (length buf_name)))
                  (drop (length buf_name) (buf_name ++ value))
                  (added_header memory (hdr_hash name) s (text_at full (some (length buf_name)))
                    before.request);
          })
          name_text
        ∙ ap
            (λ s. record at_line_end {
              request =
                  field_of strtol (hdr_hash name) s (drop (length buf_name) (buf_name ++ value))
                    (added_header memory (hdr_hash name) name s before.request);
            })
            value_text
        ∙ ap
            (λ s. record at_line_end {
              request =
                  field_of strtol (hdr_hash name) value s
                    (added_header memory (hdr_hash name) name value before.request);
            })
            bytes

    loop-rest :
        (fuel n : ℕ) (bytes : List ℕ)
        → headers_loop (suc fuel) memory strtol n at_line_end at_line_end.recv_buf left bytes
          ≡ some (took n at_line_end)
    unfolding headers_loop headers_switch
    loop-rest fuel n [] = let space : (left == 0) ≡ false = ground arith in rw space refl
    loop-rest fuel n (x ∷ xs) = let space : (left == 0) ≡ false = ground arith in rw space refl

    loop-value :
        (fuel n : ℕ) (v : ℕ) (vs : List ℕ)
        → v ∷ vs ≡ value ++ (0x0D ∷ rest)
        → v ≢ 0x20
        → headers_loop
            (suc (suc fuel))
            memory
            strtol
            n
            (named at_field before.recv_buf (left + 2 * length value + 1) name)
            buf_name
            (left + 2 * length value + 1)
            (v ∷ vs)
          ≡ some (took (n + length value + 1) at_line_end)
    unfolding headers_loop headers_switch
    loop-value fuel n v vs is not_blank =
        let blank : (v == 0x20) ≡ false = ground (arith, not_blank) in
        rw blank (
          ap
            (λ p. behind_part n p (λ n' e' bytes.
              headers_loop (suc fuel) memory strtol n' e' e'.recv_buf e'.remain bytes))
            (ap (value_loop memory strtol 0 at_value buf_name (left + 2 * length value + 1)) is
              ∙ value_loop-value memory strtol 0 at_value buf_name (left + 2 * length value + 1)
                  left value rest no_cr refl some_left (omega arith))
          ∙ ap
              (λ e.
                headers_loop (suc fuel) memory strtol (n + (0 + length value + 1)) e e.recv_buf
                  e.remain rest)
              valued-at_line_end
          ∙ loop-rest fuel (n + (0 + length value + 1)) rest
          ∙ ap (λ k. some (took k at_line_end)) (omega arith))

    value_head :
        (v : List ℕ)
        → v ≡ value
        → NoBlank v
        → (w : ℕ) × (ws : List ℕ) × (w ∷ ws ≡ value ++ (0x0D ∷ rest)) × (w ≢ 0x20)
    value_head [] is h = (0x0D, rest, ap (λ u. u ++ (0x0D ∷ rest)) is, λ e. absurd (omega arith))
    value_head (w ∷ ws) is h = (w, ws ++ (0x0D ∷ rest), ap (λ u. u ++ (0x0D ∷ rest)) is, h)

    loop-blank :
        (fuel n : ℕ)
        → NoBlank value
        → headers_loop
            (suc (suc (suc fuel)))
            memory
            strtol
            n
            (named at_field before.recv_buf (left + 2 * length value + 1) name)
            buf_name
            (left + 2 * length value + 1)
            (0x20 ∷ (value ++ (0x0D ∷ rest)))
          ≡ some (took (n + 1 + length value + 1) at_line_end)
    unfolding headers_loop headers_switch
    loop-blank fuel n first =
        let (w, ws, is, not_blank) = value_head value refl first in
        let space : (left + 2 * length value + 1 == 0) ≡ false = ground arith in
        rw space (
          ap
            (headers_loop (suc (suc fuel)) memory strtol (n + 1)
              (named at_field before.recv_buf (left + 2 * length value + 1) name) buf_name
              (left + 2 * length value + 1))
            (sym is)
          ∙ loop-value fuel (n + 1) w ws is not_blank)

    loop-field :
        (fuel : ℕ)
        → NoBlank value
        → headers_loop
            (suc (suc (suc (suc fuel))))
            memory
            strtol
            0
            at_field
            before.recv_buf
            at_field.remain
            (field_line name value rest)
          ≡ some (took (length name + length value + 3) at_line_end)
    unfolding headers_loop headers_switch
    loop-field fuel first =
        ap
          (λ p. behind_part 0 p (λ n' e' bytes.
            headers_loop (suc (suc (suc fuel))) memory strtol n' e' e'.recv_buf e'.remain bytes))
          (name_loop-name 0 at_field before.recv_buf at_field.remain (left + 2 * length value + 1)
            name (0x20 ∷ (value ++ (0x0D ∷ rest))) tokens refl (omega arith) (omega arith))
        ∙ loop-blank fuel (0 + (0 + length name + 1)) first
        ∙ ap (λ k. some (took k at_line_end)) (omega arith)

-- A name of one token byte or more, a colon, a blank, a value and a CR, where the value has neither
-- CR nor NUL and does not start with a blank, and there is space for the name and twice the value:
-- the header parser takes the field whole. The field is added under the hash of its name with
-- the name and the value that the client has written, the fields that the parser itself reads
-- are read from that value, and the parser stands behind the CR, to go on with the next name, whatever bytes are behind.
pub parse_headers-field_line :
    (memory : Memory) (strtol : List ℕ → Strtol) (before : Exchange) (t : ℕ) (ts value : List ℕ)
    (left : ℕ) (rest : List ℕ)
    → All (λ c. is_field_token c ≡ true) (t ∷ ts)
    → NoCr value
    → HasNoNul value
    → NoBlank value
    → 1 ≤ left
    → left + 2 * length value + length (t ∷ ts) + 2 < 2 ^ 64
    → parse_headers memory strtol
        (at_field memory strtol before t ts value left)
        (field_line (t ∷ ts) value rest)
      ≡ some (
          took
            (length (t ∷ ts) + length value + 3)
            (at_line_end memory strtol before t ts value left))
unfolding parse_headers
parse_headers-field_line memory strtol before t ts value left rest tokens no_cr no_nul first
      some_left small =
    let all : length (field_line (t ∷ ts) value rest)
        ≡ suc (suc (suc (suc (length ts + length value + length rest)))) =
      length-append (t ∷ ts) (0x3A ∷ 0x20 ∷ (value ++ (0x0D ∷ rest)))
      ∙ ap (λ k. suc (length ts) + suc (suc k)) (length-append value (0x0D ∷ rest))
      ∙ omega arith in
    ap
      (λ fuel.
        headers_loop fuel memory strtol 0 (at_field memory strtol before t ts value left)
          before.recv_buf (left + 2 * length value + 1 + length (t ∷ ts) + 1)
          (field_line (t ∷ ts) value rest))
      all
    ∙ loop-field memory strtol before t ts value left rest tokens no_cr no_nul some_left small
        (length ts + length value + length rest) first
