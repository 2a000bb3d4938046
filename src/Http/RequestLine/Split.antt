-- ===== src/Http/RequestLine/Split.antt =====
-- The request line when it arrives in pieces.
use libyimmo.Base.{
  ℕ, ◌+◌, ◌≡◌, ◌≢◌, inl, inr, refl, Bool, true, false, Option, none, some, List, [], ◌∷◌, ◌++◌,
  ◌==◌, Bool-cases, sub_size, arith,
}
use libyimmo.Http.Exchange.{
  HttpState, request_method, request_uri_path, request_query, request_fragment, request_version,
  crlf, header_name, Exchange, Parsed, took, refused, parse_done,
}
use libyimmo.Http.RequestLine.{
  LineStep, store, item, line_end, reject, outside, line_step, check_request, line_done, next_item,
  go_on, line_at, line_loop, parse_request_line,
}

-- The states in which the line is still being read.
abbrev pub is_line_state : HttpState → Bool
is_line_state request_method = true
is_line_state request_uri_path = true
is_line_state request_query = true
is_line_state request_fragment = true
is_line_state request_version = true
is_line_state _ = false

-- The same result, up to a count of `k` bytes more; refusals leave the buffer as each had it.
abbrev pub Agrees : ℕ → Parsed → Parsed → Type 0
Agrees k (took n e) (took n' e') = (n' ≡ n + k) × (e ≡ e')
Agrees k (refused s e) (refused s' e') = s ≡ s'
Agrees k _ _ = ⊥

-- What the whole buffer leads to, where its first piece has led to the first result.
abbrev pub Continues : List ℕ → Parsed → Parsed → Type 0
Continues b (refused s e) whole = whole ≡ refused s e
Continues b (took m e) whole =
    is_line_state e.state ≡ true → Agrees m (parse_request_line e b) whole

-- The exchange with other values of its own in the place of the loop's.
abbrev with_own : Exchange → List ℕ → ℕ → Exchange
with_own e buf remain = record e { recv_buf = buf; remain = remain }

Agrees-parse_done :
    (k n n' : ℕ) (e : Exchange) (own buf : List ℕ) (r remain : ℕ)
    → n' ≡ n + k
    → Agrees k (parse_done n (with_own e own r) buf remain) (parse_done n' e buf remain)
Agrees-parse_done k n n' e own buf r remain h = elim (Bool-cases (remain == 0)) [
  | inl full ↦ rw full refl
  | inr space ↦ rw space (h, refl)
]

Agrees-line_done :
    (k n n' : ℕ) (e : Exchange) (own buf : List ℕ) (r remain : ℕ) (o : Option ℕ)
    → n' ≡ n + k
    → Agrees k (line_done n (with_own e own r) buf remain o) (line_done n' e buf remain o)
unfolding line_done
Agrees-line_done k n n' e own buf r remain none h = refl
Agrees-line_done k n n' e own buf r remain (some flags) h =
    Agrees-parse_done k (n + 1) (n' + 1)
      (record e {
        request = record e.request { flags = flags };
        state = crlf;
        next_state = header_name;
      })
      own (buf ++ (0 ∷ [])) r remain (omega arith)

Agrees-go_on :
    (k n n' : ℕ) (e : Exchange) (own buf : List ℕ) (r left : ℕ)
    (more more' : Exchange → List ℕ → Parsed)
    → n' ≡ n + k
    → Agrees k (more (with_own e own r) buf) (more' e buf)
    → Agrees k (go_on n (with_own e own r) buf left more) (go_on n' e buf left more')
Agrees-go_on k n n' e own buf r left more more' h rest = elim (Bool-cases (left == 0)) [
  | inl full ↦ rw full refl
  | inr space ↦ rw space rest
]

line_at-Agrees :
    (st : LineStep) (k n n' : ℕ) (e : Exchange) (own buf : List ℕ) (r remain c : ℕ)
    (more more' : Exchange → List ℕ → Parsed)
    → n' ≡ n + k
    → ((e' : Exchange) (buf' : List ℕ) → Agrees k (more (with_own e' own r) buf') (more' e' buf'))
    → Agrees k
        (line_at st n (with_own e own r) buf remain c more)
        (line_at st n' e buf remain c more')
unfolding line_at check_request
line_at-Agrees store k n n' e own buf r remain c more more' h rest =
    Agrees-go_on k (n + 1) (n' + 1) e own (buf ++ (c ∷ [])) r (sub_size remain 1) more more'
      (omega arith) (rest e (buf ++ (c ∷ [])))
line_at-Agrees (item state set) k n n' e own buf r remain c more more' h rest =
    Agrees-go_on k (n + 1) (n' + 1) (next_item e state set buf) own (buf ++ (0 ∷ [])) r
      (sub_size remain 1) more more' (omega arith)
      (rest (next_item e state set buf) (buf ++ (0 ∷ [])))
line_at-Agrees line_end k n n' e own buf r remain c more more' h rest =
    Agrees-line_done k n n' e own buf r remain (check_request e buf) h
line_at-Agrees reject k n n' e own buf r remain c more more' h rest = refl
line_at-Agrees outside k n n' e own buf r remain c more more' h rest =
    Agrees-parse_done k n n' e own buf r remain h

-- The loop reads neither the exchange's own buffer and space nor its count.
line_loop-Agrees :
    (k n n' : ℕ) (e : Exchange) (own buf : List ℕ) (r remain : ℕ) (cs : List ℕ)
    → n' ≡ n + k
    → Agrees k (line_loop n (with_own e own r) buf remain cs) (line_loop n' e buf remain cs)
unfolding line_loop
line_loop-Agrees k n n' e own buf r remain [] h = Agrees-parse_done k n n' e own buf r remain h
line_loop-Agrees k n n' e own buf r remain (c ∷ cs) h =
    line_at-Agrees (line_step e.state c) k n n' e own buf r remain c
      (λ e' buf'. line_loop (n + 1) e' buf' (sub_size remain 1) cs)
      (λ e' buf'. line_loop (n' + 1) e' buf' (sub_size remain 1) cs) h
      (λ e' buf'.
        line_loop-Agrees k (n + 1) (n' + 1) e' own buf' r (sub_size remain 1) cs (omega arith))

Continues-go_on :
    (b : List ℕ) (n : ℕ) (e : Exchange) (buf : List ℕ) (left : ℕ)
    (more whole : Exchange → List ℕ → Parsed)
    → ((left == 0) ≡ false → Continues b (more e buf) (whole e buf))
    → Continues b (go_on n e buf left more) (go_on n e buf left whole)
Continues-go_on b n e buf left more whole rest = elim (Bool-cases (left == 0)) [
  | inl full ↦ rw full refl
  | inr space ↦ rw space (rest space)
]

-- A refusal, or the end of the line, comes whatever bytes are behind.
Continues-ended :
    (b : List ℕ) (n : ℕ) (e : Exchange) (buf : List ℕ) (remain : ℕ)
    → is_line_state e.state ≡ false
    → Continues b (parse_done n e buf remain) (parse_done n e buf remain)
Continues-ended b n e buf remain ended = elim (Bool-cases (remain == 0)) [
  | inl full ↦ rw full refl
  | inr space ↦ rw space (λ line. absurd (cc))
]

Continues-line_done :
    (b : List ℕ) (n : ℕ) (e : Exchange) (buf : List ℕ) (remain : ℕ) (o : Option ℕ)
    → Continues b (line_done n e buf remain o) (line_done n e buf remain o)
unfolding line_done
Continues-line_done b n e buf remain none = refl
Continues-line_done b n e buf remain (some flags) =
    Continues-ended b (n + 1)
      (record e {
        request = record e.request { flags = flags };
        state = crlf;
        next_state = header_name;
      })
      (buf ++ (0 ∷ [])) remain refl

outside-not_line :
    (state : HttpState) (c : ℕ) → line_step state c ≡ outside → is_line_state state ≡ false
unfolding line_step
outside-not_line request_method c h = absurd (ground arith)
outside-not_line request_uri_path c h = absurd (ground arith)
outside-not_line request_query c h = absurd (ground arith)
outside-not_line request_fragment c h = absurd (ground arith)
outside-not_line request_version c h = absurd (ground arith)
outside-not_line _ c h = refl

-- An item starts in a state of the line.
ItemInLine : LineStep → Type 0
ItemInLine (item state set) = is_line_state state ≡ true
ItemInLine _ = Unit

line_step-ItemInLine : (state : HttpState) (c : ℕ) → ItemInLine (line_step state c)
unfolding line_step ItemInLine
line_step-ItemInLine request_method c = ground arith
line_step-ItemInLine request_uri_path c = ground arith
line_step-ItemInLine request_query c = ground arith
line_step-ItemInLine request_fragment c = ground arith
line_step-ItemInLine request_version c = ground arith
line_step-ItemInLine _ c = tt

line_at-Continues :
    (st : LineStep) (b : List ℕ) (n : ℕ) (e : Exchange) (buf : List ℕ) (remain c : ℕ)
    (more whole : Exchange → List ℕ → Parsed)
    → is_line_state e.state ≡ true
    → line_step e.state c ≡ st
    → ItemInLine st
    → ((e' : Exchange) (buf' : List ℕ)
        → is_line_state e'.state ≡ true
        → (sub_size remain 1 == 0) ≡ false
        → Continues b (more e' buf') (whole e' buf'))
    → Continues b (line_at st n e buf remain c more) (line_at st n e buf remain c whole)
unfolding line_at ItemInLine
line_at-Continues store b n e buf remain c more whole line is stays rest =
    Continues-go_on b (n + 1) e (buf ++ (c ∷ [])) (sub_size remain 1) more whole
      (rest e (buf ++ (c ∷ [])) line)
line_at-Continues (item state set) b n e buf remain c more whole line is stays rest =
    Continues-go_on b (n + 1) (next_item e state set buf) (buf ++ (0 ∷ [])) (sub_size remain 1) more
      whole (rest (next_item e state set buf) (buf ++ (0 ∷ [])) stays)
line_at-Continues line_end b n e buf remain c more whole line is stays rest =
    Continues-line_done b n e buf remain (check_request e buf)
line_at-Continues reject b n e buf remain c more whole line is stays rest = refl
line_at-Continues outside b n e buf remain c more whole line is stays rest =
    let ended = outside-not_line e.state c is in absurd (cc)

line_loop-Continues :
    (a b : List ℕ) (n : ℕ) (e : Exchange) (buf : List ℕ) (remain : ℕ)
    → is_line_state e.state ≡ true
    → (remain == 0) ≡ false
    → Continues b (line_loop n e buf remain a) (line_loop n e buf remain (a ++ b))
unfolding line_loop parse_request_line
line_loop-Continues [] b n e buf remain line space =
    rw space (λ line'. line_loop-Agrees n 0 n e buf buf remain remain b (omega arith))
line_loop-Continues (c ∷ cs) b n e buf remain line space =
    line_at-Continues (line_step e.state c) b n e buf remain c
      (λ e' buf'. line_loop (n + 1) e' buf' (sub_size remain 1) cs)
      (λ e' buf'. line_loop (n + 1) e' buf' (sub_size remain 1) (cs ++ b)) line refl
      (line_step-ItemInLine e.state c)
      (λ e' buf' line' space'.
        line_loop-Continues cs b (n + 1) e' buf' (sub_size remain 1) line' space')

-- In a state of the request line, with space left in the receive buffer: however the bytes are cut
-- in two, the second piece, parsed from where the first has stopped, leads to the exchange of the
-- whole, and the counts add up; where the first piece is refused, the whole is refused alike.
pub parse_request_line-append :
    (e : Exchange) (a b : List ℕ)
    → is_line_state e.state ≡ true
    → e.remain ≢ 0
    → Continues b (parse_request_line e a) (parse_request_line e (a ++ b))
unfolding parse_request_line
parse_request_line-append e a b line space =
    line_loop-Continues a b 0 e e.recv_buf e.remain line (ground (arith, space))
