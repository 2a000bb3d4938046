-- ===== src/Http/RequestLine/Steps.antt =====
-- The steps of the loop on the parts of a request line, and the strings in the receive buffer.
use libyimmo.Base.{
  ℕ, zero, suc, ◌+◌, ◌-◌, ◌^◌, ◌≤◌, ◌<◌, ◌≡◌, ◌⊎◌, inl, inr, refl, sym, ap, ◌∙◌, bit_or, true,
  false, none, some, List, [], ◌∷◌, ◌++◌, append_assoc, append-nil, length, length-append, drop,
  drop-append, get_or, ◌==◌, if◌then◌else◌, Bool-cases, All, sub_size, arith,
}
use mathlib.Core.Option
use libyimmo.Http.HeaderTable.{string_in}
use libyimmo.Http.HeaderTable.Combine.{HasNoNul, string_in-nul}
use libyimmo.Http.Exchange.{
  HttpState, request_version, crlf, header_name, Request, Exchange, took, flag_version_1_1,
  flag_supports_chunked, flag_request_keepalive,
}
use libyimmo.Http.RequestLine.{
  version_at, store, item, line_step, version_flags, check_request, line_done, next_item, line_at,
  line_loop,
}

line_loop-same :
    (e : Exchange) (n n' remain r' : ℕ) (buf buf' rest : List ℕ)
    → n ≡ n'
    → buf ≡ buf'
    → remain ≡ r'
    → line_loop n e buf remain rest ≡ line_loop n' e buf' r' rest
line_loop-same e n n' remain r' buf buf' rest hn hb hr =
    ap (λ k. line_loop k e buf remain rest) hn
    ∙ ap (λ b. line_loop n' e b remain rest) hb
    ∙ ap (λ r. line_loop n' e buf' r rest) hr

-- A run of bytes that are stored.
pub line_loop-stores :
    (e : Exchange) (cs rest : List ℕ) (n n' remain r' : ℕ) (buf buf' : List ℕ)
    → All (λ c. line_step e.state c ≡ store) cs
    → n + length cs ≡ n'
    → r' + length cs ≡ remain
    → 1 ≤ r'
    → remain < 2 ^ 64
    → buf ++ cs ≡ buf'
    → line_loop n e buf remain (cs ++ rest) ≡ line_loop n' e buf' r' rest
unfolding line_loop line_at
line_loop-stores e [] rest n n' remain r' buf buf' h hn hr some_left small hb =
    line_loop-same e n n' remain r' buf buf' rest (omega arith) (sym (append-nil buf) ∙ hb)
      (omega arith)
line_loop-stores e (c ∷ cs) rest n n' remain r' buf buf' (stored, h) hn hr some_left small hb =
    let space : (sub_size remain 1 == 0) ≡ false = ground arith in
    ap
      (λ st.
        line_at st n e buf remain c
          (λ e' b'. line_loop (n + 1) e' b' (sub_size remain 1) (cs ++ rest)))
      stored
    ∙ rw space (
        line_loop-stores e cs rest (n + 1) n' (sub_size remain 1) r' (buf ++ (c ∷ [])) buf' h
          (omega arith) (omega arith) some_left (omega arith) (append_assoc buf (c ∷ []) cs ∙ hb))

-- The byte behind an item.
pub line_loop-item :
    (e : Exchange) (state : HttpState) (set : ℕ → Request → Request) (c : ℕ) (rest : List ℕ)
    (n remain r' : ℕ) (buf : List ℕ)
    → line_step e.state c ≡ item state set
    → r' + 1 ≡ remain
    → 1 ≤ r'
    → remain < 2 ^ 64
    → line_loop n e buf remain (c ∷ rest)
      ≡ line_loop (n + 1) (next_item e state set buf) (buf ++ (0 ∷ [])) r' rest
unfolding line_loop line_at
line_loop-item e state set c rest n remain r' buf is hr some_left small =
    let space : (sub_size remain 1 == 0) ≡ false = ground arith in
    let less : sub_size remain 1 ≡ r' = omega arith in
    ap
      (λ st.
        line_at st n e buf remain c (λ e' b'. line_loop (n + 1) e' b' (sub_size remain 1) rest))
      is
    ∙ rw space
        (ap (λ r. line_loop (n + 1) (next_item e state set buf) (buf ++ (0 ∷ [])) r rest) less)

-- The carriage return behind a version that is accepted.
pub line_loop-end :
    (e : Exchange) (rest : List ℕ) (n remain flags : ℕ) (buf : List ℕ)
    → e.state ≡ request_version
    → check_request e buf ≡ some flags
    → 1 ≤ remain
    → line_loop n e buf remain (0x0D ∷ rest)
      ≡ took (n + 1) (record e {
        request = record e.request { flags = flags };
        state = crlf;
        next_state = header_name;
        recv_buf = buf ++ (0 ∷ []);
        remain = remain;
      })
unfolding line_loop line_at line_step line_done
line_loop-end e rest n remain flags buf st accepted some_left =
    let space : (remain == 0) ≡ false = ground arith in
    ap
      (λ s.
        line_at (line_step s 0x0D) n e buf remain 0x0D
          (λ e' b'. line_loop (n + 1) e' b' (sub_size remain 1) rest))
      st
    ∙ ap (line_done n e buf remain) accepted
    ∙ rw space refl

-- "HTTP/1." and a digit
abbrev pub version_text : ℕ → List ℕ
version_text d = 0x48 ∷ 0x54 ∷ 0x54 ∷ 0x50 ∷ 0x2F ∷ 0x31 ∷ 0x2E ∷ d ∷ []

abbrev pub flags_of : ℕ → ℕ → ℕ
flags_of d flags =
    if d == 0x31
    then bit_or flags (flag_version_1_1 + flag_supports_chunked + flag_request_keepalive)
    else flags

get_or-append :
    (xs ys : List ℕ) (k i : ℕ) → k ≡ length xs + i → get_or (xs ++ ys) k 0 ≡ get_or ys i 0
get_or-append [] ys k i h = ap (λ j. get_or ys j 0) (omega arith)
get_or-append (x ∷ xs) ys zero i h = absurd (omega arith)
get_or-append (x ∷ xs) ys (suc k) i h = get_or-append xs ys k i (omega arith)

version_flags-digit :
    (d flags : ℕ) → (d ≡ 0x31) ⊎ (d ≡ 0x30) → version_flags 0x31 d flags ≡ some (flags_of d flags)
version_flags-digit d flags (inl one) = rw one refl
version_flags-digit d flags (inr nought) = rw nought refl

pub check_request-version :
    (e : Exchange) (before : List ℕ) (d : ℕ)
    → e.request.version ≡ some (length before)
    → (d ≡ 0x31) ⊎ (d ≡ 0x30)
    → check_request e (before ++ version_text d) ≡ some (flags_of d e.request.flags)
unfolding check_request
check_request-version e before d is digit =
    let buf : List ℕ = before ++ version_text d in
    let p : version_at e ≡ length before = ap (λ v. elim v [ none ↦ 0 | some p ↦ p ]) is in
    let all : length buf ≡ length before + 8 = length-append before (version_text d) in
    let eight : (length buf - version_at e == 8) ≡ true = ground arith in
    let c5 : get_or buf (version_at e + 5) 0 ≡ 0x31 =
      get_or-append before (version_text d) (version_at e + 5) 5 (omega arith) in
    let c7 : get_or buf (version_at e + 7) 0 ≡ d =
      get_or-append before (version_text d) (version_at e + 7) 7 (omega arith) in
    rw eight (rw c5 (rw c7 (version_flags-digit d e.request.flags digit)))

-- A string that is read at an offset stays when bytes are appended.
string_in-append : (xs ys : List ℕ) → (string_in xs ≡ none) ⊎ (string_in (xs ++ ys) ≡ string_in xs)
string_in-append [] ys = inl refl
string_in-append (x ∷ xs) ys = elim (Bool-cases (x == 0)) [
  | inl nul ↦ inr (rw nul refl)
  | inr byte ↦ elim (string_in-append xs ys) [
    | inl missing ↦ inl (rw byte (ap (Option.map (λ s. x ∷ s)) missing))
    | inr same ↦ inr (rw byte (ap (Option.map (λ s. x ∷ s)) same))
  ]
]

Kept : List ℕ → List ℕ → ℕ → Type 0
Kept buf ys k =
    (string_in (drop k buf) ≡ none) ⊎ (string_in (drop k (buf ++ ys)) ≡ string_in (drop k buf))

string_in-Kept : (buf ys : List ℕ) (k : ℕ) → Kept buf ys k
unfolding Kept
string_in-Kept buf ys zero = string_in-append buf ys
string_in-Kept [] ys (suc k) = inl refl
string_in-Kept (x ∷ buf) ys (suc k) = string_in-Kept buf ys k

pub string_at-kept :
    (buf ys s : List ℕ) (k : ℕ)
    → string_in (drop k buf) ≡ some s
    → string_in (drop k (buf ++ ys)) ≡ some s
unfolding Kept
string_at-kept buf ys s k h = elim (string_in-Kept buf ys k) [
  | inl missing ↦ absurd (cc)
  | inr same ↦ same ∙ h
]

pub string_at-new :
    (buf s : List ℕ) (k : ℕ)
    → HasNoNul s
    → k ≡ length buf
    → string_in (drop k ((buf ++ s) ++ (0 ∷ []))) ≡ some s
string_at-new buf s k h is =
    ap (λ b. string_in (drop k b)) (append_assoc buf s (0 ∷ []))
    ∙ ap string_in (drop-append buf (s ++ (0 ∷ [])) k is)
    ∙ string_in-nul s h
