-- ===== src/Http/Body.antt =====
-- `ymo_parse_http_body` of src/protocol/http/ymo_http_parse.c. The user's callback is a parameter
-- with a state of its own, which neither changes the request nor the parser. The buffer is the list
-- of the bytes from `current`, and `len` a count of its own, as in the code.
pub mod Digits
pub mod Rounds
pub mod Chunks
pub mod Loop
pub mod Length
use libyimmo.Base.{
  ℕ, zero, suc, ◌+◌, ◌-◌, ◌*◌, ◌/◌, ◌%◌, ◌^◌, min, bit_and, bit_or, Bool, true, false, Option, none,
  some, List, [], ◌∷◌, length, take, drop, ltb, leb, ◌==◌, if◌then◌else◌, Status, okay, sub_size,
}
use libyimmo.Http.Exchange.{
  HttpState, body_chunk_header, body, body_chunk_trailer, complete, Request, Exchange, has_flag,
  flag_chunked,
}

-- The user's callback: what it returns, and its state afterwards.
abbrev pub BodyCb : Type 0 → Type 0
BodyCb S = Request → List ℕ → S → Status × S

-- What the function returns: a count, or -1 with `errno`. `overrun` is for a byte behind the
-- buffer that is read, and `out_of_fuel` for fuel that is too little.
pub data BodyResult (S : Type 0) : Type 0 where
  body_took : ℕ → Exchange → S → BodyResult S
  body_failed : Status → Exchange → S → BodyResult S
  overrun : BodyResult S
  out_of_fuel : BodyResult S

-- How an inner loop ends: the bytes that are taken, the bytes behind and `len`.
pub data Inner : Type 0 where
  inner : ℕ → Exchange → List ℕ → ℕ → Inner
  inner_overrun : Inner

-- `c >> 6` of a `char`, which has a sign, in the `size_t` that it is added to.
abbrev pub shift_6 : ℕ → ℕ
shift_6 c = if ltb c 0x80 then c / 64 else 2 ^ 64 - 4 + c / 64

-- A byte of a chunk's size.
unfoldable pub add_digit : ℕ → ℕ → ℕ
add_digit body_remain c =
    bit_or (bit_or (body_remain * 2 ^ 4 % 2 ^ 64) ((bit_and c 0xF + shift_6 c) % 2 ^ 64))
      (bit_and (c / 2 ^ 3) 0x8)

abbrev pub size_end : Exchange → Exchange
size_end e =
    if e.body_remain == 0
    then record e { state = body_chunk_trailer; next_state = complete }
    else record e { state = body; next_state = body_chunk_trailer }

abbrev pub with_digit : Exchange → ℕ → Exchange
with_digit e c = if c == 0x0D then e else record e { body_remain = add_digit e.body_remain c }

-- The loop of HTTP_STATE_BODY_CHUNK_HEADER; the newline is not counted in `len`.
unfoldable pub size_loop : ℕ → ℕ → Exchange → List ℕ → Inner
unfolding add_digit
size_loop n len e [] = inner_overrun
size_loop n len e (c ∷ cs) =
    let more = size_loop (n + 1) (sub_size len 1) (with_digit e c) cs in
    if c == 0x0A
    then inner (n + 1) (size_end e) cs len
    else if sub_size len 1 == 0
    then inner (n + 1) (with_digit e c) cs 0
    else more

-- The loop of HTTP_STATE_BODY_CHUNK_TRAILER; nor is the newline counted here.
unfoldable pub trailer_loop : ℕ → ℕ → Exchange → List ℕ → Inner
trailer_loop n len e [] = inner_overrun
trailer_loop n len e (c ∷ cs) =
    let more = trailer_loop (n + 1) (sub_size len 1) e cs in
    if c == 0x0A
    then inner (n + 1) (record e { state = e.next_state }) cs len
    else if sub_size len 1 == 0
    then inner (n + 1) e cs 0
    else more

module _ {S : Type 0} (body_cb : BodyCb S) where
  -- Behind the callback, where it has returned YMO_OKAY.
  abbrev pub delivered : Exchange → ℕ → Exchange
  delivered e available =
      let left = e.body_remain - available in
      if left == 0
      then if has_flag e.request.flags flag_chunked
        then record e {
          body_remain = left;
          state = body_chunk_trailer;
          next_state = body_chunk_header;
        }
        else record e { body_remain = left; state = e.next_state }
      else record e { body_remain = left }

  unfoldable pub called :
      ℕ
      → ℕ
      → Exchange
      → List ℕ
      → ℕ
      → Status × S
      → (ℕ → ℕ → Exchange → List ℕ → S → BodyResult S)
      → BodyResult S
  called n len e bytes available (okay, s) more =
      more (n + available) (len - available) (delivered e available) (drop available bytes) s
  called n len e bytes available (status, s) more = body_failed status e s

  abbrev pub behind_inner :
      ℕ → S → Inner → (ℕ → ℕ → Exchange → List ℕ → S → BodyResult S) → BodyResult S
  behind_inner n s (inner k e rest len) more = more (n + k) len e rest s
  behind_inner n s inner_overrun more = overrun

  -- The case of HTTP_STATE_BODY.
  unfoldable pub deliver :
      ℕ → ℕ → Exchange → List ℕ → S → (ℕ → ℕ → Exchange → List ℕ → S → BodyResult S) → BodyResult S
  unfolding called
  deliver n len e bytes s more =
      let available = min len e.body_remain in
      if e.body_remain == 0
      then more n len (record e { state = complete }) bytes s
      else if ltb (length bytes) available
      then overrun
      else called n len e bytes available (body_cb e.request (take available bytes) s) more

  unfoldable pub body_switch :
      HttpState
      → ℕ
      → ℕ
      → Exchange
      → List ℕ
      → S
      → (ℕ → ℕ → Exchange → List ℕ → S → BodyResult S)
      → BodyResult S
  unfolding size_loop trailer_loop deliver
  body_switch body_chunk_header n len e bytes s more =
      behind_inner n s (size_loop 0 len e bytes) more
  body_switch body n len e bytes s more = deliver n len e bytes s more
  body_switch body_chunk_trailer n len e bytes s more =
      behind_inner n s (trailer_loop 0 len e bytes) more
  body_switch _ n len e bytes s more = body_took n e s

  -- The loop.
  unfoldable pub body_loop : ℕ → ℕ → ℕ → Exchange → List ℕ → S → BodyResult S
  unfolding body_switch
  body_loop zero n len e bytes s = out_of_fuel
  body_loop (suc fuel) n len e bytes s = body_switch e.state n len e bytes s (λ n' len' e' rest s'.
      let more = body_loop fuel n' len' e' rest s' in
      if len' == 0 then body_took n' e' s' else more)

  -- On a buffer that is not empty, with fuel for every byte.
  unfoldable pub parse_body : Exchange → List ℕ → S → BodyResult S
  unfolding body_loop
  parse_body e buffer s = body_loop (length buffer + 2) 0 (length buffer) e buffer s
