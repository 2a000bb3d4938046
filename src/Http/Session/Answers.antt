-- ===== src/Http/Session/Answers.antt =====
-- The answer to a request that cannot be parsed, and the responses of a session in their order.
use libyimmo.Base.{
  ℕ, ◌+◌, ◌≤◌, ◌<◌, ◌≡◌, inl, inr, refl, sym, ap, true, List, [], ◌∷◌, ◌++◌, length, leb,
  Bool-cases, Status, okay, einval, ebadmsg, enomem, efbig, enotsup, eprotonosupport, enoprotoopt,
  eprototype, arith,
}
use mathlib.Core.Path.{subst}
use libyimmo.Base.{All, IsByte}
use libyimmo.Http.HeaderTable.Lookup.{get-insert}
use libyimmo.Http.HeaderTable.{Memory, string, get, insert, empty_table}
use libyimmo.Http.Exchange.{Exchange, has_flag, flag_expect}
use libyimmo.Http.Headers.{Strtol}
use libyimmo.Http.Body.{BodyCb}
use libyimmo.Http.Read.{read_failed, read_loop}
use libyimmo.Http.Session.{
  session_open, session_error, Response, HttpSession, response_ready, response_complete,
  new_response, add_response, text_connection, text_close_title, finished, issue, status_of,
  added_error, handle_error, SessionRead, ignored, answered, end_of, http_read_in, http_read,
}

pub add_response-append : (rs : List Response) (r : Response) → add_response rs r ≡ rs ++ (r ∷ [])
unfolding add_response
add_response-append [] r = refl
add_response-append (x ∷ rs) r = ap (◌∷◌ x) (add_response-append rs r)

-- A status of the client's or the server's errors.
IsError : ℕ → Type 0
IsError status = (400 ≤ status) × (status < 600)

status_of-IsError : (status : Status) (e : Exchange) → IsError (status_of status e)
unfolding status_of IsError
status_of-IsError okay e = (omega arith, omega arith)
status_of-IsError einval e = (omega arith, omega arith)
status_of-IsError ebadmsg e = (omega arith, omega arith)
status_of-IsError enomem e = (omega arith, omega arith)
status_of-IsError efbig e = elim (Bool-cases (has_flag e.request.flags flag_expect)) [
  | inl expects ↦ rw expects (omega arith, omega arith)
  | inr none ↦ rw none (omega arith, omega arith)
]
status_of-IsError enotsup e = (omega arith, omega arith)
status_of-IsError eprotonosupport e = (omega arith, omega arith)
status_of-IsError enoprotoopt e = (omega arith, omega arith)
status_of-IsError eprototype e = (omega arith, omega arith)
status_of-IsError _ e = (omega arith, omega arith)

-- The session behind an answer: one response more, in the last place, which is complete, has an
-- error's status and closes the connection; and the session is in its error state.
pub record IsAnswered (s s' : HttpSession) : Type 0 where
  pub response : Response
  pub behind : s'.responses ≡ s.responses ++ (response ∷ [])
  pub at_least : 400 ≤ response.status
  pub below : response.status < 600
  pub flags : response.flags ≡ response_ready + response_complete
  pub closes : get response.headers text_connection ≡ string text_close_title
  pub state : s'.state ≡ session_error

closes_lem :
    (memory : Memory)
    → memory.has_node ≡ true
    → get (insert memory empty_table text_connection text_close_title).1 text_connection
      ≡ string text_close_title
closes_lem memory room =
    let bytes : All IsByte text_connection = (
      omega arith,
      (
        omega arith,
        (
          omega arith,
          (
            omega arith,
            (
              omega arith,
              (omega arith, (omega arith, (omega arith, (omega arith, (omega arith, tt))))),
            ),
          ),
        ),
      ),
    ) in
    get-insert memory empty_table text_connection text_connection text_close_title room (λ i. tt)
      bytes bytes refl

issue-IsAnswered :
    (memory : Memory) (s : HttpSession) (e : Exchange) (status : Status)
    → memory.has_node ≡ true
    → IsAnswered s (added_error s (issue memory new_response (status_of status e) s.state))
unfolding issue IsError
issue-IsAnswered memory s e status room =
    let (at_least, below) = status_of-IsError status e in
    let fails : leb 400 (status_of status e) ≡ true = ground arith in
    let r : Response = finished (record new_response {
      headers = (insert memory empty_table text_connection text_close_title).1;
      status = status_of status e;
    }) in
    let answer : IsAnswered s (added_error s (r, session_error)) = record {
      response = r;
      behind = add_response-append s.responses r;
      at_least = at_least;
      below = below;
      flags = refl;
      closes = closes_lem memory room;
      state = refl;
    } in
    rw fails answer

module _ {S : Type 0} (memory : Memory) (strtol : List ℕ → Strtol) (body_cb : BodyCb S) where
  abbrev pub Answers : HttpSession → SessionRead S → ℕ → Exchange → List ℕ → S → Type 0
  Answers s (answered status s') fuel e bytes u =
      (status ≡ okay)
      × IsAnswered s s'
      × (http_read memory true strtol body_cb fuel s' e bytes u ≡ ignored (length bytes) s')
  Answers s _ fuel e bytes u = ⊥

  ignored_lem :
      (fuel : ℕ) (s : HttpSession) (e : Exchange) (bytes : List ℕ) (u : S)
      → s.state ≡ session_error
      → http_read memory true strtol body_cb fuel s e bytes u ≡ ignored (length bytes) s
  unfolding http_read
  ignored_lem fuel s e bytes u h =
      ap (λ st. http_read_in memory true strtol body_cb st fuel s e bytes u) h

  -- In an open session, with memory for a response and for its header, where a parse function fails:
  -- the session is answered as in IsAnswered, and whatever arrives next, in whatever
  -- exchange, is ignored whole.
  pub http_read-Answers :
      (fuel : ℕ) (responses : List Response) (e e' : Exchange) (bytes : List ℕ) (u u' : S)
      (status : Status) (next_fuel : ℕ) (next_exchange : Exchange) (next_bytes : List ℕ)
      (next_user : S)
      → memory.has_node ≡ true
      → read_loop memory strtol body_cb fuel 0 e bytes u ≡ read_failed status e' u'
      → Answers
          (record { state = session_open; responses = responses })
          (http_read memory true strtol body_cb fuel
            (record { state = session_open; responses = responses })
            e
            bytes
            u)
          next_fuel
          next_exchange
          next_bytes
          next_user
  unfolding http_read end_of handle_error
  http_read-Answers fuel responses e e' bytes u u' status next_fuel next_exchange next_bytes
        next_user room failed =
      let s : HttpSession = record { state = session_open; responses = responses } in
      let s' : HttpSession =
        added_error s (issue memory new_response (status_of status e') session_open) in
      let answer = issue-IsAnswered memory s e' status room in
      subst
        (λ r.
          Answers s (end_of memory true strtol body_cb s r) next_fuel next_exchange next_bytes
            next_user)
        (sym failed)
        (refl, answer, ignored_lem next_fuel s' next_exchange next_bytes next_user answer.state)
