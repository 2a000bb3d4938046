-- ===== src/Http/Session.antt =====
-- src/protocol/http/ymo_http_session.c, `ymo_http_response_create` and `ymo_http_response_issue` of
-- ymo_http_response.c, and `ymo_proto_http_handle_error` of ymo_proto_http.c: the responses of a
-- session, which are a list in place of their `next` pointers, and the answer to a request that
-- cannot be parsed. The connection, and the text of a response's status, are not modelled.
pub mod Answers
use libyimmo.Base.{
  ℕ, ◌+◌, ◌^◌, bit_or, Bool, true, false, not, Option, none, some, List, [], ◌∷◌, length, leb, ◌==◌,
  if◌then◌else◌, Status, okay, einval, ebadmsg, enomem, efbig, enotsup, eprotonosupport,
  enoprotoopt, eprototype, epipe,
}
use libyimmo.Core.Bucket.{Bucket}
use libyimmo.Http.HeaderTable.{Memory, Table, empty_table, insert}
use libyimmo.Http.Exchange.{Exchange, has_flag, flag_expect}
use libyimmo.Http.Headers.{Strtol}
use libyimmo.Http.Body.{BodyCb}
use libyimmo.Http.Read.{ReadEnd, assess, read_failed, read_overrun, read_unfinished, read_loop}

-- `ymo_http_session_state_t`
pub data HttpSessionState : Type 0 where
  session_open session_closing session_error : HttpSessionState

-- `ymo_http_response_t`, with the chain from `body_head` to `body_tail`, without the text of the
-- status line, and with whether there is a protocol to change to.
pub record Response : Type 0 where
  pub headers : Table
  pub content_len : ℕ
  pub body : List Bucket
  pub status : ℕ
  pub flags : ℕ
  pub proto_new : Bool

-- `ymo_http_session_t`, with the chain of its responses.
pub record HttpSession : Type 0 where
  pub state : HttpSessionState
  pub responses : List Response

-- YMO_HTTP_RESPONSE_READY and YMO_HTTP_RESPONSE_COMPLETE
abbrev pub response_ready : ℕ
response_ready = 2 ^ 24

abbrev pub response_complete : ℕ
response_complete = 2 ^ 26

-- `ymo_http_response_create`, where there is memory.
abbrev pub new_response : Response
new_response = record {
  headers = empty_table;
  content_len = 0;
  body = [];
  status = 200;
  flags = 0;
  proto_new = false;
}

-- `ymo_http_session_add_response`: the walk to the last response.
unfoldable pub add_response : List Response → Response → List Response
add_response [] response_in = response_in ∷ []
add_response (r ∷ rs) response_in = r ∷ add_response rs response_in

-- `ymo_http_session_complete_response`
unfoldable pub complete_response : HttpSession → Status × HttpSession
complete_response s = elim s.responses [
  | [] ↦ (einval, s)
  | r ∷ rs ↦ (okay, record s { responses = rs })
]

-- "Connection" and "Close"
abbrev pub text_connection : List ℕ
text_connection = 0x43 ∷ 0x6F ∷ 0x6E ∷ 0x6E ∷ 0x65 ∷ 0x63 ∷ 0x74 ∷ 0x69 ∷ 0x6F ∷ 0x6E ∷ []

abbrev pub text_close_title : List ℕ
text_close_title = 0x43 ∷ 0x6C ∷ 0x6F ∷ 0x73 ∷ 0x65 ∷ []

-- What `ymo_http_response_finish` sets.
abbrev pub finished : Response → Response
finished r = record r { flags = bit_or r.flags (response_ready + response_complete) }

-- `ymo_http_response_issue`, on the response and on the state of its session.
unfoldable pub issue : Memory → Response → ℕ → HttpSessionState → Response × HttpSessionState
issue memory r status state =
    if leb 400 status
    then (
      finished (record r {
        headers = (insert memory r.headers text_connection text_close_title).1;
        status = status;
      }),
      session_error,
    )
    else (finished (record r { status = status }), state)

-- The switch of `ymo_proto_http_handle_error`, in which EPROTO, which no parse function returns, has no
-- case here.
unfoldable pub status_of : Status → Exchange → ℕ
status_of ebadmsg e = 400
status_of einval e = 400
status_of enomem e = 500
status_of efbig e = if not (has_flag e.request.flags flag_expect) then 413 else 417
status_of enotsup e = 501
status_of eprotonosupport e = 501
status_of enoprotoopt e = 501
status_of eprototype e = 426
status_of _ e = 500

-- `ymo_proto_http_handle_error`; `has_memory` is for the response that it creates. The response
-- is added first, and issued by its pointer, which is that of the last in the chain.
abbrev pub added_error : HttpSession → Response × HttpSessionState → HttpSession
added_error s (r, state) = record { state = state; responses = add_response s.responses r }

abbrev pub answer_in :
    HttpSessionState → Memory → Bool → HttpSession → Exchange → Status → Status × HttpSession
answer_in session_error memory has_memory s e status = (epipe, s)
answer_in _ memory has_memory s e status =
    if has_memory
    then (okay, added_error s (issue memory new_response (status_of status e) s.state))
    else (enomem, s)

unfoldable pub handle_error : Memory → Bool → HttpSession → Exchange → Status → Status × HttpSession
unfolding add_response issue status_of
handle_error memory has_memory s e status = answer_in s.state memory has_memory s e status

-- What `ymo_proto_http_read` comes to behind its loop: all bytes are ignored, the error is answered,
-- or the exchange is assessed.
pub data SessionRead (S : Type 0) : Type 0 where
  ignored : ℕ → HttpSession → SessionRead S
  answered : Status → HttpSession → SessionRead S
  parsed : HttpSession → ReadEnd S → SessionRead S

module _ {S : Type 0} (memory : Memory) (has_memory : Bool) (strtol : List ℕ → Strtol)
    (body_cb : BodyCb S) where
  unfoldable pub end_of : HttpSession → ReadEnd S → SessionRead S
  unfolding handle_error
  end_of session (read_failed status e s) =
      let r = handle_error memory has_memory session e status in answered r.0 r.1
  end_of session r = parsed session r

  abbrev pub http_read_in :
      HttpSessionState → ℕ → HttpSession → Exchange → List ℕ → S → SessionRead S
  http_read_in session_error fuel session e bytes s = ignored (length bytes) session
  http_read_in _ fuel session e bytes s =
      end_of session (read_loop memory strtol body_cb fuel 0 e bytes s)

  -- `ymo_proto_http_read` up to the assessment, on the exchange of the session.
  unfoldable pub http_read : ℕ → HttpSession → Exchange → List ℕ → S → SessionRead S
  unfolding end_of read_loop
  http_read fuel session e bytes s = http_read_in session.state fuel session e bytes s
