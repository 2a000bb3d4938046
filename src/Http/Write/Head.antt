-- ===== src/Http/Write/Head.antt =====
-- A response that is whole when it is first written (src/protocol/http/ymo_http_response.c): what its
-- start does to it, and what is sent of it.
use libyimmo.Base.{
  ℕ, ◌≤◌, bit_and, true, false, Bool-cases, inl, inr, ◌||◌, some, List, [], ◌++◌, length, ◌==◌, ◌≡◌,
  refl, arith,
}
use libyimmo.Core.Bucket.{Bucket}
use libyimmo.Core.Bucket.Chain.{unsent}
use libyimmo.Http.HeaderTable.{Memory, bucket_size, get_id}
use libyimmo.Http.HeaderTable.Iterate.{nodes_from}
use libyimmo.Http.Exchange.{has_flag}
use libyimmo.Http.Headers.{hid_content_length, hid_transfer_encoding}
use libyimmo.Http.Session.{Response, response_ready, response_complete}
use libyimmo.Http.Response.{response_chunked, body_get, fill}
use libyimmo.Http.Response.Start.{is_set, should_buffer_body, status_line, response_start}
use libyimmo.Http.Response.Text.{fields_text}
use libyimmo.Http.Write.{response_started}

-- Ready and whole, and neither started, nor chunked, nor one that changes the protocol.
pub record IsPending (r : Response) : Type 0 where
  pub ready : has_flag r.flags response_ready ≡ true
  pub unstarted : has_flag r.flags response_started ≡ false
  pub complete : has_flag r.flags response_complete ≡ true
  pub unchunked : bit_and r.flags response_chunked ≡ 0
  pub stays : r.proto_new ≡ false

-- The body is what it was, and so are the flags and the protocol.
abbrev pub SameBody : Response → Response → Type 0
SameBody r q = (q.flags ≡ r.flags) × (q.body ≡ r.body) × (q.proto_new ≡ r.proto_new)

pub should_buffer_body_complete :
    (m : Memory) (r : Response)
    → has_flag r.flags response_complete ≡ true
    → ((should_buffer_body m r).0 ≡ false) × SameBody r (should_buffer_body m r).1
unfolding should_buffer_body
should_buffer_body_complete m r whole =
    elim (Bool-cases (
      is_set (get_id r.headers hid_content_length)
      || is_set (get_id r.headers hid_transfer_encoding))) [
        | inl e ↦ rw e (refl, (refl, refl, refl))
        | inr e ↦ rw (e, whole) (refl, (refl, refl, refl))
      ]

pub response_start-response :
    (m : Memory) (nodes : ℕ) (status_str : List ℕ) (r : Response)
    → 1 ≤ length status_str
    → (response_start m nodes status_str r).1 ≡ (should_buffer_body m r).1
unfolding response_start
response_start-response m nodes status_str r some_status =
    let has_status : (length status_str == 0) ≡ false = ground arith in rw has_status refl

pub fill-unchunked :
    (chain : List Bucket) (r : Response)
    → bit_and r.flags response_chunked ≡ 0
    → fill chain r ≡ some (chain ++ r.body, record r { body = [] })
unfolding fill body_get
fill-unchunked chain r e =
    let unchunked : has_flag r.flags response_chunked ≡ false = ground arith in
    elim (Bool-cases (has_flag r.flags response_complete)) [
      | inl c ↦ rw (unchunked, c, unchunked) refl
      | inr c ↦ rw (unchunked, c) refl
    ]

-- The status line, the fields as lines and the empty line, and the body behind them.
abbrev pub message : Memory → List ℕ → Response → List ℕ
message m status_str r =
    (status_line status_str
      ++ fields_text (nodes_from bucket_size 0 (should_buffer_body m r).1.headers))
    ++ unsent r.body
