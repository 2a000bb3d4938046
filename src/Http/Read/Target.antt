-- ===== src/Http/Read/Target.antt =====
-- The request that header fields make, in which the strings of its line stay.
use libyimmo.Base.{bit_and, bit_or}
use libyimmo.Base.{
  ℕ, ◌-◌, ◌≡◌, refl, ◌∙◌, Bool, true, false, some, List, [], ◌∷◌, ◌++◌, drop, ◌==◌, if◌then◌else◌,
}
use libyimmo.Http.HeaderTable.{Memory, hdr_hash, string_in}
use libyimmo.Http.Exchange.{Request, Exchange}
use libyimmo.Http.Exchange.{
  has_flag, flag_version_1_1, flag_request_close, flag_request_keepalive, flag_expect, flag_upgrade,
  flag_chunked,
}
use libyimmo.Http.RequestLine.Steps.{string_at-kept}
use libyimmo.Http.Headers.{
  set_flag, connection_of, content_length_of, is_text, text_close, text_keepalive, text_continue,
  text_chunked, hid_connection, hid_content_length, hid_expect, hid_upgrade, hid_transfer_encoding,
  field_of, added_header, Strtol,
}
use libyimmo.Http.Headers.Field.{with_field}
use libyimmo.Http.Body.{BodyCb}
use libyimmo.Http.Read.Fields.{Field, name_of, cost, after_field, after_fields}

-- The same strings of the request line.
pub record Same (r r' : Request) : Type 0 where
  pub method : r'.method ≡ r.method
  pub uri : r'.uri ≡ r.uri
  pub version : r'.version ≡ r.version
  pub query : r'.query ≡ r.query
  pub fragment : r'.fragment ≡ r.fragment

if-Same :
    (r : Request) (b : Bool) (x y : Request) → Same r x → Same r y → Same r (if b then x else y)
if-Same r true x y hx hy = hx
if-Same r false x y hx hy = hy

field_of-Same :
    (strtol : List ℕ → Strtol) (h_id : ℕ) (text value : List ℕ) (r : Request)
    → Same r (field_of strtol h_id text value r)
unfolding field_of
field_of-Same strtol h_id text value r =
    let flagged : (flags : ℕ) → Same r (record r { flags = flags }) = λ flags. record {
      method = refl;
      uri = refl;
      version = refl;
      query = refl;
      fragment = refl;
    } in
    let same : Same r r = flagged r.flags in
    let set : (b : Bool) (flag : ℕ) → Same r (if b then set_flag flag r else r) =
      λ b flag. if-Same r b (set_flag flag r) r (flagged (bit_or r.flags flag)) same in
    let numbered : Same r (record r { content_length = (strtol text).as_size }) = record {
      method = refl;
      uri = refl;
      version = refl;
      query = refl;
      fragment = refl;
    } in
    let connection : Same r (connection_of value r) =
      if-Same r (has_flag r.flags flag_version_1_1)
        (if is_text value text_close
          then record r { flags = bit_and r.flags flag_request_close }
          else r)
        (if is_text value text_keepalive then set_flag flag_request_keepalive r else r)
        (if-Same r (is_text value text_close)
          (record r { flags = bit_and r.flags flag_request_close }) r
          (flagged (bit_and r.flags flag_request_close)) same)
        (set (is_text value text_keepalive) flag_request_keepalive) in
    let number : Same r (content_length_of (strtol text) r) =
      if-Same r (strtol text).at_end (record r { content_length = (strtol text).as_size }) r
        numbered same in
    if-Same r (h_id == hid_connection) _ _ connection (
      if-Same r (h_id == hid_content_length) _ _ number (
        if-Same r (h_id == hid_expect) _ _ (set (is_text value text_continue) flag_expect) (
          if-Same r (h_id == hid_upgrade) _ _ (flagged (bit_or r.flags flag_upgrade)) (
            if-Same r (h_id == hid_transfer_encoding) _ _
              (set (is_text value text_chunked) flag_chunked) same))))

-- What the fields do to the request, one after the other.
abbrev pub with_fields : Memory → (List ℕ → Strtol) → List Field → Request → Request
with_fields memory strtol [] r = r
with_fields memory strtol (f ∷ fs) r =
    with_fields memory strtol fs (with_field memory strtol (name_of f) f.value r)

pub with_fields-Same :
    (memory : Memory) (strtol : List ℕ → Strtol) (fs : List Field) (r : Request)
    → Same r (with_fields memory strtol fs r)
with_fields-Same memory strtol [] r = record {
  method = refl;
  uri = refl;
  version = refl;
  query = refl;
  fragment = refl;
}
with_fields-Same memory strtol (f ∷ fs) r =
    let r0 : Request = added_header memory (hdr_hash (name_of f)) (name_of f) f.value r in
    let first = field_of-Same strtol (hdr_hash (name_of f)) f.value f.value r0 in
    let rest = with_fields-Same memory strtol fs (with_field memory strtol (name_of f) f.value r) in
    record {
      method = rest.method ∙ first.method;
      uri = rest.uri ∙ first.uri;
      version = rest.version ∙ first.version;
      query = rest.query ∙ first.query;
      fragment = rest.fragment ∙ first.fragment;
    }

module _ {S : Type 0} (memory : Memory) (strtol : List ℕ → Strtol) (body_cb : BodyCb S) where
  pub request-after_fields :
      (e : Exchange) (remain : ℕ) (fs : List Field)
      → (after_fields memory strtol body_cb e remain fs).request
        ≡ with_fields memory strtol fs e.request
  request-after_fields e remain [] = refl
  request-after_fields e remain (f ∷ fs) =
      request-after_fields (after_field memory strtol body_cb e remain f) (remain - cost f) fs

  pub after_fields-kept :
      (e : Exchange) (remain : ℕ) (fs : List Field) (k : ℕ) (text : List ℕ)
      → string_in (drop k e.recv_buf) ≡ some text
      → string_in (drop k (after_fields memory strtol body_cb e remain fs).recv_buf) ≡ some text
  after_fields-kept e remain [] k text h = h
  after_fields-kept e remain (f ∷ fs) k text h =
      after_fields-kept (after_field memory strtol body_cb e remain f) (remain - cost f) fs k text (
        string_at-kept (((e.recv_buf ++ name_of f) ++ (0 ∷ [])) ++ f.value) (0 ∷ []) text k (
          string_at-kept ((e.recv_buf ++ name_of f) ++ (0 ∷ [])) f.value text k (
            string_at-kept (e.recv_buf ++ name_of f) (0 ∷ []) text k
              (string_at-kept e.recv_buf (name_of f) text k h))))
