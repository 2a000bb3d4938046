-- ===== src/Ws/Conn/Buffering.antt =====
-- `ws_buffer_msg` of src/protocol/ws/ymo_proto_ws.c: the receive callback of a server that buffers
-- whole messages.
use libyimmo.Base.{
  ℕ, ◌+◌, ◌≡◌, inl, inr, refl, sym, ap, ◌∙◌, Option, none, some, List, [], length, take, ltb, ◌==◌,
  if◌then◌else◌, Bool-cases, Status, okay, enomem, efbig,
}
use libyimmo.Ws.Session.{Platform, fin}
use libyimmo.Ws.Unmask.{sub_size}
use libyimmo.Ws.Parse.{write_at}

-- `msg` with the block that it points to, `msg_end` as an offset into it, and `msg_len`.
pub record Buffering : Type 0 where
  pub msg : Option (List ℕ)
  pub msg_end : ℕ
  pub msg_len : ℕ

-- `ymo_ws_recv_cb_t` as the message callback, by its flags and the bytes it is given.
abbrev pub MsgCb : Type 0
MsgCb = ℕ → List ℕ → Status

-- From the test of the space on, with the block at `msg`. Bytes behind the end of the block are
-- bytes written past it.
unfoldable pub store_msg : MsgCb → ℕ → ℕ → List ℕ → List ℕ → Buffering → Status × Buffering
store_msg cb max_len flags data_in block b =
    let block' = write_at block b.msg_end data_in in
    if ltb (sub_size max_len b.msg_len) (length data_in)
    then (efbig, b)
    else if fin flags
    then (cb flags (take b.msg_len block'), record { msg = some block'; msg_end = 0; msg_len = 0 })
    else (okay, record b { msg = some block'; msg_end = b.msg_end + length data_in })

-- What follows the allocation.
unfoldable pub new_block : Option (List ℕ) → MsgCb → ℕ → ℕ → List ℕ → Buffering → Status × Buffering
unfolding store_msg
new_block none cb max_len flags data_in b = (enomem, record b { msg = none; msg_end = 0 })
new_block (some block) cb max_len flags data_in b =
    store_msg cb max_len flags data_in block (record { msg = some block; msg_end = 0; msg_len = 0 })

-- With YMO_WS_MSG_LEN_MAX as `max_len`.
unfoldable pub with_block :
    Option (List ℕ) → Platform → MsgCb → ℕ → ℕ → List ℕ → Buffering → Status × Buffering
unfolding store_msg new_block
with_block (some block) p cb max_len flags data_in b = store_msg cb max_len flags data_in block b
with_block none p cb max_len flags data_in b =
    new_block (p.alloc max_len) cb max_len flags data_in b

unfoldable pub buffer_msg : Platform → MsgCb → ℕ → ℕ → List ℕ → Buffering → Status × Buffering
unfolding with_block
buffer_msg p cb max_len flags data_in b =
    if length data_in == 0 then (okay, b) else with_block b.msg p cb max_len flags data_in b

-- What one call does where `msg_len` is 0: it stays 0, and another callback that treats the empty
-- message alike makes no difference.
abbrev pub SeesNothing : Status × Buffering → Status × Buffering → Type 0
SeesNothing r r' = (r ≡ r') × (r.1.msg_len ≡ 0)

module _ (cb cb' : MsgCb) (alike : (flags : ℕ) → cb flags [] ≡ cb' flags []) (max_len flags : ℕ)
    (data_in : List ℕ) where
  store_msg-SeesNothing :
      (block : List ℕ) (b : Buffering)
      → b.msg_len ≡ 0
      → SeesNothing
          (store_msg cb max_len flags data_in block b)
          (store_msg cb' max_len flags data_in block b)
  unfolding store_msg
  store_msg-SeesNothing block b e =
      elim (Bool-cases (ltb (sub_size max_len b.msg_len) (length data_in))) [
        | inl full ↦ rw full (refl, e)
        | inr fits ↦ elim (Bool-cases (fin flags)) [
          | inl last ↦
              rw (fits, last)
                (
                  ap
                      (λ s. (
                        s,
                        record {
                          msg = some (write_at block b.msg_end data_in);
                          msg_end = 0;
                          msg_len = 0;
                        },
                      ))
                      (ap (λ n. cb flags (take n (write_at block b.msg_end data_in))) e
                        ∙ alike flags
                        ∙ sym (ap (λ n. cb' flags (take n (write_at block b.msg_end data_in))) e)),
                  refl,
                )
          | inr more ↦ rw (fits, more) (refl, e)
        ]
      ]

  new_block-SeesNothing :
      (o : Option (List ℕ)) (b : Buffering)
      → b.msg_len ≡ 0
      → SeesNothing
          (new_block o cb max_len flags data_in b)
          (new_block o cb' max_len flags data_in b)
  unfolding new_block
  new_block-SeesNothing none b e = (refl, e)
  new_block-SeesNothing (some block) b e =
      store_msg-SeesNothing block (record { msg = some block; msg_end = 0; msg_len = 0 }) refl

  with_block-SeesNothing :
      (o : Option (List ℕ)) (p : Platform) (b : Buffering)
      → b.msg_len ≡ 0
      → SeesNothing
          (with_block o p cb max_len flags data_in b)
          (with_block o p cb' max_len flags data_in b)
  unfolding with_block
  with_block-SeesNothing (some block) p b e = store_msg-SeesNothing block b e
  with_block-SeesNothing none p b e = new_block-SeesNothing (p.alloc max_len) b e

-- `msg_len` is never more than the 0 that it starts with, so the message callback is never given a
-- byte: two callbacks that treat the empty message alike cannot be told apart.
pub buffer_msg-SeesNothing :
    (p : Platform) (cb cb' : MsgCb) (max_len flags : ℕ) (data_in : List ℕ) (b : Buffering)
    → ((flags : ℕ) → cb flags [] ≡ cb' flags [])
    → b.msg_len ≡ 0
    → SeesNothing
        (buffer_msg p cb max_len flags data_in b)
        (buffer_msg p cb' max_len flags data_in b)
unfolding buffer_msg
buffer_msg-SeesNothing p cb cb' max_len flags data_in b alike e =
    elim (Bool-cases (length data_in == 0)) [
      | inl nothing ↦ rw nothing (refl, e)
      | inr some_bytes ↦
          rw some_bytes (with_block-SeesNothing cb cb' alike max_len flags data_in b.msg p b e)
    ]
