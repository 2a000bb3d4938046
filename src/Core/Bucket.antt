-- ===== src/Core/Bucket.antt =====
-- The chains of buckets of src/core/ymo_bucket.c, as lists, and `ymo_net_send_buckets` and
-- `ymo_net_send_buckets_tls` of src/core/ymo_net.c, for buckets that hold their data (not those of
-- YMO_BUCKET_SENDFILE). `sendmsg` and `SSL_write_ex` are parameters.
pub mod Chain
pub mod Stream
pub mod Drain
use libyimmo.Base.{
  ℕ, zero, suc, ◌+◌, ◌-◌, ◌%◌, ◌^◌, List, [], ◌∷◌, ◌++◌, Bool, true, false, length, take, drop, ltb,
  ◌==◌, if◌then◌else◌, sub_size, Option, none, some, Status, okay, ebadmsg, eagain, econnaborted,
}

-- `data` with its `len`, and the bytes of it that were sent.
pub record Bucket : Type 0 where
  pub content : List ℕ
  pub bytes_sent : ℕ

abbrev pub len : Bucket → ℕ
len b = length b.content

pub len_all : List Bucket → ℕ
len_all [] = 0
len_all (b ∷ p) = (len b + len_all p) % 2 ^ 64

pub tail : List Bucket → Option Bucket
tail [] = none
tail (b ∷ []) = some b
tail (b ∷ c ∷ p) = tail (c ∷ p)

-- What `ymo_bucket_append` makes of the chain `dst` of its caller, which it leaves NULL where it is
-- NULL; it returns the tail of `src`.
abbrev pub append : List Bucket → List Bucket → List Bucket
append [] src = []
append (b ∷ dst) src = (b ∷ dst) ++ src

-- A new bucket with the chain behind it: `next`, unless something follows `prev` already.
abbrev pub create : List Bucket → List Bucket → List ℕ → List Bucket
create [] next content = record { content = content; bytes_sent = 0 } ∷ next
create (p ∷ ps) next content = record { content = content; bytes_sent = 0 } ∷ p ∷ ps

-- One entry of the iovec: `data + bytes_sent`, `len - bytes_sent`
abbrev pub iov : Bucket → List ℕ
iov b = take (sub_size (len b) b.bytes_sent) (drop b.bytes_sent b.content)

-- The iovec, of a bounded number of entries, without empty buckets.
unfoldable pub gather : ℕ → List Bucket → List (List ℕ)
gather zero chain = []
gather (suc n) [] = []
gather (suc n) (b ∷ chain) =
    let skipped = gather (suc n) chain in
    let taken = gather n chain in if len b == 0 then skipped else iov b ∷ taken

abbrev pub bytes_of : List (List ℕ) → List ℕ
bytes_of [] = []
bytes_of (v ∷ vs) = v ++ bytes_of vs

-- The buckets that are sent leave the chain, and `bytes_sent` of the next one advances.
unfoldable pub account : ℕ → List Bucket → List Bucket
account n [] = []
account zero (b ∷ chain) = b ∷ chain
account (suc n) (b ∷ chain) =
    let remain = sub_size (len b) b.bytes_sent in
    let rest = account (suc n - remain) chain in
    if ltb (suc n) remain then record b { bytes_sent = b.bytes_sent + suc n } ∷ chain else rest

-- What `sendmsg` says: the number of bytes it took, or -1 with errno.
pub data Sent : Type 0 where
  sent : ℕ → Sent
  failed : Status → Sent

-- What the function returns, the socket and the chain that `head_p` holds; or the rounds of
-- `goto do_send` are used up.
pub data Sending (S : Type 0) : Type 0 where
  returned : Status → S → List Bucket → Sending S
  still : S → List Bucket → Sending S
  null_dereference : S → Sending S

-- YMO_BUCKET_MAX_IOVEC
abbrev pub max_iovec : ℕ
max_iovec = 32

module _ {S : Type 0} (sendmsg : S → List (List ℕ) → Sent × S) where
  -- `if( current && current->len ) goto do_send`
  abbrev pub do_send : (List Bucket → Sending S) → S → List Bucket → Sending S
  do_send again s [] = returned okay s []
  do_send again s (b ∷ chain) =
      if len b == 0 then returned okay s (b ∷ chain) else again (b ∷ chain)

  abbrev pub after : (S → List Bucket → Sending S) → List Bucket → Sent × S → Sending S
  after again chain (failed status, s) = returned status s chain
  after again chain (sent n, s) = do_send (again s) s (account n chain)

  unfoldable pub send_buckets : ℕ → S → List Bucket → Sending S
  unfolding gather account
  send_buckets zero s chain = still s chain
  send_buckets (suc rounds) s chain =
      let vec = gather max_iovec chain in
      let next = after (send_buckets rounds) chain (sendmsg s vec) in
      if ltb 0 (length (bytes_of vec) % 2 ^ 64) then next else returned ebadmsg s chain

-- `SSL_write_ex`: it took some bytes, or it wants to be called again (YMO_SSL_WANT_RW), or it failed.
pub data Written : Type 0 where
  wrote : ℕ → Written
  want_rw broken : Written

module _ {S : Type 0} (ssl_write : S → List ℕ → Written × S) where
  -- `while( cur )`
  abbrev pub until_null : (S → Sending S) → S → List Bucket → Sending S
  until_null again s [] = returned okay s []
  until_null again s (b ∷ chain) = again s

  abbrev pub took : (S → Sending S) → Bucket → List Bucket → Written × S → Sending S
  took again b chain (wrote n, s) =
      if ltb (b.bytes_sent + n) (len b)
      then returned eagain s (record b { bytes_sent = b.bytes_sent + n } ∷ chain)
      else until_null again s chain
  took again b chain (want_rw, s) = returned eagain s (b ∷ chain)
  took again b chain (broken, s) = returned econnaborted s (b ∷ chain)

  -- With an SSL object; without one the function is `ymo_net_send_buckets`.
  unfoldable pub send_buckets_tls : S → List Bucket → Sending S
  send_buckets_tls s [] = null_dereference s
  send_buckets_tls s (b ∷ chain) =
      took (λ t. send_buckets_tls t chain) b chain (ssl_write s (iov b))
