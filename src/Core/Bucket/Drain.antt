-- ===== src/Core/Bucket/Drain.antt =====
-- `ymo_net_send_buckets` comes to an end, where each call of `sendmsg` makes some progress.
use mathlib.Core.Path.{subst}
use libyimmo.Base.{
  ℕ, zero, suc, ◌-◌, ◌%◌, ◌^◌, ◌≤◌, ◌<◌, List, [], ◌∷◌, ◌++◌, append-nil, true, false, Bool-cases,
  inl, inr, length, drop, length-append, length-drop, ltb, ◌==◌, sub_size, okay, ◌≡◌, ◌≢◌, refl,
  sym, ap, ◌∙◌, arith, All,
}
use libyimmo.Core.Bucket.{
  Bucket, len, iov, gather, bytes_of, account, Sent, sent, failed, Sending, returned, still,
  null_dereference, max_iovec, do_send, after, send_buckets,
}
use libyimmo.Core.Bucket.Chain.{
  InRange, unsent, iov-drop, account-unsent, account-InRange, round-stream, gathered,
}
use libyimmo.Core.Bucket.Stream.{Sends}

-- The bucket still has something to send.
abbrev pub Unfinished : Bucket → Type 0
Unfinished b = b.bytes_sent < len b

abbrev pub Progress : Sent → Type 0
Progress (sent n) = 1 ≤ n
Progress (failed status) = ⊥

gather-some :
    (n : ℕ) (b : Bucket) (chain : List Bucket)
    → InRange b
    → Unfinished b
    → 1 ≤ length (bytes_of (gather (suc n) (b ∷ chain)))
unfolding gather
gather-some n b chain h un =
    let some_len : (len b == 0) ≡ false = ground arith in
    rw some_len (
      omega (
        arith,
        length-append (iov b) (bytes_of (gather n chain)),
        ap length (iov-drop b h),
        length-drop b.bytes_sent b.content,
      ))

account-Unfinished :
    (n : ℕ) (chain : List Bucket)
    → All Unfinished chain
    → All InRange chain
    → All Unfinished (account n chain)
unfolding account
account-Unfinished zero [] un h = un
account-Unfinished (suc n) [] un h = un
account-Unfinished zero (b ∷ chain) un h = un
account-Unfinished (suc n) (b ∷ chain) (u, us) (h, hs) =
    let started : b.bytes_sent ≤ len b = h.started in
    let sized : len b < 2 ^ 64 = h.sized in
    elim (Bool-cases (ltb (suc n) (sub_size (len b) b.bytes_sent))) [
      | inl e ↦ rw e (ground arith, us)
      | inr e ↦ rw e (account-Unfinished (suc n - sub_size (len b) b.bytes_sent) chain us hs)
    ]

-- `wire` is what was sent, and `Writable` says that the socket has not been shut down for writing.
module _ {S : Type 0} (wire : S → List ℕ) (Writable : S → Type 0) where
  -- YMO_OKAY with an empty chain, the stream `all` on the wire, and the socket still writable.
  abbrev pub SendsAll : List ℕ → Sending S → Type 0
  SendsAll all (returned status s chain) =
      (status ≡ okay) × (chain ≡ []) × (wire s ≡ all) × Writable s
  SendsAll all (still s chain) = ⊥
  SendsAll all (null_dereference s) = ⊥

  module _ (sendmsg : S → List (List ℕ) → Sent × S)
      (documented : (s : S) (vec : List (List ℕ))
        → Sends wire (wire s) (bytes_of vec) (sendmsg s vec))
      (progress : (s : S) (vec : List (List ℕ))
        → Writable s
        → 1 ≤ length (bytes_of vec)
        → Progress (sendmsg s vec).0 × Writable (sendmsg s vec).1) where
    do_send-SendsAll :
        (again : List Bucket → Sending S) (s : S) (chain : List Bucket)
        → Writable s
        → All Unfinished chain
        → (chain ≢ [] → SendsAll (wire s ++ unsent chain) (again chain))
        → SendsAll (wire s ++ unsent chain) (do_send sendmsg again s chain)
    do_send-SendsAll again s [] can un rest = (refl, refl, sym (append-nil (wire s)), can)
    do_send-SendsAll again s (b ∷ chain) can (u, us) rest =
        let some_len : (len b == 0) ≡ false = ground arith in
        rw some_len (rest (λ n. absurd (omega (arith, ap length n))))

    after-SendsAll :
        (again : S → List Bucket → Sending S) (before : List ℕ) (chain : List Bucket) (bound : ℕ)
        → length (unsent chain) ≤ suc bound
        → length (unsent chain) < 2 ^ 64
        → All InRange chain
        → All Unfinished chain
        → ((t : S) (left : List Bucket)
            → Writable t
            → length (unsent left) ≤ bound
            → length (unsent left) < 2 ^ 64
            → All InRange left
            → All Unfinished left
            → left ≢ []
            → SendsAll (wire t ++ unsent left) (again t left))
        → (answer : Sent × S) → Sends wire before (bytes_of (gather max_iovec chain)) answer
        → Progress answer.0 × Writable answer.1
        → SendsAll (before ++ unsent chain) (after sendmsg again chain answer)
    after-SendsAll again before chain bound small sized h un ih (sent n, s) (fits, e)
          (some_bytes, can) =
        let left = account n chain in
        let stream : wire s ++ unsent left ≡ before ++ unsent chain =
          ap (λ w. w ++ unsent left) e ∙ round-stream n max_iovec before chain h fits in
        let fewer : length (unsent left) ≡ length (unsent chain) - n =
          ap length (account-unsent n chain h) ∙ length-drop n (unsent chain) in
        let inside : All InRange left = account-InRange n chain h in
        let more : All Unfinished left = account-Unfinished n chain un h in
        subst (λ all. SendsAll all (do_send sendmsg (again s) s left)) stream
          (do_send-SendsAll (again s) s left can more
            (ih s left can (omega arith) (omega arith) inside more))
    after-SendsAll again before chain bound small sized h un ih (failed status, s) e
          (some_bytes, can) =
        absurd some_bytes

    -- For a `sendmsg` that puts on the wire the first bytes of its buffers, as many as it says, and
    -- on a writable socket at least one of them where there is one, and leaves it writable; a
    -- writable socket; and a chain that is not NULL, in which each bucket has something left to
    -- send, less than 2^64 bytes altogether: with as many rounds as there are bytes to send, the
    -- function returns YMO_OKAY, the chain is NULL, all that the chain had to send is on the wire,
    -- in order, and the socket is writable.
    pub send_buckets-SendsAll :
        (rounds : ℕ) (s : S) (chain : List Bucket)
        → Writable s
        → length (unsent chain) ≤ rounds
        → length (unsent chain) < 2 ^ 64
        → All InRange chain
        → All Unfinished chain
        → chain ≢ []
        → SendsAll (wire s ++ unsent chain) (send_buckets sendmsg rounds s chain)
    unfolding send_buckets
    send_buckets-SendsAll rounds s [] can h fits are un some_chain = absurd (some_chain refl)
    send_buckets-SendsAll zero s (b ∷ chain) can h fits (is, are) (u, us) some_chain = absurd (
        omega (
          arith,
          length-append (drop b.bytes_sent b.content) (unsent chain),
          length-drop b.bytes_sent b.content,
        ))
    send_buckets-SendsAll (suc rounds) s (b ∷ chain) can h fits (is, are) (u, us) some_chain =
        let vec = gather max_iovec (b ∷ chain) in
        let some_bytes : 1 ≤ length (bytes_of vec) = gather-some 31 b chain is u in
        let most : length (bytes_of vec) ≤ length (unsent (b ∷ chain)) =
          gathered max_iovec (b ∷ chain) (is, are) in
        let sends : ltb 0 (length (bytes_of vec) % 2 ^ 64) ≡ true = ground arith in
        rw sends (
          after-SendsAll (send_buckets sendmsg rounds) (wire s) (b ∷ chain) rounds h fits (is, are)
            (u, us) (send_buckets-SendsAll rounds) (sendmsg s vec) (documented s vec)
            (progress s vec can some_bytes))
