-- ===== src/Core/Bucket/Stream.antt =====
-- `ymo_net_send_buckets` and its variant for TLS as a stream: the bytes on the wire, whatever the
-- number of bytes that each call takes.
use libyimmo.Base.{
  ℕ, zero, suc, ◌+◌, ◌-◌, ◌%◌, ◌^◌, ◌≤◌, List, [], ◌∷◌, ◌++◌, append_assoc, Bool-cases, inl, inr,
  length, take, drop, length-drop, take-append-drop, drop-all, ltb, ◌==◌, ◌≡◌, ◌≢◌, refl, sym, ap,
  ap₂, ◌∙◌, arith, All,
}
use mathlib.Core.Path.{subst}
use libyimmo.Core.Bucket.{
  Bucket, len, iov, gather, bytes_of, account, Sent, sent, failed, Sending, returned, still,
  null_dereference, max_iovec, do_send, after, send_buckets, Written, wrote, want_rw, broken,
  until_null, took, send_buckets_tls,
}
use libyimmo.Core.Bucket.Chain.{InRange, unsent, iov-drop, account-InRange, round-stream, drop-drop}

module _ {S : Type 0} (wire : S → List ℕ) where
  -- The stream `all` is what was sent, then what the chain still has; NULL is not dereferenced.
  abbrev pub Streams : List ℕ → Sending S → Type 0
  Streams all (returned status s chain) = (wire s ++ unsent chain ≡ all) × All InRange chain
  Streams all (still s chain) = (wire s ++ unsent chain ≡ all) × All InRange chain
  Streams all (null_dereference s) = ⊥

  -- What `sendmsg` does to the wire: it appends the first bytes of its buffers, as many as it says.
  abbrev pub Sends : List ℕ → List ℕ → Sent × S → Type 0
  Sends before vec (sent n, s) = (n ≤ length vec) × (wire s ≡ before ++ take n vec)
  Sends before vec (failed status, s) = wire s ≡ before

  -- The same for `SSL_write_ex`.
  abbrev pub Writes : List ℕ → List ℕ → Written × S → Type 0
  Writes before buf (wrote n, s) = (n ≤ length buf) × (wire s ≡ before ++ take n buf)
  Writes before buf (want_rw, s) = wire s ≡ before
  Writes before buf (broken, s) = wire s ≡ before

  module _ (sendmsg : S → List (List ℕ) → Sent × S)
      (documented : (s : S) (vec : List (List ℕ))
        → Sends (wire s) (bytes_of vec) (sendmsg s vec)) where
    do_send-Streams :
        (all : List ℕ) (again : List Bucket → Sending S) (s : S) (chain : List Bucket)
        → wire s ++ unsent chain ≡ all
        → All InRange chain
        → Streams all (again chain)
        → Streams all (do_send sendmsg again s chain)
    do_send-Streams all again s [] e h rest = (e, h)
    do_send-Streams all again s (b ∷ chain) e h rest = elim (Bool-cases (len b == 0)) [
      | inl zero_len ↦ rw zero_len (e, h)
      | inr more ↦ rw more rest
    ]

    after-Streams :
        (again : S → List Bucket → Sending S) (before : List ℕ) (chain : List Bucket)
        → ((t : S) (left : List Bucket)
            → All InRange left
            → Streams (wire t ++ unsent left) (again t left))
        → All InRange chain
        → (answer : Sent × S) → Sends before (bytes_of (gather max_iovec chain)) answer
        → Streams (before ++ unsent chain) (after sendmsg again chain answer)
    after-Streams again before chain ih h (failed status, s) e = (ap (λ w. w ++ unsent chain) e, h)
    after-Streams again before chain ih h (sent n, s) (fits, e) =
        let left = account n chain in
        let stream : wire s ++ unsent left ≡ before ++ unsent chain =
          ap (λ w. w ++ unsent left) e ∙ round-stream n max_iovec before chain h fits in
        let kept : All InRange left = account-InRange n chain h in
        do_send-Streams (before ++ unsent chain) (again s) s left stream kept
          (subst (λ all. Streams all (again s left)) stream (ih s left kept))

    -- For any number of rounds of `goto do_send`, and for a `sendmsg` that puts on the wire the
    -- first bytes of its buffers, as many as it says (none when it fails): where the function
    -- stops, with success or an error, what is on the wire followed by what the chain still has to
    -- send is what was on the wire followed by what the chain had to send, so no byte is lost,
    -- repeated or reordered, and no bucket has sent more than its length.
    pub send_buckets-Streams :
        (rounds : ℕ) (s : S) (chain : List Bucket)
        → All InRange chain
        → Streams (wire s ++ unsent chain) (send_buckets sendmsg rounds s chain)
    unfolding send_buckets
    send_buckets-Streams zero s chain h = (refl, h)
    send_buckets-Streams (suc rounds) s chain h =
        let vec = gather max_iovec chain in
        elim (Bool-cases (ltb 0 (length (bytes_of vec) % 2 ^ 64))) [
          | inl e ↦ rw e (
              after-Streams (send_buckets sendmsg rounds) (wire s) chain
                (send_buckets-Streams rounds) h (sendmsg s vec) (documented s vec))
          | inr e ↦ rw e (refl, h)
        ]

  module _ (ssl_write : S → List ℕ → Written × S)
      (documented : (s : S) (buf : List ℕ) → Writes (wire s) buf (ssl_write s buf)) where
    until_null-Streams :
        (all : List ℕ) (again : S → Sending S) (s : S) (chain : List Bucket)
        → wire s ++ unsent chain ≡ all
        → All InRange chain
        → (chain ≢ [] → Streams all (again s))
        → Streams all (until_null ssl_write again s chain)
    until_null-Streams all again s [] e h rest = (e, h)
    until_null-Streams all again s (b ∷ chain) e h rest =
        rest (λ n. absurd (omega (arith, ap length n)))

    took-Streams :
        (again : S → Sending S) (before : List ℕ) (b : Bucket) (chain : List Bucket)
        → InRange b
        → All InRange chain
        → ((t : S) → chain ≢ [] → Streams (wire t ++ unsent chain) (again t))
        → (answer : Written × S) → Writes before (iov b) answer
        → Streams (before ++ unsent (b ∷ chain)) (took ssl_write again b chain answer)
    took-Streams again before b chain h hs ih (want_rw, s) e =
        (ap (λ w. w ++ unsent (b ∷ chain)) e, (h, hs))
    took-Streams again before b chain h hs ih (broken, s) e =
        (ap (λ w. w ++ unsent (b ∷ chain)) e, (h, hs))
    took-Streams again before b chain h hs ih (wrote n, s) (fits, e) =
        let front : iov b ≡ drop b.bytes_sent b.content = iov-drop b h in
        let rest : List ℕ = drop b.bytes_sent b.content in
        let started : b.bytes_sent ≤ len b = h.started in
        let most : n ≤ len b - b.bytes_sent =
          omega (arith, fits, ap length front, length-drop b.bytes_sent b.content) in
        let on_wire : wire s ≡ before ++ take n rest = e ∙ ap (λ t. before ++ take n t) front in
        let split : (more : List ℕ)
            → more ≡ drop n rest
            → wire s ++ (more ++ unsent chain) ≡ before ++ unsent (b ∷ chain) =
          λ more same.
            ap₂ (λ w m. w ++ (m ++ unsent chain)) on_wire same
            ∙ append_assoc before (take n rest) (drop n rest ++ unsent chain)
            ∙ ap (λ t. before ++ t)
                (sym (append_assoc (take n rest) (drop n rest) (unsent chain))
                  ∙ ap (λ t. t ++ unsent chain) (take-append-drop n rest)) in
        elim (Bool-cases (ltb (b.bytes_sent + n) (len b))) [
          | inl less ↦ rw less (
            split (drop (b.bytes_sent + n) b.content) (sym (drop-drop b.content b.bytes_sent n)),
            (record { started = ground arith; sized = h.sized }, hs),
          )
          | inr whole ↦
              let all_taken : drop n rest ≡ [] =
                drop-drop b.content b.bytes_sent n
                ∙ drop-all b.content (b.bytes_sent + n) (ground arith) in
              let stream : wire s ++ unsent chain ≡ before ++ unsent (b ∷ chain) =
                split [] (sym all_taken) in
              rw whole (
                until_null-Streams (before ++ unsent (b ∷ chain)) again s chain stream hs
                  (λ some_chain. subst (λ all. Streams all (again s)) stream (ih s some_chain)))
        ]

    -- For an `SSL_write_ex` that puts on the wire the first bytes of its buffer, as many as it says
    -- (none when it fails or wants to be called again), and a chain that is not NULL: where the
    -- function stops, what is on the wire followed by what the chain still has to send is what was
    -- on the wire followed by what the chain had to send, no bucket has sent more than its length,
    -- and NULL is not dereferenced.
    pub send_buckets_tls-Streams :
        (s : S) (chain : List Bucket)
        → All InRange chain
        → chain ≢ []
        → Streams (wire s ++ unsent chain) (send_buckets_tls ssl_write s chain)
    unfolding send_buckets_tls
    send_buckets_tls-Streams s [] h some_chain = absurd (some_chain refl)
    send_buckets_tls-Streams s (b ∷ chain) (h, hs) some_chain =
        took-Streams (λ t. send_buckets_tls ssl_write t chain) (wire s) b chain h hs
          (λ t more. send_buckets_tls-Streams t chain hs more) (ssl_write s (iov b))
          (documented s (iov b))
