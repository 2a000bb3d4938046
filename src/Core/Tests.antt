-- ===== src/Core/Tests.antt =====
-- Runs of the parts of src/core.
use libyimmo.Base.{
  ℕ, ◌≤◌, min, List, [], ◌∷◌, ◌++◌, length, take, okay, ebadmsg, eagain, ◌≡◌, refl, ap, arith, All,
}
use libyimmo.Core.Bucket.{
  Bucket, gather, bytes_of, account, Sent, sent, returned, still, send_buckets, Written, wrote,
  send_buckets_tls,
}
use libyimmo.Core.Bucket.Chain.{InRange, unsent}
use libyimmo.Core.Bucket.Stream.{
  Streams, Sends, Writes, send_buckets-Streams, send_buckets_tls-Streams,
}
use libyimmo.Core.Bucket.Drain.{Progress, SendsAll, send_buckets-SendsAll}

-- A socket that takes three bytes at a time; its state is what it took.
abbrev pub wire : List ℕ → List ℕ
wire s = s

abbrev pub sendmsg : List ℕ → List (List ℕ) → Sent × List ℕ
sendmsg s vec =
    (sent (min 3 (length (bytes_of vec))), s ++ take (min 3 (length (bytes_of vec))) (bytes_of vec))

abbrev chain : List Bucket
chain =
    record { content = 1 ∷ 2 ∷ []; bytes_sent = 1 }
    ∷ record { content = 3 ∷ 4 ∷ 5 ∷ 6 ∷ []; bytes_sent = 0 }
    ∷ []

abbrev half_sent : List Bucket
half_sent = record { content = 3 ∷ 4 ∷ 5 ∷ 6 ∷ []; bytes_sent = 2 } ∷ []

pub sendmsg-Sends :
    (s : List ℕ) (vec : List (List ℕ)) → Sends wire (wire s) (bytes_of vec) (sendmsg s vec)
sendmsg-Sends s vec = (omega arith, refl)

-- It is never shut down.
abbrev pub Writable : List ℕ → Type 0
Writable s = Unit

pub sendmsg-Progress :
    (s : List ℕ) (vec : List (List ℕ))
    → Writable s
    → 1 ≤ length (bytes_of vec)
    → Progress (sendmsg s vec).0 × Writable (sendmsg s vec).1
sendmsg-Progress s vec can h = (omega arith, tt)

chain_fits : All InRange chain
chain_fits = (
  record { started = omega arith; sized = omega arith },
  (record { started = omega arith; sized = omega arith }, tt),
)

one_round : send_buckets sendmsg 1 [] chain ≡ still (2 ∷ 3 ∷ 4 ∷ []) half_sent
unfolding send_buckets gather account
one_round = refl

two_rounds : send_buckets sendmsg 2 [] chain ≡ returned okay (2 ∷ 3 ∷ 4 ∷ 5 ∷ 6 ∷ []) []
unfolding send_buckets gather account
two_rounds = refl

nothing_to_send : send_buckets sendmsg 2 [] [] ≡ returned ebadmsg [] []
unfolding send_buckets gather account
nothing_to_send = refl

send_buckets-Streams_example :
    Streams wire (wire [] ++ unsent chain) (send_buckets sendmsg 1 [] chain)
send_buckets-Streams_example = send_buckets-Streams wire sendmsg sendmsg-Sends 1 [] chain chain_fits

send_buckets-SendsAll_example :
    SendsAll wire Writable (wire [] ++ unsent chain) (send_buckets sendmsg 5 [] chain)
send_buckets-SendsAll_example =
    send_buckets-SendsAll wire Writable sendmsg sendmsg-Sends sendmsg-Progress 5 [] chain tt
      (omega arith) (omega arith) chain_fits (omega arith, (omega arith, tt))
      (λ n. absurd (omega (arith, ap length n)))

-- An SSL object that takes three bytes at a time.
abbrev ssl_write : List ℕ → List ℕ → Written × List ℕ
ssl_write s buf = (wrote (min 3 (length buf)), s ++ take (min 3 (length buf)) buf)

ssl_write-Writes : (s buf : List ℕ) → Writes wire (wire s) buf (ssl_write s buf)
ssl_write-Writes s buf = (omega arith, refl)

tls_partial :
    send_buckets_tls ssl_write [] chain
    ≡ returned eagain
        (2 ∷ 3 ∷ 4 ∷ 5 ∷ [])
        (record { content = 3 ∷ 4 ∷ 5 ∷ 6 ∷ []; bytes_sent = 3 } ∷ [])
unfolding send_buckets_tls
tls_partial = refl

send_buckets_tls-Streams_example :
    Streams wire (wire [] ++ unsent chain) (send_buckets_tls ssl_write [] chain)
send_buckets_tls-Streams_example =
    send_buckets_tls-Streams wire ssl_write ssl_write-Writes [] chain chain_fits
      (λ n. absurd (omega (arith, ap length n)))
