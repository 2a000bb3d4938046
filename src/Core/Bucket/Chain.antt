-- ===== src/Core/Bucket/Chain.antt =====
-- Gathering and accounting for src/core/ymo_net.c: what goes into the iovec is the front of what
-- the chain still has to send, and the accounting takes as much off the chain as was sent.
use libyimmo.Base.{
  ℕ, zero, suc, ◌+◌, ◌-◌, ◌^◌, ◌≤◌, ◌<◌, List, [], ◌∷◌, ◌++◌, append_assoc, true, Bool-cases, inl,
  inr, length, take-all, take, drop, take-append-drop, length-append, length-drop, ltb, ◌==◌,
  if◌then◌else◌, sub_size, ◌≡◌, refl, sym, ap, ap₂, ◌∙◌, arith, All,
}
use libyimmo.Core.Bucket.{Bucket, len, iov, gather, bytes_of, account}

-- No more was sent than there is, and the length is a size_t.
pub record InRange (b : Bucket) : Type 0 where
  pub started : b.bytes_sent ≤ len b
  pub sized : len b < 2 ^ 64

abbrev pub unsent : List Bucket → List ℕ
unsent [] = []
unsent (b ∷ chain) = drop b.bytes_sent b.content ++ unsent chain

pub take-short : (xs ys : List ℕ) (n : ℕ) → n ≤ length xs → take n (xs ++ ys) ≡ take n xs
take-short xs ys zero h = refl
take-short [] ys (suc n) h = absurd (omega arith)
take-short (x ∷ xs) ys (suc n) h = ap (◌∷◌ x) (take-short xs ys n (omega arith))

pub drop-short : (xs ys : List ℕ) (n : ℕ) → n ≤ length xs → drop n (xs ++ ys) ≡ drop n xs ++ ys
drop-short xs ys zero h = refl
drop-short [] ys (suc n) h = absurd (omega arith)
drop-short (x ∷ xs) ys (suc n) h = drop-short xs ys n (omega arith)

drop-long : (xs ys : List ℕ) (n : ℕ) → length xs ≤ n → drop n (xs ++ ys) ≡ drop (n - length xs) ys
drop-long [] ys n h = ap (λ k. drop k ys) (omega arith)
drop-long (x ∷ xs) ys zero h = absurd (omega arith)
drop-long (x ∷ xs) ys (suc n) h =
    drop-long xs ys n (omega arith) ∙ ap (λ k. drop k ys) (omega arith)

drop-nil : (n : ℕ) → drop {A = ℕ} n [] ≡ []
drop-nil zero = refl
drop-nil (suc n) = refl

pub drop-drop : (xs : List ℕ) (m n : ℕ) → drop n (drop m xs) ≡ drop (m + n) xs
drop-drop xs zero n = ap (λ k. drop k xs) (omega arith)
drop-drop [] (suc m) n = drop-nil n ∙ sym (drop-nil (suc m + n))
drop-drop (x ∷ xs) (suc m) n = drop-drop xs m n ∙ ap (λ k. drop k (x ∷ xs)) (le m n)
  where
    le : (i j : ℕ) → suc (i + j) ≡ suc i + j
    le i j = omega arith

remaining : (b : Bucket) → InRange b → sub_size (len b) b.bytes_sent ≡ len b - b.bytes_sent
remaining b h =
    let started : b.bytes_sent ≤ len b = h.started in
    let sized : len b < 2 ^ 64 = h.sized in omega arith

pub iov-drop : (b : Bucket) → InRange b → iov b ≡ drop b.bytes_sent b.content
iov-drop b h =
    take-all (drop b.bytes_sent b.content) (sub_size (len b) b.bytes_sent)
      (omega (arith, remaining b h, length-drop b.bytes_sent b.content))

drop_empty : (xs : List ℕ) (n : ℕ) → (length xs == 0) ≡ true → drop n xs ≡ []
drop_empty [] zero h = refl
drop_empty [] (suc n) h = refl
drop_empty (x ∷ xs) n h = absurd (ground arith)

empty_unsent : (b : Bucket) → (len b == 0) ≡ true → drop b.bytes_sent b.content ≡ []
empty_unsent b h = drop_empty b.content b.bytes_sent h

-- What the iovec leaves for later rounds.
abbrev pub behind : ℕ → List Bucket → List ℕ
behind zero chain = unsent chain
behind (suc n) [] = []
behind (suc n) (b ∷ chain) =
    let skipped = behind (suc n) chain in
    let taken = behind n chain in if len b == 0 then skipped else taken

pub gather-unsent :
    (n : ℕ) (chain : List Bucket)
    → All InRange chain
    → bytes_of (gather n chain) ++ behind n chain ≡ unsent chain
unfolding gather
gather-unsent zero chain h = refl
gather-unsent (suc n) [] h = refl
gather-unsent (suc n) (b ∷ chain) (h, hs) = elim (Bool-cases (len b == 0)) [
  | inl e ↦
      rw e (gather-unsent (suc n) chain hs ∙ sym (ap (λ t. t ++ unsent chain) (empty_unsent b e)))
  | inr e ↦ rw e (
      append_assoc (iov b) (bytes_of (gather n chain)) (behind n chain)
      ∙ ap₂ (λ s t. s ++ t) (iov-drop b h) (gather-unsent n chain hs))
]

pub gathered :
    (n : ℕ) (chain : List Bucket)
    → All InRange chain
    → length (bytes_of (gather n chain)) ≤ length (unsent chain)
gathered n chain h = omega (
  arith,
  length-append (bytes_of (gather n chain)) (behind n chain),
  ap length (gather-unsent n chain h),
)

pub account-unsent :
    (n : ℕ) (chain : List Bucket)
    → All InRange chain
    → unsent (account n chain) ≡ drop n (unsent chain)
unfolding account
account-unsent zero [] h = refl
account-unsent (suc n) [] h = refl
account-unsent zero (b ∷ chain) h = refl
account-unsent (suc n) (b ∷ chain) (h, hs) =
    let remain : sub_size (len b) b.bytes_sent ≡ length (drop b.bytes_sent b.content) =
      remaining b h ∙ sym (length-drop b.bytes_sent b.content) in
    elim (Bool-cases (ltb (suc n) (sub_size (len b) b.bytes_sent))) [
      | inl e ↦ rw e (
          ap (λ t. t ++ unsent chain) (sym (drop-drop b.content b.bytes_sent (suc n)))
          ∙ sym (drop-short (drop b.bytes_sent b.content) (unsent chain) (suc n) (ground arith)))
      | inr e ↦ rw e (
          account-unsent (suc n - sub_size (len b) b.bytes_sent) chain hs
          ∙ ap (λ k. drop (suc n - k) (unsent chain)) remain
          ∙ sym (drop-long (drop b.bytes_sent b.content) (unsent chain) (suc n) (ground arith)))
    ]

pub account-InRange :
    (n : ℕ) (chain : List Bucket) → All InRange chain → All InRange (account n chain)
unfolding account
account-InRange zero [] h = h
account-InRange (suc n) [] h = h
account-InRange zero (b ∷ chain) h = h
account-InRange (suc n) (b ∷ chain) (h, hs) =
    let started : b.bytes_sent ≤ len b = h.started in
    let same = remaining b h in
    elim (Bool-cases (ltb (suc n) (sub_size (len b) b.bytes_sent))) [
      | inl e ↦ rw e (record { started = ground arith; sized = h.sized }, hs)
      | inr e ↦ rw e (account-InRange (suc n - sub_size (len b) b.bytes_sent) chain hs)
    ]

-- One round of gathering, sending and accounting keeps the stream.
pub round-stream :
    (n : ℕ) (most : ℕ) (before : List ℕ) (chain : List Bucket)
    → All InRange chain
    → n ≤ length (bytes_of (gather most chain))
    → (before ++ take n (bytes_of (gather most chain))) ++ unsent (account n chain)
      ≡ before ++ unsent chain
round-stream n most before chain h fits =
    append_assoc before (take n (bytes_of (gather most chain))) (unsent (account n chain))
    ∙ ap (λ t. before ++ t)
        (ap₂ (λ s t. s ++ t)
            (sym (take-short (bytes_of (gather most chain)) (behind most chain) n fits)
              ∙ ap (take n) (gather-unsent most chain h))
            (account-unsent n chain h)
          ∙ take-append-drop n (unsent chain))
