-- ===== src/Ws/Conn/Close.antt =====
-- Closing: the reason that a close frame gives, and the states behind which nothing is sent.
use libyimmo.Base.{
  ℕ, zero, suc, ◌+◌, ◌-◌, ◌≤◌, ◌≡◌, ◌⊎◌, inl, inr, refl, sym, ap, ◌∙◌, List, [], ◌∷◌, ◌++◌,
  append_assoc, append-nil, length, take, length-take, length-append, min, ◌%◌, ◌&&◌, ◌||◌, leb,
  ltb, Bool-cases, arith,
}
use mathlib.Core.Path.{subst}
use libyimmo.Ws.Conn.{
  SessionState, close_received, error, Conn, Server, send_in, session_send, first_vals, reason_of,
  get_close_reason, read_in, proto_read,
}

abbrev pub joined : List (List ℕ) → List ℕ
joined [] = []
joined (b ∷ bs) = b ++ joined bs

take_none : (n : ℕ) (xs : List ℕ) → n ≡ 0 → take n xs ≡ []
take_none zero xs e = refl
take_none (suc n) xs e = absurd (omega arith)

take_nil : (n : ℕ) → take {A = ℕ} n [] ≡ []
take_nil zero = refl
take_nil (suc n) = refl

take_over : (n : ℕ) (xs ys : List ℕ) → take n (xs ++ ys) ≡ take n xs ++ take (n - length xs) ys
take_over zero xs ys = sym (take_none (0 - length xs) ys (omega arith))
take_over (suc n) [] ys = let e : suc n ≡ suc n - 0 = omega arith in ap (λ k. take k ys) e
take_over (suc n) (x ∷ xs) ys =
    let e : n - length xs ≡ suc n - suc (length xs) = omega arith in
    ap (◌∷◌ x) (take_over n xs ys ∙ ap (λ k. take n xs ++ take k ys) e)

first_vals-joined :
    (vals : List ℕ) (recv : List (List ℕ))
    → length vals ≤ 2
    → first_vals vals recv ≡ vals ++ take (2 - length vals) (joined recv)
unfolding first_vals
first_vals-joined vals [] h =
    sym (ap (λ t. vals ++ t) (take_nil (2 - length vals)) ∙ append-nil vals)
first_vals-joined vals (b ∷ bs) h =
    let k = 2 - length vals in
    let sum : length (vals ++ take k b) ≡ length vals + min k (length b) =
      omega (arith, length-append vals (take k b), length-take k b) in
    let left : 2 - length (vals ++ take k b) ≡ k - length b = omega (arith, sum) in
    let whole : take k b ++ take (2 - length (vals ++ take k b)) (joined bs)
        ≡ take k (b ++ joined bs) =
      ap (λ i. take k b ++ take i (joined bs)) left ∙ sym (take_over k b (joined bs)) in
    elim (Bool-cases (ltb (length vals) 2)) [
      | inl more ↦ rw more (
          first_vals-joined (vals ++ take k b) bs (omega (arith, sum))
          ∙ append_assoc vals (take k b) (take (2 - length (vals ++ take k b)) (joined bs))
          ∙ ap (λ t. vals ++ t) whole)
      | inr full ↦ rw full (
          sym (ap (λ t. vals ++ t) (take_none k (b ++ joined bs) (ground arith)) ∙ append-nil vals))
    ]

-- The reason of a close frame is the big-endian number in its first two bytes, however the
-- payload is cut into buckets, and there is none if there are fewer bytes.
pub get_close_reason-joined :
    (recv : List (List ℕ)) → get_close_reason recv ≡ reason_of (take 2 (joined recv))
unfolding get_close_reason
get_close_reason-joined recv = ap reason_of (first_vals-joined [] recv (omega arith))

-- No frame is sent behind these states.
abbrev pub IsOver : SessionState → Type 0
IsOver s = (s ≡ close_received) ⊎ (s ≡ error)

-- What happens to a connection: bytes arrive, or the user sends.
pub data Step (server : Server) (c : Conn) : Conn → Type 0 where
  arrives : (addr : ℕ) (bytes : List ℕ) → Step server c (proto_read server addr bytes c).1
  sends : (flags : ℕ) (message : List ℕ) → Step server c (session_send flags message c).1

pub data Steps (server : Server) (c : Conn) : Conn → Type 0 where
  none_yet : Steps server c c
  one_more : (d e : Conn) → Steps server c d → Step server d e → Steps server c e

proto_read-over :
    (server : Server) (addr : ℕ) (bytes : List ℕ) (c : Conn)
    → IsOver c.state
    → (proto_read server addr bytes c).1 ≡ c
unfolding proto_read read_in
proto_read-over server addr bytes c over = elim over [
  | inl e ↦ ap (λ st. (read_in st server addr bytes c).1) e
  | inr e ↦ ap (λ st. (read_in st server addr bytes c).1) e
]

session_send-over :
    (flags : ℕ) (message : List ℕ) (c : Conn)
    → IsOver c.state
    → (session_send flags message c).1 ≡ c
unfolding session_send send_in
session_send-over flags message c over =
    elim (Bool-cases (leb (flags % 16) 2 || (leb 8 (flags % 16) && leb (flags % 16) 10))) [
      | inl known ↦ rw known (elim over [
        | inl e ↦ ap (λ st. (send_in st flags message c).1) e
        | inr e ↦ ap (λ st. (send_in st flags message c).1) e
      ])
      | inr unknown ↦ rw unknown
    ]

Step-over : (server : Server) (c d : Conn) → IsOver c.state → Step server c d → d ≡ c
Step-over server c _ over (arrives addr bytes) = proto_read-over server addr bytes c over
Step-over server c _ over (sends flags message) = session_send-over flags message c over

-- Once a close has been received or a protocol error answered, no arriving bytes and no sending
-- change the connection any more.
pub Steps-over : (server : Server) (c d : Conn) → IsOver c.state → Steps server c d → d ≡ c
Steps-over server c _ over none_yet = refl
Steps-over server c _ over (one_more d e before step) =
    let same = Steps-over server c d over before in
    Step-over server d e (subst (λ x. IsOver x.state) (sym same) over) step ∙ same
