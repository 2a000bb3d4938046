-- ===== src/Core/Queue/Heap.antt =====
-- What the nodes of a queue (src/core/ymo_queue.c) represent.
use libyimmo.Base.{
  ℕ, zero, suc, ◌≤◌, Bool, true, false, Option, none, some, List, [], ◌∷◌, ◌++◌, length, All,
  All-append, ◌==◌, ◌≡◌, ◌≢◌, refl, sym, ap, ◌∙◌, arith,
}
use libyimmo.Core.Queue.{Node, Nodes, Queue, write, load}

-- A node in the queue: its address, what it holds, and whether it is one of the pool.
pub record Entry : Type 0 where
  pub address : ℕ
  pub value : ℕ
  pub of_pool : Bool

abbrev pub first : List Entry → ℕ
first [] = 0
first (e ∷ es) = e.address

abbrev pub last : ℕ → List Entry → ℕ
last p [] = p
last p (e ∷ es) = last e.address es

abbrev pub top : List ℕ → ℕ
top [] = 0
top (a ∷ pool) = a

-- The nodes in order, the first with `p` in front of it.
abbrev pub Linked : Nodes → ℕ → List Entry → Type 0
Linked h p [] = Unit
Linked h p (e ∷ es) =
    (1 ≤ e.address)
    × (h e.address
        ≡ some (record { next = first es; prev = p; item = e.value; pooled = e.of_pool }))
    × Linked h e.address es

-- The stack of the pool.
abbrev pub Stacked : Nodes → List ℕ → Type 0
Stacked h [] = Unit
Stacked h (a ∷ pool) =
    (1 ≤ a)
    × ((n : Node) × (h a ≡ some n) × (n.next ≡ top pool) × (n.pooled ≡ true))
    × Stacked h pool

abbrev pub Apart : ℕ → List ℕ → Type 0
Apart a bs = All (λ b. b ≢ a) bs

abbrev pub Distinct : List ℕ → Type 0
Distinct [] = Unit
Distinct (a ∷ bs) = Apart a bs × Distinct bs

abbrev pub addresses : List Entry → List ℕ
addresses [] = []
addresses (e ∷ es) = e.address ∷ addresses es

pub write_other : (h : Nodes) (a b : ℕ) (n : Option Node) → b ≢ a → write h a n b ≡ h b
unfolding write
write_other h a b n ne = let differ : (b == a) ≡ false = ground arith in rw differ refl

pub write_same : (h : Nodes) (a : ℕ) (n : Option Node) → write h a n a ≡ n
unfolding write
write_same h a n = let same : (a == a) ≡ true = ground arith in rw same refl

pub load-write : (h : Nodes) (a : ℕ) (n : Option Node) → 1 ≤ a → load (write h a n) a ≡ n
load-write h zero n h1 = absurd (omega arith)
load-write h (suc a) n h1 = write_same h (suc a) n

pub load_node : (h : Nodes) (a : ℕ) → 1 ≤ a → load h a ≡ h a
load_node h zero h1 = absurd (omega arith)
load_node h (suc a) h1 = refl

pub write-Linked :
    (h : Nodes) (a p : ℕ) (n : Option Node) (es : List Entry)
    → Apart a (addresses es)
    → Linked h p es
    → Linked (write h a n) p es
write-Linked h a p n [] ne l = tt
write-Linked h a p n (e ∷ es) (ne, nes) (pos, is, l) =
    (pos, write_other h a e.address n ne ∙ is, write-Linked h a e.address n es nes l)

pub write-Stacked :
    (h : Nodes) (a : ℕ) (n : Option Node) (pool : List ℕ)
    → Apart a pool
    → Stacked h pool
    → Stacked (write h a n) pool
write-Stacked h a n [] ne l = tt
write-Stacked h a n (b ∷ pool) (ne, nes) (pos, (m, is, below, pooled), l) =
    (pos, (m, write_other h a b n ne ∙ is, below, pooled), write-Stacked h a n pool nes l)

pub last_holds :
    (P : ℕ → Type 0) (e : Entry) (es : List Entry)
    → All P (addresses (e ∷ es))
    → P (last e.address es)
last_holds P e [] (h, hs) = h
last_holds P e (f ∷ es) (h, hs) = last_holds P f es hs

-- The queue holds the items of `es`, and its pool the nodes at `pool`.
pub record Holds (q : Queue) (es : List Entry) (pool : List ℕ) : Type 0 where
  pub head_is : q.head ≡ first es
  pub tail_is : q.tail ≡ last 0 es
  pub counted : q.no_items ≡ length es
  pub stack_is : q.pstack ≡ top pool
  pub linked : Linked q.nodes 0 es
  pub stacked : Stacked q.nodes pool
  pub distinct : Distinct (addresses es ++ pool)

pub addresses-append : (es fs : List Entry) → addresses (es ++ fs) ≡ addresses es ++ addresses fs
addresses-append [] fs = refl
addresses-append (e ∷ es) fs = ap (◌∷◌ e.address) (addresses-append es fs)

pub All-left : (P : ℕ → Type 0) (xs ys : List ℕ) → All P (xs ++ ys) → All P xs
All-left P [] ys h = tt
All-left P (x ∷ xs) ys (h, hs) = (h, All-left P xs ys hs)

pub All-right : (P : ℕ → Type 0) (xs ys : List ℕ) → All P (xs ++ ys) → All P ys
All-right P [] ys h = h
All-right P (x ∷ xs) ys (h, hs) = All-right P xs ys hs

pub Distinct-left : (xs ys : List ℕ) → Distinct (xs ++ ys) → Distinct xs
Distinct-left [] ys h = tt
Distinct-left (x ∷ xs) ys (h, hs) = (All-left (λ b. b ≢ x) xs ys h, Distinct-left xs ys hs)

-- An element in the middle is apart from both sides.
pub differ_before : (xs : List ℕ) (a : ℕ) (ys : List ℕ) → Distinct (xs ++ (a ∷ ys)) → Apart a xs
differ_before [] a ys h = tt
differ_before (x ∷ xs) a ys (h, hs) =
    let differ = All-right (λ b. b ≢ x) xs (a ∷ ys) h in
    ((λ e. differ.0 (sym e)), differ_before xs a ys hs)

pub differ_behind : (xs : List ℕ) (a : ℕ) (ys : List ℕ) → Distinct (xs ++ (a ∷ ys)) → Apart a ys
differ_behind [] a ys (h, hs) = h
differ_behind (x ∷ xs) a ys (h, hs) = differ_behind xs a ys hs

pub Linked-positive :
    (h : Nodes) (p : ℕ) (es : List Entry) → Linked h p es → All (λ k. 1 ≤ k) (addresses es)
Linked-positive h p [] l = tt
Linked-positive h p (e ∷ es) (pos, is, l) = (pos, Linked-positive h e.address es l)

pub differ_from_end :
    (e : Entry) (es : List Entry) (ys : List ℕ)
    → Distinct (addresses (e ∷ es) ++ ys)
    → Apart (last e.address es) ys
differ_from_end e [] ys (h, hs) = h
differ_from_end e (f ∷ es) ys (h, hs) = differ_from_end f es ys hs

pub without_one :
    (xs : List ℕ) (a : ℕ) (ys : List ℕ) → Distinct (xs ++ (a ∷ ys)) → Distinct (xs ++ ys)
without_one [] a ys (h, hs) = hs
without_one (x ∷ xs) a ys (h, hs) = (without (λ b. b ≢ x) xs a ys h, without_one xs a ys hs)
  where
    without :
        (P : ℕ → Type 0) (us : List ℕ) (b : ℕ) (vs : List ℕ)
        → All P (us ++ (b ∷ vs))
        → All P (us ++ vs)
    without P [] b vs (k, ks) = ks
    without P (u ∷ us) b vs (k, ks) = (k, without P us b vs ks)

pub behind_differ :
    (xs : List ℕ) (a : ℕ) → Distinct (xs ++ []) → Apart a xs → Distinct (xs ++ (a ∷ []))
behind_differ [] a d h = (tt, tt)
behind_differ (x ∷ xs) a (h, hs) (ne, nes) = (
  All-append (λ b. b ≢ x) xs (a ∷ []) (All-left (λ b. b ≢ x) xs [] h) ((λ e. ne (sym e)), tt),
  behind_differ xs a hs nes,
)

insert_All :
    (P : ℕ → Type 0) (us : List ℕ) (b : ℕ) (vs : List ℕ)
    → P b
    → All P (us ++ vs)
    → All P (us ++ (b ∷ vs))
insert_All P [] b vs h k = (h, k)
insert_All P (u ∷ us) b vs h (k, ks) = (k, insert_All P us b vs h ks)

pub move_behind : (a : ℕ) (xs ys : List ℕ) → Distinct (a ∷ (xs ++ ys)) → Distinct (xs ++ (a ∷ ys))
move_behind a [] ys d = d
move_behind a (x ∷ xs) ys ((ne, nes), (h, hs)) =
    (insert_All (λ b. b ≢ x) xs a ys (λ e. ne (sym e)) h, move_behind a xs ys (nes, hs))

-- What the queue does, as a property of the queue that it leaves.
abbrev pub Yields : List Entry → List ℕ → Option Queue → Type 0
Yields es pool none = ⊥
Yields es pool (some q) = Holds q es pool
