-- ===== src/Core/Queue/Popfront.antt =====
-- `ymo_queue_popfront` of src/core/ymo_queue.c against a list.
use libyimmo.Base.{
  ℕ, ◌^◌, ◌≤◌, ◌<◌, Bool, true, false, Option, none, some, List, [], ◌∷◌, ◌++◌, length, ◌==◌,
  sub_size, ◌>>=◌, ◌≡◌, ◌≢◌, refl, sym, ap, ◌∙◌, arith,
}
use mathlib.Core.Path.{subst}
use libyimmo.Core.Queue.{Node, Queue, write, load, set_prev, delete_node, popfront}
use libyimmo.Core.Queue.Heap.{
  Entry, first, Linked, Apart, Distinct, addresses, write_other, write_same, load_node,
  write-Linked, write-Stacked, last_holds, Holds, All-left, All-right, move_behind, Yields,
}

-- A node of the pool goes back to its stack.
abbrev pub pool_with : Bool → ℕ → List ℕ → List ℕ
pool_with true a pool = a ∷ pool
pool_with false a pool = pool

delete_node-Holds :
    (q : Queue) (a : ℕ) (n : Node) (es : List Entry) (pool : List ℕ) (pooled : Bool)
    → n.pooled ≡ pooled
    → Holds q es pool
    → 1 ≤ a
    → q.nodes a ≡ some n
    → Distinct (a ∷ (addresses es ++ pool))
    → Yields es (pool_with pooled a pool) (delete_node q a)
unfolding delete_node
delete_node-Holds q a n es pool true e h pos is d =
    let got : load q.nodes a ≡ some n = load_node q.nodes a pos ∙ is in
    let n1 : Node = record { next = q.pstack; prev = 0; item = n.item; pooled = true } in
    rw (got, e)
      (record {
        head_is = h.head_is;
        tail_is = h.tail_is;
        counted = h.counted;
        stack_is = refl;
        linked =
            write-Linked q.nodes a 0 (some n1) es (All-left (λ b. b ≢ a) (addresses es) pool d.0)
              h.linked;
        stacked = (
          pos,
          (n1, write_same q.nodes a (some n1), h.stack_is, refl),
          write-Stacked q.nodes a (some n1) pool (All-right (λ b. b ≢ a) (addresses es) pool d.0)
              h.stacked,
        );
        distinct = move_behind a (addresses es) pool d;
      })
delete_node-Holds q a n es pool false e h pos is d =
    let got : load q.nodes a ≡ some n = load_node q.nodes a pos ∙ is in
    rw (got, e)
      (record {
        head_is = h.head_is;
        tail_is = h.tail_is;
        counted = h.counted;
        stack_is = h.stack_is;
        linked =
            write-Linked q.nodes a 0 none es (All-left (λ b. b ≢ a) (addresses es) pool d.0)
              h.linked;
        stacked =
            write-Stacked q.nodes a none pool (All-right (λ b. b ≢ a) (addresses es) pool d.0)
              h.stacked;
        distinct = d.1;
      })

-- The value, and a queue with the other items.
abbrev pub Popped : ℕ → List Entry → List ℕ → Option (ℕ × Queue) → Type 0
Popped x es pool none = ⊥
Popped x es pool (some (y, q)) = (y ≡ x) × Holds q es pool

with_value :
    (x : ℕ) (es : List Entry) (pool : List ℕ) (o : Option Queue)
    → Yields es pool o
    → Popped x es pool (o >>= λ q. some (x, q))
with_value x es pool none h = h
with_value x es pool (some q) h = (refl, h)

-- A queue that holds the items of a list with at least one, doubly linked in this order, and the
-- nodes of its pool: `ymo_queue_popfront` accesses no NULL and no freed node, gives the first item,
-- and the queue holds the others in order. The node is on top of the pool, where it is one of
-- the pool, or freed.
pub popfront-Popped :
    (q : Queue) (e : Entry) (es : List Entry) (pool : List ℕ)
    → Holds q (e ∷ es) pool
    → length (e ∷ es) < 2 ^ 64
    → Popped e.value es (pool_with e.of_pool e.address pool) (popfront q)
unfolding popfront set_prev
popfront-Popped q e [] pool h small =
    let a : ℕ = q.head in
    let head_is : a ≡ e.address = h.head_is in
    let node_is = h.linked in
    let n : Node = record { next = 0; prev = 0; item = e.value; pooled = e.of_pool } in
    let pos : 1 ≤ a = subst (λ k. 1 ≤ k) (sym head_is) node_is.0 in
    let is : q.nodes a ≡ some n = ap q.nodes head_is ∙ node_is.1 in
    let some_head : (a == 0) ≡ false = ground arith in
    let got : load q.nodes a ≡ some n = load_node q.nodes a pos ∙ is in
    let only : (a == q.tail) ≡ true = ground (arith, h.tail_is) in
    let q1 : Queue = record q { head = 0; tail = 0; no_items = sub_size q.no_items 1 } in
    let held : Holds q1 [] pool = record {
      head_is = refl;
      tail_is = refl;
      counted = omega (arith, h.counted);
      stack_is = h.stack_is;
      linked = tt;
      stacked = h.stacked;
      distinct = h.distinct.1;
    } in
    subst (λ k. Popped e.value [] (pool_with e.of_pool k pool) (popfront q)) head_is
      (rw (some_head, got, only)
        (with_value e.value [] (pool_with e.of_pool a pool) (delete_node q1 a) (
          delete_node-Holds q1 a n [] pool e.of_pool refl held pos is
            (subst (λ k. Distinct (k ∷ pool)) (sym head_is) h.distinct))))
popfront-Popped q e (f ∷ es) pool h small =
    let a : ℕ = q.head in
    let b : ℕ = f.address in
    let head_is : a ≡ e.address = h.head_is in
    let n : Node = record { next = b; prev = 0; item = e.value; pooled = e.of_pool } in
    let m : Node = record {
      next = first es;
      prev = e.address;
      item = f.value;
      pooled = f.of_pool;
    } in
    let m0 : Node = record m { prev = 0 } in
    let pos : 1 ≤ a = subst (λ k. 1 ≤ k) (sym head_is) h.linked.0 in
    let is : q.nodes a ≡ some n = ap q.nodes head_is ∙ h.linked.1 in
    let next_linked : Linked q.nodes e.address (f ∷ es) = h.linked.2 in
    let d : Distinct (e.address ∷ (addresses (f ∷ es) ++ pool)) = h.distinct in
    let apart : Apart b (addresses es ++ pool) = d.1.0 in
    let other : a ≢ b = λ eq. d.0.0 (sym eq ∙ head_is) in
    let tail_differs : q.tail ≢ a = λ eq.
      last_holds (λ k. k ≢ e.address) f es
        (All-left (λ k. k ≢ e.address) (addresses (f ∷ es)) pool d.0)
        (sym h.tail_is ∙ eq ∙ head_is) in
    let some_head : (a == 0) ≡ false = ground arith in
    let some_next : (b == 0) ≡ false = let pos_b : 1 ≤ b = next_linked.0 in ground arith in
    let more : (a == q.tail) ≡ false = ground arith in
    let got : load q.nodes a ≡ some n = load_node q.nodes a pos ∙ is in
    let got_next : load q.nodes b ≡ some m = load_node q.nodes b next_linked.0 ∙ next_linked.1 in
    let q1 : Queue = record q {
      head = b;
      no_items = sub_size q.no_items 1;
      nodes = write q.nodes b (some m0);
    } in
    let held : Holds q1 (f ∷ es) pool = record {
      head_is = refl;
      tail_is = h.tail_is;
      counted = omega (arith, h.counted);
      stack_is = h.stack_is;
      linked = (
        next_linked.0,
        write_same q.nodes b (some m0),
        write-Linked q.nodes b b (some m0) es (All-left (λ k. k ≢ b) (addresses es) pool apart)
            next_linked.2,
      );
      stacked =
          write-Stacked q.nodes b (some m0) pool (All-right (λ k. k ≢ b) (addresses es) pool apart)
            h.stacked;
      distinct = d.1;
    } in
    subst (λ k. Popped e.value (f ∷ es) (pool_with e.of_pool k pool) (popfront q)) head_is
      (rw (some_head, got, some_next, got_next, more)
        (with_value e.value (f ∷ es) (pool_with e.of_pool a pool) (delete_node q1 a) (
          delete_node-Holds q1 a n (f ∷ es) pool e.of_pool refl held pos
            (write_other q.nodes b a (some m0) other ∙ is)
            (subst (λ k. Distinct (k ∷ (addresses (f ∷ es) ++ pool))) (sym head_is) d))))
