-- ===== src/Core/Queue/Append.antt =====
-- `ymo_queue_append` of src/core/ymo_queue.c against a list.
use libyimmo.Base.{
  ℕ, ◌+◌, ◌%◌, ◌^◌, ◌≤◌, ◌<◌, Bool, true, false, Option, none, some, List, [], ◌∷◌, ◌++◌,
  append_assoc, length, length-append, ◌==◌, ◌≡◌, ◌≢◌, refl, sym, ap, ◌∙◌, arith,
}
use mathlib.Core.Path.{subst}
use libyimmo.Core.Queue.{Node, Nodes, Queue, write, load, set_next, create_node, appended, append}
use libyimmo.Core.Queue.Heap.{
  Entry, last, Linked, Apart, Distinct, addresses, write_other, write_same, load_node, write-Linked,
  write-Stacked, last_holds, Holds, addresses-append, Distinct-left, differ_before, differ_behind,
  Linked-positive, differ_from_end, Yields, without_one, behind_differ,
}

abbrev pub entry : ℕ → ℕ → Bool → Entry
entry a x pooled = record { address = a; value = x; of_pool = pooled }

-- The node at `a`, with the end of the list in front of it, is linked to it.
snoc :
    (h : Nodes) (p : ℕ) (e : Entry) (es : List Entry) (a x : ℕ) (pooled : Bool)
    → Linked h p (e ∷ es)
    → Distinct (addresses (e ∷ es))
    → Apart a (addresses (e ∷ es))
    → 1 ≤ a
    → h a ≡ some (record { next = 0; prev = last e.address es; item = x; pooled = pooled })
    → (m : Node) × (h (last e.address es) ≡ some m)
      × Linked
          (write h (last e.address es) (some (record m { next = a })))
          p
          ((e ∷ es) ++ (entry a x pooled ∷ []))
snoc h p e [] a x pooled (pos, is, l) d (ne, nes) pos_a at_a =
    let m : Node = record { next = 0; prev = p; item = e.value; pooled = e.of_pool } in
    let n : Option Node = some (record m { next = a }) in
    (
      m,
      is,
      (
        pos,
        write_same h e.address n,
        (pos_a, write_other h e.address a n (λ eq. ne (sym eq)) ∙ at_a, tt),
      ),
    )
snoc h p e (f ∷ es) a x pooled (pos, is, l) (apart, d) (ne, nes) pos_a at_a =
    let rest = snoc h e.address f es a x pooled l d nes pos_a at_a in
    let t : ℕ = last f.address es in
    let other : e.address ≢ t = λ eq. last_holds (λ b. b ≢ e.address) f es apart (sym eq) in
    (
      rest.0,
      rest.1,
      (pos, write_other h t e.address (some (record rest.0 { next = a })) other ∙ is, rest.2),
    )

last-append : (p : ℕ) (es : List Entry) (e : Entry) → last p (es ++ (e ∷ [])) ≡ e.address
last-append p [] e = refl
last-append p (f ∷ es) e = last-append f.address es e

length_entries : (es : List Entry) (e : Entry) → length (es ++ (e ∷ [])) ≡ length es + 1
length_entries es e = length-append es (e ∷ [])

module _ (q : Queue) (a x : ℕ) (n : Node) where
  abbrev new_node : Node
  new_node = record n { item = x; next = 0; prev = q.tail }

  abbrev nodes_1 : Nodes
  nodes_1 = write q.nodes a (some new_node)

  -- A node that is in neither list, behind the items.
  appended-Holds :
      (es : List Entry) (pool : List ℕ)
      → Holds q es pool
      → 1 ≤ a
      → q.nodes a ≡ some n
      → Distinct (addresses es ++ (a ∷ pool))
      → length es + 1 < 2 ^ 64
      → Yields (es ++ (entry a x n.pooled ∷ [])) pool (appended x (a, q))
  unfolding set_next
  appended-Holds [] pool h pos is d small =
      let tail_is : q.tail ≡ 0 = h.tail_is in
      let got : load q.nodes a ≡ some n = load_node q.nodes a pos ∙ is in
      let none_yet : (q.tail == 0) ≡ true = ground arith in
      let count : (q.no_items + 1) % 2 ^ 64 ≡ 1 = omega (arith, h.counted) in
      rw (got, none_yet)
        (record {
          head_is = refl;
          tail_is = refl;
          counted = count;
          stack_is = h.stack_is;
          linked = (
            pos,
            write_same q.nodes a (some new_node)
                ∙ ap (λ t. some (record n { item = x; next = 0; prev = t })) tail_is,
            tt,
          );
          stacked =
              write-Stacked q.nodes a (some new_node) pool (differ_behind [] a pool d) h.stacked;
          distinct = d;
        })
  appended-Holds (e ∷ es) pool h pos is d small =
      let t : ℕ = last e.address es in
      let tail_is : q.tail ≡ t = h.tail_is in
      let apart : Apart a (addresses (e ∷ es)) = differ_before (addresses (e ∷ es)) a pool d in
      let got : load q.nodes a ≡ some n = load_node q.nodes a pos ∙ is in
      let l1 : Linked nodes_1 0 (e ∷ es) =
        write-Linked q.nodes a 0 (some new_node) (e ∷ es) apart h.linked in
      let at_a : nodes_1 a ≡ some (record { next = 0; prev = t; item = x; pooled = n.pooled }) =
        write_same q.nodes a (some new_node)
        ∙ ap (λ p. some (record n { item = x; next = 0; prev = p })) tail_is in
      let end =
        snoc nodes_1 0 e es a x n.pooled l1 (Distinct-left (addresses (e ∷ es)) (a ∷ pool) d) apart
          pos at_a in
      let m : Node = end.0 in
      let some_tail : 1 ≤ q.tail =
        subst (λ k. 1 ≤ k) (sym tail_is)
          (last_holds (λ k. 1 ≤ k) e es (Linked-positive q.nodes 0 (e ∷ es) h.linked)) in
      let some_yet : (q.tail == 0) ≡ false = ground arith in
      let got_tail : load nodes_1 q.tail ≡ some m =
        load_node nodes_1 q.tail some_tail ∙ ap nodes_1 tail_is ∙ end.1 in
      let differ_tail : Apart q.tail (a ∷ pool) =
        subst (λ k. Apart k (a ∷ pool)) (sym tail_is) (differ_from_end e es (a ∷ pool) d) in
      let l2 : Linked (write nodes_1 q.tail (some (record m { next = a }))) 0
          ((e ∷ es) ++ (entry a x n.pooled ∷ [])) =
        subst
          (λ k.
            Linked (write nodes_1 k (some (record m { next = a }))) 0
              ((e ∷ es) ++ (entry a x n.pooled ∷ [])))
          (sym tail_is) end.2 in
      rw (got, some_yet, got_tail)
        (record {
          head_is = h.head_is;
          tail_is = sym (last-append 0 (e ∷ es) (entry a x n.pooled));
          counted = omega (arith, h.counted, length_entries (e ∷ es) (entry a x n.pooled));
          stack_is = h.stack_is;
          linked = l2;
          stacked = write-Stacked nodes_1 q.tail (some (record m { next = a })) pool differ_tail.1 (
              write-Stacked q.nodes a (some new_node) pool
                (differ_behind (addresses (e ∷ es)) a pool d) h.stacked);
          distinct =
              subst Distinct
                (sym (
                  ap (λ t. t ++ pool) (addresses-append (e ∷ es) (entry a x n.pooled ∷ []))
                  ∙ append_assoc (addresses (e ∷ es)) (a ∷ []) pool))
                d;
        })
  -- What `ymo_queue_append` needs of `malloc`: memory, at an address of its own, if the pool is empty.

abbrev pub Allocates : ℕ → List Entry → List ℕ → Type 0
Allocates fresh es [] = (1 ≤ fresh) × Apart fresh (addresses es)
Allocates fresh es (a ∷ pool) = Unit

-- The items of `es` and `x` behind them, and a pool without its first node.
abbrev pub Appended : List Entry → ℕ → Option Queue → Type 0
Appended es x none = ⊥
Appended es x (some q) =
    (a : ℕ) × (pooled : Bool) × (pool : List ℕ) × Holds q (es ++ (entry a x pooled ∷ [])) pool

done :
    (es : List Entry) (a x : ℕ) (pooled : Bool) (pool : List ℕ) (o : Option Queue)
    → Yields (es ++ (entry a x pooled ∷ [])) pool o
    → Appended es x o
done es a x pooled pool none h = h
done es a x pooled pool (some q) h = (a, pooled, pool, h)

-- A queue that holds the items of a list, doubly linked in this order, and the nodes of its pool,
-- where the pool is not empty or malloc has memory at an address not in use: `ymo_queue_append`
-- accesses no NULL and no freed node, and the queue holds the items and the new one behind them,
-- with what is left of a pool. The number of the items is less than 2^64.
pub append-Appended :
    (q : Queue) (fresh x : ℕ) (es : List Entry) (pool : List ℕ)
    → Holds q es pool
    → Allocates fresh es pool
    → length es + 1 < 2 ^ 64
    → Appended es x (append q fresh x)
unfolding append create_node
append-Appended q fresh x es [] h (pos, apart) small =
    let n : Node = record { next = 0; prev = 0; item = 0; pooled = false } in
    let no_pool : (q.pstack == 0) ≡ true = ground (arith, h.stack_is) in
    let memory : (fresh == 0) ≡ false = ground arith in
    let q1 : Queue = record q { nodes = write q.nodes fresh (some n) } in
    let held : Holds q1 es [] = record {
      head_is = h.head_is;
      tail_is = h.tail_is;
      counted = h.counted;
      stack_is = h.stack_is;
      linked = write-Linked q.nodes fresh 0 (some n) es apart h.linked;
      stacked = tt;
      distinct = h.distinct;
    } in
    rw (no_pool, memory)
      (done es fresh x false [] (appended x (fresh, q1)) (
        appended-Holds q1 fresh x n es [] held pos (write_same q.nodes fresh (some n))
          (behind_differ (addresses es) fresh h.distinct apart) small))
append-Appended q fresh x es (a ∷ pool) h mem small =
    let s : ℕ = q.pstack in
    let stack_is : s ≡ a = h.stack_is in
    let node = h.stacked.1 in
    let n : Node = node.0 in
    let n1 : Node = record n { next = 0; prev = 0 } in
    let d : Distinct (addresses es ++ (s ∷ pool)) =
      subst (λ k. Distinct (addresses es ++ (k ∷ pool))) (sym stack_is) h.distinct in
    let pos : 1 ≤ s = subst (λ k. 1 ≤ k) (sym stack_is) h.stacked.0 in
    let is : q.nodes s ≡ some n = ap q.nodes stack_is ∙ node.1 in
    let pool_left : (s == 0) ≡ false = ground arith in
    let got : load q.nodes s ≡ some n = load_node q.nodes s pos ∙ is in
    let q1 : Queue = record q { nodes = write q.nodes s (some n1); pstack = n.next } in
    let held : Holds q1 es pool = record {
      head_is = h.head_is;
      tail_is = h.tail_is;
      counted = h.counted;
      stack_is = node.2;
      linked =
          write-Linked q.nodes s 0 (some n1) es (differ_before (addresses es) s pool d) h.linked;
      stacked =
          write-Stacked q.nodes s (some n1) pool (differ_behind (addresses es) s pool d)
            h.stacked.2;
      distinct = without_one (addresses es) s pool d;
    } in
    rw (pool_left, got)
      (done es s x n.pooled pool (appended x (s, q1))
        (appended-Holds q1 s x n1 es pool held pos (write_same q.nodes s (some n1)) d small))
