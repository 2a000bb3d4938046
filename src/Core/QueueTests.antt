-- ===== src/Core/QueueTests.antt =====
-- Runs of the queue.
use libyimmo.Base.{
  ℕ, true, false, Option, none, some, List, [], ◌∷◌, Status, okay, einval, ◌>>=◌, ◌≡◌, refl, arith,
}
use libyimmo.Core.Queue.{
  Queue, write, set_next, set_prev, delete_node, create_node, append, prepend, popfront, popback,
  peekfront, peekback, remove, queue_create,
}
use libyimmo.Core.Queue.Heap.{Entry, Holds}
use libyimmo.Core.Queue.Append.{entry, Appended, append-Appended}
use libyimmo.Core.Queue.Popfront.{pool_with, Popped, popfront-Popped}

-- Two items, the first in a node of the pool; a third node is in the pool.
abbrev two_items : Queue
two_items = record {
  head = 1;
  tail = 2;
  no_items = 2;
  pstack = 3;
  nodes =
      write
        (write
          (write (λ a. none) 1 (some (record { next = 2; prev = 0; item = 10; pooled = true }))) 2
          (some (record { next = 0; prev = 1; item = 20; pooled = false })))
        3 (some (record { next = 0; prev = 0; item = 0; pooled = true }));
}

abbrev items : List Entry
items = entry 1 10 true ∷ entry 2 20 false ∷ []

two_items-Holds : Holds two_items items (3 ∷ [])
unfolding write
two_items-Holds = record {
  head_is = refl;
  tail_is = refl;
  counted = refl;
  stack_is = refl;
  linked = (omega arith, refl, (omega arith, refl, tt));
  stacked =
      (omega arith, (record { next = 0; prev = 0; item = 0; pooled = true }, refl, refl, refl), tt);
  distinct = (
    ((λ e. absurd (omega (arith, e))), ((λ e. absurd (omega (arith, e))), tt)),
    (((λ e. absurd (omega (arith, e))), tt), (tt, tt)),
  );
}

-- The value of a run.
abbrev value : Option (ℕ × Queue) → Option ℕ
value none = none
value (some (x, q)) = some x

front_and_back : (value (popfront two_items) ≡ some 10) × (value (popback two_items) ≡ some 20)
unfolding popfront popback write set_next set_prev delete_node
front_and_back = (refl, refl)

prepended_first : (prepend two_items 0 5 >>= λ q. value (popfront q)) ≡ some 5
unfolding prepend create_node popfront write set_prev delete_node
prepended_first = refl

peeks : (peekfront two_items ≡ some 10) × (peekback two_items ≡ some 20)
unfolding peekfront peekback write
peeks = (refl, refl)

abbrev status : Option (Status × Queue) → Option Status
status none = none
status (some (e, q)) = some e

-- The second of two items is removed; NULL is refused.
removes : (status (remove two_items 2) ≡ some okay) × (status (remove two_items 0) ≡ some einval)
unfolding remove write set_next set_prev delete_node
removes = (refl, refl)

-- An allocation that fails is written to.
no_memory : append queue_create 0 7 ≡ none
unfolding append create_node
no_memory = refl

append-Appended_example : Appended items 30 (append two_items 0 30)
append-Appended_example =
    append-Appended two_items 0 30 items (3 ∷ []) two_items-Holds tt (omega arith)

popfront-Popped_example :
    Popped 10 (entry 2 20 false ∷ []) (pool_with true 1 (3 ∷ [])) (popfront two_items)
popfront-Popped_example =
    popfront-Popped two_items (entry 1 10 true) (entry 2 20 false ∷ []) (3 ∷ []) two_items-Holds
      (omega arith)
