-- ===== src/Core/Queue.antt =====
-- The doubly linked queue of src/core/ymo_queue.c, on nodes at addresses, with the stack of its pool.
-- A result `none` is an access through NULL or to a node that is not allocated.
pub mod Heap
pub mod Append
pub mod Popfront
use libyimmo.Base.{
  ℕ, zero, suc, ◌+◌, ◌%◌, ◌^◌, Bool, true, false, ◌&&◌, not, Option, none, some, List, [], ◌∷◌,
  ◌==◌, if◌then◌else◌, sub_size, ◌>>=◌, Status, okay, einval,
}

-- `ymo_queue_node_t`. `pooled` says that `queue` is not NULL: the node is one of the pool.
pub record Node : Type 0 where
  pub next : ℕ
  pub prev : ℕ
  pub item : ℕ
  pub pooled : Bool

abbrev pub Nodes : Type 0
Nodes = ℕ → Option Node

-- `ymo_queue_t`; NULL is 0.
pub record Queue : Type 0 where
  pub head : ℕ
  pub tail : ℕ
  pub no_items : ℕ
  pub pstack : ℕ
  pub nodes : Nodes

unfoldable pub write : Nodes → ℕ → Option Node → Nodes
write h a n b = if b == a then n else h b

abbrev pub load : Nodes → ℕ → Option Node
load h zero = none
load h (suc a) = h (suc a)

unfoldable pub set_next : Nodes → ℕ → ℕ → Option Nodes
set_next h a target = do n ← load h a; some (write h a (some (record n { next = target })))

unfoldable pub set_prev : Nodes → ℕ → ℕ → Option Nodes
set_prev h a target = do n ← load h a; some (write h a (some (record n { prev = target })))

abbrev pub queue_create : Queue
queue_create = record { head = 0; tail = 0; no_items = 0; pstack = 0; nodes = λ a. none }

-- Back to the pool, or freed. Both branches of the source on `pstack` write the same.
unfoldable pub delete_node : Queue → ℕ → Option Queue
delete_node q node = do
  n ← load q.nodes node
  some (
      if n.pooled
      then record q {
        nodes = write q.nodes node (some (record n { prev = 0; next = q.pstack }));
        pstack = node;
      }
      else record q { nodes = write q.nodes node none })

-- From the pool, or at `fresh`, which is what `malloc` returns; its result is not tested before it is
-- written to.
unfoldable pub create_node : Queue → ℕ → Option (ℕ × Queue)
create_node q fresh =
    if q.pstack == 0
    then if fresh == 0
      then none
      else some (
        fresh,
        record q {
          nodes =
              write q.nodes fresh (some (record { next = 0; prev = 0; item = 0; pooled = false }));
        },
      )
    else (do
      n ← load q.nodes q.pstack
      some (
        q.pstack,
        record q {
          nodes = write q.nodes q.pstack (some (record n { next = 0; prev = 0 }));
          pstack = n.next;
        },
      ))

-- `node` is in front of the end of the queue.
abbrev pub linked_last : Queue → ℕ → Nodes → Option Queue
linked_last q node h =
    if q.tail == 0
    then some (record q { nodes = h; head = node })
    else (do h2 ← set_next h q.tail node; some (record q { nodes = h2 }))

abbrev pub counted_last : ℕ → Queue → Queue
counted_last node q = record q { tail = node; no_items = (q.no_items + 1) % 2 ^ 64 }

abbrev pub appended : ℕ → ℕ × Queue → Option Queue
appended x (node, q) = do
  n ← load q.nodes node
  q1 ←
      linked_last q node
        (write q.nodes node (some (record n { item = x; next = 0; prev = q.tail })))
  some (counted_last node q1)

unfoldable pub append : Queue → ℕ → ℕ → Option Queue
append q fresh x = do c ← create_node q fresh; appended x c

abbrev pub linked_first : Queue → ℕ → Nodes → Option Queue
linked_first q node h =
    if q.head == 0
    then some (record q { nodes = h; tail = node })
    else (do h2 ← set_prev h q.head node; some (record q { nodes = h2 }))

abbrev pub counted_first : ℕ → Queue → Queue
counted_first node q = record q { head = node; no_items = (q.no_items + 1) % 2 ^ 64 }

abbrev pub prepended : ℕ → ℕ × Queue → Option Queue
prepended x (node, q) = do
  n ← load q.nodes node
  q1 ←
      linked_first q node
        (write q.nodes node (some (record n { item = x; next = q.head; prev = 0 })))
  some (counted_first node q1)

unfoldable pub prepend : Queue → ℕ → ℕ → Option Queue
prepend q fresh x = do c ← create_node q fresh; prepended x c

-- `if( queue->head ) queue->head->prev = NULL`, and the same at the other end
abbrev pub cut_prev : Nodes → ℕ → Option Nodes
cut_prev h head = if head == 0 then some h else set_prev h head 0

abbrev pub cut_next : Nodes → ℕ → Option Nodes
cut_next h tail = if tail == 0 then some h else set_next h tail 0

-- The item, NULL for an empty queue, and the queue.
unfoldable pub popfront : Queue → Option (ℕ × Queue)
popfront q = if q.head == 0 then some (0, q) else (do
  n ← load q.nodes q.head
  h ← cut_prev q.nodes n.next
  q1 ←
      delete_node
        (record q {
          head = n.next;
          tail = if q.head == q.tail then 0 else q.tail;
          nodes = h;
          no_items = sub_size q.no_items 1;
        })
        q.head
  some (n.item, q1))

unfoldable pub popback : Queue → Option (ℕ × Queue)
popback q = if q.tail == 0 then some (0, q) else (do
  n ← load q.nodes q.tail
  h ← cut_next q.nodes n.prev
  q1 ←
      delete_node
        (record q {
          tail = n.prev;
          head = if q.tail == q.head then 0 else q.head;
          nodes = h;
          no_items = sub_size q.no_items 1;
        })
        q.tail
  some (n.item, q1))

unfoldable pub peekfront : Queue → Option ℕ
peekfront q = if q.head == 0 then some 0 else (do n ← load q.nodes q.head; some n.item)

unfoldable pub peekback : Queue → Option ℕ
peekback q = if q.tail == 0 then some 0 else (do n ← load q.nodes q.tail; some n.item)

abbrev pub size : Queue → ℕ
size q = q.no_items

-- Where `target` is not NULL, its neighbour in one direction is set.
abbrev pub prev_next : Nodes → ℕ → ℕ → Option Nodes
prev_next h item_prev item_next = if item_prev == 0 then some h else set_next h item_prev item_next

abbrev pub next_prev : Nodes → ℕ → ℕ → Option Nodes
next_prev h item_next item_prev = if item_next == 0 then some h else set_prev h item_next item_prev

-- The node is taken out, wherever it is; `*node_ptr` is NULL then.
abbrev pub removed : Queue → ℕ → Node → Option (Status × Queue)
removed q node n = do
  h1 ← prev_next q.nodes n.prev n.next
  h2 ← next_prev h1 n.next n.prev
  q1 ←
      delete_node
        (record q {
          head = if node == q.head then n.next else q.head;
          tail = if node == q.tail then n.prev else q.tail;
          no_items = sub_size q.no_items 1;
          nodes = h2;
        })
        node
  some (okay, q1)

unfoldable pub remove : Queue → ℕ → Option (Status × Queue)
remove q node = if node == 0 then some (einval, q) else (do
  n ← load q.nodes node
  if n.prev == n.next && not (node == q.head) then some (einval, q) else removed q node n)
