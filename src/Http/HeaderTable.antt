-- ===== src/Http/HeaderTable.antt =====
-- src/protocol/http/ymo_http_hdr_table.c and .h: the hash table of header fields. Names and values
-- are the caller's strings, lists of bytes without their NUL; a node's own buffer is a block of
-- the heap. The pool of nodes is not modelled: `Memory` says whether a node is to be had.
pub mod Lookup
pub mod Combine
pub mod Iterate
use libyimmo.Base.{
  ℕ, ◌+◌, ◌*◌, ◌%◌, ◌^◌, bit_and, Bool, true, false, Option, none, some, List, [], ◌∷◌, ◌++◌,
  length, drop, zero, suc, ◌-◌, ltb, ◌==◌, if◌then◌else◌,
}
use mathlib.Core.Option

-- What the process gives: a node or none, and for `malloc(n)` a block or none.
pub record Memory : Type 0 where
  pub has_node : Bool
  pub malloc : ℕ → Option (List ℕ)

-- The `buffer` of a node: NULL, a block, or an address that is not to be read: of a block that has
-- been freed, or behind a string without its NUL.
pub data Buffer : Type 0 where
  null : Buffer
  held : List ℕ → Buffer
  dangling : Buffer

pub record Node : Type 0 where
  pub h_id : ℕ
  pub hdr : List ℕ
  pub value : List ℕ
  pub buffer : Buffer

-- The chains at `bucket[0..YMO_HDR_TABLE_BUCKET_SIZE-1]`.
abbrev pub Table : Type 0
Table = ℕ → List Node

abbrev pub bucket_size : ℕ
bucket_size = 8

abbrev pub empty_table : Table
empty_table i = []

abbrev pub put : Table → ℕ → List Node → Table
put t index chain = λ i. if i == index then chain else t i

-- `YMO_HDR_HASH_CH` in `ymo_http_hdr_id_t`
abbrev pub hash_ch : ℕ → ℕ → ℕ
hash_ch h c = (h * 283 + bit_and c 0xDF) % 2 ^ 16

abbrev pub hash_loop : ℕ → List ℕ → ℕ
hash_loop h [] = h
hash_loop h (c ∷ cs) = hash_loop (hash_ch h c) cs

-- `ymo_http_hdr_hash_283_5`
abbrev pub hdr_hash : List ℕ → ℕ
hdr_hash str_in = bit_and (hash_loop 5 str_in) 0x7FFF

abbrev pub new_node : ℕ → List ℕ → List ℕ → Node
new_node h_id hdr value = record { h_id = h_id; hdr = hdr; value = value; buffer = null }

-- `table_insert_first`: 0 is the id that reports ENOMEM.
unfoldable pub table_insert_first : Memory → Table → ℕ → List ℕ → List ℕ → ℕ × Table
table_insert_first m t h_id hdr value =
    let index = h_id % bucket_size in
    if m.has_node then (h_id, put t index (new_node h_id hdr value ∷ t index)) else (0, t)

abbrev pub free_buffer : Buffer → Buffer
free_buffer null = null
free_buffer _ = dangling

-- The loop of `ymo_http_hdr_table_insert_precompute`: the chain with the field replaced, if it is
-- there. The block is freed, and the pointer to it kept.
unfoldable pub replace_field : ℕ → List ℕ → List ℕ → List Node → Option (List Node)
replace_field h_id hdr value [] = none
replace_field h_id hdr value (n ∷ ns) =
    let rest = replace_field h_id hdr value ns in
    if n.h_id == h_id
    then some (record n { buffer = free_buffer n.buffer; hdr = hdr; value = value } ∷ ns)
    else Option.map (λ ns'. n ∷ ns') rest

-- What follows a loop over a chain.
unfoldable pub or_insert : Memory → Table → ℕ → List ℕ → List ℕ → Option (List Node) → ℕ × Table
unfolding table_insert_first
or_insert m t h_id hdr value none = table_insert_first m t h_id hdr value
or_insert m t h_id hdr value (some chain) = (h_id, put t (h_id % bucket_size) chain)

unfoldable pub insert_precompute : Memory → Table → ℕ → List ℕ → List ℕ → ℕ × Table
unfolding replace_field or_insert
insert_precompute m t h_id hdr value =
    or_insert m t h_id hdr value (replace_field h_id hdr value (t (h_id % bucket_size)))

unfoldable pub insert : Memory → Table → List ℕ → List ℕ → ℕ × Table
unfolding insert_precompute
insert m t hdr value = insert_precompute m t (hdr_hash hdr) hdr value

-- The string in a block: its bytes up to the NUL, if there is one.
abbrev pub string_in : List ℕ → Option (List ℕ)
string_in [] = none
string_in (b ∷ bs) = if b == 0 then some [] else Option.map (λ s. b ∷ s) (string_in bs)

-- The block that the new value is appended to: `strlen` of it, its last byte and what follows are
-- as `realloc` gives them, and `strncpy` writes no NUL.
abbrev appended : List ℕ → List ℕ → List ℕ → List ℕ
appended old value block = old ++ (0x2C ∷ (value ++ drop (length old + 1 + length value) block))

-- Combining a value with the field's, in `ymo_http_hdr_table_add_precompute`; `none` is for
-- ENOMEM, where the node's buffer is NULL already.
unfoldable pub combine : Memory → Node → List ℕ → Option Buffer
combine m n value = elim n.buffer [
  | null ↦
      Option.map (λ block. held (n.value ++ (0x2C ∷ (value ++ (0 ∷ [])))))
        (m.malloc (length n.value + length value + 2))
  | held bytes ↦ elim (string_in bytes) [
    | none ↦ some dangling
    | some old ↦
        Option.map (λ block. held (appended old value block))
          (m.malloc (length old + length value + 2))
  ]
  | dangling ↦ some dangling
]

-- How the loop of `ymo_http_hdr_table_add_precompute` ends.
pub data Adding : Type 0 where
  absent : Adding
  added : List Node → Adding
  no_memory : List Node → Adding

abbrev pub behind : Node → Adding → Adding
behind n absent = absent
behind n (added ns) = added (n ∷ ns)
behind n (no_memory ns) = no_memory (n ∷ ns)

abbrev pub combined : Node → List Node → Option Buffer → Adding
combined n ns none = no_memory (record n { buffer = null } ∷ ns)
combined n ns (some b) = added (record n { buffer = b } ∷ ns)

unfoldable pub add_field : Memory → ℕ → List ℕ → List Node → Adding
unfolding combine
add_field m h_id value [] = absent
add_field m h_id value (n ∷ ns) =
    let rest = add_field m h_id value ns in
    if n.h_id == h_id then combined n ns (combine m n value) else behind n rest

unfoldable pub add_end : Memory → Table → ℕ → List ℕ → List ℕ → Adding → ℕ × Table
unfolding table_insert_first
add_end m t h_id hdr value absent = table_insert_first m t h_id hdr value
add_end m t h_id hdr value (added chain) = (h_id, put t (h_id % bucket_size) chain)
add_end m t h_id hdr value (no_memory chain) = (0, put t (h_id % bucket_size) chain)

unfoldable pub add_precompute : Memory → Table → ℕ → List ℕ → List ℕ → ℕ × Table
unfolding add_field add_end
add_precompute m t h_id hdr value =
    add_end m t h_id hdr value (add_field m h_id value (t (h_id % bucket_size)))

abbrev pub has_field : ℕ → List Node → Bool
has_field h_id [] = false
has_field h_id (n ∷ ns) = if n.h_id == h_id then true else has_field h_id ns

-- `YMO_HTTP_HID_SET_COOKIE`
abbrev pub set_cookie : ℕ
set_cookie = 10316

-- `ymo_http_hdr_table_add`: a second Set-Cookie gets a node of its own, in front.
unfoldable pub add : Memory → Table → List ℕ → List ℕ → ℕ × Table
unfolding add_precompute table_insert_first
add m t hdr value =
    let h_id = hdr_hash hdr in
    if has_field h_id (t (h_id % bucket_size))
    then if h_id == set_cookie
      then table_insert_first m t set_cookie hdr value
      else add_precompute m t h_id hdr value
    else table_insert_first m t h_id hdr value

-- What `ymo_http_hdr_table_get_id` returns: NULL, a caller's string, a block, or the address of a
-- freed block.
pub data Found : Type 0 where
  nothing : Found
  string : List ℕ → Found
  block_at : List ℕ → Found
  freed : Found

abbrev pub found : Node → Found
found n = elim n.buffer [ null ↦ string n.value | held bytes ↦ block_at bytes | dangling ↦ freed ]

unfoldable pub find_field : ℕ → List Node → Found
find_field h_id [] = nothing
find_field h_id (n ∷ ns) = let rest = find_field h_id ns in if n.h_id == h_id then found n else rest

unfoldable pub get_id : Table → ℕ → Found
unfolding find_field
get_id t h_id = find_field h_id (t (h_id % bucket_size))

unfoldable pub get : Table → List ℕ → Found
unfolding get_id
get t hdr = get_id t (hdr_hash hdr)

-- `ymo_http_hdr_table_clear`: every bucket's chain is freed and set to NULL.
pub clear : Table → Table
clear t = λ i. if ltb i bucket_size then [] else t i
