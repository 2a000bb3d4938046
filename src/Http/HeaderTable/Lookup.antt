-- ===== src/Http/HeaderTable/Lookup.antt =====
-- Looking up what was inserted.
use libyimmo.Base.{
  ℕ, ◌+◌, ◌*◌, ◌%◌, ◌^◌, ◌≡◌, refl, sym, ap, ◌∙◌, bit_and, true, false, ◌&&◌, Option, none, some,
  List, [], ◌∷◌, map, leb, ◌==◌, ==→eq, if◌then◌else◌, Bool-cases, inl, inr, All, IsByte, arith,
}
use mathlib.Core.Option
use mathlib.Core.Path.{subst}
use libyimmo.Base.Bits.{bytes_agree}
use libyimmo.Http.HeaderTable.{
  Memory, null, Node, Table, bucket_size, put, hash_ch, hash_loop, hdr_hash, new_node,
  table_insert_first, replace_field, or_insert, insert_precompute, insert, string, free_buffer,
  found, find_field, get_id, get,
}

-- No node has a buffer of its own, as long as no field has been added to.
abbrev pub NoBuffer : Table → Type 0
NoBuffer t = (i : ℕ) → All (λ n. n.buffer ≡ null) (t i)

-- A chain after the loop of an insertion, if it has found the field.
abbrev Replaces : ℕ → List ℕ → List Node → ℕ → Option (List Node) → Type 0
Replaces h_id value ns k none = Unit
Replaces h_id value ns k (some ns') =
    find_field k ns' ≡ (if k == h_id then string value else find_field k ns)

kept :
    (h_id : ℕ) (value : List ℕ) (n : Node) (ns : List Node) (k : ℕ) (o : Option (List Node))
    → (n.h_id == h_id) ≡ false
    → Replaces h_id value ns k o
    → Replaces h_id value (n ∷ ns) k (Option.map (λ ns'. n ∷ ns') o)
unfolding find_field
kept h_id value n ns k none other rest = tt
kept h_id value n ns k (some ns') other rest = elim (Bool-cases (n.h_id == k)) [
  | inl here ↦
      (let different : (k == h_id) ≡ false = ground (arith, here, other) in
        rw (here, different) refl)
  | inr there ↦ rw there rest
]

replaced_here :
    (h_id : ℕ) (hdr value : List ℕ) (n : Node) (ns : List Node) (k : ℕ)
    → (n.h_id == h_id) ≡ true
    → n.buffer ≡ null
    → Replaces h_id value
        (n ∷ ns)
        k
        (some (record n { buffer = free_buffer n.buffer; hdr = hdr; value = value } ∷ ns))
unfolding find_field
replaced_here h_id hdr value n ns k here clean = elim (Bool-cases (n.h_id == k)) [
  | inl same ↦
      (let both : (k == h_id) ≡ true = ground (arith, here, same) in
        rw (same, both)
          (ap (λ b. found (record n { buffer = free_buffer b; hdr = hdr; value = value })) clean))
  | inr different ↦
      (let neither : (k == h_id) ≡ false = ground (arith, here, different) in
        rw (different, neither) refl)
]

replace_field-Replaces :
    (h_id : ℕ) (hdr value : List ℕ) (ns : List Node) (k : ℕ)
    → All (λ n. n.buffer ≡ null) ns
    → Replaces h_id value ns k (replace_field h_id hdr value ns)
unfolding replace_field
replace_field-Replaces h_id hdr value [] k clean = tt
replace_field-Replaces h_id hdr value (n ∷ ns) k (null_here, clean) =
    let rest = replace_field h_id hdr value ns in
    let here = some (record n { buffer = free_buffer n.buffer; hdr = hdr; value = value } ∷ ns) in
    let there = Option.map (λ ns'. n ∷ ns') rest in
    elim (Bool-cases (n.h_id == h_id)) [
      | inl e ↦
          subst (λ b. Replaces h_id value (n ∷ ns) k (if b then here else there)) (sym e)
            (replaced_here h_id hdr value n ns k e null_here)
      | inr e ↦
          subst (λ b. Replaces h_id value (n ∷ ns) k (if b then here else there)) (sym e)
            (kept h_id value n ns k rest e (replace_field-Replaces h_id hdr value ns k clean))
    ]

find_field-put :
    (t : Table) (h_id k : ℕ) (value : List ℕ) (chain : List Node)
    → find_field k chain
      ≡ (if k == h_id then string value else find_field k (t (h_id % bucket_size)))
    → find_field k (put t (h_id % bucket_size) chain (k % bucket_size))
      ≡ (if k == h_id then string value else find_field k (t (k % bucket_size)))
find_field-put t h_id k value chain e = elim (Bool-cases (k % bucket_size == h_id % bucket_size)) [
  | inl same ↦ rw same (
      subst (λ i. find_field k chain ≡ (if k == h_id then string value else find_field k (t i)))
        (sym (==→eq (k % bucket_size) (h_id % bucket_size) same)) e)
  | inr other ↦
      (let different : (k == h_id) ≡ false = ground (arith, other) in rw (other, different) refl)
]

find_field-new_node :
    (h_id k : ℕ) (hdr value : List ℕ) (ns : List Node)
    → find_field k (new_node h_id hdr value ∷ ns)
      ≡ (if k == h_id then string value else find_field k ns)
unfolding find_field
find_field-new_node h_id k hdr value ns = elim (Bool-cases (h_id == k)) [
  | inl same ↦ (let e : (k == h_id) ≡ true = ground (arith, same) in rw (same, e) refl)
  | inr other ↦ (let e : (k == h_id) ≡ false = ground (arith, other) in rw (other, e) refl)
]

or_insert-get :
    (m : Memory) (t : Table) (h_id k : ℕ) (hdr value : List ℕ) (o : Option (List Node))
    → m.has_node ≡ true
    → Replaces h_id value (t (h_id % bucket_size)) k o
    → find_field k ((or_insert m t h_id hdr value o).1 (k % bucket_size))
      ≡ (if k == h_id then string value else find_field k (t (k % bucket_size)))
unfolding or_insert table_insert_first
or_insert-get m t h_id k hdr value none room e = rw room (
    find_field-put t h_id k value (new_node h_id hdr value ∷ t (h_id % bucket_size))
      (find_field-new_node h_id k hdr value (t (h_id % bucket_size))))
or_insert-get m t h_id k hdr value (some ns) room e = find_field-put t h_id k value ns e

-- After an insertion that gets its node, the field has the new value, and every other id is
-- looked up as before.
pub get_id-insert_precompute :
    (m : Memory) (t : Table) (h_id k : ℕ) (hdr value : List ℕ)
    → m.has_node ≡ true
    → NoBuffer t
    → get_id (insert_precompute m t h_id hdr value).1 k
      ≡ (if k == h_id then string value else get_id t k)
unfolding get_id insert_precompute
get_id-insert_precompute m t h_id k hdr value room clean =
    let chain = t (h_id % bucket_size) in
    or_insert-get m t h_id k hdr value (replace_field h_id hdr value chain) room
      (replace_field-Replaces h_id hdr value chain k (clean (h_id % bucket_size)))

-- ASCII letters in lower case.
abbrev pub lower : ℕ → ℕ
lower c = if leb 0x41 c && leb c 0x5A then c + 0x20 else c

hash_ch-lower : (c : ℕ) → IsByte c → bit_and (lower c) 0xDF ≡ bit_and c 0xDF
hash_ch-lower c h = bytes_agree (λ x. bit_and (lower x) 0xDF) (λ x. bit_and x 0xDF) 256 c h refl

hash_loop-lower : (h : ℕ) (s : List ℕ) → All IsByte s → hash_loop h (map lower s) ≡ hash_loop h s
hash_loop-lower h [] bytes = refl
hash_loop-lower h (c ∷ cs) (byte, bytes) =
    ap (λ x. hash_loop ((h * 283 + x) % 2 ^ 16) (map lower cs)) (hash_ch-lower c byte)
    ∙ hash_loop-lower (hash_ch h c) cs bytes

hdr_hash-lower :
    (s s' : List ℕ)
    → All IsByte s
    → All IsByte s'
    → map lower s ≡ map lower s'
    → hdr_hash s ≡ hdr_hash s'
hdr_hash-lower s s' h h' same =
    ap (λ x. bit_and x 0x7FFF)
      (sym (hash_loop-lower 5 s h) ∙ ap (hash_loop 5) same ∙ hash_loop-lower 5 s' h')

-- In a table without combined fields, a field that is inserted with memory for its node is found
-- under its name in any mix of upper and lower case.
pub get-insert :
    (m : Memory) (t : Table) (hdr hdr' value : List ℕ)
    → m.has_node ≡ true
    → NoBuffer t
    → All IsByte hdr
    → All IsByte hdr'
    → map lower hdr' ≡ map lower hdr
    → get (insert m t hdr value).1 hdr' ≡ string value
unfolding get insert
get-insert m t hdr hdr' value room clean bytes bytes' same =
    let id = hdr_hash hdr in
    let is_id : (id == id) ≡ true = ground arith in
    ap (get_id (insert_precompute m t id hdr value).1) (hdr_hash-lower hdr' hdr bytes' bytes same)
    ∙ get_id-insert_precompute m t id id hdr value room clean
    ∙ rw is_id refl

abbrev IsClean : List Node → Type 0
IsClean ns = All (λ n. n.buffer ≡ null) ns

abbrev IsCleanIfAny : Option (List Node) → Type 0
IsCleanIfAny none = Unit
IsCleanIfAny (some ns) = IsClean ns

clean_behind :
    (n : Node) (o : Option (List Node))
    → n.buffer ≡ null
    → IsCleanIfAny o
    → IsCleanIfAny (Option.map (λ ns. n ∷ ns) o)
clean_behind n none h k = tt
clean_behind n (some ns) h k = (h, k)

replace_field-IsClean :
    (h_id : ℕ) (hdr value : List ℕ) (ns : List Node)
    → IsClean ns
    → IsCleanIfAny (replace_field h_id hdr value ns)
unfolding replace_field
replace_field-IsClean h_id hdr value [] clean = tt
replace_field-IsClean h_id hdr value (n ∷ ns) (null_here, clean) =
    elim (Bool-cases (n.h_id == h_id)) [
      | inl e ↦ rw e (ap free_buffer null_here, clean)
      | inr e ↦ rw e (
          clean_behind n (replace_field h_id hdr value ns) null_here
            (replace_field-IsClean h_id hdr value ns clean))
    ]

put-NoBuffer :
    (t : Table) (index : ℕ) (chain : List Node)
    → NoBuffer t
    → IsClean chain
    → NoBuffer (put t index chain)
put-NoBuffer t index chain clean h i = elim (Bool-cases (i == index)) [
  | inl e ↦ rw e h
  | inr e ↦ rw e (clean i)
]

or_insert-NoBuffer :
    (m : Memory) (t : Table) (h_id : ℕ) (hdr value : List ℕ) (o : Option (List Node))
    → NoBuffer t
    → IsCleanIfAny o
    → NoBuffer (or_insert m t h_id hdr value o).1
unfolding or_insert table_insert_first
or_insert-NoBuffer m t h_id hdr value none clean h = elim (Bool-cases m.has_node) [
  | inl e ↦ rw e (
      put-NoBuffer t (h_id % bucket_size) (new_node h_id hdr value ∷ t (h_id % bucket_size)) clean
        (refl, clean (h_id % bucket_size)))
  | inr e ↦ rw e clean
]
or_insert-NoBuffer m t h_id hdr value (some ns) clean h =
    put-NoBuffer t (h_id % bucket_size) ns clean h

-- Insertions, with memory or without, combine no fields.
pub insert-NoBuffer :
    (m : Memory) (t : Table) (hdr value : List ℕ) → NoBuffer t → NoBuffer (insert m t hdr value).1
unfolding insert insert_precompute
insert-NoBuffer m t hdr value clean =
    let h_id = hdr_hash hdr in
    or_insert-NoBuffer m t h_id hdr value (replace_field h_id hdr value (t (h_id % bucket_size)))
      clean
      (replace_field-IsClean h_id hdr value (t (h_id % bucket_size)) (clean (h_id % bucket_size)))
