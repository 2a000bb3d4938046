-- ===== src/Http/HeaderTable/Combine.antt =====
-- Adding a second value to a field.
use libyimmo.Base.{
  ℕ, ◌+◌, ◌%◌, ◌≡◌, ◌≢◌, refl, sym, ap, ◌∙◌, Bool, true, false, Option, none, some, List, [], ◌∷◌,
  ◌++◌, length, ◌==◌, if◌then◌else◌, Bool-cases, inl, inr, All, arith,
}
use mathlib.Core.Option
use mathlib.Core.Path.{subst}
use libyimmo.Http.HeaderTable.{
  Memory, null, held, Node, Table, bucket_size, hdr_hash, set_cookie, has_field, combine, combined,
  behind, Adding, absent, added, no_memory, add_field, add_end, add_precompute, add, Found, nothing,
  string, block_at, freed, found, find_field, get_id, get, string_in,
}
use libyimmo.Http.HeaderTable.Lookup.{NoBuffer}

-- What a caller reads at the pointer that a lookup gives it.
abbrev pub content : Found → Option (List ℕ)
content nothing = none
content (string s) = some s
content (block_at bytes) = string_in bytes
content freed = none

-- A string in the sense of C, as the list of its bytes before the NUL.
abbrev pub HasNoNul : List ℕ → Type 0
HasNoNul s = All (λ b. b ≢ 0) s

pub string_in-nul : (s : List ℕ) → HasNoNul s → string_in (s ++ (0 ∷ [])) ≡ some s
string_in-nul [] h = refl
string_in-nul (b ∷ bs) (nonzero, h) =
    let e : (b == 0) ≡ false = ground (arith, nonzero) in
    rw e (ap (Option.map (λ s. b ∷ s)) (string_in-nul bs h))

append_assoc_comma :
    (old value : List ℕ) → (old ++ (0x2C ∷ value)) ++ (0 ∷ []) ≡ old ++ (0x2C ∷ (value ++ (0 ∷ [])))
append_assoc_comma [] value = refl
append_assoc_comma (b ∷ bs) value = ap (◌∷◌ b) (append_assoc_comma bs value)

HasNoNul-comma :
    (old value : List ℕ) → HasNoNul old → HasNoNul value → HasNoNul (old ++ (0x2C ∷ value))
HasNoNul-comma [] value h k = (λ e. absurd (omega arith), k)
HasNoNul-comma (b ∷ bs) value (nonzero, h) k = (nonzero, HasNoNul-comma bs value h k)

joined-string :
    (old value : List ℕ)
    → HasNoNul old
    → HasNoNul value
    → string_in (old ++ (0x2C ∷ (value ++ (0 ∷ [])))) ≡ some (old ++ (0x2C ∷ value))
joined-string old value h k =
    ap string_in (sym (append_assoc_comma old value))
    ∙ string_in-nul (old ++ (0x2C ∷ value)) (HasNoNul-comma old value h k)

has_field-string :
    (h_id : ℕ) (ns : List Node) (old : List ℕ)
    → find_field h_id ns ≡ string old
    → has_field h_id ns ≡ true
unfolding find_field
has_field-string h_id [] old e = absurd (cc)
has_field-string h_id (n ∷ ns) old e = elim (Bool-cases (n.h_id == h_id)) [
  | inl here ↦ rw here refl
  | inr there ↦ rw there (
      has_field-string h_id ns old
        (subst (λ b. (if b then found n else find_field h_id ns) ≡ string old) there e))
]

-- The caller's string that a lookup has found.
abbrev string_of : Found → List ℕ
string_of (string s) = s
string_of _ = []

-- A chain after the loop of an addition to the field `h_id` with the value `old`.
abbrev AddsTo : ℕ → List ℕ → List ℕ → Adding → Type 0
AddsTo h_id old value absent = ⊥
AddsTo h_id old value (added ns) = content (find_field h_id ns) ≡ some (old ++ (0x2C ∷ value))
AddsTo h_id old value (no_memory ns) = ⊥

combined-AddsTo :
    (m : Memory) (h_id : ℕ) (old value : List ℕ) (n : Node) (ns : List Node)
    → ((size : ℕ) → (block : List ℕ) × (m.malloc size ≡ some block))
    → HasNoNul old
    → HasNoNul value
    → (n.h_id == h_id) ≡ true
    → n.buffer ≡ null
    → n.value ≡ old
    → AddsTo h_id old value (combined n ns (combine m n value))
unfolding combine find_field
combined-AddsTo m h_id old value n ns memory h k here clean same =
    let (block, got) = memory (length n.value + length value + 2) in
    let text = n.value ++ (0x2C ∷ (value ++ (0 ∷ []))) in
    let is : combine m n value ≡ some (held text) =
      ap (λ b. combine m (record n { buffer = b }) value) clean
      ∙ ap (Option.map (λ x. held text)) got in
    let read : string_in text ≡ some (old ++ (0x2C ∷ value)) =
      ap (λ v. string_in (v ++ (0x2C ∷ (value ++ (0 ∷ []))))) same ∙ joined-string old value h k in
    subst (λ o. AddsTo h_id old value (combined n ns o)) (sym is) (rw here read)

behind-AddsTo :
    (h_id : ℕ) (old value : List ℕ) (n : Node) (a : Adding)
    → (n.h_id == h_id) ≡ false
    → AddsTo h_id old value a
    → AddsTo h_id old value (behind n a)
unfolding find_field
behind-AddsTo h_id old value n absent there a = absurd a
behind-AddsTo h_id old value n (no_memory ns) there a = absurd a
behind-AddsTo h_id old value n (added ns) there a = rw there a

add_field-AddsTo :
    (m : Memory) (h_id : ℕ) (old value : List ℕ) (ns : List Node)
    → ((size : ℕ) → (block : List ℕ) × (m.malloc size ≡ some block))
    → HasNoNul old
    → HasNoNul value
    → All (λ n. n.buffer ≡ null) ns
    → find_field h_id ns ≡ string old
    → AddsTo h_id old value (add_field m h_id value ns)
unfolding add_field find_field
add_field-AddsTo m h_id old value [] memory h k clean e = absurd (cc)
add_field-AddsTo m h_id old value (n ∷ ns) memory h k (null_here, clean) e =
    let rest = add_field m h_id value ns in
    let at_node = λ (b : Bool).
      AddsTo h_id old value (if b then combined n ns (combine m n value) else behind n rest) in
    let found_in = λ (b : Bool). (if b then found n else find_field h_id ns) ≡ string old in
    elim (Bool-cases (n.h_id == h_id)) [
      | inl here ↦
          (let value_of : string_of (found n) ≡ n.value =
              ap (λ b. string_of (found (record n { buffer = b }))) null_here in
            subst at_node (sym here) (
              combined-AddsTo m h_id old value n ns memory h k here null_here
                (sym value_of ∙ ap string_of (subst found_in here e))))
      | inr there ↦ subst at_node (sym there) (
          behind-AddsTo h_id old value n rest there
            (add_field-AddsTo m h_id old value ns memory h k clean (subst found_in there e)))
    ]

add_end-content :
    (m : Memory) (t : Table) (h_id : ℕ) (hdr old value : List ℕ) (a : Adding)
    → AddsTo h_id old value a
    → content (get_id (add_end m t h_id hdr value a).1 h_id) ≡ some (old ++ (0x2C ∷ value))
unfolding add_end get_id
add_end-content m t h_id hdr old value absent a = absurd a
add_end-content m t h_id hdr old value (no_memory ns) a = absurd a
add_end-content m t h_id hdr old value (added ns) a =
    let same : (h_id % bucket_size == h_id % bucket_size) ≡ true = ground arith in rw same a

-- In a table without combined fields, with memory, a value that is added to a field other than
-- Set-Cookie is found behind the old one and a comma.
pub get-add :
    (m : Memory) (t : Table) (hdr old value : List ℕ)
    → ((size : ℕ) → (block : List ℕ) × (m.malloc size ≡ some block))
    → NoBuffer t
    → HasNoNul old
    → HasNoNul value
    → hdr_hash hdr ≢ set_cookie
    → get t hdr ≡ string old
    → content (get (add m t hdr value).1 hdr) ≡ some (old ++ (0x2C ∷ value))
unfolding get get_id add add_precompute
get-add m t hdr old value memory clean h k other e =
    let id = hdr_hash hdr in
    let chain = t (id % bucket_size) in
    let there = has_field-string id chain old e in
    let combines : (id == set_cookie) ≡ false = ground (arith, other) in
    rw (there, combines)
      (add_end-content m t id hdr old value (add_field m id value chain)
        (add_field-AddsTo m id old value chain memory h k (clean (id % bucket_size)) e))
