-- ===== src/Http/Tests.antt =====
-- Runs of the header table, and its theorems at concrete fields.
use libyimmo.Base.{
  ℕ, zero, suc, ◌+◌, ◌≡◌, refl, true, none, some, List, [], ◌∷◌, map, ◌==◌, arith, Bool-cases, inl,
  inr, ==→eq, sym,
}
use libyimmo.Http.HeaderTable.{
  new_node, put, Memory, Table, empty_table, hdr_hash, set_cookie, insert_precompute, insert,
  combine, add, add_precompute, add_field, add_end, replace_field, or_insert, table_insert_first,
  string, freed, find_field, get_id, get,
}
use libyimmo.Http.HeaderTable.Iterate.{IsPlaced}
use libyimmo.Http.HeaderTable.Lookup.{NoBuffer, insert-NoBuffer, get-insert}
use libyimmo.Http.HeaderTable.Combine.{content, get-add}

abbrev zeros : ℕ → List ℕ
zeros zero = []
zeros (suc n) = 0 ∷ zeros n

abbrev roomy : Memory
roomy = record { has_node = true; malloc = λ n. some (zeros n) }

-- "Accept", "ACCEPT" and "Host"
abbrev accept : List ℕ
accept = 0x41 ∷ 0x63 ∷ 0x63 ∷ 0x65 ∷ 0x70 ∷ 0x74 ∷ []

abbrev accept_upper : List ℕ
accept_upper = 0x41 ∷ 0x43 ∷ 0x43 ∷ 0x45 ∷ 0x50 ∷ 0x54 ∷ []

abbrev host : List ℕ
host = 0x48 ∷ 0x6F ∷ 0x73 ∷ 0x74 ∷ []

abbrev set_cookie_name : List ℕ
set_cookie_name = 0x53 ∷ 0x65 ∷ 0x74 ∷ 0x2D ∷ 0x43 ∷ 0x6F ∷ 0x6F ∷ 0x6B ∷ 0x69 ∷ 0x65 ∷ []

-- The ids of the header file: YMO_HTTP_HID_ACCEPT, YMO_HTTP_HID_HOST and YMO_HTTP_HID_SET_COOKIE.
hash_accept : hdr_hash accept ≡ 597
hash_accept = refl

hash_host : hdr_hash host ≡ 26265
hash_host = refl

hash_set_cookie : hdr_hash set_cookie_name ≡ set_cookie
hash_set_cookie = refl

abbrev with_accept : Table
with_accept = (insert roomy empty_table accept (0x61 ∷ [])).1

empty_table-NoBuffer : NoBuffer empty_table
empty_table-NoBuffer i = tt

get-insert_example :
    get (insert roomy empty_table accept (0x61 ∷ [])).1 accept_upper ≡ string (0x61 ∷ [])
get-insert_example =
    get-insert roomy empty_table accept accept_upper (0x61 ∷ []) refl empty_table-NoBuffer
      (omega arith, (omega arith, (omega arith, (omega arith, (omega arith, (omega arith, tt))))))
      (omega arith, (omega arith, (omega arith, (omega arith, (omega arith, (omega arith, tt))))))
      refl

get-add_example :
    content (get (add roomy with_accept accept (0x62 ∷ [])).1 accept)
    ≡ some (0x61 ∷ 0x2C ∷ 0x62 ∷ [])
get-add_example =
    get-add roomy with_accept accept (0x61 ∷ []) (0x62 ∷ []) (λ n. (zeros n, refl))
      (insert-NoBuffer roomy empty_table accept (0x61 ∷ []) empty_table-NoBuffer)
      ((λ e. absurd (omega arith)), tt) ((λ e. absurd (omega arith)), tt)
      (λ e. absurd (omega arith))
      (get-insert roomy empty_table accept accept (0x61 ∷ []) refl empty_table-NoBuffer
        (omega arith, (omega arith, (omega arith, (omega arith, (omega arith, (omega arith, tt))))))
        (omega arith, (omega arith, (omega arith, (omega arith, (omega arith, (omega arith, tt))))))
        refl)

-- Without the byte 0 at its end, a value that is added a third time cannot be read as a string.
abbrev junk : Memory
junk = record { has_node = true; malloc = λ n. some (map (λ z. z + 1) (zeros n)) }

added_twice :
    content (
      get
        (add junk
          (add junk (insert junk empty_table accept (0x61 ∷ [])).1 accept (0x62 ∷ [])).1
          accept
          (0x63 ∷ [])).1
        accept)
    ≡ none
unfolding get get_id find_field add add_precompute add_field add_end combine insert
    insert_precompute replace_field or_insert table_insert_first
added_twice = refl

-- The buffer of a combined field is freed by an insertion, and still found.
inserted_again :
    get (insert roomy (add roomy with_accept accept (0x62 ∷ [])).1 accept (0x63 ∷ [])).1 accept
    ≡ freed
unfolding get get_id find_field add add_precompute add_field add_end combine insert
    insert_precompute replace_field or_insert table_insert_first
inserted_again = refl

abbrev one_field : Table
one_field = put empty_table 5 (new_node 597 accept (0x61 ∷ []) ∷ [])

one_field-IsPlaced : IsPlaced one_field
one_field-IsPlaced i = elim (Bool-cases (i == 5)) [
  | inl e ↦ rw e (sym (==→eq i 5 e), tt)
  | inr e ↦ rw e tt
]
