-- ===== src/Http/HeaderTable/Iterate.antt =====
-- `ymo_http_hdr_table_next`: going through a table. A pointer to a node is the chain from that node
-- on.
use libyimmo.Base.{
  ℕ, zero, suc, ◌+◌, ◌-◌, ◌%◌, ◌≤◌, ◌≡◌, refl, ap, ◌∙◌, Option, none, some, List, [], ◌∷◌, ◌++◌,
  length, All, arith,
}
use libyimmo.Http.HeaderTable.{Node, Table, bucket_size}

abbrev pub first_in : List Node → List Node → List Node
first_in [] rest = rest
first_in (n ∷ ns) rest = n ∷ ns

-- The first node of the `left` buckets from `index` on.
unfoldable pub first_from : ℕ → ℕ → Table → List Node
first_from zero index t = []
first_from (suc left) index t = first_in (t index) (first_from left (index + 1) t)

-- From the start, the next node of the chain, or the first of the buckets behind the node's own.
unfoldable pub next_node : Table → Option (List Node) → List Node
unfolding first_from
next_node t none = first_from bucket_size 0 t
next_node t (some []) = []
next_node t (some (cur ∷ n ∷ ns)) = n ∷ ns
next_node t (some (cur ∷ [])) =
    first_from (bucket_size - (cur.h_id % bucket_size + 1)) (cur.h_id % bucket_size + 1) t

-- The nodes that calls with the result of the last call come by.
unfoldable pub walk : ℕ → Table → List Node → List Node
unfolding next_node
walk fuel t [] = []
walk zero t (cur ∷ ns) = []
walk (suc fuel) t (cur ∷ ns) = cur ∷ walk fuel t (next_node t (some (cur ∷ ns)))

abbrev pub nodes_from : ℕ → ℕ → Table → List Node
nodes_from zero index t = []
nodes_from (suc left) index t = t index ++ nodes_from left (index + 1) t

-- Every node hangs in the bucket of its id.
abbrev pub IsPlaced : Table → Type 0
IsPlaced t = (i : ℕ) → All (λ n. n.h_id % bucket_size ≡ i) (t i)

module _ (t : Table) where
  abbrev Walks : ℕ → ℕ → Type 0
  Walks left index =
      (fuel : ℕ)
      → length (nodes_from left index t) ≤ fuel
      → walk fuel t (first_from left index t) ≡ nodes_from left index t

  walk-none : (fuel : ℕ) → walk fuel t [] ≡ []
  unfolding walk
  walk-none zero = refl
  walk-none (suc fuel) = refl

  walk-chain :
      (i left : ℕ) (n : Node) (ns : List Node) (fuel : ℕ)
      → Walks left (i + 1)
      → i + 1 + left ≡ bucket_size
      → All (λ n. n.h_id % bucket_size ≡ i) (n ∷ ns)
      → length ((n ∷ ns) ++ nodes_from left (i + 1) t) ≤ fuel
      → walk fuel t (n ∷ ns) ≡ (n ∷ ns) ++ nodes_from left (i + 1) t
  unfolding walk next_node
  walk-chain i left n ns zero later end placed enough = absurd (omega arith)
  walk-chain i left n (n2 ∷ ns) (suc fuel) later end (here, placed) enough =
      ap (◌∷◌ n) (walk-chain i left n2 ns fuel later end placed (omega arith))
  walk-chain i left n [] (suc fuel) later end (here, placed) enough =
      let rest : bucket_size - (n.h_id % bucket_size + 1) ≡ left = omega arith in
      let from : n.h_id % bucket_size + 1 ≡ i + 1 = omega arith in
      ap (◌∷◌ n) (
        ap (λ l. walk fuel t (first_from l (n.h_id % bucket_size + 1) t)) rest
        ∙ ap (λ j. walk fuel t (first_from left j t)) from
        ∙ later fuel (omega arith))

  walk-bucket :
      (i left : ℕ) (chain : List Node) (fuel : ℕ)
      → Walks left (i + 1)
      → i + 1 + left ≡ bucket_size
      → All (λ n. n.h_id % bucket_size ≡ i) chain
      → length (chain ++ nodes_from left (i + 1) t) ≤ fuel
      → walk fuel t (first_in chain (first_from left (i + 1) t))
        ≡ chain ++ nodes_from left (i + 1) t
  walk-bucket i left [] fuel later end placed enough = later fuel enough
  walk-bucket i left (n ∷ ns) fuel later end placed enough =
      walk-chain i left n ns fuel later end placed enough

  walk-from : (left index : ℕ) → IsPlaced t → index + left ≡ bucket_size → Walks left index
  unfolding first_from
  walk-from zero index placed end fuel enough = walk-none fuel
  walk-from (suc left) index placed end fuel enough =
      walk-bucket index left (t index) fuel (walk-from left (index + 1) placed (omega arith))
        (omega arith) (placed index) enough

-- Starting from NULL, `ymo_http_hdr_table_next` comes by every node of the table once, bucket by
-- bucket, where every node hangs in the bucket of its id.
pub walk-nodes :
    (t : Table) (fuel : ℕ)
    → IsPlaced t
    → length (nodes_from bucket_size 0 t) ≤ fuel
    → walk fuel t (next_node t none) ≡ nodes_from bucket_size 0 t
unfolding next_node
walk-nodes t fuel placed enough = walk-from t bucket_size 0 placed refl fuel enough
