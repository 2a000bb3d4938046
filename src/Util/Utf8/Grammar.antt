-- ===== src/Util/Utf8/Grammar.antt =====
-- UTF-8 as RFC 3629 defines it, by its grammar and by the automaton of its byte ranges. Nothing
-- here is taken from the code.
use libyimmo.Base.{
  ℕ, ◌≤◌, ◌≡◌, ◌⊎◌, Option, none, some, List, [], ◌∷◌, ltb, leb, ◌==◌, ◌&&◌, if◌then◌else◌,
}

abbrev pub IsTail : ℕ → Type 0
IsTail c = (0x80 ≤ c) × (c ≤ 0xBF)

-- The first two bytes of a sequence of three, and of four.
abbrev pub IsLead3 : ℕ → ℕ → Type 0
IsLead3 c d =
    ((c ≡ 0xE0) × (0xA0 ≤ d) × (d ≤ 0xBF))
    ⊎ ((0xE1 ≤ c) × (c ≤ 0xEC) × IsTail d)
    ⊎ ((c ≡ 0xED) × (0x80 ≤ d) × (d ≤ 0x9F))
    ⊎ ((0xEE ≤ c) × (c ≤ 0xEF) × IsTail d)

abbrev pub IsLead4 : ℕ → ℕ → Type 0
IsLead4 c d =
    ((c ≡ 0xF0) × (0x90 ≤ d) × (d ≤ 0xBF))
    ⊎ ((0xF1 ≤ c) × (c ≤ 0xF3) × IsTail d)
    ⊎ ((c ≡ 0xF4) × (0x80 ≤ d) × (d ≤ 0x8F))

pub data WellFormed : List ℕ → Type 0 where
  done : WellFormed []
  one : (c : ℕ) {r : List ℕ} → c ≤ 0x7F → WellFormed r → WellFormed (c ∷ r)
  two :
      (c d : ℕ) {r : List ℕ}
      → 0xC2 ≤ c
      → c ≤ 0xDF
      → IsTail d
      → WellFormed r
      → WellFormed (c ∷ d ∷ r)
  three :
      (c d e : ℕ) {r : List ℕ} → IsLead3 c d → IsTail e → WellFormed r → WellFormed (c ∷ d ∷ e ∷ r)
  four :
      (c d e f : ℕ) {r : List ℕ}
      → IsLead4 c d
      → IsTail e
      → IsTail f
      → WellFormed r
      → WellFormed (c ∷ d ∷ e ∷ f ∷ r)

-- What the bytes so far ask of the next one.
pub data Phase : Type 0 where
  start tail1 tail2 tail3 after_e0 after_ed after_f0 after_f4 : Phase

abbrev pub within : ℕ → ℕ → ℕ → Phase → Option Phase
within lo hi c q = if leb lo c && leb c hi then some q else none

unfoldable pub phase_step : Phase → ℕ → Option Phase
phase_step start c =
    if ltb c 0x80
    then some start
    else if ltb c 0xC2
    then none
    else if ltb c 0xE0
    then some tail1
    else if c == 0xE0
    then some after_e0
    else if c == 0xED
    then some after_ed
    else if ltb c 0xF0
    then some tail2
    else if c == 0xF0
    then some after_f0
    else if ltb c 0xF4
    then some tail3
    else if c == 0xF4
    then some after_f4
    else none
phase_step tail1 c = within 0x80 0xBF c start
phase_step tail2 c = within 0x80 0xBF c tail1
phase_step tail3 c = within 0x80 0xBF c tail2
phase_step after_e0 c = within 0xA0 0xBF c tail1
phase_step after_ed c = within 0x80 0x9F c tail1
phase_step after_f0 c = within 0x90 0xBF c tail2
phase_step after_f4 c = within 0x80 0x8F c tail2

unfoldable pub run : Phase → List ℕ → Option Phase
run p [] = some p
run p (c ∷ cs) = elim (phase_step p c) [ none ↦ none | some q ↦ run q cs ]
