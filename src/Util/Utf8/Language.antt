-- ===== src/Util/Utf8/Language.antt =====
-- What the validator accepts: the well-formed texts of RFC 3629, in one buffer or in several.
use libyimmo.Base.{
  ℕ, ◌≤◌, ◌≡◌, ◌⊎◌, ◌↔◌, inl, inr, refl, sym, true, false, Option, none, some, List, [], ◌∷◌, ◌++◌,
  All, IsByte, Option-cases, Status, okay, eilseq, arith,
}
use mathlib.Core.Path.{subst}
use libyimmo.Util.Utf8.{Utf8State, reset, finish, check_utf8}
use libyimmo.Util.Utf8.Grammar.{
  WellFormed, done, one, two, three, four, IsTail, Phase, start, tail1, tail2, tail3, after_e0,
  after_ed, after_f0, after_f4, phase_step, within, run,
}
use libyimmo.Util.Utf8.Simulation.{Stands, Ends, scan-Ends}

-- What is still to come in a phase.
abbrev Rest : Phase → List ℕ → Type 0
Rest start bs = WellFormed bs
Rest tail1 [] = ⊥
Rest tail1 (c ∷ r) = IsTail c × WellFormed r
Rest tail2 [] = ⊥
Rest tail2 (c ∷ r) = IsTail c × Rest tail1 r
Rest tail3 [] = ⊥
Rest tail3 (c ∷ r) = IsTail c × Rest tail2 r
Rest after_e0 [] = ⊥
Rest after_e0 (c ∷ r) = ((0xA0 ≤ c) × (c ≤ 0xBF)) × Rest tail1 r
Rest after_ed [] = ⊥
Rest after_ed (c ∷ r) = ((0x80 ≤ c) × (c ≤ 0x9F)) × Rest tail1 r
Rest after_f0 [] = ⊥
Rest after_f0 (c ∷ r) = ((0x90 ≤ c) × (c ≤ 0xBF)) × Rest tail2 r
Rest after_f4 [] = ⊥
Rest after_f4 (c ∷ r) = ((0x80 ≤ c) × (c ≤ 0x8F)) × Rest tail2 r

-- The automaton's step on a leading byte, read off its range.
data Lead (c : ℕ) : Phase → Type 0 where
  ascii : c ≤ 0x7F → Lead c start
  lead2 : 0xC2 ≤ c → c ≤ 0xDF → Lead c tail1
  lead3 : ((0xE1 ≤ c) × (c ≤ 0xEC)) ⊎ ((0xEE ≤ c) × (c ≤ 0xEF)) → Lead c tail2
  e0 : c ≡ 0xE0 → Lead c after_e0
  ed : c ≡ 0xED → Lead c after_ed
  f0 : c ≡ 0xF0 → Lead c after_f0
  lead4 : 0xF1 ≤ c → c ≤ 0xF3 → Lead c tail3
  f4 : c ≡ 0xF4 → Lead c after_f4

Lead_of_step : (c : ℕ) (q : Phase) → phase_step start c ≡ some q → Lead c q
unfolding phase_step
Lead_of_step c start e = ascii (ground arith)
Lead_of_step c tail1 e = lead2 (ground arith) (ground arith)
Lead_of_step c tail2 e = lead3 (ground arith)
Lead_of_step c tail3 e = lead4 (ground arith) (ground arith)
Lead_of_step c after_e0 e = e0 (ground arith)
Lead_of_step c after_ed e = ed (ground arith)
Lead_of_step c after_f0 e = f0 (ground arith)
Lead_of_step c after_f4 e = f4 (ground arith)

sequence : {c : ℕ} {q : Phase} (r : List ℕ) → Lead c q → Rest q r → WellFormed (c ∷ r)
sequence r (ascii h) w = one _ h w
sequence (d ∷ r) (lead2 lo hi) (t, w) = two _ d lo hi t w
sequence (d ∷ e ∷ r) (lead3 h) (t, (u, w)) = three _ d e (ground arith) u w
sequence (d ∷ e ∷ r) (e0 h) (t, (u, w)) = three _ d e (ground arith) u w
sequence (d ∷ e ∷ r) (ed h) (t, (u, w)) = three _ d e (ground arith) u w
sequence (d ∷ e ∷ f ∷ r) (f0 h) (t, (u, (v, w))) = four _ d e f (ground arith) u v w
sequence (d ∷ e ∷ f ∷ r) (lead4 lo hi) (t, (u, (v, w))) = four _ d e f (ground arith) u v w
sequence (d ∷ e ∷ f ∷ r) (f4 h) (t, (u, (v, w))) = four _ d e f (ground arith) u v w
sequence _ _ w = absurd (ground arith)

abbrev after_step : List ℕ → Option Phase → Option Phase
after_step r o = elim o [ none ↦ none | some q ↦ run q r ]

in_range :
    (lo hi c : ℕ) (q : Phase) (r : List ℕ)
    → after_step r (within lo hi c q) ≡ some start
    → ((lo ≤ c) × (c ≤ hi)) × (run q r ≡ some start)
in_range lo hi c q r e = ground arith

run→Rest : (bs : List ℕ) (q : Phase) → run q bs ≡ some start → Rest q bs
unfolding run phase_step
run→Rest [] start e = done
run→Rest [] q e = absurd (cc)
run→Rest (c ∷ r) start e = elim (Option-cases (phase_step start c)) [
  | inl stuck ↦ absurd (ground (arith, stuck))
  | inr (q, next) ↦ sequence r (Lead_of_step c q next) (run→Rest r q (ground (arith, next)))
]
run→Rest (c ∷ r) tail1 e = let (t, e') = in_range 0x80 0xBF c start r e in (t, run→Rest r start e')
run→Rest (c ∷ r) tail2 e = let (t, e') = in_range 0x80 0xBF c tail1 r e in (t, run→Rest r tail1 e')
run→Rest (c ∷ r) tail3 e = let (t, e') = in_range 0x80 0xBF c tail2 r e in (t, run→Rest r tail2 e')
run→Rest (c ∷ r) after_e0 e =
    let (t, e') = in_range 0xA0 0xBF c tail1 r e in (t, run→Rest r tail1 e')
run→Rest (c ∷ r) after_ed e =
    let (t, e') = in_range 0x80 0x9F c tail1 r e in (t, run→Rest r tail1 e')
run→Rest (c ∷ r) after_f0 e =
    let (t, e') = in_range 0x90 0xBF c tail2 r e in (t, run→Rest r tail2 e')
run→Rest (c ∷ r) after_f4 e =
    let (t, e') = in_range 0x80 0x8F c tail2 r e in (t, run→Rest r tail2 e')

WellFormed→run : {bs : List ℕ} → WellFormed bs → run start bs ≡ some start
unfolding run phase_step
WellFormed→run done = refl
WellFormed→run (one c h w) = ground (arith, WellFormed→run w)
WellFormed→run (two c d lo hi t w) = ground (arith, WellFormed→run w)
WellFormed→run (three c d e h t w) = ground (arith, WellFormed→run w)
WellFormed→run (four c d e f h t u w) = ground (arith, WellFormed→run w)

run-WellFormed : (bs : List ℕ) → (run start bs ≡ some start) ↔ WellFormed bs
run-WellFormed bs = (run→Rest bs start, WellFormed→run)

run-append : (xs ys : List ℕ) (q : Phase) → run q (xs ++ ys) ≡ after_step ys (run q xs)
unfolding run
run-append [] ys q = refl
run-append (x ∷ xs) ys q = elim (Option-cases (phase_step q x)) [
  | inl stuck ↦ ground (arith, stuck)
  | inr (q', next) ↦ ground (arith, next, run-append xs ys q')
]

final-Ends :
    (r : Status × Utf8State) (o : Option Phase)
    → Ends r o
    → ((finish true r).0 ≡ okay) ↔ (o ≡ some start)
unfolding finish
final-Ends (okay, s) (some start) st = (λ e. refl, λ e. ground arith)
final-Ends (okay, s) (some q) st = (λ e. ground arith, λ e. absurd (cc))
final-Ends (eilseq, s) none ends = (λ e. absurd (cc), λ e. absurd (cc))
final-Ends (okay, s) none ends = absurd ends
final-Ends (eilseq, s) (some q) ends = absurd ends
final-Ends _ _ ends = absurd ends

abbrev pub and_then : Status × Utf8State → (Utf8State → Status) → Status
and_then (okay, s) k = k s
and_then (e, s) k = e

-- The outcome of a text that arrives in several buffers, `done` being set on the last.
abbrev pub check_buffers : Utf8State → List (List ℕ) → List ℕ → Status
check_buffers s [] last = (check_utf8 s last true).0
check_buffers s (b ∷ bs) last = and_then (check_utf8 s b false) (λ s'. check_buffers s' bs last)

abbrev pub joined : List (List ℕ) → List ℕ → List ℕ
joined [] last = last
joined (b ∷ bs) last = b ++ joined bs last

finish_open : (s : Utf8State) → finish false (okay, s) ≡ (okay, s)
unfolding finish
finish_open s = ground arith

next-Ends :
    (r : Status × Utf8State) (o : Option Phase) (later : List ℕ) (k : Utf8State → Status)
    → Ends r o
    → ((s : Utf8State) (q : Phase) → Stands q s → (k s ≡ okay) ↔ (run q later ≡ some start))
    → (and_then (finish false r) k ≡ okay) ↔ (after_step later o ≡ some start)
unfolding finish
next-Ends (okay, s) (some q) later k st rest =
    subst (λ r. (and_then r k ≡ okay) ↔ (run q later ≡ some start)) (sym (finish_open s))
      (rest s q st)
next-Ends (eilseq, s) none later k ends rest = (λ e. absurd (cc), λ e. absurd (cc))
next-Ends (okay, s) none later k ends rest = absurd ends
next-Ends (eilseq, s) (some q) later k ends rest = absurd ends
next-Ends _ _ later k ends rest = absurd ends

module _ (last : List ℕ) (last_bytes : All IsByte last) where
  buffers-run :
      (bs : List (List ℕ)) (s : Utf8State) (q : Phase)
      → All (All IsByte) bs
      → Stands q s
      → (check_buffers s bs last ≡ okay) ↔ (run q (joined bs last) ≡ some start)
  unfolding check_utf8
  buffers-run [] s q h st = final-Ends _ _ (scan-Ends last 0 s q last_bytes st)
  buffers-run (b ∷ bs) s q (h, hs) st = rw (run-append b (joined bs last) q) (
      next-Ends _ _ (joined bs last) (λ s'. check_buffers s' bs last) (scan-Ends b 0 s q h st)
        (λ s' q' st'. buffers-run bs s' q' hs st'))

-- However a text of bytes is cut into buffers, the validator, started afresh, accepts it
-- exactly when it is well-formed UTF-8 by the grammar of RFC 3629.
pub check_utf8-WellFormed :
    (bs : List (List ℕ)) (last : List ℕ)
    → All (All IsByte) bs
    → All IsByte last
    → (check_buffers reset bs last ≡ okay) ↔ WellFormed (joined bs last)
check_utf8-WellFormed bs last h hl =
    let (to, from) = buffers-run last hl bs reset start h refl in
    let (parse, print) = run-WellFormed (joined bs last) in (λ e. parse (to e), λ w. from (print w))
