-- ===== src/Util/Utf8/Simulation.antt =====
-- The validator's state against the automaton of the byte ranges.
use libyimmo.Base.{
  ℕ, zero, suc, ◌<◌, ◌≡◌, ◌≢◌, ◌⊎◌, inl, inr, refl, sym, ◌∙◌, true, false, Option, none, some, List,
  [], ◌∷◌, drop, All, IsByte, Bool-cases, Status, okay, eilseq, arith,
}
use mathlib.Core.Path.{subst}
use libyimmo.Util.Utf8.{Utf8State, Round, reject, advance, ascii_run, read_byte, scan}
use libyimmo.Util.Utf8.Grammar.{
  Phase, start, tail1, tail2, tail3, after_e0, after_ed, after_f0, after_f4, phase_step, run,
}
use libyimmo.Util.Utf8.Bytes.{mask_80, mask_e0, mask_f0, mask_f8, mask_c0, quartet→ascii}

-- Which states stand for a phase: how many bytes are missing, and which checks are still armed.
abbrev pub Stands : Phase → Utf8State → Type 0
Stands start s = s.point_remain ≡ 0
Stands tail1 s =
    (s.point_remain ≡ 1)
    × ((s.code_width ≡ 1) ⊎ ((s.code_width ≡ 2) × (s.check_surrogate ≡ false)) ⊎ (s.code_width ≡ 3))
Stands tail2 s =
    (s.point_remain ≡ 2)
    × (((s.code_width ≡ 2) × (s.check_overlong ≡ false) × (s.check_surrogate ≡ false))
        ⊎ (s.code_width ≡ 3))
Stands tail3 s =
    (s.point_remain ≡ 3) × (s.code_width ≡ 3) × (s.check_overlong ≡ false) × (s.check_max ≡ false)
Stands after_e0 s =
    (s.point_remain ≡ 2)
    × (s.code_width ≡ 2)
    × (s.check_overlong ≡ true)
    × (s.check_surrogate ≡ false)
Stands after_ed s =
    (s.point_remain ≡ 2)
    × (s.code_width ≡ 2)
    × (s.check_overlong ≡ false)
    × (s.check_surrogate ≡ true)
Stands after_f0 s =
    (s.point_remain ≡ 3) × (s.code_width ≡ 3) × (s.check_overlong ≡ true) × (s.check_max ≡ false)
Stands after_f4 s =
    (s.point_remain ≡ 3) × (s.code_width ≡ 3) × (s.check_overlong ≡ false) × (s.check_max ≡ true)

abbrev Matches : Round → Option Phase → Type 0
Matches (reject s) none = Unit
Matches (reject s) (some q) = ⊥
Matches (advance s k) none = ⊥
Matches (advance s k) (some q) = (k ≡ 0) × Stands q s

-- A round without the ASCII run makes the automaton's step.
round-Matches :
    (q : Phase) (s : Utf8State) (c : ℕ) (p : List ℕ)
    → IsByte c
    → Stands q s
    → (q ≡ start → ascii_run c p ≡ false)
    → Matches (read_byte s c p) (phase_step q c)
unfolding read_byte phase_step
round-Matches start s c p h st plain =
    ground (arith, plain refl, mask_80 c h, mask_e0 c h, mask_f0 c h, mask_f8 c h)
round-Matches tail1 s c p h st plain = ground (arith, mask_c0 c h)
round-Matches tail2 s c p h st plain = ground (arith, mask_c0 c h)
round-Matches q s c p h st plain = ground (arith, mask_c0 c h)

run_ascii : (c : ℕ) (p : List ℕ) → c < 0x80 → run start (c ∷ p) ≡ run start p
unfolding run phase_step
run_ascii c p h = ground arith

-- The ASCII run passes over bytes on which the automaton stays at its start.
ascii_round :
    (s : Utf8State) (c : ℕ) (p : List ℕ)
    → s.point_remain ≡ 0
    → IsByte c
    → All IsByte p
    → ascii_run c p ≡ true
    → (read_byte s c p ≡ advance s 3) × (run start (c ∷ p) ≡ run start (drop 3 p))
unfolding read_byte ascii_run
ascii_round s c (p0 ∷ p1 ∷ p2 ∷ p) z h (h0, (h1, (h2, hs))) e =
    let (lc, l0, l1, l2) = quartet→ascii c p0 p1 p2 (h, h0, h1, h2) e in
    (
      ground arith,
      run_ascii c (p0 ∷ p1 ∷ p2 ∷ p) lc
          ∙ run_ascii p0 (p1 ∷ p2 ∷ p) l0
          ∙ run_ascii p1 (p2 ∷ p) l1
          ∙ run_ascii p2 p l2,
    )
ascii_round s c [] z h hs e = cc
ascii_round s c (p0 ∷ []) z h hs e = cc
ascii_round s c (p0 ∷ p1 ∷ []) z h hs e = cc

abbrev pub Ends : Status × Utf8State → Option Phase → Type 0
Ends (okay, s) (some q) = Stands q s
Ends (eilseq, s) none = Unit
Ends _ _ = ⊥

abbrev after_round : List ℕ → Round → Status × Utf8State
after_round p r = elim r [ reject s' ↦ (eilseq, s') | advance s' k ↦ scan k s' p ]

abbrev after_step : List ℕ → Option Phase → Option Phase
after_step p o = elim o [ none ↦ none | some q ↦ run q p ]

follow :
    (p : List ℕ) (r : Round) (o : Option Phase)
    → Matches r o
    → ((s : Utf8State) (q : Phase) → Stands q s → Ends (scan 0 s p) (run q p))
    → Ends (after_round p r) (after_step p o)
follow p (reject s) none m rest = tt
follow p (reject s) (some q) m rest = absurd m
follow p (advance s k) none m rest = absurd m
follow p (advance s k) (some q) m rest = rw m.0 (rest s q m.1)

Phase-cases : (q : Phase) → (q ≡ start) ⊎ (q ≢ start)
Phase-cases start = inl refl
Phase-cases q = inr (λ e. cc)

ascii-Ends :
    (s : Utf8State) (c : ℕ) (p : List ℕ)
    → (read_byte s c p ≡ advance s 3) × (run start (c ∷ p) ≡ run start (drop 3 p))
    → Ends (scan 3 s p) (run start (drop 3 p))
    → Ends (scan 0 s (c ∷ p)) (run start (c ∷ p))
unfolding scan
ascii-Ends s c p (round, skipped) ends =
    subst (λ o. Ends (scan 0 s (c ∷ p)) o) (sym skipped)
      (subst (λ r. Ends (after_round p r) (run start (drop 3 p))) (sym round) ends)

-- The loop ends where the automaton ends, and fails where it is stuck.
pub scan-Ends :
    (bs : List ℕ) (k : ℕ) (s : Utf8State) (q : Phase)
    → All IsByte bs
    → Stands q s
    → Ends (scan k s bs) (run q (drop k bs))
unfolding scan run
scan-Ends [] zero s q h st = st
scan-Ends [] (suc k) s q h st = st
scan-Ends (c ∷ p) (suc k) s q (h, hs) st = scan-Ends p k s q hs st
scan-Ends (c ∷ p) zero s q (h, hs) st =
    let at_start : q ≡ start → Stands start s = λ e. subst (λ q. Stands q s) e st in
    let plain : (q ≡ start → ascii_run c p ≡ false)
        → Ends (after_round p (read_byte s c p)) (after_step p (phase_step q c)) =
      λ no_run.
        follow p (read_byte s c p) (phase_step q c) (round-Matches q s c p h st no_run)
          (λ s' q' st'. scan-Ends p 0 s' q' hs st') in
    elim (Phase-cases q) [
      | inr other ↦ plain (λ e. absurd (other e))
      | inl e ↦ elim (Bool-cases (ascii_run c p)) [
        | inr no_run ↦ plain (λ _. no_run)
        | inl ascii ↦
            subst (λ q. Ends (scan 0 s (c ∷ p)) (run q (c ∷ p))) (sym e)
              (ascii-Ends s c p (ascii_round s c p (at_start e) h hs ascii)
                (scan-Ends p 3 s start hs (at_start e)))
      ]
    ]
