-- ===== src/Util/Case/Compare.antt =====
-- What the bit tricks of the letter case do, and when two strings compare as equal.
use libyimmo.Base.{
  ℕ, suc, ◌+◌, ◌-◌, ◌^◌, ◌<◌, ◌≤◌, ◌≡◌, ◌≢◌, ◌↔◌, ◌⊎◌, inl, inr, refl, ap, ap₂, sym, ◌∙◌, true,
  Bool, ◌&&◌, ◌||◌, List, [], ◌∷◌, map, length, leb, ltb, ◌==◌, if◌then◌else◌, Bool-cases, ==→eq,
  All, IsByte, arith,
}
use mathlib.Core.Path.{subst}
use libyimmo.Base.Bits.{bytes_agree}
use libyimmo.Util.Case.{tolower, toupper, casecmp_loop, strcasecmp}

-- A to Z, and the bytes 0xC1 to 0xDA, which are the same letters with bit 7 set.
abbrev pub is_upper : ℕ → Bool
is_upper c = (leb 0x41 c && leb c 0x5A) || (leb 0xC1 c && leb c 0xDA)

abbrev pub is_lower : ℕ → Bool
is_lower c = (leb 0x61 c && leb c 0x7A) || (leb 0xE1 c && leb c 0xFA)

abbrev pub lower : ℕ → ℕ
lower c = if is_upper c then c + 0x20 else c

abbrev pub upper : ℕ → ℕ
upper c = if is_lower c then c - 0x20 else c

pub tolower-lower : (c : ℕ) → IsByte c → tolower c ≡ lower c
tolower-lower c h = bytes_agree tolower lower 256 c h refl

toupper-upper : (c : ℕ) → IsByte c → toupper c ≡ upper c
toupper-upper c h = bytes_agree toupper upper 256 c h refl

-- On every byte the two functions move the letters of one case to the other and keep what else
-- there is; 0xC1 to 0xDA and 0xE1 to 0xFA are moved like the letters that they are without bit 7.
pub tolower-toupper :
    (c : ℕ)
    → IsByte c
    → (tolower c ≡ lower c) × (toupper c ≡ upper c) × (tolower (toupper c) ≡ tolower c)
tolower-toupper c h = (
  tolower-lower c h,
  toupper-upper c h,
  bytes_agree (λ x. tolower (toupper x)) tolower 256 c h refl,
)

loop-cons :
    (m a b : ℕ) (s1 s2 : List ℕ)
    → casecmp_loop (suc m + 1) (a ∷ s1) (b ∷ s2)
      ≡ (if tolower a == tolower b then casecmp_loop (m + 1) s1 s2 else suc m)
loop-cons m a b s1 s2 =
    let less : suc m + 1 - 1 ≡ m + 1 = omega arith in
    let next : suc m ≡ m + 1 = omega arith in
    let positive : ltb 0 (m + 1) ≡ true = ground arith in rw less (rw positive (rw next refl))

-- The strings are equal where the result is 0, and only there.
Decides : List ℕ → List ℕ → ℕ → Type 0
Decides s1 s2 r =
    ((r ≡ 0) × (map lower s1 ≡ map lower s2))
    ⊎ ((r ≢ 0) × (r ≤ length s2) × (map lower s1 ≢ map lower s2))

loop-Decides :
    (s1 s2 : List ℕ)
    → All IsByte s1
    → All IsByte s2
    → length s1 ≡ length s2
    → Decides s1 s2 (casecmp_loop (length s2 + 1) s1 s2)
unfolding Decides
loop-Decides [] [] h k same = inl (refl, refl)
loop-Decides [] (b ∷ s2) h k same = absurd (omega arith)
loop-Decides (a ∷ s1) [] h k same = absurd (omega arith)
loop-Decides (a ∷ s1) (b ∷ s2) (ha, h) (hb, k) same =
    let la = tolower-lower a ha in
    let lb = tolower-lower b hb in
    subst (Decides (a ∷ s1) (b ∷ s2)) (sym (loop-cons (length s2) a b s1 s2))
      (elim (Bool-cases (tolower a == tolower b)) [
        | inl eq ↦ rw eq (elim (loop-Decides s1 s2 h k (omega arith)) [
          | inl (z, e) ↦ inl (z, ap₂ ◌∷◌ (sym la ∙ ==→eq (tolower a) (tolower b) eq ∙ lb) e)
          | inr (nz, le, ne) ↦ inr (nz, omega arith, λ e. ne (cc))
        ])
        | inr ne ↦ rw ne (
            inr (
              λ z. absurd (omega arith),
              omega arith,
              λ e. let eq : lower a ≡ lower b = cc in ground arith,
            ))
      ])

length-lower : (s : List ℕ) → length (map lower s) ≡ length s
length-lower [] = refl
length-lower (c ∷ s) = ap suc (length-lower s)

same_length : (s1 s2 : List ℕ) → map lower s1 ≡ map lower s2 → length s1 ≡ length s2
same_length s1 s2 e = sym (length-lower s1) ∙ ap length e ∙ length-lower s2

-- Two strings of bytes, shorter than an `int` can say, compare as 0 exactly where they are the same
-- string in lower case.
pub strcasecmp-lower :
    (s1 s2 : List ℕ)
    → All IsByte s1
    → All IsByte s2
    → length s2 < 2 ^ 31
    → (strcasecmp s1 s2 ≡ 0) ↔ (map lower s1 ≡ map lower s2)
unfolding strcasecmp Decides
strcasecmp-lower s1 s2 h k small = elim (Bool-cases (length s1 == length s2)) [
  | inl same ↦ rw same (elim (loop-Decides s1 s2 h k (==→eq (length s1) (length s2) same)) [
    | inl (z, e) ↦ ((λ zero. e), (λ eq. rw z refl))
    | inr (nz, le, ne) ↦ ((λ zero. absurd (nz (omega arith))), (λ eq. absurd (ne eq)))
  ])
  | inr differ ↦ rw differ (
    (λ zero. absurd (omega arith)),
    (λ eq. let len : length s1 ≡ length s2 = same_length s1 s2 eq in absurd (ground arith)),
  )
]
