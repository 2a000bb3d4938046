-- ===== src/Util/Case/Tests.antt =====
-- Runs of the letter case, and its theorems at concrete strings.
use libyimmo.Base.{ℕ, ◌≡◌, refl, List, [], ◌∷◌}
use libyimmo.Util.Case.{tolower, strcasecmp}

-- "Close", "close" and "cloSed"
abbrev close_title : List ℕ
close_title = 0x43 ∷ 0x6C ∷ 0x6F ∷ 0x73 ∷ 0x65 ∷ []

abbrev close_small : List ℕ
close_small = 0x63 ∷ 0x6C ∷ 0x6F ∷ 0x73 ∷ 0x65 ∷ []

run_same : strcasecmp close_title close_small ≡ 0
unfolding strcasecmp
run_same = refl

-- The second letter from the end differs: two are left.
run_differ : strcasecmp close_title (0x63 ∷ 0x6C ∷ 0x6F ∷ 0x74 ∷ 0x65 ∷ []) ≡ 2
unfolding strcasecmp
run_differ = refl

-- The two bytes 0xC3 and 0xA9 of an accented letter: the first is moved.
run_accent : tolower 0xC3 ≡ 0xE3
run_accent = refl
