-- ===== src/Util/Base64/Tests.antt =====
-- Runs of the encoder, and its theorems at concrete strings.
use libyimmo.Base.{ℕ, ◌%◌, ◌≤◌, ◌≡◌, ◌≢◌, ◌↔◌, refl, List, [], ◌∷◌, length, arith}
use libyimmo.Util.Base64.{encoded, base64_encode, base64_len}
use libyimmo.Util.Base64.RoundTrip.{decoded, decoded-base64_encode, base64_encode-fits}

-- "foobar" of RFC 4648, 10
abbrev foobar : List ℕ
foobar = 0x66 ∷ 0x6F ∷ 0x6F ∷ 0x62 ∷ 0x61 ∷ 0x72 ∷ []

encode_foobar :
    base64_encode foobar ≡ 0x5A ∷ 0x6D ∷ 0x39 ∷ 0x76 ∷ 0x59 ∷ 0x6D ∷ 0x46 ∷ 0x79 ∷ 0 ∷ []
unfolding base64_encode encoded
encode_foobar = refl

-- "f"
encode_f : base64_encode (0x66 ∷ []) ≡ 0x5A ∷ 0x67 ∷ 0x3D ∷ 0x3D ∷ 0 ∷ []
unfolding base64_encode encoded
encode_f = refl

decoded-base64_encode_example : decoded (base64_encode (0x66 ∷ 0x6F ∷ [])) ≡ 0x66 ∷ 0x6F ∷ []
decoded-base64_encode_example =
    decoded-base64_encode (0x66 ∷ 0x6F ∷ []) (omega arith, (omega arith, tt))

base64_encode-fits_example :
    (length (base64_encode foobar) ≤ base64_len (length foobar)) ↔ (length foobar % 3 ≢ 1)
base64_encode-fits_example = base64_encode-fits foobar (omega arith)
