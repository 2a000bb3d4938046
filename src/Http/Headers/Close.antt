-- ===== src/Http/Headers/Close.antt =====
-- "Connection: close" and the flags of the request.
use libyimmo.Base.{ℕ, zero, suc, ◌/◌, ◌≤◌, ◌≡◌, refl, bit_and, true, false, List, arith}
use libyimmo.Base.{◌==◌}
use Prim.Native.Nat.{bit_and-bitwise}
use libyimmo.Base.Bits.{bit_and_digit, bit_and_power}
use libyimmo.Http.Exchange.{Request, has_flag, flag_version_1_1, flag_request_close, flag_chunked}
use libyimmo.Http.Headers.{Strtol, is_text, text_close, hid_connection, field_of}

-- A conjunction is at most its mask.
bit_and_bounded : (k a m : ℕ) → a ≤ k → bit_and a m ≤ m
bit_and_bounded zero zero m h = omega (arith, bit_and-bitwise 0 m)
bit_and_bounded zero (suc a) m h = absurd (omega arith)
bit_and_bounded (suc k) zero m h = omega (arith, bit_and-bitwise 0 m)
bit_and_bounded (suc k) (suc a) m h =
    omega (arith, bit_and_digit (suc a) m, bit_and_bounded k (suc a / 2) (m / 2) (omega arith))

cleared : (flags : ℕ) → bit_and (bit_and flags flag_request_close) flag_chunked ≡ 0
cleared flags =
    bit_and_power 16 (bit_and flags flag_request_close)
      (omega (arith, bit_and_bounded flags flags flag_request_close (omega arith)))

-- In a request of HTTP/1.1, the field "Connection: close", in any case, clears the flag that the
-- body is chunked.
pub field_of-close :
    (strtol : List ℕ → Strtol) (text value : List ℕ) (r : Request)
    → has_flag r.flags flag_version_1_1 ≡ true
    → is_text value text_close ≡ true
    → has_flag (field_of strtol hid_connection text value r).flags flag_chunked ≡ false
unfolding field_of
field_of-close strtol text value r version close =
    let none : (bit_and (bit_and r.flags flag_request_close) flag_chunked == 0) ≡ true =
      ground (arith, cleared r.flags) in
    rw version (rw close (rw none refl))
