-- ===== src/Mqtt/Reader.antt =====
-- The macros of src/protocol/mqtt/ymo_mqtt_parse.c that take values from the message buffer and move
-- the pointer on. They do not test how much of the block is left.
use libyimmo.Base.{
  ℕ, ◌+◌, ◌*◌, ◌%◌, ◌^◌, Bool, ◌&&◌, Option, none, some, List, [], ◌∷◌, length, take, drop, leb,
  ◌==◌, if◌then◌else◌, Status,
}

-- What the process gives: whether `char` is signed, and whether `YMO_ALLOC(n)` finds memory.
pub record Platform : Type 0 where
  pub signed_char : Bool
  pub alloc : ℕ → Bool

-- A value and what is behind it in the block; an error code; or a read outside of the block, or a
-- write outside of the array that the bytes are copied to.
pub data Reading (A : Type 0) : Type 0 where
  got : A → List ℕ → Reading A
  refused : Status → List ℕ → Reading A
  outside : Reading A

abbrev pub Reader : Type 0 → Type 0
Reader A = List ℕ → Reading A

module _ {A B : Type 0} where
  abbrev pub and_then : Reading A → (A → Reader B) → Reading B
  and_then (got a rest) k = k a rest
  and_then (refused e rest) k = refused e rest
  and_then outside k = outside

  infixl 5 ◌>>=◌
  abbrev pub ◌>>=◌ : Reader A → (A → Reader B) → Reader B
  m >>= k = λ src. and_then (m src) k

abbrev pub pure : {A : Type 0} → A → Reader A
pure a = λ src. got a src

abbrev pub refuse : {A : Type 0} → Status → Reader A
refuse e = λ src. refused e src

-- PARSE_CONSUME_UINT8
abbrev pub uint8 : Reader ℕ
uint8 [] = outside
uint8 (b ∷ src) = got b src

-- `(uint16_t)(*src++)`: a signed `char` above 0x7F is negative.
abbrev pub char16 : Platform → ℕ → ℕ
char16 p b = if p.signed_char && leb 0x80 b then b + 0xFF00 else b

-- PARSE_CONSUME_UINT16
unfoldable pub uint16 : Platform → Reader ℕ
uint16 p [] = outside
uint16 p (hi ∷ []) = outside
uint16 p (hi ∷ lo ∷ src) = got ((char16 p hi * 2 ^ 8 % 2 ^ 16 + char16 p lo) % 2 ^ 16) src

-- PARSE_CONSUME_STRVAL
unfoldable pub strval : ℕ → Reader (List ℕ)
strval n src = if leb n (length src) then got (take n src) (drop n src) else outside

-- The same, to an array of `size` bytes.
unfoldable pub array : ℕ → ℕ → Reader (List ℕ)
array size n src = if leb n size then strval n src else outside

-- PARSE_STRDUP. The result of the allocation is not tested.
unfoldable pub strdup_to : Platform → ℕ → Reader (Option (List ℕ))
strdup_to p n src =
    if p.alloc n
    then (strval n >>= λ val. pure (some val)) src
    else if n == 0
    then got none src
    else outside

unfoldable pub strdup : Platform → Reader (Option (List ℕ))
strdup p = do n ← uint16 p; strdup_to p n
