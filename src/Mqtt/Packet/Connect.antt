-- ===== src/Mqtt/Packet/Connect.antt =====
-- The variable header and the payload of a CONNECT packet, as MQTT 3.1.1, 3.1, writes them, and what
-- `mqtt_parse_varhdr` and `mqtt_parse_payload` of src/protocol/mqtt/ymo_mqtt_parse.c make of them.
use libyimmo.Base.{
  ℕ, ◌*◌, ◌/◌, ◌%◌, ◌^◌, ◌≤◌, ◌<◌, ◌⊎◌, bit_and, true, false, Bool-cases, inl, inr, Option, some,
  List, [], ◌∷◌, ◌++◌, length, drop, length-append, take-append, drop-append, leb, ◌==◌,
  if◌then◌else◌, ◌≡◌, refl, ap, ap₂, arith,
}
use libyimmo.Mqtt.Session.{Session}
use libyimmo.Mqtt.Reader.{Platform, got, char16, uint16, strval, array, strdup, strdup_to}
use libyimmo.Mqtt.Packet.{mqtt, connect_varhdr, connect_field, connect_payload}

-- What a client says.
pub record Connect : Type 0 where
  pub flags : ℕ
  pub keep_alive : ℕ
  pub cid : List ℕ
  pub topic : List ℕ
  pub message : List ℕ
  pub user : List ℕ
  pub secret : List ℕ

abbrev pub number : ℕ → List ℕ → List ℕ
number n rest = n / 256 ∷ n % 256 ∷ rest

abbrev pub string : List ℕ → List ℕ → List ℕ
string v rest = number (length v) (v ++ rest)

abbrev pub optional : ℕ → ℕ → List ℕ → List ℕ → List ℕ
optional flags flag v rest = if bit_and flags flag == 0 then rest else string v rest

abbrev pub after_user : Connect → List ℕ
after_user c = optional c.flags 0x40 c.secret []

abbrev pub after_message : Connect → List ℕ
after_message c = optional c.flags 0x80 c.user (after_user c)

abbrev pub after_topic : Connect → List ℕ
after_topic c = optional c.flags 0x04 c.message (after_message c)

-- The fields that the flags name.
abbrev pub fields : Connect → List ℕ
fields c = optional c.flags 0x04 c.topic (after_topic c)

-- Version 3.1.1
abbrev pub connect_body : Connect → List ℕ
connect_body c =
    0x00
    ∷ 0x04
    ∷ 0x4D
    ∷ 0x51
    ∷ 0x54
    ∷ 0x54
    ∷ 0x04
    ∷ c.flags
    ∷ number c.keep_alive (string c.cid (fields c))

abbrev pub field_of : ℕ → ℕ → List ℕ → Option (List ℕ) → Option (List ℕ)
field_of flags flag v old = if bit_and flags flag == 0 then old else some v

-- With what the variable header says.
abbrev pub greeted : Connect → Session → Session
greeted c s = record s { proto_id = 4; connect_flags = c.flags; ka_timer = c.keep_alive }

-- With the fields of the payload, those that the flags name.
abbrev pub identified : Connect → Session → Session
identified c t = record t {
  client_id = c.cid ++ drop (length c.cid) t.client_id;
  will_topic = field_of c.flags 0x04 c.topic t.will_topic;
  will_msg = field_of c.flags 0x04 c.message t.will_msg;
  username = field_of c.flags 0x80 c.user t.username;
  password = field_of c.flags 0x40 c.secret t.password;
}

module _ (p : Platform) where
  -- A number of 16 bits that the parser reads as it is: below 128 in its low byte, unless `char`
  -- is unsigned.
  pub record IsReadable (n : ℕ) : Type 0 where
    pub bounded : n < 2 ^ 16
    pub low : (p.signed_char ≡ false) ⊎ (n % 256 < 128)

  pub record IsString (v : List ℕ) : Type 0 where
    pub size : IsReadable (length v)
    pub memory : p.alloc (length v) ≡ true

  high_byte : (b : ℕ) → b < 256 → char16 p b * 2 ^ 8 % 2 ^ 16 ≡ b * 256
  high_byte b h = ground arith

  low_byte : (b : ℕ) → (p.signed_char ≡ false) ⊎ (b < 128) → char16 p b ≡ b
  low_byte b (inl e) = rw e refl
  low_byte b (inr lt) = ground arith

  pub uint16-number : (n : ℕ) (rest : List ℕ) → IsReadable n → uint16 p (number n rest) ≡ got n rest
  unfolding uint16
  uint16-number n rest h =
      let bounded : n < 2 ^ 16 = h.bounded in
      ap (λ t. got t rest)
        (omega (arith, high_byte (n / 256) (omega arith), low_byte (n % 256) h.low))

  pub strval-append : (v rest : List ℕ) → strval (length v) (v ++ rest) ≡ got v rest
  unfolding strval
  strval-append v rest =
      let fits : leb (length v) (length (v ++ rest)) ≡ true =
        ground (arith, length-append v rest) in
      rw fits (ap₂ got (take-append v rest (length v) refl) (drop-append v rest (length v) refl))

  pub array-append :
      (size : ℕ) (v rest : List ℕ)
      → length v ≤ size
      → array size (length v) (v ++ rest) ≡ got v rest
  unfolding array
  array-append size v rest h =
      let fits : leb (length v) size ≡ true = ground arith in rw fits (strval-append v rest)

  strdup-string : (v rest : List ℕ) → IsString v → strdup p (string v rest) ≡ got (some v) rest
  unfolding strdup strdup_to
  strdup-string v rest h =
      rw (uint16-number (length v) (v ++ rest) h.size, h.memory, strval-append v rest) refl

  connect_field-optional :
      (flags flag : ℕ) (v rest : List ℕ) (old : Option (List ℕ))
      → IsString v
      → connect_field p flags flag old (optional flags flag v rest)
        ≡ got (field_of flags flag v old) rest
  unfolding connect_field
  connect_field-optional flags flag v rest old h = elim (Bool-cases (bit_and flags flag == 0)) [
    | inl e ↦ rw e refl
    | inr e ↦ rw e (strdup-string v rest h)
  ]

  pub record IsConnect (c : Connect) : Type 0 where
    pub keep_alive : IsReadable c.keep_alive
    pub cid : IsReadable (length c.cid)
    pub cid_fits : length c.cid ≤ 24
    pub topic : IsString c.topic
    pub message : IsString c.message
    pub user : IsString c.user
    pub secret : IsString c.secret

  module _ (c : Connect) (h : IsConnect c) where
    name_read : (rest : List ℕ) → array 12 4 (mqtt ++ rest) ≡ got mqtt rest
    name_read rest = array-append 12 mqtt rest (omega arith)

    four : (rest : List ℕ) → uint16 p (0 ∷ 4 ∷ rest) ≡ got 4 rest
    four rest = uint16-number 4 rest (record { bounded = omega arith; low = inr (omega arith) })

    pub varhdr-connect_body :
        (s : Session)
        → connect_varhdr p s (connect_body c) ≡ got (greeted c s) (string c.cid (fields c))
    unfolding connect_varhdr
    varhdr-connect_body s =
        let rest = 0x04 ∷ c.flags ∷ number c.keep_alive (string c.cid (fields c)) in
        rw
          (
            four (mqtt ++ rest),
            name_read rest,
            uint16-number c.keep_alive (string c.cid (fields c)) h.keep_alive,
          )
          refl

    pub payload-fields :
        (t : Session)
        → t.connect_flags ≡ c.flags
        → connect_payload p t (string c.cid (fields c)) ≡ got (identified c t) []
    unfolding connect_payload
    payload-fields t e =
        rw
          (
            e,
            uint16-number (length c.cid) (c.cid ++ fields c) h.cid,
            array-append 24 c.cid (fields c) h.cid_fits,
            connect_field-optional c.flags 0x04 c.topic (after_topic c) t.will_topic h.topic,
            connect_field-optional c.flags 0x04 c.message (after_message c) t.will_msg h.message,
            connect_field-optional c.flags 0x80 c.user (after_user c) t.username h.user,
            connect_field-optional c.flags 0x40 c.secret [] t.password h.secret,
          )
          refl
