-- ===== src/Util/Eip5202/Roundtrip.antt =====
-- boa/util/eip5202.py: parsing inverts the ERC-5202 encoding, and what is generated deploys it.
use titanoboa.Prelude.{
  drop_left, drop-drop, take_left, drop_three, passes_below_lem, passes_below, ℕ, zero, suc, ◌+◌,
  ◌*◌, ◌/◌, ◌^◌, ◌≡◌, refl, true, ◌&&◌, Option, none, some, ◌∷◌, ◌++◌, nat_beq, length, nat_eq,
  string_eq, bytes_eq, ◌-◌, ◌≤◌, ◌<◌, String, sym, ap, ◌∙◌, ◌≢◌, ◌↔◌, false, [], arith, ltb,
  if◌then◌else◌, lt→ltb, nat_beq→eq, take, drop, pair_eq,
}
use titanoboa.Prelude.Bytes.{Bytes, to_bytes_be, slice, from_bytes}
use Prim.Native.Nat.{bit_and}
use titanoboa.Prelude.Codec.{from_bytes-to_bytes_be, length-to_bytes_be}
use titanoboa.Util.Eip5202.{
  bad_salt, overflow_error, get_create2_address, generate_blueprint_bytecode,
  default_blueprint_preamble, parse_erc5202,
}
use titanoboa.Prelude.Result.{ok, err, ◌>>◌, guard}

-- The encoding of ERC-5202: the magic, a byte of version and length bits, the length of the data,
-- the data and the initcode.
abbrev pub encode : ℕ → ℕ → Bytes → Bytes → Bytes
encode version n contents initcode =
    0xFE ∷ 0x71 ∷ (version * 4 + n) ∷ to_bytes_be n (length contents) ++ (contents ++ initcode)

abbrev pub data_of : ℕ → Bytes → Option Bytes
data_of zero contents = none
data_of (suc n) contents = some contents

flags_table :
    passes_below
      (λ v.
        passes_below
          (λ n.
            nat_beq (bit_and (v * 4 + n) 0b11111100 / 2 ^ 2) v
            && nat_beq (bit_and (v * 4 + n) 0b11) n)
          3)
      64
    ≡ true
unfolding passes_below
flags_table = refl

flags :
    (v n : ℕ)
    → v < 64
    → n < 3
    → (bit_and (v * 4 + n) 0b11111100 / 2 ^ 2 ≡ v) × (bit_and (v * 4 + n) 0b11 ≡ n)
flags v n hv hn =
    let row = passes_below_lem _ 64 v hv flags_table in
    let cell = passes_below_lem _ 3 n hn row in
    (nat_beq→eq _ v (ground arith), nat_beq→eq _ n (ground arith))

-- what `generate_blueprint_bytecode` lays out around a blueprint that its two bytes can count
abbrev generated : Bytes → Bytes
generated blueprint =
    0x61 ∷ to_bytes_be 2 (length blueprint)
    ++ 0x3d ∷ 0x81 ∷ 0x60 ∷ 0x0a ∷ 0x3d ∷ 0x39 ∷ 0xf3 ∷ blueprint

-- the four reads of the parser from an encoding with any byte of flags
module _ (f n : ℕ) (contents initcode : Bytes) where
  abbrev raw : Bytes
  raw = 0xFE ∷ 0x71 ∷ f ∷ to_bytes_be n (length contents) ++ (contents ++ initcode)

  abbrev size : ℕ
  size = length contents

  read_length : size < 256 ^ n → from_bytes (slice raw 3 (3 + n)) ≡ size
  read_length h =
      let e : 3 + n - 3 ≡ length (to_bytes_be n size) = omega (arith, length-to_bytes_be n size) in
      ap from_bytes (take_left (3 + n - 3) (to_bytes_be n size) (contents ++ initcode) e)
      ∙ from_bytes-to_bytes_be n size h

  drop_head : drop (3 + n) raw ≡ contents ++ initcode
  drop_head =
      drop_three n (3 + n) 0xFE 0x71 f _ refl
      ∙ drop_left n (to_bytes_be n size) (contents ++ initcode) (sym (length-to_bytes_be n size))

  read_data : slice raw (3 + n) (3 + n + size) ≡ contents
  read_data =
      ap (take (3 + n + size - (3 + n))) drop_head
      ∙ take_left (3 + n + size - (3 + n)) contents initcode (omega arith)

  read_initcode : drop (3 + n + size) raw ≡ initcode
  read_initcode =
      sym (drop-drop size (3 + n) raw)
      ∙ ap (drop size) drop_head
      ∙ drop_left size contents initcode refl

-- The data that the parser returns, by the length bits.
data_of_lem :
    (n : ℕ) (contents : Bytes) → (if nat_beq n 0 then none else some contents) ≡ data_of n contents
data_of_lem zero contents = refl
data_of_lem (suc n) contents = ground arith

-- Parsing an ERC-5202 encoding gives its version, its data and its initcode, for each of the
-- three lengths that the format has; no length byte means no data.
pub parse-encode :
    (v n : ℕ) (contents initcode : Bytes)
    → v < 64
    → n < 3
    → length contents < 256 ^ n
    → 0 < length initcode
    → parse_erc5202 (encode v n contents initcode) ≡ ok (v, data_of n contents, initcode)
unfolding parse_erc5202
parse-encode v n contents initcode hv hn hl hi =
    let (fv, fn) = flags v n hv hn in
    let f = v * 4 + n in
    let three : nat_beq n 3 ≡ false = ground arith in
    let full : nat_beq (length initcode) 0 ≡ false = ground arith in
    rw (
      fn,
      fv,
      three,
      read_length f n contents initcode hl,
      read_data f n contents initcode,
      read_initcode f n contents initcode,
      full,
      data_of_lem n contents,
    )

length-blueprint : (code : Bytes) → length (default_blueprint_preamble ++ code) ≡ length code + 3
length-blueprint code = omega arith

-- For code that is not empty and that two bytes can count with its preamble, the bytecode is
-- generated, its deployed part stands from byte 10 on, the two bytes behind the PUSH2 are that
-- part's length, and it parses to version 0, no data and the code.
pub generate_roundtrip :
    (code : Bytes)
    → 0 < length code
    → length code + 3 < 2 ^ 16
    → (out : Bytes) × (generate_blueprint_bytecode code none ≡ ok out)
      × (from_bytes (slice out 1 3) ≡ length (drop 10 out))
      × (parse_erc5202 (drop 10 out) ≡ ok (0, none, code))
unfolding generate_blueprint_bytecode to_bytes_be
generate_roundtrip code pos fits =
    let l = length code + 3 in
    let blueprint = default_blueprint_preamble ++ code in
    let e : length blueprint ≡ l = length-blueprint code in
    let t : ltb (length blueprint) (2 ^ 16) ≡ true = lt→ltb _ _ (omega arith) in
    let out = generated blueprint in
    (
      out,
      rw t,
      from_bytes-to_bytes_be 2 (length blueprint) (omega arith),
      parse-encode 0 0 [] code (omega arith) (omega arith) (omega arith) pos,
    )

pub generate_overflow :
    (code : Bytes)
    → 2 ^ 16 ≤ length code + 3
    → generate_blueprint_bytecode code none ≡ err overflow_error
unfolding generate_blueprint_bytecode
generate_overflow code big =
    let t : ltb (length (default_blueprint_preamble ++ code)) (2 ^ 16) ≡ false = ground arith in
    rw t

salt_test :
    (n : ℕ) (address : String)
    → ((guard (nat_beq n 32) bad_salt >> ok address) ≡ err bad_salt) ↔ (n ≢ 32)
salt_test n address = (λ h e. ground arith, λ h. ground arith)

-- A CREATE2 address depends on the initcode alone: two encodings that differ in the version or
-- the data give one address, and the salt is refused exactly if it has not 32 bytes.
pub create2_initcode :
    (keccak256 canonical : Bytes → Bytes) (checksum : Bytes → String) (v n v' n' : ℕ)
    (contents contents' initcode deployer salt : Bytes)
    → v < 64
    → n < 3
    → length contents < 256 ^ n
    → v' < 64
    → n' < 3
    → length contents' < 256 ^ n'
    → 0 < length initcode
    → let address = get_create2_address keccak256 canonical checksum in
      (address (encode v n contents initcode) deployer salt
        ≡ address (encode v' n' contents' initcode) deployer salt)
      × ((address (encode v n contents initcode) deployer salt ≡ err bad_salt) ↔ (length salt ≢ 32))
unfolding get_create2_address
create2_initcode keccak256 canonical checksum v n v' n' contents contents' initcode deployer salt a
      b c a' b' c' p =
    rw
      (parse-encode v n contents initcode a b c p, parse-encode v' n' contents' initcode a' b' c' p)
      (refl, salt_test (length salt) _)
