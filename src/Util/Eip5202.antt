-- ===== src/Util/Eip5202.antt =====
-- boa/util/eip5202.py: blueprint contracts (ERC-5202) and their CREATE2 addresses.
pub mod Roundtrip
use titanoboa.Prelude.{
  ℕ, ◌+◌, ◌/◌, ◌^◌, String, not, Option, none, some, [], ◌∷◌, ◌++◌, arith, ltb, if◌then◌else◌,
  length, get_elem?, take, drop, ◌==◌, nat_eq, string_eq, bytes_eq,
}
use titanoboa.Prelude.Bytes.{Bytes, slice, from_bytes, to_bytes_be}
use titanoboa.Prelude.Result.{Result, ok, err, ◌>>=◌, ◌>>◌, guard, or_raise}
use Prim.Native.Nat.{bit_and}

pub data BlueprintError : Type 0 where
  not_a_blueprint reserved_bits empty_initcode bad_salt index_error overflow_error : BlueprintError

abbrev pub default_blueprint_preamble : Bytes
default_blueprint_preamble = 0xFE ∷ 0x71 ∷ 0x00 ∷ []

abbrev preamble_or_default : Option Bytes → Bytes
preamble_or_default none = default_blueprint_preamble
preamble_or_default (some p) = p

-- `n.to_bytes(2, "big")`
two_bytes : ℕ → Result BlueprintError Bytes
two_bytes n = if ltb n (2 ^ 16) then ok (to_bytes_be 2 n) else err overflow_error

unfoldable pub generate_blueprint_bytecode : Bytes → Option Bytes → Result BlueprintError Bytes
unfolding two_bytes
generate_blueprint_bytecode contract_bytecode blueprint_preamble = do
  let blueprint_bytecode = preamble_or_default blueprint_preamble ++ contract_bytecode
  len_bytes ← two_bytes (length blueprint_bytecode)
  let deploy_bytecode =
      (0x61 ∷ []) ++ len_bytes ++ 0x3d ∷ 0x81 ∷ 0x60 ∷ 0x0a ∷ 0x3d ∷ 0x39 ∷ 0xf3 ∷ []
  ok (deploy_bytecode ++ blueprint_bytecode)

-- version, preamble data and initcode
abbrev pub Blueprint : Type 0
Blueprint = ℕ × Option Bytes × Bytes

unfoldable pub parse_erc5202 : Bytes → Result BlueprintError Blueprint
parse_erc5202 b = do
  guard (take 2 b == 0xFE ∷ 0x71 ∷ []) not_a_blueprint
  flags ← or_raise (get_elem? b 2) index_error
  let erc_version = bit_and flags 0b11111100 / 2 ^ 2
  let n_length_bytes = bit_and flags 0b11
  guard (not (n_length_bytes == 0b11)) reserved_bits
  let data_length = from_bytes (slice b 3 (3 + n_length_bytes))
  let data_start = 3 + n_length_bytes
  let preamble_data =
      if n_length_bytes == 0 then none else some (slice b data_start (data_start + data_length))
  let initcode = drop (3 + n_length_bytes + data_length) b
  guard (not (length initcode == 0)) empty_initcode
  ok (erc_version, preamble_data, initcode)

module _ (keccak256 to_canonical_address : Bytes → Bytes)
    (to_checksum_address : Bytes → String) where
  unfoldable pub get_create2_address : Bytes → Bytes → Bytes → Result BlueprintError String
  get_create2_address blueprint_bytecode deployer_address salt = do
    parsed ← parse_erc5202 blueprint_bytecode
    let initcode_hash = keccak256 parsed.2
    let addr = to_canonical_address deployer_address
    guard (length salt == 32) bad_salt
    let create2_hash = keccak256 ((0xFF ∷ []) ++ addr ++ salt ++ initcode_hash)
    ok (to_checksum_address (drop 12 create2_hash))
