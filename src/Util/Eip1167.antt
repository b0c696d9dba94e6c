-- ===== src/Util/Eip1167.antt =====
-- boa/util/eip1167.py: the bytecode of a minimal proxy.
pub mod Proxy
use titanoboa.Prelude.{
  Bool, false, ◌&&◌, not, [], ◌∷◌, arith, nat_beq, if◌then◌else◌, length, nat_eq, string_eq,
  bytes_eq,
}
use titanoboa.Prelude.Bytes.{remove_prefix, ends_with, remove_suffix, starts_with, Bytes}
use titanoboa.Prelude.Result.{Result, ok, ◌>>=◌, ◌>>◌, guard}

pub data AssertionError : Type 0 where
  assertion : AssertionError

abbrev pub eip1167_prefix : Bytes
eip1167_prefix = 0x36 ∷ 0x3d ∷ 0x3d ∷ 0x37 ∷ 0x3d ∷ 0x3d ∷ 0x3d ∷ 0x36 ∷ 0x3d ∷ 0x73 ∷ []

abbrev pub eip1167_suffix : Bytes
eip1167_suffix =
    0x5a ∷ 0xf4 ∷ 0x3d ∷ 0x82 ∷ 0x80 ∷ 0x3e ∷ 0x90 ∷ 0x3d ∷ 0x91 ∷ 0x60 ∷ 0x2b ∷ 0x57 ∷ 0xfd ∷ 0x5b
    ∷ 0xf3 ∷ []

unfoldable pub is_eip1167_contract : Bytes → Bool
is_eip1167_contract bytecode =
    if not (nat_beq (length bytecode) 45)
    then false
    else starts_with bytecode eip1167_prefix && ends_with bytecode eip1167_suffix

unfoldable pub extract_eip1167_address : Bytes → Result AssertionError Bytes
extract_eip1167_address bytecode = do
  guard (is_eip1167_contract bytecode) assertion
  let ret = remove_suffix (remove_prefix bytecode eip1167_prefix) eip1167_suffix
  guard (nat_beq (length ret) 20) assertion
  ok ret
