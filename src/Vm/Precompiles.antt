-- ===== src/Vm/Precompiles.antt =====
-- The registry of precompiles of boa/vm/py_evm.py. Its keys are Python objects: an `Address` is a
-- `str`, which equals no `bytes`.
pub mod Registry
use titanoboa.Prelude.{
  String, ◌≡◌, ap, ◌↔◌, Bool, true, false, ◌&&◌, not, arith, if◌then◌else◌, Eq, ◌==◌, nat_eq,
  string_eq, bytes_eq, pair_eq,
}
use titanoboa.Prelude.Dict.{Dict, contains, insert, erase}
use titanoboa.Prelude.Result.{Result, ok, err}
use titanoboa.Prelude.Bytes.{Bytes}

pub data PyKey : Type 0 where
  text : String → PyKey
  bytes_key : Bytes → PyKey

abbrev pub key_beq : PyKey → PyKey → Bool
key_beq (text a) (text b) = a == b
key_beq (bytes_key a) (bytes_key b) = a == b
key_beq _ _ = false

pub key_beq_iff : (a b : PyKey) → (key_beq a b ≡ true) ↔ (a ≡ b)
key_beq_iff (text a) (text b) =
    (λ h. ap text ((string_eq.beq_iff a b).0 h), λ h. (string_eq.beq_iff a b).1 (cc h))
key_beq_iff (bytes_key a) (bytes_key b) =
    (λ h. ap bytes_key ((bytes_eq.beq_iff a b).0 h), λ h. (bytes_eq.beq_iff a b).1 (cc h))
key_beq_iff (text a) (bytes_key b) = (λ h. cc h, λ h. cc h)
key_beq_iff (bytes_key a) (text b) = (λ h. cc h, λ h. cc h)

instance abbrev pub py_key_eq : Eq PyKey
py_key_eq = record { beq = key_beq; beq_iff = key_beq_iff }

-- `Address`: the checksum address, with the canonical one beside it
pub record Address : Type 0 where
  pub checksum : String
  pub canonical_address : Bytes

pub data RegistryError : Type 0 where
  already_registered not_registered : RegistryError

-- the answer or the exception, and the global as the call leaves it
abbrev pub Outcome {ℓ} : Type ℓ → Type ℓ
Outcome Fn = Result RegistryError (Unit {0}) × Dict PyKey Fn

module _ {ℓ} {Fn : Type ℓ} where
  pub register_raw_precompile : Address → Fn → Bool → Dict PyKey Fn → Outcome Fn
  register_raw_precompile address fn force precompiles =
      if contains (text address.checksum) precompiles && not force
      then (err already_registered, precompiles)
      else (ok tt, insert (bytes_key address.canonical_address) fn precompiles)

  pub deregister_raw_precompile : Address → Bool → Dict PyKey Fn → Outcome Fn
  deregister_raw_precompile address force precompiles =
      let key = bytes_key address.canonical_address in
      if not (contains key precompiles) && not force
      then (err not_registered, precompiles)
      else (ok tt, erase key precompiles)
