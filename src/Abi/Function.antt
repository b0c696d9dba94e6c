-- ===== src/Abi/Function.antt =====
-- `ABIFunction` and `ABIOverload` of boa/contracts/abi/abi_contract.py. The encoder of
-- boa/util/abi.py, which is eth-stdlib's, is the record `Encoder`.
pub mod Kwargs
pub mod Overload
use titanoboa.Prelude.{
  ℕ, ◌+◌, String, Bool, true, false, ◌&&◌, not, Option, none, some, List, [], ◌∷◌, ◌++◌, map, arith,
  leb, nat_beq, if◌then◌else◌, is_some, length, drop, ◌==◌, nat_eq, string_eq, bytes_eq, pair_eq,
}
use titanoboa.Prelude.Dict.{Dict, values, lookup, erase}
use titanoboa.Prelude.Result.{Result, ok, err, ◌>>=◌, ◌>>◌, guard, or_raise}
use titanoboa.Prelude.Bytes.{Bytes}

pub record Encoder : Type 1 where
  pub Value : Type 0
  -- `is_abi_encodable`, `abi_encode` and `method_id`
  pub is_abi_encodable : String → Value → Bool
  pub abi_encode : String → List Value → Result (Unit {0}) Bytes
  pub method_id : String → Bytes

pub data AbiError : Type 0 where
  type_error assertion abi_error no_match ambiguous : AbiError

-- an entry of `inputs`: its name, and its schema by `_abi_from_json`
pub record Input : Type 0 where
  pub name : String
  pub schema : String

pub record AbiFunction : Type 0 where
  -- none for a constructor
  pub name : Option String
  pub inputs : List Input
  -- `signature`, and `full_signature` of a function with a name
  pub signature : String
  pub full_signature : String

abbrev pub argument_types : AbiFunction → List String
argument_types f = map (λ (i : Input). i.schema) f.inputs

abbrev pub argument_count : AbiFunction → ℕ
argument_count f = length f.inputs

-- `self.name`, that of the first function
abbrev pub named : List AbiFunction → Bool
named [] = false
named (f ∷ functions) = is_some f.name

module _ (encoder : Encoder) where
  open encoder use {Value, is_abi_encodable, abi_encode, method_id}

  -- `[kwargs.pop(i["name"]) for i in kwarg_inputs]`
  unfoldable pub pops : List Input → Dict String Value → Result AbiError (List Value)
  pops [] kwargs = ok []
  pops (i ∷ inputs) kwargs = do
    v ← or_raise (lookup i.name kwargs) type_error
    vs ← pops inputs (erase i.name kwargs)
    ok (v ∷ vs)

  unfoldable pub merge_kwargs :
      AbiFunction → List Value → Dict String Value → Result AbiError (List Value)
  merge_kwargs f args kwargs = do
    guard (nat_beq (length kwargs + length args) (argument_count f)) type_error
    rest ← pops (drop (length args) f.inputs) kwargs
    ok (args ++ rest)

  -- `all(is_abi_encodable(...) for ... in zip(...))`
  unfoldable pub all_encodable : List String → List Value → Bool
  all_encodable (t ∷ types) (v ∷ values) = is_abi_encodable t v && all_encodable types values
  all_encodable _ _ = true

  -- a keyword argument that is missing raises, as in `merge_kwargs`
  unfoldable pub is_encodable : AbiFunction → List Value → Dict String Value → Result AbiError Bool
  is_encodable f args kwargs =
      if not (nat_beq (length kwargs + length args) (argument_count f))
      then ok false
      else merge_kwargs f args kwargs >>= λ parsed_args.
          ok (all_encodable (argument_types f) parsed_args)

  encoded : Result (Unit {0}) Bytes → Result AbiError Bytes
  encoded (ok b) = ok b
  encoded (err _) = err abi_error

  pub with_method_id : AbiFunction → Bytes → Bytes
  with_method_id f encoded_args = elim f.name [
    | none ↦ encoded_args
    | some name ↦ method_id f.full_signature ++ encoded_args
  ]

  pub prepare_calldata : AbiFunction → List Value → Dict String Value → Result AbiError Bytes
  unfolding encoded
  prepare_calldata f args kwargs = do
    abi_args ← merge_kwargs f args kwargs
    encoded_args ← encoded (abi_encode f.signature abi_args)
    ok (with_method_id f encoded_args)

  -- `[f for f in self.functions if f.is_encodable(*args, **kwargs)]`
  pub encodable_of :
      List AbiFunction → List Value → Dict String Value → Result AbiError (List AbiFunction)
  encodable_of [] args kwargs = ok []
  encodable_of (f ∷ functions) args kwargs = do
    fits ← is_encodable f args kwargs
    fs ← encodable_of functions args kwargs
    ok (if fits then f ∷ fs else fs)

  pub with_signature : String → List AbiFunction → List AbiFunction
  with_signature s [] = []
  with_signature s (f ∷ functions) =
      let rest = with_signature s functions in if s == f.full_signature then f ∷ rest else rest

  pub matches_of :
      List AbiFunction
      → Option String
      → List Value
      → Dict String Value
      → Result AbiError (List AbiFunction)
  matches_of functions none args kwargs = encodable_of functions args kwargs
  matches_of functions (some s) args kwargs =
      let matches = with_signature s functions in
      guard (leb (length matches) 1) assertion >> ok matches

  -- `match matches`
  pub the_match : List AbiFunction → Result AbiError AbiFunction
  the_match (f ∷ []) = ok f
  the_match [] = err no_match
  the_match (f ∷ g ∷ fs) = err ambiguous

  pub pick_overload :
      List AbiFunction
      → Option String
      → List Value
      → Dict String Value
      → Result AbiError AbiFunction
  pick_overload functions disambiguate_signature args kwargs = do
    matches ← matches_of functions disambiguate_signature args kwargs
    guard (named functions) assertion
    the_match matches

  pub overload_calldata :
      List AbiFunction → Option String → List Value → Dict String Value → Result AbiError Bytes
  overload_calldata functions disambiguate_signature args kwargs = do
    function ← pick_overload functions disambiguate_signature args kwargs
    prepare_calldata function args kwargs
