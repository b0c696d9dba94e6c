-- ===== src/Network/Capabilities.antt =====
-- `Capabilities` of boa/network.py: what the node's chain supports, each answer kept as a
-- `cached_property` keeps it.
pub mod Cached
pub mod Versions
use titanoboa.Prelude.{
  bytes_beq, ◌+◌, ◌-◌, String, Bool, true, false, ◌&&◌, Option, none, some, [], ◌∷◌, ◌++◌, arith,
  leb, if◌then◌else◌, ◌==◌, nat_eq, string_eq, bytes_eq, pair_eq,
}
use titanoboa.Prelude.Result.{Result, ok, err}
use titanoboa.Prelude.Bytes.{remove_prefix}
use titanoboa.Prelude.Program.{Program, pure, modify, ◌>>=◌, ◌>>◌}
use titanoboa.Rpc.Hex.{codes, Text}
use titanoboa.Network.{rpc_error, no_fields, null, field, text, object, Json, World, RpcFailure}

-- EIP-2935: the code of the contract of historical block hashes, and its address
abbrev eip_2935_bytecode : Text
eip_2935_bytecode =
    codes "3373fffffffffffffffffffffffffffffffffffffffe14604657602036036042"
    ++ (codes "575f35600143038111604257611fff81430311604257611fff9006545f526020"
        ++ codes "5ff35b5f5ffd5b5f35611fff60014303065500")

abbrev eip_2935_contract_address : Text
eip_2935_contract_address = codes "0x0000F90827F1C53a10cb7A02335B175320002935"

abbrev pub lower : Text → Text
lower [] = []
lower (c ∷ t) = (if leb b'A' c && leb c b'Z' then c + 32 else c) ∷ lower t

pub data CapabilityError : Type 0 where
  request : RpcFailure → CapabilityError
  attribute_error : CapabilityError

module _ ⦃w : World⦄ where
  -- the cached properties, and the node that the requests go to
  pub record Capabilities : Type 0 where
    pub push0 : Option Bool
    pub mcopy : Option Bool
    pub transient : Option Bool
    pub shanghai : Option Bool
    pub cancun : Option Bool
    pub prague : Option Bool
    pub node : w.NodeState

  abbrev pub Query : Type 0 → Type 0
  Query A = Program Capabilities CapabilityError A

  abbrev kept : Option Bool → (Bool → Capabilities → Capabilities) → Query Bool → Query Bool
  kept (some b) write compute = pure b
  kept none write compute = do b ← compute; modify (write b); pure b

  -- `@cached_property`
  abbrev cached_property :
      (Capabilities → Option Bool) → (Bool → Capabilities → Capabilities) → Query Bool → Query Bool
  cached_property read write compute s = kept (read s) write compute s

  abbrev after_true : Query Bool → Bool → Query Bool
  after_true k true = k
  after_true k false = pure false

  -- Python's `and`: the second is not evaluated after False
  abbrev and_also : Query Bool → Query Bool → Query Bool
  and_also m k = m >>= after_true k

  abbrev capability_of : Result RpcFailure Json → Result CapabilityError Bool
  capability_of (ok _) = ok true
  capability_of (err (rpc_error code)) = ok false
  capability_of (err x) = err (request x)

  -- `_get_capability`
  unfoldable pub get_capability : Text → Query Bool
  get_capability hex_bytecode s =
      let call = object (field "to" null (field "data" (text hex_bytecode) no_fields)) in
      let (r, n) = w.fetch "eth_call" (call ∷ (text (codes "latest") ∷ [])) s.node in
      (capability_of r, record s { node = n })

  unfoldable pub has_push0 : Query Bool
  has_push0 =
      cached_property (λ s. s.push0) (λ b s. record s { push0 = some b })
        (get_capability (codes "0x5f"))

  unfoldable pub has_mcopy : Query Bool
  has_mcopy =
      cached_property (λ s. s.mcopy) (λ b s. record s { mcopy = some b })
        (get_capability (codes "0x600080805E"))

  unfoldable pub has_transient : Query Bool
  has_transient =
      cached_property (λ s. s.transient) (λ b s. record s { transient = some b })
        (get_capability (codes "0x60005C"))

  unfoldable pub has_shanghai : Query Bool
  has_shanghai = cached_property (λ s. s.shanghai) (λ b s. record s { shanghai = some b }) has_push0

  unfoldable pub has_cancun : Query Bool
  has_cancun =
      cached_property (λ s. s.cancun) (λ b s. record s { cancun = some b })
        (and_also has_shanghai (and_also has_mcopy has_transient))

  abbrev is_eip_2935 : Result RpcFailure Json → Result CapabilityError Bool
  is_eip_2935 (ok (text bytecode)) =
      ok (bytes_beq (remove_prefix (lower bytecode) (codes "0x")) eip_2935_bytecode)
  is_eip_2935 (ok _) = err attribute_error
  is_eip_2935 (err x) = err (request x)

  abbrev eip_2935_deployed : Query Bool
  eip_2935_deployed s =
      let params = text eip_2935_contract_address ∷ (text (codes "latest") ∷ []) in
      let (r, n) = w.fetch "eth_getCode" params s.node in (is_eip_2935 r, record s { node = n })

  unfoldable pub has_prague : Query Bool
  has_prague =
      cached_property (λ s. s.prague) (λ b s. record s { prague = some b }) eip_2935_deployed

  abbrev after_cancun : Bool → Query String
  after_cancun false = pure "shanghai"
  after_cancun true = do p ← has_prague; pure (if p then "prague" else "cancun")

  abbrev after_shanghai : Bool → Query String
  after_shanghai false = pure "pre-shanghai"
  after_shanghai true = has_cancun >>= after_cancun

  -- `describe_capabilities`
  unfoldable pub describe_capabilities : Query String
  describe_capabilities = has_shanghai >>= after_shanghai

  -- `check_evm_version`
  unfoldable pub check_evm_version : String → Query Bool
  check_evm_version evm_version =
      if evm_version == "prague"
      then has_prague
      else if evm_version == "cancun"
      then has_cancun
      else if evm_version == "shanghai"
      then has_shanghai
      else pure true
