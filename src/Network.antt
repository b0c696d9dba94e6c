-- ===== src/Network.antt =====
-- boa/network.py: an environment that works on a real chain. The base environment is the one of Env,
-- and what lies outside it is the record `World`: the node, the fork of the machine's state, and
-- the codecs of addresses. A warning is kept in a list, and printing is left out.
pub mod Capabilities
pub mod Fees
pub mod Trace
pub mod Send
pub mod Calls
pub mod Deploy
pub mod Anchor
use titanoboa.Prelude.{
  ℕ, String, Bool, true, ◌||◌, not, Option, none, some, List, [], ◌∷◌, arith, if◌then◌else◌,
  is_some, ◌==◌, nat_eq, string_eq, bytes_eq, pair_eq,
}
use titanoboa.Prelude.Dict.{Dict, insert}
use titanoboa.Prelude.Result.{Result, ok, err}
use titanoboa.Prelude.Program.{Program, pure, raise, lift, modify, ◌>>=◌, ◌>>◌}
use titanoboa.Prelude.Bytes.{Bytes}
use titanoboa.Prelude.Int.{ℤ, int_eq}
use titanoboa.Rpc.Hex.{int_16, codes, Text, HexError}
use titanoboa.Vm.Patcher.{Patchables}
use titanoboa.Env.{Env, Evm, EnvError, Outcome}

mutual
  pub data Json : Type 0 where
    null : Json
    flag : Bool → Json
    text : Text → Json
    object : Fields → Json

  pub data Fields : Type 0 where
    no_fields : Fields
    field : String → Json → Fields → Fields

-- how a request fails: `RPCError` with its code, `HTTPError`, or the wait that times out
pub data RpcFailure : Type 0 where
  rpc_error : ℤ → RpcFailure
  http_error timed_out : RpcFailure

-- `params` of an RPC request
abbrev pub Params : Type 0
Params = List Json

-- what the environment works with. `bundle` is `get_verification_bundle`, which may raise; the
-- functions on a contract are what `getattr` finds.
pub record World : Type 1 where
  pub evm : Evm
  pub Contract : Type 0
  pub NodeState : Type 0
  -- py-evm: the output of a computation with this error reads as no bytes
  pub erases_return_data : evm.VmError → Bool
  pub rpc_name : Text
  pub fetch : String → Params → NodeState → Result RpcFailure Json × NodeState
  pub fetch_uncached : String → Params → NodeState → Result RpcFailure Json × NodeState
  pub fetch_multi : List (String × Params) → NodeState → Result RpcFailure (List Json) × NodeState
  pub wait_for_tx_receipt : Text → ℕ → NodeState → Result RpcFailure Json × NodeState
  -- `PyEVM.fork_rpc`: the machine's state at a block of the node, and its block attributes
  pub fork_rpc :
      Json
      → evm.State × Patchables ℕ
      → NodeState
      → Result RpcFailure (evm.State × Patchables ℕ) × NodeState
  pub checksum : Bytes → Text
  pub canonical : Text → Result HexError Bytes
  pub contract_name : Contract → Option Text
  pub filename : Contract → Option Text
  pub bundle : Option Contract → Result (Unit {0}) (Option Text)
  pub abi : Contract → Option Text

pub data Warning : Type 0 where
  no_eip1559 no_tracer no_trace out_of_sync no_bundle : Warning

-- `TransactionSettings`; the timeout is in the unit of the clock
pub record TransactionSettings : Type 0 where
  pub base_fee_estimator_constant : ℕ
  pub poll_timeout : ℕ
  pub estimate_gas_block_identifier : Option Text

-- the fields of a transaction
abbrev pub TxData : Type 0
TxData = Dict String Text

-- an account that signs, or one that sends through its own node
pub data Account (N : Type 0) : Type 0 where
  signing : (TxData → Bytes) → Account N
  sending : (TxData → N → Result RpcFailure Json × N) → Account N

-- `Deployment` of boa/deployments.py
pub record DeploymentRecord : Type 0 where
  pub contract_address : Bytes
  pub contract_name : Option Text
  pub filename : Option Text
  pub rpc : Text
  pub deployer : Bytes
  pub tx_hash : Text
  pub tx_dict : TxData
  pub receipt_dict : Json
  pub source_code : Option Text
  pub abi : Option Text

pub data Tracer : Type 0 where
  call_tracer struct_logs : Tracer

module _ ⦃w : World⦄ where
  pub record NetworkEnv : Type 0 where
    pub base : Env w.evm w.Contract
    pub node : w.NodeState
    pub accounts : Dict Bytes (Account w.NodeState)
    pub tx_settings : TransactionSettings
    -- the cached properties `_tracer`, where the inner option is None, and `_rpc_has_snapshot`
    pub tracer : Option (Option Tracer)
    pub rpc_has_snapshot : Option Bool
    pub suppress_debug_tt : Bool
    pub deployments_db : Option (List DeploymentRecord)
    pub warnings : List Warning

  pub data NetError : Type 0 where
    request : RpcFailure → NetError
    hex_error : HexError → NetError
    env_error : EnvError w.evm.VmError → NetError
    key_error value_error type_error overflow_error runtime_error assertion_error not_implemented :
        NetError
    estimate_gas_failed txn_failed : NetError

  abbrev pub Net : Type 0 → Type 0
  Net A = Program NetworkEnv NetError A

  abbrev of_request : {A : Type 0} → Result RpcFailure A → Result NetError A
  of_request (ok a) = ok a
  of_request (err x) = err (request x)

  abbrev pub of_hex : {A : Type 0} → Result HexError A → Result NetError A
  of_hex (ok a) = ok a
  of_hex (err x) = err (hex_error x)

  abbrev of_env : {A : Type 0} → Result (EnvError w.evm.VmError) A → Result NetError A
  of_env (ok a) = ok a
  of_env (err x) = err (env_error x)

  -- a call of the node
  abbrev pub on_node : {A : Type 0} → (w.NodeState → Result RpcFailure A × w.NodeState) → Net A
  on_node call s = let (r, n) = call s.node in (of_request r, record s { node = n })

  -- a method of the base environment
  abbrev pub on_base : {A : Type 0} → (Env w.evm w.Contract → Outcome w.evm w.Contract A) → Net A
  on_base call s = let (r, env) = call s.base in (of_env r, record s { base = env })

  abbrev pub warn : Warning → Net (Unit {0})
  warn x = modify λ s. record s { warnings = x ∷ s.warnings }

  abbrev pub rpc_fetch : String → Params → Net Json
  rpc_fetch method params = on_node (w.fetch method params)

  -- a JSON value where the code needs a text
  abbrev pub as_text : Json → Net Text
  as_text (text t) = pure t
  as_text _ = raise type_error

  abbrev find_field : String → Fields → Option Json
  find_field k no_fields = none
  find_field k (field j v rest) = if j == k then some v else find_field k rest

  -- `data.get(k)` and `data[k]`
  abbrev pub get_item : String → Json → Net (Option Json)
  get_item k (object fields) = pure (find_field k fields)
  get_item k _ = raise type_error

  abbrev or_key_error : Option Json → Net Json
  or_key_error none = raise key_error
  or_key_error (some v) = pure v

  abbrev pub item : String → Json → Net Json
  item k data_of = get_item k data_of >>= or_key_error

  abbrev pub text_item : String → Json → Net Text
  text_item k data_of = item k data_of >>= as_text

  -- `add_account`
  pub add_account : Bytes → Account w.NodeState → Bool → Net (Unit {0})
  add_account address account force_eoa = modify λ s. record s {
    accounts = insert address account s.accounts;
    base = record s.base {
      eoa = if not (is_some s.base.eoa) || force_eoa then some address else s.base.eoa;
    };
  }

  -- `set_eoa`
  pub set_eoa : Bytes → Account w.NodeState → Net (Unit {0})
  set_eoa address account = add_account address account true

  -- `suppress_debug_tt`
  pub set_suppress_debug_tt : Bool → Net (Unit {0})
  set_suppress_debug_tt new_value = modify λ s. record s { suppress_debug_tt = new_value }

  abbrev forked :
      Result RpcFailure (w.evm.State × Patchables ℕ)
      → Env w.evm w.Contract
      → Result NetError (Unit {0}) × Env w.evm w.Contract
  forked (ok (state, patch)) env = (ok tt, record env { state = state; patch = patch })
  forked (err x) env = (err (request x), env)

  -- `_reset_fork`
  unfoldable pub reset_fork : Json → Net (Unit {0})
  reset_fork block_identifier s =
      let (r, n) = w.fork_rpc block_identifier (s.base.state, s.base.patch) s.node in
      let (r', env) = forked r s.base in (r', record s { base = env; node = n })

  -- `_get_nonce`
  unfoldable pub get_nonce : Bytes → Net Text
  get_nonce addr =
      rpc_fetch "eth_getTransactionCount" (text (w.checksum addr) ∷ (text (codes "latest") ∷ []))
      >>= as_text

  -- `get_chain_id`
  pub get_chain_id : Net ℕ
  get_chain_id = do
    answer ← rpc_fetch "eth_chainId" []
    chain_id ← as_text answer
    lift (of_hex (int_16 chain_id))

  -- `set_balance`, `set_code` and `set_storage`
  pub set_balance : Bytes → ℕ → Net (Unit {0})
  set_balance address value = raise not_implemented

  pub set_code : Bytes → Bytes → Net (Unit {0})
  set_code address code = raise not_implemented

  pub set_storage : Bytes → ℕ → ℕ → Net (Unit {0})
  set_storage address slot value = raise not_implemented
