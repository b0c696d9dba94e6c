-- ===== src/Network/Calls.antt =====
-- `execute_code` of boa/network.py: the local fork runs the message, and the node has the last word.
pub mod Message
pub mod Agrees
pub mod Errors
pub mod ReadOnly
pub mod Unsent
use titanoboa.Prelude.{
  bytes_beq, ℕ, String, Bool, true, false, ◌&&◌, ◌||◌, not, Option, none, some, [], ◌∷◌, arith,
  if◌then◌else◌, is_some, nat_eq, string_eq, bytes_eq, pair_eq,
}
use titanoboa.Prelude.Dict.{Dict}
use titanoboa.Prelude.Program.{pure, raise, lift, raise_if, ◌>>=◌, ◌>>◌, try_except}
use titanoboa.Network.Fees.{get_gas_price}
use titanoboa.Network.{
  as_text, object, estimate_gas_failed, rpc_fetch, runtime_error, assertion_error, out_of_sync,
  warn, reset_fork, text, of_hex, TxData, NetError, value_error, on_base, Json, Net, World,
}
use titanoboa.Env.Calls.{execute_code as base_execute_code, Call}
use titanoboa.Env.{get_sender, Outcome, Computation, Env}
use titanoboa.Prelude.Bytes.{Bytes}
use titanoboa.Network.Send.{fields_of, optional_int, optional_address, send_txn, Txn}
use titanoboa.Rpc.Hex.{to_bytes, py_int, py_bytes, to_hex, codes, fixup_dict, py_str, PyValue, Text}
use titanoboa.Network.Trace.{trace_is_error, returndata_bytes}

module _ ⦃w : World⦄ where
  -- a method of the base environment that asks for the gas price, which the node has unless it was set
  abbrev pub with_gas_price :
      {A : Type 0} → (Env w.evm w.Contract → Outcome w.evm w.Contract A) → ℕ → Net A
  with_gas_price method price = on_base λ env.
      let (r, env') = method (record env { gas_price = some price }) in
      (r, record env' { gas_price = env.gas_price })

  -- `_get_sender`
  abbrev pub sender_or_eoa : Option Bytes → Net Bytes
  sender_or_eoa given = on_base λ env. (get_sender w.evm w.Contract given env, env)

  -- `super().execute_code`, which is not given `override_bytecode`
  unfoldable pub super_execute_code : Call → Net (Computation w.evm w.Contract)
  super_execute_code call = do
    sender_or_eoa call.sender
    price ← get_gas_price
    with_gas_price (base_execute_code w.evm w.Contract (record call { override_bytecode = none }))
        price

  -- `_check_sender`
  abbrev pub check_sender : Option Bytes → Net Bytes
  check_sender none = raise value_error
  check_sender (some address) = pure address

  abbrev pub is_error : Computation w.evm w.Contract → Bool
  is_error computation = is_some computation.0

  -- what reads as the output of a computation whose output was set
  abbrev pub visible : Option w.evm.VmError → Bytes → Bytes
  visible none output = output
  visible (some x) output = if w.erases_return_data x then [] else output

  -- what the node returned takes the place of another local output
  unfoldable pub patched :
      Computation w.evm w.Contract → Option Bytes → Net (Computation w.evm w.Contract)
  patched computation none = pure computation
  patched computation (some output) =
      if bytes_beq computation.2 output
      then pure computation
      else do warn out_of_sync; pure (computation.0, computation.1, visible computation.0 output)

  -- `except _EstimateGasFailed`
  abbrev on_send_error :
      Computation w.evm w.Contract → NetError → Net (Option (TxData × Json × Option Json))
  on_send_error computation estimate_gas_failed = do
    raise_if (not (is_error computation)) assertion_error
    pure none
  on_send_error computation x = raise x

  abbrev checked_trace : Computation w.evm w.Contract → Option Json → Net (Option Bytes)
  checked_trace computation none = pure none
  checked_trace computation (some trace) = do
    output ← returndata_bytes trace
    failed ← trace_is_error trace
    raise_if (failed && not (is_error computation)) runtime_error
    pure (some output)

  abbrev after_send :
      Computation w.evm w.Contract
      → Option (TxData × Json × Option Json)
      → Net (Computation w.evm w.Contract)
  after_send computation none = pure computation
  after_send computation (some (tx_data, receipt, trace)) = do
    output ← checked_trace computation trace
    patched computation output

  unfoldable pub transact : Txn → Computation w.evm w.Contract → Net (Computation w.evm w.Contract)
  transact txn computation = do
    sent ← try_except (do r ← send_txn txn; pure (some r)) (on_send_error computation)
    after_send computation sent

  abbrev call_fields : Txn → Dict String PyValue
  call_fields txn =
      ("from", py_str (w.checksum txn.from_))
      ∷ (("to", optional_address txn.to)
          ∷ (("gas", optional_int txn.gas)
              ∷ (("value", py_int txn.value) ∷ (("data", py_str txn.data_text) ∷ []))))

  -- `eth_call` and the bytes that it returns
  unfoldable pub eth_call : Txn → Net Bytes
  eth_call txn = do
    args ← lift (of_hex (fixup_dict (call_fields txn)))
    answer ← rpc_fetch "eth_call" (object (fields_of args) ∷ (text (codes "latest") ∷ []))
    returnvalue ← as_text answer
    lift (of_hex (to_bytes returnvalue))

  unfoldable pub ask : Txn → Computation w.evm w.Contract → Net (Computation w.evm w.Contract)
  ask txn computation = do output ← eth_call txn; patched computation (some output)

  abbrev pub txn_of : Call → Bytes → Text → Txn
  txn_of call sender hexdata = record {
    from_ = sender;
    to = some call.to_address;
    gas = call.gas;
    value = call.value;
    data_text = hexdata;
  }

  abbrev pub latest : Json
  latest = text (codes "latest")

  abbrev pub reset_if : Bool → Net (Unit {0})
  reset_if true = reset_fork latest
  reset_if false = pure tt

  abbrev pub conclude :
      Bool → Txn → Computation w.evm w.Contract → Net (Computation w.evm w.Contract)
  conclude true txn computation = ask txn computation
  conclude false txn computation = transact txn computation

  -- `execute_code`
  unfoldable pub execute_code : Call → Net (Computation w.evm w.Contract)
  execute_code call = do
    reset_if call.is_modifying
    computation ← super_execute_code call
    given ← sender_or_eoa call.sender
    sender ← check_sender (some given)
    hexdata ← lift (of_hex (to_hex (py_bytes call.data_bytes)))
    conclude (call.simulate || not call.is_modifying) (txn_of call sender hexdata) computation
