-- ===== src/Network/Deploy.antt =====
-- `deploy` of boa/network.py: the local fork runs the init code, the node creates the contract, and the
-- deployments database is told.
use titanoboa.Prelude.{
  bytes_beq, String, Bool, true, false, not, Option, none, some, List, [], ◌∷◌, ◌++◌, if◌then◌else◌,
  nat_eq, string_eq, bytes_eq, pair_eq,
}
use titanoboa.Prelude.Dict.{Dict}
use titanoboa.Prelude.Result.{Result, ok, err}
use titanoboa.Prelude.Program.{pure, lift, gets, modify, raise_if, ◌>>=◌, ◌>>◌}
use titanoboa.Network.Fees.{get_gas_price}
use titanoboa.Network.{
  text_item, runtime_error, type_error, DeploymentRecord, no_bundle, warn, reset_fork, of_hex,
  TxData, Json, Net, World,
}
use titanoboa.Env.Calls.{deploy as base_deploy, Deployment}
use titanoboa.Env.{Computation}
use titanoboa.Prelude.Bytes.{Bytes}
use titanoboa.Network.Send.{send_txn}
use titanoboa.Rpc.Hex.{py_bytes, to_hex, trim_dict, PyValue, Text}
use titanoboa.Network.Trace.{returndata_bytes}
use titanoboa.Network.Calls.{with_gas_price, sender_or_eoa, check_sender, is_error, patched, latest}

module _ ⦃w : World⦄ where
  -- `super().deploy`
  unfoldable pub super_deploy : Deployment → Net (Bytes × Computation w.evm w.Contract)
  super_deploy d = do
    sender_or_eoa d.sender
    price ← get_gas_price
    with_gas_price (base_deploy w.evm w.Contract (record d { override_address = none })) price

  abbrev bundle_or_none : Result (Unit {0}) (Option Text) → Net (Option Text)
  bundle_or_none (ok b) = pure b
  bundle_or_none (err _) = do warn no_bundle; pure none

  abbrev attribute : (w.Contract → Option Text) → Option w.Contract → Option Text
  attribute f none = none
  attribute f (some c) = f c

  -- the entry of the deployments database
  abbrev deployment_record :
      Option w.Contract → Bytes → Bytes → TxData → Json → Text → Option Text → DeploymentRecord
  deployment_record contract create_address sender txdata receipt tx_hash source = record {
    contract_address = create_address;
    contract_name = attribute w.contract_name contract;
    filename = attribute w.filename contract;
    rpc = w.rpc_name;
    deployer = sender;
    tx_hash = tx_hash;
    tx_dict = txdata;
    receipt_dict = receipt;
    source_code = source;
    abi = attribute w.abi contract;
  }

  abbrev insert_if_open :
      Option w.Contract
      → Bytes
      → Bytes
      → TxData
      → Json
      → Option (List DeploymentRecord)
      → Net (Unit {0})
  insert_if_open contract create_address sender txdata receipt none = pure tt
  insert_if_open contract create_address sender txdata receipt (some db) = do
    source ← bundle_or_none (w.bundle contract)
    tx_hash ← text_item "transactionHash" receipt
    modify (λ s. record s {
      deployments_db = some (
          db
          ++ deployment_record contract create_address sender txdata receipt tx_hash source ∷ []);
    })

  -- the trace's output, as `deploy` compares it, without a check for an error
  abbrev deployed_output : Option Json → Net (Option Bytes)
  deployed_output none = pure none
  deployed_output (some trace) = do output ← returndata_bytes trace; pure (some output)

  abbrev is_empty : Dict String PyValue → Bool
  is_empty [] = true
  is_empty (_ ∷ _) = false

  abbrev deploy_on_node :
      Deployment
      → Option w.Contract
      → Dict String PyValue
      → Bytes
      → Computation w.evm w.Contract
      → Net (Bytes × Computation w.evm w.Contract)
  deploy_on_node d contract kwargs local_address computation = do
    raise_if (not (is_empty (trim_dict kwargs))) type_error
    bytecode ← lift (of_hex (to_hex (py_bytes d.bytecode)))
    given ← sender_or_eoa d.sender
    sender ← check_sender (some given)
    done ←
        send_txn
          (record { from_ = sender; to = none; gas = d.gas; value = d.value; data_text = bytecode })
    address_text ← text_item "contractAddress" done.1
    create_address ← lift (of_hex (w.canonical address_text))
    output ← deployed_output done.2
    result ← patched computation output
    raise_if (not (bytes_beq local_address create_address)) runtime_error
    db ← gets (λ s. s.deployments_db)
    insert_if_open contract create_address sender done.0 done.1 db
    pure (create_address, result)

  abbrev unless_failed :
      Deployment
      → Option w.Contract
      → Dict String PyValue
      → Bytes × Computation w.evm w.Contract
      → Net (Bytes × Computation w.evm w.Contract)
  unless_failed d contract kwargs (local_address, computation) =
      if is_error computation
      then pure (local_address, computation)
      else deploy_on_node d contract kwargs local_address computation

  -- `deploy`
  unfoldable pub deploy :
      Deployment
      → Option w.Contract
      → Dict String PyValue
      → Net (Bytes × Computation w.evm w.Contract)
  deploy d contract kwargs = do
    reset_fork latest
    local ← super_deploy d
    unless_failed d contract kwargs local
