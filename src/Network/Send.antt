-- ===== src/Network/Send.antt =====
-- `_send_txn` of boa/network.py: a transaction is completed, signed and sent, and its receipt and
-- its trace are awaited.
use titanoboa.Prelude.{
  bytes_beq, ℕ, String, Bool, false, not, Option, none, some, [], ◌∷◌, if◌then◌else◌, nat_eq,
  string_eq, bytes_eq, pair_eq,
}
use titanoboa.Prelude.Dict.{Dict, lookup, insert}
use titanoboa.Prelude.Program.{raise_if, pure, raise, lift, gets, ◌>>=◌, ◌>>◌, try_except}
use titanoboa.Network.{
  text_item, estimate_gas_failed, sending, key_error, rpc_error, signing, request, reset_fork, item,
  txn_failed, get_nonce, text, field, get_item, as_text, object, no_eip1559, no_fields, on_node,
  of_hex, value_error, rpc_fetch, Params, warn, Fields, Json, Net, Account, NetError, TxData, World,
}
use titanoboa.Network.Fees.{get_static_fee, get_eip1559_fee}
use titanoboa.Network.Trace.{debug_tt}
use titanoboa.Prelude.Bytes.{Bytes}
use titanoboa.Rpc.Hex.{py_bytes, to_hex, codes, fixup_dict, py_int, py_str, py_none, Text, PyValue}
use titanoboa.Prelude.Int.{pos, int_beq, int_eq}

-- `ExternalAccount.send_transaction`, on the node of its own
abbrev pub fields_of : TxData → Fields
fields_of [] = no_fields
fields_of ((k, v) ∷ tx_data) = field k (text v) (fields_of tx_data)

module _ ⦃w : World⦄ where
  -- the arguments of `_send_txn`
  pub record Txn : Type 0 where
    pub from_ : Bytes
    pub to : Option Bytes
    pub gas : Option ℕ
    pub value : ℕ
    pub data_text : Text

  abbrev pub optional_int : Option ℕ → PyValue
  optional_int none = py_none
  optional_int (some n) = py_int n

  abbrev pub optional_address : Option Bytes → PyValue
  optional_address none = py_none
  optional_address (some a) = py_str (w.checksum a)

  abbrev pub initial_fields : Txn → Dict String PyValue
  initial_fields txn =
      ("from", py_str (w.checksum txn.from_))
      ∷ (("to", optional_address txn.to)
          ∷ (("gas", optional_int txn.gas)
              ∷ (("value", py_int txn.value) ∷ (("data", py_str txn.data_text) ∷ []))))

  -- the fields of an EIP-1559 transaction, and those of a legacy one
  abbrev pub eip1559_fields : TxData → Net TxData
  eip1559_fields tx_data = do
    fees ← get_eip1559_fee
    pure (
        insert "chainId" fees.3
          (insert "maxFeePerGas" fees.2 (insert "maxPriorityFeePerGas" fees.1 tx_data)))

  abbrev pub legacy_fields : TxData → Net TxData
  legacy_fields tx_data = do
    warn no_eip1559
    fees ← get_static_fee
    pure (insert "chainId" fees.1 (insert "gasPrice" fees.0 tx_data))

  -- `except (RPCError, KeyError)`
  abbrev pub on_fee_error : TxData → NetError → Net TxData
  on_fee_error tx_data (request (rpc_error code)) = legacy_fields tx_data
  on_fee_error tx_data key_error = legacy_fields tx_data
  on_fee_error tx_data x = raise x

  unfoldable pub with_fees : TxData → Net TxData
  with_fees tx_data = try_except (eip1559_fields tx_data) (on_fee_error tx_data)

  abbrev pub estimate_params : TxData → Option Text → Params
  estimate_params tx_data none = object (fields_of tx_data) ∷ []
  estimate_params tx_data (some block) = object (fields_of tx_data) ∷ (text block ∷ [])

  -- `except RPCError`: code 3 means that the execution failed
  abbrev pub on_estimate_error : NetError → Net TxData
  on_estimate_error (request (rpc_error code)) =
      if int_beq code (pos 3) then raise estimate_gas_failed else raise (request (rpc_error code))
  on_estimate_error x = raise x

  abbrev pub estimated : TxData → Net TxData
  estimated tx_data = do
    block ← gets (λ s. s.tx_settings.estimate_gas_block_identifier)
    answer ← rpc_fetch "eth_estimateGas" (estimate_params tx_data block)
    gas ← as_text answer
    pure (insert "gas" gas tx_data)

  unfoldable pub with_gas : Option ℕ → TxData → Net TxData
  with_gas none tx_data = try_except (estimated tx_data) on_estimate_error
  with_gas (some gas) tx_data = pure tx_data

  abbrev pub found_account : Option (Account w.NodeState) → Net (Account w.NodeState)
  found_account none = raise value_error
  found_account (some a) = pure a

  -- an account signs and the node sends, or the account sends
  abbrev pub sent_by : TxData → Account w.NodeState → Net Text
  sent_by tx_data (signing sign) = do
    raw ← lift (of_hex (to_hex (py_bytes (sign tx_data))))
    answer ← rpc_fetch "eth_sendRawTransaction" (text raw ∷ [])
    as_text answer
  sent_by tx_data (sending send) = do answer ← on_node (send tx_data); text_item "hash" answer

  -- the fields of a transaction, up to the moment when it is sent
  unfoldable pub completed : Txn → Net TxData
  completed txn = do
    tx_data ← lift (of_hex (fixup_dict (initial_fields txn)))
    tx_data ← with_fees tx_data
    nonce ← get_nonce txn.from_
    with_gas txn.gas (insert "nonce" nonce tx_data)

  unfoldable pub broadcast : Txn → TxData → Net Text
  broadcast txn tx_data = do
    accounts ← gets (λ s. s.accounts)
    account ← found_account (lookup txn.from_ accounts)
    sent_by tx_data account

  abbrev pub is_success : Option Json → Bool
  is_success (some (text status)) = bytes_beq status (codes "0x1")
  is_success _ = false

  -- from the hash on
  unfoldable pub confirmed : Text → Net (Json × Option Json)
  confirmed tx_hash = do
    timeout ← gets (λ s. s.tx_settings.poll_timeout)
    receipt ← on_node (w.wait_for_tx_receipt tx_hash timeout)
    status ← get_item "status" receipt
    raise_if (not (is_success status)) txn_failed
    trace ← debug_tt tx_hash
    item "blockHash" receipt
    block_number ← item "blockNumber" receipt
    reset_fork block_number
    pure (receipt, trace)

  -- from the complete fields on
  abbrev pub send_fields : Txn → TxData → Net (TxData × Json × Option Json)
  send_fields txn tx_data = do
    tx_hash ← broadcast txn tx_data
    done ← confirmed tx_hash
    pure (tx_data, done.0, done.1)

  -- `_send_txn`: the fields that were sent, the receipt, and the trace if there is one
  unfoldable pub send_txn : Txn → Net (TxData × Json × Option Json)
  send_txn txn = completed txn >>= send_fields txn
