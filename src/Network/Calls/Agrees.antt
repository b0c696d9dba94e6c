-- ===== src/Network/Calls/Agrees.antt =====
-- `execute_code` of boa/network.py: the output that it returns is the node's.
use titanoboa.Prelude.{
  ◌≡◌, ◌⊎◌, Bool, true, false, ◌&&◌, not, Option, none, some, nat_eq, string_eq, bytes_eq, pair_eq,
}
use titanoboa.Prelude.Result.{ok, err}
use titanoboa.Prelude.Program.{pure, ◌>>=◌}
use titanoboa.Network.{Net, TxData, Json, NetworkEnv, World, estimate_gas_failed}
use titanoboa.Env.Calls.{Call}
use titanoboa.Network.Calls.{is_error, eth_call}
use titanoboa.Prelude.Bytes.{Bytes}
use titanoboa.Env.{Computation}
use titanoboa.Network.Send.{send_txn, Txn}
use titanoboa.Network.Trace.{trace_is_error, returndata_bytes}
use titanoboa.Network.Calls.Message.{Patched, Local, Message}

module _ ⦃w : World⦄ where
  -- what the node answers about the message of a call, after the local run
  abbrev pub Asked : Call → NetworkEnv → Computation w.evm w.Contract → NetworkEnv → Type 0
  Asked call s ret t =
      (c : Computation w.evm w.Contract) × (s2 : NetworkEnv) × (txn : Txn) × Local call s c s2
      × Message call s2 txn
      × ((output : Bytes) × (after : NetworkEnv) × (eth_call txn s2 ≡ (ok output, after))
          × Patched c ret output
          × (t.node ≡ after.node))

  -- a transaction that was sent, with what its trace has, from the state after it
  Traced :
      Computation w.evm w.Contract
      → Computation w.evm w.Contract
      → NetworkEnv
      → Option Json
      → NetworkEnv
      → Type 0
  Traced c ret after none t = (ret ≡ c) × (t ≡ after)
  Traced c ret after (some trace) t =
      (output : Bytes) × (failed : Bool) × (read : NetworkEnv) × (returndata_bytes trace after
        ≡ (ok output, read))
      × ((trace_is_error trace read).0 ≡ ok failed)
      × ((failed && not (is_error ret)) ≡ false)
      × Patched c ret output

  -- what stands behind a computation that a transaction returned: the node's estimate failed, and so
  -- did the local run; or it was sent, and the computation is as its trace says, if there is one
  pub Verdict :
      Txn
      → Computation w.evm w.Contract
      → NetworkEnv
      → Computation w.evm w.Contract
      → NetworkEnv
      → Type 0
  Verdict txn c before ret t =
      (after : NetworkEnv) × (((send_txn txn before ≡ (err estimate_gas_failed, after))
          × (is_error c ≡ true)
          × (ret ≡ c))
        ⊎ ((tx_data : TxData) × (receipt : Json) × (trace : Option Json) × (send_txn txn before
              ≡ (ok (tx_data, receipt, trace), after))
            × Traced c ret after trace t))

  attempt : Txn → Net (Option (TxData × Json × Option Json))
  attempt txn = do r ← send_txn txn; pure (some r)

  -- the transaction that was made of a call, after the local run
  abbrev pub Transacted : Call → NetworkEnv → Computation w.evm w.Contract → NetworkEnv → Type 0
  Transacted call s ret t =
      (c : Computation w.evm w.Contract) × (s2 : NetworkEnv) × (txn : Txn) × Local call s c s2
      × Message call s2 txn
      × Verdict txn c s2 ret t
