-- ===== src/Tests/Network.antt =====
-- boa/network.py and the hex conversions of boa/rpc.py at concrete inputs, with a toy node.
use titanoboa.Prelude.{
  ℕ, ◌+◌, String, ◌≡◌, refl, ap, true, false, Option, none, some, List, [], ◌∷◌, ◌++◌, length,
  get_elem?, nat_eq, string_eq, bytes_eq, pair_eq, ◌≤◌, inr, arith,
}
use titanoboa.Prelude.Result.{Result, ok, err}
use titanoboa.Rpc.Hex.{codes, Text, to_hex, to_int, to_bytes}
use titanoboa.Rpc.Hex.Roundtrip.{to_int-to_hex}
use titanoboa.Env.{Env}
use titanoboa.Env.Calls.{Call}
use titanoboa.Network.{
  runtime_error, estimate_gas_failed, Net, no_fields, field, text, object, Params, Json, RpcFailure,
}
use titanoboa.Network.Calls.{txn_of, transact, super_execute_code, execute_code}
use titanoboa.Prelude.Int.{int_eq}
use titanoboa.Network.Calls.ReadOnly.{execute_code-Quiet, sent_in, Ledger, sends}
use titanoboa.Prelude.Program.{Keeps}
use titanoboa.Network.Send.{send_txn, Txn}
use titanoboa.Network.Anchor.Restores.{anchor-restores, chain_in, Snapshots, Holds}
use titanoboa.Network.Capabilities.{check_evm_version, describe_capabilities, Capabilities}
use titanoboa.Network.Fees.Cap.{here, fee_of-covers, block, Rises}
use titanoboa.Network.Fees.{base_fee_cap, fee_of}
use titanoboa.Network.Calls.Unsent.{send_txn-unsent}
use titanoboa.Network.Anchor.{anchor}
use titanoboa.Network.Capabilities.Versions.{check_evm_version-describe}
use mathlib.Core.Path.{subst}
use titanoboa.Tests.Node.{revert_to, respond, sent_raw, snapshot_of, Node, start, toy}

to_int-to_hex_example : to_int (codes "0x10b4") ≡ ok 4276
unfolding to_int to_hex titanoboa.Rpc.Hex.int_16 titanoboa.Rpc.Hex.digits titanoboa.Rpc.Hex.digit
to_int-to_hex_example = to_int-to_hex 4276

abbrev transfer : Call
transfer = record {
  to_address = 4 ∷ [];
  sender = none;
  gas = none;
  value = 10;
  data_bytes = 1 ∷ 2 ∷ [];
  override_bytecode = none;
  is_modifying = true;
  simulate = false;
}

transfer_sent : (execute_code transfer (start false)).1.node.sent ≡ codes "0x0506" ∷ []
unfolding execute_code super_execute_code titanoboa.Network.reset_fork titanoboa.Env.get_sender
    titanoboa.Network.Fees.get_gas_price to_int titanoboa.Rpc.Hex.int_16 titanoboa.Rpc.Hex.number
    titanoboa.Rpc.Hex.parse_digits titanoboa.Rpc.Hex.digit_value titanoboa.Env.Calls.execute_code
    titanoboa.Env.Calls.executed titanoboa.Env.update_gas_used to_hex
    titanoboa.Network.Calls.transact titanoboa.Network.Send.send_txn
    titanoboa.Network.Send.completed titanoboa.Rpc.Hex.fixup_dict titanoboa.Rpc.Hex.to_hex_each
    titanoboa.Env.Calls.call_message titanoboa.Env.env_anchor titanoboa.Env.get_gas_price
    titanoboa.Network.Calls.ask titanoboa.Network.Calls.eth_call titanoboa.Network.Calls.patched
    titanoboa.Network.Fees.base_fee_cap titanoboa.Network.Fees.fee_of
    titanoboa.Network.Fees.get_eip1559_fee titanoboa.Network.Fees.get_static_fee
    titanoboa.Network.Send.broadcast titanoboa.Network.Send.confirmed
    titanoboa.Network.Send.with_fees titanoboa.Network.Send.with_gas
    titanoboa.Network.Trace.debug_tt titanoboa.Network.Trace.returndata
    titanoboa.Network.Trace.returndata_bytes titanoboa.Network.Trace.trace_is_error
    titanoboa.Network.Trace.tracer_of titanoboa.Network.get_nonce titanoboa.Rpc.Hex.bytes_hex
    titanoboa.Rpc.Hex.digit titanoboa.Rpc.Hex.digits titanoboa.Rpc.Hex.from_hex
    titanoboa.Rpc.Hex.hex to_bytes titanoboa.Rpc.Hex.trim_dict titanoboa.Rpc.Hex.truthy
transfer_sent = refl

-- a call with a simulation, which the node answers
abbrev query : Call
query = record transfer { simulate = true }

toy_keeps :
    (method : String) (params : Params) (n : Node)
    → sends method ≡ false
    → (respond method params n).1.sent ≡ n.sent
toy_keeps method params n h = ground (arith, h)

abbrev ledger : Ledger toy
ledger = record {
  Sent = List Text;
  sent = λ n. n.sent;
  fetch_keeps = toy_keeps;
  fetch_multi_keeps = λ requests n h. refl;
  fork_keeps = λ block machine n. refl;
}

execute_code-Quiet_example : Keeps (sent_in ledger) (execute_code query)
execute_code-Quiet_example = execute_code-Quiet ledger query refl

abbrev doomed : Txn
doomed = txn_of transfer (9 ∷ []) (codes "0x0102")

doomed_fails : (send_txn doomed (start true)).0 ≡ err estimate_gas_failed
unfolding execute_code super_execute_code titanoboa.Network.reset_fork titanoboa.Env.get_sender
    titanoboa.Network.Fees.get_gas_price to_int titanoboa.Rpc.Hex.int_16 titanoboa.Rpc.Hex.number
    titanoboa.Rpc.Hex.parse_digits titanoboa.Rpc.Hex.digit_value titanoboa.Env.Calls.execute_code
    titanoboa.Env.Calls.executed titanoboa.Env.update_gas_used to_hex
    titanoboa.Network.Calls.transact titanoboa.Network.Send.send_txn
    titanoboa.Network.Send.completed titanoboa.Rpc.Hex.fixup_dict titanoboa.Rpc.Hex.to_hex_each
    titanoboa.Env.Calls.call_message titanoboa.Env.env_anchor titanoboa.Env.get_gas_price
    titanoboa.Network.Calls.ask titanoboa.Network.Calls.eth_call titanoboa.Network.Calls.patched
    titanoboa.Network.Fees.base_fee_cap titanoboa.Network.Fees.fee_of
    titanoboa.Network.Fees.get_eip1559_fee titanoboa.Network.Fees.get_static_fee
    titanoboa.Network.Send.broadcast titanoboa.Network.Send.confirmed
    titanoboa.Network.Send.with_fees titanoboa.Network.Send.with_gas
    titanoboa.Network.Trace.debug_tt titanoboa.Network.Trace.returndata
    titanoboa.Network.Trace.returndata_bytes titanoboa.Network.Trace.trace_is_error
    titanoboa.Network.Trace.tracer_of titanoboa.Network.get_nonce titanoboa.Rpc.Hex.bytes_hex
    titanoboa.Rpc.Hex.digit titanoboa.Rpc.Hex.digits titanoboa.Rpc.Hex.from_hex
    titanoboa.Rpc.Hex.hex to_bytes titanoboa.Rpc.Hex.trim_dict titanoboa.Rpc.Hex.truthy
doomed_fails = refl

send_txn-unsent_example : (send_txn doomed (start true)).1.node.sent ≡ []
send_txn-unsent_example =
    send_txn-unsent ledger doomed (start true) (send_txn doomed (start true)).1
      (ap (λ r. (r, (send_txn doomed (start true)).1)) doomed_fails)

abbrev answered_snapshot : Result RpcFailure Json × Node → Option (List Text)
answered_snapshot (ok snapshot_id, n) = snapshot_of snapshot_id n
answered_snapshot (err x, n) = none

get_elem?-last :
    (xs : List (List Text)) (x : List Text) → get_elem? (xs ++ x ∷ []) (length xs) ≡ some x
get_elem?-last [] x = refl
get_elem?-last (y ∷ xs) x = get_elem?-last xs x

abbrev snapshots_kept : Snapshots toy
snapshots_kept = record {
  Chain = List Text;
  chain = λ n. n.sent;
  saved = snapshot_of;
  snapshot_keeps = λ n. refl;
  snapshot_saves = λ n n' snapshot_id e.
      subst (λ o. answered_snapshot o ≡ some n.sent) e (get_elem?-last n.snapshots n.sent);
  revert_restores = λ n snapshot_id c h. ap (λ o. (revert_to o n).sent) h;
  fork_keeps = λ block machine n. refl;
}

-- a body that sends a text and raises
abbrev reckless : Net (Unit {0})
reckless s = (err runtime_error, record s { node = sent_raw (text (codes "0x77") ∷ []) s.node })

reckless-Holds : Holds snapshots_kept reckless
reckless-Holds (text (i ∷ [])) s = refl
reckless-Holds _ s = refl

anchor-restores_example : Keeps (chain_in snapshots_kept) (anchor reckless)
anchor-restores_example = anchor-restores snapshots_kept reckless reckless-Holds

abbrev asked_nothing : Capabilities
asked_nothing = record {
  push0 = none;
  mcopy = none;
  transient = none;
  shanghai = none;
  cancun = none;
  prague = none;
  node = record { sent = []; snapshots = []; fails = false };
}

described : (describe_capabilities asked_nothing).0 ≡ ok "cancun"
unfolding describe_capabilities titanoboa.Network.Capabilities.has_shanghai
    titanoboa.Network.Capabilities.has_push0 titanoboa.Network.Capabilities.get_capability
    titanoboa.Network.Capabilities.has_cancun titanoboa.Network.Capabilities.has_mcopy
    titanoboa.Network.Capabilities.has_transient titanoboa.Network.Capabilities.has_prague
described = refl

check_evm_version-describe_example :
    let s = (describe_capabilities asked_nothing).1 in
    ((check_evm_version "cancun" s).0 ≡ ok true) × ((check_evm_version "cancun" s).1.node ≡ s.node)
check_evm_version-describe_example =
    check_evm_version-describe asked_nothing (describe_capabilities asked_nothing).1 "cancun"
      "cancun" (inr (λ e. cc e)) (ap (λ r. (r, (describe_capabilities asked_nothing).1)) described)
      refl

-- base fees of 16, 18, 20, 22, 21 and 20
rising : Rises 5 16 20
rising = block {next_fee = 18} (omega arith) (
    block {next_fee = 20} (omega arith) (
      block {next_fee = 22} (omega arith)
        (block {next_fee = 21} (omega arith) (block {next_fee = 20} (omega arith) here))))

sixteen : to_int (codes "0x10") ≡ ok 16
unfolding to_int titanoboa.Rpc.Hex.int_16 titanoboa.Rpc.Hex.number titanoboa.Rpc.Hex.parse_digits
    titanoboa.Rpc.Hex.digit_value
sixteen = refl

two : to_int (codes "0x2") ≡ ok 2
unfolding to_int titanoboa.Rpc.Hex.int_16 titanoboa.Rpc.Hex.number titanoboa.Rpc.Hex.parse_digits
    titanoboa.Rpc.Hex.digit_value
two = refl

-- a base fee that has no float of its own
base_fee_rounded : base_fee_cap 9007199254740993 0 ≡ some 9007199254740992
unfolding base_fee_cap
base_fee_rounded = refl

fee_of-covers_example :
    (estimate max_fee : Text) × (e : ℕ) × (fee_of
        (
          object (field "baseFeePerGas" (text (codes "0x10")) no_fields),
          text (codes "0x2"),
          text (codes "0x1"),
        )
        (start false)
      ≡ (ok (estimate, codes "0x2", max_fee, codes "0x1"), start false))
    × (to_int estimate ≡ ok e)
    × (to_int max_fee ≡ ok (e + 2))
    × (20 ≤ e)
fee_of-covers_example =
    fee_of-covers (field "baseFeePerGas" (text (codes "0x10")) no_fields) (codes "0x10")
      (codes "0x2") (codes "0x1") 16 2 20 (start false) refl sixteen two (omega arith) (omega arith)
      rising
