-- ===== src/Tests/Node.antt =====
-- A toy node for the environment of boa/network.py.
use titanoboa.Prelude.{
  ℕ, ◌+◌, String, Bool, false, Option, none, some, List, [], ◌∷◌, ◌++◌, nat_beq, if◌then◌else◌,
  length, get_elem?, ◌==◌, nat_eq, string_eq, bytes_eq, pair_eq, true,
}
use titanoboa.Prelude.Result.{Result, ok, err}
use titanoboa.Rpc.Hex.{codes, Text, to_bytes}
use titanoboa.Env.{Evm, gas_meter}
use titanoboa.Network.{
  no_fields, signing, field, rpc_error, text, NetworkEnv, object, Params, Json, RpcFailure, World,
}
use titanoboa.Prelude.Int.{pos, int_eq}

-- a node with the texts that were sent to it, the snapshots of them, and whether its estimates fail
pub record Node : Type 0 where
  pub sent : List Text
  pub snapshots : List (List Text)
  pub fails : Bool

abbrev pub answer : Text → Node → Result RpcFailure Json × Node
answer t n = (ok (text t), n)

-- the place of a snapshot is its id
abbrev pub revert_to : Option (List Text) → Node → Node
revert_to none n = n
revert_to (some texts) n = record n { sent = texts }

abbrev pub snapshot_of : Json → Node → Option (List Text)
snapshot_of (text (i ∷ [])) n = get_elem? n.snapshots i
snapshot_of _ n = none

abbrev pub sent_raw : Params → Node → Node
sent_raw (text raw ∷ []) n = record n { sent = raw ∷ n.sent }
sent_raw _ n = n

abbrev pub revert_node : Params → Node → Node
revert_node (snapshot_id ∷ []) n = revert_to (snapshot_of snapshot_id n) n
revert_node _ n = n

abbrev pub respond : String → Params → Node → Result RpcFailure Json × Node
respond method params n =
    if method == "eth_sendRawTransaction"
    then answer (codes "0xaa") (sent_raw params n)
    else if method == "evm_revert"
    then answer (codes "0x1") (revert_node params n)
    else if method == "evm_snapshot"
    then answer (length n.snapshots ∷ []) (record n { snapshots = n.snapshots ++ n.sent ∷ [] })
    else if method == "eth_estimateGas"
    then (if n.fails then err (rpc_error (pos 3)) else ok (text (codes "0x5208")), n)
    else if method == "debug_traceTransaction"
    then (ok (object (field "output" (text (codes "0x07")) no_fields)), n)
    else answer (codes "0x2a") n

abbrev pub receipt : Json
receipt = object (
    field "status" (text (codes "0x1")) (
      field "blockHash" (text (codes "0xbb")) (field "blockNumber" (text (codes "0x9")) no_fields)))

abbrev pub counter : Evm
counter = record {
  State = ℕ;
  Snapshot = ℕ;
  VmError = String;
  snapshot = λ s. (s, s);
  revert = λ c s. c;
  gas_limit = λ s. 30000000;
  get_code = λ address s. 1 ∷ [];
  set_balance = λ address value s. s + value;
  generate_create_address = λ address s. (s ∷ address, s + 1);
  apply_message = λ cls msg s. (
    (if nat_beq msg.value 99 then some "out of funds" else none, 21000, msg.data_bytes),
    s + msg.value,
  );
  apply_create_message = λ cls msg s. ((none, 53000, msg.bytecode), s + msg.value);
}

instance abbrev pub toy : World
toy = record {
  evm = counter;
  Contract = String;
  NodeState = Node;
  erases_return_data = λ x. true;
  rpc_name = codes "toy";
  fetch = respond;
  fetch_uncached = respond;
  fetch_multi = λ requests n. (
    ok (
        object (field "baseFeePerGas" (text (codes "0x10")) no_fields)
        ∷ (text (codes "0x2") ∷ (text (codes "0x1") ∷ []))),
    n,
  );
  wait_for_tx_receipt = λ tx_hash timeout n. (ok receipt, n);
  fork_rpc = λ block machine n. (ok machine, n);
  checksum = λ address. codes "0x00";
  canonical = λ t. to_bytes t;
  contract_name = λ c. none;
  filename = λ c. none;
  bundle = λ c. ok none;
  abi = λ c. none;
}

abbrev pub start : Bool → NetworkEnv
start fails = record {
  base = record {
    gas_price = none;
    eoa = some (9 ∷ []);
    contracts = [];
    code_registry = [];
    aliases = [];
    gas_tracker = 0;
    meter_class = gas_meter;
    state = 3;
    patch = (("block_number", "_block_number") ∷ [], ("_block_number", 7) ∷ []) ∷ [];
  };
  node = record { sent = []; snapshots = []; fails = fails };
  accounts = (9 ∷ [], signing (λ tx_data. 5 ∷ 6 ∷ [])) ∷ [];
  tx_settings = record {
    base_fee_estimator_constant = 5;
    poll_timeout = 240;
    estimate_gas_block_identifier = some (codes "pending");
  };
  tracer = none;
  rpc_has_snapshot = none;
  suppress_debug_tt = false;
  deployments_db = none;
  warnings = [];
}
