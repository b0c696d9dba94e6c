-- ===== src/Tests/Session.antt =====
-- boa/environment.py and `VMPatcher` at concrete inputs.
use titanoboa.Prelude.{
  ℕ, ◌+◌, String, ◌≡◌, refl, true, false, none, some, [], ◌∷◌, arith, nat_eq, string_eq, bytes_eq,
  pair_eq,
}
use titanoboa.Prelude.Dict.{lookup}
use titanoboa.Prelude.Result.{Result, ok, err}
use titanoboa.Vm.Patcher.{attribute, save, attrs, get_attr, anchor, Patchables, AttributeError}
use titanoboa.Vm.Patcher.Anchor.{Injective, tables, anchor-get_attr}
use titanoboa.Env.{Env, Evm, gas_meter, no_gas_meter, one_of_seconds_or_blocks}
use titanoboa.Env.Calls.Simulate.{execute_code-simulate, IsPatched, IsReverting}
use titanoboa.Env.Calls.{Call, time_travel, execute_code}
use titanoboa.Env.Calls.Session.{
  gas_of, with_meter, travel_then, done, call_then, run-Kept, with_anchor, run, with_sender, Kept,
  Script,
}
use titanoboa.Env.Calls.TimeTravel.{time_travel-Travelled, Travelled}

single-Injective :
    (k n a b name : String)
    → lookup a ((k, n) ∷ []) ≡ some name
    → lookup b ((k, n) ∷ []) ≡ some name
    → a ≡ b
single-Injective k n a b name p q = ground (arith, string_eq.beq_iff k a, string_eq.beq_iff k b)

abbrev patched : Patchables ℕ
patched =
    (("timestamp", "_timestamp") ∷ [], ("_timestamp", 1000) ∷ [])
    ∷ (("block_number", "_block_number") ∷ [], ("_block_number", 7) ∷ [])
    ∷ []

patched-Injective : Injective (tables patched)
patched-Injective = (
  single-Injective "timestamp" "_timestamp",
  (single-Injective "block_number" "_block_number", tt),
)

abbrev later : Patchables ℕ → Result AttributeError (Unit {0}) × Patchables ℕ
later ps = (
  ok tt,
  (("timestamp", "_timestamp") ∷ [], ("_timestamp", 5000) ∷ [])
      ∷ (("block_number", "_block_number") ∷ [], ("_block_number", 9) ∷ [])
      ∷ [],
)

anchor-get_attr_example :
    get_attr "timestamp" (anchor (λ x. x) later patched).1 ≡ get_attr "timestamp" patched
anchor-get_attr_example = anchor-get_attr (λ x. x) later patched patched-Injective refl "timestamp"

-- a machine whose state is one number, which calls and nonces increase
abbrev counter : Evm
counter = record {
  State = ℕ;
  Snapshot = ℕ;
  VmError = String;
  snapshot = λ s. (s, s);
  revert = λ c s. c;
  gas_limit = λ s. 30000000;
  get_code = λ address s. 1 ∷ [];
  set_balance = λ address value s. s + value;
  generate_create_address = λ address s. (s ∷ address, s + 1);
  apply_message = λ cls msg s. ((none, 21000, msg.data_bytes), s + msg.value);
  apply_create_message = λ cls msg s. ((none, 53000, msg.bytecode), s + msg.value);
}

counter-IsReverting : IsReverting counter
counter-IsReverting = record { snapshot_same = λ s. refl; revert-snapshot = λ s t h. refl }

abbrev session : Env counter String
session = record {
  gas_price = none;
  eoa = some (9 ∷ []);
  contracts = [];
  code_registry = [];
  aliases = [];
  gas_tracker = 0;
  meter_class = gas_meter;
  state = 3;
  patch = patched;
}

session-IsPatched : IsPatched counter String session
unfolding attrs save get_attr attribute
session-IsPatched = (("timestamp", 1000) ∷ ("block_number", 7) ∷ [], refl)

abbrev transfer : Call
transfer = record {
  to_address = 4 ∷ [];
  sender = none;
  gas = none;
  value = 10;
  data_bytes = 1 ∷ 2 ∷ [];
  override_bytecode = none;
  is_modifying = true;
  simulate = false;
}

execute_code-simulate_example :
    let o = execute_code counter String (record transfer { simulate = true }) session in
    let p = execute_code counter String transfer session in
    (o.0 ≡ p.0)
    × (o.1.state ≡ 3)
    × ((b : String) → get_attr b o.1.patch ≡ get_attr b patched)
    × (o.1.gas_tracker ≡ p.1.gas_tracker)
execute_code-simulate_example =
    execute_code-simulate counter String counter-IsReverting transfer session patched-Injective
      session-IsPatched

abbrev script : Script
script =
    with_sender (5 ∷ []) (with_anchor (call_then transfer done) (travel_then none none 12 done))
      (with_meter no_gas_meter (call_then transfer done) done)

run-Kept_example :
    Kept counter String session
      (run counter String script session).1
      (gas_of counter String script session)
run-Kept_example = run-Kept counter String script session

now : get_attr "timestamp" patched ≡ ok 1000
unfolding get_attr attribute
now = refl

at_block : get_attr "block_number" patched ≡ ok 7
unfolding get_attr attribute
at_block = refl

time_travel-Travelled_example :
    Travelled counter String 1000 25 7 2 (time_travel counter String (some 25) none 12 session)
    × Travelled counter String 1000 300 7 25 (time_travel counter String none (some 25) 12 session)
    × (time_travel counter String (some 25) (some 25) 12 session
        ≡ (err one_of_seconds_or_blocks, session))
    × (time_travel counter String none none 12 session ≡ (err one_of_seconds_or_blocks, session))
time_travel-Travelled_example =
    time_travel-Travelled counter String 25 25 12 1000 7 session (omega arith) patched-Injective now
      at_block
