-- ===== src/Env/Calls.antt =====
-- boa/environment.py: calls, deployments and time travel.
pub mod Session
pub mod Simulate
pub mod TimeTravel
use titanoboa.Prelude.{
  ℕ, ◌+◌, ◌*◌, ◌/◌, String, Bool, true, false, not, Option, none, some, [], arith, nat_beq,
  if◌then◌else◌, nat_eq, string_eq, bytes_eq, pair_eq,
}
use titanoboa.Prelude.Result.{Result, ok, err}
use titanoboa.Prelude.Bytes.{Bytes}
use titanoboa.Env.{
  zero_division, patch_error, raise_or, get_sender, env_anchor, update_gas_used,
  one_of_seconds_or_blocks, Computation, get_gas_price, Outcome, EnvError, Message, Env, Evm,
}
use titanoboa.Vm.Patcher.{set_attr, get_attr}

-- the arguments of `execute_code` that the machine or the environment reads
pub record Call : Type 0 where
  pub to_address : Bytes
  pub sender : Option Bytes
  pub gas : Option ℕ
  pub value : ℕ
  pub data_bytes : Bytes
  pub override_bytecode : Option Bytes
  pub is_modifying : Bool
  pub simulate : Bool

pub record Deployment : Type 0 where
  pub sender : Option Bytes
  pub gas : Option ℕ
  pub value : ℕ
  pub bytecode : Bytes
  pub override_address : Option Bytes

module _ {ℓ} {A : Type ℓ} where
  abbrev pub or_default : Option A → A → A
  or_default none a = a
  or_default (some x) a = x

module _ (evm : Evm) (Contract : Type 0) where
  unfoldable pub call_message : Call → Bytes → Env evm Contract → Message
  call_message call sender env = record {
    sender = sender;
    to = call.to_address;
    gas = or_default call.gas (evm.gas_limit env.state);
    gas_price = get_gas_price evm Contract env;
    value = call.value;
    bytecode = or_default call.override_bytecode (evm.get_code call.to_address env.state);
    data_bytes = call.data_bytes;
    is_static = not call.is_modifying;
  }

  -- the body of the `with` statement
  unfoldable pub executed :
      Message → Env evm Contract → Outcome evm Contract (Computation evm Contract)
  executed msg env =
      let (ret, state) = evm.apply_message env.meter_class msg env.state in
      (ok ret, update_gas_used evm Contract ret.1 (record env { state = state }))

  entered :
      Bool
      → (Env evm Contract → Outcome evm Contract (Computation evm Contract))
      → Env evm Contract
      → Outcome evm Contract (Computation evm Contract)
  entered true body env = env_anchor evm Contract body env
  entered false body env = body env

  sent :
      Call
      → Result (EnvError evm.VmError) Bytes
      → Env evm Contract
      → Outcome evm Contract (Computation evm Contract)
  unfolding entered
  sent call (err x) env = (err x, env)
  sent call (ok sender) env = entered call.simulate (executed (call_message call sender env)) env

  unfoldable pub execute_code :
      Call → Env evm Contract → Outcome evm Contract (Computation evm Contract)
  unfolding sent
  execute_code call env = sent call (get_sender evm Contract call.sender env) env

  raised :
      Outcome evm Contract (Computation evm Contract)
      → Outcome evm Contract (Computation evm Contract)
  raised (err x, env) = (err x, env)
  raised (ok ret, env) = (raise_or evm Contract ret.0 ret, env)

  pub raw_call : Call → Env evm Contract → Outcome evm Contract (Computation evm Contract)
  unfolding raised
  raw_call call env =
      raised (execute_code (record call { is_modifying = true; override_bytecode = none }) env)

  -- the target, and the state with the sender's nonce incremented where it is not overridden
  target_of : Option Bytes → Bytes → evm.State → Bytes × evm.State
  target_of none sender state = evm.generate_create_address sender state
  target_of (some address) sender state = (address, state)

  created :
      Deployment
      → Result (EnvError evm.VmError) Bytes
      → Env evm Contract
      → Outcome evm Contract (Bytes × Computation evm Contract)
  unfolding target_of
  created d (err x) env = (err x, env)
  created d (ok sender) env =
      let (target, state) = target_of d.override_address sender env.state in
      let msg : Message = record {
        sender = sender;
        to = target;
        gas = or_default d.gas (evm.gas_limit state);
        gas_price = get_gas_price evm Contract env;
        value = d.value;
        bytecode = d.bytecode;
        data_bytes = [];
        is_static = false;
      } in
      let (ret, state') = evm.apply_create_message env.meter_class msg state in
      (ok (target, ret), update_gas_used evm Contract ret.1 (record env { state = state' }))

  unfoldable pub deploy :
      Deployment → Env evm Contract → Outcome evm Contract (Bytes × Computation evm Contract)
  unfolding created
  deploy d env = created d (get_sender evm Contract d.sender env) env

  deployed :
      Outcome evm Contract (Bytes × Computation evm Contract) → Outcome evm Contract (Bytes × Bytes)
  deployed (err x, env) = (err x, env)
  deployed (ok (address, (error, gas_used, output)), env) =
      (raise_or evm Contract error (address, output), env)

  pub deploy_code : Deployment → Env evm Contract → Outcome evm Contract (Bytes × Bytes)
  unfolding deployed
  deploy_code d env = deployed (deploy d env)

  -- `self.evm.patch.<attr> += amount`
  pub add_to_patch : String → ℕ → Env evm Contract → Outcome evm Contract (Unit {0})
  add_to_patch attr amount env = elim (get_attr attr env.patch) [
    | err x ↦ (err (patch_error x), env)
    | ok v ↦ (ok tt, record env { patch = set_attr attr (v + amount) env.patch })
  ]

  and_then :
      Outcome evm Contract (Unit {0})
      → (Env evm Contract → Outcome evm Contract (Unit {0}))
      → Outcome evm Contract (Unit {0})
  and_then (err x, env) k = (err x, env)
  and_then (ok _, env) k = k env

  pub travel : ℕ → ℕ → Env evm Contract → Outcome evm Contract (Unit {0})
  unfolding and_then
  travel seconds blocks env =
      and_then (add_to_patch "timestamp" seconds env) (add_to_patch "block_number" blocks)

  -- for seconds, blocks and a block delta that are not negative
  pub time_travel : Option ℕ → Option ℕ → ℕ → Env evm Contract → Outcome evm Contract (Unit {0})
  time_travel none none block_delta env = (err one_of_seconds_or_blocks, env)
  time_travel (some _) (some _) block_delta env = (err one_of_seconds_or_blocks, env)
  time_travel (some seconds) none block_delta env =
      if nat_beq block_delta 0
      then (err zero_division, env)
      else travel seconds (seconds / block_delta) env
  time_travel none (some blocks) block_delta env = travel (blocks * block_delta) blocks env
