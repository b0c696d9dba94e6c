-- ===== src/Env.antt =====
-- boa/environment.py: the environment of a session over one virtual machine. py-evm is the record
-- `Evm`; addresses are canonical ones, as bytes; coverage is disabled.
pub mod Calls
use titanoboa.Prelude.{
  ℕ, ◌+◌, String, Bool, Option, none, some, [], arith, if◌then◌else◌, ◌==◌, nat_eq, string_eq,
  bytes_eq, pair_eq,
}
use titanoboa.Prelude.Dict.{Dict, lookup, insert}
use titanoboa.Prelude.Result.{Result, ok, err, ◌>>=◌, ◌>>◌, or_raise}
use titanoboa.Prelude.Bytes.{Bytes}
use titanoboa.Vm.Patcher.{anchor, Patchables, AttributeError}

pub data MeterClass : Type 0 where
  gas_meter no_gas_meter profiling_gas_meter : MeterClass

-- `msg` and the transaction context
pub record Message : Type 0 where
  pub sender : Bytes
  pub to : Bytes
  pub gas : ℕ
  pub gas_price : ℕ
  pub value : ℕ
  pub bytecode : Bytes
  pub data_bytes : Bytes
  pub is_static : Bool

pub record Evm : Type 1 where
  pub State : Type 0
  pub Snapshot : Type 0
  pub VmError : Type 0
  pub snapshot : State → Snapshot × State
  pub revert : Snapshot → State → State
  pub gas_limit : State → ℕ
  pub get_code : Bytes → State → Bytes
  pub set_balance : Bytes → ℕ → State → State
  -- the address of the next contract of a sender, whose nonce is incremented
  pub generate_create_address : Bytes → State → Bytes × State
  -- the error, if there is one, the gas used and the output
  pub apply_message : MeterClass → Message → State → (Option VmError × ℕ × Bytes) × State
  pub apply_create_message : MeterClass → Message → State → (Option VmError × ℕ × Bytes) × State

pub data EnvError (E : Type 0) : Type 0 where
  eoa_not_defined one_of_seconds_or_blocks zero_division key_error : EnvError E
  evm_error : E → EnvError E
  patch_error : AttributeError → EnvError E

module _ (evm : Evm) (Contract : Type 0) where
  open evm use {State, Snapshot, VmError}

  pub record Env : Type 0 where
    pub gas_price : Option ℕ
    pub eoa : Option Bytes
    pub contracts : Dict Bytes Contract
    pub code_registry : Dict Bytes Contract
    pub aliases : Dict Bytes String
    pub gas_tracker : ℕ
    pub meter_class : MeterClass
    pub state : State
    pub patch : Patchables ℕ

  abbrev pub Outcome : Type 0 → Type 0
  Outcome A = Result (EnvError VmError) A × Env

  abbrev pub Computation : Type 0
  Computation = Option VmError × ℕ × Bytes

  abbrev or_zero : Option ℕ → ℕ
  or_zero none = 0
  or_zero (some n) = n

  unfoldable pub get_gas_price : Env → ℕ
  get_gas_price env = or_zero env.gas_price

  pub set_balance : Bytes → ℕ → Env → Env
  set_balance addr value env = record env { state = evm.set_balance addr value env.state }

  pub register_contract : Bytes → Contract → Env → Env
  register_contract address obj env =
      let bytecode = evm.get_code address env.state in
      record env {
        contracts = insert address obj env.contracts;
        code_registry = insert bytecode obj env.code_registry;
      }

  pub register_blueprint : Bytes → Contract → Env → Env
  register_blueprint bytecode obj env = record env {
    code_registry = insert bytecode obj env.code_registry;
  }

  pub lookup_contract : Bytes → Env → Option Contract
  lookup_contract address env = if address == [] then none else lookup address env.contracts

  pub alias : Bytes → String → Env → Env
  alias address name env = record env { aliases = insert address name env.aliases }

  pub lookup_alias : Bytes → Env → Result (EnvError VmError) String
  lookup_alias address env = or_raise (lookup address env.aliases) key_error

  -- `with env.sender(address)`, also named `prank`
  pub sender : {A : Type 0} → Bytes → (Env → Outcome A) → Env → Outcome A
  sender address body env =
      let (r, env') = body (record env { eoa = some address }) in (r, record env' { eoa = env.eoa })

  -- `with env.gas_meter_class(cls)`
  pub gas_meter_class : {A : Type 0} → MeterClass → (Env → Outcome A) → Env → Outcome A
  gas_meter_class cls body env =
      let (r, env') = body (record env { meter_class = cls }) in
      (r, record env' { meter_class = env.meter_class })

  -- what the `with` statement of the patcher has around it
  unpacked : {A : Type 0} → Result (EnvError VmError) (Outcome A) × Patchables ℕ → Env → Outcome A
  unpacked (err x, ps) env = (err x, record env { patch = ps })
  unpacked (ok (r, env'), ps) env = (r, record env' { patch = ps })

  patch_anchor : {A : Type 0} → (Env → Outcome A) → Env → Outcome A
  unfolding unpacked
  patch_anchor body env =
      unpacked
        (anchor patch_error (λ ps. let o = body (record env { patch = ps }) in (ok o, o.1.patch))
          env.patch)
        env

  -- `_anchor`
  unfoldable pub env_anchor : {A : Type 0} → (Env → Outcome A) → Env → Outcome A
  unfolding patch_anchor
  env_anchor body env =
      let (snapshot_id, state) = evm.snapshot env.state in
      let (r, env') = patch_anchor body (record env { state = state }) in
      (r, record env' { state = evm.revert snapshot_id env'.state })

  abbrev default_sender : Option Bytes → Bytes → Bytes
  default_sender none eoa = eoa
  default_sender (some s) eoa = s

  -- `_get_sender`: without an `eoa` it raises, also where a sender is given
  unfoldable pub get_sender : Option Bytes → Env → Result (EnvError VmError) Bytes
  get_sender given env = do eoa ← or_raise env.eoa eoa_not_defined; ok (default_sender given eoa)

  -- `if computation._gas_meter_class != NoGasMeter: self._update_gas_used(...)`
  unfoldable pub update_gas_used : ℕ → Env → Env
  update_gas_used gas_used env = record env {
    gas_tracker = elim env.meter_class [
      | no_gas_meter ↦ env.gas_tracker
      | _ ↦ env.gas_tracker + gas_used
    ];
  }

  raise_or : {A : Type 0} → Option VmError → A → Result (EnvError VmError) A
  raise_or none a = ok a
  raise_or (some x) a = err (evm_error x)
