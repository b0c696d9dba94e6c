-- ===== src/Env/Calls/Session.antt =====
-- boa/environment.py: sessions of calls in nested contexts.
use titanoboa.Prelude.{
  ℕ, ◌+◌, ◌*◌, ◌/◌, String, ◌≡◌, refl, ◌∙◌, inl, inr, Bool, true, false, Option, none, some, arith,
  nat_beq, Bool-cases, nat_eq, string_eq, bytes_eq, pair_eq,
}
use titanoboa.Prelude.Result.{ok, err, Result-cases}
use titanoboa.Prelude.Bytes.{Bytes}
use titanoboa.Env.Calls.{
  call_message, and_then, created, sent, entered, executed, Call, Deployment, execute_code, deploy,
  time_travel, travel, add_to_patch,
}
use titanoboa.Env.{
  Computation, get_sender, unpacked, Message, update_gas_used, gas_meter_class, sender, env_anchor,
  patch_anchor, Env, Outcome, Evm, MeterClass, gas_meter, no_gas_meter, profiling_gas_meter,
}
use titanoboa.Vm.Patcher.{get_attr, attrs, save, anchor}

-- What a script does with an environment: calls, deployments and time travel, the three context
-- managers with their bodies, and `try` with a body whose exception is caught; each with the
-- statements that follow.
pub data Script : Type 0 where
  done : Script
  call_then : Call → Script → Script
  deploy_then : Deployment → Script → Script
  travel_then : Option ℕ → Option ℕ → ℕ → Script → Script
  with_sender : Bytes → Script → Script → Script
  with_meter : MeterClass → Script → Script → Script
  with_anchor : Script → Script → Script
  try_then : Script → Script → Script

module _ (evm : Evm) (Contract : Type 0) where
  -- an exception ends the script, a result lets it go on
  after :
      {A : Type 0}
      → Outcome evm Contract A
      → (Env evm Contract → Outcome evm Contract (Unit {0}))
      → Outcome evm Contract (Unit {0})
  after (err x, env) k = (err x, env)
  after (ok _, env) k = k env

  pub run : Script → Env evm Contract → Outcome evm Contract (Unit {0})
  unfolding after
  run done env = (ok tt, env)
  run (call_then call rest) env = after (execute_code evm Contract call env) (run rest)
  run (deploy_then d rest) env = after (deploy evm Contract d env) (run rest)
  run (travel_then seconds blocks delta rest) env =
      after (time_travel evm Contract seconds blocks delta env) (run rest)
  run (with_sender address body rest) env =
      after (sender evm Contract address (run body) env) (run rest)
  run (with_meter cls body rest) env =
      after (gas_meter_class evm Contract cls (run body) env) (run rest)
  run (with_anchor body rest) env = after (env_anchor evm Contract (run body) env) (run rest)
  run (try_then body rest) env = run rest (run body env).1

  -- the gas of a computation that is metered
  abbrev metered : Env evm Contract → ℕ → ℕ
  metered env gas_used = elim env.meter_class [ no_gas_meter ↦ 0 | _ ↦ gas_used ]

  -- the gas that a call used, or a deployment, by the computation that it returned
  abbrev call_gas : Env evm Contract → Outcome evm Contract (Computation evm Contract) → ℕ
  call_gas env (ok ret, _) = metered env ret.1
  call_gas env (err x, _) = 0

  abbrev deploy_gas : Env evm Contract → Outcome evm Contract (Bytes × Computation evm Contract) → ℕ
  deploy_gas env (ok (_, ret), _) = metered env ret.1
  deploy_gas env (err x, _) = 0

  -- of what follows, if it is reached
  abbrev later : {A : Type 0} → Outcome evm Contract A → (Env evm Contract → ℕ) → ℕ
  later (err x, env) gas = 0
  later (ok _, env) gas = gas env

  -- of the body of an anchor, which is not reached where an attribute cannot be read
  abbrev in_patch : Env evm Contract → (Env evm Contract → ℕ) → ℕ
  in_patch env gas = elim (save (attrs env.patch) env.patch) [ ok _ ↦ gas env | err _ ↦ 0 ]

  abbrev in_anchor : Env evm Contract → (Env evm Contract → ℕ) → ℕ
  in_anchor env gas = in_patch (record env { state = (evm.snapshot env.state).1 }) gas

  -- the gas that the calls and deployments of a script used, summed over the computations that they
  -- returned under a meter, whether an anchor reverted them or not
  pub gas_of : Script → Env evm Contract → ℕ
  gas_of done env = 0
  gas_of (call_then call rest) env =
      let o = execute_code evm Contract call env in call_gas env o + later o (gas_of rest)
  gas_of (deploy_then d rest) env =
      let o = deploy evm Contract d env in deploy_gas env o + later o (gas_of rest)
  gas_of (travel_then seconds blocks delta rest) env =
      later (time_travel evm Contract seconds blocks delta env) (gas_of rest)
  gas_of (with_sender address body rest) env =
      gas_of body (record env { eoa = some address })
      + later (sender evm Contract address (run body) env) (gas_of rest)
  gas_of (with_meter cls body rest) env =
      gas_of body (record env { meter_class = cls })
      + later (gas_meter_class evm Contract cls (run body) env) (gas_of rest)
  gas_of (with_anchor body rest) env =
      in_anchor env (gas_of body) + later (env_anchor evm Contract (run body) env) (gas_of rest)
  gas_of (try_then body rest) env = gas_of body env + gas_of rest (run body env).1

  -- what a script leaves alone: the default sender and the gas meter; and the gas that it adds
  pub record Kept (env env' : Env evm Contract) (n : ℕ) : Type 0 where
    pub eoa : env'.eoa ≡ env.eoa
    pub meter : env'.meter_class ≡ env.meter_class
    pub gas : env'.gas_tracker ≡ env.gas_tracker + n

  Kept-refl : (env : Env evm Contract) → Kept env env 0
  Kept-refl env = record { eoa = refl; meter = refl; gas = omega arith }

  Kept-trans :
      {env env' env'' : Env evm Contract} {n k : ℕ}
      → Kept env env' n
      → Kept env' env'' k
      → Kept env env'' (n + k)
  Kept-trans p q = record {
    eoa = q.eoa ∙ p.eoa;
    meter = q.meter ∙ p.meter;
    gas = omega (arith, p.gas, q.gas);
  }

  Kept-as : {env env' : Env evm Contract} {n k : ℕ} → n ≡ k → Kept env env' n → Kept env env' k
  Kept-as e p = record { eoa = p.eoa; meter = p.meter; gas = omega (arith, e, p.gas) }

  after-Kept :
      {A : Type 0} (env : Env evm Contract) (n : ℕ) (o : Outcome evm Contract A)
      (k : Env evm Contract → Outcome evm Contract (Unit {0})) (gas : Env evm Contract → ℕ)
      → Kept env o.1 n
      → ((e : Env evm Contract) → Kept e (k e).1 (gas e))
      → Kept env (after o k).1 (n + later o gas)
  unfolding after
  after-Kept env n (err x, e) k gas h next = Kept-as (omega arith) h
  after-Kept env n (ok a, e) k gas h next = Kept-trans h (next e)

  metered_more :
      (cls : MeterClass) (n gas : ℕ)
      → elim cls [ no_gas_meter ↦ n | _ ↦ n + gas ] ≡ n + elim cls [ no_gas_meter ↦ 0 | _ ↦ gas ]
  metered_more gas_meter n gas = refl
  metered_more no_gas_meter n gas = omega arith
  metered_more profiling_gas_meter n gas = refl

  executed-Kept :
      (msg : Message) (env : Env evm Contract)
      → Kept env (executed evm Contract msg env).1 (call_gas env (executed evm Contract msg env))
  unfolding executed update_gas_used
  executed-Kept msg env = record {
    eoa = refl;
    meter = refl;
    gas = metered_more env.meter_class env.gas_tracker _;
  }

  patched-Kept :
      {A : Type 0} (body : Env evm Contract → Outcome evm Contract A) (gas : Env evm Contract → ℕ)
      (env : Env evm Contract)
      → ((e : Env evm Contract) → Kept e (body e).1 (gas e))
      → Kept env (patch_anchor evm Contract body env).1 (in_patch env gas)
  unfolding patch_anchor anchor unpacked
  patched-Kept body gas env h = elim (Result-cases (save (attrs env.patch) env.patch)) [
    | inr (x, e) ↦ rw (e, anchor, in_patch) (record { eoa = refl; meter = refl; gas = omega arith })
    | inl (snap, e) ↦
        let k = h env in
        rw (e, anchor, in_patch) (record { eoa = k.eoa; meter = k.meter; gas = k.gas })
  ]

  anchored-Kept :
      {A : Type 0} (body : Env evm Contract → Outcome evm Contract A) (gas : Env evm Contract → ℕ)
      (env : Env evm Contract)
      → ((e : Env evm Contract) → Kept e (body e).1 (gas e))
      → Kept env (env_anchor evm Contract body env).1 (in_anchor env gas)
  unfolding env_anchor
  anchored-Kept body gas env h =
      let k = patched-Kept body gas (record env { state = (evm.snapshot env.state).1 }) h in
      record { eoa = k.eoa; meter = k.meter; gas = k.gas }

  -- a simulated call returns the computation of its body
  anchored_gas :
      (msg : Message) (env : Env evm Contract)
      → in_anchor env (λ e. call_gas e (executed evm Contract msg e))
        ≡ call_gas env (env_anchor evm Contract (executed evm Contract msg) env)
  unfolding env_anchor patch_anchor anchor unpacked executed
  anchored_gas msg env = elim (Result-cases (save (attrs env.patch) env.patch)) [
    | inr (x, e) ↦ rw (e, anchor, in_patch) refl
    | inl (snap, e) ↦ rw (e, anchor, in_patch) refl
  ]

  entered-Kept :
      (simulate : Bool) (msg : Message) (env : Env evm Contract)
      → let o = entered evm Contract simulate (executed evm Contract msg) env in
        Kept env o.1 (call_gas env o)
  unfolding entered
  entered-Kept true msg env = Kept-as (anchored_gas msg env) (
      anchored-Kept (executed evm Contract msg) (λ e. call_gas e (executed evm Contract msg e)) env
        (executed-Kept msg))
  entered-Kept false msg env = executed-Kept msg env

  call-Kept :
      (call : Call) (env : Env evm Contract)
      → let o = execute_code evm Contract call env in Kept env o.1 (call_gas env o)
  unfolding execute_code sent
  call-Kept call env = elim (Result-cases (get_sender evm Contract call.sender env)) [
    | inr (x, e) ↦ rw (e, sent) (Kept-refl env)
    | inl (s, e) ↦
        rw (e, sent) (entered-Kept call.simulate (call_message evm Contract call s env) env)
  ]

  deploy-Kept :
      (d : Deployment) (env : Env evm Contract)
      → let o = deploy evm Contract d env in Kept env o.1 (deploy_gas env o)
  unfolding deploy created update_gas_used
  deploy-Kept d env = elim (Result-cases (get_sender evm Contract d.sender env)) [
    | inr (x, e) ↦ rw (e, created) (Kept-refl env)
    | inl (s, e) ↦
        rw (e, created)
          (record {
            eoa = refl;
            meter = refl;
            gas = metered_more env.meter_class env.gas_tracker _;
          })
  ]

  patch-Kept :
      (attr : String) (n : ℕ) (env : Env evm Contract)
      → Kept env (add_to_patch evm Contract attr n env).1 0
  unfolding add_to_patch
  patch-Kept attr n env = elim (Result-cases (get_attr attr env.patch)) [
    | inr (x, e) ↦ rw (e, add_to_patch) (Kept-refl env)
    | inl (v, e) ↦ rw (e, add_to_patch) (record { eoa = refl; meter = refl; gas = omega arith })
  ]

  and_then-Kept :
      (env : Env evm Contract) (o : Outcome evm Contract (Unit {0}))
      (k : Env evm Contract → Outcome evm Contract (Unit {0}))
      → Kept env o.1 0
      → ((e : Env evm Contract) → Kept e (k e).1 0)
      → Kept env (and_then evm Contract o k).1 0
  unfolding and_then
  and_then-Kept env (err x, e) k h next = h
  and_then-Kept env (ok a, e) k h next = Kept-trans h (next e)

  travel-Kept :
      (seconds blocks : ℕ) (env : Env evm Contract)
      → Kept env (travel evm Contract seconds blocks env).1 0
  unfolding travel
  travel-Kept seconds blocks env =
      and_then-Kept env (add_to_patch evm Contract "timestamp" seconds env)
        (add_to_patch evm Contract "block_number" blocks) (patch-Kept "timestamp" seconds env)
        (patch-Kept "block_number" blocks)

  time_travel-Kept :
      (seconds blocks : Option ℕ) (delta : ℕ) (env : Env evm Contract)
      → Kept env (time_travel evm Contract seconds blocks delta env).1 0
  unfolding time_travel
  time_travel-Kept none none delta env = Kept-refl env
  time_travel-Kept (some s) (some b) delta env = Kept-refl env
  time_travel-Kept (some s) none delta env = elim (Bool-cases (nat_beq delta 0)) [
    | inl zero_delta ↦ rw zero_delta (Kept-refl env)
    | inr positive ↦ rw positive (travel-Kept s (s / delta) env)
  ]
  time_travel-Kept none (some b) delta env = travel-Kept (b * delta) b env

  -- However its contexts nest and whichever of its statements raise, a script leaves the default
  -- sender and the gas meter as they were, and the gas tracker grows by the gas of every computation
  -- that a call or a deployment returned under a meter, also of those that an anchor reverts.
  pub run-Kept :
      (script : Script) (env : Env evm Contract) → Kept env (run script env).1 (gas_of script env)
  unfolding run sender gas_meter_class gas_of
  run-Kept done env = Kept-refl env
  run-Kept (call_then call rest) env =
      let o = execute_code evm Contract call env in
      after-Kept env (call_gas env o) o (run rest) (gas_of rest) (call-Kept call env)
        (run-Kept rest)
  run-Kept (deploy_then d rest) env =
      let o = deploy evm Contract d env in
      after-Kept env (deploy_gas env o) o (run rest) (gas_of rest) (deploy-Kept d env)
        (run-Kept rest)
  run-Kept (travel_then seconds blocks delta rest) env = Kept-as (omega arith) (
      after-Kept env 0 (time_travel evm Contract seconds blocks delta env) (run rest) (gas_of rest)
        (time_travel-Kept seconds blocks delta env) (run-Kept rest))
  run-Kept (with_sender address body rest) env =
      let inner : Env evm Contract = record env { eoa = some address } in
      let k = run-Kept body inner in
      after-Kept env (gas_of body inner) (sender evm Contract address (run body) env) (run rest)
        (gas_of rest) (record { eoa = refl; meter = k.meter; gas = k.gas }) (run-Kept rest)
  run-Kept (with_meter cls body rest) env =
      let inner : Env evm Contract = record env { meter_class = cls } in
      let k = run-Kept body inner in
      after-Kept env (gas_of body inner) (gas_meter_class evm Contract cls (run body) env)
        (run rest) (gas_of rest) (record { eoa = k.eoa; meter = refl; gas = k.gas }) (run-Kept rest)
  run-Kept (with_anchor body rest) env =
      after-Kept env (in_anchor env (gas_of body)) (env_anchor evm Contract (run body) env)
        (run rest) (gas_of rest) (anchored-Kept (run body) (gas_of body) env (run-Kept body))
        (run-Kept rest)
  run-Kept (try_then body rest) env =
      Kept-trans (run-Kept body env) (run-Kept rest (run body env).1)
