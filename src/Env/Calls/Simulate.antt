-- ===== src/Env/Calls/Simulate.antt =====
-- boa/environment.py: a simulated call answers like a call and leaves no trace but its gas.
use titanoboa.Prelude.{
  ℕ, String, ◌≡◌, refl, inl, inr, true, false, nat_eq, string_eq, bytes_eq, pair_eq, ap,
}
use titanoboa.Prelude.Dict.{Dict}
use titanoboa.Prelude.Result.{ok, Result-cases}
use titanoboa.Env.{
  get_sender, unpacked, update_gas_used, Computation, patch_anchor, Message, env_anchor, Outcome,
  Env, MeterClass, Evm,
}
use titanoboa.Env.Calls.{call_message, Call, entered, sent, execute_code, executed}
use titanoboa.Vm.Patcher.{anchor, get_attr, AttributeError, attrs, restore, save}
use titanoboa.Vm.Patcher.Anchor.{anchor-get_attr, tables, Injective}
use mathlib.Core.Path.{subst}

-- The states that the environment reaches from a state by the machine's operations.
pub data Follows (evm : Evm) : evm.State → evm.State → Type 0 where
  same : (s : evm.State) → Follows evm s s
  messaged :
      (s t : evm.State) (cls : MeterClass) (msg : Message)
      → Follows evm s t
      → Follows evm s (evm.apply_message cls msg t).1

-- What the environment relies on in py-evm: a snapshot changes nothing, and to revert to it
-- undoes what was done since.
pub record IsReverting (evm : Evm) : Type 0 where
  pub snapshot_same : (s : evm.State) → (evm.snapshot s).1 ≡ s
  pub revert-snapshot :
      (s t : evm.State) → Follows evm (evm.snapshot s).1 t → evm.revert (evm.snapshot s).0 t ≡ s

module _ (evm : Evm) (Contract : Type 0) where
  -- every attribute of the patcher exists
  abbrev pub IsPatched : Env evm Contract → Type 0
  IsPatched env = (snap : Dict String ℕ) × (save (attrs env.patch) env.patch ≡ ok snap)

  -- the environment as a context leaves it, with the body's outcome
  abbrev after_anchor :
      {A : Type 0} → evm.Snapshot → Dict String ℕ → Outcome evm Contract A → Outcome evm Contract A
  after_anchor c snap o =
      (o.0, record o.1 { patch = restore snap o.1.patch; state = evm.revert c o.1.state })

  env_anchor_lem :
      {A : Type 0} (body : Env evm Contract → Outcome evm Contract A) (env : Env evm Contract)
      (snap : Dict String ℕ)
      → save (attrs env.patch) env.patch ≡ ok snap
      → env_anchor evm Contract body env
        ≡ after_anchor
            (evm.snapshot env.state).0
            snap
            (body (record env { state = (evm.snapshot env.state).1 }))
  unfolding env_anchor anchor patch_anchor unpacked
  env_anchor_lem body env snap e = rw (e, anchor)

  pub restored :
      (env : Env evm Contract) (snap : Dict String ℕ) (b : String)
      → Injective (tables env.patch)
      → save (attrs env.patch) env.patch ≡ ok snap
      → get_attr b (restore snap env.patch) ≡ get_attr b env.patch
  unfolding anchor
  restored env snap b inj e =
      subst (λ ps. get_attr b ps ≡ get_attr b env.patch) (rw (e, anchor))
        (anchor-get_attr {E = AttributeError} {A = Unit {0}} (λ x. x) (λ ps. (ok tt, ps)) env.patch
          inj refl b)

module _ (evm : Evm) (Contract : Type 0) (reverting : IsReverting evm) where
  Simulates : (o p : Outcome evm Contract (Computation evm Contract)) → Env evm Contract → Type 0
  Simulates o p env =
      (o.0 ≡ p.0)
      × (o.1.state ≡ env.state)
      × ((b : String) → get_attr b o.1.patch ≡ get_attr b env.patch)
      × (o.1.gas_tracker ≡ p.1.gas_tracker)

  anchored-Simulates :
      (msg : Message) (env : Env evm Contract)
      → Injective (tables env.patch)
      → IsPatched evm Contract env
      → Simulates
          (env_anchor evm Contract (executed evm Contract msg) env)
          (executed evm Contract msg env)
          env
  unfolding Simulates executed update_gas_used
  anchored-Simulates msg env inj (snap, e) =
      let c = (evm.snapshot env.state).0 in
      let s = (evm.snapshot env.state).1 in
      let unchanged : s ≡ env.state = reverting.snapshot_same env.state in
      let reverted =
        reverting.revert-snapshot env.state (evm.apply_message env.meter_class msg s).1
          (messaged s s env.meter_class msg (same s)) in
      rw (env_anchor_lem evm Contract (executed evm Contract msg) env snap e) (
        ap (λ t. (executed evm Contract msg (record env { state = t })).0) unchanged,
        reverted,
        (λ b. restored evm Contract env snap b inj e),
        ap (λ t. (executed evm Contract msg (record env { state = t })).1.gas_tracker) unchanged,
      )

  -- Where py-evm's revert undoes a call, the patcher's attributes exist and no table names one twice, a simulated call gives what
  -- the same call without `simulate` gives, and adds the same gas to the tracker, but the machine's
  -- state and the patched attributes are afterwards what they were.
  pub execute_code-simulate :
      (call : Call) (env : Env evm Contract)
      → Injective (tables env.patch)
      → IsPatched evm Contract env
      → let o = execute_code evm Contract (record call { simulate = true }) env in
        let p = execute_code evm Contract (record call { simulate = false }) env in
        (o.0 ≡ p.0)
        × (o.1.state ≡ env.state)
        × ((b : String) → get_attr b o.1.patch ≡ get_attr b env.patch)
        × (o.1.gas_tracker ≡ p.1.gas_tracker)
  unfolding execute_code Simulates sent entered call_message
  execute_code-simulate call env inj patched =
      elim (Result-cases (get_sender evm Contract call.sender env)) [
        | inr (x, e) ↦ rw (e, sent) (refl, refl, (λ b. refl), refl)
        | inl (s, e) ↦
            rw (e, sent) (anchored-Simulates (call_message evm Contract call s env) env inj patched)
      ]
