-- ===== src/Env/Calls/TimeTravel.antt =====
-- boa/environment.py: `time_travel` moves the timestamp and the block number together.
use titanoboa.Prelude.{
  ℕ, ◌+◌, ◌*◌, ◌/◌, ◌<◌, String, ◌≡◌, refl, sym, ◌∙◌, ◌≢◌, true, false, none, some, arith, nat_beq,
  nat_eq, string_eq, bytes_eq, pair_eq, ap,
}
use titanoboa.Prelude.Result.{ok, err}
use titanoboa.Vm.Patcher.{get_attr, set_attr}
use titanoboa.Vm.Patcher.Anchor.{
  tables-set_attr, Injective, tables, get_attr-set_attr, get_attr-set_attr_ne,
}
use titanoboa.Env.{one_of_seconds_or_blocks, Env, Outcome, Evm}
use titanoboa.Env.Calls.{and_then, add_to_patch, time_travel, travel}
use mathlib.Core.Path.{subst}

module _ (evm : Evm) (Contract : Type 0) where
  -- the call returns, and the two attributes have moved by these amounts
  abbrev pub Travelled : ℕ → ℕ → ℕ → ℕ → Outcome evm Contract (Unit {0}) → Type 0
  Travelled timestamp seconds block blocks o =
      (o.0 ≡ ok tt)
      × (get_attr "timestamp" o.1.patch ≡ ok (timestamp + seconds))
      × (get_attr "block_number" o.1.patch ≡ ok (block + blocks))

  names_differ : ◌≢◌ {A = String} "timestamp" "block_number"
  names_differ e = let h : false ≡ true = (string_eq.beq_iff "timestamp" "block_number").1 e in cc h

  names_differ' : ◌≢◌ {A = String} "block_number" "timestamp"
  names_differ' e = names_differ (sym e)

  add_to_patch_lem :
      (attr : String) (n v : ℕ) (env : Env evm Contract)
      → get_attr attr env.patch ≡ ok v
      → add_to_patch evm Contract attr n env
        ≡ (ok tt, record env { patch = set_attr attr (v + n) env.patch })
  unfolding add_to_patch
  add_to_patch_lem attr n v env h = rw (h, add_to_patch)

  travel_lem :
      (seconds blocks timestamp block : ℕ) (env : Env evm Contract)
      → get_attr "timestamp" env.patch ≡ ok timestamp
      → get_attr "block_number" (set_attr "timestamp" (timestamp + seconds) env.patch) ≡ ok block
      → travel evm Contract seconds blocks env ≡ (
        ok tt,
        record env {
          patch =
              set_attr "block_number"
                (block + blocks)
                (set_attr "timestamp" (timestamp + seconds) env.patch);
        },
      )
  unfolding travel and_then
  travel_lem seconds blocks timestamp block env ht hb =
      ap (λ o. and_then evm Contract o (add_to_patch evm Contract "block_number" blocks))
        (add_to_patch_lem "timestamp" seconds timestamp env ht)
      ∙ add_to_patch_lem "block_number" blocks block
          (record env { patch = set_attr "timestamp" (timestamp + seconds) env.patch }) hb

  travel-Travelled :
      (seconds blocks timestamp block : ℕ) (env : Env evm Contract)
      → Injective (tables env.patch)
      → get_attr "timestamp" env.patch ≡ ok timestamp
      → get_attr "block_number" env.patch ≡ ok block
      → Travelled timestamp seconds block blocks (travel evm Contract seconds blocks env)
  travel-Travelled seconds blocks timestamp block env inj ht hb =
      let ps' = set_attr "timestamp" (timestamp + seconds) env.patch in
      let keeps : tables ps' ≡ tables env.patch =
        tables-set_attr "timestamp" (timestamp + seconds) env.patch in
      let inj' = subst Injective (sym keeps) inj in
      let hb' : get_attr "block_number" ps' ≡ ok block =
        get_attr-set_attr_ne "timestamp" "block_number" (timestamp + seconds) env.patch inj
          names_differ
        ∙ hb in
      let ht' : get_attr "timestamp" ps' ≡ ok (timestamp + seconds) =
        get_attr-set_attr "timestamp" (timestamp + seconds) timestamp env.patch ht in
      rw (travel_lem seconds blocks timestamp block env ht hb') (
        refl,
        get_attr-set_attr_ne "block_number" "timestamp" (block + blocks) ps' inj' names_differ'
            ∙ ht',
        get_attr-set_attr "block_number" (block + blocks) block ps' hb',
      )

  -- For amounts that are not negative: exactly one of seconds and blocks is taken, whichever numbers
  -- they are. Seconds move the timestamp by themselves and the
  -- block number by the whole blocks in them; blocks move the block number by themselves and the
  -- timestamp by the block delta for each.
  pub time_travel-Travelled :
      (n m block_delta timestamp block : ℕ) (env : Env evm Contract)
      → 0 < block_delta
      → Injective (tables env.patch)
      → get_attr "timestamp" env.patch ≡ ok timestamp
      → get_attr "block_number" env.patch ≡ ok block
      → Travelled timestamp n block
          (n / block_delta)
          (time_travel evm Contract (some n) none block_delta env)
        × Travelled timestamp
            (n * block_delta)
            block
            n
            (time_travel evm Contract none (some n) block_delta env)
        × (time_travel evm Contract (some n) (some m) block_delta env
            ≡ (err one_of_seconds_or_blocks, env))
        × (time_travel evm Contract none none block_delta env ≡ (err one_of_seconds_or_blocks, env))
  unfolding time_travel
  time_travel-Travelled n m block_delta timestamp block env pos inj ht hb =
      let nonzero : nat_beq block_delta 0 ≡ false = ground arith in
      (
        rw nonzero (travel-Travelled n (n / block_delta) timestamp block env inj ht hb),
        travel-Travelled (n * block_delta) n timestamp block env inj ht hb,
        refl,
        refl,
      )
