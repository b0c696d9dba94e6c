-- ===== src/Tests/Machine.antt =====
-- The registry of precompiles of boa/vm/py_evm.py at concrete inputs.
use titanoboa.Prelude.{
  ℕ, String, ◌≡◌, ◌≢◌, false, some, List, [], ◌∷◌, nat_eq, string_eq, bytes_eq, pair_eq, true,
}
use titanoboa.Prelude.Dict.{lookup}
use titanoboa.Prelude.Result.{ok}
use titanoboa.Vm.Precompiles.{py_key_eq, Address, bytes_key, register_raw_precompile}
use titanoboa.Vm.Precompiles.Registry.{Call, register, deregister, run, register-run}
use titanoboa.Vm.FastAccountDb.{switches-switched, original, switched, switches}

abbrev third_address : Address
third_address = record { checksum = "0x03"; canonical_address = 3 ∷ [] }

abbrev history : List (Call String)
history =
    register third_address "old" false
    ∷ deregister third_address false
    ∷ register third_address "older" false
    ∷ []

apart : ◌≢◌ {A = List ℕ} (3 ∷ []) (4 ∷ [])
apart e = let h : false ≡ true = (bytes_eq.beq_iff (3 ∷ []) (4 ∷ [])).1 e in cc h

register-run_example :
    let o = register_raw_precompile third_address "new" false (run history []) in
    (o.0 ≡ ok tt)
    × (lookup (bytes_key (3 ∷ [])) o.1 ≡ some "new")
    × (lookup (bytes_key (4 ∷ [])) o.1 ≡ lookup (bytes_key (4 ∷ [])) (run history []))
register-run_example = register-run history third_address "new" false (4 ∷ []) apart

abbrev touch_patcher : String
touch_patcher = "patcher"

abbrev own_touch : String
own_touch = "own"

switches-switched_example :
    switches touch_patcher (true ∷ true ∷ false ∷ []) (switched touch_patcher false own_touch)
    ≡ ok (original touch_patcher own_touch)
switches-switched_example =
    switches-switched touch_patcher false (true ∷ true ∷ false ∷ []) own_touch
