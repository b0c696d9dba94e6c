-- ===== src/Vm/FastAccountDb.antt =====
-- boa/vm/fast_accountdb.py: the patch of py-evm's account database, which fast mode switches.
use titanoboa.Prelude.{
  ◌≡◌, refl, Bool, true, false, not, Option, none, some, List, [], ◌∷◌, if◌then◌else◌, nat_eq,
  string_eq, bytes_eq, pair_eq,
}
use titanoboa.Prelude.Result.{Result, ok, err, ◌>>=◌}

pub data AttributeMissing : Type 0 where
  no_restore : AttributeMissing

-- the attributes that the two functions read and write; `Method` is what `touch_account` may be
pub record StateObject {ℓ} (Method : Type ℓ) : Type ℓ where
  pub boa_patched : Bool
  pub touch_account : Method
  pub restore_touch_account : Option Method

module _ {ℓ} {Method : Type ℓ} (patcher : Method) where
  pub patch_pyevm_state_object : StateObject Method → StateObject Method
  patch_pyevm_state_object s = if s.boa_patched then s else (record {
    boa_patched = true;
    touch_account = patcher;
    restore_touch_account = some s.touch_account;
  })

  put_back : StateObject Method → Option Method → Result AttributeMissing (StateObject Method)
  put_back s none = err no_restore
  put_back s (some method) =
      ok (record { boa_patched = false; touch_account = method; restore_touch_account = none })

  pub unpatch_pyevm_state_object : StateObject Method → Result AttributeMissing (StateObject Method)
  unfolding put_back
  unpatch_pyevm_state_object s =
      if not s.boa_patched then ok s else put_back s s.restore_touch_account

  -- `PyEVM.enable_fast_mode`
  pub enable_fast_mode : Bool → StateObject Method → Result AttributeMissing (StateObject Method)
  enable_fast_mode true s = ok (patch_pyevm_state_object s)
  enable_fast_mode false s = unpatch_pyevm_state_object s

  pub switches : List Bool → StateObject Method → Result AttributeMissing (StateObject Method)
  switches [] s = ok s
  switches (flag ∷ flags) s = enable_fast_mode flag s >>= switches flags

  -- the object as it is made, with its own method
  abbrev pub original : Method → StateObject Method
  original method = record {
    boa_patched = false;
    touch_account = method;
    restore_touch_account = none;
  }

  abbrev pub patched : Method → StateObject Method
  patched method = record {
    boa_patched = true;
    touch_account = patcher;
    restore_touch_account = some method;
  }

  abbrev pub switched : Bool → Method → StateObject Method
  switched true method = patched method
  switched false method = original method

  abbrev pub last_of : Bool → List Bool → Bool
  last_of flag [] = flag
  last_of flag (next ∷ flags) = last_of next flags

  enable_lem :
      (at flag : Bool) (method : Method)
      → enable_fast_mode flag (switched at method) ≡ ok (switched flag method)
  unfolding enable_fast_mode patch_pyevm_state_object unpatch_pyevm_state_object put_back
  enable_lem true true method = refl
  enable_lem true false method = refl
  enable_lem false true method = refl
  enable_lem false false method = refl

  -- However often fast mode is switched on and off, no switch raises, and the object is as the last
  -- switch alone leaves it: the database's own method is back whenever fast mode is off.
  pub switches-switched :
      (flag : Bool) (flags : List Bool) (method : Method)
      → switches flags (switched flag method) ≡ ok (switched (last_of flag flags) method)
  unfolding switches
  switches-switched flag [] method = refl
  switches-switched flag (next ∷ flags) method =
      rw (enable_lem flag next method) (switches-switched next flags method)
