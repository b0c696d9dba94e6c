-- ===== src/Network/Anchor.antt =====
-- `anchor` of boa/network.py: the node takes a snapshot, and reverts to it.
pub mod Restores
use titanoboa.Prelude.{
  ℕ, Bool, true, false, not, Option, none, some, [], ◌∷◌, arith, if◌then◌else◌, nat_eq, string_eq,
  bytes_eq, pair_eq,
}
use titanoboa.Prelude.Result.{Result, ok, err}
use titanoboa.Prelude.Program.{pure, raise, lift, modify, raise_if, next, ◌>>=◌, ◌>>◌, try_except}
use titanoboa.Network.{
  text, reset_fork, runtime_error, env_error, rpc_fetch, Json, NetError, Net, World, rpc_error,
  http_error, request,
}
use titanoboa.Vm.Patcher.{AttributeError, get_attr}
use titanoboa.Env.{patch_error}
use titanoboa.Rpc.Hex.{hex}

module _ ⦃w : World⦄ where
  -- `try: body finally: close`, where an error of `close` takes the place of the outcome
  abbrev finally : {A : Type 0} → Net A → Net (Unit {0}) → Net A
  finally body close s = let (r, s') = body s in next (λ _. lift r) (close s')

  abbrev on_snapshot_error : NetError → Net Bool
  on_snapshot_error (request (rpc_error code)) = pure false
  on_snapshot_error (request http_error) = pure false
  on_snapshot_error x = raise x

  abbrev probe_snapshot : Net Bool
  probe_snapshot =
      try_except
        (do
          snapshot_id ← rpc_fetch "evm_snapshot" []
          rpc_fetch "evm_revert" (snapshot_id ∷ [])
          pure true)
        on_snapshot_error

  abbrev keep_has_snapshot : Option Bool → Net Bool
  keep_has_snapshot (some b) = pure b
  keep_has_snapshot none = do
    b ← probe_snapshot
    modify (λ s. record s { rpc_has_snapshot = some b })
    pure b

  -- `_rpc_has_snapshot`, a cached property
  unfoldable pub has_snapshot : Net Bool
  has_snapshot s = keep_has_snapshot s.rpc_has_snapshot s

  abbrev of_attribute : Result AttributeError ℕ → Result NetError ℕ
  of_attribute (ok n) = ok n
  of_attribute (err x) = err (env_error (patch_error x))

  abbrev block_number : Net ℕ
  block_number s = (of_attribute (get_attr "block_number" s.base.patch), s)

  -- what is done on the way out; the fork is reset to the number of a block
  abbrev restore_node : Json → ℕ → Net (Unit {0})
  restore_node snapshot_id number = do
    rpc_fetch "evm_revert" (snapshot_id ∷ [])
    reset_fork (text (hex number))

  abbrev anchored : {A : Type 0} → Net A → ℕ → Json → Net A
  anchored body number snapshot_id = finally body (restore_node snapshot_id number)

  -- `with env.anchor(): body`
  unfoldable pub anchor : {A : Type 0} → Net A → Net A
  anchor body = do
    has ← has_snapshot
    raise_if (not has) runtime_error
    number ← block_number
    snapshot_id ← rpc_fetch "evm_snapshot" []
    anchored body number snapshot_id
