-- ===== src/Network/Anchor/Restores.antt =====
-- `anchor` of boa/network.py: the chain is as it was.
use titanoboa.Prelude.{
  ℕ, ◌≡◌, refl, sym, ap, ◌∙◌, Bool, true, not, Option, none, some, [], ◌∷◌, nat_eq, string_eq,
  bytes_eq, pair_eq,
}
use titanoboa.Prelude.Result.{Result, ok, err}
use titanoboa.Prelude.Program.{
  Keeps-raise_if, Keeps-try_except, pure, lift, modify, raise_if, next, ◌>>=◌, ◌>>◌, Keeps,
  Keeps->>=, after->>=,
}
use titanoboa.Network.{
  of_request, runtime_error, RpcFailure, http_error, rpc_error, request, text, reset_fork,
  rpc_fetch, NetError, Net, NetworkEnv, Json, World,
}
use titanoboa.Network.Anchor.{
  block_number, probe_snapshot, on_snapshot_error, keep_has_snapshot, anchored, restore_node,
  has_snapshot, anchor,
}
use titanoboa.Vm.Patcher.{Patchables}
use titanoboa.Rpc.Hex.{hex}

-- how a node with snapshots behaves: a snapshot keeps the chain, under an id, and a revert to an id
-- that it keeps puts that chain back
pub record Snapshots (w : World) : Type 1 where
  pub Chain : Type 0
  pub chain : w.NodeState → Chain
  pub saved : Json → w.NodeState → Option Chain
  pub snapshot_keeps : (n : w.NodeState) → chain (w.fetch "evm_snapshot" [] n).1 ≡ chain n
  pub snapshot_saves :
      (n n' : w.NodeState) (snapshot_id : Json)
      → w.fetch "evm_snapshot" [] n ≡ (ok snapshot_id, n')
      → saved snapshot_id n' ≡ some (chain n)
  pub revert_restores :
      (n : w.NodeState) (snapshot_id : Json) (c : Chain)
      → saved snapshot_id n ≡ some c
      → chain (w.fetch "evm_revert" (snapshot_id ∷ []) n).1 ≡ c
  pub fork_keeps :
      (block : Json) (machine : w.evm.State × Patchables ℕ) (n : w.NodeState)
      → chain (w.fork_rpc block machine n).1 ≡ chain n

module _ ⦃w : World⦄ (l : Snapshots w) where
  abbrev pub chain_in : NetworkEnv → l.Chain
  chain_in s = l.chain s.node

  -- the node keeps its snapshots while the body runs
  abbrev pub Holds : {A : Type 0} → Net A → Type 0
  Holds body =
      (snapshot_id : Json) (s : NetworkEnv)
      → l.saved snapshot_id (body s).1.node ≡ l.saved snapshot_id s.node

  AtChain : {A : Type 0} → l.Chain → Result NetError A × NetworkEnv → Type 0
  AtChain c o = chain_in o.1 ≡ c

  reverted :
      (snapshot_id : Json) (c : l.Chain) (s : NetworkEnv) {A : Type 0} (k : Net A)
      → l.saved snapshot_id s.node ≡ some c
      → Keeps chain_in k
      → chain_in ((rpc_fetch "evm_revert" (snapshot_id ∷ []) >> k) s).1 ≡ c
  unfolding AtChain Keeps
  reverted snapshot_id c s k h keeps =
      let back = l.revert_restores s.node snapshot_id c h in
      after->>= (AtChain c) (rpc_fetch "evm_revert" (snapshot_id ∷ [])) (λ _. k) s
        (λ a s' e. keeps s' ∙ (ap (λ z. l.chain z.1.node) (sym e) ∙ back))
        (λ x s' e. ap (λ z. l.chain z.1.node) (sym e) ∙ back)

  reset_fork-chain : (block : Json) → Keeps chain_in (reset_fork block)
  unfolding Keeps reset_fork
  reset_fork-chain block s = l.fork_keeps block (s.base.state, s.base.patch) s.node

  finally-chain :
      {A : Type 0} (r : Result NetError A) (o : Result NetError (Unit {0}) × NetworkEnv)
      → chain_in (next (λ _. lift r) o).1 ≡ chain_in o.1
  finally-chain r (ok u, s) = refl
  finally-chain r (err x, s) = refl

  anchored-chain :
      {A : Type 0} (body : Net A) (number : ℕ) (snapshot_id : Json) (c : l.Chain) (s : NetworkEnv)
      → Holds body
      → l.saved snapshot_id s.node ≡ some c
      → chain_in (anchored body number snapshot_id s).1 ≡ c
  anchored-chain body number snapshot_id c s h k =
      let (r, s') = body s in
      finally-chain r (restore_node snapshot_id number s')
      ∙ reverted snapshot_id c s' (reset_fork (text (hex number))) (h snapshot_id s ∙ k)
          (reset_fork-chain (text (hex number)))

  fetched :
      (p : Result RpcFailure Json × w.NodeState) (s s' : NetworkEnv) (a : Json)
      → ◌≡◌ {A = Result NetError Json × NetworkEnv}
          (of_request p.0, record s { node = p.1 })
          (ok a, s')
      → p ≡ (ok a, s'.node)
  fetched (ok b, n) s s' a e = cc (ap (λ z. z.0) e, ap (λ z. z.1.node) e)
  fetched (err x, n) s s' a e = absurd (cc e)

  after-snapshot :
      {A : Type 0} (k : Json → Net A) (s : NetworkEnv)
      → ((snapshot_id : Json) (s' : NetworkEnv)
          → l.saved snapshot_id s'.node ≡ some (chain_in s)
          → chain_in (k snapshot_id s').1 ≡ chain_in s)
      → chain_in ((rpc_fetch "evm_snapshot" [] >>= k) s).1 ≡ chain_in s
  unfolding AtChain
  after-snapshot k s h =
      after->>= (AtChain (chain_in s)) (rpc_fetch "evm_snapshot" []) k s
        (λ a s' e.
          h a s' (
            l.snapshot_saves s.node s'.node a
              (fetched (w.fetch "evm_snapshot" [] s.node) s s' a e)))
        (λ x s' e. ap (λ z. l.chain z.1.node) (sym e) ∙ l.snapshot_keeps s.node)

  on_snapshot_error-chain : (x : NetError) → Keeps chain_in (on_snapshot_error x)
  unfolding Keeps
  on_snapshot_error-chain (request (rpc_error code)) s = refl
  on_snapshot_error-chain (request http_error) s = refl
  on_snapshot_error-chain _ s = refl

  probe-chain : Keeps chain_in (do
    snapshot_id ← rpc_fetch "evm_snapshot" []
    rpc_fetch "evm_revert" (snapshot_id ∷ [])
    pure true)
  unfolding Keeps
  probe-chain s =
      after-snapshot (λ snapshot_id. rpc_fetch "evm_revert" (snapshot_id ∷ []) >> pure true) s
        (λ snapshot_id s' k. reverted snapshot_id (chain_in s) s' (pure true) k (λ t. refl))

  keep_has_snapshot-chain : (o : Option Bool) → Keeps chain_in (keep_has_snapshot o)
  unfolding Keeps
  keep_has_snapshot-chain (some b) s = refl
  keep_has_snapshot-chain none s =
      Keeps->>= chain_in probe_snapshot
        (λ b. do modify (λ s. record s { rpc_has_snapshot = some b }); pure b)
        (Keeps-try_except chain_in _ on_snapshot_error probe-chain on_snapshot_error-chain)
        (λ b t. refl) s

  has_snapshot-chain : Keeps chain_in has_snapshot
  unfolding Keeps has_snapshot
  has_snapshot-chain s = keep_has_snapshot-chain s.rpc_has_snapshot s

  block_number-chain : Keeps chain_in block_number
  unfolding Keeps
  block_number-chain s = refl

  anchor_at-chain :
      {A : Type 0} (body : Net A)
      → Holds body
      → (number : ℕ) → Keeps chain_in (rpc_fetch "evm_snapshot" [] >>= anchored body number)
  unfolding Keeps
  anchor_at-chain body h number s =
      after-snapshot (anchored body number) s
        (λ snapshot_id s' k. anchored-chain body number snapshot_id (chain_in s) s' h k)

  -- Whatever the body does to the chain, and also where it raises, the chain is after the anchor as it
  -- was before, if the node keeps its snapshots while the body runs.
  pub anchor-restores : {A : Type 0} (body : Net A) → Holds body → Keeps chain_in (anchor body)
  unfolding anchor
  anchor-restores body h = Keeps->>= chain_in has_snapshot _ has_snapshot-chain λ has.
      Keeps->>= chain_in (raise_if (not has) runtime_error) _
        (Keeps-raise_if chain_in (not has) runtime_error)
        λ _. Keeps->>= chain_in block_number _ block_number-chain (anchor_at-chain body h)
