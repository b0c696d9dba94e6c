-- ===== src/Network/Calls/ReadOnly.antt =====
-- boa/network.py: what is only asked or only estimated sends no transaction.
use titanoboa.Prelude.{
  bytes_beq, ℕ, String, ◌≡◌, refl, Bool, true, false, ◌&&◌, ◌||◌, not, Option, none, some, List, [],
  ◌∷◌, ◌==◌, nat_eq, string_eq, bytes_eq, pair_eq, inl, inr, Bool-cases,
}
use titanoboa.Prelude.Result.{Result}
use titanoboa.Prelude.Program.{pure, lift, ◌>>=◌, ◌>>◌, Keeps, Keeps->>=}
use titanoboa.Env.Calls.{Call}
use titanoboa.Network.{
  warn, Warning, text, on_base, of_hex, as_text, rpc_fetch, reset_fork, Json, Net, NetworkEnv,
  Params, World,
}
use titanoboa.Network.Calls.{
  check_sender, conclude, super_execute_code, latest, eth_call, execute_code, reset_if, ask,
  patched, with_gas_price, sender_or_eoa,
}
use titanoboa.Rpc.Hex.{HexError}
use titanoboa.Env.{Computation, Outcome, Env}
use titanoboa.Network.Fees.{gas_price_or_fetched, get_gas_price}
use titanoboa.Prelude.Bytes.{Bytes}
use titanoboa.Vm.Patcher.{Patchables}
use titanoboa.Network.Send.{Txn}

-- the methods of a node that change what was sent to it
abbrev pub sends : String → Bool
sends method =
    method == "eth_sendRawTransaction"
    || (method == "eth_sendTransaction" || method == "evm_revert")

abbrev pub none_sends : List (String × Params) → Bool
none_sends [] = true
none_sends ((method, params) ∷ requests) = not (sends method) && none_sends requests

-- what a node keeps of the transactions that it was sent, which every other request leaves as it is
pub record Ledger (w : World) : Type 1 where
  pub Sent : Type 0
  pub sent : w.NodeState → Sent
  pub fetch_keeps :
      (method : String) (params : Params) (n : w.NodeState)
      → sends method ≡ false
      → sent (w.fetch method params n).1 ≡ sent n
  pub fetch_multi_keeps :
      (requests : List (String × Params)) (n : w.NodeState)
      → none_sends requests ≡ true
      → sent (w.fetch_multi requests n).1 ≡ sent n
  pub fork_keeps :
      (block : Json) (machine : w.evm.State × Patchables ℕ) (n : w.NodeState)
      → sent (w.fork_rpc block machine n).1 ≡ sent n

module _ ⦃w : World⦄ (l : Ledger w) where
  -- what was sent, as the environment's node has it
  abbrev pub sent_in : NetworkEnv → l.Sent
  sent_in s = l.sent s.node

  unfoldable pub Quiet : {A : Type 0} → Net A → Type 0
  Quiet m = Keeps sent_in m

  pub Quiet-fetch :
      (method : String) (params : Params) → sends method ≡ false → Quiet (rpc_fetch method params)
  unfolding Quiet Keeps
  Quiet-fetch method params h s = l.fetch_keeps method params s.node h

  pub Quiet-as_text : (v : Json) → Quiet (as_text v)
  unfolding Quiet Keeps
  Quiet-as_text (text t) s = refl
  Quiet-as_text _ s = refl

  pub Quiet-hex : {A : Type 0} (r : Result HexError A) → Quiet (lift (of_hex r))
  unfolding Quiet Keeps
  Quiet-hex r s = refl

  pub Quiet-reset_fork : (block : Json) → Quiet (reset_fork block)
  unfolding Quiet Keeps reset_fork
  Quiet-reset_fork block s = l.fork_keeps block (s.base.state, s.base.patch) s.node

  pub Quiet-on_base :
      {A : Type 0} (f : Env w.evm w.Contract → Outcome w.evm w.Contract A) → Quiet (on_base f)
  unfolding Quiet Keeps
  Quiet-on_base f s = refl

  pub Quiet->>= :
      {A B : Type 0} (m : Net A) (f : A → Net B)
      → Quiet m
      → ((a : A) → Quiet (f a))
      → Quiet (m >>= f)
  unfolding Quiet
  Quiet->>= m f h k = Keeps->>= sent_in m f h k

  pub Quiet-pure : {A : Type 0} (a : A) → Quiet (pure a)
  unfolding Quiet Keeps
  Quiet-pure a s = refl

  pub ruleset quiet = (
    Quiet->>=, Quiet-fetch, Quiet-as_text, Quiet-hex, Quiet-reset_fork, Quiet-on_base, Quiet-pure,
  )

  pub Quiet-gas_price : (o : Option ℕ) → Quiet (gas_price_or_fetched o)
  Quiet-gas_price (some price) = Quiet-pure price
  Quiet-gas_price none = search quiet

  pub Quiet-get_gas_price : Quiet get_gas_price
  unfolding Quiet Keeps get_gas_price
  Quiet-get_gas_price s = Quiet-gas_price s.base.gas_price s

  pub Quiet-super :
      {A : Type 0} (given : Option Bytes)
      (method : Env w.evm w.Contract → Outcome w.evm w.Contract A)
      → Quiet (sender_or_eoa given >> (get_gas_price >>= with_gas_price method))
  Quiet-super given method = search (quiet, Quiet-get_gas_price)

  pub Quiet-warn : (x : Warning) → Quiet (warn x)
  unfolding Quiet Keeps
  Quiet-warn x s = refl

  pub Quiet-patched :
      (c : Computation w.evm w.Contract) (output : Option Bytes) → Quiet (patched c output)
  unfolding patched
  Quiet-patched c none = Quiet-pure c
  Quiet-patched c (some output) = elim (Bool-cases (bytes_beq c.2 output)) [
    | inl same ↦ rw same (Quiet-pure c)
    | inr other ↦ rw other (search (quiet, Quiet-warn))
  ]

  pub Quiet-ask : (txn : Txn) (c : Computation w.evm w.Contract) → Quiet (ask txn c)
  unfolding ask eth_call
  Quiet-ask txn c = search (quiet, Quiet-patched)

  pub Quiet-conclude :
      (b : Bool) (txn : Txn) (c : Computation w.evm w.Contract)
      → b ≡ true
      → Quiet (conclude b txn c)
  Quiet-conclude true txn c h = Quiet-ask txn c
  Quiet-conclude false txn c h = absurd (cc h)

  pub Quiet-check_sender : (o : Option Bytes) → Quiet (check_sender o)
  unfolding Quiet Keeps
  Quiet-check_sender none s = refl
  Quiet-check_sender (some a) s = refl

  pub Quiet-super_execute_code : (call : Call) → Quiet (super_execute_code call)
  unfolding super_execute_code
  Quiet-super_execute_code call = search (quiet, Quiet-get_gas_price)

  pub Quiet-reset_if : (b : Bool) → Quiet (reset_if b)
  Quiet-reset_if true = Quiet-reset_fork latest
  Quiet-reset_if false = Quiet-pure tt

  -- A call that is simulated or does not modify sends no transaction, whether it returns or raises, if
  -- a node's requests but those that send or revert leave what was sent as it is.
  pub execute_code-Quiet :
      (call : Call)
      → (call.simulate || not call.is_modifying) ≡ true
      → Keeps sent_in (execute_code call)
  unfolding execute_code Quiet
  execute_code-Quiet call h =
      search (quiet, Quiet-reset_if, Quiet-super_execute_code, Quiet-check_sender, Quiet-conclude)
        depth 12
