-- ===== src/Rpc.antt =====
-- boa/rpc.py: batched requests and the wait for a receipt. The HTTP session and JSON are not
-- modelled: a response is the list of its items.
pub mod FetchMulti
pub mod Hex
pub mod Receipt
use titanoboa.Prelude.{
  ℕ, zero, suc, ◌+◌, Option, none, some, List, [], ◌∷◌, arith, ltb, if◌then◌else◌, nat_eq,
  string_eq, bytes_eq, pair_eq,
}
use titanoboa.Prelude.Dict.{Dict, lookup, insert}
use titanoboa.Prelude.Result.{Result, ok, err, ◌>>=◌, ◌>>◌, or_raise}

pub data RpcFailure (E : Type 0) : Type 0 where
  rpc_error : E → RpcFailure E
  key_error timed_out : RpcFailure E

-- an item of a response has an error, or a result
pub record Item (E J : Type 0) : Type 0 where
  pub id : ℕ
  pub error : Option E
  pub result : J

module _ {E J : Type 0} where
  -- the loop over the response
  pub gather : List (Item E J) → Dict ℕ J → Result (RpcFailure E) (Dict ℕ J)
  gather [] results = ok results
  gather (item ∷ items) results =
      let rest = gather items (insert item.id item.result results) in
      elim item.error [ some x ↦ err (rpc_error x) | none ↦ rest ]

  -- `[results[i] for i in range(len(payloads))]`, with the rounds left and the index
  pub in_order : ℕ → ℕ → Dict ℕ J → Result (RpcFailure E) (List J)
  in_order zero i results = ok []
  in_order (suc rounds) i results = do
    x ← or_raise (lookup i results) key_error
    xs ← in_order rounds (suc i) results
    ok (x ∷ xs)

  -- `EthereumRPC.fetch_multi` of so many payloads, from the response on
  pub fetch_multi : ℕ → List (Item E J) → Result (RpcFailure E) (List J)
  fetch_multi payloads response = do results ← gather response []; in_order payloads 0 results

-- `wait_for_tx_receipt`: what the node answers to each poll, how long each answer takes, and the
-- three times, in one unit
module _ {E R : Type 0} (receipt_at : ℕ → Option R) (duration : ℕ → ℕ)
    (start timeout poll_latency : ℕ) where
  -- from a poll on, at a time; none where the fuel is spent
  pub wait_from : ℕ → ℕ → ℕ → Option (Result (RpcFailure E) R)
  wait_from zero poll now = none
  wait_from (suc fuel) poll now =
      let later = now + duration poll in
      let again = wait_from fuel (suc poll) (later + poll_latency) in
      elim (receipt_at poll) [
        | some receipt ↦ some (ok receipt)
        | none ↦
            if ltb (start + timeout) (later + poll_latency) then some (err timed_out) else again
      ]

  pub wait_for_tx_receipt : ℕ → Option (Result (RpcFailure E) R)
  wait_for_tx_receipt fuel = wait_from fuel 0 start
