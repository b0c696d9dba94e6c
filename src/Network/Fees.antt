-- ===== src/Network/Fees.antt =====
-- boa/network.py: gas prices and fees.
pub mod Cap
use titanoboa.Prelude.{
  ℕ, ◌+◌, ◌-◌, ◌*◌, ◌/◌, ◌^◌, String, false, Option, none, some, List, [], ◌∷◌, arith, nat_eq,
  string_eq, bytes_eq, pair_eq, zero, suc, ◌%◌, Bool, true, ◌||◌, ltb, leb, if◌then◌else◌,
}
use titanoboa.Prelude.Program.{pure, raise, lift, gets, ◌>>=◌, ◌>>◌}
use titanoboa.Network.{
  overflow_error, flag, as_text, on_node, text_item, text, value_error, rpc_fetch, of_hex, Params,
  Json, Net, World,
}
use titanoboa.Rpc.Hex.{py_int, codes, to_hex, to_int, Text}
use titanoboa.Prelude.Result.{or_raise}

-- Python's floats that are not negative, as numbers over a power of two: a result is rounded to 53
-- significant bits, to the nearest number and at a tie to the even one. The halvings of a number to
-- below 2 ** 53, on fuel of the number itself.
abbrev excess_bits : ℕ → ℕ → ℕ
excess_bits zero n = 0
excess_bits (suc fuel) n = elim (ltb n (2 ^ 53)) [
  | true ↦ 0
  | false ↦ suc (excess_bits fuel (n / 2))
]

-- `n / 2 ** e`, rounded
abbrev half_even : ℕ → ℕ → ℕ
half_even n e =
    let q = n / 2 ^ e in
    let r = n % 2 ^ e in
    if ltb (2 * r) (2 ^ e) then q else if ltb (2 ^ e) (2 * r) then q + 1 else q + q % 2

abbrev pub nearest_float : ℕ → ℕ
nearest_float n = if ltb n (2 ^ 53) then n else let e = excess_bits n n in half_even n e * 2 ^ e

-- a float over `8 ** k` that is too large
abbrev pub overflows : ℕ → ℕ → Bool
overflows k n = leb (2 ^ 1024 * 8 ^ k) n

-- `ceil(base_fee * (9 / 8) ** blocks)`, with a power that is the nearest float; none where a float is
-- too large, which raises an OverflowError
unfoldable pub base_fee_cap : ℕ → ℕ → Option ℕ
base_fee_cap base_fee blocks =
    let factor = nearest_float base_fee in
    let power = nearest_float (9 ^ blocks) in
    let product = nearest_float (factor * power) in
    if overflows 0 factor || (overflows blocks power || overflows blocks product)
    then none
    else some ((product + (8 ^ blocks - 1)) / 8 ^ blocks)

module _ ⦃w : World⦄ where
  abbrev pub number_of : Text → Net ℕ
  number_of t = lift (of_hex (to_int t))

  abbrev pub hex_of : ℕ → Net Text
  hex_of n = lift (of_hex (to_hex (py_int n)))

  abbrev pub gas_price_or_fetched : Option ℕ → Net ℕ
  gas_price_or_fetched (some price) = pure price
  gas_price_or_fetched none = do
    answer ← rpc_fetch "eth_gasPrice" []
    t ← as_text answer
    number_of t

  -- `get_gas_price`, where `_gas_price` is the field of the base environment
  unfoldable pub get_gas_price : Net ℕ
  get_gas_price s = gas_price_or_fetched s.base.gas_price s

  -- the answers to three requests, or to two
  abbrev pub three : List Json → Net (Json × Json × Json)
  three (a ∷ (b ∷ (c ∷ []))) = pure (a, b, c)
  three _ = raise value_error

  abbrev pub two : List Json → Net (Json × Json)
  two (a ∷ (b ∷ [])) = pure (a, b)
  two _ = raise value_error

  abbrev pub fee_requests : List (String × Params)
  fee_requests =
      ("eth_getBlockByNumber", text (codes "latest") ∷ (flag false ∷ []))
      ∷ (("eth_maxPriorityFeePerGas", []) ∷ (("eth_chainId", []) ∷ []))

  -- from the three answers on: the base fee, the priority fee, the fee cap and the chain id
  unfoldable pub fee_of : Json × Json × Json → Net (Text × Text × Text × Text)
  fee_of (block_info, priority, chain) = do
    base_text ← text_item "baseFeePerGas" block_info
    blocks_ahead ← gets (λ s. s.tx_settings.base_fee_estimator_constant)
    base_fee ← number_of base_text
    base_fee_estimate ← lift (or_raise (base_fee_cap base_fee blocks_ahead) overflow_error)
    max_priority_fee ← as_text priority
    chain_id ← as_text chain
    tip ← number_of max_priority_fee
    max_fee ← hex_of (base_fee_estimate + tip)
    estimate ← hex_of base_fee_estimate
    pure (estimate, max_priority_fee, max_fee, chain_id)

  -- `get_eip1559_fee`
  unfoldable pub get_eip1559_fee : Net (Text × Text × Text × Text)
  get_eip1559_fee = do
    answers ← on_node (w.fetch_multi fee_requests)
    parts ← three answers
    fee_of parts

  -- `get_static_fee`
  unfoldable pub get_static_fee : Net (Text × Text)
  get_static_fee = do
    answers ← on_node (w.fetch_multi (("eth_gasPrice", []) ∷ (("eth_chainId", []) ∷ [])))
    parts ← two answers
    gas_price ← as_text parts.0
    chain_id ← as_text parts.1
    pure (gas_price, chain_id)
