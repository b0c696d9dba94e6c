-- ===== src/Network/Fees/Cap.antt =====
-- boa/network.py: the fee cap covers the base fee of the blocks to come.
use titanoboa.Prelude.{
  ℕ, zero, suc, ◌+◌, ◌*◌, ◌^◌, ◌≤◌, ◌<◌, ◌≡◌, refl, ap, some, arith, nat_eq, string_eq, bytes_eq,
  pair_eq, ◌-◌, ◌/◌, true, false, ltb,
}
use titanoboa.Prelude.Result.{ok}
use titanoboa.Network.{as_text, object, text, find_field, NetworkEnv, Fields, World}
use titanoboa.Network.Fees.{overflows, nearest_float, fee_of, base_fee_cap}
use native.Mathlib.Nat.{
  le-mul_of_pos_right, mul-le-mul_left, le-div_iff_mul-le, mul-le-mul_right, pow-suc,
}
use titanoboa.Rpc.Hex.{hex, to_int, Text, to_hex}
use titanoboa.Rpc.Hex.Roundtrip.{to_int-to_hex}

-- base fees of consecutive blocks, from one on: each is at most 9/8 of the one before, as EIP-1559
-- makes sure for base fees of at least 8
pub data Rises : ℕ → ℕ → ℕ → Type 0 where
  here : {fee : ℕ} → Rises 0 fee fee
  block :
      {blocks fee next_fee last : ℕ}
      → next_fee * 8 ≤ fee * 9
      → Rises blocks next_fee last
      → Rises (suc blocks) fee last

Rises-scaled : (blocks fee last : ℕ) → Rises blocks fee last → last * 8 ^ blocks ≤ fee * 9 ^ blocks
Rises-scaled zero fee last here = omega arith
Rises-scaled (suc blocks) fee last (block {next_fee = n} step rest) =
    let scaled : (n * 8) * 9 ^ blocks ≤ (fee * 9) * 9 ^ blocks =
      mul-le-mul_right (9 ^ blocks) step in
    omega (
      arith,
      Rises-scaled blocks n last rest,
      scaled,
      ap (λ (p : ℕ). last * p) (pow-suc 8 blocks),
      ap (λ (p : ℕ). fee * p) (pow-suc 9 blocks),
    )

pow_8_pos : (k : ℕ) → 0 < 8 ^ k
pow_8_pos zero = omega arith
pow_8_pos (suc k) = omega (arith, pow-suc 8 k, pow_8_pos k)

pow_9_pos : (k : ℕ) → 0 < 9 ^ k
pow_9_pos zero = omega arith
pow_9_pos (suc k) = omega (arith, pow-suc 9 k, pow_9_pos k)

nearest_float_exact : (n : ℕ) → n < 2 ^ 53 → nearest_float n ≡ n
nearest_float_exact n h = let t : ltb n (2 ^ 53) ≡ true = ground arith in rw t refl

-- a float below 2 ** 53, over whatever power of 8, is not too large
fits : (k n : ℕ) → n < 2 ^ 53 → overflows k n ≡ false
fits k n h =
    let bound : 2 ^ 1024 * 1 ≤ 2 ^ 1024 * 8 ^ k = mul-le-mul_left (2 ^ 1024) (pow_8_pos k) in
    ground (arith, bound)

-- where the product is below 2 ** 53, it and its factors are exact
base_fee_cap_exact :
    (blocks fee : ℕ)
    → fee * 9 ^ blocks < 2 ^ 53
    → 0 < fee
    → base_fee_cap fee blocks ≡ some ((fee * 9 ^ blocks + (8 ^ blocks - 1)) / 8 ^ blocks)
unfolding base_fee_cap
base_fee_cap_exact blocks fee small pos =
    let power_small : 9 ^ blocks < 2 ^ 53 =
      let below : 9 ^ blocks ≤ 9 ^ blocks * fee = le-mul_of_pos_right (9 ^ blocks) pos in
      omega (arith, below, small) in
    let fee_small : fee < 2 ^ 53 =
      let below : fee ≤ fee * 9 ^ blocks = le-mul_of_pos_right fee (pow_9_pos blocks) in
      omega (arith, below, small) in
    rw
      (
        nearest_float_exact fee fee_small,
        nearest_float_exact (9 ^ blocks) power_small,
        nearest_float_exact (fee * 9 ^ blocks) small,
        fits 0 fee fee_small,
        fits blocks (9 ^ blocks) power_small,
        fits blocks (fee * 9 ^ blocks) small,
      )
      refl

exact_cap-Rises :
    (blocks fee last : ℕ)
    → Rises blocks fee last
    → last ≤ (fee * 9 ^ blocks + (8 ^ blocks - 1)) / 8 ^ blocks
exact_cap-Rises blocks fee last r =
    (le-div_iff_mul-le (pow_8_pos blocks)).1 (omega (arith, Rises-scaled blocks fee last r))

module _ ⦃w : World⦄ where
  -- For a block with a base fee that is not zero and small enough for the float product to be exact,
  -- its product with 9 for each block ahead below 2 ** 53, the fees are returned: the fee cap is the estimate and the tip, and
  -- the estimate is at least the base fee of each block within the blocks ahead, as long as a base
  -- fee rises by at most one eighth from a block to the next.
  pub fee_of-covers :
      (block_fields : Fields) (base_text priority chain : Text) (base tip last : ℕ) (s : NetworkEnv)
      → find_field "baseFeePerGas" block_fields ≡ some (text base_text)
      → to_int base_text ≡ ok base
      → to_int priority ≡ ok tip
      → 0 < base
      → base * 9 ^ s.tx_settings.base_fee_estimator_constant < 2 ^ 53
      → Rises s.tx_settings.base_fee_estimator_constant base last
      → (estimate max_fee : Text) × (e : ℕ) × (fee_of
            (object block_fields, text priority, text chain)
            s
          ≡ (ok (estimate, priority, max_fee, chain), s))
        × (to_int estimate ≡ ok e)
        × (to_int max_fee ≡ ok (e + tip))
        × (last ≤ e)
  unfolding fee_of to_hex
  fee_of-covers block_fields base_text priority chain base tip last s found b t pos small r =
      let blocks = s.tx_settings.base_fee_estimator_constant in
      let e = (base * 9 ^ blocks + (8 ^ blocks - 1)) / 8 ^ blocks in
      (
        hex e,
        hex (e + tip),
        e,
        rw (found, as_text, b, base_fee_cap_exact blocks base small pos, t) refl,
        to_int-to_hex e,
        to_int-to_hex (e + tip),
        exact_cap-Rises blocks base last r,
      )
