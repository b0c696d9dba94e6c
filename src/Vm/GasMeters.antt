-- ===== src/Vm/GasMeters.antt =====
-- `ProfilingGasMeter` of boa/vm/gas_meters.py over py-evm's `GasMeter`, which is a parameter.
pub mod Attribution
use titanoboa.Prelude.{ℕ, ◌+◌, ◌-◌, Option, none, some, arith, nat_eq, string_eq, bytes_eq}
use titanoboa.Prelude.Result.{Result, ok, err}
use titanoboa.Prelude.Int.{ℤ, pos, ◌+ℤ◌, ◌-ℤ◌, int_eq}
use titanoboa.Prelude.Dict.{Dict, lookup, insert}

-- `super()`: the meter's state and its three methods, of which one may raise `OutOfGas`
pub record GasMeter : Type 1 where
  pub Meter : Type 0
  pub Error : Type 0
  pub consume_gas : ℤ → Meter → Result Error Meter
  pub return_gas : ℤ → Meter → Meter
  pub refund_gas : ℤ → Meter → Meter

-- `d.setdefault(k, 0)`, and then `d[k] += amount`
abbrev pub current : Option ℤ → ℤ
current none = pos 0
current (some v) = v

pub add_at : ℤ → ℤ → Dict ℤ ℤ → Dict ℤ ℤ
add_at k amount d = insert k (current (lookup k d) +ℤ amount) d

pub sub_at : ℤ → ℤ → Dict ℤ ℤ → Dict ℤ ℤ
sub_at k amount d = insert k (current (lookup k d) -ℤ amount) d

module _ (g : GasMeter) where
  open g use {Meter, Error}

  pub record ProfilingGasMeter : Type 0 where
    pub meter : Meter
    pub gas_used_of : Dict ℤ ℤ
    pub gas_refunded_of : Dict ℤ ℤ
    pub program_counter : ℕ

  -- `_pc`: the code stream has moved on by one when gas is metered
  pub pc_of : ProfilingGasMeter → ℤ
  pc_of m = pos m.program_counter -ℤ pos 1

  consumed :
      ℤ → Result Error Meter → ProfilingGasMeter → Result Error (Unit {0}) × ProfilingGasMeter
  consumed amount (err x) m = (err x, m)
  consumed amount (ok meter') m =
      (ok tt, record m { meter = meter'; gas_used_of = add_at (pc_of m) amount m.gas_used_of })

  pub consume_gas : ℤ → ProfilingGasMeter → Result Error (Unit {0}) × ProfilingGasMeter
  unfolding consumed
  consume_gas amount m = consumed amount (g.consume_gas amount m.meter) m

  pub return_gas : ℤ → ProfilingGasMeter → ProfilingGasMeter
  return_gas amount m = record m {
    meter = g.return_gas amount m.meter;
    gas_used_of = sub_at (pc_of m) amount m.gas_used_of;
  }

  pub refund_gas : ℤ → ProfilingGasMeter → ProfilingGasMeter
  refund_gas amount m = record m {
    meter = g.refund_gas amount m.meter;
    gas_refunded_of = add_at (pc_of m) amount m.gas_refunded_of;
  }
