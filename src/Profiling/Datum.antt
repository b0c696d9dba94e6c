-- ===== src/Profiling/Datum.antt =====
-- `Datum` of boa/profiling.py.
use titanoboa.Prelude.{◌≡◌, nat_eq, string_eq, bytes_eq, pair_eq}
use titanoboa.Prelude.Int.{ℤ, pos, ◌+ℤ◌, ◌-ℤ◌, int_laws, int_eq}

pub record Datum : Type 0 where
  pub gas_used : ℤ
  pub gas_refunded : ℤ
  pub child_gas_used : ℤ
  pub child_gas_refunded : ℤ

abbrev pub empty : Datum
empty = record {
  gas_used = pos 0;
  gas_refunded = pos 0;
  child_gas_used = pos 0;
  child_gas_refunded = pos 0;
}

unfoldable pub net_gas : Datum → ℤ
net_gas d = d.gas_used -ℤ d.gas_refunded

unfoldable pub net_tot_gas : Datum → ℤ
net_tot_gas d = d.gas_used -ℤ d.child_gas_used -ℤ d.gas_refunded +ℤ d.child_gas_refunded

unfoldable pub merge : Datum → Datum → Datum
merge d other = record {
  gas_used = d.gas_used +ℤ other.gas_used;
  gas_refunded = d.gas_refunded +ℤ other.gas_refunded;
  child_gas_used = d.child_gas_used +ℤ other.child_gas_used;
  child_gas_refunded = d.child_gas_refunded +ℤ other.child_gas_refunded;
}

-- `get_gas_used()` and `get_gas_refund()` of a child computation
pub record Child : Type 0 where
  pub gas_used : ℤ
  pub gas_refund : ℤ

unfoldable pub adjust_child : Datum → Child → Datum
adjust_child d child = record {
  gas_used = d.gas_used -ℤ child.gas_used;
  gas_refunded = d.gas_refunded -ℤ child.gas_refund;
  child_gas_used = d.child_gas_used +ℤ child.gas_used;
  child_gas_refunded = d.child_gas_refunded +ℤ child.gas_refund;
}

pub net_gas-merge : (d e : Datum) → net_gas (merge d e) ≡ net_gas d +ℤ net_gas e
unfolding net_gas merge
net_gas-merge d e = omega int_laws

pub net_tot_gas-merge : (d e : Datum) → net_tot_gas (merge d e) ≡ net_tot_gas d +ℤ net_tot_gas e
unfolding net_tot_gas merge
net_tot_gas-merge d e = omega int_laws

-- An adjustment takes the child's net gas from `net_gas` once and from `net_tot_gas` twice.
pub adjust_child_net :
    (d : Datum) (c : Child)
    → (net_gas (adjust_child d c) +ℤ (c.gas_used -ℤ c.gas_refund) ≡ net_gas d)
      × (net_tot_gas (adjust_child d c)
            +ℤ (c.gas_used -ℤ c.gas_refund)
            +ℤ (c.gas_used -ℤ c.gas_refund)
          ≡ net_tot_gas d)
unfolding net_gas net_tot_gas adjust_child
adjust_child_net d c = (omega int_laws, omega int_laws)
