-- ===== src/Tests/Gas.antt =====
-- boa/vm/gas_meters.py and boa/profiling.py at concrete inputs.
use titanoboa.Prelude.{
  ℕ, ◌+◌, ◌-◌, ◌≡◌, refl, List, [], ◌∷◌, leb, if◌then◌else◌, nat_eq, string_eq, bytes_eq, pair_eq,
}
use titanoboa.Prelude.Dict.{Dict}
use titanoboa.Prelude.Result.{Result, ok, err}
use titanoboa.Prelude.Int.{pos, pos_part, ◌+ℤ◌, ◌-ℤ◌, int_eq}
use titanoboa.Prelude.Sums.{total, sum_by}
use titanoboa.Vm.GasMeters.{ProfilingGasMeter, GasMeter}
use titanoboa.Vm.GasMeters.Attribution.{return, run-Booked, refund, run, consume, Booked, Call}
use titanoboa.Profiling.Datum.{
  merge, adjust_child_net, net_tot_gas, empty, adjust_child, Datum, net_gas,
}
use titanoboa.Profiling.Computation.{
  merge_at, from_trace, adjust_children, from_refunded, by_line, from_used, Line, SourceMap, by_pc,
  Data, Computation,
}
use titanoboa.Profiling.ByPc.{children_net, by_pc-net_gas}
use titanoboa.Profiling.ByLine.{by_line-net_gas, net_of_new}

abbrev left_after : ℕ → ℕ → Result (Unit {0}) ℕ
left_after x m = if leb x m then ok (m - x) else err tt

abbrev plain_meter : GasMeter
plain_meter = record {
  Meter = ℕ;
  Error = Unit;
  consume_gas = λ x m. left_after (pos_part x) m;
  return_gas = λ x m. m + pos_part x;
  refund_gas = λ x m. m;
}

abbrev fresh : ProfilingGasMeter plain_meter
fresh = record { meter = 150; gas_used_of = []; gas_refunded_of = []; program_counter = 0 }

abbrev metered : List Call
metered = consume 1 (pos 100) ∷ refund 1 (pos 20) ∷ return 2 (pos 3) ∷ consume 4 (pos 90) ∷ []

run-Booked_example : Booked plain_meter metered fresh (run plain_meter metered fresh)
run-Booked_example = run-Booked plain_meter metered fresh

adjust_child_net_example :
    (net_gas (
          adjust_child
            (record empty { gas_used = pos 50 })
            (record { gas_used = pos 30; gas_refund = pos 5 }))
        +ℤ (pos 30 -ℤ pos 5)
      ≡ net_gas (record empty { gas_used = pos 50 }))
    × (net_tot_gas (
            adjust_child
              (record empty { gas_used = pos 50 })
              (record { gas_used = pos 30; gas_refund = pos 5 }))
          +ℤ (pos 30 -ℤ pos 5)
          +ℤ (pos 30 -ℤ pos 5)
        ≡ net_tot_gas (record empty { gas_used = pos 50 }))
adjust_child_net_example =
    adjust_child_net (record empty { gas_used = pos 50 })
      (record { gas_used = pos 30; gas_refund = pos 5 })

abbrev computation : Computation
computation = record {
  gas_used_of = (pos 0, pos 100) ∷ (pos 1, pos 50) ∷ [];
  gas_refunded_of = (pos 1, pos 20) ∷ [];
  child_pcs = pos 1 ∷ [];
  children = record { gas_used = pos 30; gas_refund = pos 5 } ∷ [];
  trace = pos 0 ∷ pos 1 ∷ pos 0 ∷ pos 2 ∷ [];
}

abbrev booked : Datum
booked = record {
  gas_used = pos 20;
  gas_refunded = pos 15;
  child_gas_used = pos 30;
  child_gas_refunded = pos 5;
}

abbrev profile : Data
profile = (pos 0, record empty { gas_used = pos 100 }) ∷ (pos 1, booked) ∷ (pos 2, empty) ∷ []

by_pc-computation : by_pc computation ≡ ok profile
unfolding by_pc from_used from_refunded adjust_children from_trace merge_at merge adjust_child ◌+ℤ◌
    ◌-ℤ◌
by_pc-computation = refl

by_pc-net_gas_example :
    sum_by net_gas profile
    ≡ total computation.gas_used_of
      -ℤ total computation.gas_refunded_of
      -ℤ children_net computation.child_pcs computation.children
by_pc-net_gas_example = by_pc-net_gas computation profile (refl, (refl, tt)) by_pc-computation

abbrev source_map : SourceMap
source_map = (pos 0, ("Foo.vy", 3)) ∷ (pos 2, ("Foo.vy", 5)) ∷ []

by_line-net_gas_example :
    (out : Dict Line Datum) × (by_line source_map computation ≡ ok out)
    × (sum_by net_gas out ≡ net_of_new profile computation.trace [])
by_line-net_gas_example = by_line-net_gas source_map computation profile by_pc-computation refl

abbrev contract : ℕ
contract = 1

abbrev lines : Dict Line Datum
lines = (("Foo.vy", 3), booked) ∷ []

abbrev line_profile : Dict (ℕ × Line) Datum
line_profile = ((contract, ("Foo.vy", 3)), booked) ∷ []
