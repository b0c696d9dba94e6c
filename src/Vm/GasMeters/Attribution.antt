-- ===== src/Vm/GasMeters/Attribution.antt =====
-- Every unit of gas is booked at a program counter.
use titanoboa.Prelude.{
  ℕ, ◌≡◌, ◌∙◌, [], ◌∷◌, nat_eq, string_eq, bytes_eq, refl, ap, List, ◌++◌, Option, none, some,
  pair_eq, inl, inr, if◌then◌else◌, Bool-cases, ◌==◌,
}
use titanoboa.Prelude.Result.{Result, ok, err}
use titanoboa.Prelude.Int.{ℤ, pos, ◌+ℤ◌, ◌-ℤ◌, int_laws, int_eq}
use titanoboa.Prelude.Dict.{Dict, lookup, insert, lookup-insert}
use titanoboa.Prelude.Sums.{total, old_measure, sum_by-insert, cancel_right}
use titanoboa.Vm.GasMeters.{
  pc_of, consumed, current, GasMeter, ProfilingGasMeter, consume_gas, return_gas, refund_gas,
  add_at, sub_at,
}

current_lem : (o : Option ℤ) → current o ≡ old_measure (λ g. g) o
current_lem none = refl
current_lem (some v) = refl

-- A write moves the total by what it changes at its key.
total-insert :
    (k v : ℤ) (d : Dict ℤ ℤ) → total (insert k v d) +ℤ current (lookup k d) ≡ total d +ℤ v
total-insert k v d =
    ap (λ t. total (insert k v d) +ℤ t) (current_lem (lookup k d)) ∙ sum_by-insert (λ g. g) k v d

total-add_at : (k amount : ℤ) (d : Dict ℤ ℤ) → total (add_at k amount d) ≡ total d +ℤ amount
unfolding add_at
total-add_at k amount d =
    let old = current (lookup k d) in
    cancel_right _ _ old (total-insert k (old +ℤ amount) d ∙ omega int_laws)

total-sub_at : (k amount : ℤ) (d : Dict ℤ ℤ) → total (sub_at k amount d) ≡ total d -ℤ amount
unfolding sub_at
total-sub_at k amount d =
    let old = current (lookup k d) in
    cancel_right _ _ old (total-insert k (old -ℤ amount) d ∙ omega int_laws)

-- The books at one program counter: what stands there moves by what is booked there.
at-add_at :
    (k pc amount : ℤ) (d : Dict ℤ ℤ)
    → current (lookup k (add_at pc amount d))
      ≡ current (lookup k d) +ℤ (if pc == k then amount else pos 0)
unfolding add_at
at-add_at k pc amount d = elim (Bool-cases (pc == k)) [
  | inl same ↦
      rw (lookup-insert pc k (current (lookup pc d) +ℤ amount) d, same)
        (ap (λ z. current (lookup z d) +ℤ amount) ((int_eq.beq_iff pc k).0 same))
  | inr other ↦ rw (lookup-insert pc k (current (lookup pc d) +ℤ amount) d, other) (omega int_laws)
]

at-sub_at :
    (k pc amount : ℤ) (d : Dict ℤ ℤ)
    → current (lookup k (sub_at pc amount d))
      ≡ current (lookup k d) -ℤ (if pc == k then amount else pos 0)
unfolding sub_at
at-sub_at k pc amount d = elim (Bool-cases (pc == k)) [
  | inl same ↦
      rw (lookup-insert pc k (current (lookup pc d) -ℤ amount) d, same)
        (ap (λ z. current (lookup z d) -ℤ amount) ((int_eq.beq_iff pc k).0 same))
  | inr other ↦ rw (lookup-insert pc k (current (lookup pc d) -ℤ amount) d, other) (omega int_laws)
]

-- What a computation asks of its meter, with the program counter at each call.
pub data Call : Type 0 where
  consume return refund : ℕ → ℤ → Call

module _ (g : GasMeter) where
  -- one call, at its program counter
  pub step : Call → ProfilingGasMeter g → Result g.Error (Unit {0}) × ProfilingGasMeter g
  step (consume pc x) m = consume_gas g x (record m { program_counter = pc })
  step (return pc x) m = (ok tt, return_gas g x (record m { program_counter = pc }))
  step (refund pc x) m = (ok tt, refund_gas g x (record m { program_counter = pc }))

  continue :
      Result g.Error (Unit {0}) × ProfilingGasMeter g
      → (ProfilingGasMeter g → Result g.Error (Unit {0}) × ProfilingGasMeter g)
      → Result g.Error (Unit {0}) × ProfilingGasMeter g
  continue (ok _, m) k = k m
  continue (err x, m) k = (err x, m)

  -- The calls of a computation; it ends when the meter raises.
  pub run : List Call → ProfilingGasMeter g → Result g.Error (Unit {0}) × ProfilingGasMeter g
  unfolding continue
  run [] m = (ok tt, m)
  run (c ∷ cs) m = continue (step c m) (run cs)

-- net gas used, and gas refunded
abbrev pub spent : List Call → ℤ
spent [] = pos 0
spent (consume pc x ∷ cs) = x +ℤ spent cs
spent (return pc x ∷ cs) = spent cs -ℤ x
spent (refund pc x ∷ cs) = spent cs

abbrev pub refunded : List Call → ℤ
refunded [] = pos 0
refunded (refund pc x ∷ cs) = x +ℤ refunded cs
refunded (_ ∷ cs) = refunded cs

-- an amount that is booked for a program counter, which is one beyond the instruction, if that is the
-- instruction asked for
abbrev pub at : ℤ → ℕ → ℤ → ℤ
at k pc amount = if (pos pc -ℤ pos 1) == k then amount else pos 0

-- net gas used, and gas refunded, by the instruction at one place
abbrev pub spent_at : ℤ → List Call → ℤ
spent_at k [] = pos 0
spent_at k (consume pc x ∷ cs) = at k pc x +ℤ spent_at k cs
spent_at k (return pc x ∷ cs) = spent_at k cs -ℤ at k pc x
spent_at k (refund pc x ∷ cs) = spent_at k cs

abbrev pub refunded_at : ℤ → List Call → ℤ
refunded_at k [] = pos 0
refunded_at k (refund pc x ∷ cs) = at k pc x +ℤ refunded_at k cs
refunded_at k (_ ∷ cs) = refunded_at k cs

module _ (g : GasMeter) where
  -- The calls that were made, and what stands in the books for them.
  pub record Booked (cs : List Call) (m : ProfilingGasMeter g)
      (o : Result g.Error (Unit {0}) × ProfilingGasMeter g) : Type 0 where
    pub made : List Call
    pub rest : List Call
    pub split : cs ≡ made ++ rest
    pub used : total o.1.gas_used_of ≡ total m.gas_used_of +ℤ spent made
    pub back : total o.1.gas_refunded_of ≡ total m.gas_refunded_of +ℤ refunded made
    pub used_at :
        (k : ℤ)
        → current (lookup k o.1.gas_used_of) ≡ current (lookup k m.gas_used_of) +ℤ spent_at k made
    pub back_at :
        (k : ℤ)
        → current (lookup k o.1.gas_refunded_of)
          ≡ current (lookup k m.gas_refunded_of) +ℤ refunded_at k made
    pub complete : o.0 ≡ ok tt → rest ≡ []

  consumed-Booked :
      (r : Result g.Error g.Meter) (pc : ℕ) (x : ℤ) (cs : List Call) (m : ProfilingGasMeter g)
      → ((m' : ProfilingGasMeter g) → Booked cs m' (run g cs m'))
      → Booked
          (consume pc x ∷ cs)
          m
          (continue g (consumed g x r (record m { program_counter = pc })) (run g cs))
  unfolding consumed continue pc_of
  consumed-Booked (err e) pc x cs m rec = record {
    made = [];
    rest = consume pc x ∷ cs;
    split = refl;
    used = omega int_laws;
    back = omega int_laws;
    used_at = λ k. omega int_laws;
    back_at = λ k. omega int_laws;
    complete = λ h. cc;
  }
  consumed-Booked (ok meter') pc x cs m rec =
      let m₀ : ProfilingGasMeter g = record m { program_counter = pc } in
      let m' : ProfilingGasMeter g = record m₀ {
        meter = meter';
        gas_used_of = add_at (pc_of g m₀) x m.gas_used_of;
      } in
      let b = rec m' in
      record {
        made = consume pc x ∷ b.made;
        rest = b.rest;
        split = ap (◌∷◌ (consume pc x)) b.split;
        used =
            b.used
            ∙ ap (λ t. t +ℤ spent b.made) (total-add_at (pc_of g m₀) x m.gas_used_of)
            ∙ omega int_laws;
        back = b.back;
        used_at = λ k.
            b.used_at k
            ∙ ap (λ t. t +ℤ spent_at k b.made) (at-add_at k (pc_of g m₀) x m.gas_used_of)
            ∙ omega int_laws;
        back_at = b.back_at;
        complete = b.complete;
      }

  -- Whatever is consumed, returned and refunded, and wherever, the books at each program counter hold
  -- what the calls made there used and got back, a call's place being one before the counter of the
  -- code, and together they add up to the calls that were made, all of them unless the meter raised.
  pub run-Booked : (cs : List Call) (m : ProfilingGasMeter g) → Booked cs m (run g cs m)
  unfolding pc_of run step consume_gas return_gas refund_gas
  run-Booked [] m = record {
    made = [];
    rest = [];
    split = refl;
    used = omega int_laws;
    back = omega int_laws;
    used_at = λ k. omega int_laws;
    back_at = λ k. omega int_laws;
    complete = λ h. refl;
  }
  run-Booked (return pc x ∷ cs) m =
      let m₀ : ProfilingGasMeter g = record m { program_counter = pc } in
      let b = run-Booked cs (return_gas g x m₀) in
      record {
        made = return pc x ∷ b.made;
        rest = b.rest;
        split = ap (◌∷◌ (return pc x)) b.split;
        used =
            b.used
            ∙ ap (λ t. t +ℤ spent b.made) (total-sub_at (pc_of g m₀) x m.gas_used_of)
            ∙ omega int_laws;
        back = b.back;
        used_at = λ k.
            b.used_at k
            ∙ ap (λ t. t +ℤ spent_at k b.made) (at-sub_at k (pc_of g m₀) x m.gas_used_of)
            ∙ omega int_laws;
        back_at = b.back_at;
        complete = b.complete;
      }
  run-Booked (refund pc x ∷ cs) m =
      let m₀ : ProfilingGasMeter g = record m { program_counter = pc } in
      let b = run-Booked cs (refund_gas g x m₀) in
      record {
        made = refund pc x ∷ b.made;
        rest = b.rest;
        split = ap (◌∷◌ (refund pc x)) b.split;
        used = b.used;
        used_at = b.used_at;
        back_at = λ k.
            b.back_at k
            ∙ ap (λ t. t +ℤ refunded_at k b.made) (at-add_at k (pc_of g m₀) x m.gas_refunded_of)
            ∙ omega int_laws;
        back =
            b.back
            ∙ ap (λ t. t +ℤ refunded b.made) (total-add_at (pc_of g m₀) x m.gas_refunded_of)
            ∙ omega int_laws;
        complete = b.complete;
      }
  run-Booked (consume pc x ∷ cs) m =
      consumed-Booked (g.consume_gas x m.meter) pc x cs m (run-Booked cs)
