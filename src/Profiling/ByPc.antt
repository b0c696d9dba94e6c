-- ===== src/Profiling/ByPc.antt =====
-- `by_pc` accounts for exactly the gas that a computation used itself.
use titanoboa.Prelude.{
  ◌≡◌, refl, sym, ap, ◌∙◌, inl, inr, false, Option, none, some, List, [], ◌∷◌, arith, Option-cases,
  Eq, nat_eq, string_eq, bytes_eq, pair_eq,
}
use titanoboa.Prelude.Int.{ℤ, pos, ◌+ℤ◌, ◌-ℤ◌, int_laws, int_eq, int_beq_iff}
use titanoboa.Prelude.Dict.{Dict, lookup, contains, insert, Distinct, lookup-insert}
use titanoboa.Prelude.Result.{ok, ok-injective, Result-cases}
use titanoboa.Prelude.Sums.{total, sum_by, old_measure, sum_by-insert, cancel_right}
use titanoboa.Profiling.Datum.{
  Datum, empty, merge, net_gas, net_gas-merge, Child, adjust_child, adjust_child_net,
}
use titanoboa.Profiling.Computation.{
  Computation, Data, or_empty, merge_at, from_used, from_refunded, adjust_children, from_trace,
  by_pc,
}
use mathlib.Core.Path.{subst}

-- the net gas of the children that were called at the listed program counters
abbrev pub children_net : List ℤ → List Child → ℤ
children_net (pc ∷ pcs) (c ∷ cs) = (c.gas_used -ℤ c.gas_refund) +ℤ children_net pcs cs
children_net _ _ = pos 0

net_gas-empty : net_gas empty ≡ pos 0
unfolding net_gas
net_gas-empty = omega int_laws

net_gas-used : (g : ℤ) → net_gas (record empty { gas_used = g }) ≡ g
unfolding net_gas
net_gas-used g = omega int_laws

net_gas-refunded : (g : ℤ) → net_gas (record empty { gas_refunded = g }) ≡ pos 0 -ℤ g
unfolding net_gas
net_gas-refunded g = omega int_laws

net_gas-or_empty : (o : Option Datum) → net_gas (or_empty o) ≡ old_measure net_gas o
net_gas-or_empty none = net_gas-empty
net_gas-or_empty (some d) = refl

-- Merging a datum into any entry adds its net gas to the sum.
pub sum-merge_at {ℓ} :
    {K : Type ℓ} ⦃e : Eq K⦄ (k : K) (d : Datum) (ret : Dict K Datum)
    → sum_by net_gas (merge_at k d ret) ≡ sum_by net_gas ret +ℤ net_gas d
unfolding merge_at
sum-merge_at k d ret =
    let old = lookup k ret in
    let m = merge (or_empty old) d in
    cancel_right _ _ (old_measure net_gas old) (
      sum_by-insert net_gas k m ret
      ∙ ap (λ t. sum_by net_gas ret +ℤ t)
          (net_gas-merge (or_empty old) d ∙ ap (λ t. t +ℤ net_gas d) (net_gas-or_empty old))
      ∙ omega int_laws)

sum-from_refunded :
    (refunded : Dict ℤ ℤ) (ret : Data)
    → sum_by net_gas (from_refunded refunded ret) ≡ sum_by net_gas ret -ℤ total refunded
unfolding from_refunded
sum-from_refunded [] ret = omega int_laws
sum-from_refunded ((pc, g) ∷ refunded) ret =
    let d = record empty { gas_refunded = g } in
    sum-from_refunded refunded (merge_at pc d ret)
    ∙ ap (λ t. t -ℤ total refunded)
        (sum-merge_at pc d ret ∙ ap (λ t. sum_by net_gas ret +ℤ t) (net_gas-refunded g))
    ∙ omega int_laws

sum-from_trace :
    (trace : List ℤ) (ret : Data) → sum_by net_gas (from_trace trace ret) ≡ sum_by net_gas ret
unfolding from_trace
sum-from_trace [] ret = refl
sum-from_trace (pc ∷ trace) ret =
    let old = lookup pc ret in
    sum-from_trace trace (insert pc (or_empty old) ret)
    ∙ cancel_right _ _ (old_measure net_gas old) (
        sum_by-insert net_gas pc (or_empty old) ret
        ∙ ap (λ t. sum_by net_gas ret +ℤ t) (net_gas-or_empty old))

adjusted :
    (d s' s nx na n m : ℤ) → d ≡ s' -ℤ m → s' +ℤ nx ≡ s +ℤ na → na +ℤ n ≡ nx → d ≡ s -ℤ (n +ℤ m)
adjusted d s' s nx na n m p q r = grind (int_laws, p, q, r)

sum-adjust_children :
    (pcs : List ℤ) (children : List Child) (ret d : Data)
    → adjust_children pcs children ret ≡ ok d
    → sum_by net_gas d ≡ sum_by net_gas ret -ℤ children_net pcs children
unfolding adjust_children
sum-adjust_children [] children ret d h =
    ap (sum_by net_gas) (sym (ok-injective h)) ∙ omega int_laws
sum-adjust_children (pc ∷ pcs) [] ret d h =
    ap (sum_by net_gas) (sym (ok-injective h)) ∙ omega int_laws
sum-adjust_children (pc ∷ pcs) (c ∷ cs) ret d h = elim (Option-cases (lookup pc ret)) [
  | inl miss ↦ ground arith
  | inr (x, hit) ↦
      adjusted _ _ _ _ _ (c.gas_used -ℤ c.gas_refund) (children_net pcs cs)
        (sum-adjust_children pcs cs (insert pc (adjust_child x c) ret) d (rw hit at h))
        (subst
          (λ o.
            sum_by net_gas (insert pc (adjust_child x c) ret) +ℤ old_measure net_gas o
            ≡ sum_by net_gas ret +ℤ net_gas (adjust_child x c))
          hit (sum_by-insert net_gas pc (adjust_child x c) ret))
        (adjust_child_net x c).0
]

-- the keys of a dict that the result does not hold yet
abbrev New : Dict ℤ ℤ → Data → Type 0
New [] ret = Unit
New ((k, g) ∷ d) ret = (contains k ret ≡ false) × New d ret

New-insert :
    (used : Dict ℤ ℤ) (k : ℤ) (d : Datum) (ret : Data)
    → contains k used ≡ false
    → New used ret
    → New used (insert k d ret)
New-insert [] k d ret c h = tt
New-insert ((j, g) ∷ used) k d ret c h = (
  ground (arith, lookup-insert k j d ret, int_beq_iff k j, int_beq_iff j k),
  New-insert used k d ret (ground arith) h.1,
)

New-empty : (used : Dict ℤ ℤ) → New used []
New-empty [] = tt
New-empty ((k, g) ∷ used) = (refl, New-empty used)

sum-insert_new :
    (k g : ℤ) (ret : Data)
    → contains k ret ≡ false
    → sum_by net_gas (insert k (record empty { gas_used = g }) ret) ≡ sum_by net_gas ret +ℤ g
sum-insert_new k g ret c = elim (Option-cases (lookup k ret)) [
  | inl miss ↦ cancel_right _ _ (pos 0) (
      subst
        (λ o.
          sum_by net_gas (insert k (record empty { gas_used = g }) ret) +ℤ old_measure net_gas o
          ≡ sum_by net_gas ret +ℤ net_gas (record empty { gas_used = g }))
        miss (sum_by-insert net_gas k (record empty { gas_used = g }) ret)
      ∙ ap (λ t. sum_by net_gas ret +ℤ t) (net_gas-used g)
      ∙ omega int_laws)
  | inr (d, hit) ↦ ground arith
]

sum-from_used :
    (used : Dict ℤ ℤ) (ret : Data)
    → Distinct used
    → New used ret
    → sum_by net_gas (from_used used ret) ≡ sum_by net_gas ret +ℤ total used
unfolding from_used
sum-from_used [] ret h n = omega int_laws
sum-from_used ((pc, g) ∷ used) ret h n =
    sum-from_used used (insert pc (record empty { gas_used = g }) ret) h.1
      (New-insert used pc (record empty { gas_used = g }) ret h.0 n.1)
    ∙ ap (λ t. t +ℤ total used) (sum-insert_new pc g ret n.0)
    ∙ omega int_laws

-- Where the meter's dict holds a key once and `by_pc` returns, the net gas over all program counters
-- is what the meter booked, less the refunds and less what
-- the called computations account for themselves.
pub by_pc-net_gas :
    (c : Computation) (d : Data)
    → Distinct c.gas_used_of
    → by_pc c ≡ ok d
    → sum_by net_gas d
      ≡ total c.gas_used_of -ℤ total c.gas_refunded_of -ℤ children_net c.child_pcs c.children
unfolding by_pc
by_pc-net_gas c d distinct h =
    let ret = from_refunded c.gas_refunded_of (from_used c.gas_used_of []) in
    elim (Result-cases (adjust_children c.child_pcs c.children ret)) [
      | inl (x, e) ↦
          ap (sum_by net_gas) (sym (ok-injective (rw e at h)))
          ∙ sum-from_trace c.trace x
          ∙ sum-adjust_children c.child_pcs c.children ret x e
          ∙ ap (λ t. t -ℤ children_net c.child_pcs c.children)
              (sum-from_refunded c.gas_refunded_of (from_used c.gas_used_of [])
                ∙ ap (λ t. t -ℤ total c.gas_refunded_of)
                    (sum-from_used c.gas_used_of [] distinct (New-empty c.gas_used_of)))
          ∙ omega int_laws
      | inr (x, e) ↦ ground arith
    ]
