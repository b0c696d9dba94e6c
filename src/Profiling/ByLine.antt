-- ===== src/Profiling/ByLine.antt =====
-- The line profile accounts for exactly the gas of the program counters that it attributes.
use titanoboa.Prelude.{
  ◌≡◌, refl, ap, ◌∙◌, inl, inr, true, Option, none, some, List, [], ◌∷◌, arith, if◌then◌else◌,
  is_some, Bool-cases, Option-cases, Eq, nat_eq, string_eq, bytes_eq, pair_eq,
}
use titanoboa.Prelude.Dict.{Dict, lookup, contains, insert, lookup-insert, lookup-insert_self}
use titanoboa.Prelude.Result.{Result, ok, ok-injective, Result-cases}
use titanoboa.Prelude.Int.{ℤ, pos, ◌+ℤ◌, int_laws, int_eq}
use titanoboa.Prelude.Sums.{sum_by}
use titanoboa.Profiling.Computation.{
  adjust_children, from_used, from_refunded, Computation, merge_at, or_empty, merge_single, by_pc,
  SourceMap, Line, ProfileError, from_trace, Data, lines_from, seen_before, next_node, by_line,
}
use titanoboa.Profiling.Datum.{Datum, net_gas}
use titanoboa.Profiling.ByPc.{sum-merge_at}
use mathlib.Core.Path.{subst}

-- the net gas of the program counters of a trace, each counted the first time it runs
abbrev pub net_of_new : Data → List ℤ → List ℤ → ℤ
net_of_new pcs [] seen = pos 0
net_of_new pcs (pc ∷ trace) seen =
    let again = net_of_new pcs trace seen in
    let first = net_gas (or_empty (lookup pc pcs)) +ℤ net_of_new pcs trace (pc ∷ seen) in
    if seen_before pc seen then again else first

abbrev AllIn : List ℤ → Data → Type 0
AllIn [] ret = Unit
AllIn (pc ∷ trace) ret = (contains pc ret ≡ true) × AllIn trace ret

contains-from_trace :
    (trace : List ℤ) (pc : ℤ) (ret : Data)
    → contains pc ret ≡ true
    → contains pc (from_trace trace ret) ≡ true
unfolding from_trace
contains-from_trace [] pc ret h = h
contains-from_trace (x ∷ trace) pc ret h =
    contains-from_trace trace pc (insert x (or_empty (lookup x ret)) ret)
      (ground (arith, lookup-insert x pc (or_empty (lookup x ret)) ret))

from_trace-AllIn : (trace : List ℤ) (ret : Data) → AllIn trace (from_trace trace ret)
unfolding from_trace
from_trace-AllIn [] ret = tt
from_trace-AllIn (x ∷ trace) ret = (
  contains-from_trace trace x (insert x (or_empty (lookup x ret)) ret)
      (ap is_some (lookup-insert_self x (or_empty (lookup x ret)) ret)),
  from_trace-AllIn trace (insert x (or_empty (lookup x ret)) ret),
)

abbrev Total : Result ProfileError (Dict Line Datum) → ℤ → Type 0
Total r n = (out : Dict Line Datum) × (r ≡ ok out) × (sum_by net_gas out ≡ n)

next_node-some : (o : Option Line) (line : Line) → (n : Line) × (next_node o (some line) ≡ some n)
next_node-some none line = (line, refl)
next_node-some (some n) line = (n, refl)

lines_from-Total :
    (m : SourceMap) (pcs : Data) (trace : List ℤ) (line : Line) (seen : List ℤ)
    (ret : Dict Line Datum)
    → AllIn trace pcs
    → Total
        (lines_from m pcs trace (some line) seen ret)
        (sum_by net_gas ret +ℤ net_of_new pcs trace seen)
unfolding lines_from
lines_from-Total m pcs [] line seen ret h = (ret, refl, omega int_laws)
lines_from-Total m pcs (pc ∷ trace) line seen ret h = elim (Bool-cases (seen_before pc seen)) [
  | inl again ↦ rw (again, lines_from) (lines_from-Total m pcs trace line seen ret h.1)
  | inr first ↦ elim (Option-cases (lookup pc pcs)) [
    | inl miss ↦ absurd (ground (arith, h.0))
    | inr (d, hit) ↦
        let (n, there) = next_node-some (lookup pc m) line in
        let (out, e, s) = lines_from-Total m pcs trace n (pc ∷ seen) (merge_at n d ret) h.1 in
        (
          out,
          rw (first, there, hit, lines_from) e,
          s
              ∙ ap (λ t. t +ℤ net_of_new pcs trace (pc ∷ seen)) (sum-merge_at n d ret)
              ∙ rw (first, hit) (omega int_laws),
        )
  ]
]

-- the program counter that a trace starts with has a line
abbrev pub StartsAtLine : SourceMap → List ℤ → Type 0
StartsAtLine m [] = Unit
StartsAtLine m (pc ∷ trace) = contains pc m ≡ true

lines_from-start :
    (m : SourceMap) (pcs : Data) (trace : List ℤ)
    → AllIn trace pcs
    → StartsAtLine m trace
    → Total (lines_from m pcs trace none [] []) (net_of_new pcs trace [])
unfolding lines_from
lines_from-start m pcs [] h start = ([], refl, refl)
lines_from-start m pcs (pc ∷ trace) h start = elim (Option-cases (lookup pc m)) [
  | inl miss ↦ absurd (ground (arith, start))
  | inr (n, there) ↦ elim (Option-cases (lookup pc pcs)) [
    | inl miss ↦ absurd (ground (arith, h.0))
    | inr (d, hit) ↦
        let (out, e, s) = lines_from-Total m pcs trace n (pc ∷ []) (merge_at n d []) h.1 in
        (
          out,
          rw (there, hit, lines_from) e,
          s
              ∙ ap (λ t. t +ℤ net_of_new pcs trace (pc ∷ [])) (sum-merge_at n d [])
              ∙ rw hit (omega int_laws),
        )
  ]
]

-- Where `by_pc` returns and the trace starts at a mapped program counter, `by_line` returns too,
-- and the net gas of its lines is that of the program counters of the trace, each counted once.
pub by_line-net_gas :
    (m : SourceMap) (c : Computation) (d : Data)
    → by_pc c ≡ ok d
    → StartsAtLine m c.trace
    → (out : Dict Line Datum) × (by_line m c ≡ ok out)
      × (sum_by net_gas out ≡ net_of_new d c.trace [])
unfolding by_line by_pc
by_line-net_gas m c d h start =
    let ret = from_refunded c.gas_refunded_of (from_used c.gas_used_of []) in
    elim (Result-cases (adjust_children c.child_pcs c.children ret)) [
      | inl (x, e) ↦
          let same : from_trace c.trace x ≡ d = ok-injective (rw e at h) in
          let (out, r, s) =
            lines_from-start m d c.trace (subst (AllIn c.trace) same (from_trace-AllIn c.trace x))
              start in
          (out, rw (e, same) r, s)
      | inr (x, e) ↦ absurd (ground arith)
    ]

-- `merge_single` adds the net gas of a contract's lines to the profile's.
pub merge_single-net_gas {ℓ} :
    {C : Type ℓ} ⦃e : Eq C⦄ (contract : C) (lines : Dict Line Datum)
    (profile : Dict (C × Line) Datum)
    → sum_by net_gas (merge_single contract lines profile)
      ≡ sum_by net_gas profile +ℤ sum_by net_gas lines
unfolding merge_single
merge_single-net_gas contract [] profile = omega int_laws
merge_single-net_gas contract ((line, datum) ∷ lines) profile =
    merge_single-net_gas contract lines (merge_at (contract, line) datum profile)
    ∙ ap (λ t. t +ℤ sum_by net_gas lines) (sum-merge_at (contract, line) datum profile)
    ∙ omega int_laws
