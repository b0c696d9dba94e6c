-- ===== src/Profiling/Computation.antt =====
-- `_SingleComputation` and `LineProfile.merge_single` of boa/profiling.py.
use titanoboa.Prelude.{
  ℕ, String, Bool, true, false, ◌||◌, Option, none, some, List, [], ◌∷◌, map, Eq, ◌==◌, nat_eq,
  string_eq, bytes_eq, pair_eq,
}
use titanoboa.Prelude.Int.{ℤ, int_eq}
use titanoboa.Prelude.Dict.{Dict, lookup, insert}
use titanoboa.Prelude.Result.{Result, ok, ◌>>=◌, or_raise}
use titanoboa.Profiling.Datum.{Datum, empty, merge, Child, adjust_child}

pub record Computation : Type 0 where
  -- of the gas meter
  pub gas_used_of : Dict ℤ ℤ
  pub gas_refunded_of : Dict ℤ ℤ
  -- of the calls that it made, and the program counters that it ran
  pub child_pcs : List ℤ
  pub children : List Child
  pub trace : List ℤ

pub data ProfileError : Type 0 where
  key_error : ProfileError

abbrev pub Data : Type 0
Data = Dict ℤ Datum

abbrev pub or_empty : Option Datum → Datum
or_empty none = empty
or_empty (some d) = d

-- `ret.setdefault(k, Datum()).merge(d)`
unfoldable pub merge_at {ℓ} : {K : Type ℓ} ⦃e : Eq K⦄ → K → Datum → Dict K Datum → Dict K Datum
merge_at k d ret = insert k (merge (or_empty (lookup k ret)) d) ret

-- the four loops of `by_pc`
unfoldable pub from_used : Dict ℤ ℤ → Data → Data
from_used [] ret = ret
from_used ((pc, gas) ∷ used) ret = from_used used (insert pc (record empty { gas_used = gas }) ret)

unfoldable pub from_refunded : Dict ℤ ℤ → Data → Data
from_refunded [] ret = ret
from_refunded ((pc, gas) ∷ refunded) ret =
    from_refunded refunded (merge_at pc (record empty { gas_refunded = gas }) ret)

unfoldable pub adjust_children : List ℤ → List Child → Data → Result ProfileError Data
adjust_children (pc ∷ pcs) (child ∷ children) ret = do
  d ← or_raise (lookup pc ret) key_error
  adjust_children pcs children (insert pc (adjust_child d child) ret)
adjust_children _ _ ret = ok ret

unfoldable pub from_trace : List ℤ → Data → Data
from_trace [] ret = ret
from_trace (pc ∷ trace) ret = from_trace trace (insert pc (or_empty (lookup pc ret)) ret)

unfoldable pub by_pc : Computation → Result ProfileError Data
by_pc c = do
  ret ←
      adjust_children c.child_pcs c.children
        (from_refunded c.gas_refunded_of (from_used c.gas_used_of []))
  ok (from_trace c.trace ret)

-- a path and a line number
abbrev pub Line : Type 0
Line = String × ℕ

-- the source map: the line of the node at a program counter
abbrev pub SourceMap : Type 0
SourceMap = Dict ℤ Line

-- `new_node` if there is one
abbrev pub next_node : Option Line → Option Line → Option Line
next_node (some n) at = some n
next_node none at = at

abbrev pub seen_before : ℤ → List ℤ → Bool
seen_before pc [] = false
seen_before pc (x ∷ seen) = (x == pc) || seen_before pc seen

-- the loop of `by_line`, with the current node, `seen` and `ret`
unfoldable pub lines_from :
    SourceMap
    → Data
    → List ℤ
    → Option Line
    → List ℤ
    → Dict Line Datum
    → Result ProfileError (Dict Line Datum)
lines_from map pcs [] at seen ret = ok ret
lines_from map pcs (pc ∷ trace) at seen ret =
    let again = lines_from map pcs trace at seen ret in
    let unmapped = lines_from map pcs trace none seen ret in
    elim (seen_before pc seen) [
      | true ↦ again
      | false ↦ elim (next_node (lookup pc map) at) [
        | none ↦ unmapped
        | some line ↦ or_raise (lookup pc pcs) key_error >>= λ d.
            lines_from map pcs trace (some line) (pc ∷ seen) (merge_at line d ret)
      ]
    ]

unfoldable pub by_line : SourceMap → Computation → Result ProfileError (Dict Line Datum)
by_line map c = do pcs ← by_pc c; lines_from map pcs c.trace none [] []

-- `LineProfile.merge_single`: the lines of one contract go into a profile over all contracts
unfoldable pub merge_single {ℓ} :
    {C : Type ℓ} ⦃e : Eq C⦄ → C → Dict Line Datum → Dict (C × Line) Datum → Dict (C × Line) Datum
merge_single contract [] profile = profile
merge_single contract ((line, datum) ∷ lines) profile =
    merge_single contract lines (merge_at (contract, line) datum profile)
