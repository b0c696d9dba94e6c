-- ===== src/Ir/Compile/Locals.antt =====
-- boa/contracts/vyper/ir_executor.py: slots keep the variables in scope apart, and fresh variables
-- are apart from them.
use titanoboa.Prelude.{
  ℕ, suc, ◌+◌, ◌≤◌, ◌<◌, String, ◌≡◌, refl, sym, ap, ◌∙◌, inl, inr, some, [], ◌∷◌, arith,
  Bool-cases, length, ◌==◌, beq_refl, nat_eq, string_eq, bytes_eq, pair_eq,
}
use titanoboa.Ir.{no_nodes, node_then, Nodes, PyName, user, temp}
use titanoboa.Ir.Analyze.Lexical.{slot_of}
use titanoboa.Ir.Eval.{Machine, Scope, find_var, write_var}
use titanoboa.Ir.Python.{Locals, assigned, values_of}
use titanoboa.Ir.Compile.{temps, count}
use titanoboa.Ir.Compile.Simulation.{names_of, Agrees, Fresh}

pub length-names_of : (scope : Scope) → length (names_of scope) ≡ length scope
length-names_of [] = refl
length-names_of ((x, v) ∷ scope) = ap suc (length-names_of scope)

pub slot-find_var :
    (x : String) (scope : Scope) (st : Locals) (slot v : ℕ)
    → Agrees scope st
    → slot_of x (names_of scope) ≡ some slot
    → find_var x scope ≡ some v
    → st (user x slot) ≡ some v
unfolding slot_of
slot-find_var x [] st slot v a s f = absurd (cc f)
slot-find_var x ((y, u) ∷ scope) st slot v a s f = elim (Bool-cases (y == x)) [
  | inl same ↦
      let same_name : y ≡ x = (string_eq.beq_iff y x).0 same in
      let s' = rw same at s in
      let f' = rw same at f in
      let at_slot : length scope ≡ slot = sym (length-names_of scope) ∙ cc s' in
      rw (sym same_name, sym at_slot) (a.0 ∙ f')
  | inr other ↦
      let s' = rw other at s in let f' = rw other at f in slot-find_var x scope st slot v a.1 s' f'
]

slot_of-lt :
    (x : String) (scope : Scope) (slot : ℕ)
    → slot_of x (names_of scope) ≡ some slot
    → slot < length scope
unfolding slot_of
slot_of-lt x [] slot s = absurd (cc s)
slot_of-lt x ((y, u) ∷ scope) slot s =
    ground (arith, slot_of-lt x scope slot, length-names_of scope)

pub Agrees-above :
    (x : String) (slot n : ℕ) (scope : Scope) (st : Locals)
    → length scope ≤ slot
    → Agrees scope st
    → Agrees scope (assigned (user x slot) n st)
unfolding assigned
Agrees-above x slot n [] st h a = tt
Agrees-above x slot n ((y, v) ∷ scope) st h a =
    (ground arith, Agrees-above x slot n scope st (omega arith) a.1)

pub Agrees-temp :
    (i n : ℕ) (scope : Scope) (st : Locals)
    → Agrees scope st
    → Agrees scope (assigned (temp i) n st)
unfolding assigned
Agrees-temp i n [] st a = tt
Agrees-temp i n ((y, v) ∷ scope) st a = (a.0, Agrees-temp i n scope st a.1)

pub names_of-write_var :
    (x : String) (n : ℕ) (scope : Scope) → names_of (write_var x n scope) ≡ names_of scope
names_of-write_var x n [] = refl
names_of-write_var x n ((y, v) ∷ scope) = ground (arith, names_of-write_var x n scope)

length-write_var :
    (x : String) (n : ℕ) (scope : Scope) → length (write_var x n scope) ≡ length scope
length-write_var x n [] = refl
length-write_var x n ((y, v) ∷ scope) = ground (arith, length-write_var x n scope)

pub Agrees-write_var :
    (x : String) (slot n : ℕ) (scope : Scope) (st : Locals)
    → slot_of x (names_of scope) ≡ some slot
    → Agrees scope st
    → Agrees (write_var x n scope) (assigned (user x slot) n st)
unfolding slot_of assigned
Agrees-write_var x slot n [] st s a = tt
Agrees-write_var x slot n ((y, v) ∷ scope) st s a = elim (Bool-cases (y == x)) [
  | inl same ↦
      let s' = rw same at s in
      let at_slot : length scope ≡ slot = sym (length-names_of scope) ∙ cc s' in
      rw same (
        ground (arith, at_slot, string_eq.beq_iff x y, string_eq.beq_iff y x),
        Agrees-above x slot n scope st (omega (arith, at_slot)) a.1,
      )
  | inr other ↦
      let s' = rw other at s in
      let below = slot_of-lt x scope slot s' in
      let e = length-write_var x n scope in
      let written_other : assigned (user x slot) n st (user y (length (write_var x n scope)))
          ≡ some v =
        rw e (ground (arith, a.0, below)) in
      rw other (written_other, Agrees-write_var x slot n scope st s' a.1)
]

pub assigned_self : (x : PyName) (n : ℕ) (st : Locals) → assigned x n st x ≡ some n
unfolding assigned
assigned_self x n st = rw (beq_refl x) refl

pub Fresh-temp :
    (i n id : ℕ) (st st' : Locals)
    → id ≤ i
    → Fresh id st st'
    → Fresh id st (assigned (temp i) n st')
unfolding assigned
Fresh-temp i n id st st' h f j l = ground (arith, f j)

pub Fresh-user :
    (x : String) (slot n id : ℕ) (st st' : Locals)
    → Fresh id st st'
    → Fresh id st (assigned (user x slot) n st')
unfolding assigned
Fresh-user x slot n id st st' f j l = f j l

pub values_of-temps :
    (mc : Machine) (id : ℕ) (args : Nodes) (st st' : Locals)
    → ((i : ℕ) → id ≤ i → i < id + count args → st' (temp i) ≡ st (temp i))
    → values_of mc (temps id args) st' ≡ values_of mc (temps id args) st
values_of-temps mc id no_nodes st st' h = refl
values_of-temps mc id (node_then arg args) st st' h =
    rw
      (
        h id (omega arith) (omega arith),
        values_of-temps mc (suc id) args st st' (λ i a b. h i (omega arith) (omega arith)),
      )
      refl
