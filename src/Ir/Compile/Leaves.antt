-- ===== src/Ir/Compile/Leaves.antt =====
-- boa/contracts/vyper/ir_executor.py: the code of numbers, variables and `if` without `else`.
use titanoboa.Prelude.{
  ℕ, String, ◌≡◌, refl, Option, none, some, List, arith, nat_eq, string_eq, bytes_eq, pair_eq, suc,
  inl, inr, nat_beq, Bool-cases, Option-cases,
}
use titanoboa.Ir.{user, temp, if_node, variable, int_node, Node, PyName}
use titanoboa.Ir.Analyze.Lexical.{slot_of}
use titanoboa.Ir.Eval.{find_var, value, Machine, Scope, eval}
use titanoboa.Ir.Python.{
  if_block, assigned, local, literal, Block, Locals, exec, exec_block, append,
}
use titanoboa.Ir.Compile.{line, emit}
use titanoboa.Ir.Compile.Simulation.{
  Sim-without_value, Sim-no_value, Good-later, names_of, Good, Sim,
}
use titanoboa.Ir.Compile.Locals.{assigned_self, slot-find_var}
use titanoboa.Ir.Compile.Right.{
  Right, start_Good, Right-from, Good-temp, kept, Sim-append, exec-line,
}

module _ (mc : Machine) where
  pub Right-int :
      (n : ℕ) (names : List String) (out : Option PyName) (id : ℕ)
      → Right mc names (int_node n) out id (emit out (literal n), id)
  unfolding eval exec exec_block
  Right-int n names none id =
      (omega arith, λ scope st m e a. (refl, start_Good mc names id scope st e a))
  Right-int n names (some o) id =
      (omega arith, λ scope st m e a. (refl, (st, refl, start_Good mc names id scope st e a)))

  pub find_slot :
      (x : String) (names : List String) (scope : Scope) (slot : ℕ)
      → names_of scope ≡ names
      → slot_of x names ≡ some slot
      → slot_of x (names_of scope) ≡ some slot
  find_slot x names scope slot e h = rw e h

  emit_local :
      (names : List String) (id : ℕ) (out : Option PyName) (x : PyName) (v : ℕ) (scope : Scope)
      (st : Locals) (m : mc.M)
      → st x ≡ some v
      → Good names id st scope st
      → Sim mc names id st out (value v, scope, m) (exec_block mc (emit out (local x)) st m)
  unfolding exec exec_block
  emit_local names id none x v scope st m h g = rw h (refl, g)
  emit_local names id (some o) x v scope st m h g = rw h (refl, (st, refl, g))

  pub Right-variable :
      (x : String) (slot : ℕ) (names : List String) (out : Option PyName) (id : ℕ)
      → slot_of x names ≡ some slot
      → Right mc names (variable x slot) out id (emit out (local (user x slot)), id)
  unfolding eval
  Right-variable x slot names out id h = (
    omega arith,
    λ scope st m e a. elim (Option-cases (find_var x scope)) [
      | inl f ↦ rw f tt
      | inr (v, f) ↦ rw f (
          emit_local names id out (user x slot) v scope st m
            (slot-find_var x scope st slot v a (find_slot x names scope slot e h) f)
            (start_Good mc names id scope st e a))
    ],
  )

  pub Right-if :
      (test body : Node) (names : List String) (out : Option PyName) (id : ℕ) (t b : Block × ℕ)
      → Right mc names test (some (temp id)) (suc id) t
      → Right mc names body out t.1 b
      → Right mc names (if_node test body) out id (append t.0 (line (if_block (temp id) b.0)), b.1)
  unfolding eval exec
  Right-if test body names out id t b p q = (
    omega (arith, p.0, q.0),
    λ scope st m e a.
        Sim-append mc names id (suc id) test (temp id) out _ t (line (if_block (temp id) b.0)) scope
          st st m p (omega arith) (start_Good mc names id scope st e a)
          (λ n scope' st' m' g.
            let st1 = assigned (temp id) n st' in
            let good =
              Good-temp mc names id id n st scope' st' (omega arith) (
                Good-later mc names id (suc id) st st scope' st' (omega arith) (kept mc id st) g) in
            rw (exec-line mc (if_block (temp id) b.0) st1 m', assigned_self (temp id) n st')
              (elim (Bool-cases (nat_beq n 0)) [
                | inl z ↦ rw z (Sim-no_value mc names id st out scope' st1 m' good)
                | inr z ↦ rw z (
                    Sim-without_value mc names id st out (eval mc body scope' m')
                      (exec_block mc b.0 st1 m')
                      (Right-from mc names body out id t.1 b st scope' st1 m' q (omega (arith, p.0))
                        good))
              ])),
  )
