-- ===== src/Ir/Compile/Scopes.antt =====
-- boa/contracts/vyper/ir_executor.py: branches, variables and loops do what they mean.
use titanoboa.Prelude.{
  ℕ, zero, suc, ◌+◌, ◌≤◌, String, ◌≡◌, refl, sym, ◌∙◌, inl, inr, Option, none, some, List, ◌∷◌,
  arith, leb, nat_beq, if◌then◌else◌, Bool-cases, length, nat_eq, string_eq, bytes_eq, pair_eq,
}
use titanoboa.Ir.{repeat_node, set_node, with_node, if_else_node, Node, PyName, user, temp}
use titanoboa.Ir.Analyze.Lexical.{slot_of}
use titanoboa.Ir.Eval.{too_many_rounds, out_of_scope, write_var, rounds_from, Machine, Scope, eval}
use titanoboa.Ir.Python.{
  for_range, end_block, assigned, assert_le, if_else_block, then_do, iterate, Block, Locals, exec,
  exec_block, append,
}
use titanoboa.Ir.Compile.{line}
use titanoboa.Ir.Compile.Simulation.{
  Good-later, Sim-next_round, Sim-out_of_scope, Sim-no_value, Sim-with_value, Good, Sim,
}
use titanoboa.Ir.Compile.Right.{
  Good-enter, exec-line, Right-from, kept, Good-temp, start_Good, then_run-fell, Sim-append, Right,
}
use titanoboa.Ir.Compile.Leaves.{find_slot}
use titanoboa.Ir.Compile.Locals.{Fresh-user, Agrees-write_var, assigned_self, names_of-write_var}

module _ (mc : Machine) where
  pub Right-if_else :
      (test body orelse : Node) (names : List String) (out : Option PyName) (id : ℕ)
      (t b e : Block × ℕ)
      → Right mc names test (some (temp id)) (suc id) t
      → Right mc names body out t.1 b
      → Right mc names orelse out b.1 e
      → Right mc names
          (if_else_node test body orelse)
          out
          id
          (append t.0 (line (if_else_block (temp id) b.0 e.0)), e.1)
  unfolding eval exec
  Right-if_else test body orelse names out id t b c p q r = (
    omega (arith, p.0, q.0, r.0),
    λ scope st m e a.
        Sim-append mc names id (suc id) test (temp id) out _ t
          (line (if_else_block (temp id) b.0 c.0)) scope st st m p (omega arith)
          (start_Good mc names id scope st e a)
          (λ n scope' st' m' g.
            let st1 = assigned (temp id) n st' in
            let good =
              Good-temp mc names id id n st scope' st' (omega arith) (
                Good-later mc names id (suc id) st st scope' st' (omega arith) (kept mc id st) g) in
            rw
              (exec-line mc (if_else_block (temp id) b.0 c.0) st1 m', assigned_self (temp id) n st')
              (elim (Bool-cases (nat_beq n 0)) [
                | inl z ↦ rw z (
                    Right-from mc names orelse out id b.1 c st scope' st1 m' r
                      (omega (arith, p.0, q.0)) good)
                | inr z ↦ rw z (
                    Right-from mc names body out id t.1 b st scope' st1 m' q (omega (arith, p.0))
                      good)
              ])),
  )

  pub Right-with :
      (x : String) (slot : ℕ) (val body : Node) (names : List String) (out : Option PyName) (id : ℕ)
      (v b : Block × ℕ)
      → slot ≡ length names
      → Right mc names val (some (user x slot)) id v
      → Right mc (x ∷ names) body out v.1 b
      → Right mc names (with_node x slot val body) out id (append v.0 b.0, b.1)
  unfolding eval
  Right-with x slot val body names out id v b h p q = (
    omega (arith, p.0, q.0),
    λ scope st m e a.
        Sim-append mc names id id val (user x slot) out _ v b.0 scope st st m p (omega arith)
          (start_Good mc names id scope st e a)
          (λ n scope' st' m' g.
            let st1 = assigned (user x slot) n st' in
            Sim-out_of_scope mc x names id st out (eval mc body ((x, n) ∷ scope') m')
              (exec_block mc b.0 st1 m')
              (Right-from mc (x ∷ names) body out id v.1 b st ((x, n) ∷ scope') st1 m' q p.0
                (Good-enter mc x slot n names id st scope' st' h g))),
  )

  pub Right-set :
      (x : String) (slot : ℕ) (val : Node) (names : List String) (out : Option PyName) (id : ℕ)
      (v : Block × ℕ)
      → slot_of x names ≡ some slot
      → Right mc names val (some (user x slot)) id v
      → Right mc names (set_node x slot val) out id v
  unfolding eval exec_block
  Right-set x slot val names out id v h p = (
    p.0,
    λ scope st m e a. rw (sym (then_run-fell mc (exec_block mc v.0 st m))) (
        Sim-with_value mc names id id st st (user x slot) out _ (exec_block mc end_block)
          (eval mc val scope m) (exec_block mc v.0 st m) (omega arith) (kept mc id st)
          (p.1 scope st m e a)
          (λ n scope' st' m' g.
            Sim-no_value mc names id st out (write_var x n scope') (assigned (user x slot) n st') m'
              (
                names_of-write_var x n scope' ∙ g.0,
                Agrees-write_var x slot n scope' st' (find_slot mc x names scope' slot g.0 h) g.1,
                Fresh-user x slot n id st st' g.2,
              ))),
  )

  -- the rounds of a loop, from one on
  loop-Sim :
      (x : String) (slot : ℕ) (body : Node) (names : List String) (out : Option PyName) (id id1 : ℕ)
      (b : Block × ℕ) (st : Locals) (rounds i : ℕ) (scope : Scope) (st1 : Locals) (m : mc.M)
      → slot ≡ length names
      → Right mc (x ∷ names) body none id1 b
      → id ≤ id1
      → Good names id st scope st1
      → Sim mc names id st out
          (rounds_from mc x (eval mc body) rounds i scope m)
          (iterate mc (user x slot) (exec_block mc b.0) rounds i st1 m)
  loop-Sim x slot body names out id id1 b st zero i scope st1 m h p l g =
      Sim-no_value mc names id st out scope st1 m g
  loop-Sim x slot body names out id id1 b st (suc rounds) i scope st1 m h p l g =
      let st2 = assigned (user x slot) i st1 in
      Sim-next_round mc names id st out (rounds_from mc x (eval mc body) rounds (suc i))
        (iterate mc (user x slot) (exec_block mc b.0) rounds (suc i))
        (out_of_scope mc (eval mc body ((x, i) ∷ scope) m)) (exec_block mc b.0 st2 m)
        (Sim-out_of_scope mc x names id st none (eval mc body ((x, i) ∷ scope) m)
          (exec_block mc b.0 st2 m)
          (Right-from mc (x ∷ names) body none id id1 b st ((x, i) ∷ scope) st2 m p l
            (Good-enter mc x slot i names id st scope st1 h g)))
        (λ scope' st' m' g'.
          loop-Sim x slot body names out id id1 b st rounds (suc i) scope' st' m' h p l g')

  assigned_other : (id k : ℕ) (st : Locals) → assigned (temp (suc id)) k st (temp id) ≡ st (temp id)
  unfolding assigned
  assigned_other id k st = ground arith

  -- the assertion and the loop, once the start and the number of the rounds are there
  loop_code :
      (x : String) (slot bound : ℕ) (body : Node) (names : List String) (out : Option PyName)
      (id id1 : ℕ) (b : Block × ℕ) (st : Locals) (n k : ℕ) (scope : Scope) (st1 : Locals) (m : mc.M)
      → slot ≡ length names
      → Right mc (x ∷ names) body none id1 b
      → id ≤ id1
      → st1 (temp id) ≡ some n
      → st1 (temp (suc id)) ≡ some k
      → Good names id st scope st1
      → Sim mc names id st out
          (if leb k bound
            then rounds_from mc x (eval mc body) k n scope m
            else (too_many_rounds, scope, m))
          (exec_block mc
            (then_do
              (assert_le (temp (suc id)) bound)
              (line (for_range (user x slot) (temp id) (temp (suc id)) b.0)))
            st1
            m)
  unfolding exec exec_block
  loop_code x slot bound body names out id id1 b st n k scope st1 m h p l a c g =
      elim (Bool-cases (leb k bound)) [
        | inl fits ↦
            rw
              (
                c,
                fits,
                a,
                c,
                then_run-fell mc (iterate mc (user x slot) (exec_block mc b.0) k n st1 m),
              )
              (loop-Sim x slot body names out id id1 b st k n scope st1 m h p l g)
        | inr above ↦ rw (c, above) refl
      ]

  pub Right-repeat :
      (x : String) (slot : ℕ) (start rounds : Node) (bound : ℕ) (body : Node) (names : List String)
      (out : Option PyName) (id : ℕ) (s r b : Block × ℕ)
      → slot ≡ length names
      → Right mc names start (some (temp id)) (id + 2) s
      → Right mc names rounds (some (temp (suc id))) s.1 r
      → Right mc (x ∷ names) body none r.1 b
      → Right mc names (repeat_node x slot start rounds bound body) out id (
        append s.0 (
            append r.0 (
              then_do
                (assert_le (temp (suc id)) bound)
                (line (for_range (user x slot) (temp id) (temp (suc id)) b.0)))),
        b.1,
      )
  unfolding eval exec exec_block
  Right-repeat x slot start rounds bound body names out id s r b h p q w = (
    omega (arith, p.0, q.0, w.0),
    λ scope st m e a.
        Sim-append mc names id (id + 2) start (temp id) out _ s _ scope st st m p (omega arith)
          (start_Good mc names id scope st e a)
          (λ n scope1 st1 m1 g1.
            let st2 = assigned (temp id) n st1 in
            let good =
              Good-temp mc names id id n st scope1 st1 (omega arith) (
                Good-later mc names id (id + 2) st st scope1 st1 (omega arith) (kept mc id st)
                  g1) in
            Sim-append mc names id s.1 rounds (temp (suc id)) out _ r _ scope1 st st2 m1 q
              (omega (arith, p.0)) good
              (λ k scope2 st3 m2 g3.
                let st4 = assigned (temp (suc id)) k st3 in
                let start_kept : st4 (temp id) ≡ some n =
                  assigned_other id k st3
                  ∙ (g3.2 id (omega (arith, p.0)) ∙ assigned_self (temp id) n st1) in
                let good4 =
                  Good-temp mc names id (suc id) k st scope2 st3 (omega arith)
                    (Good-later mc names id s.1 st st2 scope2 st3 (omega (arith, p.0)) good.2 g3) in
                loop_code x slot bound body names out id r.1 b st n k scope2 st4 m2 h w
                  (omega (arith, p.0, q.0)) start_kept (assigned_self (temp (suc id)) k st3)
                  good4)),
  )
