-- ===== src/Ir/Compile/Primitives.antt =====
-- boa/contracts/vyper/ir_executor.py: primitives get their arguments, and sequences run in order.
use titanoboa.Prelude.{
  ℕ, suc, ◌+◌, ◌≤◌, ◌<◌, String, ◌≡◌, refl, ◌∙◌, ◌⊎◌, inl, inr, Bool, true, false, Option, none,
  some, List, [], ◌∷◌, arith, nat_eq, string_eq, bytes_eq, pair_eq,
}
use titanoboa.Prelude.Result.{ok}
use titanoboa.Ir.{prim_node, node_then, no_nodes, Node, Nodes, PyName, temp}
use titanoboa.Ir.Eval.{performed, Machine, Scope, eval, eval_args, eval_seq}
use titanoboa.Ir.Python.{
  then_run, pass_stmt, end_block, Block, assigned, assign, bare, call, stored, values_of, Locals,
  exec, exec_block, append,
}
use titanoboa.Ir.Compile.{temps, count, line, emit_prim}
use titanoboa.Ir.Compile.Simulation.{
  Good-later, Sim-with_value, Sim-later, Sim-go_on, Sim-no_value, Fresh, Good, Sim,
}
use titanoboa.Ir.Compile.Right.{
  Good-temp, then_run_assoc, exec-append, start_Good, exec-line, Each, Right, RightSeq, RightArgs,
}
use titanoboa.Ir.Compile.Locals.{assigned_self, values_of-temps}
use mathlib.Core.Path.{subst}

module _ (mc : Machine) where
  stored-Sim :
      (names : List String) (id : ℕ) (out : Option PyName) (st : Locals) (scope : Scope)
      (st' : Locals) (res : (ℕ ⊎ mc.X) × mc.M)
      → Good names id st scope st'
      → Sim mc names id st out (performed mc true scope res) (stored mc out st' res)
  stored-Sim names id none st scope st' (inl n, m) g = (refl, g)
  stored-Sim names id (some o) st scope st' (inl n, m) g = (refl, (st', refl, g))
  stored-Sim names id none st scope st' (inr x, m) g = (refl, refl)
  stored-Sim names id (some o) st scope st' (inr x, m) g = (refl, refl)

  bare-Sim :
      (names : List String) (id : ℕ) (st : Locals) (scope : Scope) (st' : Locals)
      (res : (ℕ ⊎ mc.X) × mc.M)
      → Good names id st scope st'
      → Sim mc names id st none (performed mc false scope res) (stored mc none st' res)
  bare-Sim names id st scope st' (inl n, m) g = (refl, g)
  bare-Sim names id st scope st' (inr x, m) g = (refl, refl)

  -- the line of a primitive, once its arguments have their values
  emit_prim-Each :
      (b : Bool) (p : String) (ts : List PyName) (names : List String) (id id1 : ℕ)
      (out : Option PyName) (vs : List ℕ)
      → Each
          (λ c.
            (id1 ≤ c.1)
            × ((scope : Scope) (st st' : Locals) (m : mc.M)
                → Good names id st scope st'
                → values_of mc ts st' ≡ some vs
                → Sim mc names id st out
                    (performed mc b scope (mc.perform p vs m))
                    (exec_block mc c.0 st' m)))
          (emit_prim b out (call p ts) id1)
  unfolding exec
  emit_prim-Each true p ts names id id1 none vs = (
    omega arith,
    λ scope st st' m g v.
        rw (exec-line mc (bare (call p ts)) st' m, v)
          (stored-Sim names id none st scope st' (mc.perform p vs m) g),
  )
  emit_prim-Each true p ts names id id1 (some o) vs = (
    omega arith,
    λ scope st st' m g v.
        rw (exec-line mc (assign o (call p ts)) st' m, v)
          (stored-Sim names id (some o) st scope st' (mc.perform p vs m) g),
  )
  emit_prim-Each false p ts names id id1 none vs = (
    omega arith,
    λ scope st st' m g v.
        rw (exec-line mc (bare (call p ts)) st' m, v)
          (bare-Sim names id st scope st' (mc.perform p vs m) g),
  )
  emit_prim-Each false p ts names id id1 (some o) vs = tt

  pub Right-no_args :
      (names : List String) (id next_id : ℕ)
      → RightArgs mc names no_nodes id next_id (end_block, next_id)
  unfolding eval_args exec_block
  Right-no_args names id next_id = (
    omega arith,
    λ scope st m out id0 k l le e a h. h [] scope st m (start_Good mc names id scope st e a) refl,
  )

  other_temp : (id v i : ℕ) (st : Locals) → id < i → assigned (temp id) v st (temp i) ≡ st (temp i)
  unfolding assigned
  other_temp id v i st h = ground arith

  -- the value of the first argument beside those of the others
  values_of-cons :
      (id v bound : ℕ) (arg : Node) (args : Nodes) (st1 st2 : Locals) (vs : List ℕ)
      → suc id + count args ≤ bound
      → Fresh bound st1 st2
      → values_of mc (temps (suc id) args) st1 ≡ some vs
      → values_of mc (temps id (node_then arg args)) (assigned (temp id) v st2) ≡ some (v ∷ vs)
  values_of-cons id v bound arg args st1 st2 vs l f h =
      let same : values_of mc (temps (suc id) args) (assigned (temp id) v st2) ≡ some vs =
        values_of-temps mc (suc id) args st1 (assigned (temp id) v st2)
          (λ i a b. other_temp id v i st2 (omega arith) ∙ f i (omega arith))
        ∙ h in
      rw (assigned_self (temp id) v st2, same) refl

  pub Right-args :
      (arg : Node) (args : Nodes) (names : List String) (id next_id : ℕ) (r a : Block × ℕ)
      → suc id + count args ≤ next_id
      → RightArgs mc names args (suc id) next_id r
      → Right mc names arg (some (temp id)) r.1 a
      → RightArgs mc names (node_then arg args) id next_id (append r.0 a.0, a.1)
  unfolding eval_args
  Right-args arg args names id next_id r a below p q = (
    omega (arith, p.0, q.0),
    λ scope st m out id0 k l le e g h.
        rw
          (
            exec-append mc r.0 a.0 st m,
            then_run_assoc mc l (exec_block mc a.0) (exec_block mc r.0 st m),
          )
          (p.1 scope st m out id0 _ (λ st' m'. then_run mc l (exec_block mc a.0 st' m'))
            (omega (arith, le)) e g
            (λ vs scope1 st1 m1 g1 v1.
              Sim-with_value mc names id0 r.1 st st1 (temp id) out _ l (eval mc arg scope1 m1)
                (exec_block mc a.0 st1 m1) (omega (arith, p.0, le))
                (λ i b. g1.2 i (omega (arith, le, b))) (q.1 scope1 st1 m1 g1.0 g1.1)
                (λ v scope2 st2 m2 g2.
                  h (v ∷ vs) scope2 (assigned (temp id) v st2) m2
                    (Good-temp mc names id id v st scope2 st2 (omega arith) (
                      Good-later mc names id r.1 st st1 scope2 st2 (omega (arith, p.0))
                        (λ i b. g1.2 i (omega (arith, b))) g2))
                    (values_of-cons id v r.1 arg args st1 st2 vs (omega (arith, p.0)) g2.2 v1)))),
  )

  pub Right-prim :
      (p : String) (args : Nodes) (names : List String) (out : Option PyName) (id : ℕ)
      (r e : Block × ℕ)
      → RightArgs mc names args id (id + count args) r
      → emit_prim (mc.produces p) out (call p (temps id args)) r.1 ≡ ok e
      → Right mc names (prim_node p args) out id (append r.0 e.0, e.1)
  unfolding eval
  Right-prim p args names out id r e a s =
      let step = λ (vs : List ℕ).
        subst
          (Each (λ c.
            (r.1 ≤ c.1)
            × ((scope : Scope) (st st' : Locals) (m : mc.M)
                → Good names id st scope st'
                → values_of mc (temps id args) st' ≡ some vs
                → Sim mc names id st out (performed mc (mc.produces p) scope (mc.perform p vs m))
                    (exec_block mc c.0 st' m))))
          s (emit_prim-Each (mc.produces p) p (temps id args) names id r.1 out vs) in
      (
        omega (arith, a.0, (step []).0),
        λ scope st m e' g. rw (exec-append mc r.0 e.0 st m) (
            a.1 scope st m out id _ (exec_block mc e.0) (omega arith) e' g
              (λ vs scope1 st1 m1 good v. (step vs).1 scope1 st st1 m1 good v)),
      )

  pub RightSeq-none :
      (names : List String) (out : Option PyName) (id : ℕ)
      → RightSeq mc names no_nodes out id (line pass_stmt, id)
  unfolding eval_seq exec exec_block
  RightSeq-none names out id = (
    omega arith,
    λ scope st m e a.
        Sim-no_value mc names id st out scope st m (start_Good mc names id scope st e a),
  )

  pub RightSeq-one :
      (arg : Node) (names : List String) (out : Option PyName) (id : ℕ) (c : Block × ℕ)
      → Right mc names arg out id c
      → RightSeq mc names (node_then arg no_nodes) out id c
  unfolding eval_seq
  RightSeq-one arg names out id c r = r

  pub RightSeq-more :
      (arg arg' : Node) (args : Nodes) (names : List String) (out : Option PyName) (id : ℕ)
      (a r : Block × ℕ)
      → Right mc names arg none id a
      → RightSeq mc names (node_then arg' args) out a.1 r
      → RightSeq mc names (node_then arg (node_then arg' args)) out id (append a.0 r.0, r.1)
  unfolding eval_seq
  RightSeq-more arg arg' args names out id a r p q = (
    omega (arith, p.0, q.0),
    λ scope st m e g. rw (exec-append mc a.0 r.0 st m) (
        Sim-go_on mc names id st out (eval_seq mc (node_then arg' args)) (exec_block mc r.0)
          (eval mc arg scope m) (exec_block mc a.0 st m) (p.1 scope st m e g)
          (λ scope1 st1 m1 g1.
            Sim-later mc names id a.1 st st1 out (eval_seq mc (node_then arg' args) scope1 m1)
              (exec_block mc r.0 st1 m1) p.0 g1.2 (q.1 scope1 st1 m1 g1.0 g1.1))),
  )
