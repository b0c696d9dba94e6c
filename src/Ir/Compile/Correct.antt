-- ===== src/Ir/Compile/Correct.antt =====
-- boa/contracts/vyper/ir_executor.py: the generated code does what the IR means.
use titanoboa.Prelude.{
  ℕ, suc, ◌+◌, ◌≤◌, String, ◌≡◌, refl, Option, none, some, List, ◌∷◌, arith, nat_eq, string_eq,
  bytes_eq, pair_eq,
}
use titanoboa.Prelude.Result.{Result, ok, err}
use titanoboa.Ir.{
  no_nodes, continue_node, break_node, node_then, set_node, with_node, if_else_node, if_node,
  repeat_node, seq_node, prim_node, variable, int_node, Node, Nodes, PyName, user, temp,
}
use titanoboa.Ir.Eval.{Machine, Scope, eval}
use titanoboa.Ir.Python.{continue_stmt, break_stmt, Block, call, Locals, exec, exec_block}
use titanoboa.Ir.Compile.{
  by_position, temps, count, CompileError, compile, compile_args, compile_seq, line, emit_prim,
}
use titanoboa.Ir.Compile.Simulation.{names_of, Agrees, Sim}
use titanoboa.Ir.Compile.Right.{
  start_Good, Each->>=, Each, Right, RightSeq, RightArgs, Scoped, ScopedEach,
}
use titanoboa.Ir.Compile.Leaves.{Right-if, Right-variable, Right-int}
use titanoboa.Ir.Compile.Primitives.{
  RightSeq-one, RightSeq-more, RightSeq-none, Right-args, Right-no_args, Right-prim,
}
use titanoboa.Ir.Compile.Scopes.{Right-set, Right-with, Right-if_else, Right-repeat}
use mathlib.Core.Path.{subst}

module _ (mc : Machine) where
  Each-self :
      {A : Type 0} (r : Result CompileError A) (P : A → Type 0)
      → ((a : A) → r ≡ ok a → P a)
      → Each P r
  Each-self (ok a) P h = h a refl
  Each-self (err x) P h = tt

  Each-imp :
      {A : Type 0} (P Q : A → Type 0) (r : Result CompileError A)
      → Each P r
      → ((a : A) → P a → Q a)
      → Each Q r
  Each-imp P Q (ok a) p h = h a p
  Each-imp P Q (err x) p h = tt

  Right-seq :
      (nodes : Nodes) (names : List String) (out : Option PyName) (id : ℕ) (c : Block × ℕ)
      → RightSeq mc names nodes out id c
      → Right mc names (seq_node nodes) out id c
  unfolding eval
  Right-seq nodes names out id c r = r

  Right-break :
      (names : List String) (id : ℕ) → Right mc names break_node none id (line break_stmt, id)
  unfolding eval exec exec_block
  Right-break names id =
      (omega arith, λ scope st m e a. (refl, start_Good mc names id scope st e a))

  Right-continue :
      (names : List String) (id : ℕ) → Right mc names continue_node none id (line continue_stmt, id)
  unfolding eval exec exec_block
  Right-continue names id =
      (omega arith, λ scope st m e a. (refl, start_Good mc names id scope st e a))

  Each-all : {A : Type 0} (r : Result CompileError A) → Each (λ _. Unit) r
  Each-all (ok a) = tt
  Each-all (err x) = tt

  mutual
    unfolding compile compile_args compile_seq Scoped ScopedEach

    compile-Each :
        (node : Node) (names : List String) (out : Option PyName) (id : ℕ)
        → Scoped names node
        → Each (Right mc names node out id) (compile mc.produces node out id)
    compile-Each (int_node n) names out id s = Right-int mc n names out id
    compile-Each (variable x slot) names out id s = Right-variable mc x slot names out id s
    compile-Each (prim_node p args) names out id s =
        Each->>= (RightArgs mc names args id (id + count args)) _
          (compile_args mc.produces args id (id + count args)) _
          (compile_args-Each args names id (id + count args) (omega arith) s)
          (λ r a.
            Each->>= (λ e. emit_prim (mc.produces p) out (call p (temps id args)) r.1 ≡ ok e) _
              (emit_prim (mc.produces p) out (call p (temps id args)) r.1) _
              (Each-self _ _ (λ e h. h)) (λ e h. Right-prim mc p args names out id r e a h))
    compile-Each (seq_node nodes) names out id s =
        Each-imp (RightSeq mc names nodes out id) _ _ (compile_seq-Each nodes names out id s)
          (λ c r. Right-seq nodes names out id c r)
    compile-Each (repeat_node x slot start rounds bound body) names out id (h, s, t, u) =
        Each->>= (Right mc names start (some (temp id)) (id + 2)) _ _ _
          (compile-Each start names (some (temp id)) (id + 2) s)
          (λ a p.
            Each->>= (Right mc names rounds (some (temp (suc id))) a.1) _ _ _
              (compile-Each rounds names (some (temp (suc id))) a.1 t)
              (λ b q.
                Each->>= (Right mc (x ∷ names) body none b.1) _ _ _
                  (compile-Each body (x ∷ names) none b.1 u)
                  (λ c w.
                    Right-repeat mc x slot start rounds bound body names out id a b c h p q w)))
    compile-Each (if_node test body) names out id (s, t) =
        Each->>= (Right mc names test (some (temp id)) (suc id)) _ _ _
          (compile-Each test names (some (temp id)) (suc id) s)
          (λ a p.
            Each->>= (λ _. Unit) _ (by_position body) _ (Each-all _)
              (λ _ _.
                Each->>= (Right mc names body out a.1) _ _ _ (compile-Each body names out a.1 t)
                  (λ b q. Right-if mc test body names out id a b p q)))
    compile-Each (if_else_node test body orelse) names out id (s, t, u) =
        Each->>= (Right mc names test (some (temp id)) (suc id)) _ _ _
          (compile-Each test names (some (temp id)) (suc id) s)
          (λ a p.
            Each->>= (λ _. Unit) _ (by_position body) _ (Each-all _)
              (λ _ _.
                Each->>= (Right mc names body out a.1) _ _ _ (compile-Each body names out a.1 t)
                  (λ b q.
                    Each->>= (λ _. Unit) _ (by_position orelse) _ (Each-all _)
                      (λ _ _.
                        Each->>= (Right mc names orelse out b.1) _ _ _
                          (compile-Each orelse names out b.1 u)
                          (λ c w. Right-if_else mc test body orelse names out id a b c p q w)))))
    compile-Each (with_node x slot val body) names out id (h, s, t) =
        Each->>= (Right mc names val (some (user x slot)) id) _ _ _
          (compile-Each val names (some (user x slot)) id s)
          (λ a p.
            Each->>= (Right mc (x ∷ names) body out a.1) _ _ _
              (compile-Each body (x ∷ names) out a.1 t)
              (λ b q. Right-with mc x slot val body names out id a b h p q))
    compile-Each (set_node x slot val) names out id (h, s) =
        Each-imp (Right mc names val (some (user x slot)) id) _ _
          (compile-Each val names (some (user x slot)) id s)
          (λ c r. Right-set mc x slot val names out id c h r)
    compile-Each break_node names none id s = Right-break names id
    compile-Each break_node names (some o) id s = tt
    compile-Each continue_node names none id s = Right-continue names id
    compile-Each continue_node names (some o) id s = tt

    compile_args-Each :
        (args : Nodes) (names : List String) (id next_id : ℕ)
        → id + count args ≤ next_id
        → ScopedEach names args
        → Each (RightArgs mc names args id next_id) (compile_args mc.produces args id next_id)
    compile_args-Each no_nodes names id next_id l s = Right-no_args mc names id next_id
    compile_args-Each (node_then arg args) names id next_id l (s, t) =
        Each->>= (RightArgs mc names args (suc id) next_id) _ _ _
          (compile_args-Each args names (suc id) next_id (omega arith) t)
          (λ r p.
            Each->>= (Right mc names arg (some (temp id)) r.1) _ _ _
              (compile-Each arg names (some (temp id)) r.1 s)
              (λ a q. Right-args mc arg args names id next_id r a (omega arith) p q))

    compile_seq-Each :
        (nodes : Nodes) (names : List String) (out : Option PyName) (id : ℕ)
        → ScopedEach names nodes
        → Each (RightSeq mc names nodes out id) (compile_seq mc.produces nodes out id)
    compile_seq-Each no_nodes names out id s = RightSeq-none mc names out id
    compile_seq-Each (node_then arg no_nodes) names out id (s, t) =
        Each-imp (Right mc names arg out id) _ _ (compile-Each arg names out id s)
          (λ c r. RightSeq-one mc arg names out id c r)
    compile_seq-Each (node_then arg (node_then arg' args)) names out id (s, t) =
        Each->>= (Right mc names arg none id) _ _ _ (compile-Each arg names none id s) (λ a p.
          Each->>= (RightSeq mc names (node_then arg' args) out a.1) _ _ _
            (compile_seq-Each (node_then arg' args) names out a.1 t)
            (λ r q. RightSeq-more mc arg arg' args names out id a r p q))

  -- Code that is compiled from a node whose variables have the slots of their names simulates the node,
  -- from locals that agree with the scope: it ends as the node does, in the same state of the machine,
  -- with the node's value in `out`, with locals that agree with the scope afterwards, and without a
  -- change to an older fresh variable. Nothing is said where the node has no meaning.
  pub compile-Sim :
      (node : Node) (names : List String) (out : Option PyName) (id id' : ℕ) (b : Block)
      (scope : Scope) (st : Locals) (m : mc.M)
      → Scoped names node
      → compile mc.produces node out id ≡ ok (b, id')
      → names_of scope ≡ names
      → Agrees scope st
      → Sim mc names id st out (eval mc node scope m) (exec_block mc b st m)
  compile-Sim node names out id id' b scope st m s e n a =
      (subst (Each (Right mc names node out id)) e (compile-Each node names out id s)).1 scope st m
        n a
