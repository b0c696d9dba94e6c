-- ===== src/Ir/Compile/Right.antt =====
-- boa/contracts/vyper/ir_executor.py: what it is that code does what a node means, and code after
-- other code.
use titanoboa.Prelude.{
  ℕ, ◌≤◌, String, ◌≡◌, refl, Option, some, List, ◌∷◌, arith, length, nat_eq, string_eq, bytes_eq,
  pair_eq, sym, ap, ◌∙◌,
}
use titanoboa.Prelude.Result.{Result, ok, err, ◌>>=◌}
use titanoboa.Ir.{
  user, temp, no_nodes, continue_node, break_node, node_then, set_node, with_node, if_else_node,
  if_node, repeat_node, seq_node, prim_node, variable, int_node, Node, Nodes, PyName,
}
use titanoboa.Ir.Analyze.Lexical.{slot_of}
use titanoboa.Ir.Eval.{with_value, eval_args, Run, eval_seq, Machine, Scope, eval}
use titanoboa.Ir.Python.{
  Stmt, assigned, name_error, assertion_error, on_to_next, broken, fell, raised, end_block,
  values_of, then_run, PyRun, Block, Locals, exec, exec_block, append,
}
use titanoboa.Ir.Compile.{line, temps, then_do, CompileError}
use titanoboa.Ir.Compile.Simulation.{Sim-with_value, Fresh, Sim-later, names_of, Agrees, Good, Sim}
use titanoboa.Ir.Compile.Locals.{
  Fresh-user, Agrees-above, assigned_self, length-names_of, Fresh-temp, Agrees-temp,
}

-- every variable has the slot of its name among the names in scope
unfoldable mutual
  pub Scoped : List String → Node → Type 0
  Scoped names (int_node n) = Unit
  Scoped names (variable x slot) = slot_of x names ≡ some slot
  Scoped names (prim_node p args) = ScopedEach names args
  Scoped names (seq_node nodes) = ScopedEach names nodes
  Scoped names (repeat_node x slot start rounds bound body) =
      (slot ≡ length names) × Scoped names start × Scoped names rounds × Scoped (x ∷ names) body
  Scoped names (if_node test body) = Scoped names test × Scoped names body
  Scoped names (if_else_node test body orelse) =
      Scoped names test × Scoped names body × Scoped names orelse
  Scoped names (with_node x slot val body) =
      (slot ≡ length names) × Scoped names val × Scoped (x ∷ names) body
  Scoped names (set_node x slot val) = (slot_of x names ≡ some slot) × Scoped names val
  Scoped names break_node = Unit
  Scoped names continue_node = Unit

  pub ScopedEach : List String → Nodes → Type 0
  ScopedEach names no_nodes = Unit
  ScopedEach names (node_then arg args) = Scoped names arg × ScopedEach names args

-- what holds of each result
abbrev pub Each : {A : Type 0} → (A → Type 0) → Result CompileError A → Type 0
Each P (ok a) = P a
Each P (err x) = Unit

pub Each->>= :
    {A B : Type 0} (P : A → Type 0) (Q : B → Type 0) (r : Result CompileError A)
    (f : A → Result CompileError B)
    → Each P r
    → ((a : A) → P a → Each Q (f a))
    → Each Q (r >>= f)
Each->>= P Q (ok a) f p h = h a p
Each->>= P Q (err x) f p h = tt

module _ (mc : Machine) where
  -- the code simulates the node from every good start
  abbrev pub Right : List String → Node → Option PyName → ℕ → Block × ℕ → Type 0
  Right names node out id (b, id') =
      (id ≤ id')
      × ((scope : Scope) (st : Locals) (m : mc.M)
          → names_of scope ≡ names
          → Agrees scope st
          → Sim mc names id st out (eval mc node scope m) (exec_block mc b st m))

  abbrev pub RightSeq : List String → Nodes → Option PyName → ℕ → Block × ℕ → Type 0
  RightSeq names nodes out id (b, id') =
      (id ≤ id')
      × ((scope : Scope) (st : Locals) (m : mc.M)
          → names_of scope ≡ names
          → Agrees scope st
          → Sim mc names id st out (eval_seq mc nodes scope m) (exec_block mc b st m))

  -- arguments, before any rest that is right for their values
  abbrev pub RightArgs : List String → Nodes → ℕ → ℕ → Block × ℕ → Type 0
  RightArgs names args id next_id (b, id') =
      (next_id ≤ id')
      × ((scope : Scope) (st : Locals) (m : mc.M) (out : Option PyName) (id0 : ℕ)
            (k : List ℕ → Scope → mc.M → Run mc) (l : Locals → mc.M → PyRun mc)
          → id0 ≤ id
          → names_of scope ≡ names
          → Agrees scope st
          → ((vs : List ℕ) (scope' : Scope) (st' : Locals) (m' : mc.M)
              → Good names id st scope' st'
              → values_of mc (temps id args) st' ≡ some vs
              → Sim mc names id0 st out (k vs scope' m') (l st' m'))
          → Sim mc names id0 st out (eval_args mc args k scope m)
              (then_run mc l (exec_block mc b st m)))

  pub then_run-fell : (p : PyRun mc) → then_run mc (exec_block mc end_block) p ≡ p
  unfolding exec_block
  then_run-fell (fell, st, m) = refl
  then_run-fell (broken, st, m) = refl
  then_run-fell (on_to_next, st, m) = refl
  then_run-fell (raised x, st, m) = refl
  then_run-fell (assertion_error, st, m) = refl
  then_run-fell (name_error, st, m) = refl

  pub then_run_assoc :
      (k l : Locals → mc.M → PyRun mc) (p : PyRun mc)
      → then_run mc k (then_run mc l p) ≡ then_run mc (λ st m. then_run mc k (l st m)) p
  then_run_assoc k l (fell, st, m) = refl
  then_run_assoc k l (broken, st, m) = refl
  then_run_assoc k l (on_to_next, st, m) = refl
  then_run_assoc k l (raised x, st, m) = refl
  then_run_assoc k l (assertion_error, st, m) = refl
  then_run_assoc k l (name_error, st, m) = refl

  then_run-split :
      (k k' l : Locals → mc.M → PyRun mc) (p : PyRun mc)
      → ((st : Locals) (m : mc.M) → k st m ≡ then_run mc l (k' st m))
      → then_run mc k p ≡ then_run mc l (then_run mc k' p)
  then_run-split k k' l (fell, st, m) h = h st m
  then_run-split k k' l (broken, st, m) h = refl
  then_run-split k k' l (on_to_next, st, m) h = refl
  then_run-split k k' l (raised x, st, m) h = refl
  then_run-split k k' l (assertion_error, st, m) h = refl
  then_run-split k k' l (name_error, st, m) h = refl

  pub exec-append :
      (a b : Block) (st : Locals) (m : mc.M)
      → exec_block mc (append a b) st m ≡ then_run mc (exec_block mc b) (exec_block mc a st m)
  unfolding append exec_block
  exec-append end_block b st m = refl
  exec-append (then_do s a) b st m =
      then_run-split (exec_block mc (append a b)) (exec_block mc a) (exec_block mc b)
        (exec mc s st m) (exec-append a b)

  pub start_Good :
      (names : List String) (id : ℕ) (scope : Scope) (st : Locals)
      → names_of scope ≡ names
      → Agrees scope st
      → Good names id st scope st
  start_Good names id scope st n a = (n, a, λ i h. refl)

  -- the code of a node after other code
  pub Right-from :
      (names : List String) (node : Node) (out : Option PyName) (id id1 : ℕ) (c : Block × ℕ)
      (st : Locals) (scope : Scope) (st1 : Locals) (m : mc.M)
      → Right names node out id1 c
      → id ≤ id1
      → Good names id st scope st1
      → Sim mc names id st out (eval mc node scope m) (exec_block mc c.0 st1 m)
  Right-from names node out id id1 (b, id2) st scope st1 m r l (n, a, f) =
      Sim-later mc names id id1 st st1 out (eval mc node scope m) (exec_block mc b st1 m) l f
        (r.1 scope st1 m n a)

  pub Good-temp :
      (names : List String) (id i n : ℕ) (st : Locals) (scope : Scope) (st' : Locals)
      → id ≤ i
      → Good names id st scope st'
      → Good names id st scope (assigned (temp i) n st')
  Good-temp names id i n st scope st' l (e, a, f) =
      (e, Agrees-temp i n scope st' a, Fresh-temp i n id st st' l f)

  pub Good-enter :
      (x : String) (slot n : ℕ) (names : List String) (id : ℕ) (st : Locals) (scope : Scope)
      (st' : Locals)
      → slot ≡ length names
      → Good names id st scope st'
      → Good (x ∷ names) id st ((x, n) ∷ scope) (assigned (user x slot) n st')
  Good-enter x slot n names id st scope st' h (e, a, f) =
      let level : slot ≡ length scope = h ∙ (ap length (sym e) ∙ length-names_of scope) in
      (
        ap (λ z. x ∷ z) e,
        (
          rw (sym level) (assigned_self (user x slot) n st'),
          Agrees-above x slot n scope st' (omega (arith, level)) a,
        ),
        Fresh-user x slot n id st st' f,
      )

  pub kept : (id : ℕ) (st : Locals) → Fresh id st st
  kept id st i h = refl

  -- code that is followed by other code
  pub Sim-append :
      (names : List String) (id id1 : ℕ) (node : Node) (o : PyName) (out : Option PyName)
      (k : ℕ → Scope → mc.M → Run mc) (c : Block × ℕ) (b : Block) (scope : Scope) (st st1 : Locals)
      (m : mc.M)
      → Right names node (some o) id1 c
      → id ≤ id1
      → Good names id st scope st1
      → ((n : ℕ) (scope' : Scope) (st' : Locals) (m' : mc.M)
          → Good names id1 st1 scope' st'
          → Sim mc names id st out (k n scope' m') (exec_block mc b (assigned o n st') m'))
      → Sim mc names id st out
          (with_value mc k (eval mc node scope m))
          (exec_block mc (append c.0 b) st1 m)
  Sim-append names id id1 node o out k (a, id2) b scope st st1 m r l g h =
      rw (exec-append a b st1 m) (
        Sim-with_value mc names id id1 st st1 o out k (exec_block mc b) (eval mc node scope m)
          (exec_block mc a st1 m) l g.2 (r.1 scope st1 m g.0 g.1) h)

  -- one statement
  pub exec-line : (s : Stmt) (st : Locals) (m : mc.M) → exec_block mc (line s) st m ≡ exec mc s st m
  unfolding exec_block
  exec-line s st m = then_run-fell (exec mc s st m)
