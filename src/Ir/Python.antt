-- ===== src/Ir/Python.antt =====
-- The Python that boa/contracts/vyper/ir_executor.py generates, and what it does: statements on local
-- variables, which a `PythonBuilder` holds as lines and blocks.
use titanoboa.Prelude.{
  ℕ, zero, suc, String, ◌⊎◌, inl, inr, Option, none, some, List, [], ◌∷◌, leb, nat_beq,
  if◌then◌else◌, ◌==◌, nat_eq, string_eq, bytes_eq, pair_eq,
}
use titanoboa.Ir.{PyName, name_eq}
use titanoboa.Ir.Eval.{Machine}

pub data PyExpr : Type 0 where
  literal : ℕ → PyExpr
  local : PyName → PyExpr
  -- the expression, and the lines before it, of a primitive
  call : String → List PyName → PyExpr

mutual
  pub data Stmt : Type 0 where
    assign : PyName → PyExpr → Stmt
    bare : PyExpr → Stmt
    if_block : PyName → Block → Stmt
    if_else_block : PyName → Block → Block → Stmt
    -- `for i in range(start, start + rounds)`
    for_range : PyName → PyName → PyName → Block → Stmt
    assert_le : PyName → ℕ → Stmt
    break_stmt continue_stmt pass_stmt : Stmt

  pub data Block : Type 0 where
    end_block : Block
    then_do : Stmt → Block → Block

-- lines after lines
unfoldable pub append : Block → Block → Block
append end_block b = b
append (then_do s a) b = then_do s (append a b)

pub data PyEnd (X : Type 0) : Type 0 where
  fell broken on_to_next : PyEnd X
  raised : X → PyEnd X
  assertion_error name_error : PyEnd X

-- the local variables of a call
abbrev pub Locals : Type 0
Locals = PyName → Option ℕ

unfoldable pub assigned : PyName → ℕ → Locals → Locals
assigned x n st y = if x == y then some n else st y

module _ (mc : Machine) where
  abbrev pub PyRun : Type 0
  PyRun = PyEnd mc.X × Locals × mc.M

  abbrev pub then_run : (Locals → mc.M → PyRun) → PyRun → PyRun
  then_run k (fell, st, m) = k st m
  then_run k (o, st, m) = (o, st, m)

  abbrev pub value_then : Option ℕ → Option (List ℕ) → Option (List ℕ)
  value_then (some v) (some vs) = some (v ∷ vs)
  value_then _ _ = none

  -- the values of names, or none where one is not bound
  abbrev pub values_of : List PyName → Locals → Option (List ℕ)
  values_of [] st = some []
  values_of (x ∷ xs) st = value_then (st x) (values_of xs st)

  abbrev pub stored : Option PyName → Locals → (ℕ ⊎ mc.X) × mc.M → PyRun
  stored none st (inl n, m) = (fell, st, m)
  stored (some x) st (inl n, m) = (fell, assigned x n st, m)
  stored out st (inr x, m) = (raised x, st, m)

  abbrev pub called : Option PyName → String → Option (List ℕ) → Locals → mc.M → PyRun
  called out p none st m = (name_error, st, m)
  called out p (some vs) st m = stored out st (mc.perform p vs m)

  abbrev pub loaded : Option PyName → Option ℕ → Locals → mc.M → PyRun
  loaded out none st m = (name_error, st, m)
  loaded out (some n) st m = stored out st (inl n, m)

  -- an expression, with the name that it is assigned to
  abbrev pub run_expr : Option PyName → PyExpr → Locals → mc.M → PyRun
  run_expr out (literal n) st m = stored out st (inl n, m)
  run_expr out (local x) st m = loaded out (st x) st m
  run_expr out (call p args) st m = called out p (values_of args st) st m

  abbrev pub next_iteration : (Locals → mc.M → PyRun) → PyRun → PyRun
  next_iteration k (fell, st, m) = k st m
  next_iteration k (on_to_next, st, m) = k st m
  next_iteration k (broken, st, m) = (fell, st, m)
  next_iteration k (o, st, m) = (o, st, m)

  abbrev pub iterate : PyName → (Locals → mc.M → PyRun) → ℕ → ℕ → Locals → mc.M → PyRun
  iterate x body zero i st m = (fell, st, m)
  iterate x body (suc rounds) i st m =
      next_iteration (iterate x body rounds (suc i)) (body (assigned x i st) m)

  -- a test or a bound of a name that must be there
  abbrev pub with_local : Option ℕ → (ℕ → PyRun) → Locals → mc.M → PyRun
  with_local none k st m = (name_error, st, m)
  with_local (some n) k st m = k n

  unfoldable mutual
    pub exec : Stmt → Locals → mc.M → PyRun
    exec (assign x e) st m = run_expr (some x) e st m
    exec (bare e) st m = run_expr none e st m
    exec (if_block test body) st m =
        with_local (st test) (λ t. if nat_beq t 0 then (fell, st, m) else exec_block body st m) st m
    exec (if_else_block test body orelse) st m =
        with_local (st test)
          (λ t. if nat_beq t 0 then exec_block orelse st m else exec_block body st m) st m
    exec (for_range x start rounds body) st m =
        with_local (st start)
          (λ s. with_local (st rounds) (λ r. iterate x (exec_block body) r s st m) st m) st m
    exec (assert_le x bound) st m =
        with_local (st x) (λ n. if leb n bound then (fell, st, m) else (assertion_error, st, m)) st
          m
    exec break_stmt st m = (broken, st, m)
    exec continue_stmt st m = (on_to_next, st, m)
    exec pass_stmt st m = (fell, st, m)

    pub exec_block : Block → Locals → mc.M → PyRun
    exec_block end_block st m = (fell, st, m)
    exec_block (then_do s b) st m = then_run (exec_block b) (exec s st m)
