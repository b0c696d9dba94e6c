-- ===== src/Ir/Compile.antt =====
-- `compile` of boa/contracts/vyper/ir_executor.py: a node becomes lines of Python, which leave its
-- value in `out` if that is given. Values are words, for which `to_int` and `to_bytes` change nothing.
pub mod Locals
pub mod Simulation
pub mod Right
pub mod Leaves
pub mod Scopes
pub mod Primitives
pub mod Correct
use titanoboa.Prelude.{
  ℕ, suc, ◌+◌, String, Bool, true, false, Option, none, some, List, [], ◌∷◌, arith, nat_eq,
  string_eq, bytes_eq, pair_eq,
}
use titanoboa.Prelude.Result.{Result, ok, err, ◌>>=◌, ◌>>◌}
use titanoboa.Ir.{
  continue_node, break_node, set_node, with_node, if_else_node, if_node, repeat_node, seq_node,
  prim_node, variable, no_nodes, int_node, node_then, Node, Nodes, PyName, user, temp,
}
use titanoboa.Ir.Python.{
  pass_stmt, continue_stmt, break_stmt, if_else_block, if_block, for_range, assert_le, call, local,
  literal, assign, end_block, bare, then_do, PyExpr, Stmt, Block, append,
}

-- `assert out is None` after a `_compile` without a result, and `out` given by position to a method
-- that takes it by keyword alone
pub data CompileError : Type 0 where
  assertion_error type_error : CompileError

-- what is compiled, with the number of the next fresh variable, which is `var_id + 1`
abbrev pub Compiled : Type 0
Compiled = Result CompileError (Block × ℕ)

abbrev pub line : Stmt → Block
line s = then_do s end_block

-- `if out is not None: append(f"{out} = {res}")`, else `append(res)`
abbrev pub emit : Option PyName → PyExpr → Block
emit none res = line (bare res)
emit (some out) res = line (assign out res)

-- a primitive with a result, or one that is only lines
abbrev pub emit_prim : Bool → Option PyName → PyExpr → ℕ → Compiled
emit_prim true out res id = ok (emit out res, id)
emit_prim false none res id = ok (line (bare res), id)
emit_prim false (some out) res id = err assertion_error

abbrev pub count : Nodes → ℕ
count no_nodes = 0
count (node_then arg args) = suc (count args)

-- `[self.compile_ctx.freshvar(x) for x in argnames]`
abbrev pub temps : ℕ → Nodes → List PyName
temps id no_nodes = []
temps id (node_then arg args) = temp id ∷ temps (suc id) args

-- the lines of `Repeat.compile`, of its parts' lines
abbrev pub repeat_code : PyName → ℕ → ℕ → Block → Block → Block → Block
repeat_code x id bound start rounds body = append start (
    append rounds (
      then_do (assert_le (temp (suc id)) bound)
        (line (for_range x (temp id) (temp (suc id)) body))))

-- the lines of `If.compile`, without and with `orelse`
abbrev pub if_code : ℕ → Block → Block → Block
if_code id test body = append test (line (if_block (temp id) body))

abbrev pub if_else_code : ℕ → Block → Block → Block → Block
if_else_code id test body orelse = append test (line (if_else_block (temp id) body orelse))

-- `If.compile` gives `out` by position, which `Set.compile` does not take
abbrev pub by_position : Node → Result CompileError (Unit {0})
by_position (set_node x slot val) = err type_error
by_position _ = ok tt

module _ (produces : String → Bool) where
  unfoldable mutual
    pub compile : Node → Option PyName → ℕ → Compiled
    compile (int_node n) out id = ok (emit out (literal n), id)
    compile (variable x slot) out id = ok (emit out (local (user x slot)), id)
    compile (prim_node p args) out id = do
      r ← compile_args args id (id + count args)
      e ← emit_prim (produces p) out (call p (temps id args)) r.1
      ok (append r.0 e.0, e.1)
    compile (seq_node nodes) out id = compile_seq nodes out id
    compile (repeat_node x slot start rounds bound body) out id = do
      s ← compile start (some (temp id)) (id + 2)
      r ← compile rounds (some (temp (suc id))) s.1
      b ← compile body none r.1
      ok (repeat_code (user x slot) id bound s.0 r.0 b.0, b.1)
    compile (if_node test body) out id = do
      t ← compile test (some (temp id)) (suc id)
      by_position body
      b ← compile body out t.1
      ok (if_code id t.0 b.0, b.1)
    compile (if_else_node test body orelse) out id = do
      t ← compile test (some (temp id)) (suc id)
      by_position body
      b ← compile body out t.1
      by_position orelse
      e ← compile orelse out b.1
      ok (if_else_code id t.0 b.0 e.0, e.1)
    compile (with_node x slot val body) out id = do
      v ← compile val (some (user x slot)) id
      b ← compile body out v.1
      ok (append v.0 b.0, b.1)
    compile (set_node x slot val) out id = compile val (some (user x slot)) id
    compile break_node none id = ok (line break_stmt, id)
    compile break_node (some out) id = err assertion_error
    compile continue_node none id = ok (line continue_stmt, id)
    compile continue_node (some out) id = err assertion_error

    -- `_compile_args`: from the last argument to the first, into the fresh variables
    pub compile_args : Nodes → ℕ → ℕ → Compiled
    compile_args no_nodes id next_id = ok (end_block, next_id)
    compile_args (node_then arg args) id next_id = do
      rest ← compile_args args (suc id) next_id
      a ← compile arg (some (temp id)) rest.1
      ok (append rest.0 a.0, a.1)

    -- `Seq.compile`: nothing but the last is assigned
    pub compile_seq : Nodes → Option PyName → ℕ → Compiled
    compile_seq no_nodes out id = ok (line pass_stmt, id)
    compile_seq (node_then arg no_nodes) out id = compile arg out id
    compile_seq (node_then arg (node_then arg' args)) out id = do
      a ← compile arg none id
      rest ← compile_seq (node_then arg' args) out a.1
      ok (append a.0 rest.0, rest.1)
