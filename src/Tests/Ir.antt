-- ===== src/Tests/Ir.antt =====
-- boa/contracts/vyper/ir_executor.py at a concrete program.
use titanoboa.Ir.Names.{out_name}
use titanoboa.Prelude.{
  ℕ, ◌+◌, ◌%◌, ◌^◌, String, ◌≡◌, refl, ◌⊎◌, inl, inr, List, [], ◌∷◌, if◌then◌else◌, ◌==◌, nat_eq,
  string_eq, bytes_eq, pair_eq,
}
use titanoboa.Prelude.Result.{Result, ok, err}
use titanoboa.Ir.{
  temp, user, PyName, name, prim, set_var, repeat, seq, int, no_irs, with_var, ir_then, Ir, Irs,
}
use titanoboa.Ir.Analyze.{analyze}
use titanoboa.Ir.Analyze.Lexical.{Matches, slot_of, resolve, analyze-resolve, Same}
use titanoboa.Ir.Eval.{Machine}
use titanoboa.Ir.Python.{Block, exec_block, end_block, fell}
use titanoboa.Ir.Translate.{executor_from_ir, unbound, TranslateError}

-- a machine with one cell of storage
abbrev performs : String → List ℕ → ℕ → (ℕ ⊎ String) × ℕ
performs p (a ∷ (b ∷ [])) m =
    if p == "add"
    then (inl ((a + b) % 2 ^ 256), m)
    else if p == "sstore"
    then (inl 0, b)
    else (inr "invalid opcode", m)
performs p _ m = (inr "invalid opcode", m)

abbrev cell : Machine
cell = record { M = ℕ; X = String; perform = performs; produces = λ p. p == "add" }

abbrev two_args : Ir → Ir → Irs
two_args a b = ir_then a (ir_then b no_irs)

-- x is 5, to which 0, 1 and 2 are added in a loop, and is stored; an inner x is another variable
abbrev program : Ir
program = with_var "x" (int 5) (
    seq (
      ir_then
        (repeat "i" (int 0) (int 3) 10 (set_var "x" (prim "add" (two_args (name "x") (name "i")))))
        (ir_then (with_var "x" (int 7) (set_var "x" (int 9)))
          (ir_then (prim "sstore" (two_args (int 0) (name "x"))) no_irs))))

abbrev code_of : Result TranslateError Block → Block
code_of (ok b) = b
code_of (err x) = end_block

abbrev generated : Block
generated = code_of (executor_from_ir cell.produces program)

stores_eight : (exec_block cell generated unbound 0).0 ≡ fell
unfolding executor_from_ir exec_block analyze titanoboa.Ir.Analyze.enter_variable
    titanoboa.Ir.Analyze.leave_variable titanoboa.Ir.Compile.compile titanoboa.Ir.Python.append
    titanoboa.Ir.Python.assigned
stores_eight = refl

stored_cell : (exec_block cell generated unbound 0).2 ≡ 8
unfolding executor_from_ir exec_block analyze titanoboa.Ir.Analyze.enter_variable
    titanoboa.Ir.Analyze.leave_variable titanoboa.Ir.Compile.compile titanoboa.Ir.Python.append
    titanoboa.Ir.Python.assigned
stored_cell = refl

abbrev main_names : List PyName
main_names =
    user "x" 0
    ∷ user "i" 1
    ∷ user "x" 1
    ∷ temp 0
    ∷ temp 1
    ∷ temp 2
    ∷ temp 3
    ∷ temp 4
    ∷ temp 5
    ∷ temp 6
    ∷ temp 7
    ∷ temp 8
    ∷ temp 9
    ∷ []

-- two variables with one text
merged : out_name (user "a_1" 0) ≡ out_name (user "a" 1)
unfolding out_name
merged = refl

y_Matches : Matches ("y" ∷ []) (record { current_slot = 1; slots = ("y", 0) ∷ [] })
unfolding slot_of
y_Matches = (refl, λ x. refl)

analyze-resolve_example :
    Same
      ("y" ∷ [])
      (resolve program ("y" ∷ []))
      (analyze program (record { current_slot = 1; slots = ("y", 0) ∷ [] }))
analyze-resolve_example =
    analyze-resolve program ("y" ∷ []) (record { current_slot = 1; slots = ("y", 0) ∷ [] })
      y_Matches
