-- ===== src/Ir/Analyze.antt =====
-- `analyze` of boa/contracts/vyper/ir_executor.py: variables get their slots, with the frame of
-- `CompileContext.variables`.
pub mod Lexical
use titanoboa.Prelude.{
  ℕ, ◌+◌, ◌-◌, String, Option, none, some, arith, nat_eq, string_eq, bytes_eq, pair_eq,
}
use titanoboa.Prelude.Dict.{Dict, lookup, insert, erase}
use titanoboa.Prelude.Result.{Result, ok, ◌>>=◌, ◌>>◌, or_raise}
use titanoboa.Ir.{
  no_irs, continue_on, break_out, node_then, ir_then, no_nodes, continue_node, break_node, set_node,
  set_var, with_node, with_var, if_else_node, if_else, if_node, if_then, repeat_node, repeat,
  seq_node, seq, prim_node, prim, variable, name, int_node, int, Ir, Irs, Node, Nodes,
}

-- `FrameInfo`
pub record FrameInfo : Type 0 where
  pub current_slot : ℕ
  pub slots : Dict String ℕ

-- a name without a slot is a KeyError
pub data AnalyzeError : Type 0 where
  key_error : AnalyzeError

-- `variables([varname])`, on the way in and on the way out, where a shadowed variable comes back
unfoldable pub enter_variable : String → FrameInfo → FrameInfo
enter_variable varname frame = record {
  current_slot = frame.current_slot + 1;
  slots = insert varname frame.current_slot frame.slots;
}

abbrev restored : String → Option ℕ → Dict String ℕ → Dict String ℕ
restored varname none slots = erase varname slots
restored varname (some slot) slots = insert varname slot slots

unfoldable pub leave_variable : String → Option ℕ → FrameInfo → FrameInfo
leave_variable varname shadowed frame = record {
  current_slot = frame.current_slot - 1;
  slots = restored varname shadowed frame.slots;
}

abbrev slot_in : String → FrameInfo → Result AnalyzeError ℕ
slot_in varname frame = or_raise (lookup varname frame.slots) key_error

-- `with self.compile_ctx.variables([varname]): ...`, with the slot of the variable inside
abbrev in_scope :
    {A : Type 0}
    → String
    → FrameInfo
    → (FrameInfo → Result AnalyzeError (A × FrameInfo))
    → Result AnalyzeError (ℕ × A × FrameInfo)
in_scope varname frame body = do
  slot ← slot_in varname (enter_variable varname frame)
  r ← body (enter_variable varname frame)
  ok (slot, r.0, leave_variable varname (lookup varname frame.slots) r.1)

abbrev Analysis : Type 0
Analysis = FrameInfo → Result AnalyzeError (Node × FrameInfo)

-- `Repeat.analyze`, with the analyses of the parts
abbrev analyze_repeat :
    String
    → ℕ
    → Result AnalyzeError (Node × FrameInfo)
    → Analysis
    → Analysis
    → Result AnalyzeError (Node × FrameInfo)
analyze_repeat i bound start rounds body = do
  s ← start
  r ← rounds s.1
  b ← in_scope i r.1 body
  ok (repeat_node i b.0 s.0 r.0 bound b.1, b.2)

-- `With.analyze`
abbrev analyze_with :
    String
    → Result AnalyzeError (Node × FrameInfo)
    → Analysis
    → Result AnalyzeError (Node × FrameInfo)
analyze_with x val body = do v ← val; b ← in_scope x v.1 body; ok (with_node x b.0 v.0 b.1, b.2)

unfoldable mutual
  pub analyze : Ir → FrameInfo → Result AnalyzeError (Node × FrameInfo)
  analyze (int n) frame = ok (int_node n, frame)
  analyze (name x) frame = do slot ← slot_in x frame; ok (variable x slot, frame)
  analyze (prim p args) frame = do r ← analyze_each args frame; ok (prim_node p r.0, r.1)
  analyze (seq args) frame = do r ← analyze_each args frame; ok (seq_node r.0, r.1)
  analyze (repeat i start rounds bound body) frame =
      analyze_repeat i bound (analyze start frame) (analyze rounds) (analyze body)
  analyze (if_then test body) frame = do
    t ← analyze test frame
    b ← analyze body t.1
    ok (if_node t.0 b.0, b.1)
  analyze (if_else test body orelse) frame = do
    t ← analyze test frame
    b ← analyze body t.1
    e ← analyze orelse b.1
    ok (if_else_node t.0 b.0 e.0, e.1)
  analyze (with_var x val body) frame = analyze_with x (analyze val frame) (analyze body)
  analyze (set_var x val) frame = do
    slot ← slot_in x frame
    v ← analyze val frame
    ok (set_node x slot v.0, v.1)
  analyze break_out frame = ok (break_node, frame)
  analyze continue_on frame = ok (continue_node, frame)

  pub analyze_each : Irs → FrameInfo → Result AnalyzeError (Nodes × FrameInfo)
  analyze_each no_irs frame = ok (no_nodes, frame)
  analyze_each (ir_then arg args) frame = do
    a ← analyze arg frame
    r ← analyze_each args a.1
    ok (node_then a.0 r.0, r.1)
