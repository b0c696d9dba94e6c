-- ===== src/Ir.antt =====
-- boa/contracts/vyper/ir_executor.py: the compiler from Vyper's IR to Python. A node that is compiled
-- by its arguments and one Python expression (an opcode, or an operation of the optimizer's table) is
-- `prim`; labels and jumps between functions are left out.
pub mod Analyze
pub mod Eval
pub mod Python
pub mod Compile
pub mod Translate
pub mod Names
use titanoboa.Prelude.{
  ℕ, String, ◌≡◌, Bool, true, false, ◌&&◌, arith, nat_beq, Eq, ◌==◌, beq_refl, nat_eq, string_eq,
  bytes_eq, pair_eq,
}

mutual
  -- the executors before the analysis
  pub data Ir : Type 0 where
    int : ℕ → Ir
    name : String → Ir
    prim : String → Irs → Ir
    seq : Irs → Ir
    repeat : String → Ir → Ir → ℕ → Ir → Ir
    if_then : Ir → Ir → Ir
    if_else : Ir → Ir → Ir → Ir
    with_var : String → Ir → Ir → Ir
    set_var : String → Ir → Ir
    break_out : Ir
    continue_on : Ir

  pub data Irs : Type 0 where
    no_irs : Irs
    ir_then : Ir → Irs → Irs

mutual
  -- the executors after it, where a variable has its slot
  pub data Node : Type 0 where
    int_node : ℕ → Node
    variable : String → ℕ → Node
    prim_node : String → Nodes → Node
    seq_node : Nodes → Node
    repeat_node : String → ℕ → Node → Node → ℕ → Node → Node
    if_node : Node → Node → Node
    if_else_node : Node → Node → Node → Node
    with_node : String → ℕ → Node → Node → Node
    set_node : String → ℕ → Node → Node
    break_node : Node
    continue_node : Node

  pub data Nodes : Type 0 where
    no_nodes : Nodes
    node_then : Node → Nodes → Nodes

-- a variable of the generated code: one of the IR with its slot, or a fresh one with its number; the
-- text that is printed for it is `out_name` of Ir/Names
pub data PyName : Type 0 where
  user : String → ℕ → PyName
  temp : ℕ → PyName

abbrev pub name_beq : PyName → PyName → Bool
name_beq (user x i) (user y j) = (x == y) && nat_beq i j
name_beq (temp i) (temp j) = nat_beq i j
name_beq _ _ = false

pub name_beq→eq : (a b : PyName) → name_beq a b ≡ true → a ≡ b
name_beq→eq (user x i) (user y j) h = ground (arith, string_eq.beq_iff x y)
name_beq→eq (temp i) (temp j) h = ground arith
name_beq→eq _ _ h = cc h

pub name_beq_refl : (a : PyName) → name_beq a a ≡ true
name_beq_refl (user x i) = ground (arith, beq_refl x)
name_beq_refl (temp i) = ground arith

instance abbrev pub name_eq : Eq PyName
name_eq = record { beq = name_beq; beq_iff = λ a b. (name_beq→eq a b, λ h. rw h (name_beq_refl b)) }
