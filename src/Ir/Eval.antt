-- ===== src/Ir/Eval.antt =====
-- What the IR of boa/contracts/vyper/ir_executor.py means, with lexical scopes: the reference that
-- the generated code is compared with. The machine and its primitives are parameters.
use titanoboa.Prelude.{
  ℕ, zero, suc, String, ◌⊎◌, inl, inr, Bool, true, false, Option, none, some, List, [], ◌∷◌, leb,
  nat_beq, if◌then◌else◌, ◌==◌, nat_eq, string_eq, bytes_eq, pair_eq,
}
use titanoboa.Ir.{
  no_nodes, continue_node, break_node, node_then, set_node, with_node, if_else_node, if_node,
  repeat_node, seq_node, prim_node, variable, int_node, Node, Nodes,
}

-- the variables in scope with their values, the innermost first
abbrev pub Scope : Type 0
Scope = List (String × ℕ)

-- how the evaluation of a node ends: with a value, without one, by a jump out of the loop's body, by
-- a stop of the machine, at a loop with too many rounds, or, where the code has no meaning, badly
pub data Outcome (X : Type 0) : Type 0 where
  value : ℕ → Outcome X
  no_value broke continued : Outcome X
  stopped : X → Outcome X
  too_many_rounds bad : Outcome X

abbrev pub find_var : String → Scope → Option ℕ
find_var x [] = none
find_var x ((y, v) ∷ scope) = if y == x then some v else find_var x scope

-- a write to the innermost variable of the name
abbrev pub write_var : String → ℕ → Scope → Scope
write_var x n [] = []
write_var x n ((y, v) ∷ scope) = if y == x then (y, n) ∷ scope else (y, v) ∷ write_var x n scope

abbrev pub leave : Scope → Scope
leave [] = []
leave (_ ∷ scope) = scope

-- the machine: what a primitive does with its arguments, and whether it gives a value
pub record Machine : Type 1 where
  pub M : Type 0
  pub X : Type 0
  pub perform : String → List ℕ → M → (ℕ ⊎ X) × M
  pub produces : String → Bool

module _ (mc : Machine) where
  abbrev pub Run : Type 0
  Run = Outcome mc.X × Scope × mc.M

  -- after a value, or after any end that goes on
  abbrev pub with_value : (ℕ → Scope → mc.M → Run) → Run → Run
  with_value k (value n, scope, m) = k n scope m
  with_value k (no_value, scope, m) = (bad, scope, m)
  with_value k (o, scope, m) = (o, scope, m)

  abbrev pub go_on : (Scope → mc.M → Run) → Run → Run
  go_on k (value n, scope, m) = k scope m
  go_on k (no_value, scope, m) = k scope m
  go_on k (o, scope, m) = (o, scope, m)

  abbrev pub out_of_scope : Run → Run
  out_of_scope (o, scope, m) = (o, leave scope, m)

  abbrev pub without_value : Run → Run
  without_value (value n, scope, m) = (no_value, scope, m)
  without_value (o, scope, m) = (o, scope, m)

  abbrev pub performed : Bool → Scope → (ℕ ⊎ mc.X) × mc.M → Run
  performed true scope (inl n, m) = (value n, scope, m)
  performed false scope (inl n, m) = (no_value, scope, m)
  performed _ scope (inr x, m) = (stopped x, scope, m)

  abbrev pub read_var : String → Option ℕ → Scope → mc.M → Run
  read_var x none scope m = (bad, scope, m)
  read_var x (some v) scope m = (value v, scope, m)

  -- after a round: go on, leave the loop, or end as the body did
  abbrev pub next_round : (Scope → mc.M → Run) → Run → Run
  next_round k (value n, scope, m) = k scope m
  next_round k (no_value, scope, m) = k scope m
  next_round k (continued, scope, m) = k scope m
  next_round k (broke, scope, m) = (no_value, scope, m)
  next_round k (o, scope, m) = (o, scope, m)

  -- so many rounds, with the number of the round as the variable
  abbrev pub rounds_from : String → (Scope → mc.M → Run) → ℕ → ℕ → Scope → mc.M → Run
  rounds_from x body zero i scope m = (no_value, scope, m)
  rounds_from x body (suc rounds) i scope m =
      next_round (rounds_from x body rounds (suc i)) (out_of_scope (body ((x, i) ∷ scope) m))

  unfoldable mutual
    -- a node in a scope; the arguments of a primitive are evaluated from the last to the first
    pub eval : Node → Scope → mc.M → Run
    eval (int_node n) scope m = (value n, scope, m)
    eval (variable x slot) scope m = read_var x (find_var x scope) scope m
    eval (prim_node p args) scope m =
        eval_args args
          (λ values scope' m'. performed (mc.produces p) scope' (mc.perform p values m')) scope m
    eval (seq_node nodes) scope m = eval_seq nodes scope m
    eval (repeat_node x slot start rounds bound body) scope m =
        with_value
          (λ s. λ scope' m'.
            with_value
              (λ r. λ scope'' m''.
                if leb r bound
                then rounds_from x (eval body) r s scope'' m''
                else (too_many_rounds, scope'', m''))
              (eval rounds scope' m'))
          (eval start scope m)
    eval (if_node test body) scope m =
        with_value
          (λ t. λ scope' m'.
            if nat_beq t 0 then (no_value, scope', m') else without_value (eval body scope' m'))
          (eval test scope m)
    eval (if_else_node test body orelse) scope m =
        with_value
          (λ t. λ scope' m'. if nat_beq t 0 then eval orelse scope' m' else eval body scope' m')
          (eval test scope m)
    eval (with_node x slot val body) scope m =
        with_value (λ n. λ scope' m'. out_of_scope (eval body ((x, n) ∷ scope') m'))
          (eval val scope m)
    eval (set_node x slot val) scope m =
        with_value (λ n. λ scope' m'. (no_value, write_var x n scope', m')) (eval val scope m)
    eval break_node scope m = (broke, scope, m)
    eval continue_node scope m = (continued, scope, m)

    pub eval_args : Nodes → (List ℕ → Scope → mc.M → Run) → Scope → mc.M → Run
    eval_args no_nodes k scope m = k [] scope m
    eval_args (node_then arg args) k scope m =
        eval_args args
          (λ values scope' m'.
            with_value (λ v. λ scope'' m''. k (v ∷ values) scope'' m'') (eval arg scope' m'))
          scope m

    pub eval_seq : Nodes → Scope → mc.M → Run
    eval_seq no_nodes scope m = (no_value, scope, m)
    eval_seq (node_then arg no_nodes) scope m = eval arg scope m
    eval_seq (node_then arg (node_then arg' args)) scope m =
        go_on (eval_seq (node_then arg' args)) (eval arg scope m)
