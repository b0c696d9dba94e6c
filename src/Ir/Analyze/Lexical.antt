-- ===== src/Ir/Analyze/Lexical.antt =====
-- boa/contracts/vyper/ir_executor.py: the slots that the analysis gives are those of lexical scoping.
use titanoboa.Prelude.{
  ℕ, String, ◌≡◌, refl, ◌∙◌, inl, inr, Option, none, some, List, [], ◌∷◌, arith, if◌then◌else◌,
  Option-cases, length, ◌==◌, beq_refl, nat_eq, string_eq, bytes_eq, pair_eq,
}
use titanoboa.Prelude.Dict.{lookup, lookup-insert, lookup-erase}
use titanoboa.Prelude.Result.{Result, ok, err, ◌>>=◌, or_raise}
use titanoboa.Ir.{
  no_irs, continue_on, break_out, node_then, no_nodes, continue_node, break_node, ir_then, set_node,
  set_var, with_node, with_var, if_else_node, if_else, if_node, if_then, repeat_node, repeat,
  seq_node, seq, prim_node, prim, variable, name, int_node, int, Ir, Irs, Node, Nodes,
}
use titanoboa.Ir.Analyze.{
  in_scope, slot_in, key_error, leave_variable, enter_variable, FrameInfo, AnalyzeError, analyze,
  analyze_each,
}

-- the slot of a name among the names in scope, the innermost first: the number of names outside it
unfoldable pub slot_of : String → List String → Option ℕ
slot_of x [] = none
slot_of x (y ∷ names) = if y == x then some (length names) else slot_of x names

abbrev pub slot_or_error : String → List String → Result AnalyzeError ℕ
slot_or_error x names = or_raise (slot_of x names) key_error

-- the nodes by lexical scoping, without a frame
unfoldable mutual
  pub resolve : Ir → List String → Result AnalyzeError Node
  resolve (int n) names = ok (int_node n)
  resolve (name x) names = do slot ← slot_or_error x names; ok (variable x slot)
  resolve (prim p args) names = do nodes ← resolve_each args names; ok (prim_node p nodes)
  resolve (seq args) names = do nodes ← resolve_each args names; ok (seq_node nodes)
  resolve (repeat i start rounds bound body) names = do
    s ← resolve start names
    r ← resolve rounds names
    b ← resolve body (i ∷ names)
    ok (repeat_node i (length names) s r bound b)
  resolve (if_then test body) names = do
    t ← resolve test names
    b ← resolve body names
    ok (if_node t b)
  resolve (if_else test body orelse) names = do
    t ← resolve test names
    b ← resolve body names
    e ← resolve orelse names
    ok (if_else_node t b e)
  resolve (with_var x val body) names = do
    v ← resolve val names
    b ← resolve body (x ∷ names)
    ok (with_node x (length names) v b)
  resolve (set_var x val) names = do
    slot ← slot_or_error x names
    v ← resolve val names
    ok (set_node x slot v)
  resolve break_out names = ok break_node
  resolve continue_on names = ok continue_node

  pub resolve_each : Irs → List String → Result AnalyzeError Nodes
  resolve_each no_irs names = ok no_nodes
  resolve_each (ir_then arg args) names = do
    a ← resolve arg names
    rest ← resolve_each args names
    ok (node_then a rest)

-- a frame has the slots of the names in scope
abbrev pub Matches : List String → FrameInfo → Type 0
Matches names frame =
    (frame.current_slot ≡ length names) × ((x : String) → lookup x frame.slots ≡ slot_of x names)

-- the analysis fails where resolving does, and else gives the same, with a frame as before
abbrev pub Same :
    {A : Type 0}
    → List String
    → Result AnalyzeError A
    → Result AnalyzeError (A × FrameInfo)
    → Type 0
Same names (ok a) (ok (b, frame)) = (b ≡ a) × Matches names frame
Same names (err x) (err y) = y ≡ x
Same names _ _ = ⊥

Same->>= :
    {A B : Type 0} (names : List String) (r : Result AnalyzeError A)
    (p : Result AnalyzeError (A × FrameInfo)) (k : A → Result AnalyzeError B)
    (l : A × FrameInfo → Result AnalyzeError (B × FrameInfo))
    → Same names r p
    → ((a : A) (frame : FrameInfo) → Matches names frame → Same names (k a) (l (a, frame)))
    → Same names (r >>= k) (p >>= l)
Same->>= names (ok a) (ok (b, frame)) k l (e, m) h = rw e (h a frame m)
Same->>= names (err x) (err y) k l e h = e
Same->>= names (ok a) (err y) k l e h = absurd e
Same->>= names (err x) (ok b) k l e h = absurd e

slot_in-Same :
    {A : Type 0} (x : String) (names : List String) (frame : FrameInfo)
    (k : ℕ → Result AnalyzeError A) (l : ℕ → Result AnalyzeError (A × FrameInfo))
    → Matches names frame
    → ((slot : ℕ) → Same names (k slot) (l slot))
    → Same names (slot_or_error x names >>= k) (slot_in x frame >>= l)
slot_in-Same x names frame k l m h = elim (Option-cases (slot_of x names)) [
  | inl e ↦ rw (m.1 x, e) refl
  | inr (slot, e) ↦ rw (m.1 x, e) (h slot)
]

enter-Matches :
    (x : String) (names : List String) (frame : FrameInfo)
    → Matches names frame
    → Matches (x ∷ names) (enter_variable x frame)
unfolding enter_variable slot_of
enter-Matches x names frame m = (
  omega (arith, m.0),
  λ y. lookup-insert x y frame.current_slot frame.slots ∙ ground (arith, m.0, m.1 y),
)

leave-Matches :
    (x : String) (names : List String) (frame inner : FrameInfo)
    → Matches names frame
    → Matches (x ∷ names) inner
    → Matches names (leave_variable x (lookup x frame.slots) inner)
unfolding leave_variable slot_of
leave-Matches x names frame inner m n = elim (Option-cases (lookup x frame.slots)) [
  | inl e ↦ rw e (
    omega (arith, n.0),
    λ y. ground (arith, lookup-erase x y inner.slots, n.1 y, m.1 x, m.1 y, string_eq.beq_iff x y),
  )
  | inr (slot, e) ↦ rw e (
    omega (arith, n.0),
    λ y.
        ground
          (arith, lookup-insert x y slot inner.slots, n.1 y, m.1 x, m.1 y, string_eq.beq_iff x y),
  )
]

left-Same :
    {A : Type 0} (x : String) (names : List String) (frame : FrameInfo)
    (r : Result AnalyzeError Node) (p : Result AnalyzeError (Node × FrameInfo))
    (k : Node → Result AnalyzeError A)
    (l : ℕ × Node × FrameInfo → Result AnalyzeError (A × FrameInfo))
    → Matches names frame
    → Same (x ∷ names) r p
    → ((node : Node) (after : FrameInfo)
        → Matches names after
        → Same names (k node) (l (length names, node, after)))
    → Same names
        (r >>= k)
        (p >>= (λ b. l (length names, b.0, leave_variable x (lookup x frame.slots) b.1)))
left-Same x names frame (ok a) (ok (b, inner)) k l m (e, n) g =
    rw e
      (g a (leave_variable x (lookup x frame.slots) inner) (leave-Matches x names frame inner m n))
left-Same x names frame (err x') (err y) k l m e g = e
left-Same x names frame (ok a) (err y) k l m e g = absurd e
left-Same x names frame (err y) (ok b) k l m e g = absurd e

own_slot :
    (x : String) (names : List String) (frame : FrameInfo)
    → Matches (x ∷ names) frame
    → slot_in x frame ≡ ok (length names)
unfolding slot_of
own_slot x names frame m = rw (m.1 x, beq_refl x) refl

>>=_assoc :
    {A B C : Type 0} (m : Result AnalyzeError A) (f : A → B) (l : B → Result AnalyzeError C)
    → ((m >>= λ a. ok (f a)) >>= l) ≡ (m >>= λ a. l (f a))
>>=_assoc (ok a) f l = refl
>>=_assoc (err x) f l = refl

in_scope-Same :
    {A : Type 0} (x : String) (names : List String) (frame : FrameInfo)
    (r : Result AnalyzeError Node) (body : FrameInfo → Result AnalyzeError (Node × FrameInfo))
    (k : Node → Result AnalyzeError A)
    (l : ℕ × Node × FrameInfo → Result AnalyzeError (A × FrameInfo))
    → Matches names frame
    → ((inner : FrameInfo) → Matches (x ∷ names) inner → Same (x ∷ names) r (body inner))
    → ((node : Node) (after : FrameInfo)
        → Matches names after
        → Same names (k node) (l (length names, node, after)))
    → Same names (r >>= k) (in_scope x frame body >>= l)
in_scope-Same x names frame r body k l m h g =
    let inside = enter-Matches x names frame m in
    let entered = enter_variable x frame in
    let back : Node × FrameInfo → ℕ × Node × FrameInfo =
      λ b. (length names, b.0, leave_variable x (lookup x frame.slots) b.1) in
    rw (own_slot x names entered inside, >>=_assoc (body entered) back l)
      (left-Same x names frame r (body entered) k l m (h entered inside) g)

module _ where
  mutual
    unfolding analyze analyze_each resolve resolve_each

    analyze-Same :
        (ir : Ir) (names : List String) (frame : FrameInfo)
        → Matches names frame
        → Same names (resolve ir names) (analyze ir frame)
    analyze-Same (int n) names frame m = (refl, m)
    analyze-Same (name x) names frame m = slot_in-Same x names frame _ _ m (λ slot. (refl, m))
    analyze-Same (prim p args) names frame m =
        Same->>= names (resolve_each args names) _ _ _ (each-Same args names frame m)
          (λ a f n. (refl, n))
    analyze-Same (seq args) names frame m =
        Same->>= names (resolve_each args names) _ _ _ (each-Same args names frame m)
          (λ a f n. (refl, n))
    analyze-Same (repeat i start rounds bound body) names frame m =
        Same->>= names _ _ _ _ (analyze-Same start names frame m) (λ s f n.
          Same->>= names _ _ _ _ (analyze-Same rounds names f n) (λ r g o.
            in_scope-Same i names g (resolve body (i ∷ names)) (analyze body) _ _ o
              (λ inner q. analyze-Same body (i ∷ names) inner q) (λ b after q. (refl, q))))
    analyze-Same (if_then test body) names frame m =
        Same->>= names _ _ _ _ (analyze-Same test names frame m)
          (λ t f n. Same->>= names _ _ _ _ (analyze-Same body names f n) (λ b g o. (refl, o)))
    analyze-Same (if_else test body orelse) names frame m =
        Same->>= names _ _ _ _ (analyze-Same test names frame m) (λ t f n.
          Same->>= names _ _ _ _ (analyze-Same body names f n)
            (λ b g o. Same->>= names _ _ _ _ (analyze-Same orelse names g o) (λ e h q. (refl, q))))
    analyze-Same (with_var x val body) names frame m =
        Same->>= names _ _ _ _ (analyze-Same val names frame m) (λ v f n.
          in_scope-Same x names f (resolve body (x ∷ names)) (analyze body) _ _ n
            (λ inner q. analyze-Same body (x ∷ names) inner q) (λ b after q. (refl, q)))
    analyze-Same (set_var x val) names frame m =
        slot_in-Same x names frame _ _ m
          (λ slot. Same->>= names _ _ _ _ (analyze-Same val names frame m) (λ v f n. (refl, n)))
    analyze-Same break_out names frame m = (refl, m)
    analyze-Same continue_on names frame m = (refl, m)

    each-Same :
        (args : Irs) (names : List String) (frame : FrameInfo)
        → Matches names frame
        → Same names (resolve_each args names) (analyze_each args frame)
    each-Same no_irs names frame m = (refl, m)
    each-Same (ir_then arg args) names frame m =
        Same->>= names _ _ _ _ (analyze-Same arg names frame m)
          (λ a f n. Same->>= names _ _ _ _ (each-Same args names f n) (λ r g o. (refl, o)))

-- The analysis resolves each name as lexical scoping does, to the number of the variables in scope
-- outside its own, fails exactly where a name is not in scope, and leaves a frame with the same slots.
pub analyze-resolve :
    (ir : Ir) (names : List String) (frame : FrameInfo)
    → Matches names frame
    → Same names (resolve ir names) (analyze ir frame)
analyze-resolve ir names frame m = analyze-Same ir names frame m
