-- ===== src/Ir/Names/Printed.antt =====
-- boa/contracts/vyper/ir_executor.py: code runs the same with its names as their texts.
use titanoboa.Prelude.{
  ℕ, zero, suc, String, ◌≡◌, refl, sym, ap, ◌∙◌, inl, inr, true, Option, none, some, List, [], ◌∷◌,
  map, arith, leb, nat_beq, Bool-cases, Option-cases, nat_eq, string_eq, bytes_eq, pair_eq, ◌⊎◌,
}
use mathlib.Core.Path.{subst}
use titanoboa.Ir.{PyName, user, temp, name_beq, name_beq→eq, name_beq_refl, name_eq}
use titanoboa.Ir.Eval.{Machine}
use titanoboa.Ir.Python.{
  PyExpr, literal, local, call, Stmt, Block, assign, bare, if_block, if_else_block, for_range,
  assert_le, break_stmt, continue_stmt, pass_stmt, end_block, then_do, PyEnd, fell, broken,
  on_to_next, raised, assertion_error, name_error, Locals, assigned, PyRun, then_run, values_of,
  stored, run_expr, next_iteration, iterate, with_local, exec, exec_block,
}
use titanoboa.Ir.Names.{
  out_name, by_text, print_expr, print_stmt, print, member, all_members, expr_names, stmt_within,
  within, apart, apart_lem,
}

module _ (mc : Machine) (names : List PyName) (distinct : apart names names ≡ true) where
  -- locals by name and by text that agree on the names
  Alike : Locals → Locals → Type 0
  Alike st st' = (p : PyName) → member p names ≡ true → st' (by_text p) ≡ st p

  text_of : PyName → String
  text_of (user x slot) = x
  text_of (temp i) = ""

  Alike-assigned :
      (x : PyName) (n : ℕ) (st st' : Locals)
      → member x names ≡ true
      → Alike st st'
      → Alike (assigned x n st) (assigned (by_text x) n st')
  unfolding Alike assigned text_of
  Alike-assigned x n st st' h a p k = elim (Bool-cases (name_beq x p)) [
    | inl same ↦
        let x_is : x ≡ p = name_beq→eq x p same in
        let texts : name_beq (by_text x) (by_text p) ≡ true =
          subst (λ z. name_beq (by_text x) (by_text z) ≡ true) x_is (name_beq_refl (by_text x)) in
        rw (same, texts) refl
    | inr other ↦ elim (Bool-cases (name_beq (by_text x) (by_text p))) [
      | inl merged ↦
          let texts : out_name x ≡ out_name p =
            ap text_of (name_beq→eq (by_text x) (by_text p) merged) in
          let x_is : x ≡ p = apart_lem x p names names distinct h k texts in
          absurd (cc (other, subst (λ z. name_beq x z ≡ true) x_is (name_beq_refl x)))
      | inr apart_texts ↦ rw (other, apart_texts) (a p k)
    ]
  ]

  -- runs that end alike, in the same state of the machine
  pub Same : PyRun mc → PyRun mc → Type 0
  Same (e, st, m) p' = (st' : Locals) × (p' ≡ (e, st', m)) × Alike st st'

  ended : (e : PyEnd mc.X) (st st' : Locals) (m : mc.M) → Alike st st' → Same (e, st, m) (e, st', m)
  unfolding Same
  ended e st st' m a = (st', refl, a)

  then_run-Same :
      (k k' : Locals → mc.M → PyRun mc) (p p' : PyRun mc)
      → Same p p'
      → ((st st' : Locals) (m : mc.M) → Alike st st' → Same (k st m) (k' st' m))
      → Same (then_run mc k p) (then_run mc k' p')
  unfolding Same
  then_run-Same k k' (fell, st, m) p' (st', e, a) h = rw e (h st st' m a)
  then_run-Same k k' (broken, st, m) p' (st', e, a) h = rw e (st', refl, a)
  then_run-Same k k' (on_to_next, st, m) p' (st', e, a) h = rw e (st', refl, a)
  then_run-Same k k' (raised x, st, m) p' (st', e, a) h = rw e (st', refl, a)
  then_run-Same k k' (assertion_error, st, m) p' (st', e, a) h = rw e (st', refl, a)
  then_run-Same k k' (name_error, st, m) p' (st', e, a) h = rw e (st', refl, a)

  next_iteration-Same :
      (k k' : Locals → mc.M → PyRun mc) (p p' : PyRun mc)
      → Same p p'
      → ((st st' : Locals) (m : mc.M) → Alike st st' → Same (k st m) (k' st' m))
      → Same (next_iteration mc k p) (next_iteration mc k' p')
  unfolding Same
  next_iteration-Same k k' (fell, st, m) p' (st', e, a) h = rw e (h st st' m a)
  next_iteration-Same k k' (broken, st, m) p' (st', e, a) h = rw e (st', refl, a)
  next_iteration-Same k k' (on_to_next, st, m) p' (st', e, a) h = rw e (h st st' m a)
  next_iteration-Same k k' (raised x, st, m) p' (st', e, a) h = rw e (st', refl, a)
  next_iteration-Same k k' (assertion_error, st, m) p' (st', e, a) h = rw e (st', refl, a)
  next_iteration-Same k k' (name_error, st, m) p' (st', e, a) h = rw e (st', refl, a)

  iterate-Same :
      (x : PyName) (body body' : Locals → mc.M → PyRun mc) (rounds i : ℕ) (st st' : Locals)
      (m : mc.M)
      → member x names ≡ true
      → ((s s' : Locals) (n : mc.M) → Alike s s' → Same (body s n) (body' s' n))
      → Alike st st'
      → Same (iterate mc x body rounds i st m) (iterate mc (by_text x) body' rounds i st' m)
  unfolding Same
  iterate-Same x body body' zero i st st' m k h a = (st', refl, a)
  iterate-Same x body body' (suc rounds) i st st' m k h a =
      next_iteration-Same (iterate mc x body rounds (suc i))
        (iterate mc (by_text x) body' rounds (suc i)) (body (assigned x i st) m)
        (body' (assigned (by_text x) i st') m)
        (h (assigned x i st) (assigned (by_text x) i st') m (Alike-assigned x i st st' k a))
        (λ s s' n b. iterate-Same x body body' rounds (suc i) s s' n k h b)

  -- a test of a name that must be there
  with_local-Same :
      (x : PyName) (k k' : ℕ → PyRun mc) (st st' : Locals) (m : mc.M)
      → member x names ≡ true
      → Alike st st'
      → ((n : ℕ) → Same (k n) (k' n))
      → Same (with_local mc (st x) k st m) (with_local mc (st' (by_text x)) k' st' m)
  unfolding Same Alike
  with_local-Same x k k' st st' m h a next = elim (Option-cases (st x)) [
    | inl absent ↦ rw (a x h, absent) (st', refl, a)
    | inr (n, bound) ↦ rw (a x h, bound) (next n)
  ]

  values_of-by_text :
      (args : List PyName) (st st' : Locals)
      → all_members args names ≡ true
      → Alike st st'
      → values_of mc (map by_text args) st' ≡ values_of mc args st
  unfolding Alike
  values_of-by_text [] st st' h a = refl
  values_of-by_text (x ∷ args) st st' h a =
      rw (a x (ground (arith, h)), values_of-by_text args st st' (ground (arith, h)) a) refl

  stored-Same :
      (x : PyName) (r : (ℕ ⊎ mc.X) × mc.M) (st st' : Locals)
      → member x names ≡ true
      → Alike st st'
      → Same (stored mc (some x) st r) (stored mc (some (by_text x)) st' r)
  unfolding Same
  stored-Same x (inl n, m) st st' h a =
      (assigned (by_text x) n st', refl, Alike-assigned x n st st' h a)
  stored-Same x (inr y, m) st st' h a = (st', refl, a)

  bare-Same :
      (r : (ℕ ⊎ mc.X) × mc.M) (st st' : Locals)
      → Alike st st'
      → Same (stored mc none st r) (stored mc none st' r)
  unfolding Same
  bare-Same (inl n, m) st st' a = (st', refl, a)
  bare-Same (inr y, m) st st' a = (st', refl, a)

  -- an expression whose value is stored in a way that keeps locals alike
  run_expr-Same :
      (out out' : Option PyName) (e : PyExpr) (st st' : Locals) (m : mc.M)
      → ((r : (ℕ ⊎ mc.X) × mc.M) → Same (stored mc out st r) (stored mc out' st' r))
      → expr_names e names ≡ true
      → Alike st st'
      → Same (run_expr mc out e st m) (run_expr mc out' (print_expr e) st' m)
  unfolding Same Alike
  run_expr-Same out out' (literal n) st st' m store h a = store (inl n, m)
  run_expr-Same out out' (local x) st st' m store h a = elim (Option-cases (st x)) [
    | inl absent ↦ rw (a x h, absent) (st', refl, a)
    | inr (n, bound) ↦ rw (a x h, bound) (store (inl n, m))
  ]
  run_expr-Same out out' (call p args) st st' m store h a =
      elim (Option-cases (values_of mc args st)) [
        | inl absent ↦ rw (values_of-by_text args st st' h a, absent) (st', refl, a)
        | inr (vs, bound) ↦
            rw (values_of-by_text args st st' h a, bound) (store (mc.perform p vs m))
      ]

  mutual
    unfolding exec print_stmt stmt_within

    exec-Same :
        (s : Stmt) (st st' : Locals) (m : mc.M)
        → stmt_within s names ≡ true
        → Alike st st'
        → Same (exec mc s st m) (exec mc (print_stmt s) st' m)
    exec-Same (assign x e) st st' m h a =
        run_expr-Same (some x) (some (by_text x)) e st st' m
          (λ r. stored-Same x r st st' (ground (arith, h)) a) (ground (arith, h)) a
    exec-Same (bare e) st st' m h a =
        run_expr-Same none none e st st' m (λ r. bare-Same r st st' a) h a
    exec-Same (if_block test body) st st' m h a =
        with_local-Same test _ _ st st' m (ground (arith, h)) a (λ t.
          elim (Bool-cases (nat_beq t 0)) [
            | inl z ↦ rw z (ended fell st st' m a)
            | inr z ↦ rw z (exec_block-Same body st st' m (ground (arith, h)) a)
          ])
    exec-Same (if_else_block test body orelse) st st' m h a =
        with_local-Same test _ _ st st' m (ground (arith, h)) a (λ t.
          elim (Bool-cases (nat_beq t 0)) [
            | inl z ↦ rw z (exec_block-Same orelse st st' m (ground (arith, h)) a)
            | inr z ↦ rw z (exec_block-Same body st st' m (ground (arith, h)) a)
          ])
    exec-Same (for_range x start rounds body) st st' m h a =
        with_local-Same start _ _ st st' m (ground (arith, h)) a (λ s.
          with_local-Same rounds _ _ st st' m (ground (arith, h)) a (λ r.
            iterate-Same x (exec_block mc body) (exec_block mc (print body)) r s st st' m
              (ground (arith, h)) (λ u u' n b. exec_block-Same body u u' n (ground (arith, h)) b)
              a))
    exec-Same (assert_le x bound) st st' m h a = with_local-Same x _ _ st st' m h a (λ n.
        elim (Bool-cases (leb n bound)) [
          | inl z ↦ rw z (ended fell st st' m a)
          | inr z ↦ rw z (ended assertion_error st st' m a)
        ])
    exec-Same break_stmt st st' m h a = ended broken st st' m a
    exec-Same continue_stmt st st' m h a = ended on_to_next st st' m a
    exec-Same pass_stmt st st' m h a = ended fell st st' m a

    exec_block-Same :
        (b : Block) (st st' : Locals) (m : mc.M)
        → within b names ≡ true
        → Alike st st'
        → Same (exec_block mc b st m) (exec_block mc (print b) st' m)
    exec_block-Same end_block st st' m h a = ended fell st st' m a
    exec_block-Same (then_do s b) st st' m h a =
        then_run-Same (exec_block mc b) (exec_block mc (print b)) (exec mc s st m)
          (exec mc (print_stmt s) st' m) (exec-Same s st st' m (ground (arith, h)) a)
          (λ u u' n c. exec_block-Same b u u' n (ground (arith, h)) c)

  -- code that starts without locals ends alike by name and by text, in the same state of the machine
  pub exec_block-print :
      (b : Block) (st : Locals) (m : mc.M)
      → within b names ≡ true
      → ((p : PyName) → st p ≡ none)
      → (st' : Locals) × (exec_block mc (print b) st m
          ≡ ((exec_block mc b st m).0, st', (exec_block mc b st m).2))
  unfolding Same Alike
  exec_block-print b st m h empty =
      let (st', e, a) = exec_block-Same b st st m h (λ p k. empty (by_text p) ∙ sym (empty p)) in
      (st', e)
