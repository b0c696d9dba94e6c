-- ===== src/Ir/Translate.antt =====
-- `executor_from_ir` of boa/contracts/vyper/ir_executor.py, from the IR to the lines of its main
-- function.
use titanoboa.Prelude.{
  ℕ, String, ◌≡◌, refl, inl, inr, Bool, none, some, List, [], ◌∷◌, Option-cases, nat_eq, string_eq,
  bytes_eq, pair_eq,
}
use titanoboa.Prelude.Result.{Result, ok, err, ◌>>=◌}
use titanoboa.Ir.{
  no_irs, continue_on, break_out, ir_then, set_var, with_var, if_else, if_then, repeat, seq, prim,
  name, int, Ir, Irs, Node,
}
use titanoboa.Ir.Analyze.{analyze, FrameInfo, AnalyzeError}
use titanoboa.Ir.Analyze.Lexical.{slot_or_error, resolve, resolve_each, slot_of}
use titanoboa.Ir.Python.{Locals, Block}
use titanoboa.Ir.Compile.{compile, CompileError}
use titanoboa.Ir.Compile.Right.{Scoped, ScopedEach}

pub data TranslateError : Type 0 where
  analyze_failed : AnalyzeError → TranslateError
  compile_failed : CompileError → TranslateError

abbrev pub analyzed : Result AnalyzeError (Node × FrameInfo) → Result TranslateError Node
analyzed (ok (node, frame)) = ok node
analyzed (err x) = err (analyze_failed x)

abbrev pub compiled : Result CompileError (Block × ℕ) → Result TranslateError Block
compiled (ok (b, id)) = ok b
compiled (err x) = err (compile_failed x)

-- `FrameInfo()`
abbrev pub new_frame : FrameInfo
new_frame = record { current_slot = 0; slots = [] }

-- `executor_from_ir`: the analysis and the body of the main function
unfoldable pub executor_from_ir : (String → Bool) → Ir → Result TranslateError Block
executor_from_ir produces ir = do
  node ← analyzed (analyze ir new_frame)
  compiled (compile produces node none 0)

-- what holds of a resolved node
abbrev OfOk : {A : Type 0} → (A → Type 0) → Result AnalyzeError A → Type 0
OfOk P (ok a) = P a
OfOk P (err x) = Unit

OfOk->>= :
    {A B : Type 0} (P : A → Type 0) (Q : B → Type 0) (r : Result AnalyzeError A)
    (f : A → Result AnalyzeError B)
    → OfOk P r
    → ((a : A) → P a → OfOk Q (f a))
    → OfOk Q (r >>= f)
OfOk->>= P Q (ok a) f p h = h a p
OfOk->>= P Q (err x) f p h = tt

slot-OfOk :
    (x : String) (names : List String)
    → OfOk (λ slot. slot_of x names ≡ some slot) (slot_or_error x names)
slot-OfOk x names = elim (Option-cases (slot_of x names)) [
  | inl e ↦ rw e tt
  | inr (slot, e) ↦ rw e refl
]

mutual
  unfolding resolve resolve_each Scoped ScopedEach

  resolve-OfOk : (ir : Ir) (names : List String) → OfOk (Scoped names) (resolve ir names)
  resolve-OfOk (int n) names = tt
  resolve-OfOk (name x) names =
      OfOk->>= (λ slot. slot_of x names ≡ some slot) (Scoped names) (slot_or_error x names) _
        (slot-OfOk x names) (λ slot h. h)
  resolve-OfOk (prim p args) names =
      OfOk->>= (ScopedEach names) _ _ _ (each-OfOk args names) (λ a h. h)
  resolve-OfOk (seq args) names =
      OfOk->>= (ScopedEach names) _ _ _ (each-OfOk args names) (λ a h. h)
  resolve-OfOk (repeat i start rounds bound body) names =
      OfOk->>= (Scoped names) _ _ _ (resolve-OfOk start names) (λ s p.
        OfOk->>= (Scoped names) _ _ _ (resolve-OfOk rounds names) (λ r q.
          OfOk->>= (Scoped (i ∷ names)) _ _ _ (resolve-OfOk body (i ∷ names))
            (λ b u. (refl, p, q, u))))
  resolve-OfOk (if_then test body) names =
      OfOk->>= (Scoped names) _ _ _ (resolve-OfOk test names)
        (λ t p. OfOk->>= (Scoped names) _ _ _ (resolve-OfOk body names) (λ b q. (p, q)))
  resolve-OfOk (if_else test body orelse) names =
      OfOk->>= (Scoped names) _ _ _ (resolve-OfOk test names) (λ t p.
        OfOk->>= (Scoped names) _ _ _ (resolve-OfOk body names)
          (λ b q. OfOk->>= (Scoped names) _ _ _ (resolve-OfOk orelse names) (λ e u. (p, q, u))))
  resolve-OfOk (with_var x val body) names =
      OfOk->>= (Scoped names) _ _ _ (resolve-OfOk val names) (λ v p.
        OfOk->>= (Scoped (x ∷ names)) _ _ _ (resolve-OfOk body (x ∷ names)) (λ b q. (refl, p, q)))
  resolve-OfOk (set_var x val) names =
      OfOk->>= (λ slot. slot_of x names ≡ some slot) (Scoped names) _ _ (slot-OfOk x names)
        (λ slot h. OfOk->>= (Scoped names) _ _ _ (resolve-OfOk val names) (λ v p. (h, p)))
  resolve-OfOk break_out names = tt
  resolve-OfOk continue_on names = tt

  each-OfOk : (args : Irs) (names : List String) → OfOk (ScopedEach names) (resolve_each args names)
  each-OfOk no_irs names = tt
  each-OfOk (ir_then arg args) names =
      OfOk->>= (Scoped names) _ _ _ (resolve-OfOk arg names)
        (λ a p. OfOk->>= (ScopedEach names) _ _ _ (each-OfOk args names) (λ r q. (p, q)))

-- no local variable is bound
abbrev pub unbound : Locals
unbound x = none
