-- ===== src/Ir/Compile/Simulation.antt =====
-- boa/contracts/vyper/ir_executor.py: how a run of the generated code relates to the meaning of a node.
use titanoboa.Prelude.{
  ℕ, ◌<◌, String, ◌≡◌, Option, none, some, List, [], ◌∷◌, length, nat_eq, string_eq, bytes_eq,
  pair_eq, ◌≤◌, ◌∙◌, arith, refl,
}
use titanoboa.Ir.{PyName, user, temp}
use titanoboa.Ir.Eval.{
  next_round, go_on, value, no_value, broke, continued, stopped, too_many_rounds, bad,
  without_value, out_of_scope, leave, Machine, Scope, Run, with_value,
}
use titanoboa.Ir.Python.{
  next_iteration, fell, broken, on_to_next, raised, assertion_error, Locals, PyRun, assigned,
  then_run,
}

abbrev pub names_of : Scope → List String
names_of [] = []
names_of ((x, v) ∷ scope) = x ∷ names_of scope

-- each variable in scope has its value in the local variable of its name and slot
abbrev pub Agrees : Scope → Locals → Type 0
Agrees [] st = Unit
Agrees ((x, v) ∷ scope) st = (st (user x (length scope)) ≡ some v) × Agrees scope st

-- the fresh variables below a number are as they were
abbrev pub Fresh : ℕ → Locals → Locals → Type 0
Fresh id st st' = (i : ℕ) → i < id → st' (temp i) ≡ st (temp i)

-- the scope has the names, the locals agree with it, and the fresh variables below `id` are kept
abbrev pub Good : List String → ℕ → Locals → Scope → Locals → Type 0
Good names id st scope st' = (names_of scope ≡ names) × Agrees scope st' × Fresh id st st'

-- with a value that is to be left in `out`
abbrev pub Left : List String → ℕ → Locals → Option PyName → ℕ → Scope → Locals → Type 0
Left names id st none n scope st' = Good names id st scope st'
Left names id st (some out) n scope st' =
    (st'' : Locals) × (st' ≡ assigned out n st'') × Good names id st scope st''

-- without a value: nothing is said where one was to be left
abbrev pub Unvalued : List String → ℕ → Locals → Option PyName → Scope → Locals → Type 0
Unvalued names id st none scope st' = Good names id st scope st'
Unvalued names id st (some out) scope st' = Unit

module _ (mc : Machine) where
  -- the code ends as the node does, in the same state of the machine; where the node ends badly,
  -- nothing is said
  abbrev pub Sim : List String → ℕ → Locals → Option PyName → Run mc → PyRun mc → Type 0
  Sim names id st out (value n, scope, m) (fell, st', m') =
      (m' ≡ m) × Left names id st out n scope st'
  Sim names id st none (no_value, scope, m) (fell, st', m') = (m' ≡ m) × Good names id st scope st'
  Sim names id st (some out) (no_value, scope, m) p = Unit
  Sim names id st out (broke, scope, m) (broken, st', m') = (m' ≡ m) × Good names id st scope st'
  Sim names id st out (continued, scope, m) (on_to_next, st', m') =
      (m' ≡ m) × Good names id st scope st'
  Sim names id st out (stopped x, scope, m) (raised y, st', m') = (y ≡ x) × (m' ≡ m)
  Sim names id st out (too_many_rounds, scope, m) (assertion_error, st', m') = m' ≡ m
  Sim names id st out (bad, scope, m) p = Unit
  Sim names id st out _ _ = ⊥

  -- a later start, from which more fresh variables are kept
  pub Good-later :
      (names : List String) (id id' : ℕ) (st st1 : Locals) (scope : Scope) (st' : Locals)
      → id ≤ id'
      → Fresh id st st1
      → Good names id' st1 scope st'
      → Good names id st scope st'
  Good-later names id id' st st1 scope st' l f (n, a, g) = (n, a, λ i h. g i (omega arith) ∙ f i h)

  -- a value is left, and the rest goes on from it; the part before may keep more fresh variables
  pub Sim-with_value :
      (names : List String) (id id1 : ℕ) (st st1 : Locals) (o : PyName) (out : Option PyName)
      (k : ℕ → Scope → mc.M → Run mc) (l : Locals → mc.M → PyRun mc) (r : Run mc) (p : PyRun mc)
      → id ≤ id1
      → Fresh id st st1
      → Sim names id1 st1 (some o) r p
      → ((n : ℕ) (scope : Scope) (st' : Locals) (m : mc.M)
          → Good names id1 st1 scope st'
          → Sim names id st out (k n scope m) (l (assigned o n st') m))
      → Sim names id st out (with_value mc k r) (then_run mc l p)
  Sim-with_value names id id1 st st1 o out k l (value n, scope, m) (fell, st', m') le f
        (e, (st'', eq, g)) h =
      rw (e, eq) (h n scope st'' m g)
  Sim-with_value names id id1 st st1 o out k l (no_value, scope, m) p le f s h = tt
  Sim-with_value names id id1 st st1 o out k l (broke, scope, m) (broken, st', m') le f (e, g) h =
      (e, Good-later names id id1 st st1 scope st' le f g)
  Sim-with_value names id id1 st st1 o out k l (continued, scope, m) (on_to_next, st', m') le f
        (e, g) h =
      (e, Good-later names id id1 st st1 scope st' le f g)
  Sim-with_value names id id1 st st1 o out k l (stopped x, scope, m) (raised y, st', m') le f s h =
      s
  Sim-with_value names id id1 st st1 o out k l (too_many_rounds, scope, m)
        (assertion_error, st', m') le f s h =
      s
  Sim-with_value names id id1 st st1 o out k l (bad, scope, m) p le f s h = tt
  Sim-with_value names id id1 st st1 o out k l _ _ le f s h = absurd s

  pub Sim-go_on :
      (names : List String) (id : ℕ) (st : Locals) (out : Option PyName) (k : Scope → mc.M → Run mc)
      (l : Locals → mc.M → PyRun mc) (r : Run mc) (p : PyRun mc)
      → Sim names id st none r p
      → ((scope : Scope) (st' : Locals) (m : mc.M)
          → Good names id st scope st'
          → Sim names id st out (k scope m) (l st' m))
      → Sim names id st out (go_on mc k r) (then_run mc l p)
  Sim-go_on names id st out k l (value n, scope, m) (fell, st', m') (e, g) h =
      rw e (h scope st' m g)
  Sim-go_on names id st out k l (no_value, scope, m) (fell, st', m') (e, g) h =
      rw e (h scope st' m g)
  Sim-go_on names id st out k l (broke, scope, m) (broken, st', m') s h = s
  Sim-go_on names id st out k l (continued, scope, m) (on_to_next, st', m') s h = s
  Sim-go_on names id st out k l (stopped x, scope, m) (raised y, st', m') s h = s
  Sim-go_on names id st out k l (too_many_rounds, scope, m) (assertion_error, st', m') s h = s
  Sim-go_on names id st out k l (bad, scope, m) p s h = tt
  Sim-go_on names id st out k l _ _ s h = absurd s

  pub Sim-later :
      (names : List String) (id id' : ℕ) (st st1 : Locals) (out : Option PyName) (r : Run mc)
      (p : PyRun mc)
      → id ≤ id'
      → Fresh id st st1
      → Sim names id' st1 out r p
      → Sim names id st out r p
  Sim-later names id id' st st1 none (value n, scope, m) (fell, st', m') l f (e, g) =
      (e, Good-later names id id' st st1 scope st' l f g)
  Sim-later names id id' st st1 (some o) (value n, scope, m) (fell, st', m') l f
        (e, (st'', eq, g)) =
      (e, (st'', eq, Good-later names id id' st st1 scope st'' l f g))
  Sim-later names id id' st st1 none (no_value, scope, m) (fell, st', m') l f (e, g) =
      (e, Good-later names id id' st st1 scope st' l f g)
  Sim-later names id id' st st1 (some o) (no_value, scope, m) p l f s = tt
  Sim-later names id id' st st1 out (broke, scope, m) (broken, st', m') l f (e, g) =
      (e, Good-later names id id' st st1 scope st' l f g)
  Sim-later names id id' st st1 out (continued, scope, m) (on_to_next, st', m') l f (e, g) =
      (e, Good-later names id id' st st1 scope st' l f g)
  Sim-later names id id' st st1 out (stopped x, scope, m) (raised y, st', m') l f s = s
  Sim-later names id id' st st1 out (too_many_rounds, scope, m) (assertion_error, st', m') l f s = s
  Sim-later names id id' st st1 out (bad, scope, m) p l f s = tt
  Sim-later names id id' st st1 out _ _ l f s = absurd s

  pub Good-leave :
      (x : String) (names : List String) (id : ℕ) (st : Locals) (scope : Scope) (st' : Locals)
      → Good (x ∷ names) id st scope st'
      → Good names id st (leave scope) st'
  Good-leave x names id st [] st' (n, a, g) = absurd (cc n)
  Good-leave x names id st ((y, v) ∷ scope) st' (n, a, g) = (cc n, a.1, g)

  pub Sim-out_of_scope :
      (x : String) (names : List String) (id : ℕ) (st : Locals) (out : Option PyName) (r : Run mc)
      (p : PyRun mc)
      → Sim (x ∷ names) id st out r p
      → Sim names id st out (out_of_scope mc r) p
  Sim-out_of_scope x names id st none (value n, scope, m) (fell, st', m') (e, g) =
      (e, Good-leave x names id st scope st' g)
  Sim-out_of_scope x names id st (some o) (value n, scope, m) (fell, st', m') (e, (st'', eq, g)) =
      (e, (st'', eq, Good-leave x names id st scope st'' g))
  Sim-out_of_scope x names id st none (no_value, scope, m) (fell, st', m') (e, g) =
      (e, Good-leave x names id st scope st' g)
  Sim-out_of_scope x names id st (some o) (no_value, scope, m) p s = tt
  Sim-out_of_scope x names id st out (broke, scope, m) (broken, st', m') (e, g) =
      (e, Good-leave x names id st scope st' g)
  Sim-out_of_scope x names id st out (continued, scope, m) (on_to_next, st', m') (e, g) =
      (e, Good-leave x names id st scope st' g)
  Sim-out_of_scope x names id st out (stopped y, scope, m) (raised z, st', m') s = s
  Sim-out_of_scope x names id st out (too_many_rounds, scope, m) (assertion_error, st', m') s = s
  Sim-out_of_scope x names id st out (bad, scope, m) p s = tt
  Sim-out_of_scope x names id st out _ _ s = absurd s

  pub Sim-without_value :
      (names : List String) (id : ℕ) (st : Locals) (out : Option PyName) (r : Run mc) (p : PyRun mc)
      → Sim names id st out r p
      → Sim names id st out (without_value mc r) p
  Sim-without_value names id st none (value n, scope, m) (fell, st', m') s = s
  Sim-without_value names id st (some o) (value n, scope, m) (fell, st', m') s = tt
  Sim-without_value names id st none (no_value, scope, m) p s = s
  Sim-without_value names id st (some o) (no_value, scope, m) p s = tt
  Sim-without_value names id st out (broke, scope, m) (broken, st', m') s = s
  Sim-without_value names id st out (continued, scope, m) (on_to_next, st', m') s = s
  Sim-without_value names id st out (stopped x, scope, m) (raised y, st', m') s = s
  Sim-without_value names id st out (too_many_rounds, scope, m) (assertion_error, st', m') s = s
  Sim-without_value names id st out (bad, scope, m) p s = tt
  Sim-without_value names id st out _ _ s = absurd s

  pub Sim-no_value :
      (names : List String) (id : ℕ) (st : Locals) (out : Option PyName) (scope : Scope)
      (st' : Locals) (m : mc.M)
      → Good names id st scope st'
      → Sim names id st out (no_value, scope, m) (fell, st', m)
  Sim-no_value names id st none scope st' m g = (refl, g)
  Sim-no_value names id st (some o) scope st' m g = tt

  pub Sim-next_round :
      (names : List String) (id : ℕ) (st : Locals) (out : Option PyName) (k : Scope → mc.M → Run mc)
      (l : Locals → mc.M → PyRun mc) (r : Run mc) (p : PyRun mc)
      → Sim names id st none r p
      → ((scope : Scope) (st' : Locals) (m : mc.M)
          → Good names id st scope st'
          → Sim names id st out (k scope m) (l st' m))
      → Sim names id st out (next_round mc k r) (next_iteration mc l p)
  Sim-next_round names id st out k l (value n, scope, m) (fell, st', m') (e, g) h =
      rw e (h scope st' m g)
  Sim-next_round names id st out k l (no_value, scope, m) (fell, st', m') (e, g) h =
      rw e (h scope st' m g)
  Sim-next_round names id st out k l (broke, scope, m) (broken, st', m') (e, g) h =
      rw e (Sim-no_value names id st out scope st' m g)
  Sim-next_round names id st out k l (continued, scope, m) (on_to_next, st', m') (e, g) h =
      rw e (h scope st' m g)
  Sim-next_round names id st out k l (stopped x, scope, m) (raised y, st', m') s h = s
  Sim-next_round names id st out k l (too_many_rounds, scope, m) (assertion_error, st', m') s h = s
  Sim-next_round names id st out k l (bad, scope, m) p s h = tt
  Sim-next_round names id st out k l _ _ s h = absurd s
