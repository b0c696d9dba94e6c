-- ===== src/Prelude/Program.antt =====
-- A method that reads and writes the state `S` of its object and may raise one of the errors `E`:
-- it gives its outcome with the state that it leaves, also where it raises.
use mathlib.Core.Path.{◌≡◌, refl, ◌∙◌}
use mathlib.Core.Bool.{Bool, true, false}
use mathlib.Core.Logic.{◌⊎◌, inl, inr}
use titanoboa.Prelude.Result.{Result, ok, err}

abbrev pub Program : Type 0 → Type 0 → Type 0 → Type 0
Program S E A = S → Result E A × S

module _ {S E A : Type 0} where
  abbrev pub pure : A → Program S E A
  pure a s = (ok a, s)

  abbrev pub raise : E → Program S E A
  raise x s = (err x, s)

  -- a call that does not touch the state
  abbrev pub lift : Result E A → Program S E A
  lift r s = (r, s)

  abbrev pub gets : (S → A) → Program S E A
  gets f s = (ok (f s), s)

module _ {S E : Type 0} where
  abbrev pub modify : (S → S) → Program S E (Unit {0})
  modify f s = (ok tt, f s)

  -- `if test: raise x`
  abbrev pub raise_if : Bool → E → Program S E (Unit {0})
  raise_if true x s = (err x, s)
  raise_if false x s = (ok tt, s)

module _ {S E A B : Type 0} where
  abbrev pub next : (A → Program S E B) → Result E A × S → Result E B × S
  next f (ok a, s) = f a s
  next f (err x, s) = (err x, s)

infixl 5 ◌>>=◌ ◌>>◌
abbrev pub ◌>>=◌ : {S E A B : Type 0} → Program S E A → (A → Program S E B) → Program S E B
◌>>=◌ m f s = next f (m s)

abbrev pub ◌>>◌ : {S E A B : Type 0} → Program S E A → Program S E B → Program S E B
m >> k = m >>= λ _. k

module _ {S E A : Type 0} where
  abbrev pub handled : (E → Program S E A) → Result E A × S → Result E A × S
  handled h (ok a, s) = (ok a, s)
  handled h (err x, s) = h x s

  -- `try: m except ...: h`, where `h` raises again what it does not handle
  abbrev pub try_except : Program S E A → (E → Program S E A) → Program S E A
  try_except m h s = handled h (m s)

module _ {S E A B : Type 0} (Q : Result E B × S → Type 0) where
  after-next :
      (o : Result E A × S) (f : A → Program S E B)
      → ((a : A) (s : S) → o ≡ (ok a, s) → Q (f a s))
      → ((x : E) (s : S) → o ≡ (err x, s) → Q (err x, s))
      → Q (next f o)
  after-next (ok a, s) f fine bad = fine a s refl
  after-next (err x, s) f fine bad = bad x s refl

  -- What holds after a sequence holds after its rest, or after an error of its first part.
  pub after->>= :
      (m : Program S E A) (f : A → Program S E B) (s : S)
      → ((a : A) (s' : S) → m s ≡ (ok a, s') → Q (f a s'))
      → ((x : E) (s' : S) → m s ≡ (err x, s') → Q (err x, s'))
      → Q ((m >>= f) s)
  after->>= m f s = after-next (m s) f

module _ {S E A : Type 0} (Q : Result E A × S → Type 0) where
  after-handled :
      (o : Result E A × S) (h : E → Program S E A)
      → ((a : A) (s : S) → o ≡ (ok a, s) → Q (ok a, s))
      → ((x : E) (s : S) → o ≡ (err x, s) → Q (h x s))
      → Q (handled h o)
  after-handled (ok a, s) h fine bad = fine a s refl
  after-handled (err x, s) h fine bad = bad x s refl

  pub after-try_except :
      (m : Program S E A) (h : E → Program S E A) (s : S)
      → ((a : A) (s' : S) → m s ≡ (ok a, s') → Q (ok a, s'))
      → ((x : E) (s' : S) → m s ≡ (err x, s') → Q (h x s'))
      → Q (try_except m h s)
  after-try_except m h s = after-handled (m s) h

-- A method that leaves what `view` shows of the state as it is, whatever its outcome.
module _ {S E V : Type 0} (view : S → V) where
  unfoldable pub Keeps : {A : Type 0} → Program S E A → Type 0
  Keeps m = (s : S) → view (m s).1 ≡ view s

  pub Keeps-lift : {A : Type 0} (r : Result E A) → Keeps (lift r)
  unfolding Keeps
  Keeps-lift r s = refl

  pub Keeps-raise_if : (b : Bool) (x : E) → Keeps (raise_if b x)
  unfolding Keeps
  Keeps-raise_if true x s = refl
  Keeps-raise_if false x s = refl

  Keeps-next :
      {A B : Type 0} (f : A → Program S E B) (v : V) (o : Result E A × S)
      → ((a : A) → Keeps (f a))
      → view o.1 ≡ v
      → view (next f o).1 ≡ v
  unfolding Keeps
  Keeps-next f v (ok a, s) h e = h a s ∙ e
  Keeps-next f v (err x, s) h e = e

  pub Keeps->>= :
      {A B : Type 0} (m : Program S E A) (f : A → Program S E B)
      → Keeps m
      → ((a : A) → Keeps (f a))
      → Keeps (m >>= f)
  unfolding Keeps
  Keeps->>= m f k h s = Keeps-next f (view s) (m s) h (k s)

  Keeps-handled :
      {A : Type 0} (h : E → Program S E A) (v : V) (o : Result E A × S)
      → ((x : E) → Keeps (h x))
      → view o.1 ≡ v
      → view (handled h o).1 ≡ v
  unfolding Keeps
  Keeps-handled h v (ok a, s) k e = e
  Keeps-handled h v (err x, s) k e = k x s ∙ e

  pub Keeps-try_except :
      {A : Type 0} (m : Program S E A) (h : E → Program S E A)
      → Keeps m
      → ((x : E) → Keeps (h x))
      → Keeps (try_except m h)
  unfolding Keeps
  Keeps-try_except m h k l s = Keeps-handled h (view s) (m s) l (k s)

module _ {S V : Type 0} (E : Type 0) (view : S → V) where
  pub Keeps-gets : {A : Type 0} (f : S → A) → Keeps view (gets {E = E} f)
  unfolding Keeps
  Keeps-gets f s = refl

  pub Keeps-modify : (f : S → S) → ((s : S) → view (f s) ≡ view s) → Keeps view (modify {E = E} f)
  unfolding Keeps
  Keeps-modify f h = h

-- A method that gives a state with `P` back with `P`, whatever its outcome.
module _ {S E : Type 0} (P : S → Type 0) where
  unfoldable pub Stays : {A : Type 0} → Program S E A → Type 0
  Stays m = (s : S) → P s → P (m s).1

  Stays-next :
      {A B : Type 0} (f : A → Program S E B) (o : Result E A × S)
      → ((a : A) → Stays (f a))
      → P o.1
      → P (next f o).1
  unfolding Stays
  Stays-next f (ok a, s) h p = h a s p
  Stays-next f (err x, s) h p = p

  pub Stays->>= :
      {A B : Type 0} (m : Program S E A) (f : A → Program S E B)
      → Stays m
      → ((a : A) → Stays (f a))
      → Stays (m >>= f)
  unfolding Stays
  Stays->>= m f k h s p = Stays-next f (m s) h (k s p)

  pub Stays-Keeps :
      {A V : Type 0} (view : S → V) (m : Program S E A)
      → ((s t : S) → view t ≡ view s → P s → P t)
      → Keeps view m
      → Stays m
  unfolding Stays Keeps
  Stays-Keeps view m h k s p = h s (m s).1 (k s) p

-- A sequence that returned has a first part that returned, and a rest that returned.
module _ {S E A B : Type 0} where
  next-returns :
      (o : Result E A × S) (f : A → Program S E B) (b : B) (t : S)
      → next f o ≡ (ok b, t)
      → (a : A) × (s' : S) × (o ≡ (ok a, s')) × (f a s' ≡ (ok b, t))
  next-returns (ok a, s') f b t e = (a, s', refl, e)
  next-returns (err x, s') f b t e = absurd (cc e)

  pub >>=-returns :
      (m : Program S E A) (f : A → Program S E B) (s : S) (b : B) (t : S)
      → (m >>= f) s ≡ (ok b, t)
      → (a : A) × (s' : S) × (m s ≡ (ok a, s')) × (f a s' ≡ (ok b, t))
  >>=-returns m f s = next-returns (m s) f

module _ {S E A : Type 0} where
  handled-returns :
      (o : Result E A × S) (h : E → Program S E A) (a : A) (t : S)
      → handled h o ≡ (ok a, t)
      → (o ≡ (ok a, t)) ⊎ ((x : E) × (s' : S) × (o ≡ (err x, s')) × (h x s' ≡ (ok a, t)))
  handled-returns (ok a', s') h a t e = inl e
  handled-returns (err x, s') h a t e = inr (x, s', refl, e)

  pub try_except-returns :
      (m : Program S E A) (h : E → Program S E A) (s : S) (a : A) (t : S)
      → try_except m h s ≡ (ok a, t)
      → (m s ≡ (ok a, t)) ⊎ ((x : E) × (s' : S) × (m s ≡ (err x, s')) × (h x s' ≡ (ok a, t)))
  try_except-returns m h s = handled-returns (m s) h

module _ {S E A B : Type 0} where
  next-raises :
      (o : Result E A × S) (f : A → Program S E B) (x : E) (t : S)
      → next f o ≡ (err x, t)
      → (o ≡ (err x, t)) ⊎ ((a : A) × (s' : S) × (o ≡ (ok a, s')) × (f a s' ≡ (err x, t)))
  next-raises (ok a, s') f x t e = inr (a, s', refl, e)
  next-raises (err y, s') f x t e = inl (cc e)

  -- A sequence that raised has a first part that raised, or a rest that raised.
  pub >>=-raises :
      (m : Program S E A) (f : A → Program S E B) (s : S) (x : E) (t : S)
      → (m >>= f) s ≡ (err x, t)
      → (m s ≡ (err x, t)) ⊎ ((a : A) × (s' : S) × (m s ≡ (ok a, s')) × (f a s' ≡ (err x, t)))
  >>=-raises m f s = next-raises (m s) f

module _ {S E A : Type 0} where
  handled-raises :
      (o : Result E A × S) (h : E → Program S E A) (x : E) (t : S)
      → handled h o ≡ (err x, t)
      → (y : E) × (s' : S) × (o ≡ (err y, s')) × (h y s' ≡ (err x, t))
  handled-raises (ok a, s') h x t e = absurd (cc e)
  handled-raises (err y, s') h x t e = (y, s', refl, e)

  -- A handled call that raised did so in its handler.
  pub try_except-raises :
      (m : Program S E A) (h : E → Program S E A) (s : S) (x : E) (t : S)
      → try_except m h s ≡ (err x, t)
      → (y : E) × (s' : S) × (m s ≡ (err y, s')) × (h y s' ≡ (err x, t))
  try_except-raises m h s = handled-raises (m s) h
