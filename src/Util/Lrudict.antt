-- ===== src/Util/Lrudict.antt =====
-- boa/util/lrudict.py: a dict that holds at most `n` entries, the least recently read in front.
pub mod Bounds
pub mod Memo
pub mod Recency
use titanoboa.Prelude.{
  ℕ, Option, none, some, [], ◌∷◌, ◌&&◌, not, Eq, length, nat_beq, if◌then◌else◌,
}
use titanoboa.Prelude.Dict.{Dict, lookup, contains, insert, erase}
use titanoboa.Prelude.Result.{Result, ok, err}

pub data LruError : Type 0 where
  key_error stop_iteration : LruError

pub record Lrudict {ℓ κ} (K : Type ℓ) (V : Type κ) : Type (ℓ ⊔ κ) where
  pub n : ℕ
  pub entries : Dict K V

-- the answer or the exception, and the object as the call leaves it
abbrev pub Outcome {ℓ κ μ} : Type ℓ → Type κ → Type μ → Type (ℓ ⊔ κ ⊔ μ)
Outcome K V A = Result LruError A × Lrudict K V

module _ {ℓ κ} {K : Type ℓ} {V : Type κ} ⦃e : Eq K⦄ where
  found : K → Option V → Lrudict K V → Outcome K V V
  found k none c = (err key_error, c)
  found k (some val) c = (ok val, record c { entries = insert k val (erase k c.entries) })

  -- `__getitem__`: a hit moves to the end of the queue
  unfoldable pub get : K → Lrudict K V → Outcome K V V
  unfolding found
  get k c = found k (lookup k c.entries) c

  -- `del self[next(iter(self))]`
  evict : Dict K V → Result LruError (Dict K V)
  evict [] = err stop_iteration
  evict ((j, w) ∷ d) = ok (erase j ((j, w) ∷ d))

  -- the test of `__setitem__`, and what it leaves to write into
  pub room : ℕ → K → Dict K V → Result LruError (Dict K V)
  unfolding evict
  room n k d = if nat_beq (length d) n && not (contains k d) then evict d else ok d

  stored : K → V → Result LruError (Dict K V) → Lrudict K V → Outcome K V (Unit {0})
  stored k val (ok d) c = (ok tt, record c { entries = insert k val d })
  stored k val (err x) c = (err x, c)

  -- `__setitem__`
  unfoldable pub put : K → V → Lrudict K V → Outcome K V (Unit {0})
  unfolding stored room
  put k val c = stored k val (room c.n k c.entries) c

  returning : V → Outcome K V (Unit {0}) → Outcome K V V
  returning ret (ok _, c) = (ok ret, c)
  returning ret (err x, c) = (err x, c)

  -- `except KeyError`
  on_key_error : (K → V) → K → Outcome K V V → Outcome K V V
  unfolding returning
  on_key_error fn k (ok val, c) = (ok val, c)
  on_key_error fn k (err key_error, c) = returning (fn k) (put k (fn k) c)
  on_key_error fn k (err stop_iteration, c) = (err stop_iteration, c)

  unfoldable pub setdefault_lambda : (K → V) → K → Lrudict K V → Outcome K V V
  unfolding on_key_error get put
  setdefault_lambda fn k c = on_key_error fn k (get k c)
