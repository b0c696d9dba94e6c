-- ===== src/Prelude/Sums.antt =====
-- Sums of an integer measure over the values of a dict.
use mathlib.Core.Path.{◌≡◌}
use mathlib.Core.Option.{Option, none, some}
use mathlib.Core.List.{[], ◌∷◌}
use mathlib.Core.Logic.{inl, inr}
use titanoboa.Prelude.Tests.{Bool-cases}
use titanoboa.Prelude.Equality.{Eq, ◌==◌}
use titanoboa.Prelude.Dict.{Dict, lookup, insert}
use titanoboa.Prelude.Int.{ℤ, pos, ◌+ℤ◌, int_laws}

-- the measure of a value that may be missing
abbrev pub old_measure {ℓ} : {V : Type ℓ} → (V → ℤ) → Option V → ℤ
old_measure f none = pos 0
old_measure f (some v) = f v

module _ {ℓ κ} {K : Type ℓ} {V : Type κ} (f : V → ℤ) where
  abbrev pub sum_by : Dict K V → ℤ
  sum_by [] = pos 0
  sum_by ((k, v) ∷ d) = f v +ℤ sum_by d

  -- A write moves the sum by what it changes at its key.
  pub sum_by-insert :
      ⦃e : Eq K⦄ (k : K) (v : V) (d : Dict K V)
      → sum_by (insert k v d) +ℤ old_measure f (lookup k d) ≡ sum_by d +ℤ f v
  sum_by-insert ⦃e⦄ k v [] = omega int_laws
  sum_by-insert ⦃e⦄ k v ((j, w) ∷ d) = elim (Bool-cases (j == k)) [
    | inl same ↦ rw same (omega int_laws)
    | inr other ↦ rw other (grind (int_laws, sum_by-insert k v d))
  ]

-- the sum of integers
abbrev pub total {ℓ} : {K : Type ℓ} → Dict K ℤ → ℤ
total d = sum_by (λ g. g) d

pub cancel_right : (a b c : ℤ) → a +ℤ c ≡ b +ℤ c → a ≡ b
cancel_right a b c h = grind (int_laws, h)
