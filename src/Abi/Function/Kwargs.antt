-- ===== src/Abi/Function/Kwargs.antt =====
-- Keyword arguments land at the places of their names.
use titanoboa.Prelude.{
  take-append, length-drop, suc, ◌+◌, String, ◌≡◌, refl, sym, ap, ◌∙◌, inl, inr, Bool, true, false,
  ◌||◌, some, List, [], ◌∷◌, ◌++◌, arith, nat_beq, Bool-cases, Option-cases, nat_beq→eq, length,
  take, drop, length-append, ◌==◌, nat_eq, string_eq, bytes_eq, pair_eq,
}
use titanoboa.Prelude.Dict.{Dict, values, lookup, erase, lookup-erase}
use titanoboa.Prelude.Result.{ok, ok-injective, Result-cases}
use titanoboa.Abi.Function.{Encoder, AbiFunction, Input, pops, merge_kwargs, argument_count}
use mathlib.Core.Path.{subst}

-- the names of inputs differ from each other
abbrev pub names_listed : String → List Input → Bool
names_listed n [] = false
names_listed n (i ∷ inputs) = (i.name == n) || names_listed n inputs

abbrev pub AllDiffer : List Input → Type 0
AllDiffer [] = Unit
AllDiffer (i ∷ inputs) = (names_listed i.name inputs ≡ false) × AllDiffer inputs

module _ (encoder : Encoder) where
  -- the keyword arguments hold the values of the inputs, in whatever order
  abbrev pub Gives : List Input → List encoder.Value → Dict String encoder.Value → Type 0
  Gives [] [] kwargs = Unit
  Gives (i ∷ inputs) (v ∷ values) kwargs =
      (lookup i.name kwargs ≡ some v) × Gives inputs values kwargs
  Gives _ _ kwargs = false ≡ true

  Gives-erase :
      (n : String) (inputs : List Input) (values : List encoder.Value)
      (kwargs : Dict String encoder.Value)
      → names_listed n inputs ≡ false
      → Gives inputs values kwargs
      → Gives inputs values (erase n kwargs)
  Gives-erase n [] [] kwargs d g = tt
  Gives-erase n [] (v ∷ values) kwargs d g = g
  Gives-erase n (i ∷ inputs) [] kwargs d g = g
  Gives-erase n (i ∷ inputs) (v ∷ values) kwargs d g = (
    ground (
      arith,
      lookup-erase n i.name kwargs,
      string_eq.beq_iff n i.name,
      string_eq.beq_iff i.name n,
      g.0,
    ),
    Gives-erase n inputs values kwargs (ground arith) g.1,
  )

  pops-Gives :
      (inputs : List Input) (values : List encoder.Value) (kwargs : Dict String encoder.Value)
      → AllDiffer inputs
      → Gives inputs values kwargs
      → pops encoder inputs kwargs ≡ ok values
  unfolding pops
  pops-Gives [] [] kwargs d g = refl
  pops-Gives [] (v ∷ values) kwargs d g = cc
  pops-Gives (i ∷ inputs) [] kwargs d g = cc
  pops-Gives (i ∷ inputs) (v ∷ values) kwargs d g = rw (
    g.0,
    pops-Gives inputs values (erase i.name kwargs) d.1
        (Gives-erase i.name inputs values kwargs d.0 g.1),
  )

  -- Positional arguments for the first inputs and keyword arguments for the others, given in any
  -- order, merge into the values in the order of the inputs.
  pub merge_kwargs-Gives :
      (f : AbiFunction) (args values : List encoder.Value) (kwargs : Dict String encoder.Value)
      → AllDiffer (drop (length args) f.inputs)
      → Gives (drop (length args) f.inputs) values kwargs
      → length kwargs + length args ≡ argument_count f
      → merge_kwargs encoder f args kwargs ≡ ok (args ++ values)
  unfolding merge_kwargs
  merge_kwargs-Gives f args values kwargs d g n =
      let t : nat_beq (length kwargs + length args) (argument_count f) ≡ true = ground arith in
      rw (t, pops-Gives (drop (length args) f.inputs) values kwargs d g)

  pops-length :
      (inputs : List Input) (kwargs : Dict String encoder.Value) (values : List encoder.Value)
      → pops encoder inputs kwargs ≡ ok values
      → length values ≡ length inputs
  unfolding pops
  pops-length [] kwargs values h = ap length (sym (ok-injective h))
  pops-length (i ∷ inputs) kwargs values h = elim (Option-cases (lookup i.name kwargs)) [
    | inl miss ↦ absurd (ground arith)
    | inr (v, hit) ↦ elim (Result-cases (pops encoder inputs (erase i.name kwargs))) [
      | inr (x, e) ↦ absurd (ground arith)
      | inl (vs, e) ↦
          ap length (sym (ok-injective (rw (hit, e) at h)))
          ∙ ap suc (pops-length inputs (erase i.name kwargs) vs e)
    ]
  ]

  -- Whatever is passed, a merge that returns has a value for each input, the positional arguments
  -- in front.
  pub merge_kwargs-length :
      (f : AbiFunction) (args values : List encoder.Value) (kwargs : Dict String encoder.Value)
      → merge_kwargs encoder f args kwargs ≡ ok values
      → (length values ≡ argument_count f) × (take (length args) values ≡ args)
  unfolding merge_kwargs
  merge_kwargs-length f args values kwargs h =
      elim (Bool-cases (nat_beq (length kwargs + length args) (argument_count f))) [
        | inr bad ↦ absurd (ground arith)
        | inl fits ↦ elim (Result-cases (pops encoder (drop (length args) f.inputs) kwargs)) [
          | inr (x, e) ↦ absurd (ground arith)
          | inl (vs, e) ↦
              let same : args ++ vs ≡ values = ok-injective (rw (fits, e) at h) in
              let rest = pops-length (drop (length args) f.inputs) kwargs vs e in
              let total = nat_beq→eq (length kwargs + length args) (argument_count f) fits in
              subst (λ x. (length x ≡ argument_count f) × (take (length args) x ≡ args)) same
                (
                  omega (
                    arith,
                    length-append args vs,
                    rest,
                    length-drop (length args) f.inputs,
                    total,
                  ),
                  take-append args vs,
                )
        ]
      ]
