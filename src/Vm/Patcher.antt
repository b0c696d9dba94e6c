-- ===== src/Vm/Patcher.antt =====
-- `VMPatcher` of boa/vm/py_evm.py: attributes of several py-evm objects under one set of names.
pub mod Anchor
use titanoboa.Prelude.{
  ◌+◌, String, none, some, List, [], ◌∷◌, ◌++◌, arith, nat_eq, string_eq, bytes_eq, pair_eq,
}
use titanoboa.Prelude.Dict.{Dict, keys, lookup, insert}
use titanoboa.Prelude.Result.{Result, ok, err, ◌>>=◌, ◌>>◌, or_raise}

-- an object with its attributes, and the table from the patcher's names to the object's
abbrev pub Table : Type 0
Table = Dict String String

module _ {ℓ} (V : Type ℓ) where
  abbrev pub Object : Type ℓ
  Object = Dict String V

  abbrev pub Patchables : Type ℓ
  Patchables = List (Table × Object)

pub data AttributeError : Type 0 where
  attribute_error : String → AttributeError

module _ {ℓ} {V : Type ℓ} where
  -- `getattr(p, name)` of a py-evm object
  unfoldable pub attribute : String → Object V → Result AttributeError V
  attribute name p = or_raise (lookup name p) (attribute_error name)

  -- `__getattr__`: the first table that has the name
  unfoldable pub get_attr : String → Patchables V → Result AttributeError V
  unfolding attribute
  get_attr attr [] = err (attribute_error attr)
  get_attr attr ((s, p) ∷ ps) =
      let rest = get_attr attr ps in
      elim (lookup attr s) [ some name ↦ attribute name p | none ↦ rest ]

  -- `__setattr__`: a name that no table has is dropped without an error
  unfoldable pub set_attr : String → V → Patchables V → Patchables V
  set_attr attr value [] = []
  set_attr attr value ((s, p) ∷ ps) =
      let rest = set_attr attr value ps in
      elim (lookup attr s) [ some name ↦ (s, insert name value p) ∷ ps | none ↦ (s, p) ∷ rest ]

  -- the names of the two nested loops, in their order
  unfoldable pub attrs : Patchables V → List String
  attrs [] = []
  attrs ((s, p) ∷ ps) = keys s ++ attrs ps

  -- `snap[attr] = getattr(self, attr)`
  unfoldable pub save : List String → Patchables V → Result AttributeError (Dict String V)
  save [] ps = ok []
  save (attr ∷ names) ps = do
    value ← get_attr attr ps
    snap ← save names ps
    ok ((attr, value) ∷ snap)

  -- `setattr(self, attr, snap[attr])`
  unfoldable pub restore : Dict String V → Patchables V → Patchables V
  restore [] ps = ps
  restore ((attr, value) ∷ snap) ps = restore snap (set_attr attr value ps)

  -- the body of the `with` statement gives an answer, or raises, and leaves the objects changed
  unfoldable pub anchor {κ μ} :
      {E : Type κ} {A : Type μ}
      → (AttributeError → E)
      → (Patchables V → Result E A × Patchables V)
      → Patchables V
      → Result E A × Patchables V
  anchor failed body ps = elim (save (attrs ps) ps) [
    | ok snap ↦ (let (r, ps') = body ps in (r, restore snap ps'))
    | err x ↦ (err (failed x), ps)
  ]
