-- ===== src/Abi/Function/Overload.antt =====
-- Which overload a call picks.
use titanoboa.Prelude.{
  ◌+◌, String, ◌≡◌, refl, true, false, none, List, [], ◌∷◌, ◌++◌, arith, nat_beq, length, nat_eq,
  string_eq, bytes_eq, pair_eq, ap, inl, inr, Bool, ◌||◌, Bool-cases, Option-cases, drop, ◌==◌,
}
use titanoboa.Prelude.Dict.{Dict, lookup, erase, lookup-erase}
use titanoboa.Prelude.Result.{ok, err}
use titanoboa.Abi.Function.{
  pops, Input, Encoder, AbiFunction, type_error, no_match, ambiguous, merge_kwargs, is_encodable,
  encodable_of, matches_of, the_match, pick_overload, argument_count, named,
}

-- a parameter of the name is among the inputs
abbrev pub asks_for : String → List Input → Bool
asks_for x [] = false
asks_for x (i ∷ inputs) = (i.name == x) || asks_for x inputs

pops_missing :
    (x : String) (encoder : Encoder) (inputs : List Input) (kwargs : Dict String encoder.Value)
    → asks_for x inputs ≡ true
    → lookup x kwargs ≡ none
    → pops encoder inputs kwargs ≡ err type_error
unfolding pops
pops_missing x encoder [] kwargs asked absent = cc
pops_missing x encoder (i ∷ inputs) kwargs asked absent =
    elim (Option-cases (lookup i.name kwargs)) [
      | inl miss ↦ rw miss
      | inr (v, hit) ↦
          let rest : asks_for x inputs ≡ true = elim (Bool-cases (i.name == x)) [
            | inl same ↦
                let e = (string_eq.beq_iff i.name x).0 same in
                absurd (cc (hit, absent, ap (λ z. lookup z kwargs) e))
            | inr other ↦ rw other at asked
          ] in
          let gone : lookup x (erase i.name kwargs) ≡ none =
            ground (arith, lookup-erase i.name x kwargs) in
          rw (hit, pops_missing x encoder inputs (erase i.name kwargs) rest gone)
    ]

module _ (encoder : Encoder) (args : List encoder.Value) (kwargs : Dict String encoder.Value) where
  -- the overloads that do not take the arguments
  abbrev pub AllRefuse : List AbiFunction → Type 0
  AllRefuse [] = Unit
  AllRefuse (f ∷ fs) = (is_encodable encoder f args kwargs ≡ ok false) × AllRefuse fs

  refused-encodable_of :
      (fs : List AbiFunction) → AllRefuse fs → encodable_of encoder fs args kwargs ≡ ok []
  unfolding encodable_of
  refused-encodable_of [] h = refl
  refused-encodable_of (f ∷ fs) h = rw (h.0, refused-encodable_of fs h.1)

  only-encodable_of :
      (before later : List AbiFunction) (f : AbiFunction)
      → AllRefuse before
      → AllRefuse later
      → is_encodable encoder f args kwargs ≡ ok true
      → encodable_of encoder (before ++ f ∷ later) args kwargs ≡ ok (f ∷ [])
  unfolding encodable_of
  only-encodable_of [] later f b l h = rw (h, refused-encodable_of later l)
  only-encodable_of (g ∷ before) later f b l h = rw (b.0, only-encodable_of before later f b.1 l h)

  both-encodable_of :
      (before between later : List AbiFunction) (f g : AbiFunction)
      → AllRefuse before
      → AllRefuse between
      → AllRefuse later
      → is_encodable encoder f args kwargs ≡ ok true
      → is_encodable encoder g args kwargs ≡ ok true
      → encodable_of encoder (before ++ f ∷ (between ++ g ∷ later)) args kwargs ≡ ok (f ∷ g ∷ [])
  unfolding encodable_of
  both-encodable_of [] between later f g b w l hf hg =
      rw (hf, only-encodable_of between later g w l hg)
  both-encodable_of (x ∷ before) between later f g b w l hf hg =
      rw (b.0, both-encodable_of before between later f g b.1 w l hf hg)

  -- overloads that take the arguments or do not, without an error
  abbrev pub AllAnswer : List AbiFunction → Type 0
  AllAnswer [] = Unit
  AllAnswer (f ∷ fs) =
      ((fits : Bool) × (is_encodable encoder f args kwargs ≡ ok fits)) × AllAnswer fs

  raises-encodable_of :
      (before later : List AbiFunction) (f : AbiFunction)
      → AllAnswer before
      → is_encodable encoder f args kwargs ≡ err type_error
      → encodable_of encoder (before ++ f ∷ later) args kwargs ≡ err type_error
  unfolding encodable_of
  raises-encodable_of [] later f b h = rw h
  raises-encodable_of (x ∷ before) later f ((fits, e), b) h =
      rw (e, raises-encodable_of before later f b h)

  -- Of overloads with a name, the only one that takes the arguments is picked, wherever it stands;
  -- where none takes them the call is refused as one without a match, and where two take them, as
  -- an ambiguous one.
  pub pick_overload-only :
      (before between later : List AbiFunction) (f g : AbiFunction)
      → AllRefuse before
      → AllRefuse between
      → AllRefuse later
      → is_encodable encoder f args kwargs ≡ ok true
      → is_encodable encoder g args kwargs ≡ ok true
      → named (before ++ f ∷ later) ≡ true
      → named (before ++ f ∷ (between ++ g ∷ later)) ≡ true
      → named between ≡ true
      → (pick_overload encoder (before ++ f ∷ later) none args kwargs ≡ ok f)
        × (pick_overload encoder (before ++ f ∷ (between ++ g ∷ later)) none args kwargs
            ≡ err ambiguous)
        × (pick_overload encoder between none args kwargs ≡ err no_match)
  unfolding pick_overload matches_of the_match
  pick_overload-only before between later f g b w l hf hg n m nb = (
    rw (only-encodable_of before later f b l hf, n),
    rw (both-encodable_of before between later f g b w l hf hg, m),
    rw (refused-encodable_of between w, nb),
  )

  -- A call whose arguments have the number that some overload takes, where a parameter that is left
  -- to the keywords is none of them, raises a TypeError, unless an overload before it raised: also
  -- where other overloads take the arguments.
  pub pick_overload-keyword :
      (before later : List AbiFunction) (f : AbiFunction) (x : String)
      → AllAnswer before
      → length kwargs + length args ≡ argument_count f
      → asks_for x (drop (length args) f.inputs) ≡ true
      → lookup x kwargs ≡ none
      → pick_overload encoder (before ++ f ∷ later) none args kwargs ≡ err type_error
  unfolding pick_overload matches_of is_encodable merge_kwargs
  pick_overload-keyword before later f x b n asked absent =
      let t : nat_beq (length kwargs + length args) (argument_count f) ≡ true = ground arith in
      let raised : is_encodable encoder f args kwargs ≡ err type_error =
        rw (t, pops_missing x encoder (drop (length args) f.inputs) kwargs asked absent) in
      rw (raises-encodable_of before later f b raised)
