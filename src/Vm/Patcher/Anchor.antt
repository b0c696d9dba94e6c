-- ===== src/Vm/Patcher/Anchor.antt =====
-- What `VMPatcher.anchor` restores.
use titanoboa.Prelude.{
  String, ◌≡◌, refl, sym, ap, ◌∙◌, ◌≢◌, ◌⊎◌, inl, inr, Bool, true, false, ◌||◌, some, List, [], ◌∷◌,
  ◌++◌, arith, Bool-cases, Option-cases, ◌==◌, beq_refl, nat_eq, string_eq, bytes_eq, pair_eq,
}
use titanoboa.Prelude.Dict.{Dict, keys, lookup, contains, insert, lookup-insert, lookup-insert_self}
use titanoboa.Prelude.Result.{ok, ok-injective, Result-cases, Result, err}
use titanoboa.Vm.Patcher.{
  AttributeError, anchor, attribute_error, attribute, attrs, save, restore, Object, get_attr,
  set_attr, Table, Patchables,
}
use mathlib.Core.Path.{subst}

-- the tables, which are constants of the class
abbrev pub tables {ℓ} : {V : Type ℓ} → Patchables V → List Table
tables [] = []
tables ((s, p) ∷ ps) = s ∷ tables ps

abbrev known : String → List Table → Bool
known attr [] = false
known attr (s ∷ ts) = contains attr s || known attr ts

-- no table has two names for one attribute of an object
abbrev pub Injective : List Table → Type 0
Injective [] = Unit
Injective (s ∷ ts) =
    ((a b name : String) → lookup a s ≡ some name → lookup b s ≡ some name → a ≡ b) × Injective ts

abbrev AllKnown : List String → List Table → Type 0
AllKnown [] ts = Unit
AllKnown (a ∷ names) ts = (known a ts ≡ true) × AllKnown names ts

known_later :
    (s : Table) (names : List String) (ts : List Table)
    → AllKnown names ts
    → AllKnown names (s ∷ ts)
known_later s [] ts h = tt
known_later s (a ∷ names) ts h = (ground arith, known_later s names ts h.1)

known_here :
    (d s : Table) (ts : List Table)
    → ((a : String) → contains a d ≡ true → contains a s ≡ true)
    → AllKnown (keys d) (s ∷ ts)
known_here [] s ts h = tt
known_here ((a, n) ∷ d) s ts h =
    (ground (arith, h a, beq_refl a), known_here d s ts (λ b c. h b (ground arith)))

AllKnown-append :
    (xs ys : List String) (ts : List Table)
    → AllKnown xs ts
    → AllKnown ys ts
    → AllKnown (xs ++ ys) ts
AllKnown-append [] ys ts h k = k
AllKnown-append (x ∷ xs) ys ts h k = (h.0, AllKnown-append xs ys ts h.1 k)

module _ {ℓ} {V : Type ℓ} where
  pub tables-set_attr :
      (a : String) (v : V) (ps : Patchables V) → tables (set_attr a v ps) ≡ tables ps
  unfolding set_attr
  tables-set_attr a v [] = refl
  tables-set_attr a v ((s, p) ∷ ps) = elim (Option-cases (lookup a s)) [
    | inl new ↦ rw (new, tables, set_attr) (ap (◌∷◌ s) (tables-set_attr a v ps))
    | inr (name, old) ↦ rw (old, tables, set_attr)
  ]

  get_attr-set_attr_self :
      (a : String) (v : V) (ps : Patchables V)
      → known a (tables ps) ≡ true
      → get_attr a (set_attr a v ps) ≡ ok v
  unfolding get_attr set_attr attribute
  get_attr-set_attr_self a v [] h = cc
  get_attr-set_attr_self a v ((s, p) ∷ ps) h = elim (Option-cases (lookup a s)) [
    | inl new ↦ rw (new, get_attr, set_attr, new) (get_attr-set_attr_self a v ps (ground arith))
    | inr (name, old) ↦ rw (old, get_attr, set_attr, old, lookup-insert_self name v p)
  ]

  other_name :
      (name other : String) (v : V) (p : Object V)
      → name ≢ other
      → lookup other (insert name v p) ≡ lookup other p
  other_name name other v p ne = elim (Bool-cases (name == other)) [
    | inl same ↦ absurd (ne ((string_eq.beq_iff name other).0 same))
    | inr differ ↦ lookup-insert name other v p ∙ rw differ
  ]

  pub get_attr-set_attr_ne :
      (a b : String) (v : V) (ps : Patchables V)
      → Injective (tables ps)
      → a ≢ b
      → get_attr b (set_attr a v ps) ≡ get_attr b ps
  unfolding get_attr set_attr attribute
  get_attr-set_attr_ne a b v [] inj ne = refl
  get_attr-set_attr_ne a b v ((s, p) ∷ ps) inj ne = elim (Option-cases (lookup a s)) [
    | inl new ↦ elim (Option-cases (lookup b s)) [
      | inl none_b ↦ rw (new, get_attr, set_attr, none_b) (get_attr-set_attr_ne a b v ps inj.1 ne)
      | inr (name, b_at) ↦ rw (new, get_attr, set_attr, b_at)
    ]
    | inr (name, old) ↦ elim (Option-cases (lookup b s)) [
      | inl none_b ↦ rw (old, get_attr, set_attr, none_b)
      | inr (other, b_at) ↦
          let apart : name ≢ other = λ e. ne (inj.0 a b name old (b_at ∙ ap some (sym e))) in
          rw (old, get_attr, set_attr, b_at, other_name name other v p apart)
    ]
  ]

  -- every entry is what an attribute gave before, under a name that the tables have
  abbrev Saved : Patchables V → Dict String V → Type ℓ
  Saved ps [] = Unit
  Saved ps ((a, v) ∷ snap) = (get_attr a ps ≡ ok v) × (known a (tables ps) ≡ true) × Saved ps snap

  restore_lem :
      (ps : Patchables V) (snap : Dict String V) (ps' : Patchables V) (b : String)
      → Injective (tables ps)
      → tables ps' ≡ tables ps
      → Saved ps snap
      → ((contains b snap ≡ true) ⊎ (get_attr b ps' ≡ get_attr b ps))
      → get_attr b (restore snap ps') ≡ get_attr b ps
  unfolding restore
  restore_lem ps [] ps' b inj t saved (inl c) = cc
  restore_lem ps [] ps' b inj t saved (inr e) = e
  restore_lem ps ((a, v) ∷ snap) ps' b inj t saved h =
      restore_lem ps snap (set_attr a v ps') b inj (tables-set_attr a v ps' ∙ t) saved.2
        (elim (Bool-cases (a == b)) [
          | inl same ↦
              let e : a ≡ b = (string_eq.beq_iff a b).0 same in
              let known_a : known a (tables ps') ≡ true = rw t saved.1 in
              inr (
                subst (λ x. get_attr x (set_attr a v ps') ≡ get_attr x ps) e
                  (get_attr-set_attr_self a v ps' known_a ∙ sym saved.0))
          | inr differ ↦
              let ne : a ≢ b = λ e. cc (differ, (string_eq.beq_iff a b).1 e) in
              let kept : get_attr b (set_attr a v ps') ≡ get_attr b ps' =
                get_attr-set_attr_ne a b v ps' (subst Injective (sym t) inj) ne in
              elim h [ inl c ↦ inl (rw differ at c) | inr e ↦ inr (kept ∙ e) ]
        ])

  save-Saved :
      (names : List String) (ps : Patchables V) (snap : Dict String V)
      → AllKnown names (tables ps)
      → save names ps ≡ ok snap
      → Saved ps snap × (keys snap ≡ names)
  unfolding save
  save-Saved [] ps snap k h = subst (λ x. Saved ps x × (keys x ≡ [])) (ok-injective h) (tt, refl)
  save-Saved (a ∷ names) ps snap k h = elim (Result-cases (get_attr a ps)) [
    | inr (x, e) ↦ absurd (ground arith)
    | inl (v, e) ↦ elim (Result-cases (save names ps)) [
      | inr (x, f) ↦ absurd (ground arith)
      | inl (rest, f) ↦
          let (saved, ks) = save-Saved names ps rest k.1 f in
          let same : (a, v) ∷ rest ≡ snap = ok-injective (rw (e, f) at h) in
          subst (λ x. Saved ps x × (keys x ≡ a ∷ names)) same ((e, k.0, saved), ap (◌∷◌ a) ks)
    ]
  ]

  attrs-AllKnown : (ps : Patchables V) → AllKnown (attrs ps) (tables ps)
  unfolding attrs
  attrs-AllKnown [] = tt
  attrs-AllKnown ((s, p) ∷ ps) =
      AllKnown-append (keys s) (attrs ps) (s ∷ tables ps) (known_here s s (tables ps) (λ a c. c))
        (known_later s (attrs ps) (tables ps) (attrs-AllKnown ps))

abbrev listed : String → List String → Bool
listed b [] = false
listed b (a ∷ names) = (a == b) || listed b names

listed-append :
    (b : String) (xs ys : List String) → listed b (xs ++ ys) ≡ (listed b xs || listed b ys)
listed-append b [] ys = refl
listed-append b (x ∷ xs) ys = ground (arith, listed-append b xs ys)

contains-listed {ℓ} :
    {V : Type ℓ} (b : String) (d : Dict String V) → contains b d ≡ listed b (keys d)
contains-listed b [] = refl
contains-listed b ((a, v) ∷ d) = ground (arith, contains-listed b d)

module _ {ℓ} {V : Type ℓ} where
  known-attrs : (b : String) (ps : Patchables V) → known b (tables ps) ≡ listed b (attrs ps)
  unfolding attrs
  known-attrs b [] = refl
  known-attrs b ((s, p) ∷ ps) =
      ground (arith, listed-append b (keys s) (attrs ps), contains-listed b s, known-attrs b ps)

  get_attr_unknown :
      (b : String) (ps : Patchables V)
      → known b (tables ps) ≡ false
      → get_attr b ps ≡ err (attribute_error b)
  unfolding get_attr
  get_attr_unknown b [] h = refl
  get_attr_unknown b ((s, p) ∷ ps) h = elim (Option-cases (lookup b s)) [
    | inl new ↦ rw (new, get_attr) (get_attr_unknown b ps (ground arith))
    | inr (name, there) ↦ absurd (ground arith)
  ]

  -- A write to an attribute that can be read is what is read next.
  pub get_attr-set_attr :
      (a : String) (v w : V) (ps : Patchables V)
      → get_attr a ps ≡ ok w
      → get_attr a (set_attr a v ps) ≡ ok v
  get_attr-set_attr a v w ps h = elim (Bool-cases (known a (tables ps))) [
    | inl k ↦ get_attr-set_attr_self a v ps k
    | inr u ↦ absurd (cc (h, get_attr_unknown a ps u))
  ]

  -- Whatever the body does to the patched objects, and whether it returns or raises, every
  -- attribute reads after the `with` statement as before it, provided that no table names an
  -- attribute of its object twice.
  pub anchor-get_attr {κ μ} :
      {E : Type κ} {A : Type μ} (failed : AttributeError → E)
      (body : Patchables V → Result E A × Patchables V) (ps : Patchables V)
      → Injective (tables ps)
      → tables (body ps).1 ≡ tables ps
      → (b : String) → get_attr b (anchor failed body ps).1 ≡ get_attr b ps
  unfolding anchor
  anchor-get_attr failed body ps inj keeps b = elim (Result-cases (save (attrs ps) ps)) [
    | inr (x, e) ↦ rw (e, anchor)
    | inl (snap, e) ↦
        let (saved, names) = save-Saved (attrs ps) ps snap (attrs-AllKnown ps) e in
        let ps' = (body ps).1 in
        let before : (contains b snap ≡ true) ⊎ (get_attr b ps' ≡ get_attr b ps) =
          elim (Bool-cases (known b (tables ps))) [
            | inl k ↦
                inl (contains-listed b snap ∙ ap (listed b) names ∙ sym (known-attrs b ps) ∙ k)
            | inr u ↦
                inr
                  (get_attr_unknown b ps' (ap (known b) keeps ∙ u) ∙ sym (get_attr_unknown b ps u))
          ] in
        rw (e, anchor) (restore_lem ps snap ps' b inj keeps saved before)
  ]
