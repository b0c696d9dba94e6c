-- ===== src/Network/Capabilities/Versions.antt =====
-- `Capabilities` of boa/network.py: the version that is described and the versions that are checked
-- agree.
use titanoboa.Prelude.{
  String, ◌≡◌, refl, sym, ap, ◌∙◌, ◌≢◌, ◌⊎◌, inl, inr, Bool, true, false, ◌||◌, not, Option, none,
  some, arith, if◌then◌else◌, Bool-cases, ◌==◌, nat_eq, string_eq, bytes_eq, pair_eq,
}
use titanoboa.Prelude.Result.{Result, ok, err}
use titanoboa.Prelude.Program.{pure, after->>=, Keeps, Stays}
use mathlib.Core.Path.{subst}
use titanoboa.Network.{World}
use titanoboa.Network.Capabilities.{
  has_transient, has_mcopy, eip_2935_deployed, and_also, has_push0, after_shanghai, after_cancun,
  Query, check_evm_version, describe_capabilities, has_prague, has_cancun, has_shanghai,
  CapabilityError, Capabilities, kept,
}
use titanoboa.Network.Capabilities.Cached.{
  Keeps-has_shanghai, has_shanghai_hit, Stays-has_cancun, Keeps-kept, after-kept, Shanghai,
}

module _ ⦃w : World⦄ where
  -- no answer is kept that Cancun is there without Shanghai
  abbrev pub Consistent : Capabilities → Type 0
  Consistent s = (s.shanghai ≡ some true) ⊎ (s.cancun ≢ some true)

  -- what is kept once a version was described
  Stage : String → Capabilities → Type 0
  Stage d s =
      ((d ≡ "pre-shanghai") × (s.shanghai ≡ some false) × (s.cancun ≢ some true))
      ⊎ ((d ≡ "shanghai") × (s.shanghai ≡ some true) × (s.cancun ≡ some false))
      ⊎ ((p : Bool) × (d ≡ (if p then "prague" else "cancun"))
          × (s.shanghai ≡ some true)
          × (s.cancun ≡ some true)
          × (s.prague ≡ some p))

  Staged : Result CapabilityError String × Capabilities → Type 0
  Staged (ok d, s) = Stage d s
  Staged (err x, s) = Unit

  Kept : (read : Capabilities → Option Bool) → Query Bool → Type 0
  Kept read m =
      (s : Capabilities) (b : Bool) (s' : Capabilities) → m s ≡ (ok b, s') → read s' ≡ some b

  Kept-has_shanghai : Kept (λ s. s.shanghai) has_shanghai
  unfolding Kept has_shanghai
  Kept-has_shanghai s b s' e =
      after-kept (λ s. s.shanghai) (λ b s. record s { shanghai = some b }) (λ c t. refl) s.shanghai
        has_push0 s b s' refl e

  Kept-has_cancun : Kept (λ s. s.cancun) has_cancun
  unfolding Kept has_cancun
  Kept-has_cancun s b s' e =
      after-kept (λ s. s.cancun) (λ b s. record s { cancun = some b }) (λ c t. refl) s.cancun
        (and_also has_shanghai (and_also has_mcopy has_transient)) s b s' refl e

  Kept-has_prague : Kept (λ s. s.prague) has_prague
  unfolding Kept has_prague
  Kept-has_prague s b s' e =
      after-kept (λ s. s.prague) (λ b s. record s { prague = some b }) (λ c t. refl) s.prague
        eip_2935_deployed s b s' refl e

  Keeps-has_prague :
      {V : Type 0} (view : Capabilities → V)
      → ((n : w.NodeState) (s : Capabilities) → view (record s { node = n }) ≡ view s)
      → ((b : Bool) (s : Capabilities) → view (record s { prague = some b }) ≡ view s)
      → Keeps view has_prague
  unfolding Keeps has_prague
  Keeps-has_prague view h k s =
      Keeps-kept view (λ b s. record s { prague = some b }) k s.prague eip_2935_deployed
        (λ s. h (eip_2935_deployed s).1.node s) s

  after_cancun-Staged :
      (s : Capabilities) (c : Bool)
      → s.shanghai ≡ some true
      → s.cancun ≡ some c
      → Staged (after_cancun c s)
  unfolding Staged Stage Keeps Kept
  after_cancun-Staged s false a b = inr (inl (refl, a, b))
  after_cancun-Staged s true a b =
      after->>= Staged has_prague (λ p. pure (if p then "prague" else "cancun")) s
        (λ p s' e. inr (
          inr (
            p,
            refl,
            (ap (λ z. z.1.shanghai) (sym e)
                  ∙ Keeps-has_prague (λ s. s.shanghai) (λ n s. refl) (λ b s. refl) s)
                ∙ a,
            (ap (λ z. z.1.cancun) (sym e)
                  ∙ Keeps-has_prague (λ s. s.cancun) (λ n s. refl) (λ b s. refl) s)
                ∙ b,
            Kept-has_prague s p s' e,
          )))
        (λ x s' e. tt)

  after_shanghai-Staged :
      (s : Capabilities) (b : Bool)
      → s.shanghai ≡ some b
      → (b ≡ false → s.cancun ≢ some true)
      → Staged (after_shanghai b s)
  unfolding Staged Stage Stays Shanghai Kept
  after_shanghai-Staged s false a k = inl (refl, a, k refl)
  after_shanghai-Staged s true a k =
      after->>= Staged has_cancun after_cancun s
        (λ c s' e.
          after_cancun-Staged s' c (ap (λ z. z.1.shanghai) (sym e) ∙ Stays-has_cancun s a)
            (Kept-has_cancun s c s' e))
        (λ x s' e. tt)

  describe-Staged : (s : Capabilities) → Consistent s → Staged (describe_capabilities s)
  unfolding describe_capabilities Staged Kept Keeps
  describe-Staged s h =
      after->>= Staged has_shanghai after_shanghai s
        (λ b s' e. after_shanghai-Staged s' b (Kept-has_shanghai s b s' e) (λ f. elim h [
          | inl there ↦ absurd (cc (f, has_shanghai_hit s true there, e))
          | inr lacks ↦ λ c. lacks ((sym (Keeps-has_shanghai s) ∙ ap (λ z. z.1.cancun) e) ∙ c)
        ]))
        (λ x s' e. tt)

  -- whether a described version has another one, and the versions that the description settles
  abbrev pub offers : String → String → Bool
  offers d v =
      if v == "prague"
      then d == "prague"
      else if v == "cancun"
      then d == "cancun" || d == "prague"
      else not (v == "shanghai") || not (d == "pre-shanghai")

  abbrev pub settles : String → String → Bool
  settles d v = not (v == "prague") || (d == "cancun" || d == "prague")

  -- the answer without a request
  abbrev pub Answers : Bool → Result CapabilityError Bool × Capabilities → Capabilities → Type 0
  Answers b (r, t) s = (r ≡ ok b) × (t.node ≡ s.node)

  not_cancun :
      (s : Capabilities)
      → s.shanghai ≡ some false
      → s.cancun ≢ some true
      → (o : Option Bool) → s.cancun ≡ o
      → Answers false (has_cancun s) s
  unfolding has_cancun has_shanghai
  not_cancun s a b none e = rw (e, a) (refl, refl)
  not_cancun s a b (some true) e = absurd (b e)
  not_cancun s a b (some false) e = rw e (refl, refl)

  hit :
      (o : Option Bool) (c : Bool) (s : Capabilities) (write : Bool → Capabilities → Capabilities)
      (m : Query Bool)
      → o ≡ some c
      → Answers c (kept o write m s) s
  hit o c s write m e = rw e (refl, refl)

  -- the answer to a version, by the tests that it passes
  check-early :
      (v : String) (s : Capabilities)
      → s.shanghai ≡ some false
      → s.cancun ≢ some true
      → settles "pre-shanghai" v ≡ true
      → Answers (offers "pre-shanghai" v) (check_evm_version v s) s
  unfolding check_evm_version has_shanghai
  check-early v s a b h = elim (Bool-cases (v == "prague")) [
    | inl p ↦ absurd (ground arith)
    | inr p ↦ elim (Bool-cases (v == "cancun")) [
      | inl c ↦ rw (p, c) (not_cancun s a b s.cancun refl)
      | inr c ↦ elim (Bool-cases (v == "shanghai")) [
        | inl e ↦
            rw (p, c, e)
              (hit s.shanghai false s (λ b s. record s { shanghai = some b }) has_push0 a)
        | inr e ↦ rw (p, c, e) (refl, refl)
      ]
    ]
  ]

  check-shanghai :
      (v : String) (s : Capabilities)
      → s.shanghai ≡ some true
      → s.cancun ≡ some false
      → settles "shanghai" v ≡ true
      → Answers (offers "shanghai" v) (check_evm_version v s) s
  unfolding check_evm_version has_shanghai has_cancun
  check-shanghai v s a b h = elim (Bool-cases (v == "prague")) [
    | inl p ↦ absurd (ground arith)
    | inr p ↦ elim (Bool-cases (v == "cancun")) [
      | inl c ↦
          rw (p, c)
            (hit s.cancun false s (λ b s. record s { cancun = some b })
              (and_also has_shanghai (and_also has_mcopy has_transient)) b)
      | inr c ↦ elim (Bool-cases (v == "shanghai")) [
        | inl e ↦
            rw (p, c, e) (hit s.shanghai true s (λ b s. record s { shanghai = some b }) has_push0 a)
        | inr e ↦ rw (p, c, e) (refl, refl)
      ]
    ]
  ]

  late_offers :
      (q : Bool) (v : String)
      → offers (if q then "prague" else "cancun") v ≡ (if v == "prague" then q else true)
  late_offers true v = ground arith
  late_offers false v = ground arith

  check-late :
      (v : String) (s : Capabilities) (q : Bool)
      → s.shanghai ≡ some true
      → s.cancun ≡ some true
      → s.prague ≡ some q
      → Answers (if v == "prague" then q else true) (check_evm_version v s) s
  unfolding check_evm_version has_shanghai has_cancun has_prague
  check-late v s q a b k = elim (Bool-cases (v == "prague")) [
    | inl p ↦ rw p (hit s.prague q s (λ b s. record s { prague = some b }) eip_2935_deployed k)
    | inr p ↦ elim (Bool-cases (v == "cancun")) [
      | inl c ↦
          rw (p, c)
            (hit s.cancun true s (λ b s. record s { cancun = some b })
              (and_also has_shanghai (and_also has_mcopy has_transient)) b)
      | inr c ↦ elim (Bool-cases (v == "shanghai")) [
        | inl e ↦
            rw (p, c, e) (hit s.shanghai true s (λ b s. record s { shanghai = some b }) has_push0 a)
        | inr e ↦ rw (p, c, e) (refl, refl)
      ]
    ]
  ]

  -- After a version was described, the check of a version answers as the description says, and asks
  -- the node nothing, for every version but Prague where the description is an older one than Cancun;
  -- provided that no kept answer has Cancun without Shanghai, as none has at the start.
  pub check_evm_version-describe :
      (s s' : Capabilities) (d v : String)
      → Consistent s
      → describe_capabilities s ≡ (ok d, s')
      → settles d v ≡ true
      → Answers (offers d v) (check_evm_version v s') s'
  unfolding Staged Stage
  check_evm_version-describe s s' d v h e k = elim (subst Staged e (describe-Staged s h)) [
    | inl (n, a, b) ↦
        let settled = subst (λ z. settles z v ≡ true) n k in
        subst (λ z. Answers (offers z v) (check_evm_version v s') s') (sym n)
          (check-early v s' a b settled)
    | inr (inl (n, a, b)) ↦
        let settled = subst (λ z. settles z v ≡ true) n k in
        subst (λ z. Answers (offers z v) (check_evm_version v s') s') (sym n)
          (check-shanghai v s' a b settled)
    | inr (inr (q, n, a, b, c)) ↦
        subst (λ z. Answers z (check_evm_version v s') s')
          (sym (ap (λ z. offers z v) n ∙ late_offers q v)) (check-late v s' q a b c)
  ]
