-- ===== src/Network/Capabilities/Cached.antt =====
-- `Capabilities` of boa/network.py: what a cached property keeps, and what it leaves as it is.
use titanoboa.Prelude.{
  ◌≡◌, refl, ◌∙◌, Bool, true, false, Option, none, some, [], ◌∷◌, nat_eq, string_eq, bytes_eq,
  pair_eq,
}
use titanoboa.Prelude.Result.{Result, ok, err}
use titanoboa.Prelude.Program.{
  next, pure, modify, ◌>>=◌, Keeps, Keeps->>=, Stays, Stays->>=, Stays-Keeps,
}
use titanoboa.Network.{no_fields, text, null, field, object, World}
use titanoboa.Network.Capabilities.{
  after_true, has_cancun, and_also, has_transient, has_shanghai, has_push0, Query, has_mcopy,
  get_capability, Capabilities, CapabilityError, kept,
}
use titanoboa.Rpc.Hex.{codes, Text}

module _ ⦃w : World⦄ where
  abbrev Answer : Type 0
  Answer = Result CapabilityError Bool × Capabilities

  module _ (read : Capabilities → Option Bool) (write : Bool → Capabilities → Capabilities)
      (reads : (c : Bool) (t : Capabilities) → read (write c t) ≡ some c) where
    after-written :
        (o : Answer) (b : Bool) (s' : Capabilities)
        → next (λ b. modify (write b) >>= λ _. pure b) o ≡ (ok b, s')
        → read s' ≡ some b
    after-written (ok c, t) b s' e = cc (reads c t, e)
    after-written (err x, t) b s' e = cc e

    pub after-kept :
        (o : Option Bool) (compute : Query Bool) (s : Capabilities) (b : Bool) (s' : Capabilities)
        → read s ≡ o
        → kept o write compute s ≡ (ok b, s')
        → read s' ≡ some b
    after-kept none compute s b s' r e = after-written (compute s) b s' e
    after-kept (some c) compute s b s' r e = cc (r, e)

  -- the facts that a kept answer leaves of another property, if its writes and its computation do
  module _ {V : Type 0} (view : Capabilities → V) (write : Bool → Capabilities → Capabilities)
      (framed : (c : Bool) (t : Capabilities) → view (write c t) ≡ view t) where
    pub Keeps-kept :
        (o : Option Bool) (compute : Query Bool)
        → Keeps view compute
        → Keeps view (kept o write compute)
    unfolding Keeps
    Keeps-kept none compute k s =
        Keeps->>= view compute (λ b. modify (write b) >>= λ _. pure b) k (λ b. framed b) s
    Keeps-kept (some c) compute k s = refl

  Keeps-get_capability :
      {V : Type 0} (view : Capabilities → V) (code : Text)
      → ((n : w.NodeState) (s : Capabilities) → view (record s { node = n }) ≡ view s)
      → Keeps view (get_capability code)
  unfolding Keeps get_capability
  Keeps-get_capability view code h s =
      h
        (w.fetch "eth_call"
          (object (field "to" null (field "data" (text code) no_fields))
            ∷ (text (codes "latest") ∷ []))
          s.node).1
        s

  Keeps-has_push0 :
      {V : Type 0} (view : Capabilities → V)
      → ((n : w.NodeState) (s : Capabilities) → view (record s { node = n }) ≡ view s)
      → ((b : Bool) (s : Capabilities) → view (record s { push0 = some b }) ≡ view s)
      → Keeps view has_push0
  unfolding Keeps has_push0
  Keeps-has_push0 view h k s =
      Keeps-kept view (λ b s. record s { push0 = some b }) k s.push0 (get_capability (codes "0x5f"))
        (Keeps-get_capability view (codes "0x5f") h) s

  pub Keeps-has_shanghai : Keeps (λ s. s.cancun) has_shanghai
  unfolding Keeps has_shanghai
  Keeps-has_shanghai s =
      Keeps-kept (λ s. s.cancun) (λ b s. record s { shanghai = some b }) (λ c t. refl) s.shanghai
        has_push0 (Keeps-has_push0 (λ s. s.cancun) (λ n s. refl) (λ n s. refl)) s

  Keeps-has_mcopy : Keeps (λ s. s.shanghai) has_mcopy
  unfolding Keeps has_mcopy
  Keeps-has_mcopy s =
      Keeps-kept (λ s. s.shanghai) (λ b s. record s { mcopy = some b }) (λ c t. refl) s.mcopy
        (get_capability (codes "0x600080805E"))
        (Keeps-get_capability (λ s. s.shanghai) (codes "0x600080805E") (λ n s. refl)) s

  Keeps-has_transient : Keeps (λ s. s.shanghai) has_transient
  unfolding Keeps has_transient
  Keeps-has_transient s =
      Keeps-kept (λ s. s.shanghai) (λ b s. record s { transient = some b }) (λ c t. refl)
        s.transient (get_capability (codes "0x60005C"))
        (Keeps-get_capability (λ s. s.shanghai) (codes "0x60005C") (λ n s. refl)) s

  -- Shanghai is there, as is kept
  unfoldable pub Shanghai : Capabilities → Type 0
  Shanghai s = s.shanghai ≡ some true

  pub has_shanghai_hit :
      (s : Capabilities) (b : Bool) → s.shanghai ≡ some b → has_shanghai s ≡ (ok b, s)
  unfolding has_shanghai
  has_shanghai_hit s b e = rw e

  Stays-has_shanghai : Stays Shanghai has_shanghai
  unfolding Stays Shanghai
  Stays-has_shanghai s p = rw (has_shanghai_hit s true p) p

  Stays-after_true :
      (k : Query Bool) → Stays Shanghai k → (b : Bool) → Stays Shanghai (after_true k b)
  unfolding Stays
  Stays-after_true k h true s p = h s p
  Stays-after_true k h false s p = p

  Stays-cancun : Stays Shanghai (and_also has_shanghai (and_also has_mcopy has_transient))
  unfolding Shanghai
  Stays-cancun =
      let transient =
        Stays-Keeps Shanghai (λ s. s.shanghai) has_transient (λ s t e p. e ∙ p)
          Keeps-has_transient in
      let mcopy =
        Stays-Keeps Shanghai (λ s. s.shanghai) has_mcopy (λ s t e p. e ∙ p) Keeps-has_mcopy in
      Stays->>= Shanghai has_shanghai (after_true (and_also has_mcopy has_transient))
        Stays-has_shanghai
        (Stays-after_true (and_also has_mcopy has_transient) (
          Stays->>= Shanghai has_mcopy (after_true has_transient) mcopy
            (Stays-after_true has_transient transient)))

  Stays-kept :
      (P : Capabilities → Type 0) (write : Bool → Capabilities → Capabilities)
      → ((c : Bool) (s : Capabilities) → P s → P (write c s))
      → (o : Option Bool) (compute : Query Bool) → Stays P compute
      → Stays P (kept o write compute)
  unfolding Stays
  Stays-kept P write h none compute k s p =
      Stays->>= P compute (λ b. modify (write b) >>= λ _. pure b) k (λ b. h b) s p
  Stays-kept P write h (some c) compute k s p = p

  pub Stays-has_cancun : Stays Shanghai has_cancun
  unfolding Stays Shanghai has_cancun
  Stays-has_cancun s =
      Stays-kept Shanghai (λ b s. record s { cancun = some b }) (λ c s p. p) s.cancun
        (and_also has_shanghai (and_also has_mcopy has_transient)) Stays-cancun s
