-- ===== src/Fork/Storage/Effective.antt =====
-- A slot reads as its local value once it was written, zero included, and as the chain's before.
use titanoboa.Prelude.{
  ℕ, ◌≡◌, refl, sym, ap, ◌∙◌, ◌≢◌, inl, inr, Bool, true, false, arith, if◌then◌else◌, Bool-cases,
  nat_eq, string_eq, bytes_eq, pair_eq,
}
use titanoboa.Prelude.Result.{Result, ok, err, ok-injective}
use titanoboa.Fork.CachingRpc
use titanoboa.Fork.CachingRpc.{Backend, IsSound}
use titanoboa.Fork.CachingRpc.Coherence.{IsCoherent, fetch-eq-rpc_fetch, passed_on}
use titanoboa.Fork.Storage.{SlotRead, fetched, Base, AccountDbFork, get_storage, set_storage}
use mathlib.Core.Path.{subst}

module _ (d : Base) where
  -- What the class relies on in py-evm: storage is a map, warming an address changes no value,
  -- and the tracker's keys tell slots apart.
  pub record IsMap : Type 0 where
    pub value-set_self :
        (a : d.Address) (slot v : ℕ) (m : d.Accounts)
        → (d.get_storage a slot true (d.set_storage a slot v m)).0 ≡ v
    pub value-set_ne :
        (a a' : d.Address) (slot slot' v : ℕ) (m : d.Accounts)
        → d.tracker_key a slot ≢ d.tracker_key a' slot'
        → (d.get_storage a' slot' true (d.set_storage a slot v m)).0
          ≡ (d.get_storage a' slot' true m).0
    pub value-get :
        (a a' : d.Address) (slot slot' : ℕ) (from_journal : Bool) (m : d.Accounts)
        → (d.get_storage a' slot' true (d.get_storage a slot from_journal m).1).0
          ≡ (d.get_storage a' slot' true m).0
    pub locked-get :
        (a : d.Address) (slot : ℕ) (from_journal : Bool) (m : d.Accounts)
        → d.locked a slot (d.get_storage a slot from_journal m).1 ≡ d.locked a slot m
    pub key-injective :
        (a a' : d.Address) (slot slot' : ℕ)
        → d.tracker_key a slot ≡ d.tracker_key a' slot'
        → (a ≡ a') × (slot ≡ slot')
    pub key_dec : Discrete d.Key
    pub marked-mark_self : (k : d.Key) (j : d.Journal) → d.marked k (d.mark k j) ≡ true
    pub marked-mark_ne :
        (k k' : d.Key) (j : d.Journal) → k ≢ k' → d.marked k' (d.mark k j) ≡ d.marked k' j

module _ (d : Base) (b : Backend) (chain : d.Address → ℕ → ℕ) where
  -- the value that a read of the journal gives
  abbrev pub effective : d.Address → ℕ → AccountDbFork d b → ℕ
  effective a slot s =
      if d.marked (d.tracker_key a slot) s.dontfetch
      then (d.get_storage a slot true s.accounts).0
      else chain a slot

  -- the value that a read gives that is not from the journal: that of the changes that are locked in
  -- by the transactions before, and else the chain's, whatever the journal has
  abbrev pub locked_in : d.Address → ℕ → AccountDbFork d b → ℕ
  locked_in a slot s =
      if d.locked a slot s.accounts then (d.get_storage a slot false s.accounts).0 else chain a slot

  abbrev pub read_value : Bool → d.Address → ℕ → AccountDbFork d b → ℕ
  read_value true = effective
  read_value false = locked_in

module _ (d : Base) (b : Backend) (is_map : IsMap d) (sound : IsSound b)
    (request : d.Address → ℕ → b.Request) (to_int : b.Json → ℕ) (chain : d.Address → ℕ → ℕ)
    (answers : (a : d.Address) (slot : ℕ)
      → (j : b.Json) × (b.rpc_fetch (request a slot) ≡ ok j) × (to_int j ≡ chain a slot)) where
  effective-set_storage_self :
      (a : d.Address) (slot v : ℕ) (s : AccountDbFork d b)
      → effective d b chain a slot (set_storage d b a slot v s) ≡ v
  unfolding set_storage
  effective-set_storage_self a slot v s = ground (
    arith,
    is_map.marked-mark_self (d.tracker_key a slot) s.dontfetch,
    is_map.value-set_self a slot v s.accounts,
  )

  -- Where py-evm's storage is a map: a write is seen at its slot, and no slot with another tracker
  -- key reads differently.
  pub effective-set_storage :
      (a a' : d.Address) (slot slot' v : ℕ) (s : AccountDbFork d b)
      → d.tracker_key a slot ≢ d.tracker_key a' slot'
      → (effective d b chain a slot (set_storage d b a slot v s) ≡ v)
        × (effective d b chain a' slot' (set_storage d b a slot v s)
            ≡ effective d b chain a' slot' s)
  unfolding set_storage
  effective-set_storage a a' slot slot' v s ne = (
    effective-set_storage_self a slot v s,
    ground (
      arith,
      is_map.marked-mark_ne (d.tracker_key a slot) (d.tracker_key a' slot') s.dontfetch ne,
      is_map.value-set_ne a a' slot slot' v s.accounts ne,
    ),
  )

  -- A write of the value that a slot has already changes no value.
  effective-set_same :
      (a a' : d.Address) (slot slot' v : ℕ) (s : AccountDbFork d b)
      → v ≡ effective d b chain a slot s
      → effective d b chain a' slot' (set_storage d b a slot v s) ≡ effective d b chain a' slot' s
  effective-set_same a a' slot slot' v s e =
      elim (is_map.key_dec (d.tracker_key a slot) (d.tracker_key a' slot')) [
        | yes p ↦
            let (ea, es) = is_map.key-injective a a' slot slot' p in
            let s' = set_storage d b a slot v s in
            subst (λ x. effective d b chain x slot' s' ≡ effective d b chain x slot' s) ea
              (subst (λ y. effective d b chain a y s' ≡ effective d b chain a y s) es
                (effective-set_storage_self a slot v s ∙ e))
        | no p ↦ (effective-set_storage a a' slot slot' v s p).1
      ]

  fetched_lem :
      (a : d.Address) (slot : ℕ) (from_journal : Bool) (j : b.Json)
      (o : Result (CachingRpc.CacheError b.RpcError) b.Json × b.Db) (s : AccountDbFork d b)
      → o.0 ≡ ok j
      → fetched d b request to_int a slot from_journal o s ≡ (
        ok (to_int j),
        (let s' : AccountDbFork d b = record s { cache = o.1 } in
            if from_journal then set_storage d b a slot (to_int j) s' else s'),
      )
  unfolding fetched
  fetched_lem a slot from_journal j (ok j', db) s h =
      let s' : AccountDbFork d b = record s { cache = db } in
      ap (λ q. (ok (to_int q), (if from_journal then set_storage d b a slot (to_int q) s' else s')))
        (ok-injective h)
  fetched_lem a slot from_journal j (err x, db) s h = cc

  -- What a read does.
  Reads : Bool → d.Address → ℕ → AccountDbFork d b → SlotRead d b → Type 0
  Reads from_journal a slot s o =
      (o.0 ≡ ok (read_value d b chain from_journal a slot s))
      × ((a' : d.Address) (slot' : ℕ)
          → effective d b chain a' slot' o.1 ≡ effective d b chain a' slot' s)
      × IsCoherent b sound o.1.cache

  warmed : d.Address → ℕ → Bool → AccountDbFork d b → AccountDbFork d b
  warmed a slot from_journal s = record s {
    accounts = (d.get_storage a slot from_journal s.accounts).1;
  }

  effective-warmed :
      (a a' : d.Address) (slot slot' : ℕ) (from_journal : Bool) (s : AccountDbFork d b)
      → effective d b chain a' slot' (warmed a slot from_journal s) ≡ effective d b chain a' slot' s
  unfolding warmed
  effective-warmed a a' slot slot' from_journal s =
      rw (is_map.value-get a a' slot slot' from_journal s.accounts)

  hit-Reads :
      (a : d.Address) (slot : ℕ) (s : AccountDbFork d b)
      → d.marked (d.tracker_key a slot) s.dontfetch ≡ true
      → IsCoherent b sound s.cache
      → Reads true a slot s (get_storage d b request to_int a slot true s)
  unfolding get_storage Reads warmed
  hit-Reads a slot s hit c = rw hit (refl, (λ a' slot'. effective-warmed a a' slot slot' true s), c)

  miss-Reads :
      (a : d.Address) (slot : ℕ) (s : AccountDbFork d b)
      → d.marked (d.tracker_key a slot) s.dontfetch ≡ false
      → IsCoherent b sound s.cache
      → Reads true a slot s (get_storage d b request to_int a slot true s)
  unfolding get_storage Reads warmed
  miss-Reads a slot s miss c =
      let (j, answer, value) = answers a slot in
      let o = CachingRpc.fetch b (request a slot) s.cache in
      let (says, c') = fetch-eq-rpc_fetch b sound (request a slot) s.cache c in
      let s' : AccountDbFork d b = record (warmed a slot true s) { cache = o.1 } in
      let same : effective d b chain a slot s' ≡ chain a slot = rw miss in
      rw
        (
          miss,
          fetched_lem a slot true j o (warmed a slot true s) (says ∙ ap (passed_on b sound) answer),
        )
        (
          ap ok value,
          (λ a' slot'.
              effective-set_same a a' slot slot' (to_int j) s' (value ∙ sym same)
              ∙ effective-warmed a a' slot slot' true s),
          c',
        )

  locked-Reads :
      (a : d.Address) (slot : ℕ) (s : AccountDbFork d b)
      → IsCoherent b sound s.cache
      → Reads false a slot s (get_storage d b request to_int a slot false s)
  unfolding get_storage Reads warmed
  locked-Reads a slot s c = elim (Bool-cases (d.locked a slot s.accounts)) [
    | inl hit ↦
        rw (is_map.locked-get a slot false s.accounts, hit)
          (refl, (λ a' slot'. effective-warmed a a' slot slot' false s), c)
    | inr miss ↦
        let (j, answer, value) = answers a slot in
        let o = CachingRpc.fetch b (request a slot) s.cache in
        let (says, c') = fetch-eq-rpc_fetch b sound (request a slot) s.cache c in
        rw
          (
            is_map.locked-get a slot false s.accounts,
            miss,
            fetched_lem a slot false j o (warmed a slot false s)
                (says ∙ ap (passed_on b sound) answer),
          )
          (ap ok value, (λ a' slot'. effective-warmed a a' slot slot' false s), c')
  ]

  journal-Reads :
      (a : d.Address) (slot : ℕ) (s : AccountDbFork d b)
      → IsCoherent b sound s.cache
      → Reads true a slot s (get_storage d b request to_int a slot true s)
  journal-Reads a slot s c = elim (Bool-cases (d.marked (d.tracker_key a slot) s.dontfetch)) [
    | inl hit ↦ hit-Reads a slot s hit c
    | inr miss ↦ miss-Reads a slot s miss c
  ]

  -- Where py-evm's storage is a map, pickle and the store are sound, and the node answers a request
  -- for a slot with the chain's value: from a coherent cache, a read from the journal gives the local
  -- value of a slot that was written and the chain's value of any other, and a read that is not from
  -- the journal gives the locked value of a slot that has one and the chain's of any other; either
  -- changes what no later read from the journal gives, and keeps the cache coherent.
  pub get_storage-eq-effective :
      (from_journal : Bool) (a : d.Address) (slot : ℕ) (s : AccountDbFork d b)
      → IsCoherent b sound s.cache
      → let o = get_storage d b request to_int a slot from_journal s in
        (o.0 ≡ ok (read_value d b chain from_journal a slot s))
        × ((a' : d.Address) (slot' : ℕ)
            → effective d b chain a' slot' o.1 ≡ effective d b chain a' slot' s)
        × IsCoherent b sound o.1.cache
  unfolding Reads
  get_storage-eq-effective true a slot s c = journal-Reads a slot s c
  get_storage-eq-effective false a slot s c = locked-Reads a slot s c
