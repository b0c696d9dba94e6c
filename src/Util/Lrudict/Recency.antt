-- ===== src/Util/Lrudict/Recency.antt =====
-- boa/util/lrudict.py: the cache holds the keys that were used last.
use titanoboa.Prelude.{
  ℕ, suc, ◌+◌, ◌<◌, ◌≡◌, refl, sym, ap, ◌∙◌, ◌⊎◌, inl, inr, true, false, none, some, List, [], ◌∷◌,
  ◌++◌, arith, nat_beq, is_some, Bool-cases, length, Eq, beq_refl, nat_eq, string_eq, bytes_eq,
  Option-cases,
}
use titanoboa.Prelude.Dict.{
  Dict, lookup, contains, insert, erase, Distinct, length-insert, Distinct-insert, Distinct-erase,
  erase_absent, insert-erase, insert_new, lookup-append, length-insert-erase,
}
use titanoboa.Prelude.Result.{ok}
use mathlib.Core.Path.{subst}
use mathlib.Core.List.{append_assoc}
use titanoboa.Util.Lrudict.{setdefault_lambda, room, Lrudict, get, put}
use titanoboa.Util.Lrudict.Bounds.{
  setdefault_lambda-IsBounded, setdefault_lambda_hit, setdefault_lambda_miss, IsBounded,
}
use titanoboa.Util.Lrudict.Memo.{setdefault_lambda-eq, lookup-IsMemo, IsMemo, calls}

module _ {ℓ κ} {K : Type ℓ} {V : Type κ} ⦃e : Eq K⦄ where
  -- The unbounded queue of every key that was ever used, the latest use last.
  abbrev pub touch : K → V → Dict K V → Dict K V
  touch k v d = erase k d ++ (k, v) ∷ []

  -- The entries are the latest part of the queue `q`, and older ones are missing only if the
  -- cache is full.
  pub record IsLatest (q : Dict K V) (c : Lrudict K V) : Type (ℓ ⊔ κ) where
    pub older : Dict K V
    pub split : q ≡ older ++ c.entries
    pub full : (older ≡ []) ⊎ (length c.entries ≡ c.n)
    pub distinct : Distinct q

  erase-append : (k : K) (a b : Dict K V) → erase k (a ++ b) ≡ erase k a ++ erase k b
  erase-append k [] b = refl
  erase-append k ((j, w) ∷ a) b = ground (arith, erase-append k a b)

  Distinct-touch : (k : K) (v : V) (d : Dict K V) → Distinct d → Distinct (touch k v d)
  Distinct-touch k v d h = rw (← insert-erase k v d) (Distinct-insert k v _ (Distinct-erase k d h))

  -- A key of the later part is none of the earlier part.
  contains-left :
      (k : K) (a b : Dict K V) → Distinct (a ++ b) → contains k b ≡ true → contains k a ≡ false
  contains-left k [] b h c = refl
  contains-left k ((j, w) ∷ a) b h c =
      ground (arith, contains-left k a b h.1 c, e.beq_iff j k, lookup-append j a b)

  Distinct-right : (a b : Dict K V) → Distinct (a ++ b) → Distinct b
  Distinct-right [] b h = h
  Distinct-right (x ∷ a) b h = Distinct-right a b h.1

  -- The later part is touched in place: the older part does not hold the key.
  touch-append :
      (k : K) (v : V) (a b : Dict K V)
      → Distinct (a ++ b)
      → contains k b ≡ true
      → touch k v (a ++ b) ≡ a ++ insert k v (erase k b)
  touch-append k v a b h c = simp (
    erase-append k a b,
    erase_absent k a (contains-left k a b h c),
    insert-erase k v b,
    append_assoc,
  )

  get-IsLatest :
      (k : K) (q : Dict K V) (c : Lrudict K V) {v : V}
      → lookup k c.entries ≡ some v
      → IsLatest q c
      → IsLatest (touch k v q) (get k c).1
  unfolding get
  get-IsLatest k q c {v} hit h =
      let d = subst Distinct h.split h.distinct in
      let n =
        length-insert-erase k v c.entries (Distinct-right h.older c.entries d) (ap is_some hit) in
      rw hit (record {
        older = h.older;
        split = ap (touch k v) h.split ∙ touch-append k v h.older c.entries d (ap is_some hit);
        full = rw n h.full;
        distinct = Distinct-touch k v q h.distinct;
      })

  -- What `__setitem__` writes into, and the part of the queue that is no longer held.
  record Room (n : ℕ) (k : K) (o d : Dict K V) : Type (ℓ ⊔ κ) where
    kept : Dict K V
    dropped : Dict K V
    is_room : room n k d ≡ ok kept
    same : o ++ d ≡ dropped ++ kept
    absent : contains k kept ≡ false
    is_full : (dropped ≡ []) ⊎ (length kept + 1 ≡ n)

  unfull-Room :
      (n : ℕ) (k : K) (o d : Dict K V)
      → contains k d ≡ false
      → nat_beq (length d) n ≡ false
      → (o ≡ []) ⊎ (length d ≡ n)
      → Room n k o d
  unfolding room
  unfull-Room n k o d c f full = record {
    kept = d;
    dropped = o;
    is_room = rw f;
    same = refl;
    absent = c;
    is_full = ground arith;
  }

  full-Room :
      (n : ℕ) (k j : K) (w : V) (o d : Dict K V)
      → Distinct ((j, w) ∷ d)
      → contains k ((j, w) ∷ d) ≡ false
      → nat_beq (suc (length d)) n ≡ true
      → Room n k o ((j, w) ∷ d)
  unfolding room
  full-Room n k j w o d q c f = record {
    kept = d;
    dropped = o ++ (j, w) ∷ [];
    is_room = ground (arith, beq_refl j, erase_absent j d);
    same = sym (append_assoc o ((j, w) ∷ []) d);
    absent = ground arith;
    is_full = inr (ground arith);
  }

  Room_lem :
      (n : ℕ) (k : K) (o d : Dict K V)
      → Distinct d
      → contains k d ≡ false
      → 0 < n
      → (o ≡ []) ⊎ (length d ≡ n)
      → Room n k o d
  Room_lem n k o [] q c p f = unfull-Room n k o [] c (ground arith) f
  Room_lem n k o ((j, w) ∷ d) q c p f = elim (Bool-cases (nat_beq (suc (length d)) n)) [
    | inl full ↦ full-Room n k j w o d q c full
    | inr fits ↦ unfull-Room n k o ((j, w) ∷ d) c fits f
  ]

  touch-Room :
      (k : K) (v : V) (o d : Dict K V)
      → contains k d ≡ false
      → touch k v (o ++ d) ≡ erase k o ++ insert k v d
  touch-Room k v o d c =
      simp (erase-append k o d, erase_absent k d c, insert_new k v d c, append_assoc)

  put-IsLatest :
      (k : K) (v : V) (q : Dict K V) (c : Lrudict K V)
      → lookup k c.entries ≡ none
      → 0 < c.n
      → IsLatest q c
      → IsLatest (touch k v q) (put k v c).1
  unfolding put
  put-IsLatest k v q c miss p h =
      let d = Distinct-right h.older c.entries (subst Distinct h.split h.distinct) in
      let r = Room_lem c.n k h.older c.entries d (ap is_some miss) p h.full in
      rw r.is_room (record {
        older = erase k r.dropped;
        split = ap (touch k v) (h.split ∙ r.same) ∙ touch-Room k v r.dropped r.kept r.absent;
        full = ground (arith, r.is_full, length-insert k v r.kept, r.absent);
        distinct = Distinct-touch k v q h.distinct;
      })

  -- The queue of uses after a run of memoised calls.
  abbrev pub queue : (K → V) → List K → Dict K V → Dict K V
  queue fn [] q = q
  queue fn (k ∷ ks) q = queue fn ks (touch k (fn k) q)

module _ {ℓ κ} {K : Type ℓ} {V : Type κ} ⦃e : Eq K⦄ (fn : K → V) where
  setdefault_lambda-IsLatest :
      (k : K) (q : Dict K V) (c : Lrudict K V)
      → IsBounded c
      → IsMemo fn c.entries
      → IsLatest q c
      → IsLatest (touch k (fn k) q) (setdefault_lambda fn k c).1
  setdefault_lambda-IsLatest k q c b m h = elim (Option-cases (lookup k c.entries)) [
    | inl miss ↦
        rw (setdefault_lambda_miss fn k c miss b) (put-IsLatest k (fn k) q c miss b.positive h)
    | inr (v, hit) ↦ rw (setdefault_lambda_hit fn k c hit) (
        subst (λ w. IsLatest (touch k w q) (get k c).1) (lookup-IsMemo fn k c.entries m hit)
          (get-IsLatest k q c hit h))
  ]

  -- From a cache within its bound that holds values of `fn` and the latest part of a queue, a run
  -- of memoised calls holds the keys that were used last, the latest at the end; an older
  -- use is forgotten only when the cache is full.
  pub calls-IsLatest :
      (ks : List K) (q : Dict K V) (c : Lrudict K V)
      → IsBounded c
      → IsMemo fn c.entries
      → IsLatest q c
      → IsLatest (queue fn ks q) (calls fn ks c).1
  unfolding calls
  calls-IsLatest [] q c b m h = h
  calls-IsLatest (k ∷ ks) q c b m h =
      let c' = (setdefault_lambda fn k c).1 in
      calls-IsLatest ks (touch k (fn k) q) c' (setdefault_lambda-IsBounded fn k c b)
        (setdefault_lambda-eq fn k c b m).1 (setdefault_lambda-IsLatest k q c b m h)
