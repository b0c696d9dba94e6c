-- ===== src/Util/Lrudict/Bounds.antt =====
-- boa/util/lrudict.py: the capacity bound.
use titanoboa.Prelude.{
  suc, nat_beq, Bool-cases, ap, ℕ, ◌<◌, ◌≤◌, ◌≡◌, none, some, [], ◌∷◌, arith, Eq, length,
  Option-cases, beq_refl, inl, inr, is_some, refl, ◌∙◌, nat_eq, string_eq, bytes_eq,
}
use titanoboa.Prelude.Dict.{
  length-insert-erase, Dict, lookup, contains, insert, erase, Distinct, length-insert, lookup-erase,
  Distinct-insert, Distinct-erase, erase_absent,
}
use titanoboa.Prelude.Result.{ok, err}
use titanoboa.Util.Lrudict.{
  key_error, Outcome, on_key_error, returning, Lrudict, get, put, setdefault_lambda, room,
}

module _ {ℓ κ} {K : Type ℓ} {V : Type κ} ⦃e : Eq K⦄ where
  -- a key stands once, and the capacity holds
  pub record IsBounded (c : Lrudict K V) : Type 0 where
    pub distinct : Distinct c.entries
    pub within : length c.entries ≤ c.n
    pub positive : 0 < c.n

  pub get-IsBounded : (k : K) (c : Lrudict K V) → IsBounded c → IsBounded (get k c).1
  unfolding get
  get-IsBounded k c h = elim (Option-cases (lookup k c.entries)) [
    | inl miss ↦ rw miss h
    | inr (v, hit) ↦ rw hit (record {
      distinct = Distinct-insert k v (erase k c.entries) (Distinct-erase k c.entries h.distinct);
      within = rw (length-insert-erase k v c.entries h.distinct (ap is_some hit)) h.within;
      positive = h.positive;
    })
  ]

  -- What the test of `__setitem__` leaves has room for the key.
  pub room_lem :
      (n : ℕ) (k : K) (d : Dict K V)
      → Distinct d
      → length d ≤ n
      → 0 < n
      → (d' : Dict K V) × (room n k d ≡ ok d')
        × Distinct d'
        × ((v : V) → length (insert k v d') ≤ n)
  unfolding room
  room_lem n k [] h w p = ([], ground arith, tt, λ v. omega arith)
  room_lem n k ((j, w) ∷ d) h q p = elim (Bool-cases (contains k ((j, w) ∷ d))) [
    | inl there ↦ ((j, w) ∷ d, ground arith, h, λ v. ground (arith, length-insert k v ((j, w) ∷ d)))
    | inr absent ↦ elim (Bool-cases (nat_beq (suc (length d)) n)) [
      | inl full ↦ (
        erase j ((j, w) ∷ d),
        ground arith,
        Distinct-erase j ((j, w) ∷ d) h,
        λ v. ground (
          arith,
          length-insert k v (erase j d),
          beq_refl j,
          erase_absent j d,
          lookup-erase j k d,
        ),
      )
      | inr fits ↦
          ((j, w) ∷ d, ground arith, h, λ v. ground (arith, length-insert k v ((j, w) ∷ d)))
    ]
  ]

  pub put-IsBounded : (k : K) (v : V) (c : Lrudict K V) → IsBounded c → IsBounded (put k v c).1
  unfolding put
  put-IsBounded k v c h =
      let (d, e, q, l) = room_lem c.n k c.entries h.distinct h.within h.positive in
      rw e (record { distinct = Distinct-insert k v d q; within = l v; positive = h.positive })

  -- Within its bound a dict takes every write.
  pub put-eq-ok : (k : K) (v : V) (c : Lrudict K V) → IsBounded c → (put k v c).0 ≡ ok tt
  unfolding put
  put-eq-ok k v c h =
      let (d, e, q, l) = room_lem c.n k c.entries h.distinct h.within h.positive in rw e

  pub setdefault_lambda_hit :
      (fn : K → V) (k : K) (c : Lrudict K V) {v : V}
      → lookup k c.entries ≡ some v
      → setdefault_lambda fn k c ≡ (ok v, (get k c).1)
  unfolding setdefault_lambda
  setdefault_lambda_hit fn k c hit = rw hit

  get_miss : (k : K) (c : Lrudict K V) → lookup k c.entries ≡ none → get k c ≡ (err key_error, c)
  unfolding get
  get_miss k c miss = rw miss

  returning_ok :
      (ret : V) (o : Outcome K V (Unit {0})) → o.0 ≡ ok tt → returning ret o ≡ (ok ret, o.1)
  unfolding returning
  returning_ok ret (ok _, c) h = refl
  returning_ok ret (err x, c) h = cc

  pub setdefault_lambda_miss :
      (fn : K → V) (k : K) (c : Lrudict K V)
      → lookup k c.entries ≡ none
      → IsBounded c
      → setdefault_lambda fn k c ≡ (ok (fn k), (put k (fn k) c).1)
  unfolding setdefault_lambda
  setdefault_lambda_miss fn k c miss h =
      ap (on_key_error fn k) (get_miss k c miss)
      ∙ returning_ok (fn k) (put k (fn k) c) (put-eq-ok k (fn k) c h)

  pub setdefault_lambda-IsBounded :
      (fn : K → V) (k : K) (c : Lrudict K V) → IsBounded c → IsBounded (setdefault_lambda fn k c).1
  setdefault_lambda-IsBounded fn k c h = elim (Option-cases (lookup k c.entries)) [
    | inl miss ↦ rw (setdefault_lambda_miss fn k c miss h) (put-IsBounded k (fn k) c h)
    | inr (v, hit) ↦ rw (setdefault_lambda_hit fn k c hit) (get-IsBounded k c h)
  ]
