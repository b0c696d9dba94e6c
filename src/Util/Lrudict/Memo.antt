-- ===== src/Util/Lrudict/Memo.antt =====
-- boa/util/lrudict.py: `setdefault_lambda` is a transparent cache.
use titanoboa.Prelude.{
  ℕ, ◌≡◌, refl, ap, inl, inr, some, List, [], ◌∷◌, map, arith, Option-cases, Eq, nat_eq, string_eq,
  bytes_eq,
}
use titanoboa.Prelude.Dict.{Dict, lookup, insert, erase}
use titanoboa.Prelude.Result.{Result, ok}
use mathlib.Core.Path.{ap₂}
use titanoboa.Util.Lrudict.{room, Lrudict, get, put, setdefault_lambda, LruError}
use titanoboa.Util.Lrudict.Bounds.{
  setdefault_lambda_hit, setdefault_lambda-IsBounded, setdefault_lambda_miss, room_lem, IsBounded,
}

module _ {ℓ κ} {K : Type ℓ} {V : Type κ} ⦃e : Eq K⦄ (fn : K → V) where
  -- every entry is the value of `fn` at its key
  abbrev pub IsMemo : Dict K V → Type κ
  IsMemo [] = Unit
  IsMemo ((k, v) ∷ d) = (v ≡ fn k) × IsMemo d

  pub lookup-IsMemo : (k : K) (d : Dict K V) {v : V} → IsMemo d → lookup k d ≡ some v → v ≡ fn k
  lookup-IsMemo k [] {v} m h = cc
  lookup-IsMemo k ((j, w) ∷ d) {v} m h =
      ground (arith, lookup-IsMemo k d {v = v} m.1, e.beq_iff j k)

  insert-IsMemo : (k : K) (v : V) (d : Dict K V) → IsMemo d → v ≡ fn k → IsMemo (insert k v d)
  insert-IsMemo k v [] m h = (h, tt)
  insert-IsMemo k v ((j, w) ∷ d) m h = ground (arith, insert-IsMemo k v d m.1 h, e.beq_iff j k)

  erase-IsMemo : (k : K) (d : Dict K V) → IsMemo d → IsMemo (erase k d)
  erase-IsMemo k [] m = tt
  erase-IsMemo k ((j, w) ∷ d) m = ground (arith, erase-IsMemo k d m.1)

  room-IsMemo : (n : ℕ) (k : K) (d d' : Dict K V) → IsMemo d → room n k d ≡ ok d' → IsMemo d'
  unfolding room
  room-IsMemo n k [] d' m h = ground arith
  room-IsMemo n k ((j, w) ∷ d) d' m h = ground (arith, erase-IsMemo j ((j, w) ∷ d) m)

  put-IsMemo :
      (k : K) (c : Lrudict K V) → IsBounded c → IsMemo c.entries → IsMemo (put k (fn k) c).1.entries
  unfolding put
  put-IsMemo k c h m =
      let (d, e, q, l) = room_lem c.n k c.entries h.distinct h.within h.positive in
      rw e (insert-IsMemo k (fn k) d (room-IsMemo c.n k c.entries d m e) refl)

  get-IsMemo : (k : K) (c : Lrudict K V) → IsMemo c.entries → IsMemo (get k c).1.entries
  unfolding get
  get-IsMemo k c m = elim (Option-cases (lookup k c.entries)) [
    | inl miss ↦ rw miss m
    | inr (v, hit) ↦ rw hit (
        insert-IsMemo k v (erase k c.entries) (erase-IsMemo k c.entries m)
          (lookup-IsMemo k c.entries m hit))
  ]

  -- One memoised call answers `fn k` and keeps a cache of values of `fn`.
  pub setdefault_lambda-eq :
      (k : K) (c : Lrudict K V)
      → IsBounded c
      → IsMemo c.entries
      → ((setdefault_lambda fn k c).0 ≡ ok (fn k)) × IsMemo (setdefault_lambda fn k c).1.entries
  setdefault_lambda-eq k c h m = elim (Option-cases (lookup k c.entries)) [
    | inl miss ↦ rw (setdefault_lambda_miss fn k c miss h) (refl, put-IsMemo k c h m)
    | inr (v, hit) ↦
        rw (setdefault_lambda_hit fn k c hit)
          (ap ok (lookup-IsMemo k c.entries m hit), get-IsMemo k c m)
  ]

  -- a run of memoised calls
  unfoldable pub calls : List K → Lrudict K V → List (Result LruError V) × Lrudict K V
  calls [] c = ([], c)
  calls (k ∷ ks) c =
      let (r, c') = setdefault_lambda fn k c in let (rs, c'') = calls ks c' in (r ∷ rs, c'')

  -- From a cache within its bound, of at least one entry, that holds values of `fn`, a run of calls answers as `fn` does, and the cache stays within
  -- its bound.
  pub calls-eq-map :
      (ks : List K) (c : Lrudict K V)
      → IsBounded c
      → IsMemo c.entries
      → ((calls ks c).0 ≡ map (λ k. ok (fn k)) ks) × IsBounded (calls ks c).1
  unfolding calls
  calls-eq-map [] c h m = (refl, h)
  calls-eq-map (k ∷ ks) c h m =
      let (a, m') = setdefault_lambda-eq k c h m in
      let (b, h') =
        calls-eq-map ks (setdefault_lambda fn k c).1 (setdefault_lambda-IsBounded fn k c h) m' in
      (ap₂ ◌∷◌ a b, h')
