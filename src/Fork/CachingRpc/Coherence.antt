-- ===== src/Fork/CachingRpc/Coherence.antt =====
-- A cached fetch answers what the node answers.
use titanoboa.Prelude.{
  ◌≡◌, refl, sym, ap, ◌∙◌, inl, inr, Option, none, some, nat_eq, string_eq, bytes_eq,
}
use titanoboa.Prelude.Result.{Result, ok, err}
use titanoboa.Fork.CachingRpc.{
  rpc_error, fetch_at, store_fetched, CacheError, Backend, IsSound, fetch, Outcome,
}
use mathlib.Core.Path.{subst}

module _ (b : Backend) (sound : IsSound b) where
  -- every cached blob is the pickle of the node's answer to its request
  abbrev pub IsCoherent : b.Db → Type 0
  IsCoherent db =
      (r : b.Request) (x : b.Blob) → b.get (b.mk_key r) db ≡ some x → b.rpc_fetch r ≡ ok (b.loads x)

  -- Storing an answer keeps the cache coherent.
  pub put-IsCoherent :
      (r : b.Request) (v : b.Json) (db : b.Db)
      → b.rpc_fetch r ≡ ok v
      → IsCoherent db
      → IsCoherent (b.put (b.mk_key r) (b.dumps v) db)
  put-IsCoherent r v db answer h s x e =
      elim (sound.get-put (b.mk_key r) (b.mk_key s) (b.dumps v) x db e) [
        | inl (k, y) ↦
            subst (λ q. b.rpc_fetch q ≡ ok (b.loads x)) (sound.mk_key-injective r s k)
              (answer ∙ ap ok (sym (sound.loads-dumps v) ∙ ap b.loads y))
        | inr old ↦ h s x old
      ]

  -- the node's answer, as the class raises or returns it
  abbrev pub passed_on : {A : Type 0} → Result b.RpcError A → Result (CacheError b.RpcError) A
  passed_on (ok v) = ok v
  passed_on (err x) = err (rpc_error x)

  Answers : b.Request → Outcome b b.Json → Type 0
  Answers r o = (o.0 ≡ passed_on (b.rpc_fetch r)) × IsCoherent o.1

  store-Answers :
      (r : b.Request) (answer : Result b.RpcError b.Json) (db : b.Db)
      → b.rpc_fetch r ≡ answer
      → IsCoherent db
      → Answers r (store_fetched b (b.mk_key r) answer db)
  unfolding store_fetched Answers
  store-Answers r (ok v) db e h = (sym (ap passed_on e), put-IsCoherent r v db e h)
  store-Answers r (err x) db e h = (sym (ap passed_on e), h)

  fetch_at-Answers :
      (r : b.Request) (cached : Option b.Blob) (db : b.Db)
      → b.get (b.mk_key r) db ≡ cached
      → IsCoherent db
      → Answers r (fetch_at b r cached db)
  unfolding fetch_at Answers
  fetch_at-Answers r none db e h = unfold Answers in store-Answers r (b.rpc_fetch r) db refl h
  fetch_at-Answers r (some x) db e h = (sym (ap passed_on (h r x e)), h)

  -- Over a sound pickle and store: from a coherent cache a fetch returns what the node returns, or raises what the node raises,
  -- and the cache stays coherent.
  pub fetch-eq-rpc_fetch :
      (r : b.Request) (db : b.Db)
      → IsCoherent db
      → ((fetch b r db).0 ≡ passed_on (b.rpc_fetch r)) × IsCoherent (fetch b r db).1
  unfolding fetch Answers
  fetch-eq-rpc_fetch r db h = fetch_at-Answers r (b.get (b.mk_key r) db) db refl h
