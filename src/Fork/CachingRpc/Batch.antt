-- ===== src/Fork/CachingRpc/Batch.antt =====
-- `fetch_multi`: hits and misses come back in the order of the payload.
use titanoboa.Prelude.{
  ℕ, suc, ◌+◌, ◌≡◌, refl, sym, true, false, ◌||◌, Option, some, List, [], ◌∷◌, map, arith, length,
  nat_eq, string_eq, bytes_eq, ◌≤◌, ◌<◌, ap, ◌∙◌, inl, inr, none, Option-cases, get_elem?, ltb,
  pair_eq,
}
use titanoboa.Prelude.Result.{ok, ok-injective}
use titanoboa.Prelude.Dict.{Dict, lookup, contains}
use titanoboa.Fork.CachingRpc.{
  ask, fetch_multi, collect, scan, scan_item, Scan, Backend, IsSound, fill,
}
use titanoboa.Fork.CachingRpc.Coherence.{IsCoherent}
use titanoboa.Fork.CachingRpc.Filling.{
  Matches-lookup, has, fill-Filled, Matches, Agrees, Aligned-cons, Aligned,
}

module _ (b : Backend) (sound : IsSound b) (ans : b.Request → b.Json)
    (answers : (r : b.Request) → b.rpc_fetch r ≡ ok (ans r))
    (answers_multi : (rs : List b.Request) → b.rpc_fetch_multi rs ≡ ok (map ans rs))
    (quiet : b.debug ≡ false) (t : ℕ → Option b.Json) where
  -- What the first loop has found in a payload from index `i` on.
  record Scanned (i : ℕ) (ps : List b.Request) (s : Scan b) : Type 0 where
    aligned : Aligned b ans t s.missing s.batch s.ret
    matches : Matches b ans t s.ret
    size : length s.ret + length s.missing ≡ length ps
    above : (j : ℕ) → j < i → (contains j s.ret || has b j s.missing) ≡ false
    covers : (j : ℕ) → i ≤ j → j < i + length ps → (contains j s.ret || has b j s.missing) ≡ true

  scan_item-Scanned :
      (i : ℕ) (r : b.Request) (cached : Option b.Blob) (ps : List b.Request) (s : Scan b)
      (db : b.Db)
      → b.get (b.mk_key r) db ≡ cached
      → t i ≡ some (ans r)
      → IsCoherent b sound db
      → Scanned (suc i) ps s
      → Scanned i (r ∷ ps) (scan_item b i r cached s)
  unfolding scan_item
  scan_item-Scanned i r none ps s db e a c h = record {
    aligned = (
      refl,
      a,
      ground (arith, h.above i (omega arith)),
      ground (arith, h.above i (omega arith)),
      h.aligned,
    );
    matches = h.matches;
    size = omega (arith, h.size);
    above = λ j l. ground (arith, h.above j (omega arith));
    covers = λ j l u. ground (arith, h.covers j);
  }
  scan_item-Scanned i r (some x) ps s db e a c h =
      let v : ans r ≡ b.loads x = ok-injective (sym (answers r) ∙ c r x e) in
      record {
        aligned =
            Aligned-cons b ans t i (b.loads x) s.missing s.batch s.ret
              (ground (arith, h.above i (omega arith))) h.aligned;
        matches = (a ∙ ap some v, h.matches);
        size = omega (arith, h.size);
        above = λ j l. ground (arith, h.above j (omega arith));
        covers = λ j l u. ground (arith, h.covers j);
      }

  scan-Scanned :
      (i : ℕ) (ps : List b.Request) (db : b.Db)
      → Agrees b ans t i ps
      → IsCoherent b sound db
      → Scanned i ps (scan b i ps db)
  unfolding scan
  scan-Scanned i [] db a c = record {
    aligned = tt;
    matches = tt;
    size = refl;
    above = λ j l. refl;
    covers = λ j l u. absurd (omega arith);
  }
  scan-Scanned i (r ∷ ps) db a c =
      scan_item-Scanned i r (b.get (b.mk_key r) db) ps (scan b (suc i) ps db) db refl a.0 c
        (scan-Scanned (suc i) ps db a.1 c)

  collect_lem :
      (i : ℕ) (ps : List b.Request) (d : Dict ℕ b.Json)
      → Agrees b ans t i ps
      → Matches b ans t d
      → ((j : ℕ) → i ≤ j → j < i + length ps → contains j d ≡ true)
      → collect b (length ps) i d ≡ ok (map ans ps)
  unfolding collect
  collect_lem i [] d a m c = refl
  collect_lem i (r ∷ ps) d a m c = elim (Option-cases (lookup i d)) [
    | inl miss ↦ ground (arith, c i (omega arith) (omega arith))
    | inr (v, hit) ↦
        let e : ans r ≡ v = cc (a.0, Matches-lookup b ans t i v d m hit) in
        rw (hit, collect_lem (suc i) ps d a.1 m (λ j l u. c j (omega arith) (omega arith)))
          (ap (λ x. ok (x ∷ map ans ps)) (sym e))
  ]

  -- An empty batch is not asked for, and there is then nothing to fill in.
  ask_lem :
      (m : List (b.Key × ℕ)) (rs : List b.Request) (d : Dict ℕ b.Json) (db : b.Db)
      → Aligned b ans t m rs d
      → ask b (record { ret = d; missing = m; batch = rs }) db ≡ fill b rs m (map ans rs) d db
  unfolding ask fill
  ask_lem [] [] d db a = refl
  ask_lem (x ∷ m) [] d db a = absurd a
  ask_lem m (r ∷ rs) d db a =
      let asked : ltb 0 (suc (length rs)) ≡ true = ground arith in
      rw (asked, answers_multi (r ∷ rs))

  -- The loops together, for a payload whose answers `t` tells.
  fetch_multi_lem :
      (ps : List b.Request) (db : b.Db)
      → Agrees b ans t 0 ps
      → IsCoherent b sound db
      → ((fetch_multi b ps db).0 ≡ ok (map ans ps)) × IsCoherent b sound (fetch_multi b ps db).1
  unfolding fetch_multi
  fetch_multi_lem ps db a c =
      let s = scan b 0 ps db in
      let h = scan-Scanned 0 ps db a c in
      let f =
        fill-Filled b sound ans answers quiet t s.batch s.missing s.batch s.ret db h.aligned
          h.matches c in
      let size : length f.dict ≡ length ps = f.size ∙ h.size in
      rw (ask_lem s.missing s.batch s.ret db h.aligned, f.ends, size)
        (
          collect_lem 0 ps f.dict a f.matches
              (λ j l u. f.covers j (h.covers j (omega arith) (omega arith))),
          f.coherent,
        )

module _ (b : Backend) (sound : IsSound b) (ans : b.Request → b.Json)
    (answers : (r : b.Request) → b.rpc_fetch r ≡ ok (ans r))
    (answers_multi : (rs : List b.Request) → b.rpc_fetch_multi rs ≡ ok (map ans rs))
    (quiet : b.debug ≡ false) where
  agrees :
      (t : ℕ → Option b.Json) (i : ℕ) (ps : List b.Request)
      → ((k : ℕ) → t (i + k) ≡ get_elem? (map ans ps) k)
      → Agrees b ans t i ps
  agrees t i [] h = tt
  agrees t i (r ∷ ps) h = (
    (let e : i + 0 ≡ i = omega arith in rw e at (h 0)),
    agrees t (suc i) ps (λ k. let e : i + suc k ≡ suc i + k = omega arith in rw e at (h (suc k))),
  )

  -- Over a sound pickle and store, and a node that answers every request, and a batch as its
  -- requests one by one, and without debug output: from a coherent cache, `fetch_multi` gives the node's answers in the order
  -- of the payload, whichever of them the cache held, and the cache stays coherent.
  pub fetch_multi-eq-map :
      (payload : List b.Request) (db : b.Db)
      → IsCoherent b sound db
      → ((fetch_multi b payload db).0 ≡ ok (map ans payload))
        × IsCoherent b sound (fetch_multi b payload db).1
  fetch_multi-eq-map payload db c =
      let t = get_elem? (map ans payload) in
      fetch_multi_lem b sound ans answers answers_multi quiet t payload db
        (agrees t 0 payload (λ k. let e : 0 + k ≡ k = omega arith in ap t e)) c
