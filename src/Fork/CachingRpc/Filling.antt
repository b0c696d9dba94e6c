-- ===== src/Fork/CachingRpc/Filling.antt =====
-- `fetch_multi`: what its second loop does to a batch of misses.
use titanoboa.Prelude.{
  ℕ, suc, ◌+◌, ◌≡◌, refl, sym, Bool, true, false, ◌||◌, Option, some, List, [], ◌∷◌, map, arith,
  length, ◌==◌, nat_eq, string_eq, bytes_eq, pair_eq, ◌∙◌, ap, ◌&&◌, not, ltb, if◌then◌else◌,
}
use titanoboa.Prelude.Result.{ok, err}
use titanoboa.Prelude.Dict.{Dict, lookup, contains, insert, lookup-insert, length-insert}
use mathlib.Core.Path.{subst}
use titanoboa.Fork.CachingRpc.{index_error, Backend, IsSound, fill}
use titanoboa.Fork.CachingRpc.Coherence.{IsCoherent, put-IsCoherent}

module _ (b : Backend) where
  abbrev pub has : ℕ → List (b.Key × ℕ) → Bool
  has j [] = false
  has j ((key, ix) ∷ m) = (ix == j) || has j m

fill_quiet :
    (b : Backend)
    → b.debug ≡ false
    → (batch : List b.Request) (key : b.Key) (ix : ℕ) (m : List (b.Key × ℕ)) (result : b.Json)
      (results : List b.Json) (d : Dict ℕ b.Json) (db : b.Db)
    → fill b batch ((key, ix) ∷ m) (result ∷ results) d db
      ≡ fill b batch m results (insert ix result d) (b.put key (b.dumps result) db)
unfolding fill
fill_quiet b quiet batch key ix m result results d db =
    let rest = fill b batch m results (insert ix result d) (b.put key (b.dumps result) db) in
    ap (λ z. if z && not (ltb ix (length batch)) then (err index_error, db) else rest) quiet

module _ (b : Backend) (ans : b.Request → b.Json) (t : ℕ → Option b.Json) where
  -- `t` gives the answers to a payload from index `i` on
  abbrev pub Agrees : ℕ → List b.Request → Type 0
  Agrees i [] = Unit
  Agrees i (r ∷ rs) = (t i ≡ some (ans r)) × Agrees (suc i) rs

  abbrev pub Matches : Dict ℕ b.Json → Type 0
  Matches [] = Unit
  Matches ((j, v) ∷ d) = (t j ≡ some v) × Matches d

  -- the misses fit the batch, and each has an index of its own that no hit has
  abbrev pub Aligned : List (b.Key × ℕ) → List b.Request → Dict ℕ b.Json → Type 0
  Aligned [] [] d = Unit
  Aligned ((key, ix) ∷ m) (r ∷ rs) d =
      (key ≡ b.mk_key r)
      × (t ix ≡ some (ans r))
      × (contains ix d ≡ false)
      × (has b ix m ≡ false)
      × Aligned m rs d
  Aligned _ _ d = ⊥

  pub Matches-insert :
      (j : ℕ) (v : b.Json) (d : Dict ℕ b.Json) → t j ≡ some v → Matches d → Matches (insert j v d)
  Matches-insert j v [] e h = (e, tt)
  Matches-insert j v ((i, w) ∷ d) e h = ground (arith, Matches-insert j v d e h.1)

  pub Matches-lookup :
      (j : ℕ) (v : b.Json) (d : Dict ℕ b.Json) → Matches d → lookup j d ≡ some v → t j ≡ some v
  Matches-lookup j v [] h e = cc
  Matches-lookup j v ((i, w) ∷ d) h e = ground (arith, Matches-lookup j v d h.1)

  pub Aligned-insert :
      (j : ℕ) (v : b.Json) (m : List (b.Key × ℕ)) (rs : List b.Request) (d : Dict ℕ b.Json)
      → has b j m ≡ false
      → Aligned m rs d
      → Aligned m rs (insert j v d)
  Aligned-insert j v [] [] d f h = tt
  Aligned-insert j v [] (r ∷ rs) d f h = h
  Aligned-insert j v (x ∷ m) [] d f h = h
  Aligned-insert j v ((key, ix) ∷ m) (r ∷ rs) d f h = (
    h.0,
    h.1,
    ground (arith, lookup-insert j ix v d),
    h.3,
    Aligned-insert j v m rs d (ground arith) h.4,
  )

  pub Aligned-cons :
      (j : ℕ) (v : b.Json) (m : List (b.Key × ℕ)) (rs : List b.Request) (d : Dict ℕ b.Json)
      → has b j m ≡ false
      → Aligned m rs d
      → Aligned m rs ((j, v) ∷ d)
  Aligned-cons j v [] [] d f h = tt
  Aligned-cons j v [] (r ∷ rs) d f h = h
  Aligned-cons j v (x ∷ m) [] d f h = h
  Aligned-cons j v ((key, ix) ∷ m) (r ∷ rs) d f h =
      (h.0, h.1, ground arith, h.3, Aligned-cons j v m rs d (ground arith) h.4)

module _ (b : Backend) (sound : IsSound b) (ans : b.Request → b.Json)
    (answers : (r : b.Request) → b.rpc_fetch r ≡ ok (ans r)) (quiet : b.debug ≡ false)
    (t : ℕ → Option b.Json) where
  -- What the second loop has done when it ends.
  pub record Filled (batch : List b.Request) (m : List (b.Key × ℕ)) (rs : List b.Request)
      (d : Dict ℕ b.Json) (db : b.Db) : Type 0 where
    pub dict : Dict ℕ b.Json
    pub store : b.Db
    pub ends : fill b batch m (map ans rs) d db ≡ (ok dict, store)
    pub matches : Matches b ans t dict
    pub size : length dict ≡ length d + length m
    pub covers : (j : ℕ) → (contains j d || has b j m) ≡ true → contains j dict ≡ true
    pub coherent : IsCoherent b sound store

  pub fill-Filled :
      (batch : List b.Request) (m : List (b.Key × ℕ)) (rs : List b.Request) (d : Dict ℕ b.Json)
      (db : b.Db)
      → Aligned b ans t m rs d
      → Matches b ans t d
      → IsCoherent b sound db
      → Filled batch m rs d db
  unfolding fill
  fill-Filled batch [] [] d db a h c = record {
    dict = d;
    store = db;
    ends = refl;
    matches = h;
    size = omega arith;
    covers = λ j e. ground arith;
    coherent = c;
  }
  fill-Filled batch [] (r ∷ rs) d db a h c = absurd a
  fill-Filled batch (x ∷ m) [] d db a h c = absurd a
  fill-Filled batch ((key, ix) ∷ m) (r ∷ rs) d db a h c =
      let v = ans r in
      let d' = insert ix v d in
      let store' = b.put key (b.dumps v) db in
      let c' : IsCoherent b sound store' =
        subst (λ k. IsCoherent b sound (b.put k (b.dumps v) db)) (sym a.0)
          (put-IsCoherent b sound r v db (answers r) c) in
      let f =
        fill-Filled batch m rs d' store' (Aligned-insert b ans t ix v m rs d a.3 a.4)
          (Matches-insert b ans t ix v d a.1 h) c' in
      record {
        dict = f.dict;
        store = f.store;
        ends = fill_quiet b quiet batch key ix m (ans r) (map ans rs) d db ∙ f.ends;
        matches = f.matches;
        size = ground (arith, f.size, length-insert ix v d, a.2);
        covers = λ j e. f.covers j (ground (arith, lookup-insert ix j v d));
        coherent = f.coherent;
      }
