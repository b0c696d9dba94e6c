-- ===== src/Fork/CachingRpc.antt =====
-- `CachingRPC` of boa/vm/fork.py. What it stands on is not part of the repository: the node,
-- pickle and the key-value store are the operations of `Backend`, with what the class relies on.
pub mod Coherence
pub mod Filling
pub mod Batch
use titanoboa.Prelude.{
  ℕ, zero, suc, ◌-◌, ◌≡◌, ◌⊎◌, Option, none, some, List, [], ◌∷◌, arith, ltb, if◌then◌else◌, length,
  nat_eq, string_eq, bytes_eq, Bool, ◌&&◌, not, pair_eq,
}
use titanoboa.Prelude.Dict.{Dict, lookup, insert}
use titanoboa.Prelude.Result.{Result, ok, err, ◌>>=◌, ◌>>◌, or_raise}

pub record Backend : Type 1 where
  pub Request : Type 0
  pub Json : Type 0
  pub RpcError : Type 0
  pub Key : Type 0
  pub Blob : Type 0
  pub Db : Type 0
  -- the wrapped RPC at the forked block, where a request always has the same answer
  pub rpc_fetch : Request → Result RpcError Json
  pub rpc_fetch_multi : List Request → Result RpcError (List Json)
  -- `pickle.dumps` of a request, and pickle of a result
  pub mk_key : Request → Key
  pub dumps : Json → Blob
  pub loads : Blob → Json
  -- `self._debug`
  pub debug : Bool
  -- `self._db`
  pub get : Key → Db → Option Blob
  pub put : Key → Blob → Db → Db

-- What the class relies on: pickle is lossless, and a store may forget but invents nothing.
pub record IsSound (b : Backend) : Type 0 where
  pub loads-dumps : (v : b.Json) → b.loads (b.dumps v) ≡ v
  pub mk_key-injective : (r s : b.Request) → b.mk_key r ≡ b.mk_key s → r ≡ s
  pub get-put :
      (k j : b.Key) (x y : b.Blob) (db : b.Db)
      → b.get j (b.put k x db) ≡ some y
      → ((k ≡ j) × (x ≡ y)) ⊎ (b.get j db ≡ some y)

pub data CacheError (E : Type 0) : Type 0 where
  rpc_error : E → CacheError E
  index_error key_error : CacheError E

module _ (b : Backend) where
  open b use {
    debug, Request, Json, RpcError, Key, Blob, Db, rpc_fetch, rpc_fetch_multi, mk_key, dumps, loads,
    get, put,
  }

  abbrev pub Outcome : Type 0 → Type 0
  Outcome A = Result (CacheError RpcError) A × Db

  store_fetched : Key → Result RpcError Json → Db → Outcome Json
  store_fetched key (err x) db = (err (rpc_error x), db)
  store_fetched key (ok result) db = (ok result, put key (dumps result) db)

  fetch_at : Request → Option Blob → Db → Outcome Json
  fetch_at req (some blob) db = (ok (loads blob), db)
  fetch_at req none db = store_fetched (mk_key req) (rpc_fetch req) db

  pub fetch : Request → Db → Outcome Json
  unfolding fetch_at store_fetched
  fetch req db = fetch_at req (get (mk_key req) db) db

  -- hits by index, the keys and indices of the misses, and the batch that is still to ask for
  pub record Scan : Type 0 where
    pub ret : Dict ℕ Json
    pub missing : List (Key × ℕ)
    pub batch : List Request

  scan_item : ℕ → Request → Option Blob → Scan → Scan
  scan_item ix req (some blob) s = record s { ret = (ix, loads blob) ∷ s.ret }
  scan_item ix req none s = record s {
    missing = (mk_key req, ix) ∷ s.missing;
    batch = req ∷ s.batch;
  }

  -- The first loop of `fetch_multi`, from index `ix` on.
  pub scan : ℕ → List Request → Db → Scan
  scan ix [] db = record { ret = []; missing = []; batch = [] }
  scan ix (req ∷ payload) db = scan_item ix req (get (mk_key req) db) (scan (suc ix) payload db)

  -- The second loop: results are mapped back to the original indices. What is printed in debug mode
  -- is looked up in the batch at the index in the payload, which may lie beyond the batch.
  pub fill : List Request → List (Key × ℕ) → List Json → Dict ℕ Json → Db → Outcome (Dict ℕ Json)
  fill batch missing [] ret db = (ok ret, db)
  fill batch [] (result ∷ results) ret db = (err index_error, db)
  fill batch ((key, ix) ∷ missing) (result ∷ results) ret db =
      let rest = fill batch missing results (insert ix result ret) (put key (dumps result) db) in
      if debug && not (ltb ix (length batch)) then (err index_error, db) else rest

  -- `[ret[i] for i in range(len(ret))]`, with the rounds left and the index
  pub collect : ℕ → ℕ → Dict ℕ Json → Result (CacheError RpcError) (List Json)
  collect zero i ret = ok []
  collect (suc rounds) i ret = do
    x ← or_raise (lookup i ret) key_error
    xs ← collect rounds (suc i) ret
    ok (x ∷ xs)

  collected : Outcome (Dict ℕ Json) → Outcome (List Json)
  collected (ok ret, db) = (collect (length ret) 0 ret, db)
  collected (err x, db) = (err x, db)

  fill_from : Scan → Result RpcError (List Json) → Db → Outcome (Dict ℕ Json)
  fill_from s (err x) db = (err (rpc_error x), db)
  fill_from s (ok results) db = fill s.batch s.missing results s.ret db

  ask : Scan → Db → Outcome (Dict ℕ Json)
  unfolding fill_from
  ask s db =
      if ltb 0 (length s.batch) then fill_from s (rpc_fetch_multi s.batch) db else (ok s.ret, db)

  pub fetch_multi : List Request → Db → Outcome (List Json)
  unfolding collected ask
  fetch_multi payload db = collected (ask (scan 0 payload db) db)
