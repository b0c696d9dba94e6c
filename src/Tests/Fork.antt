-- ===== src/Tests/Fork.antt =====
-- boa/vm/fork.py at concrete inputs, over a node and a database that satisfy its assumptions.
use titanoboa.Prelude.{
  pair_beq_iff, ℕ, ◌+◌, ◌-◌, ◌*◌, ◌≡◌, refl, ap, ◌∙◌, ◌≢◌, ◌↔◌, ◌⊎◌, inl, inr, true, Option, none,
  some, List, [], ◌∷◌, map, arith, nat_beq, is_some, Bool-cases, length, ◌==◌, nat_eq, string_eq,
  bytes_eq, pair_eq, false,
}
use titanoboa.Prelude.Dict.{Dict, lookup, contains, insert, lookup-insert, lookup-insert_self}
use titanoboa.Prelude.Result.{ok}
use titanoboa.Fork.CachingRpc.{fetch_multi, fetch, IsSound, Backend}
use titanoboa.Fork.CachingRpc.Coherence.{fetch-eq-rpc_fetch, put-IsCoherent, IsCoherent}
use titanoboa.Fork.Storage.{discard, take_snapshot, get_storage, AccountDbFork, Base}
use titanoboa.Fork.Storage.Effective.{get_storage-eq-effective, effective, IsMap}
use titanoboa.Fork.Storage.Revert.{
  effective-discard, put, get, run, run_base, IsJournaled, run_marks, BaseOp, read, write,
}
use titanoboa.Fork.CachingRpc.Batch.{fetch_multi-eq-map}

abbrev node_backend : Backend
node_backend = record {
  Request = ℕ;
  Json = ℕ;
  RpcError = Unit;
  Key = ℕ;
  Blob = ℕ;
  Db = Dict ℕ ℕ;
  rpc_fetch = λ r. ok (r * 10);
  rpc_fetch_multi = λ rs. ok (map (λ r. r * 10) rs);
  mk_key = λ r. r + 1;
  dumps = λ v. v + 1;
  loads = λ x. x - 1;
  debug = false;
  get = λ k db. lookup k db;
  put = λ k x db. insert k x db;
}

get-put_lem :
    (k j x y : ℕ) (db : Dict ℕ ℕ)
    → lookup j (insert k x db) ≡ some y
    → ((k ≡ j) × (x ≡ y)) ⊎ (lookup j db ≡ some y)
get-put_lem k j x y db h = elim (Bool-cases (nat_beq k j)) [
  | inl same ↦ inl (ground arith, ground (arith, lookup-insert k j x db))
  | inr other ↦ inr (ground (arith, lookup-insert k j x db))
]

backend-IsSound : IsSound node_backend
backend-IsSound = record {
  loads-dumps = λ v. omega arith;
  mk_key-injective = λ r s h. omega arith;
  get-put = get-put_lem;
}

nothing_cached-IsCoherent : IsCoherent node_backend backend-IsSound []
nothing_cached-IsCoherent r x h = absurd (ground arith)

abbrev warm : Dict ℕ ℕ
warm = (3, 21) ∷ []

warm-IsCoherent : IsCoherent node_backend backend-IsSound warm
warm-IsCoherent = put-IsCoherent node_backend backend-IsSound 2 20 [] refl nothing_cached-IsCoherent

fetch-eq-rpc_fetch_example :
    ((fetch node_backend 2 warm).0 ≡ ok 20)
    × IsCoherent node_backend backend-IsSound (fetch node_backend 2 warm).1
fetch-eq-rpc_fetch_example = fetch-eq-rpc_fetch node_backend backend-IsSound 2 warm warm-IsCoherent

fetch_multi-eq-map_example :
    ((fetch_multi node_backend (1 ∷ 2 ∷ 3 ∷ []) warm).0 ≡ ok (10 ∷ 20 ∷ 30 ∷ []))
    × IsCoherent node_backend backend-IsSound (fetch_multi node_backend (1 ∷ 2 ∷ 3 ∷ []) warm).1
fetch_multi-eq-map_example =
    fetch_multi-eq-map node_backend backend-IsSound (λ r. r * 10) (λ r. refl) (λ rs. refl) refl
      (1 ∷ 2 ∷ 3 ∷ []) warm warm-IsCoherent

-- a database of one dict, with the dicts of its snapshots
abbrev Slots : Type 0
Slots = Dict (ℕ × ℕ) ℕ × List (Dict (ℕ × ℕ) ℕ)

abbrev value_or_zero : Option ℕ → ℕ
value_or_zero none = 0
value_or_zero (some v) = v

abbrev last_saved : Slots → Slots
last_saved (m, []) = (m, [])
last_saved (m, s ∷ saved) = (s, saved)

abbrev forget : Slots → Slots
forget (m, []) = (m, [])
forget (m, s ∷ saved) = (m, saved)

abbrev slots_base : Base
slots_base = record {
  Address = ℕ;
  Accounts = Slots;
  Journal = Slots;
  Key = ℕ × ℕ;
  Checkpoint = ℕ;
  get_storage = λ a slot from_journal m. (value_or_zero (lookup (a, slot) m.0), m);
  set_storage = λ a slot v m. (insert (a, slot) v m.0, m.1);
  locked = λ a slot m. contains (a, slot) m.0;
  record_accounts = λ m. (length m.1, (m.0, m.0 ∷ m.1));
  discard_accounts = λ c m. last_saved m;
  commit_accounts = λ c m. forget m;
  tracker_key = λ a slot. (a, slot);
  marked = λ k j. contains k j.0;
  mark = λ k j. (insert k 1 j.0, j.1);
  record_journal = λ c j. (j.0, j.0 ∷ j.1);
  discard_journal = λ c j. last_saved j;
  commit_journal = λ c j. forget j;
}

key_beq_iff : (k j : ℕ × ℕ) → ((k == j) ≡ true) ↔ (k ≡ j)
key_beq_iff = pair_beq_iff

lookup-insert_ne :
    (k j : ℕ × ℕ) (v : ℕ) (d : Dict (ℕ × ℕ) ℕ) → k ≢ j → lookup j (insert k v d) ≡ lookup j d
lookup-insert_ne k j v d ne = elim (Bool-cases (k == j)) [
  | inl same ↦ absurd (ne ((key_beq_iff k j).0 same))
  | inr other ↦ lookup-insert k j v d ∙ rw other
]

pair_dec : (k j : ℕ × ℕ) → Dec (k ≡ j)
pair_dec k j = elim (Bool-cases (k == j)) [
  | inl same ↦ yes ((key_beq_iff k j).0 same)
  | inr other ↦ no (λ e. cc (other, (key_beq_iff k j).1 e))
]

slots-IsMap : IsMap slots_base
slots-IsMap = record {
  value-set_self = λ a slot v m. ap value_or_zero (lookup-insert_self (a, slot) v m.0);
  value-set_ne =
      λ a a' slot slot' v m ne. ap value_or_zero (lookup-insert_ne (a, slot) (a', slot') v m.0 ne);
  value-get = λ a a' slot slot' from_journal m. refl;
  locked-get = λ a slot from_journal m. refl;
  key-injective = λ a a' slot slot' e. (ap (λ k. k.0) e, ap (λ k. k.1) e);
  key_dec = pair_dec;
  marked-mark_self = λ k j. ap is_some (lookup-insert_self k 1 j.0);
  marked-mark_ne = λ k k' j ne. ap is_some (lookup-insert_ne k k' 1 j.0 ne);
}

saved-run_base : (ops : List (BaseOp slots_base)) (m : Slots) → (run_base slots_base ops m).1 ≡ m.1
saved-run_base [] m = refl
saved-run_base (read a slot f ∷ ops) m = saved-run_base ops m
saved-run_base (write a slot v ∷ ops) m = saved-run_base ops (insert (a, slot) v m.0, m.1)

saved-run_marks : (ks : List (ℕ × ℕ)) (j : Slots) → (run_marks slots_base ks j).1 ≡ j.1
saved-run_marks [] j = refl
saved-run_marks (k ∷ ks) j = saved-run_marks ks (insert k 1 j.0, j.1)

last_saved_lem :
    (m : Slots) (s : Dict (ℕ × ℕ) ℕ) (saved : List (Dict (ℕ × ℕ) ℕ))
    → m.1 ≡ s ∷ saved
    → last_saved m ≡ (s, saved)
last_saved_lem (m, saved') s saved e = rw e

slots-IsJournaled : IsJournaled slots_base
slots-IsJournaled = record {
  value-discard = λ m ops a slot.
      ap (λ x. value_or_zero (lookup (a, slot) x.0))
        (last_saved_lem _ m.0 m.1 (saved-run_base ops (m.0, m.0 ∷ m.1)));
  marked-discard = λ c j ks k.
      ap (λ x. contains k x.0) (last_saved_lem _ j.0 j.1 (saved-run_marks ks (j.0, j.0 ∷ j.1)));
}

abbrev forked : AccountDbFork slots_base node_backend
forked = record {
  accounts = (((1, 5), 50) ∷ [], []);
  dontfetch = (((1, 5), 1) ∷ [], []);
  cache = warm;
}

apart : ◌≢◌ {A = ℕ × ℕ} (1, 6) (1, 5)
apart e = let h : 6 ≡ 5 = ap (λ (k : ℕ × ℕ). k.1) e in omega (arith, h)

get_storage-eq-effective_example :
    let o = get_storage slots_base node_backend (λ a slot. slot) (λ j. j) 1 2 true forked in
    (o.0 ≡ ok 20)
    × ((a' slot' : ℕ)
        → effective slots_base node_backend (λ a slot. slot * 10) a' slot' o.1
          ≡ effective slots_base node_backend (λ a slot. slot * 10) a' slot' forked)
    × IsCoherent node_backend backend-IsSound o.1.cache
get_storage-eq-effective_example =
    get_storage-eq-effective slots_base node_backend slots-IsMap backend-IsSound (λ a slot. slot)
      (λ j. j) (λ a slot. slot * 10) (λ a slot. (slot * 10, refl, refl)) true 1 2 forked
      warm-IsCoherent

effective-discard_example :
    let (c, s') = take_snapshot slots_base node_backend forked in
    effective slots_base node_backend
      (λ a slot. slot * 10)
      1
      2
      (discard slots_base node_backend c
        (run slots_base node_backend (λ a slot. slot) (λ j. j) (get 1 2 true ∷ put 1 2 7 ∷ []) s'))
    ≡ 20
effective-discard_example =
    effective-discard slots_base node_backend slots-IsJournaled (λ a slot. slot) (λ j. j)
      (λ a slot. slot * 10) (get 1 2 true ∷ put 1 2 7 ∷ []) forked 1 2
