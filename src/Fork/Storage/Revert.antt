-- ===== src/Fork/Storage/Revert.antt =====
-- `record` and `discard` keep py-evm's journal and the don't-fetch journal in step.
use titanoboa.Prelude.{
  ℕ, ◌≡◌, refl, sym, ap, ◌∙◌, inl, inr, Bool, true, false, List, [], ◌∷◌, ◌++◌, Bool-cases, nat_eq,
  string_eq, bytes_eq, pair_eq,
}
use titanoboa.Prelude.Result.{Result, ok, err}
use titanoboa.Fork.CachingRpc
use titanoboa.Fork.CachingRpc.{Backend}
use titanoboa.Fork.Storage.{
  Base, AccountDbFork, get_storage, set_storage, take_snapshot, discard, fetched, have_storage,
}
use titanoboa.Fork.Storage.Effective.{effective}

module _ (d : Base) where
  -- what may be asked of py-evm's database between a snapshot and its discard
  pub data BaseOp : Type 0 where
    read : d.Address → ℕ → Bool → BaseOp
    write : d.Address → ℕ → ℕ → BaseOp

  abbrev pub run_base : List BaseOp → d.Accounts → d.Accounts
  run_base [] m = m
  run_base (read a slot from_journal ∷ ops) m = run_base ops (d.get_storage a slot from_journal m).1
  run_base (write a slot v ∷ ops) m = run_base ops (d.set_storage a slot v m)

  abbrev pub run_marks : List d.Key → d.Journal → d.Journal
  run_marks [] j = j
  run_marks (k ∷ ks) j = run_marks ks (d.mark k j)

  -- What the class relies on in py-evm: a discard undoes what was done since the snapshot.
  pub record IsJournaled : Type 0 where
    pub value-discard :
        (m : d.Accounts) (ops : List BaseOp) (a : d.Address) (slot : ℕ)
        → let (c, m') = d.record_accounts m in
          (d.get_storage a slot true (d.discard_accounts c (run_base ops m'))).0
          ≡ (d.get_storage a slot true m).0
    pub marked-discard :
        (c : d.Checkpoint) (j : d.Journal) (ks : List d.Key) (k : d.Key)
        → d.marked k (d.discard_journal c (run_marks ks (d.record_journal c j))) ≡ d.marked k j

module _ (d : Base) (b : Backend) (request : d.Address → ℕ → b.Request) (to_int : b.Json → ℕ) where
  -- calls of the class
  pub data ForkOp : Type 0 where
    get : d.Address → ℕ → Bool → ForkOp
    put : d.Address → ℕ → ℕ → ForkOp

  -- a run of calls; a read whose fetch fails raises, and its caller goes on
  pub run : List ForkOp → AccountDbFork d b → AccountDbFork d b
  run [] s = s
  run (get a slot from_journal ∷ ops) s =
      run ops (get_storage d b request to_int a slot from_journal s).1
  run (put a slot v ∷ ops) s = run ops (set_storage d b a slot v s)

  record Reached (s s' : AccountDbFork d b) : Type 0 where
    ops : List (BaseOp d)
    marks : List d.Key
    accounts : s'.accounts ≡ run_base d ops s.accounts
    dontfetch : s'.dontfetch ≡ run_marks d marks s.dontfetch

  run_base-append :
      (xs ys : List (BaseOp d)) (m : d.Accounts)
      → run_base d (xs ++ ys) m ≡ run_base d ys (run_base d xs m)
  run_base-append [] ys m = refl
  run_base-append (read a slot f ∷ xs) ys m = run_base-append xs ys (d.get_storage a slot f m).1
  run_base-append (write a slot v ∷ xs) ys m = run_base-append xs ys (d.set_storage a slot v m)

  run_marks-append :
      (xs ys : List d.Key) (j : d.Journal)
      → run_marks d (xs ++ ys) j ≡ run_marks d ys (run_marks d xs j)
  run_marks-append [] ys j = refl
  run_marks-append (k ∷ xs) ys j = run_marks-append xs ys (d.mark k j)

  Reached-trans : {s s' s'' : AccountDbFork d b} → Reached s s' → Reached s' s'' → Reached s s''
  Reached-trans {s} p q = record {
    ops = p.ops ++ q.ops;
    marks = p.marks ++ q.marks;
    accounts =
        q.accounts
        ∙ ap (run_base d q.ops) p.accounts
        ∙ sym (run_base-append p.ops q.ops s.accounts);
    dontfetch =
        q.dontfetch
        ∙ ap (run_marks d q.marks) p.dontfetch
        ∙ sym (run_marks-append p.marks q.marks s.dontfetch);
  }

  set_storage-Reached :
      (a : d.Address) (slot v : ℕ) (s : AccountDbFork d b) → Reached s (set_storage d b a slot v s)
  unfolding set_storage
  set_storage-Reached a slot v s = record {
    ops = write a slot v ∷ [];
    marks = d.tracker_key a slot ∷ [];
    accounts = refl;
    dontfetch = refl;
  }

  fetched-Reached :
      (a : d.Address) (slot : ℕ) (from_journal : Bool)
      (o : Result (CachingRpc.CacheError b.RpcError) b.Json × b.Db) (s : AccountDbFork d b)
      → Reached s (fetched d b request to_int a slot from_journal o s).1
  unfolding fetched set_storage
  fetched-Reached a slot true (ok j, db) s = record {
    ops = write a slot (to_int j) ∷ [];
    marks = d.tracker_key a slot ∷ [];
    accounts = refl;
    dontfetch = refl;
  }
  fetched-Reached a slot false (ok j, db) s = record {
    ops = [];
    marks = [];
    accounts = refl;
    dontfetch = refl;
  }
  fetched-Reached a slot f (err x, db) s = record {
    ops = [];
    marks = [];
    accounts = refl;
    dontfetch = refl;
  }

  get_storage-Reached :
      (a : d.Address) (slot : ℕ) (from_journal : Bool) (s : AccountDbFork d b)
      → Reached s (get_storage d b request to_int a slot from_journal s).1
  unfolding get_storage
  get_storage-Reached a slot f s =
      let s' : AccountDbFork d b = record s { accounts = (d.get_storage a slot f s.accounts).1 } in
      let warm : Reached s s' = record {
        ops = read a slot f ∷ [];
        marks = [];
        accounts = refl;
        dontfetch = refl;
      } in
      elim (Bool-cases (have_storage d b a slot f s')) [
        | inl hit ↦ rw hit warm
        | inr miss ↦ rw miss (
            Reached-trans warm
              (fetched-Reached a slot f (CachingRpc.fetch b (request a slot) s'.cache) s'))
      ]

  run-Reached : (ops : List ForkOp) (s : AccountDbFork d b) → Reached s (run ops s)
  unfolding run
  run-Reached [] s = record { ops = []; marks = []; accounts = refl; dontfetch = refl }
  run-Reached (get a slot f ∷ ops) s =
      Reached-trans (get_storage-Reached a slot f s) (run-Reached ops _)
  run-Reached (put a slot v ∷ ops) s =
      Reached-trans (set_storage-Reached a slot v s) (run-Reached ops _)

module _ (d : Base) (b : Backend) (journaled : IsJournaled d) (request : d.Address → ℕ → b.Request)
    (to_int : b.Json → ℕ) (chain : d.Address → ℕ → ℕ) where
  -- Where py-evm's journals undo what was done since a checkpoint: after a snapshot, any reads and writes, and a discard, every slot reads as before: a slot that
  -- was written since is fetched from the chain again if it was not written before.
  pub effective-discard :
      (ops : List (ForkOp d b request to_int)) (s : AccountDbFork d b) (a : d.Address) (slot : ℕ)
      → let (c, s') = take_snapshot d b s in
        effective d b chain a slot (discard d b c (run d b request to_int ops s'))
        ≡ effective d b chain a slot s
  unfolding take_snapshot discard
  effective-discard ops s a slot =
      let (c, m') = d.record_accounts s.accounts in
      let s' : AccountDbFork d b = record s {
        accounts = m';
        dontfetch = d.record_journal c s.dontfetch;
      } in
      let r = run-Reached d b request to_int ops s' in
      rw (
        r.accounts,
        r.dontfetch,
        journaled.value-discard s.accounts r.ops a slot,
        journaled.marked-discard c s.dontfetch r.marks (d.tracker_key a slot),
      )
