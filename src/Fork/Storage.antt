-- ===== src/Fork/Storage.antt =====
-- Storage of `AccountDBFork` in boa/vm/fork.py. py-evm's account database and journal are the
-- operations of `Base`; the node is reached through `CachingRpc`.
pub mod Effective
pub mod Revert
use titanoboa.Prelude.{ℕ, Bool, not, arith, if◌then◌else◌, nat_eq, string_eq, bytes_eq}
use titanoboa.Prelude.Result.{Result, ok, err}
use titanoboa.Fork.CachingRpc
use titanoboa.Fork.CachingRpc.{Backend}

pub record Base : Type 1 where
  pub Address : Type 0
  pub Accounts : Type 0
  pub Journal : Type 0
  pub Key : Type 0
  pub Checkpoint : Type 0
  -- `super().get_storage`: the value, and the database with the address warmed
  pub get_storage : Address → ℕ → Bool → Accounts → ℕ × Accounts
  pub set_storage : Address → ℕ → ℕ → Accounts → Accounts
  -- whether the slot has a value in `_locked_changes`
  pub locked : Address → ℕ → Accounts → Bool
  pub record_accounts : Accounts → Checkpoint × Accounts
  pub discard_accounts : Checkpoint → Accounts → Accounts
  pub commit_accounts : Checkpoint → Accounts → Accounts
  -- `_dontfetch`, with `_get_storage_tracker_key`
  pub tracker_key : Address → ℕ → Key
  pub marked : Key → Journal → Bool
  pub mark : Key → Journal → Journal
  pub record_journal : Checkpoint → Journal → Journal
  pub discard_journal : Checkpoint → Journal → Journal
  pub commit_journal : Checkpoint → Journal → Journal

module _ (d : Base) (b : Backend) where
  open d use {Address, Accounts, Journal, Checkpoint, tracker_key, locked, marked, mark}

  pub record AccountDbFork : Type 0 where
    pub accounts : Accounts
    pub dontfetch : Journal
    pub cache : b.Db

  abbrev pub SlotRead : Type 0
  SlotRead = Result (CachingRpc.CacheError b.RpcError) ℕ × AccountDbFork

  -- `_helper_have_storage`
  pub have_storage : Address → ℕ → Bool → AccountDbFork → Bool
  have_storage address slot from_journal s =
      if not from_journal
      then locked address slot s.accounts
      else marked (tracker_key address slot) s.dontfetch

  pub set_storage : Address → ℕ → ℕ → AccountDbFork → AccountDbFork
  set_storage address slot value s = record s {
    accounts = d.set_storage address slot value s.accounts;
    dontfetch = mark (tracker_key address slot) s.dontfetch;
  }

  -- the request `eth_getStorageAt` at the forked block, and `to_int` of its result
  module _ (storage_request : Address → ℕ → b.Request) (to_int : b.Json → ℕ) where
    -- what follows the RPC call; a value that is not read from the journal is not stored
    fetched :
        Address
        → ℕ
        → Bool
        → Result (CachingRpc.CacheError b.RpcError) b.Json × b.Db
        → AccountDbFork
        → SlotRead
    unfolding set_storage
    fetched address slot from_journal (err x, db) s = (err x, record s { cache = db })
    fetched address slot from_journal (ok json, db) s =
        let s' : AccountDbFork = record s { cache = db } in
        let val = to_int json in
        (ok val, if from_journal then set_storage address slot val s' else s')

    pub get_storage : Address → ℕ → Bool → AccountDbFork → SlotRead
    unfolding fetched have_storage
    get_storage address slot from_journal s =
        let (val, accounts') = d.get_storage address slot from_journal s.accounts in
        let s' : AccountDbFork = record s { accounts = accounts' } in
        if have_storage address slot from_journal s'
        then (ok val, s')
        else fetched address slot from_journal
            (CachingRpc.fetch b (storage_request address slot) s'.cache) s'

  pub take_snapshot : AccountDbFork → Checkpoint × AccountDbFork
  take_snapshot s =
      let (checkpoint, accounts') = d.record_accounts s.accounts in
      (
        checkpoint,
        record s { accounts = accounts'; dontfetch = d.record_journal checkpoint s.dontfetch },
      )

  pub discard : Checkpoint → AccountDbFork → AccountDbFork
  discard checkpoint s = record s {
    accounts = d.discard_accounts checkpoint s.accounts;
    dontfetch = d.discard_journal checkpoint s.dontfetch;
  }

  pub commit : Checkpoint → AccountDbFork → AccountDbFork
  commit checkpoint s = record s {
    accounts = d.commit_accounts checkpoint s.accounts;
    dontfetch = d.commit_journal checkpoint s.dontfetch;
  }
