-- ===== src/Tests/Deployments.antt =====
-- Runs of boa/deployments.py, over a table that is a list of rows.
use titanoboa.Prelude.{
  ℕ, suc, String, Bool, true, false, Option, none, some, List, [], ◌∷◌, map, ◌≡◌, refl, ap,
  if◌then◌else◌, length, ◌==◌, nat_eq, string_eq, bytes_eq, pair_eq, ◌+◌, ◌≤◌, ◌++◌, arith,
}
use titanoboa.Prelude.Dict.{Dict, keys, values}
use titanoboa.Prelude.Result.{ok, err}
use titanoboa.Deployments.{
  descending, ascending, Order, insert_deployment, Sqlite, SqlValue, null, text, integer, real, zip,
  Deployment, assertion_error, get_deployments, sql_values, from_sql_tuple,
}
use titanoboa.Deployments.Roundtrip.{
  by_descending_id, AllBelow, IsTable, Enterable, assign_id, insert_each,
  get_deployments-insert_each,
}

-- a row tells the value of each column
abbrev SqlTable : Type 0
SqlTable = List (String → SqlValue ℕ)

abbrev bool_of : String → Option Bool
bool_of s = if s == "true" then some true else if s == "false" then some false else none

abbrev bool_text : Bool → String
bool_text true = "true"
bool_text false = "false"

-- the rows with their places as their ids
abbrev numbered : ℕ → SqlTable → List (ℕ × (String → SqlValue ℕ))
numbered n [] = []
numbered n (row ∷ rows) = (n, row) ∷ numbered (suc n) rows

numbered-AllBelow : (n k : ℕ) (db : SqlTable) → n + length db ≤ k → AllBelow k (numbered n db)
numbered-AllBelow n k [] h = tt
numbered-AllBelow n k (row ∷ rows) h =
    (omega (arith, h), numbered-AllBelow (suc n) k rows (omega (arith, h)))

abbrev one : ℕ → (String → SqlValue ℕ) → List (ℕ × (String → SqlValue ℕ))
one i row = (i, row) ∷ []

numbered_last :
    (n k : ℕ) (db : SqlTable) (row : String → SqlValue ℕ)
    → n + length db ≡ k
    → numbered n (db ++ row ∷ []) ≡ numbered n db ++ one k row
numbered_last n k [] row h = let e : n ≡ k = omega (arith, h) in ap (λ (i : ℕ). one i row) e
numbered_last n k (x ∷ xs) row h =
    ap (λ rows. (n, x) ∷ rows) (numbered_last (suc n) k xs row (omega (arith, h)))

abbrev ordered : Order → List (ℕ × (String → SqlValue ℕ)) → List (ℕ × (String → SqlValue ℕ))
ordered (ascending _) db = db
ordered (descending _) db = by_descending_id [] db

abbrev sqlite : Sqlite
sqlite = record {
  Real = ℕ;
  Db = SqlTable;
  Json = Bool;
  dumps = bool_text;
  loads = bool_of;
  checksum = some;
  columns = λ db. "deployment_id" ∷ "abi" ∷ [];
  add_column = λ name db. db;
  insert = λ names row db. db ++ assign_id (integer (length db)) (zip names row) ∷ [];
  select = λ names order db. map (λ r. map r.1 names) (ordered order (numbered 0 db));
}

zip-keys-values : (row : Dict String (SqlValue ℕ)) → zip (keys row) (values row) ≡ row
zip-keys-values [] = refl
zip-keys-values (x ∷ row) = ap (λ z. x ∷ z) (zip-keys-values row)

abbrev sqlite_table : IsTable sqlite
sqlite_table = record {
  rows = numbered 0;
  next_id = λ db. length db;
  rows_below = λ db. numbered-AllBelow 0 (length db) db (omega arith);
  rows-insert = λ row db h.
      rw (zip-keys-values row)
        (numbered_last 0 (length db) db (assign_id (integer (length db)) row) (omega arith));
  select-descending = λ names db. refl;
}

bool_of-bool_text : (b : Bool) → bool_of (bool_text b) ≡ some b
bool_of-bool_text true = refl
bool_of-bool_text false = refl

abbrev crowdsale : String → Deployment sqlite
crowdsale name = record {
  contract_address = "0xA1";
  contract_name = text name;
  filename = null;
  rpc = text "http://localhost";
  deployer = "0xB2";
  tx_hash = text "0x03";
  broadcast_ts = real 17;
  tx_dict = true;
  receipt_dict = false;
  source_code = none;
  abi = some true;
  session_id = text "s";
  deployment_id = null;
}

enterable : (name : String) → Enterable sqlite (crowdsale name)
unfolding sql_values
enterable name = record { storable = (refl, refl); contract_address = refl; deployer = refl }

get_deployments-insert_each_example :
    get_deployments sqlite
      (insert_each sqlite sqlite_table bool_of-bool_text (crowdsale "a" ∷ crowdsale "b" ∷ []) [])
    ≡ ok (record (crowdsale "b") { deployment_id = integer 1 })
      ∷ ok (record (crowdsale "a") { deployment_id = integer 0 })
      ∷ []
unfolding get_deployments insert_deployment
get_deployments-insert_each_example =
    get_deployments-insert_each sqlite sqlite_table bool_of-bool_text
      (crowdsale "a" ∷ crowdsale "b" ∷ []) [] (enterable "a", (enterable "b", tt))

short_row : from_sql_tuple sqlite (null ∷ []) ≡ err assertion_error
unfolding from_sql_tuple
short_row = refl
