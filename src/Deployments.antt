-- ===== src/Deployments.antt =====
-- boa/deployments.py: the table of deployments. SQLite is a parameter: `insert` and `select` are the
-- two commands that the code builds from column names. JSON and the checksum of an address are too.
pub mod Roundtrip
use titanoboa.Prelude.{
  ℕ, String, Bool, true, false, Option, none, some, List, [], ◌∷◌, map, nat_beq, if◌then◌else◌,
  length, ◌==◌, nat_eq, string_eq, bytes_eq, pair_eq, arith,
}
use titanoboa.Prelude.Dict.{Dict, keys, values, lookup}
use titanoboa.Prelude.Result.{Result, ok, err, ◌>>=◌, or_raise, ◌>>◌}

-- a value of a column
pub data SqlValue (R : Type 0) : Type 0 where
  null : SqlValue R
  text : String → SqlValue R
  integer : ℕ → SqlValue R
  real : R → SqlValue R

-- `ORDER BY` with a column
pub data Order : Type 0 where
  ascending descending : String → Order

-- what the module calls: the database, `json`, and `Address`, which raises at a text that is no
-- address
pub record Sqlite : Type 1 where
  pub Real : Type 0
  pub Db : Type 0
  pub Json : Type 0
  pub dumps : Json → String
  pub loads : String → Option Json
  pub checksum : String → Option String
  pub columns : Db → List String
  pub add_column : String → Db → Db
  pub insert : List String → List (SqlValue Real) → Db → Db
  pub select : List String → Order → Db → List (List (SqlValue Real))

pub data DeploymentError : Type 0 where
  assertion_error key_error value_error type_error : DeploymentError

pub data SqlType : Type 0 where
  text_type integer_type real_type : SqlType

-- the columns that `_CREATE_CMD` names, with their types
abbrev pub create_cmd : List (String × SqlType)
create_cmd =
    ("deployment_id", integer_type)
    ∷ ("session_id", text_type)
    ∷ ("contract_address", text_type)
    ∷ ("contract_name", text_type)
    ∷ ("filename", text_type)
    ∷ ("rpc", text_type)
    ∷ ("deployer", text_type)
    ∷ ("tx_hash", text_type)
    ∷ ("broadcast_ts", real_type)
    ∷ ("tx_dict", text_type)
    ∷ ("receipt_dict", text_type)
    ∷ ("source_code", text_type)
    ∷ ("abi", text_type)
    ∷ []

-- the names of the class's fields
abbrev pub field_names : List String
field_names =
    "contract_address" ∷ "contract_name" ∷ "filename" ∷ "rpc" ∷ "deployer" ∷ "tx_hash"
    ∷ "broadcast_ts" ∷ "tx_dict" ∷ "receipt_dict" ∷ "source_code" ∷ "abi" ∷ "session_id"
    ∷ "deployment_id" ∷ []

abbrev pub zip : {A B : Type 0} → List A → List B → List (A × B)
zip [] ys = []
zip (x ∷ xs) [] = []
zip (x ∷ xs) (y ∷ ys) = (x, y) ∷ zip xs ys

abbrev is_in : String → List String → Bool
is_in x [] = false
is_in x (y ∷ ys) = if y == x then true else is_in x ys

module _ (q : Sqlite) where
  abbrev pub Value : Type 0
  Value = SqlValue q.Real

  -- a field that the code only passes on holds what a column can hold; an address is its text
  pub record Deployment : Type 0 where
    pub contract_address : String
    pub contract_name : Value
    pub filename : Value
    pub rpc : Value
    pub deployer : String
    pub tx_hash : Value
    pub broadcast_ts : Value
    pub tx_dict : q.Json
    pub receipt_dict : q.Json
    pub source_code : Option q.Json
    pub abi : Option q.Json
    pub session_id : Value
    pub deployment_id : Value

  -- a field that may be `None` is dumped if it is not
  abbrev pub dump_if_some : Option q.Json → Value
  dump_if_some none = null
  dump_if_some (some j) = text (q.dumps j)

  unfoldable pub sql_values : Deployment → Dict String Value
  sql_values d =
      ("contract_address", text d.contract_address)
      ∷ ("contract_name", d.contract_name)
      ∷ ("filename", d.filename)
      ∷ ("rpc", d.rpc)
      ∷ ("deployer", text d.deployer)
      ∷ ("tx_hash", d.tx_hash)
      ∷ ("broadcast_ts", d.broadcast_ts)
      ∷ ("tx_dict", text (q.dumps d.tx_dict))
      ∷ ("receipt_dict", text (q.dumps d.receipt_dict))
      ∷ ("source_code", dump_if_some d.source_code)
      ∷ ("abi", dump_if_some d.abi)
      ∷ ("session_id", d.session_id)
      ∷ ("deployment_id", d.deployment_id)
      ∷ []

  -- `Address(value)`
  abbrev to_address : Value → Result DeploymentError String
  to_address (text s) = or_raise (q.checksum s) value_error
  to_address _ = err type_error

  -- `json.loads(value)`
  abbrev load : Value → Result DeploymentError q.Json
  load (text s) = or_raise (q.loads s) value_error
  load _ = err type_error

  abbrev pub load_if_some : Value → Result DeploymentError (Option q.Json)
  load_if_some null = ok none
  load_if_some v = load v >>= λ j. ok (some j)

  abbrev item : String → Dict String Value → Result DeploymentError Value
  item name ret = or_raise (lookup name ret) key_error

  unfoldable pub from_fields : Dict String Value → Result DeploymentError Deployment
  from_fields ret = do
    contract_address ← item "contract_address" ret >>= to_address
    deployer ← item "deployer" ret >>= to_address
    tx_dict ← item "tx_dict" ret >>= load
    receipt_dict ← item "receipt_dict" ret >>= load
    source_code ← item "source_code" ret >>= load_if_some
    abi ← item "abi" ret >>= load_if_some
    contract_name ← item "contract_name" ret
    filename ← item "filename" ret
    rpc ← item "rpc" ret
    tx_hash ← item "tx_hash" ret
    broadcast_ts ← item "broadcast_ts" ret
    session_id ← item "session_id" ret
    deployment_id ← item "deployment_id" ret
    ok (record {
      contract_address = contract_address;
      contract_name = contract_name;
      filename = filename;
      rpc = rpc;
      deployer = deployer;
      tx_hash = tx_hash;
      broadcast_ts = broadcast_ts;
      tx_dict = tx_dict;
      receipt_dict = receipt_dict;
      source_code = source_code;
      abi = abi;
      session_id = session_id;
      deployment_id = deployment_id;
    })

  unfoldable pub from_sql_tuple : List Value → Result DeploymentError Deployment
  from_sql_tuple row =
      if nat_beq (length row) (length field_names)
      then from_fields (zip field_names row)
      else err assertion_error

  unfoldable pub insert_deployment : Deployment → q.Db → q.Db
  insert_deployment d db = let row = sql_values d in q.insert (keys row) (values row) db

  unfoldable pub apply_filename_migration : q.Db → q.Db
  apply_filename_migration db =
      if is_in "filename" (q.columns db) then db else q.add_column "filename" db

  -- what the generator gives, item by item
  unfoldable pub get_deployments : q.Db → List (Result DeploymentError Deployment)
  get_deployments db = map from_sql_tuple (q.select field_names (descending "deployment_id") db)
