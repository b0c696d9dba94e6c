-- ===== src/Deployments/Roundtrip.antt =====
-- boa/deployments.py: what is entered is what is read back.
use titanoboa.Prelude.{
  String, Bool, true, false, ◌&&◌, Option, none, some, List, [], ◌∷◌, map, ◌≡◌, refl, ap, ◌∙◌,
  if◌then◌else◌, ◌==◌, nat_eq, string_eq, bytes_eq, pair_eq, ℕ, ◌<◌, inl, inr, ◌++◌, arith, ltb,
  Bool-cases,
}
use titanoboa.Prelude.Dict.{Dict, keys, values}
use titanoboa.Prelude.Result.{Result, ok}
use titanoboa.Deployments.{
  descending, Sqlite, SqlType, text_type, integer_type, real_type, SqlValue, null, text, integer,
  real, Value, create_cmd, field_names, Deployment, DeploymentError, sql_values, from_fields,
  from_sql_tuple, insert_deployment, get_deployments, load_if_some, dump_if_some,
}

module _ {R : Type 0} where
  -- the value of a column that a row gives
  abbrev pub cell : Dict String (SqlValue R) → String → SqlValue R
  cell [] name = null
  cell ((x, v) ∷ row) name = if x == name then v else cell row name

  abbrev pub assign_id : SqlValue R → Dict String (SqlValue R) → String → SqlValue R
  assign_id id row name = if name == "deployment_id" then id else cell row name

  -- rows with their ids, the greatest id first
  abbrev insert_row :
      ℕ × (String → SqlValue R)
      → List (ℕ × (String → SqlValue R))
      → List (ℕ × (String → SqlValue R))
  insert_row r [] = r ∷ []
  insert_row r (x ∷ xs) = if ltb x.0 r.0 then r ∷ x ∷ xs else x ∷ insert_row r xs

  abbrev pub by_descending_id :
      List (ℕ × (String → SqlValue R))
      → List (ℕ × (String → SqlValue R))
      → List (ℕ × (String → SqlValue R))
  by_descending_id done [] = done
  by_descending_id done (r ∷ rs) = by_descending_id (insert_row r done) rs

  abbrev pub AllBelow : ℕ → List (ℕ × (String → SqlValue R)) → Type 0
  AllBelow n [] = Unit
  AllBelow n (r ∷ rs) = (r.0 < n) × AllBelow n rs

  AllBelow-insert_row :
      (n : ℕ) (r : ℕ × (String → SqlValue R)) (rs : List (ℕ × (String → SqlValue R)))
      → r.0 < n
      → AllBelow n rs
      → AllBelow n (insert_row r rs)
  AllBelow-insert_row n r [] h b = (h, tt)
  AllBelow-insert_row n r (x ∷ xs) h b = elim (Bool-cases (ltb x.0 r.0)) [
    | inl less ↦ rw less (h, b)
    | inr other ↦ rw other (b.0, AllBelow-insert_row n r xs h b.1)
  ]

  insert_row_first :
      (r : ℕ × (String → SqlValue R)) (rs : List (ℕ × (String → SqlValue R)))
      → AllBelow r.0 rs
      → insert_row r rs ≡ r ∷ rs
  insert_row_first r [] b = refl
  insert_row_first r (x ∷ xs) b =
      let less : ltb x.0 r.0 ≡ true = ground (arith, b.0) in rw less refl

  -- a row with the greatest id, wherever it is stored last, comes first
  by_descending_id_greatest :
      (r : ℕ × (String → SqlValue R)) (done rs : List (ℕ × (String → SqlValue R)))
      → AllBelow r.0 done
      → AllBelow r.0 rs
      → by_descending_id done (rs ++ r ∷ []) ≡ r ∷ by_descending_id done rs
  by_descending_id_greatest r done [] d b = insert_row_first r done d
  by_descending_id_greatest r done (x ∷ xs) d b =
      by_descending_id_greatest r (insert_row x done) xs (AllBelow-insert_row r.0 x done b.0 d) b.1

module _ (q : Sqlite) where
  -- a value that a column of the type keeps as it is
  abbrev fits : SqlType → Value q → Bool
  fits _ null = true
  fits text_type (text s) = true
  fits integer_type (integer n) = true
  fits real_type (real x) = true
  fits _ _ = false

  abbrev fit : List (String × SqlType) → Dict String (Value q) → Bool
  fit [] row = true
  fit ((name, type) ∷ columns) row = fits type (cell row name) && fit columns row

  -- a row that the table keeps as it is, but for the id that it assigns
  abbrev pub Storable : Dict String (Value q) → Type 0
  Storable row = (fit create_cmd row ≡ true) × (cell row "deployment_id" ≡ null)

  -- SQLite's table with an autoincremented key: rows by their ids, a new one with an id that is
  -- greater than all, and `ORDER BY deployment_id DESC`, which sorts by the ids
  pub record IsTable : Type 0 where
    pub rows : q.Db → List (ℕ × (String → Value q))
    pub next_id : q.Db → ℕ
    pub rows_below : (db : q.Db) → AllBelow (next_id db) (rows db)
    pub rows-insert :
        (row : Dict String (Value q)) (db : q.Db)
        → Storable row
        → rows (q.insert (keys row) (values row) db)
          ≡ rows db ++ (next_id db, assign_id (integer (next_id db)) row) ∷ []
    pub select-descending :
        (names : List String) (db : q.Db)
        → q.select names (descending "deployment_id") db
          ≡ map (λ r. map r.1 names) (by_descending_id [] (rows db))

  -- what holds of a deployment that can be entered: its JSON is read as it was dumped, and its
  -- addresses have their checksums
  pub record Enterable (d : Deployment q) : Type 0 where
    pub storable : Storable (sql_values q d)
    pub contract_address : q.checksum d.contract_address ≡ some d.contract_address
    pub deployer : q.checksum d.deployer ≡ some d.deployer

  module _ (table : IsTable) (loads-dumps : (j : q.Json) → q.loads (q.dumps j) ≡ some j) where
    abbrev pub with_id : Deployment q → q.Db → Deployment q
    with_id d db = record d { deployment_id = integer (table.next_id db) }

    select-insert :
        (row : Dict String (Value q)) (names : List String) (db : q.Db)
        → Storable row
        → q.select names (descending "deployment_id") (q.insert (keys row) (values row) db)
          ≡ map (assign_id (integer (table.next_id db)) row) names
            ∷ q.select names (descending "deployment_id") db
    select-insert row names db h =
        let n = table.next_id db in
        rw
          (
            table.select-descending names (q.insert (keys row) (values row) db),
            table.select-descending names db,
            table.rows-insert row db h,
            by_descending_id_greatest (n, assign_id (integer n) row) [] (table.rows db) tt
                (table.rows_below db),
          )
          refl

    load_if_some-dump_if_some : (o : Option q.Json) → load_if_some q (dump_if_some q o) ≡ ok o
    load_if_some-dump_if_some none = refl
    load_if_some-dump_if_some (some j) = rw (loads-dumps j) refl

    from_sql_tuple-assign_id :
        (d : Deployment q) (id : Value q)
        → Enterable d
        → from_sql_tuple q (map (assign_id id (sql_values q d)) field_names)
          ≡ ok (record d { deployment_id = id })
    unfolding from_sql_tuple from_fields sql_values
    from_sql_tuple-assign_id d id h =
        rw
          (
            h.contract_address,
            h.deployer,
            loads-dumps d.tx_dict,
            loads-dumps d.receipt_dict,
            load_if_some-dump_if_some d.source_code,
            load_if_some-dump_if_some d.abi,
          )
          refl

    get_deployments-insert_deployment :
        (d : Deployment q) (db : q.Db)
        → Enterable d
        → get_deployments q (insert_deployment q d db) ≡ ok (with_id d db) ∷ get_deployments q db
    unfolding get_deployments insert_deployment
    get_deployments-insert_deployment d db h =
        rw
          (
            select-insert (sql_values q d) field_names db h.storable,
            from_sql_tuple-assign_id d (integer (table.next_id db)) h,
          )
          refl

    abbrev pub insert_each : List (Deployment q) → q.Db → q.Db
    insert_each [] db = db
    insert_each (d ∷ ds) db = insert_each ds (insert_deployment q d db)

    -- the deployments with the ids that they are given, the last first, before those of the table
    abbrev pub latest_first :
        List (Deployment q)
        → q.Db
        → List (Result DeploymentError (Deployment q))
        → List (Result DeploymentError (Deployment q))
    latest_first [] db rest = rest
    latest_first (d ∷ ds) db rest =
        latest_first ds (insert_deployment q d db) (ok (with_id d db) ∷ rest)

    abbrev pub AllEnterable : List (Deployment q) → Type 0
    AllEnterable [] = Unit
    AllEnterable (d ∷ ds) = Enterable d × AllEnterable ds

    -- Over a table with autoincremented ids, which sorts by them where a query says so, and JSON that is loaded as it was dumped: deployments
    -- that can be entered, entered one after the other, come back as they were but for the id that
    -- each is given, the latest first, before what the table held.
    pub get_deployments-insert_each :
        (ds : List (Deployment q)) (db : q.Db)
        → AllEnterable ds
        → get_deployments q (insert_each ds db) ≡ latest_first ds db (get_deployments q db)
    get_deployments-insert_each [] db h = refl
    get_deployments-insert_each (d ∷ ds) db h =
        get_deployments-insert_each ds (insert_deployment q d db) h.1
        ∙ ap (latest_first ds (insert_deployment q d db))
            (get_deployments-insert_deployment d db h.0)
