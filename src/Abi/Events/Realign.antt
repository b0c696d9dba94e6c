-- ===== src/Abi/Events/Realign.antt =====
-- A decoded log has its fields in the order of the ABI.
use titanoboa.Prelude.{
  bytes_beq, ℕ, ◌≡◌, refl, true, false, some, List, [], ◌∷◌, map, beq_refl, nat_eq, string_eq,
  bytes_eq, pair_eq, String,
}
use titanoboa.Prelude.Dict.{Dict, values, lookup}
use titanoboa.Prelude.Result.{Result, ok}
use titanoboa.Prelude.Bytes.{Bytes, to_bytes_be}
use titanoboa.Abi.Json.{is_typename, field_names, format_abi_type, AbiItem, Value, abi_from_json}
use titanoboa.Abi.Json.Shape.{Labels, plain, Fits, parse_complex-Renames}
use titanoboa.Abi.Events.{
  input_names, EventAbi, Log, AbiDecoder, InputAbi, topic_abis, arg_abis, decode_topics, realign,
  decode_inputs, decode_log, LogError, as_tuple, schemas,
}

-- the fields that an event has a value for each input for: what is indexed stands in the topics,
-- in order, and the rest in the data
abbrev pub Fields : Type 0
Fields = List (InputAbi × Value)

abbrev pub inputs_of : Fields → List InputAbi
inputs_of [] = []
inputs_of ((i, v) ∷ fields) = i ∷ inputs_of fields

abbrev pub values_of : Fields → List Value
values_of [] = []
values_of ((i, v) ∷ fields) = v ∷ values_of fields

abbrev pub indexed_of : Fields → List Value
indexed_of [] = []
indexed_of (((true, item), v) ∷ fields) = v ∷ indexed_of fields
indexed_of (((false, item), v) ∷ fields) = indexed_of fields

abbrev pub data_of : Fields → List Value
data_of [] = []
data_of (((true, item), v) ∷ fields) = data_of fields
data_of (((false, item), v) ∷ fields) = v ∷ data_of fields

-- each value has the shape of its input
abbrev pub AllFitted : Fields → Type 0
AllFitted [] = Unit
AllFitted (((indexed, item), v) ∷ fields) = Fits item v × AllFitted fields

-- each value has the names of its input
abbrev pub AllLabelled : Fields → List Value → Type 0
AllLabelled [] [] = Unit
AllLabelled (((_, item), v) ∷ fields) (x ∷ xs) = Labels item v x × AllLabelled fields xs
AllLabelled _ _ = false ≡ true

-- a result that holds the values in their order, with the names of their inputs
Realigned : Result LogError (List Value) → Fields → Type 0
Realigned r fields =
    (xs : List Value) × (r ≡ ok xs)
    × (map plain xs ≡ map plain (values_of fields))
    × AllLabelled fields xs

-- a log with the names of an event and the values of its fields, after the address
abbrev pub Holds : Result LogError Log → Fields → Value → Type 0
Holds r fields address =
    (xs : List Value) × (r
      ≡ ok (field_names [] ("address" ∷ input_names (inputs_of fields)), address ∷ xs))
    × (map plain xs ≡ map plain (values_of fields))
    × AllLabelled fields xs

realign-Holds :
    (fields : Fields)
    → AllFitted fields
    → Realigned (realign (inputs_of fields) (indexed_of fields) (data_of fields)) fields
unfolding realign Realigned
realign-Holds [] h = ([], refl, refl, tt)
realign-Holds (((true, item), v) ∷ fields) h =
    let (x, e, p, l) = parse_complex-Renames item v h.0 in
    let (xs, es, ps, ls) = realign-Holds fields h.1 in (x ∷ xs, rw (e, es), cc (p, ps), (l, ls))
realign-Holds (((false, item), v) ∷ fields) h =
    let (x, e, p, l) = parse_complex-Renames item v h.0 in
    let (xs, es, ps, ls) = realign-Holds fields h.1 in (x ∷ xs, rw (e, es), cc (p, ps), (l, ls))

module _ (decoder : AbiDecoder) where
  -- the word of each topic decodes to the value of its field
  abbrev pub Topics : List AbiItem → List Value → List ℕ → Type 0
  Topics [] [] [] = Unit
  Topics (item ∷ items) (v ∷ values) (topic ∷ topics) =
      ((schema : Bytes) × (abi_from_json item ≡ ok schema)
        × (decoder.abi_decode schema (to_bytes_be 32 topic) ≡ ok v))
      × Topics items values topics
  Topics _ _ _ = false ≡ true

  decode_topics_lem :
      (items : List AbiItem) (values : List Value) (topics : List ℕ)
      → Topics items values topics
      → decode_topics decoder items topics ≡ ok values
  unfolding decode_topics
  decode_topics_lem [] [] [] h = refl
  decode_topics_lem (item ∷ items) (v ∷ values) (topic ∷ topics) h =
      let (schema, e, d) = h.0 in rw (e, d, decode_topics_lem items values topics h.1)
  decode_topics_lem [] [] (t ∷ ts) h = cc
  decode_topics_lem [] (v ∷ vs) ts h = cc
  decode_topics_lem (i ∷ items) [] ts h = cc
  decode_topics_lem (i ∷ items) (v ∷ vs) [] h = cc

  -- the data decodes to a tuple of the values
  abbrev pub Data : List AbiItem → List Value → Bytes → Type 0
  Data items values data_bytes =
      (texts : List Bytes) × (args : Value) × (schemas items ≡ ok texts)
      × (decoder.abi_decode (format_abi_type texts) data_bytes ≡ ok args)
      × (as_tuple args ≡ ok values)

  -- A log of a known event with a name that a Python type can have, whose topics decode to the indexed fields and whose data decodes to the
  -- other fields, each of the shape of its input, decodes to a named tuple of its address and then
  -- all the fields in the order of the ABI, under the names of the inputs as far as fields can have
  -- them; to the values only the names within tuples are added, which are those of the inputs.
  pub decode_log-Holds :
      (fields : Fields) (event_hash : ℕ) (topics : List ℕ) (address data_bytes : Bytes)
      (name : String) (event_abi_for : Dict ℕ EventAbi)
      → lookup event_hash event_abi_for ≡ some (name, inputs_of fields)
      → is_typename name ≡ true
      → AllFitted fields
      → Topics (topic_abis (inputs_of fields)) (indexed_of fields) topics
      → Data (arg_abis (inputs_of fields)) (data_of fields) data_bytes
      → Holds
          (decode_log decoder address event_abi_for
            (record { address = address; topics = event_hash ∷ topics; data_bytes = data_bytes }))
          fields
          (decoder.address_value address)
  unfolding decode_log decode_inputs Realigned
  decode_log-Holds fields event_hash topics address data_bytes name event_abi_for known named fit t
        (texts, args, s, d, a) =
      let same : bytes_beq address address ≡ true = beq_refl address in
      let (xs, e, p, l) = realign-Holds fields fit in
      let decoded =
        decode_topics_lem (topic_abis (inputs_of fields)) (indexed_of fields) topics t in
      (xs, rw (same, known, named, decoded, s, d, a, e) refl, p, l)
