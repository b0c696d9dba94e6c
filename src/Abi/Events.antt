-- ===== src/Abi/Events.antt =====
-- boa/contracts/event_decoder.py. The ABI decoder of eth-stdlib and the encoding of addresses are
-- parameters; a decoded log is the field names of its named tuple, with their values.
pub mod Realign
use titanoboa.Prelude.{
  ℕ, Bool, true, false, List, [], ◌∷◌, arith, ◌==◌, nat_eq, string_eq, bytes_eq, pair_eq, String,
  Option,
}
use titanoboa.Prelude.Dict.{Dict, lookup}
use titanoboa.Prelude.Result.{Result, ok, err, ◌>>=◌, ◌>>◌, guard, or_raise}
use titanoboa.Prelude.Bytes.{Bytes, to_bytes_be}
use titanoboa.Abi.Json.{
  complex, field_names, simple, is_typename, atom, sequence, struct, no_values, value_then,
  format_abi_type, parse_complex, abi_from_json, Value, Values, AbiItem, Text, JsonError,
}

pub data LogError : Type 0 where
  assertion value_error index_error decode_error not_iterable : LogError
  json_error : JsonError → LogError

pub record AbiDecoder : Type 0 where
  -- `abi_decode`, and `Address` of a canonical address
  pub abi_decode : Text → Bytes → Result (Unit {0}) Value
  pub address_value : Bytes → Value

pub record RawLogEntry : Type 0 where
  pub address : Bytes
  pub topics : List ℕ
  pub data_bytes : Bytes

-- an item of `inputs` with its `indexed`
abbrev pub InputAbi : Type 0
InputAbi = Bool × AbiItem

-- the first loop
abbrev pub topic_abis : List InputAbi → List AbiItem
topic_abis [] = []
topic_abis ((true, item) ∷ inputs) = item ∷ topic_abis inputs
topic_abis ((false, item) ∷ inputs) = topic_abis inputs

abbrev pub arg_abis : List InputAbi → List AbiItem
arg_abis [] = []
arg_abis ((true, item) ∷ inputs) = arg_abis inputs
arg_abis ((false, item) ∷ inputs) = item ∷ arg_abis inputs

abbrev pub or_decode_error : {A : Type 0} → Result (Unit {0}) A → Result LogError A
or_decode_error (ok a) = ok a
or_decode_error (err _) = err decode_error

abbrev pub or_json_error : {A : Type 0} → Result JsonError A → Result LogError A
or_json_error (ok a) = ok a
or_json_error (err x) = err (json_error x)

-- `tuple_names`, `address` first
unfoldable pub input_names : List InputAbi → List String
input_names [] = []
input_names ((_, simple name _) ∷ inputs) = name ∷ input_names inputs
input_names ((_, complex name _ _) ∷ inputs) = name ∷ input_names inputs

-- an event with its name and its inputs
abbrev pub EventAbi : Type 0
EventAbi = String × List InputAbi

-- a named tuple of the event, which has a value for each name
abbrev pub Log : Type 0
Log = List (Option String) × List Value

-- `_abi_from_json` of each
unfoldable pub schemas : List AbiItem → Result JsonError (List Text)
schemas [] = ok []
schemas (item ∷ items) = do text ← abi_from_json item; texts ← schemas items; ok (text ∷ texts)

-- a decoded tuple as a sequence that is indexed
abbrev pub listed_values : Values → List Value
listed_values no_values = []
listed_values (value_then v vs) = v ∷ listed_values vs

abbrev pub as_tuple : Value → Result LogError (List Value)
as_tuple (atom _) = err not_iterable
as_tuple (sequence vs) = ok (listed_values vs)
as_tuple (struct _ vs) = ok (listed_values vs)

-- the last loop, with what the two indices have left of the lists
unfoldable pub realign : List InputAbi → List Value → List Value → Result LogError (List Value)
realign [] topics args = ok []
realign ((true, item) ∷ inputs) [] args = err index_error
realign ((true, item) ∷ inputs) (topic ∷ topics) args = do
  x ← or_json_error (parse_complex item topic)
  xs ← realign inputs topics args
  ok (x ∷ xs)
realign ((false, item) ∷ inputs) topics [] = err index_error
realign ((false, item) ∷ inputs) topics (arg ∷ args) = do
  x ← or_json_error (parse_complex item arg)
  xs ← realign inputs topics args
  ok (x ∷ xs)

module _ (decoder : AbiDecoder) where
  open decoder use {abi_decode, address_value}

  -- `zip(topic_abis, log_entry.topics[1:])`; a topic is one word
  pub decode_topics : List AbiItem → List ℕ → Result LogError (List Value)
  decode_topics (item ∷ items) (topic ∷ topics) = do
    schema ← or_json_error (abi_from_json item)
    v ← or_decode_error (abi_decode schema (to_bytes_be 32 topic))
    vs ← decode_topics items topics
    ok (v ∷ vs)
  decode_topics _ _ = ok []

  pub decode_inputs : EventAbi → List ℕ → RawLogEntry → Result LogError Log
  decode_inputs (name, inputs) topics log_entry = do
    guard (is_typename name) value_error
    decoded_topics ← decode_topics (topic_abis inputs) topics
    texts ← or_json_error (schemas (arg_abis inputs))
    args ← or_decode_error (abi_decode (format_abi_type texts) log_entry.data_bytes)
    decoded_args ← as_tuple args
    xs ← realign inputs decoded_topics decoded_args
    ok (field_names [] ("address" ∷ input_names inputs), address_value log_entry.address ∷ xs)

  pub decode_log : Bytes → Dict ℕ EventAbi → RawLogEntry → Result LogError Log
  decode_log canonical_address event_abi_for log_entry =
      guard (canonical_address == log_entry.address) assertion >> elim log_entry.topics [
        | [] ↦ err index_error
        | event_hash ∷ topics ↦
            or_raise (lookup event_hash event_abi_for) value_error >>= λ event_abi.
            decode_inputs event_abi topics log_entry
      ]
