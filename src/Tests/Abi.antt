-- ===== src/Tests/Abi.antt =====
-- boa/contracts/abi/abi_contract.py and boa/contracts/event_decoder.py at concrete inputs.
use titanoboa.Prelude.{
  ℕ, String, ◌≡◌, refl, true, false, none, some, List, [], ◌∷◌, ◌++◌, ltb, if◌then◌else◌, ◌==◌,
  nat_eq, string_eq, bytes_eq, pair_eq,
}
use titanoboa.Prelude.Result.{ok, err}
use titanoboa.Prelude.Bytes.{starts_with, to_bytes_be}
use titanoboa.Abi.Json.{
  field_names, is_typename, join, format_abi_type, parse_complex, bracket, abi_from_json, count,
  tuple_prefix, Text, simple, complex, no_items, item_then, atom, sequence, no_values, value_then,
  Value, AbiItem,
}
use titanoboa.Abi.Function.{
  all_encodable, pops, pick_overload, is_encodable, merge_kwargs, type_error, no_match, ambiguous,
  Input, AbiFunction, Encoder,
}
use titanoboa.Abi.Events.{decode_log, schemas, AbiDecoder}
use titanoboa.Abi.Json.Shape.{Labels, parse_complex-Renames, Fits, Renames}
use titanoboa.Abi.Events.Realign.{
  Data, decode_log-Holds, inputs_of, Topics, AllFitted, Holds, Fields,
}
use titanoboa.Abi.Function.Kwargs.{merge_kwargs-Gives}
use titanoboa.Abi.Function.Overload.{pick_overload-keyword, pick_overload-only}

abbrev small_encoder : Encoder
small_encoder = record {
  Value = ℕ;
  is_abi_encodable = λ schema v. if schema == "uint8" then ltb v 256 else true;
  abi_encode = λ schema values. ok values;
  method_id = λ signature. 1 ∷ 2 ∷ 3 ∷ 4 ∷ [];
}

abbrev input : String → String → Input
input name schema = record { name = name; schema = schema }

abbrev foo_small : AbiFunction
foo_small = record {
  name = some "foo";
  inputs = input "a" "uint8" ∷ input "b" "uint8" ∷ input "c" "uint8" ∷ [];
  signature = "(uint8,uint8,uint8)";
  full_signature = "foo(uint8,uint8,uint8)";
}

abbrev foo_large : AbiFunction
foo_large = record {
  name = some "foo";
  inputs = input "x" "uint256" ∷ input "y" "uint256" ∷ input "z" "uint256" ∷ [];
  signature = "(uint256,uint256,uint256)";
  full_signature = "foo(uint256,uint256,uint256)";
}

abbrev foo_one : AbiFunction
foo_one = record {
  name = some "foo";
  inputs = input "a" "uint8" ∷ [];
  signature = "(uint8)";
  full_signature = "foo(uint8)";
}

merge_kwargs-Gives_example :
    merge_kwargs small_encoder foo_small (1 ∷ []) (("c", 3) ∷ ("b", 2) ∷ []) ≡ ok (1 ∷ 2 ∷ 3 ∷ [])
merge_kwargs-Gives_example =
    merge_kwargs-Gives small_encoder foo_small (1 ∷ []) (2 ∷ 3 ∷ []) (("c", 3) ∷ ("b", 2) ∷ [])
      (refl, (refl, tt)) (refl, (refl, tt)) refl

merged :
    merge_kwargs small_encoder foo_small (1 ∷ []) (("c", 3) ∷ ("b", 2) ∷ []) ≡ ok (1 ∷ 2 ∷ 3 ∷ [])
unfolding merge_kwargs pops
merged = refl

abbrev in_order : List ℕ
in_order = 1 ∷ 2 ∷ 3 ∷ []

abbrev numbers : List ℕ
numbers = 300 ∷ 2 ∷ 3 ∷ []

refuses_small : is_encodable small_encoder foo_small numbers [] ≡ ok false
unfolding is_encodable merge_kwargs pops all_encodable
refuses_small = refl

refuses_one : is_encodable small_encoder foo_one numbers [] ≡ ok false
unfolding is_encodable
refuses_one = refl

takes_large : is_encodable small_encoder foo_large numbers [] ≡ ok true
unfolding is_encodable merge_kwargs pops all_encodable
takes_large = refl

pick_overload-only_example :
    (pick_overload small_encoder (foo_small ∷ foo_large ∷ []) none numbers [] ≡ ok foo_large)
    × (pick_overload small_encoder
          (foo_small ∷ foo_large ∷ foo_one ∷ foo_large ∷ [])
          none
          numbers
          []
        ≡ err ambiguous)
    × (pick_overload small_encoder (foo_one ∷ []) none numbers [] ≡ err no_match)
pick_overload-only_example =
    pick_overload-only small_encoder numbers [] (foo_small ∷ []) (foo_one ∷ []) [] foo_large
      foo_large (refuses_small, tt) (refuses_one, tt) tt takes_large takes_large refl refl refl

keywords_differ : merge_kwargs small_encoder foo_one [] (("x", 1) ∷ []) ≡ err type_error
unfolding merge_kwargs pops
keywords_differ = refl

pick_overload-keyword_example :
    pick_overload small_encoder
      (foo_one ∷ record foo_one { inputs = input "x" "uint256" ∷ [] } ∷ [])
      none
      []
      (("x", 1) ∷ [])
    ≡ err type_error
pick_overload-keyword_example =
    pick_overload-keyword small_encoder [] (("x", 1) ∷ []) []
      (record foo_one { inputs = input "x" "uint256" ∷ [] } ∷ []) foo_one "a" tt refl refl refl

abbrev number_text : Text
number_text = 0x75 ∷ 0x38 ∷ []

abbrev pair_item : AbiItem
pair_item =
    complex "p" (tuple_prefix ++ bracket ∷ 0x5d ∷ [])
      (item_then (simple "x" number_text) (item_then (simple "y" number_text) no_items))

abbrev a_pair : Value
a_pair = sequence (value_then (atom (1 ∷ [])) (value_then (atom (2 ∷ [])) no_values))

abbrev pairs : Value
pairs = sequence (value_then a_pair no_values)

one_bracket : count bracket (tuple_prefix ++ bracket ∷ 0x5d ∷ []) ≡ 1
unfolding count
one_bracket = refl

pairs-Fits : Fits pair_item pairs
unfolding count Fits is_typename
pairs-Fits = (
  refl,
  refl,
  (
    value_then a_pair no_values,
    refl,
    ((value_then (atom (1 ∷ [])) (value_then (atom (2 ∷ [])) no_values), refl, (tt, (tt, tt))), tt),
  ),
)

parse_complex-Renames_example :
    Renames (parse_complex pair_item pairs) pairs (Labels pair_item pairs)
parse_complex-Renames_example = parse_complex-Renames pair_item pairs pairs-Fits

-- a decoder that gives the data as one value, in a tuple where the schema is one
abbrev plain_decoder : AbiDecoder
plain_decoder = record {
  abi_decode = λ schema data_bytes.
      if starts_with schema (0x28 ∷ [])
      then ok (sequence (value_then (atom data_bytes) no_values))
      else ok (atom data_bytes);
  address_value = λ address. atom address;
}

abbrev number_item : AbiItem
number_item = simple "n" number_text

abbrev event_fields : Fields
event_fields =
    ((false, number_item), atom (6 ∷ [])) ∷ ((true, number_item), atom (to_bytes_be 32 5)) ∷ []

fields-AllFitted : AllFitted event_fields
unfolding Fits
fields-AllFitted = (tt, (tt, tt))

five-Topics : Topics plain_decoder (number_item ∷ []) (atom (to_bytes_be 32 5) ∷ []) (5 ∷ [])
unfolding abi_from_json
five-Topics = ((number_text, refl, refl), tt)

six-Data : Data plain_decoder (number_item ∷ []) (atom (6 ∷ []) ∷ []) (6 ∷ [])
unfolding abi_from_json schemas format_abi_type join
six-Data = (number_text ∷ [], sequence (value_then (atom (6 ∷ [])) no_values), refl, refl, refl)

paid : is_typename "Paid" ≡ true
unfolding is_typename
paid = refl

-- the keywords of Python, and names with a bracket, are no names of types
from_keyword : (is_typename "from" ≡ false) × (is_typename "a[" ≡ false)
unfolding is_typename
from_keyword = (refl, refl)

-- a field that is a keyword, private or a repetition is named by its place
renamed : field_names [] ("a" ∷ "from" ∷ "_b" ∷ "a" ∷ []) ≡ some "a" ∷ none ∷ none ∷ none ∷ []
unfolding field_names is_typename
renamed = refl

decode_log-Holds_example :
    Holds
      (decode_log plain_decoder
        (7 ∷ [])
        ((99, ("Paid", inputs_of event_fields)) ∷ [])
        (record { address = 7 ∷ []; topics = 99 ∷ 5 ∷ []; data_bytes = 6 ∷ [] }))
      event_fields
      (atom (7 ∷ []))
decode_log-Holds_example =
    decode_log-Holds plain_decoder event_fields 99 (5 ∷ []) (7 ∷ []) (6 ∷ []) "Paid"
      ((99, ("Paid", inputs_of event_fields)) ∷ []) refl paid fields-AllFitted five-Topics six-Data
