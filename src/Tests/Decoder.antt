-- ===== src/Tests/Decoder.antt =====
-- boa/contracts/vyper/decoder_utils.py at concrete inputs.
use titanoboa.Prelude.{
  ℕ, ◌+◌, ◌/◌, ◌%◌, ◌≡◌, refl, false, ◌++◌, get_elem?, replicate, length-replicate, nat_eq,
  string_eq, bytes_eq, pair_eq, ◌<◌, length,
}
use titanoboa.Prelude.Result.{ok}
use titanoboa.Prelude.Bytes.{Bytes, from_bytes, to_bytes_be}
use titanoboa.Prelude.Int.{pos, int_eq}
use titanoboa.Decoder.Storage.{get_slice, get_slice-get_elem?}
use titanoboa.Decoder.Object.{
  darray_t, integer_t, Vyper, list_v, value_then, no_values, VyValue, integer_v,
  decode_vyper_object, decode_each, get_length,
}
use titanoboa.Decoder.Object.Bounded.{HasType, decode_vyper_object-HasType}

-- every byte of a slot is the slot's number
abbrev numbered : ℕ → Bytes
numbered i = replicate 32 i

get_slice-get_elem?_example :
    (length (get_slice numbered 4 40 100) ≡ 60)
    × ((j : ℕ)
        → 40 + j < 100
        → get_elem? (get_slice numbered 4 40 100) j
          ≡ get_elem? (numbered (4 + (40 + j) / 32)) ((40 + j) % 32))
get_slice-get_elem?_example = get_slice-get_elem? numbered 4 (λ i. length-replicate 32 i) 40 100

abbrev no_vyper : Vyper
no_vyper = record {
  memory_bytes_required = λ t. 32;
  unsigned_to_signed = λ n. pos n;
  to_checksum_address = λ b. "0x";
  decode_utf8 = λ b. ok "text";
}

-- garbage: a length of 9 for a list of at most 2
abbrev garbage : Bytes
garbage = to_bytes_be 32 9 ++ (to_bytes_be 32 70 ++ to_bytes_be 32 71)

abbrev cut : VyValue
cut = list_v (value_then (integer_v (pos 70)) (value_then (integer_v (pos 71)) no_values))

decodes : decode_vyper_object no_vyper (darray_t 2 (integer_t false)) garbage ≡ ok cut
unfolding decode_vyper_object decode_each get_length from_bytes to_bytes_be
decodes = refl

decode_vyper_object-HasType_example : HasType (darray_t 2 (integer_t false)) cut
decode_vyper_object-HasType_example =
    decode_vyper_object-HasType no_vyper (darray_t 2 (integer_t false)) garbage cut decodes
