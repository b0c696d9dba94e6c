-- ===== src/Decoder/Object.antt =====
-- `decode_vyper_object` of boa/contracts/vyper/decoder_utils.py. What it calls in Vyper and
-- eth_utils, and the decoding of UTF-8, are the operations of `Vyper`.
pub mod Bounded
use titanoboa.Prelude.{
  ℕ, zero, suc, ◌+◌, String, Bool, true, false, not, List, [], ◌∷◌, arith, ltb, nat_beq,
  if◌then◌else◌, take, nat_eq, string_eq, bytes_eq, pair_eq,
}
use titanoboa.Prelude.Result.{Result, ok, ◌>>=◌, ◌>>◌}
use titanoboa.Prelude.Bytes.{Bytes, slice, from_bytes}
use titanoboa.Prelude.Int.{ℤ, pos, int_eq}

mutual
  -- the types of vyper.semantics that have a decoder; a member has its name
  pub data VyType : Type 0 where
    bytes_m_t bytes_t string_t : ℕ → VyType
    address_t bool_t : VyType
    integer_t : Bool → VyType
    sarray_t darray_t : ℕ → VyType → VyType
    struct_t : String → Members → VyType
    tuple_t : Members → VyType

  pub data Members : Type 0 where
    no_members : Members
    member_then : String → VyType → Members → Members

mutual
  pub data VyValue : Type 0 where
    bytes_v : Bytes → VyValue
    text_v : String → VyValue
    bool_v : Bool → VyValue
    integer_v : ℤ → VyValue
    list_v tuple_v : VyValues → VyValue
    -- with its name and those of its members, which differ
    struct_v : String → List String → VyValues → VyValue

  pub data VyValues : Type 0 where
    no_values : VyValues
    value_then : VyValue → VyValues → VyValues

pub data DecodeError : Type 0 where
  unicode_decode_error : DecodeError

pub record Vyper : Type 0 where
  pub memory_bytes_required : VyType → ℕ
  pub unsigned_to_signed : ℕ → ℤ
  pub to_checksum_address : Bytes → String
  pub decode_utf8 : Bytes → Result DecodeError String

-- `_get_length`: a length that is no length of the type is garbage, and is cut to the bound
unfoldable pub get_length : Bytes → ℕ → ℕ
get_length mem bound = let ret = from_bytes (take 32 mem) in if ltb bound ret then bound else ret

abbrev pub member_names : Members → List String
member_names no_members = []
member_names (member_then name t members) = name ∷ member_names members

-- the loop of an array, with the rounds left and the offset
unfoldable pub decode_each :
    (Bytes → Result DecodeError VyValue) → ℕ → ℕ → ℕ → Bytes → Result DecodeError VyValues
decode_each decode n zero ofst mem = ok no_values
decode_each decode n (suc rounds) ofst mem = do
  v ← decode (slice mem ofst (ofst + n))
  vs ← decode_each decode n rounds (ofst + n) mem
  ok (value_then v vs)

module _ (vyper : Vyper) where
  open vyper use {memory_bytes_required, unsigned_to_signed, to_checksum_address, decode_utf8}

  unfoldable mutual
    pub decode_vyper_object : VyType → Bytes → Result DecodeError VyValue
    decode_vyper_object (bytes_m_t m) mem = ok (bytes_v (take m mem))
    decode_vyper_object address_t mem = ok (text_v (to_checksum_address (slice mem 12 32)))
    decode_vyper_object bool_t mem = ok (bool_v (not (nat_beq (from_bytes (slice mem 31 32)) 0)))
    decode_vyper_object (integer_t true) mem =
        ok (integer_v (unsigned_to_signed (from_bytes (take 32 mem))))
    decode_vyper_object (integer_t false) mem = ok (integer_v (pos (from_bytes (take 32 mem))))
    decode_vyper_object (bytes_t bound) mem =
        ok (bytes_v (slice mem 32 (32 + get_length (take 32 mem) bound)))
    decode_vyper_object (string_t bound) mem =
        decode_utf8 (slice mem 32 (32 + get_length (take 32 mem) bound)) >>= λ s. ok (text_v s)
    decode_vyper_object (sarray_t count t) mem =
        decode_each (decode_vyper_object t) (memory_bytes_required t) count 0 mem >>= λ vs.
        ok (list_v vs)
    decode_vyper_object (darray_t bound t) mem =
        decode_each (decode_vyper_object t) (memory_bytes_required t)
          (get_length (take 32 mem) bound) 32 mem
        >>= λ vs. ok (list_v vs)
    decode_vyper_object (struct_t name members) mem =
        decode_members members 0 mem >>= λ vs. ok (struct_v name (member_names members) vs)
    decode_vyper_object (tuple_t members) mem =
        decode_members members 0 mem >>= λ vs. ok (tuple_v vs)

    pub decode_members : Members → ℕ → Bytes → Result DecodeError VyValues
    decode_members no_members ofst mem = ok no_values
    decode_members (member_then name t members) ofst mem =
        decode_vyper_object t (slice mem ofst (ofst + memory_bytes_required t)) >>= λ v.
        decode_members members (ofst + memory_bytes_required t) mem >>= λ vs. ok (value_then v vs)
