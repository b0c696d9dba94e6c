-- ===== src/Rpc/Hex.antt =====
-- boa/rpc.py: the conversions between Python values and the hex texts of JSON-RPC. A text is its
-- code points; the texts of a node have no sign, space or underscore in a number.
pub mod Roundtrip
use titanoboa.Prelude.{
  bytes_beq, ℕ, zero, suc, ◌+◌, ◌-◌, ◌*◌, ◌/◌, ◌%◌, String, Bool, true, false, ◌&&◌, not, List, [],
  ◌∷◌, ◌++◌, arith, ltb, leb, nat_beq, if◌then◌else◌, nat_eq, string_eq, bytes_eq, pair_eq,
}
use titanoboa.Prelude.Dict.{Dict}
use titanoboa.Prelude.Result.{Result, ok, err, ◌>>=◌, ◌>>◌, guard}
use titanoboa.Prelude.Bytes.{remove_prefix, starts_with, Bytes}
use Prim.Native.Char.{code}

abbrev pub Text : Type 0
Text = List ℕ

-- the code points of a literal
abbrev pub codes : String → Text
codes String.[] = []
codes (String.◌∷◌ c s) = code c ∷ codes s

pub data HexError : Type 0 where
  value_error type_error assertion_error : HexError

-- the values that a request is made from
pub data PyValue : Type 0 where
  py_none : PyValue
  py_int : ℕ → PyValue
  py_bytes : Bytes → PyValue
  py_str : Text → PyValue

abbrev pub hex_prefix : Text
hex_prefix = codes "0x"

unfoldable pub digit : ℕ → ℕ
digit d = if ltb d 10 then b'0' + d else (b'a' - 10) + d

unfoldable pub digit_value : ℕ → Result HexError ℕ
digit_value c =
    if leb b'0' c && leb c b'9'
    then ok (c - b'0')
    else if leb b'a' c && leb c b'f'
    then ok (c - (b'a' - 10))
    else if leb b'A' c && leb c b'F'
    then ok (c - (b'A' - 10))
    else err value_error

-- the digits of a number, the most significant one first; one more step than the number is enough
unfoldable pub digits : ℕ → ℕ → Text
digits zero n = []
digits (suc fuel) n = elim (ltb n 16) [
  | true ↦ digit n ∷ []
  | false ↦ digits fuel (n / 16) ++ digit (n % 16) ∷ []
]

-- `hex(n)`
unfoldable pub hex : ℕ → Text
hex n = hex_prefix ++ digits (suc n) n

-- `b.hex()`
unfoldable pub bytes_hex : Bytes → Text
bytes_hex [] = []
bytes_hex (x ∷ b) = digit (x / 16) ∷ (digit (x % 16) ∷ bytes_hex b)

unfoldable pub to_hex : PyValue → Result HexError Text
unfolding hex bytes_hex
to_hex py_none = err type_error
to_hex (py_int n) = ok (hex n)
to_hex (py_bytes b) = ok (hex_prefix ++ bytes_hex b)
to_hex (py_str s) = do guard (starts_with s hex_prefix) assertion_error; ok s

-- the value of digits, with what is read so far
unfoldable pub parse_digits : ℕ → Text → Result HexError ℕ
parse_digits acc [] = ok acc
parse_digits acc (c ∷ s) = do d ← digit_value c; parse_digits (acc * 16 + d) s

-- a number has at least one digit
unfoldable pub number : Text → Result HexError ℕ
number [] = err value_error
number (c ∷ s) = parse_digits 0 (c ∷ s)

-- `int(s, 16)`
unfoldable pub int_16 : Text → Result HexError ℕ
int_16 s = number (remove_prefix s hex_prefix)

unfoldable pub to_int : Text → Result HexError ℕ
to_int s = if bytes_beq s hex_prefix then ok 0 else int_16 s

-- `bytes.fromhex(s)`
unfoldable pub from_hex : Text → Result HexError Bytes
from_hex [] = ok []
from_hex (c ∷ []) = err value_error
from_hex (c ∷ (c' ∷ s)) = do
  d ← digit_value c
  d' ← digit_value c'
  rest ← from_hex s
  ok ((d * 16 + d') ∷ rest)

unfoldable pub to_bytes : Text → Result HexError Bytes
to_bytes s = from_hex (remove_prefix s hex_prefix)

-- `bool(v)`
unfoldable pub truthy : PyValue → Bool
truthy py_none = false
truthy (py_int n) = not (nat_beq n 0)
truthy (py_bytes b) = not (bytes_beq b [])
truthy (py_str s) = not (bytes_beq s [])

unfoldable pub trim_dict : Dict String PyValue → Dict String PyValue
trim_dict [] = []
trim_dict ((k, v) ∷ kv) = if truthy v then (k, v) ∷ trim_dict kv else trim_dict kv

-- the comprehension over what is left
unfoldable pub to_hex_each : Dict String PyValue → Result HexError (Dict String Text)
to_hex_each [] = ok []
to_hex_each ((k, v) ∷ kv) = do s ← to_hex v; rest ← to_hex_each kv; ok ((k, s) ∷ rest)

unfoldable pub fixup_dict : Dict String PyValue → Result HexError (Dict String Text)
fixup_dict kv = to_hex_each (trim_dict kv)
