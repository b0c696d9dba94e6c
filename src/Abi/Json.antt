-- ===== src/Abi/Json.antt =====
-- `_abi_from_json`, `_format_abi_type` and `_parse_complex` of boa/contracts/abi/abi_contract.py.
-- Text is a list of code points.
pub mod Shape
use titanoboa.Prelude.{
  ℕ, zero, suc, String, List, [], ◌∷◌, ◌++◌, nat_beq, if◌then◌else◌, drop, nat_eq, string_eq,
  bytes_eq, pair_eq, ◌+◌, arith, Bool, true, false, ◌&&◌, ◌||◌, not, Option, none, some, leb, ◌==◌,
}
use titanoboa.Prelude.Result.{Result, ok, err, ◌>>=◌, ◌>>◌, guard}
use titanoboa.Prelude.Bytes.{starts_with, Bytes}
use titanoboa.Rpc.Hex.{codes}

abbrev pub Text : Type 0
Text = Bytes

pub data JsonError : Type 0 where
  value_error assertion not_iterable type_error : JsonError

mutual
  -- an item with its name and type, and its components if it has any
  pub data AbiItem : Type 0 where
    simple : String → Text → AbiItem
    complex : String → Text → Items → AbiItem

  pub data Items : Type 0 where
    no_items : Items
    item_then : AbiItem → Items → Items

mutual
  -- a decoded value: an int, bytes, bool, string or address by its bytes, a tuple or list, or a
  -- named tuple with its field names, where none stands for `_i` at index `i`
  pub data Value : Type 0 where
    atom : Bytes → Value
    sequence : Values → Value
    struct : List (Option String) → Values → Value

  pub data Values : Type 0 where
    no_values : Values
    value_then : Value → Values → Values

-- the texts "tuple", "[", ",", "(" and ")"
abbrev pub tuple_prefix : Text
tuple_prefix = 0x74 ∷ 0x75 ∷ 0x70 ∷ 0x6c ∷ 0x65 ∷ []

abbrev pub bracket : ℕ
bracket = 0x5b

abbrev comma : ℕ
comma = 0x2c

abbrev in_parentheses : Text → Text
in_parentheses t = (0x28 ∷ []) ++ (t ++ 0x29 ∷ [])

-- `",".join(parts)`
unfoldable pub join : List Text → Text
join [] = []
join (part ∷ []) = part
join (part ∷ (next ∷ parts)) = part ++ comma ∷ join (next ∷ parts)

abbrev tuple_schema : Text → Text → Result JsonError Text
tuple_schema type_text components =
    if starts_with type_text tuple_prefix
    then ok (in_parentheses components ++ drop 5 type_text)
    else err value_error

unfoldable mutual
  pub abi_from_json : AbiItem → Result JsonError Text
  abi_from_json (simple name type_text) = ok type_text
  abi_from_json (complex name type_text components) =
      abi_from_items components >>= λ texts. tuple_schema type_text (join texts)

  pub abi_from_items : Items → Result JsonError (List Text)
  abi_from_items no_items = ok []
  abi_from_items (item_then item items) =
      abi_from_json item >>= λ text. abi_from_items items >>= λ texts. ok (text ∷ texts)

-- of a list of schemas
unfoldable pub format_abi_type : List Text → Text
format_abi_type types = in_parentheses (join types)

-- `text.count(c)`
unfoldable pub count : ℕ → Text → ℕ
count c [] = 0
count c (x ∷ text) = let rest = count c text in if nat_beq x c then suc rest else rest

unfoldable pub names_of : Items → List String
names_of no_items = []
names_of (item_then (simple name _) items) = name ∷ names_of items
names_of (item_then (complex name _ _) items) = name ∷ names_of items

-- `str.isidentifier` of a name in ASCII
abbrev is_letter : ℕ → Bool
is_letter c = (leb 0x41 c && leb c 0x5a) || ((leb 0x61 c && leb c 0x7a) || nat_beq c 0x5f)

abbrev continues : Text → Bool
continues [] = true
continues (c ∷ cs) = (is_letter c || (leb 0x30 c && leb c 0x39)) && continues cs

abbrev is_identifier : Text → Bool
is_identifier [] = false
is_identifier (c ∷ cs) = is_letter c && continues cs

abbrev is_in : String → List String → Bool
is_in x [] = false
is_in x (y ∷ ys) = if y == x then true else is_in x ys

abbrev keywords : List String
keywords =
    "False" ∷ "None" ∷ "True" ∷ "and" ∷ "as" ∷ "assert" ∷ "async" ∷ "await" ∷ "break" ∷ "class"
    ∷ "continue" ∷ "def" ∷ "del" ∷ "elif" ∷ "else" ∷ "except" ∷ "finally" ∷ "for" ∷ "from"
    ∷ "global" ∷ "if" ∷ "import" ∷ "in" ∷ "is" ∷ "lambda" ∷ "nonlocal" ∷ "not" ∷ "or" ∷ "pass"
    ∷ "raise" ∷ "return" ∷ "try" ∷ "while" ∷ "with" ∷ "yield" ∷ []

-- a name that `namedtuple` takes for a type, and else raises a ValueError
unfoldable pub is_typename : String → Bool
is_typename name = is_identifier (codes name) && not (is_in name keywords)

abbrev is_private : Text → Bool
is_private [] = false
is_private (c ∷ cs) = nat_beq c 0x5f

-- `namedtuple(..., rename=True)`: a name that it does not take for a field, or that stood before, is
-- replaced by one from its index
unfoldable pub field_names : List String → List String → List (Option String)
field_names seen [] = []
field_names seen (name ∷ names) =
    (if is_typename name && (not (is_private (codes name)) && not (is_in name seen))
      then some name
      else none)
    ∷ field_names (name ∷ seen) names

-- `abi["name"] or "user_struct"`
abbrev pub type_name : String → String
type_name name = if name == "" then "user_struct" else name

-- a value for each field, as a named tuple takes them
unfoldable pub fills : List (Option String) → Values → Bool
fills [] no_values = true
fills (_ ∷ fields) (value_then _ vs) = fills fields vs
fills _ _ = false

abbrev pub named_tuple : List (Option String) → Values → Result JsonError Value
named_tuple fields vs = guard (fills fields vs) type_error >> ok (struct fields vs)

-- what iterating over a value gives
abbrev pub elements : Value → Result JsonError Values
elements (atom _) = err not_iterable
elements (sequence vs) = ok vs
elements (struct _ vs) = ok vs

unfoldable pub for_all : (Value → Result JsonError Value) → Values → Result JsonError Values
for_all f no_values = ok no_values
for_all f (value_then v vs) = f v >>= λ x. for_all f vs >>= λ xs. ok (value_then x xs)

-- `_go`, with what it does at depth 0
unfoldable pub go : (Values → Result JsonError Value) → ℕ → Value → Result JsonError Value
go leaf zero val = elements val >>= leaf
go leaf (suc depth) val =
    elements val >>= λ vs. for_all (go leaf depth) vs >>= λ xs. ok (sequence xs)

unfoldable mutual
  pub parse_complex : AbiItem → Value → Result JsonError Value
  parse_complex (simple name type_text) value = ok value
  parse_complex (complex name type_text components) value =
      guard (starts_with type_text tuple_prefix) assertion
      >> guard (is_typename (type_name name)) value_error
      >> go (λ vs. parse_items components vs >>= named_tuple (field_names [] (names_of components)))
          (count bracket type_text) value

  -- `zip(components, tuple_vals)`
  pub parse_items : Items → Values → Result JsonError Values
  parse_items (item_then item items) (value_then v vs) =
      parse_complex item v >>= λ x. parse_items items vs >>= λ xs. ok (value_then x xs)
  parse_items _ _ = ok no_values
