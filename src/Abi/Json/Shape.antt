-- ===== src/Abi/Json/Shape.antt =====
-- `_parse_complex` adds field names and changes no value.
use titanoboa.Prelude.{
  ℕ, zero, suc, ◌≡◌, refl, sym, ap, ◌∙◌, true, false, nat_eq, string_eq, bytes_eq, pair_eq, String,
  List, [], ◌∷◌,
}
use titanoboa.Prelude.Result.{Result, ok, ◌>>=◌, ok-injective}
use titanoboa.Prelude.Bytes.{starts_with}
use titanoboa.Abi.Json.{
  named_tuple, type_name, fills, field_names, is_typename, AbiItem, Items, Value, Values,
  parse_complex, parse_items, go, for_all, elements, count, bracket, tuple_prefix, JsonError,
  simple, complex, no_items, item_then, atom, sequence, struct, no_values, value_then, names_of,
}

unfoldable mutual
  -- a value without the names of its fields
  pub plain : Value → Value
  plain (atom b) = atom b
  plain (sequence vs) = sequence (plain_all vs)
  plain (struct names vs) = sequence (plain_all vs)

  pub plain_all : Values → Values
  plain_all no_values = no_values
  plain_all (value_then v vs) = value_then (plain v) (plain_all vs)

abbrev pub AllFit : (Value → Type 0) → Values → Type 0
AllFit P no_values = Unit
AllFit P (value_then v vs) = P v × AllFit P vs

-- lists nested to a depth, with values that fit below
abbrev pub FitsDeep : (Values → Type 0) → ℕ → Value → Type 0
FitsDeep P zero v = (vs : Values) × (elements v ≡ ok vs) × P vs
FitsDeep P (suc depth) v = (vs : Values) × (elements v ≡ ok vs) × AllFit (FitsDeep P depth) vs

unfoldable mutual
  -- the values that the decoder gives for an item: a tuple has a value for each component, and a name
  -- that a Python type can have
  pub Fits : AbiItem → Value → Type 0
  Fits (simple name type_text) v = Unit
  Fits (complex name type_text components) v =
      (starts_with type_text tuple_prefix ≡ true)
      × (is_typename (type_name name) ≡ true)
      × FitsDeep (FitItems components) (count bracket type_text) v

  pub FitItems : Items → Values → Type 0
  FitItems no_items no_values = Unit
  FitItems (item_then item items) (value_then v vs) = Fits item v × FitItems items vs
  FitItems _ _ = false ≡ true

plain-elements : (v : Value) (vs : Values) → elements v ≡ ok vs → plain v ≡ sequence (plain_all vs)
unfolding plain
plain-elements (atom b) vs h = cc
plain-elements (sequence ws) vs h = ap (λ x. sequence (plain_all x)) (ok-injective h)
plain-elements (struct names ws) vs h = ap (λ x. sequence (plain_all x)) (ok-injective h)

-- values in pairs
abbrev pub Pairs : (Value → Value → Type 0) → Values → Values → Type 0
Pairs R no_values no_values = Unit
Pairs R (value_then v vs) (value_then x xs) = R v x × Pairs R vs xs
Pairs R _ _ = false ≡ true

-- lists nested to a depth, with a relation below
abbrev pub Deep : (Values → Value → Type 0) → ℕ → Value → Value → Type 0
Deep R zero v x = (vs : Values) × (elements v ≡ ok vs) × R vs x
Deep R (suc depth) v x =
    (vs : Values) × (xs : Values) × (elements v ≡ ok vs)
    × (x ≡ sequence xs)
    × Pairs (Deep R depth) vs xs

unfoldable mutual
  -- a value with the names of an item: each tuple is a named tuple of the item's component names, as
  -- `namedtuple` takes them, below as many lists as the type has brackets
  pub Labels : AbiItem → Value → Value → Type 0
  Labels (simple name type_text) v x = x ≡ v
  Labels (complex name type_text components) v x =
      Deep
        (λ vs y.
          (xs : Values) × (y ≡ struct (field_names [] (names_of components)) xs)
          × LabelItems components vs xs)
        (count bracket type_text) v x

  pub LabelItems : Items → Values → Values → Type 0
  LabelItems no_items no_values no_values = Unit
  LabelItems (item_then item items) (value_then v vs) (value_then x xs) =
      Labels item v x × LabelItems items vs xs
  LabelItems _ _ _ = false ≡ true

-- a result that differs from a value in its names alone, and is as `L` tells
abbrev pub Renames : Result JsonError Value → Value → (Value → Type 0) → Type 0
Renames r v L = (x : Value) × (r ≡ ok x) × (plain x ≡ plain v) × L x

for_all_lem :
    (f : Value → Result JsonError Value) (P : Value → Type 0) (R : Value → Value → Type 0)
    (vs : Values)
    → ((v : Value) → P v → Renames (f v) v (R v))
    → AllFit P vs
    → (xs : Values) × (for_all f vs ≡ ok xs) × (plain_all xs ≡ plain_all vs) × Pairs R vs xs
unfolding for_all plain
for_all_lem f P R no_values each h = (no_values, refl, refl, tt)
for_all_lem f P R (value_then v vs) each h =
    let (x, e, p, l) = each v h.0 in
    let (xs, es, ps, ls) = for_all_lem f P R vs each h.1 in
    (value_then x xs, rw (e, es), cc (p, ps), (l, ls))

go_lem :
    (leaf : Values → Result JsonError Value) (P : Values → Type 0) (R : Values → Value → Type 0)
    (depth : ℕ) (v : Value)
    → ((vs : Values) → P vs → Renames (leaf vs) (sequence vs) (R vs))
    → FitsDeep P depth v
    → Renames (go leaf depth v) v (Deep R depth v)
unfolding go plain
go_lem leaf P R zero v each (vs, e, p) =
    let (x, r, q, l) = each vs p in (x, rw (e, r), q ∙ sym (plain-elements v vs e), (vs, e, l))
go_lem leaf P R (suc depth) v each (vs, e, p) =
    let (xs, r, q, ls) =
      for_all_lem (go leaf depth) (FitsDeep P depth) (Deep R depth) vs
        (λ w h. go_lem leaf P R depth w each h) p in
    (sequence xs, rw (e, r), ap sequence q ∙ sym (plain-elements v vs e), (vs, xs, e, refl, ls))

LabelItems-fills :
    (seen : List String) (items : Items) (vs xs : Values)
    → LabelItems items vs xs
    → fills (field_names seen (names_of items)) xs ≡ true
unfolding Labels fills field_names names_of
LabelItems-fills seen no_items no_values no_values h = refl
LabelItems-fills seen (item_then (simple name t) items) (value_then v vs) (value_then x xs) h =
    LabelItems-fills (name ∷ seen) items vs xs h.1
LabelItems-fills seen (item_then (complex name t c) items) (value_then v vs) (value_then x xs) h =
    LabelItems-fills (name ∷ seen) items vs xs h.1
LabelItems-fills seen no_items no_values (value_then x xs) h = cc h
LabelItems-fills seen no_items (value_then v vs) xs h = cc h
LabelItems-fills seen (item_then i items) no_values xs h = cc h
LabelItems-fills seen (item_then i items) (value_then v vs) no_values h = cc h

mutual
  unfolding parse_complex Fits plain Labels

  parse_complex-Fits :
      (item : AbiItem) (v : Value) → Fits item v → Renames (parse_complex item v) v (Labels item v)
  parse_complex-Fits (simple name type_text) v h = (v, refl, refl, refl)
  parse_complex-Fits (complex name type_text components) v h =
      let fields = field_names [] (names_of components) in
      let (x, e, p, l) =
        go_lem (λ vs. parse_items components vs >>= named_tuple fields) (FitItems components)
          (λ vs y. (xs : Values) × (y ≡ struct fields xs) × LabelItems components vs xs)
          (count bracket type_text) v
          (λ vs g.
            let (xs, r, q, ls) = parse_items-Fits components vs g in
            (
              struct fields xs,
              rw (r, LabelItems-fills [] components vs xs ls) refl,
              ap sequence q,
              (xs, refl, ls),
            ))
          h.2 in
      (x, rw (h.0, h.1, e), p, l)

  parse_items-Fits :
      (items : Items) (vs : Values)
      → FitItems items vs
      → (xs : Values) × (parse_items items vs ≡ ok xs)
        × (plain_all xs ≡ plain_all vs)
        × LabelItems items vs xs
  parse_items-Fits no_items no_values h = (no_values, refl, refl, tt)
  parse_items-Fits (item_then item items) (value_then v vs) h =
      let (x, e, p, l) = parse_complex-Fits item v h.0 in
      let (xs, es, ps, ls) = parse_items-Fits items vs h.1 in
      (value_then x xs, rw (e, es), cc (p, ps), (l, ls))
  parse_items-Fits no_items (value_then v vs) h = cc
  parse_items-Fits (item_then item items) no_values h = cc

-- A value that fits its item, whose tuples have names that Python types can have, is parsed without
-- an error, at whatever depth of lists and tuples: each tuple of the result has the component names of
-- its item, as far as fields can have them, and the result differs from the value in nothing else.
pub parse_complex-Renames :
    (item : AbiItem) (v : Value) → Fits item v → Renames (parse_complex item v) v (Labels item v)
parse_complex-Renames item v h = parse_complex-Fits item v h
