-- ===== src/Decoder/Object/Bounded.antt =====
-- What is decoded stays within the bounds of its type, also from garbage.
use titanoboa.Prelude.{
  ℕ, zero, suc, ◌+◌, ◌-◌, ◌≤◌, ◌≡◌, refl, ap, inl, inr, true, false, List, [], ◌∷◌, arith, length,
  take, drop, nat_eq, string_eq, bytes_eq, pair_eq,
}
use titanoboa.Prelude.Result.{Result, ok, ok-injective, Result-cases}
use titanoboa.Prelude.Bytes.{Bytes, slice}
use titanoboa.Decoder.Object.{
  VyType, Members, VyValue, VyValues, DecodeError, Vyper, get_length, decode_each,
  decode_vyper_object, decode_members, bytes_m_t, bytes_t, string_t, address_t, bool_t, integer_t,
  sarray_t, darray_t, struct_t, tuple_t, no_members, member_then, bytes_v, text_v, bool_v,
  integer_v, list_v, tuple_v, struct_v, no_values, value_then,
}
use mathlib.Core.Path.{subst}

abbrev pub size : VyValues → ℕ
size no_values = 0
size (value_then v vs) = suc (size vs)

abbrev pub Each : (VyValue → Type 0) → VyValues → Type 0
Each P no_values = Unit
Each P (value_then v vs) = P v × Each P vs

unfoldable mutual
  -- the value has the form of the type, and its byte strings and lists are no longer than it says
  pub HasType : VyType → VyValue → Type 0
  HasType (bytes_m_t m) (bytes_v b) = length b ≤ m
  HasType (bytes_t bound) (bytes_v b) = length b ≤ bound
  HasType (string_t bound) (text_v s) = Unit
  HasType address_t (text_v s) = Unit
  HasType bool_t (bool_v b) = Unit
  HasType (integer_t signed) (integer_v n) = Unit
  HasType (sarray_t count t) (list_v vs) = (size vs ≡ count) × Each (HasType t) vs
  HasType (darray_t bound t) (list_v vs) = (size vs ≤ bound) × Each (HasType t) vs
  HasType (struct_t name members) (struct_v name' names vs) = (name' ≡ name) × HasMembers members vs
  HasType (tuple_t members) (tuple_v vs) = HasMembers members vs
  HasType _ _ = false ≡ true

  pub HasMembers : Members → VyValues → Type 0
  HasMembers no_members no_values = Unit
  HasMembers (member_then name t members) (value_then v vs) = HasType t v × HasMembers members vs
  HasMembers _ _ = false ≡ true

length-take_le {ℓ} : {A : Type ℓ} (n : ℕ) (xs : List A) → length (take n xs) ≤ n
length-take_le zero xs = omega arith
length-take_le (suc n) [] = omega arith
length-take_le (suc n) (x ∷ xs) = omega (arith, length-take_le n xs)

get_length-le : (mem : Bytes) (bound : ℕ) → get_length mem bound ≤ bound
unfolding get_length
get_length-le mem bound = ground arith

slice-le : (mem : Bytes) (n : ℕ) → length (slice mem 32 (32 + n)) ≤ n
slice-le mem n = omega (arith, length-take_le (32 + n - 32) (drop 32 mem))

decode_each-Each :
    (decode : Bytes → Result DecodeError VyValue) (P : VyValue → Type 0) (n rounds ofst : ℕ)
    (mem : Bytes) (vs : VyValues)
    → ((b : Bytes) (v : VyValue) → decode b ≡ ok v → P v)
    → decode_each decode n rounds ofst mem ≡ ok vs
    → (size vs ≡ rounds) × Each P vs
unfolding decode_each
decode_each-Each decode P n zero ofst mem vs each h =
    subst (λ x. (size x ≡ 0) × Each P x) (ok-injective h) (refl, tt)
decode_each-Each decode P n (suc rounds) ofst mem vs each h =
    elim (Result-cases (decode (slice mem ofst (ofst + n)))) [
      | inr (x, e) ↦ absurd (ground arith)
      | inl (v, e) ↦ elim (Result-cases (decode_each decode n rounds (ofst + n) mem)) [
        | inr (x, f) ↦ absurd (ground arith)
        | inl (ws, f) ↦
            let (l, p) = decode_each-Each decode P n rounds (ofst + n) mem ws each f in
            subst (λ x. (size x ≡ suc rounds) × Each P x) (ok-injective (rw (e, f) at h))
              (ap suc l, (each (slice mem ofst (ofst + n)) v e, p))
      ]
    ]

module _ (vyper : Vyper) where
  mutual
    unfolding decode_vyper_object HasType

    decode-HasType :
        (t : VyType) (mem : Bytes) (v : VyValue)
        → decode_vyper_object vyper t mem ≡ ok v
        → HasType t v
    decode-HasType (bytes_m_t m) mem v h =
        subst (HasType (bytes_m_t m)) (ok-injective h) (length-take_le m mem)
    decode-HasType address_t mem v h = subst (HasType address_t) (ok-injective h) tt
    decode-HasType bool_t mem v h = subst (HasType bool_t) (ok-injective h) tt
    decode-HasType (integer_t true) mem v h = subst (HasType (integer_t true)) (ok-injective h) tt
    decode-HasType (integer_t false) mem v h = subst (HasType (integer_t false)) (ok-injective h) tt
    decode-HasType (bytes_t bound) mem v h =
        let n = get_length (take 32 mem) bound in
        let l : length (slice mem 32 (32 + n)) ≤ bound =
          omega (arith, slice-le mem n, get_length-le (take 32 mem) bound) in
        subst (HasType (bytes_t bound)) (ok-injective h) l
    decode-HasType (string_t bound) mem v h =
        let text = vyper.decode_utf8 (slice mem 32 (32 + get_length (take 32 mem) bound)) in
        elim (Result-cases text) [
          | inr (x, e) ↦ absurd (ground arith)
          | inl (s, e) ↦ subst (HasType (string_t bound)) (ok-injective (rw e at h)) tt
        ]
    decode-HasType (sarray_t count t) mem v h =
        let n = vyper.memory_bytes_required t in
        elim (Result-cases (decode_each (decode_vyper_object vyper t) n count 0 mem)) [
          | inr (x, e) ↦ absurd (ground arith)
          | inl (vs, e) ↦ subst (HasType (sarray_t count t)) (ok-injective (rw e at h)) (
              decode_each-Each (decode_vyper_object vyper t) (HasType t) n count 0 mem vs
                (λ b w g. decode-HasType t b w g) e)
        ]
    decode-HasType (darray_t bound t) mem v h =
        let n = vyper.memory_bytes_required t in
        let l = get_length (take 32 mem) bound in
        elim (Result-cases (decode_each (decode_vyper_object vyper t) n l 32 mem)) [
          | inr (x, e) ↦ absurd (ground arith)
          | inl (vs, e) ↦
              let (s, p) =
                decode_each-Each (decode_vyper_object vyper t) (HasType t) n l 32 mem vs
                  (λ b w g. decode-HasType t b w g) e in
              subst (HasType (darray_t bound t)) (ok-injective (rw e at h))
                (omega (arith, s, get_length-le (take 32 mem) bound), p)
        ]
    decode-HasType (struct_t name members) mem v h =
        elim (Result-cases (decode_members vyper members 0 mem)) [
          | inr (x, e) ↦ absurd (ground arith)
          | inl (vs, e) ↦
              subst (HasType (struct_t name members)) (ok-injective (rw e at h))
                (refl, members-HasMembers members 0 mem vs e)
        ]
    decode-HasType (tuple_t members) mem v h =
        elim (Result-cases (decode_members vyper members 0 mem)) [
          | inr (x, e) ↦ absurd (ground arith)
          | inl (vs, e) ↦
              subst (HasType (tuple_t members)) (ok-injective (rw e at h))
                (members-HasMembers members 0 mem vs e)
        ]

    members-HasMembers :
        (members : Members) (ofst : ℕ) (mem : Bytes) (vs : VyValues)
        → decode_members vyper members ofst mem ≡ ok vs
        → HasMembers members vs
    members-HasMembers no_members ofst mem vs h = subst (HasMembers no_members) (ok-injective h) tt
    members-HasMembers (member_then name t members) ofst mem vs h =
        let n = vyper.memory_bytes_required t in
        elim (Result-cases (decode_vyper_object vyper t (slice mem ofst (ofst + n)))) [
          | inr (x, e) ↦ absurd (ground arith)
          | inl (v, e) ↦ elim (Result-cases (decode_members vyper members (ofst + n) mem)) [
            | inr (x, f) ↦ absurd (ground arith)
            | inl (ws, f) ↦
                subst (HasMembers (member_then name t members)) (ok-injective (rw (e, f) at h)) (
                  decode-HasType t (slice mem ofst (ofst + n)) v e,
                  members-HasMembers members (ofst + n) mem ws f,
                )
          ]
        ]

  -- Whatever the memory holds, garbage lengths included, a value that is decoded has the form of its
  -- type, no byte string or list in it is longer than the bound of its type, and a static array has
  -- exactly its count.
  pub decode_vyper_object-HasType :
      (t : VyType) (mem : Bytes) (v : VyValue)
      → decode_vyper_object vyper t mem ≡ ok v
      → HasType t v
  decode_vyper_object-HasType t mem v h = decode-HasType t mem v h
