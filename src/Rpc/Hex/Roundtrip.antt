-- ===== src/Rpc/Hex/Roundtrip.antt =====
-- boa/rpc.py: reading a hex text gives back the number or the bytes that it was written from.
use titanoboa.Prelude.{
  ℕ, zero, suc, ◌+◌, ◌*◌, ◌/◌, ◌%◌, ◌<◌, ◌≡◌, refl, sym, ap, ◌∙◌, inl, inr, [], ◌∷◌, ◌++◌, arith,
  ltb, Bool-cases, ltb→lt, nat_eq, string_eq, bytes_eq, pair_eq,
}
use titanoboa.Prelude.Result.{ok, ◌>>=◌, Result-cases}
use titanoboa.Prelude.Bytes.{Bytes, IsBytes}
use titanoboa.Rpc.Hex.{
  number, int_16, py_bytes, py_int, to_bytes, from_hex, to_int, bytes_hex, to_hex, parse_digits,
  digit_value, Text, hex, digits, digit,
}

digit_value-digit : (d : ℕ) → d < 16 → digit_value (digit d) ≡ ok d
unfolding digit_value digit
digit_value-digit d h = ground arith

parse_digits-append :
    (s t : Text) (acc : ℕ)
    → parse_digits acc (s ++ t) ≡ (parse_digits acc s >>= λ n. parse_digits n t)
unfolding parse_digits
parse_digits-append [] t acc = refl
parse_digits-append (c ∷ s) t acc = elim (Result-cases (digit_value c)) [
  | inl (d, e) ↦ rw (e, parse_digits) (parse_digits-append s t (acc * 16 + d))
  | inr (x, e) ↦ rw (e, parse_digits)
]

parse_digits-one : (acc d : ℕ) → d < 16 → parse_digits acc (digit d ∷ []) ≡ ok (acc * 16 + d)
unfolding parse_digits
parse_digits-one acc d h = rw (digit_value-digit d h)

parse_digits-digits : (fuel n : ℕ) → n < fuel → parse_digits 0 (digits fuel n) ≡ ok n
unfolding digits
parse_digits-digits zero n h = absurd (omega arith)
parse_digits-digits (suc fuel) n h = elim (Bool-cases (ltb n 16)) [
  | inl small ↦ rw (digits, small) (parse_digits-one 0 n (ltb→lt n 16 small) ∙ ap ok (omega arith))
  | inr large ↦
      let start = parse_digits-digits fuel (n / 16) (ground arith) in
      rw (digits, large, parse_digits-append (digits fuel (n / 16)) (digit (n % 16) ∷ []) 0, start)
        (parse_digits-one (n / 16) (n % 16) (omega arith) ∙ ap ok (omega arith))
]

-- a text with a last character has a first one
Cons : Text → Type 0
Cons s = (c : ℕ) × (rest : Text) × (s ≡ c ∷ rest)

snoc-Cons : (s : Text) (c : ℕ) → Cons (s ++ c ∷ [])
unfolding Cons
snoc-Cons [] c = (c, [], refl)
snoc-Cons (d ∷ s) c = (d, s ++ c ∷ [], refl)

digits-Cons : (fuel n : ℕ) → Cons (digits (suc fuel) n)
unfolding digits
digits-Cons fuel n = elim (Bool-cases (ltb n 16)) [
  | inl small ↦ rw (digits, small) (snoc-Cons [] (digit n))
  | inr large ↦ rw (digits, large) (snoc-Cons (digits fuel (n / 16)) (digit (n % 16)))
]

-- Reading the hex text of a number gives the number.
pub to_int-to_hex : (n : ℕ) → (to_hex (py_int n) >>= to_int) ≡ ok n
unfolding to_hex hex to_int int_16 number Cons
to_int-to_hex n =
    let (c, s, e) = digits-Cons n n in
    let read : parse_digits 0 (c ∷ s) ≡ ok n =
      rw (sym e) (parse_digits-digits (suc n) n (omega arith)) in
    rw e read

from_hex-bytes_hex : (b : Bytes) → IsBytes b → from_hex (bytes_hex b) ≡ ok b
unfolding bytes_hex from_hex
from_hex-bytes_hex [] h = refl
from_hex-bytes_hex (x ∷ b) (small, rest) =
    rw
      (
        digit_value-digit (x / 16) (omega arith),
        digit_value-digit (x % 16) (omega arith),
        from_hex-bytes_hex b rest,
      )
      (ap (λ y. ok (y ∷ b)) (omega arith))

-- Reading the hex text of bytes gives the bytes.
pub to_bytes-to_hex : (b : Bytes) → IsBytes b → (to_hex (py_bytes b) >>= to_bytes) ≡ ok b
unfolding to_hex to_bytes
to_bytes-to_hex b h = from_hex-bytes_hex b h
