-- ===== src/Prelude/Codec.antt =====
-- Big-endian integers of a fixed size: reading inverts writing, in both directions.
use Prim.Native.Nat.{ℕ, zero, suc, ◌+◌, ◌-◌, ◌*◌, ◌/◌, ◌%◌, ◌≤◌, ◌<◌, ◌^◌}
use mathlib.Core.Path.{◌≡◌, refl, ap}
use mathlib.Core.List.{[], ◌∷◌, ◌++◌}
use native.Mathlib.Omega.{arith}
use native.Mathlib.Nat.{
  div-add-mod', mod-lt, pow-suc, div-eq_of_lt-le, div-lt_iff_lt-mul, mul-le-mul_right,
}
use titanoboa.Prelude.Lists.{length, replicate}
use titanoboa.Prelude.Bytes.{Bytes, from_bytes, from_bytes_acc, to_bytes_be, IsBytes, rjust}

pub pow-pos : (k : ℕ) → 0 < 256 ^ k
pow-pos zero = omega arith
pow-pos (suc k) = omega (arith, pow-suc 256 k, pow-pos k)

shift_digit : (acc x p : ℕ) → (acc * 256 + x) * p ≡ acc * (p * 256) + x * p
shift_digit acc x p = omega arith

pub from_bytes_acc-to_bytes_be :
    (k n acc : ℕ) → n < 256 ^ k → from_bytes_acc acc (to_bytes_be k n) ≡ acc * 256 ^ k + n
unfolding to_bytes_be
from_bytes_acc-to_bytes_be zero n acc h = omega arith
from_bytes_acc-to_bytes_be (suc k) n acc h = omega (
  arith,
  from_bytes_acc-to_bytes_be k (n % 256 ^ k) (acc * 256 + n / 256 ^ k) (mod-lt n (pow-pos k)),
  div-add-mod' n (256 ^ k),
  ap (λ (p : ℕ). acc * p) (pow-suc 256 k),
  shift_digit acc (n / 256 ^ k) (256 ^ k),
)

pub from_bytes-to_bytes_be : (k n : ℕ) → n < 256 ^ k → from_bytes (to_bytes_be k n) ≡ n
unfolding from_bytes
from_bytes-to_bytes_be k n h = omega (arith, from_bytes_acc-to_bytes_be k n 0 h)

pub length-to_bytes_be : (k n : ℕ) → length (to_bytes_be k n) ≡ k
unfolding to_bytes_be
length-to_bytes_be zero n = refl
length-to_bytes_be (suc k) n = ap suc (length-to_bytes_be k (n % 256 ^ k))

pub from_bytes_acc_lem :
    (b : Bytes) (acc : ℕ) → from_bytes_acc acc b ≡ acc * 256 ^ length b + from_bytes b
unfolding from_bytes
from_bytes_acc_lem [] acc = omega arith
from_bytes_acc_lem (x ∷ b) acc = omega (
  arith,
  from_bytes_acc_lem b (acc * 256 + x),
  from_bytes_acc_lem b (0 * 256 + x),
  ap (λ (p : ℕ). acc * p) (pow-suc 256 (length b)),
  shift_digit acc x (256 ^ length b),
)

pub from_bytes-lt : (b : Bytes) → IsBytes b → from_bytes b < 256 ^ length b
unfolding from_bytes
from_bytes-lt [] h = omega arith
from_bytes-lt (x ∷ b) h =
    let e : x * 256 ^ length b ≤ 255 * 256 ^ length b =
      mul-le-mul_right (256 ^ length b) (omega arith) in
    omega
      (arith, from_bytes_acc_lem b (0 * 256 + x), from_bytes-lt b h.1, pow-suc 256 (length b), e)

zero_digit : (x : ℕ) → 0 * 256 + x ≡ x
zero_digit x = omega arith

div_digit : (x p r : ℕ) → r < p → (x * p + r) / p ≡ x
div_digit x p r h = div-eq_of_lt-le p (omega arith) (omega arith)

mod_digit : (x p r : ℕ) → r < p → (x * p + r) % p ≡ r
mod_digit x p r h = omega (
  arith,
  div-add-mod' (x * p + r) p,
  div_digit x p r h,
  ap (λ (t : ℕ). t * p) (div_digit x p r h),
)

pub to_bytes_be-from_bytes : (b : Bytes) → IsBytes b → to_bytes_be (length b) (from_bytes b) ≡ b
unfolding to_bytes_be from_bytes
to_bytes_be-from_bytes [] h = refl
to_bytes_be-from_bytes (x ∷ b) h =
    let e : from_bytes_acc (0 * 256 + x) b ≡ (0 * 256 + x) * 256 ^ length b + from_bytes b =
      from_bytes_acc_lem b (0 * 256 + x) in
    let l = from_bytes-lt b h.1 in
    rw
      (
        e,
        zero_digit x,
        div_digit x (256 ^ length b) (from_bytes b) l,
        mod_digit x (256 ^ length b) (from_bytes b) l,
      )
      (ap (◌∷◌ x) (to_bytes_be-from_bytes b h.1))

pub to_bytes_be-IsBytes : (k n : ℕ) → n < 256 ^ k → IsBytes (to_bytes_be k n)
unfolding to_bytes_be
to_bytes_be-IsBytes zero n h = tt
to_bytes_be-IsBytes (suc k) n h = (
  (div-lt_iff_lt-mul (pow-pos k)).1 (omega (arith, pow-suc 256 k)),
  to_bytes_be-IsBytes k (n % 256 ^ k) (mod-lt n (pow-pos k)),
)

-- Padding on the left with zeros does not change the number.
pub from_bytes-rjust : (b : Bytes) (n : ℕ) → from_bytes (rjust b n) ≡ from_bytes b
unfolding from_bytes
from_bytes-rjust b n = zeros (n - length b) b
  where
    zeros : (k : ℕ) (b : Bytes) → from_bytes_acc 0 (replicate k 0 ++ b) ≡ from_bytes_acc 0 b
    zeros zero b = refl
    zeros (suc k) b = zeros k b
