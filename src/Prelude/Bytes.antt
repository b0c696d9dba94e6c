-- ===== src/Prelude/Bytes.antt =====
-- Python's `bytes` as lists of numbers: slices, padding and big-endian integers.
use titanoboa.Prelude.Lists.{length, take, drop, replicate}
use Prim.Native.Nat.{ℕ, zero, suc, ◌+◌, ◌-◌, ◌*◌, ◌/◌, ◌%◌, ◌<◌, ◌^◌}
use mathlib.Core.List.{List, [], ◌∷◌, ◌++◌}
use mathlib.Core.Bool.{Bool, ◌&&◌}
use titanoboa.Prelude.Tests.{leb, if◌then◌else◌}
use titanoboa.Prelude.Equality.{bytes_beq}

abbrev pub Bytes : Type 0
Bytes = List ℕ

-- `b[start:stop]` for 0 <= start
abbrev pub slice : Bytes → ℕ → ℕ → Bytes
slice b start stop = take (stop - start) (drop start b)

-- `b.rjust(n, b"\x00")` and `b.ljust(n, b"\x00")`
abbrev pub rjust : Bytes → ℕ → Bytes
rjust b n = replicate (n - length b) 0 ++ b

abbrev pub ljust : Bytes → ℕ → Bytes
ljust b n = b ++ replicate (n - length b) 0

-- `int.from_bytes(b, "big")`, with an accumulator
abbrev pub from_bytes_acc : ℕ → Bytes → ℕ
from_bytes_acc acc [] = acc
from_bytes_acc acc (x ∷ xs) = from_bytes_acc (acc * 256 + x) xs

unfoldable pub from_bytes : Bytes → ℕ
from_bytes b = from_bytes_acc 0 b

-- `n.to_bytes(k, "big")` for n < 256 ** k: the digit in front is the most significant one
unfoldable pub to_bytes_be : ℕ → ℕ → Bytes
to_bytes_be zero n = []
to_bytes_be (suc k) n = (n / 256 ^ k) ∷ to_bytes_be k (n % 256 ^ k)

abbrev pub IsBytes : Bytes → Type 0
IsBytes [] = Unit
IsBytes (x ∷ xs) = (x < 256) × IsBytes xs

-- `b.startswith(p)`, `b.endswith(s)`, `b.removeprefix(p)`, `b.removesuffix(s)`
abbrev pub starts_with : Bytes → Bytes → Bool
starts_with b p = bytes_beq (take (length p) b) p

abbrev pub ends_with : Bytes → Bytes → Bool
ends_with b s = leb (length s) (length b) && bytes_beq (drop (length b - length s) b) s

abbrev pub remove_prefix : Bytes → Bytes → Bytes
remove_prefix b p = if starts_with b p then drop (length p) b else b

abbrev pub remove_suffix : Bytes → Bytes → Bytes
remove_suffix b s = if ends_with b s then take (length b - length s) b else b
