-- ===== src/Prelude/Affixes.antt =====
-- Prefixes and suffixes of bytes: the tests and the removals of Python against `++`.
use titanoboa.Prelude.{
  bytes_beq, ◌-◌, ◌≡◌, sym, ap, ◌∙◌, true, ◌++◌, arith, length, take, drop, length-append, nat_eq,
  string_eq, bytes_eq,
}
use titanoboa.Prelude.Bytes.{remove_suffix, remove_prefix, ends_with, starts_with, Bytes}
use titanoboa.Prelude.Equality.{bytes_beq_iff}
use titanoboa.Prelude.Lists.{take-append, drop-append, take_left, drop_left, take-append-drop}

pub starts_with-append : (p x : Bytes) → starts_with (p ++ x) p ≡ true
starts_with-append p x = (bytes_beq_iff _ p).1 (take-append p x)

length_left : (x s : Bytes) → length (x ++ s) - length s ≡ length x
length_left x s = omega (arith, length-append x s)

pub ends_with-append : (x s : Bytes) → ends_with (x ++ s) s ≡ true
ends_with-append x s =
    let h : bytes_beq (drop (length (x ++ s) - length s) (x ++ s)) s ≡ true =
      (bytes_beq_iff _ s).1 (drop_left _ x s (length_left x s)) in
    rw h (ground (arith, length-append x s))

pub remove_prefix-append : (p x : Bytes) → remove_prefix (p ++ x) p ≡ x
remove_prefix-append p x = rw (starts_with-append p x) (drop-append p x)

pub remove_suffix-append : (x s : Bytes) → remove_suffix (x ++ s) s ≡ x
remove_suffix-append x s = rw (ends_with-append x s) (take_left _ x s (length_left x s))

pub starts_with_split : (b p : Bytes) → starts_with b p ≡ true → b ≡ p ++ drop (length p) b
starts_with_split b p h =
    sym (take-append-drop (length p) b) ∙ ap (λ t. t ++ drop (length p) b) ((bytes_beq_iff _ p).0 h)

pub ends_with_split : (b s : Bytes) → ends_with b s ≡ true → b ≡ take (length b - length s) b ++ s
ends_with_split b s h =
    let e : drop (length b - length s) b ≡ s = (bytes_beq_iff _ s).0 (ground arith) in
    sym (take-append-drop (length b - length s) b) ∙ ap (λ t. take (length b - length s) b ++ t) e
