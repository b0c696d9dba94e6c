-- ===== src/Util/Eip1167/Proxy.antt =====
-- boa/util/eip1167.py: the recogniser accepts exactly the proxies, and the extractor inverts them.
use titanoboa.Prelude.{
  length-drop, length-take, take-append-drop, bytes_beq_iff, drop-drop, ◌-◌, ◌≡◌, sym, ap, ◌∙◌, ◌≢◌,
  ◌↔◌, inl, inr, true, ◌++◌, arith, Bool-cases, length, take, drop, length-append, nat_eq,
  string_eq, bytes_eq,
}
use titanoboa.Prelude.Bytes.{remove_prefix, remove_suffix, ends_with, Bytes}
use titanoboa.Prelude.Result.{ok, err}
use mathlib.Core.Path.{subst}
use titanoboa.Prelude.Affixes.{
  starts_with-append, ends_with-append, remove_prefix-append, remove_suffix-append,
  starts_with_split,
}
use titanoboa.Util.Eip1167.{
  assertion, eip1167_prefix, eip1167_suffix, is_eip1167_contract, extract_eip1167_address,
}

-- the bytecode that EIP-1167 gives a proxy of the address
abbrev pub proxy : Bytes → Bytes
proxy addr = eip1167_prefix ++ addr ++ eip1167_suffix

length-proxy : (addr : Bytes) → length addr ≡ 20 → length (proxy addr) ≡ 45
length-proxy addr h = omega (arith, length-append addr eip1167_suffix)

proxy-is_eip1167_contract :
    (addr : Bytes) → length addr ≡ 20 → is_eip1167_contract (proxy addr) ≡ true
unfolding is_eip1167_contract
proxy-is_eip1167_contract addr h =
    let p = starts_with-append eip1167_prefix (addr ++ eip1167_suffix) in
    let s : ends_with (proxy addr) eip1167_suffix ≡ true =
      ends_with-append (eip1167_prefix ++ addr) eip1167_suffix in
    ground (arith, length-proxy addr h, p, s)

removals :
    (addr : Bytes) → remove_suffix (remove_prefix (proxy addr) eip1167_prefix) eip1167_suffix ≡ addr
removals addr =
    ap (λ t. remove_suffix t eip1167_suffix)
      (remove_prefix-append eip1167_prefix (addr ++ eip1167_suffix))
    ∙ remove_suffix-append addr eip1167_suffix

-- Every proxy of a 20-byte address gives that address back.
pub extract-proxy :
    (addr : Bytes) → length addr ≡ 20 → extract_eip1167_address (proxy addr) ≡ ok addr
unfolding extract_eip1167_address
extract-proxy addr h = rw (proxy-is_eip1167_contract addr h, removals addr, h)

-- What the recogniser accepts is a proxy of some 20-byte address.
pub is_eip1167_contract-proxy :
    (b : Bytes)
    → is_eip1167_contract b ≡ true
    → (addr : Bytes) × (b ≡ proxy addr) × (length addr ≡ 20)
unfolding is_eip1167_contract
is_eip1167_contract-proxy b h =
    let rest = drop 10 b in
    let addr = take 20 rest in
    let n : length b ≡ 45 = ground arith in
    let p : b ≡ eip1167_prefix ++ rest = starts_with_split b eip1167_prefix (ground arith) in
    let q : drop 20 rest ≡ eip1167_suffix =
      drop-drop 20 10 b
      ∙ subst (λ m. drop (m - 15) b ≡ eip1167_suffix) n
          ((bytes_beq_iff _ eip1167_suffix).0 (ground arith)) in
    let s : rest ≡ addr ++ eip1167_suffix =
      sym (take-append-drop 20 rest) ∙ ap (λ t. addr ++ t) q in
    (
      addr,
      p ∙ ap (λ t. eip1167_prefix ++ t) s,
      length-take 20 rest (omega (arith, length-drop 10 b)),
    )

-- The extractor accepts exactly the proxies: its second assertion never fails.
pub extract_iff :
    (b : Bytes) → (extract_eip1167_address b ≢ err assertion) ↔ (is_eip1167_contract b ≡ true)
extract_iff b = (accepted, total)
  where
    accepted : extract_eip1167_address b ≢ err assertion → is_eip1167_contract b ≡ true
    accepted h = elim (Bool-cases (is_eip1167_contract b)) [
      | inl t ↦ t
      | inr f ↦ absurd (h (unfold extract_eip1167_address in rw f))
    ]

    total : is_eip1167_contract b ≡ true → extract_eip1167_address b ≢ err assertion
    total h =
        let (addr, e, l) = is_eip1167_contract-proxy b h in rw e (λ x. cc (extract-proxy addr l))
