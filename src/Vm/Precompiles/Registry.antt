-- ===== src/Vm/Precompiles/Registry.antt =====
-- What the registry of precompiles holds after any calls.
use titanoboa.Prelude.{
  bytes_beq, String, ◌≡◌, refl, ap, ◌∙◌, ◌≢◌, inl, inr, Bool, false, ◌&&◌, not, some, List, [], ◌∷◌,
  is_some, Bool-cases, nat_eq, string_eq, bytes_eq, pair_eq,
}
use titanoboa.Prelude.Dict.{
  Dict, lookup, contains, insert, erase, lookup-insert, lookup-erase, lookup-insert_self,
}
use titanoboa.Prelude.Result.{ok}
use titanoboa.Prelude.Bytes.{Bytes}
use titanoboa.Vm.Precompiles.{
  py_key_eq, PyKey, text, bytes_key, Address, register_raw_precompile, deregister_raw_precompile,
}

pub data Call {ℓ} (Fn : Type ℓ) : Type ℓ where
  register : Address → Fn → Bool → Call Fn
  deregister : Address → Bool → Call Fn

module _ {ℓ} {Fn : Type ℓ} where
  -- the registry after calls, whose exceptions are caught
  unfoldable pub run : List (Call Fn) → Dict PyKey Fn → Dict PyKey Fn
  run [] d = d
  run (register a fn force ∷ calls) d = run calls (register_raw_precompile a fn force d).1
  run (deregister a force ∷ calls) d = run calls (deregister_raw_precompile a force d).1

  -- no key is a text
  abbrev NoTexts : Dict PyKey Fn → Type 0
  NoTexts d = (s : String) → contains (text s) d ≡ false

  register-NoTexts :
      (a : Address) (fn : Fn) (force : Bool) (d : Dict PyKey Fn)
      → NoTexts d
      → register_raw_precompile a fn force d ≡ (ok tt, insert (bytes_key a.canonical_address) fn d)
  unfolding register_raw_precompile
  register-NoTexts a fn force d h = rw (h a.checksum)

  insert-NoTexts :
      (b : Bytes) (fn : Fn) (d : Dict PyKey Fn) → NoTexts d → NoTexts (insert (bytes_key b) fn d)
  insert-NoTexts b fn d h s = ap is_some (lookup-insert (bytes_key b) (text s) fn d) ∙ h s

  erase-NoTexts : (b : Bytes) (d : Dict PyKey Fn) → NoTexts d → NoTexts (erase (bytes_key b) d)
  erase-NoTexts b d h s = ap is_some (lookup-erase (bytes_key b) (text s) d) ∙ h s

  deregister-NoTexts :
      (a : Address) (force : Bool) (d : Dict PyKey Fn)
      → NoTexts d
      → NoTexts (deregister_raw_precompile a force d).1
  unfolding deregister_raw_precompile
  deregister-NoTexts a force d h =
      elim (Bool-cases (not (contains (bytes_key a.canonical_address) d) && not force)) [
        | inl missing ↦ rw missing h
        | inr there ↦ rw there (erase-NoTexts a.canonical_address d h)
      ]

  run-NoTexts : (calls : List (Call Fn)) (d : Dict PyKey Fn) → NoTexts d → NoTexts (run calls d)
  unfolding run
  run-NoTexts [] d h = h
  run-NoTexts (register a fn force ∷ calls) d h =
      run-NoTexts calls (register_raw_precompile a fn force d).1
        (rw (register-NoTexts a fn force d h) (insert-NoTexts a.canonical_address fn d h))
  run-NoTexts (deregister a force ∷ calls) d h =
      run-NoTexts calls (deregister_raw_precompile a force d).1 (deregister-NoTexts a force d h)

  -- After any calls on an empty registry, a registration succeeds, also of an address that is
  -- registered and without `force`: the new function takes the place of the old one at the
  -- address, and the other addresses keep theirs.
  pub register-run :
      (calls : List (Call Fn)) (a : Address) (fn : Fn) (force : Bool) (other : Bytes)
      → a.canonical_address ≢ other
      → let o = register_raw_precompile a fn force (run calls []) in
        (o.0 ≡ ok tt)
        × (lookup (bytes_key a.canonical_address) o.1 ≡ some fn)
        × (lookup (bytes_key other) o.1 ≡ lookup (bytes_key other) (run calls []))
  register-run calls a fn force other ne =
      let d = run calls [] in
      let key = bytes_key a.canonical_address in
      rw (register-NoTexts a fn force d (run-NoTexts calls [] (λ s. refl))) (
        refl,
        lookup-insert_self key fn d,
        elim (Bool-cases (bytes_beq a.canonical_address other)) [
          | inl same ↦ absurd (ne ((bytes_eq.beq_iff a.canonical_address other).0 same))
          | inr differ ↦ lookup-insert key (bytes_key other) fn d ∙ rw differ
        ],
      )
