-- ===== src/Network/Calls/Message.antt =====
-- `execute_code` of boa/network.py: the message that a call sends, and the outputs that it may show.
use titanoboa.Prelude.{
  bytes_beq_iff, bytes_beq, ◌≡◌, refl, sym, ap, ◌∙◌, ◌⊎◌, inl, inr, true, ◌||◌, not, Option, none,
  some, ◌++◌, Bool-cases, nat_eq, string_eq, bytes_eq, pair_eq, ℕ, [], ◌∷◌, Option-cases,
}
use titanoboa.Prelude.Result.{ok}
use titanoboa.Prelude.Program.{>>=-returns}
use titanoboa.Network.{out_of_sync, NetworkEnv, World}
use titanoboa.Env.Calls.{Call}
use titanoboa.Network.Calls.{
  visible, conclude, sender_or_eoa, super_execute_code, reset_if, execute_code, txn_of, patched,
}
use titanoboa.Prelude.Bytes.{Bytes}
use titanoboa.Env.{Computation}
use titanoboa.Rpc.Hex.{bytes_hex, hex_prefix, py_bytes, to_hex, Text}
use titanoboa.Network.Send.{Txn}
use mathlib.Core.Path.{subst}

module _ ⦃w : World⦄ where
  -- the output of a computation is the bytes that the node gave, unless it has an error that erases
  -- what was returned, and then there may be none
  abbrev pub Shows : Computation w.evm w.Contract → Bytes → Type 0
  Shows ret output =
      (ret.2 ≡ output)
      ⊎ ((x : w.evm.VmError) × (ret.0 ≡ some x) × (w.erases_return_data x ≡ true) × (ret.2 ≡ []))

  -- another output of the same run
  abbrev pub Patched : Computation w.evm w.Contract → Computation w.evm w.Contract → Bytes → Type 0
  Patched c ret output = (ret.0 ≡ c.0) × (ret.1 ≡ c.1) × Shows ret output

  pub visible-Shows :
      (error : Option w.evm.VmError) (used : ℕ) (output : Bytes)
      → Shows (error, used, visible error output) output
  visible-Shows none used output = inl refl
  visible-Shows (some x) used output = elim (Bool-cases (w.erases_return_data x)) [
    | inl erased ↦ rw erased (inr (x, refl, erased, refl))
    | inr kept ↦ rw kept (inl refl)
  ]

  pub patched-Patched :
      (c ret : Computation w.evm w.Contract) (output : Bytes) (s t : NetworkEnv)
      → patched c (some output) s ≡ (ok ret, t)
      → Patched c ret output × (t.node ≡ s.node)
  unfolding patched
  patched-Patched c ret output s t e = elim (Bool-cases (bytes_beq c.2 output)) [
    | inl same ↦
        let e' = rw same at e in
        let is_ret : c ≡ ret = cc e' in
        let is_t : s ≡ t = cc e' in
        (
          subst (λ r. Patched c r output) is_ret
              (refl, refl, inl ((bytes_beq_iff c.2 output).0 same)),
          ap (λ z. z.node) (sym is_t),
        )
    | inr other ↦
        let e' = rw other at e in
        let is_ret : (c.0, c.1, visible c.0 output) ≡ ret = cc e' in
        let is_t : record s { warnings = out_of_sync ∷ s.warnings } ≡ t = cc e' in
        (
          subst (λ r. Patched c r output) is_ret (refl, refl, visible-Shows c.0 c.1 output),
          ap (λ z. z.node) (sym is_t),
        )
  ]

  -- the sender of a call in a state: the one that is given, or else the default one
  abbrev pub Sends : Option Bytes → NetworkEnv → Bytes → Type 0
  Sends (some address) s sender = sender ≡ address
  Sends none s sender = s.base.eoa ≡ some sender

  pub sender_or_eoa-Sends :
      (given : Option Bytes) (s t : NetworkEnv) (sender : Bytes)
      → sender_or_eoa given s ≡ (ok sender, t)
      → Sends given s sender × (t ≡ s)
  unfolding titanoboa.Env.get_sender
  sender_or_eoa-Sends none s t sender e =
      let back : s ≡ t = ap (λ z. z.1) e in
      let answer = ap (λ z. z.0) e in
      elim (Option-cases s.base.eoa) [
        | inl none_set ↦ absurd (cc (rw none_set at answer))
        | inr (eoa, set_to) ↦
            let answer' = rw set_to at answer in
            let same : eoa ≡ sender = cc answer' in (set_to ∙ ap some same, sym back)
      ]
  sender_or_eoa-Sends (some a) s t sender e =
      let back : s ≡ t = ap (λ z. z.1) e in
      let answer = ap (λ z. z.0) e in
      elim (Option-cases s.base.eoa) [
        | inl none_set ↦ absurd (cc (rw none_set at answer))
        | inr (eoa, set_to) ↦
            let answer' = rw set_to at answer in
            let same : a ≡ sender = cc answer' in (sym same, sym back)
      ]

  -- the local run of a call, with the state in which it ends
  abbrev pub Local : Call → NetworkEnv → Computation w.evm w.Contract → NetworkEnv → Type 0
  Local call s c s2 =
      (s1 : NetworkEnv) × (reset_if call.is_modifying s ≡ (ok tt, s1))
      × (super_execute_code call s1 ≡ (ok c, s2))

  -- the message of a call in a state
  abbrev pub Message : Call → NetworkEnv → Txn → Type 0
  Message call s txn =
      (sender : Bytes) × (hexdata : Text) × Sends call.sender s sender
      × (to_hex (py_bytes call.data_bytes) ≡ ok hexdata)
      × (txn ≡ txn_of call sender hexdata)

  -- what stands behind the outcome of a call, whose guard chooses between the two ways to go on
  pub decided :
      (call : Call) (ret : Computation w.evm w.Contract) (s t : NetworkEnv)
      → execute_code call s ≡ (ok ret, t)
      → (c : Computation w.evm w.Contract) × (s2 : NetworkEnv) × (txn : Txn) × Local call s c s2
        × Message call s2 txn
        × (conclude (call.simulate || not call.is_modifying) txn c s2 ≡ (ok ret, t))
  unfolding execute_code to_hex
  decided call ret s t e =
      let (_, s1, e0, e1) = >>=-returns (reset_if call.is_modifying) _ s ret t e in
      let (c, s2, e2, e3) = >>=-returns (super_execute_code call) _ s1 ret t e1 in
      let (sender, s3, e4, e5) = >>=-returns (sender_or_eoa call.sender) _ s2 ret t e3 in
      let (sends, same) = sender_or_eoa-Sends call.sender s2 s3 sender e4 in
      let hexdata = hex_prefix ++ bytes_hex call.data_bytes in
      let txn = txn_of call sender hexdata in
      (
        c,
        s2,
        txn,
        (s1, e0, e2),
        (sender, hexdata, sends, refl, refl),
        subst (λ z. conclude (call.simulate || not call.is_modifying) txn c z ≡ (ok ret, t)) same
            e5,
      )
