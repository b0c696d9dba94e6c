-- ===== src/Network/Calls/Unsent.antt =====
-- boa/network.py: a transaction whose gas estimate failed was not sent.
use titanoboa.Prelude.{
  ℕ, String, ◌≡◌, refl, sym, ap, ◌∙◌, inl, inr, true, Option, none, some, List, [], ◌∷◌, Bool-cases,
  nat_eq, string_eq, bytes_eq, pair_eq,
}
use titanoboa.Prelude.Result.{err}
use titanoboa.Prelude.Program.{raise, gets, try_except, >>=-raises, Keeps-try_except, Keeps}
use titanoboa.Network.{
  object, get_nonce, or_key_error, get_item, on_node, TxData, Net, Json, NetError, NetworkEnv,
  Params, World, estimate_gas_failed, request, rpc_error, key_error,
}
use titanoboa.Network.Calls.ReadOnly.{
  Quiet-pure, Quiet-warn, Ledger, Quiet, quiet, sent_in, none_sends,
}
use titanoboa.Network.Fees.{two, three, get_static_fee, get_eip1559_fee, fee_of}
use titanoboa.Network.Send.{
  Txn, with_fees, on_estimate_error, on_fee_error, legacy_fields, eip1559_fields, send_txn,
  completed, with_gas,
}
use titanoboa.Prelude.Int.{pos, int_beq, int_eq}
use titanoboa.Network.Calls.Errors.{send_fields-other_error}

module _ ⦃w : World⦄ (l : Ledger w) where
  Quiet-multi :
      (requests : List (String × Params))
      → none_sends requests ≡ true
      → Quiet l (on_node (w.fetch_multi requests))
  unfolding Quiet Keeps
  Quiet-multi requests h s = l.fetch_multi_keeps requests s.node h

  Quiet-gets : {A : Type 0} (f : NetworkEnv → A) → Quiet l (gets f)
  unfolding Quiet Keeps
  Quiet-gets f s = refl

  Quiet-raise : (A : Type 0) (x : NetError) → Quiet l (raise {A = A} x)
  unfolding Quiet Keeps
  Quiet-raise A x s = refl

  Quiet-get_item : (k : String) (v : Json) → Quiet l (get_item k v)
  unfolding Quiet Keeps
  Quiet-get_item k (object f) s = refl
  Quiet-get_item k _ s = refl

  Quiet-or_key_error : (o : Option Json) → Quiet l (or_key_error o)
  unfolding Quiet Keeps
  Quiet-or_key_error none s = refl
  Quiet-or_key_error (some v) s = refl

  Quiet-handled :
      {A : Type 0} (m : Net A) (h : NetError → Net A)
      → Quiet l m
      → ((x : NetError) → Quiet l (h x))
      → Quiet l (try_except m h)
  unfolding Quiet
  Quiet-handled m h k g = Keeps-try_except (sent_in l) m h k g

  ruleset asks = (
    quiet, Quiet-multi, Quiet-gets, Quiet-raise, Quiet-get_item, Quiet-or_key_error, Quiet-handled,
    Quiet-warn,
  )

  Quiet-three : (answers : List Json) → Quiet l (three answers)
  unfolding Quiet Keeps
  Quiet-three (a ∷ (b ∷ (c ∷ []))) s = refl
  Quiet-three _ s = refl

  Quiet-two : (answers : List Json) → Quiet l (two answers)
  unfolding Quiet Keeps
  Quiet-two (a ∷ (b ∷ [])) s = refl
  Quiet-two _ s = refl

  Quiet-fee_of : (parts : Json × Json × Json) → Quiet l (fee_of parts)
  unfolding fee_of Quiet Keeps
  Quiet-fee_of parts = search asks depth 20

  Quiet-eip1559 : (tx_data : TxData) → Quiet l (eip1559_fields tx_data)
  unfolding get_eip1559_fee
  Quiet-eip1559 tx_data = search (asks, Quiet-three, Quiet-fee_of) depth 9

  Quiet-legacy : (tx_data : TxData) → Quiet l (legacy_fields tx_data)
  unfolding get_static_fee
  Quiet-legacy tx_data = search (asks, Quiet-two) depth 12

  Quiet-fee_error : (tx_data : TxData) (x : NetError) → Quiet l (on_fee_error tx_data x)
  Quiet-fee_error tx_data (request (rpc_error code)) = Quiet-legacy tx_data
  Quiet-fee_error tx_data key_error = Quiet-legacy tx_data
  Quiet-fee_error tx_data x = Quiet-raise _ x

  Quiet-estimate_error : (x : NetError) → Quiet l (on_estimate_error x)
  Quiet-estimate_error (request (rpc_error code)) = elim (Bool-cases (int_beq code (pos 3))) [
    | inl e ↦ rw e (Quiet-raise _ estimate_gas_failed)
    | inr e ↦ rw e (Quiet-raise _ (request (rpc_error code)))
  ]
  Quiet-estimate_error x = Quiet-raise _ x

  Quiet-with_gas : (gas : Option ℕ) (tx_data : TxData) → Quiet l (with_gas gas tx_data)
  unfolding with_gas
  Quiet-with_gas (some gas) tx_data = Quiet-pure l tx_data
  Quiet-with_gas none tx_data = search (asks, Quiet-estimate_error) depth 9

  Quiet-completed : (txn : Txn) → Quiet l (completed txn)
  unfolding completed with_fees get_nonce
  Quiet-completed txn = search (asks, Quiet-eip1559, Quiet-fee_error, Quiet-with_gas) depth 12

  -- Where a transaction fails with the error of a gas estimate, it was not sent: what the node keeps
  -- of the transactions that it was sent is as before.
  pub send_txn-unsent :
      (txn : Txn) (s t : NetworkEnv)
      → send_txn txn s ≡ (err estimate_gas_failed, t)
      → sent_in l t ≡ sent_in l s
  unfolding send_txn Quiet Keeps
  send_txn-unsent txn s t e = elim (>>=-raises (completed txn) _ s estimate_gas_failed t e) [
    | inl early ↦ ap (λ z. l.sent z.1.node) (sym early) ∙ Quiet-completed txn s
    | inr (tx_data, s1, _, late) ↦ absurd (send_fields-other_error txn tx_data s1 t late)
  ]
