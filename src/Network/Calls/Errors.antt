-- ===== src/Network/Calls/Errors.antt =====
-- boa/network.py: once its fields are complete, a transaction raises no error of a gas
-- estimate.
use titanoboa.Prelude.{
  ℕ, String, ◌≡◌, ap, ◌≢◌, inl, inr, Bool, true, false, Option, none, some, Bool-cases, nat_eq,
  string_eq, bytes_eq, pair_eq,
}
use titanoboa.Prelude.Result.{Result, ok, err}
use titanoboa.Prelude.Program.{
  try_except-raises, pure, raise, lift, gets, modify, raise_if, ◌>>=◌, try_except, >>=-raises,
}
use titanoboa.Network.{
  struct_logs, http_error, rpc_error, forked, request, txn_failed, Tracer, reset_fork, NetError,
  sending, signing, object, text, or_key_error, get_item, as_text, on_node, of_request, of_hex,
  Account, TxData, Json, RpcFailure, NetworkEnv, Net, World, estimate_gas_failed,
}
use titanoboa.Rpc.Hex.{Text, HexError}
use titanoboa.Network.Send.{send_fields, confirmed, Txn, found_account, sent_by, broadcast}
use titanoboa.Vm.Patcher.{Patchables}
use titanoboa.Network.Trace.{
  traced_with, keep_tracer, debug_tt, on_trace_error, warn_or_raise, tracer_of, on_tracer_error,
  without_tracer,
}
use mathlib.Core.Path.{subst}
use titanoboa.Env.{Env}
use titanoboa.Prelude.Int.{negsuc, int_beq, int_eq}

module _ ⦃w : World⦄ where
  -- never raises the error of a failed estimate
  Avoids : {A : Type 0} → Net A → Type 0
  Avoids m = (s t : NetworkEnv) → m s ≢ (err estimate_gas_failed, t)

  Avoids->>= :
      {A B : Type 0} (m : Net A) (f : A → Net B)
      → Avoids m
      → ((a : A) → Avoids (f a))
      → Avoids (m >>= f)
  unfolding Avoids
  Avoids->>= m f h k s t e = elim (>>=-raises m f s estimate_gas_failed t e) [
    | inl first ↦ h s t first
    | inr (a, s', _, rest) ↦ k a s' t rest
  ]

  Avoids-pure : {A : Type 0} (a : A) → Avoids (pure a)
  unfolding Avoids
  Avoids-pure a s t e = cc e

  Avoids-gets : {A : Type 0} (f : NetworkEnv → A) → Avoids (gets f)
  unfolding Avoids
  Avoids-gets f s t e = cc e

  Avoids-modify : (f : NetworkEnv → NetworkEnv) → Avoids (modify f)
  unfolding Avoids
  Avoids-modify f s t e = cc e

  Avoids-hex : {A : Type 0} (r : Result HexError A) → Avoids (lift (of_hex r))
  unfolding Avoids
  Avoids-hex (ok a) s t e = cc e
  Avoids-hex (err x) s t e = cc e

  request_avoids : {A : Type 0} (r : Result RpcFailure A) → of_request r ≢ err estimate_gas_failed
  request_avoids (ok a) e = cc e
  request_avoids (err x) e = cc e

  Avoids-on_node :
      {A : Type 0} (call : w.NodeState → Result RpcFailure A × w.NodeState) → Avoids (on_node call)
  unfolding Avoids
  Avoids-on_node call s t e = request_avoids (call s.node).0 (ap (λ z. z.0) e)

  Avoids-as_text : (v : Json) → Avoids (as_text v)
  unfolding Avoids
  Avoids-as_text (text t) s _ e = cc e
  Avoids-as_text _ s _ e = cc e

  Avoids-get_item : (k : String) (v : Json) → Avoids (get_item k v)
  unfolding Avoids
  Avoids-get_item k (object f) s _ e = cc e
  Avoids-get_item k _ s _ e = cc e

  Avoids-or_key_error : (o : Option Json) → Avoids (or_key_error o)
  unfolding Avoids
  Avoids-or_key_error none s t e = cc e
  Avoids-or_key_error (some v) s t e = cc e

  ruleset avoids = (
    Avoids->>=, Avoids-pure, Avoids-gets, Avoids-modify, Avoids-hex, Avoids-on_node, Avoids-as_text,
    Avoids-get_item, Avoids-or_key_error,
  )

  Avoids-sent_by : (tx_data : TxData) (a : Account w.NodeState) → Avoids (sent_by tx_data a)
  Avoids-sent_by tx_data (signing sign) = search avoids
  Avoids-sent_by tx_data (sending send) = search avoids

  Avoids-found_account : (o : Option (Account w.NodeState)) → Avoids (found_account o)
  unfolding Avoids
  Avoids-found_account none s t e = cc e
  Avoids-found_account (some a) s t e = cc e

  Avoids-broadcast : (txn : Txn) (tx_data : TxData) → Avoids (broadcast txn tx_data)
  unfolding broadcast
  Avoids-broadcast txn tx_data = search (avoids, Avoids-sent_by, Avoids-found_account)

  Avoids-raise_if : (b : Bool) (x : NetError) → x ≢ estimate_gas_failed → Avoids (raise_if b x)
  unfolding Avoids
  Avoids-raise_if true x h s t e = h (cc e)
  Avoids-raise_if false x h s t e = cc e

  Avoids-handled :
      {A : Type 0} (m : Net A) (h : NetError → Net A)
      → Avoids m
      → ((x : NetError) → x ≢ estimate_gas_failed → Avoids (h x))
      → Avoids (try_except m h)
  unfolding Avoids
  Avoids-handled m h k l s t e =
      let (y, s', first, second) = try_except-raises m h s estimate_gas_failed t e in
      l y (λ same. k s s' (subst (λ z. m s ≡ (err z, s')) same first)) s' t second

  forked_avoids :
      (r : Result RpcFailure (w.evm.State × Patchables ℕ)) (env : Env w.evm w.Contract)
      → (forked r env).0 ≢ err estimate_gas_failed
  forked_avoids (ok p) env e = cc e
  forked_avoids (err x) env e = cc e

  Avoids-reset_fork : (block : Json) → Avoids (reset_fork block)
  unfolding Avoids reset_fork
  Avoids-reset_fork block s t e =
      forked_avoids (w.fork_rpc block (s.base.state, s.base.patch) s.node).0 s.base
        (ap (λ z. z.0) e)

  Avoids-raise : (A : Type 0) (x : NetError) → x ≢ estimate_gas_failed → Avoids (raise {A = A} x)
  unfolding Avoids
  Avoids-raise A x h s t e = h (cc e)

  Avoids-without_tracer : Avoids without_tracer
  Avoids-without_tracer = search avoids

  Avoids-on_tracer_error : (x : NetError) → x ≢ estimate_gas_failed → Avoids (on_tracer_error x)
  Avoids-on_tracer_error (request (rpc_error code)) h =
      elim (Bool-cases (int_beq code (negsuc 32601))) [
        | inl e ↦ rw e (Avoids-pure (some struct_logs))
        | inr e ↦ rw e Avoids-without_tracer
      ]
  Avoids-on_tracer_error (request http_error) h = Avoids-without_tracer
  Avoids-on_tracer_error x h = Avoids-raise _ x h

  Avoids-keep_tracer : (o : Option (Option Tracer)) → Avoids (keep_tracer o)
  Avoids-keep_tracer (some t) = Avoids-pure t
  Avoids-keep_tracer none = search (avoids, Avoids-handled, Avoids-on_tracer_error) depth 9

  Avoids-tracer_of : Avoids tracer_of
  unfolding Avoids tracer_of
  Avoids-tracer_of s = Avoids-keep_tracer s.tracer s

  Avoids-warn_or_raise :
      (x : NetError) → x ≢ estimate_gas_failed → (b : Bool) → Avoids (warn_or_raise x b)
  Avoids-warn_or_raise x h true = search avoids
  Avoids-warn_or_raise x h false = search (avoids, Avoids-raise)

  Avoids-on_trace_error : (x : NetError) → x ≢ estimate_gas_failed → Avoids (on_trace_error x)
  Avoids-on_trace_error (request (rpc_error code)) h = search (avoids, Avoids-warn_or_raise)
  Avoids-on_trace_error (request http_error) h = search (avoids, Avoids-warn_or_raise)
  Avoids-on_trace_error x h = Avoids-raise _ x h

  Avoids-traced_with : (tx_hash : Text) (o : Option Tracer) → Avoids (traced_with tx_hash o)
  Avoids-traced_with tx_hash none = Avoids-pure none
  Avoids-traced_with tx_hash (some t) = search (avoids, Avoids-handled, Avoids-on_trace_error)

  Avoids-debug_tt : (tx_hash : Text) → Avoids (debug_tt tx_hash)
  unfolding debug_tt
  Avoids-debug_tt tx_hash = search (avoids, Avoids-tracer_of, Avoids-traced_with)

  other_error : ◌≢◌ {A = NetError ⦃w = w⦄} txn_failed estimate_gas_failed
  other_error e = cc e

  Avoids-confirmed : (tx_hash : Text) → Avoids (confirmed tx_hash)
  unfolding confirmed
  Avoids-confirmed tx_hash =
      search (avoids, Avoids-raise_if, Avoids-debug_tt, Avoids-reset_fork, other_error) depth 14

  send_fields-Avoids : (txn : Txn) (tx_data : TxData) → Avoids (send_fields txn tx_data)
  send_fields-Avoids txn tx_data = search (avoids, Avoids-broadcast, Avoids-confirmed)

  pub send_fields-other_error :
      (txn : Txn) (tx_data : TxData) (s t : NetworkEnv)
      → send_fields txn tx_data s ≢ (err estimate_gas_failed, t)
  unfolding Avoids
  send_fields-other_error txn tx_data = send_fields-Avoids txn tx_data
