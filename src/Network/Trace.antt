-- ===== src/Network/Trace.antt =====
-- `TraceObject` of boa/network.py, and the trace of a transaction.
use titanoboa.Prelude.{
  bytes_beq, Bool, true, false, not, Option, none, some, [], ◌∷◌, if◌then◌else◌, nat_eq, string_eq,
  bytes_eq, pair_eq,
}
use titanoboa.Prelude.Program.{pure, raise, lift, gets, modify, ◌>>=◌, ◌>>◌, try_except}
use titanoboa.Network.{
  http_error, rpc_error, request, struct_logs, null, no_fields, call_tracer, flag, no_trace, text,
  no_tracer, field, of_hex, as_text, on_node, rpc_fetch, warn, object, item, get_item, text_item,
  NetError, Net, Tracer, Json, World,
}
use titanoboa.Rpc.Hex.{to_bytes, codes, Text}
use titanoboa.Prelude.Bytes.{Bytes}
use titanoboa.Prelude.Int.{negsuc, int_beq, int_eq}

module _ ⦃w : World⦄ where
  abbrev pub found_or_empty : Option Json → Net Text
  found_or_empty none = pure (codes "0x")
  found_or_empty (some v) = as_text v

  abbrev pub in_struct_logs : Json → Option Json → Net Text
  in_struct_logs raw_trace (some _) = text_item "returnValue" raw_trace
  in_struct_logs raw_trace none = get_item "output" raw_trace >>= found_or_empty

  -- `TraceObject.returndata`
  unfoldable pub returndata : Json → Net Text
  returndata raw_trace = get_item "structLogs" raw_trace >>= in_struct_logs raw_trace

  -- `TraceObject.returndata_bytes`
  unfoldable pub returndata_bytes : Json → Net Bytes
  returndata_bytes raw_trace = do t ← returndata raw_trace; lift (of_hex (to_bytes t))

  -- `bool(v)` of what the key "failed" has
  abbrev pub truth : Json → Bool
  truth null = false
  truth (flag b) = b
  truth (text t) = not (bytes_beq t [])
  truth (object no_fields) = false
  truth (object (field _ _ _)) = true

  abbrev pub is_not_none : Option Json → Bool
  is_not_none none = false
  is_not_none (some null) = false
  is_not_none (some _) = true

  abbrev pub failed_or_error : Json → Option Json → Net Bool
  failed_or_error raw_trace (some _) = do v ← item "failed" raw_trace; pure (truth v)
  failed_or_error raw_trace none = do v ← get_item "error" raw_trace; pure (is_not_none v)

  -- `TraceObject.is_error`
  unfoldable pub trace_is_error : Json → Net Bool
  trace_is_error raw_trace = get_item "structLogs" raw_trace >>= failed_or_error raw_trace

  abbrev pub zero_hash : Text
  zero_hash = codes "0x0000000000000000000000000000000000000000000000000000000000000000"

  -- the tracer's configuration, as it is sent
  abbrev pub tracer_config : Tracer → Json
  tracer_config call_tracer =
      object
        (field "tracer" (text (codes "callTracer")) (field "onlyTopCall" (flag true) no_fields))
  tracer_config struct_logs = object no_fields

  abbrev pub without_tracer : Net (Option Tracer)
  without_tracer = do warn no_tracer; pure none

  -- the two `except` clauses of `_tracer`
  abbrev pub on_tracer_error : NetError → Net (Option Tracer)
  on_tracer_error (request (rpc_error code)) =
      if int_beq code (negsuc 32601) then pure (some struct_logs) else without_tracer
  on_tracer_error (request http_error) = without_tracer
  on_tracer_error x = raise x

  abbrev pub probe_tracer : Net (Option Tracer)
  probe_tracer =
      try_except
        (do
          rpc_fetch "debug_traceTransaction" (text zero_hash ∷ (tracer_config call_tracer ∷ []))
          pure (some call_tracer))
        on_tracer_error

  abbrev pub keep_tracer : Option (Option Tracer) → Net (Option Tracer)
  keep_tracer (some t) = pure t
  keep_tracer none = do t ← probe_tracer; modify (λ s. record s { tracer = some t }); pure t

  -- `_tracer`, a cached property
  unfoldable pub tracer_of : Net (Option Tracer)
  tracer_of s = keep_tracer s.tracer s

  abbrev pub warn_or_raise : NetError → Bool → Net (Option Json)
  warn_or_raise x true = do warn no_trace; pure none
  warn_or_raise x false = do warn no_trace; raise x

  abbrev pub on_trace_error : NetError → Net (Option Json)
  on_trace_error (request (rpc_error code)) =
      gets (λ s. s.suppress_debug_tt) >>= warn_or_raise (request (rpc_error code))
  on_trace_error (request http_error) =
      gets (λ s. s.suppress_debug_tt) >>= warn_or_raise (request http_error)
  on_trace_error x = raise x

  abbrev pub traced_with : Text → Option Tracer → Net (Option Json)
  traced_with tx_hash none = pure none
  traced_with tx_hash (some t) =
      try_except
        (do
          trace ←
              on_node
                (w.fetch_uncached "debug_traceTransaction" (text tx_hash ∷ (tracer_config t ∷ [])))
          pure (some trace))
        on_trace_error

  -- `_debug_tt`
  unfoldable pub debug_tt : Text → Net (Option Json)
  debug_tt tx_hash = tracer_of >>= traced_with tx_hash
