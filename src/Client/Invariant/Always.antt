-- ===== src/Client/Invariant/Always.antt =====
-- A client made by New of client/client.go, after any calls, messages, timers and connections.
use bit_socket_go.Protocol.Types.{Externals}
use bit_socket_go.Protocol.SchemaWire.{Msgpack}
use bit_socket_go.Client.{Client, handle_message, ping_tick, handle_close}
use bit_socket_go.Client.Connect.{Options, new_client, of_client}
use bit_socket_go.Client.Namespace
use bit_socket_go.Client.Reconnect.{dial, reconnect}
use bit_socket_go.Client.Steps.{
  Step, listens, uses, declares, opens, emits, leaves, closes, receives, ticks, dials, loses,
  retries, Reach, start, step,
}
use bit_socket_go.Client.Invariant.{Leaves-eq, WellFormed}
use bit_socket_go.Client.Invariant.Calls.{
  on-WellFormed, use_middleware-WellFormed, schema-WellFormed, close_client-WellFormed,
  close-WellFormed, emit_ack-WellFormed, of_client-WellFormed, new_client-WellFormed,
}
use bit_socket_go.Client.Invariant.Messages.{
  handle_message-WellFormed, ping_tick-WellFormed, handle_close-WellFormed, dial-WellFormed,
  reconnect-WellFormed,
}

module _ (mp : Msgpack) (ext : Externals) where
  step-WellFormed : (c c' : Client) → Step mp ext c c' → WellFormed c → WellFormed c'
  step-WellFormed _ _ (listens nsp event c) h = on-WellFormed nsp event c h
  step-WellFormed _ _ (uses nsp mw c) h = use_middleware-WellFormed nsp mw c h
  step-WellFormed _ _ (declares nsp schemas c) h = schema-WellFormed nsp schemas c h
  step-WellFormed _ _ (opens nsp c c' out e) h =
      Leaves-eq WellFormed (of_client c nsp) c' out (of_client-WellFormed nsp c h) e
  step-WellFormed _ _ (emits nsp event payload cb c c' out e) h =
      Leaves-eq WellFormed (Namespace.emit_ack ext nsp event payload cb c) c' out
        (emit_ack-WellFormed ext nsp event payload cb c h) e
  step-WellFormed _ _ (leaves nsp c) h = close-WellFormed nsp c h
  step-WellFormed _ _ (closes c) h = close_client-WellFormed c h
  step-WellFormed _ _ (receives raw c c' out open_ e) h =
      Leaves-eq WellFormed (handle_message mp ext raw c) c' out
        (handle_message-WellFormed mp ext raw c open_ h) e
  step-WellFormed _ _ (ticks c c' out e) h =
      Leaves-eq WellFormed (ping_tick c) c' out (ping_tick-WellFormed c h) e
  step-WellFormed _ _ (dials answers c c' out e) h =
      Leaves-eq WellFormed (dial answers c) c' out (dial-WellFormed answers c h) e
  step-WellFormed _ _ (loses c c' out e) h =
      Leaves-eq WellFormed (handle_close c) c' out (handle_close-WellFormed c h) e
  step-WellFormed _ _ (retries attempt answers c c' out e) h =
      Leaves-eq WellFormed (reconnect attempt answers c) c' out
        (reconnect-WellFormed attempt answers c h) e

  -- A client that New has made is at all times well-formed: its attempts are at most its maximum, its
  -- ticker runs and its timer is set on an open connection only, each namespace stands under its own
  -- name and the root namespace is there, the next acknowledgement number is a uint32, and no number
  -- waits for two callbacks.
  pub new_client-Reach :
      (opts : Options) (c : Client) → Reach mp ext (new_client ext opts) c → WellFormed c
  new_client-Reach opts _ start = new_client-WellFormed ext opts
  new_client-Reach opts _ (step c c' reach next) =
      step-WellFormed c c' next (new_client-Reach opts c reach)
