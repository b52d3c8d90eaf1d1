-- ===== src/Client/Steps.antt =====
-- What can happen to a client of client/client.go: calls of its user, messages, timers, and the ends
-- and beginnings of connections, in any order. A step runs to its end before the next.
use bit_socket_go.Base.{ℕ, ◌≡◌, Bool, true, Text, List, Option, ok}
use bit_socket_go.Protocol.Types.{Value, Externals}
use bit_socket_go.Protocol.Words.{Slice}
use bit_socket_go.Protocol.Schema.{Schema}
use bit_socket_go.Protocol.SchemaWire.{Msgpack}
use bit_socket_go.Server.Types.{EventPacket, Middleware}
use bit_socket_go.Client.{Client, Action, handle_message, ping_tick, handle_close}
use bit_socket_go.Client.Connect.{of_client}
use bit_socket_go.Client.Namespace
use bit_socket_go.Client.Namespace.{close_client}
use bit_socket_go.Client.Reconnect.{dial, reconnect}

module _ (mp : Msgpack) (ext : Externals) where
  pub data Step : Client → Client → Type 0 where
    listens : (nsp event : Text) (c : Client) → Step c (Namespace.on nsp event c)
    uses :
        (nsp : Text) (mw : Middleware EventPacket ⊥) (c : Client)
        → Step c (Namespace.use_middleware nsp mw c)
    declares :
        (nsp : Text) (schemas : List Schema) (c : Client) → Step c (Namespace.schema nsp schemas c)
    opens :
        (nsp : Text) (c c' : Client) (out : List Action)
        → of_client c nsp ≡ ok (c', out)
        → Step c c'
    emits :
        (nsp event : Text) (payload : Value) (cb : Option ℕ) (c c' : Client) (out : List Action)
        → Namespace.emit_ack ext nsp event payload cb c ≡ ok (c', out)
        → Step c c'
    leaves : (nsp : Text) (c : Client) → Step c (Namespace.close nsp c).0
    closes : (c : Client) → Step c (close_client c).0
    receives :
        (raw : Slice) (c c' : Client) (out : List Action)
        → c.connected ≡ true
        → handle_message mp ext raw c ≡ ok (c', out)
        → Step c c'
    ticks : (c c' : Client) (out : List Action) → ping_tick c ≡ ok (c', out) → Step c c'
    dials :
        (answers : Bool) (c c' : Client) (out : List Action)
        → dial answers c ≡ ok (c', out)
        → Step c c'
    loses : (c c' : Client) (out : List Action) → handle_close c ≡ ok (c', out) → Step c c'
    retries :
        (attempt : ℕ) (answers : Bool) (c c' : Client) (out : List Action)
        → reconnect attempt answers c ≡ ok (c', out)
        → Step c c'

  pub data Reach (c₀ : Client) : Client → Type 0 where
    start : Reach c₀ c₀
    step : (c c' : Client) → Reach c₀ c → Step c c' → Reach c₀ c'
