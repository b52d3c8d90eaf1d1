-- ===== src/Client/Namespace.antt =====
-- client/namespace.go: what the user does with a namespace, and the same methods of Client in
-- client/client.go, which pass a call on to the root namespace.
use bit_socket_go.Base.{
  ℕ, true, ◌++◌, Text, List, [], ◌∷◌, text, ◌=?◌, if◌then◌else◌, Option, none, some, lookup, insert,
  Outcome,
}
use bit_socket_go.Protocol.Types.{Value, Externals}
use bit_socket_go.Protocol.Schema.{Schema}
use bit_socket_go.Server.Types.{EventPacket, Middleware}
use bit_socket_go.Client.{Client, Channel, Action, hung_up}
use bit_socket_go.Client.Emit.{do_emit, do_join, do_leave}
use bit_socket_go.Client.Schemas.{register_schemas}

-- A namespace is a pointer that the client's table holds at its own name.
unfoldable pub change_channel : Text → (Channel → Channel) → Client → Client
change_channel nsp f c = elim (lookup nsp c.namespaces) [
  | none ↦ c
  | some ns ↦ record c { namespaces = insert nsp (f ns) c.namespaces }
]

-- `Close` of Client: reconnections stop, and the connection is closed.
unfoldable pub close_client : Client → Client × List Action
close_client c = (record c { closed_by_user = true }, if c.connected then hung_up ∷ [] else [])

unfoldable pub schema : Text → List Schema → Client → Client
schema nsp schemas c = record c { store = register_schemas nsp schemas c.store }

unfoldable pub on : Text → Text → Client → Client
unfolding change_channel
on nsp event c = change_channel nsp (λ ns. record ns { listeners = insert event tt ns.listeners }) c

unfoldable pub on_schema : Text → Schema → Client → Client
unfolding on
on_schema nsp schema c = on nsp schema.name c

unfoldable pub use_middleware : Text → Middleware EventPacket ⊥ → Client → Client
unfolding change_channel
use_middleware nsp mw c =
    change_channel nsp (λ ns. record ns { middlewares = ns.middlewares ++ mw ∷ [] }) c

unfoldable pub close : Text → Client → Client × List Action
unfolding change_channel close_client
close nsp c =
    let cleared = change_channel nsp (λ ns. record ns { listeners = [] }) c in
    if nsp =? text "/" then close_client cleared else (cleared, [])

module _ (ext : Externals) where
  unfoldable pub emit : Text → Text → Value → Client → Outcome (Client × List Action)
  emit nsp event payload c = do_emit ext c event payload none nsp

  -- `cb` may be nil.
  unfoldable pub emit_ack : Text → Text → Value → Option ℕ → Client → Outcome (Client × List Action)
  emit_ack nsp event payload cb c = do_emit ext c event payload cb nsp

unfoldable pub join : Text → Text → Client → Outcome (List Action)
join nsp room c = do_join c room nsp

unfoldable pub leave : Text → Text → Client → Outcome (List Action)
leave nsp room c = do_leave c room nsp

-- The same methods of Client, on its root namespace.
unfoldable pub root_schema : List Schema → Client → Client
root_schema schemas c = schema c.nsp schemas c

unfoldable pub root_on : Text → Client → Client
root_on event c = on c.nsp event c

unfoldable pub root_use : Middleware EventPacket ⊥ → Client → Client
root_use mw c = use_middleware c.nsp mw c

unfoldable pub root_emit : Externals → Text → Value → Client → Outcome (Client × List Action)
root_emit ext event payload c = emit ext c.nsp event payload c

unfoldable pub root_emit_ack :
    Externals → Text → Value → Option ℕ → Client → Outcome (Client × List Action)
root_emit_ack ext event payload cb c = emit_ack ext c.nsp event payload cb c

unfoldable pub root_join : Text → Client → Outcome (List Action)
root_join room c = join c.nsp room c

unfoldable pub root_leave : Text → Client → Outcome (List Action)
root_leave room c = leave c.nsp room c
