-- ===== src/Server/Emit.antt =====
-- Emit, Broadcast and To of a socket, server/socket.go.
use bit_socket_go.Base.{ℕ, Text, [], none, some, lookup, Outcome, ok}
use bit_socket_go.Protocol.Types.{Value, Externals}
use bit_socket_go.Protocol.FrameType
use bit_socket_go.Protocol.Frame.{Serializers, encode_frame}
use bit_socket_go.Server.Types.{Socket, Server}
use bit_socket_go.Server.Chain.{Effects}
use bit_socket_go.Server.Socket.{send_encoded}
use bit_socket_go.Server.Namespace.{emit_excluding, to_excluding, serializers_for}

module _ (ext : Externals) where
  -- `Emit` of a socket, and `Emit` on what its `Broadcast()` and `To(room)` return; `r` is the socket.
  unfoldable pub emit_to_self : Server → ℕ → Socket → Text → Value → Outcome Effects
  emit_to_self srv r s event payload =
      let ser : Serializers = elim (lookup s.nsp srv.namespaces) [
        | none ↦ srv.serializers
        | some ns ↦ serializers_for ext srv ns event
      ] in
      send_encoded s (
        encode_frame
          (record {
            frame_type = FrameType.event;
            nsp = s.nsp;
            event = event;
            ack_id = 0;
            payload = payload;
          })
          ser)

  unfoldable pub emit_to_others : Server → ℕ → Socket → Text → Value → Outcome Effects
  emit_to_others srv r s event payload = elim (lookup s.nsp srv.namespaces) [
    | none ↦ ok []
    | some ns ↦ emit_excluding ext srv ns event payload (some r)
  ]

  unfoldable pub emit_to_room : Server → ℕ → Socket → Text → Text → Value → Outcome Effects
  emit_to_room srv r s room event payload = elim (lookup s.nsp srv.namespaces) [
    | none ↦ ok []
    | some ns ↦ to_excluding ext srv ns room event payload (some r)
  ]
