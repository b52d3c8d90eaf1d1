-- ===== src/Server/Socket/Events.antt =====
-- What an event comes to in server/socket.go: processEvent and invokeHandler.
use bit_socket_go.Base.{
  ℕ, ltb, if◌then◌else◌, Text, List, [], ◌∷◌, ◌++◌, text, none, some, lookup, Outcome, ok, stop,
  error, panic, exhausted, ◌>>=◌,
}
use bit_socket_go.Protocol.Types.{Value}
use bit_socket_go.Protocol.FrameType
use bit_socket_go.Protocol.Frame.{Serializers, Frame, payload_bytes, nsp_or_root}
use bit_socket_go.Protocol.Frame.Encoding.{frame_bytes}
use bit_socket_go.Server.Types.{
  Socket, EventPacket, Reaction, acknowledges, performs, write, called,
}
use bit_socket_go.Server.Chain.{Effects, Verdict, passed, rejected, dropped}
use bit_socket_go.Server.Socket.{error_payload}

abbrev pub packet_of : Frame → EventPacket
packet_of frame = record { event = frame.event; payload = frame.payload }

module _ (ser : Serializers) (s : Socket) (ack_id : ℕ) where
  -- The answer that goes out: one ACK frame with the number, if the socket is open and the codec takes
  -- the payload.
  abbrev pub answer : Text → Value → Outcome Effects
  answer event payload = elim (payload_bytes payload ser) [
    | ok bs ↦ ok (
        if s.closed
        then []
        else write s.conn (frame_bytes FrameType.ack (nsp_or_root s.nsp) event ack_id bs) ∷ [])
    | stop (error e) ↦ ok []
    | stop panic ↦ stop panic
    | stop exhausted ↦ stop exhausted
  ]

  -- What a listener comes to, in its order: an answer for each call of `ack`, which panics if the event
  -- has no number, and the listener's own effects.
  abbrev pub answers : Text → List Reaction → Outcome Effects
  answers event [] = ok []
  answers event (acknowledges v ∷ xs) = do
    out ← (if ltb 0 ack_id then answer event v else stop panic)
    outs ← answers event xs
    ok (out ++ outs)
  answers event (performs e ∷ xs) = do outs ← answers event xs; ok (e ∷ outs)

  -- What follows from a verdict on an event: one call of its listener, if there is one, with the packet
  -- as the middlewares left it; or, if the event has a number, an answer that says why not; or nothing.
  abbrev pub follow : Verdict EventPacket → Outcome Effects
  follow (passed packet) = elim (lookup packet.event s.listeners) [
    | none ↦ ok []
    | some handler ↦ do
      outs ← answers packet.event (handler packet.payload (ltb 0 ack_id))
      ok (called packet.event packet.payload (ltb 0 ack_id) ∷ outs)
  ]
  follow (rejected message packet) =
      if ltb 0 ack_id then answer (text "error") (error_payload message) else ok []
  follow (dropped packet) = ok []

-- The state of the chain is dropped.
effects_only : Outcome (EventPacket × Effects) → Outcome Effects
effects_only r = r >>= λ (packet, out). ok out
