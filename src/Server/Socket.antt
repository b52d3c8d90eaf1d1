-- ===== src/Server/Socket.antt =====
-- server/socket.go: one client on one namespace of a connection.
pub mod Rooms
pub mod Events
pub mod Kept
pub mod Settled
use bit_socket_go.Base.{
  ℕ, zero, suc, ◌+◌, ◌-◌, ◌/◌, ◌%◌, ◌<◌, Bool, true, false, not, Text, Bytes, List, [], ◌∷◌, ◌++◌,
  map, text, ltb, ◌==◌, ◌=?◌, if◌then◌else◌, Option, none, some, Table, lookup, insert, remove,
  Outcome, ok, stop, error, panic, exhausted, ◌>>=◌,
}
use bit_socket_go.Protocol.Types.{Value, Entries, null, str, dict, end, entry}
use bit_socket_go.Protocol.Coerce.{get_entry}
use bit_socket_go.Protocol.FrameType
use bit_socket_go.Protocol.Schema.{Schema}
use bit_socket_go.Protocol.Frame.{Serializers, FrameOptions, FrameHeader, Frame, encode_frame}
use bit_socket_go.Server.Types.{
  Handshake, Socket, EventPacket, EventHandler, Reaction, acknowledges, performs, Middleware,
  Effect, write, close, called, entered, exited,
}
use bit_socket_go.Server.Chain.{Effects, run_chain}

abbrev hex_digit : ℕ → ℕ
hex_digit n = if ltb n 10 then b'0' + n else b'a' + (n - 10)

-- `hex.EncodeToString`.
unfoldable pub hex : Bytes → Text
hex [] = []
hex (b ∷ bs) = hex_digit (b / 16) ∷ hex_digit (b % 16) ∷ hex bs

abbrev first_bytes : Bytes
first_bytes = 0 ∷ 1 ∷ 2 ∷ 3 ∷ 4 ∷ 5 ∷ 6 ∷ 7 ∷ 8 ∷ 9 ∷ 10 ∷ 11 ∷ []

-- The argument is what `rand.Read` filled the buffer with, or `none` for its error.
unfoldable pub generate_socket_id : Option Bytes → Text
unfolding hex
generate_socket_id none = hex first_bytes
generate_socket_id (some random) = hex random

-- A new socket is in the room of its own id.
unfoldable pub new_socket : Text → ℕ → Text → Handshake → Socket
new_socket id conn nsp handshake = record {
  id = id;
  nsp = nsp;
  handshake = handshake;
  conn = conn;
  closed = false;
  rooms = (id, tt) ∷ [];
  listeners = [];
  middlewares = [];
}

unfoldable pub send : Socket → Bytes → Effects
send s buf = if s.closed then [] else write s.conn buf ∷ []

unfoldable pub close_conn : Socket → Socket × Effects
close_conn s = (record s { closed = true }, close s.conn ∷ [])

-- `Use`.
unfoldable pub use_middleware : Socket → Middleware EventPacket Effect → Socket
use_middleware s m = record s { middlewares = s.middlewares ++ m ∷ [] }

unfoldable pub on : Socket → Text → EventHandler → Socket
on s event handler = record s { listeners = insert event handler s.listeners }

unfoldable pub on_schema : Socket → Schema → EventHandler → Socket
unfolding on
on_schema s schema handler = on s schema.name handler

unfoldable pub join : Socket → Text → Socket
unfolding insert
join s room = record s { rooms = insert room tt s.rooms }

unfoldable pub leave : Socket → Text → Socket
unfolding remove
leave s room = record s { rooms = remove room s.rooms }

-- The rooms that code of the user has joined and left.
unfoldable pub settle : Effects → Socket → Socket
settle [] s = s
settle (entered room ∷ es) s = settle es (join s room)
settle (exited room ∷ es) s = settle es (leave s room)
settle (_ ∷ es) s = settle es s

unfoldable pub has_room : Socket → Text → Bool
unfolding lookup
has_room s room = elim (lookup room s.rooms) [ none ↦ false | some _ ↦ true ]

-- `Rooms`, in the order of the table; Go's order is random.
unfoldable pub rooms_of : Socket → List Text
rooms_of s = map (λ entry. entry.0) s.rooms

abbrev string_of : Value → Option Text
string_of (str t) = some t
string_of _ = none

unfoldable pub room_from_payload : Value → Option Text
room_from_payload (dict es) = string_of (get_entry (text "room") es)
room_from_payload _ = none

-- `buf, err := EncodeFrame(…); if err == nil { s.send(buf) }`.
unfoldable pub send_encoded : Socket → Outcome Bytes → Outcome Effects
send_encoded s (ok buf) = ok (send s buf)
send_encoded s (stop (error e)) = ok []
send_encoded s (stop panic) = stop panic
send_encoded s (stop exhausted) = stop exhausted

-- `map[string]interface{}{"message": message}`.
abbrev pub error_payload : Text → Value
error_payload message = dict (entry (text "message") (str message) end)

module _ (ser : Serializers) where
  -- What a call of `ack` does; ACK frames always use the server's own codec. Without an acknowledgement
  -- number `ack` is nil, and calling it panics.
  unfoldable pub send_ack : Socket → Text → ℕ → Value → Outcome Effects
  send_ack s event ack_id answer =
      if ltb 0 ack_id
      then send_encoded s (
          encode_frame
            (record {
              frame_type = FrameType.ack;
              nsp = s.nsp;
              event = event;
              ack_id = ack_id;
              payload = answer;
            })
            ser)
      else stop panic

  abbrev react : Socket → Text → ℕ → Reaction → Outcome Effects
  react s event ack_id (acknowledges answer) = send_ack s event ack_id answer
  react s event ack_id (performs effect) = ok (effect ∷ [])

  -- What a listener does, in its order.
  unfoldable pub run_reactions : Socket → Text → ℕ → List Reaction → Outcome Effects
  run_reactions s event ack_id [] = ok []
  run_reactions s event ack_id (x ∷ xs) = do
    out ← react s event ack_id x
    outs ← run_reactions s event ack_id xs
    ok (out ++ outs)

  unfoldable pub invoke_handler : Socket → EventPacket → ℕ → Outcome Effects
  invoke_handler s packet ack_id = elim (lookup packet.event s.listeners) [
    | none ↦ ok []
    | some handler ↦ do
      out ← run_reactions s packet.event ack_id (handler packet.payload (ltb 0 ack_id))
      ok (called packet.event packet.payload (ltb 0 ack_id) ∷ out)
  ]

  -- A middleware rejected the event.
  unfoldable pub reject_event : Socket → ℕ → Text → Outcome Effects
  reject_event s ack_id message =
      if ltb 0 ack_id
      then send_encoded s (
          encode_frame
            (record {
              frame_type = FrameType.ack;
              nsp = s.nsp;
              event = text "error";
              ack_id = ack_id;
              payload = error_payload message;
            })
            ser)
      else ok []

  abbrev pub finish_event : Socket → ℕ → EventPacket → Outcome (EventPacket × Effects)
  finish_event s ack_id packet = invoke_handler s packet ack_id >>= λ out. ok (packet, out)

  abbrev pub reject_packet : Socket → ℕ → Text → EventPacket → Outcome (EventPacket × Effects)
  reject_packet s ack_id message packet = reject_event s ack_id message >>= λ out. ok (packet, out)

  unfoldable pub process_event : Socket → Frame → Outcome Effects
  process_event s frame = do
    (packet, out) ←
        run_chain (λ es. es) (finish_event s frame.ack_id) (reject_packet s frame.ack_id)
          s.middlewares (record { event = frame.event; payload = frame.payload })
    ok out

  abbrev join_room : Socket → Option Text → Socket
  join_room s none = s
  join_room s (some room) = join s room

  abbrev leave_room : Socket → Option Text → Socket
  leave_room s none = s
  leave_room s (some room) = leave s room

  -- The cases on the frame's type.
  unfoldable pub dispatch_type : Socket → Frame → Outcome (Socket × Effects)
  dispatch_type s frame =
      if frame.frame_type == FrameType.event
      then (do out ← process_event s frame; ok (settle out s, out))
      else if frame.frame_type == FrameType.join
      then ok (join_room s (room_from_payload frame.payload), [])
      else if frame.frame_type == FrameType.leave
      then ok (leave_room s (room_from_payload frame.payload), [])
      else if frame.frame_type == FrameType.ping
      then (do
        out ← send_encoded s (
            encode_frame
              (record {
                frame_type = FrameType.pong;
                nsp = s.nsp;
                event = [];
                ack_id = 0;
                payload = null;
              })
              ser)
        ok (s, out))
      else ok (s, [])

  unfoldable pub dispatch : Socket → Frame → Outcome (Socket × Effects)
  unfolding ◌=?◌
  dispatch s frame = if frame.nsp =? s.nsp then dispatch_type s frame else ok (s, [])
