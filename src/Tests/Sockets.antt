-- ===== src/Tests/Sockets.antt =====
-- Witnesses for the properties of sockets and namespaces, server/socket.go and namespace.go.
pub mod Hubs
use mathlib.Core.List.Perm
use bit_socket_go.Base.{
  ℕ, ◌≡◌, refl, sym, ◌∙◌, arith, Bool, true, false, ◌=?◌, ◌==◌, if◌then◌else◌, Text, Bytes, List,
  [], ◌∷◌, map, text, All, Option, none, some, lookup, Outcome, ok, ◌↔◌, inl, inr,
}
use bit_socket_go.Protocol.Types.{Value, null, bool, unsigned, native}
use bit_socket_go.Protocol.Words.{put_uint32}
use bit_socket_go.Protocol.FrameType
use bit_socket_go.Protocol.Frame.{
  FrameOptions, FrameHeader, Frame, Serializers, default_serializers, default_encode_payload,
  payload_bytes, encode_frame,
}
use bit_socket_go.Protocol.Frame.Encoding.{frame_bytes, encode_frame-layout}
use bit_socket_go.Server.Types.{
  Handshake, EventPacket, EventHandler, acknowledges, performs, entered, exited, passes, fails,
  Step, Socket, Namespace, Server, Hub, Effect, write, called,
}
use bit_socket_go.Server.Chain.{Effects, once, run_chain, run_steps}
use bit_socket_go.Server.Socket.{
  dispatch, process_event, invoke_handler, run_reactions, reject_event, send_encoded, send,
  has_room, join, leave,
}
use bit_socket_go.Server.Socket.Rooms.{room_frame, dispatch-has_room}
use bit_socket_go.Server.Namespace.{
  encode_event, to_excluding, emit_excluding, broadcast, serializers_for, schema_for,
}
use bit_socket_go.Server.Namespace.Broadcast.{
  Occurs, IsOther, IsRoommate, SomeReceives, to_excluding-Occurs, emit_excluding-Occurs,
}
use bit_socket_go.Server.Namespace.Order.{SameEffects, emit_excluding-Perm}
use bit_socket_go.Tests.{world}

abbrev pub codec : Serializers
codec = default_serializers world

abbrev pub hands : Handshake
hands = record { headers = []; url = text "/"; time = 0 }

-- Tells Bob, rejects the event named "bad" and lets the others pass.
abbrev check : EventPacket → Step EventPacket Effect
check packet = record {
  change = λ p. p;
  performs = write 8 (1 ∷ []) ∷ [];
  call = if packet.event =? text "bad" then fails (text "no") else passes;
}

-- Acknowledges with what it got, or tells Bob.
abbrev pub echo : EventHandler
echo v can = if can then acknowledges v ∷ [] else performs (write 8 (2 ∷ [])) ∷ []

abbrev pub alice : Socket
alice = record {
  id = text "a1";
  nsp = text "/chat";
  handshake = hands;
  conn = 7;
  closed = false;
  rooms = (text "a1", tt) ∷ (text "lobby", tt) ∷ [];
  listeners = (text "msg", echo) ∷ [];
  middlewares = map once (check ∷ []);
}

abbrev pub bob : Socket
bob = record alice { id = text "b1"; conn = 8; rooms = (text "b1", tt) ∷ (text "lobby", tt) ∷ [] }

abbrev message : ℕ → ℕ → Frame
message frame_type ack_id = record {
  header = record {
    frame_type = frame_type;
    nsp = text "/chat";
    event = text "msg";
    ack_id = ack_id;
  };
  payload = null;
}

-- Without a number, the middleware's effect, the call, and the listener's own effect.
unasked :
    process_event codec alice (message 2 0)
    ≡ ok (write 8 (1 ∷ []) ∷ called (text "msg") null false ∷ write 8 (2 ∷ []) ∷ [])
unfolding process_event invoke_handler run_reactions run_chain run_steps lookup ◌=?◌
unasked = refl

-- A listener that moves Alice from the lobby to another room.
abbrev moving : Socket
moving = record alice {
  listeners =
      (text "msg", λ v can. performs (exited (text "lobby")) ∷ performs (entered (text "red")) ∷ [])
      ∷ [];
}

abbrev moved : Effects
moved =
    write 8 (1 ∷ [])
    ∷ called (text "msg") null true
    ∷ exited (text "lobby")
    ∷ entered (text "red")
    ∷ []

abbrev at_red : Socket
at_red = record moving { rooms = (text "a1", tt) ∷ (text "red", tt) ∷ [] }

dispatch-has_room_example :
    (joined : Socket) × (left : Socket) × (dispatch codec alice
        (room_frame FrameType.join (text "/chat") [] 0 (text "red"))
      ≡ ok (joined, []))
    × (dispatch codec alice (room_frame FrameType.leave (text "/chat") [] 0 (text "red"))
        ≡ ok (left, []))
    × (has_room joined (text "red")
        ≡ (if text "red" =? text "red" then true else has_room alice (text "red")))
    × (has_room left (text "red")
        ≡ (if text "red" =? text "red" then false else has_room alice (text "red")))
dispatch-has_room_example = dispatch-has_room codec alice [] (text "red") (text "red") 0

abbrev pub chat_space : Namespace
chat_space = record {
  name = text "/chat";
  members = 0 ∷ 1 ∷ [];
  conn_middlewares = [];
  conn_handlers = [];
  schemas = [];
}

abbrev pub house : Server
house = record {
  serializers = codec;
  use_schemas = true;
  allowed_origins = text "https://a.example" ∷ [];
  namespaces =
      (text "/", record chat_space { name = text "/"; members = [] })
      ∷ (text "/chat", chat_space)
      ∷ [];
  store = alice ∷ bob ∷ [];
}

abbrev msg_bytes : Bytes
msg_bytes = frame_bytes 2 (text "/chat") (text "msg") 0 []

abbrev event_opts : Text → FrameOptions
event_opts event = record {
  frame_type = 2;
  nsp = text "/chat";
  event = event;
  ack_id = 0;
  payload = null;
}

msg_made : encode_event world house chat_space (text "msg") null ≡ ok msg_bytes
unfolding payload_bytes
msg_made =
    encode_frame-layout (event_opts (text "msg"))
      (serializers_for world house chat_space (text "msg"))

msg_to_lobby :
    to_excluding world house chat_space (text "lobby") (text "msg") null (some 0)
    ≡ ok (write 8 msg_bytes ∷ [])
unfolding to_excluding broadcast has_room lookup ◌=?◌ send
msg_to_lobby = rw (to_excluding, msg_made) refl

msg_to_others :
    emit_excluding world house chat_space (text "msg") null (some 0) ≡ ok (write 8 msg_bytes ∷ [])
unfolding emit_excluding broadcast send
msg_to_others = rw (emit_excluding, msg_made) refl

to_excluding-Occurs_example : Occurs (write 8 msg_bytes) (write 8 msg_bytes ∷ []) ↔ (
    (conn : ℕ) × (write 8 msg_bytes ≡ write conn msg_bytes)
    × SomeReceives house.store (IsRoommate (text "lobby") (some 0)) conn (0 ∷ 1 ∷ []))
to_excluding-Occurs_example =
    to_excluding-Occurs world house chat_space (text "lobby") (text "msg") null (some 0) msg_bytes
      (write 8 msg_bytes ∷ []) (write 8 msg_bytes) msg_made msg_to_lobby

emit_excluding-Occurs_example : Occurs (write 8 msg_bytes) (write 8 msg_bytes ∷ []) ↔ (
    (conn : ℕ) × (write 8 msg_bytes ≡ write conn msg_bytes)
    × SomeReceives house.store (IsOther (some 0)) conn (0 ∷ 1 ∷ []))
emit_excluding-Occurs_example =
    emit_excluding-Occurs world house chat_space (text "msg") null (some 0) msg_bytes
      (write 8 msg_bytes ∷ []) (write 8 msg_bytes) msg_made msg_to_others

-- Alice and Bob the other way round.
emit_excluding-Perm_example :
    SameEffects (emit_excluding world house chat_space (text "msg") null none) (
      emit_excluding world house
        (record chat_space { members = 1 ∷ 0 ∷ [] })
        (text "msg")
        null
        none)
    × SameEffects (to_excluding world house chat_space (text "lobby") (text "msg") null none) (
        to_excluding world house
          (record chat_space { members = 1 ∷ 0 ∷ [] })
          (text "lobby")
          (text "msg")
          null
          none)
emit_excluding-Perm_example =
    emit_excluding-Perm world house chat_space (1 ∷ 0 ∷ []) (text "msg") null none (text "lobby")
      (Perm.swap 1 0 [])
