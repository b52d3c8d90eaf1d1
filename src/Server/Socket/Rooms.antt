-- ===== src/Server/Socket/Rooms.antt =====
-- The rooms of a socket in server/socket.go, and the frames by which a client joins and leaves them.
use bit_socket_go.Base.{
  ℕ, ◌≡◌, refl, arith, true, false, Text, [], ◌=?◌, =?_refl, if◌then◌else◌, some, lookup-insert,
  lookup-remove, ok, text,
}
use bit_socket_go.Protocol.Types.{Value, str, dict, end, entry}
use bit_socket_go.Protocol.Coerce.{get_entry}
use bit_socket_go.Protocol.FrameType
use bit_socket_go.Protocol.Frame.{Serializers, Frame}
use bit_socket_go.Server.Types.{Socket}
use bit_socket_go.Server.Socket.{join, leave, has_room, room_from_payload, dispatch, dispatch_type}

pub has_room-join :
    (s : Socket) (room other : Text)
    → has_room (join s room) other ≡ (if room =? other then true else has_room s other)
unfolding has_room join
has_room-join s room other = ground (arith, lookup-insert room other tt s.rooms)

pub has_room-leave :
    (s : Socket) (room other : Text)
    → has_room (leave s room) other ≡ (if room =? other then false else has_room s other)
unfolding has_room leave
has_room-leave s room other = ground (arith, lookup-remove room other s.rooms)

-- The payload of a JOIN or LEAVE frame, as the client makes it.
abbrev pub room_payload : Text → Value
room_payload room = dict (entry (text "room") (str room) end)

room_from_payload-room_payload : (room : Text) → room_from_payload (room_payload room) ≡ some room
unfolding room_from_payload get_entry ◌=?◌
room_from_payload-room_payload room = refl

abbrev pub room_frame : ℕ → Text → Text → ℕ → Text → Frame
room_frame frame_type nsp event ack_id room = record {
  header = record { frame_type = frame_type; nsp = nsp; event = event; ack_id = ack_id };
  payload = room_payload room;
}

pub join_lem :
    (ser : Serializers) (s : Socket) (event room : Text) (ack_id : ℕ)
    → dispatch ser s (room_frame FrameType.join s.nsp event ack_id room) ≡ ok (join s room, [])
unfolding dispatch dispatch_type
join_lem ser s event room ack_id = rw (=?_refl, room_from_payload-room_payload)

pub leave_lem :
    (ser : Serializers) (s : Socket) (event room : Text) (ack_id : ℕ)
    → dispatch ser s (room_frame FrameType.leave s.nsp event ack_id room) ≡ ok (leave s room, [])
unfolding dispatch dispatch_type
leave_lem ser s event room ack_id = rw (=?_refl, room_from_payload-room_payload)

-- A JOIN frame for the socket's namespace puts the socket in its room and changes no other room; a
-- LEAVE frame takes it out of its room and changes no other. Neither sends anything.
pub dispatch-has_room :
    (ser : Serializers) (s : Socket) (event room other : Text) (ack_id : ℕ)
    → (joined : Socket) × (left : Socket) × (dispatch ser s
          (room_frame FrameType.join s.nsp event ack_id room)
        ≡ ok (joined, []))
      × (dispatch ser s (room_frame FrameType.leave s.nsp event ack_id room) ≡ ok (left, []))
      × (has_room joined other ≡ (if room =? other then true else has_room s other))
      × (has_room left other ≡ (if room =? other then false else has_room s other))
dispatch-has_room ser s event room other ack_id = (
  join s room,
  leave s room,
  join_lem ser s event room ack_id,
  leave_lem ser s event room ack_id,
  has_room-join s room other,
  has_room-leave s room other,
)
