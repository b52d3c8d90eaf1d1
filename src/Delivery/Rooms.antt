-- ===== src/Delivery/Rooms.antt =====
-- Join and Leave of client/namespace.go, to the rooms of the client's socket in server/socket.go.
use bit_socket_go.Base.{
  ℕ, ◌<◌, ◌^◌, ◌≡◌, ◌⊎◌, inl, inr, refl, ap, ◌∙◌, arith, true, false, Text, Bytes, [], ◌∷◌, ◌=?◌,
  if◌then◌else◌, length, none, some, lookup, get_elem?, get_elem?-set, set, ok,
}
use bit_socket_go.Protocol.Types.{Value, Externals}
use bit_socket_go.Protocol.FrameType
use bit_socket_go.Protocol.Frame.{
  Frame, FrameHeader, nsp_or_root, encode_frame, decode_frame_payload, decode_frame,
  default_serializers,
}
use bit_socket_go.Protocol.Frame.Encoding.{frame_bytes, encode_frame-layout}
use bit_socket_go.Protocol.Frame.Header.{decode_frame_header-frame_bytes}
use bit_socket_go.Protocol.Frame.RoundTrip.{FlateLaws, payload_bytes-default}
use bit_socket_go.Server.Types.{Namespace, Server, Socket}
use bit_socket_go.Server.Namespace.{schema_for}
use bit_socket_go.Server.Socket.{join, leave, has_room, dispatch}
use bit_socket_go.Server.Socket.Rooms.{
  room_frame, join_lem, leave_lem, has_room-join, has_room-leave,
}
use bit_socket_go.Server.Hub.{
  State, socket_at, change_socket, hub_serializers, decode_with_schema, dispatch_frame,
  handle_frame, handle_message,
}
use bit_socket_go.Client.{Client, sent, plain, send_made, safe_send}
use bit_socket_go.Client.Emit.{room_of, do_join, do_leave}

module _ (ext : Externals) (c : Client) (nsp room : Text) (packed packet : Bytes)
    (codec : c.serializers ≡ default_serializers ext) (open_ : c.connected ≡ true)
    (packs : ext.marshal (room_of room) ≡ ok packed)
    (deflates : ext.deflate packed ≡ ok packet) where
  sends :
      (frame_type : ℕ)
      → send_made c (encode_frame (plain frame_type nsp (room_of room)) c.serializers)
        ≡ ok (sent (frame_bytes frame_type (nsp_or_root nsp) [] 0 packet) ∷ [])
  unfolding send_made safe_send
  sends frame_type =
      rw
        (
          codec,
          encode_frame-layout (plain frame_type nsp (room_of room)) (default_serializers ext),
          payload_bytes-default ext (room_of room) cc,
          packs,
          deflates,
        )
        (rw open_ refl)

module _ (ext : Externals) (flate : FlateLaws ext) (packed : Bytes) (v : Value)
    (unpacks : ext.unmarshal packed ≡ ok v) (srv : Server) (ns : Namespace)
    (codec : srv.serializers ≡ default_serializers ext) (nsp : Text)
    (here : lookup nsp srv.namespaces ≡ some ns) (untyped : schema_for ns [] ≡ none) where
  arrives :
      (packet spare : Bytes) (hdr : FrameHeader)
      → hdr.nsp ≡ nsp
      → hdr.event ≡ []
      → ext.deflate packed ≡ ok packet
      → decode_frame_payload
          (record { items = packet; spare = spare })
          hdr
          (hub_serializers ext srv)
        ≡ ok v
  unfolding decode_frame_payload decode_with_schema default_serializers
  arrives [] spare hdr n e deflates = absurd (flate.deflate_ne packed deflates)
  arrives (b ∷ bs) spare hdr n e deflates =
      ap (λ e. decode_with_schema ext srv (record { items = b ∷ bs; spare = spare }) e hdr.nsp) e
      ∙ ap (decode_with_schema ext srv (record { items = b ∷ bs; spare = spare }) []) n
      ∙ rw
          (decode_with_schema, here, untyped, codec, flate.inflate_deflate packed (b ∷ bs) deflates)
          unpacks

module _ (ext : Externals) (id : Text) (st : State) (r : ℕ) (s : Socket)
    (is : socket_at r st.server ≡ some s) (joined : lookup s.nsp st.hub.joined ≡ some r) where
  taken :
      (frame : Frame) (s' : Socket)
      → frame.frame_type ≡ FrameType.join ⊎ frame.frame_type ≡ FrameType.leave
      → frame.nsp ≡ s.nsp
      → dispatch st.server.serializers s frame ≡ ok (s', [])
      → handle_frame ext id frame st ≡ ok (change_socket r (λ _. s') st, [])
  unfolding handle_frame dispatch_frame
  taken frame s' (inl type) n e =
      rw (handle_frame, type, n, joined) (rw (dispatch_frame, is, e) refl)
  taken frame s' (inr type) n e =
      rw (handle_frame, type, n, joined) (rw (dispatch_frame, is, e) refl)

  rooms_at-change_socket :
      (s' : Socket) → socket_at r (change_socket r (λ _. s') st).server ≡ some s'
  unfolding change_socket
  rooms_at-change_socket s' =
      ap
        (λ found.
          get_elem? (elim found [ none ↦ st.server.store | some s ↦ set st.server.store r s' ]) r)
        is
      ∙ get_elem?-set st.server.store r r s s' is
      ∙ ground arith

module _ (ext : Externals) (id : Text) (c : Client) (st : State) (r : ℕ) (s : Socket)
    (ns : Namespace) (room : Text) (packed packet spare : Bytes) where
  received :
      (frame_type : ℕ)
      → FlateLaws ext
      → st.server.serializers ≡ default_serializers ext
      → ext.unmarshal packed ≡ ok (room_of room)
      → ext.deflate packed ≡ ok packet
      → length s.nsp < 2 ^ 8
      → lookup s.nsp st.server.namespaces ≡ some ns
      → schema_for ns [] ≡ none
      → handle_message ext id
          (record { items = frame_bytes frame_type s.nsp [] 0 packet; spare = spare })
          st
        ≡ handle_frame ext id (room_frame frame_type s.nsp [] 0 room) st
  unfolding handle_message decode_frame
  received frame_type flate codec unpacks deflates fits here untyped =
      let hdr : FrameHeader = record {
        frame_type = frame_type;
        nsp = s.nsp;
        event = [];
        ack_id = 0;
      } in
      rw
        (
          handle_message,
          decode_frame,
          decode_frame_header-frame_bytes frame_type 0 s.nsp [] packet spare fits (omega arith)
              (omega arith),
          arrives ext flate packed (room_of room) unpacks st.server ns codec s.nsp here untyped
              packet spare hdr refl refl deflates,
        )
        refl

  -- Join and Leave of a client that is connected make a frame each, with which the server puts the
  -- client's socket in the room and takes it out of it, changing none of its other rooms and
  -- answering nothing. Both sides have the default codec, the payload survives msgpack and the
  -- packages keep their laws, the namespace's name fits its field and is not empty, and the
  -- namespace has no schema for the event "".
  pub handle_message-do_join :
      FlateLaws ext
      → c.serializers ≡ default_serializers ext
      → st.server.serializers ≡ default_serializers ext
      → c.connected ≡ true
      → ext.marshal (room_of room) ≡ ok packed
      → ext.unmarshal packed ≡ ok (room_of room)
      → ext.deflate packed ≡ ok packet
      → length s.nsp < 2 ^ 8
      → nsp_or_root s.nsp ≡ s.nsp
      → lookup s.nsp st.server.namespaces ≡ some ns
      → schema_for ns [] ≡ none
      → lookup s.nsp st.hub.joined ≡ some r
      → socket_at r st.server ≡ some s
      → (join_frame leave_frame : Bytes) × (inside outside : State) × (joined left : Socket)
        × (do_join c room s.nsp ≡ ok (sent join_frame ∷ []))
        × (do_leave c room s.nsp ≡ ok (sent leave_frame ∷ []))
        × (handle_message ext id (record { items = join_frame; spare = spare }) st
            ≡ ok (inside, []))
        × (handle_message ext id (record { items = leave_frame; spare = spare }) st
            ≡ ok (outside, []))
        × (socket_at r inside.server ≡ some joined)
        × (socket_at r outside.server ≡ some left)
        × ((other : Text)
            → (has_room joined other ≡ (if room =? other then true else has_room s other))
              × (has_room left other ≡ (if room =? other then false else has_room s other)))
  unfolding do_join do_leave
  handle_message-do_join flate mine theirs open_ packs unpacks deflates fits given here untyped
        joined is =
      let sending = sends ext c s.nsp room packed packet mine open_ packs deflates in
      let receiving = λ (n : ℕ). received n flate theirs unpacks deflates fits here untyped in
      let change = taken ext id st r s is joined in
      let stored = rooms_at-change_socket ext id st r s is joined in
      let ser = st.server.serializers in
      let frame = λ (n : ℕ). room_frame n s.nsp [] 0 room in
      (
        frame_bytes FrameType.join s.nsp [] 0 packet,
        frame_bytes FrameType.leave s.nsp [] 0 packet,
        change_socket r (λ _. join s room) st,
        change_socket r (λ _. leave s room) st,
        join s room,
        leave s room,
        sending FrameType.join ∙ rw given refl,
        sending FrameType.leave ∙ rw given refl,
        receiving FrameType.join
            ∙ change (frame FrameType.join) (join s room) (inl refl) refl
                (join_lem ser s [] room 0),
        receiving FrameType.leave
            ∙ change (frame FrameType.leave) (leave s room) (inr refl) refl
                (leave_lem ser s [] room 0),
        stored (join s room),
        stored (leave s room),
        λ other. (has_room-join s room other, has_room-leave s room other),
      )
