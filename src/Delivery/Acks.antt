-- ===== src/Delivery/Acks.antt =====
-- An acknowledgement from invokeHandler of server/socket.go to handleMessage of client/client.go.
use bit_socket_go.Base.{
  ℕ, ◌<◌, ◌^◌, ◌≡◌, ◌≢◌, refl, ap, ◌∙◌, Option-cases, inl, inr, arith, true, false, ltb, Text,
  Bytes, [], ◌∷◌, length, Option, none, some, lookup, Outcome, ok,
}
use bit_socket_go.Protocol.Types.{Value, null, Externals}
use bit_socket_go.Protocol.Words.{Slice}
use bit_socket_go.Protocol.FrameType
use bit_socket_go.Protocol.Schema.{Schema, decode_payload}
use bit_socket_go.Protocol.SchemaWire.{Msgpack}
use bit_socket_go.Protocol.Frame.{
  FrameHeader, FrameOptions, nsp_or_root, default_serializers, default_decode_payload,
}
use bit_socket_go.Protocol.Frame.Encoding.{frame_bytes, encode_frame-layout}
use bit_socket_go.Protocol.Frame.Header.{decode_frame_header-frame_bytes}
use bit_socket_go.Protocol.Frame.RoundTrip.{FlateLaws, payload_bytes-default}
use bit_socket_go.Server.Types.{Socket, EventPacket, EventHandler, acknowledges, write, called}
use bit_socket_go.Server.Socket.{send, send_encoded, send_ack, run_reactions, invoke_handler}
use bit_socket_go.Client.{Client, Channel, unless_bad, handle_ack, handle_frame, handle_message}
use bit_socket_go.Client.Schemas.{schema_key, bucket, decode_app_payload}
use bit_socket_go.Delivery.Events.{taken}

-- What the client takes for the answer: by its schema of the event, if it has one.
abbrev pub read_as : Externals → Option Schema → Value → Slice → Outcome Value
read_as ext none v payload = ok v
read_as ext (some s) v payload = decode_payload ext s.definition payload

acknowledged :
    (mp : Msgpack) (ext : Externals) (c : Client) (channel : Channel) (hdr : FrameHeader)
    (payload : Slice)
    → hdr.frame_type ≡ FrameType.ack
    → handle_frame mp ext hdr payload channel c
      ≡ unless_bad
          (decode_app_payload ext c.serializers c.store payload hdr.event hdr.nsp)
          (λ v. ok (handle_ack hdr.ack_id v c))
          c
unfolding handle_frame
acknowledged mp ext c channel hdr payload is = rw (handle_frame, is) refl

module _ (ext : Externals) (packed packet : Bytes) (answer : Value) (given : answer ≢ null)
    (packs : ext.marshal answer ≡ ok packed) (deflates : ext.deflate packed ≡ ok packet) where
  answers :
      (s : Socket) (event : Text) (n : ℕ)
      → s.closed ≡ false
      → 0 < n
      → run_reactions (default_serializers ext) s event n (acknowledges answer ∷ [])
        ≡ ok (write s.conn (frame_bytes FrameType.ack (nsp_or_root s.nsp) event n packet) ∷ [])
  unfolding run_reactions send_ack send_encoded send
  answers s event n open_ asked =
      let can : ltb 0 n ≡ true = ground (arith, asked) in
      let opts : FrameOptions = record {
        frame_type = FrameType.ack;
        nsp = s.nsp;
        event = event;
        ack_id = n;
        payload = answer;
      } in
      rw
        (
          run_reactions,
          send_ack,
          can,
          encode_frame-layout opts (default_serializers ext),
          payload_bytes-default ext answer given,
          packs,
          deflates,
        )
        (rw open_ refl)

  read :
      (flate : FlateLaws ext) (v : Value) (c : Client) (event nsp : Text) (packet' spare : Bytes)
      → ext.unmarshal packed ≡ ok v
      → c.serializers ≡ default_serializers ext
      → ext.deflate packed ≡ ok packet'
      → decode_app_payload ext c.serializers c.store
          (record { items = packet'; spare = spare })
          event
          nsp
        ≡ read_as ext
            (lookup event (bucket (schema_key nsp) c.store))
            v
            (record { items = packet'; spare = spare })
  unfolding decode_app_payload default_serializers default_decode_payload
  read flate v c event nsp [] spare unpacks codec d = absurd (flate.deflate_ne packed d)
  read flate v c event nsp (b ∷ bs) spare unpacks codec d =
      elim (Option-cases (lookup event (bucket (schema_key nsp) c.store))) [
        | inl unknown ↦
            rw (decode_app_payload, unknown, codec, flate.inflate_deflate packed (b ∷ bs) d) unpacks
        | inr (schema, known) ↦ rw (decode_app_payload, known) refl
      ]

  -- A listener of a server's open socket that does nothing but answer once, with anything but nil, makes
  -- an ACK frame,
  -- with the number that it was asked under. At a client with the namespace and without a schema for
  -- the event, that number's callback gets the answer as msgpack gives it back; at a client with a
  -- schema for the event, the schema's decoder is run on the bytes that the default codec made. Both
  -- sides have the default codec, the packages keep their laws, and the names and the number fit.
  pub handle_message-invoke_handler :
      (mp : Msgpack) (flate : FlateLaws ext) (s : Socket) (handler : EventHandler)
      (event_packet : EventPacket) (n : ℕ) (v : Value) (c : Client) (channel : Channel)
      (spare : Bytes)
      → s.closed ≡ false
      → lookup event_packet.event s.listeners ≡ some handler
      → handler event_packet.payload true ≡ acknowledges answer ∷ []
      → 0 < n
      → n < 2 ^ 32
      → length s.nsp < 2 ^ 8
      → length event_packet.event < 2 ^ 8
      → nsp_or_root s.nsp ≡ s.nsp
      → ext.unmarshal packed ≡ ok v
      → c.serializers ≡ default_serializers ext
      → lookup s.nsp c.namespaces ≡ some channel
      → (raw : Bytes) × (invoke_handler (default_serializers ext) s event_packet n
          ≡ ok (called event_packet.event event_packet.payload true ∷ write s.conn raw ∷ []))
        × (handle_message mp ext (record { items = raw; spare = spare }) c
            ≡ unless_bad
                (read_as ext
                  (lookup event_packet.event (bucket (schema_key s.nsp) c.store))
                  v
                  (record { items = packet; spare = spare }))
                (λ payload. ok (handle_ack n payload c))
                c)
  unfolding invoke_handler
  handle_message-invoke_handler mp flate s handler p n v c channel spare open_ listens replies asked
        small hn he root unpacks codec joined =
      let raw = frame_bytes FrameType.ack s.nsp p.event n packet in
      let hdr : FrameHeader = record {
        frame_type = FrameType.ack;
        nsp = s.nsp;
        event = p.event;
        ack_id = n;
      } in
      let can : ltb 0 n ≡ true = ground (arith, asked) in
      let sent = rw root at (answers s p.event n open_ asked) in
      let payload : Slice = record { items = packet; spare = spare } in
      (
        raw,
        rw (invoke_handler, listens, can, replies, sent) refl,
        taken mp ext c channel (record { items = raw; spare = spare }) hdr payload
              (decode_frame_header-frame_bytes FrameType.ack n s.nsp p.event packet spare hn he
                small)
              joined
            ∙ acknowledged mp ext c channel hdr payload refl
            ∙ ap (λ r. unless_bad r (λ payload. ok (handle_ack n payload c)) c)
                (read flate v c p.event s.nsp packet spare unpacks codec deflates),
      )
