-- ===== src/Delivery/Events.antt =====
-- An event from Emit or To of server/namespace.go to handleMessage of client/client.go, where
-- its payload is laid out by a schema.
use bit_socket_go.Base.{
  ℕ, ◌<◌, ◌^◌, ◌≡◌, ◌≢◌, refl, ap, ◌∙◌, arith, Text, Bytes, [], ◌∷◌, ◌++◌, append-nil, length, none,
  some, lookup, ok, ◌>>=◌,
}
use bit_socket_go.Protocol.Types.{Value, null, Externals}
use bit_socket_go.Protocol.Words.{Slice}
use bit_socket_go.Protocol.FrameType
use bit_socket_go.Protocol.Schema.{Schema, encode_payload, decode_payload}
use bit_socket_go.Protocol.Schema.Typed.{HasType, IsKeyed}
use bit_socket_go.Protocol.Schema.Typed.Back.{Survives, decode_payload-encode_payload_typed}
use bit_socket_go.Protocol.SchemaWire.{Msgpack}
use bit_socket_go.Protocol.Frame.{FrameHeader, decode_frame_header, nsp_or_root, payload_bytes}
use bit_socket_go.Protocol.Frame.Encoding.{frame_bytes, encode_frame-layout}
use bit_socket_go.Protocol.Frame.Header.{decode_frame_header-frame_bytes}
use bit_socket_go.Server.Types.{Server, Namespace}
use bit_socket_go.Server.Namespace.{schema_for, serializers_for, encode_event}
use bit_socket_go.Client.{Client, Channel, trigger_event, handle_frame, handle_message}
use bit_socket_go.Client.Schemas.{schema_key, bucket, decode_app_payload}

module _ (ext : Externals) (srv : Server) (ns : Namespace) (event : Text) (s : Schema)
    (has : schema_for ns event ≡ some s) where
  payload_bytes-schema :
      (v : Value)
      → v ≢ null
      → payload_bytes v (serializers_for ext srv ns event) ≡ encode_payload ext s.definition v
  unfolding payload_bytes serializers_for
  payload_bytes-schema null ne = absurd (ne refl)
  payload_bytes-schema _ ne = rw (serializers_for, has) refl

  made :
      (v : Value) (bs : Bytes)
      → v ≢ null
      → encode_payload ext s.definition v ≡ ok bs
      → encode_event ext srv ns event v
        ≡ ok (frame_bytes FrameType.event (nsp_or_root ns.name) event 0 bs)
  made v bs ne e =
      encode_frame-layout
        (record {
          frame_type = FrameType.event;
          nsp = ns.name;
          event = event;
          ack_id = 0;
          payload = v;
        })
        (serializers_for ext srv ns event)
      ∙ rw (payload_bytes-schema v ne, e) refl

decoded :
    (ext : Externals) (c : Client) (event nsp : Text) (s : Schema) (v : Value) (b : ℕ)
    (bs spare : Bytes)
    → lookup event (bucket (schema_key nsp) c.store) ≡ some s
    → decode_payload ext s.definition (record { items = b ∷ bs; spare = spare }) ≡ ok v
    → decode_app_payload ext c.serializers c.store
        (record { items = b ∷ bs; spare = spare })
        event
        nsp
      ≡ ok v
unfolding decode_app_payload
decoded ext c event nsp s v b bs spare known e = rw (decode_app_payload, known, e) refl

module _ (mp : Msgpack) (ext : Externals) (c : Client) (channel : Channel) where
  pub taken :
      (raw : Slice) (hdr : FrameHeader) (payload : Slice)
      → decode_frame_header raw ≡ ok (hdr, payload)
      → lookup hdr.nsp c.namespaces ≡ some channel
      → handle_message mp ext raw c ≡ handle_frame mp ext hdr payload channel c
  unfolding handle_message
  taken raw hdr payload e joined =
      rw (handle_message, e)
        (ap
          (λ found. elim found [
            | none ↦ ok (c, [])
            | some ns ↦ handle_frame mp ext hdr payload ns c
          ])
          joined)

  triggered :
      (hdr : FrameHeader) (payload : Slice) (v : Value)
      → hdr.frame_type ≡ FrameType.event
      → decode_app_payload ext c.serializers c.store payload hdr.event hdr.nsp ≡ ok v
      → handle_frame mp ext hdr payload channel c
        ≡ (trigger_event channel hdr.event v >>= λ out. ok (c, out))
  unfolding handle_frame
  triggered hdr payload v is e = rw (handle_frame, is, e) refl

-- Where server and client have the same schema for an event, and the payload is a value of the
-- schema's type that takes a byte at least, the server makes a frame of it, and that frame triggers
-- the event at the client's namespace with the very payload, whatever follows in the read buffer.
pub handle_message-encode_event :
    (mp : Msgpack) (ext : Externals) (srv : Server) (ns : Namespace) (c : Client)
    (channel : Channel) (event : Text) (s : Schema) (v : Value) (spare : Bytes)
    → schema_for ns event ≡ some s
    → lookup event (bucket (schema_key (nsp_or_root ns.name)) c.store) ≡ some s
    → lookup (nsp_or_root ns.name) c.namespaces ≡ some channel
    → length (nsp_or_root ns.name) < 2 ^ 8
    → length event < 2 ^ 8
    → IsKeyed s.definition
    → HasType (Survives ext) s.definition v
    → v ≢ null
    → encode_payload ext s.definition v ≢ ok []
    → (raw : Bytes) × (encode_event ext srv ns event v ≡ ok raw)
      × (handle_message mp ext (record { items = raw; spare = spare }) c
          ≡ (trigger_event channel event v >>= λ out. ok (c, out)))
handle_message-encode_event mp ext srv ns c channel event s v spare has known joined hn he keyed
      typed ne more =
    let (bs, packs, back) = decode_payload-encode_payload_typed ext s.definition v keyed typed in
    let nsp = nsp_or_root ns.name in
    let arrives = arrived bs packs (back [] spare) in
    (frame_bytes FrameType.event nsp event 0 bs, made ext srv ns event s has v bs ne packs, arrives)
  where
    arrived :
        (bs : Bytes)
        → encode_payload ext s.definition v ≡ ok bs
        → decode_payload ext s.definition (record { items = bs ++ []; spare = spare }) ≡ ok v
        → handle_message mp ext
            (record {
              items = frame_bytes FrameType.event (nsp_or_root ns.name) event 0 bs;
              spare = spare;
            })
            c
          ≡ (trigger_event channel event v >>= λ out. ok (c, out))
    arrived [] packs back = absurd (more packs)
    arrived (b ∷ bs) packs back =
        taken mp ext c channel _ _ _
          (decode_frame_header-frame_bytes FrameType.event 0 (nsp_or_root ns.name) event (b ∷ bs)
            spare hn he (omega arith))
          joined
        ∙ triggered mp ext c channel _ _ v refl
            (decoded ext c event (nsp_or_root ns.name) s v b bs spare known (rw append-nil at back))
