-- ===== src/Delivery/Connects.antt =====
-- The CONNECT frame with which handleNamespaceConnect of server/hub.go lets a socket in, to handleMessage of
-- client/client.go.
use bit_socket_go.Base.{
  ℕ, ◌<◌, ◌^◌, ◌≡◌, ◌≢◌, refl, ap, ◌∙◌, arith, Bool-cases, inl, inr, true, false, Text, Bytes, [],
  ◌∷◌, ◌++◌, length, List, text, Bool, ◌=?◌, if◌then◌else◌, some, lookup, insert,
  lookup-insert_self, DistinctKeys, Outcome, ok, ◌>>=◌, >>=-eq-ok,
}
use bit_socket_go.Protocol.Types.{Value, null, Externals}
use bit_socket_go.Protocol.Words.{Slice}
use bit_socket_go.Protocol.FrameType
use bit_socket_go.Protocol.Schema.{Schema, new_schema}
use bit_socket_go.Protocol.SchemaWire.{Msgpack}
use bit_socket_go.Protocol.SchemaWire.RoundTrip.{MsgpackLaws}
use bit_socket_go.Protocol.SchemaWire.Tables.{MarshalLaws}
use bit_socket_go.Protocol.Frame.{
  FrameHeader, FrameOptions, nsp_or_root, payload_bytes, encode_frame, default_encode_payload,
  default_serializers,
}
use bit_socket_go.Protocol.Frame.Encoding.{frame_bytes, encode_frame-layout}
use bit_socket_go.Protocol.Frame.Header.{decode_frame_header-frame_bytes}
use bit_socket_go.Protocol.Frame.RoundTrip.{FlateLaws, payload_bytes-default}
use bit_socket_go.Server.Types.{Namespace, Server, Socket, write}
use bit_socket_go.Server.Chain.{Effects}
use bit_socket_go.Server.Socket.{send, send_encoded}
use bit_socket_go.Server.Namespace.{
  schema_for, export_schemas, is_member, add_socket, fire_connection,
}
use bit_socket_go.Server.Core.{namespace_of, put_namespace}
use bit_socket_go.Server.Hub.{State, socket_at, send_to, change_socket, handler_effects, admit}
use bit_socket_go.Client.{
  Client, Channel, Action, setup_heartbeat, handle_connect, handle_frame, handle_message,
  trigger_event,
}
use bit_socket_go.Client.Lifecycle.{trigger_event-OnlyCalls}
use bit_socket_go.Client.Schemas.{SchemaStore, schema_key, bucket, absorb_schema_payload}
use bit_socket_go.Delivery.Schemas.{absorb_schema_payload-export_schemas}
use bit_socket_go.Delivery.Events.{taken}

export_schemas-add_socket :
    (r : ℕ) (ns : Namespace) → export_schemas (add_socket r ns) ≡ export_schemas ns
unfolding add_socket export_schemas
export_schemas-add_socket r ns = elim (Bool-cases (is_member r ns.members)) [
  | inl inside ↦ rw (add_socket, inside) refl
  | inr outside ↦ rw (add_socket, outside) refl
]

namespace_of-put_namespace :
    (srv : Server) (nsp : Text) (ns : Namespace) → namespace_of (put_namespace srv nsp ns) nsp ≡ ns
unfolding namespace_of put_namespace
namespace_of-put_namespace srv nsp ns =
    rw (namespace_of, lookup-insert_self nsp ns srv.namespaces) refl

-- What a namespace tells its new members.
abbrev pub exports : Text → State → Value
exports nsp st = export_schemas (namespace_of st.server nsp)

module _ (ext : Externals) (st : State) (r : ℕ) (s : Socket) (nsp : Text) (packet : Bytes)
    (codec : st.server.serializers ≡ default_serializers ext) (told : st.server.use_schemas ≡ true)
    (is : socket_at r st.server ≡ some s) (open_ : s.closed ≡ false)
    (packs : default_encode_payload ext (exports nsp st) ≡ ok packet) where
  opts : Value → FrameOptions
  opts v = record { frame_type = FrameType.connect; nsp = nsp; event = []; ack_id = 0; payload = v }

  given : exports nsp st ≢ null
  unfolding export_schemas
  given e = cc

  packed : payload_bytes (exports nsp st) (default_serializers ext) ≡ ok packet
  unfolding export_schemas default_encode_payload
  packed = payload_bytes-default ext (exports nsp st) given ∙ packs

  let_in : State
  let_in = record {
    server = put_namespace st.server nsp (add_socket r (namespace_of st.server nsp));
    hub = record (st.hub) { joined = insert nsp r st.hub.joined };
  }

  exported : exports nsp let_in ≡ exports nsp st
  unfolding let_in
  exported =
      ap export_schemas
        (namespace_of-put_namespace st.server nsp (add_socket r (namespace_of st.server nsp)))
      ∙ export_schemas-add_socket r (namespace_of st.server nsp)

  welcome : Bytes
  welcome = frame_bytes FrameType.connect (nsp_or_root nsp) [] 0 packet

  made : encode_frame (opts (exports nsp let_in)) st.server.serializers ≡ ok welcome
  unfolding opts welcome
  made =
      ap (λ v. encode_frame (opts v) st.server.serializers) exported
      ∙ ap (encode_frame (opts (exports nsp st))) codec
      ∙ encode_frame-layout (opts (exports nsp st)) (default_serializers ext)
      ∙ rw packed refl

  sends : send_to r let_in (ok welcome) ≡ ok (write s.conn welcome ∷ [])
  unfolding send_to send_encoded send let_in put_namespace
  sends = rw (send_to, is) (rw open_ refl)

  admitted : State
  admitted =
      change_socket r (λ x. (fire_connection (namespace_of st.server nsp).conn_handlers x).0) let_in

  -- What the connection handlers do.
  more : Effects
  more = (fire_connection (namespace_of st.server nsp).conn_handlers s).1

  handled : handler_effects r (namespace_of st.server nsp).conn_handlers let_in ≡ more
  unfolding let_in more put_namespace
  handled = rw (handler_effects, is) refl

  welcomes : admit ext r nsp (exports nsp) st ≡ ok (admitted, write s.conn welcome ∷ more)
  unfolding admit let_in opts put_namespace admitted
  welcomes =
      let handlers_do = handler_effects r (namespace_of st.server nsp).conn_handlers let_in in
      ap
        (λ b.
          send_to r let_in
            (encode_frame (opts (if b then exports nsp let_in else null)) st.server.serializers)
          >>= λ out. ok (admitted, out ++ handlers_do))
        told
      ∙ ap (λ frame. send_to r let_in frame >>= λ out. ok (admitted, out ++ handlers_do)) made
      ∙ ap (λ sent. sent >>= λ out. ok (admitted, out ++ handlers_do)) sends
      ∙ ap (λ outs. ok (admitted, write s.conn welcome ∷ outs)) handled

-- The client with new schemas, and its heartbeat started, if the namespace is its own.
abbrev with_store : Client → SchemaStore → Bool → Client
with_store c store own =
    if own then setup_heartbeat (record c { store = store }) else record c { store = store }

store-with_store :
    (c : Client) (store : SchemaStore) (own : Bool) → (with_store c store own).store ≡ store
store-with_store c store true = refl
store-with_store c store false = refl

not_empty :
    (xs : Bytes) (none_left some_left : Outcome SchemaStore)
    → xs ≢ []
    → elim xs [ [] ↦ none_left | b ∷ bs ↦ some_left ] ≡ some_left
not_empty [] none_left some_left h = absurd (h refl)
not_empty (b ∷ bs) none_left some_left h = refl

module _ (mp : Msgpack) (ext : Externals) (c : Client) (channel : Channel) where
  connected :
      (hdr : FrameHeader) (payload : Slice) (store : SchemaStore)
      → hdr.frame_type ≡ FrameType.connect
      → payload.items ≢ []
      → c.use_schemas ≡ true
      → absorb_schema_payload mp ext hdr.nsp payload c.store ≡ ok store
      → (out : List Action) × (handle_frame mp ext hdr payload channel c
          ≡ ok (with_store c store (hdr.nsp =? c.nsp), out))
  unfolding handle_frame handle_connect
  connected hdr payload store is some_bytes uses absorbs =
      let (out, e, only) = trigger_event-OnlyCalls channel (text "connect") null in
      let absorbed : Outcome SchemaStore = absorb_schema_payload mp ext hdr.nsp payload c.store in
      let next : SchemaStore → Outcome (Client × List Action) = λ store'.
        trigger_event channel (text "connect") null >>= λ out.
        ok (with_store c store' (hdr.nsp =? c.nsp), out) in
      (
        out,
        rw (handle_frame, is)
            (ap (λ (taken : Outcome SchemaStore). taken >>= next)
                (not_empty payload.items (ok c.store)
                  (if c.use_schemas then absorbed else ok c.store) some_bytes)
              ∙ ap (λ (u : Bool). (if u then absorbed else ok c.store) >>= next) uses
              ∙ ap (λ (taken : Outcome SchemaStore). taken >>= next) absorbs
              ∙ ap
                  (λ (outs : Outcome (List Action)).
                    outs >>= λ out. ok (with_store c store (hdr.nsp =? c.nsp), out))
                  e),
      )

-- A socket that is let into a namespace is told the namespace's schemas in one CONNECT frame, before its
-- connection handlers do whatever they do, and when
-- the client has taken that frame in, it has the very schema of every event that the namespace has
-- one for, under a name that NewSchema accepts. The namespace is not the root and its name fits its
-- field, the socket is open, the client has the namespace, both sides use schemas and the default
-- codec, the schemas can be packed, and the packages keep their laws.
pub handle_message-admit :
    (mp : Msgpack) (ext : Externals) (laws : MsgpackLaws mp) (marshals : MarshalLaws mp ext)
    (flate : FlateLaws ext) (st : State) (r : ℕ) (s : Socket) (nsp : Text) (packet spare : Bytes)
    (c : Client) (channel : Channel)
    → st.server.serializers ≡ default_serializers ext
    → st.server.use_schemas ≡ true
    → socket_at r st.server ≡ some s
    → s.closed ≡ false
    → default_encode_payload ext (exports nsp st) ≡ ok packet
    → DistinctKeys (namespace_of st.server nsp).schemas
    → (nsp =? text "/") ≡ false
    → nsp_or_root nsp ≡ nsp
    → length nsp < 2 ^ 8
    → lookup nsp c.namespaces ≡ some channel
    → c.use_schemas ≡ true
    → (st' : State) × (raw : Bytes) × (admit ext r nsp (exports nsp) st
        ≡ ok (
          st',
          write s.conn raw ∷ (fire_connection (namespace_of st.server nsp).conn_handlers s).1,
        ))
      × ((event : Text) (schema : Schema)
          → schema_for (namespace_of st.server nsp) event ≡ some schema
          → new_schema event schema.definition ≡ ok schema
          → (c' : Client) × (out : List Action) × (handle_message mp ext
                (record { items = raw; spare = spare })
                c
              ≡ ok (c', out))
            × (lookup event (bucket (schema_key nsp) c'.store) ≡ some schema))
unfolding welcome admitted more default_encode_payload
handle_message-admit mp ext laws marshals flate st r s nsp packet spare c channel codec told is
      open_ packs keys sub root fits joined uses =
    (
      admitted ext st r s nsp packet codec told is open_ packs,
      frame_bytes FrameType.connect nsp [] 0 packet,
      welcomes ext st r s nsp packet codec told is open_ packs
          ∙ ap
              (λ n. ok (
                admitted ext st r s nsp packet codec told is open_ packs,
                write s.conn (frame_bytes FrameType.connect n [] 0 packet)
                    ∷ (fire_connection (namespace_of st.server nsp).conn_handlers s).1,
              ))
              root,
      λ event schema has good.
          let (store, absorbs, found) =
            absorb_schema_payload-export_schemas mp ext laws marshals flate
              (namespace_of st.server nsp) nsp event schema packet spare c.store sub keys packs has
              good in
          let hdr : FrameHeader = record {
            frame_type = FrameType.connect;
            nsp = nsp;
            event = [];
            ack_id = 0;
          } in
          let (marshalled, e₁, deflates) = >>=-eq-ok (ext.marshal (exports nsp st)) _ packs in
          let (out, e) =
            connected mp ext c channel hdr (record { items = packet; spare = spare }) store refl
              (λ none_left. flate.deflate_ne marshalled (deflates ∙ ap ok none_left)) uses
              absorbs in
          (
            with_store c store (nsp =? c.nsp),
            out,
            taken mp ext c channel
                  (record { items = frame_bytes FrameType.connect nsp [] 0 packet; spare = spare })
                  hdr (record { items = packet; spare = spare })
                  (decode_frame_header-frame_bytes FrameType.connect 0 nsp [] packet spare fits
                    (omega arith) (omega arith))
                  joined
                ∙ e,
            ap (λ st. lookup event (bucket (schema_key nsp) st))
                  (store-with_store c store (nsp =? c.nsp))
                ∙ found,
          ),
    )
