-- ===== src/Server/Hub/Messages.antt =====
-- handleMessage of server/hub.go on bytes that no client of the library sends.
use bit_socket_go.Base.{
  ℕ, ◌<◌, ◌^◌, ◌%◌, ◌≡◌, ◌≢◌, refl, sym, ap, ◌∙◌, Text, Bytes, [], ◌∷◌, ◌++◌, append_assoc, length,
  some, lookup, Outcome, ok, stop, panic,
}
use bit_socket_go.Protocol.Types.{tag, kind_of, Externals}
use bit_socket_go.Protocol.Words.{AreBytes, Slice, put_uint32}
use bit_socket_go.Protocol.Schema.{Schema}
use bit_socket_go.Protocol.Schema.Unchecked.{width, decode_payload-short}
use bit_socket_go.Protocol.Frame.{
  FrameHeader, decode_frame, decode_frame_header, decode_frame_payload,
}
use bit_socket_go.Protocol.Frame.Encoding.{frame_bytes}
use bit_socket_go.Protocol.Frame.Header.{decode_frame_header-frame_bytes, frame_bytes-payload}
use bit_socket_go.Protocol.Frame.Accepts.{Headed, whole, short, decode_frame_header-Headed}
use bit_socket_go.Server.Types.{Namespace}
use bit_socket_go.Server.Namespace.{schema_for}
use bit_socket_go.Server.Hub.{State, handle_message, decode_with_schema}

-- What is left over is part of a longer payload.
longer :
    (frame_type ack_id : ℕ) (nsp event payload rest : Bytes)
    → frame_bytes frame_type nsp event ack_id payload ++ rest
      ≡ frame_bytes frame_type nsp event ack_id (payload ++ rest)
longer frame_type ack_id nsp event payload rest =
    let word = put_uint32 ack_id in
    ap (λ x. frame_type ∷ ((length nsp % 2 ^ 8) ∷ x))
      (append_assoc nsp _ rest
        ∙ ap (λ x. nsp ++ (length event % 2 ^ 8) ∷ x)
            (append_assoc event (word ++ payload) rest
              ∙ ap (λ x. event ++ x) (append_assoc word payload rest)))

left_nil : (payload rest : Bytes) → payload ++ rest ≡ [] → rest ≡ []
left_nil [] rest e = e
left_nil (b ∷ bs) rest e = absurd (cc)

-- Of a message that is cut off anywhere within the header of a frame whose names and number fit their
-- fields, nothing comes: no change of the server or of the connection, no answer, and no panic.
pub handle_message-broken :
    (ext : Externals) (id : Text) (st : State) (frame_type ack_id : ℕ) (nsp event : Text)
    (cut rest spare : Bytes)
    → length nsp < 2 ^ 8
    → length event < 2 ^ 8
    → ack_id < 2 ^ 32
    → AreBytes cut
    → cut ++ rest ≡ frame_bytes frame_type nsp event ack_id []
    → rest ≢ []
    → handle_message ext id (record { items = cut; spare = spare }) st ≡ ok (st, [])
unfolding handle_message decode_frame
handle_message-broken ext id st frame_type ack_id nsp event cut rest spare hn he ha bytes part
      missing =
    from (decode_frame_header-Headed raw bytes) refl
  where
    raw : Slice
    raw = record { items = cut; spare = spare }

    from :
        {r : Outcome (FrameHeader × Slice)}
        → Headed raw r
        → decode_frame_header raw ≡ r
        → handle_message ext id raw st ≡ ok (st, [])
    from (whole h payload split hn' he' ha') same = absurd (
        missing (
          left_nil payload rest (
            frame_bytes-payload h.frame_type h.ack_id frame_type ack_id h.nsp h.event
              (payload ++ rest) nsp event [] hn' he' ha' hn he ha
              (sym (
                  ap (λ bs. bs ++ rest) split
                  ∙ longer h.frame_type h.ack_id h.nsp h.event payload rest)
                ∙ part))))
    from (short part) same = rw (handle_message, decode_frame, same) refl

-- A message for an event whose schema is a bare type tag, with a payload that is not empty but shorter
-- than every value of that type, makes the server panic, whoever sends it: the payload is decoded
-- before the code asks whether the sender has joined the namespace.
pub handle_message-panics :
    (ext : Externals) (id : Text) (st : State) (ns : Namespace) (schema : Schema) (t : Text)
    (frame_type ack_id : ℕ) (nsp event : Text) (b : ℕ) (bs spare : Bytes)
    → lookup nsp st.server.namespaces ≡ some ns
    → schema_for ns event ≡ some schema
    → schema.definition ≡ tag t
    → length (b ∷ bs) < width (kind_of t)
    → length nsp < 2 ^ 8
    → length event < 2 ^ 8
    → ack_id < 2 ^ 32
    → handle_message ext id
        (record { items = frame_bytes frame_type nsp event ack_id (b ∷ bs); spare = spare })
        st
      ≡ stop panic
unfolding decode_with_schema handle_message decode_frame decode_frame_payload
handle_message-panics ext id st ns schema t frame_type ack_id nsp event b bs spare here has is few
      hn he ha =
    let header =
      decode_frame_header-frame_bytes frame_type ack_id nsp event (b ∷ bs) spare hn he ha in
    let payload : Slice = record { items = b ∷ bs; spare = spare } in
    let fails : decode_with_schema ext st.server payload event nsp ≡ stop panic =
      rw (decode_with_schema, here, has, is) (decode_payload-short ext t payload few) in
    rw (handle_message, decode_frame, header, decode_frame_payload, fails) refl
