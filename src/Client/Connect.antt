-- ===== src/Client/Connect.antt =====
-- New, Of and connect of client/client.go: the namespaces that a client joins.
use bit_socket_go.Base.{
  ℕ, ◌≡◌, refl, Bool, true, false, Bool-cases, inl, inr, Text, List, [], ◌∷◌, ◌++◌, ltb, text, ◌=?◌,
  if◌then◌else◌, Option, none, some, Table, lookup, insert, Outcome, ok, ◌>>=◌,
}
use bit_socket_go.Protocol.Types.{null, Externals}
use bit_socket_go.Protocol.FrameType
use bit_socket_go.Protocol.Frame.{
  Serializers, nsp_or_root, payload_bytes, encode_frame, default_serializers,
}
use bit_socket_go.Protocol.Frame.Encoding.{frame_bytes, encode_frame-layout}
use bit_socket_go.Client.{Client, Channel, Action, sent, send_made, safe_send, plain}
use bit_socket_go.Client.Schemas.{ensure_schema_bucket, schema_key}

-- The options that the model keeps; nil is `none`, and 0 stands for an attempt count that is not positive.
pub record Options : Type 0 where
  pub nsp : Text
  pub serializers : Option Serializers
  pub use_schemas : Option Bool
  pub auto_reconnect : Option Bool
  pub max_attempts : ℕ

abbrev or_else {ℓ} : {A : Type ℓ} → Option A → A → A
or_else none d = d
or_else (some a) d = a

abbrev attempts_or_default : ℕ → ℕ
attempts_or_default n = if ltb 0 n then n else 15

abbrev pub new_channel : Text → Channel
new_channel nsp = record { nsp = nsp; listeners = []; middlewares = [] }

-- `New`, up to the start of the dialling.
unfoldable pub new_client : Externals → Options → Client
new_client ext opts =
    let nsp = nsp_or_root opts.nsp in
    record {
      serializers = or_else opts.serializers (default_serializers ext);
      use_schemas = or_else opts.use_schemas true;
      auto_reconnect = or_else opts.auto_reconnect true;
      reconnect_attempts = 0;
      max_attempts = attempts_or_default opts.max_attempts;
      callbacks = [];
      ack_counter = 1;
      store = ensure_schema_bucket (schema_key nsp) (record { schemas = []; flat_schemas = [] });
      namespaces = (nsp, new_channel nsp) ∷ [];
      nsp = nsp;
      connected = false;
      pinging = false;
      pong_armed = false;
      closed_by_user = false;
    }

unfoldable pub send_connect : Client → Text → Outcome (List Action)
send_connect c nsp = send_made c (encode_frame (plain FrameType.connect nsp null) c.serializers)

-- `Of`: a namespace that is new is made, and joined if there is a connection.
unfoldable pub of_client : Client → Text → Outcome (Client × List Action)
of_client c nsp = elim (lookup nsp c.namespaces) [
  | some ns ↦ ok (c, [])
  | none ↦
      let c' : Client = record c {
        store = ensure_schema_bucket (schema_key nsp) c.store;
        namespaces = insert nsp (new_channel nsp) c.namespaces;
      } in
      if nsp =? text "/" then ok (c', []) else (send_connect c' nsp >>= λ out. ok (c', out))
]

unfoldable pub rejoin : Client → Table Channel → Outcome (List Action)
unfolding ◌=?◌
rejoin c [] = ok []
rejoin c ((nsp, ns) ∷ rest) = do
  out ← (if nsp =? text "/" then ok [] else send_connect c nsp)
  outs ← rejoin c rest
  ok (out ++ outs)

-- `connect`, when the dialling has succeeded.
unfoldable pub connect : Client → Outcome (Client × List Action)
connect c = do
  let c' : Client = record c { connected = true; reconnect_attempts = 0 }
  out ← rejoin c' c.namespaces
  ok (c', out)

-- The CONNECT frames for the namespaces beside the root.
abbrev pub connects : Table Channel → List Action
connects [] = []
connects ((nsp, ns) ∷ rest) =
    (if nsp =? text "/"
      then []
      else sent (frame_bytes FrameType.connect (nsp_or_root nsp) [] 0 []) ∷ [])
    ++ connects rest

send_connect_lem :
    (c : Client) (nsp : Text)
    → c.connected ≡ true
    → send_connect c nsp ≡ ok (sent (frame_bytes FrameType.connect (nsp_or_root nsp) [] 0 []) ∷ [])
unfolding send_connect send_made safe_send payload_bytes
send_connect_lem c nsp h =
    rw (send_connect, encode_frame-layout (plain FrameType.connect nsp null) c.serializers)
      (rw h refl)

rejoin_lem :
    (c : Client) (table : Table Channel) → c.connected ≡ true → rejoin c table ≡ ok (connects table)
unfolding rejoin
rejoin_lem c [] h = refl
rejoin_lem c ((nsp, ns) ∷ rest) h = elim (Bool-cases (nsp =? text "/")) [
  | inl root ↦ rw (root, rejoin_lem c rest h) refl
  | inr other ↦ rw (other, send_connect_lem c nsp h, rejoin_lem c rest h) refl
]

-- A client that has connected, for the first time or again, counts its attempts anew and asks to join
-- each of its namespaces but the root, once and whatever the codec.
pub connect_lem :
    (c : Client)
    → connect c ≡ ok (record c { connected = true; reconnect_attempts = 0 }, connects c.namespaces)
unfolding connect
connect_lem c =
    rw (rejoin_lem (record c { connected = true; reconnect_attempts = 0 }) c.namespaces refl) refl
