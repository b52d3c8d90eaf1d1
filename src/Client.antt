-- ===== src/Client.antt =====
-- client/client.go, client/namespace.go and client/types.go: the client. Timers are steps that the
-- environment takes: ping_tick, pong_timeout.
pub mod Schemas
pub mod Emit
pub mod Acks
pub mod Numbers
pub mod Connect
pub mod Namespace
pub mod Lifecycle
pub mod Reconnect
pub mod Steps
pub mod Invariant
pub mod Heartbeat
use bit_socket_go.Base.{
  ℕ, ◌+◌, ◌%◌, ◌^◌, Bool, true, false, not, ◌&&◌, Text, Bytes, List, [], ◌∷◌, ◌++◌, text, ltb, ◌==◌,
  ◌=?◌, if◌then◌else◌, Option, none, some, Table, lookup, insert, Outcome, ok, stop, error, panic,
  exhausted, ◌>>=◌,
}
use bit_socket_go.Protocol.Types.{Value, null, str, dict, entry, end, Externals}
use bit_socket_go.Protocol.Words.{Slice}
use bit_socket_go.Protocol.FrameType
use bit_socket_go.Protocol.Schema.{Schema}
use bit_socket_go.Protocol.Schema
use bit_socket_go.Protocol.SchemaWire.{Msgpack}
use bit_socket_go.Protocol.Frame.{
  Serializers, FrameOptions, FrameHeader, encode_frame, decode_frame_header,
}
use bit_socket_go.Server.Types.{EventPacket, Middleware}
use bit_socket_go.Server.Chain.{run_chain}
use Schemas.{
  SchemaStore, schema_key, bucket, ensure_schema_bucket, absorb_schema_payload, decode_app_payload,
}

-- A message sent, a listener called, a callback called with its answer, the connection closed, a
-- reconnection planned, with its attempt.
pub data Action : Type 0 where
  sent : Bytes → Action
  handled : Text → Value → Action
  answered : ℕ → Value → Action
  hung_up : Action
  planned : ℕ → Action

-- A namespace of the client. Of a listener it matters here only that it is there, and of a middleware what
-- it does to the packet; what they send is a call of its own.
pub record Channel : Type 0 where
  pub nsp : Text
  pub listeners : Table (Unit {0})
  pub middlewares : List (Middleware EventPacket ⊥)

-- A callback is known by a number of its own; `callbacks` has it under its acknowledgement number.
-- `pinging` and `pong_armed` say that the ticker runs and that the timer for the answer does.
pub record Client : Type 0 where
  pub serializers : Serializers
  pub use_schemas : Bool
  pub auto_reconnect : Bool
  pub reconnect_attempts : ℕ
  pub max_attempts : ℕ
  pub callbacks : List (ℕ × ℕ)
  pub ack_counter : ℕ
  pub store : SchemaStore
  pub namespaces : Table Channel
  pub nsp : Text
  pub connected : Bool
  pub pinging : Bool
  pub pong_armed : Bool
  pub closed_by_user : Bool

unfoldable pub callback_at : ℕ → List (ℕ × ℕ) → Option ℕ
callback_at n [] = none
callback_at n ((m, k) ∷ rest) = if m == n then some k else callback_at n rest

unfoldable pub forget_callback : ℕ → List (ℕ × ℕ) → List (ℕ × ℕ)
forget_callback n [] = []
forget_callback n ((m, k) ∷ rest) =
    let others = forget_callback n rest in if m == n then others else (m, k) ∷ others

unfoldable pub safe_send : Client → Bytes → List Action
safe_send c buf = if c.connected then sent buf ∷ [] else []

abbrev pub handle_packet : Channel → EventPacket → Outcome (EventPacket × List Action)
handle_packet ns packet = elim (lookup packet.event ns.listeners) [
  | none ↦ ok (packet, [])
  | some h ↦ ok (packet, handled packet.event packet.payload ∷ [])
]

-- `triggerEvent`: an error of a middleware drops the event.
unfoldable pub trigger_event : Channel → Text → Value → Outcome (List Action)
trigger_event ns event payload = do
  (packet, out) ←
      run_chain (λ _. []) (handle_packet ns) (λ message packet. ok (packet, [])) ns.middlewares
        (record { event = event; payload = payload })
  ok out

unfoldable pub trigger_all : Table Channel → Text → Value → Outcome (List Action)
trigger_all [] event payload = ok []
trigger_all ((nsp, ns) ∷ rest) event payload = do
  out ← trigger_event ns event payload
  outs ← trigger_all rest event payload
  ok (out ++ outs)

-- `buf, err := EncodeFrame(…); if err == nil { c.safeSend(buf) }`.
unfoldable pub send_made : Client → Outcome Bytes → Outcome (List Action)
send_made c (ok buf) = ok (safe_send c buf)
send_made c (stop (error e)) = ok []
send_made c (stop panic) = stop panic
send_made c (stop exhausted) = stop exhausted

abbrev pub plain : ℕ → Text → Value → FrameOptions
plain frame_type nsp payload = record {
  frame_type = frame_type;
  nsp = nsp;
  event = [];
  ack_id = 0;
  payload = payload;
}

-- An error of the codec drops the frame.
abbrev pub unless_bad :
    {A : Type 0}
    → Outcome A
    → (A → Outcome (Client × List Action))
    → Client
    → Outcome (Client × List Action)
unless_bad (ok a) f c = f a
unless_bad (stop (error e)) f c = ok (c, [])
unless_bad (stop panic) f c = stop panic
unless_bad (stop exhausted) f c = stop exhausted

-- The heartbeat's ticker and timer started and stopped; a ticker or timer that runs is replaced.
abbrev pub setup_heartbeat : Client → Client
setup_heartbeat c = record c { pinging = true }

abbrev pub arm_pong_timeout : Client → Client
arm_pong_timeout c = record c { pong_armed = true }

abbrev pub clear_pong_timeout : Client → Client
clear_pong_timeout c = record c { pong_armed = false }

abbrev pub cleanup_heartbeat : Client → Client
cleanup_heartbeat c = record c { pinging = false; pong_armed = false }

-- The callback of an acknowledgement is called, and forgotten.
unfoldable pub handle_ack : ℕ → Value → Client → Client × List Action
handle_ack n payload c = elim (callback_at n c.callbacks) [
  | none ↦ (c, [])
  | some k ↦ (record c { callbacks = forget_callback n c.callbacks }, answered k payload ∷ [])
]

module _ (mp : Msgpack) (ext : Externals) where
  unfoldable pub handle_connect :
      FrameHeader → Slice → Channel → Client → Outcome (Client × List Action)
  handle_connect hdr payload ns c = do
    store ← (elim payload.items [
      | [] ↦ ok c.store
      | b ∷ bs ↦
          if c.use_schemas then absorb_schema_payload mp ext hdr.nsp payload c.store else ok c.store
    ])
    out ← trigger_event ns (text "connect") null
    let c' : Client = record c { store = store }
    ok (if hdr.nsp =? c.nsp then setup_heartbeat c' else c', out)

  -- The cases of `handleMessage` on a frame's type.
  unfoldable pub handle_frame :
      FrameHeader → Slice → Channel → Client → Outcome (Client × List Action)
  handle_frame hdr payload ns c =
      let decoded = decode_app_payload ext c.serializers c.store payload hdr.event hdr.nsp in
      if hdr.frame_type == FrameType.connect
      then handle_connect hdr payload ns c
      else if hdr.frame_type == FrameType.event
      then unless_bad decoded (λ v. trigger_event ns hdr.event v >>= λ out. ok (c, out)) c
      else if hdr.frame_type == FrameType.ack
      then unless_bad decoded (λ v. ok (handle_ack hdr.ack_id v c)) c
      else if hdr.frame_type == FrameType.pong
      then ok (clear_pong_timeout c, [])
      else ok (c, [])

  unfoldable pub handle_message : Slice → Client → Outcome (Client × List Action)
  handle_message raw c =
      unless_bad (decode_frame_header raw)
        (λ (hdr, payload). elim (lookup hdr.nsp c.namespaces) [
          | none ↦ ok (c, [])
          | some ns ↦ handle_frame hdr payload ns c
        ])
        c

-- The ticker: a PING on the root namespace, and the timer for its answer.
unfoldable pub ping_tick : Client → Outcome (Client × List Action)
ping_tick c =
    if c.pinging
    then unless_bad (encode_frame (plain FrameType.ping (text "/") null) c.serializers)
        (λ buf. if c.connected then ok (arm_pong_timeout c, sent buf ∷ []) else ok (c, [])) c
    else ok (c, [])

-- The timer has run out: the connection is closed.
unfoldable pub pong_timeout : Client → List Action
pong_timeout c = if c.pong_armed && c.connected then hung_up ∷ [] else []

-- `handleClose`, with the start of `executeReconnectionSchedule`.
unfoldable pub handle_close : Client → Outcome (Client × List Action)
handle_close c = do
  let shut = cleanup_heartbeat (record c { connected = false })
  out ← trigger_all c.namespaces (text "disconnect") null
  if not c.closed_by_user && (c.auto_reconnect && ltb c.reconnect_attempts c.max_attempts)
      then ok (
        record shut { reconnect_attempts = c.reconnect_attempts + 1 },
        out ++ planned (c.reconnect_attempts + 1) ∷ [],
      )
      else ok (shut, out)
