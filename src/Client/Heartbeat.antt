-- ===== src/Client/Heartbeat.antt =====
-- The heartbeat of client/client.go: setupHeartbeat, armPongTimeout and handleMessage.
use bit_socket_go.Base.{
  ◌≡◌, refl, ◌∙◌, arith, Option-cases, inl, inr, true, false, Bytes, List, [], ◌∷◌, text, none,
  some, lookup, ok,
}
use bit_socket_go.Protocol.Types.{null, Externals}
use bit_socket_go.Protocol.FrameType
use bit_socket_go.Protocol.SchemaWire.{Msgpack}
use bit_socket_go.Protocol.Frame.{payload_bytes}
use bit_socket_go.Protocol.Frame.Encoding.{frame_bytes, encode_frame-layout}
use bit_socket_go.Protocol.Frame.Header.{decode_frame_header-frame_bytes}
use bit_socket_go.Client.{
  Client, Action, sent, hung_up, plain, handle_message, handle_frame, ping_tick, pong_timeout,
}

abbrev pub pong_bytes : Bytes
pong_bytes = frame_bytes FrameType.pong (text "/") [] 0 []

pinged :
    (c : Client)
    → c.pinging ≡ true
    → c.connected ≡ true
    → ping_tick c
      ≡ ok (
        record c { pong_armed = true },
        sent (frame_bytes FrameType.ping (text "/") [] 0 []) ∷ [],
      )
unfolding ping_tick payload_bytes
pinged c on open_ =
    rw (on, encode_frame-layout (plain FrameType.ping (text "/") null) c.serializers)
      (rw open_ refl)

-- What the server's answer to a PING comes to.
ponged :
    (mp : Msgpack) (ext : Externals) (c : Client) (spare : Bytes)
    → handle_message mp ext (record { items = pong_bytes; spare = spare }) c
      ≡ elim (lookup (text "/") c.namespaces) [
        | none ↦ ok (c, [])
        | some ns ↦ ok (record c { pong_armed = false }, [])
      ]
unfolding handle_message handle_frame
ponged mp ext c spare =
    rw
      (
        handle_message,
        decode_frame_header-frame_bytes FrameType.pong 0 (text "/") [] [] spare (omega arith)
            (omega arith) (omega arith),
      )
      refl

-- On an open connection, after a PING and the server's PONG, the timer closes nothing where the client
-- has the root namespace; where it has not, the answer is dropped, and the timer closes the
-- connection.
pub ping_tick-pong_timeout :
    (mp : Msgpack) (ext : Externals) (c : Client) (spare : Bytes)
    → c.pinging ≡ true
    → c.connected ≡ true
    → (c₁ c₂ : Client) × (out : List Action) × (ping_tick c ≡ ok (c₁, out))
      × (handle_message mp ext (record { items = pong_bytes; spare = spare }) c₁ ≡ ok (c₂, []))
      × (pong_timeout c₂
          ≡ elim (lookup (text "/") c.namespaces) [ none ↦ hung_up ∷ [] | some ns ↦ [] ])
unfolding pong_timeout
ping_tick-pong_timeout mp ext c spare on open_ =
    let armed : Client = record c { pong_armed = true } in
    let ping = sent (frame_bytes FrameType.ping (text "/") [] 0 []) ∷ [] in
    elim (Option-cases (lookup (text "/") c.namespaces)) [
      | inl missing ↦ (
        armed,
        armed,
        ping,
        pinged c on open_,
        ponged mp ext armed spare ∙ rw missing refl,
        rw (missing, open_) refl,
      )
      | inr (ns, found) ↦ (
        armed,
        record c { pong_armed = false },
        ping,
        pinged c on open_,
        ponged mp ext armed spare ∙ rw found refl,
        rw found refl,
      )
    ]
