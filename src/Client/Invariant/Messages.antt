-- ===== src/Client/Invariant/Messages.antt =====
-- The invariant under messages, timers and the ends and beginnings of connections: handleMessage,
-- setupHeartbeat, handleClose, executeReconnectionSchedule and connect of client/client.go.
use mathlib.Core.Path.{subst}
use bit_socket_go.Base.{
  ℕ, ◌=?◌, ◌≡◌, refl, sym, arith, Bool, true, false, not, ◌&&◌, Option-cases, inl, inr, ltb, ◌==◌,
  if◌then◌else◌, List, [], ◌++◌, text, Option, none, some, lookup, Outcome, ok, stop, error, panic,
  exhausted, ◌>>=◌,
}
use bit_socket_go.Protocol.Types.{Value, null, Externals}
use bit_socket_go.Protocol.Words.{Slice}
use bit_socket_go.Protocol.FrameType
use bit_socket_go.Protocol.SchemaWire.{Msgpack}
use bit_socket_go.Protocol.Frame.{FrameHeader, encode_frame, decode_frame_header}
use bit_socket_go.Client.{
  Client, Channel, Action, plain, callback_at, unless_bad, setup_heartbeat, trigger_event,
  trigger_all, handle_ack, handle_connect, handle_frame, handle_message, ping_tick, handle_close,
}
use bit_socket_go.Client.Schemas.{SchemaStore, decode_app_payload}
use bit_socket_go.Client.Connect.{connect_lem}
use bit_socket_go.Client.Reconnect.{dial, reconnect}
use bit_socket_go.Client.Invariant.{Leaves, Leaves->>=, WellFormed}
use bit_socket_go.Client.Invariant.Calls.{DistinctNumbers-forget_callback}

Leaves-unless_bad :
    {A : Type 0} (r : Outcome A) (f : A → Outcome (Client × List Action)) (c : Client)
    → WellFormed c
    → ((a : A) → Leaves WellFormed (f a))
    → Leaves WellFormed (unless_bad r f c)
Leaves-unless_bad (ok a) f c h k = k a
Leaves-unless_bad (stop (error e)) f c h k = h
Leaves-unless_bad (stop panic) f c h k = tt
Leaves-unless_bad (stop exhausted) f c h k = tt

Leaves-if :
    (b : Bool) (then_ else_ : Outcome (Client × List Action))
    → (b ≡ true → Leaves WellFormed then_)
    → Leaves WellFormed else_
    → Leaves WellFormed (if b then then_ else else_)
Leaves-if true then_ else_ h k = h refl
Leaves-if false then_ else_ h k = k

handle_ack-WellFormed :
    (n : ℕ) (payload : Value) (c : Client) → WellFormed c → WellFormed (handle_ack n payload c).0
unfolding handle_ack
handle_ack-WellFormed n payload c h = elim (Option-cases (callback_at n c.callbacks)) [
  | inl missing ↦ rw (handle_ack, missing) h
  | inr (k, found) ↦
      rw (handle_ack, found)
        (h.0, h.1, (h.2.0, DistinctNumbers-forget_callback n c.callbacks h.2.1))
]

module _ (mp : Msgpack) (ext : Externals) where
  -- The ticker is started on an open connection.
  handle_connect-WellFormed :
      (hdr : FrameHeader) (payload : Slice) (ns : Channel) (c : Client)
      → c.connected ≡ true
      → WellFormed c
      → Leaves WellFormed (handle_connect mp ext hdr payload ns c)
  unfolding handle_connect
  handle_connect-WellFormed hdr payload ns c open_ h = Leaves->>= WellFormed _ _ (λ store.
      Leaves->>= WellFormed (trigger_event ns (text "connect") null) _
        (λ out. started store (hdr.nsp =? c.nsp)))
    where
      started :
          (store : SchemaStore) (own : Bool)
          → WellFormed (
              if own
              then setup_heartbeat (record c { store = store })
              else record c { store = store })
      started store true = ((h.0.0, λ e. open_, h.0.2), h.1, h.2)
      started store false = h

  handle_frame-WellFormed :
      (hdr : FrameHeader) (payload : Slice) (ns : Channel) (c : Client)
      → c.connected ≡ true
      → WellFormed c
      → Leaves WellFormed (handle_frame mp ext hdr payload ns c)
  unfolding handle_frame
  handle_frame-WellFormed hdr payload ns c open_ h =
      let decoded = decode_app_payload ext c.serializers c.store payload hdr.event hdr.nsp in
      Leaves-if (hdr.frame_type == FrameType.connect) _ _
        (λ e. handle_connect-WellFormed hdr payload ns c open_ h)
        (Leaves-if (hdr.frame_type == FrameType.event) _ _
          (λ e.
            Leaves-unless_bad decoded _ c h
              (λ v. Leaves->>= WellFormed (trigger_event ns hdr.event v) _ (λ out. h)))
          (Leaves-if (hdr.frame_type == FrameType.ack) _ _
            (λ e. Leaves-unless_bad decoded _ c h (λ v. handle_ack-WellFormed hdr.ack_id v c h))
            (Leaves-if (hdr.frame_type == FrameType.pong) _ _
              (λ e. ((h.0.0, h.0.1, λ e. cc), h.1, h.2)) h)))

  pub handle_message-WellFormed :
      (raw : Slice) (c : Client)
      → c.connected ≡ true
      → WellFormed c
      → Leaves WellFormed (handle_message mp ext raw c)
  unfolding handle_message
  handle_message-WellFormed raw c open_ h =
      Leaves-unless_bad (decode_frame_header raw) _ c h
        (λ (hdr, payload). found hdr payload (lookup hdr.nsp c.namespaces))
    where
      found :
          (hdr : FrameHeader) (payload : Slice) (ns : Option Channel)
          → Leaves WellFormed
              (elim ns [ none ↦ ok (c, []) | some ns ↦ handle_frame mp ext hdr payload ns c ])
      found hdr payload none = h
      found hdr payload (some ns) = handle_frame-WellFormed hdr payload ns c open_ h

pub ping_tick-WellFormed : (c : Client) → WellFormed c → Leaves WellFormed (ping_tick c)
unfolding ping_tick
ping_tick-WellFormed c h =
    Leaves-if c.pinging _ _
      (λ e.
        Leaves-unless_bad (encode_frame (plain FrameType.ping (text "/") null) c.serializers) _ c h
          (λ buf. Leaves-if c.connected _ _ (λ on. ((h.0.0, h.0.1, λ e. on), h.1, h.2)) h))
      h

pub handle_close-WellFormed : (c : Client) → WellFormed c → Leaves WellFormed (handle_close c)
unfolding handle_close
handle_close-WellFormed c h =
    let again =
      not c.closed_by_user && (c.auto_reconnect && ltb c.reconnect_attempts c.max_attempts) in
    Leaves->>= WellFormed (trigger_all c.namespaces (text "disconnect") null) _ (λ out.
      Leaves-if again _ _ (λ e. ((ground (arith, e), λ e. cc, λ e. cc), h.1, h.2))
        ((h.0.0, λ e. cc, λ e. cc), h.1, h.2))

pub dial-WellFormed :
    (answers : Bool) (c : Client) → WellFormed c → Leaves WellFormed (dial answers c)
unfolding dial
dial-WellFormed true c h =
    subst (Leaves WellFormed) (sym (connect_lem c)) ((omega arith, λ e. refl, λ e. refl), h.1, h.2)
dial-WellFormed false c h = handle_close-WellFormed c h

pub reconnect-WellFormed :
    (attempt : ℕ) (answers : Bool) (c : Client)
    → WellFormed c
    → Leaves WellFormed (reconnect attempt answers c)
unfolding reconnect
reconnect-WellFormed attempt answers c h =
    Leaves->>= WellFormed (trigger_all c.namespaces (text "reconnecting") _) _
      (λ out. passed out (dial answers c) (dial-WellFormed answers c h))
  where
    passed :
        (out : List Action) (r : Outcome (Client × List Action))
        → Leaves WellFormed r
        → Leaves WellFormed (r >>= λ (c', outs). ok (c', out ++ outs))
    passed out (ok (c', outs)) k = k
    passed out (stop s) k = tt
