-- ===== src/Server/Http.antt =====
-- httpHandler of server/server.go: a request that may become a connection.
use bit_socket_go.Base.{
  ℕ, ◌≡◌, Bool, Bool-cases, inl, inr, if◌then◌else◌, Text, Outcome, ok, stop, ◌>>=◌,
}
use bit_socket_go.Protocol.Types.{Externals}
use bit_socket_go.Server.Types.{Handshake, Server}
use bit_socket_go.Server.Chain.{Effects}
use bit_socket_go.Server.Core.{origin_allowed}
use bit_socket_go.Server.Hub.{State, new_conn_hub, handle_connection}

-- The header Origin, what the handshake keeps, and whether the WebSocket package upgrades it.
pub record Request : Type 0 where
  pub origin : Text
  pub handshake : Handshake
  pub upgrades : Bool

-- Status 403, the answer of a failed upgrade, or a connection.
pub data Response : Type 0 where
  forbidden : Response
  not_upgraded : Response
  served : State → Effects → Response

module _ (ext : Externals) (id : Text) (conn : ℕ) (req : Request) (srv : Server) where
  unfoldable pub http_handler : Outcome Response
  http_handler =
      if origin_allowed srv req.origin
      then if req.upgrades
        then (do
          (st, out) ←
              handle_connection ext id
                (record { server = srv; hub = new_conn_hub conn req.handshake })
          ok (served st out))
        else ok not_upgraded
      else ok forbidden

  -- A connection comes of a request only by handleConnection.
  pub http_handler-served :
      (st : State) (out : Effects)
      → http_handler ≡ ok (served st out)
      → handle_connection ext id (record { server = srv; hub = new_conn_hub conn req.handshake })
        ≡ ok (st, out)
  unfolding http_handler
  http_handler-served st out e = elim (Bool-cases (origin_allowed srv req.origin)) [
    | inl allowed ↦ elim (Bool-cases req.upgrades) [
      | inl upgraded ↦ from (handle_connection ext id _) (rw (allowed, upgraded) at e)
      | inr plain ↦ absurd (cc (rw (allowed, plain) at e))
    ]
    | inr refused ↦ absurd (cc (rw refused at e))
  ]
    where
      from :
          (result : Outcome (State × Effects))
          → (result >>= λ (st', out'). ok (served st' out')) ≡ ok (served st out)
          → result ≡ ok (st, out)
      from (ok (st', out')) h = cc
      from (stop x) h = absurd (cc)
