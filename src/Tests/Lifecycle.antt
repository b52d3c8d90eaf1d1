-- ===== src/Tests/Lifecycle.antt =====
-- Witnesses for the steps of the client and for its reconnections, client/client.go.
use bit_socket_go.Base.{◌≡◌, refl, arith, true, false, List, [], ◌∷◌, ◌++◌, text, none, ok}
use bit_socket_go.Client.{Client, Action}
use bit_socket_go.Client.Connect.{Options, new_client, connects, connect_lem}
use bit_socket_go.Client.Namespace
use bit_socket_go.Client.Namespace.{close_client}
use bit_socket_go.Client.Reconnect.{dial, reconnect, lose, lose_lem, reconnect-close_client}
use bit_socket_go.Client.Steps.{listens, dials, closes, Reach, start, step}
use bit_socket_go.Client.Invariant.{WellFormed}
use bit_socket_go.Client.Invariant.Always.{new_client-Reach}
use bit_socket_go.Tests.{world}
use bit_socket_go.Tests.Wire.{pack}
use bit_socket_go.Tests.Clients.{carol}

-- Three attempts at most, one of them made.
abbrev lost : Client
lost = record carol { connected = false; reconnect_attempts = 1; max_attempts = 3 }

lose_lem_example :
    (c' : Client) × (lose 3 lost ≡ ok (c', 2 ∷ 3 ∷ []))
    × (c'.reconnect_attempts ≡ 3)
    × (c'.connected ≡ false)
lose_lem_example = lose_lem 2 3 lost refl refl refl (omega arith)

reconnect-close_client_example :
    (c' : Client) × (out : List Action) × (close_client lost
      ≡ (record lost { closed_by_user = true }, []))
    × (reconnect 1 true (close_client lost).0 ≡ ok (c', out ++ connects lost.namespaces))
    × (c'.connected ≡ true)
    × (c'.closed_by_user ≡ true)
reconnect-close_client_example = reconnect-close_client 1 lost refl

abbrev defaults : Options
defaults = record {
  nsp = [];
  serializers = none;
  use_schemas = none;
  auto_reconnect = none;
  max_attempts = 0;
}

abbrev listening : Client
listening = Namespace.on (text "/") (text "msg") (new_client world defaults)

abbrev linked : Client
linked = record listening { connected = true; reconnect_attempts = 0 }

dialled : dial true listening ≡ ok (linked, connects listening.namespaces)
unfolding dial
dialled = connect_lem listening

history : Reach pack world (new_client world defaults) (close_client linked).0
history =
    step linked (close_client linked).0
      (step listening linked
        (step (new_client world defaults) listening start
          (listens (text "/") (text "msg") (new_client world defaults)))
        (dials true listening linked (connects listening.namespaces) dialled))
      (closes linked)

new_client-Reach_example : WellFormed (close_client linked).0
new_client-Reach_example = new_client-Reach pack world defaults (close_client linked).0 history
