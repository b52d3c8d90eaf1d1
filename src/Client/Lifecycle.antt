-- ===== src/Client/Lifecycle.antt =====
-- The lifecycle events that client/client.go triggers at every namespace of a client.
use bit_socket_go.Base.{
  ◌≡◌, refl, Option-cases, inl, inr, Text, List, [], ◌∷◌, ◌++◌, All, All-append, Table, lookup,
  Outcome, ok,
}
use bit_socket_go.Protocol.Types.{Value}
use bit_socket_go.Server.Types.{EventPacket}
use bit_socket_go.Server.Chain.Total.{Ends, run_chain-Ends}
use bit_socket_go.Client.{Channel, Action, handled, handle_packet, trigger_event, trigger_all}

-- A call of a listener, and nothing else.
abbrev pub IsHandled : Action → Type 0
IsHandled (handled event payload) = Unit {0}
IsHandled _ = ⊥

-- It ends, and all that comes of it is calls of listeners.
abbrev pub OnlyCalls : Outcome (List Action) → Type 0
OnlyCalls r = (out : List Action) × (r ≡ ok out) × All IsHandled out

handle_packet-Ends :
    (ns : Channel) (packet : EventPacket) → Ends IsHandled (handle_packet ns packet)
handle_packet-Ends ns packet = elim (Option-cases (lookup packet.event ns.listeners)) [
  | inl missing ↦ (packet, [], rw (handle_packet, missing) refl, tt)
  | inr (h, found) ↦
      (packet, handled packet.event packet.payload ∷ [], rw (handle_packet, found) refl, (tt, tt))
]

pub trigger_event-OnlyCalls :
    (ns : Channel) (event : Text) (payload : Value) → OnlyCalls (trigger_event ns event payload)
unfolding trigger_event
trigger_event-OnlyCalls ns event payload =
    let (packet, out, e, q) =
      run_chain-Ends IsHandled (λ _. []) (λ _. tt) (λ message packet. ok (packet, []))
        (λ message packet. (packet, [], refl, tt)) (handle_packet ns) ns.middlewares
        (record { event = event; payload = payload }) (handle_packet-Ends ns) in
    (out, rw (trigger_event, e) refl, q)

pub trigger_all-OnlyCalls :
    (table : Table Channel) (event : Text) (payload : Value)
    → OnlyCalls (trigger_all table event payload)
unfolding trigger_all
trigger_all-OnlyCalls [] event payload = ([], refl, tt)
trigger_all-OnlyCalls ((nsp, ns) ∷ rest) event payload =
    let (out, e, q) = trigger_event-OnlyCalls ns event payload in
    let (outs, e', q') = trigger_all-OnlyCalls rest event payload in
    (out ++ outs, rw (trigger_all, e, e') refl, All-append IsHandled out outs q q')
