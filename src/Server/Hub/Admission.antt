-- ===== src/Server/Hub/Admission.antt =====
-- Who gets into a namespace: handleNamespaceConnect of server/hub.go, behind the middlewares of
-- server/namespace.go.
use bit_socket_go.Base.{
  ℕ, ◌≡◌, ◌≢◌, refl, sym, ap, ◌∙◌, Option-cases, inl, inr, Text, List, [], ◌∷◌, ◌++◌, map, All,
  All-every, length, some, lookup, Outcome, ok, >>=-eq-ok,
}
use mathlib.Core.List.{map-append}
use bit_socket_go.Protocol.Types.{Value, Externals}
use bit_socket_go.Server.Types.{passes, Step, Middleware, Socket, Namespace, Effect}
use bit_socket_go.Server.Chain.{Effects, run_chain}
use bit_socket_go.Server.Chain.Invariant.{Keeps, MiddlewareKeeps, run_chain-Keeps_blocked}
use bit_socket_go.Server.Socket.{new_socket}
use bit_socket_go.Server.Hub.{
  State, socket_at, change_socket, relocate, on_socket, send_to, reject_connection, admit,
  connect_socket, handle_namespace_connect,
}

-- A middleware that calls `next` with an error, if at all.
abbrev pub NeverPasses : Middleware Socket Effect → Type 0
NeverPasses m = (s : Socket) → All (λ step. step.call ≢ passes) (m s)

-- Nothing has joined since.
abbrev Outside : State → State → Type 0
Outside st st' = (st'.hub.joined ≡ st.hub.joined) × (st'.server.namespaces ≡ st.server.namespaces)

module _ (st : State) where
  abbrev Anything : Effect → Type 0
  Anything e = Unit {0}

  steps-Keep :
      (r : ℕ) (xs : List (Step Socket Effect))
      → All {A = Step State Effect}
          (λ step.
            ((s : State) → Outside st s → Outside st (step.change s)) × All Anything step.performs)
          (map (relocate r) xs)
  unfolding change_socket
  steps-Keep r [] = tt
  steps-Keep r (x ∷ xs) = ((λ s h. h, All-every Anything x.performs (λ e. tt)), steps-Keep r xs)

  on_socket-Keeps :
      (r : ℕ) (m : Middleware Socket Effect)
      → MiddlewareKeeps (λ es. es) (Outside st) Anything (on_socket r m)
  unfolding on_socket
  on_socket-Keeps r m s = elim (Option-cases (socket_at r s.server)) [
    | inl gone ↦ rw (on_socket, gone) tt
    | inr (x, here) ↦ rw (on_socket, here) (steps-Keep r (m x))
  ]

  map-on_socket_keeps :
      (r : ℕ) (ms : List (Middleware Socket Effect))
      → All (MiddlewareKeeps (λ es. es) (Outside st) Anything) (map (on_socket r) ms)
  map-on_socket_keeps r [] = tt
  map-on_socket_keeps r (m ∷ ms) = (on_socket-Keeps r m, map-on_socket_keeps r ms)

  refusals :
      (r : ℕ) (xs : List (Step Socket Effect))
      → All (λ step. step.call ≢ passes) xs
      → All {A = Step State Effect} (λ step. step.call ≢ passes) (map (relocate r) xs)
  refusals r [] h = tt
  refusals r (x ∷ xs) h = (h.0, refusals r xs h.1)

  on_socket-refuses :
      (r : ℕ) (m : Middleware Socket Effect)
      → NeverPasses m
      → (s : State) → All (λ step. step.call ≢ passes) (on_socket r m s)
  unfolding on_socket
  on_socket-refuses r m h s = elim (Option-cases (socket_at r s.server)) [
    | inl gone ↦ rw (on_socket, gone) tt
    | inr (x, here) ↦ rw (on_socket, here) (refusals r (m x) (h x))
  ]

  state_eq :
      {s s' : State} {out out' : Effects}
      → ◌≡◌ {A = Outcome (State × Effects)} (ok (s, out)) (ok (s', out'))
      → s ≡ s'
  state_eq e = cc

  reject-Keeps :
      (ext : Externals) (r : ℕ) (nsp message : Text)
      → Keeps (λ es. es) (Outside st) Anything (reject_connection ext r nsp message)
  unfolding reject_connection change_socket
  reject-Keeps ext r nsp message s s' out h e =
      let (o, e₁, k₁) = >>=-eq-ok (send_to r s _) _ e in
      (rw (← state_eq k₁) h, All-every Anything out (λ x. tt))

  module _ (ext : Externals) (id nsp : Text) (ns : Namespace)
      (before : List (Middleware Socket Effect)) (m : Middleware Socket Effect)
      (after : List (Middleware Socket Effect)) where
    connect_socket-refused :
        (export : State → Value) (st' : State) (out : Effects)
        → ns.conn_middlewares ≡ before ++ m ∷ after
        → NeverPasses m
        → connect_socket ext id nsp ns export st ≡ ok (st', out)
        → Outside st st'
    unfolding connect_socket
    connect_socket-refused export st' out chain never e =
        let r = length st.server.store in
        let made : State = record st {
          server = record (st.server) {
            store = st.server.store ++ new_socket id st.hub.conn nsp st.hub.handshake ∷ [];
          };
        } in
        let reject = reject_connection ext r ns.name in
        let finish = admit ext r nsp export in
        let list = ap (map (on_socket r)) chain ∙ map-append (on_socket r) before (m ∷ after) in
        let keeps =
          run_chain-Keeps_blocked (λ es. es) (Outside st) Anything reject
            (reject-Keeps ext r ns.name) finish (map (on_socket r) before) (on_socket r m)
            (map (on_socket r) after) (on_socket-refuses r m never) (on_socket-Keeps r m)
            (map-on_socket_keeps r before) in
        (keeps made st' out (refl, refl)
          (sym (ap (λ ms. run_chain (λ es. es) finish reject ms made) list) ∙ e)).0

  -- While one of a namespace's middlewares never passes anybody, a CONNECT for it lets nobody in,
  -- whatever the other middlewares do and in whichever order they stand: the connection holds no new
  -- socket, and no namespace has a new member.
  pub handle_namespace_connect-refused :
      (ext : Externals) (id nsp : Text) (ns : Namespace) (before : List (Middleware Socket Effect))
      (m : Middleware Socket Effect) (after : List (Middleware Socket Effect)) (st' : State)
      (out : Effects)
      → lookup nsp st.server.namespaces ≡ some ns
      → ns.conn_middlewares ≡ before ++ m ∷ after
      → NeverPasses m
      → handle_namespace_connect ext id nsp st ≡ ok (st', out)
      → (st'.hub.joined ≡ st.hub.joined) × (st'.server.namespaces ≡ st.server.namespaces)
  unfolding handle_namespace_connect
  handle_namespace_connect-refused ext id nsp ns before m after st' out here chain never e =
      connect_socket-refused ext id nsp ns before m after _ st' out chain never
        (rw (handle_namespace_connect, here) at e)
