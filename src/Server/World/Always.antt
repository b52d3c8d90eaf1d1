-- ===== src/Server/World/Always.antt =====
-- A server made by New of server/server.go, after any requests, messages, ends of connections and calls
-- of its user.
use mathlib.Core.Path.{subst}
use bit_socket_go.Base.{
  ℕ, zero, suc, ◌≡◌, ◌≢◌, ◌⊎◌, refl, sym, ap, ◌∙◌, arith, Bool-cases, inl, inr, ◌==◌, Text, List,
  [], ◌∷◌, ◌++◌, All, All-append, length, get_elem?, get_elem?-set, set, text, Option, none, some,
  Table, lookup, lookup-nil,
}
use bit_socket_go.Protocol.Types.{Externals}
use bit_socket_go.Server.Types.{Namespace, Server, Hub}
use bit_socket_go.Server.Namespace.{use_conn_middleware, on_connection, add_schemas, is_member}
use bit_socket_go.Server.Core.{Config, new_server, namespace_of, put_namespace, of}
use bit_socket_go.Server.Http.{http_handler-served}
use bit_socket_go.Server.Hub.{State, new_conn_hub, handle_close, change_at}
use bit_socket_go.Server.Hub.Close.{is_in-missing}
use bit_socket_go.Server.World.{
  World, HandlerKeeps, IsPolite, state_of, world_of, Move, requests, receives, closes, opens, uses,
  handles, declares, touches, Reach, start, move,
}
use bit_socket_go.Server.World.Places.{
  SoundServer, Joined, Grows, Joined-Grows, Placed, Placed-change_at, Grows-store,
  SoundServer-store, Grows-put_namespace, SoundServer-put_namespace,
}
use bit_socket_go.Server.World.Connects.{
  of-Sound, is_member-namespace_of, code-namespace_of, handle_connection-Keeping,
}
use bit_socket_go.Server.World.Messages.{handle_message-Keeping}
use bit_socket_go.Server.World.Closes.{handle_close-SoundServer, handle_close-Joined}

-- Each connection stands at its own number, with sockets that are its own.
abbrev pub Connected : World → Type 0
Connected w =
    (i : ℕ) (hub : Hub)
    → get_elem? w.hubs i ≡ some hub
    → (hub.conn ≡ i) × Joined w.server i hub.joined

abbrev pub SoundWorld : World → Type 0
SoundWorld w = SoundServer w.server × Connected w

hub_eq : {a b : Hub} → ◌≡◌ {A = Option Hub} (some a) (some b) → a ≡ b
hub_eq e = cc

last_or_before :
    (hubs : List Hub) (new hub : Hub) (i : ℕ)
    → get_elem? (hubs ++ new ∷ []) i ≡ some hub
    → (get_elem? hubs i ≡ some hub) ⊎ ((i ≡ length hubs) × (new ≡ hub))
last_or_before [] new hub zero e = inr (refl, hub_eq e)
last_or_before [] new hub (suc i) e = absurd (cc)
last_or_before (h ∷ hubs) new hub zero e = inl e
last_or_before (h ∷ hubs) new hub (suc i) e = elim (last_or_before hubs new hub i e) [
  | inl before ↦ inl before
  | inr (last, is) ↦ inr (ap suc last, is)
]

-- The user's calls: the server grows, and its connections stay.
grown :
    (w : World) (srv : Server)
    → SoundWorld w
    → Grows w.server srv × SoundServer srv
    → SoundWorld (record w { server = srv })
grown w srv (sound, hubs) (grows, whole) = (
  whole,
  λ i hub e. let (n, j) = hubs i hub e in (n, Joined-Grows w.server srv i hub.joined grows j),
)

-- The connection at `i` has moved.
moved :
    (w : World) (i : ℕ) (hub : Hub) (st : State)
    → SoundWorld w
    → get_elem? w.hubs i ≡ some hub
    → st.hub.conn ≡ i
    → SoundServer st.server
    → Joined st.server i st.hub.joined
    → ((j : ℕ) (joined : Table ℕ) → j ≢ i → Joined w.server j joined → Joined st.server j joined)
    → SoundWorld (world_of w i st)
moved w i hub st (sound, hubs) here number whole own others = (whole, connected)
  where
    connected :
        (j : ℕ) (x : Hub)
        → get_elem? (set w.hubs i st.hub) j ≡ some x
        → (x.conn ≡ j) × Joined st.server j x.joined
    connected j x e = elim (Bool-cases (i == j)) [
      | inl same ↦
          let place : i ≡ j = ground (arith, same) in
          let is = hub_eq (rw same at (sym (get_elem?-set w.hubs i j hub st.hub here) ∙ e)) in
          subst (λ k. (x.conn ≡ k) × Joined st.server k x.joined) place
            (subst (λ h. (h.conn ≡ i) × Joined st.server i h.joined) is (number, own))
      | inr other ↦
          let (n, theirs) =
            hubs j x (rw other at (sym (get_elem?-set w.hubs i j hub st.hub here) ∙ e)) in
          (n, others j x.joined (λ q. ground (arith, other, q)) theirs)
    ]

put_namespace-Sound :
    (srv : Server) (name : Text) (ns : Namespace)
    → SoundServer srv
    → ns.members ≡ (namespace_of srv name).members
    → All IsPolite ns.conn_middlewares × All HandlerKeeps ns.conn_handlers
    → Grows srv (put_namespace srv name ns) × SoundServer (put_namespace srv name ns)
put_namespace-Sound srv name ns sound same polite =
    let members = λ (r : ℕ). ap (is_member r) same ∙ is_member-namespace_of srv name r in
    (
      Grows-put_namespace srv name ns (λ r h. members r ∙ h),
      SoundServer-put_namespace srv name ns (λ r h. sound.0 name r (sym (members r) ∙ h)) polite
          sound,
    )

closed :
    (i : ℕ) (hub : Hub) (w : World)
    → get_elem? w.hubs i ≡ some hub
    → SoundWorld w
    → hub.conn ≡ i
    → Joined w.server hub.conn hub.joined
    → SoundWorld (world_of w i (handle_close (state_of w hub)))
unfolding handle_close
closed i hub w here h n mine =
    let st = state_of w hub in
    moved w i hub (handle_close st) h here n (handle_close-SoundServer st h.0 mine) tt
      (λ j joined ne theirs. handle_close-Joined st h.0 mine j joined (λ q. ne (q ∙ n)) theirs)

-- A server without namespaces.
nobody : (srv : Server) → srv.namespaces ≡ [] → SoundServer srv
nobody srv e = (
  λ name r h. absurd (cc (is_in-missing srv name r (missing name), h)),
  λ name ns h. absurd (cc (missing name, h)),
)
  where
    missing : (name : Text) → lookup name srv.namespaces ≡ none
    missing name = ap (lookup name) e ∙ lookup-nil name

module _ (ext : Externals) where
  move-Sound : (w w' : World) → Move ext w w' → SoundWorld w → SoundWorld w'
  unfolding use_conn_middleware on_connection add_schemas new_conn_hub
  move-Sound _ _ (requests id req w st out e) (sound, hubs) =
      let hub = new_conn_hub (length w.hubs) req.handshake in
      let made = http_handler-served ext id (length w.hubs) req w.server st out e in
      let (grows, whole, own, number) =
        handle_connection-Keeping ext id (state_of w hub) sound tt st out made in
      (
        whole,
        λ i x found. elim (last_or_before w.hubs st.hub x i found) [
          | inl before ↦
              let (n, theirs) = hubs i x before in
              (n, Joined-Grows w.server st.server i x.joined grows theirs)
          | inr (last, is) ↦
              subst (λ k. (x.conn ≡ k) × Joined st.server k x.joined) (sym last)
                (subst (λ h. (h.conn ≡ length w.hubs) × Joined st.server (length w.hubs) h.joined)
                  is (number, own))
        ],
      )
  move-Sound _ _ (receives id raw i hub w st out here e) (sound, hubs) =
      let (n, own) = hubs i hub here in
      let mine = subst (λ k. Joined w.server k hub.joined) (sym n) own in
      let (grows, whole, kept, number) =
        handle_message-Keeping ext (state_of w hub) sound mine id raw st out e in
      moved w i hub st (sound, hubs) here (number ∙ n) whole
        (subst (λ k. Joined st.server k st.hub.joined) n kept)
        (λ j joined ne theirs. Joined-Grows w.server st.server j joined grows theirs)
  move-Sound _ _ (closes i hub w here) (sound, hubs) =
      let (n, own) = hubs i hub here in
      let mine = subst (λ k. Joined w.server k hub.joined) (sym n) own in
      closed i hub w here (sound, hubs) n mine
  move-Sound _ _ (opens name w) h = grown w (of w.server name) h (of-Sound w.server name h.0)
  move-Sound _ _ (uses name m w polite) h =
      let ns = namespace_of w.server name in
      let (middlewares, handlers) = code-namespace_of w.server name h.0.1 in
      grown w (put_namespace w.server name (use_conn_middleware ns m)) h (
        put_namespace-Sound w.server name (use_conn_middleware ns m) h.0 refl
          (All-append IsPolite ns.conn_middlewares (m ∷ []) middlewares (polite, tt), handlers))
  move-Sound _ _ (handles name f w keeps) h =
      let ns = namespace_of w.server name in
      let (middlewares, handlers) = code-namespace_of w.server name h.0.1 in
      grown w (put_namespace w.server name (on_connection ns f)) h (
        put_namespace-Sound w.server name (on_connection ns f) h.0 refl
          (middlewares, All-append HandlerKeeps ns.conn_handlers (f ∷ []) handlers (keeps, tt)))
  move-Sound _ _ (declares name schemas w) h =
      let ns = namespace_of w.server name in
      grown w (put_namespace w.server name (add_schemas ns schemas)) h (
        put_namespace-Sound w.server name (add_schemas ns schemas) h.0 refl
          (code-namespace_of w.server name h.0.1))
  move-Sound _ _ (touches r f w keeps) h =
      let store = change_at r f w.server.store in
      let more = λ (q : ℕ) (nsp : Text) (k : ℕ) (p : Placed w.server.store q nsp k).
        Placed-change_at w.server.store r f q nsp k (λ s e. keeps s) p in
      grown w (record (w.server) { store = store }) h
        (Grows-store w.server store more, SoundServer-store w.server store more h.0)

  -- Whatever clients send and the server's user does, in whichever order, and while the user's code
  -- leaves the field Nsp and the connection of every socket as they are: every member of a namespace is a socket of that
  -- namespace, and every socket that a connection holds for a namespace is the connection's own, is
  -- one of that namespace, and is among its members.
  pub new_server-Reach :
      (cfg : Config) (w : World)
      → Reach ext (record { server = new_server ext cfg; hubs = [] }) w
      → SoundWorld w
  unfolding new_server
  new_server-Reach cfg _ start = ((of-Sound _ (text "/") (nobody _ refl)).1, λ i hub e. absurd (cc))
  new_server-Reach cfg _ (move w w' reach next) =
      move-Sound w w' next (new_server-Reach cfg w reach)
