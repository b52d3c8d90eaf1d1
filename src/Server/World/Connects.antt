-- ===== src/Server/World/Connects.antt =====
-- The invariant when a socket joins, by handleConnection of server/server.go or handleNamespaceConnect
-- of server/hub.go.
use mathlib.Core.Path.{subst}
use bit_socket_go.Base.{
  ℕ, ◌≡◌, refl, sym, ap, ◌∙◌, arith, true, Bool-cases, Option-cases, inl, inr, ◌==◌, =?_refl,
  if◌then◌else◌, Text, List, [], ◌∷◌, ◌++◌, map, text, All, All-every, length, some, lookup, insert,
  Outcome, ok, >>=-eq-ok, stop, error, panic, exhausted, Bytes,
}
use bit_socket_go.Protocol.Types.{Value, Externals}
use bit_socket_go.Server.Types.{
  Step, Middleware, ConnectionHandler, Socket, Namespace, Server, Effect, write,
}
use bit_socket_go.Server.Chain.{Effects}
use bit_socket_go.Server.Chain.Invariant.{Keeps, MiddlewareKeeps, run_chain-Keeps}
use bit_socket_go.Server.Socket.{new_socket, close_conn}
use bit_socket_go.Server.Namespace.{new_namespace, is_member, add_socket, fire_connection}
use bit_socket_go.Server.Core.{namespace_of, put_namespace, of}
use bit_socket_go.Server.Hub.{
  State, socket_at, change_at, change_socket, relocate, on_socket, send_to, reject_connection,
  admit, connect_socket, handle_namespace_connect, handle_connection,
}
use bit_socket_go.Server.Hub.Close.{is_in, is_in-put_namespace, is_in-there, is_in-missing}
use bit_socket_go.Server.World.{KeepsPlace, HandlerKeeps, IsPolite}
use bit_socket_go.Server.World.Places.{
  Placed, Users, SoundServer, Joined, Grows, Grows-refl, Grows-trans, Joined-Grows, Joined-insert,
  get_elem?-append_length, Placed-append, Placed-change_at, Grows-store, SoundServer-store,
  Grows-put_namespace, SoundServer-put_namespace,
}

is_member-add_socket :
    (r q : ℕ) (ns : Namespace)
    → is_member q (add_socket r ns).members ≡ (if r == q then true else is_member q ns.members)
unfolding add_socket is_member
is_member-add_socket r q ns = elim (Bool-cases (is_member r ns.members)) [
  | inl inside ↦
      rw (add_socket, inside) (ground (arith, ap (λ n. is_member n ns.members) {x = r} {y = q}))
  | inr outside ↦ rw (add_socket, outside) refl
]

conn_code-add_socket :
    (r : ℕ) (ns : Namespace)
    → ((add_socket r ns).conn_middlewares ≡ ns.conn_middlewares)
      × ((add_socket r ns).conn_handlers ≡ ns.conn_handlers)
unfolding add_socket
conn_code-add_socket r ns = elim (Bool-cases (is_member r ns.members)) [
  | inl inside ↦ rw (add_socket, inside) (refl, refl)
  | inr outside ↦ rw (add_socket, outside) (refl, refl)
]

pub is_member-namespace_of :
    (srv : Server) (name : Text) (q : ℕ)
    → is_member q (namespace_of srv name).members ≡ is_in srv name q
unfolding namespace_of is_member new_namespace
is_member-namespace_of srv name q = elim (Option-cases (lookup name srv.namespaces)) [
  | inl missing ↦ rw (namespace_of, missing, is_in-missing srv name q missing) refl
  | inr (ns, found) ↦ rw (namespace_of, found, is_in-there srv name ns q found) refl
]

pub code-namespace_of :
    (srv : Server) (name : Text)
    → Users srv
    → All IsPolite (namespace_of srv name).conn_middlewares
      × All HandlerKeeps (namespace_of srv name).conn_handlers
unfolding namespace_of new_namespace
code-namespace_of srv name users = elim (Option-cases (lookup name srv.namespaces)) [
  | inl missing ↦ rw (namespace_of, missing) (tt, tt)
  | inr (ns, found) ↦ rw (namespace_of, found) (users name ns found)
]

fire_connection-KeepsPlace :
    (hs : List ConnectionHandler) → All HandlerKeeps hs → KeepsPlace (λ s. (fire_connection hs s).0)
unfolding fire_connection
fire_connection-KeepsPlace [] h s = (refl, refl)
fire_connection-KeepsPlace (f ∷ hs) h s =
    let (nsp_kept, conn_kept) = h.0 s in
    let (nsp_rest, conn_rest) = fire_connection-KeepsPlace hs h.1 (f s).0 in
    (nsp_rest ∙ nsp_kept, conn_rest ∙ conn_kept)

abbrev Anything : Effect → Type 0
Anything e = Unit {0}

-- Sound, and grown since the server was `before`.
abbrev pub Sound : Server → ℕ → State → Type 0
Sound before conn st =
    Grows before st.server
    × SoundServer st.server
    × Joined st.server conn st.hub.joined
    × (st.hub.conn ≡ conn)

pub change_socket-Sound :
    (before : Server) (conn q : ℕ) (f : Socket → Socket) (st : State)
    → ((s : Socket) → socket_at q st.server ≡ some s → ((f s).nsp ≡ s.nsp) × ((f s).conn ≡ s.conn))
    → Sound before conn st
    → Sound before conn (change_socket q f st)
unfolding change_socket
change_socket-Sound before conn q f st keeps (grown, sound, joined, same) =
    let store = change_at q f st.server.store in
    let more = λ (r : ℕ) (nsp : Text) (k : ℕ) (p : Placed st.server.store r nsp k).
      Placed-change_at st.server.store q f r nsp k keeps p in
    let grows = Grows-store st.server store more in
    let srv : Server = record (st.server) { store = store } in
    (
      Grows-trans before st.server srv grown grows,
      SoundServer-store st.server store more sound,
      Joined-Grows st.server srv conn st.hub.joined grows joined,
      same,
    )

module _ (before : Server) (conn : ℕ) (nsp : Text) (r : ℕ) where
  -- Besides, the new socket stands at its place.
  abbrev pub Good : State → Type 0
  Good st = Sound before conn st × Placed st.server.store r nsp conn

  change_socket-Good :
      (q : ℕ) (f : Socket → Socket) (st : State)
      → KeepsPlace f
      → Good st
      → Good (change_socket q f st)
  unfolding change_socket
  change_socket-Good q f st keeps (sound, placed) = (
    change_socket-Sound before conn q f st (λ s e. keeps s) sound,
    Placed-change_at st.server.store q f r nsp conn (λ s e. keeps s) placed,
  )

  state_eq :
      {s s' : State} {out out' : Effects}
      → ◌≡◌ {A = Outcome (State × Effects)} (ok (s, out)) (ok (s', out'))
      → s ≡ s'
  state_eq e = cc

  reject-Keeps :
      (ext : Externals) (name message : Text)
      → Keeps (λ es. es) Good Anything (reject_connection ext r name message)
  unfolding reject_connection close_conn
  reject-Keeps ext name message st st' out h e =
      let (o, e₁, k₁) = >>=-eq-ok (send_to r st _) _ e in
      (
        subst Good (state_eq k₁)
            (change_socket-Good r (λ s. (close_conn s).0) st (λ s. (refl, refl)) h),
        All-every Anything out (λ x. tt),
      )

  -- The server and the connection with the new member.
  abbrev let_in : State → State
  let_in st = record {
    server = put_namespace st.server nsp (add_socket r (namespace_of st.server nsp));
    hub = record (st.hub) { joined = insert nsp r st.hub.joined };
  }

  member-Placed :
      (st : State)
      → Placed st.server.store r nsp conn
      → SoundServer st.server
      → (q : ℕ) → is_member q (add_socket r (namespace_of st.server nsp)).members ≡ true
      → (k : ℕ) × Placed st.server.store q nsp k
  member-Placed st placed sound q h = elim (Bool-cases (r == q)) [
    | inl same ↦
        let place : r ≡ q = ground (arith, same) in
        (conn, subst (λ x. Placed st.server.store x nsp conn) place placed)
    | inr other ↦ sound.0 nsp q (
        sym (is_member-namespace_of st.server nsp q)
        ∙ (rw (is_member-add_socket r q (namespace_of st.server nsp), other) at h))
  ]

  let_in-Good : (st : State) → Good st → Good (let_in st)
  unfolding put_namespace
  let_in-Good st ((grown, sound, joined, same), placed) =
      let srv = st.server in
      let ns = namespace_of srv nsp in
      let srv' = put_namespace srv nsp (add_socket r ns) in
      let grows =
        Grows-put_namespace srv nsp (add_socket r ns) (λ q h.
          ground (arith, is_member-add_socket r q ns, is_member-namespace_of srv nsp q, h)) in
      let (middlewares, handlers) = conn_code-add_socket r ns in
      let (polite, kept) = code-namespace_of srv nsp sound.1 in
      let member : is_in srv' nsp r ≡ true =
        is_in-put_namespace srv nsp nsp (add_socket r ns) r
        ∙ rw =?_refl (is_member-add_socket r r ns ∙ ground arith) in
      (
        (
          Grows-trans before srv srv' grown grows,
          SoundServer-put_namespace srv nsp (add_socket r ns) (member-Placed st placed sound)
              (rw middlewares polite, rw handlers kept) sound,
          Joined-insert srv' conn nsp r st.hub.joined placed member
              (Joined-Grows srv srv' conn st.hub.joined grows joined),
          same,
        ),
        placed,
      )

  admit-Keeps :
      (ext : Externals) (export : State → Value)
      → Keeps (λ es. es) Good Anything (admit ext r nsp export)
  unfolding admit
  admit-Keeps ext export st st' out h e =
      let (o, e₁, k₁) = >>=-eq-ok (send_to r (let_in st) _) _ e in
      let handlers = (namespace_of st.server nsp).conn_handlers in
      let polite = (code-namespace_of st.server nsp h.0.1.1).1 in
      (
        subst Good (state_eq k₁) (
            change_socket-Good r (λ s. (fire_connection handlers s).0) (let_in st)
              (fire_connection-KeepsPlace handlers polite) (let_in-Good st h)),
        All-every Anything out (λ x. tt),
      )

  steps-Keep :
      (q : ℕ) (xs : List (Step Socket Effect))
      → All (λ step. KeepsPlace step.change) xs
      → All {A = Step State Effect}
          (λ step. ((st : State) → Good st → Good (step.change st)) × All Anything step.performs)
          (map (relocate q) xs)
  steps-Keep q [] h = tt
  steps-Keep q (x ∷ xs) h = (
    (λ st g. change_socket-Good q x.change st h.0 g, All-every Anything x.performs (λ e. tt)),
    steps-Keep q xs h.1,
  )

  on_socket-Keeps :
      (q : ℕ) (m : Middleware Socket Effect)
      → IsPolite m
      → MiddlewareKeeps (λ es. es) Good Anything (on_socket q m)
  unfolding on_socket
  on_socket-Keeps q m polite st = elim (Option-cases (socket_at q st.server)) [
    | inl gone ↦ rw (on_socket, gone) tt
    | inr (x, here) ↦ rw (on_socket, here) (steps-Keep q (m x) (polite x))
  ]

  map-on_socket_keeps :
      (q : ℕ) (ms : List (Middleware Socket Effect))
      → All IsPolite ms
      → All (MiddlewareKeeps (λ es. es) Good Anything) (map (on_socket q) ms)
  map-on_socket_keeps q [] h = tt
  map-on_socket_keeps q (m ∷ ms) h = (on_socket-Keeps q m h.0, map-on_socket_keeps q ms h.1)

-- What a part of the hub's code that ends leaves behind.
abbrev pub Keeping : State → Outcome (State × Effects) → Type 0
Keeping st result =
    (st' : State) (out : Effects) → result ≡ ok (st', out) → Sound st.server st.hub.conn st'

pub Keeping-ok :
    (st after : State) (out : Effects)
    → Sound st.server st.hub.conn after
    → Keeping st (ok (after, out))
Keeping-ok st after out h st' out' e =
    subst (Sound st.server st.hub.conn) (state_eq st.server 0 [] 0 e) h

module _ (ext : Externals) (id nsp : Text) (st : State) (sound : SoundServer st.server)
    (joined : Joined st.server st.hub.conn st.hub.joined) where
  connect_socket-Keeping :
      (ns : Namespace) (export : State → Value)
      → All IsPolite ns.conn_middlewares
      → Keeping st (connect_socket ext id nsp ns export st)
  unfolding connect_socket new_socket
  connect_socket-Keeping ns export polite st' out e =
      let before = st.server in
      let conn = st.hub.conn in
      let r = length before.store in
      let s = new_socket id conn nsp st.hub.handshake in
      let store = before.store ++ s ∷ [] in
      let more = λ (q : ℕ) (n : Text) (k : ℕ) (p : Placed before.store q n k).
        Placed-append before.store s q n k p in
      let grows = Grows-store before store more in
      let srv : Server = record before { store = store } in
      let made : State = record st { server = srv } in
      let good : Good before conn nsp r made = (
        (
          grows,
          SoundServer-store before store more sound,
          Joined-Grows before srv conn st.hub.joined grows joined,
          refl,
        ),
        (s, get_elem?-append_length before.store s, refl, refl),
      ) in
      let keeps =
        run_chain-Keeps (λ es. es) (Good before conn nsp r) Anything
          (reject_connection ext r ns.name) (reject-Keeps before conn nsp r ext ns.name)
          (admit ext r nsp export) (map (on_socket r) ns.conn_middlewares)
          (admit-Keeps before conn nsp r ext export)
          (map-on_socket_keeps before conn nsp r r ns.conn_middlewares polite) in
      (keeps made st' out good e).0.0

  unmoved : Sound st.server st.hub.conn st
  unmoved = (Grows-refl st.server, sound, joined, refl)

  told :
      (answer : Outcome Bytes)
      → Keeping st (elim answer [
        | ok buf ↦ ok (st, write st.hub.conn buf ∷ [])
        | stop (error e) ↦ ok (st, [])
        | stop panic ↦ stop panic
        | stop exhausted ↦ stop exhausted
      ])
  told (ok buf) = Keeping-ok st st (write st.hub.conn buf ∷ []) unmoved
  told (stop (error x)) = Keeping-ok st st [] unmoved
  told (stop panic) = λ st' out e. absurd (cc)
  told (stop exhausted) = λ st' out e. absurd (cc)

  pub handle_namespace_connect-Keeping : Keeping st (handle_namespace_connect ext id nsp st)
  unfolding handle_namespace_connect
  handle_namespace_connect-Keeping st' out e =
      elim (Option-cases (lookup nsp st.server.namespaces)) [
        | inl missing ↦ told _ st' out (rw (handle_namespace_connect, missing) at e)
        | inr (ns, found) ↦
            connect_socket-Keeping ns _ (sound.1 nsp ns found).0 st' out
              (rw (handle_namespace_connect, found) at e)
      ]

no_members : (name : Text) (r : ℕ) → is_member r (new_namespace name).members ≡ true → ⊥
unfolding is_member new_namespace
no_members name r h = cc

pub of-Sound :
    (srv : Server) (name : Text)
    → SoundServer srv
    → Grows srv (of srv name) × SoundServer (of srv name)
unfolding of
of-Sound srv name sound = elim (Option-cases (lookup name srv.namespaces)) [
  | inl missing ↦
      rw (of, missing)
        (
          Grows-put_namespace srv name (new_namespace name)
              (λ r h. cc (h, is_in-missing srv name r missing)),
          SoundServer-put_namespace srv name (new_namespace name)
              (λ r h. absurd (no_members name r h)) (tt, tt) sound,
        )
  | inr (ns, found) ↦ rw (of, found) (Grows-refl srv, sound)
]

module _ (ext : Externals) (id : Text) (st : State) (sound : SoundServer st.server)
    (joined : Joined st.server st.hub.conn st.hub.joined) where
  pub handle_connection-Keeping : Keeping st (handle_connection ext id st)
  unfolding handle_connection
  handle_connection-Keeping st' out e =
      let (grown, whole) = of-Sound st.server (text "/") sound in
      let root : State = record st { server = of st.server (text "/") } in
      let moved = Joined-Grows st.server root.server st.hub.conn st.hub.joined grown joined in
      let (later, kept, members, same) =
        connect_socket-Keeping ext id (text "/") root whole moved
          (namespace_of st.server (text "/")) _ (code-namespace_of st.server (text "/") sound.1).0
          st' out e in
      (Grows-trans st.server root.server st'.server grown later, kept, members, same)
