-- ===== src/Server/World/Places.antt =====
-- Which socket stands at a place of the server's store, and who relies on it.
use mathlib.Core.Path.{subst}
use bit_socket_go.Base.{
  ℕ, zero, suc, ◌≡◌, ◌⊎◌, refl, sym, ap, ◌∙◌, arith, true, false, Bool-cases, Option-cases, inl,
  inr, ◌==◌, if◌then◌else◌, ◌=?◌, =?_iff, Text, List, [], ◌∷◌, ◌++◌, All, length, get_elem?,
  get_elem?-set, set, Option, none, some, Table, lookup, insert, lookup-insert,
}
use bit_socket_go.Server.Types.{Socket, Namespace, Server}
use bit_socket_go.Server.Namespace.{is_member}
use bit_socket_go.Server.Core.{put_namespace}
use bit_socket_go.Server.Hub.{change_at}
use bit_socket_go.Server.Hub.Close.{is_in, is_in-put_namespace}
use bit_socket_go.Server.World.{HandlerKeeps, IsPolite}

-- The socket at `r` is one of that namespace and that connection.
abbrev pub Placed : List Socket → ℕ → Text → ℕ → Type 0
Placed store r nsp conn =
    (s : Socket) × (get_elem? store r ≡ some s) × (s.nsp ≡ nsp) × (s.conn ≡ conn)

-- Members stand where they belong, and the code that the user has registered keeps places.
abbrev pub Members : Server → Type 0
Members srv =
    (name : Text) (r : ℕ) → is_in srv name r ≡ true → (conn : ℕ) × Placed srv.store r name conn

abbrev pub Users : Server → Type 0
Users srv =
    (name : Text) (ns : Namespace)
    → lookup name srv.namespaces ≡ some ns
    → All IsPolite ns.conn_middlewares × All HandlerKeeps ns.conn_handlers

abbrev pub SoundServer : Server → Type 0
SoundServer srv = Members srv × Users srv

-- A connection's sockets are its own, one for a namespace, and members of it.
abbrev pub Joined : Server → ℕ → Table ℕ → Type 0
Joined srv conn [] = Unit {0}
Joined srv conn ((nsp, r) ∷ rest) =
    (Placed srv.store r nsp conn × (is_in srv nsp r ≡ true)) × Joined srv conn rest

-- Nothing is taken away.
abbrev pub Grows : Server → Server → Type 0
Grows srv srv' =
    ((r : ℕ) (nsp : Text) (conn : ℕ) → Placed srv.store r nsp conn → Placed srv'.store r nsp conn)
    × ((name : Text) (r : ℕ) → is_in srv name r ≡ true → is_in srv' name r ≡ true)

pub Grows-refl : (srv : Server) → Grows srv srv
Grows-refl srv = (λ r nsp conn h. h, λ name r h. h)

pub Grows-trans : (a b c : Server) → Grows a b → Grows b c → Grows a c
Grows-trans a b c f g =
    (λ r nsp conn h. g.0 r nsp conn (f.0 r nsp conn h), λ name r h. g.1 name r (f.1 name r h))

pub Joined-Grows :
    (srv srv' : Server) (conn : ℕ) (joined : Table ℕ)
    → Grows srv srv'
    → Joined srv conn joined
    → Joined srv' conn joined
Joined-Grows srv srv' conn [] g h = tt
Joined-Grows srv srv' conn ((nsp, r) ∷ rest) g h =
    ((g.0 r nsp conn h.0.0, g.1 nsp r h.0.1), Joined-Grows srv srv' conn rest g h.1)

pub Joined-insert :
    (srv : Server) (conn : ℕ) (nsp : Text) (r : ℕ) (joined : Table ℕ)
    → Placed srv.store r nsp conn
    → is_in srv nsp r ≡ true
    → Joined srv conn joined
    → Joined srv conn (insert nsp r joined)
unfolding insert
Joined-insert srv conn nsp r [] p m h = ((p, m), tt)
Joined-insert srv conn nsp r ((j, q) ∷ rest) p m h = elim (Bool-cases (j =? nsp)) [
  | inl same ↦ rw same ((p, m), h.1)
  | inr other ↦ rw other (h.0, Joined-insert srv conn nsp r rest p m h.1)
]

get_elem?-append :
    (store : List Socket) (s x : Socket) (r : ℕ)
    → get_elem? store r ≡ some x
    → get_elem? (store ++ s ∷ []) r ≡ some x
get_elem?-append [] s x r e = absurd (cc)
get_elem?-append (y ∷ store) s x zero e = e
get_elem?-append (y ∷ store) s x (suc r) e = get_elem?-append store s x r e

pub get_elem?-append_length :
    (store : List Socket) (s : Socket) → get_elem? (store ++ s ∷ []) (length store) ≡ some s
get_elem?-append_length [] s = refl
get_elem?-append_length (y ∷ store) s = get_elem?-append_length store s

pub Placed-append :
    (store : List Socket) (s : Socket) (r : ℕ) (nsp : Text) (conn : ℕ)
    → Placed store r nsp conn
    → Placed (store ++ s ∷ []) r nsp conn
Placed-append store s r nsp conn (x, here, n, c) = (x, get_elem?-append store s x r here, n, c)

some_eq : {a b : Socket} → ◌≡◌ {A = Option Socket} (some a) (some b) → a ≡ b
some_eq e = cc

-- A change of the socket at `q` that leaves it where it is.
abbrev pub KeepsAt : List Socket → ℕ → (Socket → Socket) → Type 0
KeepsAt store q f =
    (s : Socket) → get_elem? store q ≡ some s → ((f s).nsp ≡ s.nsp) × ((f s).conn ≡ s.conn)

pub Placed-change_at :
    (store : List Socket) (q : ℕ) (f : Socket → Socket) (r : ℕ) (nsp : Text) (conn : ℕ)
    → KeepsAt store q f
    → Placed store r nsp conn
    → Placed (change_at q f store) r nsp conn
Placed-change_at store q f r nsp conn keeps (x, here, n, c) =
    elim (Option-cases (get_elem? store q)) [
      | inl gone ↦ subst (λ t. Placed t r nsp conn) (sym (unchanged gone)) (x, here, n, c)
      | inr (s, found) ↦
          subst (λ t. Placed t r nsp conn) (sym (changed s found))
            (placed s found (Bool-cases (q == r)))
    ]
  where
    unchanged : get_elem? store q ≡ none → change_at q f store ≡ store
    unchanged gone = rw (change_at, gone) refl

    changed : (s : Socket) → get_elem? store q ≡ some s → change_at q f store ≡ set store q (f s)
    changed s found = rw (change_at, found) refl

    placed :
        (s : Socket)
        → get_elem? store q ≡ some s
        → ((q == r) ≡ true) ⊎ ((q == r) ≡ false)
        → Placed (set store q (f s)) r nsp conn
    placed s found (inl same) =
        let place : q ≡ r = ground (arith, same) in
        let is : s ≡ x = some_eq (sym found ∙ ap (get_elem? store) place ∙ here) in
        let (nsp_kept, conn_kept) = keeps s found in
        (
          f s,
          get_elem?-set store q r s (f s) found ∙ rw same refl,
          nsp_kept ∙ ap (λ t. t.nsp) is ∙ n,
          conn_kept ∙ ap (λ t. t.conn) is ∙ c,
        )
    placed s found (inr other) = (x, get_elem?-set store q r s (f s) found ∙ rw other here, n, c)

-- With the namespaces as they were, a server whose store places more sockets is grown and sound.
pub Grows-store :
    (srv : Server) (store : List Socket)
    → ((r : ℕ) (nsp : Text) (conn : ℕ) → Placed srv.store r nsp conn → Placed store r nsp conn)
    → Grows srv (record srv { store = store })
unfolding is_in
Grows-store srv store more = (more, λ name r h. h)

pub SoundServer-store :
    (srv : Server) (store : List Socket)
    → ((r : ℕ) (nsp : Text) (conn : ℕ) → Placed srv.store r nsp conn → Placed store r nsp conn)
    → SoundServer srv
    → SoundServer (record srv { store = store })
unfolding is_in
SoundServer-store srv store more (members, users) =
    (λ name r h. let (conn, p) = members name r h in (conn, more r name conn p), users)

pub Users-put_namespace :
    (srv : Server) (name : Text) (ns : Namespace)
    → All IsPolite ns.conn_middlewares × All HandlerKeeps ns.conn_handlers
    → Users srv
    → Users (put_namespace srv name ns)
unfolding put_namespace
Users-put_namespace srv name ns polite h key x e = elim (Bool-cases (name =? key)) [
  | inl same ↦
      let is : ns ≡ x = cc (rw (lookup-insert, same) at e) in
      subst (λ n. All IsPolite n.conn_middlewares × All HandlerKeeps n.conn_handlers) is polite
  | inr other ↦ h key x (rw (lookup-insert, other) at e)
]

store-put_namespace :
    (srv : Server) (name : Text) (ns : Namespace) → (put_namespace srv name ns).store ≡ srv.store
unfolding put_namespace
store-put_namespace srv name ns = refl

pub Grows-put_namespace :
    (srv : Server) (name : Text) (ns : Namespace)
    → ((r : ℕ) → is_in srv name r ≡ true → is_member r ns.members ≡ true)
    → Grows srv (put_namespace srv name ns)
unfolding put_namespace
Grows-put_namespace srv name ns more = (
  λ r nsp conn h. h,
  λ key r h. is_in-put_namespace srv name key ns r ∙ kept key r h (Bool-cases (name =? key)),
)
  where
    kept :
        (key : Text) (r : ℕ)
        → is_in srv key r ≡ true
        → ((name =? key) ≡ true) ⊎ ((name =? key) ≡ false)
        → (if name =? key then is_member r ns.members else is_in srv key r) ≡ true
    kept key r h (inl same) =
        rw same (more r (ap (λ k. is_in srv k r) ((=?_iff name key).0 same) ∙ h))
    kept key r h (inr other) = rw other h

pub SoundServer-put_namespace :
    (srv : Server) (name : Text) (ns : Namespace)
    → ((r : ℕ) → is_member r ns.members ≡ true → (conn : ℕ) × Placed srv.store r name conn)
    → All IsPolite ns.conn_middlewares × All HandlerKeeps ns.conn_handlers
    → SoundServer srv
    → SoundServer (put_namespace srv name ns)
unfolding put_namespace
SoundServer-put_namespace srv name ns placed polite (members, users) =
    (inside, Users-put_namespace srv name ns polite users)
  where
    inside :
        (key : Text) (r : ℕ)
        → is_in (put_namespace srv name ns) key r ≡ true
        → (conn : ℕ) × Placed srv.store r key conn
    inside key r h = elim (Bool-cases (name =? key)) [
      | inl same ↦
          let (conn, p) = placed r (rw (is_in-put_namespace, same) at h) in
          (conn, subst (λ k. Placed srv.store r k conn) ((=?_iff name key).0 same) p)
      | inr other ↦ members key r (rw (is_in-put_namespace, other) at h)
    ]
