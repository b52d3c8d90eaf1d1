-- ===== src/Server/Hub/Close.antt =====
-- handleClose of server/hub.go: who is left in the namespaces when a connection has gone.
use bit_socket_go.Base.{
  ℕ, ◌≡◌, refl, ap, ◌∙◌, arith, Bool, true, false, ◌&&◌, Option-cases, inl, inr, if◌then◌else◌,
  Text, List, [], ◌∷◌, none, some, Table, lookup, lookup-insert, ◌=?◌, =?_iff, ◌==◌, get_elem?,
}
use bit_socket_go.Server.Types.{Socket, Namespace, Server}
use bit_socket_go.Server.Namespace.{is_member, delete_member, remove_socket}
use bit_socket_go.Server.Core.{put_namespace}
use bit_socket_go.Server.Hub.{State, socket_at, detach, detach_all, handle_close}

is_member-delete_member :
    (q r : ℕ) (xs : List ℕ)
    → is_member q (delete_member r xs) ≡ (if r == q then false else is_member q xs)
unfolding is_member delete_member
is_member-delete_member q r [] = ground arith
is_member-delete_member q r (x ∷ xs) = ground (arith, is_member-delete_member q r xs)

is_member-remove_socket :
    (q r : ℕ) (ns : Namespace)
    → is_member q (remove_socket r ns).members ≡ (if r == q then false else is_member q ns.members)
unfolding remove_socket
is_member-remove_socket q r ns = is_member-delete_member q r ns.members

-- Socket `q` gets what is sent to the namespace of that name.
unfoldable pub is_in : Server → Text → ℕ → Bool
is_in srv name q = elim (lookup name srv.namespaces) [
  | none ↦ false
  | some ns ↦ is_member q ns.members
]

-- `q` is the socket at `r`, and that is a socket of the namespace.
abbrev pub leaves : Server → Text → ℕ → ℕ → Bool
leaves srv name q r = elim (socket_at r srv) [ none ↦ false | some s ↦ s.nsp =? name && r == q ]

-- `q` is one of the connection's sockets, and one of that namespace.
abbrev pub any_leaves : Server → Text → ℕ → Table ℕ → Bool
any_leaves srv name q [] = false
any_leaves srv name q ((nsp, r) ∷ rest) =
    if leaves srv name q r then true else any_leaves srv name q rest

pub is_in-put_namespace :
    (srv : Server) (other name : Text) (ns : Namespace) (q : ℕ)
    → is_in (put_namespace srv other ns) name q
      ≡ (if other =? name then is_member q ns.members else is_in srv name q)
unfolding is_in put_namespace
is_in-put_namespace srv other name ns q =
    rw (is_in, lookup-insert other name ns srv.namespaces) (ground arith)

pub is_in-there :
    (srv : Server) (name : Text) (ns : Namespace) (q : ℕ)
    → lookup name srv.namespaces ≡ some ns
    → is_in srv name q ≡ is_member q ns.members
unfolding is_in
is_in-there srv name ns q e = rw (is_in, e) refl

pub is_in-missing :
    (srv : Server) (name : Text) (q : ℕ)
    → lookup name srv.namespaces ≡ none
    → is_in srv name q ≡ false
unfolding is_in
is_in-missing srv name q e = rw (is_in, e) refl

pub detach-gone : (r : ℕ) (srv : Server) → socket_at r srv ≡ none → detach r srv ≡ srv
unfolding detach
detach-gone r srv e = rw (detach, e) refl

pub detach-missing :
    (r : ℕ) (srv : Server) (s : Socket)
    → socket_at r srv ≡ some s
    → lookup s.nsp srv.namespaces ≡ none
    → detach r srv ≡ srv
unfolding detach
detach-missing r srv s e m = rw (detach, e, m) refl

pub detach-there :
    (r : ℕ) (srv : Server) (s : Socket) (ns : Namespace)
    → socket_at r srv ≡ some s
    → lookup s.nsp srv.namespaces ≡ some ns
    → detach r srv ≡ put_namespace srv s.nsp (remove_socket r ns)
unfolding detach
detach-there r srv s ns e m = rw (detach, e, m) refl

detach-is_in :
    (r : ℕ) (srv : Server) (name : Text) (q : ℕ)
    → is_in (detach r srv) name q ≡ (if leaves srv name q r then false else is_in srv name q)
detach-is_in r srv name q = elim (Option-cases (socket_at r srv)) [
  | inl gone ↦ rw (detach-gone r srv gone, leaves, gone) refl
  | inr (s, here) ↦ elim (Option-cases (lookup s.nsp srv.namespaces)) [
    | inl missing ↦
        rw (detach-missing r srv s here missing, leaves, here)
          (ground (
            arith,
            =?_iff s.nsp name,
            ap (λ n. is_in srv n q) {x = s.nsp} {y = name},
            is_in-missing srv s.nsp q missing,
          ))
    | inr (ns, found) ↦
        rw
          (
            detach-there r srv s ns here found,
            leaves,
            here,
            is_in-put_namespace srv s.nsp name (remove_socket r ns) q,
            is_member-remove_socket q r ns,
          )
          (ground (
            arith,
            =?_iff s.nsp name,
            ap (λ n. is_in srv n q) {x = s.nsp} {y = name},
            is_in-there srv s.nsp ns q found,
          ))
  ]
]

pub store-detach : (r : ℕ) (srv : Server) → (detach r srv).store ≡ srv.store
unfolding put_namespace
store-detach r srv = elim (Option-cases (socket_at r srv)) [
  | inl gone ↦ rw (detach-gone r srv gone) refl
  | inr (s, here) ↦ elim (Option-cases (lookup s.nsp srv.namespaces)) [
    | inl missing ↦ rw (detach-missing r srv s here missing) refl
    | inr (ns, found) ↦ rw (detach-there r srv s ns here found) refl
  ]
]

leaves-detach :
    (r : ℕ) (srv : Server) (name : Text) (q p : ℕ)
    → leaves (detach r srv) name q p ≡ leaves srv name q p
leaves-detach r srv name q p =
    ap (λ store. elim (get_elem? store p) [ none ↦ false | some s ↦ s.nsp =? name && p == q ])
      (store-detach r srv)

any_leaves-detach :
    (r : ℕ) (srv : Server) (name : Text) (q : ℕ) (joined : Table ℕ)
    → any_leaves (detach r srv) name q joined ≡ any_leaves srv name q joined
any_leaves-detach r srv name q [] = refl
any_leaves-detach r srv name q ((nsp, p) ∷ rest) =
    simp (leaves-detach r srv name q p, any_leaves-detach r srv name q rest)

both :
    (a b c : Bool)
    → (if a then false else (if b then false else c))
      ≡ (if (if b then true else a) then false else c)
both true true c = refl
both true false c = refl
both false true c = refl
both false false c = refl

detach_all-is_in :
    (joined : Table ℕ) (srv : Server) (name : Text) (q : ℕ)
    → is_in (detach_all joined srv) name q
      ≡ (if any_leaves srv name q joined then false else is_in srv name q)
unfolding detach_all
detach_all-is_in [] srv name q = refl
detach_all-is_in ((nsp, r) ∷ rest) srv name q =
    detach_all-is_in rest (detach r srv) name q
    ∙ rw (any_leaves-detach r srv name q rest, detach-is_in r srv name q)
        (both (any_leaves srv name q rest) (leaves srv name q r) (is_in srv name q))

-- After a connection has closed, the members of every namespace are those from before, less the
-- sockets that the connection's hub holds, and the hub holds none.
pub handle_close-is_in :
    (st : State) (name : Text) (q : ℕ)
    → (is_in (handle_close st).server name q
        ≡ (if any_leaves st.server name q st.hub.joined then false else is_in st.server name q))
      × ((handle_close st).hub.joined ≡ [])
unfolding handle_close
handle_close-is_in st name q = (detach_all-is_in st.hub.joined st.server name q, refl)
