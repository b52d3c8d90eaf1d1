-- ===== src/Server/World/Closes.antt =====
-- The invariant at the end of a connection: handleClose of server/hub.go.
use mathlib.Core.Path.{subst}
use bit_socket_go.Base.{
  ℕ, ◌≡◌, ◌≢◌, refl, sym, ap, ◌∙◌, arith, true, false, Bool-cases, Option-cases, inl, inr, ◌==◌,
  Text, [], ◌∷◌, Option, some, Table, lookup, get_elem?,
}
use bit_socket_go.Server.Types.{Socket, Server}
use bit_socket_go.Server.Namespace.{remove_socket}
use bit_socket_go.Server.Hub.{State, socket_at, detach, detach_all, handle_close}
use bit_socket_go.Server.Hub.Close.{
  is_in, leaves, any_leaves, store-detach, detach-gone, detach-missing, detach-there,
  handle_close-is_in,
}
use bit_socket_go.Server.World.Places.{Placed, Users, SoundServer, Joined, Users-put_namespace}

Users-detach : (r : ℕ) (srv : Server) → Users srv → Users (detach r srv)
unfolding remove_socket
Users-detach r srv h = elim (Option-cases (socket_at r srv)) [
  | inl gone ↦ subst Users (sym (detach-gone r srv gone)) h
  | inr (s, here) ↦ elim (Option-cases (lookup s.nsp srv.namespaces)) [
    | inl missing ↦ subst Users (sym (detach-missing r srv s here missing)) h
    | inr (ns, found) ↦
        subst Users (sym (detach-there r srv s ns here found))
          (Users-put_namespace srv s.nsp (remove_socket r ns) (h s.nsp ns found) h)
  ]
]

detach_all-kept :
    (joined : Table ℕ) (srv : Server)
    → Users srv
    → ((detach_all joined srv).store ≡ srv.store) × Users (detach_all joined srv)
unfolding detach_all
detach_all-kept [] srv h = (refl, h)
detach_all-kept ((nsp, r) ∷ rest) srv h =
    let (same, users) = detach_all-kept rest (detach r srv) (Users-detach r srv h) in
    (same ∙ store-detach r srv, users)

some_eq : {a b : Socket} → ◌≡◌ {A = Option Socket} (some a) (some b) → a ≡ b
some_eq e = cc

-- A socket of another connection is none of those that leave.
leaves-elsewhere :
    (srv : Server) (name : Text) (q p : ℕ) (nsp : Text) (conn other : ℕ)
    → other ≢ conn
    → Placed srv.store p nsp conn
    → Placed srv.store q name other
    → leaves srv name q p ≡ false
leaves-elsewhere srv name q p nsp conn other ne (s, here, n, c) (x, there, m, d) =
    rw (leaves, here)
      (elim (Bool-cases (p == q)) [
        | inl same ↦
            let place : p ≡ q = ground (arith, same) in
            let is = some_eq (sym here ∙ ap (get_elem? srv.store) place ∙ there) in
            absurd (ne (sym d ∙ sym (ap (λ t. t.conn) is) ∙ c))
        | inr apart ↦ rw apart (ground arith)
      ])

any_leaves-elsewhere :
    (srv : Server) (name : Text) (q : ℕ) (conn other : ℕ) (joined : Table ℕ)
    → other ≢ conn
    → Joined srv conn joined
    → Placed srv.store q name other
    → any_leaves srv name q joined ≡ false
any_leaves-elsewhere srv name q conn other [] ne h placed = refl
any_leaves-elsewhere srv name q conn other ((nsp, p) ∷ rest) ne h placed =
    rw (leaves-elsewhere srv name q p nsp conn other ne h.0.0 placed)
      (any_leaves-elsewhere srv name q conn other rest ne h.1 placed)

module _ (st : State) (sound : SoundServer st.server)
    (joined : Joined st.server st.hub.conn st.hub.joined) where
  closed_store : (handle_close st).server.store ≡ st.server.store
  unfolding handle_close
  closed_store = (detach_all-kept st.hub.joined st.server sound.1).0

  pub handle_close-SoundServer : SoundServer (handle_close st).server
  unfolding handle_close
  handle_close-SoundServer = (members, (detach_all-kept st.hub.joined st.server sound.1).1)
    where
      members :
          (name : Text) (r : ℕ)
          → is_in (handle_close st).server name r ≡ true
          → (conn : ℕ) × Placed (handle_close st).server.store r name conn
      members name r h =
          let before : is_in st.server name r ≡ true =
            ground (arith, (handle_close-is_in st name r).0, h) in
          let (conn, p) = sound.0 name r before in
          (conn, subst (λ store. Placed store r name conn) (sym closed_store) p)

  pub handle_close-Joined :
      (other : ℕ) (theirs : Table ℕ)
      → other ≢ st.hub.conn
      → Joined st.server other theirs
      → Joined (handle_close st).server other theirs
  handle_close-Joined other [] ne h = tt
  handle_close-Joined other ((nsp, r) ∷ rest) ne ((placed, member), more) =
      let stays =
        any_leaves-elsewhere st.server nsp r st.hub.conn other st.hub.joined ne joined placed in
      (
        (
          subst (λ store. Placed store r nsp other) (sym closed_store) placed,
          (handle_close-is_in st nsp r).0 ∙ rw stays member,
        ),
        handle_close-Joined other rest ne more,
      )
