-- ===== src/Server/Hub/Again.antt =====
-- A second CONNECT for a namespace that the connection has already joined: handleNamespaceConnect and
-- handleClose of server/hub.go.
use bit_socket_go.Base.{
  ℕ, ◌≡◌, ◌≢◌, refl, sym, ap, ◌∙◌, arith, true, false, Bool-cases, Option-cases, inl, inr, Text, [],
  ◌∷◌, none, some, All, Table, DistinctKeys, lookup, insert, ◌=?◌, =?_iff, =?_refl, Outcome, ok,
  >>=-eq-ok,
}
use bit_socket_go.Protocol.Types.{Value, Externals}
use bit_socket_go.Server.Types.{Namespace, Server}
use bit_socket_go.Server.Chain.{Effects}
use bit_socket_go.Server.Namespace.{is_member, add_socket}
use bit_socket_go.Server.Core.{namespace_of, put_namespace}
use bit_socket_go.Server.Hub.{State, socket_at, handle_close, admit, change_socket, send_to}
use bit_socket_go.Server.Hub.Close.{
  is_in, leaves, any_leaves, handle_close-is_in, is_in-put_namespace, is_in-there, is_in-missing,
}

-- The hub holds the socket `old` for that namespace, if at all.
abbrev pub HeldAt : Text → ℕ → Table ℕ → Type 0
HeldAt nsp old joined = All (λ e. e.1 ≡ old → e.0 ≡ nsp) joined

abbrev Without : ℕ → Table ℕ → Type 0
Without old joined = All (λ e. e.1 ≢ old) joined

false-ne-true : false ≢ true
false-ne-true e = cc

missing-Without :
    (nsp : Text) (old : ℕ) (joined : Table ℕ)
    → HeldAt nsp old joined
    → lookup nsp joined ≡ none
    → Without old joined
unfolding lookup
missing-Without nsp old [] held h = tt
missing-Without nsp old ((k, p) ∷ rest) held h = elim (Bool-cases (k =? nsp)) [
  | inl same ↦ absurd (cc (rw same at h))
  | inr other ↦ (
    λ e. absurd (false-ne-true (sym other ∙ (=?_iff k nsp).1 (held.0 e))),
    missing-Without nsp old rest held.1 (rw other at h),
  )
]

insert-Without :
    (nsp : Text) (r old : ℕ) (joined : Table ℕ)
    → r ≢ old
    → HeldAt nsp old joined
    → DistinctKeys joined
    → Without old (insert nsp r joined)
unfolding insert
insert-Without nsp r old [] ne held keys = (ne, tt)
insert-Without nsp r old ((k, p) ∷ rest) ne held keys = elim (Bool-cases (k =? nsp)) [
  | inl same ↦
      rw same (ne, missing-Without nsp old rest held.1 (rw ((=?_iff k nsp).0 same) at keys.0))
  | inr other ↦ rw other (
    λ e. absurd (false-ne-true (sym other ∙ (=?_iff k nsp).1 (held.0 e))),
    insert-Without nsp r old rest ne held.1 keys.1,
  )
]

leaves-other : (srv : Server) (name : Text) (q p : ℕ) → p ≢ q → leaves srv name q p ≡ false
leaves-other srv name q p ne = elim (Option-cases (socket_at p srv)) [
  | inl gone ↦ rw (leaves, gone) refl
  | inr (s, here) ↦ rw (leaves, here) (ground arith)
]

any_leaves-Without :
    (srv : Server) (name : Text) (q : ℕ) (joined : Table ℕ)
    → Without q joined
    → any_leaves srv name q joined ≡ false
any_leaves-Without srv name q [] h = refl
any_leaves-Without srv name q ((k, p) ∷ rest) h =
    rw (any_leaves, leaves-other srv name q p h.0) (any_leaves-Without srv name q rest h.1)

is_member-add_socket :
    (q r : ℕ) (ns : Namespace)
    → is_member q ns.members ≡ true
    → is_member q (add_socket r ns).members ≡ true
unfolding add_socket is_member
is_member-add_socket q r ns h = elim (Bool-cases (is_member r ns.members)) [
  | inl there ↦ rw there h
  | inr new ↦ rw new (ground (arith, h))
]

is_in-namespace_of :
    (srv : Server) (name : Text) (q : ℕ)
    → is_in srv name q ≡ true
    → is_member q (namespace_of srv name).members ≡ true
unfolding is_in namespace_of
is_in-namespace_of srv name q h = elim (Option-cases (lookup name srv.namespaces)) [
  | inl missing ↦ absurd (cc (sym (is_in-missing srv name q missing) ∙ h))
  | inr (ns, found) ↦ rw (namespace_of, found) (sym (is_in-there srv name ns q found) ∙ h)
]

state_eq :
    {st st' : State} {out out' : Effects}
    → ◌≡◌ {A = Outcome (State × Effects)} (ok (st, out)) (ok (st', out'))
    → st ≡ st'
state_eq e = cc

abbrev joining : ℕ → Text → State → Server
joining r nsp st = put_namespace st.server nsp (add_socket r (namespace_of st.server nsp))

admit_lem :
    (ext : Externals) (r : ℕ) (nsp : Text) (export : State → Value) (st st' : State) (out : Effects)
    → admit ext r nsp export st ≡ ok (st', out)
    → (st'.hub.joined ≡ insert nsp r st.hub.joined)
      × (st'.server.namespaces ≡ (joining r nsp st).namespaces)
unfolding admit change_socket
admit_lem ext r nsp export st st' out e =
    let joined : State = record {
      server = joining r nsp st;
      hub = record (st.hub) { joined = insert nsp r st.hub.joined };
    } in
    let (o, e₁, k₁) = >>=-eq-ok (send_to r joined _) _ e in
    let same = state_eq k₁ in
    (sym (ap (λ s. s.hub.joined) same), sym (ap (λ s. s.server.namespaces) same))

is_in-joining :
    (r old : ℕ) (nsp : Text) (st : State)
    → is_in st.server nsp old ≡ true
    → is_in (joining r nsp st) nsp old ≡ true
is_in-joining r old nsp st inside =
    is_in-put_namespace st.server nsp nsp (add_socket r (namespace_of st.server nsp)) old
    ∙ rw (=?_refl) (
        is_member-add_socket old r (namespace_of st.server nsp)
          (is_in-namespace_of st.server nsp old inside))

is_in-namespaces :
    (srv srv' : Server) (name : Text) (q : ℕ)
    → srv.namespaces ≡ srv'.namespaces
    → is_in srv name q ≡ is_in srv' name q
unfolding is_in
is_in-namespaces srv srv' name q e =
    ap (λ m. elim (lookup name m) [ none ↦ false | some ns ↦ is_member q ns.members ]) e

-- If a connection joins a namespace once more, the hub forgets the socket from before, and its closing
-- leaves that socket among the namespace's members.
pub admit-is_in :
    (ext : Externals) (r old : ℕ) (nsp : Text) (export : State → Value) (st st' : State)
    (out : Effects)
    → r ≢ old
    → DistinctKeys st.hub.joined
    → HeldAt nsp old st.hub.joined
    → is_in st.server nsp old ≡ true
    → admit ext r nsp export st ≡ ok (st', out)
    → is_in (handle_close st').server nsp old ≡ true
admit-is_in ext r old nsp export st st' out ne keys held inside e =
    let (joins, same) = admit_lem ext r nsp export st st' out e in
    let rest : Without old st'.hub.joined =
      rw joins (insert-Without nsp r old st.hub.joined ne held keys) in
    (handle_close-is_in st' nsp old).0
    ∙ rw (any_leaves-Without st'.server nsp old st'.hub.joined rest) (
        is_in-namespaces st'.server (joining r nsp st) nsp old same
        ∙ is_in-joining r old nsp st inside)
