-- ===== src/Client/Invariant/Calls.antt =====
-- The invariant under the calls of a client's user: New and Of of client/client.go, its emits, and the
-- methods of client/namespace.go.
use mathlib.Core.Path.{subst}
use bit_socket_go.Base.{
  ℕ, ◌≡◌, refl, sym, ap, ◌∙◌, arith, Bool-cases, Option-cases, inl, inr, ◌==◌, ◌=?◌, =?_iff, Text,
  List, [], ◌∷◌, text, Option, none, some, lookup, insert, lookup-insert, lookup-here, lookup-there,
  lookup-nil,
}
use bit_socket_go.Protocol.Types.{Value, Externals}
use bit_socket_go.Protocol.Schema.{Schema}
use bit_socket_go.Protocol.Frame.{nsp_or_root}
use bit_socket_go.Server.Types.{EventPacket, Middleware}
use bit_socket_go.Client.{Client, Channel, forget_callback, send_made}
use bit_socket_go.Client.Emit.{take_number, do_emit}
use bit_socket_go.Client.Acks.{callback_at-forget_callback}
use bit_socket_go.Client.Connect.{Options, new_client, new_channel, of_client, send_connect}
use bit_socket_go.Client.Schemas.{ensure_schema_bucket, schema_key}
use bit_socket_go.Client.Namespace
use bit_socket_go.Client.Namespace.{change_channel, close_client}
use bit_socket_go.Client.Invariant.{Leaves, Leaves->>=, DistinctNumbers, Named, WellFormed}

Named-insert :
    (c : Client) (nsp : Text) (ns : Channel)
    → ns.nsp ≡ nsp
    → Named c
    → Named (record c { namespaces = insert nsp ns c.namespaces })
Named-insert c nsp ns same (names, (root, found)) = (inserted, rooted)
  where
    inserted :
        (key : Text) (x : Channel) → lookup key (insert nsp ns c.namespaces) ≡ some x → x.nsp ≡ key
    inserted key x e = elim (Bool-cases (nsp =? key)) [
      | inl is ↦
          let new : ns ≡ x = cc (rw (lookup-insert, is) at e) in
          ap (λ n. n.nsp) (sym new) ∙ same ∙ (=?_iff nsp key).0 is
      | inr other ↦ names key x (rw (lookup-insert, other) at e)
    ]

    rooted : (x : Channel) × (lookup c.nsp (insert nsp ns c.namespaces) ≡ some x)
    rooted = elim (Bool-cases (nsp =? c.nsp)) [
      | inl is ↦ (ns, lookup-insert nsp c.nsp ns c.namespaces ∙ rw is refl)
      | inr other ↦ (root, lookup-insert nsp c.nsp ns c.namespaces ∙ rw other found)
    ]

change_channel-WellFormed :
    (nsp : Text) (f : Channel → Channel) (c : Client)
    → ((ns : Channel) → (f ns).nsp ≡ ns.nsp)
    → WellFormed c
    → WellFormed (change_channel nsp f c)
unfolding change_channel
change_channel-WellFormed nsp f c keeps h = elim (Option-cases (lookup nsp c.namespaces)) [
  | inl missing ↦
      let same : change_channel nsp f c ≡ c = rw (change_channel, missing) refl in
      subst WellFormed (sym same) h
  | inr (ns, found) ↦
      let changed : Client = record c { namespaces = insert nsp (f ns) c.namespaces } in
      let is : change_channel nsp f c ≡ changed = rw (change_channel, found) refl in
      let named = Named-insert c nsp (f ns) (keeps ns ∙ h.1.0 nsp ns found) h.1 in
      subst WellFormed (sym is) (h.0, named, h.2)
]

pub on-WellFormed :
    (nsp event : Text) (c : Client) → WellFormed c → WellFormed (Namespace.on nsp event c)
unfolding Namespace.on
on-WellFormed nsp event c h = change_channel-WellFormed nsp _ c (λ ns. refl) h

pub use_middleware-WellFormed :
    (nsp : Text) (mw : Middleware EventPacket ⊥) (c : Client)
    → WellFormed c
    → WellFormed (Namespace.use_middleware nsp mw c)
unfolding Namespace.use_middleware
use_middleware-WellFormed nsp mw c h = change_channel-WellFormed nsp _ c (λ ns. refl) h

pub schema-WellFormed :
    (nsp : Text) (schemas : List Schema) (c : Client)
    → WellFormed c
    → WellFormed (Namespace.schema nsp schemas c)
unfolding Namespace.schema
schema-WellFormed nsp schemas c h = h

pub close_client-WellFormed : (c : Client) → WellFormed c → WellFormed (close_client c).0
unfolding close_client
close_client-WellFormed c h = h

pub close-WellFormed :
    (nsp : Text) (c : Client) → WellFormed c → WellFormed (Namespace.close nsp c).0
unfolding Namespace.close
close-WellFormed nsp c h =
    let clear : Channel → Channel = λ ns. record ns { listeners = [] } in
    let cleared = change_channel-WellFormed nsp clear c (λ ns. refl) h in
    elim (Bool-cases (nsp =? text "/")) [
      | inl root ↦
          rw (Namespace.close, root) (close_client-WellFormed (change_channel nsp clear c) cleared)
      | inr other ↦ rw (Namespace.close, other) cleared
    ]

pub DistinctNumbers-forget_callback :
    (n : ℕ) (cs : List (ℕ × ℕ)) → DistinctNumbers cs → DistinctNumbers (forget_callback n cs)
unfolding forget_callback
DistinctNumbers-forget_callback n [] h = tt
DistinctNumbers-forget_callback n ((m, k) ∷ rest) h = elim (Bool-cases (m == n)) [
  | inl same ↦ rw same (DistinctNumbers-forget_callback n rest h.1)
  | inr other ↦ rw other (
    callback_at-forget_callback n m rest ∙ ground (arith, h.0),
    DistinctNumbers-forget_callback n rest h.1,
  )
]

take_number-WellFormed :
    (cb : Option ℕ) (c : Client) → WellFormed c → WellFormed (take_number c cb).0
unfolding take_number
take_number-WellFormed none c h = h
take_number-WellFormed (some k) c (linked, named, (small, distinct)) = (
  linked,
  named,
  (
    omega arith,
    (
      callback_at-forget_callback c.ack_counter c.ack_counter c.callbacks ∙ ground arith,
      DistinctNumbers-forget_callback c.ack_counter c.callbacks distinct,
    ),
  ),
)

module _ (ext : Externals) where
  pub emit_ack-WellFormed :
      (nsp event : Text) (payload : Value) (cb : Option ℕ) (c : Client)
      → WellFormed c
      → Leaves WellFormed (Namespace.emit_ack ext nsp event payload cb c)
  unfolding Namespace.emit_ack do_emit
  emit_ack-WellFormed nsp event payload cb c h =
      Leaves->>= WellFormed (send_made (take_number c cb).0 _) _
        (λ out. take_number-WellFormed cb c h)

pub of_client-WellFormed :
    (nsp : Text) (c : Client) → WellFormed c → Leaves WellFormed (of_client c nsp)
unfolding of_client
of_client-WellFormed nsp c h = elim (Option-cases (lookup nsp c.namespaces)) [
  | inr (ns, found) ↦ rw (of_client, found) h
  | inl missing ↦
      let c' : Client = record c {
        store = ensure_schema_bucket (schema_key nsp) c.store;
        namespaces = insert nsp (new_channel nsp) c.namespaces;
      } in
      let made : WellFormed c' = (h.0, Named-insert c nsp (new_channel nsp) refl h.1, h.2) in
      elim (Bool-cases (nsp =? text "/")) [
        | inl root ↦ rw (of_client, missing, root) made
        | inr other ↦
            rw (of_client, missing, other)
              (Leaves->>= WellFormed (send_connect c' nsp) _ (λ out. made))
      ]
]

single :
    (root nsp : Text) (x ns : Channel)
    → x.nsp ≡ root
    → lookup nsp ((root, x) ∷ []) ≡ some ns
    → ns.nsp ≡ nsp
single root nsp x ns same e = elim (Bool-cases (root =? nsp)) [
  | inl is ↦
      let root_is = (=?_iff root nsp).0 is in
      let new : x ≡ ns = cc (e, lookup-here root x [], root_is) in
      ap (λ n. n.nsp) (sym new) ∙ same ∙ root_is
  | inr other ↦ absurd (cc (e, lookup-there root nsp x [] other, lookup-nil {A = Channel} nsp))
]

pub new_client-WellFormed : (ext : Externals) (opts : Options) → WellFormed (new_client ext opts)
unfolding new_client
new_client-WellFormed ext opts = (
  (omega arith, λ e. cc, λ e. cc),
  (
    λ nsp ns e. single (nsp_or_root opts.nsp) nsp (new_channel (nsp_or_root opts.nsp)) ns refl e,
    (
      new_channel (nsp_or_root opts.nsp),
      lookup-here (nsp_or_root opts.nsp) (new_channel (nsp_or_root opts.nsp)) [],
    ),
  ),
  (omega arith, tt),
)
