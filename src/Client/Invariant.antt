-- ===== src/Client/Invariant.antt =====
-- The invariant of a client of client/client.go, and parts of its code that leave it behind.
pub mod Calls
pub mod Messages
pub mod Always
use bit_socket_go.Base.{
  ℕ, zero, suc, ◌+◌, ◌%◌, ◌^◌, ◌≤◌, ◌<◌, ◌≡◌, refl, sym, ap, ◌∙◌, arith, Bool, true, false,
  Bool-cases, Option-cases, inl, inr, ltb, ◌==◌, ◌=?◌, =?_iff, =?_refl, if◌then◌else◌, Text, Bytes,
  List, [], ◌∷◌, ◌++◌, text, Option, none, some, Table, lookup, insert, lookup-insert, Outcome, ok,
  stop, error, panic, exhausted, ◌>>=◌,
}
use bit_socket_go.Client.{Client, Channel, Action, callback_at, forget_callback}
use bit_socket_go.Client.Emit.{take_number}

-- A part of a client's code that ends leaves a client with `P`.
abbrev pub Leaves : (Client → Type 0) → Outcome (Client × List Action) → Type 0
Leaves P (ok (c, out)) = P c
Leaves P (stop s) = Unit {0}

pub Leaves-eq :
    (P : Client → Type 0) (r : Outcome (Client × List Action)) (c : Client) (out : List Action)
    → Leaves P r
    → r ≡ ok (c, out)
    → P c
Leaves-eq P r c out h e = rw e at h

pub Leaves->>= :
    {A : Type 0} (P : Client → Type 0) (first : Outcome A)
    (next : A → Outcome (Client × List Action))
    → ((a : A) → Leaves P (next a))
    → Leaves P (first >>= next)
Leaves->>= P (ok a) next h = h a
Leaves->>= P (stop s) next h = tt

-- The attempts stay within their maximum, and without a connection the ticker and the timer rest.
abbrev pub Linked : Client → Type 0
Linked c =
    (c.reconnect_attempts ≤ c.max_attempts)
    × (c.pinging ≡ true → c.connected ≡ true)
    × (c.pong_armed ≡ true → c.connected ≡ true)

-- Each namespace stands under its own name, and the root namespace is there.
abbrev pub Named : Client → Type 0
Named c =
    ((nsp : Text) (ns : Channel) → lookup nsp c.namespaces ≡ some ns → ns.nsp ≡ nsp)
    × ((ns : Channel) × (lookup c.nsp c.namespaces ≡ some ns))

abbrev pub DistinctNumbers : List (ℕ × ℕ) → Type 0
DistinctNumbers [] = Unit {0}
DistinctNumbers ((n, k) ∷ rest) = (callback_at n rest ≡ none) × DistinctNumbers rest

-- The next acknowledgement number is a uint32, and no number waits for two callbacks.
abbrev pub Numbered : Client → Type 0
Numbered c = (c.ack_counter < 2 ^ 32) × DistinctNumbers c.callbacks

abbrev pub WellFormed : Client → Type 0
WellFormed c = Linked c × Named c × Numbered c
