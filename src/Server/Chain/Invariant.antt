-- ===== src/Server/Chain/Invariant.antt =====
-- What the middleware chains of server/namespace.go and server/socket.go keep, whatever the
-- middlewares do: they may call `next` never, once or many times.
use bit_socket_go.Base.{
  ◌≡◌, ◌≢◌, refl, Text, List, [], ◌∷◌, ◌++◌, All, All-append, All-every, Outcome, ok, >>=-eq-ok,
}
use bit_socket_go.Server.Types.{Call, passes, fails, returns, Step, Middleware}
use bit_socket_go.Server.Chain.{run_call, run_steps, run_chain}

module _ {S F E : Type 0} (tell : List F → List E) (P : S → Type 0) (Q : E → Type 0) where
  -- A part of the chain that ends takes `P` to `P`, and its effects satisfy `Q`.
  abbrev pub Keeps : (S → Outcome (S × List E)) → Type 0
  Keeps f = (s s' : S) (out : List E) → P s → f s ≡ ok (s', out) → P s' × All Q out

  abbrev StepKeeps : Step S F → Type 0
  StepKeeps step = ((s : S) → P s → P (step.change s)) × All Q (tell step.performs)

  -- What a middleware does itself keeps `P`, with effects that satisfy `Q`.
  abbrev pub MiddlewareKeeps : Middleware S F → Type 0
  MiddlewareKeeps m = (s : S) → All StepKeeps (m s)

  result_eq :
      {s s' : S} {out out' : List E}
      → ◌≡◌ {A = Outcome (S × List E)} (ok (s, out)) (ok (s', out'))
      → (s ≡ s') × (out ≡ out')
  result_eq e = (cc, cc)

  module _ (reject : Text → S → Outcome (S × List E))
      (rejects : (message : Text) → Keeps (reject message)) where
    call-Keeps :
        (next : S → Outcome (S × List E)) (call : Call)
        → (call ≡ passes → Keeps next)
        → Keeps (run_call next reject call)
    call-Keeps next passes h = h refl
    call-Keeps next (fails message) h = rejects message
    call-Keeps next returns h =
        λ s s' out p e. let (same, empty) = result_eq e in rw (← same, ← empty) (p, tt)

    run_steps-Keeps :
        (next : S → Outcome (S × List E)) (steps : List (Step S F))
        → All StepKeeps steps
        → All (λ step. step.call ≡ passes → Keeps next) steps
        → Keeps (run_steps tell next reject steps)
    unfolding run_steps
    run_steps-Keeps next [] keep pass s s' out p e =
        let (same, empty) = result_eq e in rw (← same, ← empty) (p, tt)
    run_steps-Keeps next (step ∷ steps) keep pass s s' out p e =
        let ((s₁, out₁), e₁, k₁) = >>=-eq-ok (run_call next reject step.call (step.change s)) _ e in
        let ((s₂, out₂), e₂, k₂) = >>=-eq-ok (run_steps tell next reject steps s₁) _ k₁ in
        let (p₁, q₁) = call-Keeps next step.call pass.0 (step.change s) s₁ out₁ (keep.0.0 s p) e₁ in
        let (p₂, q₂) = run_steps-Keeps next steps keep.1 pass.1 s₁ s₂ out₂ p₁ e₂ in
        let (same, joined) = result_eq k₂ in
        rw (← same, ← joined)
          (
            p₂,
            All-append Q (tell step.performs) (out₁ ++ out₂) keep.0.1
                (All-append Q out₁ out₂ q₁ q₂),
          )

    -- A chain keeps what its parts keep.
    pub run_chain-Keeps :
        (finish : S → Outcome (S × List E)) (ms : List (Middleware S F))
        → Keeps finish
        → All MiddlewareKeeps ms
        → Keeps (run_chain tell finish reject ms)
    unfolding run_chain
    run_chain-Keeps finish [] h keep s = h s
    run_chain-Keeps finish (m ∷ ms) h keep s =
        let rest = run_chain-Keeps finish ms h keep.1 in
        run_steps-Keeps (run_chain tell finish reject ms) (m s) (keep.0 s)
          (All-every _ (m s) (λ step e. rest)) s

    -- A middleware that never lets anybody pass.
    abbrev pub Blocks : Middleware S F → Type 0
    Blocks m = (s : S) → All (λ step. step.call ≢ passes) (m s)

    barred :
        (next : S → Outcome (S × List E)) (steps : List (Step S F))
        → All (λ step. step.call ≢ passes) steps
        → All (λ step. step.call ≡ passes → Keeps next) steps
    barred next [] h = tt
    barred next (step ∷ steps) h = (λ e. absurd (h.0 e), barred next steps h.1)

    -- Behind such a middleware the end of the chain is out of reach, so nothing is asked of it.
    pub run_chain-Keeps_blocked :
        (finish : S → Outcome (S × List E)) (before : List (Middleware S F)) (m : Middleware S F)
        (after : List (Middleware S F))
        → Blocks m
        → MiddlewareKeeps m
        → All MiddlewareKeeps before
        → Keeps (run_chain tell finish reject (before ++ m ∷ after))
    unfolding run_chain
    run_chain-Keeps_blocked finish [] m after h own keep s =
        run_steps-Keeps (run_chain tell finish reject after) (m s) (own s) (barred _ (m s) (h s)) s
    run_chain-Keeps_blocked finish (x ∷ before) m after h own keep s =
        let rest = run_chain-Keeps_blocked finish before m after h own keep.1 in
        run_steps-Keeps (run_chain tell finish reject (before ++ m ∷ after)) (x s) (keep.0 s)
          (All-every _ (x s) (λ step e. rest)) s
