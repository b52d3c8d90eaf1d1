-- ===== src/Server/Chain/Total.antt =====
-- Termination of the middleware chains of server/namespace.go and server/socket.go: `run(idx)`.
use bit_socket_go.Base.{
  ◌≡◌, refl, ap, ◌∙◌, Text, List, [], ◌∷◌, ◌++◌, All, All-append, Outcome, ok, ◌>>=◌,
}
use bit_socket_go.Server.Types.{Call, passes, fails, returns, Step, Middleware}
use bit_socket_go.Server.Chain.{run_call, run_steps, run_chain}

module _ {S E : Type 0} (Q : E → Type 0) where
  -- It ends, with effects that satisfy `Q`.
  abbrev pub Ends : Outcome (S × List E) → Type 0
  Ends r = (s : S) × (out : List E) × (r ≡ ok (s, out)) × All Q out

  module _ {F : Type 0} (tell : List F → List E) (tells : (fs : List F) → All Q (tell fs))
      (reject : Text → S → Outcome (S × List E))
      (rejects : (message : Text) (s : S) → Ends (reject message s)) where
    call-Ends :
        (next : S → Outcome (S × List E)) (call : Call) (s : S)
        → Ends (next s)
        → Ends (run_call next reject call s)
    call-Ends next passes s h = h
    call-Ends next (fails message) s h = rejects message s
    call-Ends next returns s h = (s, [], refl, tt)

    run_steps-Ends :
        (next : S → Outcome (S × List E)) (steps : List (Step S F)) (s : S)
        → ((s : S) → Ends (next s))
        → Ends (run_steps tell next reject steps s)
    unfolding run_steps
    run_steps-Ends next [] s h = (s, [], refl, tt)
    run_steps-Ends next (step ∷ steps) s h =
        let (s₁, out₁, e₁, q₁) = call-Ends next step.call (step.change s) (h (step.change s)) in
        let (s₂, out₂, e₂, q₂) = run_steps-Ends next steps s₁ h in
        (
          s₂,
          tell step.performs ++ (out₁ ++ out₂),
          ap
                (λ r. r >>= λ (s₁, out₁). run_steps tell next reject steps s₁ >>= λ (s₂, out₂).
                  ok (s₂, tell step.performs ++ (out₁ ++ out₂)))
                e₁
              ∙ ap (λ r. r >>= λ (s₂, out₂). ok (s₂, tell step.performs ++ (out₁ ++ out₂))) e₂,
          All-append Q (tell step.performs) (out₁ ++ out₂) (tells step.performs)
              (All-append Q out₁ out₂ q₁ q₂),
        )

    pub run_chain-Ends :
        (finish : S → Outcome (S × List E)) (ms : List (Middleware S F)) (s : S)
        → ((s : S) → Ends (finish s))
        → Ends (run_chain tell finish reject ms s)
    unfolding run_chain
    run_chain-Ends finish [] s h = h s
    run_chain-Ends finish (m ∷ ms) s h =
        run_steps-Ends (run_chain tell finish reject ms) (m s) s (λ s. run_chain-Ends finish ms s h)
