-- ===== src/Server/Chain.antt =====
-- The middleware chains of server/namespace.go (runMiddlewares) and server/socket.go (processEvent):
-- `run(idx)` over a snapshot of the middlewares.
pub mod Invariant
pub mod Total
use bit_socket_go.Base.{
  ℕ, ◌≡◌, refl, sym, ap, ◌∙◌, arith, Text, List, [], ◌∷◌, ◌++◌, map, append_assoc, append-nil,
  Outcome, ok, stop, ◌>>=◌,
}
use bit_socket_go.Server.Types.{Call, passes, fails, returns, Step, Middleware, Effect}

abbrev pub Effects : Type 0
Effects = List Effect

abbrev pub run_call :
    {S E : Type 0}
    → (S → Outcome (S × List E))
    → (Text → S → Outcome (S × List E))
    → Call
    → S
    → Outcome (S × List E)
run_call next reject passes s = next s
run_call next reject (fails message) s = reject message s
run_call next reject returns s = ok (s, [])

-- One middleware: a call of `next` without an error runs the rest of the chain, one with an error runs
-- `reject`. `tell` says how its own effects are noted.
unfoldable pub run_steps :
    {S F E : Type 0}
    → (List F → List E)
    → (S → Outcome (S × List E))
    → (Text → S → Outcome (S × List E))
    → List (Step S F)
    → S
    → Outcome (S × List E)
run_steps tell next reject [] s = ok (s, [])
run_steps tell next reject (step ∷ steps) s = do
  (s₁, out₁) ← run_call next reject step.call (step.change s)
  (s₂, out₂) ← run_steps tell next reject steps s₁
  ok (s₂, tell step.performs ++ (out₁ ++ out₂))

-- `finish` runs at the end of the chain.
unfoldable pub run_chain :
    {S F E : Type 0}
    → (List F → List E)
    → (S → Outcome (S × List E))
    → (Text → S → Outcome (S × List E))
    → List (Middleware S F)
    → S
    → Outcome (S × List E)
run_chain tell finish reject [] s = finish s
run_chain tell finish reject (m ∷ ms) s =
    run_steps tell (run_chain tell finish reject ms) reject (m s) s

-- A middleware that calls `next` at most once, and does nothing after it.
abbrev pub once : {S F : Type 0} → (S → Step S F) → Middleware S F
once verdict s = verdict s ∷ []

-- The first rejection and the state at it, or the state that a middleware returned with without calling
-- `next`, or the state that has passed them all.
pub data Verdict (S : Type 0) : Type 0 where
  passed : S → Verdict S
  rejected : Text → S → Verdict S
  dropped : S → Verdict S

abbrev judge_call : {S : Type 0} → (S → Verdict S) → Call → S → Verdict S
judge_call rest passes s = rest s
judge_call rest (fails message) s = rejected message s
judge_call rest returns s = dropped s

unfoldable pub judge : {S F : Type 0} → List (S → Step S F) → S → Verdict S
judge [] s = passed s
judge (v ∷ vs) s = judge_call (judge vs) (v s).call ((v s).change s)

-- The effects of the middlewares up to the one that does not let pass, that one included.
abbrev effects_call : {S F : Type 0} → (S → List F) → Call → S → List F
effects_call rest passes s = rest s
effects_call rest (fails message) s = []
effects_call rest returns s = []

unfoldable pub effects_of : {S F : Type 0} → List (S → Step S F) → S → List F
effects_of [] s = []
effects_of (v ∷ vs) s = (v s).performs ++ effects_call (effects_of vs) (v s).call ((v s).change s)

abbrev pub conclude :
    {S E : Type 0}
    → (S → Outcome (S × List E))
    → (Text → S → Outcome (S × List E))
    → Verdict S
    → Outcome (S × List E)
conclude finish reject (passed s) = finish s
conclude finish reject (rejected message s) = reject message s
conclude finish reject (dropped s) = ok (s, [])

-- `out` has happened before.
abbrev pub after : {S E : Type 0} → List E → Outcome (S × List E) → Outcome (S × List E)
after before r = r >>= λ (s, out). ok (s, before ++ out)

after-nil : {S E : Type 0} (r : Outcome (S × List E)) → r ≡ after [] r
after-nil (ok (s, out)) = refl
after-nil (stop t) = refl

after-append :
    {S E : Type 0} (xs ys : List E) (r : Outcome (S × List E))
    → after xs (after ys r) ≡ after (xs ++ ys) r
after-append xs ys (ok (s, out)) = ap (λ zs. ok (s, zs)) (sym (append_assoc xs ys out))
after-append xs ys (stop t) = refl

last_step :
    {S E : Type 0} (before : List E) (r : Outcome (S × List E))
    → (r >>= λ (s, out). ok (s, before ++ (out ++ []))) ≡ after before r
last_step before (ok (s, out)) = ap (λ zs. ok (s, before ++ zs)) (append-nil out)
last_step before (stop t) = refl

module _ {S E : Type 0} (finish : S → Outcome (S × List E))
    (reject : Text → S → Outcome (S × List E)) where
  call-judge :
      (next : S → Outcome (S × List E)) (rest : S → Verdict S) (told : S → List E) (call : Call)
      (s : S)
      → ((s : S) → next s ≡ after (told s) (conclude finish reject (rest s)))
      → run_call next reject call s
        ≡ after (effects_call told call s) (conclude finish reject (judge_call rest call s))
  call-judge next rest told passes s h = h s
  call-judge next rest told (fails message) s h = after-nil (reject message s)
  call-judge next rest told returns s h = refl

  -- With middlewares that call `next` at most once, the chain stops at the first that does not let pass,
  -- or else runs to its end, with the changes and the effects that were made up to there.
  pub run_chain-judge :
      (vs : List (S → Step S E)) (s : S)
      → run_chain (λ es. es) finish reject (map once vs) s
        ≡ after (effects_of vs s) (conclude finish reject (judge vs s))
  unfolding run_chain run_steps judge effects_of
  run_chain-judge [] s = after-nil (finish s)
  run_chain-judge (v ∷ vs) s =
      let next = run_chain (λ es. es) finish reject (map once vs) in
      let t = (v s).change s in
      last_step (v s).performs (run_call next reject (v s).call t)
      ∙ ap (after (v s).performs)
          (call-judge next (judge vs) (effects_of vs) (v s).call t (run_chain-judge vs))
      ∙ after-append (v s).performs (effects_call (effects_of vs) (v s).call t)
          (conclude finish reject (judge_call (judge vs) (v s).call t))
