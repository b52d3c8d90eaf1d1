-- ===== src/Protocol/Schema/RoundTrip/Reads.antt =====
-- How the reads of protocol/schema.go compose: each takes its own bytes off what the slice still holds.
use native.Mathlib.Nat.{add-zero}
use bit_socket_go.Base.{
  ℕ, ◌+◌, ◌≡◌, refl, sym, ap, ◌∙◌, arith, Bytes, [], ◌++◌, append_assoc, length, length-append,
  drop, drop-add, Outcome, Stop, ok, stop, ◌>>=◌, >>=-eq-ok,
}
use bit_socket_go.Protocol.Words.{Slice}

-- Where the reference writes `bs`, `read` gives `back` from a slice that holds `bs` at the offset, whatever
-- follows there and in the slice's spare room, and moves the offset past `bs`.
abbrev pub Reads : {A : Type 0} → (Slice → ℕ → Outcome (A × ℕ)) → Outcome A → Outcome Bytes → Type 0
Reads read back r =
    (bs : Bytes)
    → r ≡ ok bs
    → (s : Slice) (off : ℕ) (post : Bytes) → drop off s.items ≡ bs ++ post
    → read s off ≡ (back >>= λ a. ok (a, off + length bs))

pub ok-injective : {a b : Bytes} → ◌≡◌ {A = Outcome Bytes} (ok a) (ok b) → a ≡ b
ok-injective e = cc

chain :
    {A B : Type 0} (back : Outcome A) (next : A → Outcome B) (read : A → ℕ → Outcome (B × ℕ))
    (m n : ℕ)
    → ((a : A) → read a m ≡ (next a >>= λ b. ok (b, n)))
    → (back >>= (λ a. ok (a, m)) >>= λ (a, off). read a off) ≡ (back >>= next >>= λ b. ok (b, n))
chain (ok a) next read m n h = h a
chain (stop s) next read m n h = refl

-- The offset behind two parts.
offset_two : (off : ℕ) (b₁ b₂ : Bytes) → off + length b₁ + length b₂ ≡ off + length (b₁ ++ b₂)
offset_two off b₁ b₂ = omega (arith, length-append b₁ b₂)

module _ {A B : Type 0} (r₁ r₂ : Outcome Bytes) (read₁ : Slice → ℕ → Outcome (A × ℕ))
    (read₂ : A → Slice → ℕ → Outcome (B × ℕ)) (back₁ : Outcome A) (back₂ : A → Outcome B)
    (h₁ : Reads read₁ back₁ r₁) (h₂ : (a : A) → Reads (read₂ a) (back₂ a) r₂) where
  two-Reads :
      (b₁ b₂ : Bytes)
      → r₁ ≡ ok b₁
      → r₂ ≡ ok b₂
      → (s : Slice) (off : ℕ) (post : Bytes) → drop off s.items ≡ (b₁ ++ b₂) ++ post
      → (read₁ s off >>= λ (a, off'). read₂ a s off')
        ≡ (back₁ >>= back₂ >>= λ b. ok (b, off + length (b₁ ++ b₂)))
  two-Reads b₁ b₂ e₁ e₂ s off post held =
      rw (h₁ b₁ e₁ s off (b₂ ++ post) (held ∙ append_assoc b₁ b₂ post)) (
        chain back₁ back₂ (λ a o. read₂ a s o) (off + length b₁) (off + length (b₁ ++ b₂))
          λ a. rw (← offset_two off b₁ b₂) (
            h₂ a b₂ e₂ s (off + length b₁) post
              (drop-add off s.items b₁ (b₂ ++ post) (held ∙ append_assoc b₁ b₂ post))))

  -- Two reads in a row.
  pub Reads-seq :
      Reads
        (λ s off. read₁ s off >>= λ (a, off'). read₂ a s off')
        (back₁ >>= back₂)
        (r₁ >>= λ b. r₂ >>= λ bs. ok (b ++ bs))
  Reads-seq bs e s off post held =
      let (b₁, e₁, k₁) = >>=-eq-ok r₁ _ e in
      let (b₂, e₂, k₂) = >>=-eq-ok r₂ _ k₁ in
      let whole = ok-injective k₂ in
      rw (← whole) (two-Reads b₁ b₂ e₁ e₂ s off post (held ∙ ap (λ x. x ++ post) (sym whole)))

chain-map :
    {A B : Type 0} (back : Outcome A) (g : A → B) (n : ℕ)
    → ◌>>=◌ {B = B × ℕ} (back >>= (λ a. ok (a, n))) (λ (a, off). ok (g a, off))
      ≡ (back >>= (λ a. ok (g a)) >>= λ b. ok (b, n))
chain-map (ok a) g n = refl
chain-map (stop s) g n = refl

-- A read whose value is wrapped.
pub Reads-map :
    {A B : Type 0} (g : A → B) (r : Outcome Bytes) (read : Slice → ℕ → Outcome (A × ℕ))
    (back : Outcome A)
    → Reads read back r
    → Reads (λ s off. read s off >>= λ (a, o). ok (g a, o)) (back >>= λ a. ok (g a)) r
Reads-map g r read back h bs e s off post held =
    rw (h bs e s off post held) (chain-map back g (off + length bs))

-- Reads of nothing.
pub Reads-nothing : {A : Type 0} (a : A) → Reads (λ s off. ok (a, off)) (ok a) (ok [])
Reads-nothing a bs e s off post held = rw (← ok-injective e) (rw add-zero)

-- To read `bs`, it is enough to read the bytes that the reference is known to write.
pub Reads-known :
    {A : Type 0} (read : Slice → ℕ → Outcome (A × ℕ)) (back : Outcome A) (bs : Bytes)
    → ((s : Slice) (off : ℕ) (post : Bytes)
        → drop off s.items ≡ bs ++ post
        → read s off ≡ (back >>= λ a. ok (a, off + length bs)))
    → Reads read back (ok bs)
Reads-known read back bs h bs' e s off post held =
    let same = ok-injective e in rw (← same) (h s off post (held ∙ ap (λ x. x ++ post) (sym same)))

-- Where the reference writes nothing there is nothing to read.
pub Reads-stop :
    {A : Type 0} (read : Slice → ℕ → Outcome (A × ℕ)) (back : Outcome A) (t : Stop)
    → Reads read back (stop t)
Reads-stop read back t bs e s off post held = cc
