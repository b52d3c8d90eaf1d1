-- ===== src/Protocol/Schema/Typed/Bounds.antt =====
-- The bounds of what the reads of protocol/schema.go give, on any bytes.
use bit_socket_go.Base.{
  ℕ, zero, suc, ◌+◌, ◌≤◌, ◌<◌, ◌^◌, ◌≡◌, ap, ◌∙◌, arith, Bytes, [], ◌∷◌, ◌++◌, length, leb,
  Bool-cases, Option-cases, inl, inr, All-drop, take, drop, get_elem?, Outcome, ok, >>=-eq-ok, some,
}
use bit_socket_go.Protocol.Words.{AreBytes, Slice, index, tail_from, sub_slice}
use bit_socket_go.Protocol.Words
use bit_socket_go.Protocol.Schema.Decode.{read_uint32, read_prefixed}

pub fst_of :
    {A : Type 0} {a b : A} {m n : ℕ} → ◌≡◌ {A = Outcome (A × ℕ)} (ok (a, m)) (ok (b, n)) → a ≡ b
fst_of e = cc

pub word : {A : Type 0} {a b : A} → ◌≡◌ {A = Outcome A} (ok a) (ok b) → a ≡ b
word e = cc

pub tail_from-AreBytes :
    (s t : Slice) (off : ℕ) → AreBytes s.items → tail_from s off ≡ ok t → AreBytes t.items
unfolding tail_from
tail_from-AreBytes s t off hb e = elim (Bool-cases (leb off (length s.items))) [
  | inl inside ↦ rw (← word (rw inside at e)) (All-drop _ off s.items hb)
  | inr outside ↦ absurd (cc (rw outside at e))
]

pub uint16-lt : (bs : Bytes) (n : ℕ) → AreBytes bs → Words.uint16 bs ≡ ok n → n < 2 ^ 16
unfolding Words.uint16
uint16-lt [] n h e = absurd (cc)
uint16-lt (a ∷ []) n h e = absurd (cc)
uint16-lt (a ∷ b ∷ bs) n h e = omega (arith, word e)

uint32-lt : (bs : Bytes) (n : ℕ) → AreBytes bs → Words.uint32 bs ≡ ok n → n < 2 ^ 32
unfolding Words.uint32
uint32-lt [] n h e = absurd (cc)
uint32-lt (a ∷ []) n h e = absurd (cc)
uint32-lt (a ∷ b ∷ []) n h e = absurd (cc)
uint32-lt (a ∷ b ∷ c ∷ []) n h e = absurd (cc)
uint32-lt (a ∷ b ∷ c ∷ d ∷ bs) n h e = omega (arith, word e)

pub uint64-lt : (bs : Bytes) (n : ℕ) → AreBytes bs → Words.uint64 bs ≡ ok n → n < 2 ^ 64
unfolding Words.uint64
uint64-lt [] n h e = absurd (cc)
uint64-lt (a ∷ []) n h e = absurd (cc)
uint64-lt (a ∷ b ∷ []) n h e = absurd (cc)
uint64-lt (a ∷ b ∷ c ∷ []) n h e = absurd (cc)
uint64-lt (a ∷ b ∷ c ∷ d ∷ []) n h e = absurd (cc)
uint64-lt (a ∷ b ∷ c ∷ d ∷ i ∷ []) n h e = absurd (cc)
uint64-lt (a ∷ b ∷ c ∷ d ∷ i ∷ f ∷ []) n h e = absurd (cc)
uint64-lt (a ∷ b ∷ c ∷ d ∷ i ∷ f ∷ g ∷ []) n h e = absurd (cc)
uint64-lt (a ∷ b ∷ c ∷ d ∷ i ∷ f ∷ g ∷ j ∷ bs) n h e = omega (arith, word e)

pub read_uint32-lt :
    (s : Slice) (off n : ℕ) → AreBytes s.items → read_uint32 s off ≡ ok n → n < 2 ^ 32
unfolding read_uint32
read_uint32-lt s off n hb e =
    let (t, e₁, k₁) = >>=-eq-ok (tail_from s off) _ e in
    uint32-lt t.items n (tail_from-AreBytes s t off hb e₁) k₁

get_elem?-lt : (i b : ℕ) (bs : Bytes) → AreBytes bs → get_elem? bs i ≡ some b → b < 2 ^ 8
get_elem?-lt i b [] h e = absurd (cc)
get_elem?-lt zero b (x ∷ bs) h e = omega (arith, some_eq e)
  where
    some_eq : {x y : ℕ} → some x ≡ some y → x ≡ y
    some_eq q = cc
get_elem?-lt (suc i) b (x ∷ bs) h e = get_elem?-lt i b bs h.1 e

pub index-lt : (s : Slice) (off b : ℕ) → AreBytes s.items → index s off ≡ ok b → b < 2 ^ 8
unfolding index
index-lt s off b hb e = elim (Option-cases (get_elem? s.items off)) [
  | inl missing ↦ absurd (cc (rw missing at e))
  | inr (x, there) ↦ get_elem?-lt off b s.items hb (there ∙ ap some (word (rw there at e)))
]

length-take_bound : (n : ℕ) (bs : Bytes) → length (take n bs) ≤ n
length-take_bound zero bs = omega arith
length-take_bound (suc n) [] = omega arith
length-take_bound (suc n) (x ∷ bs) = omega (arith, length-take_bound n bs)

pub read_prefixed-lt :
    (s : Slice) (off off' : ℕ) (bs : Bytes)
    → AreBytes s.items
    → read_prefixed s off ≡ ok (bs, off')
    → length bs < 2 ^ 32
unfolding read_prefixed sub_slice
read_prefixed-lt s off off' bs hb e =
    let (n, e₁, k₁) = >>=-eq-ok (read_uint32 s off) _ e in
    let (part, e₂, k₂) = >>=-eq-ok (sub_slice s (off + 4) n) _ k₁ in
    let small = read_uint32-lt s off n hb e₁ in
    elim (Bool-cases (leb (off + 4 + n) (length s.items + length s.spare))) [
      | inl inside ↦ omega (
        arith,
        length-take_bound n (drop (off + 4) (s.items ++ s.spare)),
        ap length (word (rw inside at e₂)),
        ap length (fst_of k₂),
      )
      | inr outside ↦ absurd (cc (rw outside at e₂))
    ]
