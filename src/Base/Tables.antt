-- ===== src/Base/Tables.antt =====
-- Go strings as their bytes, with equality, and the maps that they key. Shared by every module.
use Prim.Native.Char.{code}
use Prim.Native.Nat.{ℕ}
use Prim.Native.String.{String}
use mathlib.Core.Path.{◌≡◌, refl, ap}
use mathlib.Core.Logic.{◌↔◌, ◌≢◌}
use mathlib.Core.Bool.{Bool, true, false, ◌&&◌}
use mathlib.Core.List.{List, [], ◌∷◌, ◌++◌}
use mathlib.Core.Option.{Option, none, some}
use native.Mathlib.Omega.{arith}
use mathlib.Core.Logic.{inl, inr}
use bit_socket_go.Base.Tests.{Bool-cases, ◌==◌, if◌then◌else◌}

abbrev pub Bytes : Type 0
Bytes = List ℕ

-- A Go string is a sequence of bytes.
abbrev pub Text : Type 0
Text = List ℕ

-- The bytes of an ASCII literal.
abbrev pub text : String → Text
text String.[] = []
text (String.◌∷◌ c s) = code c ∷ text s

infix 50 ◌=?◌
unfoldable pub ◌=?◌ : Text → Text → Bool
[] =? [] = true
[] =? (y ∷ ys) = false
(x ∷ xs) =? [] = false
(x ∷ xs) =? (y ∷ ys) = x == y && xs =? ys

pub =?_iff : (a b : Text) → ((a =? b) ≡ true) ↔ (a ≡ b)
unfolding ◌=?◌
=?_iff [] [] = (λ _. refl, λ _. refl)
=?_iff [] (y ∷ ys) = (λ e. cc, λ e. cc)
=?_iff (x ∷ xs) [] = (λ e. cc, λ e. cc)
=?_iff (x ∷ xs) (y ∷ ys) = (λ e. ground (arith, =?_iff xs ys), λ e. ground (arith, =?_iff xs ys))

pub =?_refl : (a : Text) → (a =? a) ≡ true
=?_refl a = (=?_iff a a).1 refl

pub =?_comm : (a b : Text) → (a =? b) ≡ (b =? a)
=?_comm a b = ground (arith, =?_iff a b, =?_iff b a)

-- A Go map with string keys, as an association list.
abbrev pub Table {ℓ} : Type ℓ → Type ℓ
Table A = List (Text × A)

module _ {ℓ} {A : Type ℓ} where
  unfoldable pub lookup : Text → Table A → Option A
  lookup k [] = none
  lookup k ((j, a) ∷ m) = if j =? k then some a else lookup k m

  -- `m[k] = a`.
  unfoldable pub insert : Text → A → Table A → Table A
  insert k a [] = (k, a) ∷ []
  insert k a ((j, b) ∷ m) = if j =? k then (k, a) ∷ m else (j, b) ∷ insert k a m

  -- `delete(m, k)`.
  unfoldable pub remove : Text → Table A → Table A
  remove k [] = []
  remove k ((j, b) ∷ m) = let rest = remove k m in if j =? k then rest else (j, b) ∷ rest

  -- No key comes twice, as in every Go map.
  abbrev pub DistinctKeys : Table A → Type ℓ
  DistinctKeys [] = Unit {ℓ}
  DistinctKeys ((k, a) ∷ rest) = (lookup k rest ≡ none) × DistinctKeys rest

  pub lookup-insert :
      (k j : Text) (a : A) (m : Table A)
      → lookup j (insert k a m) ≡ (if k =? j then some a else lookup j m)
  unfolding lookup insert
  lookup-insert k j a [] = refl
  lookup-insert k j a ((i, b) ∷ m) =
      ground (arith, =?_iff k j, =?_iff i k, =?_iff i j, lookup-insert k j a m)

  pub lookup-insert_self : (k : Text) (a : A) (m : Table A) → lookup k (insert k a m) ≡ some a
  lookup-insert_self k a m = simp (lookup-insert, =?_refl)

  pub lookup-insert_ne :
      (k j : Text) (a : A) (m : Table A) → k ≢ j → lookup j (insert k a m) ≡ lookup j m
  lookup-insert_ne k j a m h = ground (arith, lookup-insert k j a m, =?_iff k j)

  pub lookup-remove :
      (k j : Text) (m : Table A) → lookup j (remove k m) ≡ (if k =? j then none else lookup j m)
  unfolding lookup remove
  lookup-remove k j [] = ground arith
  lookup-remove k j ((i, b) ∷ m) =
      ground (arith, =?_iff k j, =?_iff i k, =?_iff i j, lookup-remove k j m)

  pub lookup-nil : (k : Text) → lookup k [] ≡ none
  unfolding lookup
  lookup-nil k = refl

  pub lookup-here : (k : Text) (a : A) (m : Table A) → lookup k ((k, a) ∷ m) ≡ some a
  unfolding lookup
  lookup-here k a m = rw =?_refl refl

  pub lookup-there :
      (j k : Text) (a : A) (m : Table A) → (j =? k) ≡ false → lookup k ((j, a) ∷ m) ≡ lookup k m
  unfolding lookup
  lookup-there j k a m h = rw h refl

  -- A new key goes to the end.
  pub insert-eq-append :
      (k : Text) (a : A) (m : Table A) → lookup k m ≡ none → insert k a m ≡ m ++ (k, a) ∷ []
  unfolding lookup insert
  insert-eq-append k a [] h = refl
  insert-eq-append k a ((j, b) ∷ m) h = elim (Bool-cases (j =? k)) [
    | inl same ↦ absurd (cc (rw same at h))
    | inr other ↦ rw other (ap (λ t. (j, b) ∷ t) (insert-eq-append k a m (rw other at h)))
  ]

  pub lookup-append :
      (k : Text) (m n : Table A)
      → lookup k (m ++ n) ≡ elim (lookup k m) [ none ↦ lookup k n | some a ↦ some a ]
  unfolding lookup
  lookup-append k [] n = refl
  lookup-append k ((j, a) ∷ m) n = elim (Bool-cases (j =? k)) [
    | inl same ↦ rw same refl
    | inr other ↦ rw other (lookup-append k m n)
  ]
