-- ===== src/Common/Lists.antt =====
-- Lists over the native numbers, and maps from numbers as functions.
use Prim.Native.Nat.{ℕ, suc, ◌+◌}
use mathlib.Core.Path.{◌≡◌}
use mathlib.Core.Logic.{◌≢◌}
use mathlib.Core.Bool.{Bool, false, ◌||◌, ◌&&◌}
use mathlib.Core.List.{List, [], ◌∷◌, ◌++◌}
use mathlib.Core.Option.{Option, none, some}
use native.Mathlib.Omega.{arith}
use stellarspend_contracts.Common.Tests.{◌==◌, if◌then◌else◌}

module _ {ℓ} {A : Type ℓ} where
  abbrev pub length : List A → ℕ
  length [] = 0
  length (x ∷ xs) = suc (length xs)

  -- `Vec::push_back`
  abbrev pub push_back : List A → A → List A
  push_back xs x = xs ++ (x ∷ [])

  pub length-append : (xs ys : List A) → length (xs ++ ys) ≡ length xs + length ys
  length-append [] ys = omega arith
  length-append (x ∷ xs) ys = omega (arith, length-append xs ys)

  pub length-push_back : (xs : List A) (x : A) → length (push_back xs x) ≡ length xs + 1
  length-push_back xs x = omega (arith, length-append xs (x ∷ []))

  -- Every element of a list has a property.
  abbrev pub All {κ} : (A → Type κ) → List A → Type κ
  All P [] = Unit
  All P (x ∷ xs) = P x × All P xs

-- `Vec::contains`
abbrev pub contains : List ℕ → ℕ → Bool
contains [] a = false
contains (x ∷ xs) a = x == a || contains xs a

-- Storage under keys of one kind: what `get` finds.
abbrev pub Map {ℓ} : Type ℓ → Type ℓ
Map V = ℕ → Option V

module _ {ℓ} {V : Type ℓ} where
  abbrev pub insert : ℕ → V → Map V → Map V
  insert k v m j = if k == j then some v else m j

  abbrev pub remove : ℕ → Map V → Map V
  remove k m j = if k == j then none else m j

  -- `get(..).unwrap_or(default)`
  abbrev pub unwrap_or : Option V → V → V
  unwrap_or none d = d
  unwrap_or (some v) d = v

  pub insert_self : (k : ℕ) (v : V) (m : Map V) → insert k v m k ≡ some v
  insert_self k v m = ground arith

  pub insert_ne : (k j : ℕ) (v : V) (m : Map V) → k ≢ j → insert k v m j ≡ m j
  insert_ne k j v m h = ground arith

  pub insert_at : (i k : ℕ) (v : V) (m : Map V) → i ≡ k → insert i v m k ≡ some v
  insert_at i k v m h = ground arith

  -- What a look-up finds behind a write.
  pub inserted_at : (i k : ℕ) (v w : V) (m : Map V) → i ≡ k → insert i v m k ≡ some w → w ≡ v
  inserted_at i k v w m h e = ground arith

  pub inserted_ne : (i k : ℕ) (v w : V) (m : Map V) → i ≢ k → insert i v m k ≡ some w → m k ≡ some w
  inserted_ne i k v w m h e = ground arith

  -- Storage under keys of two parts.
  abbrev pub insert_pair : ℕ → ℕ → V → (ℕ → Map V) → ℕ → Map V
  insert_pair i j v m a b = if (i == a) && (j == b) then some v else m a b

  abbrev pub remove_pair : ℕ → ℕ → (ℕ → Map V) → ℕ → Map V
  remove_pair i j m a b = if (i == a) && (j == b) then none else m a b
