-- ===== src/Escrow/Locked.antt =====
-- The sum that the active escrows lock, under updates of the storage of contracts/escrow/src/lib.rs.
use stellarspend_contracts.Common.{
  ℕ, zero, suc, ◌+◌, ◌≤◌, ◌<◌, ◌≡◌, refl, Option, none, some, arith, Map, insert, insert_ne,
  insert_self, if◌then◌else◌,
}
use native.Mathlib.Decide.{dec_le}
use stellarspend_contracts.Common.Int.{ℤ, pos, ◌+ℤ◌, ◌-ℤ◌, int_laws}
use stellarspend_contracts.Escrow.Types.{Escrow}
use stellarspend_contracts.Escrow.Lifecycle.{is_active}

-- What a record keeps locked.
abbrev pub active_amount : Option Escrow → ℤ
active_amount none = pos 0
active_amount (some x) = if is_active x.status then x.amount else pos 0

-- The sum that is locked under the ids 1 to n.
unfoldable pub locked : Map Escrow → ℕ → ℤ
locked m zero = pos 0
locked m (suc n) = locked m n +ℤ active_amount (m (suc n))

pub locked-insert_above :
    (m : Map Escrow) (k : ℕ) (x : Escrow) (n : ℕ) → n < k → locked (insert k x m) n ≡ locked m n
unfolding locked
locked-insert_above m k x zero h = refl
locked-insert_above m k x (suc n) h = ground (arith, locked-insert_above m k x n)

swap_amount : (l a b : ℤ) → l +ℤ b ≡ l +ℤ a -ℤ a +ℤ b
swap_amount l a b = omega int_laws

carry : (l a b c : ℤ) → l -ℤ a +ℤ b +ℤ c ≡ l +ℤ c -ℤ a +ℤ b
carry l a b c = omega int_laws

pub locked-insert :
    (m : Map Escrow) (k : ℕ) (x : Escrow) (n : ℕ)
    → 1 ≤ k
    → k ≤ n
    → locked (insert k x m) n ≡ locked m n -ℤ active_amount (m k) +ℤ active_amount (some x)
unfolding locked
locked-insert m k x zero lo hi = absurd (omega arith)
locked-insert m k x (suc n) lo hi = elim (dec_le k n) [
  | yes below ↦
      rw (locked-insert m k x n lo below, insert_ne k (suc n) x m (omega arith))
        (carry (locked m n) (active_amount (m k)) (active_amount (some x))
          (active_amount (m (suc n))))
  | no above ↦
      let top : k ≡ suc n = omega arith in
      rw (locked-insert_above m k x n (omega arith), top, insert_self (suc n) x m)
        (swap_amount (locked m n) (active_amount (m (suc n))) (active_amount (some x)))
]

-- A record under the next id adds its amount.
pub locked-insert_new :
    (m : Map Escrow) (x : Escrow) (n : ℕ)
    → locked (insert (n + 1) x m) (n + 1) ≡ locked m n +ℤ active_amount (some x)
unfolding locked
locked-insert_new m x n =
    let top : n + 1 ≡ suc n = omega arith in
    rw (top, locked-insert_above m (suc n) x n (omega arith), insert_self (suc n) x m)

-- Nothing stored locks nothing.
pub locked-empty : (m : Map Escrow) (n : ℕ) → ((k : ℕ) → m k ≡ none) → locked m n ≡ pos 0
unfolding locked
locked-empty m zero h = refl
locked-empty m (suc n) h = rw (locked-empty m n h, h (suc n)) (unfold ◌+ℤ◌ in refl)
