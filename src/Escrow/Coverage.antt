-- ===== src/Escrow/Coverage.antt =====
-- No active escrow of contracts/escrow/src is stuck: its release is covered by the contract's funds.
use native.Mathlib.Decide.{dec_le}
use stellarspend_contracts.Common.{
  ℕ, zero, suc, ◌≤◌, ◌≡◌, refl, sym, inl, inr, Option, none, some, Map, true, arith, Bool-cases,
}
use stellarspend_contracts.Common.Int.{ℤ, pos, ◌+ℤ◌, ◌≤ℤ◌, int_laws}
use stellarspend_contracts.Soroban.{Address, Env, Token, PaysCovered, ok, Result-cases}
use stellarspend_contracts.Escrow.Types.{Escrow, State, active}
use stellarspend_contracts.Escrow.Locked.{active_amount, locked}
use stellarspend_contracts.Escrow.Parties.{IsParty}
use stellarspend_contracts.Escrow.Solvency.{IsSound, counter}
use stellarspend_contracts.Escrow.Lifecycle.{is_active, transfer_token, settle, release_escrow}

-- Every stored amount is positive.
abbrev IsPositive : Map Escrow → Type 0
IsPositive m = (k : ℕ) (x : Escrow) → m k ≡ some x → pos 1 ≤ℤ x.amount

active_amount_nonneg :
    (o : Option Escrow) → ((x : Escrow) → o ≡ some x → pos 1 ≤ℤ x.amount) → pos 0 ≤ℤ active_amount o
active_amount_nonneg none h = omega arith
active_amount_nonneg (some x) h =
    let p = h x refl in
    elim (Bool-cases (is_active x.status)) [ inl live ↦ ground arith | inr dead ↦ ground arith ]

sum_nonneg : (a b : ℤ) → pos 0 ≤ℤ a → pos 0 ≤ℤ b → pos 0 ≤ℤ a +ℤ b
sum_nonneg a b p q = omega int_laws

grow_right : (a b x : ℤ) → x ≤ℤ a → pos 0 ≤ℤ b → x ≤ℤ a +ℤ b
grow_right a b x p q = omega int_laws

grow_left : (a b : ℤ) → pos 0 ≤ℤ a → b ≤ℤ a +ℤ b
grow_left a b p = omega int_laws

locked_nonneg : (m : Map Escrow) (n : ℕ) → IsPositive m → pos 0 ≤ℤ locked m n
unfolding locked
locked_nonneg m zero h = omega arith
locked_nonneg m (suc n) h =
    sum_nonneg (locked m n) (active_amount (m (suc n))) (locked_nonneg m n h)
      (active_amount_nonneg (m (suc n)) (h (suc n)))

active_amount-active :
    (o : Option Escrow) (x : Escrow) → o ≡ some x → x.status ≡ active → active_amount o ≡ x.amount
active_amount-active o x e live = ground arith

-- An active escrow is part of the sum.
locked-member :
    (m : Map Escrow) (k : ℕ) (x : Escrow) (n : ℕ)
    → IsPositive m
    → 1 ≤ k
    → k ≤ n
    → m k ≡ some x
    → x.status ≡ active
    → x.amount ≤ℤ locked m n
unfolding locked
locked-member m k x zero h lo hi e live = absurd (omega arith)
locked-member m k x (suc n) h lo hi e live = elim (dec_le k n) [
  | yes below ↦
      grow_right (locked m n) (active_amount (m (suc n))) x.amount
        (locked-member m k x n h lo below e live) (active_amount_nonneg (m (suc n)) (h (suc n)))
  | no above ↦
      let top : k ≡ suc n = omega arith in
      let found : m (suc n) ≡ some x = rw (sym top) e in
      rw (sym (active_amount-active (m (suc n)) x found live))
        (grow_left (locked m n) (active_amount (m (suc n))) (locked_nonneg m n h))
]

-- In a sound state, an authorized party to an active escrow can release it, where the token contract
-- carries out every positive transfer that the sender's balance covers.
pub release_escrow-accepts :
    (tok : Token)
    → PaysCovered tok
    → (env : Env) (s : State tok.Ledger) (caller admin : Address) (k : ℕ) (x : Escrow)
    → IsSound tok env s
    → env.authorized caller ≡ true
    → s.admin ≡ some admin
    → s.escrows k ≡ some x
    → x.status ≡ active
    → IsParty x caller admin
    → (s' : State tok.Ledger) × (release_escrow tok env caller k s ≡ ok s')
unfolding release_escrow settle transfer_token
release_escrow-accepts tok carries env s caller admin k x sound auth a e live party =
    let own = sound.stored k x e in
    let funds = sound.solvent x.token own.own_token in
    let part =
      locked-member s.escrows k x (counter s) (λ j y f. (sound.stored j y f).positive) own.from_one
        own.counted e live in
    let covered : x.amount ≤ℤ tok.balance x.token env.contract s.ledger = omega arith in
    let (l, moved) =
      carries x.token env.contract x.recipient x.amount s.ledger own.positive covered in
    elim (Result-cases (release_escrow tok env caller k s)) [
      | inl (_, failing) ↦ absurd (ground arith)
      | inr accepted ↦ accepted
    ]
