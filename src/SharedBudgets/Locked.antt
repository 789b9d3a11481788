-- ===== src/SharedBudgets/Locked.antt =====
-- The budgets of contracts/shared-budgets/src/lib.rs through sequences of calls: what they hold is
-- covered, and an inactive budget never pays again.
use stellarspend_contracts.Common.{
  ℕ, suc, ◌+◌, ◌≡◌, ◌≢◌, ◌≤◌, ◌⊎◌, inl, inr, refl, sym, subst, ◌∙◌, true, false, Option, some, none,
  List, arith,
}
use stellarspend_contracts.Common.Int.{ℤ}
use stellarspend_contracts.Soroban.{Address, Env, Token, ok}
use stellarspend_contracts.SharedBudgets.Types.{Budget, ArchivedBudget, State}
use stellarspend_contracts.SharedBudgets.Spending.{spend_from_budget}
use stellarspend_contracts.SharedBudgets.Spends.{spend_ok}
use stellarspend_contracts.SharedBudgets.Changes.{
  Change, same, archived, edited, moved, created, IsFunded, total,
}
use stellarspend_contracts.SharedBudgets.Calls.{BudgetCall, try_calls, try_calls-keeps}

-- Every stored budget is funded, and the contract has an admin.
pub record AllFunded {L : Type 0} (s : State L) : Type 0 where
  pub funded : (k : ℕ) (x : Budget) → s.budgets k ≡ some x → IsFunded x
  pub started : s.admin ≢ none

change-IsFunded :
    (next last k : ℕ) (o o' : Option Budget) (a a' : Option ArchivedBudget) (y : Budget)
    → Change next last k o o' a a'
    → ((x : Budget) → o ≡ some x → IsFunded x)
    → o' ≡ some y
    → IsFunded y
change-IsFunded next last k o o' a a' y (same e kept) before now = before y (sym e ∙ now)
change-IsFunded next last k o o' a a' y (archived x r stored inactive gone filed held) before now =
    absurd (ground arith)
change-IsFunded next last k o o' a a' y (edited x z stored after balance sum inactive kept) before
      now =
    let one : z ≡ y = cc in
    let (low, high) = before x stored in rw (← one, balance, sum) (low, high)
change-IsFunded next last k o o' a a' y (moved x z stored after active keeps kept) before now =
    let one : z ≡ y = cc in subst IsFunded one (keeps (before x stored))
change-IsFunded next last k o o' a a' y (created z at counted after funded active kept) before now =
    let one : z ≡ y = cc in subst IsFunded one funded

-- The budget is inactive with the balance, stored or in the archive only.
abbrev pub IsShutSlot : ℤ → Option Budget → Option ArchivedBudget → Type 0
IsShutSlot balance o a =
    ((x : Budget) × (o ≡ some x) × (x.is_active ≡ false) × (x.balance ≡ balance))
    ⊎ ((o ≡ none)
        × ((z : ArchivedBudget) × (a ≡ some z)
            × (z.budget.is_active ≡ false)
            × (z.budget.balance ≡ balance)))

-- The budget `k` is inactive with a balance, stored or in the archive, and its number has been given
-- out.
pub record IsShut {L : Type 0} (k : ℕ) (balance : ℤ) (s : State L) : Type 0 where
  pub slot : IsShutSlot balance (s.budgets k) (s.archived_budgets k)
  pub handed_out : k ≤ total s
  pub started : s.admin ≢ none

slot_after :
    (next last k : ℕ) (balance : ℤ) (o o' : Option Budget) (a a' : Option ArchivedBudget)
    → Change next last k o o' a a'
    → suc k ≤ next
    → IsShutSlot balance o a
    → IsShutSlot balance o' a'
slot_after next last k balance o o' a a' (same e kept) old slot = rw (e, kept) slot
slot_after next last k balance o o' a a' (archived x r stored inactive gone filed held) old slot =
    elim slot [
      | inr (missing, _) ↦ absurd (ground arith)
      | inl (z, found, shut, sum) ↦
          let one : x ≡ z = cc in inr (gone, (r, filed, rw held inactive, rw (held, one) sum))
    ]
slot_after next last k balance o o' a a' (edited x y stored after same_balance sum inactive kept)
      old slot =
    elim slot [
      | inr (gone, _) ↦ absurd (ground arith)
      | inl (z, found, shut, held) ↦
          let one : x ≡ z = cc in inl (y, after, inactive (rw one shut), same_balance ∙ rw one held)
    ]
slot_after next last k balance o o' a a' (moved x y stored after active keeps kept) old slot =
    elim slot [
      | inr (gone, _) ↦ absurd (ground arith)
      | inl (z, found, shut, held) ↦
          let one : x ≡ z = cc in
          let clash : x.is_active ≡ false = rw one shut in absurd (ground arith)
    ]
slot_after next last k balance o o' a a' (created y at counted after funded active kept) old slot =
    absurd (omega arith)

module _ (tok : Token) where
  -- In every sequence of calls of a contract with an admin, every stored budget has a balance that is
  -- not negative and at most what was contributed to it, if so before.
  pub try_calls-AllFunded :
      (calls : List (Env × BudgetCall)) (s : State tok.Ledger)
      → AllFunded s
      → AllFunded (try_calls tok calls s)
  try_calls-AllFunded calls s funded =
      try_calls-keeps tok AllFunded
        (λ s₁ s₂ step before. record {
          funded = λ k y now.
              change-IsFunded (total s₁ + 1) (total s₂) k (s₁.budgets k) (s₂.budgets k)
                (s₁.archived_budgets k) (s₂.archived_budgets k) y (step.change k) (before.funded k)
                now;
          started = step.started before.started;
        })
        (λ s₁ holds. holds.started) calls s funded

  pub try_calls-IsShut :
      (calls : List (Env × BudgetCall)) (k : ℕ) (balance : ℤ) (s : State tok.Ledger)
      → IsShut k balance s
      → IsShut k balance (try_calls tok calls s)
  try_calls-IsShut calls k balance s shut =
      try_calls-keeps tok (IsShut k balance)
        (λ s₁ s₂ step before. record {
          slot =
              slot_after (total s₁ + 1) (total s₂) k balance (s₁.budgets k) (s₂.budgets k)
                (s₁.archived_budgets k) (s₂.archived_budgets k) (step.change k)
                (let low = before.handed_out in omega arith) before.slot;
          handed_out = (let low = before.handed_out in let more = step.grows in omega arith);
          started = step.started before.started;
        })
        (λ s₁ holds. holds.started) calls s shut

  -- Once a budget of a contract with an admin, whose number has been given out, is inactive, nobody
  -- can ever spend from it: after every sequence of calls it is stored, inactive and with the same
  -- balance, or it is not stored and the archive has it, inactive and with the same balance; and
  -- every spend from it fails, for every caller, recipient and amount.
  pub try_calls-never_spends :
      (calls : List (Env × BudgetCall)) (k : ℕ) (s : State tok.Ledger) (x : Budget)
      → s.admin ≢ none
      → s.budgets k ≡ some x
      → x.is_active ≡ false
      → k ≤ total s
      → IsShut k x.balance (try_calls tok calls s)
        × ((env : Env) (spender recipient : Address) (amount : ℤ) (s' : State tok.Ledger)
            → spend_from_budget tok env spender k recipient amount (try_calls tok calls s) ≢ ok s')
  try_calls-never_spends calls k s x started stored inactive low =
      let shut =
        try_calls-IsShut calls k x.balance s (record {
          slot = inl (x, stored, inactive, refl);
          handed_out = low;
          started = started;
        }) in
      (
        shut,
        λ env spender recipient amount s' h.
            let w = spend_ok tok env spender k recipient amount (try_calls tok calls s) s' h in
            elim shut.slot [
              | inr (gone, _) ↦ let found = w.stored in absurd (ground arith)
              | inl (y, found, dead, _) ↦
                  let one : w.budget ≡ y = cc (w.stored, found) in
                  let clash : y.is_active ≡ true = rw (← one) w.active in absurd (ground arith)
            ],
      )
