-- ===== src/SharedBudgets/Calls.antt =====
-- Sequences of calls of contracts/shared-budgets/src/lib.rs: every operation that writes.
use stellarspend_contracts.Common.{
  ℕ, zero, suc, ◌+◌, ◌≡◌, ◌≢◌, inl, inr, refl, sym, subst, ◌==◌, false, Option, some, none, List,
  [], ◌∷◌, arith, ltb, leb, Option-cases, Bool-cases, remove, insert_at, insert_ne, unwrap_or,
}
use native.Mathlib.Decide.{ℕ_discrete}
use stellarspend_contracts.Common.Int.{ℤ, saturating_add_u64}
use stellarspend_contracts.Soroban.{
  Address, Symbol, Env, Token, Result, ok, ok_or, ok_or-keeps, ◌>>=◌, >>=-succeeds,
}
use stellarspend_contracts.SharedBudgets.Types.{
  Budget, BudgetSpendingRule, ArchivedBudget, SharedBudgetError, State,
}
use stellarspend_contracts.SharedBudgets.Budgets.{
  initialize, require_admin, create_budget, transfer_budget_ownership, add_member_to_budget,
  add_spending_rule, set_archive_retention_period, deactivate_budget, set_admin,
}
use stellarspend_contracts.SharedBudgets.Spending.{contribute_to_budget, spend_from_budget}
use stellarspend_contracts.SharedBudgets.Archive.{
  archive_budget, archive_one, archive_loop, archive_inactive_budgets, deactivated_at,
}
use stellarspend_contracts.SharedBudgets.Changes.{same, archived, IsStep, IsStep-of_same}
use stellarspend_contracts.SharedBudgets.Steps.{
  create-IsStep, transfer-IsStep, add_member-IsStep, add_rule-IsStep, deactivate-IsStep,
  retention-IsStep, set_admin-IsStep, initialize-refused, contribute-IsStep, spend-IsStep,
}

module _ {L : Type 0} (env : Env) (retention : ℕ) where
  archived_slot : (id : ℕ) (s : State L) (k : ℕ) → id ≡ k → remove id s.budgets k ≡ none
  archived_slot id s k at = ground arith

  other_slot : (id : ℕ) (s : State L) (k : ℕ) → id ≢ k → remove id s.budgets k ≡ s.budgets k
  other_slot id s k apart = ground arith

  -- What the archive holds of a budget.
  abbrev archived_record : ℕ → Budget → State L → ArchivedBudget
  archived_record id x s = record {
    budget = x;
    deactivated_at = deactivated_at env retention id x s;
    archived_at = env.timestamp;
    contribution_ids = unwrap_or (s.budget_contributions id) [];
  }

  archive_budget-IsStep :
      (id : ℕ) (x : Budget) (s : State L)
      → s.budgets id ≡ some x
      → x.is_active ≡ false
      → IsStep s (archive_budget env retention id x s)
  unfolding archive_budget
  archive_budget-IsStep id x s stored inactive =
      let z = archived_record id x s in
      record {
        change = λ k. elim (ℕ_discrete id k) [
          | yes at ↦
              archived x z (rw (← at) stored) inactive (archived_slot id s k at)
                (insert_at id k z s.archived_budgets at) refl
          | no apart ↦ same (other_slot id s k apart) (insert_ne id k z s.archived_budgets apart)
        ];
        grows = omega arith;
        started = λ started. started;
      }

  rest-IsStep : (s u : State L) → u ≡ s → IsStep s u
  rest-IsStep s u e =
      subst (λ x. IsStep s x) (sym e)
        (IsStep-of_same s s refl (omega arith) (λ started. started) refl)

  archive_one-IsStep : (id n : ℕ) (s : State L) → IsStep s (archive_one env retention id (n, s)).1
  unfolding archive_one
  archive_one-IsStep id n s = elim (Option-cases (s.budgets id)) [
    | inl missing ↦ rest-IsStep s _ (ground arith)
    | inr (x, stored) ↦ elim (Bool-cases x.is_active) [
      | inl active ↦ rest-IsStep s _ (ground arith)
      | inr inactive ↦
          elim (Bool-cases (
            ltb env.timestamp
              (saturating_add_u64 (deactivated_at env retention id x s) retention))) [
                | inl early ↦ rest-IsStep s _ (ground arith)
                | inr late ↦
                    let done : (archive_one env retention id (n, s)).1
                        ≡ archive_budget env retention id x s =
                      ground arith in
                    subst (λ u. IsStep s u) (sym done)
                      (archive_budget-IsStep id x s stored inactive)
              ]
    ]
  ]

  -- What every step keeps, the loop over the budgets keeps.
  archive_loop-keeps :
      (P : State L → Type 0)
      → ((s s' : State L) → IsStep s s' → P s → P s')
      → (most left id n : ℕ) (s : State L) → P s
      → P (archive_loop env retention most left id (n, s)).1
  unfolding archive_loop
  archive_loop-keeps P stable most zero id n s holds = holds
  archive_loop-keeps P stable most (suc left) id n s holds = elim (Bool-cases (leb most n)) [
    | inl full ↦ rw full holds
    | inr room ↦
        let r = archive_one env retention id (n, s) in
        rw room (
          archive_loop-keeps P stable most left (id + 1) r.0 r.1
            (stable s r.1 (archive_one-IsStep id n s) holds))
  ]

pub data BudgetCall : Type 0 where
  start : Address → BudgetCall
  create : Address → Symbol → List Address → Address → List BudgetSpendingRule → BudgetCall
  contribute : Address → ℕ → ℤ → Option Symbol → BudgetCall
  spend : Address → ℕ → Address → ℤ → BudgetCall
  transfer add_member : Address → ℕ → Address → BudgetCall
  add_rule : Address → ℕ → BudgetSpendingRule → BudgetCall
  deactivate : Address → ℕ → BudgetCall
  set_retention : Address → ℕ → BudgetCall
  archive : Address → ℕ → BudgetCall
  hand_over : (current new : Address) → BudgetCall

module _ (tok : Token) where
  unfoldable pub make_call :
      Env → BudgetCall → State tok.Ledger → Result SharedBudgetError (State tok.Ledger)
  make_call env (BudgetCall.start admin) s = initialize admin s
  make_call env (BudgetCall.create creator name members token rules) s =
      create_budget env creator name members token rules s >>= λ p. ok p.1
  make_call env (BudgetCall.contribute who id amount memo) s =
      contribute_to_budget tok env who id amount memo s
  make_call env (BudgetCall.spend who id recipient amount) s =
      spend_from_budget tok env who id recipient amount s
  make_call env (BudgetCall.transfer who id new) s = transfer_budget_ownership env who id new s
  make_call env (BudgetCall.add_member who id member) s = add_member_to_budget env who id member s
  make_call env (BudgetCall.add_rule who id rule) s = add_spending_rule env who id rule s
  make_call env (BudgetCall.deactivate who id) s = deactivate_budget env who id s
  make_call env (BudgetCall.set_retention who seconds) s =
      set_archive_retention_period env who seconds s
  make_call env (BudgetCall.archive who most) s =
      archive_inactive_budgets env who most s >>= λ p. ok p.1
  make_call env (BudgetCall.hand_over current new) s = set_admin env current new s

  -- Calls that are tried one after the other; one that fails changes nothing.
  unfoldable pub try_calls : List (Env × BudgetCall) → State tok.Ledger → State tok.Ledger
  try_calls [] s = s
  try_calls ((env, call) ∷ calls) s = try_calls calls (ok_or (make_call env call s) s)

  -- A property that every step keeps, of states with an admin.
  module _ (P : State tok.Ledger → Type 0)
      (stable : (s s' : State tok.Ledger) → IsStep s s' → P s → P s')
      (started : (s : State tok.Ledger) → P s → s.admin ≢ none) where
    archive-keeps :
        (env : Env) (who : Address) (most : ℕ) (s s' : State tok.Ledger)
        → P s
        → (archive_inactive_budgets env who most s >>= λ p. ok p.1) ≡ ok s'
        → P s'
    unfolding archive_inactive_budgets require_admin
    archive-keeps env who most s s' holds h = elim (Bool-cases (most == 0)) [
      | inl nothing ↦ let unchanged : s ≡ s' = ground arith in subst P unchanged holds
      | inr some_most ↦
          let run =
            archive_loop env (unwrap_or s.archive_retention_period 0) most
              (unwrap_or s.total_budgets_created 0) 1 (0, s) in
          let done : run.1 ≡ s' = ground arith in
          subst P done (
            archive_loop-keeps env (unwrap_or s.archive_retention_period 0) P stable most
              (unwrap_or s.total_budgets_created 0) 1 0 s holds)
    ]

    call-keeps :
        (env : Env) (call : BudgetCall) (s s' : State tok.Ledger)
        → P s
        → make_call env call s ≡ ok s'
        → P s'
    unfolding make_call
    call-keeps env (BudgetCall.start admin) s s' holds h =
        absurd (initialize-refused admin s s' (started s holds) h)
    call-keeps env (BudgetCall.create creator name members token rules) s s' holds h =
        let ((id, u), one, rest) =
          >>=-succeeds (create_budget env creator name members token rules s) (λ p. ok p.1) h in
        let unchanged : u ≡ s' = ground arith in
        subst P unchanged
          (stable s u (create-IsStep env creator name members token rules s id u one) holds)
    call-keeps env (BudgetCall.contribute who id amount memo) s s' holds h =
        stable s s' (contribute-IsStep tok env who id amount memo s s' h) holds
    call-keeps env (BudgetCall.spend who id recipient amount) s s' holds h =
        stable s s' (spend-IsStep tok env who id recipient amount s s' h) holds
    call-keeps env (BudgetCall.transfer who id new) s s' holds h =
        stable s s' (transfer-IsStep env who id new s s' h) holds
    call-keeps env (BudgetCall.add_member who id member) s s' holds h =
        stable s s' (add_member-IsStep env who id member s s' h) holds
    call-keeps env (BudgetCall.add_rule who id rule) s s' holds h =
        stable s s' (add_rule-IsStep env who id rule s s' h) holds
    call-keeps env (BudgetCall.deactivate who id) s s' holds h =
        stable s s' (deactivate-IsStep env who id s s' h) holds
    call-keeps env (BudgetCall.set_retention who seconds) s s' holds h =
        stable s s' (retention-IsStep env who seconds s s' h) holds
    call-keeps env (BudgetCall.archive who most) s s' holds h =
        archive-keeps env who most s s' holds h
    call-keeps env (BudgetCall.hand_over current new) s s' holds h =
        stable s s' (set_admin-IsStep env current new s s' h) holds

    pub try_calls-keeps :
        (calls : List (Env × BudgetCall)) (s : State tok.Ledger) → P s → P (try_calls calls s)
    unfolding try_calls
    try_calls-keeps [] s holds = holds
    try_calls-keeps ((env, call) ∷ calls) s holds =
        let run = make_call env call s in
        try_calls-keeps calls (ok_or run s)
          (ok_or-keeps P run s holds (λ s' h. call-keeps env call s s' holds h))
