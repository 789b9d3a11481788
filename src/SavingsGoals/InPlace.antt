-- ===== src/SavingsGoals/InPlace.antt =====
-- The calls of contracts/savings-goals/src/lib.rs that work on goals that are stored.
use stellarspend_contracts.Common.{
  ℕ, ◌≡◌, ◌∙◌, inl, inr, refl, arith, Option-cases, insert_ne, insert_self,
}
use stellarspend_contracts.Common.Int.{ℤ}
use stellarspend_contracts.Soroban.{Address, Symbol, Env, ok}
use stellarspend_contracts.SavingsGoals.Types.{SavingsGoal, State, Bytes, set_goal}
use stellarspend_contracts.SavingsGoals.Funds.{
  contributed, contribute_to_goal, reverse_contribution, reduced, withdraw_from_goal,
  partial_withdraw, partly_withdrawn, book_contribution,
}
use stellarspend_contracts.SavingsGoals.Merging.{merge_goals, emptied, enlarged}
use stellarspend_contracts.SavingsGoals.Contributions.{contribute_ok, reverse_ok}
use stellarspend_contracts.SavingsGoals.Withdrawals.{withdraw_ok, partial_withdraw_ok}
use stellarspend_contracts.SavingsGoals.Milestones.{check_and_emit_milestones}
use stellarspend_contracts.SavingsGoals.Emission.{check_and_emit_ok}
use stellarspend_contracts.SavingsGoals.Merges.{merge_ok}
use stellarspend_contracts.SavingsGoals.Upkeep.{update_goal_name, record_goal_snapshot}
use stellarspend_contracts.SavingsGoals.Edits.{
  SameTerms, changed-SameTerms, IsEdit, IsEdit-trans, IsEdit-of, set_goal-IsEdit, emitted-IsEdit,
}

contributed-SameTerms : (goal : SavingsGoal) (amount : ℤ) → SameTerms goal (contributed goal amount)
unfolding contributed
contributed-SameTerms goal amount = changed-SameTerms goal _ _ _ _

pub contribute-IsEdit :
    (env : Env) (caller : Address) (goal_id : ℕ) (amount : ℤ) (token : Bytes) (s : State)
    (contrib_id : ℕ) (s' : State)
    → contribute_to_goal env caller goal_id amount token s ≡ ok (contrib_id, s')
    → IsEdit s s'
contribute-IsEdit env caller goal_id amount token s contrib_id s' h =
    let c = contribute_ok env caller goal_id amount token s contrib_id s' h in
    let (s₁, emitted, published) = c.checked in
    let goal' = contributed c.goal amount in
    let booked = book_contribution env caller goal_id amount token c.goal contrib_id s in
    let first =
      set_goal-IsEdit goal_id c.goal goal' s c.stored (contributed-SameTerms c.goal amount) in
    let second : IsEdit (set_goal goal_id goal' s) booked =
      IsEdit-of (set_goal goal_id goal' s) booked refl refl refl refl in
    let third =
      emitted-IsEdit goal_id goal' booked s₁ (insert_self goal_id goal' s.goals) emitted in
    let all = IsEdit-trans first (IsEdit-trans second third) in
    rw published (IsEdit-trans all (IsEdit-of s₁ _ refl refl refl refl))

pub reverse-IsEdit :
    (env : Env) (caller : Address) (goal_id contrib_id : ℕ) (s : State) (left : ℤ) (s' : State)
    → reverse_contribution env caller goal_id contrib_id s ≡ ok (left, s')
    → IsEdit s s'
reverse-IsEdit env caller goal_id contrib_id s left s' h =
    let r = reverse_ok env caller goal_id contrib_id s left s' h in
    let goal' = reduced env r.goal r.contribution in
    let first =
      set_goal-IsEdit goal_id r.goal goal' s r.stored (changed-SameTerms r.goal _ _ _ _) in
    rw r.after (IsEdit-trans first (IsEdit-of (set_goal goal_id goal' s) _ refl refl refl refl))

pub withdraw-IsEdit :
    (env : Env) (caller : Address) (goal_id : ℕ) (amount : ℤ) (s : State) (left : ℤ) (s' : State)
    → withdraw_from_goal env caller goal_id amount s ≡ ok (left, s')
    → IsEdit s s'
withdraw-IsEdit env caller goal_id amount s left s' h =
    let w = withdraw_ok env caller goal_id amount s left s' h in
    let first = set_goal-IsEdit goal_id w.goal _ s w.stored (changed-SameTerms w.goal _ _ _ _) in
    rw w.after (IsEdit-trans first (IsEdit-of _ _ refl refl refl refl))

pub partial_withdraw-IsEdit :
    (env : Env) (caller : Address) (goal_id : ℕ) (amount : ℤ) (s s' : State)
    → partial_withdraw env caller goal_id amount s ≡ ok s'
    → IsEdit s s'
partial_withdraw-IsEdit env caller goal_id amount s s' h =
    let w = partial_withdraw_ok env caller goal_id amount s s' h in
    let (s₁, emitted, published) = w.checked in
    let goal' = partly_withdrawn env w.goal w.gross in
    let first =
      set_goal-IsEdit goal_id w.goal goal' s w.stored (changed-SameTerms w.goal _ _ _ _) in
    let second =
      emitted-IsEdit goal_id goal' (set_goal goal_id goal' s) s₁ (insert_self goal_id goal' s.goals)
        emitted in
    rw published (IsEdit-trans first (IsEdit-trans second (IsEdit-of s₁ _ refl refl refl refl)))

pub check-IsEdit :
    (env : Env) (goal_id : ℕ) (s s' : State)
    → check_and_emit_milestones env goal_id s ≡ ok s'
    → IsEdit s s'
unfolding check_and_emit_milestones
check-IsEdit env goal_id s s' h = elim (Option-cases (s.goals goal_id)) [
  | inl missing ↦
      let unchanged : s' ≡ s = ground arith in rw unchanged (IsEdit-of s s refl refl refl refl)
  | inr (goal, stored) ↦
      emitted-IsEdit goal_id goal s s' stored (check_and_emit_ok env goal_id goal s s' stored h)
]

pub merge-IsEdit :
    (env : Env) (caller : Address) (source_id target_id : ℕ) (s s' : State)
    → merge_goals env caller source_id target_id s ≡ ok s'
    → IsEdit s s'
merge-IsEdit env caller source_id target_id s s' h =
    let m = merge_ok env caller source_id target_id s s' h in
    let (s₁, emitted, published) = m.checked in
    let empty = emptied env m.source in
    let full = enlarged env m.target m.source in
    let u = set_goal source_id empty s in
    let first =
      set_goal-IsEdit source_id m.source empty s m.source_stored
        (changed-SameTerms m.source _ _ _ _) in
    let second =
      set_goal-IsEdit target_id m.target full u
        (insert_ne source_id target_id empty s.goals m.apart ∙ m.target_stored)
        (changed-SameTerms m.target _ _ _ _) in
    let third =
      emitted-IsEdit target_id full (set_goal target_id full u) s₁
        (insert_self target_id full u.goals) emitted in
    let all = IsEdit-trans first (IsEdit-trans second third) in
    rw published (IsEdit-trans all (IsEdit-of s₁ _ refl refl refl refl))

pub update_goal_name-IsEdit :
    (env : Env) (caller : Address) (goal_id : ℕ) (name : Symbol) (s s' : State)
    → update_goal_name env caller goal_id name s ≡ ok s'
    → IsEdit s s'
unfolding update_goal_name
update_goal_name-IsEdit env caller goal_id name s s' h = elim (Option-cases (s.goals goal_id)) [
  | inl missing ↦ absurd (ground arith)
  | inr (goal, stored) ↦
      let goal' = record goal { goal_name = name } in
      let first = set_goal-IsEdit goal_id goal goal' s stored (changed-SameTerms goal _ _ _ _) in
      let last : IsEdit (set_goal goal_id goal' s) s' =
        IsEdit-of (set_goal goal_id goal' s) s' (ground arith) (ground arith) (ground arith)
          (ground arith) in
      IsEdit-trans first last
]

pub record_goal_snapshot-IsEdit :
    (env : Env) (caller : Address) (goal_id : ℕ) (s s' : State)
    → record_goal_snapshot env caller goal_id s ≡ ok s'
    → IsEdit s s'
unfolding record_goal_snapshot
record_goal_snapshot-IsEdit env caller goal_id s s' h =
    IsEdit-of s s' (ground arith) (ground arith) (ground arith) (ground arith)
