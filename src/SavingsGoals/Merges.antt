-- ===== src/SavingsGoals/Merges.antt =====
-- Successful merges of contracts/savings-goals/src/lib.rs.
use stellarspend_contracts.Common.{
  ℕ, ◌≡◌, ◌≢◌, inl, inr, true, some, arith, Option-cases, insert_self,
}
use stellarspend_contracts.Soroban.{Address, Env, ok, Result-cases}
use stellarspend_contracts.SavingsGoals.Types.{SavingsGoal, State, GoalEvent, publish, set_goal}
use stellarspend_contracts.SavingsGoals.Milestones.{check_and_emit_milestones}
use stellarspend_contracts.SavingsGoals.Merging.{merge_goals, emptied, enlarged}
use stellarspend_contracts.SavingsGoals.Emission.{IsEmitted, check_and_emit_ok}

-- A merge that succeeds.
pub record IsMerged (env : Env) (caller : Address) (source_id target_id : ℕ) (s s' : State)
    : Type 0 where
  pub source : SavingsGoal
  pub target : SavingsGoal
  pub apart : source_id ≢ target_id
  pub source_stored : s.goals source_id ≡ some source
  pub target_stored : s.goals target_id ≡ some target
  pub source_owner : source.user ≡ caller
  pub target_owner : target.user ≡ caller
  pub source_active : source.is_active ≡ true
  pub target_active : target.is_active ≡ true
  pub checked :
      (s₁ : State) × IsEmitted target_id
        (enlarged env target source)
        (set_goal target_id
          (enlarged env target source)
          (set_goal source_id (emptied env source) s))
        s₁
      × (s' ≡ publish (GoalEvent.goals_merged source_id target_id source.current_amount) s₁)

pub merge_ok :
    (env : Env) (caller : Address) (source_id target_id : ℕ) (s s' : State)
    → merge_goals env caller source_id target_id s ≡ ok s'
    → IsMerged env caller source_id target_id s s'
unfolding merge_goals
merge_ok env caller source_id target_id s s' h = elim (Option-cases (s.goals source_id)) [
  | inl missing ↦ absurd (ground arith)
  | inr (source, source_stored) ↦ elim (Option-cases (s.goals target_id)) [
    | inl missing ↦ absurd (ground arith)
    | inr (target, target_stored) ↦
        let u = set_goal source_id (emptied env source) s in
        let goal' = enlarged env target source in
        elim (Result-cases (check_and_emit_milestones env target_id (set_goal target_id goal' u))) [
          | inl (_, over) ↦ absurd (ground arith)
          | inr (s₁, emits) ↦ record {
            source = source;
            target = target;
            apart = ground arith;
            source_stored = source_stored;
            target_stored = target_stored;
            source_owner = ground arith;
            target_owner = ground arith;
            source_active = ground arith;
            target_active = ground arith;
            checked = (
              s₁,
              check_and_emit_ok env target_id goal' (set_goal target_id goal' u) s₁
                  (insert_self target_id goal' u.goals) emits,
              ground arith,
            );
          }
        ]
  ]
]
