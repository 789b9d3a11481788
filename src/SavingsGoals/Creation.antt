-- ===== src/SavingsGoals/Creation.antt =====
-- Goals that are created and cloned by contracts/savings-goals/src/lib.rs keep its invariant.
use stellarspend_contracts.Common.{
  ℕ, ◌+◌, ◌≡◌, ◌≢◌, inl, inr, refl, sym, ap, subst, ◌∙◌, Option, some, none, List, [], ◌∷◌, Map,
  arith, Option-cases, insert, insert_ne, insert_self, insert_pair, unwrap_or, inserted_at,
}
use native.Mathlib.Decide.{ℕ_discrete}
use stellarspend_contracts.Common.Int.{checked_add_u64}
use stellarspend_contracts.Soroban.{Env, ok, Result-cases, >>=-succeeds}
use stellarspend_contracts.SavingsGoals.Types.{SavingsGoal, SavingsGoalRequest, State}
use stellarspend_contracts.SavingsGoals.Validation.{
  validate_goal_request, validate_goal_name_unique,
}
use stellarspend_contracts.SavingsGoals.Goals.{
  GoalTally, new_goal, store_goal, create_goal, refuse_goal, set_savings_goal, set_savings_goals,
  finish_goals,
}
use stellarspend_contracts.SavingsGoals.Emission.{check_and_emit_ok}
use stellarspend_contracts.SavingsGoals.Edits.{
  SameTerms-refl, IsEdit, IsEdit-of, IsEdit-trans, emitted-IsEdit,
}
use stellarspend_contracts.SavingsGoals.Sound.{
  KeepsGoals, keeps_trans, edit-KeepsGoals, IsSoundAt, IsSound, edit-IsSoundAt,
}

-- A goal under the next number.
module _ (last id : ℕ) (goal : SavingsGoal) (s u : State) (next : id ≡ last + 1)
    (own : goal.goal_id ≡ id) (goals : u.goals ≡ insert id goal s.goals)
    (sound : IsSoundAt last s) where
  at_id : u.goals id ≡ some goal
  at_id = ap (λ (m : Map SavingsGoal). m id) goals ∙ insert_self id goal s.goals

  at_other : (k : ℕ) → id ≢ k → u.goals k ≡ s.goals k
  at_other k apart = ap (λ (m : Map SavingsGoal). m k) goals ∙ insert_ne id k goal s.goals apart

  pub fresh-KeepsGoals : KeepsGoals s u
  fresh-KeepsGoals k old stored =
      let low = sound.handed_out k old stored in
      (old, at_other k (λ p. omega arith) ∙ stored, SameTerms-refl old)

  pub fresh-IsSoundAt :
      u.admin ≡ s.admin → u.goal_prereqs ≡ s.goal_prereqs → s.admin ≢ none → IsSoundAt id u
  fresh-IsSoundAt admin prereqs started = record {
    own_id = λ k g stored. elim (ℕ_discrete id k) [
      | yes at ↦
          let same : g ≡ goal =
            inserted_at id k goal g s.goals at
              (ap (λ (m : Map SavingsGoal). m k) (sym goals) ∙ stored) in
          rw (same, own) at
      | no apart ↦ sound.own_id k g (sym (at_other k apart) ∙ stored)
    ];
    handed_out = λ k g stored. elim (ℕ_discrete id k) [
      | yes at ↦ omega arith
      | no apart ↦ let low = sound.handed_out k g (sym (at_other k apart) ∙ stored) in omega arith
    ];
    prereqs_of_goals = λ k ids found.
        let (g, stored) =
          sound.prereqs_of_goals k ids (ap (λ (m : Map (List ℕ)). m k) (sym prereqs) ∙ found) in
        let (g', stored', _) = fresh-KeepsGoals k g stored in (g', stored');
    acyclic = rw prereqs sound.acyclic;
    not_started = λ k g none_yet stored. started (sym admin ∙ none_yet);
  }

-- What creating goals keeps, from one tally to the next.
pub record IsGrown (t t' : GoalTally) : Type 0 where
  pub sound : IsSoundAt t'.goal_id_counter t'.state
  pub keeps : KeepsGoals t.state t'.state
  pub admin : t'.state.admin ≡ t.state.admin

new_goal_id :
    (env : Env) (id : ℕ) (request : SavingsGoalRequest) → (new_goal env id request).goal_id ≡ id
unfolding new_goal
new_goal_id env id request = refl

create_goal-IsGrown :
    (env : Env) (batch_id : ℕ) (request : SavingsGoalRequest) (t t' : GoalTally)
    → create_goal env batch_id request t ≡ ok t'
    → t.state.admin ≢ none
    → IsSoundAt t.goal_id_counter t.state
    → IsGrown t t'
unfolding create_goal store_goal checked_add_u64
create_goal-IsGrown env batch_id request t t' h started sound =
    let id = t.goal_id_counter + 1 in
    let goal = new_goal env id request in
    let u = record t.state {
      goals = insert id goal t.state.goals;
      goal_by_name = insert_pair request.user request.goal_name id t.state.goal_by_name;
    } in
    let own : goal.goal_id ≡ id = new_goal_id env id request in
    elim (Result-cases (store_goal env id request t.state)) [
      | inl (_, over) ↦ absurd (ground arith)
      | inr (v, stores) ↦
          let emitted =
            check_and_emit_ok env id goal u v (insert_self id goal t.state.goals) stores in
          let edit = emitted-IsEdit id goal u v (insert_self id goal t.state.goals) emitted in
          let edit' : IsEdit v t'.state =
            IsEdit-of v t'.state (ground arith) (ground arith) (ground arith) (ground arith) in
          let counter : t'.goal_id_counter ≡ id = ground arith in
          let grown =
            fresh-IsSoundAt t.goal_id_counter id goal t.state u refl own refl sound refl refl
              started in
          let both = IsEdit-trans edit edit' in
          record {
            sound = rw counter (edit-IsSoundAt id u t'.state both grown);
            keeps =
                keeps_trans t.state u t'.state
                  (fresh-KeepsGoals t.goal_id_counter id goal t.state u refl own refl sound)
                  (edit-KeepsGoals u t'.state both);
            admin = both.admin;
          }
    ]

-- A request that changes nothing but the answer.
refused-IsGrown :
    (t t' : GoalTally)
    → t'.goal_id_counter ≡ t.goal_id_counter
    → IsEdit t.state t'.state
    → IsSoundAt t.goal_id_counter t.state
    → IsGrown t t'
refused-IsGrown t t' counter edit sound = record {
  sound = rw counter (edit-IsSoundAt t.goal_id_counter t.state t'.state edit sound);
  keeps = edit-KeepsGoals t.state t'.state edit;
  admin = edit.admin;
}

set_savings_goal-IsGrown :
    (env : Env) (batch_id : ℕ) (request : SavingsGoalRequest) (t t' : GoalTally)
    → set_savings_goal env batch_id request t ≡ ok t'
    → t.state.admin ≢ none
    → IsSoundAt t.goal_id_counter t.state
    → IsGrown t t'
unfolding set_savings_goal refuse_goal
set_savings_goal-IsGrown env batch_id request t t' h started sound =
    elim (Option-cases (validate_goal_request env request)) [
      | inr (code, bad) ↦
          refused-IsGrown t t' (ground arith)
            (IsEdit-of t.state t'.state (ground arith) (ground arith) (ground arith) (ground arith))
            sound
      | inl valid ↦
          elim (Option-cases (validate_goal_name_unique t.state request.user request.goal_name)) [
            | inr (code, taken) ↦
                refused-IsGrown t t' (ground arith)
                  (IsEdit-of t.state t'.state (ground arith) (ground arith) (ground arith)
                    (ground arith))
                  sound
            | inl free ↦
                let creates : create_goal env batch_id request t ≡ ok t' = ground arith in
                create_goal-IsGrown env batch_id request t t' creates started sound
          ]
    ]

pub set_savings_goals-IsGrown :
    (env : Env) (batch_id : ℕ) (requests : List SavingsGoalRequest) (t t' : GoalTally)
    → set_savings_goals env batch_id requests t ≡ ok t'
    → t.state.admin ≢ none
    → IsSoundAt t.goal_id_counter t.state
    → IsGrown t t'
unfolding set_savings_goals
set_savings_goals-IsGrown env batch_id [] t t' h started sound =
    let same : t' ≡ t = cc in
    rw same
      (record { sound = sound; keeps = λ k g stored. (g, stored, SameTerms-refl g); admin = refl })
set_savings_goals-IsGrown env batch_id (request ∷ requests) t t' h started sound =
    let (u, one, rest) =
      >>=-succeeds (set_savings_goal env batch_id request t)
        (λ u. set_savings_goals env batch_id requests u) h in
    let first = set_savings_goal-IsGrown env batch_id request t u one started sound in
    let then' =
      set_savings_goals-IsGrown env batch_id requests u t' rest
        (λ gone. started (sym first.admin ∙ gone)) first.sound in
    record {
      sound = then'.sound;
      keeps = keeps_trans t.state u.state t'.state first.keeps then'.keeps;
      admin = then'.admin ∙ first.admin;
    }

pub finish_goals_ok :
    (env : Env) (batch_id : ℕ) (t : GoalTally) (s' : State)
    → finish_goals env batch_id t ≡ ok s'
    → (s'.admin ≡ t.state.admin)
      × (s'.goals ≡ t.state.goals)
      × (s'.goal_prereqs ≡ t.state.goal_prereqs)
      × (s'.last_goal_id ≡ some t.goal_id_counter)
unfolding finish_goals checked_add_u64
finish_goals_ok env batch_id t s' h = (ground arith, ground arith, ground arith, ground arith)

-- The counter that is stored behind the loop.
pub counted-IsSound :
    (last : ℕ) (s s' : State)
    → s'.admin ≡ s.admin
    → s'.goals ≡ s.goals
    → s'.goal_prereqs ≡ s.goal_prereqs
    → s'.last_goal_id ≡ some last
    → IsSoundAt last s
    → IsSound s'
counted-IsSound last s s' admin goals prereqs counter sound =
    let now : IsSoundAt last s' = record {
      own_id = rw goals sound.own_id;
      handed_out = rw goals sound.handed_out;
      prereqs_of_goals = rw (goals, prereqs) sound.prereqs_of_goals;
      acyclic = rw prereqs sound.acyclic;
      not_started = rw (admin, goals) sound.not_started;
    } in
    subst (λ (o : Option ℕ). IsSoundAt (unwrap_or o 0) s') (sym counter) now
