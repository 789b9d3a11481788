-- ===== src/SavingsGoals/Batches.antt =====
-- The calls of contracts/savings-goals/src/lib.rs that hand out numbers of goals, or the admin.
use stellarspend_contracts.Common.{
  ℕ, ◌+◌, ◌≡◌, ◌≢◌, inl, inr, refl, sym, ap, subst, ◌∙◌, Option, some, none, List, Map, arith,
  Option-cases, insert, unwrap_or, length,
}
use stellarspend_contracts.Common.Int.{checked_add_u64}
use stellarspend_contracts.Soroban.{Address, Symbol, Env, ok, Result-cases}
use stellarspend_contracts.SavingsGoals.Types.{
  SavingsGoal, SavingsGoalRequest, BatchGoalResult, GoalEvent, State, publish,
}
use stellarspend_contracts.SavingsGoals.Goals.{
  set_savings_goals, no_goals, finish_goals, batch_set_savings_goals, require_admin, initialize,
}
use stellarspend_contracts.SavingsGoals.Upkeep.{clone_savings_goal, cloned, set_admin}
use stellarspend_contracts.SavingsGoals.Edits.{IsEdit-of, SameTerms-refl}
use stellarspend_contracts.SavingsGoals.Sound.{
  KeepsGoals, keeps_trans, IsSoundAt, IsSound, IsKept, last_goal, edit-IsSoundAt,
}
use stellarspend_contracts.SavingsGoals.Creation.{
  fresh-KeepsGoals, fresh-IsSoundAt, set_savings_goals-IsGrown, finish_goals_ok, counted-IsSound,
}

same_keeps : (s s' : State) → s'.goals ≡ s.goals → KeepsGoals s s'
same_keeps s s' goals k goal stored =
    (goal, ap (λ (m : Map SavingsGoal). m k) goals ∙ stored, SameTerms-refl goal)

pub batch_set_savings_goals-IsKept :
    (env : Env) (caller : Address) (requests : List SavingsGoalRequest) (s : State)
    (answer : BatchGoalResult) (s' : State)
    → batch_set_savings_goals env caller requests s ≡ ok (answer, s')
    → IsSound s
    → IsKept s s'
unfolding batch_set_savings_goals require_admin checked_add_u64
batch_set_savings_goals-IsKept env caller requests s answer s' h sound =
    let batch_id = unwrap_or s.last_batch_id 0 + 1 in
    let u = publish (GoalEvent.batch_started batch_id (length requests)) s in
    let edit = IsEdit-of s u refl refl refl refl in
    let sound' = edit-IsSoundAt (last_goal s) s u edit sound in
    elim (Result-cases (set_savings_goals env batch_id requests (no_goals env u))) [
      | inl (_, failed) ↦ absurd (ground arith)
      | inr (t, ran) ↦
          let started : u.admin ≢ none = λ gone. ground arith in
          let finishes : finish_goals env batch_id t ≡ ok s' = ground arith in
          let grown =
            set_savings_goals-IsGrown env batch_id requests (no_goals env u) t ran started sound' in
          let (admin, goals, prereqs, counter) = finish_goals_ok env batch_id t s' finishes in
          (
            counted-IsSound t.goal_id_counter t.state s' admin goals prereqs counter grown.sound,
            keeps_trans s t.state s' grown.keeps (same_keeps t.state s' goals),
          )
    ]

pub clone_savings_goal-IsKept :
    (env : Env) (caller : Address) (goal_id : ℕ) (name : Symbol) (s : State) (id : ℕ) (s' : State)
    → clone_savings_goal env caller goal_id name s ≡ ok (id, s')
    → IsSound s
    → IsKept s s'
unfolding clone_savings_goal checked_add_u64 cloned
clone_savings_goal-IsKept env caller goal_id name s id s' h sound =
    elim (Option-cases (s.goals goal_id)) [
      | inl missing ↦ absurd (ground arith)
      | inr (existing, stored) ↦
          let goal = cloned env id caller name existing in
          let next : id ≡ last_goal s + 1 = ground arith in
          let goals : s'.goals ≡ insert id goal s.goals = ground arith in
          let counter : s'.last_goal_id ≡ some id = ground arith in
          let sound' =
            fresh-IsSoundAt (last_goal s) id goal s s' next refl goals sound (ground arith)
              (ground arith) (λ gone. sound.not_started goal_id existing gone stored) in
          (
            subst (λ (o : Option ℕ). IsSoundAt (unwrap_or o 0) s') (sym counter) sound',
            fresh-KeepsGoals (last_goal s) id goal s s' next refl goals sound,
          )
    ]

pub initialize-IsKept :
    (admin : Address) (s s' : State) → initialize admin s ≡ ok s' → IsSound s → IsKept s s'
unfolding initialize
initialize-IsKept admin s s' h sound =
    let fresh : s.admin ≡ none = ground arith in
    let goals : s'.goals ≡ s.goals = ground arith in
    let prereqs : s'.goal_prereqs ≡ s.goal_prereqs = ground arith in
    let nothing = λ (k : ℕ) (goal : SavingsGoal) (stored : s'.goals k ≡ some goal).
      sound.not_started k goal fresh (ap (λ (m : Map SavingsGoal). m k) (sym goals) ∙ stored) in
    (
      record {
        own_id = λ k goal stored. absurd (nothing k goal stored);
        handed_out = λ k goal stored. absurd (nothing k goal stored);
        prereqs_of_goals = rw (goals, prereqs) sound.prereqs_of_goals;
        acyclic = rw prereqs sound.acyclic;
        not_started = λ k goal gone. nothing k goal;
      },
      same_keeps s s' goals,
    )

pub set_admin-IsKept :
    (env : Env) (current new : Address) (s s' : State)
    → set_admin env current new s ≡ ok s'
    → IsSound s
    → IsKept s s'
unfolding set_admin require_admin
set_admin-IsKept env current new s s' h sound =
    let goals : s'.goals ≡ s.goals = ground arith in
    let prereqs : s'.goal_prereqs ≡ s.goal_prereqs = ground arith in
    let counter : s'.last_goal_id ≡ s.last_goal_id = ground arith in
    let now : IsSoundAt (last_goal s) s' = record {
      own_id = rw goals sound.own_id;
      handed_out = rw goals sound.handed_out;
      prereqs_of_goals = rw (goals, prereqs) sound.prereqs_of_goals;
      acyclic = rw prereqs sound.acyclic;
      not_started = λ k goal gone. ground arith;
    } in
    (
      subst (λ (o : Option ℕ). IsSoundAt (unwrap_or o 0) s') (sym counter) now,
      same_keeps s s' goals,
    )
