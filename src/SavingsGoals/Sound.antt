-- ===== src/SavingsGoals/Sound.antt =====
-- The invariant of the storage of contracts/savings-goals/src/lib.rs, and the calls that keep it.
use stellarspend_contracts.Common.{
  ℕ, suc, ◌≡◌, ◌≤◌, ◌≢◌, inl, inr, refl, sym, ap, subst, ◌∙◌, Option, some, none, List, Map, arith,
  Option-cases, insert, unwrap_or, inserted_ne,
}
use native.Mathlib.Decide.{ℕ_discrete}
use stellarspend_contracts.Soroban.{Address, Env, ok}
use stellarspend_contracts.SavingsGoals.Types.{SavingsGoal, State}
use stellarspend_contracts.SavingsGoals.Prerequisites.{set_goal_prerequisites}
use stellarspend_contracts.SavingsGoals.Walks.{IsAcyclic}
use stellarspend_contracts.SavingsGoals.Cycles.{
  StoredBelow, set_goal_prerequisites-IsAcyclic, set_goal_prerequisites_ok,
}
use stellarspend_contracts.SavingsGoals.Edits.{SameTerms, SameTerms-refl, SameTerms-trans, IsEdit}

-- Every goal of a state is in a later one, with the same owner and terms.
abbrev pub KeepsGoals : State → State → Type 0
KeepsGoals s s' =
    (k : ℕ) (goal : SavingsGoal)
    → s.goals k ≡ some goal
    → (goal' : SavingsGoal) × (s'.goals k ≡ some goal') × SameTerms goal goal'

-- Goals are stored under their own number, which has been handed out; prerequisites belong to goals
-- and have no cycle; before the contract is initialized there is no goal.
pub record IsSoundAt (last : ℕ) (s : State) : Type 0 where
  pub own_id : (k : ℕ) (goal : SavingsGoal) → s.goals k ≡ some goal → goal.goal_id ≡ k
  pub handed_out : (k : ℕ) (goal : SavingsGoal) → s.goals k ≡ some goal → k ≤ last
  pub prereqs_of_goals :
      (k : ℕ) (ids : List ℕ)
      → s.goal_prereqs k ≡ some ids
      → (goal : SavingsGoal) × (s.goals k ≡ some goal)
  pub acyclic : IsAcyclic s.goal_prereqs
  pub not_started : (k : ℕ) (goal : SavingsGoal) → s.admin ≡ none → s.goals k ≢ some goal

abbrev pub last_goal : State → ℕ
last_goal s = unwrap_or s.last_goal_id 0

abbrev pub IsSound : State → Type 0
IsSound s = IsSoundAt (last_goal s) s

-- A successful call keeps the invariant, and every goal.
abbrev pub IsKept : State → State → Type 0
IsKept s s' = IsSound s' × KeepsGoals s s'

keeps_refl : (s : State) → KeepsGoals s s
keeps_refl s k goal stored = (goal, stored, SameTerms-refl goal)

pub keeps_trans : (s u v : State) → KeepsGoals s u → KeepsGoals u v → KeepsGoals s v
keeps_trans s u v x y k goal stored =
    let (a, ea, terms) = x k goal stored in
    let (b, eb, terms') = y k a ea in (b, eb, SameTerms-trans terms terms')

pub edit-KeepsGoals : (s s' : State) → IsEdit s s' → KeepsGoals s s'
edit-KeepsGoals s s' e k goal stored = elim (e.goals k) [
  | inl same ↦ (goal, same ∙ stored, SameTerms-refl goal)
  | inr (a, b, ea, eb, terms) ↦ let one : a ≡ goal = cc in (b, eb, rw (← one) terms)
]

edited_before :
    (s s' : State)
    → IsEdit s s'
    → (k : ℕ) (goal' : SavingsGoal) → s'.goals k ≡ some goal'
    → (goal : SavingsGoal) × (s.goals k ≡ some goal) × (goal'.goal_id ≡ goal.goal_id)
edited_before s s' e k goal' stored = elim (e.goals k) [
  | inl same ↦ (goal', sym same ∙ stored, refl)
  | inr (a, b, ea, eb, terms) ↦ let one : b ≡ goal' = cc in (a, ea, rw (← one) terms.goal_id)
]

pub edit-IsSoundAt : (last : ℕ) (s s' : State) → IsEdit s s' → IsSoundAt last s → IsSoundAt last s'
edit-IsSoundAt last s s' e sound = record {
  own_id = λ k goal' stored.
      let (goal, before, same) = edited_before s s' e k goal' stored in
      same ∙ sound.own_id k goal before;
  handed_out = λ k goal' stored.
      let (goal, before, same) = edited_before s s' e k goal' stored in
      sound.handed_out k goal before;
  prereqs_of_goals = λ k ids found.
      let (goal, stored) =
        sound.prereqs_of_goals k ids
          (ap (λ (m : Map (List ℕ)). m k) (sym e.goal_prereqs) ∙ found) in
      let (goal', stored', _) = edit-KeepsGoals s s' e k goal stored in (goal', stored');
  acyclic = rw e.goal_prereqs sound.acyclic;
  not_started = λ k goal' none_yet stored.
      let (goal, before, same) = edited_before s s' e k goal' stored in
      sound.not_started k goal (sym e.admin ∙ none_yet) before;
}

pub edit-IsKept : (s s' : State) → IsEdit s s' → IsSound s → IsKept s s'
edit-IsKept s s' e sound = (
  subst (λ (o : Option ℕ). IsSoundAt (unwrap_or o 0) s') (sym e.last_goal_id)
      (edit-IsSoundAt (last_goal s) s s' e sound),
  edit-KeepsGoals s s' e,
)

pub set_goal_prerequisites-IsKept :
    (fuel : ℕ) (env : Env) (caller : Address) (goal_id : ℕ) (ids : List ℕ) (s s' : State)
    → set_goal_prerequisites fuel env caller goal_id ids s ≡ ok s'
    → IsSound s
    → IsKept s s'
set_goal_prerequisites-IsKept fuel env caller goal_id ids s s' h sound =
    let (goal, stored, _, _, _, e) = set_goal_prerequisites_ok fuel env caller goal_id ids s s' h in
    let acyclic =
      set_goal_prerequisites-IsAcyclic fuel env caller goal_id ids s s' sound.acyclic h in
    let u = record s { goal_prereqs = insert goal_id ids s.goal_prereqs } in
    let acyclic' : IsAcyclic u.goal_prereqs =
      subst (λ (x : State). IsAcyclic x.goal_prereqs) e acyclic in
    let sound' : IsSound u = record {
      own_id = sound.own_id;
      handed_out = sound.handed_out;
      prereqs_of_goals = λ k ids' found. elim (ℕ_discrete goal_id k) [
        | yes at ↦ (goal, rw (← at) stored)
        | no apart ↦
            sound.prereqs_of_goals k ids'
              (inserted_ne goal_id k ids ids' s.goal_prereqs apart found)
      ];
      acyclic = acyclic';
      not_started = sound.not_started;
    } in
    subst (λ x. IsKept s x) (sym e) (sound', keeps_refl s)

-- Nothing is stored as a prerequisite beyond the last goal.
pub sound-StoredBelow : (s : State) → IsSound s → StoredBelow (suc (last_goal s)) s
sound-StoredBelow s sound n high = elim (Option-cases (s.goal_prereqs n)) [
  | inl free ↦ free
  | inr (ids, found) ↦
      let (goal, stored) = sound.prereqs_of_goals n ids found in
      let low = sound.handed_out n goal stored in absurd (omega arith)
]
