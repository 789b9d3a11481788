-- ===== src/SavingsGoals/Edits.antt =====
-- contracts/savings-goals/src/lib.rs: calls that change goals in place.
use stellarspend_contracts.Common.{
  ℕ, ◌≡◌, ◌⊎◌, inl, inr, refl, sym, ap, ◌∙◌, Bool, some, Map, insert_at, insert_ne,
}
use native.Mathlib.Decide.{ℕ_discrete}
use stellarspend_contracts.Common.Int.{ℤ}
use stellarspend_contracts.Soroban.{Symbol}
use stellarspend_contracts.SavingsGoals.Types.{SavingsGoal, State, set_goal}
use stellarspend_contracts.SavingsGoals.Emission.{IsChecked, IsEmitted}

-- What no operation changes in a goal.
pub record SameTerms (goal goal' : SavingsGoal) : Type 0 where
  pub goal_id : goal'.goal_id ≡ goal.goal_id
  pub user : goal'.user ≡ goal.user
  pub target_amount : goal'.target_amount ≡ goal.target_amount
  pub deadline : goal'.deadline ≡ goal.deadline
  pub created_at : goal'.created_at ≡ goal.created_at
  pub unlock_at : goal'.unlock_at ≡ goal.unlock_at
  pub expires_at : goal'.expires_at ≡ goal.expires_at
  pub penalty_bps : goal'.penalty_bps ≡ goal.penalty_bps

-- The same goals are stored, with the same terms.
pub record IsEdit (s s' : State) : Type 0 where
  pub admin : s'.admin ≡ s.admin
  pub last_goal_id : s'.last_goal_id ≡ s.last_goal_id
  pub goal_prereqs : s'.goal_prereqs ≡ s.goal_prereqs
  pub goals :
      (k : ℕ)
      → (s'.goals k ≡ s.goals k)
        ⊎ ((goal : SavingsGoal) × (goal' : SavingsGoal) × (s.goals k ≡ some goal)
            × (s'.goals k ≡ some goal')
            × SameTerms goal goal')

pub SameTerms-trans : {a b c : SavingsGoal} → SameTerms a b → SameTerms b c → SameTerms a c
SameTerms-trans x y = record {
  goal_id = y.goal_id ∙ x.goal_id;
  user = y.user ∙ x.user;
  target_amount = y.target_amount ∙ x.target_amount;
  deadline = y.deadline ∙ x.deadline;
  created_at = y.created_at ∙ x.created_at;
  unlock_at = y.unlock_at ∙ x.unlock_at;
  expires_at = y.expires_at ∙ x.expires_at;
  penalty_bps = y.penalty_bps ∙ x.penalty_bps;
}

pub IsEdit-trans : {s u v : State} → IsEdit s u → IsEdit u v → IsEdit s v
IsEdit-trans x y = record {
  admin = y.admin ∙ x.admin;
  last_goal_id = y.last_goal_id ∙ x.last_goal_id;
  goal_prereqs = y.goal_prereqs ∙ x.goal_prereqs;
  goals = λ k. elim (x.goals k) [
    | inl same ↦ elim (y.goals k) [
      | inl same' ↦ inl (same' ∙ same)
      | inr (a, b, ea, eb, terms) ↦ inr (a, b, sym same ∙ ea, eb, terms)
    ]
    | inr (a, b, ea, eb, terms) ↦ elim (y.goals k) [
      | inl same' ↦ inr (a, b, ea, same' ∙ eb, terms)
      | inr (b', c, eb', ec, terms') ↦
          let one : b' ≡ b = cc in inr (a, c, ea, ec, SameTerms-trans terms (rw (← one) terms'))
    ]
  ];
}

pub set_goal-IsEdit :
    (goal_id : ℕ) (goal goal' : SavingsGoal) (s : State)
    → s.goals goal_id ≡ some goal
    → SameTerms goal goal'
    → IsEdit s (set_goal goal_id goal' s)
set_goal-IsEdit goal_id goal goal' s stored terms = record {
  admin = refl;
  last_goal_id = refl;
  goal_prereqs = refl;
  goals = λ k. elim (ℕ_discrete goal_id k) [
    | yes at ↦ inr (goal, goal', rw (← at) stored, insert_at goal_id k goal' s.goals at, terms)
    | no apart ↦ inl (insert_ne goal_id k goal' s.goals apart)
  ];
}

-- A call that leaves the goals and their books alone.
pub IsEdit-of :
    (s s' : State)
    → s'.admin ≡ s.admin
    → s'.last_goal_id ≡ s.last_goal_id
    → s'.goal_prereqs ≡ s.goal_prereqs
    → s'.goals ≡ s.goals
    → IsEdit s s'
IsEdit-of s s' admin last prereqs goals = record {
  admin = admin;
  last_goal_id = last;
  goal_prereqs = prereqs;
  goals = λ k. inl (ap (λ (m : Map SavingsGoal). m k) goals);
}

-- The name, the balance and the flags are not among the terms.
pub changed-SameTerms :
    (goal : SavingsGoal) (name : Symbol) (balance : ℤ) (is_complete is_active : Bool)
    → SameTerms goal (record goal {
      goal_name = name;
      current_amount = balance;
      is_complete = is_complete;
      is_active = is_active;
    })
changed-SameTerms goal name balance is_complete is_active = record {
  goal_id = refl;
  user = refl;
  target_amount = refl;
  deadline = refl;
  created_at = refl;
  unlock_at = refl;
  expires_at = refl;
  penalty_bps = refl;
}

pub SameTerms-refl : (goal : SavingsGoal) → SameTerms goal goal
SameTerms-refl goal = changed-SameTerms goal _ _ _ _

checked-SameTerms : (goal goal' : SavingsGoal) → IsChecked goal goal' → SameTerms goal goal'
checked-SameTerms goal goal' (inl e) = rw e (changed-SameTerms goal _ _ _ _)
checked-SameTerms goal goal' (inr e) = rw e (changed-SameTerms goal _ _ _ _)

pub emitted-IsEdit :
    (goal_id : ℕ) (goal : SavingsGoal) (s s' : State)
    → s.goals goal_id ≡ some goal
    → IsEmitted goal_id goal s s'
    → IsEdit s s'
emitted-IsEdit goal_id goal s s' stored e =
    let (goal', is_checked, after) = e.stored in
    record {
      admin = e.books.admin;
      last_goal_id = e.books.last_goal_id;
      goal_prereqs = e.books.goal_prereqs;
      goals = λ k. elim (ℕ_discrete goal_id k) [
        | yes at ↦ inr (
          goal,
          goal',
          rw (← at) stored,
          rw (← at) after,
          checked-SameTerms goal goal' is_checked,
        )
        | no apart ↦ inl (e.apart k apart)
      ];
    }
