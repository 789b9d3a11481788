-- ===== src/SavingsGoals/Emission.antt =====
-- What `check_and_emit_milestones` of contracts/savings-goals/src/lib.rs does to the goals, and what
-- it leaves alone.
use stellarspend_contracts.Common.{
  ℕ, ◌≡◌, ◌⊎◌, ◌≢◌, inl, inr, refl, ap, ◌∙◌, false, ◌&&◌, some, List, [], ◌∷◌, Map, arith,
  Bool-cases,
}
use stellarspend_contracts.Common.Int.{leb_ℤ}
use stellarspend_contracts.Soroban.{Env, ok, Result-cases}
use stellarspend_contracts.SavingsGoals.Types.{SavingsGoal, State}
use stellarspend_contracts.SavingsGoals.Milestones.{
  Emission, progress_of, cap_100, refreshed, refresh_complete, triggered_percents, emit_milestone,
  emit_milestones, all_milestones, close_goal, issue_certificate, finish_milestones, check_goal,
  check_and_emit_milestones,
}

-- The books that a check of the milestones does not touch.
pub record SameBooks (s s' : State) : Type 0 where
  pub admin : s'.admin ≡ s.admin
  pub last_goal_id : s'.last_goal_id ≡ s.last_goal_id
  pub goal_prereqs : s'.goal_prereqs ≡ s.goal_prereqs
  pub contributions : s'.contributions ≡ s.contributions
  pub last_contrib_id : s'.last_contrib_id ≡ s.last_contrib_id
  pub contribution_idempotency : s'.contribution_idempotency ≡ s.contribution_idempotency
  pub user_goals : s'.user_goals ≡ s.user_goals
  pub goal_by_name : s'.goal_by_name ≡ s.goal_by_name

-- The loop over the milestones only publishes.
emit_milestone_state :
    (goal_id progress milestone : ℕ) (e : Emission)
    → (emit_milestone goal_id progress milestone e).state
      ≡ record e.state { events = (emit_milestone goal_id progress milestone e).state.events }
unfolding emit_milestone
emit_milestone_state goal_id progress milestone e = ground arith

emit_milestones_state :
    (goal_id progress : ℕ) (milestones : List ℕ) (e : Emission)
    → (emit_milestones goal_id progress milestones e).state
      ≡ record e.state { events = (emit_milestones goal_id progress milestones e).state.events }
unfolding emit_milestones
emit_milestones_state goal_id progress [] e = refl
emit_milestones_state goal_id progress (m ∷ ms) e =
    let one = emit_milestone_state goal_id progress m e in
    let rest = emit_milestones_state goal_id progress ms (emit_milestone goal_id progress m e) in
    ground arith

-- The goal behind a check: its completion is up to date, and it may have been closed.
abbrev pub IsChecked : SavingsGoal → SavingsGoal → Type 0
IsChecked goal goal' =
    (goal' ≡ refreshed goal) ⊎ (goal' ≡ record (refreshed goal) { is_active = false })

-- A check keeps the owner, the terms and the balance.
pub checked_keeps :
    (goal goal' : SavingsGoal)
    → IsChecked goal goal'
    → (goal'.user ≡ goal.user)
      × (goal'.target_amount ≡ goal.target_amount)
      × (goal'.current_amount ≡ goal.current_amount)
      × (goal'.is_complete ≡ leb_ℤ goal.target_amount goal.current_amount)
checked_keeps goal goal' (inl e) = (ground arith, ground arith, ground arith, ground arith)
checked_keeps goal goal' (inr e) = (ground arith, ground arith, ground arith, ground arith)

pub record IsEmitted (goal_id : ℕ) (goal : SavingsGoal) (s s' : State) : Type 0 where
  pub books : SameBooks s s'
  pub stored : (goal' : SavingsGoal) × IsChecked goal goal' × (s'.goals goal_id ≡ some goal')
  pub apart : (k : ℕ) → goal_id ≢ k → s'.goals k ≡ s.goals k

finish_books :
    (env : Env) (goal_id : ℕ) (goal : SavingsGoal) (e : Emission)
    → SameBooks e.state (finish_milestones env goal_id goal e)
unfolding finish_milestones close_goal issue_certificate
finish_books env goal_id goal e = record {
  admin = ground arith;
  last_goal_id = ground arith;
  goal_prereqs = ground arith;
  contributions = ground arith;
  last_contrib_id = ground arith;
  contribution_idempotency = ground arith;
  user_goals = ground arith;
  goal_by_name = ground arith;
}

finish_stored :
    (env : Env) (goal_id : ℕ) (goal : SavingsGoal) (e : Emission)
    → e.state.goals goal_id ≡ some goal
    → (goal' : SavingsGoal) × ((goal' ≡ goal) ⊎ (goal' ≡ record goal { is_active = false }))
      × ((finish_milestones env goal_id goal e).goals goal_id ≡ some goal')
unfolding finish_milestones close_goal issue_certificate
finish_stored env goal_id goal e h = elim (Bool-cases (e.newly_triggered_100 && goal.is_active)) [
  | inl closes ↦ (record goal { is_active = false }, inr refl, ground arith)
  | inr stays ↦ (goal, inl refl, ground arith)
]

finish_apart :
    (env : Env) (goal_id : ℕ) (goal : SavingsGoal) (e : Emission) (k : ℕ)
    → goal_id ≢ k
    → (finish_milestones env goal_id goal e).goals k ≡ e.state.goals k
unfolding finish_milestones close_goal issue_certificate
finish_apart env goal_id goal e k h = ground arith

refresh_books :
    (goal_id : ℕ) (goal : SavingsGoal) (s : State) → SameBooks s (refresh_complete goal_id goal s)
unfolding refresh_complete
refresh_books goal_id goal s = record {
  admin = ground arith;
  last_goal_id = ground arith;
  goal_prereqs = ground arith;
  contributions = ground arith;
  last_contrib_id = ground arith;
  contribution_idempotency = ground arith;
  user_goals = ground arith;
  goal_by_name = ground arith;
}

pub refresh_stored :
    (goal_id : ℕ) (goal : SavingsGoal) (s : State)
    → s.goals goal_id ≡ some goal
    → (refresh_complete goal_id goal s).goals goal_id ≡ some (refreshed goal)
unfolding refresh_complete
refresh_stored goal_id goal s h = ground arith

refresh_apart :
    (goal_id : ℕ) (goal : SavingsGoal) (s : State) (k : ℕ)
    → goal_id ≢ k
    → (refresh_complete goal_id goal s).goals k ≡ s.goals k
unfolding refresh_complete
refresh_apart goal_id goal s k h = ground arith

SameBooks-trans : {s u v : State} → SameBooks s u → SameBooks u v → SameBooks s v
SameBooks-trans x y = record {
  admin = y.admin ∙ x.admin;
  last_goal_id = y.last_goal_id ∙ x.last_goal_id;
  goal_prereqs = y.goal_prereqs ∙ x.goal_prereqs;
  contributions = y.contributions ∙ x.contributions;
  last_contrib_id = y.last_contrib_id ∙ x.last_contrib_id;
  contribution_idempotency = y.contribution_idempotency ∙ x.contribution_idempotency;
  user_goals = y.user_goals ∙ x.user_goals;
  goal_by_name = y.goal_by_name ∙ x.goal_by_name;
}

module _ (env : Env) (goal_id : ℕ) (goal : SavingsGoal) (s : State) where
  -- The state of a check behind its loop.
  abbrev pub emission : ℕ → Emission
  emission progress = emit_milestones goal_id (cap_100 progress) all_milestones (record {
    triggered = triggered_percents s goal_id;
    newly_triggered_100 = false;
    state = refresh_complete goal_id goal s;
  })

  emission_books :
      (progress : ℕ) → SameBooks (refresh_complete goal_id goal s) (emission progress).state
  emission_books progress =
      let same = emit_milestones_state goal_id (cap_100 progress) all_milestones (record {
        triggered = triggered_percents s goal_id;
        newly_triggered_100 = false;
        state = refresh_complete goal_id goal s;
      }) in
      record {
        admin = ap (λ (u : State). u.admin) same;
        last_goal_id = ap (λ (u : State). u.last_goal_id) same;
        goal_prereqs = ap (λ (u : State). u.goal_prereqs) same;
        contributions = ap (λ (u : State). u.contributions) same;
        last_contrib_id = ap (λ (u : State). u.last_contrib_id) same;
        contribution_idempotency = ap (λ (u : State). u.contribution_idempotency) same;
        user_goals = ap (λ (u : State). u.user_goals) same;
        goal_by_name = ap (λ (u : State). u.goal_by_name) same;
      }

  pub emission_goals :
      (progress : ℕ) → (emission progress).state.goals ≡ (refresh_complete goal_id goal s).goals
  emission_goals progress =
      let same = emit_milestones_state goal_id (cap_100 progress) all_milestones (record {
        triggered = triggered_percents s goal_id;
        newly_triggered_100 = false;
        state = refresh_complete goal_id goal s;
      }) in
      ap (λ (u : State). u.goals) same

  -- What a check does: it brings the goal up to date.
  pub check_and_emit_ok :
      (s' : State)
      → s.goals goal_id ≡ some goal
      → check_and_emit_milestones env goal_id s ≡ ok s'
      → IsEmitted goal_id goal s s'
  unfolding check_and_emit_milestones check_goal
  check_and_emit_ok s' stored h = elim (Result-cases (progress_of goal)) [
    | inl (_, over) ↦ absurd (ground arith)
    | inr (progress, known) ↦
        let done : s' ≡ finish_milestones env goal_id (refreshed goal) (emission progress) =
          ground arith in
        let before = emission_goals progress in
        let current : (emission progress).state.goals goal_id ≡ some (refreshed goal) =
          rw before (refresh_stored goal_id goal s stored) in
        let books = SameBooks-trans (refresh_books goal_id goal s) (
          SameBooks-trans (emission_books progress)
            (finish_books env goal_id (refreshed goal) (emission progress))) in
        let ends = finish_stored env goal_id (refreshed goal) (emission progress) current in
        rw done (record {
          books = books;
          stored = ends;
          apart = λ k ne.
              finish_apart env goal_id (refreshed goal) (emission progress) k ne
              ∙ (ap (λ (m : Map SavingsGoal). m k) before ∙ refresh_apart goal_id goal s k ne);
        })
  ]
