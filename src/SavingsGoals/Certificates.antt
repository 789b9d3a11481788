-- ===== src/SavingsGoals/Certificates.antt =====
-- contracts/savings-goals/src/lib.rs: when `check_and_emit_milestones` closes a goal and issues its
-- certificate.
use stellarspend_contracts.Common.{
  ℕ, suc, ◌*◌, ◌-◌, ◌/◌, ◌^◌, ◌≡◌, ◌≤◌, ◌<◌, inl, inr, refl, sym, subst, true, false, some, ◌==◌,
  arith, Bool-cases, contains,
}
use stellarspend_contracts.Common.Int.{
  pos, negsuc, ◌<ℤ◌, checked_mul, i128_max, ◌*ℤ◌, div_ℤ, to_u32, ltb_ℤ, sub_ℕ, fits_i128,
}
use stellarspend_contracts.Soroban.{Env, ok, mul_i128}
use stellarspend_contracts.SavingsGoals.Types.{SavingsGoal, SavingsGoalError, State}
use stellarspend_contracts.SavingsGoals.Validation.{is_set}
use stellarspend_contracts.SavingsGoals.Milestones.{
  Emission, refresh_complete, progress_of, cap_100, refreshed, triggered_percents, emit_milestone,
  emit_milestones, all_milestones, close_goal, issue_certificate, finish_milestones, check_goal,
  check_and_emit_milestones,
}
use stellarspend_contracts.SavingsGoals.Fuel.{contains-push_back}
use stellarspend_contracts.SavingsGoals.Emission.{emission, emission_goals, refresh_stored}

-- A lower milestone leaves the last one open.
emit_lower :
    (goal_id milestone : ℕ) (e : Emission)
    → (milestone == 100) ≡ false
    → contains e.triggered 100 ≡ false
    → contains (emit_milestone goal_id 100 milestone e).triggered 100 ≡ false
unfolding emit_milestone
emit_lower goal_id milestone e lower fresh =
    let after = contains-push_back e.triggered milestone 100 in ground arith

emit_last :
    (goal_id : ℕ) (e : Emission)
    → contains e.triggered 100 ≡ false
    → ((emit_milestone goal_id 100 100 e).newly_triggered_100 ≡ true)
      × (contains (emit_milestone goal_id 100 100 e).triggered 100 ≡ true)
unfolding emit_milestone
emit_last goal_id e fresh =
    let after = contains-push_back e.triggered 100 100 in (ground arith, ground arith)

emit_all :
    (goal_id : ℕ) (e : Emission)
    → contains e.triggered 100 ≡ false
    → ((emit_milestones goal_id 100 all_milestones e).newly_triggered_100 ≡ true)
      × (contains (emit_milestones goal_id 100 all_milestones e).triggered 100 ≡ true)
unfolding emit_milestones
emit_all goal_id e fresh =
    let e₁ = emit_milestone goal_id 100 25 e in
    let e₂ = emit_milestone goal_id 100 50 e₁ in
    let e₃ = emit_milestone goal_id 100 75 e₂ in
    emit_last goal_id e₃ (
      emit_lower goal_id 75 e₂ refl
        (emit_lower goal_id 50 e₁ refl (emit_lower goal_id 25 e refl fresh)))

-- A goal that is closed, with a certificate, and the last milestone on record.
pub record IsCertified (goal_id : ℕ) (s : State) : Type 0 where
  pub goal : SavingsGoal
  pub stored : s.goals goal_id ≡ some goal
  pub closed : goal.is_active ≡ false
  pub certified : is_set (s.certificates goal_id) ≡ true
  pub on_record : contains (triggered_percents s goal_id) 100 ≡ true

finish_certifies :
    (env : Env) (goal_id : ℕ) (goal : SavingsGoal) (e : Emission)
    → e.state.goals goal_id ≡ some goal
    → e.newly_triggered_100 ≡ true
    → contains e.triggered 100 ≡ true
    → IsCertified goal_id (finish_milestones env goal_id goal e)
unfolding finish_milestones close_goal issue_certificate
finish_certifies env goal_id goal e stored newly on_record = record {
  goal = record goal { is_active = false };
  stored = elim (Bool-cases goal.is_active) [ inl live ↦ ground arith | inr dead ↦ ground arith ];
  closed = refl;
  certified = ground arith;
  on_record = ground arith;
}

hundredfold_lem : (m : ℕ) → negsuc m *ℤ pos 100 ≡ negsuc (suc m * 100 - 1)
unfolding ◌*ℤ◌
hundredfold_lem m = ground arith

quotient_lem : (m d : ℕ) → div_ℤ (negsuc (suc m * 100 - 1)) d ≡ sub_ℕ 0 (suc m * 100 / d)
unfolding div_ℤ
quotient_lem m d = let same : suc (suc m * 100 - 1) ≡ suc m * 100 = omega arith in rw same refl

wrap_lem : (d : ℕ) → 0 < d → d ≤ 2 ^ 32 - 100 → 100 ≤ to_u32 (sub_ℕ 0 d)
unfolding to_u32
wrap_lem d low high = ground arith

product_lem :
    (m : ℕ)
    → suc m * 100 ≤ i128_max
    → mul_i128 {E = SavingsGoalError} (negsuc m) (pos 100) ≡ ok (negsuc (suc m * 100 - 1))
unfolding checked_mul fits_i128
product_lem m fits = rw (hundredfold_lem m) (ground arith)

-- A progress below zero is cast to a `u32` near the end of its range.
overdrawn_progress :
    (goal : SavingsGoal) (owed target : ℕ)
    → goal.current_amount ≡ negsuc owed
    → goal.target_amount ≡ pos (suc target)
    → suc owed * 100 ≤ i128_max
    → 0 < suc owed * 100 / suc target
    → suc owed * 100 / suc target ≤ 2 ^ 32 - 100
    → (progress : ℕ) × (progress_of goal ≡ ok progress) × (100 ≤ progress)
unfolding progress_of
overdrawn_progress goal owed target balance goal_target fits low high =
    let product : mul_i128 (negsuc owed) (pos 100) ≡ ok (negsuc (suc owed * 100 - 1)) =
      product_lem owed fits in
    let progress = to_u32 (sub_ℕ 0 (suc owed * 100 / suc target)) in
    let quotient = quotient_lem owed (suc target) in
    let positive : ltb_ℤ (pos 0) (pos (suc target)) ≡ true = ground arith in
    (progress, rw (balance, goal_target, product, quotient, positive) refl, wrap_lem _ low high)

module _ (env : Env) (goal_id : ℕ) (goal : SavingsGoal) (s s' : State) where
  -- The first check that computes a progress of 100 or more closes the goal and certifies it.
  pub check-IsCertified :
      (progress : ℕ)
      → s.goals goal_id ≡ some goal
      → contains (triggered_percents s goal_id) 100 ≡ false
      → progress_of goal ≡ ok progress
      → 100 ≤ progress
      → check_and_emit_milestones env goal_id s ≡ ok s'
      → IsCertified goal_id s'
  unfolding check_and_emit_milestones check_goal
  check-IsCertified progress stored fresh known high h =
      let capped : cap_100 progress ≡ 100 = ground arith in
      let e = emission env goal_id goal s progress in
      let done : s' ≡ finish_milestones env goal_id (refreshed goal) e = ground arith in
      let start : Emission = record {
        triggered = triggered_percents s goal_id;
        newly_triggered_100 = false;
        state = refresh_complete goal_id goal s;
      } in
      let (newly, on_record) =
        subst
          (λ p.
            ((emit_milestones goal_id p all_milestones start).newly_triggered_100 ≡ true)
            × (contains (emit_milestones goal_id p all_milestones start).triggered 100 ≡ true))
          (sym capped) (emit_all goal_id start fresh) in
      let current : e.state.goals goal_id ≡ some (refreshed goal) =
        rw (emission_goals env goal_id goal s progress) (refresh_stored goal_id goal s stored) in
      rw done (finish_certifies env goal_id (refreshed goal) e current newly on_record)

  -- The check of a stored goal whose balance is negative, by one percent of its positive target or
  -- more and by no more than the casts to i128 and u32 allow, closes the goal, issues its certificate
  -- and records the milestone of 100 percent, if that milestone was not recorded before.
  pub overdrawn-IsCertified :
      (owed target : ℕ)
      → s.goals goal_id ≡ some goal
      → contains (triggered_percents s goal_id) 100 ≡ false
      → goal.current_amount ≡ negsuc owed
      → goal.target_amount ≡ pos (suc target)
      → suc owed * 100 ≤ i128_max
      → 0 < suc owed * 100 / suc target
      → suc owed * 100 / suc target ≤ 2 ^ 32 - 100
      → check_and_emit_milestones env goal_id s ≡ ok s'
      → (goal.current_amount <ℤ pos 0) × IsCertified goal_id s'
  overdrawn-IsCertified owed target stored fresh balance goal_target fits low high h =
      let (progress, known, big) =
        overdrawn_progress goal owed target balance goal_target fits low high in
      (rw balance (ground arith), check-IsCertified progress stored fresh known big h)
