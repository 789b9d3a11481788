-- ===== src/SavingsGoals/Balances.antt =====
-- contracts/savings-goals/src/lib.rs: balances above a target, and the balances of a merge.
use stellarspend_contracts.Common.{
  ℕ, ◌≡◌, ◌∙◌, ◌≢◌, inl, inr, refl, true, false, some, insert_self, insert, arith, insert_ne,
  unwrap_or, sym,
}
use stellarspend_contracts.Common.Int.{
  ℤ, pos, ◌+ℤ◌, ◌-ℤ◌, ◌<ℤ◌, ◌≤ℤ◌, checked_add, saturate, i128_max, int_laws, ltb_ℤ,
}
use stellarspend_contracts.Soroban.{Address, Env, ok}
use stellarspend_contracts.SavingsGoals.Types.{
  SavingsGoal, ContributionRecord, State, Bytes, max_goal_amount,
}
use stellarspend_contracts.SavingsGoals.Funds.{contributed, actual_contribution, contribute_to_goal}
use stellarspend_contracts.SavingsGoals.Merging.{merge_goals, emptied, enlarged}
use stellarspend_contracts.SavingsGoals.Emission.{checked_keeps}
use stellarspend_contracts.SavingsGoals.Contributions.{contribute_ok, contribution_leaves}
use stellarspend_contracts.SavingsGoals.Reversals.{saturate_id, sum_cases}
use stellarspend_contracts.SavingsGoals.Merges.{merge_ok}

grows : (c a t : ℤ) → t <ℤ c → pos 0 <ℤ a → t <ℤ c +ℤ a
grows c a t above positive = omega int_laws

difference_negative : (t c : ℤ) → t <ℤ c → t -ℤ c <ℤ pos 0
difference_negative t c above = omega int_laws

lowered :
    (goal : SavingsGoal) (amount : ℤ)
    → pos 0 <ℤ amount
    → goal.target_amount <ℤ goal.current_amount
    → goal.current_amount ≤ℤ pos i128_max
    → pos 0 ≤ℤ goal.target_amount
    → goal.target_amount ≤ℤ max_goal_amount
    → ((contributed goal amount).current_amount ≡ goal.target_amount)
      × (actual_contribution goal amount ≡ goal.target_amount -ℤ goal.current_amount)
unfolding contributed actual_contribution
lowered goal amount positive above high target_low target_high =
    let t = goal.target_amount in
    let c = goal.current_amount in
    let n = unwrap_or (checked_add c amount) (pos i128_max) in
    let capped : ltb_ℤ t n ≡ true = elim (sum_cases c amount) [
      | inl top ↦ ground arith
      | inr sum ↦ let more = grows c amount t above positive in rw sum (ground arith)
    ] in
    let whole : saturate (t -ℤ c) ≡ t -ℤ c =
      saturate_id (t -ℤ c) (omega int_laws) (omega int_laws) in
    (rw capped refl, rw capped whole)

-- A contribution that succeeds, to a stored goal whose balance is above its target, at most the
-- largest i128, and whose target is between 0 and the largest goal amount, lowers the balance to
-- the target, and the record of the contribution has a negative amount.
pub contribute_above_target :
    (env : Env) (caller : Address) (goal_id : ℕ) (amount : ℤ) (token : Bytes) (s : State)
    (contrib_id : ℕ) (s' : State) (goal : SavingsGoal)
    → contribute_to_goal env caller goal_id amount token s ≡ ok (contrib_id, s')
    → s.goals goal_id ≡ some goal
    → goal.target_amount <ℤ goal.current_amount
    → goal.current_amount ≤ℤ pos i128_max
    → pos 0 ≤ℤ goal.target_amount
    → goal.target_amount ≤ℤ max_goal_amount
    → (goal' : SavingsGoal) × (record' : ContributionRecord) × (s'.goals goal_id ≡ some goal')
      × (goal'.current_amount ≡ goal.target_amount)
      × (s'.contributions goal_id contrib_id ≡ some record')
      × (record'.amount <ℤ pos 0)
contribute_above_target env caller goal_id amount token s contrib_id s' goal h stored above high
      target_low target_high =
    let c = contribute_ok env caller goal_id amount token s contrib_id s' h in
    let (goal', goal_stored, is_checked, found) =
      contribution_leaves env caller goal_id amount token s contrib_id s' c in
    let (_, _, balance, _) = checked_keeps (contributed c.goal amount) goal' is_checked in
    let same : c.goal ≡ goal = cc (c.stored, stored) in
    let (low, taken) = lowered goal amount c.positive above high target_low target_high in
    (
      goal',
      _,
      goal_stored,
      balance ∙ rw same low,
      found,
      rw (same, taken) (difference_negative goal.target_amount goal.current_amount above),
    )

-- A successful merge of two stored goals, the sum of whose balances is an i128 that is not negative,
-- moves the balance of the source to the target in full; the source is then empty and inactive, and
-- its mark of completion stays.
pub merge-conserves :
    (env : Env) (caller : Address) (source_id target_id : ℕ) (s s' : State)
    (source target : SavingsGoal)
    → merge_goals env caller source_id target_id s ≡ ok s'
    → s.goals source_id ≡ some source
    → s.goals target_id ≡ some target
    → source.current_amount +ℤ target.current_amount ≤ℤ pos i128_max
    → pos 0 ≤ℤ source.current_amount +ℤ target.current_amount
    → (source' : SavingsGoal) × (target' : SavingsGoal) × (s'.goals source_id ≡ some source')
      × (s'.goals target_id ≡ some target')
      × (source'.current_amount ≡ pos 0)
      × (source'.is_active ≡ false)
      × (source'.is_complete ≡ source.is_complete)
      × (target'.current_amount ≡ target.current_amount +ℤ source.current_amount)
merge-conserves env caller source_id target_id s s' source target h stored stored' high low =
    let m = merge_ok env caller source_id target_id s s' h in
    let ne : target_id ≢ source_id = λ p. m.apart (sym p) in
    let (s₁, emitted, published) = m.checked in
    let (target', is_checked, target_stored) = emitted.stored in
    let same : m.source ≡ source = cc (m.source_stored, stored) in
    let same' : m.target ≡ target = cc (m.target_stored, stored') in
    let (_, _, balance, _) = checked_keeps (enlarged env m.target m.source) target' is_checked in
    let whole : saturate (target.current_amount +ℤ source.current_amount)
        ≡ target.current_amount +ℤ source.current_amount =
      saturate_id (target.current_amount +ℤ source.current_amount) (omega int_laws)
        (omega int_laws) in
    (
      emptied env m.source,
      target',
      rw published (
          emitted.apart source_id ne
          ∙ (insert_ne target_id source_id (enlarged env m.target m.source)
                (insert source_id (emptied env m.source) s.goals) ne
              ∙ insert_self source_id (emptied env m.source) s.goals)),
      rw published target_stored,
      refl,
      refl,
      rw same refl,
      balance ∙ rw (same, same') whole,
    )
