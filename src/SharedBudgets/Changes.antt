-- ===== src/SharedBudgets/Changes.antt =====
-- What one call of contracts/shared-budgets/src/lib.rs may do to the place of a budget, stored or in the
-- archive.
use stellarspend_contracts.Common.{
  ℕ, ◌+◌, ◌≡◌, ◌≢◌, ◌≤◌, sym, ap, subst, ◌∙◌, true, false, Option, some, none, Map, insert,
  insert_at, insert_ne, unwrap_or,
}
use native.Mathlib.Decide.{ℕ_discrete}
use stellarspend_contracts.Common.Int.{pos, ◌≤ℤ◌}
use stellarspend_contracts.SharedBudgets.Types.{Budget, ArchivedBudget, State}

-- The balance is not negative, and what was contributed covers it.
abbrev pub IsFunded : Budget → Type 0
IsFunded x = (pos 0 ≤ℤ x.balance) × (x.balance ≤ℤ x.total_contributed)

-- What may become of the place of a budget, and of its place in the archive, if `next` is the next
-- number that is given out, and `last` the last one afterwards.
pub data Change (next last k : ℕ) (o o' : Option Budget) (a a' : Option ArchivedBudget)
    : Type 0 where
  same : o' ≡ o → a' ≡ a → Change next last k o o' a a'
  archived :
      (x : Budget) (z : ArchivedBudget)
      → o ≡ some x
      → x.is_active ≡ false
      → o' ≡ none
      → a' ≡ some z
      → z.budget ≡ x
      → Change next last k o o' a a'
  edited :
      (x y : Budget)
      → o ≡ some x
      → o' ≡ some y
      → y.balance ≡ x.balance
      → y.total_contributed ≡ x.total_contributed
      → (x.is_active ≡ false → y.is_active ≡ false)
      → a' ≡ a
      → Change next last k o o' a a'
  moved :
      (x y : Budget)
      → o ≡ some x
      → o' ≡ some y
      → x.is_active ≡ true
      → (IsFunded x → IsFunded y)
      → a' ≡ a
      → Change next last k o o' a a'
  created :
      (y : Budget)
      → k ≡ next
      → next ≤ last
      → o' ≡ some y
      → IsFunded y
      → y.is_active ≡ true
      → a' ≡ a
      → Change next last k o o' a a'

abbrev pub total : {L : Type 0} → State L → ℕ
total s = unwrap_or s.total_budgets_created 0

pub record IsStep {L : Type 0} (s s' : State L) : Type 0 where
  pub change :
      (k : ℕ)
      → Change
          (total s + 1)
          (total s')
          k
          (s.budgets k)
          (s'.budgets k)
          (s.archived_budgets k)
          (s'.archived_budgets k)
  pub grows : total s ≤ total s'
  pub started : s.admin ≢ none → s'.admin ≢ none

module _ {L : Type 0} where
  -- A call that writes one budget, or none.
  pub IsStep-of_insert :
      (id : ℕ) (y : Budget) (s s' : State L)
      → s'.budgets ≡ insert id y s.budgets
      → Change
          (total s + 1)
          (total s')
          id
          (s.budgets id)
          (some y)
          (s.archived_budgets id)
          (s.archived_budgets id)
      → total s ≤ total s'
      → s'.admin ≡ s.admin
      → s'.archived_budgets ≡ s.archived_budgets
      → IsStep s s'
  IsStep-of_insert id y s s' budgets change grows admin archive = record {
    change = λ k. elim (ℕ_discrete id k) [
      | yes at ↦
          let now : s'.budgets k ≡ some y =
            ap (λ (m : Map Budget). m k) budgets ∙ insert_at id k y s.budgets at in
          let kept : s'.archived_budgets k ≡ s.archived_budgets k =
            ap (λ (m : Map ArchivedBudget). m k) archive in
          let moved_to : Change (total s + 1) (total s') k (s.budgets k) (some y)
              (s.archived_budgets k) (s.archived_budgets k) =
            subst
              (λ i.
                Change (total s + 1) (total s') i (s.budgets i) (some y) (s.archived_budgets i)
                  (s.archived_budgets i))
              at change in
          subst
            (λ o.
              Change (total s + 1) (total s') k (s.budgets k) o (s.archived_budgets k)
                (s'.archived_budgets k))
            (sym now)
            (subst
              (λ a.
                Change (total s + 1) (total s') k (s.budgets k) (some y) (s.archived_budgets k) a)
              (sym kept) moved_to)
      | no apart ↦
          same (ap (λ (m : Map Budget). m k) budgets ∙ insert_ne id k y s.budgets apart)
            (ap (λ (m : Map ArchivedBudget). m k) archive)
    ];
    grows = grows;
    started = λ started gone. started (sym admin ∙ gone);
  }

  pub IsStep-of_same :
      (s s' : State L)
      → s'.budgets ≡ s.budgets
      → total s ≤ total s'
      → (s.admin ≢ none → s'.admin ≢ none)
      → s'.archived_budgets ≡ s.archived_budgets
      → IsStep s s'
  IsStep-of_same s s' budgets grows started archive = record {
    change = λ k.
        same (ap (λ (m : Map Budget). m k) budgets) (ap (λ (m : Map ArchivedBudget). m k) archive);
    grows = grows;
    started = started;
  }
