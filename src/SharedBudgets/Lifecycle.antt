-- ===== src/SharedBudgets/Lifecycle.antt =====
-- The life of a budget of contracts/shared-budgets/src/lib.rs, as an abstract machine: a number that
-- is not given out yet, an open budget, an inactive one, and one that only the archive has.
use stellarspend_contracts.Common.{
  ℕ, ◌+◌, ◌≡◌, ◌≢◌, ◌≤◌, inl, inr, sym, ◌∙◌, false, Option, some, none, List, arith, Option-cases,
  Bool-cases, if◌then◌else◌,
}
use stellarspend_contracts.Common.Int.{ℤ}
use stellarspend_contracts.Soroban.{Env, Token}
use stellarspend_contracts.SharedBudgets.Types.{Budget, ArchivedBudget, State}
use stellarspend_contracts.SharedBudgets.Changes.{
  Change, same, archived, edited, moved, created, IsStep, total,
}
use stellarspend_contracts.SharedBudgets.Calls.{BudgetCall, try_calls, try_calls-keeps}

-- A budget that is shut, and the record of one in the archive, has a balance.
pub data Phase : Type 0 where
  unborn open' : Phase
  shut filed : ℤ → Phase

-- One step of the machine. A budget is born open; it may be shut with some balance, and a shut one may
-- be filed with its balance. Nothing else happens.
pub data Next : Phase → Phase → Type 0 where
  born : Next unborn open'
  shuts : (balance : ℤ) → Next open' (shut balance)
  files : (balance : ℤ) → Next (shut balance) (filed balance)

-- Any number of steps.
pub data Leads : Phase → Phase → Type 0 where
  stays : (p : Phase) → Leads p p
  then_next : (p q r : Phase) → Leads p q → Next q r → Leads p r

Leads-trans : (p q r : Phase) → Leads p q → Leads q r → Leads p r
Leads-trans p _ _ pq (stays _) = pq
Leads-trans p _ _ pq (then_next q q' r qq' step) = then_next p q' r (Leads-trans p q q' pq qq') step

once : (p q : Phase) → Next p q → Leads p q
once p q step = then_next p p q (stays p) step

-- The phase of a number with these places among the budgets and in the archive.
abbrev pub phase : Option Budget → Option ArchivedBudget → Phase
phase (some x) a = if x.is_active then open' else shut x.balance
phase none (some z) = filed z.budget.balance
phase none none = unborn

abbrev pub phase_of : {L : Type 0} → ℕ → State L → Phase
phase_of k s = phase (s.budgets k) (s.archived_budgets k)

stored-Leads :
    (a a' : Option ArchivedBudget) (x y : Budget)
    → (x.is_active ≡ false → y.is_active ≡ false)
    → (x.is_active ≡ false → y.balance ≡ x.balance)
    → Leads (phase (some x) a) (phase (some y) a')
stored-Leads a a' x y dead same_balance = elim (Bool-cases x.is_active) [
  | inl active ↦ elim (Bool-cases y.is_active) [
    | inl active' ↦ rw (active, active') (stays open')
    | inr shut' ↦ rw (active, shut') (once open' (shut y.balance) (shuts y.balance))
  ]
  | inr inactive ↦ rw (inactive, dead inactive, same_balance inactive) (stays (shut x.balance))
]

change-Leads :
    (next last k : ℕ) (o o' : Option Budget) (a a' : Option ArchivedBudget)
    → Change next last k o o' a a'
    → (k ≡ next → (o ≡ none) × (a ≡ none))
    → Leads (phase o a) (phase o' a')
change-Leads next last k o o' a a' (same e kept) fresh = rw (e, kept) (stays (phase o a))
change-Leads next last k o o' a a' (archived x z stored inactive gone filed' held) fresh =
    rw (stored, gone, filed', inactive, held)
      (once (shut x.balance) (filed x.balance) (files x.balance))
change-Leads next last k o o' a a' (edited x y stored now balance sum dead kept) fresh =
    rw (stored, now) (stored-Leads a a' x y dead (λ i. balance))
change-Leads next last k o o' a a' (moved x y stored now active keeps kept) fresh =
    rw (stored, now)
      (stored-Leads a a' x y (λ i. absurd (ground arith)) (λ i. absurd (ground arith)))
change-Leads next last k o o' a a' (created y at counted now funded active kept) fresh =
    let (missing, unfiled) = fresh at in rw (missing, unfiled, now, active) (once unborn open' born)

-- The number of a budget that is stored or in the archive has been given out, and the contract has an
-- admin.
pub record IsKnown {L : Type 0} (k : ℕ) (s : State L) : Type 0 where
  pub given_out : (x : Budget) → s.budgets k ≡ some x → k ≤ total s
  pub filed_before : (z : ArchivedBudget) → s.archived_budgets k ≡ some z → k ≤ total s
  pub started : s.admin ≢ none

-- The next number is in neither place.
next-fresh :
    {L : Type 0} (k : ℕ) (s : State L)
    → IsKnown k s
    → k ≡ total s + 1
    → (s.budgets k ≡ none) × (s.archived_budgets k ≡ none)
next-fresh k s known at = (
  elim (Option-cases (s.budgets k)) [
    | inl missing ↦ missing
    | inr (x, stored) ↦ let low = known.given_out x stored in absurd (omega arith)
  ],
  elim (Option-cases (s.archived_budgets k)) [
    | inl missing ↦ missing
    | inr (z, filed') ↦ let low = known.filed_before z filed' in absurd (omega arith)
  ],
)

step-Leads :
    {L : Type 0} (k : ℕ) (s s' : State L)
    → IsStep s s'
    → IsKnown k s
    → Leads (phase_of k s) (phase_of k s')
step-Leads k s s' step known =
    change-Leads (total s + 1) (total s') k (s.budgets k) (s'.budgets k) (s.archived_budgets k)
      (s'.archived_budgets k) (step.change k) (next-fresh k s known)

known_after :
    (next last k : ℕ) (o o' : Option Budget) (a a' : Option ArchivedBudget) (low : ℕ)
    → Change next last k o o' a a'
    → ((x : Budget) → o ≡ some x → k ≤ low)
    → ((z : ArchivedBudget) → a ≡ some z → k ≤ low)
    → low ≤ last
    → ((y : Budget) → o' ≡ some y → k ≤ last) × ((z : ArchivedBudget) → a' ≡ some z → k ≤ last)
known_after next last k o o' a a' low (same e kept) known filed' grows = (
  λ y now. let old = known y (sym e ∙ now) in omega arith,
  λ z now. let old = filed' z (sym kept ∙ now) in omega arith,
)
known_after next last k o o' a a' low (archived x r stored inactive gone put held) known filed'
      grows =
    let old = known x stored in (λ y now. omega arith, λ z now. omega arith)
known_after next last k o o' a a' low (edited x z stored after balance sum dead kept) known filed'
      grows =
    let old = known x stored in (λ y now. omega arith, λ r now. omega arith)
known_after next last k o o' a a' low (moved x z stored after active keeps kept) known filed'
      grows =
    let old = known x stored in (λ y now. omega arith, λ r now. omega arith)
known_after next last k o o' a a' low (created z at counted after funded active kept) known filed'
      grows =
    (λ y now. omega arith, λ r now. omega arith)

step-IsKnown : {L : Type 0} (k : ℕ) (s s' : State L) → IsStep s s' → IsKnown k s → IsKnown k s'
step-IsKnown k s s' step known =
    let (given_out, filed') =
      known_after (total s + 1) (total s') k (s.budgets k) (s'.budgets k) (s.archived_budgets k)
        (s'.archived_budgets k) (total s) (step.change k) known.given_out known.filed_before
        step.grows in
    record { given_out = given_out; filed_before = filed'; started = step.started known.started }

-- In a contract with an admin, where every number in use has been given out, every sequence of calls
-- takes each number along the machine, by any number of its steps: a budget is born open, may be shut
-- with a balance, which then never changes, and may then be filed: it is not stored any more, and the
-- archive has it with that balance. Nothing leads back, and a number is never given out twice.
pub try_calls-Leads :
    (tok : Token) (calls : List (Env × BudgetCall)) (k : ℕ) (s : State tok.Ledger)
    → IsKnown k s
    → Leads (phase_of k s) (phase_of k (try_calls tok calls s))
try_calls-Leads tok calls k s known =
    (try_calls-keeps tok (λ u. IsKnown k u × Leads (phase_of k s) (phase_of k u))
      (λ s₁ s₂ step (known', leads). (
        step-IsKnown k s₁ s₂ step known',
        Leads-trans (phase_of k s) (phase_of k s₁) (phase_of k s₂) leads
            (step-Leads k s₁ s₂ step known'),
      ))
      (λ s₁ holds. holds.0.started) calls s (known, stays (phase_of k s))).1
