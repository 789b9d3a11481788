-- ===== src/SpendingLimits/RollOver.antt =====
-- The totals of contracts/spending-limits/src/lib.rs over time: in which hours, days and months a
-- spend counts.
use stellarspend_contracts.Common.{
  ℕ, ◌<◌, ◌≡◌, ◌⊎◌, inl, inr, sym, none, some, true, Map, arith, insert_pair, unwrap_or, ==_self,
}
use native.Mathlib.Decide.{ℕ_discrete}
use stellarspend_contracts.Common.Int.{ℤ, pos, ◌+ℤ◌}
use stellarspend_contracts.Soroban.{Address, Env, ok}
use stellarspend_contracts.SpendingLimits.Types.{SpendingLimit, State}
use stellarspend_contracts.SpendingLimits.Enforcement.{
  window_id, current_totals, adapt_limit, enforce_spending_limit,
}
use stellarspend_contracts.SpendingLimits.Charges.{
  SameSpending, charge_ok, enforce_spending_limit_ok,
}
use stellarspend_contracts.SpendingLimits.Windows.{SameWindow, window_id-SameWindow}

-- The total of a user at a time.
abbrev total_at : (seconds : ℕ) → (Address → Map ℤ) → Address → ℕ → ℤ
total_at seconds m user t = unwrap_or (m user (window_id seconds t)) (pos 0)

-- A total that a spend of `user` at `t` adds to, as `user'` has it at `t'`: the spend counts for the
-- same user in the same window, and nowhere else.
abbrev pub IsAdded : (seconds : ℕ) (user user' : Address) (t t' : ℕ) (amount old new : ℤ) → Type 0
IsAdded seconds user user' t t' amount old new =
    ((user' ≡ user) × SameWindow seconds t t' × (new ≡ old +ℤ amount))
    ⊎ ((¬ ((user' ≡ user) × SameWindow seconds t t')) × (new ≡ old))

added :
    (seconds : ℕ) (m : Address → Map ℤ) (user user' : Address) (t t' : ℕ) (amount sum : ℤ)
    → 0 < seconds
    → 0 < t
    → 0 < t'
    → sum ≡ total_at seconds m user t +ℤ amount
    → IsAdded seconds user user' t t' amount
        (total_at seconds m user' t')
        (total_at seconds (insert_pair user (window_id seconds t) sum m) user' t')
added seconds m user user' t t' amount sum p q q' e =
    let (to, from) = window_id-SameWindow seconds t t' p q q' in
    elim (ℕ_discrete user user') [
      | no other ↦ inr (λ (same, _). other (sym same), ground arith)
      | yes own ↦ elim (ℕ_discrete (window_id seconds t) (window_id seconds t')) [
        | no other ↦ inr (λ (_, window). other (from window), ground arith)
        | yes numbers ↦ inl (
          sym own,
          to numbers,
          rw (← own, ← numbers, ==_self user, ==_self (window_id seconds t)) e,
        )
      ]
    ]

adapt_limit-SameSpending :
    (user : Address) (limit : SpendingLimit) (nm m : ℤ) (s u : State)
    → adapt_limit user limit nm s ≡ ok (m, u)
    → SameSpending s u
unfolding adapt_limit
adapt_limit-SameSpending user limit nm m s u h = ground arith

-- A spend without a category, of a user with an active limit, that is accepted at a positive time
-- counts for that user and no other: at every positive time in the same hour the total of the hour is
-- greater by the amount, likewise that of the day and of the month, and at every other positive time
-- it is as if the spend had not been.
pub enforce-rolls_over :
    (env env' : Env) (user user' : Address) (amount : ℤ) (l : SpendingLimit) (s s' : State)
    → 0 < env.timestamp
    → 0 < env'.timestamp
    → s.limits user ≡ some l
    → l.is_active ≡ true
    → enforce_spending_limit env user amount none s ≡ ok s'
    → (let old = current_totals env' user' s in
        let new = current_totals env' user' s' in
        IsAdded 3_600 user user' env.timestamp env'.timestamp amount old.hourly new.hourly
        × IsAdded 86_400 user user' env.timestamp env'.timestamp amount old.daily new.daily
        × IsAdded 2_592_000 user user' env.timestamp env'.timestamp amount old.monthly new.monthly)
enforce-rolls_over env env' user user' amount l s s' q q' el active h =
    let (_, how) = enforce_spending_limit_ok env user amount none s s' h in
    elim how [
      | inl (cat, given, _, _) ↦ absurd (ground arith)
      | inr (_, inl (inl unset, _)) ↦ absurd (ground arith)
      | inr (_, inl (inr (k, ek, dead), _)) ↦ absurd (ground arith)
      | inr (_, inr (k, ek, _, charged)) ↦
          let (new, m, u, (a, b, c, _, _, _), adapted, after) =
            charge_ok env user amount k s s' charged in
          let same = adapt_limit-SameSpending user k new.monthly m s u adapted in
          rw (after, same.hourly, same.daily, same.monthly)
            (
              added 3_600 s.hourly_spending user user' env.timestamp env'.timestamp amount
                  new.hourly (omega arith) q q' a,
              added 86_400 s.daily_spending user user' env.timestamp env'.timestamp amount new.daily
                  (omega arith) q q' b,
              added 2_592_000 s.monthly_spending user user' env.timestamp env'.timestamp amount
                  new.monthly (omega arith) q q' c,
            )
    ]
