-- ===== src/SpendingLimits/Caps.antt =====
-- The totals of contracts/spending-limits/src/lib.rs stay within the limits, whatever spends are tried.
use native.Mathlib.Decide.{ℕ_discrete}
use stellarspend_contracts.Common.{
  ℕ, ◌≡◌, ◌≢◌, sym, inl, inr, ◌∙◌, ap, Option, some, List, [], ◌∷◌, arith, insert, insert_pair,
  inserted_at, inserted_ne, unwrap_or, Map,
}
use stellarspend_contracts.Common.Int.{ℤ, pos, ◌≤ℤ◌}
use stellarspend_contracts.Soroban.{Address, Symbol, Env, ok, ok_or, ok_or-keeps}
use stellarspend_contracts.SpendingLimits.Types.{
  SpendingLimit, LimitEvent, State, publish, max_spending_limit,
}
use stellarspend_contracts.SpendingLimits.Enforcement.{
  Totals, store_totals, charge, enforce_spending_limit, window_id, seconds_per_hour,
  seconds_per_day, seconds_per_month,
}
use stellarspend_contracts.SpendingLimits.Charges.{
  charge_ok, adapt_limit_ok, SameSpending, enforce_spending_limit_ok,
}

-- The total that is stored for a user and a window; nothing stored is 0.
abbrev pub total : (Address → Map ℤ) → Address → ℕ → ℤ
total m user w = unwrap_or (m user w) (pos 0)

-- No total of the user is above its limit, and the monthly limit is in range.
pub record IsWithin (s : State) (user : Address) (l : SpendingLimit) : Type 0 where
  pub hourly : (w : ℕ) → total s.hourly_spending user w ≤ℤ l.hourly_limit
  pub daily : (w : ℕ) → total s.daily_spending user w ≤ℤ l.daily_limit
  pub monthly : (w : ℕ) → total s.monthly_spending user w ≤ℤ l.monthly_limit
  pub nonneg : pos 0 ≤ℤ l.monthly_limit
  pub in_range : l.monthly_limit ≤ℤ max_spending_limit

-- So for every user who has a limit.
abbrev pub IsCapped : State → Type 0
IsCapped s = (user : Address) (l : SpendingLimit) → s.limits user ≡ some l → IsWithin s user l

-- One write to a table of totals keeps them under a bound that it respects.
total_insert :
    (m : Address → Map ℤ) (user a : Address) (v w : ℕ) (x bound : ℤ)
    → ((w : ℕ) → total m a w ≤ℤ bound)
    → (user ≡ a → x ≤ℤ bound)
    → total (insert_pair user v x m) a w ≤ℤ bound
total_insert m user a v w x bound old new = ground (arith, old w)

le_trans_ℤ : (a b c : ℤ) → a ≤ℤ b → b ≤ℤ c → a ≤ℤ c
le_trans_ℤ a b c h k = omega arith

total_insert_same :
    (m m' : Address → Map ℤ) (user a : Address) (v w : ℕ) (x bound : ℤ)
    → m' ≡ m
    → ((w : ℕ) → total m a w ≤ℤ bound)
    → (user ≡ a → x ≤ℤ bound)
    → total (insert_pair user v x m') a w ≤ℤ bound
total_insert_same m m' user a v w x bound same old new =
    rw (same) (total_insert m user a v w x bound old new)

-- The user's own record after a charge.
own_record :
    (env : Env) (user : Address) (l : SpendingLimit) (m : ℤ) (new : Totals) (s u : State)
    → IsWithin s user l
    → SameSpending s u
    → new.hourly ≤ℤ l.hourly_limit
    → new.daily ≤ℤ l.daily_limit
    → new.monthly ≤ℤ l.monthly_limit
    → l.monthly_limit ≤ℤ m
    → m ≤ℤ max_spending_limit
    → IsWithin
        (store_totals env user l m new u)
        user
        (record l { monthly_limit = m; current_spending = new.monthly; updated_at = env.timestamp })
own_record env user l m new s u mine same hh dd mm up top = record {
  hourly = λ w.
      total_insert_same s.hourly_spending u.hourly_spending user user
        (window_id seconds_per_hour env.timestamp) w new.hourly l.hourly_limit same.hourly
        mine.hourly (λ _. hh);
  daily = λ w.
      total_insert_same s.daily_spending u.daily_spending user user
        (window_id seconds_per_day env.timestamp) w new.daily l.daily_limit same.daily mine.daily
        (λ _. dd);
  monthly = λ w.
      total_insert_same s.monthly_spending u.monthly_spending user user
        (window_id seconds_per_month env.timestamp) w new.monthly m same.monthly
        (λ v. le_trans_ℤ (total s.monthly_spending user v) l.monthly_limit m (mine.monthly v) up)
        (λ _. le_trans_ℤ new.monthly l.monthly_limit m mm up);
  nonneg = le_trans_ℤ (pos 0) l.monthly_limit m mine.nonneg up;
  in_range = top;
}

-- The record of any other user.
other_record :
    (env : Env) (user a : Address) (l y : SpendingLimit) (m : ℤ) (new : Totals) (s u : State)
    → IsWithin s a y
    → SameSpending s u
    → user ≢ a
    → IsWithin (store_totals env user l m new u) a y
other_record env user a l y m new s u theirs same apart = record {
  hourly = λ w.
      total_insert_same s.hourly_spending u.hourly_spending user a
        (window_id seconds_per_hour env.timestamp) w new.hourly y.hourly_limit same.hourly
        theirs.hourly (λ p. absurd (apart p));
  daily = λ w.
      total_insert_same s.daily_spending u.daily_spending user a
        (window_id seconds_per_day env.timestamp) w new.daily y.daily_limit same.daily theirs.daily
        (λ p. absurd (apart p));
  monthly = λ w.
      total_insert_same s.monthly_spending u.monthly_spending user a
        (window_id seconds_per_month env.timestamp) w new.monthly y.monthly_limit same.monthly
        theirs.monthly (λ p. absurd (apart p));
  nonneg = theirs.nonneg;
  in_range = theirs.in_range;
}

pub charge-IsCapped :
    (env : Env) (user : Address) (amount : ℤ) (l : SpendingLimit) (s s' : State)
    → IsCapped s
    → s.limits user ≡ some l
    → charge env user amount l s ≡ ok s'
    → IsCapped s'
charge-IsCapped env user amount l s s' capped el h a y ey =
    let (new, m, u, (_, _, _, hh, dd, mm), adapted, after) = charge_ok env user amount l s s' h in
    let mine = capped user l el in
    let (up, top, same) =
      adapt_limit_ok user l new.monthly m s u mine.nonneg mine.in_range adapted in
    let rec = record l {
      monthly_limit = m;
      current_spending = new.monthly;
      updated_at = env.timestamp;
    } in
    let found : insert user rec u.limits a ≡ some y = sym (ap (λ z. z.limits a) after) ∙ ey in
    elim (ℕ_discrete user a) [
      | yes p ↦
          let own = own_record env user l m new s u mine same hh dd mm up top in
          rw (after, inserted_at user a rec y u.limits p found, sym p) own
      | no apart ↦
          let old : s.limits a ≡ some y =
            sym (ap (λ t. t a) same.limits) ∙ inserted_ne user a rec y u.limits apart found in
          rw (after) (other_record env user a l y m new s u (capped a y old) same apart)
    ]

publish-IsCapped : (ev : LimitEvent) (s : State) → IsCapped s → IsCapped (publish ev s)
publish-IsCapped ev s capped user l el =
    let old = capped user l el in
    record {
      hourly = old.hourly;
      daily = old.daily;
      monthly = old.monthly;
      nonneg = old.nonneg;
      in_range = old.in_range;
    }

-- A spend that is accepted keeps every total within its limit.
pub enforce-IsCapped :
    (env : Env) (user : Address) (amount : ℤ) (category : Option Symbol) (s s' : State)
    → IsCapped s
    → enforce_spending_limit env user amount category s ≡ ok s'
    → IsCapped s'
enforce-IsCapped env user amount category s s' capped h =
    let (_, how) = enforce_spending_limit_ok env user amount category s s' h in
    elim how [
      | inl (cat, _, _, e) ↦
          rw (e) (publish-IsCapped (LimitEvent.exception_bypassed user amount cat) s capped)
      | inr (_, inl (_, e)) ↦ rw (e) capped
      | inr (_, inr (l, el, _, charged)) ↦ charge-IsCapped env user amount l s s' capped el charged
    ]

-- Spends that are tried one after the other; a call that fails leaves the state as it was.
unfoldable pub try_spends : List (Env × Address × ℤ × Option Symbol) → State → State
try_spends [] s = s
try_spends ((env, user, amount, category) ∷ spends) s =
    try_spends spends (ok_or (enforce_spending_limit env user amount category s) s)

-- For every sequence of spends that are tried, each at its own time: if no total of a user with a
-- limit is above that user's limit before, and the monthly limits are between 0 and the maximum,
-- then so it is afterwards, and no stored limit is above the maximum.
pub try_spends-IsCapped :
    (spends : List (Env × Address × ℤ × Option Symbol)) (s : State)
    → IsCapped s
    → IsCapped (try_spends spends s)
unfolding try_spends
try_spends-IsCapped [] s capped = capped
try_spends-IsCapped ((env, user, amount, category) ∷ spends) s capped =
    let call = enforce_spending_limit env user amount category s in
    try_spends-IsCapped spends (ok_or call s) (
      ok_or-keeps IsCapped call s capped
        (λ s' accepted. enforce-IsCapped env user amount category s s' capped accepted))
