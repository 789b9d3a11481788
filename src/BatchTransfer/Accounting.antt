-- ===== src/BatchTransfer/Accounting.antt =====
-- What `batch_transfer` of contracts/batch-transfer/src/lib.rs moves and counts.
use stellarspend_contracts.Common.{
  ℕ, ◌+◌, ◌≡◌, ◌≢◌, refl, ◌∙◌, inl, inr, none, true, List, [], ◌∷◌, length, length-push_back,
  push_back, unwrap_or, arith, Option-cases,
}
use stellarspend_contracts.Common.Int.{
  ℤ, pos, negsuc, ◌+ℤ◌, ◌-ℤ◌, ◌≤ℤ◌, checked_add, fits_i128, i128_max, int_laws,
}
use stellarspend_contracts.Soroban.{Address, Env, Token, MovesFunds, ok}
use stellarspend_contracts.Soroban.Transfers.{transfer_between}
use stellarspend_contracts.BatchTransfer.Types.{
  TransferRequest, TransferResult, State, publish, TransferEvent,
}
use stellarspend_contracts.BatchTransfer.Transfers.{Tally, transfer_one, fail_request}

-- The sum of the amounts that the results name as sent.
abbrev pub sent : TransferResult → ℤ
sent (TransferResult.success recipient amount) = amount
sent (TransferResult.failure recipient amount code) = pos 0

unfoldable pub total_sent : List TransferResult → ℤ
total_sent [] = pos 0
total_sent (r ∷ rs) = let rest = total_sent rs in sent r +ℤ rest

add_assoc_ℤ : (a b c : ℤ) → a +ℤ (b +ℤ c) ≡ a +ℤ b +ℤ c
add_assoc_ℤ a b c = omega int_laws

add_zero_ℤ : (a : ℤ) → a +ℤ pos 0 ≡ pos 0 +ℤ a
add_zero_ℤ a = omega int_laws

total_sent-push_back :
    (rs : List TransferResult) (r : TransferResult)
    → total_sent (push_back rs r) ≡ total_sent rs +ℤ sent r
unfolding total_sent
total_sent-push_back [] r = add_zero_ℤ (sent r)
total_sent-push_back (x ∷ rs) r =
    rw (total_sent-push_back rs r) (add_assoc_ℤ (sent x) (total_sent rs) (sent r))

zero_right_ℤ : (a : ℤ) → a +ℤ pos 0 ≡ a
zero_right_ℤ a = omega int_laws

pub in_range-fits_i128 : (c : ℤ) → pos 0 ≤ℤ c → c ≤ℤ pos i128_max → fits_i128 c ≡ true
unfolding fits_i128
in_range-fits_i128 (pos n) low high = ground arith
in_range-fits_i128 (negsuc n) low high = absurd (omega arith)

module _ (tok : Token) (token caller : Address) where
  -- The caller's balance is what is available, and with what was sent the balance from the start.
  pub record IsBalanced (start : ℤ) (x : Tally × State tok.Ledger) : Type 0 where
    pub available : x.0.available_balance ≡ tok.balance token caller x.1.ledger
    pub conserved : x.0.total_transferred +ℤ x.0.available_balance ≡ start
    pub nonneg : pos 0 ≤ℤ x.0.total_transferred
    pub listed : x.0.total_transferred ≡ total_sent x.0.results

  -- What a number of rounds adds to the counters.
  pub record IsCounted (x y : Tally × State tok.Ledger) (n : ℕ) : Type 0 where
    pub answers : length y.0.results ≡ length x.0.results + n
    pub counts :
        y.0.successful_count + y.0.failed_count ≡ x.0.successful_count + x.0.failed_count + n

  -- A request that is not carried out.
  pub failed :
      (id : ℕ) (r : TransferRequest) (code : ℕ) (t : Tally) (s : State tok.Ledger) (env : Env)
      (start : ℤ)
      → IsBalanced start (t, s)
      → IsBalanced start (fail_request tok env id r code (t, s))
        × IsCounted (t, s) (fail_request tok env id r code (t, s)) 1
  failed id r code t s env start old =
      let answer = TransferResult.failure r.recipient r.amount code in
      (
        record {
          available = old.available;
          conserved = old.conserved;
          nonneg = old.nonneg;
          listed =
              rw (total_sent-push_back t.results answer, zero_right_ℤ (total_sent t.results))
                old.listed;
        },
        record { answers = length-push_back t.results answer; counts = omega arith },
      )

  -- The sum does not overflow.
  fits :
      (total available amount start : ℤ)
      → total +ℤ available ≡ start
      → pos 0 ≤ℤ total
      → pos 1 ≤ℤ amount
      → amount ≤ℤ available
      → start ≤ℤ pos i128_max
      → unwrap_or (checked_add total amount) total ≡ total +ℤ amount
  unfolding checked_add
  fits total available amount start sum low positive rich high =
      let s : total +ℤ available ≤ℤ pos i128_max = rw (sum) high in
      let r = in_range-fits_i128 (total +ℤ amount) (omega int_laws) (omega int_laws) in ground arith

  conserve :
      (total available amount start : ℤ)
      → total +ℤ available ≡ start
      → total +ℤ amount +ℤ (available -ℤ amount) ≡ start
  conserve total available amount start sum =
      let step : total +ℤ amount +ℤ (available -ℤ amount) ≡ total +ℤ available = omega int_laws in
      step ∙ sum

  grows : (total amount : ℤ) → pos 0 ≤ℤ total → pos 1 ≤ℤ amount → pos 0 ≤ℤ total +ℤ amount
  grows total amount low positive = omega int_laws

  module _ (moves : MovesFunds tok) (env : Env) where
    pub paid :
        (id : ℕ) (r : TransferRequest) (t : Tally) (s : State tok.Ledger)
        (y : Tally × State tok.Ledger) (start : ℤ)
        → start ≤ℤ pos i128_max
        → caller ≢ r.recipient
        → pos 1 ≤ℤ r.amount
        → r.amount ≤ℤ t.available_balance
        → IsBalanced start (t, s)
        → transfer_one tok env token caller id (r, none) (t, s) ≡ ok y
        → IsBalanced start y × IsCounted (t, s) y 1
    unfolding transfer_one
    paid id r t s y start high apart positive rich old h =
        elim (Option-cases (tok.transfer token caller r.recipient r.amount s.ledger)) [
          | inl failing ↦ absurd (ground arith)
          | inr (l, moved) ↦
              let answer = TransferResult.success r.recipient r.amount in
              let t' : Tally = record {
                results = push_back t.results answer;
                successful_count = t.successful_count + 1;
                failed_count = t.failed_count;
                total_transferred =
                    unwrap_or (checked_add t.total_transferred r.amount) t.total_transferred;
                available_balance = t.available_balance -ℤ r.amount;
              } in
              let s' =
                publish (TransferEvent.transfer_success id r.recipient r.amount)
                  (record s { ledger = l }) in
              let after : y ≡ (t', s') = ground arith in
              let sum =
                fits t.total_transferred t.available_balance r.amount start old.conserved old.nonneg
                  positive rich high in
              let (spent, _) =
                transfer_between tok moves token caller r.recipient r.amount s.ledger l apart
                  moved in
              rw (after) (
                record {
                  available = rw (spent, old.available) refl;
                  conserved = rw (sum) (
                      conserve t.total_transferred t.available_balance r.amount start
                        old.conserved);
                  nonneg = rw (sum) (grows t.total_transferred r.amount old.nonneg positive);
                  listed = rw (sum, total_sent-push_back t.results answer, old.listed) refl;
                },
                record { answers = length-push_back t.results answer; counts = omega arith },
              )
        ]
