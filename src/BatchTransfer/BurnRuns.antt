-- ===== src/BatchTransfer/BurnRuns.antt =====
-- The loop of `batch_burn` of contracts/batch-transfer/src/lib.rs against the rule for each request.
use stellarspend_contracts.Common.{
  ℕ, ◌+◌, ◌≡◌, refl, ◌∙◌, inl, inr, none, some, true, List, [], ◌∷◌, ◌++◌, push_back, unwrap_or,
  arith, Option-cases, Bool-cases,
}
use stellarspend_contracts.Common.Int.{
  ℤ, pos, ◌+ℤ◌, ◌<ℤ◌, ◌≤ℤ◌, ltb_ℤ, checked_add, i128_max, int_laws,
}
use stellarspend_contracts.Soroban.{Address, Env, Token, ok}
use stellarspend_contracts.BatchTransfer.Types.{
  BurnRequest, BurnResult, State, TransferEvent, publish,
}
use stellarspend_contracts.BatchTransfer.Validation.{check_request}
use stellarspend_contracts.BatchTransfer.Burns.{BurnTally, fail_burn, burn_one, burn_all}
use stellarspend_contracts.BatchTransfer.Accounting.{in_range-fits_i128}

-- What the answers say: how many burns were made, how many were not, and the sum of those made.
unfoldable pub successes : List BurnResult → ℕ
successes [] = 0
successes (BurnResult.success owner amount ∷ rs) = successes rs + 1
successes (BurnResult.failure owner amount code ∷ rs) = successes rs

unfoldable pub failures : List BurnResult → ℕ
failures [] = 0
failures (BurnResult.success owner amount ∷ rs) = failures rs
failures (BurnResult.failure owner amount code ∷ rs) = failures rs + 1

unfoldable pub total_burnt : List BurnResult → ℤ
total_burnt [] = pos 0
total_burnt (BurnResult.success owner amount ∷ rs) = amount +ℤ total_burnt rs
total_burnt (BurnResult.failure owner amount code ∷ rs) = total_burnt rs

-- The rule for each request in turn: a malformed one is refused with the validator's code, one that
-- its owner's balance does not cover with the code 2, and any other is authorized by its owner and
-- burnt.
pub data Burns (tok : Token) (env : Env) (token : Address)
    : List BurnRequest → tok.Ledger → List BurnResult → tok.Ledger → Type 0 where
  done : (l : tok.Ledger) → Burns tok env token [] l [] l
  refused :
      (r : BurnRequest) (rs : List BurnRequest) (code : ℕ) (l l' : tok.Ledger)
      (answers : List BurnResult)
      → check_request r.owner r.amount ≡ some code
      → Burns tok env token rs l answers l'
      → Burns tok env token (r ∷ rs) l (BurnResult.failure r.owner r.amount code ∷ answers) l'
  uncovered :
      (r : BurnRequest) (rs : List BurnRequest) (l l' : tok.Ledger) (answers : List BurnResult)
      → check_request r.owner r.amount ≡ none
      → tok.balance token r.owner l <ℤ r.amount
      → Burns tok env token rs l answers l'
      → Burns tok env token (r ∷ rs) l (BurnResult.failure r.owner r.amount 2 ∷ answers) l'
  burnt :
      (r : BurnRequest) (rs : List BurnRequest) (l m l' : tok.Ledger) (answers : List BurnResult)
      → check_request r.owner r.amount ≡ none
      → r.amount ≤ℤ tok.balance token r.owner l
      → env.authorized r.owner ≡ true
      → tok.burn token r.owner r.amount l ≡ some m
      → Burns tok env token rs m answers l'
      → Burns tok env token (r ∷ rs) l (BurnResult.success r.owner r.amount ∷ answers) l'

append_assoc :
    (xs : List BurnResult) (y : BurnResult) (zs : List BurnResult)
    → push_back xs y ++ zs ≡ xs ++ (y ∷ zs)
append_assoc [] y zs = refl
append_assoc (x ∷ xs) y zs = rw (append_assoc xs y zs) refl

check_request-positive : (a : Address) (x : ℤ) → check_request a x ≡ none → pos 0 ≤ℤ x
unfolding check_request
check_request-positive a x h = ground arith

add_nonneg : (a b : ℤ) → pos 0 ≤ℤ a → pos 0 ≤ℤ b → pos 0 ≤ℤ a +ℤ b
add_nonneg a b p q = omega int_laws

-- What rounds of the loop add to its variables, and what they leave of the storage.
pub record IsBurnt {L : Type 0} (x y : BurnTally × State L) (answers : List BurnResult)
    : Type 0 where
  pub results : y.0.results ≡ x.0.results ++ answers
  pub successful : y.0.successful_count ≡ x.0.successful_count + successes answers
  pub failed : y.0.failed_count ≡ x.0.failed_count + failures answers
  pub nonneg : pos 0 ≤ℤ total_burnt answers
  pub total :
      pos 0 ≤ℤ x.0.total_burned
      → x.0.total_burned +ℤ total_burnt answers ≤ℤ pos i128_max
      → y.0.total_burned ≡ x.0.total_burned +ℤ total_burnt answers
  pub admin : y.1.admin ≡ x.1.admin
  pub batches : y.1.total_batches ≡ x.1.total_batches
  pub transfers : y.1.total_transfers_processed ≡ x.1.total_transfers_processed
  pub volume : y.1.total_volume_transferred ≡ x.1.total_volume_transferred

zero_right : (a : ℤ) → a ≡ a +ℤ pos 0
zero_right a = omega int_laws

append_nil : (xs : List BurnResult) → xs ≡ xs ++ []
append_nil [] = refl
append_nil (x ∷ xs) = rw (← append_nil xs) refl

below_sum : (t a u : ℤ) → pos 0 ≤ℤ u → t +ℤ (a +ℤ u) ≤ℤ pos i128_max → t +ℤ a ≤ℤ pos i128_max
below_sum t a u p h = omega (int_laws, arith)

regroup : (t a u : ℤ) → t +ℤ a +ℤ u ≡ t +ℤ (a +ℤ u)
regroup t a u = omega int_laws

-- The first sum of a total that fits is stored.
stored_sum :
    (t a : ℤ)
    → pos 0 ≤ℤ t
    → pos 0 ≤ℤ a
    → t +ℤ a ≤ℤ pos i128_max
    → unwrap_or (checked_add t a) t ≡ t +ℤ a
unfolding checked_add
stored_sum t a p q h = let fits = in_range-fits_i128 (t +ℤ a) (add_nonneg t a p q) h in rw fits refl

module _ (tok : Token) (env : Env) (token : Address) (id : ℕ) where
  failed-IsBurnt :
      (r : BurnRequest) (code : ℕ) (t : BurnTally) (s : State tok.Ledger)
      (y : BurnTally × State tok.Ledger) (answers : List BurnResult)
      → IsBurnt (fail_burn tok env id r code (t, s)) y answers
      → IsBurnt (t, s) y (BurnResult.failure r.owner r.amount code ∷ answers)
  unfolding successes failures total_burnt
  failed-IsBurnt r code t s y answers rest = record {
    results =
        rest.results ∙ append_assoc t.results (BurnResult.failure r.owner r.amount code) answers;
    successful = rest.successful;
    failed = omega (arith, rest.failed);
    nonneg = rest.nonneg;
    total = rest.total;
    admin = rest.admin;
    batches = rest.batches;
    transfers = rest.transfers;
    volume = rest.volume;
  }

  -- The round of a burn that is made, which leaves the ledger `l`.
  abbrev make_burn :
      BurnRequest → tok.Ledger → BurnTally × State tok.Ledger → BurnTally × State tok.Ledger
  make_burn r l (t, s) = (
    record {
      results = push_back t.results (BurnResult.success r.owner r.amount);
      successful_count = t.successful_count + 1;
      failed_count = t.failed_count;
      total_burned = unwrap_or (checked_add t.total_burned r.amount) t.total_burned;
    },
    publish (TransferEvent.burn_success id r.owner r.amount) (record s { ledger = l }),
  )

  made-IsBurnt :
      (r : BurnRequest) (l : tok.Ledger) (t : BurnTally) (s : State tok.Ledger)
      (y : BurnTally × State tok.Ledger) (answers : List BurnResult)
      → pos 0 ≤ℤ r.amount
      → IsBurnt (make_burn r l (t, s)) y answers
      → IsBurnt (t, s) y (BurnResult.success r.owner r.amount ∷ answers)
  unfolding successes failures total_burnt
  made-IsBurnt r l t s y answers positive rest = record {
    results = rest.results ∙ append_assoc t.results (BurnResult.success r.owner r.amount) answers;
    successful = omega (arith, rest.successful);
    failed = rest.failed;
    nonneg = add_nonneg r.amount (total_burnt answers) positive rest.nonneg;
    total = λ low high.
        let u = total_burnt answers in
        let fits = below_sum t.total_burned r.amount u rest.nonneg high in
        let first = stored_sum t.total_burned r.amount low positive fits in
        let sum =
          rest.total (rw first (add_nonneg t.total_burned r.amount low positive))
            (rw (first, regroup t.total_burned r.amount u) high) in
        sum ∙ rw first (regroup t.total_burned r.amount u);
    admin = rest.admin;
    batches = rest.batches;
    transfers = rest.transfers;
    volume = rest.volume;
  }

  -- A loop that ends follows the rule, and its variables count what it answers.
  pub burn_all-Burns :
      (rs : List BurnRequest) (t : BurnTally) (s : State tok.Ledger)
      (y : BurnTally × State tok.Ledger)
      → burn_all tok env token id rs (t, s) ≡ ok y
      → (answers : List BurnResult) × Burns tok env token rs s.ledger answers y.1.ledger
        × IsBurnt (t, s) y answers
  unfolding burn_all burn_one successes failures total_burnt
  burn_all-Burns [] t s y h =
      let after : y ≡ (t, s) = ground arith in
      rw after (
        [],
        done s.ledger,
        record {
          results = append_nil t.results;
          successful = omega arith;
          failed = omega arith;
          nonneg = omega arith;
          total = λ low high. zero_right t.total_burned;
          admin = refl;
          batches = refl;
          transfers = refl;
          volume = refl;
        },
      )
  burn_all-Burns (r ∷ rs) t s y h = elim (Option-cases (check_request r.owner r.amount)) [
    | inr (code, bad) ↦
        let x = fail_burn tok env id r code (t, s) in
        let (answers, run, counts) = burn_all-Burns rs x.0 x.1 y (ground arith) in
        (
          BurnResult.failure r.owner r.amount code ∷ answers,
          refused r rs code s.ledger y.1.ledger answers bad run,
          failed-IsBurnt r code t s y answers counts,
        )
    | inl good ↦ elim (Bool-cases (ltb_ℤ (tok.balance token r.owner s.ledger) r.amount)) [
      | inl poor ↦
          let x = fail_burn tok env id r 2 (t, s) in
          let (answers, run, counts) = burn_all-Burns rs x.0 x.1 y (ground arith) in
          (
            BurnResult.failure r.owner r.amount 2 ∷ answers,
            uncovered r rs s.ledger y.1.ledger answers good (ground arith) run,
            failed-IsBurnt r 2 t s y answers counts,
          )
      | inr rich ↦ elim (Option-cases (tok.burn token r.owner r.amount s.ledger)) [
        | inl failing ↦ absurd (ground arith)
        | inr (l, moved) ↦
            let x = make_burn r l (t, s) in
            let (answers, run, counts) = burn_all-Burns rs x.0 x.1 y (ground arith) in
            (
              BurnResult.success r.owner r.amount ∷ answers,
              burnt r rs s.ledger l y.1.ledger answers good (ground arith) (ground arith) moved run,
              made-IsBurnt r l t s y answers (check_request-positive r.owner r.amount good) counts,
            )
      ]
    ]
  ]
