-- ===== src/Escrow/Examples.antt =====
-- The theorems on contracts/escrow/src at a small contract: two escrows of the account 1 for the
-- account 2, on a table of balances.
use stellarspend_contracts.Common.{
  ℕ, ◌<◌, ◌≡◌, ◌≢◌, ◌↔◌, refl, ◌⊎◌, inl, inr, Option, none, some, List, [], ◌∷◌, arith, ◌==◌,
  if◌then◌else◌, true, false, Bool, ◌≤◌, insert, unwrap_or, push_back,
}
use stellarspend_contracts.Common.Int.{pos, ◌+ℤ◌, ◌-ℤ◌, checked_add, checked_add_u64, fits_i128}
use stellarspend_contracts.Soroban.{Address, Env, ok, ok_or}
use stellarspend_contracts.Soroban.SimpleToken.{
  Table, simple_token, simple_token-MovesFunds, simple_token-PaysCovered, transfer,
}
use stellarspend_contracts.Escrow.Types.{
  Escrow, State, ReleaseRequest, ReversalRequest, BatchReleaseResult, BatchReversalResult, active,
  released, reversed, publish, escrow_released,
}
use stellarspend_contracts.Escrow.Validation.{
  valid, invalid, validate_reversal, validate_release, escrow_not_found, already_released,
  already_reversed, unauthorized, deadline_not_reached,
}
use stellarspend_contracts.Escrow.Lifecycle.{
  initialize, create_escrow, release_escrow, settle, transfer_token,
}
use stellarspend_contracts.Escrow.Batch.{
  batch_release_escrows, batch_reverse_escrows, second_pass, release_one, validate_releases,
  check_batch_size, add_release_statistics,
}
use stellarspend_contracts.Escrow.Parties.{IsParty, IsOverseer, validate_reversal_errors}
use stellarspend_contracts.Escrow.Solvency.{counter, IsSound, release_escrow_ok}
use stellarspend_contracts.Escrow.Coverage.{release_escrow-accepts}
use stellarspend_contracts.Escrow.Creation.{create_escrow_fresh}
use stellarspend_contracts.Escrow.DoublePay.{twice, batch_release_pays_twice}
use stellarspend_contracts.Escrow.Finality.{Step, Becomes, Step-keeps}
use stellarspend_contracts.Escrow.Reachable.{
  Run, Run-IsSound, Run-keeps_settled, initialize-IsSound,
}

abbrev env : Env
env = record { timestamp = 1000; sequence = 7; contract = 100; authorized = λ a. true }

-- Account 1 holds 1000 of the token 50.
abbrev ledger : Table
ledger k a = if a == 1 then pos 1000 else pos 0

abbrev deployed : State Table
deployed = record {
  admin = none;
  token = none;
  escrows = λ k. none;
  user_escrows = λ a. none;
  escrow_counter = none;
  total_reversal_batches = none;
  total_escrows_reversed = none;
  total_amount_reversed = none;
  total_release_batches = none;
  total_escrows_released = none;
  total_amount_released = none;
  ledger = ledger;
  events = [];
}

abbrev started : State Table
started = ok_or (initialize simple_token env 9 50 deployed) deployed

abbrev one_escrow : State Table
one_escrow = (ok_or (create_escrow simple_token env 1 2 none (pos 300) 20 started) (0, started)).1

abbrev two_escrows : State Table
two_escrows =
    (ok_or (create_escrow simple_token env 1 2 (some 3) (pos 300) 20 one_escrow) (0, started)).1

abbrev one_released : State Table
one_released = ok_or (release_escrow simple_token env 1 1 two_escrows) started

abbrev both_released : State Table
both_released = ok_or (release_escrow simple_token env 1 2 one_released) started

abbrev record_of : ℕ → Option Address → Escrow
record_of k arbiter = record {
  escrow_id = k;
  depositor = 1;
  recipient = 2;
  arbiter = arbiter;
  token = 50;
  amount = pos 300;
  status = active;
  created_at = 7;
  deadline = 20;
}

started-IsSound : IsSound simple_token env started
unfolding initialize
started-IsSound =
    initialize-IsSound simple_token env 9 50 deployed started (λ k. refl) (omega arith) refl

-- The two creations and the release of the first escrow.
history : Run simple_token 100 started one_released
unfolding initialize create_escrow release_escrow settle transfer_token transfer checked_add_u64
    ◌+ℤ◌ ◌-ℤ◌
history =
    Run.next
      (Run.next
        (Run.next Run.start env refl (Step.create 1 2 none (pos 300) 20 1 refl) (omega arith)) env
        refl (Step.create 1 2 (some 3) (pos 300) 20 2 refl) (omega arith))
      env refl (Step.release 1 1 refl) tt

Run-IsSound_example : IsSound simple_token env one_released
Run-IsSound_example = Run-IsSound simple_token simple_token-MovesFunds env started-IsSound history

-- The release of the other escrow, after which the first one is still released.
later : Run simple_token 100 one_released both_released
unfolding initialize create_escrow release_escrow settle transfer_token transfer checked_add_u64
    ◌+ℤ◌ ◌-ℤ◌
later = Run.next Run.start env refl (Step.release 1 2 refl) tt

both_paid : simple_token.balance 50 2 both_released.ledger ≡ pos 600
unfolding initialize create_escrow release_escrow settle transfer_token transfer checked_add_u64
    ◌+ℤ◌ ◌-ℤ◌
both_paid = refl

Run-keeps_settled_example :
    both_released.escrows 1 ≡ some (record (record_of 1 none) { status = released })
unfolding initialize create_escrow release_escrow settle transfer_token transfer checked_add_u64
    ◌+ℤ◌ ◌-ℤ◌
Run-keeps_settled_example =
    Run-keeps_settled simple_token simple_token-MovesFunds env 1
      (record (record_of 1 none) { status = released })
      (Run-IsSound simple_token simple_token-MovesFunds env started-IsSound history) refl (λ e. cc)
      later

two_escrows-IsSound : IsSound simple_token env two_escrows
unfolding initialize create_escrow release_escrow settle transfer_token transfer checked_add_u64
    ◌+ℤ◌ ◌-ℤ◌
two_escrows-IsSound = Run-IsSound simple_token simple_token-MovesFunds env started-IsSound (
    Run.next (Run.next Run.start env refl (Step.create 1 2 none (pos 300) 20 1 refl) (omega arith))
      env refl (Step.create 1 2 (some 3) (pos 300) 20 2 refl) (omega arith))

Step-keeps_example :
    Becomes released (record_of 1 none) (one_released.escrows 1)
    ⊎ Becomes reversed (record_of 1 none) (one_released.escrows 1)
unfolding initialize create_escrow release_escrow settle transfer_token transfer checked_add_u64
    ◌+ℤ◌ ◌-ℤ◌
Step-keeps_example =
    Step-keeps simple_token env two_escrows one_released 1 (record_of 1 none) two_escrows-IsSound
      refl (Step.release 1 1 refl)

create_escrow_fresh_example :
    (one_escrow.escrows 2 ≡ none)
    × (counter two_escrows ≡ 2)
    × ((j : ℕ) → j ≢ 2 → two_escrows.escrows j ≡ one_escrow.escrows j)
    × (two_escrows.user_escrows 1 ≡ some (push_back (unwrap_or (one_escrow.user_escrows 1) []) 2))
    × ((a : Address) → a ≢ 1 → two_escrows.user_escrows a ≡ one_escrow.user_escrows a)
unfolding initialize create_escrow transfer_token transfer checked_add_u64 ◌+ℤ◌ ◌-ℤ◌
create_escrow_fresh_example =
    create_escrow_fresh simple_token env one_escrow two_escrows 1 2 (some 3) (pos 300) 20 2
      (Run-IsSound simple_token simple_token-MovesFunds env started-IsSound
        (Run.next Run.start env refl (Step.create 1 2 none (pos 300) 20 1 refl) (omega arith)))
      refl

validate_reversal_errors_example :
    ((validate_reversal (some (record_of 1 none)) 5 9 true 7 ≡ invalid escrow_not_found)
      ↔ (◌≡◌ {A = Option Escrow} (some (record_of 1 none)) none))
    × ((validate_reversal (some (record_of 1 none)) 5 9 true 7 ≡ invalid already_released)
        ↔ ((record_of 1 none).status ≡ released))
    × ((validate_reversal (some (record_of 1 none)) 5 9 true 7 ≡ invalid already_reversed)
        ↔ ((record_of 1 none).status ≡ reversed))
    × ((validate_reversal (some (record_of 1 none)) 5 9 true 7 ≡ invalid unauthorized)
        ↔ (((record_of 1 none).status ≡ active) × ¬ IsParty (record_of 1 none) 5 9))
    × ((validate_reversal (some (record_of 1 none)) 5 9 true 7 ≡ invalid deadline_not_reached) ↔ (
        ((record_of 1 none).status ≡ active)
        × (◌≡◌ {A = ℕ} 5 (record_of 1 none).depositor)
        × ¬ IsOverseer (record_of 1 none) 5 9
        × (◌≡◌ {A = Bool} true true)
        × (7 < (record_of 1 none).deadline)))
    × ((validate_reversal (some (record_of 1 none)) 5 9 true 7 ≡ valid) ↔ (
        ((record_of 1 none).status ≡ active)
        × (IsOverseer (record_of 1 none) 5 9
            ⊎ ((◌≡◌ {A = ℕ} 5 (record_of 1 none).depositor)
                × ((◌≡◌ {A = Bool} true false) ⊎ ((record_of 1 none).deadline ≤ 7))))))
validate_reversal_errors_example =
    validate_reversal_errors (some (record_of 1 none)) (record_of 1 none) 5 9 true 7

release_escrow_ok_example :
    (x : Escrow) × (l' : Table) × (admin : Address) × (two_escrows.escrows 1 ≡ some x)
    × (two_escrows.admin ≡ some admin)
    × (env.authorized 1 ≡ true)
    × (x.status ≡ active)
    × IsParty x 1 admin
    × (transfer x.token 100 x.recipient x.amount two_escrows.ledger ≡ some l')
    × (one_released
        ≡ publish (escrow_released 1 x.recipient x.amount) (record two_escrows {
          ledger = l';
          escrows = insert 1 (record x { status = released }) two_escrows.escrows;
        }))
unfolding initialize create_escrow release_escrow settle transfer_token transfer checked_add_u64
    ◌+ℤ◌ ◌-ℤ◌
release_escrow_ok_example = release_escrow_ok simple_token env two_escrows one_released 1 1 refl

abbrev no_release : BatchReleaseResult
no_release = record {
  batch_id = 0;
  total_requests = 0;
  successful = 0;
  failed = 0;
  total_released = pos 0;
  results = [];
}

abbrev no_reversal : BatchReversalResult
no_reversal = record {
  batch_id = 0;
  total_requests = 0;
  successful = 0;
  failed = 0;
  total_reversed = pos 0;
  results = [];
}

abbrev released_by : List ReleaseRequest → BatchReleaseResult × State Table
released_by requests =
    ok_or (batch_release_escrows simple_token env 1 requests two_escrows) (no_release, started)

abbrev reversed_by : List ReversalRequest → BatchReversalResult × State Table
reversed_by requests =
    ok_or (batch_reverse_escrows simple_token env 9 requests two_escrows) (no_reversal, started)

-- The second escrow and one that does not exist.
abbrev releases : List ReleaseRequest
releases = record { escrow_id = 2 } ∷ record { escrow_id = 5 } ∷ []

abbrev reversals : List ReversalRequest
reversals = record { escrow_id = 2 } ∷ record { escrow_id = 5 } ∷ []

-- The batch empties the contract, which still owes the second escrow.
batch_release_pays_twice_example :
    ((released_by (twice 1)).0.successful ≡ 2)
    × ((released_by (twice 1)).1.ledger 50 100 ≡ two_escrows.ledger 50 100 -ℤ (pos 300 +ℤ pos 300))
    × ((released_by (twice 1)).1.ledger 50 2 ≡ two_escrows.ledger 50 2 +ℤ (pos 300 +ℤ pos 300))
unfolding initialize create_escrow settle transfer_token transfer checked_add_u64 ◌+ℤ◌ ◌-ℤ◌
    checked_add fits_i128 second_pass check_batch_size batch_release_escrows release_one
    validate_releases validate_release add_release_statistics
batch_release_pays_twice_example =
    batch_release_pays_twice simple_token env simple_token-MovesFunds 1 9 50 1 (record_of 1 none)
      two_escrows (released_by (twice 1)).1 (released_by (twice 1)).0 refl refl refl refl
      (inr (inl refl)) (omega arith) refl

-- What is left of it, and what it owes.
emptied : ((released_by (twice 1)).1.ledger 50 100 ≡ pos 0) × (two_escrows.ledger 50 100 ≡ pos 600)
unfolding initialize create_escrow settle transfer_token transfer checked_add_u64 ◌+ℤ◌ ◌-ℤ◌
    checked_add fits_i128 second_pass check_batch_size batch_release_escrows release_one
    validate_releases validate_release add_release_statistics
emptied = (refl, refl)

release_escrow-accepts_example :
    (s' : State Table) × (release_escrow simple_token env 1 1 two_escrows ≡ ok s')
unfolding initialize create_escrow transfer_token transfer checked_add_u64 ◌+ℤ◌ ◌-ℤ◌
release_escrow-accepts_example =
    release_escrow-accepts simple_token simple_token-PaysCovered env two_escrows 1 9 1
      (record_of 1 none) two_escrows-IsSound refl refl refl refl (inr (inl refl))
