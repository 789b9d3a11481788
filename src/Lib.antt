-- ===== src/Lib.antt =====
-- Verification of the Soroban smart contracts of StellarSpend: escrows, spending limits, recurring
-- payments, batch transfers, savings goals, shared budgets and access control on Stellar.
--
-- The repository is a workspace of contracts under contracts/. Each contract is deployed alone: it
-- keeps its state in its own storage, its operations are the public functions of its contract type,
-- and it meets the rest of the system through the host (the ledger's time, authorizations, events)
-- and through token contracts, which move funds. A call that fails undoes all that it wrote. The
-- development has a module per contract on a shared model of the host:
--
-- - Common: the tests, lists, maps and signed integers that the modules share; i128, u64 and u32
--   arithmetic with its bounds written out, as checked and saturating operations.
-- - Soroban: the environment of a call (`Env`: timestamp, sequence number, the contract's own
--   address, who authorized), the ways to fail (`Fault`), the result of a call (`Result`), and
--   token contracts (`Token`), which are a parameter. `MovesFunds` and `PaysCovered` are the
--   documented behaviour of a transfer, and Soroban.SimpleToken is a table of balances that has
--   both.
-- - Escrow: contracts/escrow/src. Types (types.rs), Validation (validation.rs), Lifecycle and Batch
--   (lib.rs) hold the definitions, under the names of the source: create_escrow, release_escrow,
--   batch_reverse_escrows, batch_release_escrows, validate_reversal. The other modules prove.
-- - SpendingLimits: contracts/spending-limits/src. Types (types.rs), Validation (validation.rs),
--   Administration, BatchUpdate and Enforcement (lib.rs) hold the definitions;
--   enforce_spending_limit is split where the source returns early, into `enforce_limit` and
--   `charge`.
-- - RecurringPayment: contracts/recurring-payment/src. Types (types.rs), Payments and Income
--   (lib.rs); execute_payment is split into its two branches, `miss_payment` and `make_payment`,
--   and `catch_up`, which both repeat.
-- - AccessControl: contracts/access-control/src/lib.rs. Types and Roles hold the definitions.
-- - BatchTransfer: contracts/batch-transfer/src. Types (types.rs), Validation (validation.rs, and
--   validate_batch_size of contracts/shared/src/validation.rs), Transfers and Burns (lib.rs) hold
--   the definitions; the loops of batch_transfer and batch_burn are `transfer_all` and `burn_all`.
-- - SavingsGoals: contracts/savings-goals/src. Types and ErrorCode (types.rs), Validation
--   (validation.rs), and from lib.rs Goals (initialize, batch_set_savings_goals), Milestones
--   (check_and_emit_milestones), Funds (contributions, reversals, withdrawals), Merging
--   (merge_goals), Upkeep (clones, names, snapshots, the admin), Marks (batch_mark_milestones),
--   Alerts and Prerequisites (set_goal_prerequisites, has_dependency_path) hold the definitions;
--   the other modules prove. check_and_emit_milestones is called where the source calls it, and its
--   parts are `refresh_complete`, `emit_milestones` and `finish_milestones`.
-- - SharedBudgets: contracts/shared-budgets/src. Types (types.rs), and from lib.rs and
--   validation.rs Budgets (budgets, members, rules, owners, the admin), Spending
--   (contribute_to_budget, spend_from_budget, enforce_spending_rules), Floats (the arithmetic of
--   f64 in the threshold of a rule, with its rounding), Archive (archive_inactive_budgets) and
--   Reports (the queries that compute) hold the definitions; the other modules prove. In
--   `archive_loop` the rounds left are an argument, which starts at the number of budgets. `bits`
--   counts up to 256 binary digits, more than any number that is rounded has: amounts are below
--   2^127, and a product of two mantissas is below 2^107.
--
-- A call is a function from its arguments and the state to a result with the new state. The state
-- is a record with a field for each storage key; storage under keys with an argument is a function
-- to Option, so that a missing key is `none`, and the code's unwrap_or, expect or panic on it is
-- written out. `Result` has no state on failure, which is how the host undoes a failed call. Events
-- are a list at the end of the state; an event's topics are its constructor. Loops over the
-- requests of a batch are structural recursion on the list, so no fuel is needed. The one loop on
-- fuel is the search of has_dependency_path: a call whose search uses its fuel up fails, as a call
-- fails whose budget is used up. A unit of fuel and one more for each stored prerequisite are
-- enough, since every round takes a node off the stack or visits a new one, and a node is put on
-- the stack only by a stored prerequisite of a node that is visited for the first time. Addresses
-- and symbols are only compared in the code, so natural numbers name them.
--
-- Integers: i128 is the signed integer of Common.Int, where each operation is checked, saturates or
-- fails as the source's does (the release profile has overflow checks on); u64 and u32 are natural
-- numbers with the same bounds. The counters of one batch are u32 in the source and at most the
-- batch size of 100, so their sums are written without a check.
--
-- Not modelled: the host itself (storage time to live, fees, the serialization of values), token
-- contracts, which are parameters, getters that return one field, the gas measurement helpers, and
-- events that a failing call publishes, since the failure undoes them. The other contracts of the
-- workspace, the circuit and the scripts are not modelled either.
pub mod Common
pub mod Soroban
pub mod Escrow
pub mod SpendingLimits
pub mod RecurringPayment
pub mod AccessControl
pub mod BatchTransfer
pub mod SavingsGoals
pub mod SharedBudgets
