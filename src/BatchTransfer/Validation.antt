-- ===== src/BatchTransfer/Validation.antt =====
-- contracts/batch-transfer/src/validation.rs, and `validate_batch_size` of
-- contracts/shared/src/validation.rs. A check is true where the source answers `Ok`.
use stellarspend_contracts.Common.{
  ℕ, Bool, true, false, not, ◌||◌, Option, none, some, List, [], ◌∷◌, ◌==◌, ltb, push_back,
  if◌then◌else◌,
}
use stellarspend_contracts.Common.Int.{ℤ, pos, leb_ℤ}
use stellarspend_contracts.Soroban.{Address}
use stellarspend_contracts.BatchTransfer.Types.{TransferRequest}

-- Every address is valid.
abbrev validate_address : Address → Bool
validate_address address = true

unfoldable pub validate_unique_recipient : (seen : List Address) → Address → Bool
validate_unique_recipient [] recipient = true
validate_unique_recipient (existing ∷ seen) recipient =
    let rest = validate_unique_recipient seen recipient in
    if existing == recipient then false else rest

-- The loop over the requests, with the recipients seen so far.
unfoldable pub unique_from : (seen : List Address) → List TransferRequest → Bool
unique_from seen [] = true
unique_from seen (request ∷ transfers) =
    let rest = unique_from (push_back seen request.recipient) transfers in
    if validate_unique_recipient seen request.recipient then rest else false

abbrev pub validate_unique_recipients : List TransferRequest → Bool
validate_unique_recipients transfers = unique_from [] transfers

abbrev pub validate_batch_not_empty : {A : Type 0} → List A → Bool
validate_batch_not_empty [] = false
validate_batch_not_empty (x ∷ xs) = true

abbrev pub validate_amount : ℤ → Bool
validate_amount amount = not (leb_ℤ amount (pos 0))

abbrev pub validate_batch_size : (batch_size max_batch_size : ℕ) → Bool
validate_batch_size batch_size max_batch_size =
    not (batch_size == 0 || ltb max_batch_size batch_size)

-- The checks of one request: the code of the error, if there is one.
unfoldable pub check_request : Address → ℤ → Option ℕ
check_request address amount =
    if not (validate_address address)
    then some 0
    else if not (validate_amount amount)
    then some 1
    else none
