-- ===== src/BatchTransfer/Recipients.antt =====
-- The check of duplicate recipients of contracts/batch-transfer/src/validation.rs.
use stellarspend_contracts.Common.{
  ℕ, ◌≡◌, refl, Bool, true, not, ◌&&◌, ◌||◌, List, [], ◌∷◌, map, contains, push_back, arith, ◌==◌,
}
use stellarspend_contracts.BatchTransfer.Types.{TransferRequest}
use stellarspend_contracts.BatchTransfer.Validation.{
  validate_unique_recipient, unique_from, validate_unique_recipients,
}

-- Each entry is missing in the rest of the list behind it.
unfoldable pub all_distinct : List ℕ → Bool
all_distinct [] = true
all_distinct (x ∷ xs) = let rest = all_distinct xs in not (contains xs x) && rest

-- No entry of the second list is in the first.
unfoldable disjoint : List ℕ → List ℕ → Bool
disjoint seen [] = true
disjoint seen (x ∷ xs) = let rest = disjoint seen xs in not (contains seen x) && rest

contains-push_back :
    (xs : List ℕ) (x y : ℕ) → contains (push_back xs x) y ≡ (contains xs y || x == y)
contains-push_back [] x y = ground arith
contains-push_back (z ∷ xs) x y = let rest = contains-push_back xs x y in ground arith

==_comm : (a b : ℕ) → (a == b) ≡ (b == a)
==_comm a b = ground arith

disjoint-push_back :
    (seen : List ℕ) (x : ℕ) (ys : List ℕ)
    → disjoint (push_back seen x) ys ≡ (disjoint seen ys && not (contains ys x))
unfolding disjoint
disjoint-push_back seen x [] = refl
disjoint-push_back seen x (y ∷ ys) =
    let rest = disjoint-push_back seen x ys in
    let head = contains-push_back seen x y in let flip = ==_comm x y in ground arith

unseen : (seen : List ℕ) (x : ℕ) → validate_unique_recipient seen x ≡ not (contains seen x)
unfolding validate_unique_recipient
unseen [] x = refl
unseen (y ∷ seen) x = let rest = unseen seen x in ground arith

abbrev pub recipients : List TransferRequest → List ℕ
recipients transfers = map (λ r. r.recipient) transfers

unique_from_lem :
    (seen : List ℕ) (transfers : List TransferRequest)
    → unique_from seen transfers
      ≡ (disjoint seen (recipients transfers) && all_distinct (recipients transfers))
unfolding unique_from disjoint all_distinct
unique_from_lem seen [] = refl
unique_from_lem seen (r ∷ rs) =
    let rest = unique_from_lem (push_back seen r.recipient) rs in
    let apart = disjoint-push_back seen r.recipient (recipients rs) in
    let first = unseen seen r.recipient in ground arith

disjoint-[] : (xs : List ℕ) → disjoint [] xs ≡ true
unfolding disjoint
disjoint-[] [] = refl
disjoint-[] (x ∷ xs) = disjoint-[] xs

-- The check accepts a batch exactly if no recipient is named twice.
pub validate_unique_recipients-all_distinct :
    (transfers : List TransferRequest)
    → validate_unique_recipients transfers ≡ all_distinct (recipients transfers)
validate_unique_recipients-all_distinct transfers =
    rw (unique_from_lem [] transfers, disjoint-[] (recipients transfers)) refl
