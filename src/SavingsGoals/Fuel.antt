-- ===== src/SavingsGoals/Fuel.antt =====
-- How much fuel the search of contracts/savings-goals/src/lib.rs needs: a unit for the start and one
-- for each prerequisite that is stored.
use stellarspend_contracts.Common.{
  ℕ, zero, suc, ◌+◌, ◌≤◌, ◌≡◌, inl, inr, Bool, true, false, none, some, List, [], ◌∷◌, ◌==◌, ltb,
  Map, contains, push_back, length, arith, Bool-cases, ◌||◌, if◌then◌else◌, refl,
}
use stellarspend_contracts.SavingsGoals.Prerequisites.{
  neighbors_of, next_stack, next_visited, push_unvisited, search,
}

push_unvisited-length :
    (visited ns stack : List ℕ)
    → length (push_unvisited visited ns stack) ≤ length ns + length stack
unfolding push_unvisited
push_unvisited-length visited [] stack = ground arith
push_unvisited-length visited (n ∷ ns) stack = elim (Bool-cases (contains visited n)) [
  | inl seen ↦ let rest = push_unvisited-length visited ns stack in ground arith
  | inr fresh ↦ let rest = push_unvisited-length visited ns (n ∷ stack) in ground arith
]

pub contains-push_back :
    (xs : List ℕ) (x a : ℕ) → contains (push_back xs x) a ≡ (contains xs a || (x == a))
contains-push_back [] x a = ground arith
contains-push_back (y ∷ xs) x a = let rest = contains-push_back xs x a in ground arith

module _ (prereqs : Map (List ℕ)) where
  abbrev pub out_degree : ℕ → ℕ
  out_degree node = length (neighbors_of prereqs node)

  -- The number of prerequisites stored for the unvisited goals below a bound.
  unfoldable pub pending : List ℕ → ℕ → ℕ
  pending visited zero = 0
  pending visited (suc n) = pending visited n + (if contains visited n then 0 else out_degree n)

  pending_push :
      (visited : List ℕ) (node n : ℕ)
      → contains visited node ≡ false
      → pending (push_back visited node) n + (if ltb node n then out_degree node else 0)
        ≡ pending visited n
  unfolding pending
  pending_push visited node zero fresh = ground arith
  pending_push visited node (suc n) fresh =
      let rest = pending_push visited node n fresh in
      let after = contains-push_back visited node n in
      elim (Bool-cases (node == n)) [
        | inl same ↦ let one : node ≡ n = ground arith in ground arith
        | inr other ↦ ground arith
      ]

  module _ (bound : ℕ) (small : (n : ℕ) → bound ≤ n → prereqs n ≡ none) where
    shrinks :
        (node : ℕ) (stack visited : List ℕ)
        → length (next_stack prereqs node stack visited) + pending (next_visited node visited) bound
          ≤ length stack + pending visited bound
    shrinks node stack visited = elim (Bool-cases (contains visited node)) [
      | inl seen ↦ ground arith
      | inr fresh ↦
          let pushed =
            push_unvisited-length (push_back visited node) (neighbors_of prereqs node) stack in
          let moved = pending_push visited node bound fresh in
          elim (Bool-cases (ltb node bound)) [
            | inl low ↦ ground arith
            | inr high ↦
                let none_stored = small node (ground arith) in
                let no_prereqs : out_degree node ≡ 0 = rw none_stored refl in ground arith
          ]
    ]

    pub search_ends :
        (target fuel : ℕ) (stack visited : List ℕ)
        → length stack + pending visited bound ≤ fuel
        → (found : Bool) × (search prereqs target fuel stack visited ≡ some found)
    unfolding search
    search_ends target fuel [] visited h = (false, refl)
    search_ends target zero (node ∷ stack) visited h = absurd (ground arith)
    search_ends target (suc fuel) (node ∷ stack) visited h =
        let fewer = shrinks node stack visited in
        let (found, rest) =
          search_ends target fuel (next_stack prereqs node stack visited)
            (next_visited node visited) (ground arith) in
        elim (Bool-cases (node == target)) [
          | inl arrived ↦ (true, ground arith)
          | inr other ↦ (found, ground arith)
        ]
