-- ===== src/SavingsGoals/Reaches.antt =====
-- The graph of prerequisites of contracts/savings-goals/src/lib.rs: what it means that a goal leads
-- to another one, and lists as sets of goals.
use stellarspend_contracts.Common.{
  ℕ, ◌≡◌, ◌⊎◌, inl, inr, true, List, [], ◌∷◌, ◌==◌, Map, contains, push_back, arith, Bool-cases,
}
use stellarspend_contracts.SavingsGoals.Prerequisites.{push_unvisited, neighbors_of}

abbrev pub IsIn : ℕ → List ℕ → Type 0
IsIn a xs = contains xs a ≡ true

-- Following prerequisites leads to the target.
pub data Reaches (prereqs : Map (List ℕ)) (target : ℕ) : ℕ → Type 0 where
  here : Reaches prereqs target target
  step :
      (node next : ℕ)
      → IsIn next (neighbors_of prereqs node)
      → Reaches prereqs target next
      → Reaches prereqs target node

pub push_back_old : (xs : List ℕ) (x a : ℕ) → IsIn a xs → IsIn a (push_back xs x)
push_back_old [] x a h = ground arith
push_back_old (y ∷ xs) x a h = elim (Bool-cases (y == a)) [
  | inl same ↦ ground arith
  | inr other ↦ let old = push_back_old xs x a (ground arith) in ground arith
]

pub push_back_new : (xs : List ℕ) (x : ℕ) → IsIn x (push_back xs x)
push_back_new [] x = ground arith
push_back_new (y ∷ xs) x = let new = push_back_new xs x in ground arith

pub push_back_cases : (xs : List ℕ) (x a : ℕ) → IsIn a (push_back xs x) → IsIn a xs ⊎ (x ≡ a)
push_back_cases [] x a h = inr (ground arith)
push_back_cases (y ∷ xs) x a h = elim (Bool-cases (y == a)) [
  | inl same ↦ inl (ground arith)
  | inr other ↦ elim (push_back_cases xs x a (ground arith)) [
    | inl old ↦ inl (ground arith)
    | inr new ↦ inr new
  ]
]

-- What `push_unvisited` leaves on the stack: the old nodes, and the unvisited neighbors.
pub push_unvisited_old :
    (visited ns stack : List ℕ) (a : ℕ) → IsIn a stack → IsIn a (push_unvisited visited ns stack)
unfolding push_unvisited
push_unvisited_old visited [] stack a h = h
push_unvisited_old visited (n ∷ ns) stack a h = elim (Bool-cases (contains visited n)) [
  | inl seen ↦ rw seen (push_unvisited_old visited ns stack a h)
  | inr fresh ↦ rw fresh (push_unvisited_old visited ns (n ∷ stack) a (ground arith))
]

pub push_unvisited_new :
    (visited ns stack : List ℕ) (a : ℕ)
    → IsIn a ns
    → IsIn a visited ⊎ IsIn a (push_unvisited visited ns stack)
unfolding push_unvisited
push_unvisited_new visited [] stack a h = absurd (ground arith)
push_unvisited_new visited (n ∷ ns) stack a h = elim (Bool-cases (contains visited n)) [
  | inl seen ↦ elim (Bool-cases (n == a)) [
    | inl same ↦ let one : n ≡ a = ground arith in inl (rw (← one) seen)
    | inr other ↦ rw seen (push_unvisited_new visited ns stack a (ground arith))
  ]
  | inr fresh ↦ elim (Bool-cases (n == a)) [
    | inl same ↦ inr (rw fresh (push_unvisited_old visited ns (n ∷ stack) a (ground arith)))
    | inr other ↦ rw fresh (push_unvisited_new visited ns (n ∷ stack) a (ground arith))
  ]
]

pub push_unvisited_cases :
    (visited ns stack : List ℕ) (a : ℕ)
    → IsIn a (push_unvisited visited ns stack)
    → IsIn a ns ⊎ IsIn a stack
unfolding push_unvisited
push_unvisited_cases visited [] stack a h = inr h
push_unvisited_cases visited (n ∷ ns) stack a h = elim (Bool-cases (contains visited n)) [
  | inl seen ↦
      let kept : IsIn a (push_unvisited visited ns stack) = ground arith in
      elim (push_unvisited_cases visited ns stack a kept) [
        | inl next ↦ inl (ground arith)
        | inr old ↦ inr old
      ]
  | inr fresh ↦
      let kept : IsIn a (push_unvisited visited ns (n ∷ stack)) = ground arith in
      elim (push_unvisited_cases visited ns (n ∷ stack) a kept) [
        | inl next ↦ inl (ground arith)
        | inr old ↦ elim (Bool-cases (n == a)) [
          | inl same ↦ inl (ground arith)
          | inr other ↦ inr (ground arith)
        ]
      ]
]
