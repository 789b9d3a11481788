-- ===== src/SavingsGoals/Search.antt =====
-- `has_dependency_path` of contracts/savings-goals/src/lib.rs: what the search finds.
use stellarspend_contracts.Common.{
  ℕ, zero, suc, ◌≡◌, refl, ◌⊎◌, ◌≢◌, inl, inr, true, false, some, List, [], ◌∷◌, ◌==◌, Map,
  contains, push_back, arith, Bool-cases,
}
use stellarspend_contracts.SavingsGoals.Prerequisites.{
  neighbors_of, next_stack, next_visited, push_unvisited, search,
}
use stellarspend_contracts.SavingsGoals.Reaches.{
  IsIn, Reaches, here, step, push_back_old, push_back_new, push_back_cases, push_unvisited_old,
  push_unvisited_new, push_unvisited_cases,
}

module _ (prereqs : Map (List ℕ)) (target : ℕ) where
  -- A node of the stack that leads to the target.
  abbrev Leads : List ℕ → Type 0
  Leads stack = (a : ℕ) × IsIn a stack × Reaches prereqs target a

  back-Leads :
      (node : ℕ) (stack visited : List ℕ)
      → Leads (next_stack prereqs node stack visited)
      → Leads (node ∷ stack)
  back-Leads node stack visited (a, a_in, leads) = elim (Bool-cases (contains visited node)) [
    | inl seen ↦ (a, ground arith, leads)
    | inr fresh ↦
        let kept : IsIn a
            (push_unvisited (push_back visited node) (neighbors_of prereqs node) stack) =
          ground arith in
        elim (push_unvisited_cases (push_back visited node) (neighbors_of prereqs node) stack a
          kept) [
            | inl next ↦ (node, ground arith, step node a next leads)
            | inr old ↦ (a, ground arith, leads)
          ]
  ]

  pub search_sound :
      (fuel : ℕ) (stack visited : List ℕ)
      → search prereqs target fuel stack visited ≡ some true
      → Leads stack
  unfolding search
  search_sound fuel [] visited h = absurd (ground arith)
  search_sound zero (node ∷ stack) visited h = absurd (ground arith)
  search_sound (suc fuel) (node ∷ stack) visited h = elim (Bool-cases (node == target)) [
    | inl found ↦ let same : node ≡ target = ground arith in (node, ground arith, rw same here)
    | inr other ↦ back-Leads node stack visited (
        search_sound fuel (next_stack prereqs node stack visited) (next_visited node visited)
          (ground arith))
  ]

  -- No visited node is the target, and what a visited node needs is visited or on the stack.
  abbrev IsSwept : (stack visited : List ℕ) → Type 0
  IsSwept stack visited =
      (v : ℕ)
      → IsIn v visited
      → (v ≢ target) × ((n : ℕ) → IsIn n (neighbors_of prereqs v) → IsIn n visited ⊎ IsIn n stack)

  kept_next :
      (node : ℕ) (stack visited : List ℕ) (a : ℕ)
      → IsIn a visited ⊎ IsIn a (node ∷ stack)
      → IsIn a (next_visited node visited) ⊎ IsIn a (next_stack prereqs node stack visited)
  kept_next node stack visited a h = elim (Bool-cases (contains visited node)) [
    | inl seen ↦ elim h [
      | inl old ↦ inl (rw seen old)
      | inr waits ↦ elim (Bool-cases (node == a)) [
        | inl same ↦ let one : node ≡ a = ground arith in inl (rw (seen, ← one) seen)
        | inr other ↦ inr (rw seen (ground arith))
      ]
    ]
    | inr fresh ↦ elim h [
      | inl old ↦ inl (rw fresh (push_back_old visited node a old))
      | inr waits ↦ elim (Bool-cases (node == a)) [
        | inl same ↦
            let one : node ≡ a = ground arith in
            inl (rw (fresh, ← one) (push_back_new visited node))
        | inr other ↦
            let waited : IsIn a stack = ground arith in
            inr (
              rw fresh (
                push_unvisited_old (push_back visited node) (neighbors_of prereqs node) stack a
                  waited))
      ]
    ]
  ]

  visited_cases :
      (node : ℕ) (visited : List ℕ) (v : ℕ)
      → IsIn v (next_visited node visited)
      → IsIn v visited ⊎ ((contains visited node ≡ false) × (node ≡ v))
  visited_cases node visited v h = elim (Bool-cases (contains visited node)) [
    | inl seen ↦ inl (ground arith)
    | inr fresh ↦
        let kept : IsIn v (push_back visited node) = ground arith in
        elim (push_back_cases visited node v kept) [
          | inl old ↦ inl old
          | inr new ↦ inr (fresh, new)
        ]
  ]

  next-IsSwept :
      (node : ℕ) (stack visited : List ℕ)
      → node ≢ target
      → IsSwept (node ∷ stack) visited
      → IsSwept (next_stack prereqs node stack visited) (next_visited node visited)
  next-IsSwept node stack visited other swept v v_in = elim (visited_cases node visited v v_in) [
    | inl old ↦
        let (apart, each) = swept v old in
        (apart, λ n n_in. kept_next node stack visited n (each n n_in))
    | inr (fresh, same) ↦ (
      rw (← same) other,
      λ n n_in. rw fresh (
          push_unvisited_new (push_back visited node) (neighbors_of prereqs node) stack n
            (rw same n_in)),
    )
  ]

  -- Nothing leads from a closed set to the target.
  closed_lem :
      (visited : List ℕ) (a : ℕ) → IsSwept [] visited → IsIn a visited → ¬ Reaches prereqs target a
  closed_lem visited a swept a_in here = (swept target a_in).0 refl
  closed_lem visited a swept a_in (step _ next edge leads) = elim ((swept a a_in).1 next edge) [
    | inl next_in ↦ closed_lem visited next swept next_in leads
    | inr nowhere ↦ absurd (ground arith)
  ]

  pub search_complete :
      (fuel : ℕ) (stack visited : List ℕ) (a : ℕ)
      → IsSwept stack visited
      → search prereqs target fuel stack visited ≡ some false
      → IsIn a visited ⊎ IsIn a stack
      → ¬ Reaches prereqs target a
  unfolding search
  search_complete fuel [] visited a swept h (inl a_in) = closed_lem visited a swept a_in
  search_complete fuel [] visited a swept h (inr a_in) = absurd (ground arith)
  search_complete zero (node ∷ stack) visited a swept h a_in = absurd (ground arith)
  search_complete (suc fuel) (node ∷ stack) visited a swept h a_in =
      elim (Bool-cases (node == target)) [
        | inl found ↦ absurd (ground arith)
        | inr other ↦
            search_complete fuel (next_stack prereqs node stack visited) (next_visited node visited)
              a (next-IsSwept node stack visited (ground arith) swept) (ground arith)
              (kept_next node stack visited a a_in)
      ]
