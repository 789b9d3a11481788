-- ===== src/SavingsGoals/Walks.antt =====
-- Walks along the prerequisites of contracts/savings-goals/src/lib.rs, and graphs without cycles.
use stellarspend_contracts.Common.{
  ℕ, ◌⊎◌, inl, inr, subst, Option, List, [], Map, insert, insert_at, insert_ne, unwrap_or,
}
use native.Mathlib.Decide.{ℕ_discrete}
use stellarspend_contracts.SavingsGoals.Prerequisites.{neighbors_of}
use stellarspend_contracts.SavingsGoals.Reaches.{IsIn, Reaches, here, step}

-- No goal leads back to itself.
abbrev pub IsAcyclic : Map (List ℕ) → Type 0
IsAcyclic prereqs = (a next : ℕ) → IsIn next (neighbors_of prereqs a) → ¬ Reaches prereqs a next

-- A walk behind the change either was one before, or passes the changed goal.
module _ (prereqs : Map (List ℕ)) (goal_id : ℕ) (ids : List ℕ) where
  walk_cases :
      (target a : ℕ)
      → Reaches (insert goal_id ids prereqs) target a
      → Reaches prereqs target a
        ⊎ (Reaches prereqs goal_id a × ((p : ℕ) × IsIn p ids × Reaches prereqs target p))
  walk_cases target _ here = inl here
  walk_cases target _ (step node next edge leads) = elim (ℕ_discrete goal_id node) [
    | yes at ↦
        let listed : Option (List ℕ) → Type 0 = λ o. IsIn next (unwrap_or o []) in
        let next_in : IsIn next ids = subst listed (insert_at goal_id node ids prereqs at) edge in
        let from_goal : Reaches prereqs goal_id node = rw (← at) here in
        elim (walk_cases target next leads) [
          | inl old ↦ inr (from_goal, (next, next_in, old))
          | inr (_, through) ↦ inr (from_goal, through)
        ]
    | no apart ↦
        let listed : Option (List ℕ) → Type 0 = λ o. IsIn next (unwrap_or o []) in
        let edge_before : IsIn next (neighbors_of prereqs node) =
          subst listed (insert_ne goal_id node ids prereqs apart) edge in
        elim (walk_cases target next leads) [
          | inl old ↦ inl (step node next edge_before old)
          | inr (to_goal, through) ↦ inr (step node next edge_before to_goal, through)
        ]
  ]

-- Walks put end to end.
walk_on :
    (prereqs : Map (List ℕ)) (middle target a : ℕ)
    → Reaches prereqs middle a
    → Reaches prereqs target middle
    → Reaches prereqs target a
walk_on prereqs middle target _ here rest = rest
walk_on prereqs middle target _ (step node next edge leads) rest =
    step node next edge (walk_on prereqs middle target next leads rest)

pub insert-IsAcyclic :
    (prereqs : Map (List ℕ)) (goal_id : ℕ) (ids : List ℕ)
    → IsAcyclic prereqs
    → ((p : ℕ) → IsIn p ids → ¬ Reaches prereqs goal_id p)
    → IsAcyclic (insert goal_id ids prereqs)
insert-IsAcyclic prereqs goal_id ids acyclic fit a next edge leads =
    let listed : Option (List ℕ) → Type 0 = λ o. IsIn next (unwrap_or o []) in
    elim (ℕ_discrete goal_id a) [
      | yes at ↦
          let next_in : IsIn next ids = subst listed (insert_at goal_id a ids prereqs at) edge in
          elim (walk_cases prereqs goal_id ids a next leads) [
            | inl old ↦ fit next next_in (rw at old)
            | inr (back, _) ↦ fit next next_in back
          ]
      | no apart ↦
          let before : IsIn next (neighbors_of prereqs a) =
            subst listed (insert_ne goal_id a ids prereqs apart) edge in
          elim (walk_cases prereqs goal_id ids a next leads) [
            | inl old ↦ acyclic a next before old
            | inr (to_goal, (p, p_in, to_a)) ↦
                fit p p_in (walk_on prereqs a goal_id p to_a (step a next before to_goal))
          ]
    ]
