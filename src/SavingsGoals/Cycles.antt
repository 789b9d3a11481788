-- ===== src/SavingsGoals/Cycles.antt =====
-- `set_goal_prerequisites` of contracts/savings-goals/src/lib.rs: the search decides whether a goal
-- leads to another one, and the prerequisites stay free of cycles.
use stellarspend_contracts.Common.{
  ℕ, ◌+◌, ◌≤◌, ◌≡◌, ◌≢◌, ◌⊎◌, inl, inr, refl, subst, true, false, some, none, List, [], ◌∷◌, ◌==◌,
  All, insert, arith, Bool-cases, Option-cases,
}
use stellarspend_contracts.Soroban.{Address, Env, ok, Result-cases}
use stellarspend_contracts.SavingsGoals.Types.{SavingsGoal, State}
use stellarspend_contracts.SavingsGoals.Prerequisites.{
  has_dependency_path, check_prerequisites, set_goal_prerequisites,
}
use stellarspend_contracts.SavingsGoals.Reaches.{IsIn, Reaches}
use stellarspend_contracts.SavingsGoals.Search.{search_sound, search_complete}
use stellarspend_contracts.SavingsGoals.Walks.{IsAcyclic, insert-IsAcyclic}
use stellarspend_contracts.SavingsGoals.Fuel.{pending, search_ends}

found_lem :
    (fuel : ℕ) (s : State) (start target : ℕ)
    → has_dependency_path fuel s start target ≡ some true
    → Reaches s.goal_prereqs target start
unfolding has_dependency_path
found_lem fuel s start target h =
    let (a, a_in, leads) = search_sound s.goal_prereqs target fuel (start ∷ []) [] h in
    let same : start ≡ a = ground arith in rw same leads

not_found_lem :
    (fuel : ℕ) (s : State) (start target : ℕ)
    → has_dependency_path fuel s start target ≡ some false
    → ¬ Reaches s.goal_prereqs target start
unfolding has_dependency_path
not_found_lem fuel s start target h =
    search_complete s.goal_prereqs target fuel (start ∷ []) [] start
      (λ v v_in. absurd (ground arith)) h (inr (ground arith))

-- No prerequisites are stored for a goal from `bound` on.
abbrev pub StoredBelow : ℕ → State → Type 0
StoredBelow bound s = (n : ℕ) → bound ≤ n → s.goal_prereqs n ≡ none

-- The fuel that the search needs at most.
abbrev pub enough_fuel : ℕ → State → ℕ
enough_fuel bound s = 1 + pending s.goal_prereqs [] bound

pub has_dependency_path_lem :
    (bound fuel : ℕ) (s : State) (start target : ℕ)
    → StoredBelow bound s
    → enough_fuel bound s ≤ fuel
    → ((has_dependency_path fuel s start target ≡ some true) × Reaches s.goal_prereqs target start)
      ⊎ ((has_dependency_path fuel s start target ≡ some false)
          × (¬ Reaches s.goal_prereqs target start))
unfolding has_dependency_path
has_dependency_path_lem bound fuel s start target small enough =
    let (found, ends) =
      search_ends s.goal_prereqs bound small target fuel (start ∷ []) [] (ground arith) in
    elim (Bool-cases found) [
      | inl yes' ↦
          let e : has_dependency_path fuel s start target ≡ some true = rw (← yes') ends in
          inl (e, found_lem fuel s start target e)
      | inr no' ↦
          let e : has_dependency_path fuel s start target ≡ some false = rw (← no') ends in
          inr (e, not_found_lem fuel s start target e)
    ]

-- What is demanded of a prerequisite.
abbrev pub IsFit : State → Address → (goal_id p : ℕ) → Type 0
IsFit s caller goal_id p =
    (p ≢ goal_id)
    × ((pgoal : SavingsGoal) × (s.goals p ≡ some pgoal) × (pgoal.user ≡ caller))
    × (¬ Reaches s.goal_prereqs goal_id p)

check_prerequisites_ok :
    (fuel : ℕ) (caller : Address) (goal_id : ℕ) (s : State) (ids : List ℕ)
    → check_prerequisites fuel caller goal_id s ids ≡ ok tt
    → All (IsFit s caller goal_id) ids
unfolding check_prerequisites
check_prerequisites_ok fuel caller goal_id s [] h = tt
check_prerequisites_ok fuel caller goal_id s (p ∷ ids) h = elim (Option-cases (s.goals p)) [
  | inl missing ↦ absurd (ground arith)
  | inr (pgoal, stored) ↦ elim (Option-cases (has_dependency_path fuel s p goal_id)) [
    | inl cut ↦ absurd (ground arith)
    | inr (true, found) ↦ absurd (ground arith)
    | inr (false, found) ↦ (
      (ground arith, (pgoal, stored, ground arith), not_found_lem fuel s p goal_id found),
      check_prerequisites_ok fuel caller goal_id s ids (ground arith),
    )
  ]
]

pub set_goal_prerequisites_ok :
    (fuel : ℕ) (env : Env) (caller : Address) (goal_id : ℕ) (ids : List ℕ) (s s' : State)
    → set_goal_prerequisites fuel env caller goal_id ids s ≡ ok s'
    → (goal : SavingsGoal) × (s.goals goal_id ≡ some goal)
      × (goal.user ≡ caller)
      × (env.authorized caller ≡ true)
      × All (IsFit s caller goal_id) ids
      × (s' ≡ record s { goal_prereqs = insert goal_id ids s.goal_prereqs })
unfolding set_goal_prerequisites
set_goal_prerequisites_ok fuel env caller goal_id ids s s' h =
    elim (Option-cases (s.goals goal_id)) [
      | inl missing ↦ absurd (ground arith)
      | inr (goal, stored) ↦ elim (Result-cases (check_prerequisites fuel caller goal_id s ids)) [
        | inl (_, refused) ↦ absurd (ground arith)
        | inr (tt, fit) ↦ (
          goal,
          stored,
          ground arith,
          ground arith,
          check_prerequisites_ok fuel caller goal_id s ids fit,
          ground arith,
        )
      ]
    ]

All_at : (P : ℕ → Type 0) (ids : List ℕ) (a : ℕ) → All P ids → IsIn a ids → P a
All_at P [] a _ h = absurd (ground arith)
All_at P (x ∷ ids) a (first, rest) h = elim (Bool-cases (x == a)) [
  | inl same ↦ let one : x ≡ a = ground arith in subst P one first
  | inr other ↦ All_at P ids a rest (ground arith)
]

-- Setting prerequisites with success keeps a graph of prerequisites without cycles free of cycles,
-- whatever the fuel.
pub set_goal_prerequisites-IsAcyclic :
    (fuel : ℕ) (env : Env) (caller : Address) (goal_id : ℕ) (ids : List ℕ) (s s' : State)
    → IsAcyclic s.goal_prereqs
    → set_goal_prerequisites fuel env caller goal_id ids s ≡ ok s'
    → IsAcyclic s'.goal_prereqs
set_goal_prerequisites-IsAcyclic fuel env caller goal_id ids s s' acyclic h =
    let (_, _, _, _, fit, e) = set_goal_prerequisites_ok fuel env caller goal_id ids s s' h in
    let kept =
      insert-IsAcyclic s.goal_prereqs goal_id ids acyclic
        (λ p p_in. (All_at (IsFit s caller goal_id) ids p fit p_in).2) in
    rw e kept

check_prerequisites-accepts :
    (bound fuel : ℕ) (caller : Address) (goal_id : ℕ) (s : State) (ids : List ℕ)
    → StoredBelow bound s
    → enough_fuel bound s ≤ fuel
    → All (IsFit s caller goal_id) ids
    → check_prerequisites fuel caller goal_id s ids ≡ ok tt
unfolding check_prerequisites
check_prerequisites-accepts bound fuel caller goal_id s [] small enough fit = refl
check_prerequisites-accepts bound fuel caller goal_id s (p ∷ ids) small enough
      ((apart, (pgoal, stored, own), free), fit) =
    elim (has_dependency_path_lem bound fuel s p goal_id small enough) [
      | inl (_, leads) ↦ absurd (free leads)
      | inr (found, _) ↦
          let rest = check_prerequisites-accepts bound fuel caller goal_id s ids small enough fit in
          ground arith
    ]

-- With enough fuel, the owner of a goal can set every list of fit prerequisites.
pub set_goal_prerequisites-accepts :
    (bound fuel : ℕ) (env : Env) (caller : Address) (goal_id : ℕ) (ids : List ℕ) (s : State)
    (goal : SavingsGoal)
    → StoredBelow bound s
    → enough_fuel bound s ≤ fuel
    → env.authorized caller ≡ true
    → s.goals goal_id ≡ some goal
    → goal.user ≡ caller
    → All (IsFit s caller goal_id) ids
    → set_goal_prerequisites fuel env caller goal_id ids s
      ≡ ok (record s { goal_prereqs = insert goal_id ids s.goal_prereqs })
unfolding set_goal_prerequisites
set_goal_prerequisites-accepts bound fuel env caller goal_id ids s goal small enough auth stored own
      fit =
    let checked = check_prerequisites-accepts bound fuel caller goal_id s ids small enough fit in
    ground arith
