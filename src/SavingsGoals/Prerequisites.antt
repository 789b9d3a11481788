-- ===== src/SavingsGoals/Prerequisites.antt =====
-- contracts/savings-goals/src/lib.rs: the prerequisites of a goal. The loop of the search runs on
-- fuel, which stands for the host's budget: a call that uses it up fails. SavingsGoals/Search shows
-- how much is enough.
use stellarspend_contracts.Common.{
  ℕ, zero, suc, Bool, true, false, not, Option, none, some, List, [], ◌∷◌, ◌==◌, Map, contains,
  push_back, insert, unwrap_or, if◌then◌else◌,
}
use stellarspend_contracts.Soroban.{
  Address, Env, contract_error, panicked, Result, ok, ◌>>=◌, ◌>>◌, throw_if, or_throw, require_auth,
}
use stellarspend_contracts.SavingsGoals.Types.{
  SavingsGoalError, State, unauthorized, goal_not_found, dependency_not_met,
}

-- `for n in neighbors.iter() { .. }`. The head of the list is the end of the stack, where `push_back`
-- and `pop_back` work.
unfoldable pub push_unvisited : List ℕ → (neighbors stack : List ℕ) → List ℕ
push_unvisited visited [] stack = stack
push_unvisited visited (n ∷ ns) stack =
    push_unvisited visited ns (if contains visited n then stack else n ∷ stack)

-- `get(&DataKey::GoalPrereqs(node)).unwrap_or(Vec::new(env))`
abbrev pub neighbors_of : Map (List ℕ) → ℕ → List ℕ
neighbors_of prereqs node = unwrap_or (prereqs node) []

-- The stack and the visited nodes behind a node that is not the target.
abbrev pub next_stack : Map (List ℕ) → ℕ → (stack visited : List ℕ) → List ℕ
next_stack prereqs node stack visited =
    if contains visited node
    then stack
    else push_unvisited (push_back visited node) (neighbors_of prereqs node) stack

abbrev pub next_visited : ℕ → (visited : List ℕ) → List ℕ
next_visited node visited = if contains visited node then visited else push_back visited node

-- The `while` loop. `none` is a loop that ran out of fuel.
unfoldable pub search : Map (List ℕ) → (target fuel : ℕ) → (stack visited : List ℕ) → Option Bool
search prereqs target fuel [] visited = some false
search prereqs target zero (node ∷ stack) visited = none
search prereqs target (suc fuel) (node ∷ stack) visited =
    let rest =
      search prereqs target fuel (next_stack prereqs node stack visited)
        (next_visited node visited) in
    if node == target then some true else rest

unfoldable pub has_dependency_path : (fuel : ℕ) → State → (start target : ℕ) → Option Bool
has_dependency_path fuel s start target = search s.goal_prereqs target fuel (start ∷ []) []

module _ (fuel : ℕ) where
  -- The loop that validates the prerequisites.
  unfoldable pub check_prerequisites :
      Address → ℕ → State → List ℕ → Result SavingsGoalError (Unit {0})
  check_prerequisites caller goal_id s [] = ok tt
  check_prerequisites caller goal_id s (p ∷ prereq_ids) = do
    throw_if (p == goal_id) (contract_error dependency_not_met)
    pgoal ← or_throw (s.goals p) (contract_error goal_not_found)
    throw_if (not (pgoal.user == caller)) (contract_error unauthorized)
    found ← or_throw (has_dependency_path fuel s p goal_id) panicked
    throw_if found (contract_error dependency_not_met)
    check_prerequisites caller goal_id s prereq_ids

  unfoldable pub set_goal_prerequisites :
      Env → Address → ℕ → List ℕ → State → Result SavingsGoalError State
  set_goal_prerequisites env caller goal_id prereq_ids s = do
    require_auth env caller
    goal ← or_throw (s.goals goal_id) (contract_error goal_not_found)
    throw_if (not (goal.user == caller)) (contract_error unauthorized)
    check_prerequisites caller goal_id s prereq_ids
    ok (record s { goal_prereqs = insert goal_id prereq_ids s.goal_prereqs })
