-- ===== src/Sidebar/Agents.antt =====
-- internal/sidebar/model.go: the model's list of agents (`sortAgents`, `upsert`, `remove`).
-- `sort.Slice` need not be stable; where IDs are distinct the order is strict, and its result is
-- the one that insertion gives.
pub mod Order
pub mod Find
use mure.Base.{
  Bool, true, false, not, List, [], ◌∷◌, ◌++◌, Bytes, equal, if◌then◌else◌, ◌==◌, ltb, ◌||◌, ◌&&◌,
}
use mure.Base.Strings.{less_bytes}
use mure.Base.Int.{equal_ℤ, less_ℤ}
use mure.Sock.{AgentSnapshot, status_working}

-- The comparison that `sortAgents` sorts by.
unfoldable pub less_agent : AgentSnapshot → AgentSnapshot → Bool
less_agent a b =
    if not (equal_ℤ a.created_at b.created_at)
    then less_ℤ a.created_at b.created_at
    else less_bytes a.id b.id

unfoldable pub insert_agent : AgentSnapshot → List AgentSnapshot → List AgentSnapshot
insert_agent a [] = a ∷ []
insert_agent a (b ∷ bs) =
    let rest = insert_agent a bs in if less_agent b a then b ∷ rest else a ∷ b ∷ bs

unfoldable pub sort_agents : List AgentSnapshot → List AgentSnapshot
unfolding insert_agent
sort_agents [] = []
sort_agents (a ∷ as') = insert_agent a (sort_agents as')

unfoldable pub any_working : List AgentSnapshot → Bool
any_working [] = false
any_working (a ∷ as') = equal a.status status_working || any_working as'

unfoldable pub remove_agent : Bytes → List AgentSnapshot → List AgentSnapshot
remove_agent id [] = []
remove_agent id (x ∷ xs) = if equal x.id id then xs else x ∷ remove_agent id xs

-- The loop of `upsert`: whether it found the agent, and the list with it replaced.
unfoldable pub replace_agent : AgentSnapshot → List AgentSnapshot → Bool × List AgentSnapshot
replace_agent a [] = (false, [])
replace_agent a (x ∷ xs) =
    let (found, rest) = replace_agent a xs in
    if equal x.id a.id then (true, a ∷ xs) else (found, x ∷ rest)

unfoldable pub upsert_agent : AgentSnapshot → List AgentSnapshot → List AgentSnapshot
unfolding replace_agent sort_agents
upsert_agent a xs =
    if (replace_agent a xs).0 then (replace_agent a xs).1 else sort_agents (xs ++ (a ∷ []))
