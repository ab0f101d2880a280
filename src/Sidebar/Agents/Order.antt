-- ===== src/Sidebar/Agents/Order.antt =====
-- `sortAgents` gives an ordered arrangement of the same agents.
use mathlib.Core.List.{Perm}
use mathlib.Core.List.Perm
use mure.Base.{◌≡◌, refl, true, false, List, [], ◌∷◌, Bytes, if_ind, arith, inl, inr, Bool-cases}
use mure.Base.Int.{ℤ, pos, negsuc, less_ℤ, equal_ℤ_iff}
use mure.Sock.{AgentSnapshot}
use mure.Base.Strings.{less_bytes}
use mure.Sidebar.Agents.{less_agent, insert_agent, sort_agents}

less_bytes_asym : (a b : Bytes) → less_bytes a b ≡ true → less_bytes b a ≡ false
unfolding less_bytes
less_bytes_asym [] [] h = cc
less_bytes_asym [] (y ∷ b) h = refl
less_bytes_asym (x ∷ a) [] h = cc
less_bytes_asym (x ∷ a) (y ∷ b) h = ground (arith, less_bytes_asym a b)

less_ℤ_asym : (x y : ℤ) → less_ℤ x y ≡ true → less_ℤ y x ≡ false
unfolding less_ℤ
less_ℤ_asym (pos a) (pos b) h = ground arith
less_ℤ_asym (pos a) (negsuc b) h = cc
less_ℤ_asym (negsuc a) (pos b) h = refl
less_ℤ_asym (negsuc a) (negsuc b) h = ground arith

less_agent_asym : (a b : AgentSnapshot) → less_agent a b ≡ true → less_agent b a ≡ false
unfolding less_agent
less_agent_asym a b h = ground (
  arith,
  less_bytes_asym a.id b.id,
  less_ℤ_asym a.created_at b.created_at,
  equal_ℤ_iff a.created_at b.created_at,
  equal_ℤ_iff b.created_at a.created_at,
)

-- No agent stands in front of one that comes before it.
abbrev pub IsSorted : List AgentSnapshot → Type 0
IsSorted [] = Unit {0}
IsSorted (a ∷ []) = Unit {0}
IsSorted (a ∷ b ∷ bs) = (less_agent b a ≡ false) × IsSorted (b ∷ bs)

-- In front of a sorted list that `a` goes into, `x` stays in front if it comes before both.
insert-IsSorted_behind :
    (x a : AgentSnapshot) (xs : List AgentSnapshot)
    → less_agent a x ≡ false
    → IsSorted (x ∷ xs)
    → IsSorted (insert_agent a xs)
    → IsSorted (x ∷ insert_agent a xs)
unfolding insert_agent
insert-IsSorted_behind x a [] h s t = (h, tt)
insert-IsSorted_behind x a (y ∷ ys) h s t = elim (Bool-cases (less_agent y a)) [
  | inl before ↦ rw before (s.0, rw before at t)
  | inr behind ↦ rw behind (h, rw behind at t)
]

tail-IsSorted : (x : AgentSnapshot) (xs : List AgentSnapshot) → IsSorted (x ∷ xs) → IsSorted xs
tail-IsSorted x [] s = tt
tail-IsSorted x (y ∷ ys) s = s.1

insert-IsSorted :
    (a : AgentSnapshot) (xs : List AgentSnapshot) → IsSorted xs → IsSorted (insert_agent a xs)
unfolding insert_agent
insert-IsSorted a [] s = tt
insert-IsSorted a (x ∷ xs) s =
    if_ind IsSorted (less_agent x a) _ _
      (λ before.
        insert-IsSorted_behind x a xs (less_agent_asym x a before) s
          (insert-IsSorted a xs (tail-IsSorted x xs s)))
      (λ behind. (behind, s))

insert-Perm : (a : AgentSnapshot) (xs : List AgentSnapshot) → Perm (insert_agent a xs) (a ∷ xs)
unfolding insert_agent
insert-Perm a [] = Perm.refl _
insert-Perm a (x ∷ xs) =
    if_ind (λ ys. Perm ys (a ∷ x ∷ xs)) (less_agent x a) _ _
      (λ _. Perm.trans (Perm.cons x (insert-Perm a xs)) (Perm.swap a x xs)) (λ _. Perm.refl _)

-- Sorting puts the agents in order of creation and then of ID, and neither adds nor loses one.
pub sort_agents_lem :
    (xs : List AgentSnapshot) → IsSorted (sort_agents xs) × Perm (sort_agents xs) xs
unfolding sort_agents
sort_agents_lem [] = (tt, Perm.refl [])
sort_agents_lem (x ∷ xs) =
    let (sorted, perm) = sort_agents_lem xs in
    (insert-IsSorted x _ sorted, Perm.trans (insert-Perm x _) (Perm.cons x perm))
