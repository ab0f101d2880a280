-- ===== src/Sidebar/Agents/Find.antt =====
-- The model's list as a view of the roster: the operations on it fold updates in as the daemon's
-- subscribers do.
use mure.Base.{
  ◌≡◌, refl, ap, subst, ◌∙◌, true, false, List, [], ◌∷◌, ◌++◌, Option, none, some, Bytes, equal,
  equal_iff, if◌then◌else◌, if_ind, arith, inl, inr, Bool-cases,
}
use mure.Sock.{AgentSnapshot}
use mure.Daemon.Roster.Replica.{View}
use mure.Sidebar.Agents.{
  insert_agent, sort_agents, remove_agent, replace_agent, upsert_agent, less_agent,
}

unfoldable pub find_agent : List AgentSnapshot → View
find_agent [] id = none
find_agent (a ∷ as') id = if equal a.id id then some a else find_agent as' id

-- No agent of the list has the ID.
abbrev pub IsFresh : Bytes → List AgentSnapshot → Type 0
IsFresh id [] = Unit {0}
IsFresh id (a ∷ as') = (equal a.id id ≡ false) × IsFresh id as'

abbrev pub HasUniqueIds : List AgentSnapshot → Type 0
HasUniqueIds [] = Unit {0}
HasUniqueIds (a ∷ as') = IsFresh a.id as' × HasUniqueIds as'

pub IsFresh-insert :
    (id : Bytes) (a : AgentSnapshot) (xs : List AgentSnapshot)
    → equal a.id id ≡ false
    → IsFresh id xs
    → IsFresh id (insert_agent a xs)
unfolding insert_agent
IsFresh-insert id a [] h f = (h, tt)
IsFresh-insert id a (x ∷ xs) h f =
    if_ind (IsFresh id) (less_agent x a) _ _ (λ _. (f.0, IsFresh-insert id a xs h f.1))
      (λ _. (h, f))

pub IsFresh-sort :
    (id : Bytes) (xs : List AgentSnapshot) → IsFresh id xs → IsFresh id (sort_agents xs)
unfolding sort_agents
IsFresh-sort id [] f = tt
IsFresh-sort id (x ∷ xs) f = IsFresh-insert id x _ f.0 (IsFresh-sort id xs f.1)

equal_flip : (a b : Bytes) → equal a b ≡ false → equal b a ≡ false
equal_flip a b h = ground (arith, equal_iff a b, equal_iff b a)

HasUniqueIds-insert :
    (a : AgentSnapshot) (xs : List AgentSnapshot)
    → IsFresh a.id xs
    → HasUniqueIds xs
    → HasUniqueIds (insert_agent a xs)
unfolding insert_agent
HasUniqueIds-insert a [] f u = (tt, tt)
HasUniqueIds-insert a (x ∷ xs) f u =
    if_ind HasUniqueIds (less_agent x a) _ _
      (λ _.
        (IsFresh-insert x.id a xs (equal_flip x.id a.id f.0) u.0, HasUniqueIds-insert a xs f.1 u.1))
      (λ _. (f, u))

pub HasUniqueIds-sort : (xs : List AgentSnapshot) → HasUniqueIds xs → HasUniqueIds (sort_agents xs)
unfolding sort_agents
HasUniqueIds-sort [] u = tt
HasUniqueIds-sort (x ∷ xs) u =
    HasUniqueIds-insert x _ (IsFresh-sort x.id xs u.0) (HasUniqueIds-sort xs u.1)

find-insert :
    (a : AgentSnapshot) (xs : List AgentSnapshot) (id : Bytes)
    → IsFresh a.id xs
    → find_agent (insert_agent a xs) id ≡ (if equal a.id id then some a else find_agent xs id)
unfolding insert_agent find_agent
find-insert a [] id f = refl
find-insert a (x ∷ xs) id f =
    ground
      (arith, find-insert a xs id f.1, equal_iff a.id id, equal_iff x.id id, equal_iff x.id a.id)

-- Sorting does not change what is found.
pub find-sort :
    (xs : List AgentSnapshot) (id : Bytes)
    → HasUniqueIds xs
    → find_agent (sort_agents xs) id ≡ find_agent xs id
unfolding sort_agents find_agent
find-sort [] id u = refl
find-sort (x ∷ xs) id u =
    find-insert x (sort_agents xs) id (IsFresh-sort x.id xs u.0)
    ∙ ap (λ (o : Option AgentSnapshot). if equal x.id id then some x else o) (find-sort xs id u.1)

find-IsFresh : (xs : List AgentSnapshot) (id : Bytes) → IsFresh id xs → find_agent xs id ≡ none
unfolding find_agent
find-IsFresh [] id f = refl
find-IsFresh (x ∷ xs) id f = rw f.0 (find-IsFresh xs id f.1)

pub find-remove :
    (k : Bytes) (xs : List AgentSnapshot) (id : Bytes)
    → HasUniqueIds xs
    → find_agent (remove_agent k xs) id ≡ (if equal k id then none else find_agent xs id)
unfolding remove_agent find_agent
find-remove k [] id u = ground arith
find-remove k (x ∷ xs) id u = ground (
  arith,
  find-remove k xs id u.1,
  find-IsFresh xs x.id u.0,
  equal_iff x.id k,
  equal_iff x.id id,
  equal_iff k id,
  ap (find_agent xs),
)

remove-IsFresh :
    (id k : Bytes) (xs : List AgentSnapshot) → IsFresh id xs → IsFresh id (remove_agent k xs)
unfolding remove_agent
remove-IsFresh id k [] f = tt
remove-IsFresh id k (x ∷ xs) f =
    if_ind (IsFresh id) (equal x.id k) _ _ (λ _. f.1) (λ _. (f.0, remove-IsFresh id k xs f.1))

pub HasUniqueIds-remove :
    (k : Bytes) (xs : List AgentSnapshot) → HasUniqueIds xs → HasUniqueIds (remove_agent k xs)
unfolding remove_agent
HasUniqueIds-remove k [] u = tt
HasUniqueIds-remove k (x ∷ xs) u =
    if_ind HasUniqueIds (equal x.id k) _ _ (λ _. u.1)
      (λ _. (remove-IsFresh x.id k xs u.0, HasUniqueIds-remove k xs u.1))

-- The loop of `upsert` finds no agent exactly where the ID is fresh.
replace-IsFresh :
    (a : AgentSnapshot) (xs : List AgentSnapshot) → (replace_agent a xs).0 ≡ false → IsFresh a.id xs
unfolding replace_agent
replace-IsFresh a [] h = tt
replace-IsFresh a (x ∷ xs) h = (ground arith, replace-IsFresh a xs (ground arith))

IsFresh-replace :
    (k : Bytes) (a : AgentSnapshot) (xs : List AgentSnapshot)
    → equal a.id k ≡ false
    → IsFresh k xs
    → IsFresh k (replace_agent a xs).1
unfolding replace_agent
IsFresh-replace k a [] h f = tt
IsFresh-replace k a (x ∷ xs) h f = ground (arith, IsFresh-replace k a xs h f.1)

HasUniqueIds-replace :
    (a : AgentSnapshot) (xs : List AgentSnapshot)
    → HasUniqueIds xs
    → HasUniqueIds (replace_agent a xs).1
unfolding replace_agent
HasUniqueIds-replace a [] u = tt
HasUniqueIds-replace a (x ∷ xs) u = elim (Bool-cases (equal x.id a.id)) [
  | inl hit ↦ rw hit (subst (λ k. IsFresh k xs) ((equal_iff x.id a.id).0 hit) u.0, u.1)
  | inr miss ↦
      rw miss
        (IsFresh-replace x.id a xs (equal_flip x.id a.id miss) u.0, HasUniqueIds-replace a xs u.1)
]

find-replace :
    (a : AgentSnapshot) (xs : List AgentSnapshot) (id : Bytes)
    → (replace_agent a xs).0 ≡ true
    → find_agent (replace_agent a xs).1 id ≡ (if equal a.id id then some a else find_agent xs id)
unfolding replace_agent find_agent
find-replace a [] id h = cc
find-replace a (x ∷ xs) id h =
    ground (arith, find-replace a xs id, equal_iff x.id a.id, equal_iff x.id id, equal_iff a.id id)

find-append :
    (a : AgentSnapshot) (xs : List AgentSnapshot) (id : Bytes)
    → IsFresh a.id xs
    → find_agent (xs ++ (a ∷ [])) id ≡ (if equal a.id id then some a else find_agent xs id)
unfolding find_agent
find-append a [] id f = refl
find-append a (x ∷ xs) id f =
    ground
      (arith, find-append a xs id f.1, equal_iff x.id id, equal_iff a.id id, equal_iff x.id a.id)

IsFresh-append :
    (k : Bytes) (a : AgentSnapshot) (xs : List AgentSnapshot)
    → equal a.id k ≡ false
    → IsFresh k xs
    → IsFresh k (xs ++ (a ∷ []))
IsFresh-append k a [] h f = (h, tt)
IsFresh-append k a (x ∷ xs) h f = (f.0, IsFresh-append k a xs h f.1)

HasUniqueIds-append :
    (a : AgentSnapshot) (xs : List AgentSnapshot)
    → IsFresh a.id xs
    → HasUniqueIds xs
    → HasUniqueIds (xs ++ (a ∷ []))
HasUniqueIds-append a [] f u = (tt, tt)
HasUniqueIds-append a (x ∷ xs) f u =
    (IsFresh-append x.id a xs (equal_flip x.id a.id f.0) u.0, HasUniqueIds-append a xs f.1 u.1)

pub HasUniqueIds-upsert :
    (a : AgentSnapshot) (xs : List AgentSnapshot)
    → HasUniqueIds xs
    → HasUniqueIds (upsert_agent a xs)
unfolding upsert_agent
HasUniqueIds-upsert a xs u =
    if_ind HasUniqueIds (replace_agent a xs).0 _ _ (λ _. HasUniqueIds-replace a xs u)
      (λ h. HasUniqueIds-sort _ (HasUniqueIds-append a xs (replace-IsFresh a xs h) u))

pub find-upsert :
    (a : AgentSnapshot) (xs : List AgentSnapshot) (id : Bytes)
    → HasUniqueIds xs
    → find_agent (upsert_agent a xs) id ≡ (if equal a.id id then some a else find_agent xs id)
unfolding upsert_agent
find-upsert a xs id u =
    if_ind (λ ys. find_agent ys id ≡ (if equal a.id id then some a else find_agent xs id))
      (replace_agent a xs).0 _ _ (λ h. find-replace a xs id h)
      (λ h.
        find-sort _ id (HasUniqueIds-append a xs (replace-IsFresh a xs h) u)
        ∙ find-append a xs id (replace-IsFresh a xs h))
