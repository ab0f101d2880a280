-- ===== src/Sidebar/Layout/Clip.antt =====
-- The window of `clipAgents`: within its room, and around the selected agent.
use native.Mathlib.Nat.{zero-add, suc-add, zero-mul, mul-one, mul-div_cancel}
use mure.Base.{
  ℕ, zero, suc, ◌+◌, ◌-◌, ◌*◌, ◌/◌, ◌≤◌, ◌<◌, ◌≡◌, ◌⊎◌, inl, inr, refl, ap, subst, ◌∙◌, true, ◌||◌,
  List, [], ◌∷◌, ◌++◌, ltb, leb, ◌==◌, if◌then◌else◌, if_ind, length, length-append, get_elem?,
  take, drop, arith,
}
use mure.Sidebar.Layout.{
  window_start, clip_lines, clip_blocks, clip_agents, insert_details, is_nil, replicate,
}

module _ {ℓ} {A : Type ℓ} where
  pub length-take : (n : ℕ) (xs : List A) → length (take n xs) ≤ n
  length-take zero xs = omega arith
  length-take (suc n) [] = omega arith
  length-take (suc n) (x ∷ xs) = omega (arith, length-take n xs)

  pub length-take-drop : (n : ℕ) (xs : List A) → length (take n xs) + length (drop n xs) ≡ length xs
  length-take-drop zero xs = omega arith
  length-take-drop (suc n) [] = omega arith
  length-take-drop (suc n) (x ∷ xs) = omega (arith, length-take-drop n xs)

  pub length-replicate : (n : ℕ) (a : A) → length (replicate n a) ≡ n
  length-replicate zero a = refl
  length-replicate (suc n) a = omega (arith, length-replicate n a)

  -- Inserting the details loses no line and makes none up.
  pub length-insert_details :
      (rows details : List A) (at : ℕ)
      → length (insert_details rows details at) ≡ length rows + length details
  unfolding insert_details
  length-insert_details rows details at = omega (
    arith,
    length-append (take (if ltb (length rows) at then length rows else at) rows)
        (details ++ drop (if ltb (length rows) at then length rows else at) rows),
    length-append details (drop (if ltb (length rows) at then length rows else at) rows),
    length-take-drop (if ltb (length rows) at then length rows else at) rows,
  )

-- The window begins at or before the selected unit, ends behind it, and lies within the units.
window_start_lem :
    (selected room n : ℕ)
    → selected < n
    → 0 < room
    → room < n
    → (window_start selected room n ≤ selected)
      × (selected < window_start selected room n + room)
      × (window_start selected room n + room ≤ n)
unfolding window_start
window_start_lem selected room n h r k = ground arith

blocks-le : (target k : ℕ) → (target / k) * k ≤ target
blocks-le target k = grind arith

regroup : (a b k j : ℕ) → a ≤ b → a * k + ((b - a) * k + j) ≡ b * k + j
regroup a b k j h = let e : a + (b - a) ≡ b = omega arith in omega (arith, ap (λ (t : ℕ). t * k) e)

fits : (k target : ℕ) → 0 < k → k ≤ target → 0 < target / k
fits k target p h = grind arith

pos_mul : (n k : ℕ) → 0 < n → 0 < k → 0 < n * k
pos_mul n k h p = grind arith

mul_mono : (a b k : ℕ) → a ≤ b → a * k ≤ b * k
mul_mono a b k h = grind arith

module _ {ℓ} {A : Type ℓ} where
  length-window : (n d : ℕ) (xs : List A) → d + n ≤ length xs → length (take n (drop d xs)) ≡ n
  length-window zero d xs h = refl
  length-window (suc n) zero [] h = absurd (omega arith)
  length-window (suc n) zero (x ∷ xs) h = omega (arith, length-window n zero xs (omega arith))
  length-window (suc n) (suc d) [] h = absurd (omega arith)
  length-window (suc n) (suc d) (x ∷ xs) h = length-window (suc n) d xs (omega arith)

  clip_lines-le :
      (rows : List A) (selected target : ℕ) → length (clip_lines rows selected target).0 ≤ target
  unfolding clip_lines
  clip_lines-le rows selected target =
      if_ind (λ (r : List A × ℕ). length r.0 ≤ target) (leb (length rows) target) _ _
        (λ h. ground arith) (λ _. length-take target _)

  clip_blocks-le :
      (rows : List A) (selected target k : ℕ)
      → length (clip_blocks rows selected (target / k) k).0 ≤ target
  unfolding clip_blocks
  clip_blocks-le rows selected target k =
      if_ind (λ (r : List A × ℕ). length r.0 ≤ target) (target / k == 0) _ _ (λ _. omega arith)
        (λ _.
          if_ind (λ (r : List A × ℕ). length r.0 ≤ target) (leb (length rows / k) (target / k)) _ _
            (λ h. omega (
              arith,
              length-take (length rows / k * k) rows,
              mul_mono (length rows / k) (target / k) k (ground arith),
              blocks-le target k,
            ))
            (λ _. omega (
              arith,
              length-take (target / k * k)
                  (drop (window_start selected (target / k) (length rows / k) * k) rows),
              blocks-le target k,
            )))

  -- The window never takes more lines than it may.
  pub length-clip_agents-le :
      (rows : List A) (selected target k : ℕ)
      → length (clip_agents rows selected target k).0 ≤ target
  unfolding clip_agents
  length-clip_agents-le rows selected target k =
      if_ind (λ (r : List A × ℕ). length r.0 ≤ target) (target == 0 || is_nil rows) _ _
        (λ _. omega arith)
        (λ _.
          if_ind (λ (r : List A × ℕ). length r.0 ≤ target) (leb k 1) _ _
            (λ _. clip_lines-le rows selected target) (λ _. clip_blocks-le rows selected target k))

  get_elem?-drop : (d : ℕ) (xs : List A) (i : ℕ) → get_elem? (drop d xs) i ≡ get_elem? xs (d + i)
  get_elem?-drop zero xs i = rw zero-add
  get_elem?-drop (suc d) [] i = refl
  get_elem?-drop (suc d) (x ∷ xs) i = rw suc-add (get_elem?-drop d xs i)

  get_elem?-take : (n : ℕ) (xs : List A) (i : ℕ) → i < n → get_elem? (take n xs) i ≡ get_elem? xs i
  get_elem?-take zero xs i h = absurd (omega arith)
  get_elem?-take (suc n) [] i h = refl
  get_elem?-take (suc n) (x ∷ xs) zero h = refl
  get_elem?-take (suc n) (x ∷ xs) (suc i) h = get_elem?-take n xs i (omega arith)

  -- What it means that line `i` of `rows` is shown in a window with its start.
  abbrev pub Shows : List A → ℕ → ℕ → ℕ → List A × ℕ → Type ℓ
  Shows rows selected k j r =
      (r.1 ≤ selected)
      × (get_elem? r.0 ((selected - r.1) * k + j) ≡ get_elem? rows (selected * k + j))

  window-Shows :
      (rows : List A) (selected start room k j : ℕ)
      → j < k
      → start ≤ selected
      → selected < start + room
      → Shows rows selected k j (take (room * k) (drop (start * k) rows), start)
  window-Shows rows selected start room k j h lo hi = (
    lo,
    get_elem?-take (room * k) _ ((selected - start) * k + j)
          (inside (selected - start) room (omega arith))
        ∙ get_elem?-drop (start * k) rows ((selected - start) * k + j)
        ∙ ap (get_elem? rows) (regroup start selected k j lo),
  )
    where
      inside : (a b : ℕ) → a < b → a * k + j < b * k
      inside a b l = grind arith

  lines-Shows :
      (rows : List A) (selected target : ℕ)
      → selected < length rows
      → 0 < target
      → Shows rows selected 1 0 (clip_lines rows selected target)
  unfolding clip_lines
  lines-Shows rows selected target h t =
      if_ind (Shows rows selected 1 0) (leb (length rows) target) _ _
        (λ _. (omega arith, ap (get_elem? rows) (omega arith)))
        (λ short.
          let start = window_start selected target (length rows) in
          let (lo, hi, _) = window_start_lem selected target (length rows) h t (ground arith) in
          subst (λ m. Shows rows selected 1 0 (take m (drop start rows), start)) (mul-one target)
            (subst (λ d. Shows rows selected 1 0 (take (target * 1) (drop d rows), start))
              (mul-one start) (window-Shows rows selected start target 1 0 (omega arith) lo hi)))

  blocks-Shows :
      (rows : List A) (selected room k n j : ℕ)
      → length rows / k ≡ n
      → j < k
      → selected < n
      → 0 < room
      → Shows rows selected k j (clip_blocks rows selected room k)
  unfolding clip_blocks
  blocks-Shows rows selected room k n j e h s r = rw e (
      if_ind (Shows rows selected k j) (room == 0) _ _ (λ z. absurd (ground arith))
        (λ _.
          if_ind (Shows rows selected k j) (leb n room) _ _
            (λ _. rw zero-mul at (window-Shows rows selected 0 n k j h (omega arith) (omega arith)))
            (λ short.
              let (lo, hi, _) = window_start_lem selected room n s r (ground arith) in
              window-Shows rows selected (window_start selected room n) room k j h lo hi)))

  nonempty :
      (rows : List A) (target : ℕ)
      → (target == 0 || is_nil rows) ≡ true
      → (target ≡ 0) ⊎ (length rows ≡ 0)
  nonempty [] target z = inr refl
  nonempty (x ∷ xs) target z = inl (ground arith)

  -- Where the rows are blocks of `k` lines, one block for an agent, and there is room for one, all
  -- the lines of the selected agent are shown.
  pub clip_agents-Shows :
      (rows : List A) (selected target k n j : ℕ)
      → length rows ≡ n * k
      → j < k
      → selected < n
      → k ≤ target
      → Shows rows selected k j (clip_agents rows selected target k)
  unfolding clip_agents
  clip_agents-Shows rows selected target k n j e h s t =
      if_ind (Shows rows selected k j) (target == 0 || is_nil rows) _ _
        (λ z.
          absurd (omega (arith, nonempty rows target z, pos_mul n k (omega arith) (omega arith))))
        (λ _.
          if_ind (Shows rows selected k j) (leb k 1) _ _
            (λ one.
              let ek : 1 ≡ k = ground arith in
              let ej : 0 ≡ j = omega arith in
              subst (λ q. Shows rows selected q j (clip_lines rows selected target)) ek
                (subst (λ i. Shows rows selected 1 i (clip_lines rows selected target)) ej
                  (lines-Shows rows selected target (omega (arith, e, ap (λ (x : ℕ). n * x) ek))
                    (omega arith))))
            (λ more.
              blocks-Shows rows selected (target / k) k n j
                (ap (λ x. x / k) e ∙ mul-div_cancel n (omega arith)) h s
                (fits k target (omega arith) t)))
