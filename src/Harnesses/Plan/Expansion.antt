-- ===== src/Harnesses/Plan/Expansion.antt =====
-- `expandEnvDefaults` comes to an end.
use mure.Base.{
  ℕ, suc, zero, ◌≤◌, ◌≡◌, refl, not, [], ◌∷◌, ◌++◌, Option, none, some, Bytes, is_empty, ◌==◌,
  if_ind, arith, length, drop, codes,
}
use mure.Base.Strings.{has_prefix, cut}
use mure.Harnesses.Markers.{word_length}
use mure.Harnesses.Plan.{
  cut_default, Piece, or_empty, braced_value, braced, bare, variable, next_piece, expand_env,
}

length-drop : (n : ℕ) (s : Bytes) → length (drop n s) ≤ length s
length-drop zero s = omega arith
length-drop (suc n) [] = omega arith
length-drop (suc n) (c ∷ s) = omega (arith, length-drop n s)

length-cut :
    (sep : ℕ) (s : Bytes)
    → (length (cut sep s).0 ≤ length s) × (length (or_empty (cut sep s).1) ≤ length s)
unfolding cut
length-cut sep [] = (omega arith, omega arith)
length-cut sep (c ∷ s) =
    let (before, behind) = length-cut sep s in
    if_ind
      (λ (r : Bytes × Option Bytes).
        (length r.0 ≤ suc (length s)) × (length (or_empty r.1) ≤ suc (length s)))
      (c == sep) _ _ (λ _. (omega arith, omega arith)) (λ _. (omega arith, omega arith))

length-cut_default : (s : Bytes) → length (or_empty (cut_default s).1) ≤ length s
unfolding cut_default
length-cut_default [] = omega arith
length-cut_default (c ∷ s) =
    if_ind (λ (r : Bytes × Option Bytes). length (or_empty r.1) ≤ suc (length s))
      (has_prefix (codes ":-") (c ∷ s)) _ _ (λ _. omega (arith, length-drop 1 s))
      (λ _. omega (arith, length-cut_default s))

-- What a piece leaves to expand is within `n` bytes.
record Within (n : ℕ) (p : Piece) : Type 0 where
  default_fits : length p.default ≤ n
  rest_fits : length p.rest ≤ n

braced_value-Within :
    (v default : Option Bytes) (rest : Bytes) (n : ℕ)
    → length (or_empty default) ≤ n
    → length rest ≤ n
    → Within n (braced_value v default rest)
braced_value-Within v default rest n d r =
    if_ind (Within n) (is_empty (or_empty v)) _ _ (λ _. record { default_fits = d; rest_fits = r })
      (λ _. record { default_fits = omega arith; rest_fits = r })

braced-Within :
    (env : Bytes → Option Bytes) (s expr : Bytes) (o : Option Bytes)
    → length expr ≤ length s
    → length (or_empty o) ≤ length s
    → Within (suc (length s)) (braced env s (expr, o))
braced-Within env s expr none e r = record { default_fits = omega arith; rest_fits = omega arith }
braced-Within env s expr (some rest) e r =
    braced_value-Within (env (cut_default expr).0) (cut_default expr).1 rest (suc (length s))
      (omega (arith, length-cut_default expr)) (omega arith)

bare-Within : (env : Bytes → Option Bytes) (s : Bytes) → Within (length s) (bare env s)
unfolding bare
bare-Within env s =
    if_ind (Within (length s)) (word_length s == 0) _ _
      (λ _. record { default_fits = omega arith; rest_fits = omega arith })
      (λ _. record { default_fits = omega arith; rest_fits = length-drop (word_length s) s })

variable-Within : (env : Bytes → Option Bytes) (s : Bytes) → Within (length s) (variable env s)
unfolding variable
variable-Within env [] = bare-Within env []
variable-Within env (c ∷ s) =
    let (before, behind) = length-cut b'}' s in
    if_ind (Within (suc (length s))) (c == b'{') _ _
      (λ _. braced-Within env s (cut b'}' s).0 (cut b'}' s).1 before behind)
      (λ _. bare-Within env (c ∷ s))

next_piece-Within :
    (env : Bytes → Option Bytes) (c : ℕ) (s : Bytes) → Within (length s) (next_piece env c s)
unfolding next_piece
next_piece-Within env c s =
    if_ind (Within (length s)) (not (c == b'$')) _ _
      (λ _. record { default_fits = omega arith; rest_fits = omega arith })
      (λ _. variable-Within env s)

expand_env-both :
    (n m : ℕ) (env : Bytes → Option Bytes) (p : Bytes)
    → length p ≤ n
    → length p ≤ m
    → (out : Bytes) × (expand_env n env p ≡ some out) × (expand_env m env p ≡ some out)
unfolding expand_env
expand_env-both n m env [] h k = ([], refl, refl)
expand_env-both zero m env (c ∷ s) h k = absurd (omega arith)
expand_env-both (suc n) zero env (c ∷ s) h k = absurd (omega arith)
expand_env-both (suc n) (suc m) env (c ∷ s) h k =
    let p = next_piece env c s in
    let w = next_piece-Within env c s in
    let (default, dn, dm) =
      expand_env-both n m env p.default (omega (arith, w.default_fits))
        (omega (arith, w.default_fits)) in
    let (rest, rn, rm) =
      expand_env-both n m env p.rest (omega (arith, w.rest_fits)) (omega (arith, w.rest_fits)) in
    (p.text ++ (default ++ rest), rw (dn, rn) refl, rw (dm, rm) refl)

-- As many turns as the text has bytes bring `expandEnvDefaults`, with all the defaults that it
-- expands within, to its end; more turns give the same text.
pub expand_env_ends :
    (fuel : ℕ) (env : Bytes → Option Bytes) (p : Bytes)
    → length p ≤ fuel
    → (out : Bytes) × (expand_env fuel env p ≡ some out) × (expand_env (length p) env p ≡ some out)
expand_env_ends fuel env p h = expand_env-both fuel (length p) env p h (omega arith)
