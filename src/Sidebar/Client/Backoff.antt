-- ===== src/Sidebar/Client/Backoff.antt =====
-- The waits of the reconnecting loop.
use mathlib.Core.Option
use native.Mathlib.Nat.{mul-pos, pow-suc, pow-zero, mul_assoc, mul-one, add-zero, zero-add}
use mure.Base.{
  ℕ, zero, suc, ◌+◌, ◌*◌, ◌/◌, ◌^◌, ◌≤◌, ◌<◌, ◌%◌, ◌≡◌, refl, sym, ap, ◌∙◌, List, [], ◌∷◌, ◌++◌,
  map, some, ltb, if◌then◌else◌, if_ind, get_elem?, arith, All, false,
}
use mure.Sidebar.Model.{Frame}
use mure.Sidebar.Client.{
  Reader, Attempt, dial_fails, hello_fails, connects, session, next_delay, Happening, sends, waits,
  panics, on_error, connection, run_loop, run, read_loop,
}

-- The waits among what happens.
abbrev pub waits_of : List Happening → List ℕ
waits_of [] = []
waits_of (sends f ∷ hs) = waits_of hs
waits_of (waits w ∷ hs) = w ∷ waits_of hs
waits_of (panics ∷ hs) = waits_of hs

waits_of-sends :
    (fs : List Frame) (hs : List Happening) → waits_of (map sends fs ++ hs) ≡ waits_of hs
waits_of-sends [] hs = refl
waits_of-sends (f ∷ fs) hs = waits_of-sends fs hs

-- The delay doubled `k` times, up to its maximum.
abbrev pub doubled : ℕ → ℕ → ℕ → ℕ
doubled base max_delay k = if ltb max_delay (base * 2 ^ k) then max_delay else base * 2 ^ k

pow_pos : (k : ℕ) → 0 < 2 ^ k
pow_pos zero = ground (arith, pow-zero 2)
pow_pos (suc k) = let e = pow_pos k in ground (arith, pow-suc 2 k)

-- The delay is a positive one, and no larger than its maximum.
doubled-bounds :
    (base max_delay k : ℕ)
    → 0 < base
    → base ≤ max_delay
    → (0 < doubled base max_delay k) × (doubled base max_delay k ≤ max_delay)
doubled-bounds base max_delay k h w =
    if_ind (λ (d : ℕ). (0 < d) × (d ≤ max_delay)) (ltb max_delay (base * 2 ^ k)) _ _
      (λ c. (omega arith, omega arith)) (λ c. (mul-pos h (pow_pos k), ground arith))

next_delay-small :
    (max_delay delay : ℕ)
    → delay ≤ max_delay
    → max_delay < 2 ^ 62
    → next_delay max_delay delay ≡ (if ltb max_delay (delay * 2) then max_delay else delay * 2)
unfolding next_delay
next_delay-small max_delay delay h w =
    let small : (delay * 2) % 2 ^ 64 ≡ delay * 2 = omega arith in rw small (ground arith)

next_delay-doubled :
    (base max_delay k : ℕ)
    → base ≤ max_delay
    → 0 < base
    → max_delay < 2 ^ 62
    → next_delay max_delay (doubled base max_delay k) ≡ doubled base max_delay (suc k)
next_delay-doubled base max_delay k h pos w =
    let e : base * 2 ^ suc k ≡ base * 2 ^ k * 2 =
      ap (λ (x : ℕ). base * x) (pow-suc 2 k) ∙ sym (mul_assoc base (2 ^ k) 2) in
    next_delay-small max_delay _ (doubled-bounds base max_delay k pos h).1 w
    ∙ if_ind
        (λ (d : ℕ).
          (if ltb max_delay (d * 2) then max_delay else d * 2) ≡ doubled base max_delay (suc k))
        (ltb max_delay (base * 2 ^ k)) _ _ (λ c. ground (arith, e)) (λ c. ground (arith, e))

on_error-waits :
    (delay j : ℕ) (later : List Happening)
    → 0 < delay
    → delay < 2 ^ 62
    → j < 2 ^ 62
    → on_error delay j later ≡ waits (delay / 2 + j) ∷ later
unfolding on_error
on_error-waits delay j later p h w =
    let small : (delay / 2 + j) % 2 ^ 64 ≡ delay / 2 + j = omega arith in rw small (ground arith)

-- Durations that do not wrap around.
record AreSmall (base max_delay : ℕ) : Type 0 where
  positive : 0 < base
  ordered : base ≤ max_delay
  small : max_delay < 2 ^ 62

abbrev pub AreBelow : ℕ → List (Attempt × ℕ) → Type 0
AreBelow max_delay = All (λ (a : Attempt × ℕ). a.1 < max_delay)

waits_of-run_loop :
    (reader : Reader) (base max_delay delay : ℕ) (a : Attempt) (j : ℕ) (later : List (Attempt × ℕ))
    → 0 < delay
    → delay < 2 ^ 62
    → j < 2 ^ 62
    → waits_of (run_loop reader base max_delay delay ((a, j) ∷ later))
      ≡ (delay / 2 + j)
        ∷ waits_of (run_loop reader base max_delay (next_delay max_delay delay) later)
unfolding run_loop session
waits_of-run_loop reader base max_delay delay dial_fails j later p h w =
    ap waits_of (on_error-waits delay j _ p h w)
waits_of-run_loop reader base max_delay delay hello_fails j later p h w =
    ap waits_of (on_error-waits delay j _ p h w)
waits_of-run_loop reader base max_delay delay (connects reads) j later p h w =
    waits_of-sends (read_loop reader reads) _ ∙ ap waits_of (on_error-waits delay j _ p h w)

loop_step :
    (reader : Reader) (base max_delay n : ℕ) (a : Attempt) (j : ℕ) (later : List (Attempt × ℕ))
    → AreSmall base max_delay
    → j < max_delay
    → waits_of (run_loop reader base max_delay (doubled base max_delay n) ((a, j) ∷ later))
      ≡ (doubled base max_delay n / 2 + j)
        ∷ waits_of (run_loop reader base max_delay (doubled base max_delay (suc n)) later)
loop_step reader base max_delay n a j later s w =
    let (pos, most) = doubled-bounds base max_delay n s.positive s.ordered in
    let sm = s.small in
    waits_of-run_loop reader base max_delay (doubled base max_delay n) a j later pos
      (omega (arith, most, sm)) (omega (arith, w, sm))
    ∙ ap
        (λ d.
          (doubled base max_delay n / 2 + j) ∷ waits_of (run_loop reader base max_delay d later))
        (next_delay-doubled base max_delay n s.ordered s.positive s.small)

loop-waits :
    (reader : Reader) (base max_delay n k : ℕ) (later : List (Attempt × ℕ))
    → AreSmall base max_delay
    → AreBelow max_delay later
    → get_elem? (waits_of (run_loop reader base max_delay (doubled base max_delay n) later)) k
      ≡ Option.map (λ a. doubled base max_delay (n + k) / 2 + a.1) (get_elem? later k)
unfolding run_loop
loop-waits reader base max_delay n k [] s w = refl
loop-waits reader base max_delay n zero ((a, j) ∷ later) s w =
    ap (λ ws. get_elem? ws 0) (loop_step reader base max_delay n a j later s w.0)
    ∙ ap (λ (i : ℕ). some (doubled base max_delay i / 2 + j)) (sym (add-zero n))
loop-waits reader base max_delay n (suc k) ((a, j) ∷ later) s w =
    ap (λ ws. get_elem? ws (suc k)) (loop_step reader base max_delay n a j later s w.0)
    ∙ loop-waits reader base max_delay (suc n) k later s w.1
    ∙ ap
        (λ (i : ℕ).
          Option.map (λ (b : Attempt × ℕ). doubled base max_delay i / 2 + b.1) (get_elem? later k))
        (omega arith)

-- Where the base delay is positive and at most the maximum, the maximum is below 2 ^ 62 nanoseconds,
-- and each jitter is below the maximum, the loop waits behind every attempt without a panic: half of
-- a delay that has doubled once with each attempt so far, up to its maximum, plus the jitter.
-- Sessions that connected and served frames in between do not bring the delay back to its base.
pub run-waits :
    (reader : Reader) (base max_delay k : ℕ) (attempts : List (Attempt × ℕ))
    → 0 < base
    → base ≤ max_delay
    → max_delay < 2 ^ 62
    → AreBelow max_delay attempts
    → get_elem? (waits_of (run reader base max_delay attempts)) k
      ≡ Option.map (λ a. doubled base max_delay k / 2 + a.1) (get_elem? attempts k)
unfolding run
run-waits reader base max_delay k attempts pos h small w =
    let e : base ≡ doubled base max_delay 0 = ground (arith, pow-zero 2, mul-one base) in
    ap (λ d. get_elem? (waits_of (run_loop reader base max_delay d attempts)) k) e
    ∙ loop-waits reader base max_delay 0 k attempts
        (record { positive = pos; ordered = h; small = small }) w
    ∙ ap
        (λ (i : ℕ).
          Option.map (λ (b : Attempt × ℕ). doubled base max_delay i / 2 + b.1)
            (get_elem? attempts k))
        (zero-add k)

-- With a base delay of 0 the loop panics behind the first attempt, and tries no other.
pub run-base_zero :
    (reader : Reader) (max_delay : ℕ) (a : Attempt) (j : ℕ) (attempts : List (Attempt × ℕ))
    → run reader 0 max_delay ((a, j) ∷ attempts)
      ≡ map sends (session reader a).0 ++ (sends (connection false) ∷ panics ∷ [])
unfolding run session run_loop on_error
run-base_zero reader max_delay dial_fails j attempts = refl
run-base_zero reader max_delay hello_fails j attempts = refl
run-base_zero reader max_delay (connects reads) j attempts = refl
