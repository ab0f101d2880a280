-- ===== src/Base/Strings.antt =====
-- What the program uses of Go's package strings, on ASCII text: white space is its six ASCII bytes.
use Prim.Native.Nat.{ℕ, zero, suc}
use mathlib.Core.Bool.{Bool, true, false, ◌&&◌, ◌||◌}
use mathlib.Core.List.{List, [], ◌∷◌, ◌++◌}
use mathlib.Core.Option.{Option, none, some}
use mathlib.Core.Path.{◌≡◌, refl}
use native.Mathlib.Omega.{arith}
use mure.Base.Lists.{All}
use mure.Base.Tests.{◌==◌, ltb, if◌then◌else◌}
use mure.Base.Text.{Bytes, is_empty}

-- `HasPrefix s p`, with the prefix first.
unfoldable pub has_prefix : Bytes → Bytes → Bool
has_prefix [] s = true
has_prefix (p ∷ ps) [] = false
has_prefix (p ∷ ps) (c ∷ s) = c == p && has_prefix ps s

-- `CutPrefix`: the rest behind the prefix.
unfoldable pub cut_prefix : Bytes → Bytes → Option Bytes
cut_prefix [] s = some s
cut_prefix (p ∷ ps) [] = none
cut_prefix (p ∷ ps) (c ∷ s) = if c == p then cut_prefix ps s else none

abbrev pub or_self : Bytes → Option Bytes → Bytes
or_self s none = s
or_self s (some rest) = rest

unfoldable pub trim_prefix : Bytes → Bytes → Bytes
unfolding cut_prefix
trim_prefix p s = or_self s (cut_prefix p s)

abbrev pub is_space : ℕ → Bool
is_space c = c == 32 || c == 9 || c == 10 || c == 11 || c == 12 || c == 13

unfoldable pub trim_left : Bytes → Bytes
trim_left [] = []
trim_left (c ∷ s) = let rest = trim_left s in if is_space c then rest else c ∷ s

unfoldable pub trim_right : Bytes → Bytes
trim_right [] = []
trim_right (c ∷ s) = let r = trim_right s in if is_empty r && is_space c then [] else c ∷ r

unfoldable pub trim_space : Bytes → Bytes
unfolding trim_left trim_right
trim_space s = trim_right (trim_left s)

-- Puts a byte in front of the first piece.
abbrev pub on_first : ℕ → List Bytes → List Bytes
on_first c [] = (c ∷ []) ∷ []
on_first c (p ∷ ps) = (c ∷ p) ∷ ps

-- `Split` at a byte: never empty.
unfoldable pub split : ℕ → Bytes → List Bytes
split sep [] = [] ∷ []
split sep (c ∷ s) = let ps = split sep s in if c == sep then [] ∷ ps else on_first c ps

-- `SplitN`: at most `n` pieces, the last of them the unsplit rest.
unfoldable pub split_n : ℕ → ℕ → Bytes → List Bytes
split_n sep zero s = []
split_n sep (suc zero) s = s ∷ []
split_n sep (suc (suc n)) [] = [] ∷ []
split_n sep (suc (suc n)) (c ∷ s) =
    let cut = split_n sep (suc n) s in
    let go_on = on_first c (split_n sep (suc (suc n)) s) in if c == sep then [] ∷ cut else go_on

-- The text before the first `sep` and, if there is one, the text behind it.
unfoldable pub cut : ℕ → Bytes → Bytes × Option Bytes
cut sep [] = ([], none)
cut sep (c ∷ s) = if c == sep then ([], some s) else (c ∷ (cut sep s).0, (cut sep s).1)

unfoldable pub join : Bytes → List Bytes → Bytes
join sep [] = []
join sep (p ∷ []) = p
join sep (p ∷ q ∷ ps) = p ++ (sep ++ join sep (q ∷ ps))

-- No byte of the text is `b`.
abbrev pub Lacks : ℕ → Bytes → Type 0
Lacks b s = All (λ c. (c == b) ≡ false) s

abbrev pub IsSolid : Bytes → Type 0
IsSolid s = All (λ c. is_space c ≡ false) s

pub IsSolid-Lacks : (s : Bytes) → IsSolid s → Lacks b'\n' s
IsSolid-Lacks [] h = tt
IsSolid-Lacks (c ∷ s) h = (ground arith, IsSolid-Lacks s h.1)

pub cut_prefix-append : (p s : Bytes) → cut_prefix p (p ++ s) ≡ some s
unfolding cut_prefix
cut_prefix-append [] s = refl
cut_prefix-append (c ∷ p) s = ground (arith, cut_prefix-append p s)

pub trim_prefix-append : (p s : Bytes) → trim_prefix p (p ++ s) ≡ s
unfolding trim_prefix
trim_prefix-append p s = rw cut_prefix-append

trim_left-IsSolid : (s : Bytes) → IsSolid s → trim_left s ≡ s
unfolding trim_left
trim_left-IsSolid [] h = refl
trim_left-IsSolid (c ∷ s) h = rw h.0

trim_right-IsSolid : (s : Bytes) → IsSolid s → trim_right s ≡ s
unfolding trim_right
trim_right-IsSolid [] h = refl
trim_right-IsSolid (c ∷ s) h = ground (arith, trim_right-IsSolid s h.1)

pub trim_space-IsSolid : (s : Bytes) → IsSolid s → trim_space s ≡ s
unfolding trim_space
trim_space-IsSolid s h = rw (trim_left-IsSolid s h) (trim_right-IsSolid s h)

-- Splitting a text that lacks the separator, alone or in front of one.
pub split-Lacks : (sep : ℕ) (p : Bytes) → Lacks sep p → split sep p ≡ p ∷ []
unfolding split
split-Lacks sep [] h = refl
split-Lacks sep (c ∷ p) h = rw (h.0, split-Lacks sep p h.1)

pub split-append :
    (sep : ℕ) (p s : Bytes) → Lacks sep p → split sep (p ++ (sep ∷ s)) ≡ p ∷ split sep s
unfolding split
split-append sep [] s h = ground arith
split-append sep (c ∷ p) s h = rw (h.0, split-append sep p s h.1)

pub split-join :
    (sep : ℕ) (p : Bytes) (ps : List Bytes)
    → All (Lacks sep) (p ∷ ps)
    → split sep (join (sep ∷ []) (p ∷ ps)) ≡ p ∷ ps
unfolding join
split-join sep p [] h = split-Lacks sep p h.0
split-join sep p (q ∷ ps) h = rw (split-append sep p _ h.0, split-join sep q ps h.1)

pub split_n-append :
    (sep n : ℕ) (p s : Bytes)
    → Lacks sep p
    → split_n sep (suc (suc n)) (p ++ (sep ∷ s)) ≡ p ∷ split_n sep (suc n) s
unfolding split_n
split_n-append sep n [] s h = ground arith
split_n-append sep n (c ∷ p) s h = rw (h.0, split_n-append sep n p s h.1)

pub split_n-Lacks : (sep : ℕ) (p : Bytes) → Lacks sep p → split_n sep 2 p ≡ p ∷ []
unfolding split_n
split_n-Lacks sep [] h = refl
split_n-Lacks sep (c ∷ p) h = rw (h.0, split_n-Lacks sep p h.1)

pub cut-append : (sep : ℕ) (p s : Bytes) → Lacks sep p → cut sep (p ++ (sep ∷ s)) ≡ (p, some s)
unfolding cut
cut-append sep [] s h = ground arith
cut-append sep (c ∷ p) s h = ground (arith, cut-append sep p s h.1)

-- `Lacks` of a concrete text.
unfoldable pub is_lacking : ℕ → Bytes → Bool
is_lacking b [] = true
is_lacking b (c ∷ s) = let rest = is_lacking b s in if c == b then false else rest

pub Lacks-test : (b : ℕ) (s : Bytes) → is_lacking b s ≡ true → Lacks b s
unfolding is_lacking
Lacks-test b [] h = tt
Lacks-test b (c ∷ s) h = (ground arith, Lacks-test b s (ground arith))

-- `<` on strings.
unfoldable pub less_bytes : Bytes → Bytes → Bool
less_bytes [] [] = false
less_bytes [] (y ∷ b) = true
less_bytes (x ∷ a) [] = false
less_bytes (x ∷ a) (y ∷ b) = ltb x y || (x == y && less_bytes a b)
