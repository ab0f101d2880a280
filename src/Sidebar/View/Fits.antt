-- ===== src/Sidebar/View/Fits.antt =====
-- The lines that `View` puts together, each against the width that it may have.
use mure.Base.{
  ℕ, zero, suc, ◌+◌, ◌-◌, ◌/◌, ◌≤◌, ◌≡◌, Bool, true, false, not, ◌&&◌, ◌||◌, List, [], ◌∷◌, ◌++◌,
  map, Option, none, some, Bytes, codes, ltb, leb, if◌then◌else◌, if_ind, is_empty, length,
  length-append, take, All, All-append, All-map, arith,
}
use mure.Sock.{AgentSnapshot}
use mure.Sidebar.Model.{Model}
use mure.Sidebar.Layout.{replicate}
use mure.Sidebar.View.{
  spaces, pad, center, rune_trunc, card, row_meta, row_name, or_dash, render_agent_row_tall,
  short_text, render_agent_row, in_front, detail_line, detail_lines, detail_fields,
  render_agent_detail, hints, fill_hints, build_footer,
}
use mure.Sidebar.View.Panel.{
  logo, wordmark, inner_width, is_selected, in_front_of, tall_rows, short_rows, header,
}

abbrev pub Fits : ℕ → Bytes → Type 0
Fits n s = length s ≤ n

pub length-replicate : (n c : ℕ) → length (replicate n c) ≡ n
length-replicate zero c = omega arith
length-replicate (suc n) c = omega (arith, length-replicate n c)

pub length-take : (n : ℕ) (s : Bytes) → length (take n s) ≤ n
length-take zero s = omega arith
length-take (suc n) [] = omega arith
length-take (suc n) (c ∷ s) = omega (arith, length-take n s)

pub pad-Fits : (n : ℕ) (s : Bytes) → Fits n s → Fits n (pad n s)
pad-Fits n s f =
    omega (arith, length-append s (spaces (n - length s)), length-replicate (n - length s) b' ')

pub center-Fits : (n : ℕ) (s : Bytes) → Fits n s → Fits n (center n s)
center-Fits n s f =
    let left = (n - length s) / 2 in
    let right = n - length s - left in
    omega (
      arith,
      length-append (spaces left) (s ++ spaces right),
      length-append s (spaces right),
      length-replicate left b' ',
      length-replicate right b' ',
    )

-- A line, if there is one, that fits behind `k` more runes.
abbrev pub FitsAfter : ℕ → ℕ → Option Bytes → Type 0
FitsAfter n k none = Unit {0}
FitsAfter n k (some s) = k + length s ≤ n

rune_trunc-FitsAfter : (s : Bytes) (n k : ℕ) → FitsAfter n k (rune_trunc s n k)
unfolding rune_trunc
rune_trunc-FitsAfter s n k =
    if_ind (FitsAfter n k) (ltb n k) _ _ (λ _. tt)
      (λ e. let below : k ≤ n = ground arith in omega (arith, length-take (n - k) s))

abbrev pub AllFit : ℕ → Option (List Bytes) → Type 0
AllFit n none = Unit {0}
AllFit n (some lines) = All (Fits n) lines

card-AllFit :
    (n bar g : ℕ) (name task meta : Option Bytes)
    → FitsAfter n 4 name
    → FitsAfter n 3 task
    → FitsAfter n 3 meta
    → AllFit n (card n bar g name task meta)
card-AllFit n bar g none task meta a b c = tt
card-AllFit n bar g (some name) none meta a b c = tt
card-AllFit n bar g (some name) (some task) none a b c = tt
card-AllFit n bar g (some name) (some task) (some meta) a b c = (
  pad-Fits n (bar ∷ b' ' ∷ g ∷ b' ' ∷ name) (omega arith),
  (
    pad-Fits n (bar ∷ b' ' ∷ b' ' ∷ task) (omega arith),
    (pad-Fits n (bar ∷ b' ' ∷ b' ' ∷ meta) (omega arith), tt),
  ),
)

tall_row-AllFit :
    (m : Model) (a : AgentSnapshot) (selected : Bool) (now n : ℕ)
    → AllFit n (render_agent_row_tall m a selected now n)
unfolding render_agent_row_tall
tall_row-AllFit m a selected now n =
    card-AllFit n _ _ _ _ _ (rune_trunc-FitsAfter (row_name a) n 4)
      (rune_trunc-FitsAfter (or_dash a.task) n 3) (rune_trunc-FitsAfter (row_meta a now) n 3)

in_front_of-AllFit :
    (n : ℕ) (rows more : Option (List Bytes))
    → AllFit n rows
    → AllFit n more
    → AllFit n (in_front_of rows more)
in_front_of-AllFit n none more r m = tt
in_front_of-AllFit n (some rows) none r m = tt
in_front_of-AllFit n (some rows) (some more) r m = All-append (Fits n) rows more r m

pub tall_rows-AllFit :
    (m : Model) (now i : ℕ) (agents : List AgentSnapshot)
    → AllFit (inner_width m) (tall_rows m now i agents)
unfolding tall_rows
tall_rows-AllFit m now i [] = tt
tall_rows-AllFit m now i (a ∷ agents) =
    in_front_of-AllFit (inner_width m)
      (render_agent_row_tall m a (is_selected m i) now (inner_width m))
      (tall_rows m now (suc i) agents) (tall_row-AllFit m a (is_selected m i) now (inner_width m))
      (tall_rows-AllFit m now (suc i) agents)

in_front-AllFit :
    (n : ℕ) (line : Option Bytes) (lines : Option (List Bytes))
    → FitsAfter n 0 line
    → AllFit n lines
    → AllFit n (in_front line lines)
in_front-AllFit n none lines l a = tt
in_front-AllFit n (some line) none l a = tt
in_front-AllFit n (some line) (some lines) l a = (omega arith, a)

detail_line-Fits :
    (n : ℕ) (key : Bytes) (v : Option Bytes)
    → length key ≤ 7
    → FitsAfter n 10 v
    → FitsAfter n 0 (detail_line n key v)
detail_line-Fits n key none k f = tt
detail_line-Fits n key (some v) k f =
    let line = codes "   " ++ (pad 7 key ++ v) in
    let fits = pad-Fits n line (omega (arith, length-append (pad 7 key) v, pad-Fits 7 key k)) in
    omega (arith, fits)

detail_lines-AllFit :
    (n : ℕ) (rows : List (Bytes × Bytes))
    → All (λ (r : Bytes × Bytes). length r.0 ≤ 7) rows
    → AllFit n (detail_lines n rows)
unfolding detail_lines
detail_lines-AllFit n [] k = tt
detail_lines-AllFit n ((key, v) ∷ rows) k =
    in_front-AllFit n (detail_line n key (rune_trunc (or_dash v) n 10)) (detail_lines n rows)
      (detail_line-Fits n key (rune_trunc (or_dash v) n 10) k.0
        (rune_trunc-FitsAfter (or_dash v) n 10))
      (detail_lines-AllFit n rows k.1)

pub detail-AllFit : (now n : ℕ) (o : Option AgentSnapshot) → AllFit n (render_agent_detail now n o)
unfolding render_agent_detail
detail-AllFit now n none = tt
detail-AllFit now n (some a) = detail_lines-AllFit n (detail_fields a now) (omega arith)

abbrev pub HintFits : ℕ → Bytes × Bytes → Type 0
HintFits n p = length (p.0 ++ (b' ' ∷ p.1)) ≤ n

fill_hints-Fits :
    (n : ℕ) (cur : Bytes) (pairs : List (Bytes × Bytes))
    → Fits n cur
    → All (HintFits n) pairs
    → All (Fits n) (fill_hints n cur pairs)
unfolding fill_hints
fill_hints-Fits n cur [] c h =
    if_ind (All (Fits n)) (is_empty cur) _ _ (λ _. tt) (λ _. (center-Fits n cur c, tt))
fill_hints-Fits n cur ((key, label) ∷ pairs) c h =
    let seg = key ++ (b' ' ∷ label) in
    let wraps = not (is_empty cur) && ltb n (length cur + 2 + length seg) in
    let next = if wraps || is_empty cur then seg else cur ++ (b' ' ∷ b' ' ∷ seg) in
    let fits : Fits n next =
      if_ind (Fits n) (wraps || is_empty cur) _ _ (λ _. h.0)
        (λ e.
          let room : length cur + 2 + length seg ≤ n = ground arith in
          omega (arith, length-append cur (b' ' ∷ b' ' ∷ seg))) in
    let rest = fill_hints-Fits n next pairs fits h.1 in
    if_ind (All (Fits n)) wraps _ _ (λ _. (center-Fits n cur c, rest)) (λ _. rest)

pub footer-Fits : (n : ℕ) → 13 ≤ n → All (Fits n) (build_footer n)
unfolding build_footer
footer-Fits n w = fill_hints-Fits n [] hints (omega arith) (omega arith)

short_row-Fits :
    (m : Model) (a : AgentSnapshot) (selected : Bool) (now n : ℕ)
    → Fits n (short_text m a false now)
    → Fits n (render_agent_row m a selected now n)
unfolding render_agent_row
short_row-Fits m a false now n f = pad-Fits n (short_text m a false now) f
short_row-Fits m a true now n f =
    if_ind (Fits n) (ltb n (length (short_text m a true now))) _ _
      (λ _. length-take n (short_text m a true now))
      (λ e. pad-Fits n (short_text m a true now) (ground arith))

-- The agent's short row fits where it is not cut.
abbrev pub ShortFits : Model → ℕ → AgentSnapshot → Type 0
ShortFits m now a = Fits (inner_width m) (short_text m a false now)

pub short_rows-Fits :
    (m : Model) (now i : ℕ) (agents : List AgentSnapshot)
    → All (ShortFits m now) agents
    → All (Fits (inner_width m)) (short_rows m now i agents)
unfolding short_rows
short_rows-Fits m now i [] f = tt
short_rows-Fits m now i (a ∷ agents) f = (
  short_row-Fits m a (is_selected m i) now (inner_width m) f.0,
  short_rows-Fits m now (suc i) agents f.1,
)

pub header-Fits : (n : ℕ) → All (Fits n) (header n)
unfolding header
header-Fits n =
    if_ind (All (Fits n)) (leb 27 n) _ _
      (λ e.
        let wide : 27 ≤ n = ground arith in
        All-append (Fits n) (map (center n) logo) (spaces n ∷ [])
          (All-map (λ s. length s ≤ 26) (Fits n) (center n) logo
            (λ s f. center-Fits n s (omega arith)) (omega arith))
          (omega (arith, length-replicate n b' '), tt))
      (λ _. (center-Fits n (take n wordmark) (length-take n wordmark), tt))
