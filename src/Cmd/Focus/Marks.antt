-- ===== src/Cmd/Focus/Marks.antt =====
-- Which pane is found for an agent, from the marks of the panes.
use mure.Base.{
  ◌≡◌, refl, ap, ◌∙◌, false, List, [], ◌∷◌, ◌++◌, Option, none, some, Bytes, codes, equal,
  if◌then◌else◌, arith, All, ◌≢◌, ◌⊎◌, inl, inr, Option-cases,
}
use mure.Base.Strings.{
  has_prefix, split, split_n, join, Lacks, split-join, split_n-append, split_n-Lacks,
}
use mure.Cmd.Up.{System, Process, tmux_cmd}
use mure.Cmd.Focus.{Focus, list_panes, marked_pane, or_next, pane_in, select_pane, cmd_focus}

-- A line of the listing: a pane with its mark, or the last line with the space behind it trimmed.
pub data Line : Type 0 where
  marked : Bytes → Bytes → Line
  bare : Bytes → Line

abbrev pub line_text : Line → Bytes
line_text (marked pane mark) = pane ++ (b' ' ∷ mark)
line_text (bare pane) = pane

abbrev pub IsLine : Line → Type 0
IsLine (marked pane mark) = Lacks b' ' pane × Lacks b'\n' (pane ++ (b' ' ∷ mark))
IsLine (bare pane) = Lacks b' ' pane × Lacks b'\n' pane

abbrev pub line_texts : List Line → List Bytes
line_texts [] = []
line_texts (l ∷ ls) = line_text l ∷ line_texts ls

-- The first pane with the agent's mark.
abbrev pub first_marked : Bytes → List Line → Option Bytes
first_marked agent [] = none
first_marked agent (marked pane mark ∷ ls) =
    if equal mark agent then some pane else first_marked agent ls
first_marked agent (bare pane ∷ ls) = first_marked agent ls

pane_in-cons :
    (agent : Bytes) (l : Line) (texts : List Bytes)
    → IsLine l
    → pane_in agent (line_text l ∷ texts)
      ≡ or_next (first_marked agent (l ∷ [])) (pane_in agent texts)
unfolding pane_in equal split_n
pane_in-cons agent (marked pane mark) texts w =
    ap (λ ps. or_next (marked_pane agent ps) (pane_in agent texts))
      (split_n-append b' ' 0 pane mark w.0 ∙ refl)
pane_in-cons agent (bare pane) texts w =
    ap (λ ps. or_next (marked_pane agent ps) (pane_in agent texts)) (split_n-Lacks b' ' pane w.0)

or_next-first :
    (agent : Bytes) (l : Line) (ls : List Line)
    → or_next (first_marked agent (l ∷ [])) (first_marked agent ls) ≡ first_marked agent (l ∷ ls)
or_next-first agent (marked pane mark) ls = ground arith
or_next-first agent (bare pane) ls = refl

pane_in-first_marked :
    (agent : Bytes) (ls : List Line)
    → All IsLine ls
    → pane_in agent (line_texts ls) ≡ first_marked agent ls
unfolding pane_in
pane_in-first_marked agent [] w = refl
pane_in-first_marked agent (l ∷ ls) w =
    pane_in-cons agent l (line_texts ls) w.0
    ∙ ap (or_next (first_marked agent (l ∷ []))) (pane_in-first_marked agent ls w.1)
    ∙ or_next-first agent l ls

lines-Lacks : (ls : List Line) → All IsLine ls → All (Lacks b'\n') (line_texts ls)
lines-Lacks [] w = tt
lines-Lacks (marked pane mark ∷ ls) w = (w.0.1, lines-Lacks ls w.1)
lines-Lacks (bare pane ∷ ls) w = (w.0.1, lines-Lacks ls w.1)

abbrev pub select_args : Bytes → List Bytes
select_args pane = codes "select-pane" ∷ codes "-t" ∷ pane ∷ []

-- How a run ends for the pane that was found: with 0 and that pane, which has a name and which tmux
-- selects, or with 1 and no pane, where there is none, it has no name, or tmux fails.
abbrev pub Selects : System → Process → Option Bytes → Focus → Type 0
Selects sys p found r =
    ((pane : Bytes) × (found ≡ some pane)
      × (pane ≢ [])
      × (tmux_cmd sys p (select_args pane) ≢ none)
      × (r.code ≡ 0)
      × (r.pane ≡ some pane))
    ⊎ (((found ≡ none)
          ⊎ ((found ≡ some [])
              ⊎ ((pane : Bytes) × (found ≡ some pane)
                  × (tmux_cmd sys p (select_args pane) ≡ none))))
        × (r.code ≡ 1)
        × (r.pane ≡ none))

select_pane-Selects :
    (sys : System) (p : Process) (found : Option Bytes)
    → Selects sys p found (select_pane sys p found)
select_pane-Selects sys p none = inr (inl refl, refl, refl)
select_pane-Selects sys p (some []) = inr (inr (inl refl), refl, refl)
select_pane-Selects sys p (some (b ∷ s)) =
    elim (Option-cases (tmux_cmd sys p (select_args (b ∷ s)))) [
      | inl fails ↦ rw fails (inr (inr (inr ((b ∷ s), refl, fails)), refl, refl))
      | inr (out, e) ↦ rw e (inl ((b ∷ s), refl, (λ nil. cc), (λ fails. cc), refl, refl))
    ]

-- Where tmux lists the panes, one to a line with its mark, `mure focus` of an agent whose name does
-- not begin with `%` finds the first pane that has the agent's name for its mark: it exits with 0 and
-- that pane is the one selected, where it has a name and tmux selects it; it exits with 1 and no pane
-- is selected where no pane has the mark, the pane has no name, or tmux fails to select it.
pub cmd_focus-first_marked :
    (sys : System) (p : Process) (agent : Bytes) (l : Line) (ls : List Line)
    → has_prefix (codes "%") agent ≡ false
    → tmux_cmd sys p list_panes ≡ some (join (b'\n' ∷ []) (line_texts (l ∷ ls)))
    → All IsLine (l ∷ ls)
    → Selects sys p (first_marked agent (l ∷ ls)) (cmd_focus sys p (agent ∷ []))
unfolding cmd_focus
cmd_focus-first_marked sys p agent l ls named lists w =
    let found : pane_in agent (split b'\n' (join (b'\n' ∷ []) (line_texts (l ∷ ls))))
        ≡ first_marked agent (l ∷ ls) =
      ap (pane_in agent) (split-join b'\n' (line_text l) (line_texts ls) (lines-Lacks (l ∷ ls) w))
      ∙ pane_in-first_marked agent (l ∷ ls) w in
    rw (named, lists, found) (select_pane-Selects sys p (first_marked agent (l ∷ ls)))
