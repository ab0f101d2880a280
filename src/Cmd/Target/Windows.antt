-- ===== src/Cmd/Target/Windows.antt =====
-- Which window is taken for the one of the subagents.
use mure.Base.{
  ◌≡◌, refl, ap, ◌∙◌, Bool, true, false, List, [], ◌∷◌, ◌++◌, append_assoc, ◌==◌, map, Option, none,
  some, Bytes, codes, equal, is_empty, if◌then◌else◌, All, All-append, append-nil,
}
use mure.Base.Strings.{split-join, split-Lacks, join, IsSolid, IsSolid-Lacks, Lacks}
use mure.Cmd.Target.{
  pieces, non_empty, fields, Row, row_of, rows_of, find_marked, find_named, or_else, find_window,
}

-- `is_trimmed` is for the last line, where the runner trims the space before an empty mark.
pub record Window : Type 0 where
  pub id : Bytes
  pub name : Bytes
  pub is_marked : Bool
  pub is_trimmed : Bool

abbrev pub mark : Bool → Bytes
mark true = codes "1"
mark false = []

-- What stands behind the name.
abbrev pub suffix : Bool → Bool → Bytes
suffix true trimmed = codes " 1"
suffix false false = codes " "
suffix false true = []

-- The line for a window in what tmux prints, as the runner returns it.
abbrev pub window_line : Window → Bytes
window_line w = w.id ++ (b' ' ∷ (w.name ++ suffix w.is_marked w.is_trimmed))

-- The ID and the name are single words.
pub record IsPlain (w : Window) : Type 0 where
  pub solid_id : IsSolid w.id
  pub some_id : is_empty w.id ≡ false
  pub solid_name : IsSolid w.name
  pub some_name : is_empty w.name ≡ false

pieces-IsSolid : (p : Bytes) → IsSolid p → pieces p ≡ p ∷ []
unfolding pieces
pieces-IsSolid [] h = refl
pieces-IsSolid (c ∷ p) h = rw (h.0, pieces-IsSolid p h.1)

pieces-space : (p s : Bytes) → IsSolid p → pieces (p ++ (b' ' ∷ s)) ≡ p ∷ pieces s
unfolding pieces
pieces-space [] s h = refl
pieces-space (c ∷ p) s h = rw (h.0, pieces-space p s h.1)

row : Window → Row
row w = record { id = w.id; name = w.name; marker = mark w.is_marked }

fields-words :
    (id name rest : Bytes)
    → IsSolid id
    → IsSolid name
    → is_empty id ≡ false
    → is_empty name ≡ false
    → fields (id ++ (b' ' ∷ (name ++ (b' ' ∷ rest)))) ≡ id ∷ name ∷ fields rest
unfolding fields non_empty
fields-words id name rest i n p q =
    rw (pieces-space id (name ++ (b' ' ∷ rest)) i, pieces-space name rest n, p, q)

fields-line :
    (id name : Bytes) (b trimmed : Bool)
    → IsSolid id
    → IsSolid name
    → is_empty id ≡ false
    → is_empty name ≡ false
    → fields (id ++ (b' ' ∷ (name ++ suffix b trimmed))) ≡ id ∷ name ∷ fields (mark b)
unfolding fields non_empty pieces
fields-line id name true trimmed i n p q = fields-words id name (codes "1") i n p q
fields-line id name false false i n p q = fields-words id name [] i n p q
fields-line id name false true i n p q =
    rw (append-nil name, pieces-space id name i, pieces-IsSolid name n, p, q)

row_of-line :
    (id name : Bytes) (b trimmed : Bool) (rows : List Row)
    → fields (id ++ (b' ' ∷ (name ++ suffix b trimmed))) ≡ id ∷ name ∷ fields (mark b)
    → row_of (fields (id ++ (b' ' ∷ (name ++ suffix b trimmed)))) rows
      ≡ record { id = id; name = name; marker = mark b } ∷ rows
unfolding fields non_empty pieces
row_of-line id name true trimmed rows e = ap (λ fs. row_of fs rows) e
row_of-line id name false trimmed rows e = ap (λ fs. row_of fs rows) e

suffix-Lacks : (b trimmed : Bool) → Lacks b'\n' (suffix b trimmed)
suffix-Lacks true trimmed = (refl, (refl, tt))
suffix-Lacks false false = (refl, tt)
suffix-Lacks false true = tt

-- The window to take: the first that is marked, or else the first of the name.
unfoldable pub first_marked : List Window → Option Bytes
first_marked [] = none
first_marked (w ∷ ws) = if w.is_marked then some w.id else first_marked ws

unfoldable pub first_named : List Window → Option Bytes
first_named [] = none
first_named (w ∷ ws) = if equal w.name (codes "subagents") then some w.id else first_named ws

rows_of-lines : (ws : List Window) → All IsPlain ws → rows_of (map window_line ws) ≡ map row ws
unfolding rows_of row
rows_of-lines [] h = refl
rows_of-lines (w ∷ ws) h =
    ap (row_of (fields (window_line w))) (rows_of-lines ws h.1)
    ∙ row_of-line w.id w.name w.is_marked w.is_trimmed (map row ws) (
        fields-line w.id w.name w.is_marked w.is_trimmed h.0.solid_id h.0.solid_name h.0.some_id
          h.0.some_name)

equal-mark : (b : Bool) → equal (mark b) (codes "1") ≡ b
unfolding equal
equal-mark true = refl
equal-mark false = refl

find_marked-row : (ws : List Window) → find_marked (map row ws) ≡ first_marked ws
unfolding find_marked first_marked row
find_marked-row [] = refl
find_marked-row (w ∷ ws) = rw (equal-mark w.is_marked, find_marked-row ws)

find_named-row : (ws : List Window) → find_named (map row ws) ≡ first_named ws
unfolding find_named first_named row
find_named-row [] = refl
find_named-row (w ∷ ws) = rw (find_named-row ws)

words-Lacks :
    (id name rest : Bytes)
    → IsSolid id
    → IsSolid name
    → Lacks b'\n' rest
    → Lacks b'\n' (id ++ (b' ' ∷ (name ++ rest)))
words-Lacks id name rest i n r =
    All-append (λ c. (c == b'\n') ≡ false) id (b' ' ∷ (name ++ rest)) (IsSolid-Lacks id i)
      (refl, All-append (λ c. (c == b'\n') ≡ false) name rest (IsSolid-Lacks name n) r)

lines-Lacks : (ws : List Window) → All IsPlain ws → All (Lacks b'\n') (map window_line ws)
lines-Lacks [] h = tt
lines-Lacks (w ∷ ws) h = (
  words-Lacks w.id w.name (suffix w.is_marked w.is_trimmed) h.0.solid_id h.0.solid_name
      (suffix-Lacks w.is_marked w.is_trimmed),
  lines-Lacks ws h.1,
)

-- Where the IDs and names are single words, the window taken from what tmux lists, trimmed or not, is the first that
-- is marked, or else the first that is named `subagents`, or else none.
pub find_window-join :
    (w : Window) (ws : List Window)
    → All IsPlain (w ∷ ws)
    → find_window (join (b'\n' ∷ []) (map window_line (w ∷ ws)))
      ≡ or_else (first_marked (w ∷ ws)) (first_named (w ∷ ws))
unfolding find_window
find_window-join w ws h =
    let e =
      ap rows_of (split-join b'\n' (window_line w) (map window_line ws) (lines-Lacks (w ∷ ws) h))
      ∙ rows_of-lines (w ∷ ws) h in
    ap (λ rows. or_else (find_marked rows) (find_named rows)) e
    ∙ ap (λ o. or_else o (find_named (map row (w ∷ ws)))) (find_marked-row (w ∷ ws))
    ∙ ap (or_else (first_marked (w ∷ ws))) (find_named-row (w ∷ ws))

-- An unmarked window whose name is two words, the second of them `1`, is taken as if it were marked.
pub find_window_mistakes :
    (id word : Bytes)
    → IsSolid id
    → IsSolid word
    → is_empty id ≡ false
    → is_empty word ≡ false
    → find_window (
        window_line
          (record { id = id; name = word ++ codes " 1"; is_marked = false; is_trimmed = false }))
      ≡ some id
unfolding find_window rows_of fields non_empty pieces find_marked equal
find_window_mistakes id word i n p q =
    let line = id ++ (b' ' ∷ (word ++ (b' ' ∷ codes "1 "))) in
    let e : (word ++ codes " 1") ++ codes " " ≡ word ++ codes " 1 " =
      append_assoc word (codes " 1") (codes " ") in
    ap (λ t. find_window (id ++ (b' ' ∷ t))) e
    ∙ ap (λ ls. or_else (find_marked (rows_of ls)) (find_named (rows_of ls)))
        (split-Lacks b'\n' line (words-Lacks id word (codes " 1 ") i n (refl, (refl, (refl, tt)))))
    ∙ ap (λ fs. or_else (find_marked (row_of fs [])) (find_named (row_of fs [])))
        (fields-words id word (codes "1 ") i n p q)
