-- ===== src/Sidebar/View/Panic.antt =====
-- Where `View` slices out of bounds.
use mure.Base.{
  ℕ, suc, ◌≡◌, refl, ◌∙◌, Bool, true, false, not, ◌&&◌, ◌||◌, List, [], ◌∷◌, Option, none, some,
  Bytes, ltb, arith,
}
use mure.Sock.{AgentSnapshot}
use mure.Sidebar.Model.{Model}
use mure.Sidebar.Layout.{is_nil}
use mure.Sidebar.View.{
  rune_trunc, card, in_front, detail_line, detail_lines, or_dash, row_meta, row_name,
  render_agent_row_tall, render_agent_detail, detail_fields,
}
use mure.Sidebar.View.Panel.{inner_width, is_selected, in_front_of, tall_rows, detailed, body, view}

abbrev pub is_none {ℓ} : {A : Type ℓ} → Option A → Bool
is_none none = true
is_none (some a) = false

card-none :
    (inner bar g : ℕ) (name task meta : Option Bytes)
    → is_none (card inner bar g name task meta) ≡ (is_none name || is_none task || is_none meta)
card-none inner bar g none task meta = refl
card-none inner bar g (some name) none meta = refl
card-none inner bar g (some name) (some task) none = refl
card-none inner bar g (some name) (some task) (some meta) = refl

rune_trunc-none : (s : Bytes) (n k : ℕ) → is_none (rune_trunc s n k) ≡ ltb n k
unfolding rune_trunc
rune_trunc-none s n k = ground arith

in_front_of-none :
    (rows more : Option (List Bytes))
    → is_none (in_front_of rows more) ≡ (is_none rows || is_none more)
in_front_of-none none more = refl
in_front_of-none (some rows) none = refl
in_front_of-none (some rows) (some more) = refl

in_front-none :
    (line : Option Bytes) (lines : Option (List Bytes))
    → is_none (in_front line lines) ≡ (is_none line || is_none lines)
in_front-none none lines = refl
in_front-none (some line) none = refl
in_front-none (some line) (some lines) = refl

detail_line-none :
    (inner : ℕ) (key : Bytes) (v : Option Bytes) → is_none (detail_line inner key v) ≡ is_none v
detail_line-none inner key none = refl
detail_line-none inner key (some v) = refl

tall-none :
    (m : Model) (a : AgentSnapshot) (selected : Bool) (now inner : ℕ)
    → is_none (render_agent_row_tall m a selected now inner) ≡ ltb inner 4
unfolding render_agent_row_tall
tall-none m a selected now inner =
    card-none inner _ _ (rune_trunc (row_name a) inner 4) (rune_trunc (or_dash a.task) inner 3)
      (rune_trunc (row_meta a now) inner 3)
    ∙ rw
        (
          rune_trunc-none (row_name a) inner 4,
          rune_trunc-none (or_dash a.task) inner 3,
          rune_trunc-none (row_meta a now) inner 3,
        )
        (ground arith)

tall_rows-none :
    (m : Model) (now i : ℕ) (agents : List AgentSnapshot)
    → is_none (tall_rows m now i agents) ≡ (not (is_nil agents) && ltb (inner_width m) 4)
unfolding tall_rows
tall_rows-none m now i [] = refl
tall_rows-none m now i (a ∷ agents) =
    in_front_of-none (render_agent_row_tall m a (is_selected m i) now (inner_width m))
      (tall_rows m now (suc i) agents)
    ∙ rw (tall-none m a (is_selected m i) now (inner_width m), tall_rows-none m now (suc i) agents)
        (ground arith)

detail_lines-none :
    (inner : ℕ) (rows : List (Bytes × Bytes))
    → is_none (detail_lines inner rows) ≡ (not (is_nil rows) && ltb inner 10)
unfolding detail_lines
detail_lines-none inner [] = refl
detail_lines-none inner ((key, v) ∷ rows) =
    in_front-none (detail_line inner key (rune_trunc (or_dash v) inner 10))
      (detail_lines inner rows)
    ∙ rw
        (
          detail_line-none inner key (rune_trunc (or_dash v) inner 10),
          rune_trunc-none (or_dash v) inner 10,
          detail_lines-none inner rows,
        )
        (ground arith)

detail-none :
    (now inner : ℕ) (o : Option AgentSnapshot)
    → is_none (render_agent_detail now inner o) ≡ (not (is_none o) && ltb inner 10)
unfolding render_agent_detail
detail-none now inner none = refl
detail-none now inner (some a) = detail_lines-none inner (detail_fields a now)

body-none :
    (m : Model) (now : ℕ) (tall details : Option (List Bytes))
    → is_none (body m now tall details) ≡ (is_none tall || is_none details)
body-none m now none details = refl
body-none m now (some tall) none = refl
body-none m now (some tall) (some details) = refl

-- `View` panics exactly where it shows some agent in fewer than 4 columns, or an agent's details in
-- fewer than 10; a width below 1 counts as 1.
pub view-none :
    (m : Model) (now : ℕ)
    → is_none (view m now) ≡ (
        not (is_nil m.agents) && ltb (inner_width m) 4
        || not (is_none (detailed m)) && ltb (inner_width m) 10)
unfolding view
view-none m now =
    body-none m now (tall_rows m now 0 m.agents)
      (render_agent_detail now (inner_width m) (detailed m))
    ∙ rw (tall_rows-none m now 0 m.agents, detail-none now (inner_width m) (detailed m)) refl
