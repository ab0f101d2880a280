-- ===== src/Sidebar/Layout.antt =====
-- internal/sidebar/model.go: `insertDetails`, `clipAgents` and `layoutDrop`, over any kind of line.
-- A difference that Go sets to 0 where it is negative is one on ℕ.
pub mod Clip
pub mod Height
use mure.Base.{
  ℕ, zero, suc, ◌+◌, ◌-◌, ◌*◌, ◌/◌, Bool, true, false, ◌&&◌, ◌||◌, List, [], ◌∷◌, ◌++◌, ltb, leb,
  ◌==◌, if◌then◌else◌, length, take, drop,
}

abbrev pub replicate {ℓ} : {A : Type ℓ} → ℕ → A → List A
replicate zero a = []
replicate (suc n) a = a ∷ replicate n a

abbrev pub is_nil {ℓ} : {A : Type ℓ} → List A → Bool
is_nil [] = true
is_nil (x ∷ xs) = false

-- The first unit shown, of `n`, with room for `room`.
unfoldable pub window_start : ℕ → ℕ → ℕ → ℕ
window_start selected room n =
    let start = if leb room selected then selected - room + 1 else 0 in
    if ltb n (start + room) then n - room else start

module _ {ℓ} {A : Type ℓ} where
  unfoldable pub insert_details : List A → List A → ℕ → List A
  insert_details agent_rows detail_lines insert_at =
      let at = if ltb (length agent_rows) insert_at then length agent_rows else insert_at in
      take at agent_rows ++ (detail_lines ++ drop at agent_rows)

  unfoldable pub clip_lines : List A → ℕ → ℕ → List A × ℕ
  unfolding window_start
  clip_lines rows selected target =
      if leb (length rows) target
      then (rows, 0)
      else let start = window_start selected target (length rows) in
        (take target (drop start rows), start)

  -- `agentTarget` against `nAgents`.
  unfoldable pub clip_blocks : List A → ℕ → ℕ → ℕ → List A × ℕ
  unfolding window_start
  clip_blocks rows selected room rows_per_agent =
      let n = length rows / rows_per_agent in
      if room == 0
      then ([], 0)
      else if leb n room
      then (take (n * rows_per_agent) rows, 0)
      else let start = window_start selected room n in
        (take (room * rows_per_agent) (drop (start * rows_per_agent) rows), start)

  unfoldable pub clip_agents : List A → ℕ → ℕ → ℕ → List A × ℕ
  unfolding clip_lines clip_blocks
  clip_agents rows selected target rows_per_agent =
      if target == 0 || is_nil rows
      then ([], 0)
      else if leb rows_per_agent 1
      then clip_lines rows selected target
      else clip_blocks rows selected (target / rows_per_agent) rows_per_agent

-- The sections of the panel, and the running `total`.
pub record Parts {ℓ} (A : Type ℓ) : Type ℓ where
  pub top_pad : List A
  pub header : List A
  pub dir_line : List A
  pub count_line : List A
  pub disc : List A
  pub top_div : List A
  pub agent_rows : List A
  pub bot_div : List A
  pub footer : List A
  pub use_logo : Bool
  pub total : ℕ

module _ {ℓ} {A : Type ℓ} where
  -- The lines that are neither agent rows nor details.
  abbrev pub fixed_lines : Parts A → ℕ
  fixed_lines p =
      length p.top_pad
      + length p.header
      + length p.dir_line
      + length p.count_line
      + length p.disc
      + length p.top_div
      + length p.bot_div
      + length p.footer

  unfoldable pub drop_top_pad : ℕ → Parts A → Parts A
  drop_top_pad h p =
      if ltb h p.total then record p { total = p.total - length p.top_pad; top_pad = [] } else p

  unfoldable pub drop_footer : ℕ → Parts A → Parts A
  drop_footer h p =
      if ltb h p.total then record p { total = p.total - length p.footer; footer = [] } else p

  unfoldable pub drop_bot_div : ℕ → Parts A → Parts A
  drop_bot_div h p =
      if ltb h p.total then record p { total = p.total - length p.bot_div; bot_div = [] } else p

  unfoldable pub shrink_header : ℕ → A → Parts A → Parts A
  shrink_header h wordmark p =
      if ltb h p.total && p.use_logo
      then record p {
        total = p.total - length p.header + 1;
        header = wordmark ∷ [];
        use_logo = false;
      }
      else p

  unfoldable pub drop_header : ℕ → Parts A → Parts A
  drop_header h p =
      if ltb h p.total then record p { total = p.total - length p.header; header = [] } else p

  unfoldable pub drop_counts : ℕ → Parts A → Parts A
  drop_counts h p =
      if ltb h p.total
      then record p {
        total = p.total - (length p.count_line + length p.disc);
        count_line = [];
        disc = [];
      }
      else p

  unfoldable pub drop_dir_line : ℕ → Parts A → Parts A
  drop_dir_line h p =
      if ltb h p.total then record p { total = p.total - length p.dir_line; dir_line = [] } else p

  unfoldable pub drop_all : ℕ → A → Parts A → Parts A
  unfolding drop_top_pad drop_footer drop_bot_div shrink_header drop_header drop_counts
      drop_dir_line
  drop_all h wordmark p = drop_dir_line h (
      drop_counts h (
        drop_header h
          (shrink_header h wordmark (drop_bot_div h (drop_footer h (drop_top_pad h p))))))

  -- The agent rows with the details under the selected agent, which is `start` agents down.
  abbrev pub with_details : List A → List A → ℕ → ℕ → ℕ → List A
  with_details rows details selected start rows_per_agent =
      if is_nil details
      then rows
      else insert_details rows details ((selected - start + 1) * rows_per_agent)

  -- Clips the rows where the rest still does not fit, and puts the details in.
  unfoldable pub clip_rows : ℕ → ℕ → ℕ → List A → Parts A → Parts A
  clip_rows h selected rows_per_agent details p =
      let target = h - (fixed_lines p + length details) in
      let clipped = clip_agents p.agent_rows selected target rows_per_agent in
      let rows = with_details clipped.0 details selected clipped.1 rows_per_agent in
      record p { agent_rows = rows; total = fixed_lines p + length rows }

  unfoldable pub fit_rows : ℕ → ℕ → ℕ → List A → Parts A → Parts A
  unfolding clip_rows
  fit_rows h selected rows_per_agent details p =
      if ltb h p.total
      then clip_rows h selected rows_per_agent details p
      else record p { agent_rows = with_details p.agent_rows details selected 0 rows_per_agent }

  abbrev pub filler : ℕ → A → Parts A → List A
  filler h blank p = replicate (h - p.total) blank

  -- The sections in order.
  abbrev pub stack : Parts A → List A → List A
  stack p fill =
      p.top_pad
      ++ (p.header
          ++ (p.dir_line
              ++ (p.count_line
                  ++ (p.disc
                      ++ (p.top_div ++ (p.agent_rows ++ (fill ++ (p.bot_div ++ p.footer))))))))

  -- Where the height is known; `p` comes with the total of its sections and the details.
  unfoldable pub fitted : ℕ → ℕ → ℕ → A → List A → Parts A → Parts A
  unfolding drop_all fit_rows
  fitted h selected rows_per_agent wordmark details p =
      fit_rows h selected rows_per_agent details (drop_all h wordmark p)

  abbrev pub with_total : List A → Parts A → Parts A
  with_total details p = record p { total = fixed_lines p + length p.agent_rows + length details }

  abbrev pub filled : ℕ → A → Parts A → List A
  filled h blank p = stack p (filler h blank p)

  unfoldable pub layout_drop : ℕ → ℕ → ℕ → A → A → List A → Parts A → List A
  unfolding fitted
  layout_drop h selected rows_per_agent wordmark blank details p =
      if ltb 0 h
      then filled h blank (fitted h selected rows_per_agent wordmark details (with_total details p))
      else stack
          (record p { agent_rows = with_details p.agent_rows details selected 0 rows_per_agent }) []
