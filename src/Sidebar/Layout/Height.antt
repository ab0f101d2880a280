-- ===== src/Sidebar/Layout/Height.antt =====
-- The height of what `layoutDrop` returns.
use mure.Base.{
  ℕ, ◌+◌, ◌-◌, ◌*◌, ◌≤◌, ◌<◌, ◌≡◌, refl, ◌&&◌, List, [], ◌∷◌, ltb, if_ind, length, length-append,
  arith,
}
use mure.Sidebar.Layout.{
  Parts, fixed_lines, drop_top_pad, drop_footer, drop_bot_div, shrink_header, drop_header,
  drop_counts, drop_dir_line, drop_all, with_details, clip_rows, fit_rows, fitted, with_total,
  filled, layout_drop, clip_agents,
}
use mure.Sidebar.Layout.Clip.{length-insert_details, length-clip_agents-le, length-replicate}

module _ {ℓ} {A : Type ℓ} where
  -- The running total is right, the sections that `gone` counts are empty where the panel is
  -- still too high, and `t` lines of top divider are kept.
  Stage : (Parts A → ℕ) → ℕ → ℕ → ℕ → Parts A → Type 0
  Stage gone h d t p =
      (p.total ≡ fixed_lines p + length p.agent_rows + d)
      × (h < p.total → gone p ≡ 0)
      × (length p.top_div ≡ t)

  abbrev gone_drop_top_pad : Parts A → ℕ
  gone_drop_top_pad p = length p.top_pad

  abbrev gone_drop_footer : Parts A → ℕ
  gone_drop_footer p = length p.top_pad + length p.footer

  abbrev gone_drop_bot_div : Parts A → ℕ
  gone_drop_bot_div p = length p.top_pad + length p.footer + length p.bot_div

  abbrev gone_shrink_header : Parts A → ℕ
  gone_shrink_header p = length p.top_pad + length p.footer + length p.bot_div

  abbrev gone_drop_header : Parts A → ℕ
  gone_drop_header p = length p.top_pad + length p.footer + length p.bot_div + length p.header

  abbrev gone_drop_counts : Parts A → ℕ
  gone_drop_counts p =
      length p.top_pad
      + length p.footer
      + length p.bot_div
      + length p.header
      + length p.count_line
      + length p.disc

  abbrev gone_drop_dir_line : Parts A → ℕ
  gone_drop_dir_line p =
      length p.top_pad
      + length p.footer
      + length p.bot_div
      + length p.header
      + length p.count_line
      + length p.disc
      + length p.dir_line

  drop_top_pad-Stage :
      (h : ℕ) (d t : ℕ) (p : Parts A)
      → Stage (λ _. 0) h d t p
      → Stage gone_drop_top_pad h d t (drop_top_pad h p)
  unfolding drop_top_pad Stage
  drop_top_pad-Stage h d t p (b, g, e) =
      if_ind (Stage gone_drop_top_pad h d t) (ltb h p.total) _ _ (λ c. (omega arith, λ _. refl, e))
        (λ c. (b, λ q. absurd (ground arith), e))

  drop_footer-Stage :
      (h : ℕ) (d t : ℕ) (p : Parts A)
      → Stage gone_drop_top_pad h d t p
      → Stage gone_drop_footer h d t (drop_footer h p)
  unfolding drop_footer Stage
  drop_footer-Stage h d t p (b, g, e) =
      if_ind (Stage gone_drop_footer h d t) (ltb h p.total) _ _
        (λ c. (omega arith, λ _. ground arith, e)) (λ c. (b, λ q. absurd (ground arith), e))

  drop_bot_div-Stage :
      (h : ℕ) (d t : ℕ) (p : Parts A)
      → Stage gone_drop_footer h d t p
      → Stage gone_drop_bot_div h d t (drop_bot_div h p)
  unfolding drop_bot_div Stage
  drop_bot_div-Stage h d t p (b, g, e) =
      if_ind (Stage gone_drop_bot_div h d t) (ltb h p.total) _ _
        (λ c. (omega arith, λ _. ground arith, e)) (λ c. (b, λ q. absurd (ground arith), e))

  shrink_header-Stage :
      (h : ℕ) (wordmark : A) (d t : ℕ) (p : Parts A)
      → Stage gone_drop_bot_div h d t p
      → Stage gone_shrink_header h d t (shrink_header h wordmark p)
  unfolding shrink_header Stage
  shrink_header-Stage h wordmark d t p (b, g, e) =
      if_ind (Stage gone_shrink_header h d t) (ltb h p.total && p.use_logo) _ _
        (λ c. (omega arith, λ _. ground arith, e)) (λ c. (b, g, e))

  drop_header-Stage :
      (h : ℕ) (d t : ℕ) (p : Parts A)
      → Stage gone_shrink_header h d t p
      → Stage gone_drop_header h d t (drop_header h p)
  unfolding drop_header Stage
  drop_header-Stage h d t p (b, g, e) =
      if_ind (Stage gone_drop_header h d t) (ltb h p.total) _ _
        (λ c. (omega arith, λ _. ground arith, e)) (λ c. (b, λ q. absurd (ground arith), e))

  drop_counts-Stage :
      (h : ℕ) (d t : ℕ) (p : Parts A)
      → Stage gone_drop_header h d t p
      → Stage gone_drop_counts h d t (drop_counts h p)
  unfolding drop_counts Stage
  drop_counts-Stage h d t p (b, g, e) =
      if_ind (Stage gone_drop_counts h d t) (ltb h p.total) _ _
        (λ c. (omega arith, λ _. ground arith, e)) (λ c. (b, λ q. absurd (ground arith), e))

  drop_dir_line-Stage :
      (h : ℕ) (d t : ℕ) (p : Parts A)
      → Stage gone_drop_counts h d t p
      → Stage gone_drop_dir_line h d t (drop_dir_line h p)
  unfolding drop_dir_line Stage
  drop_dir_line-Stage h d t p (b, g, e) =
      if_ind (Stage gone_drop_dir_line h d t) (ltb h p.total) _ _
        (λ c. (omega arith, λ _. ground arith, e)) (λ c. (b, λ q. absurd (ground arith), e))

  drop_all-Stage :
      (h : ℕ) (wordmark : A) (d t : ℕ) (p : Parts A)
      → Stage (λ _. 0) h d t p
      → Stage gone_drop_dir_line h d t (drop_all h wordmark p)
  unfolding drop_all
  drop_all-Stage h wordmark d t p s = drop_dir_line-Stage h d t _ (
      drop_counts-Stage h d t _ (
        drop_header-Stage h d t _ (
          shrink_header-Stage h wordmark d t _ (
            drop_bot_div-Stage h d t _
              (drop_footer-Stage h d t _ (drop_top_pad-Stage h d t _ s))))))

  -- The sections' lines are counted right and are no more than the height.
  Fits : ℕ → Parts A → Type 0
  Fits h p = (p.total ≡ fixed_lines p + length p.agent_rows) × (p.total ≤ h)

  length-with_details :
      (rows details : List A) (selected start k : ℕ)
      → length (with_details rows details selected start k) ≡ length rows + length details
  length-with_details rows [] selected start k = omega arith
  length-with_details rows (x ∷ details) selected start k =
      length-insert_details rows (x ∷ details) ((selected - start + 1) * k)

  fit_rows-Fits :
      (h selected k t : ℕ) (details : List A) (p : Parts A)
      → t + length details ≤ h
      → Stage gone_drop_dir_line h (length details) t p
      → Fits h (fit_rows h selected k details p)
  unfolding fit_rows clip_rows Stage Fits
  fit_rows-Fits h selected k t details p l (b, g, e) =
      let target = h - (fixed_lines p + length details) in
      let clipped = clip_agents p.agent_rows selected target k in
      let room = length-clip_agents-le p.agent_rows selected target k in
      if_ind (Fits h) (ltb h p.total) _ _
        (λ c.
          let q : h < p.total = ground arith in
          (
            refl,
            omega (arith, length-with_details clipped.0 details selected clipped.1 k, g q, room),
          ))
        (λ c. (omega (arith, length-with_details p.agent_rows details selected 0 k), ground arith))

  length-filled : (h : ℕ) (blank : A) (p : Parts A) → Fits h p → length (filled h blank p) ≡ h
  unfolding Fits
  length-filled h blank p (e, l) = grind (arith, length-append, length-replicate)

  -- Where the panel's height is known and the top divider and the details alone fit in it, the
  -- panel has exactly that height, whatever the sections and the agents are.
  pub length-layout_drop :
      (h selected rows_per_agent : ℕ) (wordmark blank : A) (details : List A) (p : Parts A)
      → 0 < h
      → length p.top_div + length details ≤ h
      → length (layout_drop h selected rows_per_agent wordmark blank details p) ≡ h
  unfolding layout_drop fitted Stage
  length-layout_drop h selected rows_per_agent wordmark blank details p pos l =
      if_ind (λ (ls : List A). length ls ≡ h) (ltb 0 h) _ _
        (λ _. length-filled h blank _ (
          fit_rows-Fits h selected rows_per_agent (length p.top_div) details _ l (
            drop_all-Stage h wordmark (length details) (length p.top_div) (with_total details p)
              (refl, (λ _. refl), refl))))
        (λ c. absurd (ground arith))
