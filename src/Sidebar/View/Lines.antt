-- ===== src/Sidebar/View/Lines.antt =====
-- `layoutDrop` shows only lines that it is given.
use mure.Base.{
  ℕ, zero, suc, ◌-◌, ◌*◌, ◌/◌, ◌&&◌, ◌||◌, ◌==◌, List, [], ◌∷◌, ◌++◌, ltb, leb, if◌then◌else◌,
  if_ind, length, take, drop, All, All-append,
}
use mure.Sidebar.Layout.{
  replicate, is_nil, window_start, insert_details, clip_lines, clip_blocks, clip_agents, Parts,
  drop_top_pad, drop_footer, drop_bot_div, shrink_header, drop_header, drop_counts, drop_dir_line,
  drop_all, with_details, clip_rows, fit_rows, filler, stack, fitted, with_total, layout_drop,
}

module _ {A : Type 0} (P : A → Type 0) where
  pub All-take : (n : ℕ) (xs : List A) → All P xs → All P (take n xs)
  All-take zero xs a = tt
  All-take (suc n) [] a = tt
  All-take (suc n) (x ∷ xs) a = (a.0, All-take n xs a.1)

  All-drop : (n : ℕ) (xs : List A) → All P xs → All P (drop n xs)
  All-drop zero xs a = a
  All-drop (suc n) [] a = tt
  All-drop (suc n) (x ∷ xs) a = All-drop n xs a.1

  All-replicate : (n : ℕ) (x : A) → P x → All P (replicate n x)
  All-replicate zero x p = tt
  All-replicate (suc n) x p = (p, All-replicate n x p)

  All-insert_details :
      (rows details : List A) (at : ℕ)
      → All P rows
      → All P details
      → All P (insert_details rows details at)
  unfolding insert_details
  All-insert_details rows details at r d =
      let k = if ltb (length rows) at then length rows else at in
      All-append P (take k rows) (details ++ drop k rows) (All-take k rows r)
        (All-append P details (drop k rows) d (All-drop k rows r))

  All-with_details :
      (rows details : List A) (selected start per : ℕ)
      → All P rows
      → All P details
      → All P (with_details rows details selected start per)
  All-with_details rows details selected start per r d =
      if_ind (All P) (is_nil details) _ _ (λ _. r) (λ _. All-insert_details rows details _ r d)

  All-clip_lines :
      (rows : List A) (selected target : ℕ) → All P rows → All P (clip_lines rows selected target).0
  unfolding clip_lines
  All-clip_lines rows selected target r =
      if_ind (λ (c : List A × ℕ). All P c.0) (leb (length rows) target) _ _ (λ _. r)
        (λ _. All-take target _ (All-drop (window_start selected target (length rows)) rows r))

  All-clip_blocks :
      (rows : List A) (selected room per : ℕ)
      → All P rows
      → All P (clip_blocks rows selected room per).0
  unfolding clip_blocks
  All-clip_blocks rows selected room per r =
      if_ind (λ (c : List A × ℕ). All P c.0) (room == 0) _ _ (λ _. tt)
        (λ _.
          if_ind (λ (c : List A × ℕ). All P c.0) (leb (length rows / per) room) _ _
            (λ _. All-take (length rows / per * per) rows r)
            (λ _.
              All-take (room * per) _
                (All-drop (window_start selected room (length rows / per) * per) rows r)))

  All-clip_agents :
      (rows : List A) (selected target per : ℕ)
      → All P rows
      → All P (clip_agents rows selected target per).0
  unfolding clip_agents
  All-clip_agents rows selected target per r =
      if_ind (λ (c : List A × ℕ). All P c.0) (target == 0 || is_nil rows) _ _ (λ _. tt)
        (λ _.
          if_ind (λ (c : List A × ℕ). All P c.0) (leb per 1) _ _
            (λ _. All-clip_lines rows selected target r)
            (λ _. All-clip_blocks rows selected (target / per) per r))

  -- Every line of every section, in their order.
  abbrev pub Each : Parts A → Type 0
  Each p =
      All P p.top_pad
      × All P p.header
      × All P p.dir_line
      × All P p.count_line
      × All P p.disc
      × All P p.top_div
      × All P p.agent_rows
      × All P p.bot_div
      × All P p.footer

  drop_top_pad-Each : (h : ℕ) (p : Parts A) → Each p → Each (drop_top_pad h p)
  unfolding drop_top_pad
  drop_top_pad-Each h p (t, h', r, c, d, v, a, b, f) =
      if_ind Each (ltb h p.total) _ _ (λ _. (tt, h', r, c, d, v, a, b, f))
        (λ _. (t, h', r, c, d, v, a, b, f))

  drop_footer-Each : (h : ℕ) (p : Parts A) → Each p → Each (drop_footer h p)
  unfolding drop_footer
  drop_footer-Each h p (t, h', r, c, d, v, a, b, f) =
      if_ind Each (ltb h p.total) _ _ (λ _. (t, h', r, c, d, v, a, b, tt))
        (λ _. (t, h', r, c, d, v, a, b, f))

  drop_bot_div-Each : (h : ℕ) (p : Parts A) → Each p → Each (drop_bot_div h p)
  unfolding drop_bot_div
  drop_bot_div-Each h p (t, h', r, c, d, v, a, b, f) =
      if_ind Each (ltb h p.total) _ _ (λ _. (t, h', r, c, d, v, a, tt, f))
        (λ _. (t, h', r, c, d, v, a, b, f))

  shrink_header-Each :
      (h : ℕ) (wordmark : A) (p : Parts A) → P wordmark → Each p → Each (shrink_header h wordmark p)
  unfolding shrink_header
  shrink_header-Each h wordmark p w (t, h', r, c, d, v, a, b, f) =
      if_ind Each (ltb h p.total && p.use_logo) _ _ (λ _. (t, (w, tt), r, c, d, v, a, b, f))
        (λ _. (t, h', r, c, d, v, a, b, f))

  drop_header-Each : (h : ℕ) (p : Parts A) → Each p → Each (drop_header h p)
  unfolding drop_header
  drop_header-Each h p (t, h', r, c, d, v, a, b, f) =
      if_ind Each (ltb h p.total) _ _ (λ _. (t, tt, r, c, d, v, a, b, f))
        (λ _. (t, h', r, c, d, v, a, b, f))

  drop_counts-Each : (h : ℕ) (p : Parts A) → Each p → Each (drop_counts h p)
  unfolding drop_counts
  drop_counts-Each h p (t, h', r, c, d, v, a, b, f) =
      if_ind Each (ltb h p.total) _ _ (λ _. (t, h', r, tt, tt, v, a, b, f))
        (λ _. (t, h', r, c, d, v, a, b, f))

  drop_dir_line-Each : (h : ℕ) (p : Parts A) → Each p → Each (drop_dir_line h p)
  unfolding drop_dir_line
  drop_dir_line-Each h p (t, h', r, c, d, v, a, b, f) =
      if_ind Each (ltb h p.total) _ _ (λ _. (t, h', tt, c, d, v, a, b, f))
        (λ _. (t, h', r, c, d, v, a, b, f))

  drop_all-Each :
      (h : ℕ) (wordmark : A) (p : Parts A) → P wordmark → Each p → Each (drop_all h wordmark p)
  unfolding drop_all
  drop_all-Each h wordmark p w e =
      let p3 = drop_bot_div h (drop_footer h (drop_top_pad h p)) in
      let e3 =
        drop_bot_div-Each h (drop_footer h (drop_top_pad h p))
          (drop_footer-Each h (drop_top_pad h p) (drop_top_pad-Each h p e)) in
      let p4 = shrink_header h wordmark p3 in
      let e4 = shrink_header-Each h wordmark p3 w e3 in
      drop_dir_line-Each h (drop_counts h (drop_header h p4))
        (drop_counts-Each h (drop_header h p4) (drop_header-Each h p4 e4))

  fit_rows-Each :
      (h selected per : ℕ) (details : List A) (p : Parts A)
      → All P details
      → Each p
      → Each (fit_rows h selected per details p)
  unfolding fit_rows clip_rows
  fit_rows-Each h selected per details p ds (t, h', r, c, d, v, a, b, f) =
      if_ind Each (ltb h p.total) _ _
        (λ _. (
          t,
          h',
          r,
          c,
          d,
          v,
          All-with_details _ details selected _ per (All-clip_agents p.agent_rows selected _ per a)
              ds,
          b,
          f,
        ))
        (λ _. (t, h', r, c, d, v, All-with_details p.agent_rows details selected 0 per a ds, b, f))

  All-stack : (p : Parts A) (fill : List A) → Each p → All P fill → All P (stack p fill)
  All-stack p fill (t, h', r, c, d, v, a, b, f) l = All-append P p.top_pad _ t (
      All-append P p.header _ h' (
        All-append P p.dir_line _ r (
          All-append P p.count_line _ c (
            All-append P p.disc _ d (
              All-append P p.top_div _ v (
                All-append P p.agent_rows _ a
                  (All-append P fill _ l (All-append P p.bot_div p.footer b f))))))))

  pub All-layout_drop :
      (h selected per : ℕ) (wordmark blank : A) (details : List A) (p : Parts A)
      → P wordmark
      → P blank
      → All P details
      → Each p
      → All P (layout_drop h selected per wordmark blank details p)
  unfolding layout_drop fitted
  All-layout_drop h selected per wordmark blank details p w k ds (t, h', r, c, d, v, a, b, f) =
      let e : Each p = (t, h', r, c, d, v, a, b, f) in
      let q = drop_all h wordmark (with_total details p) in
      let shown = fit_rows h selected per details q in
      if_ind (All P) (ltb 0 h) _ _
        (λ _.
          All-stack shown (filler h blank shown)
            (fit_rows-Each h selected per details q ds
              (drop_all-Each h wordmark (with_total details p) w e))
            (All-replicate (h - shown.total) blank k))
        (λ _.
          All-stack (record p { agent_rows = with_details p.agent_rows details selected 0 per }) []
            (t, h', r, c, d, v, All-with_details p.agent_rows details selected 0 per a ds, b, f) tt)
