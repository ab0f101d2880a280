-- ===== src/Sidebar/Logo/Shades.antt =====
-- The gradient over the logo.
use mure.Base.{
  ℕ, zero, suc, ◌+◌, ◌-◌, ◌<◌, ◌≡◌, refl, sym, ap, ◌∙◌, Bool, List, [], ◌∷◌, ◌++◌, Option, some,
  Bytes, ◌==◌, arith, ==_iff, Bool-cases, inl, inr, ltb, true, ◌^◌,
}
use mure.Sidebar.Themes.{AdaptiveColor, Palette}
use mure.Sidebar.Logo.{
  Float64, lerp, position, pick_variant, format_hex, parse_hex, clamp, blend, gradient_rgb,
  count_visible, total_visible, Cell, space, glyph, render_line, render_lines, render_logo,
}
use mure.Sidebar.Logo.Hex.{IsColour, parse_hex-format_hex}

abbrev pub rune_of : Cell → ℕ
rune_of space = b' '
rune_of (glyph r shade) = r

abbrev pub runes : List Cell → Bytes
runes [] = []
runes (c ∷ cs) = rune_of c ∷ runes cs

abbrev pub rune_lines : List (List Cell) → List Bytes
rune_lines [] = []
rune_lines (l ∷ ls) = runes l ∷ rune_lines ls

abbrev pub shades : List Cell → List (Option Bytes)
shades [] = []
shades (space ∷ cs) = shades cs
shades (glyph r shade ∷ cs) = shade ∷ shades cs

abbrev pub all_shades : List (List Cell) → List (Option Bytes)
all_shades [] = []
all_shades (l ∷ ls) = shades l ++ all_shades ls

-- The values of `f` at `n` numbers from `k` on.
abbrev pub values : (ℕ → Option Bytes) → ℕ → ℕ → List (Option Bytes)
values f k zero = []
values f k (suc n) = f k ∷ values f (suc k) n

module _ (f : ℕ → Option Bytes) where
  values-add : (k m n : ℕ) → values f k (m + n) ≡ values f k m ++ values f (k + m) n
  values-add k zero n =
      let same : 0 + n ≡ n = omega arith in
      let here : k ≡ k + 0 = omega arith in ap (values f k) same ∙ ap (λ j. values f j n) here
  values-add k (suc m) n =
      let more : suc m + n ≡ suc (m + n) = omega arith in
      let there : suc k + m ≡ k + suc m = omega arith in
      ap (values f k) more
      ∙ ap (◌∷◌ (f k)) (values-add (suc k) m n)
      ∙ ap (λ j. f k ∷ (values f (suc k) m ++ values f j n)) there

  runes-render_line : (k : ℕ) (rs : Bytes) → runes (render_line f k rs) ≡ rs
  unfolding render_line
  runes-render_line k [] = refl
  runes-render_line k (r ∷ rs) = elim (Bool-cases (r == b' ')) [
    | inl blank ↦
        rw blank (
          ap (◌∷◌ b' ') (runes-render_line k rs) ∙ ap (λ c. c ∷ rs) (sym ((==_iff r b' ').0 blank)))
    | inr visible ↦ rw visible (ap (◌∷◌ r) (runes-render_line (suc k) rs))
  ]

  shades-render_line :
      (k : ℕ) (rs : Bytes) → shades (render_line f k rs) ≡ values f k (count_visible rs)
  unfolding render_line count_visible
  shades-render_line k [] = refl
  shades-render_line k (r ∷ rs) = elim (Bool-cases (r == b' ')) [
    | inl blank ↦ rw blank (shades-render_line k rs)
    | inr visible ↦ rw visible (ap (◌∷◌ (f k)) (shades-render_line (suc k) rs))
  ]

  runes-render_lines : (k : ℕ) (ls : List Bytes) → rune_lines (render_lines f k ls) ≡ ls
  unfolding render_lines
  runes-render_lines k [] = refl
  runes-render_lines k (l ∷ ls) =
      ap (λ x. x ∷ rune_lines (render_lines f (k + count_visible l) ls)) (runes-render_line k l)
      ∙ ap (◌∷◌ l) (runes-render_lines (k + count_visible l) ls)

  shades-render_lines :
      (k : ℕ) (ls : List Bytes) → all_shades (render_lines f k ls) ≡ values f k (total_visible ls)
  unfolding render_lines total_visible
  shades-render_lines k [] = refl
  shades-render_lines k (l ∷ ls) =
      ap (λ x. x ++ all_shades (render_lines f (k + count_visible l) ls)) (shades-render_line k l)
      ∙ ap (λ x. values f k (count_visible l) ++ x) (shades-render_lines (k + count_visible l) ls)
      ∙ sym (values-add k (count_visible l) (total_visible ls))

-- What IEEE 754 says of sums, products and quotients that come out exactly, and Go of conversions.
pub record IsExact (F : Float64) : Type 0 where
  pub zero_over : (m : ℕ) → 0 < m → m < 2 ^ 63 → F.div (F.of_nat 0) (F.of_nat m) ≡ F.of_nat 0
  pub self_over : (m : ℕ) → 0 < m → m < 2 ^ 63 → F.div (F.of_nat m) (F.of_nat m) ≡ F.of_nat 1
  pub times_zero :
      (x y : ℕ)
      → x < 256
      → y < 256
      → F.add (F.of_nat x) (F.mul (F.sub (F.of_nat y) (F.of_nat x)) (F.of_nat 0)) ≡ F.of_nat x
  pub times_one :
      (x y : ℕ)
      → x < 256
      → y < 256
      → F.mul (F.sub (F.of_nat y) (F.of_nat x)) (F.of_nat 1) ≡ F.sub (F.of_nat y) (F.of_nat x)
  pub difference :
      (x y : ℕ)
      → x < 256
      → y < 256
      → F.add (F.of_nat x) (F.sub (F.of_nat y) (F.of_nat x)) ≡ F.of_nat y
  pub truncates : (x : ℕ) → x < 256 → F.to_uint8 (F.add (F.of_nat x) F.half) ≡ x
  pub less_of_nat : (a b : ℕ) → a < 2 → F.less (F.of_nat a) (F.of_nat b) ≡ ltb a b

module _ (F : Float64) (exact : IsExact F) where
  lerp-first : (x y : ℕ) → x < 256 → y < 256 → lerp F (F.of_nat 0) x y ≡ x
  lerp-first x y h k =
      ap (λ v. F.to_uint8 (F.add v F.half)) (exact.times_zero x y h k) ∙ exact.truncates x h

  lerp-last : (x y : ℕ) → x < 256 → y < 256 → lerp F (F.of_nat 1) x y ≡ y
  lerp-last x y h k =
      ap (λ v. F.to_uint8 (F.add (F.add (F.of_nat x) v) F.half)) (exact.times_one x y h k)
      ∙ ap (λ v. F.to_uint8 (F.add v F.half)) (exact.difference x y h k)
      ∙ exact.truncates y k

  clamp-first : clamp F (F.of_nat 0) ≡ F.of_nat 0
  clamp-first = rw (exact.less_of_nat 0 0 (omega arith), exact.less_of_nat 1 0 (omega arith)) refl

  clamp-last : clamp F (F.of_nat 1) ≡ F.of_nat 1
  clamp-last = rw (exact.less_of_nat 1 0 (omega arith), exact.less_of_nat 1 1 (omega arith)) refl

  position-first : (n : ℕ) → 0 < n → n < 2 ^ 63 → position F 0 n ≡ F.of_nat 0
  position-first n h w =
      let more : ltb 0 n ≡ true = ground arith in
      rw (exact.less_of_nat 0 n (omega arith), more) (exact.zero_over n h w)

  position-last : (n : ℕ) → 0 < n → n < 2 ^ 63 → position F n n ≡ F.of_nat 1
  position-last n h w =
      let more : ltb 0 n ≡ true = ground arith in
      rw (exact.less_of_nat 0 n (omega arith), more) (exact.self_over n h w)

  blend-first :
      (c d : ℕ × ℕ × ℕ)
      → IsColour c
      → IsColour d
      → blend F (F.of_nat 0) (some c) (some d) ≡ some (format_hex c)
  blend-first (r, g, b) (r', g', b') h k =
      rw
        (
          lerp-first r r' h.red k.red,
          lerp-first g g' h.green k.green,
          lerp-first b b' h.blue k.blue,
        )
        refl

  blend-last :
      (c d : ℕ × ℕ × ℕ)
      → IsColour c
      → IsColour d
      → blend F (F.of_nat 1) (some c) (some d) ≡ some (format_hex d)
  blend-last (r, g, b) (r', g', b') h k =
      rw (lerp-last r r' h.red k.red, lerp-last g g' h.green k.green, lerp-last b b' h.blue k.blue)
        refl

  -- The blend of two colours at a position, in the channels of each.
  blend-colours :
      (dark : Bool) (a b : AdaptiveColor) (c d : ℕ × ℕ × ℕ) (t : F.Value)
      → pick_variant dark a ≡ format_hex c
      → pick_variant dark b ≡ format_hex d
      → IsColour c
      → IsColour d
      → gradient_rgb F dark a b t ≡ blend F (clamp F t) (some c) (some d)
  unfolding gradient_rgb
  blend-colours dark a b c d t ea eb hc hd =
      ap (λ x. blend F (clamp F t) x (parse_hex (pick_variant dark b)))
        (ap parse_hex ea ∙ parse_hex-format_hex c hc)
      ∙ ap (blend F (clamp F t) (some c)) (ap parse_hex eb ∙ parse_hex-format_hex d hd)

-- The logo is drawn with its own runes, and the visible ones, over all lines in order, take the
-- shades of the gradient one by one; where there are two visible runes or more, and no more than an
-- int counts, the accents are
-- colours in lower case, and the arithmetic is exact on what needs no rounding, the first shade is
-- the first accent and the last is the second.
pub render_logo-shades :
    (F : Float64) (p : Palette) (dark : Bool) (ls : List Bytes) (c d : ℕ × ℕ × ℕ)
    → IsExact F
    → 1 < total_visible ls
    → total_visible ls < 2 ^ 63
    → pick_variant dark p.accent_a ≡ format_hex c
    → pick_variant dark p.accent_b ≡ format_hex d
    → IsColour c
    → IsColour d
    → let n = total_visible ls - 1 in
      let shade = λ (i : ℕ). gradient_rgb F dark p.accent_a p.accent_b (position F i n) in
      (rune_lines (render_logo F p dark ls) ≡ ls)
      × (all_shades (render_logo F p dark ls) ≡ values shade 0 (total_visible ls))
      × (shade 0 ≡ some (pick_variant dark p.accent_a))
      × (shade n ≡ some (pick_variant dark p.accent_b))
unfolding render_logo
render_logo-shades F p dark ls c d exact many few ea eb hc hd =
    let n : ℕ = total_visible ls - 1 in
    let pos : 0 < n = omega arith in
    let shade = λ (i : ℕ). gradient_rgb F dark p.accent_a p.accent_b (position F i n) in
    let first = position-first F exact n pos (omega arith) in
    let last = position-last F exact n pos (omega arith) in
    (
      runes-render_lines shade 0 ls,
      shades-render_lines shade 0 ls,
      blend-colours F exact dark p.accent_a p.accent_b c d (position F 0 n) ea eb hc hd
          ∙ ap (λ t. blend F t (some c) (some d)) (ap (clamp F) first ∙ clamp-first F exact)
          ∙ blend-first F exact c d hc hd
          ∙ ap (λ (x : Bytes). some x) (sym ea),
      blend-colours F exact dark p.accent_a p.accent_b c d (position F n n) ea eb hc hd
          ∙ ap (λ t. blend F t (some c) (some d)) (ap (clamp F) last ∙ clamp-last F exact)
          ∙ blend-last F exact c d hc hd
          ∙ ap (λ (x : Bytes). some x) (sym eb),
    )
