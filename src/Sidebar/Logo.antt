-- ===== src/Sidebar/Logo.antt =====
-- internal/sidebar/theme.go: the colours of the logo. The operations on float64 are an argument, since
-- Go may round them differently from machine to machine. A line is its runes. `none` for a colour is a
-- slice out of bounds, where Go panics.
pub mod Hex
pub mod Shades
use mure.Base.{
  ℕ, zero, suc, ◌+◌, ◌-◌, ◌*◌, ◌/◌, ◌%◌, Bool, true, false, not, ◌&&◌, List, [], ◌∷◌, ◌++◌, Option,
  none, some, Bytes, ltb, leb, if◌then◌else◌, ◌==◌, length,
}
use mure.Sidebar.Themes.{AdaptiveColor, Palette}

-- The value of a hexadecimal digit.
abbrev pub hex_value : ℕ → Option ℕ
hex_value c =
    if leb b'0' c && leb c b'9'
    then some (c - b'0')
    else if leb b'a' c && leb c b'f'
    then some (c - b'a' + 10)
    else if leb b'A' c && leb c b'F'
    then some (c - b'A' + 10)
    else none

abbrev pub or_zero : Option ℕ → Option ℕ → ℕ
or_zero (some x) (some y) = 16 * x + y
or_zero _ _ = 0

-- `strconv.ParseUint` of two digits; its error is dropped, and its value is 0 then.
abbrev pub hex_byte : ℕ → ℕ → ℕ
hex_byte a b = or_zero (hex_value a) (hex_value b)

abbrev pub channels : Bytes → Option (ℕ × ℕ × ℕ)
channels (a ∷ b ∷ c ∷ d ∷ e ∷ f ∷ s) = some (hex_byte a b, hex_byte c d, hex_byte e f)
channels _ = none

abbrev pub without_hash : Bytes → Bytes
without_hash [] = []
without_hash (c ∷ s) = if length s == 6 && c == b'#' then s else c ∷ s

unfoldable pub parse_hex : Bytes → Option (ℕ × ℕ × ℕ)
parse_hex s = channels (without_hash s)

abbrev pub pick_variant : Bool → AdaptiveColor → Bytes
pick_variant dark c = if dark then c.dark else c.light

-- `%02x` of a byte.
abbrev pub hex_digit : ℕ → ℕ
hex_digit n = if ltb n 10 then b'0' + n else b'a' + (n - 10)

abbrev pub hex_pair : ℕ → Bytes
hex_pair n = hex_digit (n / 16) ∷ hex_digit (n % 16) ∷ []

unfoldable pub format_hex : ℕ × ℕ × ℕ → Bytes
format_hex (r, g, b) = b'#' ∷ (hex_pair r ++ (hex_pair g ++ hex_pair b))

-- `float64`, with the conversion of an integer that is not negative and that to `uint8`.
pub record Float64 : Type 1 where
  pub Value : Type 0
  pub of_nat : ℕ → Value
  pub half : Value
  pub add : Value → Value → Value
  pub sub : Value → Value → Value
  pub mul : Value → Value → Value
  pub div : Value → Value → Value
  pub less : Value → Value → Bool
  pub to_uint8 : Value → ℕ

-- The two tests of `gradientRGB`.
abbrev pub at_least_zero : (F : Float64) → F.Value → F.Value
at_least_zero F t = if F.less t (F.of_nat 0) then F.of_nat 0 else t

abbrev pub clamp : (F : Float64) → F.Value → F.Value
clamp F t = let u = at_least_zero F t in if F.less (F.of_nat 1) u then F.of_nat 1 else u

abbrev pub lerp : (F : Float64) → F.Value → ℕ → ℕ → ℕ
lerp F t x y =
    F.to_uint8 (F.add (F.add (F.of_nat x) (F.mul (F.sub (F.of_nat y) (F.of_nat x)) t)) F.half)

abbrev pub blend : (F : Float64) → F.Value → Option (ℕ × ℕ × ℕ) → Option (ℕ × ℕ × ℕ) → Option Bytes
blend F t (some (r, g, b)) (some (r', g', b')) =
    some (format_hex (lerp F t r r', lerp F t g g', lerp F t b b'))
blend F t _ _ = none

unfoldable pub gradient_rgb :
    (F : Float64) → Bool → AdaptiveColor → AdaptiveColor → F.Value → Option Bytes
unfolding parse_hex
gradient_rgb F dark a b t =
    blend F (clamp F t) (parse_hex (pick_variant dark a)) (parse_hex (pick_variant dark b))

-- The visible runes of the lines.
unfoldable pub count_visible : Bytes → ℕ
count_visible [] = 0
count_visible (r ∷ rs) = if r == b' ' then count_visible rs else suc (count_visible rs)

unfoldable pub total_visible : List Bytes → ℕ
unfolding count_visible
total_visible [] = 0
total_visible (l ∷ ls) = count_visible l + total_visible ls

pub data Cell : Type 0 where
  space : Cell
  glyph : ℕ → Option Bytes → Cell

-- `shade` is the colour of the visible rune at an index.
unfoldable pub render_line : (ℕ → Option Bytes) → ℕ → Bytes → List Cell
render_line shade idx [] = []
render_line shade idx (r ∷ rs) =
    let blank = render_line shade idx rs in
    let visible = render_line shade (suc idx) rs in
    if r == b' ' then space ∷ blank else glyph r (shade idx) ∷ visible

unfoldable pub render_lines : (ℕ → Option Bytes) → ℕ → List Bytes → List (List Cell)
unfolding render_line count_visible
render_lines shade idx [] = []
render_lines shade idx (l ∷ ls) =
    render_line shade idx l ∷ render_lines shade (idx + count_visible l) ls

-- The position of the visible rune at an index, of `n` behind the first. `total - 1` stops at 0 here,
-- which only a logo with no visible rune sees.
abbrev pub position : (F : Float64) → ℕ → ℕ → F.Value
position F i n =
    if F.less (F.of_nat 0) (F.of_nat n) then F.div (F.of_nat i) (F.of_nat n) else F.of_nat 0

unfoldable pub render_logo : Float64 → Palette → Bool → List Bytes → List (List Cell)
unfolding render_lines total_visible gradient_rgb
render_logo F p dark ls =
    render_lines
      (λ i. gradient_rgb F dark p.accent_a p.accent_b (position F i (total_visible ls - 1))) 0 ls
