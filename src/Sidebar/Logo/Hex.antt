-- ===== src/Sidebar/Logo/Hex.antt =====
-- Colours as text.
use mure.Base.{ℕ, ◌/◌, ◌%◌, ◌<◌, ◌≡◌, some, arith}
use mure.Sidebar.Logo.{hex_value, hex_byte, parse_hex, hex_digit, format_hex}

-- Red, green and blue are bytes.
pub record IsColour (c : ℕ × ℕ × ℕ) : Type 0 where
  pub red : c.0 < 256
  pub green : c.1 < 256
  pub blue : c.2 < 256

hex_value-hex_digit : (n : ℕ) → n < 16 → hex_value (hex_digit n) ≡ some n
hex_value-hex_digit n h = ground arith

hex_byte-hex_digit : (n : ℕ) → n < 256 → hex_byte (hex_digit (n / 16)) (hex_digit (n % 16)) ≡ n
hex_byte-hex_digit n h =
    rw (hex_value-hex_digit (n / 16) (omega arith), hex_value-hex_digit (n % 16) (omega arith))
      (omega arith)

pub parse_hex-format_hex : (c : ℕ × ℕ × ℕ) → IsColour c → parse_hex (format_hex c) ≡ some c
unfolding parse_hex format_hex
parse_hex-format_hex (r, g, b) h =
    rw (hex_byte-hex_digit r h.red, hex_byte-hex_digit g h.green, hex_byte-hex_digit b h.blue)
