-- ===== src/Cloud/Avatar.antt =====
-- internal/cloud/avatar.go: the picture of an account, drawn from its name.

use Prim.Native.String.{◌∷◌ as push}
use famfun.Prelude.{ℕ, ◌%◌, ◌<◌, ◌≡◌, ap, String, List, [], ◌∷◌, arith}
use famfun.Prelude.Text.{◌⧺◌}
use famfun.Prelude.Decimal.{decimal}

-- crypto/md5 as the list of its sixteen bytes, and strings.ToUpper.
pub record Drawing : Type 0 where
  pub md5 : String → List ℕ
  pub to_upper : String → String

-- The names are valid UTF-8, so that the first rune is the first character.
unfoldable pub first_char : String → String
first_char String.[] = "?"
first_char (String.◌∷◌ c s) = push c ""

-- hash[0]; an array of sixteen bytes is not empty.
abbrev pub first_byte : List ℕ → ℕ
first_byte [] = 0
first_byte (b ∷ bs) = b

unfoldable pub username_color : Drawing → String → String
username_color d username = "hsl(" ⧺ (decimal (first_byte (d.md5 username) % 360) ⧺ ", 60%, 45%)")

unfoldable pub generate_avatar : Drawing → String → String
generate_avatar d username =
    let initial = d.to_upper (first_char username) in
    "<svg xmlns=\"http://www.w3.org/2000/svg\" width=\"64\" height=\"64\" viewBox=\"0 0 64 64\">\n  <rect width=\"64\" height=\"64\" rx=\"8\" fill=\""
    ⧺ (username_color d username
        ⧺ ("\"/>\n  <text x=\"32\" y=\"32\" dy=\".35em\" text-anchor=\"middle\" fill=\"#fff\" font-family=\"sans-serif\" font-size=\"28\" font-weight=\"600\">"
            ⧺ (initial ⧺ "</text>\n</svg>")))

-- The first byte is below 256, and so the remainder by 360 is the byte itself.
pub username_color-byte :
    (d : Drawing) (username : String)
    → first_byte (d.md5 username) < 256
    → username_color d username ≡ "hsl(" ⧺ (decimal (first_byte (d.md5 username)) ⧺ ", 60%, 45%)")
unfolding username_color
username_color-byte d username h =
    ap (λ n. "hsl(" ⧺ (decimal n ⧺ ", 60%, 45%)")) (remainder (first_byte (d.md5 username)) h)
  where
    remainder : (n : ℕ) → n < 256 → n % 360 ≡ n
    remainder n lt = omega arith
