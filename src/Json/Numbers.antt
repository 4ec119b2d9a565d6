-- ===== src/Json/Numbers.antt =====
-- `int(x)` of a value, and `int(s)` of a text. Of the decimal digits only those of ASCII count.
use fidrouter.Base.{
  ℕ, ◌+◌, ◌*◌, ◌-◌, zero, suc, Text, Bool, true, false, ◌&&◌, [], ◌∷◌, Result, ok, err, type_error,
  value_error, ◌>>=◌, ℤ, pos, negsuc, ◌==◌, if◌then◌else◌,
}
use fidrouter.Text.Decimal.{is_digit}
use fidrouter.Text.Strip.{strip}
use fidrouter.Json.{Json, bool, num, real, str, Floats}

-- Digits, with single underscores between them.
int_digits : ℕ → Bool → Text → Result ℕ
unfolding is_digit
int_digits acc true [] = ok acc
int_digits acc false [] = err value_error
int_digits acc after_digit (c ∷ s) =
    let digit = int_digits (acc * 10 + (c - b'0')) true s in
    let underscore = int_digits acc false s in
    if is_digit c then digit else if c == b'_' && after_digit then underscore else err value_error

negate : ℕ → ℤ
negate zero = pos 0
negate (suc n) = negsuc n

signed : Text → Result ℤ
unfolding int_digits negate
signed [] = err value_error
signed (c ∷ s) =
    if c == b'-'
    then (do n ← int_digits 0 false s; ok (negate n))
    else if c == b'+'
    then (do n ← int_digits 0 false s; ok (pos n))
    else (do n ← int_digits 0 false (c ∷ s); ok (pos n))

unfoldable pub int_of_text : Text → Result ℤ
unfolding signed strip
int_of_text s = signed (strip s)

unfoldable pub to_int : Floats → Json → Result ℤ
unfolding int_of_text
to_int fl (bool true) = ok (pos 1)
to_int fl (bool false) = ok (pos 0)
to_int fl (num i) = ok i
to_int fl (real w) = fl.truncate w
to_int fl (str s) = int_of_text s
to_int fl j = err type_error
