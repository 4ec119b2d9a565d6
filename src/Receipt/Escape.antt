-- ===== src/Receipt/Escape.antt =====
-- `_jstr`: a text as a JSON string in the form that Go's encoder is meant to give it; and that
-- encoder's own form, as the Go library documents it, to compare with.
pub mod Laws
use fidrouter.Base.{
  ℕ, ◌/◌, ◌%◌, Text, lit, Bool, ◌||◌, List, [], ◌∷◌, ◌++◌, ltb, ◌==◌, if◌then◌else◌,
}
use fidrouter.Text.Hex.{hex_digit}

-- `'\\u%04x' % o` below 0x100
abbrev pub unicode_escape : ℕ → Text
unicode_escape o = b'\\' ∷ b'u' ∷ b'0' ∷ b'0' ∷ hex_digit (o / 16) ∷ hex_digit (o % 16) ∷ []

unfoldable pub escape_char : ℕ → Text
escape_char c =
    if c == b'"'
    then b'\\' ∷ b'"' ∷ []
    else if c == b'\\'
    then b'\\' ∷ b'\\' ∷ []
    else if c == b'<'
    then lit "\\u003c"
    else if c == b'>'
    then lit "\\u003e"
    else if c == b'&'
    then lit "\\u0026"
    else if ltb c 0x20
    then unicode_escape c
    else c ∷ []

unfoldable pub escape : Text → Text
unfolding escape_char
escape [] = []
escape (c ∷ s) = escape_char c ++ escape s

unfoldable pub jstr : Text → Text
unfolding escape
jstr s = b'"' ∷ (escape s ++ b'"' ∷ [])

-- Go 1.22 and later: five control characters have short forms, and the two Unicode line
-- separators are escaped as well.
unfoldable pub go_escape_char : ℕ → Text
go_escape_char c =
    if c == b'"'
    then b'\\' ∷ b'"' ∷ []
    else if c == b'\\'
    then b'\\' ∷ b'\\' ∷ []
    else if c == 8
    then b'\\' ∷ b'b' ∷ []
    else if c == 9
    then b'\\' ∷ b't' ∷ []
    else if c == 10
    then b'\\' ∷ b'n' ∷ []
    else if c == 12
    then b'\\' ∷ b'f' ∷ []
    else if c == 13
    then b'\\' ∷ b'r' ∷ []
    else if ltb c 0x20 || c == b'<' || c == b'>' || c == b'&'
    then unicode_escape c
    else if c == 0x2028
    then lit "\\u2028"
    else if c == 0x2029
    then lit "\\u2029"
    else c ∷ []

unfoldable pub go_escape : Text → Text
unfolding go_escape_char
go_escape [] = []
go_escape (c ∷ s) = go_escape_char c ++ go_escape s

unfoldable pub go_jstr : Text → Text
unfolding go_escape
go_jstr s = b'"' ∷ (go_escape s ++ b'"' ∷ [])
