-- ===== src/Text/Utf8.antt =====
-- `str.encode()`: UTF-8, which refuses a lone surrogate.
pub mod Laws
pub mod Decode
use fidrouter.Base.{
  ℕ, ◌+◌, ◌/◌, ◌%◌, Text, Bytes, Result, ok, err, value_error, ◌>>=◌, Option, none, some, List, [],
  ◌∷◌, ◌++◌, ltb, if◌then◌else◌,
}

-- The bytes of one code point; `none` for a surrogate, and past the last code point.
unfoldable pub encode_char : ℕ → Option Bytes
encode_char c =
    if ltb c 0x80
    then some (c ∷ [])
    else if ltb c 0x800
    then some ((0xc0 + c / 64) ∷ (0x80 + c % 64) ∷ [])
    else if ltb c 0xd800
    then some ((0xe0 + c / 4096) ∷ (0x80 + c / 64 % 64) ∷ (0x80 + c % 64) ∷ [])
    else if ltb c 0xe000
    then none
    else if ltb c 0x10000
    then some ((0xe0 + c / 4096) ∷ (0x80 + c / 64 % 64) ∷ (0x80 + c % 64) ∷ [])
    else if ltb c 0x110000
    then some
        ((0xf0 + c / 262144) ∷ (0x80 + c / 4096 % 64) ∷ (0x80 + c / 64 % 64) ∷ (0x80 + c % 64) ∷ [])
    else none

pub encode_onto : Option Bytes → Result Bytes → Result Bytes
encode_onto none rest = err value_error
encode_onto (some bs) rest = do more ← rest; ok (bs ++ more)

unfoldable pub encode : Text → Result Bytes
unfolding encode_char encode_onto
encode [] = ok []
encode (c ∷ s) = encode_onto (encode_char c) (encode s)
