-- ===== src/Text/Hex.antt =====
-- `bytes.hex()`: two lower-case digits for each byte.
use fidrouter.Base.{
  ℕ, ◌+◌, ◌*◌, ◌/◌, ◌%◌, ◌-◌, ◌<◌, Text, Bytes, Bool, false, ◌&&◌, ◌||◌, ◌≡◌, [], ◌∷◌, Option, none,
  some, Result, ok, err, value_error, ◌>>=◌, arith, refl, leb, ltb, ◌==◌, All, if◌then◌else◌,
}

unfoldable pub hex_digit : ℕ → ℕ
hex_digit d = if ltb d 10 then b'0' + d else b'a' + (d - 10)

unfoldable pub hex : Bytes → Text
hex [] = []
hex (b ∷ bs) = hex_digit (b / 16) ∷ hex_digit (b % 16) ∷ hex bs

-- The value of a digit.
unfoldable pub unhex_digit : ℕ → ℕ
unhex_digit c = if ltb c b'a' then c - b'0' else c + 10 - b'a'

pub unhex_digit-hex_digit : (d : ℕ) → d < 16 → unhex_digit (hex_digit d) ≡ d
unfolding unhex_digit hex_digit
unhex_digit-hex_digit d h = ground arith

unfoldable pub hex_value : ℕ → Option ℕ
hex_value c =
    if leb b'0' c && leb c b'9'
    then some (c - b'0')
    else if leb b'a' c && leb c b'f'
    then some (c - b'a' + 10)
    else if leb b'A' c && leb c b'F'
    then some (c - b'A' + 10)
    else none

-- The spaces that `bytes.fromhex` skips between bytes.
is_hex_space : ℕ → Bool
is_hex_space c = c == 32 || leb 9 c && leb c 13

add_byte : Option ℕ → Option ℕ → Result Bytes → Result Bytes
add_byte (some a) (some b) rest = do bs ← rest; ok ((a * 16 + b) ∷ bs)
add_byte _ _ rest = err value_error

-- `bytes.fromhex(s)`
unfoldable pub from_hex : Text → Result Bytes
unfolding hex_value is_hex_space add_byte
from_hex [] = ok []
from_hex (c ∷ []) = if is_hex_space c then ok [] else err value_error
from_hex (c ∷ d ∷ s) =
    let spaced = from_hex (d ∷ s) in
    let byte = add_byte (hex_value c) (hex_value d) (from_hex s) in
    if is_hex_space c then spaced else byte

hex_digit-plain : (d : ℕ) → d < 16 → is_hex_space (hex_digit d) ≡ false
unfolding is_hex_space hex_digit
hex_digit-plain d h = ground arith

pub hex_value-hex_digit : (d : ℕ) → d < 16 → hex_value (hex_digit d) ≡ some d
unfolding hex_value hex_digit
hex_value-hex_digit d h = ground arith

add_byte-ok :
    (a b c : ℕ) (bs : Bytes) → a * 16 + b ≡ c → add_byte (some a) (some b) (ok bs) ≡ ok (c ∷ bs)
unfolding add_byte
add_byte-ok a b c bs h = cc

from_hex-byte :
    (b : ℕ) (s : Text) {bs : Bytes}
    → b < 256
    → from_hex s ≡ ok bs
    → from_hex (hex_digit (b / 16) ∷ hex_digit (b % 16) ∷ s) ≡ ok (b ∷ bs)
unfolding from_hex
from_hex-byte b s {bs} hb h =
    rw
      (
        hex_digit-plain (b / 16) (omega arith),
        hex_value-hex_digit (b / 16) (omega arith),
        hex_value-hex_digit (b % 16) (omega arith),
        h,
      )
      (add_byte-ok (b / 16) (b % 16) b bs (omega arith))

from_hex-nil : from_hex [] ≡ ok []
unfolding from_hex
from_hex-nil = refl

-- What `hex` prints, `bytes.fromhex` reads back.
pub from_hex-hex : (bs : Bytes) → All (λ b. b < 256) bs → from_hex (hex bs) ≡ ok bs
unfolding hex
from_hex-hex [] h = from_hex-nil
from_hex-hex (b ∷ bs) (hb, hs) = from_hex-byte b (hex bs) hb (from_hex-hex bs hs)

-- So the printed form determines the bytes.
pub hex-injective :
    (a b : Bytes) → All (λ c. c < 256) a → All (λ c. c < 256) b → hex a ≡ hex b → a ≡ b
hex-injective a b ha hb h = cc (from_hex-hex a ha, from_hex-hex b hb, h)
