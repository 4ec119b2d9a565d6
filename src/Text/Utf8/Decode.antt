-- ===== src/Text/Utf8/Decode.antt =====
-- `bytes.decode()`: UTF-8 read strictly, with no overlong form and no surrogate.
pub mod Laws
use fidrouter.Base.{
  ℕ, zero, suc, ◌+◌, ◌*◌, ◌-◌, Text, Bytes, Option, none, some, [], ◌∷◌, Result, ok, err,
  value_error, ◌>>=◌, ◌&&◌, ltb, leb, ◌==◌, if◌then◌else◌,
}

-- After a first byte: how many bytes follow, the bits so far, and the range of the next byte.
pub record Lead : Type 0 where
  pub more : ℕ
  pub bits : ℕ
  pub low : ℕ
  pub high : ℕ

abbrev pub lead_of : ℕ → ℕ → ℕ → ℕ → Option Lead
lead_of more bits low high = some (record { more = more; bits = bits; low = low; high = high })

-- The byte after 0xed ends at 0x9f where surrogates are refused.
pub lead : ℕ → ℕ → Option Lead
lead ed_high b =
    if leb 0xc2 b && leb b 0xdf
    then lead_of 1 (b - 0xc0) 0x80 0xbf
    else if b == 0xe0
    then lead_of 2 0 0xa0 0xbf
    else if b == 0xed
    then lead_of 2 0xd 0x80 ed_high
    else if leb 0xe1 b && leb b 0xef
    then lead_of 2 (b - 0xe0) 0x80 0xbf
    else if b == 0xf0
    then lead_of 3 0 0x90 0xbf
    else if leb 0xf1 b && leb b 0xf3
    then lead_of 3 (b - 0xf0) 0x80 0xbf
    else if b == 0xf4
    then lead_of 3 4 0x80 0x8f
    else none

pub emit : ℕ → Result Text → Result Text
emit c rest = do s ← rest; ok (c ∷ s)

pub decode_loop : ℕ → ℕ → ℕ → ℕ → ℕ → Bytes → Result Text
unfolding lead emit
decode_loop ed_high zero bits low high [] = ok []
decode_loop ed_high (suc n) bits low high [] = err value_error
decode_loop ed_high zero bits low high (b ∷ bs) =
    let plain = emit b (decode_loop ed_high 0 0 0 0 bs) in
    let go = λ (l : Lead). decode_loop ed_high l.more l.bits l.low l.high bs in
    if ltb b 0x80 then plain else elim (lead ed_high b) [ none ↦ err value_error | some l ↦ go l ]
decode_loop ed_high (suc n) bits low high (b ∷ bs) =
    let value : ℕ = bits * 64 + (b - 0x80) in
    let last = emit value (decode_loop ed_high 0 0 0 0 bs) in
    let next = decode_loop ed_high n value 0x80 0xbf bs in
    if leb low b && leb b high then (if n == 0 then last else next) else err value_error

unfoldable pub decode : Bytes → Result Text
unfolding decode_loop
decode bs = decode_loop 0x9f 0 0 0 0 bs

-- `bytes.decode("utf-8", "surrogatepass")`
unfoldable pub decode_lax : Bytes → Result Text
unfolding decode_loop
decode_lax bs = decode_loop 0xbf 0 0 0 0 bs
