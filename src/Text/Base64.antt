-- ===== src/Text/Base64.antt =====
-- `base64.b64decode`, `b64encode` and the URL-safe variants, with the two helpers that the SDK and
-- the adapter wrap round them. Decoding is the library's lenient loop: it skips what is not in the
-- alphabet, and stops at a pad that completes a group.
pub mod Laws
use fidrouter.Base.{
  ℕ, ◌+◌, ◌*◌, ◌-◌, ◌/◌, ◌%◌, zero, suc, Text, Bytes, Bool, true, false, ◌&&◌, Option, none, some,
  List, [], ◌∷◌, ◌++◌, Result, ok, err, value_error, ◌>>=◌, length, replicate, ltb, leb, ◌==◌,
  if◌then◌else◌,
}
use mathlib.Core.List.{map}
use fidrouter.Text.Strip.{rstrip}

-- The alphabet, by its last two characters.
unfoldable pub sextet_char : ℕ → ℕ → ℕ → ℕ
sextet_char c62 c63 d =
    if ltb d 26
    then b'A' + d
    else if ltb d 52
    then b'a' + (d - 26)
    else if ltb d 62
    then b'0' + (d - 52)
    else if d == 62
    then c62
    else c63

unfoldable pub char_sextet : ℕ → Option ℕ
char_sextet c =
    if leb b'A' c && leb c b'Z'
    then some (c - b'A')
    else if leb b'a' c && leb c b'z'
    then some (c - b'a' + 26)
    else if leb b'0' c && leb c b'9'
    then some (c - b'0' + 52)
    else if c == b'+'
    then some 62
    else if c == b'/'
    then some 63
    else none

-- Groups of three bytes.
unfoldable pub encode_with : (ℕ → ℕ) → Bytes → Text
encode_with char [] = []
encode_with char (a ∷ []) = char (a / 4) ∷ char (a % 4 * 16) ∷ b'=' ∷ b'=' ∷ []
encode_with char (a ∷ b ∷ []) =
    char (a / 4) ∷ char (a % 4 * 16 + b / 16) ∷ char (b % 16 * 4) ∷ b'=' ∷ []
encode_with char (a ∷ b ∷ c ∷ bs) =
    char (a / 4)
    ∷ char (a % 4 * 16 + b / 16)
    ∷ char (b % 16 * 4 + c / 64)
    ∷ char (c % 64)
    ∷ encode_with char bs

-- `_b64e`
unfoldable pub b64_encode : Bytes → Text
unfolding encode_with sextet_char
b64_encode = encode_with (sextet_char b'+' b'/')

unfoldable pub urlsafe_encode : Bytes → Text
unfolding encode_with sextet_char
urlsafe_encode = encode_with (sextet_char b'-' b'_')

-- `_b64u`
unfoldable pub b64u : Bytes → Text
unfolding urlsafe_encode rstrip
b64u bs = rstrip b'=' (urlsafe_encode bs)

emit : ℕ → Result Bytes → Result Bytes
emit b rest = do bs ← rest; ok (b ∷ bs)

-- One more value in a group: the place in the group, what is left over, and the rest of the loop.
step_group : ℕ → ℕ → ℕ → (ℕ → ℕ → Result Bytes) → Result Bytes
unfolding emit
step_group zero left d go = go 1 d
step_group (suc zero) left d go = emit (left * 4 + d / 16) (go 2 (d % 16))
step_group (suc (suc zero)) left d go = emit (left * 16 + d / 4) (go 3 (d % 4))
step_group (suc (suc (suc n))) left d go = emit (left * 64 + d) (go 0 0)

-- The loop, with the place in the group, what is left over and the pads seen.
decode_loop : ℕ → ℕ → ℕ → Text → Result Bytes
unfolding step_group char_sextet
decode_loop quad left pads [] = if quad == 0 then ok [] else err value_error
decode_loop quad left pads (c ∷ s) =
    let padded = decode_loop quad left (if leb 2 quad then pads + 1 else pads) s in
    let skipped = decode_loop quad left pads s in
    let go = λ (q l : ℕ). decode_loop q l 0 s in
    if c == b'='
    then if leb 2 quad && leb 4 (quad + (pads + 1)) then ok [] else padded
    else elim (char_sextet c) [ none ↦ skipped | some d ↦ step_group quad left d go ]

all_ascii : Text → Bool
all_ascii [] = true
all_ascii (c ∷ s) = ltb c 0x80 && all_ascii s

-- `_b64d`: `base64.b64decode` of a text
unfoldable pub b64_decode : Text → Result Bytes
unfolding decode_loop all_ascii
b64_decode s = if all_ascii s then decode_loop 0 0 0 s else err value_error

-- `-n % 4`
pad_count : ℕ → ℕ
pad_count n = (4 - n % 4) % 4

to_standard : ℕ → ℕ
to_standard c = if c == b'-' then b'+' else if c == b'_' then b'/' else c

unfoldable pub urlsafe_decode : Text → Result Bytes
unfolding b64_decode to_standard
urlsafe_decode s = b64_decode (map to_standard s)

-- `_b64url`, `_b64url_decode`
unfoldable pub b64url : Text → Result Bytes
unfolding urlsafe_decode pad_count
b64url s = urlsafe_decode (s ++ replicate (pad_count (length s)) b'=')
