-- ===== src/Jwt.antt =====
-- What the two token verifiers share: the three parts of a token, the choice of a key by its id, the
-- numbers of an RSA key and the expiry test.
pub mod Laws
use fidrouter.Base.{
  ℕ, ◌+◌, ◌*◌, Text, Bytes, lit, Bool, true, false, ◌&&◌, Option, none, some, List, [], ◌∷◌, ◌++◌,
  Result, ok, err, type_error, value_error, ◌>>=◌, ◌==◌, same, if◌then◌else◌, ℤ, pos,
}
use fidrouter.Text.Base64.{b64url}
use fidrouter.Json.{
  Json, null, bool, num, real, str, arr, obj, Items, nil, cons, get, get_or, item, as_text, truthy,
  Floats,
}
use fidrouter.Json.Equal.{json_equal}
use fidrouter.Json.Loads.{loads}
use fidrouter.Env.{Env, RsaKey}

-- `s.split(c)`: the part before the first separator, and the rest.
unfoldable pub split_onto : ℕ → Text → Text × List Text
split_onto c [] = ([], [])
split_onto c (d ∷ s) =
    let (part, parts) = split_onto c s in if d == c then ([], part ∷ parts) else (d ∷ part, parts)

unfoldable pub split : ℕ → Text → List Text
unfolding split_onto
split c s = let (part, parts) = split_onto c s in part ∷ parts

-- The unpacking of exactly three parts.
abbrev pub Parts : Type 0
Parts = record { header : Text; payload : Text; signature : Text }

unfoldable pub three_parts : List Text → Result Parts
three_parts (h ∷ p ∷ s ∷ []) = ok (record { header = h; payload = p; signature = s })
three_parts parts = err value_error

unfoldable pub split_token : Text → Result Parts
unfolding split three_parts
split_token token = three_parts (split b'.' token)

-- `(h64 + "." + p64).encode()`; the parts of a token that decodes are ASCII.
abbrev pub signing_input : Text → Text → Text
signing_input h p = h ++ (b'.' ∷ p)

-- `json.loads(_b64url(part))`
unfoldable pub decode_part : Env → Text → Result Json
decode_part env part = do bytes ← b64url part; loads env.floats bytes

-- `next((k for k in keys if k.get("kid") == kid), None)`
unfoldable pub find_key : Floats → Json → Items → Result (Option Json)
find_key fl kid nil = ok none
find_key fl kid (cons k ks) =
    let rest = find_key fl kid ks in
    do id ← get k (lit "kid"); if json_equal fl id kid then ok (some k) else rest

-- `jwks.get("keys", [])`, as something to iterate over: iterating over a text or over the keys of a
-- dict fails at the first one, if there is one.
unfoldable pub key_items : Json → Result Items
key_items (arr xs) = ok xs
key_items j = if truthy j then err type_error else ok nil

unfoldable pub select_key : Floats → Json → Json → Result (Option Json)
unfolding find_key key_items
select_key fl jwks kid = do
  keys ← get_or jwks (lit "keys") (arr nil)
  items ← key_items keys
  find_key fl kid items

-- `int.from_bytes(bytes, "big")`
unfoldable pub big_endian : ℕ → Bytes → ℕ
big_endian acc [] = acc
big_endian acc (b ∷ bs) = big_endian (acc * 256 + b) bs

unfoldable pub rsa_numbers : Json → Result RsaKey
unfolding big_endian
rsa_numbers jwk = do
  n64 ← (do v ← item jwk (lit "n"); as_text v)
  n ← b64url n64
  e64 ← (do v ← item jwk (lit "e"); as_text v)
  e ← b64url e64
  ok (record { modulus = big_endian 0 n; exponent = big_endian 0 e })

-- `now > x` for the kinds of value that compare with a float.
unfoldable pub later_than : Floats → ℕ → Json → Result Bool
later_than fl now (num i) = ok (fl.int_less i now)
later_than fl now (bool true) = ok (fl.int_less (pos 1) now)
later_than fl now (bool false) = ok (fl.int_less (pos 0) now)
later_than fl now (real w) = ok (fl.less w now)
later_than fl now j = err type_error

-- `claims.get("exp") and time.time() > claims["exp"]`
unfoldable pub has_expired : Env → Json → Result Bool
unfolding later_than
has_expired env claims = do
  exp ← get claims (lit "exp")
  let late = later_than env.floats env.now exp
  if truthy exp then late else ok false
